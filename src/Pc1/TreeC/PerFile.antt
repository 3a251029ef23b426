-- ===== src/Pc1/TreeC/PerFile.antt =====
-- The files of a tree, each with the rows above its columns: a challenge leads to its place in one of
-- them, and from there to the root.
use native.Mathlib.Nat.{
  pow-suc, zero-add, mul-le-mul_right, suc-mul, mul_comm, div-add-mod', mod-lt, one-le-pow,
  div-lt_iff_lt-mul,
}
use supra_seal.Prelude.{
  ℕ, zero, suc, ◌+◌, ◌*◌, ◌/◌, ◌%◌, ◌^◌, ◌≤◌, ◌<◌, ◌≡◌, refl, sym, subst, ◌∙◌, ap, ap₂, arith, none,
  some, true, false, List, [], ◌∷◌, length, get_elem?, get_or, drop, size_mod, bind_some,
  length-replicate, length-drop,
}
use supra_seal.Commit.Output.{Node}
use supra_seal.Commit.TreeProof.{TreeProof, create, set_root, node_at, gen_inclusion_path}
use supra_seal.Commit.TreeProof.Tree.{from, sequence, parent, climb, IsTree, top_of}
use supra_seal.Commit.TreeProof.Levels.{pow-pow}
use supra_seal.Commit.TreeProof.Climb.{Sizes}
use supra_seal.Commit.TreeProof.Split.{climb-split}
use supra_seal.Pc1.Rows.{Memory, input, output, start}
use supra_seal.Pc1.Rows.Spec.{Row, above, levels_above, Stored, above_count}
use supra_seal.Pc1.Rows.Cell.{from_ext}
use supra_seal.Pc1.Rows.Level.{RowAt}
use supra_seal.Pc1.Rows.Tree.{Stored-row, Stored-IsTree}
use supra_seal.Pc1.TreeBuilder.{TreeBuilder}
use supra_seal.Pc1.TreeBuilder.Size.{above_count-lt}
use supra_seal.Pc1.TreeBuilder.Around.{top_lem}
use supra_seal.Pc1.TreeBuilder.Whole.{build_tree-columns}
use supra_seal.Pc1.TreeD.{zero_node}
use supra_seal.Pc1.TreeC.{space, build_files}

get_elem?-drop : (n i : ℕ) (xs : List Node) → get_elem? (drop n xs) i ≡ get_elem? xs (n + i)
get_elem?-drop zero i xs = ap (get_elem? xs) (omega arith)
get_elem?-drop (suc n) i [] = refl
get_elem?-drop (suc n) i (x ∷ xs) =
    let e : suc (n + i) ≡ suc n + i = omega arith in
    get_elem?-drop n i xs ∙ ap (get_elem? (x ∷ xs)) e

regroup : (ca w q m x : ℕ) → q * (ca * w) + (ca * m + x) ≡ ca * (q * w + m) + x
regroup ca w q m x = grind arith

-- The place of a column in the files is that of its nodes in the leaves.
column_place : (ca w c x : ℕ) → c / w * (ca * w) + (ca * (c % w) + x) ≡ ca * c + x
column_place ca w c x = regroup ca w (c / w) (c % w) x ∙ ap (λ t. ca * t + x) (div-add-mod' c w)

module _ (poseidon : ℕ → List Node → Node) (allocate : ℕ → List Node)
    (allocated : (n : ℕ) → length (allocate n) ≡ n) (b : TreeBuilder) (r sub : ℕ)
    (leaves : List Node) (wide : 1 < b.arity) (two : 1 < b.col_arity) (few : suc r < 64)
    (sub_lem : sub ≡ b.col_arity * b.arity ^ suc r) (small : sub < size_mod) where
  -- the hashes of the columns of the `i`-th file
  abbrev columns : ℕ → Row
  columns i = above (poseidon b.col_arity) b.col_arity (get_elem? (drop (i * sub) leaves))

  pub record FileDone (i : ℕ) (file : List Node) (root : Node) : Type 0 where
    stored : Stored (poseidon b.arity) b.arity (get_elem? file) (columns i) 0 (suc r)
    top : levels_above (poseidon b.arity) b.arity (suc r) (columns i) 0 ≡ some root

  pub data Files : ℕ → List (List Node) → List Node → Type 0 where
    end : {i : ℕ} → Files i [] []
    file :
        {i : ℕ} {f : List Node} {x : Node} {fs : List (List Node)} {xs : List Node}
        → FileDone i f x
        → Files (suc i) fs xs
        → Files i (f ∷ fs) (x ∷ xs)

  pub build_files-Files :
      (elmts n i : ℕ)
      → elmts ≡ b.arity ^ suc r + above_count b.arity (suc r)
      → (i + n) * sub ≤ length leaves
      → (fs : List (List Node)) × (xs : List Node) × (build_files poseidon allocate b true sub elmts
            n i leaves
          ≡ some (fs, xs))
        × Files i fs xs
        × (length fs ≡ n)
  unfolding build_files
  build_files-Files elmts zero i he h = ([], [], refl, end, refl)
  build_files-Files elmts (suc n) i he h =
      let m : Memory = space (drop (i * sub) leaves) elmts in
      let next : suc i * sub ≤ (i + suc n) * sub =
        mul-le-mul_right {m = suc i} {n = i + suc n} sub (omega arith) in
      let fits : 0 + sub ≤ length (drop (i * sub) leaves) =
        omega (arith, length-drop (i * sub) leaves, suc-mul i sub) in
      let elm : length (m output) ≡ elmts = length-replicate elmts zero_node in
      let later : (suc i + n) * sub ≤ length leaves =
        subst (λ x. x * sub ≤ length leaves) (omega arith) h in
      let at : RowAt m (start input) (get_elem? (drop (i * sub) leaves)) sub = record {
        fits = fits;
        cells = λ j lt. ap (get_elem? (drop (i * sub) leaves)) (omega arith);
      } in
      let (m', root, e, top, stored, len) =
        build_tree-columns (poseidon b.col_arity) (poseidon b.arity) allocate allocated b wide r sub
          false m (get_elem? (drop (i * sub) leaves)) two few sub_lem small at
          (omega (arith, elm, he)) in
      let (fs, xs, e', rest, count) = build_files-Files elmts n (suc i) he later in
      (
        m' output ∷ fs,
        root ∷ xs,
        bind_some _ (m', root) _ e ∙ bind_some _ (fs, xs) _ e',
        file (record { stored = stored; top = top }) rest,
        ap suc count,
      )

  Files-length :
      {i : ℕ} {fs : List (List Node)} {xs : List Node} → Files i fs xs → length fs ≡ length xs
  Files-length end = refl
  Files-length (file d rest) = ap suc (Files-length rest)

  Files-at :
      {i : ℕ} {fs : List (List Node)} {xs : List Node}
      → Files i fs xs
      → (a : ℕ) → a < length fs
      → (x : Node) × FileDone (i + a) (get_or fs a []) x
  Files-at end a h = absurd (omega arith)
  Files-at {i} (file {f} {x} d rest) zero h = (x, subst (λ k. FileDone k f x) (omega arith) d)
  Files-at {i} (file {fs} d rest) (suc a) h =
      let (x, done) = Files-at rest a (omega arith) in
      (x, subst (λ k. FileDone k (get_or fs a []) x) (omega arith) done)

  one_more : (j : ℕ) → 1 + j ≡ suc j
  one_more j = omega arith

  none_more : (j : ℕ) → j ≡ 0 + j
  none_more j = omega arith

  -- the roots stand at the top of the files
  Files-roots :
      {i : ℕ} {fs : List (List Node)} {xs : List Node}
      → Files i fs xs
      → sequence (from (λ a. node_at fs a (top_of b.arity 0 (suc r))) 0 (length fs)) ≡ some xs
  unfolding node_at
  Files-roots end = refl
  Files-roots (file {f} {x} {fs} {xs} d rest) =
      let up = Stored-IsTree (poseidon b.arity) b.arity (get_elem? f) _ 0 (suc r) d.stored in
      let later : from (λ a. node_at (f ∷ fs) a (top_of b.arity 0 (suc r))) 1 (length fs)
          ≡ from (λ a. node_at fs a (top_of b.arity 0 (suc r))) 0 (length fs) =
        from_ext _ _ 1 0 (length fs) (λ j q.
          ap (λ a. node_at (f ∷ fs) a (top_of b.arity 0 (suc r))) (one_more j)
          ∙ ap (λ a. node_at fs a (top_of b.arity 0 (suc r))) (none_more j)) in
      ap₂ (λ o os. sequence (o ∷ os)) (up.1 ∙ d.top) later
      ∙ ap (λ o. elim o [ none ↦ none | some ys ↦ some (x ∷ ys) ]) (Files-roots rest)

  -- The proof in such files.
  pub files_climb :
      (k c : ℕ) (fs : List (List Node)) (xs : List Node)
      → b.arity ≡ 2 ^ k
      → 0 < k
      → suc (suc r) * k < 64
      → c < b.arity ^ suc (suc r)
      → Files 0 fs xs
      → length fs ≡ b.arity
      → let u : TreeProof =
          gen_inclusion_path c
            (set_root (some (poseidon b.arity xs)) (create b.arity (suc (suc r)) fs b.arity 0)) in
        (u.leaf
          ≡ parent
              (poseidon b.col_arity)
              (from (λ x. get_elem? leaves (b.col_arity * c + x)) 0 b.col_arity))
        × (u.root ≡ some (poseidon b.arity xs))
        × (climb (poseidon b.arity) u.path u.leaf ≡ some (poseidon b.arity xs))
  unfolding create set_root node_at parent
  files_climb k c fs xs arity_pow big h64 hcount done len =
      let a : ℕ = b.arity in
      let t : TreeProof = set_root (some (poseidon a xs)) (create a (suc (suc r)) fs a 0) in
      let w : ℕ = 2 ^ (suc r * k) in
      let w_lem : w ≡ a ^ suc r = sym (ap (λ x. x ^ suc r) arity_pow ∙ pow-pow k (suc r)) in
      let sizes : Sizes t k c = record {
        arity_pow = arity_pow;
        arity_big = big;
        leaves_small = h64;
        fresh = refl;
        in_range =
            subst (λ x. c < x) (ap (λ x. x ^ suc (suc r)) arity_pow ∙ pow-pow k (suc (suc r)))
              hcount;
      } in
      let room : 2 * a ^ suc r ≤ b.col_arity * a ^ suc r =
        mul-le-mul_right {m = 2} {n = b.col_arity} (a ^ suc r) two in
      let row_pos : 0 < a ^ suc r = omega (arith, one-le-pow (suc r) a (omega arith)) in
      let w_pos : 0 < w = omega (arith, w_lem) in
      let below : c < a * w =
        subst (λ x. c < x)
          (pow-suc a (suc r) ∙ mul_comm (a ^ suc r) a ∙ ap (λ x. a * x) (sym w_lem)) hcount in
      let which : c / w < a = (div-lt_iff_lt-mul {k = w} {x = c} {y = a} w_pos).1 below in
      let in_file : c / w < length fs = omega arith in
      let place : c % w < a ^ suc r = omega (arith, w_lem, mod-lt c w_pos) in
      let (x, held) = Files-at done (c / w) in_file in
      let tree : (i : ℕ) → i < a → IsTree (poseidon a) a (get_elem? (get_or fs i [])) 0 (suc r) =
        λ i lt.
          let (y, d) = Files-at done i (omega arith) in
          (Stored-IsTree (poseidon a) a _ _ 0 (suc r) d.stored).0 in
      let (same_root, leaf, path) =
        climb-split (poseidon a) t k c (suc r) sizes refl refl (omega arith)
          (omega (arith, top_lem a 0 (suc r), above_count-lt a (suc r) wide, room, sub_lem)) tree in
      let at_place : c % w ≡ 0 + c % w = omega arith in
      let part : (x : ℕ) → (0 + c / w) * sub + (b.col_arity * (c % w) + x) ≡ b.col_arity * c + x =
        λ x. rw (zero-add (c / w)) (
          ap (λ n. c / w * n + (b.col_arity * (c % w) + x))
            (sub_lem ∙ ap (λ n. b.col_arity * n) (sym w_lem))
          ∙ column_place b.col_arity w c x) in
      let roots : sequence (from (λ i. node_at fs i (top_of a 0 (suc r))) 0 a) ≡ some xs =
        ap (λ n. sequence (from (λ i. node_at fs i (top_of a 0 (suc r))) 0 n)) (sym len)
        ∙ Files-roots done in
      (
        leaf
            ∙ ap (get_elem? (get_or fs (c / w) [])) at_place
            ∙ Stored-row (poseidon a) a _ _ 0 (suc r) held.stored (c % w) place
            ∙ ap (parent (poseidon b.col_arity)) (
                from_ext _ _ 0 0 b.col_arity (λ x q.
                  get_elem?-drop ((0 + c / w) * sub) (b.col_arity * (c % w) + (0 + x)) leaves
                  ∙ ap (get_elem? leaves) (part (0 + x)))),
        same_root,
        path ∙ ap (λ o. elim o [ none ↦ none | some ns ↦ some (poseidon a ns) ]) roots,
      )
