-- ===== src/Pc1/TreeBuilder/Proof.antt =====
-- The files that `TreeBuilder` writes, with the roots that it returns, are those that c1 proves
-- inclusion in: the tree of the columns, and the tree of the last layer, two rows of which are not
-- stored.
use native.Mathlib.Nat.{
  div-add-mod', div-lt_iff_lt-mul, mul-le-mul_right, mod-lt, one-le-pow, pow-le-pow_right, mul_comm,
}
use supra_seal.Prelude.{
  ℕ, suc, ◌+◌, ◌-◌, ◌*◌, ◌/◌, ◌%◌, ◌^◌, ◌≤◌, ◌<◌, ◌≡◌, refl, sym, subst, ◌∙◌, ap, arith, some, true,
  false, List, [], ◌∷◌, length, get_elem?, size_mod,
}
use supra_seal.Commit.Output.{Node}
use supra_seal.Commit.TreeProof.{TreeProof, create, set_root, node_at, gen_inclusion_path}
use supra_seal.Commit.TreeProof.Levels.{pow-pow}
use supra_seal.Commit.TreeProof.Tree.{from, parent, climb, IsTree, top_of}
use supra_seal.Commit.TreeProof.Climb.{factor_small, Sizes, climb-one_buffer}
use supra_seal.Commit.TreeProof.First.{hash_two, gen_path}
use supra_seal.Commit.TreeProof.First.Places.{Discarded}
use supra_seal.Commit.TreeProof.First.Whole.{climb-Discarded}
use supra_seal.Pc1.Rows.{Memory, input, output, start}
use supra_seal.Pc1.Rows.Spec.{Row, above, levels_above, Stored, StoredAbove, above_count}
use supra_seal.Pc1.Rows.Level.{RowAt}
use supra_seal.Pc1.Rows.Tree.{Stored-row, Stored-IsTree}
use supra_seal.Pc1.TreeBuilder.{TreeBuilder, build_tree}
use supra_seal.Pc1.TreeBuilder.Size.{above_count-lt}
use supra_seal.Pc1.TreeBuilder.Loop.{row_grows}
use supra_seal.Pc1.TreeBuilder.Whole.{build_tree-Built, build_tree-columns}
use supra_seal.Pc1.TreeBuilder.Around.{top_lem, three_more, three_up}

module _ (col_hash hash : List Node → Node) (allocate : ℕ → List Node)
    (allocated : (n : ℕ) → length (allocate n) ≡ n) (b : TreeBuilder) (k j : ℕ)
    (arity_pow : b.arity ≡ 2 ^ k) (arity_big : 0 < k) where
  wide : 1 < b.arity
  wide = omega (arith, arity_pow, pow-le-pow_right {n = 2} (omega arith) {i = 1} {j = k} arity_big)

  few_levels : (n : ℕ) → n * k < 64 → n < 64
  few_levels n h = factor_small k n arity_big (omega (arith, mul_comm n k))

  in_row : (n c : ℕ) → c < b.arity ^ n → c < 2 ^ (n * k)
  in_row n c h = subst (λ x. c < x) (ap (λ a. a ^ n) arity_pow ∙ pow-pow k n) h

  -- For a builder of arity `2 ^ k`, columns of more than one node, `arity ^ (j + 1)` of them, storage for the
  -- rows, and a challenge that names a column: `BuildTree`, told that the leaves are columns, ends, and the
  -- inclusion path that `GenInclusionPath` makes in what it has written, with the root that it
  -- returned, takes the hash of the challenged column as its leaf and hashes up from it to that root.
  columns-climb :
      (count c : ℕ) (m : Memory)
      → 1 < b.col_arity
      → suc j * k < 64
      → count ≡ b.col_arity * b.arity ^ suc j
      → count < size_mod
      → count ≤ length (m input)
      → b.arity ^ suc j + above_count b.arity (suc j) ≤ length (m output)
      → length (m output) < size_mod
      → c < b.arity ^ suc j
      → (m' : Memory) × (root : Node) × (build_tree col_hash hash allocate b count
            (start output)
            (start input)
            true
            false
            m
          ≡ some (m', root))
        × (let u : TreeProof =
              gen_inclusion_path c
                (set_root (some root) (create b.arity (suc j) (m' output ∷ []) 1 0)) in
            (u.leaf
              ≡ parent col_hash
                  (from (λ a. get_elem? (m input) (b.col_arity * c + a)) 0 b.col_arity))
            × (u.root ≡ some root)
            × (climb hash u.path u.leaf ≡ some root))
  unfolding create set_root node_at
  columns-climb count c m two h64 hc small enough fits word hcol =
      let a : ℕ = b.arity in
      let n : ℕ = suc j in
      let row : Row = get_elem? (m input) in
      let at : RowAt m (start input) row count = record {
        fits = omega arith;
        cells = λ i h. ap (get_elem? (m input)) (omega arith);
      } in
      let (m', root, e, top, stored, len) =
        build_tree-columns col_hash hash allocate allocated b wide j count false m row two
          (few_levels (suc j) h64) hc small at fits in
      let (is_tree, at_top) =
        Stored-IsTree hash a (get_elem? (m' output)) (above col_hash b.col_arity row) 0 n stored in
      let t : TreeProof = set_root (some root) (create a n (m' output ∷ []) 1 0) in
      let sizes : Sizes t k c = record {
        arity_pow = arity_pow;
        arity_big = arity_big;
        leaves_small = h64;
        fresh = refl;
        in_range = in_row n c hcol;
      } in
      let (same_root, leaf, path) =
        climb-one_buffer hash t k c sizes refl (omega arith) (omega (arith, top_lem a 0 n))
          is_tree in
      let at_c : c ≡ 0 + c = omega arith in
      (
        m',
        root,
        e,
        (
          leaf
              ∙ ap (get_elem? (m' output)) at_c
              ∙ Stored-row hash a (get_elem? (m' output)) (above col_hash b.col_arity row) 0 n
                  stored c hcol,
          same_root,
          path ∙ at_top ∙ top,
        ),
      )

  -- The proof in a file whose rows are known.
  discarded_end :
      (c : ℕ) (fl leaves tree : List Node) (root : Node)
      → (3 + suc j) * k < 64
      → above_count b.arity (suc (suc j)) < size_mod
      → c < b.arity ^ (3 + suc j)
      → ((i : ℕ)
          → i < b.arity ^ 3
          → get_elem? fl i ≡ get_elem? leaves (c / b.arity ^ 3 * b.arity ^ 3 + i))
      → levels_above hash b.arity (suc j) (levels_above hash b.arity 3 (get_elem? leaves)) 0
        ≡ some root
      → Stored hash b.arity
          (get_elem? tree)
          (levels_above hash b.arity 3 (get_elem? leaves))
          0
          (suc j)
      → let u : TreeProof =
          gen_path hash c
            (some fl)
            (set_root (some root) (create b.arity (3 + suc j) (tree ∷ []) 1 2)) in
        (u.leaf ≡ get_elem? leaves c)
        × (u.root ≡ some root)
        × (climb hash u.path u.leaf ≡ some root)
  unfolding create set_root node_at
  discarded_end c fl leaves tree root h64 word hcount around top stored =
      let a : ℕ = b.arity in
      let row : Row = get_elem? leaves in
      let t : TreeProof = set_root (some root) (create a (3 + suc j) (tree ∷ []) 1 2) in
      let three : 3 * k ≤ (3 + suc j) * k =
        mul-le-mul_right {m = 3} {n = 3 + suc j} k (omega arith) in
      let d : Discarded t k 3 = record {
        arity_pow = arity_pow;
        arity_big = arity_big;
        rows_big = omega arith;
        discarded = refl;
        rows_small = omega arith;
        rows_held = omega arith;
        fresh = refl;
      } in
      let some_leaf : 0 < a ^ 3 = omega (arith, one-le-pow 3 a (omega (arith, wide))) in
      let left : suc j ≡ 3 + suc j - 3 = omega arith in
      let (is_tree, at_top) =
        Stored-IsTree hash a (get_elem? tree) (levels_above hash a 3 row) 0 (suc j) stored in
      let place : c / a ^ 3 < a ^ suc j =
        (div-lt_iff_lt-mul {k = a ^ 3} {x = c} {y = a ^ suc j} some_leaf).1
          (subst (λ x. c < x) (three_more a (suc j)) hcount) in
      let base : get_elem? tree (c / a ^ 3) ≡ parent hash (from (hash_two hash a fl) 0 a) =
        ap (get_elem? tree) (omega arith)
        ∙ Stored-row hash a (get_elem? tree) (levels_above hash a 3 row) 0 (suc j) stored
            (c / a ^ 3) place
        ∙ three_up hash a (c / a ^ 3) row fl around in
      let (same_root, leaf, path) =
        climb-Discarded hash t fl k c d refl (omega arith) h64 (in_row (3 + suc j) c hcount)
          (subst (λ x. top_of a 0 x < size_mod) left (omega (arith, top_lem a 0 (suc j))))
          (subst (IsTree hash a (get_elem? tree) 0) left is_tree) base in
      (
        leaf ∙ around (c % a ^ 3) (mod-lt c some_leaf) ∙ ap row (div-add-mod' c (a ^ 3)),
        same_root,
        path ∙ ap (λ x. get_elem? tree (top_of a 0 x)) (sym left) ∙ at_top ∙ top,
      )

  -- For a builder of arity `2 ^ k` that discards two rows, `arity ^ (j + 4)` leaves, storage for the rows
  -- that are kept, and a challenge that names a leaf: `BuildTree` ends, and the inclusion path that
  -- `GenInclusionPath` makes in what it has written, with the root that it returned and the leaves
  -- around the challenge, takes the challenged leaf and hashes up from it to that root.
  discarded-climb :
      (count c : ℕ) (m : Memory) (fl : List Node)
      → b.discard_rows ≡ 2
      → (3 + suc j) * k < 64
      → count ≡ b.arity ^ (3 + suc j)
      → count < size_mod
      → count ≤ length (m input)
      → above_count b.arity (suc (suc j)) ≤ length (m output)
      → c < count
      → ((i : ℕ)
          → i < b.arity ^ 3
          → get_elem? fl i ≡ get_elem? (m input) (c / b.arity ^ 3 * b.arity ^ 3 + i))
      → (m' : Memory) × (root : Node) × (build_tree col_hash hash allocate b count
            (start output)
            (start input)
            false
            false
            m
          ≡ some (m', root))
        × (let u : TreeProof =
              gen_path hash c
                (some fl)
                (set_root (some root) (create b.arity (3 + suc j) (m' output ∷ []) 1 2)) in
            (u.leaf ≡ get_elem? (m input) c)
            × (u.root ≡ some root)
            × (climb hash u.path u.leaf ≡ some root))
  unfolding create set_root node_at
  discarded-climb count c m fl hd h64 hc small enough fits hcount around =
      let a : ℕ = b.arity in
      let n : ℕ = suc j in
      let row : Row = get_elem? (m input) in
      let at : RowAt m (start input) row count = record {
        fits = omega arith;
        cells = λ i h. ap (get_elem? (m input)) (omega arith);
      } in
      let r =
        build_tree-Built col_hash hash allocate allocated b wide n count m row (omega arith)
          (omega (arith, few_levels (3 + n) h64, hd)) (hc ∙ ap (λ x. a ^ x) (omega (arith, hd)))
          small at fits in
      let up : count ≡ a ^ suc (suc (suc n)) = hc ∙ ap (λ x. a ^ x) (omega arith) in
      let word : above_count a (suc n) < size_mod = omega (
        arith,
        up,
        above_count-lt a (suc n) wide,
        row_grows a (suc n) wide,
        row_grows a (suc (suc n)) wide,
      ) in
      (
        r.after,
        r.root,
        r.runs,
        discarded_end c fl (m input) (r.after output) r.root h64 word (omega (arith, hc)) around
            (subst (λ d. levels_above hash a (suc n) (levels_above hash a d row) 0 ≡ some r.root) hd
              r.top)
            (subst
              (λ d.
                StoredAbove hash a (get_elem? (r.after output)) (levels_above hash a d row) 0
                  (suc n))
              hd r.stored),
      )
