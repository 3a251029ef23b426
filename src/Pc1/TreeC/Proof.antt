-- ===== src/Pc1/TreeC/Proof.antt =====
-- The files of tree C, one for each child of the root, are those that c1 proves inclusion in.
use native.Mathlib.Nat.{
  pow-suc, zero-add, mul-le-mul_right, mul_comm, mul-div_cancel_left, pow-le-pow_right,
}
use supra_seal.Prelude.{
  ℕ, suc, ◌+◌, ◌*◌, ◌/◌, ◌^◌, ◌≤◌, ◌<◌, ◌≡◌, ◌≢◌, refl, sym, subst, ◌∙◌, ap, arith, some, true,
  false, List, [], length, get_elem?, get_or, size_mod, bind_some, ◌>>=◌, if_on, if_off, ==_false,
  lt→ltb,
}
use supra_seal.Commit.Output.{Node}
use supra_seal.Commit.TreeProof.{TreeProof, create, set_root, node_at, gen_inclusion_path}
use supra_seal.Commit.TreeProof.Tree.{from, parent, climb}
use supra_seal.Commit.TreeProof.Climb.{factor_small}
use supra_seal.Pc1.Rows.Spec.{above_count}
use supra_seal.Pc1.Rows.Cell.{from_ext}
use supra_seal.Pc1.TreeBuilder.{TreeBuilder, size}
use supra_seal.Pc1.TreeBuilder.Size.{size-columns}
use supra_seal.Pc1.TreeC.{top_root, build_files, build_tree_c, build_from_layers}
use supra_seal.Pc1.TreeC.Merge.{leaves_of-columns}
use supra_seal.Pc1.TreeC.PerFile.{build_files-Files, files_climb}

swap_factors : (x y z : ℕ) → x * (y * z) ≡ z * (x * y)
swap_factors x y z = grind arith

-- From the leaves.
build_tree_c-climb :
    (poseidon : ℕ → List Node → Node) (allocate : ℕ → List Node) (b : TreeBuilder)
    (k r c cur_nodes : ℕ) (leaves : List Node)
    → ((n : ℕ) → length (allocate n) ≡ n)
    → b.arity ≡ 2 ^ k
    → 0 < k
    → b.arity ≢ 16
    → 1 < b.col_arity
    → suc (suc r) * k < 64
    → cur_nodes ≡ b.arity * (b.col_arity * b.arity ^ suc r)
    → cur_nodes < size_mod
    → cur_nodes ≤ length leaves
    → c < b.arity ^ suc (suc r)
    → (files : List (List Node)) × (root : Node) × (build_tree_c poseidon allocate b b.arity
          cur_nodes leaves
        ≡ some (files, root))
      × (length files ≡ b.arity)
      × (let u : TreeProof =
            gen_inclusion_path c
              (set_root (some root) (create b.arity (suc (suc r)) files b.arity 0)) in
          (u.leaf
            ≡ parent
                (poseidon b.col_arity)
                (from (λ a. get_elem? leaves (b.col_arity * c + a)) 0 b.col_arity))
          × (u.root ≡ some root)
          × (climb (poseidon b.arity) u.path u.leaf ≡ some root))
unfolding create set_root node_at build_tree_c top_root
build_tree_c-climb poseidon allocate b k r c cur_nodes leaves allocated arity_pow big not16 two h64
      hc small enough hcount =
    let a : ℕ = b.arity in
    let wide : 1 < a =
      omega (arith, arity_pow, pow-le-pow_right {n = 2} (omega arith) {i = 1} {j = k} big) in
    let sub : ℕ = b.col_arity * a ^ suc r in
    let few : suc (suc r) < 64 =
      factor_small k (suc (suc r)) big (omega (arith, mul_comm (suc (suc r)) k)) in
    let part : cur_nodes / a ≡ sub = ap (λ x. x / a) hc ∙ mul-div_cancel_left sub (omega arith) in
    let twice : 2 * sub ≤ a * sub = mul-le-mul_right {m = 2} {n = a} sub wide in
    let room : 2 * a ^ suc r ≤ sub = mul-le-mul_right {m = 2} {n = b.col_arity} (a ^ suc r) two in
    let elmts : ℕ = a ^ suc r + above_count a (suc r) in
    let total : size b sub true false ≡ some elmts =
      size-columns b r wide two (omega arith) (omega (arith, hc)) in
    let few_rows : suc r < 64 = omega arith in
    let small_sub : sub < size_mod = omega (arith, hc) in
    let all : (0 + a) * sub ≤ length leaves =
      subst (λ x. x * sub ≤ length leaves) (sym (zero-add a)) (omega (arith, hc)) in
    let (fs, xs, e, done, len) =
      build_files-Files poseidon allocate allocated b r sub leaves wide two few_rows refl small_sub
        elmts a 0 refl all in
    let at_top : top_root poseidon a xs ≡ some (poseidon a xs) =
      if_off _ _ (==_false a 16 not16) ∙ if_on _ _ (lt→ltb 1 a wide) in
    (
      fs,
      poseidon a xs,
      ap
            (λ n. size b n true false >>= λ elmts.
              build_files poseidon allocate b true n elmts a 0 leaves >>= λ r.
              top_root poseidon a (r.1) >>= λ root. some (r.0, root))
            part
          ∙ bind_some _ elmts _ total
          ∙ bind_some _ (fs, xs) _ e
          ∙ bind_some _ (poseidon a xs) _ at_top,
      len,
      files_climb poseidon allocate allocated b r sub leaves wide two few_rows refl small_sub k c fs
          xs arity_pow big h64 hcount done len,
    )

-- For a sector that is built with one thread into a file for each child of the root, of which there are
-- `arity`, a power of two but not 16, with more than one layer and no layer too short, and a challenge that
-- names one of its `arity ^ (r + 2)` nodes: `BuildTreeC` ends with as many files and a root, and the inclusion path that
-- `GenInclusionPath` makes in these files, with that root, takes the hash of the node's labels in all layers as
-- its leaf and hashes up from it to the root.
pub build_from_layers-climb :
    (poseidon : ℕ → List Node → Node) (allocate : ℕ → List Node) (b : TreeBuilder) (k r c : ℕ)
    (layers : List (List Node))
    → ((n : ℕ) → length (allocate n) ≡ n)
    → b.arity ≡ 2 ^ k
    → 0 < k
    → b.arity ≢ 16
    → b.col_arity ≡ length layers
    → 1 < b.col_arity
    → suc (suc r) * k < 64
    → length layers * b.arity ^ suc (suc r) < size_mod
    → ((l : ℕ) → l < length layers → b.arity ^ suc (suc r) ≤ length (get_or layers l []))
    → c < b.arity ^ suc (suc r)
    → (files : List (List Node)) × (root : Node) × (build_from_layers poseidon allocate b b.arity
          (b.arity ^ suc (suc r))
          layers
        ≡ some (files, root))
      × (length files ≡ b.arity)
      × (let u : TreeProof =
            gen_inclusion_path c
              (set_root (some root) (create b.arity (suc (suc r)) files b.arity 0)) in
          (u.leaf
            ≡ parent
                (poseidon b.col_arity)
                (from (λ l. get_elem? (get_or layers l []) c) 0 b.col_arity))
          × (u.root ≡ some root)
          × (climb (poseidon b.arity) u.path u.leaf ≡ some root))
unfolding build_from_layers
build_from_layers-climb poseidon allocate b k r c layers allocated arity_pow big not16 cols two h64
      small long hcount =
    let a : ℕ = b.arity in
    let nodes : ℕ = a ^ suc (suc r) in
    let (leaves, run, len, column) = leaves_of-columns nodes layers long in
    let count : length layers * nodes ≡ a * (b.col_arity * a ^ suc r) =
      ap (λ n. n * nodes) (sym cols)
      ∙ ap (λ n. b.col_arity * n) (pow-suc a (suc r))
      ∙ swap_factors b.col_arity (a ^ suc r) a in
    let (files, root, e, n, (leaf, same_root, path)) =
      build_tree_c-climb poseidon allocate b k r c (length layers * nodes) leaves allocated
        arity_pow big not16 two h64 count small (omega (arith, len)) hcount in
    (
      files,
      root,
      bind_some _ leaves _ run ∙ e,
      n,
      (
        leaf
            ∙ ap (parent (poseidon b.col_arity)) (
                from_ext _ _ 0 0 b.col_arity (λ l h.
                  ap (λ w. get_elem? leaves (w * c + (0 + l))) cols
                  ∙ column c (0 + l) hcount (omega (arith, cols)))),
        same_root,
        path,
      ),
    )
