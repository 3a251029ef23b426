-- ===== src/Commit/TreeProof/Split.antt =====
-- A tree with a buffer for each child of the root: the last level of the path reads the tops of the
-- buffers.
use native.Mathlib.Nat.{one-le-pow, mod-lt, mod-eq_of_lt, pow-le-pow_right, mul-div_cancel}
use supra_seal.Prelude.{
  ℕ, suc, ◌+◌, ◌-◌, ◌*◌, ◌/◌, ◌%◌, ◌^◌, ◌<◌, ◌≡◌, sym, ◌∙◌, ap, ap₂, arith, List, [], ◌∷◌, ◌++◌,
  Option, length, get_or, size_mod, ◌==◌, if◌then◌else◌, ==_false, false, sub64, div-lt_of_mul,
}
use supra_seal.Commit.Output.{Node}
use supra_seal.Commit.PathElement.{PathElement}
use supra_seal.Commit.TreeProof.{TreeProof, node_at, tree_paths, last_level, gen_inclusion_path}
use supra_seal.Commit.TreeProof.Tree.{from, insert_at, parent, climb, IsTree, top_of}
use supra_seal.Commit.TreeProof.Others.{element, siblings, insert_at-siblings}
use supra_seal.Commit.TreeProof.Levels.{pow-pow, get_or-tree_paths, pow-mul_add}
use supra_seal.Commit.TreeProof.Path.{elements, climb-elements, add_level_lem}
use supra_seal.Commit.TreeProof.Loop.{at_state}
use supra_seal.Commit.TreeProof.Run.{after_loop}
use supra_seal.Commit.TreeProof.Climb.{
  Sizes, climb-append, length-elements, factor_small, leaf_small, leaf_after-first,
}

factor_small_left : (n k : ℕ) → 0 < k → n * k < 64 → n < 64
factor_small_left n k p h = grind arith

last_level_lem :
    (t : TreeProof) (r k c : ℕ) (top : ℕ)
    → t.levels ≡ suc r
    → t.arity ≡ 2 ^ k
    → k < 64
    → r < 64
    → c / 2 ^ (r * k) < 2 ^ k
    → length t.path ≡ r
    → last_level (tree_paths t.levels (2 ^ k - 1) k c) top t ≡ record t {
      path =
          t.path
          ++ (element t.arity
                (c / 2 ^ (r * k))
                (siblings (λ a. node_at t.tree_bufs a top) (c / 2 ^ (r * k)) t.arity)
              ∷ []);
    }
unfolding last_level
last_level_lem t r k c top e a hk hr h p =
    let q = pow-le-pow_right {n = 2} (omega arith) {i = k} {j = 63} (omega arith) in
    let last : sub64 t.levels 1 ≡ r = omega arith in
    let index : get_or (tree_paths t.levels (2 ^ k - 1) k c) r 0 ≡ c / 2 ^ (r * k) =
      get_or-tree_paths k t.levels r c (omega arith) ∙ mod-eq_of_lt h in
    rw (last, index)
      (add_level_lem r (c / 2 ^ (r * k)) (λ a. node_at t.tree_bufs a top) t (sym p)
        (omega (arith, a)) (omega (arith, a)))

small_pred : (n k r : ℕ) → n ≡ suc r → 0 < k → n * k < 64 → sub64 n 1 ≡ r
small_pred n k r e p h = let q : n < 64 = factor_small_left n k p h in omega arith

small_row : (n k r : ℕ) → n ≡ suc r → n * k < 64 → r * k < 64
small_row n k r e h = grind arith

-- The buffer that the challenge names.
split_buffer :
    (t : TreeProof) (k c r : ℕ) → Sizes t k c → t.levels ≡ suc r → c / 2 ^ (r * k) < 2 ^ k
split_buffer t k c r s levels =
    let wide : 2 ^ (t.levels * k) ≡ 2 ^ (r * k) * 2 ^ k = rw levels (pow-mul_add k r) in
    div-lt_of_mul c (2 ^ k) (2 ^ (r * k)) (one-le-pow (r * k) 2 (omega arith))
      (omega (arith, s.in_range, wide))

-- The state that the path is made in.
split_run :
    (t : TreeProof) (k c r : ℕ)
    → Sizes t k c
    → t.tree_bufs_len ≡ t.arity
    → t.levels ≡ suc r
    → 0 < r
    → top_of t.arity 0 r < size_mod
    → let b : ℕ = c / 2 ^ (r * k) in
      let place : ℕ = c % 2 ^ (r * k) in
      gen_inclusion_path c t
      ≡ at_state t (node_at t.tree_bufs b place) (
          elements t.arity (node_at t.tree_bufs b) r place 0
          ++ (element t.arity b
                (siblings (λ a. node_at t.tree_bufs a (top_of t.arity 0 r)) b t.arity)
              ∷ []))
split_run t k c r s len levels pos top =
    let A : ℕ = t.arity in
    let hk : k < 64 = factor_small t.levels k (omega arith) s.leaves_small in
    let hc : c < size_mod = leaf_small (t.levels * k) c s.leaves_small s.in_range in
    let two = pow-le-pow_right {n = 2} (omega arith) {i = 1} {j = k} s.arity_big in
    let many : (t.tree_bufs_len == 1) ≡ false =
      ==_false t.tree_bufs_len 1 (omega (arith, len, s.arity_pow)) in
    let wide : 2 ^ (t.levels * k) ≡ 2 ^ (r * k) * 2 ^ k = rw levels (pow-mul_add k r) in
    let row_pos = one-le-pow (r * k) 2 (omega arith) in
    let file : 2 ^ (t.levels * k) / t.tree_bufs_len ≡ 2 ^ (r * k) =
      ap₂ (λ x y. x / y) wide (len ∙ s.arity_pow)
      ∙ mul-div_cancel (2 ^ (r * k)) (omega (arith, two)) in
    let fin : (if t.tree_bufs_len == 1 then t.levels else sub64 t.levels 1) ≡ r =
      ap (λ b. if b then t.levels else sub64 t.levels 1) many
      ∙ small_pred t.levels k r levels s.arity_big s.leaves_small in
    let small : r * k < 64 = small_row t.levels k r levels s.leaves_small in
    let b : ℕ = c / 2 ^ (r * k) in
    let place : ℕ = c % 2 ^ (r * k) in
    let in_buf : b < 2 ^ k =
      div-lt_of_mul c (2 ^ k) (2 ^ (r * k)) row_pos (omega (arith, s.in_range, wide)) in
    let leaf : Option Node = node_at t.tree_bufs b place in
    let path : List PathElement = elements A (node_at t.tree_bufs b) r place 0 in
    let indices : List ℕ = tree_paths t.levels (2 ^ k - 1) k c in
    after_loop t c k r hk s.arity_pow small (omega arith) fin file s.fresh hc top
    ∙ ap₂
        (λ b l.
          if b then at_state t l path else last_level indices (top_of A 0 r) (at_state t l path))
        many (leaf_after-first leaf r t.leaf pos)
    ∙ last_level_lem (at_state t leaf path) r k c (top_of A 0 r) levels s.arity_pow hk
        (factor_small_left r k s.arity_big small) in_buf
        (length-elements A (node_at t.tree_bufs b) r place 0)

-- For a tree of arity `2 ^ k` with one buffer for each child of the root, the tops of the buffers at
-- a 64-bit index, and a challenge that names one of its leaves, on an empty path: `GenInclusionPath`
-- keeps the root, takes that leaf, from the buffer that holds it, and the path that it makes hashes up from the leaf to
-- the hash of the tops of the buffers.
pub climb-split :
    (hash : List Node → Node) (t : TreeProof) (k c r : ℕ)
    → Sizes t k c
    → t.tree_bufs_len ≡ t.arity
    → t.levels ≡ suc r
    → 0 < r
    → top_of t.arity 0 r < size_mod
    → ((a : ℕ) → a < t.arity → IsTree hash t.arity (node_at t.tree_bufs a) 0 r)
    → let u : TreeProof = gen_inclusion_path c t in
      (u.root ≡ t.root)
      × (u.leaf ≡ node_at t.tree_bufs (c / 2 ^ (r * k)) (c % 2 ^ (r * k)))
      × (climb hash u.path u.leaf
          ≡ parent hash (from (λ a. node_at t.tree_bufs a (top_of t.arity 0 r)) 0 t.arity))
climb-split hash t k c r s len levels pos top tree =
    let A : ℕ = t.arity in
    let b : ℕ = c / 2 ^ (r * k) in
    let place : ℕ = c % 2 ^ (r * k) in
    let row_pos = one-le-pow (r * k) 2 (omega arith) in
    let in_buf : b < 2 ^ k = split_buffer t k c r s levels in
    let leaf : Option Node = node_at t.tree_bufs b place in
    let path : List PathElement = elements A (node_at t.tree_bufs b) r place 0 in
    let f : ℕ → Option Node = λ a. node_at t.tree_bufs a (top_of A 0 r) in
    let run = split_run t k c r s len levels pos top in
    let below : climb hash path (node_at t.tree_bufs b (0 + place)) ≡ f b =
      climb-elements hash A (node_at t.tree_bufs b) r place 0
        (omega (arith, s.arity_pow, one-le-pow k 2 (omega arith)))
        (rw (s.arity_pow, pow-pow k r) (mod-lt c row_pos)) (tree b (omega (arith, s.arity_pow))) in
    (
      ap (λ u. u.root) run,
      ap (λ u. u.leaf) run,
      ap (λ u. climb hash u.path u.leaf) run
          ∙ climb-append hash path (element A b (siblings f b A)) leaf
          ∙ ap
              (λ x.
                parent hash
                  (insert_at b (climb hash path (node_at t.tree_bufs b x)) (siblings f b A)))
              (omega arith)
          ∙ ap (λ x. parent hash (insert_at b x (siblings f b A))) below
          ∙ ap (parent hash) (insert_at-siblings f b A (omega (arith, s.arity_pow))),
    )
