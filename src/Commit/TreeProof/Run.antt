-- ===== src/Commit/TreeProof/Run.antt =====
-- What `GenInclusionPath` is after its loop, before the last level is read.
use native.Mathlib.Nat.{one-le-pow, div-one, pow-le-pow_right}
use supra_seal.Prelude.{
  ℕ, ◌+◌, ◌-◌, ◌*◌, ◌/◌, ◌%◌, ◌^◌, ◌<◌, ◌≤◌, ◌≡◌, refl, sym, ◌∙◌, ap, ap₂, arith, List, [],
  size_mod, ◌==◌, if◌then◌else◌, sub64, not64,
}
use supra_seal.Commit.TreeProof.{
  TreeProof, node_at, level_loop, shift, log2, tree_paths, get_tree_paths, last_level, gen_from,
  gen_inclusion_path,
}
use supra_seal.Commit.TreeProof.Tree.{top_of}
use supra_seal.Commit.TreeProof.Levels.{log2-pow, pow-pow, get_or-tree_paths}
use supra_seal.Commit.TreeProof.Path.{elements}
use supra_seal.Commit.TreeProof.Loop.{at_state, leaf_after, level_loop_lem}

-- `gen_inclusion_path` as a function of the numbers that it computes
abbrev body : ℕ → TreeProof → ℕ → ℕ → ℕ → ℕ → ℕ → TreeProof
body c t one lg file finish sh =
    let indices : List ℕ = tree_paths t.levels one lg c in
    let (u, top) =
      level_loop c indices (sub64 file 1) lg (not64 one) (c / 2 ^ sh) (finish - 0) 0 0 file t in
    if t.tree_bufs_len == 1 then u else last_level indices top u

body_lem :
    (c : ℕ) (t : TreeProof)
    → gen_inclusion_path c t
      ≡ body c t
          (sub64 t.arity 1)
          (log2 t.arity)
          (2 ^ (t.levels * log2 t.arity) / t.tree_bufs_len)
          (if t.tree_bufs_len == 1 then t.levels else sub64 t.levels 1)
          (log2 (2 ^ (t.levels * log2 t.arity) / t.tree_bufs_len))
unfolding gen_inclusion_path gen_from get_tree_paths shift
body_lem c t = refl

-- What the loop of one buffer leaves, `r` being the levels that the buffer holds.
loop_run :
    (t : TreeProof) (c k r : ℕ)
    → k < 64
    → t.arity ≡ 2 ^ k
    → r ≤ t.levels
    → t.path ≡ []
    → c < size_mod
    → top_of t.arity 0 r < size_mod
    → let indices : List ℕ = tree_paths t.levels (2 ^ k - 1) k c in
      let buf : ℕ = c / 2 ^ (r * k) in
      let place : ℕ = c % 2 ^ (r * k) in
      level_loop c indices (2 ^ (r * k) - 1) k (not64 (2 ^ k - 1)) buf (r - 0) 0 0 (2 ^ (r * k)) t
      ≡ (
        at_state t
            (leaf_after (node_at t.tree_bufs buf place) r 0 t.leaf)
            (elements t.arity (node_at t.tree_bufs buf) r place 0),
        top_of t.arity 0 r,
      )
loop_run t c k r hk e le nil hc top =
    let indices : List ℕ = tree_paths t.levels (2 ^ k - 1) k c in
    let buf : ℕ = c / 2 ^ (r * k) in
    let place : ℕ = c % 2 ^ (r * k) in
    let row : t.arity ^ r ≡ 2 ^ (r * k) = rw e (pow-pow k r) in
    let first : place / 2 ^ (0 * k) ≡ place =
      let z : 0 * k ≡ 0 = omega arith in rw z (div-one place) in
    let first0 : 0 + place / 2 ^ (0 * k) ≡ place = omega (arith, first) in
    let all : r - 0 ≡ r = omega arith in
    let begin : t ≡ at_state t t.leaf [] = ap (λ es. at_state t t.leaf es) nil in
    let loop =
      level_loop_lem t c k buf r indices hk e hc
        (λ l h. get_or-tree_paths k t.levels l c (omega arith)) r 0 0 t.leaf [] (omega arith) refl
        top in
    rw all (
      ap₂ (λ w s. level_loop c indices (2 ^ (r * k) - 1) k (not64 (2 ^ k - 1)) buf r 0 0 w s)
        (sym row) begin
      ∙ loop
      ∙ ap₂
          (λ x y. (
            at_state t (leaf_after (node_at t.tree_bufs buf x) r 0 t.leaf)
                (elements t.arity (node_at t.tree_bufs buf) r y 0),
            top_of t.arity 0 r,
          ))
          first0 first)

-- The state after the loop, `r` being the levels that a buffer holds.
pub after_loop :
    (t : TreeProof) (c k r : ℕ)
    → k < 64
    → t.arity ≡ 2 ^ k
    → r * k < 64
    → r ≤ t.levels
    → (if t.tree_bufs_len == 1 then t.levels else sub64 t.levels 1) ≡ r
    → 2 ^ (t.levels * k) / t.tree_bufs_len ≡ 2 ^ (r * k)
    → t.path ≡ []
    → c < size_mod
    → top_of t.arity 0 r < size_mod
    → let buf : ℕ = c / 2 ^ (r * k) in
      let place : ℕ = c % 2 ^ (r * k) in
      let u : TreeProof =
        at_state t
          (leaf_after (node_at t.tree_bufs buf place) r 0 t.leaf)
          (elements t.arity (node_at t.tree_bufs buf) r place 0) in
      gen_inclusion_path c t ≡ (
        if t.tree_bufs_len == 1
        then u
        else last_level (tree_paths t.levels (2 ^ k - 1) k c) (top_of t.arity 0 r) u)
after_loop t c k r hk e hr le fin file nil hc top =
    let q = one-le-pow k 2 (omega arith) in
    let q2 = pow-le-pow_right {n = 2} (omega arith) {i = k} {j = 63} (omega arith) in
    let lg : log2 t.arity ≡ k = ap log2 e ∙ log2-pow k hk in
    let one : sub64 t.arity 1 ≡ 2 ^ k - 1 = omega (arith, e) in
    let p = one-le-pow (r * k) 2 (omega arith) in
    let p2 = pow-le-pow_right {n = 2} (omega arith) {i = r * k} {j = 63} (omega arith) in
    let mask : sub64 (2 ^ (r * k)) 1 ≡ 2 ^ (r * k) - 1 = omega arith in
    let indices : List ℕ = tree_paths t.levels (2 ^ k - 1) k c in
    let buf : ℕ = c / 2 ^ (r * k) in
    body_lem c t
    ∙ ap₂
        (λ o l.
          body c t o l (2 ^ (t.levels * l) / t.tree_bufs_len)
            (if t.tree_bufs_len == 1 then t.levels else sub64 t.levels 1)
            (log2 (2 ^ (t.levels * l) / t.tree_bufs_len)))
        one lg
    ∙ ap₂ (λ w f. body c t (2 ^ k - 1) k w f (log2 w)) file fin
    ∙ ap (λ s. body c t (2 ^ k - 1) k (2 ^ (r * k)) r s) (log2-pow (r * k) hr)
    ∙ ap
        (λ m.
          let (u, v) =
            level_loop c indices m k (not64 (2 ^ k - 1)) buf (r - 0) 0 0 (2 ^ (r * k)) t in
          if t.tree_bufs_len == 1 then u else last_level indices v u)
        mask
    ∙ (ap (λ s. if t.tree_bufs_len == 1 then s.0 else last_level indices s.1 s.0)
        (loop_run t c k r hk e le nil hc top))
