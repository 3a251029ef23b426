-- ===== src/Pc1/TreeBuilder/Size.antt =====
-- `TreeBuilder::size` counts the nodes that `BuildTree` stores.
use native.Mathlib.Nat.{
  pow-suc, one-le-pow, pow-zero, mul-mod_left, mul_assoc, mul-div_cancel_left, mul-le-mul_left,
  mul-le-mul_right,
}
use supra_seal.Prelude.{
  ℕ, zero, suc, ◌+◌, ◌*◌, ◌/◌, ◌%◌, ◌^◌, ◌≤◌, ◌<◌, ◌≡◌, sym, ◌∙◌, ap, arith, some, true, false,
  Bool, size_mod, ltb, lt→ltb, if_on, if_off, ◌==◌, ==_true, if◌then◌else◌, add64, sub64,
}
use supra_seal.Pc1.Rows.Spec.{above_count}
use supra_seal.Pc1.TreeBuilder.{TreeBuilder, size_loop, size}
use supra_seal.Pc1.TreeBuilder.Loop.{row_below, row_grows, stop}
use supra_seal.Pc1.TreeBuilder.Whole.{divides}

pub above_count-lt : (a n : ℕ) → 1 < a → above_count a n < a ^ n
above_count-lt a zero h = omega (arith, pow-zero a)
above_count-lt a (suc n) h =
    omega (arith, above_count-lt a n h, pow-suc a n, mul-le-mul_left {m = 2} {n = a} (a ^ n) h)

size_loop_lem :
    (a : ℕ) (n fuel d k total : ℕ)
    → 1 < a
    → n < fuel
    → n ≡ d + k
    → d < 2 ^ 32
    → total + above_count a n < size_mod
    → size_loop a fuel (a ^ n) d total ≡ some (total + above_count a k)
unfolding size_loop
size_loop_lem a n zero d k total h hf e hd small = absurd (omega arith)
size_loop_lem a zero (suc fuel) d k total h hf e hd small =
    let none_left : k ≡ 0 = omega arith in
    if_off _ _ (stop (pow-zero a)) ∙ ap some (omega (arith, ap (above_count a) none_left))
size_loop_lem a (suc n) (suc fuel) zero k total h hf e hd small =
    let all : suc n ≡ k = omega arith in
    let go : ltb 1 (a ^ suc n) ≡ true =
      lt→ltb 1 (a ^ suc n) (omega (arith, row_grows a n h, one-le-pow n a (omega arith))) in
    let below : a ^ suc n / a ≡ a ^ n = row_below a n (omega arith) in
    let sum : add64 total (a ^ n) ≡ total + a ^ n = omega arith in
    if_on _ _ go
    ∙ ap (λ c. size_loop a fuel c 0 (add64 total c)) below
    ∙ ap (size_loop a fuel (a ^ n) 0) sum
    ∙ size_loop_lem a n fuel 0 n (total + a ^ n) h (omega arith) (omega arith) (omega arith)
        (omega arith)
    ∙ ap some (omega (arith, ap (above_count a) all))
size_loop_lem a (suc n) (suc fuel) (suc d) k total h hf e hd small =
    let go : ltb 1 (a ^ suc n) ≡ true =
      lt→ltb 1 (a ^ suc n) (omega (arith, row_grows a n h, one-le-pow n a (omega arith))) in
    let one_less : sub64 (suc d) 1 ≡ d = omega arith in
    let left : ltb 0 (suc d) ≡ true = lt→ltb 0 (suc d) (omega arith) in
    if_on _ _ go
    ∙ ap
        (λ (t : Bool).
          size_loop a fuel (a ^ suc n / a) (if t then sub64 (suc d) 1 else suc d)
            (if t then total else add64 total (a ^ suc n / a)))
        left
    ∙ ap (λ c. size_loop a fuel c (sub64 (suc d) 1) total) (row_below a n (omega arith))
    ∙ ap (λ x. size_loop a fuel (a ^ n) x total) one_less
    ∙ size_loop_lem a n fuel d k total h (omega arith) (omega arith) (omega arith) (omega arith)

-- The columns' hashes and the rows above them.
pub size-columns :
    (b : TreeBuilder) (k : ℕ)
    → 1 < b.arity
    → 1 < b.col_arity
    → suc k < 64
    → b.col_arity * b.arity ^ suc k < size_mod
    → size b (b.col_arity * b.arity ^ suc k) true false
      ≡ some (b.arity ^ suc k + above_count b.arity (suc k))
unfolding size
size-columns b k h hc h64 smallc =
    let ca : ℕ = b.col_arity in
    let rows : ca * b.arity ^ suc k / ca ≡ b.arity ^ suc k =
      mul-div_cancel_left (b.arity ^ suc k) (omega arith) in
    let times : ca * b.arity ^ suc k ≡ ca * b.arity ^ k * b.arity =
      ap (λ x. ca * x) (pow-suc b.arity k) ∙ sym (mul_assoc ca (b.arity ^ k) b.arity) in
    let even : (ca * b.arity ^ suc k % b.arity == 0) ≡ true =
      ==_true _ 0 (ap (λ c. c % b.arity) times ∙ mul-mod_left (ca * b.arity ^ k) b.arity) in
    let twice : 2 * b.arity ^ suc k ≤ ca * b.arity ^ suc k =
      mul-le-mul_right {m = 2} {n = ca} (b.arity ^ suc k) hc in
    if_on _ _ even
    ∙ ap (λ c. size_loop b.arity 65 c 0 c) rows
    ∙ size_loop_lem b.arity (suc k) 65 0 (suc k) (b.arity ^ suc k) h (omega arith) (omega arith)
        (omega arith) (omega (arith, above_count-lt b.arity (suc k) h))

-- The upper rows, of the leaves.
pub size-leaves :
    (b : TreeBuilder) (k : ℕ)
    → 1 < b.arity
    → b.discard_rows + suc k < 64
    → b.arity ^ (b.discard_rows + suc k) < size_mod
    → size b (b.arity ^ (b.discard_rows + suc k)) false false ≡ some (above_count b.arity (suc k))
unfolding size
size-leaves b k h h64 small =
    let n : ℕ = suc (b.discard_rows + k) in
    let e : b.arity ^ (b.discard_rows + suc k) ≡ b.arity ^ n =
      ap (λ x. b.arity ^ x) (omega arith) in
    ap (λ c. size b c false false) e
    ∙ if_on _ _ (divides b.arity (b.discard_rows + k) (omega arith))
    ∙ size_loop_lem b.arity n 65 b.discard_rows (suc k) 0 h (omega arith) (omega arith)
        (omega arith) (omega (arith, e, above_count-lt b.arity n h))
    ∙ ap some (omega arith)

-- For `arity ^ (discard_rows + k)` leaves, `k` not 0, `size` is the number of nodes of the upper `k` rows,
-- and for `col_arity * arity ^ k` nodes in columns it is that number with the row of the columns'
-- hashes, when columns and rows have more than one node and the counts are 64-bit numbers.
pub size-rows :
    (b : TreeBuilder) (k : ℕ)
    → 1 < b.arity
    → 1 < b.col_arity
    → b.discard_rows + k < 64
    → 0 < k
    → b.arity ^ (b.discard_rows + k) < size_mod
    → b.col_arity * b.arity ^ k < size_mod
    → (size b (b.arity ^ (b.discard_rows + k)) false false ≡ some (above_count b.arity k))
      × (size b (b.col_arity * b.arity ^ k) true false ≡ some (b.arity ^ k + above_count b.arity k))
size-rows b zero h hc h64 pos small smallc = absurd (omega arith)
size-rows b (suc k) h hc h64 pos small smallc =
    (size-leaves b k h h64 small, size-columns b k h hc (omega arith) smallc)
