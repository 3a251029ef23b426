-- ===== src/Pc1/TreeBuilder/Loop.antt =====
-- The loop over the rows, once no row is discarded any more.
use native.Mathlib.Nat.{pow-suc, one-le-pow, pow-zero, mul-le-mul_left, mul-div_cancel}
use supra_seal.Prelude.{
  ℕ, zero, suc, ◌+◌, ◌*◌, ◌/◌, ◌^◌, ◌≤◌, ◌<◌, ◌≡◌, ◌⊎◌, inl, inr, refl, sym, ◌∙◌, ap, arith, some,
  true, false, List, length, get_elem?, size_mod, ltb, lt→ltb, if_on, if_off, bind_some, sub32,
  ==_false,
}
use supra_seal.Commit.Output.{Node}
use supra_seal.Pc1.Rows.{Memory, Ptr, plus}
use supra_seal.Pc1.Rows.Spec.{Row, above, StoredAbove, above_count}
use supra_seal.Pc1.Rows.Row.{Apart, moved}
use supra_seal.Pc1.Rows.Level.{RowAt, Kept, Kept-none, Kept-trans, RowAt-Kept, row_up, Stored-cons}
use supra_seal.Pc1.TreeBuilder.{TreeBuilder, next_out, levels_loop}

-- The counter is past 0, and stays so for `n` more levels.
abbrev pub NoReset : ℕ → ℕ → Type 0
NoReset d n = ((d ≡ 0) ⊎ (suc n < d)) × (d < 2 ^ 32)

still : (d n : ℕ) → n < 64 → NoReset d (suc n) → NoReset (sub32 d 1) n × (1 < sub32 d 1)
still d n h (inl e, small) = ((inr (omega arith), omega arith), omega arith)
still d n h (inr lt, small) = ((inr (omega arith), omega arith), omega arith)

pub no_reset : (d : ℕ) (out p : Ptr) → 1 < d → next_out d out p ≡ p
unfolding next_out
no_reset d out p h =
    if_off _ _ (==_false d 1 (λ e. absurd (omega (arith, e))))
    ∙ if_off _ _ (==_false d 0 (λ e. absurd (omega (arith, e))))

pub row_below : (a n : ℕ) → 0 < a → a ^ suc n / a ≡ a ^ n
row_below a n h = ap (λ x. x / a) (pow-suc a n) ∙ mul-div_cancel (a ^ n) h

-- A row takes more room than the one above it.
pub row_grows : (a n : ℕ) → 1 < a → a ^ n < a ^ suc n
row_grows a n h =
    let p : 1 ≤ a ^ n = one-le-pow n a (omega arith) in
    let q : a ^ n * 2 ≤ a ^ n * a = mul-le-mul_left {m = 2} {n = a} (a ^ n) h in
    omega (arith, pow-suc a n)

pub stop : {x : ℕ} → x ≡ 1 → ltb 1 x ≡ false
stop e = ap (ltb 1) e

module _ (col_hash hash : List Node → Node) (allocate : ℕ → List Node) (b : TreeBuilder)
    (wide : 1 < b.arity) (out : Ptr) where
  -- One round of the loop.
  pub levels_loop-step :
      (n fuel d : ℕ) (src dst : Ptr) (m : Memory) (row : Row)
      → b.arity ^ suc n < size_mod
      → RowAt m src row (b.arity ^ suc n)
      → Apart src dst (b.arity ^ suc n)
      → dst.index + b.arity ^ n ≤ length (m dst.region)
      → (m' : Memory) × (levels_loop col_hash hash allocate b out
            (suc fuel)
            (b.arity ^ suc n)
            d
            src
            dst
            m
          ≡ levels_loop col_hash hash allocate b out fuel
              (b.arity ^ n)
              (sub32 d 1)
              dst
              (next_out (sub32 d 1) out (plus dst (b.arity ^ n)))
              m')
        × RowAt m' dst (above hash b.arity row) (b.arity ^ n)
        × Kept m m' dst (b.arity ^ n)
  unfolding levels_loop
  levels_loop-step n fuel d src dst m row small at apart hd =
      let a : ℕ = b.arity in
      let grows : a ^ n < a ^ suc n = row_grows a n wide in
      let pos : 1 ≤ a ^ n = one-le-pow n a (omega arith) in
      let go : ltb 1 (a ^ suc n) ≡ true = lt→ltb 1 (a ^ suc n) (omega arith) in
      let (m1, e1, at1, k1) =
        row_up hash a (omega arith) n (a ^ suc n) (a ^ suc n) src dst m row grows refl small at
          apart hd in
      (
        m1,
        if_on _ _ go
            ∙ bind_some _ (m1, plus dst (a ^ n)) _ e1
            ∙ ap
                (λ c.
                  levels_loop col_hash hash allocate b out fuel c (sub32 d 1) dst
                    (next_out (sub32 d 1) out (plus dst (a ^ n))) m1)
                (row_below a n (omega arith)),
        at1,
        k1,
      )

  -- The loop with `n` levels to go.
  pub levels_loop-Stored :
      (n fuel d : ℕ) (src dst : Ptr) (m : Memory) (row : Row)
      → n < fuel
      → fuel ≤ 65
      → NoReset d n
      → b.arity ^ n < size_mod
      → RowAt m src row (b.arity ^ n)
      → Apart src dst (b.arity ^ n)
      → dst.index + above_count b.arity n ≤ length (m dst.region)
      → (m' : Memory) × (levels_loop col_hash hash allocate b out fuel (b.arity ^ n) d src dst m
          ≡ some (m', plus dst (above_count b.arity n)))
        × Kept m m' dst (above_count b.arity n)
        × StoredAbove hash b.arity (get_elem? (m' dst.region)) row dst.index n
  unfolding levels_loop
  levels_loop-Stored n zero d src dst m row hf h65 nr small at apart hd = absurd (omega arith)
  levels_loop-Stored zero (suc fuel) d src dst m row hf h65 nr small at apart hd = (
    m,
    if_off _ _ (stop (pow-zero b.arity))
        ∙ ap (λ p. some (m, p)) (sym (moved dst 0 dst.index (omega arith))),
    Kept-none m dst,
    tt,
  )
  levels_loop-Stored (suc n) (suc fuel) d src dst m row hf h65 nr small at apart hd =
      let a : ℕ = b.arity in
      let grows : a ^ n < a ^ suc n = row_grows a n wide in
      let (nr', big) = still d n (omega arith) nr in
      let (m1, e1, at1, k1) =
        levels_loop-step n fuel d src dst m row small at apart (omega arith) in
      let (m2, e2, k2, up) =
        levels_loop-Stored n fuel (sub32 d 1) dst (plus dst (a ^ n)) m1 (above hash a row)
          (omega arith) (omega arith) nr' (omega arith) at1 (inr (inl (omega arith)))
          (omega (arith, k1.lengths dst.region)) in
      let at2 =
        RowAt-Kept dst (plus dst (a ^ n)) (a ^ n) (above_count a n) at1 k2 (inr (omega arith)) in
      (
        m2,
        e1
            ∙ ap (λ p. levels_loop col_hash hash allocate b out fuel (a ^ n) (sub32 d 1) dst p m1)
                (no_reset (sub32 d 1) out (plus dst (a ^ n)) big)
            ∙ e2
            ∙ ap (λ k. some (m2, record { region = dst.region; index = k })) (omega arith),
        Kept-trans dst (a ^ n) (above_count a n) k1 k2,
        Stored-cons hash a (omega arith) _ _ dst.index n at2.cells up,
      )
