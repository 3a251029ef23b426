-- ===== src/Pc1/TreeBuilder/Build.antt =====
-- `BuildTree` of pc1/tree_builder.hpp with one thread: the rows that it stores, and the root.
use supra_seal.Prelude.{
  ℕ, zero, suc, ◌+◌, ◌/◌, ◌^◌, ◌≤◌, ◌<◌, ◌≡◌, ◌≢◌, ◌⊎◌, inl, inr, refl, sym, subst, ◌∙◌, ap, arith,
  some, false, List, length, get_elem?, size_mod, ltb, leb, if◌then◌else◌, ◌&&◌, ◌>>=◌,
}
use supra_seal.Commit.Output.{Node}
use supra_seal.Pc1.Rows.{scratch, start, Memory, Ptr}
use supra_seal.Pc1.Rows.Spec.{Row, above, above_count}
use supra_seal.Pc1.Rows.Row.{Apart}
use supra_seal.Pc1.Rows.Level.{RowAt}
use supra_seal.Pc1.TreeBuilder.{
  TreeBuilder, with_scratch, read_before, next_out, minus_one, int_max, levels_loop, build_rows,
}
use supra_seal.Pc1.TreeBuilder.Built.{Built, with_scratch-other, with_scratch-RowAt, rows_end-Built}
use supra_seal.Pc1.TreeBuilder.Loop.{
  NoReset, row_grows, row_below, levels_loop-step, levels_loop-Stored,
}

module _ (col_hash hash : List Node → Node) (allocate : ℕ → List Node)
    (allocated : (n : ℕ) → length (allocate n) ≡ n) (b : TreeBuilder) (wide : 1 < b.arity) where
  -- With no row to discard.
  pub build_rows-all :
      (count n d : ℕ) (out src dst : Ptr) (m : Memory) (row : Row)
      → 0 < n
      → n < 64
      → (d ≡ 0) ⊎ (d ≡ minus_one)
      → b.arity ^ n < size_mod
      → RowAt m src row (b.arity ^ n)
      → Apart src dst (b.arity ^ n)
      → dst.index + above_count b.arity n ≤ length (m dst.region)
      → Built hash b.arity m dst row 0 n
          (build_rows col_hash hash allocate b count (b.arity ^ n) d out src dst m)
  unfolding build_rows
  build_rows-all count zero d out src dst m row pos h64 hd small at apart fits =
      absurd (omega arith)
  build_rows-all count (suc k) d out src dst m row pos h64 hd small at apart fits =
      let n : ℕ = suc k in
      let off : (ltb 0 d && leb d int_max) ≡ false = none_discarded d hd in
      let (m', e, kept, stored) =
        levels_loop-Stored col_hash hash allocate b wide out n 65 d src dst m row (omega arith)
          (omega arith) (counter d n h64 hd) small at apart fits in
      subst
        (λ t. Built hash b.arity m dst row 0 n (
          levels_loop col_hash hash allocate b out 65 (b.arity ^ n) d src
            (if t then start scratch else dst)
            (if t then with_scratch (allocate (count / b.arity)) m else m)
          >>= λ r. read_before (r.0) (r.1) >>= λ root. some (r.0, root)))
        (sym off)
        (rows_end-Built hash b.arity m m' dst row 0 k _ (omega arith) e stored
          (kept.lengths dst.region) (λ i h. kept.others dst.region i (inr (inl h))) fits)
    where
      none_discarded : (d : ℕ) → (d ≡ 0) ⊎ (d ≡ minus_one) → (ltb 0 d && leb d int_max) ≡ false
      none_discarded d (inl e) = ap (λ x. ltb 0 x && leb x int_max) e
      none_discarded d (inr e) = ap (λ x. ltb 0 x && leb x int_max) e

      counter : (d n : ℕ) → n < 64 → (d ≡ 0) ⊎ (d ≡ minus_one) → NoReset d n
      counter d n h (inl e) = (inl e, omega arith)
      counter d n h (inr e) = (inr (omega arith), omega arith)

  -- With one row to discard.
  pub build_rows-one :
      (count k : ℕ) (out src dst : Ptr) (m : Memory) (row : Row)
      → suc (suc k) < 64
      → count ≡ b.arity ^ suc (suc k)
      → count < size_mod
      → src.region ≢ scratch
      → out.region ≢ scratch
      → RowAt m src row count
      → out.index + above_count b.arity (suc k) ≤ length (m out.region)
      → Built hash b.arity m out row 1
          (suc k)
          (build_rows col_hash hash allocate b count count 1 out src dst m)
  unfolding build_rows next_out
  build_rows-one count k out src dst m row h64 hc small s1 o1 at fits =
      let a : ℕ = b.arity in
      let n : ℕ = suc k in
      let m0 : Memory = with_scratch (allocate (count / a)) m in
      let room : count / a ≡ a ^ n = ap (λ c. c / a) hc ∙ row_below a n (omega arith) in
      let at0 : RowAt m0 src row (a ^ suc n) =
        subst (RowAt m0 src row) hc (with_scratch-RowAt _ m src row count s1 at) in
      let same0 : m0 out.region ≡ m out.region =
        with_scratch-other (allocate (count / a)) m out.region o1 in
      let len0 : length (m0 out.region) ≡ length (m out.region) = ap length same0 in
      let (m1, e1, at1, k1) =
        levels_loop-step col_hash hash allocate b wide out n 64 1 src (start scratch) m0 row
          (omega (arith, hc)) at0 (inl s1) (omega (arith, allocated (count / a), room)) in
      let (m2, e2, k2, stored) =
        levels_loop-Stored col_hash hash allocate b wide out n 64 0 (start scratch) out m1
          (above hash a row) (omega arith) (omega arith) (inl refl, omega arith)
          (omega (arith, hc, row_grows a n wide)) at1 (inl (λ e. o1 (sym e)))
          (omega (arith, k1.lengths out.region, len0)) in
      rows_end-Built hash a m m2 out row 1 k _ (omega arith)
        (ap (λ c. levels_loop col_hash hash allocate b out 65 c 1 src (start scratch) m0) hc
          ∙ e1
          ∙ e2)
        stored (k2.lengths out.region ∙ k1.lengths out.region ∙ len0)
        (λ i h.
          k2.others out.region i (inr (inl h))
          ∙ k1.others out.region i (inl o1)
          ∙ ap (λ xs. get_elem? xs i) same0)
        fits

  -- With two: the second overwrites the first.
  pub build_rows-two :
      (count k : ℕ) (out src dst : Ptr) (m : Memory) (row : Row)
      → suc (suc (suc k)) < 64
      → count ≡ b.arity ^ suc (suc (suc k))
      → count < size_mod
      → src.region ≢ scratch
      → out.region ≢ scratch
      → RowAt m src row count
      → out.index + above_count b.arity (suc k) ≤ length (m out.region)
      → Built hash b.arity m out row 2
          (suc k)
          (build_rows col_hash hash allocate b count count 2 out src dst m)
  unfolding build_rows next_out
  build_rows-two count k out src dst m row h64 hc small s1 o1 at fits =
      let a : ℕ = b.arity in
      let n : ℕ = suc k in
      let m0 : Memory = with_scratch (allocate (count / a)) m in
      let room : count / a ≡ a ^ suc n = ap (λ c. c / a) hc ∙ row_below a (suc n) (omega arith) in
      let at0 : RowAt m0 src row (a ^ suc (suc n)) =
        subst (RowAt m0 src row) hc (with_scratch-RowAt _ m src row count s1 at) in
      let same0 : m0 out.region ≡ m out.region =
        with_scratch-other (allocate (count / a)) m out.region o1 in
      let len0 : length (m0 out.region) ≡ length (m out.region) = ap length same0 in
      let less : a ^ suc n < a ^ suc (suc n) = row_grows a (suc n) wide in
      let less' : a ^ n < a ^ suc n = row_grows a n wide in
      let (m1, e1, at1, k1) =
        levels_loop-step col_hash hash allocate b wide out (suc n) 64 2 src (start scratch) m0 row
          (omega (arith, hc)) at0 (inl s1) (omega (arith, allocated (count / a), room)) in
      let (m2, e2, at2, k2) =
        levels_loop-step col_hash hash allocate b wide out n 63 1 (start scratch) (start scratch) m1
          (above hash a row) (omega (arith, hc)) at1 (inr (inr (omega arith)))
          (omega (arith, at1.fits)) in
      let (m3, e3, k3, stored) =
        levels_loop-Stored col_hash hash allocate b wide out n 63 0 (start scratch) out m2
          (above hash a (above hash a row)) (omega arith) (omega arith) (inl refl, omega arith)
          (omega (arith, hc)) at2 (inl (λ e. o1 (sym e)))
          (omega (arith, k2.lengths out.region, k1.lengths out.region, len0)) in
      rows_end-Built hash a m m3 out row 2 k _ (omega arith)
        (ap (λ c. levels_loop col_hash hash allocate b out 65 c 2 src (start scratch) m0) hc
          ∙ e1
          ∙ e2
          ∙ e3)
        stored (k3.lengths out.region ∙ k2.lengths out.region ∙ k1.lengths out.region ∙ len0)
        (λ i h.
          k3.others out.region i (inr (inl h))
          ∙ k2.others out.region i (inl o1)
          ∙ k1.others out.region i (inl o1)
          ∙ ap (λ xs. get_elem? xs i) same0)
        fits
