-- ===== src/Pc1/Rows/Row.antt =====
-- What the loop over a row leaves.
use native.Mathlib.Nat.{mul-suc, mul-le-mul_left}
use supra_seal.Prelude.{
  ℕ, zero, suc, ◌+◌, ◌*◌, ◌≤◌, ◌<◌, ◌≡◌, ◌≢◌, ◌⊎◌, inl, inr, refl, subst, sym, ◌∙◌, ap, arith, true,
  false, some, List, length, get_elem?, ltb, lt→ltb, if_on, if_off, bind_some, size_mod, add64,
}
use supra_seal.Commit.Output.{Node}
use supra_seal.Commit.TreeProof.Tree.{from, parent}
use supra_seal.Pc1.Rows.{Region, Memory, Ptr, plus, read, row_loop, hash_row}
use supra_seal.Pc1.Rows.Cell.{Hashed, hash_node-Hashed, from_ext}

-- Writing a row at `dst` leaves alone what is still to be read of the row at `src`.
abbrev pub Apart : Ptr → Ptr → ℕ → Type 0
Apart src dst count =
    (src.region ≢ dst.region) ⊎ (src.index + count ≤ dst.index) ⊎ (dst.index ≤ src.index)

-- A row of `n` nodes has been written at `dst`, above the row at `src`.
pub record RowDone (hash : List Node → Node) (arity : ℕ) (m : Memory) (dst src : Ptr) (n : ℕ)
    (m' : Memory) : Type 0 where
  pub lengths : (r : Region) → length (m' r) ≡ length (m r)
  pub row :
      (j : ℕ)
      → j < n
      → read m' (plus dst j) ≡ parent hash (from (λ a. read m (plus src (arity * j + a))) 0 arity)
  pub others :
      (r : Region) (i : ℕ)
      → (r ≢ dst.region) ⊎ (i < dst.index) ⊎ (dst.index + n ≤ i)
      → get_elem? (m' r) i ≡ get_elem? (m r) i

pub moved :
    (p : Ptr) (a b : ℕ) → p.index + a ≡ b → plus p a ≡ record { region = p.region; index = b }
moved p a b e = ap (λ k. record { region = p.region; index = k }) e

read_moved : (m : Memory) (r : Region) {a b : ℕ} → a ≡ b → get_elem? (m r) a ≡ get_elem? (m r) b
read_moved m r e = ap (get_elem? (m r)) e

still_free :
    (src dst : Ptr) (i arity n : ℕ)
    → 0 < arity
    → Apart (plus src i) dst (arity * suc n)
    → Apart (plus src (i + arity)) (plus dst 1) (arity * n)
still_free src dst i arity n pos (inl h) = inl h
still_free src dst i arity n pos (inr (inl h)) = inr (inl (grind arith))
still_free src dst i arity n pos (inr (inr h)) = inr (inr (omega arith))

-- The children of a row's nodes stand in the row below.
pub child-lt : (arity n j a : ℕ) → j < n → a < arity → arity * j + a < arity * n
child-lt arity n j a hj ha =
    omega (arith, mul-suc arity j, mul-le-mul_left {m = suc j} {n = n} arity (omega arith))

-- What has been written at `dst` is not what is read next.
not_here :
    (src dst : Ptr) (i arity n k : ℕ)
    → 0 < arity
    → Apart (plus src i) dst (arity * suc n)
    → src.index + (i + arity) ≤ k
    → k < src.index + (i + arity) + arity * n
    → (src.region ≢ dst.region) ⊎ (k ≢ dst.index)
not_here src dst i arity n k pos (inl h) lo hi = inl h
not_here src dst i arity n k pos (inr (inl h)) lo hi = inr (grind arith)
not_here src dst i arity n k pos (inr (inr h)) lo hi = inr (λ e. absurd (omega (arith, e)))

elsewhere :
    (k dst n : ℕ) {r d : Region}
    → (r ≢ d) ⊎ (k < dst) ⊎ (dst + suc n ≤ k)
    → ((r ≢ d) ⊎ (k < dst + 1) ⊎ (dst + 1 + n ≤ k)) × ((r ≢ d) ⊎ (k ≢ dst))
elsewhere k dst n (inl h) = (inl h, inl h)
elsewhere k dst n (inr (inl h)) = (inr (inl (omega arith)), inr (λ e. absurd (omega (arith, e))))
elsewhere k dst n (inr (inr h)) = (inr (inr (omega arith)), inr (λ e. absurd (omega (arith, e))))

module _ (hash : List Node → Node) (arity : ℕ) (pos : 0 < arity) where
  -- One node, and then the others of the row.
  row_cons :
      (n i : ℕ) (src dst : Ptr) (m m1 m2 : Memory)
      → Apart (plus src i) dst (arity * suc n)
      → Hashed hash arity m dst (plus src i) m1
      → RowDone hash arity m1 (plus dst 1) (plus src (i + arity)) n m2
      → RowDone hash arity m dst (plus src i) (suc n) m2
  row_cons n i src dst m m1 m2 apart h1 h2 = record {
    lengths = λ r. h2.lengths r ∙ h1.lengths r;
    row = row;
    others = λ r k h.
        let (later, now) = elsewhere k dst.index n {r = r} {d = dst.region} h in
        h2.others r k later ∙ h1.others r k now;
  }
    where
      row :
          (j : ℕ)
          → j < suc n
          → read m2 (plus dst j)
            ≡ parent hash (from (λ a. read m (plus (plus src i) (arity * j + a))) 0 arity)
      row zero h =
          h2.others dst.region (dst.index + 0) (inr (inl (omega arith)))
          ∙ read_moved m1 dst.region (omega arith)
          ∙ h1.here
          ∙ ap (parent hash) (from_ext _ _ 0 0 arity (λ a q. read_moved m src.region (grind arith)))
      row (suc j) h =
          read_moved m2 dst.region (omega arith)
          ∙ h2.row j (omega arith)
          ∙ ap (parent hash) (
              from_ext _ _ 0 0 arity (λ a q.
                h1.others src.region _ (
                  not_here src dst i arity n _ pos apart (omega arith)
                    (omega (arith, child-lt arity n j a (omega arith) q)))
                ∙ read_moved m src.region (omega (arith, mul-suc arity j))))

  row_loop-Done :
      (n fuel i count : ℕ) (src dst : Ptr) (m : Memory)
      → n < fuel
      → count ≡ i + arity * n
      → count < size_mod
      → Apart (plus src i) dst (arity * n)
      → src.index + count ≤ length (m src.region)
      → dst.index + n ≤ length (m dst.region)
      → (m' : Memory) × (row_loop hash arity fuel i count src dst m ≡ some (m', plus dst n))
        × RowDone hash arity m dst (plus src i) n m'
  unfolding row_loop
  row_loop-Done n zero i count src dst m hf hc small apart hs hd = absurd (omega arith)
  row_loop-Done zero (suc fuel) i count src dst m hf hc small apart hs hd =
      let stop : ltb i count ≡ false = ground arith in
      let same_ptr : dst.index ≡ dst.index + 0 = omega arith in
      (
        m,
        if_off _ _ stop ∙ ap (λ k. some (m, record { region = dst.region; index = k })) same_ptr,
        record { lengths = λ r. refl; row = λ j h. absurd (omega arith); others = λ r k h. refl },
      )
  row_loop-Done (suc n) (suc fuel) i count src dst m hf hc small apart hs hd =
      let go : ltb i count ≡ true = lt→ltb i count (grind arith) in
      let (m1, h1) = hash_node-Hashed hash arity m dst (plus src i) (grind arith) (omega arith) in
      let (m2, e2, h2) =
        row_loop-Done n fuel (i + arity) count src (plus dst 1) m1 (omega arith) (grind arith) small
          (still_free src dst i arity n pos apart) (omega (arith, h1.lengths src.region))
          (omega (arith, h1.lengths dst.region)) in
      let step : add64 i arity ≡ i + arity = grind arith in
      (
        m2,
        if_on _ _ go
            ∙ bind_some _ m1 _ h1.runs
            ∙ ap (λ k. row_loop hash arity fuel k count src (plus dst 1) m1) step
            ∙ e2
            ∙ ap (λ k. some (m2, record { region = dst.region; index = k })) (omega arith),
        row_cons n i src dst m m1 m2 apart h1 h2,
      )

  -- A loop over a row of `count` nodes, with fuel for its nodes, ends and writes the row above it.
  pub hash_row-Done :
      (n fuel count : ℕ) (src dst : Ptr) (m : Memory)
      → n < fuel
      → count ≡ arity * n
      → count < size_mod
      → Apart src dst count
      → src.index + count ≤ length (m src.region)
      → dst.index + n ≤ length (m dst.region)
      → (m' : Memory) × (hash_row hash arity fuel count src dst m ≡ some (m', plus dst n))
        × RowDone hash arity m dst src n m'
  unfolding hash_row
  hash_row-Done n fuel count src dst m hf hc small apart hs hd =
      let here : plus src 0 ≡ src = moved src 0 src.index (omega arith) in
      let free : Apart (plus src 0) dst (arity * n) =
        subst (λ k. Apart (plus src 0) dst k) hc
          (subst (λ p. Apart p dst count) (sym here) apart) in
      let (m', e, done) =
        row_loop-Done n fuel 0 count src dst m hf (omega (arith, hc)) small free hs hd in
      (m', e, subst (λ p. RowDone hash arity m dst p n m') here done)
