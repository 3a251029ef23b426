-- ===== src/Pc1/Rows/Level.antt =====
-- A row that stands in an array, and the row above it once it is hashed.
use native.Mathlib.Nat.{pow-succ', one-le-pow}
use supra_seal.Prelude.{
  ℕ, zero, suc, ◌+◌, ◌*◌, ◌^◌, ◌≤◌, ◌<◌, ◌≡◌, ◌≢◌, ◌⊎◌, inl, inr, refl, sym, subst, ◌∙◌, ap, arith,
  some, List, length, get_elem?, size_mod,
}
use supra_seal.Commit.Output.{Node}
use supra_seal.Commit.TreeProof.Tree.{parent}
use supra_seal.Pc1.Rows.{Region, Memory, Ptr, plus, read, hash_row}
use supra_seal.Pc1.Rows.Spec.{Row, above, Stored, StoredAbove}
use supra_seal.Pc1.Rows.Cell.{Written, from_ext}
use supra_seal.Pc1.Rows.Row.{Apart, child-lt, hash_row-Done}

-- The `n` nodes from `p` on are those of a row.
pub record RowAt (m : Memory) (p : Ptr) (row : Row) (n : ℕ) : Type 0 where
  pub fits : p.index + n ≤ length (m p.region)
  pub cells : (i : ℕ) → i < n → read m (plus p i) ≡ row i

-- Only the `n` nodes from `p` on have changed.
pub record Kept (m m' : Memory) (p : Ptr) (n : ℕ) : Type 0 where
  pub lengths : (r : Region) → length (m' r) ≡ length (m r)
  pub others :
      (r : Region) (i : ℕ)
      → (r ≢ p.region) ⊎ (i < p.index) ⊎ (p.index + n ≤ i)
      → get_elem? (m' r) i ≡ get_elem? (m r) i

pub Kept-none : (m : Memory) (p : Ptr) → Kept m m p 0
Kept-none m p = record { lengths = λ r. refl; others = λ r i h. refl }

one_place : {r s : Region} (i p : ℕ) → (r ≢ s) ⊎ (i < p) ⊎ (p + 1 ≤ i) → (r ≢ s) ⊎ (i ≢ p)
one_place i p (inl h) = inl h
one_place i p (inr (inl h)) = inr (λ e. absurd (omega (arith, e)))
one_place i p (inr (inr h)) = inr (λ e. absurd (omega (arith, e)))

pub Kept-one : {m m' : Memory} (p : Ptr) (v : Node) → Written m p v m' → Kept m m' p 1
Kept-one p v w = record {
  lengths = w.lengths;
  others = λ r i h. w.others r i (one_place {r = r} {s = p.region} i p.index h);
}

wider :
    {r s : Region} (i p a b : ℕ)
    → (r ≢ s) ⊎ (i < p) ⊎ (p + (a + b) ≤ i)
    → ((r ≢ s) ⊎ (i < p) ⊎ (p + a ≤ i)) × ((r ≢ s) ⊎ (i < p + a) ⊎ (p + a + b ≤ i))
wider i p a b (inl h) = (inl h, inl h)
wider i p a b (inr (inl h)) = (inr (inl h), inr (inl (omega arith)))
wider i p a b (inr (inr h)) = (inr (inr (omega arith)), inr (inr (omega arith)))

pub Kept-trans :
    {m m' m'' : Memory} (p : Ptr) (a b : ℕ)
    → Kept m m' p a
    → Kept m' m'' (plus p a) b
    → Kept m m'' p (a + b)
Kept-trans p a b k l = record {
  lengths = λ r. l.lengths r ∙ k.lengths r;
  others = λ r i h.
      let (first, second) = wider {r = r} {s = p.region} i p.index a b h in
      l.others r i second ∙ k.others r i first;
}

-- A row below what has changed is still there.
pub RowAt-Kept :
    {m m' : Memory} {row : Row} (p q : Ptr) (n b : ℕ)
    → RowAt m p row n
    → Kept m m' q b
    → (p.region ≢ q.region) ⊎ (p.index + n ≤ q.index)
    → RowAt m' p row n
RowAt-Kept p q n b at k h = record {
  fits = omega (arith, at.fits, k.lengths p.region);
  cells = λ i lt. k.others p.region _ (before i h lt) ∙ at.cells i lt;
}
  where
    before :
        (i : ℕ)
        → (p.region ≢ q.region) ⊎ (p.index + n ≤ q.index)
        → i < n
        → (p.region ≢ q.region) ⊎ (p.index + i < q.index) ⊎ (q.index + b ≤ p.index + i)
    before i (inl ne) lt = inl ne
    before i (inr le) lt = inr (inl (omega arith))

module _ (hash : List Node → Node) (arity : ℕ) (pos : 0 < arity) where
  -- The loop over a row of `arity ^ (n + 1)` nodes puts the row above it at `dst`.
  pub row_up :
      (n fuel count : ℕ) (src dst : Ptr) (m : Memory) (row : Row)
      → arity ^ n < fuel
      → count ≡ arity ^ suc n
      → count < size_mod
      → RowAt m src row (arity ^ suc n)
      → Apart src dst (arity ^ suc n)
      → dst.index + arity ^ n ≤ length (m dst.region)
      → (m' : Memory) × (hash_row hash arity fuel count src dst m ≡ some (m', plus dst (arity ^ n)))
        × RowAt m' dst (above hash arity row) (arity ^ n)
        × Kept m m' dst (arity ^ n)
  row_up n fuel count src dst m row hf hc small at apart hd =
      let pow : count ≡ arity * arity ^ n = hc ∙ pow-succ' arity n in
      let (m', e, done) =
        hash_row-Done hash arity pos (arity ^ n) fuel count src dst m hf pow small
          (subst (Apart src dst) (sym hc) apart) (omega (arith, at.fits)) hd in
      (
        m',
        e,
        record {
          fits = omega (arith, done.lengths dst.region);
          cells = λ i h.
              done.row i h
              ∙ ap (parent hash) (
                  from_ext _ _ 0 0 arity
                    (λ a q. at.cells _ (omega (arith, pow, child-lt arity (arity ^ n) i a h q))));
        },
        record { lengths = done.lengths; others = done.others },
      )

  pub Stored-cons :
      (nodes row : Row) (base n : ℕ)
      → ((i : ℕ) → i < arity ^ n → nodes (base + i) ≡ row i)
      → StoredAbove hash arity nodes row (base + arity ^ n) n
      → Stored hash arity nodes row base n
  Stored-cons nodes row base zero h up =
      ap nodes (omega arith) ∙ h 0 (omega (arith, one-le-pow 0 arity pos))
  Stored-cons nodes row base (suc n) h up = (h, up)
