-- ===== src/Pc1/TreeD/Fill.antt =====
-- The rows that `BuildCCTree` fills.
use native.Mathlib.Nat.{one-le-pow}
use supra_seal.Prelude.{
  ℕ, zero, suc, ◌+◌, ◌^◌, ◌≤◌, ◌<◌, ◌≡◌, inl, inr, sym, subst, ◌∙◌, ap, arith, some, List, length,
  get_elem?, lt→ltb, if_on, bind_some, ◌>>=◌, [], ◌∷◌,
}
use supra_seal.Commit.Output.{Node}
use supra_seal.Commit.TreeProof.{log2, shift}
use supra_seal.Commit.TreeProof.Levels.{log2-pow}
use supra_seal.Commit.TreeProof.Tree.{parent}
use supra_seal.Pc1.Rows.{Memory, Ptr, plus, read}
use supra_seal.Pc1.Rows.Spec.{levels_above, Stored, above_count}
use supra_seal.Pc1.Rows.Cell.{Written, write-Written}
use supra_seal.Pc1.Rows.Row.{moved}
use supra_seal.Pc1.Rows.Level.{RowAt, Kept, Kept-none, Kept-one, Kept-trans, RowAt-Kept}
use supra_seal.Pc1.TreeD.{fill_row, fill_loop}
use supra_seal.Pc1.TreeD.Build.{half_row}

-- A row of equal nodes.
fill_row-RowAt :
    (n : ℕ) (v : Node) (p : Ptr) (m : Memory)
    → p.index + n ≤ length (m p.region)
    → (m' : Memory) × (fill_row n (some v) p m ≡ some (m', plus p n))
      × RowAt m' p (λ i. some v) n
      × Kept m m' p n
unfolding fill_row
fill_row-RowAt zero v p m h = (
  m,
  ap (λ k. some (m, k)) (sym (moved p 0 p.index (omega arith))),
  record { fits = omega arith; cells = λ i lt. absurd (omega arith) },
  Kept-none m p,
)
fill_row-RowAt (suc n) v p m h =
    let (m1, e1, w) = write-Written m p v (omega arith) in
    let (m2, e2, at, k) = fill_row-RowAt n v (plus p 1) m1 (omega (arith, w.lengths p.region)) in
    let both : Kept m m2 p (1 + n) = Kept-trans p 1 n (Kept-one p v w) k in
    (
      m2,
      bind_some _ m1 _ e1
          ∙ e2
          ∙ ap (λ q. some (m2, record { region = p.region; index = q })) (omega arith),
      record {
        fits = omega (arith, k.lengths p.region, w.lengths p.region);
        cells = cells m1 m2 w at k;
      },
      subst (Kept m m2 p) (omega arith) both,
    )
  where
    cells :
        (m1 m2 : Memory)
        → Written m p v m1
        → RowAt m2 (plus p 1) (λ i. some v) n
        → Kept m1 m2 (plus p 1) n
        → (i : ℕ) → i < suc n
        → read m2 (plus p i) ≡ some v
    cells m1 m2 w at k zero h =
        k.others p.region (p.index + 0) (inr (inl (omega arith)))
        ∙ ap (get_elem? (m1 p.region)) (omega arith)
        ∙ w.here
    cells m1 m2 w at k (suc i) h =
        ap (get_elem? (m2 p.region)) (omega arith) ∙ at.cells i (omega arith)

no_more : shift (2 ^ 0) (log2 2) ≡ 0
unfolding shift
no_more = rw (log2-pow 1 (omega arith)) (omega arith)

-- Each value of a table is the hash of the one before it with itself.
abbrev pub Doubling : (List Node → Node) → List Node → ℕ → ℕ → Type 0
Doubling hash cc level n =
    (k : ℕ)
    → k < n
    → get_elem? cc (suc (level + k))
      ≡ parent hash (get_elem? cc (level + k) ∷ get_elem? cc (level + k) ∷ [])

pub fill_loop-Stored :
    (hash : List Node → Node) (n fuel level : ℕ) (cc : List Node) (v : Node) (p : Ptr) (m : Memory)
    → suc n < fuel
    → get_elem? cc level ≡ some v
    → Doubling hash cc level n
    → p.index + 2 ^ n + above_count 2 n ≤ length (m p.region)
    → (m' : Memory) × (fill_loop fuel cc (2 ^ n) level p m ≡ some m')
      × Kept m m' p (2 ^ n + above_count 2 n)
      × Stored hash 2 (get_elem? (m' p.region)) (λ i. some v) p.index n
      × (levels_above hash 2 n (λ i. some v) 0 ≡ get_elem? cc (level + n))
unfolding fill_loop parent
fill_loop-Stored hash n zero level cc v p m hf e twice fits = absurd (omega arith)
fill_loop-Stored hash zero (suc zero) level cc v p m hf e twice fits = absurd (omega arith)
fill_loop-Stored hash zero (suc (suc fuel)) level cc v p m hf e twice fits =
    let (m1, e1, at, k1) = fill_row-RowAt 1 v p m (omega arith) in
    (
      m1,
      ap
            (λ x. fill_row 1 x p m >>= λ r.
              fill_loop (suc fuel) cc (shift (2 ^ 0) (log2 2)) (suc level) (r.1) (r.0))
            e
          ∙ bind_some _ (m1, plus p 1) _ e1
          ∙ ap (λ c. fill_loop (suc fuel) cc c (suc level) (plus p 1) m1) no_more,
      k1,
      ap (get_elem? (m1 p.region)) (omega arith) ∙ at.cells 0 (omega arith),
      sym e ∙ ap (get_elem? cc) (omega arith),
    )
fill_loop-Stored hash (suc n) (suc fuel) level cc v p m hf e twice fits =
    let (m1, e1, at, k1) = fill_row-RowAt (2 ^ suc n) v p m (omega arith) in
    let e_next : get_elem? cc (suc level) ≡ some (hash (v ∷ v ∷ [])) =
      ap (λ k. get_elem? cc (suc k)) (omega arith)
      ∙ twice 0 (omega arith)
      ∙ ap (λ k. parent hash (get_elem? cc k ∷ get_elem? cc k ∷ [])) (omega arith)
      ∙ ap (λ x. parent hash (x ∷ x ∷ [])) e in
    let (m2, e2, k2, up, top) =
      fill_loop-Stored hash n fuel (suc level) cc (hash (v ∷ v ∷ [])) (plus p (2 ^ suc n)) m1
        (omega arith) e_next (shifted twice) (omega (arith, k1.lengths p.region)) in
    let at2 =
      RowAt-Kept p (plus p (2 ^ suc n)) (2 ^ suc n) (2 ^ n + above_count 2 n) at k2
        (inr (omega arith)) in
    (
      m2,
      if_on _ _ (lt→ltb 0 (2 ^ suc n) (omega (arith, one-le-pow (suc n) 2 (omega arith))))
          ∙ ap
              (λ x. fill_row (2 ^ suc n) x p m >>= λ r.
                fill_loop fuel cc (shift (2 ^ suc n) (log2 2)) (suc level) (r.1) (r.0))
              e
          ∙ bind_some _ (m1, plus p (2 ^ suc n)) _ e1
          ∙ ap (λ c. fill_loop fuel cc c (suc level) (plus p (2 ^ suc n)) m1) (half_row n)
          ∙ e2,
      Kept-trans p (2 ^ suc n) (2 ^ n + above_count 2 n) k1 k2,
      (at2.cells, up),
      top ∙ ap (get_elem? cc) (omega arith),
    )
  where
    shifted : Doubling hash cc level (suc n) → Doubling hash cc (suc level) n
    shifted d k h =
        ap (λ i. get_elem? cc (suc i)) (omega arith)
        ∙ d (suc k) (omega arith)
        ∙ ap (λ i. parent hash (get_elem? cc i ∷ get_elem? cc i ∷ [])) (omega arith)
