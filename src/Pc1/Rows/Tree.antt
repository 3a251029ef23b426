-- ===== src/Pc1/Rows/Tree.antt =====
-- Rows that are stored one after the other are a tree, as a proof of inclusion reads it.
use supra_seal.Prelude.{ℕ, zero, suc, ◌+◌, ◌^◌, ◌<◌, ◌≡◌, sym, ◌∙◌, ap, arith, ◌-◌, dec_lt, List}
use native.Mathlib.Nat.{pow-succ', pow-zero}
use supra_seal.Commit.Output.{Node}
use supra_seal.Commit.TreeProof.Tree.{parent, IsTree, top_of}
use supra_seal.Pc1.Rows.Spec.{Row, above, levels_above, Stored, above_count}
use supra_seal.Pc1.Rows.Cell.{from_ext}
use supra_seal.Pc1.Rows.Row.{child-lt}

module _ (hash : List Node → Node) (arity : ℕ) where
  pub Stored-row :
      (nodes row : Row) (base n : ℕ)
      → Stored hash arity nodes row base n
      → (i : ℕ) → i < arity ^ n
      → nodes (base + i) ≡ row i
  Stored-row nodes row base zero s i h =
      let e : i ≡ 0 = omega (arith, pow-zero arity) in ap nodes (omega arith) ∙ s ∙ ap row (sym e)
  Stored-row nodes row base (suc n) s i h = s.0 i h

  pub Stored-IsTree :
      (nodes row : Row) (base n : ℕ)
      → Stored hash arity nodes row base n
      → IsTree hash arity nodes base n
        × (nodes (top_of arity base n) ≡ levels_above hash arity n row 0)
  unfolding IsTree top_of
  Stored-IsTree nodes row base zero s = (tt, s)
  Stored-IsTree nodes row base (suc n) s =
      let (tree, top) = Stored-IsTree nodes (above hash arity row) (base + arity ^ suc n) n (s.1) in
      (
        (
          λ i h.
              Stored-row nodes (above hash arity row) (base + arity ^ suc n) n (s.1) i h
              ∙ ap (parent hash) (
                  from_ext _ _ 0 0 arity (λ a q.
                    sym
                      (s.0 _ (omega (arith, pow-succ' arity n, child-lt arity (arity ^ n) i a h q)))
                    ∙ ap nodes (omega arith))),
          tree,
        ),
        top,
      )

  above-agree :
      (row row' : Row) (n : ℕ)
      → ((i : ℕ) → i < arity ^ suc n → row i ≡ row' i)
      → (i : ℕ) → i < arity ^ n
      → above hash arity row i ≡ above hash arity row' i
  above-agree row row' n h i lt = ap (parent hash) (
      from_ext _ _ 0 0 arity
        (λ a q. h _ (omega (arith, pow-succ' arity n, child-lt arity (arity ^ n) i a lt q))))

  -- Trees over the same row have the same nodes,
  pub Stored-agree :
      (nodes nodes' row row' : Row) (base n : ℕ)
      → ((i : ℕ) → i < arity ^ n → row i ≡ row' i)
      → Stored hash arity nodes row base n
      → Stored hash arity nodes' row' base n
      → (i : ℕ) → i < arity ^ n + above_count arity n
      → nodes (base + i) ≡ nodes' (base + i)
  Stored-agree nodes nodes' row row' base zero h s s' i lt =
      let first : base + i ≡ base = omega (arith, pow-zero arity) in
      ap nodes first ∙ s ∙ h 0 (omega (arith, pow-zero arity)) ∙ sym s' ∙ sym (ap nodes' first)
  Stored-agree nodes nodes' row row' base (suc n) h s s' i lt = elim (dec_lt i (arity ^ suc n)) [
    | yes p ↦ s.0 i p ∙ h i p ∙ sym (s'.0 i p)
    | no p ↦
        let e : base + i ≡ base + arity ^ suc n + (i - arity ^ suc n) = omega (arith, p) in
        ap nodes e
        ∙ Stored-agree nodes nodes' (above hash arity row) (above hash arity row')
            (base + arity ^ suc n) n (above-agree row row' n h) (s.1) (s'.1) (i - arity ^ suc n)
            (omega (arith, p))
        ∙ ap nodes' (sym e)
  ]

  -- and the same root.
  pub levels_above-agree :
      (row row' : Row) (n : ℕ)
      → ((i : ℕ) → i < arity ^ n → row i ≡ row' i)
      → levels_above hash arity n row 0 ≡ levels_above hash arity n row' 0
  levels_above-agree row row' zero h = h 0 (omega (arith, pow-zero arity))
  levels_above-agree row row' (suc n) h =
      levels_above-agree (above hash arity row) (above hash arity row') n (above-agree row row' n h)

  -- The last node of the rows is the root.
  pub Stored-last :
      (nodes row : Row) (base n : ℕ)
      → 0 < arity
      → Stored hash arity nodes row base n
      → (k : ℕ) → k + 1 ≡ base + arity ^ n + above_count arity n
      → nodes k ≡ levels_above hash arity n row 0
  Stored-last nodes row base zero pos s k e = ap nodes (omega (arith, pow-zero arity)) ∙ s
  Stored-last nodes row base (suc n) pos s k e =
      Stored-last nodes (above hash arity row) (base + arity ^ suc n) n pos (s.1) k (omega arith)
