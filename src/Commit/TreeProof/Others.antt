-- ===== src/Commit/TreeProof/Others.antt =====
-- The hashes that a level of the path holds: the siblings of the node, in their order.
use mathlib.Core.List.{append_assoc}
use supra_seal.Prelude.{
  ℕ, zero, suc, ◌+◌, ◌-◌, ◌<◌, ◌≡◌, refl, ◌∙◌, ap, ap₂, arith, List, [], ◌∷◌, ◌++◌, Option, none,
  length, set, replicate, ==_true, ==_false, length-append, sub64, size_mod,
}
use supra_seal.Commit.Output.{Node}
use supra_seal.Commit.PathElement.{PathElement, construct}
use supra_seal.Commit.TreeProof.{set_others}
use supra_seal.Commit.TreeProof.Tree.{insert_at, from}

abbrev pub element : ℕ → ℕ → List (Option Node) → PathElement
element arity index hashes = record { arity = arity; index = index; hashes = hashes }

pub set-append {ℓ} :
    {A : Type ℓ} (pre ys : List A) (y v : A)
    → set (pre ++ (y ∷ ys)) (length pre) v ≡ (pre ++ (v ∷ [])) ++ ys
set-append [] ys y v = refl
set-append (x ∷ pre) ys y v = ap (λ l. x ∷ l) (set-append pre ys y v)

pub from-append {ℓ} :
    {A : Type ℓ} (f : ℕ → A) (a k m : ℕ) → from f a k ++ from f (a + k) m ≡ from f a (k + m)
from-append f a zero m = ap₂ (λ i n. from f i n) (omega arith) (omega arith)
from-append f a (suc k) m =
    let e : suc k + m ≡ suc (k + m) = omega arith in
    let e2 : a + suc k ≡ suc a + k = omega arith in
    rw (e, e2) (ap (λ l. f a ∷ l) (from-append f (suc a) k m))

pub insert_at-from {ℓ} :
    {A : Type ℓ} (f : ℕ → A) (a k : ℕ) (x : A) (rest : List A)
    → insert_at k x (from f a k ++ rest) ≡ from f a k ++ (x ∷ rest)
insert_at-from f a zero x rest = refl
insert_at-from f a (suc k) x rest = ap (λ l. f a ∷ l) (insert_at-from f (suc a) k x rest)

module _ (f : ℕ → Option Node) (leaf arity index : ℕ) where
  -- past the leaf
  others_past :
      (n a h : ℕ) (pre : List (Option Node))
      → leaf < a
      → h ≡ length pre
      → set_others f leaf n a h (element arity index (pre ++ replicate n none))
        ≡ element arity index (pre ++ from f a n)
  unfolding set_others
  others_past zero a h pre p e = refl
  others_past (suc n) a h pre p e =
      rw (==_false a leaf (omega arith), e, set-append pre (replicate n none) none (f a))
        (others_past n (suc a) (suc (length pre)) (pre ++ (f a ∷ [])) (omega arith)
            (omega (arith, length-append pre (f a ∷ [])))
          ∙ ap (element arity index) (append_assoc pre (f a ∷ []) (from f (suc a) n)))

  -- `k` siblings before the leaf and `m` after it
  others_upto :
      (k m n r a h : ℕ) (pre : List (Option Node))
      → leaf ≡ a + k
      → h ≡ length pre
      → n ≡ k + suc m
      → r ≡ k + m
      → set_others f leaf n a h (element arity index (pre ++ replicate r none))
        ≡ element arity index (pre ++ (from f a k ++ from f (suc leaf) m))
  unfolding set_others
  others_upto k m zero r a h pre p e pn pr = absurd (omega arith)
  others_upto zero m (suc n) r a h pre p e pn pr =
      let q : a ≡ leaf = omega arith in
      let s : r ≡ n = omega arith in
      let u : m ≡ n = omega arith in
      rw (q, ==_true leaf leaf refl, s, u) (others_past n (suc leaf) h pre (omega arith) e)
  others_upto (suc k) m (suc n) zero a h pre p e pn pr = absurd (omega arith)
  others_upto (suc k) m (suc n) (suc r) a h pre p e pn pr =
      rw (==_false a leaf (omega arith), e, set-append pre (replicate r none) none (f a))
        (others_upto k m n r (suc a) (suc (length pre)) (pre ++ (f a ∷ [])) (omega arith)
            (omega (arith, length-append pre (f a ∷ []))) (omega arith) (omega arith)
          ∙ ap (element arity index)
              (append_assoc pre (f a ∷ []) (from f (suc a) k ++ from f (suc leaf) m)))

-- the siblings of the `leaf`-th node
abbrev pub siblings : (ℕ → Option Node) → ℕ → ℕ → List (Option Node)
siblings f leaf arity = from f 0 leaf ++ from f (suc leaf) (arity - suc leaf)

-- The hashes are the siblings, in their order.
pub set_others_lem :
    (f : ℕ → Option Node) (leaf arity : ℕ)
    → leaf < arity
    → arity < size_mod
    → set_others f leaf arity 0 0 (construct arity leaf)
      ≡ element arity leaf (siblings f leaf arity)
unfolding construct
set_others_lem f leaf arity p q =
    others_upto f leaf arity leaf leaf (arity - suc leaf) arity (sub64 arity 1) 0 0 [] (omega arith)
      refl (omega arith) (omega arith)

-- With the node put back in its place, they are the whole row.
pub insert_at-siblings :
    (f : ℕ → Option Node) (leaf arity : ℕ)
    → leaf < arity
    → insert_at leaf (f leaf) (siblings f leaf arity) ≡ from f 0 arity
insert_at-siblings f leaf arity p =
    let m : ℕ = arity - suc leaf in
    let e : leaf + suc m ≡ arity = omega arith in
    insert_at-from f 0 leaf (f leaf) (from f (suc leaf) m)
    ∙ ap (λ i. from f 0 leaf ++ from f i (suc m)) (omega arith)
    ∙ from-append f 0 leaf (suc m)
    ∙ ap (from f 0) e
