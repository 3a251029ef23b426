-- ===== src/Commit/TreeProof/Tree.antt =====
-- What an inclusion path claims, written with no reference to the code: from the leaf, hash each node
-- with its siblings, in their order, until the root. A node is an `Option`, since a place may lie
-- outside its buffer.
use supra_seal.Prelude.{ℕ, zero, suc, ◌+◌, ◌*◌, ◌^◌, ◌<◌, ◌≡◌, List, [], ◌∷◌, Option, none, some}
use supra_seal.Commit.Output.{Node}
use supra_seal.Commit.PathElement.{PathElement}

-- every value, or none
abbrev pub sequence {ℓ} : {A : Type ℓ} → List (Option A) → Option (List A)
sequence [] = some []
sequence (none ∷ xs) = none
sequence (some x ∷ xs) = elim (sequence xs) [ none ↦ none | some ys ↦ some (x ∷ ys) ]

abbrev pub insert_at {ℓ} : {A : Type ℓ} → ℕ → A → List A → List A
insert_at zero x xs = x ∷ xs
insert_at (suc i) x [] = x ∷ []
insert_at (suc i) x (y ∷ xs) = y ∷ insert_at i x xs

-- `f a`, …, `f (a + n - 1)`
abbrev pub from {ℓ} : {A : Type ℓ} → (ℕ → A) → ℕ → ℕ → List A
from f a zero = []
from f a (suc n) = f a ∷ from f (suc a) n

-- where the top stands of a tree whose lowest row, of `arity ^ n` nodes, stands at `base`
unfoldable pub top_of : ℕ → ℕ → ℕ → ℕ
top_of arity base zero = base
top_of arity base (suc n) = top_of arity (base + arity ^ suc n) n

module _ (hash : List Node → Node) where
  -- the parent of a row of nodes
  unfoldable pub parent : List (Option Node) → Option Node
  parent nodes = elim (sequence nodes) [ none ↦ none | some ns ↦ some (hash ns) ]

  unfoldable pub climb : List PathElement → Option Node → Option Node
  unfolding parent
  climb [] node = node
  climb (e ∷ es) node = climb es (parent (insert_at e.index node e.hashes))

  -- The `n` rows that follow a row of `arity ^ n` nodes at `base`: each node is the hash of its
  -- children.
  unfoldable pub IsTree : ℕ → (ℕ → Option Node) → ℕ → ℕ → Type 0
  unfolding parent
  IsTree arity nodes base zero = Unit
  IsTree arity nodes base (suc n) =
      ((i : ℕ)
        → i < arity ^ n
        → nodes (base + arity ^ suc n + i)
          ≡ parent (from (λ a. nodes (base + arity * i + a)) 0 arity))
      × IsTree arity nodes (base + arity ^ suc n) n
