-- ===== src/Pc1/Rows/Spec.antt =====
-- The rows of a tree, with no reference to the code: a node is the hash of its children.
use supra_seal.Prelude.{ℕ, zero, suc, ◌+◌, ◌*◌, ◌^◌, ◌<◌, ◌≡◌, List, Option}
use supra_seal.Commit.Output.{Node}
use supra_seal.Commit.TreeProof.Tree.{from, parent}

abbrev pub Row : Type 0
Row = ℕ → Option Node

-- the number of nodes above a row of `arity ^ n` nodes
abbrev pub above_count : ℕ → ℕ → ℕ
above_count arity zero = 0
above_count arity (suc n) = arity ^ n + above_count arity n

module _ (hash : List Node → Node) (arity : ℕ) where
  -- the row above a row
  abbrev pub above : Row → Row
  above row i = parent hash (from (λ a. row (arity * i + a)) 0 arity)

  abbrev pub levels_above : ℕ → Row → Row
  levels_above zero row = row
  levels_above (suc n) row = levels_above n (above row)

  -- The row, of `arity ^ n` nodes, and all rows above it stand at `base` one after the other.
  abbrev pub Stored : Row → Row → ℕ → ℕ → Type 0
  Stored nodes row base zero = nodes base ≡ row 0
  Stored nodes row base (suc n) =
      ((i : ℕ) → i < arity ^ suc n → nodes (base + i) ≡ row i)
      × Stored nodes (above row) (base + arity ^ suc n) n

  -- The rows above a row of `arity ^ n` nodes stand at `base` one after the other.
  abbrev pub StoredAbove : Row → Row → ℕ → ℕ → Type 0
  StoredAbove nodes row base zero = Unit
  StoredAbove nodes row base (suc n) = Stored nodes (above row) base n
