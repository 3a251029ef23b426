-- ===== src/Pc1/TreeR/Encode.antt =====
-- The encoding fills the sealed file, whatever the number of threads.
use supra_seal.Prelude.{ℕ, ◌≤◌, ◌<◌, ◌≡◌, some, List, length, get_elem?}
use supra_seal.Commit.Output.{Node}

module _ (add : Node → Node → Node) (contents last_layer : List Node) where
  -- what the sealed file holds at a place
  abbrev pub IsSum : List Node → ℕ → Type 0
  IsSum encoded i =
      (d : Node) × (l : Node) × (get_elem? contents i ≡ some d)
      × (get_elem? last_layer i ≡ some l)
      × (get_elem? encoded i ≡ some (add d l))

  -- The places from `lo` up to `hi` have been encoded, and no place below.
  record Encoded (lo hi : ℕ) (before after : List Node) : Type 0 where
    same_size : length after ≡ length before
    sums : (i : ℕ) → lo ≤ i → i < hi → IsSum after i
    below : (i : ℕ) → i < lo → get_elem? after i ≡ get_elem? before i
