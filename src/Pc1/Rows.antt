-- ===== src/Pc1/Rows.antt =====
-- What the builders of trees of pc1/tree_builder.hpp and pc1/tree_d.hpp share: pointers into arrays of
-- nodes, and the loop that hashes a row of nodes into the row above it. An access outside an array
-- is a fault, `none`.
pub mod Spec
pub mod Cell
pub mod Row
pub mod Level
pub mod Tree
use supra_seal.Prelude.{
  ℕ, zero, suc, ◌+◌, Bool, true, false, Option, none, some, List, [], ◌∷◌, length, get_elem?, set,
  add64, ltb, if◌then◌else◌, ◌>>=◌,
}
use supra_seal.Commit.Output.{Node}

-- The leaves or the file of data, the storage for the tree, and the rows that are not stored.
pub data Region : Type 0 where
  input : Region
  output : Region
  scratch : Region

abbrev pub same : Region → Region → Bool
same input input = true
same output output = true
same scratch scratch = true
same a b = false

abbrev pub Memory : Type 0
Memory = Region → List Node

pub record Ptr : Type 0 where
  pub region : Region
  pub index : ℕ

abbrev pub start : Region → Ptr
start r = record { region = r; index = 0 }

abbrev pub plus : Ptr → ℕ → Ptr
plus p n = record { region = p.region; index = p.index + n }

abbrev pub read : Memory → Ptr → Option Node
read m p = get_elem? (m p.region) p.index

unfoldable pub write : Memory → Ptr → Node → Option Memory
write m p v =
    if ltb p.index (length (m p.region))
    then some (λ r. if same p.region r then set (m r) p.index v else m r)
    else none

-- `n` nodes in a row
unfoldable pub read_nodes : ℕ → Memory → Ptr → Option (List Node)
read_nodes zero m p = some []
read_nodes (suc n) m p = do v ← read m p; vs ← read_nodes n m (plus p 1); some (v ∷ vs)

-- `hash` stands for Poseidon or SHA-256, of `arity` nodes.
module _ (hash : List Node → Node) (arity : ℕ) where
  unfoldable pub hash_node : Memory → Ptr → Ptr → Option Memory
  unfolding read_nodes write
  hash_node m dst src = do vs ← read_nodes arity m src; write m dst (hash vs)

  -- `for (i; i < count; i += arity)`, on fuel; `src + i` is where the source's second pointer stands
  unfoldable pub row_loop : ℕ → ℕ → ℕ → Ptr → Ptr → Memory → Option (Memory × Ptr)
  unfolding hash_node
  row_loop zero i count src dst m = none
  row_loop (suc fuel) i count src dst m =
      let rest : Option (Memory × Ptr) = hash_node m dst (plus src i) >>= λ m'.
      row_loop fuel (add64 i arity) count src (plus dst 1) m' in
      if ltb i count then rest else some (m, dst)

  unfoldable pub hash_row : ℕ → ℕ → Ptr → Ptr → Memory → Option (Memory × Ptr)
  unfolding row_loop
  hash_row fuel count src dst m = row_loop fuel 0 count src dst m
