-- ===== src/Pc1/TreeR.antt =====
-- `TreeR` of pc1/tree_r.hpp, for the sectors that are built with one thread, where `GetSectorSizeLg` is at
-- most 15: the data is added to the labels of the last layer, which makes the sealed file, and the
-- tree over it stands in the files. The calls of `BuildTree` with a pool are not modelled.
-- `add` is `ElementAdd`, whose sum is that of the field library. The chunks of a thread pool are encoded one after
-- the other; each writes its own part.
pub mod Encode
pub mod Proof
use supra_seal.Prelude.{
  ℕ, zero, suc, ◌+◌, ◌-◌, ◌*◌, ◌/◌, min, false, Option, none, some, List, length, get_elem?, set,
  replicate, ◌>>=◌,
}
use supra_seal.Commit.Output.{Node}
use supra_seal.Pc1.TreeD.{zero_node}
use supra_seal.Pc1.TreeBuilder.{TreeBuilder, size}
use supra_seal.Pc1.TreeC.{build_files, top_root}

module _ (add : Node → Node → Node) (contents last_layer : List Node) where
  -- `for (i = start; i < stop; ++i)`, `n` nodes to go from the `i`-th on
  unfoldable pub encode_range : ℕ → ℕ → List Node → Option (List Node)
  encode_range zero i encoded = some encoded
  encode_range (suc n) i encoded = do
    d ← get_elem? contents i
    l ← get_elem? last_layer i
    encode_range n (suc i) (set encoded i (add d l))

  -- `n` chunks from the `chunk`-th on
  unfoldable pub encode_chunks : ℕ → ℕ → ℕ → ℕ → List Node → Option (List Node)
  unfolding encode_range
  encode_chunks sector_size chunk_size zero chunk encoded = some encoded
  encode_chunks sector_size chunk_size (suc n) chunk encoded =
      let from : ℕ = chunk * chunk_size in
      let stop : ℕ = min (from + chunk_size) sector_size in
      encode_range (stop - from) from encoded >>= λ next.
      encode_chunks sector_size chunk_size n (suc chunk) next

  -- the sealed file, with `pool_size` threads
  unfoldable pub encode : ℕ → Option (List Node)
  unfolding encode_chunks
  encode pool_size =
      let sector_size : ℕ = length last_layer in
      let num_chunks : ℕ = pool_size * 4 in
      let chunk_size : ℕ = (sector_size + num_chunks - 1) / num_chunks in
      encode_chunks sector_size chunk_size num_chunks 0 (replicate sector_size zero_node)

module _ (poseidon : ℕ → List Node → Node) (allocate : ℕ → List Node) (b : TreeBuilder) where
  -- `BuildTreeR` from the leaves, with an output path and one thread: the files and the root
  unfoldable pub build_tree_r : ℕ → ℕ → List Node → Option (List (List Node) × Node)
  unfolding build_files size top_root
  build_tree_r files sector_size leaves = do
    elmts ← size b (sector_size / files) false false
    r ← build_files poseidon allocate b false (sector_size / files) elmts files 0 leaves
    root ← top_root poseidon files (r.1)
    some (r.0, root)

  -- `BuildTreeR` from the last layer, and the data if there is a file of it: the leaves, which with data
  -- are the sealed file, the files of the tree and the root
  unfoldable pub seal :
      (Node → Node → Node)
      → ℕ
      → ℕ
      → List Node
      → Option (List Node)
      → Option (List Node × (List (List Node) × Node))
  unfolding encode build_tree_r
  seal add pool_size files last_layer none =
      build_tree_r files (length last_layer) last_layer >>= λ r. some (last_layer, r)
  seal add pool_size files last_layer (some contents) = do
    leaves ← encode add contents last_layer pool_size
    r ← build_tree_r files (length last_layer) leaves
    some (leaves, r)
