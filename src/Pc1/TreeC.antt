-- ===== src/Pc1/TreeC.antt =====
-- `TreeC` of pc1/tree_c.hpp, for the sectors that are built with one thread, of at most 2^15 bytes: the labels of a node in all
-- layers become a column, and the trees over the columns' hashes stand in one file, or in one for each
-- child of the root. Poseidon is a parameter, a function of the arity and the nodes; so is what `new`
-- finds in memory. A pointer into the array of leaves is the array from there on.
-- The sector is as large as the file of its first layer.
pub mod Merge
pub mod PerFile
pub mod Proof
use supra_seal.Prelude.{
  ℕ, zero, suc, ◌+◌, ◌*◌, ◌/◌, Bool, true, false, Option, none, some, List, [], ◌∷◌, length,
  get_elem?, set, take, drop, replicate, ltb, ◌==◌, if◌then◌else◌, ◌>>=◌,
}
use supra_seal.Commit.Output.{Node}
use supra_seal.Pc1.Rows.{input, output, scratch, start, Memory}
use supra_seal.Pc1.TreeD.{zero_node}
use supra_seal.Pc1.TreeBuilder.{TreeBuilder, size, build_tree}

-- the leaves, and a new file of `n` nodes
abbrev pub space : List Node → ℕ → Memory
space leaves n input = leaves
space leaves n output = replicate n zero_node
space leaves n scratch = []

-- `merged_layers[i * num_layers + layer_idx] = layer[i]`, `n` nodes from the `i`-th on
unfoldable pub merge_layer : ℕ → ℕ → List Node → ℕ → ℕ → List Node → Option (List Node)
merge_layer num_layers layer_idx layer zero i merged = some merged
merge_layer num_layers layer_idx layer (suc n) i merged = do
  v ← get_elem? layer i
  merge_layer num_layers layer_idx layer n (suc i) (set merged (i * num_layers + layer_idx) v)

-- the layers from the `layer_idx`-th on, of `nodes` nodes each
unfoldable pub merge_layers : ℕ → ℕ → ℕ → List (List Node) → List Node → Option (List Node)
unfolding merge_layer
merge_layers num_layers nodes layer_idx [] merged = some merged
merge_layers num_layers nodes layer_idx (layer ∷ layers) merged = do
  next ← merge_layer num_layers layer_idx layer nodes 0 merged
  merge_layers num_layers nodes (suc layer_idx) layers next

-- the loop that fills `merged_layers`
unfoldable pub leaves_of : ℕ → List (List Node) → Option (List Node)
unfolding merge_layers
leaves_of nodes layers =
    merge_layers (length layers) nodes 0 layers (replicate (length layers * nodes) zero_node)

-- the hash above the files
unfoldable pub top_root : (ℕ → List Node → Node) → ℕ → List Node → Option Node
top_root poseidon files final_row =
    if files == 16
    then some
        (poseidon 2 (poseidon 8 (take 8 final_row) ∷ poseidon 8 (take 8 (drop 8 final_row)) ∷ []))
    else if ltb 1 files
    then some (poseidon files final_row)
    else get_elem? final_row 0

module _ (poseidon : ℕ → List Node → Node) (allocate : ℕ → List Node) (b : TreeBuilder) where
  -- `n` files from the `i`-th on, with the root of each
  unfoldable pub build_files :
      Bool → ℕ → ℕ → ℕ → ℕ → List Node → Option (List (List Node) × List Node)
  unfolding build_tree
  build_files cols sub_tree_size elmts zero i leaves = some ([], [])
  build_files cols sub_tree_size elmts (suc n) i leaves = do
    r ←
        build_tree (poseidon b.col_arity) (poseidon b.arity) allocate b sub_tree_size (start output)
          (start input) cols false (space (drop (i * sub_tree_size) leaves) elmts)
    rest ← build_files cols sub_tree_size elmts n (suc i) leaves
    some (r.0 output ∷ rest.0, r.1 ∷ rest.1)

  -- `BuildTreeC` from the leaves, with an output path: the files and the root
  unfoldable pub build_tree_c : ℕ → ℕ → List Node → Option (List (List Node) × Node)
  unfolding build_files size top_root
  build_tree_c files cur_nodes leaves = do
    elmts ← size b (cur_nodes / files) true false
    r ← build_files true (cur_nodes / files) elmts files 0 leaves
    root ← top_root poseidon files (r.1)
    some (r.0, root)

  -- `BuildTreeC` from the files of the layers
  unfoldable pub build_from_layers : ℕ → ℕ → List (List Node) → Option (List (List Node) × Node)
  unfolding build_tree_c leaves_of
  build_from_layers files nodes layers = do
    leaves ← leaves_of nodes layers
    build_tree_c files (length layers * nodes) leaves
