-- ===== src/Pc1/TreeD.antt =====
-- `TreeD` of pc1/tree_d.hpp: the tree over the data of a sector, and the tree of a sector with no data.
-- The file of the tree is the region `output`, that of the data `input`. A new file is a list of zero
-- nodes. SHA-256 is a parameter, a function of the two nodes that `HashNode` reads; the halving of a
-- row, `cur_nodes >>= arity_lg`, is the shift of Commit/TreeProof. A failure of a loop to end on its fuel and an
-- access outside a file are `none`.
pub mod Build
pub mod Proof
pub mod Fill
pub mod Empty
use supra_seal.Prelude.{
  ℕ, zero, suc, ◌+◌, ◌-◌, ◌*◌, Option, none, some, List, [], ◌∷◌, ◌++◌, length, get_elem?, set,
  take, drop, replicate, ltb, leb, Bool, sub64, if◌then◌else◌, ◌>>=◌,
}
use supra_seal.Commit.Output.{Node}
use supra_seal.Commit.TreeProof.{log2, shift}
use supra_seal.Pc1.Rows.{
  Region, input, output, scratch, Memory, Ptr, start, plus, read, write, hash_row,
}

abbrev pub arity : ℕ
arity = 2

abbrev pub zero_node : Node
zero_node = record { limbs = replicate 8 0 }

-- a data file and a new file of `nodes` nodes
abbrev pub files : List Node → ℕ → Memory
files contents nodes input = contents
files contents nodes output = replicate nodes zero_node
files contents nodes scratch = []

-- `memcpy` of `n` nodes from the start of the data to the start of the tree
unfoldable pub copy_data : ℕ → Memory → Option Memory
copy_data n m =
    if leb n (length (m input))
    then if leb n (length (m output))
      then some (λ r. elim r [
        | input ↦ m input
        | output ↦ take n (m input) ++ drop n (m output)
        | scratch ↦ m scratch
      ])
      else none
    else none

module _ (hash : List Node → Node) where
  -- `while (cur_nodes > 1)`; the result is `*in_ptr` after the loop
  unfoldable pub levels_loop : ℕ → ℕ → Ptr → Ptr → Memory → Option (Memory × Node)
  unfolding hash_row shift log2
  levels_loop zero cur_nodes in_ptr tree_ptr m = none
  levels_loop (suc fuel) cur_nodes in_ptr tree_ptr m =
      let next : Option (Memory × Node) =
        hash_row hash arity cur_nodes cur_nodes in_ptr tree_ptr m >>= λ r.
        levels_loop fuel (shift cur_nodes (log2 arity)) tree_ptr (r.1) (r.0) in
      if ltb 1 cur_nodes then next else (read m in_ptr >>= λ root. some (m, root))

  -- `BuildTree`: the data, the nodes of a sector, and whether to copy; the file and the root
  unfoldable pub build_tree : List Node → ℕ → Bool → Option (List Node × Node)
  unfolding levels_loop copy_data
  build_tree contents cur_nodes copy =
      let copied : Option (Memory × Node) =
        copy_data cur_nodes (files contents (sub64 cur_nodes 1 + cur_nodes)) >>= λ m.
        levels_loop 65 cur_nodes (start output) (plus (start output) cur_nodes) m in
      let fresh : Option (Memory × Node) =
        levels_loop 65 cur_nodes (start input) (start output)
          (files contents (sub64 cur_nodes 1)) in
      (if copy then copied else fresh) >>= λ r. some (r.0 output, r.1)

  -- the table of `BuildCCTree`: `n` values from the `i`-th on, and the two nodes that are hashed
  unfoldable pub cc_table : ℕ → ℕ → Node → Node → List Node → List Node
  cc_table zero i first second cc = cc
  cc_table (suc n) i first second cc =
      let v : Node = hash (first ∷ second ∷ []) in cc_table n (suc i) v v (set cc i v)

-- `n` copies of `cc[cur_level]`, and the pointer after them
unfoldable pub fill_row : ℕ → Option Node → Ptr → Memory → Option (Memory × Ptr)
unfolding write
fill_row zero value tree_ptr m = some (m, tree_ptr)
fill_row (suc n) value tree_ptr m = do
  v ← value
  m' ← write m tree_ptr v
  fill_row n value (plus tree_ptr 1) m'

-- `while (cur_nodes > 0)`
unfoldable pub fill_loop : ℕ → List Node → ℕ → ℕ → Ptr → Memory → Option Memory
unfolding fill_row shift log2
fill_loop zero cc cur_nodes cur_level tree_ptr m = none
fill_loop (suc fuel) cc cur_nodes cur_level tree_ptr m =
    let next : Option Memory = fill_row cur_nodes (get_elem? cc cur_level) tree_ptr m >>= λ r.
    fill_loop fuel cc (shift cur_nodes (log2 arity)) (suc cur_level) (r.1) (r.0) in
    if ltb 0 cur_nodes then next else some m

-- `BuildCCTree`: the levels and the nodes of a sector; the file and the root
unfoldable pub build_cc_tree : (List Node → Node) → ℕ → ℕ → Option (List Node × Node)
unfolding cc_table fill_loop
build_cc_tree hash levels cur_nodes =
    let cc : List Node =
      cc_table hash levels 1 zero_node zero_node (replicate (levels + 1) zero_node) in
    do
      m ← fill_loop 65 cc cur_nodes 0 (start output) (files [] (sub64 (2 * cur_nodes) 1))
      root ← get_elem? cc levels
      some (m output, root)
