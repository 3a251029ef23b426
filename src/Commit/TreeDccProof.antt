-- ===== src/Commit/TreeDccProof.antt =====
-- `TreeDCCProof` of c1/tree_proof.hpp: the inclusion path in the tree of a sector with no data, where
-- the nodes of a row are all equal.
pub mod Table
pub mod Climb
use supra_seal.Prelude.{
  ℕ, zero, suc, Option, none, some, List, [], ◌∷◌, ◌++◌, get_elem?, get_or, leb, if◌then◌else◌,
}
use supra_seal.Commit.Output.{Node}
use supra_seal.Commit.PathElement.{PathElement, construct, set_hash}
use supra_seal.Commit.TreeDccProof.Table.{cc_tree_d_node_values}
use supra_seal.Commit.TreeProof.{TreeProof, create, set_root, set_leaf, modify, get_tree_paths}

-- `none` is the failed assertion on the levels
unfoldable pub create_cc : ℕ → ℕ → Option TreeProof
unfolding create set_root set_leaf
create_cc arity levels =
    if leb levels 31
    then some (
        set_leaf (get_elem? cc_tree_d_node_values 0)
          (set_root (get_elem? cc_tree_d_node_values levels) (create arity levels [] 0 0)))
    else none

-- the loop over the levels, `n` of them from level `l` on
unfoldable pub cc_loop : List ℕ → List Node → ℕ → ℕ → TreeProof → TreeProof
unfolding modify set_hash construct
cc_loop indices first_level zero l t = t
cc_loop indices first_level (suc n) l t = cc_loop indices first_level n (suc l) (record t {
  path =
      modify l (set_hash 0 (get_elem? first_level l))
        (t.path ++ (construct t.arity (get_or indices l 0) ∷ []));
})

-- `TreeDCCProof::GenInclusionPath`
unfoldable pub gen_cc_path : ℕ → List Node → TreeProof → TreeProof
unfolding get_tree_paths cc_loop
gen_cc_path challenge first_level t = cc_loop (get_tree_paths t challenge) first_level t.levels 0 t
