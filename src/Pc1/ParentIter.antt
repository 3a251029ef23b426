-- ===== src/Pc1/ParentIter.antt =====
-- `parent_iter_t` of pc1/parent_iter_t.hpp: the walk through the cached graph, 14 parents to a node.
-- `parent_ptr` is the index into `parent_buf` that it points at.
pub mod Walk
use supra_seal.Prelude.{
  ℕ, zero, suc, ◌+◌, ◌-◌, ◌*◌, ◌%◌, ◌^◌, Bool, ◌&&◌, List, get_or, leb, ◌==◌, if◌then◌else◌,
}
use supra_seal.Sealing.NodeId
use supra_seal.Sealing.NodeId.{node_id, increment}

-- sealing/constants.hpp
abbrev pub parent_count_base : ℕ
parent_count_base = 6

abbrev pub parent_count_exp : ℕ
parent_count_exp = 8

abbrev pub parent_count : ℕ
parent_count = parent_count_base + parent_count_exp

abbrev pub parent_size : ℕ
parent_size = 4

pub record ParentIter : Type 0 where
  pub node : ℕ
  pub parent : ℕ
  pub parent_ptr : ℕ

-- the constructor, then `set_buf`
unfoldable pub start : ℕ → ParentIter
start id = record { node = id; parent = 0; parent_ptr = 0 }

-- the size in bytes of the graph of `node_count` nodes
unfoldable pub bytes : ℕ → ℕ
bytes node_count = node_count * parent_count * parent_size

unfoldable pub is_prev_layer : ParentIter → Bool
is_prev_layer it = leb parent_count_base it.parent

module _ (bits : ℕ) where
  -- the end of `operator++`: back to the start of the buffer on the first parent of a layer
  unfoldable pub restart : ParentIter → ParentIter
  restart it =
      if NodeId.node bits it.node == 0 && it.parent == 0 then record it { parent_ptr = 0 } else it

  -- `operator++`; `_parent` is a `uint32_t`
  unfoldable pub step : ParentIter → ParentIter
  unfolding restart
  step it =
      let parent' : ℕ = (it.parent + 1) % 2 ^ 32 in
      restart (
        if parent' == parent_count
        then record { node = increment it.node; parent = 0; parent_ptr = it.parent_ptr + 1 }
        else record { node = it.node; parent = parent'; parent_ptr = it.parent_ptr + 1 })

  -- `operator*`: the id of the parent, in the layer before for the expander parents
  unfoldable pub parent_id : List ℕ → ParentIter → ℕ
  unfolding is_prev_layer
  parent_id parent_buf it =
      let layer : ℕ = NodeId.layer bits it.node in
      node_id bits (if layer == 0 then 0 else if is_prev_layer it then layer - 1 else layer)
        (get_or parent_buf it.parent_ptr 0)
