-- ===== src/Sealing/NodeId.antt =====
-- `node_id_t` of sealing/data_structures.hpp: a layer and a node of it in one 64-bit word. `bits` is
-- `C::GetNodeBits()`. An id is the number `_id`.
pub mod Fields
use supra_seal.Prelude.{
  ℕ, ◌+◌, ◌-◌, ◌*◌, ◌/◌, ◌%◌, ◌^◌, Bool, ltb, bit_and, bit_or, shl, shr, add64, sub64, size_mod,
}

module _ (bits : ℕ) where
  -- `(1UL << node_bits_) - 1` of sealing/sector_parameters.hpp
  abbrev pub node_mask : ℕ
  node_mask = 2 ^ bits - 1

  unfoldable pub node_id : ℕ → ℕ → ℕ
  node_id layer node = bit_or (shl layer bits % size_mod) node

  -- Both accessors return a `uint32_t`.
  unfoldable pub node : ℕ → ℕ
  node id = bit_and id node_mask % 2 ^ 32

  unfoldable pub layer : ℕ → ℕ
  layer id = shr id bits % 2 ^ 32

unfoldable pub less : ℕ → ℕ → Bool
less a b = ltb a b

unfoldable pub increment : ℕ → ℕ
increment id = add64 id 1

unfoldable pub decrement : ℕ → ℕ
decrement id = sub64 id 1

unfoldable pub add_to : ℕ → ℕ → ℕ
add_to x id = add64 id x
