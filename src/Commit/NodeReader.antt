-- ===== src/Commit/NodeReader.antt =====
-- `streaming_node_reader_t` of c1/streaming_node_reader_files.hpp, what c1 uses of it: nodes are read
-- from the layer files, which are mapped into memory. `nodes_per_page` is `C::NODES_PER_PAGE`.
use supra_seal.Prelude.{
  ℕ, ◌*◌, ◌/◌, ◌%◌, Option, none, some, Bool, true, false, List, get_elem?, get_or, [], size_mod,
  add64, sub64, if◌then◌else◌,
}
use supra_seal.Commit.Output.{Node}

abbrev pub page_size : ℕ
page_size = 4096

-- the buffer is present or not, its nodes uninitialised
pub record Reader : Type 0 where
  pub layer_files : List (List Node)
  pub packed : Bool
  pub num_slots : ℕ
  pub pages_per_slot : ℕ
  pub has_buffer : Bool

module _ (nodes_per_page : ℕ) where
  unfoldable pub alloc_slots : ℕ → ℕ → Bool → Reader → Reader
  alloc_slots num_slots slot_node_count packed r =
      if packed
      then record r {
        packed = packed;
        pages_per_slot = sub64 (add64 slot_node_count nodes_per_page) 1 / nodes_per_page;
        num_slots = num_slots;
        has_buffer = true;
      }
      else record r { packed = packed }

  -- the index of the first node of a slot
  unfoldable pub get_slot : ℕ → Reader → ℕ
  get_slot slot r = slot * r.pages_per_slot * nodes_per_page % size_mod

-- the size of the buffer in bytes
unfoldable pub get_full_buffer : Reader → ℕ
get_full_buffer r = r.num_slots * r.pages_per_slot * page_size % size_mod

unfoldable pub free_slots : Reader → Reader
free_slots r = record r { has_buffer = false }

-- the assertion, and 0
unfoldable pub load_nodes : List (ℕ × ℕ) → Reader → Option ℕ
load_nodes nodes r = if r.packed then none else some 0

-- `layer_files[layer][node]` of the `idx`-th pair
unfoldable pub get_node : List (ℕ × ℕ) → ℕ → Reader → Option Node
get_node nodes idx r = if r.packed then none else elim (get_elem? nodes idx) [
  | none ↦ none
  | some (layer, node) ↦ get_elem? (get_or r.layer_files layer []) node
]
