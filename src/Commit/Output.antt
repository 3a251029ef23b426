-- ===== src/Commit/Output.antt =====
-- The file that the proofs are written to: every write is a `memcpy` to `file_ptr + buf_index`, after
-- which `buf_index` goes up by the number of bytes. An address outside the file is not written.
pub mod Laws
use supra_seal.Prelude.{
  ℕ, zero, suc, ◌+◌, ◌*◌, ◌/◌, ◌%◌, Option, none, some, List, [], ◌∷◌, ◌++◌, length, get_or, set,
  add64, size_mod,
}

-- `node_t` of sealing/constants.hpp, eight `uint32_t`
pub record Node : Type 0 where
  pub limbs : List ℕ

pub record Output : Type 0 where
  pub file : List ℕ
  pub buf_index : ℕ

-- the bytes of an unsigned integer, the lowest first
abbrev pub le_bytes : ℕ → ℕ → List ℕ
le_bytes zero x = []
le_bytes (suc n) x = (x % 256) ∷ le_bytes n (x / 256)

abbrev pub node_bytes : Node → List ℕ
node_bytes n =
    le_bytes 4 (get_or n.limbs 0 0)
    ++ le_bytes 4 (get_or n.limbs 1 0)
    ++ le_bytes 4 (get_or n.limbs 2 0)
    ++ le_bytes 4 (get_or n.limbs 3 0)
    ++ le_bytes 4 (get_or n.limbs 4 0)
    ++ le_bytes 4 (get_or n.limbs 5 0)
    ++ le_bytes 4 (get_or n.limbs 6 0)
    ++ le_bytes 4 (get_or n.limbs 7 0)

-- `memcpy(file + at, bytes)`, byte by byte; an address is a 64-bit word
unfoldable pub put : ℕ → List ℕ → List ℕ → List ℕ
put at [] file = file
put at (b ∷ bytes) file = put (at + 1) bytes (set file (at % size_mod) b)

-- a copy, and the step of the index
unfoldable pub emit : List ℕ → Output → Output
emit bytes o = record {
  file = put o.buf_index bytes o.file;
  buf_index = add64 o.buf_index (length bytes);
}

-- `memcpy` of a node through a pointer; `none` is a read through no node
unfoldable pub emit_node : Option Node → Output → Option Output
unfolding emit
emit_node none o = none
emit_node (some n) o = some (emit (node_bytes n) o)
