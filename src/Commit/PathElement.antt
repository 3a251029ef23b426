-- ===== src/Commit/PathElement.antt =====
-- `PathElement` of c1/path_element.hpp: the place of a node among its siblings, and the siblings. A
-- pointer to a hash is an `Option`: `none` is null, or a place outside its buffer.
pub mod Encode
use supra_seal.Prelude.{
  ℕ, zero, suc, ◌+◌, ◌-◌, Option, none, some, List, [], ◌∷◌, ◌++◌, length, get_or, set, replicate,
  sub64,
}
use supra_seal.Commit.Output.{Node, Output, le_bytes, emit, emit_node}

pub record PathElement : Type 0 where
  pub arity : ℕ
  pub index : ℕ
  pub hashes : List (Option Node)

unfoldable pub construct : ℕ → ℕ → PathElement
construct arity index = record {
  arity = arity;
  index = index;
  hashes = replicate (sub64 arity 1) none;
}

unfoldable pub set_hash : ℕ → Option Node → PathElement → PathElement
set_hash index hash e = record e { hashes = set e.hashes index hash }

-- the loop over the hashes, `n` of them from the `i`-th on
unfoldable pub write_hashes : ℕ → ℕ → List (Option Node) → Output → Option Output
write_hashes zero i hashes o = some o
write_hashes (suc n) i hashes o = elim (emit_node (get_or hashes i none) o) [
  | none ↦ none
  | some u ↦ write_hashes n (suc i) hashes u
]

-- `none` is a read through a pointer to no node.
unfoldable pub write : PathElement → Output → Option Output
write e o =
    let len : ℕ = sub64 e.arity 1 in
    elim (write_hashes len 0 e.hashes (emit (le_bytes 8 len) o)) [
      | none ↦ none
      | some u ↦ some (emit (le_bytes 8 e.index) u)
    ]
