-- ===== src/Commit/LabelProof.antt =====
-- `LabelProof` of c1/label_proof.hpp: the parents of a label, layer by layer, and the constants of
-- sealing/constants.hpp that say how often they are hashed. `labels` is the buffer behind `labels_`.
pub mod Layout
pub mod Bytes
use supra_seal.Prelude.{
  ℕ, zero, suc, ◌+◌, ◌-◌, ◌*◌, Bool, true, false, not, ◌&&◌, ◌||◌, Option, none, some, List,
  get_elem?, ltb, leb, ◌^◌, ◌==◌, if◌then◌else◌, sub64, size_mod, ◌%◌,
}
use supra_seal.Pc1.ParentIter.{parent_count_base, parent_count_exp, parent_count}
use supra_seal.Commit.Output.{Node, Output, le_bytes, emit, emit_node}

abbrev pub label_parents : ℕ
label_parents = 37

abbrev pub layer_one_repeat_seq : ℕ
layer_one_repeat_seq = 6

abbrev pub layer_one_final_seq : ℕ
layer_one_final_seq = label_parents % (layer_one_repeat_seq * parent_count_base)

abbrev pub layer_n_repeat_seq : ℕ
layer_n_repeat_seq = 2

abbrev pub layer_n_final_seq : ℕ
layer_n_final_seq = label_parents % (layer_n_repeat_seq * parent_count)

pub record LabelProof : Type 0 where
  pub challenge : ℕ
  pub layers : ℕ
  pub labels : List Node
  pub label_inc : ℕ

unfoldable pub proof_size : ℕ → Bool → ℕ
proof_size layers enc =
    let first : Bool = not enc || layers == 1 in
    let vector : ℕ = if enc then 0 else layers * 8 in
    let one : ℕ =
      if first
      then vector + 32 * layer_one_repeat_seq * parent_count_base + 32 * layer_one_final_seq + 4 + 8
      else 0 in
    let left : ℕ = if first then sub64 layers 1 else layers in
    let n : ℕ = if enc && ltb 1 left then 1 else left in
    (8
      + one
      + n * 32 * layer_n_repeat_seq * parent_count_base
      + n * 32 * layer_n_repeat_seq * parent_count_exp
      + n * 32 * layer_n_final_seq
      + n * 4
      + n * 8)
    % size_mod

-- `labels_ + c + 1 + (l * label_inc_)`, read
unfoldable pub label_at : LabelProof → ℕ → ℕ → Option Node
label_at p l c = get_elem? p.labels (c + 1 + l * p.label_inc)

-- a loop over `c`: `n` labels, the first the `c`-th
unfoldable pub write_labels : (ℕ → Option Node) → ℕ → ℕ → Output → Option Output
write_labels label zero c o = some o
write_labels label (suc n) c o = elim (emit_node (label c) o) [
  | none ↦ none
  | some u ↦ write_labels label n (suc c) u
]

-- the loop over `k` of the first layer
unfoldable pub repeat_one : ℕ → LabelProof → Output → Option Output
unfolding write_labels label_at
repeat_one zero p o = some o
repeat_one (suc k) p o = elim (write_labels (label_at p 0) parent_count_base 0 o) [
  | none ↦ none
  | some u ↦ repeat_one k p u
]

-- the body of `while` when `l` is 1
unfoldable pub write_one : LabelProof → Output → Option Output
unfolding repeat_one write_labels label_at
write_one p o = elim (repeat_one layer_one_repeat_seq p o) [
  | none ↦ none
  | some u ↦ write_labels (label_at p 0) layer_one_final_seq 0 u
]

-- the loop over `k` of a later layer
unfoldable pub repeat_n : ℕ → ℕ → LabelProof → Output → Option Output
unfolding write_labels label_at
repeat_n zero l p o = some o
repeat_n (suc k) l p o = elim (write_labels (label_at p (l - 1)) parent_count_base 0 o) [
  | none ↦ none
  | some u ↦
      elim (write_labels (λ c. label_at p (l - 2) (c + parent_count_base)) parent_count_exp 0 u) [
        | none ↦ none
        | some v ↦ repeat_n k l p v
      ]
]

-- the body of `while` when `l` is more than 1
unfoldable pub write_n : ℕ → LabelProof → Output → Option Output
unfolding repeat_n write_labels label_at
write_n l p o = elim (repeat_n layer_n_repeat_seq l p o) [
  | none ↦ none
  | some u ↦
      write_labels
        (λ c. if ltb c parent_count_base then label_at p (l - 1) c else label_at p (l - 2) c)
        layer_n_final_seq 0 u
]

-- the `while` loop, from layer `l` on, a `uint32_t`; `none` is out of fuel, or a read out of the buffer
unfoldable pub write_layers : ℕ → ℕ → LabelProof → Output → Option Output
unfolding write_one write_n emit
write_layers zero l p o = none
write_layers (suc fuel) l p o =
    let u : Output = emit (le_bytes 8 label_parents) o in
    if leb l p.layers
    then elim (if l == 1 then write_one p u else write_n l p u) [
      | none ↦ none
      | some v ↦
          write_layers fuel ((l + 1) % 2 ^ 32) p
            (emit (le_bytes 8 p.challenge) (emit (le_bytes 4 l) v))
    ]
    else some o

-- `enc` asks for the last layer only. The loop has fuel for each layer, and to see that it is over; it
-- needs more only when `l` wraps, and then it never ends.
unfoldable pub write_proof : Bool → LabelProof → Output → Option Output
unfolding write_layers emit
write_proof true p o = write_layers (suc (suc p.layers)) (p.layers % 2 ^ 32) p o
write_proof false p o = write_layers (suc (suc p.layers)) 1 p (emit (le_bytes 8 p.layers) o)
