-- ===== src/Commit/ColumnProof/Layout.antt =====
-- The bytes of a column proof, for both kinds of tree proof, and their number.
use mathlib.Core.List.{append-nil}
use supra_seal.Prelude.{
  ℕ, ◌+◌, ◌*◌, ◌%◌, ◌<◌, ◌≡◌, sym, ◌∙◌, ap, ap₂, arith, List, [], ◌∷◌, ◌++◌, none, some, length,
  get_or, size_mod, goes_on, length-append,
}
use supra_seal.Commit.Output.{Node, Output, le_bytes, emit}
use supra_seal.Commit.Output.Laws.{emit-append}
use supra_seal.Commit.PathElement.Encode.{Opening, nodes_bytes, length-nodes_bytes}
use supra_seal.Commit.TreeProof
use supra_seal.Commit.TreeProof.{TreeProof}
use supra_seal.Commit.TreeProof.Tree.{from}
use supra_seal.Commit.TreeProof.Encode.{Ready, single_bytes, sub_bytes, write-single, write-sub}
use supra_seal.Commit.LabelProof.{write_labels}
use supra_seal.Commit.LabelProof.Layout.{write_labels_lem, get_elem?-get_or}
use supra_seal.Commit.LabelProof.Bytes.{length-from}
use supra_seal.Commit.ColumnProof.{Params, ColumnProof, column_label, column_size, write_column}

-- the column's label in layer `l`
abbrev pub label_of : ColumnProof → ℕ → Node
label_of c l = get_or c.labels (c.label_idx + l * c.label_inc) (record { limbs = [] })

-- the layout of a column proof around the bytes of its tree proof
abbrev pub column_bytes : ColumnProof → List ℕ → List ℕ
column_bytes c tree =
    le_bytes 4 c.challenge
    ++ le_bytes 8 c.layers
    ++ nodes_bytes (from (label_of c) 0 c.layers)
    ++ tree

-- The column is of the sector's shape, and its labels are all in the buffer.
pub record Fits (params : Params) (c : ColumnProof) : Type 0 where
  pub all_layers : c.layers ≡ params.num_layers
  pub same_arity : c.tree.arity ≡ params.tree_rc_arity
  pub same_levels : c.tree.levels ≡ params.tree_rc_levels
  pub in_buffer : (l : ℕ) → l < c.layers → c.label_idx + l * c.label_inc < length c.labels

column_run :
    (proof_type : ℕ) (c : ColumnProof) (tree : List ℕ) (o : Output)
    → ((l : ℕ) → l < c.layers → c.label_idx + l * c.label_inc < length c.labels)
    → ((u : Output) → TreeProof.write_proof proof_type c.tree u ≡ some (emit tree u))
    → write_column proof_type c o ≡ some (emit (column_bytes c tree) o)
unfolding write_column column_label
column_run proof_type c tree o here writes =
    let head : List ℕ = le_bytes 4 c.challenge in
    let pre : List ℕ = head ++ le_bytes 8 c.layers in
    let labels : List Node = from (label_of c) 0 c.layers in
    let start : emit (le_bytes 8 c.layers) (emit head o) ≡ emit (pre ++ []) o =
      emit-append head (le_bytes 8 c.layers) o ∙ ap (λ b. emit b o) (sym (append-nil pre)) in
    ap
      (λ u. elim (write_labels (column_label c) c.layers 0 u) [
        | none ↦ none
        | some v ↦ TreeProof.write_proof proof_type c.tree v
      ])
      start
    ∙ goes_on (write_labels (column_label c) c.layers 0 (emit (pre ++ []) o))
        (emit (pre ++ nodes_bytes labels) o) (TreeProof.write_proof proof_type c.tree)
        (write_labels_lem (column_label c) (label_of c) c.layers 0 [] pre o (λ i a b.
          get_elem?-get_or c.labels (c.label_idx + i * c.label_inc) (record { limbs = [] })
            (here i (omega arith))))
    ∙ writes (emit (pre ++ nodes_bytes labels) o)
    ∙ ap some (emit-append (pre ++ nodes_bytes labels) tree o)

column_length :
    (c : ColumnProof) (tree : List ℕ)
    → length (column_bytes c tree) ≡ 12 + 32 * c.layers + length tree
column_length c tree =
    let head : List ℕ = le_bytes 4 c.challenge ++ le_bytes 8 c.layers in
    let labels : List Node = from (label_of c) 0 c.layers in
    omega (
      arith,
      length-append (head ++ nodes_bytes labels) tree,
      length-append head (nodes_bytes labels),
      length-nodes_bytes labels,
      length-from (label_of c) 0 c.layers,
    )

size_lem :
    (params : Params) (c : ColumnProof) (tree : List ℕ)
    → Fits params c
    → length tree % size_mod ≡ TreeProof.proof_size c.tree.arity c.tree.levels params.tree_rc_config
    → length (column_bytes c tree) % size_mod ≡ column_size params
unfolding column_size
size_lem params c tree fits h =
    let s : TreeProof.proof_size c.tree.arity c.tree.levels params.tree_rc_config
        ≡ TreeProof.proof_size params.tree_rc_arity params.tree_rc_levels params.tree_rc_config =
      ap₂ (λ a l. TreeProof.proof_size a l params.tree_rc_config) fits.same_arity
        fits.same_levels in
    omega (arith, column_length c tree, h, s, fits.all_layers)

-- With the labels in the buffer and a tree proof of type 0 with a root, a leaf and a complete path, of
-- the sector's shape, `ColumnProof::WriteProof` writes the challenge, the number of layers, the labels
-- layer by layer and the tree proof in one piece, of `ProofSize` bytes, counted modulo 2^64.
pub column-single :
    (params : Params) (c : ColumnProof) (r l : Node) (ps : List Opening) (o : Output)
    → Fits params c
    → params.tree_rc_config ≡ 0
    → Ready c.tree r l ps
    → (write_column 0 c o ≡ some (emit (column_bytes c (single_bytes r l ps)) o))
      × (length (column_bytes c (single_bytes r l ps)) % size_mod ≡ column_size params)
column-single params c r l ps o fits config ready = (
  column_run 0 c (single_bytes r l ps) o fits.in_buffer
      (λ u. (write-single c.tree r l ps u ready).0),
  size_lem params c (single_bytes r l ps) fits (
      (write-single c.tree r l ps o ready).1
      ∙ ap (TreeProof.proof_size c.tree.arity c.tree.levels) (sym config)),
)

-- With the labels in the buffer and a tree proof of type 1 with a root, a leaf and a complete path of
-- at least one level, of the sector's shape, `ColumnProof::WriteProof` writes the challenge, the number
-- of layers, the labels layer by layer and the tree proof in one piece, of `ProofSize` bytes, counted
-- modulo 2^64.
pub column-sub :
    (params : Params) (c : ColumnProof) (r l : Node) (base : List Opening) (last : Opening)
    (o : Output)
    → Fits params c
    → params.tree_rc_config ≡ 1
    → Ready c.tree r l (base ++ (last ∷ []))
    → c.tree.levels < size_mod
    → (write_column 1 c o ≡ some (emit (column_bytes c (sub_bytes r l base last)) o))
      × (length (column_bytes c (sub_bytes r l base last)) % size_mod ≡ column_size params)
column-sub params c r l base last o fits config ready small = (
  column_run 1 c (sub_bytes r l base last) o fits.in_buffer
      (λ u. (write-sub c.tree r l base last u ready small).0),
  size_lem params c (sub_bytes r l base last) fits (
      (write-sub c.tree r l base last o ready small).1
      ∙ ap (TreeProof.proof_size c.tree.arity c.tree.levels) (sym config)),
)
