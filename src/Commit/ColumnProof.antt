-- ===== src/Commit/ColumnProof.antt =====
-- `ColumnProof` of c1/column_proof.hpp: the labels of a node in every layer, and the inclusion path of
-- their hash in tree C.
pub mod Layout
pub mod Climb
use supra_seal.Prelude.{ℕ, ◌+◌, ◌*◌, ◌%◌, Option, none, some, List, get_elem?, size_mod}
use supra_seal.Commit.Output.{Node, Output, le_bytes, emit}
use supra_seal.Commit.TreeProof
use supra_seal.Commit.TreeProof.{TreeProof, set_root, gen_inclusion_path}
use supra_seal.Commit.LabelProof.{write_labels}

-- the sector parameters that the class reads, a template argument
pub record Params : Type 0 where
  pub num_layers : ℕ
  pub tree_rc_arity : ℕ
  pub tree_rc_levels : ℕ
  pub tree_rc_files : ℕ
  pub tree_rc_config : ℕ

pub record ColumnProof : Type 0 where
  pub challenge : ℕ
  pub layers : ℕ
  pub labels : List Node
  pub label_idx : ℕ
  pub label_inc : ℕ
  pub tree : TreeProof

-- `ColumnProof::ColumnProof`
unfoldable pub column :
    Params → ℕ → List Node → ℕ → ℕ → List (List Node) → Option Node → ColumnProof
unfolding TreeProof.create set_root gen_inclusion_path
column params challenge labels label_idx label_inc tree_bufs root = record {
  challenge = challenge;
  layers = params.num_layers;
  labels = labels;
  label_idx = label_idx;
  label_inc = label_inc;
  tree = gen_inclusion_path challenge (
      set_root root (
        TreeProof.create params.tree_rc_arity params.tree_rc_levels tree_bufs params.tree_rc_files
          0));
}

unfoldable pub column_size : Params → ℕ
unfolding TreeProof.proof_size
column_size params =
    (4
      + 8
      + 32 * params.num_layers
      + TreeProof.proof_size params.tree_rc_arity params.tree_rc_levels params.tree_rc_config)
    % size_mod

-- `labels_ + label_idx_ + (l * label_inc_)`, read
unfoldable pub column_label : ColumnProof → ℕ → Option Node
column_label c l = get_elem? c.labels (c.label_idx + l * c.label_inc)

-- `ColumnProof::WriteProof`
unfoldable pub write_column : ℕ → ColumnProof → Output → Option Output
unfolding emit write_labels column_label TreeProof.write_proof
write_column proof_type c o =
    let u : Output = emit (le_bytes 8 c.layers) (emit (le_bytes 4 c.challenge) o) in
    elim (write_labels (column_label c) c.layers 0 u) [
      | none ↦ none
      | some v ↦ TreeProof.write_proof proof_type c.tree v
    ]
