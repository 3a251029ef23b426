-- ===== src/Tests/Columns.antt =====
-- Column proofs over the trees of the tests of paths and the proofs of the tests of proofs.
use supra_seal.Prelude.{
  ◌%◌, ◌≡◌, refl, arith, some, ℕ, ◌+◌, ◌*◌, ◌/◌, ◌^◌, get_elem?, [], ◌∷◌, length, replicate,
  size_mod,
}
use supra_seal.Commit.Output.{emit}
use supra_seal.Commit.TreeProof.Tree.{climb, from, parent, top_of}
use supra_seal.Commit.TreeProof.{node_at}
use supra_seal.Commit.TreeProof.Encode.{single_bytes, sub_bytes}
use supra_seal.Commit.ColumnProof.{
  Params, ColumnProof, column, column_label, column_size, write_column,
}
use supra_seal.Commit.ColumnProof.Layout.{Fits, column_bytes, column-single, column-sub}
use supra_seal.Commit.ColumnProof.Climb.{SplitShape, climb-column}
use supra_seal.Tests.Paths.{hash_of, file, files, files-IsTree, two_files_top}
use supra_seal.Tests.Paths
use supra_seal.Tests.Proofs.{node_of, output, lower, upper, tree, tree-Ready}

abbrev params_single : Params
params_single = record {
  num_layers = 2;
  tree_rc_arity = 2;
  tree_rc_levels = 2;
  tree_rc_files = 2;
  tree_rc_config = 0;
}

abbrev params_sub : Params
params_sub = record {
  num_layers = 2;
  tree_rc_arity = 2;
  tree_rc_levels = 2;
  tree_rc_files = 2;
  tree_rc_config = 1;
}

abbrev nodes_column : ColumnProof
nodes_column = record {
  challenge = 3;
  layers = 2;
  labels = replicate 30 (node_of 3);
  label_idx = 1;
  label_inc = 15;
  tree = tree;
}

column-Fits : Fits params_single nodes_column
column-Fits = record {
  all_layers = refl;
  same_arity = refl;
  same_levels = refl;
  in_buffer = λ l h. omega arith;
}

column-Fits_sub : Fits params_sub nodes_column
column-Fits_sub = record {
  all_layers = refl;
  same_arity = refl;
  same_levels = refl;
  in_buffer = λ l h. omega arith;
}

column-single_example :
    (write_column 0 nodes_column output
      ≡ some (
          emit
            (column_bytes nodes_column (single_bytes (node_of 7) (node_of 4) (lower ∷ upper ∷ [])))
            output))
    × (length
            (column_bytes nodes_column (single_bytes (node_of 7) (node_of 4) (lower ∷ upper ∷ [])))
          % size_mod
        ≡ column_size params_single)
column-single_example =
    column-single params_single nodes_column (node_of 7) (node_of 4) (lower ∷ upper ∷ []) output
      column-Fits refl tree-Ready

column-sub_example :
    (write_column 1 nodes_column output
      ≡ some (
          emit
            (column_bytes nodes_column (sub_bytes (node_of 7) (node_of 4) (lower ∷ []) upper))
            output))
    × (length (column_bytes nodes_column (sub_bytes (node_of 7) (node_of 4) (lower ∷ []) upper))
          % size_mod
        ≡ column_size params_sub)
column-sub_example =
    column-sub params_sub nodes_column (node_of 7) (node_of 4) (lower ∷ []) upper output
      column-Fits_sub refl tree-Ready (omega arith)

shape : SplitShape params_single 1 1
shape = record {
  arity_pow = refl;
  arity_big = omega arith;
  leaves_small = omega arith;
  file_each = refl;
  one_above = refl;
  some_below = omega arith;
  top_fits = two_files_top;
}

tops_root :
    some (Paths.node_of 97) ≡ parent hash_of (from (λ a. node_at files a (top_of 2 0 1)) 0 2)
unfolding parent node_at top_of
tops_root = refl

climb-column_example :
    let c : ColumnProof = column params_single 3 file 1 2 files (some (Paths.node_of 97)) in
    (c.tree.root ≡ some (Paths.node_of 97))
    × (c.tree.leaf ≡ node_at files (3 / 2 ^ (1 * 1)) (3 % 2 ^ (1 * 1)))
    × ((l : ℕ) → column_label c l ≡ get_elem? file (1 + l * 2))
    × (climb hash_of c.tree.path c.tree.leaf ≡ some (Paths.node_of 97))
climb-column_example =
    climb-column hash_of params_single 1 1 3 file 1 2 files (some (Paths.node_of 97)) shape
      (omega arith) files-IsTree tops_root
