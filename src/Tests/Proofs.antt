-- ===== src/Tests/Proofs.antt =====
-- The bytes of the proofs of c1.
use supra_seal.Prelude.{ℕ, ◌%◌, ◌≡◌, refl, arith, true, some, [], ◌∷◌, length, replicate, size_mod}
use supra_seal.Commit.Output.{Node, Output, emit}
use supra_seal.Commit.PathElement.Encode.{Opening, opened}
use supra_seal.Commit.TreeProof.{TreeProof, write_proof, proof_size}
use supra_seal.Commit.TreeProof.Encode.{Ready, single_bytes, sub_bytes, write-single, write-sub}
use supra_seal.Commit.LabelProof
use supra_seal.Commit.LabelProof.{LabelProof}
use supra_seal.Commit.LabelProof.Layout.{Present}
use supra_seal.Commit.LabelProof.Bytes.{proof_bytes, write_proof_lem}

abbrev pub node_of : ℕ → Node
node_of x = record { limbs = x ∷ 0 ∷ 0 ∷ 0 ∷ 0 ∷ 0 ∷ 0 ∷ 0 ∷ [] }

abbrev pub output : Output
output = record { file = replicate 8 0; buf_index = 2 }

abbrev pub lower : Opening
lower = record { index = 1; nodes = node_of 5 ∷ [] }

abbrev pub upper : Opening
upper = record { index = 0; nodes = node_of 6 ∷ [] }

abbrev pub tree : TreeProof
tree = record {
  arity = 2;
  levels = 2;
  tree_bufs = [];
  tree_bufs_len = 1;
  discard_rows = 0;
  root = some (node_of 7);
  leaf = some (node_of 4);
  path =
      record { arity = 2; index = 1; hashes = some (node_of 5) ∷ [] }
      ∷ record { arity = 2; index = 0; hashes = some (node_of 6) ∷ [] }
      ∷ [];
}

pub tree-Ready : Ready tree (node_of 7) (node_of 4) (lower ∷ upper ∷ [])
unfolding opened
tree-Ready = record {
  root_is = refl;
  leaf_is = refl;
  path_is = refl;
  all_levels = refl;
  all_full = (refl, (refl, tt));
}

write-single_example :
    (write_proof 0 tree output
      ≡ some (emit (single_bytes (node_of 7) (node_of 4) (lower ∷ upper ∷ [])) output))
    × (length (single_bytes (node_of 7) (node_of 4) (lower ∷ upper ∷ [])) % size_mod
        ≡ proof_size 2 2 0)
write-single_example =
    write-single tree (node_of 7) (node_of 4) (lower ∷ upper ∷ []) output tree-Ready

write-sub_example :
    (write_proof 1 tree output
      ≡ some (emit (sub_bytes (node_of 7) (node_of 4) (lower ∷ []) upper) output))
    × (length (sub_bytes (node_of 7) (node_of 4) (lower ∷ []) upper) % size_mod ≡ proof_size 2 2 1)
write-sub_example =
    write-sub tree (node_of 7) (node_of 4) (lower ∷ []) upper output tree-Ready (omega arith)

abbrev labels : LabelProof
labels = record { challenge = 12; layers = 2; labels = replicate 30 (node_of 3); label_inc = 15 }

labels-Present : Present labels
labels-Present = record { in_buffer = λ l c h q. omega arith }

write_proof_lem_example :
    (LabelProof.write_proof true labels output ≡ some (emit (proof_bytes true labels) output))
    × (length (proof_bytes true labels) ≡ LabelProof.proof_size 2 true)
write_proof_lem_example =
    write_proof_lem true labels output labels-Present (omega arith) (omega arith) (omega arith)
