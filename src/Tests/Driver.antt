-- ===== src/Tests/Driver.antt =====
-- The challenges of a small sector, and the labels that are read for one.
use supra_seal.Prelude.{
  ℕ, zero, suc, ◌+◌, ◌-◌, ◌*◌, ◌%◌, ◌^◌, ◌<◌, ◌≤◌, ◌≡◌, refl, ap, ◌∙◌, arith, none, some, true,
  false, List, [], ◌∷◌, get_elem?, get_or, replicate, length,
}
use supra_seal.Sealing.SectorParameters.{Sector}
use supra_seal.Commit.Output.{Node}
use supra_seal.Commit.TreeProof.Tree.{from}
use supra_seal.Commit.LabelProof.{label_at}
use supra_seal.Commit.ColumnProof.{Params, column_label}
use supra_seal.Commit.NodeReader.{Reader}
use supra_seal.Commit.Challenge.{Challenge, get_nodes, column_of, label_proof_of}
use supra_seal.Commit.Challenge.Labels.{ids, get_elem?-from, labels_read}
use supra_seal.Commit.Driver.{C1, derive_challenges}
use supra_seal.Commit.Driver.Challenges.{block_bytes, derived_lem}
use supra_seal.Tests.Paths.{node_of}

abbrev small_sector : Sector
small_sector = record {
  node_bits = 6;
  num_challenges = 6;
  num_partitions = 2;
  num_layers = 2;
  num_leaves = 64;
  tree_d_levels = 6;
  tree_rc_config = 0;
  tree_rc_base_arity = 8;
  tree_rc_sub_arity = 0;
  tree_rc_top_arity = 0;
  tree_r_discard_rows = 1;
  tree_rc_files = 1;
  tree_r_labels = 64;
}

abbrev small_params : Params
small_params = record {
  num_layers = 2;
  tree_rc_arity = 8;
  tree_rc_levels = 2;
  tree_rc_files = 1;
  tree_rc_config = 0;
}

abbrev label : ℕ → ℕ → Node
label l n = node_of (100 * l + n)

abbrev layer_file : ℕ → List Node
layer_file l = from (label l) 0 16

abbrev reader : Reader
reader = record {
  layer_files = layer_file 0 ∷ layer_file 1 ∷ [];
  packed = true;
  num_slots = 0;
  pages_per_slot = 0;
  has_buffer = false;
}

abbrev challenge : Challenge
challenge = record {
  challenge = 9;
  drg_parents = 8 ∷ 7 ∷ 6 ∷ 5 ∷ 4 ∷ 3 ∷ [];
  exp_parents = 15 ∷ 14 ∷ 13 ∷ 12 ∷ 11 ∷ 10 ∷ 2 ∷ 1 ∷ [];
  nodes = [];
  tree_r_nodes = [];
  tree_r_root = none;
  tree_c_root = none;
  tree_d_root = none;
}

abbrev AllBelow : List ℕ → ℕ → Type 0
AllBelow [] n = Unit
AllBelow (x ∷ xs) n = (x < n) × AllBelow xs n

get_or-AllBelow : (xs : List ℕ) (n i : ℕ) → AllBelow xs n → i < length xs → get_or xs i 0 < n
get_or-AllBelow [] n i h p = elim p [ ]
get_or-AllBelow (x ∷ xs) n zero h p = h.0
get_or-AllBelow (x ∷ xs) n (suc i) h p = get_or-AllBelow xs n i (h.1) (omega arith)

layer_at :
    (l n : ℕ) → l < 2 → n < 16 → get_elem? (get_or reader.layer_files l []) n ≡ some (label l n)
layer_at zero n h p = get_elem?-from (label 0) 0 16 n p ∙ ap (λ k. some (label 0 k)) (omega arith)
layer_at (suc zero) n h p =
    get_elem?-from (label 1) 0 16 n p ∙ ap (λ k. some (label 1 k)) (omega arith)
layer_at (suc (suc l)) n h p = absurd (omega arith)

ids_below : (i : ℕ) → i < 15 → get_or (ids challenge) i 0 < 16
ids_below i h = get_or-AllBelow (ids challenge) 16 i (omega arith) h

labels_read_example :
    (r : Reader) × (d : Challenge) × (get_nodes 1 small_sector reader challenge ≡ some (r, d))
    × ((l i : ℕ)
        → l < 2
        → i < 15
        → column_label (column_of small_params [] d (get_or (ids challenge) i 0) i) l
          ≡ some (label l (get_or (ids challenge) i 0)))
    × ((l i : ℕ)
        → l < 2
        → i < 14
        → label_at (label_proof_of small_params d) l i
          ≡ some (label l (get_or (ids challenge) (i + 1) 0)))
labels_read_example =
    labels_read challenge refl 1 small_sector small_params reader [] label
      (λ l i p q. layer_at l (get_or (ids challenge) i 0) p (ids_below i q))

abbrev sum : List ℕ → ℕ
sum [] = 0
sum (n ∷ ns) = n + sum ns

abbrev driver : C1
driver = record {
  reader = reader;
  replica_id = node_of 7;
  challenges = 5 ∷ 9 ∷ 1 ∷ 63 ∷ 20 ∷ 11 ∷ [];
  challenges_count = 3;
  replica_buf = [];
  tree_r_bufs = [];
  tree_c_bufs = [];
  tree_d_buf = none;
  tree_c_root = node_of 1;
  tree_r_root = node_of 2;
  comm_r = node_of 3;
  comm_d = some (node_of 4);
  seed = node_of 0;
  ticket = node_of 6;
  parents_buf = [];
}

derived_lem_example :
    let d : ℕ = sum (block_bytes (node_of 7) (node_of 8) ((3 * 1 + 2) % 2 ^ 32)) in
    (s' : C1) × (v : ℕ) × (derive_challenges sum small_sector (replicate 6 0) (node_of 8) driver
      ≡ some s')
    × (get_elem? s'.challenges (2 + 1 * 3) ≡ some v)
    × (v ≡ d % (64 - 1) + 1)
    × (1 ≤ v)
    × (v < 64)
derived_lem_example =
    derived_lem sum small_sector (replicate 6 0) (node_of 8) driver 1 2 (omega arith) (omega arith)
      (omega arith) (omega arith) (omega arith) (omega arith)
