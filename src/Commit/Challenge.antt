-- ===== src/Commit/Challenge.antt =====
-- `C1Challenge` of c1/challenge.hpp: what is read for a challenge, and the order in which its proofs
-- are written. `hash` is Poseidon.
pub mod Labels
use supra_seal.Prelude.{
  ℕ, zero, suc, ◌+◌, ◌-◌, ◌*◌, Option, none, some, Bool, true, false, List, [], ◌∷◌, ◌++◌, length,
  get_elem?, sub64, size_mod, bit_and, not64, ◌%◌, ◌>>=◌,
}
use supra_seal.Pc1.ParentIter.{parent_count_base, parent_count_exp, parent_count}
use supra_seal.Sealing.SectorParameters.{Sector}
use supra_seal.Commit.Output.{Node, Output, le_bytes, emit}
use supra_seal.Commit.TreeProof
use supra_seal.Commit.TreeProof.{TreeProof, set_root, write_proof}
use supra_seal.Commit.TreeProof.First.{gen_path}
use supra_seal.Commit.TreeDccProof.Table.{cc_tree_d_node_values}
use supra_seal.Commit.TreeDccProof.{create_cc, gen_cc_path}
use supra_seal.Commit.ColumnProof.{Params, ColumnProof, column, write_column}
use supra_seal.Commit.LabelProof
use supra_seal.Commit.LabelProof.{LabelProof}
use supra_seal.Commit.NodeReader.{Reader, alloc_slots, free_slots, load_nodes, get_node}

abbrev pub tree_d_arity : ℕ
tree_d_arity = 2

abbrev pub single_proof_data : ℕ
single_proof_data = 0

pub record Challenge : Type 0 where
  pub challenge : ℕ
  pub drg_parents : List ℕ
  pub exp_parents : List ℕ
  pub nodes : List Node
  pub tree_r_nodes : List Node
  pub tree_r_root : Option Node
  pub tree_c_root : Option Node
  pub tree_d_root : Option Node

-- `C1Challenge::C1Challenge`
unfoldable pub create : ℕ → Option Node → Option Node → Option Node → Challenge
create challenge tree_r_root tree_c_root tree_d_root = record {
  challenge = challenge;
  drg_parents = [];
  exp_parents = [];
  nodes = [];
  tree_r_nodes = [];
  tree_r_root = tree_r_root;
  tree_c_root = tree_c_root;
  tree_d_root = tree_d_root;
}

-- `count` entries of an array from the `at`-th on; `none` is outside it
unfoldable pub copy_from {ℓ} : {A : Type ℓ} → List A → ℕ → ℕ → Option (List A)
copy_from array at zero = some []
copy_from array at (suc count) = elim (get_elem? array at) [
  | none ↦ none
  | some x ↦ elim (copy_from array (suc at) count) [ none ↦ none | some xs ↦ some (x ∷ xs) ]
]

unfoldable pub get_parents : List ℕ → Challenge → Option Challenge
unfolding copy_from
get_parents parents_buf c =
    let p_idx : ℕ = c.challenge * parent_count % size_mod in
    elim (copy_from parents_buf p_idx parent_count_base) [
      | none ↦ none
      | some drg ↦ elim (copy_from parents_buf (p_idx + parent_count_base) parent_count_exp) [
        | none ↦ none
        | some exp ↦ some (record c { drg_parents = drg; exp_parents = exp })
      ]
    ]

-- a loop over the parents in one layer
unfoldable pub pairs_of : ℕ → List ℕ → List (ℕ × ℕ)
pairs_of l [] = []
pairs_of l (p ∷ ps) = (l, p) ∷ pairs_of l ps

-- the loop over the layers, `n` of them from layer `l` on
unfoldable pub requests : Challenge → ℕ → ℕ → List (ℕ × ℕ)
unfolding pairs_of
requests c zero l = []
requests c (suc n) l =
    ((l, c.challenge) ∷ (pairs_of l c.drg_parents ++ pairs_of l c.exp_parents))
    ++ requests c n (suc l)

-- the loop that stores the nodes, `n` of them from the `i`-th on
unfoldable pub fetch : List (ℕ × ℕ) → Reader → ℕ → ℕ → Option (List Node)
unfolding get_node
fetch pairs r zero i = some []
fetch pairs r (suc n) i = elim (get_node pairs i r) [
  | none ↦ none
  | some x ↦ elim (fetch pairs r n (suc i)) [ none ↦ none | some xs ↦ some (x ∷ xs) ]
]

module _ (nodes_per_page : ℕ) (sector : Sector) where
  unfoldable pub get_nodes : Reader → Challenge → Option (Reader × Challenge)
  unfolding requests fetch alloc_slots load_nodes free_slots
  get_nodes reader c =
      let pairs : List (ℕ × ℕ) = requests c sector.num_layers 0 in
      let r : Reader = alloc_slots nodes_per_page 1 (length pairs) false reader in
      elim (load_nodes pairs r) [
        | none ↦ none
        | some done ↦ elim (fetch pairs r (length pairs) 0) [
          | none ↦ none
          | some nodes ↦ some (free_slots r, record c { nodes = nodes })
        ]
      ]

unfoldable pub challenge_start_mask : Sector → ℕ
challenge_start_mask sector = not64 (sub64 sector.tree_r_labels 1)

unfoldable pub get_tree_r_nodes : Sector → List Node → Challenge → Option Challenge
unfolding copy_from challenge_start_mask
get_tree_r_nodes sector replica_buf c =
    elim (copy_from replica_buf (bit_and c.challenge (challenge_start_mask sector))
      sector.tree_r_labels) [ none ↦ none | some nodes ↦ some (record c { tree_r_nodes = nodes }) ]

module _ (hash : List Node → Node) (sector : Sector) (params : Params) where
  -- the proof in tree D; no buffer is the null pointer
  unfoldable pub write_tree_d : Option (List Node) → Challenge → Output → Option Output
  unfolding create_cc gen_cc_path TreeProof.create set_root gen_path write_proof
  write_tree_d none c o = elim (create_cc tree_d_arity sector.tree_d_levels) [
    | none ↦ none
    | some t ↦ write_proof single_proof_data (gen_cc_path c.challenge cc_tree_d_node_values t) o
  ]
  write_tree_d (some tree_d) c o =
      write_proof single_proof_data
        (gen_path hash c.challenge none (
          set_root c.tree_d_root
            (TreeProof.create tree_d_arity sector.tree_d_levels (tree_d ∷ []) 1 0)))
        o

  unfoldable pub tree_r_proof : List (List Node) → Challenge → TreeProof
  unfolding TreeProof.create set_root gen_path
  tree_r_proof tree_r_bufs c = gen_path hash c.challenge (some c.tree_r_nodes) (
      set_root c.tree_r_root (
        TreeProof.create params.tree_rc_arity params.tree_rc_levels tree_r_bufs params.tree_rc_files
          sector.tree_r_discard_rows))

  unfoldable pub write_tree_proof :
      List (List Node) → Option (List Node) → Challenge → Output → Option Output
  unfolding write_tree_d tree_r_proof write_proof
  write_tree_proof tree_r_bufs tree_d_buf c o = elim (write_tree_d tree_d_buf c o) [
    | none ↦ none
    | some u ↦ write_proof params.tree_rc_config (tree_r_proof tree_r_bufs c) u
  ]

module _ (params : Params) where
  -- the column of the node whose labels are the `k`-th of each layer's
  unfoldable pub column_of : List (List Node) → Challenge → ℕ → ℕ → ColumnProof
  unfolding column
  column_of tree_c_bufs c node k =
      column params node c.nodes k (parent_count + 1) tree_c_bufs c.tree_c_root

  -- the loops over the parents, from the `k`-th labels on
  unfoldable pub write_columns : List (List Node) → Challenge → List ℕ → ℕ → Output → Option Output
  unfolding column_of write_column
  write_columns tree_c_bufs c [] k o = some o
  write_columns tree_c_bufs c (p ∷ ps) k o =
      elim (write_column params.tree_rc_config (column_of tree_c_bufs c p k) o) [
        | none ↦ none
        | some u ↦ write_columns tree_c_bufs c ps (suc k) u
      ]

  unfoldable pub label_proof_of : Challenge → LabelProof
  label_proof_of c = record {
    challenge = c.challenge;
    layers = params.num_layers;
    labels = c.nodes;
    label_inc = parent_count + 1;
  }

  unfoldable pub write_node_proof : List (List Node) → Challenge → Output → Option Output
  unfolding column_of write_columns write_column label_proof_of LabelProof.write_proof emit
  write_node_proof tree_c_bufs c o = do
    c_x ← write_column params.tree_rc_config (column_of tree_c_bufs c c.challenge 0) o
    drg ← write_columns tree_c_bufs c c.drg_parents 1 (emit (le_bytes 8 parent_count_base) c_x)
    exp ←
        write_columns tree_c_bufs c c.exp_parents (1 + parent_count_base)
          (emit (le_bytes 8 parent_count_exp) drg)
    label ← LabelProof.write_proof false (label_proof_of c) exp
    LabelProof.write_proof true (label_proof_of c) label

-- `WriteProof`
unfoldable pub write_challenge :
    (List Node → Node)
    → Sector
    → Params
    → List (List Node)
    → List (List Node)
    → Option (List Node)
    → Challenge
    → Output
    → Option Output
unfolding write_tree_proof write_node_proof
write_challenge hash sector params tree_r_bufs tree_c_bufs tree_d_buf c o = do
  u ← write_tree_proof hash sector params tree_r_bufs tree_d_buf c o
  write_node_proof params tree_c_bufs c u
