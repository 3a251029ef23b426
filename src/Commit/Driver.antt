-- ===== src/Commit/Driver.antt =====
-- The class of c1/c1.hpp: the challenges of a sector, the file with the proofs of all of them, and the same
-- file put together from one with the tree proofs and one with the node proofs. `hash` is
-- Poseidon, and `sha` gives the number whose words are the digest
-- of a buffer of two blocks. A file that is made anew holds zeros.
pub mod Pieces
pub mod Written
pub mod Combine
pub mod Whole
pub mod Combined
pub mod Challenges
use supra_seal.Prelude.{
  ℕ, zero, suc, ◌+◌, ◌-◌, ◌*◌, ◌/◌, ◌%◌, ◌^◌, Option, none, some, Bool, true, false, List, [], ◌∷◌,
  ◌++◌, length, get_elem?, set, take, drop, replicate, size_mod, add64, sub64, leb, ltb, ◌==◌,
  if◌then◌else◌, ◌>>=◌,
}
use supra_seal.Pc1.ParentIter.{parent_count_base, parent_count_exp}
use supra_seal.Sealing.SectorParameters.{Sector}
use supra_seal.Commit.Output.{Node, Output, le_bytes, node_bytes, put, emit, emit_node}
use supra_seal.Commit.TreeProof
use supra_seal.Commit.LabelProof
use supra_seal.Commit.ColumnProof.{Params, column_size}
use supra_seal.Commit.NodeReader.{Reader}
use supra_seal.Commit.Challenge
use supra_seal.Commit.Challenge.{
  Challenge, tree_d_arity, single_proof_data, get_parents, get_nodes, get_tree_r_nodes,
  write_tree_proof, write_node_proof, write_challenge,
}

pub record C1 : Type 0 where
  pub reader : Reader
  pub replica_id : Node
  pub challenges : List ℕ
  pub challenges_count : ℕ
  pub replica_buf : List Node
  pub tree_r_bufs : List (List Node)
  pub tree_c_bufs : List (List Node)
  pub tree_d_buf : Option (List Node)
  pub tree_c_root : Node
  pub tree_r_root : Node
  pub comm_r : Node
  pub comm_d : Option Node
  pub seed : Node
  pub ticket : Node
  pub parents_buf : List ℕ

-- `challenges_count_`
unfoldable pub challenges_per_partition : Sector → ℕ
challenges_per_partition sector = sector.num_challenges / sector.num_partitions

module _ (sha : List ℕ → ℕ) (sector : Sector) where
  -- the two blocks, for the `j`-th challenge
  unfoldable pub challenge_block : Node → Node → ℕ → List ℕ
  challenge_block replica_id seed j =
      let zeros : List ℕ = replicate 128 0 in
      let named : List ℕ = put 32 (node_bytes seed) (put 0 (node_bytes replica_id) zeros) in
      let padded : List ℕ = set (set (set named 68 128) 126 2) 127 32 in
      set (set padded 64 (j % 256)) 65 (j / 256 % 256)

  -- the loop over a partition's challenges, `n` to go from the `i`-th on
  unfoldable pub derive_loop : C1 → ℕ → ℕ → ℕ → List ℕ → List ℕ
  unfolding challenge_block
  derive_loop s k zero i challenges = challenges
  derive_loop s k (suc n) i challenges =
      let j : ℕ = (s.challenges_count * k + i) % 2 ^ 32 in
      derive_loop s k n (suc i) (
        set challenges (i + k * s.challenges_count)
          (sha (challenge_block s.replica_id s.seed j) % sub64 sector.num_leaves 1 + 1))

  -- the loop over the partitions, from the `k`-th on, a `uint8_t`; `none` is out of fuel
  unfoldable pub derive_partitions : C1 → ℕ → ℕ → List ℕ → Option (List ℕ)
  unfolding derive_loop
  derive_partitions s zero k challenges = none
  derive_partitions s (suc fuel) k challenges =
      if ltb k sector.num_partitions
      then derive_partitions s fuel ((k + 1) % 256)
          (derive_loop s k s.challenges_count 0 challenges)
      else some challenges

  -- `DeriveChallenges`; `fresh` is what the new array holds. The loop has fuel for each partition, and
  -- to see that it is over; it needs more only when `k` wraps, and then it never ends.
  unfoldable pub derive_challenges : List ℕ → Node → C1 → Option C1
  unfolding derive_partitions
  derive_challenges fresh seed s =
      let named : C1 = record s { seed = seed } in
      elim (derive_partitions named (suc sector.num_partitions) 0 fresh) [
        | none ↦ none
        | some challenges ↦ some (record named { challenges = challenges })
      ]

-- the sizes of the parts
module _ (sector : Sector) (params : Params) where
  unfoldable pub tree_proof_size : ℕ
  tree_proof_size =
      add64 (TreeProof.proof_size tree_d_arity sector.tree_d_levels single_proof_data)
        (TreeProof.proof_size params.tree_rc_arity params.tree_rc_levels params.tree_rc_config)

  unfoldable pub node_proof_size : ℕ
  node_proof_size =
      (LabelProof.proof_size params.num_layers false
        + LabelProof.proof_size params.num_layers true
        + ((1 + parent_count_base + parent_count_exp) * column_size params + 2 * 8))
      % size_mod

  unfoldable pub proof_size : Bool → Bool → ℕ
  unfolding tree_proof_size node_proof_size
  proof_size do_tree do_node =
      (sector.num_partitions * 8
        + 8
        + (if do_tree then tree_proof_size * sector.num_challenges + 2 * 32 else 0)
        + (if do_node then node_proof_size * sector.num_challenges + 3 * 32 else 0))
      % size_mod

-- the loops of `WriteProofs` over the challenges, with what is done for each
module _ (prove : ℕ → Reader → Output → Option (Reader × Output)) (s : C1) where
  -- `n` challenges of partition `i` to go, from the `j`-th on
  unfoldable pub challenge_loop : ℕ → ℕ → ℕ → Reader → Output → Option (Reader × Output)
  challenge_loop i zero j r o = some (r, o)
  challenge_loop i (suc n) j r o = elim (get_elem? s.challenges (j + i * s.challenges_count)) [
    | none ↦ none
    | some c ↦ elim (prove c r o) [ none ↦ none | some (r', u) ↦ challenge_loop i n (suc j) r' u ]
  ]

  -- `n` partitions to go, from the `i`-th on
  unfoldable pub partition_loop : ℕ → ℕ → Reader → Output → Option (Reader × Output)
  unfolding challenge_loop emit
  partition_loop zero i r o = some (r, o)
  partition_loop (suc n) i r o =
      elim (challenge_loop i s.challenges_count 0 r (emit (le_bytes 8 s.challenges_count) o)) [
        | none ↦ none
        | some (r', u) ↦ partition_loop n (suc i) r' u
      ]

-- what follows the challenges
unfoldable pub write_tail : Bool → Bool → C1 → Output → Option Output
unfolding emit emit_node
write_tail do_tree do_node s o =
    let trees : Option Output =
      if do_tree then emit_node s.comm_d (emit (node_bytes s.comm_r) o) else some o in
    elim trees [
      | none ↦ none
      | some u ↦ some (
          if do_node
          then emit (node_bytes s.ticket)
              (emit (node_bytes s.seed) (emit (node_bytes s.replica_id) u))
          else u)
    ]

unfoldable pub new_file : ℕ → Output
new_file size = record { file = replicate size 0; buf_index = 0 }

-- `WriteProofs`, of `partitions` partitions into `expected` bytes; `none` is a failed assertion
module _ (prove : ℕ → Reader → Output → Option (Reader × Output)) where
  unfoldable pub write_file : ℕ → ℕ → Bool → Bool → C1 → Option Output
  unfolding partition_loop write_tail new_file emit
  write_file partitions expected do_tree do_node s =
      elim (partition_loop prove s partitions 0 s.reader
        (emit (le_bytes 8 partitions) (new_file expected))) [
          | none ↦ none
          | some (r, o) ↦ elim (write_tail do_tree do_node s o) [
            | none ↦ none
            | some u ↦ if u.buf_index == expected then some u else none
          ]
        ]

module _ (hash : List Node → Node) (nodes_per_page : ℕ) (sector : Sector) (params : Params)
    (s : C1) where
  unfoldable pub challenge_of : ℕ → Challenge
  unfolding Challenge.create
  challenge_of c = Challenge.create c (some s.tree_r_root) (some s.tree_c_root) s.comm_d

  -- the tree proofs of a challenge
  unfoldable pub prove_tree : ℕ → Reader → Output → Option (Reader × Output)
  unfolding challenge_of get_tree_r_nodes write_tree_proof
  prove_tree c r o = do
    ch ← get_tree_r_nodes sector s.replica_buf (challenge_of c)
    u ← write_tree_proof hash sector params s.tree_r_bufs s.tree_d_buf ch o
    some (r, u)

  unfoldable pub prove_node : ℕ → Reader → Output → Option (Reader × Output)
  unfolding challenge_of get_parents get_nodes write_node_proof
  prove_node c r o = do
    ch ← get_parents s.parents_buf (challenge_of c)
    read ← get_nodes nodes_per_page sector r ch
    u ← write_node_proof params s.tree_c_bufs (read.1) o
    some (read.0, u)

  unfoldable pub prove_both : ℕ → Reader → Output → Option (Reader × Output)
  unfolding challenge_of get_parents get_nodes get_tree_r_nodes write_challenge
  prove_both c r o = do
    ch ← get_parents s.parents_buf (challenge_of c)
    read ← get_nodes nodes_per_page sector r ch
    ch' ← get_tree_r_nodes sector s.replica_buf (read.1)
    u ← write_challenge hash sector params s.tree_r_bufs s.tree_c_bufs s.tree_d_buf ch' o
    some (read.0, u)

  unfoldable pub write_proofs : Bool → Bool → Option Output
  unfolding prove_tree prove_node prove_both write_file proof_size
  write_proofs do_tree do_node =
      write_file (if do_node then (if do_tree then prove_both else prove_node) else prove_tree)
        sector.num_partitions (proof_size sector params do_tree do_node) do_tree do_node s

-- `memcpy` of `n` bytes of a file, from the `at`-th on
unfoldable pub copy_bytes : List ℕ → ℕ → ℕ → Output → Option Output
unfolding emit
copy_bytes file at n o =
    if leb (at + n) (length file) then some (emit (take n (drop at file)) o) else none

-- the first `size` bytes of a file that is made as long if it is shorter
unfoldable pub mapped : ℕ → List ℕ → List ℕ
mapped size file = take size (file ++ replicate size 0)

-- the output, `tree_buf_index` and `node_buf_index`
abbrev pub Cursors : Type 0
Cursors = Output × ℕ × ℕ

module _ (tree_file node_file : List ℕ) where
  unfoldable pub copy_tree : ℕ → Cursors → Option Cursors
  unfolding copy_bytes
  copy_tree n (o, ti, ni) = elim (copy_bytes tree_file ti n o) [
    | none ↦ none
    | some u ↦ some (u, ti + n, ni)
  ]

  unfoldable pub copy_node : ℕ → Cursors → Option Cursors
  unfolding copy_bytes
  copy_node n (o, ti, ni) = elim (copy_bytes node_file ni n o) [
    | none ↦ none
    | some u ↦ some (u, ti, ni + n)
  ]

  -- the loop over a partition's challenges
  unfoldable pub combine_challenges : ℕ → ℕ → ℕ → Cursors → Option Cursors
  unfolding copy_tree copy_node
  combine_challenges tree_size node_size zero cs = some cs
  combine_challenges tree_size node_size (suc n) cs = elim (copy_tree tree_size cs) [
    | none ↦ none
    | some ds ↦ elim (copy_node node_size ds) [
      | none ↦ none
      | some es ↦ combine_challenges tree_size node_size n es
    ]
  ]

  -- a count of 8 bytes, which both files hold too
  unfoldable pub put_count : ℕ → Cursors → Cursors
  unfolding emit
  put_count count (o, ti, ni) = (emit (le_bytes 8 count) o, ti + 8, ni + 8)

  unfoldable pub combine_partitions : ℕ → ℕ → ℕ → ℕ → Cursors → Option Cursors
  unfolding combine_challenges put_count
  combine_partitions tree_size node_size count zero cs = some cs
  combine_partitions tree_size node_size count (suc n) cs =
      elim (combine_challenges tree_size node_size count (put_count count cs)) [
        | none ↦ none
        | some ds ↦ combine_partitions tree_size node_size count n ds
      ]

  -- the nodes at the end
  unfoldable pub combine_tail : Cursors → Option Cursors
  unfolding copy_tree copy_node
  combine_tail cs = do
    comm_r ← copy_tree 32 cs
    comm_d ← copy_tree 32 comm_r
    replica_id ← copy_node 32 comm_d
    seed ← copy_node 32 replica_id
    copy_node 32 seed

-- `CombineProofs`; `none` is a failed assertion, or a read outside a file
unfoldable pub combine : ℕ → ℕ → ℕ → ℕ → ℕ → ℕ → List ℕ → List ℕ → Option Output
unfolding put_count combine_partitions combine_tail new_file
combine partitions count tree_size node_size expected exp_tree tree_file node_file = do
  cs ←
      combine_partitions tree_file node_file tree_size node_size count partitions
        (put_count tree_file node_file partitions (new_file expected, 0, 0))
  ds ← combine_tail tree_file node_file cs
  if (ds.0).buf_index == expected
      then (if ds.1 == exp_tree
          then (if ds.2 == length node_file then some (ds.0) else none)
          else none)
      else none

unfoldable pub combine_proofs : Sector → Params → List ℕ → List ℕ → Option Output
unfolding combine mapped proof_size tree_proof_size node_proof_size challenges_per_partition
combine_proofs sector params tree_file node_file =
    let exp_tree : ℕ = proof_size sector params true false in
    combine sector.num_partitions (challenges_per_partition sector) (tree_proof_size sector params)
      (node_proof_size sector params) (proof_size sector params true true) exp_tree
      (mapped exp_tree tree_file) node_file
