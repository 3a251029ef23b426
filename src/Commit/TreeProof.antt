-- ===== src/Commit/TreeProof.antt =====
-- `TreeProof` of c1/tree_proof.hpp: the inclusion path of a leaf in a tree of nodes that stands in one
-- buffer, row after row, or in one buffer for each child of the root, and the bytes of the proof. The
-- library's `log2` and `pow` are floating point; they are exact for the sizes in use.
pub mod Tree
pub mod Others
pub mod Levels
pub mod Path
pub mod Loop
pub mod Run
pub mod Climb
pub mod Split
pub mod Encode
pub mod First
use supra_seal.Prelude.{
  ℕ, zero, suc, ◌+◌, ◌-◌, ◌*◌, ◌/◌, ◌%◌, ◌^◌, ◌≡◌, Option, none, some, Bool, true, false, List, [],
  ◌∷◌, ◌++◌, length, get_elem?, get_or, set, add64, sub64, size_mod, bit_and, not64, ltb, ◌==◌,
  if◌then◌else◌,
}
use supra_seal.Commit.Output.{Node, Output, le_bytes, emit, emit_node}
use supra_seal.Commit.PathElement.{PathElement, construct, set_hash, write}

pub record TreeProof : Type 0 where
  pub arity : ℕ
  pub levels : ℕ
  pub tree_bufs : List (List Node)
  pub tree_bufs_len : ℕ
  pub discard_rows : ℕ
  pub root : Option Node
  pub leaf : Option Node
  pub path : List PathElement

-- `TreeProof::TreeProof`
unfoldable pub create : ℕ → ℕ → List (List Node) → ℕ → ℕ → TreeProof
create arity levels tree_bufs tree_bufs_len discard_rows = record {
  arity = arity;
  levels = levels;
  tree_bufs = tree_bufs;
  tree_bufs_len = tree_bufs_len;
  discard_rows = discard_rows;
  root = none;
  leaf = none;
  path = [];
}

unfoldable pub set_root : Option Node → TreeProof → TreeProof
set_root root t = record t { root = root }

unfoldable pub set_leaf : Option Node → TreeProof → TreeProof
set_leaf leaf t = record t { leaf = leaf }

-- `(size_t) log2(x)`; 64 halvings reach 1 from every 64-bit word
unfoldable pub log2_loop : ℕ → ℕ → ℕ
log2_loop zero x = 0
log2_loop (suc fuel) x = let rest : ℕ = log2_loop fuel (x / 2) in if ltb x 2 then 0 else suc rest

unfoldable pub log2 : ℕ → ℕ
log2 x = log2_loop 64 x

-- `x >> n`
unfoldable pub shift : ℕ → ℕ → ℕ
shift x n = x / 2 ^ n

-- `tree_bufs_[buf] + place`, read; `none` is outside the buffers
unfoldable pub node_at : List (List Node) → ℕ → ℕ → Option Node
node_at bufs buf place = get_elem? (get_or bufs buf []) place

-- `GetTreePaths`: the loop, `n` levels to go
unfoldable pub tree_paths : ℕ → ℕ → ℕ → ℕ → List ℕ
tree_paths zero arity_mask arity_lg challenge = []
tree_paths (suc n) arity_mask arity_lg challenge =
    bit_and challenge arity_mask ∷ tree_paths n arity_mask arity_lg (shift challenge arity_lg)

unfoldable pub get_tree_paths : TreeProof → ℕ → List ℕ
get_tree_paths t challenge = tree_paths t.levels (sub64 t.arity 1) (log2 t.arity) challenge

-- The loop over `a`: every sibling but the `leaf_idx`-th, `n` of them to go.
unfoldable pub set_others : (ℕ → Option Node) → ℕ → ℕ → ℕ → ℕ → PathElement → PathElement
unfolding set_hash
set_others hash leaf_idx zero a hash_idx e = e
set_others hash leaf_idx (suc n) a hash_idx e =
    set_others hash leaf_idx n (suc a) (if a == leaf_idx then hash_idx else suc hash_idx)
      (if a == leaf_idx then e else set_hash hash_idx (hash a) e)

-- `path_[l]`, changed
unfoldable pub modify : ℕ → (PathElement → PathElement) → List PathElement → List PathElement
modify l f [] = []
modify zero f (e ∷ es) = f e ∷ es
modify (suc l) f (e ∷ es) = e ∷ modify l f es

-- a level of the path: a `push_back`, then the hashes of `path_[l]`
unfoldable pub add_level : ℕ → ℕ → (ℕ → Option Node) → TreeProof → TreeProof
unfolding construct set_others modify
add_level l leaf_idx hash t = record t {
  path =
      modify l (set_others hash leaf_idx t.arity 0 0) (t.path ++ (construct t.arity leaf_idx ∷ []));
}

-- `leaf_start` of the loop over the levels
unfoldable pub start_of : ℕ → ℕ → ℕ → ℕ → ℕ → ℕ → ℕ
unfolding shift
start_of challenge tree_idx_mask arity_lg arity_mask l add_level_size =
    add64 (bit_and (shift (bit_and challenge tree_idx_mask) (l * arity_lg)) arity_mask)
      add_level_size

-- what the loop over the levels reads and does not change
module _ (challenge : ℕ) (indices : List ℕ) (tree_idx_mask arity_lg arity_mask buf_idx : ℕ) where
  -- the loop, `n` levels to go from level `l` on; the result holds the last `add_level_size`
  unfoldable pub level_loop : ℕ → ℕ → ℕ → ℕ → TreeProof → TreeProof × ℕ
  unfolding add_level start_of node_at set_leaf shift
  level_loop zero l add_level_size cur_level_size t = (t, add_level_size)
  level_loop (suc n) l add_level_size cur_level_size t =
      let leaf_idx : ℕ = get_or indices l 0 in
      let leaf_start : ℕ = start_of challenge tree_idx_mask arity_lg arity_mask l add_level_size in
      let led : TreeProof =
        if l == 0 then set_leaf (node_at t.tree_bufs buf_idx (leaf_start + leaf_idx)) t else t in
      level_loop n (suc l) (add64 add_level_size cur_level_size) (shift cur_level_size arity_lg)
        (add_level l leaf_idx (λ a. node_at t.tree_bufs buf_idx (leaf_start + a)) led)

-- the root's children, one from each buffer
unfoldable pub last_level : List ℕ → ℕ → TreeProof → TreeProof
unfolding add_level node_at
last_level indices add_level_size t =
    add_level (sub64 t.levels 1) (get_or indices (sub64 t.levels 1) 0)
      (λ a. node_at t.tree_bufs a add_level_size) t

-- `GenInclusionPath` from `starting_level` on, the rows of the buffers being `start_level_size` wide
-- at first
unfoldable pub gen_from : ℕ → ℕ → ℕ → List ℕ → TreeProof → TreeProof
unfolding level_loop last_level shift log2
gen_from challenge starting_level start_level_size indices t =
    let finish_level : ℕ = if t.tree_bufs_len == 1 then t.levels else sub64 t.levels 1 in
    let arity_mask : ℕ = not64 (sub64 t.arity 1) in
    let arity_lg : ℕ = log2 t.arity in
    let leaves : ℕ = 2 ^ (t.levels * arity_lg) in
    let file_leaves : ℕ = leaves / t.tree_bufs_len in
    let file_shift : ℕ = log2 file_leaves in
    let (u, add_level_size) =
      level_loop challenge indices (sub64 file_leaves 1) arity_lg arity_mask
        (shift challenge file_shift) (finish_level - starting_level) starting_level 0
        start_level_size t in
    if t.tree_bufs_len == 1 then u else last_level indices add_level_size u

-- `GenInclusionPath` with no `first_level`
unfoldable pub gen_inclusion_path : ℕ → TreeProof → TreeProof
unfolding gen_from get_tree_paths log2
gen_inclusion_path challenge t =
    gen_from challenge 0 (2 ^ (t.levels * log2 t.arity) / t.tree_bufs_len)
      (get_tree_paths t challenge) t

unfoldable pub proof_size : ℕ → ℕ → ℕ → ℕ
proof_size arity levels proof_type =
    let size : ℕ = 4 + 32 + 32 + 8 + (32 * sub64 arity 1 + 8 + 8) * levels in
    (if proof_type == 1 then size + 8 else size) % size_mod

-- the loops over the path: `n` elements from the `i`-th on
unfoldable pub write_path : ℕ → ℕ → List PathElement → Output → Option Output
unfolding write
write_path zero i path o = some o
write_path (suc n) i path o = elim (get_elem? path i) [
  | none ↦ none
  | some e ↦ elim (write e o) [ none ↦ none | some u ↦ write_path n (suc i) path u ]
]

-- the root, then the leaf
unfoldable pub write_ends : TreeProof → Output → Option Output
unfolding emit_node
write_ends t o = elim (emit_node t.root o) [ none ↦ none | some u ↦ emit_node t.leaf u ]

-- `WriteProof`, its branches
unfoldable pub write_single : TreeProof → Output → Option Output
unfolding write_ends write_path emit
write_single t o = elim (write_ends t o) [
  | none ↦ none
  | some u ↦ write_path t.levels 0 t.path (emit (le_bytes 8 t.levels) u)
]

unfoldable pub write_sub : TreeProof → Output → Option Output
unfolding write_ends write_path emit
write_sub t o =
    let base : ℕ = sub64 t.levels 1 in
    elim (write_path base 0 t.path (emit (le_bytes 8 base) o)) [
      | none ↦ none
      | some u ↦ elim (write_path 1 base t.path (emit (le_bytes 8 1) u)) [
        | none ↦ none
        | some v ↦ write_ends t v
      ]
    ]

unfoldable pub write_proof : ℕ → TreeProof → Output → Option Output
unfolding write_single write_sub emit
write_proof proof_type t o =
    let u : Output = emit (le_bytes 4 proof_type) o in
    if proof_type == 0 then write_single t u else if proof_type == 1 then write_sub t u else some u
