-- ===== src/Tests/Paths.antt =====
-- Inclusion paths in small trees, with a hash that is easy to follow.
use supra_seal.Prelude.{
  ℕ, zero, suc, ◌+◌, ◌*◌, ◌^◌, ◌<◌, ◌≡◌, refl, arith, Option, none, some, List, [], ◌∷◌, get_elem?,
  get_or, size_mod, ◌/◌, ◌%◌, ◌==◌, if◌then◌else◌,
}
use supra_seal.Commit.Output.{Node}
use supra_seal.Commit.TreeProof.{TreeProof, node_at, gen_inclusion_path}
use supra_seal.Commit.TreeProof.Tree.{from, parent, climb, IsTree, top_of}
use supra_seal.Commit.TreeProof.Climb.{Sizes, climb-one_buffer}
use supra_seal.Commit.TreeProof.Split.{climb-split}
use supra_seal.Commit.TreeProof.Others.{element}
use supra_seal.Commit.TreeDccProof.Table.{cc_tree_d_node_values}
use supra_seal.Commit.TreeDccProof.{create_cc, gen_cc_path}
use supra_seal.Commit.TreeDccProof.Climb.{climb-cc}

abbrev pub node_of : ℕ → Node
node_of x = record { limbs = x ∷ [] }

abbrev pub mix : List Node → ℕ
mix [] = 1
mix (n ∷ ns) = get_or n.limbs 0 0 + 3 * mix ns

abbrev pub hash_of : List Node → Node
hash_of ns = node_of (mix ns)

-- the leaves 1, 2, 3 and 4, their parents, and the root
abbrev pub file : List Node
file = node_of 1 ∷ node_of 2 ∷ node_of 3 ∷ node_of 4 ∷ node_of 16 ∷ node_of 24 ∷ node_of 97 ∷ []

abbrev one_file : TreeProof
one_file = record {
  arity = 2;
  levels = 2;
  tree_bufs = file ∷ [];
  tree_bufs_len = 1;
  discard_rows = 0;
  root = some (node_of 97);
  leaf = none;
  path = [];
}

abbrev nodes : ℕ → Option Node
nodes i = node_at (file ∷ []) 0 i

parents_file :
    (i : ℕ) → i < 2 → nodes (0 + 2 ^ 2 + i) ≡ parent hash_of (from (λ a. nodes (0 + 2 * i + a)) 0 2)
unfolding parent node_at
parents_file zero h = refl
parents_file (suc zero) h = refl
parents_file (suc (suc i)) h = absurd (omega arith)

root_file :
    (i : ℕ) → i < 1 → nodes (4 + 2 ^ 1 + i) ≡ parent hash_of (from (λ a. nodes (4 + 2 * i + a)) 0 2)
unfolding parent node_at
root_file zero h = refl
root_file (suc i) h = absurd (omega arith)

file-IsTree : IsTree hash_of 2 nodes 0 2
unfolding IsTree
file-IsTree = (parents_file, (root_file, tt))

one_file-Sizes : Sizes one_file 1 2
one_file-Sizes = record {
  arity_pow = refl;
  arity_big = omega arith;
  leaves_small = omega arith;
  fresh = refl;
  in_range = omega arith;
}

one_file_top : top_of 2 0 2 < size_mod
unfolding top_of
one_file_top = omega arith

climb-one_buffer_example :
    let u : TreeProof = gen_inclusion_path 2 one_file in
    (u.root ≡ some (node_of 97))
    × (u.leaf ≡ nodes 2)
    × (climb hash_of u.path u.leaf ≡ nodes (top_of 2 0 2))
climb-one_buffer_example =
    climb-one_buffer hash_of one_file 1 2 one_file-Sizes refl (omega arith) one_file_top file-IsTree

-- the same tree in two files, without its root
abbrev pub files : List (List Node)
files = (node_of 1 ∷ node_of 2 ∷ node_of 16 ∷ []) ∷ (node_of 3 ∷ node_of 4 ∷ node_of 24 ∷ []) ∷ []

abbrev two_files : TreeProof
two_files = record {
  arity = 2;
  levels = 2;
  tree_bufs = files;
  tree_bufs_len = 2;
  discard_rows = 0;
  root = some (node_of 97);
  leaf = none;
  path = [];
}

first_file :
    (i : ℕ)
    → i < 1
    → node_at files 0 (0 + 2 ^ 1 + i)
      ≡ parent hash_of (from (λ a. node_at files 0 (0 + 2 * i + a)) 0 2)
unfolding parent node_at
first_file zero h = refl
first_file (suc i) h = absurd (omega arith)

second_file :
    (i : ℕ)
    → i < 1
    → node_at files 1 (0 + 2 ^ 1 + i)
      ≡ parent hash_of (from (λ a. node_at files 1 (0 + 2 * i + a)) 0 2)
unfolding parent node_at
second_file zero h = refl
second_file (suc i) h = absurd (omega arith)

pub files-IsTree : (a : ℕ) → a < 2 → IsTree hash_of 2 (node_at files a) 0 1
unfolding IsTree
files-IsTree zero h = (first_file, tt)
files-IsTree (suc zero) h = (second_file, tt)
files-IsTree (suc (suc a)) h = absurd (omega arith)

two_files-Sizes : Sizes two_files 1 3
two_files-Sizes = record {
  arity_pow = refl;
  arity_big = omega arith;
  leaves_small = omega arith;
  fresh = refl;
  in_range = omega arith;
}

pub two_files_top : top_of 2 0 1 < size_mod
unfolding top_of
two_files_top = omega arith

climb-split_example :
    let u : TreeProof = gen_inclusion_path 3 two_files in
    (u.root ≡ some (node_of 97))
    × (u.leaf ≡ node_at files 1 1)
    × (climb hash_of u.path u.leaf
        ≡ parent hash_of (from (λ a. node_at files a (top_of 2 0 1)) 0 2))
climb-split_example =
    climb-split hash_of two_files 1 3 1 two_files-Sizes refl refl (omega arith) two_files_top
      files-IsTree

-- a hash that the rows of the table up to the second follow
abbrev next_row : List Node → Node
next_row [] = get_or cc_tree_d_node_values 0 (node_of 0)
next_row (x ∷ xs) =
    if get_or x.limbs 0 0 == 0
    then get_or cc_tree_d_node_values 1 (node_of 0)
    else get_or cc_tree_d_node_values 2 (node_of 0)

table_rows :
    (i : ℕ)
    → i < 2
    → get_elem? cc_tree_d_node_values (suc i)
      ≡ parent next_row (get_elem? cc_tree_d_node_values i ∷ get_elem? cc_tree_d_node_values i ∷ [])
unfolding parent
table_rows zero h = refl
table_rows (suc zero) h = refl
table_rows (suc (suc i)) h = absurd (omega arith)

climb-cc_example :
    (t : TreeProof) × (create_cc 2 2 ≡ some t)
    × (t.leaf ≡ get_elem? cc_tree_d_node_values 0)
    × (t.root ≡ get_elem? cc_tree_d_node_values 2)
    × (let u : TreeProof = gen_cc_path 1 cc_tree_d_node_values t in
        ((l : ℕ)
          → l < 2
          → get_elem? u.path l
            ≡ some (element 2 (1 / 2 ^ l % 2) (get_elem? cc_tree_d_node_values l ∷ [])))
        × (climb next_row u.path t.leaf ≡ t.root))
climb-cc_example = climb-cc next_row 2 1 (omega arith) table_rows
