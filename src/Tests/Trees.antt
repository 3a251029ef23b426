-- ===== src/Tests/Trees.antt =====
-- The builders of trees of pc1/, on small trees.
use supra_seal.Prelude.{
  ℕ, zero, suc, ◌+◌, ◌*◌, ◌^◌, ◌<◌, ◌≡◌, refl, arith, some, true, false, List, [], ◌∷◌, length,
  get_elem?, get_or, ◌≤◌, replicate, length-replicate,
}
use supra_seal.Commit.Output.{Node}
use supra_seal.Commit.TreeProof.{
  TreeProof, create, set_root, gen_inclusion_path, shift, log2, log2_loop,
}
use supra_seal.Commit.TreeProof.Tree.{from, parent, climb}
use supra_seal.Pc1.Rows.{row_loop, hash_row, hash_node, read_nodes, write}
use supra_seal.Pc1.Rows.Spec.{above_count}
use supra_seal.Pc1.TreeD.{zero_node, build_tree, build_cc_tree, levels_loop, copy_data}
use supra_seal.Pc1.TreeD.Proof.{build_tree-climb}
use supra_seal.Pc1.TreeD.Empty.{build_cc_tree-zeros}
use supra_seal.Pc1.TreeBuilder.{TreeBuilder, size}
use supra_seal.Pc1.TreeBuilder.Size.{size-rows}
use supra_seal.Pc1.TreeC.{build_from_layers}
use supra_seal.Pc1.TreeC.Proof.{build_from_layers-climb}
use supra_seal.Tests.Paths.{node_of, hash_of, file}

abbrev four : List Node
four = node_of 1 ∷ node_of 2 ∷ node_of 3 ∷ node_of 4 ∷ []

build_tree-climb_example :
    (tree : List Node) × (root : Node) × (build_tree hash_of four (2 ^ 2) true ≡ some (tree, root))
    × (let u : TreeProof =
          gen_inclusion_path 1 (set_root (some root) (create 2 2 (tree ∷ []) 1 0)) in
        (u.leaf ≡ get_elem? four 1)
        × (u.root ≡ some root)
        × (climb hash_of u.path u.leaf ≡ some root))
build_tree-climb_example =
    build_tree-climb hash_of 2 1 four (omega arith) (omega arith) (omega arith) (omega arith)

build_cc_tree-zeros_example :
    (r : List Node × Node) × (build_cc_tree hash_of 3 (2 ^ 3) ≡ some r)
    × (build_tree hash_of (replicate (2 ^ 3) zero_node) (2 ^ 3) true ≡ some r)
build_cc_tree-zeros_example = build_cc_tree-zeros hash_of 3 (omega arith)

-- columns of two nodes, pairs of which are hashed
abbrev pairs : TreeBuilder
pairs = record { col_arity = 2; arity = 2; discard_rows = 2 }

abbrev blank : ℕ → List Node
blank n = replicate n zero_node

length-blank : (n : ℕ) → length (blank n) ≡ n
length-blank n = length-replicate n zero_node

abbrev sixteen : List Node
sixteen =
    node_of 1
    ∷ node_of 2
    ∷ node_of 3
    ∷ node_of 4
    ∷ node_of 5
    ∷ node_of 6
    ∷ node_of 7
    ∷ node_of 8
    ∷ node_of 9
    ∷ node_of 10
    ∷ node_of 11
    ∷ node_of 12
    ∷ node_of 13
    ∷ node_of 14
    ∷ node_of 15
    ∷ node_of 16
    ∷ []

-- two layers of four labels
abbrev two_layers : List (List Node)
two_layers = four ∷ (node_of 5 ∷ node_of 6 ∷ node_of 7 ∷ node_of 8 ∷ []) ∷ []

two_layers-length : (l : ℕ) → l < length two_layers → 2 ^ 2 ≤ length (get_or two_layers l [])
two_layers-length zero h = omega arith
two_layers-length (suc zero) h = omega arith
two_layers-length (suc (suc l)) h = absurd (omega arith)

build_from_layers-climb_example :
    (files : List (List Node)) × (root : Node) × (build_from_layers
        (λ n. hash_of)
        blank
        pairs
        2
        (2 ^ 2)
        two_layers
      ≡ some (files, root))
    × (length files ≡ 2)
    × (let u : TreeProof = gen_inclusion_path 3 (set_root (some root) (create 2 2 files 2 0)) in
        (u.leaf ≡ parent hash_of (from (λ l. get_elem? (get_or two_layers l []) 3) 0 2))
        × (u.root ≡ some root)
        × (climb hash_of u.path u.leaf ≡ some root))
build_from_layers-climb_example =
    build_from_layers-climb (λ n. hash_of) blank pairs 1 0 3 two_layers length-blank refl
      (omega arith) (λ e. absurd (omega (arith, e))) refl (omega arith) (omega arith) (omega arith)
      two_layers-length (omega arith)

abbrev sum_of : Node → Node → Node
sum_of d l = hash_of (d ∷ l ∷ [])

-- as in a sector of 2KB, with pairs for the nodes of a tree
abbrev small_pairs : TreeBuilder
small_pairs = record { col_arity = 2; arity = 2; discard_rows = 1 }

size-rows_example :
    (size pairs (2 ^ (2 + 3)) false false ≡ some (above_count 2 3))
    × (size pairs (2 * 2 ^ 3) true false ≡ some (2 ^ 3 + above_count 2 3))
size-rows_example =
    size-rows pairs 3 (omega arith) (omega arith) (omega arith) (omega arith) (omega arith)
      (omega arith)

four_built : build_tree hash_of four 4 true ≡ some (file, node_of 97)
unfolding build_tree levels_loop copy_data hash_row row_loop hash_node read_nodes write shift log2
    log2_loop
four_built = refl
