-- ===== src/Tests/Discarded.antt =====
-- Inclusion paths in small trees whose lowest rows were discarded.
use supra_seal.Prelude.{
  ℕ, zero, suc, ◌+◌, ◌*◌, ◌/◌, ◌%◌, ◌^◌, ◌<◌, ◌≡◌, refl, arith, none, some, List, [], ◌∷◌,
  get_elem?,
}
use supra_seal.Commit.Output.{Node}
use supra_seal.Commit.TreeProof.{TreeProof, node_at}
use supra_seal.Commit.TreeProof.Tree.{from, parent, climb, IsTree, top_of}
use supra_seal.Commit.TreeProof.First.{hash_at, hash_two, gen_path}
use supra_seal.Commit.TreeProof.First.Places.{Discarded}
use supra_seal.Commit.TreeProof.First.Climb.{climb-two_levels}
use supra_seal.Commit.TreeProof.First.Whole.{climb-Discarded}
use supra_seal.Tests.Paths.{node_of, hash_of}

-- the leaves around the challenge
abbrev four : List Node
four = node_of 1 ∷ node_of 2 ∷ node_of 3 ∷ node_of 4 ∷ []

abbrev eight : List Node
eight =
    node_of 9
    ∷ node_of 10
    ∷ node_of 11
    ∷ node_of 12
    ∷ node_of 13
    ∷ node_of 14
    ∷ node_of 15
    ∷ node_of 16
    ∷ []

abbrev two_levels : TreeProof
two_levels = record {
  arity = 2;
  levels = 2;
  tree_bufs = [];
  tree_bufs_len = 1;
  discard_rows = 1;
  root = some (node_of 97);
  leaf = none;
  path = [];
}

-- the row above the two that are missing, and the root
abbrev four_levels : TreeProof
four_levels = record {
  arity = 2;
  levels = 4;
  tree_bufs = (node_of 5 ∷ node_of 1101 ∷ node_of 3317 ∷ []) ∷ [];
  tree_bufs_len = 1;
  discard_rows = 2;
  root = some (node_of 3317);
  leaf = none;
  path = [];
}

two_levels-Discarded : Discarded two_levels 1 2
two_levels-Discarded = record {
  arity_pow = refl;
  arity_big = omega arith;
  rows_big = omega arith;
  discarded = refl;
  rows_small = omega arith;
  rows_held = omega arith;
  fresh = refl;
}

four_levels-Discarded : Discarded four_levels 1 3
four_levels-Discarded = record {
  arity_pow = refl;
  arity_big = omega arith;
  rows_big = omega arith;
  discarded = refl;
  rows_small = omega arith;
  rows_held = omega arith;
  fresh = refl;
}

climb-two_levels_example :
    let u = gen_path hash_of 2 (some four) two_levels in
    (u.root ≡ some (node_of 97))
    × (u.leaf ≡ get_elem? four (2 % 2 ^ 2))
    × (climb hash_of u.path u.leaf ≡ hash_two hash_of 2 four 0)
climb-two_levels_example =
    climb-two_levels hash_of two_levels four 1 2 two_levels-Discarded (omega arith) refl

top_row :
    (i : ℕ)
    → i < 2 ^ 0
    → node_at four_levels.tree_bufs 0 (0 + 2 ^ 1 + i)
      ≡ parent hash_of (from (λ a. node_at four_levels.tree_bufs 0 (0 + 2 * i + a)) 0 2)
unfolding parent node_at
top_row zero h = refl
top_row (suc i) h = absurd (omega arith)

four_levels-IsTree : IsTree hash_of 2 (node_at four_levels.tree_bufs 0) 0 1
unfolding IsTree
four_levels-IsTree = (top_row, tt)

-- The leaves hash up to the node above the challenge.
four_levels_base :
    node_at four_levels.tree_bufs 0 (11 / 2 ^ 3)
    ≡ parent hash_of (from (hash_two hash_of 2 eight) 0 2)
unfolding parent node_at hash_two hash_at
four_levels_base = refl

climb-Discarded_example :
    let u = gen_path hash_of 11 (some eight) four_levels in
    (u.root ≡ some (node_of 3317))
    × (u.leaf ≡ get_elem? eight (11 % 2 ^ 3))
    × (climb hash_of u.path u.leaf ≡ node_at four_levels.tree_bufs 0 (top_of 2 0 1))
unfolding top_of
climb-Discarded_example =
    climb-Discarded hash_of four_levels eight 1 11 four_levels-Discarded refl (omega arith)
      (omega arith) (omega arith) (omega arith) four_levels-IsTree four_levels_base
