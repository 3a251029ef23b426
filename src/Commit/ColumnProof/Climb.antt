-- ===== src/Commit/ColumnProof/Climb.antt =====
-- The inclusion path of a column is one to the root that the column is made with.
use supra_seal.Prelude.{
  ℕ, suc, ◌+◌, ◌*◌, ◌/◌, ◌%◌, ◌^◌, ◌<◌, ◌≡◌, refl, sym, ◌∙◌, Option, List, get_elem?, size_mod,
}
use supra_seal.Commit.Output.{Node}
use supra_seal.Commit.TreeProof
use supra_seal.Commit.TreeProof.{TreeProof, set_root, node_at}
use supra_seal.Commit.TreeProof.Tree.{from, parent, climb, IsTree, top_of}
use supra_seal.Commit.TreeProof.Climb.{Sizes}
use supra_seal.Commit.TreeProof.Split.{climb-split}
use supra_seal.Commit.ColumnProof.{Params, ColumnProof, column, column_label}

-- The sector's tree has the arity `2 ^ k`, a file for each child of the root, and `r` levels in a file.
pub record SplitShape (params : Params) (k r : ℕ) : Type 0 where
  pub arity_pow : params.tree_rc_arity ≡ 2 ^ k
  pub arity_big : 0 < k
  pub leaves_small : params.tree_rc_levels * k < 64
  pub file_each : params.tree_rc_files ≡ params.tree_rc_arity
  pub one_above : params.tree_rc_levels ≡ suc r
  pub some_below : 0 < r
  pub top_fits : top_of params.tree_rc_arity 0 r < size_mod

-- For a tree with one file for each child of its root, whose top stands at a 64-bit index, a challenge
-- that names one of its leaves, and the root that is the hash of the tops of the files: the column that
-- the constructor makes keeps the root and the labels, takes the challenge's leaf of the tree, in the
-- file and at the place that the challenge names, and its path hashes up from that leaf to the root.
pub climb-column :
    (hash : List Node → Node) (params : Params) (k r challenge : ℕ) (labels : List Node)
    (idx inc : ℕ) (bufs : List (List Node)) (root : Option Node)
    → SplitShape params k r
    → challenge < 2 ^ (params.tree_rc_levels * k)
    → ((a : ℕ) → a < params.tree_rc_arity → IsTree hash params.tree_rc_arity (node_at bufs a) 0 r)
    → root
      ≡ parent hash
          (from (λ a. node_at bufs a (top_of params.tree_rc_arity 0 r)) 0 params.tree_rc_arity)
    → let c : ColumnProof = column params challenge labels idx inc bufs root in
      (c.tree.root ≡ root)
      × (c.tree.leaf ≡ node_at bufs (challenge / 2 ^ (r * k)) (challenge % 2 ^ (r * k)))
      × ((l : ℕ) → column_label c l ≡ get_elem? labels (idx + l * inc))
      × (climb hash c.tree.path c.tree.leaf ≡ root)
unfolding column column_label TreeProof.create set_root
climb-column hash params k r challenge labels idx inc bufs root shape in_range trees top =
    let t : TreeProof =
      set_root root
        (TreeProof.create params.tree_rc_arity params.tree_rc_levels bufs params.tree_rc_files 0) in
    let sizes : Sizes t k challenge = record {
      arity_pow = shape.arity_pow;
      arity_big = shape.arity_big;
      leaves_small = shape.leaves_small;
      fresh = refl;
      in_range = in_range;
    } in
    let s =
      climb-split hash t k challenge r sizes shape.file_each shape.one_above shape.some_below
        shape.top_fits trees in
    (s.0, s.1, λ l. refl, s.2 ∙ sym top)
