-- ===== src/Pc1/TreeD/Proof.antt =====
-- The tree that `TreeD` builds is the one that `TreeProof` proves inclusion in.
use native.Mathlib.Nat.{pow-suc, pow-le-pow_right}
use supra_seal.Prelude.{
  ℕ, zero, suc, ◌+◌, ◌*◌, ◌^◌, ◌≤◌, ◌<◌, ◌≡◌, refl, subst, ◌∙◌, ap, arith, some, true, List, [],
  ◌∷◌, length, get_elem?,
}
use supra_seal.Commit.Output.{Node}
use supra_seal.Commit.TreeProof.{TreeProof, create, set_root, node_at, gen_inclusion_path}
use supra_seal.Commit.TreeProof.Tree.{climb, top_of}
use supra_seal.Commit.TreeProof.Climb.{Sizes, climb-one_buffer}
use supra_seal.Pc1.Rows.Tree.{Stored-IsTree, Stored-row}
use supra_seal.Pc1.TreeD.{build_tree}
use supra_seal.Pc1.TreeD.Build.{copied-Stored}

top_two : (base n : ℕ) → top_of 2 base n + 2 ≡ base + 2 ^ suc n
unfolding top_of
top_two base zero = omega arith
top_two base (suc n) = omega (arith, pow-suc 2 (suc n), top_two (base + 2 ^ suc n) n)

-- For a sector of `2 ^ n` nodes with 0 < `n` < 64, a file of data that is at least as long, and a challenge that names
-- one of its nodes: `BuildTree`, told to copy the data, ends, and the inclusion path that
-- `GenInclusionPath` makes in the file that it has written, with the root that it returned, takes the
-- challenged node of the data as its leaf and hashes up from it to that root.
pub build_tree-climb :
    (hash : List Node → Node) (n c : ℕ) (contents : List Node)
    → 0 < n
    → n < 64
    → 2 ^ n ≤ length contents
    → c < 2 ^ n
    → (tree : List Node) × (root : Node) × (build_tree hash contents (2 ^ n) true
        ≡ some (tree, root))
      × (let u : TreeProof =
            gen_inclusion_path c (set_root (some root) (create 2 n (tree ∷ []) 1 0)) in
          (u.leaf ≡ get_elem? contents c)
          × (u.root ≡ some root)
          × (climb hash u.path u.leaf ≡ some root))
unfolding create set_root node_at
build_tree-climb hash n c contents pos small enough h =
    let (tree, root, e, len, top, stored) = copied-Stored hash n contents small enough in
    let (is_tree, at_top) = Stored-IsTree hash 2 (get_elem? tree) (get_elem? contents) 0 n stored in
    let t : TreeProof = set_root (some root) (create 2 n (tree ∷ []) 1 0) in
    let same_width : n ≡ n * 1 = omega arith in
    let at_c : c ≡ 0 + c = omega arith in
    let sizes : Sizes t 1 c = record {
      arity_pow = omega arith;
      arity_big = omega arith;
      leaves_small = omega arith;
      fresh = refl;
      in_range = subst (λ k. c < 2 ^ k) same_width h;
    } in
    let big = pow-le-pow_right {n = 2} (omega arith) {i = suc n} {j = 64} (omega arith) in
    let (same_root, leaf, path) =
      climb-one_buffer hash t 1 c sizes refl pos (omega (arith, big, top_two 0 n)) is_tree in
    (
      tree,
      root,
      e,
      (
        leaf
            ∙ ap (get_elem? tree) at_c
            ∙ Stored-row hash 2 (get_elem? tree) (get_elem? contents) 0 n stored c h,
        same_root,
        path ∙ at_top ∙ top,
      ),
    )
