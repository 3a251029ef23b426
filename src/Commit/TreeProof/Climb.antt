-- ===== src/Commit/TreeProof/Climb.antt =====
-- The path that `GenInclusionPath` makes is one from the leaf to the root, for a tree in one buffer and
-- for one with a buffer for each child of the root.
use native.Mathlib.Nat.{one-le-pow, mod-eq_of_lt, div-one, div-eq_of_lt, pow-le-pow_right}
use supra_seal.Prelude.{
  ℕ, zero, suc, ◌+◌, ◌-◌, ◌*◌, ◌/◌, ◌%◌, ◌^◌, ◌<◌, ◌≡◌, refl, ◌∙◌, ap, ap₂, arith, List, [], ◌∷◌,
  ◌++◌, Option, length, size_mod, ◌==◌, if◌then◌else◌, ==_true, true, sub64,
}
use supra_seal.Commit.Output.{Node}
use supra_seal.Commit.PathElement.{PathElement}
use supra_seal.Commit.TreeProof.{TreeProof, node_at, tree_paths, last_level, gen_inclusion_path}
use supra_seal.Commit.TreeProof.Tree.{insert_at, parent, climb, IsTree, top_of}
use supra_seal.Commit.TreeProof.Levels.{pow-pow}
use supra_seal.Commit.TreeProof.Path.{elements, climb-elements}
use supra_seal.Commit.TreeProof.Loop.{at_state, leaf_after}
use supra_seal.Commit.TreeProof.Run.{after_loop}

pub climb-append :
    (hash : List Node → Node) (es : List PathElement) (e : PathElement) (leaf : Option Node)
    → climb hash (es ++ (e ∷ [])) leaf
      ≡ parent hash (insert_at e.index (climb hash es leaf) e.hashes)
unfolding climb
climb-append hash [] e leaf = refl
climb-append hash (x ∷ es) e leaf =
    climb-append hash es e (parent hash (insert_at x.index leaf x.hashes))

pub length-elements :
    (arity : ℕ) (nodes : ℕ → Option Node) (n y base : ℕ)
    → length (elements arity nodes n y base) ≡ n
length-elements arity nodes zero y base = refl
length-elements arity nodes (suc n) y base =
    ap suc (length-elements arity nodes n (y / arity) (base + arity ^ suc n))

-- what the theorems below ask of the tree and of the challenge
pub record Sizes (t : TreeProof) (k c : ℕ) : Type 0 where
  pub arity_pow : t.arity ≡ 2 ^ k
  pub arity_big : 0 < k
  pub leaves_small : t.levels * k < 64
  pub fresh : t.path ≡ []
  pub in_range : c < 2 ^ (t.levels * k)

pub factor_small : (n k : ℕ) → 0 < n → n * k < 64 → k < 64
factor_small n k p h = grind arith

pub leaf_small : (n c : ℕ) → n < 64 → c < 2 ^ n → c < size_mod
leaf_small n c h p =
    let q = pow-le-pow_right {n = 2} (omega arith) {i = n} {j = 63} (omega arith) in omega arith

pub leaf_after-first :
    (found : Option Node) (n : ℕ) (leaf : Option Node) → 0 < n → leaf_after found n 0 leaf ≡ found
leaf_after-first found zero leaf h = elim h [ ]
leaf_after-first found (suc n) leaf h = refl

-- The state that the path is made in.
one_buffer_run :
    (t : TreeProof) (k c : ℕ)
    → Sizes t k c
    → t.tree_bufs_len ≡ 1
    → 0 < t.levels
    → top_of t.arity 0 t.levels < size_mod
    → gen_inclusion_path c t
      ≡ at_state t (node_at t.tree_bufs 0 c) (elements t.arity (node_at t.tree_bufs 0) t.levels c 0)
one_buffer_run t k c s one pos top =
    let A : ℕ = t.arity in
    let L : ℕ = t.levels in
    let hk : k < 64 = factor_small L k pos s.leaves_small in
    let hc : c < size_mod = leaf_small (L * k) c s.leaves_small s.in_range in
    let none_after : (t.tree_bufs_len == 1) ≡ true = ==_true t.tree_bufs_len 1 one in
    let fin : (if t.tree_bufs_len == 1 then L else sub64 L 1) ≡ L =
      ap (λ b. if b then L else sub64 L 1) none_after in
    let file : 2 ^ (L * k) / t.tree_bufs_len ≡ 2 ^ (L * k) =
      ap (λ n. 2 ^ (L * k) / n) one ∙ div-one (2 ^ (L * k)) in
    let path : ℕ → ℕ → List PathElement = λ b y. elements A (node_at t.tree_bufs b) L y 0 in
    let buf : c / 2 ^ (L * k) ≡ 0 = div-eq_of_lt s.in_range in
    let place : c % 2 ^ (L * k) ≡ c = mod-eq_of_lt s.in_range in
    after_loop t c k L hk s.arity_pow s.leaves_small (omega arith) fin file s.fresh hc top
    ∙ ap
        (λ b.
          if b
          then at_state t
              (leaf_after (node_at t.tree_bufs (c / 2 ^ (L * k)) (c % 2 ^ (L * k))) L 0 t.leaf)
              (path (c / 2 ^ (L * k)) (c % 2 ^ (L * k)))
          else last_level (tree_paths L (2 ^ k - 1) k c) (top_of A 0 L) (
              at_state t
                (leaf_after (node_at t.tree_bufs (c / 2 ^ (L * k)) (c % 2 ^ (L * k))) L 0 t.leaf)
                (path (c / 2 ^ (L * k)) (c % 2 ^ (L * k)))))
        none_after
    ∙ ap₂ (λ b y. at_state t (leaf_after (node_at t.tree_bufs b y) L 0 t.leaf) (path b y)) buf place
    ∙ ap (λ l. at_state t l (path 0 c)) (leaf_after-first (node_at t.tree_bufs 0 c) L t.leaf pos)

-- For a tree of arity `2 ^ k` in one buffer, whose top stands at a 64-bit index, and a challenge that
-- names one of its leaves, on an empty path: `GenInclusionPath` keeps the root, takes that leaf, and the path that it
-- makes hashes up from the leaf to the node at the top.
pub climb-one_buffer :
    (hash : List Node → Node) (t : TreeProof) (k c : ℕ)
    → Sizes t k c
    → t.tree_bufs_len ≡ 1
    → 0 < t.levels
    → top_of t.arity 0 t.levels < size_mod
    → IsTree hash t.arity (node_at t.tree_bufs 0) 0 t.levels
    → let u : TreeProof = gen_inclusion_path c t in
      (u.root ≡ t.root)
      × (u.leaf ≡ node_at t.tree_bufs 0 c)
      × (climb hash u.path u.leaf ≡ node_at t.tree_bufs 0 (top_of t.arity 0 t.levels))
climb-one_buffer hash t k c s one pos top tree =
    let A : ℕ = t.arity in
    let L : ℕ = t.levels in
    let path : ℕ → ℕ → List PathElement = λ b y. elements A (node_at t.tree_bufs b) L y 0 in
    let run = one_buffer_run t k c s one pos top in
    let first : climb hash (path 0 c) (node_at t.tree_bufs 0 (0 + c))
        ≡ node_at t.tree_bufs 0 (top_of A 0 L) =
      climb-elements hash A (node_at t.tree_bufs 0) L c 0
        (omega (arith, s.arity_pow, one-le-pow k 2 (omega arith)))
        (rw (s.arity_pow, pow-pow k L) s.in_range) tree in
    (
      ap (λ u. u.root) run,
      ap (λ u. u.leaf) run,
      ap (λ u. climb hash u.path u.leaf) run
          ∙ ap (λ y. climb hash (path 0 c) (node_at t.tree_bufs 0 y)) (omega arith)
          ∙ first,
    )
