-- ===== src/Commit/TreeProof/First/Whole.antt =====
-- The whole path in a tree in one buffer whose two lowest rows above the leaves were discarded.
use native.Mathlib.Nat.{one-le-pow, mod-eq_of_lt, div-eq_of_lt, div-one, pow-le-pow_right}
use supra_seal.Prelude.{
  ℕ, ◌+◌, ◌-◌, ◌*◌, ◌/◌, ◌%◌, ◌^◌, ◌<◌, ◌≡◌, refl, sym, ◌∙◌, ap, ap₂, arith, true, List, [], ◌∷◌,
  ◌++◌, Option, some, length, get_elem?, size_mod, sub64, not64, ◌==◌, if◌then◌else◌, ==_true,
  ==_false, if_on, if_off, subst,
}
use supra_seal.Commit.Output.{Node}
use supra_seal.Commit.PathElement.{PathElement}
use supra_seal.Commit.TreeProof.{
  TreeProof, node_at, get_tree_paths, tree_paths, gen_from, log2, level_loop, last_level, shift,
}
use supra_seal.Commit.TreeProof.Tree.{insert_at, from, parent, climb, IsTree, top_of}
use supra_seal.Commit.TreeProof.Levels.{
  index-bound, pow-pow, log2-pow, sub64-one, get_or-tree_paths,
}
use supra_seal.Commit.TreeProof.Path.{elements, climb-elements}
use supra_seal.Commit.TreeProof.Loop.{at_state, leaf_after-suc, level_loop_lem}
use supra_seal.Commit.TreeProof.Climb.{leaf_small, factor_small}
use supra_seal.Commit.TreeProof.First.{hash_two, gen_path}
use supra_seal.Commit.TreeProof.First.Places.{Discarded, indices_lem}
use supra_seal.Commit.TreeProof.First.Climb.{perform-three, three_levels, climb-three_levels}

climb-both :
    (hash : List Node → Node) (es fs : List PathElement) (leaf : Option Node)
    → climb hash (es ++ fs) leaf ≡ climb hash fs (climb hash es leaf)
unfolding climb
climb-both hash [] fs leaf = refl
climb-both hash (e ∷ es) fs leaf =
    climb-both hash es fs (parent hash (insert_at e.index leaf e.hashes))

-- What the loop adds to a path of three elements.
loop_lem :
    (t : TreeProof) (c k n : ℕ) (leaf : Option Node) (path : List PathElement)
    → k < 64
    → t.arity ≡ 2 ^ k
    → 3 + n ≡ t.levels
    → c < size_mod
    → length path ≡ 3
    → top_of t.arity 0 n < size_mod
    → let r =
        level_loop c
          (tree_paths t.levels (2 ^ k - 1) k c)
          (2 ^ (t.levels * k) - 1)
          k
          (not64 (2 ^ k - 1))
          0
          n
          3
          0
          (t.arity ^ n)
          (at_state t leaf path) in
      r.0
      ≡ at_state t leaf (
          path
          ++ elements t.arity (node_at t.tree_bufs 0) n (c % 2 ^ (t.levels * k) / 2 ^ (3 * k)) 0)
loop_lem t c k n leaf path hk e en hc three top =
    let found = node_at t.tree_bufs 0 (0 + c % 2 ^ (t.levels * k) / 2 ^ (3 * k)) in
    ap (λ r. r.0)
      (level_loop_lem t c k 0 t.levels (tree_paths t.levels (2 ^ k - 1) k c) hk e hc
        (λ l h. get_or-tree_paths k t.levels l c h) n 3 0 leaf path en (sym three) top)
    ∙ ap
        (λ l. at_state t l (
          path
          ++ elements t.arity (node_at t.tree_bufs 0) n (c % 2 ^ (t.levels * k) / 2 ^ (3 * k)) 0))
        (leaf_after-suc found n 2 leaf)

-- `gen_from` as a function of the numbers that it computes
abbrev body : ℕ → TreeProof → List ℕ → ℕ → ℕ → ℕ → ℕ → ℕ → ℕ → TreeProof
body c u is one lg file finish sh start =
    let (v, top) =
      level_loop c is (sub64 file 1) lg (not64 one) (c / 2 ^ sh) (finish - 3) 3 0 start u in
    if u.tree_bufs_len == 1 then v else last_level is top v

body_lem :
    (c : ℕ) (u : TreeProof) (is : List ℕ) (start : ℕ)
    → gen_from c 3 start is u
      ≡ body c u is
          (sub64 u.arity 1)
          (log2 u.arity)
          (2 ^ (u.levels * log2 u.arity) / u.tree_bufs_len)
          (if u.tree_bufs_len == 1 then u.levels else sub64 u.levels 1)
          (log2 (2 ^ (u.levels * log2 u.arity) / u.tree_bufs_len))
          start
unfolding gen_from shift
body_lem c u is start = refl

gen_from_lem :
    (u : TreeProof) (c k n : ℕ) (is : List ℕ)
    → k < 64
    → u.arity ≡ 2 ^ k
    → u.tree_bufs_len ≡ 1
    → 3 + n ≡ u.levels
    → u.levels * k < 64
    → u.levels < 64
    → u.discard_rows + 1 ≡ 3
    → c < 2 ^ (u.levels * k)
    → gen_from c 3 (2 ^ (sub64 u.levels (u.discard_rows + 1) * log2 u.arity) / u.tree_bufs_len) is u
      ≡ (level_loop c is (2 ^ (u.levels * k) - 1) k (not64 (2 ^ k - 1)) 0 n 3 0 (u.arity ^ n) u).0
gen_from_lem u c k n is hk e one en small lv d3 in_range =
    let L : ℕ = u.levels in
    let p = one-le-pow k 2 (omega arith) in
    let p2 = pow-le-pow_right {n = 2} (omega arith) {i = k} {j = 63} (omega arith) in
    let q = one-le-pow (L * k) 2 (omega arith) in
    let q2 = pow-le-pow_right {n = 2} (omega arith) {i = L * k} {j = 63} (omega arith) in
    let lg : log2 u.arity ≡ k = ap log2 e ∙ log2-pow k hk in
    let mask : sub64 u.arity 1 ≡ 2 ^ k - 1 =
      ap (λ a. sub64 a 1) e ∙ sub64-one (2 ^ k) p (omega arith) in
    let file : 2 ^ (L * log2 u.arity) / u.tree_bufs_len ≡ 2 ^ (L * k) =
      ap₂ (λ (l b : ℕ). 2 ^ (L * l) / b) lg one ∙ div-one (2 ^ (L * k)) in
    let rows : sub64 L (u.discard_rows + 1) ≡ n = omega (arith, d3, en) in
    let start : 2 ^ (sub64 L (u.discard_rows + 1) * log2 u.arity) / u.tree_bufs_len ≡ u.arity ^ n =
      ap₂ (λ (m l : ℕ). 2 ^ (m * l) / u.tree_bufs_len) rows lg
      ∙ ap (λ (b : ℕ). 2 ^ (n * k) / b) one
      ∙ div-one (2 ^ (n * k))
      ∙ sym (ap (λ (a : ℕ). a ^ n) e ∙ pow-pow k n) in
    let is_one : (u.tree_bufs_len == 1) ≡ true = ==_true u.tree_bufs_len 1 one in
    let left : L - 3 ≡ n = omega (arith, en) in
    body_lem c u is (2 ^ (sub64 L (u.discard_rows + 1) * log2 u.arity) / u.tree_bufs_len)
    ∙ ap₂
        (λ m l.
          body c u is m l (2 ^ (L * log2 u.arity) / u.tree_bufs_len)
            (if u.tree_bufs_len == 1 then L else sub64 L 1)
            (log2 (2 ^ (L * log2 u.arity) / u.tree_bufs_len))
            (2 ^ (sub64 L (u.discard_rows + 1) * log2 u.arity) / u.tree_bufs_len))
        mask lg
    ∙ ap₂
        (λ f s.
          body c u is (2 ^ k - 1) k f (if u.tree_bufs_len == 1 then L else sub64 L 1) (log2 f) s)
        file start
    ∙ ap₂ (λ f s. body c u is (2 ^ k - 1) k (2 ^ (L * k)) f s (u.arity ^ n))
        (if_on L (sub64 L 1) is_one) (log2-pow (L * k) small)
    ∙ if_on _ _ is_one
    ∙ ap₂ (λ m b. (level_loop c is m k (not64 (2 ^ k - 1)) b (L - 3) 3 0 (u.arity ^ n) u).0)
        (sub64-one (2 ^ (L * k)) q (omega arith)) (div-eq_of_lt in_range)
    ∙ ap (λ m. (level_loop c is (2 ^ (L * k) - 1) k (not64 (2 ^ k - 1)) 0 m 3 0 (u.arity ^ n) u).0)
        left

-- For a tree in one buffer, of arity `2 ^ k` and more than three levels, whose two rows above the
-- leaves are not stored, the top of which stands at a 64-bit index, a challenge that names one of its
-- leaves, and the leaves around it, whose hash stands in the lowest row that is stored:
-- `GenInclusionPath` keeps the root, takes the challenge's leaf, and its path hashes up from there to
-- the node at the top.
pub climb-Discarded :
    (hash : List Node → Node) (t : TreeProof) (fl : List Node) (k c : ℕ)
    → Discarded t k 3
    → t.tree_bufs_len ≡ 1
    → 3 < t.levels
    → t.levels * k < 64
    → c < 2 ^ (t.levels * k)
    → top_of t.arity 0 (t.levels - 3) < size_mod
    → IsTree hash t.arity (node_at t.tree_bufs 0) 0 (t.levels - 3)
    → node_at t.tree_bufs 0 (c / t.arity ^ 3)
      ≡ parent hash (from (hash_two hash t.arity fl) 0 t.arity)
    → let u = gen_path hash c (some fl) t in
      (u.root ≡ t.root)
      × (u.leaf ≡ get_elem? fl (c % t.arity ^ 3))
      × (climb hash u.path u.leaf ≡ node_at t.tree_bufs 0 (top_of t.arity 0 (t.levels - 3)))
unfolding gen_path
climb-Discarded hash t fl k c d one more small in_range top tree base =
    let L : ℕ = t.levels in
    let n : ℕ = L - 3 in
    let en : 3 + n ≡ L = omega arith in
    let h : c < size_mod = leaf_small (L * k) c small in_range in
    let hk : k < 64 = factor_small L k (omega arith) small in
    let lv : L < 64 = factor_small k L d.arity_big (omega arith) in
    let w : TreeProof = three_levels hash t fl k c d h in
    let up : ℕ = c % 2 ^ (L * k) / 2 ^ (3 * k) in
    let found = climb-three_levels hash t fl k c d h in
    let three = perform-three hash t fl k c d h in
    let rest : List PathElement = elements t.arity (node_at t.tree_bufs 0) n up 0 in
    let next = λ (v : TreeProof).
      gen_from c 3 (2 ^ (sub64 L (t.discard_rows + 1) * log2 t.arity) / t.tree_bufs_len)
        (get_tree_paths t c) v in
    let run : gen_path hash c (some fl) t ≡ record w { path = w.path ++ rest } =
      ap (λ r. if r.0 then r.1 else next (r.1)) three
      ∙ if_off _ _ (==_false L 3 (λ e. omega (arith, e)))
      ∙ gen_from_lem w c k n (get_tree_paths t c) hk d.arity_pow one en small lv d.discarded
          in_range
      ∙ ap
          (λ is.
            (level_loop c is (2 ^ (L * k) - 1) k (not64 (2 ^ k - 1)) 0 n 3 0 (t.arity ^ n) w).0)
          (indices_lem t k 3 c d h)
      ∙ loop_lem t c k n w.leaf w.path hk d.arity_pow en h refl top in
    let cube : t.arity ^ 3 ≡ 2 ^ (3 * k) = ap (λ (a : ℕ). a ^ 3) d.arity_pow ∙ pow-pow k 3 in
    let at : up ≡ c / t.arity ^ 3 = ap₂ (λ (x y : ℕ). x / y) (mod-eq_of_lt in_range) (sym cube) in
    let low : up < t.arity ^ n =
      subst (λ a. up < a ^ n) (sym d.arity_pow)
        (subst (λ m. c % 2 ^ (m * k) / 2 ^ (3 * k) < (2 ^ k) ^ n) en (index-bound k n 3 c)) in
    let to_base : climb hash w.path w.leaf ≡ node_at t.tree_bufs 0 (0 + up) =
      ap (λ r. climb hash (r.1).path (r.1).leaf) (sym three)
      ∙ found.4
      ∙ sym base
      ∙ ap (node_at t.tree_bufs 0) (omega (arith, at)) in
    (
      ap (λ v. v.root) run,
      ap (λ v. v.leaf) run ∙ ap (λ r. (r.1).leaf) (sym three) ∙ found.2,
      ap (λ v. climb hash v.path v.leaf) run
          ∙ climb-both hash w.path rest w.leaf
          ∙ ap (climb hash rest) to_base
          ∙ climb-elements hash t.arity (node_at t.tree_bufs 0) n up 0
              (omega (arith, d.arity_pow, one-le-pow k 2 (omega arith))) low tree,
    )
