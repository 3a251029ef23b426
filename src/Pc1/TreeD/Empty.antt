-- ===== src/Pc1/TreeD/Empty.antt =====
-- `BuildCCTree` of pc1/tree_d.hpp writes the tree of a sector of zeros.
use native.Mathlib.Nat.{pow-suc, one-le-pow, pow-le-pow_right}
use supra_seal.Prelude.{
  ℕ, zero, suc, ◌+◌, ◌*◌, ◌^◌, ◌≤◌, ◌<◌, ◌≡◌, refl, sym, ◌∙◌, ap, ap₂, arith, some, true, Option,
  List, length, get_elem?, bind_some, replicate, set, [], ◌∷◌, sub64, length-replicate, length-set,
  get_elem?-set_self, get_elem?-set_ne,
}
use supra_seal.Commit.Output.{Node}
use supra_seal.Commit.TreeProof.Tree.{parent}
use supra_seal.Pc1.Rows.{output, start}
use supra_seal.Pc1.Rows.Spec.{levels_above, Stored}
use supra_seal.Pc1.Rows.Cell.{get_elem?-some}
use supra_seal.Pc1.Rows.Tree.{Stored-agree, levels_above-agree}
use supra_seal.Pc1.TreeD.{files, zero_node, cc_table, build_cc_tree, build_tree}
use supra_seal.Pc1.TreeD.Build.{copied-Stored, above_two}
use supra_seal.Pc1.TreeD.Fill.{Doubling, fill_loop-Stored}

-- One more value of a table.
module _ (hash : List Node → Node) (i : ℕ) (v : Node) (cc made : List Node)
    (e : get_elem? cc i ≡ some v) (room : suc i < length cc)
    (same : (j : ℕ)
      → j ≤ suc i
      → get_elem? made j ≡ get_elem? (set cc (suc i) (hash (v ∷ v ∷ []))) j) where
  kept : (j : ℕ) → j ≤ i → get_elem? made j ≡ get_elem? cc j
  kept j q =
      same j (omega arith)
      ∙ get_elem?-set_ne cc {i = suc i} {j = j} (hash (v ∷ v ∷ [])) (λ x. absurd (omega (arith, x)))

  doubled : (n : ℕ) → Doubling hash made (suc i) n → Doubling hash made i (suc n)
  unfolding parent
  doubled n twice zero q =
      ap (λ j. get_elem? made (suc j)) (omega arith)
      ∙ same (suc i) (omega arith)
      ∙ get_elem?-set_self cc (suc i) (hash (v ∷ v ∷ [])) room
      ∙ sym (
          ap (λ x. parent hash (x ∷ x ∷ []))
            (ap (get_elem? made) (omega arith) ∙ kept i (omega arith) ∙ e))
  doubled n twice (suc k) q =
      ap (λ j. get_elem? made (suc j)) (omega arith)
      ∙ twice k (omega arith)
      ∙ ap (λ j. parent hash (get_elem? made j ∷ get_elem? made j ∷ [])) (omega arith)

-- The table that `BuildCCTree` makes, from the value at `i` on.
cc_table-Doubling :
    (hash : List Node → Node) (n i : ℕ) (v : Node) (cc : List Node)
    → get_elem? cc i ≡ some v
    → suc i + n ≤ length cc
    → ((j : ℕ) → j ≤ i → get_elem? (cc_table hash n (suc i) v v cc) j ≡ get_elem? cc j)
      × Doubling hash (cc_table hash n (suc i) v v cc) i n
unfolding cc_table
cc_table-Doubling hash zero i v cc e h = (λ j q. refl, λ k q. absurd (omega arith))
cc_table-Doubling hash (suc n) i v cc e h =
    let v' : Node = hash (v ∷ v ∷ []) in
    let (same, twice) =
      cc_table-Doubling hash n (suc i) v' (set cc (suc i) v')
        (get_elem?-set_self cc (suc i) v' (omega arith))
        (omega (arith, length-set cc (suc i) v')) in
    let made : List Node = cc_table hash n (suc (suc i)) v' v' (set cc (suc i) v') in
    (
      kept hash i v cc made e (omega arith) same,
      doubled hash i v cc made e (omega arith) same n twice,
    )

length-cc_table :
    (hash : List Node → Node) (n i : ℕ) (a b : Node) (cc : List Node)
    → length (cc_table hash n i a b cc) ≡ length cc
unfolding cc_table
length-cc_table hash zero i a b cc = refl
length-cc_table hash (suc n) i a b cc =
    length-cc_table hash n (suc i) _ _ (set cc i (hash (a ∷ b ∷ [])))
    ∙ length-set cc i (hash (a ∷ b ∷ []))

get_elem?-replicate : (n i : ℕ) (v : Node) → i < n → get_elem? (replicate n v) i ≡ some v
get_elem?-replicate zero i v h = absurd (omega arith)
get_elem?-replicate (suc n) zero v h = refl
get_elem?-replicate (suc n) (suc i) v h = get_elem?-replicate n i v (omega arith)

-- The file and the root of `BuildCCTree`.
pub build_cc_tree-Stored :
    (hash : List Node → Node) (n : ℕ)
    → n < 63
    → (tree : List Node) × (root : Node) × (build_cc_tree hash n (2 ^ n) ≡ some (tree, root))
      × (length tree + 1 ≡ 2 ^ suc n)
      × (levels_above hash 2 n (λ i. some zero_node) 0 ≡ some root)
      × Stored hash 2 (get_elem? tree) (λ i. some zero_node) 0 n
unfolding build_cc_tree
build_cc_tree-Stored hash n small =
    let zeros : List Node = replicate (n + 1) zero_node in
    let cc : List Node = cc_table hash n 1 zero_node zero_node zeros in
    let first : get_elem? zeros 0 ≡ some zero_node =
      get_elem?-replicate (n + 1) 0 zero_node (omega arith) in
    let (same, twice) =
      cc_table-Doubling hash n 0 zero_node zeros first
        (omega (arith, length-replicate (n + 1) zero_node)) in
    let big = pow-le-pow_right {n = 2} (omega arith) {i = n} {j = 62} (omega arith) in
    let size : ℕ = sub64 (2 * 2 ^ n) 1 in
    let len : length (replicate size zero_node) ≡ size = length-replicate size zero_node in
    let pos : 1 ≤ 2 ^ n = one-le-pow n 2 (omega arith) in
    let (m, e, k, stored, top) =
      fill_loop-Stored hash n 65 0 cc zero_node (start output) (files [] size) (omega arith)
        (same 0 (omega arith) ∙ first) twice (omega (arith, len, above_two n)) in
    let (root, at_root) = get_elem?-some cc n (
      omega (
        arith,
        length-cc_table hash n 1 zero_node zero_node zeros,
        length-replicate (n + 1) zero_node,
      )) in
    (
      m output,
      root,
      bind_some _ m _ e ∙ bind_some _ root _ at_root,
      omega (arith, k.lengths output, len, pow-suc 2 n),
      top ∙ ap (get_elem? cc) (omega arith) ∙ at_root,
      stored,
    )

same_some : {A : Type 0} {x y : A} → ◌≡◌ {A = Option A} (some x) (some y) → x ≡ y
same_some e = cc

list_ext :
    {A : Type 0} (xs ys : List A)
    → length xs ≡ length ys
    → ((i : ℕ) → i < length xs → get_elem? xs i ≡ get_elem? ys i)
    → xs ≡ ys
list_ext [] [] e h = refl
list_ext [] (y ∷ ys) e h = absurd (omega arith)
list_ext (x ∷ xs) [] e h = absurd (omega arith)
list_ext (x ∷ xs) (y ∷ ys) e h =
    ap₂ (λ a as'. a ∷ as') (same_some (h 0 (omega arith)))
      (list_ext xs ys (omega (arith, e)) (λ i q. h (suc i) (omega arith)))

-- For 2 ^ `n` nodes, `n` < 63, `BuildCCTree` ends, and its file and its root are those that `BuildTree`
-- makes with a copy of a file of zeros.
pub build_cc_tree-zeros :
    (hash : List Node → Node) (n : ℕ)
    → n < 63
    → (r : List Node × Node) × (build_cc_tree hash n (2 ^ n) ≡ some r)
      × (build_tree hash (replicate (2 ^ n) zero_node) (2 ^ n) true ≡ some r)
build_cc_tree-zeros hash n small =
    let zeros : List Node = replicate (2 ^ n) zero_node in
    let (tree, root, e, len, top, stored) = build_cc_tree-Stored hash n small in
    let (tree', root', e', len', top', stored') =
      copied-Stored hash n zeros (omega arith)
        (omega (arith, length-replicate (2 ^ n) zero_node)) in
    let same_row : (i : ℕ) → i < 2 ^ n → get_elem? zeros i ≡ some zero_node =
      λ i h. get_elem?-replicate (2 ^ n) i zero_node h in
    let same_tree : tree' ≡ tree = list_ext tree' tree (omega (arith, len, len')) (λ i h.
      ap (get_elem? tree') (omega arith)
      ∙ Stored-agree hash 2 _ _ _ _ 0 n same_row stored' stored i
          (omega (arith, len', pow-suc 2 n, above_two n))
      ∙ ap (get_elem? tree) (omega arith)) in
    let same_root : root' ≡ root =
      same_some (sym top' ∙ levels_above-agree hash 2 _ _ n same_row ∙ top) in
    ((tree, root), e, e' ∙ ap₂ (λ t r. some (t, r)) same_tree same_root)
