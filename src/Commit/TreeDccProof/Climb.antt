-- ===== src/Commit/TreeDccProof/Climb.antt =====
-- The path leads from the leaf to the root, for every challenge.
use native.Mathlib.Nat.{zero-add, mul-one}
use mathlib.Core.List.{append_assoc, append-nil}
use supra_seal.Prelude.{
  ℕ, zero, suc, ◌+◌, ◌/◌, ◌%◌, ◌^◌, ◌≤◌, ◌<◌, ◌≡◌, refl, sym, ◌∙◌, ap, arith, Option, none, some,
  List, [], ◌∷◌, ◌++◌, length, get_elem?, get_or, length-append, leb, true, if◌then◌else◌,
}
use supra_seal.Commit.Output.{Node}
use supra_seal.Commit.PathElement.{PathElement, construct, set_hash}
use supra_seal.Commit.TreeProof.{
  TreeProof, create, set_root, set_leaf, get_tree_paths, modify, log2, log2_loop,
}
use supra_seal.Commit.TreeProof.Tree.{parent, climb, insert_at}
use supra_seal.Commit.TreeProof.Others.{element}
use supra_seal.Commit.TreeProof.Path.{modify-append}
use supra_seal.Commit.TreeProof.Levels.{get_or-tree_paths}
use supra_seal.Commit.TreeDccProof.Table.{cc_tree_d_node_values}
use supra_seal.Commit.TreeDccProof.{create_cc, cc_loop, gen_cc_path}

-- A row of two equal nodes.
both : (i : ℕ) (x : Option Node) → insert_at i x (x ∷ []) ≡ x ∷ x ∷ []
both zero x = refl
both (suc zero) x = refl
both (suc (suc i)) x = refl

abbrev cc_elements : List ℕ → List Node → ℕ → ℕ → List PathElement
cc_elements indices values zero l = []
cc_elements indices values (suc n) l =
    element 2 (get_or indices l 0) (get_elem? values l ∷ []) ∷ cc_elements indices values n (suc l)

one_hash :
    (arity index : ℕ) (v : Option Node)
    → arity ≡ 2
    → set_hash 0 v (construct arity index) ≡ element 2 index (v ∷ [])
unfolding set_hash construct
one_hash arity index v e = ap (λ a. set_hash 0 v (construct a index)) e

cc_loop_lem :
    (indices : List ℕ) (values : List Node) (n l : ℕ) (t : TreeProof)
    → t.arity ≡ 2
    → l ≡ length t.path
    → cc_loop indices values n l t ≡ record t { path = t.path ++ cc_elements indices values n l }
unfolding cc_loop
cc_loop_lem indices values zero l t e h = ap (λ p. record t { path = p }) (sym (append-nil t.path))
cc_loop_lem indices values (suc n) l t e h =
    let here : PathElement = element 2 (get_or indices l 0) (get_elem? values l ∷ []) in
    let pushed : modify l (set_hash 0 (get_elem? values l))
          (t.path ++ (construct t.arity (get_or indices l 0) ∷ []))
        ≡ t.path ++ (here ∷ []) =
      ap
        (λ k.
          modify k (set_hash 0 (get_elem? values l))
            (t.path ++ (construct t.arity (get_or indices l 0) ∷ [])))
        h
      ∙ modify-append (set_hash 0 (get_elem? values l)) t.path
          (construct t.arity (get_or indices l 0))
      ∙ ap (λ x. t.path ++ (x ∷ []))
          (one_hash t.arity (get_or indices l 0) (get_elem? values l) e) in
    ap (λ p. cc_loop indices values n (suc l) (record t { path = p })) pushed
    ∙ cc_loop_lem indices values n (suc l) (record t { path = t.path ++ (here ∷ []) }) e
        (omega (arith, length-append t.path (here ∷ [])))
    ∙ ap (λ p. record t { path = p })
        (append_assoc t.path (here ∷ []) (cc_elements indices values n (suc l)))

climb-cc_elements :
    (hash : List Node → Node) (indices : List ℕ) (values : List Node) (n l : ℕ)
    → ((i : ℕ)
        → i < l + n
        → get_elem? values (suc i) ≡ parent hash (get_elem? values i ∷ get_elem? values i ∷ []))
    → climb hash (cc_elements indices values n l) (get_elem? values l) ≡ get_elem? values (l + n)
unfolding climb
climb-cc_elements hash indices values zero l rows = ap (get_elem? values) (omega arith)
climb-cc_elements hash indices values (suc n) l rows =
    ap (λ r. climb hash (cc_elements indices values n (suc l)) (parent hash r))
      (both (get_or indices l 0) (get_elem? values l))
    ∙ ap (climb hash (cc_elements indices values n (suc l))) (sym (rows l (omega arith)))
    ∙ climb-cc_elements hash indices values n (suc l) (λ i h. rows i (omega arith))
    ∙ ap (get_elem? values) (omega arith)

cc_elements-at :
    (indices : List ℕ) (values : List Node) (n l i : ℕ)
    → i < n
    → get_elem? (cc_elements indices values n l) i
      ≡ some (element 2 (get_or indices (l + i) 0) (get_elem? values (l + i) ∷ []))
cc_elements-at indices values zero l i h = absurd (omega arith)
cc_elements-at indices values (suc n) l zero h =
    ap (λ j. some (element 2 (get_or indices j 0) (get_elem? values j ∷ []))) (omega arith)
cc_elements-at indices values (suc n) l (suc i) h =
    let e : suc l + i ≡ l + suc i = omega arith in
    cc_elements-at indices values n (suc l) i (omega arith)
    ∙ ap (λ j. some (element 2 (get_or indices j 0) (get_elem? values j ∷ []))) e

-- With at most 30 levels of arity 2, the rows that the table holds, and a hash for which each of these rows
-- of the table is the hash of the row before it with itself: the constructor passes its assertion, with
-- the leaf and the root of the table. For every challenge the path that `GenInclusionPath` makes with the
-- table has for each level the place of the challenge's ancestor among its siblings and the node of
-- the row, and it hashes up from the leaf to the root.
pub climb-cc :
    (hash : List Node → Node) (levels challenge : ℕ)
    → levels ≤ 30
    → ((i : ℕ)
        → i < levels
        → get_elem? cc_tree_d_node_values (suc i)
          ≡ parent hash
              (get_elem? cc_tree_d_node_values i ∷ get_elem? cc_tree_d_node_values i ∷ []))
    → (t : TreeProof) × (create_cc 2 levels ≡ some t)
      × (t.leaf ≡ get_elem? cc_tree_d_node_values 0)
      × (t.root ≡ get_elem? cc_tree_d_node_values levels)
      × (let u : TreeProof = gen_cc_path challenge cc_tree_d_node_values t in
          ((l : ℕ)
            → l < levels
            → get_elem? u.path l
              ≡ some (element 2 (challenge / 2 ^ l % 2) (get_elem? cc_tree_d_node_values l ∷ [])))
          × (climb hash u.path t.leaf ≡ t.root))
unfolding create_cc gen_cc_path create set_root set_leaf get_tree_paths log2 log2_loop
climb-cc hash levels challenge h rows =
    let values : List Node = cc_tree_d_node_values in
    let t : TreeProof =
      set_leaf (get_elem? values 0) (set_root (get_elem? values levels) (create 2 levels [] 0 0)) in
    let small : leb levels 31 ≡ true = ground arith in
    let indices : List ℕ = get_tree_paths t challenge in
    let run : gen_cc_path challenge values t
        ≡ record t { path = cc_elements indices values levels 0 } =
      cc_loop_lem indices values levels 0 t refl refl in
    (
      t,
      ap (λ b. if b then some t else none) small,
      refl,
      refl,
      (
        (λ l q.
            ap (λ u. get_elem? u.path l) run
            ∙ cc_elements-at indices values levels 0 l q
            ∙ ap (λ j. some (element 2 (get_or indices j 0) (get_elem? values j ∷ []))) (zero-add l)
            ∙ ap (λ j. some (element 2 j (get_elem? values l ∷ [])))
                (get_or-tree_paths 1 levels l challenge q
                  ∙ ap (λ e. challenge / 2 ^ e % 2) (mul-one l))),
        ap (λ u. climb hash u.path t.leaf) run
            ∙ climb-cc_elements hash indices values levels 0 (λ i q. rows i (omega arith))
            ∙ ap (get_elem? values) (zero-add levels),
      ),
    )
