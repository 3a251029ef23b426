-- ===== src/Commit/TreeProof/Path.antt =====
-- The elements that an inclusion path has, and what they prove of the leaf.
use supra_seal.Prelude.{
  ℕ, zero, suc, ◌+◌, ◌*◌, ◌/◌, ◌%◌, ◌^◌, ◌<◌, ◌≡◌, refl, sym, ◌∙◌, ap, arith, List, [], ◌∷◌, ◌++◌,
  Option, length, size_mod, div-lt_of_mul,
}
use native.Mathlib.Nat.{pow-suc, pow-zero, mod-lt, div-add-mod'}
use supra_seal.Commit.Output.{Node}
use supra_seal.Commit.PathElement.{PathElement, construct}
use supra_seal.Commit.TreeProof.{TreeProof, modify, add_level, set_others}
use supra_seal.Commit.TreeProof.Tree.{insert_at, from, parent, climb, IsTree, top_of}
use supra_seal.Commit.TreeProof.Others.{element, siblings, set_others_lem, insert_at-siblings}

-- the elements for `n` rows, the node being the `y`-th of the row at `base`
abbrev pub elements : ℕ → (ℕ → Option Node) → ℕ → ℕ → ℕ → List PathElement
elements arity nodes zero y base = []
elements arity nodes (suc n) y base =
    element arity (y % arity)
      (siblings (λ a. nodes (base + y / arity * arity + a)) (y % arity) arity)
    ∷ elements arity nodes n (y / arity) (base + arity ^ suc n)

-- From a node of the row, they lead to the top.
pub climb-elements :
    (hash : List Node → Node) (arity : ℕ) (nodes : ℕ → Option Node) (n y base : ℕ)
    → 0 < arity
    → y < arity ^ n
    → IsTree hash arity nodes base n
    → climb hash (elements arity nodes n y base) (nodes (base + y)) ≡ nodes (top_of arity base n)
unfolding climb IsTree top_of
climb-elements hash arity nodes zero y base p q tree = ap nodes (omega (arith, pow-zero arity))
climb-elements hash arity nodes (suc n) y base p q tree =
    let f : ℕ → Option Node = λ a. nodes (base + y / arity * arity + a) in
    let row : insert_at (y % arity) (nodes (base + y)) (siblings f (y % arity) arity)
        ≡ from f 0 arity =
      ap (λ x. insert_at (y % arity) (nodes x) (siblings f (y % arity) arity))
        (omega (arith, div-add-mod' y arity))
      ∙ insert_at-siblings f (y % arity) arity (mod-lt y p) in
    let flip : y / arity * arity ≡ arity * (y / arity) = omega arith in
    let small : y / arity < arity ^ n =
      div-lt_of_mul y (arity ^ n) arity p (omega (arith, pow-suc arity n)) in
    ap (climb hash (elements arity nodes n (y / arity) (base + arity ^ suc n))) (
      ap (parent hash) (row ∙ ap (λ x. from (λ a. nodes (base + x + a)) 0 arity) flip)
      ∙ sym (tree.0 (y / arity) small))
    ∙ climb-elements hash arity nodes n (y / arity) (base + arity ^ suc n) p small tree.1

pub modify-append :
    (f : PathElement → PathElement) (es : List PathElement) (e : PathElement)
    → modify (length es) f (es ++ (e ∷ [])) ≡ es ++ (f e ∷ [])
unfolding modify
modify-append f [] e = refl
modify-append f (x ∷ es) e = ap (λ l. x ∷ l) (modify-append f es e)

pub add_level_lem :
    (l leaf_idx : ℕ) (hash : ℕ → Option Node) (t : TreeProof)
    → l ≡ length t.path
    → leaf_idx < t.arity
    → t.arity < size_mod
    → add_level l leaf_idx hash t ≡ record t {
      path = t.path ++ (element t.arity leaf_idx (siblings hash leaf_idx t.arity) ∷ []);
    }
unfolding add_level
add_level_lem l leaf_idx hash t e p q =
    ap (λ path. record t { path = path })
      (rw e (
        modify-append (set_others hash leaf_idx t.arity 0 0) t.path (construct t.arity leaf_idx)
        ∙ ap (λ e. t.path ++ (e ∷ [])) (set_others_lem hash leaf_idx t.arity p q)))
