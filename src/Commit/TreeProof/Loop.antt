-- ===== src/Commit/TreeProof/Loop.antt =====
-- The loop of `GenInclusionPath` over the levels of one buffer.
use mathlib.Core.List.{append_assoc, append-nil}
use native.Mathlib.Nat.{
  pow-suc, one-le-pow, mod-lt, pow-le-pow_right, div-add-mod', mul-div_cancel, div-mul-le_self,
}
use supra_seal.Prelude.{
  ℕ, zero, suc, ◌+◌, ◌-◌, ◌*◌, ◌/◌, ◌%◌, ◌^◌, ◌<◌, ◌≤◌, ◌≡◌, refl, sym, ◌∙◌, ap, ap₂, subst, arith,
  List, [], ◌∷◌, ◌++◌, Option, length, get_or, add64, size_mod, not64, bit_and-low, bit_and-high,
  ◌==◌, if◌then◌else◌, length-append,
}
use supra_seal.Commit.Output.{Node}
use supra_seal.Commit.PathElement.{PathElement}
use supra_seal.Commit.TreeProof.{
  TreeProof, node_at, shift, start_of, add_level, level_loop, set_leaf,
}
use supra_seal.Commit.TreeProof.Tree.{top_of}
use supra_seal.Commit.TreeProof.Others.{element, siblings}
use supra_seal.Commit.TreeProof.Levels.{index-mod, index-bound, index-suc}
use supra_seal.Commit.TreeProof.Path.{elements, add_level_lem}

-- the state that the loop has reached
abbrev pub at_state : TreeProof → Option Node → List PathElement → TreeProof
at_state t leaf path = record t { leaf = leaf; path = path }

start_of_lem :
    (c f k l base : ℕ)
    → k ≤ 64
    → c < size_mod
    → base + c % 2 ^ f / 2 ^ (l * k) < size_mod
    → start_of c (2 ^ f - 1) k (not64 (2 ^ k - 1)) l base
      ≡ base + c % 2 ^ f / 2 ^ (l * k) / 2 ^ k * 2 ^ k
unfolding start_of shift
start_of_lem c f k l base h p q =
    let y : ℕ = c % 2 ^ f / 2 ^ (l * k) in
    let e = bit_and-high k y h (omega arith) in
    let le = div-mul-le_self y (2 ^ k) in rw (bit_and-low f c, e) (omega arith)

pub le-top_of : (arity n base : ℕ) → base ≤ top_of arity base n
unfolding top_of
le-top_of arity zero base = omega arith
le-top_of arity (suc n) base = omega (arith, le-top_of arity n (base + arity ^ suc n))

-- the leaf after the rows from level `l` on
abbrev pub leaf_after : Option Node → ℕ → ℕ → Option Node → Option Node
leaf_after found zero l leaf = leaf
leaf_after found (suc n) l leaf = if l == 0 then found else leaf

pub leaf_after-suc :
    (found : Option Node) (n l : ℕ) (leaf : Option Node) → leaf_after found n (suc l) leaf ≡ leaf
leaf_after-suc found zero l leaf = refl
leaf_after-suc found (suc n) l leaf = ground arith

module _ (t : TreeProof) (c k buf r : ℕ) (indices : List ℕ) (small_k : k < 64) (e : t.arity ≡ 2 ^ k)
    (small_c : c < size_mod)
    (read : (l : ℕ) → l < r → get_or indices l 0 ≡ c / 2 ^ (l * k) % 2 ^ k) where
  abbrev nodes : ℕ → Option Node
  nodes place = node_at t.tree_bufs buf place

  -- the place in its row of the leaf's ancestor
  abbrev place : ℕ → ℕ
  place l = c % 2 ^ (r * k) / 2 ^ (l * k)

  abbrev begin : ℕ → ℕ → ℕ
  begin l base = start_of c (2 ^ (r * k) - 1) k (not64 (2 ^ k - 1)) l base

  index_lem : (n l : ℕ) → l + suc n ≡ r → get_or indices l 0 ≡ place l % t.arity
  index_lem n l h =
      let same : place l % 2 ^ k ≡ c / 2 ^ (l * k) % 2 ^ k =
        subst (λ m. c % 2 ^ (m * k) / 2 ^ (l * k) % 2 ^ k ≡ c / 2 ^ (l * k) % 2 ^ k) h
          (index-mod k n l c) in
      rw e (read l (omega arith) ∙ sym same)

  begin_lem :
      (l base : ℕ) → base + place l < size_mod → begin l base ≡ base + place l / t.arity * t.arity
  begin_lem l base q = rw e (start_of_lem c (r * k) k l base (omega arith) small_c q)

  arity_bounds : (1 ≤ t.arity) × (t.arity < size_mod)
  arity_bounds =
      let low = one-le-pow k 2 (omega arith) in
      let high = pow-le-pow_right {n = 2} (omega arith) {i = k} {j = 63} (omega arith) in
      (omega (arith, e), omega (arith, e))

  -- One level of the loop.
  step_lem :
      (n l base : ℕ) (leaf : Option Node) (path : List PathElement)
      → l + suc n ≡ r
      → l ≡ length path
      → base + place l < size_mod
      → add_level l (get_or indices l 0) (λ a. nodes (begin l base + a)) (at_state t leaf path)
        ≡ at_state t leaf (
            path
            ++ (element t.arity (place l % t.arity) (
                  siblings
                    (λ a. nodes (base + place l / t.arity * t.arity + a))
                    (place l % t.arity)
                    t.arity)
                ∷ []))
  step_lem n l base leaf path h p q =
      rw (index_lem n l h, begin_lem l base q)
        (add_level_lem l (place l % t.arity) (λ a. nodes (base + place l / t.arity * t.arity + a))
          (at_state t leaf path) p (mod-lt (place l) (omega (arith, arity_bounds.0)))
          arity_bounds.1)

  -- The leaf is read at level 0.
  led_lem :
      (l : ℕ) (leaf found : Option Node) (path : List PathElement)
      → (if l == 0 then set_leaf found (at_state t leaf path) else at_state t leaf path)
        ≡ at_state t (if l == 0 then found else leaf) path
  unfolding set_leaf
  led_lem l leaf found path = ground arith

  pub level_loop_lem :
      (n l base : ℕ) (leaf : Option Node) (path : List PathElement)
      → l + n ≡ r
      → l ≡ length path
      → top_of t.arity base n < size_mod
      → level_loop c indices
          (2 ^ (r * k) - 1)
          k
          (not64 (2 ^ k - 1))
          buf
          n
          l
          base
          (t.arity ^ n)
          (at_state t leaf path)
        ≡ (
          at_state t
              (leaf_after (nodes (base + place l)) n l leaf)
              (path ++ elements t.arity nodes n (place l) base),
          top_of t.arity base n,
        )
  unfolding level_loop top_of shift
  level_loop_lem zero l base leaf path h p q =
      ap (λ xs. (at_state t leaf xs, base)) (sym (append-nil path))
  level_loop_lem (suc n) l base leaf path h p q =
      let A : ℕ = t.arity in
      let y : ℕ = place l in
      let low = le-top_of A n (base + A ^ suc n) in
      let bound : y < A ^ suc n = rw e (
        subst (λ m. c % 2 ^ (m * k) / 2 ^ (l * k) < (2 ^ k) ^ suc n) h
          (index-bound k (suc n) l c)) in
      let index = index_lem n l h in
      let start = begin_lem l base (omega arith) in
      let found : nodes (begin l base + get_or indices l 0) ≡ nodes (base + y) =
        ap nodes (omega (arith, index, start, div-add-mod' y A)) in
      let next : add64 base (A ^ suc n) ≡ base + A ^ suc n = omega arith in
      let width : shift (A ^ suc n) k ≡ A ^ n =
        rw (pow-suc A n) (rw (sym e) (mul-div_cancel (A ^ n) arity_bounds.0)) in
      let up : y / A ≡ place (suc l) = rw e (index-suc k (r * k) l c) in
      let leaf2 : Option Node = if l == 0 then nodes (base + y) else leaf in
      let here : PathElement =
        element A (y % A) (siblings (λ a. nodes (base + y / A * A + a)) (y % A) A) in
      let path2 : List PathElement = path ++ (here ∷ []) in
      let rest : List PathElement = elements A nodes n (place (suc l)) (base + A ^ suc n) in
      rw
        (
          next,
          width,
          found,
          led_lem l leaf (nodes (base + y)) path,
          step_lem n l base leaf2 path h p (omega arith),
        )
        (level_loop_lem n (suc l) (base + A ^ suc n) leaf2 path2 (omega arith)
            (omega (arith, length-append path (here ∷ []))) q
          ∙ ap₂ (λ lf es. (at_state t lf es, top_of A (base + A ^ suc n) n))
              (leaf_after-suc (nodes (base + A ^ suc n + place (suc l))) n l leaf2)
              (append_assoc path (here ∷ []) rest)
          ∙ ap
              (λ z. (
                at_state t leaf2 (path ++ (here ∷ elements A nodes n z (base + A ^ suc n))),
                top_of A (base + A ^ suc n) n,
              ))
              (sym up))
