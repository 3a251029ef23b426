-- ===== src/Commit/TreeProof/First/Steps.antt =====
-- What each of the first levels puts into the path, and where it starts.
use native.Mathlib.Nat.{
  mod-lt, one-le-pow, div-add-mod', mod-eq_of_lt, add-mul-mod_self_left, mul-lt-mul_of_pos_left,
  mul-div-mul_right, mul_assoc,
}
use supra_seal.Prelude.{
  ℕ, ◌+◌, ◌-◌, ◌*◌, ◌/◌, ◌%◌, ◌^◌, ◌<◌, ◌≤◌, ◌≡◌, refl, sym, ◌∙◌, ap, ap₂, arith, List, [], ◌∷◌,
  ◌++◌, Option, length, get_elem?, get_or, size_mod, bit_and, not64, bit_and-low, bit_and-high,
  pow_add,
}
use supra_seal.Commit.Output.{Node}
use supra_seal.Commit.PathElement.{PathElement, construct}
use supra_seal.Commit.TreeProof.{TreeProof, add_level, set_leaf, set_others, modify}
use supra_seal.Commit.TreeProof.Tree.{insert_at, from, parent, climb}
use supra_seal.Commit.TreeProof.Others.{element, siblings, set_others_lem, insert_at-siblings}
use supra_seal.Commit.TreeProof.Levels.{div-mod_product}
use supra_seal.Commit.TreeProof.Path.{add_level_lem, modify-append}
use supra_seal.Commit.TreeProof.Climb.{climb-append}
use supra_seal.Commit.TreeProof.First.{hash_at, hash_two, two_levels, third_level}

-- A multiple's remainder by a larger multiple.
mod-multiple : (y p q : ℕ) → 0 < p → 0 < q → y * p % (p * q) ≡ y % q * p
mod-multiple y p q hp hq =
    let e : y * p ≡ y % q * p + p * q * (y / q) =
      omega (arith, ap (λ (t : ℕ). t * p) (div-add-mod' y q), mul_assoc p q (y / q)) in
    let lt = mul-lt-mul_of_pos_left {k = p} (mod-lt y hq) hp in
    ap (λ t. t % (p * q)) e
    ∙ add-mul-mod_self_left (y % q * p) (p * q) (y / q)
    ∙ mod-eq_of_lt (omega (arith, lt))

-- `leaf_start` of the first level, as a number: the first of the siblings of the leaf.
pub start_lem :
    (c k n : ℕ)
    → k ≤ 64
    → c < size_mod
    → bit_and (bit_and c (not64 (2 ^ k - 1))) (2 ^ (k + n) - 1) ≡ c % 2 ^ (k + n) / 2 ^ k * 2 ^ k
start_lem c k n h p =
    let e : 2 ^ (k + n) ≡ 2 ^ k * 2 ^ n = pow_add k n (k + n) refl in
    let a = one-le-pow k 2 (omega arith) in
    let b = one-le-pow n 2 (omega arith) in
    bit_and-low (k + n) (bit_and c (not64 (2 ^ k - 1)))
    ∙ ap₂ (λ x m. x % m) (bit_and-high k c h p) e
    ∙ mod-multiple (c / 2 ^ k) (2 ^ k) (2 ^ n) a b
    ∙ ap (λ t. t * 2 ^ k) (sym (div-mod_product c (2 ^ k) (2 ^ n) a b))
    ∙ ap (λ m. c % m / 2 ^ k * 2 ^ k) (sym e)

-- and of the second
pub second_lem :
    (x k : ℕ)
    → k + k ≤ 64
    → x / 2 ^ k * 2 ^ k < size_mod
    → bit_and (x / 2 ^ k * 2 ^ k) (not64 (2 ^ (k + k) - 1)) ≡ x / 2 ^ k / 2 ^ k * 2 ^ (k + k)
second_lem x k h p =
    let e : 2 ^ (k + k) ≡ 2 ^ k * 2 ^ k = pow_add k k (k + k) refl in
    bit_and-high (k + k) (x / 2 ^ k * 2 ^ k) h p
    ∙ ap (λ t. t * 2 ^ (k + k))
        (ap (λ m. x / 2 ^ k * 2 ^ k / m) e
          ∙ mul-div-mul_right (x / 2 ^ k) (2 ^ k) (one-le-pow k 2 (omega arith)))

module _ (hash : List Node → Node) (t : TreeProof) (fl : List Node) (indices : List ℕ) where
  -- the nodes of the first level from `start` on, and the hashes of their rows from `second` on
  abbrev pub leaves_from : ℕ → ℕ → Option Node
  leaves_from start a = get_elem? fl (start + a)

  abbrev pub hashes_from : ℕ → ℕ → Option Node
  hashes_from second a = hash_at hash t.arity fl (second + a * t.arity)

  abbrev pub two_elements : ℕ → ℕ → ℕ → ℕ → List PathElement
  two_elements start second i0 i1 =
      element t.arity i0 (siblings (leaves_from start) i0 t.arity)
      ∷ element t.arity i1 (siblings (hashes_from second) i1 t.arity)
      ∷ []

  pub two_levels_lem :
      (start second i0 i1 : ℕ)
      → get_or indices 0 0 ≡ i0
      → get_or indices 1 0 ≡ i1
      → i0 < t.arity
      → i1 < t.arity
      → t.arity < size_mod
      → t.path ≡ []
      → two_levels hash start second fl indices t
        ≡ record t { leaf = get_elem? fl (start + i0); path = two_elements start second i0 i1 }
  unfolding two_levels set_leaf
  two_levels_lem start second i0 i1 e0 e1 h0 h1 small nil =
      let led : TreeProof = record t { leaf = get_elem? fl (start + i0); path = [] } in
      let one : TreeProof = record led {
        path = element t.arity i0 (siblings (leaves_from start) i0 t.arity) ∷ [];
      } in
      ap₂
        (λ p q.
          add_level 1 q (hashes_from second)
            (add_level 0 p (leaves_from start) (record t { leaf = get_elem? fl (start + p) })))
        e0 e1
      ∙ ap
          (λ es. add_level 1 i1 (hashes_from second) (
            add_level 0 i0 (leaves_from start)
              (record t { leaf = get_elem? fl (start + i0); path = es })))
          nil
      ∙ ap (add_level 1 i1 (hashes_from second))
          (add_level_lem 0 i0 (leaves_from start) led refl h0 small)
      ∙ add_level_lem 1 i1 (hashes_from second) one refl h1 small

  pub climb-two :
      (start second i0 i1 : ℕ)
      → i0 < t.arity
      → i1 < t.arity
      → start ≡ second + i1 * t.arity
      → climb hash (two_elements start second i0 i1) (get_elem? fl (start + i0))
        ≡ parent hash (from (hashes_from second) 0 t.arity)
  unfolding climb hash_at
  climb-two start second i0 i1 h0 h1 e =
      ap
        (λ es.
          parent hash (insert_at i1 (parent hash es) (siblings (hashes_from second) i1 t.arity)))
        (insert_at-siblings (leaves_from start) i0 t.arity h0)
      ∙ ap
          (λ s.
            parent hash
              (insert_at i1 (hash_at hash t.arity fl s) (siblings (hashes_from second) i1 t.arity)))
          e
      ∙ ap (parent hash) (insert_at-siblings (hashes_from second) i1 t.arity h1)

  pub third_level_lem :
      (u : TreeProof) (skip i2 : ℕ)
      → get_or indices 2 0 ≡ i2
      → skip ≡ i2
      → i2 < u.arity
      → u.arity < size_mod
      → 2 ≡ length u.path
      → third_level hash skip fl indices u ≡ record u {
        path = u.path ++ (element u.arity i2 (siblings (hash_two hash u.arity fl) i2 u.arity) ∷ []);
      }
  unfolding third_level
  third_level_lem u skip i2 e s h small two =
      let f : ℕ → Option Node = hash_two hash u.arity fl in
      ap (λ path. record u { path = path })
        (ap₂ (λ p q. modify 2 (set_others f q u.arity 0 0) (u.path ++ (construct u.arity p ∷ []))) e
            s
          ∙ ap (λ n. modify n (set_others f i2 u.arity 0 0) (u.path ++ (construct u.arity i2 ∷ [])))
              two
          ∙ modify-append (set_others f i2 u.arity 0 0) u.path (construct u.arity i2)
          ∙ ap (λ x. u.path ++ (x ∷ [])) (set_others_lem f i2 u.arity h small))

  pub climb-three :
      (start second i0 i1 i2 : ℕ)
      → i0 < t.arity
      → i1 < t.arity
      → i2 < t.arity
      → start ≡ second + i1 * t.arity
      → second ≡ i2 * t.arity * t.arity
      → climb hash
          (two_elements start second i0 i1
            ++ (element t.arity i2 (siblings (hash_two hash t.arity fl) i2 t.arity) ∷ []))
          (get_elem? fl (start + i0))
        ≡ parent hash (from (hash_two hash t.arity fl) 0 t.arity)
  unfolding hash_two
  climb-three start second i0 i1 i2 h0 h1 h2 e f =
      climb-append hash (two_elements start second i0 i1)
        (element t.arity i2 (siblings (hash_two hash t.arity fl) i2 t.arity))
        (get_elem? fl (start + i0))
      ∙ ap (λ n. parent hash (insert_at i2 n (siblings (hash_two hash t.arity fl) i2 t.arity)))
          (climb-two start second i0 i1 h0 h1 e
            ∙ ap (λ s. parent hash (from (hashes_from s) 0 t.arity)) f)
      ∙ ap (parent hash) (insert_at-siblings (hash_two hash t.arity fl) i2 t.arity h2)
