-- ===== src/Pc1/TreeBuilder/Around.antt =====
-- The leaves around a challenged leaf, and the row that they hash up to.
use native.Mathlib.Nat.{mul_assoc, pow-suc, pow-succ', pow-zero, mul-one, mul-zero, zero-add}
use supra_seal.Prelude.{ℕ, zero, suc, ◌+◌, ◌*◌, ◌^◌, ◌<◌, ◌≡◌, sym, ◌∙◌, ap, arith, List, get_elem?}
use supra_seal.Commit.Output.{Node}
use supra_seal.Commit.TreeProof.Tree.{from, parent, top_of}
use supra_seal.Commit.TreeProof.First.{hash_at, hash_two}
use supra_seal.Pc1.Rows.Spec.{Row, above, above_count}
use supra_seal.Pc1.Rows.Cell.{from_ext}
use supra_seal.Pc1.Rows.Row.{child-lt}

-- the top of the rows
pub top_lem : (a base n : ℕ) → top_of a base n + 1 ≡ base + a ^ n + above_count a n
unfolding top_of
top_lem a base zero = omega (arith, pow-zero a)
top_lem a base (suc n) = omega (arith, top_lem a (base + a ^ suc n) n)

cube_of : (a : ℕ) → a ^ 3 ≡ a * (a * a)
cube_of a =
    pow-succ' a 2
    ∙ ap (λ x. a * x)
        (pow-succ' a 1 ∙ ap (λ x. a * x) (pow-succ' a 0 ∙ ap (λ x. a * x) (pow-zero a) ∙ mul-one a))

pub three_more : (a n : ℕ) → a ^ (3 + n) ≡ a ^ n * a ^ 3
three_more a n =
    let e : 3 + n ≡ suc (suc (suc n)) = omega arith in
    ap (λ x. a ^ x) e
    ∙ pow-suc a (suc (suc n))
    ∙ ap (λ x. x * a) (pow-suc a (suc n) ∙ ap (λ x. x * a) (pow-suc a n))
    ∙ mul_assoc (a ^ n * a) a a
    ∙ mul_assoc (a ^ n) a (a * a)
    ∙ ap (λ x. a ^ n * x) (sym (cube_of a))

-- The leaves around a leaf hash up to the third row above.
module _ (hash : List Node → Node) (a p : ℕ) (row : Row) (fl : List Node)
    (around : (i : ℕ) → i < a ^ 3 → get_elem? fl i ≡ row (p * a ^ 3 + i)) where
  leaf_place : (x y z : ℕ) → x * a * a + y * a + z ≡ a * (a * x + y) + z
  leaf_place x y z = grind arith

  leaf_lt : (x y z : ℕ) → x < a → y < a → z < a → x * a * a + y * a + z < a ^ 3
  leaf_lt x y z hx hy hz = omega (
    arith,
    leaf_place x y z,
    cube_of a,
    child-lt a (a * a) (a * x + y) z (child-lt a a x y hx hy) hz,
  )

  row_place : (x y z : ℕ) → p * a ^ 3 + (x * a * a + y * a + z) ≡ a * (a * (a * p + x) + y) + z
  row_place x y z = grind (arith, cube_of a)

  pub three_up :
      above hash a (above hash a (above hash a row)) p ≡ parent hash (from (hash_two hash a fl) 0 a)
  unfolding hash_two hash_at
  three_up = ap (parent hash) (
      from_ext _ _ 0 0 a (λ x hx. ap (parent hash) (
        from_ext _ _ 0 0 a (λ y hy. ap (parent hash) (
          from_ext _ _ 0 0 a (λ z hz.
            ap row (rw (zero-add x, zero-add y, zero-add z) (sym (row_place x y z)))
            ∙ sym (around _ (leaf_lt x y z hx hy hz))
            ∙ ap (get_elem? fl) (rw (zero-add x, zero-add y, zero-add z))))))))

-- The leaves of a tree of two levels hash up to its root.
module _ (hash : List Node → Node) (a : ℕ) (row : Row) (fl : List Node)
    (same : (i : ℕ) → i < a ^ 2 → get_elem? fl i ≡ row i) where
  square_of : a ^ 2 ≡ a * a
  square_of =
      pow-succ' a 1 ∙ ap (λ x. a * x) (pow-succ' a 0 ∙ ap (λ x. a * x) (pow-zero a) ∙ mul-one a)

  place_of : (y z : ℕ) → a * (a * 0 + y) + z ≡ 0 * a * a + y * a + z
  place_of y z = grind arith

  place_lt : (y z : ℕ) → y < a → z < a → 0 * a * a + y * a + z < a ^ 2
  place_lt y z hy hz =
      omega
        (arith, place_of y z, square_of, child-lt a a (a * 0 + y) z (omega (arith, mul-zero a)) hz)

  pub two_up : above hash a (above hash a row) 0 ≡ hash_two hash a fl 0
  unfolding hash_two hash_at
  two_up = ap (parent hash) (
      from_ext _ _ 0 0 a (λ y hy. ap (parent hash) (
        from_ext _ _ 0 0 a (λ z hz.
          ap row (rw (zero-add y, zero-add z) (place_of y z))
          ∙ sym (same _ (place_lt y z hy hz))
          ∙ ap (get_elem? fl) (rw (zero-add y, zero-add z))))))
