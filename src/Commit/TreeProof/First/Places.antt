-- ===== src/Commit/TreeProof/First/Places.antt =====
-- Where the first levels read, by the places of the challenge and of its ancestors.
use native.Mathlib.Nat.{
  mod-lt, one-le-pow, div-add-mod', div-one, mul-div_cancel, pow-le-pow_right, mul-le-mul_right,
  mul_assoc, div-mul-le_self, div-le_self, mod-le,
}
use supra_seal.Prelude.{
  ℕ, suc, ◌+◌, ◌-◌, ◌*◌, ◌/◌, ◌%◌, ◌^◌, ◌<◌, ◌≤◌, ◌≡◌, refl, sym, ◌∙◌, ap, ap₂, arith, true, List,
  [], get_elem?, get_or, size_mod, sub64, bit_and, not64, pow_add, ◌==◌, if◌then◌else◌, subst,
}
use supra_seal.Commit.Output.{Node}
use supra_seal.Commit.PathElement.{PathElement}
use supra_seal.Commit.TreeProof.{TreeProof, log2, shift, get_tree_paths, tree_paths}
use supra_seal.Commit.TreeProof.Tree.{from, parent, climb}
use supra_seal.Commit.TreeProof.Levels.{
  log2-pow, sub64-one, pow-pow, get_or-tree_paths, index-mod, index-suc,
}
use supra_seal.Commit.TreeProof.First.{
  hash_at, first_start, two_levels, third_level, perform_first_levels,
}
use supra_seal.Commit.TreeProof.First.Steps.{
  start_lem, second_lem, two_elements, two_levels_lem, climb-two,
}

-- A proof for a tree with discarded rows: `rows` of them stand in the leaves around the challenge.
pub record Discarded (t : TreeProof) (k rows : ℕ) : Type 0 where
  pub arity_pow : t.arity ≡ 2 ^ k
  pub arity_big : 0 < k
  pub rows_big : 2 ≤ rows
  pub discarded : t.discard_rows + 1 ≡ rows
  pub rows_small : rows * k < 64
  pub rows_held : rows ≤ t.levels
  pub fresh : t.path ≡ []

module _ (t : TreeProof) (k rows c : ℕ) (d : Discarded t k rows) (small_c : c < size_mod) where
  -- the place of the challenge among the leaves around it, and those of its ancestors
  abbrev pub place : ℕ → ℕ
  place l = c % 2 ^ (rows * k) / 2 ^ (l * k)

  pub bounds : (1 ≤ 2 ^ k) × (2 ^ k ≤ 2 ^ 31) × (k + k < 64) × (k ≤ 31)
  bounds =
      let two : 2 * k ≤ rows * k = mul-le-mul_right k d.rows_big in
      let small : k ≤ 31 = omega (arith, d.rows_small) in
      (
        one-le-pow k 2 (omega arith),
        pow-le-pow_right {n = 2} (omega arith) {i = k} {j = 31} small,
        omega (arith, d.rows_small),
        small,
      )

  pub place-zero : place 0 ≡ c % 2 ^ (rows * k)
  place-zero =
      let z : 0 * k ≡ 0 = omega arith in
      ap (λ (n : ℕ). c % 2 ^ (rows * k) / 2 ^ n) z ∙ div-one (c % 2 ^ (rows * k))

  place-suc : (l : ℕ) → place l / 2 ^ k ≡ place (suc l)
  place-suc l = index-suc k (rows * k) l c

  pub index_lem :
      (l : ℕ) → l < rows → get_or (tree_paths t.levels (2 ^ k - 1) k c) l 0 ≡ place l % 2 ^ k
  index_lem l h =
      let n : ℕ = rows - suc l in
      let e : l + suc n ≡ rows = omega arith in
      get_or-tree_paths k t.levels l c (omega (arith, d.rows_held))
      ∙ sym (
          subst (λ m. c % 2 ^ (m * k) / 2 ^ (l * k) % 2 ^ k ≡ c / 2 ^ (l * k) % 2 ^ k) e
            (index-mod k n l c))

  first_start_lem : first_start c t ≡ place 1 * 2 ^ k
  unfolding first_start
  first_start_lem =
      let one : sub64 t.arity 1 ≡ 2 ^ k - 1 = omega (arith, d.arity_pow, bounds) in
      let n : ℕ = rows * k - k in
      let two : 2 * k ≤ rows * k = mul-le-mul_right k d.rows_big in
      let e : k + n ≡ rows * k = omega arith in
      let p1 = one-le-pow (rows * k) 2 (omega arith) in
      let p2 =
        pow-le-pow_right {n = 2} (omega arith) {i = rows * k} {j = 63}
          (omega (arith, d.rows_small)) in
      let e3 : 2 ^ (k + n) ≡ 2 ^ (rows * k) = ap (λ (m : ℕ). 2 ^ m) e in
      let labels : sub64 (t.arity ^ (t.discard_rows + 1)) 1 ≡ 2 ^ (k + n) - 1 =
        ap₂ (λ a r. sub64 (a ^ r) 1) d.arity_pow d.discarded
        ∙ ap (λ m. sub64 m 1) (pow-pow k rows)
        ∙ ap (λ m. sub64 (2 ^ m) 1) (sym e)
        ∙ (sub64-one (2 ^ (k + n)) (omega (arith, p1, e3)) (omega (arith, p2, e3))) in
      ap₂ (λ a b. bit_and (bit_and c (not64 a)) b) one labels
      ∙ start_lem c k n (omega (arith, bounds)) small_c
      ∙ ap (λ m. c % 2 ^ m / 2 ^ k * 2 ^ k) e
      ∙ ap (λ y. y / 2 ^ k * 2 ^ k) (sym place-zero)
      ∙ ap (λ y. y * 2 ^ k) (place-suc 0)

  squared : t.arity * t.arity ≡ 2 ^ (k + k)
  squared = ap₂ (λ (a b : ℕ). a * b) d.arity_pow d.arity_pow ∙ sym (pow_add k k (k + k) refl)

  pub place-le : (l : ℕ) → place l ≤ c % 2 ^ (rows * k)
  place-le l = div-le_self (c % 2 ^ (rows * k)) (2 ^ (l * k))

  -- `leaf_start &= sec_mask`
  second_mask :
      bit_and (place 1 * 2 ^ k) (not64 (sub64 (t.arity * t.arity) 1)) ≡ place 2 * t.arity * t.arity
  second_mask =
      let p2 =
        pow-le-pow_right {n = 2} (omega arith) {i = k + k} {j = 63} (omega (arith, bounds)) in
      let m : sub64 (t.arity * t.arity) 1 ≡ 2 ^ (k + k) - 1 =
        ap (λ n. sub64 n 1) squared
        ∙ sub64-one (2 ^ (k + k)) (one-le-pow (k + k) 2 (omega arith)) (omega (arith, p2)) in
      let whole = place-zero ∙ refl in
      let small : place 0 / 2 ^ k * 2 ^ k < size_mod =
        omega (arith, div-mul-le_self (place 0) (2 ^ k), place-le 0, mod-le c (2 ^ (rows * k))) in
      ap₂ (λ x n. bit_and (x * 2 ^ k) (not64 n)) (sym (place-suc 0)) m
      ∙ second_lem (place 0) k (omega (arith, bounds)) small
      ∙ ap₂ (λ (x y : ℕ). x / 2 ^ k * y) (place-suc 0) (sym squared)
      ∙ ap (λ x. x * (t.arity * t.arity)) (place-suc 1)
      ∙ sym (mul_assoc (place 2) t.arity t.arity)

  skip_lem : shift (place 2 * t.arity * t.arity) (log2 (t.arity * t.arity)) ≡ place 2
  unfolding shift
  skip_lem =
      ap₂ (λ (x y : ℕ). x / 2 ^ y)
        (mul_assoc (place 2) t.arity t.arity ∙ ap (λ (y : ℕ). place 2 * y) squared)
        (ap log2 squared ∙ log2-pow (k + k) (omega (arith, bounds)))
      ∙ mul-div_cancel (place 2) (one-le-pow (k + k) 2 (omega arith))

  pub indices_lem : get_tree_paths t c ≡ tree_paths t.levels (2 ^ k - 1) k c
  unfolding get_tree_paths
  indices_lem =
      ap₂ (λ a b. tree_paths t.levels a b c)
        (ap (λ n. sub64 n 1) d.arity_pow ∙ sub64-one (2 ^ k) (bounds.0) (omega (arith, bounds)))
        (ap log2 d.arity_pow ∙ log2-pow k (omega (arith, bounds)))

  pub same_mod : (l : ℕ) → place l % 2 ^ k ≡ place l % t.arity
  same_mod l = ap (λ (m : ℕ). place l % m) (sym d.arity_pow)

  start_at : place 1 * 2 ^ k ≡ place 1 * t.arity
  start_at = ap (λ (m : ℕ). place 1 * m) (sym d.arity_pow)

  pub arity_pos : 0 < t.arity
  arity_pos = omega (arith, d.arity_pow, bounds)

  pub up : (l : ℕ) → place (suc l) * t.arity + place l % t.arity ≡ place l
  up l =
      ap (λ (q : ℕ). q * t.arity + place l % t.arity)
        (sym (place-suc l) ∙ ap (λ (m : ℕ). place l / m) (sym d.arity_pow))
      ∙ div-add-mod' (place l) t.arity

  module _ (hash : List Node → Node) (fl : List Node) where
    -- the path after two levels
    abbrev pub low_path : List PathElement
    low_path =
        two_elements hash t fl (get_tree_paths t c) (place 1 * t.arity)
          (place 2 * t.arity * t.arity) (place 0 % t.arity) (place 1 % t.arity)

    pub after_two :
        two_levels hash (place 1 * t.arity) (place 2 * t.arity * t.arity) fl (get_tree_paths t c) t
        ≡ record t { leaf = get_elem? fl (place 0); path = low_path }
    after_two =
        let at : (l : ℕ) → l < rows → get_or (get_tree_paths t c) l 0 ≡ place l % t.arity =
          λ l h. ap (λ is. get_or is l 0) indices_lem ∙ index_lem l h ∙ same_mod l in
        two_levels_lem hash t fl (get_tree_paths t c) (place 1 * t.arity)
          (place 2 * t.arity * t.arity) (place 0 % t.arity) (place 1 % t.arity)
          (at 0 (omega (arith, d.rows_big))) (at 1 (omega (arith, d.rows_big)))
          (mod-lt (place 0) arity_pos) (mod-lt (place 1) arity_pos)
          (omega (arith, d.arity_pow, bounds)) d.fresh
        ∙ ap (λ x. record t { leaf = get_elem? fl x; path = low_path }) (up 0)

    pub perform_lem : perform_first_levels hash c fl (get_tree_paths t c) t ≡ (
        let u = record t { leaf = get_elem? fl (place 0); path = low_path } in
        if t.levels == 2
        then (true, u)
        else (t.levels == 3, third_level hash (place 2) fl (get_tree_paths t c) u))
    unfolding perform_first_levels
    perform_lem =
        let is : List ℕ = get_tree_paths t c in
        let body = λ (start second : ℕ).
          let u = two_levels hash start second fl is t in
          if t.levels == 2 then (true, u) else (
            t.levels == 3,
            third_level hash (shift second (log2 (t.arity * t.arity))) fl is u,
          ) in
        ap (λ start. body start (bit_and start (not64 (sub64 (t.arity * t.arity) 1))))
          first_start_lem
        ∙ ap₂ body start_at second_mask
        ∙ ap₂
            (λ u skip.
              if t.levels == 2 then (true, u) else (t.levels == 3, third_level hash skip fl is u))
            after_two skip_lem

    pub climb_low :
        climb hash low_path (get_elem? fl (place 0))
        ≡ parent hash (
            from
              (λ a. hash_at hash t.arity fl (place 2 * t.arity * t.arity + a * t.arity))
              0
              t.arity)
    climb_low =
        let split : place 1 * t.arity ≡ place 2 * t.arity * t.arity + place 1 % t.arity * t.arity =
          omega (arith, ap (λ (n : ℕ). n * t.arity) (up 1)) in
        ap (λ x. climb hash low_path (get_elem? fl x)) (sym (up 0))
        ∙ climb-two hash t fl (get_tree_paths t c) (place 1 * t.arity) (place 2 * t.arity * t.arity)
            (place 0 % t.arity) (place 1 % t.arity) (mod-lt (place 0) arity_pos)
            (mod-lt (place 1) arity_pos) split
