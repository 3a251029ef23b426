-- ===== src/Commit/TreeProof/Levels.antt =====
-- The numbers of `GenInclusionPath` for a tree of arity `2 ^ k`, and the elements that it adds.
use native.Mathlib.Nat.{
  one-le-pow, pow-suc, pow-zero, div-div-eq-div-mul, div-one, div-add-mod', mod-lt, mod-eq_of_lt,
  mul-add-div, mod-mod_of_dvd, dvd-mul_left, add-mul-mod_self_left,
}
use supra_seal.Prelude.{
  ℕ, zero, suc, ◌+◌, ◌-◌, ◌*◌, ◌/◌, ◌%◌, ◌^◌, ◌<◌, ◌≤◌, ◌≡◌, refl, sym, ◌∙◌, ap, arith, get_or, ltb,
  false, pow_add, div-lt_of_mul, sub64, size_mod, bit_and-low,
}
use supra_seal.Commit.TreeProof.{log2_loop, log2, shift, tree_paths}

log2_loop-pow : (fuel k : ℕ) → k < fuel → log2_loop fuel (2 ^ k) ≡ k
unfolding log2_loop
log2_loop-pow zero k h = elim h [ ]
log2_loop-pow (suc fuel) zero h = refl
log2_loop-pow (suc fuel) (suc k) h =
    let p = one-le-pow k 2 (omega arith) in
    let half : 2 ^ suc k / 2 ≡ 2 ^ k = omega (arith, pow-suc 2 k) in
    let big : ltb (2 ^ suc k) 2 ≡ false = ground (arith, pow-suc 2 k) in
    rw (half, log2_loop-pow fuel k (omega arith), big) refl

pub log2-pow : (k : ℕ) → k < 64 → log2 (2 ^ k) ≡ k
unfolding log2
log2-pow k h = log2_loop-pow 64 k h

pub pow-mul_add : (k n : ℕ) → 2 ^ (suc n * k) ≡ 2 ^ (n * k) * 2 ^ k
pow-mul_add k n = pow_add (n * k) k (suc n * k) (omega arith)

pub pow-pow : (k n : ℕ) → (2 ^ k) ^ n ≡ 2 ^ (n * k)
pow-pow k zero = let e : 0 * k ≡ 0 = omega arith in rw e (pow-zero (2 ^ k))
pow-pow k (suc n) = rw (pow-suc (2 ^ k) n, pow-pow k n) (sym (pow-mul_add k n))

pub sub64-one : (x : ℕ) → 1 ≤ x → x ≤ size_mod → sub64 x 1 ≡ x - 1
sub64-one x h p = omega arith

-- the index of each level
pub get_or-tree_paths :
    (k n l c : ℕ) → l < n → get_or (tree_paths n (2 ^ k - 1) k c) l 0 ≡ c / 2 ^ (l * k) % 2 ^ k
unfolding tree_paths shift
get_or-tree_paths k zero l c h = elim h [ ]
get_or-tree_paths k (suc n) zero c h =
    let e : 0 * k ≡ 0 = omega arith in rw (bit_and-low k c, e, div-one c) refl
get_or-tree_paths k (suc n) (suc l) c h =
    get_or-tree_paths k n l (c / 2 ^ k) (omega arith)
    ∙ ap (λ x. x % 2 ^ k)
        (div-div-eq-div-mul c (2 ^ k) (2 ^ (l * k))
          ∙ ap (λ x. c / x) (omega (arith, pow-mul_add k l)))

product_pos : (p q : ℕ) → 0 < p → 0 < q → 0 < p * q
product_pos p q hp hq = grind arith

-- the division of a remainder
pub div-mod_product : (c p q : ℕ) → 0 < p → 0 < q → c % (p * q) / p ≡ c / p % q
div-mod_product c p q hp hq =
    let w : ℕ = c % (p * q) in
    let v : ℕ = c / (p * q) in
    let e : c ≡ p * (q * v) + w = omega (arith, div-add-mod' c (p * q)) in
    let s : c / p ≡ q * v + w / p = ap (λ x. x / p) e ∙ mul-add-div hp (q * v) w in
    let small : w / p < q =
      div-lt_of_mul w q p hp (omega (arith, mod-lt c (product_pos p q hp hq))) in
    sym (mod-eq_of_lt small)
    ∙ sym (add-mul-mod_self_left (w / p) q v)
    ∙ ap (λ x. x % q) (omega (arith, s))

-- The index of a level is the place among siblings of the leaf's ancestor in its file.
pub index-mod :
    (k n l c : ℕ) → c % 2 ^ ((l + suc n) * k) / 2 ^ (l * k) % 2 ^ k ≡ c / 2 ^ (l * k) % 2 ^ k
index-mod k n l c =
    let p = one-le-pow (l * k) 2 (omega arith) in
    let q = one-le-pow (suc n * k) 2 (omega arith) in
    let e : 2 ^ ((l + suc n) * k) ≡ 2 ^ (l * k) * 2 ^ (suc n * k) =
      pow_add (l * k) (suc n * k) ((l + suc n) * k) (omega arith) in
    rw (e, div-mod_product c (2 ^ (l * k)) (2 ^ (suc n * k)) p q)
      (mod-mod_of_dvd (2 ^ k) (c / 2 ^ (l * k))
        (rw (pow-mul_add k n) (dvd-mul_left (2 ^ k) (2 ^ (n * k)))))

-- A row is `2 ^ k` times as wide as the next.
pub index-bound : (k n l c : ℕ) → c % 2 ^ ((l + n) * k) / 2 ^ (l * k) < (2 ^ k) ^ n
index-bound k n l c =
    let p = one-le-pow (l * k) 2 (omega arith) in
    let q = one-le-pow (n * k) 2 (omega arith) in
    let e : 2 ^ ((l + n) * k) ≡ 2 ^ (l * k) * 2 ^ (n * k) =
      pow_add (l * k) (n * k) ((l + n) * k) (omega arith) in
    rw (e, div-mod_product c (2 ^ (l * k)) (2 ^ (n * k)) p q, pow-pow k n)
      (mod-lt (c / 2 ^ (l * k)) q)

pub index-suc : (k f l c : ℕ) → c % 2 ^ f / 2 ^ (l * k) / 2 ^ k ≡ c % 2 ^ f / 2 ^ (suc l * k)
index-suc k f l c = rw (div-div-eq-div-mul (c % 2 ^ f) (2 ^ (l * k)) (2 ^ k), pow-mul_add k l) refl
