-- ===== src/Prelude/Bits.antt =====
-- Masks, shifts and disjoint fields of machine words, as arithmetic.
use Prim.Native.Nat.{
  ℕ, zero, suc, ◌+◌, ◌-◌, ◌*◌, ◌/◌, ◌%◌, ◌^◌, ◌≤◌, ◌<◌, min, max, bit_and, bit_or, digits,
  bit_and-bitwise, bit_or-bitwise,
}
use mathlib.Core.Path.{◌≡◌, refl, sym, ap, ◌∙◌}
use native.Mathlib.Nat.{pow-suc, one-le-pow, pow-succ', div-div-eq-div-mul, mod-eq_of_lt, suc-mul}
use native.Mathlib.Omega.{arith}
use supra_seal.Prelude.Words.{size_mod}

-- `x << k` and `x >> k`, before the word's wrap-around
abbrev pub shl : ℕ → ℕ → ℕ
shl x k = x * 2 ^ k

abbrev pub shr : ℕ → ℕ → ℕ
shr x k = x / 2 ^ k

-- `~x` of a 64-bit word
abbrev pub not64 : ℕ → ℕ
not64 x = size_mod - 1 - x

-- Digits beyond those that the number has make no difference.
digits-spare :
    (z : ℕ → ℕ) (f : ℕ → ℕ → ℕ) (spare a b : ℕ)
    → (n : ℕ) → a ≤ n
    → n ≤ spare
    → digits z f spare a b ≡ digits z f n a b
digits-spare z f zero zero b zero p q = refl
digits-spare z f zero a b (suc n) p q = absurd (omega arith)
digits-spare z f zero (suc a) b zero p q = absurd (omega arith)
digits-spare z f (suc spare) zero b zero p q = refl
digits-spare z f (suc spare) zero b (suc n) p q = refl
digits-spare z f (suc spare) (suc a) b zero p q = absurd (omega arith)
digits-spare z f (suc spare) (suc a) b (suc n) p q =
    ap (λ (d : ℕ). d * 2 + f (suc a % 2) (b % 2))
      (digits-spare z f spare (suc a / 2) (b / 2) n (omega arith) (omega arith))

-- The lowest digit apart from the rest.
bit_or-split : (a b : ℕ) → bit_or a b ≡ bit_or (a / 2) (b / 2) * 2 + max (a % 2) (b % 2)
bit_or-split zero b = rw (bit_or-bitwise, bit_or-bitwise) (omega arith)
bit_or-split (suc a) b =
    rw (bit_or-bitwise (suc a) b, bit_or-bitwise (suc a / 2) (b / 2))
      (ap (λ (d : ℕ). d * 2 + max (suc a % 2) (b % 2))
        (digits-spare (λ y. y) max a (suc a / 2) (b / 2) (suc a / 2) (omega arith) (omega arith)))

bit_and-split : (a b : ℕ) → bit_and a b ≡ bit_and (a / 2) (b / 2) * 2 + min (a % 2) (b % 2)
bit_and-split zero b = rw (bit_and-bitwise, bit_and-bitwise) (omega arith)
bit_and-split (suc a) b =
    rw (bit_and-bitwise (suc a) b, bit_and-bitwise (suc a / 2) (b / 2))
      (ap (λ (d : ℕ). d * 2 + min (suc a % 2) (b % 2))
        (digits-spare (λ y. 0) min a (suc a / 2) (b / 2) (suc a / 2) (omega arith) (omega arith)))

-- With an empty right operand, by halving as often as the bound allows.
right-empty : (bound a : ℕ) → a ≤ bound → (bit_or a 0 ≡ a) × (bit_and a 0 ≡ 0)
right-empty zero a h = let e : a ≡ 0 = omega arith in rw e (refl, refl)
right-empty (suc bound) zero h = (refl, refl)
right-empty (suc bound) (suc a) h =
    let half = right-empty bound (suc a / 2) (omega arith) in
    (omega (arith, half, bit_or-split (suc a) 0), omega (arith, half, bit_and-split (suc a) 0))

double : (q k : ℕ) → q * 2 ^ suc k ≡ q * 2 ^ k * 2
double q k = rw (pow-suc 2 k) (omega arith)

-- `(q << k) | r` is a sum where `r` fits into `k` bits.
pub bit_or-shl : (k q r : ℕ) → r < 2 ^ k → bit_or (shl q k) r ≡ q * 2 ^ k + r
bit_or-shl zero q r h =
    let e : r ≡ 0 = omega arith in rw e (omega (arith, right-empty (q * 1) (q * 1) (omega arith)))
bit_or-shl (suc k) q r h =
    let half = bit_or-shl k q (r / 2) (omega (arith, pow-suc 2 k)) in
    let low : q * 2 ^ suc k / 2 ≡ q * 2 ^ k = omega (arith, double q k) in
    omega (arith, bit_or-split (q * 2 ^ suc k) r, ap (λ x. bit_or x (r / 2)) low, half, double q k)

mod-double : (x p : ℕ) → 0 < p → x % (p * 2) ≡ x / 2 % p * 2 + x % 2
mod-double x p h = grind arith

pub pow_add : (j k n : ℕ) → j + k ≡ n → 2 ^ n ≡ 2 ^ j * 2 ^ k
pow_add zero k n e = let e' : n ≡ k = omega arith in rw e' (omega arith)
pow_add (suc j) k zero e = absurd (omega arith)
pow_add (suc j) k (suc n) e =
    rw (pow-suc 2 n, pow-suc 2 j, pow_add j k n (omega arith)) (omega arith)

pub div-lt_of_mul : (x a p : ℕ) → 0 < p → x < a * p → x / p < a
div-lt_of_mul x a p h q = grind arith

-- `x & ((1 << k) - 1)` is the remainder by `2 ^ k`.
pub bit_and-low : (k x : ℕ) → bit_and x (2 ^ k - 1) ≡ x % 2 ^ k
bit_and-low zero x = omega (arith, right-empty x x (omega arith))
bit_and-low (suc k) x =
    let p = one-le-pow k 2 (omega arith) in
    let mask : (2 ^ suc k - 1) / 2 ≡ 2 ^ k - 1 = omega (arith, pow-suc 2 k, p) in
    omega (
      arith,
      bit_and-split x (2 ^ suc k - 1),
      ap (bit_and (x / 2)) mask,
      bit_and-low k (x / 2),
      mod-double x (2 ^ k) p,
      ap (λ (m : ℕ). x % m) (pow-suc 2 k),
      pow-suc 2 k,
      p,
    )

-- A mask with `k` empty digits below it sees the digits above alone.
bit_and-shl : (k x m : ℕ) → bit_and x (m * 2 ^ k) ≡ bit_and (x / 2 ^ k) m * 2 ^ k
bit_and-shl zero x m =
    let w : x / 1 ≡ x = omega arith in let n : m * 1 ≡ m = omega arith in rw (w, n) (omega arith)
bit_and-shl (suc k) x m =
    let low : m * 2 ^ suc k / 2 ≡ m * 2 ^ k = omega (arith, double m k) in
    let high : x / 2 / 2 ^ k ≡ x / 2 ^ suc k =
      div-div-eq-div-mul x 2 (2 ^ k) ∙ ap (λ (d : ℕ). x / d) (sym (pow-succ' 2 k)) in
    omega (
      arith,
      bit_and-split x (m * 2 ^ suc k),
      ap (bit_and (x / 2)) low,
      bit_and-shl k (x / 2) m,
      ap (λ (y : ℕ). bit_and y m * 2 ^ k) high,
      double m k,
      double (bit_and (x / 2 ^ suc k) m) k,
    )

mask-mul : (j p : ℕ) → 0 < j → 0 < p → j * p ≡ size_mod → not64 (p - 1) ≡ (j - 1) * p
mask-mul zero p h q e = elim h [ ]
mask-mul (suc j) p h q e =
    let f : j * p + p ≡ size_mod = omega (arith, e, suc-mul j p) in
    let g : (suc j - 1) * p ≡ j * p = ap (λ (t : ℕ). t * p) (omega arith) in omega (arith, f, g)

-- `x & ~((1 << k) - 1)` clears the `k` low digits.
pub bit_and-high :
    (k x : ℕ) → k ≤ 64 → x < size_mod → bit_and x (not64 (2 ^ k - 1)) ≡ x / 2 ^ k * 2 ^ k
bit_and-high k x h p =
    let e : size_mod ≡ 2 ^ (64 - k) * 2 ^ k = pow_add (64 - k) k 64 (omega arith) in
    let q = one-le-pow k 2 (omega arith) in
    let mask = mask-mul (2 ^ (64 - k)) (2 ^ k) (one-le-pow (64 - k) 2 (omega arith)) q (sym e) in
    rw (mask, bit_and-shl k x (2 ^ (64 - k) - 1), bit_and-low (64 - k) (x / 2 ^ k))
      (ap (λ (y : ℕ). y * 2 ^ k)
        (mod-eq_of_lt (div-lt_of_mul x (2 ^ (64 - k)) (2 ^ k) q (omega (arith, e)))))
