-- ===== src/Nvme/Window.antt =====
-- Indices that go round an array of `cap` entries, and the entries that lie between two of them.
use supra_seal.Prelude.{
  ℕ, zero, suc, ◌+◌, ◌-◌, ◌≤◌, ◌<◌, ◌≡◌, ◌≢◌, refl, ap, ap₂, sym, ◌∙◌, List, [], ◌∷◌, ◌++◌, arith,
  ltb, ◌==◌, if◌then◌else◌, length, get_or, set, get_or-set_self, get_or-set_ne, take, drop,
  drop-cons,
}

-- The index after `h`.
abbrev pub next : ℕ → ℕ → ℕ
next cap h = if h + 1 == cap then 0 else h + 1

-- The index `n` places after `h`.
abbrev pub pos : ℕ → ℕ → ℕ → ℕ
pos cap h n = if ltb (h + n) cap then h + n else h + n - cap

-- The number of places from `t` up to `h`.
abbrev pub span : ℕ → ℕ → ℕ → ℕ
span cap t h = if ltb h t then cap + h - t else h - t

pub pos-span : (cap t h : ℕ) → t < cap → h < cap → pos cap t (span cap t h) ≡ h
pos-span cap t h p q = ground arith

pub span-next_head :
    (cap t h : ℕ)
    → t < cap
    → h < cap
    → span cap t h < cap - 1
    → span cap t (next cap h) ≡ suc (span cap t h)
span-next_head cap t h p q r = ground arith

pub span-next_tail :
    (cap t h : ℕ)
    → t < cap
    → h < cap
    → span cap t h ≢ 0
    → span cap (next cap t) h ≡ span cap t h - 1
span-next_tail cap t h p q r = ground arith

-- Past `n` of the entries, `n` fewer are left.
pub span-pos :
    (cap t h n : ℕ)
    → t < cap
    → h < cap
    → n ≤ span cap t h
    → span cap (pos cap t n) h ≡ span cap t h - n
span-pos cap t h n p q r = ground arith

pub pos-zero : (cap h : ℕ) → h < cap → pos cap h 0 ≡ h
pos-zero cap h p = ground arith

pub pos-next : (cap h k : ℕ) → h < cap → k < cap → pos cap (next cap h) k ≡ pos cap h (suc k)
pos-next cap h k p q = ground arith

module _ {ℓ} {A : Type ℓ} (d : A) (cap : ℕ) where
  -- The `n` entries from index `h` on, going round at `cap`.
  abbrev pub window : List A → ℕ → ℕ → List A
  window buf h zero = []
  window buf h (suc n) = get_or buf h d ∷ window buf (next cap h) n

  pub length-window : (buf : List A) (h n : ℕ) → length (window buf h n) ≡ n
  length-window buf h zero = refl
  length-window buf h (suc n) = ap suc (length-window buf (next cap h) n)

  -- A write past the last entry of a window extends it.
  pub window-set :
      (buf : List A) (v : A) (n h i : ℕ)
      → cap ≤ length buf
      → h < cap
      → n < cap
      → i ≡ pos cap h n
      → window (set buf i v) h (suc n) ≡ window buf h n ++ v ∷ []
  window-set buf v zero h i room hh hn e =
      rw (e, pos-zero cap h hh, get_or-set_self buf h v d (omega arith))
  window-set buf v (suc n) h i room hh hn e = ap₂ ◌∷◌ (get_or-set_ne buf v d (ground arith)) (
      window-set buf v n (next cap h) i room (ground arith) (omega arith)
        (e ∙ sym (pos-next cap h n hh (omega arith))))

  -- The first entry of a window that is not empty.
  pub window-pos :
      (buf : List A) (h n : ℕ)
      → n ≢ 0
      → window buf h n ≡ get_or buf h d ∷ window buf (next cap h) (n - 1)
  window-pos buf h zero p = absurd (p refl)
  window-pos buf h (suc n) p = ap (λ k. get_or buf h d ∷ window buf (next cap h) k) (omega arith)

  -- The last entry of a window.
  pub window-snoc :
      (buf : List A) (n h i : ℕ)
      → h < cap
      → n < cap
      → i ≡ pos cap h n
      → window buf h (suc n) ≡ window buf h n ++ get_or buf i d ∷ []
  window-snoc buf zero h i hh hn e = rw (e, pos-zero cap h hh)
  window-snoc buf (suc n) h i hh hn e = ap (◌∷◌ (get_or buf h d)) (
      window-snoc buf n (next cap h) i (ground arith) (omega arith)
        (e ∙ sym (pos-next cap h n hh (omega arith))))

  -- A write just past a window leaves its entries.
  pub window-set_end :
      (buf : List A) (v : A) (n h i : ℕ)
      → h < cap
      → n < cap
      → i ≡ pos cap h n
      → window (set buf i v) h n ≡ window buf h n
  window-set_end buf v zero h i hh hn e = refl
  window-set_end buf v (suc n) h i hh hn e = ap₂ ◌∷◌ (get_or-set_ne buf v d (ground arith)) (
      window-set_end buf v n (next cap h) i (ground arith) (omega arith)
        (e ∙ sym (pos-next cap h n hh (omega arith))))

  pub take-window : (buf : List A) (n m h : ℕ) → n ≤ m → take n (window buf h m) ≡ window buf h n
  take-window buf zero m h p = refl
  take-window buf (suc n) zero h p = absurd (omega arith)
  take-window buf (suc n) (suc m) h p =
      ap (◌∷◌ (get_or buf h d)) (take-window buf n m (next cap h) (omega arith))

  pub drop-window :
      (buf : List A) (n m h : ℕ)
      → h < cap
      → n ≤ m
      → m ≤ cap
      → drop n (window buf h m) ≡ window buf (pos cap h n) (m - n)
  drop-window buf zero m h hh p q = rw (pos-zero cap h hh) (ap (window buf h) (omega arith))
  drop-window buf (suc n) zero h hh p q = absurd (omega arith)
  drop-window buf (suc n) (suc m) h hh p q =
      drop-window buf n m (next cap h) (ground arith) (omega arith) (omega arith)
      ∙ rw (pos-next cap h n hh (omega arith)) (ap (window buf (pos cap h (suc n))) (omega arith))

  -- A window that does not go round is a contiguous part of the array.
  pub take-drop-window :
      (buf : List A) (n h : ℕ)
      → cap ≡ length buf
      → h + n ≤ cap
      → take n (drop h buf) ≡ window buf h n
  take-drop-window buf zero h e p = refl
  take-drop-window buf (suc zero) h e p = rw (drop-cons buf h d (omega arith))
  take-drop-window buf (suc (suc n)) h e p =
      let on : next cap h ≡ suc h = ground arith in
      rw (drop-cons buf h d (omega arith), on)
        (ap (◌∷◌ (get_or buf h d)) (take-drop-window buf (suc n) (suc h) e (omega arith)))
