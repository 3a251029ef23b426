-- ===== src/Nvme/RingBuffer/Queue.antt =====
-- `ring_buffer_t` as a queue of slot numbers: `reserve` adds one at the end, `release` drops the first.
use supra_seal.Prelude.{
  ℕ, zero, suc, ◌-◌, ◌<◌, ◌≡◌, ◌≢◌, ◌⊎◌, inl, inr, ℕ_discrete, sym, refl, ◌∙◌, ap, none, some, List,
  [], ◌∷◌, ◌++◌, arith, length, get_or, sub64, add64, true, false, get_or-set_ne,
}
use supra_seal.Nvme.Window.{next, pos, pos-zero, pos-next, pos-span}
use supra_seal.Nvme.RingBuffer.{Ring, is_full, capacity, reserve_nocheck, reserve, release}
use supra_seal.Nvme.RingBuffer.Inv.{
  IsSized, IsValid, incr-next, reserve_nocheck-IsValid, release-IsValid,
}

module _ (count : ℕ) where
  -- `n` consecutive slots from the `t`-th on
  abbrev pub slots : ℕ → ℕ → List ℕ
  slots t zero = []
  slots t (suc n) = t ∷ slots (next count t) n

  pub length-slots : (t n : ℕ) → length (slots t n) ≡ n
  length-slots t zero = refl
  length-slots t (suc n) = ap suc (length-slots (next count t) n)

  pub slots-snoc :
      (t n h : ℕ)
      → t < count
      → n < count
      → h ≡ pos count t n
      → slots t (suc n) ≡ slots t n ++ h ∷ []
  slots-snoc t zero h p q e = rw (e, pos-zero count t p)
  slots-snoc t (suc n) h p q e = ap (◌∷◌ t) (
      slots-snoc (next count t) n h (ground arith) (omega arith)
        (e ∙ sym (pos-next count t n p (omega arith))))

  -- the slots in use, oldest first
  abbrev pub in_use : Ring → List ℕ
  in_use r = slots r.tail r.cur_size

  pub in_use-reserve_nocheck :
      {r : Ring}
      → IsSized count
      → IsValid count r
      → r.cur_size < count - 1
      → in_use (reserve_nocheck count r).1 ≡ in_use r ++ r.head ∷ []
  unfolding reserve_nocheck
  in_use-reserve_nocheck {r} s v room =
      let up : add64 r.cur_size 1 ≡ suc r.cur_size = omega arith in
      rw up (
        slots-snoc r.tail r.cur_size r.head v.tail_in (omega arith)
          (sym (pos-span count r.tail r.head v.tail_in v.head_in) ∙ rw (v.counted)))

  reserve-full : (r : Ring) → is_full count r ≡ true → reserve count r ≡ (none, r)
  unfolding reserve
  reserve-full r e = rw e

  reserve-free :
      (r : Ring)
      → is_full count r ≡ false
      → reserve count r ≡ (some (reserve_nocheck count r).0, (reserve_nocheck count r).1)
  unfolding reserve reserve_nocheck
  reserve-free r e = rw e

  reserved_slot : (r : Ring) → some (reserve_nocheck count r).0 ≡ some r.head
  unfolding reserve_nocheck
  reserved_slot r = refl

  -- The slot that `reserve` hands out is invalid, and stays so.
  invalid-reserve_nocheck :
      {r : Ring}
      → IsSized count
      → IsValid count r
      → get_or (reserve_nocheck count r).1.valid r.head 0 ≡ 0
  unfolding reserve_nocheck
  invalid-reserve_nocheck {r} s v =
      rw (incr-next count s r.head v.head_in)
        (get_or-set_ne r.valid 0 0 (ground (arith, s, v)) ∙ v.unused)

  -- On a valid ring of 2 to 2^62 slots, `reserve` refuses, without a change, exactly when the whole
  -- capacity is in use. Otherwise it adds the slot at `head` at the end, marked invalid, and the
  -- ring stays valid.
  pub reserve_lem :
      {r : Ring}
      → IsSized count
      → IsValid count r
      → ((length (in_use r) ≡ capacity count) × (reserve count r ≡ (none, r)))
        ⊎ ((length (in_use r) < capacity count)
            × ((reserve count r).0 ≡ some r.head)
            × (in_use (reserve count r).1 ≡ in_use r ++ r.head ∷ [])
            × (get_or (reserve count r).1.valid r.head 0 ≡ 0)
            × IsValid count (reserve count r).1)
  unfolding capacity is_full
  reserve_lem {r} s v =
      let len : length (in_use r) ≡ r.cur_size = length-slots r.tail r.cur_size in
      let small : r.cur_size < count = ground (arith, v) in
      elim (ℕ_discrete r.cur_size (count - 1)) [
        | yes e ↦ inl (omega arith, reserve-full r (ground arith))
        | no n ↦
            let free : is_full count r ≡ false = ground arith in
            inr (
              rw (reserve-free r free) (
                omega arith,
                reserved_slot r,
                in_use-reserve_nocheck s v (omega arith),
                invalid-reserve_nocheck s v,
                reserve_nocheck-IsValid count s v (omega arith),
              ))
      ]

  slots-pos : (t n : ℕ) → n ≢ 0 → slots t n ≡ t ∷ slots (next count t) (n - 1)
  slots-pos t zero p = absurd (p refl)
  slots-pos t (suc n) p = ap (λ k. t ∷ slots (next count t) k) (omega arith)

  in_use-release :
      {r : Ring}
      → IsSized count
      → IsValid count r
      → r.cur_size ≢ 0
      → in_use r ≡ r.tail ∷ in_use (release count r)
  unfolding release
  in_use-release {r} s v used =
      let small : r.cur_size < count = ground (arith, v) in
      let down : sub64 r.cur_size 1 ≡ r.cur_size - 1 = omega arith in
      rw (down, incr-next count s r.tail v.tail_in) (slots-pos r.tail r.cur_size used)

  -- On a valid ring of 2 to 2^62 slots with a slot in use, `release` drops the oldest, and the ring
  -- stays valid.
  pub release_lem :
      {r : Ring}
      → IsSized count
      → IsValid count r
      → r.cur_size ≢ 0
      → (in_use r ≡ r.tail ∷ in_use (release count r)) × IsValid count (release count r)
  release_lem {r} s v used = (in_use-release s v used, release-IsValid count s v used)
