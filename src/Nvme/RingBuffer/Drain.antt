-- ===== src/Nvme/RingBuffer/Drain.antt =====
-- The loops of `ring_buffer_t` that walk over valid slots: `advance_valid` and `release_valid`.
use supra_seal.Prelude.{
  ℕ, zero, suc, ◌-◌, ◌≤◌, ◌<◌, ◌≡◌, ◌≢◌, inl, inr, Bool-cases, ◌∙◌, ap, ap₂, Option, some, List, [],
  ◌∷◌, arith, get_or, add64, true, false,
}
use supra_seal.Nvme.Window.{next, span, pos, pos-zero, pos-next, span-next_tail}
use supra_seal.Nvme.RingBuffer.{Ring, is_valid, advance_valid}
use supra_seal.Nvme.RingBuffer.Inv.{IsSized, IsValid, incr-next}
use supra_seal.Nvme.RingBuffer.Queue.{slots}

-- The marks of every slot of the list reach the threshold.
abbrev pub AllValid : ℕ → List ℕ → List ℕ → Type 0
AllValid threshold marks [] = Unit {0}
AllValid threshold marks (i ∷ is) = (threshold ≤ get_or marks i 0) × AllValid threshold marks is

module _ (count threshold : ℕ) where
  pub is_valid-le :
      (i : ℕ) (r : Ring) → is_valid threshold i r ≡ true → threshold ≤ get_or r.valid i 0
  unfolding is_valid
  is_valid-le i r h = ground arith

  pub is_valid-lt :
      (i : ℕ) (r : Ring) → is_valid threshold i r ≡ false → get_or r.valid i 0 < threshold
  unfolding is_valid
  is_valid-lt i r h = ground arith

  advance-stop :
      (fuel : ℕ) (r : Ring)
      → is_valid threshold r.head_valid r ≡ false
      → advance_valid count threshold (suc fuel) r ≡ some (0, r)
  unfolding advance_valid
  advance-stop fuel r e = rw e

  advance-go :
      (fuel c : ℕ) (r u : Ring)
      → IsSized count
      → r.head_valid < count
      → is_valid threshold r.head_valid r ≡ true
      → advance_valid count threshold fuel (record r { head_valid = next count r.head_valid })
        ≡ some (c, u)
      → advance_valid count threshold (suc fuel) r ≡ some (add64 c 1, u)
  unfolding advance_valid
  advance-go fuel c r u s h e g = rw (e, incr-next count s r.head_valid h, g)

  -- The walk counted `cnt` slots from `head_valid` on, all valid and none past `head`, and stopped at
  -- one that is not.
  pub record Advanced (r : Ring) (cnt : ℕ) (out : Option (ℕ × Ring)) : Type 0 where
    pub result : out ≡ some (cnt, record r { head_valid = pos count r.head_valid cnt })
    pub short : cnt ≤ span count r.head_valid r.head
    pub passed : AllValid threshold r.valid (slots count r.head_valid cnt)
    pub stops : get_or r.valid (pos count r.head_valid cnt) 0 < threshold

  -- A slot that is valid is not the one at `head`.
  pub valid-ne_head :
      {r : Ring} (i : ℕ)
      → 0 < threshold
      → IsValid count r
      → is_valid threshold i r ≡ true
      → i ≢ r.head
  valid-ne_head {r} i p v on e =
      omega (arith, is_valid-le i r on, v.unused, ap (λ k. get_or r.valid k 0) e)

  advance-cons :
      (fuel cnt : ℕ) (r : Ring)
      → IsSized count
      → 0 < threshold
      → IsValid count r
      → is_valid threshold r.head_valid r ≡ true
      → Advanced
          (record r { head_valid = next count r.head_valid })
          cnt
          (advance_valid count threshold fuel (record r { head_valid = next count r.head_valid }))
      → Advanced r (suc cnt) (advance_valid count threshold (suc fuel) r)
  advance-cons fuel cnt r s p v on rest =
      let apart : r.head_valid ≢ r.head = valid-ne_head r.head_valid p v on in
      let far : span count r.head_valid r.head ≢ 0 = ground (arith, v, apart) in
      let onward : span count (next count r.head_valid) r.head
          ≡ span count r.head_valid r.head - 1 =
        span-next_tail count r.head_valid r.head v.head_valid_in v.head_in far in
      let near : span count r.head_valid r.head < count = ground (arith, v) in
      let short : suc cnt ≤ span count r.head_valid r.head = omega (arith, rest.short) in
      let step : pos count (next count r.head_valid) cnt ≡ pos count r.head_valid (suc cnt) =
        pos-next count r.head_valid cnt v.head_valid_in (omega arith) in
      record {
        result =
            advance-go fuel cnt r _ s v.head_valid_in on rest.result
            ∙ ap₂ (λ (c t : ℕ). some (c, record r { head_valid = t })) (omega arith) step;
        short = short;
        passed = (is_valid-le r.head_valid r on, rest.passed);
        stops = rw (← step) rest.stops;
      }

  -- On a valid ring of 2 to 2^62 slots with a threshold that is not 0, fuel for the distance from
  -- `head_valid` to `head` lets the loop of `advance_valid` end: it counts the valid slots that it
  -- passes, none beyond `head`, up to the first invalid one, where it leaves `head_valid`, and
  -- changes nothing else.
  pub advance_valid-ends :
      (fuel : ℕ) (r : Ring)
      → IsSized count
      → 0 < threshold
      → IsValid count r
      → span count r.head_valid r.head < fuel
      → (cnt : ℕ) × Advanced r cnt (advance_valid count threshold fuel r)
  advance_valid-ends zero r s p v h = absurd (omega arith)
  advance_valid-ends (suc fuel) r s p v h = elim (Bool-cases (is_valid threshold r.head_valid r)) [
    | inr stop ↦ (
      0,
      record {
        result = rw (pos-zero count r.head_valid v.head_valid_in) (advance-stop fuel r stop);
        short = omega arith;
        passed = tt;
        stops = rw (pos-zero count r.head_valid v.head_valid_in) (is_valid-lt r.head_valid r stop);
      },
    )
    | inl on ↦
        let v1 : IsValid count (record r { head_valid = next count r.head_valid }) =
          ground (arith, v) in
        let far : span count r.head_valid r.head ≢ 0 =
          ground (arith, v, valid-ne_head r.head_valid p v on) in
        let (cnt, rest) =
          advance_valid-ends fuel (record r { head_valid = next count r.head_valid }) s p v1
            (omega
              (arith, span-next_tail count r.head_valid r.head v.head_valid_in v.head_in far)) in
        (suc cnt, advance-cons fuel cnt r s p v on rest)
  ]
