-- ===== src/Nvme/RingBuffer/ReleaseValid.antt =====
-- `release_valid` of `ring_buffer_t`: the valid slots at the tail are released, and their marks cleared.
use supra_seal.Prelude.{
  ℕ, zero, suc, ◌-◌, ◌≤◌, ◌<◌, ◌≡◌, ◌≢◌, inl, inr, Bool-cases, ℕ_discrete, refl, ◌∙◌, ap, Option,
  some, List, [], ◌∷◌, ◌++◌, arith, length, get_or, set, sub64, add64, size_mod, true, false,
  length-set, get_or-set_self, get_or-set_ne,
}
use supra_seal.Nvme.Window.{span}
use supra_seal.Nvme.RingBuffer.{Ring, incr, is_valid, release_valid, release}
use supra_seal.Nvme.RingBuffer.Inv.{IsSized, IsValid, incr-next, release-IsValid}
use supra_seal.Nvme.RingBuffer.Queue.{slots, in_use, release_lem}
use supra_seal.Nvme.RingBuffer.Drain.{AllValid, is_valid-le, is_valid-lt, valid-ne_head}

AllValid-unset :
    (threshold i : ℕ) (marks is : List ℕ)
    → 0 < threshold
    → i < length marks
    → AllValid threshold (set marks i 0) is
    → AllValid threshold marks is
AllValid-unset t i marks [] p q h = tt
AllValid-unset t i marks (k ∷ is) p q h = elim (ℕ_discrete i k) [
  | yes e ↦
      absurd
        (omega (arith, h.0, get_or-set_self marks i 0 0 q, ap (λ j. get_or (set marks i 0) j 0) e))
  | no n ↦ (omega (arith, h.0, get_or-set_ne marks 0 0 n), AllValid-unset t i marks is p q h.1)
]

module _ (count threshold : ℕ) where
  -- the ring after one round of the loop
  abbrev pub round : Ring → Ring
  round r = record r {
    valid = set r.valid r.tail 0;
    tail = incr count r.tail;
    cur_size = sub64 r.cur_size 1;
  }

  release-stop :
      (fuel : ℕ) (r : Ring)
      → is_valid threshold r.tail r ≡ false
      → release_valid count threshold (suc fuel) r ≡ some (0, r)
  unfolding release_valid
  release-stop fuel r e = rw e

  release-go :
      (fuel c : ℕ) (r u : Ring)
      → is_valid threshold r.tail r ≡ true
      → release_valid count threshold fuel (round r) ≡ some (c, u)
      → release_valid count threshold (suc fuel) r ≡ some (add64 c 1, u)
  unfolding release_valid
  release-go fuel c r u e g = rw (e, g)

  -- The loop released `cnt` slots off the front, all of them valid, and stopped at a tail that is not.
  pub record Released (r : Ring) (cnt : ℕ) (out : Option (ℕ × Ring)) : Type 0 where
    pub ring : Ring
    pub result : out ≡ some (cnt, ring)
    pub keeps : IsValid count ring
    pub front : in_use count r ≡ slots count r.tail cnt ++ in_use count ring
    pub were_valid : AllValid threshold r.valid (slots count r.tail cnt)
    pub stops : get_or ring.valid ring.tail 0 < threshold

  used : {r : Ring} → IsValid count r → r.tail ≢ r.head → r.cur_size ≢ 0
  used {r} v apart = rw (v.counted) (ground (arith, v, apart))

  release_fields :
      (r : Ring)
      → IsSized count
      → IsValid count r
      → r.tail ≢ r.head
      → (incr count r.tail < count) × (sub64 r.cur_size 1 ≡ span count (incr count r.tail) r.head)
  unfolding release
  release_fields r s v apart =
      let out = release-IsValid count s v (used v apart) in (out.tail_in, out.counted)

  round-IsValid :
      {r : Ring} → IsSized count → IsValid count r → r.tail ≢ r.head → IsValid count (round r)
  round-IsValid {r} s v apart = record {
    slots = length-set r.valid r.tail 0 ∙ v.slots;
    head_in = v.head_in;
    head_valid_in = v.head_valid_in;
    tail_in = (release_fields r s v apart).0;
    counted = (release_fields r s v apart).1;
    unused = get_or-set_ne r.valid 0 0 apart ∙ v.unused;
  }

  round-in_use :
      {r : Ring}
      → IsSized count
      → IsValid count r
      → r.tail ≢ r.head
      → in_use count r ≡ r.tail ∷ in_use count (round r)
  unfolding release
  round-in_use {r} s v apart = (release_lem count s v (used v apart)).0

  release-cons :
      (fuel cnt : ℕ) (r : Ring)
      → IsSized count
      → 0 < threshold
      → IsValid count r
      → cnt < size_mod - 1
      → is_valid threshold r.tail r ≡ true
      → Released (round r) cnt (release_valid count threshold fuel (round r))
      → Released r (suc cnt) (release_valid count threshold (suc fuel) r)
  release-cons fuel cnt r s p v small on rest =
      let apart : r.tail ≢ r.head = valid-ne_head count threshold r.tail p v on in
      record {
        ring = rest.ring;
        result =
            release-go fuel cnt r rest.ring on rest.result
            ∙ ap (λ c. some (c, rest.ring)) (omega arith);
        keeps = rest.keeps;
        front =
            round-in_use s v apart
            ∙ ap (◌∷◌ r.tail) (
                rest.front
                ∙ ap (λ t. slots count t cnt ++ in_use count rest.ring)
                    (incr-next count s r.tail v.tail_in));
        were_valid = (
          is_valid-le count threshold r.tail r on,
          AllValid-unset threshold r.tail r.valid _ p (omega arith)
              (rw (incr-next count s r.tail v.tail_in) at rest.were_valid),
        );
        stops = rest.stops;
      }

  -- On a valid ring of 2 to 2^62 slots with a threshold that is not 0, fuel for the slots in use
  -- lets the loop of `release_valid` end: it releases exactly the valid slots at the tail, up to
  -- the first that is not valid, answers with their number, and leaves a valid ring.
  pub release_valid-ends :
      (fuel : ℕ) (r : Ring)
      → IsSized count
      → 0 < threshold
      → IsValid count r
      → r.cur_size < fuel
      → (cnt : ℕ) × (cnt ≤ r.cur_size) × Released r cnt (release_valid count threshold fuel r)
  release_valid-ends zero r s p v h = absurd (omega arith)
  release_valid-ends (suc fuel) r s p v h = elim (Bool-cases (is_valid threshold r.tail r)) [
    | inr stop ↦ (
      0,
      omega arith,
      record {
        ring = r;
        result = release-stop fuel r stop;
        keeps = v;
        front = refl;
        were_valid = tt;
        stops = is_valid-lt count threshold r.tail r stop;
      },
    )
    | inl on ↦
        let apart : r.tail ≢ r.head = valid-ne_head count threshold r.tail p v on in
        let small : r.cur_size < count = rw (v.counted) (ground (arith, v)) in
        let (cnt, short, rest) =
          release_valid-ends fuel (round r) s p (round-IsValid s v apart)
            (omega (arith, used v apart)) in
        (
          suc cnt,
          omega (arith, used v apart),
          release-cons fuel cnt r s p v (omega (arith, used v apart)) on rest,
        )
  ]
