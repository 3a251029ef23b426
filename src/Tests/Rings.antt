-- ===== src/Tests/Rings.antt =====
-- The ring of slots and the ring counter of nvme/ring_t.hpp.
use supra_seal.Prelude.{ℕ, ◌≤◌, ◌<◌, ◌≡◌, ◌⊎◌, refl, arith, none, some, [], ◌∷◌, get_or}
use supra_seal.Nvme.RingBuffer
use supra_seal.Nvme.RingBuffer.{
  Ring, capacity, reserve, reserve_batch_nocheck, release, advance_valid, release_valid, incr, decr,
  add, sub,
}
use supra_seal.Nvme.RingBuffer.Inv.{IsSized, IsValid}
use supra_seal.Nvme.RingBuffer.Queue.{in_use, reserve_lem, release_lem}
use supra_seal.Nvme.RingBuffer.Batch.{reserve_each, batch-each}
use supra_seal.Nvme.RingBuffer.Drain.{Advanced, advance_valid-ends}
use supra_seal.Nvme.RingBuffer.ReleaseValid.{Released, release_valid-ends}
use supra_seal.Nvme.RingCounter.{Counter, advance}
use supra_seal.Nvme.RingCounter.Laws.{IsAt, advance-IsAt}

-- slots 3, 4, 0 and 1 of five are in use, of which the first three hold the two parts that they wait
-- for
abbrev ring : Ring
ring = record { valid = 2 ∷ 1 ∷ 0 ∷ 2 ∷ 2 ∷ []; head = 2; head_valid = 3; tail = 3; cur_size = 4 }

sized : IsSized 5
sized = (omega arith, omega arith)

ring-IsValid : IsValid 5 ring
ring-IsValid = record {
  slots = refl;
  head_in = omega arith;
  head_valid_in = omega arith;
  tail_in = omega arith;
  counted = refl;
  unused = refl;
}

-- two slots in use
abbrev roomy : Ring
roomy = record { valid = 0 ∷ 0 ∷ 0 ∷ 2 ∷ 1 ∷ []; head = 0; head_valid = 3; tail = 3; cur_size = 2 }

roomy-IsValid : IsValid 5 roomy
roomy-IsValid = record {
  slots = refl;
  head_in = omega arith;
  head_valid_in = omega arith;
  tail_in = omega arith;
  counted = refl;
  unused = refl;
}

reserve_lem_example :
    ((2 ≡ capacity 5) × (reserve 5 roomy ≡ (none, roomy)))
    ⊎ ((2 < capacity 5)
        × ((reserve 5 roomy).0 ≡ some 0)
        × (in_use 5 (reserve 5 roomy).1 ≡ 3 ∷ 4 ∷ 0 ∷ [])
        × (get_or (reserve 5 roomy).1.valid 0 0 ≡ 0)
        × IsValid 5 (reserve 5 roomy).1)
reserve_lem_example = reserve_lem 5 sized roomy-IsValid

release_lem_example :
    (in_use 5 roomy ≡ 3 ∷ in_use 5 (release 5 roomy)) × IsValid 5 (release 5 roomy)
release_lem_example = release_lem 5 sized roomy-IsValid (λ e. absurd (omega arith))

batch-each_example :
    let (first, batch, u) = reserve_batch_nocheck 5 2 roomy in
    (first ≡ 0) × (reserve_each 5 2 roomy ≡ (batch, u))
batch-each_example = batch-each 5 2 roomy (omega arith)

advance_valid-ends_example : (cnt : ℕ) × Advanced 5 2 ring cnt (advance_valid 5 2 6 ring)
advance_valid-ends_example =
    advance_valid-ends 5 2 6 ring sized (omega arith) ring-IsValid (omega arith)

release_valid-ends_example :
    (cnt : ℕ) × (cnt ≤ 4) × Released 5 2 ring cnt (release_valid 5 2 6 ring)
release_valid-ends_example =
    release_valid-ends 5 2 6 ring sized (omega arith) ring-IsValid (omega arith)

release_three :
    release_valid 5 2 6 ring
    ≡ some (
      3,
      record { valid = 0 ∷ 1 ∷ 0 ∷ 0 ∷ 0 ∷ []; head = 2; head_valid = 3; tail = 1; cur_size = 1 },
    )
unfolding release_valid RingBuffer.is_tail_valid RingBuffer.is_valid RingBuffer.get_valid release
    incr
release_three = refl

-- seven entries on from 100, in a ring of six
abbrev counter : Counter
counter = record { abs = 107; place = 1 }

counter-IsAt : IsAt 6 100 counter
counter-IsAt = record { rounds = 1; place_in = omega arith; reached = refl }

advance-IsAt_example : IsAt 6 100 (advance 6 5 counter)
advance-IsAt_example = advance-IsAt 6 5 (omega arith) (omega arith) (omega arith) counter-IsAt
