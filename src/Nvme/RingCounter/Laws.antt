-- ===== src/Nvme/RingCounter/Laws.antt =====
-- A ring counter's place is its absolute count, taken round the ring.
use supra_seal.Prelude.{ℕ, suc, ◌+◌, ◌*◌, ◌≤◌, ◌<◌, ◌≡◌, arith, size_max, size_mod, dec_lt}
use supra_seal.Nvme.RingCounter.{Counter, construct, idx, offset, increment, advance}

module _ (ring_size : ℕ) where
  -- Started at `start`, the counter has come `rounds` whole rounds and `place` entries further.
  pub record IsAt (start : ℕ) (c : Counter) : Type 0 where
    pub rounds : ℕ
    pub place_in : c.place < ring_size
    pub reached : c.abs ≡ start + rounds * ring_size + c.place

  pub construct-IsAt : (start : ℕ) → 0 < ring_size → IsAt start (construct start)
  unfolding construct
  construct-IsAt start h = record { rounds = 0; place_in = h; reached = omega arith }

  -- On a ring of at most 2^62 entries, `+=` by no more than the ring's size keeps the place in step
  -- with the count, as long as the count does not wrap.
  pub advance-IsAt :
      {start : ℕ} {c : Counter} (rhs : ℕ)
      → ring_size ≤ size_max
      → rhs ≤ ring_size
      → c.abs + rhs < size_mod
      → IsAt start c
      → IsAt start (advance ring_size rhs c)
  unfolding advance
  advance-IsAt {start} {c} rhs s h k v = elim (dec_lt (c.place + rhs) ring_size) [
    | yes p ↦ record {
      rounds = v.rounds;
      place_in = ground (arith, v);
      reached = ground (arith, v);
    }
    | no p ↦ record {
      rounds = suc (v.rounds);
      place_in = ground (arith, v);
      reached = ground (arith, v);
    }
  ]

  -- On a ring of at most 2^62 entries and a place in it, `++` is `+=` by one.
  increment-advance :
      (c : Counter)
      → ring_size ≤ size_max
      → c.place < ring_size
      → increment ring_size c ≡ advance ring_size 1 c
  unfolding increment advance
  increment-advance c s h = ground arith

-- For a divisor that is not 0 and a place in a ring of a whole number of groups, `idx` and `offset`
-- make up the place and lie in range.
idx-offset :
    (groups divisor : ℕ) (c : Counter)
    → 0 < divisor
    → c.place < groups * divisor
    → (idx divisor c * divisor + offset divisor c ≡ c.place)
      × (idx divisor c < groups)
      × (offset divisor c < divisor)
unfolding idx offset
idx-offset groups divisor c p h = grind arith
