-- ===== src/Nvme/RingBuffer/Inv.antt =====
-- The representation invariant of `ring_buffer_t`, and that every operation keeps it.
use supra_seal.Prelude.{
  ℕ, suc, ◌-◌, ◌≤◌, ◌<◌, ◌≡◌, ◌≢◌, refl, ◌∙◌, arith, length, get_or, size_max, length-set,
  length-replicate, get_or-replicate, get_or-set_self, get_or-set_ne,
}
use supra_seal.Nvme.Window.{next, span, span-next_head, span-next_tail}
use supra_seal.Nvme.RingBuffer.{
  Ring, create, incr, decr, sub, add, reserve_nocheck, incr_valid, release,
}

-- The size is one that memory can hold, with a slot beside the one that stays free.
module _ (count : ℕ) where
  abbrev pub IsSized : Type 0
  IsSized = (1 < count) × (count ≤ size_max)

  -- `cur_size` counts the slots from `tail` up to `head`, and the slot at `head` is invalid.
  pub record IsValid (r : Ring) : Type 0 where
    pub slots : length r.valid ≡ count
    pub head_in : r.head < count
    pub head_valid_in : r.head_valid < count
    pub tail_in : r.tail < count
    pub counted : r.cur_size ≡ span count r.tail r.head
    pub unused : get_or r.valid r.head 0 ≡ 0

  pub incr-next : IsSized → (i : ℕ) → i < count → incr count i ≡ next count i
  unfolding incr
  incr-next s i h = ground arith

  -- On indices of a ring of 2 to 2^62 slots, `add` and `sub` are inverse, and `incr` and `decr` are
  -- steps by one.
  index_laws :
      (a b : ℕ)
      → IsSized
      → a < count
      → b < count
      → (add count a b < count)
        × (sub count (add count a b) b ≡ a)
        × (add count b (sub count a b) ≡ a)
        × (incr count a ≡ add count a 1)
        × (decr count (incr count a) ≡ a)
        × (incr count (decr count a) ≡ a)
  unfolding add sub incr decr
  index_laws a b s p q = ground arith

  pub create-IsValid : IsSized → IsValid (create count)
  unfolding create
  create-IsValid s = record {
    slots = length-replicate count 0;
    head_in = omega arith;
    head_valid_in = omega arith;
    tail_in = omega arith;
    counted = refl;
    unused = get_or-replicate count 0 0;
  }

  pub reserve_nocheck-IsValid :
      {r : Ring}
      → IsSized
      → IsValid r
      → r.cur_size < count - 1
      → IsValid (reserve_nocheck count r).1
  unfolding reserve_nocheck
  reserve_nocheck-IsValid {r} s v room =
      let step : span count r.tail (next count r.head) ≡ suc r.cur_size =
        rw (v.counted)
          (span-next_head count r.tail r.head v.tail_in v.head_in (rw (← v.counted) room)) in
      rw (incr-next s r.head v.head_in) (record {
        slots = length-set r.valid (next count r.head) 0 ∙ v.slots;
        head_in = ground (arith, v);
        head_valid_in = v.head_valid_in;
        tail_in = v.tail_in;
        counted = omega arith;
        unused = get_or-set_self r.valid (next count r.head) 0 0 (ground (arith, v));
      })

  pub release-IsValid :
      {r : Ring} → IsSized → IsValid r → r.cur_size ≢ 0 → IsValid (release count r)
  unfolding release
  release-IsValid {r} s v some_used =
      let step : span count (next count r.tail) r.head ≡ r.cur_size - 1 =
        rw (v.counted)
          (span-next_tail count r.tail r.head v.tail_in v.head_in (rw (← v.counted) some_used)) in
      rw (incr-next s r.tail v.tail_in) (record {
        slots = v.slots;
        head_in = v.head_in;
        head_valid_in = v.head_valid_in;
        tail_in = ground (arith, v);
        counted = ground (arith, v, step);
        unused = v.unused;
      })

  pub incr_valid-IsValid :
      {r : Ring} (idx amount : ℕ) → IsValid r → idx ≢ r.head → IsValid (incr_valid idx amount r)
  unfolding incr_valid
  incr_valid-IsValid {r} idx amount v apart = record {
    slots = length-set r.valid idx _ ∙ v.slots;
    head_in = v.head_in;
    head_valid_in = v.head_valid_in;
    tail_in = v.tail_in;
    counted = v.counted;
    unused = get_or-set_ne r.valid _ 0 apart ∙ v.unused;
  }
