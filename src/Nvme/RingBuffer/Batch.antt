-- ===== src/Nvme/RingBuffer/Batch.antt =====
-- `reserve_batch_nocheck` of `ring_buffer_t`, against one reservation at a time.
use supra_seal.Prelude.{
  ℕ, zero, suc, ◌+◌, ◌-◌, ◌≤◌, ◌<◌, ◌≡◌, sym, subst, refl, ◌∙◌, ap, List, [], ◌∷◌, ◌++◌, arith,
  length, set, add64, size_mod,
}
use mathlib.Core.List.{append-nil, append_assoc}
use supra_seal.Nvme.RingBuffer.{Ring, incr, reserve_nocheck, batch_loop, reserve_batch_nocheck}
use supra_seal.Nvme.RingBuffer.Inv.{IsSized, IsValid, reserve_nocheck-IsValid}
use supra_seal.Nvme.RingBuffer.Queue.{in_use, length-slots, in_use-reserve_nocheck}

module _ (count : ℕ) where
  -- `n` calls of `reserve_nocheck`, one after the other
  abbrev pub reserve_each : ℕ → Ring → List ℕ × Ring
  reserve_each zero r = ([], r)
  reserve_each (suc n) r =
      let (i, u) = reserve_nocheck count r in let (is, w) = reserve_each n u in (i ∷ is, w)

  -- `cur_size` has no part in the loop.
  batch_loop-size :
      (n c : ℕ) (r : Ring)
      → batch_loop count n (record r { cur_size = c })
        ≡ ((batch_loop count n r).0, record ((batch_loop count n r).1) { cur_size = c })
  unfolding batch_loop
  batch_loop-size zero c r = refl
  batch_loop-size (suc n) c r =
      ap (λ (p : List ℕ × Ring). (r.head ∷ p.0, p.1))
        (batch_loop-size n c
          (record r { valid = set r.valid (incr count r.head) 0; head = incr count r.head }))

  size-batch_loop : (n : ℕ) (r : Ring) → (batch_loop count n r).1.cur_size ≡ r.cur_size
  size-batch_loop n r = ap (λ (p : List ℕ × Ring). p.1.cur_size) (batch_loop-size n r.cur_size r)

  each-batch_loop :
      (n : ℕ) (r : Ring)
      → r.cur_size + n < size_mod
      → reserve_each n r ≡ (
        (batch_loop count n r).0,
        record ((batch_loop count n r).1) { cur_size = r.cur_size + n },
      )
  unfolding batch_loop reserve_nocheck
  each-batch_loop zero r h = ap (λ c. ([], record r { cur_size = c })) (omega arith)
  each-batch_loop (suc n) r h =
      let r1 : Ring = record r {
        valid = set r.valid (incr count r.head) 0;
        head = incr count r.head;
      } in
      let c1 : ℕ = add64 r.cur_size 1 in
      let total : c1 + n ≡ r.cur_size + suc n = omega arith in
      ap (λ (p : List ℕ × Ring). (r.head ∷ p.0, p.1))
        (each-batch_loop n (record r1 { cur_size = c1 }) (omega arith)
          ∙ ap (λ (p : List ℕ × Ring). (p.0, record (p.1) { cur_size = c1 + n }))
              (batch_loop-size n c1 r1)
          ∙ ap
              (λ t.
                ((batch_loop count n r1).0, record ((batch_loop count n r1).1) { cur_size = t }))
              total)

  -- As long as the count of slots in use does not wrap, `reserve_batch_nocheck` leaves the state
  -- that as many calls of `reserve_nocheck` leave, and answers with the same slots and the head.
  pub batch-each :
      (n : ℕ) (r : Ring)
      → r.cur_size + n < size_mod
      → let (first, batch, u) = reserve_batch_nocheck count n r in
        (first ≡ r.head) × (reserve_each n r ≡ (batch, u))
  unfolding reserve_batch_nocheck
  batch-each n r h = (
    refl,
    each-batch_loop n r h
        ∙ ap (λ c. ((batch_loop count n r).0, record ((batch_loop count n r).1) { cur_size = c }))
            (omega (arith, size-batch_loop n r)),
  )

  size-reserve_nocheck : (r : Ring) → (reserve_nocheck count r).1.cur_size ≡ add64 r.cur_size 1
  unfolding reserve_nocheck
  size-reserve_nocheck r = refl

  slot-reserve_nocheck : (r : Ring) → (reserve_nocheck count r).0 ≡ r.head
  unfolding reserve_nocheck
  slot-reserve_nocheck r = refl

  length-reserve_each : (n : ℕ) (r : Ring) → length (reserve_each n r).0 ≡ n
  length-reserve_each zero r = refl
  length-reserve_each (suc n) r = ap suc (length-reserve_each n (reserve_nocheck count r).1)

  in_use-reserve_each :
      (n : ℕ) {r : Ring}
      → IsSized count
      → IsValid count r
      → r.cur_size + n ≤ count - 1
      → (in_use count (reserve_each n r).1 ≡ in_use count r ++ (reserve_each n r).0)
        × IsValid count (reserve_each n r).1
  in_use-reserve_each zero {r} s v h = (sym (append-nil (in_use count r)), v)
  in_use-reserve_each (suc n) {r} s v h =
      let v1 = reserve_nocheck-IsValid count s v (omega arith) in
      let rest = in_use-reserve_each n s v1 (omega (arith, size-reserve_nocheck r)) in
      (
        rest.0
            ∙ ap (λ w. w ++ (reserve_each n (reserve_nocheck count r).1).0)
                (in_use-reserve_nocheck count s v (omega arith))
            ∙ append_assoc (in_use count r) (r.head ∷ [])
                (reserve_each n (reserve_nocheck count r).1).0
            ∙ ap (λ i. in_use count r ++ i ∷ (reserve_each n (reserve_nocheck count r).1).0)
                (sym (slot-reserve_nocheck r)),
        rest.1,
      )

  -- On a valid ring of 2 to 2^62 slots, a batch that fits goes to the end of the slots in use, in
  -- order, and the ring stays valid.
  batch_lem :
      (n : ℕ) {r : Ring}
      → IsSized count
      → IsValid count r
      → length (in_use count r) + n ≤ count - 1
      → let (first, batch, u) = reserve_batch_nocheck count n r in
        (in_use count u ≡ in_use count r ++ batch) × (length batch ≡ n) × IsValid count u
  batch_lem n {r} s v h =
      let len : length (in_use count r) ≡ r.cur_size = length-slots count r.tail r.cur_size in
      let each = in_use-reserve_each n s v (omega arith) in
      subst
        (λ (p : List ℕ × Ring).
          (in_use count p.1 ≡ in_use count r ++ p.0) × (length p.0 ≡ n) × IsValid count p.1)
        (batch-each n r (omega arith)).1 (each.0, length-reserve_each n r, each.1)
