-- ===== src/Tests/Fifos.antt =====
-- The FIFO and the pool of nvme/ring_t.hpp.
use supra_seal.Prelude.{ℕ, ◌≡◌, ◌⊎◌, refl, arith, none, some, [], ◌∷◌, ◌++◌, ◌==◌, if◌then◌else◌}
use supra_seal.Nvme.Fifo
use supra_seal.Nvme.Fifo.{
  Fifo, construct, create, capacity, enqueue_nocheck, size, is_full, free_count, enqueue, dequeue,
  fill,
}
use supra_seal.Nvme.Fifo.Refine.{IsValid, queue, enqueue-queue, queue-nocheck, dequeue-queue}
use supra_seal.Nvme.Fifo.Threads.{Producer, Consumer, Shared, Step, Reach, here, after, start}
use supra_seal.Nvme.Fifo.Threads.Order.{fifo_order}
use supra_seal.Nvme.Pool.{Pool, dequeue_bulk}
use supra_seal.Nvme.Pool.Equiv.{as_fifo, bulk-queue}

-- 8, then 9, round the end of a store of three slots
abbrev wrapped : Fifo ℕ
wrapped = record { store = some 9 ∷ none ∷ some 8 ∷ []; contents = none; head = 1; tail = 2 }

wrapped-IsValid : IsValid wrapped
wrapped-IsValid = record { small = omega arith; head_in = omega arith; tail_in = omega arith }

-- one entry, with a slot left
abbrev single : Fifo ℕ
single = record { store = some 9 ∷ none ∷ some 8 ∷ []; contents = none; head = 0; tail = 2 }

single-IsValid : IsValid single
single-IsValid = record { small = omega arith; head_in = omega arith; tail_in = omega arith }

abbrev fresh : Fifo ℕ
fresh = record { store = none ∷ none ∷ none ∷ []; contents = none; head = 0; tail = 0 }

fresh-IsValid : IsValid fresh
fresh-IsValid = record { small = omega arith; head_in = omega arith; tail_in = omega arith }

enqueue_full : enqueue (some 7) wrapped ≡ none
unfolding enqueue is_full size
enqueue_full = refl

dequeue-wrapped : (dequeue wrapped).0 ≡ some 8
unfolding dequeue size
dequeue-wrapped = refl

enqueue-queue_example :
    enqueue (some 7) wrapped
    ≡ (if 2 == capacity wrapped then none else some (enqueue_nocheck (some 7) wrapped))
enqueue-queue_example = enqueue-queue (some 7) wrapped-IsValid

queue-nocheck_example : queue (enqueue_nocheck (some 7) single).1 ≡ some 8 ∷ some 7 ∷ []
unfolding capacity
queue-nocheck_example = queue-nocheck (some 7) single-IsValid (omega arith)

dequeue-queue_example :
    ((queue wrapped ≡ []) × (dequeue wrapped ≡ (none, wrapped)))
    ⊎ (queue wrapped ≡ (dequeue wrapped).0 ∷ queue (dequeue wrapped).1)
dequeue-queue_example = dequeue-queue wrapped-IsValid

-- The consumer is between its load of an entry and its store of `tail` when the producer enqueues a
-- second.
abbrev between : Shared ℕ
between = record {
  fifo = record { store = some 7 ∷ some 6 ∷ none ∷ []; contents = none; head = 2; tail = 0 };
  producer = Producer.idle;
  consumer = Consumer.publishing (some 7) 0;
  sent = some 7 ∷ some 6 ∷ [];
  received = [];
}

between-Reach : Reach (start fresh) between
unfolding Fifo.advance
between-Reach =
    after
      (after
        (after
          (after
            (after
              (after
                (after
                  (after
                    (after
                      (after (after here (Step.load_head (some 7) refl))
                        (Step.free (some 7) 0 refl refl))
                      (Step.write_entry (some 7) refl))
                    (Step.publish_head (some 7) 0 refl))
                  (Step.observe_head refl))
                (Step.load_head (some 6) refl))
              (Step.free (some 6) 1 refl refl))
            (Step.occupied 1 refl refl))
          (Step.read_entry refl))
        (Step.write_entry (some 6) refl))
      (Step.publish_head (some 6) 1 refl)

fifo_order_example : between.sent ≡ between.received ++ queue between.fifo
fifo_order_example = fifo_order fresh-IsValid refl between-Reach

abbrev pool : Pool ℕ
pool = record { store = some 4 ∷ some 5 ∷ some 6 ∷ none ∷ []; contents = none; head = 3; tail = 0 }

pool-IsValid : IsValid (as_fifo pool)
pool-IsValid = record { small = omega arith; head_in = omega arith; tail_in = omega arith }

bulk-queue_example :
    let (block, q) = dequeue_bulk 2 pool in
    (block ≡ some (some 4 ∷ some 5 ∷ [])) × (queue (as_fifo q) ≡ some 6 ∷ []) × IsValid (as_fifo q)
bulk-queue_example = bulk-queue 2 pool-IsValid
