-- ===== src/Nvme/Fifo/Threads.antt =====
-- One producer and one consumer on a `mt_fifo_t`, interleaved between the accesses to the atomic
-- `head` and `tail` and to the entries of `store` (`enqueue` and `dequeue` of nvme/ring_t.hpp).
pub mod Order
use mathlib.Core.List.{append_assoc}
use supra_seal.Prelude.{
  ℕ, ◌-◌, ◌≤◌, ◌<◌, ◌≡◌, ◌≢◌, sym, subst, refl, ◌∙◌, ap, Option, none, List, [], ◌∷◌, ◌++◌, arith,
  length, get_or, set, length-set, sub64, ◌==◌, true, false, get_or-set_ne, get_or-set_self,
}
use supra_seal.Nvme.Window.{
  next, span, window, window-snoc, window-set_end, window-pos, pos-span, span-next_head,
  span-next_tail,
}
use supra_seal.Nvme.Fifo.{Fifo, advance, size_of}
use supra_seal.Nvme.Fifo.Refine.{IsValid, queue, advance-next}

-- Where the producer stands in `enqueue`: before it, after the load of `head` in `is_full`, after
-- the assertion, after the write of the entry, or stopped by the assertion.
pub data Producer (A : Type 0) : Type 0 where
  idle : Producer A
  checking : Option A → ℕ → Producer A
  storing : Option A → Producer A
  publishing : Option A → ℕ → Producer A
  aborted : Producer A

-- Where the consumer stands in `dequeue`: before it, after the load of `head` in `size`, after the
-- test, or after the read of the entry.
pub data Consumer (A : Type 0) : Type 0 where
  idle : Consumer A
  sizing : ℕ → Consumer A
  loading : Consumer A
  publishing : Option A → ℕ → Consumer A

-- The shared object, both threads, and what each has handed over or got so far, oldest first.
pub record Shared (A : Type 0) : Type 0 where
  pub fifo : Fifo A
  pub producer : Producer A
  pub consumer : Consumer A
  pub sent : List (Option A)
  pub received : List (Option A)

module _ {A : Type 0} where
  pub data Step (s : Shared A) : Shared A → Type 0 where
    load_head :
        (obj : Option A)
        → s.producer ≡ Producer.idle
        → Step s (record s { producer = Producer.checking obj s.fifo.head })
    full :
        (obj : Option A) (h : ℕ)
        → s.producer ≡ Producer.checking obj h
        → (size_of s.fifo h s.fifo.tail == sub64 (length s.fifo.store) 1) ≡ true
        → Step s (record s { producer = Producer.aborted })
    free :
        (obj : Option A) (h : ℕ)
        → s.producer ≡ Producer.checking obj h
        → (size_of s.fifo h s.fifo.tail == sub64 (length s.fifo.store) 1) ≡ false
        → Step s (record s { producer = Producer.storing obj })
    write_entry :
        (obj : Option A)
        → s.producer ≡ Producer.storing obj
        → Step s (record s {
          fifo = record (s.fifo) { store = set s.fifo.store s.fifo.head obj };
          producer = Producer.publishing obj s.fifo.head;
        })
    publish_head :
        (obj : Option A) (h : ℕ)
        → s.producer ≡ Producer.publishing obj h
        → Step s (record s {
          fifo = record (s.fifo) { head = advance s.fifo h };
          producer = Producer.idle;
          sent = s.sent ++ obj ∷ [];
        })
    observe_head :
        s.consumer ≡ Consumer.idle → Step s (record s { consumer = Consumer.sizing s.fifo.head })
    empty :
        (h : ℕ)
        → s.consumer ≡ Consumer.sizing h
        → (size_of s.fifo h s.fifo.tail == 0) ≡ true
        → Step s (record s { consumer = Consumer.idle })
    occupied :
        (h : ℕ)
        → s.consumer ≡ Consumer.sizing h
        → (size_of s.fifo h s.fifo.tail == 0) ≡ false
        → Step s (record s { consumer = Consumer.loading })
    read_entry :
        s.consumer ≡ Consumer.loading
        → Step s (record s {
          consumer = Consumer.publishing (get_or s.fifo.store s.fifo.tail none) s.fifo.tail;
        })
    publish_tail :
        (obj : Option A) (t : ℕ)
        → s.consumer ≡ Consumer.publishing obj t
        → Step s (record s {
          fifo = record (s.fifo) { tail = advance s.fifo t };
          consumer = Consumer.idle;
          received = s.received ++ obj ∷ [];
        })

  -- the number of entries between `tail` and `head`
  abbrev pub pending : Fifo A → ℕ
  pending f = span (length f.store) f.tail f.head

  -- What the producer has made sure of at each place.
  abbrev pub ProducerIs : Fifo A → Producer A → Type 0
  ProducerIs f Producer.idle = Unit {0}
  ProducerIs f (Producer.checking obj h) = h ≡ f.head
  ProducerIs f (Producer.storing obj) = pending f < length f.store - 1
  ProducerIs f (Producer.publishing obj h) =
      (h ≡ f.head) × (pending f < length f.store - 1) × (get_or f.store f.head none ≡ obj)
  ProducerIs f Producer.aborted = Unit {0}

  -- What the consumer has made sure of at each place: a `head` that it loaded may be out of date.
  abbrev pub ConsumerIs : Fifo A → Consumer A → Type 0
  ConsumerIs f Consumer.idle = Unit {0}
  ConsumerIs f (Consumer.sizing h) =
      (h < length f.store) × (span (length f.store) f.tail h ≤ pending f)
  ConsumerIs f Consumer.loading = pending f ≢ 0
  ConsumerIs f (Consumer.publishing obj t) =
      (t ≡ f.tail) × (pending f ≢ 0) × (get_or f.store f.tail none ≡ obj)

  pub record Inv (s : Shared A) : Type 0 where
    pub valid : IsValid s.fifo
    pub producing : ProducerIs s.fifo s.producer
    pub consuming : ConsumerIs s.fifo s.consumer
    pub ordered : s.sent ≡ s.received ++ queue s.fifo

  pub data Reach (s : Shared A) : Shared A → Type 0 where
    here : Reach s s
    after : {t u : Shared A} → Reach s t → Step t u → Reach s u

  -- Both threads before their first call, on an empty queue.
  abbrev pub start : Fifo A → Shared A
  start f = record {
    fifo = f;
    producer = Producer.idle;
    consumer = Consumer.idle;
    sent = [];
    received = [];
  }
