-- ===== src/Nvme/Fifo/Threads/Order.antt =====
-- The invariant of the two threads, step by step, and the order in which pointers arrive.
use mathlib.Core.List.{append_assoc}
use supra_seal.Prelude.{
  ◌-◌, ◌<◌, ◌≡◌, ◌≢◌, sym, subst, refl, ◌∙◌, ap, Option, none, [], ◌∷◌, ◌++◌, arith, length, get_or,
  set, length-set, get_or-set_ne, get_or-set_self,
}
use supra_seal.Nvme.Window.{
  next, window, window-snoc, window-set_end, window-pos, pos-span, span-next_head, span-next_tail,
}
use supra_seal.Nvme.Fifo.{Fifo}
use supra_seal.Nvme.Fifo.Refine.{IsValid, queue, advance-next}
use supra_seal.Nvme.Fifo.Threads.{
  Producer, Consumer, Shared, Step, load_head, full, free, write_entry, publish_head, observe_head,
  empty, occupied, read_entry, publish_tail, pending, ProducerIs, ConsumerIs, Inv, Reach, here,
  after, start,
}

module _ {A : Type 0} where
  write-ConsumerIs :
      (f : Fifo A) (obj : Option A) (c : Consumer A)
      → IsValid f
      → ConsumerIs f c
      → ConsumerIs (record f { store = set f.store f.head obj }) c
  write-ConsumerIs f obj Consumer.idle v p = tt
  write-ConsumerIs f obj (Consumer.sizing h) v p = rw (length-set f.store f.head obj) p
  write-ConsumerIs f obj Consumer.loading v p = rw (length-set f.store f.head obj) p
  write-ConsumerIs f obj (Consumer.publishing x t) v (e, n, g) =
      rw (length-set f.store f.head obj)
        (e, n, get_or-set_ne f.store obj none (λ q. n (ground arith)) ∙ g)

  head-ConsumerIs :
      (f : Fifo A) (c : Consumer A)
      → IsValid f
      → pending f < length f.store - 1
      → ConsumerIs f c
      → ConsumerIs (record f { head = next (length f.store) f.head }) c
  head-ConsumerIs f Consumer.idle v r p = tt
  head-ConsumerIs f (Consumer.sizing h) v r p =
      omega (arith, span-next_head (length f.store) f.tail f.head v.tail_in v.head_in r)
  head-ConsumerIs f Consumer.loading v r p =
      omega (arith, span-next_head (length f.store) f.tail f.head v.tail_in v.head_in r)
  head-ConsumerIs f (Consumer.publishing x t) v r (e, n, g) =
      (e, omega (arith, span-next_head (length f.store) f.tail f.head v.tail_in v.head_in r), g)

  tail-ProducerIs :
      (f : Fifo A) (p : Producer A)
      → IsValid f
      → pending f ≢ 0
      → ProducerIs f p
      → ProducerIs (record f { tail = next (length f.store) f.tail }) p
  tail-ProducerIs f Producer.idle v r p = tt
  tail-ProducerIs f (Producer.checking x h) v r p = p
  tail-ProducerIs f (Producer.storing x) v r p =
      omega (arith, span-next_tail (length f.store) f.tail f.head v.tail_in v.head_in r)
  tail-ProducerIs f (Producer.publishing x h) v r (e, q, g) =
      (e, omega (arith, span-next_tail (length f.store) f.tail f.head v.tail_in v.head_in r), g)
  tail-ProducerIs f Producer.aborted v r p = tt

  -- The write of an entry keeps the invariant: it does not touch what the consumer may read.
  write_entry-Inv :
      (s : Shared A) (obj : Option A)
      → pending s.fifo < length s.fifo.store - 1
      → Inv s
      → Inv (record s {
        fifo = record (s.fifo) { store = set s.fifo.store s.fifo.head obj };
        producer = Producer.publishing obj s.fifo.head;
      })
  write_entry-Inv s obj r v =
      let len : length (set s.fifo.store s.fifo.head obj) ≡ length s.fifo.store =
        length-set s.fifo.store s.fifo.head obj in
      record {
        valid = record { small = omega arith; head_in = omega arith; tail_in = omega arith };
        producing =
            (refl, rw len r, get_or-set_self s.fifo.store s.fifo.head obj none v.valid.head_in);
        consuming = write-ConsumerIs s.fifo obj s.consumer v.valid v.consuming;
        ordered = rw len (
            v.ordered
            ∙ ap (◌++◌ s.received) (
                sym (
                  window-set_end none (length s.fifo.store) s.fifo.store obj (pending s.fifo)
                    s.fifo.tail s.fifo.head v.valid.tail_in (omega arith)
                    (sym (pos-span _ s.fifo.tail s.fifo.head v.valid.tail_in v.valid.head_in)))));
      }

  publish_head-Inv :
      (s : Shared A) (obj : Option A)
      → pending s.fifo < length s.fifo.store - 1
      → get_or s.fifo.store s.fifo.head none ≡ obj
      → Inv s
      → Inv (record s {
        fifo = record (s.fifo) { head = next (length s.fifo.store) s.fifo.head };
        producer = Producer.idle;
        sent = s.sent ++ obj ∷ [];
      })
  publish_head-Inv s obj r g v = record {
    valid = ground (arith, v.valid);
    producing = tt;
    consuming = head-ConsumerIs s.fifo s.consumer v.valid r v.consuming;
    ordered =
        rw
          (span-next_head (length s.fifo.store) s.fifo.tail s.fifo.head v.valid.tail_in
            v.valid.head_in r)
          (ap (λ w. w ++ obj ∷ []) v.ordered
            ∙ append_assoc s.received (queue s.fifo) (obj ∷ [])
            ∙ ap (◌++◌ s.received) (
                sym (
                  window-snoc none (length s.fifo.store) s.fifo.store (pending s.fifo) s.fifo.tail
                    s.fifo.head v.valid.tail_in (omega arith)
                    (sym (pos-span _ s.fifo.tail s.fifo.head v.valid.tail_in v.valid.head_in))
                  ∙ ap (λ x. queue s.fifo ++ x ∷ []) g)));
  }

  publish_tail-Inv :
      (s : Shared A) (obj : Option A)
      → pending s.fifo ≢ 0
      → get_or s.fifo.store s.fifo.tail none ≡ obj
      → Inv s
      → Inv (record s {
        fifo = record (s.fifo) { tail = next (length s.fifo.store) s.fifo.tail };
        consumer = Consumer.idle;
        received = s.received ++ obj ∷ [];
      })
  publish_tail-Inv s obj n g v = record {
    valid = ground (arith, v.valid);
    producing = tail-ProducerIs s.fifo s.producer v.valid n v.producing;
    consuming = tt;
    ordered =
        v.ordered
        ∙ ap (◌++◌ s.received)
            (window-pos none (length s.fifo.store) s.fifo.store s.fifo.tail (pending s.fifo) n)
        ∙ ap
            (λ x.
              s.received
              ++ x
                ∷ window none (length s.fifo.store) s.fifo.store
                    (next (length s.fifo.store) s.fifo.tail) (pending s.fifo - 1))
            g
        ∙ rw
            (span-next_tail (length s.fifo.store) s.fifo.tail s.fifo.head v.valid.tail_in
              v.valid.head_in n)
            (sym (
              append_assoc s.received (obj ∷ []) (
                window none (length s.fifo.store) s.fifo.store
                  (next (length s.fifo.store) s.fifo.tail) (pending s.fifo - 1))));
  }

  pub Step-Inv : {s u : Shared A} → Step s u → Inv s → Inv u
  Step-Inv {s} (load_head obj e) v = record {
    valid = v.valid;
    producing = refl;
    consuming = v.consuming;
    ordered = v.ordered;
  }
  Step-Inv {s} (full obj h e t) v = record {
    valid = v.valid;
    producing = tt;
    consuming = v.consuming;
    ordered = v.ordered;
  }
  Step-Inv {s} (free obj h e t) v =
      let p : h ≡ s.fifo.head = subst (ProducerIs s.fifo) e v.producing in
      record {
        valid = v.valid;
        producing = ground (arith, v.valid);
        consuming = v.consuming;
        ordered = v.ordered;
      }
  Step-Inv {s} (write_entry obj e) v =
      write_entry-Inv s obj (subst (ProducerIs s.fifo) e v.producing) v
  Step-Inv {s} (publish_head obj h e) v =
      let p : ProducerIs s.fifo (Producer.publishing obj h) =
        subst (ProducerIs s.fifo) e v.producing in
      rw (p.0, advance-next s.fifo.head v.valid v.valid.head_in) (publish_head-Inv s obj p.1 p.2 v)
  Step-Inv {s} (observe_head e) v = record {
    valid = v.valid;
    producing = v.producing;
    consuming = (v.valid.head_in, omega arith);
    ordered = v.ordered;
  }
  Step-Inv {s} (empty h e t) v = record {
    valid = v.valid;
    producing = v.producing;
    consuming = tt;
    ordered = v.ordered;
  }
  Step-Inv {s} (occupied h e t) v =
      let p : ConsumerIs s.fifo (Consumer.sizing h) = subst (ConsumerIs s.fifo) e v.consuming in
      record {
        valid = v.valid;
        producing = v.producing;
        consuming = ground (arith, p, v.valid);
        ordered = v.ordered;
      }
  Step-Inv {s} (read_entry e) v = record {
    valid = v.valid;
    producing = v.producing;
    consuming = (refl, subst (ConsumerIs s.fifo) e v.consuming, refl);
    ordered = v.ordered;
  }
  Step-Inv {s} (publish_tail obj t e) v =
      let p : ConsumerIs s.fifo (Consumer.publishing obj t) =
        subst (ConsumerIs s.fifo) e v.consuming in
      rw (p.0, advance-next s.fifo.tail v.valid v.valid.tail_in) (publish_tail-Inv s obj p.1 p.2 v)

  Reach-Inv : {s u : Shared A} → Reach s u → Inv s → Inv u
  Reach-Inv here v = v
  Reach-Inv (after r st) v = Step-Inv st (Reach-Inv r v)

  empty_pending : (f : Fifo A) → f.head ≡ f.tail → pending f ≡ 0
  empty_pending f e = ground arith

  -- On a valid empty queue, however one producer and one consumer are interleaved between their
  -- accesses to the shared memory: what was handed over is what was got, in the same order, and
  -- then what the queue holds.
  pub fifo_order :
      {f : Fifo A} {u : Shared A}
      → IsValid f
      → f.head ≡ f.tail
      → Reach (start f) u
      → u.sent ≡ u.received ++ queue u.fifo
  fifo_order {f} v e r =
      (Reach-Inv r (record {
        valid = v;
        producing = tt;
        consuming = tt;
        ordered = rw (empty_pending f e);
      })).ordered
