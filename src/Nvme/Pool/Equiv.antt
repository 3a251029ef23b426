-- ===== src/Nvme/Pool/Equiv.antt =====
-- `pool_t` behaves as `mt_fifo_t`, and takes a contiguous block off as one dequeue at a time would.
use supra_seal.Prelude.{
  ℕ, ◌+◌, ◌≤◌, ◌<◌, ◌≡◌, sym, refl, ◌∙◌, ap, Option, none, some, arith, length, get_or, sub64,
  size_max, add64, ◌==◌, true, false, if◌then◌else◌, leb, ◌&&◌, take, drop, Bool-cases, Bool, inl,
  inr,
}
use supra_seal.Nvme.Window.{
  span, length-window, pos, span-pos, take-window, drop-window, take-drop-window,
}
use supra_seal.Nvme.Fifo
use supra_seal.Nvme.Fifo.{Fifo}
use supra_seal.Nvme.Fifo.Refine
use supra_seal.Nvme.Fifo.Refine.{IsValid, queue}
use supra_seal.Nvme.Pool.{Pool, size, is_full, bump, enqueue, dequeue, dequeue_bulk}

bulk_tail :
    (size t n : ℕ)
    → t + n ≤ size
    → size ≤ size_max
    → (if leb size (add64 t n) then sub64 (add64 t n) size else add64 t n) ≡ pos size t n
bulk_tail size t n h k = ground arith

module _ {ℓ} {A : Type ℓ} where
  -- the same state, as a `mt_fifo_t`
  abbrev pub as_fifo : Pool A → Fifo A
  as_fifo p = record { store = p.store; contents = p.contents; head = p.head; tail = p.tail }

  abbrev pub both : Option A × Pool A → Option A × Fifo A
  both (b, p) = (b, as_fifo p)

  size-as_fifo : (p : Pool A) → size p ≡ Fifo.size (as_fifo p)
  unfolding size Fifo.size
  size-as_fifo p = refl

  bump-advance :
      {p : Pool A} (i : ℕ)
      → IsValid (as_fifo p)
      → i < length p.store
      → bump p i ≡ Fifo.advance (as_fifo p) i
  unfolding bump Fifo.advance
  bump-advance {p} i v h = ground (arith, v)

  -- What `enqueue` of the pool gives, with the state as a `mt_fifo_t`.
  abbrev pub enqueued : Option (ℕ × Pool A) → Option (ℕ × Fifo A)
  enqueued none = none
  enqueued (some (rc, q)) = some (rc, as_fifo q)

  enqueued-if :
      (b : Bool) (r : ℕ × Pool A)
      → enqueued (if b then none else some r) ≡ (if b then none else some (r.0, as_fifo r.1))
  enqueued-if true r = refl
  enqueued-if false r = refl

  -- On a valid state `enqueue` of `pool_t` does what that of `mt_fifo_t` does, the assertion included.
  enqueue-as_fifo :
      {p : Pool A} (obj : Option A)
      → IsValid (as_fifo p)
      → enqueued (enqueue obj p) ≡ Fifo.enqueue obj (as_fifo p)
  unfolding enqueue Fifo.enqueue is_full Fifo.is_full
  enqueue-as_fifo {p} obj v = enqueued-if _ _ ∙ rw (bump-advance p.head v v.head_in, size-as_fifo p)

  both-if :
      (b : Bool) (x y : Option A × Pool A)
      → both (if b then x else y) ≡ (if b then both x else both y)
  both-if true x y = refl
  both-if false x y = refl

  -- On a valid state `dequeue` of `pool_t` does what that of `mt_fifo_t` does.
  dequeue-as_fifo : {p : Pool A} → IsValid (as_fifo p) → both (dequeue p) ≡ Fifo.dequeue (as_fifo p)
  unfolding dequeue Fifo.dequeue
  dequeue-as_fifo {p} v =
      both-if (size p == 0) (none, p)
        (get_or p.store p.tail none, record p { tail = bump p p.tail })
      ∙ rw (bump-advance p.tail v v.tail_in, size-as_fifo p)

  pos-IsValid :
      {p : Pool A} (n : ℕ)
      → IsValid (as_fifo p)
      → n ≤ length p.store
      → IsValid (as_fifo (record p { tail = pos (length p.store) p.tail n }))
  pos-IsValid {p} n v h = ground (arith, v)

  -- The test of `dequeue_bulk`, whose sum does not wrap where the entries are there.
  abbrev pub fits : ℕ → Pool A → Bool
  fits n p = leb n (length (queue (as_fifo p))) && leb (p.tail + n) (length p.store)

  fits-code :
      (n : ℕ) {p : Pool A}
      → IsValid (as_fifo p)
      → (leb n (size p) && leb (add64 p.tail n) (length p.store)) ≡ fits n p
  fits-code n {p} v =
      let s : size p < length p.store = rw (size-as_fifo p) (Refine.size-lt v) in
      rw (Refine.length-queue v, ← size-as_fifo p) (ground (arith, s, v))

  fits_bounds :
      (n : ℕ) (p : Pool A)
      → fits n p ≡ true
      → (n ≤ span (length p.store) p.tail p.head) × (p.tail + n ≤ length p.store)
  fits_bounds n p t =
      let l : length (queue (as_fifo p)) ≡ span (length p.store) p.tail p.head =
        length-window none (length p.store) p.store p.tail (span (length p.store) p.tail p.head) in
      ground (arith, l)

  bulk-taken :
      (n : ℕ) {p : Pool A}
      → IsValid (as_fifo p)
      → fits n p ≡ true
      → dequeue_bulk n p
        ≡ (some (take n (queue (as_fifo p))), record p { tail = pos (length p.store) p.tail n })
  unfolding dequeue_bulk
  bulk-taken n {p} v t =
      let b = fits_bounds n p t in
      rw (fits-code n v, t, bulk_tail (length p.store) p.tail n b.1 v.small)
        (ap (λ x. (some x, record p { tail = pos (length p.store) p.tail n }))
          (take-drop-window none (length p.store) p.store n p.tail refl b.1
            ∙ sym (take-window none (length p.store) p.store n _ p.tail b.0)))

  block_rest :
      (n : ℕ) {p : Pool A}
      → IsValid (as_fifo p)
      → fits n p ≡ true
      → queue (as_fifo (record p { tail = pos (length p.store) p.tail n }))
        ≡ drop n (queue (as_fifo p))
  block_rest n {p} v t =
      let b = fits_bounds n p t in
      rw (span-pos (length p.store) p.tail p.head n v.tail_in v.head_in b.0) (
        sym
          (drop-window none (length p.store) p.store n _ p.tail v.tail_in b.0 (ground (arith, v))))

  bulk-refused :
      (n : ℕ) {p : Pool A} → IsValid (as_fifo p) → fits n p ≡ false → dequeue_bulk n p ≡ (none, p)
  unfolding dequeue_bulk
  bulk-refused n {p} v t = rw (fits-code n v, t)

  -- On a valid state, `dequeue_bulk` takes a block off the front of the queue if that many entries
  -- are there and they do not run past the end of the array; otherwise it returns null and the
  -- queue stays. Either way the state stays valid.
  pub bulk-queue :
      {p : Pool A} (n : ℕ)
      → IsValid (as_fifo p)
      → let (block, q) = dequeue_bulk n p in
        (block ≡ (if fits n p then some (take n (queue (as_fifo p))) else none))
        × (queue (as_fifo q) ≡ (if fits n p then drop n (queue (as_fifo p)) else queue (as_fifo p)))
        × IsValid (as_fifo q)
  bulk-queue {p} n v = elim (Bool-cases (fits n p)) [
    | inl t ↦
        rw (bulk-taken n v t, t)
          (refl, block_rest n v t, pos-IsValid n v (omega (arith, fits_bounds n p t)))
    | inr t ↦ rw (bulk-refused n v t, t) (refl, refl, v)
  ]
