-- ===== src/Nvme/Fifo/Refine.antt =====
-- A valid `mt_fifo_t` behaves as a bounded queue of the pointers between `tail` and `head`.
use mathlib.Core.List.{append-nil, append_assoc}
use supra_seal.Prelude.{
  ℕ, zero, suc, ◌+◌, ◌-◌, ◌≤◌, ◌<◌, ◌≡◌, ◌≢◌, ◌↔◌, sym, ℕ_discrete, ◌⊎◌, inl, inr, refl, ◌∙◌, ap,
  true, Option, none, some, List, [], ◌∷◌, ◌++◌, arith, ◌==◌, if◌then◌else◌, length, get_or, set,
  take, replicate, add64, sub64, length-append, length-take, length-replicate, length-set, size_max,
}
use supra_seal.Nvme.Window.{
  next, span, window, length-window, window-set, window-pos, pos-span, span-next_head,
  span-next_tail,
}
use supra_seal.Nvme.Fifo.{
  Fifo, construct, resize, create, capacity, advance, enqueue_nocheck, size, is_full, free_count,
  enqueue, dequeue, fill_loop, fill,
}

fill_span : (n : ℕ) → 0 < n → n ≤ size_max → span n 0 (sub64 n 1) ≡ sub64 n 1
fill_span n h k = ground arith

module _ {ℓ} {A : Type ℓ} where
  -- The indices lie inside the storage, and the sums of the code do not wrap.
  pub record IsValid (f : Fifo A) : Type 0 where
    pub small : length f.store ≤ size_max
    pub head_in : f.head < length f.store
    pub tail_in : f.tail < length f.store

  -- What the queue holds, oldest first.
  abbrev pub queue : Fifo A → List (Option A)
  queue f = window none (length f.store) f.store f.tail (span (length f.store) f.tail f.head)

  pub size-span : {f : Fifo A} → IsValid f → size f ≡ span (length f.store) f.tail f.head
  unfolding size
  size-span v = ground arith

  pub advance-next :
      {f : Fifo A} (i : ℕ) → IsValid f → i < length f.store → advance f i ≡ next (length f.store) i
  unfolding advance
  advance-next i v h = ground arith

  pub length-queue : {f : Fifo A} → IsValid f → length (queue f) ≡ size f
  length-queue {f} v = length-window none (length f.store) f.store f.tail _ ∙ sym (size-span v)

  pub size-lt : {f : Fifo A} → IsValid f → size f < length f.store
  size-lt {f} v = rw (size-span v) (ground arith)

  -- On a valid state the counts agree with the queue: `size` is its length, it never exceeds the capacity,
  -- `free_count` is what the capacity leaves, and `is_full` holds exactly when nothing is left.
  pub counts-queue :
      {f : Fifo A}
      → IsValid f
      → (size f ≡ length (queue f))
        × (length (queue f) ≤ capacity f)
        × (free_count f + length (queue f) ≡ capacity f)
        × ((is_full f ≡ true) ↔ (length (queue f) ≡ capacity f))
  unfolding capacity free_count is_full
  counts-queue {f} v =
      let q : size f < length f.store = size-lt v in
      rw (length-queue v) (refl, omega arith, omega arith, ground arith)

  -- On a valid state `enqueue` fails its assertion exactly when the queue is full, and otherwise does
  -- what `enqueue_nocheck` does.
  pub enqueue-queue :
      {f : Fifo A} (obj : Option A)
      → IsValid f
      → enqueue obj f
        ≡ (if length (queue f) == capacity f then none else some (enqueue_nocheck obj f))
  unfolding enqueue enqueue_nocheck is_full capacity
  enqueue-queue {f} obj v = rw (length-queue v)

  -- On a valid state `enqueue_nocheck` keeps both indices inside the storage, full or not.
  nocheck-IsValid : {f : Fifo A} (obj : Option A) → IsValid f → IsValid (enqueue_nocheck obj f).1
  unfolding enqueue_nocheck
  nocheck-IsValid {f} obj v = ground (arith, length-set f.store f.head obj, advance-next f.head v)

  -- On a valid state with room `enqueue_nocheck` puts the pointer at the end of the queue.
  pub queue-nocheck :
      {f : Fifo A} (obj : Option A)
      → IsValid f
      → length (queue f) < capacity f
      → queue (enqueue_nocheck obj f).1 ≡ queue f ++ obj ∷ []
  unfolding enqueue_nocheck capacity
  queue-nocheck {f} obj v room =
      let cap = length f.store in
      let short : span cap f.tail f.head < cap - 1 = omega (arith, length-queue v, size-span v) in
      rw (length-set f.store f.head obj, advance-next f.head v v.head_in)
        (rw (span-next_head cap f.tail f.head v.tail_in v.head_in short) (
          window-set none cap f.store obj _ f.tail f.head (omega arith) v.tail_in (omega arith)
            (sym (pos-span cap f.tail f.head v.tail_in v.head_in))))

  -- On a valid state `dequeue` keeps both indices inside the storage.
  pub dequeue-IsValid : {f : Fifo A} → IsValid f → IsValid (dequeue f).1
  unfolding dequeue
  dequeue-IsValid {f} v = ground (arith, advance-next f.tail v)

  dequeue-empty : (f : Fifo A) → size f ≡ 0 → dequeue f ≡ (none, f)
  unfolding dequeue
  dequeue-empty f e = rw e

  dequeue-some :
      (f : Fifo A)
      → size f ≢ 0
      → dequeue f ≡ (get_or f.store f.tail none, record f { tail = advance f f.tail })
  unfolding dequeue
  dequeue-some f e = ground arith

  -- On a valid state `dequeue` answers with the null pointer on an empty queue, which it leaves, and
  -- otherwise takes the oldest entry off.
  pub dequeue-queue :
      {f : Fifo A}
      → IsValid f
      → ((queue f ≡ []) × (dequeue f ≡ (none, f))) ⊎ (queue f ≡ (dequeue f).0 ∷ queue (dequeue f).1)
  dequeue-queue {f} v = elim (ℕ_discrete (size f) 0) [
    | yes e ↦ inl (rw (sym (size-span v) ∙ e), dequeue-empty f e)
    | no ne ↦ inr (
        rw (dequeue-some f ne, advance-next f.tail v v.tail_in)
          (rw
            (span-next_tail (length f.store) f.tail f.head v.tail_in v.head_in
              (λ z. ne (size-span v ∙ z)))
            (window-pos none (length f.store) f.store f.tail _ (λ z. ne (size-span v ∙ z)))))
  ]

  length-resize : (n : ℕ) (xs : List (Option A)) → length (resize n xs) ≡ n
  unfolding resize
  length-resize n xs = omega (
    arith,
    length-append (take n xs) (replicate (n - length xs) none),
    length-take n xs,
    length-replicate {A = Option A} (n - length xs) none,
  )

  -- `create` on a fresh object, with a count that memory can hold, gives an empty queue of that
  -- capacity.
  create-queue :
      (count : ℕ)
      → count < size_max
      → let f = (create count (construct {A = A})).1 in
        IsValid f × (queue f ≡ []) × (capacity f ≡ count)
  unfolding create construct capacity
  create-queue count h =
      let n : length (resize {A = A} (add64 count 1) []) ≡ count + 1 =
        omega (arith, length-resize (add64 count 1) []) in
      (
        record { small = omega arith; head_in = omega arith; tail_in = omega arith },
        refl,
        omega arith,
      )

  length-fill_loop :
      (elem : ℕ → A) (n i : ℕ) (xs : List (Option A)) → length (fill_loop elem n i xs) ≡ length xs
  unfolding fill_loop
  length-fill_loop elem zero i xs = refl
  length-fill_loop elem (suc n) i xs =
      length-fill_loop elem n (suc i) (set xs i (some (elem i))) ∙ length-set xs i (some (elem i))

  -- the addresses of `n` consecutive elements from the `i`-th on
  abbrev pub elements : (ℕ → A) → ℕ → ℕ → List (Option A)
  elements elem zero i = []
  elements elem (suc n) i = some (elem i) ∷ elements elem n (suc i)

  window-fill_loop :
      (elem : ℕ → A) (cap n i m : ℕ) (xs : List (Option A))
      → cap ≤ length xs
      → i + n ≡ m
      → m < cap
      → window none cap (fill_loop elem n i xs) 0 m ≡ window none cap xs 0 i ++ elements elem n i
  unfolding fill_loop
  window-fill_loop elem cap zero i m xs h e k = let e' : m ≡ i = omega arith in rw (e', append-nil)
  window-fill_loop elem cap (suc n) i m xs h e k =
      window-fill_loop elem cap n (suc i) m (set xs i (some (elem i)))
        (omega (arith, length-set xs i (some (elem i)))) (omega arith) k
      ∙ (ap (λ w. w ++ elements elem n (suc i))
            (window-set none cap xs (some (elem i)) i 0 i h (omega arith) (omega arith)
              (ground arith))
          ∙ append_assoc (window none cap xs 0 i) (some (elem i) ∷ []) (elements elem n (suc i)))

  -- On a valid state whose `tail` is 0, `fill` puts every element of the allocated block in, in order, and fails
  -- without a change of the queue when the allocation fails.
  fill-queue :
      {f : Fifo A} (elem : ℕ → A)
      → IsValid f
      → f.tail ≡ 0
      → let (rc, g) = fill (some elem) f in
        IsValid g
        × (rc ≡ 0)
        × (queue g ≡ elements elem (capacity f) 0)
        × ((fill none f).0 ≡ 1)
        × (queue (fill none f).1 ≡ queue f)
  unfolding fill capacity
  fill-queue {f} elem v e =
      let cap : ℕ = length f.store in
      let last : sub64 cap 1 ≡ cap - 1 = omega arith in
      let len : length (fill_loop elem (sub64 cap 1) 0 f.store) ≡ cap =
        length-fill_loop elem (sub64 cap 1) 0 f.store in
      (
        record { small = omega arith; head_in = omega arith; tail_in = omega arith },
        refl,
        rw (len, e)
            (rw (fill_span cap (omega arith) v.small) (
              window-fill_loop elem cap (sub64 cap 1) 0 (sub64 cap 1) f.store (omega arith)
                (omega arith) (omega arith))),
        refl,
        refl,
      )
