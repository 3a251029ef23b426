-- ===== src/Nvme/Pool.antt =====
-- `pool_t` of nvme/ring_t.hpp, the ring without threads, and `mtx_fifo_t`, which makes each call of
-- it under a mutex.
pub mod Equiv
use supra_seal.Prelude.{
  ℕ, zero, suc, ◌+◌, ◌-◌, Bool, true, false, ◌&&◌, Option, none, some, List, [], ◌∷◌, ◌++◌, ltb,
  leb, ◌==◌, if◌then◌else◌, length, get_or, set, take, drop, replicate, add64, sub64,
}

pub record Pool {ℓ} (A : Type ℓ) : Type ℓ where
  pub store : List (Option A)
  pub contents : Option (ℕ → A)
  pub head : ℕ
  pub tail : ℕ

module _ {ℓ} {A : Type ℓ} where
  unfoldable pub construct : Pool A
  construct = record { store = []; contents = none; head = 0; tail = 0 }

  unfoldable pub create : ℕ → Pool A → ℕ × Pool A
  create count p = (
    0,
    record p {
      store = take (add64 count 1) p.store ++ replicate (add64 count 1 - length p.store) none;
    },
  )

  -- `i++`, then back to 0 past the end: `head` in `enqueue` and `tail` in `dequeue`
  unfoldable pub bump : Pool A → ℕ → ℕ
  bump p i = if leb (length p.store) (add64 i 1) then 0 else add64 i 1

  unfoldable pub size : Pool A → ℕ
  size p =
      if leb p.tail p.head
      then sub64 p.head p.tail
      else sub64 (add64 (length p.store) p.head) p.tail

  unfoldable pub is_full : Pool A → Bool
  is_full p = size p == sub64 (length p.store) 1

  unfoldable pub capacity : Pool A → ℕ
  capacity p = sub64 (length p.store) 1

  unfoldable pub free_count : Pool A → ℕ
  free_count p = sub64 (capacity p) (size p)

  -- `none` is the failed assertion
  unfoldable pub enqueue : Option A → Pool A → Option (ℕ × Pool A)
  enqueue obj p =
      if is_full p
      then none
      else some (0, record p { store = set p.store p.head obj; head = bump p p.head })

  unfoldable pub dequeue : Pool A → Option A × Pool A
  dequeue p =
      if size p == 0
      then (none, p)
      else (get_or p.store p.tail none, record p { tail = bump p p.tail })

  -- The result `T**` points at `count` consecutive entries of `store`; `none` is the null pointer.
  unfoldable pub dequeue_bulk : ℕ → Pool A → Option (List (Option A)) × Pool A
  dequeue_bulk count p =
      let tail' : ℕ = add64 p.tail count in
      if leb count (size p) && leb tail' (length p.store)
      then (
        some (take count (drop p.tail p.store)),
        record p {
          tail = if leb (length p.store) tail' then sub64 tail' (length p.store) else tail';
        },
      )
      else (none, p)

  -- `store[i] = &contents[i]` for the next `n` indices from `i` on
  unfoldable pub fill_loop : (ℕ → A) → ℕ → ℕ → List (Option A) → List (Option A)
  fill_loop elem zero i xs = xs
  fill_loop elem (suc n) i xs = fill_loop elem n (suc i) (set xs i (some (elem i)))

  -- The argument is what `ring_spdk_alloc` returns: the address of each element, if it succeeds.
  unfoldable pub fill : Option (ℕ → A) → Pool A → ℕ × Pool A
  fill none p = (1, record p { contents = none })
  fill (some elem) p = (
    0,
    record p {
      contents = some elem;
      store = fill_loop elem (sub64 (length p.store) 1) 0 p.store;
      head = sub64 (length p.store) 1;
    },
  )

  unfoldable pub at : ℕ → Pool A → Option A
  at i p = get_or p.store i none

-- The calls of `mtx_fifo_t` that change the pool.
pub data Call {ℓ} (A : Type ℓ) : Type ℓ where
  create_call : ℕ → Call A
  enqueue_call : Option A → Call A
  dequeue_call : Call A

module _ {ℓ} {A : Type ℓ} where
  -- A call under the lock: what it returns, and the pool after it. `none` is a failed assertion.
  unfoldable pub locked : Call A → Pool A → Option (Option A × Pool A)
  locked (create_call count) p = some (none, (create count p).1)
  locked (enqueue_call obj) p = elim (enqueue obj p) [ none ↦ none | some (rc, q) ↦ some (none, q) ]
  locked dequeue_call p = some (dequeue p)

  -- The calls of all threads, in the order in which they get the lock: the pointers that are
  -- returned to them, and the pool at the end.
  unfoldable pub serve : List (Call A) → Pool A → Option (List (Option A) × Pool A)
  serve [] p = some ([], p)
  serve (c ∷ cs) p = elim (locked c p) [
    | none ↦ none
    | some (r, q) ↦ elim (serve cs q) [ none ↦ none | some (rs, u) ↦ some (r ∷ rs, u) ]
  ]
