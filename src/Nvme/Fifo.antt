-- ===== src/Nvme/Fifo.antt =====
-- `mt_fifo_t` of nvme/ring_t.hpp, one call at a time. A `T*` is an `Option`, `none` the null pointer.
-- A write that the C++ makes outside `store` changes nothing here; the invariant rules it out.
pub mod Refine
pub mod Threads
use supra_seal.Prelude.{
  ℕ, zero, suc, ◌+◌, ◌-◌, Bool, true, false, Option, none, some, List, [], ◌∷◌, ◌++◌, ltb, leb,
  ◌==◌, if◌then◌else◌, length, get_or, set, take, replicate, add64, sub64,
}

pub record Fifo {ℓ} (A : Type ℓ) : Type ℓ where
  pub store : List (Option A)
  pub contents : Option (ℕ → A)
  pub head : ℕ
  pub tail : ℕ

module _ {ℓ} {A : Type ℓ} where
  -- the state after the constructor, before `create`
  unfoldable pub construct : Fifo A
  construct = record { store = []; contents = none; head = 0; tail = 0 }

  -- `std::vector<T*>::resize`: keeps a prefix, fills up with null pointers
  unfoldable pub resize : ℕ → List (Option A) → List (Option A)
  resize n xs = take n xs ++ replicate (n - length xs) none

  unfoldable pub create : ℕ → Fifo A → ℕ × Fifo A
  unfolding resize
  create count f = (0, record f { store = resize (add64 count 1) f.store })

  unfoldable pub capacity : Fifo A → ℕ
  capacity f = sub64 (length f.store) 1

  -- the index that follows `i`, as `enqueue` and `dequeue` advance
  unfoldable pub advance : Fifo A → ℕ → ℕ
  advance f i = if i == sub64 (length f.store) 1 then 0 else add64 i 1

  unfoldable pub enqueue_nocheck : Option A → Fifo A → ℕ × Fifo A
  enqueue_nocheck obj f = (0, record f { store = set f.store f.head obj; head = advance f f.head })

  -- `size` from the values that it has loaded of `head` and `tail`
  abbrev pub size_of : Fifo A → ℕ → ℕ → ℕ
  size_of f h t = if leb t h then sub64 h t else sub64 (add64 (length f.store) h) t

  unfoldable pub size : Fifo A → ℕ
  size f = size_of f f.head f.tail

  unfoldable pub is_full : Fifo A → Bool
  is_full f = size f == sub64 (length f.store) 1

  unfoldable pub free_count : Fifo A → ℕ
  free_count f = sub64 (capacity f) (size f)

  -- `none` is the failed assertion
  unfoldable pub enqueue : Option A → Fifo A → Option (ℕ × Fifo A)
  enqueue obj f =
      if is_full f
      then none
      else some (0, record f { store = set f.store f.head obj; head = advance f f.head })

  unfoldable pub dequeue : Fifo A → Option A × Fifo A
  dequeue f =
      if size f == 0
      then (none, f)
      else (get_or f.store f.tail none, record f { tail = advance f f.tail })

  -- `store[i] = &contents[i]` for the next `n` indices from `i` on
  unfoldable pub fill_loop : (ℕ → A) → ℕ → ℕ → List (Option A) → List (Option A)
  fill_loop elem zero i xs = xs
  fill_loop elem (suc n) i xs = fill_loop elem n (suc i) (set xs i (some (elem i)))

  -- The argument is what `ring_spdk_alloc` returns: the address of each element, if it succeeds.
  unfoldable pub fill : Option (ℕ → A) → Fifo A → ℕ × Fifo A
  unfolding fill_loop
  fill none f = (1, record f { contents = none })
  fill (some elem) f = (
    0,
    record f {
      contents = some elem;
      store = fill_loop elem (sub64 (length f.store) 1) 0 f.store;
      head = sub64 (length f.store) 1;
    },
  )

  -- `operator[]`, the pointer that it dereferences
  unfoldable pub at : ℕ → Fifo A → Option A
  at i f = get_or f.store i none
