-- ===== src/Nvme/RingBuffer.antt =====
-- `ring_buffer_t` of nvme/ring_t.hpp: slots that are reserved at `head`, become valid when their data
-- has arrived, and are released at `tail`. A pointer `&entries[i]` is the index `i`.
pub mod Inv
pub mod Queue
pub mod Batch
pub mod Drain
pub mod ReleaseValid
use supra_seal.Prelude.{
  ℕ, zero, suc, ◌+◌, ◌-◌, ◌*◌, Bool, true, false, Option, none, some, List, [], ◌∷◌, ltb, leb, ◌==◌,
  if◌then◌else◌, length, get_or, set, replicate, add64, sub64,
}

pub record Ring : Type 0 where
  pub valid : List ℕ
  pub head : ℕ
  pub head_valid : ℕ
  pub tail : ℕ
  pub cur_size : ℕ

-- `SIZE`, a template parameter
module _ (count : ℕ) where
  -- `create` on a constructed object
  unfoldable pub create : Ring
  create = record { valid = replicate count 0; head = 0; head_valid = 0; tail = 0; cur_size = 0 }

  unfoldable pub incr : ℕ → ℕ
  incr idx = if idx == sub64 count 1 then 0 else add64 idx 1

  unfoldable pub decr : ℕ → ℕ
  decr idx = if idx == 0 then sub64 count 1 else sub64 idx 1

  unfoldable pub sub : ℕ → ℕ → ℕ
  sub a b = if leb b a then sub64 a b else sub64 (add64 count a) b

  unfoldable pub add : ℕ → ℕ → ℕ
  add a b = if leb count (add64 a b) then sub64 (add64 a b) count else add64 a b

  unfoldable pub capacity : ℕ
  capacity = sub64 count 1

  unfoldable pub is_full : Ring → Bool
  is_full r = r.cur_size == sub64 count 1

  unfoldable pub free_count : Ring → ℕ
  free_count r = sub64 (sub64 count 1) r.cur_size

  -- The index of the slot, and the ring after it.
  unfoldable pub reserve_nocheck : Ring → ℕ × Ring
  reserve_nocheck r = (
    r.head,
    record r {
      valid = set r.valid (incr r.head) 0;
      head = incr r.head;
      cur_size = add64 r.cur_size 1;
    },
  )

  -- `none` is the null pointer of a full ring.
  unfoldable pub reserve : Ring → Option ℕ × Ring
  reserve r = if is_full r then (none, r) else (
    some r.head,
    record r {
      valid = set r.valid (incr r.head) 0;
      head = incr r.head;
      cur_size = add64 r.cur_size 1;
    },
  )

  -- the loop of `reserve_batch_nocheck`, which leaves `cur_size` to the end
  unfoldable pub batch_loop : ℕ → Ring → List ℕ × Ring
  batch_loop zero r = ([], r)
  batch_loop (suc n) r =
      let next_head : ℕ = incr r.head in
      let (batch, u) =
        batch_loop n (record r { valid = set r.valid next_head 0; head = next_head }) in
      (r.head ∷ batch, u)

  -- The first index, the slots in order, and the ring after it.
  unfoldable pub reserve_batch_nocheck : ℕ → Ring → ℕ × List ℕ × Ring
  reserve_batch_nocheck n r =
      let (batch, u) = batch_loop n r in (r.head, batch, record u { cur_size = add64 u.cur_size n })

  unfoldable pub release : Ring → Ring
  release r = record r { tail = incr r.tail; cur_size = sub64 r.cur_size 1 }

unfoldable pub incr_valid : ℕ → ℕ → Ring → Ring
incr_valid idx amount r = record r { valid = set r.valid idx (add64 (get_or r.valid idx 0) amount) }

unfoldable pub get_valid : ℕ → Ring → ℕ
get_valid idx r = get_or r.valid idx 0

-- `_VALID_THRESHOLD`, a template parameter
module _ (threshold : ℕ) where
  unfoldable pub is_valid : ℕ → Ring → Bool
  is_valid idx r = leb threshold (get_or r.valid idx 0)

  unfoldable pub is_tail_valid : Ring → Bool
  is_tail_valid r = leb threshold (get_or r.valid r.tail 0)

module _ (count threshold : ℕ) where
  -- The `while` loops run on fuel: `none` means that it ran out.
  unfoldable pub advance_valid : ℕ → Ring → Option (ℕ × Ring)
  advance_valid zero r = none
  advance_valid (suc fuel) r =
      let rest = advance_valid fuel (record r { head_valid = incr count r.head_valid }) in
      if is_valid threshold r.head_valid r
      then elim rest [ none ↦ none | some (cnt, u) ↦ some (add64 cnt 1, u) ]
      else some (0, r)

  unfoldable pub release_valid : ℕ → Ring → Option (ℕ × Ring)
  release_valid zero r = none
  release_valid (suc fuel) r =
      let rest = release_valid fuel (record r {
        valid = set r.valid r.tail 0;
        tail = incr count r.tail;
        cur_size = sub64 r.cur_size 1;
      }) in
      if is_valid threshold r.tail r
      then elim rest [ none ↦ none | some (cnt, u) ↦ some (add64 cnt 1, u) ]
      else some (0, r)
