-- ===== src/Nvme/RingCounter.antt =====
-- `ring_counter_t` of nvme/ring_t.hpp: an absolute count (a node id, a 64-bit word) beside its place
-- in a ring of `RING_SIZE` entries, seen in groups of `RING_DIVISOR`.
pub mod Laws
use supra_seal.Prelude.{ℕ, zero, suc, ◌+◌, ◌-◌, ◌/◌, ◌%◌, leb, ◌==◌, if◌then◌else◌, add64, sub64}

pub record Counter : Type 0 where
  pub abs : ℕ
  pub place : ℕ

unfoldable pub construct : ℕ → Counter
construct abs = record { abs = abs; place = 0 }

module _ (ring_divisor : ℕ) where
  unfoldable pub idx : Counter → ℕ
  idx c = c.place / ring_divisor

  unfoldable pub offset : Counter → ℕ
  offset c = c.place % ring_divisor

module _ (ring_size : ℕ) where
  -- `operator++`
  unfoldable pub increment : Counter → Counter
  increment c = record {
    abs = add64 c.abs 1;
    place = if add64 c.place 1 == ring_size then 0 else add64 c.place 1;
  }

  -- `operator+=`
  unfoldable pub advance : ℕ → Counter → Counter
  advance rhs c = record {
    abs = add64 c.abs rhs;
    place =
        if leb ring_size (add64 c.place rhs)
        then sub64 (add64 c.place rhs) ring_size
        else add64 c.place rhs;
  }
