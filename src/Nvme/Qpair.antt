-- ===== src/Nvme/Qpair.antt =====
-- The count of outstanding operations of a queue pair, `nvme_qpair_t` of nvme/nvme_qpair_t.hpp, and how
-- `nvme_controller_t` of nvme/nvme_controller_t.hpp drains it. A queue pair is its
-- `outstanding_io_ops`. What SPDK answers to a poll is a parameter: a function of the poll's number and
-- of the outstanding operations, `none` for an error, which is negative.
pub mod Drain
use supra_seal.Prelude.{ℕ, zero, suc, Option, none, some, add64, sub64, ltb, if◌then◌else◌}

abbrev pub queue_size : ℕ
queue_size = 1024

unfoldable pub incr_ops : ℕ → ℕ
incr_ops outstanding = add64 outstanding 1

-- the completions, and the operations that are left; `none` is the failed assertion on an error
unfoldable pub process_completions : (ℕ → Option ℕ) → ℕ → Option (ℕ × ℕ)
process_completions device outstanding =
    if ltb 0 outstanding
    then elim (device outstanding) [
      | none ↦ none
      | some completions ↦ some (completions, sub64 outstanding completions)
    ]
    else some (0, outstanding)

-- how the loop of `process_all_completions` ends
pub data Drained : Type 0 where
  returned : ℕ → ℕ → Drained
  bad_poll : Drained
  out_of_fuel : Drained

-- the loop of `process_all_completions`, which assigns to `completions`
unfoldable pub drain_loop : (ℕ → ℕ → Option ℕ) → ℕ → ℕ → ℕ → ℕ → Drained
unfolding process_completions
drain_loop device zero poll completions outstanding = out_of_fuel
drain_loop device (suc fuel) poll completions outstanding =
    if ltb 0 outstanding
    then elim (process_completions (device poll) outstanding) [
      | none ↦ bad_poll
      | some r ↦ drain_loop device fuel (suc poll) (r.0) (r.1)
    ]
    else returned completions outstanding

unfoldable pub process_all_completions : (ℕ → ℕ → Option ℕ) → ℕ → ℕ → Drained
unfolding drain_loop
process_all_completions device fuel outstanding = drain_loop device fuel 0 0 outstanding
