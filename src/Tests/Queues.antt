-- ===== src/Tests/Queues.antt =====
-- The queue pairs of nvme/nvme_qpair_t.hpp, and the requests of pc1/node_rw_t.hpp.
use supra_seal.Prelude.{
  ℕ, zero, suc, ◌≤◌, ◌<◌, ◌≡◌, refl, arith, some, none, List, [], ◌∷◌, drop, take, Option, ◌-◌,
  ◌++◌, ◌==◌, ◌⊎◌, inl, inr, min, sym, ap, subst, if◌then◌else◌, ltb, ◌+◌, ◌*◌, ◌/◌, if_on, lt→ltb,
}
use supra_seal.Nvme.Fifo.{Fifo}
use supra_seal.Nvme.Fifo.Refine.{IsValid, queue}
use supra_seal.Pc1.NodeRw.{
  Request, Command, Rw, done, read, write, nop, num_batches, turn, nvme_node_indexes,
}
use supra_seal.Pc1.NodeRw.Accepted.{
  Room, end, batch, Polls, requests_of, commands_of, turn-Accepted,
}
use supra_seal.Pc1.NodeRw.Indexes.{nvme_node_indexes-block}
use supra_seal.Nvme.Qpair.{
  queue_size, incr_ops, returned, bad_poll, process_completions, drain_loop,
  process_all_completions,
}
use supra_seal.Nvme.Qpair.Drain.{Answers, process_all_completions-drains}

-- a drive that completes two operations at every other poll
abbrev pairs_at : ℕ → ℕ → ℕ → ℕ
pairs_at odd zero n = if odd == 0 then 0 else min n 2
pairs_at odd (suc poll) n = pairs_at (1 - odd) poll n

abbrev in_pairs : ℕ → ℕ → ℕ
in_pairs poll n = pairs_at 0 poll n

abbrev drive : ℕ → ℕ → Option ℕ
drive poll n = some (in_pairs poll n)

pairs_at_le : (odd poll n : ℕ) → pairs_at odd poll n ≤ n
pairs_at_le zero zero n = omega arith
pairs_at_le (suc odd) zero n = grind arith
pairs_at_le zero (suc poll) n = pairs_at_le 1 poll n
pairs_at_le (suc odd) (suc poll) n = pairs_at_le (1 - suc odd) poll n

odd_or_next : (poll n : ℕ) → 0 < n → (0 < pairs_at 0 poll n) ⊎ (0 < pairs_at 1 poll n)
odd_or_next zero n h = inr (omega arith)
odd_or_next (suc poll) n h = elim (odd_or_next poll n h) [ inl a ↦ inr a | inr b ↦ inl b ]

one_on : (odd poll n : ℕ) → pairs_at odd (poll + 1) n ≡ pairs_at (1 - odd) poll n
one_on odd poll n = let e : poll + 1 ≡ suc poll = omega arith in ap (λ p. pairs_at odd p n) e

drive-Answers : Answers drive in_pairs 1
drive-Answers = record {
  answer = λ poll n h. refl;
  bounded = λ poll n. pairs_at_le 0 poll n;
  at_last = λ poll n h. elim (odd_or_next poll n h) [
    | inl a ↦
        let e : poll + 0 ≡ poll = omega arith in
        (0, omega arith, subst (λ p. 0 < in_pairs p n) (sym e) a)
    | inr b ↦ (1, omega arith, omega (arith, b, one_on 0 poll n))
  ];
}

-- three operations are done, of which the last poll has completed one
drains-three : process_all_completions drive 5 (incr_ops 2) ≡ returned 1 0
unfolding process_all_completions drain_loop process_completions incr_ops
drains-three = refl

-- an error fails the assertion
drains-error : process_all_completions (λ poll n. none) 5 1 ≡ bad_poll
unfolding process_all_completions drain_loop process_completions
drains-error = refl

process_all_completions-drains_example :
    (c : ℕ) × (process_all_completions drive 2050 queue_size ≡ returned c 0)
process_all_completions-drains_example =
    process_all_completions-drains drive-Answers 2050 queue_size (omega arith) (omega arith)

nvme_node_indexes-block_example :
    let (ctrl, block) = nvme_node_indexes 4 3 21 in (ctrl < 3) × (block * 3 + ctrl ≡ 21 / 4)
nvme_node_indexes-block_example = nvme_node_indexes-block 4 3 21 (omega arith) (omega arith)

-- SPDK has no free request when the queue is full.
abbrev answer : Command → ℕ → ℕ
answer c n = if ltb n queue_size then 0 else 12

answer_room : (c : Command) (n : ℕ) → n < queue_size → answer c n ≡ 0
answer_room c n h = if_on 0 12 (lt→ltb n queue_size h)

-- two batches of two requests
abbrev reads : Fifo (List Request)
reads = record {
  store =
      some (record { node = 3; kind = read } ∷ record { node = 9; kind = nop } ∷ [])
      ∷ some (record { node = 5; kind = read } ∷ record { node = 6; kind = write } ∷ [])
      ∷ none
      ∷ [];
  contents = none;
  head = 2;
  tail = 0;
}

reads-IsValid : IsValid reads
reads-IsValid = record { small = omega arith; head_in = omega arith; tail_in = omega arith }

-- two controllers, of which the first has room for one batch
abbrev busy : Rw
busy = record {
  parent_read_fifo = reads;
  outstanding = 1021 ∷ 7 ∷ [];
  issued = [];
  ios_issued = 0;
  ios_completed = 0;
}

busy-Room : Room 0 busy.outstanding
busy-Room zero = omega arith
busy-Room (suc zero) = omega arith
busy-Room (suc (suc i)) = omega arith

-- each poll completes every operation
abbrev all_done : ℕ → ℕ → Option ℕ
all_done ctrl o = some o

all_done-Polls : Polls all_done (λ ctrl o. o)
all_done-Polls = record { answer = λ ctrl o h. refl; bounded = λ ctrl o. omega arith }

turn-Accepted_example :
    (s' : Rw) × (turn 1 100 answer 2 all_done busy ≡ done s')
    × IsValid s'.parent_read_fifo
    × (queue s'.parent_read_fifo ≡ drop (num_batches 2 busy) (queue reads))
    × (s'.issued
        ≡ [] ++ commands_of 1 100 2 (requests_of (take (num_batches 2 busy) (queue reads))))
    × Room 0 s'.outstanding
turn-Accepted_example =
    turn-Accepted 1 2 100 answer answer_room all_done (λ ctrl o. o) busy all_done-Polls
      (omega arith) busy-Room reads-IsValid (batch refl (batch refl end))

one_batch : num_batches 2 busy ≡ 1
unfolding num_batches
one_batch = refl
