-- ===== src/Pc1/NodeRw.antt =====
-- How the requests of pc1 reach the drives: `node_rw_t::process` of pc1/node_rw_t.hpp. One turn of its
-- loop takes batches of requests off a FIFO, hands each request to the controller that holds the node,
-- and polls the controllers. The state has the outstanding operations of the queue pair in use, for
-- each controller, and the calls of `read` and `write` so far. What a call of SPDK returns, and how many
-- operations a poll completes, are parameters. Statistics, the sleep and the stop signal are left out.
pub mod Accepted
pub mod Indexes
use supra_seal.Prelude.{
  ℕ, zero, suc, ◌*◌, ◌/◌, min, ◌%◌, size_mod, Option, none, some, List, [], ◌∷◌, ◌++◌, length,
  get_or, set, drop, add64, sub64, ◌==◌, if◌then◌else◌, ◌>>=◌,
}
use supra_seal.Nvme.Fifo.{Fifo, size, dequeue}
use supra_seal.Nvme.Qpair.{queue_size, incr_ops, process_completions}

-- the controller, and the block on it
unfoldable pub nvme_node_indexes : ℕ → ℕ → ℕ → ℕ × ℕ
nvme_node_indexes nodes_per_page num_controllers node =
    let block = node / nodes_per_page in
    let block_on_controller = block / num_controllers in
    (sub64 block (block_on_controller * num_controllers % size_mod), block_on_controller)

pub data Kind : Type 0 where
  read : Kind
  write : Kind
  nop : Kind

pub record Request : Type 0 where
  pub node : ℕ
  pub kind : Kind

-- a call of `read` or `write` of a controller
pub record Command : Type 0 where
  pub ctrl_id : ℕ
  pub offset : ℕ
  pub request : Request

pub record Rw : Type 0 where
  pub parent_read_fifo : Fifo (List Request)
  pub outstanding : List ℕ
  pub issued : List Command
  pub ios_issued : ℕ
  pub ios_completed : ℕ

-- `failed` returns the error of SPDK; `no_batch` and `bad_poll` are the failed assertions on a batch
-- and on the completions.
pub data Outcome : Type 0 where
  done : Rw → Outcome
  failed : ℕ → Outcome
  no_batch : Outcome
  bad_poll : Outcome

unfoldable pub and_then : Outcome → (Rw → Outcome) → Outcome
and_then (done s) f = f s
and_then (failed rc) f = failed rc
and_then no_batch f = no_batch
and_then bad_poll f = bad_poll

unfoldable pub min_free_loop : List ℕ → ℕ → ℕ
min_free_loop [] m = m
min_free_loop (o ∷ os) m = min_free_loop os (min m (sub64 queue_size o))

-- There is a controller 0.
unfoldable pub min_free : List ℕ → ℕ
unfolding min_free_loop
min_free os = min_free_loop (drop 1 os) (sub64 queue_size (get_or os 0 0))

unfoldable pub num_batches : ℕ → Rw → ℕ
unfolding min_free size
num_batches batch_size s = min (min_free s.outstanding / batch_size) (size s.parent_read_fifo)

-- the polls of all controllers: the sum of the completions, and what is left; `none` is the failed
-- assertion on an error
unfoldable pub complete_loop : (ℕ → ℕ → Option ℕ) → ℕ → List ℕ → Option (ℕ × List ℕ)
unfolding process_completions
complete_loop device ctrl [] = some (0, [])
complete_loop device ctrl (o ∷ os) = do
  r ← process_completions (device ctrl) o
  rest ← complete_loop device (suc ctrl) os
  some (add64 (r.0) (rest.0), r.1 ∷ rest.1)

unfoldable pub complete : (ℕ → ℕ → Option ℕ) → Rw → Outcome
unfolding complete_loop
complete device s = elim (complete_loop device 0 s.outstanding) [
  | none ↦ bad_poll
  | some r ↦ done (record s { outstanding = r.1; ios_completed = add64 s.ios_completed (r.0) })
]

-- `answer` is what SPDK returns to a command, given the outstanding operations of the controller.
module _ (nodes_per_page : ℕ) (block_offset : ℕ) (answer : Command → ℕ → ℕ) where
  unfoldable pub command : Request → Rw → Command
  unfolding nvme_node_indexes
  command req s =
      let (ctrl, block) = nvme_node_indexes nodes_per_page (length s.outstanding) req.node in
      record { ctrl_id = ctrl; offset = add64 block block_offset; request = req }

  unfoldable pub send : Command → Rw → Outcome
  unfolding incr_ops
  send c s =
      let ops = get_or s.outstanding c.ctrl_id 0 in
      let rc = answer c ops in
      if rc == 0
      then done (record s {
        outstanding = set s.outstanding c.ctrl_id (incr_ops ops);
        issued = s.issued ++ c ∷ [];
        ios_issued = add64 s.ios_issued 1;
      })
      else failed rc

  unfoldable pub issue_kind : Kind → Request → Rw → Outcome
  unfolding send command
  issue_kind nop req s = done s
  issue_kind read req s = send (command req s) s
  issue_kind write req s = send (command req s) s

  unfoldable pub issue_batch : List Request → Rw → Outcome
  unfolding issue_kind and_then
  issue_batch [] s = done s
  issue_batch (req ∷ reqs) s = and_then (issue_kind req.kind req s) (issue_batch reqs)

  unfoldable pub issue_dequeued : Option (List Request) → Rw → Outcome
  unfolding issue_batch
  issue_dequeued none s = no_batch
  issue_dequeued (some batch) s = issue_batch batch s

  unfoldable pub issue_batches : ℕ → Rw → Outcome
  unfolding issue_dequeued and_then dequeue
  issue_batches zero s = done s
  issue_batches (suc n) s =
      let (batch, fifo) = dequeue s.parent_read_fifo in
      and_then (issue_dequeued batch (record s { parent_read_fifo = fifo })) (issue_batches n)

  -- a turn of the loop
  unfoldable pub turn : ℕ → (ℕ → ℕ → Option ℕ) → Rw → Outcome
  unfolding issue_batches num_batches complete and_then
  turn batch_size device s = and_then (issue_batches (num_batches batch_size s) s) (complete device)
