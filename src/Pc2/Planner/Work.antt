-- ===== src/Pc2/Planner/Work.antt =====
-- The two ways to call `next`: with the callback, and with a place for the item.
use supra_seal.Prelude.{ℕ, Option, none, some}
use supra_seal.Sealing.NodeId
use supra_seal.Pc2.Planner.{WorkItem, Scheduler}

module _ (bits rc_arity : ℕ) {M : Type 0} (hash_cb : WorkItem → M → M) where
  -- the callback, called on the item that was handed out
  abbrev pub hashed : Option WorkItem → Scheduler M → Scheduler M
  hashed none s = s
  hashed (some w) s = record s { memory = hash_cb w s.memory }
