-- ===== src/Pc2/Planner/Postorder.antt =====
-- The order that the scheduler is to keep, as a recursion: a node after its children, the children
-- from left to right, each into a buffer of the pool.
use supra_seal.Prelude.{ℕ, zero, suc, ◌*◌, true, false, List, [], ◌∷◌, none, if◌then◌else◌}
use supra_seal.Sealing.NodeId.{node_id}
use supra_seal.Pc2.Planner.{Buffer, Buffers, WorkItem, get, put_all, work_item}

-- the pool and the memory
pub record Store (M : Type 0) : Type 0 where
  pub pool : Buffers
  pub memory : M

module _ (bits rc : ℕ) where
  -- a row-0 node
  unfoldable pub leaf : ℕ → WorkItem
  unfolding work_item
  leaf j = work_item bits rc (node_id bits 1 j) true

  -- a node all of whose children are done
  unfoldable pub inner : ℕ → ℕ → List Buffer → WorkItem
  inner layer j inputs = record {
    idx = node_id bits layer j;
    dependencies_ready = rc;
    is_leaf = false;
    buf = none;
    inputs = inputs;
  }

  module _ {M : Type 0} where
    -- each child in turn
    unfoldable pub each : (ℕ → Store M → Buffer × Store M) → ℕ → ℕ → Store M → List Buffer × Store M
    each f zero c st = ([], st)
    each f (suc n) c st =
        let (b, st1) = f c st in let (bs, st2) = each f n (suc c) st1 in (b ∷ bs, st2)

    module _ (hash_cb : WorkItem → M → M) where
      unfoldable pub hash_one : WorkItem → Store M → Buffer × Store M
      unfolding get put_all
      hash_one w st =
          let (b, q) = get st.pool in
          (
            b,
            record {
              pool = if w.is_leaf then q else put_all w.inputs q;
              memory = hash_cb (record w { buf = b }) st.memory;
            },
          )

      -- the tree of `height` rows of inner nodes with node `j` of its row at the top
      unfoldable pub build : ℕ → ℕ → Store M → Buffer × Store M
      unfolding hash_one each leaf inner
      build zero j st = hash_one (leaf j) st
      build (suc h) j st =
          let (inputs, st1) = each (build h) rc (j * rc) st in
          hash_one (inner (suc (suc h)) j inputs) st1

  -- how many nodes that tree has
  unfoldable pub steps : ℕ → ℕ
  steps zero = 1
  steps (suc h) = suc (rc * steps h)
