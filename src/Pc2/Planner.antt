-- ===== src/Pc2/Planner.antt =====
-- `work_item_t`, `buffers_t` and `scheduler_t` of pc2/planner.cpp: the nodes of a tree are hashed one
-- by one, each into a buffer of a pool, and a node's turn comes when its last child is done. A buffer
-- is the number of its allocation. `bits` is `P::GetNodeBits()` and `rc_arity` is
-- `P::GetNumTreeRCArity()`. The top of a vector is the head of a list.
pub mod Work
pub mod Postorder
pub mod Order
pub mod Step
pub mod Walk
pub mod Run
pub mod Pool
pub mod Root
pub mod Peak
use supra_seal.Prelude.{
  ℕ, zero, suc, ◌+◌, ◌-◌, ◌*◌, ◌/◌, ◌^◌, Option, none, some, Bool, true, false, not, List, [], ◌∷◌,
  length, get_or, set, replicate, add64, sub64, size_mod, bit_and, ltb, ◌==◌, if◌then◌else◌,
}
use supra_seal.Sealing.NodeId
use supra_seal.Sealing.NodeId.{node_id}

-- `buffer_t*`
abbrev pub Buffer : Type 0
Buffer = Option ℕ

pub record WorkItem : Type 0 where
  pub idx : ℕ
  pub dependencies_ready : ℕ
  pub is_leaf : Bool
  pub buf : Buffer
  pub inputs : List Buffer

-- `buffers_t`
pub record Buffers : Type 0 where
  pub buffers : List Buffer
  pub num_buffers : ℕ

unfoldable pub no_buffers : Buffers
no_buffers = record { buffers = []; num_buffers = 0 }

unfoldable pub get : Buffers → Buffer × Buffers
get p = elim p.buffers [
  | [] ↦ (some p.num_buffers, record p { num_buffers = suc p.num_buffers })
  | b ∷ bs ↦ (b, record p { buffers = bs })
]

unfoldable pub put : Buffer → Buffers → Buffers
put b p = record p { buffers = b ∷ p.buffers }

unfoldable pub size : Buffers → ℕ
size p = length p.buffers

-- the loop that gives a node's inputs back
unfoldable pub put_all : List Buffer → Buffers → Buffers
unfolding put
put_all [] p = p
put_all (b ∷ bs) p = put_all bs (put b p)

-- `stack.size() != 0`
unfoldable pub has_work : List WorkItem → Bool
has_work [] = false
has_work (w ∷ ws) = true

-- the keys in use and their items, in the order of a `std::map`
abbrev pub WorkMap : Type 0
WorkMap = List (ℕ × WorkItem)

unfoldable pub find : ℕ → WorkMap → Option WorkItem
find key [] = none
find key ((k, w) ∷ wip) = if key == k then some w else find key wip

unfoldable pub emplace : ℕ → WorkItem → WorkMap → WorkMap
emplace key w [] = (key, w) ∷ []
emplace key w ((k, v) ∷ wip) =
    if ltb key k then (key, w) ∷ ((k, v) ∷ wip) else (k, v) ∷ emplace key w wip

unfoldable pub update : ℕ → WorkItem → WorkMap → WorkMap
update key w [] = []
update key w ((k, v) ∷ wip) = if key == k then (k, w) ∷ wip else (k, v) ∷ update key w wip

unfoldable pub erase : ℕ → WorkMap → WorkMap
erase key [] = []
erase key ((k, v) ∷ wip) = if key == k then wip else (k, v) ∷ erase key wip

-- the members of `scheduler_t`, the pool that it refers to, and the memory that the callback changes
pub record Scheduler (M : Type 0) : Type 0 where
  pub initial_nodes : ℕ
  pub stack : List WorkItem
  pub wip : WorkMap
  pub bufs : Buffers
  pub hash_count : ℕ
  pub arity : ℕ
  pub memory : M

module _ (bits rc_arity : ℕ) where
  unfoldable pub work_item : ℕ → Bool → WorkItem
  work_item idx is_leaf = record {
    idx = idx;
    dependencies_ready = 0;
    is_leaf = is_leaf;
    buf = none;
    inputs = replicate rc_arity none;
  }

  unfoldable pub leaf_num : WorkItem → ℕ
  leaf_num w = bit_and (NodeId.node bits w.idx) (sub64 rc_arity 1)

  -- the loop of `reset`: `n` rounds to go, from the `i`-th on
  unfoldable pub leaf_loop : ℕ → ℕ → ℕ → List WorkItem → List WorkItem
  unfolding work_item
  leaf_loop initial_nodes zero i stack = stack
  leaf_loop initial_nodes (suc n) i stack =
      leaf_loop initial_nodes n (suc i)
        (work_item (node_id bits 1 (sub64 (sub64 initial_nodes i) 1)) true ∷ stack)

  -- the item of the parent, made if it is missing
  unfoldable pub dependant : ℕ → WorkMap → WorkItem
  unfolding work_item find
  dependant key wip = elim (find key wip) [ none ↦ work_item key false | some v ↦ v ]

  unfoldable pub with_dependant : ℕ → WorkMap → WorkMap
  unfolding work_item find emplace
  with_dependant key wip = elim (find key wip) [
    | none ↦ emplace key (work_item key false) wip
    | some v ↦ wip
  ]

  -- `dependant_work` with one more input
  unfoldable pub add_input : WorkItem → WorkItem → WorkItem
  unfolding leaf_num
  add_input w d = record d {
    inputs = set d.inputs (leaf_num w) w.buf;
    dependencies_ready = add64 d.dependencies_ready 1;
  }

  module _ {M : Type 0} where
    unfoldable pub reset : Scheduler M → Scheduler M
    unfolding leaf_loop
    reset s = record s {
      hash_count = 0;
      wip = [];
      stack = leaf_loop s.initial_nodes s.initial_nodes 0 [];
    }

    -- `scheduler_t::scheduler_t`
    unfoldable pub create : ℕ → ℕ → Buffers → M → Scheduler M
    unfolding reset
    create initial_nodes arity bufs memory = reset (record {
      initial_nodes = initial_nodes;
      stack = [];
      wip = [];
      bufs = bufs;
      hash_count = 0;
      arity = arity;
      memory = memory;
    })

    -- the end of `next`, from `next_layer_id` on
    unfoldable pub record_result : WorkItem → Scheduler M → Scheduler M
    unfolding dependant with_dependant add_input update erase
    record_result w s =
        let key : ℕ =
          node_id bits (NodeId.layer bits w.idx + 1) (NodeId.node bits w.idx / s.arity) in
        let d : WorkItem = add_input w (dependant key s.wip) in
        let wip : WorkMap = update key d (with_dependant key s.wip) in
        if d.dependencies_ready == s.arity
        then record s { stack = d ∷ s.stack; wip = erase key wip }
        else record s { wip = wip }

    module _ (hash_cb : WorkItem → M → M) where
      -- the first half of `next`, on the item that it took: a buffer, the hash, and the inputs back
      unfoldable pub hash_item : WorkItem → Scheduler M → WorkItem × Scheduler M
      unfolding get put_all
      hash_item popped s =
          let (buf, bufs) = get s.bufs in
          let w : WorkItem = record popped { buf = buf } in
          (
            w,
            record s {
              bufs = if w.is_leaf then bufs else put_all w.inputs bufs;
              memory = hash_cb w s.memory;
              hash_count = add64 s.hash_count 1;
            },
          )

      -- `next`, with no `work` to hand out; the items that are left decide the answer
      unfoldable pub next_on : List WorkItem → Scheduler M → Bool × Scheduler M
      unfolding hash_item record_result has_work
      next_on [] s = (false, s)
      next_on (popped ∷ stack) s =
          let (w, t) = hash_item popped (record s { stack = stack }) in
          let u : Scheduler M = record_result w t in (has_work u.stack, u)

      unfoldable pub next : Scheduler M → Bool × Scheduler M
      unfolding next_on
      next s = next_on s.stack s

      -- the loop of `run`; `none` is out of fuel
      unfoldable pub run_loop : ℕ → Scheduler M → Option (Scheduler M)
      unfolding next
      run_loop zero s = none
      run_loop (suc fuel) s =
          let (more, t) = next s in elim more [ false ↦ some t | true ↦ run_loop fuel t ]

    -- `next` with a place for `work`: the item with its buffer is handed out instead of hashed
    unfoldable pub next_work_on :
        List WorkItem → Scheduler M → (Bool × Option WorkItem) × Scheduler M
    unfolding hash_item record_result has_work
    next_work_on [] s = ((false, none), s)
    next_work_on (popped ∷ stack) s =
        let (w, t) = hash_item (λ w m. m) popped (record s { stack = stack }) in
        let u : Scheduler M = record_result w t in ((has_work u.stack, some w), u)

    unfoldable pub next_work : Scheduler M → (Bool × Option WorkItem) × Scheduler M
    unfolding next_work_on
    next_work s = next_work_on s.stack s

    -- `wip.begin()->second.inputs[0]`, the result of `run`
    unfoldable pub result : Scheduler M → Buffer
    result s = elim s.wip [ [] ↦ none | (k, w) ∷ es ↦ get_or w.inputs 0 none ]

    -- whether the assertions of `is_done` hold
    unfoldable pub is_done : Scheduler M → Bool
    is_done s = elim s.wip [
      | [] ↦ false
      | (k, w) ∷ es ↦ elim es [
        | [] ↦ elim (get_or w.inputs 0 none) [
          | none ↦ false
          | some a ↦ elim (get_or w.inputs 1 none) [ none ↦ true | some b ↦ false ]
        ]
        | f ∷ fs ↦ false
      ]
    ]
