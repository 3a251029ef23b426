-- ===== src/Pc2/Planner/Order.antt =====
-- What happens when a node is done: its parent waits for the others, or goes to the stack.
use native.Mathlib.Nat.{one-le-pow, pow-le-pow_right}
use supra_seal.Prelude.{
  ℕ, suc, ◌+◌, ◌-◌, ◌*◌, ◌/◌, ◌%◌, ◌^◌, ◌≤◌, ◌<◌, ◌≡◌, refl, ap, ap₂, ◌∙◌, arith, false, List, [],
  ◌∷◌, ◌++◌, some, none, replicate, set, length, length-append, add64, sub64, size_mod, ◌==◌,
  bit_and, bit_and-low, if◌then◌else◌, ==_true, lt→ltb,
}
use supra_seal.Sealing.NodeId
use supra_seal.Sealing.NodeId.{node_id}
use supra_seal.Sealing.NodeId.Fields.{Fits, fields-node_id}
use supra_seal.Pc2.Planner.{
  Buffer, WorkItem, WorkMap, Scheduler, work_item, leaf_num, find, emplace, update, erase,
  dependant, with_dependant, add_input, record_result,
}
use supra_seal.Pc2.Planner.Postorder.{Store, leaf}

-- every key is above a number
unfoldable pub Above : ℕ → WorkMap → Type 0
Above key [] = Unit
Above key ((k, w) ∷ wip) = (key < k) × Above key wip

pub Above-trans : (a b : ℕ) (wip : WorkMap) → a < b → Above b wip → Above a wip
unfolding Above
Above-trans a b [] h p = p
Above-trans a b ((k, w) ∷ wip) h p = ground (arith, Above-trans a b wip)

find-Above : (key : ℕ) (wip : WorkMap) → Above key wip → find key wip ≡ none
unfolding Above find
find-Above key [] p = refl
find-Above key ((k, w) ∷ wip) p = ground (arith, find-Above key wip)

emplace-Above :
    (key : ℕ) (w : WorkItem) (wip : WorkMap) → Above key wip → emplace key w wip ≡ (key, w) ∷ wip
unfolding Above emplace
emplace-Above key w [] p = refl
emplace-Above key w ((k, v) ∷ wip) p = rw (lt→ltb key k p.0) refl

set-next :
    (bs : List Buffer) (b : Buffer) (n : ℕ)
    → set (bs ++ replicate (suc n) none) (length bs) b ≡ (bs ++ (b ∷ [])) ++ replicate n none
set-next [] b n = refl
set-next (x ∷ bs) b n = ap (λ l. x ∷ l) (set-next bs b n)

mask_lem : (rc lg x : ℕ) → rc ≡ 2 ^ lg → lg ≤ 31 → bit_and x (sub64 rc 1) ≡ x % rc
mask_lem rc lg x e h =
    let p : 2 ^ lg ≤ 2 ^ 31 = pow-le-pow_right {n = 2} (omega arith) h in
    let one = one-le-pow lg 2 (omega arith) in
    let m : sub64 rc 1 ≡ 2 ^ lg - 1 = omega arith in rw (m, e) (bit_and-low lg x)

-- `rc` is the arity, a power of two
pub record IsArity (rc : ℕ) : Type 0 where
  pub lg : ℕ
  pub is_pow : rc ≡ 2 ^ lg
  pub lg_pos : 1 ≤ lg
  pub lg_small : lg ≤ 31

pub two_le : (rc : ℕ) → IsArity rc → (2 ≤ rc) × (rc ≤ 2 ^ 31)
two_le rc a =
    let p : 2 ^ a.lg ≤ 2 ^ 31 = pow-le-pow_right {n = 2} (omega arith) a.lg_small in
    let q : 2 ^ 1 ≤ 2 ^ a.lg = pow-le-pow_right {n = 2} (omega arith) a.lg_pos in
    (omega (arith, a.is_pow), omega (arith, a.is_pow))

module _ (bits rc : ℕ) (is_arity : IsArity rc) where
  -- what `record_result` reads of an item
  unfoldable pub finished : ℕ → ℕ → Buffer → WorkItem
  finished layer j b = record (leaf bits rc j) { idx = node_id bits layer j; buf = b }

  -- node `j` of a layer with its first inputs there
  unfoldable pub waiting : ℕ → ℕ → List Buffer → WorkItem
  waiting layer j bs = record {
    idx = node_id bits layer j;
    dependencies_ready = length bs;
    is_leaf = false;
    buf = none;
    inputs = bs ++ replicate (rc - length bs) none;
  }

  leaf_num-finished :
      (l n : ℕ) (b : Buffer) → Fits bits l n → leaf_num bits rc (finished l n b) ≡ n % rc
  unfolding leaf_num finished
  leaf_num-finished l n b f =
      rw ((fields-node_id bits l n f).1)
        (mask_lem rc is_arity.lg n is_arity.is_pow is_arity.lg_small)

  child_div : (j c : ℕ) → c < rc → (j * rc + c) / rc ≡ j
  child_div j c h = grind arith

  child_mod : (j c : ℕ) → c < rc → (j * rc + c) % rc ≡ c
  child_mod j c h = grind arith

  -- The item of a node is in the map, or is made, at the head of the map.
  pub Waits : ℕ → WorkItem → WorkMap → WorkMap → Type 0
  Waits key w wip rest =
      (dependant bits rc key wip ≡ w) × (with_dependant bits rc key wip ≡ (key, w) ∷ rest)

  made :
      (key : ℕ) (wip : WorkMap)
      → find key wip ≡ none
      → (dependant bits rc key wip ≡ work_item bits rc key false)
        × (with_dependant bits rc key wip ≡ emplace key (work_item bits rc key false) wip)
  unfolding dependant with_dependant
  made key wip e = (
    ap (λ r. elim r [ none ↦ work_item bits rc key false | some v ↦ v ]) e,
    ap (λ r. elim r [ none ↦ emplace key (work_item bits rc key false) wip | some v ↦ wip ]) e,
  )

  there :
      (key : ℕ) (w : WorkItem) (wip : WorkMap)
      → find key wip ≡ some w
      → (dependant bits rc key wip ≡ w) × (with_dependant bits rc key wip ≡ wip)
  unfolding dependant with_dependant
  there key w wip e = (
    ap (λ r. elim r [ none ↦ work_item bits rc key false | some v ↦ v ]) e,
    ap (λ r. elim r [ none ↦ emplace key (work_item bits rc key false) wip | some v ↦ wip ]) e,
  )

  pub Waits-first :
      (l j : ℕ) (wip : WorkMap)
      → Above (node_id bits l j) wip
      → Waits (node_id bits l j) (waiting l j []) wip wip
  unfolding Waits work_item waiting
  Waits-first l j wip h =
      let m = made (node_id bits l j) wip (find-Above (node_id bits l j) wip h) in
      let full : rc ≡ rc - 0 = omega arith in
      let fresh : work_item bits rc (node_id bits l j) false ≡ waiting l j [] = λ i. record {
        idx = node_id bits l j;
        dependencies_ready = 0;
        is_leaf = false;
        buf = none;
        inputs = replicate (full i) none;
      } in
      (
        m.0 ∙ fresh,
        m.1
            ∙ emplace-Above (node_id bits l j) (work_item bits rc (node_id bits l j) false) wip h
            ∙ ap (λ w. (node_id bits l j, w) ∷ wip) fresh,
      )

  pub Waits-next : (key : ℕ) (w : WorkItem) (wip : WorkMap) → Waits key w ((key, w) ∷ wip) wip
  unfolding Waits find
  Waits-next key w wip = there key w ((key, w) ∷ wip) (rw (==_true key key refl) refl)

  add_input-waiting :
      (l j c : ℕ) (b : Buffer) (bs : List Buffer)
      → Fits bits l (j * rc + c)
      → c ≡ length bs
      → c < rc
      → add_input bits rc (finished l (j * rc + c) b) (waiting (suc l) j bs)
        ≡ waiting (suc l) j (bs ++ (b ∷ []))
  unfolding add_input waiting finished
  add_input-waiting l j c b bs f e h =
      let n : leaf_num bits rc (finished l (j * rc + c) b) ≡ length bs =
        leaf_num-finished l (j * rc + c) b f ∙ child_mod j c h ∙ e in
      let left : rc - length bs ≡ suc (rc - length (bs ++ (b ∷ []))) =
        omega (arith, length-append bs (b ∷ [])) in
      let count : add64 (length bs) 1 ≡ length (bs ++ (b ∷ [])) =
        omega (arith, length-append bs (b ∷ []), two_le rc is_arity) in
      λ i. record {
        idx = node_id bits (suc l) j;
        dependencies_ready = count i;
        is_leaf = false;
        buf = none;
        inputs =
            (ap₂ (λ k m. set (bs ++ replicate m none) k b) n left
                ∙ set-next bs b (rc - length (bs ++ (b ∷ []))))
              i;
      }

  key_of_parent :
      (l j c : ℕ)
      → Fits bits l (j * rc + c)
      → c < rc
      → node_id bits
          (NodeId.layer bits (node_id bits l (j * rc + c)) + 1)
          (NodeId.node bits (node_id bits l (j * rc + c)) / rc)
        ≡ node_id bits (suc l) j
  key_of_parent l j c f h =
      let fields = fields-node_id bits l (j * rc + c) f in
      ap₂ (node_id bits) (rw (fields.0) (omega arith)) (rw (fields.1) (child_div j c h))

  module _ {M : Type 0} where
    -- a scheduler that has hashed `count` nodes
    unfoldable pub state : ℕ → List WorkItem → WorkMap → Store M → ℕ → Scheduler M
    state n stack wip st count = record {
      initial_nodes = n;
      stack = stack;
      wip = wip;
      bufs = st.pool;
      hash_count = count % size_mod;
      arity = rc;
      memory = st.memory;
    }

    -- the end of `record_result`, with the parent and the map at hand
    unfoldable settle : ℕ → WorkItem → WorkMap → Scheduler M → Scheduler M
    settle key d wip s =
        if d.dependencies_ready == s.arity
        then record s { stack = d ∷ s.stack; wip = erase key wip }
        else record s { wip = wip }

    settle-head :
        (n key : ℕ) (d : WorkItem) (stack : List WorkItem) (wip rest : WorkMap) (st : Store M)
        (count c : ℕ)
        → d.dependencies_ready ≡ c
        → settle key d ((key, d) ∷ rest) (state n stack wip st count) ≡ (
            if c == rc
            then state n (d ∷ stack) rest st count
            else state n stack ((key, d) ∷ rest) st count)
    unfolding settle state erase
    settle-head n key d stack wip rest st count c e =
        let gone : erase key ((key, d) ∷ rest) ≡ rest = rw (==_true key key refl) refl in
        ap₂
          (λ k w.
            if k == rc
            then state n (d ∷ stack) w st count
            else state n stack ((key, d) ∷ rest) st count)
          e gone

    -- A child that is not the last leaves its parent waiting; the last sends it to the stack.
    pub give :
        (n l j c : ℕ) (b : Buffer) (bs : List Buffer) (stack : List WorkItem) (wip rest : WorkMap)
        (st : Store M) (count : ℕ)
        → Fits bits l (j * rc + c)
        → c ≡ length bs
        → c < rc
        → Waits (node_id bits (suc l) j) (waiting (suc l) j bs) wip rest
        → record_result bits rc (finished l (j * rc + c) b) (state n stack wip st count) ≡ (
            if suc c == rc
            then state n (waiting (suc l) j (bs ++ (b ∷ [])) ∷ stack) rest st count
            else state n stack
                ((node_id bits (suc l) j, waiting (suc l) j (bs ++ (b ∷ []))) ∷ rest)
                st
                count)
    unfolding record_result state finished settle update Waits waiting
    give n l j c b bs stack wip rest st count f e h w =
        let key : ℕ = node_id bits (suc l) j in
        let item : WorkItem = finished l (j * rc + c) b in
        let d : WorkItem = waiting (suc l) j (bs ++ (b ∷ [])) in
        let s : Scheduler M = state n stack wip st count in
        let at : ℕ → WorkItem → WorkMap → Scheduler M =
          λ k v m. settle k (add_input bits rc item v) (update k (add_input bits rc item v) m) s in
        let head : update key d ((key, waiting (suc l) j bs) ∷ rest) ≡ (key, d) ∷ rest =
          rw (==_true key key refl) refl in
        ap (λ k. at k (dependant bits rc k wip) (with_dependant bits rc k wip))
          (key_of_parent l j c f h)
        ∙ ap₂ (at key) (w.0) (w.1)
        ∙ ap (λ v. settle key v (update key v ((key, waiting (suc l) j bs) ∷ rest)) s)
            (add_input-waiting l j c b bs f e h)
        ∙ ap (λ m. settle key d m s) head
        ∙ settle-head n key d stack wip rest st count (suc c)
            (omega (arith, e, length-append bs (b ∷ [])))
