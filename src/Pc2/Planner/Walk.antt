-- ===== src/Pc2/Planner/Walk.antt =====
-- The scheduler hashes the nodes of a tree in the order of the recursion `build`.
use native.Mathlib.Nat.{pow-suc, suc-mul, mul_assoc, mul_comm}
use mathlib.Core.List.{append_assoc}
use supra_seal.Prelude.{
  ℕ, zero, suc, ◌+◌, ◌-◌, ◌*◌, ◌^◌, ◌≤◌, ◌<◌, ◌≡◌, refl, sym, ap, ap₂, ◌∙◌, arith, List, [], ◌∷◌,
  ◌++◌, length, length-append, ◌==◌, if◌then◌else◌, ==_true, ==_false, if_on, if_off,
}
use supra_seal.Sealing.NodeId.{node_id}
use supra_seal.Sealing.NodeId.Fields.{Fits}
use supra_seal.Commit.TreeProof.Tree.{from}
use supra_seal.Commit.TreeProof.Others.{from-append}
use supra_seal.Pc2.Planner.{Buffer, WorkItem, WorkMap, record_result}
use supra_seal.Pc2.Planner.Postorder.{Store, leaf, inner, each, hash_one, build, steps}
use supra_seal.Pc2.Planner.Order.{
  IsArity, two_le, Above, Above-trans, Waits, Waits-first, Waits-next, waiting, finished, state,
}
use supra_seal.Pc2.Planner.Step.{
  id_order, iterate, iterate-add, step, Walks, Walks-leaf, give_at, waiting-full, Room, child_room,
  child-Fits, own-Fits,
}

module _ (bits rc : ℕ) (is_arity : IsArity rc) {M : Type 0} (hash_cb : WorkItem → M → M)
    (n0 : ℕ) where
  -- the leaves below `k` children from the `x`-th on
  leaves_below : ℕ → ℕ → ℕ → List WorkItem
  leaves_below h k x = from (leaf bits rc) (x * rc ^ h) (k * rc ^ h)

  leaves-suc :
      (h k x : ℕ)
      → leaves_below h (suc k) x
        ≡ from (leaf bits rc) (x * rc ^ h) (rc ^ h) ++ leaves_below h k (suc x)
  unfolding leaves_below
  leaves-suc h k x =
      let a : x * rc ^ h + rc ^ h ≡ suc x * rc ^ h = omega (arith, suc-mul x (rc ^ h)) in
      let n : rc ^ h + k * rc ^ h ≡ suc k * rc ^ h = omega (arith, suc-mul k (rc ^ h)) in
      sym (
        ap (λ y. from (leaf bits rc) (x * rc ^ h) (rc ^ h) ++ from (leaf bits rc) y (k * rc ^ h))
          (sym a)
        ∙ from-append (leaf bits rc) (x * rc ^ h) (rc ^ h) (k * rc ^ h)
        ∙ ap (from (leaf bits rc) (x * rc ^ h)) n)

  -- The child at `x`, of a row with `k` more after it.
  row_child :
      (h j : ℕ) (r : Room bits rc is_arity h j)
      → Walks bits rc is_arity hash_cb n0 h
      → (k c x : ℕ) (bs : List Buffer) (stack : List WorkItem) (wip rest : WorkMap) (st : Store M)
        (count : ℕ)
      → c + suc k ≡ rc
      → x ≡ j * rc + c
      → c ≡ length bs
      → Waits bits rc is_arity
          (node_id bits (suc (suc h)) j)
          (waiting bits rc is_arity (suc (suc h)) j bs)
          wip
          rest
      → ((y : ℕ) → Fits bits (suc h) y → Above (node_id bits (suc h) y) wip)
      → let b = (build bits rc hash_cb h x st).0 in
        let st1 = (build bits rc hash_cb h x st).1 in
        let d = waiting bits rc is_arity (suc (suc h)) j (bs ++ (b ∷ [])) in
        let more = leaves_below h k (suc x) ++ stack in
        iterate bits rc hash_cb
          (suc k * steps bits rc h)
          (state bits rc is_arity n0 (leaves_below h (suc k) x ++ stack) wip st count)
        ≡ iterate bits rc hash_cb (k * steps bits rc h) (
            if suc c == rc
            then state bits rc is_arity n0 (d ∷ more) rest st1 (count + steps bits rc h)
            else state bits rc is_arity n0 more
                ((node_id bits (suc (suc h)) j, d) ∷ rest)
                st1
                (count + steps bits rc h))
  unfolding Walks
  row_child h j r walks k c x bs stack wip rest st count e ex eb w above =
      let s : ℕ = steps bits rc h in
      let b : Buffer = (build bits rc hash_cb h x st).0 in
      let more : List WorkItem = leaves_below h k (suc x) ++ stack in
      let lt : c < rc = omega arith in
      let f : Fits bits (suc h) x = child-Fits bits rc is_arity h j c x r ex lt in
      let times : suc k * s ≡ s + k * s = omega (arith, suc-mul k s) in
      let split : leaves_below h (suc k) x ++ stack
          ≡ from (leaf bits rc) (x * rc ^ h) (rc ^ h) ++ more =
        ap (λ l. l ++ stack) (leaves-suc h k x)
        ∙ append_assoc (from (leaf bits rc) (x * rc ^ h) (rc ^ h)) (leaves_below h k (suc x))
            stack in
      ap₂ (λ n l. iterate bits rc hash_cb n (state bits rc is_arity n0 l wip st count)) times split
      ∙ iterate-add bits rc hash_cb s (k * s) (
          state bits rc is_arity n0 (from (leaf bits rc) (x * rc ^ h) (rc ^ h) ++ more) wip st
            count)
      ∙ ap (iterate bits rc hash_cb (k * s)) (
          walks x more wip st count (above x f) (omega (arith, r.layers))
            (child_room bits rc is_arity j c x (rc ^ h) (2 ^ bits) ex lt r.nodes)
          ∙ give_at bits rc is_arity hash_cb n0 (suc h) j c x b bs more wip rest
              ((build bits rc hash_cb h x st).1) (count + s) ex f eb lt w)

  -- The children of node `j` that are left, `suc k` of them from the one at `x` on.
  row :
      (h j : ℕ) (r : Room bits rc is_arity h j)
      → Walks bits rc is_arity hash_cb n0 h
      → (k c x : ℕ) (bs : List Buffer) (stack : List WorkItem) (wip rest : WorkMap) (st : Store M)
        (count : ℕ)
      → c + suc k ≡ rc
      → x ≡ j * rc + c
      → c ≡ length bs
      → Waits bits rc is_arity
          (node_id bits (suc (suc h)) j)
          (waiting bits rc is_arity (suc (suc h)) j bs)
          wip
          rest
      → ((y : ℕ) → Fits bits (suc h) y → Above (node_id bits (suc h) y) wip)
      → ((y : ℕ) → Fits bits (suc h) y → Above (node_id bits (suc h) y) rest)
      → iterate bits rc hash_cb
          (suc k * steps bits rc h)
          (state bits rc is_arity n0 (leaves_below h (suc k) x ++ stack) wip st count)
        ≡ state bits rc is_arity n0
            (inner bits rc
                (suc (suc h))
                j
                (bs ++ ((each bits rc (build bits rc hash_cb h) (suc k) x st).0))
              ∷ stack)
            rest
            ((each bits rc (build bits rc hash_cb h) (suc k) x st).1)
            (count + suc k * steps bits rc h)
  unfolding leaves_below each iterate Above
  row h j r walks zero c x bs stack wip rest st count e ex eb w low lowr =
      let s : ℕ = steps bits rc h in
      let b : Buffer = (build bits rc hash_cb h x st).0 in
      let st1 : Store M = (build bits rc hash_cb h x st).1 in
      let all : List Buffer = bs ++ (b ∷ []) in
      let d : WorkItem = waiting bits rc is_arity (suc (suc h)) j all in
      let none_below : leaves_below h 0 (suc x) ++ stack ≡ stack =
        ap (λ n. from (leaf bits rc) (suc x * rc ^ h) n ++ stack) {y = 0} (omega arith) in
      let no_steps : 0 * s ≡ 0 = omega arith in
      let full : d ≡ inner bits rc (suc (suc h)) j all =
        waiting-full bits rc is_arity (suc (suc h)) j all
          (omega (arith, e, eb, length-append bs (b ∷ []))) in
      let counted : count + s ≡ count + 1 * s = omega arith in
      row_child h j r walks zero c x bs stack wip rest st count e ex eb w low
      ∙ ap (iterate bits rc hash_cb (0 * s)) (if_on _ _ (==_true (suc c) rc (omega (arith, e))))
      ∙ ap
          (λ n. iterate bits rc hash_cb n (
            state bits rc is_arity n0 (d ∷ (leaves_below h 0 (suc x) ++ stack)) rest st1
              (count + s)))
          no_steps
      ∙ ap₂ (λ v l. state bits rc is_arity n0 (v ∷ l) rest st1 (count + s)) full none_below
      ∙ ap (state bits rc is_arity n0 (inner bits rc (suc (suc h)) j all ∷ stack) rest st1) counted
  row h j r walks (suc k) c x bs stack wip rest st count e ex eb w low lowr =
      let s : ℕ = steps bits rc h in
      let key : ℕ = node_id bits (suc (suc h)) j in
      let b : Buffer = (build bits rc hash_cb h x st).0 in
      let st1 : Store M = (build bits rc hash_cb h x st).1 in
      let all : List Buffer = bs ++ (b ∷ []) in
      let d : WorkItem = waiting bits rc is_arity (suc (suc h)) j all in
      let after = each bits rc (build bits rc hash_cb h) (suc k) (suc x) st1 in
      let counted : count + s + suc k * s ≡ count + suc (suc k) * s =
        omega (arith, suc-mul (suc k) s) in
      row_child h j r walks (suc k) c x bs stack wip rest st count e ex eb w low
      ∙ ap (iterate bits rc hash_cb (suc k * s))
          (if_off _ _ (==_false (suc c) rc (λ q. omega (arith, q, e))))
      ∙ row h j r walks k (suc c) (suc x) all stack ((key, d) ∷ rest) rest st1 (count + s)
          (omega (arith, e)) (omega (arith, ex)) (omega (arith, eb, length-append bs (b ∷ [])))
          (Waits-next bits rc is_arity key d rest)
          (λ y f. (id_order bits (suc h) y j f (own-Fits bits rc is_arity h j r), lowr y f)) lowr
      ∙ ap₂
          (λ l n.
            state bits rc is_arity n0 (inner bits rc (suc (suc h)) j l ∷ stack) rest (after.1) n)
          (append_assoc bs (b ∷ []) (after.0)) counted

  leaves-tree :
      (h k j : ℕ)
      → suc k ≡ rc
      → from (leaf bits rc) (j * rc ^ suc h) (rc ^ suc h) ≡ leaves_below h (suc k) (j * rc)
  unfolding leaves_below
  leaves-tree h k j e =
      let p : rc ^ suc h ≡ rc * rc ^ h = pow-suc rc h ∙ mul_comm (rc ^ h) rc in
      let start : j * rc ^ suc h ≡ j * rc * rc ^ h =
        ap (λ (t : ℕ). j * t) p ∙ sym (mul_assoc j rc (rc ^ h)) in
      ap₂ (from (leaf bits rc)) start (p ∙ ap (λ (t : ℕ). t * rc ^ h) (sym e))

  bounds-Room :
      (h j : ℕ)
      → 2 ^ bits ≤ 2 ^ 32
      → suc (suc (suc h)) < 2 ^ 32
      → suc j * rc ^ suc h ≤ 2 ^ bits
      → Room bits rc is_arity h j
  bounds-Room h j narrow f r =
      let e : suc j * rc ^ suc h ≡ suc j * rc * rc ^ h =
        ap (λ (t : ℕ). suc j * t) (pow-suc rc h ∙ mul_comm (rc ^ h) rc)
        ∙ sym (mul_assoc (suc j) rc (rc ^ h)) in
      record { layers = f; narrow = narrow; nodes = omega (arith, e, r) }

  Walks-suc :
      (h : ℕ)
      → 2 ^ bits ≤ 2 ^ 32
      → Walks bits rc is_arity hash_cb n0 h
      → Walks bits rc is_arity hash_cb n0 (suc h)
  unfolding Walks steps build iterate
  Walks-suc h narrow ih j stack wip st count a f r =
      let k : ℕ = rc - 1 in
      let ek : suc k ≡ rc = omega (arith, two_le rc is_arity) in
      let room = bounds-Room h j narrow f r in
      let s : ℕ = steps bits rc h in
      let n : suc (rc * s) ≡ suc k * s + 1 = ap (λ (t : ℕ). suc (t * s)) (sym ek) ∙ omega arith in
      let top = own-Fits bits rc is_arity h j room in
      let low = λ (y : ℕ) (g : Fits bits (suc h) y).
        Above-trans (node_id bits (suc h) y) (node_id bits (suc (suc h)) j) wip
          (id_order bits (suc h) y j g top) a in
      let done = λ (m c : ℕ).
        let kids = each bits rc (build bits rc hash_cb h) m (j * rc) st in
        let r = hash_one bits rc hash_cb (inner bits rc (suc (suc h)) j (kids.0)) (kids.1) in
        record_result bits rc (finished bits rc is_arity (suc (suc h)) j (r.0))
          (state bits rc is_arity n0 stack wip (r.1) c) in
      let kids = each bits rc (build bits rc hash_cb h) (suc k) (j * rc) st in
      let counted : suc (count + suc k * s) ≡ count + suc (rc * s) = omega (arith, n) in
      ap₂ (λ m l. iterate bits rc hash_cb m (state bits rc is_arity n0 (l ++ stack) wip st count)) n
        (leaves-tree h k j ek)
      ∙ iterate-add bits rc hash_cb (suc k * s) 1
          (state bits rc is_arity n0 (leaves_below h (suc k) (j * rc) ++ stack) wip st count)
      ∙ ap (iterate bits rc hash_cb 1) (
          row h j room ih k 0 (j * rc) [] stack wip wip st count (omega (arith, ek)) (omega arith)
            refl (Waits-first bits rc is_arity (suc (suc h)) j wip a) low low)
      ∙ step bits rc is_arity hash_cb n0 (inner bits rc (suc (suc h)) j (kids.0)) (suc (suc h)) j
          stack wip (kids.1) (count + suc k * s) refl
      ∙ ap₂ done ek counted

  -- On a stack with the leaves of a tree on top, and a map in which no node of the tree or below
  -- its root's height waits, as many calls of `next` as the tree has nodes hash it in order.
  pub steps-Walks : (h : ℕ) → 2 ^ bits ≤ 2 ^ 32 → Walks bits rc is_arity hash_cb n0 h
  steps-Walks zero narrow = Walks-leaf bits rc is_arity hash_cb n0
  steps-Walks (suc h) narrow = Walks-suc h narrow (steps-Walks h narrow)
