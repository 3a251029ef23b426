-- ===== src/Pc2/Planner/Run.antt =====
-- The whole run: the leaves that `reset` puts on the stack, and the loop of `run`.
use native.Mathlib.Nat.{one-le-pow}
use mathlib.Core.List.{append-nil}
use supra_seal.Prelude.{
  ℕ, zero, suc, ◌+◌, ◌*◌, ◌^◌, ◌≤◌, ◌<◌, ◌≡◌, refl, sym, ap, ◌∙◌, arith, Bool, true, false, List,
  [], ◌∷◌, ◌++◌, some, sub64, ==_false, if_off,
}
use supra_seal.Sealing.NodeId.{node_id}
use supra_seal.Sealing.NodeId.Fields.{Fits}
use supra_seal.Commit.TreeProof.Tree.{from}
use supra_seal.Pc2.Planner.{
  Buffers, WorkItem, Scheduler, leaf_loop, reset, create, has_work, next, next_on, run_loop,
}
use supra_seal.Pc2.Planner.Postorder.{Store, leaf, build, steps}
use supra_seal.Pc2.Planner.Order.{IsArity, two_le, Above, Waits-first, waiting, state}
use supra_seal.Pc2.Planner.Step.{iterate, Walks, give_at}
use supra_seal.Pc2.Planner.Walk.{steps-Walks}

module _ (bits rc : ℕ) where
  leaf_loop_lem :
      (n0 n i : ℕ)
      → n0 ≤ 2 ^ 32
      → i + n ≡ n0
      → leaf_loop bits rc n0 n i (from (leaf bits rc) n i) ≡ from (leaf bits rc) 0 n0
  unfolding leaf_loop leaf
  leaf_loop_lem n0 zero i h e = ap (from (leaf bits rc) 0) (omega arith)
  leaf_loop_lem n0 (suc n) i h e =
      let at : sub64 (sub64 n0 i) 1 ≡ n = omega arith in
      ap (λ y. leaf_loop bits rc n0 n (suc i) (leaf bits rc y ∷ from (leaf bits rc) (suc n) i)) at
      ∙ leaf_loop_lem n0 n (suc i) h (omega arith)

  module _ {M : Type 0} (hash_cb : WorkItem → M → M) where
    next-empty : (s : Scheduler M) → s.stack ≡ [] → (next bits rc hash_cb s).1 ≡ s
    unfolding next
    next-empty s e = ap (λ l. (next_on bits rc hash_cb l s).1) e

    iterate-empty : (n : ℕ) (s : Scheduler M) → s.stack ≡ [] → iterate bits rc hash_cb n s ≡ s
    unfolding iterate
    iterate-empty zero s e = refl
    iterate-empty (suc n) s e =
        ap (iterate bits rc hash_cb n) (next-empty s e) ∙ iterate-empty n s e

    next_on-more :
        (l : List WorkItem) (s : Scheduler M)
        → l ≡ s.stack
        → (next_on bits rc hash_cb l s).0 ≡ has_work ((next_on bits rc hash_cb l s).1).stack
    unfolding next_on
    next_on-more [] s e = ap has_work e
    next_on-more (w ∷ l) s e = refl

    run_loop-on :
        (more : Bool) (fuel : ℕ) (s : Scheduler M)
        → (next bits rc hash_cb s).0 ≡ more
        → run_loop bits rc hash_cb (suc fuel) s ≡ elim more [
          | false ↦ some ((next bits rc hash_cb s).1)
          | true ↦ run_loop bits rc hash_cb fuel ((next bits rc hash_cb s).1)
        ]
    unfolding run_loop
    run_loop-on more fuel s e =
        ap
          (λ b. elim b [
            | false ↦ some ((next bits rc hash_cb s).1)
            | true ↦ run_loop bits rc hash_cb fuel ((next bits rc hash_cb s).1)
          ])
          e

    -- One round, by the stack that it leaves.
    run_loop-case :
        (l : List WorkItem) (n fuel : ℕ) (s : Scheduler M)
        → ((next bits rc hash_cb s).1).stack ≡ l
        → (iterate bits rc hash_cb n ((next bits rc hash_cb s).1)).stack ≡ []
        → n ≤ fuel
        → (1 ≤ n
            → run_loop bits rc hash_cb fuel ((next bits rc hash_cb s).1)
              ≡ some (iterate bits rc hash_cb n ((next bits rc hash_cb s).1)))
        → run_loop bits rc hash_cb (suc fuel) s
          ≡ some (iterate bits rc hash_cb n ((next bits rc hash_cb s).1))
    unfolding next iterate has_work
    run_loop-case [] n fuel s e f q ih =
        run_loop-on false fuel s (next_on-more s.stack s refl ∙ ap has_work e)
        ∙ ap some (sym (iterate-empty n ((next bits rc hash_cb s).1) e))
    run_loop-case (v ∷ vs) zero fuel s e f q ih =
        let clash : true ≡ false = sym (ap has_work e) ∙ ap has_work f in cc
    run_loop-case (v ∷ vs) (suc n) fuel s e f q ih =
        run_loop-on true fuel s (next_on-more s.stack s refl ∙ ap has_work e) ∙ ih (omega arith)

    run_loop-iterate :
        (n fuel : ℕ) (s : Scheduler M)
        → (iterate bits rc hash_cb n s).stack ≡ []
        → 1 ≤ n
        → n ≤ fuel
        → run_loop bits rc hash_cb fuel s ≡ some (iterate bits rc hash_cb n s)
    unfolding iterate
    run_loop-iterate zero fuel s e p q = elim p [ ]
    run_loop-iterate (suc n) zero s e p q = elim q [ ]
    run_loop-iterate (suc n) (suc fuel) s e p q =
        run_loop-case (((next bits rc hash_cb s).1).stack) n fuel s refl e (omega arith)
          (λ h. run_loop-iterate n fuel ((next bits rc hash_cb s).1) e h (omega arith))

  pub steps-pos : (k : ℕ) → 1 ≤ steps bits rc k
  unfolding steps
  steps-pos zero = omega arith
  steps-pos (suc k) = omega arith

  module _ (is_arity : IsArity rc) {M : Type 0} (hash_cb : WorkItem → M → M) where
    -- where a run of a whole tree ends
    unfoldable pub ended : ℕ → Buffers → M → Scheduler M
    unfolding state
    ended k bufs memory =
        let r = build bits rc hash_cb k 0 (record { pool = bufs; memory = memory }) in
        state bits rc is_arity (rc ^ k) []
          ((node_id bits (suc (suc k)) 0, waiting bits rc is_arity (suc (suc k)) 0 (r.0 ∷ [])) ∷ [])
          (r.1) (steps bits rc k)

    create-state :
        (k : ℕ) (bufs : Buffers) (memory : M)
        → rc ^ k ≤ 2 ^ 32
        → create bits rc (rc ^ k) rc bufs memory
          ≡ state bits rc is_arity
              (rc ^ k)
              (from (leaf bits rc) (0 * rc ^ k) (rc ^ k) ++ [])
              []
              (record { pool = bufs; memory = memory })
              0
    unfolding create reset state
    create-state k bufs memory h =
        let start : 0 ≡ 0 * rc ^ k = omega arith in
        let e : leaf_loop bits rc (rc ^ k) (rc ^ k) 0 []
            ≡ from (leaf bits rc) (0 * rc ^ k) (rc ^ k) ++ [] =
          leaf_loop_lem (rc ^ k) (rc ^ k) 0 h (omega arith)
          ∙ ap (λ y. from (leaf bits rc) y (rc ^ k)) start
          ∙ sym (append-nil (from (leaf bits rc) (0 * rc ^ k) (rc ^ k))) in
        λ i. record {
          initial_nodes = rc ^ k;
          stack = e i;
          wip = [];
          bufs = bufs;
          hash_count = 0;
          arity = rc;
          memory = memory;
        }

    iterate-ended :
        (k : ℕ) (bufs : Buffers) (memory : M)
        → 2 ^ bits ≤ 2 ^ 32
        → suc (suc k) < 2 ^ 32
        → rc ^ k ≤ 2 ^ bits
        → iterate bits rc hash_cb (steps bits rc k) (create bits rc (rc ^ k) rc bufs memory)
          ≡ ended k bufs memory
    unfolding Walks ended Above
    iterate-ended k bufs memory narrow f r =
        let st : Store M = record { pool = bufs; memory = memory } in
        let two = two_le rc is_arity in
        let fits : Fits bits (suc k) 0 = record {
          narrow = narrow;
          layer_fits = omega (arith, f);
          node_fits = omega (arith, one-le-pow bits 2);
        } in
        let b = build bits rc hash_cb k 0 st in
        let counted : 0 + steps bits rc k ≡ steps bits rc k = omega arith in
        ap (iterate bits rc hash_cb (steps bits rc k)) (create-state k bufs memory (omega arith))
        ∙ steps-Walks bits rc is_arity hash_cb (rc ^ k) k narrow 0 [] [] st 0 tt f
            (omega (arith, r))
        ∙ give_at bits rc is_arity hash_cb (rc ^ k) (suc k) 0 0 0 (b.0) [] [] [] [] (b.1)
            (0 + steps bits rc k) (omega arith) fits refl (omega (arith, two))
            (Waits-first bits rc is_arity (suc (suc k)) 0 [] tt)
        ∙ if_off _ _ (==_false 1 rc (λ q. omega (arith, q, two)))
        ∙ ap
            (state bits rc is_arity (rc ^ k) []
              ((node_id bits (suc (suc k)) 0, waiting bits rc is_arity (suc (suc k)) 0 (b.0 ∷ []))
                ∷ [])
              (b.1))
            (counted)

    -- For an arity that is a power of two, and a tree whose nodes and layers fit the ids: with fuel
    -- for as many hashes as the tree has nodes, `run` ends. It has hashed each node once, a node
    -- after its children and the children from left to right, and then only the item above the
    -- root waits, with the root's buffer as its first input.
    pub run-build :
        (k fuel : ℕ) (bufs : Buffers) (memory : M)
        → 2 ^ bits ≤ 2 ^ 32
        → suc (suc k) < 2 ^ 32
        → rc ^ k ≤ 2 ^ bits
        → steps bits rc k ≤ fuel
        → run_loop bits rc hash_cb fuel (create bits rc (rc ^ k) rc bufs memory)
          ≡ some (ended k bufs memory)
    unfolding ended state
    run-build k fuel bufs memory narrow f r enough =
        let e = iterate-ended k bufs memory narrow f r in
        run_loop-iterate hash_cb (steps bits rc k) fuel (create bits rc (rc ^ k) rc bufs memory)
          (ap (λ s. s.stack) e) (steps-pos k) enough
        ∙ ap some e
