-- ===== src/Pc2/Planner/Step.antt =====
-- One call of `next`, and the ids that a tree of nodes needs.
use native.Mathlib.Nat.{pow-zero, one-le-pow, suc-mul, mul-le-mul_left, mul-le-mul_right}
use mathlib.Core.List.{append-nil}
use supra_seal.Prelude.{
  ℕ, zero, suc, ◌+◌, ◌-◌, ◌*◌, ◌%◌, ◌^◌, ◌≤◌, ◌<◌, ◌≡◌, refl, ap, ap₂, ◌∙◌, arith, false, List, [],
  ◌∷◌, ◌++◌, none, replicate, length, add64, size_mod, ◌==◌, if◌then◌else◌, subst,
}
use supra_seal.Sealing.NodeId.{node_id}
use supra_seal.Sealing.NodeId.Fields.{Fits, id_value}
use supra_seal.Commit.TreeProof.Tree.{from}
use supra_seal.Pc2.Planner.{
  Buffer, WorkItem, WorkMap, Scheduler, record_result, add_input, leaf_num, hash_item, next,
  next_on,
}
use supra_seal.Pc2.Planner.Postorder.{Store, leaf, inner, hash_one, build, steps}
use supra_seal.Pc2.Planner.Order.{IsArity, two_le, Above, Waits, waiting, finished, state, give}

row_below : (a b l p : ℕ) → a < p → b < p → l * p + a < suc l * p + b
row_below a b l p h q = omega (arith, suc-mul l p)

pub id_order :
    (bits l a b : ℕ)
    → Fits bits l a
    → Fits bits (suc l) b
    → node_id bits l a < node_id bits (suc l) b
id_order bits l a b f g =
    rw (id_value bits l a f, id_value bits (suc l) b g)
      (row_below a b l (2 ^ bits) f.node_fits g.node_fits)

module _ (bits rc : ℕ) {M : Type 0} (hash_cb : WorkItem → M → M) where
  -- the state after so many calls of `next`
  unfoldable pub iterate : ℕ → Scheduler M → Scheduler M
  iterate zero s = s
  iterate (suc n) s = iterate n ((next bits rc hash_cb s).1)

  pub iterate-add : (a b : ℕ) (s : Scheduler M) → iterate (a + b) s ≡ iterate b (iterate a s)
  unfolding iterate
  iterate-add zero b s = ap (λ n. iterate n s) {x = 0 + b} {y = b} (omega arith)
  iterate-add (suc a) b s =
      let e : suc a + b ≡ suc (a + b) = omega arith in
      ap (λ n. iterate n s) e ∙ iterate-add a b ((next bits rc hash_cb s).1)

module _ (bits rc : ℕ) (is_arity : IsArity rc) where
  pub waiting-full :
      (l j : ℕ) (bs : List Buffer)
      → length bs ≡ rc
      → waiting bits rc is_arity l j bs ≡ inner bits rc l j bs
  unfolding waiting inner
  waiting-full l j bs e =
      let none_left : rc - length bs ≡ 0 = omega (arith, e) in
      λ i. record {
        idx = node_id bits l j;
        dependencies_ready = e i;
        is_leaf = false;
        buf = none;
        inputs = (ap (λ m. bs ++ replicate {A = Buffer} m none) none_left ∙ append-nil bs) i;
      }

  -- what a row of children needs: room for their ids
  pub record Room (h j : ℕ) : Type 0 where
    pub layers : suc (suc (suc h)) < 2 ^ 32
    pub narrow : 2 ^ bits ≤ 2 ^ 32
    pub nodes : suc j * rc * rc ^ h ≤ 2 ^ bits

  pub child_room : (j c x p q : ℕ) → x ≡ j * rc + c → c < rc → suc j * rc * p ≤ q → suc x * p ≤ q
  child_room j c x p q e h r =
      let le : suc x ≤ suc j * rc = omega (arith, suc-mul j rc) in
      omega (arith, mul-le-mul_right p le)

  bound_one : (x p q : ℕ) → 0 < p → suc x * p ≤ q → x < q
  bound_one x p q h r = omega (arith, mul-le-mul_right (suc x) h, suc-mul x p)

  pub child-Fits : (h j c x : ℕ) → Room h j → x ≡ j * rc + c → c < rc → Fits bits (suc h) x
  child-Fits h j c x r e lt = record {
    narrow = r.narrow;
    layer_fits = omega (arith, r.layers);
    node_fits =
        bound_one x (rc ^ h) (2 ^ bits) (one-le-pow h rc (omega (arith, two_le rc is_arity)))
          (child_room j c x (rc ^ h) (2 ^ bits) e lt r.nodes);
  }

  pub own-Fits : (h j : ℕ) → Room h j → Fits bits (suc (suc h)) j
  own-Fits h j r = record {
    narrow = r.narrow;
    layer_fits = omega (arith, r.layers);
    node_fits = omega (
      arith,
      (child-Fits h j 0 (j * rc) r (omega arith) (omega (arith, two_le rc is_arity))).node_fits,
      mul-le-mul_left j ((two_le rc is_arity).0),
    );
  }

module _ (bits rc : ℕ) (is_arity : IsArity rc) {M : Type 0} (hash_cb : WorkItem → M → M)
    (n0 : ℕ) where
  -- one call of `next`
  pub step :
      (w : WorkItem) (l j : ℕ) (stack : List WorkItem) (wip : WorkMap) (st : Store M) (count : ℕ)
      → w.idx ≡ node_id bits l j
      → (next bits rc hash_cb (state bits rc is_arity n0 (w ∷ stack) wip st count)).1
        ≡ record_result bits rc
            (finished bits rc is_arity l j ((hash_one bits rc hash_cb w st).0))
            (state bits rc is_arity n0 stack wip ((hash_one bits rc hash_cb w st).1) (suc count))
  unfolding next next_on hash_item hash_one state finished record_result add_input leaf_num
  step w l j stack wip st count e =
      let s : ℕ → Scheduler M = λ c. record {
        initial_nodes = n0;
        stack = stack;
        wip = wip;
        bufs = ((hash_one bits rc hash_cb w st).1).pool;
        hash_count = c;
        arity = rc;
        memory = ((hash_one bits rc hash_cb w st).1).memory;
      } in
      let b : Buffer = (hash_one bits rc hash_cb w st).0 in
      let c : add64 (count % size_mod) 1 ≡ suc count % size_mod = omega arith in
      ap₂ (λ i k. record_result bits rc (record w { idx = i; buf = b }) (s k)) e c

  -- the claim for a tree of `h` rows above the leaves
  unfoldable pub Walks : ℕ → Type 0
  Walks h =
      (j : ℕ) (stack : List WorkItem) (wip : WorkMap) (st : Store M) (count : ℕ)
      → Above (node_id bits (suc h) j) wip
      → suc (suc h) < 2 ^ 32
      → suc j * rc ^ h ≤ 2 ^ bits
      → iterate bits rc hash_cb (steps bits rc h) (
          state bits rc is_arity n0 (from (leaf bits rc) (j * rc ^ h) (rc ^ h) ++ stack) wip st
            count)
        ≡ record_result bits rc
            (finished bits rc is_arity (suc h) j ((build bits rc hash_cb h j st).0))
            (state bits rc is_arity n0 stack wip ((build bits rc hash_cb h j st).1)
              (count + steps bits rc h))

  pub Walks-leaf : Walks 0
  unfolding Walks iterate steps build
  Walks-leaf j stack wip st count a f r =
      let one : rc ^ 0 ≡ 1 = pow-zero rc in
      let at : j * 1 ≡ j = omega arith in
      let c : suc count ≡ count + 1 = omega arith in
      rw (one, at)
        (step (leaf bits rc j) 1 j stack wip st count refl
          ∙ ap
              (λ k.
                record_result bits rc
                  (finished bits rc is_arity 1 j ((build bits rc hash_cb 0 j st).0))
                  (state bits rc is_arity n0 stack wip ((build bits rc hash_cb 0 j st).1) k))
              c)

  -- `give`, of a child at `x`
  pub give_at :
      (l j c x : ℕ) (b : Buffer) (bs : List Buffer) (stack : List WorkItem) (wip rest : WorkMap)
      (st : Store M) (count : ℕ)
      → x ≡ j * rc + c
      → Fits bits l x
      → c ≡ length bs
      → c < rc
      → Waits bits rc is_arity
          (node_id bits (suc l) j)
          (waiting bits rc is_arity (suc l) j bs)
          wip
          rest
      → record_result bits rc
          (finished bits rc is_arity l x b)
          (state bits rc is_arity n0 stack wip st count)
        ≡ (if suc c == rc
            then state bits rc is_arity n0
                (waiting bits rc is_arity (suc l) j (bs ++ (b ∷ [])) ∷ stack)
                rest
                st
                count
            else state bits rc is_arity n0 stack
                ((node_id bits (suc l) j, waiting bits rc is_arity (suc l) j (bs ++ (b ∷ [])))
                  ∷ rest)
                st
                count)
  give_at l j c x b bs stack wip rest st count ex f e h w =
      ap
        (λ y.
          record_result bits rc (finished bits rc is_arity l y b)
            (state bits rc is_arity n0 stack wip st count))
        ex
      ∙ give bits rc is_arity n0 l j c b bs stack wip rest st count (subst (Fits bits l) ex f) e h w
