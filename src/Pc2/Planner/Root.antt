-- ===== src/Pc2/Planner/Root.antt =====
-- The buffer that `run` returns holds the root of the Merkle tree over the leaves, whatever the pool
-- held before.
use mathlib.Core.Option.{some-injective}
use supra_seal.Prelude.{
  false, get_or-replicate, ◌-◌, ℕ, zero, suc, ◌*◌, ◌^◌, ◌≤◌, ◌<◌, ◌≡◌, ◌≢◌, refl, ap, ap₂, ◌∙◌, sym,
  true, List, [], ◌∷◌, map, some, none, subst,
}
use supra_seal.Commit.TreeProof.Tree.{from}
use supra_seal.Pc2.Planner.{
  Buffer, Buffers, WorkItem, Scheduler, get, create, run_loop, result, is_done,
}
use supra_seal.Pc2.Planner.Postorder.{Store, leaf, inner, each, hash_one, build, steps}
use supra_seal.Pc2.Planner.Order.{IsArity, state, waiting}
use supra_seal.Pc2.Planner.Run.{ended, run-build}
use supra_seal.Pc2.Planner.Pool.{
  Off, Live, Stacked, Held, got, Held-mono, Held-Off, put_all-Stacked, put_all-Live,
}

module _ (bits rc : ℕ) {A : Type 0} (h : List A → A) (leaves : ℕ → A) where
  -- What the callback is to do: the value of a leaf, or the hash of the inputs, goes to the item's
  -- buffer, and no other buffer changes.
  pub record Hashes (hash_cb : WorkItem → (ℕ → A) → ℕ → A) : Type 0 where
    pub leaf_at :
        (j x : ℕ) (m : ℕ → A) → hash_cb (record (leaf bits rc j) { buf = some x }) m x ≡ leaves j
    pub inner_at :
        (l j x : ℕ) (xs : List ℕ) (m : ℕ → A)
        → hash_cb (record (inner bits rc l j (map some xs)) { buf = some x }) m x ≡ h (map m xs)
    pub elsewhere :
        (w : WorkItem) (x y : ℕ) (m : ℕ → A) → w.buf ≡ some x → x ≢ y → hash_cb w m y ≡ m y

  -- the Merkle tree over the leaves
  unfoldable pub root : ℕ → ℕ → A
  root zero j = leaves j
  root (suc k) j = h (from (root k) (j * rc) rc)

  -- one more live buffer, with a value, and nothing else changed
  record Built (st : Store (ℕ → A)) (b : Buffer) (after : Store (ℕ → A)) (v : A) : Type 0 where
    x : ℕ
    is_x : b ≡ some x
    stacked : Stacked (after.pool).num_buffers (after.pool).buffers
    live : Live after.pool x
    others : (y : ℕ) → Live st.pool y → Live after.pool y × (x ≢ y) × (after.memory y ≡ st.memory y)
    value : after.memory x ≡ v

  -- some more live buffers, with their values, and nothing else changed
  record AllBuilt (st : Store (ℕ → A)) (bs : List Buffer) (after : Store (ℕ → A)) (vs : List A)
      : Type 0 where
    xs : List ℕ
    is_xs : bs ≡ map some xs
    stacked : Stacked (after.pool).num_buffers (after.pool).buffers
    held : Held after.pool xs
    others :
        (y : ℕ)
        → Live st.pool y
        → Live after.pool y × Off y (map some xs) × (after.memory y ≡ st.memory y)
    values : map after.memory xs ≡ vs

  map-same :
      (m n : ℕ → A) (p : Buffers) (xs : List ℕ)
      → ((y : ℕ) → Live p y → n y ≡ m y)
      → Held p xs
      → map n xs ≡ map m xs
  unfolding Held
  map-same m n p [] f k = refl
  map-same m n p (x ∷ xs) f (l, off, k) = ap₂ (λ a l. a ∷ l) (f x l) (map-same m n p xs f k)

  AllBuilt-cons :
      (st st1 st2 : Store (ℕ → A)) (b : Buffer) (bs : List Buffer) (v : A) (vs : List A)
      → Built st b st1 v
      → AllBuilt st1 bs st2 vs
      → AllBuilt st (b ∷ bs) st2 (v ∷ vs)
  unfolding Held Off
  AllBuilt-cons st st1 st2 b bs v vs d r =
      let here = r.others d.x d.live in
      record {
        xs = d.x ∷ r.xs;
        is_xs = ap₂ (λ c cs. c ∷ cs) d.is_x r.is_xs;
        stacked = r.stacked;
        held = (here.0, here.1, r.held);
        others = λ y l.
            let one = d.others y l in
            let all = r.others y (one.0) in
            (all.0, (λ e. one.1 (some-injective d.x y e), all.1), all.2 ∙ one.2);
        values = ap₂ (λ a ws. a ∷ ws) (here.2 ∙ d.value) r.values;
      }

  module _ (hash_cb : WorkItem → (ℕ → A) → ℕ → A) (hashes : Hashes hash_cb) where
    each-AllBuilt :
        (f : ℕ → Store (ℕ → A) → Buffer × Store (ℕ → A)) (v : ℕ → A)
        → ((j : ℕ) (st : Store (ℕ → A))
            → Stacked (st.pool).num_buffers (st.pool).buffers
            → Built st ((f j st).0) ((f j st).1) (v j))
        → (n c : ℕ) (st : Store (ℕ → A)) → Stacked (st.pool).num_buffers (st.pool).buffers
        → AllBuilt st ((each bits rc f n c st).0) ((each bits rc f n c st).1) (from v c n)
    unfolding each Held Off
    each-AllBuilt f v built zero c st k = record {
      xs = [];
      is_xs = refl;
      stacked = k;
      held = tt;
      others = λ y l. (l, tt, refl);
      values = refl;
    }
    each-AllBuilt f v built (suc n) c st k =
        let d = built c st k in
        let st1 = (f c st).1 in
        AllBuilt-cons st st1 ((each bits rc f n (suc c) st1).1) ((f c st).0)
          ((each bits rc f n (suc c) st1).0) (v c) (from v (suc c) n) d
          (each-AllBuilt f v built n (suc c) st1 d.stacked)

    leaf-Built :
        (j : ℕ) (st : Store (ℕ → A))
        → Stacked (st.pool).num_buffers (st.pool).buffers
        → Built st
            ((hash_one bits rc hash_cb (leaf bits rc j) st).0)
            ((hash_one bits rc hash_cb (leaf bits rc j) st).1)
            (leaves j)
    unfolding hash_one leaf
    leaf-Built j st k =
        let g = got st.pool k in
        record {
          x = g.x;
          is_x = g.is_x;
          stacked = g.stacked;
          live = g.live;
          others = λ y l. (
            (g.others y l).0,
            (g.others y l).1,
            hashes.elsewhere (record (leaf bits rc j) { buf = (get st.pool).0 }) g.x y st.memory
                g.is_x ((g.others y l).1),
          );
          value =
              ap (λ b. hash_cb (record (leaf bits rc j) { buf = b }) st.memory g.x) g.is_x
              ∙ hashes.leaf_at j g.x st.memory;
        }

    inner-xs :
        (l j : ℕ) (st0 st : Store (ℕ → A)) (xs : List ℕ) (vs : List A)
        → Stacked (st.pool).num_buffers (st.pool).buffers
        → Held st.pool xs
        → ((y : ℕ)
            → Live st0.pool y
            → Live st.pool y × Off y (map some xs) × (st.memory y ≡ st0.memory y))
        → map st.memory xs ≡ vs
        → let r = hash_one bits rc hash_cb (inner bits rc l j (map some xs)) st in
          Built st0 (r.0) (r.1) (h vs)
    unfolding hash_one inner
    inner-xs l j st0 st xs vs k held others values =
        let g = got st.pool k in
        let p : Buffers = (get st.pool).1 in
        let kept = Held-mono st.pool p xs (λ y l. (g.others y l).0) held in
        let w : WorkItem = record (inner bits rc l j (map some xs)) { buf = (get st.pool).0 } in
        record {
          x = g.x;
          is_x = g.is_x;
          stacked = put_all-Stacked xs p g.stacked kept;
          live =
              put_all-Live xs p g.x (Held-Off st.pool g.x xs (λ y l. (g.others y l).1) held) g.live;
          others = λ y l.
              let o = others y l in
              let n = g.others y (o.0) in
              (
                put_all-Live xs p y (o.1) (n.0),
                n.1,
                hashes.elsewhere w g.x y st.memory g.is_x (n.1) ∙ o.2,
              );
          value =
              ap (λ b. hash_cb (record (inner bits rc l j (map some xs)) { buf = b }) st.memory g.x)
                g.is_x
              ∙ hashes.inner_at l j g.x xs st.memory
              ∙ ap h values;
        }

    inner-Built :
        (l j : ℕ) (st0 st : Store (ℕ → A)) (bs : List Buffer) (vs : List A)
        → AllBuilt st0 bs st vs
        → let r = hash_one bits rc hash_cb (inner bits rc l j bs) st in Built st0 (r.0) (r.1) (h vs)
    inner-Built l j st0 st bs vs a =
        subst
          (λ ps.
            Built st0 ((hash_one bits rc hash_cb (inner bits rc l j ps) st).0)
              ((hash_one bits rc hash_cb (inner bits rc l j ps) st).1) (h vs))
          (sym a.is_xs) (inner-xs l j st0 st a.xs vs a.stacked a.held a.others a.values)

    build-Built :
        (k j : ℕ) (st : Store (ℕ → A))
        → Stacked (st.pool).num_buffers (st.pool).buffers
        → Built st ((build bits rc hash_cb k j st).0) ((build bits rc hash_cb k j st).1) (root k j)
    unfolding build root
    build-Built zero j st s = leaf-Built j st s
    build-Built (suc k) j st s =
        let kids = each bits rc (build bits rc hash_cb k) rc (j * rc) st in
        inner-Built (suc (suc k)) j st (kids.1) (kids.0) (from (root k) (j * rc) rc)
          (each-AllBuilt (build bits rc hash_cb k) (root k) (build-Built k) rc (j * rc) st s)

    module _ (is_arity : IsArity rc) where
      -- For an arity that is a power of two, a tree whose nodes and layers fit the ids, a callback
      -- that hashes, and a pool whose buffers were made and are all different: with fuel for as
      -- many hashes as the tree has nodes, `run` ends. The buffer that it returns then holds the
      -- Merkle root of the leaves, the assertions of `is_done` hold, and the buffers that were in
      -- use before are in use still, with what they held.
      pub run-root :
          (k fuel : ℕ) (bufs : Buffers) (memory : ℕ → A)
          → 2 ^ bits ≤ 2 ^ 32
          → suc (suc k) < 2 ^ 32
          → rc ^ k ≤ 2 ^ bits
          → steps bits rc k ≤ fuel
          → Stacked bufs.num_buffers bufs.buffers
          → (s : Scheduler (ℕ → A)) × (run_loop bits rc hash_cb fuel
                (create bits rc (rc ^ k) rc bufs memory)
              ≡ some s)
            × (x : ℕ) × (result bits rc s ≡ some x)
            × (s.memory x ≡ root k 0)
            × (is_done bits rc s ≡ true)
            × ((y : ℕ) → Live bufs y → Live s.bufs y × (s.memory y ≡ memory y))
      unfolding ended state result is_done waiting
      run-root k fuel bufs memory narrow f r enough stacked =
          let st : Store (ℕ → A) = record { pool = bufs; memory = memory } in
          let b = build-Built k 0 st stacked in
          (
            ended bits rc is_arity hash_cb k bufs memory,
            run-build bits rc is_arity hash_cb k fuel bufs memory narrow f r enough,
            b.x,
            b.is_x,
            b.value,
            ap₂ (λ c e. elim c [ none ↦ false | some a ↦ elim e [ none ↦ true | some z ↦ false ] ])
                b.is_x (get_or-replicate {A = Buffer} (rc - 1) none 0),
            λ y l. ((b.others y l).0, (b.others y l).2),
          )
