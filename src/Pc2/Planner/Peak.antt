-- ===== src/Pc2/Planner/Peak.antt =====
-- How many buffers the pool makes for a tree.
use supra_seal.Prelude.{
  ℕ, zero, suc, ◌+◌, ◌-◌, ◌*◌, ◌^◌, ◌≤◌, ◌<◌, ◌≡◌, refl, ap, arith, List, [], ◌∷◌, length, max,
  some,
}
use supra_seal.Pc2.Planner.{
  Buffer, Buffers, WorkItem, Scheduler, no_buffers, get, put, put_all, create, run_loop,
}
use supra_seal.Pc2.Planner.Postorder.{Store, leaf, inner, each, hash_one, build, steps}
use supra_seal.Pc2.Planner.Order.{IsArity, two_le, state}
use supra_seal.Pc2.Planner.Run.{ended, run-build}

-- `used` buffers are out of the pool.
record Counted (used : ℕ) (p : Buffers) : Type 0 where
  all : p.num_buffers ≡ used + length p.buffers

-- `used` are out, and no more than `most` were made on the way from `p`, or as many as there were
record Grown (p q : Buffers) (used most : ℕ) : Type 0 where
  counted : q.num_buffers ≡ used + length q.buffers
  bound : q.num_buffers ≤ max p.num_buffers most

get_of-Grown :
    (bs : List Buffer) (n used : ℕ)
    → n ≡ used + length bs
    → Grown
        (record { buffers = bs; num_buffers = n })
        ((get (record { buffers = bs; num_buffers = n })).1)
        (suc used)
        (suc used)
unfolding get
get_of-Grown [] n used h = record { counted = omega (arith, h); bound = omega (arith, h) }
get_of-Grown (b ∷ bs) n used h = record { counted = omega (arith, h); bound = omega arith }

get-Grown :
    (p : Buffers) (used : ℕ)
    → p.num_buffers ≡ used + length p.buffers
    → Grown p ((get p).1) (suc used) (suc used)
get-Grown p used h = get_of-Grown p.buffers p.num_buffers used h

put_all-counts :
    (bs : List Buffer) (p : Buffers)
    → ((put_all bs p).num_buffers ≡ p.num_buffers)
      × (length (put_all bs p).buffers ≡ length bs + length p.buffers)
unfolding put_all put
put_all-counts [] p = (refl, omega arith)
put_all-counts (b ∷ bs) p = let r = put_all-counts bs (put b p) in (r.0, omega (arith, r.1))

module _ (bits rc : ℕ) {M : Type 0} (hash_cb : WorkItem → M → M) where
  each-length :
      (f : ℕ → Store M → Buffer × Store M) (n c : ℕ) (st : Store M)
      → length ((each bits rc f n c st).0) ≡ n
  unfolding each
  each-length f zero c st = refl
  each-length f (suc n) c st = ap suc (each-length f n (suc c) ((f c st).1))

  each-Grown :
      (f : ℕ → Store M → Buffer × Store M) (spare : ℕ)
      → ((j : ℕ) (st : Store M) (used : ℕ)
          → (st.pool).num_buffers ≡ used + length (st.pool).buffers
          → Grown st.pool ((f j st).1).pool (suc used) (suc used + spare))
      → (n c : ℕ) (st : Store M) (used : ℕ)
      → (st.pool).num_buffers ≡ used + length (st.pool).buffers
      → Grown st.pool ((each bits rc f n c st).1).pool (used + n) (used + n + spare)
  unfolding each
  each-Grown f spare g zero c st used h = record { counted = omega (arith, h); bound = omega arith }
  each-Grown f spare g (suc n) c st used h =
      let one = g c st used h in
      let rest = each-Grown f spare g n (suc c) ((f c st).1) (suc used) one.counted in
      record { counted = omega (arith, rest.counted); bound = omega (arith, rest.bound, one.bound) }

  leaf-Grown :
      (j : ℕ) (st : Store M) (used : ℕ)
      → (st.pool).num_buffers ≡ used + length (st.pool).buffers
      → Grown st.pool ((hash_one bits rc hash_cb (leaf bits rc j) st).1).pool (suc used) (suc used)
  unfolding hash_one leaf
  leaf-Grown j st used h = get-Grown st.pool used h

  inner-Grown :
      (l j : ℕ) (st : Store M) (bs : List Buffer) (used : ℕ)
      → length bs ≡ rc
      → (st.pool).num_buffers ≡ used + rc + length (st.pool).buffers
      → Grown st.pool
          ((hash_one bits rc hash_cb (inner bits rc l j bs) st).1).pool
          (suc used)
          (suc (used + rc))
  unfolding hash_one inner
  inner-Grown l j st bs used e h =
      let g = get-Grown st.pool (used + rc) h in
      let p = put_all-counts bs ((get st.pool).1) in
      record { counted = omega (arith, g.counted, p, e); bound = omega (arith, g.bound, p) }

  build-Grown :
      (k j : ℕ) (st : Store M) (used : ℕ)
      → 1 ≤ rc
      → (st.pool).num_buffers ≡ used + length (st.pool).buffers
      → Grown st.pool
          ((build bits rc hash_cb k j st).1).pool
          (suc used)
          (suc used + suc ((rc - 1) * k))
  unfolding build
  build-Grown zero j st used r h =
      let g = leaf-Grown j st used h in
      record { counted = g.counted; bound = omega (arith, g.bound) }
  build-Grown (suc k) j st used r h =
      let f = build bits rc hash_cb k in
      let kids = each bits rc f rc (j * rc) st in
      let e =
        each-Grown f (suc ((rc - 1) * k)) (λ i s u. build-Grown k i s u r) rc (j * rc) st used h in
      let g =
        inner-Grown (suc (suc k)) j (kids.1) (kids.0) used (each-length f rc (j * rc) st)
          e.counted in
      let more : (rc - 1) * suc k ≡ (rc - 1) * k + (rc - 1) = omega arith in
      record { counted = g.counted; bound = omega (arith, g.bound, e.bound, more) }

  module _ (is_arity : IsArity rc) where
    -- For an arity that is a power of two and a tree whose nodes and layers fit the ids, on an
    -- empty pool: `run` ends with one buffer in use, all others are back in the pool, and it has
    -- made at most `(arity - 1) * levels + 2` buffers.
    pub run-peak :
        (k fuel : ℕ) (memory : M)
        → 2 ^ bits ≤ 2 ^ 32
        → suc (suc k) < 2 ^ 32
        → rc ^ k ≤ 2 ^ bits
        → steps bits rc k ≤ fuel
        → (s : Scheduler M) × (run_loop bits rc hash_cb fuel
              (create bits rc (rc ^ k) rc no_buffers memory)
            ≡ some s)
          × ((s.bufs).num_buffers ≡ 1 + length (s.bufs).buffers)
          × ((s.bufs).num_buffers ≤ (rc - 1) * k + 2)
    unfolding ended state no_buffers
    run-peak k fuel memory narrow f r enough =
        let st : Store M = record { pool = no_buffers; memory = memory } in
        let g = build-Grown k 0 st 0 (omega (arith, two_le rc is_arity)) refl in
        (
          ended bits rc is_arity hash_cb k no_buffers memory,
          run-build bits rc is_arity hash_cb k fuel no_buffers memory narrow f r enough,
          g.counted,
          omega (arith, g.bound),
        )
