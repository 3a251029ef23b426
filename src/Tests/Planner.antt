-- ===== src/Tests/Planner.antt =====
-- The scheduler of pc2/planner.cpp on a tree of four leaves, with numbers for nodes and sums for
-- hashes.
use supra_seal.Prelude.{
  ℕ, ◌+◌, ◌*◌, ◌^◌, ◌≤◌, ◌≡◌, ◌≢◌, refl, ap, ◌∙◌, arith, some, none, true, List, [], ◌∷◌, map, ◌==◌,
  if◌then◌else◌, ==_true, ==_false, if_on, if_off, length,
}
use supra_seal.Sealing.NodeId.{node_id}
use supra_seal.Pc2.Planner.{
  Buffer, WorkItem, Scheduler, no_buffers, create, run_loop, result, is_done,
}
use supra_seal.Pc2.Planner.Postorder.{leaf, inner, steps}
use supra_seal.Pc2.Planner.Order.{IsArity}
use supra_seal.Pc2.Planner.Pool.{Live, Stacked}
use supra_seal.Pc2.Planner.Run.{ended, run-build}
use supra_seal.Pc2.Planner.Root.{Hashes, root, run-root}
use supra_seal.Pc2.Planner.Peak.{run-peak}

two-IsArity : IsArity 2
two-IsArity = record { lg = 1; is_pow = refl; lg_pos = omega arith; lg_small = omega arith }

-- the ids in the order of the hashes, the last first
abbrev log_cb : WorkItem → List ℕ → List ℕ
log_cb w ids = w.idx ∷ ids

run-build_example :
    run_loop 6 2 log_cb 7 (create 6 2 (2 ^ 2) 2 no_buffers [])
    ≡ some (ended 6 2 two-IsArity log_cb 2 no_buffers [])
unfolding steps
run-build_example =
    run-build 6 2 two-IsArity log_cb 2 7 no_buffers [] (omega arith) (omega arith) (omega arith)
      (omega arith)

abbrev sum : List ℕ → ℕ
sum [] = 0
sum (n ∷ ns) = n + sum ns

abbrev read_all : List Buffer → (ℕ → ℕ) → List ℕ
read_all [] m = []
read_all (none ∷ bs) m = read_all bs m
read_all (some x ∷ bs) m = m x ∷ read_all bs m

read_all-map : (xs : List ℕ) (m : ℕ → ℕ) → read_all (map some xs) m ≡ map m xs
read_all-map [] m = refl
read_all-map (x ∷ xs) m = ap (λ l. m x ∷ l) (read_all-map xs m)

abbrev value_of : WorkItem → (ℕ → ℕ) → ℕ
value_of w m = if w.is_leaf then w.idx else sum (read_all w.inputs m)

abbrev store_at : Buffer → ℕ → (ℕ → ℕ) → ℕ → ℕ
store_at none v m y = m y
store_at (some x) v m y = if x == y then v else m y

-- a leaf's value is its id
abbrev sum_cb : WorkItem → (ℕ → ℕ) → ℕ → ℕ
sum_cb w m = store_at w.buf (value_of w m) m

store_at-other : (b : Buffer) (x y v : ℕ) (m : ℕ → ℕ) → b ≡ some x → x ≢ y → store_at b v m y ≡ m y
store_at-other b x y v m e ne = ap (λ c. store_at c v m y) e ∙ if_off _ _ (==_false x y ne)

sum-Hashes : Hashes 6 2 sum (λ j. node_id 6 1 j) sum_cb
unfolding leaf inner
sum-Hashes = record {
  leaf_at = λ j x m. if_on _ _ (==_true x x refl);
  inner_at = λ l j x xs m. if_on _ _ (==_true x x refl) ∙ ap sum (read_all-map xs m);
  elsewhere = λ w x y m e ne. store_at-other w.buf x y (value_of w m) m e ne;
}

run-root_example :
    (s : Scheduler (ℕ → ℕ)) × (run_loop 6 2 sum_cb 9 (create 6 2 (2 ^ 2) 2 no_buffers (λ y. 0))
      ≡ some s)
    × (x : ℕ) × (result 6 2 s ≡ some x)
    × (s.memory x ≡ root 6 2 sum (λ j. node_id 6 1 j) 2 0)
    × (is_done 6 2 s ≡ true)
    × ((y : ℕ) → Live no_buffers y → Live s.bufs y × (s.memory y ≡ 0))
unfolding steps Stacked no_buffers
run-root_example =
    run-root 6 2 sum (λ j. node_id 6 1 j) sum_cb sum-Hashes two-IsArity 2 9 no_buffers (λ y. 0)
      (omega arith) (omega arith) (omega arith) (omega arith) tt

run-peak_example :
    (s : Scheduler (List ℕ)) × (run_loop 6 2 log_cb 9 (create 6 2 (2 ^ 2) 2 no_buffers []) ≡ some s)
    × ((s.bufs).num_buffers ≡ 1 + length (s.bufs).buffers)
    × ((s.bufs).num_buffers ≤ 1 * 2 + 2)
unfolding steps
run-peak_example =
    run-peak 6 2 log_cb two-IsArity 2 9 [] (omega arith) (omega arith) (omega arith) (omega arith)
