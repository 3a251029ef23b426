-- ===== src/Commit/TreeProof/First/Climb.antt =====
-- The first levels lead from the leaf to the node that the discarded rows stood below.
use native.Mathlib.Nat.{mod-lt, one-le-pow, mod-eq_of_lt, div-eq_of_lt, pow-suc, pow-zero}
use supra_seal.Prelude.{
  ℕ, ◌+◌, ◌*◌, ◌/◌, ◌%◌, ◌^◌, ◌<◌, ◌≡◌, refl, sym, ◌∙◌, ap, arith, List, [], ◌∷◌, ◌++◌, some,
  length, get_elem?, get_or, size_mod, sub64, ◌==◌, if◌then◌else◌, ==_true, ==_false, if_on, if_off,
}
use supra_seal.Commit.Output.{Node}
use supra_seal.Commit.TreeProof.{TreeProof, get_tree_paths, gen_from, log2}
use supra_seal.Commit.TreeProof.Tree.{from, parent, climb}
use supra_seal.Commit.TreeProof.Others.{element, siblings}
use supra_seal.Commit.TreeProof.Levels.{index-bound, pow-pow}
use supra_seal.Commit.TreeProof.First.{hash_two, perform_first_levels, gen_path}
use supra_seal.Commit.TreeProof.First.Steps.{third_level_lem, climb-three}
use supra_seal.Commit.TreeProof.First.Places.{
  Discarded, place, bounds, place-zero, index_lem, indices_lem, same_mod, arity_pos, up, low_path,
  perform_lem, climb_low,
}

pow_one : (x : ℕ) → x ^ 1 ≡ x
pow_one x = pow-suc x 0 ∙ ap (λ (y : ℕ). y * x) (pow-zero x) ∙ omega arith

module _ (hash : List Node → Node) (t : TreeProof) (fl : List Node) (k c : ℕ) where
  -- Where one row of a tree of two levels was discarded, for any 64-bit challenge and the leaves
  -- around it: `GenInclusionPath` keeps the root, takes the challenge's leaf, and its path hashes
  -- up from there to the hash of the hashes of all the leaves.
  pub climb-two_levels :
      Discarded t k 2
      → c < size_mod
      → t.levels ≡ 2
      → let u = gen_path hash c (some fl) t in
        (u.root ≡ t.root)
        × (u.leaf ≡ get_elem? fl (c % t.arity ^ 2))
        × (climb hash u.path u.leaf ≡ hash_two hash t.arity fl 0)
  unfolding gen_path hash_two
  climb-two_levels d h two =
      let u : TreeProof = record t {
        leaf = get_elem? fl (place t k 2 c d h 0);
        path = low_path t k 2 c d h hash fl;
      } in
      let more =
        gen_from c 3 (2 ^ (sub64 t.levels (t.discard_rows + 1) * log2 t.arity) / t.tree_bufs_len)
          (get_tree_paths t c) in
      let run : gen_path hash c (some fl) t ≡ u =
        ap (λ r. if r.0 then r.1 else more (r.1))
          (perform_lem t k 2 c d h hash fl ∙ if_on _ _ (==_true t.levels 2 two)) in
      let leaf_place : place t k 2 c d h 0 ≡ c % t.arity ^ 2 =
        place-zero t k 2 c d h
        ∙ ap (λ (m : ℕ). c % m) (sym (ap (λ (a : ℕ). a ^ 2) d.arity_pow ∙ pow-pow k 2)) in
      let none_over : place t k 2 c d h 2 ≡ 0 =
        div-eq_of_lt (mod-lt c (one-le-pow (2 * k) 2 (omega arith))) in
      (
        ap (λ v. v.root) run,
        ap (λ v. v.leaf) run ∙ ap (get_elem? fl) leaf_place,
        ap (λ v. climb hash v.path v.leaf) run
            ∙ climb_low t k 2 c d h hash fl
            ∙ ap (λ p. hash_two hash t.arity fl p) none_over,
      )

  top_bound : (d : Discarded t k 3) (h : c < size_mod) → place t k 3 c d h 2 < t.arity
  top_bound d h = omega (arith, index-bound k 1 2 c, pow_one (2 ^ k), d.arity_pow)

  -- the proof after three levels
  abbrev pub three_levels : Discarded t k 3 → c < size_mod → TreeProof
  three_levels d h = record t {
    leaf = get_elem? fl (place t k 3 c d h 0);
    path =
        low_path t k 3 c d h hash fl
        ++ (element t.arity (place t k 3 c d h 2)
              (siblings (hash_two hash t.arity fl) (place t k 3 c d h 2) t.arity)
            ∷ []);
  }

  pub perform-three :
      (d : Discarded t k 3) (h : c < size_mod)
      → perform_first_levels hash c fl (get_tree_paths t c) t ≡ (t.levels == 3, three_levels d h)
  perform-three d h =
      let p2 : ℕ = place t k 3 c d h 2 in
      let low : TreeProof = record t {
        leaf = get_elem? fl (place t k 3 c d h 0);
        path = low_path t k 3 c d h hash fl;
      } in
      let index : get_or (get_tree_paths t c) 2 0 ≡ p2 =
        ap (λ is. get_or is 2 0) (indices_lem t k 3 c d h)
        ∙ index_lem t k 3 c d h 2 (omega arith)
        ∙ same_mod t k 3 c d h 2
        ∙ mod-eq_of_lt (top_bound d h) in
      perform_lem t k 3 c d h hash fl
      ∙ if_off _ _ (==_false t.levels 2 (λ e. omega (arith, e, d.rows_held)))
      ∙ ap (λ u. (t.levels == 3, u))
          (third_level_lem hash t fl (get_tree_paths t c) low p2 p2 index refl (top_bound d h)
            (omega (arith, d.arity_pow, bounds t k 3 c d h)) refl)

  -- Where two rows were discarded, for any 64-bit challenge and the leaves around it:
  -- `PerformFirstLevels` keeps the root, takes the challenge's leaf, and the three elements that it
  -- adds to the path hash up from there to the hash of the hashes of the hashes of those leaves. It
  -- answers that the path is complete exactly when the tree has three levels.
  pub climb-three_levels :
      Discarded t k 3
      → c < size_mod
      → let r = perform_first_levels hash c fl (get_tree_paths t c) t in
        let u = r.1 in
        (r.0 ≡ (t.levels == 3))
        × (u.root ≡ t.root)
        × (u.leaf ≡ get_elem? fl (c % t.arity ^ 3))
        × (length u.path ≡ 3)
        × (climb hash u.path u.leaf ≡ parent hash (from (hash_two hash t.arity fl) 0 t.arity))
  climb-three_levels d h =
      let run = perform-three d h in
      let p0 : ℕ = place t k 3 c d h 0 in
      let p1 : ℕ = place t k 3 c d h 1 in
      let p2 : ℕ = place t k 3 c d h 2 in
      let leaf_place : place t k 3 c d h 0 ≡ c % t.arity ^ 3 =
        place-zero t k 3 c d h
        ∙ ap (λ (m : ℕ). c % m) (sym (ap (λ (a : ℕ). a ^ 3) d.arity_pow ∙ pow-pow k 3)) in
      (
        ap (λ r. r.0) run,
        ap (λ r. (r.1).root) run,
        ap (λ r. (r.1).leaf) run ∙ ap (get_elem? fl) leaf_place,
        ap (λ r. length (r.1).path) run,
        ap (λ r. climb hash (r.1).path (r.1).leaf) run
            ∙ ap (λ x. climb hash (three_levels d h).path (get_elem? fl x)) (sym (up t k 3 c d h 0))
            ∙ climb-three hash t fl (get_tree_paths t c) (p1 * t.arity) (p2 * t.arity * t.arity)
                (p0 % t.arity) (p1 % t.arity) p2 (mod-lt p0 (arity_pos t k 3 c d h))
                (mod-lt p1 (arity_pos t k 3 c d h)) (top_bound d h)
                (omega (arith, ap (λ (n : ℕ). n * t.arity) (up t k 3 c d h 1))) refl,
      )
