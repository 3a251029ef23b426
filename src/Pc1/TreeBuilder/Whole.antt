-- ===== src/Pc1/TreeBuilder/Whole.antt =====
-- `BuildTree` of pc1/tree_builder.hpp on a whole array of leaves or of columns, and `size`.
use native.Mathlib.Nat.{pow-succ', one-le-pow, mul-mod_right, mul-le-mul_right, mul-div_cancel_left}
use supra_seal.Prelude.{
  ℕ, zero, suc, ◌+◌, ◌*◌, ◌/◌, ◌%◌, ◌^◌, ◌≤◌, ◌<◌, ◌≡◌, inl, inr, refl, sym, subst, ◌∙◌, ap, arith,
  none, Option, some, true, false, Bool, List, length, get_elem?, size_mod, bind_some, ◌==◌,
  ==_true, if◌then◌else◌, ◌>>=◌, not,
}
use supra_seal.Commit.Output.{Node}
use supra_seal.Commit.TreeProof.Tree.{parent}
use supra_seal.Pc1.Rows.{input, output, start, Memory, plus, hash_row}
use supra_seal.Pc1.Rows.Spec.{Row, above, levels_above, Stored, above_count}
use supra_seal.Pc1.Rows.Cell.{from_ext}
use supra_seal.Pc1.Rows.Row.{hash_row-Done, child-lt}
use supra_seal.Pc1.Rows.Level.{RowAt, Stored-cons}
use supra_seal.Pc1.TreeBuilder.{TreeBuilder, minus_one, build_rows, build_tree}
use supra_seal.Pc1.TreeBuilder.Built.{Built}
use supra_seal.Pc1.TreeBuilder.Build.{build_rows-all, build_rows-one, build_rows-two}

pub divides : (a n : ℕ) → 0 < a → (a ^ suc n % a == 0) ≡ true
divides a n h = ==_true _ 0 (ap (λ x. x % a) (pow-succ' a n) ∙ mul-mod_right a (a ^ n))

module _ (col_hash hash : List Node → Node) (allocate : ℕ → List Node)
    (allocated : (n : ℕ) → length (allocate n) ≡ n) (b : TreeBuilder) (wide : 1 < b.arity) where
  rows_by_discards :
      (d k count : ℕ) (m : Memory) (row : Row)
      → d ≤ 2
      → d + suc k < 64
      → count ≡ b.arity ^ (d + suc k)
      → count < size_mod
      → RowAt m (start input) row count
      → above_count b.arity (suc k) ≤ length (m output)
      → Built hash b.arity m (start output) row d (suc k) (
          build_rows col_hash hash allocate b count count d
            (start output)
            (start input)
            (start output)
            m)
  rows_by_discards zero k count m row hd h64 hc small at fits =
      let e : count ≡ b.arity ^ suc k = hc ∙ ap (λ n. b.arity ^ n) (omega arith) in
      subst
        (λ c. Built hash b.arity m (start output) row 0 (suc k) (
          build_rows col_hash hash allocate b count c 0 (start output) (start input) (start output)
            m))
        (sym e)
        (build_rows-all col_hash hash allocate allocated b wide count (suc k) 0 (start output)
          (start input) (start output) m row (omega arith) (omega arith) (inl refl)
          (omega (arith, e)) (subst (RowAt m (start input) row) e at) (inl cc) (omega arith))
  rows_by_discards (suc zero) k count m row hd h64 hc small at fits =
      build_rows-one col_hash hash allocate allocated b wide count k (start output) (start input)
        (start output) m row (omega arith) (hc ∙ ap (λ n. b.arity ^ n) (omega arith)) small (cc)
        (cc) at (omega arith)
  rows_by_discards (suc (suc zero)) k count m row hd h64 hc small at fits =
      build_rows-two col_hash hash allocate allocated b wide count k (start output) (start input)
        (start output) m row (omega arith) (hc ∙ ap (λ n. b.arity ^ n) (omega arith)) small (cc)
        (cc) at (omega arith)
  rows_by_discards (suc (suc (suc d))) k count m row hd h64 hc small at fits = absurd (omega arith)

  -- Leaves: the rows but the discarded ones are stored, and the root is returned.
  pub build_tree-Built :
      (k count : ℕ) (m : Memory) (row : Row)
      → b.discard_rows ≤ 2
      → b.discard_rows + suc k < 64
      → count ≡ b.arity ^ (b.discard_rows + suc k)
      → count < size_mod
      → RowAt m (start input) row count
      → above_count b.arity (suc k) ≤ length (m output)
      → Built hash b.arity m
          (start output)
          row
          b.discard_rows
          (suc k)
          (build_tree col_hash hash allocate b count (start output) (start input) false false m)
  unfolding build_tree
  build_tree-Built k count m row hd h64 hc small at fits =
      let e : count ≡ b.arity ^ suc (b.discard_rows + k) =
        hc ∙ ap (λ n. b.arity ^ n) (omega arith) in
      let even : (count % b.arity == 0) ≡ true =
        ap (λ c. c % b.arity == 0) e ∙ divides b.arity (b.discard_rows + k) (omega arith) in
      subst
        (λ (t : Bool). Built hash b.arity m (start output) row b.discard_rows (suc k) (
          if not t
          then none
          else build_rows col_hash hash allocate b count count b.discard_rows (start output)
              (start input) (start output) m))
        (sym even) (rows_by_discards b.discard_rows k count m row hd h64 hc small at fits)

  -- the row of the columns' hashes
  columns-RowAt :
      (n count : ℕ) (m : Memory) (row : Row)
      → 1 < b.col_arity
      → count ≡ b.col_arity * b.arity ^ n
      → count < size_mod
      → RowAt m (start input) row count
      → b.arity ^ n ≤ length (m output)
      → (m' : Memory) × (hash_row col_hash b.col_arity count count (start input) (start output) m
          ≡ some (m', plus (start output) (b.arity ^ n)))
        × RowAt m' (start output) (above col_hash b.col_arity row) (b.arity ^ n)
        × (length (m' output) ≡ length (m output))
        × (b.arity ^ n < count)
  columns-RowAt n count m row two hc small at fits =
      let a : ℕ = b.arity in
      let ca : ℕ = b.col_arity in
      let one : 1 ≤ a ^ n = one-le-pow n a (omega arith) in
      let more : a ^ n < count = omega (arith, hc, mul-le-mul_right {m = 2} {n = ca} (a ^ n) two) in
      let (m1, e1, done) =
        hash_row-Done col_hash ca (omega arith) (a ^ n) count count (start input) (start output) m
          more hc small (inl cc) (omega (arith, at.fits)) (omega arith) in
      (
        m1,
        e1,
        record {
          fits = omega (arith, done.lengths output);
          cells = λ i h.
              done.row i h
              ∙ ap (parent col_hash) (
                  from_ext _ _ 0 0 ca
                    (λ x q. at.cells _ (omega (arith, hc, child-lt ca (a ^ n) i x h q))));
        },
        done.lengths output,
        more,
      )

  -- Columns: all rows are stored, from the columns' hashes on, and the root is returned.
  pub build_tree-columns :
      (k count : ℕ) (no_discard : Bool) (m : Memory) (row : Row)
      → 1 < b.col_arity
      → suc k < 64
      → count ≡ b.col_arity * b.arity ^ suc k
      → count < size_mod
      → RowAt m (start input) row count
      → b.arity ^ suc k + above_count b.arity (suc k) ≤ length (m output)
      → (m' : Memory) × (root : Node) × (build_tree col_hash hash allocate b count
            (start output)
            (start input)
            true
            no_discard
            m
          ≡ some (m', root))
        × (levels_above hash b.arity (suc k) (above col_hash b.col_arity row) 0 ≡ some root)
        × Stored hash b.arity (get_elem? (m' output)) (above col_hash b.col_arity row) 0 (suc k)
        × (length (m' output) ≡ length (m output))
  unfolding build_tree
  build_tree-columns k count no_discard m row two h64 hc small at fits =
      let (m1, e1, at1, len1, more) =
        columns-RowAt (suc k) count m row two hc small at (omega arith) in
      rest m1 e1 at1 len1 more
    where
      rest :
          (m1 : Memory)
          → hash_row col_hash b.col_arity count count (start input) (start output) m
            ≡ some (m1, plus (start output) (b.arity ^ suc k))
          → RowAt m1 (start output) (above col_hash b.col_arity row) (b.arity ^ suc k)
          → length (m1 output) ≡ length (m output)
          → b.arity ^ suc k < count
          → (m' : Memory) × (root : Node) × (build_tree col_hash hash allocate b count
                (start output)
                (start input)
                true
                no_discard
                m
              ≡ some (m', root))
            × (levels_above hash b.arity (suc k) (above col_hash b.col_arity row) 0 ≡ some root)
            × Stored hash b.arity (get_elem? (m' output)) (above col_hash b.col_arity row) 0 (suc k)
            × (length (m' output) ≡ length (m output))
      rest m1 e1 at1 len1 more =
          let a : ℕ = b.arity in
          let ca : ℕ = b.col_arity in
          let n : ℕ = suc k in
          let cols : ℕ → Option (Memory × Node) = λ cur.
            hash_row col_hash ca count count (start input) (start output) m >>= λ r.
            build_rows col_hash hash allocate b count cur minus_one (start output) (start output)
              (r.1) (r.0) in
          let whole : (count % ca == 0) ≡ true =
            ==_true _ 0 (ap (λ c. c % ca) hc ∙ mul-mod_right ca (a ^ n)) in
          let rows : count / ca ≡ a ^ n =
            ap (λ c. c / ca) hc ∙ mul-div_cancel_left (a ^ n) (omega arith) in
          let even : (count / ca % a == 0) ≡ true =
            ap (λ c. c % a == 0) rows ∙ divides a k (omega arith) in
          let r =
            build_rows-all col_hash hash allocate allocated b wide count n minus_one (start output)
              (start output) (plus (start output) (a ^ n)) m1 (above col_hash ca row) (omega arith)
              h64 (inr refl) (omega arith) at1 (inr (inl (omega arith))) (omega (arith, len1)) in
          (
            r.after,
            r.root,
            ap
                  (λ (t : Bool).
                    if not t
                    then none
                    else if not (count / ca % a == 0)
                    then none
                    else cols (count / ca))
                  whole
                ∙ ap (λ (t : Bool). if not t then none else cols (count / ca)) even
                ∙ ap cols rows
                ∙ bind_some _ (m1, plus (start output) (a ^ n)) _ e1
                ∙ r.runs,
            r.top,
            Stored-cons hash a (omega arith) _ _ 0 n
                (λ i h. r.below (0 + i) (omega arith) ∙ at1.cells i h) r.stored,
            r.same_size ∙ len1,
          )
