-- ===== src/Pc1/TreeD/Build.antt =====
-- `BuildTree` of pc1/tree_d.hpp writes every row of the tree above the data.
use native.Mathlib.Nat.{pow-suc, one-le-pow, pow-le-pow_right}
use supra_seal.Prelude.{
  ℕ, zero, suc, ◌+◌, ◌*◌, ◌^◌, ◌≤◌, ◌<◌, ◌≡◌, inl, inr, refl, sym, ◌∙◌, ap, arith, some, true,
  false, List, length, get_elem?, size_mod, ltb, lt→ltb, if_on, bind_some, take, drop, replicate,
  ◌++◌, [], ◌∷◌, le→leb, sub64, length-append, length-take, length-drop, length-replicate,
}
use supra_seal.Commit.Output.{Node}
use supra_seal.Commit.TreeProof.{log2, shift}
use supra_seal.Commit.TreeProof.Levels.{log2-pow}
use supra_seal.Pc1.Rows.{input, output, start, Memory, Ptr, plus}
use supra_seal.Pc1.Rows.Spec.{Row, above, levels_above, Stored, StoredAbove, above_count}
use supra_seal.Pc1.Rows.Cell.{get_elem?-some}
use supra_seal.Pc1.Rows.Row.{Apart}
use supra_seal.Pc1.Rows.Level.{RowAt, Kept, Kept-none, Kept-trans, RowAt-Kept, row_up, Stored-cons}
use supra_seal.Pc1.TreeD.{files, zero_node, copy_data, levels_loop, build_tree}

pub half_row : (n : ℕ) → shift (2 ^ suc n) (log2 2) ≡ 2 ^ n
unfolding shift
half_row n = rw (log2-pow 1 (omega arith)) (omega (arith, pow-suc 2 n))

module _ (hash : List Node → Node) where
  pub levels_loop-Stored :
      (n fuel : ℕ) (src dst : Ptr) (m : Memory) (row : Row)
      → n < fuel
      → 2 ^ n < size_mod
      → RowAt m src row (2 ^ n)
      → Apart src dst (2 ^ n)
      → dst.index + above_count 2 n ≤ length (m dst.region)
      → (m' : Memory) × (root : Node) × (levels_loop hash fuel (2 ^ n) src dst m ≡ some (m', root))
        × (levels_above hash 2 n row 0 ≡ some root)
        × Kept m m' dst (above_count 2 n)
        × StoredAbove hash 2 (get_elem? (m' dst.region)) row dst.index n
  unfolding levels_loop
  levels_loop-Stored n zero src dst m row hf small at apart hd = absurd (omega arith)
  levels_loop-Stored zero (suc fuel) src dst m row hf small at apart hd =
      let (v, e) = get_elem?-some (m src.region) src.index (omega (arith, at.fits)) in
      let first : get_elem? (m src.region) src.index ≡ row 0 =
        ap (get_elem? (m src.region)) (omega arith) ∙ at.cells 0 (omega arith) in
      (m, v, bind_some _ v _ e, sym first ∙ e, Kept-none m dst, tt)
  levels_loop-Stored (suc n) (suc fuel) src dst m row hf small at apart hd =
      let two : 2 ^ suc n ≡ 2 ^ n * 2 = pow-suc 2 n in
      let pos : 1 ≤ 2 ^ n = one-le-pow n 2 (omega arith) in
      let go : ltb 1 (2 ^ suc n) ≡ true = lt→ltb 1 (2 ^ suc n) (omega arith) in
      let (m1, e1, at1, k1) =
        row_up hash 2 (omega arith) n (2 ^ suc n) (2 ^ suc n) src dst m row (omega arith) refl small
          at apart (omega arith) in
      let (m2, root, e2, top, k2, up) =
        levels_loop-Stored n fuel dst (plus dst (2 ^ n)) m1 (above hash 2 row) (omega arith)
          (omega arith) at1 (inr (inl (omega arith))) (omega (arith, k1.lengths dst.region)) in
      let at2 =
        RowAt-Kept dst (plus dst (2 ^ n)) (2 ^ n) (above_count 2 n) at1 k2 (inr (omega arith)) in
      (
        m2,
        root,
        if_on _ _ go
            ∙ bind_some _ (m1, plus dst (2 ^ n)) _ e1
            ∙ ap (λ c. levels_loop hash fuel c dst (plus dst (2 ^ n)) m1) (half_row n)
            ∙ e2,
        top,
        Kept-trans dst (2 ^ n) (above_count 2 n) k1 k2,
        Stored-cons hash 2 (omega arith) _ _ dst.index n at2.cells up,
      )

pub above_two : (n : ℕ) → above_count 2 n + 1 ≡ 2 ^ n
above_two zero = omega arith
above_two (suc n) = omega (arith, pow-suc 2 n, above_two n)

get_elem?-take :
    (n i : ℕ) (xs ys : List Node)
    → i < n
    → n ≤ length xs
    → get_elem? (take n xs ++ ys) i ≡ get_elem? xs i
get_elem?-take zero i xs ys h k = absurd (omega arith)
get_elem?-take (suc n) i [] ys h k = absurd (omega arith)
get_elem?-take (suc n) zero (x ∷ xs) ys h k = refl
get_elem?-take (suc n) (suc i) (x ∷ xs) ys h k =
    get_elem?-take n i xs ys (omega arith) (omega arith)

-- The data at the start of the file of the tree.
copy_data-RowAt :
    (n size : ℕ) (contents : List Node)
    → n ≤ length contents
    → n ≤ size
    → (m : Memory) × (copy_data n (files contents size) ≡ some m)
      × RowAt m (start output) (get_elem? contents) n
      × (length (m output) ≡ size)
unfolding copy_data
copy_data-RowAt n size contents hc hs =
    let file : length (replicate size zero_node) ≡ size = length-replicate size zero_node in
    let len : length (take n contents ++ drop n (replicate size zero_node)) ≡ size = omega (
      arith,
      length-append (take n contents) (drop n (replicate size zero_node)),
      length-take n contents,
      length-drop n (replicate size zero_node),
      file,
    ) in
    (
      _,
      if_on _ _ (le→leb n _ hc) ∙ if_on _ _ (le→leb n _ (omega (arith, file))),
      record {
        fits = omega (arith, len);
        cells = λ i h.
            ap (get_elem? (take n contents ++ drop n (replicate size zero_node))) (omega arith)
            ∙ get_elem?-take n i contents _ h hc;
      },
      len,
    )

module _ (hash : List Node → Node) (n : ℕ) (contents : List Node) (small : n < 64)
    (enough : 2 ^ n ≤ length contents) where
  word : 2 ^ n < size_mod
  word =
      let q = pow-le-pow_right {n = 2} (omega arith) {i = n} {j = 63} (omega arith) in omega arith

  one : sub64 (2 ^ n) 1 + 1 ≡ 2 ^ n
  one = omega (arith, word, one-le-pow n 2 (omega arith))

  -- with a copy of the data
  pub copied-Stored :
      (tree : List Node) × (root : Node) × (build_tree hash contents (2 ^ n) true
        ≡ some (tree, root))
      × (length tree + 1 ≡ 2 ^ suc n)
      × (levels_above hash 2 n (get_elem? contents) 0 ≡ some root)
      × Stored hash 2 (get_elem? tree) (get_elem? contents) 0 n
  unfolding build_tree
  copied-Stored =
      let size : ℕ = sub64 (2 ^ n) 1 + 2 ^ n in
      let dst : Ptr = plus (start output) (2 ^ n) in
      let (m, e, at, len) = copy_data-RowAt (2 ^ n) size contents enough (omega arith) in
      let (m', root, e', top, k, up) =
        levels_loop-Stored hash n 65 (start output) dst m (get_elem? contents) (omega arith) word at
          (inr (inl (omega arith))) (omega (arith, len, one, above_two n)) in
      let at' = RowAt-Kept (start output) dst (2 ^ n) (above_count 2 n) at k (inr (omega arith)) in
      (
        m' output,
        root,
        bind_some _ (m', root) _ (bind_some _ m _ e ∙ e'),
        omega (arith, k.lengths output, len, one, pow-suc 2 n),
        top,
        Stored-cons hash 2 (omega arith) _ _ 0 n at'.cells up,
      )

  -- without
  pub fresh-Stored :
      (tree : List Node) × (root : Node) × (build_tree hash contents (2 ^ n) false
        ≡ some (tree, root))
      × (length tree + 1 ≡ 2 ^ n)
      × (levels_above hash 2 n (get_elem? contents) 0 ≡ some root)
      × StoredAbove hash 2 (get_elem? tree) (get_elem? contents) 0 n
  unfolding build_tree
  fresh-Stored =
      let size : ℕ = sub64 (2 ^ n) 1 in
      let m : Memory = files contents size in
      let at : RowAt m (start input) (get_elem? contents) (2 ^ n) = record {
        fits = omega arith;
        cells = λ i h. ap (get_elem? contents) (omega arith);
      } in
      let len : length (m output) ≡ size = length-replicate size zero_node in
      let (m', root, e', top, k, up) =
        levels_loop-Stored hash n 65 (start input) (start output) m (get_elem? contents)
          (omega arith) word at (inl cc) (omega (arith, len, one, above_two n)) in
      (
        m' output,
        root,
        bind_some _ (m', root) _ e',
        omega (arith, k.lengths output, len, one),
        top,
        up,
      )
