-- ===== src/Pc1/TreeBuilder/Built.antt =====
-- How `BuildTree` of pc1/tree_builder.hpp ends: it returns the node before the end of the rows.
use native.Mathlib.Nat.{one-le-pow}
use supra_seal.Prelude.{
  ℕ, suc, ◌+◌, ◌-◌, ◌^◌, ◌≤◌, ◌<◌, ◌≡◌, ◌≢◌, refl, sym, ◌∙◌, ap, arith, Option, some, List, length,
  get_elem?, if_off, bind_some, ==_false, ◌>>=◌,
}
use supra_seal.Commit.Output.{Node}
use supra_seal.Pc1.Rows.{Region, input, output, scratch, Memory, Ptr, plus}
use supra_seal.Pc1.Rows.Spec.{Row, above, levels_above, StoredAbove, above_count}
use supra_seal.Pc1.Rows.Cell.{get_elem?-some}
use supra_seal.Pc1.Rows.Level.{RowAt}
use supra_seal.Pc1.Rows.Tree.{Stored-last}
use supra_seal.Pc1.TreeBuilder.{with_scratch, read_before}

-- The node before the end of the rows is the root.
read_root :
    (hash : List Node → Node) (a n : ℕ) (m : Memory) (p : Ptr) (row : Row)
    → 0 < a
    → StoredAbove hash a (get_elem? (m p.region)) row p.index (suc n)
    → p.index + above_count a (suc n) ≤ length (m p.region)
    → (root : Node) × (read_before m (plus p (above_count a (suc n))) ≡ some root)
      × (levels_above hash a (suc n) row 0 ≡ some root)
unfolding read_before
read_root hash a n m p row pos s fits =
    let one : 1 ≤ a ^ n = one-le-pow n a pos in
    let k : ℕ = p.index + above_count a (suc n) - 1 in
    let (root, e) = get_elem?-some (m p.region) k (omega arith) in
    let top : get_elem? (m p.region) k ≡ levels_above hash a (suc n) row 0 =
      Stored-last hash a (get_elem? (m p.region)) (above hash a row) p.index n pos s k
        (omega arith) in
    (
      root,
      if_off _ _
            (==_false (plus p (above_count a (suc n))).index 0 (λ z. absurd (omega (arith, z))))
          ∙ e,
      sym top ∙ e,
    )

pub with_scratch-other :
    (nodes : List Node) (m : Memory) (r : Region) → r ≢ scratch → with_scratch nodes m r ≡ m r
with_scratch-other nodes m input h = refl
with_scratch-other nodes m output h = refl
with_scratch-other nodes m scratch h = absurd (h refl)

pub with_scratch-RowAt :
    (nodes : List Node) (m : Memory) (p : Ptr) (row : Row) (n : ℕ)
    → p.region ≢ scratch
    → RowAt m p row n
    → RowAt (with_scratch nodes m) p row n
with_scratch-RowAt nodes m p row n h at =
    let e = with_scratch-other nodes m p.region h in
    record {
      fits = omega (arith, at.fits, ap length e);
      cells = λ i lt. ap (λ xs. get_elem? xs (p.index + i)) e ∙ at.cells i lt;
    }

-- What stands below `out` is as it was.
abbrev pub Below : Memory → Memory → Ptr → Type 0
Below m m' out = (i : ℕ) → i < out.index → get_elem? (m' out.region) i ≡ get_elem? (m out.region) i

-- What `BuildTree` has done with a row and the `d + k` rows above it: it has their root, and has stored
-- the upper `k` of them.
pub record Built (hash : List Node → Node) (a : ℕ) (m : Memory) (out : Ptr) (row : Row) (d k : ℕ)
    (result : Option (Memory × Node)) : Type 0 where
  pub after : Memory
  pub root : Node
  pub runs : result ≡ some (after, root)
  pub top : levels_above hash a k (levels_above hash a d row) 0 ≡ some root
  pub stored :
      StoredAbove hash a (get_elem? (after out.region)) (levels_above hash a d row) out.index k
  pub same_size : length (after out.region) ≡ length (m out.region)
  pub below : Below m after out

-- The end of `build_rows`, after its loop.
pub rows_end-Built :
    (hash : List Node → Node) (a : ℕ) (m m' : Memory) (dst : Ptr) (row : Row) (d k : ℕ)
    (loop : Option (Memory × Ptr))
    → 0 < a
    → loop ≡ some (m', plus dst (above_count a (suc k)))
    → StoredAbove hash a (get_elem? (m' dst.region)) (levels_above hash a d row) dst.index (suc k)
    → length (m' dst.region) ≡ length (m dst.region)
    → Below m m' dst
    → dst.index + above_count a (suc k) ≤ length (m dst.region)
    → Built hash a m dst row d
        (suc k)
        (loop >>= λ r. read_before (r.0) (r.1) >>= λ root. some (r.0, root))
rows_end-Built hash a m m' dst row d k loop pos e stored len below fits =
    let (root, r, top) =
      read_root hash a k m' dst (levels_above hash a d row) pos stored (omega (arith, len)) in
    record {
      after = m';
      root = root;
      runs = bind_some loop (m', plus dst (above_count a (suc k))) _ e ∙ bind_some _ root _ r;
      top = top;
      stored = stored;
      same_size = len;
      below = below;
    }
