-- ===== src/Pc1/TreeBuilder.antt =====
-- `TreeBuilder` of pc1/tree_builder.hpp, with one thread. Poseidon is a parameter, a function of a column of
-- `col_arity` nodes and one of `arity` nodes, and so is what `new` finds in the memory that it
-- allocates. An `int` is its 32-bit word. A failed assertion, an access outside an array, and a loop
-- that does not end on its fuel are `none`.
pub mod Loop
pub mod Built
pub mod Build
pub mod Whole
pub mod Size
pub mod Around
pub mod Proof
use supra_seal.Prelude.{
  ℕ, zero, suc, ◌+◌, ◌-◌, ◌*◌, ◌/◌, ◌%◌, Bool, true, false, ◌||◌, Option, none, some, List, add64,
  sub64, sub32, ltb, leb, not, ◌^◌, ◌&&◌, ◌==◌, if◌then◌else◌, ◌>>=◌,
}
use supra_seal.Commit.Output.{Node}
use supra_seal.Pc1.Rows.{Region, input, output, scratch, Memory, Ptr, start, read, hash_row}

pub record TreeBuilder : Type 0 where
  pub col_arity : ℕ
  pub arity : ℕ
  pub discard_rows : ℕ

abbrev pub int_max : ℕ
int_max = 2 ^ 31 - 1

abbrev pub minus_one : ℕ
minus_one = 2 ^ 32 - 1

-- the loop of `size`
unfoldable pub size_loop : ℕ → ℕ → ℕ → ℕ → ℕ → Option ℕ
size_loop arity zero cur_count discards total = none
size_loop arity (suc fuel) cur_count discards total =
    let next : Option ℕ =
      size_loop arity fuel (cur_count / arity)
        (if ltb 0 discards then sub64 discards 1 else discards)
        (if ltb 0 discards then total else add64 total (cur_count / arity)) in
    if ltb 1 cur_count then next else some total

unfoldable pub size : TreeBuilder → ℕ → Bool → Bool → Option ℕ
unfolding size_loop
size b count cols no_discard =
    if count % b.arity == 0
    then size_loop b.arity 65 (if cols then count / b.col_arity else count)
        (if cols || no_discard then 0 else b.discard_rows) (if cols then count / b.col_arity else 0)
    else none

-- `new node_t[n]`
abbrev pub with_scratch : List Node → Memory → Memory
with_scratch nodes m input = m input
with_scratch nodes m output = m output
with_scratch nodes m scratch = nodes

-- `*(p - 1)`
unfoldable pub read_before : Memory → Ptr → Option Node
read_before m p =
    if p.index == 0 then none else read m (record { region = p.region; index = p.index - 1 })

-- where the next row goes
unfoldable pub next_out : ℕ → Ptr → Ptr → Ptr
next_out discards out p = if discards == 1 then start scratch else if discards == 0 then out else p

module _ (col_hash hash : List Node → Node) (allocate : ℕ → List Node) (b : TreeBuilder) where
  -- `while (cur_count > 1)`; the result is the memory and `cur_hash_out`
  unfoldable pub levels_loop : Ptr → ℕ → ℕ → ℕ → Ptr → Ptr → Memory → Option (Memory × Ptr)
  unfolding hash_row next_out
  levels_loop out zero cur_count discards cur_in cur_out m = none
  levels_loop out (suc fuel) cur_count discards cur_in cur_out m =
      let next : Option (Memory × Ptr) =
        hash_row hash b.arity cur_count cur_count cur_in cur_out m >>= λ r.
        levels_loop out fuel (cur_count / b.arity) (sub32 discards 1) cur_out
          (next_out (sub32 discards 1) out (r.1)) (r.0) in
      if ltb 1 cur_count then next else some (m, cur_out)

  -- the rows above `cur_count` nodes at `cur_in`
  unfoldable pub build_rows : ℕ → ℕ → ℕ → Ptr → Ptr → Ptr → Memory → Option (Memory × Node)
  unfolding levels_loop read_before
  build_rows count cur_count discards out cur_in cur_out m =
      let some_rows : Bool = ltb 0 discards && leb discards int_max in
      let m' : Memory = if some_rows then with_scratch (allocate (count / b.arity)) m else m in
      levels_loop out 65 cur_count discards cur_in (if some_rows then start scratch else cur_out) m'
      >>= λ r. read_before (r.0) (r.1) >>= λ root. some (r.0, root)

  unfoldable pub build_tree : ℕ → Ptr → Ptr → Bool → Bool → Memory → Option (Memory × Node)
  unfolding build_rows hash_row
  build_tree count out cur_in cols no_discard m =
      let cur_count : ℕ = if cols then count / b.col_arity else count in
      let discards : ℕ = if cols || no_discard then minus_one else b.discard_rows in
      let columns : Option (Memory × Node) =
        hash_row col_hash b.col_arity count count cur_in out m >>= λ r.
        build_rows count cur_count discards out out (r.1) (r.0) in
      let leaves : Option (Memory × Node) = build_rows count cur_count discards out cur_in out m in
      if cols && not (count % b.col_arity == 0)
      then none
      else if not (cur_count % b.arity == 0)
      then none
      else if cols
      then columns
      else leaves
