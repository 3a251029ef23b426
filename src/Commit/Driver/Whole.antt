-- ===== src/Commit/Driver/Whole.antt =====
-- The file that is put together from one with the tree proofs and one with the node proofs is the file
-- that is written with both.
use mathlib.Core.List.{append_assoc}
use native.Mathlib.Nat.{suc-mul}
use supra_seal.Prelude.{
  ℕ, zero, suc, ◌+◌, ◌*◌, ◌<◌, ◌≡◌, refl, ◌∙◌, ap, arith, Option, some, none, true, false, List,
  ◌++◌, length, length-append, size_mod, bind_some, ◌==◌, ==_true, if_on, ◌>>=◌, if◌then◌else◌,
}
use supra_seal.Commit.Output.{Node, Output, le_bytes, node_bytes, emit, emit_node}
use supra_seal.Commit.Output.Laws.{emit-append}
use supra_seal.Commit.Driver.{
  C1, write_tail, new_file, put_count, combine_partitions, combine_tail, combine,
}
use supra_seal.Commit.Driver.Pieces.{gather, At-start, At-skip}
use supra_seal.Commit.Driver.Written.{index_lem, part, piece_at, file_bytes}
use supra_seal.Commit.Driver.Combine.{Reached, combine_partitions_lem, combine_tail_lem}

pub length-gather :
    (piece : ℕ → List ℕ) (size : ℕ) (n j : ℕ)
    → ((i : ℕ) → length (piece i) ≡ size)
    → length (gather piece n j) ≡ n * size
unfolding gather
length-gather piece size zero j h = omega arith
length-gather piece size (suc n) j h = omega (
  arith,
  length-append (piece j) (gather piece n (suc j)),
  h j,
  length-gather piece size n (suc j) h,
  suc-mul n size,
)

emit-three :
    (xs ys zs : List ℕ) (o : Output) → emit zs (emit ys (emit xs o)) ≡ emit (xs ++ (ys ++ zs)) o
emit-three xs ys zs o =
    ap (emit zs) (emit-append xs ys o)
    ∙ emit-append (xs ++ ys) zs o
    ∙ ap (λ b. emit b o) (append_assoc xs ys zs)

-- the trailers
abbrev pub tree_tail : C1 → Node → List ℕ
tree_tail s d = node_bytes s.comm_r ++ node_bytes d

abbrev pub node_tail : C1 → List ℕ
node_tail s = node_bytes s.replica_id ++ (node_bytes s.seed ++ node_bytes s.ticket)

abbrev pub whole_tail : C1 → Node → List ℕ
whole_tail s d = node_bytes s.comm_r ++ (node_bytes d ++ node_tail s)

pub tail-tree :
    (s : C1) (d : Node) (o : Output)
    → s.comm_d ≡ some d
    → write_tail true false s o ≡ some (emit (tree_tail s d) o)
unfolding write_tail emit_node
tail-tree s d o e =
    ap (λ x. elim (emit_node x (emit (node_bytes s.comm_r) o)) [ none ↦ none | some u ↦ some u ]) e
    ∙ ap some (emit-append (node_bytes s.comm_r) (node_bytes d) o)

pub tail-node : (s : C1) (o : Output) → write_tail false true s o ≡ some (emit (node_tail s) o)
unfolding write_tail
tail-node s o =
    ap some (emit-three (node_bytes s.replica_id) (node_bytes s.seed) (node_bytes s.ticket) o)

pub tail-both :
    (s : C1) (d : Node) (o : Output)
    → s.comm_d ≡ some d
    → write_tail true true s o ≡ some (emit (whole_tail s d) o)
unfolding write_tail emit_node
tail-both s d o e =
    ap
      (λ x. elim (emit_node x (emit (node_bytes s.comm_r) o)) [
        | none ↦ none
        | some u ↦ some (
            emit (node_bytes s.ticket)
              (emit (node_bytes s.seed) (emit (node_bytes s.replica_id) u)))
      ])
      e
    ∙ ap some (
        emit-three (node_bytes s.replica_id) (node_bytes s.seed) (node_bytes s.ticket)
          (emit (node_bytes d) (emit (node_bytes s.comm_r) o))
        ∙ emit-three (node_bytes s.comm_r) (node_bytes d) (node_tail s) o)

module _ (s : C1) (partitions : ℕ) where
  pub length-file_bytes :
      (piece : ℕ → List ℕ) (size : ℕ) (tail : List ℕ)
      → ((c : ℕ) → length (piece c) ≡ size)
      → length (file_bytes s partitions piece tail)
        ≡ 8 + partitions * (8 + s.challenges_count * size) + length tail
  unfolding file_bytes part
  length-file_bytes piece size tail h =
      let one : (i : ℕ) → length (part s piece i) ≡ 8 + s.challenges_count * size = λ i.
        omega (arith, length-gather (piece_at s piece i) size s.challenges_count 0 (λ j. h _)) in
      omega (
        arith,
        length-append (gather (part s piece) partitions 0) tail,
        length-gather (part s piece) (8 + s.challenges_count * size) partitions 0 one,
      )

  module _ (tree node : ℕ → List ℕ) (ts ns : ℕ) (tree_size : (c : ℕ) → length (tree c) ≡ ts)
      (node_size : (c : ℕ) → length (node c) ≡ ns) (d : Node) where
    abbrev pub tree_file : List ℕ
    tree_file = file_bytes s partitions tree (tree_tail s d)

    abbrev pub node_file : List ℕ
    node_file = file_bytes s partitions node (node_tail s)

    abbrev pub both_file : List ℕ
    both_file = file_bytes s partitions (λ c. tree c ++ node c) (whole_tail s d)

    pub combine_lem :
        (expected exp_tree : ℕ)
        → length both_file ≡ expected
        → length tree_file ≡ exp_tree
        → expected < size_mod
        → combine partitions s.challenges_count ts ns expected exp_tree tree_file node_file
          ≡ some (emit both_file (new_file expected))
    unfolding combine put_count file_bytes
    combine_lem expected exp_tree eb et small =
        let m : ℕ = s.challenges_count in
        let head : List ℕ = le_bytes 8 partitions in
        let o : Output = new_file expected in
        let gt : List ℕ = gather (part s tree) partitions 0 in
        let gn : List ℕ = gather (part s node) partitions 0 in
        let gb : List ℕ = gather (part s (λ c. tree c ++ node c)) partitions 0 in
        let a : Reached s tree node ts ns tree_file node_file tree_size node_size 8 8
            (gt ++ tree_tail s d) (gn ++ node_tail s) =
          record {
            tree_at = At-skip tree_file 0 8 head (gt ++ tree_tail s d) refl (At-start tree_file);
            node_at = At-skip node_file 0 8 head (gn ++ node_tail s) refl (At-start node_file);
          } in
        let loop =
          combine_partitions_lem s tree node ts ns tree_file node_file tree_size node_size
            partitions 0 8 8 (tree_tail s d) (node_tail s) head o a in
        let tail =
          combine_tail_lem s tree node ts ns tree_file node_file tree_size node_size (loop.0)
            (loop.1) (node_bytes s.comm_r) (node_bytes d) (node_bytes s.replica_id)
            (node_bytes s.seed) (node_bytes s.ticket) (head ++ gb) o refl refl refl refl refl
            (loop.3) in
        let checked : Output × ℕ × ℕ → Option Output = λ ds.
          if (ds.0).buf_index == expected
          then (if ds.1 == exp_tree
              then (if ds.2 == length node_file then some (ds.0) else none)
              else none)
          else none in
        bind_some (combine_partitions tree_file node_file ts ns m partitions (emit head o, 8, 8))
          (emit (head ++ gb) o, loop.0, loop.1)
          (λ cs. combine_tail tree_file node_file cs >>= checked) (loop.2)
        ∙ bind_some (combine_tail tree_file node_file (emit (head ++ gb) o, loop.0, loop.1)) _
            checked tail
        ∙ ap (λ b. checked (emit b o, length tree_file, length node_file))
            (append_assoc head gb (whole_tail s d))
        ∙ if_on _ _ (==_true _ expected (index_lem both_file expected eb small))
        ∙ if_on _ _ (==_true _ exp_tree et)
        ∙ if_on _ _ (==_true (length node_file) (length node_file) refl)
