-- ===== src/Commit/Driver/Combine.antt =====
-- What is put together from a file with the tree proofs and a file with the node proofs.
use mathlib.Core.List.{append_assoc, append-nil}
use supra_seal.Prelude.{
  ℕ, zero, suc, ◌+◌, ◌*◌, ◌≡◌, refl, sym, ◌∙◌, ap, ap₂, some, none, List, [], ◌++◌, length, get_or,
  goes_on, bind_some,
}
use supra_seal.Commit.Output.{Output, le_bytes, emit}
use supra_seal.Commit.Output.Laws.{emit-append}
use supra_seal.Commit.Driver.{
  C1, copy_bytes, copy_tree, copy_node, combine_challenges, put_count, combine_partitions,
  combine_tail,
}
use supra_seal.Commit.Driver.Written.{piece_at, part}
use supra_seal.Commit.Driver.Pieces.{gather, At, At-end, At-skip, At-cast, copy_lem}

module _ (s : C1) (tree node : ℕ → List ℕ) (ts ns : ℕ) (tree_file node_file : List ℕ)
    (tree_size : (c : ℕ) → length (tree c) ≡ ts) (node_size : (c : ℕ) → length (node c) ≡ ns) where
  -- the two pieces of a challenge
  abbrev pub both : ℕ → List ℕ
  both c = tree c ++ node c

  -- where the reading of both files has come to
  pub record Reached (ti ni : ℕ) (tree_rest node_rest : List ℕ) : Type 0 where
    pub tree_at : At tree_file ti tree_rest
    pub node_at : At node_file ni node_rest

  copy_tree_lem :
      (n ti ni : ℕ) (xs tr nr pre : List ℕ) (o : Output)
      → length xs ≡ n
      → Reached ti ni (xs ++ tr) nr
      → (copy_tree tree_file node_file n (emit pre o, ti, ni)
          ≡ some (emit (pre ++ xs) o, ti + n, ni))
        × Reached (ti + n) ni tr nr
  unfolding copy_tree
  copy_tree_lem n ti ni xs tr nr pre o e a = (
    goes_on (copy_bytes tree_file ti n (emit pre o)) (emit xs (emit pre o))
          (λ u. some (u, ti + n, ni)) (copy_lem tree_file ti n xs tr (emit pre o) e a.tree_at)
        ∙ ap (λ u. some (u, ti + n, ni)) (emit-append pre xs o),
    record { tree_at = At-skip tree_file ti n xs tr e a.tree_at; node_at = a.node_at },
  )

  copy_node_lem :
      (n ti ni : ℕ) (xs tr nr pre : List ℕ) (o : Output)
      → length xs ≡ n
      → Reached ti ni tr (xs ++ nr)
      → (copy_node tree_file node_file n (emit pre o, ti, ni)
          ≡ some (emit (pre ++ xs) o, ti, ni + n))
        × Reached ti (ni + n) tr nr
  unfolding copy_node
  copy_node_lem n ti ni xs tr nr pre o e a = (
    goes_on (copy_bytes node_file ni n (emit pre o)) (emit xs (emit pre o))
          (λ u. some (u, ti, ni + n)) (copy_lem node_file ni n xs nr (emit pre o) e a.node_at)
        ∙ ap (λ u. some (u, ti, ni + n)) (emit-append pre xs o),
    record { tree_at = a.tree_at; node_at = At-skip node_file ni n xs nr e a.node_at },
  )

  combine_challenges_lem :
      (i n j ti ni : ℕ) (tr nr pre : List ℕ) (o : Output)
      → Reached ti ni (gather (piece_at s tree i) n j ++ tr) (gather (piece_at s node i) n j ++ nr)
      → (ti' : ℕ) × (ni' : ℕ) × (combine_challenges tree_file node_file ts ns n (emit pre o, ti, ni)
          ≡ some (emit (pre ++ gather (piece_at s both i) n j) o, ti', ni'))
        × Reached ti' ni' tr nr
  unfolding combine_challenges gather
  combine_challenges_lem i zero j ti ni tr nr pre o a =
      (ti, ni, ap (λ b. some (emit b o, ti, ni)) (sym (append-nil pre)), a)
  combine_challenges_lem i (suc n) j ti ni tr nr pre o a =
      let c : ℕ = get_or s.challenges (j + i * s.challenges_count) 0 in
      let gt : List ℕ = gather (piece_at s tree i) n (suc j) in
      let gn : List ℕ = gather (piece_at s node i) n (suc j) in
      let gb : List ℕ = gather (piece_at s both i) n (suc j) in
      let a1 : Reached ti ni (tree c ++ (gt ++ tr)) (node c ++ (gn ++ nr)) = record {
        tree_at = At-cast tree_file ti (append_assoc (tree c) gt tr) a.tree_at;
        node_at = At-cast node_file ni (append_assoc (node c) gn nr) a.node_at;
      } in
      let one =
        copy_tree_lem ts ti ni (tree c) (gt ++ tr) (node c ++ (gn ++ nr)) pre o (tree_size c) a1 in
      let two =
        copy_node_lem ns (ti + ts) ni (node c) (gt ++ tr) (gn ++ nr) (pre ++ tree c) o (node_size c)
          (one.1) in
      let rest =
        combine_challenges_lem i n (suc j) (ti + ts) (ni + ns) tr nr ((pre ++ tree c) ++ node c) o
          (two.1) in
      let shape : ((pre ++ tree c) ++ node c) ++ gb ≡ pre ++ (both c ++ gb) =
        ap (λ l. l ++ gb) (append_assoc pre (tree c) (node c)) ∙ append_assoc pre (both c) gb in
      (
        rest.0,
        rest.1,
        goes_on (copy_tree tree_file node_file ts (emit pre o, ti, ni))
              (emit (pre ++ tree c) o, ti + ts, ni)
              (λ ds. elim (copy_node tree_file node_file ns ds) [
                | none ↦ none
                | some es ↦ combine_challenges tree_file node_file ts ns n es
              ])
              (one.0)
            ∙ goes_on (copy_node tree_file node_file ns (emit (pre ++ tree c) o, ti + ts, ni))
                (emit ((pre ++ tree c) ++ node c) o, ti + ts, ni + ns)
                (combine_challenges tree_file node_file ts ns n) (two.0)
            ∙ rest.2
            ∙ ap (λ b. some (emit b o, rest.0, rest.1)) shape,
        rest.3,
      )

  pub combine_partitions_lem :
      (n i ti ni : ℕ) (tr nr pre : List ℕ) (o : Output)
      → Reached ti ni (gather (part s tree) n i ++ tr) (gather (part s node) n i ++ nr)
      → (ti' : ℕ) × (ni' : ℕ) × (combine_partitions tree_file node_file ts ns s.challenges_count n
            (emit pre o, ti, ni)
          ≡ some (emit (pre ++ gather (part s both) n i) o, ti', ni'))
        × Reached ti' ni' tr nr
  unfolding combine_partitions gather part put_count
  combine_partitions_lem zero i ti ni tr nr pre o a =
      (ti, ni, ap (λ b. some (emit b o, ti, ni)) (sym (append-nil pre)), a)
  combine_partitions_lem (suc n) i ti ni tr nr pre o a =
      let m : ℕ = s.challenges_count in
      let head : List ℕ = le_bytes 8 m in
      let gt : List ℕ = gather (part s tree) n (suc i) in
      let gn : List ℕ = gather (part s node) n (suc i) in
      let gb : List ℕ = gather (part s both) n (suc i) in
      let ht : List ℕ = gather (piece_at s tree i) m 0 in
      let hn : List ℕ = gather (piece_at s node i) m 0 in
      let hb : List ℕ = gather (piece_at s both i) m 0 in
      let a1 : Reached (ti + 8) (ni + 8) (ht ++ (gt ++ tr)) (hn ++ (gn ++ nr)) = record {
        tree_at = At-skip tree_file ti 8 head (ht ++ (gt ++ tr)) refl (
            At-cast tree_file ti (append_assoc (head ++ ht) gt tr ∙ append_assoc head ht (gt ++ tr))
              a.tree_at);
        node_at = At-skip node_file ni 8 head (hn ++ (gn ++ nr)) refl (
            At-cast node_file ni (append_assoc (head ++ hn) gn nr ∙ append_assoc head hn (gn ++ nr))
              a.node_at);
      } in
      let one =
        combine_challenges_lem i m 0 (ti + 8) (ni + 8) (gt ++ tr) (gn ++ nr) (pre ++ head) o a1 in
      let rest =
        combine_partitions_lem n (suc i) (one.0) (one.1) tr nr ((pre ++ head) ++ hb) o (one.3) in
      let shape : ((pre ++ head) ++ hb) ++ gb ≡ pre ++ (part s both i ++ gb) =
        ap (λ l. l ++ gb) (append_assoc pre head hb) ∙ append_assoc pre (head ++ hb) gb in
      (
        rest.0,
        rest.1,
        ap
              (λ u. elim (combine_challenges tree_file node_file ts ns m (u, ti + 8, ni + 8)) [
                | none ↦ none
                | some ds ↦ combine_partitions tree_file node_file ts ns m n ds
              ])
              (emit-append pre head o)
            ∙ goes_on
                (combine_challenges tree_file node_file ts ns m
                  (emit (pre ++ head) o, ti + 8, ni + 8))
                (emit ((pre ++ head) ++ hb) o, one.0, one.1)
                (combine_partitions tree_file node_file ts ns m n) (one.2)
            ∙ rest.2
            ∙ ap (λ b. some (emit b o, rest.0, rest.1)) shape,
        rest.3,
      )

  pub combine_tail_lem :
      (ti ni : ℕ) (comm_r comm_d replica_id seed ticket pre : List ℕ) (o : Output)
      → length comm_r ≡ 32
      → length comm_d ≡ 32
      → length replica_id ≡ 32
      → length seed ≡ 32
      → length ticket ≡ 32
      → Reached ti ni (comm_r ++ comm_d) (replica_id ++ (seed ++ ticket))
      → (combine_tail tree_file node_file (emit pre o, ti, ni)
          ≡ some (
            emit (pre ++ (comm_r ++ (comm_d ++ (replica_id ++ (seed ++ ticket))))) o,
            length tree_file,
            length node_file,
          ))
  unfolding combine_tail
  combine_tail_lem ti ni cr cd ri se tk pre o hr hd hi hs ht a =
      let a0 : Reached ti ni (cr ++ (cd ++ [])) (ri ++ (se ++ (tk ++ []))) = record {
        tree_at = At-cast tree_file ti (ap (λ l. cr ++ l) (sym (append-nil cd))) a.tree_at;
        node_at = At-cast node_file ni (ap (λ l. ri ++ (se ++ l)) (sym (append-nil tk))) a.node_at;
      } in
      let c1 = copy_tree_lem 32 ti ni cr (cd ++ []) (ri ++ (se ++ (tk ++ []))) pre o hr a0 in
      let c2 =
        copy_tree_lem 32 (ti + 32) ni cd [] (ri ++ (se ++ (tk ++ []))) (pre ++ cr) o hd (c1.1) in
      let c3 =
        copy_node_lem 32 (ti + 32 + 32) ni ri [] (se ++ (tk ++ [])) ((pre ++ cr) ++ cd) o hi
          (c2.1) in
      let c4 =
        copy_node_lem 32 (ti + 32 + 32) (ni + 32) se [] (tk ++ []) (((pre ++ cr) ++ cd) ++ ri) o hs
          (c3.1) in
      let c5 =
        copy_node_lem 32 (ti + 32 + 32) (ni + 32 + 32) tk [] [] ((((pre ++ cr) ++ cd) ++ ri) ++ se)
          o ht (c4.1) in
      let ends = c5.1 in
      let shape : ((((pre ++ cr) ++ cd) ++ ri) ++ se) ++ tk
          ≡ pre ++ (cr ++ (cd ++ (ri ++ (se ++ tk)))) =
        append_assoc (((pre ++ cr) ++ cd) ++ ri) se tk
        ∙ append_assoc ((pre ++ cr) ++ cd) ri (se ++ tk)
        ∙ append_assoc (pre ++ cr) cd (ri ++ (se ++ tk))
        ∙ append_assoc pre cr (cd ++ (ri ++ (se ++ tk))) in
      bind_some (copy_tree tree_file node_file 32 (emit pre o, ti, ni)) _ _ (c1.0)
      ∙ bind_some (copy_tree tree_file node_file 32 (emit (pre ++ cr) o, ti + 32, ni)) _ _ (c2.0)
      ∙ bind_some (copy_node tree_file node_file 32 (emit ((pre ++ cr) ++ cd) o, ti + 32 + 32, ni))
          _ _ (c3.0)
      ∙ bind_some
          (copy_node tree_file node_file 32
            (emit (((pre ++ cr) ++ cd) ++ ri) o, ti + 32 + 32, ni + 32))
          _ _ (c4.0)
      ∙ c5.0
      ∙ ap₂ (λ i n. some (emit (((((pre ++ cr) ++ cd) ++ ri) ++ se) ++ tk) o, i, n))
          (At-end tree_file (ti + 32 + 32) ends.tree_at)
          (At-end node_file (ni + 32 + 32 + 32) ends.node_at)
      ∙ ap (λ b. some (emit b o, length tree_file, length node_file)) shape
