-- ===== src/Commit/Driver/Combined.antt =====
-- The two ways to the file with all proofs.
use native.Mathlib.Nat.{add-mul, mul-add, mul_assoc, mul_comm, add_comm, mul-le-mul_left}
use supra_seal.Prelude.{
  ℕ, ◌+◌, ◌*◌, ◌<◌, ◌≤◌, ◌≡◌, sym, ◌∙◌, ap, ap₂, arith, Option, some, true, false, List, ◌++◌,
  length, length-append, take, replicate, size_mod,
}
use supra_seal.Commit.Output.{Node, Output, emit}
use supra_seal.Sealing.SectorParameters.{Sector}
use supra_seal.Commit.ColumnProof.{Params}
use supra_seal.Commit.NodeReader.{Reader}
use supra_seal.Commit.Driver.{
  C1, new_file, write_file, combine, mapped, combine_proofs, proof_size, tree_proof_size,
  node_proof_size, challenges_per_partition,
}
use supra_seal.Commit.Driver.Pieces.{filled, take-pre}
use supra_seal.Commit.Driver.Written.{Writes, write_file_lem}
use supra_seal.Commit.Driver.Whole.{
  tree_tail, node_tail, whole_tail, tail-tree, tail-node, tail-both, length-file_bytes, tree_file,
  node_file, both_file, combine_lem,
}

mapped_lem : (size : ℕ) (file : List ℕ) → length file ≡ size → mapped size file ≡ file
unfolding mapped
mapped_lem size file e =
    ap (λ n. take n (file ++ replicate size 0)) (sym e) ∙ take-pre file (replicate size 0)

small_part : (n size more : ℕ) → n * size ≤ n * (size + more)
small_part n size more = mul-le-mul_left n (omega arith)

-- The sizes that the assertions name are those of the files.
module _ (sector : Sector) (params : Params) (count : ℕ)
    (whole : sector.num_challenges ≡ sector.num_partitions * count) where
  abbrev total : ℕ → ℕ → ℕ
  total size tail = 8 + sector.num_partitions * (8 + count * size) + tail

  total_lem :
      (size tail : ℕ)
      → total size tail ≡ sector.num_partitions * 8 + 8 + (size * sector.num_challenges + tail)
  total_lem size tail =
      let p : ℕ = sector.num_partitions in
      omega (
        arith,
        mul-add p 8 (count * size),
        sym (mul_assoc p count size),
        ap (λ (c : ℕ). c * size) whole,
        mul_comm size sector.num_challenges,
      )

  tree_total :
      total (tree_proof_size sector params) 64 < size_mod
      → proof_size sector params true false ≡ total (tree_proof_size sector params) 64
  unfolding proof_size
  tree_total h = omega (arith, total_lem (tree_proof_size sector params) 64, h)

  node_total :
      total (node_proof_size sector params) 96 < size_mod
      → proof_size sector params false true ≡ total (node_proof_size sector params) 96
  unfolding proof_size
  node_total h = omega (arith, total_lem (node_proof_size sector params) 96, h)

  both_total :
      total (tree_proof_size sector params + node_proof_size sector params) 160 < size_mod
      → proof_size sector params true true
        ≡ total (tree_proof_size sector params + node_proof_size sector params) 160
  unfolding proof_size
  both_total h =
      let ts : ℕ = tree_proof_size sector params in
      let ns : ℕ = node_proof_size sector params in
      omega (arith, total_lem (ts + ns) 160, h, add-mul ts ns sector.num_challenges)

-- If what is done for a challenge writes one piece of the
-- size of its part, with the tree proofs, the node proofs, or one after the other, the challenges are
-- all there, divided evenly among the partitions, and the size of the file with both is a 64-bit
-- number: then the three files are written, with the sizes that the assertions ask for, and
-- `CombineProofs` makes of the file with the tree proofs and that with the node proofs the very file
-- that is written with both.
combine-written :
    (sector : Sector) (params : Params) (s : C1)
    (prove_t prove_n prove_b : ℕ → Reader → Output → Option (Reader × Output))
    (tree node : ℕ → List ℕ) (next_t next_n next_b : Reader → Reader) (d : Node)
    → Writes prove_t tree next_t
    → Writes prove_n node next_n
    → Writes prove_b (λ c. tree c ++ node c) next_b
    → ((c : ℕ) → length (tree c) ≡ tree_proof_size sector params)
    → ((c : ℕ) → length (node c) ≡ node_proof_size sector params)
    → s.comm_d ≡ some d
    → s.challenges_count ≡ challenges_per_partition sector
    → sector.num_challenges ≡ sector.num_partitions * s.challenges_count
    → sector.num_challenges ≤ length s.challenges
    → 168
        + sector.num_partitions
          * (8
              + s.challenges_count
                * (tree_proof_size sector params + node_proof_size sector params))
      < size_mod
    → (ot : Output) × (on : Output) × (ob : Output) × (write_file prove_t sector.num_partitions
          (proof_size sector params true false)
          true
          false
          s
        ≡ some ot)
      × (write_file prove_n sector.num_partitions (proof_size sector params false true) false true s
          ≡ some on)
      × (write_file prove_b sector.num_partitions (proof_size sector params true true) true true s
          ≡ some ob)
      × (combine_proofs sector params ot.file on.file ≡ some ob)
unfolding combine_proofs
combine-written sector params s prove_t prove_n prove_b tree node next_t next_n next_b d wt wn wb st
      sn cd per whole room small =
    let P : ℕ = sector.num_partitions in
    let m : ℕ = s.challenges_count in
    let ts : ℕ = tree_proof_size sector params in
    let ns : ℕ = node_proof_size sector params in
    let both_size : (c : ℕ) → length (tree c ++ node c) ≡ ts + ns =
      λ c. omega (arith, length-append (tree c) (node c), st c, sn c) in
    let le_t : P * (8 + m * ts) ≤ P * (8 + m * (ts + ns)) =
      mul-le-mul_left P (omega (arith, small_part m ts ns)) in
    let le_n : P * (8 + m * ns) ≤ P * (8 + m * (ts + ns)) =
      mul-le-mul_left P
        (omega (arith, small_part m ns ts, ap (λ (t : ℕ). m * t) (add_comm ts ns))) in
    let bt = tree_total sector params m whole (omega (arith, le_t, small)) in
    let bn = node_total sector params m whole (omega (arith, le_n, small)) in
    let bb = both_total sector params m whole (omega (arith, small)) in
    let lt : length (tree_file s P tree node ts ns st sn d) ≡ proof_size sector params true false =
      omega (arith, length-file_bytes s P tree ts (tree_tail s d) st, bt) in
    let ln : length (node_file s P tree node ts ns st sn d) ≡ proof_size sector params false true =
      omega (arith, length-file_bytes s P node ns (node_tail s) sn, bn) in
    let lb : length (both_file s P tree node ts ns st sn d) ≡ proof_size sector params true true =
      omega (
        arith,
        length-file_bytes s P (λ c. tree c ++ node c) (ts + ns) (whole_tail s d) both_size,
        bb,
      ) in
    let fits : P * m ≤ length s.challenges = omega (arith, whole, room) in
    let ft : proof_size sector params true false < size_mod = omega (arith, bt, le_t, small) in
    let fn : proof_size sector params false true < size_mod = omega (arith, bn, le_n, small) in
    let fb : proof_size sector params true true < size_mod = omega (arith, bb, small) in
    let T : List ℕ = tree_file s P tree node ts ns st sn d in
    let N : List ℕ = node_file s P tree node ts ns st sn d in
    (
      emit T (new_file (proof_size sector params true false)),
      emit N (new_file (proof_size sector params false true)),
      emit (both_file s P tree node ts ns st sn d) (new_file (proof_size sector params true true)),
      write_file_lem s prove_t tree next_t wt P (proof_size sector params true false) true false
          (tree_tail s d) fits (λ o. tail-tree s d o cd) lt ft,
      write_file_lem s prove_n node next_n wn P (proof_size sector params false true) false true
          (node_tail s) fits (λ o. tail-node s o) ln fn,
      write_file_lem s prove_b (λ c. tree c ++ node c) next_b wb P
          (proof_size sector params true true) true true (whole_tail s d) fits
          (λ o. tail-both s d o cd) lb fb,
      ap₂
            (λ x y.
              combine P (challenges_per_partition sector) ts ns (proof_size sector params true true)
                (proof_size sector params true false)
                (mapped (proof_size sector params true false) x) y)
            (filled T (proof_size sector params true false) lt ft)
            (filled N (proof_size sector params false true) ln fn)
          ∙ ap₂
              (λ c x.
                combine P c ts ns (proof_size sector params true true)
                  (proof_size sector params true false) x N)
              (sym per) (mapped_lem (proof_size sector params true false) T lt)
          ∙ combine_lem s P tree node ts ns st sn d (proof_size sector params true true)
              (proof_size sector params true false) lb lt fb,
    )
