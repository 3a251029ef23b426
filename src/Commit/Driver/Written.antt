-- ===== src/Commit/Driver/Written.antt =====
-- The bytes of a file that `WriteProofs` writes.
use mathlib.Core.List.{append_assoc, append-nil}
use native.Mathlib.Nat.{suc-mul, add-mul}
use supra_seal.Prelude.{
  ℕ, zero, suc, ◌+◌, ◌*◌, ◌<◌, ◌≤◌, ◌≡◌, sym, ◌∙◌, ap, arith, Option, some, none, Bool, List, ◌++◌,
  length, get_elem?, get_or, size_mod, goes_on, ◌==◌, ==_true, if_on, if◌then◌else◌,
}
use supra_seal.Commit.Output.{Output, le_bytes, emit}
use supra_seal.Commit.Output.Laws.{emit-append}
use supra_seal.Commit.NodeReader.{Reader}
use supra_seal.Commit.LabelProof.Layout.{get_elem?-get_or}
use supra_seal.Commit.Driver.{C1, challenge_loop, partition_loop, write_tail, new_file, write_file}
use supra_seal.Commit.Driver.Pieces.{gather}

add_suc : (a b : ℕ) → a + suc b ≡ suc a + b
add_suc a b = omega arith

-- What is done for a challenge writes one piece, whatever the reader and the output.
pub record Writes (prove : ℕ → Reader → Output → Option (Reader × Output)) (piece : ℕ → List ℕ)
    (next : Reader → Reader) : Type 0 where
  pub writes : (c : ℕ) (r : Reader) (o : Output) → prove c r o ≡ some (next r, emit (piece c) o)

pub index_lem :
    (bytes : List ℕ) (size : ℕ)
    → length bytes ≡ size
    → size < size_mod
    → (emit bytes (new_file size)).buf_index ≡ size
unfolding emit new_file
index_lem bytes size e h = omega (arith, e)

module _ (s : C1) where
  -- the piece of the `j`-th challenge of partition `i`
  abbrev pub piece_at : (ℕ → List ℕ) → ℕ → ℕ → List ℕ
  piece_at piece i j = piece (get_or s.challenges (j + i * s.challenges_count) 0)

  -- the pieces of a partition, after their number
  unfoldable pub part : (ℕ → List ℕ) → ℕ → List ℕ
  unfolding gather
  part piece i = le_bytes 8 s.challenges_count ++ gather (piece_at piece i) s.challenges_count 0

  -- the bytes of a file
  unfoldable pub file_bytes : ℕ → (ℕ → List ℕ) → List ℕ → List ℕ
  unfolding gather part
  file_bytes partitions piece tail =
      le_bytes 8 partitions ++ (gather (part piece) partitions 0 ++ tail)

  module _ (prove : ℕ → Reader → Output → Option (Reader × Output)) (piece : ℕ → List ℕ)
      (next : Reader → Reader) (w : Writes prove piece next) where
    challenge_loop_lem :
        (i n j : ℕ) (r : Reader) (pre : List ℕ) (o : Output)
        → (j + n) + i * s.challenges_count ≤ length s.challenges
        → (r' : Reader) × (challenge_loop prove s i n j r (emit pre o)
            ≡ some (r', emit (pre ++ gather (piece_at piece i) n j) o))
    unfolding challenge_loop gather
    challenge_loop_lem i zero j r pre o h = (r, ap (λ b. some (r, emit b o)) (sym (append-nil pre)))
    challenge_loop_lem i (suc n) j r pre o h =
        let c : ℕ = get_or s.challenges (j + i * s.challenges_count) 0 in
        let rest = challenge_loop_lem i n (suc j) (next r) (pre ++ piece c) o (omega arith) in
        let at = get_elem?-get_or s.challenges (j + i * s.challenges_count) 0 (omega arith) in
        (
          rest.0,
          goes_on (get_elem? s.challenges (j + i * s.challenges_count)) c
                (λ d. elim (prove d r (emit pre o)) [
                  | none ↦ none
                  | some (r', u) ↦ challenge_loop prove s i n (suc j) r' u
                ])
                at
              ∙ goes_on (prove c r (emit pre o)) (next r, emit (piece c) (emit pre o))
                  (λ d. challenge_loop prove s i n (suc j) (d.0) (d.1)) (w.writes c r (emit pre o))
              ∙ ap (challenge_loop prove s i n (suc j) (next r)) (emit-append pre (piece c) o)
              ∙ rest.1
              ∙ ap (λ b. some (rest.0, emit b o))
                  (append_assoc pre (piece c) (gather (piece_at piece i) n (suc j))),
        )

    partition_loop_lem :
        (n i : ℕ) (r : Reader) (pre : List ℕ) (o : Output)
        → (i + n) * s.challenges_count ≤ length s.challenges
        → (r' : Reader) × (partition_loop prove s n i r (emit pre o)
            ≡ some (r', emit (pre ++ gather (part piece) n i) o))
    unfolding partition_loop gather part
    partition_loop_lem zero i r pre o h = (r, ap (λ b. some (r, emit b o)) (sym (append-nil pre)))
    partition_loop_lem (suc n) i r pre o h =
        let m : ℕ = s.challenges_count in
        let p1 : List ℕ = pre ++ le_bytes 8 m in
        let fits : (0 + m) + i * m ≤ length s.challenges =
          omega (arith, h, add-mul i (suc n) m, suc-mul n m) in
        let more : (suc i + n) * m ≤ length s.challenges =
          omega (arith, h, ap (λ (t : ℕ). t * m) (add_suc i n)) in
        let one = challenge_loop_lem i m 0 r p1 o fits in
        let rest = partition_loop_lem n (suc i) (one.0) (pre ++ part piece i) o more in
        (
          rest.0,
          ap
                (λ u. elim (challenge_loop prove s i m 0 r u) [
                  | none ↦ none
                  | some (r', v) ↦ partition_loop prove s n (suc i) r' v
                ])
                (emit-append pre (le_bytes 8 m) o)
              ∙ goes_on (challenge_loop prove s i m 0 r (emit p1 o))
                  (one.0, emit (p1 ++ gather (piece_at piece i) m 0) o)
                  (λ d. partition_loop prove s n (suc i) (d.0) (d.1)) (one.1)
              ∙ ap (λ b. partition_loop prove s n (suc i) (one.0) (emit b o))
                  (append_assoc pre (le_bytes 8 m) (gather (piece_at piece i) m 0))
              ∙ rest.1
              ∙ ap (λ b. some (rest.0, emit b o))
                  (append_assoc pre (part piece i) (gather (part piece) n (suc i))),
        )

    -- The whole file.
    pub write_file_lem :
        (partitions expected : ℕ) (do_tree do_node : Bool) (tail : List ℕ)
        → partitions * s.challenges_count ≤ length s.challenges
        → ((o : Output) → write_tail do_tree do_node s o ≡ some (emit tail o))
        → length (file_bytes partitions piece tail) ≡ expected
        → expected < size_mod
        → write_file prove partitions expected do_tree do_node s
          ≡ some (emit (file_bytes partitions piece tail) (new_file expected))
    unfolding write_file file_bytes
    write_file_lem partitions expected do_tree do_node tail room tailed e small =
        let o : Output = new_file expected in
        let start : List ℕ = le_bytes 8 partitions in
        let all : List ℕ = gather (part piece) partitions 0 in
        let loop = partition_loop_lem partitions 0 s.reader start o (omega (arith, room)) in
        let checked : Output → Option Output =
          λ u. if u.buf_index == expected then some u else none in
        goes_on (partition_loop prove s partitions 0 s.reader (emit start o))
          (loop.0, emit (start ++ all) o)
          (λ d. elim (write_tail do_tree do_node s (d.1)) [ none ↦ none | some u ↦ checked u ])
          (loop.1)
        ∙ goes_on (write_tail do_tree do_node s (emit (start ++ all) o))
            (emit tail (emit (start ++ all) o)) checked (tailed (emit (start ++ all) o))
        ∙ ap checked (emit-append (start ++ all) tail o)
        ∙ ap (λ b. checked (emit b o)) (append_assoc start all tail)
        ∙ if_on _ _
            (==_true _ expected (index_lem (file_bytes partitions piece tail) expected e small))
