-- ===== src/Commit/LabelProof/Bytes.antt =====
-- The bytes of the proof of a label, for all layers and for the last alone, and their number.
use mathlib.Core.List.{append_assoc, append-nil}
use supra_seal.Prelude.{
  ℕ, zero, suc, ◌+◌, ◌-◌, ◌*◌, ◌<◌, ◌≤◌, ◌≡◌, refl, sym, ◌∙◌, ap, ap₂, subst, arith, ◌^◌, Bool,
  true, false, List, [], ◌++◌, Option, none, some, length, ◌==◌, if◌then◌else◌, size_mod, goes_on,
  length-append, ==_false, ℕ_discrete, leb, ◌%◌, if_on, if_off,
}
use supra_seal.Commit.Output.{Node, Output, le_bytes, emit}
use supra_seal.Commit.Output.Laws.{emit-append, emit-nil}
use supra_seal.Commit.PathElement.Encode.{nodes_bytes, length-nodes_bytes}
use supra_seal.Commit.TreeProof.Tree.{from}
use supra_seal.Commit.LabelProof.{
  LabelProof, label_parents, write_one, write_n, write_layers, write_proof, proof_size,
}
use supra_seal.Commit.LabelProof.Layout.{Present, parent_label, write_one_lem, write_n_lem}

abbrev pub layer_bytes : LabelProof → ℕ → List ℕ
layer_bytes p l =
    le_bytes 8 label_parents
    ++ nodes_bytes (from (parent_label p l) 0 label_parents)
    ++ le_bytes 4 l
    ++ le_bytes 8 p.challenge

abbrev pub layers_bytes : LabelProof → ℕ → ℕ → List ℕ
layers_bytes p zero l = []
layers_bytes p (suc n) l = layer_bytes p l ++ layers_bytes p n (suc l)

pub length-from {ℓ} : {A : Type ℓ} (f : ℕ → A) (a n : ℕ) → length (from f a n) ≡ n
length-from f a zero = refl
length-from f a (suc n) = ap suc (length-from f (suc a) n)

length-layer_bytes : (p : LabelProof) (l : ℕ) → length (layer_bytes p l) ≡ 1204
length-layer_bytes p l =
    let ns : List Node = from (parent_label p l) 0 label_parents in
    let a : List ℕ = le_bytes 8 label_parents ++ nodes_bytes ns in
    omega (
      arith,
      length-append (a ++ le_bytes 4 l) (le_bytes 8 p.challenge),
      length-append a (le_bytes 4 l),
      length-append (le_bytes 8 label_parents) (nodes_bytes ns),
      length-nodes_bytes ns,
    )

length-layers_bytes : (p : LabelProof) (n l : ℕ) → length (layers_bytes p n l) ≡ 1204 * n
length-layers_bytes p zero l = refl
length-layers_bytes p (suc n) l = omega (
  arith,
  length-append (layer_bytes p l) (layers_bytes p n (suc l)),
  length-layer_bytes p l,
  length-layers_bytes p n (suc l),
)

different : (l : ℕ) → 0 < l → (l ≡ 1 → ⊥) → 1 < l
different l h e = ground arith

gather : (a b c d e f : List ℕ) → (a ++ b ++ c ++ d ++ e) ++ f ≡ a ++ (b ++ c ++ d ++ e ++ f)
gather a b c d e f = simp append_assoc refl

layer_lem :
    (p : LabelProof) (l : ℕ) (pre : List ℕ) (o : Output)
    → Present p
    → 0 < l
    → l ≤ p.layers
    → (if l == 1 then write_one p (emit pre o) else write_n l p (emit pre o))
      ≡ some (emit (pre ++ nodes_bytes (from (parent_label p l) 0 label_parents)) o)
layer_lem p l pre o here h q =
    let bytes : ℕ → List ℕ = λ m. pre ++ nodes_bytes (from (parent_label p m) 0 label_parents) in
    let start : emit pre o ≡ emit (pre ++ []) o = ap (λ b. emit b o) (sym (append-nil pre)) in
    elim (ℕ_discrete l 1) [
      | yes e ↦
          subst
            (λ m.
              (if m == 1 then write_one p (emit pre o) else write_n m p (emit pre o))
              ≡ some (emit (bytes m) o))
            (sym e) (ap (write_one p) start ∙ write_one_lem p here pre o (omega arith))
      | no e ↦
          ap (λ b. if b then write_one p (emit pre o) else write_n l p (emit pre o))
            (==_false l 1 e)
          ∙ ap (write_n l p) start
          ∙ write_n_lem p here pre o l (different l h e) q
    ]

-- `n` layers are left, and fuel for them.
write_layers_lem :
    (p : LabelProof) (fuel n l : ℕ) (pre : List ℕ) (o : Output)
    → Present p
    → p.layers < 2 ^ 32 - 1
    → 0 < l
    → l + n ≡ suc p.layers
    → n < fuel
    → write_layers fuel l p (emit pre o) ≡ some (emit (pre ++ layers_bytes p n l) o)
unfolding write_layers
write_layers_lem p zero n l pre o here small h q f = absurd (omega arith)
write_layers_lem p (suc fuel) zero l pre o here small h q f =
    let over : leb l p.layers ≡ false = ground arith in
    if_off _ _ over ∙ ap (λ b. some (emit b o)) (sym (append-nil pre))
write_layers_lem p (suc fuel) (suc n) l pre o here small h q f =
    let count : List ℕ = le_bytes 8 label_parents in
    let parents : List ℕ = nodes_bytes (from (parent_label p l) 0 label_parents) in
    let number : List ℕ = le_bytes 4 l in
    let node : List ℕ = le_bytes 8 p.challenge in
    let body : Output → Option Output = λ u. if l == 1 then write_one p u else write_n l p u in
    let k : Output → Option Output =
      λ v. write_layers fuel ((l + 1) % 2 ^ 32) p (emit node (emit number v)) in
    let more : leb l p.layers ≡ true = ground arith in
    let next : (l + 1) % 2 ^ 32 ≡ suc l = omega arith in
    if_on _ _ more
    ∙ ap (λ u. elim (body u) [ none ↦ none | some v ↦ k v ]) (emit-append pre count o)
    ∙ goes_on (body (emit (pre ++ count) o)) (emit (pre ++ count ++ parents) o) k
        (layer_lem p l (pre ++ count) o here h (omega arith))
    ∙ ap₂ (λ m v. write_layers fuel m p v) next
        (ap (emit node) (emit-append (pre ++ count ++ parents) number o)
          ∙ emit-append (pre ++ count ++ parents ++ number) node o)
    ∙ write_layers_lem p fuel n (suc l) (pre ++ count ++ parents ++ number ++ node) o here small
        (omega arith) (omega arith) (omega arith)
    ∙ ap (λ b. some (emit b o)) (gather pre count parents number node (layers_bytes p n (suc l)))

-- the bytes of `LabelProof::WriteProof`
abbrev pub proof_bytes : Bool → LabelProof → List ℕ
proof_bytes true p = layer_bytes p p.layers
proof_bytes false p = le_bytes 8 p.layers ++ layers_bytes p p.layers 1

proof_size_all :
    (layers : ℕ) → 0 < layers → layers < 2 ^ 32 → proof_size layers false ≡ 8 + 1204 * layers
unfolding proof_size
proof_size_all layers h q = ground arith

proof_size_last : (layers : ℕ) → 0 < layers → layers < 2 ^ 32 → proof_size layers true ≡ 1204
unfolding proof_size
proof_size_last layers h q = ground arith

-- With 1 to 2^32 - 2 layers, which the loop's 32-bit counter can pass, all the parents' labels in the
-- buffer and the index a 64-bit word, `LabelProof::WriteProof` ends and writes the proof of all layers,
-- or of the last alone, in one piece: for each layer the 37 parents in the order in which the label
-- hashes them. The piece has `ProofSize` bytes.
pub write_proof_lem :
    (enc : Bool) (p : LabelProof) (o : Output)
    → Present p
    → 0 < p.layers
    → p.layers < 2 ^ 32 - 1
    → o.buf_index < size_mod
    → (write_proof enc p o ≡ some (emit (proof_bytes enc p) o))
      × (length (proof_bytes enc p) ≡ proof_size p.layers enc)
unfolding write_proof
write_proof_lem true p o here h q i =
    let last : p.layers % 2 ^ 32 ≡ p.layers = omega arith in
    (
      ap₂ (λ l u. write_layers (suc (suc p.layers)) l p u) last (sym (emit-nil o i))
          ∙ write_layers_lem p (suc (suc p.layers)) 1 p.layers [] o here q h (omega arith)
              (omega arith)
          ∙ ap (λ b. some (emit b o)) (append-nil (layer_bytes p p.layers)),
      length-layer_bytes p p.layers ∙ sym (proof_size_last p.layers h (omega arith)),
    )
write_proof_lem false p o here h q i = (
  write_layers_lem p (suc (suc p.layers)) p.layers 1 (le_bytes 8 p.layers) o here q (omega arith)
      (omega arith) (omega arith),
  omega (
    arith,
    proof_size_all p.layers h (omega arith),
    length-append (le_bytes 8 p.layers) (layers_bytes p p.layers 1),
    length-layers_bytes p p.layers 1,
  ),
)
