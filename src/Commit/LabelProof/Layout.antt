-- ===== src/Commit/LabelProof/Layout.antt =====
-- Which labels the proof of a label holds, and in what order: 37 parents a layer, those of the layer
-- taken in turn again and again.
use mathlib.Core.List.{append_assoc, append-nil}
use supra_seal.Prelude.{
  ℕ, zero, suc, ◌+◌, ◌-◌, ◌*◌, ◌%◌, ◌<◌, ◌≤◌, ◌≡◌, refl, sym, ◌∙◌, ap, arith, Bool, true, false,
  List, [], ◌∷◌, ◌++◌, Option, none, some, length, get_elem?, get_or, ltb, ◌==◌, if◌then◌else◌,
  goes_on, ==_false,
}
use supra_seal.Pc1.ParentIter.{parent_count_base, parent_count_exp, parent_count}
use supra_seal.Commit.Output.{Node, Output, node_bytes, emit, emit_node}
use supra_seal.Commit.Output.Laws.{emit-append}
use supra_seal.Commit.PathElement.Encode.{nodes_bytes}
use supra_seal.Commit.TreeProof.Tree.{from}
use supra_seal.Commit.LabelProof.{
  LabelProof, label_parents, label_at, write_labels, repeat_one, write_one, repeat_n, write_n,
}

-- The `j`-th parent that the label of a layer is a hash of, for the first layer and for layer `l` after
-- it: the base parents in turn, and the base parents and then the expander's in turn.
abbrev pub parent_of : LabelProof → Bool → ℕ → ℕ → Node
parent_of p first l j =
    let row : ℕ =
      if first then 0 else if ltb (j % parent_count) parent_count_base then l - 1 else l - 2 in
    let place : ℕ = if first then j % parent_count_base else j % parent_count in
    get_or p.labels (place + 1 + row * p.label_inc) (record { limbs = [] })

abbrev pub parent_label : LabelProof → ℕ → ℕ → Node
parent_label p l j = parent_of p (l == 1) l j

nodes_bytes-append : (xs ys : List Node) → nodes_bytes (xs ++ ys) ≡ nodes_bytes xs ++ nodes_bytes ys
nodes_bytes-append [] ys = refl
nodes_bytes-append (x ∷ xs) ys =
    ap (λ b. node_bytes x ++ b) (nodes_bytes-append xs ys)
    ∙ sym (append_assoc (node_bytes x) (nodes_bytes xs) (nodes_bytes ys))

pub get_elem?-get_or {ℓ} :
    {A : Type ℓ} (xs : List A) (i : ℕ) (d : A)
    → i < length xs
    → get_elem? xs i ≡ some (get_or xs i d)
get_elem?-get_or [] i d h = elim h [ ]
get_elem?-get_or (x ∷ xs) zero d h = refl
get_elem?-get_or (x ∷ xs) (suc i) d h = get_elem?-get_or xs i d (omega arith)

-- A loop over labels that are there.
pub write_labels_lem :
    (label : ℕ → Option Node) (g : ℕ → Node) (n c : ℕ) (xs : List Node) (pre : List ℕ) (o : Output)
    → ((i : ℕ) → c ≤ i → i < c + n → label i ≡ some (g i))
    → write_labels label n c (emit (pre ++ nodes_bytes xs) o)
      ≡ some (emit (pre ++ nodes_bytes (xs ++ from g c n)) o)
unfolding write_labels emit_node
write_labels_lem label g zero c xs pre o h =
    ap (λ ys. some (emit (pre ++ nodes_bytes ys) o)) (sym (append-nil xs))
write_labels_lem label g (suc n) c xs pre o h =
    let one : List Node = g c ∷ [] in
    let bytes : pre ++ nodes_bytes xs ++ node_bytes (g c) ≡ pre ++ nodes_bytes (xs ++ one) =
      append_assoc pre (nodes_bytes xs) (node_bytes (g c))
      ∙ ap (λ b. pre ++ b)
          (ap (λ b. nodes_bytes xs ++ b) (sym (append-nil (node_bytes (g c))))
            ∙ sym (nodes_bytes-append xs one)) in
    goes_on (emit_node (label c) (emit (pre ++ nodes_bytes xs) o))
      (emit (pre ++ nodes_bytes (xs ++ one)) o) (write_labels label n (suc c))
      (ap (λ l. emit_node l (emit (pre ++ nodes_bytes xs) o)) (h c (omega arith) (omega arith))
        ∙ ap some
            (emit-append (pre ++ nodes_bytes xs) (node_bytes (g c)) o ∙ ap (λ b. emit b o) bytes))
    ∙ write_labels_lem label g n (suc c) (xs ++ one) pre o
        (λ i a b. h i (omega arith) (omega arith))
    ∙ ap (λ ys. some (emit (pre ++ nodes_bytes ys) o)) (append_assoc xs one (from g (suc c) n))

either :
    {A : Type 0} {x y : Option A} {a c : A} (b : Bool)
    → x ≡ some a
    → y ≡ some c
    → (if b then x else y) ≡ some (if b then a else c)
either true p q = p
either false p q = q

-- Every label that the proof of `layers` layers names is in the buffer.
pub record Present (p : LabelProof) : Type 0 where
  pub in_buffer :
      (l c : ℕ) → l < p.layers → c < parent_count → c + 1 + l * p.label_inc < length p.labels

module _ (p : LabelProof) (here : Present p) (pre : List ℕ) (o : Output) where
  abbrev label : ℕ → ℕ → Node
  label l c = get_or p.labels (c + 1 + l * p.label_inc) (record { limbs = [] })

  label_at_lem : (l c : ℕ) → l < p.layers → c < parent_count → label_at p l c ≡ some (label l c)
  unfolding label_at
  label_at_lem l c h q =
      get_elem?-get_or p.labels (c + 1 + l * p.label_inc) (record { limbs = [] })
        (here.in_buffer l c h q)

  abbrev pub out : List Node → Output
  out xs = emit (pre ++ nodes_bytes xs) o

  abbrev base : ℕ → List Node
  base l = from (label l) 0 parent_count_base

  abbrev rounds_one : ℕ → List Node → List Node
  rounds_one zero xs = xs
  rounds_one (suc k) xs = rounds_one k (xs ++ base 0)

  repeat_one_lem :
      (k : ℕ) (xs : List Node)
      → 0 < p.layers
      → repeat_one k p (out xs) ≡ some (out (rounds_one k xs))
  unfolding repeat_one
  repeat_one_lem zero xs h = refl
  repeat_one_lem (suc k) xs h =
      goes_on (write_labels (label_at p 0) parent_count_base 0 (out xs)) (out (xs ++ base 0))
        (repeat_one k p)
        (write_labels_lem (label_at p 0) (label 0) parent_count_base 0 xs pre o
          (λ i a b. label_at_lem 0 i h (omega arith)))
      ∙ repeat_one_lem k (xs ++ base 0) h

  pub write_one_lem :
      0 < p.layers → write_one p (out []) ≡ some (out (from (parent_label p 1) 0 label_parents))
  unfolding write_one
  write_one_lem h =
      goes_on (repeat_one 6 p (out [])) (out (rounds_one 6 [])) (write_labels (label_at p 0) 1 0)
        (repeat_one_lem 6 [] h)
      ∙ write_labels_lem (label_at p 0) (label 0) 1 0 (rounds_one 6 []) pre o
          (λ i a b. label_at_lem 0 i h (omega arith))

  abbrev far : ℕ → List Node
  far l = from (λ c. label l (c + parent_count_base)) 0 parent_count_exp

  abbrev rounds_n : ℕ → ℕ → List Node → List Node
  rounds_n zero l xs = xs
  rounds_n (suc k) l xs = rounds_n k l (xs ++ base (l - 1) ++ far (l - 2))

  repeat_n_lem :
      (k l : ℕ) (xs : List Node)
      → 1 < l
      → l ≤ p.layers
      → repeat_n k l p (out xs) ≡ some (out (rounds_n k l xs))
  unfolding repeat_n
  repeat_n_lem zero l xs h q = refl
  repeat_n_lem (suc k) l xs h q =
      goes_on (write_labels (label_at p (l - 1)) parent_count_base 0 (out xs))
        (out (xs ++ base (l - 1)))
        (λ u.
          elim (write_labels (λ c. label_at p (l - 2) (c + parent_count_base)) parent_count_exp 0
            u) [ none ↦ none | some v ↦ repeat_n k l p v ])
        (write_labels_lem (label_at p (l - 1)) (label (l - 1)) parent_count_base 0 xs pre o
          (λ i a b. label_at_lem (l - 1) i (omega arith) (omega arith)))
      ∙ goes_on
          (write_labels (λ c. label_at p (l - 2) (c + parent_count_base)) parent_count_exp 0
            (out (xs ++ base (l - 1))))
          (out (xs ++ base (l - 1) ++ far (l - 2))) (repeat_n k l p)
          (write_labels_lem (λ c. label_at p (l - 2) (c + parent_count_base))
            (λ c. label (l - 2) (c + parent_count_base)) parent_count_exp 0 (xs ++ base (l - 1)) pre
            o (λ i a b. label_at_lem (l - 2) (i + parent_count_base) (omega arith) (omega arith)))
      ∙ repeat_n_lem k l (xs ++ base (l - 1) ++ far (l - 2)) h q

  pub write_n_lem :
      (l : ℕ)
      → 1 < l
      → l ≤ p.layers
      → write_n l p (out []) ≡ some (out (from (parent_label p l) 0 label_parents))
  unfolding write_n
  write_n_lem l h q =
      goes_on (repeat_n 2 l p (out [])) (out (rounds_n 2 l []))
        (write_labels
          (λ c. if ltb c parent_count_base then label_at p (l - 1) c else label_at p (l - 2) c) 9 0)
        (repeat_n_lem 2 l [] h q)
      ∙ write_labels_lem
          (λ c. if ltb c parent_count_base then label_at p (l - 1) c else label_at p (l - 2) c)
          (λ c. if ltb c parent_count_base then label (l - 1) c else label (l - 2) c) 9 0
          (rounds_n 2 l []) pre o
          (λ i a b.
            either (ltb i parent_count_base) (label_at_lem (l - 1) i (omega arith) (omega arith))
              (label_at_lem (l - 2) i (omega arith) (omega arith)))
      ∙ ap (λ b. some (out (from (parent_of p b l) 0 label_parents)))
          (sym (==_false l 1 (omega arith)))
