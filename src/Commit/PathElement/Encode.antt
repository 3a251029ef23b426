-- ===== src/Commit/PathElement/Encode.antt =====
-- The bytes of an element whose hashes are all there, and of a sequence of them.
use mathlib.Core.List.{append_assoc, append-nil, nil≢cons}
use supra_seal.Prelude.{
  ℕ, zero, suc, ◌+◌, ◌*◌, ◌≡◌, refl, sym, ◌∙◌, ap, arith, List, [], ◌∷◌, ◌++◌, map, Option, none,
  some, length, get_or, drop, sub64, length-append, goes_on,
}
use supra_seal.Commit.Output.{Node, Output, le_bytes, node_bytes, emit, emit_node}
use supra_seal.Commit.Output.Laws.{emit-append}
use supra_seal.Commit.PathElement.{PathElement, write_hashes, write}

-- an element with its hashes
pub record Opening : Type 0 where
  pub index : ℕ
  pub nodes : List Node

unfoldable pub opened : ℕ → Opening → PathElement
opened arity p = record { arity = arity; index = p.index; hashes = map some p.nodes }

abbrev pub nodes_bytes : List Node → List ℕ
nodes_bytes [] = []
nodes_bytes (n ∷ ns) = node_bytes n ++ nodes_bytes ns

-- the number of hashes, the hashes, the index
abbrev pub opening_bytes : Opening → List ℕ
opening_bytes p = le_bytes 8 (length p.nodes) ++ nodes_bytes p.nodes ++ le_bytes 8 p.index

abbrev pub openings_bytes : List Opening → List ℕ
openings_bytes [] = []
openings_bytes (p ∷ ps) = opening_bytes p ++ openings_bytes ps

-- Every element has `n` hashes.
abbrev pub AllFull : ℕ → List Opening → Type 0
AllFull n [] = Unit
AllFull n (p ∷ ps) = (length p.nodes ≡ n) × AllFull n ps

pub length-nodes_bytes : (ns : List Node) → length (nodes_bytes ns) ≡ 32 * length ns
length-nodes_bytes [] = refl
length-nodes_bytes (n ∷ ns) =
    omega (arith, length-append (node_bytes n) (nodes_bytes ns), length-nodes_bytes ns)

length-opening_bytes : (p : Opening) → length (opening_bytes p) ≡ 16 + 32 * length p.nodes
length-opening_bytes p = omega (
  arith,
  length-append (le_bytes 8 (length p.nodes) ++ nodes_bytes p.nodes) (le_bytes 8 p.index),
  length-append (le_bytes 8 (length p.nodes)) (nodes_bytes p.nodes),
  length-nodes_bytes p.nodes,
)

pub length-openings_bytes :
    (n : ℕ) (ps : List Opening)
    → AllFull n ps
    → length (openings_bytes ps) ≡ (16 + 32 * n) * length ps
length-openings_bytes n [] h = omega arith
length-openings_bytes n (p ∷ ps) h = omega (
  arith,
  length-append (opening_bytes p) (openings_bytes ps),
  length-opening_bytes p,
  h.0,
  length-openings_bytes n ps h.1,
)

pub drop-head {ℓ} :
    {A : Type ℓ} (i : ℕ) (xs : List A) (y : A) (ys : List A) (d : A)
    → drop i xs ≡ y ∷ ys
    → (get_or xs i d ≡ y) × (drop (suc i) xs ≡ ys)
drop-head zero [] y ys d e = absurd (nil≢cons e)
drop-head zero (x ∷ xs) y ys d e = (ap (λ l. get_or l 0 y) e, ap (drop 1) e)
drop-head (suc i) [] y ys d e = absurd (nil≢cons e)
drop-head (suc i) (x ∷ xs) y ys d e = drop-head i xs y ys d e

write_hashes_lem :
    (n i : ℕ) (hashes : List (Option Node)) (ns : List Node) (pre : List ℕ) (o : Output)
    → length ns ≡ n
    → drop i hashes ≡ map some ns
    → write_hashes n i hashes (emit pre o) ≡ some (emit (pre ++ nodes_bytes ns) o)
unfolding write_hashes emit_node
write_hashes_lem zero i hashes [] pre o e h = ap (λ b. some (emit b o)) (sym (append-nil pre))
write_hashes_lem zero i hashes (n ∷ ns) pre o e h = absurd (omega arith)
write_hashes_lem (suc n) i hashes [] pre o e h = absurd (omega arith)
write_hashes_lem (suc n) i hashes (x ∷ ns) pre o e h =
    let s = drop-head i hashes (some x) (map some ns) none h in
    let r : emit_node (get_or hashes i none) (emit pre o) ≡ some (emit (pre ++ node_bytes x) o) =
      ap (λ h. emit_node h (emit pre o)) s.0 ∙ ap some (emit-append pre (node_bytes x) o) in
    goes_on (emit_node (get_or hashes i none) (emit pre o)) (emit (pre ++ node_bytes x) o)
      (write_hashes n (suc i) hashes) r
    ∙ (write_hashes_lem n (suc i) hashes ns (pre ++ node_bytes x) o (omega arith) s.1
        ∙ ap (λ b. some (emit b o)) (append_assoc pre (node_bytes x) (nodes_bytes ns)))

pub write-opened :
    (arity : ℕ) (p : Opening) (pre : List ℕ) (o : Output)
    → length p.nodes ≡ sub64 arity 1
    → write (opened arity p) (emit pre o) ≡ some (emit (pre ++ opening_bytes p) o)
unfolding write opened
write-opened arity p pre o e =
    let len : List ℕ = le_bytes 8 (length p.nodes) in
    let body : List ℕ = nodes_bytes p.nodes in
    let last : List ℕ = le_bytes 8 p.index in
    let finish : ℕ → Output → Option Output = λ n u. elim (write_hashes n 0 (map some p.nodes) u) [
      | none ↦ none
      | some v ↦ some (emit last v)
    ] in
    ap (λ n. finish n (emit (le_bytes 8 n) (emit pre o))) (sym e)
    ∙ ap (finish (length p.nodes)) (emit-append pre len o)
    ∙ goes_on (write_hashes (length p.nodes) 0 (map some p.nodes) (emit (pre ++ len) o))
        (emit (pre ++ len ++ body) o) (λ u. some (emit last u))
        (write_hashes_lem (length p.nodes) 0 (map some p.nodes) p.nodes (pre ++ len) o refl refl)
    ∙ ap some (
        emit-append (pre ++ len ++ body) last o
        ∙ ap (λ b. emit b o)
            (ap (λ b. b ++ last) (append_assoc pre len body) ∙ append_assoc pre (len ++ body) last))
