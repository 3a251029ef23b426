-- ===== src/Commit/TreeProof/Encode.antt =====
-- The bytes of a proof whose path is complete, and their number.
use mathlib.Core.List.{append_assoc, append-nil}
use supra_seal.Prelude.{
  ℕ, zero, suc, ◌+◌, ◌*◌, ◌%◌, ◌<◌, ◌≡◌, refl, sym, ◌∙◌, ap, ap₂, arith, List, [], ◌∷◌, ◌++◌, map,
  Option, none, some, length, get_elem?, drop, sub64, size_mod, length-append, length-map, goes_on,
}
use supra_seal.Commit.Output.{Node, Output, le_bytes, node_bytes, emit, emit_node}
use supra_seal.Commit.Output.Laws.{emit-append}
use supra_seal.Commit.PathElement.{PathElement, write}
use supra_seal.Commit.PathElement.Encode.{
  Opening, opened, opening_bytes, openings_bytes, AllFull, length-openings_bytes, write-opened,
}
use supra_seal.Commit.TreeProof.{
  TreeProof, write_path, write_ends, write_single, write_sub, write_proof, proof_size,
}

get_elem?-drop {ℓ} : {A : Type ℓ} (i : ℕ) (xs : List A) → get_elem? xs i ≡ get_elem? (drop i xs) 0
get_elem?-drop zero xs = refl
get_elem?-drop (suc i) [] = refl
get_elem?-drop (suc i) (x ∷ xs) = get_elem?-drop i xs

drop-suc {ℓ} : {A : Type ℓ} (i : ℕ) (xs : List A) → drop (suc i) xs ≡ drop 1 (drop i xs)
drop-suc zero [] = refl
drop-suc zero (x ∷ xs) = refl
drop-suc (suc i) [] = refl
drop-suc (suc i) (x ∷ xs) = drop-suc i xs

write_path_lem :
    (arity n i : ℕ) (path : List PathElement) (ps : List Opening) (rest : List PathElement)
    (pre : List ℕ) (o : Output)
    → length ps ≡ n
    → drop i path ≡ map (opened arity) ps ++ rest
    → AllFull (sub64 arity 1) ps
    → write_path n i path (emit pre o) ≡ some (emit (pre ++ openings_bytes ps) o)
unfolding write_path
write_path_lem arity zero i path [] rest pre o e h full =
    ap (λ b. some (emit b o)) (sym (append-nil pre))
write_path_lem arity zero i path (p ∷ ps) rest pre o e h full = absurd (omega arith)
write_path_lem arity (suc n) i path [] rest pre o e h full = absurd (omega arith)
write_path_lem arity (suc n) i path (p ∷ ps) rest pre o e h full =
    let here : get_elem? path i ≡ some (opened arity p) =
      get_elem?-drop i path ∙ ap (λ l. get_elem? l 0) h in
    let next : drop (suc i) path ≡ map (opened arity) ps ++ rest =
      drop-suc i path ∙ ap (drop 1) h in
    goes_on (get_elem? path i) (opened arity p)
      (λ e. elim (write e (emit pre o)) [ none ↦ none | some u ↦ write_path n (suc i) path u ]) here
    ∙ goes_on (write (opened arity p) (emit pre o)) (emit (pre ++ opening_bytes p) o)
        (write_path n (suc i) path) (write-opened arity p pre o full.0)
    ∙ write_path_lem arity n (suc i) path ps rest (pre ++ opening_bytes p) o (omega arith) next
        full.1
    ∙ ap (λ b. some (emit b o)) (append_assoc pre (opening_bytes p) (openings_bytes ps))

write_ends_lem :
    (t : TreeProof) (r l : Node) (pre : List ℕ) (o : Output)
    → t.root ≡ some r
    → t.leaf ≡ some l
    → write_ends t (emit pre o) ≡ some (emit (pre ++ (node_bytes r ++ node_bytes l)) o)
unfolding write_ends emit_node
write_ends_lem t r l pre o hr hl =
    ap₂ (λ x y. elim (emit_node x (emit pre o)) [ none ↦ none | some u ↦ emit_node y u ]) hr hl
    ∙ ap some (
        ap (emit (node_bytes l)) (emit-append pre (node_bytes r) o)
        ∙ emit-append (pre ++ node_bytes r) (node_bytes l) o
        ∙ ap (λ b. emit b o) (append_assoc pre (node_bytes r) (node_bytes l)))

-- A proof that is ready to be written: the root, the leaf and `levels` elements with all their hashes.
pub record Ready (t : TreeProof) (r l : Node) (ps : List Opening) : Type 0 where
  pub root_is : t.root ≡ some r
  pub leaf_is : t.leaf ≡ some l
  pub path_is : t.path ≡ map (opened t.arity) ps
  pub all_levels : length ps ≡ t.levels
  pub all_full : AllFull (sub64 t.arity 1) ps

-- the layout of a proof of type 0
abbrev pub single_bytes : Node → Node → List Opening → List ℕ
single_bytes r l ps =
    le_bytes 4 0 ++ (node_bytes r ++ node_bytes l) ++ le_bytes 8 (length ps) ++ openings_bytes ps

single_size :
    (total n levels size count : ℕ)
    → total ≡ 76 + size
    → size ≡ (16 + 32 * n) * count
    → count ≡ levels
    → total % size_mod ≡ (4 + 32 + 32 + 8 + (32 * n + 8 + 8) * levels) % size_mod
single_size total n levels size count s e h = grind arith

-- A proof of type 0 with a root, a leaf and a complete path is written in one piece, in the layout of
-- that type, and the piece has `ProofSize` bytes, counted modulo 2^64.
pub write-single :
    (t : TreeProof) (r l : Node) (ps : List Opening) (o : Output)
    → Ready t r l ps
    → (write_proof 0 t o ≡ some (emit (single_bytes r l ps) o))
      × (length (single_bytes r l ps) % size_mod ≡ proof_size t.arity t.levels 0)
unfolding write_proof write_single proof_size
write-single t r l ps o h =
    let pre : List ℕ = le_bytes 4 0 in
    let ends : List ℕ = pre ++ (node_bytes r ++ node_bytes l) in
    let count : List ℕ = le_bytes 8 t.levels in
    let size = length-openings_bytes (sub64 t.arity 1) ps h.all_full in
    let run : write_single t (emit pre o) ≡ some (emit (ends ++ count ++ openings_bytes ps) o) =
      goes_on (write_ends t (emit pre o)) (emit ends o)
        (λ u. write_path t.levels 0 t.path (emit count u))
        (write_ends_lem t r l pre o h.root_is h.leaf_is)
      ∙ ap (write_path t.levels 0 t.path) (emit-append ends count o)
      ∙ write_path_lem t.arity t.levels 0 t.path ps [] (ends ++ count) o h.all_levels
          (h.path_is ∙ sym (append-nil (map (opened t.arity) ps))) h.all_full in
    (
      run ∙ ap (λ n. some (emit (ends ++ le_bytes 8 n ++ openings_bytes ps) o)) (sym h.all_levels),
      single_size (length (single_bytes r l ps)) (sub64 t.arity 1) t.levels
          (length (openings_bytes ps)) (length ps) (omega arith) size h.all_levels,
    )

-- the layout of a proof of type 1: all elements but the last, then the last, then the ends
abbrev pub sub_bytes : Node → Node → List Opening → Opening → List ℕ
sub_bytes r l base last =
    le_bytes 4 1
    ++ le_bytes 8 (length base)
    ++ openings_bytes base
    ++ le_bytes 8 1
    ++ openings_bytes (last ∷ [])
    ++ (node_bytes r ++ node_bytes l)

AllFull-left : (n : ℕ) (ps qs : List Opening) → AllFull n (ps ++ qs) → AllFull n ps
AllFull-left n [] qs h = tt
AllFull-left n (p ∷ ps) qs h = (h.0, AllFull-left n ps qs h.1)

AllFull-right : (n : ℕ) (ps qs : List Opening) → AllFull n (ps ++ qs) → AllFull n qs
AllFull-right n [] qs h = h
AllFull-right n (p ∷ ps) qs h = AllFull-right n ps qs h.1

map-append {ℓ κ} :
    {A : Type ℓ} {B : Type κ} (f : A → B) (xs ys : List A) → map f (xs ++ ys) ≡ map f xs ++ map f ys
map-append f [] ys = refl
map-append f (x ∷ xs) ys = ap (λ l. f x ∷ l) (map-append f xs ys)

drop-append {ℓ} : {A : Type ℓ} (xs ys : List A) → drop (length xs) (xs ++ ys) ≡ ys
drop-append [] ys = refl
drop-append (x ∷ xs) ys = drop-append xs ys

sub_size :
    (total n levels size last count : ℕ)
    → total ≡ 84 + size + last
    → size ≡ (16 + 32 * n) * count
    → last ≡ (16 + 32 * n) * 1
    → suc count ≡ levels
    → total % size_mod ≡ (4 + 32 + 32 + 8 + (32 * n + 8 + 8) * levels + 8) % size_mod
sub_size total n levels size last count s e f h = grind arith

-- A proof of type 1 with a root, a leaf and a complete path of at least one level is written in one
-- piece, in the layout of that type, and the piece has `ProofSize` bytes, counted modulo 2^64.
pub write-sub :
    (t : TreeProof) (r l : Node) (base : List Opening) (last : Opening) (o : Output)
    → Ready t r l (base ++ (last ∷ []))
    → t.levels < size_mod
    → (write_proof 1 t o ≡ some (emit (sub_bytes r l base last) o))
      × (length (sub_bytes r l base last) % size_mod ≡ proof_size t.arity t.levels 1)
unfolding write_proof write_sub proof_size
write-sub t r l base last o h small =
    let one : List Opening = last ∷ [] in
    let n : ℕ = sub64 t.arity 1 in
    let b1 = le_bytes 4 1 ++ le_bytes 8 (length base) in
    let b2 = b1 ++ openings_bytes base in
    let b3 = b2 ++ le_bytes 8 1 in
    let b4 = b3 ++ openings_bytes one in
    let levels : suc (length base) ≡ t.levels =
      omega (arith, h.all_levels, length-append base one) in
    let count : sub64 t.levels 1 ≡ length base = omega arith in
    let full = AllFull-left n base one h.all_full in
    let full1 = AllFull-right n base one h.all_full in
    let path : t.path ≡ map (opened t.arity) base ++ map (opened t.arity) one =
      h.path_is ∙ map-append (opened t.arity) base one in
    let at_last : drop (length base) t.path ≡ map (opened t.arity) one ++ [] =
      ap₂ drop (sym (length-map base (opened t.arity))) path
      ∙ drop-append (map (opened t.arity) base) (map (opened t.arity) one) in
    let tail : ℕ → Output → Option Output = λ i u.
      elim (write_path 1 i t.path (emit (le_bytes 8 1) u)) [
        | none ↦ none
        | some v ↦ write_ends t v
      ] in
    let run : write_sub t (emit (le_bytes 4 1) o)
        ≡ some (emit (b4 ++ (node_bytes r ++ node_bytes l)) o) =
      ap
        (λ m. elim (write_path m 0 t.path (emit (le_bytes 8 m) (emit (le_bytes 4 1) o))) [
          | none ↦ none
          | some u ↦ tail m u
        ])
        count
      ∙ ap
          (λ u. elim (write_path (length base) 0 t.path u) [
            | none ↦ none
            | some v ↦ tail (length base) v
          ])
          (emit-append (le_bytes 4 1) (le_bytes 8 (length base)) o)
      ∙ goes_on (write_path (length base) 0 t.path (emit b1 o)) (emit b2 o) (tail (length base)) (
          write_path_lem t.arity (length base) 0 t.path base (map (opened t.arity) one) b1 o refl
            path full)
      ∙ ap
          (λ u. elim (write_path 1 (length base) t.path u) [
            | none ↦ none
            | some v ↦ write_ends t v
          ])
          (emit-append b2 (le_bytes 8 1) o)
      ∙ goes_on (write_path 1 (length base) t.path (emit b3 o)) (emit b4 o) (write_ends t)
          (write_path_lem t.arity 1 (length base) t.path one [] b3 o refl at_last full1)
      ∙ write_ends_lem t r l b4 o h.root_is h.leaf_is in
    (
      run,
      sub_size (length (sub_bytes r l base last)) n t.levels (length (openings_bytes base))
          (length (openings_bytes one)) (length base)
          (omega (
            arith,
            length-append b4 (node_bytes r ++ node_bytes l),
            length-append b3 (openings_bytes one),
            length-append b2 (le_bytes 8 1),
            length-append b1 (openings_bytes base),
          ))
          (length-openings_bytes n base full) (length-openings_bytes n one full1) levels,
    )
