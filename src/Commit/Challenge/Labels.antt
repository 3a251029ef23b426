-- ===== src/Commit/Challenge/Labels.antt =====
-- The labels that the proofs of a challenge read are those of the challenge and its parents.
use supra_seal.Prelude.{
  ℕ, zero, suc, ◌+◌, ◌-◌, ◌*◌, ◌/◌, ◌%◌, ◌<◌, ◌≤◌, ◌≡◌, refl, ◌∙◌, ap, ap₂, arith, some, none,
  false, List, [], ◌∷◌, ◌++◌, length, length-append, get_elem?, get_or, dec_lt, goes_on,
}
use supra_seal.Sealing.SectorParameters.{Sector}
use supra_seal.Commit.Output.{Node}
use supra_seal.Commit.TreeProof.Tree.{from}
use supra_seal.Commit.ColumnProof.{Params, column_label, column}
use supra_seal.Commit.LabelProof.{label_at}
use supra_seal.Commit.NodeReader.{Reader, alloc_slots, free_slots, load_nodes, get_node}
use supra_seal.Commit.Challenge.{
  Challenge, pairs_of, requests, fetch, get_nodes, column_of, label_proof_of,
}

-- the challenge and its parents, in the order of their labels
abbrev pub ids : Challenge → List ℕ
ids c = c.challenge ∷ (c.drg_parents ++ c.exp_parents)

get_elem?-left {ℓ} :
    {A : Type ℓ} (xs ys : List A) (i : ℕ) → i < length xs → get_elem? (xs ++ ys) i ≡ get_elem? xs i
get_elem?-left [] ys i h = elim h [ ]
get_elem?-left (x ∷ xs) ys zero h = refl
get_elem?-left (x ∷ xs) ys (suc i) h = get_elem?-left xs ys i (omega arith)

get_elem?-right {ℓ} :
    {A : Type ℓ} (xs ys : List A) (i j : ℕ)
    → i ≡ length xs + j
    → get_elem? (xs ++ ys) i ≡ get_elem? ys j
get_elem?-right [] ys i j h = ap (get_elem? ys) (omega (arith, h))
get_elem?-right (x ∷ xs) ys zero j h = absurd (omega (arith, h))
get_elem?-right (x ∷ xs) ys (suc i) j h = get_elem?-right xs ys i j (omega (arith, h))

length-pairs_of : (l : ℕ) (ps : List ℕ) → length (pairs_of l ps) ≡ length ps
unfolding pairs_of
length-pairs_of l [] = refl
length-pairs_of l (p ∷ ps) = ap suc (length-pairs_of l ps)

pairs_of-append : (l : ℕ) (xs ys : List ℕ) → pairs_of l xs ++ pairs_of l ys ≡ pairs_of l (xs ++ ys)
unfolding pairs_of
pairs_of-append l [] ys = refl
pairs_of-append l (x ∷ xs) ys = ap (λ ps. (l, x) ∷ ps) (pairs_of-append l xs ys)

get_elem?-pairs_of :
    (l : ℕ) (ps : List ℕ) (i : ℕ)
    → i < length ps
    → get_elem? (pairs_of l ps) i ≡ some (l, get_or ps i 0)
unfolding pairs_of
get_elem?-pairs_of l [] i h = elim h [ ]
get_elem?-pairs_of l (p ∷ ps) zero h = refl
get_elem?-pairs_of l (p ∷ ps) (suc i) h = get_elem?-pairs_of l ps i (omega arith)

pub get_elem?-from {ℓ} :
    {A : Type ℓ} (f : ℕ → A) (a n i : ℕ) → i < n → get_elem? (from f a n) i ≡ some (f (a + i))
get_elem?-from f a zero i h = elim h [ ]
get_elem?-from f a (suc n) zero h = ap (λ k. some (f k)) (omega arith)
get_elem?-from f a (suc n) (suc i) h =
    get_elem?-from f (suc a) n i (omega arith) ∙ ap (λ k. some (f k)) (omega arith)

fetch-from :
    (pairs : List (ℕ × ℕ)) (r : Reader) (f : ℕ → Node) (n i : ℕ)
    → ((j : ℕ) → i ≤ j → j < i + n → get_node pairs j r ≡ some (f j))
    → fetch pairs r n i ≡ some (from f i n)
unfolding fetch
fetch-from pairs r f zero i h = refl
fetch-from pairs r f (suc n) i h =
    let rest = fetch-from pairs r f n (suc i) (λ j p q. h j (omega arith) (omega arith)) in
    goes_on (get_node pairs i r) (f i)
      (λ x. elim (fetch pairs r n (suc i)) [ none ↦ none | some xs ↦ some (x ∷ xs) ])
      (h i (omega arith) (omega arith))
    ∙ goes_on (fetch pairs r n (suc i)) (from f (suc i) n) (λ xs. some (f i ∷ xs)) rest

module _ (c : Challenge) (all : length (ids c) ≡ 15) where
  requests-suc : (n l : ℕ) → requests c (suc n) l ≡ pairs_of l (ids c) ++ requests c n (suc l)
  unfolding requests pairs_of
  requests-suc n l =
      ap (λ ps. ((l, c.challenge) ∷ ps) ++ requests c n (suc l))
        (pairs_of-append l c.drg_parents c.exp_parents)

  length-requests : (n l : ℕ) → length (requests c n l) ≡ n * 15
  unfolding requests
  length-requests zero l = refl
  length-requests (suc n) l =
      ap length (requests-suc n l)
      ∙ length-append (pairs_of l (ids c)) (requests c n (suc l))
      ∙ omega (arith, length-pairs_of l (ids c), length-requests n (suc l), all)

  get_elem?-requests :
      (n l i : ℕ)
      → i < n * 15
      → get_elem? (requests c n l) i ≡ some (l + i / 15, get_or (ids c) (i % 15) 0)
  get_elem?-requests zero l i h = absurd (omega arith)
  get_elem?-requests (suc n) l i h = elim (dec_lt i 15) [
    | yes p ↦
        let wide : i < length (pairs_of l (ids c)) =
          omega (arith, length-pairs_of l (ids c), all) in
        let e : l ≡ l + i / 15 = omega arith in
        let m : i ≡ i % 15 = omega arith in
        ap (λ ps. get_elem? ps i) (requests-suc n l)
        ∙ get_elem?-left (pairs_of l (ids c)) (requests c n (suc l)) i wide
        ∙ get_elem?-pairs_of l (ids c) i (omega (arith, all))
        ∙ ap₂ (λ x y. some (x, get_or (ids c) y 0)) e m
    | no p ↦
        let j : ℕ = i - 15 in
        let e : suc l + j / 15 ≡ l + i / 15 = omega arith in
        let m : j % 15 ≡ i % 15 = omega arith in
        ap (λ ps. get_elem? ps i) (requests-suc n l)
        ∙ get_elem?-right (pairs_of l (ids c)) (requests c n (suc l)) i j
            (omega (arith, length-pairs_of l (ids c), all))
        ∙ get_elem?-requests n (suc l) j (omega arith)
        ∙ ap₂ (λ x y. some (x, get_or (ids c) y 0)) e m
  ]

  -- With fifteen ids that all have a label in every layer file, `GetNodes` succeeds, and then, in
  -- every layer: the column proof of the `i`-th id reads the label of that id, and the label proofs
  -- read those of the parents.
  pub labels_read :
      (nodes_per_page : ℕ) (sector : Sector) (params : Params) (reader : Reader)
      (bufs : List (List Node)) (label : ℕ → ℕ → Node)
      → ((l i : ℕ)
          → l < sector.num_layers
          → i < 15
          → get_elem? (get_or reader.layer_files l []) (get_or (ids c) i 0)
            ≡ some (label l (get_or (ids c) i 0)))
      → (r : Reader) × (d : Challenge) × (get_nodes nodes_per_page sector reader c ≡ some (r, d))
        × ((l i : ℕ)
            → l < sector.num_layers
            → i < 15
            → column_label (column_of params bufs d (get_or (ids c) i 0) i) l
              ≡ some (label l (get_or (ids c) i 0)))
        × ((l i : ℕ)
            → l < sector.num_layers
            → i < 14
            → label_at (label_proof_of params d) l i ≡ some (label l (get_or (ids c) (i + 1) 0)))
  unfolding get_nodes alloc_slots load_nodes column_label column_of column label_at label_proof_of
      get_node
  labels_read nodes_per_page sector params reader bufs label there =
      let pairs : List (ℕ × ℕ) = requests c sector.num_layers 0 in
      let r : Reader = alloc_slots nodes_per_page 1 (length pairs) false reader in
      let f : ℕ → Node = λ i. label (i / 15) (get_or (ids c) (i % 15) 0) in
      let n : ℕ = sector.num_layers * 15 in
      let read : (j : ℕ) → 0 ≤ j → j < 0 + n → get_node pairs j r ≡ some (f j) = λ j p q.
        goes_on (get_elem? pairs j) (0 + j / 15, get_or (ids c) (j % 15) 0)
          (λ x. get_elem? (get_or reader.layer_files (x.0) []) (x.1))
          (get_elem?-requests sector.num_layers 0 j (omega arith))
        ∙ ap (λ l. get_elem? (get_or reader.layer_files l []) (get_or (ids c) (j % 15) 0))
            (omega arith)
        ∙ there (j / 15) (j % 15) (omega arith) (omega arith) in
      let fetched : fetch pairs r (length pairs) 0 ≡ some (from f 0 n) =
        ap (λ m. fetch pairs r m 0) (length-requests sector.num_layers 0)
        ∙ fetch-from pairs r f n 0 read in
      let at : (l i : ℕ)
          → l < sector.num_layers
          → i < 15
          → get_elem? (from f 0 n) (i + l * 15) ≡ some (label l (get_or (ids c) i 0)) =
        λ l i p q.
          get_elem?-from f 0 n (i + l * 15) (omega arith)
          ∙ ap₂ (λ x y. some (label x (get_or (ids c) y 0))) (omega arith) (omega arith) in
      (
        free_slots r,
        record c { nodes = from f 0 n },
        goes_on (fetch pairs r (length pairs) 0) (from f 0 n)
            (λ ns. some (free_slots r, record c { nodes = ns })) fetched,
        at,
        λ l i p q. at l (i + 1) p (omega arith),
      )
