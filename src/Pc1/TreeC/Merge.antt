-- ===== src/Pc1/TreeC/Merge.antt =====
-- The columns of tree C: the labels of a node in all layers stand next to each other.
use native.Mathlib.Nat.{zero-add, suc-mul, mul-le-mul_right, mul_comm}
use supra_seal.Prelude.{
  ℕ, zero, suc, ◌+◌, ◌*◌, ◌≤◌, ◌<◌, ◌≡◌, ◌≢◌, ◌⊎◌, inl, inr, refl, sym, ◌∙◌, ap, arith, some, List,
  [], ◌∷◌, length, get_elem?, get_or, set, bind_some, length-set, length-replicate,
  get_elem?-set_self, get_elem?-set_ne, dec_lt, replicate,
}
use supra_seal.Commit.Output.{Node}
use supra_seal.Pc1.Rows.Cell.{get_elem?-some}
use supra_seal.Pc1.TreeD.{zero_node}
use supra_seal.Pc1.TreeC.{merge_layer, merge_layers, leaves_of}

-- Different rows do not meet.
row-lt : (w i j k l : ℕ) → i < j → k < w → i * w + k < j * w + l
row-lt w i j k l h hk = omega (arith, suc-mul i w, mul-le-mul_right {m = suc i} {n = j} w h)

-- Nor do different columns.
places-ne : (w i j k l : ℕ) → k < w → l < w → (k ≢ l) ⊎ (j < i) → i * w + l ≢ j * w + k
places-ne w i j k l hk hl (inr h) e = absurd (omega (arith, e, row-lt w j i k l h hk))
places-ne w i j k l hk hl (inl h) e = elim (dec_lt i j) [
  | yes p ↦ absurd (omega (arith, e, row-lt w i j l k p hl))
  | no p ↦ elim (dec_lt j i) [
    | yes q ↦ absurd (omega (arith, e, row-lt w j i k l q hk))
    | no q ↦ let same : i ≡ j = omega (arith, p, q) in h (omega (arith, e, ap (λ x. x * w) same))
  ]
]

module _ (w : ℕ) where
  -- A layer has been put in column `k`, from row `i` on.
  record Merged (k i n : ℕ) (layer before after : List Node) : Type 0 where
    same_size : length after ≡ length before
    put : (j : ℕ) → i ≤ j → j < i + n → get_elem? after (j * w + k) ≡ get_elem? layer j
    others :
        (j l : ℕ)
        → l < w
        → (l ≢ k) ⊎ (j < i)
        → get_elem? after (j * w + l) ≡ get_elem? before (j * w + l)

  merge_layer-Merged :
      (k n i : ℕ) (layer merged : List Node)
      → k < w
      → i + n ≤ length layer
      → (i + n) * w ≤ length merged
      → (after : List Node) × (merge_layer w k layer n i merged ≡ some after)
        × Merged k i n layer merged after
  unfolding merge_layer
  merge_layer-Merged k zero i layer merged hk hl hm = (
    merged,
    refl,
    record { same_size = refl; put = λ j lo hi. absurd (omega arith); others = λ j l h q. refl },
  )
  merge_layer-Merged k (suc n) i layer merged hk hl hm =
      let (v, e) = get_elem?-some layer i (omega arith) in
      let place : ℕ = i * w + k in
      let next : List Node = set merged place v in
      let len : length next ≡ length merged = length-set merged place v in
      let inside : place < length merged =
        omega (arith, suc-mul i w, mul-le-mul_right {m = suc i} {n = i + suc n} w (omega arith)) in
      let more : suc i + n ≡ i + suc n = omega arith in
      let (after, run, rest) =
        merge_layer-Merged k n (suc i) layer next hk (omega arith)
          (omega (arith, len, ap (λ x. x * w) more)) in
      (
        after,
        bind_some _ v _ e ∙ run,
        record {
          same_size = rest.same_size ∙ len;
          put = λ j lo hi. elim (dec_lt i j) [
            | yes p ↦ rest.put j p (omega arith)
            | no p ↦
                let here : j ≡ i = omega (arith, p) in
                ap (λ x. get_elem? after (x * w + k)) here
                ∙ rest.others i k hk (inr (omega arith))
                ∙ get_elem?-set_self merged place v inside
                ∙ sym e
                ∙ ap (get_elem? layer) (sym here)
          ];
          others = λ j l h q.
              rest.others j l h (later j l q)
              ∙ get_elem?-set_ne merged {i = place} {j = j * w + l} v (places-ne w i j l k h hk q);
        },
      )
    where
      later : (j l : ℕ) → (l ≢ k) ⊎ (j < i) → (l ≢ k) ⊎ (j < suc i)
      later j l (inl h) = inl h
      later j l (inr h) = inr (omega arith)

  -- All layers from the `k`-th on have been put in their columns.
  record AllMerged (k n : ℕ) (layers : List (List Node)) (before after : List Node) : Type 0 where
    same_size : length after ≡ length before
    put :
        (j l : ℕ)
        → j < n
        → l < length layers
        → get_elem? after (j * w + (k + l)) ≡ get_elem? (get_or layers l []) j
    others : (j l : ℕ) → l < k → get_elem? after (j * w + l) ≡ get_elem? before (j * w + l)

  merge_layers-AllMerged :
      (n k : ℕ) (layers : List (List Node)) (merged : List Node)
      → k + length layers ≡ w
      → n * w ≤ length merged
      → ((l : ℕ) → l < length layers → n ≤ length (get_or layers l []))
      → (after : List Node) × (merge_layers w n k layers merged ≡ some after)
        × AllMerged k n layers merged after
  unfolding merge_layers
  merge_layers-AllMerged n k [] merged hk hm long = (
    merged,
    refl,
    record { same_size = refl; put = λ j l hj hl. absurd (omega arith); others = λ j l h. refl },
  )
  merge_layers-AllMerged n k (layer ∷ layers) merged hk hm long =
      let whole : (0 + n) * w ≤ length merged = omega (arith, ap (λ x. x * w) (zero-add n)) in
      let (first, run, m1) =
        merge_layer-Merged k n 0 layer merged (omega arith) (omega (arith, long 0 (omega arith)))
          whole in
      let (after, run', m2) =
        merge_layers-AllMerged n (suc k) layers first (omega arith) (omega (arith, m1.same_size))
          (λ l h. long (suc l) (omega arith)) in
      (
        after,
        bind_some _ first _ run ∙ run',
        record {
          same_size = m2.same_size ∙ m1.same_size;
          put = put first after m1 m2;
          others = λ j l h.
              m2.others j l (omega arith)
              ∙ m1.others j l (omega arith) (inl (λ e. absurd (omega (arith, e))));
        },
      )
    where
      put :
          (first after : List Node)
          → Merged k 0 n layer merged first
          → AllMerged (suc k) n layers first after
          → (j l : ℕ) → j < n
          → l < suc (length layers)
          → get_elem? after (j * w + (k + l)) ≡ get_elem? (get_or (layer ∷ layers) l []) j
      put first after m1 m2 j zero hj hl =
          ap (get_elem? after) (omega arith)
          ∙ m2.others j k (omega arith)
          ∙ m1.put j (omega arith) (omega arith)
      put first after m1 m2 j (suc l) hj hl =
          ap (get_elem? after) (omega arith) ∙ m2.put j l hj (omega arith)

-- The array of leaves has the labels of a node, layer by layer, next to each other.
pub leaves_of-columns :
    (nodes : ℕ) (layers : List (List Node))
    → ((l : ℕ) → l < length layers → nodes ≤ length (get_or layers l []))
    → (leaves : List Node) × (leaves_of nodes layers ≡ some leaves)
      × (length leaves ≡ length layers * nodes)
      × ((j l : ℕ)
          → j < nodes
          → l < length layers
          → get_elem? leaves (length layers * j + l) ≡ get_elem? (get_or layers l []) j)
unfolding leaves_of
leaves_of-columns nodes layers long =
    let w : ℕ = length layers in
    let fresh : List Node = replicate (w * nodes) zero_node in
    let len : length fresh ≡ w * nodes = length-replicate (w * nodes) zero_node in
    let (leaves, run, m) =
      merge_layers-AllMerged w nodes 0 layers fresh (omega arith)
        (omega (arith, len, mul_comm w nodes)) long in
    (
      leaves,
      run,
      m.same_size ∙ len,
      λ j l hj hl. ap (get_elem? leaves) (omega (arith, mul_comm w j)) ∙ m.put j l hj hl,
    )
