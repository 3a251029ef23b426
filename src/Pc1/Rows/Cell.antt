-- ===== src/Pc1/Rows/Cell.antt =====
-- What one write leaves, and one hash.
use supra_seal.Prelude.{
  ℕ, zero, suc, ◌+◌, ◌≤◌, ◌<◌, ◌≡◌, ◌≢◌, ◌⊎◌, inl, inr, refl, sym, ◌∙◌, ap, ap₂, arith, true, false,
  Option, none, some, List, [], ◌∷◌, length, get_elem?, set, length-set, get_elem?-set_self,
  get_elem?-set_ne, lt→ltb, if_on, if_off, if◌then◌else◌, Bool-cases, bind_some,
}
use supra_seal.Commit.Output.{Node}
use supra_seal.Commit.TreeProof.Tree.{from, sequence, parent}
use supra_seal.Pc1.Rows.{
  Region, input, output, scratch, same, Memory, Ptr, plus, read, write, read_nodes, hash_node,
}

same_self : (r : Region) → same r r ≡ true
same_self input = refl
same_self output = refl
same_self scratch = refl

same-ne : (p r : Region) → r ≢ p → same p r ≡ false
same-ne input input h = absurd (h refl)
same-ne input output h = refl
same-ne input scratch h = refl
same-ne output input h = refl
same-ne output output h = absurd (h refl)
same-ne output scratch h = refl
same-ne scratch input h = refl
same-ne scratch output h = refl
same-ne scratch scratch h = absurd (h refl)

pub record Written (m : Memory) (p : Ptr) (v : Node) (m' : Memory) : Type 0 where
  pub lengths : (r : Region) → length (m' r) ≡ length (m r)
  pub here : read m' p ≡ some v
  pub others :
      (r : Region) (i : ℕ) → (r ≢ p.region) ⊎ (i ≢ p.index) → get_elem? (m' r) i ≡ get_elem? (m r) i

module _ (m : Memory) (p : Ptr) (v : Node) where
  abbrev updated : Memory
  updated r = if same p.region r then set (m r) p.index v else m r

  lengths_of : (r : Region) → length (updated r) ≡ length (m r)
  lengths_of r = elim (Bool-cases (same p.region r)) [
    | inl e ↦ ap length (if_on _ _ e) ∙ length-set (m r) p.index v
    | inr e ↦ ap length (if_off _ _ e)
  ]

  others_of :
      (r : Region) (i : ℕ)
      → (r ≢ p.region) ⊎ (i ≢ p.index)
      → get_elem? (updated r) i ≡ get_elem? (m r) i
  others_of r i (inl h) = ap (λ xs. get_elem? xs i) (if_off _ _ (same-ne p.region r h))
  others_of r i (inr h) = elim (Bool-cases (same p.region r)) [
    | inl e ↦
        ap (λ xs. get_elem? xs i) (if_on _ _ e)
        ∙ get_elem?-set_ne (m r) {i = p.index} {j = i} v (λ q. h (sym q))
    | inr e ↦ ap (λ xs. get_elem? xs i) (if_off _ _ e)
  ]

  pub write-Written :
      p.index < length (m p.region) → (m' : Memory) × (write m p v ≡ some m') × Written m p v m'
  unfolding write
  write-Written h = (
    updated,
    if_on _ _ (lt→ltb _ _ h),
    record {
      lengths = lengths_of;
      here =
          ap (λ xs. get_elem? xs p.index) (if_on _ _ (same_self p.region))
          ∙ get_elem?-set_self (m p.region) p.index v h;
      others = others_of;
    },
  )

pub from_ext :
    (f g : ℕ → Option Node) (a b n : ℕ)
    → ((i : ℕ) → i < n → f (a + i) ≡ g (b + i))
    → from f a n ≡ from g b n
from_ext f g a b zero h = refl
from_ext f g a b (suc n) h =
    ap₂ (λ x xs. x ∷ xs) (ap f (omega arith) ∙ h 0 (omega arith) ∙ ap g (omega arith))
      (from_ext f g (suc a) (suc b) n
        (λ i q. ap f (omega arith) ∙ h (suc i) (omega arith) ∙ ap g (omega arith)))

pub get_elem?-some :
    (xs : List Node) (i : ℕ) → i < length xs → (v : Node) × (get_elem? xs i ≡ some v)
get_elem?-some [] i h = absurd (omega arith)
get_elem?-some (x ∷ xs) zero h = (x, refl)
get_elem?-some (x ∷ xs) (suc i) h = get_elem?-some xs i (omega arith)

-- Nodes inside an array are read, as the specification reads them.
read_nodes-some :
    (n : ℕ) (m : Memory) (p : Ptr)
    → p.index + n ≤ length (m p.region)
    → (vs : List Node) × (read_nodes n m p ≡ some vs)
      × (sequence (from (λ a. read m (plus p a)) 0 n) ≡ some vs)
unfolding read_nodes
read_nodes-some zero m p h = ([], refl, refl)
read_nodes-some (suc n) m p h =
    let (v, e) = get_elem?-some (m p.region) p.index (omega arith) in
    let (vs, read_rest, rest) = read_nodes-some n m (plus p 1) (omega arith) in
    let first : read m (plus p 0) ≡ some v = ap (get_elem? (m p.region)) (omega arith) ∙ e in
    let later : from (λ a. read m (plus (plus p 1) a)) 0 n ≡ from (λ a. read m (plus p a)) 1 n =
      from_ext _ _ 0 1 n (λ i q. ap (get_elem? (m p.region)) (omega arith)) in
    (
      v ∷ vs,
      bind_some (read m p) v _ e ∙ bind_some (read_nodes n m (plus p 1)) vs _ read_rest,
      ap₂ (λ x xs. sequence (x ∷ xs)) first (sym later)
          ∙ ap (λ o. elim o [ none ↦ none | some ys ↦ some (v ∷ ys) ]) rest,
    )

-- One node is hashed.
pub record Hashed (hash : List Node → Node) (arity : ℕ) (m : Memory) (dst src : Ptr) (m' : Memory)
    : Type 0 where
  pub runs : hash_node hash arity m dst src ≡ some m'
  pub lengths : (r : Region) → length (m' r) ≡ length (m r)
  pub here : read m' dst ≡ parent hash (from (λ a. read m (plus src a)) 0 arity)
  pub others :
      (r : Region) (i : ℕ)
      → (r ≢ dst.region) ⊎ (i ≢ dst.index)
      → get_elem? (m' r) i ≡ get_elem? (m r) i

pub hash_node-Hashed :
    (hash : List Node → Node) (arity : ℕ) (m : Memory) (dst src : Ptr)
    → src.index + arity ≤ length (m src.region)
    → dst.index < length (m dst.region)
    → (m' : Memory) × Hashed hash arity m dst src m'
unfolding hash_node parent
hash_node-Hashed hash arity m dst src hs hd =
    let (vs, e, q) = read_nodes-some arity m src hs in
    let (m', w, done) = write-Written m dst (hash vs) hd in
    (
      m',
      record {
        runs = bind_some (read_nodes arity m src) vs _ e ∙ w;
        lengths = done.lengths;
        here = done.here ∙ sym (ap (λ o. elim o [ none ↦ none | some ns ↦ some (hash ns) ]) q);
        others = done.others;
      },
    )
