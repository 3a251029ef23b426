-- ===== src/Sealing/NodeId/Fields.antt =====
-- A node id and its two fields determine one another.
use native.Mathlib.Nat.{one-le-pow, mod-eq_of_lt, suc-mul}
use supra_seal.Prelude.{
  ℕ, suc, ◌+◌, ◌*◌, ◌/◌, ◌%◌, ◌^◌, ◌≤◌, ◌<◌, ◌≡◌, ◌∙◌, arith, ltb, ℕ_discrete, dec_lt, ==_true,
  ==_false, size_mod, bit_or-shl, bit_and-low, ◌==◌, if◌then◌else◌,
}
use supra_seal.Sealing.NodeId.{node_id, node, layer, less, increment}

div_fields : (l n p : ℕ) → n < p → (l * p + n) / p ≡ l
div_fields l n p h = grind arith

mod_fields : (l n p : ℕ) → n < p → (l * p + n) % p ≡ n
mod_fields l n p h = grind arith

pub word_fields : (l n p : ℕ) → n < p → p ≤ 2 ^ 32 → l < 2 ^ 32 → l * p + n < size_mod
word_fields l n p h q r = grind arith

row_order : (l k p : ℕ) → l < k → l * p + p ≤ k * p
row_order l k p h = grind arith

order_fields :
    (l n k m p : ℕ)
    → n < p
    → m < p
    → ltb (l * p + n) (k * p + m) ≡ (if l == k then ltb n m else ltb l k)
order_fields l n k m p h q = elim (dec_lt l k) [
  | yes b ↦ ground (arith, row_order l k p b)
  | no a ↦ elim (dec_lt k l) [
    | yes b ↦ ground (arith, row_order k l p b)
    | no c ↦ let e : l ≡ k = omega arith in rw e (ground arith)
  ]
]

module _ (bits : ℕ) where
  -- The fields fit: a node is one of `2 ^ bits`, and the id is a 64-bit word with a 32-bit layer.
  pub record Fits (l n : ℕ) : Type 0 where
    pub narrow : 2 ^ bits ≤ 2 ^ 32
    pub layer_fits : l < 2 ^ 32
    pub node_fits : n < 2 ^ bits

  pub id_value : (l n : ℕ) → Fits l n → node_id bits l n ≡ l * 2 ^ bits + n
  unfolding node_id
  id_value l n f =
      let small = word_fields l n (2 ^ bits) f.node_fits f.narrow f.layer_fits in
      let w : l * 2 ^ bits % size_mod ≡ l * 2 ^ bits = mod-eq_of_lt (omega (arith, small)) in
      rw w (bit_or-shl bits l n f.node_fits)

  pub node_value : (id : ℕ) → 2 ^ bits ≤ 2 ^ 32 → node bits id ≡ id % 2 ^ bits
  unfolding node
  node_value id h = rw (bit_and-low bits id) (mod-eq_of_lt (omega (arith, one-le-pow bits 2)))

  pub layer_value : (id : ℕ) → id / 2 ^ bits < 2 ^ 32 → layer bits id ≡ id / 2 ^ bits
  unfolding layer
  layer_value id h = omega arith

  -- With at most 32 node bits, a 32-bit layer and a node that fits, the accessors give back the
  -- layer and the node that an id was made of.
  pub fields-node_id :
      (l n : ℕ)
      → Fits l n
      → (layer bits (node_id bits l n) ≡ l) × (node bits (node_id bits l n) ≡ n)
  fields-node_id l n f =
      let dl = div_fields l n (2 ^ bits) f.node_fits in
      rw (id_value l n f) (
        layer_value (l * 2 ^ bits + n) (rw dl f.layer_fits) ∙ dl,
        node_value (l * 2 ^ bits + n) f.narrow ∙ mod_fields l n (2 ^ bits) f.node_fits,
      )

  -- With at most 32 node bits, every id whose layer fits 32 bits is made of its layer and its node.
  node_id-fields :
      (id : ℕ)
      → 2 ^ bits ≤ 2 ^ 32
      → id / 2 ^ bits < 2 ^ 32
      → node_id bits (layer bits id) (node bits id) ≡ id
  node_id-fields id h k =
      rw (node_value id h, layer_value id k)
        (id_value (id / 2 ^ bits) (id % 2 ^ bits)
            (record { narrow = h; layer_fits = k; node_fits = omega (arith, one-le-pow bits 2) })
          ∙ omega (arith, one-le-pow bits 2))

  -- With at most 32 node bits and a node that fits, and the next layer too a 32-bit one, the next
  -- id is the next node of the layer, or the first of the next layer after its last.
  fields-increment :
      (l n : ℕ)
      → Fits l n
      → suc l < 2 ^ 32
      → increment (node_id bits l n)
        ≡ (if suc n == 2 ^ bits then node_id bits (suc l) 0 else node_id bits l (suc n))
  unfolding increment
  fields-increment l n f h =
      let w = word_fields l n (2 ^ bits) f.node_fits f.narrow f.layer_fits in
      let w' = word_fields (suc l) 0 (2 ^ bits) (omega (arith, one-le-pow bits 2)) f.narrow h in
      elim (ℕ_discrete (suc n) (2 ^ bits)) [
        | yes e ↦
            rw
              (
                id_value l n f,
                id_value (suc l) 0 (record {
                  narrow = f.narrow;
                  layer_fits = h;
                  node_fits = omega (arith, one-le-pow bits 2);
                }),
              )
              (rw (==_true _ _ e) (omega (arith, suc-mul l (2 ^ bits))))
        | no ne ↦
            rw
              (
                id_value l n f,
                id_value l (suc n) (record {
                  narrow = f.narrow;
                  layer_fits = f.layer_fits;
                  node_fits = omega arith;
                }),
              )
              (rw (==_false _ _ ne) (omega (arith, suc-mul l (2 ^ bits))))
      ]

  -- With at most 32 node bits, 32-bit layers and nodes that fit, ids are ordered by layer, then by
  -- node.
  less_lem :
      (l n k m : ℕ)
      → Fits l n
      → Fits k m
      → less (node_id bits l n) (node_id bits k m) ≡ (if l == k then ltb n m else ltb l k)
  unfolding less
  less_lem l n k m f g =
      rw (id_value l n f, id_value k m g) (order_fields l n k m (2 ^ bits) f.node_fits g.node_fits)
