-- ===== src/Pc1/ParentIter/Walk.antt =====
-- Where the walk stands after any number of steps, and which node a parent id names.
use native.Mathlib.Nat.{one-le-pow}
use supra_seal.Prelude.{
  ℕ, zero, suc, ◌+◌, ◌-◌, ◌*◌, ◌/◌, ◌%◌, ◌^◌, ◌≤◌, ◌<◌, ◌≡◌, ◌⊎◌, refl, ◌∙◌, ap, arith, List,
  get_or, leb, ltb, ◌==◌, if◌then◌else◌, false, size_mod, ==_false, ℕ_discrete,
}
use supra_seal.Sealing.NodeId
use supra_seal.Sealing.NodeId.{node_id, increment}
use supra_seal.Sealing.NodeId.Fields.{node_value, layer_value, fields-node_id}
use supra_seal.Pc1.ParentIter.{
  ParentIter, start, bytes, parent_count, parent_size, restart, step, parent_id,
}

chosen_layer :
    (l parent : ℕ)
    → (if l == 0 then 0 else if leb 6 parent then l - 1 else l)
      ≡ (if ltb parent 6 then l else l - 1)
chosen_layer l parent = ground arith

module _ (bits : ℕ) where
  -- The pointer is at the entry of the current parent of the current node.
  pub record InStep (it : ParentIter) : Type 0 where
    pub parent_in : it.parent < parent_count
    pub at_entry : it.parent_ptr ≡ it.node % 2 ^ bits * parent_count + it.parent

  pub start-InStep : (id : ℕ) → id % 2 ^ bits ≡ 0 → InStep (start id)
  unfolding start
  start-InStep id h = record { parent_in = omega arith; at_entry = rw h }

  mod_next : (n p : ℕ) → 0 < p → ((n + 1) % p ≡ 0) ⊎ ((n + 1) % p ≡ n % p + 1)
  mod_next n p h = grind arith

  restart-off : (it : ParentIter) → (it.parent == 0) ≡ false → restart bits it ≡ it
  unfolding restart
  restart-off it e = ground arith

  restart-first :
      (id ptr : ℕ)
      → 2 ^ bits ≤ 2 ^ 32
      → restart bits (record { node = id; parent = 0; parent_ptr = ptr })
        ≡ record { node = id; parent = 0; parent_ptr = if id % 2 ^ bits == 0 then 0 else ptr }
  unfolding restart
  restart-first id ptr h = rw (node_value bits id h) (ground arith)

  -- A step within a node.
  step-within :
      (it : ParentIter)
      → it.parent + 1 < parent_count
      → step bits it
        ≡ record { node = it.node; parent = it.parent + 1; parent_ptr = it.parent_ptr + 1 }
  unfolding step
  step-within it h =
      let small : (it.parent + 1) % 2 ^ 32 ≡ it.parent + 1 = omega arith in
      rw (small, ==_false (it.parent + 1) parent_count (omega arith))
        (restart-off _ (==_false (it.parent + 1) 0 (omega arith)))

  -- A step from the last parent of a node.
  step-across :
      (it : ParentIter)
      → 2 ^ bits ≤ 2 ^ 32
      → it.node + 1 < size_mod
      → it.parent + 1 ≡ parent_count
      → step bits it ≡ record {
        node = it.node + 1;
        parent = 0;
        parent_ptr = if (it.node + 1) % 2 ^ bits == 0 then 0 else it.parent_ptr + 1;
      }
  unfolding step increment
  step-across it h k e =
      let small : (it.parent + 1) % 2 ^ 32 ≡ parent_count = omega arith in
      let up : (it.node + 1) % size_mod ≡ it.node + 1 = omega arith in
      rw (small, up) (restart-first (it.node + 1) (it.parent_ptr + 1) h)

  -- With at most 32 node bits, and an id that does not wrap, one step keeps the parent in range and
  -- the pointer at its entry: on to the next parent, from the last of a node to the first of the
  -- next, and from the last of a layer back to the start of the buffer.
  step-InStep :
      {it : ParentIter}
      → 2 ^ bits ≤ 2 ^ 32
      → it.node + 1 < size_mod
      → InStep it
      → InStep (step bits it)
  step-InStep {it} h k v = elim (ℕ_discrete (it.parent + 1) parent_count) [
    | no n ↦
        rw (step-within it (omega arith))
          (record { parent_in = omega arith; at_entry = omega arith })
    | yes e ↦ rw (step-across it h k e) (record {
      parent_in = omega arith;
      at_entry = ground (arith, v, mod_next it.node (2 ^ bits) (one-le-pow bits 2 (omega arith)));
    })
  ]

  -- `k` steps from a node on
  pub walk : ℕ → ℕ → ParentIter
  walk zero id = start id
  walk (suc k) id = step bits (walk k id)

  walk-InStep :
      (k id : ℕ)
      → 2 ^ bits ≤ 2 ^ 32
      → id % 2 ^ bits ≡ 0
      → id + k / parent_count + 1 < size_mod
      → ((walk k id).node ≡ id + k / parent_count)
        × ((walk k id).parent ≡ k % parent_count)
        × InStep (walk k id)
  unfolding start walk
  walk-InStep zero id h e w = (omega arith, refl, start-InStep id e)
  walk-InStep (suc k) id h e w =
      let (n, p, v) = walk-InStep k id h e (omega arith) in
      elim (ℕ_discrete ((walk k id).parent + 1) parent_count) [
        | no ne ↦ (
          ap (λ (it : ParentIter). it.node) (step-within (walk k id) (omega (arith, v)))
              ∙ omega arith,
          ap (λ (it : ParentIter). it.parent) (step-within (walk k id) (omega (arith, v)))
              ∙ omega arith,
          step-InStep h (omega arith) v,
        )
        | yes e ↦ (
          ap (λ (it : ParentIter). it.node) (step-across (walk k id) h (omega arith) e)
              ∙ omega arith,
          ap (λ (it : ParentIter). it.parent) (step-across (walk k id) h (omega arith) e)
              ∙ omega arith,
          step-InStep h (omega arith) v,
        )
      ]

  -- With at most 32 node bits, and ids that do not wrap, after `k` steps from the first node of a
  -- layer the walk stands at parent `k % 14` of the node `k / 14` further on, and the pointer is
  -- inside the buffer, at that parent's entry.
  pub walk_lem :
      (k id : ℕ)
      → 2 ^ bits ≤ 2 ^ 32
      → id % 2 ^ bits ≡ 0
      → id + k / parent_count + 1 < size_mod
      → let it = walk k id in
        (it.node ≡ id + k / parent_count)
        × (it.parent ≡ k % parent_count)
        × (it.parent_ptr ≡ it.node % 2 ^ bits * parent_count + it.parent)
        × (it.parent_ptr * parent_size < bytes (2 ^ bits))
  unfolding bytes
  walk_lem k id h e w =
      let (n, p, v) = walk-InStep k id h e w in
      let q : ℕ = (walk k id).node in
      let last : q % 2 ^ bits < 2 ^ bits = omega (arith, one-le-pow bits 2) in
      (n, p, v.at_entry, omega (arith, v))

  -- With at most 32 node bits, a 32-bit layer and an entry of the buffer that is a node, a parent's
  -- id is that node, in the layer before for the expander parents of any layer but the first, and
  -- in the same layer otherwise.
  parent_id-fields :
      (parent_buf : List ℕ) (it : ParentIter)
      → 2 ^ bits ≤ 2 ^ 32
      → it.node / 2 ^ bits < 2 ^ 32
      → get_or parent_buf it.parent_ptr 0 < 2 ^ bits
      → let l = it.node / 2 ^ bits in
        let id = parent_id bits parent_buf it in
        (NodeId.node bits id ≡ get_or parent_buf it.parent_ptr 0)
        × (NodeId.layer bits id ≡ (if ltb it.parent 6 then l else l - 1))
  unfolding parent_id
  parent_id-fields buf it h k b =
      let l = it.node / 2 ^ bits in
      let small : (if ltb it.parent 6 then l else l - 1) < 2 ^ 32 = ground arith in
      let fields =
        fields-node_id bits _ (get_or buf it.parent_ptr 0)
          (record { narrow = h; layer_fits = small; node_fits = b }) in
      rw (layer_value bits it.node k, chosen_layer l it.parent) (fields.1, fields.0)
