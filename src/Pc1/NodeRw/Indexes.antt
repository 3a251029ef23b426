-- ===== src/Pc1/NodeRw/Indexes.antt =====
-- Where a node lies on the drives.
use native.Mathlib.Nat.{div-le_self, div-mul-le_self, div-add-mod', mod-eq_of_lt, mod-lt}
use supra_seal.Prelude.{ℕ, ◌+◌, ◌*◌, ◌/◌, ◌%◌, ◌<◌, ◌≡◌, arith, sub64, size_mod}
use supra_seal.Pc1.NodeRw.{nvme_node_indexes}

strided :
    (b num : ℕ)
    → 0 < num
    → b < size_mod
    → (sub64 b (b / num * num % size_mod) < num)
      × (b / num * num + sub64 b (b / num * num % size_mod) ≡ b)
strided b num h small =
    let e : b / num * num % size_mod ≡ b / num * num =
      mod-eq_of_lt (omega (arith, div-mul-le_self b num)) in
    let r : b % num < num = mod-lt b h in
    let d : b / num * num + b % num ≡ b = div-add-mod' b num in rw e (omega arith, omega arith)

-- The controller is one of the controllers, and the block of the node is given back by the controller
-- and the block on it, when there is a controller and the node is a `size_t`.
pub nvme_node_indexes-block :
    (nodes_per_page num_controllers node : ℕ)
    → 0 < num_controllers
    → node < size_mod
    → let (ctrl, block) = nvme_node_indexes nodes_per_page num_controllers node in
      (ctrl < num_controllers) × (block * num_controllers + ctrl ≡ node / nodes_per_page)
unfolding nvme_node_indexes
nvme_node_indexes-block npp num node h small =
    strided (node / npp) num h (omega (arith, div-le_self node npp))
