-- ===== src/Tests/Ids.antt =====
-- The node ids of sealing/data_structures.hpp, the sector parameters, and the parent iterator of pc1.
use supra_seal.Prelude.{◌+◌, ◌*◌, ◌/◌, ◌%◌, ◌^◌, ◌<◌, ◌≡◌, ◌⊎◌, refl, arith, none, some}
use supra_seal.Sealing.NodeId
use supra_seal.Commit.ColumnProof.{Params}
use supra_seal.Sealing.SectorParameters.{sector, params}
use supra_seal.Sealing.SectorParameters.Shapes.{Size, sector_bytes, Shape, params-Shape}
use supra_seal.Sealing.NodeId.{node_id, less, increment}
use supra_seal.Sealing.NodeId.Fields.{Fits, fields-node_id}
use supra_seal.Pc1.ParentIter.{ParentIter, bytes, step, parent_count, parent_size}
use supra_seal.Pc1.ParentIter.Walk.{walk, walk_lem}

-- 2048 bytes a sector: 64 nodes a layer
Fits-last : Fits 6 1 63
Fits-last = record { narrow = omega arith; layer_fits = omega arith; node_fits = omega arith }

Fits-next : Fits 6 2 5
Fits-next = record { narrow = omega arith; layer_fits = omega arith; node_fits = omega arith }

fields-node_id_example :
    (NodeId.layer 6 (node_id 6 1 63) ≡ 1) × (NodeId.node 6 (node_id 6 1 63) ≡ 63)
fields-node_id_example = fields-node_id 6 1 63 Fits-last

-- the last parent of the last node of the first layer
abbrev last_parent : ParentIter
last_parent = record { node = 63; parent = 13; parent_ptr = 895 }

step_wraps : step 6 last_parent ≡ record { node = 64; parent = 0; parent_ptr = 0 }
unfolding step NodeId.node increment
step_wraps = refl

walk_lem_example :
    let it = walk 6 900 64 in
    (it.node ≡ 128)
    × (it.parent ≡ 4)
    × (it.parent_ptr ≡ it.node % 64 * parent_count + it.parent)
    × (it.parent_ptr * parent_size < bytes 64)
walk_lem_example = walk_lem 6 900 64 (omega arith) refl (omega arith)

params-Shape_example :
    ((sector (2 ^ 35)).node_bits % 3 ≡ 0)
      × ((p : Params) × (params (2 ^ 35) ≡ some p) × Shape p (sector (2 ^ 35)))
    ⊎ ((sector (2 ^ 35)).node_bits % 3 ≡ 1)
      × (params (2 ^ 35) ≡ none)
      × (2 * 8 ^ ((sector (2 ^ 35)).node_bits / 3) ≡ (sector (2 ^ 35)).num_leaves)
unfolding sector_bytes
params-Shape_example = params-Shape Size.sector32_gb
