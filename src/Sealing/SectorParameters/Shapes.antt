-- ===== src/Sealing/SectorParameters/Shapes.antt =====
-- The sectors whose trees the proofs support.
use supra_seal.Prelude.{ℕ, ◌*◌, ◌^◌, ◌≡◌, ◌⊎◌, inl, inr, refl, arith, none, some, ◌%◌, ◌/◌}
use supra_seal.Commit.TreeProof.{log2_loop, log2}
use supra_seal.Commit.TreeProof.Tree.{top_of}
use supra_seal.Commit.ColumnProof.{Params}
use supra_seal.Commit.ColumnProof.Climb.{SplitShape}
use supra_seal.Sealing.SectorParameters.{
  Sector, sector, sub_arity, top_arity, discard_rows, tree_rc_levels, params,
}

-- `SectorSizeLg`, the sizes that the parameters are made for
pub data Size : Type 0 where
  sector2_kb : Size
  sector4_kb : Size
  sector16_kb : Size
  sector32_kb : Size
  sector8_mb : Size
  sector16_mb : Size
  sector512_mb : Size
  sector1_gb : Size
  sector32_gb : Size
  sector64_gb : Size

unfoldable pub sector_bytes : Size → ℕ
sector_bytes Size.sector2_kb = 2 ^ 11
sector_bytes Size.sector4_kb = 2 ^ 12
sector_bytes Size.sector16_kb = 2 ^ 14
sector_bytes Size.sector32_kb = 2 ^ 15
sector_bytes Size.sector8_mb = 2 ^ 23
sector_bytes Size.sector16_mb = 2 ^ 24
sector_bytes Size.sector512_mb = 2 ^ 29
sector_bytes Size.sector1_gb = 2 ^ 30
sector_bytes Size.sector32_gb = 2 ^ 35
sector_bytes Size.sector64_gb = 2 ^ 36

-- The tree has the sector's leaves, in one file with proofs of type 0, or in a file for each child of
-- the root with proofs of type 1.
pub record Shape (p : Params) (s : Sector) : Type 0 where
  pub all_leaves : p.tree_rc_arity ^ p.tree_rc_levels ≡ s.num_leaves
  pub node_ids : 2 ^ s.node_bits ≡ s.num_leaves
  pub files :
      ((p.tree_rc_files ≡ 1) × (p.tree_rc_config ≡ 0))
      ⊎ ((r : ℕ) × SplitShape p 3 r × (p.tree_rc_config ≡ 1))

abbrev split_params : ℕ → ℕ → Params
split_params layers levels = record {
  num_layers = layers;
  tree_rc_arity = 8;
  tree_rc_levels = levels;
  tree_rc_files = 8;
  tree_rc_config = 1;
}

abbrev file_params : ℕ → Params
file_params levels = record {
  num_layers = 2;
  tree_rc_arity = 8;
  tree_rc_levels = levels;
  tree_rc_files = 1;
  tree_rc_config = 0;
}

split_small : SplitShape (split_params 2 3) 3 2
unfolding top_of
split_small = record {
  arity_pow = refl;
  arity_big = omega arith;
  leaves_small = omega arith;
  file_each = refl;
  one_above = refl;
  some_below = omega arith;
  top_fits = omega arith;
}

split_large : SplitShape (split_params 11 10) 3 9
unfolding top_of
split_large = record {
  arity_pow = refl;
  arity_big = omega arith;
  leaves_small = omega arith;
  file_each = refl;
  one_above = refl;
  some_below = omega arith;
  top_fits = omega arith;
}

-- For each size of the enumeration, the assertions on the tree pass exactly when the bits of a node id
-- are a multiple of 3, the bits of an index in a node of the tree. When they pass, the tree has as many
-- leaves as the sector has nodes, which the node bits count, and it stands in one file with proofs of type
-- 0, or in a file for each child of the root, with proofs of type 1 and the shape that column proofs
-- need. When they fail, the levels that the quotient of the bits gives hold half as many leaves as the
-- sector has nodes.
pub params-Shape :
    (s : Size)
    → ((sector (sector_bytes s)).node_bits % 3 ≡ 0)
        × ((p : Params) × (params (sector_bytes s) ≡ some p) × Shape p (sector (sector_bytes s)))
      ⊎ ((sector (sector_bytes s)).node_bits % 3 ≡ 1)
        × (params (sector_bytes s) ≡ none)
        × (2 * 8 ^ ((sector (sector_bytes s)).node_bits / 3) ≡ (sector (sector_bytes s)).num_leaves)
unfolding params sector sub_arity top_arity discard_rows tree_rc_levels log2 log2_loop sector_bytes
params-Shape Size.sector2_kb = inl (
  refl,
  (file_params 2, refl, record { all_leaves = refl; node_ids = refl; files = inl (refl, refl) }),
)
params-Shape Size.sector4_kb = inr (refl, refl, refl)
params-Shape Size.sector16_kb = inl (
  refl,
  (
    split_params 2 3,
    refl,
    record { all_leaves = refl; node_ids = refl; files = inr (2, split_small, refl) },
  ),
)
params-Shape Size.sector32_kb = inr (refl, refl, refl)
params-Shape Size.sector8_mb = inl (
  refl,
  (file_params 6, refl, record { all_leaves = refl; node_ids = refl; files = inl (refl, refl) }),
)
params-Shape Size.sector16_mb = inr (refl, refl, refl)
params-Shape Size.sector512_mb = inl (
  refl,
  (file_params 8, refl, record { all_leaves = refl; node_ids = refl; files = inl (refl, refl) }),
)
params-Shape Size.sector1_gb = inr (refl, refl, refl)
params-Shape Size.sector32_gb = inl (
  refl,
  (
    split_params 11 10,
    refl,
    record { all_leaves = refl; node_ids = refl; files = inr (9, split_large, refl) },
  ),
)
params-Shape Size.sector64_gb = inr (refl, refl, refl)
