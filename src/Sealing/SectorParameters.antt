-- ===== src/Sealing/SectorParameters.antt =====
-- `SectorParameters` of sealing/sector_parameters.hpp: the numbers that follow from a sector's size.
pub mod Shapes
use supra_seal.Prelude.{
  ℕ, suc, ◌+◌, ◌-◌, ◌*◌, ◌/◌, ◌^◌, Bool, ◌&&◌, ◌||◌, not, Option, none, some, leb, ltb, ◌==◌,
  if◌then◌else◌,
}
use supra_seal.Commit.TreeProof.{log2}
use supra_seal.Commit.ColumnProof.{Params}

abbrev pub kb : ℕ
kb = 1024

abbrev pub mb : ℕ
mb = kb * 1024

abbrev pub gb : ℕ
gb = mb * 1024

pub record Sector : Type 0 where
  pub node_bits : ℕ
  pub num_challenges : ℕ
  pub num_partitions : ℕ
  pub num_layers : ℕ
  pub num_leaves : ℕ
  pub tree_d_levels : ℕ
  pub tree_rc_config : ℕ
  pub tree_rc_base_arity : ℕ
  pub tree_rc_sub_arity : ℕ
  pub tree_rc_top_arity : ℕ
  pub tree_r_discard_rows : ℕ
  pub tree_rc_files : ℕ
  pub tree_r_labels : ℕ

unfoldable pub sub_arity : ℕ → ℕ
sub_arity size =
    if size == 2 * kb || size == 8 * mb || size == 512 * mb
    then 0
    else if size == 4 * kb || size == 16 * mb || size == 1 * gb
    then 2
    else 8

unfoldable pub top_arity : ℕ → ℕ
top_arity size = if size == 32 * kb || size == 64 * gb then 2 else 0

unfoldable pub discard_rows : ℕ → ℕ
discard_rows size = if leb size (32 * kb) then 1 else 2

-- `63 - __builtin_clzll(size)` is the whole part of the logarithm.
unfoldable pub sector : ℕ → Sector
unfolding sub_arity top_arity discard_rows log2
sector size = record {
  node_bits = log2 size - 5;
  num_challenges = if leb size gb then 2 else 180;
  num_partitions = if leb size gb then 1 else 10;
  num_layers = if leb size gb then 2 else 11;
  num_leaves = size / 32;
  tree_d_levels = log2 (size / 32);
  tree_rc_config =
      if size == 2 * kb || size == 8 * mb || size == 512 * mb
      then 0
      else if size == 32 * kb || size == 64 * gb
      then 2
      else 1;
  tree_rc_base_arity = 8;
  tree_rc_sub_arity = sub_arity size;
  tree_rc_top_arity = top_arity size;
  tree_r_discard_rows = discard_rows size;
  tree_rc_files =
      if top_arity size == 0 && sub_arity size == 0
      then 1
      else if ltb 0 (top_arity size)
      then top_arity size * sub_arity size
      else sub_arity size;
  tree_r_labels = 8 ^ (discard_rows size + 1);
}

-- `GetNumTreeRCLevels`; `none` is a failed assertion
unfoldable pub tree_rc_levels : Sector → Option ℕ
unfolding log2
tree_rc_levels s =
    if s.tree_rc_top_arity == 0 && not (s.tree_rc_sub_arity == 2)
    then some (log2 s.num_leaves / log2 s.tree_rc_base_arity)
    else none

-- what a column proof reads of them
unfoldable pub params : ℕ → Option Params
unfolding sector tree_rc_levels
params size =
    let s : Sector = sector size in
    elim (tree_rc_levels s) [
      | none ↦ none
      | some levels ↦ some (record {
        num_layers = s.num_layers;
        tree_rc_arity = s.tree_rc_base_arity;
        tree_rc_levels = levels;
        tree_rc_files = s.tree_rc_files;
        tree_rc_config = s.tree_rc_config;
      })
    ]
