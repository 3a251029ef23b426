-- ===== src/Commit/TreeProof/First.antt =====
-- `PerformFirstLevels` of c1/tree_proof.hpp: where the lowest rows of a tree were discarded, the first
-- levels of the path come from the leaves around the challenge, whose parents are hashed again.
-- `hash` is `Poseidon::Hash`. An entry of `path_buf_` is written once, so a pointer to it is the node.
pub mod Steps
pub mod Places
pub mod Climb
pub mod Whole
use supra_seal.Prelude.{
  ℕ, zero, suc, ◌+◌, ◌-◌, ◌*◌, ◌/◌, ◌^◌, Option, none, some, Bool, true, false, List, [], ◌∷◌, ◌++◌,
  get_elem?, get_or, sub64, bit_and, not64, ◌==◌, if◌then◌else◌,
}
use supra_seal.Commit.Output.{Node}
use supra_seal.Commit.PathElement.{construct}
use supra_seal.Commit.TreeProof.{
  TreeProof, log2, shift, set_leaf, set_others, modify, add_level, gen_from, gen_inclusion_path,
  get_tree_paths,
}
use supra_seal.Commit.TreeProof.Tree.{from, parent}

-- `leaf_start` of the first level
unfoldable pub first_start : ℕ → TreeProof → ℕ
first_start challenge t =
    bit_and (bit_and challenge (not64 (sub64 t.arity 1))) (sub64 (t.arity ^ (t.discard_rows + 1)) 1)

module _ (hash : List Node → Node) where
  -- `p.Hash(…, first_level + start)`, of `arity` nodes
  unfoldable pub hash_at : ℕ → List Node → ℕ → Option Node
  unfolding parent
  hash_at arity first_level start =
      parent hash (from (λ a. get_elem? first_level (start + a)) 0 arity)

  -- the hash of the hashes, over `a_i`
  unfoldable pub hash_two : ℕ → List Node → ℕ → Option Node
  unfolding parent hash_at
  hash_two arity first_level a_o =
      parent hash
        (from (λ a_i. hash_at arity first_level (a_o * arity * arity + a_i * arity)) 0 arity)

  -- the first two levels; the numbers are `leaf_start` of each
  unfoldable pub two_levels : ℕ → ℕ → List Node → List ℕ → TreeProof → TreeProof
  unfolding add_level set_leaf hash_at
  two_levels start second first_level indices t =
      let i0 : ℕ = get_or indices 0 0 in
      add_level 1 (get_or indices 1 0) (λ a. hash_at t.arity first_level (second + a * t.arity))
        (add_level 0 i0 (λ a. get_elem? first_level (start + a))
          (set_leaf (get_elem? first_level (start + i0)) t))

  -- the third, where `leaf_start` is the node to skip
  unfoldable pub third_level : ℕ → List Node → List ℕ → TreeProof → TreeProof
  unfolding modify set_others construct hash_two
  third_level skip first_level indices t = record t {
    path =
        modify 2 (set_others (hash_two t.arity first_level) skip t.arity 0 0)
          (t.path ++ (construct t.arity (get_or indices 2 0) ∷ []));
  }

  -- whether the path is complete, and the proof
  unfoldable pub perform_first_levels : ℕ → List Node → List ℕ → TreeProof → Bool × TreeProof
  unfolding first_start two_levels third_level shift log2
  perform_first_levels challenge first_level indices t =
      let start : ℕ = first_start challenge t in
      let second : ℕ = bit_and start (not64 (sub64 (t.arity * t.arity) 1)) in
      let u : TreeProof = two_levels start second first_level indices t in
      if t.levels == 2 then (true, u) else (
        t.levels == 3,
        third_level (shift second (log2 (t.arity * t.arity))) first_level indices u,
      )

  -- `GenInclusionPath`; no first level is the null pointer
  unfoldable pub gen_path : ℕ → Option (List Node) → TreeProof → TreeProof
  unfolding perform_first_levels gen_from gen_inclusion_path get_tree_paths log2
  gen_path challenge none t = gen_inclusion_path challenge t
  gen_path challenge (some first_level) t =
      let indices : List ℕ = get_tree_paths t challenge in
      let (done, u) = perform_first_levels challenge first_level indices t in
      if done
      then u
      else gen_from challenge 3
          (2 ^ (sub64 t.levels (t.discard_rows + 1) * log2 t.arity) / t.tree_bufs_len) indices u
