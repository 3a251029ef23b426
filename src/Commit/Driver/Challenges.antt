-- ===== src/Commit/Driver/Challenges.antt =====
-- The challenges that are derived from the seed.
use native.Mathlib.Nat.{suc-mul, mod-lt, mul-le-mul_right}
use supra_seal.Prelude.{
  ℕ, zero, suc, ◌+◌, ◌-◌, ◌*◌, ◌%◌, ◌^◌, ◌<◌, ◌≤◌, ◌≡◌, refl, sym, ◌∙◌, ap, arith, Option, none,
  some, false, List, [], ◌∷◌, ◌++◌, ◌/◌, replicate, ltb, lt→ltb, if_on, if_off, length, length-set,
  get_elem?, get_elem?-set_self, get_elem?-set_ne, set, sub64, size_mod, ℕ_discrete,
}
use supra_seal.Sealing.SectorParameters.{Sector}
use supra_seal.Commit.Output.{Node, node_bytes, put}
use supra_seal.Commit.Driver.{
  C1, challenge_block, derive_loop, derive_partitions, derive_challenges,
}

module _ (sha : List ℕ → ℕ) (sector : Sector) (s : C1) where
  -- the challenge that the digest of the `j`-th block gives
  abbrev value : ℕ → ℕ
  value j =
      sha (challenge_block sha sector s.replica_id s.seed (j % 2 ^ 32)) % sub64 sector.num_leaves 1
      + 1

  below :
      (k n i : ℕ) (cs : List ℕ) (at : ℕ)
      → at < i + k * s.challenges_count
      → get_elem? (derive_loop sha sector s k n i cs) at ≡ get_elem? cs at
  unfolding derive_loop
  below k zero i cs at h = refl
  below k (suc n) i cs at h =
      below k n (suc i) _ at (omega (arith, h)) ∙ get_elem?-set_ne cs _ (λ e. omega (arith, e, h))

  length-loop : (k n i : ℕ) (cs : List ℕ) → length (derive_loop sha sector s k n i cs) ≡ length cs
  unfolding derive_loop
  length-loop k zero i cs = refl
  length-loop k (suc n) i cs =
      length-loop k n (suc i) _ ∙ length-set cs (i + k * s.challenges_count) _

  inside :
      (k n i : ℕ) (cs : List ℕ) (m : ℕ)
      → i ≤ m
      → m < i + n
      → m + k * s.challenges_count < length cs
      → get_elem? (derive_loop sha sector s k n i cs) (m + k * s.challenges_count)
        ≡ some (value (s.challenges_count * k + m))
  unfolding derive_loop
  inside k zero i cs m h p q = absurd (omega arith)
  inside k (suc n) i cs m h p q = elim (ℕ_discrete i m) [
    | yes e ↦
        ap (λ a. get_elem? (derive_loop sha sector s k (suc n) i cs) (a + k * s.challenges_count))
          (sym e)
        ∙ below k n (suc i)
            (set cs (i + k * s.challenges_count) (value (s.challenges_count * k + i)))
            (i + k * s.challenges_count) (omega arith)
        ∙ get_elem?-set_self cs (i + k * s.challenges_count) (value (s.challenges_count * k + i))
            (omega (arith, e, q))
        ∙ ap (λ a. some (value (s.challenges_count * k + a))) e
    | no ne ↦
        let v : ℕ = value (s.challenges_count * k + i) in
        inside k n (suc i) (set cs (i + k * s.challenges_count) v) m (omega arith) (omega arith)
          (omega (arith, length-set cs (i + k * s.challenges_count) v, q))
  ]

  -- `n` partitions from the `k`-th on
  abbrev rounds : ℕ → ℕ → List ℕ → List ℕ
  rounds zero k cs = cs
  rounds (suc n) k cs = rounds n (suc k) (derive_loop sha sector s k s.challenges_count 0 cs)

  -- The 8-bit counter passes all partitions.
  partitions-rounds :
      (fuel n k : ℕ) (cs : List ℕ)
      → sector.num_partitions < 256
      → k + n ≡ sector.num_partitions
      → n < fuel
      → derive_partitions sha sector s fuel k cs ≡ some (rounds n k cs)
  unfolding derive_partitions
  partitions-rounds zero n k cs small e h = absurd (omega arith)
  partitions-rounds (suc fuel) zero k cs small e h =
      let over : ltb k sector.num_partitions ≡ false = ground arith in if_off _ _ over
  partitions-rounds (suc fuel) (suc n) k cs small e h =
      let next : (k + 1) % 256 ≡ suc k = omega arith in
      if_on _ _ (lt→ltb k sector.num_partitions (omega arith))
      ∙ ap
          (λ m.
            derive_partitions sha sector s fuel m
              (derive_loop sha sector s k s.challenges_count 0 cs))
          next
      ∙ partitions-rounds fuel n (suc k) _ small (omega arith) (omega arith)

  earlier :
      (n k : ℕ) (cs : List ℕ) (at : ℕ)
      → at < k * s.challenges_count
      → get_elem? (rounds n k cs) at ≡ get_elem? cs at
  earlier zero k cs at h = refl
  earlier (suc n) k cs at h =
      earlier n (suc k) _ at (omega (arith, suc-mul k s.challenges_count))
      ∙ below k s.challenges_count 0 cs at (omega arith)

  partition :
      (n k : ℕ) (cs : List ℕ) (p m : ℕ)
      → k ≤ p
      → p < k + n
      → m < s.challenges_count
      → m + p * s.challenges_count < length cs
      → get_elem? (rounds n k cs) (m + p * s.challenges_count)
        ≡ some (value (s.challenges_count * p + m))
  partition zero k cs p m h q r w = absurd (omega arith)
  partition (suc n) k cs p m h q r w = elim (ℕ_discrete k p) [
    | yes e ↦
        let ds : List ℕ = derive_loop sha sector s k s.challenges_count 0 cs in
        ap (λ a. get_elem? (rounds n (suc k) ds) (m + a * s.challenges_count)) (sym e)
        ∙ earlier n (suc k) ds (m + k * s.challenges_count)
            (omega (arith, suc-mul k s.challenges_count))
        ∙ inside k s.challenges_count 0 cs m (omega arith) (omega arith)
            (omega (arith, w, ap (λ (a : ℕ). a * s.challenges_count) e))
        ∙ ap (λ a. some (value (s.challenges_count * a + m))) e
    | no ne ↦
        partition n (suc k) (derive_loop sha sector s k s.challenges_count 0 cs) p m (omega arith)
          (omega arith) r (omega (arith, length-loop k s.challenges_count 0 cs, w))
  ]

-- the two blocks of SHA-256: the replica id, the seed, the lowest 16 bits of the number in four bytes,
-- and the padding of the hash, with the length of 544 bits
abbrev pub block_bytes : Node → Node → ℕ → List ℕ
block_bytes replica_id seed j =
    node_bytes replica_id
    ++ node_bytes seed
    ++ (j % 256 ∷ j / 256 % 256 ∷ 0 ∷ 0 ∷ 128 ∷ [])
    ++ replicate 57 0
    ++ (2 ∷ 32 ∷ [])

challenge_block-bytes :
    (sha : List ℕ → ℕ) (sector : Sector) (replica_id seed : Node) (j : ℕ)
    → challenge_block sha sector replica_id seed j ≡ block_bytes replica_id seed j
unfolding challenge_block put
challenge_block-bytes sha sector replica_id seed j = refl

-- For a sector of at least two leaves and at most 255 partitions, which the loop's 8-bit counter can
-- pass, and a new array that all challenges fit into: `DeriveChallenges` ends, and the `m`-th challenge of
-- partition `p` is made of the digest of the replica id, the seed and the lowest 16 bits of the number of
-- the challenge among all of them, padded for the hash, and names a leaf of the sector other than the
-- first.
pub derived_lem :
    (sha : List ℕ → ℕ) (sector : Sector) (fresh : List ℕ) (seed : Node) (s : C1) (p m : ℕ)
    → 2 ≤ sector.num_leaves
    → sector.num_leaves < size_mod
    → sector.num_partitions < 256
    → sector.num_partitions * s.challenges_count ≤ length fresh
    → p < sector.num_partitions
    → m < s.challenges_count
    → let d : ℕ = sha (block_bytes s.replica_id seed ((s.challenges_count * p + m) % 2 ^ 32)) in
      (s' : C1) × (v : ℕ) × (derive_challenges sha sector fresh seed s ≡ some s')
      × (get_elem? s'.challenges (m + p * s.challenges_count) ≡ some v)
      × (v ≡ d % (sector.num_leaves - 1) + 1)
      × (1 ≤ v)
      × (v < sector.num_leaves)
unfolding derive_challenges
derived_lem sha sector fresh seed s p m two big few room hp hm =
    let named : C1 = record s { seed = seed } in
    let j : ℕ = (s.challenges_count * p + m) % 2 ^ 32 in
    let d : ℕ = sha (challenge_block sha sector s.replica_id seed j) in
    let pos : 0 < sector.num_leaves - 1 = omega arith in
    let one : sub64 sector.num_leaves 1 ≡ sector.num_leaves - 1 = omega arith in
    let fits : m + p * s.challenges_count < length fresh = omega (
      arith,
      suc-mul p s.challenges_count,
      mul-le-mul_right {m = suc p} s.challenges_count hp,
      room,
    ) in
    (
      _,
      d % (sector.num_leaves - 1) + 1,
      ap
          (λ (o : Option (List ℕ)). elim o [
            | none ↦ none
            | some cs ↦ some (record named { challenges = cs })
          ])
          (partitions-rounds sha sector named (suc sector.num_partitions) sector.num_partitions 0
            fresh few (omega arith) (omega arith)),
      partition sha sector named sector.num_partitions 0 fresh p m (omega arith) (omega arith) hm
            fits
          ∙ ap (λ n. some (d % n + 1)) one,
      ap (λ b. sha b % (sector.num_leaves - 1) + 1)
          (challenge_block-bytes sha sector s.replica_id seed j),
      omega arith,
      omega (arith, mod-lt d pos),
    )
