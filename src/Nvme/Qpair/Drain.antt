-- ===== src/Nvme/Qpair/Drain.antt =====
-- Draining a queue pair ends, as long as the drive completes its operations in the end.
use native.Mathlib.Nat.{suc-mul, mul-le-mul_right}
use supra_seal.Prelude.{
  ℕ, zero, suc, ◌+◌, ◌-◌, ◌*◌, ◌≤◌, ◌<◌, ◌≡◌, ◌∙◌, ap, arith, Option, none, some, sub64, size_mod,
  lt→ltb, if_on, dec_lt, ap₂, sym,
}
use supra_seal.Nvme.Qpair.{
  returned, bad_poll, process_completions, drain_loop, process_all_completions,
}

-- As the drive does: a poll has no error and completes `count` operations, perhaps none and at most
-- those that are outstanding; and while there are operations, at most `idle` polls in a row complete
-- none of them.
pub record Answers (device : ℕ → ℕ → Option ℕ) (count : ℕ → ℕ → ℕ) (idle : ℕ) : Type 0 where
  pub answer : (poll n : ℕ) → 0 < n → device poll n ≡ some (count poll n)
  pub bounded : (poll n : ℕ) → count poll n ≤ n
  pub at_last : (poll n : ℕ) → 0 < n → (k : ℕ) × (k ≤ idle) × (0 < count (poll + k) n)

module _ (device : ℕ → ℕ → Option ℕ) (count : ℕ → ℕ → ℕ) (idle : ℕ)
    (a : Answers device count idle) where
  one_poll :
      (fuel poll completions n : ℕ)
      → 0 < n
      → drain_loop device (suc fuel) poll completions n
        ≡ drain_loop device fuel (suc poll) (count poll n) (sub64 n (count poll n))
  unfolding drain_loop process_completions
  one_poll fuel poll completions n h =
      let on = lt→ltb 0 n h in
      if_on _ _ on
      ∙ ap
          (λ (p : Option (ℕ × ℕ)). elim p [
            | none ↦ bad_poll
            | some r ↦ drain_loop device fuel (suc poll) (r.0) (r.1)
          ])
          (if_on _ _ on
            ∙ ap (λ (o : Option ℕ). elim o [ none ↦ none | some c ↦ some (c, sub64 n c) ])
                (a.answer poll n h))

  none_left :
      (fuel poll completions n : ℕ)
      → n ≡ 0
      → 0 < fuel
      → drain_loop device fuel poll completions n ≡ returned completions 0
  unfolding drain_loop
  none_left zero poll completions n e h = absurd (omega arith)
  none_left (suc fuel) poll completions n e h = ap (drain_loop device (suc fuel) poll completions) e

  budget :
      (left n idle : ℕ)
      → left < n
      → 0 < left
      → (left - 1) * suc idle + suc idle ≤ (n - 1) * suc idle
  budget left n idle h pos =
      let one : suc (left - 1) * suc idle ≡ (left - 1) * suc idle + suc idle =
        suc-mul (left - 1) (suc idle) in
      omega (arith, one, mul-le-mul_right {m = suc (left - 1)} {n = n - 1} (suc idle) (omega arith))

  -- the `k`-th poll from here completes an operation
  drain_loop-ends :
      (fuel poll completions n k : ℕ)
      → n < size_mod
      → 0 < n
      → k ≤ idle
      → 0 < count (poll + k) n
      → (n - 1) * suc idle + k + 1 < fuel
      → (c : ℕ) × (drain_loop device fuel poll completions n ≡ returned c 0)
  drain_loop-ends zero poll completions n k small pos hk some_k h = absurd (omega arith)
  drain_loop-ends (suc fuel) poll completions n k small pos hk some_k h =
      let d : ℕ = count poll n in
      let left : ℕ = sub64 n d in
      let le : d ≤ n = a.bounded poll n in
      let same : left ≡ n - d = omega (arith, le) in
      elim (dec_lt 0 left) [
        | no q ↦ (
          d,
          one_poll fuel poll completions n pos
              ∙ none_left fuel (suc poll) d left (omega (arith, q)) (omega arith),
        )
        | yes q ↦ elim (dec_lt 0 d) [
          | yes some_d ↦
              let (k', hk', some_k') = a.at_last (suc poll) left q in
              let rest =
                drain_loop-ends fuel (suc poll) d left k' (omega arith) q hk' some_k'
                  (omega (arith, budget left n idle (omega arith) q)) in
              (rest.0, one_poll fuel poll completions n pos ∙ rest.1)
          | no no_d ↦ elim (dec_lt 0 k) [
            | no zero_k ↦
                let here : count (poll + k) n ≡ d = ap (λ x. count x n) (omega arith) in
                absurd (omega (arith, here))
            | yes more ↦
                let left_n : left ≡ n = omega arith in
                let later : count (poll + k) n ≡ count (suc poll + (k - 1)) left =
                  ap₂ count (omega arith) (sym left_n) in
                let fewer : (left - 1) * suc idle ≡ (n - 1) * suc idle =
                  ap (λ x. (x - 1) * suc idle) left_n in
                let rest =
                  drain_loop-ends fuel (suc poll) d left (k - 1) (omega arith) q (omega arith)
                    (omega (arith, later)) (omega (arith, fewer)) in
                (rest.0, one_poll fuel poll completions n pos ∙ rest.1)
          ]
        ]
      ]

-- When no poll has an error or completes more operations than are outstanding, and at most `idle` polls
-- in a row complete none of those that are outstanding, a queue pair with fewer than 2^64 outstanding
-- operations is drained: `process_all_completions` returns, with no failed assertion and no operation
-- left, when the fuel is more than `idle + 1` for each outstanding operation and 1.
pub process_all_completions-drains :
    {device : ℕ → ℕ → Option ℕ} {count : ℕ → ℕ → ℕ} {idle : ℕ}
    → Answers device count idle
    → (fuel n : ℕ) → n < size_mod
    → n * suc idle + 1 < fuel
    → (c : ℕ) × (process_all_completions device fuel n ≡ returned c 0)
unfolding process_all_completions
process_all_completions-drains {device} {count} {idle} a fuel n small h = elim (dec_lt 0 n) [
  | no q ↦ (0, none_left device count idle a fuel 0 0 n (omega (arith, q)) (omega arith))
  | yes q ↦
      let (k, hk, some_k) = a.at_last 0 n q in
      let all : suc (n - 1) * suc idle ≡ n * suc idle = ap (λ x. x * suc idle) (omega arith) in
      drain_loop-ends device count idle a fuel 0 0 n k small q hk some_k
        (omega (arith, all, suc-mul (n - 1) (suc idle)))
]
