-- ===== src/Delivery/Attempts.antt =====
-- How often packages/delivery-provider/src/policy/execute-with-policy.ts tries.
use authia.Prelude.{
  ℕ, zero, suc, ◌+◌, ◌-◌, ◌≤◌, ◌≡◌, refl, inl, inr, true, none, List, [], ◌∷◌, ◌++◌, length, arith,
  Bool-cases, Option-cases, nat_eq,
}
use authia.Delivery.Failures.{TransportFailure, map_transport_failure}
use authia.Delivery.Policy.{
  Effect, EventOutcome, event, Settled, PolicyInput, PolicyOutcome, run_with_timeout, after_failure,
  after_attempt, policy_loop, execute_with_policy,
}

-- The numbers of the attempts among the effects.
abbrev pub attempt_number : Effect → List ℕ
attempt_number (Effect.attempt n) = n ∷ []
attempt_number (Effect.emit e) = []
attempt_number (Effect.sleep ms) = []

abbrev pub attempts : List Effect → List ℕ
attempts [] = []
attempts (e ∷ rest) = attempt_number e ++ attempts rest

-- first, first + 1, … , `count` of them.
abbrev pub numbers : ℕ → ℕ → List ℕ
numbers first zero = []
numbers first (suc count) = first ∷ numbers (first + 1) count

module _ (input : PolicyInput) where
  abbrev pub settled : ℕ → Settled
  settled number = run_with_timeout input.timeout_ms (input.run number)

  -- An attempt that fails in a way that may be tried again.
  abbrev pub Retries : ℕ → Type 0
  Retries number =
      (error : TransportFailure) × (settled number ≡ Settled.rejected error)
      × ((map_transport_failure error).retryable ≡ true)

  -- Attempts numbered on from `index`, at most `left` of them.
  abbrev pub Counts : ℕ → ℕ → List Effect → Type 0
  Counts left index effects =
      (count : ℕ) × (count ≤ left) × (attempts effects ≡ numbers (index + 1) count)

  after_failure-Counts :
      (left index : ℕ) (error : TransportFailure) (rest : List Effect × PolicyOutcome)
      → Counts left (index + 1) rest.0
      → Counts left (index + 1) (after_failure input index error rest).0
  unfolding after_failure
  after_failure-Counts left index error rest (count, bound, same) =
      elim (Bool-cases (nat_eq (length (attempts (after_failure input index error rest).0)) 0)) [
        | inl stops ↦ (0, ground arith, ground arith)
        | inr goes ↦ (count, bound, ground arith)
      ]

  after_attempt-Counts :
      (left index : ℕ) (s : Settled) (rest : List Effect × PolicyOutcome)
      → Counts left (index + 1) rest.0
      → Counts left (index + 1) (after_attempt input index s rest).0
  unfolding after_attempt
  after_attempt-Counts left index Settled.pending rest later = (0, ground arith, refl)
  after_attempt-Counts left index (Settled.rejected error) rest later =
      after_failure-Counts left index error rest later
  after_attempt-Counts left index Settled.fulfilled rest later =
      elim (Option-cases (
        input.on_event (
          event input EventOutcome.success (index + 1) (input.clock index 1 - input.total_start)
            none))) [
              | inl quiet ↦ (0, ground arith, ground arith)
              | inr (error, thrown) ↦
                  let (count, bound, same) = after_failure-Counts left index error rest later in
                  (count, bound, ground arith)
            ]

  loop-Counts : (left index : ℕ) → Counts left index (policy_loop input left index).0
  unfolding policy_loop
  loop-Counts zero index = (0, ground arith, refl)
  loop-Counts (suc left) index =
      let (count, bound, same) =
        after_attempt-Counts left index (settled (index + 1)) (policy_loop input left (index + 1))
          (loop-Counts left (index + 1)) in
      (count + 1, ground arith, ground arith)

  -- The attempts are numbered 1, 2, 3 and so on, and there are at most `maxRetries + 1` of them.
  pub execute_with_policy-attempts :
      (count : ℕ) × (count ≤ input.rounds)
      × (attempts (execute_with_policy input).0 ≡ numbers 1 count)
  unfolding execute_with_policy
  execute_with_policy-attempts =
      let (count, bound, same) = loop-Counts input.rounds 0 in (count, bound, same)
