-- ===== src/Delivery/Decisions.antt =====
-- Which attempt of packages/delivery-provider/src/policy/execute-with-policy.ts decides how a
-- delivery ends, and what that means for the provider over HTTP.
use authia.Prelude.{
  ℕ, zero, suc, ◌+◌, ◌-◌, ◌≤◌, ◌<◌, ◌≡◌, refl, not, ◌||◌, ltb, sym, subst, inl, inr, ◌⊎◌, true,
  false, none, List, [], ◌∷◌, arith, Bool-cases, ◌∙◌, ap, nat_eq,
}
use authia.Delivery.Failures.{TransportFailure, map_transport_failure}
use authia.Delivery.Policy.{
  Effect, Settled, PolicyInput, PolicyOutcome, TelemetryEvent, after_failure, after_attempt,
  policy_loop, emit_then, prepend, event, EventOutcome, execute_with_policy,
}
use authia.Delivery.Attempts.{attempts, numbers, settled, Retries}

module _ (input : PolicyInput) where
  -- The attempt that decides: it is fulfilled, it never settles, or it fails and is not tried again.
  pub data Decides (number : ℕ) : PolicyOutcome → Type 0 where
    fulfils : settled input number ≡ Settled.fulfilled → Decides number PolicyOutcome.delivered
    hangs : settled input number ≡ Settled.pending → Decides number PolicyOutcome.hangs
    fails :
        (error : TransportFailure)
        → settled input number ≡ Settled.rejected error
        → ((map_transport_failure error).retryable ≡ false) ⊎ (number ≡ input.rounds)
        → Decides number (PolicyOutcome.failed (map_transport_failure error))

  -- The attempts after `index` end with the one that decides; all before it are tried again.
  pub record Ends (index : ℕ) (result : List Effect × PolicyOutcome) : Type 0 where
    pub count : ℕ
    pub bound : index + suc count ≤ input.rounds
    pub made : attempts result.0 ≡ numbers (index + 1) (suc count)
    pub earlier : (n : ℕ) → index < n → n ≤ index + count → Retries input n
    pub decides : Decides (index + suc count) result.1

  module _ (quiet : (e : TelemetryEvent) → input.on_event e ≡ none) where
    emit_then_quiet :
        (e : TelemetryEvent) (rest : List Effect × PolicyOutcome)
        → emit_then input e rest ≡ prepend (Effect.emit e ∷ []) rest
    emit_then_quiet e rest = rw (emit_then, quiet e) refl

    after_failure_stops :
        (index : ℕ) (error : TransportFailure) (rest : List Effect × PolicyOutcome)
        → ((map_transport_failure error).retryable ≡ false) ⊎ (index + 1 ≡ input.rounds)
        → (attempts (after_failure input index error rest).0 ≡ [])
          × ((after_failure input index error rest).1
              ≡ PolicyOutcome.failed (map_transport_failure error))
    unfolding after_failure
    after_failure_stops index error rest (inl final) = rw final (rw emit_then_quiet (refl, refl))
    after_failure_stops index error rest (inr last) =
        let spent : (not (map_transport_failure error).retryable
              || not (ltb (index + 1) input.rounds))
            ≡ true =
          ground arith in
        rw spent (rw emit_then_quiet (refl, refl))

    after_failure_goes_on :
        (index : ℕ) (error : TransportFailure) (rest : List Effect × PolicyOutcome)
        → (map_transport_failure error).retryable ≡ true
        → index + 1 < input.rounds
        → (attempts (after_failure input index error rest).0 ≡ attempts rest.0)
          × ((after_failure input index error rest).1 ≡ rest.1)
    unfolding after_failure
    after_failure_goes_on index error rest retryable more =
        let left : ltb (index + 1) input.rounds ≡ true = ground arith in
        rw retryable (rw left (rw emit_then_quiet (refl, refl)))

    after_fulfilled :
        (index : ℕ) (rest : List Effect × PolicyOutcome)
        → (attempts (after_attempt input index Settled.fulfilled rest).0 ≡ [])
          × ((after_attempt input index Settled.fulfilled rest).1 ≡ PolicyOutcome.delivered)
    unfolding after_attempt
    after_fulfilled index rest =
        rw
          (
            after_attempt,
            quiet (
                event input EventOutcome.success (index + 1)
                  (input.clock index 1 - input.total_start) none),
          )
          (refl, refl)

    -- The attempt at `index` decides.
    Ends-now :
        (index : ℕ) (result : List Effect × PolicyOutcome) (outcome : PolicyOutcome)
        → index + 1 ≤ input.rounds
        → attempts result.0 ≡ (index + 1) ∷ []
        → result.1 ≡ outcome
        → Decides (index + 1) outcome
        → Ends index result
    Ends-now index result outcome bound made same decides = record {
      count = 0;
      bound = bound;
      made = made;
      earlier = λ n low high. absurd (omega arith);
      decides = subst (Decides (index + 1)) (sym same) decides;
    }

    -- The attempt at `index` is tried again.
    Ends-later :
        (index : ℕ) (rest result : List Effect × PolicyOutcome)
        → Retries input (index + 1)
        → attempts result.0 ≡ (index + 1) ∷ attempts rest.0
        → result.1 ≡ rest.1
        → Ends (index + 1) rest
        → Ends index result
    Ends-later index rest result retries made same later = record {
      count = suc later.count;
      bound = omega arith;
      made = made ∙ ap (λ l. (index + 1) ∷ l) later.made;
      earlier = λ n low high. elim (Bool-cases (nat_eq n (index + 1))) [
        | inl now ↦ subst (Retries input) (ground arith) retries
        | inr other ↦ later.earlier n (ground arith) (ground arith)
      ];
      decides =
          subst (λ n. Decides n result.1) (omega arith)
            (subst (Decides (index + 1 + suc later.count)) (sym same) later.decides);
    }

    -- The attempt at `index`, with the rest of the loop, if there is a rest.
    round-Ends :
        (left index : ℕ) (s : Settled) (rest result : List Effect × PolicyOutcome)
        → index + suc left ≡ input.rounds
        → settled input (index + 1) ≡ s
        → attempts result.0 ≡ (index + 1) ∷ attempts (after_attempt input index s rest).0
        → result.1 ≡ (after_attempt input index s rest).1
        → (index + 1 < input.rounds → Ends (index + 1) rest)
        → Ends index result
    unfolding after_attempt
    round-Ends left index Settled.pending rest result rounds e made same later =
        Ends-now index result PolicyOutcome.hangs (omega arith) made same (Decides.hangs e)
    round-Ends left index Settled.fulfilled rest result rounds e made same later =
        let (alone, delivered) = after_fulfilled index rest in
        Ends-now index result PolicyOutcome.delivered (omega arith)
          (made ∙ ap (λ l. (index + 1) ∷ l) alone) (same ∙ delivered) (Decides.fulfils e)
    round-Ends left index (Settled.rejected error) rest result rounds e made same later =
        let mapped = map_transport_failure error in
        let stops : (mapped.retryable ≡ false) ⊎ (index + 1 ≡ input.rounds) → Ends index result =
          λ final.
            let (alone, failed) = after_failure_stops index error rest final in
            Ends-now index result (PolicyOutcome.failed mapped) (omega arith)
              (made ∙ ap (λ l. (index + 1) ∷ l) alone) (same ∙ failed)
              (Decides.fails error e final) in
        elim (Bool-cases mapped.retryable) [
          | inr final ↦ stops (inl final)
          | inl retryable ↦ elim (Bool-cases (nat_eq left 0)) [
            | inl last ↦ stops (inr (ground arith))
            | inr more ↦
                let (on, next) = after_failure_goes_on index error rest retryable (ground arith) in
                Ends-later index rest result (error, e, retryable)
                  (made ∙ ap (λ l. (index + 1) ∷ l) on) (same ∙ next) (later (ground arith))
          ]
        ]

    loop-Ends :
        (left index : ℕ)
        → index + suc left ≡ input.rounds
        → Ends index (policy_loop input (suc left) index)
    unfolding policy_loop
    loop-Ends zero index rounds =
        round-Ends zero index (settled input (index + 1)) (policy_loop input zero (index + 1)) _
          rounds refl refl refl (λ more. absurd (omega arith))
    loop-Ends (suc left) index rounds =
        round-Ends (suc left) index (settled input (index + 1))
          (policy_loop input (suc left) (index + 1)) _ rounds refl refl refl
          (λ more. loop-Ends left (index + 1) (omega arith))

    rounds-Ends :
        (rounds : ℕ) → rounds ≡ input.rounds → 0 < rounds → Ends 0 (policy_loop input rounds 0)
    rounds-Ends zero e some_round = absurd (omega arith)
    rounds-Ends (suc left) e some_round = loop-Ends left 0 (omega arith)

    -- With a telemetry listener that throws nothing and at least one round, a delivery ends with the
    -- attempt that decides: the attempts made are 1, 2, 3 and so on up to it, within the rounds; each
    -- before it failed in a way that is retryable; and the outcome is delivered where it is
    -- fulfilled, pending where it never settles, and else the error of its failure, which is not
    -- retryable or is that of the last round.
    pub execute_with_policy-Ends : 0 < input.rounds → Ends 0 (execute_with_policy input)
    unfolding execute_with_policy
    execute_with_policy-Ends some_round = rounds-Ends input.rounds refl some_round
