-- ===== src/Delivery/Rejections.antt =====
-- How the provider over HTTP of packages/delivery-provider/src/http/http-provider.ts and the retries
-- of execute-with-policy.ts go together.
use authia.Prelude.{
  ℕ, zero, suc, ◌≤◌, ◌<◌, ◌≡◌, refl, inl, inr, ◌⊎◌, Bool, true, false, ◌||◌, Option, none, some,
  List, [], ◌∷◌, nat_eq, leb, arith, ◌∙◌, ap, subst, Bool-cases,
}
use authia.EmailPassword.Plugin.{OutboundEmailMessage}
use authia.Delivery.Failures.{TransportFailure, map_transport_failure, map_http_failure}
use authia.Delivery.Policy.{
  Channel, Effect, Settled, PolicyInput, PolicyOutcome, TelemetryEvent, run_with_timeout,
  settled_by, Run, execute_with_policy,
}
use authia.Delivery.Transports.{
  HttpConfig, HttpRequest, Fetched, status_failure, http_request, create_http_provider,
  PolicyConfig, DeliveryTimes, policy_input, create_resilient_delivery_provider,
}
use authia.Delivery.Attempts.{attempts, numbers, settled}
use authia.Delivery.Decisions.{Decides, Ends, execute_with_policy-Ends}

-- An attempt that settles in time, or without a timer.
abbrev pub IsInTime : ℕ → Option ℕ → Type 0
IsInTime timeout none = ⊥
IsInTime timeout (some after) = (timeout ≡ 0) ⊎ (after ≤ timeout)

run_with_timeout_in_time :
    (timeout : ℕ) (run : Run) (after : Option ℕ)
    → run.settles_after ≡ after
    → IsInTime timeout after
    → run_with_timeout timeout run ≡ settled_by run.failed_with
unfolding run_with_timeout
run_with_timeout_in_time timeout run none e h = absurd h
run_with_timeout_in_time zero run (some after) e h = rw e refl
run_with_timeout_in_time (suc timeout) run (some after) e (inl untimed) = absurd (omega arith)
run_with_timeout_in_time (suc timeout) run (some after) e (inr in_time) =
    let fits : leb after (suc timeout) ≡ true = ground arith in rw e (rw fits refl)

-- The statuses by which a provider rejects a message or the credentials for good.
abbrev pub is_final_status : ℕ → Bool
is_final_status status =
    nat_eq status 400
    || nat_eq status 401
    || nat_eq status 403
    || nat_eq status 404
    || nat_eq status 422

final-retryable :
    (status : ℕ)
    → is_final_status status ≡ true
    → (map_http_failure (some status)).retryable ≡ false
unfolding map_http_failure
final-retryable status h = ground arith

map_status :
    (status : ℕ) → map_transport_failure (status_failure status) ≡ map_http_failure (some status)
unfolding map_transport_failure map_http_failure
map_status status = refl

module _ (input : PolicyInput) where
  decided_error :
      (number : ℕ) (error : TransportFailure) (outcome : PolicyOutcome)
      → settled input number ≡ Settled.rejected error
      → Decides input number outcome
      → outcome ≡ PolicyOutcome.failed (map_transport_failure error)
  decided_error number error _ e (Decides.fulfils f) = absurd (cc (e, f))
  decided_error number error _ e (Decides.hangs f) = absurd (cc (e, f))
  decided_error number error _ e (Decides.fails other f last) = cc (e, f)

  -- Where the first attempt fails for good, it is the only one.
  first_is_final :
      (error : TransportFailure) (result : List Effect × PolicyOutcome)
      → settled input 1 ≡ Settled.rejected error
      → (map_transport_failure error).retryable ≡ false
      → Ends input 0 result
      → (attempts result.0 ≡ 1 ∷ [])
        × (result.1 ≡ PolicyOutcome.failed (map_transport_failure error))
  first_is_final error result e final ends = elim (Bool-cases (nat_eq ends.count 0)) [
    | inr more ↦
        let (other, f, retryable) = ends.earlier 1 (omega arith) (ground arith) in
        absurd (cc (e, f, retryable, final))
    | inl alone ↦
        let none_left : ends.count ≡ 0 = ground arith in
        (
          ends.made ∙ ap (λ n. 1 ∷ numbers 2 n) none_left,
          decided_error 1 error result.1 e
              (subst (λ n. Decides input n result.1) (ground arith) ends.decides),
        )
  ]

module _ (config : HttpConfig) (fetcher : ℕ → HttpRequest → Fetched) (policy : PolicyConfig)
    (times : DeliveryTimes) (message : OutboundEmailMessage) where
  abbrev pub sent_over_http : List Effect × PolicyOutcome
  sent_over_http =
      create_resilient_delivery_provider Channel.http (create_http_provider config fetcher) policy
        times message

  -- With a telemetry listener that throws nothing and at least one round, a message to which the
  -- first response comes in time, with a status of 400, 401, 403, 404 or 422 that is not ok, is
  -- requested once and not again, and the outcome is the error of that status.
  pub http_rejection_is_final :
      (status : ℕ)
      → ((e : TelemetryEvent) → times.on_event e ≡ none)
      → 0 < policy.rounds
      → IsInTime policy.timeout_ms (times.settles_after 1)
      → fetcher 1 (http_request config message) ≡ Fetched.responded false status
      → is_final_status status ≡ true
      → (attempts sent_over_http.0 ≡ 1 ∷ [])
        × (sent_over_http.1 ≡ PolicyOutcome.failed (map_http_failure (some status)))
  unfolding create_resilient_delivery_provider create_http_provider
  http_rejection_is_final status quiet some_round in_time response final =
      let input =
        policy_input Channel.http (create_http_provider config fetcher) policy times message in
      let first : settled input 1 ≡ Settled.rejected (status_failure status) =
        run_with_timeout_in_time policy.timeout_ms (input.run 1) (times.settles_after 1) refl
          in_time
        ∙ rw response refl in
      let (alone, outcome) =
        first_is_final input (status_failure status) (execute_with_policy input) first
          (ap (λ e. e.retryable) (map_status status) ∙ final-retryable status final)
          (execute_with_policy-Ends input quiet some_round) in
      (alone, outcome ∙ ap PolicyOutcome.failed (map_status status))
