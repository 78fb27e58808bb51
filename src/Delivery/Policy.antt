-- ===== src/Delivery/Policy.antt =====
-- packages/delivery-provider/src/policy/execute-with-policy.ts. The run of each attempt and its
-- time are the environment's; what the loop does is returned as the list of its effects.
use authia.Prelude.{
  ℕ, zero, suc, ◌+◌, ◌-◌, not, ◌||◌, Option, none, some, List, [], ◌∷◌, ◌++◌, ltb, leb,
  if◌then◌else◌,
}
use authia.Contracts.Errors.{AuthError, AuthErrorCode}
use authia.Delivery.Failures.{TransportFailure, map_transport_failure}

pub data Channel : Type 0 where
  smtp http : Channel

-- outcome and phase: success and failure are final, retrying is of an attempt.
pub data EventOutcome : Type 0 where
  success failure retrying : EventOutcome

pub record TelemetryEvent : Type 0 where
  pub channel : Channel
  pub outcome : EventOutcome
  pub retry_attempt : ℕ
  pub duration_ms : ℕ
  pub code : Option AuthErrorCode

-- An effect of the loop, in order: an attempt that starts, an event, a sleep.
pub data Effect : Type 0 where
  attempt : ℕ → Effect
  emit : TelemetryEvent → Effect
  sleep : ℕ → Effect

-- A promise of an attempt: how long it takes to settle (`none`: never), and what it rejects with.
pub record Run : Type 0 where
  pub settles_after : Option ℕ
  pub failed_with : Option TransportFailure

pub record PolicyInput : Type 0 where
  pub channel : Channel
  pub run : ℕ → Run
  -- Date.now() before the loop, and in an attempt: at its start (0), on success (1), and in the
  -- catch block (2, 3).
  pub total_start : ℕ
  pub clock : ℕ → ℕ → ℕ
  -- input.maxRetries + 1, the rounds of the loop; zero where maxRetries is negative
  pub rounds : ℕ
  pub backoff_ms : List ℕ
  pub timeout_ms : ℕ
  -- The telemetry listener: what it throws, if it throws. Without one, nothing.
  pub on_event : TelemetryEvent → Option TransportFailure

-- What an attempt comes to under the timer; `pending` never settles.
pub data Settled : Type 0 where
  fulfilled : Settled
  rejected : TransportFailure → Settled
  pending : Settled

abbrev pub timeout_failure : TransportFailure
timeout_failure =
    TransportFailure.object
      (record { type_field = some "timeout"; code = none; status = none; response_code = none })

abbrev pub dispatch_failure : TransportFailure
dispatch_failure = TransportFailure.object (record {
  type_field = some "timeout-after-dispatch";
  code = none;
  status = none;
  response_code = none;
})

abbrev pub settled_by : Option TransportFailure → Settled
settled_by none = Settled.fulfilled
settled_by (some error) = Settled.rejected error

-- runWithTimeout: with a timer, what settles first. A tie goes to the operation, which began first.
unfoldable pub run_with_timeout : ℕ → Run → Settled
run_with_timeout zero run = elim (run.settles_after) [
  | none ↦ Settled.pending
  | some after ↦ settled_by run.failed_with
]
run_with_timeout (suc timeout) run = elim (run.settles_after) [
  | none ↦ Settled.rejected timeout_failure
  | some after ↦
      if leb after (suc timeout)
      then settled_by run.failed_with
      else Settled.rejected timeout_failure
]

-- How the returned promise ends: with undefined, with an AuthError, by rejecting, or never.
pub data PolicyOutcome : Type 0 where
  delivered : PolicyOutcome
  failed : AuthError → PolicyOutcome
  rejects : TransportFailure → PolicyOutcome
  hangs : PolicyOutcome

-- backoffMs[min(attemptIndex, backoffMs.length - 1)], of [0] where it is empty.
unfoldable pub backoff : List ℕ → ℕ → ℕ
backoff [] index = 0
backoff (ms ∷ []) index = ms
backoff (ms ∷ next ∷ rest) zero = ms
backoff (ms ∷ next ∷ rest) (suc index) = backoff (next ∷ rest) index

abbrev pub prepend : List Effect → List Effect × PolicyOutcome → List Effect × PolicyOutcome
prepend effects (later, outcome) = (effects ++ later, outcome)

module _ (input : PolicyInput) where
  abbrev pub event : EventOutcome → ℕ → ℕ → Option AuthErrorCode → TelemetryEvent
  event outcome number duration_ms code = record {
    channel = input.channel;
    outcome = outcome;
    retry_attempt = number;
    duration_ms = duration_ms;
    code = code;
  }

  -- An event is emitted; a listener that throws decides the outcome.
  abbrev pub emit_then : TelemetryEvent → List Effect × PolicyOutcome → List Effect × PolicyOutcome
  emit_then e rest = elim (input.on_event e) [
    | none ↦ prepend (Effect.emit e ∷ []) rest
    | some error ↦ (Effect.emit e ∷ [], PolicyOutcome.rejects error)
  ]

  -- The catch block, with the rest of the loop.
  unfoldable pub after_failure :
      ℕ → TransportFailure → List Effect × PolicyOutcome → List Effect × PolicyOutcome
  after_failure index error rest =
      let mapped = map_transport_failure error in
      let has_retries_remaining = ltb (index + 1) input.rounds in
      if not mapped.retryable || not has_retries_remaining
      then emit_then
          (event EventOutcome.failure (index + 1) (input.clock index 3 - input.total_start)
            (some mapped.code))
          ([], PolicyOutcome.failed mapped)
      else emit_then
          (event EventOutcome.retrying (index + 1) (input.clock index 2 - input.clock index 0)
            (some mapped.code))
          (prepend (Effect.sleep (backoff input.backoff_ms index) ∷ []) rest)

  -- The try block: a listener that throws on success is caught like a failed attempt.
  unfoldable pub after_attempt :
      ℕ → Settled → List Effect × PolicyOutcome → List Effect × PolicyOutcome
  unfolding after_failure
  after_attempt index Settled.pending rest = ([], PolicyOutcome.hangs)
  after_attempt index (Settled.rejected error) rest = after_failure index error rest
  after_attempt index Settled.fulfilled rest =
      let e =
        event EventOutcome.success (index + 1) (input.clock index 1 - input.total_start) none in
      elim (input.on_event e) [
        | none ↦ (Effect.emit e ∷ [], PolicyOutcome.delivered)
        | some error ↦ prepend (Effect.emit e ∷ []) (after_failure index error rest)
      ]

  -- The loop, with the rounds that are left and the attempt's index.
  unfoldable pub policy_loop : ℕ → ℕ → List Effect × PolicyOutcome
  policy_loop zero index = ([], PolicyOutcome.failed (map_transport_failure dispatch_failure))
  policy_loop (suc left) index =
      let rest = policy_loop left (index + 1) in
      prepend (Effect.attempt (index + 1) ∷ [])
        (after_attempt index (run_with_timeout input.timeout_ms (input.run (index + 1))) rest)

  -- executeWithPolicy
  unfoldable pub execute_with_policy : List Effect × PolicyOutcome
  unfolding policy_loop after_attempt run_with_timeout
  execute_with_policy = policy_loop input.rounds 0
