-- ===== src/Tests/Parts.antt =====
-- The session tables, the crypto, the startup validation and the delivery, run at concrete inputs.
use Prim.Native.Nat.{◌≤◌}
use authia.Prelude.{
  ℕ, ◌≡◌, ◌≢◌, refl, String, true, Option, none, some, [], ◌∷◌, eq_refl, ap, ◌==◌, arith,
  if◌then◌else◌, nat_eq,
}
use authia.Contracts.Errors.{ValidationResult}
use authia.Contracts.Sessions.{SessionRecord}
use authia.Contracts.Storage.{ConsumedState, SessionCompareAndSwapInput}
use authia.Io.Inversion.{Yields}
use authia.Postgres.Connection.{World, Client}
use authia.Postgres.SessionRows.{compare_and_swap, swapped}
use authia.Postgres.Swaps.{compare_and_swap_one_winner}
use authia.Postgres.Rows.{In}
use authia.Crypto.Comparison.{bytes_eq, compare_padded}
use authia.Crypto.Ascii.{compare_padded_ascii}
use authia.Startup.{StartupConfig, SessionTransportMode, validate_startup_config}
use authia.Startup.Accepted.{plugin_actions, IsAcceptable, validate_startup_config-IsAcceptable}
use authia.Delivery.Failures.{TransportFailure, map_transport_failure}
use authia.Delivery.Policy.{
  TelemetryEvent, EventOutcome, Channel, PolicyInput, PolicyOutcome, timeout_failure,
  execute_with_policy,
}
use authia.Delivery.Attempts.{attempts, numbers, execute_with_policy-attempts}
use authia.Io.{Completion}
use authia.Postgres.Tokens.{consume_state}
use authia.Oauth.StateOnce.{consume_state_once}
use authia.Tests.{backend, world, session_of_ann}

abbrev swap_to : String → SessionCompareAndSwapInput
swap_to token = record {
  session_id = "session";
  expected_token_id = "id-secret";
  next_token_id = token;
  next_token_verifier = token;
  next_last_rotated_at = 2;
  next_idle_expires_at = 3;
}

abbrev after_swap : World
after_swap = (compare_and_swap backend Client.pool (swap_to "first") world).1

first_swap :
    Yields
      (compare_and_swap backend Client.pool (swap_to "first"))
      world
      (some (swapped (swap_to "first") session_of_ann))
      after_swap
unfolding compare_and_swap authia.Io.io authia.Postgres.Connection.query
    authia.Postgres.SessionRows.swap_token
first_swap = record { ran = refl }

second_swap :
    Yields
      (compare_and_swap backend Client.pool (swap_to "second"))
      after_swap
      none
      (compare_and_swap backend Client.pool (swap_to "second") after_swap).1
unfolding compare_and_swap authia.Io.io authia.Postgres.Connection.query
    authia.Postgres.SessionRows.swap_token
second_swap = record { ran = refl }

abbrev first_token : String
first_token = "first"

first_token_is_new : first_token ≢ "id-secret"
first_token_is_new = λ e. absurd (ground (arith, eq_refl first_token, ap (λ t. t == first_token) e))

abbrev nothing : Option SessionRecord
nothing = none

compare_and_swap_one_winner_example :
    (nothing ≡ none)
    × ((swapped (swap_to "first") session_of_ann).current_token_id ≡ "first")
    × In (swapped (swap_to "first") session_of_ann) after_swap.committed.sessions
compare_and_swap_one_winner_example =
    compare_and_swap_one_winner backend (swap_to "first") (swap_to "second") world after_swap
      after_swap (compare_and_swap backend Client.pool (swap_to "second") after_swap).1
      (swapped (swap_to "first") session_of_ann) none refl refl first_token_is_new first_swap refl
      second_swap

compare_padded_ascii_example :
    compare_padded (97 ∷ 98 ∷ []) (97 ∷ []) ≡ some (bytes_eq (97 ∷ 98 ∷ []) (97 ∷ []))
compare_padded_ascii_example =
    compare_padded_ascii (97 ∷ 98 ∷ []) (97 ∷ []) (omega arith, (omega arith, tt)) (omega arith, tt)

abbrev startup : StartupConfig
startup = record {
  entrypoint_method = λ action. none;
  entrypoint_path = λ action. none;
  entrypoint_transport = λ action. none;
  session_transport_mode = SessionTransportMode.both;
  oauth_providers = none;
  session_cookie_name = "authia_session";
  cookie_path = "/";
  policies_redirect = [];
}

startup_valid :
    validate_startup_config startup (plugin_actions {W = World} []) true ≡ ValidationResult.valid
unfolding validate_startup_config
startup_valid = refl

validate_startup_config-IsAcceptable_example : IsAcceptable startup {W = World} [] true
validate_startup_config-IsAcceptable_example =
    validate_startup_config-IsAcceptable startup [] true startup_valid

-- A delivery whose first attempt times out.
abbrev second_try : PolicyInput
second_try = record {
  channel = Channel.smtp;
  run = λ number. record {
    settles_after = some 10;
    failed_with = if nat_eq number 1 then some timeout_failure else none;
  };
  total_start = 0;
  clock = λ index n. index;
  rounds = 3;
  backoff_ms = [];
  timeout_ms = 100;
  on_event = λ e. none;
}

execute_with_policy-attempts_example :
    (count : ℕ) × (count ≤ 3) × (attempts (execute_with_policy second_try).0 ≡ numbers 1 count)
execute_with_policy-attempts_example = execute_with_policy-attempts second_try

abbrev consuming : ℕ → World → Completion (Option ConsumedState) × World
consuming now w = consume_state backend Client.pool "github" "id-state" now w

abbrev after_consuming : World
after_consuming = (consuming 5 world).1

abbrev login : ConsumedState
login = record { code_verifier_ciphertext = "verifier"; redirect_uri_hash = "id-/" }

first_login :
    Yields
      (consume_state backend Client.pool "github" "id-state" 5)
      world
      (some login)
      after_consuming
unfolding authia.Io.io authia.Postgres.Connection.query authia.Postgres.Tokens.consume_oauth_state
first_login = record { ran = refl }

second_login :
    Yields
      (consume_state backend Client.pool "github" "id-state" 6)
      after_consuming
      none
      (consuming 6 after_consuming).1
unfolding authia.Io.io authia.Postgres.Connection.query authia.Postgres.Tokens.consume_oauth_state
second_login = record { ran = refl }

abbrev no_login : Option ConsumedState
no_login = none

consume_state_once_example : no_login ≡ none
consume_state_once_example =
    consume_state_once backend "github" "id-state" 5 6 world after_consuming after_consuming
      (consuming 6 after_consuming).1 (some login) none (omega arith) first_login refl second_login

-- A listener that throws when it is told of a success.
abbrev throws_on_success : TelemetryEvent → Option TransportFailure
throws_on_success e = elim (e.outcome) [
  | EventOutcome.success ↦ some timeout_failure
  | EventOutcome.failure ↦ none
  | EventOutcome.retrying ↦ none
]

-- A message that every attempt delivers is then sent three times, and reported as failed.
abbrev noisy : PolicyInput
noisy = record second_try {
  run = λ number. record { settles_after = some 10; failed_with = none };
  on_event = throws_on_success;
}

noisy_sends_again : attempts (execute_with_policy noisy).0 ≡ 1 ∷ 2 ∷ 3 ∷ []
unfolding execute_with_policy authia.Delivery.Failures.map_transport_failure
noisy_sends_again = refl

noisy_fails :
    (execute_with_policy noisy).1 ≡ PolicyOutcome.failed (map_transport_failure timeout_failure)
unfolding execute_with_policy authia.Delivery.Failures.map_transport_failure
noisy_fails = refl

-- A verifier of the same length with a character outside ASCII: the comparison throws.
accent_throws : compare_padded (97 ∷ []) (233 ∷ []) ≡ none
unfolding compare_padded
accent_throws = refl
