-- ===== src/Tests/Sequences.antt =====
-- Requests to the kernel with both plugins, one after the other, in concrete worlds.
use authia.Prelude.{◌≡◌, ◌≢◌, refl, false, inl, inr, none, some, List, [], ◌∷◌, ◌+◌, ◌<◌, arith}
use authia.Contracts.Actions.{SupportedAction}
use authia.Contracts.Sessions.{
  User, TransportKind, absolute_lifetime_ms, idle_timeout_ms, SessionRecord, SessionTransport,
  AuthenticatedSession, SessionValidationOutcome,
}
use authia.Contracts.Results.{RequestContext, AuthResult, Field}
use authia.Contracts.Services.{Policy, PolicyDecision}
use authia.Io.{Completion}
use authia.Postgres.Connection.{World}
use authia.Kernel.Handle.{handle}
use authia.Kernel.Reading.{kernel_of}
use authia.Csrf.{csrf_decision}
use authia.Kernel.SignedUp.{sign_up_then_get_session}
use authia.Session.Validation.{validate}
use authia.Session.Acceptance.{validate_accepts}
use authia.EmailPassword.Accounts.{execute_sign_up}
use authia.System.{Environment, services}
use authia.Invariant.Stable.{IsApartEnvironment, AllPolicies}
use authia.Invariant.Gates.{full_kernel}
use authia.Invariant.Release.{handle_releases}
use authia.Invariant.Evolution.{Evolves}
use authia.Invariant.Permanence.{handle-Evolves}
use authia.Invariant.WellFormed.{IsWellFormed}
use authia.Invariant.SessionViews.{Steps, view}
use authia.Invariant.Refinement.{handle-Steps}
use authia.Invariant.Sequences.{Follows, IsSettled, requests_settle, revoked_session_stays_out}
use authia.Tests.{env, world, tables, config, request, no_body, credential, ann, session_of_ann}

-- A provider and a delivery that answer at once.
abbrev apart_env : Environment
apart_env = record env {
  oauth_provider_client = some (record {
    build_authorization_url = λ provider uri state challenge w. (Completion.value uri, w);
    exchange_code = λ provider code uri verifier w. (Completion.value code, w);
  });
  email_delivery = some (record {
    send_password_reset = λ email token w. (Completion.value tt, w);
    send_email_verification = λ email token w. (Completion.value tt, w);
  });
}

apart : IsApartEnvironment apart_env
apart = record {
  provider = record {
    build = λ provider uri state challenge w. record {
      committed = refl;
      working = refl;
      leased = refl;
    };
    exchange =
        λ provider code uri verifier w. record { committed = refl; working = refl; leased = refl };
  };
  delivery = record {
    reset = λ email token w. record { committed = refl; working = refl; leased = refl };
    verification = λ email token w. record { committed = refl; working = refl; leased = refl };
  };
}

-- A policy that lets every request through.
abbrev policies : List (Policy World)
policies =
    record { may_redirect = false; evaluate = λ context w. (some PolicyDecision.allow, w) } ∷ []

policies_apart : AllPolicies policies
policies_apart = (
  record { evaluates = λ context w. record { committed = refl; working = refl; leased = refl } },
  tt,
)

abbrev revoked_session : SessionRecord
revoked_session = record session_of_ann {
  id = "revoked";
  current_token_id = "id-old";
  revoked_at = some 5;
}

-- ann has a session, and another one that is revoked.
abbrev two_sessions : World
two_sessions = record world {
  committed = record tables { sessions = session_of_ann ∷ revoked_session ∷ [] };
}

two_sessions-IsWellFormed : IsWellFormed two_sessions.committed
two_sessions-IsWellFormed = record {
  session_ids = (refl, (refl, tt));
  emails = (refl, tt);
  session_owners = (refl, (refl, tt));
  identity_owners = (refl, tt);
  oauth_owners = tt;
}

abbrev get_session_request : RequestContext
get_session_request = request SupportedAction.get_session no_body

abbrev after_one : World
after_one = (handle (full_kernel apart_env config none policies) get_session_request two_sessions).1

one_request : Follows apart_env config none policies two_sessions after_one
one_request = Follows.request Follows.here get_session_request

handle_releases_example : (after_one.working ≡ none) × (after_one.leased ≡ 0)
handle_releases_example =
    handle_releases apart_env config none policies apart policies_apart get_session_request
      two_sessions refl

handle-Evolves_example : Evolves two_sessions.committed after_one.committed
handle-Evolves_example =
    handle-Evolves apart_env config none policies apart policies_apart get_session_request
      two_sessions refl

abbrev logout_all_request : RequestContext
logout_all_request = request SupportedAction.logout_all no_body

handle-Steps_example : Steps (view two_sessions.committed.sessions) (
    view
      (handle
        (full_kernel apart_env config none policies)
        logout_all_request
        two_sessions).1.committed.sessions)
handle-Steps_example =
    handle-Steps apart_env config none policies apart policies_apart logout_all_request two_sessions
      refl

requests_settle_example : IsSettled apart_env config none policies two_sessions after_one
requests_settle_example =
    requests_settle apart_env config none policies apart policies_apart two_sessions after_one refl
      two_sessions-IsWellFormed one_request

abbrev after_two : World
after_two = (handle (full_kernel apart_env config none policies) get_session_request after_one).1

still_answers :
    handle (full_kernel apart_env config none policies) get_session_request after_one
    ≡ (Completion.value (AuthResult.current_session ann session_of_ann), after_two)
unfolding handle authia.Io.io authia.Session.validate_session
    authia.Postgres.SessionRows.find_session authia.Postgres.Connection.query
    authia.Postgres.SessionRows.select_session authia.Session.check_session
    authia.Crypto.Provider.token_fits authia.Crypto.Comparison.compare_padded
    authia.Crypto.Comparison.units authia.Postgres.Accounts.find_user
    authia.Postgres.Accounts.select_user authia.Kernel.PolicyRun.run_policies
    authia.Csrf.csrf_decision authia.Kernel.Handle.perform_built_in
still_answers = refl

revoked_session_stays_out_example : session_of_ann.id ≢ "revoked"
revoked_session_stays_out_example =
    revoked_session_stays_out apart_env config none policies apart policies_apart two_sessions
      after_one after_two revoked_session session_of_ann ann get_session_request refl
      two_sessions-IsWellFormed (inr (inl refl)) refl one_request refl still_answers

abbrev ann_signed_in : AuthenticatedSession
ann_signed_in = record { user = ann; session = session_of_ann }

validate_accepts_example : validate env (some credential) world ≡ (
  Completion.value (SessionValidationOutcome.authenticated ann_signed_in),
  record world { step = 3 },
)
validate_accepts_example =
    validate_accepts env world credential session_of_ann ann
      (record { token_id = refl; verifier = refl; found = refl; not_revoked = refl; owner = refl })
      (record { session_query = refl; user_query = refl })
      (record { absolute = omega arith; idle = omega arith })

abbrev sign_up_request : RequestContext
sign_up_request =
    request SupportedAction.sign_up_with_password
      (record no_body { email = Field.text "bob@example.org"; password = Field.text "long enough" })

abbrev signing_up : Completion AuthResult × World
signing_up = execute_sign_up (services env) sign_up_request world

abbrev bob : User
bob = record { id = "uuid-iii"; created_at = 1000004 }

abbrev session_of_bob : SessionRecord
session_of_bob = record {
  id = "uuid-iiiiiiiiii";
  user_id = "uuid-iii";
  current_token_id = "id-token-iiiiiiii";
  current_token_verifier = "verifier-token-iiiiiiii";
  last_rotated_at = 1000011;
  expires_at = 1000009 + absolute_lifetime_ms;
  idle_expires_at = 1000009 + idle_timeout_ms;
  revoked_at = none;
}

abbrev token_of_bob : SessionTransport
token_of_bob = record { kind = TransportKind.bearer; token = "token-iiiiiiii" }

bob_signs_up : signing_up ≡ (
  Completion.value (
      AuthResult.session_success SupportedAction.sign_up_with_password bob session_of_bob
        token_of_bob),
  signing_up.1,
)
unfolding execute_sign_up authia.EmailPassword.Input.checked_credentials
    authia.EmailPassword.Input.utf16_length authia.Io.io
    authia.EmailPassword.Accounts.sign_up_checked authia.Postgres.Transactions.begin_transaction
    authia.EmailPassword.Accounts.sign_up_transaction authia.Postgres.Connection.query
    authia.EmailPassword.Input.split_at_length authia.Postgres.Accounts.create_user
    authia.Postgres.Accounts.insert_user authia.Postgres.Accounts.create_identity
    authia.Postgres.Accounts.insert_identity authia.Session.issue_session
    authia.Postgres.SessionRows.create_session authia.Postgres.SessionRows.insert_session
bob_signs_up = refl

-- The clock of a later request.
bob_in_time : 1000000 + (signing_up.1.step + 1) < 605800009
unfolding execute_sign_up authia.EmailPassword.Input.checked_credentials
    authia.EmailPassword.Input.utf16_length authia.Io.io
    authia.EmailPassword.Accounts.sign_up_checked authia.Postgres.Transactions.begin_transaction
    authia.EmailPassword.Accounts.sign_up_transaction authia.Postgres.Connection.query
    authia.EmailPassword.Input.split_at_length authia.Postgres.Accounts.create_user
    authia.Postgres.Accounts.insert_user authia.Postgres.Accounts.create_identity
    authia.Postgres.Accounts.insert_identity authia.Session.issue_session
    authia.Postgres.SessionRows.create_session authia.Postgres.SessionRows.insert_session
bob_in_time = omega arith

abbrev bob_asks : RequestContext
bob_asks = record get_session_request { credential = some token_of_bob }

bob_is_allowed : csrf_decision env.platform config.public_origin bob_asks ≡ PolicyDecision.allow
unfolding csrf_decision
bob_is_allowed = refl

sign_up_then_get_session_example :
    (v' : World) × (handle (kernel_of env config [] []) bob_asks signing_up.1
      ≡ (Completion.value (AuthResult.current_session bob session_of_bob), v'))
sign_up_then_get_session_example =
    sign_up_then_get_session env config [] sign_up_request bob_asks world signing_up.1 signing_up.1
      bob session_of_bob token_of_bob refl bob_signs_up refl
      (record { session_query = refl; user_query = refl })
      (record { absolute = omega (arith, bob_in_time); idle = bob_in_time }) refl refl
      bob_is_allowed
