-- ===== src/Tests/Requests.antt =====
-- Requests to the kernel, run in a concrete world.
use authia.Prelude.{true, ◌+◌, ◌≡◌, refl, some, [], ◌∷◌}
use authia.Contracts.Actions.{SupportedAction}
use authia.Contracts.Errors.{DeniedCode}
use authia.Contracts.Services.{PolicyDecision, RefreshOutcome, IssuedSession}
use authia.Contracts.Sessions.{
  AuthenticatedSession, idle_timeout_ms, SessionTransport, SessionValidationOutcome,
}
use authia.Contracts.Results.{RequestContext, AuthResult}
use authia.Io.{Completion}
use authia.Oauth.Finish.{sign_in_subject}
use authia.Oauth.SignIn.{SubjectEnds, sign_in_subject_all_or_nothing}
use authia.Adapter.Responses.{TurnsAway, cross_site_request_is_turned_away}
use authia.Csrf.{csrf_decision}
use authia.Session.Validation.{validate, IsAccepted, validate-IsAccepted}
use authia.Kernel.Handle.{handle, perform_logout_all}
use authia.Kernel.Revocation.{LogoutAllEnds, logout_all_revokes}
use authia.Session.{idle_patch, refresh_with}
use authia.Postgres.Additions.{working_on}
use authia.Postgres.SessionRows.{patched}
use authia.Postgres.Transactions.{create_transactional_storage}
use authia.System.{services}
use authia.Kernel.Reading.{OnValue, kernel_of}
use authia.Kernel.CrossSite.{cross_site_request_changes_nothing}
use authia.Kernel.CurrentSession.{get_session_answers_for-IsAccepted}
use authia.Postgres.Connection.{World, Client, date_now}
use authia.Postgres.Refusals.{IsRefusal}
use authia.Tests.{env, world, tables, config, request, no_body, credential, ann, session_of_ann}

abbrev get_session_request : RequestContext
get_session_request = request SupportedAction.get_session no_body

abbrev foreign_request : RequestContext
foreign_request = record (request SupportedAction.logout_all no_body) {
  headers = ("origin", "https://evil.example") ∷ [];
}

abbrev later : World
later = record world { step = 3 }

-- The credential of the session is accepted.
accepts : validate env (some credential) world ≡ (
  Completion.value
      (SessionValidationOutcome.authenticated (record { user = ann; session = session_of_ann })),
  later,
)
unfolding authia.Io.io authia.Session.validate_session authia.Postgres.SessionRows.find_session
    authia.Postgres.Connection.query authia.Postgres.SessionRows.select_session
    authia.Session.check_session authia.Crypto.Provider.token_fits
    authia.Crypto.Comparison.compare_padded authia.Crypto.Comparison.units
    authia.Postgres.Accounts.find_user authia.Postgres.Accounts.select_user
accepts = refl

validate-IsAccepted_example :
    IsAccepted env world credential (record { user = ann; session = session_of_ann })
validate-IsAccepted_example =
    validate-IsAccepted env world later credential (record { user = ann; session = session_of_ann })
      accepts

answers :
    handle (kernel_of env config [] []) get_session_request world
    ≡ (Completion.value (AuthResult.current_session ann session_of_ann), later)
unfolding handle authia.Io.io authia.Session.validate_session
    authia.Postgres.SessionRows.find_session authia.Postgres.Connection.query
    authia.Postgres.SessionRows.select_session authia.Session.check_session
    authia.Crypto.Provider.token_fits authia.Crypto.Comparison.compare_padded
    authia.Crypto.Comparison.units authia.Postgres.Accounts.find_user
    authia.Postgres.Accounts.select_user authia.Kernel.PolicyRun.run_policies csrf_decision
    authia.Kernel.Handle.perform_built_in
answers = refl

get_session_answers_for-IsAccepted_example :
    (c : SessionTransport) × (get_session_request.credential ≡ some c)
    × IsAccepted env world c (record { user = ann; session = session_of_ann })
get_session_answers_for-IsAccepted_example =
    get_session_answers_for-IsAccepted env config [] [] get_session_request world later ann
      session_of_ann refl answers

foreign_denied :
    csrf_decision env.platform config.public_origin foreign_request
    ≡ PolicyDecision.deny DeniedCode.policy_denied
unfolding csrf_decision
foreign_denied = refl

cross_site_request_changes_nothing_example :
    OnValue IsRefusal (handle (kernel_of env config [] []) foreign_request world).0
    × ((handle (kernel_of env config [] []) foreign_request world).1.committed ≡ world.committed)
cross_site_request_changes_nothing_example =
    cross_site_request_changes_nothing env config [] [] foreign_request DeniedCode.policy_denied
      world foreign_denied

abbrev logout_all_request : RequestContext
logout_all_request = request SupportedAction.logout_all no_body

abbrev ann_signed_in : AuthenticatedSession
ann_signed_in = record { user = ann; session = session_of_ann }

logout_all_revokes_example :
    LogoutAllEnds env config [] [] logout_all_request ann_signed_in tables (
      perform_logout_all (kernel_of env config [] []) logout_all_request (some ann_signed_in) world)
logout_all_revokes_example =
    logout_all_revokes env config [] [] logout_all_request ann_signed_in world refl

-- A transaction is open.
abbrev inside : World
inside = record world { working = some (working_on tables) }

abbrev refreshing : Completion RefreshOutcome × World
refreshing =
    refresh_with (date_now env.backend) (services env).crypto credential session_of_ann
      (create_transactional_storage env.backend Client.client) get_session_request inside

abbrev extended : IssuedSession
extended = record {
  session = patched (idle_patch (1000000 + idle_timeout_ms)) session_of_ann;
  transport = credential;
}

sign_in_subject_all_or_nothing_example :
    SubjectEnds env get_session_request "github" "ann at github" tables
      (sign_in_subject (services env) get_session_request "github" "ann at github" world)
sign_in_subject_all_or_nothing_example =
    sign_in_subject_all_or_nothing env get_session_request "github" "ann at github" world refl

cross_site_request_is_turned_away_example :
    OnValue (TurnsAway true) (handle (kernel_of env config [] []) foreign_request world).0
cross_site_request_is_turned_away_example =
    cross_site_request_is_turned_away env config [] [] true foreign_request DeniedCode.policy_denied
      world foreign_denied
