-- ===== src/Kernel/Handle.antt =====
-- packages/core/src/kernel/auth-kernel.ts: `handle`, the whole path of a request.
use authia.Prelude.{Bool, true, false, Option, none, some}
use authia.Contracts.Actions.{SupportedAction}
use authia.Contracts.Errors.{AuthError, AuthErrorCode, infrastructure_error}
use authia.Contracts.Sessions.{
  TransportKind, SessionTransport, AuthenticatedSession, SessionValidationOutcome,
}
use authia.Contracts.Results.{RequestContext, AuthResult, ResponseMutations, Reply, invalid_input}
use authia.Contracts.Storage.{TransactionalStorage}
use authia.Contracts.Services.{RefreshOutcome}
use authia.Io.{Io, Thrown, pure, fail, catch, ◌>>=◌}
use authia.Session.{create_clear_bearer_mutation, create_clear_cookie_mutation}
use authia.Kernel.Ownership.{Owner, find_action_owner}
use authia.Kernel.PolicyRun.{KernelConfig, Kernel, run_policies}

abbrev pub clear_current_transport : KernelConfig → RequestContext → ResponseMutations
clear_current_transport config context = elim (context.transport) [
  | TransportKind.bearer ↦ create_clear_bearer_mutation
  | TransportKind.cookie ↦
      create_clear_cookie_mutation config.session_cookie_name config.cookie_path
]

abbrev pub transaction_failed : AuthError
transaction_failed =
    infrastructure_error AuthErrorCode.storage_unavailable "Transactional execution failed."

-- What the validation at the head of `handle` decides: stop with a result, or go on with a context
-- and the choice to skip the registered policies.
pub data Gate : Type 0 where
  stop : AuthResult → Gate
  pass : RequestContext → Bool → Gate

abbrev pub with_session : RequestContext → Option AuthenticatedSession → RequestContext
with_session context session = record context { session = session }

-- getSession, refreshSession and logoutAll: only an authenticated session passes.
abbrev pub require_session : RequestContext → SessionValidationOutcome → Gate
require_session incoming SessionValidationOutcome.denied = Gate.stop invalid_input
require_session incoming (SessionValidationOutcome.unauthenticated code) =
    Gate.stop (AuthResult.unauthenticated code)
require_session incoming (SessionValidationOutcome.authenticated value) =
    Gate.pass (with_session incoming (some value)) false

-- logout: a session that is no longer valid passes too, without the registered policies.
abbrev pub allow_stale_session : RequestContext → SessionValidationOutcome → Gate
allow_stale_session incoming SessionValidationOutcome.denied = Gate.stop invalid_input
allow_stale_session incoming (SessionValidationOutcome.unauthenticated code) =
    Gate.pass (with_session incoming none) true
allow_stale_session incoming (SessionValidationOutcome.authenticated value) =
    Gate.pass (with_session incoming (some value)) false

module _ {W : Type 0} (kernel : Kernel W) where
  -- What a transaction that threw gives: a rollback signal's outcome, by `wrap` where it is a
  -- result, else an error.
  abbrev pub recovered : {T : Type 0} → (AuthResult → T) → Thrown → Io W T
  recovered wrap (Thrown.signal (Reply.result r)) = pure (wrap r)
  recovered wrap (Thrown.signal (Reply.failure e)) = fail e
  recovered wrap (Thrown.exception code message) = fail transaction_failed

  unfoldable pub run_transaction :
      {T : Type 0} → (AuthResult → T) → (TransactionalStorage W → Io W T) → Io W T
  run_transaction wrap run = catch (kernel.services.storage.begin_transaction run) (recovered wrap)

  unfoldable pub gate_logout : RequestContext → Option SessionTransport → Io W Gate
  gate_logout incoming none = pure (Gate.pass (with_session incoming none) true)
  gate_logout incoming (some credential) = do
    validation ← kernel.session_layer.validate_session (some credential) incoming
    pure (allow_stale_session incoming validation)

  unfoldable pub gate_logout_all : RequestContext → Option SessionTransport → Io W Gate
  gate_logout_all incoming none = pure (Gate.stop invalid_input)
  gate_logout_all incoming (some credential) = do
    validation ← kernel.session_layer.validate_session (some credential) incoming
    pure (require_session incoming validation)

  unfoldable pub gate_session : RequestContext → Io W Gate
  gate_session incoming = do
    validation ← kernel.session_layer.validate_session incoming.credential incoming
    pure (require_session incoming validation)

  unfoldable pub gate : SupportedAction → RequestContext → Io W Gate
  unfolding gate_session gate_logout gate_logout_all
  gate SupportedAction.get_session incoming = gate_session incoming
  gate SupportedAction.refresh_session incoming = gate_session incoming
  gate SupportedAction.logout incoming = gate_logout incoming incoming.credential
  gate SupportedAction.logout_all incoming = gate_logout_all incoming incoming.credential
  gate _ incoming = pure (Gate.pass incoming false)

  abbrev pub refreshed_result : AuthenticatedSession → RefreshOutcome → AuthResult
  refreshed_result current (RefreshOutcome.declined r) = r
  refreshed_result current (RefreshOutcome.refreshed issued) =
      AuthResult.session_success SupportedAction.refresh_session current.user issued.session
        issued.transport

  abbrev pub logged_out : SupportedAction → RequestContext → AuthResult
  logged_out action context =
      AuthResult.plain_success action (some (clear_current_transport kernel.config context))

  unfoldable pub perform_refresh : RequestContext → Option AuthenticatedSession → Io W AuthResult
  unfolding run_transaction
  perform_refresh context none = pure invalid_input
  perform_refresh context (some current) = do
    refreshed ←
        run_transaction RefreshOutcome.declined
          (λ tx. kernel.session_layer.refresh_session current.session tx context)
    pure (refreshed_result current refreshed)

  unfoldable pub perform_logout : RequestContext → Option AuthenticatedSession → Io W AuthResult
  unfolding run_transaction
  perform_logout context none = pure (logged_out SupportedAction.logout context)
  perform_logout context (some current) = do
    revoked ←
        run_transaction (λ r. tt)
          (λ tx. kernel.session_layer.revoke_session current.session.id (some tx))
    pure (logged_out SupportedAction.logout context)

  unfoldable pub perform_logout_all : RequestContext → Option AuthenticatedSession → Io W AuthResult
  unfolding run_transaction
  perform_logout_all context none = pure invalid_input
  perform_logout_all context (some current) = do
    revoked ←
        run_transaction (λ r. 0)
          (λ tx. kernel.session_layer.revoke_all_sessions current.user.id (some tx))
    pure (logged_out SupportedAction.logout_all context)

  abbrev pub current_session_result : Option AuthenticatedSession → AuthResult
  current_session_result none = invalid_input
  current_session_result (some current) = AuthResult.current_session current.user current.session

  unfoldable pub perform_built_in : SupportedAction → RequestContext → Io W AuthResult
  unfolding perform_refresh perform_logout perform_logout_all
  perform_built_in SupportedAction.get_session context =
      pure (current_session_result context.session)
  perform_built_in SupportedAction.refresh_session context = perform_refresh context context.session
  perform_built_in SupportedAction.logout context = perform_logout context context.session
  perform_built_in SupportedAction.logout_all context = perform_logout_all context context.session
  perform_built_in _ context = pure invalid_input

  abbrev pub perform : Owner W → RequestContext → Io W AuthResult
  perform Owner.nobody context = pure invalid_input
  perform (Owner.plugin p) context = p.execute context.action context kernel.services
  perform Owner.session_layer context = perform_built_in context.action context

  abbrev pub after_policies : Owner W → RequestContext → Option AuthResult → Io W AuthResult
  after_policies owner context (some outcome) = pure outcome
  after_policies owner context none = perform owner context

  abbrev pub after_gate : Owner W → Gate → Io W AuthResult
  after_gate owner (Gate.stop outcome) = pure outcome
  after_gate owner (Gate.pass context skip_app_policies) = do
    outcome ← run_policies kernel context skip_app_policies
    after_policies owner context outcome

  unfoldable pub handle_owned : Owner W → RequestContext → Io W AuthResult
  unfolding gate
  handle_owned Owner.nobody incoming = pure invalid_input
  handle_owned owner incoming = do decided ← gate incoming.action incoming; after_gate owner decided

  unfoldable pub handle : RequestContext → Io W AuthResult
  unfolding handle_owned find_action_owner
  handle incoming = handle_owned (find_action_owner kernel.plugins incoming.action) incoming
