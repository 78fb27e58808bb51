-- ===== src/Invariant/Requests.antt =====
-- Every request, whatever its action, keeps what the writes and the transactions keep: `handle` of
-- packages/core/src/kernel/auth-kernel.ts with the two plugins of packages/core.
use authia.Prelude.{Option, none, some, List}
use authia.Contracts.Actions.{SupportedAction}
use authia.Contracts.Sessions.{AuthenticatedSession}
use authia.Contracts.Results.{RequestContext, AuthResult, Reply}
use authia.Contracts.Storage.{TransactionalStorage}
use authia.Contracts.Services.{Policy, RefreshOutcome}
use authia.Io.{Io, Thrown, pure}
use authia.Io.Keeps.{Keeps, Keeps-pure, Keeps-bind, Keeps-catch, keeps_rules}
use authia.Oauth.Config.{OauthRuntimeConfig}
use authia.Kernel.Ownership.{Owner, find_action_owner}
use authia.Kernel.PolicyRun.{KernelConfig, Kernel}
use authia.Kernel.Handle.{
  Gate, recovered, run_transaction, refreshed_result, logged_out, perform_refresh, perform_logout,
  perform_logout_all, perform_built_in, perform, after_policies, after_gate, handle_owned, handle,
}
use authia.Postgres.Connection.{World}
use authia.Postgres.Transactions.{begin_transaction}
use authia.System.{Environment, services}
use authia.Invariant.Stable.{IsApartEnvironment, AllPolicies, KeepsTransaction, IsStable}
use authia.Invariant.Verification.{execute_email_password-Keeps}
use authia.Invariant.Oauth.{execute_oauth-Keeps}
use authia.Invariant.Gates.{full_kernel, gate-Keeps, run_policies-Keeps}

module _ (env : Environment) (P : World → Type 0) (stable : IsStable env P)
    (apart : IsApartEnvironment env) (config : KernelConfig) (oauth : Option OauthRuntimeConfig)
    (policies : List (Policy World)) (all_apart : AllPolicies policies) where
  abbrev kernel : Kernel World
  kernel = full_kernel env config oauth policies

  recovered-Keeps :
      {T : Type 0} (wrap : AuthResult → T) (t : Thrown) → Keeps P (recovered kernel wrap t)
  recovered-Keeps wrap (Thrown.signal (Reply.result r)) = search keeps_rules
  recovered-Keeps wrap (Thrown.signal (Reply.failure e)) = search keeps_rules
  recovered-Keeps wrap (Thrown.exception code message) = search keeps_rules

  run_transaction-Keeps :
      {T : Type 0} (wrap : AuthResult → T) (run : TransactionalStorage World → Io World T)
      → KeepsTransaction env P run
      → Keeps P (run_transaction kernel wrap run)
  unfolding run_transaction
  run_transaction-Keeps wrap run keeps =
      Keeps-catch (begin_transaction env.backend run) (recovered kernel wrap) keeps
        (recovered-Keeps wrap)

  perform_refresh-Keeps :
      (context : RequestContext) (current : Option AuthenticatedSession)
      → Keeps P (perform_refresh kernel context current)
  unfolding perform_refresh
  perform_refresh-Keeps context none = search keeps_rules
  perform_refresh-Keeps context (some current) =
      Keeps-bind
        (run_transaction kernel RefreshOutcome.declined
          (λ tx. (services env).sessions.refresh_session current.session tx context))
        (λ refreshed. pure (refreshed_result kernel current refreshed))
        (run_transaction-Keeps _ _ (stable.refresh current.session context))
        (λ refreshed. Keeps-pure _)

  perform_logout-Keeps :
      (context : RequestContext) (current : Option AuthenticatedSession)
      → Keeps P (perform_logout kernel context current)
  unfolding perform_logout
  perform_logout-Keeps context none = search keeps_rules
  perform_logout-Keeps context (some current) =
      Keeps-bind
        (run_transaction kernel (λ r. tt)
          (λ tx. (services env).sessions.revoke_session current.session.id (some tx)))
        (λ revoked. pure (logged_out kernel SupportedAction.logout context))
        (run_transaction-Keeps _ _ (stable.revoke current.session.id)) (λ revoked. Keeps-pure _)

  perform_logout_all-Keeps :
      (context : RequestContext) (current : Option AuthenticatedSession)
      → Keeps P (perform_logout_all kernel context current)
  unfolding perform_logout_all
  perform_logout_all-Keeps context none = search keeps_rules
  perform_logout_all-Keeps context (some current) =
      Keeps-bind
        (run_transaction kernel (λ r. 0)
          (λ tx. (services env).sessions.revoke_all_sessions current.user.id (some tx)))
        (λ revoked. pure (logged_out kernel SupportedAction.logout_all context))
        (run_transaction-Keeps _ _ (stable.revoke_all current.user.id)) (λ revoked. Keeps-pure _)

  perform_built_in-Keeps :
      (action : SupportedAction) (context : RequestContext)
      → Keeps P (perform_built_in kernel action context)
  unfolding perform_built_in
  perform_built_in-Keeps SupportedAction.get_session context = search keeps_rules
  perform_built_in-Keeps SupportedAction.refresh_session context =
      perform_refresh-Keeps context context.session
  perform_built_in-Keeps SupportedAction.logout context =
      perform_logout-Keeps context context.session
  perform_built_in-Keeps SupportedAction.logout_all context =
      perform_logout_all-Keeps context context.session
  perform_built_in-Keeps _ context = search keeps_rules

  -- An owner that the kernel can find for an action.
  abbrev OwnerKeeps : Owner World → Type 0
  OwnerKeeps Owner.nobody = Unit
  OwnerKeeps Owner.session_layer = Unit
  OwnerKeeps (Owner.plugin p) =
      (action : SupportedAction) (context : RequestContext)
      → Keeps P (p.execute action context (services env))

  owner-Keeps : (action : SupportedAction) → OwnerKeeps (find_action_owner kernel.plugins action)
  unfolding find_action_owner
  owner-Keeps SupportedAction.sign_up_with_password =
      execute_email_password-Keeps env P stable apart
  owner-Keeps SupportedAction.sign_in_with_password =
      execute_email_password-Keeps env P stable apart
  owner-Keeps SupportedAction.request_password_reset =
      execute_email_password-Keeps env P stable apart
  owner-Keeps SupportedAction.reset_password = execute_email_password-Keeps env P stable apart
  owner-Keeps SupportedAction.request_email_verification =
      execute_email_password-Keeps env P stable apart
  owner-Keeps SupportedAction.verify_email = execute_email_password-Keeps env P stable apart
  owner-Keeps SupportedAction.start_oauth = execute_oauth-Keeps env P stable apart oauth
  owner-Keeps SupportedAction.finish_oauth = execute_oauth-Keeps env P stable apart oauth
  owner-Keeps SupportedAction.get_session = tt
  owner-Keeps SupportedAction.refresh_session = tt
  owner-Keeps SupportedAction.logout = tt
  owner-Keeps SupportedAction.logout_all = tt

  perform-Keeps :
      (owner : Owner World) (context : RequestContext)
      → OwnerKeeps owner
      → Keeps P (perform kernel owner context)
  perform-Keeps Owner.nobody context h = search keeps_rules
  perform-Keeps (Owner.plugin p) context h = h context.action context
  perform-Keeps Owner.session_layer context h = perform_built_in-Keeps context.action context

  after_policies-Keeps :
      (owner : Owner World) (context : RequestContext) (outcome : Option AuthResult)
      → OwnerKeeps owner
      → Keeps P (after_policies kernel owner context outcome)
  after_policies-Keeps owner context (some outcome) h = search keeps_rules
  after_policies-Keeps owner context none h = perform-Keeps owner context h

  after_gate-Keeps :
      (owner : Owner World) (decided : Gate)
      → OwnerKeeps owner
      → Keeps P (after_gate kernel owner decided)
  after_gate-Keeps owner (Gate.stop outcome) h = search keeps_rules
  after_gate-Keeps owner (Gate.pass context skip) h = search (
    keeps_rules,
    run_policies-Keeps env P stable apart config oauth policies all_apart context skip,
    after_policies-Keeps owner context,
  )

  handle_owned-Keeps :
      (owner : Owner World) (incoming : RequestContext)
      → OwnerKeeps owner
      → Keeps P (handle_owned kernel owner incoming)
  unfolding handle_owned
  handle_owned-Keeps Owner.nobody incoming h = search keeps_rules
  handle_owned-Keeps Owner.session_layer incoming h =
      search (
        keeps_rules,
        gate-Keeps env P stable apart config oauth policies all_apart,
        after_gate-Keeps,
      )
  handle_owned-Keeps (Owner.plugin p) incoming h =
      search (
        keeps_rules,
        gate-Keeps env P stable apart config oauth policies all_apart,
        after_gate-Keeps,
      )

  pub handle-Keeps : (incoming : RequestContext) → Keeps P (handle kernel incoming)
  unfolding handle
  handle-Keeps incoming =
      handle_owned-Keeps (find_action_owner kernel.plugins incoming.action) incoming
        (owner-Keeps incoming.action)
