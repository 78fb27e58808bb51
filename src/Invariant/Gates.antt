-- ===== src/Invariant/Gates.antt =====
-- The checks before an action keep what the reads and the policies keep: the gate and the policies of
-- packages/core/src/kernel/auth-kernel.ts.
use authia.Prelude.{refl, Bool, true, false, Option, none, some, List, [], ◌∷◌}
use authia.Contracts.Actions.{SupportedAction}
use authia.Contracts.Errors.{AuthErrorCode, UnauthenticatedCode, infrastructure_error}
use authia.Contracts.Sessions.{SessionRecord, SessionTransport, User, SessionValidationOutcome}
use authia.Contracts.Results.{RequestContext, AuthResult}
use authia.Contracts.Services.{Policy, PolicyDecision}
use authia.Io.{Io, pure, fail}
use authia.Io.Keeps.{Keeps, keeps_rules}
use authia.Session.{check_session, validate_session}
use authia.Csrf.{create_csrf_policy}
use authia.EmailPassword.Plugin.{create_email_password_plugin}
use authia.Oauth.Config.{OauthRuntimeConfig}
use authia.Oauth.Plugin.{create_oauth_plugin}
use authia.Kernel.PolicyRun.{KernelConfig, Kernel, apply_decision, run_policy_list, run_policies}
use authia.Kernel.Handle.{gate_logout, gate_logout_all, gate_session, gate}
use authia.Postgres.Connection.{World, Client, date_now}
use authia.Postgres.Transactions.{create_transactional_storage}
use authia.System.{Environment, services, auth_kernel}
use authia.Invariant.Stable.{
  IsApartEnvironment, IsApartPolicy, AllPolicies, IsStable, date_now-Keeps, id-Keeps,
  verify_opaque-Keeps, find_user-Keeps, find_session-Keeps,
}

-- The kernel with both plugins registered, as examples/cycle2-compose.ts registers them.
abbrev pub full_kernel :
    Environment → KernelConfig → Option OauthRuntimeConfig → List (Policy World) → Kernel World
full_kernel env config oauth policies =
    auth_kernel env config (create_email_password_plugin ∷ create_oauth_plugin oauth ∷ []) policies

module _ (env : Environment) (P : World → Type 0) (stable : IsStable env P)
    (apart : IsApartEnvironment env) where
  abbrev check : SessionTransport → SessionRecord → Io World SessionValidationOutcome
  check =
      check_session (date_now env.backend) (services env).crypto
        (create_transactional_storage env.backend Client.pool)

  found_user-Keeps :
      (session : SessionRecord) (found : Option User)
      → Keeps P (elim found as (λ o. Io World SessionValidationOutcome) [
        | none ↦ fail (
            infrastructure_error AuthErrorCode.storage_unavailable
              "Session subject could not be loaded.")
        | some user ↦
            pure
              (SessionValidationOutcome.authenticated (record { user = user; session = session }))
      ])
  found_user-Keeps session none = search keeps_rules
  found_user-Keeps session (some user) = search keeps_rules

  check-Keeps :
      (credential : SessionTransport) (session : SessionRecord) → Keeps P (check credential session)
  unfolding check_session
  check-Keeps credential session =
      search
        (
          keeps_rules, stable, date_now-Keeps, verify_opaque-Keeps, find_user-Keeps,
          found_user-Keeps,
        )
        depth 12

  after_find-Keeps :
      (credential : SessionTransport) (found : Option SessionRecord)
      → Keeps P (elim found as (λ o. Io World SessionValidationOutcome) [
        | none ↦ pure (SessionValidationOutcome.unauthenticated UnauthenticatedCode.session_revoked)
        | some session ↦ check credential session
      ])
  after_find-Keeps credential none = search keeps_rules
  after_find-Keeps credential (some session) = check-Keeps credential session

  validate-Keeps :
      (credential : Option SessionTransport) (context : RequestContext)
      → Keeps P ((services env).sessions.validate_session credential context)
  unfolding validate_session
  validate-Keeps none context = search keeps_rules
  validate-Keeps (some credential) context =
      search (keeps_rules, stable, id-Keeps, find_session-Keeps, after_find-Keeps) depth 9

  module _ (config : KernelConfig) (oauth : Option OauthRuntimeConfig)
      (policies : List (Policy World)) (all_apart : AllPolicies policies) where
    abbrev kernel : Kernel World
    kernel = full_kernel env config oauth policies

    gate_logout-Keeps :
        (incoming : RequestContext) (credential : Option SessionTransport)
        → Keeps P (gate_logout kernel incoming credential)
    unfolding gate_logout
    gate_logout-Keeps incoming none = search keeps_rules
    gate_logout-Keeps incoming (some credential) = search (keeps_rules, validate-Keeps)

    gate_logout_all-Keeps :
        (incoming : RequestContext) (credential : Option SessionTransport)
        → Keeps P (gate_logout_all kernel incoming credential)
    unfolding gate_logout_all
    gate_logout_all-Keeps incoming none = search keeps_rules
    gate_logout_all-Keeps incoming (some credential) = search (keeps_rules, validate-Keeps)

    gate_session-Keeps : (incoming : RequestContext) → Keeps P (gate_session kernel incoming)
    unfolding gate_session
    gate_session-Keeps incoming = search (keeps_rules, validate-Keeps)

    pub gate-Keeps :
        (action : SupportedAction) (incoming : RequestContext)
        → Keeps P (gate kernel action incoming)
    unfolding gate
    gate-Keeps SupportedAction.get_session incoming = gate_session-Keeps incoming
    gate-Keeps SupportedAction.refresh_session incoming = gate_session-Keeps incoming
    gate-Keeps SupportedAction.logout incoming = gate_logout-Keeps incoming incoming.credential
    gate-Keeps SupportedAction.logout_all incoming =
        gate_logout_all-Keeps incoming incoming.credential
    gate-Keeps _ incoming = search keeps_rules

    apply_decision-Keeps :
        (redirects : Bool) (decision : Option PolicyDecision) (rest : Io World (Option AuthResult))
        → Keeps P rest
        → Keeps P (apply_decision redirects decision rest)
    apply_decision-Keeps redirects none rest h = search keeps_rules
    apply_decision-Keeps redirects (some PolicyDecision.allow) rest h = h
    apply_decision-Keeps redirects (some (PolicyDecision.deny code)) rest h = search keeps_rules
    apply_decision-Keeps true (some (PolicyDecision.redirect location)) rest h = search keeps_rules
    apply_decision-Keeps false (some (PolicyDecision.redirect location)) rest h = search keeps_rules

    run_policy_list-Keeps :
        (redirects : Bool) (list : List (Policy World)) (context : RequestContext)
        → AllPolicies list
        → Keeps P (run_policy_list redirects list context)
    unfolding run_policy_list
    run_policy_list-Keeps redirects [] context h = record { at = λ w p. p }
    run_policy_list-Keeps redirects (policy ∷ list) context (one, others) = record {
      at = λ w p.
          let (decided, w') = policy.evaluate context w in
          (apply_decision-Keeps redirects decided (run_policy_list redirects list context)
              (run_policy_list-Keeps redirects list context others)).at
            w' (stable.local w w' (one.evaluates context w) p);
    }

    abbrev csrf : Policy World
    csrf = create_csrf_policy env.platform config.public_origin

    csrf_apart : IsApartPolicy csrf
    csrf_apart = record {
      evaluates = λ context w. record { committed = refl; working = refl; leased = refl };
    }

    pub run_policies-Keeps :
        (context : RequestContext) (skip : Bool) → Keeps P (run_policies kernel context skip)
    unfolding run_policies
    run_policies-Keeps context true =
        run_policy_list-Keeps config.redirects (csrf ∷ []) context (csrf_apart, tt)
    run_policies-Keeps context false =
        run_policy_list-Keeps config.redirects (csrf ∷ policies) context (csrf_apart, all_apart)
