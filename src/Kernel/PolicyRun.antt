-- ===== src/Kernel/PolicyRun.antt =====
-- packages/core/src/kernel/auth-kernel.ts: the kernel's parts, and `runPolicies`.
use authia.Prelude.{String, Bool, Option, none, some, List, [], ◌∷◌, if◌then◌else◌}
use authia.Contracts.Errors.{AuthError, AuthErrorCode, infrastructure_error}
use authia.Contracts.Results.{RequestContext, AuthResult}
use authia.Contracts.Services.{Policy, PolicyDecision, Plugin, PluginServices, SessionLayer}
use authia.Io.{Io, pure, fail, Completion}
use authia.Session.{no_mutations}
use authia.Csrf.{create_csrf_policy}

-- What the kernel reads of AuthConfig.
pub record KernelConfig : Type 0 where
  pub public_origin : String
  pub session_cookie_name : String
  pub cookie_path : String
  pub redirects : Bool

abbrev pub policy_failure : AuthError
policy_failure = infrastructure_error AuthErrorCode.policy_failure "Policy evaluation failed."

abbrev pub redirect_misconfigured : AuthError
redirect_misconfigured =
    infrastructure_error AuthErrorCode.runtime_misconfigured
      "Redirect policy requires a runtime adapter with redirect capability."

module _ {W : Type 0} where
  -- One decision, and what the loop does with it: go on with `rest`, or stop. `none` is an
  -- evaluation that throws.
  abbrev pub apply_decision :
      Bool → Option PolicyDecision → Io W (Option AuthResult) → Io W (Option AuthResult)
  apply_decision redirects none rest = fail policy_failure
  apply_decision redirects (some PolicyDecision.allow) rest = rest
  apply_decision redirects (some (PolicyDecision.deny code)) rest =
      pure (some (AuthResult.denied code))
  apply_decision redirects (some (PolicyDecision.redirect location)) rest =
      if redirects
      then pure (
          some (AuthResult.redirect (record no_mutations { redirect_to = some location }) location))
      else fail redirect_misconfigured

  -- The loop of `runPolicies`. `none` is the null that lets the request through.
  unfoldable pub run_policy_list :
      Bool → List (Policy W) → RequestContext → Io W (Option AuthResult)
  run_policy_list redirects [] context w = (Completion.value none, w)
  run_policy_list redirects (policy ∷ policies) context w =
      let (decided, w') = policy.evaluate context w in
      let rest = run_policy_list redirects policies context in
      apply_decision redirects decided rest w'

-- createAuthKernel: what it is given, and what has been registered.
pub record Kernel (W : Type 0) : Type 1 where
  pub config : KernelConfig
  pub services : PluginServices W
  pub session_layer : SessionLayer W
  pub plugins : List (Plugin W)
  pub policies : List (Policy W)

module _ {W : Type 0} (kernel : Kernel W) where
  unfoldable pub run_policies : RequestContext → Bool → Io W (Option AuthResult)
  unfolding run_policy_list
  run_policies context skip_app_policies =
      let csrf = create_csrf_policy kernel.services.platform kernel.config.public_origin in
      run_policy_list kernel.config.redirects
        (if skip_app_policies then csrf ∷ [] else csrf ∷ kernel.policies) context
