-- ===== src/Kernel/CrossSite.antt =====
-- A request that packages/core/src/policies/csrf-policy.ts denies, in the kernel's `handle`.
use authia.Prelude.{
  ◌≡◌, refl, sym, ap, ◌∙◌, Bool, true, false, List, none, some, String, Option, subst, arith,
}
use authia.Contracts.Errors.{DeniedCode}
use authia.Contracts.Services.{Plugin, Policy, Platform, PolicyDecision}
use authia.Contracts.Results.{RequestContext, AuthResult}
use authia.Io.{Completion}
use authia.Csrf.{csrf_decision}
use authia.Kernel.Ownership.{Owner, find_action_owner}
use authia.Kernel.PolicyRun.{KernelConfig, run_policies, run_policy_list}
use authia.Kernel.Handle.{Gate, after_gate, after_policies, handle_owned, handle, gate}
use authia.Kernel.Reading.{Reads, Reads-pure, Reads-bind, OnValue, IsFair, kernel_of, gate-Reads}
use authia.Postgres.Connection.{World}
use authia.Postgres.Refusals.{IsRefusal}
use authia.System.{Environment}

csrf_decision_headers :
    (platform : Platform) (origin : String) (a b : RequestContext)
    → a.headers ≡ b.headers
    → csrf_decision platform origin a ≡ csrf_decision platform origin b
unfolding csrf_decision
csrf_decision_headers platform origin a b e = cc e

module _ (env : Environment) (config : KernelConfig) (plugins : List (Plugin World))
    (policies : List (Policy World)) where
  abbrev csrf : RequestContext → PolicyDecision
  csrf context = csrf_decision env.platform config.public_origin context

  -- The cross-site check comes first, with or without the registered policies.
  run_policies_denied :
      (context : RequestContext) (skip : Bool) (code : DeniedCode) (w : World)
      → csrf context ≡ PolicyDecision.deny code
      → run_policies (kernel_of env config plugins policies) context skip w
        ≡ (Completion.value (some (AuthResult.denied code)), w)
  unfolding run_policies run_policy_list
  run_policies_denied context true code w e = cc e
  run_policies_denied context false code w e = cc e

  -- The policies of a denied context: it is stopped, and the tables stay.
  run_policies-Reads :
      (context : RequestContext) (skip : Bool) (code : DeniedCode)
      → csrf context ≡ PolicyDecision.deny code
      → Reads
          (λ o. o ≡ some (AuthResult.denied code))
          (run_policies (kernel_of env config plugins policies) context skip)
  run_policies-Reads context skip code e = record {
    result = λ w.
        subst (λ c. OnValue (λ o. o ≡ some (AuthResult.denied code)) c.0)
          (sym (run_policies_denied context skip code w e)) refl;
    same = λ w. ap (λ c. c.1.committed) (run_policies_denied context skip code w e);
  }

  after_policies-Reads :
      (owner : Owner World) (context : RequestContext) (code : DeniedCode) (o : Option AuthResult)
      → o ≡ some (AuthResult.denied code)
      → Reads IsRefusal (after_policies (kernel_of env config plugins policies) owner context o)
  after_policies-Reads owner context code none e = cc e
  after_policies-Reads owner context code (some r) e = Reads-pure r (ground arith)

  after_gate-Reads :
      (owner : Owner World) (incoming : RequestContext) (code : DeniedCode) (decided : Gate)
      → csrf incoming ≡ PolicyDecision.deny code
      → IsFair incoming decided
      → Reads IsRefusal (after_gate (kernel_of env config plugins policies) owner decided)
  after_gate-Reads owner incoming code (Gate.stop r) e fair = Reads-pure r fair
  after_gate-Reads owner incoming code (Gate.pass context skip) e fair =
      Reads-bind (after_policies (kernel_of env config plugins policies) owner context)
        (after_policies-Reads owner context code)
        (run_policies (kernel_of env config plugins policies) context skip)
        (run_policies-Reads context skip code
          (csrf_decision_headers env.platform config.public_origin context incoming fair ∙ e))

  handle_owned-Reads :
      (owner : Owner World) (incoming : RequestContext) (code : DeniedCode)
      → csrf incoming ≡ PolicyDecision.deny code
      → Reads IsRefusal (handle_owned (kernel_of env config plugins policies) owner incoming)
  unfolding handle_owned
  handle_owned-Reads Owner.nobody incoming code e = Reads-pure _ tt
  handle_owned-Reads Owner.session_layer incoming code e =
      Reads-bind (after_gate (kernel_of env config plugins policies) Owner.session_layer)
        (λ decided. after_gate-Reads Owner.session_layer incoming code decided e)
        (gate (kernel_of env config plugins policies) incoming.action incoming)
        (gate-Reads env config plugins policies incoming.action incoming)
  handle_owned-Reads (Owner.plugin p) incoming code e =
      Reads-bind (after_gate (kernel_of env config plugins policies) (Owner.plugin p))
        (λ decided. after_gate-Reads (Owner.plugin p) incoming code decided e)
        (gate (kernel_of env config plugins policies) incoming.action incoming)
        (gate-Reads env config plugins policies incoming.action incoming)

  -- A request that the cross-site check denies gets no success and no redirect, whatever its action,
  -- the plugins and the registered policies, and it changes no committed table.
  pub cross_site_request_changes_nothing :
      (incoming : RequestContext) (code : DeniedCode) (w : World)
      → csrf_decision env.platform config.public_origin incoming ≡ PolicyDecision.deny code
      → let (c, w') = handle (kernel_of env config plugins policies) incoming w in
        OnValue IsRefusal c × (w'.committed ≡ w.committed)
  unfolding handle
  cross_site_request_changes_nothing incoming code w e =
      let reads = handle_owned-Reads (find_action_owner plugins incoming.action) incoming code e in
      (reads.result w, reads.same w)
