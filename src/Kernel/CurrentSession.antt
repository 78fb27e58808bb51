-- ===== src/Kernel/CurrentSession.antt =====
-- What getSession of packages/core/src/kernel/auth-kernel.ts answers with.
use authia.Prelude.{
  Bool, ◌≡◌, refl, ap, subst, ◌∙◌, if◌then◌else◌, Option, none, some, List, [], ◌∷◌, arith,
}
use authia.Contracts.Actions.{SupportedAction}
use authia.Contracts.Services.{Plugin, Policy, PolicyDecision}
use authia.Contracts.Sessions.{
  User, SessionRecord, SessionTransport, AuthenticatedSession, SessionValidationOutcome,
}
use authia.Contracts.Results.{RequestContext, AuthResult}
use authia.Io.{Io, Completion, pure}
use authia.Io.Inversion.{Yields, bind-Yields}
use authia.Session.Validation.{validate, IsAccepted, validate-IsAccepted}
use authia.Session.{validate_session}
use authia.Kernel.Ownership.{Owner, find_action_owner}
use authia.Kernel.PolicyRun.{KernelConfig, apply_decision, run_policy_list, run_policies}
use authia.Kernel.Handle.{
  Gate, require_session, with_session, after_gate, after_policies, current_session_result,
  handle_owned, handle, gate, gate_session, perform_built_in,
}
use authia.Kernel.Reading.{OnValue, IsFair, kernel_of, gate_session-Reads}
use authia.Postgres.Refusals.{IsRefusal}
use authia.Csrf.{create_csrf_policy}
use authia.Postgres.Connection.{World}
use authia.System.{Environment}

module _ (env : Environment) (config : KernelConfig) (plugins : List (Plugin World))
    (policies : List (Policy World)) where
  -- getSession's request, gated.
  pub get_session-gated :
      (incoming : RequestContext)
      → incoming.action ≡ SupportedAction.get_session
      → handle (kernel_of env config plugins policies) incoming
        ≡ handle_owned (kernel_of env config plugins policies) Owner.session_layer incoming
  unfolding handle find_action_owner
  get_session-gated incoming e = cc e

  pub gate-get_session :
      (incoming : RequestContext)
      → incoming.action ≡ SupportedAction.get_session
      → gate (kernel_of env config plugins policies) incoming.action incoming
        ≡ gate_session (kernel_of env config plugins policies) incoming
  unfolding gate
  gate-get_session incoming e = cc e

  validate_authenticated :
      (credential : Option SessionTransport) (w w' : World) (v : AuthenticatedSession)
      → Yields (validate env credential) w (SessionValidationOutcome.authenticated v) w'
      → (c : SessionTransport) × (credential ≡ some c) × IsAccepted env w c v
  unfolding validate_session
  validate_authenticated none w w' v h = let r = h.ran in cc
  validate_authenticated (some c) w w' v h = (c, refl, validate-IsAccepted env w w' c v h.ran)

  require_session_passed :
      (incoming context : RequestContext) (skip : Bool) (o : SessionValidationOutcome)
      (w w' : World)
      → Yields (pure (require_session incoming o)) w (Gate.pass context skip) w'
      → (v : AuthenticatedSession) × (o ≡ SessionValidationOutcome.authenticated v)
        × (context ≡ with_session incoming (some v))
  require_session_passed incoming context skip SessionValidationOutcome.denied w w' h =
      let r = h.ran in cc
  require_session_passed incoming context skip (SessionValidationOutcome.unauthenticated code) w w'
        h =
      let r = h.ran in cc
  require_session_passed incoming context skip (SessionValidationOutcome.authenticated v) w w' h =
      let r = h.ran in (v, refl, cc)

  -- A gate for the session layer passes only with an accepted credential.
  pub gate_session_passed :
      (incoming context : RequestContext) (skip : Bool) (w w' : World)
      → Yields
          (gate_session (kernel_of env config plugins policies) incoming)
          w
          (Gate.pass context skip)
          w'
      → (credential : SessionTransport) × (v : AuthenticatedSession) × (incoming.credential
          ≡ some credential)
        × IsAccepted env w credential v
        × (context ≡ with_session incoming (some v))
  unfolding gate_session
  gate_session_passed incoming context skip w w' h =
      let (o, w1, validated, required) =
        bind-Yields (validate env incoming.credential) (λ o. pure (require_session incoming o)) h in
      let (v, e, same) = require_session_passed incoming context skip o w1 w' required in
      let (credential, given, accepted) =
        validate_authenticated incoming.credential w w1 v
          (subst (λ x. Yields (validate env incoming.credential) w x w1) e validated) in
      (credential, v, given, accepted, same)

  -- A result that a policy stops a request with is no success.
  abbrev IsStop : AuthResult → Type 0
  IsStop (AuthResult.denied code) = Unit
  IsStop (AuthResult.redirect mutations location) = Unit
  IsStop _ = ⊥

  apply_decision_stops :
      (redirects : Bool) (decision : Option PolicyDecision) (rest : Io World (Option AuthResult))
      (w w' : World) (r : AuthResult)
      → Yields (apply_decision redirects decision rest) w (some r) w'
      → (Yields rest w (some r) w' → IsStop r)
      → IsStop r
  apply_decision_stops redirects none rest w w' r h later = let ran = h.ran in cc
  apply_decision_stops redirects (some PolicyDecision.allow) rest w w' r h later =
      later (record { ran = h.ran })
  apply_decision_stops redirects (some (PolicyDecision.deny code)) rest w w' r h later =
      let ran = h.ran in ground arith
  apply_decision_stops redirects (some (PolicyDecision.redirect location)) rest w w' r h later =
      let ran = h.ran in ground arith

  run_policy_list_stops :
      (redirects : Bool) (list : List (Policy World)) (context : RequestContext) (w w' : World)
      (r : AuthResult)
      → Yields (run_policy_list redirects list context) w (some r) w'
      → IsStop r
  unfolding run_policy_list
  run_policy_list_stops redirects [] context w w' r h = let ran = h.ran in cc
  run_policy_list_stops redirects (policy ∷ list) context w w' r h =
      let (decision, w1) = policy.evaluate context w in
      apply_decision_stops redirects decision (run_policy_list redirects list context) w1 w' r
        (record { ran = h.ran }) (run_policy_list_stops redirects list context w1 w' r)

  run_policies_stops :
      (context : RequestContext) (skip : Bool) (w w' : World) (r : AuthResult)
      → Yields (run_policies (kernel_of env config plugins policies) context skip) w (some r) w'
      → IsStop r
  unfolding run_policies
  run_policies_stops context skip w w' r h =
      let csrf : Policy World = create_csrf_policy env.platform config.public_origin in
      run_policy_list_stops config.redirects (if skip then csrf ∷ [] else csrf ∷ policies) context w
        w' r (record { ran = h.ran })

  -- Past the policies, getSession answers with the session of its context.
  after_policies_session :
      (context : RequestContext) (skip : Bool) (o : Option AuthResult) (w w1 w' : World)
      (user : User) (session : SessionRecord)
      → context.action ≡ SupportedAction.get_session
      → Yields (run_policies (kernel_of env config plugins policies) context skip) w o w1
      → Yields
          (after_policies (kernel_of env config plugins policies) Owner.session_layer context o)
          w1
          (AuthResult.current_session user session)
          w'
      → current_session_result (kernel_of env config plugins policies) context.session
        ≡ AuthResult.current_session user session
  unfolding run_policies perform_built_in
  after_policies_session context skip none w w1 w' user session e ran h =
      let r = h.ran in ground arith
  after_policies_session context skip (some r) w w1 w' user session e ran h =
      let same : r ≡ AuthResult.current_session user session = let x = h.ran in cc in
      absurd (subst IsStop same (run_policies_stops context skip w w1 r ran))

  after_gate_session :
      (context : RequestContext) (skip : Bool) (w w' : World) (user : User)
      (session : SessionRecord)
      → context.action ≡ SupportedAction.get_session
      → Yields
          (after_gate
            (kernel_of env config plugins policies)
            Owner.session_layer
            (Gate.pass context skip))
          w
          (AuthResult.current_session user session)
          w'
      → current_session_result (kernel_of env config plugins policies) context.session
        ≡ AuthResult.current_session user session
  after_gate_session context skip w w' user session e h =
      let (o, w1, ran, rest) = bind-Yields _ _ h in
      after_policies_session context skip o w w1 w' user session e ran rest

  session_of_accepted :
      (v : AuthenticatedSession) (user : User) (session : SessionRecord)
      → current_session_result (kernel_of env config plugins policies) (some v)
        ≡ AuthResult.current_session user session
      → v ≡ record { user = user; session = session }
  session_of_accepted v user session e = ground arith

  gated_session :
      (incoming : RequestContext) (decided : Gate) (w w1 w' : World) (user : User)
      (session : SessionRecord)
      → incoming.action ≡ SupportedAction.get_session
      → Yields (gate_session (kernel_of env config plugins policies) incoming) w decided w1
      → Yields
          (after_gate (kernel_of env config plugins policies) Owner.session_layer decided)
          w1
          (AuthResult.current_session user session)
          w'
      → (credential : SessionTransport) × (incoming.credential ≡ some credential)
        × IsAccepted env w credential (record { user = user; session = session })
  gated_session incoming (Gate.stop r) w w1 w' user session e gated h =
      let same : r ≡ AuthResult.current_session user session = let x = h.ran in cc in
      absurd (
        subst IsRefusal same (
          subst (OnValue (IsFair incoming)) (ap (λ c. c.0) gated.ran)
            ((gate_session-Reads env config plugins policies incoming).result w)))
  gated_session incoming (Gate.pass context skip) w w1 w' user session e gated h =
      let (credential, v, given, accepted, same) =
        gate_session_passed incoming context skip w w1 gated in
      let found =
        after_gate_session context skip w1 w' user session (ap (λ c. c.action) same ∙ e) h in
      (
        credential,
        given,
        subst (IsAccepted env w credential)
            (session_of_accepted v user session (
              subst
                (λ c.
                  current_session_result (kernel_of env config plugins policies) c.session
                  ≡ AuthResult.current_session user session)
                same found))
            accepted,
      )

  owned_session :
      (incoming : RequestContext) (w w' : World) (user : User) (session : SessionRecord)
      → incoming.action ≡ SupportedAction.get_session
      → Yields
          (handle_owned (kernel_of env config plugins policies) Owner.session_layer incoming)
          w
          (AuthResult.current_session user session)
          w'
      → (credential : SessionTransport) × (incoming.credential ≡ some credential)
        × IsAccepted env w credential (record { user = user; session = session })
  unfolding handle_owned
  owned_session incoming w w' user session e h =
      let (decided, w1, gated, rest) = bind-Yields _ _ h in
      gated_session incoming decided w w1 w' user session e
        (subst (λ m. Yields m w decided w1) (gate-get_session incoming e) gated) rest

  -- Whenever getSession answers with a user and a session, the request has a credential that is
  -- accepted for them in the world in which the request arrived: the session is stored under the
  -- token id of the credential, its verifier fits, it is neither revoked nor expired nor idle, and
  -- the user is the stored owner of it.
  pub get_session_answers_for-IsAccepted :
      (incoming : RequestContext) (w w' : World) (user : User) (session : SessionRecord)
      → incoming.action ≡ SupportedAction.get_session
      → handle (kernel_of env config plugins policies) incoming w
        ≡ (Completion.value (AuthResult.current_session user session), w')
      → (credential : SessionTransport) × (incoming.credential ≡ some credential)
        × IsAccepted env w credential (record { user = user; session = session })
  get_session_answers_for-IsAccepted incoming w w' user session e h =
      let h' =
        subst (λ m. m w ≡ (Completion.value (AuthResult.current_session user session), w'))
          (get_session-gated incoming e) h in
      owned_session incoming w w' user session e (record { ran = h' })
