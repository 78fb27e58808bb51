-- ===== src/Kernel/SignedUp.antt =====
-- Signing up, and then asking for the session with the token that was handed out, through `handle` of
-- packages/core/src/kernel/auth-kernel.ts.
use authia.Prelude.{
  ◌≡◌, refl, sym, ap, subst, ◌∙◌, inl, inr, String, Bool, true, false, ◌==◌, eq_refl, none, some,
  List, [], ◌∷◌, ◌++◌, any, arith,
}
use authia.Contracts.Actions.{SupportedAction}
use authia.Contracts.Sessions.{
  User, SessionRecord, SessionTransport, AuthenticatedSession, SessionValidationOutcome,
}
use authia.Contracts.Services.{Plugin, PolicyDecision, IssuedSession}
use authia.Contracts.Results.{RequestContext, AuthResult}
use authia.Io.{Completion, pure}
use authia.Io.Inversion.{bind_value}
use authia.Csrf.{csrf_decision}
use authia.Session.Validation.{validate}
use authia.Session.Acceptance.{IsAnswered, HasTime, IsStored, validate_accepts}
use authia.Kernel.Ownership.{Owner}
use authia.Kernel.PolicyRun.{KernelConfig, run_policy_list, run_policies}
use authia.Kernel.Handle.{
  Gate, require_session, with_session, after_gate, after_policies, gate, gate_session,
  perform_built_in, handle_owned, handle,
}
use authia.Kernel.Reading.{kernel_of}
use authia.Kernel.CurrentSession.{get_session-gated, gate-get_session}
use authia.Postgres.Tables.{Database, select, first}
use authia.Postgres.Connection.{World}
use authia.Postgres.SessionRows.{has_token}
use authia.EmailPassword.Accounts.{execute_sign_up}
use authia.EmailPassword.SignUp.{IsSignedUp, SignUpEnds, sign_up_all_or_nothing}
use authia.System.{Environment, services}

module _ (env : Environment) (config : KernelConfig) (plugins : List (Plugin World)) where
  gated :
      (incoming : RequestContext) (credential : SessionTransport) (w w1 : World)
      (v : AuthenticatedSession)
      → incoming.credential ≡ some credential
      → validate env (some credential) w
        ≡ (Completion.value (SessionValidationOutcome.authenticated v), w1)
      → gate_session (kernel_of env config plugins []) incoming w
        ≡ (Completion.value (Gate.pass (with_session incoming (some v)) false), w1)
  unfolding gate_session
  gated incoming credential w w1 v given accepted =
      bind_value (validate env incoming.credential) (λ o. pure (require_session incoming o)) w w1
        (SessionValidationOutcome.authenticated v) (ap (λ c. validate env c w) given ∙ accepted)

  allowed :
      (context : RequestContext) (w : World)
      → csrf_decision env.platform config.public_origin context ≡ PolicyDecision.allow
      → run_policies (kernel_of env config plugins []) context false w ≡ (Completion.value none, w)
  unfolding run_policies run_policy_list
  allowed context w allow = cc allow

  performed :
      (context : RequestContext) (w : World) (v : AuthenticatedSession)
      → context.action ≡ SupportedAction.get_session
      → context.session ≡ some v
      → perform_built_in (kernel_of env config plugins []) context.action context w
        ≡ (Completion.value (AuthResult.current_session v.user v.session), w)
  unfolding perform_built_in
  performed context w v e s = cc (e, s)

  passed :
      (context : RequestContext) (w : World) (v : AuthenticatedSession)
      → csrf_decision env.platform config.public_origin context ≡ PolicyDecision.allow
      → context.action ≡ SupportedAction.get_session
      → context.session ≡ some v
      → after_gate (kernel_of env config plugins []) Owner.session_layer (Gate.pass context false) w
        ≡ (Completion.value (AuthResult.current_session v.user v.session), w)
  passed context w v allow e s =
      bind_value (run_policies (kernel_of env config plugins []) context false)
        (after_policies (kernel_of env config plugins []) Owner.session_layer context) w w none
        (allowed context w allow)
      ∙ performed context w v e s

  -- getSession with a credential that the validation accepts, past the cross-site check.
  answered :
      (incoming : RequestContext) (credential : SessionTransport) (w w1 : World)
      (v : AuthenticatedSession)
      → incoming.action ≡ SupportedAction.get_session
      → incoming.credential ≡ some credential
      → csrf_decision env.platform config.public_origin incoming ≡ PolicyDecision.allow
      → validate env (some credential) w
        ≡ (Completion.value (SessionValidationOutcome.authenticated v), w1)
      → handle_owned (kernel_of env config plugins []) Owner.session_layer incoming w
        ≡ (Completion.value (AuthResult.current_session v.user v.session), w1)
  unfolding handle_owned csrf_decision
  answered incoming credential w w1 v e given allow accepted =
      bind_value (gate (kernel_of env config plugins []) incoming.action incoming)
        (after_gate (kernel_of env config plugins []) Owner.session_layer) w w1
        (Gate.pass (with_session incoming (some v)) false)
        (ap (λ m. m w) (gate-get_session env config plugins [] incoming e)
          ∙ gated incoming credential w w1 v given accepted)
      ∙ passed (with_session incoming (some v)) w1 v allow e refl

  first-select-append :
      {A : Type 0} (p : A → Bool) (rows : List A) (row : A)
      → any p rows ≡ false
      → p row ≡ true
      → first (select p (rows ++ row ∷ [])) ≡ some row
  first-select-append p [] row h hit = ground arith
  first-select-append p (r ∷ rows) row h hit = ground (arith, first-select-append p rows row)

  signed_up-IsStored :
      (d d' : Database) (context : RequestContext) (email password : String) (user : User)
      (issued : IssuedSession)
      → IsSignedUp env d d' context email password user issued
      → IsStored env d' issued.transport.token issued.session user
  signed_up-IsStored d d' context email password user issued h = record {
    token_id = h.session.token_id;
    verifier = h.session.verifier;
    found =
        subst
          (λ t.
            first (select (has_token issued.session.current_token_id) t.sessions)
            ≡ some issued.session)
          (sym h.tables)
          (first-select-append (has_token issued.session.current_token_id) d.sessions issued.session
            h.session.fresh_token (eq_refl issued.session.current_token_id));
    not_revoked = h.session.not_revoked;
    owner =
        subst (λ t. first (select (λ u. u.id == issued.session.user_id) t.users) ≡ some user)
          (sym h.tables)
          (subst (λ id. first (select (λ u. u.id == id) (d.users ++ user ∷ [])) ≡ some user)
            (sym h.session.owner)
            (first-select-append (λ u. u.id == user.id) d.users user h.new_user (eq_refl user.id)));
  }

  -- The rows of a sign-up that has succeeded.
  ends-IsStored :
      (context : RequestContext) (w w1 : World) (user : User) (session : SessionRecord)
      (transport : SessionTransport)
      → SignUpEnds env context w (
        Completion.value (
            AuthResult.session_success SupportedAction.sign_up_with_password user session
              transport),
        w1,
      )
      → IsStored env w1.committed transport.token session user
  ends-IsStored context w w1 user session transport (inl (refused, same)) = absurd refused
  ends-IsStored context w w1 user session transport
        (inr (email, password, user', issued, body, result, signed_up)) =
      let same_user : user' ≡ user = cc result in
      let same_session : issued.session ≡ session = cc result in
      let same_transport : issued.transport ≡ transport = cc result in
      let stored =
        signed_up-IsStored w.committed w1.committed context email password user' issued signed_up in
      subst (λ t. IsStored env w1.committed t.token session user) same_transport
        (subst (λ s. IsStored env w1.committed issued.transport.token s user) same_session
          (subst (λ u. IsStored env w1.committed issued.transport.token issued.session u) same_user
            stored))

  -- Whoever signs up, outside any other transaction, is signed in: with the token that was handed out,
  -- getSession answers with the user and the session of the sign-up, as long as the committed tables
  -- stay as the sign-up left them, the session has time left, the calls of the server succeed, the
  -- cross-site check lets the request through and no other policy is registered.
  pub sign_up_then_get_session :
      (context incoming : RequestContext) (w w1 v : World) (user : User) (session : SessionRecord)
      (transport : SessionTransport)
      → w.working ≡ none
      → execute_sign_up (services env) context w ≡ (
        Completion.value (
            AuthResult.session_success SupportedAction.sign_up_with_password user session
              transport),
        w1,
      )
      → v.committed ≡ w1.committed
      → IsAnswered env v
      → HasTime env v session
      → incoming.action ≡ SupportedAction.get_session
      → incoming.credential ≡ some transport
      → csrf_decision env.platform config.public_origin incoming ≡ PolicyDecision.allow
      → (v' : World) × (handle (kernel_of env config plugins []) incoming v
          ≡ (Completion.value (AuthResult.current_session user session), v'))
  sign_up_then_get_session context incoming w w1 v user session transport idle signed_up same calls
        time e given allow =
      let stored =
        ends-IsStored context w w1 user session transport (
          subst (SignUpEnds env context w) signed_up (sign_up_all_or_nothing env context w idle)) in
      let accepted =
        validate_accepts env v transport session user
          (subst (λ d. IsStored env d transport.token session user) (sym same) stored) calls time in
      (
        _,
        ap (λ m. m v) (get_session-gated env config plugins [] incoming e)
            ∙ answered incoming transport v _ (record { user = user; session = session }) e given
                allow accepted,
      )
