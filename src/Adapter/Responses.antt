-- ===== src/Adapter/Responses.antt =====
-- What the responses of the adapters give away, and the response to a request that the cross-site
-- check denies.
use authia.Prelude.{
  ◌≡◌, ◌≤◌, refl, true, false, Bool, Option, none, some, [], List, subst, if◌then◌else◌, arith,
}
use authia.Contracts.Results.{ResponseMutations, RequestContext, AuthResult, Reply}
use authia.Contracts.Errors.{DeniedCode}
use authia.Contracts.Services.{Plugin, Policy, PolicyDecision}
use authia.Csrf.{csrf_decision}
use authia.Kernel.PolicyRun.{KernelConfig}
use authia.Kernel.Handle.{handle}
use authia.Kernel.CrossSite.{cross_site_request_changes_nothing}
use authia.Postgres.Connection.{World}
use authia.System.{Environment}
use authia.Contracts.Actions.{SupportedAction, includes_action}
use authia.Adapter.{
  bare, no_content_actions, apply_success, ResponseBody, AdapterResponse, Applied, denied_status,
  apply_result,
}
use authia.Postgres.Refusals.{IsRefusal}
use authia.Io.{Completion}
use authia.Kernel.Reading.{OnValue, kernel_of}

-- A response with a status of a client's error, and nothing set, cleared or redirected.
pub record IsTurnedAway (a : AdapterResponse) : Type 0 where
  pub client_error : (400 ≤ a.status) × (a.status ≤ 499)
  pub no_headers : a.headers ≡ []
  pub no_cookies : a.set_cookies ≡ none
  pub nothing_cleared : (a.clear_cookies ≡ none) × (a.clear_bearer ≡ none)

pub denied_status_range :
    (code : DeniedCode) → (400 ≤ denied_status code) × (denied_status code ≤ 499)
denied_status_range DeniedCode.invalid_input = (omega arith, omega arith)
denied_status_range DeniedCode.ambiguous_credentials = (omega arith, omega arith)
denied_status_range DeniedCode.duplicate_identity = (omega arith, omega arith)
denied_status_range DeniedCode.rate_limited = (omega arith, omega arith)
denied_status_range DeniedCode.policy_denied = (omega arith, omega arith)

-- A result that is turned away.
abbrev pub TurnsAway : Bool → AuthResult → Type 0
TurnsAway redirects r =
    (a : AdapterResponse) × (apply_result redirects (Reply.result r) ≡ Applied.response a)
    × IsTurnedAway a

refusal-TurnsAway : (redirects : Bool) (r : AuthResult) → IsRefusal r → TurnsAway redirects r
unfolding apply_result
refusal-TurnsAway redirects (AuthResult.denied code) h = (
  bare (denied_status code) (ResponseBody.denied code),
  refl,
  record {
    client_error = denied_status_range code;
    no_headers = refl;
    no_cookies = refl;
    nothing_cleared = (refl, refl);
  },
)
refusal-TurnsAway redirects (AuthResult.unauthenticated code) h = (
  bare 401 (ResponseBody.unauthenticated code),
  refl,
  record {
    client_error = (omega arith, omega arith);
    no_headers = refl;
    no_cookies = refl;
    nothing_cleared = (refl, refl);
  },
)
refusal-TurnsAway redirects (AuthResult.session_success action user session transport) h = absurd h
refusal-TurnsAway redirects (AuthResult.plain_success action mutations) h = absurd h
refusal-TurnsAway redirects (AuthResult.current_session user session) h = absurd h
refusal-TurnsAway redirects (AuthResult.redirect mutations location) h = absurd h

on_refusal-TurnsAway :
    (redirects : Bool) (c : Completion AuthResult)
    → OnValue IsRefusal c
    → OnValue (TurnsAway redirects) c
on_refusal-TurnsAway redirects (Completion.value r) h = refusal-TurnsAway redirects r h
on_refusal-TurnsAway redirects (Completion.error e) h = tt
on_refusal-TurnsAway redirects (Completion.threw t) h = tt

-- The adapter's response to a result of a request that the cross-site check denies has a status from
-- 400 to 499 and no header, and sets and clears no cookie and no token.
pub cross_site_request_is_turned_away :
    (env : Environment) (config : KernelConfig) (plugins : List (Plugin World))
    (policies : List (Policy World)) (redirects : Bool) (incoming : RequestContext)
    (code : DeniedCode) (w : World)
    → csrf_decision env.platform config.public_origin incoming ≡ PolicyDecision.deny code
    → OnValue (TurnsAway redirects) (handle (kernel_of env config plugins policies) incoming w).0
cross_site_request_is_turned_away env config plugins policies redirects incoming code w denied =
    on_refusal-TurnsAway redirects (handle (kernel_of env config plugins policies) incoming w).0
      (cross_site_request_changes_nothing env config plugins policies incoming code w denied).0

-- The response carries no other result than this one, and it only with status 200.
abbrev Carries : AuthResult → AdapterResponse → Type 0
Carries r a =
    (r' : AuthResult) → a.body ≡ some (ResponseBody.whole r') → (r' ≡ r) × (a.status ≡ 200)

applied_injective : (x a : AdapterResponse) → Applied.response x ≡ Applied.response a → x ≡ a
applied_injective x a h = cc

plain_body-Carries :
    (no_content : Bool) (r : AuthResult)
    → Carries r (
        if no_content
        then record (bare 204 (ResponseBody.whole r)) { body = none }
        else bare 200 (ResponseBody.whole r))
plain_body-Carries true r r' h = cc h
plain_body-Carries false r r' h = (ground arith, refl)

apply_success-Carries :
    (action : SupportedAction) (mutations : Option ResponseMutations) (r : AuthResult)
    → Carries r (apply_success action mutations r)
apply_success-Carries action none r r' h =
    plain_body-Carries (includes_action no_content_actions action) r r' h
apply_success-Carries action (some m) r r' h =
    plain_body-Carries (includes_action no_content_actions action) r r' h

-- A response that carries a whole result carries the result that it answers, with status 200.
pub apply_result_whole_body :
    (redirects : Bool) (r r' : AuthResult) (a : AdapterResponse)
    → apply_result redirects (Reply.result r) ≡ Applied.response a
    → a.body ≡ some (ResponseBody.whole r')
    → (r' ≡ r) × (a.status ≡ 200)
unfolding apply_result
apply_result_whole_body redirects (AuthResult.session_success action user session transport) r' a h
      b =
    let r = AuthResult.session_success action user session transport in
    subst (Carries r) (applied_injective _ a h) (apply_success-Carries action none r) r' b
apply_result_whole_body redirects (AuthResult.plain_success action mutations) r' a h b =
    let r = AuthResult.plain_success action mutations in
    subst (Carries r) (applied_injective _ a h) (apply_success-Carries action mutations r) r' b
apply_result_whole_body redirects (AuthResult.current_session user session) r' a h b =
    let r = AuthResult.current_session user session in
    subst (Carries r) (applied_injective _ a h)
      (apply_success-Carries SupportedAction.get_session none r) r' b
apply_result_whole_body redirects (AuthResult.denied code) r' a h b =
    absurd (cc (applied_injective _ a h, b))
apply_result_whole_body redirects (AuthResult.unauthenticated code) r' a h b =
    absurd (cc (applied_injective _ a h, b))
apply_result_whole_body true (AuthResult.redirect mutations location) r' a h b =
    absurd (cc (applied_injective _ a h, b))
apply_result_whole_body false (AuthResult.redirect mutations location) r' a h b = absurd (cc h)
