-- ===== src/Adapter.antt =====
-- packages/node-adapter/src, and bun-adapter and deno-adapter, whose code is the same: the response
-- to a result and the checks on the configuration here, the parsing of a request in the modules below.
pub mod Responses
pub mod Parsing
pub mod ParseRequest
pub mod Runtime
pub mod Headers
pub mod Inversion
pub mod Handled
pub mod Credentials
pub mod Contexts
pub mod Routes
use authia.Prelude.{
  ℕ, String, Bool, true, false, ◌==◌, ◌&&◌, ◌||◌, not, Option, none, some, List, [], ◌∷◌, Dict, any,
  length, nat_eq, truthy, if◌then◌else◌,
}
use authia.Contracts.Actions.{SupportedAction, includes_action}
use authia.Contracts.Errors.{
  AuthError, AuthErrorCode, DeniedCode, UnauthenticatedCode, ValidationResult, infrastructure_error,
}
use authia.Contracts.Results.{AuthResult, Reply, CookieMutation, ResponseMutations}
use authia.Contracts.Services.{Platform}

-- The body of a response: the whole result, or its kind and code.
pub data ResponseBody : Type 0 where
  whole : AuthResult → ResponseBody
  denied : DeniedCode → ResponseBody
  unauthenticated : UnauthenticatedCode → ResponseBody

pub record AdapterResponse : Type 0 where
  pub status : ℕ
  pub headers : Dict String
  pub set_cookies : Option (List CookieMutation)
  pub clear_cookies : Option (List CookieMutation)
  pub clear_bearer : Option Bool
  pub body : Option ResponseBody

pub data Applied : Type 0 where
  response : AdapterResponse → Applied
  failed : AuthError → Applied

abbrev pub no_content_actions : List SupportedAction
no_content_actions =
    SupportedAction.logout ∷ SupportedAction.logout_all ∷ SupportedAction.request_password_reset
    ∷ SupportedAction.reset_password ∷ SupportedAction.request_email_verification
    ∷ SupportedAction.verify_email ∷ []

abbrev pub bare : ℕ → ResponseBody → AdapterResponse
bare status body = record {
  status = status;
  headers = [];
  set_cookies = none;
  clear_cookies = none;
  clear_bearer = none;
  body = some body;
}

-- The mutations of a success, which may be absent.
abbrev pub with_mutations : Option ResponseMutations → AdapterResponse → AdapterResponse
with_mutations none a = a
with_mutations (some m) a = record a {
  set_cookies = m.set_cookies;
  clear_cookies = m.clear_cookies;
  clear_bearer = m.clear_bearer;
}

abbrev pub apply_success : SupportedAction → Option ResponseMutations → AuthResult → AdapterResponse
apply_success action mutations r = with_mutations mutations (
    if includes_action no_content_actions action
    then record (bare 204 (ResponseBody.whole r)) { body = none }
    else bare 200 (ResponseBody.whole r))

abbrev pub denied_status : DeniedCode → ℕ
denied_status DeniedCode.duplicate_identity = 409
denied_status DeniedCode.policy_denied = 403
denied_status DeniedCode.rate_limited = 429
denied_status _ = 400

unfoldable pub apply_result : Bool → Reply → Applied
apply_result redirects (Reply.failure e) = Applied.failed e
apply_result redirects (Reply.result (AuthResult.session_success action user session transport)) =
    Applied.response
      (apply_success action none (AuthResult.session_success action user session transport))
apply_result redirects (Reply.result (AuthResult.plain_success action mutations)) =
    Applied.response (apply_success action mutations (AuthResult.plain_success action mutations))
apply_result redirects (Reply.result (AuthResult.current_session user session)) =
    Applied.response
      (apply_success SupportedAction.get_session none (AuthResult.current_session user session))
apply_result redirects (Reply.result (AuthResult.denied code)) =
    Applied.response (bare (denied_status code) (ResponseBody.denied code))
apply_result redirects (Reply.result (AuthResult.unauthenticated code)) =
    Applied.response (bare 401 (ResponseBody.unauthenticated code))
apply_result true (Reply.result (AuthResult.redirect mutations location)) =
    Applied.response (record {
      status = 303;
      headers = ("location", location) ∷ [];
      set_cookies = none;
      clear_cookies = none;
      clear_bearer = none;
      body = none;
    })
apply_result false (Reply.result (AuthResult.redirect mutations location)) = Applied.failed (
    infrastructure_error AuthErrorCode.runtime_misconfigured
      "Runtime adapter does not support redirects.")

abbrev pub origin_invalid : ValidationResult
origin_invalid = ValidationResult.misconfigured "publicOrigin must be an absolute URL."

abbrev pub has_header : List String → String → Bool
has_header headers name = any (λ h. h == name) headers

abbrev pub check_forwarded : List String → ValidationResult
check_forwarded headers =
    if nat_eq (length headers) 0
      || (nat_eq (length headers) 2
          && has_header headers "x-forwarded-host"
          && has_header headers "x-forwarded-proto")
    then ValidationResult.valid
    else ValidationResult.misconfigured
        "trustedForwardedHeaders must be empty or include x-forwarded-host and x-forwarded-proto."

abbrev pub check_origin : Option (String × String) → List String → ValidationResult
check_origin none headers = origin_invalid
check_origin (some (protocol, hostname)) headers =
    if not (truthy protocol) || not (truthy hostname)
    then origin_invalid
    else check_forwarded headers

-- validateNodeConfig, validateBunConfig and validateDenoConfig.
unfoldable pub validate_node_config : Platform → String → List String → ValidationResult
validate_node_config platform public_origin headers =
    check_origin (platform.url_protocol_and_host public_origin) headers
