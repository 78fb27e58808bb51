-- ===== src/Delivery/Failures.antt =====
-- packages/delivery-provider/src/errors.ts.
use authia.Prelude.{
  ℕ, String, Bool, true, false, ◌==◌, ◌&&◌, ◌||◌, Option, none, some, List, [], ◌∷◌, any, leb, ltb,
  nat_eq, if◌then◌else◌,
}
use authia.Contracts.Errors.{AuthError, AuthErrorCode, ErrorCategory}

-- What a transport throws: no object, or an object of which these properties are read. A `status`
-- that is present and no number is `some none`; the other fields are `none` unless they have the
-- type that is tested for.
pub record FailureObject : Type 0 where
  pub type_field : Option String
  pub code : Option String
  pub status : Option (Option ℕ)
  pub response_code : Option ℕ

pub data TransportFailure : Type 0 where
  not_object : TransportFailure
  object : FailureObject → TransportFailure

abbrev pub default_message : AuthErrorCode → String
default_message AuthErrorCode.delivery_unavailable = "Delivery provider is unavailable."
default_message AuthErrorCode.delivery_rate_limited = "Delivery provider rate limited the request."
default_message AuthErrorCode.delivery_misconfigured =
    "Delivery provider credentials or configuration are invalid."
default_message _ = ""

abbrev pub message_or_default : AuthErrorCode → Option String → String
message_or_default code none = default_message code
message_or_default code (some message) = message

abbrev pub create_delivery_error : AuthErrorCode → Bool → Option String → AuthError
create_delivery_error code retryable message = record {
  category = ErrorCategory.infrastructure;
  code = code;
  message = message_or_default code message;
  retryable = retryable;
}

abbrev pub network_error_codes : List String
network_error_codes =
    "ETIMEDOUT" ∷ "ECONNECTION" ∷ "ECONNRESET" ∷ "ECONNREFUSED" ∷ "EPIPE" ∷ "EAI_AGAIN"
    ∷ "ENETUNREACH" ∷ "EHOSTUNREACH" ∷ "ENOTFOUND" ∷ []

abbrev pub unavailable : Bool → String → AuthError
unavailable retryable message =
    create_delivery_error AuthErrorCode.delivery_unavailable retryable (some message)

-- mapHttpFailure, on input.status; `none` is a status that is absent or no number.
unfoldable pub map_http_failure : Option ℕ → AuthError
map_http_failure none = unavailable true "Delivery request failed due to network error."
map_http_failure (some status) =
    if nat_eq status 429
    then create_delivery_error AuthErrorCode.delivery_rate_limited true none
    else if nat_eq status 401 || nat_eq status 403
    then create_delivery_error AuthErrorCode.delivery_misconfigured false none
    else if nat_eq status 400 || nat_eq status 404 || nat_eq status 422
    then unavailable false "Delivery request was rejected by the provider."
    else if leb 500 status
    then create_delivery_error AuthErrorCode.delivery_unavailable true none
    else unavailable true "Delivery request failed due to network error."

abbrev pub has_text : Option String → String → Bool
has_text none text = false
has_text (some given) text = given == text

abbrev pub is_network_code : Option String → Bool
is_network_code none = false
is_network_code (some code) = any (λ known. known == code) network_error_codes

abbrev pub map_response_code : Option ℕ → AuthError
map_response_code none = unavailable false "SMTP delivery failed."
map_response_code (some response_code) =
    if leb 400 response_code && ltb response_code 500
    then unavailable true "SMTP temporary failure."
    else if leb 500 response_code
    then unavailable false "SMTP permanent failure."
    else unavailable false "SMTP delivery failed."

-- mapSmtpFailure, on input.code and input.responseCode.
unfoldable pub map_smtp_failure : Option String → Option ℕ → AuthError
map_smtp_failure code response_code =
    if has_text code "EAUTH"
    then create_delivery_error AuthErrorCode.delivery_misconfigured false
        (some "SMTP authentication failed.")
    else if is_network_code code
    then unavailable true "SMTP transport unavailable."
    else map_response_code response_code

abbrev pub map_by_status : FailureObject → Option (Option ℕ) → AuthError
map_by_status failure (some status) = map_http_failure status
map_by_status failure none = map_smtp_failure failure.code failure.response_code

unfoldable pub map_transport_failure : TransportFailure → AuthError
unfolding map_http_failure map_smtp_failure
map_transport_failure TransportFailure.not_object = map_smtp_failure none none
map_transport_failure (TransportFailure.object failure) =
    if has_text failure.type_field "timeout-after-dispatch"
      || has_text failure.code "TIMEOUT_AFTER_DISPATCH"
    then unavailable false "Delivery status unknown after dispatch."
    else if has_text failure.type_field "timeout" || has_text failure.code "ETIMEDOUT"
    then unavailable true "Delivery attempt timed out."
    else map_by_status failure failure.status
