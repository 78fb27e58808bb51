-- ===== src/Adapter/ParseRequest.antt =====
-- packages/node-adapter/src/parse-request.ts, which bun-adapter and deno-adapter have word for word:
-- the steps of parseRequest, in the order of the code.
use Prim.Native.String as Text
use text.Mathlib.Text.{starts_with, find?}
use authia.Prelude.{
  String, Bool, true, false, not, ◌==◌, ◌&&◌, ◌||◌, Option, none, some, List, [], ◌∷◌, Dict, any,
  lookup, is_some, differ, truthy, if◌then◌else◌,
}
use authia.Contracts.Actions.{SupportedAction}
use authia.Contracts.Errors.{DeniedCode}
use authia.Contracts.Sessions.{TransportKind, SessionTransport, same_kind}
use authia.Contracts.Results.{Field, Body, RequestContext}
use authia.Contracts.Services.{Platform}
use authia.Csrf.{header_truthy}
use authia.Adapter.Parsing.{
  InputBody, ParseInput, AdapterConfig, Parsed, ◌>>=◌, ◌>>◌, invalid_input_result, or_threw,
  require, runtime_misconfigured, sensitive_headers, contains, Normalized, nothing_normalized,
  normalize_headers, resolve_action, resolved, drop,
}

-- What JSON.parse gives for a text: an object or an array, with the fields of a body that it has, or
-- another value; `none` is a text that it rejects.
pub data Json : Type 0 where
  object : Body → Json
  scalar : Json

abbrev pub no_body : Parsed (Option Body)
no_body = Parsed.parsed none

-- The headers of which no second value is accepted: the sensitive ones, and the forwarded ones that are
-- trusted. Of another header the first value is kept.
abbrev pub is_ambiguous : AdapterConfig → String → Bool
is_ambiguous config name =
    contains sensitive_headers name || contains config.trusted_forwarded_headers name

abbrev pub check_duplicates : AdapterConfig → Normalized → Parsed (Unit {0})
check_duplicates config n = require (not (any (is_ambiguous config) n.duplicates))

abbrev pub same_origin : String → String → Parsed (Unit {0})
same_origin forwarded expected =
    if forwarded == expected
    then Parsed.parsed tt
    else runtime_misconfigured "Forwarded host/proto must match publicOrigin."

abbrev pub is_empty : List String → Bool
is_empty [] = true
is_empty (x ∷ xs) = false

abbrev pub bearer_of : String → Parsed (Option String)
bearer_of token = do
  require (truthy token && not (is_some (find? token " ")))
  Parsed.parsed (some token)

-- An empty cookie is no cookie.
abbrev pub cookie_of : Option String → Option String
cookie_of none = none
cookie_of (some token) = if truthy token then some token else none

abbrev pub credential_of : Option String → Option String → Parsed (Option SessionTransport)
credential_of (some cookie) (some bearer) = Parsed.denied DeniedCode.ambiguous_credentials
credential_of none (some bearer) =
    Parsed.parsed (some (record { kind = TransportKind.bearer; token = bearer }))
credential_of (some cookie) none =
    Parsed.parsed (some (record { kind = TransportKind.cookie; token = cookie }))
credential_of none none = Parsed.parsed none

abbrev pub expected_transport : Option TransportKind → Parsed TransportKind
expected_transport none = invalid_input_result
expected_transport (some kind) = Parsed.parsed kind

abbrev pub check_kind : Option SessionTransport → TransportKind → Parsed (Unit {0})
check_kind none expected = Parsed.parsed tt
check_kind (some credential) expected = require (same_kind credential.kind expected)

-- credential?.kind ?? expectedTransport
abbrev pub transport_of : Option SessionTransport → TransportKind → TransportKind
transport_of none expected = expected
transport_of (some credential) expected = credential.kind

abbrev pub parsed_json : Option Json → Parsed (Option Body)
parsed_json none = invalid_input_result
parsed_json (some Json.scalar) = invalid_input_result
parsed_json (some (Json.object b)) = Parsed.parsed (some b)

abbrev pub parse_body : (String → Option Json) → InputBody → Parsed (Option Body)
parse_body json_parse InputBody.absent = no_body
parse_body json_parse (InputBody.raw t) = parsed_json (json_parse t)
parse_body json_parse (InputBody.object b) = Parsed.parsed (some b)
parse_body json_parse InputBody.other = invalid_input_result

abbrev pub needs_body : SupportedAction → Bool
needs_body SupportedAction.start_oauth = true
needs_body SupportedAction.finish_oauth = true
needs_body SupportedAction.request_password_reset = true
needs_body SupportedAction.reset_password = true
needs_body SupportedAction.request_email_verification = true
needs_body SupportedAction.verify_email = true
needs_body _ = false

module _ (platform : Platform) where
  abbrev pub check_forwarded_origin :
      AdapterConfig → Option String → Option String → Parsed (Unit {0})
  check_forwarded_origin config (some host) (some proto) =
      if truthy host && truthy proto
      then (do
        expected ← or_threw (platform.url_origin config.public_origin)
        same_origin (Text.◌++◌ proto (Text.◌++◌ "://" host)) expected)
      else Parsed.parsed tt
  check_forwarded_origin config _ _ = Parsed.parsed tt

  -- The checks on x-forwarded-host and x-forwarded-proto, where they are trusted.
  abbrev pub check_forwarded : AdapterConfig → Dict String → Parsed (Unit {0})
  check_forwarded config headers =
      let host = lookup "x-forwarded-host" headers in
      let proto = lookup "x-forwarded-proto" headers in
      if is_empty config.trusted_forwarded_headers
      then Parsed.parsed tt
      else if differ (header_truthy host) (header_truthy proto)
      then runtime_misconfigured
          "Both x-forwarded-host and x-forwarded-proto must be present together."
      else check_forwarded_origin config host proto

  abbrev pub parse_authorization : Option String → Parsed (Option String)
  parse_authorization none = Parsed.parsed none
  parse_authorization (some authorization) = do
    require (starts_with authorization "Bearer ")
    bearer_of (platform.trim (drop 7 authorization))

  abbrev pub is_non_empty_string : Field → Bool
  is_non_empty_string (Field.text t) = truthy (platform.trim t)
  is_non_empty_string _ = false

  abbrev pub is_relative_redirect : String → Bool
  is_relative_redirect value = elim (platform.relative_host value) [
    | none ↦ false
    | some host ↦ host == "n" && starts_with value "/" && not (starts_with value "//")
  ]

  abbrev pub is_redirect_field : Field → Bool
  is_redirect_field Field.missing = true
  is_redirect_field (Field.text t) = is_relative_redirect t
  is_redirect_field Field.other = false

  -- What a body must have for an action; the other actions need none.
  abbrev pub has_required_fields : SupportedAction → Body → Bool
  has_required_fields SupportedAction.start_oauth b =
      is_non_empty_string b.provider && is_redirect_field b.redirect_to
  has_required_fields SupportedAction.finish_oauth b =
      is_non_empty_string b.provider && is_non_empty_string b.code && is_non_empty_string b.state
  has_required_fields SupportedAction.request_password_reset b = is_non_empty_string b.email
  has_required_fields SupportedAction.reset_password b =
      is_non_empty_string b.reset_token && is_non_empty_string b.password
  has_required_fields SupportedAction.request_email_verification b = is_non_empty_string b.email
  has_required_fields SupportedAction.verify_email b = is_non_empty_string b.verification_token
  has_required_fields _ b = true

  abbrev pub check_body : SupportedAction → Option Body → Parsed (Unit {0})
  check_body action none = require (not (needs_body action))
  check_body action (some b) = require (has_required_fields action b)

  unfoldable pub parse_request :
      (String → Option Json) → ParseInput → AdapterConfig → Parsed RequestContext
  unfolding normalize_headers resolve_action
  parse_request json_parse input config = do
    pathname ← or_threw (platform.url_pathname input.url)
    let method = platform.to_upper_case input.method
    action ←
        resolved (resolve_action config.entrypoint_method config.entrypoint_path method pathname)
    let normalized = normalize_headers platform nothing_normalized input.headers
    check_duplicates config normalized
    check_forwarded config normalized.headers
    bearer ← parse_authorization (lookup "authorization" normalized.headers)
    credential ← credential_of (cookie_of (lookup config.session_cookie_name input.cookies)) bearer
    expected ← expected_transport (config.entrypoint_transport action)
    check_kind credential expected
    body ← parse_body json_parse input.body
    check_body action body
    Parsed.parsed (record {
      action = action;
      method = method;
      url = input.url;
      transport = transport_of credential expected;
      headers = normalized.headers;
      cookies = input.cookies;
      credential = credential;
      body = body;
      session = none;
    })
