-- ===== src/Adapter/Handled.antt =====
-- When parseRequest of packages/node-adapter/src/parse-request.ts answers that it does not handle a
-- request: only where no action has the method and the path.
use authia.Prelude.{
  ◌≡◌, ◌≢◌, refl, String, Bool, true, false, if◌then◌else◌, Option, none, some, Dict, lookup,
  differ, truthy, ◌&&◌, ◌==◌, ap, subst,
}
use authia.Contracts.Actions.{SupportedAction}
use authia.Contracts.Sessions.{TransportKind, SessionTransport}
use authia.Contracts.Results.{Body}
use authia.Contracts.Services.{Platform}
use authia.Csrf.{header_truthy}
use authia.Adapter.Parsing.{
  InputBody, ParseInput, AdapterConfig, Parsed, ◌>>=◌, or_threw, require, resolve_action, resolved,
  Normalized, nothing_normalized, normalize_headers,
}
use authia.Adapter.ParseRequest.{
  Json, is_empty, same_origin, credential_of, expected_transport, check_kind, parsed_json,
  parse_body, check_forwarded_origin, check_forwarded, parse_authorization, check_body,
  parse_request, check_duplicates, cookie_of,
}

-- An outcome other than that the request is not handled.
abbrev pub IsTaken : {A : Type 0} → Parsed A → Type 0
IsTaken Parsed.not_handled = ⊥
IsTaken _ = Unit

taken_differs : {A : Type 0} (m : Parsed A) → IsTaken m → m ≢ Parsed.not_handled
taken_differs Parsed.not_handled h = absurd h
taken_differs (Parsed.parsed a) h = λ e. cc e
taken_differs (Parsed.denied code) h = λ e. cc e
taken_differs (Parsed.failed f) h = λ e. cc e
taken_differs Parsed.threw h = λ e. cc e

bind-IsTaken :
    {A B : Type 0} (m : Parsed A) (k : A → Parsed B)
    → IsTaken m
    → ((a : A) → IsTaken (k a))
    → IsTaken (m >>= k)
unfolding ◌>>=◌
bind-IsTaken (Parsed.parsed a) k h rest = rest a
bind-IsTaken Parsed.not_handled k h rest = h
bind-IsTaken (Parsed.denied code) k h rest = tt
bind-IsTaken (Parsed.failed f) k h rest = tt
bind-IsTaken Parsed.threw k h rest = tt

-- A step that is known to go on.
bind_on :
    {A B : Type 0} (m : Parsed A) (k : A → Parsed B) (a : A)
    → m ≡ Parsed.parsed a
    → IsTaken (k a)
    → IsTaken (m >>= k)
unfolding ◌>>=◌
bind_on (Parsed.parsed b) k a e h = subst (λ x. IsTaken (k x)) (cc e) h
bind_on Parsed.not_handled k a e h = cc e
bind_on (Parsed.denied code) k a e h = cc e
bind_on (Parsed.failed f) k a e h = cc e
bind_on Parsed.threw k a e h = cc e

if-IsTaken :
    {A : Type 0} (b : Bool) (m n : Parsed A) → IsTaken m → IsTaken n → IsTaken (if b then m else n)
if-IsTaken true m n hm hn = hm
if-IsTaken false m n hm hn = hn

or_threw-IsTaken : {A : Type 0} (o : Option A) → IsTaken (or_threw o)
or_threw-IsTaken none = tt
or_threw-IsTaken (some a) = tt

require-IsTaken : (b : Bool) → IsTaken (require b)
require-IsTaken true = tt
require-IsTaken false = tt

same_origin-IsTaken : (forwarded expected : String) → IsTaken (same_origin forwarded expected)
same_origin-IsTaken forwarded expected = if-IsTaken {A = Unit {0}} (forwarded == expected) _ _ tt tt

credential_of-IsTaken : (cookie bearer : Option String) → IsTaken (credential_of cookie bearer)
credential_of-IsTaken none none = tt
credential_of-IsTaken none (some bearer) = tt
credential_of-IsTaken (some cookie) none = tt
credential_of-IsTaken (some cookie) (some bearer) = tt

expected_transport-IsTaken : (kind : Option TransportKind) → IsTaken (expected_transport kind)
expected_transport-IsTaken none = tt
expected_transport-IsTaken (some kind) = tt

check_kind-IsTaken :
    (credential : Option SessionTransport) (expected : TransportKind)
    → IsTaken (check_kind credential expected)
check_kind-IsTaken none expected = tt
check_kind-IsTaken (some credential) expected = require-IsTaken _

parsed_json-IsTaken : (json : Option Json) → IsTaken (parsed_json json)
parsed_json-IsTaken none = tt
parsed_json-IsTaken (some Json.scalar) = tt
parsed_json-IsTaken (some (Json.object b)) = tt

parse_body-IsTaken :
    (json_parse : String → Option Json) (body : InputBody) → IsTaken (parse_body json_parse body)
parse_body-IsTaken json_parse InputBody.absent = tt
parse_body-IsTaken json_parse (InputBody.raw t) = parsed_json-IsTaken (json_parse t)
parse_body-IsTaken json_parse (InputBody.object b) = tt
parse_body-IsTaken json_parse InputBody.other = tt

module _ (platform : Platform) where
  check_body-IsTaken :
      (action : SupportedAction) (body : Option Body) → IsTaken (check_body platform action body)
  check_body-IsTaken action none = require-IsTaken _
  check_body-IsTaken action (some b) = require-IsTaken _

  parse_authorization-IsTaken :
      (authorization : Option String) → IsTaken (parse_authorization platform authorization)
  parse_authorization-IsTaken none = tt
  parse_authorization-IsTaken (some authorization) =
      bind-IsTaken (require _) _ (require-IsTaken _)
        (λ u. bind-IsTaken (require _) _ (require-IsTaken _) (λ v. tt))

  check_forwarded_origin-IsTaken :
      (config : AdapterConfig) (host proto : Option String)
      → IsTaken (check_forwarded_origin platform config host proto)
  check_forwarded_origin-IsTaken config none proto = tt
  check_forwarded_origin-IsTaken config (some host) none = tt
  check_forwarded_origin-IsTaken config (some host) (some proto) =
      if-IsTaken (truthy host && truthy proto) _ _
        (bind-IsTaken (or_threw (platform.url_origin config.public_origin)) _ (or_threw-IsTaken _)
          (λ expected. same_origin-IsTaken _ expected))
        tt

  check_forwarded-IsTaken :
      (config : AdapterConfig) (headers : Dict String)
      → IsTaken (check_forwarded platform config headers)
  check_forwarded-IsTaken config headers =
      if-IsTaken (is_empty config.trusted_forwarded_headers) _ _ tt (
        if-IsTaken
          (differ (header_truthy (lookup "x-forwarded-host" headers))
            (header_truthy (lookup "x-forwarded-proto" headers)))
          _ _ tt
          (check_forwarded_origin-IsTaken config (lookup "x-forwarded-host" headers)
            (lookup "x-forwarded-proto" headers)))

  module _ (json_parse : String → Option Json) (input : ParseInput) (config : AdapterConfig)
      (path : String) (located : platform.url_pathname input.url ≡ some path) where
    abbrev normalized : Normalized
    normalized = normalize_headers platform nothing_normalized input.headers

    abbrev resolution : Option SupportedAction
    resolution =
        resolve_action config.entrypoint_method config.entrypoint_path
          (platform.to_upper_case input.method) path

    -- A request whose method and path resolve to an action is handled.
    pub resolved-taken :
        (action : SupportedAction)
        → resolution ≡ some action
        → parse_request platform json_parse input config ≢ Parsed.not_handled
    unfolding parse_request
    resolved-taken action e = taken_differs (parse_request platform json_parse input config) (
        bind_on (or_threw (platform.url_pathname input.url)) _ path (ap or_threw located) (
          bind_on (resolved resolution) _ action (ap resolved e) (
            bind-IsTaken (check_duplicates config normalized) _ (require-IsTaken _) (λ u1.
              bind-IsTaken (check_forwarded platform config normalized.headers) _
                (check_forwarded-IsTaken config normalized.headers)
                (λ u2.
                  bind-IsTaken
                    (parse_authorization platform (lookup "authorization" normalized.headers)) _
                    (parse_authorization-IsTaken _)
                    (λ bearer.
                      bind-IsTaken
                        (credential_of (cookie_of (lookup config.session_cookie_name input.cookies))
                          bearer)
                        _ (credential_of-IsTaken _ bearer)
                        (λ credential.
                          bind-IsTaken (expected_transport (config.entrypoint_transport action)) _
                            (expected_transport-IsTaken _)
                            (λ expected.
                              bind-IsTaken (check_kind credential expected) _
                                (check_kind-IsTaken credential expected)
                                (λ u3.
                                  bind-IsTaken (parse_body json_parse input.body) _
                                    (parse_body-IsTaken json_parse input.body)
                                    (λ body.
                                      bind-IsTaken (check_body platform action body) _
                                        (check_body-IsTaken action body) (λ u4. tt)))))))))))

    -- One whose method and path resolve to none is not.
    pub unresolved-not_handled :
        resolution ≡ none → parse_request platform json_parse input config ≡ Parsed.not_handled
    unfolding parse_request ◌>>=◌
    unresolved-not_handled e = rw located (rw e refl)
