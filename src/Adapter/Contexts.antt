-- ===== src/Adapter/Contexts.antt =====
-- What holds of every context that parseRequest of packages/node-adapter/src/parse-request.ts makes.
use authia.Prelude.{
  ap, subst, ◌≡◌, refl, sym, subst, ◌∙◌, String, true, false, Option, none, some, any, lookup,
}
use authia.Contracts.Actions.{SupportedAction, supported_actions}
use authia.Contracts.Sessions.{TransportKind, SessionTransport}
use authia.Contracts.Results.{Body, RequestContext}
use authia.Contracts.Services.{Platform}
use authia.Adapter.Parsing.{
  ParseInput, AdapterConfig, Parsed, or_threw, Normalized, nothing_normalized, normalize_headers,
  matches_route, resolve_action, resolved,
}
use authia.Adapter.ParseRequest.{
  Json, transport_of, is_ambiguous, check_duplicates, parse_authorization, cookie_of, credential_of,
  expected_transport, check_kind, has_required_fields, needs_body, check_body, parse_request,
}
use authia.Adapter.Headers.{option_list, values_of, normalize-values}
use authia.Adapter.Inversion.{
  bind_parsed, parsed_eq, require-true, or_threw-some, resolved-some, find-holds, is_text-some,
  and-both, expected-some, same_kind-eq, untested, not-true,
}
use authia.Adapter.Credentials.{
  OnCredential, parse_authorization-OnBearer, credential_of-OnCredential,
}

-- The kind of a credential, if there is one.
abbrev pub OnKind : TransportKind → Option SessionTransport → Type 0
OnKind expected none = Unit
OnKind expected (some credential) = credential.kind ≡ expected

check_kind-OnKind :
    (credential : Option SessionTransport) (expected : TransportKind) (u : Unit {0})
    → check_kind credential expected ≡ Parsed.parsed u
    → OnKind expected credential
check_kind-OnKind none expected u h = tt
check_kind-OnKind (some credential) expected u h =
    same_kind-eq credential.kind expected (require-true _ u h)

transport_of-expected :
    (credential : Option SessionTransport) (expected : TransportKind)
    → OnKind expected credential
    → transport_of credential expected ≡ expected
transport_of-expected none expected h = refl
transport_of-expected (some credential) expected h = h

abbrev pub OnBody : Platform → SupportedAction → Option Body → Type 0
OnBody platform action none = needs_body action ≡ false
OnBody platform action (some b) = has_required_fields platform action b ≡ true

check_body-OnBody :
    (platform : Platform) (action : SupportedAction) (body : Option Body) (u : Unit {0})
    → check_body platform action body ≡ Parsed.parsed u
    → OnBody platform action body
check_body-OnBody platform action none u h = not-true _ (require-true _ u h)
check_body-OnBody platform action (some b) u h = require-true _ u h

-- What holds of a context that is made from a request.
pub record IsFaithful (platform : Platform) (config : AdapterConfig) (input : ParseInput)
    (context : RequestContext) : Type 0 where
  pub method : config.entrypoint_method context.action ≡ some context.method
  pub same_method : context.method ≡ platform.to_upper_case input.method
  pub same_url : context.url ≡ input.url
  pub path : platform.url_pathname input.url ≡ config.entrypoint_path context.action
  pub transport : config.entrypoint_transport context.action ≡ some context.transport
  pub kind : OnKind context.transport context.credential
  pub credential : OnCredential platform config input context.headers context.credential
  pub body : OnBody platform context.action context.body
  pub headers :
      (name : String)
      → is_ambiguous config name ≡ true
      → values_of platform name input.headers ≡ option_list (lookup name context.headers)
  pub no_session : context.session ≡ none

module _ (platform : Platform) (config : AdapterConfig) (input : ParseInput) where
  abbrev kept : Normalized
  kept = normalize_headers platform nothing_normalized input.headers

  abbrev context_of :
      SupportedAction → TransportKind → Option SessionTransport → Option Body → RequestContext
  context_of action expected credential body = record {
    action = action;
    method = platform.to_upper_case input.method;
    url = input.url;
    transport = transport_of credential expected;
    headers = kept.headers;
    cookies = input.cookies;
    credential = credential;
    body = body;
    session = none;
  }

  -- Of a header that is not accepted twice, the request has the value that is kept, and no other.
  kept_headers :
      (u : Unit {0}) (name : String)
      → check_duplicates config kept ≡ Parsed.parsed u
      → is_ambiguous config name ≡ true
      → values_of platform name input.headers ≡ option_list (lookup name kept.headers)
  kept_headers u name checked sensitive =
      normalize-values platform name nothing_normalized input.headers (
        untested (is_ambiguous config) kept.duplicates name
          (not-true (any (is_ambiguous config) kept.duplicates) (require-true _ u checked))
          sensitive)

  context_of-IsFaithful :
      (pathname : String) (action : SupportedAction) (expected : TransportKind)
      (bearer : Option String) (credential : Option SessionTransport) (body : Option Body)
      (u : Unit {0})
      → or_threw (platform.url_pathname input.url) ≡ Parsed.parsed pathname
      → resolved (
          resolve_action config.entrypoint_method config.entrypoint_path
            (platform.to_upper_case input.method)
            pathname)
        ≡ Parsed.parsed action
      → check_duplicates config kept ≡ Parsed.parsed u
      → parse_authorization platform (lookup "authorization" kept.headers) ≡ Parsed.parsed bearer
      → credential_of (cookie_of (lookup config.session_cookie_name input.cookies)) bearer
        ≡ Parsed.parsed credential
      → expected_transport (config.entrypoint_transport action) ≡ Parsed.parsed expected
      → check_kind credential expected ≡ Parsed.parsed u
      → check_body platform action body ≡ Parsed.parsed u
      → IsFaithful platform config input (context_of action expected credential body)
  unfolding resolve_action
  context_of-IsFaithful pathname action expected bearer credential body u located routed checked
        authorized presented transported kinds bodied =
      let matched =
        find-holds
          (matches_route config.entrypoint_method config.entrypoint_path
            (platform.to_upper_case input.method) pathname)
          supported_actions action (resolved-some _ action routed) in
      let (by_method, by_path) = and-both _ _ matched in
      let on_kind = check_kind-OnKind credential expected u kinds in
      record {
        method = is_text-some _ _ by_method;
        same_method = refl;
        same_url = refl;
        path = or_threw-some _ pathname located ∙ sym (is_text-some _ _ by_path);
        transport =
            expected-some _ expected transported
            ∙ ap some (sym (transport_of-expected credential expected on_kind));
        kind =
            subst (λ k. OnKind k credential)
              (sym (transport_of-expected credential expected on_kind)) on_kind;
        credential =
            credential_of-OnCredential platform config input kept.headers _ bearer credential refl
              (parse_authorization-OnBearer platform config input kept.headers _ bearer refl
                authorized)
              presented;
        body = check_body-OnBody platform action body u bodied;
        headers = λ name. kept_headers u name checked;
        no_session = refl;
      }

-- A context that parseRequest makes has an action whose method and path are those of the request; its
-- transport is the one configured for the action; its credential, if any, is of that transport, not
-- empty, and presented in its one place, the session cookie or a bearer header, while the other place
-- presents none; its body has the fields that the action needs; of the headers authorization, origin,
-- referer, x-forwarded-host and x-forwarded-proto, and of those that are configured as trusted forwarded
-- headers, it has the only value that the request has, whatever the case of the name, or none where the
-- request has none; and it has no session yet. Of other headers nothing is stated.
pub parse_request-IsFaithful :
    (platform : Platform) (json_parse : String → Option Json) (input : ParseInput)
    (config : AdapterConfig) (context : RequestContext)
    → parse_request platform json_parse input config ≡ Parsed.parsed context
    → IsFaithful platform config input context
unfolding parse_request
parse_request-IsFaithful platform json_parse input config context h =
    let (pathname, e1, h1) = bind_parsed _ _ h in
    let (action, e2, h2) = bind_parsed _ _ h1 in
    let (u3, e3, h3) = bind_parsed _ _ h2 in
    let (u4, e4, h4) = bind_parsed _ _ h3 in
    let (bearer, e5, h5) = bind_parsed _ _ h4 in
    let (credential, e6, h6) = bind_parsed _ _ h5 in
    let (expected, e7, h7) = bind_parsed _ _ h6 in
    let (u8, e8, h8) = bind_parsed _ _ h7 in
    let (body, e9, h9) = bind_parsed _ _ h8 in
    let (u10, e10, h10) = bind_parsed _ _ h9 in
    subst (IsFaithful platform config input) (parsed_eq h10) (
      context_of-IsFaithful platform config input pathname action expected bearer credential body tt
        e1 e2 e3 e5 e6 e7 e8 e10)
