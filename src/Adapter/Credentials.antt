-- ===== src/Adapter/Credentials.antt =====
-- Where parseRequest of packages/node-adapter/src/parse-request.ts takes a credential from.
use authia.Prelude.{◌≡◌, refl, subst, String, true, Option, none, some, Dict, lookup, truthy, arith}
use text.Mathlib.Text.{starts_with}
use authia.Contracts.Sessions.{TransportKind, SessionTransport}
use authia.Contracts.Services.{Platform}
use authia.Adapter.Parsing.{ParseInput, AdapterConfig, Parsed, drop}
use authia.Adapter.ParseRequest.{parse_authorization, bearer_of, cookie_of, credential_of}
use authia.Adapter.Inversion.{bind_parsed, parsed_eq, require-true}

-- The one place that presents a credential; the other presents none.
module _ (platform : Platform) (config : AdapterConfig) (input : ParseInput)
    (headers : Dict String) where
  abbrev pub cookie_token : Option String
  cookie_token = cookie_of (lookup config.session_cookie_name input.cookies)

  abbrev pub IsPresented : TransportKind → String → Type 0
  IsPresented TransportKind.cookie token =
      (lookup config.session_cookie_name input.cookies ≡ some token)
      × (truthy token ≡ true)
      × (lookup "authorization" headers ≡ none)
  IsPresented TransportKind.bearer token =
      (authorization : String) × (lookup "authorization" headers ≡ some authorization)
      × (starts_with authorization "Bearer " ≡ true)
      × (token ≡ platform.trim (drop 7 authorization))
      × (truthy token ≡ true)
      × (cookie_token ≡ none)

  abbrev pub OnCredential : Option SessionTransport → Type 0
  OnCredential none = (lookup "authorization" headers ≡ none) × (cookie_token ≡ none)
  OnCredential (some credential) = IsPresented credential.kind credential.token

  -- A bearer token that the header gives.
  abbrev pub OnBearer : Option String → Type 0
  OnBearer none = lookup "authorization" headers ≡ none
  OnBearer (some token) =
      (authorization : String) × (lookup "authorization" headers ≡ some authorization)
      × (starts_with authorization "Bearer " ≡ true)
      × (token ≡ platform.trim (drop 7 authorization))
      × (truthy token ≡ true)

  pub bearer_of-OnBearer :
      (authorization : String) (bearer : Option String)
      → lookup "authorization" headers ≡ some authorization
      → starts_with authorization "Bearer " ≡ true
      → bearer_of (platform.trim (drop 7 authorization)) ≡ Parsed.parsed bearer
      → OnBearer bearer
  bearer_of-OnBearer authorization bearer found prefix h =
      let (u, tested, rest) = bind_parsed _ _ h in
      let both = require-true _ u tested in
      let token = platform.trim (drop 7 authorization) in
      let given : OnBearer (some token) = (authorization, found, prefix, refl, ground arith) in
      subst OnBearer (parsed_eq rest) given

  pub parse_authorization-OnBearer :
      (header bearer : Option String)
      → lookup "authorization" headers ≡ header
      → parse_authorization platform header ≡ Parsed.parsed bearer
      → OnBearer bearer
  parse_authorization-OnBearer none bearer found h = subst OnBearer (parsed_eq h) found
  parse_authorization-OnBearer (some authorization) bearer found h =
      let (u, tested, rest) = bind_parsed _ _ h in
      bearer_of-OnBearer authorization bearer found (require-true _ u tested) rest

  pub cookie_of-some :
      (o : Option String) (token : String)
      → cookie_of o ≡ some token
      → (o ≡ some token) × (truthy token ≡ true)
  cookie_of-some none token h = cc
  cookie_of-some (some t) token h = ground arith

  pub credential_of-OnCredential :
      (cookie bearer : Option String) (credential : Option SessionTransport)
      → cookie_token ≡ cookie
      → OnBearer bearer
      → credential_of cookie bearer ≡ Parsed.parsed credential
      → OnCredential credential
  credential_of-OnCredential (some c) (some b) credential e h p = cc
  credential_of-OnCredential none (some b) credential e h p =
      let given : IsPresented TransportKind.bearer b = (h.0, h.1, h.2, h.3, h.4, e) in
      subst OnCredential (parsed_eq p) given
  credential_of-OnCredential (some c) none credential e h p =
      let (found, filled) = cookie_of-some _ c e in
      let given : IsPresented TransportKind.cookie c = (found, filled, h) in
      subst OnCredential (parsed_eq p) given
  credential_of-OnCredential none none credential e h p =
      let absent : OnCredential none = (h, e) in subst OnCredential (parsed_eq p) absent
