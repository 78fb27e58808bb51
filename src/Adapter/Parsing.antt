-- ===== src/Adapter/Parsing.antt =====
-- packages/node-adapter/src/parse-request.ts, which bun-adapter and deno-adapter have word for word:
-- a request of the runtime becomes a context for the kernel, or is refused.
use authia.Prelude.{
  ℕ, zero, suc, String, Bool, true, false, ◌==◌, ◌&&◌, ◌||◌, Option, none, some, List, [], ◌∷◌,
  ◌++◌, Dict, any, find, lookup, is_some, if◌then◌else◌,
}
use authia.Contracts.Actions.{SupportedAction, supported_actions}
use authia.Contracts.Errors.{AuthError, AuthErrorCode, DeniedCode, infrastructure_error}
use authia.Contracts.Sessions.{TransportKind}
use authia.Contracts.Results.{Body}
use authia.Contracts.Services.{Platform}

-- A header of the runtime: a text, or the list of its values.
pub data HeaderValue : Type 0 where
  one : String → HeaderValue
  many : List String → HeaderValue

-- What the runtime has of a body: nothing, a text, an object with these fields, or another value.
pub data InputBody : Type 0 where
  absent : InputBody
  raw : String → InputBody
  object : Body → InputBody
  other : InputBody

pub record ParseInput : Type 0 where
  pub method : String
  pub url : String
  pub headers : Dict HeaderValue
  pub cookies : Dict String
  pub body : InputBody

-- The part of AuthConfig that an adapter is given.
pub record AdapterConfig : Type 0 where
  pub entrypoint_method : SupportedAction → Option String
  pub entrypoint_path : SupportedAction → Option String
  pub entrypoint_transport : SupportedAction → Option TransportKind
  pub session_cookie_name : String
  pub public_origin : String
  pub trusted_forwarded_headers : List String

-- How parsing ends; `threw` is a `new URL` that throws.
pub data Parsed (A : Type 0) : Type 0 where
  parsed : A → Parsed A
  not_handled : Parsed A
  denied : DeniedCode → Parsed A
  failed : AuthError → Parsed A
  threw : Parsed A

infixl 5 ◌>>=◌ ◌>>◌
unfoldable pub ◌>>=◌ : {A B : Type 0} → Parsed A → (A → Parsed B) → Parsed B
(Parsed.parsed a) >>= k = k a
Parsed.not_handled >>= k = Parsed.not_handled
(Parsed.denied code) >>= k = Parsed.denied code
(Parsed.failed e) >>= k = Parsed.failed e
Parsed.threw >>= k = Parsed.threw

abbrev pub ◌>>◌ : {A B : Type 0} → Parsed A → Parsed B → Parsed B
m >> n = m >>= λ _. n

module _ {A : Type 0} where
  abbrev pub invalid_input_result : Parsed A
  invalid_input_result = Parsed.denied DeniedCode.invalid_input

  -- new URL(…), of which a part is read.
  abbrev pub or_threw : Option A → Parsed A
  or_threw none = Parsed.threw
  or_threw (some a) = Parsed.parsed a

-- `if (!ok) return invalidInputResult();`
abbrev pub require : Bool → Parsed (Unit {0})
require true = Parsed.parsed tt
require false = invalid_input_result

abbrev pub runtime_misconfigured : {A : Type 0} → String → Parsed A
runtime_misconfigured message =
    Parsed.failed (infrastructure_error AuthErrorCode.runtime_misconfigured message)

abbrev pub sensitive_headers : List String
sensitive_headers =
    "authorization" ∷ "origin" ∷ "referer" ∷ "x-forwarded-host" ∷ "x-forwarded-proto" ∷ []

-- The lower-case names that every JavaScript object inherits, which `in` finds in an empty one.
abbrev pub inherited_names : List String
inherited_names = "constructor" ∷ "__proto__" ∷ []

abbrev pub contains : List String → String → Bool
contains names name = any (λ n. n == name) names

abbrev pub name_in : String → Dict String → Bool
name_in name headers = is_some (lookup name headers) || contains inherited_names name

-- The single value of a header, if it has one.
abbrev pub single_value : HeaderValue → Option String
single_value (HeaderValue.one v) = some v
single_value (HeaderValue.many (v ∷ [])) = some v
single_value (HeaderValue.many _) = none

-- The headers that are kept, and the names that came more than once.
pub record Normalized : Type 0 where
  pub headers : Dict String
  pub duplicates : List String

abbrev pub add_duplicate : String → Normalized → Normalized
add_duplicate name n = record n { duplicates = n.duplicates ++ name ∷ [] }

abbrev pub add_header : String → Option String → Normalized → Normalized
add_header name none n = add_duplicate name n
add_header name (some v) n =
    if name_in name n.headers
    then add_duplicate name n
    else record n { headers = n.headers ++ (name, v) ∷ [] }

-- The loop of normalizeHeaders, from what it has so far.
unfoldable pub normalize_headers : Platform → Normalized → Dict HeaderValue → Normalized
normalize_headers platform n [] = n
normalize_headers platform n ((raw_name, raw_value) ∷ rest) =
    normalize_headers platform
      (add_header (platform.to_lower_case raw_name) (single_value raw_value) n) rest

abbrev pub nothing_normalized : Normalized
nothing_normalized = record { headers = []; duplicates = [] }

-- `given === text`, where `given` may be undefined.
abbrev pub is_text : Option String → String → Bool
is_text none wanted = false
is_text (some given) wanted = given == wanted

abbrev pub matches_route :
    (SupportedAction → Option String)
    → (SupportedAction → Option String)
    → String
    → String
    → SupportedAction
    → Bool
matches_route methods paths method pathname action =
    is_text (methods action) method && is_text (paths action) pathname

unfoldable pub resolve_action :
    (SupportedAction → Option String)
    → (SupportedAction → Option String)
    → String
    → String
    → Option SupportedAction
resolve_action methods paths method pathname =
    find (matches_route methods paths method pathname) supported_actions

abbrev pub resolved : Option SupportedAction → Parsed SupportedAction
resolved none = Parsed.not_handled
resolved (some action) = Parsed.parsed action

abbrev pub drop : ℕ → String → String
drop zero s = s
drop (suc n) String.[] = ""
drop (suc n) (String.◌∷◌ c s) = drop n s
