-- ===== src/Contracts/Results.antt =====
-- packages/contracts/src/runtime.ts: the request context and the results.
use authia.Prelude.{ℕ, String, Bool, Option, none, some, List, Dict}
use authia.Contracts.Actions.{SupportedAction}
use authia.Contracts.Errors.{DeniedCode, UnauthenticatedCode, AuthError}
use authia.Contracts.Sessions.{
  TransportKind, SessionTransport, User, SessionRecord, AuthenticatedSession,
}

-- CookieMutation, with the options that the packages set.
pub record CookieMutation : Type 0 where
  pub name : String
  pub value : Option String
  pub path : Option String
  pub expires : Option ℕ
  pub http_only : Bool

pub record ResponseMutations : Type 0 where
  pub set_cookies : Option (List CookieMutation)
  pub clear_cookies : Option (List CookieMutation)
  pub clear_bearer : Option Bool
  pub redirect_to : Option String

-- A field of the body as it arrives: the declared type is not enforced on parsed JSON.
pub data Field : Type 0 where
  missing : Field
  text : String → Field
  other : Field

pub record Body : Type 0 where
  pub email : Field
  pub password : Field
  pub reset_token : Field
  pub verification_token : Field
  pub provider : Field
  pub redirect_to : Field
  pub code : Field
  pub state : Field

pub record RequestContext : Type 0 where
  pub action : SupportedAction
  pub method : String
  pub url : String
  pub transport : TransportKind
  pub headers : Dict String
  pub cookies : Dict String
  pub credential : Option SessionTransport
  pub body : Option Body
  pub session : Option AuthenticatedSession

-- The variants of AuthResult. `session_success` is that of signUpWithPassword, signInWithPassword,
-- refreshSession and finishOAuth; `plain_success` is that of the actions with no payload.
pub data AuthResult : Type 0 where
  session_success : SupportedAction → User → SessionRecord → SessionTransport → AuthResult
  plain_success : SupportedAction → Option ResponseMutations → AuthResult
  current_session : User → SessionRecord → AuthResult
  denied : DeniedCode → AuthResult
  redirect : ResponseMutations → String → AuthResult
  unauthenticated : UnauthenticatedCode → AuthResult

abbrev pub invalid_input : AuthResult
invalid_input = AuthResult.denied DeniedCode.invalid_input

-- context.body?.f
abbrev pub body_field : (Body → Field) → RequestContext → Field
body_field f context = elim (context.body) [ none ↦ Field.missing | some b ↦ f b ]

-- AuthResult | AuthError.
pub data Reply : Type 0 where
  result : AuthResult → Reply
  failure : AuthError → Reply
