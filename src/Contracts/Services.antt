-- ===== src/Contracts/Services.antt =====
-- packages/contracts/src/plugin.ts: policies, services and plugins; and what the packages use of
-- the JavaScript platform, which enters as a parameter.
use authia.Prelude.{ℕ, String, Bool, Option, List}
use authia.Contracts.Actions.{SupportedAction}
use authia.Contracts.Errors.{DeniedCode}
use authia.Contracts.Sessions.{User, SessionRecord, SessionTransport, SessionValidationOutcome}
use authia.Contracts.Results.{RequestContext, AuthResult}
use authia.Contracts.Storage.{
  TransactionalStorage, StorageAdapter, OauthState, OauthStateCreateInput, ConsumedState,
}
use authia.Io.{Io}

-- The parts of the platform that are pure: text, and WHATWG URLs. `none` is a `new URL` that throws.
pub record Platform : Type 0 where
  pub trim : String → String
  pub to_lower_case : String → String
  pub to_upper_case : String → String
  pub normalize_nfc : String → String
  -- new URL(text).origin
  pub url_origin : String → Option String
  -- new URL(text).pathname
  pub url_pathname : String → Option String
  -- new URL(text), its protocol and hostname
  pub url_protocol_and_host : String → Option (String × String)
  -- new URL(text, 'http://n').hostname
  pub relative_host : String → Option String
  -- new URL(path, origin).toString()
  pub resolve_url : String → String → Option String

pub data PolicyDecision : Type 0 where
  allow : PolicyDecision
  deny : DeniedCode → PolicyDecision
  redirect : String → PolicyDecision

pub record IssuedSession : Type 0 where
  pub session : SessionRecord
  pub transport : SessionTransport

-- What refreshing returns: a session, or one of the two results that are no error.
pub data RefreshOutcome : Type 0 where
  refreshed : IssuedSession → RefreshOutcome
  declined : AuthResult → RefreshOutcome

pub record ProviderConfig : Type 0 where
  pub client_id : String
  pub authorization_endpoint : String
  pub token_endpoint : String
  pub callback_path : String
  pub pkce_method : String

module _ (W : Type 0) where
  pub record Policy : Type 0 where
    pub may_redirect : Bool
    -- `none`: the evaluation throws
    pub evaluate : RequestContext → W → Option PolicyDecision × W

  pub record Crypto : Type 0 where
    pub hash_secret : String → Io W String
    pub verify_secret : String → String → Io W Bool
    pub generate_opaque_token : Io W String
    pub derive_token_id : String → Io W String
    pub derive_token_verifier : String → Io W String
    pub verify_opaque_token : String → String → Io W Bool

  -- PluginServices['sessions']
  pub record SessionLayer : Type 0 where
    pub issue_session : User → TransactionalStorage W → RequestContext → Io W IssuedSession
    pub validate_session : Option SessionTransport → RequestContext → Io W SessionValidationOutcome
    pub refresh_session :
        SessionRecord → TransactionalStorage W → RequestContext → Io W RefreshOutcome
    pub revoke_session : String → Option (TransactionalStorage W) → Io W (Unit {0})
    pub revoke_all_sessions : String → Option (TransactionalStorage W) → Io W ℕ

  pub record OauthStateStore : Type 0 where
    pub create : OauthStateCreateInput → Io W OauthState
    pub consume : String → String → ℕ → Io W (Option ConsumedState)

  pub record OauthProviderClient : Type 0 where
    -- provider, redirect URI, state, code challenge
    pub build_authorization_url : String → String → String → String → Io W String
    -- provider, code, redirect URI, code verifier; the provider's subject
    pub exchange_code : String → String → String → String → Io W String

  pub record EmailDelivery : Type 0 where
    -- email, token
    pub send_password_reset : String → String → Io W (Unit {0})
    pub send_email_verification : String → String → Io W (Unit {0})

  pub record PluginServices : Type 1 where
    pub platform : Platform
    -- Date.now()
    pub now : Io W ℕ
    pub storage : StorageAdapter W
    pub crypto : Crypto
    pub sessions : SessionLayer
    pub oauth_state_store : Option OauthStateStore
    pub oauth_provider_client : Option OauthProviderClient
    pub email_delivery : Option EmailDelivery

  pub record Plugin : Type 1 where
    pub id : String
    pub actions : List SupportedAction
    pub execute : SupportedAction → RequestContext → PluginServices → Io W AuthResult
