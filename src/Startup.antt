-- ===== src/Startup.antt =====
-- packages/core/src/startup/validate-startup.ts.
pub mod Accepted
use Prim.Native.String as Text
use authia.Prelude.{
  String, Bool, true, false, not, ◌==◌, ◌&&◌, ◌||◌, Option, none, some, List, [], ◌∷◌, Dict, any,
  differ, truthy, is_some, if◌then◌else◌,
}
use authia.Contracts.Actions.{SupportedAction, supported_actions, action_name, includes_action}
use authia.Contracts.Errors.{ValidationResult}
use authia.Contracts.Sessions.{TransportKind, same_kind}
use authia.Contracts.Services.{ProviderConfig}
use authia.Kernel.Ownership.{built_in_actions}

pub data SessionTransportMode : Type 0 where
  fixed : TransportKind → SessionTransportMode
  both : SessionTransportMode

-- What AuthConfig gives to the validation. A method or path that is absent or undefined is `none`, and
-- so is a provider that is no object. For a transport the two differ: `none` is a key that is absent,
-- `some none` one that is there and undefined.
pub record StartupConfig : Type 0 where
  pub entrypoint_method : SupportedAction → Option String
  pub entrypoint_path : SupportedAction → Option String
  pub entrypoint_transport : SupportedAction → Option (Option TransportKind)
  pub session_transport_mode : SessionTransportMode
  pub oauth_providers : Option (Dict (Option ProviderConfig))
  pub session_cookie_name : String
  pub cookie_path : String
  -- policy.capabilities.mayRedirect
  pub policies_redirect : List Bool

-- The value under a key: undefined where the key is absent.
abbrev pub value_of : {A : Type 0} → Option (Option A) → Option A
value_of none = none
value_of (some value) = value

-- The checks in sequence: the first that fails is the result.
infixr 20 ◌and_then◌
abbrev pub ◌and_then◌ : ValidationResult → ValidationResult → ValidationResult
ValidationResult.valid and_then next = next
(ValidationResult.misconfigured message) and_then next = ValidationResult.misconfigured message

abbrev pub reject_if : Bool → String → ValidationResult
reject_if true message = ValidationResult.misconfigured message
reject_if false message = ValidationResult.valid

-- The first item that fails a check decides.
abbrev pub check_each : {A : Type 0} → (A → ValidationResult) → List A → ValidationResult
check_each check [] = ValidationResult.valid
check_each check (x ∷ xs) = check x and_then check_each check xs

-- Checks that stand one after the other.
abbrev pub first_failure : List ValidationResult → ValidationResult
first_failure results = check_each (λ r. r) results

abbrev pub select_actions : (SupportedAction → Bool) → List SupportedAction → List SupportedAction
select_actions p [] = []
select_actions p (a ∷ rest) = if p a then a ∷ select_actions p rest else select_actions p rest

module _ (config : StartupConfig) where
  abbrev pub is_configured : SupportedAction → Bool
  is_configured action =
      is_some (config.entrypoint_method action)
      && is_some (config.entrypoint_path action)
      && is_some (value_of (config.entrypoint_transport action))

  abbrev pub is_mentioned : SupportedAction → Bool
  is_mentioned action =
      is_some (config.entrypoint_method action)
      || is_some (config.entrypoint_path action)
      || is_some (value_of (config.entrypoint_transport action))

  abbrev pub configured_actions : List SupportedAction
  configured_actions = select_actions is_configured supported_actions

  abbrev pub optional_actions : List SupportedAction
  optional_actions =
      SupportedAction.start_oauth ∷ SupportedAction.finish_oauth
      ∷ SupportedAction.request_password_reset ∷ SupportedAction.reset_password
      ∷ SupportedAction.request_email_verification ∷ SupportedAction.verify_email ∷ []

  -- configuredCount > 0 && configuredCount < 3
  abbrev pub check_complete : SupportedAction → ValidationResult
  check_complete action =
      reject_if (is_mentioned action && not (is_configured action))
        (Text.◌++◌ (action_name action) " must define method, path, and transport together.")

  abbrev pub configures : SupportedAction → Bool
  configures action = includes_action configured_actions action

  abbrev pub check_pair : SupportedAction → SupportedAction → String → ValidationResult
  check_pair a b message = reject_if (differ (configures a) (configures b)) message

  abbrev pub provider_message : String → String → String
  provider_message id rest = Text.◌++◌ (Text.◌++◌ "OAuth provider " id) rest

  abbrev pub check_provider : String × Option ProviderConfig → ValidationResult
  check_provider (id, none) =
      ValidationResult.misconfigured (provider_message id " must be an object configuration.")
  check_provider (id, some p) =
      reject_if
        (not (truthy p.client_id)
          || not (truthy p.authorization_endpoint)
          || not (truthy p.token_endpoint)
          || not (truthy p.callback_path))
        (provider_message id " is missing required configuration.")
      and_then reject_if (not (p.pkce_method == "S256"))
          (provider_message id " must use PKCE S256.")

  abbrev pub callback_path : Option ProviderConfig → String
  callback_path none = ""
  callback_path (some p) = p.callback_path

  abbrev pub path_is : String → SupportedAction → Bool
  path_is path action = elim (config.entrypoint_path action) [
    | none ↦ false
    | some given ↦ truthy given && given == path
  ]

  abbrev pub contains : List String → String → Bool
  contains seen text = any (λ s. s == text) seen

  -- The loop over the callback paths, with those that it has seen.
  abbrev pub check_callbacks : List String → Dict (Option ProviderConfig) → ValidationResult
  check_callbacks seen [] = ValidationResult.valid
  check_callbacks seen ((id, p) ∷ rest) =
      reject_if (any (path_is (callback_path p)) supported_actions)
        (provider_message id " callbackPath collides with an existing entrypoint path.")
      and_then reject_if (contains seen (callback_path p))
          (provider_message id " callbackPath collides with another provider callback.")
      and_then check_callbacks (callback_path p ∷ seen) rest

  abbrev pub missing_providers : ValidationResult
  missing_providers =
      ValidationResult.misconfigured "OAuth actions require oauthProviders configuration."

  abbrev pub check_providers : Option (Dict (Option ProviderConfig)) → Bool → ValidationResult
  check_providers none redirects = missing_providers
  check_providers (some []) redirects = missing_providers
  check_providers (some (p ∷ ps)) redirects =
      check_each check_provider (p ∷ ps)
      and_then check_callbacks [] (p ∷ ps)
      and_then reject_if (not redirects) "OAuth actions require runtime redirect capability."

  unfoldable pub check_oauth : Bool → ValidationResult
  check_oauth redirects =
      if configures SupportedAction.start_oauth || configures SupportedAction.finish_oauth
      then check_providers config.oauth_providers redirects
      else ValidationResult.valid

  -- `value !== mode`, of a value of Object.values: an absent key has none, an undefined value differs.
  abbrev pub mismatches : TransportKind → SupportedAction → Bool
  mismatches mode action = elim (config.entrypoint_transport action) [
    | none ↦ false
    | some value ↦ elim value [ none ↦ true | some kind ↦ not (same_kind kind mode) ]
  ]

  abbrev pub check_transports : SessionTransportMode → ValidationResult
  check_transports SessionTransportMode.both = ValidationResult.valid
  check_transports (SessionTransportMode.fixed mode) =
      reject_if (any (mismatches mode) supported_actions)
        "entrypoint transport must match sessionTransportMode when mode is fixed."

  abbrev pub text_or_undefined : Option String → String
  text_or_undefined none = "undefined"
  text_or_undefined (some text) = text

  abbrev pub route_key : SupportedAction → String
  route_key action =
      Text.◌++◌ (text_or_undefined (config.entrypoint_method action))
        (Text.◌++◌ ":" (text_or_undefined (config.entrypoint_path action)))

  abbrev pub check_routes : List String → List SupportedAction → ValidationResult
  check_routes seen [] = ValidationResult.valid
  check_routes seen (a ∷ rest) =
      reject_if (contains seen (route_key a)) "Entrypoint method/path pairs must be unique."
      and_then check_routes (route_key a ∷ seen) rest

  abbrev pub check_built_in : List SupportedAction → SupportedAction → ValidationResult
  check_built_in plugin_actions action =
      reject_if (includes_action plugin_actions action)
        (Text.◌++◌ "Plugin cannot own built-in action " (Text.◌++◌ (action_name action) "."))

  -- The loop over the plugins' actions, with the set of those that have an owner.
  abbrev pub check_ownership : List SupportedAction → List SupportedAction → ValidationResult
  check_ownership owned [] = ValidationResult.valid
  check_ownership owned (a ∷ rest) =
      reject_if (includes_action owned a)
        (Text.◌++◌ "Action ownership conflict detected for " (Text.◌++◌ (action_name a) "."))
      and_then check_ownership (a ∷ owned) rest

  abbrev pub check_owner : List SupportedAction → SupportedAction → ValidationResult
  check_owner plugin_actions action =
      reject_if
        (not (includes_action built_in_actions action || includes_action plugin_actions action))
        (Text.◌++◌ "Missing action owner for " (Text.◌++◌ (action_name action) "."))

  -- The checks, in the order of the code.
  abbrev pub startup_checks : List SupportedAction → Bool → List ValidationResult
  startup_checks plugin_actions redirects =
      check_each check_complete optional_actions
      ∷ check_pair SupportedAction.start_oauth SupportedAction.finish_oauth
          "startOAuth and finishOAuth must be configured together."
      ∷ check_pair SupportedAction.request_password_reset SupportedAction.reset_password
          "requestPasswordReset and resetPassword must be configured together."
      ∷ check_pair SupportedAction.request_email_verification SupportedAction.verify_email
          "requestEmailVerification and verifyEmail must be configured together."
      ∷ check_oauth redirects
      ∷ reject_if (not (truthy config.session_cookie_name)) "sessionCookieName must be configured."
      ∷ reject_if (not (truthy config.cookie_path)) "cookieOptions.path must be configured."
      ∷ check_transports config.session_transport_mode
      ∷ check_routes [] configured_actions
      ∷ check_each (check_built_in plugin_actions) built_in_actions
      ∷ check_ownership built_in_actions plugin_actions
      ∷ check_each (check_owner plugin_actions) configured_actions
      ∷ reject_if (any (λ b. b) config.policies_redirect && not redirects)
          "Redirect policies require runtime redirect capability."
      ∷ []

  unfoldable pub validate_startup_config : List SupportedAction → Bool → ValidationResult
  unfolding check_oauth
  validate_startup_config plugin_actions redirects =
      first_failure (startup_checks plugin_actions redirects)
