-- ===== src/Oauth/Config.antt =====
-- packages/core/src/plugins/oauth/plugin.ts: the configuration and the helpers.
use authia.Prelude.{
  ℕ, ◌*◌, String, Bool, false, not, ◌&&◌, ◌==◌, Option, none, some, Dict, lookup, truthy,
  if◌then◌else◌,
}
use text.Mathlib.Text.{starts_with}
use authia.Contracts.Errors.{AuthError}
use authia.Contracts.Results.{Field, RequestContext, body_field}
use authia.Contracts.Services.{Platform, ProviderConfig}
use authia.EmailPassword.Input.{runtime_misconfigured}

pub record OauthRuntimeConfig : Type 0 where
  pub public_origin : String
  pub providers : Dict ProviderConfig

abbrev pub state_ttl_ms : ℕ
state_ttl_ms = 5 * 60 * 1000

abbrev pub race_retry : String
race_retry = "OAUTH_IDENTITY_RACE_RETRY"

abbrev pub services_missing : AuthError
services_missing = runtime_misconfigured "OAuth runtime services are not configured."

abbrev pub identities_missing : AuthError
identities_missing = runtime_misconfigured "OAuth identity storage is not configured."

abbrev pub host_is_n : Option String → Bool
host_is_n none = false
host_is_n (some host) = host == "n"

abbrev pub is_relative_redirect : Platform → String → Bool
is_relative_redirect platform redirect_to =
    host_is_n (platform.relative_host redirect_to)
    && starts_with redirect_to "/"
    && not (starts_with redirect_to "//")

-- providerFromBody
abbrev pub trimmed_provider : Platform → Field → Option String
trimmed_provider platform (Field.text provider) =
    let normalized = platform.trim provider in if truthy normalized then some normalized else none
trimmed_provider platform _ = none

abbrev pub provider_from_body : Platform → RequestContext → Option String
provider_from_body platform context =
    trimmed_provider platform (body_field (λ b. b.provider) context)

-- providerConfig?.callbackPath, if it is truthy.
abbrev pub callback_path_of : Option ProviderConfig → Option String
callback_path_of none = none
callback_path_of (some provider) =
    if truthy provider.callback_path then some provider.callback_path else none

abbrev pub configured_callback : OauthRuntimeConfig → String → Option String
configured_callback config provider = callback_path_of (lookup provider config.providers)

-- The provider of the body with its callback path, if both checks pass.
abbrev pub resolve_provider : OauthRuntimeConfig → Option String → Option (String × String)
resolve_provider config none = none
resolve_provider config (some provider) = elim (configured_callback config provider) [
  | none ↦ none
  | some callback_path ↦ some (provider, callback_path)
]
