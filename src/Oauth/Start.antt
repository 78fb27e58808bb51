-- ===== src/Oauth/Start.antt =====
-- packages/core/src/plugins/oauth/plugin.ts: executeStartOAuth.
use authia.Prelude.{String, Option, none, some, ◌+◌, if◌then◌else◌}
use authia.Contracts.Results.{Field, RequestContext, AuthResult, body_field, invalid_input}
use authia.Contracts.Services.{Platform, PluginServices, OauthStateStore, OauthProviderClient}
use authia.Io.{Io, Thrown, pure, fail, throw, both, ◌>>=◌}
use authia.Session.{no_mutations}
use authia.EmailPassword.Reset.{as_unavailable}
use authia.Oauth.Config.{
  OauthRuntimeConfig, state_ttl_ms, services_missing, is_relative_redirect, provider_from_body,
  resolve_provider,
}

-- The redirect target: absent (which is '/' where it is hashed), accepted, or refused.
abbrev pub checked_redirect : Platform → Field → Option String
checked_redirect platform Field.missing = some "/"
checked_redirect platform (Field.text redirect_to) =
    if is_relative_redirect platform redirect_to then some redirect_to else none
checked_redirect platform Field.other = none

-- new URL(callbackPath, publicOrigin).toString(), which may throw.
abbrev pub callback_url : {W : Type 0} → Option String → Io W String
callback_url none = throw (Thrown.exception none "Invalid URL")
callback_url (some url) = pure url

-- Both OAuth services, or none.
abbrev pub oauth_services :
    {W : Type 0} → PluginServices W → Option (OauthStateStore W × OauthProviderClient W)
oauth_services services = elim (services.oauth_state_store) [
  | none ↦ none
  | some store ↦ elim (services.oauth_provider_client) [
    | none ↦ none
    | some client ↦ some (store, client)
  ]
]

module _ {W : Type 0} (services : PluginServices W) (config : OauthRuntimeConfig) where
  unfoldable pub start_with :
      OauthStateStore W × OauthProviderClient W → String × String → String → Io W AuthResult
  start_with (store, client) (provider, callback_path) redirect_to = do
    state ← services.crypto.generate_opaque_token
    code_verifier ← services.crypto.generate_opaque_token
    (code_challenge, (state_hash, redirect_uri_hash)) ←
        both (services.crypto.derive_token_verifier code_verifier) (
          both (services.crypto.derive_token_id state)
            (services.crypto.derive_token_id redirect_to))
    now ← services.now
    created ← as_unavailable (
        store.create (record {
          provider = provider;
          state_hash = state_hash;
          code_verifier_ciphertext = code_verifier;
          redirect_uri_hash = redirect_uri_hash;
          expires_at = now + state_ttl_ms;
        }))
    redirect_uri ← callback_url (services.platform.resolve_url callback_path config.public_origin)
    url ← client.build_authorization_url provider redirect_uri state code_challenge
    pure (AuthResult.redirect (record no_mutations { redirect_to = some url }) url)

  unfoldable pub start_checked :
      Option (OauthStateStore W × OauthProviderClient W)
      → Option (String × String)
      → Option String
      → Io W AuthResult
  unfolding start_with
  start_checked none provider redirect_to = fail services_missing
  start_checked (some clients) none redirect_to = pure invalid_input
  start_checked (some clients) (some provider) none = pure invalid_input
  start_checked (some clients) (some provider) (some redirect_to) =
      start_with clients provider redirect_to

  unfoldable pub execute_start_oauth : RequestContext → Io W AuthResult
  unfolding start_checked
  execute_start_oauth context =
      start_checked (oauth_services services)
        (resolve_provider config (provider_from_body services.platform context))
        (checked_redirect services.platform (body_field (λ b. b.redirect_to) context))
