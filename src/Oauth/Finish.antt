-- ===== src/Oauth/Finish.antt =====
-- packages/core/src/plugins/oauth/plugin.ts: executeFinishOAuth.
use authia.Prelude.{String, Bool, false, ◌&&◌, ◌==◌, Option, none, some, truthy, if◌then◌else◌}
use authia.Contracts.Actions.{SupportedAction}
use authia.Contracts.Errors.{
  AuthError, ErrorCategory, is_duplicate_identity, is_storage_unavailable,
}
use authia.Contracts.Sessions.{User}
use authia.Contracts.Results.{Field, RequestContext, AuthResult, Reply, body_field, invalid_input}
use authia.Contracts.Storage.{TransactionalStorage, OauthIdentities, OauthIdentity, ConsumedState}
use authia.Contracts.Services.{PluginServices, OauthStateStore, OauthProviderClient}
use authia.Io.{
  Io, Thrown, Completion, pure, fail, on_error, or_roll_back, roll_back, catch, recover,
  return_reply, ◌>>=◌,
}
use authia.EmailPassword.Input.{storage_unavailable}
use authia.EmailPassword.Accounts.{session_result, invalid_credentials}
use authia.EmailPassword.Reset.{as_unavailable}
use authia.Oauth.Config.{
  OauthRuntimeConfig, race_retry, services_missing, identities_missing, provider_from_body,
  resolve_provider,
}
use authia.Oauth.Start.{callback_url, oauth_services}

-- A text that is not empty.
abbrev pub non_empty : Field → Option String
non_empty (Field.text value) = if truthy value then some value else none
non_empty _ = none

-- What a rejected code exchange becomes.
abbrev pub exchange_failure : {W : Type 0} → ErrorCategory → AuthError → Io W AuthResult
exchange_failure ErrorCategory.operator e = pure invalid_credentials
exchange_failure ErrorCategory.infrastructure e = fail (storage_unavailable e.message)

-- Whether a transaction was rolled back because another request linked the identity first.
abbrev pub is_race_outcome : Reply → Bool
is_race_outcome (Reply.result r) = false
is_race_outcome (Reply.failure e) = is_storage_unavailable e.code && e.message == race_retry

-- The identity's `userId`, where it is truthy.
abbrev pub linked_user : Option OauthIdentity → Option String
linked_user none = none
linked_user (some identity) = if truthy identity.user_id then some identity.user_id else none

module _ {W : Type 0} (services : PluginServices W) (context : RequestContext) where
  abbrev pub issue_for_found : TransactionalStorage W → Option User → Io W AuthResult
  issue_for_found tx none =
      roll_back (Reply.failure (storage_unavailable "OAuth identity user could not be loaded."))
  issue_for_found tx (some user) = do
    issued ← or_roll_back (services.sessions.issue_session user tx context)
    pure (session_result SupportedAction.finish_oauth user issued)

  unfoldable pub issue_session_for_user : TransactionalStorage W → String → Io W AuthResult
  issue_session_for_user tx user_id = do
    user ← or_roll_back (tx.users.find user_id)
    issue_for_found tx user

  -- The outcome of a failed `oauthIdentities.create`.
  abbrev pub link_outcome : AuthError → Reply
  link_outcome e =
      if is_duplicate_identity e.code
      then Reply.failure (storage_unavailable race_retry)
      else Reply.failure e

  -- The user of the identity, or a new user that is linked to it.
  unfoldable pub link_user :
      TransactionalStorage W → OauthIdentities W → String → String → Option String → Io W String
  link_user tx identities provider subject (some user_id) = pure user_id
  link_user tx identities provider subject none = do
    user ← or_roll_back tx.users.create
    identity ←
        on_error (identities.create user.id provider subject) (λ e. roll_back (link_outcome e))
    pure identity.user_id

  abbrev pub callback_with :
      String → String → TransactionalStorage W → Option (OauthIdentities W) → Io W AuthResult
  callback_with provider subject tx none = roll_back (Reply.failure identities_missing)
  callback_with provider subject tx (some identities) = do
    identity ← or_roll_back (identities.find_by_provider_subject provider subject)
    user_id ← link_user tx identities provider subject (linked_user identity)
    issue_session_for_user tx user_id

  -- The callback of the first transaction.
  unfoldable pub callback_transaction : String → String → TransactionalStorage W → Io W AuthResult
  unfolding link_user issue_session_for_user
  callback_transaction provider subject tx = callback_with provider subject tx tx.oauth_identities

  abbrev pub issue_for_identity : TransactionalStorage W → Option OauthIdentity → Io W AuthResult
  issue_for_identity tx none =
      roll_back
        (Reply.failure (storage_unavailable "OAuth identity collision could not be resolved."))
  issue_for_identity tx (some identity) = issue_session_for_user tx identity.user_id

  abbrev pub retry_with :
      String → String → TransactionalStorage W → Option (OauthIdentities W) → Io W AuthResult
  retry_with provider subject tx none = roll_back (Reply.failure identities_missing)
  retry_with provider subject tx (some identities) = do
    identity ← or_roll_back (identities.find_by_provider_subject provider subject)
    issue_for_identity tx identity

  -- The callback of the second transaction.
  unfoldable pub retry_transaction : String → String → TransactionalStorage W → Io W AuthResult
  unfolding issue_session_for_user
  retry_transaction provider subject tx = retry_with provider subject tx tx.oauth_identities

  unfoldable pub retry_callback : String → String → Io W AuthResult
  retry_callback provider subject =
      catch (services.storage.begin_transaction (retry_transaction provider subject))
        (recover (storage_unavailable "OAuth callback retry transaction failed unexpectedly."))

  -- The catch block of the first transaction.
  abbrev pub recover_callback : String → String → Thrown → Io W AuthResult
  recover_callback provider subject (Thrown.signal outcome) =
      if is_race_outcome outcome then retry_callback provider subject else return_reply outcome
  recover_callback provider subject (Thrown.exception code message) =
      fail (storage_unavailable "OAuth callback transaction failed unexpectedly.")

  unfoldable pub sign_in_subject : String → String → Io W AuthResult
  unfolding retry_callback
  sign_in_subject provider subject =
      catch (services.storage.begin_transaction (callback_transaction provider subject))
        (recover_callback provider subject)

  abbrev pub after_exchange : String → Completion String → Io W AuthResult
  after_exchange provider (Completion.value subject) = sign_in_subject provider subject
  after_exchange provider (Completion.error e) = exchange_failure e.category e
  after_exchange provider (Completion.threw t) = λ w. (Completion.threw t, w)

  -- `const exchanged = await …; if (isAuthError(exchanged)) …`
  abbrev pub exchange_then : String → Io W String → Io W AuthResult
  exchange_then provider exchange w = let (c, w') = exchange w in after_exchange provider c w'

  module _ (config : OauthRuntimeConfig) where
    abbrev pub finish_consumed :
        OauthProviderClient W → String × String → String → Option ConsumedState → Io W AuthResult
    finish_consumed client (provider, callback_path) code none = pure invalid_input
    finish_consumed client (provider, callback_path) code (some consumed) = do
      redirect_uri ← callback_url (services.platform.resolve_url callback_path config.public_origin)
      exchange_then provider
          (client.exchange_code provider code redirect_uri consumed.code_verifier_ciphertext)

    unfoldable pub finish_with :
        OauthStateStore W × OauthProviderClient W
        → String × String
        → String
        → String
        → Io W AuthResult
    unfolding sign_in_subject
    finish_with (store, client) (provider, callback_path) code state = do
      state_hash ← services.crypto.derive_token_id state
      now ← services.now
      consumed ← as_unavailable (store.consume provider state_hash now)
      finish_consumed client (provider, callback_path) code consumed

    unfoldable pub finish_checked :
        Option (OauthStateStore W × OauthProviderClient W)
        → Option (String × String)
        → Option String
        → Option String
        → Io W AuthResult
    unfolding finish_with
    finish_checked none provider code state = fail services_missing
    finish_checked (some clients) (some provider) (some code) (some state) =
        finish_with clients provider code state
    finish_checked (some clients) _ _ _ = pure invalid_input

    unfoldable pub execute_finish_oauth : Io W AuthResult
    unfolding finish_checked
    execute_finish_oauth =
        finish_checked (oauth_services services)
          (resolve_provider config (provider_from_body services.platform context))
          (non_empty (body_field (λ b. b.code) context))
          (non_empty (body_field (λ b. b.state) context))
