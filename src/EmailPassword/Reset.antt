-- ===== src/EmailPassword/Reset.antt =====
-- packages/core/src/plugins/email-password: requesting and performing a password reset, and the
-- messages that the delivery sends.
use authia.Prelude.{String, Option, none, some, ◌+◌}
use authia.Contracts.Actions.{SupportedAction}
use authia.Contracts.Errors.{AuthError}
use authia.Contracts.Sessions.{LocalIdentity}
use authia.Contracts.Results.{RequestContext, AuthResult, Reply, body_field, invalid_input}
use authia.Contracts.Storage.{TransactionalStorage, MailTokens}
use authia.Contracts.Services.{PluginServices, EmailDelivery}
use authia.Io.{Io, pure, fail, on_error, or_roll_back, roll_back, catch, recover, ◌>>=◌}
use authia.EmailPassword.Input.{
  checked_email, checked_reset, password_reset_token_ttl_ms, runtime_misconfigured,
  storage_unavailable,
}

-- if (isAuthError(x)) return storageUnavailable(x.message)
abbrev pub as_unavailable : {W A : Type 0} → Io W A → Io W A
as_unavailable m = on_error m (λ e. fail (storage_unavailable e.message))

abbrev pub plain : SupportedAction → AuthResult
plain action = AuthResult.plain_success action none

abbrev pub reset_storage_missing : AuthError
reset_storage_missing = runtime_misconfigured "Password reset token storage is not configured."

module _ {W : Type 0} (services : PluginServices W) where
  -- The mail is sent only if a delivery is configured.
  abbrev pub send_reset : Option (EmailDelivery W) → String → String → Io W (Unit {0})
  send_reset none email token = pure tt
  send_reset (some delivery) email token = as_unavailable (delivery.send_password_reset email token)

  unfoldable pub create_reset_token : MailTokens W → String → Io W AuthResult
  create_reset_token tokens normalized_email = do
    token ← services.crypto.generate_opaque_token
    token_hash ← services.crypto.derive_token_id token
    now ← services.now
    created ←
        as_unavailable
          (tokens.create token_hash normalized_email (now + password_reset_token_ttl_ms))
    sent ← send_reset services.email_delivery normalized_email token
    pure (plain SupportedAction.request_password_reset)

  unfoldable pub request_reset_for : MailTokens W → String → Option LocalIdentity → Io W AuthResult
  unfolding create_reset_token
  request_reset_for tokens normalized_email none =
      pure (plain SupportedAction.request_password_reset)
  request_reset_for tokens normalized_email (some identity) =
      create_reset_token tokens normalized_email

  unfoldable pub request_reset_checked : Option (MailTokens W) → Option String → Io W AuthResult
  unfolding request_reset_for
  request_reset_checked storage none = pure invalid_input
  request_reset_checked none (some normalized_email) = fail reset_storage_missing
  request_reset_checked (some tokens) (some normalized_email) = do
    identity ← services.storage.repositories.identities.find_by_normalized_email normalized_email
    request_reset_for tokens normalized_email identity

  unfoldable pub execute_request_password_reset : RequestContext → Io W AuthResult
  unfolding request_reset_checked
  execute_request_password_reset context =
      request_reset_checked services.storage.repositories.password_reset_tokens
        (checked_email services.platform (body_field (λ b. b.email) context))

  -- A null inside the transaction rolls it back as an invalid input.
  abbrev pub found_or_invalid : {A : Type 0} → Option A → Io W A
  found_or_invalid none = roll_back (Reply.result invalid_input)
  found_or_invalid (some a) = pure a

  unfoldable pub reset_password_with :
      String → String → TransactionalStorage W → MailTokens W → Io W AuthResult
  reset_password_with token_hash password tx tokens = do
    now ← services.now
    consumed ← or_roll_back (tokens.consume token_hash now)
    normalized_email ← found_or_invalid consumed
    password_hash ← or_roll_back (services.crypto.hash_secret password)
    updated ←
        or_roll_back
          (tx.identities.update_password_hash_by_normalized_email normalized_email password_hash)
    identity ← found_or_invalid updated
    revoked_count ← or_roll_back (services.sessions.revoke_all_sessions identity.user_id (some tx))
    pure (plain SupportedAction.reset_password)

  -- The callback of the transaction.
  unfoldable pub reset_password_transaction :
      String → String → TransactionalStorage W → Io W AuthResult
  unfolding reset_password_with
  reset_password_transaction token_hash password tx = elim (tx.password_reset_tokens) [
    | none ↦ roll_back (Reply.failure reset_storage_missing)
    | some tokens ↦ reset_password_with token_hash password tx tokens
  ]

  unfoldable pub reset_password_checked : Option (String × String) → Io W AuthResult
  reset_password_checked none = pure invalid_input
  reset_password_checked (some (reset_token, password)) = do
    token_hash ← services.crypto.derive_token_id reset_token
    catch (services.storage.begin_transaction (reset_password_transaction token_hash password))
        (recover (storage_unavailable "Password reset transaction failed unexpectedly."))

  unfoldable pub execute_reset_password : RequestContext → Io W AuthResult
  unfolding reset_password_checked
  execute_reset_password context = reset_password_checked (
      checked_reset services.platform (body_field (λ b. b.reset_token) context)
        (body_field (λ b. b.password) context))
