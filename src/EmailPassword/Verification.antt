-- ===== src/EmailPassword/Verification.antt =====
-- packages/core/src/plugins/email-password/plugin.ts: requesting and performing the verification of
-- an email.
use authia.Prelude.{String, Option, none, some, ◌+◌}
use authia.Contracts.Actions.{SupportedAction}
use authia.Contracts.Errors.{AuthError}
use authia.Contracts.Sessions.{LocalIdentity}
use authia.Contracts.Results.{RequestContext, AuthResult, Reply, body_field, invalid_input}
use authia.Contracts.Storage.{TransactionalStorage, MailTokens, VerifiedEmails, VerifiedEmailRecord}
use authia.Contracts.Services.{PluginServices, EmailDelivery}
use authia.Io.{Io, pure, fail, or_roll_back, roll_back, catch, recover, ◌>>=◌}
use authia.EmailPassword.Input.{
  checked_email, checked_token, email_verification_token_ttl_ms, runtime_misconfigured,
  storage_unavailable,
}
use authia.EmailPassword.Reset.{as_unavailable, plain}

abbrev pub verification_storage_missing : AuthError
verification_storage_missing = runtime_misconfigured "Email verification storage is not configured."

-- Both repositories, or the error.
abbrev pub verification_storage :
    {W : Type 0} → TransactionalStorage W → Option (MailTokens W × VerifiedEmails W)
verification_storage storage = elim (storage.email_verification_tokens) [
  | none ↦ none
  | some tokens ↦ elim (storage.verified_emails) [
    | none ↦ none
    | some emails ↦ some (tokens, emails)
  ]
]

module _ {W : Type 0} (services : PluginServices W) where
  abbrev pub send_verification : Option (EmailDelivery W) → String → String → Io W (Unit {0})
  send_verification none email token = pure tt
  send_verification (some delivery) email token =
      as_unavailable (delivery.send_email_verification email token)

  unfoldable pub create_verification_token :
      MailTokens W → String → Option VerifiedEmailRecord → Io W AuthResult
  create_verification_token tokens normalized_email (some existing) =
      pure (plain SupportedAction.request_email_verification)
  create_verification_token tokens normalized_email none = do
    token ← services.crypto.generate_opaque_token
    token_hash ← services.crypto.derive_token_id token
    now ← services.now
    created ←
        as_unavailable
          (tokens.create token_hash normalized_email (now + email_verification_token_ttl_ms))
    sent ← send_verification services.email_delivery normalized_email token
    pure (plain SupportedAction.request_email_verification)

  unfoldable pub request_verification_for :
      MailTokens W × VerifiedEmails W → String → Option LocalIdentity → Io W AuthResult
  unfolding create_verification_token
  request_verification_for (tokens, emails) normalized_email none =
      pure (plain SupportedAction.request_email_verification)
  request_verification_for (tokens, emails) normalized_email (some identity) = do
    existing ← emails.find normalized_email
    create_verification_token tokens normalized_email existing

  unfoldable pub request_verification_checked :
      Option (MailTokens W × VerifiedEmails W) → Option String → Io W AuthResult
  unfolding request_verification_for
  request_verification_checked storage none = pure invalid_input
  request_verification_checked none (some normalized_email) = fail verification_storage_missing
  request_verification_checked (some storage) (some normalized_email) = do
    identity ← services.storage.repositories.identities.find_by_normalized_email normalized_email
    request_verification_for storage normalized_email identity

  unfoldable pub execute_request_email_verification : RequestContext → Io W AuthResult
  unfolding request_verification_checked
  execute_request_email_verification context =
      request_verification_checked (verification_storage services.storage.repositories)
        (checked_email services.platform (body_field (λ b. b.email) context))

  abbrev pub mark_consumed : VerifiedEmails W → Option String → Io W AuthResult
  mark_consumed emails none = roll_back (Reply.result invalid_input)
  mark_consumed emails (some normalized_email) = do
    now ← services.now
    marked ← or_roll_back (emails.mark_verified normalized_email now)
    pure (plain SupportedAction.verify_email)

  unfoldable pub verify_email_with :
      String → Option (MailTokens W × VerifiedEmails W) → Io W AuthResult
  verify_email_with token_hash none = roll_back (Reply.failure verification_storage_missing)
  verify_email_with token_hash (some (tokens, emails)) = do
    now ← services.now
    consumed ← or_roll_back (tokens.consume token_hash now)
    mark_consumed emails consumed

  -- The callback of the transaction.
  unfoldable pub verify_email_transaction : String → TransactionalStorage W → Io W AuthResult
  unfolding verify_email_with
  verify_email_transaction token_hash tx = verify_email_with token_hash (verification_storage tx)

  unfoldable pub verify_email_checked : Option String → Io W AuthResult
  verify_email_checked none = pure invalid_input
  verify_email_checked (some verification_token) = do
    token_hash ← services.crypto.derive_token_id verification_token
    catch (services.storage.begin_transaction (verify_email_transaction token_hash))
        (recover (storage_unavailable "Email verification transaction failed unexpectedly."))

  unfoldable pub execute_verify_email : RequestContext → Io W AuthResult
  unfolding verify_email_checked
  execute_verify_email context =
      verify_email_checked
        (checked_token services.platform (body_field (λ b. b.verification_token) context))
