-- ===== src/Invariant/Verification.antt =====
-- Requesting and performing the verification of an email
-- (packages/core/src/plugins/email-password/plugin.ts) keep what their writes and transactions keep.
use authia.Prelude.{String, Option, none, some}
use authia.Contracts.Actions.{SupportedAction}
use authia.Contracts.Sessions.{LocalIdentity}
use authia.Contracts.Storage.{VerifiedEmailRecord}
use authia.Contracts.Results.{RequestContext}
use authia.Contracts.Services.{EmailDelivery}
use authia.Io.Keeps.{Keeps, keeps_rules}
use authia.Postgres.Connection.{World, Client}
use authia.Postgres.Tokens.{
  create_email_verification_tokens_repository, create_verified_emails_repository,
}
use authia.EmailPassword.Verification.{
  verification_storage, send_verification, create_verification_token, request_verification_for,
  request_verification_checked, execute_request_email_verification, verify_email_checked,
  execute_verify_email,
}
use authia.EmailPassword.Plugin.{execute_email_password}
use authia.System.{Environment, services}
use authia.Invariant.Stable.{
  IsApartDelivery, IsApartEnvironment, OnSome, IsStable, apart-Keeps, find_identity-Keeps,
  find_verified-Keeps,
}
use authia.Invariant.Accounts.{
  recover-Keeps, now-Keeps, new_token-Keeps, token_id-Keeps, execute_sign_up-Keeps,
  execute_sign_in-Keeps, execute_request_password_reset-Keeps, execute_reset_password-Keeps,
}

module _ (env : Environment) (P : World → Type 0) (stable : IsStable env P)
    (apart : IsApartEnvironment env) where
  send_verification-Keeps :
      (delivery : Option (EmailDelivery World)) (email token : String)
      → OnSome IsApartDelivery delivery
      → Keeps P (send_verification (services env) delivery email token)
  send_verification-Keeps none email token h = search keeps_rules
  send_verification-Keeps (some delivery) email token h = search (
    keeps_rules,
    apart-Keeps env P stable (delivery.send_email_verification email token)
        (h.verification email token),
  )

  ruleset token_rules = (keeps_rules, now-Keeps, new_token-Keeps, token_id-Keeps)

  create_verification_token-Keeps :
      (email : String) (existing : Option VerifiedEmailRecord)
      → Keeps P (
          create_verification_token
            (services env)
            (create_email_verification_tokens_repository env.backend Client.pool)
            email
            existing)
  unfolding create_verification_token
  create_verification_token-Keeps email (some existing) = search keeps_rules
  create_verification_token-Keeps email none =
      search
        (
          token_rules,
          stable,
          apart,
          stable.create_verification,
          λ (token : String). send_verification-Keeps env.email_delivery email token apart.delivery,
        )
        depth 9

  request_verification_for-Keeps :
      (email : String) (identity : Option LocalIdentity)
      → Keeps P (
          request_verification_for
            (services env)
            (
              create_email_verification_tokens_repository env.backend Client.pool,
              create_verified_emails_repository env.backend Client.pool,
            )
            email
            identity)
  unfolding request_verification_for
  request_verification_for-Keeps email none = search keeps_rules
  request_verification_for-Keeps email (some identity) =
      search
        (keeps_rules, find_verified-Keeps env P stable email, create_verification_token-Keeps email)

  request_verification_checked-Keeps :
      (email : Option String)
      → Keeps P (
          request_verification_checked
            (services env)
            (verification_storage (services env).storage.repositories)
            email)
  unfolding request_verification_checked
  request_verification_checked-Keeps none = search keeps_rules
  request_verification_checked-Keeps (some email) =
      search (keeps_rules, find_identity-Keeps env P stable email, request_verification_for-Keeps)

  verify_email_checked-Keeps :
      (input : Option String) → Keeps P (verify_email_checked (services env) input)
  unfolding verify_email_checked
  verify_email_checked-Keeps none = search keeps_rules
  verify_email_checked-Keeps (some token) = search (
    keeps_rules,
    recover-Keeps env P stable apart,
    token_id-Keeps env P stable apart,
    λ (hash : String). stable.verify hash,
  )

  -- Every action of the plugin.
  pub execute_email_password-Keeps :
      (action : SupportedAction) (context : RequestContext)
      → Keeps P (execute_email_password action context (services env))
  unfolding execute_email_password execute_request_email_verification execute_verify_email
  execute_email_password-Keeps SupportedAction.sign_up_with_password context =
      execute_sign_up-Keeps env P stable apart context
  execute_email_password-Keeps SupportedAction.sign_in_with_password context =
      execute_sign_in-Keeps env P stable apart context
  execute_email_password-Keeps SupportedAction.request_password_reset context =
      execute_request_password_reset-Keeps env P stable apart context
  execute_email_password-Keeps SupportedAction.reset_password context =
      execute_reset_password-Keeps env P stable apart context
  execute_email_password-Keeps SupportedAction.request_email_verification context =
      request_verification_checked-Keeps _
  execute_email_password-Keeps SupportedAction.verify_email context = verify_email_checked-Keeps _
  execute_email_password-Keeps _ context = search keeps_rules
