-- ===== src/Invariant/Accounts.antt =====
-- Signing up, signing in and resetting a password (packages/core/src/plugins/email-password) keep what
-- their writes and transactions keep.
use authia.Prelude.{String, Bool, true, false, Option, none, some}
use authia.Contracts.Errors.{AuthError}
use authia.Contracts.Sessions.{User, LocalIdentity}
use authia.Contracts.Results.{RequestContext, Reply}
use authia.Contracts.Services.{EmailDelivery}
use authia.Io.{Thrown, recover, return_reply}
use authia.Io.Keeps.{Keeps, keeps_rules}
use authia.Postgres.Connection.{World, Client}
use authia.Postgres.Tokens.{create_password_reset_tokens_repository}
use authia.EmailPassword.Accounts.{
  sign_up_checked, execute_sign_up, sign_in_user, sign_in_verified, sign_in_identity,
  sign_in_checked, execute_sign_in,
}
use authia.EmailPassword.Reset.{
  send_reset, create_reset_token, request_reset_for, request_reset_checked,
  execute_request_password_reset, reset_password_checked, execute_reset_password,
}
use authia.System.{Environment, services}
use authia.Invariant.Stable.{
  IsApartDelivery, IsApartEnvironment, OnSome, IsStable, apart-Keeps, date_now-Keeps,
  verify_secret-Keeps, token-Keeps, id-Keeps, find_user-Keeps, find_identity-Keeps,
}

module _ (env : Environment) (P : World → Type 0) (stable : IsStable env P)
    (apart : IsApartEnvironment env) where
  pub return_reply-Keeps : (outcome : Reply) → Keeps P (return_reply outcome)
  return_reply-Keeps (Reply.result r) = search keeps_rules
  return_reply-Keeps (Reply.failure e) = search keeps_rules

  pub recover-Keeps : (fallback : AuthError) (t : Thrown) → Keeps P (recover fallback t)
  recover-Keeps fallback (Thrown.signal outcome) = return_reply-Keeps outcome
  recover-Keeps fallback (Thrown.exception code message) = search keeps_rules

  pub now-Keeps : Keeps P (services env).now
  now-Keeps = date_now-Keeps env P stable

  pub new_token-Keeps : Keeps P (services env).crypto.generate_opaque_token
  new_token-Keeps = token-Keeps env P stable

  pub token_id-Keeps : (t : String) → Keeps P ((services env).crypto.derive_token_id t)
  token_id-Keeps t = id-Keeps env P stable t

  pub ruleset plugin_rules =
      (keeps_rules, recover-Keeps, now-Keeps, new_token-Keeps, token_id-Keeps)

  sign_up_checked-Keeps :
      (context : RequestContext) (input : Option (String × String))
      → Keeps P (sign_up_checked (services env) context input)
  unfolding sign_up_checked
  sign_up_checked-Keeps context none = search keeps_rules
  sign_up_checked-Keeps context (some (email, password)) =
      search (plugin_rules, stable.sign_up context email password)

  sign_in_user-Keeps :
      (context : RequestContext) (user : Option User)
      → Keeps P (sign_in_user (services env) context user)
  unfolding sign_in_user
  sign_in_user-Keeps context none = search keeps_rules
  sign_in_user-Keeps context (some user) = search (plugin_rules, stable.sign_in context user)

  sign_in_verified-Keeps :
      (context : RequestContext) (identity : LocalIdentity) (verified : Bool)
      → Keeps P (sign_in_verified (services env) context identity verified)
  unfolding sign_in_verified
  sign_in_verified-Keeps context identity false = search keeps_rules
  sign_in_verified-Keeps context identity true =
      search (plugin_rules, find_user-Keeps env P stable identity.user_id, sign_in_user-Keeps)

  sign_in_identity-Keeps :
      (context : RequestContext) (password : String) (identity : Option LocalIdentity)
      → Keeps P (sign_in_identity (services env) context password identity)
  unfolding sign_in_identity
  sign_in_identity-Keeps context password none = search keeps_rules
  sign_in_identity-Keeps context password (some identity) = search (
    plugin_rules,
    verify_secret-Keeps env P stable password identity.password_hash,
    sign_in_verified-Keeps,
  )

  sign_in_checked-Keeps :
      (context : RequestContext) (input : Option (String × String))
      → Keeps P (sign_in_checked (services env) context input)
  unfolding sign_in_checked
  sign_in_checked-Keeps context none = search keeps_rules
  sign_in_checked-Keeps context (some (email, password)) =
      search (plugin_rules, find_identity-Keeps env P stable email, sign_in_identity-Keeps)

  send_reset-Keeps :
      (delivery : Option (EmailDelivery World)) (email token : String)
      → OnSome IsApartDelivery delivery
      → Keeps P (send_reset (services env) delivery email token)
  send_reset-Keeps none email token h = search keeps_rules
  send_reset-Keeps (some delivery) email token h = search (
    keeps_rules,
    apart-Keeps env P stable (delivery.send_password_reset email token) (h.reset email token),
  )

  create_reset_token-Keeps :
      (email : String)
      → Keeps P (
          create_reset_token
            (services env)
            (create_password_reset_tokens_repository env.backend Client.pool)
            email)
  unfolding create_reset_token
  create_reset_token-Keeps email =
      search
        (
          plugin_rules,
          stable.create_reset,
          λ (token : String). send_reset-Keeps env.email_delivery email token apart.delivery,
        )
        depth 9

  request_reset_for-Keeps :
      (email : String) (identity : Option LocalIdentity)
      → Keeps P (
          request_reset_for
            (services env)
            (create_password_reset_tokens_repository env.backend Client.pool)
            email
            identity)
  unfolding request_reset_for
  request_reset_for-Keeps email none = search keeps_rules
  request_reset_for-Keeps email (some identity) = create_reset_token-Keeps email

  request_reset_checked-Keeps :
      (email : Option String)
      → Keeps P (
          request_reset_checked
            (services env)
            (services env).storage.repositories.password_reset_tokens
            email)
  unfolding request_reset_checked
  request_reset_checked-Keeps none = search keeps_rules
  request_reset_checked-Keeps (some email) =
      search (plugin_rules, find_identity-Keeps env P stable email, request_reset_for-Keeps)

  reset_password_checked-Keeps :
      (input : Option (String × String)) → Keeps P (reset_password_checked (services env) input)
  unfolding reset_password_checked
  reset_password_checked-Keeps none = search keeps_rules
  reset_password_checked-Keeps (some (token, password)) =
      search (plugin_rules, λ (hash : String). stable.reset hash password)

  pub execute_sign_up-Keeps :
      (context : RequestContext) → Keeps P (execute_sign_up (services env) context)
  unfolding execute_sign_up
  execute_sign_up-Keeps context = sign_up_checked-Keeps context _

  pub execute_sign_in-Keeps :
      (context : RequestContext) → Keeps P (execute_sign_in (services env) context)
  unfolding execute_sign_in
  execute_sign_in-Keeps context = sign_in_checked-Keeps context _

  pub execute_request_password_reset-Keeps :
      (context : RequestContext) → Keeps P (execute_request_password_reset (services env) context)
  unfolding execute_request_password_reset
  execute_request_password_reset-Keeps context = request_reset_checked-Keeps _

  pub execute_reset_password-Keeps :
      (context : RequestContext) → Keeps P (execute_reset_password (services env) context)
  unfolding execute_reset_password
  execute_reset_password-Keeps context = reset_password_checked-Keeps _
