-- ===== src/EmailPassword/Accounts.antt =====
-- packages/core/src/plugins/email-password/plugin.ts: signing up and signing in.
use authia.Prelude.{String, Bool, true, false, Option, none, some, if◌then◌else◌}
use authia.Contracts.Actions.{SupportedAction}
use authia.Contracts.Errors.{AuthError, DeniedCode, UnauthenticatedCode, is_duplicate_identity}
use authia.Contracts.Sessions.{User, LocalIdentity}
use authia.Contracts.Results.{RequestContext, AuthResult, Reply, body_field, invalid_input}
use authia.Contracts.Storage.{TransactionalStorage}
use authia.Contracts.Services.{PluginServices, IssuedSession}
use authia.Io.{Io, pure, fail, on_error, or_roll_back, roll_back, catch, recover, ◌>>=◌}
use authia.EmailPassword.Input.{checked_credentials, storage_unavailable}

abbrev pub session_result : SupportedAction → User → IssuedSession → AuthResult
session_result action subject issued =
    AuthResult.session_success action subject issued.session issued.transport

-- The outcome with which a failed `identities.create` rolls the transaction back.
abbrev pub identity_outcome : AuthError → Reply
identity_outcome e =
    if is_duplicate_identity e.code
    then Reply.result (AuthResult.denied DeniedCode.duplicate_identity)
    else Reply.failure e

abbrev pub invalid_credentials : AuthResult
invalid_credentials = AuthResult.unauthenticated UnauthenticatedCode.invalid_credentials

module _ {W : Type 0} (services : PluginServices W) where
  -- The callback of the sign-up transaction.
  unfoldable pub sign_up_transaction :
      RequestContext → String → String → TransactionalStorage W → Io W AuthResult
  sign_up_transaction context normalized_email password tx = do
    hash ← or_roll_back (services.crypto.hash_secret password)
    user ← or_roll_back tx.users.create
    identity ←
        on_error (tx.identities.create user.id normalized_email hash)
          (λ e. roll_back (identity_outcome e))
    issued ← or_roll_back (services.sessions.issue_session user tx context)
    pure (session_result SupportedAction.sign_up_with_password user issued)

  unfoldable pub sign_up_checked : RequestContext → Option (String × String) → Io W AuthResult
  sign_up_checked context none = pure invalid_input
  sign_up_checked context (some (normalized_email, password)) =
      catch
        (services.storage.begin_transaction (sign_up_transaction context normalized_email password))
        (recover (storage_unavailable "Sign-up transaction failed unexpectedly."))

  unfoldable pub execute_sign_up : RequestContext → Io W AuthResult
  unfolding sign_up_checked
  execute_sign_up context = sign_up_checked context (
      checked_credentials services.platform (body_field (λ b. b.email) context)
        (body_field (λ b. b.password) context))

  -- The callback of the sign-in transaction.
  unfoldable pub sign_in_transaction :
      RequestContext → User → TransactionalStorage W → Io W AuthResult
  sign_in_transaction context user tx = do
    issued ← or_roll_back (services.sessions.issue_session user tx context)
    pure (session_result SupportedAction.sign_in_with_password user issued)

  unfoldable pub sign_in_user : RequestContext → Option User → Io W AuthResult
  sign_in_user context none = fail (storage_unavailable "Identity user could not be loaded.")
  sign_in_user context (some user) =
      catch (services.storage.begin_transaction (sign_in_transaction context user))
        (recover (storage_unavailable "Sign-in transaction failed unexpectedly."))

  unfoldable pub sign_in_verified : RequestContext → LocalIdentity → Bool → Io W AuthResult
  unfolding sign_in_user
  sign_in_verified context identity false = pure invalid_credentials
  sign_in_verified context identity true = do
    user ← services.storage.repositories.users.find identity.user_id
    sign_in_user context user

  unfoldable pub sign_in_identity : RequestContext → String → Option LocalIdentity → Io W AuthResult
  unfolding sign_in_verified
  sign_in_identity context password none = pure invalid_credentials
  sign_in_identity context password (some identity) = do
    verified ← services.crypto.verify_secret password identity.password_hash
    sign_in_verified context identity verified

  unfoldable pub sign_in_checked : RequestContext → Option (String × String) → Io W AuthResult
  unfolding sign_in_identity
  sign_in_checked context none = pure invalid_input
  sign_in_checked context (some (normalized_email, password)) = do
    identity ← services.storage.repositories.identities.find_by_normalized_email normalized_email
    sign_in_identity context password identity

  unfoldable pub execute_sign_in : RequestContext → Io W AuthResult
  unfolding sign_in_checked
  execute_sign_in context = sign_in_checked context (
      checked_credentials services.platform (body_field (λ b. b.email) context)
        (body_field (λ b. b.password) context))
