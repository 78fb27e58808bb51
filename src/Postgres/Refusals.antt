-- ===== src/Postgres/Refusals.antt =====
-- The ends of the transactions' callbacks of packages/core over the Postgres repositories: a
-- callback never resolves with an error, and a rollback signal carries no success.
use authia.Prelude.{String, Option, none, some, arith}
use authia.Contracts.Errors.{AuthError}
use authia.Contracts.Sessions.{User}
use authia.Contracts.Storage.{TransactionalStorage, OauthIdentity}
use authia.Contracts.Results.{RequestContext, AuthResult, Reply}
use authia.Io.{Thrown, roll_back}
use authia.Io.Rollback.{NeverThrows, RollsBack, rolls_back_rules}
use authia.Postgres.Connection.{World, Client, date_now}
use authia.Postgres.Accounts.{
  create_user, find_user, create_identity, update_identity_password, create_oauth_identity,
  create_oauth_identities_repository,
}
use authia.Postgres.SessionRows.{create_session, revoke_all}
use authia.Postgres.Tokens.{create_verified_emails_repository}
use authia.Postgres.Transactions.{create_transactional_storage}
use authia.Session.{issue_session}
use authia.EmailPassword.Accounts.{identity_outcome, sign_up_transaction, sign_in_transaction}
use authia.EmailPassword.Reset.{found_or_invalid, reset_password_transaction}
use authia.EmailPassword.Verification.{mark_consumed, verify_email_transaction}
use authia.Oauth.Finish.{
  issue_for_found, issue_session_for_user, link_outcome, link_user, callback_transaction,
  issue_for_identity, retry_transaction,
}
use authia.System.{Environment, services}

-- A result that grants nothing.
abbrev pub IsRefusal : AuthResult → Type 0
IsRefusal (AuthResult.denied code) = Unit
IsRefusal (AuthResult.unauthenticated code) = Unit
IsRefusal _ = ⊥

-- A signal whose outcome is a refusal or an error.
abbrev pub Refuses : Thrown → Type 0
Refuses (Thrown.signal (Reply.result r)) = IsRefusal r
Refuses (Thrown.signal (Reply.failure e)) = Unit
Refuses (Thrown.exception code message) = ⊥

abbrev transaction_storage : Environment → TransactionalStorage World
transaction_storage env = create_transactional_storage env.backend Client.client

module _ (env : Environment) where
  hash_quiet : (p : String) → NeverThrows ((services env).crypto.hash_secret p)
  hash_quiet p = record { at = λ w. ground arith }

  token_quiet : NeverThrows (services env).crypto.generate_opaque_token
  token_quiet = record { at = λ w. ground arith }

  id_quiet : (t : String) → NeverThrows ((services env).crypto.derive_token_id t)
  id_quiet t = record { at = λ w. ground arith }

  verifier_quiet : (t : String) → NeverThrows ((services env).crypto.derive_token_verifier t)
  verifier_quiet t = record { at = λ w. ground arith }

  now_quiet : NeverThrows (date_now env.backend)
  now_quiet = record { at = λ w. tt }

  now_rolls : RollsBack Refuses (date_now env.backend)
  now_rolls = record { at = λ w. tt }

  ruleset quiet_rules =
      (rolls_back_rules, hash_quiet, token_quiet, id_quiet, verifier_quiet, now_quiet, now_rolls)

  issue_session_quiet :
      (user : User) (context : RequestContext)
      → NeverThrows ((services env).sessions.issue_session user (transaction_storage env) context)
  unfolding issue_session create_session
  issue_session_quiet user context = search quiet_rules depth 9

  identity_outcome_rolls :
      {A : Type 0} (e : AuthError)
      → RollsBack {W = World} Refuses {A = A} (roll_back (identity_outcome e))
  identity_outcome_rolls e = record { at = λ w. ground arith }

  pub sign_up_transaction-RollsBack :
      (context : RequestContext) (email password : String)
      → RollsBack Refuses
          (sign_up_transaction (services env) context email password (transaction_storage env))
  unfolding sign_up_transaction create_user create_identity
  sign_up_transaction-RollsBack context email password =
      search (quiet_rules, issue_session_quiet, identity_outcome_rolls) depth 9

  pub sign_in_transaction-RollsBack :
      (context : RequestContext) (user : User)
      → RollsBack Refuses
          (sign_in_transaction (services env) context user (transaction_storage env))
  unfolding sign_in_transaction
  sign_in_transaction-RollsBack context user = search (quiet_rules, issue_session_quiet) depth 9

  found_or_invalid_rolls :
      {A : Type 0} (found : Option A) → RollsBack Refuses (found_or_invalid (services env) found)
  found_or_invalid_rolls none = search rolls_back_rules
  found_or_invalid_rolls (some a) = search rolls_back_rules

  pub reset_password_transaction-RollsBack :
      (token_hash password : String)
      → RollsBack Refuses
          (reset_password_transaction (services env) token_hash password (transaction_storage env))
  unfolding reset_password_transaction revoke_all update_identity_password
  reset_password_transaction-RollsBack token_hash password =
      search (quiet_rules, found_or_invalid_rolls) depth 12

  mark_consumed_rolls :
      (found : Option String)
      → RollsBack Refuses (
          mark_consumed
            (services env)
            (create_verified_emails_repository env.backend Client.client)
            found)
  mark_consumed_rolls none = search quiet_rules
  mark_consumed_rolls (some email) = search quiet_rules depth 9

  pub verify_email_transaction-RollsBack :
      (token_hash : String)
      → RollsBack Refuses
          (verify_email_transaction (services env) token_hash (transaction_storage env))
  unfolding verify_email_transaction
  verify_email_transaction-RollsBack token_hash = search (quiet_rules, mark_consumed_rolls) depth 9

  issue_for_found_rolls :
      (context : RequestContext) (found : Option User)
      → RollsBack Refuses (issue_for_found (services env) context (transaction_storage env) found)
  issue_for_found_rolls context none = search quiet_rules
  issue_for_found_rolls context (some user) = search (quiet_rules, issue_session_quiet) depth 9

  issue_session_for_user_rolls :
      (context : RequestContext) (user_id : String)
      → RollsBack Refuses
          (issue_session_for_user (services env) context (transaction_storage env) user_id)
  unfolding issue_session_for_user find_user
  issue_session_for_user_rolls context user_id = search (quiet_rules, issue_for_found_rolls) depth 9

  link_outcome_rolls :
      {A : Type 0} (context : RequestContext) (e : AuthError)
      → RollsBack {W = World} Refuses {A = A} (roll_back (link_outcome (services env) context e))
  link_outcome_rolls context e = record { at = λ w. ground arith }

  link_user_rolls :
      (context : RequestContext) (provider subject : String) (linked : Option String)
      → RollsBack Refuses (
          link_user
            (services env)
            context
            (transaction_storage env)
            (create_oauth_identities_repository env.backend Client.client)
            provider
            subject
            linked)
  unfolding link_user create_user create_oauth_identity
  link_user_rolls context provider subject none =
      search (quiet_rules, link_outcome_rolls context) depth 9
  link_user_rolls context provider subject (some user_id) = search quiet_rules

  pub callback_transaction-RollsBack :
      (context : RequestContext) (provider subject : String)
      → RollsBack Refuses
          (callback_transaction (services env) context provider subject (transaction_storage env))
  unfolding callback_transaction
  callback_transaction-RollsBack context provider subject =
      search (quiet_rules, link_user_rolls, issue_session_for_user_rolls) depth 9

  issue_for_identity_rolls :
      (context : RequestContext) (found : Option OauthIdentity)
      → RollsBack Refuses
          (issue_for_identity (services env) context (transaction_storage env) found)
  issue_for_identity_rolls context none = search quiet_rules
  issue_for_identity_rolls context (some identity) =
      search (quiet_rules, issue_session_for_user_rolls)

  pub retry_transaction-RollsBack :
      (context : RequestContext) (provider subject : String)
      → RollsBack Refuses
          (retry_transaction (services env) context provider subject (transaction_storage env))
  unfolding retry_transaction
  retry_transaction-RollsBack context provider subject =
      search (quiet_rules, issue_for_identity_rolls) depth 9
