-- ===== src/Postgres/Inside.antt =====
-- While a transaction of packages/storage-postgres is open, what its client does stays in the
-- transaction's own copy: the callbacks of packages/core change no committed table.
use authia.Prelude.{ℕ, ◌≡◌, String, true, Option, none, some, List, [], ◌∷◌, is_some, arith}
use authia.Contracts.Sessions.{User, SessionRecord, SessionTransport}
use authia.Contracts.Storage.{TransactionalStorage, OauthIdentity}
use authia.Contracts.Results.{RequestContext}
use authia.Io.{Io}
use authia.Io.Keeps.{Keeps, keeps_rules}
use authia.Postgres.Tables.{Database, Statement}
use authia.Postgres.Connection.{World, Client, query, date_now, random_uuid}
use authia.Postgres.SessionRows.{
  found_for_update, create_session, update_session_row, compare_and_swap, revoke, revoke_all,
}
use authia.Postgres.Tokens.{create_verified_emails_repository}
use authia.Postgres.Accounts.{
  create_user, find_user, create_identity, update_identity_password, create_oauth_identity,
  create_oauth_identities_repository,
}
use authia.Postgres.Transactions.{create_transactional_storage}
use authia.Session.{issue_session, refresh_with, refresh_presented, refresh_session}
use authia.EmailPassword.Accounts.{sign_up_transaction, sign_in_transaction}
use authia.EmailPassword.Reset.{found_or_invalid, reset_password_transaction}
use authia.EmailPassword.Verification.{mark_consumed, verify_email_transaction}
use authia.Oauth.Finish.{
  issue_for_found, issue_session_for_user, link_user, callback_transaction, issue_for_identity,
  retry_transaction,
}
use authia.System.{Environment, services}

-- A transaction is open over these committed tables, with so many clients leased.
pub record IsInside (committed : Database) (leased : ℕ) (w : World) : Type 0 where
  pub same_tables : w.committed ≡ committed
  pub same_leases : w.leased ≡ leased
  pub is_open : is_some w.working ≡ true

abbrev pub StaysInside : Database → ℕ → {A : Type 0} → Io World A → Type 0
StaysInside committed leased m = Keeps (IsInside committed leased) m

abbrev transaction_storage : Environment → TransactionalStorage World
transaction_storage env = create_transactional_storage env.backend Client.client

module _ (env : Environment) (committed : Database) (leased : ℕ) where
  query-StaysInside :
      {A : Type 0} (statement : Statement A)
      → StaysInside committed leased (query env.backend Client.client statement)
  unfolding query
  query-StaysInside statement = record { at = λ w h. ground arith }

  random_uuid-StaysInside : StaysInside committed leased (random_uuid env.backend)
  random_uuid-StaysInside = record { at = λ w h. ground arith }

  date_now-StaysInside : StaysInside committed leased (date_now env.backend)
  date_now-StaysInside = record { at = λ w h. ground arith }

  found_for_update-StaysInside :
      (rows : List SessionRecord) → StaysInside committed leased (found_for_update rows)
  found_for_update-StaysInside [] = search keeps_rules
  found_for_update-StaysInside (s ∷ rows) = search keeps_rules

  hash-StaysInside :
      (p : String) → StaysInside committed leased ((services env).crypto.hash_secret p)
  hash-StaysInside p = record { at = λ w h. ground arith }

  token-StaysInside : StaysInside committed leased (services env).crypto.generate_opaque_token
  token-StaysInside = record { at = λ w h. ground arith }

  id-StaysInside :
      (t : String) → StaysInside committed leased ((services env).crypto.derive_token_id t)
  id-StaysInside t = record { at = λ w h. ground arith }

  verifier-StaysInside :
      (t : String) → StaysInside committed leased ((services env).crypto.derive_token_verifier t)
  verifier-StaysInside t = record { at = λ w h. ground arith }

  ruleset inside_rules = (
    keeps_rules, query-StaysInside, random_uuid-StaysInside, date_now-StaysInside,
    found_for_update-StaysInside, hash-StaysInside, token-StaysInside, id-StaysInside,
    verifier-StaysInside,
  )

  issue_session-StaysInside :
      (user : User) (context : RequestContext)
      → StaysInside committed leased
          ((services env).sessions.issue_session user (transaction_storage env) context)
  unfolding issue_session create_session
  issue_session-StaysInside user context = search inside_rules depth 9

  pub sign_up_transaction-StaysInside :
      (context : RequestContext) (email password : String)
      → StaysInside committed leased
          (sign_up_transaction (services env) context email password (transaction_storage env))
  unfolding sign_up_transaction create_user create_identity
  sign_up_transaction-StaysInside context email password =
      search (inside_rules, issue_session-StaysInside) depth 9

  pub sign_in_transaction-StaysInside :
      (context : RequestContext) (user : User)
      → StaysInside committed leased
          (sign_in_transaction (services env) context user (transaction_storage env))
  unfolding sign_in_transaction
  sign_in_transaction-StaysInside context user =
      search (inside_rules, issue_session-StaysInside) depth 9

  found_or_invalid-StaysInside :
      {A : Type 0} (found : Option A)
      → StaysInside committed leased (found_or_invalid (services env) found)
  found_or_invalid-StaysInside none = search keeps_rules
  found_or_invalid-StaysInside (some a) = search keeps_rules

  pub reset_password_transaction-StaysInside :
      (token_hash password : String)
      → StaysInside committed leased
          (reset_password_transaction (services env) token_hash password (transaction_storage env))
  unfolding reset_password_transaction revoke_all update_identity_password
  reset_password_transaction-StaysInside token_hash password =
      search (inside_rules, found_or_invalid-StaysInside) depth 12

  mark_consumed-StaysInside :
      (found : Option String)
      → StaysInside committed leased (
          mark_consumed
            (services env)
            (create_verified_emails_repository env.backend Client.client)
            found)
  mark_consumed-StaysInside none = search inside_rules
  mark_consumed-StaysInside (some email) = search inside_rules depth 9

  pub verify_email_transaction-StaysInside :
      (token_hash : String)
      → StaysInside committed leased
          (verify_email_transaction (services env) token_hash (transaction_storage env))
  unfolding verify_email_transaction
  verify_email_transaction-StaysInside token_hash =
      search (inside_rules, mark_consumed-StaysInside) depth 9

  issue_for_found-StaysInside :
      (context : RequestContext) (found : Option User)
      → StaysInside committed leased
          (issue_for_found (services env) context (transaction_storage env) found)
  issue_for_found-StaysInside context none = search inside_rules
  issue_for_found-StaysInside context (some user) =
      search (inside_rules, issue_session-StaysInside) depth 9

  issue_session_for_user-StaysInside :
      (context : RequestContext) (user_id : String)
      → StaysInside committed leased
          (issue_session_for_user (services env) context (transaction_storage env) user_id)
  unfolding issue_session_for_user find_user
  issue_session_for_user-StaysInside context user_id =
      search (inside_rules, issue_for_found-StaysInside) depth 9

  link_user-StaysInside :
      (context : RequestContext) (provider subject : String) (linked : Option String)
      → StaysInside committed leased (
          link_user
            (services env)
            context
            (transaction_storage env)
            (create_oauth_identities_repository env.backend Client.client)
            provider
            subject
            linked)
  unfolding link_user create_user create_oauth_identity
  link_user-StaysInside context provider subject none = search inside_rules depth 9
  link_user-StaysInside context provider subject (some user_id) = search inside_rules depth 9

  pub callback_transaction-StaysInside :
      (context : RequestContext) (provider subject : String)
      → StaysInside committed leased
          (callback_transaction (services env) context provider subject (transaction_storage env))
  unfolding callback_transaction
  callback_transaction-StaysInside context provider subject =
      search (inside_rules, link_user-StaysInside, issue_session_for_user-StaysInside) depth 9

  issue_for_identity-StaysInside :
      (context : RequestContext) (found : Option OauthIdentity)
      → StaysInside committed leased
          (issue_for_identity (services env) context (transaction_storage env) found)
  issue_for_identity-StaysInside context none = search inside_rules
  issue_for_identity-StaysInside context (some identity) =
      search (inside_rules, issue_session_for_user-StaysInside)

  pub retry_transaction-StaysInside :
      (context : RequestContext) (provider subject : String)
      → StaysInside committed leased
          (retry_transaction (services env) context provider subject (transaction_storage env))
  unfolding retry_transaction
  retry_transaction-StaysInside context provider subject =
      search (inside_rules, issue_for_identity-StaysInside) depth 9

  pub revoke_session-StaysInside :
      (session_id : String)
      → StaysInside committed leased
          ((services env).sessions.revoke_session session_id (some (transaction_storage env)))
  unfolding revoke
  revoke_session-StaysInside session_id = search inside_rules depth 9

  pub revoke_all_sessions-StaysInside :
      (user_id : String)
      → StaysInside committed leased
          ((services env).sessions.revoke_all_sessions user_id (some (transaction_storage env)))
  unfolding revoke_all
  revoke_all_sessions-StaysInside user_id = search inside_rules depth 9

  refresh_presented-StaysInside :
      (presented : Option SessionTransport) (session : SessionRecord) (context : RequestContext)
      → StaysInside committed leased (
          refresh_presented
            (date_now env.backend)
            (services env).crypto
            presented
            session
            (transaction_storage env)
            context)
  unfolding refresh_with update_session_row compare_and_swap
  refresh_presented-StaysInside none session context = search inside_rules
  refresh_presented-StaysInside (some credential) session context = search inside_rules depth 12

  pub refresh_session-StaysInside :
      (session : SessionRecord) (context : RequestContext)
      → StaysInside committed leased
          ((services env).sessions.refresh_session session (transaction_storage env) context)
  unfolding refresh_session
  refresh_session-StaysInside session context =
      refresh_presented-StaysInside context.credential session context
