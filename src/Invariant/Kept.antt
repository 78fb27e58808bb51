-- ===== src/Invariant/Kept.antt =====
-- The callbacks of the transactions of packages/core keep a property of the tables that every
-- statement keeps; so does every write on the pool.
use authia.Prelude.{sym, subst, String, Option, none, some, List, [], ◌∷◌, arith}
use authia.Contracts.Sessions.{User, SessionRecord, SessionTransport}
use authia.Contracts.Storage.{TransactionalStorage, OauthIdentity}
use authia.Contracts.Results.{RequestContext}
use authia.Io.{Io}
use authia.Io.Keeps.{Keeps, keeps_rules}
use authia.Session.{issue_session, refresh_with, refresh_presented, refresh_session}
use authia.Postgres.Tables.{Database}
use authia.Postgres.Connection.{World, Client, date_now, random_uuid}
use authia.Postgres.Accounts.{
  select_user, select_oauth_identity, create_user, find_user, create_identity,
  update_identity_password, create_oauth_identity, create_oauth_identities_repository,
}
use authia.Postgres.SessionRows.{
  found_for_update, create_session, update_session_row, compare_and_swap, revoke, revoke_all,
}
use authia.Postgres.Tokens.{create_verified_emails_repository}
use authia.Postgres.Transactions.{create_transactional_storage}
use authia.EmailPassword.Accounts.{sign_up_transaction, sign_in_transaction}
use authia.EmailPassword.Reset.{found_or_invalid, reset_password_transaction}
use authia.EmailPassword.Verification.{mark_consumed, verify_email_transaction}
use authia.Oauth.Finish.{
  issue_for_found, issue_session_for_user, link_user, callback_transaction, issue_for_identity,
  retry_transaction,
}
use authia.System.{Environment, services}
use authia.Invariant.Stable.{Same, IsStable}
use authia.Invariant.Tables.{IsInvariant, Preserves, OnWorking, HoldsIn, query-HoldsIn}
use authia.Invariant.Transactions.{begin_transaction-HoldsIn}

abbrev transaction_storage : Environment → TransactionalStorage World
transaction_storage env = create_transactional_storage env.backend Client.client

module _ (env : Environment) (I : Database → Type 0) (inv : IsInvariant I) where
  abbrev Kept : {A : Type 0} → Io World A → Type 0
  Kept m = Keeps (HoldsIn I) m

  Same-HoldsIn : (w w' : World) → Same w w' → HoldsIn I w → HoldsIn I w'
  Same-HoldsIn w w' same h = record {
    committed = subst I (sym same.committed) h.committed;
    working = subst (OnWorking I) (sym same.working) h.working;
  }

  step-Kept : {A : Type 0} (m : Io World A) → ((w : World) → Same w (m w).1) → Kept m
  step-Kept m same = record { at = λ w h. Same-HoldsIn w (m w).1 (same w) h }

  random_uuid-Kept : Kept (random_uuid env.backend)
  random_uuid-Kept = step-Kept _ (λ w. ground arith)

  date_now-Kept : Kept (date_now env.backend)
  date_now-Kept = step-Kept _ (λ w. ground arith)

  hash-Kept : (p : String) → Kept ((services env).crypto.hash_secret p)
  hash-Kept p = step-Kept _ (λ w. ground arith)

  token-Kept : Kept (services env).crypto.generate_opaque_token
  token-Kept = step-Kept _ (λ w. ground arith)

  id-Kept : (t : String) → Kept ((services env).crypto.derive_token_id t)
  id-Kept t = step-Kept _ (λ w. ground arith)

  verifier-Kept : (t : String) → Kept ((services env).crypto.derive_token_verifier t)
  verifier-Kept t = step-Kept _ (λ w. ground arith)

  found_for_update-Kept : (rows : List SessionRecord) → Kept (found_for_update rows)
  found_for_update-Kept [] = search keeps_rules
  found_for_update-Kept (s ∷ rows) = search keeps_rules

  select_user-Preserves : (id : String) → Preserves I (select_user id)
  unfolding select_user
  select_user-Preserves id = record { at = λ d i. i }

  select_oauth_identity-Preserves :
      (provider subject : String) → Preserves I (select_oauth_identity provider subject)
  unfolding select_oauth_identity
  select_oauth_identity-Preserves provider subject = record { at = λ d i. i }

  ruleset kept_rules = (
    keeps_rules, query-HoldsIn, random_uuid-Kept, date_now-Kept, hash-Kept, token-Kept, id-Kept,
    verifier-Kept, found_for_update-Kept, select_user-Preserves, select_oauth_identity-Preserves,
  )

  issue_session-Kept :
      (user : User) (context : RequestContext)
      → Kept ((services env).sessions.issue_session user (transaction_storage env) context)
  unfolding issue_session create_session
  issue_session-Kept user context = search (kept_rules, inv.session) depth 12

  sign_up-Kept :
      (context : RequestContext) (email password : String)
      → Kept (sign_up_transaction (services env) context email password (transaction_storage env))
  unfolding sign_up_transaction create_user create_identity
  sign_up-Kept context email password =
      search (kept_rules, inv.user, inv.identity, issue_session-Kept) depth 12

  sign_in-Kept :
      (context : RequestContext) (user : User)
      → Kept (sign_in_transaction (services env) context user (transaction_storage env))
  unfolding sign_in_transaction
  sign_in-Kept context user = search (keeps_rules, issue_session-Kept)

  found_or_invalid-Kept :
      {A : Type 0} (found : Option A) → Kept (found_or_invalid (services env) found)
  found_or_invalid-Kept none = search keeps_rules
  found_or_invalid-Kept (some a) = search keeps_rules

  reset_password-Kept :
      (token_hash password : String)
      → Kept
          (reset_password_transaction (services env) token_hash password (transaction_storage env))
  unfolding reset_password_transaction revoke_all update_identity_password
  reset_password-Kept token_hash password =
      search (kept_rules, inv.consumed_reset, inv.password, inv.revoked_all, found_or_invalid-Kept)
        depth 16

  mark_consumed-Kept :
      (found : Option String)
      → Kept (
          mark_consumed
            (services env)
            (create_verified_emails_repository env.backend Client.client)
            found)
  mark_consumed-Kept none = search keeps_rules
  mark_consumed-Kept (some email) = search (kept_rules, inv.verified) depth 9

  verify_email-Kept :
      (token_hash : String)
      → Kept (verify_email_transaction (services env) token_hash (transaction_storage env))
  unfolding verify_email_transaction
  verify_email-Kept token_hash =
      search (kept_rules, inv.consumed_verification, mark_consumed-Kept) depth 9

  issue_for_found-Kept :
      (context : RequestContext) (found : Option User)
      → Kept (issue_for_found (services env) context (transaction_storage env) found)
  issue_for_found-Kept context none = search keeps_rules
  issue_for_found-Kept context (some user) = search (keeps_rules, issue_session-Kept)

  issue_session_for_user-Kept :
      (context : RequestContext) (user_id : String)
      → Kept (issue_session_for_user (services env) context (transaction_storage env) user_id)
  unfolding issue_session_for_user find_user
  issue_session_for_user-Kept context user_id = search (kept_rules, issue_for_found-Kept) depth 9

  link_user-Kept :
      (context : RequestContext) (provider subject : String) (linked : Option String)
      → Kept (
          link_user
            (services env)
            context
            (transaction_storage env)
            (create_oauth_identities_repository env.backend Client.client)
            provider
            subject
            linked)
  unfolding link_user create_user create_oauth_identity
  link_user-Kept context provider subject none =
      search (kept_rules, inv.user, inv.oauth_identity) depth 12
  link_user-Kept context provider subject (some user_id) = search keeps_rules

  callback-Kept :
      (context : RequestContext) (provider subject : String)
      → Kept
          (callback_transaction (services env) context provider subject (transaction_storage env))
  unfolding callback_transaction
  callback-Kept context provider subject =
      search (kept_rules, link_user-Kept, issue_session_for_user-Kept) depth 9

  issue_for_identity-Kept :
      (context : RequestContext) (found : Option OauthIdentity)
      → Kept (issue_for_identity (services env) context (transaction_storage env) found)
  issue_for_identity-Kept context none = search keeps_rules
  issue_for_identity-Kept context (some identity) =
      issue_session_for_user-Kept context identity.user_id

  retry-Kept :
      (context : RequestContext) (provider subject : String)
      → Kept (retry_transaction (services env) context provider subject (transaction_storage env))
  unfolding retry_transaction
  retry-Kept context provider subject = search (kept_rules, issue_for_identity-Kept) depth 9

  revoke-Kept :
      (session_id : String)
      → Kept ((services env).sessions.revoke_session session_id (some (transaction_storage env)))
  unfolding revoke
  revoke-Kept session_id = search (kept_rules, inv.revoked) depth 9

  revoke_all-Kept :
      (user_id : String)
      → Kept ((services env).sessions.revoke_all_sessions user_id (some (transaction_storage env)))
  unfolding revoke_all
  revoke_all-Kept user_id = search (kept_rules, inv.revoked_all) depth 9

  refresh_presented-Kept :
      (presented : Option SessionTransport) (session : SessionRecord) (context : RequestContext)
      → Kept (
          refresh_presented
            (date_now env.backend)
            (services env).crypto
            presented
            session
            (transaction_storage env)
            context)
  unfolding refresh_with update_session_row compare_and_swap
  refresh_presented-Kept none session context = search keeps_rules
  refresh_presented-Kept (some credential) session context =
      search (kept_rules, inv.idle, inv.swap) depth 14

  refresh-Kept :
      (session : SessionRecord) (context : RequestContext)
      → Kept ((services env).sessions.refresh_session session (transaction_storage env) context)
  unfolding refresh_session
  refresh-Kept session context = refresh_presented-Kept context.credential session context

  -- A property of the tables that every statement keeps is one that every request keeps.
  pub HoldsIn-IsStable : IsStable env (HoldsIn I)
  HoldsIn-IsStable = record {
    local = Same-HoldsIn;
    create_state = λ input. search (kept_rules, inv.state) depth 9;
    consume = λ provider hash now. search (kept_rules, inv.consumed_state) depth 9;
    create_reset = λ hash email expires_at. search (kept_rules, inv.reset_token) depth 9;
    create_verification =
        λ hash email expires_at. search (kept_rules, inv.verification_token) depth 9;
    sign_up = λ context email password.
        begin_transaction-HoldsIn I env.backend _ _ (sign_up-Kept context email password);
    sign_in =
        λ context user. begin_transaction-HoldsIn I env.backend _ _ (sign_in-Kept context user);
    reset = λ hash password.
        begin_transaction-HoldsIn I env.backend _ _ (reset_password-Kept hash password);
    verify = λ hash. begin_transaction-HoldsIn I env.backend _ _ (verify_email-Kept hash);
    callback = λ context provider subject.
        begin_transaction-HoldsIn I env.backend _ _ (callback-Kept context provider subject);
    retry = λ context provider subject.
        begin_transaction-HoldsIn I env.backend _ _ (retry-Kept context provider subject);
    refresh = λ session context.
        begin_transaction-HoldsIn I env.backend _ _ (refresh-Kept session context);
    revoke = λ session_id. begin_transaction-HoldsIn I env.backend _ _ (revoke-Kept session_id);
    revoke_all = λ user_id. begin_transaction-HoldsIn I env.backend _ _ (revoke_all-Kept user_id);
  }
