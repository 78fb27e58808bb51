-- ===== src/Invariant/Stable.antt =====
-- A property of the world that the requests of packages/core keep, if it is about the tables and the
-- clients only: what the writes and the transactions have to keep, and what keeps it anyway.
use authia.Prelude.{ℕ, ◌≡◌, String, Option, none, some, List, [], ◌∷◌, arith}
use authia.Contracts.Results.{RequestContext}
use authia.Contracts.Sessions.{User, SessionRecord}
use authia.Contracts.Storage.{TransactionalStorage, OauthStateCreateInput}
use authia.Contracts.Services.{OauthProviderClient, EmailDelivery, Policy}
use authia.Io.{Io, io}
use authia.Io.Keeps.{Keeps}
use authia.Postgres.Connection.{World, Client, query, date_now}
use authia.Postgres.Accounts.{find_user, select_user, find_identity, select_identity_by_email}
use authia.Postgres.SessionRows.{find_session, select_session}
use authia.Postgres.Tokens.{
  create_oauth_state, consume_state, create_password_reset_tokens_repository,
  create_email_verification_tokens_repository, create_verified_emails_repository,
  select_verified_email,
}
use authia.Postgres.Transactions.{begin_transaction}
use authia.EmailPassword.Accounts.{sign_up_transaction, sign_in_transaction}
use authia.EmailPassword.Reset.{reset_password_transaction}
use authia.EmailPassword.Verification.{verify_email_transaction}
use authia.Oauth.Finish.{callback_transaction, retry_transaction}
use authia.System.{Environment, services}

-- Two worlds with the same tables, transaction and clients.
pub record Same (w w' : World) : Type 0 where
  pub committed : w'.committed ≡ w.committed
  pub working : w'.working ≡ w.working
  pub leased : w'.leased ≡ w.leased

-- A function that has nothing to do with the database.
abbrev pub IsApart : {A : Type 0} → Io World A → Type 0
IsApart m = (w : World) → Same w (m w).1

pub record IsApartClient (client : OauthProviderClient World) : Type 0 where
  pub build :
      (provider redirect_uri state challenge : String)
      → IsApart (client.build_authorization_url provider redirect_uri state challenge)
  pub exchange :
      (provider code redirect_uri verifier : String)
      → IsApart (client.exchange_code provider code redirect_uri verifier)

pub record IsApartDelivery (delivery : EmailDelivery World) : Type 0 where
  pub reset : (email token : String) → IsApart (delivery.send_password_reset email token)
  pub verification : (email token : String) → IsApart (delivery.send_email_verification email token)

abbrev pub OnSome : {A : Type 0} → (A → Type 0) → Option A → Type 0
OnSome Q none = Unit
OnSome Q (some a) = Q a

-- The OAuth provider and the delivery of mail do not use the database.
pub record IsApartEnvironment (env : Environment) : Type 0 where
  pub provider : OnSome IsApartClient env.oauth_provider_client
  pub delivery : OnSome IsApartDelivery env.email_delivery

pub record IsApartPolicy (policy : Policy World) : Type 0 where
  pub evaluates : (context : RequestContext) (w : World) → Same w (policy.evaluate context w).1

abbrev pub AllPolicies : List (Policy World) → Type 0
AllPolicies [] = Unit
AllPolicies (p ∷ ps) = IsApartPolicy p × AllPolicies ps

module _ (env : Environment) (P : World → Type 0) where
  abbrev pub KeepsTransaction : {T : Type 0} → (TransactionalStorage World → Io World T) → Type 0
  KeepsTransaction run = Keeps P (begin_transaction env.backend run)

  -- The writes on the pool and the transactions keep P.
  pub record IsStable : Type 0 where
    pub local : (w w' : World) → Same w w' → P w → P w'
    pub create_state :
        (input : OauthStateCreateInput) → Keeps P (create_oauth_state env.backend Client.pool input)
    pub consume :
        (provider state_hash : String) (now : ℕ)
        → Keeps P (consume_state env.backend Client.pool provider state_hash now)
    pub create_reset :
        (token_hash email : String) (expires_at : ℕ)
        → Keeps P (
            (create_password_reset_tokens_repository env.backend Client.pool).create token_hash
              email expires_at)
    pub create_verification :
        (token_hash email : String) (expires_at : ℕ)
        → Keeps P (
            (create_email_verification_tokens_repository env.backend Client.pool).create token_hash
              email expires_at)
    pub sign_up :
        (context : RequestContext) (email password : String)
        → KeepsTransaction (sign_up_transaction (services env) context email password)
    pub sign_in :
        (context : RequestContext) (user : User)
        → KeepsTransaction (sign_in_transaction (services env) context user)
    pub reset :
        (token_hash password : String)
        → KeepsTransaction (reset_password_transaction (services env) token_hash password)
    pub verify :
        (token_hash : String)
        → KeepsTransaction (verify_email_transaction (services env) token_hash)
    pub callback :
        (context : RequestContext) (provider subject : String)
        → KeepsTransaction (callback_transaction (services env) context provider subject)
    pub retry :
        (context : RequestContext) (provider subject : String)
        → KeepsTransaction (retry_transaction (services env) context provider subject)
    pub refresh :
        (session : SessionRecord) (context : RequestContext)
        → KeepsTransaction (λ tx. (services env).sessions.refresh_session session tx context)
    pub revoke :
        (session_id : String)
        → KeepsTransaction (λ tx. (services env).sessions.revoke_session session_id (some tx))
    pub revoke_all :
        (user_id : String)
        → KeepsTransaction (λ tx. (services env).sessions.revoke_all_sessions user_id (some tx))

  module _ (stable : IsStable) where
    pub apart-Keeps : {A : Type 0} (m : Io World A) → IsApart m → Keeps P m
    apart-Keeps m same = record { at = λ w h. stable.local w (m w).1 (same w) h }

    pub date_now-Keeps : Keeps P (date_now env.backend)
    date_now-Keeps = apart-Keeps _ (λ w. ground arith)

    pub hash-Keeps : (p : String) → Keeps P ((services env).crypto.hash_secret p)
    hash-Keeps p = apart-Keeps _ (λ w. ground arith)

    pub verify_secret-Keeps :
        (p hash : String) → Keeps P ((services env).crypto.verify_secret p hash)
    verify_secret-Keeps p hash = apart-Keeps _ (λ w. ground arith)

    pub token-Keeps : Keeps P (services env).crypto.generate_opaque_token
    token-Keeps = apart-Keeps _ (λ w. ground arith)

    pub id-Keeps : (t : String) → Keeps P ((services env).crypto.derive_token_id t)
    id-Keeps t = apart-Keeps _ (λ w. ground arith)

    pub verifier-Keeps : (t : String) → Keeps P ((services env).crypto.derive_token_verifier t)
    verifier-Keeps t = apart-Keeps _ (λ w. ground arith)

    pub verify_opaque-Keeps :
        (t v : String) → Keeps P ((services env).crypto.verify_opaque_token t v)
    verify_opaque-Keeps t v = apart-Keeps _ (λ w. ground arith)

    pub find_user-Keeps : (id : String) → Keeps P (find_user env.backend Client.pool id)
    unfolding find_user query select_user io
    find_user-Keeps id = apart-Keeps (find_user env.backend Client.pool id) (λ w. ground arith)

    pub find_identity-Keeps :
        (email : String) → Keeps P (find_identity env.backend Client.pool email)
    unfolding find_identity query select_identity_by_email io
    find_identity-Keeps email =
        apart-Keeps (find_identity env.backend Client.pool email) (λ w. ground arith)

    pub find_session-Keeps : (id : String) → Keeps P (find_session env.backend Client.pool id)
    unfolding find_session query select_session io
    find_session-Keeps id =
        apart-Keeps (find_session env.backend Client.pool id) (λ w. ground arith)

    pub find_verified-Keeps :
        (email : String)
        → Keeps P ((create_verified_emails_repository env.backend Client.pool).find email)
    unfolding query select_verified_email io
    find_verified-Keeps email =
        apart-Keeps ((create_verified_emails_repository env.backend Client.pool).find email)
          (λ w. ground arith)
