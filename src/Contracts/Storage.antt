-- ===== src/Contracts/Storage.antt =====
-- packages/contracts/src/storage.ts: the repositories, as the services see them.
use authia.Prelude.{ℕ, String, Option, List}
use authia.Contracts.Sessions.{User, LocalIdentity, SessionRecord}
use authia.Io.{Io}

pub record SessionCreateInput : Type 0 where
  pub user_id : String
  pub token_id : String
  pub token_verifier : String
  pub expires_at : ℕ
  pub idle_expires_at : ℕ

-- `none` is a field that the patch leaves out.
pub record SessionUpdateInput : Type 0 where
  pub token_id : Option String
  pub token_verifier : Option String
  pub last_rotated_at : Option ℕ
  pub expires_at : Option ℕ
  pub idle_expires_at : Option ℕ
  pub revoked_at : Option (Option ℕ)

pub record SessionCompareAndSwapInput : Type 0 where
  pub session_id : String
  pub expected_token_id : String
  pub next_token_id : String
  pub next_token_verifier : String
  pub next_last_rotated_at : ℕ
  pub next_idle_expires_at : ℕ

pub record OauthStateCreateInput : Type 0 where
  pub provider : String
  pub state_hash : String
  pub code_verifier_ciphertext : String
  pub redirect_uri_hash : String
  pub expires_at : ℕ

pub record OauthState : Type 0 where
  pub id : String
  pub provider : String
  pub state_hash : String
  pub code_verifier_ciphertext : String
  pub redirect_uri_hash : String
  pub expires_at : ℕ
  pub consumed_at : Option ℕ

pub record ConsumedState : Type 0 where
  pub code_verifier_ciphertext : String
  pub redirect_uri_hash : String

pub record OauthIdentity : Type 0 where
  pub id : String
  pub user_id : String
  pub provider : String
  pub provider_subject : String

-- PasswordResetToken and EmailVerificationToken, which have the same fields.
pub record MailToken : Type 0 where
  pub id : String
  pub token_hash : String
  pub normalized_email : String
  pub expires_at : ℕ
  pub consumed_at : Option ℕ

pub record VerifiedEmailRecord : Type 0 where
  pub normalized_email : String
  pub verified_at : ℕ

module _ (W : Type 0) where
  pub record Users : Type 0 where
    pub create : Io W User
    pub find : String → Io W (Option User)

  pub record Identities : Type 0 where
    -- user id, normalized email, password hash
    pub create : String → String → String → Io W LocalIdentity
    pub find_by_normalized_email : String → Io W (Option LocalIdentity)
    pub list_by_user : String → Io W (List LocalIdentity)
    pub update_password_hash_by_normalized_email : String → String → Io W (Option LocalIdentity)

  pub record Sessions : Type 0 where
    pub create : SessionCreateInput → Io W SessionRecord
    pub find_by_current_token_id : String → Io W (Option SessionRecord)
    pub update : String → SessionUpdateInput → Io W SessionRecord
    pub compare_and_swap_token : SessionCompareAndSwapInput → Io W (Option SessionRecord)
    pub revoke : String → Io W (Unit {0})
    pub revoke_all_for_user : String → Io W ℕ

  pub record OauthStates : Type 0 where
    pub create : OauthStateCreateInput → Io W OauthState
    -- provider, state hash, now
    pub consume : String → String → ℕ → Io W (Option ConsumedState)

  pub record OauthIdentities : Type 0 where
    -- user id, provider, provider subject
    pub create : String → String → String → Io W OauthIdentity
    pub find_by_provider_subject : String → String → Io W (Option OauthIdentity)

  -- passwordResetTokens and emailVerificationTokens
  pub record MailTokens : Type 0 where
    -- token hash, normalized email, expiry
    pub create : String → String → ℕ → Io W MailToken
    -- token hash, now
    pub consume : String → ℕ → Io W (Option String)

  pub record VerifiedEmails : Type 0 where
    pub mark_verified : String → ℕ → Io W VerifiedEmailRecord
    pub find : String → Io W (Option VerifiedEmailRecord)

  pub record TransactionalStorage : Type 0 where
    pub users : Users
    pub identities : Identities
    pub sessions : Sessions
    pub oauth_states : Option OauthStates
    pub oauth_identities : Option OauthIdentities
    pub password_reset_tokens : Option MailTokens
    pub email_verification_tokens : Option MailTokens
    pub verified_emails : Option VerifiedEmails

  -- StorageAdapter: the repositories on the pool, and the transactions.
  pub record StorageAdapter : Type 1 where
    pub repositories : TransactionalStorage
    pub begin_transaction : {T : Type 0} → (TransactionalStorage → Io W T) → Io W T
