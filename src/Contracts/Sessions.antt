-- ===== src/Contracts/Sessions.antt =====
-- packages/contracts/src/session.ts: users, sessions and credentials. A timestamp is the number of
-- milliseconds since the epoch that its ISO text stands for.
use authia.Prelude.{ℕ, String, Bool, true, false, Option, ◌*◌}
use authia.Contracts.Errors.{UnauthenticatedCode}

abbrev pub absolute_lifetime_ms : ℕ
absolute_lifetime_ms = 30 * 24 * 60 * 60 * 1000

abbrev pub idle_timeout_ms : ℕ
idle_timeout_ms = 7 * 24 * 60 * 60 * 1000

abbrev pub rotation_threshold_ms : ℕ
rotation_threshold_ms = 24 * 60 * 60 * 1000

pub data TransportKind : Type 0 where
  cookie bearer : TransportKind

abbrev pub same_kind : TransportKind → TransportKind → Bool
same_kind TransportKind.cookie TransportKind.cookie = true
same_kind TransportKind.bearer TransportKind.bearer = true
same_kind _ _ = false

-- SessionTransport, and PresentedCredential, which is the same type.
pub record SessionTransport : Type 0 where
  pub kind : TransportKind
  pub token : String

pub record User : Type 0 where
  pub id : String
  pub created_at : ℕ

pub record LocalIdentity : Type 0 where
  pub id : String
  pub user_id : String
  pub normalized_email : String
  pub password_hash : String

pub record SessionRecord : Type 0 where
  pub id : String
  pub user_id : String
  pub current_token_id : String
  pub current_token_verifier : String
  pub last_rotated_at : ℕ
  pub expires_at : ℕ
  pub idle_expires_at : ℕ
  pub revoked_at : Option ℕ

pub record AuthenticatedSession : Type 0 where
  pub user : User
  pub session : SessionRecord

pub data SessionValidationOutcome : Type 0 where
  denied : SessionValidationOutcome
  authenticated : AuthenticatedSession → SessionValidationOutcome
  unauthenticated : UnauthenticatedCode → SessionValidationOutcome
