-- ===== src/Session/Acceptance.antt =====
-- packages/core/src/session/validate-session.ts accepts what packages/core/src/session/issue-session.ts
-- hands out, while it lasts.
use authia.Prelude.{
  ℕ, String, ◌==◌, ◌+◌, ◌<◌, ◌≡◌, refl, true, none, some, List, [], ◌∷◌, length, nat_eq, arith,
}
use authia.Contracts.Sessions.{SessionTransport, SessionRecord, User, SessionValidationOutcome}
use authia.Io.{Completion, io}
use authia.Session.{check_session, validate_session}
use authia.Session.Validation.{validate}
use authia.Postgres.Tables.{Database, select, first}
use authia.Postgres.Connection.{World, Client, query, date_now}
use authia.Postgres.Accounts.{select_user, find_user}
use authia.Postgres.SessionRows.{has_token, select_session, find_session}
use authia.Postgres.Transactions.{create_transactional_storage}
use authia.Crypto.Comparison.{
  units, utf8, timing_safe_equal, bytes_eq, pad_end, max_length, and_same_length, compare_padded,
}
use authia.Crypto.Provider.{token_fits, create_default_crypto_provider}
use authia.System.{Environment}

bytes_eq_self : (a : List ℕ) → bytes_eq a a ≡ true
bytes_eq_self [] = refl
bytes_eq_self (u ∷ a) = ground (arith, bytes_eq_self a)

nat_eq_self : (n : ℕ) → nat_eq n n ≡ true
nat_eq_self n = ground arith

same_compared :
    (bytes : List ℕ) (n : ℕ)
    → and_same_length (nat_eq n n) (timing_safe_equal bytes bytes) ≡ some true
same_compared bytes n = rw (nat_eq_self n, nat_eq_self (length bytes), bytes_eq_self bytes) refl

-- A text compares equal to itself, whatever its characters.
compare_padded_self : (a : List ℕ) → compare_padded a a ≡ some true
unfolding compare_padded
compare_padded_self a = same_compared (utf8 (pad_end a (max_length a a))) (length a)

module _ (env : Environment) where
  token_fits_own :
      (token verifier : String)
      → env.dependencies.derive_token_verifier token ≡ some verifier
      → token_fits env.dependencies token verifier ≡ some true
  unfolding token_fits
  token_fits_own token verifier h = rw h (compare_padded_self (units verifier))

  -- The server answers the calls that a validation in `w` makes, which reads the clock once.
  pub record IsAnswered (w : World) : Type 0 where
    pub session_query : env.backend.fault w.step ≡ none
    pub user_query : env.backend.fault (w.step + 1 + 1) ≡ none

  -- The session has time left at the clock that a validation in `w` reads.
  pub record HasTime (w : World) (session : SessionRecord) : Type 0 where
    pub absolute : env.backend.clock (w.step + 1) < session.expires_at
    pub idle : env.backend.clock (w.step + 1) < session.idle_expires_at

  -- The rows that a validation finds for a token.
  pub record IsStored (d : Database) (token : String) (session : SessionRecord) (user : User)
      : Type 0 where
    pub token_id : env.dependencies.derive_token_id token ≡ some session.current_token_id
    pub verifier :
        env.dependencies.derive_token_verifier token ≡ some session.current_token_verifier
    pub found : first (select (has_token session.current_token_id) d.sessions) ≡ some session
    pub not_revoked : session.revoked_at ≡ none
    pub owner : first (select (λ u. u.id == session.user_id) d.users) ≡ some user

  check_accepts :
      (w : World) (credential : SessionTransport) (session : SessionRecord) (user : User)
      → token_fits env.dependencies credential.token session.current_token_verifier ≡ some true
      → session.revoked_at ≡ none
      → first (select (λ u. u.id == session.user_id) w.committed.users) ≡ some user
      → env.backend.fault (w.step + 1) ≡ none
      → env.backend.clock w.step < session.expires_at
      → env.backend.clock w.step < session.idle_expires_at
      → check_session
          (date_now env.backend)
          (create_default_crypto_provider env.dependencies)
          (create_transactional_storage env.backend Client.pool)
          credential
          session
          w
        ≡ (
          Completion.value
              (SessionValidationOutcome.authenticated (record { user = user; session = session })),
          record w { step = w.step + 1 + 1 },
        )
  unfolding io check_session find_user query select_user
  check_accepts w credential session user fits live owner answered absolute idle = ground arith

  -- A credential whose token has a stored session, found under its token id, that is not revoked and
  -- has its verifier, is accepted: where the session has time left, its owner is stored and the server
  -- answers, the validation answers with the session and its owner, and only reads.
  pub validate_accepts :
      (w : World) (credential : SessionTransport) (session : SessionRecord) (user : User)
      → IsStored w.committed credential.token session user
      → IsAnswered w
      → HasTime w session
      → validate env (some credential) w ≡ (
        Completion.value
            (SessionValidationOutcome.authenticated (record { user = user; session = session })),
        record w { step = w.step + 1 + 1 + 1 },
      )
  unfolding io validate_session find_session query select_session
  validate_accepts w credential session user stored answered time = ground (
    arith,
    check_accepts (record w { step = w.step + 1 }) credential session user
        (token_fits_own credential.token session.current_token_verifier stored.verifier),
  )
