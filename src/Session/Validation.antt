-- ===== src/Session/Validation.antt =====
-- What packages/core/src/session/validate-session.ts accepts, over the Postgres repositories.
use authia.Prelude.{◌+◌, ◌≡◌, refl, ◌<◌, true, none, some, inl, inr, arith, Option-cases}
use authia.Contracts.Sessions.{
  SessionTransport, SessionRecord, AuthenticatedSession, SessionValidationOutcome,
}
use authia.Io.{io, Io, Completion}
use authia.Session.{check_session, validate_session}
use authia.Postgres.Tables.{select, first}
use authia.Postgres.Rows.{In, first-select-In}
use authia.Postgres.Connection.{World, Client, query, date_now}
use authia.Postgres.Accounts.{select_user, find_user}
use authia.Postgres.SessionRows.{has_token, select_session, find_session}
use authia.Postgres.Transactions.{create_transactional_storage}
use authia.Crypto.Provider.{token_fits, create_default_crypto_provider}
use authia.System.{Environment}
use text.Mathlib.Text.{◌==◌}
use text.Mathlib.TextEquality.{eq_iff}
use mathlib.Core.Option.{Option}

module _ (env : Environment) where
  -- The session and the user that a credential is accepted for, in the world in which the
  -- validation began.
  pub record IsAccepted (w : World) (credential : SessionTransport) (v : AuthenticatedSession)
      : Type 0 where
    pub token_id :
        env.dependencies.derive_token_id credential.token ≡ some v.session.current_token_id
    pub session_stored : In v.session w.committed.sessions
    pub not_revoked : v.session.revoked_at ≡ none
    pub verifier :
        token_fits env.dependencies credential.token v.session.current_token_verifier ≡ some true
    pub not_expired : env.backend.clock (w.step + 1) < v.session.expires_at
    pub not_idle : env.backend.clock (w.step + 1) < v.session.idle_expires_at
    pub user_stored : In v.user w.committed.users
    pub owner : v.user.id ≡ v.session.user_id

  abbrev check : SessionTransport → SessionRecord → Io World SessionValidationOutcome
  check =
      check_session (date_now env.backend) (create_default_crypto_provider env.dependencies)
        (create_transactional_storage env.backend Client.pool)

  -- Validation of a credential against the committed tables.
  abbrev pub validate : Option SessionTransport → Io World SessionValidationOutcome
  validate =
      validate_session (date_now env.backend) (create_default_crypto_provider env.dependencies)
        (create_transactional_storage env.backend Client.pool)

  -- The checks on a session that was found, as they pass.
  check_session_passed :
      (w w' : World) (credential : SessionTransport) (session : SessionRecord)
      (v : AuthenticatedSession)
      → check credential session w
        ≡ (Completion.value (SessionValidationOutcome.authenticated v), w')
      → (v.session ≡ session)
        × (session.revoked_at ≡ none)
        × (token_fits env.dependencies credential.token session.current_token_verifier ≡ some true)
        × (env.backend.clock w.step < session.expires_at)
        × (env.backend.clock w.step < session.idle_expires_at)
        × In v.user w.committed.users
        × (v.user.id ≡ session.user_id)
  unfolding io check_session find_user query select_user
  check_session_passed w w' credential session v h = ground (
    arith,
    first-select-In (λ u. u.id == session.user_id) w.committed.users v.user,
    eq_iff v.user.id session.user_id,
  )

  -- When the validation of a credential answers with an authenticated session, everything that the
  -- credential was checked for holds in the tables in which the validation began.
  pub validate-IsAccepted :
      (w w' : World) (credential : SessionTransport) (v : AuthenticatedSession)
      → validate (some credential) w
        ≡ (Completion.value (SessionValidationOutcome.authenticated v), w')
      → IsAccepted w credential v
  unfolding io validate_session find_session query select_session
  validate-IsAccepted w w' credential v h =
      elim (Option-cases (env.dependencies.derive_token_id credential.token)) [
        | inl failed ↦ ground arith
        | inr (token_id, derived) ↦
            elim (Option-cases (first (select (has_token token_id) w.committed.sessions))) [
              | inl absent ↦ ground arith
              | inr (session, found) ↦ ground (
                arith,
                first-select-In (has_token token_id) w.committed.sessions session,
                check_session_passed (record w { step = w.step + 1 }) w' credential session v,
                eq_iff session.current_token_id token_id,
              )
            ]
      ]

  -- The checks on a session change no table.
  check_session_reads :
      (w : World) (credential : SessionTransport) (session : SessionRecord)
      → (check credential session w).1.committed ≡ w.committed
  unfolding io check_session find_user query select_user
  check_session_reads w credential session = ground arith

  -- Validation changes no table, however it ends.
  pub validate_reads :
      (w : World) (credential : Option SessionTransport)
      → (validate credential w).1.committed ≡ w.committed
  unfolding io validate_session find_session query select_session
  validate_reads w none = refl
  validate_reads w (some credential) =
      elim (Option-cases (env.dependencies.derive_token_id credential.token)) [
        | inl failed ↦ ground arith
        | inr (token_id, derived) ↦
            elim (Option-cases (first (select (has_token token_id) w.committed.sessions))) [
              | inl absent ↦ ground arith
              | inr (session, found) ↦
                  ground
                    (arith, check_session_reads (record w { step = w.step + 1 }) credential session)
            ]
      ]
