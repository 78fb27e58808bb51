-- ===== src/Session.antt =====
-- packages/core/src/session: issuing, validating and refreshing a session, the session layer, and
-- the mutations that clear a transport.
pub mod Validation
pub mod Acceptance
pub mod Issue
pub mod Rotation
pub mod Refresh
use authia.Prelude.{
  ℕ, String, Bool, true, false, Option, none, some, [], ◌∷◌, ◌+◌, ◌-◌, ◌||◌, leb, is_some,
  if◌then◌else◌,
}
use authia.Contracts.Errors.{UnauthenticatedCode, AuthErrorCode, infrastructure_error}
use authia.Contracts.Sessions.{
  absolute_lifetime_ms, idle_timeout_ms, rotation_threshold_ms, SessionTransport, User,
  SessionRecord, SessionValidationOutcome,
}
use authia.Contracts.Results.{
  CookieMutation, ResponseMutations, RequestContext, AuthResult, invalid_input,
}
use authia.Contracts.Storage.{TransactionalStorage, SessionCreateInput, SessionUpdateInput}
use authia.Contracts.Services.{Crypto, IssuedSession, RefreshOutcome, SessionLayer}
use authia.Io.{Io, pure, fail, both, ◌>>=◌}

-- new Date(session.expiresAt).getTime() <= now || new Date(session.idleExpiresAt).getTime() <= now
abbrev pub is_expired : SessionRecord → ℕ → Bool
is_expired session now = leb session.expires_at now || leb session.idle_expires_at now

abbrev pub idle_patch : ℕ → SessionUpdateInput
idle_patch idle_expires_at = record {
  token_id = none;
  token_verifier = none;
  last_rotated_at = none;
  expires_at = none;
  idle_expires_at = some idle_expires_at;
  revoked_at = none;
}

abbrev pub new_session_input : User → String → String → ℕ → SessionCreateInput
new_session_input subject token_id token_verifier now = record {
  user_id = subject.id;
  token_id = token_id;
  token_verifier = token_verifier;
  expires_at = now + absolute_lifetime_ms;
  idle_expires_at = now + idle_timeout_ms;
}

-- What the compare-and-swap decides: null means that another request was first.
abbrev pub rotation_outcome : RequestContext → String → Option SessionRecord → RefreshOutcome
rotation_outcome context token none =
    RefreshOutcome.declined (AuthResult.unauthenticated UnauthenticatedCode.session_revoked)
rotation_outcome context token (some session) =
    RefreshOutcome.refreshed
      (record { session = session; transport = record { kind = context.transport; token = token } })

-- `now - lastRotatedAt >= rotationThresholdMs`, which is false where the difference is negative.
abbrev pub rotation_due : SessionRecord → ℕ → Bool
rotation_due session now = leb rotation_threshold_ms (now - session.last_rotated_at)

module _ {W : Type 0} (date_now : Io W ℕ) (crypto : Crypto W) where
  unfoldable pub issue_session : User → TransactionalStorage W → RequestContext → Io W IssuedSession
  issue_session subject tx context = do
    token ← crypto.generate_opaque_token
    (token_id, token_verifier) ←
        both (crypto.derive_token_id token) (crypto.derive_token_verifier token)
    now ← date_now
    session ← tx.sessions.create (new_session_input subject token_id token_verifier now)
    pure (record {
      session = session;
      transport = record { kind = context.transport; token = token };
    })

  -- The checks on the session that was found, in the order of the code.
  unfoldable pub check_session :
      TransactionalStorage W → SessionTransport → SessionRecord → Io W SessionValidationOutcome
  check_session storage credential session =
      if is_some session.revoked_at
      then pure (SessionValidationOutcome.unauthenticated UnauthenticatedCode.session_revoked)
      else do
        verifier_matches ←
            crypto.verify_opaque_token credential.token session.current_token_verifier
        if verifier_matches
            then (do
              now ← date_now
              if is_expired session now
                  then pure
                      (SessionValidationOutcome.unauthenticated UnauthenticatedCode.session_expired)
                  else do
                    found ← storage.users.find session.user_id
                    elim found [
                      | none ↦ fail (
                          infrastructure_error AuthErrorCode.storage_unavailable
                            "Session subject could not be loaded.")
                      | some user ↦ pure (
                          SessionValidationOutcome.authenticated
                            (record { user = user; session = session }))
                    ])
            else pure (SessionValidationOutcome.unauthenticated UnauthenticatedCode.session_revoked)

  unfoldable pub validate_session :
      TransactionalStorage W → Option SessionTransport → Io W SessionValidationOutcome
  validate_session storage none = pure SessionValidationOutcome.denied
  validate_session storage (some credential) = do
    token_id ← crypto.derive_token_id credential.token
    found ← storage.sessions.find_by_current_token_id token_id
    elim found [
      | none ↦ pure (SessionValidationOutcome.unauthenticated UnauthenticatedCode.session_revoked)
      | some session ↦ check_session storage credential session
    ]

  -- The part of refreshing that comes after `rotationDue` holds.
  unfoldable pub rotate_session :
      SessionRecord → TransactionalStorage W → RequestContext → ℕ → Io W RefreshOutcome
  rotate_session session tx context now = do
    token ← crypto.generate_opaque_token
    token_id ← crypto.derive_token_id token
    token_verifier ← crypto.derive_token_verifier token
    swapped ← tx.sessions.compare_and_swap_token (record {
      session_id = session.id;
      expected_token_id = session.current_token_id;
      next_token_id = token_id;
      next_token_verifier = token_verifier;
      next_last_rotated_at = now;
      next_idle_expires_at = now + idle_timeout_ms;
    })
    pure (rotation_outcome context token swapped)

  abbrev pub refresh_declined : UnauthenticatedCode → Io W RefreshOutcome
  refresh_declined code = pure (RefreshOutcome.declined (AuthResult.unauthenticated code))

  -- No rotation is due: the idle time begins anew.
  abbrev pub extend_session :
      SessionTransport → SessionRecord → TransactionalStorage W → ℕ → Io W RefreshOutcome
  extend_session credential session tx now = do
    updated ← tx.sessions.update session.id (idle_patch (now + idle_timeout_ms))
    pure (RefreshOutcome.refreshed (record { session = updated; transport = credential }))

  -- The session is neither revoked nor expired.
  abbrev pub refresh_live :
      SessionTransport
      → SessionRecord
      → TransactionalStorage W
      → RequestContext
      → ℕ
      → Io W RefreshOutcome
  refresh_live credential session tx context now =
      if rotation_due session now
      then rotate_session session tx context now
      else extend_session credential session tx now

  abbrev pub refresh_unrevoked :
      SessionTransport
      → SessionRecord
      → TransactionalStorage W
      → RequestContext
      → ℕ
      → Io W RefreshOutcome
  refresh_unrevoked credential session tx context now =
      if is_expired session now
      then refresh_declined UnauthenticatedCode.session_expired
      else refresh_live credential session tx context now

  unfoldable pub refresh_with :
      SessionTransport
      → SessionRecord
      → TransactionalStorage W
      → RequestContext
      → Io W RefreshOutcome
  unfolding rotate_session
  refresh_with credential session tx context = do
    now ← date_now
    if is_some session.revoked_at
        then refresh_declined UnauthenticatedCode.session_revoked
        else refresh_unrevoked credential session tx context now

  abbrev pub refresh_presented :
      Option SessionTransport
      → SessionRecord
      → TransactionalStorage W
      → RequestContext
      → Io W RefreshOutcome
  refresh_presented none session tx context = pure (RefreshOutcome.declined invalid_input)
  refresh_presented (some credential) session tx context =
      refresh_with credential session tx context

  unfoldable pub refresh_session :
      SessionRecord → TransactionalStorage W → RequestContext → Io W RefreshOutcome
  unfolding refresh_with
  refresh_session session tx context = refresh_presented context.credential session tx context

  -- createSessionLayer: a given transaction is used, else the pool.
  abbrev pub chosen_storage :
      TransactionalStorage W → Option (TransactionalStorage W) → TransactionalStorage W
  chosen_storage storage none = storage
  chosen_storage storage (some tx) = tx

  abbrev pub create_session_layer : TransactionalStorage W → SessionLayer W
  create_session_layer storage = record {
    issue_session = issue_session;
    validate_session = λ credential context. validate_session storage credential;
    refresh_session = refresh_session;
    revoke_session = λ session_id tx. (chosen_storage storage tx).sessions.revoke session_id;
    revoke_all_sessions =
        λ user_id tx. (chosen_storage storage tx).sessions.revoke_all_for_user user_id;
  }

abbrev pub no_mutations : ResponseMutations
no_mutations = record {
  set_cookies = none;
  clear_cookies = none;
  clear_bearer = none;
  redirect_to = none;
}

abbrev pub create_clear_bearer_mutation : ResponseMutations
create_clear_bearer_mutation = record no_mutations { clear_bearer = some true }

abbrev pub create_clear_cookie_mutation : String → String → ResponseMutations
create_clear_cookie_mutation name path =
    let cleared : CookieMutation = record {
      name = name;
      value = some "";
      path = some path;
      expires = some 0;
      http_only = true;
    } in
    record no_mutations { clear_cookies = some (cleared ∷ []) }
