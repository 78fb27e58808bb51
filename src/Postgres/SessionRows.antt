-- ===== src/Postgres/SessionRows.antt =====
-- packages/storage-postgres/src/repositories/sessions-repository.ts.
use authia.Prelude.{
  ℕ, String, Bool, false, not, ◌==◌, ◌&&◌, ◌||◌, Option, none, some, List, [], ◌∷◌, ◌++◌, any,
  length, is_some, if◌then◌else◌,
}
use authia.Contracts.Errors.{AuthErrorCode, infrastructure_error}
use authia.Contracts.Sessions.{SessionRecord}
use authia.Contracts.Storage.{
  SessionCreateInput, SessionUpdateInput, SessionCompareAndSwapInput, Sessions,
}
use authia.Io.{Io, pure, fail, ◌>>=◌}
use authia.Postgres.Tables.{
  Database, Answer, Statement, unique_violation, select, update, returning, first, insert_if,
}
use authia.Postgres.Connection.{Backend, World, Client, query, random_uuid, date_now, guarded}
use authia.Postgres.Accounts.{has_user}

abbrev pub has_token : String → SessionRecord → Bool
has_token token_id s = s.current_token_id == token_id

abbrev pub has_id : String → SessionRecord → Bool
has_id id s = s.id == id

unfoldable pub insert_session : SessionRecord → Statement SessionRecord
insert_session row database =
    insert_if (any (λ s. has_id row.id s || has_token row.current_token_id s) database.sessions)
      (not (has_user database row.user_id)) row
      (record database { sessions = database.sessions ++ row ∷ [] })

unfoldable pub select_session : String → Statement (List SessionRecord)
select_session token_id database =
    Answer.answered (select (has_token token_id) database.sessions) database

-- UPDATE sessions SET f WHERE p RETURNING *
abbrev pub set_sessions :
    (SessionRecord → Bool) → (SessionRecord → SessionRecord) → Database → Database
set_sessions p f database = record database { sessions = update p f database.sessions }

abbrev pub given : {A : Type 0} → Option A → A → A
given none old = old
given (some new) old = new

abbrev pub patched : SessionUpdateInput → SessionRecord → SessionRecord
patched input s = record s {
  current_token_id = given input.token_id s.current_token_id;
  current_token_verifier = given input.token_verifier s.current_token_verifier;
  last_rotated_at = given input.last_rotated_at s.last_rotated_at;
  expires_at = given input.expires_at s.expires_at;
  idle_expires_at = given input.idle_expires_at s.idle_expires_at;
  revoked_at = given input.revoked_at s.revoked_at;
}

-- Whether a row outside those that are updated has the token that the patch sets.
abbrev pub token_taken : (SessionRecord → Bool) → Option String → List SessionRecord → Bool
token_taken p none rows = false
token_taken p (some token_id) rows = any (λ s. not (p s) && has_token token_id s) rows

abbrev pub update_sessions :
    (SessionRecord → Bool)
    → Option String
    → (SessionRecord → SessionRecord)
    → Statement (List SessionRecord)
update_sessions p token_id f database =
    if token_taken p token_id database.sessions && any p database.sessions
    then Answer.violation unique_violation
    else Answer.answered (returning p f database.sessions) (set_sessions p f database)

unfoldable pub update_session : String → SessionUpdateInput → Statement (List SessionRecord)
update_session id input = update_sessions (has_id id) input.token_id (patched input)

-- WHERE id = $5 AND current_token_id = $6
abbrev pub swaps : SessionCompareAndSwapInput → SessionRecord → Bool
swaps input s = has_id input.session_id s && has_token input.expected_token_id s

abbrev pub swapped : SessionCompareAndSwapInput → SessionRecord → SessionRecord
swapped input s = record s {
  current_token_id = input.next_token_id;
  current_token_verifier = input.next_token_verifier;
  last_rotated_at = input.next_last_rotated_at;
  idle_expires_at = input.next_idle_expires_at;
}

unfoldable pub swap_token : SessionCompareAndSwapInput → Statement (List SessionRecord)
swap_token input = update_sessions (swaps input) (some input.next_token_id) (swapped input)

abbrev pub revoked : ℕ → SessionRecord → SessionRecord
revoked at s = record s { revoked_at = some at }

unfoldable pub revoke_session : String → ℕ → Statement (Unit {0})
revoke_session id at database = Answer.answered tt (set_sessions (has_id id) (revoked at) database)

-- WHERE user_id = $2 AND revoked_at IS NULL
abbrev pub is_active_of : String → SessionRecord → Bool
is_active_of user_id s = s.user_id == user_id && not (is_some s.revoked_at)

-- The answer is result.rowCount.
unfoldable pub revoke_sessions_of : String → ℕ → Statement ℕ
revoke_sessions_of user_id at database =
    Answer.answered (length (select (is_active_of user_id) database.sessions))
      (set_sessions (is_active_of user_id) (revoked at) database)

abbrev pub is_empty_patch : SessionUpdateInput → Bool
is_empty_patch input = not (
    is_some input.token_id
    || is_some input.token_verifier
    || is_some input.last_rotated_at
    || is_some input.expires_at
    || is_some input.idle_expires_at
    || is_some input.revoked_at)

abbrev pub found_for_update : List SessionRecord → Io World SessionRecord
found_for_update [] =
    fail (infrastructure_error AuthErrorCode.storage_unavailable "Session not found for update")
found_for_update (s ∷ rows) = pure s

module _ (backend : Backend) (via : Client) where
  unfoldable pub create_session : SessionCreateInput → Io World SessionRecord
  create_session input = guarded "Failed to create session" (do
    id ← random_uuid backend
    last_rotated_at ← date_now backend
    query backend via (
        insert_session (record {
          id = id;
          user_id = input.user_id;
          current_token_id = input.token_id;
          current_token_verifier = input.token_verifier;
          last_rotated_at = last_rotated_at;
          expires_at = input.expires_at;
          idle_expires_at = input.idle_expires_at;
          revoked_at = none;
        })))

  unfoldable pub find_session : String → Io World (Option SessionRecord)
  find_session token_id =
      guarded "Failed to find session by token"
        (do rows ← query backend via (select_session token_id); pure (first rows))

  unfoldable pub update_session_row : String → SessionUpdateInput → Io World SessionRecord
  update_session_row session_id input = guarded "Failed to update session" (
      if is_empty_patch input
      then fail (
          infrastructure_error AuthErrorCode.storage_unavailable
            "No fields provided for session update")
      else (do rows ← query backend via (update_session session_id input); found_for_update rows))

  unfoldable pub compare_and_swap : SessionCompareAndSwapInput → Io World (Option SessionRecord)
  compare_and_swap input =
      guarded "Failed to swap session token"
        (do rows ← query backend via (swap_token input); pure (first rows))

  unfoldable pub revoke : String → Io World (Unit {0})
  revoke session_id =
      guarded "Failed to revoke session"
        (do at ← date_now backend; query backend via (revoke_session session_id at))

  unfoldable pub revoke_all : String → Io World ℕ
  revoke_all user_id =
      guarded "Failed to revoke user sessions"
        (do at ← date_now backend; query backend via (revoke_sessions_of user_id at))

  abbrev pub create_sessions_repository : Sessions World
  create_sessions_repository = record {
    create = create_session;
    find_by_current_token_id = find_session;
    update = update_session_row;
    compare_and_swap_token = compare_and_swap;
    revoke = revoke;
    revoke_all_for_user = revoke_all;
  }
