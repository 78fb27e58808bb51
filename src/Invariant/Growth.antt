-- ===== src/Invariant/Growth.antt =====
-- The statements of packages/storage-postgres delete no row and undo nothing.
use authia.Prelude.{
  ℕ, ◌≡◌, refl, String, Bool, true, false, ◌&&◌, Option, none, some, [], ◌∷◌, ◌++◌, any,
  if◌then◌else◌, arith,
}
use authia.Contracts.Sessions.{User, LocalIdentity, SessionRecord}
use authia.Contracts.Storage.{
  SessionCompareAndSwapInput, OauthState, OauthIdentity, MailToken, VerifiedEmailRecord,
}
use authia.Session.{idle_patch}
use authia.Postgres.Tables.{
  Database, Answer, Statement, unique_violation, foreign_key_violation, insert_if, update,
  returning,
}
use authia.Postgres.Accounts.{
  insert_user, insert_identity, has_email, with_password_hash, update_password_hash,
  insert_oauth_identity,
}
use authia.Postgres.SessionRows.{
  insert_session, update_session, update_sessions, patched, swaps, swapped, swap_token, has_id,
  revoked, revoke_session, is_active_of, revoke_sessions_of, set_sessions, token_taken,
}
use authia.Postgres.Tokens.{
  insert_oauth_state, is_live_state, consumed_state, consume_oauth_state, is_live_token,
  consumed_token, insert_reset_token, consume_reset_token, insert_verification_token,
  consume_verification_token, is_verified, upsert_verified_email, knows_email,
}
use authia.Invariant.Tables.{OnAnswer}
use authia.Invariant.Rows.{Extends-append, Extends-update}
use authia.Invariant.Evolution.{
  SameIdentity, SameSession, SameState, SameToken, SameVerified, Equal, Evolves, Equal-refl,
  SameIdentity-refl, SameSession-refl, SameState-refl, SameToken-refl, SameVerified-refl,
}
use authia.Invariant.Changes.{
  users-Evolves, identities-Evolves, sessions-Evolves, states-Evolves, oauth_identities-Evolves,
  reset_tokens-Evolves, verification_tokens-Evolves, verified-Evolves,
}

-- A statement that undoes nothing.
abbrev pub Grows : {A : Type 0} → Statement A → Type 0
Grows statement = (d : Database) → OnAnswer (Evolves d) (statement d)

insert_if-Grows :
    {A : Type 0} (taken missing : Bool) (row : A) (d d' : Database)
    → Evolves d d'
    → OnAnswer (Evolves d) (insert_if taken missing row d')
insert_if-Grows true missing row d d' h = tt
insert_if-Grows false true row d d' h = tt
insert_if-Grows false false row d d' h = h

pub user-Grows : (row : User) → Grows (insert_user row)
unfolding insert_user
user-Grows row d =
    insert_if-Grows _ false row d (record d { users = d.users ++ row ∷ [] })
      (users-Evolves d (d.users ++ row ∷ []) (Extends-append Equal Equal-refl d.users row))

pub identity-Grows : (row : LocalIdentity) → Grows (insert_identity row)
unfolding insert_identity
identity-Grows row d =
    insert_if-Grows _ _ row d (record d { local_identities = d.local_identities ++ row ∷ [] })
      (identities-Evolves d (d.local_identities ++ row ∷ [])
        (Extends-append SameIdentity SameIdentity-refl d.local_identities row))

pub password-Grows : (email hash : String) → Grows (update_password_hash email hash)
unfolding update_password_hash
password-Grows email hash d = identities-Evolves d _ (
    Extends-update SameIdentity SameIdentity-refl (has_email email) (with_password_hash hash)
      (λ i h. record { id = refl; user_id = refl; email = refl }) d.local_identities)

pub oauth_identity-Grows : (row : OauthIdentity) → Grows (insert_oauth_identity row)
unfolding insert_oauth_identity
oauth_identity-Grows row d =
    insert_if-Grows _ _ row d (record d { oauth_identities = d.oauth_identities ++ row ∷ [] })
      (oauth_identities-Evolves d (d.oauth_identities ++ row ∷ [])
        (Extends-append Equal Equal-refl d.oauth_identities row))

pub session-Grows : (row : SessionRecord) → Grows (insert_session row)
unfolding insert_session
session-Grows row d =
    insert_if-Grows _ _ row d (record d { sessions = d.sessions ++ row ∷ [] })
      (sessions-Evolves d (d.sessions ++ row ∷ [])
        (Extends-append SameSession SameSession-refl d.sessions row))

-- An update of sessions that keeps what a session keeps.
set_sessions-Evolves :
    (p : SessionRecord → Bool) (f : SessionRecord → SessionRecord) (d : Database)
    → ((s : SessionRecord) → SameSession s (f s))
    → Evolves d (set_sessions p f d)
set_sessions-Evolves p f d same =
    sessions-Evolves d _
      (Extends-update SameSession SameSession-refl p f (λ s h. same s) d.sessions)

update_sessions-Grows :
    (p : SessionRecord → Bool) (token_id : Option String) (f : SessionRecord → SessionRecord)
    → ((s : SessionRecord) → SameSession s (f s))
    → Grows (update_sessions p token_id f)
update_sessions-Grows p token_id f same d =
    unless (token_taken p token_id d.sessions && any p d.sessions)
  where
    unless :
        (b : Bool)
        → OnAnswer (Evolves d) (
            if b
            then Answer.violation unique_violation
            else Answer.answered (returning p f d.sessions) (set_sessions p f d))
    unless true = tt
    unless false = set_sessions-Evolves p f d same

pub idle-Grows : (id : String) (at : ℕ) → Grows (update_session id (idle_patch at))
unfolding update_session
idle-Grows id at =
    update_sessions-Grows (has_id id) none (patched (idle_patch at))
      (λ s. record { id = refl; user_id = refl; expires_at = refl; stays_revoked = λ h. h })

pub swap-Grows : (input : SessionCompareAndSwapInput) → Grows (swap_token input)
unfolding swap_token
swap-Grows input =
    update_sessions-Grows (swaps input) (some input.next_token_id) (swapped input)
      (λ s. record { id = refl; user_id = refl; expires_at = refl; stays_revoked = λ h. h })

revoked-SameSession : (at : ℕ) (s : SessionRecord) → SameSession s (revoked at s)
revoked-SameSession at s = record {
  id = refl;
  user_id = refl;
  expires_at = refl;
  stays_revoked = λ h. refl;
}

pub revoked-Grows : (id : String) (at : ℕ) → Grows (revoke_session id at)
unfolding revoke_session
revoked-Grows id at d = set_sessions-Evolves (has_id id) (revoked at) d (revoked-SameSession at)

pub revoked_all-Grows : (user_id : String) (at : ℕ) → Grows (revoke_sessions_of user_id at)
unfolding revoke_sessions_of
revoked_all-Grows user_id at d =
    set_sessions-Evolves (is_active_of user_id) (revoked at) d (revoked-SameSession at)

pub state-Grows : (row : OauthState) → Grows (insert_oauth_state row)
unfolding insert_oauth_state
state-Grows row d =
    insert_if-Grows _ false row d (record d { oauth_states = d.oauth_states ++ row ∷ [] })
      (states-Evolves d (d.oauth_states ++ row ∷ [])
        (Extends-append SameState SameState-refl d.oauth_states row))

-- What is consumed is not live, so it is not consumed again.
consumed_state-SameState :
    (provider hash : String) (now : ℕ) (s : OauthState)
    → is_live_state provider hash now s ≡ true
    → SameState s (consumed_state now s)
consumed_state-SameState provider hash now s live = record {
  hash = refl;
  stays_consumed = λ c. absurd (ground arith);
}

pub consumed_state-Grows :
    (provider hash : String) (now : ℕ) → Grows (consume_oauth_state provider hash now)
unfolding consume_oauth_state
consumed_state-Grows provider hash now d = states-Evolves d _ (
    Extends-update SameState SameState-refl (is_live_state provider hash now) (consumed_state now)
      (consumed_state-SameState provider hash now) d.oauth_states)

consumed_token-SameToken :
    (hash : String) (now : ℕ) (s : MailToken)
    → is_live_token hash now s ≡ true
    → SameToken s (consumed_token now s)
consumed_token-SameToken hash now s live = record {
  hash = refl;
  email = refl;
  stays_consumed = λ c. absurd (ground arith);
}

pub reset_token-Grows : (row : MailToken) → Grows (insert_reset_token row)
unfolding insert_reset_token
reset_token-Grows row d =
    insert_if-Grows _ _ row d
      (record d { password_reset_tokens = d.password_reset_tokens ++ row ∷ [] })
      (reset_tokens-Evolves d (d.password_reset_tokens ++ row ∷ [])
        (Extends-append SameToken SameToken-refl d.password_reset_tokens row))

pub consumed_reset-Grows : (hash : String) (now : ℕ) → Grows (consume_reset_token hash now)
unfolding consume_reset_token
consumed_reset-Grows hash now d = reset_tokens-Evolves d _ (
    Extends-update SameToken SameToken-refl (is_live_token hash now) (consumed_token now)
      (consumed_token-SameToken hash now) d.password_reset_tokens)

pub verification_token-Grows : (row : MailToken) → Grows (insert_verification_token row)
unfolding insert_verification_token
verification_token-Grows row d =
    insert_if-Grows _ _ row d
      (record d { email_verification_tokens = d.email_verification_tokens ++ row ∷ [] })
      (verification_tokens-Evolves d (d.email_verification_tokens ++ row ∷ [])
        (Extends-append SameToken SameToken-refl d.email_verification_tokens row))

pub consumed_verification-Grows :
    (hash : String) (now : ℕ) → Grows (consume_verification_token hash now)
unfolding consume_verification_token
consumed_verification-Grows hash now d = verification_tokens-Evolves d _ (
    Extends-update SameToken SameToken-refl (is_live_token hash now) (consumed_token now)
      (consumed_token-SameToken hash now) d.email_verification_tokens)

pub verified-Grows : (row : VerifiedEmailRecord) → Grows (upsert_verified_email row)
unfolding upsert_verified_email
verified-Grows row d =
    upserted (any (is_verified row.normalized_email) d.verified_emails)
      (knows_email d row.normalized_email)
  where
    upserted :
        (known exists : Bool)
        → OnAnswer (Evolves d) (
            if known
            then Answer.answered row (record d {
              verified_emails =
                  update
                    (is_verified row.normalized_email)
                    (λ v. record v { verified_at = row.verified_at })
                    d.verified_emails;
            })
            else if exists
            then Answer.answered row (record d { verified_emails = d.verified_emails ++ row ∷ [] })
            else Answer.violation foreign_key_violation)
    upserted true exists = verified-Evolves d _ (
        Extends-update SameVerified SameVerified-refl (is_verified row.normalized_email)
          (λ v. record v { verified_at = row.verified_at }) (λ v h. record { email = refl })
          d.verified_emails)
    upserted false true =
        verified-Evolves d _ (Extends-append SameVerified SameVerified-refl d.verified_emails row)
    upserted false false = tt
