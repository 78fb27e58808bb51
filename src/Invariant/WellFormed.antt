-- ===== src/Invariant/WellFormed.antt =====
-- The keys and references that the tables of packages/storage-postgres keep, whatever the requests.
use authia.Prelude.{
  ℕ, ◌≡◌, refl, sym, subst, String, Bool, true, false, not, ◌==◌, List, [], ◌∷◌, ◌++◌, any, All,
  if◌then◌else◌, arith,
}
use authia.Contracts.Sessions.{User, LocalIdentity, SessionRecord}
use authia.Contracts.Storage.{SessionCompareAndSwapInput, OauthIdentity}
use authia.Session.{idle_patch}
use authia.Postgres.Tables.{Database, Answer, unique_violation, insert_if, returning}
use authia.Postgres.Accounts.{
  has_user, insert_user, insert_identity, has_email, with_password_hash, update_password_hash,
  insert_oauth_identity,
}
use authia.Postgres.Rows.{any-or}
use authia.Postgres.SessionRows.{
  insert_session, update_session, patched, swaps, swapped, swap_token, has_id, has_token, revoked,
  revoke_session, is_active_of, revoke_sessions_of, set_sessions,
}
use authia.Invariant.Tables.{OnAnswer, Preserves}
use authia.Invariant.Keys.{
  Distinct, Distinct-append, Distinct-update, All-map, All-append, All-update,
}

-- Sessions differ in their ids, identities in their emails; whoever has a session or an identity is a
-- user.
pub record IsWellFormed (d : Database) : Type 0 where
  pub session_ids : Distinct (λ s. s.id) d.sessions
  pub emails : Distinct (λ i. i.normalized_email) d.local_identities
  pub session_owners : All (λ s. has_user d s.user_id ≡ true) d.sessions
  pub identity_owners : All (λ i. has_user d i.user_id ≡ true) d.local_identities
  pub oauth_owners : All (λ i. has_user d i.user_id ≡ true) d.oauth_identities

pub insert_if-IsWellFormed :
    {A : Type 0} (taken missing : Bool) (row : A) (d : Database)
    → (taken ≡ false → missing ≡ false → IsWellFormed d)
    → OnAnswer IsWellFormed (insert_if taken missing row d)
insert_if-IsWellFormed true missing row d h = tt
insert_if-IsWellFormed false true row d h = tt
insert_if-IsWellFormed false false row d h = h refl refl

any-append_true :
    (id : String) (users : List User) (row : User)
    → any (λ u. u.id == id) users ≡ true
    → any (λ u. u.id == id) (users ++ row ∷ []) ≡ true
any-append_true id [] row h = cc
any-append_true id (u ∷ users) row h = ground (arith, any-append_true id users row)

pub user-Preserves : (row : User) → Preserves IsWellFormed (insert_user row)
unfolding insert_user
user-Preserves row = record {
  at = λ d h.
      insert_if-IsWellFormed (has_user d row.id) false row
        (record d { users = d.users ++ row ∷ [] })
        (λ fresh known. record {
          session_ids = h.session_ids;
          emails = h.emails;
          session_owners = All-map (λ s. any-append_true s.user_id d.users row) _ h.session_owners;
          identity_owners =
              All-map (λ i. any-append_true i.user_id d.users row) _ h.identity_owners;
          oauth_owners = All-map (λ i. any-append_true i.user_id d.users row) _ h.oauth_owners;
        });
}

not-false : (b : Bool) → not b ≡ false → b ≡ true
not-false true h = refl
not-false false h = cc

pub identity-Preserves : (row : LocalIdentity) → Preserves IsWellFormed (insert_identity row)
unfolding insert_identity
identity-Preserves row = record {
  at = λ d h.
      insert_if-IsWellFormed _ _ row
        (record d { local_identities = d.local_identities ++ row ∷ [] })
        (λ fresh known. record {
          session_ids = h.session_ids;
          emails =
              Distinct-append (λ i. i.normalized_email) d.local_identities row h.emails
                (ground (
                  arith,
                  any-or (λ i. i.id == row.id) (has_email row.normalized_email) d.local_identities,
                ));
          session_owners = h.session_owners;
          identity_owners =
              All-append (λ i e. e) d.local_identities row h.identity_owners (not-false _ known);
          oauth_owners = h.oauth_owners;
        });
}

pub password-Preserves :
    (email hash : String) → Preserves IsWellFormed (update_password_hash email hash)
unfolding update_password_hash
password-Preserves email hash = record {
  at = λ d h. record {
    session_ids = h.session_ids;
    emails =
        Distinct-update (λ i. i.normalized_email) (has_email email) (with_password_hash hash)
          d.local_identities (λ i. refl) h.emails;
    session_owners = h.session_owners;
    identity_owners =
        All-update (λ i. has_user d i.user_id ≡ true) (has_email email) (with_password_hash hash)
          d.local_identities (λ i e. e) h.identity_owners;
    oauth_owners = h.oauth_owners;
  };
}

pub oauth_identity-Preserves :
    (row : OauthIdentity) → Preserves IsWellFormed (insert_oauth_identity row)
unfolding insert_oauth_identity
oauth_identity-Preserves row = record {
  at = λ d h.
      insert_if-IsWellFormed _ _ row
        (record d { oauth_identities = d.oauth_identities ++ row ∷ [] })
        (λ fresh known. record {
          session_ids = h.session_ids;
          emails = h.emails;
          session_owners = h.session_owners;
          identity_owners = h.identity_owners;
          oauth_owners =
              All-append (λ i e. e) d.oauth_identities row h.oauth_owners (not-false _ known);
        });
}

pub session-Preserves : (row : SessionRecord) → Preserves IsWellFormed (insert_session row)
unfolding insert_session
session-Preserves row = record {
  at = λ d h.
      insert_if-IsWellFormed _ _ row (record d { sessions = d.sessions ++ row ∷ [] })
        (λ fresh known. record {
          session_ids =
              Distinct-append (λ s. s.id) d.sessions row h.session_ids
                (ground
                  (arith, any-or (has_id row.id) (has_token row.current_token_id) d.sessions));
          emails = h.emails;
          session_owners =
              All-append (λ s e. e) d.sessions row h.session_owners (not-false _ known);
          identity_owners = h.identity_owners;
          oauth_owners = h.oauth_owners;
        });
}

module _ (p : SessionRecord → Bool) (f : SessionRecord → SessionRecord)
    (same_id : (s : SessionRecord) → (f s).id ≡ s.id)
    (same_user : (s : SessionRecord) → (f s).user_id ≡ s.user_id) where
  set_sessions-IsWellFormed : (d : Database) → IsWellFormed d → IsWellFormed (set_sessions p f d)
  set_sessions-IsWellFormed d h = record {
    session_ids = Distinct-update (λ s. s.id) p f d.sessions same_id h.session_ids;
    emails = h.emails;
    session_owners =
        All-update (λ s. has_user d s.user_id ≡ true) p f d.sessions
          (λ s e. subst (λ u. has_user d u ≡ true) (sym (same_user s)) e) h.session_owners;
    identity_owners = h.identity_owners;
    oauth_owners = h.oauth_owners;
  }

  update_sessions-IsWellFormed :
      (clash : Bool) (d : Database)
      → IsWellFormed d
      → OnAnswer IsWellFormed (
          if clash
          then Answer.violation unique_violation
          else Answer.answered (returning p f d.sessions) (set_sessions p f d))
  update_sessions-IsWellFormed true d h = tt
  update_sessions-IsWellFormed false d h = set_sessions-IsWellFormed d h

pub idle-Preserves :
    (id : String) (at : ℕ) → Preserves IsWellFormed (update_session id (idle_patch at))
unfolding update_session
idle-Preserves id at = record {
  at = λ d h.
      update_sessions-IsWellFormed (has_id id) (patched (idle_patch at)) (λ s. refl) (λ s. refl)
        false d h;
}

pub swap-Preserves :
    (input : SessionCompareAndSwapInput) → Preserves IsWellFormed (swap_token input)
unfolding swap_token
swap-Preserves input = record {
  at = λ d h.
      update_sessions-IsWellFormed (swaps input) (swapped input) (λ s. refl) (λ s. refl) _ d h;
}

pub revoked-Preserves : (id : String) (at : ℕ) → Preserves IsWellFormed (revoke_session id at)
unfolding revoke_session
revoked-Preserves id at = record {
  at = λ d h. set_sessions-IsWellFormed (has_id id) (revoked at) (λ s. refl) (λ s. refl) d h;
}

pub revoked_all-Preserves :
    (user_id : String) (at : ℕ) → Preserves IsWellFormed (revoke_sessions_of user_id at)
unfolding revoke_sessions_of
revoked_all-Preserves user_id at = record {
  at = λ d h.
      set_sessions-IsWellFormed (is_active_of user_id) (revoked at) (λ s. refl) (λ s. refl) d h;
}
