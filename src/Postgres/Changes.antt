-- ===== src/Postgres/Changes.antt =====
-- The rows that the repositories of packages/storage-postgres change in an open transaction.
use authia.Prelude.{
  true, inl, inr, Option-cases, List, [], ◌∷◌, ◌++◌, any, if◌then◌else◌, ℕ, ◌≡◌, String, Option,
  some, arith,
}
use authia.Contracts.Sessions.{LocalIdentity}
use authia.Contracts.Storage.{VerifiedEmailRecord, MailToken}
use authia.Postgres.Rows.{In, first-returning-In}
use authia.Io.{io}
use authia.Io.Inversion.{Yields}
use authia.Postgres.Tables.{Database, update, returning, first}
use authia.Postgres.Connection.{Backend, World, Client, query}
use authia.Postgres.Accounts.{
  has_email, with_password_hash, update_password_hash, update_identity_password,
}
use authia.Postgres.SessionRows.{
  is_active_of, revoked, set_sessions, revoke_sessions_of, revoke_all,
}
use authia.Postgres.Tokens.{
  is_verified, upsert_verified_email, create_verified_emails_repository, is_live_token,
  consumed_token, consume_reset_token, consume_verification_token, to_email,
  create_password_reset_tokens_repository, create_email_verification_tokens_repository,
}
use authia.Postgres.Additions.{working_on}

-- The token is marked as consumed.
abbrev pub consume_reset : Database → String → ℕ → Database
consume_reset d token_hash now = record d {
  password_reset_tokens =
      update (is_live_token token_hash now) (consumed_token now) d.password_reset_tokens;
}

abbrev pub consume_verification : Database → String → ℕ → Database
consume_verification d token_hash now = record d {
  email_verification_tokens =
      update (is_live_token token_hash now) (consumed_token now) d.email_verification_tokens;
}

-- The email has this password hash.
abbrev pub set_password : Database → String → String → Database
set_password d email hash = record d {
  local_identities = update (has_email email) (with_password_hash hash) d.local_identities;
}

-- The sessions of the user that were not revoked are.
abbrev pub revoke_sessions : Database → String → ℕ → Database
revoke_sessions d user_id at = set_sessions (is_active_of user_id) (revoked at) d

-- The verified emails with this one, now or again.
abbrev pub upserted : VerifiedEmailRecord → List VerifiedEmailRecord → List VerifiedEmailRecord
upserted row rows =
    if any (is_verified row.normalized_email) rows
    then update (is_verified row.normalized_email) (λ v. record v { verified_at = row.verified_at })
        rows
    else rows ++ row ∷ []

abbrev pub verify_address : Database → VerifiedEmailRecord → Database
verify_address d row = record d { verified_emails = upserted row d.verified_emails }

-- The token whose consumption gives an email: a stored one that is live.
pub live_token :
    (token_hash : String) (now : ℕ) (rows : List MailToken) (email : String)
    → to_email (first (returning (is_live_token token_hash now) (consumed_token now) rows))
      ≡ some email
    → (t : MailToken) × In t rows
      × (is_live_token token_hash now t ≡ true)
      × (t.normalized_email ≡ email)
live_token token_hash now rows email h =
    elim (Option-cases
      (first (returning (is_live_token token_hash now) (consumed_token now) rows))) [
        | inl missing ↦ ground arith
        | inr (row, found) ↦
            let (t, stored, live, image, kept) =
              first-returning-In (is_live_token token_hash now) (consumed_token now) rows row
                found in
            (t, stored, live, ground arith)
      ]

module _ (backend : Backend) where
  pub mark_verified_changes :
      (d : Database) (email : String) (at : ℕ) (w w' : World) (row : VerifiedEmailRecord)
      → w.working ≡ some (working_on d)
      → Yields
          ((create_verified_emails_repository backend Client.client).mark_verified email at)
          w
          row
          w'
      → w'.working
        ≡ some
            (working_on (verify_address d (record { normalized_email = email; verified_at = at })))
  unfolding io query upsert_verified_email
  mark_verified_changes d email at w w' row open_ h = ground arith

  pub consume_reset_changes :
      (d : Database) (token_hash : String) (now : ℕ) (w w' : World) (r : Option String)
      → w.working ≡ some (working_on d)
      → Yields
          ((create_password_reset_tokens_repository backend Client.client).consume token_hash now)
          w
          r
          w'
      → (w'.working ≡ some (working_on (consume_reset d token_hash now)))
        × (r
            ≡ to_email (
                first (
                  returning
                    (is_live_token token_hash now)
                    (consumed_token now)
                    d.password_reset_tokens)))
  unfolding io query consume_reset_token
  consume_reset_changes d token_hash now w w' r open_ h = ground arith

  pub consume_verification_changes :
      (d : Database) (token_hash : String) (now : ℕ) (w w' : World) (r : Option String)
      → w.working ≡ some (working_on d)
      → Yields
          ((create_email_verification_tokens_repository backend Client.client).consume token_hash
            now)
          w
          r
          w'
      → (w'.working ≡ some (working_on (consume_verification d token_hash now)))
        × (r
            ≡ to_email (
                first (
                  returning
                    (is_live_token token_hash now)
                    (consumed_token now)
                    d.email_verification_tokens)))
  unfolding io query consume_verification_token
  consume_verification_changes d token_hash now w w' r open_ h = ground arith

  pub update_identity_password_changes :
      (d : Database) (email hash : String) (w w' : World) (r : Option LocalIdentity)
      → w.working ≡ some (working_on d)
      → Yields (update_identity_password backend Client.client email hash) w r w'
      → (w'.working ≡ some (working_on (set_password d email hash)))
        × (r ≡ first (returning (has_email email) (with_password_hash hash) d.local_identities))
  unfolding io query update_identity_password update_password_hash
  update_identity_password_changes d email hash w w' r open_ h = ground arith

  pub revoke_all_changes :
      (d : Database) (user_id : String) (w w' : World) (n : ℕ)
      → w.working ≡ some (working_on d)
      → Yields (revoke_all backend Client.client user_id) w n w'
      → w'.working ≡ some (working_on (revoke_sessions d user_id (backend.clock w.step)))
  unfolding io query revoke_all revoke_sessions_of
  revoke_all_changes d user_id w w' n open_ h = ground arith
