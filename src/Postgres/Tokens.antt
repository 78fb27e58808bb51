-- ===== src/Postgres/Tokens.antt =====
-- packages/storage-postgres/src/repositories: oauth-states-repository.ts,
-- password-reset-tokens-repository.ts, email-verification-tokens-repository.ts and
-- verified-emails-repository.ts.
use authia.Prelude.{
  ℕ, String, Bool, false, not, ◌==◌, ◌&&◌, ◌||◌, Option, none, some, List, [], ◌∷◌, ◌++◌, any, ltb,
  is_some, if◌then◌else◌,
}
use authia.Contracts.Storage.{
  OauthState, OauthStateCreateInput, ConsumedState, OauthStates, MailToken, MailTokens,
  VerifiedEmailRecord, VerifiedEmails,
}
use authia.Io.{Io, pure, ◌>>=◌}
use authia.Postgres.Tables.{
  Database, Answer, Statement, foreign_key_violation, select, update, returning, first, insert_if,
}
use authia.Postgres.Connection.{Backend, World, Client, query, random_uuid, guarded}
use authia.Postgres.Accounts.{has_email}

abbrev pub knows_email : Database → String → Bool
knows_email database email = any (has_email email) database.local_identities

unfoldable pub insert_oauth_state : OauthState → Statement OauthState
insert_oauth_state row database =
    insert_if (any (λ s. s.id == row.id || s.state_hash == row.state_hash) database.oauth_states)
      false row (record database { oauth_states = database.oauth_states ++ row ∷ [] })

-- WHERE provider = $1 AND state_hash = $2 AND consumed_at IS NULL AND expires_at > $3
abbrev pub is_live_state : String → String → ℕ → OauthState → Bool
is_live_state provider state_hash now s =
    s.provider == provider
    && s.state_hash == state_hash
    && not (is_some s.consumed_at)
    && ltb now s.expires_at

abbrev pub consumed_state : ℕ → OauthState → OauthState
consumed_state now s = record s { consumed_at = some now }

unfoldable pub consume_oauth_state : String → String → ℕ → Statement (List OauthState)
consume_oauth_state provider state_hash now database =
    let live = is_live_state provider state_hash now in
    Answer.answered (returning live (consumed_state now) database.oauth_states)
      (record database { oauth_states = update live (consumed_state now) database.oauth_states })

-- WHERE token_hash = $1 AND consumed_at IS NULL AND expires_at > $2
abbrev pub is_live_token : String → ℕ → MailToken → Bool
is_live_token token_hash now t =
    t.token_hash == token_hash && not (is_some t.consumed_at) && ltb now t.expires_at

abbrev pub consumed_token : ℕ → MailToken → MailToken
consumed_token now t = record t { consumed_at = some now }

abbrev pub token_clash : MailToken → MailToken → Bool
token_clash row t = t.id == row.id || t.token_hash == row.token_hash

unfoldable pub insert_reset_token : MailToken → Statement MailToken
insert_reset_token row database =
    insert_if (any (token_clash row) database.password_reset_tokens)
      (not (knows_email database row.normalized_email)) row
      (record database { password_reset_tokens = database.password_reset_tokens ++ row ∷ [] })

unfoldable pub consume_reset_token : String → ℕ → Statement (List MailToken)
consume_reset_token token_hash now database =
    let live = is_live_token token_hash now in
    Answer.answered (returning live (consumed_token now) database.password_reset_tokens)
      (record database {
        password_reset_tokens = update live (consumed_token now) database.password_reset_tokens;
      })

unfoldable pub insert_verification_token : MailToken → Statement MailToken
insert_verification_token row database =
    insert_if (any (token_clash row) database.email_verification_tokens)
      (not (knows_email database row.normalized_email)) row
      (record database {
        email_verification_tokens = database.email_verification_tokens ++ row ∷ [];
      })

unfoldable pub consume_verification_token : String → ℕ → Statement (List MailToken)
consume_verification_token token_hash now database =
    let live = is_live_token token_hash now in
    Answer.answered (returning live (consumed_token now) database.email_verification_tokens)
      (record database {
        email_verification_tokens =
            update live (consumed_token now) database.email_verification_tokens;
      })

abbrev pub is_verified : String → VerifiedEmailRecord → Bool
is_verified email v = v.normalized_email == email

-- INSERT … ON CONFLICT (normalized_email) DO UPDATE
unfoldable pub upsert_verified_email : VerifiedEmailRecord → Statement VerifiedEmailRecord
upsert_verified_email row database =
    let known = is_verified row.normalized_email in
    if any known database.verified_emails
    then Answer.answered row (record database {
      verified_emails =
          update known (λ v. record v { verified_at = row.verified_at }) database.verified_emails;
    })
    else if knows_email database row.normalized_email
    then Answer.answered row
        (record database { verified_emails = database.verified_emails ++ row ∷ [] })
    else Answer.violation foreign_key_violation

unfoldable pub select_verified_email : String → Statement (List VerifiedEmailRecord)
select_verified_email email database =
    Answer.answered (select (is_verified email) database.verified_emails) database

abbrev pub to_consumed_state : Option OauthState → Option ConsumedState
to_consumed_state none = none
to_consumed_state (some s) = some (record {
  code_verifier_ciphertext = s.code_verifier_ciphertext;
  redirect_uri_hash = s.redirect_uri_hash;
})

abbrev pub to_email : Option MailToken → Option String
to_email none = none
to_email (some t) = some t.normalized_email

module _ (backend : Backend) (via : Client) where
  abbrev pub create_oauth_state : OauthStateCreateInput → Io World OauthState
  create_oauth_state input = guarded "Failed to create OAuth state" (do
    id ← random_uuid backend
    query backend via (
        insert_oauth_state (record {
          id = id;
          provider = input.provider;
          state_hash = input.state_hash;
          code_verifier_ciphertext = input.code_verifier_ciphertext;
          redirect_uri_hash = input.redirect_uri_hash;
          expires_at = input.expires_at;
          consumed_at = none;
        })))

  abbrev pub consume_state : String → String → ℕ → Io World (Option ConsumedState)
  consume_state provider state_hash now = guarded "Failed to consume OAuth state" (do
    rows ← query backend via (consume_oauth_state provider state_hash now)
    pure (to_consumed_state (first rows)))

  abbrev pub create_oauth_states_repository : OauthStates World
  create_oauth_states_repository = record { create = create_oauth_state; consume = consume_state }

  abbrev pub create_mail_token :
      String → (MailToken → Statement MailToken) → String → String → ℕ → Io World MailToken
  create_mail_token message insert token_hash normalized_email expires_at = guarded message (do
    id ← random_uuid backend
    query backend via (
        insert (record {
          id = id;
          token_hash = token_hash;
          normalized_email = normalized_email;
          expires_at = expires_at;
          consumed_at = none;
        })))

  abbrev pub consume_mail_token :
      String → (String → ℕ → Statement (List MailToken)) → String → ℕ → Io World (Option String)
  consume_mail_token message consume token_hash now =
      guarded message
        (do rows ← query backend via (consume token_hash now); pure (to_email (first rows)))

  abbrev pub create_password_reset_tokens_repository : MailTokens World
  create_password_reset_tokens_repository = record {
    create = create_mail_token "Failed to create password reset token" insert_reset_token;
    consume = consume_mail_token "Failed to consume password reset token" consume_reset_token;
  }

  abbrev pub create_email_verification_tokens_repository : MailTokens World
  create_email_verification_tokens_repository = record {
    create =
        create_mail_token "Failed to create email verification token" insert_verification_token;
    consume =
        consume_mail_token "Failed to consume email verification token" consume_verification_token;
  }

  abbrev pub create_verified_emails_repository : VerifiedEmails World
  create_verified_emails_repository = record {
    mark_verified = λ normalized_email verified_at. guarded "Failed to mark email as verified" (
        query backend via (
          upsert_verified_email
            (record { normalized_email = normalized_email; verified_at = verified_at })));
    find = λ normalized_email.
        guarded "Failed to find verified email"
          (do rows ← query backend via (select_verified_email normalized_email); pure (first rows));
  }
