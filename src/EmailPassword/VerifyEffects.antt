-- ===== src/EmailPassword/VerifyEffects.antt =====
-- What verifying an email does to the tables, over the Postgres storage
-- (packages/core/src/plugins/email-password/plugin.ts).
use authia.Prelude.{
  ℕ, ◌+◌, ◌≡◌, refl, sym, ap, subst, ◌∙◌, ◌⊎◌, inl, inr, true, String, Option, none, some, arith,
  Option-cases,
}
use authia.Contracts.Actions.{SupportedAction}
use authia.Contracts.Storage.{MailToken}
use authia.Contracts.Results.{RequestContext, AuthResult, body_field}
use authia.Io.{Completion, io}
use authia.Io.Inversion.{Yields, bind-Yields, or_roll_back-Yields}
use authia.Postgres.Tables.{Database}
use authia.Postgres.Connection.{World, Client}
use authia.Postgres.Rows.{In}
use authia.Postgres.Tokens.{is_live_token, create_verified_emails_repository}
use authia.Postgres.Additions.{working_on}
use authia.Postgres.Changes.{
  consume_verification, verify_address, consume_verification_changes, mark_verified_changes,
  live_token,
}
use authia.Postgres.Transactions.{create_transactional_storage}
use authia.Postgres.Inside.{verify_email_transaction-StaysInside}
use authia.Postgres.Atomicity.{opened, result_database}
use authia.Postgres.Refusals.{verify_email_transaction-RollsBack}
use authia.Postgres.Caught.{IsRefused, caught, EndsWith, caught-EndsWith}
use authia.EmailPassword.Input.{checked_token, storage_unavailable}
use authia.EmailPassword.Reset.{plain}
use authia.EmailPassword.Verification.{
  mark_consumed, verify_email_with, verify_email_transaction, verify_email_checked,
  execute_verify_email,
}
use authia.System.{Environment, services}

module _ (env : Environment) where
  -- The tables after the verification: a live token of the hash is consumed, and its email is
  -- verified.
  pub record IsVerified (start : ℕ) (d d' : Database) (token_hash : String) : Type 0 where
    pub token : MailToken
    pub at : ℕ
    pub token_stored : In token d.email_verification_tokens
    pub live : is_live_token token_hash (env.backend.clock start) token ≡ true
    pub tables :
        d'
        ≡ verify_address
            (consume_verification d token_hash (env.backend.clock start))
            (record { normalized_email = token.normalized_email; verified_at = at })

  mark_consumed_value :
      (d : Database) (found : Option String) (w w' : World) (r : AuthResult)
      → w.working ≡ some (working_on d)
      → Yields
          (mark_consumed
            (services env)
            (create_verified_emails_repository env.backend Client.client)
            found)
          w
          r
          w'
      → (email : String) × (found ≡ some email)
        × (r ≡ plain SupportedAction.verify_email)
        × (w'.working
            ≡ some (
                working_on (
                  verify_address d
                    (record { normalized_email = email; verified_at = env.backend.clock w.step }))))
  mark_consumed_value d none w w' r open_ h = let ran = h.ran in cc
  mark_consumed_value d (some email) w w' r open_ h =
      let (now, w1, clock, h1) = bind-Yields _ _ h in
      let (row, w2, marked, h2) = bind-Yields _ _ h1 in
      let changed =
        mark_verified_changes env.backend d email now w1 w2 row (ground arith)
          (or_roll_back-Yields _ marked) in
      (email, refl, ground arith, ground arith)

  verify_email_transaction_changes :
      (d : Database) (token_hash : String) (w w' : World) (r : AuthResult)
      → w.working ≡ some (working_on d)
      → Yields
          (verify_email_transaction
            (services env)
            token_hash
            (create_transactional_storage env.backend Client.client))
          w
          r
          w'
      → (r ≡ plain SupportedAction.verify_email)
        × IsVerified w.step d (result_database w') token_hash
  unfolding verify_email_transaction verify_email_with
  verify_email_transaction_changes d token_hash w w' r open_ h =
      let (now, w1, clock, h1) = bind-Yields _ _ h in
      let (consumed, w2, taken, h2) = bind-Yields _ _ h1 in
      let (open2, returned) =
        consume_verification_changes env.backend d token_hash now w1 w2 consumed (ground arith)
          (or_roll_back-Yields _ taken) in
      let (email, e, result, open3) =
        mark_consumed_value (consume_verification d token_hash now) consumed w2 w' r open2 h2 in
      let (token, stored, live, email_is) =
        live_token token_hash now d.email_verification_tokens email (sym returned ∙ e) in
      (
        result,
        record {
          token = token;
          at = env.backend.clock w2.step;
          token_stored = stored;
          live = ground arith;
          tables = ground arith;
        },
      )

  -- The token of the body, if it passes the checks.
  abbrev pub body_token : RequestContext → Option String
  body_token context = checked_token env.platform (body_field (λ b. b.verification_token) context)

  -- How a verification ends: refused with the tables as they were, or with all of its changes.
  abbrev pub VerifyEnds : RequestContext → World → Completion AuthResult × World → Type 0
  VerifyEnds context w (c, w') =
      (IsRefused c × (w'.committed ≡ w.committed))
      ⊎ ((token : String) × (token_hash : String) × (body_token context ≡ some token)
          × (env.dependencies.derive_token_id token ≡ some token_hash)
          × (c ≡ Completion.value (plain SupportedAction.verify_email))
          × IsVerified (opened w).step w.committed w'.committed token_hash)

  abbrev verify_caught : World → String → Completion AuthResult × World
  verify_caught w token_hash =
      caught env.backend (verify_email_transaction (services env) token_hash) w
        (storage_unavailable "Email verification transaction failed unexpectedly.")

  abbrev Outcome : World → String → AuthResult → Database → Type 0
  Outcome w token_hash r d =
      (r ≡ plain SupportedAction.verify_email) × IsVerified (opened w).step w.committed d token_hash

  verify_email_checked-caught :
      (token token_hash : String) (w : World)
      → env.dependencies.derive_token_id token ≡ some token_hash
      → verify_email_checked (services env) (some token) w ≡ verify_caught w token_hash
  unfolding io verify_email_checked
  verify_email_checked-caught token token_hash w derived = cc derived

  verify_caught-EndsWith :
      (token_hash : String) (w : World)
      → w.working ≡ none
      → EndsWith env.backend
          (verify_email_transaction (services env) token_hash)
          w
          (storage_unavailable "Email verification transaction failed unexpectedly.")
          (Outcome w token_hash)
          (verify_caught w token_hash)
  verify_caught-EndsWith token_hash w idle =
      caught-EndsWith env.backend (verify_email_transaction (services env) token_hash) w
        (storage_unavailable "Email verification transaction failed unexpectedly.")
        (Outcome w token_hash) idle
        (verify_email_transaction-StaysInside env w.committed (w.leased + 1) token_hash)
        (verify_email_transaction-RollsBack env token_hash)
        (λ r w' h. verify_email_transaction_changes w.committed token_hash (opened w) w' r refl h)

  verify_email_checked_ends :
      (context : RequestContext) (input : Option String) (w : World)
      → body_token context ≡ input
      → w.working ≡ none
      → VerifyEnds context w (verify_email_checked (services env) input w)
  unfolding io verify_email_checked
  verify_email_checked_ends context none w e idle = inl (tt, refl)
  verify_email_checked_ends context (some token) w e idle =
      elim (Option-cases (env.dependencies.derive_token_id token)) [
        | inl failed ↦ inl (ground arith, ground arith)
        | inr (token_hash, derived) ↦
            subst (VerifyEnds context w)
              (sym (verify_email_checked-caught token token_hash w derived))
              (elim (verify_caught-EndsWith token_hash w idle) [
                | inl refused ↦ inl refused
                | inr (r, same, (result, changed)) ↦
                    inr (token, token_hash, e, derived, same ∙ ap Completion.value result, changed)
              ])
      ]

  -- Verifying an email, outside any other transaction, either grants nothing and leaves the committed
  -- tables as they were, or, for a token of the body that is not blank, consumes a live token with
  -- its hash and records the email of that token as verified.
  pub verify_email_all_or_nothing :
      (context : RequestContext) (w : World)
      → w.working ≡ none
      → VerifyEnds context w (execute_verify_email (services env) context w)
  unfolding execute_verify_email
  verify_email_all_or_nothing context w idle =
      verify_email_checked_ends context (body_token context) w refl idle
