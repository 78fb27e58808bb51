-- ===== src/EmailPassword/ResetEffects.antt =====
-- What performing a password reset does to the tables, over the Postgres storage
-- (packages/core/src/plugins/email-password/plugin.ts).
use authia.Prelude.{
  ℕ, ◌+◌, ◌≡◌, refl, sym, ap, subst, ◌∙◌, ◌⊎◌, inl, inr, String, Option, none, some, arith,
  Option-cases, true,
}
use authia.Contracts.Actions.{SupportedAction}
use authia.Contracts.Sessions.{LocalIdentity}
use authia.Contracts.Storage.{MailToken}
use authia.Contracts.Results.{RequestContext, AuthResult, body_field}
use authia.Io.{Completion, io}
use authia.Io.Inversion.{Yields, bind-Yields, or_roll_back-Yields}
use authia.Postgres.Tables.{Database}
use authia.Postgres.Connection.{World, Client}
use authia.Postgres.Accounts.{has_email, with_password_hash}
use authia.Postgres.Rows.{In, first-returning-In}
use authia.Postgres.Tokens.{is_live_token}
use authia.Postgres.Additions.{working_on}
use authia.Postgres.Changes.{
  live_token, consume_reset, set_password, revoke_sessions, consume_reset_changes,
  update_identity_password_changes, revoke_all_changes,
}
use authia.Postgres.Transactions.{create_transactional_storage}
use authia.Postgres.Inside.{reset_password_transaction-StaysInside}
use authia.Postgres.Atomicity.{opened, result_database}
use authia.Postgres.Refusals.{reset_password_transaction-RollsBack}
use authia.Postgres.Caught.{IsRefused, caught, caught-EndsWith}
use authia.EmailPassword.Input.{checked_reset, storage_unavailable}
use authia.EmailPassword.Reset.{
  plain, found_or_invalid, reset_password_with, reset_password_transaction, reset_password_checked,
  execute_reset_password,
}
use authia.System.{Environment, services}

module _ (env : Environment) where
  -- The tables after a reset: a live token of the hash is consumed, the identity of its email has
  -- the hash of the new password, and the user of that identity has no session left. `start` is the
  -- step at which the time is read.
  pub record IsReset (start : ℕ) (d d' : Database) (token_hash password : String) : Type 0 where
    pub token : MailToken
    pub identity : LocalIdentity
    pub now : ℕ
    pub at : ℕ
    pub read : now ≡ env.backend.clock start
    pub salt : ℕ
    pub hash : String
    pub token_stored : In token d.password_reset_tokens
    pub live : is_live_token token_hash now token ≡ true
    pub hashed : env.dependencies.hash_secret salt password ≡ some hash
    pub identity_stored : In identity d.local_identities
    pub email_of : has_email token.normalized_email identity ≡ true
    pub tables :
        d'
        ≡ revoke_sessions
            (set_password (consume_reset d token_hash now) token.normalized_email hash)
            identity.user_id
            at

  found_or_invalid_value :
      {A : Type 0} (found : Option A) (w w' : World) (a : A)
      → Yields (found_or_invalid (services env) found) w a w'
      → (found ≡ some a) × (w ≡ w')
  found_or_invalid_value none w w' a h = let r = h.ran in cc
  found_or_invalid_value (some b) w w' a h = let r = h.ran in (cc, cc)

  -- A hash is that of the password, and the tables stay.
  hash_secret_value :
      (password : String) (w w' : World) (hash : String)
      → Yields ((services env).crypto.hash_secret password) w hash w'
      → (env.dependencies.hash_secret w.step password ≡ some hash) × (w'.working ≡ w.working)
  hash_secret_value password w w' hash h = let r = h.ran in ground arith

  reset_password_transaction_changes :
      (d : Database) (token_hash password : String) (w w' : World) (r : AuthResult)
      → w.working ≡ some (working_on d)
      → Yields
          (reset_password_transaction
            (services env)
            token_hash
            password
            (create_transactional_storage env.backend Client.client))
          w
          r
          w'
      → (r ≡ plain SupportedAction.reset_password)
        × IsReset w.step d (result_database w') token_hash password
  unfolding reset_password_transaction reset_password_with
  reset_password_transaction_changes d token_hash password w w' r open_ h =
      let (now, w1, clock, h1) = bind-Yields _ _ h in
      let (consumed, w2, taken, h2) = bind-Yields _ _ h1 in
      let (email, w3, found, h3) = bind-Yields _ _ h2 in
      let (hash, w4, hashed, h4) = bind-Yields _ _ h3 in
      let (updated, w5, changed, h5) = bind-Yields _ _ h4 in
      let (identity, w6, known, h6) = bind-Yields _ _ h5 in
      let (count, w7, revoked, h7) = bind-Yields _ _ h6 in
      let (e1, same) = found_or_invalid_value consumed w2 w3 email found in
      let (e2, same') = found_or_invalid_value updated w5 w6 identity known in
      let (open2, returned) =
        consume_reset_changes env.backend d token_hash now w1 w2 consumed (ground arith)
          (or_roll_back-Yields _ taken) in
      let (token, stored, live, email_is) =
        live_token token_hash now d.password_reset_tokens email (sym returned ∙ e1) in
      let (hashed', kept') = hash_secret_value password w3 w4 hash (or_roll_back-Yields _ hashed) in
      let (open5, matched) =
        update_identity_password_changes env.backend (consume_reset d token_hash now) email hash w4
          w5 updated (kept' ∙ ap (λ v. v.working) (sym same) ∙ open2)
          (or_roll_back-Yields _ changed) in
      let (old, old_stored, old_email, image, kept) =
        first-returning-In (has_email email) (with_password_hash hash) d.local_identities identity
          (sym matched ∙ e2) in
      let open7 =
        revoke_all_changes env.backend (set_password (consume_reset d token_hash now) email hash)
          identity.user_id w6 w7 count (ground arith) (or_roll_back-Yields _ revoked) in
      (
        ground arith,
        record {
          token = token;
          identity = old;
          now = now;
          at = env.backend.clock w6.step;
          read = let ran' = clock.ran in ground arith;
          salt = w3.step;
          hash = hash;
          token_stored = stored;
          live = live;
          hashed = hashed';
          identity_stored = old_stored;
          email_of = ground arith;
          tables = ground arith;
        },
      )

  -- The token and the password of the body, if they pass the checks.
  abbrev pub body_reset : RequestContext → Option (String × String)
  body_reset context =
      checked_reset env.platform (body_field (λ b. b.reset_token) context)
        (body_field (λ b. b.password) context)

  -- How a reset ends: refused with the tables as they were, or with all of its changes.
  abbrev pub ResetEnds : RequestContext → World → Completion AuthResult × World → Type 0
  ResetEnds context w (c, w') =
      (IsRefused c × (w'.committed ≡ w.committed))
      ⊎ ((token : String) × (password : String) × (token_hash : String) × (body_reset context
            ≡ some (token, password))
          × (env.dependencies.derive_token_id token ≡ some token_hash)
          × (c ≡ Completion.value (plain SupportedAction.reset_password))
          × IsReset (opened w).step w.committed w'.committed token_hash password)

  -- The caught transaction, for a token whose hash is known.
  abbrev reset_caught : World → String → String → Completion AuthResult × World
  reset_caught w token_hash password =
      caught env.backend (reset_password_transaction (services env) token_hash password) w
        (storage_unavailable "Password reset transaction failed unexpectedly.")

  -- The result of the callback, and its tables.
  abbrev Resets : World → String → String → AuthResult → Database → Type 0
  Resets w token_hash password r d =
      (r ≡ plain SupportedAction.reset_password)
      × IsReset (opened w).step w.committed d token_hash password

  reset_caught_ends :
      (context : RequestContext) (token password token_hash : String) (w : World)
      → body_reset context ≡ some (token, password)
      → env.dependencies.derive_token_id token ≡ some token_hash
      → w.working ≡ none
      → ResetEnds context w (reset_caught w token_hash password)
  reset_caught_ends context token password token_hash w e derived idle =
      let ends =
        caught-EndsWith env.backend (reset_password_transaction (services env) token_hash password)
          w (storage_unavailable "Password reset transaction failed unexpectedly.")
          (Resets w token_hash password) idle
          (reset_password_transaction-StaysInside env w.committed (w.leased + 1) token_hash
            password)
          (reset_password_transaction-RollsBack env token_hash password)
          (λ r w' h.
            reset_password_transaction_changes w.committed token_hash password (opened w) w' r refl
              h) in
      elim ends [
        | inl refused ↦ inl refused
        | inr (r, same, (result, changed)) ↦
            inr
              (token, password, token_hash, e, derived, same ∙ ap Completion.value result, changed)
      ]

  reset_password_checked-caught :
      (token password token_hash : String) (w : World)
      → env.dependencies.derive_token_id token ≡ some token_hash
      → reset_password_checked (services env) (some (token, password)) w
        ≡ reset_caught w token_hash password
  unfolding io reset_password_checked
  reset_password_checked-caught token password token_hash w derived = cc derived

  reset_password_checked_ends :
      (context : RequestContext) (input : Option (String × String)) (w : World)
      → body_reset context ≡ input
      → w.working ≡ none
      → ResetEnds context w (reset_password_checked (services env) input w)
  unfolding io reset_password_checked
  reset_password_checked_ends context none w e idle = inl (tt, refl)
  reset_password_checked_ends context (some (token, password)) w e idle =
      elim (Option-cases (env.dependencies.derive_token_id token)) [
        | inl failed ↦ inl (ground arith, ground arith)
        | inr (token_hash, derived) ↦
            subst (ResetEnds context w)
              (sym (reset_password_checked-caught token password token_hash w derived))
              (reset_caught_ends context token password token_hash w e derived idle)
      ]

  -- Performing a password reset, outside any other transaction, either grants nothing and leaves
  -- the committed tables as they were, or, for a token and a password of the body that pass the
  -- checks, does all of this: it consumes a live token with the hash of the given one, stores a hash
  -- of the new password at the identity of the token's email, and revokes every session of that
  -- identity's user.
  pub reset_password_all_or_nothing :
      (context : RequestContext) (w : World)
      → w.working ≡ none
      → ResetEnds context w (execute_reset_password (services env) context w)
  unfolding execute_reset_password
  reset_password_all_or_nothing context w idle =
      reset_password_checked_ends context (body_reset context) w refl idle
