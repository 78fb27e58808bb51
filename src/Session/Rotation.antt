-- ===== src/Session/Rotation.antt =====
-- The rotation of a session in packages/core/src/session/refresh-session.ts, in an open transaction.
use authia.Prelude.{ℕ, ◌+◌, ◌≡◌, ◌∙◌, sym, ap, String, true, Option, none, some, arith}
use authia.Contracts.Sessions.{idle_timeout_ms, SessionRecord}
use authia.Contracts.Results.{RequestContext}
use authia.Contracts.Storage.{SessionCompareAndSwapInput}
use authia.Contracts.Services.{IssuedSession, RefreshOutcome}
use authia.Io.{io, pure}
use authia.Io.Inversion.{Yields, bind-Yields}
use authia.Session.{rotation_due, rotation_outcome, rotate_session}
use authia.Postgres.Tables.{Database, returning, first}
use authia.Postgres.Connection.{World, Client, query, date_now}
use authia.Postgres.SessionRows.{swaps, swapped, set_sessions, swap_token, compare_and_swap}
use authia.Postgres.Transactions.{create_transactional_storage}
use authia.Postgres.Additions.{working_on}
use authia.System.{Environment, services}

-- The swap of a session to a new token.
abbrev pub rotation : SessionRecord → ℕ → String → String → SessionCompareAndSwapInput
rotation session now token_id token_verifier = record {
  session_id = session.id;
  expected_token_id = session.current_token_id;
  next_token_id = token_id;
  next_token_verifier = token_verifier;
  next_last_rotated_at = now;
  next_idle_expires_at = now + idle_timeout_ms;
}

module _ (env : Environment) where
  -- A rotation is due: the row gets the ids of a new token, which is handed out, if it still has the
  -- old one.
  pub record IsRotated (d : Database) (w' : World) (now : ℕ) (session : SessionRecord)
      (context : RequestContext) (issued : IssuedSession) : Type 0 where
    pub due : rotation_due session now ≡ true
    pub token_id : String
    pub token_verifier : String
    pub derived_id : env.dependencies.derive_token_id issued.transport.token ≡ some token_id
    pub derived_verifier :
        env.dependencies.derive_token_verifier issued.transport.token ≡ some token_verifier
    pub kind : issued.transport.kind ≡ context.transport
    pub row :
        first (
          returning
            (swaps (rotation session now token_id token_verifier))
            (swapped (rotation session now token_id token_verifier))
            d.sessions)
        ≡ some issued.session
    pub tables :
        w'.working
        ≡ some (
            working_on (
              set_sessions
                (swaps (rotation session now token_id token_verifier))
                (swapped (rotation session now token_id token_verifier))
                d))

  compare_and_swap_changes :
      (d : Database) (input : SessionCompareAndSwapInput) (w w' : World) (r : Option SessionRecord)
      → w.working ≡ some (working_on d)
      → Yields (compare_and_swap env.backend Client.client input) w r w'
      → (r ≡ first (returning (swaps input) (swapped input) d.sessions))
        × (w'.working ≡ some (working_on (set_sessions (swaps input) (swapped input) d)))
  unfolding io compare_and_swap query swap_token
  compare_and_swap_changes d input w w' r open_ h = ground arith

  generate_token_keeps :
      (token : String) (w w' : World)
      → Yields (services env).crypto.generate_opaque_token w token w'
      → w'.working ≡ w.working
  generate_token_keeps token w w' h = let ran = h.ran in ground arith

  derive_token_id_value :
      (token id : String) (w w' : World)
      → Yields ((services env).crypto.derive_token_id token) w id w'
      → (env.dependencies.derive_token_id token ≡ some id) × (w' ≡ w)
  derive_token_id_value token id w w' h = let ran = h.ran in ground arith

  derive_token_verifier_value :
      (token verifier : String) (w w' : World)
      → Yields ((services env).crypto.derive_token_verifier token) w verifier w'
      → (env.dependencies.derive_token_verifier token ≡ some verifier) × (w' ≡ w)
  derive_token_verifier_value token verifier w w' h = let ran = h.ran in ground arith

  rotation_outcome_refreshed :
      (context : RequestContext) (token : String) (found : Option SessionRecord) (w w' : World)
      (issued : IssuedSession)
      → Yields (pure (rotation_outcome context token found)) w (RefreshOutcome.refreshed issued) w'
      → (found ≡ some issued.session)
        × (issued.transport.token ≡ token)
        × (issued.transport.kind ≡ context.transport)
        × (w' ≡ w)
  rotation_outcome_refreshed context token none w w' issued h = let ran = h.ran in cc
  rotation_outcome_refreshed context token (some s) w w' issued h = let ran = h.ran in ground arith

  pub rotate_session_rotates :
      (d : Database) (session : SessionRecord) (context : RequestContext) (now : ℕ) (w w' : World)
      (issued : IssuedSession)
      → w.working ≡ some (working_on d)
      → rotation_due session now ≡ true
      → Yields
          (rotate_session
            (date_now env.backend)
            (services env).crypto
            session
            (create_transactional_storage env.backend Client.client)
            context
            now)
          w
          (RefreshOutcome.refreshed issued)
          w'
      → IsRotated d w' now session context issued
  unfolding rotate_session
  rotate_session_rotates d session context now w w' issued open_ due h =
      let (token, w1, generated, h1) = bind-Yields _ _ h in
      let (token_id, w2, derived, h2) = bind-Yields _ _ h1 in
      let (token_verifier, w3, verified, h3) = bind-Yields _ _ h2 in
      let (found, w4, ran, h4) = bind-Yields _ _ h3 in
      let open1 = generate_token_keeps token w w1 generated ∙ open_ in
      let (id_of, same1) = derive_token_id_value token token_id w1 w2 derived in
      let (verifier_of, same2) = derive_token_verifier_value token token_verifier w2 w3 verified in
      let (row, tables) =
        compare_and_swap_changes d (rotation session now token_id token_verifier) w3 w4 found
          (ap (λ v. v.working) (same2 ∙ same1) ∙ open1) ran in
      let (session_is, token_is, kind_is, end) =
        rotation_outcome_refreshed context token found w4 w' issued h4 in
      record {
        due = due;
        token_id = token_id;
        token_verifier = token_verifier;
        derived_id = ap env.dependencies.derive_token_id token_is ∙ id_of;
        derived_verifier = ap env.dependencies.derive_token_verifier token_is ∙ verifier_of;
        kind = kind_is;
        row = sym row ∙ session_is;
        tables = ap (λ v. v.working) end ∙ tables;
      }
