-- ===== src/Session/Issue.antt =====
-- What packages/core/src/session/issue-session.ts adds to the tables of an open transaction.
use authia.Prelude.{
  ◌+◌, ◌≡◌, true, false, none, some, inl, inr, [], ◌∷◌, ◌++◌, any, arith, Option-cases,
}
use authia.Contracts.Sessions.{User, SessionRecord, absolute_lifetime_ms, idle_timeout_ms}
use authia.Contracts.Results.{RequestContext}
use authia.Contracts.Storage.{SessionCreateInput}
use authia.Contracts.Services.{IssuedSession}
use authia.Io.{io}
use authia.Io.Inversion.{Yields}
use authia.Session.{issue_session, new_session_input}
use authia.Postgres.Tables.{Database}
use authia.Postgres.Connection.{World, Client, query, tick}
use authia.Postgres.Accounts.{has_user}
use authia.Postgres.SessionRows.{insert_session, has_id, has_token, create_session}
use authia.Postgres.Rows.{any-or}
use authia.Postgres.Transactions.{create_transactional_storage}
use authia.Postgres.Additions.{working_on}
use authia.System.{Environment, services}

abbrev pub add_session : Database → IssuedSession → Database
add_session d issued = record d { sessions = d.sessions ++ issued.session ∷ [] }

module _ (env : Environment) where
  -- A new session of the user, for the token that is handed out, from the time of its creation.
  pub record IsIssued (d : Database) (user : User) (context : RequestContext)
      (issued : IssuedSession) : Type 0 where
    pub owner : issued.session.user_id ≡ user.id
    pub known_owner : has_user d user.id ≡ true
    pub token_id :
        env.dependencies.derive_token_id issued.transport.token
        ≡ some issued.session.current_token_id
    pub verifier :
        env.dependencies.derive_token_verifier issued.transport.token
        ≡ some issued.session.current_token_verifier
    pub fresh_token : any (has_token issued.session.current_token_id) d.sessions ≡ false
    pub not_revoked : issued.session.revoked_at ≡ none
    pub transport : issued.transport.kind ≡ context.transport
    pub lifetimes :
        issued.session.expires_at + idle_timeout_ms
        ≡ issued.session.idle_expires_at + absolute_lifetime_ms

  -- The row that `sessions.create` adds.
  create_session_adds :
      (d : Database) (input : SessionCreateInput) (w w' : World) (s : SessionRecord)
      → w.working ≡ some (working_on d)
      → Yields (create_session env.backend Client.client input) w s w'
      → (w'.working ≡ some (working_on (record d { sessions = d.sessions ++ s ∷ [] })))
        × (s.user_id ≡ input.user_id)
        × (has_user d input.user_id ≡ true)
        × (s.current_token_id ≡ input.token_id)
        × (s.current_token_verifier ≡ input.token_verifier)
        × (any (has_token input.token_id) d.sessions ≡ false)
        × (s.expires_at ≡ input.expires_at)
        × (s.idle_expires_at ≡ input.idle_expires_at)
        × (s.revoked_at ≡ none)
  unfolding io create_session query insert_session
  create_session_adds d input w w' s open_ h =
      ground
        (arith, any-or (has_id (env.backend.uuid w.step)) (has_token input.token_id) d.sessions)

  pub issue_session-IsIssued :
      (d : Database) (user : User) (context : RequestContext) (w w' : World)
      (issued : IssuedSession)
      → w.working ≡ some (working_on d)
      → Yields
          ((services env).sessions.issue_session user
            (create_transactional_storage env.backend Client.client)
            context)
          w
          issued
          w'
      → (w'.working ≡ some (working_on (add_session d issued))) × IsIssued d user context issued
  unfolding io issue_session
  issue_session-IsIssued d user context w w' issued open_ h =
      elim (Option-cases (env.dependencies.generate_opaque_token w.step)) [
        | inl failed ↦ ground arith
        | inr (token, generated) ↦ elim (Option-cases (env.dependencies.derive_token_id token)) [
          | inl failed ↦ ground arith
          | inr (token_id, derived) ↦
              elim (Option-cases (env.dependencies.derive_token_verifier token)) [
                | inl failed ↦ ground arith
                | inr (verifier, verified) ↦ ground (
                  arith,
                  create_session_adds d
                      (new_session_input user token_id verifier (env.backend.clock (w.step + 1)))
                      (tick (tick w)) w' issued.session,
                )
              ]
        ]
      ]
