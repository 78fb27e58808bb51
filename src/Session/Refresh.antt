-- ===== src/Session/Refresh.antt =====
-- What packages/core/src/session/refresh-session.ts does in an open transaction.
use authia.Prelude.{ℕ, ◌+◌, ◌≡◌, false, some}
use authia.Contracts.Sessions.{idle_timeout_ms, SessionTransport, SessionRecord}
use authia.Contracts.Results.{RequestContext}
use authia.Contracts.Services.{IssuedSession, RefreshOutcome}
use authia.Contracts.Errors.{UnauthenticatedCode}
use authia.Io.{Io}
use authia.Session.{idle_patch, refresh_declined, refresh_live, refresh_unrevoked, rotation_due}
use authia.Postgres.Tables.{Database, returning, first}
use authia.Postgres.Connection.{World, Client, date_now}
use authia.Postgres.SessionRows.{has_id, patched, set_sessions}
use authia.Postgres.Transactions.{create_transactional_storage}
use authia.Postgres.Additions.{working_on}
use authia.System.{Environment, services}

module _ (env : Environment) where
  -- No rotation is due: the token stays, and the idle time begins anew.
  pub record IsExtended (d : Database) (w' : World) (now : ℕ) (session : SessionRecord)
      (credential : SessionTransport) (issued : IssuedSession) : Type 0 where
    pub not_due : rotation_due session now ≡ false
    pub same_transport : issued.transport ≡ credential
    pub row :
        first
          (returning (has_id session.id) (patched (idle_patch (now + idle_timeout_ms))) d.sessions)
        ≡ some issued.session
    pub tables :
        w'.working
        ≡ some (
            working_on
              (set_sessions (has_id session.id) (patched (idle_patch (now + idle_timeout_ms))) d))

  abbrev declined : UnauthenticatedCode → Io World RefreshOutcome
  declined = refresh_declined (date_now env.backend) (services env).crypto

  abbrev live : SessionTransport → SessionRecord → RequestContext → ℕ → Io World RefreshOutcome
  live credential session context now =
      refresh_live (date_now env.backend) (services env).crypto credential session
        (create_transactional_storage env.backend Client.client) context now

  abbrev unrevoked : SessionTransport → SessionRecord → RequestContext → ℕ → Io World RefreshOutcome
  unrevoked credential session context now =
      refresh_unrevoked (date_now env.backend) (services env).crypto credential session
        (create_transactional_storage env.backend Client.client) context now
