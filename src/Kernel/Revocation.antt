-- ===== src/Kernel/Revocation.antt =====
-- What logoutAll of packages/core/src/kernel/auth-kernel.ts does to the tables, past the gate and the
-- policies.
use authia.Prelude.{
  ℕ, ◌+◌, ◌≡◌, refl, sym, ap, subst, ◌∙◌, ◌⊎◌, inl, inr, String, List, none, some, arith,
}
use authia.Contracts.Actions.{SupportedAction}
use authia.Contracts.Sessions.{AuthenticatedSession}
use authia.Contracts.Storage.{TransactionalStorage}
use authia.Contracts.Services.{Plugin, Policy}
use authia.Contracts.Results.{RequestContext, AuthResult}
use authia.Io.{Io, Completion, pure, catch_from, io}
use authia.Io.Inversion.{bind_cases}
use authia.Contracts.Errors.{AuthError}
use authia.Postgres.Tables.{Database}
use authia.Postgres.Connection.{World, Client, query}
use authia.Postgres.SessionRows.{revoke_all, revoke_sessions_of}
use authia.Postgres.Additions.{working_on}
use authia.Postgres.Changes.{revoke_sessions}
use authia.Postgres.Transactions.{begin_transaction}
use authia.Postgres.Inside.{revoke_all_sessions-StaysInside}
use authia.Postgres.Atomicity.{
  opened, result_database, ran, begin_transaction-EndsWell, begin_transaction_value,
  begin_transaction_threw,
}
use authia.Kernel.PolicyRun.{KernelConfig}
use authia.Kernel.Handle.{recovered, logged_out, run_transaction, perform_logout_all}
use authia.Kernel.Reading.{kernel_of}
use authia.System.{Environment, services}

module _ (env : Environment) where
  -- How the revocation of a user's sessions ends in an open transaction over `d`.
  abbrev Revokes : Database → String → Completion ℕ × World → Type 0
  Revokes d user_id (Completion.value n, w') =
      (at : ℕ) × (result_database w' ≡ revoke_sessions d user_id at)
  Revokes d user_id (Completion.error e, w') = result_database w' ≡ w'.committed
  Revokes d user_id (Completion.threw t, w') = ⊥

  revoke_all-Revokes :
      (d : Database) (user_id : String) (w w' : World) (c : Completion ℕ)
      → w.working ≡ some (working_on d)
      → revoke_all env.backend Client.client user_id w ≡ (c, w')
      → Revokes d user_id (c, w')
  unfolding io revoke_all query revoke_sessions_of
  revoke_all-Revokes d user_id w w' (Completion.value n) open_ h =
      (env.backend.clock w.step, ground arith)
  revoke_all-Revokes d user_id w w' (Completion.error e) open_ h = ground arith
  revoke_all-Revokes d user_id w w' (Completion.threw t) open_ h = ground arith

  abbrev revocation : String → TransactionalStorage World → Io World ℕ
  revocation user_id tx = (services env).sessions.revoke_all_sessions user_id (some tx)

  -- How the whole transaction ends over `d`.
  abbrev Revoked : Database → String → Completion ℕ × World → Type 0
  Revoked d user_id (Completion.value n, w') =
      (at : ℕ) × (w'.committed ≡ revoke_sessions d user_id at)
  Revoked d user_id (Completion.error e, w') = w'.committed ≡ d
  Revoked d user_id (Completion.threw t, w') = ⊥

  abbrev revoking : String → World → Completion ℕ × World
  revoking user_id w = ran env.backend (revocation user_id) w

  revoking-Revokes :
      (user_id : String) (w : World) (c : Completion ℕ)
      → (revoking user_id w).0 ≡ c
      → Revokes w.committed user_id (c, (revoking user_id w).1)
  revoking-Revokes user_id w c e =
      revoke_all-Revokes w.committed user_id (opened w) (revoking user_id w).1 c refl (cc e)

  transaction-Revoked :
      (user_id : String) (w w' : World) (c : Completion ℕ)
      → w.working ≡ none
      → begin_transaction env.backend (revocation user_id) w ≡ (c, w')
      → Revoked w.committed user_id (c, w')
  transaction-Revoked user_id w w' (Completion.value n) idle h =
      let (returned, tables) = begin_transaction_value env.backend (revocation user_id) w w' n h in
      let (at, changed) = revoking-Revokes user_id w (Completion.value n) returned in
      (at, tables ∙ changed)
  transaction-Revoked user_id w w' (Completion.error e) idle h =
      let stays = revoke_all_sessions-StaysInside env w.committed (w.leased + 1) user_id in
      let well = begin_transaction-EndsWell env.backend (revocation user_id) w idle stays in
      elim (well.all_or_nothing) [
        | inl same ↦ sym (ap (λ x. x.1.committed) h) ∙ same
        | inr (tables, ends, returned) ↦
            sym (ap (λ x. x.1.committed) h)
            ∙ tables
            ∙ revoking-Revokes user_id w (Completion.error e) (sym ends ∙ ap (λ x. x.0) h)
            ∙ (stays.at (opened w) (ground arith)).same_tables
      ]
  transaction-Revoked user_id w w' (Completion.threw t) idle h = absurd (
      revoking-Revokes user_id w (Completion.threw t)
        (begin_transaction_threw env.backend (revocation user_id) w t (ap (λ x. x.0) h)))

  module _ (config : KernelConfig) (plugins : List (Plugin World))
      (policies : List (Policy World)) where
    recovered-Revoked :
        (d : Database) (user_id : String) (c : Completion ℕ) (w : World)
        → Revoked d user_id (c, w)
        → Revoked d user_id
            (catch_from c (recovered (kernel_of env config plugins policies) (λ r. 0)) w)
    recovered-Revoked d user_id (Completion.value n) w h = h
    recovered-Revoked d user_id (Completion.error e) w h = h
    recovered-Revoked d user_id (Completion.threw t) w h = absurd h

    run_transaction-Revoked :
        (user_id : String) (w w' : World) (c : Completion ℕ)
        → w.working ≡ none
        → run_transaction (kernel_of env config plugins policies) (λ r. 0) (revocation user_id) w
          ≡ (c, w')
        → Revoked w.committed user_id (c, w')
    unfolding run_transaction io
    run_transaction-Revoked user_id w w' c idle h = subst (Revoked w.committed user_id) h (
        recovered-Revoked w.committed user_id
          (begin_transaction env.backend (revocation user_id) w).0
          (begin_transaction env.backend (revocation user_id) w).1
          (transaction-Revoked user_id w (begin_transaction env.backend (revocation user_id) w).1
            (begin_transaction env.backend (revocation user_id) w).0 idle refl))

    -- How logoutAll ends: with an error and the tables as they were, or with success and every
    -- session of the user revoked.
    abbrev pub LogoutAllEnds :
        RequestContext → AuthenticatedSession → Database → Completion AuthResult × World → Type 0
    LogoutAllEnds context current d (c, w') =
        ((e : AuthError) × (c ≡ Completion.error e) × (w'.committed ≡ d))
        ⊎ ((at : ℕ) × (c
              ≡ Completion.value (
                  logged_out (kernel_of env config plugins policies) SupportedAction.logout_all
                    context))
            × (w'.committed ≡ revoke_sessions d current.user.id at))

    -- Past the gate and the policies, outside any other transaction, logoutAll either ends with an
    -- error and leaves the committed tables as they were, or clears the transport of the request and
    -- revokes every session of the current user that was not revoked, and changes nothing else.
    pub logout_all_revokes :
        (context : RequestContext) (current : AuthenticatedSession) (w : World)
        → w.working ≡ none
        → LogoutAllEnds context current w.committed
            (perform_logout_all (kernel_of env config plugins policies) context (some current) w)
    unfolding perform_logout_all
    logout_all_revokes context current w idle =
        bind_cases (LogoutAllEnds context current w.committed)
          (run_transaction (kernel_of env config plugins policies) (λ r. 0)
            (revocation current.user.id))
          (λ n.
            pure (
              logged_out (kernel_of env config plugins policies) SupportedAction.logout_all
                context))
          w
          (λ n w1 h.
            let (at, changed) =
              run_transaction-Revoked current.user.id w w1 (Completion.value n) idle h.ran in
            inr (at, refl, changed))
          (λ e w1 h.
            inl (e, refl, run_transaction-Revoked current.user.id w w1 (Completion.error e) idle h))
          (λ t w1 h.
            absurd (run_transaction-Revoked current.user.id w w1 (Completion.threw t) idle h))
