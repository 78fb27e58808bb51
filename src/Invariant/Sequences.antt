-- ===== src/Invariant/Sequences.antt =====
-- Requests one after the other, through `handle` of packages/core/src/kernel/auth-kernel.ts with both
-- plugins over packages/storage-postgres.
use authia.Prelude.{
  ℕ, ◌+◌, ◌≡◌, ◌≢◌, refl, sym, ap, subst, ◌∙◌, inl, inr, true, Option, none, List, [], ◌∷◌, is_some,
}
use authia.Contracts.Actions.{SupportedAction}
use authia.Contracts.Sessions.{User, SessionRecord}
use authia.Contracts.Results.{RequestContext, AuthResult}
use authia.Contracts.Services.{Policy}
use authia.Io.{Completion}
use authia.Oauth.Config.{OauthRuntimeConfig}
use authia.EmailPassword.Plugin.{create_email_password_plugin}
use authia.Oauth.Plugin.{create_oauth_plugin}
use authia.Kernel.PolicyRun.{KernelConfig}
use authia.Kernel.Handle.{handle}
use authia.Kernel.CurrentSession.{get_session_answers_for-IsAccepted}
use authia.Postgres.Connection.{World}
use authia.Postgres.Rows.{In}
use authia.System.{Environment}
use authia.Invariant.Stable.{IsApartEnvironment, AllPolicies}
use authia.Invariant.Gates.{full_kernel}
use authia.Invariant.Release.{handle_releases}
use authia.Invariant.Rows.{Extends}
use authia.Invariant.Keys.{Distinct-In}
use authia.Invariant.Evolution.{SameSession, Evolves, Evolves-refl, Evolves-trans}
use authia.Invariant.Permanence.{handle-Evolves}
use authia.Invariant.WellFormed.{IsWellFormed}
use authia.Invariant.Requirements.{handle-IsWellFormed}

-- A row is still there after a change, related to what it was.
extended_row :
    (xs ys : List SessionRecord) (s : SessionRecord)
    → Extends SameSession xs ys
    → In s xs
    → (t : SessionRecord) × In t ys × SameSession s t
extended_row [] ys s h m = absurd m
extended_row (x ∷ xs) [] s h m = absurd h
extended_row (x ∷ xs) (y ∷ ys) s (h, hs) (inl e) =
    (y, inl refl, subst (λ r. SameSession r y) (sym e) h)
extended_row (x ∷ xs) (y ∷ ys) s (h, hs) (inr m) =
    let (t, listed, same) = extended_row xs ys s hs m in (t, inr listed, same)

module _ (env : Environment) (config : KernelConfig) (oauth : Option OauthRuntimeConfig)
    (policies : List (Policy World)) where
  -- The worlds that requests lead to, one after the other, with pauses between them.
  pub data Follows (w : World) : World → Type 0 where
    here : Follows w w
    request :
        {u : World}
        → Follows w u
        → (incoming : RequestContext)
        → Follows w (handle (full_kernel env config oauth policies) incoming u).1
    pause : {u : World} → Follows w u → (n : ℕ) → Follows w (record u { step = u.step + n })

  -- What holds after requests that began in `w`.
  pub record IsSettled (w v : World) : Type 0 where
    pub closed : v.working ≡ none
    pub released : v.leased ≡ w.leased
    pub evolved : Evolves w.committed v.committed
    pub well_formed : IsWellFormed v.committed

  -- After any number of requests, one after the other, from well-formed tables and no open
  -- transaction: none is open, as many clients are checked out as before, no row has been deleted or
  -- undone, and the tables are well-formed. The OAuth provider, the delivery of mail and the
  -- registered policies do not use the database.
  pub requests_settle :
      IsApartEnvironment env
      → AllPolicies policies
      → (w v : World) → w.working ≡ none
      → IsWellFormed w.committed
      → Follows w v
      → IsSettled w v
  requests_settle apart all_apart w v idle h here = record {
    closed = idle;
    released = refl;
    evolved = Evolves-refl w.committed;
    well_formed = h;
  }
  requests_settle apart all_apart w v idle h (pause {u} before n) =
      let s = requests_settle apart all_apart w u idle h before in
      record {
        closed = s.closed;
        released = s.released;
        evolved = s.evolved;
        well_formed = s.well_formed;
      }
  requests_settle apart all_apart w v idle h (request {u} before incoming) =
      let s = requests_settle apart all_apart w u idle h before in
      let (closed, leased) =
        handle_releases env config oauth policies apart all_apart incoming u s.closed in
      record {
        closed = closed;
        released = leased ∙ s.released;
        evolved =
            Evolves-trans w.committed u.committed _ s.evolved
              (handle-Evolves env config oauth policies apart all_apart incoming u s.closed);
        well_formed =
            handle-IsWellFormed env config oauth policies apart all_apart incoming u s.closed
              s.well_formed;
      }

  -- A session that is revoked is never answered with again: after any number of requests, from
  -- well-formed tables and no open transaction, getSession answers with no session of its id.
  pub revoked_session_stays_out :
      IsApartEnvironment env
      → AllPolicies policies
      → (w v v' : World) (s session : SessionRecord) (user : User) (incoming : RequestContext)
      → w.working ≡ none
      → IsWellFormed w.committed
      → In s w.committed.sessions
      → is_some s.revoked_at ≡ true
      → Follows w v
      → incoming.action ≡ SupportedAction.get_session
      → handle (full_kernel env config oauth policies) incoming v
        ≡ (Completion.value (AuthResult.current_session user session), v')
      → session.id ≢ s.id
  revoked_session_stays_out apart all_apart w v v' s session user incoming idle h listed dead
        follows get answers same_id =
      let settled = requests_settle apart all_apart w v idle h follows in
      let (t, kept, same) =
        extended_row w.committed.sessions v.committed.sessions s settled.evolved.sessions listed in
      let (credential, given, accepted) =
        get_session_answers_for-IsAccepted env config
          (create_email_password_plugin ∷ create_oauth_plugin oauth ∷ []) policies incoming v v'
          user session get answers in
      let one =
        Distinct-In (λ r. r.id) v.committed.sessions session t settled.well_formed.session_ids
          accepted.session_stored kept (same_id ∙ sym same.id) in
      let live = accepted.not_revoked in
      let revoked = same.stays_revoked dead in
      cc (ap (λ r. is_some r.revoked_at) one, ap is_some live, revoked)
