-- ===== src/Invariant/Refinement.antt =====
-- The table of the sessions against the changes that its sessions promise: `handle` of
-- packages/core/src/kernel/auth-kernel.ts over the statements of packages/storage-postgres.
use authia.Prelude.{
  ℕ, ◌≡◌, refl, sym, subst, ◌∙◌, String, Bool, true, false, ◌==◌, Option, none, List, [], ◌∷◌, ◌++◌,
  any, if◌then◌else◌, arith,
}
use authia.Contracts.Sessions.{SessionRecord}
use authia.Contracts.Storage.{SessionCompareAndSwapInput, VerifiedEmailRecord}
use authia.Contracts.Results.{RequestContext}
use authia.Contracts.Services.{Policy}
use authia.Session.{idle_patch}
use authia.Oauth.Config.{OauthRuntimeConfig}
use authia.Kernel.PolicyRun.{KernelConfig}
use authia.Kernel.Handle.{handle}
use authia.Postgres.Tables.{
  Database, Answer, insert_if, unique_violation, foreign_key_violation, returning, update,
}
use authia.Postgres.Rows.{any-or}
use authia.Postgres.Connection.{World}
use authia.Postgres.Accounts.{
  has_user, insert_user, insert_identity, update_password_hash, insert_oauth_identity,
}
use authia.Postgres.SessionRows.{
  insert_session, update_session, swap_token, revoke_session, revoke_sessions_of, set_sessions,
  has_id, has_token, patched, swaps, swapped, revoked, is_active_of,
}
use authia.Postgres.Tokens.{
  insert_oauth_state, consume_oauth_state, insert_reset_token, consume_reset_token,
  insert_verification_token, consume_verification_token, upsert_verified_email, is_verified,
}
use authia.System.{Environment}
use authia.Invariant.Stable.{IsApartEnvironment, AllPolicies}
use authia.Invariant.Tables.{OnAnswer, Preserves, IsInvariant, HoldsIn, OnWorking}
use authia.Invariant.Kept.{HoldsIn-IsStable}
use authia.Invariant.Gates.{full_kernel}
use authia.Invariant.Requests.{handle-Keeps}
use authia.Invariant.SessionViews.{
  Sessions, close, Step, Steps, view_of, view, view-unknown, view-append, view-update, on_view_same,
  field_of_either, view_of-revoked, view_of-revoked_open,
}

module _ (start : Sessions) where
  -- The table of the sessions, reached from the start by the changes that are promised.
  abbrev Reached : Database → Type 0
  Reached d = Steps start (view d.sessions)

  insert_if-Reached :
      {A : Type 0} (taken missing : Bool) (row : A) (d : Database)
      → (taken ≡ false → Reached d)
      → OnAnswer Reached (insert_if taken missing row d)
  insert_if-Reached true missing row d h = tt
  insert_if-Reached false true row d h = tt
  insert_if-Reached false false row d h = h refl

  clash-Reached :
      {A : Type 0} (clash : Bool) (a : A) (d : Database)
      → Reached d
      → OnAnswer Reached (if clash then Answer.violation unique_violation else Answer.answered a d)
  clash-Reached true a d h = tt
  clash-Reached false a d h = h

  upserted-Reached :
      {A : Type 0} (known exists : Bool) (a : A) (d e : Database)
      → Reached d
      → Reached e
      → OnAnswer Reached (
          if known
          then Answer.answered a d
          else if exists
          then Answer.answered a e
          else Answer.violation foreign_key_violation)
  upserted-Reached true exists a d e h k = h
  upserted-Reached false true a d e h k = k
  upserted-Reached false false a d e h k = tt

  session-Reached : (row : SessionRecord) → Preserves Reached (insert_session row)
  unfolding insert_session
  session-Reached row = record {
    at = λ d h.
        insert_if-Reached _ _ row (record d { sessions = d.sessions ++ row ∷ [] })
          (λ fresh.
            let unknown : any (has_id row.id) d.sessions ≡ false =
              ground (arith, any-or (has_id row.id) (has_token row.current_token_id) d.sessions) in
            Steps.step h (
              Step.opens row.id (view_of row) (view-unknown d.sessions row.id unknown)
                (λ k. view-append d.sessions row k unknown)));
  }

  -- An update that changes no id, no owner and no closing.
  unseen :
      (p : SessionRecord → Bool) (f : SessionRecord → SessionRecord) (d : Database)
      → ((s : SessionRecord) → (f s).id ≡ s.id)
      → ((s : SessionRecord) → view_of (f s) ≡ view_of s)
      → Reached d
      → Reached (set_sessions p f d)
  unseen p f d same_id seen h = Steps.same h (λ k.
      view-update (λ i v. v) p f d.sessions k
        (λ s. field_of_either (λ r. r.id) (p s) (f s) s (same_id s))
        (λ s. field_of_either view_of (p s) (f s) s (seen s))
      ∙ on_view_same (view d.sessions k))

  idle-Reached : (id : String) (at : ℕ) → Preserves Reached (update_session id (idle_patch at))
  unfolding update_session
  idle-Reached id at = record {
    at = λ d h. unseen (has_id id) (patched (idle_patch at)) d (λ s. refl) (λ s. refl) h;
  }

  swap-Reached : (input : SessionCompareAndSwapInput) → Preserves Reached (swap_token input)
  unfolding swap_token
  swap-Reached input = record {
    at = λ d h.
        clash-Reached _ (returning (swaps input) (swapped input) d.sessions)
          (set_sessions (swaps input) (swapped input) d)
          (unseen (swaps input) (swapped input) d (λ s. refl) (λ s. refl) h);
  }

  revoked-Reached : (id : String) (at : ℕ) → Preserves Reached (revoke_session id at)
  unfolding revoke_session
  revoked-Reached id at = record {
    at = λ d h. Steps.step h (
        Step.closes id (λ k.
          view-update (λ i v. if i == id then close v else v) (has_id id) (revoked at) d.sessions k
            (λ s. field_of_either (λ r. r.id) (has_id id s) (revoked at s) s refl)
            (λ s. view_of-revoked (has_id id s) at s)));
  }

  revoked_all-Reached :
      (user_id : String) (at : ℕ) → Preserves Reached (revoke_sessions_of user_id at)
  unfolding revoke_sessions_of
  revoked_all-Reached user_id at = record {
    at = λ d h. Steps.step h (
        Step.closes_all user_id (λ k.
          view-update (λ i v. if v.owner == user_id then close v else v) (is_active_of user_id)
            (revoked at) d.sessions k
            (λ s. field_of_either (λ r. r.id) (is_active_of user_id s) (revoked at s) s refl)
            (λ s. view_of-revoked_open (s.user_id == user_id) at s)));
  }

  verified-Reached : (row : VerifiedEmailRecord) → Preserves Reached (upsert_verified_email row)
  unfolding upsert_verified_email
  verified-Reached row = record {
    at = λ d h.
        upserted-Reached _ _ row
          (record d {
            verified_emails =
                update (is_verified row.normalized_email)
                  (λ v. record v { verified_at = row.verified_at }) d.verified_emails;
          })
          (record d { verified_emails = d.verified_emails ++ row ∷ [] }) h h;
  }

  Reached-IsInvariant : IsInvariant Reached
  unfolding insert_user insert_identity update_password_hash insert_oauth_identity
      insert_oauth_state consume_oauth_state insert_reset_token consume_reset_token
      insert_verification_token consume_verification_token
  Reached-IsInvariant = record {
    user = λ row. record {
      at = λ d h.
          insert_if-Reached (has_user d row.id) false row (record d { users = d.users ++ row ∷ [] })
            (λ fresh. h);
    };
    identity = λ row. record {
      at = λ d h.
          insert_if-Reached _ _ row (record d { local_identities = d.local_identities ++ row ∷ [] })
            (λ fresh. h);
    };
    password = λ email hash. record { at = λ d h. h };
    oauth_identity = λ row. record {
      at = λ d h.
          insert_if-Reached _ _ row (record d { oauth_identities = d.oauth_identities ++ row ∷ [] })
            (λ fresh. h);
    };
    session = session-Reached;
    idle = idle-Reached;
    swap = swap-Reached;
    revoked = revoked-Reached;
    revoked_all = revoked_all-Reached;
    state = λ row. record {
      at = λ d h.
          insert_if-Reached _ false row (record d { oauth_states = d.oauth_states ++ row ∷ [] })
            (λ fresh. h);
    };
    consumed_state = λ provider hash now. record { at = λ d h. h };
    reset_token = λ row. record {
      at = λ d h.
          insert_if-Reached _ _ row
            (record d { password_reset_tokens = d.password_reset_tokens ++ row ∷ [] }) (λ fresh. h);
    };
    consumed_reset = λ hash now. record { at = λ d h. h };
    verification_token = λ row. record {
      at = λ d h.
          insert_if-Reached _ _ row
            (record d { email_verification_tokens = d.email_verification_tokens ++ row ∷ [] })
            (λ fresh. h);
    };
    consumed_verification = λ hash now. record { at = λ d h. h };
    verified = verified-Reached;
  }

module _ (env : Environment) (config : KernelConfig) (oauth : Option OauthRuntimeConfig)
    (policies : List (Policy World)) where
  -- Whatever a request asks for, outside any transaction, the table of the sessions changes, seen
  -- from outside, only by the changes that are promised, one after the other: a session with a new id
  -- is opened, a session is closed, or all sessions of an owner are. The OAuth provider, the delivery
  -- of mail and the registered policies do not use the database.
  pub handle-Steps :
      IsApartEnvironment env
      → AllPolicies policies
      → (incoming : RequestContext) (w : World) → w.working ≡ none
      → Steps
          (view w.committed.sessions)
          (view (handle (full_kernel env config oauth policies) incoming w).1.committed.sessions)
  handle-Steps apart all_apart incoming w idle =
      let I = Reached (view w.committed.sessions) in
      ((handle-Keeps env (HoldsIn I)
          (HoldsIn-IsStable env I (Reached-IsInvariant (view w.committed.sessions))) apart config
          oauth policies all_apart incoming).at
        w
        (record {
          committed = Steps.done (λ k. refl);
          working = subst (OnWorking I) (sym idle) tt;
        })).committed
