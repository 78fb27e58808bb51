-- ===== src/Invariant/Requirements.antt =====
-- Every statement keeps the tables of packages/storage-postgres well-formed; so does every request.
use authia.Prelude.{
  ℕ, ◌≡◌, sym, subst, String, Bool, true, false, Option, none, List, [], ◌∷◌, ◌++◌, any,
  if◌then◌else◌,
}
use authia.Contracts.Storage.{OauthState, MailToken, VerifiedEmailRecord}
use authia.Contracts.Results.{RequestContext}
use authia.Contracts.Services.{Policy}
use authia.Oauth.Config.{OauthRuntimeConfig}
use authia.Kernel.PolicyRun.{KernelConfig}
use authia.Kernel.Handle.{handle}
use authia.Postgres.Tables.{Database, Answer, foreign_key_violation, update}
use authia.Postgres.Connection.{World}
use authia.Postgres.Tokens.{
  insert_oauth_state, consume_oauth_state, insert_reset_token, consume_reset_token,
  insert_verification_token, consume_verification_token, is_verified, upsert_verified_email,
  knows_email,
}
use authia.System.{Environment}
use authia.Invariant.Stable.{IsApartEnvironment, AllPolicies}
use authia.Invariant.Tables.{OnAnswer, Preserves, IsInvariant, OnWorking, HoldsIn}
use authia.Invariant.Kept.{HoldsIn-IsStable}
use authia.Invariant.Gates.{full_kernel}
use authia.Invariant.Requests.{handle-Keeps}
use authia.Invariant.WellFormed.{
  IsWellFormed, insert_if-IsWellFormed, user-Preserves, identity-Preserves, password-Preserves,
  oauth_identity-Preserves, session-Preserves, idle-Preserves, swap-Preserves, revoked-Preserves,
  revoked_all-Preserves,
}

-- The tables of the tokens and states have no part in it.
tokens-IsWellFormed :
    (d : Database) (states : List OauthState) (resets verifications : List MailToken)
    (verified : List VerifiedEmailRecord)
    → IsWellFormed d
    → IsWellFormed (record d {
      oauth_states = states;
      password_reset_tokens = resets;
      email_verification_tokens = verifications;
      verified_emails = verified;
    })
tokens-IsWellFormed d states resets verifications verified h = record {
  session_ids = h.session_ids;
  emails = h.emails;
  session_owners = h.session_owners;
  identity_owners = h.identity_owners;
  oauth_owners = h.oauth_owners;
}

module _ (d : Database) (h : IsWellFormed d) where
  states-IsWellFormed : (rows : List OauthState) → IsWellFormed (record d { oauth_states = rows })
  states-IsWellFormed rows =
      tokens-IsWellFormed d rows d.password_reset_tokens d.email_verification_tokens
        d.verified_emails h

  resets-IsWellFormed :
      (rows : List MailToken) → IsWellFormed (record d { password_reset_tokens = rows })
  resets-IsWellFormed rows =
      tokens-IsWellFormed d d.oauth_states rows d.email_verification_tokens d.verified_emails h

  verifications-IsWellFormed :
      (rows : List MailToken) → IsWellFormed (record d { email_verification_tokens = rows })
  verifications-IsWellFormed rows =
      tokens-IsWellFormed d d.oauth_states d.password_reset_tokens rows d.verified_emails h

  verified-IsWellFormed :
      (rows : List VerifiedEmailRecord) → IsWellFormed (record d { verified_emails = rows })
  verified-IsWellFormed rows =
      tokens-IsWellFormed d d.oauth_states d.password_reset_tokens d.email_verification_tokens rows
        h

state-Preserves : (row : OauthState) → Preserves IsWellFormed (insert_oauth_state row)
unfolding insert_oauth_state
state-Preserves row = record {
  at = λ d h.
      let rows = d.oauth_states ++ row ∷ [] in
      insert_if-IsWellFormed _ false row (record d { oauth_states = rows })
        (λ fresh known. states-IsWellFormed d h rows);
}

consumed_state-Preserves :
    (provider hash : String) (now : ℕ)
    → Preserves IsWellFormed (consume_oauth_state provider hash now)
unfolding consume_oauth_state
consumed_state-Preserves provider hash now = record { at = λ d h. states-IsWellFormed d h _ }

reset_token-Preserves : (row : MailToken) → Preserves IsWellFormed (insert_reset_token row)
unfolding insert_reset_token
reset_token-Preserves row = record {
  at = λ d h.
      let rows = d.password_reset_tokens ++ row ∷ [] in
      insert_if-IsWellFormed _ _ row (record d { password_reset_tokens = rows })
        (λ fresh known. resets-IsWellFormed d h rows);
}

consumed_reset-Preserves :
    (hash : String) (now : ℕ) → Preserves IsWellFormed (consume_reset_token hash now)
unfolding consume_reset_token
consumed_reset-Preserves hash now = record { at = λ d h. resets-IsWellFormed d h _ }

verification_token-Preserves :
    (row : MailToken) → Preserves IsWellFormed (insert_verification_token row)
unfolding insert_verification_token
verification_token-Preserves row = record {
  at = λ d h.
      let rows = d.email_verification_tokens ++ row ∷ [] in
      insert_if-IsWellFormed _ _ row (record d { email_verification_tokens = rows })
        (λ fresh known. verifications-IsWellFormed d h rows);
}

consumed_verification-Preserves :
    (hash : String) (now : ℕ) → Preserves IsWellFormed (consume_verification_token hash now)
unfolding consume_verification_token
consumed_verification-Preserves hash now = record { at = λ d h. verifications-IsWellFormed d h _ }

verified-Preserves :
    (row : VerifiedEmailRecord) → Preserves IsWellFormed (upsert_verified_email row)
unfolding upsert_verified_email
verified-Preserves row = record {
  at = λ d h.
      upserted d h (any (is_verified row.normalized_email) d.verified_emails)
        (knows_email d row.normalized_email);
}
  where
    upserted :
        (d : Database)
        → IsWellFormed d
        → (known exists : Bool)
        → OnAnswer IsWellFormed (
            if known
            then Answer.answered row (record d {
              verified_emails =
                  update
                    (is_verified row.normalized_email)
                    (λ v. record v { verified_at = row.verified_at })
                    d.verified_emails;
            })
            else if exists
            then Answer.answered row (record d { verified_emails = d.verified_emails ++ row ∷ [] })
            else Answer.violation foreign_key_violation)
    upserted d h true exists = verified-IsWellFormed d h _
    upserted d h false true = verified-IsWellFormed d h _
    upserted d h false false = tt

IsWellFormed-IsInvariant : IsInvariant IsWellFormed
IsWellFormed-IsInvariant = record {
  user = user-Preserves;
  identity = identity-Preserves;
  password = password-Preserves;
  oauth_identity = oauth_identity-Preserves;
  session = session-Preserves;
  idle = idle-Preserves;
  swap = swap-Preserves;
  revoked = revoked-Preserves;
  revoked_all = revoked_all-Preserves;
  state = state-Preserves;
  consumed_state = consumed_state-Preserves;
  reset_token = reset_token-Preserves;
  consumed_reset = consumed_reset-Preserves;
  verification_token = verification_token-Preserves;
  consumed_verification = consumed_verification-Preserves;
  verified = verified-Preserves;
}

module _ (env : Environment) (config : KernelConfig) (oauth : Option OauthRuntimeConfig)
    (policies : List (Policy World)) where
  -- Whatever a request asks for, outside any transaction, well-formed tables stay well-formed: session
  -- ids and the emails of identities stay distinct, and whoever has a session or an identity is a
  -- stored user. The OAuth provider, the delivery of mail and the registered policies do not use the
  -- database.
  pub handle-IsWellFormed :
      IsApartEnvironment env
      → AllPolicies policies
      → (incoming : RequestContext) (w : World) → w.working ≡ none
      → IsWellFormed w.committed
      → IsWellFormed (handle (full_kernel env config oauth policies) incoming w).1.committed
  handle-IsWellFormed apart all_apart incoming w idle h =
      ((handle-Keeps env (HoldsIn IsWellFormed)
          (HoldsIn-IsStable env IsWellFormed IsWellFormed-IsInvariant) apart config oauth policies
          all_apart incoming).at
        w
        (record {
          committed = h;
          working = subst (OnWorking IsWellFormed) (sym idle) tt;
        })).committed
