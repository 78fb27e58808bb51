-- ===== src/Invariant/Permanence.antt =====
-- No request undoes what an earlier one has done: `handle` of
-- packages/core/src/kernel/auth-kernel.ts over packages/storage-postgres.
use authia.Prelude.{◌≡◌, sym, subst, Option, none, List}
use authia.Contracts.Results.{RequestContext}
use authia.Contracts.Services.{Policy}
use authia.Oauth.Config.{OauthRuntimeConfig}
use authia.Kernel.PolicyRun.{KernelConfig}
use authia.Kernel.Handle.{handle}
use authia.Postgres.Tables.{Database, Answer, Statement}
use authia.Postgres.Connection.{World}
use authia.System.{Environment}
use authia.Invariant.Stable.{IsApartEnvironment, AllPolicies}
use authia.Invariant.Tables.{OnAnswer, Preserves, IsInvariant, OnWorking, HoldsIn}
use authia.Invariant.Kept.{HoldsIn-IsStable}
use authia.Invariant.Gates.{full_kernel}
use authia.Invariant.Requests.{handle-Keeps}
use authia.Invariant.Evolution.{Evolves, Evolves-refl, Evolves-trans}
use authia.Invariant.Growth.{
  Grows, user-Grows, identity-Grows, password-Grows, oauth_identity-Grows, session-Grows,
  idle-Grows, swap-Grows, revoked-Grows, revoked_all-Grows, state-Grows, consumed_state-Grows,
  reset_token-Grows, consumed_reset-Grows, verification_token-Grows, consumed_verification-Grows,
  verified-Grows,
}

module _ (first : Database) where
  answer-Evolves :
      {A : Type 0} (d : Database) (a : Answer A)
      → Evolves first d
      → OnAnswer (Evolves d) a
      → OnAnswer (Evolves first) a
  answer-Evolves d (Answer.answered a d') h k = Evolves-trans first d d' h k
  answer-Evolves d (Answer.violation code) h k = tt

  Grows-Preserves :
      {A : Type 0} (statement : Statement A) → Grows statement → Preserves (Evolves first) statement
  Grows-Preserves statement grows = record {
    at = λ d h. answer-Evolves d (statement d) h (grows d);
  }

  Evolves-IsInvariant : IsInvariant (Evolves first)
  Evolves-IsInvariant = record {
    user = λ row. Grows-Preserves _ (user-Grows row);
    identity = λ row. Grows-Preserves _ (identity-Grows row);
    password = λ email hash. Grows-Preserves _ (password-Grows email hash);
    oauth_identity = λ row. Grows-Preserves _ (oauth_identity-Grows row);
    session = λ row. Grows-Preserves _ (session-Grows row);
    idle = λ id at. Grows-Preserves _ (idle-Grows id at);
    swap = λ input. Grows-Preserves _ (swap-Grows input);
    revoked = λ id at. Grows-Preserves _ (revoked-Grows id at);
    revoked_all = λ user_id at. Grows-Preserves _ (revoked_all-Grows user_id at);
    state = λ row. Grows-Preserves _ (state-Grows row);
    consumed_state =
        λ provider hash now. Grows-Preserves _ (consumed_state-Grows provider hash now);
    reset_token = λ row. Grows-Preserves _ (reset_token-Grows row);
    consumed_reset = λ hash now. Grows-Preserves _ (consumed_reset-Grows hash now);
    verification_token = λ row. Grows-Preserves _ (verification_token-Grows row);
    consumed_verification = λ hash now. Grows-Preserves _ (consumed_verification-Grows hash now);
    verified = λ row. Grows-Preserves _ (verified-Grows row);
  }

module _ (env : Environment) (config : KernelConfig) (oauth : Option OauthRuntimeConfig)
    (policies : List (Policy World)) where
  -- Whatever a request asks for, outside any transaction, the committed tables only grow: no row is
  -- deleted; users and OAuth identities stay as they are, an identity keeps its user and its email, a
  -- session its user and its absolute end, and one that is revoked stays revoked; a state or a mail
  -- token that is consumed stays as it is, and an email that is verified stays so. The OAuth provider,
  -- the delivery of mail and the registered policies do not use the database.
  pub handle-Evolves :
      IsApartEnvironment env
      → AllPolicies policies
      → (incoming : RequestContext) (w : World) → w.working ≡ none
      → Evolves w.committed (handle (full_kernel env config oauth policies) incoming w).1.committed
  handle-Evolves apart all_apart incoming w idle =
      let I = Evolves w.committed in
      ((handle-Keeps env (HoldsIn I) (HoldsIn-IsStable env I (Evolves-IsInvariant w.committed))
          apart config oauth policies all_apart incoming).at
        w
        (record {
          committed = Evolves-refl w.committed;
          working = subst (OnWorking I) (sym idle) tt;
        })).committed
