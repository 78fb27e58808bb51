-- ===== src/Invariant/Release.antt =====
-- Every request gives back the clients that it has taken from the pool
-- (packages/storage-postgres/src/transactions.ts, under packages/core/src/kernel/auth-kernel.ts).
use authia.Prelude.{ℕ, ◌+◌, ◌≡◌, ◌∙◌, refl, Option, none, List, arith}
use authia.Contracts.Storage.{TransactionalStorage}
use authia.Contracts.Results.{RequestContext}
use authia.Contracts.Services.{Policy}
use authia.Io.{Io, io}
use authia.Oauth.Config.{OauthRuntimeConfig}
use authia.Kernel.PolicyRun.{KernelConfig}
use authia.Kernel.Handle.{handle}
use authia.Postgres.Tables.{Database}
use authia.Postgres.Connection.{World, Client, query}
use authia.Postgres.Transactions.{create_transactional_storage}
use authia.Postgres.Atomicity.{begin_transaction-EndsWell}
use authia.Postgres.Inside.{
  StaysInside, sign_up_transaction-StaysInside, sign_in_transaction-StaysInside,
  reset_password_transaction-StaysInside, verify_email_transaction-StaysInside,
  callback_transaction-StaysInside, retry_transaction-StaysInside, refresh_session-StaysInside,
  revoke_session-StaysInside, revoke_all_sessions-StaysInside,
}
use authia.System.{Environment}
use authia.Invariant.Stable.{IsApartEnvironment, AllPolicies, IsStable, KeepsTransaction}
use authia.Invariant.Gates.{full_kernel}
use authia.Invariant.Requests.{handle-Keeps}

-- No transaction is open, and so many clients are checked out.
pub record IsIdle (leased : ℕ) (w : World) : Type 0 where
  pub closed : w.working ≡ none
  pub leases : w.leased ≡ leased

module _ (env : Environment) (leased : ℕ) where
  transaction-Keeps :
      {T : Type 0} (run : TransactionalStorage World → Io World T)
      → ((d : Database) (k : ℕ)
          → StaysInside d k (run (create_transactional_storage env.backend Client.client)))
      → KeepsTransaction env (IsIdle leased) run
  transaction-Keeps run stays = record {
    at = λ w idle.
        let well =
          begin_transaction-EndsWell env.backend run w idle.closed
            (stays w.committed (w.leased + 1)) in
        record { closed = well.closed; leases = well.released ∙ idle.leases };
  }

  IsIdle-IsStable : IsStable env (IsIdle leased)
  unfolding io query
  IsIdle-IsStable = record {
    local = λ w w' same idle. record {
      closed = same.working ∙ idle.closed;
      leases = same.leased ∙ idle.leases;
    };
    create_state = λ input. record { at = λ w idle. ground arith };
    consume = λ provider state_hash now. record { at = λ w idle. ground arith };
    create_reset = λ token_hash email expires_at. record { at = λ w idle. ground arith };
    create_verification = λ token_hash email expires_at. record { at = λ w idle. ground arith };
    sign_up = λ context email password.
        transaction-Keeps _ (λ d k. sign_up_transaction-StaysInside env d k context email password);
    sign_in = λ context user.
        transaction-Keeps _ (λ d k. sign_in_transaction-StaysInside env d k context user);
    reset = λ token_hash password.
        transaction-Keeps _
          (λ d k. reset_password_transaction-StaysInside env d k token_hash password);
    verify = λ token_hash.
        transaction-Keeps _ (λ d k. verify_email_transaction-StaysInside env d k token_hash);
    callback = λ context provider subject.
        transaction-Keeps _
          (λ d k. callback_transaction-StaysInside env d k context provider subject);
    retry = λ context provider subject.
        transaction-Keeps _ (λ d k. retry_transaction-StaysInside env d k context provider subject);
    refresh = λ session context.
        transaction-Keeps _ (λ d k. refresh_session-StaysInside env d k session context);
    revoke =
        λ session_id. transaction-Keeps _ (λ d k. revoke_session-StaysInside env d k session_id);
    revoke_all =
        λ user_id. transaction-Keeps _ (λ d k. revoke_all_sessions-StaysInside env d k user_id);
  }

module _ (env : Environment) (config : KernelConfig) (oauth : Option OauthRuntimeConfig)
    (policies : List (Policy World)) where
  -- Whatever a request asks for, and whichever calls of the server fail: one that begins with no
  -- transaction open ends with none open and with as many clients checked out of the pool as before,
  -- if the OAuth provider, the delivery of mail and the registered policies do not use the database.
  pub handle_releases :
      IsApartEnvironment env
      → AllPolicies policies
      → (incoming : RequestContext) (w : World) → w.working ≡ none
      → let w' = (handle (full_kernel env config oauth policies) incoming w).1 in
        (w'.working ≡ none) × (w'.leased ≡ w.leased)
  handle_releases apart all_apart incoming w idle =
      let kept =
        (handle-Keeps env (IsIdle w.leased) (IsIdle-IsStable env w.leased) apart config oauth
            policies all_apart incoming).at
          w (record { closed = idle; leases = refl }) in
      (kept.closed, kept.leases)
