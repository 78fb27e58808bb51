-- ===== src/Kernel/Reading.antt =====
-- What the gates of packages/core/src/kernel/auth-kernel.ts decide over the Postgres storage: they
-- change no table, and they stop a request only with a refusal.
use authia.Prelude.{◌≡◌, refl, Option, none, some, ◌∙◌, List}
use authia.Contracts.Actions.{SupportedAction}
use authia.Contracts.Sessions.{SessionTransport, SessionValidationOutcome}
use authia.Contracts.Services.{Plugin, Policy}
use authia.Contracts.Results.{RequestContext}
use authia.Io.{Io, Completion, value, error, threw, pure, continue, ◌>>=◌, io}
use authia.Session.Validation.{validate, validate_reads}
use authia.Kernel.PolicyRun.{Kernel, KernelConfig}
use authia.Kernel.Handle.{
  Gate, require_session, allow_stale_session, gate, gate_session, gate_logout, gate_logout_all,
}
use authia.Postgres.Connection.{World}
use authia.Postgres.Refusals.{IsRefusal}
use authia.System.{Environment, auth_kernel}

abbrev pub OnValue : {A : Type 0} → (A → Type 0) → Completion A → Type 0
OnValue Q (value a) = Q a
OnValue Q (error e) = Unit
OnValue Q (threw t) = Unit

OnValue-trivial : {A : Type 0} (c : Completion A) → OnValue (λ a. Unit {0}) c
OnValue-trivial (value a) = tt
OnValue-trivial (error e) = tt
OnValue-trivial (threw t) = tt

-- A function that changes no committed table, and whose value satisfies Q.
pub record Reads {A : Type 0} (Q : A → Type 0) (m : Io World A) : Type 0 where
  pub result : (w : World) → OnValue Q (m w).0
  pub same : (w : World) → (m w).1.committed ≡ w.committed

pub Reads-pure : {A : Type 0} {Q : A → Type 0} (a : A) → Q a → Reads Q (pure a)
Reads-pure a q = record { result = λ w. q; same = λ w. refl }

module _ {A B : Type 0} {Q : A → Type 0} {R : B → Type 0} (k : A → Io World B)
    (kk : (a : A) → Q a → Reads R (k a)) where
  continue_result : (c : Completion A) (w : World) → OnValue Q c → OnValue R (continue c k w).0
  continue_result (value a) w q = (kk a q).result w
  continue_result (error e) w q = tt
  continue_result (threw t) w q = tt

  continue_same :
      (c : Completion A) (w : World) → OnValue Q c → (continue c k w).1.committed ≡ w.committed
  continue_same (value a) w q = (kk a q).same w
  continue_same (error e) w q = refl
  continue_same (threw t) w q = refl

  pub Reads-bind : (m : Io World A) → Reads Q m → Reads R (m >>= k)
  unfolding io
  Reads-bind m h = record {
    result = λ w. continue_result (m w).0 (m w).1 (h.result w);
    same = λ w. continue_same (m w).0 (m w).1 (h.result w) ∙ h.same w;
  }

-- A gate stops with a refusal, or passes a context with the headers of the request.
abbrev pub IsFair : RequestContext → Gate → Type 0
IsFair incoming (Gate.stop r) = IsRefusal r
IsFair incoming (Gate.pass context skip) = context.headers ≡ incoming.headers

require_session-IsFair :
    (incoming : RequestContext) (v : SessionValidationOutcome)
    → IsFair incoming (require_session incoming v)
require_session-IsFair incoming SessionValidationOutcome.denied = tt
require_session-IsFair incoming (SessionValidationOutcome.unauthenticated code) = tt
require_session-IsFair incoming (SessionValidationOutcome.authenticated v) = refl

allow_stale_session-IsFair :
    (incoming : RequestContext) (v : SessionValidationOutcome)
    → IsFair incoming (allow_stale_session incoming v)
allow_stale_session-IsFair incoming SessionValidationOutcome.denied = tt
allow_stale_session-IsFair incoming (SessionValidationOutcome.unauthenticated code) = refl
allow_stale_session-IsFair incoming (SessionValidationOutcome.authenticated v) = refl

module _ (env : Environment) (config : KernelConfig) (plugins : List (Plugin World))
    (policies : List (Policy World)) where
  abbrev pub kernel_of : Kernel World
  kernel_of = auth_kernel env config plugins policies

  validate-Reads :
      (credential : Option SessionTransport) → Reads (λ v. Unit {0}) (validate env credential)
  validate-Reads credential = record {
    result = λ w. OnValue-trivial (validate env credential w).0;
    same = λ w. validate_reads env w credential;
  }

  pub gate_session-Reads :
      (incoming : RequestContext) → Reads (IsFair incoming) (gate_session kernel_of incoming)
  unfolding gate_session
  gate_session-Reads incoming =
      Reads-bind (λ v. pure (require_session incoming v))
        (λ v t. Reads-pure (require_session incoming v) (require_session-IsFair incoming v))
        (validate env incoming.credential) (validate-Reads incoming.credential)

  gate_logout-Reads :
      (incoming : RequestContext) (credential : Option SessionTransport)
      → Reads (IsFair incoming) (gate_logout kernel_of incoming credential)
  unfolding gate_logout
  gate_logout-Reads incoming none = Reads-pure _ refl
  gate_logout-Reads incoming (some credential) =
      Reads-bind (λ v. pure (allow_stale_session incoming v))
        (λ v t. Reads-pure (allow_stale_session incoming v) (allow_stale_session-IsFair incoming v))
        (validate env (some credential)) (validate-Reads (some credential))

  gate_logout_all-Reads :
      (incoming : RequestContext) (credential : Option SessionTransport)
      → Reads (IsFair incoming) (gate_logout_all kernel_of incoming credential)
  unfolding gate_logout_all
  gate_logout_all-Reads incoming none = Reads-pure _ tt
  gate_logout_all-Reads incoming (some credential) =
      Reads-bind (λ v. pure (require_session incoming v))
        (λ v t. Reads-pure (require_session incoming v) (require_session-IsFair incoming v))
        (validate env (some credential)) (validate-Reads (some credential))

  -- The gate of every action reads only.
  pub gate-Reads :
      (action : SupportedAction) (incoming : RequestContext)
      → Reads (IsFair incoming) (gate kernel_of action incoming)
  unfolding gate
  gate-Reads SupportedAction.get_session incoming = gate_session-Reads incoming
  gate-Reads SupportedAction.refresh_session incoming = gate_session-Reads incoming
  gate-Reads SupportedAction.logout incoming = gate_logout-Reads incoming incoming.credential
  gate-Reads SupportedAction.logout_all incoming =
      gate_logout_all-Reads incoming incoming.credential
  gate-Reads _ incoming = Reads-pure _ refl
