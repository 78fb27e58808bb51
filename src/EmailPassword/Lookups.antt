-- ===== src/EmailPassword/Lookups.antt =====
-- What signing in reads before its transaction: the identity, its password and its user
-- (packages/core/src/plugins/email-password/plugin.ts).
use authia.Prelude.{◌≡◌, Bool, String, Option, none, some, arith, ◌==◌, eq_iff}
use authia.Contracts.Sessions.{User, LocalIdentity}
use authia.Io.{Completion, io}
use authia.Postgres.Tables.{Database}
use authia.Postgres.Connection.{World, Client, query}
use authia.Postgres.Accounts.{
  has_email, find_user, select_user, find_identity, select_identity_by_email,
}
use authia.Postgres.Rows.{In, first-select-In}
use authia.System.{Environment, services}

-- A test that has answered satisfies Q; it does not throw.
abbrev OnVerified : (Bool → Type 0) → Completion Bool → Type 0
OnVerified Q (Completion.value b) = Q b
OnVerified Q (Completion.error e) = Unit
OnVerified Q (Completion.threw t) = ⊥

module _ (env : Environment) where
  -- An identity that is found is stored under its email; the search changes nothing.
  abbrev pub FindsIdentity : Database → String → Completion (Option LocalIdentity) → Type 0
  FindsIdentity d email (Completion.value none) = Unit
  FindsIdentity d email (Completion.value (some i)) =
      In i d.local_identities × (i.normalized_email ≡ email)
  FindsIdentity d email (Completion.error e) = Unit
  FindsIdentity d email (Completion.threw t) = ⊥

  pub find_identity_finds :
      (email : String) (w w1 : World) (c : Completion (Option LocalIdentity))
      → find_identity env.backend Client.pool email w ≡ (c, w1)
      → (w1.committed ≡ w.committed) × (w1.working ≡ w.working) × FindsIdentity w.committed email c
  unfolding io find_identity query select_identity_by_email
  find_identity_finds email w w1 (Completion.value none) h = ground arith
  find_identity_finds email w w1 (Completion.value (some i)) h = ground (
    arith,
    first-select-In (has_email email) w.committed.local_identities i,
    eq_iff i.normalized_email email,
  )
  find_identity_finds email w w1 (Completion.error e) h = ground arith
  find_identity_finds email w w1 (Completion.threw t) h = ground arith

  abbrev pub FindsUser : Database → String → Completion (Option User) → Type 0
  FindsUser d id (Completion.value none) = Unit
  FindsUser d id (Completion.value (some u)) = In u d.users × (u.id ≡ id)
  FindsUser d id (Completion.error e) = Unit
  FindsUser d id (Completion.threw t) = ⊥

  pub find_user_finds :
      (id : String) (w w1 : World) (c : Completion (Option User))
      → find_user env.backend Client.pool id w ≡ (c, w1)
      → (w1.committed ≡ w.committed) × (w1.working ≡ w.working) × FindsUser w.committed id c
  unfolding io find_user query select_user
  find_user_finds id w w1 (Completion.value none) h = ground arith
  find_user_finds id w w1 (Completion.value (some u)) h =
      ground (arith, first-select-In (λ v. v.id == id) w.committed.users u, eq_iff u.id id)
  find_user_finds id w w1 (Completion.error e) h = ground arith
  find_user_finds id w w1 (Completion.threw t) h = ground arith

  -- The verification of a password changes nothing and does not throw.
  pub verify_secret_answers :
      (password hash : String) (w w1 : World) (c : Completion Bool)
      → (services env).crypto.verify_secret password hash w ≡ (c, w1)
      → (w1 ≡ w) × OnVerified (λ b. env.dependencies.verify_secret password hash ≡ some b) c
  verify_secret_answers password hash w w1 (Completion.value b) h = ground arith
  verify_secret_answers password hash w w1 (Completion.error e) h = ground arith
  verify_secret_answers password hash w w1 (Completion.threw t) h = ground arith
