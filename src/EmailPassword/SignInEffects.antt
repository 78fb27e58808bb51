-- ===== src/EmailPassword/SignInEffects.antt =====
-- What signing in does over the Postgres storage
-- (packages/core/src/plugins/email-password/plugin.ts).
use authia.Prelude.{
  ◌+◌, ◌≡◌, refl, sym, ap, subst, ◌∙◌, ◌⊎◌, inl, inr, Bool, true, false, String, Option, none, some,
  arith,
}
use authia.Contracts.Actions.{SupportedAction}
use authia.Contracts.Sessions.{User, LocalIdentity}
use authia.Contracts.Results.{RequestContext, AuthResult}
use authia.Contracts.Services.{IssuedSession}
use authia.Io.{Completion}
use authia.Io.Inversion.{Yields, bind_cases, bind-Yields, or_roll_back-Yields}
use authia.Postgres.Tables.{Database}
use authia.Postgres.Connection.{World, Client}
use authia.Postgres.Accounts.{find_user, find_identity}
use authia.Postgres.Additions.{working_on}
use authia.Postgres.Rows.{In}
use authia.Postgres.Transactions.{create_transactional_storage}
use authia.Postgres.Inside.{sign_in_transaction-StaysInside}
use authia.Postgres.Atomicity.{opened, result_database}
use authia.Postgres.Refusals.{sign_in_transaction-RollsBack}
use authia.Postgres.Caught.{IsRefused, caught, EndsWith, caught-EndsWith}
use authia.Session.Issue.{add_session, IsIssued, issue_session-IsIssued}
use authia.EmailPassword.Input.{storage_unavailable}
use authia.EmailPassword.Accounts.{
  session_result, sign_in_transaction, sign_in_user, sign_in_verified, sign_in_identity,
  sign_in_checked, execute_sign_in,
}
use authia.EmailPassword.SignUp.{body_credentials}
use authia.System.{Environment, services}
use authia.EmailPassword.Lookups.{
  FindsIdentity, find_identity_finds, FindsUser, find_user_finds, verify_secret_answers,
}

module _ (env : Environment) where
  abbrev Issues : RequestContext → User → Database → AuthResult → Database → Type 0
  Issues context user d r d' =
      (issued : IssuedSession) × (r
        ≡ session_result SupportedAction.sign_in_with_password user issued)
      × (d' ≡ add_session d issued)
      × IsIssued env d user context issued

  sign_in_transaction_adds :
      (d : Database) (context : RequestContext) (user : User) (w w' : World) (r : AuthResult)
      → w.working ≡ some (working_on d)
      → Yields
          (sign_in_transaction
            (services env)
            context
            user
            (create_transactional_storage env.backend Client.client))
          w
          r
          w'
      → Issues context user d r (result_database w')
  unfolding sign_in_transaction
  sign_in_transaction_adds d context user w w' r open_ h =
      let (issued, w1, started, h1) = bind-Yields _ _ h in
      let (open1, session) =
        issue_session-IsIssued env d user context w w1 issued open_
          (or_roll_back-Yields _ started) in
      (issued, ground arith, ground arith, session)

  abbrev sign_in_caught : World → RequestContext → User → Completion AuthResult × World
  sign_in_caught w context user =
      caught env.backend (sign_in_transaction (services env) context user) w
        (storage_unavailable "Sign-in transaction failed unexpectedly.")

  sign_in_caught-EndsWith :
      (context : RequestContext) (user : User) (w : World)
      → w.working ≡ none
      → EndsWith env.backend
          (sign_in_transaction (services env) context user)
          w
          (storage_unavailable "Sign-in transaction failed unexpectedly.")
          (Issues context user w.committed)
          (sign_in_caught w context user)
  sign_in_caught-EndsWith context user w idle =
      caught-EndsWith env.backend (sign_in_transaction (services env) context user) w
        (storage_unavailable "Sign-in transaction failed unexpectedly.")
        (Issues context user w.committed) idle
        (sign_in_transaction-StaysInside env w.committed (w.leased + 1) context user)
        (sign_in_transaction-RollsBack env context user)
        (λ r w' h. sign_in_transaction_adds w.committed context user (opened w) w' r refl h)

  -- Signing in as this user, whose password fits the identity of the email, with a new session.
  pub record IsSignedIn (d d' : Database) (context : RequestContext) (email password : String)
      (user : User) (issued : IssuedSession) : Type 0 where
    pub identity : LocalIdentity
    pub identity_stored : In identity d.local_identities
    pub email_of : identity.normalized_email ≡ email
    pub password_fits : env.dependencies.verify_secret password identity.password_hash ≡ some true
    pub user_stored : In user d.users
    pub owner : user.id ≡ identity.user_id
    pub tables : d' ≡ add_session d issued
    pub session : IsIssued env d user context issued

  -- How signing in ends from these tables, for the credentials of the body.
  abbrev pub SignInEnds :
      RequestContext → Option (String × String) → Database → Completion AuthResult × World → Type 0
  SignInEnds context credentials d (c, w') =
      (IsRefused c × (w'.committed ≡ d))
      ⊎ ((email : String) × (password : String) × (user : User) × (issued : IssuedSession)
          × (credentials ≡ some (email, password))
          × (c
              ≡ Completion.value (session_result SupportedAction.sign_in_with_password user issued))
          × IsSignedIn d w'.committed context email password user issued)

  -- The identity is known and the password fits.
  abbrev Known : Database → String → String → LocalIdentity → Type 0
  Known d email password identity =
      In identity d.local_identities
      × (identity.normalized_email ≡ email)
      × (env.dependencies.verify_secret password identity.password_hash ≡ some true)

  sign_in_user_ends :
      (context : RequestContext) (email password : String) (identity : LocalIdentity)
      (found : Option User) (w : World)
      → w.working ≡ none
      → Known w.committed email password identity
      → FindsUser env w.committed identity.user_id (Completion.value found)
      → SignInEnds context
          (some (email, password))
          w.committed
          (sign_in_user (services env) context found w)
  unfolding sign_in_user
  sign_in_user_ends context email password identity none w idle known found = inl (tt, refl)
  sign_in_user_ends context email password identity (some user) w idle (stored, email_is, fits)
        (user_stored, owner) =
      elim (sign_in_caught-EndsWith context user w idle) [
        | inl refused ↦ inl refused
        | inr (r, same, (issued, result, tables, session)) ↦ inr (
          email,
          password,
          user,
          issued,
          refl,
          same ∙ ap Completion.value result,
          record {
            identity = identity;
            identity_stored = stored;
            email_of = email_is;
            password_fits = fits;
            user_stored = user_stored;
            owner = owner;
            tables = tables;
            session = session;
          },
        )
      ]

  sign_in_verified_ends :
      (context : RequestContext) (email password : String) (identity : LocalIdentity)
      (verified : Bool) (w : World)
      → w.working ≡ none
      → In identity w.committed.local_identities
      → identity.normalized_email ≡ email
      → env.dependencies.verify_secret password identity.password_hash ≡ some verified
      → SignInEnds context
          (some (email, password))
          w.committed
          (sign_in_verified (services env) context identity verified w)
  unfolding sign_in_verified
  sign_in_verified_ends context email password identity false w idle stored email_is fits =
      inl (tt, refl)
  sign_in_verified_ends context email password identity true w idle stored email_is fits =
      bind_cases (SignInEnds context (some (email, password)) w.committed)
        (find_user env.backend Client.pool identity.user_id) (sign_in_user (services env) context) w
        (λ found w1 h.
          let (same, still, finds) =
            find_user_finds env identity.user_id w w1 (Completion.value found) h.ran in
          subst
            (λ d.
              SignInEnds context (some (email, password)) d
                (sign_in_user (services env) context found w1))
            same
            (sign_in_user_ends context email password identity found w1 (still ∙ idle)
              (subst (λ d. Known d email password identity) (sym same) (stored, email_is, fits))
              (subst (λ d. FindsUser env d identity.user_id (Completion.value found)) (sym same)
                finds)))
        (λ e w1 h. inl (tt, (find_user_finds env identity.user_id w w1 (Completion.error e) h).0))
        (λ t w1 h. absurd (find_user_finds env identity.user_id w w1 (Completion.threw t) h).2)

  sign_in_identity_ends :
      (context : RequestContext) (email password : String) (found : Option LocalIdentity)
      (w : World)
      → w.working ≡ none
      → FindsIdentity env w.committed email (Completion.value found)
      → SignInEnds context
          (some (email, password))
          w.committed
          (sign_in_identity (services env) context password found w)
  unfolding sign_in_identity
  sign_in_identity_ends context email password none w idle finds = inl (tt, refl)
  sign_in_identity_ends context email password (some identity) w idle (stored, email_is) =
      bind_cases (SignInEnds context (some (email, password)) w.committed)
        ((services env).crypto.verify_secret password identity.password_hash)
        (sign_in_verified (services env) context identity) w
        (λ verified w1 h.
          let (same, fits) =
            verify_secret_answers env password identity.password_hash w w1
              (Completion.value verified) h.ran in
          subst
            (λ v.
              SignInEnds context (some (email, password)) w.committed
                (sign_in_verified (services env) context identity verified v))
            (sym same)
            (sign_in_verified_ends context email password identity verified w idle stored email_is
              fits))
        (λ e w1 h. inl (
          tt,
          ap (λ v. v.committed)
              (verify_secret_answers env password identity.password_hash w w1 (Completion.error e)
                h).0,
        ))
        (λ t w1 h.
          absurd
            (verify_secret_answers env password identity.password_hash w w1 (Completion.threw t)
              h).1)

  sign_in_checked_ends :
      (context : RequestContext) (credentials : Option (String × String)) (w : World)
      → w.working ≡ none
      → SignInEnds context credentials w.committed
          (sign_in_checked (services env) context credentials w)
  unfolding sign_in_checked
  sign_in_checked_ends context none w idle = inl (tt, refl)
  sign_in_checked_ends context (some (email, password)) w idle =
      bind_cases (SignInEnds context (some (email, password)) w.committed)
        (find_identity env.backend Client.pool email)
        (sign_in_identity (services env) context password) w
        (λ found w1 h.
          let (same, still, finds) =
            find_identity_finds env email w w1 (Completion.value found) h.ran in
          subst
            (λ d.
              SignInEnds context (some (email, password)) d
                (sign_in_identity (services env) context password found w1))
            same
            (sign_in_identity_ends context email password found w1 (still ∙ idle)
              (subst (λ d. FindsIdentity env d email (Completion.value found)) (sym same) finds)))
        (λ e w1 h. inl (tt, (find_identity_finds env email w w1 (Completion.error e) h).0))
        (λ t w1 h. absurd (find_identity_finds env email w w1 (Completion.threw t) h).2)

  -- Signing in, outside any other transaction, either grants nothing and leaves the committed tables
  -- as they were, or adds exactly one session, for the stored user of a stored identity that has the
  -- email of the body and a hash that its password fits.
  pub sign_in_all_or_nothing :
      (context : RequestContext) (w : World)
      → w.working ≡ none
      → SignInEnds context
          (body_credentials env context)
          w.committed
          (execute_sign_in (services env) context w)
  unfolding execute_sign_in
  sign_in_all_or_nothing context w idle =
      sign_in_checked_ends context (body_credentials env context) w idle
