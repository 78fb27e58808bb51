-- ===== src/EmailPassword/SignUp.antt =====
-- What signing up does to the tables, over the Postgres storage
-- (packages/core/src/plugins/email-password/plugin.ts).
use authia.Prelude.{
  ℕ, ◌+◌, ◌≡◌, refl, ap, ◌∙◌, ◌⊎◌, inl, inr, String, false, Option, none, some, any, arith,
}
use authia.Contracts.Actions.{SupportedAction}
use authia.Contracts.Sessions.{User, LocalIdentity}
use authia.Contracts.Results.{RequestContext, AuthResult, body_field}
use authia.Contracts.Services.{IssuedSession}
use authia.Io.{Completion}
use authia.Io.Inversion.{Yields, bind-Yields, on_error-Yields, or_roll_back-Yields}
use authia.Postgres.Tables.{Database}
use authia.Postgres.Connection.{World, Client}
use authia.Postgres.Accounts.{has_email, has_user}
use authia.Postgres.Additions.{
  working_on, add_user, add_identity, create_user_adds, create_identity_adds,
}
use authia.Postgres.Transactions.{create_transactional_storage}
use authia.Postgres.Inside.{sign_up_transaction-StaysInside}
use authia.Postgres.Atomicity.{opened, result_database}
use authia.Postgres.Refusals.{sign_up_transaction-RollsBack}
use authia.Postgres.Caught.{IsRefused, caught-EndsWith}
use authia.Session.Issue.{add_session, IsIssued, issue_session-IsIssued}
use authia.EmailPassword.Input.{checked_credentials, storage_unavailable}
use authia.EmailPassword.Accounts.{
  session_result, identity_outcome, sign_up_transaction, sign_up_checked, execute_sign_up,
}
use authia.System.{Environment, services}

module _ (env : Environment) where
  -- The tables after signing up: a new user, its identity for an email that had none, with a hash
  -- of the password, and its session.
  pub record IsSignedUp (d d' : Database) (context : RequestContext) (email password : String)
      (user : User) (issued : IssuedSession) : Type 0 where
    pub identity : LocalIdentity
    pub tables : d' ≡ add_session (add_identity (add_user d user) identity) issued
    pub new_user : has_user d user.id ≡ false
    pub owner : identity.user_id ≡ user.id
    pub email_of : identity.normalized_email ≡ email
    pub new_email : any (has_email email) d.local_identities ≡ false
    pub salt : ℕ
    pub hashed : env.dependencies.hash_secret salt password ≡ some identity.password_hash
    pub session : IsIssued env (add_identity (add_user d user) identity) user context issued

  sign_up_transaction_adds :
      (d : Database) (context : RequestContext) (email password : String) (w w' : World)
      (r : AuthResult)
      → w.working ≡ some (working_on d)
      → Yields
          (sign_up_transaction
            (services env)
            context
            email
            password
            (create_transactional_storage env.backend Client.client))
          w
          r
          w'
      → (user : User) × (issued : IssuedSession) × (r
          ≡ session_result SupportedAction.sign_up_with_password user issued)
        × IsSignedUp d (result_database w') context email password user issued
  unfolding sign_up_transaction
  sign_up_transaction_adds d context email password w w' r open_ h =
      let (hash, w1, hashed, h1) = bind-Yields _ _ h in
      let (user, w2, created, h2) = bind-Yields _ _ h1 in
      let (identity, w3, linked, h3) = bind-Yields _ _ h2 in
      let (issued, w4, started, h4) = bind-Yields _ _ h3 in
      let hashed' = or_roll_back-Yields _ hashed in
      let (open2, new_user) =
        create_user_adds env.backend d w1 w2 user (ground arith) (or_roll_back-Yields _ created) in
      let (open3, owner, email_of, hash_of, new_email, known) =
        create_identity_adds env.backend (add_user d user) user.id email hash w2 w3 identity open2
          (on_error-Yields _ identity_outcome linked) in
      let (open4, session) =
        issue_session-IsIssued env (add_identity (add_user d user) identity) user context w3 w4
          issued open3 (or_roll_back-Yields _ started) in
      (
        user,
        issued,
        ground arith,
        record {
          identity = identity;
          tables = ground arith;
          new_user = new_user;
          owner = owner;
          email_of = email_of;
          new_email = new_email;
          salt = w.step;
          hashed = ground arith;
          session = session;
        },
      )

  -- The email and the password of the body, if they pass the checks.
  abbrev pub body_credentials : RequestContext → Option (String × String)
  body_credentials context =
      checked_credentials env.platform (body_field (λ b. b.email) context)
        (body_field (λ b. b.password) context)

  -- How signing up ends: refused with the tables as they were, or with all of its rows.
  abbrev pub SignUpEnds : RequestContext → World → Completion AuthResult × World → Type 0
  SignUpEnds context w (c, w') =
      (IsRefused c × (w'.committed ≡ w.committed))
      ⊎ ((email : String) × (password : String) × (user : User) × (issued : IssuedSession)
          × (body_credentials context ≡ some (email, password))
          × (c
              ≡ Completion.value (session_result SupportedAction.sign_up_with_password user issued))
          × IsSignedUp w.committed w'.committed context email password user issued)

  -- The result of the callback, and its tables.
  abbrev Joins : RequestContext → String → String → Database → AuthResult → Database → Type 0
  Joins context email password d r d' =
      (user : User) × (issued : IssuedSession) × (r
        ≡ session_result SupportedAction.sign_up_with_password user issued)
      × IsSignedUp d d' context email password user issued

  sign_up_checked_ends :
      (context : RequestContext) (credentials : Option (String × String)) (w : World)
      → body_credentials context ≡ credentials
      → w.working ≡ none
      → SignUpEnds context w (sign_up_checked (services env) context credentials w)
  unfolding sign_up_checked
  sign_up_checked_ends context none w e idle = inl (tt, refl)
  sign_up_checked_ends context (some (email, password)) w e idle =
      let ends =
        caught-EndsWith env.backend (sign_up_transaction (services env) context email password) w
          (storage_unavailable "Sign-up transaction failed unexpectedly.")
          (Joins context email password w.committed) idle
          (sign_up_transaction-StaysInside env w.committed (w.leased + 1) context email password)
          (sign_up_transaction-RollsBack env context email password)
          (λ r w' h.
            sign_up_transaction_adds w.committed context email password (opened w) w' r refl h) in
      elim ends [
        | inl refused ↦ inl refused
        | inr (r, same, (user, issued, result, added)) ↦
            inr (email, password, user, issued, e, same ∙ ap Completion.value result, added)
      ]

  -- Signing up, outside any other transaction, either grants nothing and leaves the committed
  -- tables as they were, or adds exactly one user, one identity for a new email with a hash of the
  -- password, and one session.
  pub sign_up_all_or_nothing :
      (context : RequestContext) (w : World)
      → w.working ≡ none
      → SignUpEnds context w (execute_sign_up (services env) context w)
  unfolding execute_sign_up
  sign_up_all_or_nothing context w idle =
      sign_up_checked_ends context (body_credentials context) w refl idle
