-- ===== src/Oauth/Effects.antt =====
-- What the callback of the OAuth plugin does to the tables, over the Postgres storage
-- (packages/core/src/plugins/oauth/plugin.ts).
use authia.Prelude.{◌≡◌, refl, String, Option, none, some, ◌==◌, eq_iff, arith}
use authia.Contracts.Actions.{SupportedAction}
use authia.Contracts.Sessions.{User}
use authia.Contracts.Results.{RequestContext, AuthResult}
use authia.Contracts.Services.{IssuedSession}
use authia.Io.{io}
use authia.Io.Inversion.{Yields, bind-Yields, or_roll_back-Yields}
use authia.Postgres.Tables.{Database}
use authia.Postgres.Connection.{World, Client, query}
use authia.Postgres.Accounts.{find_user, select_user}
use authia.Postgres.Rows.{In, first-select-In}
use authia.Postgres.Additions.{working_on}
use authia.Postgres.Transactions.{create_transactional_storage}
use authia.Postgres.Atomicity.{result_database}
use authia.Session.Issue.{add_session, IsIssued, issue_session-IsIssued}
use authia.EmailPassword.Accounts.{session_result}
use authia.Oauth.Finish.{linked_user, issue_for_found, issue_session_for_user, callback_transaction}
use authia.System.{Environment, services}
use authia.Oauth.Linking.{find_subject_inside, Settles, link_user-Settles}

module _ (env : Environment) where
  find_user_inside :
      (d : Database) (id : String) (w w' : World) (r : Option User)
      → w.working ≡ some (working_on d)
      → Yields (find_user env.backend Client.client id) w r w'
      → (w'.working ≡ some (working_on d)) × ((u : User) → r ≡ some u → In u d.users × (u.id ≡ id))
  unfolding io find_user query select_user
  find_user_inside d id w w' r open_ h = (
    ground arith,
    λ u e. ground (arith, first-select-In (λ v. v.id == id) d.users u, eq_iff u.id id),
  )

  -- The session that the user gets.
  pub record IsGiven (d d' : Database) (context : RequestContext) (user_id : String)
      (r : AuthResult) : Type 0 where
    pub user : User
    pub issued : IssuedSession
    pub user_stored : In user d.users
    pub owner : user.id ≡ user_id
    pub result : r ≡ session_result SupportedAction.finish_oauth user issued
    pub session : IsIssued env d user context issued
    pub tables : d' ≡ add_session d issued

  issue_for_found_gives :
      (d : Database) (context : RequestContext) (user_id : String) (found : Option User)
      (w w' : World) (r : AuthResult)
      → w.working ≡ some (working_on d)
      → ((u : User) → found ≡ some u → In u d.users × (u.id ≡ user_id))
      → Yields
          (issue_for_found
            (services env)
            context
            (create_transactional_storage env.backend Client.client)
            found)
          w
          r
          w'
      → IsGiven d (result_database w') context user_id r
  issue_for_found_gives d context user_id none w w' r open_ finds h = let ran = h.ran in cc
  issue_for_found_gives d context user_id (some user) w w' r open_ finds h =
      let (issued, w1, started, h1) = bind-Yields _ _ h in
      let (open1, session) =
        issue_session-IsIssued env d user context w w1 issued open_
          (or_roll_back-Yields _ started) in
      let (stored, owner) = finds user refl in
      record {
        user = user;
        issued = issued;
        user_stored = stored;
        owner = owner;
        result = ground arith;
        session = session;
        tables = ground arith;
      }

  pub issue_session_for_user_gives :
      (d : Database) (context : RequestContext) (user_id : String) (w w' : World) (r : AuthResult)
      → w.working ≡ some (working_on d)
      → Yields
          (issue_session_for_user
            (services env)
            context
            (create_transactional_storage env.backend Client.client)
            user_id)
          w
          r
          w'
      → IsGiven d (result_database w') context user_id r
  unfolding issue_session_for_user
  issue_session_for_user_gives d context user_id w w' r open_ h =
      let (found, w1, searched, h1) = bind-Yields _ _ h in
      let (open1, finds) =
        find_user_inside d user_id w w1 found open_ (or_roll_back-Yields _ searched) in
      issue_for_found_gives d context user_id found w1 w' r open1 finds h1

  -- The tables after the callback: the user of the identity is signed in, a new one if no identity
  -- has the subject.
  pub record IsFinished (d d' : Database) (context : RequestContext) (provider subject : String)
      (r : AuthResult) : Type 0 where
    pub user_id : String
    pub settled : Database
    pub settles : Settles env d settled provider subject user_id
    pub given : IsGiven settled d' context user_id r

  pub callback_transaction_finishes :
      (d : Database) (context : RequestContext) (provider subject : String) (w w' : World)
      (r : AuthResult)
      → w.working ≡ some (working_on d)
      → Yields
          (callback_transaction
            (services env)
            context
            provider
            subject
            (create_transactional_storage env.backend Client.client))
          w
          r
          w'
      → IsFinished d (result_database w') context provider subject r
  unfolding callback_transaction
  callback_transaction_finishes d context provider subject w w' r open_ h =
      let (found, w1, searched, h1) = bind-Yields _ _ h in
      let (open1, finds) =
        find_subject_inside env d provider subject w w1 found open_
          (or_roll_back-Yields _ searched) in
      let (user_id, w2, linked, h2) = bind-Yields _ _ h1 in
      let (d1, open2, settles) =
        link_user-Settles env d context provider subject found (linked_user found) user_id w1 w2
          open1 refl finds linked in
      record {
        user_id = user_id;
        settled = d1;
        settles = settles;
        given = issue_session_for_user_gives d1 context user_id w2 w' r open2 h2;
      }
