-- ===== src/Oauth/Race.antt =====
-- A callback of the OAuth plugin that another request has overtaken: it found no identity of the
-- subject, and the one that it created was a duplicate (packages/core/src/plugins/oauth/plugin.ts).
use authia.Prelude.{◌≡◌, refl, ◌+◌, ◌⊎◌, true, String, Option, none, some}
use authia.Contracts.Errors.{AuthError, is_duplicate_identity}
use authia.Contracts.Results.{RequestContext, AuthResult, Reply}
use authia.Contracts.Sessions.{User}
use authia.Contracts.Storage.{TransactionalStorage, OauthIdentities, OauthIdentity}
use authia.Io.{Thrown, Completion, io}
use authia.Io.Inversion.{Yields, bind-Yields, or_roll_back-Yields}
use authia.Postgres.Tables.{Database}
use authia.Postgres.Rows.{In}
use authia.Postgres.Accounts.{has_subject}
use authia.Postgres.Connection.{World, Client}
use authia.Postgres.Transactions.{create_transactional_storage}
use authia.Postgres.Inside.{retry_transaction-StaysInside}
use authia.Postgres.Refusals.{retry_transaction-RollsBack}
use authia.Postgres.Additions.{working_on}
use authia.Postgres.Atomicity.{opened, result_database}
use authia.Postgres.Caught.{IsRefused, caught-EndsWith}
use authia.EmailPassword.Input.{storage_unavailable}
use authia.Oauth.Finish.{
  link_user, issue_for_identity, retry_transaction, retry_callback, recover_callback,
  callback_transaction,
}
use authia.Oauth.Config.{race_retry}
use authia.Oauth.Linking.{FindsSubject, find_subject_inside}
use authia.Oauth.Effects.{IsGiven, issue_session_for_user_gives}
use authia.System.{Environment, services}

module _ (env : Environment) (context : RequestContext) (provider subject : String) where
  -- A session for the user of a stored identity of the subject, which the tables then have as well; no
  -- user and no identity is added.
  pub record IsKnown (d d' : Database) (r : AuthResult) : Type 0 where
    pub identity : OauthIdentity
    pub stored : In identity d.oauth_identities
    pub of_subject : has_subject provider subject identity ≡ true
    pub given : IsGiven env d d' context identity.user_id r

  identity_gives :
      (d : Database) (found : Option OauthIdentity) (w w' : World) (r : AuthResult)
      → w.working ≡ some (working_on d)
      → FindsSubject env provider subject d found
      → Yields
          (issue_for_identity
            (services env)
            context
            (create_transactional_storage env.backend Client.client)
            found)
          w
          r
          w'
      → IsKnown d (result_database w') r
  identity_gives d none w w' r open_ finds h = let x = h.ran in cc
  identity_gives d (some i) w w' r open_ finds h =
      let (stored, of_subject) = finds i refl in
      record {
        identity = i;
        stored = stored;
        of_subject = of_subject;
        given = issue_session_for_user_gives env d context i.user_id w w' r open_ h;
      }

  retry_transaction_knows :
      (d : Database) (w w' : World) (r : AuthResult)
      → w.working ≡ some (working_on d)
      → Yields
          (retry_transaction
            (services env)
            context
            provider
            subject
            (create_transactional_storage env.backend Client.client))
          w
          r
          w'
      → IsKnown d (result_database w') r
  unfolding retry_transaction
  retry_transaction_knows d w w' r open_ h =
      let (found, w1, searched, h1) = bind-Yields _ _ h in
      let (open1, finds) =
        find_subject_inside env d provider subject w w1 found open_
          (or_roll_back-Yields _ searched) in
      identity_gives d found w1 w' r open1 finds h1

  -- How the retry ends: refused, with the tables as it found them, or with a session for the user who
  -- is known by the subject.
  abbrev pub RetryEnds : Database → Completion AuthResult × World → Type 0
  RetryEnds d (c, w') =
      (IsRefused c × (w'.committed ≡ d))
      ⊎ ((r : AuthResult) × (c ≡ Completion.value r) × IsKnown d w'.committed r)

  pub retry_callback-RetryEnds :
      (v : World)
      → v.working ≡ none
      → RetryEnds v.committed (retry_callback (services env) context provider subject v)
  unfolding retry_callback
  retry_callback-RetryEnds v idle =
      caught-EndsWith env.backend (retry_transaction (services env) context provider subject) v
        (storage_unavailable "OAuth callback retry transaction failed unexpectedly.")
        (λ r d. IsKnown v.committed d r) idle
        (retry_transaction-StaysInside env v.committed (v.leased + 1) context provider subject)
        (retry_transaction-RollsBack env context provider subject)
        (λ r w' h. retry_transaction_knows v.committed (opened v) w' r refl h)

  -- A callback that found no identity of the subject, and whose new one is a duplicate, because
  -- another request has linked the subject in the meantime, is rolled back with an outcome on which the
  -- catch block retries, in whatever tables it then finds. The retry either grants nothing and leaves
  -- them as they are, or adds one session, for the user of an identity of the subject that is stored in
  -- them. It adds no user and no identity.
  pub sign_in_subject_raced :
      (tx : TransactionalStorage World) (identities : OauthIdentities World) (user : User)
      (e : AuthError) (w w1 w2 w3 v : World)
      → tx.oauth_identities ≡ some identities
      → identities.find_by_provider_subject provider subject w ≡ (Completion.value none, w1)
      → tx.users.create w1 ≡ (Completion.value user, w2)
      → identities.create user.id provider subject w2 ≡ (Completion.error e, w3)
      → is_duplicate_identity e.code ≡ true
      → v.working ≡ none
      → (outcome : Reply) × (callback_transaction (services env) context provider subject tx w
          ≡ (Completion.threw (Thrown.signal outcome), w3))
        × (recover_callback (services env) context provider subject (Thrown.signal outcome) v
            ≡ retry_callback (services env) context provider subject v)
        × RetryEnds v.committed
            (recover_callback (services env) context provider subject (Thrown.signal outcome) v)
  unfolding callback_transaction link_user io
  sign_in_subject_raced tx identities user e w w1 w2 w3 v linked finds creates fails duplicate
        idle =
      (
        Reply.failure (storage_unavailable race_retry),
        rw linked (rw finds (rw creates (rw fails (rw duplicate refl)))),
        refl,
        retry_callback-RetryEnds v idle,
      )
