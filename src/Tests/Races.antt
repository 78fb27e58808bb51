-- ===== src/Tests/Races.antt =====
-- A callback that another request overtakes, and its retry, at concrete inputs.
use authia.Prelude.{length, ◌≡◌, refl, none, some, [], ◌∷◌}
use authia.Contracts.Actions.{SupportedAction}
use authia.Contracts.Results.{RequestContext, AuthResult, Reply}
use authia.Contracts.Storage.{TransactionalStorage, OauthIdentities, OauthIdentity}
use authia.Io.{Thrown, Completion, pure, fail}
use authia.Postgres.Connection.{World, Client, duplicate_identity}
use authia.Postgres.Transactions.{create_transactional_storage}
use authia.Oauth.Finish.{callback_transaction, recover_callback, retry_callback}
use authia.Oauth.Race.{RetryEnds, sign_in_subject_raced}
use authia.System.{services}
use authia.Tests.{env, world, tables, request, no_body, ann}

abbrev callback_request : RequestContext
callback_request = request SupportedAction.finish_oauth no_body

-- A storage in which another request links the subject between the search and the insertion.
abbrev overtaken : OauthIdentities World
overtaken = record {
  create = λ user_id provider subject. fail duplicate_identity;
  find_by_provider_subject = λ provider subject. pure none;
}

abbrev racing : TransactionalStorage World
racing = record (create_transactional_storage env.backend Client.client) {
  users = record { create = pure ann; find = λ id. pure (some ann) };
  oauth_identities = some overtaken;
}

-- The tables after the other request.
abbrev linked : OauthIdentity
linked = record {
  id = "linked";
  user_id = "ann";
  provider = "github";
  provider_subject = "ann at github";
}

abbrev won : World
won = record world { committed = record tables { oauth_identities = linked ∷ [] }; step = 9 }

sign_in_subject_raced_example :
    (outcome : Reply) × (callback_transaction
        (services env)
        callback_request
        "github"
        "ann at github"
        racing
        world
      ≡ (Completion.threw (Thrown.signal outcome), world))
    × (recover_callback
          (services env)
          callback_request
          "github"
          "ann at github"
          (Thrown.signal outcome)
          won
        ≡ retry_callback (services env) callback_request "github" "ann at github" won)
    × RetryEnds env callback_request "github" "ann at github" won.committed (
        recover_callback
          (services env)
          callback_request
          "github"
          "ann at github"
          (Thrown.signal outcome)
          won)
sign_in_subject_raced_example =
    sign_in_subject_raced env callback_request "github" "ann at github" racing overtaken ann
      duplicate_identity world world world world won refl refl refl refl refl refl

abbrev retried : Completion AuthResult × World
retried = retry_callback (services env) callback_request "github" "ann at github" won

-- The retry signs in the user whom the other request has linked.
retry_adds_one : length (retried.1.committed.sessions) ≡ 2
unfolding retry_callback authia.Oauth.Finish.retry_transaction
    authia.Oauth.Finish.issue_session_for_user authia.Io.io authia.Postgres.Connection.query
    authia.Postgres.Accounts.find_user authia.Postgres.Accounts.select_user
    authia.Postgres.Accounts.select_oauth_identity authia.Postgres.Transactions.begin_transaction
    authia.Session.issue_session authia.Postgres.SessionRows.create_session
    authia.Postgres.SessionRows.insert_session
retry_adds_one = refl
