-- ===== src/Postgres/Accounts.antt =====
-- packages/storage-postgres/src/repositories: users-repository.ts, identities-repository.ts and
-- oauth-identities-repository.ts.
use authia.Prelude.{String, Bool, not, ◌==◌, ◌&&◌, ◌||◌, Option, List, [], ◌∷◌, ◌++◌, any}
use authia.Contracts.Sessions.{User, LocalIdentity}
use authia.Contracts.Storage.{OauthIdentity, Users, Identities, OauthIdentities}
use authia.Io.{Io, pure, ◌>>=◌}
use authia.Postgres.Tables.{
  Database, Answer, Statement, select, update, returning, first, insert_if,
}
use authia.Postgres.Connection.{
  Backend, World, Client, query, random_uuid, date_now, guarded, guarded_unique,
}

abbrev pub has_user : Database → String → Bool
has_user database id = any (λ u. u.id == id) database.users

unfoldable pub insert_user : User → Statement User
insert_user row database =
    insert_if (has_user database row.id) Bool.false row
      (record database { users = database.users ++ row ∷ [] })

unfoldable pub select_user : String → Statement (List User)
select_user id database = Answer.answered (select (λ u. u.id == id) database.users) database

unfoldable pub insert_identity : LocalIdentity → Statement LocalIdentity
insert_identity row database =
    insert_if
      (any (λ i. i.id == row.id || i.normalized_email == row.normalized_email)
        database.local_identities)
      (not (has_user database row.user_id)) row
      (record database { local_identities = database.local_identities ++ row ∷ [] })

abbrev pub has_email : String → LocalIdentity → Bool
has_email email identity = identity.normalized_email == email

unfoldable pub select_identity_by_email : String → Statement (List LocalIdentity)
select_identity_by_email email database =
    Answer.answered (select (has_email email) database.local_identities) database

unfoldable pub select_identities_by_user : String → Statement (List LocalIdentity)
select_identities_by_user user_id database =
    Answer.answered (select (λ i. i.user_id == user_id) database.local_identities) database

abbrev pub with_password_hash : String → LocalIdentity → LocalIdentity
with_password_hash password_hash identity = record identity { password_hash = password_hash }

unfoldable pub update_password_hash : String → String → Statement (List LocalIdentity)
update_password_hash email password_hash database =
    Answer.answered
      (returning (has_email email) (with_password_hash password_hash) database.local_identities)
      (record database {
        local_identities =
            update (has_email email) (with_password_hash password_hash) database.local_identities;
      })

abbrev pub has_subject : String → String → OauthIdentity → Bool
has_subject provider subject i = i.provider == provider && i.provider_subject == subject

unfoldable pub insert_oauth_identity : OauthIdentity → Statement OauthIdentity
insert_oauth_identity row database =
    insert_if
      (any (λ i. i.id == row.id || has_subject row.provider row.provider_subject i)
        database.oauth_identities)
      (not (has_user database row.user_id)) row
      (record database { oauth_identities = database.oauth_identities ++ row ∷ [] })

unfoldable pub select_oauth_identity : String → String → Statement (List OauthIdentity)
select_oauth_identity provider subject database =
    Answer.answered (select (has_subject provider subject) database.oauth_identities) database

module _ (backend : Backend) (via : Client) where
  unfoldable pub create_user : Io World User
  create_user = guarded "Failed to create user" (do
    id ← random_uuid backend
    created_at ← date_now backend
    query backend via (insert_user (record { id = id; created_at = created_at })))

  unfoldable pub find_user : String → Io World (Option User)
  find_user id =
      guarded "Failed to find user"
        (do rows ← query backend via (select_user id); pure (first rows))

  abbrev pub create_users_repository : Users World
  create_users_repository = record { create = create_user; find = find_user }

  unfoldable pub create_identity : String → String → String → Io World LocalIdentity
  create_identity user_id normalized_email password_hash =
      guarded_unique "Failed to create identity" (do
        id ← random_uuid backend
        query backend via (
            insert_identity (record {
              id = id;
              user_id = user_id;
              normalized_email = normalized_email;
              password_hash = password_hash;
            })))

  unfoldable pub find_identity : String → Io World (Option LocalIdentity)
  find_identity email =
      guarded "Failed to find identity by email"
        (do rows ← query backend via (select_identity_by_email email); pure (first rows))

  unfoldable pub update_identity_password : String → String → Io World (Option LocalIdentity)
  update_identity_password email password_hash =
      guarded "Failed to update identity password hash"
        (do rows ← query backend via (update_password_hash email password_hash); pure (first rows))

  abbrev pub create_identities_repository : Identities World
  create_identities_repository = record {
    create = create_identity;
    find_by_normalized_email = find_identity;
    list_by_user = λ user_id.
        guarded "Failed to list identities" (query backend via (select_identities_by_user user_id));
    update_password_hash_by_normalized_email = update_identity_password;
  }

  unfoldable pub create_oauth_identity : String → String → String → Io World OauthIdentity
  create_oauth_identity user_id provider provider_subject =
      guarded_unique "Failed to create OAuth identity" (do
        id ← random_uuid backend
        query backend via (
            insert_oauth_identity (record {
              id = id;
              user_id = user_id;
              provider = provider;
              provider_subject = provider_subject;
            })))

  abbrev pub create_oauth_identities_repository : OauthIdentities World
  create_oauth_identities_repository = record {
    create = create_oauth_identity;
    find_by_provider_subject = λ provider subject.
        guarded "Failed to find OAuth identity by provider subject"
          (do rows ← query backend via (select_oauth_identity provider subject); pure (first rows));
  }
