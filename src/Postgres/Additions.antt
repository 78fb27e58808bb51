-- ===== src/Postgres/Additions.antt =====
-- The rows that the repositories of packages/storage-postgres add to an open transaction.
use authia.Prelude.{◌≡◌, String, true, false, some, [], ◌∷◌, ◌++◌, ◌==◌, any, arith}
use authia.Contracts.Sessions.{User, LocalIdentity}
use authia.Io.{io}
use authia.Io.Inversion.{Yields}
use authia.Postgres.Tables.{Database}
use authia.Postgres.Rows.{any-or}
use authia.Postgres.Connection.{Backend, World, Working, Client, query}
use authia.Postgres.Accounts.{
  insert_user, insert_identity, has_user, has_email, create_user, create_identity,
}

-- An open transaction over these tables.
abbrev pub working_on : Database → Working
working_on database = record { database = database; aborted = false }

abbrev pub add_user : Database → User → Database
add_user d user = record d { users = d.users ++ user ∷ [] }

abbrev pub add_identity : Database → LocalIdentity → Database
add_identity d identity = record d { local_identities = d.local_identities ++ identity ∷ [] }

module _ (backend : Backend) where
  pub create_user_adds :
      (d : Database) (w w' : World) (user : User)
      → w.working ≡ some (working_on d)
      → Yields (create_user backend Client.client) w user w'
      → (w'.working ≡ some (working_on (add_user d user))) × (has_user d user.id ≡ false)
  unfolding io create_user query insert_user
  create_user_adds d w w' user opened h = ground arith

  pub create_identity_adds :
      (d : Database) (user_id email hash : String) (w w' : World) (identity : LocalIdentity)
      → w.working ≡ some (working_on d)
      → Yields (create_identity backend Client.client user_id email hash) w identity w'
      → (w'.working ≡ some (working_on (add_identity d identity)))
        × (identity.user_id ≡ user_id)
        × (identity.normalized_email ≡ email)
        × (identity.password_hash ≡ hash)
        × (any (has_email email) d.local_identities ≡ false)
        × (has_user d user_id ≡ true)
  unfolding io create_identity query insert_identity
  create_identity_adds d user_id email hash w w' identity opened h =
      ground (arith, any-or (λ i. i.id == backend.uuid w.step) (has_email email) d.local_identities)
