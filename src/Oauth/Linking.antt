-- ===== src/Oauth/Linking.antt =====
-- The user that the callback of the OAuth plugin signs in, found or linked, over the Postgres storage
-- (packages/core/src/plugins/oauth/plugin.ts).
use authia.Prelude.{
  ◌≡◌, refl, ◌⊎◌, inl, inr, true, false, String, Option, none, some, [], ◌∷◌, ◌++◌, ◌==◌, any,
  arith,
}
use authia.Contracts.Sessions.{User}
use authia.Contracts.Results.{RequestContext}
use authia.Contracts.Storage.{OauthIdentity}
use authia.Io.{io}
use authia.Io.Inversion.{Yields, bind-Yields, on_error-Yields, or_roll_back-Yields}
use authia.Postgres.Tables.{Database}
use authia.Postgres.Connection.{World, Client, query}
use authia.Postgres.Accounts.{
  has_subject, insert_oauth_identity, select_oauth_identity, create_oauth_identity,
  create_oauth_identities_repository,
}
use authia.Postgres.Rows.{In, first-select-In, any-or}
use authia.Postgres.Additions.{working_on, add_user, create_user_adds}
use authia.Postgres.Transactions.{create_transactional_storage}
use authia.Oauth.Finish.{linked_user, link_outcome, link_user}
use authia.System.{Environment, services}

abbrev pub add_oauth_identity : Database → OauthIdentity → Database
add_oauth_identity d identity = record d { oauth_identities = d.oauth_identities ++ identity ∷ [] }

module _ (env : Environment) where
  -- The user of a known identity, in the same tables.
  pub record IsKnown (d d1 : Database) (provider subject user_id : String) : Type 0 where
    pub identity : OauthIdentity
    pub stored : In identity d.oauth_identities
    pub of_subject : has_subject provider subject identity ≡ true
    pub owner : user_id ≡ identity.user_id
    pub tables : d1 ≡ d

  -- A new user, linked to a subject that no identity has.
  pub record IsLinked (d d1 : Database) (provider subject user_id : String) : Type 0 where
    pub user : User
    pub identity : OauthIdentity
    pub new_subject : any (has_subject provider subject) d.oauth_identities ≡ false
    pub owner : identity.user_id ≡ user.id
    pub same_provider : identity.provider ≡ provider
    pub same_subject : identity.provider_subject ≡ subject
    pub of_user : user_id ≡ identity.user_id
    pub tables : d1 ≡ add_oauth_identity (add_user d user) identity

  create_oauth_identity_adds :
      (d : Database) (user_id provider subject : String) (w w' : World) (i : OauthIdentity)
      → w.working ≡ some (working_on d)
      → Yields (create_oauth_identity env.backend Client.client user_id provider subject) w i w'
      → (w'.working ≡ some (working_on (add_oauth_identity d i)))
        × (i.user_id ≡ user_id)
        × (i.provider ≡ provider)
        × (i.provider_subject ≡ subject)
        × (any (has_subject provider subject) d.oauth_identities ≡ false)
  unfolding io create_oauth_identity query insert_oauth_identity
  create_oauth_identity_adds d user_id provider subject w w' i open_ h = ground (
    arith,
    any-or (λ j. j.id == env.backend.uuid w.step) (has_subject provider subject) d.oauth_identities,
  )

  -- What has been found has the subject, and is stored.
  abbrev pub FindsSubject : String → String → Database → Option OauthIdentity → Type 0
  FindsSubject provider subject d found =
      (i : OauthIdentity)
      → found ≡ some i
      → In i d.oauth_identities × (has_subject provider subject i ≡ true)

  pub find_subject_inside :
      (d : Database) (provider subject : String) (w w' : World) (r : Option OauthIdentity)
      → w.working ≡ some (working_on d)
      → Yields
          ((create_oauth_identities_repository env.backend Client.client).find_by_provider_subject
            provider subject)
          w
          r
          w'
      → (w'.working ≡ some (working_on d)) × FindsSubject provider subject d r
  unfolding io query select_oauth_identity
  find_subject_inside d provider subject w w' r open_ h = (
    ground arith,
    λ i e. ground (arith, first-select-In (has_subject provider subject) d.oauth_identities i),
  )

  -- The user that the callback signs in, and the tables in which it does.
  abbrev pub Settles : Database → Database → String → String → String → Type 0
  Settles d d1 provider subject user_id =
      IsKnown d d1 provider subject user_id ⊎ IsLinked d d1 provider subject user_id

  linked_user_of :
      (found : Option OauthIdentity) (user_id : String)
      → linked_user found ≡ some user_id
      → (i : OauthIdentity) × (found ≡ some i) × (user_id ≡ i.user_id)
  linked_user_of none user_id e = cc
  linked_user_of (some i) user_id e = (i, refl, ground arith)

  pub link_user-Settles :
      (d : Database) (context : RequestContext) (provider subject : String)
      (found : Option OauthIdentity) (linked : Option String) (user_id : String) (w w' : World)
      → w.working ≡ some (working_on d)
      → linked_user found ≡ linked
      → FindsSubject provider subject d found
      → Yields
          (link_user
            (services env)
            context
            (create_transactional_storage env.backend Client.client)
            (create_oauth_identities_repository env.backend Client.client)
            provider
            subject
            linked)
          w
          user_id
          w'
      → (d1 : Database) × (w'.working ≡ some (working_on d1))
        × Settles d d1 provider subject user_id
  unfolding link_user
  link_user-Settles d context provider subject found (some id) user_id w w' open_ e finds h =
      let (i, found_is, owner) = linked_user_of found id e in
      let (stored, of_subject) = finds i found_is in
      let ran = h.ran in
      (
        d,
        ground arith,
        inl (record {
          identity = i;
          stored = stored;
          of_subject = of_subject;
          owner = ground arith;
          tables = refl;
        }),
      )
  link_user-Settles d context provider subject found none user_id w w' open_ e finds h =
      let (user, w1, created, h1) = bind-Yields _ _ h in
      let (identity, w2, linked, h2) = bind-Yields _ _ h1 in
      let (open1, new_user) =
        create_user_adds env.backend d w w1 user open_ (or_roll_back-Yields _ created) in
      let (open2, owner, same_provider, same_subject, new_subject) =
        create_oauth_identity_adds (add_user d user) user.id provider subject w1 w2 identity open1
          (on_error-Yields _ (link_outcome (services env) context) linked) in
      let ran = h2.ran in
      (
        add_oauth_identity (add_user d user) identity,
        ground arith,
        inr (record {
          user = user;
          identity = identity;
          new_subject = new_subject;
          owner = owner;
          same_provider = same_provider;
          same_subject = same_subject;
          of_user = ground arith;
          tables = refl;
        }),
      )
