-- ===== src/Postgres/Tables.antt =====
-- packages/storage-postgres/src/migrations/0001_cycle1.sql: the tables as lists of rows, a row with
-- the columns of its record; and the statements that the repositories send, each a function of the
-- database that gives rows or the violation of a constraint.
use authia.Prelude.{String, Bool, Option, none, some, List, [], ◌∷◌, if◌then◌else◌}
use authia.Contracts.Sessions.{User, LocalIdentity, SessionRecord}
use authia.Contracts.Storage.{OauthState, OauthIdentity, MailToken, VerifiedEmailRecord}

pub record Database : Type 0 where
  pub users : List User
  pub local_identities : List LocalIdentity
  pub sessions : List SessionRecord
  pub oauth_states : List OauthState
  pub oauth_identities : List OauthIdentity
  pub password_reset_tokens : List MailToken
  pub email_verification_tokens : List MailToken
  pub verified_emails : List VerifiedEmailRecord

-- What the server answers: rows or a count, with the changed database, or an SQLSTATE.
pub data Answer (A : Type 0) : Type 0 where
  answered : A → Database → Answer A
  violation : String → Answer A

abbrev pub Statement : Type 0 → Type 0
Statement A = Database → Answer A

abbrev pub unique_violation : String
unique_violation = "23505"

abbrev pub foreign_key_violation : String
foreign_key_violation = "23503"

module _ {A : Type 0} where
  -- SELECT * … WHERE p
  abbrev pub select : (A → Bool) → List A → List A
  select p [] = []
  select p (r ∷ rows) = if p r then r ∷ select p rows else select p rows

  -- UPDATE … SET f WHERE p
  abbrev pub update : (A → Bool) → (A → A) → List A → List A
  update p f [] = []
  update p f (r ∷ rows) = (if p r then f r else r) ∷ update p f rows

  -- … RETURNING *: the rows that an update has changed, as they are after it.
  abbrev pub returning : (A → Bool) → (A → A) → List A → List A
  returning p f [] = []
  returning p f (r ∷ rows) = if p r then f r ∷ returning p f rows else returning p f rows

  -- result.rows.length === 0 ? null : result.rows[0]
  abbrev pub first : List A → Option A
  first [] = none
  first (r ∷ rows) = some r

-- INSERT: the unique keys are checked first, then the references.
abbrev pub insert_if : {A : Type 0} → Bool → Bool → A → Database → Answer A
insert_if taken missing row database =
    if taken
    then Answer.violation unique_violation
    else if missing
    then Answer.violation foreign_key_violation
    else Answer.answered row database
