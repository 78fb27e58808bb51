-- ===== src/Postgres/Connection.antt =====
-- packages/storage-postgres/src/database.ts, and what the repositories use of `pg`: a client or the
-- pool that sends statements, any of which may fail.
use Prim.Native.String as Text
use authia.Prelude.{ℕ, ◌+◌, String, Bool, true, false, ◌==◌, Option, none, some, if◌then◌else◌}
use authia.Contracts.Errors.{AuthError, AuthErrorCode, infrastructure_error}
use authia.Io.{Io, Thrown, Completion, fail, catch}
use authia.Postgres.Tables.{Database, Answer, Statement, unique_violation}

-- What the environment chooses, each at the step of the world at which it is asked.
pub record Backend : Type 0 where
  -- Date.now()
  pub clock : ℕ → ℕ
  -- randomUUID()
  pub uuid : ℕ → String
  -- The message of a failure of the connection at this step, if it fails.
  pub fault : ℕ → Option String

-- An open transaction: its own copy of the tables, and whether a statement of it has failed.
pub record Working : Type 0 where
  pub database : Database
  pub aborted : Bool

pub record World : Type 0 where
  pub committed : Database
  pub working : Option Working
  pub step : ℕ
  -- The clients that are checked out of the pool.
  pub leased : ℕ

-- DatabaseClient: the pool, or the client of the transaction.
pub data Client : Type 0 where
  pool client : Client

abbrev pub tick : World → World
tick w = record w { step = w.step + 1 }

abbrev pub aborted_message : String
aborted_message = "current transaction is aborted, commands ignored until end of transaction block"

abbrev pub pg_error : Option String → String → Thrown
pg_error code message = Thrown.exception code message

-- A statement on the committed tables: it commits at once.
abbrev pub answer_committed : {A : Type 0} → Answer A → World → Completion A × World
answer_committed (Answer.answered a database) w =
    (Completion.value a, record w { committed = database })
answer_committed (Answer.violation code) w =
    (Completion.threw (pg_error (some code) "constraint violation"), w)

-- A statement inside the open transaction.
abbrev pub answer_working : {A : Type 0} → Answer A → World → Completion A × World
answer_working (Answer.answered a database) w = (
  Completion.value a,
  record w { working = some (record { database = database; aborted = false }) },
)
answer_working (Answer.violation code) w = (
  Completion.threw (pg_error (some code) "constraint violation"),
  record w { working = some (record { database = w.committed; aborted = true }) },
)

abbrev pub abort : Option Working → Option Working
abort none = none
abort (some t) = some (record t { aborted = true })

-- A client that has begun no transaction commits at once, as the pool does.
abbrev pub answer_client :
    {A : Type 0} → Statement A → Option Working → World → Completion A × World
answer_client statement none w = answer_committed (statement w.committed) w
answer_client statement (some t) w =
    if t.aborted
    then (Completion.threw (pg_error (some "25P02") aborted_message), w)
    else answer_working (statement t.database) w

abbrev pub send : {A : Type 0} → Client → Statement A → World → Completion A × World
send Client.pool statement w = answer_committed (statement w.committed) w
send Client.client statement w = answer_client statement w.working w

-- A failed call leaves an open transaction of that client aborted.
abbrev pub fail_client : Client → World → World
fail_client Client.pool w = w
fail_client Client.client w = record w { working = abort w.working }

-- client.query(…)
module _ (backend : Backend) where
  unfoldable pub query : {A : Type 0} → Client → Statement A → Io World A
  query via statement w = elim (backend.fault w.step) [
    | some message ↦ (Completion.threw (pg_error none message), fail_client via (tick w))
    | none ↦ send via statement (tick w)
  ]

  -- randomUUID() and new Date()
  abbrev pub random_uuid : Io World String
  random_uuid w = (Completion.value (backend.uuid w.step), tick w)

  abbrev pub date_now : Io World ℕ
  date_now w = (Completion.value (backend.clock w.step), tick w)

-- storageUnavailable(message, cause)
abbrev pub unavailable : String → Thrown → AuthError
unavailable message (Thrown.exception code cause) =
    infrastructure_error AuthErrorCode.storage_unavailable
      (Text.◌++◌ message (Text.◌++◌ ": " cause))
unavailable message (Thrown.signal outcome) =
    infrastructure_error AuthErrorCode.storage_unavailable message

abbrev pub duplicate_identity : AuthError
duplicate_identity =
    infrastructure_error AuthErrorCode.duplicate_identity
      "Identity with this normalized email already exists"

abbrev pub has_code : Option String → Bool
has_code none = false
has_code (some code) = code == unique_violation

abbrev pub is_duplicate_key_error : Thrown → Bool
is_duplicate_key_error (Thrown.exception code message) = has_code code
is_duplicate_key_error (Thrown.signal outcome) = false

-- try { … } catch (error) { return storageUnavailable(message, error); }
abbrev pub guarded : {A : Type 0} → String → Io World A → Io World A
guarded message m = catch m (λ t. fail (unavailable message t))

-- The same, where a violated unique key has an error of its own.
abbrev pub guarded_unique : {A : Type 0} → String → Io World A → Io World A
guarded_unique message m =
    catch m
      (λ t. fail (if is_duplicate_key_error t then duplicate_identity else unavailable message t))
