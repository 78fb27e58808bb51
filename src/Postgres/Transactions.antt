-- ===== src/Postgres/Transactions.antt =====
-- packages/storage-postgres/src/transactions.ts and postgres-storage.ts.
use authia.Prelude.{◌+◌, ◌-◌, Option, none, some, false, if◌then◌else◌}
use authia.Contracts.Storage.{TransactionalStorage, StorageAdapter}
use authia.Io.{Io, Thrown, Completion}
use authia.Postgres.Connection.{Backend, World, Working, Client, tick, abort, pg_error, unavailable}
use authia.Postgres.Accounts.{
  create_users_repository, create_identities_repository, create_oauth_identities_repository,
}
use authia.Postgres.SessionRows.{create_sessions_repository}
use authia.Postgres.Tokens.{
  create_oauth_states_repository, create_password_reset_tokens_repository,
  create_email_verification_tokens_repository, create_verified_emails_repository,
}

module _ (backend : Backend) where
  -- createTransactionalStorage, and the repositories of createPostgresStorageAdapter.
  abbrev pub create_transactional_storage : Client → TransactionalStorage World
  create_transactional_storage via = record {
    users = create_users_repository backend via;
    identities = create_identities_repository backend via;
    sessions = create_sessions_repository backend via;
    oauth_states = some (create_oauth_states_repository backend via);
    oauth_identities = some (create_oauth_identities_repository backend via);
    password_reset_tokens = some (create_password_reset_tokens_repository backend via);
    email_verification_tokens = some (create_email_verification_tokens_repository backend via);
    verified_emails = some (create_verified_emails_repository backend via);
  }

  -- pool.connect()
  unfoldable pub connect : Io World (Unit {0})
  connect w = elim (backend.fault w.step) [
    | some message ↦ (Completion.threw (pg_error none message), tick w)
    | none ↦ (Completion.value tt, record (tick w) { leased = w.leased + 1 })
  ]

  -- client.query('BEGIN')
  unfoldable pub begin : Io World (Unit {0})
  begin w = elim (backend.fault w.step) [
    | some message ↦ (Completion.threw (pg_error none message), tick w)
    | none ↦ (
      Completion.value tt,
      record (tick w) { working = some (record { database = w.committed; aborted = false }) },
    )
  ]

  -- What COMMIT makes of an open transaction: an aborted one is rolled back, without an error.
  abbrev pub commit_working : Option Working → World → World
  commit_working none w = w
  commit_working (some t) w = record w {
    committed = (if t.aborted then w.committed else t.database);
    working = none;
  }

  -- client.query('COMMIT')
  unfoldable pub commit : Io World (Unit {0})
  commit w = elim (backend.fault w.step) [
    | some message ↦
        (Completion.threw (pg_error none message), record (tick w) { working = abort w.working })
    | none ↦ (Completion.value tt, commit_working w.working (tick w))
  ]

  -- client.query('ROLLBACK')
  unfoldable pub roll_back : Io World (Unit {0})
  roll_back w = elim (backend.fault w.step) [
    | some message ↦ (Completion.threw (pg_error none message), tick w)
    | none ↦ (Completion.value tt, record (tick w) { working = none })
  ]

  -- client.release(), and client.release(true), which closes the connection: the server drops an
  -- open transaction.
  abbrev pub release : World → World
  release w = record w { leased = w.leased - 1 }

  abbrev pub destroy : World → World
  destroy w = record w { leased = w.leased - 1; working = none }

  -- After ROLLBACK: a signal is thrown on, anything else becomes an error.
  abbrev pub rethrow : {T : Type 0} → Thrown → Completion T
  rethrow (Thrown.signal outcome) = Completion.threw (Thrown.signal outcome)
  rethrow (Thrown.exception code message) =
      Completion.error (unavailable "Transaction failed" (Thrown.exception code message))

  abbrev pub after_roll_back :
      {T : Type 0} → Thrown → Completion (Unit {0}) → World → Completion T × World
  after_roll_back thrown (Completion.value done) w = (rethrow thrown, release w)
  after_roll_back thrown (Completion.error e) w = (rethrow thrown, release w)
  after_roll_back thrown (Completion.threw t) w =
      (Completion.error (unavailable "Transaction rollback failed" t), destroy w)

  -- The catch block.
  abbrev pub undo : {T : Type 0} → Thrown → World → Completion T × World
  undo thrown w = let (rolled, w') = roll_back w in after_roll_back thrown rolled w'

  abbrev pub after_commit :
      {T : Type 0} → Completion T → Completion (Unit {0}) → World → Completion T × World
  after_commit result (Completion.value done) w = (result, release w)
  after_commit result (Completion.error e) w = (result, release w)
  after_commit result (Completion.threw t) w = undo t w

  -- COMMIT after the callback has returned, an AuthError too.
  abbrev pub after_run : {T : Type 0} → Completion T → World → Completion T × World
  after_run (Completion.threw t) w = undo t w
  after_run result w = let (committed, w') = commit w in after_commit result committed w'

  abbrev pub after_begin :
      {T : Type 0}
      → (TransactionalStorage World → Io World T)
      → Completion (Unit {0})
      → World
      → Completion T × World
  after_begin run (Completion.threw t) w = undo t w
  after_begin run begun w =
      let (result, w') = run (create_transactional_storage Client.client) w in after_run result w'

  abbrev pub after_connect :
      {T : Type 0}
      → (TransactionalStorage World → Io World T)
      → Completion (Unit {0})
      → World
      → Completion T × World
  after_connect run (Completion.threw t) w =
      (Completion.error (unavailable "Failed to acquire database connection" t), w)
  after_connect run connected w = let (begun, w') = begin w in after_begin run begun w'

  unfoldable pub begin_transaction :
      {T : Type 0} → (TransactionalStorage World → Io World T) → Io World T
  unfolding connect begin commit roll_back
  begin_transaction run w = let (connected, w') = connect w in after_connect run connected w'

  -- createPostgresStorageAdapter
  abbrev pub create_postgres_storage_adapter : StorageAdapter World
  create_postgres_storage_adapter = record {
    repositories = create_transactional_storage Client.pool;
    begin_transaction = begin_transaction;
  }
