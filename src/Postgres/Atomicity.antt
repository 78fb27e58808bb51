-- ===== src/Postgres/Atomicity.antt =====
-- packages/storage-postgres/src/transactions.ts: a transaction commits all that its callback has
-- done, or nothing; the client goes back to the pool on every path.
use authia.Prelude.{
  ◌+◌, ◌≡◌, ◌⊎◌, inl, inr, Bool, true, false, Option, none, some, arith, Option-cases,
  if◌then◌else◌,
}
use authia.Contracts.Storage.{TransactionalStorage}
use authia.Io.{Io, Completion, Thrown}
use authia.Postgres.Tables.{Database}
use authia.Postgres.Connection.{Backend, World, Working, Client}
use authia.Postgres.Transactions.{
  create_transactional_storage, commit, roll_back, after_run, begin_transaction,
}
use authia.Postgres.Inside.{IsInside, StaysInside}

-- What the tables are once the open transaction has committed.
abbrev pub working_database : Database → Option Working → Database
working_database committed none = committed
working_database committed (some t) = if t.aborted then committed else t.database

abbrev pub result_database : World → Database
result_database w = working_database w.committed w.working

-- The world in which the callback begins.
abbrev pub opened : World → World
opened w = record w {
  working = some (record { database = w.committed; aborted = false });
  step = w.step + 1 + 1;
  leased = w.leased + 1;
}

abbrev pub has_thrown : {A : Type 0} → Completion A → Bool
has_thrown (Completion.value a) = false
has_thrown (Completion.error e) = false
has_thrown (Completion.threw t) = true

module _ (backend : Backend) {T : Type 0} where
  -- How a transaction ended: the tables are as they were, or the callback has returned and the
  -- tables are its own.
  pub record EndsWell (w : World) (ran : Completion T × World) (ended : Completion T × World)
      : Type 0 where
    pub released : ended.1.leased ≡ w.leased
    pub closed : ended.1.working ≡ none
    pub all_or_nothing :
        (ended.1.committed ≡ w.committed)
        ⊎ ((ended.1.committed ≡ result_database ran.1)
            × (ended.0 ≡ ran.0)
            × (has_thrown ran.0 ≡ false))

  after_run-EndsWell :
      (w : World) (c : Completion T) (w' : World)
      → IsInside w.committed (w.leased + 1) w'
      → EndsWell w (c, w') (after_run backend c w')
  unfolding commit roll_back
  after_run-EndsWell w (Completion.value a) w' h = ground arith
  after_run-EndsWell w (Completion.error e) w' h = ground arith
  after_run-EndsWell w (Completion.threw t) w' h = ground arith

  after_run_value :
      (c : Completion T) (w w' : World) (a : T)
      → after_run backend c w ≡ (Completion.value a, w')
      → (c ≡ Completion.value a) × (w'.committed ≡ result_database w)
  unfolding commit roll_back
  after_run_value (Completion.value b) w w' a h = ground arith
  after_run_value (Completion.error e) w w' a h = ground arith
  after_run_value (Completion.threw t) w w' a h = ground arith

  after_run_threw :
      (c : Completion T) (w : World) (t : Thrown)
      → (after_run backend c w).0 ≡ Completion.threw t
      → c ≡ Completion.threw t
  unfolding commit roll_back
  after_run_threw (Completion.value b) w t h = ground arith
  after_run_threw (Completion.error e) w t h = ground arith
  after_run_threw (Completion.threw (Thrown.signal o)) w t h = ground arith
  after_run_threw (Completion.threw (Thrown.exception code message)) w t h = ground arith

  module _ (run : TransactionalStorage World → Io World T) (w : World) where
    -- The callback on the open transaction.
    abbrev pub ran : Completion T × World
    ran = run (create_transactional_storage backend Client.client) (opened w)

    -- Outside any other transaction, one whose callback stays inside of it ends with all of the
    -- callback's effects on the tables or none, none if it has thrown, with no transaction open and
    -- the client released, whichever calls of the server fail.
    pub begin_transaction-EndsWell :
        w.working ≡ none
        → StaysInside w.committed
            (w.leased + 1)
            (run (create_transactional_storage backend Client.client))
        → EndsWell w ran (begin_transaction backend run w)
    unfolding begin_transaction
    begin_transaction-EndsWell idle stays = elim (Option-cases (backend.fault w.step)) [
      | inr (message, refused) ↦ ground arith
      | inl connected ↦ elim (Option-cases (backend.fault (w.step + 1))) [
        | inr (message, refused) ↦ ground arith
        | inl begun ↦
            ground (arith, after_run-EndsWell w ran.0 ran.1 (stays.at (opened w) (ground arith)))
      ]
    ]

    -- A transaction that resolves with a value has run its callback to that value and committed it.
    pub begin_transaction_value :
        (w' : World) (a : T)
        → begin_transaction backend run w ≡ (Completion.value a, w')
        → (ran.0 ≡ Completion.value a) × (w'.committed ≡ result_database ran.1)
    unfolding begin_transaction
    begin_transaction_value w' a h = elim (Option-cases (backend.fault w.step)) [
      | inr (message, refused) ↦ ground arith
      | inl connected ↦ elim (Option-cases (backend.fault (w.step + 1))) [
        | inr (message, refused) ↦ ground arith
        | inl begun ↦ ground (arith, after_run_value ran.0 ran.1 w' a)
      ]
    ]

    -- A transaction that rejects: its callback has thrown just that.
    pub begin_transaction_threw :
        (t : Thrown)
        → (begin_transaction backend run w).0 ≡ Completion.threw t
        → ran.0 ≡ Completion.threw t
    unfolding begin_transaction
    begin_transaction_threw t h = elim (Option-cases (backend.fault w.step)) [
      | inr (message, refused) ↦ ground arith
      | inl connected ↦ elim (Option-cases (backend.fault (w.step + 1))) [
        | inr (message, refused) ↦ ground arith
        | inl begun ↦ ground (arith, after_run_threw ran.0 ran.1 t)
      ]
    ]
