-- ===== src/Invariant/Transactions.antt =====
-- A transaction of packages/storage-postgres/src/transactions.ts keeps a property of the tables that
-- its callback keeps, however it ends.
use authia.Prelude.{◌+◌, Bool, true, false, Option, none, some, String, if◌then◌else◌}
use authia.Contracts.Storage.{TransactionalStorage}
use authia.Io.{Io, Completion, Thrown}
use authia.Io.Keeps.{Keeps}
use authia.Postgres.Tables.{Database}
use authia.Postgres.Connection.{Backend, World, Working, Client, tick, abort, pg_error}
use authia.Postgres.Transactions.{
  create_transactional_storage, connect, begin, commit_working, commit, roll_back, after_roll_back,
  undo, after_commit, after_run, after_begin, after_connect, begin_transaction,
}
use authia.Invariant.Tables.{OnWorking, HoldsIn, ticked-HoldsIn, abort-OnWorking}

module _ (I : Database → Type 0) (backend : Backend) where
  -- A call of the server that may fail.
  faulted :
      {A : Type 0} (fault : Option String) (failing : String → Completion A × World)
      (went : Completion A × World)
      → ((message : String) → HoldsIn I (failing message).1)
      → HoldsIn I went.1
      → HoldsIn I
          (elim fault as (λ o. Completion A × World) [
            | some message ↦ failing message
            | none ↦ went
          ]).1
  faulted none failing went f h = h
  faulted (some message) failing went f h = f message

  abbrev failed : World → String → Completion (Unit {0}) × World
  failed w message = (Completion.threw (pg_error none message), w)

  connect-HoldsIn : Keeps (HoldsIn I) (connect backend)
  unfolding connect
  connect-HoldsIn = record {
    at = λ w h.
        faulted (backend.fault w.step) (failed (tick w))
          (Completion.value tt, record (tick w) { leased = w.leased + 1 })
          (λ m. ticked-HoldsIn I w h) (record { committed = h.committed; working = h.working });
  }

  begin-HoldsIn : Keeps (HoldsIn I) (begin backend)
  unfolding begin
  begin-HoldsIn = record {
    at = λ w h.
        faulted (backend.fault w.step) (failed (tick w))
          (
            Completion.value tt,
            record (tick w) { working = some (record { database = w.committed; aborted = false }) },
          )
          (λ m. ticked-HoldsIn I w h) (record { committed = h.committed; working = h.committed });
  }

  unaborted :
      (aborted : Bool) (old new : Database) → I old → I new → I (if aborted then old else new)
  unaborted true old new i j = i
  unaborted false old new i j = j

  commit_working-HoldsIn :
      (working : Option Working) (w : World)
      → OnWorking I working
      → HoldsIn I w
      → HoldsIn I (commit_working backend working w)
  commit_working-HoldsIn none w i h = h
  commit_working-HoldsIn (some t) w i h = record {
    committed = unaborted t.aborted w.committed t.database h.committed i;
    working = tt;
  }

  commit-HoldsIn : Keeps (HoldsIn I) (commit backend)
  unfolding commit
  commit-HoldsIn = record {
    at = λ w h.
        faulted (backend.fault w.step) (failed (record (tick w) { working = abort w.working }))
          (Completion.value tt, commit_working backend w.working (tick w))
          (λ m. record { committed = h.committed; working = abort-OnWorking I w.working h.working })
          (commit_working-HoldsIn w.working (tick w) h.working (ticked-HoldsIn I w h));
  }

  roll_back-HoldsIn : Keeps (HoldsIn I) (roll_back backend)
  unfolding roll_back
  roll_back-HoldsIn = record {
    at = λ w h.
        faulted (backend.fault w.step) (failed (tick w))
          (Completion.value tt, record (tick w) { working = none }) (λ m. ticked-HoldsIn I w h)
          (record { committed = h.committed; working = tt });
  }

  module _ (T : Type 0) where
    after_roll_back-HoldsIn :
        (t : Thrown) (c : Completion (Unit {0})) (w : World)
        → HoldsIn I w
        → HoldsIn I (after_roll_back backend {T = T} t c w).1
    after_roll_back-HoldsIn t (Completion.value done) w h = record {
      committed = h.committed;
      working = h.working;
    }
    after_roll_back-HoldsIn t (Completion.error e) w h = record {
      committed = h.committed;
      working = h.working;
    }
    after_roll_back-HoldsIn t (Completion.threw u) w h = record {
      committed = h.committed;
      working = tt;
    }

    undo-HoldsIn : (t : Thrown) (w : World) → HoldsIn I w → HoldsIn I (undo backend {T = T} t w).1
    undo-HoldsIn t w h =
        let (c, w') = roll_back backend w in
        after_roll_back-HoldsIn t c w' (roll_back-HoldsIn.at w h)

    after_commit-HoldsIn :
        (result : Completion T) (c : Completion (Unit {0})) (w : World)
        → HoldsIn I w
        → HoldsIn I (after_commit backend result c w).1
    after_commit-HoldsIn result (Completion.value done) w h = record {
      committed = h.committed;
      working = h.working;
    }
    after_commit-HoldsIn result (Completion.error e) w h = record {
      committed = h.committed;
      working = h.working;
    }
    after_commit-HoldsIn result (Completion.threw t) w h = undo-HoldsIn t w h

    committed-HoldsIn :
        (result : Completion T) (w : World)
        → HoldsIn I w
        → (let (c, w') = commit backend w in HoldsIn I (after_commit backend result c w').1)
    committed-HoldsIn result w h =
        let (c, w') = commit backend w in after_commit-HoldsIn result c w' (commit-HoldsIn.at w h)

    after_run-HoldsIn :
        (result : Completion T) (w : World) → HoldsIn I w → HoldsIn I (after_run backend result w).1
    after_run-HoldsIn (Completion.threw t) w h = undo-HoldsIn t w h
    after_run-HoldsIn (Completion.value a) w h = committed-HoldsIn (Completion.value a) w h
    after_run-HoldsIn (Completion.error e) w h = committed-HoldsIn (Completion.error e) w h

    module _ (run : TransactionalStorage World → Io World T)
        (keeps : Keeps (HoldsIn I) (run (create_transactional_storage backend Client.client))) where
      ran-HoldsIn :
          (w : World)
          → HoldsIn I w
          → (let (c, w') = run (create_transactional_storage backend Client.client) w in
              HoldsIn I (after_run backend c w').1)
      ran-HoldsIn w h =
          let (c, w') = run (create_transactional_storage backend Client.client) w in
          after_run-HoldsIn c w' (keeps.at w h)

      after_begin-HoldsIn :
          (c : Completion (Unit {0})) (w : World)
          → HoldsIn I w
          → HoldsIn I (after_begin backend run c w).1
      after_begin-HoldsIn (Completion.threw t) w h = undo-HoldsIn t w h
      after_begin-HoldsIn (Completion.value done) w h = ran-HoldsIn w h
      after_begin-HoldsIn (Completion.error e) w h = ran-HoldsIn w h

      begun-HoldsIn :
          (w : World)
          → HoldsIn I w
          → (let (c, w') = begin backend w in HoldsIn I (after_begin backend run c w').1)
      begun-HoldsIn w h =
          let (c, w') = begin backend w in after_begin-HoldsIn c w' (begin-HoldsIn.at w h)

      after_connect-HoldsIn :
          (c : Completion (Unit {0})) (w : World)
          → HoldsIn I w
          → HoldsIn I (after_connect backend run c w).1
      after_connect-HoldsIn (Completion.threw t) w h = h
      after_connect-HoldsIn (Completion.value done) w h = begun-HoldsIn w h
      after_connect-HoldsIn (Completion.error e) w h = begun-HoldsIn w h

      pub begin_transaction-HoldsIn : Keeps (HoldsIn I) (begin_transaction backend run)
      unfolding begin_transaction
      begin_transaction-HoldsIn = record {
        at = λ w h.
            let (c, w') = connect backend w in after_connect-HoldsIn c w' (connect-HoldsIn.at w h);
      }
