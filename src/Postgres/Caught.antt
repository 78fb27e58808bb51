-- ===== src/Postgres/Caught.antt =====
-- The transactions of packages/core: a callback of the plugins, run in a Postgres transaction whose
-- rollback signals are caught.
use authia.Prelude.{sym, subst, ◌+◌, ◌≡◌, refl, ◌⊎◌, inl, inr, none, arith}
use authia.Contracts.Errors.{AuthError}
use authia.Contracts.Results.{AuthResult, Reply}
use authia.Contracts.Storage.{TransactionalStorage}
use authia.Io.{Io, Thrown, Completion, catch_from, catch, recover}
use authia.Io.Inversion.{Yields}
use authia.Postgres.Tables.{Database}
use authia.Io.Rollback.{RollsBack, IsRolledBack}
use authia.Postgres.Connection.{Backend, World, Client}
use authia.Postgres.Transactions.{create_transactional_storage, begin_transaction}
use authia.Postgres.Inside.{StaysInside}
use authia.Postgres.Refusals.{IsRefusal, Refuses}
use authia.Postgres.Atomicity.{
  opened, result_database, ran, EndsWell, begin_transaction-EndsWell, begin_transaction_value,
  begin_transaction_threw,
}

-- A result that grants nothing, or an error; not a rejection.
abbrev pub IsRefused : Completion AuthResult → Type 0
IsRefused (Completion.value r) = IsRefusal r
IsRefused (Completion.error e) = Unit
IsRefused (Completion.threw t) = ⊥

module _ (backend : Backend) (run : TransactionalStorage World → Io World AuthResult) (w : World)
    (fallback : AuthError) where
  -- The whole call: `try { return await beginTransaction(run) } catch { … }`.
  abbrev pub caught : Completion AuthResult × World
  caught = catch (begin_transaction backend run) (recover fallback) w

  -- How it ends: with a refusal and the tables as they were, or with the result of the callback and
  -- the tables that it has made.
  pub record IsAtomic (ended : Completion AuthResult × World) : Type 0 where
    pub released : ended.1.leased ≡ w.leased
    pub closed : ended.1.working ≡ none
    pub outcome :
        (IsRefused ended.0 × (ended.1.committed ≡ w.committed))
        ⊎ ((r : AuthResult) × (ended.0 ≡ Completion.value r)
            × ((ran backend run w).0 ≡ Completion.value r)
            × (ended.1.committed ≡ result_database (ran backend run w).1))

  -- The catch block, by how the transaction has completed.
  recovered-IsAtomic :
      (c : Completion AuthResult) (w' : World)
      → begin_transaction backend run w ≡ (c, w')
      → EndsWell backend w (ran backend run w) (c, w')
      → IsRolledBack Refuses (ran backend run w).0
      → IsAtomic (catch_from c (recover fallback) w')
  recovered-IsAtomic (Completion.value r) w' e well rolls = record {
    released = well.released;
    closed = well.closed;
    outcome =
        let (returned, tables) = begin_transaction_value backend run w w' r e in
        inr (r, refl, returned, tables);
  }
  recovered-IsAtomic (Completion.error err) w' e well rolls = record {
    released = well.released;
    closed = well.closed;
    outcome = inl (tt, ground arith);
  }
  recovered-IsAtomic (Completion.threw (Thrown.signal (Reply.result r))) w' e well rolls =
      ground (arith, begin_transaction_threw backend run w (Thrown.signal (Reply.result r)))
  recovered-IsAtomic (Completion.threw (Thrown.signal (Reply.failure err))) w' e well rolls =
      ground (arith, begin_transaction_threw backend run w (Thrown.signal (Reply.failure err)))
  recovered-IsAtomic (Completion.threw (Thrown.exception code message)) w' e well rolls =
      ground (arith, begin_transaction_threw backend run w (Thrown.exception code message))

  -- Outside any other transaction, a caught one whose callback stays inside of it and throws only
  -- refusals ends with a refusal or an error and the tables as they were, or with the callback's
  -- result and its tables; the client is released and no transaction stays open.
  pub caught-IsAtomic :
      w.working ≡ none
      → StaysInside w.committed
          (w.leased + 1)
          (run (create_transactional_storage backend Client.client))
      → RollsBack Refuses (run (create_transactional_storage backend Client.client))
      → IsAtomic caught
  unfolding catch
  caught-IsAtomic idle stays rolls =
      recovered-IsAtomic (begin_transaction backend run w).0 (begin_transaction backend run w).1
        refl (begin_transaction-EndsWell backend run w idle stays) (rolls.at (opened w))

  -- How a caught transaction ends, by what its callback does: with a refusal and the tables as they
  -- were, or with a result and tables for which P holds.
  abbrev pub EndsWith : (AuthResult → Database → Type 0) → Completion AuthResult × World → Type 0
  EndsWith P (c, w') =
      (IsRefused c × (w'.committed ≡ w.committed))
      ⊎ ((r : AuthResult) × (c ≡ Completion.value r) × P r w'.committed)

  pub caught-EndsWith :
      (P : AuthResult → Database → Type 0)
      → w.working ≡ none
      → StaysInside w.committed
          (w.leased + 1)
          (run (create_transactional_storage backend Client.client))
      → RollsBack Refuses (run (create_transactional_storage backend Client.client))
      → ((r : AuthResult) (w' : World)
          → Yields (run (create_transactional_storage backend Client.client)) (opened w) r w'
          → P r (result_database w'))
      → EndsWith P caught
  caught-EndsWith P idle stays rolls done =
      let atomic = caught-IsAtomic idle stays rolls in
      elim (atomic.outcome) [
        | inl refused ↦ inl refused
        | inr (r, same, returned, tables) ↦ inr (
          r,
          same,
          subst (P r) (sym tables) (done r (ran backend run w).1 (record { ran = cc returned })),
        )
      ]
