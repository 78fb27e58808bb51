-- ===== src/Invariant/Tables.antt =====
-- A property of the tables that every statement of packages/storage-postgres keeps, as the
-- repositories send it, is kept by every request: in the committed tables, and in those of an open
-- transaction.
use authia.Prelude.{ℕ, String, Bool, true, false, if◌then◌else◌, Option, none, some}
use authia.Contracts.Sessions.{User, LocalIdentity, SessionRecord}
use authia.Contracts.Storage.{
  SessionCompareAndSwapInput, OauthState, OauthIdentity, MailToken, VerifiedEmailRecord,
}
use authia.Io.{Completion}
use authia.Io.Keeps.{Keeps}
use authia.Session.{idle_patch}
use authia.Postgres.Tables.{Database, Answer, Statement}
use authia.Postgres.Connection.{
  Backend, World, Working, Client, tick, pg_error, answer_committed, answer_working, answer_client,
  abort, send, fail_client, query,
}
use authia.Postgres.Accounts.{
  insert_user, insert_identity, update_password_hash, insert_oauth_identity,
}
use authia.Postgres.SessionRows.{
  insert_session, update_session, swap_token, revoke_session, revoke_sessions_of,
}
use authia.Postgres.Tokens.{
  insert_oauth_state, consume_oauth_state, insert_reset_token, consume_reset_token,
  insert_verification_token, consume_verification_token, upsert_verified_email,
}

module _ (I : Database → Type 0) where
  abbrev pub OnAnswer : {A : Type 0} → Answer A → Type 0
  OnAnswer (Answer.answered a d) = I d
  OnAnswer (Answer.violation code) = Unit

  pub record Preserves {A : Type 0} (statement : Statement A) : Type 0 where
    pub at : (d : Database) → I d → OnAnswer (statement d)

  -- The statements that write, with the inputs that the program gives them: an update of a session
  -- by its id sets the idle time only.
  pub record IsInvariant : Type 0 where
    pub user : (row : User) → Preserves (insert_user row)
    pub identity : (row : LocalIdentity) → Preserves (insert_identity row)
    pub password : (email hash : String) → Preserves (update_password_hash email hash)
    pub oauth_identity : (row : OauthIdentity) → Preserves (insert_oauth_identity row)
    pub session : (row : SessionRecord) → Preserves (insert_session row)
    pub idle : (id : String) (at : ℕ) → Preserves (update_session id (idle_patch at))
    pub swap : (input : SessionCompareAndSwapInput) → Preserves (swap_token input)
    pub revoked : (id : String) (at : ℕ) → Preserves (revoke_session id at)
    pub revoked_all : (user_id : String) (at : ℕ) → Preserves (revoke_sessions_of user_id at)
    pub state : (row : OauthState) → Preserves (insert_oauth_state row)
    pub consumed_state :
        (provider hash : String) (now : ℕ) → Preserves (consume_oauth_state provider hash now)
    pub reset_token : (row : MailToken) → Preserves (insert_reset_token row)
    pub consumed_reset : (hash : String) (now : ℕ) → Preserves (consume_reset_token hash now)
    pub verification_token : (row : MailToken) → Preserves (insert_verification_token row)
    pub consumed_verification :
        (hash : String) (now : ℕ) → Preserves (consume_verification_token hash now)
    pub verified : (row : VerifiedEmailRecord) → Preserves (upsert_verified_email row)

  abbrev pub OnWorking : Option Working → Type 0
  OnWorking none = Unit
  OnWorking (some t) = I t.database

  pub record HoldsIn (w : World) : Type 0 where
    pub committed : I w.committed
    pub working : OnWorking w.working

  answer_committed-HoldsIn :
      {A : Type 0} (a : Answer A) (w : World)
      → OnAnswer a
      → HoldsIn w
      → HoldsIn (answer_committed a w).1
  answer_committed-HoldsIn (Answer.answered a d) w kept h = record {
    committed = kept;
    working = h.working;
  }
  answer_committed-HoldsIn (Answer.violation code) w kept h = h

  answer_working-HoldsIn :
      {A : Type 0} (a : Answer A) (w : World)
      → OnAnswer a
      → HoldsIn w
      → HoldsIn (answer_working a w).1
  answer_working-HoldsIn (Answer.answered a d) w kept h = record {
    committed = h.committed;
    working = kept;
  }
  answer_working-HoldsIn (Answer.violation code) w kept h = record {
    committed = h.committed;
    working = h.committed;
  }

  unaborted-HoldsIn :
      {A : Type 0} (aborted : Bool) (statement : Statement A) (d : Database) (w : World)
      (refused : Completion A × World)
      → Preserves statement
      → I d
      → HoldsIn w
      → HoldsIn refused.1
      → HoldsIn (if aborted then refused else answer_working (statement d) w).1
  unaborted-HoldsIn true statement d w refused kept i h r = r
  unaborted-HoldsIn false statement d w refused kept i h r =
      answer_working-HoldsIn (statement d) w (kept.at d i) h

  answer_client-HoldsIn :
      {A : Type 0} (statement : Statement A) (working : Option Working) (w : World)
      → Preserves statement
      → OnWorking working
      → HoldsIn w
      → HoldsIn (answer_client statement working w).1
  answer_client-HoldsIn statement none w kept i h =
      answer_committed-HoldsIn (statement w.committed) w (kept.at w.committed h.committed) h
  answer_client-HoldsIn statement (some t) w kept i h =
      unaborted-HoldsIn t.aborted statement t.database w _ kept i h h

  send-HoldsIn :
      {A : Type 0} (via : Client) (statement : Statement A) (w : World)
      → Preserves statement
      → HoldsIn w
      → HoldsIn (send via statement w).1
  send-HoldsIn Client.pool statement w kept h =
      answer_committed-HoldsIn (statement w.committed) w (kept.at w.committed h.committed) h
  send-HoldsIn Client.client statement w kept h =
      answer_client-HoldsIn statement w.working w kept h.working h

  pub ticked-HoldsIn : (w : World) → HoldsIn w → HoldsIn (tick w)
  ticked-HoldsIn w h = record { committed = h.committed; working = h.working }

  pub abort-OnWorking : (working : Option Working) → OnWorking working → OnWorking (abort working)
  abort-OnWorking none h = h
  abort-OnWorking (some t) h = h

  fail_client-HoldsIn : (via : Client) (w : World) → HoldsIn w → HoldsIn (fail_client via w)
  fail_client-HoldsIn Client.pool w h = h
  fail_client-HoldsIn Client.client w h = record {
    committed = h.committed;
    working = abort-OnWorking w.working h.working;
  }

  answered_or_failed :
      {A : Type 0} (via : Client) (statement : Statement A) (fault : Option String) (w : World)
      → Preserves statement
      → HoldsIn w
      → HoldsIn
          (elim fault as (λ o. Completion A × World) [
            | some message ↦ (Completion.threw (pg_error none message), fail_client via (tick w))
            | none ↦ send via statement (tick w)
          ]).1
  answered_or_failed via statement none w kept h =
      send-HoldsIn via statement (tick w) kept (ticked-HoldsIn w h)
  answered_or_failed via statement (some message) w kept h =
      fail_client-HoldsIn via (tick w) (ticked-HoldsIn w h)

  pub query-HoldsIn :
      {A : Type 0} (backend : Backend) (via : Client) (statement : Statement A)
      → Preserves statement
      → Keeps HoldsIn (query backend via statement)
  unfolding query
  query-HoldsIn backend via statement kept = record {
    at = λ w h. answered_or_failed via statement (backend.fault w.step) w kept h;
  }
