-- ===== src/Oauth/SignIn.antt =====
-- How the callback of the OAuth plugin ends, where no other request runs in between
-- (packages/core/src/plugins/oauth/plugin.ts).
use authia.Prelude.{
  ◌+◌, ◌≡◌, refl, sym, ap, subst, ◌∙◌, ◌⊎◌, inl, inr, true, false, Bool, if◌then◌else◌, String,
  none, arith,
}
use authia.Contracts.Errors.{AuthError}
use authia.Contracts.Results.{RequestContext, AuthResult, Reply}
use authia.Io.{Io, return_reply, Completion, Thrown, catch_from, io}
use authia.Io.Rollback.{IsRolledBack}
use authia.Postgres.Tables.{Database}
use authia.Postgres.Connection.{World}
use authia.Postgres.Transactions.{begin_transaction}
use authia.Postgres.Inside.{callback_transaction-StaysInside}
use authia.Postgres.Refusals.{Refuses, callback_transaction-RollsBack}
use authia.Postgres.Atomicity.{
  has_thrown, opened, ran, EndsWell, begin_transaction-EndsWell, begin_transaction_value,
  begin_transaction_threw,
}
use authia.Postgres.Caught.{IsRefused}
use authia.Oauth.Finish.{
  is_race_outcome, retry_callback, recover_callback, callback_transaction, sign_in_subject,
}
use authia.Oauth.Race.{IsKnown, retry_callback-RetryEnds}
use authia.Oauth.Effects.{IsFinished, callback_transaction_finishes}
use authia.System.{Environment, services}

module _ (env : Environment) (context : RequestContext) (provider subject : String) where
  -- A retry that knows the subject finishes, with the tables settled as they are.
  known_finishes :
      (d d' : Database) (r : AuthResult)
      → IsKnown env context provider subject d d' r
      → IsFinished env d d' context provider subject r
  known_finishes d d' r known = record {
    user_id = known.identity.user_id;
    settled = d;
    settles = inl (record {
      identity = known.identity;
      stored = known.stored;
      of_subject = known.of_subject;
      owner = refl;
      tables = refl;
    });
    given = known.given;
  }

  -- How the callback ends from these tables: refused, with the tables as they were, or with a session.
  abbrev pub SubjectEnds : Database → Completion AuthResult × World → Type 0
  SubjectEnds d (c, w') =
      (IsRefused c × (w'.committed ≡ d))
      ⊎ ((r : AuthResult) × (c ≡ Completion.value r)
          × IsFinished env d w'.committed context provider subject r)

  retry_callback_ends :
      (w : World)
      → w.working ≡ none
      → SubjectEnds w.committed (retry_callback (services env) context provider subject w)
  retry_callback_ends w idle = elim (retry_callback-RetryEnds env context provider subject w idle) [
    | inl refused ↦ inl refused
    | inr (r, same, known) ↦ inr (r, same, known_finishes _ _ r known)
  ]

  abbrev callback_ran : World → Completion AuthResult × World
  callback_ran w = ran env.backend (callback_transaction (services env) context provider subject) w

  pick_branch :
      (d : Database) (b : Bool) (m n : Io World AuthResult) (w : World)
      → SubjectEnds d (m w)
      → SubjectEnds d (n w)
      → SubjectEnds d ((if b then m else n) w)
  pick_branch d true m n w hm hn = hm
  pick_branch d false m n w hm hn = hn

  -- A callback that did not return leaves the tables.
  failed_unchanged :
      (w : World) (err : AuthError) (w' : World)
      → EndsWell env.backend w (callback_ran w) (Completion.error err, w')
      → IsRolledBack Refuses (callback_ran w).0
      → w'.committed ≡ w.committed
  failed_unchanged w err w' well rolls = elim (well.all_or_nothing) [
    | inl same ↦ same
    | inr (tables, ends, returned) ↦ absurd (subst (IsRolledBack Refuses) (sym ends) rolls)
  ]

  thrown_unchanged :
      (w : World) (t : Thrown) (w' : World)
      → EndsWell env.backend w (callback_ran w) (Completion.threw t, w')
      → (callback_ran w).0 ≡ Completion.threw t
      → w'.committed ≡ w.committed
  thrown_unchanged w t w' well threw = elim (well.all_or_nothing) [
    | inl same ↦ same
    | inr (tables, ends, returned) ↦ absurd (ground (arith, sym (ap has_thrown threw) ∙ returned))
  ]

  -- The rollback signal of the first transaction: the retry, or its outcome.
  recover_signal_ends :
      (d : Database) (outcome : Reply) (w : World)
      → w.working ≡ none
      → w.committed ≡ d
      → Refuses (Thrown.signal outcome)
      → SubjectEnds d
          (recover_callback (services env) context provider subject (Thrown.signal outcome) w)
  recover_signal_ends d (Reply.result r) w idle same refusal = inl (refusal, same)
  recover_signal_ends d (Reply.failure e) w idle same refusal =
      pick_branch d (is_race_outcome (Reply.failure e))
        (retry_callback (services env) context provider subject) (return_reply (Reply.failure e)) w
        (subst (λ t. SubjectEnds t (retry_callback (services env) context provider subject w)) same
          (retry_callback_ends w idle))
        (inl (tt, same))

  recovered_ends :
      (w : World) (c : Completion AuthResult) (w' : World)
      → begin_transaction env.backend
          (callback_transaction (services env) context provider subject)
          w
        ≡ (c, w')
      → EndsWell env.backend w (callback_ran w) (c, w')
      → IsRolledBack Refuses (callback_ran w).0
      → SubjectEnds w.committed
          (catch_from c (recover_callback (services env) context provider subject) w')
  recovered_ends w (Completion.value r) w' e well rolls =
      let (returned, tables) = begin_transaction_value env.backend _ w w' r e in
      inr (
        r,
        refl,
        subst (λ d. IsFinished env w.committed d context provider subject r) (sym tables)
            (callback_transaction_finishes env w.committed context provider subject (opened w)
              (callback_ran w).1 r refl (record { ran = cc returned })),
      )
  recovered_ends w (Completion.error err) w' e well rolls =
      inl (tt, failed_unchanged w err w' well rolls)
  recovered_ends w (Completion.threw (Thrown.signal outcome)) w' e well rolls =
      let threw =
        begin_transaction_threw env.backend _ w (Thrown.signal outcome) (ap (λ x. x.0) e) in
      recover_signal_ends w.committed outcome w' well.closed
        (thrown_unchanged w (Thrown.signal outcome) w' well threw)
        (subst (IsRolledBack Refuses) threw rolls)
  recovered_ends w (Completion.threw (Thrown.exception code message)) w' e well rolls = absurd (
      subst (IsRolledBack Refuses)
        (begin_transaction_threw env.backend _ w (Thrown.exception code message) (ap (λ x. x.0) e))
        rolls)

  -- Signing in a subject that the provider has vouched for, outside any other transaction, either
  -- grants nothing and leaves the committed tables as they were, or adds one session: for the user of
  -- a stored identity of the subject, or, if no identity has the subject, for a new user that is
  -- linked to it. No other request runs in between.
  pub sign_in_subject_all_or_nothing :
      (w : World)
      → w.working ≡ none
      → SubjectEnds w.committed (sign_in_subject (services env) context provider subject w)
  unfolding sign_in_subject io
  sign_in_subject_all_or_nothing w idle =
      let run = callback_transaction (services env) context provider subject in
      recovered_ends w (begin_transaction env.backend run w).0
        (begin_transaction env.backend run w).1 refl
        (begin_transaction-EndsWell env.backend run w idle (
          callback_transaction-StaysInside env w.committed (w.leased + 1) context provider subject))
        ((callback_transaction-RollsBack env context provider subject).at (opened w))
