-- ===== src/Io/Rollback.antt =====
-- Rules for the ends of an asynchronous function: one that never throws, and the callback of a
-- transaction, which resolves with no error and throws only what its rollback signals say.
use authia.Contracts.Errors.{AuthError}
use authia.Io.{
  Io, Thrown, Completion, value, error, threw, pure, fail, throw, continue, ◌>>=◌, on_error_from,
  on_error, catch_from, catch, both_from, both, io,
}

abbrev pub IsQuiet : {A : Type 0} → Completion A → Type 0
IsQuiet (value a) = Unit
IsQuiet (error e) = Unit
IsQuiet (threw t) = ⊥

abbrev pub IsRolledBack : (Thrown → Type 0) → {A : Type 0} → Completion A → Type 0
IsRolledBack Q (value a) = Unit
IsRolledBack Q (error e) = ⊥
IsRolledBack Q (threw t) = Q t

module _ {W : Type 0} where
  pub record NeverThrows {A : Type 0} (m : Io W A) : Type 0 where
    pub at : (w : W) → IsQuiet (m w).0

  pub NeverThrows-pure : {A : Type 0} (a : A) → NeverThrows {A = A} (pure a)
  NeverThrows-pure a = record { at = λ w. tt }

  pub NeverThrows-fail : {A : Type 0} (e : AuthError) → NeverThrows {A = A} (fail e)
  NeverThrows-fail e = record { at = λ w. tt }

  continue-IsQuiet :
      {A B : Type 0} (c : Completion A) (k : A → Io W B) (w : W)
      → IsQuiet c
      → ((a : A) → NeverThrows (k a))
      → IsQuiet (continue c k w).0
  continue-IsQuiet (value a) k w q kq = (kq a).at w
  continue-IsQuiet (error e) k w q kq = tt
  continue-IsQuiet (threw t) k w q kq = absurd q

  pub NeverThrows-bind :
      {A B : Type 0} (m : Io W A) (k : A → Io W B)
      → NeverThrows m
      → ((a : A) → NeverThrows (k a))
      → NeverThrows (m >>= k)
  unfolding io
  NeverThrows-bind m k mq kq = record {
    at = λ w. let (c, w') = m w in continue-IsQuiet c k w' (mq.at w) kq;
  }

  catch-IsQuiet :
      {A : Type 0} (c : Completion A) (f : Thrown → Io W A) (w : W)
      → ((t : Thrown) → NeverThrows (f t))
      → IsQuiet (catch_from c f w).0
  catch-IsQuiet (value a) f w fq = tt
  catch-IsQuiet (error e) f w fq = tt
  catch-IsQuiet (threw t) f w fq = (fq t).at w

  pub NeverThrows-catch :
      {A : Type 0} (m : Io W A) (f : Thrown → Io W A)
      → ((t : Thrown) → NeverThrows (f t))
      → NeverThrows (catch m f)
  unfolding io
  NeverThrows-catch m f fq = record { at = λ w. let (c, w') = m w in catch-IsQuiet c f w' fq }

  both-IsQuiet :
      {A B : Type 0} (c : Completion A) (d : Completion B) (w : W)
      → IsQuiet c
      → IsQuiet d
      → IsQuiet (both_from c d w).0
  both-IsQuiet (threw t) d w p q = p
  both-IsQuiet (value a) (threw t) w p q = q
  both-IsQuiet (error e) (threw t) w p q = q
  both-IsQuiet (error e) _ w p q = tt
  both-IsQuiet (value a) (error e) w p q = tt
  both-IsQuiet (value a) (value b) w p q = tt

  pub NeverThrows-both :
      {A B : Type 0} (m : Io W A) (n : Io W B)
      → NeverThrows m
      → NeverThrows n
      → NeverThrows (both m n)
  unfolding io
  NeverThrows-both m n mq nq = record {
    at = λ w. let (c, w') = m w in let (d, w'') = n w' in both-IsQuiet c d w'' (mq.at w) (nq.at w');
  }

  pub record RollsBack (Q : Thrown → Type 0) {A : Type 0} (m : Io W A) : Type 0 where
    pub at : (w : W) → IsRolledBack Q (m w).0

  module _ {Q : Thrown → Type 0} where
    pub RollsBack-pure : {A : Type 0} (a : A) → RollsBack Q {A = A} (pure a)
    RollsBack-pure a = record { at = λ w. tt }

    pub RollsBack-throw : {A : Type 0} (t : Thrown) → Q t → RollsBack Q {A = A} (throw t)
    RollsBack-throw t q = record { at = λ w. q }

    continue_rolls :
        {A B : Type 0} (c : Completion A) (k : A → Io W B) (w : W)
        → IsRolledBack Q c
        → ((a : A) → RollsBack Q (k a))
        → IsRolledBack Q (continue c k w).0
    continue_rolls (value a) k w q kq = (kq a).at w
    continue_rolls (error e) k w q kq = absurd q
    continue_rolls (threw t) k w q kq = q

    pub RollsBack-bind :
        {A B : Type 0} (m : Io W A) (k : A → Io W B)
        → RollsBack Q m
        → ((a : A) → RollsBack Q (k a))
        → RollsBack Q (m >>= k)
    unfolding io
    RollsBack-bind m k mq kq = record {
      at = λ w. let (c, w') = m w in continue_rolls c k w' (mq.at w) kq;
    }

    on_error_rolls :
        {A : Type 0} (c : Completion A) (f : AuthError → Io W A) (w : W)
        → IsQuiet c
        → ((e : AuthError) → RollsBack Q (f e))
        → IsRolledBack Q (on_error_from c f w).0
    on_error_rolls (value a) f w q fq = tt
    on_error_rolls (error e) f w q fq = (fq e).at w
    on_error_rolls (threw t) f w q fq = absurd q

    pub RollsBack-on_error :
        {A : Type 0} (m : Io W A) (f : AuthError → Io W A)
        → NeverThrows m
        → ((e : AuthError) → RollsBack Q (f e))
        → RollsBack Q (on_error m f)
    unfolding io
    RollsBack-on_error m f mq fq = record {
      at = λ w. let (c, w') = m w in on_error_rolls c f w' (mq.at w) fq;
    }

-- The rules, as sets for `search`.
pub ruleset never_throws_rules =
    (NeverThrows-pure, NeverThrows-fail, NeverThrows-bind, NeverThrows-catch, NeverThrows-both)

pub ruleset rolls_back_rules =
    (never_throws_rules, RollsBack-pure, RollsBack-throw, RollsBack-bind, RollsBack-on_error)
