-- ===== src/Io.antt =====
-- An asynchronous function of the source. It reads and changes the world `W`; its promise resolves
-- with a value, resolves with an AuthError (AuthValue<T>, packages/contracts/src/errors.ts), or
-- rejects with what was thrown.
pub mod Keeps
pub mod Inversion
pub mod Rollback
use authia.Prelude.{String, Option}
use authia.Contracts.Errors.{AuthError}
use authia.Contracts.Results.{Reply, AuthResult}

-- What a program throws: a rollback signal, or an exception with its `code` and message.
pub data Thrown : Type 0 where
  signal : Reply → Thrown
  exception : Option String → String → Thrown

pub data Completion (A : Type 0) : Type 0 where
  value : A → Completion A
  error : AuthError → Completion A
  threw : Thrown → Completion A

abbrev pub Io : Type 0 → Type 0 → Type 0
Io W A = W → Completion A × W

module _ {W : Type 0} where
  module _ {A : Type 0} where
    abbrev pub pure : A → Io W A
    pure a w = (Completion.value a, w)

    abbrev pub fail : AuthError → Io W A
    fail e w = (Completion.error e, w)

    abbrev pub throw : Thrown → Io W A
    throw t w = (Completion.threw t, w)

    -- throw createRollbackSignal(outcome)
    abbrev pub roll_back : Reply → Io W A
    roll_back outcome = throw (Thrown.signal outcome)

  module _ {A B : Type 0} where
    abbrev pub continue : Completion A → (A → Io W B) → Io W B
    continue (Completion.value a) k w = k a w
    continue (Completion.error e) k w = (Completion.error e, w)
    continue (Completion.threw t) k w = (Completion.threw t, w)

    -- `const a = await m; if (isAuthError(a)) return a; …`
    infixl 5 ◌>>=◌ ◌>>◌
    unfoldable pub ◌>>=◌ : Io W A → (A → Io W B) → Io W B
    ◌>>=◌ m k w = let (c, w') = m w in continue c k w'

    abbrev pub ◌>>◌ : Io W A → Io W B → Io W B
    m >> n = m >>= λ _. n

  module _ {A : Type 0} where
    abbrev pub on_error_from : Completion A → (AuthError → Io W A) → Io W A
    on_error_from (Completion.value a) h w = (Completion.value a, w)
    on_error_from (Completion.error e) h w = h e w
    on_error_from (Completion.threw t) h w = (Completion.threw t, w)

    -- `const a = await m; if (isAuthError(a)) …`
    unfoldable pub on_error : Io W A → (AuthError → Io W A) → Io W A
    on_error m h w = let (c, w') = m w in on_error_from c h w'

    -- `if (isAuthError(a)) throw createRollbackSignal(a)`
    abbrev pub or_roll_back : Io W A → Io W A
    or_roll_back m = on_error m (λ e. roll_back (Reply.failure e))

    abbrev pub catch_from : Completion A → (Thrown → Io W A) → Io W A
    catch_from (Completion.value a) h w = (Completion.value a, w)
    catch_from (Completion.error e) h w = (Completion.error e, w)
    catch_from (Completion.threw t) h w = h t w

    -- try { return await m } catch (error) { … }
    unfoldable pub catch : Io W A → (Thrown → Io W A) → Io W A
    catch m h w = let (c, w') = m w in catch_from c h w'

  -- await Promise.all([m, n]), then the test of both results in order. Both run.
  module _ {A B : Type 0} where
    abbrev pub both_from : Completion A → Completion B → W → Completion (A × B) × W
    both_from (Completion.threw t) d w = (Completion.threw t, w)
    both_from c (Completion.threw t) w = (Completion.threw t, w)
    both_from (Completion.error e) d w = (Completion.error e, w)
    both_from (Completion.value a) (Completion.error e) w = (Completion.error e, w)
    both_from (Completion.value a) (Completion.value b) w = (Completion.value (a, b), w)

    unfoldable pub both : Io W A → Io W B → Io W (A × B)
    both m n w = let (c, w') = m w in let (d, w'') = n w' in both_from c d w''

-- What a proof unfolds to compute with the functions that are composed above.
unfoldable pub io : Unit {0}
unfolding ◌>>=◌ on_error catch both
io = tt

-- A reply as the value of a function that returns AuthResult | AuthError.
abbrev pub return_reply : {W : Type 0} → Reply → Io W AuthResult
return_reply (Reply.result r) = pure r
return_reply (Reply.failure e) = fail e

-- isRollbackSignal(error) ? error.outcome : fallback
abbrev pub recover : {W : Type 0} → AuthError → Thrown → Io W AuthResult
recover fallback (Thrown.signal outcome) = return_reply outcome
recover fallback (Thrown.exception code message) = fail fallback
