-- ===== src/Io/Inversion.antt =====
-- What a successful run of a composed function says of its parts.
use authia.Prelude.{◌≡◌, refl, ap, ◌⊎◌, inl, inr, Bool, true, false, if◌then◌else◌}
use authia.Contracts.Errors.{AuthError}
use authia.Contracts.Results.{Reply}
use authia.Io.{
  Io, Completion, Thrown, value, error, threw, continue, ◌>>=◌, on_error_from, on_error,
  or_roll_back, roll_back, io,
}

module _ {W : Type 0} where
  -- A run of `m` from `w` that resolves with `a` in `w'`.
  pub record Yields {A : Type 0} (m : Io W A) (w : W) (a : A) (w' : W) : Type 0 where
    pub ran : m w ≡ (Completion.value a, w')

  module _ {A B : Type 0} where
    continue-Yields :
        (c : Completion A) (w1 : W) (k : A → Io W B) {b : B} {w' : W}
        → continue c k w1 ≡ (Completion.value b, w')
        → (a : A) × (c ≡ Completion.value a) × Yields (k a) w1 b w'
    continue-Yields (value a) w1 k h = (a, refl, record { ran = h })
    continue-Yields (error e) w1 k h = cc
    continue-Yields (threw t) w1 k h = cc

    pub bind-Yields :
        (m : Io W A) (k : A → Io W B) {w w' : W} {b : B}
        → Yields (m >>= k) w b w'
        → (a : A) × (w1 : W) × Yields m w a w1 × Yields (k a) w1 b w'
    unfolding io
    bind-Yields m k {w} h =
        let (a, e, rest) = continue-Yields (m w).0 (m w).1 k h.ran in
        (a, (m w).1, record { ran = cc e }, rest)

  module _ {A : Type 0} where
    on_error_yields :
        (c : Completion A) (w1 : W) (outcome : AuthError → Reply) {a : A} {w' : W}
        → on_error_from c (λ e. roll_back (outcome e)) w1 ≡ (Completion.value a, w')
        → (c ≡ Completion.value a) × (w1 ≡ w')
    on_error_yields (value b) w1 outcome h = (cc, cc)
    on_error_yields (error e) w1 outcome h = (cc, cc)
    on_error_yields (threw t) w1 outcome h = (cc, cc)

    -- Where every error rolls back, a value is that of the call itself.
    pub on_error-Yields :
        (m : Io W A) (outcome : AuthError → Reply) {w w' : W} {a : A}
        → Yields (on_error m (λ e. roll_back (outcome e))) w a w'
        → Yields m w a w'
    unfolding io
    on_error-Yields m outcome {w} h =
        let (e, same) = on_error_yields (m w).0 (m w).1 outcome h.ran in
        record { ran = cc (e, same) }

    pub or_roll_back-Yields :
        (m : Io W A) {w w' : W} {a : A} → Yields (or_roll_back m) w a w' → Yields m w a w'
    or_roll_back-Yields m h = on_error-Yields m Reply.failure h

  -- A first part that resolves with a value: the second goes on from there.
  pub bind_value :
      {A B : Type 0} (m : Io W A) (k : A → Io W B) (w w1 : W) (a : A)
      → m w ≡ (Completion.value a, w1)
      → (m >>= k) w ≡ k a w1
  unfolding io
  bind_value m k w w1 a h = ap (λ x. continue x.0 k x.1) h

  -- How a composed function ends, by how its first part does.
  module _ {A B : Type 0} where
    continue_cases :
        (E : Completion B × W → Type 0) (m : Io W A) (k : A → Io W B) (w : W) (c : Completion A)
        (w1 : W)
        → m w ≡ (c, w1)
        → ((a : A) (w' : W) → Yields m w a w' → E (k a w'))
        → ((e : AuthError) (w' : W) → m w ≡ (Completion.error e, w') → E (Completion.error e, w'))
        → ((t : Thrown) (w' : W) → m w ≡ (Completion.threw t, w') → E (Completion.threw t, w'))
        → E (continue c k w1)
    continue_cases E m k w (value a) w1 h on_value on_fail on_throw =
        on_value a w1 (record { ran = h })
    continue_cases E m k w (error e) w1 h on_value on_fail on_throw = on_fail e w1 h
    continue_cases E m k w (threw t) w1 h on_value on_fail on_throw = on_throw t w1 h

    pub bind_cases :
        (E : Completion B × W → Type 0) (m : Io W A) (k : A → Io W B) (w : W)
        → ((a : A) (w1 : W) → Yields m w a w1 → E (k a w1))
        → ((e : AuthError) (w1 : W) → m w ≡ (Completion.error e, w1) → E (Completion.error e, w1))
        → ((t : Thrown) (w1 : W) → m w ≡ (Completion.threw t, w1) → E (Completion.threw t, w1))
        → E ((m >>= k) w)
    unfolding io
    bind_cases E m k w on_value on_fail on_throw =
        continue_cases E m k w (m w).0 (m w).1 refl on_value on_fail on_throw

  -- A run of a conditional is one of its branches.
  pub if-Yields :
      {A : Type 0} (b : Bool) (m n : Io W A) {w w' : W} {a : A}
      → Yields (if b then m else n) w a w'
      → ((b ≡ true) × Yields m w a w') ⊎ ((b ≡ false) × Yields n w a w')
  if-Yields true m n h = inl (refl, h)
  if-Yields false m n h = inr (refl, h)
