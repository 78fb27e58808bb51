-- ===== src/Io/Keeps.antt =====
-- Rules by which an asynchronous function of the source keeps a property of the world, however it
-- ends, one rule for each way to build such a function.
use authia.Prelude.{◌≡◌, refl, sym, subst, Bool, true, false, if◌then◌else◌}
use authia.Contracts.Errors.{AuthError}
use authia.Io.{
  Io, Thrown, Completion, value, error, threw, pure, fail, throw, continue, ◌>>=◌, on_error_from,
  on_error, catch_from, catch, both_from, both, io,
}

module _ {W : Type 0} where
  pub record Keeps (P : W → Type 0) {A : Type 0} (m : Io W A) : Type 0 where
    pub at : (w : W) → P w → P (m w).1

  both_from_world :
      {A B : Type 0} (c : Completion A) (d : Completion B) (w : W) → (both_from c d w).1 ≡ w
  both_from_world (threw t) d w = refl
  both_from_world (value a) (threw t) w = refl
  both_from_world (error e) (threw t) w = refl
  both_from_world (error e) _ w = refl
  both_from_world (value a) (error e) w = refl
  both_from_world (value a) (value b) w = refl

  module _ {P : W → Type 0} where
    pub Keeps-pure : {A : Type 0} (a : A) → Keeps P {A = A} (pure a)
    Keeps-pure a = record { at = λ w h. h }

    pub Keeps-fail : {A : Type 0} (e : AuthError) → Keeps P {A = A} (fail e)
    Keeps-fail e = record { at = λ w h. h }

    pub Keeps-throw : {A : Type 0} (t : Thrown) → Keeps P {A = A} (throw t)
    Keeps-throw t = record { at = λ w h. h }

    continue_keeps :
        {A B : Type 0} (c : Completion A) (k : A → Io W B) (w : W)
        → ((a : A) → Keeps P (k a))
        → P w
        → P (continue c k w).1
    continue_keeps (value a) k w kk h = (kk a).at w h
    continue_keeps (error e) k w kk h = h
    continue_keeps (threw t) k w kk h = h

    pub Keeps-bind :
        {A B : Type 0} (m : Io W A) (k : A → Io W B)
        → Keeps P m
        → ((a : A) → Keeps P (k a))
        → Keeps P (m >>= k)
    unfolding io
    Keeps-bind m k km kk = record {
      at = λ w h. let (c, w') = m w in continue_keeps c k w' kk (km.at w h);
    }

    on_error_keeps :
        {A : Type 0} (c : Completion A) (f : AuthError → Io W A) (w : W)
        → ((e : AuthError) → Keeps P (f e))
        → P w
        → P (on_error_from c f w).1
    on_error_keeps (value a) f w kf h = h
    on_error_keeps (error e) f w kf h = (kf e).at w h
    on_error_keeps (threw t) f w kf h = h

    pub Keeps-on_error :
        {A : Type 0} (m : Io W A) (f : AuthError → Io W A)
        → Keeps P m
        → ((e : AuthError) → Keeps P (f e))
        → Keeps P (on_error m f)
    unfolding io
    Keeps-on_error m f km kf = record {
      at = λ w h. let (c, w') = m w in on_error_keeps c f w' kf (km.at w h);
    }

    catch_keeps :
        {A : Type 0} (c : Completion A) (f : Thrown → Io W A) (w : W)
        → ((t : Thrown) → Keeps P (f t))
        → P w
        → P (catch_from c f w).1
    catch_keeps (value a) f w kf h = h
    catch_keeps (error e) f w kf h = h
    catch_keeps (threw t) f w kf h = (kf t).at w h

    pub Keeps-catch :
        {A : Type 0} (m : Io W A) (f : Thrown → Io W A)
        → Keeps P m
        → ((t : Thrown) → Keeps P (f t))
        → Keeps P (catch m f)
    unfolding io
    Keeps-catch m f km kf = record {
      at = λ w h. let (c, w') = m w in catch_keeps c f w' kf (km.at w h);
    }

    pub Keeps-both :
        {A B : Type 0} (m : Io W A) (n : Io W B) → Keeps P m → Keeps P n → Keeps P (both m n)
    unfolding io
    Keeps-both m n km kn = record {
      at = λ w h.
          let (c, w') = m w in
          let (d, w'') = n w' in subst P (sym (both_from_world c d w'')) (kn.at w' (km.at w h));
    }

    pub Keeps-if :
        {A : Type 0} (b : Bool) (m n : Io W A)
        → Keeps P m
        → Keeps P n
        → Keeps P (if b then m else n)
    Keeps-if true m n km kn = km
    Keeps-if false m n km kn = kn

-- The rules, as a set for `search`.
pub ruleset keeps_rules = (
  Keeps-pure, Keeps-fail, Keeps-throw, Keeps-bind, Keeps-on_error, Keeps-catch, Keeps-both,
  Keeps-if,
)
