-- ===== src/Invariant/Rows.antt =====
-- How the rows of a table change: they stay in their order, each related to what it was, and new ones
-- come after them.
use authia.Prelude.{◌≡◌, refl, Bool, true, false, List, [], ◌∷◌, ◌++◌, if◌then◌else◌}
use authia.Postgres.Tables.{update}

module _ {A : Type 0} (R : A → A → Type 0) where
  abbrev pub Extends : List A → List A → Type 0
  Extends [] ys = Unit
  Extends (x ∷ xs) [] = ⊥
  Extends (x ∷ xs) (y ∷ ys) = R x y × Extends xs ys

  pub Extends-refl : ((x : A) → R x x) → (xs : List A) → Extends xs xs
  Extends-refl r [] = tt
  Extends-refl r (x ∷ xs) = (r x, Extends-refl r xs)

  pub Extends-trans :
      ((x y z : A) → R x y → R y z → R x z)
      → (xs ys zs : List A) → Extends xs ys
      → Extends ys zs
      → Extends xs zs
  Extends-trans t [] ys zs h k = tt
  Extends-trans t (x ∷ xs) [] zs h k = absurd h
  Extends-trans t (x ∷ xs) (y ∷ ys) [] h k = absurd k
  Extends-trans t (x ∷ xs) (y ∷ ys) (z ∷ zs) (h, hs) (k, ks) =
      (t x y z h k, Extends-trans t xs ys zs hs ks)

  -- INSERT
  pub Extends-append : ((x : A) → R x x) → (xs : List A) (y : A) → Extends xs (xs ++ y ∷ [])
  Extends-append r [] y = tt
  Extends-append r (x ∷ xs) y = (r x, Extends-append r xs y)

  updated_row : (b : Bool) (x y : A) → R x x → (b ≡ true → R x y) → R x (if b then y else x)
  updated_row true x y r h = h refl
  updated_row false x y r h = r

  -- UPDATE: the rows that are selected are related to what they become.
  pub Extends-update :
      ((x : A) → R x x)
      → (p : A → Bool) (f : A → A) → ((x : A) → p x ≡ true → R x (f x))
      → (xs : List A) → Extends xs (update p f xs)
  Extends-update r p f h [] = tt
  Extends-update r p f h (x ∷ xs) =
      (updated_row (p x) x (f x) (r x) (h x), Extends-update r p f h xs)
