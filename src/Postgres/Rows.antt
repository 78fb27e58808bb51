-- ===== src/Postgres/Rows.antt =====
-- Facts on the rows that the statements of packages/storage-postgres select and update.
use authia.Prelude.{
  ◌≡◌, refl, ◌⊎◌, inl, inr, Bool, true, false, none, some, List, [], ◌∷◌, ◌||◌, any, arith,
  Bool-cases, All,
}
use authia.Postgres.Tables.{select, update, returning, first}

module _ {A : Type 0} where
  -- The row is in the table.
  abbrev pub In : A → List A → Type 0
  In a [] = ⊥
  In a (r ∷ rows) = (a ≡ r) ⊎ In a rows

  -- The first row that a SELECT gives is in the table and meets the condition.
  pub first-select-In :
      (p : A → Bool) (rows : List A) (a : A)
      → first (select p rows) ≡ some a
      → In a rows × (p a ≡ true)
  first-select-In p [] a h = cc
  first-select-In p (r ∷ rows) a h = ground (arith, first-select-In p rows a)

  -- A SELECT that gives no row: no row meets the condition.
  pub first-select-none :
      (p : A → Bool) (rows : List A) → first (select p rows) ≡ none → All (λ r. p r ≡ false) rows
  first-select-none p [] h = tt
  first-select-none p (r ∷ rows) h = ground (arith, first-select-none p rows)

  -- A row that an UPDATE returns is the image of a row that met the condition.
  pub first-returning-In :
      (p : A → Bool) (f : A → A) (rows : List A) (a : A)
      → first (returning p f rows) ≡ some a
      → (b : A) × In b rows × (p b ≡ true) × (a ≡ f b) × In a (update p f rows)
  first-returning-In p f [] a h = cc
  first-returning-In p f (r ∷ rows) a h = elim (Bool-cases (p r)) [
    | inl hit ↦ (r, inl refl, hit, ground arith, ground arith)
    | inr miss ↦
        let (b, listed, held, image, stored) = first-returning-In p f rows a (ground arith) in
        (b, inr listed, held, image, inr stored)
  ]

  pub any-or :
      (p q : A → Bool) (rows : List A) → any (λ r. p r || q r) rows ≡ (any p rows || any q rows)
  any-or p q [] = refl
  any-or p q (r ∷ rows) = ground (arith, any-or p q rows)
