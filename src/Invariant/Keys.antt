-- ===== src/Invariant/Keys.antt =====
-- Keys of a table: rows that differ in a column, and references that a column has to another table.
use authia.Prelude.{
  ◌≡◌, refl, sym, ap, ◌∙◌, inl, inr, String, Bool, true, false, ◌==◌, ◌||◌, eq_iff, eq_refl, List,
  [], ◌∷◌, ◌++◌, any, All, if◌then◌else◌, arith,
}
use authia.Postgres.Tables.{update}
use authia.Postgres.Rows.{In}

abbrev pub has_key : {A : Type 0} → (A → String) → String → A → Bool
has_key key k r = key r == k

==_sym : (s t : String) → (s == t) ≡ false → (t == s) ≡ false
==_sym s t h = ground (arith, eq_iff s t, eq_iff t s)

module _ {A : Type 0} (key : A → String) where
  -- No two rows have the same key.
  abbrev pub Distinct : List A → Type 0
  Distinct [] = Unit
  Distinct (r ∷ rows) = (any (has_key key (key r)) rows ≡ false) × Distinct rows

  any-append :
      (k : String) (rows : List A) (y : A)
      → any (has_key key k) rows ≡ false
      → (key y == k) ≡ false
      → any (has_key key k) (rows ++ y ∷ []) ≡ false
  any-append k [] y h miss = ground arith
  any-append k (r ∷ rows) y h miss = ground (arith, any-append k rows y)

  pub Distinct-append :
      (rows : List A) (y : A)
      → Distinct rows
      → any (has_key key (key y)) rows ≡ false
      → Distinct (rows ++ y ∷ [])
  Distinct-append [] y h fresh = (refl, tt)
  Distinct-append (r ∷ rows) y (h, hs) fresh = (
    any-append (key r) rows y h (==_sym (key r) (key y) (ground arith)),
    Distinct-append rows y hs (ground arith),
  )

  any-update :
      (k : String) (p : A → Bool) (f : A → A) (rows : List A)
      → ((r : A) → key (f r) ≡ key r)
      → any (has_key key k) (update p f rows) ≡ any (has_key key k) rows
  any-update k p f [] same = refl
  any-update k p f (r ∷ rows) same = ground (arith, same r, any-update k p f rows same)

  updated_key :
      (b : Bool) (f : A → A) (r : A)
      → ((r : A) → key (f r) ≡ key r)
      → key (if b then f r else r) ≡ key r
  updated_key true f r same = same r
  updated_key false f r same = refl

  pub Distinct-update :
      (p : A → Bool) (f : A → A) (rows : List A)
      → ((r : A) → key (f r) ≡ key r)
      → Distinct rows
      → Distinct (update p f rows)
  Distinct-update p f [] same h = tt
  Distinct-update p f (r ∷ rows) same (h, hs) = (
    ap (λ k. any (has_key key k) (update p f rows)) (updated_key (p r) f r same)
        ∙ any-update (key r) p f rows same
        ∙ h,
    Distinct-update p f rows same hs,
  )

  In-any : (a : A) (rows : List A) → In a rows → any (has_key key (key a)) rows ≡ true
  In-any a [] m = absurd m
  In-any a (r ∷ rows) (inl e) =
      ap (λ x. has_key key (key a) x || any (has_key key (key a)) rows) (sym e)
      ∙ ap (λ b. b || any (has_key key (key a)) rows) (eq_refl (key a))
  In-any a (r ∷ rows) (inr m) = ground (arith, In-any a rows m)

  -- Two rows with the same key are one.
  pub Distinct-In :
      (rows : List A) (a b : A) → Distinct rows → In a rows → In b rows → key a ≡ key b → a ≡ b
  Distinct-In [] a b h m n e = absurd m
  Distinct-In (r ∷ rows) a b (h, hs) (inl x) (inl y) e = x ∙ sym y
  Distinct-In (r ∷ rows) a b (h, hs) (inr x) (inr y) e = Distinct-In rows a b hs x y e
  Distinct-In (r ∷ rows) a b (h, hs) (inl x) (inr y) e =
      absurd (ground (arith, In-any b rows y, ap key x))
  Distinct-In (r ∷ rows) a b (h, hs) (inr x) (inl y) e =
      absurd (ground (arith, In-any a rows x, ap key y))

module _ {A : Type 0} {P Q : A → Type 0} where
  pub All-map : ((a : A) → P a → Q a) → (rows : List A) → All P rows → All Q rows
  All-map f [] h = tt
  All-map f (r ∷ rows) (h, hs) = (f r h, All-map f rows hs)

  pub All-append :
      ((a : A) → P a → Q a) → (rows : List A) (y : A) → All P rows → Q y → All Q (rows ++ y ∷ [])
  All-append f [] y h q = (q, tt)
  All-append f (r ∷ rows) y (h, hs) q = (f r h, All-append f rows y hs q)

updated_holds :
    {A : Type 0} (P : A → Type 0) (b : Bool) (x y : A) → P x → P y → P (if b then y else x)
updated_holds P true x y px py = py
updated_holds P false x y px py = px

pub All-update :
    {A : Type 0} (P : A → Type 0) (p : A → Bool) (f : A → A) (rows : List A)
    → ((r : A) → P r → P (f r))
    → All P rows
    → All P (update p f rows)
All-update P p f [] keep h = tt
All-update P p f (r ∷ rows) keep (h, hs) =
    (updated_holds P (p r) r (f r) h (keep r h), All-update P p f rows keep hs)
