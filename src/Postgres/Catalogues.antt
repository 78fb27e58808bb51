-- ===== src/Postgres/Catalogues.antt =====
-- What the queries of packages/storage-postgres/src/migrations/ensure-compatible-schema.ts find in a
-- catalogue.
use authia.Prelude.{
  ◌≡◌, refl, sym, ap, subst, ◌∙◌, inl, inr, String, Bool, true, false, ◌==◌, eq_iff, eq_refl, some,
  List, [], ◌∷◌, All, lookup, if◌then◌else◌, arith, Bool-cases,
}
use authia.Postgres.Rows.{In}
use authia.Postgres.Schema.{Catalogue, expected_columns, has, all_in, select_tables, select_columns}

-- A table of the catalogue that has the columns.
abbrev pub HasTable : Catalogue → String × List String → Type 0
HasTable catalogue (table, columns) =
    (existing : List String) × (lookup table catalogue ≡ some existing)
    × All (λ column. In column existing) columns

-- Every table that is expected, with all its columns.
abbrev pub IsCompatible : Catalogue → Type 0
IsCompatible catalogue = All (HasTable catalogue) expected_columns

pub has-In : (names : List String) (name : String) → has names name ≡ true → In name names
has-In [] name h = cc
has-In (n ∷ names) name h = elim (Bool-cases (n == name)) [
  | inl same ↦ inl (sym ((eq_iff n name).0 same))
  | inr differs ↦ inr (has-In names name (ground arith))
]

pub In-has : (names : List String) (name : String) → In name names → has names name ≡ true
In-has [] name m = absurd m
In-has (n ∷ names) name (inl e) = ground (arith, eq_refl n, e)
In-has (n ∷ names) name (inr m) = ground (arith, In-has names name m)

pub all_in-All :
    (existing names : List String)
    → all_in existing names ≡ true
    → All (λ name. In name existing) names
all_in-All existing [] h = tt
all_in-All existing (name ∷ rest) h =
    (has-In existing name (ground arith), all_in-All existing rest (ground arith))

pub All-all_in :
    (existing names : List String)
    → All (λ name. In name existing) names
    → all_in existing names ≡ true
All-all_in existing [] h = refl
All-all_in existing (name ∷ rest) (now, later) =
    ground (arith, In-has existing name now, All-all_in existing rest later)

pub select_columns-lookup :
    (table : String) (catalogue : Catalogue) (column : String)
    → In column (select_columns table catalogue)
    → lookup table catalogue ≡ some (select_columns table catalogue)
select_columns-lookup table [] column m = absurd m
select_columns-lookup table ((t, columns) ∷ rest) column m = elim (Bool-cases (t == table)) [
  | inl hit ↦ rw hit refl
  | inr miss ↦
      rw miss (select_columns-lookup table rest column (subst (In column) (rw miss refl) m))
]

pub lookup-select_columns :
    (table : String) (catalogue : Catalogue) (existing : List String)
    → lookup table catalogue ≡ some existing
    → select_columns table catalogue ≡ existing
lookup-select_columns table [] existing e = cc
lookup-select_columns table ((t, columns) ∷ rest) existing e =
    ground (arith, lookup-select_columns table rest existing)

pub in_either :
    (b : Bool) (t table : String) (tables : List String)
    → In table tables
    → In table (if b then t ∷ tables else tables)
in_either true t table tables m = inr m
in_either false t table tables m = m

pub lookup-select_tables :
    (names : List String) (table : String) (catalogue : Catalogue) (existing : List String)
    → In table names
    → lookup table catalogue ≡ some existing
    → In table (select_tables names catalogue)
lookup-select_tables names table [] existing m e = cc
lookup-select_tables names table ((t, columns) ∷ rest) existing m e =
    elim (Bool-cases (t == table)) [
      | inl hit ↦
          let same : t ≡ table = (eq_iff t table).0 hit in
          rw (ap (has names) same ∙ In-has names table m) (inl (sym same))
      | inr miss ↦
          in_either (has names t) t table (select_tables names rest)
            (lookup-select_tables names table rest existing m (ground arith))
    ]
