-- ===== src/Postgres/Compatibility.antt =====
-- What packages/storage-postgres/src/migrations/ensure-compatible-schema.ts answers, by what the
-- catalogue has.
use authia.Prelude.{
  ℕ, ◌≡◌, refl, sym, ap, subst, ◌∙◌, ◌⊎◌, inl, inr, String, Bool, true, false, ◌&&◌, Option, none,
  some, List, [], ◌∷◌, Dict, All, map, if◌then◌else◌, Bool-cases,
}
use authia.Io.{Io, Completion, pure, catch_from, fail, io}
use authia.Io.Inversion.{Yields, bind-Yields, if-Yields, bind_value}
use authia.Postgres.Rows.{In}
use authia.Postgres.Connection.{Backend, World, tick, pg_error, guarded, unavailable}
use authia.Postgres.Schema.{
  Catalogue, SchemaStatus, expected_columns, expected_tables, all_in, select_tables, select_columns,
  query_catalogue, check_columns, ensure_compatible_schema,
}
use authia.Postgres.Catalogues.{
  HasTable, IsCompatible, all_in-All, All-all_in, select_columns-lookup, lookup-select_columns,
  lookup-select_tables,
}

module _ (backend : Backend) (catalogue : Catalogue) where
  answered :
      {A : Type 0} (o : Option String) (b : A) (w : World) {a : A} {w' : World}
      → (elim o as (λ x. Completion A × World) [
        | some message ↦ (Completion.threw (pg_error none message), tick w)
        | none ↦ (Completion.value b, tick w)
      ])
        ≡ (Completion.value a, w')
      → b ≡ a
  answered none b w h = cc
  answered (some message) b w h = cc

  query_catalogue-Yields :
      {A : Type 0} (statement : Catalogue → A) {w w' : World} {a : A}
      → Yields (query_catalogue backend catalogue statement) w a w'
      → statement catalogue ≡ a
  unfolding query_catalogue
  query_catalogue-Yields statement {w} h =
      answered (backend.fault w.step) (statement catalogue) w h.ran

  columns-HasTable :
      (table first : String) (rest : List String)
      → all_in (select_columns table catalogue) (first ∷ rest) ≡ true
      → HasTable catalogue (table, first ∷ rest)
  columns-HasTable table first rest h =
      let known = all_in-All (select_columns table catalogue) (first ∷ rest) h in
      (select_columns table catalogue, select_columns-lookup table catalogue first known.0, known)

  -- Tables of which each is to have a column at least.
  abbrev pub HaveColumns : Dict (List String) → Type 0
  HaveColumns expected =
      All (λ t. (first : String) × (rest : List String) × (t.1 ≡ first ∷ rest)) expected

  check_columns-HasTable :
      (expected : Dict (List String)) {w w' : World}
      → HaveColumns expected
      → Yields (check_columns backend catalogue expected) w SchemaStatus.compatible w'
      → All (HasTable catalogue) expected
  unfolding check_columns
  check_columns-HasTable [] some_columns h = tt
  check_columns-HasTable ((table, columns) ∷ expected) ((first, more, e), later) h =
      let (existing, w1, asked, rest) = bind-Yields _ _ h in
      elim (if-Yields (all_in existing columns) _ _ rest) [
        | inr (missing, now) ↦ absurd (cc (now.ran))
        | inl (all_there, now) ↦ (
          subst (λ c. HasTable catalogue (table, c)) (sym e)
              (columns-HasTable table first more (
                ap (all_in (select_columns table catalogue)) (sym e)
                ∙ ap (λ x. all_in x columns) (query_catalogue-Yields (select_columns table) asked)
                ∙ all_there)),
          check_columns-HasTable expected later now,
        )
      ]

  guarded_from :
      {A : Type 0} (message : String) (c : Completion A) (w1 : World) {a : A} {w' : World}
      → catch_from c (λ t. fail (unavailable message t)) w1 ≡ (Completion.value a, w')
      → (c ≡ Completion.value a) × (w1 ≡ w')
  guarded_from message (Completion.value b) w1 h = (cc h, cc h)
  guarded_from message (Completion.error e) w1 h = cc
  guarded_from message (Completion.threw t) w1 h = cc

  guarded-Yields :
      {A : Type 0} (message : String) (m : Io World A) {w w' : World} {a : A}
      → Yields (guarded message m) w a w'
      → Yields m w a w'
  unfolding io
  guarded-Yields message m {w} h =
      let (e, same) = guarded_from message (m w).0 (m w).1 h.ran in record { ran = cc (e, same) }

  expected-HaveColumns : HaveColumns expected_columns
  expected-HaveColumns = (
    (_, _, refl),
    (
      (_, _, refl),
      (
        (_, _, refl),
        ((_, _, refl), ((_, _, refl), ((_, _, refl), ((_, _, refl), ((_, _, refl), tt))))),
      ),
    ),
  )

  -- A schema that is found compatible has every table that is expected, with all its columns.
  pub ensure_compatible_schema-IsCompatible :
      {w w' : World}
      → Yields (ensure_compatible_schema backend catalogue) w SchemaStatus.compatible w'
      → IsCompatible catalogue
  unfolding ensure_compatible_schema
  ensure_compatible_schema-IsCompatible h =
      let (existing, w1, asked, rest) = bind-Yields _ _ (guarded-Yields _ _ h) in
      elim (if-Yields (all_in existing expected_tables) _ _ rest) [
        | inr (missing, now) ↦ absurd (cc (now.ran))
        | inl (all_there, now) ↦ check_columns-HasTable expected_columns expected-HaveColumns now
      ]

  module _ (no_fault : (step : ℕ) → backend.fault step ≡ none) where
    query_catalogue_value :
        {A : Type 0} (statement : Catalogue → A) (w : World)
        → query_catalogue backend catalogue statement w
          ≡ (Completion.value (statement catalogue), tick w)
    unfolding query_catalogue
    query_catalogue_value statement w = rw (query_catalogue, no_fault w.step) refl

    -- The answer of a check that meets no fault, as a test of the catalogue.
    abbrev columns_there : Dict (List String) → Bool
    columns_there [] = true
    columns_there ((table, columns) ∷ rest) =
        all_in (select_columns table catalogue) columns && columns_there rest

    abbrev status : Bool → SchemaStatus
    status true = SchemaStatus.compatible
    status false = SchemaStatus.migration_mismatch

    after_columns :
        (b : Bool) (later : Io World SchemaStatus) (c : Bool) (w : World)
        → (later w).0 ≡ Completion.value (status c)
        → ((if b then later else pure SchemaStatus.migration_mismatch) w).0
          ≡ Completion.value (status (b && c))
    after_columns true later c w h = h
    after_columns false later c w h = refl

    check_columns-status :
        (expected : Dict (List String)) (w : World)
        → (check_columns backend catalogue expected w).0
          ≡ Completion.value (status (columns_there expected))
    unfolding check_columns
    check_columns-status [] w = refl
    check_columns-status ((table, columns) ∷ expected) w =
        ap (λ x. x.0) (bind_value _ _ w _ _ (query_catalogue_value (select_columns table) w))
        ∙ after_columns (all_in (select_columns table catalogue) columns) _ _ _
            (check_columns-status expected (tick w))

    HasTable-columns_there :
        (expected : Dict (List String))
        → All (HasTable catalogue) expected
        → columns_there expected ≡ true
    HasTable-columns_there [] h = refl
    HasTable-columns_there ((table, columns) ∷ expected) ((existing, e, there), later) =
        let same = lookup-select_columns table catalogue existing e in
        rw same (rw (All-all_in existing columns there) (HasTable-columns_there expected later))

    HasTable-tables :
        (names : List String) (expected : Dict (List String))
        → All (λ name. In name names) (map (λ t. t.0) expected)
        → All (HasTable catalogue) expected
        → All (λ name. In name (select_tables names catalogue)) (map (λ t. t.0) expected)
    HasTable-tables names [] listed h = tt
    HasTable-tables names ((table, columns) ∷ expected) (now, rest) ((existing, e, there), later) =
        (
          lookup-select_tables names table catalogue existing now e,
          HasTable-tables names expected rest later,
        )

    abbrev found : Bool
    found =
        all_in (select_tables expected_tables catalogue) expected_tables
        && columns_there expected_columns

    IsCompatible-found : IsCompatible catalogue → found ≡ true
    IsCompatible-found h =
        rw
          (All-all_in (select_tables expected_tables catalogue) expected_tables (
            HasTable-tables expected_tables expected_columns
              (all_in-All expected_tables expected_tables refl) h))
          (HasTable-columns_there expected_columns h)

    guarded_value :
        {A : Type 0} (message : String) (m : Io World A) (w : World) (a : A)
        → (m w).0 ≡ Completion.value a
        → (guarded message m w).0 ≡ Completion.value a
    unfolding io
    guarded_value message m w a h =
        ap (λ c. (catch_from c (λ t. fail (unavailable message t)) (m w).1).0) h

    ensure_compatible_schema-status :
        (w : World)
        → (ensure_compatible_schema backend catalogue w).0 ≡ Completion.value (status found)
    unfolding ensure_compatible_schema
    ensure_compatible_schema-status w = guarded_value _ _ w _ (
        ap (λ x. x.0)
          (bind_value _ _ w _ _ (query_catalogue_value (select_tables expected_tables) w))
        ∙ after_columns (all_in (select_tables expected_tables catalogue) expected_tables) _ _ _
            (check_columns-status expected_columns (tick w)))

    -- On a server that fails no call, the check of the schema answers: compatible, where every table
    -- that is expected is there with all its columns, and a mismatch where one is not.
    pub ensure_compatible_schema_answers :
        (w : World)
        → (((ensure_compatible_schema backend catalogue w).0
              ≡ Completion.value SchemaStatus.compatible)
            × IsCompatible catalogue)
          ⊎ (((ensure_compatible_schema backend catalogue w).0
                ≡ Completion.value SchemaStatus.migration_mismatch)
              × (¬ IsCompatible catalogue))
    ensure_compatible_schema_answers w = elim (Bool-cases found) [
      | inl there ↦
          let answer =
            ensure_compatible_schema-status w ∙ ap (λ b. Completion.value (status b)) there in
          inl (
            answer,
            ensure_compatible_schema-IsCompatible (record {
              ran = ap (λ c. (c, (ensure_compatible_schema backend catalogue w).1)) answer;
            }),
          )
      | inr missing ↦ inr (
        ensure_compatible_schema-status w ∙ ap (λ b. Completion.value (status b)) missing,
        λ h. absurd (cc (IsCompatible-found h, missing)),
      )
    ]
