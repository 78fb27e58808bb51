-- ===== src/Adapter/Headers.antt =====
-- What normalizeHeaders of packages/node-adapter/src/parse-request.ts keeps of a header: its value,
-- if the request has a single one.
use authia.Prelude.{
  ◌≡◌, refl, sym, ap, subst, ◌∙◌, inl, inr, String, Bool, true, false, ◌==◌, eq_iff, Option, none,
  some, List, [], ◌∷◌, ◌++◌, Dict, lookup, if◌then◌else◌, arith, Bool-cases, Option-cases,
}
use mathlib.Core.List.{append-nil, append_assoc}
use authia.Contracts.Services.{Platform}
use authia.Adapter.Parsing.{
  HeaderValue, contains, name_in, single_value, Normalized, add_duplicate, add_header,
  normalize_headers,
}

abbrev pub header_values : HeaderValue → List String
header_values (HeaderValue.one v) = v ∷ []
header_values (HeaderValue.many values) = values

abbrev pub option_list : Option String → List String
option_list none = []
option_list (some v) = v ∷ []

single_value-values :
    (value : HeaderValue) (v : String) → single_value value ≡ some v → header_values value ≡ v ∷ []
single_value-values (HeaderValue.one u) v h = cc h
single_value-values (HeaderValue.many []) v h = cc h
single_value-values (HeaderValue.many (u ∷ [])) v h = cc h
single_value-values (HeaderValue.many (u ∷ u' ∷ us)) v h = cc h

contains-append :
    (names : List String) (name other : String)
    → contains names name ≡ true
    → contains (names ++ other ∷ []) name ≡ true
contains-append [] name other h = cc
contains-append (n ∷ names) name other h = ground (arith, contains-append names name other)

contains-append_hit :
    (names : List String) (name other : String)
    → (other == name) ≡ true
    → contains (names ++ other ∷ []) name ≡ true
contains-append_hit [] name other h = ground arith
contains-append_hit (n ∷ names) name other h =
    ground (arith, contains-append_hit names name other h)

lookup-append_miss :
    (headers : Dict String) (name other v : String)
    → (other == name) ≡ false
    → lookup name (headers ++ (other, v) ∷ []) ≡ lookup name headers
lookup-append_miss [] name other v miss = ground arith
lookup-append_miss ((n, u) ∷ headers) name other v miss =
    ground (arith, lookup-append_miss headers name other v miss)

lookup-append_new :
    (headers : Dict String) (name other v : String)
    → (other == name) ≡ true
    → lookup name headers ≡ none
    → lookup name (headers ++ (other, v) ∷ []) ≡ some v
lookup-append_new [] name other v hit h = ground arith
lookup-append_new ((n, u) ∷ headers) name other v hit h =
    ground (arith, lookup-append_new headers name other v hit)

-- A name that is not in the headers, and not inherited, has no value there.
name_in-none :
    (name : String) (headers : Dict String)
    → name_in name headers ≡ false
    → lookup name headers ≡ none
name_in-none name headers h = elim (Option-cases (lookup name headers)) [
  | inl absent ↦ absent
  | inr (v, found) ↦ absurd (ground arith)
]

module _ (platform : Platform) where
  -- All values that the request has for a header, whatever the case of its name.
  abbrev pub values_of : String → Dict HeaderValue → List String
  values_of name [] = []
  values_of name ((raw_name, value) ∷ rest) =
      if platform.to_lower_case raw_name == name
      then header_values value ++ values_of name rest
      else values_of name rest

  add_header-duplicates :
      (name other : String) (value : Option String) (n : Normalized)
      → contains n.duplicates name ≡ true
      → contains (add_header other value n).duplicates name ≡ true
  add_header-duplicates name other none n h = contains-append n.duplicates name other h
  add_header-duplicates name other (some v) n h = elim (Bool-cases (name_in other n.headers)) [
    | inl taken ↦ rw taken (contains-append n.duplicates name other h)
    | inr free ↦ rw free h
  ]

  -- A duplicate is never forgotten.
  normalize-duplicates :
      (name : String) (n : Normalized) (entries : Dict HeaderValue)
      → contains n.duplicates name ≡ true
      → contains (normalize_headers platform n entries).duplicates name ≡ true
  unfolding normalize_headers
  normalize-duplicates name n [] h = h
  normalize-duplicates name n ((raw, value) ∷ entries) h =
      normalize-duplicates name (add_header (platform.to_lower_case raw) (single_value value) n)
        entries (add_header-duplicates name (platform.to_lower_case raw) (single_value value) n h)

  -- What an entry adds to the values of a header.
  abbrev own_values : String → String → HeaderValue → List String
  own_values name other value = if other == name then header_values value else []

  duplicate_differs :
      (name other : String) (names : List String)
      → contains (names ++ other ∷ []) name ≡ false
      → (other == name) ≡ false
  duplicate_differs name other names fresh = elim (Bool-cases (other == name)) [
    | inl same ↦ absurd (cc (contains-append_hit names name other same, fresh))
    | inr differs ↦ differs
  ]

  -- A header that stays unambiguous has the values that it had and those of the entry.
  unchanged :
      (name other : String) (value : HeaderValue) (n : Normalized)
      → contains (n.duplicates ++ other ∷ []) name ≡ false
      → option_list (lookup name n.headers) ++ own_values name other value
        ≡ option_list (lookup name n.headers)
  unchanged name other value n fresh =
      rw (duplicate_differs name other n.duplicates fresh)
        (append-nil (option_list (lookup name n.headers)))

  added :
      (name other v : String) (value : HeaderValue) (n : Normalized)
      → header_values value ≡ v ∷ []
      → name_in other n.headers ≡ false
      → option_list (lookup name n.headers) ++ own_values name other value
        ≡ option_list (lookup name (n.headers ++ (other, v) ∷ []))
  added name other v value n e free = elim (Bool-cases (other == name)) [
    | inr differs ↦
        rw (differs, lookup-append_miss n.headers name other v differs)
          (append-nil (option_list (lookup name n.headers)))
    | inl same ↦
        let absent : lookup name n.headers ≡ none =
          subst (λ k. lookup k n.headers ≡ none) ((eq_iff other name).0 same)
            (name_in-none other n.headers free) in
        rw (same, lookup-append_new n.headers name other v same absent, absent) e
  ]

  added_if_new :
      (taken : Bool) (name other v : String) (value : HeaderValue) (n : Normalized)
      → name_in other n.headers ≡ taken
      → header_values value ≡ v ∷ []
      → let m =
          if taken
          then add_duplicate other n
          else record n { headers = n.headers ++ (other, v) ∷ [] } in
        contains m.duplicates name ≡ false
        → option_list (lookup name n.headers) ++ own_values name other value
          ≡ option_list (lookup name m.headers)
  added_if_new true name other v value n e s fresh = unchanged name other value n fresh
  added_if_new false name other v value n e s fresh = added name other v value n s e

  add_header-values :
      (name other : String) (value : HeaderValue) (single : Option String) (n : Normalized)
      → single_value value ≡ single
      → contains (add_header other single n).duplicates name ≡ false
      → option_list (lookup name n.headers) ++ own_values name other value
        ≡ option_list (lookup name (add_header other single n).headers)
  add_header-values name other value none n e fresh = unchanged name other value n fresh
  add_header-values name other value (some v) n e fresh =
      added_if_new (name_in other n.headers) name other v value n refl
        (single_value-values value v e) fresh

  fresh_before :
      (name : String) (n : Normalized) (entries : Dict HeaderValue)
      → contains (normalize_headers platform n entries).duplicates name ≡ false
      → contains n.duplicates name ≡ false
  fresh_before name n entries fresh = elim (Bool-cases (contains n.duplicates name)) [
    | inr absent ↦ absent
    | inl listed ↦ absurd (cc (normalize-duplicates name n entries listed, fresh))
  ]

  entry_values :
      (name : String) (raw : String) (value : HeaderValue) (rest : Dict HeaderValue)
      → values_of name ((raw, value) ∷ rest)
        ≡ own_values name (platform.to_lower_case raw) value ++ values_of name rest
  entry_values name raw value rest = ground arith

  -- A header that is no duplicate at the end has had one value at most, and it is kept.
  pub normalize-values :
      (name : String) (n : Normalized) (entries : Dict HeaderValue)
      → contains (normalize_headers platform n entries).duplicates name ≡ false
      → option_list (lookup name n.headers) ++ values_of name entries
        ≡ option_list (lookup name (normalize_headers platform n entries).headers)
  unfolding normalize_headers
  normalize-values name n [] fresh = append-nil (option_list (lookup name n.headers))
  normalize-values name n ((raw, value) ∷ entries) fresh =
      let other = platform.to_lower_case raw in
      let m = add_header other (single_value value) n in
      ap (λ l. option_list (lookup name n.headers) ++ l) (entry_values name raw value entries)
      ∙ sym (
          append_assoc (option_list (lookup name n.headers)) (own_values name other value)
            (values_of name entries))
      ∙ ap (λ l. l ++ values_of name entries)
          (add_header-values name other value (single_value value) n refl
            (fresh_before name m entries fresh))
      ∙ normalize-values name m entries fresh
