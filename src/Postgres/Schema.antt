-- ===== src/Postgres/Schema.antt =====
-- packages/storage-postgres/src/migrations/ensure-compatible-schema.ts: the check of the catalogue.
use authia.Prelude.{
  String, Bool, true, ◌==◌, ◌&&◌, none, some, List, [], ◌∷◌, Dict, any, if◌then◌else◌,
}
use authia.Io.{Io, Completion, pure, ◌>>=◌}
use authia.Postgres.Connection.{Backend, World, guarded, pg_error, tick}

-- information_schema: the public tables, each with its columns.
abbrev pub Catalogue : Type 0
Catalogue = Dict (List String)

pub data SchemaStatus : Type 0 where
  compatible migration_mismatch : SchemaStatus

abbrev pub expected_columns : Dict (List String)
expected_columns =
    ("users", "id" ∷ "created_at" ∷ [])
    ∷ ("local_identities", "id" ∷ "user_id" ∷ "normalized_email" ∷ "password_hash" ∷ [])
    ∷ (
      "sessions",
      "id" ∷ "user_id" ∷ "current_token_id" ∷ "current_token_verifier" ∷ "last_rotated_at"
          ∷ "expires_at" ∷ "idle_expires_at" ∷ "revoked_at" ∷ [],
    )
    ∷ (
      "oauth_states",
      "id" ∷ "provider" ∷ "state_hash" ∷ "code_verifier_ciphertext" ∷ "redirect_uri_hash"
          ∷ "expires_at" ∷ "consumed_at" ∷ [],
    )
    ∷ ("oauth_identities", "id" ∷ "user_id" ∷ "provider" ∷ "provider_subject" ∷ [])
    ∷ (
      "password_reset_tokens",
      "id" ∷ "token_hash" ∷ "normalized_email" ∷ "expires_at" ∷ "consumed_at" ∷ [],
    )
    ∷ (
      "email_verification_tokens",
      "id" ∷ "token_hash" ∷ "normalized_email" ∷ "expires_at" ∷ "consumed_at" ∷ [],
    )
    ∷ ("verified_emails", "normalized_email" ∷ "verified_at" ∷ [])
    ∷ []

abbrev pub expected_tables : List String
expected_tables =
    "users" ∷ "local_identities" ∷ "sessions" ∷ "oauth_states" ∷ "oauth_identities"
    ∷ "password_reset_tokens" ∷ "email_verification_tokens" ∷ "verified_emails" ∷ []

-- set.has(name), of a set that was made from rows
abbrev pub has : List String → String → Bool
has names name = any (λ n. n == name) names

-- The loops that look for a name that is missing.
abbrev pub all_in : List String → List String → Bool
all_in existing [] = true
all_in existing (name ∷ rest) = has existing name && all_in existing rest

-- SELECT table_name … WHERE table_name = ANY($1)
abbrev pub select_tables : List String → Catalogue → List String
select_tables names [] = []
select_tables names ((table, columns) ∷ rest) =
    if has names table then table ∷ select_tables names rest else select_tables names rest

-- SELECT column_name … WHERE table_name = $1
abbrev pub select_columns : String → Catalogue → List String
select_columns wanted [] = []
select_columns wanted ((table, columns) ∷ rest) =
    if table == wanted then columns else select_columns wanted rest

module _ (backend : Backend) (catalogue : Catalogue) where
  -- client.query(…) on the catalogue, which reads only
  unfoldable pub query_catalogue : {A : Type 0} → (Catalogue → A) → Io World A
  query_catalogue statement w = elim (backend.fault w.step) [
    | some message ↦ (Completion.threw (pg_error none message), tick w)
    | none ↦ (Completion.value (statement catalogue), tick w)
  ]

  unfoldable pub check_columns : Dict (List String) → Io World SchemaStatus
  check_columns [] = pure SchemaStatus.compatible
  check_columns ((table, columns) ∷ rest) = do
    existing ← query_catalogue (select_columns table)
    let later = check_columns rest
    if all_in existing columns then later else pure SchemaStatus.migration_mismatch

  unfoldable pub ensure_compatible_schema : Io World SchemaStatus
  unfolding query_catalogue check_columns
  ensure_compatible_schema = guarded "Failed to check schema compatibility" (do
    existing ← query_catalogue (select_tables expected_tables)
    if all_in existing expected_tables
        then check_columns expected_columns
        else pure SchemaStatus.migration_mismatch)
