-- ===== src/Application/Composition.antt =====
-- What an application satisfies that createCycle2ReferenceApp of examples/cycle2-compose.ts makes.
use authia.Prelude.{◌≡◌, refl, String, true, Option, none, subst, ap}
use authia.Contracts.Actions.{SupportedAction}
use authia.Contracts.Errors.{ValidationResult}
use authia.Io.{Completion}
use authia.Startup.{validate_startup_config}
use authia.Startup.Accepted.{plugin_actions}
use authia.Adapter.{apply_result, validate_node_config}
use authia.Adapter.ParseRequest.{Json, parse_request}
use authia.Adapter.Runtime.{
  RuntimeAdapter, CreatedAdapter, adapter_if_valid, create_node_runtime_adapter,
}
use authia.EmailPassword.Plugin.{validate_email_password_config}
use authia.Oauth.Config.{OauthRuntimeConfig}
use authia.Oauth.Plugin.{validate_oauth_config}
use authia.Postgres.Connection.{World}
use authia.Postgres.Schema.{Catalogue, SchemaStatus, ensure_compatible_schema}
use authia.Postgres.Catalogues.{IsCompatible}
use authia.Postgres.Compatibility.{ensure_compatible_schema-IsCompatible}
use authia.System.{Environment}
use authia.Application.Config.{PartialConfig, merged_config, create_reference_app}
use authia.Application.{
  AuthConfig, adapter_config, startup_config, oauth_config, path_text, App, Composed, check_then,
  plugins_of, compose_kernel, after_schema, after_runtime, create_cycle2_reference_app,
}

check_then_app :
    (r : ValidationResult) (next : Composed × World) (w w' : World) (a : App)
    → check_then r next w ≡ (Composed.app a, w')
    → (r ≡ ValidationResult.valid) × (next ≡ (Composed.app a, w'))
check_then_app ValidationResult.valid next w w' a h = (refl, h)
check_then_app (ValidationResult.misconfigured message) next w w' a h = cc h

module _ (env : Environment) (json_parse : String → Option Json) (catalogue : Catalogue)
    (config : AuthConfig) where
  abbrev pub oauth : Option OauthRuntimeConfig
  oauth = (validate_oauth_config (oauth_config config) none).1

  -- The adapter that is made for a configuration that passes its check.
  abbrev pub adapter : RuntimeAdapter
  adapter = record {
    parse_request = λ input. parse_request env.platform json_parse input (adapter_config config);
    apply_result = apply_result true;
    redirects = true;
  }

  -- What holds of an app that has been made for the configuration.
  pub record IsStarted (a : App) : Type 1 where
    pub composed : a ≡ compose_kernel env json_parse catalogue config oauth adapter
    pub email_password :
        validate_email_password_config
          (path_text config (config.entrypoint_path SupportedAction.sign_up_with_password))
          (path_text config (config.entrypoint_path SupportedAction.sign_in_with_password))
        ≡ ValidationResult.valid
    pub oauth_valid : (validate_oauth_config (oauth_config config) none).0 ≡ ValidationResult.valid
    pub origin :
        validate_node_config env.platform config.public_origin config.trusted_forwarded_headers
        ≡ ValidationResult.valid
    pub startup :
        validate_startup_config
          (startup_config config)
          (plugin_actions (plugins_of env json_parse catalogue oauth))
          true
        ≡ ValidationResult.valid
    pub schema : IsCompatible catalogue

  after_schema_app :
      (b a : App) (c : Completion SchemaStatus) (w1 w' : World)
      → after_schema env json_parse catalogue b (c, w1) ≡ (Composed.app a, w')
      → (c ≡ Completion.value SchemaStatus.compatible) × (a ≡ b)
  after_schema_app b a (Completion.value SchemaStatus.compatible) w1 w' h = (refl, cc h)
  after_schema_app b a (Completion.value SchemaStatus.migration_mismatch) w1 w' h = cc h
  after_schema_app b a (Completion.error e) w1 w' h = cc h
  after_schema_app b a (Completion.threw t) w1 w' h = cc h

  adapter_created :
      validate_node_config env.platform config.public_origin config.trusted_forwarded_headers
        ≡ ValidationResult.valid
      → create_node_runtime_adapter env.platform json_parse (adapter_config config)
        ≡ CreatedAdapter.created adapter
  unfolding create_node_runtime_adapter
  adapter_created e = ap (adapter_if_valid env.platform json_parse (adapter_config config)) e

  -- An app that is made from a merged configuration.
  pub create_cycle2_reference_app-IsStarted :
      (a : App) (w w' : World)
      → create_cycle2_reference_app env json_parse catalogue config w ≡ (Composed.app a, w')
      → IsStarted a
  unfolding create_cycle2_reference_app
  create_cycle2_reference_app-IsStarted a w w' h =
      let (passwords, h1) = check_then_app _ _ w w' a h in
      let (providers, h2) = check_then_app _ _ w w' a h1 in
      let (origin, h3) = check_then_app _ _ w w' a h2 in
      let h4 =
        subst (λ r. after_runtime env json_parse catalogue config oauth r w ≡ (Composed.app a, w'))
          (adapter_created origin) h3 in
      let (startup, h5) = check_then_app _ _ w w' a h4 in
      let checked = ensure_compatible_schema env.backend catalogue w in
      let (compatible, same) =
        after_schema_app (compose_kernel env json_parse catalogue config oauth adapter) a checked.0
          checked.1 w' h5 in
      record {
        composed = same;
        email_password = passwords;
        oauth_valid = providers;
        origin = origin;
        startup = startup;
        schema =
            ensure_compatible_schema-IsCompatible env.backend catalogue
              (record { ran = ap (λ c. (c, checked.1)) compatible });
      }

-- An app that is made for what is given of a configuration has passed every check of the merged one:
-- those of both plugins, of the origin and the trusted headers, the startup validation for the actions
-- of the plugins, and that of the schema, which has every table that is expected with all its columns;
-- and it has the adapter and the kernel of the merged configuration.
pub create_reference_app-IsStarted :
    (env : Environment) (json_parse : String → Option Json) (catalogue : Catalogue)
    (p : PartialConfig) (a : App) (w w' : World)
    → create_reference_app env json_parse catalogue p w ≡ (Composed.app a, w')
    → IsStarted env json_parse catalogue (merged_config p) a
unfolding create_reference_app
create_reference_app-IsStarted env json_parse catalogue p a w w' h =
    create_cycle2_reference_app-IsStarted env json_parse catalogue (merged_config p) a w w' h
