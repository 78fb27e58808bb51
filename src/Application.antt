-- ===== src/Application.antt =====
-- examples/cycle2-compose.ts: the checks with which an application starts, and
-- the path of a request through the adapter and the kernel.
pub mod Config
pub mod Composition
pub mod Answers
pub mod Serving
use Prim.Native.String as Text
use authia.Prelude.{String, Bool, Option, none, some, List, [], ◌∷◌, ◌++◌, Dict, map}
use authia.Contracts.Actions.{SupportedAction}
use authia.Contracts.Errors.{ValidationResult, AuthError}
use authia.Contracts.Sessions.{TransportKind}
use authia.Contracts.Results.{AuthResult, Reply, RequestContext}
use authia.Contracts.Services.{Plugin, Policy, ProviderConfig}
use authia.Io.{Completion, Thrown}
use authia.Startup.{SessionTransportMode, StartupConfig, value_of, validate_startup_config}
use authia.Adapter.{Applied, AdapterResponse, validate_node_config}
use authia.Adapter.Parsing.{ParseInput, AdapterConfig, Parsed}
use authia.Adapter.ParseRequest.{Json}
use authia.Adapter.Runtime.{RuntimeAdapter, CreatedAdapter, create_node_runtime_adapter}
use authia.EmailPassword.Plugin.{
  email_password_actions, validate_email_password_config, create_email_password_plugin,
}
use authia.Oauth.Config.{OauthRuntimeConfig}
use authia.Oauth.Plugin.{
  oauth_actions, OauthConfigInput, validate_oauth_config, create_oauth_plugin,
}
use authia.Postgres.Connection.{World}
use authia.Postgres.Schema.{Catalogue, SchemaStatus, ensure_compatible_schema}
use authia.Kernel.PolicyRun.{KernelConfig, Kernel}
use authia.Kernel.Registration.{register_plugin, register_policies}
use authia.Kernel.Handle.{handle}
use authia.System.{Environment, auth_kernel}

-- AuthConfig, as far as the packages read it. Of a transport, `none` is a key that is absent, and
-- `some none` one that is there and undefined.
pub record AuthConfig : Type 0 where
  pub session_transport_mode : SessionTransportMode
  pub entrypoint_method : SupportedAction → Option String
  pub entrypoint_path : SupportedAction → Option String
  pub entrypoint_transport : SupportedAction → Option (Option TransportKind)
  pub policies : List (Policy World)
  pub public_origin : String
  pub trusted_forwarded_headers : List String
  pub cookie_path : String
  pub session_cookie_name : String
  pub oauth_providers : Option (Dict ProviderConfig)

-- What each part reads of the configuration.
module _ (config : AuthConfig) where
  abbrev pub adapter_config : AdapterConfig
  adapter_config = record {
    entrypoint_method = config.entrypoint_method;
    entrypoint_path = config.entrypoint_path;
    entrypoint_transport = λ action. value_of (config.entrypoint_transport action);
    session_cookie_name = config.session_cookie_name;
    public_origin = config.public_origin;
    trusted_forwarded_headers = config.trusted_forwarded_headers;
  }

  abbrev pub startup_providers :
      Option (Dict ProviderConfig) → Option (Dict (Option ProviderConfig))
  startup_providers none = none
  startup_providers (some providers) = some (map (λ p. (p.0, some p.1)) providers)

  abbrev pub startup_config : StartupConfig
  startup_config = record {
    entrypoint_method = config.entrypoint_method;
    entrypoint_path = config.entrypoint_path;
    entrypoint_transport = config.entrypoint_transport;
    session_transport_mode = config.session_transport_mode;
    oauth_providers = startup_providers config.oauth_providers;
    session_cookie_name = config.session_cookie_name;
    cookie_path = config.cookie_path;
    policies_redirect = map (λ p. p.may_redirect) config.policies;
  }

  abbrev pub oauth_config : OauthConfigInput
  oauth_config = record {
    start_path = config.entrypoint_path SupportedAction.start_oauth;
    finish_path = config.entrypoint_path SupportedAction.finish_oauth;
    public_origin = config.public_origin;
    providers = config.oauth_providers;
  }

  abbrev pub kernel_config : Bool → KernelConfig
  kernel_config redirects = record {
    public_origin = config.public_origin;
    session_cookie_name = config.session_cookie_name;
    cookie_path = config.cookie_path;
    redirects = redirects;
  }

  abbrev pub path_text : Option String → String
  path_text none = ""
  path_text (some path) = path

-- A reference app: what its requests need.
pub record App : Type 1 where
  pub runtime : RuntimeAdapter
  pub kernel : Kernel World

-- How the composition ends: with an app, with an error, or rejected by a constructor.
pub data Composed : Type 1 where
  app : App → Composed
  error : String → Composed
  rejected : Thrown → Composed

abbrev pub parse_error : String → Composed
parse_error message = Composed.error (Text.◌++◌ "Cycle2 composition failed: " message)

abbrev pub check_then : ValidationResult → Composed × World → World → Composed × World
check_then (ValidationResult.misconfigured message) next w = (parse_error message, w)
check_then ValidationResult.valid next w = next

-- AdapterResponse | AuthError | NotHandled; `threw` is a rejected promise.
pub data Served : Type 0 where
  response : AdapterResponse → Served
  failed : AuthError → Served
  not_handled : Served
  threw : Served

abbrev pub served : Applied → Served
served (Applied.response a) = Served.response a
served (Applied.failed e) = Served.failed e

module _ (env : Environment) (json_parse : String → Option Json) (catalogue : Catalogue) where
  abbrev pub plugins_of : Option OauthRuntimeConfig → List (Plugin World)
  plugins_of runtime_config = create_email_password_plugin ∷ create_oauth_plugin runtime_config ∷ []

  -- The kernel without plugins and policies, then what is registered, in order.
  abbrev pub registered_kernel :
      AuthConfig → Option OauthRuntimeConfig → RuntimeAdapter → Kernel World
  registered_kernel config runtime_config runtime = register_policies config.policies (
      register_plugin (create_oauth_plugin runtime_config) (
        register_plugin create_email_password_plugin
          (auth_kernel env (kernel_config config runtime.redirects) [] [])))

  abbrev pub compose_kernel : AuthConfig → Option OauthRuntimeConfig → RuntimeAdapter → App
  compose_kernel config runtime_config runtime = record {
    runtime = runtime;
    kernel = registered_kernel config runtime_config runtime;
  }

  -- The status of the schema, the last check.
  abbrev pub after_schema : App → Completion SchemaStatus × World → Composed × World
  after_schema a (Completion.value SchemaStatus.compatible, w) = (Composed.app a, w)
  after_schema a (Completion.value SchemaStatus.migration_mismatch, w) =
      (parse_error "Storage schema is incompatible with Cycle 2 requirements.", w)
  after_schema a (Completion.error e, w) = (parse_error e.message, w)
  after_schema a (Completion.threw t, w) = (Composed.rejected t, w)

  abbrev pub after_runtime :
      AuthConfig → Option OauthRuntimeConfig → CreatedAdapter → World → Composed × World
  after_runtime config runtime_config (CreatedAdapter.throws message) w =
      (Composed.error message, w)
  after_runtime config runtime_config (CreatedAdapter.created runtime) w =
      check_then
        (validate_startup_config (startup_config config) (email_password_actions ++ oauth_actions)
          runtime.redirects)
        (after_schema (compose_kernel config runtime_config runtime)
          (ensure_compatible_schema env.backend catalogue w))
        w

  -- createCycle2ReferenceApp, from the merged configuration on.
  unfoldable pub create_cycle2_reference_app : AuthConfig → World → Composed × World
  create_cycle2_reference_app config w =
      let (oauth_valid, runtime_config) = validate_oauth_config (oauth_config config) none in
      check_then
        (validate_email_password_config
          (path_text config (config.entrypoint_path SupportedAction.sign_up_with_password))
          (path_text config (config.entrypoint_path SupportedAction.sign_in_with_password)))
        (check_then oauth_valid
          (check_then
            (validate_node_config env.platform config.public_origin
              config.trusted_forwarded_headers)
            (after_runtime config runtime_config
              (create_node_runtime_adapter env.platform json_parse (adapter_config config)) w)
            w)
          w)
        w

-- handleRequest: a refusal of the parser goes to the adapter, a context to the kernel.
module _ (a : App) where
  abbrev pub after_kernel : Completion AuthResult × World → Served × World
  after_kernel (Completion.value r, w) = (served (a.runtime.apply_result (Reply.result r)), w)
  after_kernel (Completion.error e, w) = (served (a.runtime.apply_result (Reply.failure e)), w)
  after_kernel (Completion.threw t, w) = (Served.threw, w)

  abbrev pub after_parsing : Parsed RequestContext → World → Served × World
  after_parsing Parsed.not_handled w = (Served.not_handled, w)
  after_parsing (Parsed.denied code) w =
      (served (a.runtime.apply_result (Reply.result (AuthResult.denied code))), w)
  after_parsing (Parsed.failed e) w = (served (a.runtime.apply_result (Reply.failure e)), w)
  after_parsing Parsed.threw w = (Served.threw, w)
  after_parsing (Parsed.parsed context) w = after_kernel (handle a.kernel context w)

  unfoldable pub handle_request : ParseInput → World → Served × World
  handle_request input w = after_parsing (a.runtime.parse_request input) w
