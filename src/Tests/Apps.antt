-- ===== src/Tests/Apps.antt =====
-- An application, from its start to a response, and what it is made of, at concrete inputs.
use authia.Prelude.{◌≡◌, ◌⊎◌, refl, sym, subst, String, true, none, some, Option, [], ◌∷◌}
use authia.Contracts.Actions.{SupportedAction}
use authia.Contracts.Errors.{ValidationResult}
use authia.Contracts.Sessions.{TransportKind}
use authia.Contracts.Results.{RequestContext, AuthResult}
use authia.Io.{Completion}
use authia.Startup.{validate_startup_config}
use authia.Startup.Accepted.{plugin_actions}
use authia.Adapter.{AdapterResponse, ResponseBody}
use authia.Adapter.Parsing.{
  HeaderValue, InputBody, ParseInput, AdapterConfig, Parsed, resolve_action,
}
use authia.Adapter.ParseRequest.{Json, parse_request}
use authia.Adapter.Contexts.{IsFaithful, parse_request-IsFaithful}
use authia.Adapter.Routes.{RequiredAreConfigured, resolve_action-configured}
use authia.Postgres.Connection.{World}
use authia.Postgres.Schema.{SchemaStatus, expected_columns, ensure_compatible_schema}
use authia.Postgres.Catalogues.{IsCompatible}
use authia.Postgres.Compatibility.{ensure_compatible_schema_answers}
use authia.Application.{
  adapter_config, startup_config, plugins_of, App, Composed, Served, create_cycle2_reference_app,
  handle_request, compose_kernel, parse_error,
}
use authia.Application.Config.{
  default_config, default_method, default_path, PartialConfig, create_reference_app, merged_config,
}
use authia.Application.Composition.{
  oauth, adapter, IsStarted, create_cycle2_reference_app-IsStarted,
}
use authia.Application.Serving.{IsServing, create_reference_app-IsServing}
use authia.Application.Answers.{
  IsServed, IsPresentedAndAccepted, handle_request-IsServed, session_answer-IsPresentedAndAccepted,
}
use authia.Tests.{env, world, ann, session_of_ann, backend}

abbrev no_json : String → Option Json
no_json text = none

abbrev starting : Composed × World
starting = create_cycle2_reference_app env no_json expected_columns default_config world

abbrev default_app : App
default_app =
    compose_kernel env no_json expected_columns default_config
      (oauth env no_json expected_columns default_config)
      (adapter env no_json expected_columns default_config)

app_starts : starting ≡ (Composed.app default_app, starting.1)
unfolding create_cycle2_reference_app authia.Oauth.Plugin.validate_oauth_config
    authia.Adapter.validate_node_config authia.Adapter.Runtime.create_node_runtime_adapter
    validate_startup_config ensure_compatible_schema authia.Io.io
app_starts = refl

default-IsStarted : IsStarted env no_json expected_columns default_config default_app
default-IsStarted =
    create_cycle2_reference_app-IsStarted env no_json expected_columns default_config default_app
      world starting.1 app_starts

-- Nothing is given: the default configuration.
abbrev nothing_given : PartialConfig
nothing_given = record {
  session_transport_mode = none;
  entrypoint_method = λ action. none;
  entrypoint_path = λ action. none;
  entrypoint_transport = λ action. none;
  policies = none;
  public_origin = none;
  trusted_forwarded_headers = none;
  cookie_path = none;
  session_cookie_name = none;
  oauth_providers = [];
}

nothing_changes : merged_config nothing_given ≡ default_config
unfolding merged_config
nothing_changes = refl

nothing_starts :
    create_reference_app env no_json expected_columns nothing_given world
    ≡ (Composed.app default_app, starting.1)
unfolding create_reference_app create_cycle2_reference_app merged_config
    authia.Oauth.Plugin.validate_oauth_config authia.Adapter.validate_node_config
    authia.Adapter.Runtime.create_node_runtime_adapter validate_startup_config
    ensure_compatible_schema authia.Io.io
nothing_starts = refl

abbrev undefined_logout : SupportedAction → Option (Option TransportKind)
undefined_logout SupportedAction.logout = some none
undefined_logout _ = none

abbrev undefined_transport : PartialConfig
undefined_transport = record nothing_given { entrypoint_transport = undefined_logout }

abbrev refusing : Composed × World
refusing = create_reference_app env no_json expected_columns undefined_transport world

-- In the fixed mode, a transport that is given as undefined is refused.
undefined_transport_refused :
    refusing.0
    ≡ parse_error "entrypoint transport must match sessionTransportMode when mode is fixed."
unfolding create_reference_app create_cycle2_reference_app merged_config
    authia.Oauth.Plugin.validate_oauth_config authia.Adapter.validate_node_config
    authia.Adapter.Runtime.create_node_runtime_adapter validate_startup_config
undefined_transport_refused = refl

default_is_valid :
    validate_startup_config
      (startup_config default_config)
      (plugin_actions (plugins_of env no_json expected_columns none))
      true
    ≡ ValidationResult.valid
unfolding validate_startup_config
default_is_valid = refl

default_is_full : RequiredAreConfigured (startup_config default_config)
default_is_full SupportedAction.sign_up_with_password required = refl
default_is_full SupportedAction.sign_in_with_password required = refl
default_is_full SupportedAction.request_password_reset required = refl
default_is_full SupportedAction.reset_password required = refl
default_is_full SupportedAction.request_email_verification required = refl
default_is_full SupportedAction.verify_email required = refl
default_is_full SupportedAction.get_session required = refl
default_is_full SupportedAction.refresh_session required = refl
default_is_full SupportedAction.logout required = refl
default_is_full SupportedAction.logout_all required = refl
default_is_full SupportedAction.start_oauth required = refl
default_is_full SupportedAction.finish_oauth required = refl

merged_is_full : RequiredAreConfigured (startup_config (merged_config nothing_given))
merged_is_full =
    subst (λ c. RequiredAreConfigured (startup_config c)) (sym nothing_changes) default_is_full

resolve_action-configured_example :
    resolve_action default_method default_path "GET" "/auth/session"
    ≡ some SupportedAction.get_session
resolve_action-configured_example =
    resolve_action-configured (startup_config default_config)
      (plugins_of env no_json expected_columns none) true SupportedAction.get_session "GET"
      "/auth/session" default_is_valid default_is_full refl refl

-- A request for the session, with a bearer token.
abbrev session_input : ParseInput
session_input = record {
  method = "GET";
  url = "/auth/session";
  headers =
      ("authorization", HeaderValue.one "Bearer secret")
      ∷ ("origin", HeaderValue.many ("https://example.com" ∷ []))
      ∷ [];
  cookies = [];
  body = InputBody.absent;
}

abbrev parsing : Parsed RequestContext
parsing = parse_request env.platform no_json session_input (adapter_config default_config)

abbrev session_context : RequestContext
session_context = record {
  action = SupportedAction.get_session;
  method = "GET";
  url = "/auth/session";
  transport = TransportKind.bearer;
  headers = ("authorization", "Bearer secret") ∷ ("origin", "https://example.com") ∷ [];
  cookies = [];
  credential = some (record { kind = TransportKind.bearer; token = "secret" });
  body = none;
  session = none;
}

session_is_parsed : parsing ≡ Parsed.parsed session_context
unfolding parse_request resolve_action authia.Adapter.Parsing.◌>>=◌
session_is_parsed = refl

parse_request-IsFaithful_example :
    IsFaithful env.platform (adapter_config default_config) session_input session_context
parse_request-IsFaithful_example =
    parse_request-IsFaithful env.platform no_json session_input (adapter_config default_config)
      session_context session_is_parsed

abbrev serving : Served × World
serving = handle_request default_app session_input world

handle_request-IsServed_example :
    IsServed env no_json expected_columns default_config session_input world serving
handle_request-IsServed_example =
    handle_request-IsServed env no_json expected_columns default_config default_app session_input
      world default-IsStarted

abbrev session_response : AdapterResponse
session_response = record {
  status = 200;
  headers = [];
  set_cookies = none;
  clear_cookies = none;
  clear_bearer = none;
  body = some (ResponseBody.whole (AuthResult.current_session ann session_of_ann));
}

session_is_answered : serving ≡ (Served.response session_response, serving.1)
unfolding handle_request parse_request resolve_action authia.Adapter.Parsing.◌>>=◌
    authia.Adapter.apply_result authia.Kernel.Handle.handle authia.Io.io
    authia.Session.validate_session authia.Postgres.SessionRows.find_session
    authia.Postgres.Connection.query authia.Postgres.SessionRows.select_session
    authia.Session.check_session authia.Crypto.Provider.token_fits
    authia.Crypto.Comparison.compare_padded authia.Crypto.Comparison.units
    authia.Postgres.Accounts.find_user authia.Postgres.Accounts.select_user
    authia.Kernel.PolicyRun.run_policies authia.Csrf.csrf_decision
    authia.Kernel.Handle.perform_built_in
session_is_answered = refl

session_answer-IsPresentedAndAccepted_example :
    IsPresentedAndAccepted env no_json expected_columns default_config session_input world ann
      session_of_ann
session_answer-IsPresentedAndAccepted_example =
    session_answer-IsPresentedAndAccepted env no_json expected_columns default_config default_app
      session_input world serving.1 session_response ann session_of_ann default-IsStarted
      default_is_full ("/auth/session", refl, refl, refl) session_is_answered refl

create_reference_app-IsServing_example :
    IsServing env no_json expected_columns
      (merged_config nothing_given)
      default_app
      session_input
      world
create_reference_app-IsServing_example =
    create_reference_app-IsServing env no_json expected_columns nothing_given default_app world
      starting.1 session_input world "/auth/session" nothing_starts merged_is_full refl

ensure_compatible_schema_answers_example :
    (((ensure_compatible_schema backend expected_columns world).0
        ≡ Completion.value SchemaStatus.compatible)
      × IsCompatible expected_columns)
    ⊎ (((ensure_compatible_schema backend expected_columns world).0
          ≡ Completion.value SchemaStatus.migration_mismatch)
        × (¬ IsCompatible expected_columns))
ensure_compatible_schema_answers_example =
    ensure_compatible_schema_answers backend expected_columns (λ step. refl) world
