-- ===== src/Application/Config.antt =====
-- The configuration of examples/cycle2-compose.ts: its default, and what is given in place of it.
use authia.Prelude.{String, Option, none, some, List, [], ◌∷◌, Dict, ◌==◌, if◌then◌else◌}
use authia.Contracts.Actions.{SupportedAction}
use authia.Contracts.Sessions.{TransportKind}
use authia.Contracts.Services.{Policy, ProviderConfig}
use authia.Startup.{SessionTransportMode}
use authia.Postgres.Connection.{World}
use authia.Postgres.Schema.{Catalogue}
use authia.Adapter.ParseRequest.{Json}
use authia.System.{Environment}
use authia.Application.{AuthConfig, Composed, create_cycle2_reference_app}

abbrev pub default_method : SupportedAction → Option String
default_method SupportedAction.get_session = some "GET"
default_method _ = some "POST"

abbrev pub default_path : SupportedAction → Option String
default_path SupportedAction.sign_up_with_password = some "/auth/signup"
default_path SupportedAction.sign_in_with_password = some "/auth/signin"
default_path SupportedAction.request_password_reset = some "/auth/password/request-reset"
default_path SupportedAction.reset_password = some "/auth/password/reset"
default_path SupportedAction.request_email_verification = some "/auth/email/request-verification"
default_path SupportedAction.verify_email = some "/auth/email/verify"
default_path SupportedAction.get_session = some "/auth/session"
default_path SupportedAction.refresh_session = some "/auth/refresh"
default_path SupportedAction.logout = some "/auth/logout"
default_path SupportedAction.logout_all = some "/auth/logout-all"
default_path SupportedAction.start_oauth = some "/auth/oauth/start"
default_path SupportedAction.finish_oauth = some "/auth/oauth/finish"

abbrev pub default_providers : Dict ProviderConfig
default_providers =
    (
      "github",
      record {
        client_id = "github-client-id";
        authorization_endpoint = "https://provider.example.com/authorize";
        token_endpoint = "https://provider.example.com/token";
        callback_path = "/oauth/callback/github";
        pkce_method = "S256";
      },
    )
    ∷ []

abbrev pub default_config : AuthConfig
default_config = record {
  session_transport_mode = SessionTransportMode.fixed TransportKind.bearer;
  entrypoint_method = default_method;
  entrypoint_path = default_path;
  entrypoint_transport = λ action. some (some TransportKind.bearer);
  policies = [];
  public_origin = "https://example.com";
  trusted_forwarded_headers = [];
  cookie_path = "/";
  session_cookie_name = "auth_session";
  oauth_providers = some default_providers;
}

-- Partial<AuthConfig>: what is given, if it is. The method, path or transport of an action may be given
-- as undefined, `some none`.
pub record PartialConfig : Type 0 where
  pub session_transport_mode : Option SessionTransportMode
  pub entrypoint_method : SupportedAction → Option (Option String)
  pub entrypoint_path : SupportedAction → Option (Option String)
  pub entrypoint_transport : SupportedAction → Option (Option TransportKind)
  pub policies : Option (List (Policy World))
  pub public_origin : Option String
  pub trusted_forwarded_headers : Option (List String)
  pub cookie_path : Option String
  pub session_cookie_name : Option String
  pub oauth_providers : Dict ProviderConfig

abbrev pub given : {A : Type 0} → Option A → A → A
given none default = default
given (some a) default = a

-- `{ ...m, [name]: v }`
abbrev pub set_key : {V : Type 0} → String → V → Dict V → Dict V
set_key name v [] = (name, v) ∷ []
set_key name v ((n, old) ∷ m) =
    let rest = set_key name v m in if n == name then (n, v) ∷ m else (n, old) ∷ rest

-- `{ ...m, ...more }`
abbrev pub spread : {V : Type 0} → Dict V → Dict V → Dict V
spread m [] = m
spread m ((name, v) ∷ more) = spread (set_key name v m) more

-- The default has the transport of every action, so the merged configuration has each key, with the
-- given value, undefined too, or the default one.
unfoldable pub merged_config : PartialConfig → AuthConfig
merged_config p = record {
  session_transport_mode = given p.session_transport_mode default_config.session_transport_mode;
  entrypoint_method = λ action. given (p.entrypoint_method action) (default_method action);
  entrypoint_path = λ action. given (p.entrypoint_path action) (default_path action);
  entrypoint_transport =
      λ action. some (given (p.entrypoint_transport action) (some TransportKind.bearer));
  policies = given p.policies default_config.policies;
  public_origin = given p.public_origin default_config.public_origin;
  trusted_forwarded_headers =
      given p.trusted_forwarded_headers default_config.trusted_forwarded_headers;
  cookie_path = given p.cookie_path default_config.cookie_path;
  session_cookie_name = given p.session_cookie_name default_config.session_cookie_name;
  oauth_providers = some (spread default_providers p.oauth_providers);
}

-- createCycle2ReferenceApp
unfoldable pub create_reference_app :
    Environment → (String → Option Json) → Catalogue → PartialConfig → World → Composed × World
create_reference_app env json_parse catalogue p w =
    create_cycle2_reference_app env json_parse catalogue (merged_config p) w
