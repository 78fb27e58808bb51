-- ===== src/Oauth/Plugin.antt =====
-- packages/core/src/plugins/oauth/plugin.ts: createOAuthPlugin.
use authia.Prelude.{
  String, Bool, not, ◌||◌, Option, none, some, List, [], ◌∷◌, Dict, truthy, if◌then◌else◌,
}
use authia.Contracts.Actions.{SupportedAction}
use authia.Contracts.Errors.{ValidationResult}
use authia.Contracts.Results.{RequestContext, AuthResult, invalid_input}
use authia.Contracts.Services.{Plugin, PluginServices, ProviderConfig}
use authia.Io.{Io, pure, fail}
use authia.EmailPassword.Input.{runtime_misconfigured}
use authia.Oauth.Config.{OauthRuntimeConfig}
use authia.Oauth.Start.{execute_start_oauth}
use authia.Oauth.Finish.{execute_finish_oauth}

abbrev pub oauth_actions : List SupportedAction
oauth_actions = SupportedAction.start_oauth ∷ SupportedAction.finish_oauth ∷ []

-- What validateConfig reads of the configuration.
pub record OauthConfigInput : Type 0 where
  pub start_path : Option String
  pub finish_path : Option String
  pub public_origin : String
  pub providers : Option (Dict ProviderConfig)

abbrev pub path_truthy : Option String → Bool
path_truthy none = Bool.false
path_truthy (some path) = truthy path

-- The result of the validation, and the `runtimeConfig` that it leaves.
abbrev pub validate_providers :
    OauthConfigInput
    → Option (Dict ProviderConfig)
    → Option OauthRuntimeConfig
    → ValidationResult × Option OauthRuntimeConfig
validate_providers config none old =
    (ValidationResult.misconfigured "At least one OAuth provider configuration is required.", old)
validate_providers config (some []) old =
    (ValidationResult.misconfigured "At least one OAuth provider configuration is required.", old)
validate_providers config (some (p ∷ providers)) old = (
  ValidationResult.valid,
  some (record { public_origin = config.public_origin; providers = p ∷ providers }),
)

unfoldable pub validate_oauth_config :
    OauthConfigInput → Option OauthRuntimeConfig → ValidationResult × Option OauthRuntimeConfig
validate_oauth_config config old =
    if not (path_truthy config.start_path) || not (path_truthy config.finish_path)
    then (ValidationResult.misconfigured "OAuth entrypoint paths are required.", old)
    else validate_providers config config.providers old

unfoldable pub execute_oauth :
    {W : Type 0}
    → Option OauthRuntimeConfig
    → SupportedAction
    → RequestContext
    → PluginServices W
    → Io W AuthResult
execute_oauth none action context services =
    fail (runtime_misconfigured "OAuth plugin configuration was not validated.")
execute_oauth (some config) SupportedAction.start_oauth context services =
    execute_start_oauth services config context
execute_oauth (some config) SupportedAction.finish_oauth context services =
    execute_finish_oauth services context config
execute_oauth (some config) _ context services = pure invalid_input

abbrev pub create_oauth_plugin : {W : Type 0} → Option OauthRuntimeConfig → Plugin W
create_oauth_plugin config = record {
  id = "oauth";
  actions = oauth_actions;
  execute = execute_oauth config;
}
