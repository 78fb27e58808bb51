-- ===== src/EmailPassword/Plugin.antt =====
-- packages/core/src/plugins/email-password/plugin.ts: createEmailPasswordPlugin; and
-- provider-delivery.ts, the delivery over a provider of outbound mail.
use Prim.Native.String as Text
use authia.Prelude.{String, not, ◌||◌, List, [], ◌∷◌, truthy, if◌then◌else◌}
use authia.Contracts.Actions.{SupportedAction}
use authia.Contracts.Errors.{ValidationResult}
use authia.Contracts.Results.{RequestContext, AuthResult, invalid_input}
use authia.Contracts.Services.{Plugin, PluginServices, EmailDelivery}
use authia.Io.{Io, pure}
use authia.EmailPassword.Accounts.{execute_sign_up, execute_sign_in}
use authia.EmailPassword.Reset.{execute_request_password_reset, execute_reset_password}
use authia.EmailPassword.Verification.{execute_request_email_verification, execute_verify_email}

abbrev pub email_password_actions : List SupportedAction
email_password_actions =
    SupportedAction.sign_up_with_password ∷ SupportedAction.sign_in_with_password
    ∷ SupportedAction.request_password_reset ∷ SupportedAction.reset_password
    ∷ SupportedAction.request_email_verification ∷ SupportedAction.verify_email ∷ []

-- validateConfig, on the paths of signUpWithPassword and signInWithPassword.
abbrev pub validate_email_password_config : String → String → ValidationResult
validate_email_password_config sign_up_path sign_in_path =
    if not (truthy sign_up_path) || not (truthy sign_in_path)
    then ValidationResult.misconfigured "Email/password entrypoint paths are required."
    else ValidationResult.valid

unfoldable pub execute_email_password :
    {W : Type 0} → SupportedAction → RequestContext → PluginServices W → Io W AuthResult
execute_email_password SupportedAction.sign_up_with_password context services =
    execute_sign_up services context
execute_email_password SupportedAction.sign_in_with_password context services =
    execute_sign_in services context
execute_email_password SupportedAction.request_password_reset context services =
    execute_request_password_reset services context
execute_email_password SupportedAction.reset_password context services =
    execute_reset_password services context
execute_email_password SupportedAction.request_email_verification context services =
    execute_request_email_verification services context
execute_email_password SupportedAction.verify_email context services =
    execute_verify_email services context
execute_email_password _ context services = pure invalid_input

abbrev pub create_email_password_plugin : {W : Type 0} → Plugin W
create_email_password_plugin = record {
  id = "emailPassword";
  actions = email_password_actions;
  execute = execute_email_password;
}

pub record OutboundEmailMessage : Type 0 where
  pub to : String
  pub subject : String
  pub text : String

-- createEmailDeliveryFromProvider, from the provider's `send` and the two functions that make links.
abbrev pub create_email_delivery_from_provider :
    {W : Type 0}
    → (OutboundEmailMessage → Io W (Unit {0}))
    → (String → String)
    → (String → String)
    → EmailDelivery W
create_email_delivery_from_provider send password_reset_url email_verification_url = record {
  send_password_reset = λ email reset_token. send (record {
    to = email;
    subject = "Reset your password";
    text = Text.◌++◌ "Reset your password using this link: " (password_reset_url reset_token);
  });
  send_email_verification = λ email verification_token. send (record {
    to = email;
    subject = "Verify your email address";
    text =
        Text.◌++◌ "Verify your email address using this link: "
          (email_verification_url verification_token);
  });
}
