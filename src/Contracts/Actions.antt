-- ===== src/Contracts/Actions.antt =====
-- packages/contracts/src/actions.ts: the actions, and what a configuration maps them to.
use authia.Prelude.{String, List, [], ◌∷◌, Bool, ◌==◌, any}

pub data SupportedAction : Type 0 where
  sign_up_with_password sign_in_with_password request_password_reset : SupportedAction
  reset_password request_email_verification verify_email : SupportedAction
  get_session refresh_session logout logout_all start_oauth finish_oauth : SupportedAction

abbrev pub supported_actions : List SupportedAction
supported_actions =
    SupportedAction.sign_up_with_password ∷ SupportedAction.sign_in_with_password
    ∷ SupportedAction.request_password_reset ∷ SupportedAction.reset_password
    ∷ SupportedAction.request_email_verification ∷ SupportedAction.verify_email
    ∷ SupportedAction.get_session ∷ SupportedAction.refresh_session ∷ SupportedAction.logout
    ∷ SupportedAction.logout_all ∷ SupportedAction.start_oauth ∷ SupportedAction.finish_oauth ∷ []

-- An action is its own text in the source; two actions are compared as texts.
abbrev pub action_name : SupportedAction → String
action_name SupportedAction.sign_up_with_password = "signUpWithPassword"
action_name SupportedAction.sign_in_with_password = "signInWithPassword"
action_name SupportedAction.request_password_reset = "requestPasswordReset"
action_name SupportedAction.reset_password = "resetPassword"
action_name SupportedAction.request_email_verification = "requestEmailVerification"
action_name SupportedAction.verify_email = "verifyEmail"
action_name SupportedAction.get_session = "getSession"
action_name SupportedAction.refresh_session = "refreshSession"
action_name SupportedAction.logout = "logout"
action_name SupportedAction.logout_all = "logoutAll"
action_name SupportedAction.start_oauth = "startOAuth"
action_name SupportedAction.finish_oauth = "finishOAuth"

abbrev pub same_action : SupportedAction → SupportedAction → Bool
same_action a b = action_name a == action_name b

-- actions.includes(action)
abbrev pub includes_action : List SupportedAction → SupportedAction → Bool
includes_action actions a = any (λ b. same_action b a) actions
