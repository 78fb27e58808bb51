-- ===== src/Kernel/Ownership.antt =====
-- packages/core/src/kernel/auth-kernel.ts: which component owns an action.
use authia.Prelude.{Bool, Option, none, some, List, [], ◌∷◌, find, if◌then◌else◌}
use authia.Contracts.Actions.{SupportedAction, includes_action}
use authia.Contracts.Services.{Plugin}

abbrev pub built_in_actions : List SupportedAction
built_in_actions =
    SupportedAction.get_session ∷ SupportedAction.refresh_session ∷ SupportedAction.logout
    ∷ SupportedAction.logout_all ∷ []

abbrev pub is_built_in : SupportedAction → Bool
is_built_in action = includes_action built_in_actions action

-- The owner of an action: the session layer, a plugin, or nobody.
pub data Owner (W : Type 0) : Type 1 where
  session_layer : Owner W
  plugin : Plugin W → Owner W
  nobody : Owner W

module _ {W : Type 0} where
  abbrev pub plugin_owner : Option (Plugin W) → Owner W
  plugin_owner none = Owner.nobody
  plugin_owner (some p) = Owner.plugin p

  unfoldable pub find_action_owner : List (Plugin W) → SupportedAction → Owner W
  find_action_owner plugins action =
      if is_built_in action
      then Owner.session_layer
      else plugin_owner (find (λ p. includes_action p.actions action) plugins)
