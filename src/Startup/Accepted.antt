-- ===== src/Startup/Accepted.antt =====
-- What a configuration that packages/core/src/startup/validate-startup.ts accepts satisfies, and what
-- the kernel makes of it.
use authia.Prelude.{
  ◌≡◌, ◌≢◌, refl, sym, ap, ◌∙◌, String, Bool, true, false, not, ◌&&◌, ◌||◌, ◌==◌, Option, some,
  List, [], ◌∷◌, ◌++◌, any, truthy, All, arith, if◌then◌else◌, find, eq_refl,
}
use authia.Contracts.Actions.{SupportedAction, includes_action}
use authia.Contracts.Errors.{ValidationResult}
use authia.Contracts.Services.{Plugin}
use authia.Startup.{
  StartupConfig, ◌and_then◌, reject_if, check_each, is_configured, is_mentioned, configured_actions,
  optional_actions, check_complete, contains, route_key, check_routes, check_built_in, check_owner,
  startup_checks, validate_startup_config,
}
use authia.Kernel.Ownership.{built_in_actions, is_built_in, Owner, plugin_owner, find_action_owner}

and_then_valid :
    (a b : ValidationResult)
    → (a and_then b) ≡ ValidationResult.valid
    → (a ≡ ValidationResult.valid) × (b ≡ ValidationResult.valid)
and_then_valid ValidationResult.valid b h = (refl, h)
and_then_valid (ValidationResult.misconfigured message) b h = cc

check_each-valid :
    {A : Type 0} (check : A → ValidationResult) (xs : List A)
    → check_each check xs ≡ ValidationResult.valid
    → All (λ x. check x ≡ ValidationResult.valid) xs
check_each-valid check [] h = tt
check_each-valid check (x ∷ xs) h =
    let (now, rest) = and_then_valid (check x) (check_each check xs) h in
    (now, check_each-valid check xs rest)

reject_if-valid :
    (b : Bool) (message : String) → reject_if b message ≡ ValidationResult.valid → b ≡ false
reject_if-valid true message h = cc
reject_if-valid false message h = refl

-- The actions of the plugins, in the order in which they are registered.
abbrev pub plugin_actions : {W : Type 0} → List (Plugin W) → List SupportedAction
plugin_actions [] = []
plugin_actions (p ∷ plugins) = p.actions ++ plugin_actions plugins

-- An action that has an owner: the session layer, or a plugin.
abbrev pub IsOwned : {W : Type 0} → Owner W → Type 0
IsOwned Owner.nobody = ⊥
IsOwned Owner.session_layer = Unit
IsOwned (Owner.plugin p) = Unit

includes-append :
    (xs ys : List SupportedAction) (a : SupportedAction)
    → includes_action (xs ++ ys) a ≡ (includes_action xs a || includes_action ys a)
includes-append [] ys a = refl
includes-append (x ∷ xs) ys a = ground (arith, includes-append xs ys a)

other_true : (a b : Bool) → a ≡ false → (a || b) ≡ true → b ≡ true
other_true true b h e = cc
other_true false b h e = e

or_true : (a : Bool) {b : Bool} → b ≡ true → (a || b) ≡ true
or_true true h = refl
or_true false h = h

true-false : true ≡ false → ⊥
true-false h = cc

contains_head : (key : String) (seen : List String) → any (λ s. s == key) (key ∷ seen) ≡ true
contains_head key seen = ground (arith, eq_refl key)

module _ {W : Type 0} where
  IsOwned-if :
      (here : Bool) (p : Plugin W) (rest : Option (Plugin W))
      → (here ≡ false → IsOwned (plugin_owner rest))
      → IsOwned (plugin_owner (if here then some p else rest))
  IsOwned-if true p rest h = tt
  IsOwned-if false p rest h = h refl

  find_plugin-IsOwned :
      (plugins : List (Plugin W)) (a : SupportedAction)
      → includes_action (plugin_actions plugins) a ≡ true
      → IsOwned (plugin_owner (find (λ p. includes_action p.actions a) plugins))
  find_plugin-IsOwned [] a h = absurd (cc h)
  find_plugin-IsOwned (p ∷ plugins) a h =
      IsOwned-if (includes_action p.actions a) p (find (λ q. includes_action q.actions a) plugins)
        (λ absent.
          find_plugin-IsOwned plugins a
            (ground (arith, includes-append p.actions (plugin_actions plugins) a)))

  owner_if :
      (built_in : Bool) (rest : Owner W)
      → (built_in ≡ false → IsOwned rest)
      → IsOwned (if built_in then Owner.session_layer else rest)
  owner_if true rest h = tt
  owner_if false rest h = h refl

  -- An action that the session layer or a plugin lists has an owner in the kernel.
  find_action_owner-IsOwned :
      (plugins : List (Plugin W)) (a : SupportedAction)
      → (includes_action built_in_actions a || includes_action (plugin_actions plugins) a) ≡ true
      → IsOwned (find_action_owner plugins a)
  unfolding find_action_owner
  find_action_owner-IsOwned plugins a h =
      owner_if (is_built_in a) (plugin_owner (find (λ p. includes_action p.actions a) plugins))
        (λ absent. find_plugin-IsOwned plugins a (other_true _ _ absent h))

module _ (config : StartupConfig) where
  -- No two of the actions have the same method and path.
  abbrev pub RoutesDiffer : List SupportedAction → Type 0
  RoutesDiffer [] = Unit
  RoutesDiffer (a ∷ rest) =
      All (λ b. route_key config b ≢ route_key config a) rest × RoutesDiffer rest

  unseen :
      (seen : List String) (key : String) (actions : List SupportedAction)
      → contains config seen key ≡ true
      → check_routes config seen actions ≡ ValidationResult.valid
      → All (λ b. route_key config b ≢ key) actions
  unseen seen key [] known h = tt
  unseen seen key (a ∷ rest) known h =
      let (fresh, later) = and_then_valid _ _ h in
      let absent = reject_if-valid _ _ fresh in
      (
        λ same. true-false (sym known ∙ ap (contains config seen) (sym same) ∙ absent),
        unseen (route_key config a ∷ seen) key rest (or_true _ known) later,
      )

  check_routes-RoutesDiffer :
      (seen : List String) (actions : List SupportedAction)
      → check_routes config seen actions ≡ ValidationResult.valid
      → RoutesDiffer actions
  check_routes-RoutesDiffer seen [] h = tt
  check_routes-RoutesDiffer seen (a ∷ rest) h =
      let (fresh, later) = and_then_valid _ _ h in
      (
        unseen (route_key config a ∷ seen) (route_key config a) rest (contains_head _ seen) later,
        check_routes-RoutesDiffer (route_key config a ∷ seen) rest later,
      )

  -- What holds of a configuration that is accepted for these plugins.
  pub record IsAcceptable {W : Type 0} (plugins : List (Plugin W)) (redirects : Bool) : Type 1 where
    pub complete :
        All
          (λ a. (is_mentioned config a && not (is_configured config a)) ≡ false)
          (optional_actions config)
    pub routes : RoutesDiffer (configured_actions config)
    pub owned : All (λ a. IsOwned (find_action_owner plugins a)) (configured_actions config)
    pub built_in : All (λ a. includes_action (plugin_actions plugins) a ≡ false) built_in_actions
    pub named : truthy config.session_cookie_name ≡ true
    pub redirected : (any (λ b. b) config.policies_redirect && not redirects) ≡ false

  not-false : (b : Bool) → not b ≡ false → b ≡ true
  not-false true h = refl
  not-false false h = cc

  check_complete-valid :
      (a : SupportedAction)
      → check_complete config a ≡ ValidationResult.valid
      → (is_mentioned config a && not (is_configured config a)) ≡ false
  check_complete-valid a h = reject_if-valid _ _ h

  check_built_in-valid :
      (actions : List SupportedAction) (a : SupportedAction)
      → check_built_in config actions a ≡ ValidationResult.valid
      → includes_action actions a ≡ false
  check_built_in-valid actions a h = reject_if-valid _ _ h

  map-All :
      {P Q : SupportedAction → Type 0} (xs : List SupportedAction)
      → ((a : SupportedAction) → P a → Q a)
      → All P xs
      → All Q xs
  map-All [] f h = tt
  map-All (x ∷ xs) f (now, rest) = (f x now, map-All xs f rest)

  -- A configuration that the startup validation accepts, for the actions of the plugins that are
  -- registered: an optional action is configured in full or not at all; no two configured actions
  -- share method and path; the kernel finds an owner for each of them; no plugin owns a built-in
  -- action; the session cookie has a name; and policies that may redirect have a runtime that can.
  pub validate_startup_config-IsAcceptable :
      {W : Type 0} (plugins : List (Plugin W)) (redirects : Bool)
      → validate_startup_config config (plugin_actions plugins) redirects ≡ ValidationResult.valid
      → IsAcceptable plugins redirects
  unfolding validate_startup_config
  validate_startup_config-IsAcceptable plugins redirects h =
      let c =
        check_each-valid (λ r. r) (startup_checks config (plugin_actions plugins) redirects) h in
      record {
        complete =
            map-All (optional_actions config) check_complete-valid
              (check_each-valid (check_complete config) (optional_actions config) c.0);
        routes = check_routes-RoutesDiffer [] (configured_actions config) c.1.1.1.1.1.1.1.1.0;
        owned =
            map-All (configured_actions config)
              (λ a e. find_action_owner-IsOwned plugins a (
                not-false _ (
                  reject_if-valid
                    (not (
                      includes_action built_in_actions a
                      || includes_action (plugin_actions plugins) a))
                    _ e)))
              (check_each-valid (check_owner config (plugin_actions plugins))
                (configured_actions config) c.1.1.1.1.1.1.1.1.1.1.1.0);
        built_in = map-All built_in_actions (check_built_in-valid (plugin_actions plugins)) (
            check_each-valid (check_built_in config (plugin_actions plugins)) built_in_actions
              c.1.1.1.1.1.1.1.1.1.0);
        named =
            not-false _ (reject_if-valid (not (truthy config.session_cookie_name)) _ c.1.1.1.1.1.0);
        redirected =
            reject_if-valid (any (λ b. b) config.policies_redirect && not redirects) _
              c.1.1.1.1.1.1.1.1.1.1.1.1.0;
      }
