-- ===== src/Adapter/Routes.antt =====
-- The routes that packages/core/src/startup/validate-startup.ts accepts, as resolveAction of
-- packages/node-adapter/src/parse-request.ts reads them.
use authia.Prelude.{
  ◌≡◌, refl, sym, ap, subst, ◌∙◌, inl, inr, String, Bool, true, false, not, ◌&&◌, eq_refl, some,
  List, [], ◌∷◌, find, All, arith, Bool-cases,
}
use authia.Contracts.Actions.{SupportedAction, supported_actions, includes_action}
use authia.Contracts.Errors.{ValidationResult}
use authia.Contracts.Services.{Plugin}
use authia.Postgres.Rows.{In}
use authia.Startup.{
  StartupConfig, select_actions, is_configured, is_mentioned, configured_actions, optional_actions,
  route_key, validate_startup_config,
}
use authia.Startup.Accepted.{
  plugin_actions, IsOwned, RoutesDiffer, validate_startup_config-IsAcceptable,
}
use authia.Kernel.Ownership.{find_action_owner}
use authia.Adapter.Parsing.{matches_route, resolve_action}
use authia.Adapter.Inversion.{and-both, is_text-some}

module _ {A : Type 0} where
  All-In : (P : A → Type 0) (xs : List A) (a : A) → All P xs → In a xs → P a
  All-In P [] a h m = absurd m
  All-In P (x ∷ xs) a (h, hs) (inl e) = subst P (sym e) h
  All-In P (x ∷ xs) a (h, hs) (inr m) = All-In P xs a hs m

  -- A search among items of which one passes finds one that passes.
  found :
      (p : A → Bool) (xs : List A) (a : A)
      → In a xs
      → p a ≡ true
      → (b : A) × (find p xs ≡ some b) × In b xs × (p b ≡ true)
  found p [] a m h = absurd m
  found p (x ∷ xs) a m h = elim (Bool-cases (p x)) [
    | inl hit ↦ (x, rw hit, inl refl, hit)
    | inr miss ↦ elim m [
      | inl e ↦ absurd (cc (ap p e, miss, h))
      | inr later ↦
          let (b, first, listed, holds) = found p xs a later h in
          (b, rw miss first, inr listed, holds)
    ]
  ]

In-supported_actions : (a : SupportedAction) → In a supported_actions
In-supported_actions SupportedAction.sign_up_with_password = ground arith
In-supported_actions SupportedAction.sign_in_with_password = ground arith
In-supported_actions SupportedAction.request_password_reset = ground arith
In-supported_actions SupportedAction.reset_password = ground arith
In-supported_actions SupportedAction.request_email_verification = ground arith
In-supported_actions SupportedAction.verify_email = ground arith
In-supported_actions SupportedAction.get_session = ground arith
In-supported_actions SupportedAction.refresh_session = ground arith
In-supported_actions SupportedAction.logout = ground arith
In-supported_actions SupportedAction.logout_all = ground arith
In-supported_actions SupportedAction.start_oauth = ground arith
In-supported_actions SupportedAction.finish_oauth = ground arith

In-select_actions :
    (p : SupportedAction → Bool) (xs : List SupportedAction) (a : SupportedAction)
    → In a xs
    → p a ≡ true
    → In a (select_actions p xs)
In-select_actions p [] a m h = absurd m
In-select_actions p (x ∷ xs) a (inl e) h = rw (ap p (sym e) ∙ h) (inl e)
In-select_actions p (x ∷ xs) a (inr m) h = elim (Bool-cases (p x)) [
  | inl hit ↦ rw hit (inr (In-select_actions p xs a m h))
  | inr miss ↦ rw miss (In-select_actions p xs a m h)
]

implied : (m c : Bool) → (m && not c) ≡ false → m ≡ true → c ≡ true
implied true true h e = refl
implied true false h e = cc
implied false c h e = cc

module _ (config : StartupConfig) where
  unique_route :
      (xs : List SupportedAction) (a b : SupportedAction)
      → RoutesDiffer config xs
      → In a xs
      → In b xs
      → route_key config b ≡ route_key config a
      → b ≡ a
  unique_route [] a b d m n e = absurd m
  unique_route (x ∷ xs) a b (d, ds) (inl p) (inl q) e = q ∙ sym p
  unique_route (x ∷ xs) a b (d, ds) (inr m) (inr n) e = unique_route xs a b ds m n e
  unique_route (x ∷ xs) a b (d, ds) (inl p) (inr n) e =
      absurd (All-In _ xs b d n (e ∙ ap (route_key config) p))
  unique_route (x ∷ xs) a b (d, ds) (inr m) (inl q) e =
      absurd (All-In _ xs a d m (sym e ∙ ap (route_key config) q))

  -- The actions that the types of the configuration require.
  abbrev pub RequiredAreConfigured : Type 0
  RequiredAreConfigured =
      (a : SupportedAction)
      → includes_action (optional_actions config) a ≡ false
      → is_configured config a ≡ true

  mentioned-configured :
      RequiredAreConfigured
      → All
          (λ a. (is_mentioned config a && not (is_configured config a)) ≡ false)
          (optional_actions config)
      → (a : SupportedAction) → is_mentioned config a ≡ true
      → is_configured config a ≡ true
  mentioned-configured required c SupportedAction.start_oauth h = implied _ _ c.0 h
  mentioned-configured required c SupportedAction.finish_oauth h = implied _ _ c.1.0 h
  mentioned-configured required c SupportedAction.request_password_reset h = implied _ _ c.1.1.0 h
  mentioned-configured required c SupportedAction.reset_password h = implied _ _ c.1.1.1.0 h
  mentioned-configured required c SupportedAction.request_email_verification h =
      implied _ _ c.1.1.1.1.0 h
  mentioned-configured required c SupportedAction.verify_email h = implied _ _ c.1.1.1.1.1.0 h
  mentioned-configured required c SupportedAction.sign_up_with_password h = required _ refl
  mentioned-configured required c SupportedAction.sign_in_with_password h = required _ refl
  mentioned-configured required c SupportedAction.get_session h = required _ refl
  mentioned-configured required c SupportedAction.refresh_session h = required _ refl
  mentioned-configured required c SupportedAction.logout h = required _ refl
  mentioned-configured required c SupportedAction.logout_all h = required _ refl

  mentioned_by :
      (a : SupportedAction) (method : String)
      → config.entrypoint_method a ≡ some method
      → is_mentioned config a ≡ true
  mentioned_by a method e = rw e refl

  matched :
      (a : SupportedAction) (method path : String)
      → matches_route config.entrypoint_method config.entrypoint_path method path a ≡ true
      → (config.entrypoint_method a ≡ some method) × (config.entrypoint_path a ≡ some path)
  matched a method path h =
      let (by_method, by_path) = and-both _ _ h in
      (is_text-some _ _ by_method, is_text-some _ _ by_path)

  matches :
      (a : SupportedAction) (method path : String)
      → config.entrypoint_method a ≡ some method
      → config.entrypoint_path a ≡ some path
      → matches_route config.entrypoint_method config.entrypoint_path method path a ≡ true
  matches a method path by_method by_path =
      rw by_method (rw by_path (rw (eq_refl method) (eq_refl path)))

  same_key :
      (a b : SupportedAction) (method path : String)
      → config.entrypoint_method a ≡ some method
      → config.entrypoint_path a ≡ some path
      → config.entrypoint_method b ≡ some method
      → config.entrypoint_path b ≡ some path
      → route_key config b ≡ route_key config a
  same_key a b method path m p n q = rw m (rw p (rw n (rw q refl)))

  listed :
      RequiredAreConfigured
      → All
          (λ a. (is_mentioned config a && not (is_configured config a)) ≡ false)
          (optional_actions config)
      → (a : SupportedAction) (method : String) → config.entrypoint_method a ≡ some method
      → In a (configured_actions config)
  listed required complete a method given =
      In-select_actions (is_configured config) supported_actions a (In-supported_actions a)
        (mentioned-configured required complete a (mentioned_by a method given))

  -- In a configuration that the startup accepts, no other action has the method and the path of one.
  pub same_route :
      {W : Type 0} (plugins : List (Plugin W)) (redirects : Bool) (a b : SupportedAction)
      (method path : String)
      → validate_startup_config config (plugin_actions plugins) redirects ≡ ValidationResult.valid
      → RequiredAreConfigured
      → config.entrypoint_method a ≡ some method
      → config.entrypoint_path a ≡ some path
      → config.entrypoint_method b ≡ some method
      → config.entrypoint_path b ≡ some path
      → b ≡ a
  same_route plugins redirects a b method path accepted required m p n q =
      let acceptable = validate_startup_config-IsAcceptable config plugins redirects accepted in
      unique_route (configured_actions config) a b acceptable.routes
        (listed required acceptable.complete a method m)
        (listed required acceptable.complete b method n) (same_key a b method path m p n q)

  -- An action with a method has an owner.
  pub configured-IsOwned :
      {W : Type 0} (plugins : List (Plugin W)) (redirects : Bool) (a : SupportedAction)
      (method : String)
      → validate_startup_config config (plugin_actions plugins) redirects ≡ ValidationResult.valid
      → RequiredAreConfigured
      → config.entrypoint_method a ≡ some method
      → IsOwned (find_action_owner plugins a)
  configured-IsOwned plugins redirects a method accepted required given =
      let acceptable = validate_startup_config-IsAcceptable config plugins redirects accepted in
      All-In (λ b. IsOwned (find_action_owner plugins b)) (configured_actions config) a
        acceptable.owned (listed required acceptable.complete a method given)

  -- In a configuration that the startup accepts, with the actions that its types require, a request
  -- with the method and the path of an action that is configured is resolved to that action.
  pub resolve_action-configured :
      {W : Type 0} (plugins : List (Plugin W)) (redirects : Bool) (action : SupportedAction)
      (method path : String)
      → validate_startup_config config (plugin_actions plugins) redirects ≡ ValidationResult.valid
      → RequiredAreConfigured
      → config.entrypoint_method action ≡ some method
      → config.entrypoint_path action ≡ some path
      → resolve_action config.entrypoint_method config.entrypoint_path method path ≡ some action
  unfolding resolve_action
  resolve_action-configured plugins redirects action method path accepted required by_method
        by_path =
      let (b, first, known, hit) =
        found (matches_route config.entrypoint_method config.entrypoint_path method path)
          supported_actions action (In-supported_actions action)
          (matches action method path by_method by_path) in
      let (also_method, also_path) = matched b method path hit in
      first
      ∙ ap some (
          same_route plugins redirects action b method path accepted required by_method by_path
            also_method also_path)
