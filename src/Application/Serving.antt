-- ===== src/Application/Serving.antt =====
-- What an application that createCycle2ReferenceApp of examples/cycle2-compose.ts has made does with
-- each request, from the configuration that was given.
use authia.Prelude.{
  ◌≡◌, ◌≢◌, refl, sym, subst, ap, List, ◌∙◌, ◌⊎◌, inl, inr, String, true, Option, none, some,
  Option-cases,
}
use authia.Contracts.Actions.{SupportedAction, supported_actions}
use authia.Contracts.Results.{AuthResult, RequestContext}
use authia.Contracts.Services.{Plugin}
use authia.Io.{Completion}
use authia.Startup.Accepted.{IsOwned}
use authia.Adapter.{Applied}
use authia.Adapter.Parsing.{ParseInput, Parsed, matches_route, resolve_action}
use authia.Adapter.ParseRequest.{Json, parse_request}
use authia.Adapter.Contexts.{IsFaithful}
use authia.Adapter.Inversion.{and-both, is_text-some, find-holds}
use authia.Adapter.Routes.{RequiredAreConfigured, resolve_action-configured, configured-IsOwned}
use authia.Adapter.Handled.{resolved-taken, unresolved-not_handled}
use authia.Kernel.Ownership.{find_action_owner}
use authia.Kernel.Handle.{handle}
use authia.Kernel.Reading.{kernel_of}
use authia.Postgres.Connection.{World}
use authia.Postgres.Schema.{Catalogue}
use authia.Postgres.Catalogues.{IsCompatible}
use authia.System.{Environment}
use authia.Application.{
  AuthConfig, adapter_config, startup_config, kernel_config, App, Composed, Served, served,
  plugins_of, after_kernel, after_parsing, handle_request,
}
use authia.Application.Config.{PartialConfig, merged_config, create_reference_app}
use authia.Application.Composition.{oauth, IsStarted, create_reference_app-IsStarted}
use authia.Application.Answers.{
  started_kernel, GrantsNothing, IsServed, handle_request-IsServed, OnRoute, routed,
}

served-handled : (x : Applied) → served x ≢ Served.not_handled
served-handled (Applied.response a) h = cc h
served-handled (Applied.failed e) h = cc h

after_kernel-handled :
    (a : App) (c : Completion AuthResult) (w : World)
    → (after_kernel a (c, w)).0 ≢ Served.not_handled
after_kernel-handled a (Completion.value r) w h = served-handled _ h
after_kernel-handled a (Completion.error e) w h = served-handled _ h
after_kernel-handled a (Completion.threw t) w h = cc h

-- Only a request that the parser does not handle is answered so.
after_parsing-handled :
    (a : App) (p : Parsed RequestContext) (w : World)
    → p ≢ Parsed.not_handled
    → (after_parsing a p w).0 ≢ Served.not_handled
after_parsing-handled a Parsed.not_handled w taken h = taken refl
after_parsing-handled a (Parsed.denied code) w taken h = served-handled _ h
after_parsing-handled a (Parsed.failed f) w taken h = served-handled _ h
after_parsing-handled a Parsed.threw w taken h = cc h
after_parsing-handled a (Parsed.parsed context) w taken h =
    after_kernel-handled a (handle a.kernel context w).0 (handle a.kernel context w).1 h

module _ (env : Environment) (json_parse : String → Option Json) (catalogue : Catalogue)
    (config : AuthConfig) where
  -- The answer to a request for an action: it is refused, with nothing changed; or the kernel, which
  -- has an owner for the action, handles a context of the action, and the answer is to its result.
  pub record IsRouted (a : App) (action : SupportedAction) (input : ParseInput) (w : World)
      : Type 1 where
    pub on_route : OnRoute env json_parse catalogue config action input
    pub owned : IsOwned (find_action_owner a.kernel.plugins action)
    pub handled : (handle_request a input w).0 ≢ Served.not_handled
    pub answered :
        (GrantsNothing env json_parse catalogue config (handle_request a input w).0
          × ((handle_request a input w).1 ≡ w))
        ⊎ ((context : RequestContext) × (context.action ≡ action)
            × IsFaithful env.platform (adapter_config config) input context
            × (handle_request a input w ≡ after_kernel a (handle a.kernel context w)))

  -- What an app does with a request: one on the route of an action is routed to it, and only one on no
  -- route is left to others, with nothing changed.
  pub record IsServing (a : App) (input : ParseInput) (w : World) : Type 1 where
    pub schema : IsCompatible catalogue
    pub kernel :
        a.kernel
        ≡ kernel_of env
            (kernel_config config true)
            (plugins_of env json_parse catalogue (oauth env json_parse catalogue config))
            config.policies
    pub served :
        ((action : SupportedAction) × IsRouted a action input w)
        ⊎ (((action : SupportedAction) → ¬ OnRoute env json_parse catalogue config action input)
            × (handle_request a input w ≡ (Served.not_handled, w)))

  -- What is shared: a request to an app that has been started, whose URL has a path.
  module _ (a : App) (input : ParseInput) (w : World) (path : String)
      (is_started : IsStarted env json_parse catalogue config a)
      (required : RequiredAreConfigured (startup_config config))
      (located : env.platform.url_pathname input.url ≡ some path) where
    abbrev resolution : Option SupportedAction
    resolution =
        resolve_action config.entrypoint_method config.entrypoint_path
          (env.platform.to_upper_case input.method) path

    abbrev plugins : List (Plugin World)
    plugins = plugins_of env json_parse catalogue (oauth env json_parse catalogue config)

    app_kernel : a.kernel ≡ kernel_of env (kernel_config config true) plugins config.policies
    app_kernel =
        ap (λ b. b.kernel) is_started.composed ∙ started_kernel env json_parse catalogue config

    -- The adapter of the app parses with the configuration.
    app_parses :
        a.runtime.parse_request input
        ≡ parse_request env.platform json_parse input (adapter_config config)
    app_parses = ap (λ b. b.runtime.parse_request input) is_started.composed

    app_owner :
        (action : SupportedAction)
        → OnRoute env json_parse catalogue config action input
        → IsOwned (find_action_owner a.kernel.plugins action)
    app_owner action (p, at, by_method, by_path) =
        subst (λ k. IsOwned (find_action_owner k.plugins action)) (sym app_kernel)
          (configured-IsOwned (startup_config config) plugins true action
            (env.platform.to_upper_case input.method) is_started.startup required by_method)

    app_answers :
        (action : SupportedAction)
        → OnRoute env json_parse catalogue config action input
        → IsServed env json_parse catalogue config input w (handle_request a input w)
        → (GrantsNothing env json_parse catalogue config (handle_request a input w).0
            × ((handle_request a input w).1 ≡ w))
          ⊎ ((context : RequestContext) × (context.action ≡ action)
              × IsFaithful env.platform (adapter_config config) input context
              × (handle_request a input w ≡ after_kernel a (handle a.kernel context w)))
    app_answers action on_route (inl (nothing, same, unparsed)) = inl (nothing, same)
    app_answers action on_route (inr (context, faithful, answer)) = inr (
      context,
      routed env json_parse catalogue config a action input context is_started required on_route
          faithful,
      faithful,
      subst (λ b. handle_request a input w ≡ after_kernel b (handle b.kernel context w))
          (sym is_started.composed) answer,
    )

    -- The action that the method and the path resolve to, on whose route the request is.
    resolved_on_route :
        (action : SupportedAction)
        → resolution ≡ some action
        → OnRoute env json_parse catalogue config action input
    unfolding resolve_action
    resolved_on_route action e =
        let (by_method, by_path) = and-both _ _ (
          find-holds
            (matches_route config.entrypoint_method config.entrypoint_path
              (env.platform.to_upper_case input.method) path)
            supported_actions action e) in
        (path, located, is_text-some _ _ by_method, is_text-some _ _ by_path)

    resolved-IsRouted :
        (action : SupportedAction) → resolution ≡ some action → IsRouted a action input w
    unfolding handle_request
    resolved-IsRouted action e =
        let on_route = resolved_on_route action e in
        record {
          on_route = on_route;
          owned = app_owner action on_route;
          handled = after_parsing-handled a (a.runtime.parse_request input) w (λ unhandled.
              resolved-taken env.platform json_parse input (adapter_config config) path located
                action e (sym app_parses ∙ unhandled));
          answered =
              app_answers action on_route
                (handle_request-IsServed env json_parse catalogue config a input w is_started);
        }

    -- Where they resolve to none, no action has them.
    unresolved_off_route :
        resolution ≡ none
        → (action : SupportedAction) → ¬ OnRoute env json_parse catalogue config action input
    unresolved_off_route e action (p, at, by_method, by_path) =
        let same : p ≡ path = cc (at, located) in
        let found =
          resolve_action-configured (startup_config config) plugins true action
            (env.platform.to_upper_case input.method) path is_started.startup required by_method
            (by_path ∙ ap some same) in
        cc (e, found)

    unresolved_left : resolution ≡ none → handle_request a input w ≡ (Served.not_handled, w)
    unfolding handle_request
    unresolved_left e =
        ap (λ p. after_parsing a p w)
          (app_parses
            ∙ unresolved-not_handled env.platform json_parse input (adapter_config config) path
                located e)

    started-IsServing : IsServing a input w
    started-IsServing = record {
      schema = is_started.schema;
      kernel = app_kernel;
      served = elim (Option-cases resolution) [
        | inl e ↦ inr (unresolved_off_route e, unresolved_left e)
        | inr (action, e) ↦ inl (action, resolved-IsRouted action e)
      ];
    }

-- An app that is made for what is given of a configuration, where the merged one has the actions that
-- the types require, has a database with every table that is expected with all its columns, and a
-- kernel with both plugins and the merged policies. A request whose URL has a path is on the route of
-- an action or on none. On the route of an action it is not left to others: the kernel has an owner for
-- the action, and either the request is refused, with nothing changed, or the kernel handles a faithful
-- context of that action and the answer is to its result. On no route it is not handled, and nothing is
-- changed.
pub create_reference_app-IsServing :
    (env : Environment) (json_parse : String → Option Json) (catalogue : Catalogue)
    (p : PartialConfig) (a : App) (w w' : World) (input : ParseInput) (v : World) (path : String)
    → create_reference_app env json_parse catalogue p w ≡ (Composed.app a, w')
    → RequiredAreConfigured (startup_config (merged_config p))
    → env.platform.url_pathname input.url ≡ some path
    → IsServing env json_parse catalogue (merged_config p) a input v
create_reference_app-IsServing env json_parse catalogue p a w w' input v path made required
      located =
    started-IsServing env json_parse catalogue (merged_config p) a input v path
      (create_reference_app-IsStarted env json_parse catalogue p a w w' made) required located
