-- ===== src/Application/Answers.antt =====
-- What handleRequest of examples/cycle2-compose.ts answers, in an application that has been made.
use authia.Prelude.{◌≡◌, refl, String, true, Option, some, subst, sym, ap, ◌∙◌, ◌⊎◌, inl, inr, ◌≢◌}
use authia.Contracts.Actions.{SupportedAction}
use authia.Contracts.Sessions.{User, SessionRecord, SessionTransport}
use authia.Contracts.Results.{AuthResult, Reply, RequestContext}
use authia.Io.{Completion}
use authia.Adapter.{Applied, AdapterResponse, ResponseBody, apply_result}
use authia.Adapter.Parsing.{ParseInput, Parsed}
use authia.Adapter.ParseRequest.{Json, parse_request}
use authia.Adapter.Responses.{IsTurnedAway, denied_status_range, apply_result_whole_body}
use authia.Adapter.Contexts.{IsFaithful, parse_request-IsFaithful}
use authia.Adapter.Routes.{RequiredAreConfigured, same_route}
use authia.Session.Validation.{IsAccepted}
use authia.Kernel.Handle.{handle}
use authia.Kernel.Reading.{kernel_of}
use authia.Kernel.Registration.{register_policies-append}
use authia.Kernel.CurrentSession.{get_session_answers_for-IsAccepted}
use authia.Postgres.Connection.{World}
use authia.Postgres.Schema.{Catalogue}
use authia.System.{Environment}
use authia.Application.{
  AuthConfig, adapter_config, startup_config, kernel_config, App, Served, served, plugins_of,
  compose_kernel, after_kernel, after_parsing, handle_request,
}
use authia.Application.Composition.{oauth, adapter, IsStarted}

served_response :
    (x : Applied) (r : AdapterResponse) → served x ≡ Served.response r → x ≡ Applied.response r
served_response (Applied.response b) r h = cc
served_response (Applied.failed e) r h = cc

module _ (env : Environment) (json_parse : String → Option Json) (catalogue : Catalogue)
    (config : AuthConfig) where
  abbrev pub started : App
  started =
      compose_kernel env json_parse catalogue config (oauth env json_parse catalogue config)
        (adapter env json_parse catalogue config)

  -- Its kernel, with everything registered.
  pub started_kernel :
      started.kernel
      ≡ kernel_of env
          (kernel_config config true)
          (plugins_of env json_parse catalogue (oauth env json_parse catalogue config))
          config.policies
  started_kernel = register_policies-append config.policies _

  -- A response with a whole result: a context was parsed, and the kernel answered with the result.
  abbrev FromKernel : AuthResult → ParseInput → World → World → Type 0
  FromKernel r input w w' =
      (context : RequestContext) × (parse_request env.platform json_parse input
          (adapter_config config)
        ≡ Parsed.parsed context)
      × (handle started.kernel context w ≡ (Completion.value r, w'))

  kernel_answer :
      (c : Completion AuthResult) (w1 w' : World) (a : AdapterResponse) (r : AuthResult)
      → after_kernel started (c, w1) ≡ (Served.response a, w')
      → a.body ≡ some (ResponseBody.whole r)
      → (c ≡ Completion.value r) × (w1 ≡ w')
  unfolding apply_result
  kernel_answer (Completion.value r0) w1 w' a r h b =
      let applied = served_response (apply_result true (Reply.result r0)) a (ap (λ x. x.0) h) in
      (
        ap Completion.value (sym ((apply_result_whole_body true r0 r a applied b).0)),
        ap (λ x. x.1) h,
      )
  kernel_answer (Completion.error e) w1 w' a r h b = cc (ap (λ x. x.0) h)
  kernel_answer (Completion.threw t) w1 w' a r h b = cc h

  parsed_answer :
      (p : Parsed RequestContext) (input : ParseInput) (w w' : World) (a : AdapterResponse)
      (r : AuthResult)
      → parse_request env.platform json_parse input (adapter_config config) ≡ p
      → after_parsing started p w ≡ (Served.response a, w')
      → a.body ≡ some (ResponseBody.whole r)
      → FromKernel r input w w'
  unfolding apply_result
  parsed_answer Parsed.not_handled input w w' a r e h b = cc h
  parsed_answer (Parsed.denied code) input w w' a r e h b = cc (ap (λ x. x.0) h, b)
  parsed_answer (Parsed.failed f) input w w' a r e h b = cc (ap (λ x. x.0) h)
  parsed_answer Parsed.threw input w w' a r e h b = cc h
  parsed_answer (Parsed.parsed context) input w w' a r e h b =
      let answer = handle started.kernel context w in
      let (same, world) = kernel_answer answer.0 answer.1 w' a r h b in
      (context, e, ap (λ c. (c, answer.1)) same ∙ ap (λ v. (Completion.value r, v)) world)

  from_kernel :
      (input : ParseInput) (w w' : World) (a : AdapterResponse) (r : AuthResult)
      → handle_request started input w ≡ (Served.response a, w')
      → a.body ≡ some (ResponseBody.whole r)
      → FromKernel r input w w'
  unfolding handle_request
  from_kernel input w w' a r h b =
      parsed_answer (parse_request env.platform json_parse input (adapter_config config)) input w w'
        a r refl h b

  -- An answer that grants nothing: a response that turns the request away, or no response.
  abbrev pub GrantsNothing : Served → Type 0
  GrantsNothing (Served.response a) = IsTurnedAway a
  GrantsNothing _ = Unit

  -- A request that is refused before the kernel, or one that the kernel handles.
  abbrev pub IsServed : ParseInput → World → Served × World → Type 0
  IsServed input w (answer, w') =
      (GrantsNothing answer
        × (w' ≡ w)
        × ((context : RequestContext)
            → parse_request env.platform json_parse input (adapter_config config)
              ≢ Parsed.parsed context))
      ⊎ ((context : RequestContext) × IsFaithful env.platform (adapter_config config) input context
          × ((answer, w') ≡ after_kernel started (handle started.kernel context w)))

  parsed_or_refused :
      (p : Parsed RequestContext) (input : ParseInput) (w : World)
      → parse_request env.platform json_parse input (adapter_config config) ≡ p
      → IsServed input w (after_parsing started p w)
  unfolding apply_result
  parsed_or_refused Parsed.not_handled input w e = inl (tt, refl, λ context f. cc (e, f))
  parsed_or_refused (Parsed.denied code) input w e = inl (
    record {
      client_error = denied_status_range code;
      no_headers = refl;
      no_cookies = refl;
      nothing_cleared = (refl, refl);
    },
    refl,
    λ context f. cc (e, f),
  )
  parsed_or_refused (Parsed.failed f) input w e = inl (tt, refl, λ context g. cc (e, g))
  parsed_or_refused Parsed.threw input w e = inl (tt, refl, λ context f. cc (e, f))
  parsed_or_refused (Parsed.parsed context) input w e = inr (
    context,
    parse_request-IsFaithful env.platform json_parse input (adapter_config config) context e,
    refl,
  )

  -- A request to a started app is refused before the kernel, with nothing changed and an answer that
  -- is no response or has a status from 400 to 499, no header, and no cookie or token set or cleared;
  -- or it is parsed to a faithful context, which the kernel handles, and the response is to the
  -- kernel's result.
  pub handle_request-IsServed :
      (a : App) (input : ParseInput) (w : World)
      → IsStarted env json_parse catalogue config a
      → IsServed input w (handle_request a input w)
  unfolding handle_request
  handle_request-IsServed a input w is_started =
      subst (λ b. IsServed input w (handle_request b input w)) (sym is_started.composed)
        (parsed_or_refused (parse_request env.platform json_parse input (adapter_config config))
          input w refl)

  -- A request with the method and the path of an action, as the adapter reads them.
  abbrev pub OnRoute : SupportedAction → ParseInput → Type 0
  OnRoute action input =
      (path : String) × (env.platform.url_pathname input.url ≡ some path)
      × (config.entrypoint_method action ≡ some (env.platform.to_upper_case input.method))
      × (config.entrypoint_path action ≡ some path)

  pub routed :
      (a : App) (action : SupportedAction) (input : ParseInput) (context : RequestContext)
      → IsStarted env json_parse catalogue config a
      → RequiredAreConfigured (startup_config config)
      → OnRoute action input
      → IsFaithful env.platform (adapter_config config) input context
      → context.action ≡ action
  routed a action input context started required (path, located, by_method, by_path) faithful =
      same_route (startup_config config)
        (plugins_of env json_parse catalogue (oauth env json_parse catalogue config)) true action
        context.action (env.platform.to_upper_case input.method) path started.startup required
        by_method by_path (faithful.method ∙ ap some faithful.same_method)
        (sym faithful.path ∙ located)

  -- The credential by which a session is answered: it was presented in the request, and it is accepted
  -- in the world in which the request arrived.
  pub record IsPresentedAndAccepted (input : ParseInput) (w : World) (user : User)
      (session : SessionRecord) : Type 0 where
    pub context : RequestContext
    pub faithful : IsFaithful env.platform (adapter_config config) input context
    pub credential : SessionTransport
    pub presented : context.credential ≡ some credential
    pub accepted : IsAccepted env w credential (record { user = user; session = session })

  -- A started app, whose configuration has the actions that its types require, answers a request on
  -- the route of getSession with a user and a session only if the request presents a credential, in
  -- the session cookie or in the bearer header and not in both, that is accepted for them: the
  -- session is stored under its token id, its verifier fits, it is neither revoked nor expired nor
  -- idle, and the user is its stored owner.
  pub session_answer-IsPresentedAndAccepted :
      (a : App) (input : ParseInput) (w w' : World) (response : AdapterResponse) (user : User)
      (session : SessionRecord)
      → IsStarted env json_parse catalogue config a
      → RequiredAreConfigured (startup_config config)
      → OnRoute SupportedAction.get_session input
      → handle_request a input w ≡ (Served.response response, w')
      → response.body ≡ some (ResponseBody.whole (AuthResult.current_session user session))
      → IsPresentedAndAccepted input w user session
  session_answer-IsPresentedAndAccepted a input w w' response user session is_started required
        on_route answer body =
      let here =
        subst (λ b. handle_request b input w ≡ (Served.response response, w')) is_started.composed
          answer in
      let (context, parsed, handled) =
        from_kernel input w w' response (AuthResult.current_session user session) here body in
      let faithful =
        parse_request-IsFaithful env.platform json_parse input (adapter_config config) context
          parsed in
      let (credential, given, accepted) =
        get_session_answers_for-IsAccepted env (kernel_config config true)
          (plugins_of env json_parse catalogue (oauth env json_parse catalogue config))
          config.policies context w w' user session
          (routed a SupportedAction.get_session input context is_started required on_route faithful)
          (subst
            (λ k.
              handle k context w ≡ (Completion.value (AuthResult.current_session user session), w'))
            started_kernel handled) in
      record {
        context = context;
        faithful = faithful;
        credential = credential;
        presented = given;
        accepted = accepted;
      }
