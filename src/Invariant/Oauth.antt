-- ===== src/Invariant/Oauth.antt =====
-- Starting and finishing an OAuth login (packages/core/src/plugins/oauth/plugin.ts) keep what their
-- writes and transactions keep.
use authia.Prelude.{String, Option, none, some}
use authia.Contracts.Actions.{SupportedAction}
use authia.Contracts.Errors.{AuthError, ErrorCategory}
use authia.Contracts.Storage.{ConsumedState}
use authia.Contracts.Results.{RequestContext}
use authia.Contracts.Services.{OauthProviderClient}
use authia.Io.{Io, Thrown, Completion}
use authia.Io.Keeps.{Keeps, keeps_rules}
use authia.Postgres.Connection.{World}
use authia.Oauth.Config.{OauthRuntimeConfig}
use authia.Oauth.Start.{
  callback_url, oauth_services, start_with, start_checked, execute_start_oauth,
}
use authia.Oauth.Finish.{
  exchange_failure, retry_callback, recover_callback, sign_in_subject, after_exchange,
  exchange_then, finish_consumed, finish_with, finish_checked, execute_finish_oauth,
}
use authia.Oauth.Plugin.{execute_oauth}
use authia.System.{Environment, services, oauth_state_store}
use authia.Invariant.Stable.{
  IsApartClient, IsApartEnvironment, OnSome, IsStable, apart-Keeps, verifier-Keeps,
}
use authia.Invariant.Accounts.{
  return_reply-Keeps, recover-Keeps, now-Keeps, new_token-Keeps, token_id-Keeps,
}

module _ (env : Environment) (P : World → Type 0) (stable : IsStable env P)
    (apart : IsApartEnvironment env) where
  callback_url-Keeps : (url : Option String) → Keeps P (callback_url url)
  callback_url-Keeps none = search keeps_rules
  callback_url-Keeps (some url) = search keeps_rules

  ruleset oauth_rules = (
    keeps_rules, recover-Keeps, now-Keeps, new_token-Keeps, token_id-Keeps, verifier-Keeps,
    callback_url-Keeps,
  )

  module _ (client : OauthProviderClient World) (client_apart : IsApartClient client) where
    build-Keeps :
        (provider redirect_uri state challenge : String)
        → Keeps P (client.build_authorization_url provider redirect_uri state challenge)
    build-Keeps provider redirect_uri state challenge =
        apart-Keeps env P stable _ (client_apart.build provider redirect_uri state challenge)

    exchange-Keeps :
        (provider code redirect_uri verifier : String)
        → Keeps P (client.exchange_code provider code redirect_uri verifier)
    exchange-Keeps provider code redirect_uri verifier =
        apart-Keeps env P stable _ (client_apart.exchange provider code redirect_uri verifier)

    start_with-Keeps :
        (config : OauthRuntimeConfig) (provider : String × String) (redirect_to : String)
        → Keeps P
            (start_with (services env) config (oauth_state_store env, client) provider redirect_to)
    unfolding start_with
    start_with-Keeps config (provider, path) redirect_to =
        search (oauth_rules, stable, apart, stable.create_state, build-Keeps) depth 12

    exchange_failure-Keeps :
        (category : ErrorCategory) (e : AuthError) → Keeps P (exchange_failure category e)
    exchange_failure-Keeps ErrorCategory.operator e = search keeps_rules
    exchange_failure-Keeps ErrorCategory.infrastructure e = search keeps_rules

    retry_callback-Keeps :
        (context : RequestContext) (provider subject : String)
        → Keeps P (retry_callback (services env) context provider subject)
    unfolding retry_callback
    retry_callback-Keeps context provider subject =
        search (oauth_rules, stable, apart, stable.retry context provider subject)

    recover_callback-Keeps :
        (context : RequestContext) (provider subject : String) (t : Thrown)
        → Keeps P (recover_callback (services env) context provider subject t)
    recover_callback-Keeps context provider subject (Thrown.signal outcome) = search (
      keeps_rules,
      retry_callback-Keeps context provider subject,
      return_reply-Keeps env P stable apart outcome,
    )
    recover_callback-Keeps context provider subject (Thrown.exception code message) =
        search keeps_rules

    sign_in_subject-Keeps :
        (context : RequestContext) (provider subject : String)
        → Keeps P (sign_in_subject (services env) context provider subject)
    unfolding sign_in_subject
    sign_in_subject-Keeps context provider subject =
        search (keeps_rules, stable.callback context provider subject, recover_callback-Keeps)

    after_exchange-Keeps :
        (context : RequestContext) (provider : String) (c : Completion String)
        → Keeps P (after_exchange (services env) context provider c)
    after_exchange-Keeps context provider (Completion.value subject) =
        sign_in_subject-Keeps context provider subject
    after_exchange-Keeps context provider (Completion.error e) = exchange_failure-Keeps e.category e
    after_exchange-Keeps context provider (Completion.threw t) = record { at = λ w h. h }

    exchange_then-Keeps :
        (context : RequestContext) (provider : String) (exchange : Io World String)
        → Keeps P exchange
        → Keeps P (exchange_then (services env) context provider exchange)
    exchange_then-Keeps context provider exchange keeps = record {
      at = λ w h.
          let (c, w') = exchange w in
          (after_exchange-Keeps context provider c).at w' (keeps.at w h);
    }

    finish_consumed-Keeps :
        (config : OauthRuntimeConfig) (context : RequestContext) (provider : String × String)
        (code : String) (consumed : Option ConsumedState)
        → Keeps P (finish_consumed (services env) context config client provider code consumed)
    finish_consumed-Keeps config context (provider, path) code none = search keeps_rules
    finish_consumed-Keeps config context (provider, path) code (some consumed) =
        search (keeps_rules, callback_url-Keeps, exchange_then-Keeps, exchange-Keeps)

    finish_with-Keeps :
        (config : OauthRuntimeConfig) (context : RequestContext) (provider : String × String)
        (code state : String)
        → Keeps P (
            finish_with
              (services env)
              context
              config
              (oauth_state_store env, client)
              provider
              code
              state)
    unfolding finish_with
    finish_with-Keeps config context (provider, path) code state =
        search (oauth_rules, stable, apart, stable.consume, finish_consumed-Keeps) depth 9

  start_clients-Keeps :
      (config : OauthRuntimeConfig) (clients : Option (OauthProviderClient World))
      (provider : Option (String × String)) (redirect_to : Option String)
      → OnSome IsApartClient clients
      → Keeps P (
          start_checked
            (services env)
            config
            (oauth_services (record (services env) { oauth_provider_client = clients }))
            provider
            redirect_to)
  unfolding start_checked
  start_clients-Keeps config none provider redirect_to h = search keeps_rules
  start_clients-Keeps config (some client) none redirect_to h = search keeps_rules
  start_clients-Keeps config (some client) (some provider) none h = search keeps_rules
  start_clients-Keeps config (some client) (some provider) (some redirect_to) h =
      start_with-Keeps client h config provider redirect_to

  finish_clients-Keeps :
      (config : OauthRuntimeConfig) (context : RequestContext)
      (clients : Option (OauthProviderClient World)) (provider : Option (String × String))
      (code state : Option String)
      → OnSome IsApartClient clients
      → Keeps P (
          finish_checked
            (services env)
            context
            config
            (oauth_services (record (services env) { oauth_provider_client = clients }))
            provider
            code
            state)
  unfolding finish_checked
  finish_clients-Keeps config context none provider code state h = search keeps_rules
  finish_clients-Keeps config context (some client) none code state h = search keeps_rules
  finish_clients-Keeps config context (some client) (some provider) none state h =
      search keeps_rules
  finish_clients-Keeps config context (some client) (some provider) (some code) none h =
      search keeps_rules
  finish_clients-Keeps config context (some client) (some provider) (some code) (some state) h =
      finish_with-Keeps client h config context provider code state

  -- Both actions of the plugin.
  pub execute_oauth-Keeps :
      (config : Option OauthRuntimeConfig) (action : SupportedAction) (context : RequestContext)
      → Keeps P (execute_oauth config action context (services env))
  unfolding execute_oauth execute_start_oauth execute_finish_oauth
  execute_oauth-Keeps none action context = search keeps_rules
  execute_oauth-Keeps (some config) SupportedAction.start_oauth context =
      start_clients-Keeps config env.oauth_provider_client _ _ apart.provider
  execute_oauth-Keeps (some config) SupportedAction.finish_oauth context =
      finish_clients-Keeps config context env.oauth_provider_client _ _ _ apart.provider
  execute_oauth-Keeps (some config) _ context = search keeps_rules
