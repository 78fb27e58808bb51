-- ===== src/System.antt =====
-- The composed program, as examples/cycle2-compose.ts puts it together: the services over the
-- Postgres storage, the default crypto and the session layer.
use authia.Prelude.{Option, some, List}
use authia.Contracts.Services.{
  Platform, PluginServices, Plugin, Policy, OauthStateStore, OauthProviderClient, EmailDelivery,
}
use authia.Kernel.PolicyRun.{KernelConfig, Kernel}
use authia.Session.{create_session_layer}
use authia.Postgres.Connection.{Backend, World, Client, date_now}
use authia.Postgres.Transactions.{create_transactional_storage, create_postgres_storage_adapter}
use authia.Postgres.Tokens.{consume_state, create_oauth_state}
use authia.Crypto.Provider.{CryptoDependencies, create_default_crypto_provider}

-- What is not the program's own: the database server, the primitives of the crypto, the platform,
-- the OAuth provider and the delivery of mail.
pub record Environment : Type 0 where
  pub backend : Backend
  pub dependencies : CryptoDependencies
  pub platform : Platform
  pub oauth_provider_client : Option (OauthProviderClient World)
  pub email_delivery : Option (EmailDelivery World)

module _ (env : Environment) where
  -- The state store of the OAuth plugin: the repository on the pool.
  abbrev pub oauth_state_store : OauthStateStore World
  oauth_state_store = record {
    create = create_oauth_state env.backend Client.pool;
    consume = consume_state env.backend Client.pool;
  }

  abbrev pub services : PluginServices World
  services = record {
    platform = env.platform;
    now = date_now env.backend;
    storage = create_postgres_storage_adapter env.backend;
    crypto = create_default_crypto_provider env.dependencies;
    sessions =
        create_session_layer (date_now env.backend)
          (create_default_crypto_provider env.dependencies)
          (create_transactional_storage env.backend Client.pool);
    oauth_state_store = some oauth_state_store;
    oauth_provider_client = env.oauth_provider_client;
    email_delivery = env.email_delivery;
  }

  -- createAuthKernel over these services, with what has been registered.
  abbrev pub auth_kernel : KernelConfig → List (Plugin World) → List (Policy World) → Kernel World
  auth_kernel config plugins policies = record {
    config = config;
    services = services;
    session_layer = services.sessions;
    plugins = plugins;
    policies = policies;
  }
