-- ===== src/Tests.antt =====
-- Concrete worlds for the tests: a server that does not fail, a clock, and primitives of the crypto
-- that mark what they are given.
pub mod Accounts
pub mod Requests
pub mod Parts
pub mod Sequences
pub mod Apps
pub mod Deliveries
pub mod Races
use Prim.Native.String as Text
use authia.Prelude.{ℕ, zero, suc, ◌+◌, String, ◌==◌, Option, some, none, [], ◌∷◌, false}
use authia.Contracts.Actions.{SupportedAction}
use authia.Contracts.Sessions.{
  TransportKind, User, LocalIdentity, SessionRecord, SessionTransport, absolute_lifetime_ms,
  idle_timeout_ms,
}
use authia.Contracts.Results.{Field, Body, RequestContext}
use authia.Contracts.Services.{Platform}
use authia.Contracts.Storage.{MailToken, OauthState}
use authia.Postgres.Tables.{Database}
use authia.Postgres.Connection.{Backend, World}
use authia.Crypto.Provider.{CryptoDependencies}
use authia.Kernel.PolicyRun.{KernelConfig}
use authia.System.{Environment}

abbrev pub marks : ℕ → String
marks zero = ""
marks (suc n) = Text.◌++◌ "i" (marks n)

abbrev pub backend : Backend
backend = record {
  clock = λ step. 1000000 + step;
  uuid = λ step. Text.◌++◌ "uuid-" (marks step);
  fault = λ step. none;
}

abbrev pub dependencies : CryptoDependencies
dependencies = record {
  hash_secret = λ salt secret. some (Text.◌++◌ "hash-" secret);
  verify_secret = λ secret hash. some (hash == Text.◌++◌ "hash-" secret);
  generate_opaque_token = λ step. some (Text.◌++◌ "token-" (marks step));
  derive_token_id = λ token. some (Text.◌++◌ "id-" token);
  derive_token_verifier = λ token. some (Text.◌++◌ "verifier-" token);
}

abbrev pub platform : Platform
platform = record {
  trim = λ s. s;
  to_lower_case = λ s. s;
  to_upper_case = λ s. s;
  normalize_nfc = λ s. s;
  url_origin = λ s. some s;
  url_pathname = λ s. some s;
  url_protocol_and_host = λ s. some ("https:", s);
  relative_host = λ s. some "n";
  resolve_url = λ path origin. some (Text.◌++◌ origin path);
}

abbrev pub env : Environment
env = record {
  backend = backend;
  dependencies = dependencies;
  platform = platform;
  oauth_provider_client = none;
  email_delivery = none;
}

abbrev pub ann : User
ann = record { id = "ann"; created_at = 1 }

abbrev pub identity_of_ann : LocalIdentity
identity_of_ann = record {
  id = "identity";
  user_id = "ann";
  normalized_email = "ann@example.org";
  password_hash = "hash-old password";
}

abbrev pub session_of_ann : SessionRecord
session_of_ann = record {
  id = "session";
  user_id = "ann";
  current_token_id = "id-secret";
  current_token_verifier = "verifier-secret";
  last_rotated_at = 1000000;
  expires_at = 1000000 + absolute_lifetime_ms;
  idle_expires_at = 1000000 + idle_timeout_ms;
  revoked_at = none;
}

abbrev pub reset_token_of_ann : MailToken
reset_token_of_ann = record {
  id = "reset";
  token_hash = "id-reset me";
  normalized_email = "ann@example.org";
  expires_at = 2000000;
  consumed_at = none;
}

abbrev pub state_of_login : OauthState
state_of_login = record {
  id = "state";
  provider = "github";
  state_hash = "id-state";
  code_verifier_ciphertext = "verifier";
  redirect_uri_hash = "id-/";
  expires_at = 2000000;
  consumed_at = none;
}

abbrev pub tables : Database
tables = record {
  users = ann ∷ [];
  local_identities = identity_of_ann ∷ [];
  sessions = session_of_ann ∷ [];
  oauth_states = state_of_login ∷ [];
  oauth_identities = [];
  password_reset_tokens = reset_token_of_ann ∷ [];
  email_verification_tokens = record reset_token_of_ann { token_hash = "id-verify me" } ∷ [];
  verified_emails = [];
}

abbrev pub world : World
world = record { committed = tables; working = none; step = 0; leased = 0 }

abbrev pub no_body : Body
no_body = record {
  email = Field.missing;
  password = Field.missing;
  reset_token = Field.missing;
  verification_token = Field.missing;
  provider = Field.missing;
  redirect_to = Field.missing;
  code = Field.missing;
  state = Field.missing;
}

abbrev pub credential : SessionTransport
credential = record { kind = TransportKind.bearer; token = "secret" }

abbrev pub request : SupportedAction → Body → RequestContext
request action body = record {
  action = action;
  method = "POST";
  url = "https://example.org/";
  transport = TransportKind.bearer;
  headers = ("origin", "https://example.org") ∷ [];
  cookies = [];
  credential = some credential;
  body = some body;
  session = none;
}

abbrev pub config : KernelConfig
config = record {
  public_origin = "https://example.org";
  session_cookie_name = "authia_session";
  cookie_path = "/";
  redirects = false;
}
