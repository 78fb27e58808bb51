-- ===== src/Crypto/Provider.antt =====
-- packages/crypto-default/src/default-crypto.ts: createDefaultCryptoProvider over its dependencies
-- (argon2, SHA-256 and the random source, or their overrides), which are parameters.
use authia.Prelude.{ℕ, String, Bool, Option, none, some}
use authia.Contracts.Errors.{AuthError, AuthErrorCode, infrastructure_error}
use authia.Contracts.Services.{Crypto}
use authia.Io.{Completion}
use authia.Postgres.Connection.{World, tick}
use authia.Crypto.Comparison.{units, compare_padded}

-- CryptoDependencies. `none` is a call that throws; what is salted or random depends on the step of
-- the world at which it is called.
pub record CryptoDependencies : Type 0 where
  pub hash_secret : ℕ → String → Option String
  pub verify_secret : String → String → Option Bool
  pub generate_opaque_token : ℕ → Option String
  pub derive_token_id : String → Option String
  pub derive_token_verifier : String → Option String

abbrev pub crypto_failure : String → AuthError
crypto_failure message = infrastructure_error AuthErrorCode.crypto_failure message

-- try { return await … } catch { return cryptoFailure(message); }
abbrev pub or_crypto_failure : {A : Type 0} → String → Option A → Completion A
or_crypto_failure message none = Completion.error (crypto_failure message)
or_crypto_failure message (some a) = Completion.value a

abbrev pub compare_derived : Option String → String → Option Bool
compare_derived none verifier = none
compare_derived (some derived) verifier = compare_padded (units derived) (units verifier)

module _ (dependencies : CryptoDependencies) where
  -- Whether verifyOpaqueToken finds that the token fits; `none` is its failure.
  unfoldable pub token_fits : String → String → Option Bool
  token_fits token verifier = compare_derived (dependencies.derive_token_verifier token) verifier

  abbrev pub create_default_crypto_provider : Crypto World
  create_default_crypto_provider = record {
    hash_secret = λ secret w. (
      or_crypto_failure "Failed to hash secret." (dependencies.hash_secret w.step secret),
      tick w,
    );
    verify_secret = λ secret hash w.
        (or_crypto_failure "Failed to verify secret." (dependencies.verify_secret secret hash), w);
    generate_opaque_token = λ w. (
      or_crypto_failure "Failed to generate opaque token."
          (dependencies.generate_opaque_token w.step),
      tick w,
    );
    derive_token_id = λ token w.
        (or_crypto_failure "Failed to derive token id." (dependencies.derive_token_id token), w);
    derive_token_verifier = λ token w. (
      or_crypto_failure "Failed to derive token verifier."
          (dependencies.derive_token_verifier token),
      w,
    );
    verify_opaque_token = λ token verifier w.
        (or_crypto_failure "Failed to verify opaque token." (token_fits token verifier), w);
  }
