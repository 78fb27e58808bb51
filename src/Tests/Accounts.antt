-- ===== src/Tests/Accounts.antt =====
-- Signing up and resetting a password, run in a concrete world.
use authia.Prelude.{◌≡◌, refl, some, arith}
use authia.Contracts.Actions.{SupportedAction}
use authia.Contracts.Results.{Field, RequestContext}
use authia.Io.{Completion}
use authia.EmailPassword.Accounts.{execute_sign_in, execute_sign_up, sign_up_transaction}
use authia.EmailPassword.SignUp.{body_credentials, SignUpEnds, sign_up_all_or_nothing}
use authia.EmailPassword.SignInEffects.{SignInEnds, sign_in_all_or_nothing}
use authia.EmailPassword.Verification.{execute_verify_email}
use authia.EmailPassword.VerifyEffects.{VerifyEnds, verify_email_all_or_nothing}
use authia.EmailPassword.Reset.{plain, execute_reset_password}
use authia.EmailPassword.ResetEffects.{ResetEnds, body_reset, reset_password_all_or_nothing}
use authia.EmailPassword.ResetOnce.{reset_token_works_once}
use authia.Postgres.Caught.{IsRefused, IsAtomic, caught, caught-IsAtomic}
use authia.Postgres.Refusals.{sign_up_transaction-RollsBack}
use authia.EmailPassword.Input.{storage_unavailable}
use authia.System.{services}
use authia.Tests.{env, world, tables, request, no_body}
use authia.Postgres.Connection.{World}
use authia.Postgres.Transactions.{begin_transaction}
use authia.Postgres.Atomicity.{EndsWell, ran, begin_transaction-EndsWell}
use authia.Postgres.Inside.{sign_up_transaction-StaysInside}

abbrev sign_up_request : RequestContext
sign_up_request =
    request SupportedAction.sign_up_with_password
      (record no_body { email = Field.text "bob@example.org"; password = Field.text "long enough" })

abbrev reset_request : RequestContext
reset_request =
    request SupportedAction.reset_password (record no_body {
      reset_token = Field.text "reset me";
      password = Field.text "a new password";
    })

sign_up_all_or_nothing_example :
    SignUpEnds env sign_up_request world (execute_sign_up (services env) sign_up_request world)
sign_up_all_or_nothing_example = sign_up_all_or_nothing env sign_up_request world refl

reset_password_all_or_nothing_example :
    ResetEnds env reset_request world (execute_reset_password (services env) reset_request world)
reset_password_all_or_nothing_example = reset_password_all_or_nothing env reset_request world refl

-- The reset succeeds.
reset_succeeds :
    (execute_reset_password (services env) reset_request world).0
    ≡ Completion.value (plain SupportedAction.reset_password)
unfolding execute_reset_password authia.EmailPassword.Input.checked_reset
    authia.EmailPassword.Input.utf16_length authia.Io.io
    authia.Postgres.Transactions.begin_transaction
    authia.EmailPassword.Reset.reset_password_transaction authia.Postgres.Connection.query
    authia.Postgres.Tokens.consume_reset_token authia.Postgres.Accounts.update_identity_password
    authia.Postgres.Accounts.update_password_hash authia.Postgres.SessionRows.revoke_all
    authia.Postgres.SessionRows.revoke_sessions_of
reset_succeeds = refl

body_of_reset : body_reset env reset_request ≡ some ("reset me", "a new password")
unfolding authia.EmailPassword.Input.checked_reset authia.EmailPassword.Input.utf16_length
body_of_reset = refl

-- A later world, with the tables that the reset has left.
abbrev after_reset : World
after_reset = record world {
  committed = (execute_reset_password (services env) reset_request world).1.committed;
  step = 100;
}

reset_token_works_once_example :
    IsRefused (execute_reset_password (services env) reset_request after_reset).0
    × ((execute_reset_password (services env) reset_request after_reset).1.committed
        ≡ after_reset.committed)
reset_token_works_once_example =
    reset_token_works_once env reset_request reset_request "reset me" "a new password"
      "a new password" world after_reset refl refl body_of_reset body_of_reset reset_succeeds refl
      (omega arith)

begin_transaction-EndsWell_example :
    EndsWell env.backend world
      (ran env.backend
        (sign_up_transaction (services env) sign_up_request "bob@example.org" "long enough")
        world)
      (begin_transaction env.backend
        (sign_up_transaction (services env) sign_up_request "bob@example.org" "long enough")
        world)
begin_transaction-EndsWell_example =
    begin_transaction-EndsWell env.backend
      (sign_up_transaction (services env) sign_up_request "bob@example.org" "long enough") world
      refl
      (sign_up_transaction-StaysInside env tables 1 sign_up_request "bob@example.org" "long enough")

caught-IsAtomic_example :
    IsAtomic env.backend
      (sign_up_transaction (services env) sign_up_request "bob@example.org" "long enough")
      world
      (storage_unavailable "Sign-up transaction failed unexpectedly.")
      (caught env.backend
        (sign_up_transaction (services env) sign_up_request "bob@example.org" "long enough")
        world
        (storage_unavailable "Sign-up transaction failed unexpectedly."))
caught-IsAtomic_example =
    caught-IsAtomic env.backend
      (sign_up_transaction (services env) sign_up_request "bob@example.org" "long enough") world
      (storage_unavailable "Sign-up transaction failed unexpectedly.") refl
      (sign_up_transaction-StaysInside env tables 1 sign_up_request "bob@example.org" "long enough")
      (sign_up_transaction-RollsBack env sign_up_request "bob@example.org" "long enough")

abbrev sign_in_request : RequestContext
sign_in_request =
    request SupportedAction.sign_in_with_password (record no_body {
      email = Field.text "ann@example.org";
      password = Field.text "old password";
    })

sign_in_all_or_nothing_example :
    SignInEnds env sign_in_request
      (body_credentials env sign_in_request)
      tables
      (execute_sign_in (services env) sign_in_request world)
sign_in_all_or_nothing_example = sign_in_all_or_nothing env sign_in_request world refl

abbrev verify_request : RequestContext
verify_request =
    request SupportedAction.verify_email
      (record no_body { verification_token = Field.text "verify me" })

verify_email_all_or_nothing_example :
    VerifyEnds env verify_request world (execute_verify_email (services env) verify_request world)
verify_email_all_or_nothing_example = verify_email_all_or_nothing env verify_request world refl

-- The verification succeeds.
verify_succeeds :
    (execute_verify_email (services env) verify_request world).0
    ≡ Completion.value (plain SupportedAction.verify_email)
unfolding execute_verify_email authia.Io.io begin_transaction
    authia.EmailPassword.Verification.verify_email_transaction authia.Postgres.Connection.query
    authia.Postgres.Tokens.consume_verification_token authia.Postgres.Tokens.upsert_verified_email
verify_succeeds = refl
