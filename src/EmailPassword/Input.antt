-- ===== src/EmailPassword/Input.antt =====
-- packages/core/src/plugins/email-password/plugin.ts: the checks on the body of a request.
use Prim.Native.Char.{code}
use authia.Prelude.{
  ℕ, ◌+◌, ◌*◌, String, Bool, ◌&&◌, Option, none, some, ltb, leb, nat_eq, truthy, if◌then◌else◌,
}
use authia.Contracts.Errors.{AuthError, AuthErrorCode, infrastructure_error}
use authia.Contracts.Results.{Field}
use authia.Contracts.Services.{Platform}

abbrev pub password_reset_token_ttl_ms : ℕ
password_reset_token_ttl_ms = 15 * 60 * 1000

abbrev pub email_verification_token_ttl_ms : ℕ
email_verification_token_ttl_ms = 24 * 60 * 60 * 1000

-- email.trim().toLowerCase().normalize('NFC')
abbrev pub normalize_email : Platform → String → String
normalize_email platform email =
    platform.normalize_nfc (platform.to_lower_case (platform.trim email))

-- The number of parts that `email.split('@')` has.
unfoldable pub split_at_length : String → ℕ
split_at_length String.[] = 1
split_at_length (String.◌∷◌ c s) =
    if nat_eq (code c) b'@' then 1 + split_at_length s else split_at_length s

abbrev pub has_exactly_one_at : String → Bool
has_exactly_one_at email = nat_eq (split_at_length email) 2

-- `length` of a JavaScript string: a code point past 0xFFFF takes two units.
unfoldable pub utf16_length : String → ℕ
utf16_length String.[] = 0
utf16_length (String.◌∷◌ c s) = (if ltb (code c) 0x10000 then 1 else 2) + utf16_length s

abbrev pub is_valid_password : String → Bool
is_valid_password password = leb 8 (utf16_length password) && leb (utf16_length password) 128

abbrev pub storage_unavailable : String → AuthError
storage_unavailable message = infrastructure_error AuthErrorCode.storage_unavailable message

abbrev pub runtime_misconfigured : String → AuthError
runtime_misconfigured message = infrastructure_error AuthErrorCode.runtime_misconfigured message

abbrev pub checked_email : Platform → Field → Option String
checked_email platform (Field.text email) =
    let normalized = normalize_email platform email in
    if truthy normalized && has_exactly_one_at normalized then some normalized else none
checked_email platform _ = none

abbrev pub checked_password : Field → Option String
checked_password (Field.text password) = if is_valid_password password then some password else none
checked_password _ = none

-- The normalized email and the password, if both are texts and pass the checks.
abbrev pub pair_credentials : Option String → Option String → Option (String × String)
pair_credentials (some email) (some password) = some (email, password)
pair_credentials _ _ = none

unfoldable pub checked_credentials : Platform → Field → Field → Option (String × String)
checked_credentials platform email password =
    pair_credentials (checked_email platform email) (checked_password password)

-- A text that is not blank.
abbrev pub checked_token : Platform → Field → Option String
checked_token platform (Field.text token) =
    if truthy (platform.trim token) then some token else none
checked_token platform _ = none

unfoldable pub checked_reset : Platform → Field → Field → Option (String × String)
checked_reset platform token password =
    pair_credentials (checked_token platform token) (checked_password password)
