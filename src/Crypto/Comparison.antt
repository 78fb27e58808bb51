-- ===== src/Crypto/Comparison.antt =====
-- packages/crypto-default/src/default-crypto.ts: the comparison in verifyOpaqueToken. A JavaScript
-- text is the list of its UTF-16 code units; Buffer.from(text, 'utf8') is its encoding in UTF-8, an
-- unpaired surrogate as U+FFFD.
use Prim.Native.Nat.{◌/◌, ◌%◌}
use Prim.Native.Char.{code}
use authia.Prelude.{
  ℕ, ◌+◌, ◌-◌, ◌*◌, String, Bool, true, false, ◌&&◌, ◌||◌, Option, none, some, List, [], ◌∷◌, ◌++◌,
  length, zero, suc, ltb, leb, nat_eq, if◌then◌else◌,
}

-- The code units of a text: two for a code point past 0xFFFF.
unfoldable pub units : String → List ℕ
units String.[] = []
units (String.◌∷◌ c s) =
    if ltb (code c) 0x10000
    then code c ∷ units s
    else (0xd800 + (code c - 0x10000) / 1024) ∷ (0xdc00 + (code c - 0x10000) % 1024) ∷ units s

abbrev pub is_high : ℕ → Bool
is_high u = leb 0xd800 u && ltb u 0xdc00

abbrev pub is_low : ℕ → Bool
is_low u = leb 0xdc00 u && ltb u 0xe000

-- The bytes of a code unit that begins no surrogate pair.
unfoldable pub unit_bytes : ℕ → List ℕ
unit_bytes u =
    if ltb u 0x80
    then u ∷ []
    else if ltb u 0x800
    then (0xc0 + u / 64) ∷ (0x80 + u % 64) ∷ []
    else if is_high u || is_low u
    then 0xef ∷ 0xbf ∷ 0xbd ∷ []
    else (0xe0 + u / 4096) ∷ (0x80 + (u / 64) % 64) ∷ (0x80 + u % 64) ∷ []

-- The bytes of the code point that two surrogates stand for.
unfoldable pub pair_bytes : ℕ → ℕ → List ℕ
pair_bytes high low =
    let point = 0x10000 + (high - 0xd800) * 1024 + (low - 0xdc00) in
    (0xf0 + point / 262144)
    ∷ (0x80 + (point / 4096) % 64)
    ∷ (0x80 + (point / 64) % 64)
    ∷ (0x80 + point % 64)
    ∷ []

-- Buffer.from(text, 'utf8')
unfoldable pub utf8 : List ℕ → List ℕ
unfolding unit_bytes pair_bytes
utf8 [] = []
utf8 (u ∷ []) = unit_bytes u
utf8 (u ∷ v ∷ rest) =
    let paired = pair_bytes u v ++ utf8 rest in
    let single = unit_bytes u ++ utf8 (v ∷ rest) in if is_high u && is_low v then paired else single

abbrev pub zeros : ℕ → List ℕ
zeros zero = []
zeros (suc n) = 0 ∷ zeros n

-- text.padEnd(n, '\0')
abbrev pub pad_end : List ℕ → ℕ → List ℕ
pad_end text n = text ++ zeros (n - length text)

abbrev pub bytes_eq : List ℕ → List ℕ → Bool
bytes_eq [] [] = true
bytes_eq (a ∷ as') (b ∷ bs) = nat_eq a b && bytes_eq as' bs
bytes_eq _ _ = false

-- timingSafeEqual: it throws where the buffers differ in length.
abbrev pub timing_safe_equal : List ℕ → List ℕ → Option Bool
timing_safe_equal a b = if nat_eq (length a) (length b) then some (bytes_eq a b) else none

abbrev pub max_length : List ℕ → List ℕ → ℕ
max_length a b = if ltb (length a) (length b) then length b else length a

abbrev pub and_same_length : Bool → Option Bool → Option Bool
and_same_length same none = none
and_same_length same (some equal) = some (equal && same)

-- The comparison; `none` is the exception of timingSafeEqual.
unfoldable pub compare_padded : List ℕ → List ℕ → Option Bool
unfolding utf8
compare_padded derived verifier =
    let n = max_length derived verifier in
    and_same_length (nat_eq (length derived) (length verifier))
      (timing_safe_equal (utf8 (pad_end derived n)) (utf8 (pad_end verifier n)))
