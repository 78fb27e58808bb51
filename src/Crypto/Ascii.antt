-- ===== src/Crypto/Ascii.antt =====
-- The comparison of packages/crypto-default/src/default-crypto.ts, on ASCII texts.
use authia.Prelude.{
  ℕ, ◌+◌, ◌-◌, ◌<◌, ◌≡◌, refl, inl, inr, true, some, List, [], ◌∷◌, ◌++◌, length, All, arith,
  Bool-cases, nat_eq, zero, suc,
}
use authia.Crypto.Comparison.{
  utf8, unit_bytes, zeros, pad_end, bytes_eq, timing_safe_equal, max_length, and_same_length,
  compare_padded,
}

abbrev pub IsAscii : List ℕ → Type 0
IsAscii text = All (λ u. u < 0x80) text

-- The encoding of an ASCII text is the text.
utf8_ascii : (text : List ℕ) → IsAscii text → utf8 text ≡ text
unfolding utf8 unit_bytes
utf8_ascii [] h = refl
utf8_ascii (u ∷ []) h = ground arith
utf8_ascii (u ∷ v ∷ rest) h = ground (arith, utf8_ascii (v ∷ rest))

pad_end-IsAscii : (text : List ℕ) (n : ℕ) → IsAscii text → IsAscii (text ++ zeros n)
pad_end-IsAscii [] zero h = tt
pad_end-IsAscii [] (suc n) h = ground (arith, pad_end-IsAscii [] n)
pad_end-IsAscii (u ∷ text) n h = ground (arith, pad_end-IsAscii text n)

length-zeros : (n : ℕ) → length (zeros n) ≡ n
length-zeros zero = refl
length-zeros (suc n) = ground (arith, length-zeros n)

length-append : (a b : List ℕ) → length (a ++ b) ≡ length a + length b
length-append [] b = omega arith
length-append (u ∷ a) b = ground (arith, length-append a b)

length-pad_end : (text : List ℕ) (n : ℕ) → length (pad_end text n) ≡ length text + (n - length text)
length-pad_end text n =
    ground (arith, length-append text (zeros (n - length text)), length-zeros (n - length text))

-- Texts of one length are padded alike, and the padding keeps their comparison.
bytes_eq-pad :
    (a b : List ℕ) (n : ℕ)
    → length a ≡ length b
    → bytes_eq (a ++ zeros n) (b ++ zeros n) ≡ bytes_eq a b
bytes_eq-pad [] [] zero h = refl
bytes_eq-pad [] [] (suc n) h = ground (arith, bytes_eq-pad [] [] n)
bytes_eq-pad [] (v ∷ b) n h = ground arith
bytes_eq-pad (u ∷ a) [] n h = ground arith
bytes_eq-pad (u ∷ a) (v ∷ b) n h = ground (arith, bytes_eq-pad a b n)

bytes_eq_lengths : (a b : List ℕ) → bytes_eq a b ≡ true → length a ≡ length b
bytes_eq_lengths [] [] h = refl
bytes_eq_lengths [] (v ∷ b) h = ground arith
bytes_eq_lengths (u ∷ a) [] h = ground arith
bytes_eq_lengths (u ∷ a) (v ∷ b) h = ground (arith, bytes_eq_lengths a b)

padded_lengths :
    (a b : List ℕ) → length (pad_end a (max_length a b)) ≡ length (pad_end b (max_length a b))
padded_lengths a b =
    ground (arith, length-pad_end a (max_length a b), length-pad_end b (max_length a b))

timing_safe_equal_same :
    (x y : List ℕ) → length x ≡ length y → timing_safe_equal x y ≡ some (bytes_eq x y)
timing_safe_equal_same x y h = ground arith

padded_equality :
    (a b : List ℕ)
    → and_same_length
        (nat_eq (length a) (length b))
        (some (bytes_eq (pad_end a (max_length a b)) (pad_end b (max_length a b))))
      ≡ some (bytes_eq a b)
padded_equality a b = elim (Bool-cases (nat_eq (length a) (length b))) [
  | inl same ↦ ground (arith, bytes_eq-pad a b (max_length a b - length a))
  | inr differ ↦ ground (arith, bytes_eq_lengths a b)
]

-- On ASCII texts the comparison succeeds, and it is the equality of the two texts.
pub compare_padded_ascii :
    (derived verifier : List ℕ)
    → IsAscii derived
    → IsAscii verifier
    → compare_padded derived verifier ≡ some (bytes_eq derived verifier)
unfolding compare_padded
compare_padded_ascii derived verifier da va =
    let n = max_length derived verifier in
    simp
      (
        utf8_ascii (pad_end derived n) (pad_end-IsAscii derived (n - length derived) da),
        utf8_ascii (pad_end verifier n) (pad_end-IsAscii verifier (n - length verifier) va),
        timing_safe_equal_same (pad_end derived n) (pad_end verifier n)
            (padded_lengths derived verifier),
      )
      (padded_equality derived verifier)
