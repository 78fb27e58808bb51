-- ===== src/Adapter/Inversion.antt =====
-- How parsing of packages/node-adapter/src/parse-request.ts is read backwards, step by step.
use authia.Prelude.{
  ◌≡◌, refl, ap, inl, inr, String, Bool, true, false, not, ◌&&◌, ◌==◌, eq_iff, Option, none, some,
  List, [], ◌∷◌, any, find, arith, Bool-cases,
}
use authia.Contracts.Actions.{SupportedAction}
use authia.Contracts.Sessions.{TransportKind, same_kind}
use authia.Adapter.Parsing.{Parsed, ◌>>=◌, or_threw, require, contains, is_text, resolved}
use authia.Adapter.ParseRequest.{expected_transport}

pub bind_parsed :
    {A B : Type 0} (m : Parsed A) (k : A → Parsed B) {b : B}
    → (m >>= k) ≡ Parsed.parsed b
    → (a : A) × (m ≡ Parsed.parsed a) × (k a ≡ Parsed.parsed b)
unfolding ◌>>=◌
bind_parsed (Parsed.parsed a) k h = (a, refl, h)
bind_parsed Parsed.not_handled k h = cc
bind_parsed (Parsed.denied code) k h = cc
bind_parsed (Parsed.failed e) k h = cc
bind_parsed Parsed.threw k h = cc

pub parsed_eq : {A : Type 0} {a b : A} → Parsed.parsed a ≡ Parsed.parsed b → a ≡ b
parsed_eq h = cc h

pub require-true : (b : Bool) (u : Unit {0}) → require b ≡ Parsed.parsed u → b ≡ true
require-true true u h = refl
require-true false u h = cc

pub or_threw-some : {A : Type 0} (o : Option A) (a : A) → or_threw o ≡ Parsed.parsed a → o ≡ some a
or_threw-some none a h = cc
or_threw-some (some b) a h = cc

pub resolved-some :
    (o : Option SupportedAction) (action : SupportedAction)
    → resolved o ≡ Parsed.parsed action
    → o ≡ some action
resolved-some none action h = cc
resolved-some (some b) action h = cc

pub find-holds : {A : Type 0} (p : A → Bool) (xs : List A) (a : A) → find p xs ≡ some a → p a ≡ true
find-holds p [] a h = cc
find-holds p (x ∷ xs) a h = ground (arith, find-holds p xs a)

pub is_text-some : (o : Option String) (s : String) → is_text o s ≡ true → o ≡ some s
is_text-some none s h = cc
is_text-some (some t) s h = ap some ((eq_iff t s).0 h)

pub and-both : (a b : Bool) → (a && b) ≡ true → (a ≡ true) × (b ≡ true)
and-both true b h = (refl, h)
and-both false b h = cc

pub expected-some :
    (o : Option TransportKind) (kind : TransportKind)
    → expected_transport o ≡ Parsed.parsed kind
    → o ≡ some kind
expected-some none kind h = cc
expected-some (some k) kind h = cc

pub same_kind-eq : (a b : TransportKind) → same_kind a b ≡ true → a ≡ b
same_kind-eq TransportKind.cookie TransportKind.cookie h = refl
same_kind-eq TransportKind.bearer TransportKind.bearer h = refl
same_kind-eq TransportKind.cookie TransportKind.bearer h = cc
same_kind-eq TransportKind.bearer TransportKind.cookie h = cc

-- A name that one of the names is, where no name passes a test, does not pass it.
pub untested :
    (p : String → Bool) (names : List String) (name : String)
    → any p names ≡ false
    → p name ≡ true
    → contains names name ≡ false
untested p [] name h hit = refl
untested p (n ∷ names) name h hit = elim (Bool-cases (n == name)) [
  | inr differs ↦ ground (arith, untested p names name)
  | inl same ↦ let e : n ≡ name = (eq_iff n name).0 same in absurd (ground (arith, ap p e))
]

pub not-true : (b : Bool) → not b ≡ true → b ≡ false
not-true true h = cc
not-true false h = refl
