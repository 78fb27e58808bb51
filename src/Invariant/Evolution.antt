-- ===== src/Invariant/Evolution.antt =====
-- What no request undoes: the tables of packages/storage-postgres only grow, and what is revoked or
-- consumed stays so.
use authia.Prelude.{◌≡◌, refl, sym, subst, ◌∙◌, true, is_some, arith}
use authia.Contracts.Sessions.{LocalIdentity, SessionRecord}
use authia.Contracts.Storage.{OauthState, MailToken, VerifiedEmailRecord}
use authia.Postgres.Tables.{Database}
use authia.Invariant.Rows.{Extends, Extends-refl, Extends-trans}

-- An identity keeps its user and its email; its hash may change.
pub record SameIdentity (i j : LocalIdentity) : Type 0 where
  pub id : j.id ≡ i.id
  pub user_id : j.user_id ≡ i.user_id
  pub email : j.normalized_email ≡ i.normalized_email

-- A session keeps its user and its absolute end; once revoked, it stays revoked.
pub record SameSession (s t : SessionRecord) : Type 0 where
  pub id : t.id ≡ s.id
  pub user_id : t.user_id ≡ s.user_id
  pub expires_at : t.expires_at ≡ s.expires_at
  pub stays_revoked : is_some s.revoked_at ≡ true → is_some t.revoked_at ≡ true

-- A consumed state is not changed any more, one that is not may be consumed.
pub record SameState (s t : OauthState) : Type 0 where
  pub hash : t.state_hash ≡ s.state_hash
  pub stays_consumed : is_some s.consumed_at ≡ true → t ≡ s

pub record SameToken (s t : MailToken) : Type 0 where
  pub hash : t.token_hash ≡ s.token_hash
  pub email : t.normalized_email ≡ s.normalized_email
  pub stays_consumed : is_some s.consumed_at ≡ true → t ≡ s

-- A verified email stays verified.
pub record SameVerified (v w : VerifiedEmailRecord) : Type 0 where
  pub email : w.normalized_email ≡ v.normalized_email

abbrev pub Equal : {A : Type 0} → A → A → Type 0
Equal x y = y ≡ x

-- No row of `d` is deleted in `d'`, and none is undone.
pub record Evolves (d d' : Database) : Type 0 where
  pub users : Extends Equal d.users d'.users
  pub identities : Extends SameIdentity d.local_identities d'.local_identities
  pub sessions : Extends SameSession d.sessions d'.sessions
  pub states : Extends SameState d.oauth_states d'.oauth_states
  pub oauth_identities : Extends Equal d.oauth_identities d'.oauth_identities
  pub reset_tokens : Extends SameToken d.password_reset_tokens d'.password_reset_tokens
  pub verification_tokens :
      Extends SameToken d.email_verification_tokens d'.email_verification_tokens
  pub verified : Extends SameVerified d.verified_emails d'.verified_emails

pub Equal-refl : {A : Type 0} (x : A) → Equal x x
Equal-refl x = refl

Equal-trans : {A : Type 0} (x y z : A) → Equal x y → Equal y z → Equal x z
Equal-trans x y z h k = k ∙ h

pub SameIdentity-refl : (i : LocalIdentity) → SameIdentity i i
SameIdentity-refl i = record { id = refl; user_id = refl; email = refl }

SameIdentity-trans :
    (x y z : LocalIdentity) → SameIdentity x y → SameIdentity y z → SameIdentity x z
SameIdentity-trans x y z h k = ground arith

pub SameSession-refl : (s : SessionRecord) → SameSession s s
SameSession-refl s = record { id = refl; user_id = refl; expires_at = refl; stays_revoked = λ h. h }

SameSession-trans : (x y z : SessionRecord) → SameSession x y → SameSession y z → SameSession x z
SameSession-trans x y z h k = record {
  id = k.id ∙ h.id;
  user_id = k.user_id ∙ h.user_id;
  expires_at = k.expires_at ∙ h.expires_at;
  stays_revoked = λ r. k.stays_revoked (h.stays_revoked r);
}

pub SameState-refl : (s : OauthState) → SameState s s
SameState-refl s = record { hash = refl; stays_consumed = λ h. refl }

SameState-trans : (x y z : OauthState) → SameState x y → SameState y z → SameState x z
SameState-trans x y z h k = record {
  hash = k.hash ∙ h.hash;
  stays_consumed = λ c.
      let e = h.stays_consumed c in
      k.stays_consumed (subst (λ s. is_some s.consumed_at ≡ true) (sym e) c) ∙ e;
}

pub SameToken-refl : (s : MailToken) → SameToken s s
SameToken-refl s = record { hash = refl; email = refl; stays_consumed = λ h. refl }

SameToken-trans : (x y z : MailToken) → SameToken x y → SameToken y z → SameToken x z
SameToken-trans x y z h k = record {
  hash = k.hash ∙ h.hash;
  email = k.email ∙ h.email;
  stays_consumed = λ c.
      let e = h.stays_consumed c in
      k.stays_consumed (subst (λ s. is_some s.consumed_at ≡ true) (sym e) c) ∙ e;
}

pub SameVerified-refl : (v : VerifiedEmailRecord) → SameVerified v v
SameVerified-refl v = record { email = refl }

pub Evolves-refl : (d : Database) → Evolves d d
Evolves-refl d = record {
  users = Extends-refl Equal Equal-refl d.users;
  identities = Extends-refl SameIdentity SameIdentity-refl d.local_identities;
  sessions = Extends-refl SameSession SameSession-refl d.sessions;
  states = Extends-refl SameState SameState-refl d.oauth_states;
  oauth_identities = Extends-refl Equal Equal-refl d.oauth_identities;
  reset_tokens = Extends-refl SameToken SameToken-refl d.password_reset_tokens;
  verification_tokens = Extends-refl SameToken SameToken-refl d.email_verification_tokens;
  verified = Extends-refl SameVerified SameVerified-refl d.verified_emails;
}

pub Evolves-trans : (a b c : Database) → Evolves a b → Evolves b c → Evolves a c
Evolves-trans a b c h k = record {
  users = Extends-trans Equal Equal-trans a.users b.users c.users h.users k.users;
  identities =
      Extends-trans SameIdentity SameIdentity-trans a.local_identities b.local_identities
        c.local_identities h.identities k.identities;
  sessions =
      Extends-trans SameSession SameSession-trans a.sessions b.sessions c.sessions h.sessions
        k.sessions;
  states =
      Extends-trans SameState SameState-trans a.oauth_states b.oauth_states c.oauth_states h.states
        k.states;
  oauth_identities =
      Extends-trans Equal Equal-trans a.oauth_identities b.oauth_identities c.oauth_identities
        h.oauth_identities k.oauth_identities;
  reset_tokens =
      Extends-trans SameToken SameToken-trans a.password_reset_tokens b.password_reset_tokens
        c.password_reset_tokens h.reset_tokens k.reset_tokens;
  verification_tokens =
      Extends-trans SameToken SameToken-trans a.email_verification_tokens
        b.email_verification_tokens c.email_verification_tokens h.verification_tokens
        k.verification_tokens;
  verified =
      Extends-trans SameVerified (λ x y z h k. record { email = k.email ∙ h.email })
        a.verified_emails b.verified_emails c.verified_emails h.verified k.verified;
}
