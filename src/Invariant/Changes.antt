-- ===== src/Invariant/Changes.antt =====
-- A change of one table of packages/storage-postgres that undoes nothing in it undoes nothing at all.
use authia.Prelude.{List}
use authia.Contracts.Sessions.{User, LocalIdentity, SessionRecord}
use authia.Contracts.Storage.{OauthState, OauthIdentity, MailToken, VerifiedEmailRecord}
use authia.Postgres.Tables.{Database}
use authia.Invariant.Rows.{Extends}
use authia.Invariant.Evolution.{
  SameIdentity, SameSession, SameState, SameToken, SameVerified, Equal, Evolves, Evolves-refl,
}

pub users-Evolves :
    (d : Database) (rows : List User)
    → Extends Equal d.users rows
    → Evolves d (record d { users = rows })
users-Evolves d rows h =
    let same = Evolves-refl d in
    record {
      users = h;
      identities = same.identities;
      sessions = same.sessions;
      states = same.states;
      oauth_identities = same.oauth_identities;
      reset_tokens = same.reset_tokens;
      verification_tokens = same.verification_tokens;
      verified = same.verified;
    }

pub identities-Evolves :
    (d : Database) (rows : List LocalIdentity)
    → Extends SameIdentity d.local_identities rows
    → Evolves d (record d { local_identities = rows })
identities-Evolves d rows h =
    let same = Evolves-refl d in
    record {
      users = same.users;
      identities = h;
      sessions = same.sessions;
      states = same.states;
      oauth_identities = same.oauth_identities;
      reset_tokens = same.reset_tokens;
      verification_tokens = same.verification_tokens;
      verified = same.verified;
    }

pub sessions-Evolves :
    (d : Database) (rows : List SessionRecord)
    → Extends SameSession d.sessions rows
    → Evolves d (record d { sessions = rows })
sessions-Evolves d rows h =
    let same = Evolves-refl d in
    record {
      users = same.users;
      identities = same.identities;
      sessions = h;
      states = same.states;
      oauth_identities = same.oauth_identities;
      reset_tokens = same.reset_tokens;
      verification_tokens = same.verification_tokens;
      verified = same.verified;
    }

pub states-Evolves :
    (d : Database) (rows : List OauthState)
    → Extends SameState d.oauth_states rows
    → Evolves d (record d { oauth_states = rows })
states-Evolves d rows h =
    let same = Evolves-refl d in
    record {
      users = same.users;
      identities = same.identities;
      sessions = same.sessions;
      states = h;
      oauth_identities = same.oauth_identities;
      reset_tokens = same.reset_tokens;
      verification_tokens = same.verification_tokens;
      verified = same.verified;
    }

pub oauth_identities-Evolves :
    (d : Database) (rows : List OauthIdentity)
    → Extends Equal d.oauth_identities rows
    → Evolves d (record d { oauth_identities = rows })
oauth_identities-Evolves d rows h =
    let same = Evolves-refl d in
    record {
      users = same.users;
      identities = same.identities;
      sessions = same.sessions;
      states = same.states;
      oauth_identities = h;
      reset_tokens = same.reset_tokens;
      verification_tokens = same.verification_tokens;
      verified = same.verified;
    }

pub reset_tokens-Evolves :
    (d : Database) (rows : List MailToken)
    → Extends SameToken d.password_reset_tokens rows
    → Evolves d (record d { password_reset_tokens = rows })
reset_tokens-Evolves d rows h =
    let same = Evolves-refl d in
    record {
      users = same.users;
      identities = same.identities;
      sessions = same.sessions;
      states = same.states;
      oauth_identities = same.oauth_identities;
      reset_tokens = h;
      verification_tokens = same.verification_tokens;
      verified = same.verified;
    }

pub verification_tokens-Evolves :
    (d : Database) (rows : List MailToken)
    → Extends SameToken d.email_verification_tokens rows
    → Evolves d (record d { email_verification_tokens = rows })
verification_tokens-Evolves d rows h =
    let same = Evolves-refl d in
    record {
      users = same.users;
      identities = same.identities;
      sessions = same.sessions;
      states = same.states;
      oauth_identities = same.oauth_identities;
      reset_tokens = same.reset_tokens;
      verification_tokens = h;
      verified = same.verified;
    }

pub verified-Evolves :
    (d : Database) (rows : List VerifiedEmailRecord)
    → Extends SameVerified d.verified_emails rows
    → Evolves d (record d { verified_emails = rows })
verified-Evolves d rows h =
    let same = Evolves-refl d in
    record {
      users = same.users;
      identities = same.identities;
      sessions = same.sessions;
      states = same.states;
      oauth_identities = same.oauth_identities;
      reset_tokens = same.reset_tokens;
      verification_tokens = same.verification_tokens;
      verified = h;
    }
