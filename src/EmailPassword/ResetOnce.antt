-- ===== src/EmailPassword/ResetOnce.antt =====
-- A reset token of packages/core/src/plugins/email-password/plugin.ts works once.
use authia.Prelude.{
  ℕ, ◌≡◌, ◌≤◌, inl, inr, String, false, Option, some, none, List, [], ◌∷◌, arith, Bool-cases, subst,
  ap, ◌∙◌,
}
use authia.Contracts.Actions.{SupportedAction}
use authia.Contracts.Storage.{MailToken}
use authia.Contracts.Results.{RequestContext}
use authia.Io.{Completion}
use authia.Postgres.Tables.{Database, update}
use authia.Postgres.Atomicity.{opened}
use authia.Postgres.Connection.{World}
use authia.Postgres.Rows.{In}
use authia.Postgres.Tokens.{is_live_token, consumed_token}
use authia.Postgres.Caught.{IsRefused}
use authia.EmailPassword.Reset.{plain, execute_reset_password}
use authia.EmailPassword.ResetEffects.{IsReset, body_reset, reset_password_all_or_nothing}
use authia.System.{Environment, services}

-- No row of the table is live for this hash once it has been consumed, then or later.
pub consumed-not_live :
    (token_hash : String) (now later : ℕ) (rows : List MailToken) (t : MailToken)
    → now ≤ later
    → In t (update (is_live_token token_hash now) (consumed_token now) rows)
    → is_live_token token_hash later t ≡ false
consumed-not_live token_hash now later [] t order h = absurd h
consumed-not_live token_hash now later (r ∷ rows) t order h =
    elim (Bool-cases (is_live_token token_hash now r)) [
      | inl live ↦ ground (arith, consumed-not_live token_hash now later rows t)
      | inr dead ↦ ground (arith, consumed-not_live token_hash now later rows t)
    ]

module _ (env : Environment) where
  -- Two resets by the same token hash: the second finds no live token.
  reset_twice :
      (start start' : ℕ) (d d1 d2 d3 : Database) (token_hash password password' : String)
      → IsReset env start d d1 token_hash password
      → d2.password_reset_tokens ≡ d1.password_reset_tokens
      → env.backend.clock start ≤ env.backend.clock start'
      → IsReset env start' d2 d3 token_hash password'
      → ⊥
  reset_twice start start' d d1 d2 d3 token_hash password password' r same order r' = ground (
    arith,
    consumed-not_live token_hash r.now r'.now d.password_reset_tokens r'.token,
    r.tables,
    r.read,
    r'.read,
    r'.live,
    subst (In r'.token) (same ∙ ap (λ v. v.password_reset_tokens) r.tables) r'.token_stored,
  )

  same_hash :
      (input input' : Option (String × String)) {token p p' t q t' q' h h' : String}
      → input ≡ some (token, p)
      → input ≡ some (t, q)
      → input' ≡ some (token, p')
      → input' ≡ some (t', q')
      → env.dependencies.derive_token_id t ≡ some h
      → env.dependencies.derive_token_id t' ≡ some h'
      → h' ≡ h
  same_hash input input' e1 e2 e3 e4 e5 e6 = ground arith

  -- A reset token works once. If a reset has succeeded, any other one with the same token is refused
  -- and changes no table, whatever its password, for as long as the table of the reset tokens stays
  -- as the first one left it and the clock does not run backwards.
  pub reset_token_works_once :
      (context context' : RequestContext) (token password password' : String) (w w2 : World)
      → w.working ≡ none
      → w2.working ≡ none
      → body_reset env context ≡ some (token, password)
      → body_reset env context' ≡ some (token, password')
      → (execute_reset_password (services env) context w).0
        ≡ Completion.value (plain SupportedAction.reset_password)
      → w2.committed.password_reset_tokens
        ≡ (execute_reset_password (services env) context w).1.committed.password_reset_tokens
      → env.backend.clock (opened w).step ≤ env.backend.clock (opened w2).step
      → let (c, w3) = execute_reset_password (services env) context' w2 in
        IsRefused c × (w3.committed ≡ w2.committed)
  reset_token_works_once context context' token password password' w w2 idle idle' given given' done
        same order =
      elim (reset_password_all_or_nothing env context' w2 idle') [
        | inl refused ↦ refused
        | inr (t', p', h', body', derived', c', after') ↦
            elim (reset_password_all_or_nothing env context w idle) [
              | inl (refused, tables) ↦ absurd (subst IsRefused done refused)
              | inr (t, p, h, body, derived, c, after) ↦
                  let e =
                    same_hash (body_reset env context) (body_reset env context') given body given'
                      body' derived derived' in
                  absurd (
                    reset_twice (opened w).step (opened w2).step w.committed
                      (execute_reset_password (services env) context w).1.committed w2.committed
                      (execute_reset_password (services env) context' w2).1.committed h p p' after
                      same order
                      (subst
                        (λ x.
                          IsReset env (opened w2).step w2.committed
                            (execute_reset_password (services env) context' w2).1.committed x p')
                        e after'))
            ]
      ]
