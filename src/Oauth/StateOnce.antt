-- ===== src/Oauth/StateOnce.antt =====
-- A state of the OAuth plugin is consumed once
-- (packages/storage-postgres/src/repositories/oauth-states-repository.ts).
use authia.Prelude.{
  ℕ, ◌≡◌, ◌≤◌, refl, inl, inr, String, Option, none, List, [], ◌∷◌, arith, Bool-cases,
}
use authia.Contracts.Storage.{OauthState, ConsumedState}
use authia.Io.{io}
use authia.Io.Inversion.{Yields}
use authia.Postgres.Tables.{update, returning, first}
use authia.Postgres.Connection.{Backend, World, Client, query}
use authia.Postgres.Tokens.{
  is_live_state, consumed_state, consume_oauth_state, to_consumed_state, consume_state,
}

consumed_state-none_live :
    (provider hash : String) (now later : ℕ) (rows : List OauthState)
    → now ≤ later
    → returning
        (is_live_state provider hash later)
        (consumed_state later)
        (update (is_live_state provider hash now) (consumed_state now) rows)
      ≡ []
consumed_state-none_live provider hash now later [] order = refl
consumed_state-none_live provider hash now later (r ∷ rows) order =
    elim (Bool-cases (is_live_state provider hash now r)) [
      | inl live ↦ ground (arith, consumed_state-none_live provider hash now later rows)
      | inr dead ↦ ground (arith, consumed_state-none_live provider hash now later rows)
    ]

module _ (backend : Backend) where
  consume_state_answer :
      (provider hash : String) (now : ℕ) (w w' : World) (r : Option ConsumedState)
      → Yields (consume_state backend Client.pool provider hash now) w r w'
      → (r
          ≡ to_consumed_state (
              first (
                returning
                  (is_live_state provider hash now)
                  (consumed_state now)
                  w.committed.oauth_states)))
        × (w'.committed.oauth_states
            ≡ update
                (is_live_state provider hash now)
                (consumed_state now)
                w.committed.oauth_states)
  unfolding io query consume_oauth_state
  consume_state_answer provider hash now w w' r h = ground arith

  -- A state of a provider that has been asked for is given out no more: whatever the first call found,
  -- a second one at no earlier time finds none, for as long as the table of the states stays as the
  -- first one left it.
  pub consume_state_once :
      (provider hash : String) (now later : ℕ) (w w1 w2 w3 : World) (r r' : Option ConsumedState)
      → now ≤ later
      → Yields (consume_state backend Client.pool provider hash now) w r w1
      → w2.committed.oauth_states ≡ w1.committed.oauth_states
      → Yields (consume_state backend Client.pool provider hash later) w2 r' w3
      → r' ≡ none
  consume_state_once provider hash now later w w1 w2 w3 r r' order first_call same second_call =
      let (answer, tables) = consume_state_answer provider hash now w w1 r first_call in
      let (answer', tables') = consume_state_answer provider hash later w2 w3 r' second_call in
      let nothing =
        consumed_state-none_live provider hash now later w.committed.oauth_states order in
      ground arith
