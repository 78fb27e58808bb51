-- ===== src/Postgres/Swaps.antt =====
-- compareAndSwapToken of packages/storage-postgres/src/repositories/sessions-repository.ts: of two
-- swaps from one token, one wins.
use authia.Prelude.{
  ◌≡◌, ◌≢◌, refl, inl, inr, Option, some, none, List, [], ◌∷◌, eq_iff, arith, Bool-cases,
}
use authia.Contracts.Sessions.{SessionRecord}
use authia.Contracts.Storage.{SessionCompareAndSwapInput}
use authia.Io.{io}
use authia.Io.Inversion.{Yields}
use authia.Postgres.Tables.{update, returning, first}
use authia.Postgres.Connection.{Backend, World, Client, query}
use authia.Postgres.SessionRows.{swaps, swapped, swap_token, set_sessions, compare_and_swap}
use authia.Postgres.Rows.{In, first-returning-In}

-- The token ids that are stored are those of other rows, so the swapped rows match no more.
swaps-swapped :
    (input later : SessionCompareAndSwapInput) (rows : List SessionRecord)
    → later.session_id ≡ input.session_id
    → later.expected_token_id ≡ input.expected_token_id
    → input.next_token_id ≢ input.expected_token_id
    → returning (swaps later) (swapped later) (update (swaps input) (swapped input) rows) ≡ []
swaps-swapped input later [] e e' fresh = refl
swaps-swapped input later (r ∷ rows) e e' fresh = elim (Bool-cases (swaps input r)) [
  | inl hit ↦
      ground
        (arith, swaps-swapped input later rows, eq_iff input.next_token_id input.expected_token_id)
  | inr miss ↦ ground (arith, swaps-swapped input later rows)
]

module _ (backend : Backend) where
  -- What the swap that wins has made of the table.
  swap_won :
      (input : SessionCompareAndSwapInput) (w w' : World) (s : SessionRecord)
      → Yields (compare_and_swap backend Client.pool input) w (some s) w'
      → (w'.committed ≡ set_sessions (swaps input) (swapped input) w.committed)
        × (s.current_token_id ≡ input.next_token_id)
        × In s w'.committed.sessions
  unfolding io query compare_and_swap swap_token
  swap_won input w w' s h =
      ground (arith, first-returning-In (swaps input) (swapped input) w.committed.sessions s)

  swap_answer :
      (input : SessionCompareAndSwapInput) (w w' : World) (r : Option SessionRecord)
      → Yields (compare_and_swap backend Client.pool input) w r w'
      → r ≡ first (returning (swaps input) (swapped input) w.committed.sessions)
  unfolding io query compare_and_swap swap_token
  swap_answer input w w' r h = ground arith

  -- Two requests swap one session from the same token, through the pool. Once the first has won, with a new token
  -- that differs from the old one, the second gets null for as long as the table of the sessions
  -- stays as the first left it, and the row that the first got is stored with its new token.
  pub compare_and_swap_one_winner :
      (input later : SessionCompareAndSwapInput) (w w1 w2 w3 : World) (s : SessionRecord)
      (r : Option SessionRecord)
      → later.session_id ≡ input.session_id
      → later.expected_token_id ≡ input.expected_token_id
      → input.next_token_id ≢ input.expected_token_id
      → Yields (compare_and_swap backend Client.pool input) w (some s) w1
      → w2.committed.sessions ≡ w1.committed.sessions
      → Yields (compare_and_swap backend Client.pool later) w2 r w3
      → (r ≡ none) × (s.current_token_id ≡ input.next_token_id) × In s w1.committed.sessions
  compare_and_swap_one_winner input later w w1 w2 w3 s r e e' fresh won same second =
      let (tables, token, stored) = swap_won input w w1 s won in
      let answer = swap_answer later w2 w3 r second in
      let nothing = swaps-swapped input later w.committed.sessions e e' fresh in
      (ground arith, token, stored)
