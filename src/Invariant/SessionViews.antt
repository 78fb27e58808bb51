-- ===== src/Invariant/SessionViews.antt =====
-- What the session layer of packages/core/src/session promises of the sessions, and the table of
-- packages/storage-postgres/src/repositories/sessions-repository.ts in this view.
use authia.Prelude.{
  ℕ, ◌≡◌, refl, sym, ap, ◌∙◌, String, Bool, true, false, not, ◌==◌, ◌&&◌, eq_iff, Option, none,
  some, List, [], ◌∷◌, ◌++◌, any, is_some, if◌then◌else◌, arith, Bool-cases, inl, inr,
}
use authia.Contracts.Sessions.{SessionRecord}
use authia.Postgres.Tables.{update}
use authia.Postgres.SessionRows.{has_id, revoked}

-- A session, as it is seen from outside: whose it is, and whether it has been closed.
pub record SessionView : Type 0 where
  pub owner : String
  pub closed : Bool

-- The sessions that there are, by their ids.
abbrev pub Sessions : Type 0
Sessions = String → Option SessionView

abbrev pub close : SessionView → SessionView
close v = record v { closed = true }

abbrev pub on_view : (SessionView → SessionView) → Option SessionView → Option SessionView
on_view f none = none
on_view f (some v) = some (f v)

pub on_view_same : (o : Option SessionView) → on_view (λ v. v) o ≡ o
on_view_same none = refl
on_view_same (some v) = refl

-- The changes that the sessions promise: one with a new id is opened, one is closed, or all of an owner
-- are.
pub data Step (m n : Sessions) : Type 0 where
  opens :
      (id : String) (v : SessionView)
      → m id ≡ none
      → ((k : String) → n k ≡ (if id == k then some v else m k))
      → Step m n
  closes :
      (id : String)
      → ((k : String) → n k ≡ on_view (λ v. if k == id then close v else v) (m k))
      → Step m n
  closes_all :
      (owner : String)
      → ((k : String) → n k ≡ on_view (λ v. if v.owner == owner then close v else v) (m k))
      → Step m n

-- Any number of changes, one after the other.
pub data Steps (m : Sessions) : Sessions → Type 0 where
  done : {n : Sessions} → ((k : String) → n k ≡ m k) → Steps m n
  step : {l n : Sessions} → Steps m l → Step l n → Steps m n
  same : {l n : Sessions} → Steps m l → ((k : String) → n k ≡ l k) → Steps m n

abbrev pub view_of : SessionRecord → SessionView
view_of s = record { owner = s.user_id; closed = is_some s.revoked_at }

abbrev pub view : List SessionRecord → Sessions
view [] k = none
view (s ∷ rows) k = if s.id == k then some (view_of s) else view rows k

pub view-unknown :
    (rows : List SessionRecord) (id : String) → any (has_id id) rows ≡ false → view rows id ≡ none
view-unknown [] id h = refl
view-unknown (s ∷ rows) id h = ground (arith, view-unknown rows id)

-- Two texts that a third is, and is not.
apart_ids : (a b k : String) → (a == b) ≡ false → (a == k) ≡ true → (b == k) ≡ false
apart_ids a b k differs hit = elim (Bool-cases (b == k)) [
  | inr miss ↦ miss
  | inl equal ↦
      let e : a ≡ b = (eq_iff a k).0 hit ∙ sym ((eq_iff b k).0 equal) in
      absurd (cc ((eq_iff a b).1 e, differs))
]

pub view-append :
    (rows : List SessionRecord) (row : SessionRecord) (k : String)
    → any (has_id row.id) rows ≡ false
    → view (rows ++ row ∷ []) k ≡ (if row.id == k then some (view_of row) else view rows k)
view-append [] row k h = refl
view-append (s ∷ rows) row k h = elim (Bool-cases (s.id == k)) [
  | inl hit ↦
      let other : (row.id == k) ≡ false = apart_ids s.id row.id k (ground arith) hit in
      rw hit (rw other refl)
  | inr miss ↦ rw miss (view-append rows row k (ground arith))
]

-- An update that changes no id, seen from outside.
pub view-update :
    (g : String → SessionView → SessionView) (p : SessionRecord → Bool)
    (f : SessionRecord → SessionRecord) (rows : List SessionRecord) (k : String)
    → ((s : SessionRecord) → (if p s then f s else s).id ≡ s.id)
    → ((s : SessionRecord) → view_of (if p s then f s else s) ≡ g s.id (view_of s))
    → view (update p f rows) k ≡ on_view (g k) (view rows k)
view-update g p f [] k same_id seen = refl
view-update g p f (s ∷ rows) k same_id seen = elim (Bool-cases (s.id == k)) [
  | inl hit ↦
      let here : s.id ≡ k = (eq_iff s.id k).0 hit in
      rw (same_id s) (rw hit (ap some (seen s ∙ ap (λ i. g i (view_of s)) here)))
  | inr miss ↦ rw (same_id s) (rw miss (view-update g p f rows k same_id seen))
]

-- A field of one of two rows that have it in common.
pub field_of_either :
    {B : Type 0} (field : SessionRecord → B) (b : Bool) (x y : SessionRecord)
    → field x ≡ field y
    → field (if b then x else y) ≡ field y
field_of_either field true x y e = e
field_of_either field false x y e = refl

pub view_of-revoked :
    (b : Bool) (at : ℕ) (s : SessionRecord)
    → view_of (if b then revoked at s else s) ≡ (if b then close (view_of s) else view_of s)
view_of-revoked true at s = refl
view_of-revoked false at s = refl

closed_if_open :
    (gone : Bool) (at : ℕ) (s : SessionRecord)
    → is_some s.revoked_at ≡ gone
    → view_of (if not gone then revoked at s else s) ≡ close (view_of s)
closed_if_open true at s e = ap (λ c. record { owner = s.user_id; closed = c }) e
closed_if_open false at s e = refl

-- Where only the sessions of an owner that are open are revoked, all of them are closed after it.
pub view_of-revoked_open :
    (mine : Bool) (at : ℕ) (s : SessionRecord)
    → view_of (if mine && not (is_some s.revoked_at) then revoked at s else s)
      ≡ (if mine then close (view_of s) else view_of s)
view_of-revoked_open false at s = refl
view_of-revoked_open true at s = closed_if_open (is_some s.revoked_at) at s refl
