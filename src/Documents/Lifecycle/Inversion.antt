-- ===== src/Documents/Lifecycle/Inversion.antt =====
-- What a successful statement has done to the tables.
use file_storage_bucket.Common.{
  ℕ, List, Option, none, some, Bool, true, false, ◌≡◌, refl, ◌⊎◌, inl, inr, ◌++◌, ◌∷◌, [], arith,
  find?, any, modify_where, select, In, map, find?_sound, Bool-cases, Option-cases, ◌==◌,
  append-nil, In-select,
}
use file_storage_bucket.Documents.Types.{ok}
use file_storage_bucket.Documents.Tables.{
  Row, AuditEvent, Tables, insert_row, update_row, append_event, lease_next, lease_found, earliest,
  lease, is_candidate, renew, row_ok, same_source, may_renew, clashes,
}

-- a row was added whose keys are new
pub record IsAdded (new r : Row) (t u : Tables) : Type 0 where
  pub result : r ≡ new
  pub rows : u.rows ≡ t.rows ++ new ∷ []
  pub audit : u.audit ≡ t.audit
  pub valid : row_ok new ≡ true
  pub fresh : any (clashes new) t.rows ≡ false
  pub unmatched : find? (same_source new) t.rows ≡ none

-- a pending row of the same source was renewed
pub record IsRenewed (now : ℕ) (new r : Row) (t u : Tables) : Type 0 where
  pub old : Row
  pub matched : find? (same_source new) t.rows ≡ some old
  pub renewable : may_renew new old ≡ true
  pub result : r ≡ renew now new old
  pub rows : u.rows ≡ modify_where (λ x. x.public_id == old.public_id) (renew now new) t.rows
  pub audit : u.audit ≡ t.audit

pub insert_row-cases :
    (now : ℕ) (new r : Row) (t u : Tables)
    → insert_row now new t ≡ ok (r, u)
    → IsAdded new r t u ⊎ IsRenewed now new r t u
unfolding insert_row
insert_row-cases now new r t u h = elim (Bool-cases (row_ok new)) [
  | inr bad ↦ cc
  | inl good ↦ elim (Option-cases (find? (same_source new) t.rows)) [
    | inl none_found ↦ inl (record {
      result = ground arith;
      rows = ground arith;
      audit = ground arith;
      valid = good;
      fresh = ground arith;
      unmatched = none_found;
    })
    | inr (old, found) ↦ inr (record {
      old = old;
      matched = found;
      renewable = ground arith;
      result = ground arith;
      rows = ground arith;
      audit = ground arith;
    })
  ]
]

pub record IsUpdated (p : Row → Bool) (f : Row → Row) (r : Row) (t u : Tables) : Type 0 where
  pub old : Row
  pub matched : (p old ≡ true) × In old t.rows
  pub result : r ≡ f old
  pub rows : u.rows ≡ modify_where p f t.rows
  pub audit : u.audit ≡ t.audit

pub update_row-IsUpdated :
    (p : Row → Bool) (f : Row → Row) (r : Row) (t u : Tables)
    → update_row p f t ≡ some (r, u)
    → IsUpdated p f r t u
unfolding update_row
update_row-IsUpdated p f r t u h = elim (Option-cases (find? p t.rows)) [
  | inl missing ↦ absurd (ground arith)
  | inr (old, found) ↦ record {
    old = old;
    matched = find?_sound p t.rows old found;
    result = ground arith;
    rows = ground arith;
    audit = ground arith;
  }
]

pub append_event-Extends :
    (p : Row → Bool) (e : AuditEvent) (t u : Tables)
    → append_event p e t ≡ ok (tt, u)
    → (u.rows ≡ t.rows) × (u.audit ≡ t.audit ++ map (λ _. e) (select p t.rows))
unfolding append_event
append_event-Extends p e t u h = ground (arith, append-nil t.audit)

earliest-In : (rs : List Row) (r : Row) → earliest rs ≡ some r → In r rs
unfolding earliest
earliest-In [] r h = cc
earliest-In (x ∷ rs) r h = elim (Option-cases (earliest rs)) [
  | inl nothing ↦ ground arith
  | inr (y, found) ↦ ground (arith, earliest-In rs y found)
]

-- a candidate was leased
pub record IsLeased (now : ℕ) (r : Row) (t u : Tables) : Type 0 where
  pub old : Row
  pub matched : (is_candidate now old ≡ true) × In old t.rows
  pub result : r ≡ lease now old
  pub rows : u.rows ≡ modify_where (λ x. x.public_id == old.public_id) (lease now) t.rows
  pub audit : u.audit ≡ t.audit

lease_found-IsLeased :
    (now : ℕ) (r : Row) (t u : Tables) (found : Option Row)
    → ((x : Row) → found ≡ some x → (is_candidate now x ≡ true) × In x t.rows)
    → lease_found now t found ≡ ok (some r, u)
    → IsLeased now r t u
unfolding lease_found
lease_found-IsLeased now r t u none k h = cc
lease_found-IsLeased now r t u (some old) k h = record {
  old = old;
  matched = k old refl;
  result = cc;
  rows = cc;
  audit = cc;
}

pub lease_next-IsLeased :
    (now : ℕ) (r : Row) (t u : Tables) → lease_next now t ≡ ok (some r, u) → IsLeased now r t u
unfolding lease_next
lease_next-IsLeased now r t u h =
    lease_found-IsLeased now r t u _
      (λ x e. In-select (is_candidate now) t.rows x (earliest-In _ x e)) h
