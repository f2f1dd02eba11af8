-- ===== src/Documents/Lifecycle.antt =====
-- Invariants of the tables: a row's identity and its progress, the soundness of its statuses, and
-- the audit trail.
pub mod Inversion
pub mod Later
pub mod Sound
pub mod Logged
use file_storage_bucket.Common.{
  ℕ, suc, ◌≤◌, none, some, false, List, [], ◌∷◌, ◌++◌, ◌≡◌, ◌≢◌, ◌⊎◌, ◌↔◌, All,
}
use file_storage_bucket.Documents.Types.{
  Status, pending_upload, uploaded, quarantined, available, rejected, expired, pending, scanning,
  clean, infected, not_required,
}
use file_storage_bucket.Documents.Tables.{Row, Tables, clashes}

-- the row with its mutable columns blanked: what identifies and describes the document
abbrev pub frozen : Row → Row
frozen r = record r {
  status = pending_upload;
  scan_status = pending;
  scan_attempts = 0;
  scan_lease_until = none;
  upload_expires_at = 0;
  uploaded_at = none;
  updated_at = 0;
}

-- how far a document has come
abbrev pub stage : Status → ℕ
stage pending_upload = 0
stage quarantined = 1
stage _ = 2

-- `r'` is a later version of `r`: the same document, in the same status or at a later stage, with
-- at least as many scans begun
abbrev pub IsLater : Row → Row → Type 0
IsLater r r' =
    (frozen r' ≡ frozen r)
    × ((r'.status ≡ r.status) ⊎ (suc (stage r.status) ≤ stage r'.status))
    × (r.scan_attempts ≤ r'.scan_attempts)

-- every row of the first list has a later version at its place in the second
abbrev pub AllLater : List Row → List Row → Type 0
AllLater [] rs' = Unit
AllLater (r ∷ rs) [] = ⊥
AllLater (r ∷ rs) (r' ∷ rs') = IsLater r r' × AllLater rs rs'

-- the second list begins with the first
abbrev pub Extends : {A : Type 0} → List A → List A → Type 0
Extends {A} xs ys = (zs : List A) × (ys ≡ xs ++ zs)

-- the statuses of a row fit together
pub record IsSound (r : Row) : Type 0 where
  pub available_clean : (r.status ≡ available) ↔ (r.scan_status ≡ clean)
  pub rejected_infected : (r.status ≡ rejected) ↔ (r.scan_status ≡ infected)
  pub untouched :
      r.status ≡ pending_upload
      → (r.scan_status ≡ pending) × (r.scan_attempts ≡ 0) × (r.uploaded_at ≡ none)
  pub held : r.scan_status ≡ scanning → r.scan_lease_until ≢ none
  pub bounded : r.scan_attempts ≤ 5
  pub used : (r.status ≢ uploaded) × (r.status ≢ expired) × (r.scan_status ≢ not_required)

-- no two rows share a public id, an object key, or an idempotency key within their scope
abbrev pub AreUnique : List Row → Type 0
AreUnique [] = Unit
AreUnique (r ∷ rs) = All (λ x. clashes x r ≡ false) rs × AreUnique rs

pub record IsConsistent (t : Tables) : Type 0 where
  pub sound : All IsSound t.rows
  pub unique : AreUnique t.rows
