-- ===== src/Documents/Upload/Outcome.antt =====
-- Service.RecordScan: the columns of the document after each outcome.
use file_storage_bucket.Common.{String, none, ◌≡◌, ◌≢◌, ◌⊎◌, In}
use file_storage_bucket.Documents.Types.{
  Scope, Document, available, rejected, quarantined, pending, scanning, clean, infected, failed,
}
use file_storage_bucket.Documents.Tables.{Row, Tables}

-- which statuses an outcome leads to
abbrev pub Verdict : String → Document → Type 0
Verdict outcome d =
    ((outcome ≡ "clean") × (d.status ≡ available) × (d.scan_status ≡ clean))
    ⊎ (((outcome ≡ "infected") × (d.status ≡ rejected) × (d.scan_status ≡ infected))
        ⊎ ((outcome ≡ "failed") × (d.status ≡ quarantined) × (d.scan_status ≡ failed)))

-- the row of a document before and after its outcome was recorded, and the other rows
pub record IsRecorded (sc : Scope) (id outcome : String) (t u : Tables) (d : Document)
    : Type 0 where
  pub old : Row
  pub stored : In old t.rows
  pub of_scope :
      (old.public_id ≡ id) × (old.tenant_id ≡ sc.tenant_id) × (old.environment ≡ sc.environment)
  pub was_quarantined : old.status ≡ quarantined
  pub was_open :
      (old.scan_status ≡ pending) ⊎ ((old.scan_status ≡ scanning) ⊎ (old.scan_status ≡ failed))
  pub new : Row
  pub kept : In new u.rows
  pub no_lease : new.scan_lease_until ≡ none
  pub unmoved :
      record new {
        status = old.status;
        scan_status = old.scan_status;
        scan_lease_until = old.scan_lease_until;
        updated_at = old.updated_at;
      }
      ≡ old
  pub verdict : Verdict outcome d
  pub shown : (d.id ≡ id) × (d.status ≡ new.status) × (d.scan_status ≡ new.scan_status)
  pub others : (r : Row) → r.public_id ≢ id → In r t.rows → In r u.rows
  pub no_others : (r : Row) → r.public_id ≢ id → In r u.rows → In r t.rows
