-- ===== src/Documents/Changes.antt =====
-- How the tables change: one constructor for each statement that writes. The
-- statements of concurrent requests and scanners may interleave in any order.
pub mod Runs
pub mod Statements
pub mod Methods
use file_storage_bucket.Common.{ℕ, String, Option, none, some, Bool, ◌≡◌, ◌⊎◌}
use file_storage_bucket.Documents.Types.{
  pending_upload, ScanStatus, pending, clean, infected, failed, ok,
}
use file_storage_bucket.Documents.Tables.{
  Row, AuditEvent, Tables, insert_row, update_row, awaits_upload, quarantine, awaits_scan,
  conclude_scan, lease_next, append_event,
}
use file_storage_bucket.Documents.Upload.{status_after}

-- the values that an INSERT leaves to the defaults of the columns
abbrev pub IsNew : ℕ → Row → Type 0
IsNew now r =
    (r.status ≡ pending_upload)
    × (r.scan_status ≡ pending)
    × (r.scan_attempts ≡ 0)
    × (r.scan_lease_until ≡ none)
    × (r.uploaded_at ≡ none)
    × (r.created_at ≡ now)

abbrev pub IsOutcome : ScanStatus → Type 0
IsOutcome scan = (scan ≡ clean) ⊎ (scan ≡ infected) ⊎ (scan ≡ failed)

pub data Change (t u : Tables) : Type 0 where
  inserted : (now : ℕ) (new r : Row) → IsNew now new → insert_row now new t ≡ ok (r, u) → Change t u
  uploaded :
      (now : ℕ) (id tenant environment : String) (r : Row)
      → update_row (awaits_upload id tenant environment) (quarantine now) t ≡ some (r, u)
      → Change t u
  concluded :
      (now : ℕ) (id tenant environment : String) (scan : ScanStatus) (r : Row)
      → IsOutcome scan
      → update_row
          (awaits_scan id tenant environment)
          (conclude_scan now scan (status_after scan))
          t
        ≡ some (r, u)
      → Change t u
  leased : (now : ℕ) (r : Row) → lease_next now t ≡ ok (some r, u) → Change t u
  audited : (p : Row → Bool) (e : AuditEvent) → append_event p e t ≡ ok (tt, u) → Change t u

pub data Changes (t : Tables) : Tables → Type 0 where
  unchanged : Changes t t
  then_change : {u v : Tables} → Changes t u → Change u v → Changes t v

pub Changes-trans : {t u v : Tables} → Changes t u → Changes u v → Changes t v
Changes-trans c unchanged = c
Changes-trans c (then_change d step) = then_change (Changes-trans c d) step
