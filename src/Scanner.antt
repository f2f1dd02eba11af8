-- ===== src/Scanner.antt =====
-- cmd/scanner/main.go: one cycle of the scanner. The loop of `main` repeats it at each tick.
pub mod Lease
pub mod Cycle
pub mod Enabled
pub mod Progress
use Prim.Native.String
use file_storage_bucket.Common.{ℕ, String, Option, none, some, List}
use file_storage_bucket.Documents.Types.{Scope, Error, Result, ok, Service}
use file_storage_bucket.Documents.Tables.{Row, lease_next}
use file_storage_bucket.Documents.Exec.{Action, pure, raise, call, statement, ◌>>=◌, ◌>>◌}
use file_storage_bucket.Documents.Upload.{record_scan}

-- What virusScanner.Scan returns; there may be an error beside an outcome.
pub record ScanReport : Type 0 where
  pub outcome : String
  pub reason : String
  pub error : Option Error

-- the scope under which the scanner records an outcome
abbrev pub scanner_scope : Row → Scope
scanner_scope r = record {
  tenant_id = r.tenant_id;
  environment = r.environment;
  subject = "document-scanner";
  application_id = "file-storage-scanner";
  correlation_id = String.◌++◌ "scan-" r.public_id;
  payment_reference = "";
  statement_reference = "";
  bank_account_reference = "";
  bank_account_owner_type = "";
  bank_account_owner_id = "";
}

-- `return scanErr`
unfoldable pub report_error : Option Error → Action (Unit {0})
report_error none = pure tt
report_error (some e) = raise e

-- `objects` opens an object, `scan` is the virus scanner.
module _ (s : Service) (objects : ℕ → String → Result (List ℕ))
    (scan : ℕ → List ℕ → ScanReport) where
  unfoldable pub scan_leased : Option Row → Action (Unit {0})
  scan_leased none = pure tt
  scan_leased (some r) = do
    body ← call (λ n. objects n r.object_key)
    report ← call (λ n. ok (scan n body))
    record_scan s (scanner_scope r) r.public_id report.outcome report.reason
    report_error report.error

  unfoldable pub process_one : Action (Unit {0})
  unfolding scan_leased
  process_one = do found ← statement s.db lease_next; scan_leased found
