-- ===== src/Documents/Upload.antt =====
-- Service.Complete, UploadContent, RecordScan and Download (service.go).
pub mod Download
pub mod Complete
pub mod Content
pub mod Outcome
pub mod Scan
pub mod ScanFinal
use Prim.Native.String
use file_storage_bucket.Common.{
  ℕ, ◌+◌, String, Option, none, some, Bool, true, false, not, ◌&&◌, ◌||◌, leb, nat_eq, List, length,
  take, ◌==◌, if◌then◌else◌,
}
use file_storage_bucket.Text.{hex_encode}
use file_storage_bucket.Documents.Types.{
  Scope, Document, SignedRequest, Error, not_found, conflict, failure, Result, ok, err, Service,
  Body, Status, pending_upload, quarantined, available, rejected, ScanStatus, clean, infected,
  failed,
}
use file_storage_bucket.Documents.Tables.{
  Row, Tables, update_row, awaits_upload, quarantine, awaits_scan, conclude_scan,
}
use file_storage_bucket.Documents.Exec.{
  Action, pure, raise, raise_if, call, attempt, or_raise, statement, ◌>>=◌, ◌>>◌,
}
use file_storage_bucket.Documents.Access.{scanned, valid_bank_account_scope, get}
use file_storage_bucket.Documents.Audit.{record_event, record_reasoned_event}

-- UPDATE … RETURNING, where no row is pgx.ErrNoRows, reported as `e`
abbrev pub updating :
    (ℕ → Row → Bool) → (ℕ → Row → Row) → Error → ℕ → Tables → Result (Row × Tables)
updating p f e now t = elim (update_row (p now) (f now) t) [ none ↦ err e | some u ↦ ok u ]

-- the columns of RETURNING, over the document that was read before
abbrev pub rescanned : Document → Row → Document
rescanned d r = record (scanned r) {
  object_key = d.object_key;
  filename = d.filename;
  tenant_id = d.tenant_id;
  environment = d.environment;
}

unfoldable pub is_pending : Document → Bool
is_pending d = elim d.status [ pending_upload ↦ true | _ ↦ false ]

unfoldable pub is_clean : Document → Bool
is_clean d =
    elim d.status [ available ↦ true | _ ↦ false ]
    && elim d.scan_status [ clean ↦ true | _ ↦ false ]

-- the scope of the stored document, for a service account
abbrev pub stored_scope : Scope → Document → Scope
stored_scope sc d =
    if sc.tenant_id == ""
    then record sc { tenant_id = d.tenant_id; environment = d.environment }
    else sc

-- io.ReadAll(io.LimitReader(body, n))
unfoldable pub read_limited : ℕ → Body → Result (List ℕ)
read_limited n b =
    if leb n (length b.content)
    then ok (take n b.content)
    else if b.broken
    then err failure
    else ok b.content

-- the outcomes that RecordScan takes
unfoldable pub outcome_status : String → Option ScanStatus
outcome_status outcome =
    if outcome == "clean"
    then some clean
    else if outcome == "infected"
    then some infected
    else if outcome == "failed"
    then some failed
    else none

-- the status after a scan
abbrev pub status_after : ScanStatus → Status
status_after clean = available
status_after infected = rejected
status_after _ = quarantined

module _ (s : Service) where
  unfoldable pub mark_uploaded : Scope → Document → String → Action Document
  mark_uploaded sc d id = do
    raise_if
        ((sc.tenant_id == ""
            && not (d.purpose == "bank_account_verification" && valid_bank_account_scope sc))
          || sc.environment == "")
        not_found
    verified ← attempt (call (λ n. s.objects.verify n d.object_key d.sha256 d.size))
    or_raise conflict verified
    r ←
        statement s.db
          (updating (λ _. awaits_upload id sc.tenant_id sc.environment) quarantine failure)
    record_event s sc id "upload_verified_quarantined"
    pure (rescanned d r)

  unfoldable pub complete : Scope → String → Action Document
  unfolding mark_uploaded
  complete sc id = do
    d ← get s sc id
    raise_if (not (is_pending d)) conflict
    mark_uploaded (stored_scope sc d) d id

  unfoldable pub upload_content : Scope → String → Body → Action Document
  upload_content sc id body = do
    d ← get s sc id
    raise_if (not (is_pending d)) conflict
    buf ← (λ w. (read_limited (d.size + 1) body, w))
    raise_if (not (nat_eq (length buf) d.size)) conflict
    raise_if (not (hex_encode (s.platform.sha256_sum buf) == d.sha256)) conflict
    call (λ n. s.objects.put_object n d.object_key d.content_type d.sha256 d.size buf)
    complete sc id

  unfoldable pub conclude : Scope → String → String → String → ScanStatus → Action Document
  conclude sc id outcome reason scan = do
    r ← statement s.db (
        updating (λ _. awaits_scan id sc.tenant_id sc.environment)
          (λ now. conclude_scan now scan (status_after scan)) conflict)
    record_reasoned_event s sc id (String.◌++◌ "malware_scan_" outcome) reason
    pure (scanned r)

  unfoldable pub conclude_as :
      Scope → String → String → String → Option ScanStatus → Action Document
  unfolding conclude
  conclude_as sc id outcome reason none = raise conflict
  conclude_as sc id outcome reason (some scan) = conclude sc id outcome reason scan

  unfoldable pub record_scan : Scope → String → String → String → Action Document
  unfolding conclude_as
  record_scan sc id outcome reason = conclude_as sc id outcome reason (outcome_status outcome)

  -- the link to the object, and its audit event
  unfoldable pub release : Scope → String → Document → Action SignedRequest
  release sc id d = do
    signed ← call (λ n. s.objects.presign_download n d.object_key d.filename s.download_ttl)
    record_event s sc id "download_authorized"
    pure signed

  unfoldable pub download : Scope → String → Action SignedRequest
  unfolding release
  download sc id = do d ← get s sc id; raise_if (not (is_clean d)) conflict; release sc id d
