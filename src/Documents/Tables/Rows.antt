-- ===== src/Documents/Tables/Rows.antt =====
-- The rows of internal/database/migrations: their columns, the constraints that a new row has to
-- meet, the WHERE clauses of the statements, and what each UPDATE sets.
use file_storage_bucket.Common.{
  ℕ, String, Option, none, some, Bool, true, false, ◌&&◌, ◌||◌, List, [], ◌∷◌, ◌+◌, count, leb, ltb,
  nat_eq, ◌==◌, any, if◌then◌else◌,
}
use file_storage_bucket.Text.{is_sha256}
use file_storage_bucket.Documents.Types.{
  Status, pending_upload, quarantined, ScanStatus, pending, scanning, failed,
}

-- A row of `documents`; `none` is NULL. The internal UUID is left out: public_id is unique.
pub record Row : Type 0 where
  pub public_id : String
  pub tenant_id : String
  pub environment : String
  pub party_id : Option String
  pub owner_type : String
  pub owner_id : String
  pub source_application : String
  pub source_reference : Option String
  pub consent_reference : Option String
  pub document_type : String
  pub purpose : String
  pub classification : String
  pub original_filename : String
  pub content_type : String
  pub size_bytes : ℕ
  pub sha256_hex : String
  pub bucket_name : String
  pub object_key : String
  pub status : Status
  pub scan_status : ScanStatus
  pub scan_attempts : ℕ
  pub scan_lease_until : Option ℕ
  pub retention_category : String
  pub retain_until : Option ℕ
  pub upload_expires_at : ℕ
  pub uploaded_at : Option ℕ
  pub created_by : String
  pub created_at : ℕ
  pub updated_at : ℕ
  pub idempotency_key : String
  pub request_hash : String

-- A row of `document_audit_events`, with the public id of its document.
pub record AuditEvent : Type 0 where
  pub document : String
  pub action : String
  pub actor_subject : String
  pub actor_application : String
  pub correlation_id : String
  pub reason : Option String
  pub occurred_at : ℕ

-- VARCHAR(n), which counts characters
abbrev pub fits : ℕ → String → Bool
fits n s = leb (count s) n

abbrev pub fits? : ℕ → Option String → Bool
fits? n none = true
fits? n (some s) = fits n s

abbrev pub same? : Option String → Option String → Bool
same? (some s) (some t) = s == t
same? _ _ = false

abbrev pub one_of : String → List String → Bool
one_of s names = any (λ t. t == s) names

-- NULLIF(s, '')
abbrev pub null_if_empty : String → Option String
null_if_empty s = if s == "" then none else some s

-- COALESCE(s, '')
abbrev pub or_empty : Option String → String
or_empty none = ""
or_empty (some s) = s

-- documents_owner_type_check and documents_party_owner_check
unfoldable pub owner_ok : Row → Bool
owner_ok r =
    one_of r.owner_type (
      "PARTY" ∷ "LEGAL_ENTITY" ∷ "ORGANISATIONAL_UNIT" ∷ "CASE" ∷ "PRODUCT_RESOURCE"
      ∷ "REGULATORY_RECORD" ∷ [])
    && (if r.owner_type == "PARTY"
        then same? r.party_id (some r.owner_id)
        else elim r.party_id [ none ↦ true | some _ ↦ false ])

-- the lengths of the columns of `documents`
unfoldable pub widths_ok : Row → Bool
widths_ok r =
    fits 64 r.public_id
    && fits 64 r.tenant_id
    && fits? 64 r.party_id
    && fits 128 r.owner_id
    && fits 120 r.source_application
    && fits? 120 r.source_reference
    && fits? 120 r.consent_reference
    && fits 60 r.document_type
    && fits 120 r.purpose
    && fits 255 r.original_filename
    && fits 120 r.content_type
    && fits 63 r.bucket_name
    && fits 512 r.object_key
    && fits 60 r.retention_category
    && fits 200 r.created_by
    && fits 128 r.idempotency_key
    && fits 64 r.request_hash

-- the CHECK constraints and the lengths, for a row to be inserted
unfoldable pub row_ok : Row → Bool
unfolding owner_ok widths_ok
row_ok r =
    widths_ok r
    && one_of r.environment ("local" ∷ "dev" ∷ "sandbox" ∷ "staging" ∷ "production" ∷ [])
    && owner_ok r
    && one_of r.classification ("INTERNAL" ∷ "CONFIDENTIAL" ∷ "RESTRICTED" ∷ [])
    && ltb 0 r.size_bytes
    && leb r.size_bytes 52428800
    && is_sha256 r.sha256_hex

-- documents_source_document_hash_key; a NULL equals nothing
unfoldable pub same_source : Row → Row → Bool
same_source new r =
    r.tenant_id == new.tenant_id
    && r.environment == new.environment
    && r.source_application == new.source_application
    && same? r.source_reference new.source_reference
    && r.document_type == new.document_type
    && r.sha256_hex == new.sha256_hex

-- documents_idempotency_idx
unfoldable pub has_key : String → String → String → String → Row → Bool
has_key tenant environment application key r =
    r.tenant_id == tenant
    && r.environment == environment
    && r.source_application == application
    && r.idempotency_key == key

-- the other unique indexes of the table
unfoldable pub clashes : Row → Row → Bool
unfolding has_key
clashes new r =
    r.public_id == new.public_id
    || r.object_key == new.object_key
    || has_key new.tenant_id new.environment new.source_application new.idempotency_key r

is_pending_upload : Status → Bool
is_pending_upload pending_upload = true
is_pending_upload _ = false

-- the WHERE clause of ON CONFLICT … DO UPDATE
unfoldable pub may_renew : Row → Row → Bool
unfolding is_pending_upload
may_renew new r =
    is_pending_upload r.status
    && r.owner_type == new.owner_type
    && r.owner_id == new.owner_id
    && r.document_type == new.document_type
    && r.purpose == new.purpose
    && r.classification == new.classification
    && nat_eq r.size_bytes new.size_bytes

-- SET upload_expires_at=EXCLUDED.upload_expires_at, updated_at=now()
abbrev pub renew : ℕ → Row → Row → Row
renew now new r = record r { upload_expires_at = new.upload_expires_at; updated_at = now }

abbrev pub in_scope : String → String → String → Row → Bool
in_scope id tenant environment r =
    r.public_id == id && r.tenant_id == tenant && r.environment == environment

-- Complete: WHERE public_id=$1 AND tenant_id=$2 AND environment=$3 AND status='pending_upload'
unfoldable pub awaits_upload : String → String → String → Row → Bool
unfolding is_pending_upload
awaits_upload id tenant environment r =
    in_scope id tenant environment r && is_pending_upload r.status

abbrev pub quarantine : ℕ → Row → Row
quarantine now r = record r { status = quarantined; uploaded_at = some now; updated_at = now }

is_quarantined : Status → Bool
is_quarantined quarantined = true
is_quarantined _ = false

-- scan_status IN ('pending','scanning','failed')
is_open_scan : ScanStatus → Bool
is_open_scan pending = true
is_open_scan scanning = true
is_open_scan failed = true
is_open_scan _ = false

-- the WHERE clause of RecordScan
unfoldable pub awaits_scan : String → String → String → Row → Bool
unfolding is_quarantined is_open_scan
awaits_scan id tenant environment r =
    in_scope id tenant environment r && is_quarantined r.status && is_open_scan r.scan_status

abbrev pub conclude_scan : ℕ → ScanStatus → Status → Row → Row
conclude_scan now outcome status r = record r {
  scan_status = outcome;
  status = status;
  scan_lease_until = none;
  updated_at = now;
}

lease_expired : ℕ → Option ℕ → Bool
lease_expired now none = false
lease_expired now (some until) = ltb until now

may_scan : ℕ → ScanStatus → Option ℕ → Bool
may_scan now pending lease = true
may_scan now failed lease = true
may_scan now scanning lease = lease_expired now lease
may_scan now _ lease = false

-- the WHERE clause of the scanner's candidate
unfoldable pub is_candidate : ℕ → Row → Bool
unfolding is_quarantined may_scan lease_expired
is_candidate now r =
    is_quarantined r.status
    && may_scan now r.scan_status r.scan_lease_until
    && ltb r.scan_attempts 5

-- now()+interval '3 minutes'
abbrev pub lease : ℕ → Row → Row
lease now r = record r {
  scan_status = scanning;
  scan_attempts = r.scan_attempts + 1;
  scan_lease_until = some (now + 180000000);
  updated_at = now;
}

abbrev pub event_ok : AuditEvent → Bool
event_ok e =
    fits 60 e.action
    && fits 200 e.actor_subject
    && fits 120 e.actor_application
    && fits 128 e.correlation_id
    && fits? 500 e.reason
