-- ===== src/Documents/Evidence.antt =====
-- Service.Evidence, ResourceEvidence and verifyEvidence (evidence.go); BankAccountDocument,
-- BankAccountEvidence and OpenBankAccountEvidence (bank_account.go); CaseUploads, CaseUpload and
-- OpenEvidence (case.go). A value that stands beside an error is dropped, as every caller does.
pub mod Verified
pub mod BankAccount
pub mod Cases
pub mod Opened
pub mod Order
pub mod Pages
use file_storage_bucket.Common.{
  ℕ, String, len, Option, none, some, Bool, not, ◌&&◌, ◌||◌, ltb, List, [], ◌∷◌, take, map, select,
  ◌==◌, if◌then◌else◌,
}
use file_storage_bucket.Text.{trim_space, is_sha256}
use file_storage_bucket.Documents.Types.{
  Scope, Document, not_found, conflict, evidence_scope, failure, Result, ok, Service,
}
use file_storage_bucket.Documents.Tables.{Row, Tables, in_scope, same?}
use file_storage_bucket.Documents.Exec.{
  Action, pure, raise, raise_if, call, statement, transaction, ◌>>=◌, ◌>>◌,
}
use file_storage_bucket.Documents.Access.{
  scanned, valid_bank_account_scope, first_row, bank_account_row, check_payment_access, get,
}
use file_storage_bucket.Documents.Audit.{record_event, record_bank_event, record_scoped_event}
use file_storage_bucket.Documents.Upload.{is_clean}

-- owner_type='PARTY' AND owner_id=$4 AND party_id=$4
abbrev pub party_row : Scope → String → String → Row → Bool
party_row sc id party r =
    in_scope id sc.tenant_id sc.environment r
    && r.owner_type == "PARTY"
    && r.owner_id == party
    && same? r.party_id (some party)

unfoldable pub lacks_evidence_scope : Scope → Bool
lacks_evidence_scope sc =
    trim_space sc.tenant_id == ""
    || trim_space sc.environment == ""
    || trim_space sc.subject == ""
    || trim_space sc.application_id == ""

unfoldable pub lacks_case_scope : Scope → String → String → Bool
lacks_case_scope sc application party =
    sc.tenant_id == ""
    || sc.environment == ""
    || sc.subject == ""
    || sc.application_id == ""
    || application == ""
    || party == ""

-- what CaseUploads shows of a document
unfoldable pub is_listed : Scope → String → Document → Bool
is_listed sc application d =
    (not (d.purpose == "manual_bank_payment") || sc.payment_reference == application)
    && (not (d.purpose == "manual_bank_statement") || sc.statement_reference == application)
    && (not (d.purpose == "bank_account_verification")
        || (valid_bank_account_scope sc
            && sc.bank_account_reference == application
            && sc.bank_account_owner_id == d.owner_id
            && sc.bank_account_owner_type == d.owner_type))

-- ORDER BY public_id
unfoldable pub insert_by_id : (String → String → Bool) → Row → List Row → List Row
insert_by_id before r [] = r ∷ []
insert_by_id before r (x ∷ xs) =
    let later = x ∷ insert_by_id before r xs in
    if before r.public_id x.public_id then r ∷ x ∷ xs else later

unfoldable pub sort_by_id : (String → String → Bool) → List Row → List Row
unfolding insert_by_id
sort_by_id before [] = []
sort_by_id before (r ∷ rs) = insert_by_id before r (sort_by_id before rs)

unfoldable pub open_with :
    Action (Unit {0}) → String → Option (ℕ → String → Result (List ℕ)) → Action (List ℕ)
open_with authorise key none = raise failure
open_with authorise key (some opener) = authorise >> call (λ n. opener n key)

module _ (s : Service) where
  -- the body of the transaction of verifyEvidence
  unfoldable pub check_evidence : Scope → String → String → String → String → Action Document
  check_evidence sc id party digest reference = do
    r ← statement s.db (
        first_row
          (λ r.
            party_row sc id party r
            && (reference == "" || same? r.source_reference (some reference)))
          not_found)
    check_payment_access s sc (scanned r)
    raise_if (not (is_clean (scanned r)) || not (r.sha256_hex == digest)) conflict
    record_event s sc id "evidence_version_checked"
    pure (scanned r)

  unfoldable pub verify_evidence : Scope → String → String → String → String → Action Document
  unfolding check_evidence
  verify_evidence sc id party digest reference = do
    raise_if (lacks_evidence_scope sc) evidence_scope
    raise_if (trim_space id == "" || trim_space party == "" || not (is_sha256 digest)) conflict
    transaction s.db (check_evidence sc id party digest reference)

  unfoldable pub evidence : Scope → String → String → String → Action Document
  unfolding verify_evidence
  evidence sc id party digest = verify_evidence sc id party digest ""

  unfoldable pub resource_evidence : Scope → String → String → String → String → Action Document
  unfolding verify_evidence
  resource_evidence sc id party digest reference = do
    raise_if (trim_space reference == "" || ltb 128 (len reference)) conflict
    verify_evidence sc id party digest reference

  abbrev pub is_bank_account_row : Scope → String → Row → Bool
  is_bank_account_row sc id r = bank_account_row sc id r && r.purpose == "bank_account_verification"

  unfoldable pub bank_account_document : Scope → String → Action Document
  bank_account_document sc id = do
    raise_if (not (valid_bank_account_scope sc)) evidence_scope
    statement s.db (first_row (is_bank_account_row sc id) not_found)
    get s sc id

  -- the body of the transaction of BankAccountEvidence
  unfoldable pub check_bank_evidence : Scope → String → String → Action Document
  check_bank_evidence sc id digest = do
    r ← statement s.db (first_row (is_bank_account_row sc id) not_found)
    raise_if (not (is_clean (scanned r)) || not (r.sha256_hex == digest)) conflict
    record_bank_event s sc id "bank_account_evidence_checked"
    pure (scanned r)

  unfoldable pub bank_account_evidence : Scope → String → String → Action Document
  unfolding check_bank_evidence
  bank_account_evidence sc id digest = do
    raise_if (not (valid_bank_account_scope sc) || not (is_sha256 digest)) evidence_scope
    transaction s.db (check_bank_evidence sc id digest)

  -- the type assertion to an object store that can open, after which `authorise` is recorded
  unfoldable pub open_stored : Action (Unit {0}) → String → Action (List ℕ)
  unfolding open_with
  open_stored authorise key = open_with authorise key s.objects.open_object

  unfoldable pub open_bank_account_evidence : Scope → String → String → Action (Document × List ℕ)
  unfolding open_stored
  open_bank_account_evidence sc id digest = do
    d ← bank_account_evidence sc id digest
    stored ← bank_account_document sc id
    body ←
        open_stored (record_bank_event s sc id "bank_account_download_authorized") stored.object_key
    pure (d, body)

  unfoldable pub case_upload : Scope → String → String → String → Action Document
  case_upload sc application party id = do
    raise_if (lacks_case_scope sc application party) evidence_scope
    statement s.db (
        first_row (λ r. party_row sc id party r && same? r.source_reference (some application))
          not_found)
    get s sc id

  -- WHERE … AND public_id>$5
  unfoldable pub is_case_row : Scope → String → String → String → Row → Bool
  is_case_row sc application party after r =
      r.tenant_id == sc.tenant_id
      && r.environment == sc.environment
      && same? r.source_reference (some application)
      && r.owner_type == "PARTY"
      && r.owner_id == party
      && same? r.party_id (some party)
      && s.db.before after r.public_id

  -- … ORDER BY public_id LIMIT 51
  unfoldable pub case_page : Scope → String → String → String → Tables → List Row
  unfolding is_case_row sort_by_id
  case_page sc application party after t =
      take 51 (sort_by_id s.db.before (select (is_case_row sc application party after) t.rows))

  unfoldable pub case_uploads : Scope → String → String → String → Action (List Document)
  unfolding case_page
  case_uploads sc application party after = do
    raise_if (lacks_case_scope sc application party) evidence_scope
    rows ← statement s.db (λ now t. ok (case_page sc application party after t, t))
    pure (select (is_listed sc application) (map scanned rows))

  unfoldable pub open_evidence : Scope → String → String → String → Action (Document × List ℕ)
  unfolding open_stored
  open_evidence sc id party digest = do
    d ← evidence sc id party digest
    stored ← get s sc id
    body ← open_stored (record_scoped_event s sc id "case_download_authorized") stored.object_key
    pure (d, body)
