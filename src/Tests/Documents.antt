-- ===== src/Tests/Documents.antt =====
-- The theorems on the document service at concrete inputs.
use file_storage_bucket.Common.{
  ◌≢◌, ℕ, String, List, [], ◌∷◌, All, In, none, some, false, ◌≤◌, ◌⊎◌, inl, refl, ◌≡◌, ne_of_differ,
  arith,
}
use file_storage_bucket.Text.{base, trim_space}
use file_storage_bucket.Documents.Create.Filename.{normalise-filename}
use file_storage_bucket.Documents.Types.{Result, ok, err, evidence_scope, Document, SignedRequest}
use file_storage_bucket.Documents.Tables.{Row}
use file_storage_bucket.Documents.Exec.{World}
use file_storage_bucket.Documents.Access.{get, with_object, with_scope, scanned}
use file_storage_bucket.Documents.Access.Get.{IsVisible, get-IsVisible}
use file_storage_bucket.Documents.Create.{
  create, normalise, effective_scope, scope_invalid, input_invalid,
}
use file_storage_bucket.Documents.Create.Grant.{IsPermitted, create-refused}
use file_storage_bucket.Documents.Create.Outcome.{IsReplayed}
use file_storage_bucket.Documents.Create.Created.{IsNew, create-IsCreated}
use file_storage_bucket.Documents.Create.Valid.{IsNamed, IsComplete}
use file_storage_bucket.Documents.Upload.{
  download, complete, record_scan, upload_content, outcome_status,
}
use file_storage_bucket.Documents.Upload.Complete.{IsCompleted, complete-IsCompleted}
use file_storage_bucket.Documents.Upload.Content.{IsStored, upload_content-IsStored}
use file_storage_bucket.Documents.Upload.Download.{IsReleased, download-IsReleased}
use file_storage_bucket.Documents.Upload.ScanFinal.{record_scan-final}
use file_storage_bucket.Documents.Evidence.{verify_evidence, bank_account_evidence, case_uploads}
use file_storage_bucket.Documents.Evidence.Verified.{IsVerified, verify_evidence-IsVerified}
use file_storage_bucket.Documents.Evidence.BankAccount.{
  IsBankVerified, bank_account_evidence-IsBankVerified,
}
use file_storage_bucket.Documents.Evidence.Cases.{IsCaseDocument, case_uploads-AllCaseDocuments}
use file_storage_bucket.Tests.Fixtures.{
  s, staff, banker, deed, bank_deed, digest, link, key, one_byte, empty, holding, made_row,
  staff_not_banker, pending_row, waiting_row, ready_row, party_row, bank_row,
  pending_row-IsConsistent, ready_row-IsConsistent, party_row-IsConsistent, bank_row-IsConsistent,
}

download-IsReleased_example :
    IsReleased s staff "doc_07"
      (holding ready_row)
      (download s staff "doc_07" (holding ready_row)).1
      (link 1 key)
unfolding download file_storage_bucket.Documents.Exec.◌>>=◌ get
    file_storage_bucket.Common.String_discrete file_storage_bucket.Documents.Exec.statement
    file_storage_bucket.Documents.Access.check_payment_access
    file_storage_bucket.Documents.Upload.is_clean file_storage_bucket.Documents.Audit.record_event
    file_storage_bucket.Documents.Tables.append_event
download-IsReleased_example =
    download-IsReleased s staff "doc_07" (holding ready_row)
      (download s staff "doc_07" (holding ready_row)).1 (link 1 key) ready_row-IsConsistent refl

-- the document that the completed upload shows
abbrev waiting : Document
waiting = with_object waiting_row

get-IsVisible_example :
    ((get s staff "doc_07" (holding ready_row)).1.tables ≡ (holding ready_row).tables)
    × ((r : Row) × In r (holding ready_row).tables.rows
        × IsVisible staff "doc_07" r
        × ((with_object ready_row ≡ with_object r) ⊎ (with_object ready_row ≡ with_scope r)))
unfolding get file_storage_bucket.Common.String_discrete file_storage_bucket.Documents.Exec.◌>>=◌
    file_storage_bucket.Documents.Exec.statement
    file_storage_bucket.Documents.Access.check_payment_access
get-IsVisible_example =
    get-IsVisible s staff "doc_07" (holding ready_row) (get s staff "doc_07" (holding ready_row)).1
      (with_object ready_row) ready_row-IsConsistent refl

complete-IsCompleted_example :
    IsCompleted s staff "doc_07"
      (holding pending_row)
      (complete s staff "doc_07" (holding pending_row)).1
      (record waiting { environment = ""; tenant_id = "" })
unfolding complete file_storage_bucket.Documents.Exec.◌>>=◌ get
    file_storage_bucket.Common.String_discrete file_storage_bucket.Documents.Exec.statement
    file_storage_bucket.Documents.Access.check_payment_access
    file_storage_bucket.Documents.Upload.is_pending file_storage_bucket.Documents.Exec.or_raise
    file_storage_bucket.Documents.Tables.update_row
    file_storage_bucket.Documents.Tables.awaits_upload
    file_storage_bucket.Documents.Audit.record_event
    file_storage_bucket.Documents.Tables.append_event
complete-IsCompleted_example =
    complete-IsCompleted s staff "doc_07" (complete s staff "doc_07" (holding pending_row)).1
      (record waiting { environment = ""; tenant_id = "" }) (holding pending_row)
      pending_row-IsConsistent refl

upload_content-IsStored_example :
    IsStored s staff "doc_07" one_byte
      (holding pending_row)
      (upload_content s staff "doc_07" one_byte (holding pending_row)).1
      waiting
unfolding upload_content file_storage_bucket.Documents.Exec.◌>>=◌ get
    file_storage_bucket.Common.String_discrete file_storage_bucket.Documents.Exec.statement
    file_storage_bucket.Documents.Access.check_payment_access
    file_storage_bucket.Documents.Upload.is_pending
    file_storage_bucket.Documents.Upload.read_limited file_storage_bucket.Text.hex_encode complete
    file_storage_bucket.Documents.Exec.or_raise file_storage_bucket.Documents.Tables.update_row
    file_storage_bucket.Documents.Tables.awaits_upload
    file_storage_bucket.Documents.Audit.record_event
    file_storage_bucket.Documents.Tables.append_event
upload_content-IsStored_example =
    upload_content-IsStored s staff "doc_07" one_byte
      (upload_content s staff "doc_07" one_byte (holding pending_row)).1 waiting
      (holding pending_row) pending_row-IsConsistent refl

-- the world after the outcome clean
abbrev cleared : World
cleared = (record_scan s staff "doc_07" "clean" "" (holding waiting_row)).1

record_scan-final_example :
    ¬ (record_scan s staff "doc_07" "infected" "" cleared ≡ (ok (scanned ready_row), cleared))
unfolding record_scan outcome_status file_storage_bucket.Common.String_discrete
    file_storage_bucket.Documents.Exec.◌>>=◌ file_storage_bucket.Documents.Exec.statement
    file_storage_bucket.Documents.Tables.update_row file_storage_bucket.Documents.Tables.awaits_scan
    file_storage_bucket.Documents.Audit.record_reasoned_event
    file_storage_bucket.Documents.Tables.append_event
record_scan-final_example =
    record_scan-final s staff "doc_07" "clean" "" (holding waiting_row) cleared (scanned ready_row)
      (ne_of_differ "clean" "failed" refl) refl "infected" "" cleared cleared (scanned ready_row)
      refl

verify_evidence-IsVerified_example :
    IsVerified staff "doc_08" "party_3" digest "app_1"
      (holding party_row).tables
      (verify_evidence s staff "doc_08" "party_3" digest "app_1" (holding party_row)).1.tables
      (scanned party_row)
unfolding verify_evidence file_storage_bucket.Documents.Exec.◌>>=◌
    file_storage_bucket.Documents.Evidence.lacks_evidence_scope
    file_storage_bucket.Common.String_discrete file_storage_bucket.Text.trim_space
    file_storage_bucket.Text.is_sha256 file_storage_bucket.Documents.Exec.transaction
    file_storage_bucket.Documents.Exec.statement
    file_storage_bucket.Documents.Access.check_payment_access
    file_storage_bucket.Documents.Upload.is_clean file_storage_bucket.Documents.Audit.record_event
    file_storage_bucket.Documents.Tables.append_event
verify_evidence-IsVerified_example =
    verify_evidence-IsVerified s staff "doc_08" "party_3" digest "app_1" (holding party_row)
      (verify_evidence s staff "doc_08" "party_3" digest "app_1" (holding party_row)).1
      (scanned party_row) party_row-IsConsistent refl

bank_account_evidence-IsBankVerified_example :
    IsBankVerified banker "doc_09" digest
      (holding bank_row).tables
      (bank_account_evidence s banker "doc_09" digest (holding bank_row)).1.tables
      (scanned bank_row)
unfolding bank_account_evidence file_storage_bucket.Documents.Exec.◌>>=◌
    file_storage_bucket.Documents.Access.valid_bank_account_scope
    file_storage_bucket.Common.String_discrete file_storage_bucket.Text.trim_space
    file_storage_bucket.Text.is_sha256 file_storage_bucket.Documents.Exec.transaction
    file_storage_bucket.Documents.Exec.statement file_storage_bucket.Documents.Upload.is_clean
    file_storage_bucket.Documents.Audit.record_bank_event
    file_storage_bucket.Documents.Tables.append_event
bank_account_evidence-IsBankVerified_example =
    bank_account_evidence-IsBankVerified s banker "doc_09" digest (holding bank_row)
      (bank_account_evidence s banker "doc_09" digest (holding bank_row)).1 (scanned bank_row)
      bank_row-IsConsistent refl

case_uploads-AllCaseDocuments_example :
    All (IsCaseDocument staff "app_1" "party_3" (holding party_row).tables) (scanned party_row ∷ [])
    × (1 ≤ 51)
    × ((case_uploads s staff "app_1" "party_3" "" (holding party_row)).1.tables
        ≡ (holding party_row).tables)
unfolding case_uploads file_storage_bucket.Documents.Exec.◌>>=◌
    file_storage_bucket.Documents.Evidence.lacks_case_scope
    file_storage_bucket.Common.String_discrete file_storage_bucket.Documents.Exec.statement
    file_storage_bucket.Documents.Evidence.is_listed
case_uploads-AllCaseDocuments_example =
    case_uploads-AllCaseDocuments s staff "app_1" "party_3" "" (holding party_row)
      (case_uploads s staff "app_1" "party_3" "" (holding party_row)).1 (scanned party_row ∷ [])
      refl

create-refused_example : create s staff bank_deed [] empty ≡ (err evidence_scope, empty)
unfolding create
create-refused_example =
    create-refused s staff bank_deed [] empty (λ p. staff_not_banker (p.bank refl).0)

abbrev made : Result (Document × SignedRequest) × World
made = create s staff deed (7 ∷ []) empty

create-IsCreated_example :
    IsPermitted s staff deed
    × IsNamed (effective_scope staff (normalise s deed)) (normalise s deed)
    × IsComplete (normalise s deed)
    × (((made.1.tables ≡ empty.tables)
          × IsReplayed s
              (effective_scope staff (normalise s deed))
              (normalise s deed)
              empty.tables
              (with_object made_row)
              (link 6 key))
        ⊎ IsNew s
            (effective_scope staff (normalise s deed))
            (normalise s deed)
            (7 ∷ [])
            empty.tables
            made.1.tables
            (with_object made_row)
            (link 6 key))
unfolding create normalise effective_scope scope_invalid input_invalid
    file_storage_bucket.Documents.Create.lacks_grant
    file_storage_bucket.Documents.Create.request_hash
    file_storage_bucket.Documents.Create.object_key_of file_storage_bucket.Documents.Create.new_row
    file_storage_bucket.Documents.Create.new_id file_storage_bucket.Documents.Access.get_idempotent
    file_storage_bucket.Documents.Access.valid_bank_account_scope
    file_storage_bucket.Documents.Exec.◌>>=◌ file_storage_bucket.Documents.Exec.statement
    file_storage_bucket.Documents.Exec.transaction file_storage_bucket.Documents.Exec.or_raise
    file_storage_bucket.Documents.Tables.insert_row file_storage_bucket.Documents.Tables.row_ok
    file_storage_bucket.Documents.Tables.same_source file_storage_bucket.Documents.Tables.clashes
    file_storage_bucket.Documents.Tables.may_renew file_storage_bucket.Documents.Tables.has_key
    file_storage_bucket.Documents.Tables.append_event
    file_storage_bucket.Documents.Audit.record_event file_storage_bucket.Text.trim_space
    file_storage_bucket.Text.to_upper file_storage_bucket.Text.to_lower
    file_storage_bucket.Text.base file_storage_bucket.Text.has_prefix
    file_storage_bucket.Text.is_sha256 file_storage_bucket.Text.hex_encode
    file_storage_bucket.Common.String_discrete
create-IsCreated_example =
    create-IsCreated s staff deed (7 ∷ []) empty made.1 (with_object made_row) (link 6 key) refl

normalise-filename_example :
    ((normalise s deed).filename ≡ base (trim_space deed.filename))
    × ((normalise s deed).filename ≢ "")
normalise-filename_example = normalise-filename s deed
