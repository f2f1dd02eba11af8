-- ===== src/Tests/Store.antt =====
-- The theorems on the object store at concrete inputs.
use file_storage_bucket.Common.{[], ◌∷◌, some, refl, ◌≡◌, ◌↔◌, if◌then◌else◌, ◌==◌, String_discrete}
use file_storage_bucket.Documents.Types.{Service, SignedRequest, Document, ok}
use file_storage_bucket.Documents.Access.{with_object}
use file_storage_bucket.Documents.Exec.{World}
use file_storage_bucket.Documents.Upload.{complete, download}
use file_storage_bucket.Objectstore.{Client, Creation, Store, verify, objects}
use file_storage_bucket.Objectstore.Integrity.{
  HasIntegrity, verify-HasIntegrity, IsHeld, complete-IsHeld, IsLinked, download-IsLinked,
}
use file_storage_bucket.Tests.Fixtures.{
  s, staff, digest, key, holding, pending_row, waiting_row, ready_row, pending_row-IsConsistent,
  ready_row-IsConsistent,
}

-- an S3 service that holds one object of one byte
abbrev pub s3 : Client
s3 = record {
  get_object = λ n input. ok (9 ∷ []);
  head_bucket = λ n bucket. ok tt;
  create_bucket = λ n bucket. Creation.refused;
  presign_put_object = λ n input ttl. ok (record { url = "https://put"; signed_header = [] });
  put_object = λ n input body. ok tt;
  head_object = λ n bucket k. ok (record {
    content_length = some 1;
    metadata = λ name. if name == "sha256" then digest else "";
  });
  presign_get_object = λ n input ttl. ok (record { url = "https://get"; signed_header = [] });
  now = λ n. 1000;
}

abbrev store : Store
store = record { client = s3; bucket = "documents" }

abbrev over_s3 : Service
over_s3 = record s { objects = objects store }

verify-HasIntegrity_example :
    (verify store 0 key digest 1 ≡ ok tt) ↔ HasIntegrity store 0 key digest 1
verify-HasIntegrity_example = verify-HasIntegrity store 0 key digest 1

abbrev after_upload : World
after_upload = (complete over_s3 staff "doc_07" (holding pending_row)).1

abbrev completed : Document
completed = record (with_object waiting_row) { environment = ""; tenant_id = "" }

complete_run : complete over_s3 staff "doc_07" (holding pending_row) ≡ (ok completed, after_upload)
unfolding complete file_storage_bucket.Documents.Exec.◌>>=◌ file_storage_bucket.Documents.Access.get
    String_discrete file_storage_bucket.Documents.Exec.statement
    file_storage_bucket.Documents.Access.check_payment_access
    file_storage_bucket.Documents.Upload.is_pending file_storage_bucket.Documents.Exec.or_raise
    verify file_storage_bucket.Documents.Tables.update_row
    file_storage_bucket.Documents.Tables.awaits_upload
    file_storage_bucket.Documents.Audit.record_event
    file_storage_bucket.Documents.Tables.append_event
complete_run = refl

complete-IsHeld_example : IsHeld over_s3 store staff "doc_07" (holding pending_row)
complete-IsHeld_example =
    complete-IsHeld over_s3 store refl staff "doc_07" (holding pending_row) after_upload
      pending_row-IsConsistent completed complete_run

abbrev address : SignedRequest
address = record { url = "https://get"; method = "GET"; headers = []; expires_at = 300001000 }

abbrev after_link : World
after_link = (download over_s3 staff "doc_07" (holding ready_row)).1

download_run : download over_s3 staff "doc_07" (holding ready_row) ≡ (ok address, after_link)
unfolding download file_storage_bucket.Documents.Exec.◌>>=◌ file_storage_bucket.Documents.Access.get
    String_discrete file_storage_bucket.Documents.Exec.statement
    file_storage_bucket.Documents.Access.check_payment_access
    file_storage_bucket.Documents.Upload.is_clean file_storage_bucket.Objectstore.presign_download
    file_storage_bucket.Documents.Audit.record_event
    file_storage_bucket.Documents.Tables.append_event
download_run = refl

download-IsLinked_example : IsLinked over_s3 store staff "doc_07" (holding ready_row) address
download-IsLinked_example =
    download-IsLinked over_s3 store refl staff "doc_07" (holding ready_row) after_link
      ready_row-IsConsistent address download_run
