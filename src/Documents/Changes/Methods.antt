-- ===== src/Documents/Changes/Methods.antt =====
-- The methods of the service as sequences of changes of the tables.
use file_storage_bucket.Common.{ℕ, String, List, Option, none, some, ◌≡◌, refl, arith}
use file_storage_bucket.Documents.Types.{
  Service, Scope, CreateInput, Document, not_found, Result, ok, err, Body, ScanStatus,
}
use file_storage_bucket.Documents.Exec.{Action}
use file_storage_bucket.Documents.Access.{check_payment_access, get, get_idempotent}
use file_storage_bucket.Documents.Create.{check_party, create_new, resume, create}
use file_storage_bucket.Documents.Upload.{
  complete, upload_content, conclude_as, record_scan, download, outcome_status,
}
use file_storage_bucket.Documents.Evidence.{
  verify_evidence, evidence, resource_evidence, bank_account_document, bank_account_evidence,
  open_bank_account_evidence, case_upload, case_uploads, open_with, open_evidence,
}
use file_storage_bucket.Documents.Changes.{IsOutcome}
use file_storage_bucket.Documents.Changes.Runs.{Runs, runs_rules, Runs-raise}
use file_storage_bucket.Documents.Changes.Statements.{
  Runs-first_row, Runs-record_event, Runs-record_bank_event, Runs-record_scoped_event,
  Runs-record_reasoned_event, Runs-insert, Runs-quarantine, Runs-conclude, Runs-select,
}

ruleset statement_rules = (
  runs_rules, Runs-first_row, Runs-record_event, Runs-record_bank_event, Runs-record_scoped_event,
  Runs-record_reasoned_event, Runs-insert, Runs-quarantine, Runs-conclude, Runs-select,
)

module _ (s : Service) where
  Runs-check_payment_access : (sc : Scope) (d : Document) → Runs (check_payment_access s sc d)
  unfolding check_payment_access
  Runs-check_payment_access sc d = search statement_rules

  Runs-get : (sc : Scope) (id : String) → Runs (get s sc id)
  unfolding get
  Runs-get sc id = search (statement_rules, Runs-check_payment_access)

  Runs-get_idempotent : (sc : Scope) (key hash : String) → Runs (get_idempotent s sc key hash)
  unfolding get_idempotent
  Runs-get_idempotent sc key hash = search statement_rules

  pub Runs-complete : (sc : Scope) (id : String) → Runs (complete s sc id)
  unfolding complete
  Runs-complete sc id = search (statement_rules, Runs-get) depth 12

  pub Runs-upload_content :
      (sc : Scope) (id : String) (body : Body) → Runs (upload_content s sc id body)
  unfolding upload_content
  Runs-upload_content sc id body = search (statement_rules, Runs-get, Runs-complete) depth 12

  pub Runs-download : (sc : Scope) (id : String) → Runs (download s sc id)
  unfolding download
  Runs-download sc id = search (statement_rules, Runs-get) depth 12

  Runs-verify_evidence :
      (sc : Scope) (id party digest reference : String)
      → Runs (verify_evidence s sc id party digest reference)
  unfolding verify_evidence
  Runs-verify_evidence sc id party digest reference =
      search (statement_rules, Runs-check_payment_access) depth 12

  pub Runs-evidence : (sc : Scope) (id party digest : String) → Runs (evidence s sc id party digest)
  unfolding evidence
  Runs-evidence sc id party digest = Runs-verify_evidence sc id party digest ""

  pub Runs-resource_evidence :
      (sc : Scope) (id party digest reference : String)
      → Runs (resource_evidence s sc id party digest reference)
  unfolding resource_evidence
  Runs-resource_evidence sc id party digest reference =
      search (runs_rules, Runs-verify_evidence) depth 12

  pub Runs-bank_account_document : (sc : Scope) (id : String) → Runs (bank_account_document s sc id)
  unfolding bank_account_document
  Runs-bank_account_document sc id = search (statement_rules, Runs-get) depth 12

  pub Runs-bank_account_evidence :
      (sc : Scope) (id digest : String) → Runs (bank_account_evidence s sc id digest)
  unfolding bank_account_evidence
  Runs-bank_account_evidence sc id digest = search statement_rules depth 12

  Runs-open_stored :
      (authorise : Action (Unit {0})) (key : String)
      → Runs authorise
      → (opener : Option (ℕ → String → Result (List ℕ))) → Runs (open_with authorise key opener)
  unfolding open_with
  Runs-open_stored authorise key k none = Runs-raise _
  Runs-open_stored authorise key k (some opener) = search (runs_rules, k)

  pub Runs-open_bank_account_evidence :
      (sc : Scope) (id digest : String) → Runs (open_bank_account_evidence s sc id digest)
  unfolding open_bank_account_evidence
  Runs-open_bank_account_evidence sc id digest =
      search
        (statement_rules, Runs-bank_account_evidence, Runs-bank_account_document, Runs-open_stored)
        depth 12

  pub Runs-case_upload :
      (sc : Scope) (application party id : String) → Runs (case_upload s sc application party id)
  unfolding case_upload
  Runs-case_upload sc application party id = search (statement_rules, Runs-get) depth 12

  pub Runs-case_uploads :
      (sc : Scope) (application party after : String)
      → Runs (case_uploads s sc application party after)
  unfolding case_uploads
  Runs-case_uploads sc application party after = search statement_rules depth 12

  pub Runs-open_evidence :
      (sc : Scope) (id party digest : String) → Runs (open_evidence s sc id party digest)
  unfolding open_evidence
  Runs-open_evidence sc id party digest =
      search (statement_rules, Runs-get, Runs-evidence, Runs-open_stored) depth 12

  Runs-conclude_as :
      (sc : Scope) (id outcome reason : String) (scan : Option ScanStatus)
      → ((x : ScanStatus) → scan ≡ some x → IsOutcome x)
      → Runs (conclude_as s sc id outcome reason scan)
  unfolding conclude_as
  Runs-conclude_as sc id outcome reason none k = Runs-raise _
  Runs-conclude_as sc id outcome reason (some x) k = search (statement_rules, k x refl) depth 8

  outcome_status_lem :
      (outcome : String) (x : ScanStatus) → outcome_status outcome ≡ some x → IsOutcome x
  unfolding outcome_status
  outcome_status_lem outcome x h = ground arith

  pub Runs-record_scan :
      (sc : Scope) (id outcome reason : String) → Runs (record_scan s sc id outcome reason)
  unfolding record_scan
  Runs-record_scan sc id outcome reason =
      Runs-conclude_as sc id outcome reason _ (outcome_status_lem outcome)

  Runs-check_party : (sc : Scope) (input : CreateInput) → Runs (check_party s sc input)
  unfolding check_party
  Runs-check_party sc input = search runs_rules depth 8

  Runs-create_new :
      (sc : Scope) (input : CreateInput) (entropy : List ℕ) → Runs (create_new s sc input entropy)
  unfolding create_new
  Runs-create_new sc input entropy = search (statement_rules, Runs-check_party) depth 12

  Runs-resume :
      (sc : Scope) (input : CreateInput) (entropy : List ℕ) (found : Result Document)
      → Runs (resume s sc input entropy found)
  unfolding resume
  Runs-resume sc input entropy (ok d) = search runs_rules
  Runs-resume sc input entropy (err not_found) = Runs-create_new sc input entropy
  Runs-resume sc input entropy (err e) = Runs-raise _

  pub Runs-create :
      (sc : Scope) (input : CreateInput) (entropy : List ℕ) → Runs (create s sc input entropy)
  unfolding create
  Runs-create sc input entropy = search (runs_rules, Runs-get_idempotent, Runs-resume) depth 12
