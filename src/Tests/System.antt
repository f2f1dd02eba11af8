-- ===== src/Tests/System.antt =====
-- The theorems on the whole service, the scanner and the routes at concrete inputs.
use file_storage_bucket.Common.{
  ℕ, ◌≤◌, String, List, [], ◌∷◌, In, none, some, false, true, ◌⊎◌, inl, refl, ◌≡◌, ◌≢◌, arith,
  subst, Option, Bool,
}
use file_storage_bucket.Documents.Types.{Result, ok, available}
use file_storage_bucket.Documents.Tables.{Row, Tables, lease_next, lease, or_empty}
use file_storage_bucket.Documents.Exec.{World, now_at}
use file_storage_bucket.Documents.Access.{scanned}
use file_storage_bucket.Documents.Evidence.Verified.{IsVerified}
use file_storage_bucket.Documents.Types.{Document}
use file_storage_bucket.Documents.Lifecycle.{IsConsistent, AllLater, Extends, frozen}
use file_storage_bucket.Scanner.{ScanReport, process_one}
use file_storage_bucket.Scanner.Lease.{lease_next-exclusive}
use file_storage_bucket.Scanner.Cycle.{IsScanned, process_one-cases}
use file_storage_bucket.System.{
  Request, serve_all, serve_all-IsConsistent, serve_all-AllLater, serve_all-final,
}
use file_storage_bucket.Auth.{Principal, Caller, scope_of, has_scope}
use file_storage_bucket.Http.{
  EvidenceRequest, Payload, verified, problem, written, Route, required_scope, serve_route,
  serve_principal, evidence_verification, download_session,
}
use file_storage_bucket.Http.Scopes.{link, serve_route-cases}
use file_storage_bucket.Http.Checked.{serve_route-IsVerified}
use file_storage_bucket.Tests.Fixtures.{
  s, staff, deed, digest, empty, empty-IsConsistent, holding, waiting_row, ready_row, party_row,
  party_row-IsConsistent,
}

abbrev script : List Request
script =
    Request.create staff deed (7 ∷ [])
    ∷ Request.complete staff "doc_07"
    ∷ Request.scan_cycle
    ∷ Request.download staff "doc_07"
    ∷ []

abbrev scan_clean : ℕ → List ℕ → ScanReport
scan_clean n body = record { outcome = "clean"; reason = "stream: OK"; error = none }

abbrev open_any : ℕ → String → Result (List ℕ)
open_any n key = ok (1 ∷ [])

serve_all-IsConsistent_example : IsConsistent (serve_all s open_any scan_clean script empty).tables
serve_all-IsConsistent_example =
    serve_all-IsConsistent s open_any scan_clean script empty empty-IsConsistent

serve_all-AllLater_example :
    AllLater
      (holding waiting_row).tables.rows
      (serve_all s open_any scan_clean script (holding waiting_row)).tables.rows
    × Extends
        (holding waiting_row).tables.audit
        (serve_all s open_any scan_clean script (holding waiting_row)).tables.audit
serve_all-AllLater_example = serve_all-AllLater s open_any scan_clean script (holding waiting_row)

serve_all-final_example :
    (r : Row) × In r (serve_all s open_any scan_clean script (holding ready_row)).tables.rows
    × (frozen r ≡ frozen ready_row)
    × (r.status ≡ available)
serve_all-final_example =
    serve_all-final s open_any scan_clean script (holding ready_row) ready_row (inl refl) (inl refl)

process_one-cases_example :
    ((process_one s open_any scan_clean (holding waiting_row)).1.tables
      ≡ (holding waiting_row).tables)
    ⊎ ((r : Row) × (u : Tables) × (lease_next
            (now_at s.db (holding waiting_row))
            (holding waiting_row).tables
          ≡ ok (some r, u))
        × IsScanned s open_any scan_clean r u
            (process_one s open_any scan_clean (holding waiting_row)).1.tables)
unfolding process_one file_storage_bucket.Documents.Exec.◌>>=◌
    file_storage_bucket.Documents.Exec.statement lease_next
    file_storage_bucket.Documents.Tables.lease_found file_storage_bucket.Documents.Tables.earliest
    file_storage_bucket.Documents.Tables.is_candidate
    file_storage_bucket.Documents.Upload.record_scan
    file_storage_bucket.Documents.Upload.outcome_status file_storage_bucket.Common.String_discrete
    file_storage_bucket.Documents.Tables.update_row file_storage_bucket.Documents.Tables.awaits_scan
    file_storage_bucket.Documents.Audit.record_reasoned_event
    file_storage_bucket.Documents.Tables.append_event file_storage_bucket.Scanner.report_error
process_one-cases_example =
    process_one-cases s open_any scan_clean (holding waiting_row)
      (process_one s open_any scan_clean (holding waiting_row)).1 refl

abbrev other_row : Row
other_row = record waiting_row { public_id = "doc_10"; object_key = "key_10" }

-- two documents that wait, of which the first is leased before the second
abbrev two : Tables
two = record { rows = waiting_row ∷ other_row ∷ []; audit = [] }

abbrev one_leased : Tables
one_leased = record { rows = lease 7 waiting_row ∷ other_row ∷ []; audit = [] }

abbrev both_leased : Tables
both_leased = record { rows = lease 7 waiting_row ∷ lease 9 other_row ∷ []; audit = [] }

lease_next-exclusive_example : ◌≢◌ {A = String} "doc_10" "doc_07"
unfolding lease_next file_storage_bucket.Documents.Tables.lease_found
    file_storage_bucket.Documents.Tables.earliest file_storage_bucket.Documents.Tables.is_candidate
    file_storage_bucket.Common.String_discrete
lease_next-exclusive_example =
    lease_next-exclusive 7 9 two one_leased one_leased both_leased (lease 7 waiting_row)
      (lease 9 other_row) refl refl (omega arith) refl

abbrev officer : Principal
officer = record {
  subject = "ann";
  tenant_id = "ten_1";
  environment = "sandbox";
  application_id = "console";
  authorized_party = "";
  scopes = "documents.evidence.verify" ∷ [];
}

abbrev caller : Caller
caller = record { path = "/v1/documents/doc_08/evidence-verification"; header = λ name. "" }

abbrev checked : EvidenceRequest
checked = record { party_id = "party_3"; sha256 = digest; resource_reference = some "app_1" }

serve_route-IsVerified_example :
    (has_scope officer "documents.evidence.verify" ≡ true)
    × (◌≡◌ {A = String} "sandbox" "sandbox")
    × ((d : Document) × (verified (scanned party_row) "ten_1" "sandbox" (some "app_1")
          ≡ verified d "ten_1" "sandbox" (some "app_1"))
        × IsVerified
            (scope_of caller officer)
            "doc_08"
            "party_3"
            digest
            "app_1"
            (holding party_row).tables
            (serve_route s "sandbox" caller
              (some officer)
              (evidence_verification "doc_08" (some checked))
              (holding party_row)).1.tables
            d)
unfolding serve_route has_scope file_storage_bucket.Common.String_discrete
    file_storage_bucket.Http.lacks_explicit_scope scope_of file_storage_bucket.Text.trim_space
    file_storage_bucket.Documents.Evidence.resource_evidence
    file_storage_bucket.Documents.Exec.◌>>=◌
    file_storage_bucket.Documents.Evidence.lacks_evidence_scope file_storage_bucket.Text.is_sha256
    file_storage_bucket.Documents.Exec.transaction file_storage_bucket.Documents.Exec.statement
    file_storage_bucket.Documents.Access.check_payment_access
    file_storage_bucket.Documents.Upload.is_clean file_storage_bucket.Documents.Audit.record_event
    file_storage_bucket.Documents.Tables.append_event
serve_route-IsVerified_example =
    serve_route-IsVerified s "sandbox" caller officer "doc_08" checked 200
      (verified (scanned party_row) "ten_1" "sandbox" (some "app_1")) (holding party_row)
      (serve_route s "sandbox" caller (some officer) (evidence_verification "doc_08" (some checked))
        (holding party_row)).1
      party_row-IsConsistent refl

serve_route-cases_example :
    let reply =
      serve_route s "sandbox" caller
        (some officer)
        (download_session "doc_07")
        (holding ready_row) in
    ((◌≡◌ {A = Option Principal} (some officer) none)
      × (reply ≡ (problem 401 "unauthorized", holding ready_row)))
    ⊎ (((p : Principal) × (some officer ≡ some p)
          × (¬ In "documents.read" p.scopes)
          × (reply ≡ (problem 403 "insufficient_scope", holding ready_row)))
        ⊎ ((p : Principal) × (some officer ≡ some p)
            × In "documents.read" p.scopes
            × (reply
                ≡ serve_principal s "sandbox" caller p
                    (download_session "doc_07")
                    (holding ready_row))))
serve_route-cases_example =
    serve_route-cases s "sandbox" caller (some officer) (download_session "doc_07") "documents.read"
      (holding ready_row) (link "doc_07")
