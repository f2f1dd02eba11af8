-- ===== src/Tests/Machine.antt =====
-- The theorems on the abstract machine and on the progress of the scanner at concrete inputs.
use file_storage_bucket.Common.{
  ℕ, List, [], ◌∷◌, ◌++◌, In, some, true, inl, inr, refl, ◌≡◌, sym, subst, String_discrete,
}
use file_storage_bucket.Documents.Types.{ScanStatus, ok}
use file_storage_bucket.Documents.Tables.{Row, Tables, lease_next, is_candidate, event_ok}
use file_storage_bucket.Documents.Exec.{World, now_at}
use file_storage_bucket.Documents.Phases.{Refines}
use file_storage_bucket.Documents.Upload.{outcome_status}
use file_storage_bucket.Scanner.{process_one}
use file_storage_bucket.Scanner.Cycle.{IsScanned}
use file_storage_bucket.Scanner.Progress.{event_of, IsWorking, process_one-progress}
use file_storage_bucket.Delegated.Payment
use file_storage_bucket.Tests.Visits.{visit}
use file_storage_bucket.Tests.Payments.{payments}
use file_storage_bucket.System.{Request, serve_all, serve_all-Refines}
use file_storage_bucket.Tests.Fixtures.{
  s, script, scan_clean, open_any, holding, pending_row, waiting_row, pending_row-IsConsistent,
}

-- the requests of a document's life, and a visit to the content of a payment
abbrev requests : List Request
requests = script ++ Request.payment_route payments visit Payment.get_content ∷ []

serve_all-Refines_example :
    Refines
      (holding pending_row).tables.rows
      (serve_all s open_any scan_clean requests (holding pending_row)).tables.rows
serve_all-Refines_example =
    serve_all-Refines s open_any scan_clean requests (holding pending_row) pending_row-IsConsistent

clean_known : outcome_status "clean" ≡ some ScanStatus.clean
unfolding outcome_status String_discrete
clean_known = refl

waiting_fits :
    (r : Row) (n now : ℕ) (body : List ℕ)
    → In r (holding waiting_row).tables.rows
    → event_ok (event_of s open_any scan_clean r (scan_clean n body) now) ≡ true
waiting_fits r n now body (inl e) =
    subst (λ x. event_ok (event_of s open_any scan_clean x (scan_clean n body) now) ≡ true) (sym e)
      refl
waiting_fits r n now body (inr i) = absurd i

working : IsWorking s open_any scan_clean (holding waiting_row).tables
working = record {
  healthy = λ n. refl;
  opens = λ n key. (1 ∷ [], refl);
  scans = λ n body. refl;
  known = λ n body. (ScanStatus.clean, clean_known);
  fits = waiting_fits;
}

waiting_candidate : is_candidate (now_at s.db (holding waiting_row)) waiting_row ≡ true
unfolding is_candidate
waiting_candidate = refl

process_one-progress_example :
    (w' : World) × (process_one s open_any scan_clean (holding waiting_row) ≡ (ok tt, w'))
    × ((x : Row) × (u : Tables) × (lease_next
            (now_at s.db (holding waiting_row))
            (holding waiting_row).tables
          ≡ ok (some x, u))
        × IsScanned s open_any scan_clean x u w'.tables)
process_one-progress_example =
    process_one-progress s open_any scan_clean (holding waiting_row) waiting_row working (inl refl)
      waiting_candidate
