-- ===== src/Scanner/Cycle.antt =====
-- processOne: what a cycle that returned no error did.
use file_storage_bucket.Common.{
  ℕ, String, Option, none, some, List, ◌≡◌, ◌⊎◌, inl, inr, refl, sym, subst,
}
use file_storage_bucket.Documents.Types.{Document, Error, Result, Service, ScanStatus, ok}
use file_storage_bucket.Documents.Tables.{Row, Tables, lease_next}
use file_storage_bucket.Documents.Exec.{World, tick, now_at, statement, call, ◌>>=◌, ◌>>◌}
use file_storage_bucket.Documents.Exec.Inversion.{>>=-eq-ok, call_then, statement-eq-ok}
use file_storage_bucket.Documents.Upload.{record_scan, outcome_status}
use file_storage_bucket.Documents.Upload.Scan.{IsConcluded, record_scan-IsConcluded}
use file_storage_bucket.Scanner.{ScanReport, scanner_scope, report_error, scan_leased, process_one}
use file_storage_bucket.Scanner.Lease.{lease_next-none}

module _ (s : Service) (objects : ℕ → String → Result (List ℕ))
    (scan : ℕ → List ℕ → ScanReport) where
  -- a document was leased, its own object was scanned, and the outcome of the report was recorded
  pub record IsScanned (r : Row) (u u' : Tables) : Type 0 where
    pub opened_at : ℕ
    pub scanned_at : ℕ
    pub body : List ℕ
    pub opened : objects opened_at r.object_key ≡ ok body
    pub no_error : (scan scanned_at body).error ≡ none
    pub status : ScanStatus
    pub outcome : outcome_status (scan scanned_at body).outcome ≡ some status
    pub document : Document
    pub concluded : IsConcluded (scanner_scope r) r.public_id status u u' document

  report_error-eq-ok :
      (e : Option Error) (w w' : World) (u : Unit {0})
      → report_error e w ≡ (ok u, w')
      → (e ≡ none) × (w' ≡ w)
  unfolding report_error
  report_error-eq-ok none w w' u h = (refl, cc)
  report_error-eq-ok (some e) w w' u h = cc

  -- the recording of a report
  abbrev recording : Row → ScanReport → World → Result (Unit {0}) × World
  recording r report =
      record_scan s (scanner_scope r) r.public_id report.outcome report.reason
      >> report_error report.error

  recording-eq-ok :
      (r : Row) (report : ScanReport) (w w' : World) (u : Unit {0})
      → recording r report w ≡ (ok u, w')
      → (report.error ≡ none)
        × ((status : ScanStatus) × (outcome_status report.outcome ≡ some status)
            × ((d : Document) × IsConcluded
                  (scanner_scope r)
                  r.public_id
                  status
                  w.tables
                  w'.tables
                  d))
  recording-eq-ok r report w w' u h =
      let (d, v, recorded, done) =
        >>=-eq-ok (record_scan s (scanner_scope r) r.public_id report.outcome report.reason)
          (λ _. report_error report.error) w w' u h in
      let (no_error, same) = report_error-eq-ok report.error v w' u done in
      let (status, known, concluded) =
        record_scan-IsConcluded s (scanner_scope r) r.public_id report.outcome report.reason w v d
          recorded in
      (
        no_error,
        (
          status,
          known,
          (
            d,
            subst
                (λ x. IsConcluded (scanner_scope r) r.public_id status w.tables (World.tables x) d)
                (sym same) concluded,
          ),
        ),
      )

  pub scan_leased-IsScanned :
      (r : Row) (w w' : World) (u : Unit {0})
      → scan_leased s objects scan (some r) w ≡ (ok u, w')
      → IsScanned r w.tables w'.tables
  unfolding scan_leased
  scan_leased-IsScanned r w w' u h =
      let (body, opened, rest) =
        call_then (λ n. objects n r.object_key)
          (λ body. call (λ n. ok (scan n body)) >>= recording r) w w' u h in
      let (no_error, (status, known, (d, concluded))) =
        recording-eq-ok r (scan (tick w).calls body) (tick (tick w)) w' u (scanned body rest) in
      record {
        opened_at = w.calls;
        scanned_at = (tick w).calls;
        body = body;
        opened = opened;
        no_error = no_error;
        status = status;
        outcome = known;
        document = d;
        concluded = concluded;
      }
    where
      scanned :
          (body : List ℕ)
          → (call (λ n. ok (scan n body)) >>= recording r) (tick w) ≡ (ok u, w')
          → recording r (scan (tick w).calls body) (tick (tick w)) ≡ (ok u, w')
      scanned body rest =
          let (report, reported, rest') =
            call_then (λ n. ok (scan n body)) (recording r) (tick w) w' u rest in
          cc

  cycle_of :
      (found : Option Row) (now : ℕ) (t : Tables) (w w' : World) (u : Unit {0})
      → lease_next now t ≡ ok (found, w.tables)
      → scan_leased s objects scan found w ≡ (ok u, w')
      → (w'.tables ≡ t)
        ⊎ ((r : Row) × (v : Tables) × (lease_next now t ≡ ok (some r, v)) × IsScanned r v w'.tables)
  unfolding scan_leased
  cycle_of none now t w w' u h k = let left = lease_next-none now t w.tables h in inl cc
  cycle_of (some r) now t w w' u h k = inr (r, w.tables, h, scan_leased-IsScanned r w w' u k)

  -- A cycle that returns no error changed nothing, or leased a document, read that document's own
  -- object, got a report without an error from the virus scanner on exactly those bytes, and recorded
  -- the outcome of that report for it.
  pub process_one-cases :
      (w w' : World)
      → process_one s objects scan w ≡ (ok tt, w')
      → (w'.tables ≡ w.tables)
        ⊎ ((r : Row) × (u : Tables) × (lease_next (now_at s.db w) w.tables ≡ ok (some r, u))
            × IsScanned r u w'.tables)
  unfolding process_one
  process_one-cases w w' h =
      let (found, v, took, rest) =
        >>=-eq-ok (statement s.db lease_next) (scan_leased s objects scan) w w' tt h in
      cycle_of found (now_at s.db w) w.tables v w' tt
        (statement-eq-ok s.db lease_next w v found took).0 rest
