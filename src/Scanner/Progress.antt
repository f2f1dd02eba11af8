-- ===== src/Scanner/Progress.antt =====
-- processOne: that a cycle concludes a scan while there is a candidate and the services answer.
use Prim.Native.String
use file_storage_bucket.Common.{
  ℕ, String, none, some, true, false, List, ◌≡◌, refl, sym, ◌∙◌, ap, subst, In, eq_self, ◌==◌,
}
use file_storage_bucket.Documents.Types.{Document, Result, Service, ScanStatus, ok, conflict}
use file_storage_bucket.Documents.Tables.{
  Row, Tables, AuditEvent, lease_next, is_candidate, lease, awaits_scan, conclude_scan,
  append_event, event_ok,
}
use file_storage_bucket.Documents.Exec.{World, tick, now_at, statement, call}
use file_storage_bucket.Documents.Access.{scanned}
use file_storage_bucket.Documents.Audit.{record_reasoned_event}
use file_storage_bucket.Documents.Upload.{
  updating, conclude, conclude_as, record_scan, outcome_status, status_after,
}
use file_storage_bucket.Documents.Lifecycle.Inversion.{lease_next-IsLeased}
use file_storage_bucket.Scanner.Cycle.{IsScanned, scan_leased-IsScanned}
use file_storage_bucket.Scanner.{ScanReport, scanner_scope, report_error, scan_leased, process_one}
use file_storage_bucket.Scanner.Enabled.{
  bind-ok, statement-ok, lease_next-some, updating-some, append_event-ok, In-modified, lease-awaits,
}

module _ (s : Service) (objects : ℕ → String → Result (List ℕ))
    (scan : ℕ → List ℕ → ScanReport) where
  -- the audit event of a recorded report
  abbrev pub event_of : Row → ScanReport → ℕ → AuditEvent
  event_of r report now = record {
    document = r.public_id;
    action = String.◌++◌ "malware_scan_" report.outcome;
    actor_subject = "document-scanner";
    actor_application = "file-storage-scanner";
    correlation_id = String.◌++◌ "scan-" r.public_id;
    reason = some report.reason;
    occurred_at = now;
  }

  -- the database, the object store and the virus scanner answer, and the answers can be recorded
  pub record IsWorking (t : Tables) : Type 0 where
    pub healthy : (n : ℕ) → s.db.fails n ≡ false
    pub opens : (n : ℕ) (key : String) → (body : List ℕ) × (objects n key ≡ ok body)
    pub scans : (n : ℕ) (body : List ℕ) → (scan n body).error ≡ none
    pub known :
        (n : ℕ) (body : List ℕ)
        → (st : ScanStatus) × (outcome_status (scan n body).outcome ≡ some st)
    pub fits :
        (r : Row) (n now : ℕ) (body : List ℕ)
        → In r t.rows
        → event_ok (event_of r (scan n body) now) ≡ true

  conclude-ok :
      (r : Row) (report : ScanReport) (st : ScanStatus) (w : World)
      → ((n : ℕ) → s.db.fails n ≡ false)
      → ((now : ℕ) → event_ok (event_of r report now) ≡ true)
      → In r w.tables.rows
      → awaits_scan r.public_id r.tenant_id r.environment r ≡ true
      → (d : Document) × (v : World) × (conclude s
            (scanner_scope r)
            r.public_id
            report.outcome
            report.reason
            st
            w
          ≡ (ok d, v))
  unfolding conclude record_reasoned_event
  conclude-ok r report st w healthy fits i hit =
      let sc = scanner_scope r in
      let update =
        updating (λ _. awaits_scan r.public_id sc.tenant_id sc.environment)
          (λ now. conclude_scan now st (status_after st)) conflict in
      let (x, u, updated) =
        updating-some (λ _. awaits_scan r.public_id sc.tenant_id sc.environment)
          (λ now. conclude_scan now st (status_after st)) conflict (now_at s.db w) w.tables r i
          hit in
      let v = record (tick w) { tables = u } in
      let first = statement-ok s.db update w x u (healthy w.calls) updated in
      let (u', appended) =
        append_event-ok (λ y. y.public_id == r.public_id) (event_of r report (now_at s.db v)) u
          (fits (now_at s.db v)) in
      let second =
        statement-ok s.db
          (λ now. append_event (λ y. y.public_id == r.public_id) (event_of r report now)) v tt u'
          (healthy v.calls) appended in
      (
        scanned x,
        record (tick v) { tables = u' },
        bind-ok (statement s.db update) _ w v x first
            ∙ bind-ok
                (record_reasoned_event s sc r.public_id (String.◌++◌ "malware_scan_" report.outcome)
                  report.reason)
                _ v (record (tick v) { tables = u' }) tt second,
      )

  record_scan-ok :
      (r : Row) (report : ScanReport) (st : ScanStatus) (w : World)
      → outcome_status report.outcome ≡ some st
      → (d : Document) × (v : World) × (conclude s
            (scanner_scope r)
            r.public_id
            report.outcome
            report.reason
            st
            w
          ≡ (ok d, v))
      → (d : Document) × (v : World) × (record_scan s
            (scanner_scope r)
            r.public_id
            report.outcome
            report.reason
            w
          ≡ (ok d, v))
  unfolding record_scan conclude_as
  record_scan-ok r report st w known (d, v, h) = (d, v, rw known h)

  scan_leased-ok :
      (old : Row) (now : ℕ) (t : Tables) (w : World)
      → IsWorking t
      → In old t.rows
      → is_candidate now old ≡ true
      → In (lease now old) w.tables.rows
      → (v : World) × (scan_leased s objects scan (some (lease now old)) w ≡ (ok tt, v))
  unfolding scan_leased report_error
  scan_leased-ok old now t w k i candidate place =
      let r = lease now old in
      let (body, opened) = k.opens w.calls r.object_key in
      let report = scan (tick w).calls body in
      let (st, known) = k.known (tick w).calls body in
      let (d, v, recorded) = record_scan-ok r report st (tick (tick w)) known (
        conclude-ok r report st (tick (tick w)) k.healthy
          (λ at. k.fits old (tick w).calls at body i) place (lease-awaits now old candidate)) in
      (
        v,
        bind-ok (call (λ n. objects n r.object_key)) _ w (tick w) body
              (ap (λ x. (x, tick w)) opened)
            ∙ bind-ok (call (λ n. ok (scan n body))) _ (tick w) (tick (tick w)) report refl
            ∙ bind-ok (record_scan s (scanner_scope r) r.public_id report.outcome report.reason) _
                (tick (tick w)) v d recorded
            ∙ ap (λ e. report_error e v) (k.scans (tick w).calls body),
      )

  -- While the database, the object store and the virus scanner answer, and their answers fit the
  -- columns of the audit trail, a cycle that starts with a candidate ends without an error: it leased
  -- a document, scanned that document's own object, and recorded the outcome.
  pub process_one-progress :
      (w : World) (r : Row)
      → IsWorking w.tables
      → In r w.tables.rows
      → is_candidate (now_at s.db w) r ≡ true
      → (w' : World) × (process_one s objects scan w ≡ (ok tt, w'))
        × ((x : Row) × (u : Tables) × (lease_next (now_at s.db w) w.tables ≡ ok (some x, u))
            × IsScanned s objects scan x u w'.tables)
  unfolding process_one
  process_one-progress w r k i candidate =
      let now = now_at s.db w in
      let (x, u, leased) = lease_next-some now w.tables r i candidate in
      let l = lease_next-IsLeased now x w.tables u leased in
      let v = record (tick w) { tables = u } in
      let place : In (lease now l.old) u.rows = subst (In (lease now l.old)) (sym l.rows) (
        In-modified (λ y. y.public_id == l.old.public_id) (lease now) w.tables.rows l.old
          l.matched.1 (eq_self l.old.public_id)) in
      let (w', scanned_ok) = scan_leased-ok l.old now w.tables v k l.matched.1 l.matched.0 place in
      let ran : scan_leased s objects scan (some x) v ≡ (ok tt, w') =
        subst (λ y. scan_leased s objects scan (some y) v ≡ (ok tt, w')) (sym l.result)
          scanned_ok in
      (
        w',
        bind-ok (statement s.db lease_next) (scan_leased s objects scan) w v (some x)
              (statement-ok s.db lease_next w (some x) u (k.healthy w.calls) leased)
            ∙ ran,
        (x, u, leased, scan_leased-IsScanned s objects scan x v w' tt ran),
      )
