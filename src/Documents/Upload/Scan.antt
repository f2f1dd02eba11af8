-- ===== src/Documents/Upload/Scan.antt =====
-- Service.RecordScan: what a recorded outcome did.
use Prim.Native.String
use file_storage_bucket.Common.{
  ℕ, String, Option, none, some, Bool, true, ◌≡◌, ◌⊎◌, inl, inr, refl, ◌∙◌, ap, arith, In,
  modify_where, Option-cases,
}
use file_storage_bucket.Documents.Types.{
  Scope, Document, Error, Service, ok, conflict, quarantined, ScanStatus, pending, scanning, failed,
}
use file_storage_bucket.Documents.Tables.{Row, Tables, update_row, awaits_scan, conclude_scan}
use file_storage_bucket.Documents.Exec.{World, now_at, statement, pure, ◌>>◌}
use file_storage_bucket.Documents.Exec.Inversion.{>>=-eq-ok, statement-eq-ok, then_pure}
use file_storage_bucket.Documents.Access.{scanned}
use file_storage_bucket.Documents.Audit.{record_reasoned_event}
use file_storage_bucket.Documents.Upload.{
  updating, conclude, conclude_as, record_scan, outcome_status, status_after,
}
use file_storage_bucket.Documents.Lifecycle.Inversion.{
  IsUpdated, update_row-IsUpdated, append_event-Extends,
}

pub updating-IsUpdated :
    (p : ℕ → Row → Bool) (f : ℕ → Row → Row) (e : Error) (now : ℕ) (t : Tables) (r : Row)
    (u : Tables)
    → updating p f e now t ≡ ok (r, u)
    → IsUpdated (p now) (f now) r t u
updating-IsUpdated p f e now t r u h = elim (Option-cases (update_row (p now) (f now) t)) [
  | inl missing ↦ absurd (ground arith)
  | inr (x, found) ↦ update_row-IsUpdated (p now) (f now) r t u (ground arith)
]

record_reasoned_event-rows :
    (s : Service) (sc : Scope) (id action reason : String) (w w' : World) (u : Unit {0})
    → record_reasoned_event s sc id action reason w ≡ (ok u, w')
    → w'.tables.rows ≡ w.tables.rows
unfolding record_reasoned_event
record_reasoned_event-rows s sc id action reason w w' u h =
    (append_event-Extends _ _ w.tables w'.tables (statement-eq-ok s.db _ w w' u h).0).0

-- a quarantined document whose scan was open has the outcome
pub record IsConcluded (sc : Scope) (id : String) (scan : ScanStatus) (t u : Tables) (d : Document)
    : Type 0 where
  pub old : Row
  pub stored : In old t.rows
  pub at : ℕ
  pub of_scope :
      (old.public_id ≡ id) × (old.tenant_id ≡ sc.tenant_id) × (old.environment ≡ sc.environment)
  pub matched : awaits_scan id sc.tenant_id sc.environment old ≡ true
  pub was_quarantined : old.status ≡ quarantined
  pub was_open :
      (old.scan_status ≡ pending) ⊎ ((old.scan_status ≡ scanning) ⊎ (old.scan_status ≡ failed))
  pub shown : d ≡ scanned (conclude_scan at scan (status_after scan) old)
  pub rows :
      u.rows
      ≡ modify_where
          (awaits_scan id sc.tenant_id sc.environment)
          (conclude_scan at scan (status_after scan))
          t.rows

awaited :
    (sc : Scope) (id : String) (r : Row)
    → awaits_scan id sc.tenant_id sc.environment r ≡ true
    → (r.public_id ≡ id)
      × (r.tenant_id ≡ sc.tenant_id)
      × (r.environment ≡ sc.environment)
      × (r.status ≡ quarantined)
      × ((r.scan_status ≡ pending) ⊎ ((r.scan_status ≡ scanning) ⊎ (r.scan_status ≡ failed)))
unfolding awaits_scan
awaited sc id r h = ground arith

module _ (s : Service) (sc : Scope) (id outcome reason : String) (w w' : World) (d : Document) where
  conclude-IsConcluded :
      (scan : ScanStatus)
      → conclude s sc id outcome reason scan w ≡ (ok d, w')
      → IsConcluded sc id scan w.tables w'.tables d
  unfolding conclude
  conclude-IsConcluded scan h =
      let (r, v, took, rest) =
        >>=-eq-ok
          (statement s.db (
            updating (λ _. awaits_scan id sc.tenant_id sc.environment)
              (λ now. conclude_scan now scan (status_after scan)) conflict))
          (λ r.
            record_reasoned_event s sc id (String.◌++◌ "malware_scan_" outcome) reason
            >> pure (scanned r))
          w w' d h in
      let up =
        updating-IsUpdated (λ _. awaits_scan id sc.tenant_id sc.environment)
          (λ now. conclude_scan now scan (status_after scan)) conflict (now_at s.db w) w.tables r
          v.tables (statement-eq-ok s.db _ w v r took).0 in
      let (shown, (u, logged)) =
        then_pure (record_reasoned_event s sc id (String.◌++◌ "malware_scan_" outcome) reason)
          (scanned r) d v w' rest in
      let (same_id, tenant, environment, was_quarantined, was_open) =
        awaited sc id up.old up.matched.0 in
      record {
        old = up.old;
        stored = up.matched.1;
        at = now_at s.db w;
        of_scope = (same_id, tenant, environment);
        matched = up.matched.0;
        was_quarantined = was_quarantined;
        was_open = was_open;
        shown = shown ∙ ap scanned up.result;
        rows = record_reasoned_event-rows s sc id _ reason v w' u logged ∙ up.rows;
      }

  conclude_as-IsConcluded :
      (o : Option ScanStatus)
      → conclude_as s sc id outcome reason o w ≡ (ok d, w')
      → (scan : ScanStatus) × (o ≡ some scan) × IsConcluded sc id scan w.tables w'.tables d
  unfolding conclude_as
  conclude_as-IsConcluded none h = cc
  conclude_as-IsConcluded (some scan) h = (scan, refl, conclude-IsConcluded scan h)

  -- An outcome is recorded only if it is one of the three known ones, and only for a quarantined
  -- document of the scope whose scan is open: that document gets the outcome and its status, loses
  -- its lease, and is what the caller sees. Rows of other documents stay as they are.
  pub record_scan-IsConcluded :
      record_scan s sc id outcome reason w ≡ (ok d, w')
      → (scan : ScanStatus) × (outcome_status outcome ≡ some scan)
        × IsConcluded sc id scan w.tables w'.tables d
  unfolding record_scan
  record_scan-IsConcluded h = conclude_as-IsConcluded (outcome_status outcome) h
