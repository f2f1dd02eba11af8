-- ===== src/Documents/Upload/ScanFinal.antt =====
-- Service.RecordScan, after an outcome was recorded.
use file_storage_bucket.Common.{
  String, some, Bool, true, false, List, [], ◌∷◌, ◌≡◌, ◌≢◌, ◌⊎◌, inl, inr, ◌∙◌, arith, In,
  modify_where, All, All-In, Bool-cases, subst,
}
use file_storage_bucket.Documents.Types.{Scope, Document, Service, ok, ScanStatus, clean, infected}
use file_storage_bucket.Documents.Tables.{Row, awaits_scan, conclude_scan}
use file_storage_bucket.Documents.Exec.{World}
use file_storage_bucket.Documents.Upload.{record_scan, outcome_status, status_after}
use file_storage_bucket.Documents.Upload.Scan.{IsConcluded, record_scan-IsConcluded}

-- after the rows that pass a test were rewritten so that they fail it, none passes
modify_where-settles :
    (p : Row → Bool) (f : Row → Row) (xs : List Row)
    → ((x : Row) → p (f x) ≡ false)
    → All (λ x. p x ≡ false) (modify_where p f xs)
modify_where-settles p f [] k = tt
modify_where-settles p f (x ∷ xs) k = elim (Bool-cases (p x)) [
  | inl hit ↦ rw hit (k x, modify_where-settles p f xs k)
  | inr miss ↦ rw miss (miss, modify_where-settles p f xs k)
]

outcome_status-IsFinal :
    (outcome : String) (scan : ScanStatus)
    → outcome ≢ "failed"
    → outcome_status outcome ≡ some scan
    → (scan ≡ clean) ⊎ (scan ≡ infected)
unfolding outcome_status
outcome_status-IsFinal outcome scan n h = ground arith

closed :
    (id tenant environment : String) (now : _) (scan : ScanStatus) (r : Row)
    → (scan ≡ clean) ⊎ (scan ≡ infected)
    → awaits_scan id tenant environment (conclude_scan now scan (status_after scan) r) ≡ false
unfolding awaits_scan
closed id tenant environment now scan r (inl e) = ground arith
closed id tenant environment now scan r (inr e) = ground arith

awaits :
    (sc : Scope) (id : String) (scan : ScanStatus) (t u : _) (d : Document)
    (c : IsConcluded sc id scan t u d)
    → awaits_scan id sc.tenant_id sc.environment c.old ≡ true
unfolding awaits_scan
awaits sc id scan t u d c = ground arith

module _ (s : Service) (sc : Scope) (id outcome reason : String) (w w' : World) (d : Document)
    (final : outcome ≢ "failed") (recorded : record_scan s sc id outcome reason w ≡ (ok d, w'))
    (other reason' : String) (v v' : World) (d' : Document)
    (later : v.tables.rows ≡ w'.tables.rows) where
  -- After the outcome clean or infected no outcome at all is recorded for the document in the scope:
  -- the conclusion of a scan is final.
  pub record_scan-final : ¬ (record_scan s sc id other reason' v ≡ (ok d', v'))
  record_scan-final again =
      let (scan, known, c) = record_scan-IsConcluded s sc id outcome reason w w' d recorded in
      let (scan', known', c') = record_scan-IsConcluded s sc id other reason' v v' d' again in
      let settled =
        modify_where-settles (awaits_scan id sc.tenant_id sc.environment)
          (conclude_scan c.at scan (status_after scan)) w.tables.rows
          (λ x.
            closed id sc.tenant_id sc.environment c.at scan x
              (outcome_status-IsFinal outcome scan final known)) in
      let place = subst (λ rows. In c'.old rows) (later ∙ c.rows) c'.stored in
      let miss : awaits_scan id sc.tenant_id sc.environment c'.old ≡ false =
        All-In (λ x. awaits_scan id sc.tenant_id sc.environment x ≡ false)
          (modify_where (awaits_scan id sc.tenant_id sc.environment)
            (conclude_scan c.at scan (status_after scan)) w.tables.rows)
          c'.old settled place in
      let hit = awaits sc id scan' v.tables v'.tables d' c' in cc
