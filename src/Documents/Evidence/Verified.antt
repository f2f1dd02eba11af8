-- ===== src/Documents/Evidence/Verified.antt =====
-- Service.verifyEvidence: what a verified version is.
use file_storage_bucket.Common.{
  ltb, len, String, some, Bool, true, not, ◌≡◌, ◌≢◌, arith, In, ◌&&◌, ◌||◌, ◌==◌, refl, subst, ◌∙◌,
  sym,
}
use file_storage_bucket.Text.{trim_space, is_sha256}
use file_storage_bucket.Documents.Types.{
  Scope, Document, Service, Result, available, clean, conflict, ok, not_found, evidence_scope,
}
use file_storage_bucket.Documents.Tables.{Row, Tables, same?}
use file_storage_bucket.Documents.Exec.{World, pure, raise_if, ◌>>◌, statement, transaction}
use file_storage_bucket.Documents.Exec.Inversion.{
  guard_then, then_pure, >>=-eq-ok, transaction-eq-ok, begun,
}
use file_storage_bucket.Documents.Access.{scanned, first_row, check_payment_access}
use file_storage_bucket.Documents.Access.Isolation.{
  IsGranted, is_protected, select-eq-ok, check_payment_access-eq-ok,
}
use file_storage_bucket.Documents.Audit.{record_event}
use file_storage_bucket.Documents.Upload.{is_clean}
use file_storage_bucket.Documents.Upload.Download.{is_clean_lem}
use file_storage_bucket.Documents.Evidence.{
  party_row, check_evidence, verify_evidence, resource_evidence, lacks_evidence_scope,
}
use file_storage_bucket.Documents.Lifecycle.{IsConsistent}
use file_storage_bucket.Documents.Lifecycle.Logged.{IsLogged, record_event-IsLogged}

-- the version of a party's document that a check confirmed
pub record IsVerified (sc : Scope) (id party digest reference : String) (t u : Tables)
    (d : Document) : Type 0 where
  pub row : Row
  pub stored : In row t.rows
  pub shown : d ≡ scanned row
  pub same_id : row.public_id ≡ id
  pub in_tenant : (row.tenant_id ≡ sc.tenant_id) × (row.environment ≡ sc.environment)
  pub of_party : (row.owner_type ≡ "PARTY") × (row.owner_id ≡ party) × (row.party_id ≡ some party)
  pub of_reference : reference ≢ "" → row.source_reference ≡ some reference
  pub released : (row.status ≡ available) × (row.scan_status ≡ clean)
  pub same_digest : row.sha256_hex ≡ digest
  pub granted : is_protected (scanned row) ≡ true → IsGranted sc (scanned row) t
  pub logged : IsLogged sc id "evidence_version_checked" sc.correlation_id t u

evidence_row : Scope → String → String → String → Row → Bool
evidence_row sc id party reference r =
    party_row sc id party r && (reference == "" || same? r.source_reference (some reference))

module _ (s : Service) (sc : Scope) (id party digest reference : String) (w w' : World)
    (d : Document) (t : Tables) (before : w.tables ≡ t) (c : IsConsistent t) where
  passed-IsVerified :
      (r : Row) (v : World)
      → evidence_row sc id party reference r ≡ true
      → In r t.rows
      → v.tables ≡ t
      → (is_protected (scanned r) ≡ true → IsGranted sc (scanned r) t)
      → (raise_if (not (is_clean (scanned r)) || not (r.sha256_hex == digest)) conflict
            >> (record_event s sc id "evidence_version_checked" >> pure (scanned r)))
          v
        ≡ (ok d, w')
      → IsVerified sc id party digest reference t w'.tables d
  unfolding evidence_row
  passed-IsVerified r v hit place same granted rest =
      let (passed, logging) =
        guard_then (not (is_clean (scanned r)) || not (r.sha256_hex == digest)) conflict
          (record_event s sc id "evidence_version_checked" >> pure (scanned r)) v w' d rest in
      let (shown, (u, logged)) =
        then_pure (record_event s sc id "evidence_version_checked") (scanned r) d v w' logging in
      let same_id : r.public_id ≡ id = ground arith in
      record {
        row = r;
        stored = place;
        shown = shown;
        same_id = same_id;
        in_tenant = ground arith;
        of_party = ground arith;
        of_reference = λ n. ground arith;
        released = is_clean_lem (scanned r) (ground arith);
        same_digest = ground arith;
        granted = granted;
        logged =
            record_event-IsLogged s sc id "evidence_version_checked" v w' t r same c.unique place
              same_id u logged;
      }

-- what follows the query, for the row that it found
abbrev checking : Service → Scope → String → String → Row → World → Result Document × World
checking s sc id digest r =
    check_payment_access s sc (scanned r)
    >> (raise_if (not (is_clean (scanned r)) || not (r.sha256_hex == digest)) conflict
        >> (record_event s sc id "evidence_version_checked" >> pure (scanned r)))

module _ (s : Service) (sc : Scope) (id party digest reference : String) (w w' : World)
    (d : Document) (c : IsConsistent w.tables) where
  check_evidence-IsVerified :
      (b : World)
      → b.tables ≡ w.tables
      → check_evidence s sc id party digest reference b ≡ (ok d, w')
      → IsVerified sc id party digest reference w.tables w'.tables d
  unfolding check_evidence evidence_row
  check_evidence-IsVerified b at h =
      let (r, v, read, rest) =
        >>=-eq-ok (statement s.db (first_row (evidence_row sc id party reference) not_found))
          (checking s sc id digest) b w' d h in
      let (hit, place, same) =
        select-eq-ok s (evidence_row sc id party reference) not_found b v r read in
      let (u, v', granted, rest') =
        >>=-eq-ok (check_payment_access s sc (scanned r)) _ v w' d rest in
      let (same', grant) = check_payment_access-eq-ok s sc (scanned r) v v' u granted in
      let here : v.tables ≡ w.tables = same ∙ at in
      passed-IsVerified s sc id party digest reference b w' d w.tables at c r v' hit
        (subst (λ t. In r (Tables.rows t)) at place) (same' ∙ here)
        (subst (λ t. is_protected (scanned r) ≡ true → IsGranted sc (scanned r) t) here grant) rest'

module _ (s : Service) (sc : Scope) (id party digest reference : String) (w w' : World) where
  -- A check that succeeds returns the document of a stored, available and clean row of the tenant,
  -- the party and the reference, whose digest is the one given; a protected row needs its grant.
  -- One audit event records the check, and no row changes.
  pub verify_evidence-IsVerified :
      (d : Document)
      → IsConsistent w.tables
      → verify_evidence s sc id party digest reference w ≡ (ok d, w')
      → IsVerified sc id party digest reference w.tables w'.tables d
  unfolding verify_evidence
  verify_evidence-IsVerified d c h =
      let (_, h') =
        guard_then (lacks_evidence_scope sc) evidence_scope
          (raise_if (trim_space id == "" || trim_space party == "" || not (is_sha256 digest))
              conflict
            >> transaction s.db (check_evidence s sc id party digest reference))
          w w' d h in
      let (_, h'') =
        guard_then (trim_space id == "" || trim_space party == "" || not (is_sha256 digest))
          conflict (transaction s.db (check_evidence s sc id party digest reference)) w w' d h' in
      let (v, ran, same) =
        transaction-eq-ok s.db (check_evidence s sc id party digest reference) w w' d h'' in
      subst (λ u. IsVerified sc id party digest reference w.tables u d) (sym same)
        (check_evidence-IsVerified s sc id party digest reference w v d c (begun s.db w) refl ran)

  -- a check for a resource is a check with its reference
  pub resource_evidence-IsVerified :
      (d : Document)
      → IsConsistent w.tables
      → resource_evidence s sc id party digest reference w ≡ (ok d, w')
      → IsVerified sc id party digest reference w.tables w'.tables d
  unfolding resource_evidence
  resource_evidence-IsVerified d c h =
      let (_, rest) =
        guard_then (trim_space reference == "" || ltb 128 (len reference)) conflict
          (verify_evidence s sc id party digest reference) w w' d h in
      verify_evidence-IsVerified d c rest
