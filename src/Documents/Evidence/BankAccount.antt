-- ===== src/Documents/Evidence/BankAccount.antt =====
-- BankAccountEvidence: what a check of bank-account evidence confirmed.
use file_storage_bucket.Common.{
  String, some, true, not, ◌≡◌, arith, In, ◌||◌, ◌==◌, refl, subst, ◌∙◌, sym,
}
use file_storage_bucket.Text.{is_sha256}
use file_storage_bucket.Documents.Types.{
  Scope, Document, Service, available, clean, conflict, ok, not_found, evidence_scope,
}
use file_storage_bucket.Documents.Tables.{Row, Tables}
use file_storage_bucket.Documents.Exec.{World, pure, raise_if, ◌>>◌, statement, transaction}
use file_storage_bucket.Documents.Exec.Inversion.{
  guard_then, then_pure, >>=-eq-ok, transaction-eq-ok, begun,
}
use file_storage_bucket.Documents.Access.{scanned, first_row, valid_bank_account_scope}
use file_storage_bucket.Documents.Access.Isolation.{select-eq-ok}
use file_storage_bucket.Documents.Audit.{record_bank_event}
use file_storage_bucket.Documents.Upload.{is_clean}
use file_storage_bucket.Documents.Upload.Download.{is_clean_lem}
use file_storage_bucket.Documents.Evidence.{
  is_bank_account_row, check_bank_evidence, bank_account_evidence,
}
use file_storage_bucket.Documents.Lifecycle.{IsConsistent}
use file_storage_bucket.Documents.Lifecycle.Logged.{IsLogged, record_bank_event-IsLogged}

-- the bank-account document of the scope's owner that a check confirmed
pub record IsBankVerified (sc : Scope) (id digest : String) (t u : Tables) (d : Document)
    : Type 0 where
  pub row : Row
  pub stored : In row t.rows
  pub shown : d ≡ scanned row
  pub same_id : row.public_id ≡ id
  pub for_bank_account : row.purpose ≡ "bank_account_verification"
  pub scope_valid : valid_bank_account_scope sc ≡ true
  pub of_scope :
      (row.tenant_id ≡ sc.tenant_id)
      × (row.environment ≡ sc.environment)
      × (row.owner_type ≡ sc.bank_account_owner_type)
      × (row.owner_id ≡ sc.bank_account_owner_id)
      × (row.source_reference ≡ some sc.bank_account_reference)
  pub released : (row.status ≡ available) × (row.scan_status ≡ clean)
  pub same_digest : row.sha256_hex ≡ digest
  pub logged : IsLogged sc id "bank_account_evidence_checked" sc.bank_account_reference t u

module _ (s : Service) (sc : Scope) (id digest : String) (w w' : World) (d : Document)
    (c : IsConsistent w.tables) (valid : valid_bank_account_scope sc ≡ true) where
  check_bank_evidence-IsBankVerified :
      (b : World)
      → b.tables ≡ w.tables
      → check_bank_evidence s sc id digest b ≡ (ok d, w')
      → IsBankVerified sc id digest w.tables w'.tables d
  unfolding check_bank_evidence
  check_bank_evidence-IsBankVerified b at h =
      let (r, v, read, rest) =
        >>=-eq-ok (statement s.db (first_row (is_bank_account_row s sc id) not_found))
          (λ r.
            raise_if (not (is_clean (scanned r)) || not (r.sha256_hex == digest)) conflict
            >> (record_bank_event s sc id "bank_account_evidence_checked" >> pure (scanned r)))
          b w' d h in
      let (hit, place, same) = select-eq-ok s (is_bank_account_row s sc id) not_found b v r read in
      let here : v.tables ≡ w.tables = same ∙ at in
      let place : In r w.tables.rows = subst (λ t. In r (Tables.rows t)) at place in
      let (passed, logging) =
        guard_then (not (is_clean (scanned r)) || not (r.sha256_hex == digest)) conflict
          (record_bank_event s sc id "bank_account_evidence_checked" >> pure (scanned r)) v w' d
          rest in
      let (shown, (u, logged)) =
        then_pure (record_bank_event s sc id "bank_account_evidence_checked") (scanned r) d v w'
          logging in
      let same_id : r.public_id ≡ id = ground arith in
      record {
        row = r;
        stored = place;
        shown = shown;
        same_id = same_id;
        for_bank_account = ground arith;
        scope_valid = valid;
        of_scope = ground arith;
        released = is_clean_lem (scanned r) (ground arith);
        same_digest = ground arith;
        logged =
            record_bank_event-IsLogged s sc id "bank_account_evidence_checked" v w' w.tables r here
              c.unique place same_id u logged;
      }

module _ (s : Service) (sc : Scope) (id digest : String) (w w' : World) where
  -- A check that succeeds returns an available and clean bank-account document of the owner and the
  -- source record that the caller's scope names, with the digest given. One audit event with the
  -- reference of the case records the check, and no row changes.
  pub bank_account_evidence-IsBankVerified :
      (d : Document)
      → IsConsistent w.tables
      → bank_account_evidence s sc id digest w ≡ (ok d, w')
      → IsBankVerified sc id digest w.tables w'.tables d
  unfolding bank_account_evidence
  bank_account_evidence-IsBankVerified d c h =
      let (passed, h') =
        guard_then (not (valid_bank_account_scope sc) || not (is_sha256 digest)) evidence_scope
          (transaction s.db (check_bank_evidence s sc id digest)) w w' d h in
      let (v, ran, same) = transaction-eq-ok s.db (check_bank_evidence s sc id digest) w w' d h' in
      subst (λ u. IsBankVerified sc id digest w.tables u d) (sym same)
        (check_bank_evidence-IsBankVerified s sc id digest w v d c (ground arith) (begun s.db w)
          refl ran)
