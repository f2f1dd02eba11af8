-- ===== src/Documents/Access.antt =====
-- validBankAccountScope (bank_account.go), checkPaymentAccess (payment_access.go), and
-- Service.get and getIdempotent (service.go).

pub mod Isolation
pub mod Get
use file_storage_bucket.Common.{
  ℕ, String, len, none, some, Bool, false, not, ◌&&◌, ◌||◌, ltb, ◌==◌, find?, if◌then◌else◌,
}
use file_storage_bucket.Text.{trim_space}
use file_storage_bucket.Documents.Types.{
  Scope, Document, Error, not_found, conflict, Result, ok, err, Service,
}
use file_storage_bucket.Documents.Tables.{Row, Tables, or_empty, same?, in_scope, has_key}
use file_storage_bucket.Documents.Exec.{Action, pure, raise, raise_if, statement, ◌>>=◌, ◌>>◌}

-- the columns that every query returns; the other fields keep Go's zero value
abbrev pub scanned : Row → Document
scanned r = record {
  id = r.public_id;
  party_id = or_empty r.party_id;
  owner_type = r.owner_type;
  owner_id = r.owner_id;
  status = r.status;
  scan_status = r.scan_status;
  document_type = r.document_type;
  purpose = r.purpose;
  classification = r.classification;
  content_type = r.content_type;
  size = r.size_bytes;
  sha256 = r.sha256_hex;
  created_at = r.created_at;
  object_key = "";
  filename = "";
  tenant_id = "";
  environment = "";
}

-- with object_key and original_filename
abbrev pub with_object : Row → Document
with_object r = record (scanned r) { object_key = r.object_key; filename = r.original_filename }

-- with tenant_id and environment too
abbrev pub with_scope : Row → Document
with_scope r = record (with_object r) { tenant_id = r.tenant_id; environment = r.environment }

unfoldable pub valid_bank_account_scope : Scope → Bool
valid_bank_account_scope s =
    if trim_space s.bank_account_reference == ""
      || ltb 128 (len s.bank_account_reference)
      || trim_space s.bank_account_owner_id == ""
      || ltb 128 (len s.bank_account_owner_id)
      || s.subject == ""
      || s.application_id == ""
      || (not (s.environment == "sandbox") && not (s.environment == "production"))
    then false
    else (s.bank_account_owner_type == "PARTY" && not (s.tenant_id == ""))
      || (s.bank_account_owner_type == "LEGAL_ENTITY" && s.tenant_id == "")

-- QueryRow of a SELECT: the first row that passes, or pgx.ErrNoRows
abbrev pub first_row : (Row → Bool) → Error → ℕ → Tables → Result (Row × Tables)
first_row p e now t = elim (find? p t.rows) [ none ↦ err e | some r ↦ ok (r, t) ]

abbrev pub bank_account_row : Scope → String → Row → Bool
bank_account_row sc id r =
    in_scope id sc.tenant_id sc.environment r
    && same? r.source_reference (some sc.bank_account_reference)
    && r.owner_type == sc.bank_account_owner_type
    && r.owner_id == sc.bank_account_owner_id

abbrev pub referenced_row : Scope → String → String → Row → Bool
referenced_row sc id reference r =
    in_scope id sc.tenant_id sc.environment r && same? r.source_reference (some reference)

-- the environment of a service account without claims
abbrev pub default_environment : Scope → String
default_environment sc = if sc.environment == "" then "sandbox" else sc.environment

module _ (s : Service) where
  unfoldable pub check_bank_account : Scope → Document → Action (Unit {0})
  check_bank_account sc d = do
    raise_if
        (not (valid_bank_account_scope sc)
          || not (d.owner_id == sc.bank_account_owner_id)
          || not (d.owner_type == sc.bank_account_owner_type))
        not_found
    statement s.db (first_row (bank_account_row sc d.id) not_found)
    pure tt

  unfoldable pub check_reference : Scope → Document → String → Action (Unit {0})
  check_reference sc d reference = do
    raise_if (reference == "" || sc.tenant_id == "" || sc.environment == "") not_found
    statement s.db (first_row (referenced_row sc d.id reference) not_found)
    pure tt

  unfoldable pub check_payment_access : Scope → Document → Action (Unit {0})
  unfolding check_bank_account check_reference
  check_payment_access sc d =
      if d.purpose == "bank_account_verification"
      then check_bank_account sc d
      else if not (d.purpose == "manual_bank_payment") && not (d.purpose == "manual_bank_statement")
      then pure tt
      else check_reference sc d (
          if d.purpose == "manual_bank_statement"
          then sc.statement_reference
          else sc.payment_reference)

  unfoldable pub get_tenantless : Scope → String → Action Document
  get_tenantless sc id = do
    r ←
        statement s.db
          (first_row (λ r. r.public_id == id && r.environment == default_environment sc) not_found)
    check_payment_access sc (with_scope r)
    pure (with_scope r)

  unfoldable pub get_scoped : Scope → String → Action Document
  get_scoped sc id = do
    r ← statement s.db (first_row (in_scope id sc.tenant_id sc.environment) not_found)
    check_payment_access sc (with_object r)
    pure (with_object r)

  unfoldable pub get : Scope → String → Action Document
  unfolding get_tenantless get_scoped
  get sc id = if sc.tenant_id == "" then get_tenantless sc id else get_scoped sc id

  unfoldable pub matching_hash : String → Row → Action Document
  matching_hash hash r =
      if not (r.request_hash == hash) then raise conflict else pure (with_object r)

  unfoldable pub get_idempotent : Scope → String → String → Action Document
  unfolding matching_hash
  get_idempotent sc key hash = do
    r ←
        statement s.db
          (first_row (has_key sc.tenant_id sc.environment sc.application_id key) not_found)
    matching_hash hash r
