-- ===== src/Documents/Create.antt =====
-- Service.Create (service.go): the checks on the caller's scope, normalisation, validation, the
-- idempotent replay, and the insertion with its audit event in one transaction.
pub mod Outcome
pub mod Steps
pub mod Valid
pub mod Written
pub mod Created
pub mod Authorised
pub mod Repeated
pub mod Grant
pub mod Filename
use Prim.Native.String
use file_storage_bucket.Common.{
  ℕ, ◌+◌, String, len, none, Bool, not, ◌&&◌, ◌||◌, ltb, leb, List, [], ◌∷◌, ◌==◌, if◌then◌else◌,
}
use file_storage_bucket.Text.{
  to_upper, to_lower, trim_space, base, has_prefix, is_sha256, hex_encode,
}
use file_storage_bucket.Documents.Types.{
  ℤ, pos, negsuc, Scope, CreateInput, Document, SignedRequest, not_found, conflict, evidence_scope,
  Result, ok, err, Service, pending_upload, pending,
}
use file_storage_bucket.Documents.Tables.{Row, null_if_empty, one_of, insert_row}
use file_storage_bucket.Documents.Exec.{
  Action, pure, raise, raise_if, call, attempt, or_raise, statement, transaction, ◌>>=◌, ◌>>◌,
}
use file_storage_bucket.Documents.Access.{valid_bank_account_scope, with_object, get_idempotent}
use file_storage_bucket.Documents.Audit.{record_event}

-- in.Size as a number; only sizes from 1 to 50 MiB pass the validation
abbrev pub magnitude : ℤ → ℕ
magnitude (pos n) = n
magnitude (negsuc n) = 0

-- !(in.Size < 1 || in.Size > 50<<20)
abbrev pub size_in_range : ℤ → Bool
size_in_range z = leb 1 (magnitude z) && leb (magnitude z) 52428800

-- newID, over the sixteen bytes that crypto/rand gives
unfoldable pub new_id : String → List ℕ → String
new_id prefix bytes = String.◌++◌ prefix (String.◌++◌ "_" (hex_encode bytes))

-- the first guard: evidence of a bank account is created only under the grant for its source record
unfoldable pub lacks_bank_grant : Service → Scope → CreateInput → Bool
unfolding valid_bank_account_scope
lacks_bank_grant s sc input =
    input.purpose == "bank_account_verification"
    && (not (valid_bank_account_scope sc)
        || not (sc.bank_account_reference == input.source_reference)
        || not (sc.bank_account_owner_type == to_upper s.platform.case_tables input.owner_type)
        || not (sc.bank_account_owner_id == input.owner_id))

-- the second and the third guard: so is evidence of a payment and of a statement
unfoldable pub lacks_reference : String → String → CreateInput → Bool
lacks_reference purpose reference input =
    input.purpose == purpose && (reference == "" || not (reference == input.source_reference))

unfoldable pub lacks_grant : Service → Scope → CreateInput → Bool
unfolding lacks_bank_grant lacks_reference
lacks_grant s sc input =
    lacks_bank_grant s sc input
    || (lacks_reference "manual_bank_payment" sc.payment_reference input
        || lacks_reference "manual_bank_statement" sc.statement_reference input)

-- in.Filename, in.SHA256, in.IdempotencyKey, in.OwnerType and in.OwnerID, trimmed
trimmed : Service → CreateInput → CreateInput
trimmed s input = record input {
  filename = base (trim_space input.filename);
  sha256 = to_lower s.platform.case_tables (trim_space input.sha256);
  idempotency_key = trim_space input.idempotency_key;
  owner_type = to_upper s.platform.case_tables (trim_space input.owner_type);
  owner_id = trim_space input.owner_id;
}

-- a party without an owner type owns the document itself
owned : CreateInput → CreateInput
owned input =
    if input.owner_type == "" && not (input.party_id == "")
    then record input { owner_type = "PARTY"; owner_id = input.party_id }
    else input

-- the party is the owner, or there is none
with_party : CreateInput → CreateInput
with_party input = record input {
  party_id = if input.owner_type == "PARTY" then input.owner_id else "";
}

unfoldable pub normalise : Service → CreateInput → CreateInput
unfolding trimmed owned with_party
normalise s input = with_party (owned (trimmed s input))

-- a service account takes its tenant from the source reference, and an environment by default
unfoldable pub effective_scope : Scope → CreateInput → Scope
effective_scope sc input = record sc {
  tenant_id =
      if sc.tenant_id == "" && has_prefix input.source_reference "ten_"
      then input.source_reference
      else sc.tenant_id;
  environment = if sc.environment == "" then "sandbox" else sc.environment;
}

abbrev allowed_owners : List String
allowed_owners =
    "PARTY" ∷ "LEGAL_ENTITY" ∷ "ORGANISATIONAL_UNIT" ∷ "CASE" ∷ "PRODUCT_RESOURCE"
    ∷ "REGULATORY_RECORD" ∷ []

abbrev allowed_types : List String
allowed_types = "application/pdf" ∷ "image/jpeg" ∷ "image/png" ∷ "text/csv" ∷ []

abbrev allowed_classes : List String
allowed_classes = "INTERNAL" ∷ "CONFIDENTIAL" ∷ "RESTRICTED" ∷ []

-- the part of the validation that reads the scope
unfoldable pub scope_invalid : Scope → CreateInput → Bool
unfolding valid_bank_account_scope
scope_invalid sc input =
    (sc.tenant_id == ""
      && not (input.purpose == "bank_account_verification" && valid_bank_account_scope sc))
    || sc.environment == ""
    || sc.subject == ""
    || sc.application_id == ""

-- the part of the validation that reads the input
unfoldable pub input_invalid : CreateInput → Bool
input_invalid input =
    not (one_of input.owner_type allowed_owners)
    || input.owner_id == ""
    || ltb 128 (len input.owner_id)
    || input.document_type == ""
    || input.purpose == ""
    || input.retention_category == ""
    || input.filename == ""
    || ltb 255 (len input.filename)
    || input.idempotency_key == ""
    || ltb 128 (len input.idempotency_key)
    || not (one_of input.content_type allowed_types)
    || not (one_of input.classification allowed_classes)
    || not (size_in_range input.size)
    || not (is_sha256 input.sha256)

-- the digest of the input without its idempotency key
unfoldable pub request_hash : Service → CreateInput → String
request_hash s input =
    hex_encode (s.platform.sha256_sum (s.platform.marshal (record input { idempotency_key = "" })))

infixr 65 ◌/+◌
-- two parts of an object key, with a slash between them
abbrev ◌/+◌ : String → String → String
a /+ b = String.◌++◌ a (String.◌++◌ "/" b)

unfoldable pub object_key_of : Service → Scope → CreateInput → String → String
object_key_of s sc input id =
    sc.environment
    /+ sc.tenant_id
    /+ to_lower s.platform.case_tables input.owner_type
    /+ input.owner_id
    /+ id
    /+ "original"

module _ (s : Service) where
  -- the values of the INSERT, and the defaults of the other columns
  unfoldable pub new_row : Scope → CreateInput → String → ℕ → ℕ → Row
  unfolding object_key_of request_hash
  new_row sc input id expires now = record {
    public_id = id;
    tenant_id = sc.tenant_id;
    environment = sc.environment;
    party_id = null_if_empty input.party_id;
    owner_type = input.owner_type;
    owner_id = input.owner_id;
    source_application = sc.application_id;
    source_reference = null_if_empty input.source_reference;
    consent_reference = null_if_empty input.consent_reference;
    document_type = input.document_type;
    purpose = input.purpose;
    classification = input.classification;
    original_filename = input.filename;
    content_type = input.content_type;
    size_bytes = magnitude input.size;
    sha256_hex = input.sha256;
    bucket_name = s.bucket;
    object_key = object_key_of s sc input id;
    status = pending_upload;
    scan_status = pending;
    scan_attempts = 0;
    scan_lease_until = none;
    retention_category = input.retention_category;
    retain_until = input.retain_until;
    upload_expires_at = expires;
    uploaded_at = none;
    created_by = sc.subject;
    created_at = now;
    updated_at = now;
    idempotency_key = input.idempotency_key;
    request_hash = request_hash s input;
  }

  -- the body of the transaction: a row is inserted or renewed, and its authorisation is recorded
  unfoldable pub authorise_upload : Scope → CreateInput → String → ℕ → Action Row
  authorise_upload sc input id expires = do
    r ← statement s.db (λ now. insert_row now (new_row sc input id expires now))
    record_event s sc r.public_id "upload_authorized"
    pure r

  unfoldable pub check_party : Scope → CreateInput → Action (Unit {0})
  check_party sc input =
      if input.owner_type == "PARTY"
      then (do
        answer ← attempt (call (λ n. s.party.exists n sc.tenant_id sc.environment input.party_id))
        or_raise conflict answer)
      else pure tt

  abbrev sign_upload : String → String → String → ℕ → Action SignedRequest
  sign_upload key content_type sha256 size =
      call (λ n. s.objects.presign_upload n key content_type sha256 size s.upload_ttl)

  -- what follows where no earlier request had the key
  unfoldable pub create_new : Scope → CreateInput → List ℕ → Action (Document × SignedRequest)
  unfolding authorise_upload check_party
  create_new sc input entropy = do
    check_party sc input
    started ← call (λ n. ok (s.db.clock n))
    let id = new_id "doc" entropy
    r ← transaction s.db (authorise_upload sc input id (started + s.upload_ttl))
    signed ←
        sign_upload (object_key_of s sc input id) input.content_type input.sha256
          (magnitude input.size)
    pure (with_object r, signed)

  unfoldable pub resume :
      Scope → CreateInput → List ℕ → Result Document → Action (Document × SignedRequest)
  unfolding create_new
  resume sc input entropy (ok d) = do
    signed ← sign_upload d.object_key d.content_type d.sha256 d.size
    pure (d, signed)
  resume sc input entropy (err not_found) = create_new sc input entropy
  resume sc input entropy (err e) = raise e

  unfoldable pub create_valid : Scope → CreateInput → List ℕ → Action (Document × SignedRequest)
  unfolding resume
  create_valid sc input entropy = do
    raise_if (scope_invalid sc input || input_invalid input) conflict
    found ← attempt (get_idempotent s sc input.idempotency_key (request_hash s input))
    resume sc input entropy found

  -- `entropy` is what crypto/rand gives to newID.
  unfoldable pub create : Scope → CreateInput → List ℕ → Action (Document × SignedRequest)
  unfolding create_valid
  create sc input entropy = do
    raise_if (lacks_grant s sc input) evidence_scope
    create_valid (effective_scope sc (normalise s input)) (normalise s input) entropy
