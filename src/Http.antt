-- ===== src/Http.antt =====
-- internal/httpserver/server.go and evidence.go: the handlers of the document routes, from the
-- principal in the request's context to the reply. What encoding/json makes of a body is a
-- parameter of each route: none where decode returns an error. The body of a PUT is what
-- http.MaxBytesReader gives of it.
pub mod Checked
pub mod Reached
pub mod Scopes
use file_storage_bucket.Common.{
  ℕ, String, Bool, false, not, ◌||◌, Option, none, some, List, ◌≡◌, ◌⊎◌, inl, inr, refl, arith,
  ◌==◌, if◌then◌else◌, Bool-cases,
}
use file_storage_bucket.Text.{trim_space, to_lower, to_upper}
use file_storage_bucket.Documents.Types.{
  ℤ, Scope, CreateInput, Document, SignedRequest, Body, Error, not_found, conflict, evidence_scope,
  failure, Result, ok, err, Service,
}
use file_storage_bucket.Documents.Exec.{World}
use file_storage_bucket.Documents.Create
use file_storage_bucket.Documents.Upload
use file_storage_bucket.Documents.Evidence
use file_storage_bucket.Auth.{Principal, Caller, has_scope, scope_of}

-- the body of POST /v1/documents/upload-sessions
pub record UploadSession : Type 0 where
  pub party_id : String
  pub owner_type : String
  pub owner_id : String
  pub source_reference : String
  pub consent_reference : String
  pub document_type : String
  pub purpose : String
  pub classification : String
  pub filename : String
  pub content_type : String
  pub size_bytes : ℤ
  pub sha256 : String
  pub retention_category : String
  pub retain_until : Option ℕ

pub record ScanResult : Type 0 where
  pub outcome : String
  pub reason : String

pub record EvidenceRequest : Type 0 where
  pub party_id : String
  pub sha256 : String
  pub resource_reference : Option String

-- the requests that reach a handler under /v1/documents, with what their handlers read
pub data Route : Type 0 where
  upload_sessions : Option UploadSession → (entropy : List ℕ) → Route
  complete_upload : (id : String) → Route
  put_content : (id : String) → Body → Route
  scan_result : (id : String) → Option ScanResult → Route
  download_session : (id : String) → Route
  evidence_verification : (id : String) → Option EvidenceRequest → Route

pub data Payload : Type 0 where
  session : Document × SignedRequest → Payload
  shown : Document → Payload
  signed : SignedRequest → Payload
  verified : Document → (tenant environment : String) → (reference : Option String) → Payload
  created : Document → Payload
  page : List Document → (next_cursor : String) → Payload
  streamed : List ℕ → Payload

pub data Reply : Type 0 where
  problem : ℕ → String → Reply
  written : ℕ → Payload → Reply

-- the scope that require asks for
unfoldable pub required_scope : Route → String
required_scope (upload_sessions b entropy) = "documents.write"
required_scope (complete_upload id) = "documents.write"
required_scope (put_content id body) = "documents.write"
required_scope (scan_result id b) = "documents.scan"
required_scope (download_session id) = "documents.read"
required_scope (evidence_verification id b) = "documents.evidence.verify"

-- handle
unfoldable pub handle : Error → Reply
handle evidence_scope = problem 403 "explicit_evidence_scope_required"
handle not_found = problem 404 "not_found"
handle conflict = problem 409 "conflict"
handle failure = problem 500 "internal_error"

module _ {A : Type 0} where
  unfoldable pub respond : ℕ → (A → Payload) → Result A × World → Reply × World
  unfolding handle
  respond status f (ok a, w) = (written status (f a), w)
  respond status f (err e, w) = (handle e, w)

unfoldable pub create_input : Service → Caller → UploadSession → CreateInput
create_input s r b = record {
  party_id = b.party_id;
  owner_type = b.owner_type;
  owner_id = b.owner_id;
  source_reference = b.source_reference;
  consent_reference = b.consent_reference;
  document_type = b.document_type;
  purpose = b.purpose;
  classification = to_upper s.platform.case_tables b.classification;
  filename = b.filename;
  content_type = b.content_type;
  sha256 = b.sha256;
  retention_category = b.retention_category;
  idempotency_key = r.header "Idempotency-Key";
  size = b.size_bytes;
  retain_until = b.retain_until;
}

-- the guard of evidenceHandler, against the environment of the configuration
unfoldable pub lacks_explicit_scope : String → Scope → Bool
lacks_explicit_scope environment sc =
    sc.tenant_id == ""
    || sc.subject == ""
    || sc.application_id == ""
    || environment == ""
    || not (sc.environment == environment)

module _ (s : Service) (environment : String) (r : Caller) where
  unfoldable pub verify_for : Scope → String → EvidenceRequest → World → Result Document × World
  verify_for sc id b w = elim b.resource_reference [
    | none ↦ Evidence.evidence s sc id b.party_id b.sha256 w
    | some reference ↦ Evidence.resource_evidence s sc id b.party_id b.sha256 reference w
  ]

  unfoldable pub evidence_handler : Scope → String → Option EvidenceRequest → World → Reply × World
  unfolding verify_for respond
  evidence_handler sc id none w =
      if lacks_explicit_scope environment sc
      then (problem 403 "explicit_evidence_scope_required", w)
      else (problem 400 "invalid_request", w)
  evidence_handler sc id (some b) w =
      if lacks_explicit_scope environment sc
      then (problem 403 "explicit_evidence_scope_required", w)
      else respond 200 (λ d. verified d sc.tenant_id sc.environment b.resource_reference)
          (verify_for sc id b w)

  -- the handlers, once require has let the principal through
  unfoldable pub serve_principal : Principal → Route → World → Reply × World
  unfolding evidence_handler create_input
  serve_principal p (upload_sessions none entropy) w = (problem 400 "invalid_request", w)
  serve_principal p (upload_sessions (some b) entropy) w =
      respond 201 session (Create.create s (scope_of r p) (create_input s r b) entropy w)
  serve_principal p (complete_upload id) w =
      respond 202 shown (Upload.complete s (scope_of r p) id w)
  serve_principal p (put_content id body) w =
      respond 202 shown (Upload.upload_content s (scope_of r p) id body w)
  serve_principal p (scan_result id none) w = (problem 400 "invalid_request", w)
  serve_principal p (scan_result id (some b)) w = respond 200 shown (
      Upload.record_scan s (scope_of r p) id
        (to_lower s.platform.case_tables (trim_space b.outcome)) (trim_space b.reason) w)
  serve_principal p (download_session id) w =
      respond 200 signed (Upload.download s (scope_of r p) id w)
  serve_principal p (evidence_verification id b) w = evidence_handler (scope_of r p) id b w

  -- require, and the handler
  unfoldable pub serve_route : Option Principal → Route → World → Reply × World
  unfolding serve_principal required_scope
  serve_route none route w = (problem 401 "unauthorized", w)
  serve_route (some p) route w =
      if not (has_scope p (required_scope route))
      then (problem 403 "insufficient_scope", w)
      else serve_principal p route w
