-- ===== src/Delegated/Case.antt =====
-- internal/httpserver/case_access.go: documents of a credit application, to which the decision engine
-- grants access.
pub mod Granted
pub mod Pages
pub mod Cursor
use Prim.Native.String
use file_storage_bucket.Common.{
  ℕ, suc, zero, String, len, Option, none, some, Bool, true, false, not, ◌&&◌, ◌||◌, List, [], ◌∷◌,
  length, ltb, take, nat_eq, ◌==◌, if◌then◌else◌,
}
use file_storage_bucket.Text.{trim_right_slashes}
use file_storage_bucket.Documents.Types.{
  ℤ, Scope, CreateInput, Document, Result, ok, err, Service, Body,
}
use file_storage_bucket.Documents.Exec.{World, tick, ◌>>◌}
use file_storage_bucket.Documents.Create.{create}
use file_storage_bucket.Documents.Upload.{upload_content}
use file_storage_bucket.Documents.Evidence.{case_upload, case_uploads, open_evidence}
use file_storage_bucket.Auth.{Principal, scope_of}
use file_storage_bucket.PartyClient.{Response}
use file_storage_bucket.Http.{Payload, Reply, problem, created, shown, page, streamed, respond}
use file_storage_bucket.Delegated.{
  Visit, Upstream, AccessRequest, Access, denied, granted, limited, clipped,
}

pub record CaseGrant : Type 0 where
  pub application_id : String
  pub tenant_id : String
  pub environment : String
  pub party_id : String
  pub intent : String
  pub document_id : String
  pub sha256 : String
  pub actor : String

-- `decode` is json.Decoder.Decode: the first value of a reader; none where it returns an error
pub record Setting : Type 0 where
  pub upstream : Upstream
  pub decode : Body → Option CaseGrant
  pub environment : String

-- the body of an upload session of a case
pub record CaseFile : Type 0 where
  pub document_type : String
  pub filename : String
  pub content_type : String
  pub size_bytes : ℤ
  pub sha256 : String
  pub consent_reference : String

pub data CaseRoute : Type 0 where
  list_documents : CaseRoute
  get_content : CaseRoute
  new_session : Option CaseFile → (entropy : List ℕ) → CaseRoute
  read_document : CaseRoute
  put_content : Body → CaseRoute

unfoldable pub intent_of : CaseRoute → String
intent_of list_documents = "uploads"
intent_of get_content = "download"
intent_of (new_session file entropy) = "upload"
intent_of read_document = "uploads"
intent_of (put_content body) = "upload"

-- status != 403 && status != 404 && status != 409
unfoldable pub case_relayed : ℕ → ℕ
case_relayed status =
    if nat_eq status 403 || nat_eq status 404 || nat_eq status 409 then status else 503

-- rows[i].ID, within the bounds that the caller has checked
unfoldable pub id_at : ℕ → List Document → String
id_at i [] = ""
id_at zero (d ∷ ds) = d.id
id_at (suc i) (d ∷ ds) = id_at i ds

-- at most fifty rows, and the cursor for the next ones
unfoldable pub page_of : List Document → Payload
unfolding id_at
page_of rows = if ltb 50 (length rows) then page (take 50 rows) (id_at 49 rows) else page rows ""

module _ (c : Setting) where
  -- the first guard of authorizeCase, for a principal
  unfoldable pub is_foreign : Visit → Principal → Bool
  is_foreign v p =
      p.subject == ""
      || not (p.environment == c.environment)
      || c.environment == ""
      || v.path_value "tenant" == ""

  unfoldable pub access_request : Visit → String → AccessRequest
  access_request v intent = record {
    url = String.◌++◌ (trim_right_slashes c.upstream.base) (
        String.◌++◌ "/v1/credit/applications/"
          (String.◌++◌ (c.upstream.path_escape (v.path_value "application")) "/document-access"));
    body =
        ("tenant_id", v.path_value "tenant")
        ∷ ("intent", intent)
        ∷ ("document_id", v.path_value "id")
        ∷ ("sha256", v.query "sha256")
        ∷ [];
    authorization = v.caller.header "Authorization";
  }

  -- the grant is for another visit
  unfoldable pub is_other_grant : Visit → Principal → String → CaseGrant → Bool
  is_other_grant v p intent g =
      not (g.application_id == v.path_value "application")
      || not (g.tenant_id == v.path_value "tenant")
      || not (g.environment == p.environment)
      || g.party_id == ""
      || not (g.actor == p.subject)
      || not (g.intent == intent)
      || not (g.document_id == v.path_value "id")
      || not (g.sha256 == v.query "sha256")

  unfoldable pub granted_scope : Visit → Principal → CaseGrant → Scope
  granted_scope v p g = record (scope_of v.caller p) {
    tenant_id = g.tenant_id;
    correlation_id = v.path_value "application";
  }

  unfoldable pub take_grant : Visit → Principal → String → Option CaseGrant → Access CaseGrant
  unfolding is_other_grant granted_scope
  take_grant v p intent none = denied 503 "invalid_case_authorization"
  take_grant v p intent (some g) =
      if is_other_grant v p intent g
      then denied 503 "invalid_case_authorization"
      else if (granted_scope v p g).application_id == ""
      then denied 403 "forbidden"
      else granted (granted_scope v p g) g

  unfoldable pub take_response : Visit → Principal → String → Result Response → Access CaseGrant
  unfolding take_grant case_relayed
  take_response v p intent (err e) = denied 503 "case_authorization_unavailable"
  take_response v p intent (ok res) =
      if not (nat_eq res.status_code 200)
      then denied (case_relayed res.status_code) "case_access_denied"
      else take_grant v p intent (c.decode (limited 8192 res.body))

  unfoldable pub authorize_principal : Visit → Principal → String → World → Access CaseGrant × World
  unfolding is_foreign access_request take_response
  authorize_principal v p intent w =
      if is_foreign v p
      then (denied 403 "forbidden", w)
      else if c.upstream.base == ""
      then (denied 503 "case_authorization_unavailable", w)
      else (take_response v p intent (c.upstream.send w.calls (access_request v intent)), tick w)

  -- authorizeCase
  unfoldable pub authorize_case :
      Visit → Option Principal → String → World → Access CaseGrant × World
  unfolding authorize_principal
  authorize_case v none intent w = (denied 403 "forbidden", w)
  authorize_case v (some p) intent w = authorize_principal v p intent w

  unfoldable pub case_input : Visit → CaseGrant → CaseFile → CreateInput
  case_input v g file = record {
    party_id = g.party_id;
    owner_type = "PARTY";
    owner_id = g.party_id;
    source_reference = g.application_id;
    consent_reference = file.consent_reference;
    document_type = file.document_type;
    purpose = "credit_assessment";
    classification = "RESTRICTED";
    filename = file.filename;
    content_type = file.content_type;
    sha256 = file.sha256;
    retention_category = "credit_application";
    idempotency_key = v.caller.header "Idempotency-Key";
    size = file.size_bytes;
    retain_until = none;
  }

  module _ (s : Service) where
    -- the handlers, once the grant is there
    unfoldable pub serve_granted : Visit → Scope → CaseGrant → CaseRoute → World → Reply × World
    unfolding case_input page_of
    serve_granted v sc g list_documents w =
        if ltb 128 (len (v.query "after"))
        then (problem 400 "invalid_cursor", w)
        else respond 200 page_of (case_uploads s sc g.application_id g.party_id (v.query "after") w)
    serve_granted v sc g get_content w =
        respond 200 (λ x. streamed (clipped x))
          (open_evidence s sc g.document_id g.party_id g.sha256 w)
    serve_granted v sc g (new_session none entropy) w = (problem 400 "invalid_request", w)
    serve_granted v sc g (new_session (some file) entropy) w =
        respond 201 (λ x. created x.0) (create s sc (case_input v g file) entropy w)
    serve_granted v sc g read_document w =
        respond 200 shown (case_upload s sc g.application_id g.party_id g.document_id w)
    serve_granted v sc g (put_content body) w = respond 202 shown (
        (case_upload s sc g.application_id g.party_id g.document_id
            >> upload_content s sc g.document_id body)
          w)

    unfoldable pub serve_access : Visit → CaseRoute → Access CaseGrant × World → Reply × World
    unfolding serve_granted
    serve_access v route (denied status code, w) = (problem status code, w)
    serve_access v route (granted sc g, w) = serve_granted v sc g route w

    -- a route of registerCaseRoutes
    unfoldable pub serve_case : Visit → CaseRoute → World → Reply × World
    unfolding authorize_case serve_access
    serve_case v route w = serve_access v route (authorize_case v v.principal (intent_of route) w)
