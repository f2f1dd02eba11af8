-- ===== src/Delegated/Payment.antt =====
-- internal/httpserver/payment_access.go: evidence of manual bank payments and statements, to which
-- Payment Rails grants access.
pub mod Granted
pub mod Content
use Prim.Native.String
use file_storage_bucket.Common.{
  ℕ, String, Option, none, some, Bool, true, false, not, ◌&&◌, ◌||◌, List, [], ◌∷◌, length, ltb,
  nat_eq, ◌==◌, if◌then◌else◌,
}
use file_storage_bucket.Text.{trim_right_slashes, contains_any}
use file_storage_bucket.Documents.Types.{
  Scope, CreateInput, Document, Result, ok, err, Service, Body, SignedRequest,
}
use file_storage_bucket.Documents.Exec.{World, Action, tick, ◌>>◌}
use file_storage_bucket.Documents.Create.{create}
use file_storage_bucket.Documents.Upload.{read_limited, upload_content}
use file_storage_bucket.Documents.Evidence.{case_upload, resource_evidence, open_evidence}
use file_storage_bucket.Auth.{Principal, Caller, scope_of}
use file_storage_bucket.PartyClient.{Response}
use file_storage_bucket.Http.{Reply, problem, created, shown, verified, streamed, respond}
use file_storage_bucket.Delegated.{
  Visit, Upstream, AccessRequest, Access, denied, granted, is_base, relayed, is_live, UploadFile,
  purposed, clipped,
}

pub record PaymentGrant : Type 0 where
  pub payment_id : String
  pub tenant_id : String
  pub environment : String
  pub party_id : String
  pub actor : String
  pub intent : String
  pub document_id : String
  pub sha256 : String

-- The deciding service, the decoding of its grants, the environment of the configuration, and
-- whether the routes are those of statements.
pub record Setting : Type 0 where
  pub upstream : Upstream
  pub unmarshal : List ℕ → Option PaymentGrant
  pub environment : String
  pub statement : Bool

-- the requests under the prefix of the routes, with what their handlers read
pub data PaymentRoute : Type 0 where
  new_session : Option UploadFile → (entropy : List ℕ) → PaymentRoute
  read_document : PaymentRoute
  put_content : Body → PaymentRoute
  get_content : PaymentRoute
  verify_version : PaymentRoute

unfoldable pub intent_of : PaymentRoute → String
intent_of (new_session file entropy) = "upload"
intent_of read_document = "read"
intent_of (put_content body) = "upload"
intent_of get_content = "download"
intent_of verify_version = "verify"

module _ (c : Setting) where
  unfoldable pub purpose_of : String
  purpose_of = if c.statement then "manual_bank_statement" else "manual_bank_payment"

  unfoldable pub document_type_of : String
  document_type_of = if c.statement then "bank_statement_evidence" else "bank_payment_evidence"

  -- the first guard of authorizeBankEvidence, for a principal
  unfoldable pub is_foreign : Visit → Principal → Bool
  is_foreign v p =
      p.subject == ""
      || not (p.tenant_id == "")
      || not (p.application_id == "")
      || not (p.environment == c.environment)
      || not (is_live c.environment)
      || v.path_value "tenant" == ""
      || v.path_value "payment" == ""
      || contains_any (v.path_value "payment") "/\\?#"

  unfoldable pub access_request : Visit → String → AccessRequest
  access_request v intent = record {
    url = String.◌++◌ (trim_right_slashes c.upstream.base) (
        String.◌++◌ "/v1/internal/manual-payments/" (
          String.◌++◌ (c.upstream.path_escape (v.path_value "payment"))
            (if c.statement then "/statement-document-access" else "/document-access")));
    body =
        ("tenant_id", v.path_value "tenant")
        ∷ ("intent", intent)
        ∷ ("document_id", v.path_value "id")
        ∷ ("sha256", v.query "sha256")
        ∷ [];
    authorization = v.caller.header "Authorization";
  }

  -- the grant is for another visit
  unfoldable pub is_other_grant : Visit → Principal → String → PaymentGrant → Bool
  is_other_grant v p intent g =
      not (g.payment_id == v.path_value "payment")
      || not (g.tenant_id == v.path_value "tenant")
      || not (g.environment == c.environment)
      || g.party_id == ""
      || not (g.actor == p.subject)
      || not (g.intent == intent)
      || not (g.document_id == v.path_value "id")
      || not (g.sha256 == v.query "sha256")

  unfoldable pub granted_scope : Visit → Principal → PaymentGrant → Scope
  granted_scope v p g = record (scope_of v.caller p) {
    tenant_id = g.tenant_id;
    correlation_id = g.payment_id;
    payment_reference = if c.statement then "" else g.payment_id;
    statement_reference = if c.statement then g.payment_id else "";
  }

  unfoldable pub take_grant : Visit → Principal → String → Option PaymentGrant → Access PaymentGrant
  unfolding is_other_grant granted_scope
  take_grant v p intent none = denied 503 "invalid_payment_authorization"
  take_grant v p intent (some g) =
      if is_other_grant v p intent g
      then denied 503 "invalid_payment_authorization"
      else if (granted_scope v p g).application_id == ""
      then denied 403 "payment_access_denied"
      else granted (granted_scope v p g) g

  unfoldable pub take_data : Visit → Principal → String → Result (List ℕ) → Access PaymentGrant
  unfolding take_grant
  take_data v p intent (err e) = denied 503 "invalid_payment_authorization"
  take_data v p intent (ok bytes) =
      if ltb 8192 (length bytes)
      then denied 503 "invalid_payment_authorization"
      else take_grant v p intent (c.unmarshal bytes)

  unfoldable pub take_response : Visit → Principal → String → Result Response → Access PaymentGrant
  unfolding take_data
  take_response v p intent (err e) = denied 503 "payment_authorization_unavailable"
  take_response v p intent (ok res) =
      if not (nat_eq res.status_code 200)
      then denied (relayed res.status_code) "payment_access_denied"
      else take_data v p intent (read_limited 8193 res.body)

  unfoldable pub authorize_principal :
      Visit → Principal → String → World → Access PaymentGrant × World
  unfolding is_foreign access_request take_response
  authorize_principal v p intent w =
      if is_foreign v p
      then (denied 403 "payment_access_denied", w)
      else if not (is_base (c.upstream.parse_url c.upstream.base))
      then (denied 503 "payment_authorization_unavailable", w)
      else (take_response v p intent (c.upstream.send w.calls (access_request v intent)), tick w)

  -- authorizeBankEvidence
  unfoldable pub authorize_evidence :
      Visit → Option Principal → String → World → Access PaymentGrant × World
  unfolding authorize_principal
  authorize_evidence v none intent w = (denied 403 "payment_access_denied", w)
  authorize_evidence v (some p) intent w = authorize_principal v p intent w

  unfoldable pub payment_input : Visit → PaymentGrant → UploadFile → CreateInput
  unfolding purpose_of document_type_of
  payment_input v g file = record {
    party_id = g.party_id;
    owner_type = "PARTY";
    owner_id = g.party_id;
    source_reference = g.payment_id;
    consent_reference = "";
    document_type = document_type_of;
    purpose = purpose_of;
    classification = "RESTRICTED";
    filename = file.filename;
    content_type = file.content_type;
    sha256 = file.sha256;
    retention_category = "financial_transaction";
    idempotency_key = v.caller.header "Idempotency-Key";
    size = file.size_bytes;
    retain_until = none;
  }

  module _ (s : Service) where
    -- the document of the payment, of the purpose of the routes
    unfoldable pub payment_upload : Scope → PaymentGrant → Action Document
    unfolding purpose_of
    payment_upload sc g =
        purposed purpose_of (case_upload s sc g.payment_id g.party_id g.document_id)

    unfoldable pub payment_evidence : Scope → PaymentGrant → Action Document
    unfolding purpose_of
    payment_evidence sc g =
        purposed purpose_of (resource_evidence s sc g.document_id g.party_id g.sha256 g.payment_id)

    -- the handlers, once the grant is there
    unfoldable pub serve_granted :
        Visit → Scope → PaymentGrant → PaymentRoute → World → Reply × World
    unfolding payment_input payment_upload payment_evidence
    serve_granted v sc g (new_session none entropy) w = (problem 400 "invalid_request", w)
    serve_granted v sc g (new_session (some file) entropy) w =
        respond 201 (λ x. created x.0) (create s sc (payment_input v g file) entropy w)
    serve_granted v sc g read_document w = respond 200 shown (payment_upload sc g w)
    serve_granted v sc g (put_content body) w =
        respond 202 shown ((payment_upload sc g >> upload_content s sc g.document_id body) w)
    serve_granted v sc g get_content w =
        respond 200 (λ x. streamed (clipped x))
          ((payment_evidence sc g >> open_evidence s sc g.document_id g.party_id g.sha256) w)
    serve_granted v sc g verify_version w =
        respond 200 (λ d. verified d g.tenant_id g.environment (some g.payment_id))
          (payment_evidence sc g w)

    unfoldable pub serve_access : Visit → PaymentRoute → Access PaymentGrant × World → Reply × World
    unfolding serve_granted
    serve_access v route (denied status code, w) = (problem status code, w)
    serve_access v route (granted sc g, w) = serve_granted v sc g route w

    -- a route of registerBankEvidenceRoutes
    unfoldable pub serve_payment : Visit → PaymentRoute → World → Reply × World
    unfolding authorize_evidence serve_access
    serve_payment v route w =
        serve_access v route (authorize_evidence v v.principal (intent_of route) w)
