-- ===== src/Delegated/BankAccount.antt =====
-- internal/httpserver/bank_account_access.go: evidence of bank accounts, to which Payment Rails grants
-- access for a participant's or the lender's account.
mod Parsing
pub mod Explicit
pub mod Granted
pub mod Content
pub use Parsing.{Query, AccountScope, Parsed, malformed, ambiguous, explicit}
unfoldable pub use Parsing.{parse_scope}
use Prim.Native.String
use file_storage_bucket.Common.{
  ℕ, String, len, Option, none, some, Bool, true, false, not, ◌&&◌, ◌||◌, List, [], ◌∷◌, length,
  ltb, leb, nat_eq, ◌==◌, if◌then◌else◌,
}
use file_storage_bucket.Text.{trim_space, trim_right_slashes, contains_any, to_upper}
use file_storage_bucket.Documents.Types.{
  Scope, CreateInput, Document, Result, ok, err, Service, Body,
}
use file_storage_bucket.Documents.Exec.{World, tick, ◌>>◌}
use file_storage_bucket.Documents.Create.{create}
use file_storage_bucket.Documents.Upload.{read_limited, upload_content}
use file_storage_bucket.Documents.Evidence.{
  bank_account_document, bank_account_evidence, open_bank_account_evidence,
}
use file_storage_bucket.Auth.{Principal, scope_of}
use file_storage_bucket.PartyClient.{Response}
use file_storage_bucket.Http.{Reply, problem, created, shown, verified, streamed, respond}
use file_storage_bucket.Delegated.{
  Visit, Upstream, AccessRequest, Access, denied, granted, is_base, relayed, is_live, UploadFile,
  clipped,
}

pub record AccountGrant : Type 0 where
  pub account_id : String
  pub environment : String
  pub tenant_id : String
  pub owner_type : String
  pub owner_id : String
  pub actor : String
  pub intent : String
  pub document_id : String
  pub sha256 : String

pub record Setting : Type 0 where
  pub upstream : Upstream
  pub unmarshal : List ℕ → Option AccountGrant
  pub environment : String

pub data AccountRoute : Type 0 where
  new_session : Option UploadFile → (entropy : List ℕ) → AccountRoute
  read_document : AccountRoute
  put_content : Body → AccountRoute
  get_content : AccountRoute
  verify_version : AccountRoute

unfoldable pub intent_of : AccountRoute → String
intent_of (new_session file entropy) = "upload"
intent_of read_document = "read"
intent_of (put_content body) = "complete"
intent_of get_content = "download"
intent_of verify_version = "verify"

module _ (c : Setting) where
  -- the first guard of authorizeBankAccount, for a principal
  unfoldable pub is_foreign : Visit → Principal → Bool
  is_foreign v p =
      p.subject == ""
      || not (p.tenant_id == "")
      || not (p.application_id == "")
      || p.authorized_party == ""
      || not (p.environment == c.environment)
      || not (is_live c.environment)
      || v.path_value "account" == ""
      || ltb 128 (len (v.path_value "account"))
      || contains_any (v.path_value "account") "/\\?#"

  unfoldable pub access_request : Visit → AccountScope → String → AccessRequest
  access_request v q intent = record {
    url = String.◌++◌ (trim_right_slashes c.upstream.base) (
        String.◌++◌ "/v1/internal/bank-accounts/" (
          String.◌++◌ (c.upstream.path_escape (v.path_value "account"))
            (String.◌++◌ "/document-access?" (c.upstream.encode_query q.rest))));
    body = ("intent", intent) ∷ ("document_id", v.path_value "id") ∷ ("sha256", q.digest) ∷ [];
    authorization = v.caller.header "Authorization";
  }

  -- the grant is for another visit, or its owner does not fit the scope
  unfoldable pub is_other_grant : Visit → Principal → AccountScope → String → AccountGrant → Bool
  is_other_grant v p q intent g =
      not (g.account_id == v.path_value "account")
      || not (g.environment == c.environment)
      || not (g.tenant_id == q.tenant)
      || not (g.actor == p.subject)
      || not (g.intent == intent)
      || not (g.document_id == v.path_value "id")
      || not (g.sha256 == q.digest)
      || g.owner_id == ""
      || ltb 128 (len g.owner_id)
      || not (trim_space g.owner_id == g.owner_id)
      || not (
          (q.tenant == "" && g.owner_type == "legal_entity")
          || (not (q.tenant == "") && g.owner_type == "party"))

  module _ (s : Service) where
    unfoldable pub granted_scope : Visit → Principal → AccountGrant → Scope
    granted_scope v p g = record (scope_of v.caller p) {
      tenant_id = g.tenant_id;
      correlation_id = g.account_id;
      bank_account_reference = g.account_id;
      bank_account_owner_type = to_upper s.platform.case_tables g.owner_type;
      bank_account_owner_id = g.owner_id;
    }

    unfoldable pub take_grant :
        Visit → Principal → AccountScope → String → Option AccountGrant → Access AccountGrant
    unfolding is_other_grant granted_scope
    take_grant v p q intent none = denied 503 "invalid_bank_account_authorization"
    take_grant v p q intent (some g) =
        if is_other_grant v p q intent g
        then denied 503 "invalid_bank_account_authorization"
        else granted (granted_scope v p g) g

    unfoldable pub take_data :
        Visit → Principal → AccountScope → String → Result (List ℕ) → Access AccountGrant
    unfolding take_grant
    take_data v p q intent (err e) = denied 503 "invalid_bank_account_authorization"
    take_data v p q intent (ok bytes) =
        if ltb 8192 (length bytes)
        then denied 503 "invalid_bank_account_authorization"
        else take_grant v p q intent (c.unmarshal bytes)

    unfoldable pub take_response :
        Visit → Principal → AccountScope → String → Result Response → Access AccountGrant
    unfolding take_data
    take_response v p q intent (err e) = denied 503 "bank_account_authorization_unavailable"
    take_response v p q intent (ok res) =
        if not (nat_eq res.status_code 200)
        then denied (relayed res.status_code) "bank_account_access_denied"
        else take_data v p q intent (read_limited 8193 res.body)

    -- from url.Parse on, where the query was explicit
    unfoldable pub authorize_scope :
        Visit → Principal → String → Parsed → World → Access AccountGrant × World
    unfolding access_request take_response
    authorize_scope v p intent malformed w = (denied 400 "invalid_request", w)
    authorize_scope v p intent ambiguous w = (denied 400 "explicit_bank_account_scope_required", w)
    authorize_scope v p intent (explicit q) w =
        if not (is_base (c.upstream.parse_url c.upstream.base))
        then (denied 503 "bank_account_authorization_unavailable", w)
        else (
          take_response v p q intent (c.upstream.send w.calls (access_request v q intent)),
          tick w,
        )

    -- authorizeBankAccount
    unfoldable pub authorize_account :
        Visit → Option Principal → String → World → Access AccountGrant × World
    unfolding is_foreign parse_scope authorize_scope
    authorize_account v none intent w = (denied 403 "bank_account_access_denied", w)
    authorize_account v (some p) intent w =
        if is_foreign v p
        then (denied 403 "bank_account_access_denied", w)
        else authorize_scope v p intent (parse_scope v.parsed) w

    unfoldable pub account_input : Visit → Scope → AccountGrant → UploadFile → CreateInput
    account_input v sc g file = record {
      party_id = if g.owner_type == "party" then g.owner_id else "";
      owner_type = sc.bank_account_owner_type;
      owner_id = g.owner_id;
      source_reference = g.account_id;
      consent_reference = "";
      document_type = "bank_account_evidence";
      purpose = "bank_account_verification";
      classification = "RESTRICTED";
      filename = file.filename;
      content_type = file.content_type;
      sha256 = file.sha256;
      retention_category = "financial_transaction";
      idempotency_key = v.caller.header "Idempotency-Key";
      size = file.size_bytes;
      retain_until = none;
    }

    -- the handlers, once the grant is there
    unfoldable pub serve_granted :
        Visit → Scope → AccountGrant → AccountRoute → World → Reply × World
    unfolding account_input
    serve_granted v sc g (new_session none entropy) w = (problem 400 "invalid_request", w)
    serve_granted v sc g (new_session (some file) entropy) w =
        respond 201 (λ x. created x.0) (create s sc (account_input v sc g file) entropy w)
    serve_granted v sc g read_document w =
        respond 200 shown (bank_account_document s sc g.document_id w)
    serve_granted v sc g (put_content body) w =
        respond 202 shown
          ((bank_account_document s sc g.document_id >> upload_content s sc g.document_id body) w)
    serve_granted v sc g get_content w =
        respond 200 (λ x. streamed (clipped x))
          (open_bank_account_evidence s sc g.document_id g.sha256 w)
    serve_granted v sc g verify_version w =
        respond 200 (λ d. verified d g.tenant_id g.environment (some g.account_id))
          (bank_account_evidence s sc g.document_id g.sha256 w)

    unfoldable pub serve_access : Visit → AccountRoute → Access AccountGrant × World → Reply × World
    unfolding serve_granted
    serve_access v route (denied status code, w) = (problem status code, w)
    serve_access v route (granted sc g, w) = serve_granted v sc g route w

    -- a route of registerBankAccountRoutes
    unfoldable pub serve_account : Visit → AccountRoute → World → Reply × World
    unfolding authorize_account serve_access
    serve_account v route w =
        serve_access v route (authorize_account v v.principal (intent_of route) w)
