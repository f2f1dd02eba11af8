-- ===== src/Auth.antt =====
-- internal/auth/auth.go, and authenticate, scope and value of internal/httpserver/server.go:
-- who a request acts for. The check of a token's signature and its decoding are a parameter.
use file_storage_bucket.Common.{
  String, Bool, true, false, not, ◌&&◌, Option, none, some, List, [], ◌∷◌, any, ◌≡◌, ◌≢◌, ◌⊎◌, refl,
  arith, ◌==◌, if◌then◌else◌,
}
use file_storage_bucket.Text.{trim_space, cut_space, is_bearer, fields, has_prefix}
use file_storage_bucket.Documents.Types.{Scope, Result, ok, err, failure}

pub record Principal : Type 0 where
  pub subject : String
  pub tenant_id : String
  pub environment : String
  pub application_id : String
  pub authorized_party : String
  pub scopes : List String

pub record Claims : Type 0 where
  pub sub : String
  pub tenant_id : String
  pub environment : String
  pub application_id : String
  pub azp : String
  pub scope : String

unfoldable pub has_scope : Principal → String → Bool
has_scope p v = any (λ x. x == v) p.scopes

unfoldable pub principal_of : Result Claims → Result Principal
principal_of (err e) = err e
principal_of (ok c) =
    if c.sub == ""
    then err failure
    else if c.tenant_id == "" && c.azp == ""
    then err failure
    else ok (record {
      subject = c.sub;
      tenant_id = c.tenant_id;
      environment = c.environment;
      application_id = c.application_id;
      authorized_party = c.azp;
      scopes = fields c.scope;
    })

-- OIDCVerifier.Verify; `claims` is IDTokenVerifier.Verify followed by IDToken.Claims
unfoldable pub verify : (String → Result Claims) → String → Result Principal
unfolding principal_of
verify claims raw = principal_of (claims raw)

-- value of server.go
unfoldable pub value_or : String → String → String
value_or v f = if not (trim_space v == "") then trim_space v else f

-- what of an HTTP request says who acts
pub record Caller : Type 0 where
  pub path : String
  pub header : String → String

pub data Admission : Type 0 where
  unauthorized : Admission
  anonymous : Admission
  admitted : Principal → Admission

unfoldable pub local_principal : String → Caller → Principal
unfolding value_or
local_principal default_environment r = record {
  subject =
      if r.header "X-Local-Subject" == ""
      then "local-document-developer"
      else r.header "X-Local-Subject";
  tenant_id = value_or (r.header "X-Tenant-Id") "local-test";
  environment = value_or (r.header "X-Environment") default_environment;
  application_id = value_or (r.header "X-Application-Id") "local-document-client";
  authorized_party = "";
  scopes = "documents.write" ∷ "documents.read" ∷ "documents.scan" ∷ [];
}

unfoldable pub admit : Result Principal → Admission
admit (err e) = unauthorized
admit (ok p) = admitted p

unfoldable pub admit_bearer : (String → Result Claims) → Option (String × String) → Admission
unfolding admit verify
admit_bearer claims none = unauthorized
admit_bearer claims (some (scheme, token)) =
    if not (is_bearer scheme) then unauthorized else admit (verify claims token)

-- authenticate: who the next handler is called for, if it is
unfoldable pub authenticate : Bool → String → (String → Result Claims) → Caller → Admission
unfolding local_principal admit_bearer
authenticate disabled default_environment claims r =
    if not (has_prefix r.path "/v1/")
    then anonymous
    else if disabled
    then admitted (local_principal default_environment r)
    else admit_bearer claims (cut_space (trim_space (r.header "Authorization")))

-- scope of server.go
unfoldable pub scope_of : Caller → Principal → Scope
unfolding value_or
scope_of r p = record {
  tenant_id = p.tenant_id;
  environment = p.environment;
  subject = p.subject;
  application_id = value_or p.application_id p.authorized_party;
  correlation_id =
      if r.header "X-Correlation-Id" == "" then "cor_missing" else r.header "X-Correlation-Id";
  payment_reference = "";
  statement_reference = "";
  bank_account_reference = "";
  bank_account_owner_type = "";
  bank_account_owner_id = "";
}

-- the principal of a verified token
pub record IsVouched (claims : String → Result Claims) (r : Caller) (p : Principal) : Type 0 where
  pub scheme : String
  pub token : String
  pub presented : cut_space (trim_space (r.header "Authorization")) ≡ some (scheme, token)
  pub bearer : is_bearer scheme ≡ true
  pub claimed : Claims
  pub checked : claims token ≡ ok claimed
  pub subject : (p.subject ≡ claimed.sub) × (p.subject ≢ "")
  pub tenant : (p.tenant_id ≡ claimed.tenant_id) × ((p.tenant_id ≢ "") ⊎ (p.authorized_party ≢ ""))
  pub scopes : p.scopes ≡ fields claimed.scope

admit-eq-admitted :
    (r : Result Claims) (p : Principal)
    → admit (principal_of r) ≡ admitted p
    → (c : Claims) × (r ≡ ok c)
      × ((p.subject ≡ c.sub) × (p.subject ≢ ""))
      × ((p.tenant_id ≡ c.tenant_id) × ((p.tenant_id ≢ "") ⊎ (p.authorized_party ≢ "")))
      × (p.scopes ≡ fields c.scope)
unfolding admit principal_of
admit-eq-admitted (err e) p h = cc
admit-eq-admitted (ok c) p h = (c, refl, ground arith, ground arith, ground arith)

admit_bearer-IsVouched :
    (claims : String → Result Claims) (r : Caller) (p : Principal) (o : Option (String × String))
    → cut_space (trim_space (r.header "Authorization")) ≡ o
    → admit_bearer claims o ≡ admitted p
    → IsVouched claims r p
unfolding admit_bearer verify
admit_bearer-IsVouched claims r p none at h = cc
admit_bearer-IsVouched claims r p (some (scheme, token)) at h =
    let (c, checked, subject, tenant, scopes) = admit-eq-admitted (claims token) p (ground arith) in
    record {
      scheme = scheme;
      token = token;
      presented = at;
      bearer = ground arith;
      claimed = c;
      checked = checked;
      subject = subject;
      tenant = tenant;
      scopes = scopes;
    }

-- Where authentication is not disabled, a request is admitted as a principal only with a bearer token
-- that the verifier accepts; the principal has the token's subject, tenant and scopes, the subject is
-- not empty, and neither are both its tenant and its authorized party.
pub authenticate-IsVouched :
    (default_environment : String) (claims : String → Result Claims) (r : Caller) (p : Principal)
    → authenticate false default_environment claims r ≡ admitted p
    → IsVouched claims r p
unfolding authenticate
authenticate-IsVouched default_environment claims r p h =
    admit_bearer-IsVouched claims r p (cut_space (trim_space (r.header "Authorization"))) refl
      (ground arith)
