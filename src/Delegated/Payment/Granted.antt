-- ===== src/Delegated/Payment/Granted.antt =====
-- authorizeBankEvidence: on whose word a scope is given.
use file_storage_bucket.Common.{
  ℕ, ◌≤◌, String, Option, none, some, false, List, length, ltb, ◌≡◌, ◌≢◌, ◌⊎◌, inl, inr, refl,
  subst, arith, Bool-cases,
}
use file_storage_bucket.Documents.Types.{Scope, Result, ok, err, Service}
use file_storage_bucket.Documents.Exec.{World, tick}
use file_storage_bucket.Documents.Upload.{read_limited}
use file_storage_bucket.Auth.{Principal}
use file_storage_bucket.PartyClient.{Response}
use file_storage_bucket.Http.{Payload, written}
use file_storage_bucket.Delegated.{Visit, Access, denied, granted}
use file_storage_bucket.Delegated.Payment.{
  PaymentGrant, Setting, PaymentRoute, intent_of, is_foreign, access_request, is_other_grant,
  granted_scope, take_grant, take_data, take_response, authorize_principal, authorize_evidence,
  serve_granted, serve_access, serve_payment,
}

-- the visitor is staff: a person without a tenant of their own, in the server's environment
pub record IsStaff (environment : String) (p : Principal) : Type 0 where
  pub named : p.subject ≢ ""
  pub no_tenant : p.tenant_id ≡ ""
  pub no_application : p.application_id ≡ ""
  pub here : p.environment ≡ environment
  pub live : (environment ≡ "sandbox") ⊎ (environment ≡ "production")

-- Payment Rails answered the request for this visit with this grant, which is for this visit
pub record IsGranted (c : Setting) (v : Visit) (intent : String) (n : ℕ) (p : Principal)
    (g : PaymentGrant) : Type 0 where
  pub response : Response
  pub sent : c.upstream.send n (access_request c v intent) ≡ ok response
  pub succeeded : response.status_code ≡ 200
  pub bytes : List ℕ
  pub whole : read_limited 8193 response.body ≡ ok bytes
  pub bounded : length bytes ≤ 8192
  pub decoded : c.unmarshal bytes ≡ some g
  pub payment : (g.payment_id ≡ v.path_value "payment") × (g.payment_id ≢ "")
  pub tenant : (g.tenant_id ≡ v.path_value "tenant") × (g.tenant_id ≢ "")
  pub environment : g.environment ≡ c.environment
  pub party : g.party_id ≢ ""
  pub actor : g.actor ≡ p.subject
  pub for_intent : g.intent ≡ intent
  pub document : g.document_id ≡ v.path_value "id"
  pub digest : g.sha256 ≡ v.query "sha256"

pub record IsAuthorised (c : Setting) (v : Visit) (intent : String) (n : ℕ) (sc : Scope)
    (g : PaymentGrant) : Type 0 where
  pub principal : Principal
  pub visitor : v.principal ≡ some principal
  pub staff : IsStaff c.environment principal
  pub grant : IsGranted c v intent n principal g
  pub scope : sc ≡ granted_scope c v principal g
  pub application : sc.application_id ≢ ""

module _ (c : Setting) (v : Visit) (p : Principal) where
  is_foreign-IsStaff :
      is_foreign c v p ≡ false
      → IsStaff c.environment p × (v.path_value "tenant" ≢ "") × (v.path_value "payment" ≢ "")
  unfolding is_foreign
  is_foreign-IsStaff h = (
    record {
      named = ground arith;
      no_tenant = ground arith;
      no_application = ground arith;
      here = ground arith;
      live = ground arith;
    },
    ground arith,
    ground arith,
  )

  -- what is left of the checks once the answer was read
  record IsTaken (intent : String) (bytes : List ℕ) (sc : Scope) (g : PaymentGrant) : Type 0 where
    decoded : c.unmarshal bytes ≡ some g
    bounded : length bytes ≤ 8192
    same : is_other_grant c v p intent g ≡ false
    scope : sc ≡ granted_scope c v p g
    application : sc.application_id ≢ ""

  take_grant-eq-granted :
      (intent : String) (o : Option PaymentGrant) (sc : Scope) (g : PaymentGrant)
      → take_grant c v p intent o ≡ granted sc g
      → (o ≡ some g)
        × (is_other_grant c v p intent g ≡ false)
        × (sc ≡ granted_scope c v p g)
        × (sc.application_id ≢ "")
  unfolding take_grant
  take_grant-eq-granted intent none sc g h = cc
  take_grant-eq-granted intent (some x) sc g h = elim (Bool-cases (is_other_grant c v p intent x)) [
    | inl other ↦ absurd (ground arith)
    | inr same ↦ ground arith
  ]

  take_data-IsTaken :
      (intent : String) (r : Result (List ℕ)) (sc : Scope) (g : PaymentGrant)
      → take_data c v p intent r ≡ granted sc g
      → (bytes : List ℕ) × (r ≡ ok bytes) × IsTaken intent bytes sc g
  unfolding take_data
  take_data-IsTaken intent (err e) sc g h = cc
  take_data-IsTaken intent (ok bytes) sc g h = elim (Bool-cases (ltb 8192 (length bytes))) [
    | inl long ↦ absurd (ground arith)
    | inr short ↦
        let (decoded, same, scope, application) =
          take_grant-eq-granted intent (c.unmarshal bytes) sc g (ground arith) in
        (
          bytes,
          refl,
          record {
            decoded = decoded;
            bounded = ground arith;
            same = same;
            scope = scope;
            application = application;
          },
        )
  ]

  take_response-eq-granted :
      (intent : String) (r : Result Response) (sc : Scope) (g : PaymentGrant)
      → take_response c v p intent r ≡ granted sc g
      → (response : Response) × (r ≡ ok response)
        × (response.status_code ≡ 200)
        × (take_data c v p intent (read_limited 8193 response.body) ≡ granted sc g)
  unfolding take_response
  take_response-eq-granted intent (err e) sc g h = cc
  take_response-eq-granted intent (ok response) sc g h =
      (response, refl, ground arith, ground arith)

  is_other_grant-IsGranted :
      (intent : String) (n : ℕ) (sc : Scope) (g : PaymentGrant) (response : Response)
      (bytes : List ℕ)
      → c.upstream.send n (access_request c v intent) ≡ ok response
      → response.status_code ≡ 200
      → read_limited 8193 response.body ≡ ok bytes
      → (v.path_value "tenant" ≢ "") × (v.path_value "payment" ≢ "")
      → IsTaken intent bytes sc g
      → IsGranted c v intent n p g
  unfolding is_other_grant
  is_other_grant-IsGranted intent n sc g response bytes sent succeeded whole (tenant, payment) k =
      let same = k.same in
      record {
        response = response;
        sent = sent;
        succeeded = succeeded;
        bytes = bytes;
        whole = whole;
        bounded = k.bounded;
        decoded = k.decoded;
        payment = (ground arith, ground arith);
        tenant = (ground arith, ground arith);
        environment = ground arith;
        party = ground arith;
        actor = ground arith;
        for_intent = ground arith;
        document = ground arith;
        digest = ground arith;
      }

  authorize_principal-IsAuthorised :
      (intent : String) (w w' : World) (sc : Scope) (g : PaymentGrant)
      → v.principal ≡ some p
      → authorize_principal c v p intent w ≡ (granted sc g, w')
      → IsAuthorised c v intent w.calls sc g × (w' ≡ tick w)
  unfolding authorize_principal
  authorize_principal-IsAuthorised intent w w' sc g at h = elim (Bool-cases (is_foreign c v p)) [
    | inl foreign ↦ absurd (ground arith)
    | inr own ↦
        let (staff, tenant, payment) = is_foreign-IsStaff own in
        let (response, sent, succeeded, h') =
          take_response-eq-granted intent (c.upstream.send w.calls (access_request c v intent)) sc g
            (ground arith) in
        let (bytes, whole, k) =
          take_data-IsTaken intent (read_limited 8193 response.body) sc g h' in
        (
          record {
            principal = p;
            visitor = at;
            staff = staff;
            grant =
                is_other_grant-IsGranted intent w.calls sc g response bytes sent succeeded whole
                  (tenant, payment) k;
            scope = k.scope;
            application = k.application;
          },
          ground arith,
        )
  ]

module _ (c : Setting) (s : Service) (v : Visit) (route : PaymentRoute) where
  served :
      (o : Option Principal) (a : Access PaymentGrant) (status : ℕ) (x : Payload) (w u w' : World)
      → v.principal ≡ o
      → authorize_evidence c v o (intent_of route) w ≡ (a, u)
      → serve_access c s v route (a, u) ≡ (written status x, w')
      → (sc : Scope) × (g : PaymentGrant) × IsAuthorised c v (intent_of route) w.calls sc g
        × (serve_granted c s v sc g route (tick w) ≡ (written status x, w'))
  unfolding authorize_evidence serve_access
  served none a status x w u w' at h k = cc
  served (some p) (denied code reason) status x w u w' at h k = cc
  served (some p) (granted sc g) status x w u w' at h k =
      let (authorised, moved) =
        authorize_principal-IsAuthorised c v p (intent_of route) w u sc g at h in
      (
        sc,
        g,
        authorised,
        subst (λ y. serve_granted c s v sc g route y ≡ (written status x, w')) moved k,
      )

  -- A route for evidence of payments or statements replies with anything but a problem only to staff
  -- of the server's own live environment without a tenant of their own, and after Payment Rails
  -- granted this visit: the payment, the tenant, the document and the digest of the request, the
  -- intent of the route, and the visitor as actor. The handler then runs under the granted scope.
  pub serve_payment-IsAuthorised :
      (status : ℕ) (x : Payload) (w w' : World)
      → serve_payment c s v route w ≡ (written status x, w')
      → (sc : Scope) × (g : PaymentGrant) × IsAuthorised c v (intent_of route) w.calls sc g
        × (serve_granted c s v sc g route (tick w) ≡ (written status x, w'))
  unfolding serve_payment
  serve_payment-IsAuthorised status x w w' h =
      let answer = authorize_evidence c v v.principal (intent_of route) w in
      served v.principal answer.0 status x w answer.1 w' refl refl h
