-- ===== src/Delegated/Case/Granted.antt =====
-- authorizeCase: on whose word a scope is given.
use file_storage_bucket.Common.{
  ℕ, String, Option, none, some, false, ◌≡◌, ◌≢◌, inl, inr, refl, subst, arith, Bool-cases,
}
use file_storage_bucket.Documents.Types.{Scope, Result, ok, err, Service}
use file_storage_bucket.Documents.Exec.{World, tick}
use file_storage_bucket.Auth.{Principal}
use file_storage_bucket.PartyClient.{Response}
use file_storage_bucket.Http.{Payload, written}
use file_storage_bucket.Delegated.{Visit, Access, denied, granted, limited}
use file_storage_bucket.Delegated.Case.{
  CaseGrant, Setting, CaseRoute, intent_of, is_foreign, access_request, is_other_grant,
  granted_scope, take_grant, take_response, authorize_principal, authorize_case, serve_granted,
  serve_access, serve_case,
}

-- the decision engine answered the request for this visit with this grant, which is for this visit
pub record IsGranted (c : Setting) (v : Visit) (intent : String) (n : ℕ) (p : Principal)
    (g : CaseGrant) : Type 0 where
  pub response : Response
  pub sent : c.upstream.send n (access_request c v intent) ≡ ok response
  pub succeeded : response.status_code ≡ 200
  pub decoded : c.decode (limited 8192 response.body) ≡ some g
  pub application : g.application_id ≡ v.path_value "application"
  pub tenant : (g.tenant_id ≡ v.path_value "tenant") × (g.tenant_id ≢ "")
  pub environment : (g.environment ≡ c.environment) × (g.environment ≢ "")
  pub party : g.party_id ≢ ""
  pub actor : g.actor ≡ p.subject
  pub for_intent : g.intent ≡ intent
  pub document : g.document_id ≡ v.path_value "id"
  pub digest : g.sha256 ≡ v.query "sha256"

pub record IsAuthorised (c : Setting) (v : Visit) (intent : String) (n : ℕ) (sc : Scope)
    (g : CaseGrant) : Type 0 where
  pub principal : Principal
  pub visitor : v.principal ≡ some principal
  pub named : principal.subject ≢ ""
  pub here : principal.environment ≡ c.environment
  pub grant : IsGranted c v intent n principal g
  pub scope : sc ≡ granted_scope c v principal g
  pub application : sc.application_id ≢ ""

module _ (c : Setting) (v : Visit) (p : Principal) where
  is_foreign-named :
      is_foreign c v p ≡ false
      → (p.subject ≢ "")
        × (p.environment ≡ c.environment)
        × (c.environment ≢ "")
        × (v.path_value "tenant" ≢ "")
  unfolding is_foreign
  is_foreign-named h = (ground arith, ground arith, ground arith, ground arith)

  take_grant-eq-granted :
      (intent : String) (o : Option CaseGrant) (sc : Scope) (g : CaseGrant)
      → take_grant c v p intent o ≡ granted sc g
      → (o ≡ some g)
        × (is_other_grant c v p intent g ≡ false)
        × (sc ≡ granted_scope c v p g)
        × (sc.application_id ≢ "")
  unfolding take_grant
  take_grant-eq-granted intent none sc g h = cc
  take_grant-eq-granted intent (some x) sc g h = elim (Bool-cases (is_other_grant c v p intent x)) [
    | inl other ↦ absurd (ground arith)
    | inr same ↦ ground arith
  ]

  take_response-eq-granted :
      (intent : String) (r : Result Response) (sc : Scope) (g : CaseGrant)
      → take_response c v p intent r ≡ granted sc g
      → (response : Response) × (r ≡ ok response)
        × (response.status_code ≡ 200)
        × (take_grant c v p intent (c.decode (limited 8192 response.body)) ≡ granted sc g)
  unfolding take_response
  take_response-eq-granted intent (err e) sc g h = cc
  take_response-eq-granted intent (ok response) sc g h =
      (response, refl, ground arith, ground arith)

  is_other_grant-IsGranted :
      (intent : String) (n : ℕ) (g : CaseGrant) (response : Response)
      → c.upstream.send n (access_request c v intent) ≡ ok response
      → response.status_code ≡ 200
      → c.decode (limited 8192 response.body) ≡ some g
      → is_foreign c v p ≡ false
      → is_other_grant c v p intent g ≡ false
      → IsGranted c v intent n p g
  unfolding is_other_grant
  is_other_grant-IsGranted intent n g response sent succeeded decoded own same =
      let (named, here, set, tenant) = is_foreign-named own in
      record {
        response = response;
        sent = sent;
        succeeded = succeeded;
        decoded = decoded;
        application = ground arith;
        tenant = (ground arith, ground arith);
        environment = (ground arith, ground arith);
        party = ground arith;
        actor = ground arith;
        for_intent = ground arith;
        document = ground arith;
        digest = ground arith;
      }

  authorize_principal-IsAuthorised :
      (intent : String) (w w' : World) (sc : Scope) (g : CaseGrant)
      → v.principal ≡ some p
      → authorize_principal c v p intent w ≡ (granted sc g, w')
      → IsAuthorised c v intent w.calls sc g × (w' ≡ tick w)
  unfolding authorize_principal
  authorize_principal-IsAuthorised intent w w' sc g at h = elim (Bool-cases (is_foreign c v p)) [
    | inl foreign ↦ absurd (ground arith)
    | inr own ↦
        let (named, here, set, tenant) = is_foreign-named own in
        let (response, sent, succeeded, h') =
          take_response-eq-granted intent (c.upstream.send w.calls (access_request c v intent)) sc g
            (ground arith) in
        let (decoded, same, scope, application) =
          take_grant-eq-granted intent (c.decode (limited 8192 response.body)) sc g h' in
        (
          record {
            principal = p;
            visitor = at;
            named = named;
            here = here;
            grant =
                is_other_grant-IsGranted intent w.calls g response sent succeeded decoded own same;
            scope = scope;
            application = application;
          },
          ground arith,
        )
  ]

module _ (c : Setting) (s : Service) (v : Visit) (route : CaseRoute) where
  served :
      (o : Option Principal) (a : Access CaseGrant) (status : ℕ) (x : Payload) (w u w' : World)
      → v.principal ≡ o
      → authorize_case c v o (intent_of route) w ≡ (a, u)
      → serve_access c s v route (a, u) ≡ (written status x, w')
      → (sc : Scope) × (g : CaseGrant) × IsAuthorised c v (intent_of route) w.calls sc g
        × (serve_granted c s v sc g route (tick w) ≡ (written status x, w'))
  unfolding authorize_case serve_access
  served none a status x w u w' at h k = cc
  served (some p) (denied code reason) status x w u w' at h k = cc
  served (some p) (granted sc g) status x w u w' at h k =
      let (authorised, moved) =
        authorize_principal-IsAuthorised c v p (intent_of route) w u sc g at h in
      (
        sc,
        g,
        authorised,
        subst (λ y. serve_granted c s v sc g route y ≡ (written status x, w')) moved k,
      )

  -- A route for the documents of a case replies with anything but a problem only to a principal of
  -- the server's own environment, and after the decision engine granted this visit: the application,
  -- the tenant, the document and the digest of the request, the intent of the route, and the visitor
  -- as actor. The handler then runs under the granted scope.
  pub serve_case-IsAuthorised :
      (status : ℕ) (x : Payload) (w w' : World)
      → serve_case c s v route w ≡ (written status x, w')
      → (sc : Scope) × (g : CaseGrant) × IsAuthorised c v (intent_of route) w.calls sc g
        × (serve_granted c s v sc g route (tick w) ≡ (written status x, w'))
  unfolding serve_case
  serve_case-IsAuthorised status x w w' h =
      let answer = authorize_case c v v.principal (intent_of route) w in
      served v.principal answer.0 status x w answer.1 w' refl refl h
