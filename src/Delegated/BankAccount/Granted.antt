-- ===== src/Delegated/BankAccount/Granted.antt =====
-- authorizeBankAccount: on whose word a scope is given.
use file_storage_bucket.Common.{
  ℕ, ◌≤◌, String, len, Option, none, some, false, List, length, ltb, ◌≡◌, ◌≢◌, ◌⊎◌, inl, inr, refl,
  subst, arith, Bool-cases,
}
use file_storage_bucket.Text.{trim_space}
use file_storage_bucket.Documents.Types.{Scope, Result, ok, err, Service}
use file_storage_bucket.Documents.Exec.{World, tick}
use file_storage_bucket.Documents.Upload.{read_limited}
use file_storage_bucket.Auth.{Principal}
use file_storage_bucket.PartyClient.{Response}
use file_storage_bucket.Http.{Payload, written}
use file_storage_bucket.Delegated.{Visit, Access, denied, granted}
use file_storage_bucket.Delegated.Payment.Granted.{IsStaff}
use file_storage_bucket.Delegated.BankAccount.{
  AccountGrant, Query, AccountScope, Parsed, malformed, ambiguous, explicit, parse_scope, Setting,
  AccountRoute, intent_of, is_foreign, access_request, is_other_grant, granted_scope, take_grant,
  take_data, take_response, authorize_scope, authorize_account, serve_granted, serve_access,
  serve_account,
}
use file_storage_bucket.Delegated.BankAccount.Explicit.{IsExplicit, parse_scope-IsExplicit}

-- Payment Rails answered the request for this visit with this grant, which is for this visit
pub record IsGranted (c : Setting) (v : Visit) (q : AccountScope) (intent : String) (n : ℕ)
    (p : Principal) (g : AccountGrant) : Type 0 where
  pub response : Response
  pub sent : c.upstream.send n (access_request c v q intent) ≡ ok response
  pub succeeded : response.status_code ≡ 200
  pub bytes : List ℕ
  pub whole : read_limited 8193 response.body ≡ ok bytes
  pub bounded : length bytes ≤ 8192
  pub decoded : c.unmarshal bytes ≡ some g
  pub account :
      (g.account_id ≡ v.path_value "account") × (g.account_id ≢ "") × (len g.account_id ≤ 128)
  pub tenant : g.tenant_id ≡ q.tenant
  pub environment : g.environment ≡ c.environment
  pub owner : (g.owner_id ≢ "") × (len g.owner_id ≤ 128) × (trim_space g.owner_id ≡ g.owner_id)
  pub owner_type :
      ((q.tenant ≡ "") × (g.owner_type ≡ "legal_entity"))
      ⊎ ((q.tenant ≢ "") × (g.owner_type ≡ "party"))
  pub actor : g.actor ≡ p.subject
  pub for_intent : g.intent ≡ intent
  pub document : g.document_id ≡ v.path_value "id"
  pub digest : g.sha256 ≡ q.digest

pub record IsAuthorised (c : Setting) (s : Service) (v : Visit) (intent : String) (n : ℕ)
    (sc : Scope) (g : AccountGrant) : Type 0 where
  pub principal : Principal
  pub visitor : v.principal ≡ some principal
  pub staff : IsStaff c.environment principal
  pub party : principal.authorized_party ≢ ""
  pub asked : AccountScope
  pub query : Query
  pub sent_query : v.parsed ≡ some query
  pub named : IsExplicit query asked
  pub parsed : parse_scope v.parsed ≡ explicit asked
  pub grant : IsGranted c v asked intent n principal g
  pub scope : sc ≡ granted_scope c s v principal g

module _ (c : Setting) (s : Service) (v : Visit) (p : Principal) where
  is_foreign-IsStaff :
      is_foreign c v p ≡ false
      → IsStaff c.environment p
        × (p.authorized_party ≢ "")
        × (v.path_value "account" ≢ "")
        × (len (v.path_value "account") ≤ 128)
  unfolding is_foreign
  is_foreign-IsStaff h = (
    record {
      named = ground arith;
      no_tenant = ground arith;
      no_application = ground arith;
      here = ground arith;
      live = ground arith;
    },
    ground arith,
    ground arith,
    ground arith,
  )

  -- what is left of the checks once the answer was read
  record IsTaken (q : AccountScope) (intent : String) (bytes : List ℕ) (sc : Scope)
      (g : AccountGrant) : Type 0 where
    decoded : c.unmarshal bytes ≡ some g
    bounded : length bytes ≤ 8192
    same : is_other_grant c v p q intent g ≡ false
    scope : sc ≡ granted_scope c s v p g

  take_grant-eq-granted :
      (q : AccountScope) (intent : String) (o : Option AccountGrant) (sc : Scope) (g : AccountGrant)
      → take_grant c s v p q intent o ≡ granted sc g
      → (o ≡ some g) × (is_other_grant c v p q intent g ≡ false) × (sc ≡ granted_scope c s v p g)
  unfolding take_grant
  take_grant-eq-granted q intent none sc g h = cc
  take_grant-eq-granted q intent (some x) sc g h =
      elim (Bool-cases (is_other_grant c v p q intent x)) [
        | inl other ↦ absurd (ground arith)
        | inr same ↦ ground arith
      ]

  take_data-IsTaken :
      (q : AccountScope) (intent : String) (r : Result (List ℕ)) (sc : Scope) (g : AccountGrant)
      → take_data c s v p q intent r ≡ granted sc g
      → (bytes : List ℕ) × (r ≡ ok bytes) × IsTaken q intent bytes sc g
  unfolding take_data
  take_data-IsTaken q intent (err e) sc g h = cc
  take_data-IsTaken q intent (ok bytes) sc g h = elim (Bool-cases (ltb 8192 (length bytes))) [
    | inl long ↦ absurd (ground arith)
    | inr short ↦
        let (decoded, same, scope) =
          take_grant-eq-granted q intent (c.unmarshal bytes) sc g (ground arith) in
        (
          bytes,
          refl,
          record { decoded = decoded; bounded = ground arith; same = same; scope = scope },
        )
  ]

  take_response-eq-granted :
      (q : AccountScope) (intent : String) (r : Result Response) (sc : Scope) (g : AccountGrant)
      → take_response c s v p q intent r ≡ granted sc g
      → (response : Response) × (r ≡ ok response)
        × (response.status_code ≡ 200)
        × (take_data c s v p q intent (read_limited 8193 response.body) ≡ granted sc g)
  unfolding take_response
  take_response-eq-granted q intent (err e) sc g h = cc
  take_response-eq-granted q intent (ok response) sc g h =
      (response, refl, ground arith, ground arith)

  is_other_grant-IsGranted :
      (q : AccountScope) (intent : String) (n : ℕ) (sc : Scope) (g : AccountGrant)
      (response : Response) (bytes : List ℕ)
      → c.upstream.send n (access_request c v q intent) ≡ ok response
      → response.status_code ≡ 200
      → read_limited 8193 response.body ≡ ok bytes
      → v.path_value "account" ≢ ""
      → len (v.path_value "account") ≤ 128
      → IsTaken q intent bytes sc g
      → IsGranted c v q intent n p g
  unfolding is_other_grant
  is_other_grant-IsGranted q intent n sc g response bytes sent succeeded whole account short k =
      let same = k.same in
      let account_same : g.account_id ≡ v.path_value "account" = ground arith in
      record {
        response = response;
        sent = sent;
        succeeded = succeeded;
        bytes = bytes;
        whole = whole;
        bounded = k.bounded;
        decoded = k.decoded;
        account = (account_same, rw account_same account, rw account_same short);
        tenant = ground arith;
        environment = ground arith;
        owner = (ground arith, ground arith, ground arith);
        owner_type = ground arith;
        actor = ground arith;
        for_intent = ground arith;
        document = ground arith;
        digest = ground arith;
      }

  authorize_scope-IsAuthorised :
      (intent : String) (w w' : World) (sc : Scope) (g : AccountGrant) (q : Parsed)
      → v.principal ≡ some p
      → parse_scope v.parsed ≡ q
      → is_foreign c v p ≡ false
      → authorize_scope c s v p intent q w ≡ (granted sc g, w')
      → IsAuthorised c s v intent w.calls sc g × (w' ≡ tick w)
  unfolding authorize_scope
  authorize_scope-IsAuthorised intent w w' sc g malformed at parsed own h = cc
  authorize_scope-IsAuthorised intent w w' sc g ambiguous at parsed own h = cc
  authorize_scope-IsAuthorised intent w w' sc g (explicit q) at parsed own h =
      let (staff, party, account, short) = is_foreign-IsStaff own in
      let (query, sent_query, named) = parse_scope-IsExplicit v.parsed q parsed in
      let (response, sent, succeeded, h') =
        take_response-eq-granted q intent (c.upstream.send w.calls (access_request c v q intent)) sc
          g (ground arith) in
      let (bytes, whole, k) =
        take_data-IsTaken q intent (read_limited 8193 response.body) sc g h' in
      (
        record {
          principal = p;
          visitor = at;
          staff = staff;
          party = party;
          asked = q;
          query = query;
          sent_query = sent_query;
          named = named;
          parsed = parsed;
          grant =
              is_other_grant-IsGranted q intent w.calls sc g response bytes sent succeeded whole
                account short k;
          scope = k.scope;
        },
        ground arith,
      )

module _ (c : Setting) (s : Service) (v : Visit) (route : AccountRoute) where
  served :
      (o : Option Principal) (a : Access AccountGrant) (status : ℕ) (x : Payload) (w u w' : World)
      → v.principal ≡ o
      → authorize_account c s v o (intent_of route) w ≡ (a, u)
      → serve_access c s v route (a, u) ≡ (written status x, w')
      → (sc : Scope) × (g : AccountGrant) × IsAuthorised c s v (intent_of route) w.calls sc g
        × (serve_granted c s v sc g route (tick w) ≡ (written status x, w'))
  unfolding authorize_account serve_access
  served none a status x w u w' at h k = cc
  served (some p) (denied code reason) status x w u w' at h k = cc
  served (some p) (granted sc g) status x w u w' at h k = elim (Bool-cases (is_foreign c v p)) [
    | inl foreign ↦ absurd (ground arith)
    | inr own ↦
        let (authorised, moved) =
          authorize_scope-IsAuthorised c s v p (intent_of route) w u sc g (parse_scope v.parsed) at
            refl own (ground arith) in
        (
          sc,
          g,
          authorised,
          subst (λ y. serve_granted c s v sc g route y ≡ (written status x, w')) moved k,
        )
  ]

  -- A route for evidence of bank accounts replies with anything but a problem only to staff of the
  -- server's own live environment without a tenant of their own, for a query that besides at most one
  -- digest has one pair only, with a single tenant_id or with owner_scope=lender, and after Payment Rails granted this visit: the account, the tenant, the
  -- document and the digest of the request, the intent of the route, the visitor as actor, and an
  -- owner that is a party of the tenant or a legal entity of the lender. The handler then runs under
  -- the granted scope.
  pub serve_account-IsAuthorised :
      (status : ℕ) (x : Payload) (w w' : World)
      → serve_account c s v route w ≡ (written status x, w')
      → (sc : Scope) × (g : AccountGrant) × IsAuthorised c s v (intent_of route) w.calls sc g
        × (serve_granted c s v sc g route (tick w) ≡ (written status x, w'))
  unfolding serve_account
  serve_account-IsAuthorised status x w w' h =
      let answer = authorize_account c s v v.principal (intent_of route) w in
      served v.principal answer.0 status x w answer.1 w' refl refl h
