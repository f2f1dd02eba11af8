-- ===== src/PartyClient.antt =====
-- internal/party/client.go: what Client.Exists takes for the existence of a party. The HTTP client,
-- url.PathEscape and encoding/json are parameters.
use Prim.Native.String
use file_storage_bucket.Common.{
  ℕ, String, Bool, false, not, ◌&&◌, ◌||◌, List, length, ltb, nat_eq, ◌≡◌, ◌≢◌, ◌⊎◌, arith, refl,
  ◌==◌, if◌then◌else◌,
}
use file_storage_bucket.Documents.Types.{Result, ok, err, failure, Body}
use file_storage_bucket.Documents.Upload.{read_limited}

pub record Response : Type 0 where
  pub status_code : ℕ
  pub body : Body

-- the two names under which a response gives the identity
pub record Identity : Type 0 where
  pub party_id : String
  pub legacy_id : String

pub record Client : Type 0 where
  pub base : String
  -- a GET of the URL, with the tenant and the environment as headers
  pub get : String → String → String → Result Response
  pub path_escape : String → String
  pub unmarshal : List ℕ → Result Identity

unfoldable pub is_mismatch : String → Identity → Bool
is_mismatch id out =
    (out.party_id == "" && out.legacy_id == "")
    || (not (out.party_id == "") && not (out.party_id == id))
    || (not (out.legacy_id == "") && not (out.legacy_id == id))

unfoldable pub check_identity : String → Result Identity → Result (Unit {0})
check_identity id (err e) = err e
check_identity id (ok out) = if is_mismatch id out then err failure else ok tt

unfoldable pub check_data : Client → String → Result (List ℕ) → Result (Unit {0})
unfolding check_identity
check_data c id (err e) = err failure
check_data c id (ok bytes) =
    if ltb 1048576 (length bytes) then err failure else check_identity id (c.unmarshal bytes)

unfoldable pub check_response : Client → String → Result Response → Result (Unit {0})
unfolding check_data
check_response c id (err e) = err e
check_response c id (ok resp) =
    if not (nat_eq resp.status_code 200)
    then err failure
    else check_data c id (read_limited 1048577 resp.body)

unfoldable pub party_url : Client → String → String
party_url c id = String.◌++◌ c.base (String.◌++◌ "/v1/parties/" (c.path_escape id))

unfoldable pub exists : Client → String → String → String → Result (Unit {0})
unfolding check_response party_url
exists c tenant environment id =
    if tenant == ""
      || id == ""
      || (not (environment == "sandbox") && not (environment == "production"))
    then err failure
    else check_response c id (c.get (party_url c id) tenant environment)

-- the party service named the party, and nothing else
pub record IsConfirmed (c : Client) (tenant environment id : String) : Type 0 where
  pub scoped : (tenant ≢ "") × (id ≢ "")
  pub environments : (environment ≡ "sandbox") ⊎ (environment ≡ "production")
  pub response : Response
  pub got : c.get (party_url c id) tenant environment ≡ ok response
  pub succeeded : response.status_code ≡ 200
  pub bytes : List ℕ
  pub whole : read_limited 1048577 response.body ≡ ok bytes
  pub bounded : ltb 1048576 (length bytes) ≡ false
  pub identity : Identity
  pub decoded : c.unmarshal bytes ≡ ok identity
  pub named : (identity.party_id ≡ id) ⊎ (identity.legacy_id ≡ id)
  pub agreed :
      ((identity.party_id ≡ "") ⊎ (identity.party_id ≡ id))
      × ((identity.legacy_id ≡ "") ⊎ (identity.legacy_id ≡ id))

check_identity-eq-ok :
    (id : String) (r : Result Identity)
    → check_identity id r ≡ ok tt
    → (out : Identity) × (r ≡ ok out)
      × ((out.party_id ≡ id) ⊎ (out.legacy_id ≡ id))
      × (((out.party_id ≡ "") ⊎ (out.party_id ≡ id))
          × ((out.legacy_id ≡ "") ⊎ (out.legacy_id ≡ id)))
unfolding check_identity is_mismatch
check_identity-eq-ok id (err e) h = cc
check_identity-eq-ok id (ok out) h = (out, refl, ground arith, ground arith)

check_data-eq-ok :
    (c : Client) (id : String) (r : Result (List ℕ))
    → check_data c id r ≡ ok tt
    → (bytes : List ℕ) × (r ≡ ok bytes)
      × (ltb 1048576 (length bytes) ≡ false)
      × (check_identity id (c.unmarshal bytes) ≡ ok tt)
unfolding check_data
check_data-eq-ok c id (err e) h = cc
check_data-eq-ok c id (ok bytes) h = (bytes, refl, ground arith, ground arith)

check_response-eq-ok :
    (c : Client) (id : String) (r : Result Response)
    → check_response c id r ≡ ok tt
    → (resp : Response) × (r ≡ ok resp)
      × (resp.status_code ≡ 200)
      × (check_data c id (read_limited 1048577 resp.body) ≡ ok tt)
unfolding check_response
check_response-eq-ok c id (err e) h = cc
check_response-eq-ok c id (ok resp) h = (resp, refl, ground arith, ground arith)

-- A party is taken to exist only in an explicit tenant and in one of the two party environments, and
-- only where the party service answered with status 200 and at most one MiB that names the party
-- under one of the two fields, and no other party under either.
pub exists-IsConfirmed :
    (c : Client) (tenant environment id : String)
    → exists c tenant environment id ≡ ok tt
    → IsConfirmed c tenant environment id
unfolding exists
exists-IsConfirmed c tenant environment id h =
    let (response, got, succeeded, h') =
      check_response-eq-ok c id (c.get (party_url c id) tenant environment) (ground arith) in
    let (bytes, whole, bounded, h'') =
      check_data-eq-ok c id (read_limited 1048577 response.body) h' in
    let (identity, decoded, named, agreed) = check_identity-eq-ok id (c.unmarshal bytes) h'' in
    record {
      scoped = (ground arith, ground arith);
      environments = ground arith;
      response = response;
      got = got;
      succeeded = succeeded;
      bytes = bytes;
      whole = whole;
      bounded = bounded;
      identity = identity;
      decoded = decoded;
      named = named;
      agreed = agreed;
    }
