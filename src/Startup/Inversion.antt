-- ===== src/Startup/Inversion.antt =====
-- What has happened where a step of the start went on.
use file_storage_bucket.Common.{
  ℕ, String, Bool, true, Option, none, some, [], ◌∷◌, ◌==◌, ◌≡◌, ◌≢◌, ◌⊎◌, inl, inr, refl, ap,
  arith, Bool-cases,
}
use file_storage_bucket.Documents.Types.{Result, ok, err, Database, Service}
use file_storage_bucket.Auth.{Claims}
use file_storage_bucket.PartyClient
use file_storage_bucket.Config.{
  Config, Loading, configuration_required, local_only, oidc_required, loaded,
}
use file_storage_bucket.Objectstore.{
  Store, Creation, created, already_owned_by_you, refused, made_bucket, after_head, ensure_bucket,
}
use file_storage_bucket.Startup.{
  Host, Server, serving, party_client, new_party, new_store, new_service, for_audience,
  new_verifier, start_verified, start_server, start_parties, start_objects, start_database,
  start_loaded,
}

-- the bucket was there, or was created, or is this account's already
pub data HasBucket (s : Store) : Type 0 where
  found : s.client.head_bucket 0 s.bucket ≡ ok tt → HasBucket s
  made : s.client.create_bucket 0 s.bucket ≡ created → HasBucket s
  owned : s.client.create_bucket 0 s.bucket ≡ already_owned_by_you → HasBucket s

made_bucket-eq-ok :
    (s : Store) (x : Creation)
    → s.client.create_bucket 0 s.bucket ≡ x
    → made_bucket x ≡ ok tt
    → HasBucket s
unfolding made_bucket
made_bucket-eq-ok s created is k = made is
made_bucket-eq-ok s already_owned_by_you is k = owned is
made_bucket-eq-ok s refused is k = cc

after_head-HasBucket :
    (s : Store) (r : Result (Unit {0}))
    → s.client.head_bucket 0 s.bucket ≡ r
    → after_head s 0 r ≡ ok tt
    → HasBucket s
unfolding after_head
after_head-HasBucket s (ok u) is e = found is
after_head-HasBucket s (err x) is e = made_bucket-eq-ok s (s.client.create_bucket 0 s.bucket) refl e

pub ensure_bucket-HasBucket : (s : Store) → ensure_bucket s 0 ≡ ok tt → HasBucket s
unfolding ensure_bucket
ensure_bucket-HasBucket s e = after_head-HasBucket s (s.client.head_bucket 0 s.bucket) refl e

module _ (h : Host) where
  pub new_party-eq-ok :
      (base token_url id secret : String) (local : Bool) (client : ℕ → PartyClient.Client)
      → new_party h base token_url id secret local ≡ ok client
      → ((client
            ≡ party_client h base (
                some (record {
                  client_id = id;
                  client_secret = secret;
                  token_url = token_url;
                  scopes = "party.read" ∷ [];
                })))
          × (token_url ≢ "")
          × (id ≢ "")
          × (secret ≢ ""))
        ⊎ (local ≡ true)
  unfolding new_party
  new_party-eq-ok base token_url id secret local client e = ground arith

  for_audience-eq-ok :
      (audience : String) (r : Result (String → String → Result Claims))
      (claims : String → Result Claims)
      → for_audience audience r ≡ ok claims
      → (make : String → String → Result Claims) × (r ≡ ok make) × (claims ≡ make audience)
  unfolding for_audience
  for_audience-eq-ok audience (err e) claims k = cc
  for_audience-eq-ok audience (ok make) claims k = (make, refl, cc)

  start_verified-eq-serving :
      (c : Config) (s : Service) (r : Result (String → Result Claims)) (v : Server)
      → start_verified c s r ≡ serving v
      → (claims : String → Result Claims) × (r ≡ ok claims)
        × (v ≡ record { config = c; service = s; verifier = some claims })
  unfolding start_verified
  start_verified-eq-serving c s (err e) v k = cc
  start_verified-eq-serving c s (ok claims) v k = (claims, refl, cc)

  -- the verifier of a server, where its configuration asks for one
  abbrev pub HasVerifier : Config → Option (String → Result Claims) → Type 0
  HasVerifier c o =
      ((make : String → String → Result Claims) × (h.new_provider c.oidc_issuer ≡ ok make)
        × (o ≡ some (make c.oidc_audience))
        × (c.auth_mode ≡ "oidc"))
      ⊎ (c.auth_mode ≢ "oidc")

  pub start_server-eq-serving :
      (c : Config) (s : Service) (v : Server)
      → start_server h c s ≡ serving v
      → (o : Option (String → Result Claims)) × (v
          ≡ record { config = c; service = s; verifier = o })
        × HasVerifier c o
  unfolding start_server new_verifier
  start_server-eq-serving c s v k = elim (Bool-cases (c.auth_mode == "oidc")) [
    | inl oidc ↦
        let (claims, ready, is) =
          start_verified-eq-serving c s (new_verifier h c.oidc_issuer c.oidc_audience) v
            (ground arith) in
        let (make, provided, same) =
          for_audience-eq-ok c.oidc_audience (h.new_provider c.oidc_issuer) claims ready in
        (some claims, is, inl (make, provided, ap some same, ground arith))
    | inr other ↦ (none, ground arith, inr (ground arith))
  ]

  pub start_parties-eq-serving :
      (c : Config) (db : Database) (r : Result (ℕ → PartyClient.Client)) (v : Server)
      → start_parties h c db r ≡ serving v
      → (client : ℕ → PartyClient.Client) × (r ≡ ok client)
        × (start_server h c (new_service h c db client) ≡ serving v)
  unfolding start_parties
  start_parties-eq-serving c db (err e) v k = cc
  start_parties-eq-serving c db (ok client) v k = (client, refl, k)

  pub start_objects-eq-serving :
      (c : Config) (db : Database) (r : Result (Unit {0})) (v : Server)
      → start_objects h c db r ≡ serving v
      → (r ≡ ok tt)
        × (start_parties h c db (
              new_party h c.party_base_url c.party_token_url c.party_client_id c.party_client_secret
                (c.auth_mode == "disabled"))
            ≡ serving v)
  unfolding start_objects
  start_objects-eq-serving c db (err e) v k = cc
  start_objects-eq-serving c db (ok u) v k = (refl, k)

  pub start_database-eq-serving :
      (c : Config) (r : Result Database) (v : Server)
      → start_database h c r ≡ serving v
      → (db : Database) × (r ≡ ok db)
        × (start_objects h c db (ensure_bucket (new_store h c) 0) ≡ serving v)
  unfolding start_database
  start_database-eq-serving c (err e) v k = cc
  start_database-eq-serving c (ok db) v k = (db, refl, k)

  pub start_loaded-eq-serving :
      (l : Loading) (v : Server)
      → start_loaded h l ≡ serving v
      → (c : Config) × (l ≡ loaded c)
        × (start_database h c (h.open_pool c.database_url) ≡ serving v)
  unfolding start_loaded
  start_loaded-eq-serving (loaded c) v k = (c, refl, k)
  start_loaded-eq-serving configuration_required v k = cc
  start_loaded-eq-serving local_only v k = cc
  start_loaded-eq-serving oidc_required v k = cc
