-- ===== src/Startup.antt =====
-- cmd/api/main.go, up to the listening server, and the constructors that it calls: party.New, auth.New,
-- objectstore.New, documents.New, and the admission that httpserver.New sets up. The libraries for
-- PostgreSQL, S3, OAuth and OpenID Connect are parameters.
pub mod Inversion
pub mod Secured
use file_storage_bucket.Common.{
  ℕ, String, Bool, true, false, not, ◌||◌, Option, none, some, List, [], ◌∷◌, ◌==◌, if◌then◌else◌,
}
use file_storage_bucket.Text.{trim_right_slashes}
use file_storage_bucket.Documents.Types.{
  Result, ok, err, failure, Database, Platform, Party, Service,
}
use file_storage_bucket.Auth.{Claims, Caller, Admission, authenticate}
use file_storage_bucket.PartyClient
use file_storage_bucket.PartyClient.{Response, Identity, exists}
use file_storage_bucket.Config.{
  Config, Loading, configuration_required, local_only, oidc_required, loaded, load,
}
use file_storage_bucket.Objectstore
use file_storage_bucket.Objectstore.{Store, ensure_bucket}

-- clientcredentials.Config, without its AuthStyle
pub record Credentials : Type 0 where
  pub client_id : String
  pub client_secret : String
  pub token_url : String
  pub scopes : List String

-- What the command is given: the environment, and the libraries. `get` is http.Client.Do for a GET
-- with the tenant and the environment as headers, with the tokens of the credentials where there are
-- some; `new_provider` is oidc.NewProvider, then IDTokenVerifier.Verify and IDToken.Claims.
pub record Host : Type 0 where
  pub getenv : String → String
  pub open_pool : String → Result Database
  pub new_s3_client : (endpoint region key secret : String) → Objectstore.Client
  pub get : Option Credentials → ℕ → String → String → String → Result Response
  pub path_escape : String → String
  pub unmarshal : List ℕ → Result Identity
  pub new_provider : (issuer : String) → Result ((audience : String) → String → Result Claims)
  pub platform : Platform

-- a server that listens
pub record Server : Type 0 where
  pub config : Config
  pub service : Service
  pub verifier : Option (String → Result Claims)

-- the message of the log before os.Exit(1), or the server
pub data Startup : Type 0 where
  exited : String → Startup
  serving : Server → Startup

unfoldable pub for_audience :
    String → Result (String → String → Result Claims) → Result (String → Result Claims)
for_audience audience (err e) = err e
for_audience audience (ok verifier) = ok (verifier audience)

unfoldable pub start_verified : Config → Service → Result (String → Result Claims) → Startup
start_verified c s (err e) = exited "OIDC unavailable"
start_verified c s (ok v) = serving (record { config = c; service = s; verifier = some v })

module _ (h : Host) where
  -- the client of party.New, at each call
  abbrev pub party_client : String → Option Credentials → ℕ → PartyClient.Client
  party_client base credentials at = record {
    base = trim_right_slashes base;
    get = h.get credentials at;
    path_escape = h.path_escape;
    unmarshal = h.unmarshal;
  }

  -- New of internal/party/client.go
  unfoldable pub new_party :
      String → String → String → String → Bool → Result (ℕ → PartyClient.Client)
  new_party base token_url id secret local =
      if not (token_url == "") || not (id == "") || not (secret == "")
      then if token_url == "" || id == "" || secret == ""
        then err failure
        else ok (
            party_client base (
              some (record {
                client_id = id;
                client_secret = secret;
                token_url = token_url;
                scopes = "party.read" ∷ [];
              })))
      else if not local
      then err failure
      else ok (party_client base none)

  -- the Party interface of the service
  abbrev pub parties_of : (ℕ → PartyClient.Client) → Party
  parties_of client = record { exists = λ at. exists (client at) }

  -- New of internal/objectstore/s3.go
  abbrev pub new_store : Config → Store
  new_store c = record {
    client = h.new_s3_client c.s3_endpoint c.s3_region c.s3_access_key c.s3_secret_key;
    bucket = c.s3_bucket;
  }

  -- documents.New, with the arguments of main
  abbrev pub new_service : Config → Database → (ℕ → PartyClient.Client) → Service
  new_service c db client = record {
    db = db;
    party = parties_of client;
    objects = Objectstore.objects (new_store c);
    bucket = c.s3_bucket;
    upload_ttl = c.upload_ttl;
    download_ttl = c.download_ttl;
    platform = h.platform;
  }

  -- New of internal/auth/auth.go
  unfoldable pub new_verifier : String → String → Result (String → Result Claims)
  unfolding for_audience
  new_verifier issuer audience = for_audience audience (h.new_provider issuer)

  -- from the choice of the verifier on
  unfoldable pub start_server : Config → Service → Startup
  unfolding new_verifier start_verified
  start_server c s =
      if c.auth_mode == "oidc"
      then start_verified c s (new_verifier c.oidc_issuer c.oidc_audience)
      else serving (record { config = c; service = s; verifier = none })

  unfoldable pub start_parties : Config → Database → Result (ℕ → PartyClient.Client) → Startup
  unfolding start_server
  start_parties c db (err e) = exited "Party Platform unavailable"
  start_parties c db (ok client) = start_server c (new_service c db client)

  -- from EnsureBucket on
  unfoldable pub start_objects : Config → Database → Result (Unit {0}) → Startup
  unfolding new_party start_parties
  start_objects c db (err e) = exited "object storage unavailable"
  start_objects c db (ok u) = start_parties c db (
      new_party c.party_base_url c.party_token_url c.party_client_id c.party_client_secret
        (c.auth_mode == "disabled"))

  unfoldable pub start_database : Config → Result Database → Startup
  unfolding start_objects ensure_bucket
  start_database c (err e) = exited "database unavailable"
  start_database c (ok db) = start_objects c db (ensure_bucket (new_store c) 0)

  unfoldable pub start_loaded : Loading → Startup
  unfolding start_database
  start_loaded (loaded c) = start_database c (h.open_pool c.database_url)
  start_loaded configuration_required = exited "configuration rejected"
  start_loaded local_only = exited "configuration rejected"
  start_loaded oidc_required = exited "configuration rejected"

  -- main
  unfoldable pub start : Startup
  unfolding start_loaded load
  start = start_loaded (load h.getenv)

-- the verifier that authenticate is given; it is nil only where authentication is disabled
unfoldable pub claims_of : Option (String → Result Claims) → String → Result Claims
claims_of (some claims) token = claims token
claims_of none token = err failure

-- the handler that httpserver.New puts around the routes
unfoldable pub admission : Server → Caller → Admission
unfolding authenticate claims_of
admission v r =
    authenticate (v.config.auth_mode == "disabled") v.config.environment (claims_of v.verifier) r
