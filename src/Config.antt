-- ===== src/Config.antt =====
-- internal/config/config.go: the configuration that Load reads from the environment, and refuses.
use file_storage_bucket.Common.{
  ℕ, String, Bool, true, false, not, ◌||◌, ◌≡◌, ◌≢◌, ◌⊎◌, arith, ◌==◌, subst, sym, if◌then◌else◌,
}
use file_storage_bucket.Text.{trim_space, trim_right_slashes}

-- durations are in microseconds
pub record Config : Type 0 where
  pub payment_rails_base_url : String
  pub decision_engine_base_url : String
  pub environment : String
  pub http_address : String
  pub database_url : String
  pub auth_mode : String
  pub oidc_issuer : String
  pub oidc_audience : String
  pub party_base_url : String
  pub party_token_url : String
  pub party_client_id : String
  pub party_client_secret : String
  pub s3_endpoint : String
  pub s3_region : String
  pub s3_access_key : String
  pub s3_secret_key : String
  pub s3_bucket : String
  pub clam_address : String
  pub upload_ttl : ℕ
  pub download_ttl : ℕ
  pub scan_interval : ℕ

-- the three errors of Load, and the configuration
pub data Loading : Type 0 where
  configuration_required local_only oidc_required : Loading
  loaded : Config → Loading

unfoldable pub value : (String → String) → String → String → String
value getenv name fallback =
    let v = trim_space (getenv name) in if not (v == "") then v else fallback

abbrev trimmed_env : (String → String) → String → String
trimmed_env getenv name = trim_space (getenv name)

unfoldable pub read_config : (String → String) → Config
unfolding value
read_config getenv = record {
  payment_rails_base_url =
      trim_right_slashes (trimmed_env getenv "DOCUMENT_PAYMENT_RAILS_BASE_URL");
  decision_engine_base_url =
      trim_right_slashes (trimmed_env getenv "DOCUMENT_DECISION_ENGINE_BASE_URL");
  environment = value getenv "DOCUMENT_ENVIRONMENT" "local";
  http_address = value getenv "DOCUMENT_HTTP_ADDRESS" ":8080";
  database_url = trimmed_env getenv "DOCUMENT_DATABASE_URL";
  auth_mode = value getenv "DOCUMENT_AUTH_MODE" "oidc";
  oidc_issuer = trim_right_slashes (trimmed_env getenv "DOCUMENT_OIDC_ISSUER");
  oidc_audience = trimmed_env getenv "DOCUMENT_OIDC_AUDIENCE";
  party_base_url = trim_right_slashes (trimmed_env getenv "DOCUMENT_PARTY_BASE_URL");
  party_token_url = trimmed_env getenv "DOCUMENT_PARTY_TOKEN_URL";
  party_client_id = trimmed_env getenv "DOCUMENT_PARTY_CLIENT_ID";
  party_client_secret = trimmed_env getenv "DOCUMENT_PARTY_CLIENT_SECRET";
  s3_endpoint = trim_right_slashes (trimmed_env getenv "DOCUMENT_S3_ENDPOINT");
  s3_region = value getenv "DOCUMENT_S3_REGION" "zm-lusaka-1";
  s3_access_key = trimmed_env getenv "DOCUMENT_S3_ACCESS_KEY";
  s3_secret_key = trimmed_env getenv "DOCUMENT_S3_SECRET_KEY";
  s3_bucket = trimmed_env getenv "DOCUMENT_S3_BUCKET";
  clam_address = value getenv "DOCUMENT_CLAM_ADDRESS" "clamav:3310";
  upload_ttl = 900000000;
  download_ttl = 300000000;
  scan_interval = 2000000;
}

unfoldable pub allowed_environment : String → Bool
allowed_environment e =
    e == "local" || e == "dev" || e == "sandbox" || e == "staging" || e == "production"

unfoldable pub is_incomplete : Config → Bool
is_incomplete c =
    not (allowed_environment c.environment)
    || c.database_url == ""
    || c.party_base_url == ""
    || c.s3_endpoint == ""
    || c.s3_access_key == ""
    || c.s3_secret_key == ""
    || c.s3_bucket == ""

-- the checks of Load on what it read
unfoldable pub check_config : Config → Loading
check_config c =
    if is_incomplete c
    then configuration_required
    else if c.auth_mode == "disabled"
    then if not (c.environment == "local") then local_only else loaded c
    else if not (c.auth_mode == "oidc") || c.oidc_issuer == "" || c.oidc_audience == ""
    then oidc_required
    else loaded c

unfoldable pub load : (String → String) → Loading
unfolding read_config check_config
load getenv = check_config (read_config getenv)

-- a configuration with which the service may start
pub record IsUsable (c : Config) : Type 0 where
  pub environment : allowed_environment c.environment ≡ true
  pub database : c.database_url ≢ ""
  pub party : c.party_base_url ≢ ""
  pub endpoint : c.s3_endpoint ≢ ""
  pub access_key : c.s3_access_key ≢ ""
  pub secret_key : c.s3_secret_key ≢ ""
  pub bucket : c.s3_bucket ≢ ""
  pub authentication :
      ((c.auth_mode ≡ "disabled") × (c.environment ≡ "local"))
      ⊎ ((c.auth_mode ≡ "oidc") × (c.oidc_issuer ≢ "") × (c.oidc_audience ≢ ""))

complete-IsUsable :
    (c : Config)
    → is_incomplete c ≡ false
    → ((c.auth_mode ≡ "disabled") × (c.environment ≡ "local"))
      ⊎ ((c.auth_mode ≡ "oidc") × (c.oidc_issuer ≢ "") × (c.oidc_audience ≢ ""))
    → IsUsable c
unfolding is_incomplete
complete-IsUsable c h auth = record {
  environment = ground arith;
  database = ground arith;
  party = ground arith;
  endpoint = ground arith;
  access_key = ground arith;
  secret_key = ground arith;
  bucket = ground arith;
  authentication = auth;
}

check_config-eq-loaded :
    (c c' : Config)
    → check_config c ≡ loaded c'
    → (c' ≡ c)
      × (is_incomplete c ≡ false)
      × (((c.auth_mode ≡ "disabled") × (c.environment ≡ "local"))
          ⊎ ((c.auth_mode ≡ "oidc") × (c.oidc_issuer ≢ "") × (c.oidc_audience ≢ "")))
unfolding check_config
check_config-eq-loaded c c' h = ground arith

-- A configuration that Load returns is the one it read; it names an allowed environment, the
-- database, the party service and the object store, and its authentication is either disabled in the
-- local environment or OIDC with an issuer and an audience.
pub load-IsUsable :
    (getenv : String → String) (c : Config)
    → load getenv ≡ loaded c
    → (c ≡ read_config getenv) × IsUsable c
unfolding load
load-IsUsable getenv c h =
    let (is, whole, auth) = check_config-eq-loaded (read_config getenv) c h in
    (is, subst IsUsable (sym is) (complete-IsUsable (read_config getenv) whole auth))
