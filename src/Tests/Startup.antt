-- ===== src/Tests/Startup.antt =====
-- The theorems on the start of the server at concrete inputs.
use file_storage_bucket.Common.{
  ℕ, String, [], ◌∷◌, some, refl, ◌≡◌, ◌≢◌, if◌then◌else◌, ◌==◌, String_discrete, ne_of_differ,
}
use file_storage_bucket.Documents.Types.{Result, ok}
use file_storage_bucket.Config.{Config, read_config}
use file_storage_bucket.Auth.{Claims, Principal, Caller, admitted, IsVouched}
use file_storage_bucket.Startup.{Host, Server, serving, start, new_service, party_client, admission}
use file_storage_bucket.Startup.Secured.{
  IsSecured, credentials_of, start-IsSecured, admission-IsVouched,
}
use file_storage_bucket.Tests.Fixtures.{s}
use file_storage_bucket.Tests.Store.{s3}

getenv : String → String
getenv name =
    if name == "DOCUMENT_AUTH_MODE"
    then "oidc"
    else if name == "DOCUMENT_ENVIRONMENT"
    then "sandbox"
    else "x"

claims : String → Result Claims
claims token = ok (record {
  sub = "ann";
  tenant_id = "ten_1";
  environment = "sandbox";
  application_id = "";
  azp = "console";
  scope = "documents.read";
})

abbrev host : Host
host = record {
  getenv = getenv;
  open_pool = λ url. ok s.db;
  new_s3_client = λ endpoint region key secret. s3;
  get = λ credentials n url tenant environment. ok (record {
    status_code = 200;
    body = record { content = 1 ∷ []; broken = file_storage_bucket.Common.false };
  });
  path_escape = λ id. id;
  unmarshal = λ bytes. ok (record { party_id = "p1"; legacy_id = "" });
  new_provider = λ issuer. ok (λ audience. claims);
  platform = s.platform;
}

abbrev config : Config
config = read_config getenv

abbrev server : Server
server = record {
  config = config;
  service =
      new_service host config s.db
        (party_client host config.party_base_url (some (credentials_of config)));
  verifier = some claims;
}

start_run : start host ≡ serving server
unfolding start file_storage_bucket.Config.is_incomplete
    file_storage_bucket.Config.allowed_environment String_discrete
    file_storage_bucket.Text.trim_space getenv file_storage_bucket.Text.trim_right_slashes
start_run = refl

start-IsSecured_example : IsSecured host server
start-IsSecured_example = start-IsSecured host server start_run

abbrev caller : Caller
caller = record {
  path = "/v1/documents/doc_1/complete";
  header = λ name. if name == "Authorization" then " bearer t" else "";
}

abbrev ann : Principal
ann = record {
  subject = "ann";
  tenant_id = "ten_1";
  environment = "sandbox";
  application_id = "";
  authorized_party = "console";
  scopes = "documents.read" ∷ [];
}

not_local : server.config.environment ≢ "local"
unfolding read_config String_discrete file_storage_bucket.Text.trim_space getenv
not_local = ne_of_differ "sandbox" "local" refl

admission_run : admission server caller ≡ admitted ann
unfolding admission file_storage_bucket.Text.has_prefix String_discrete read_config
    file_storage_bucket.Text.trim_space getenv file_storage_bucket.Text.cut_space
    file_storage_bucket.Text.is_bearer claims file_storage_bucket.Text.fields
admission_run = refl

admission-IsVouched_example :
    (make : String → String → Result Claims) × (host.new_provider server.config.oidc_issuer
      ≡ ok make)
    × IsVouched (make server.config.oidc_audience) caller ann
admission-IsVouched_example =
    admission-IsVouched host server caller ann start_run not_local admission_run
