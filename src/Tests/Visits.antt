-- ===== src/Tests/Visits.antt =====
-- A visit of a member of staff, and a service that answers any question with status 200.
use file_storage_bucket.Common.{String, [], ◌∷◌, some, false, ◌==◌, refl, arith, if◌then◌else◌}
use file_storage_bucket.Documents.Types.{ok}
use file_storage_bucket.Documents.Tables.{Row}
use file_storage_bucket.Documents.Lifecycle.{IsConsistent}
use file_storage_bucket.Auth.{Principal}
use file_storage_bucket.Delegated.{Visit, Upstream}
use file_storage_bucket.Tests.Fixtures.{digest, ready_row, holding, available_row-IsConsistent}

-- a member of staff who visits the document doc_11 of a payment, an account or an application
abbrev pub visitor : Principal
visitor = record {
  subject = "ann";
  tenant_id = "";
  environment = "sandbox";
  application_id = "";
  authorized_party = "console";
  scopes = [];
}

unfoldable pub path_of : String → String
path_of name = if name == "tenant" then "ten_1" else if name == "id" then "doc_11" else "pay_1"

unfoldable pub query_of : String → String
query_of name = if name == "sha256" then digest else ""

abbrev pub visit : Visit
visit = record {
  principal = some visitor;
  caller = record { path = "/v1/"; header = λ _. "" };
  path_value = path_of;
  query = query_of;
  parsed = some (("tenant_id", "ten_1" ∷ []) ∷ ("sha256", digest ∷ []) ∷ []);
}

abbrev pub rails : Upstream
rails = record {
  base = "https://rails";
  send = λ n r. ok (record { status_code = 200; body = record { content = []; broken = false } });
  parse_url = λ _. some (record {
    scheme = "https";
    host = "rails";
    has_user = false;
    raw_query = "";
    fragment = "";
  });
  path_escape = λ t. t;
  encode_query = λ q. "";
}

-- a row of the document doc_11 of the party party_3
abbrev pub visited_row : String → Row
visited_row purpose = record ready_row {
  public_id = "doc_11";
  object_key = "key_11";
  owner_type = "PARTY";
  owner_id = "party_3";
  party_id = some "party_3";
  source_reference = some "pay_1";
  purpose = purpose;
}

pub visited_row-IsConsistent :
    (purpose : String) → IsConsistent (holding (visited_row purpose)).tables
visited_row-IsConsistent purpose =
    available_row-IsConsistent (visited_row purpose) refl refl (omega arith)
