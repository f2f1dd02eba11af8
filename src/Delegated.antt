-- ===== src/Delegated.antt =====
-- What internal/httpserver/payment_access.go, bank_account_access.go and case_access.go share: the
-- visit of a member of staff, the service that decides about the visit, and its answer. The HTTP
-- client, net/url and encoding/json are parameters.
pub mod Streamed
pub mod Reached
pub mod Payment
pub mod BankAccount
pub mod Case
use file_storage_bucket.Common.{
  ℕ, String, Option, none, some, Bool, true, false, not, ◌&&◌, ◌||◌, List, length, leb, take,
  nat_eq, ◌==◌, if◌then◌else◌,
}
use file_storage_bucket.Documents.Types.{ℤ, Document, not_found, Result, Scope, Body}
use file_storage_bucket.Documents.Exec.{World, Action, pure, raise_if, ◌>>=◌, ◌>>◌}
use file_storage_bucket.Auth.{Principal, Caller}
use file_storage_bucket.PartyClient.{Response}

-- what of an HTTP request an access decision reads
pub record Visit : Type 0 where
  pub principal : Option Principal
  pub caller : Caller
  pub path_value : String → String
  -- r.URL.Query().Get
  pub query : String → String
  -- url.ParseQuery(r.URL.RawQuery): each name once, with its values; none where it is malformed
  pub parsed : Option (List (String × List String))

-- what url.Parse makes of a text
pub record Url : Type 0 where
  pub scheme : String
  pub host : String
  pub has_user : Bool
  pub raw_query : String
  pub fragment : String

-- The request to the deciding service: a POST with the caller's Authorization header.
pub record AccessRequest : Type 0 where
  pub url : String
  pub body : List (String × String)
  pub authorization : String

-- `send` is http.NewRequestWithContext followed by Client.Do under the handler's redirect policy; an
-- answer may depend on when it is asked for.
pub record Upstream : Type 0 where
  pub base : String
  pub send : ℕ → AccessRequest → Result Response
  pub parse_url : String → Option Url
  pub path_escape : String → String
  pub encode_query : List (String × List String) → String

-- the two results of an authorize function: a problem was written, or a scope and a grant
pub data Access (G : Type 0) : Type 0 where
  denied : ℕ → String → Access G
  granted : Scope → G → Access G

-- u.Host == "" || (u.Scheme != "http" && …) || …, negated; an error of url.Parse fails it too
unfoldable pub is_base : Option Url → Bool
is_base none = false
is_base (some u) =
    not (u.host == "")
    && (u.scheme == "http" || u.scheme == "https")
    && not u.has_user
    && u.raw_query == ""
    && u.fragment == ""

-- the status that a refusal of the deciding service is passed on with
unfoldable pub relayed : ℕ → ℕ
relayed status =
    if nat_eq status 403 || nat_eq status 404 || nat_eq status 409 || nat_eq status 422
    then status
    else 503

-- io.LimitReader(body, n)
abbrev pub limited : ℕ → Body → Body
limited n b = record {
  content = take n b.content;
  broken = if leb n (length b.content) then false else b.broken;
}

-- environment != "sandbox" && environment != "production", negated
abbrev pub is_live : String → Bool
is_live environment = environment == "sandbox" || environment == "production"

-- the body of an upload session under a grant
pub record UploadFile : Type 0 where
  pub filename : String
  pub content_type : String
  pub size_bytes : ℤ
  pub sha256 : String

-- a document of another purpose is ErrNotFound
unfoldable pub purposed : String → Action Document → Action Document
purposed purpose m = do d ← m; raise_if (not (d.purpose == purpose)) not_found; pure d

-- io.Copy(w, io.LimitReader(body, doc.Size))
abbrev pub clipped : Document × List ℕ → List ℕ
clipped (d, body) = take d.size body
