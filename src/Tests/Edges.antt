-- ===== src/Tests/Edges.antt =====
-- The theorems on the configuration, the party client, tokens and clamd at concrete inputs.
use file_storage_bucket.Common.{
  ℕ, ◌<◌, String, Bool, List, [], ◌∷◌, ◌++◌, none, some, false, true, All, ◌⊎◌, inl, refl, ◌≡◌, ◌≢◌,
  arith, ne_of_differ, sym, ◌∙◌, ◌==◌, if◌then◌else◌,
}
use file_storage_bucket.Documents.Types.{Result, ok}
use file_storage_bucket.Config.{load, loaded, read_config, IsUsable, load-IsUsable}
use file_storage_bucket.PartyClient.{Client, exists, IsConfirmed, exists-IsConfirmed}
use file_storage_bucket.Auth.{
  Principal, Claims, Caller, authenticate, IsVouched, authenticate-IsVouched,
}
use file_storage_bucket.Clamd.{Connection, Content, instream, scan}
use file_storage_bucket.Clamd.Framing.{concat, unframe}
use file_storage_bucket.Clamd.Verdict.{IsJudged, scan-IsJudged, scan-unframe}

abbrev getenv : String → String
getenv name =
    if name == "DOCUMENT_AUTH_MODE"
    then "disabled"
    else if name == "DOCUMENT_ENVIRONMENT"
    then ""
    else "x"

load-IsUsable_example : (read_config getenv ≡ read_config getenv) × IsUsable (read_config getenv)
unfolding load file_storage_bucket.Config.is_incomplete
    file_storage_bucket.Config.allowed_environment file_storage_bucket.Common.String_discrete
    file_storage_bucket.Text.trim_space file_storage_bucket.Text.trim_right_slashes
load-IsUsable_example = load-IsUsable getenv (read_config getenv) refl

abbrev directory : Client
directory = record {
  base = "https://party";
  get = λ url tenant environment.
      ok (record { status_code = 200; body = record { content = 1 ∷ []; broken = false } });
  path_escape = λ id. id;
  unmarshal = λ bytes. ok (record { party_id = "p1"; legacy_id = "" });
}

exists-IsConfirmed_example : IsConfirmed directory "ten_1" "sandbox" "p1"
unfolding exists file_storage_bucket.Common.String_discrete
    file_storage_bucket.Documents.Upload.read_limited file_storage_bucket.PartyClient.is_mismatch
exists-IsConfirmed_example = exists-IsConfirmed directory "ten_1" "sandbox" "p1" refl

abbrev claims : String → Result Claims
claims token = ok (record {
  sub = "ann";
  tenant_id = "ten_1";
  environment = "sandbox";
  application_id = "";
  azp = "console";
  scope = "documents.read documents.write";
})

abbrev caller : Caller
caller = record {
  path = "/v1/documents/doc_1/complete";
  header = λ name. if name == "Authorization" then " bearer t" else "";
}

abbrev ann : Principal
ann = record {
  subject = "ann";
  tenant_id = "ten_1";
  environment = "sandbox";
  application_id = "";
  authorized_party = "console";
  scopes = "documents.read" ∷ "documents.write" ∷ [];
}

authenticate-IsVouched_example : IsVouched claims caller ann
unfolding authenticate file_storage_bucket.Text.trim_space file_storage_bucket.Text.cut_space
    file_storage_bucket.Text.is_bearer file_storage_bucket.Text.has_prefix
    file_storage_bucket.Common.String_discrete file_storage_bucket.Text.fields
authenticate-IsVouched_example = authenticate-IsVouched "local" claims caller ann refl

abbrev connection : Connection
connection = record { dials = true; write_fails = λ n. false; answer = λ sent. ok "stream: OK" }

abbrev content : Content
content = record { pieces = (5 ∷ 6 ∷ []) ∷ []; broken = false }

judged : ◌≡◌ {A = String} (scan connection content).outcome "clean"
unfolding scan file_storage_bucket.Text.has_suffix file_storage_bucket.Text.trim_space
    file_storage_bucket.Text.trim_suffix file_storage_bucket.Common.String_discrete
judged = refl

not_failed : (scan connection content).outcome ≢ "failed"
not_failed e = ne_of_differ "clean" "failed" refl (sym judged ∙ e)

scan-IsJudged_example : IsJudged connection content (scan connection content).outcome
scan-IsJudged_example = scan-IsJudged connection content not_failed

scan-unframe_example :
    (content.broken ≡ false)
    × ((response : String) × (body : List ℕ) × (connection.answer (instream ++ body) ≡ ok response)
        × (unframe 2 body ≡ some (concat content.pieces)))
scan-unframe_example = scan-unframe connection content 2 (omega arith, tt) (omega arith) not_failed
