-- ===== src/Tests/Cases.antt =====
-- The theorems on the routes of a case at concrete inputs.
use file_storage_bucket.Common.{[], ◌∷◌, some, true, refl, ◌≡◌, inl, inr, String_discrete}
use file_storage_bucket.Documents.Types.{Scope, Service, ok}
use file_storage_bucket.Documents.Tables.{Row}
use file_storage_bucket.Documents.Access.{scanned}
use file_storage_bucket.Documents.Exec.{World, tick}
use file_storage_bucket.Documents.Evidence.{case_uploads, is_case_row, is_listed}
use file_storage_bucket.Documents.Evidence.Pages.{AllListed}
use file_storage_bucket.Http.{Payload, page, written}
use file_storage_bucket.Delegated.Case.{
  CaseGrant, Setting, list_documents, intent_of, page_of, serve_granted, serve_case,
}
use file_storage_bucket.Delegated.Case.Granted.{IsAuthorised, serve_case-IsAuthorised}
use file_storage_bucket.Delegated.Case.Pages.{IsPage, IsShown, serve_case-IsPage}
use file_storage_bucket.Delegated.Case.Cursor.{Leads, page_of-Leads}
use file_storage_bucket.Tests.Collation.{text_before, text_before-IsOrder}
use file_storage_bucket.Tests.Fixtures.{s, staff, holding}
use file_storage_bucket.Tests.Visits.{
  visit, rails, path_of, query_of, visited_row, visited_row-IsConsistent,
}

abbrev case_grant : CaseGrant
case_grant = record {
  application_id = "pay_1";
  tenant_id = "ten_1";
  environment = "sandbox";
  party_id = "party_3";
  intent = "uploads";
  document_id = "doc_11";
  sha256 = file_storage_bucket.Tests.Fixtures.digest;
  actor = "ann";
}

abbrev cases : Setting
cases = record { upstream = rails; decode = λ body. some case_grant; environment = "sandbox" }

abbrev case_row : Row
case_row = visited_row "credit_assessment"

abbrev sorted : Service
sorted = record s {
  db = record { fails = s.db.fails; clock = s.db.clock; before = text_before; keeps = s.db.keeps };
}

abbrev after : World
after = (serve_case cases sorted visit list_documents (holding case_row)).1

abbrev first_page : Payload
first_page = page (scanned case_row ∷ []) ""

list_run :
    serve_case cases sorted visit list_documents (holding case_row)
    ≡ (written 200 first_page, after)
unfolding serve_case String_discrete path_of intent_of query_of file_storage_bucket.Auth.scope_of
    file_storage_bucket.Text.trim_space file_storage_bucket.Http.respond case_uploads
    file_storage_bucket.Documents.Exec.◌>>=◌ file_storage_bucket.Documents.Evidence.lacks_case_scope
    file_storage_bucket.Documents.Exec.statement text_before is_listed
list_run = refl

serve_case-IsAuthorised_example :
    (sc : Scope) × (g : CaseGrant) × IsAuthorised cases visit (intent_of list_documents) 0 sc g
    × (serve_granted cases sorted visit sc g list_documents (tick (holding case_row))
        ≡ (written 200 first_page, after))
serve_case-IsAuthorised_example =
    serve_case-IsAuthorised cases sorted visit list_documents 200 first_page (holding case_row)
      after list_run

serve_case-IsPage_example :
    (sc : Scope) × (g : CaseGrant) × IsAuthorised cases visit "uploads" 0 sc g
    × IsPage (IsShown cases visit g (holding case_row).tables) first_page
    × (after.tables ≡ (holding case_row).tables)
serve_case-IsPage_example =
    serve_case-IsPage cases sorted visit 200 first_page (holding case_row) after list_run

abbrev listing : World
listing = (case_uploads sorted staff "pay_1" "party_3" "" (holding case_row)).1

uploads_run :
    case_uploads sorted staff "pay_1" "party_3" "" (holding case_row)
    ≡ (ok (scanned case_row ∷ []), listing)
unfolding case_uploads file_storage_bucket.Documents.Exec.◌>>=◌
    file_storage_bucket.Documents.Evidence.lacks_case_scope String_discrete
    file_storage_bucket.Documents.Exec.statement text_before is_listed
uploads_run = refl

case_row-listed : AllListed sorted staff "pay_1" "party_3" "" (holding case_row).tables
unfolding AllListed is_listed String_discrete
case_row-listed r (inl e) hit = rw e refl
case_row-listed r (inr i) hit = absurd i

case_row-hit : is_case_row sorted staff "pay_1" "party_3" "" case_row ≡ true
unfolding is_case_row String_discrete text_before
case_row-hit = refl

page_of-Leads_example :
    Leads sorted staff "pay_1" "party_3" (page_of (scanned case_row ∷ [])) case_row
page_of-Leads_example =
    page_of-Leads sorted staff "pay_1" "party_3" "" (holding case_row) listing
      (scanned case_row ∷ []) case_row text_before-IsOrder
      (visited_row-IsConsistent "credit_assessment") case_row-listed uploads_run (inl refl)
      case_row-hit
