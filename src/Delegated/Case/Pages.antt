-- ===== src/Delegated/Case/Pages.antt =====
-- The list of a case's documents: what a page shows.
use file_storage_bucket.Common.{
  ℕ, zero, suc, ◌≤◌, ltb, String, List, [], ◌∷◌, length, len, length-take_bound, take, ◌≡◌, ◌≢◌,
  inl, inr, refl, sym, ◌∙◌, ap, subst, arith, In, All, Bool-cases, some,
}
use file_storage_bucket.Documents.Types.{Scope, Document, Service, ok}
use file_storage_bucket.Documents.Tables.{Row, Tables}
use file_storage_bucket.Documents.Access.{scanned}
use file_storage_bucket.Documents.Exec.{World, tick}
use file_storage_bucket.Documents.Evidence.{case_uploads}
use file_storage_bucket.Documents.Evidence.Cases.{
  IsCaseDocument, case_uploads-named, case_uploads-AllCaseDocuments,
}
use file_storage_bucket.Http.{Payload, page, written}
use file_storage_bucket.Http.Checked.{respond-eq-written}
use file_storage_bucket.Auth.{scope_of}
use file_storage_bucket.Delegated.{Visit}
use file_storage_bucket.Delegated.Case.{
  CaseGrant, Setting, intent_of, list_documents, id_at, page_of, serve_granted, serve_case,
  granted_scope,
}
use file_storage_bucket.Delegated.Case.Granted.{IsAuthorised, serve_case-IsAuthorised}

-- a page that shows at most fifty documents, with the cursor "" where it is the last
pub record IsPage (P : Document → Type 0) (x : Payload) : Type 0 where
  pub shown : List Document
  pub next : String
  pub is : x ≡ page shown next
  pub bounded : length shown ≤ 50
  pub documents : All P shown

All-take : (P : Document → Type 0) (n : ℕ) (ds : List Document) → All P ds → All P (take n ds)
All-take P zero ds k = tt
All-take P (suc n) [] k = tt
All-take P (suc n) (d ∷ ds) (here, later) = (here, All-take P n ds later)

page_of-IsPage : (P : Document → Type 0) (ds : List Document) → All P ds → IsPage P (page_of ds)
unfolding page_of
page_of-IsPage P ds k = elim (Bool-cases (ltb 50 (length ds))) [
  | inl long ↦ record {
    shown = take 50 ds;
    next = id_at 49 ds;
    is = rw long refl;
    bounded = length-take_bound 50 ds;
    documents = All-take P 50 ds k;
  }
  | inr short ↦ record {
    shown = ds;
    next = "";
    is = rw short refl;
    bounded = ground arith;
    documents = k;
  }
]

-- a document that a page of the case may show
pub record IsShown (c : Setting) (v : Visit) (g : CaseGrant) (t : Tables) (d : Document)
    : Type 0 where
  pub row : Row
  pub stored : In row t.rows
  pub shown : d ≡ scanned row
  pub in_tenant : (row.tenant_id ≡ v.path_value "tenant") × (row.environment ≡ c.environment)
  pub of_case : row.source_reference ≡ some (v.path_value "application")
  pub of_party :
      (row.owner_type ≡ "PARTY") × (row.owner_id ≡ g.party_id) × (row.party_id ≡ some g.party_id)
  pub no_payment : row.purpose ≢ "manual_bank_payment"
  pub no_statement : row.purpose ≢ "manual_bank_statement"
  pub no_account : row.purpose ≢ "bank_account_verification"

All-lift :
    (P Q : Document → Type 0) (ds : List Document)
    → ((d : Document) → P d → Q d)
    → All P ds
    → All Q ds
All-lift P Q [] k h = tt
All-lift P Q (d ∷ ds) k (here, later) = (k d here, All-lift P Q ds k later)

module _ (c : Setting) (s : Service) (v : Visit) where
  listed-IsPage :
      (sc : Scope) (g : CaseGrant) (status : ℕ) (x : Payload) (w w' : World)
      → serve_granted c s v sc g list_documents w ≡ (written status x, w')
      → IsPage (IsCaseDocument sc g.application_id g.party_id w.tables) x
        × (w'.tables ≡ w.tables)
        × (g.application_id ≢ "")
  unfolding serve_granted
  listed-IsPage sc g status x w w' h = elim (Bool-cases (ltb 128 (len (v.query "after")))) [
    | inl long ↦ absurd (ground arith)
    | inr short ↦
        let run = case_uploads s sc g.application_id g.party_id (v.query "after") w in
        let (ds, ran, is, same) =
          respond-eq-written 200 status page_of run.0 run.1 w' x (ground arith) in
        let listing = ap (λ r. (r, run.1)) ran ∙ ap (λ z. (ok ds, z)) (sym same) in
        let (documents, _, kept) =
          case_uploads-AllCaseDocuments s sc g.application_id g.party_id (v.query "after") w w' ds
            listing in
        (
          subst (IsPage (IsCaseDocument sc g.application_id g.party_id w.tables)) (sym is) (
              page_of-IsPage (IsCaseDocument sc g.application_id g.party_id w.tables) ds documents),
          kept,
          case_uploads-named s sc g.application_id g.party_id (v.query "after") w w' ds listing,
        )
  ]

  case_document-IsShown :
      (n : ℕ) (sc : Scope) (g : CaseGrant) (t : Tables)
      → IsAuthorised c v "uploads" n sc g
      → g.application_id ≢ ""
      → (d : Document) → IsCaseDocument sc g.application_id g.party_id t d
      → IsShown c v g t d
  unfolding granted_scope scope_of
  case_document-IsShown n sc g t a named d k =
      let grant = a.grant in
      let unnamed : (reference : String) → reference ≡ "" → reference ≢ g.application_id =
        λ reference e same. named (sym same ∙ e) in
      record {
        row = k.row;
        stored = k.stored;
        shown = k.shown;
        in_tenant = (
          k.in_tenant.0 ∙ ap Scope.tenant_id a.scope ∙ grant.tenant.0,
          k.in_tenant.1 ∙ ap Scope.environment a.scope ∙ a.here,
        );
        of_case = k.of_case ∙ ap some grant.application;
        of_party = k.of_party;
        no_payment =
            λ e. unnamed sc.payment_reference (ap Scope.payment_reference a.scope) (k.payment e);
        no_statement = λ e.
            unnamed sc.statement_reference (ap Scope.statement_reference a.scope) (k.statement e);
        no_account = λ e.
            unnamed sc.bank_account_reference (ap Scope.bank_account_reference a.scope)
              (k.bank e).1;
      }

  -- A page of a case's documents shows at most fifty. Each is of the tenant and the application in
  -- the path, of the server's environment and of the party that the decision engine granted; none
  -- is a payment, a statement or a bank-account document. Listing changes no table.
  pub serve_case-IsPage :
      (status : ℕ) (x : Payload) (w w' : World)
      → serve_case c s v list_documents w ≡ (written status x, w')
      → (sc : Scope) × (g : CaseGrant) × IsAuthorised c v "uploads" w.calls sc g
        × IsPage (IsShown c v g w.tables) x
        × (w'.tables ≡ w.tables)
  unfolding intent_of
  serve_case-IsPage status x w w' h =
      let (sc, g, authorised, run) = serve_case-IsAuthorised c s v list_documents status x w w' h in
      let (k, kept, named) = listed-IsPage sc g status x (tick w) w' run in
      (
        sc,
        g,
        authorised,
        record {
          shown = k.shown;
          next = k.next;
          is = k.is;
          bounded = k.bounded;
          documents =
              All-lift (IsCaseDocument sc g.application_id g.party_id w.tables)
                (IsShown c v g w.tables) k.shown
                (case_document-IsShown w.calls sc g w.tables authorised named) k.documents;
        },
        kept,
      )
