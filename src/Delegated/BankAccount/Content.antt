-- ===== src/Delegated/BankAccount/Content.antt =====
-- The content route for evidence of bank accounts.
use file_storage_bucket.Common.{ℕ, String, some, ◌≡◌, sym, ◌∙◌, ap, In, ◌≢◌, ◌⊎◌, inl, inr}
use file_storage_bucket.Text.{to_upper}
use file_storage_bucket.Documents.Types.{Scope, Document, Service, ok, available, clean}
use file_storage_bucket.Documents.Tables.{Row, Tables}
use file_storage_bucket.Documents.Exec.{World, tick}
use file_storage_bucket.Documents.Evidence.{open_bank_account_evidence}
use file_storage_bucket.Documents.Evidence.Opened.{open_bank_account_evidence-IsOpened}
use file_storage_bucket.Documents.Evidence.BankAccount.{IsBankVerified}
use file_storage_bucket.Documents.Lifecycle.{IsConsistent}
use file_storage_bucket.Http.{Payload, written, streamed}
use file_storage_bucket.Http.Checked.{respond-eq-written}
use file_storage_bucket.Delegated.{Visit, clipped}
use file_storage_bucket.Delegated.Streamed.{IsStreamed, streamed-IsStreamed}
use file_storage_bucket.Delegated.BankAccount.{
  AccountGrant, AccountScope, Query, Setting, parse_scope, explicit, get_content, serve_granted,
  serve_account, granted_scope,
}
use file_storage_bucket.Delegated.BankAccount.Granted.{serve_account-IsAuthorised}
use file_storage_bucket.Auth.{scope_of}
use file_storage_bucket.Delegated.BankAccount.Explicit.{IsExplicit}

-- the content of the document of the visit was streamed
pub record IsAccountContent (c : Setting) (s : Service) (v : Visit) (x : Payload) (t u : Tables)
    : Type 0 where
  pub row : Row
  pub stored : In row t.rows
  pub same_id : row.public_id ≡ v.path_value "id"
  pub here : row.environment ≡ c.environment
  pub of_account : row.source_reference ≡ some (v.path_value "account")
  pub asked : AccountScope
  pub query : Query
  pub sent_query : v.parsed ≡ some query
  pub named : IsExplicit query asked
  pub parsed : parse_scope v.parsed ≡ explicit asked
  pub of_tenant : row.tenant_id ≡ asked.tenant
  pub same_digest : row.sha256_hex ≡ asked.digest
  pub of_owner :
      ((asked.tenant ≡ "") × (row.owner_type ≡ to_upper s.platform.case_tables "legal_entity"))
      ⊎ ((asked.tenant ≢ "") × (row.owner_type ≡ to_upper s.platform.case_tables "party"))
  pub for_purpose : row.purpose ≡ "bank_account_verification"
  pub released : (row.status ≡ available) × (row.scan_status ≡ clean)
  pub content : IsStreamed s row x t u

module _ (c : Setting) (s : Service) (v : Visit) where
  served_content :
      (sc : Scope) (g : AccountGrant) (status : ℕ) (x : Payload) (w w' : World)
      → IsConsistent w.tables
      → serve_granted c s v sc g get_content w ≡ (written status x, w')
      → (d : Document) × (u : Tables) × (checked : IsBankVerified sc g.document_id g.sha256 w.tables
          u d)
        × IsStreamed s checked.row x w.tables w'.tables
  unfolding serve_granted
  served_content sc g status x w w' k h =
      let run = open_bank_account_evidence s sc g.document_id g.sha256 w in
      let ((d, body), ran, is, same) =
        respond-eq-written 200 status (λ y. streamed (clipped y)) run.0 run.1 w' x h in
      let (y, checked, opened) =
        open_bank_account_evidence-IsOpened s sc g.document_id g.sha256 w w' d body k
          (ap (λ r. (r, run.1)) ran ∙ ap (λ z. (ok (d, body), z)) (sym same)) in
      (
        d,
        y.tables,
        checked,
        streamed-IsStreamed s checked.row d body x w.tables w'.tables checked.shown is opened,
      )

  owner_types :
      (tenant shown type : String)
      → shown ≡ to_upper s.platform.case_tables type
      → ((tenant ≡ "") × (type ≡ "legal_entity")) ⊎ ((tenant ≢ "") × (type ≡ "party"))
      → ((tenant ≡ "") × (shown ≡ to_upper s.platform.case_tables "legal_entity"))
        ⊎ ((tenant ≢ "") × (shown ≡ to_upper s.platform.case_tables "party"))
  owner_types tenant shown type h (inl (lender, is)) =
      inl (lender, h ∙ ap (to_upper s.platform.case_tables) is)
  owner_types tenant shown type h (inr (participant, is)) =
      inr (participant, h ∙ ap (to_upper s.platform.case_tables) is)

  -- Content that the bank-account routes stream is the object of a stored row that is available and
  -- clean, of bank-account verification, of the account and the id in the path, and of the tenant and
  -- the digest of the query; its owner is a legal entity where the query names the lender and a party
  -- of the tenant where it names one. At most the row's size is streamed, and no row changes.
  pub serve_account-IsAccountContent :
      (status : ℕ) (x : Payload) (w w' : World)
      → IsConsistent w.tables
      → serve_account c s v get_content w ≡ (written status x, w')
      → IsAccountContent c s v x w.tables w'.tables
  unfolding granted_scope scope_of
  serve_account-IsAccountContent status x w w' k h =
      let (sc, g, a, run) = serve_account-IsAuthorised c s v get_content status x w w' h in
      let (d, u, checked, content) = served_content sc g status x (tick w) w' k run in
      let grant = a.grant in
      let (tenant, environment, type, owner, reference) = checked.of_scope in
      record {
        row = checked.row;
        stored = checked.stored;
        same_id = checked.same_id ∙ grant.document;
        here = environment ∙ ap Scope.environment a.scope ∙ a.staff.here;
        of_account =
            reference ∙ ap some (ap Scope.bank_account_reference a.scope ∙ grant.account.0);
        asked = a.asked;
        query = a.query;
        sent_query = a.sent_query;
        named = a.named;
        parsed = a.parsed;
        of_tenant = tenant ∙ ap Scope.tenant_id a.scope ∙ grant.tenant;
        same_digest = checked.same_digest ∙ grant.digest;
        of_owner =
            owner_types a.asked.tenant checked.row.owner_type g.owner_type
              (type ∙ ap Scope.bank_account_owner_type a.scope) grant.owner_type;
        for_purpose = checked.for_bank_account;
        released = checked.released;
        content = content;
      }
