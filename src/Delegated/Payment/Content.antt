-- ===== src/Delegated/Payment/Content.antt =====
-- The content route for evidence of payments and statements.
use file_storage_bucket.Common.{ℕ, some, ◌≡◌, sym, ◌∙◌, ap, subst, In}
use file_storage_bucket.Documents.Types.{Scope, Document, Service, ok, available, clean}
use file_storage_bucket.Documents.Tables.{Row, Tables}
use file_storage_bucket.Documents.Exec.{World, tick, ◌>>◌}
use file_storage_bucket.Documents.Exec.Inversion.{>>=-eq-ok}
use file_storage_bucket.Documents.Access.{scanned}
use file_storage_bucket.Documents.Evidence.{resource_evidence, open_evidence}
use file_storage_bucket.Documents.Evidence.Verified.{IsVerified, resource_evidence-IsVerified}
use file_storage_bucket.Documents.Evidence.Opened.{IsConsistent-rows, open_evidence-IsOpened}
use file_storage_bucket.Documents.Lifecycle.{IsConsistent}
use file_storage_bucket.Documents.Lifecycle.Sound.{In-unique}
use file_storage_bucket.Http.{Payload, written, streamed}
use file_storage_bucket.Http.Checked.{respond-eq-written}
use file_storage_bucket.Delegated.{Visit, clipped}
use file_storage_bucket.Delegated.Streamed.{
  IsStreamed, purposed-eq-ok, streamed-IsStreamed, IsOpened-moved,
}
use file_storage_bucket.Delegated.Payment.{
  PaymentGrant, Setting, get_content, purpose_of, payment_evidence, serve_granted, serve_payment,
  granted_scope,
}
use file_storage_bucket.Delegated.Payment.Granted.{serve_payment-IsAuthorised}
use file_storage_bucket.Auth.{scope_of}

-- the content of the document of the visit was streamed
pub record IsPaymentContent (c : Setting) (s : Service) (v : Visit) (x : Payload) (t u : Tables)
    : Type 0 where
  pub row : Row
  pub stored : In row t.rows
  pub same_id : row.public_id ≡ v.path_value "id"
  pub in_tenant : (row.tenant_id ≡ v.path_value "tenant") × (row.environment ≡ c.environment)
  pub of_payment : row.source_reference ≡ some (v.path_value "payment")
  pub for_purpose : row.purpose ≡ purpose_of c
  pub same_digest : row.sha256_hex ≡ v.query "sha256"
  pub released : (row.status ≡ available) × (row.scan_status ≡ clean)
  pub content : IsStreamed s row x t u

module _ (c : Setting) (s : Service) (v : Visit) (sc : Scope) (g : PaymentGrant) where
  payment_evidence-IsVerified :
      (w w' : World) (d : Document)
      → IsConsistent w.tables
      → payment_evidence c s sc g w ≡ (ok d, w')
      → IsVerified sc g.document_id g.party_id g.sha256 g.payment_id w.tables w'.tables d
        × (d.purpose ≡ purpose_of c)
  unfolding payment_evidence
  payment_evidence-IsVerified w w' d k h =
      let (checked, purpose) =
        purposed-eq-ok (purpose_of c)
          (resource_evidence s sc g.document_id g.party_id g.sha256 g.payment_id) w w' d h in
      (
        resource_evidence-IsVerified s sc g.document_id g.party_id g.sha256 g.payment_id w w' d k
            checked,
        purpose,
      )

  served_content :
      (status : ℕ) (x : Payload) (w w' : World)
      → IsConsistent w.tables
      → serve_granted c s v sc g get_content w ≡ (written status x, w')
      → (d : Document) × (u : Tables) × (checked : IsVerified sc g.document_id g.party_id g.sha256
          g.payment_id w.tables u d)
        × (d.purpose ≡ purpose_of c)
        × IsStreamed s checked.row x w.tables w'.tables
  unfolding serve_granted
  served_content status x w w' k h =
      let opening = open_evidence s sc g.document_id g.party_id g.sha256 in
      let run = (payment_evidence c s sc g >> opening) w in
      let ((e, body), ran, is, same) =
        respond-eq-written 200 status (λ y. streamed (clipped y)) run.0 run.1 w' x h in
      let (d, v', first, second) =
        >>=-eq-ok (payment_evidence c s sc g) (λ _. opening) w w' (e, body)
          (ap (λ r. (r, run.1)) ran ∙ ap (λ z. (ok (e, body), z)) (sym same)) in
      let (checked, purpose) = payment_evidence-IsVerified w v' d k first in
      let (y, again, opened) =
        open_evidence-IsOpened s sc g.document_id g.party_id g.sha256 v' w' e body
          (IsConsistent-rows w.tables v'.tables checked.logged.same_rows k) second in
      let kept = checked.logged.same_rows in
      let is_row : again.row ≡ checked.row =
        In-unique w.tables.rows again.row checked.row k.unique
          (subst (λ rows. In again.row rows) kept again.stored) checked.stored
          (again.same_id ∙ sym checked.same_id) in
      (
        d,
        v'.tables,
        checked,
        purpose,
        streamed-IsStreamed s checked.row e body x w.tables w'.tables
            (again.shown ∙ ap scanned is_row) is
            (IsOpened-moved s again.row checked.row body v'.tables w.tables w'.tables is_row kept
              opened),
      )

module _ (c : Setting) (s : Service) (v : Visit) where
  -- Content that the payment or statement routes stream is the object of a stored row that is
  -- available and clean, of the tenant and the payment in the path and of the purpose of the routes,
  -- with the id of the path and the digest of the query; at most the row's size is streamed, and no
  -- row changes.
  pub serve_payment-IsPaymentContent :
      (status : ℕ) (x : Payload) (w w' : World)
      → IsConsistent w.tables
      → serve_payment c s v get_content w ≡ (written status x, w')
      → IsPaymentContent c s v x w.tables w'.tables
  unfolding granted_scope scope_of
  serve_payment-IsPaymentContent status x w w' k h =
      let (sc, g, a, run) = serve_payment-IsAuthorised c s v get_content status x w w' h in
      let (d, u, checked, purpose, content) =
        served_content c s v sc g status x (tick w) w' k run in
      let grant = a.grant in
      let staff = a.staff in
      record {
        row = checked.row;
        stored = checked.stored;
        same_id = checked.same_id ∙ grant.document;
        in_tenant = (
          checked.in_tenant.0 ∙ ap Scope.tenant_id a.scope ∙ grant.tenant.0,
          checked.in_tenant.1 ∙ ap Scope.environment a.scope ∙ staff.here,
        );
        of_payment = checked.of_reference (λ e. grant.payment.1 e) ∙ ap some grant.payment.0;
        for_purpose = ap Document.purpose (sym checked.shown) ∙ purpose;
        same_digest = checked.same_digest ∙ grant.digest;
        released = checked.released;
        content = content;
      }
