-- ===== src/Tests/Payments.antt =====
-- The theorems on the payment routes at concrete inputs.
use file_storage_bucket.Common.{[], ◌∷◌, some, false, refl, ◌≡◌, String_discrete}
use file_storage_bucket.Documents.Types.{Scope}
use file_storage_bucket.Documents.Tables.{Row, Tables}
use file_storage_bucket.Documents.Exec.{World, tick}
use file_storage_bucket.Auth.{Principal, Caller}
use file_storage_bucket.Http.{Payload, streamed, page, written}
use file_storage_bucket.Delegated.{Visit, Url, Upstream}
use file_storage_bucket.Delegated.Payment
use file_storage_bucket.Delegated.Payment.{PaymentGrant, serve_payment}
use file_storage_bucket.Delegated.Payment.Granted
use file_storage_bucket.Delegated.Payment.Granted.{serve_payment-IsAuthorised}
use file_storage_bucket.Delegated.Payment.Content.{IsPaymentContent, serve_payment-IsPaymentContent}
use file_storage_bucket.Tests.Fixtures.{s, digest, holding}
use file_storage_bucket.Tests.Visits.{
  visit, rails, path_of, query_of, visited_row, visited_row-IsConsistent,
}

abbrev pub payment_grant : PaymentGrant
payment_grant = record {
  payment_id = "pay_1";
  tenant_id = "ten_1";
  environment = "sandbox";
  party_id = "party_3";
  actor = "ann";
  intent = "download";
  document_id = "doc_11";
  sha256 = digest;
}

abbrev pub payments : Payment.Setting
payments = record {
  upstream = rails;
  unmarshal = λ bytes. some payment_grant;
  environment = "sandbox";
  statement = false;
}

abbrev payment_row : Row
payment_row = visited_row "manual_bank_payment"

abbrev after_payment : World
after_payment = (serve_payment payments s visit Payment.get_content (holding payment_row)).1

payment_content_run :
    serve_payment payments s visit Payment.get_content (holding payment_row)
    ≡ (written 200 (streamed (1 ∷ [])), after_payment)
unfolding serve_payment String_discrete path_of file_storage_bucket.Text.contains_any
    file_storage_bucket.Delegated.is_base file_storage_bucket.Documents.Upload.read_limited
    Payment.intent_of query_of file_storage_bucket.Auth.scope_of file_storage_bucket.Text.trim_space
    file_storage_bucket.Http.respond file_storage_bucket.Documents.Exec.◌>>=◌
    file_storage_bucket.Delegated.purposed file_storage_bucket.Documents.Evidence.resource_evidence
    file_storage_bucket.Documents.Evidence.lacks_evidence_scope file_storage_bucket.Text.is_sha256
    file_storage_bucket.Documents.Exec.transaction file_storage_bucket.Documents.Exec.statement
    file_storage_bucket.Documents.Access.check_payment_access
    file_storage_bucket.Documents.Upload.is_clean file_storage_bucket.Documents.Audit.record_event
    file_storage_bucket.Documents.Tables.append_event
    file_storage_bucket.Documents.Evidence.open_evidence
    file_storage_bucket.Documents.Evidence.evidence file_storage_bucket.Documents.Access.get
    file_storage_bucket.Documents.Audit.record_scoped_event
payment_content_run = refl

serve_payment-IsAuthorised_example :
    (sc : Scope) × (g : PaymentGrant) × Payment.Granted.IsAuthorised payments visit
      (Payment.intent_of Payment.get_content)
      0
      sc
      g
    × (Payment.serve_granted payments s visit sc g Payment.get_content (tick (holding payment_row))
        ≡ (written 200 (streamed (1 ∷ [])), after_payment))
serve_payment-IsAuthorised_example =
    serve_payment-IsAuthorised payments s visit Payment.get_content 200 (streamed (1 ∷ []))
      (holding payment_row) after_payment payment_content_run

serve_payment-IsPaymentContent_example :
    IsPaymentContent payments s visit
      (streamed (1 ∷ []))
      (holding payment_row).tables
      after_payment.tables
serve_payment-IsPaymentContent_example =
    serve_payment-IsPaymentContent payments s visit 200 (streamed (1 ∷ [])) (holding payment_row)
      after_payment (visited_row-IsConsistent "manual_bank_payment") payment_content_run
