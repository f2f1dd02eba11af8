-- ===== src/Tests/Accounts.antt =====
-- The theorems on the bank-account routes at concrete inputs.
use file_storage_bucket.Common.{[], ◌∷◌, some, refl, ◌≡◌, String_discrete}
use file_storage_bucket.Documents.Types.{Scope}
use file_storage_bucket.Documents.Tables.{Row}
use file_storage_bucket.Documents.Exec.{World, tick}
use file_storage_bucket.Http.{streamed, written}
use file_storage_bucket.Delegated.BankAccount.{
  AccountGrant, Setting, get_content, intent_of, serve_granted, serve_account,
}
use file_storage_bucket.Delegated.BankAccount.Granted.{IsAuthorised, serve_account-IsAuthorised}
use file_storage_bucket.Delegated.BankAccount.Content.{
  IsAccountContent, serve_account-IsAccountContent,
}
use file_storage_bucket.Tests.Fixtures.{s, digest, holding}
use file_storage_bucket.Tests.Visits.{visit, rails, path_of, visited_row, visited_row-IsConsistent}

abbrev account_grant : AccountGrant
account_grant = record {
  account_id = "pay_1";
  environment = "sandbox";
  tenant_id = "ten_1";
  owner_type = "party";
  owner_id = "party_3";
  actor = "ann";
  intent = "download";
  document_id = "doc_11";
  sha256 = digest;
}

abbrev accounts : Setting
accounts = record {
  upstream = rails;
  unmarshal = λ bytes. some account_grant;
  environment = "sandbox";
}

abbrev account_row : Row
account_row = visited_row "bank_account_verification"

abbrev after : World
after = (serve_account accounts s visit get_content (holding account_row)).1

account_content_run :
    serve_account accounts s visit get_content (holding account_row)
    ≡ (written 200 (streamed (1 ∷ [])), after)
unfolding serve_account String_discrete path_of file_storage_bucket.Text.contains_any
    file_storage_bucket.Text.trim_space file_storage_bucket.Delegated.is_base
    file_storage_bucket.Documents.Upload.read_limited intent_of file_storage_bucket.Http.respond
    file_storage_bucket.Documents.Evidence.open_bank_account_evidence
    file_storage_bucket.Documents.Exec.◌>>=◌
    file_storage_bucket.Documents.Evidence.bank_account_evidence
    file_storage_bucket.Documents.Access.valid_bank_account_scope file_storage_bucket.Auth.scope_of
    file_storage_bucket.Text.to_upper file_storage_bucket.Text.is_sha256
    file_storage_bucket.Documents.Exec.transaction file_storage_bucket.Documents.Exec.statement
    file_storage_bucket.Documents.Upload.is_clean
    file_storage_bucket.Documents.Audit.record_bank_event
    file_storage_bucket.Documents.Tables.append_event
    file_storage_bucket.Documents.Evidence.bank_account_document
    file_storage_bucket.Documents.Access.get
    file_storage_bucket.Documents.Access.check_payment_access
account_content_run = refl

serve_account-IsAuthorised_example :
    (sc : Scope) × (g : AccountGrant) × IsAuthorised accounts s visit (intent_of get_content) 0 sc g
    × (serve_granted accounts s visit sc g get_content (tick (holding account_row))
        ≡ (written 200 (streamed (1 ∷ [])), after))
serve_account-IsAuthorised_example =
    serve_account-IsAuthorised accounts s visit get_content 200 (streamed (1 ∷ []))
      (holding account_row) after account_content_run

serve_account-IsAccountContent_example :
    IsAccountContent accounts s visit (streamed (1 ∷ [])) (holding account_row).tables after.tables
serve_account-IsAccountContent_example =
    serve_account-IsAccountContent accounts s visit 200 (streamed (1 ∷ [])) (holding account_row)
      after (visited_row-IsConsistent "bank_account_verification") account_content_run
