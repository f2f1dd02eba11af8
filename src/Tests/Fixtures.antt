-- ===== src/Tests/Fixtures.antt =====
-- A service over concrete parameters, its scopes and its tables.
use file_storage_bucket.Common.{
  ℕ, String, List, [], ◌∷◌, Option, none, some, true, false, ◌*◌, ◌≤◌, ◌≡◌, refl, sym, ◌∙◌, arith,
  replicate,
}
use file_storage_bucket.Documents.Types.{
  Scope, CreateInput, SignedRequest, Service, Body, Result, pos, ok,
}
use file_storage_bucket.Documents.Types.{Status, ScanStatus}
use file_storage_bucket.Documents.Tables.{Row}
use file_storage_bucket.Documents.Exec.{World}
use file_storage_bucket.Documents.Access.{valid_bank_account_scope}
use file_storage_bucket.Documents.Lifecycle.{IsConsistent}
use file_storage_bucket.System.{Request}
use file_storage_bucket.Scanner.{ScanReport}

abbrev pub zeros : List ℕ
zeros = replicate 32 0

-- thirty-two zero bytes in hexadecimal
abbrev pub digest : String
digest = "0000000000000000000000000000000000000000000000000000000000000000"

abbrev pub link : ℕ → String → SignedRequest
link n key = record { url = key; method = "PUT"; headers = []; expires_at = n }

abbrev pub s : Service
s = record {
  db = record {
    fails = λ _. false;
    clock = λ n. 1000 * n;
    before = λ a b. true;
    keeps = λ _. false;
  };
  party = record { exists = λ n tenant environment id. ok tt };
  objects = record {
    presign_upload = λ n key type sha size ttl. ok (link n key);
    put_object = λ n key type sha size body. ok tt;
    verify = λ n key sha size. ok tt;
    presign_download = λ n key name ttl. ok (link n key);
    open_object = some (λ n key. ok (1 ∷ []));
  };
  bucket = "documents";
  upload_ttl = 900000000;
  download_ttl = 300000000;
  platform = record {
    sha256_sum = λ bytes. zeros;
    marshal = λ input. [];
    case_tables = record { upper = λ c. c; lower = λ c. c };
  };
}

abbrev pub staff : Scope
staff = record {
  tenant_id = "ten_1";
  environment = "sandbox";
  subject = "ann";
  application_id = "console";
  correlation_id = "cor_1";
  payment_reference = "";
  statement_reference = "";
  bank_account_reference = "";
  bank_account_owner_type = "";
  bank_account_owner_id = "";
}

abbrev pub deed : CreateInput
deed = record {
  party_id = "";
  owner_type = "case";
  owner_id = "case_7";
  source_reference = "app_1";
  consent_reference = "";
  document_type = "DEED";
  purpose = "KYC";
  classification = "INTERNAL";
  filename = "/tmp/deed.pdf";
  content_type = "application/pdf";
  sha256 = digest;
  retention_category = "case";
  idempotency_key = "key-1";
  size = pos 1;
  retain_until = none;
}

abbrev pub empty : World
empty = record { tables = record { rows = []; audit = [] }; calls = 0; began = none }

pub empty-IsConsistent : IsConsistent empty.tables
empty-IsConsistent = record { sound = tt; unique = tt }

abbrev pub script : List Request
script =
    Request.create staff deed (7 ∷ [])
    ∷ Request.complete staff "doc_07"
    ∷ Request.scan_cycle
    ∷ Request.download staff "doc_07"
    ∷ []

abbrev pub scan_clean : ℕ → List ℕ → ScanReport
scan_clean n body = record { outcome = "clean"; reason = "stream: OK"; error = none }

abbrev pub open_any : ℕ → String → Result (List ℕ)
open_any n key = ok (1 ∷ [])

abbrev pub key : String
key = "sandbox/ten_1/case/case_7/doc_07/original"

-- a row of the document doc_07
abbrev pub row_of : Status → ScanStatus → Option ℕ → Row
row_of status scan uploaded_at = record {
  public_id = "doc_07";
  tenant_id = "ten_1";
  environment = "sandbox";
  party_id = none;
  owner_type = "CASE";
  owner_id = "case_7";
  source_application = "console";
  source_reference = some "app_1";
  consent_reference = none;
  document_type = "DEED";
  purpose = "KYC";
  classification = "INTERNAL";
  original_filename = "deed.pdf";
  content_type = "application/pdf";
  size_bytes = 1;
  sha256_hex = digest;
  bucket_name = "documents";
  object_key = key;
  status = status;
  scan_status = scan;
  scan_attempts = 0;
  scan_lease_until = none;
  retention_category = "case";
  retain_until = none;
  upload_expires_at = 900;
  uploaded_at = uploaded_at;
  created_by = "ann";
  created_at = 0;
  updated_at = 0;
  idempotency_key = "key-1";
  request_hash = "";
}

abbrev pub pending_row : Row
pending_row = row_of Status.pending_upload ScanStatus.pending none

abbrev pub waiting_row : Row
waiting_row = row_of Status.quarantined ScanStatus.pending (some 5)

abbrev pub ready_row : Row
ready_row = row_of Status.available ScanStatus.clean (some 5)

abbrev pub party_row : Row
party_row = record ready_row {
  public_id = "doc_08";
  object_key = "key_8";
  owner_type = "PARTY";
  owner_id = "party_3";
  party_id = some "party_3";
}

abbrev pub holding : Row → World
holding r = record { tables = record { rows = r ∷ []; audit = [] }; calls = 0; began = none }

pub pending_row-IsConsistent : IsConsistent (holding pending_row).tables
pending_row-IsConsistent = record {
  sound = (
    record {
      available_clean = ((λ e. absurd cc), (λ e. absurd cc));
      rejected_infected = ((λ e. absurd cc), (λ e. absurd cc));
      untouched = λ _. (refl, refl, refl);
      held = λ e. absurd cc;
      bounded = omega arith;
      used = ((λ e. cc), (λ e. cc), (λ e. cc));
    },
    tt,
  );
  unique = (tt, tt);
}

-- one available and clean row makes consistent tables
pub available_row-IsConsistent :
    (r : Row)
    → r.status ≡ Status.available
    → r.scan_status ≡ ScanStatus.clean
    → r.scan_attempts ≤ 5
    → IsConsistent (holding r).tables
available_row-IsConsistent r status scan attempts = record {
  sound = (
    record {
      available_clean = ((λ _. scan), (λ _. status));
      rejected_infected = ((λ e. absurd cc), (λ e. absurd cc));
      untouched = λ e. absurd cc;
      held = λ e. absurd cc;
      bounded = attempts;
      used = ((λ e. cc), (λ e. cc), (λ e. cc));
    },
    tt,
  );
  unique = (tt, tt);
}

pub ready_row-IsConsistent : IsConsistent (holding ready_row).tables
ready_row-IsConsistent = available_row-IsConsistent ready_row refl refl (omega arith)

pub party_row-IsConsistent : IsConsistent (holding party_row).tables
party_row-IsConsistent = available_row-IsConsistent party_row refl refl (omega arith)

abbrev pub one_byte : Body
one_byte = record { content = 9 ∷ []; broken = false }

-- a scope with the grant for the bank account of the party party_5
abbrev pub banker : Scope
banker = record staff {
  bank_account_reference = "app_1";
  bank_account_owner_type = "PARTY";
  bank_account_owner_id = "party_5";
}

abbrev pub bank_row : Row
bank_row = record ready_row {
  public_id = "doc_09";
  object_key = "key_9";
  owner_type = "PARTY";
  owner_id = "party_5";
  party_id = some "party_5";
  purpose = "bank_account_verification";
}

pub bank_row-IsConsistent : IsConsistent (holding bank_row).tables
bank_row-IsConsistent = available_row-IsConsistent bank_row refl refl (omega arith)

abbrev pub bank_deed : CreateInput
bank_deed = record deed { purpose = "bank_account_verification" }

-- the row that the creation for `deed` inserts
abbrev pub made_row : Row
made_row = record pending_row {
  upload_expires_at = 900001000;
  created_at = 2000;
  updated_at = 2000;
}

staff_invalid : valid_bank_account_scope staff ≡ false
unfolding valid_bank_account_scope file_storage_bucket.Common.String_discrete
    file_storage_bucket.Text.trim_space
staff_invalid = refl

pub staff_not_banker : ¬ (valid_bank_account_scope staff ≡ true)
staff_not_banker e = let apart : false ≡ true = sym staff_invalid ∙ e in cc
