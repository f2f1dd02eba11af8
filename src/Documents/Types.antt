-- ===== src/Documents/Types.antt =====
-- The types of internal/documents/service.go: scopes, inputs, documents, errors, and what the
-- service is given (its party directory, its object store, its database and the run time).
use file_storage_bucket.Common.{ℕ, String, List, Option, Bool}
use file_storage_bucket.Text.{CaseTables}

-- `negsuc n` is -(n + 1): a declared size is an int64 of any sign.
pub data ℤ : Type 0 where
  pos : ℕ → ℤ
  negsuc : ℕ → ℤ

-- ErrNotFound, ErrConflict, ErrEvidenceScope; `failure` is any other error.
pub data Error : Type 0 where
  not_found conflict evidence_scope failure : Error

pub data Result (A : Type 0) : Type 0 where
  ok : A → Result A
  err : Error → Result A

-- The statuses that the CHECK constraint of the column admits.
pub data Status : Type 0 where
  pending_upload uploaded quarantined available rejected expired : Status

pub Status-discrete : Discrete Status
Status-discrete = hlevel

pub data ScanStatus : Type 0 where
  pending scanning clean infected failed not_required : ScanStatus

pub record Scope : Type 0 where
  pub tenant_id : String
  pub environment : String
  pub subject : String
  pub application_id : String
  pub correlation_id : String
  pub payment_reference : String
  pub statement_reference : String
  pub bank_account_reference : String
  pub bank_account_owner_type : String
  pub bank_account_owner_id : String

pub record CreateInput : Type 0 where
  pub party_id : String
  pub owner_type : String
  pub owner_id : String
  pub source_reference : String
  pub consent_reference : String
  pub document_type : String
  pub purpose : String
  pub classification : String
  pub filename : String
  pub content_type : String
  pub sha256 : String
  pub retention_category : String
  pub idempotency_key : String
  pub size : ℤ
  pub retain_until : Option ℕ

pub record Document : Type 0 where
  pub id : String
  pub party_id : String
  pub owner_type : String
  pub owner_id : String
  pub status : Status
  pub scan_status : ScanStatus
  pub document_type : String
  pub purpose : String
  pub classification : String
  pub content_type : String
  pub size : ℕ
  pub sha256 : String
  pub created_at : ℕ
  pub object_key : String
  pub filename : String
  pub tenant_id : String
  pub environment : String

-- objectstore.SignedRequest
pub record SignedRequest : Type 0 where
  pub url : String
  pub method : String
  pub headers : List (String × List String)
  pub expires_at : ℕ

-- The interface Objects, with the method Open that some implementations have. An answer may depend
-- on when it is asked for: the first argument counts the calls that were made before.
pub record Objects : Type 0 where
  pub presign_upload : ℕ → String → String → String → ℕ → ℕ → Result SignedRequest
  pub put_object : ℕ → String → String → String → ℕ → List ℕ → Result (Unit {0})
  pub verify : ℕ → String → String → ℕ → Result (Unit {0})
  pub presign_download : ℕ → String → String → ℕ → Result SignedRequest
  pub open_object : Option (ℕ → String → Result (List ℕ))

-- The interface Party.
pub record Party : Type 0 where
  pub exists : ℕ → String → String → String → Result (Unit {0})

-- The connection to PostgreSQL: which calls fail for reasons outside the program, the time at each,
-- in microseconds, the order of texts under the collation of the database, and which calls of Commit
-- take effect although they fail.
pub record Database : Type 0 where
  pub fails : ℕ → Bool
  pub clock : ℕ → ℕ
  pub before : String → String → Bool
  pub keeps : ℕ → Bool

-- An io.Reader: the bytes that it gives, and whether it ends with an error.
pub record Body : Type 0 where
  pub content : List ℕ
  pub broken : Bool

-- crypto/sha256, encoding/json and the case tables of package unicode.
pub record Platform : Type 0 where
  pub sha256_sum : List ℕ → List ℕ
  pub marshal : CreateInput → List ℕ
  pub case_tables : CaseTables

pub record Service : Type 0 where
  pub db : Database
  pub party : Party
  pub objects : Objects
  pub bucket : String
  pub upload_ttl : ℕ
  pub download_ttl : ℕ
  pub platform : Platform
