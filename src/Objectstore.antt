-- ===== src/Objectstore.antt =====
-- internal/objectstore/s3.go: the object store of the service, over the S3 client. The client, its
-- signatures and the clock are parameters; a body is the bytes that reading it gives.
pub mod Integrity
use Prim.Native.String
use file_storage_bucket.Common.{
  ℕ, String, Bool, true, false, not, ◌||◌, ◌+◌, Option, none, some, List, [], ◌∷◌, ◌==◌, nat_eq,
  if◌then◌else◌,
}
use file_storage_bucket.Documents.Types.{Result, ok, err, failure, SignedRequest, Objects}

-- s3.PutObjectInput, as the store fills it
pub record PutInput : Type 0 where
  pub bucket : String
  pub key : String
  pub content_type : String
  pub content_length : ℕ
  pub metadata : List (String × String)

-- s3.GetObjectInput, as the store fills it
pub record GetInput : Type 0 where
  pub bucket : String
  pub key : String
  pub response_content_disposition : Option String

-- of s3.HeadObjectOutput, what the store reads; a key that the metadata lacks reads as ""
pub record Head : Type 0 where
  pub content_length : Option ℕ
  pub metadata : String → String

-- a presigned request of the client
pub record Presigned : Type 0 where
  pub url : String
  pub signed_header : List (String × List String)

-- the result of CreateBucket
pub data Creation : Type 0 where
  created already_owned_by_you refused : Creation

-- An answer may depend on when it is asked for.
pub record Client : Type 0 where
  pub get_object : ℕ → GetInput → Result (List ℕ)
  pub head_bucket : ℕ → String → Result (Unit {0})
  pub create_bucket : ℕ → String → Creation
  pub presign_put_object : ℕ → PutInput → (ttl : ℕ) → Result Presigned
  pub put_object : ℕ → PutInput → List ℕ → Result (Unit {0})
  pub head_object : ℕ → (bucket key : String) → Result Head
  pub presign_get_object : ℕ → GetInput → (ttl : ℕ) → Result Presigned
  -- time.Now().UTC()
  pub now : ℕ → ℕ

pub record Store : Type 0 where
  pub client : Client
  pub bucket : String

-- what the two presigning methods return for a signature that ends at `expires`
unfoldable pub signed : String → ℕ → Result Presigned → Result SignedRequest
signed method expires (err e) = err e
signed method expires (ok r) =
    ok (record { url = r.url; method = method; headers = r.signed_header; expires_at = expires })

unfoldable pub made_bucket : Creation → Result (Unit {0})
made_bucket created = ok tt
made_bucket already_owned_by_you = ok tt
made_bucket refused = err failure

unfoldable pub has_length : Option ℕ → ℕ → Bool
has_length none size = false
has_length (some n) size = nat_eq n size

-- h.ContentLength == nil || *h.ContentLength != size || h.Metadata["sha256"] != sha256
unfoldable pub check_head : String → ℕ → Result Head → Result (Unit {0})
unfolding has_length
check_head sha256 size (err e) = err e
check_head sha256 size (ok h) =
    if not (has_length h.content_length size) || not (h.metadata "sha256" == sha256)
    then err failure
    else ok tt

module _ (s : Store) where
  abbrev pub put_input : String → String → String → ℕ → PutInput
  put_input key content_type sha256 size = record {
    bucket = s.bucket;
    key = key;
    content_type = content_type;
    content_length = size;
    metadata = ("sha256", sha256) ∷ [];
  }

  unfoldable pub open_object : ℕ → String → Result (List ℕ)
  open_object at key =
      s.client.get_object at
        (record { bucket = s.bucket; key = key; response_content_disposition = none })

  -- the second call is made where the first one fails
  unfoldable pub after_head : ℕ → Result (Unit {0}) → Result (Unit {0})
  unfolding made_bucket
  after_head at (ok u) = ok tt
  after_head at (err e) = made_bucket (s.client.create_bucket at s.bucket)

  unfoldable pub ensure_bucket : ℕ → Result (Unit {0})
  unfolding after_head
  ensure_bucket at = after_head at (s.client.head_bucket at s.bucket)

  unfoldable pub presign_upload : ℕ → String → String → String → ℕ → ℕ → Result SignedRequest
  unfolding signed
  presign_upload at key content_type sha256 size ttl =
      signed "PUT" (s.client.now at + ttl)
        (s.client.presign_put_object at (put_input key content_type sha256 size) ttl)

  unfoldable pub put_object : ℕ → String → String → String → ℕ → List ℕ → Result (Unit {0})
  put_object at key content_type sha256 size body =
      s.client.put_object at (put_input key content_type sha256 size) body

  unfoldable pub verify : ℕ → String → String → ℕ → Result (Unit {0})
  unfolding check_head
  verify at key sha256 size = check_head sha256 size (s.client.head_object at s.bucket key)

  -- the Content-Disposition of a download
  unfoldable pub disposition : String → String
  disposition filename = String.◌++◌ "attachment; filename=\"" (String.◌++◌ filename "\"")

  unfoldable pub presign_download : ℕ → String → String → ℕ → Result SignedRequest
  unfolding signed disposition
  presign_download at key filename ttl = signed "GET" (s.client.now at + ttl) (
      s.client.presign_get_object at
        (record {
          bucket = s.bucket;
          key = key;
          response_content_disposition = some (disposition filename);
        })
        ttl)

  -- the store as the service uses it
  abbrev pub objects : Objects
  objects = record {
    presign_upload = presign_upload;
    put_object = put_object;
    verify = verify;
    presign_download = presign_download;
    open_object = some open_object;
  }
