-- ===== src/Objectstore/Integrity.antt =====
-- Verify and the presigned requests, and what the methods of the service take from them.
use Prim.Native.String
use file_storage_bucket.Common.{
  ℕ, ◌+◌, String, Option, none, some, true, ◌≡◌, ◌↔◌, refl, sym, arith, subst, ap, In,
}
use file_storage_bucket.Documents.Types.{
  Scope, Document, Service, Result, ok, err, SignedRequest, pending_upload, available, clean,
  Objects,
}
use file_storage_bucket.Documents.Tables.{Row}
use file_storage_bucket.Documents.Exec.{World}
use file_storage_bucket.Documents.Access.Get.{IsVisible}
use file_storage_bucket.Documents.Upload.{complete, download}
use file_storage_bucket.Documents.Upload.Complete.{complete-IsCompleted}
use file_storage_bucket.Documents.Upload.Download.{download-IsReleased}
use file_storage_bucket.Documents.Lifecycle.{IsConsistent}
use file_storage_bucket.Objectstore.{
  Head, Presigned, Store, signed, has_length, check_head, verify, presign_download, disposition,
  objects,
}

-- the client reports an object under the key with the size and the digest
pub record HasIntegrity (s : Store) (at : ℕ) (key sha256 : String) (size : ℕ) : Type 0 where
  pub head : Head
  pub got : s.client.head_object at s.bucket key ≡ ok head
  pub same_size : head.content_length ≡ some size
  pub same_digest : head.metadata "sha256" ≡ sha256

has_length_lem : (o : Option ℕ) (size : ℕ) → has_length o size ≡ true → o ≡ some size
unfolding has_length
has_length_lem none size h = cc
has_length_lem (some n) size h = ap some (ground arith)

has_length-some : (size : ℕ) → has_length (some size) size ≡ true
unfolding has_length
has_length-some size = ground arith

module _ (sha256 : String) (size : ℕ) where
  check_head-eq-ok :
      (r : Result Head)
      → check_head sha256 size r ≡ ok tt
      → (h : Head) × (r ≡ ok h)
        × (has_length h.content_length size ≡ true)
        × (h.metadata "sha256" ≡ sha256)
  unfolding check_head
  check_head-eq-ok (err e) k = cc
  check_head-eq-ok (ok h) k = (h, refl, ground arith, ground arith)

  check_head-passes :
      (h : Head)
      → h.content_length ≡ some size
      → h.metadata "sha256" ≡ sha256
      → check_head sha256 size (ok h) ≡ ok tt
  unfolding check_head
  check_head-passes h same_size same_digest =
      let long : has_length h.content_length size ≡ true =
        subst (λ o. has_length o size ≡ true) (sym same_size) (has_length-some size) in
      ground arith

module _ (s : Store) (at : ℕ) (key sha256 : String) (size : ℕ) where
  -- The object store confirms an upload exactly where the client reports an object under the key, of
  -- the size and with the digest in its metadata; any other answer of the client, and an object whose
  -- length is unknown, fails.
  pub verify-HasIntegrity :
      (verify s at key sha256 size ≡ ok tt) ↔ HasIntegrity s at key sha256 size
  unfolding verify
  verify-HasIntegrity = (
    (λ k.
        let (h, got, long, same) =
          check_head-eq-ok sha256 size (s.client.head_object at s.bucket key) k in
        record {
          head = h;
          got = got;
          same_size = has_length_lem h.content_length size long;
          same_digest = same;
        }),
    (λ k.
        subst (λ r. check_head sha256 size r ≡ ok tt) (sym k.got)
          (check_head-passes sha256 size k.head k.same_size k.same_digest)),
  )

-- the upload of a row was completed, and the store holds an object of its size and digest
pub record IsHeld (s : Service) (st : Store) (sc : Scope) (id : String) (w : World) : Type 0 where
  pub row : Row
  pub stored : In row w.tables.rows
  pub visible : IsVisible sc id row
  pub was_pending : row.status ≡ pending_upload
  pub at : ℕ
  pub integrity : HasIntegrity st at row.object_key row.sha256_hex row.size_bytes

-- the link of a download as the client signed it
pub record IsLinked (s : Service) (st : Store) (sc : Scope) (id : String) (w : World)
    (x : SignedRequest) : Type 0 where
  pub row : Row
  pub stored : In row w.tables.rows
  pub visible : IsVisible sc id row
  pub released : (row.status ≡ available) × (row.scan_status ≡ clean)
  pub at : ℕ
  pub presigned : Presigned
  pub answer :
      st.client.presign_get_object at
        (record {
          bucket = st.bucket;
          key = row.object_key;
          response_content_disposition =
              some (String.◌++◌ "attachment; filename=\"" (String.◌++◌ row.original_filename "\""));
        })
        s.download_ttl
      ≡ ok presigned
  pub url : (x.url ≡ presigned.url) × (x.method ≡ "GET") × (x.headers ≡ presigned.signed_header)
  pub expires : x.expires_at ≡ st.client.now at + s.download_ttl

signed-eq-ok :
    (method : String) (expires : ℕ) (r : Result Presigned) (x : SignedRequest)
    → signed method expires r ≡ ok x
    → (p : Presigned) × (r ≡ ok p)
      × (x.url ≡ p.url)
      × (x.method ≡ method)
      × (x.headers ≡ p.signed_header)
      × (x.expires_at ≡ expires)
unfolding signed
signed-eq-ok method expires (err e) x h = cc
signed-eq-ok method expires (ok p) x h = (p, refl, cc, cc, cc, cc)

module _ (s : Service) (st : Store) (over : s.objects ≡ objects st) (sc : Scope) (id : String)
    (w w' : World) (c : IsConsistent w.tables) where
  -- Where the service runs over the S3 store, an upload is completed only if the client reports an
  -- object under the key of the row, of the row's size and with the row's digest in its metadata.
  pub complete-IsHeld : (d : Document) → complete s sc id w ≡ (ok d, w') → IsHeld s st sc id w
  complete-IsHeld d h =
      let k = complete-IsCompleted s sc id w' d w c h in
      record {
        row = k.row;
        stored = k.stored;
        visible = k.visible;
        was_pending = k.was_pending;
        at = k.at;
        integrity =
            (verify-HasIntegrity st k.at k.row.object_key k.row.sha256_hex k.row.size_bytes).0 (
              subst
                (λ o.
                  Objects.verify o k.at k.row.object_key k.row.sha256_hex k.row.size_bytes ≡ ok tt)
                over k.verified);
      }

  presign_download-eq-ok :
      (at : ℕ) (key name : String) (x : SignedRequest)
      → presign_download st at key name s.download_ttl ≡ ok x
      → (p : Presigned) × (st.client.presign_get_object at
            (record {
              bucket = st.bucket;
              key = key;
              response_content_disposition =
                  some (String.◌++◌ "attachment; filename=\"" (String.◌++◌ name "\""));
            })
            s.download_ttl
          ≡ ok p)
        × (x.url ≡ p.url)
        × (x.method ≡ "GET")
        × (x.headers ≡ p.signed_header)
        × (x.expires_at ≡ st.client.now at + s.download_ttl)
  unfolding presign_download disposition
  presign_download-eq-ok at key name x h =
      signed-eq-ok "GET" (st.client.now at + s.download_ttl) _ x h

  -- Where the service runs over the S3 store, a download link is a signed GET of the object of an
  -- available and clean row that the scope may see, and it expires when the lifetime of downloads has
  -- passed. It asks for the content disposition `attachment; filename="` and the row's file name as
  -- it is, with no character escaped, and a closing quote.
  pub download-IsLinked :
      (x : SignedRequest) → download s sc id w ≡ (ok x, w') → IsLinked s st sc id w x
  download-IsLinked x h =
      let k = download-IsReleased s sc id w w' x c h in
      let (p, answer, url, method, headers, expires) =
        presign_download-eq-ok k.at k.row.object_key k.row.original_filename x (
          subst
            (λ o.
              Objects.presign_download o k.at k.row.object_key k.row.original_filename
                s.download_ttl
              ≡ ok x)
            over k.link) in
      record {
        row = k.row;
        stored = k.stored;
        visible = k.visible;
        released = (k.is_available, k.is_clean_scan);
        at = k.at;
        presigned = p;
        answer = answer;
        url = (url, method, headers);
        expires = expires;
      }
