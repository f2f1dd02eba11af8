-- ===== src/Documents/Upload/Content.antt =====
-- Service.UploadContent: what reached the object store before an upload was completed.
use file_storage_bucket.Common.{
  length-take, ℕ, ◌+◌, String, false, not, List, length, take, leb, nat_eq, ◌≡◌, sym, ◌∙◌, ap,
  arith, In, ◌==◌, subst, Bool-cases, inl, inr,
}
use file_storage_bucket.Text.{hex_encode}
use file_storage_bucket.Documents.Types.{Scope, Document, Service, Body, Result, ok, conflict}
use file_storage_bucket.Documents.Tables.{Row}
use file_storage_bucket.Documents.Exec.{World, tick, call, raise_if, ◌>>◌, ◌>>=◌}
use file_storage_bucket.Documents.Exec.Inversion.{>>=-eq-ok, guard_then, call_then}
use file_storage_bucket.Documents.Access.{get}
use file_storage_bucket.Documents.Access.Get.{IsVisible}
use file_storage_bucket.Documents.Upload.{upload_content, complete, is_pending, read_limited}
use file_storage_bucket.Documents.Upload.Download.{get-IsFound, shown_columns}
use file_storage_bucket.Documents.Upload.Complete.{IsCompleted, complete-IsCompleted, shown_content}
use file_storage_bucket.Documents.Lifecycle.{IsConsistent}

-- a read of at most n + 1 bytes that gave n bytes gave the whole of an unbroken body
read_limited-whole :
    (n : ℕ) (b : Body) (buf : List ℕ)
    → read_limited (n + 1) b ≡ ok buf
    → length buf ≡ n
    → (buf ≡ b.content) × (b.broken ≡ false)
unfolding read_limited
read_limited-whole n b buf h k = elim (Bool-cases (leb (n + 1) (length b.content))) [
  | inl long ↦
      let cut : take (n + 1) b.content ≡ buf = ground arith in
      let same : length buf ≡ n + 1 =
        ap length (sym cut) ∙ length-take (n + 1) b.content (ground arith) in
      absurd (omega arith)
  | inr short ↦ ground arith
]

-- the whole body was stored for a pending document that the scope may see, and then completed
pub record IsStored (s : Service) (sc : Scope) (id : String) (body : Body) (w w' : World)
    (d : Document) : Type 0 where
  pub row : Row
  pub stored : In row w.tables.rows
  pub visible : IsVisible sc id row
  pub unbroken : body.broken ≡ false
  pub same_size : length body.content ≡ row.size_bytes
  pub same_digest : hex_encode (s.platform.sha256_sum body.content) ≡ row.sha256_hex
  pub before : World
  pub read : Document
  pub got : get s sc id w ≡ (ok read, before)
  pub at : ℕ
  pub next_call : at ≡ before.calls
  pub put :
      s.objects.put_object at row.object_key row.content_type row.sha256_hex row.size_bytes
        body.content
      ≡ ok tt
  pub middle : World
  pub later : middle ≡ tick before
  pub same : middle.tables ≡ w.tables
  pub completing : complete s sc id middle ≡ (ok d, w')
  pub completed : IsCompleted s sc id middle w' d

module _ (s : Service) (sc : Scope) (id : String) (body : Body) (w' : World) (d : Document) where
  -- the checks on what was read, and what follows them
  abbrev keeping : Document → List ℕ → World → Result Document × World
  keeping read buf =
      raise_if (not (nat_eq (length buf) read.size)) conflict
      >> (raise_if (not (hex_encode (s.platform.sha256_sum buf) == read.sha256)) conflict
          >> (call (λ n.
                s.objects.put_object n read.object_key read.content_type read.sha256 read.size buf)
              >> complete s sc id))

  keeping-eq-ok :
      (read : Document) (buf : List ℕ) (v : World)
      → keeping read buf v ≡ (ok d, w')
      → (length buf ≡ read.size)
        × (hex_encode (s.platform.sha256_sum buf) ≡ read.sha256)
        × (s.objects.put_object v.calls read.object_key read.content_type read.sha256 read.size buf
            ≡ ok tt)
        × (complete s sc id (tick v) ≡ (ok d, w'))
  keeping-eq-ok read buf v h =
      let (sized, h') =
        guard_then (not (nat_eq (length buf) read.size)) conflict
          (raise_if (not (hex_encode (s.platform.sha256_sum buf) == read.sha256)) conflict
            >> (call (λ n.
                  s.objects.put_object n read.object_key read.content_type read.sha256 read.size
                    buf)
                >> complete s sc id))
          v w' d h in
      let (digested, h'') =
        guard_then (not (hex_encode (s.platform.sha256_sum buf) == read.sha256)) conflict
          (call (λ n.
              s.objects.put_object n read.object_key read.content_type read.sha256 read.size buf)
            >> complete s sc id)
          v w' d h' in
      let (u, put, rest) =
        call_then
          (λ n. s.objects.put_object n read.object_key read.content_type read.sha256 read.size buf)
          (λ _. complete s sc id) v w' d h'' in
      (ground arith, ground arith, put, rest)

  -- Content is accepted only for a pending document that the scope may see, and only where the body
  -- ends without an error and has exactly the size and the digest of the row. The object store takes
  -- the whole body under the key of the row in the first call after the document was read, and the
  -- upload is completed from the world that this call left.
  pub upload_content-IsStored :
      (w : World)
      → IsConsistent w.tables
      → upload_content s sc id body w ≡ (ok d, w')
      → IsStored s sc id body w w' d
  unfolding upload_content
  upload_content-IsStored w c h =
      let (read, v, got, rest) =
        >>=-eq-ok (get s sc id)
          (λ x.
            raise_if (not (is_pending x)) conflict
            >> ((λ y. (read_limited (x.size + 1) body, y)) >>= keeping x))
          w w' d h in
      let (same, f) = get-IsFound s sc id w v read c got in
      let (_, reading) =
        guard_then (not (is_pending read)) conflict
          ((λ y. (read_limited (read.size + 1) body, y)) >>= keeping read) v w' d rest in
      let (buf, v', whole, kept) =
        >>=-eq-ok (λ y. (read_limited (read.size + 1) body, y)) (keeping read) v w' d reading in
      let here : v' ≡ v = cc in
      let (sized, digested, put, completing) = keeping-eq-ok read buf v' kept in
      let (is, unbroken) = read_limited-whole read.size body buf (ap (λ p. p.0) whole) sized in
      let (_, _, key, _) = shown_columns sc id w.tables read f in
      let (digest, size, kind) = shown_content sc id w.tables read f in
      let same' : v'.tables ≡ w.tables = ap World.tables here ∙ same in
      record {
        row = f.row;
        stored = f.stored;
        visible = f.visible;
        unbroken = unbroken;
        same_size = ap length (sym is) ∙ sized ∙ size;
        same_digest = rw (← is, ← digest) digested;
        before = v;
        read = read;
        got = got;
        at = v'.calls;
        next_call = ap World.calls here;
        put = rw (← key, ← kind, ← digest, ← size, ← is) put;
        middle = tick v';
        later = ap tick here;
        same = same';
        completing = completing;
        completed =
            complete-IsCompleted s sc id w' d (tick v') (subst IsConsistent (sym same') c)
              completing;
      }
