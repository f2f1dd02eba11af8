-- ===== src/Documents/Create/Outcome.antt =====
-- Service.Create: what a creation that succeeded did, for a repeated request and for a new one.
use file_storage_bucket.Common.{
  ℕ, String, Bool, true, refl, some, ◌≡◌, ◌∙◌, ap, arith, In, subst, find?, Option-cases, inl, inr,
}
use file_storage_bucket.Text.{hex_encode}
use file_storage_bucket.Documents.Types.{
  Scope, CreateInput, Document, SignedRequest, Service, Error, ok, not_found,
}
use file_storage_bucket.Documents.Tables.{Row, Tables, has_key}
use file_storage_bucket.Documents.Exec.{World, Action, now_at, statement, call, ◌>>=◌}
use file_storage_bucket.Documents.Exec.Inversion.{>>=-eq-ok, call_then, statement-eq-ok}
use file_storage_bucket.Documents.Access.{first_row, with_object, get_idempotent, matching_hash}
use file_storage_bucket.Documents.Access.Isolation.{select-eq-ok}
use file_storage_bucket.Documents.Create.{request_hash}

-- the caller gets the document that an earlier request with the same key and input made
pub record IsReplayed (s : Service) (sc : Scope) (input : CreateInput) (t : Tables) (d : Document)
    (signed : SignedRequest) : Type 0 where
  pub row : Row
  pub found :
      find? (has_key sc.tenant_id sc.environment sc.application_id input.idempotency_key) t.rows
      ≡ some row
  pub stored : In row t.rows
  pub same_key :
      has_key sc.tenant_id sc.environment sc.application_id input.idempotency_key row ≡ true
  pub of_request :
      (row.tenant_id ≡ sc.tenant_id)
      × (row.environment ≡ sc.environment)
      × (row.source_application ≡ sc.application_id)
      × (row.idempotency_key ≡ input.idempotency_key)
  pub same_hash : row.request_hash ≡ request_hash s input
  pub same_content :
      row.request_hash
      ≡ hex_encode
          (s.platform.sha256_sum (s.platform.marshal (record input { idempotency_key = "" })))
  pub shown : d ≡ with_object row
  pub at : ℕ
  pub link :
      s.objects.presign_upload at row.object_key row.content_type row.sha256_hex row.size_bytes
        s.upload_ttl
      ≡ ok signed

request_hash_lem :
    (s : Service) (input : CreateInput)
    → request_hash s input
      ≡ hex_encode
          (s.platform.sha256_sum (s.platform.marshal (record input { idempotency_key = "" })))
unfolding request_hash
request_hash_lem s input = refl

pub has_key_lem :
    (tenant environment application key : String) (r : Row)
    → has_key tenant environment application key r ≡ true
    → (r.tenant_id ≡ tenant)
      × (r.environment ≡ environment)
      × (r.source_application ≡ application)
      × (r.idempotency_key ≡ key)
unfolding has_key
has_key_lem tenant environment application key r h = ground arith

first_row-found :
    (p : Row → Bool) (e : Error) (now : ℕ) (t u : Tables) (r : Row)
    → first_row p e now t ≡ ok (r, u)
    → find? p t.rows ≡ some r
first_row-found p e now t u r h = elim (Option-cases (find? p t.rows)) [
  | inl missing ↦ absurd (ground arith)
  | inr (x, found) ↦ ground arith
]

matching_hash-eq-ok :
    (s : Service) (hash : String) (r : Row) (w w' : World) (d : Document)
    → matching_hash s hash r w ≡ (ok d, w')
    → (r.request_hash ≡ hash) × (d ≡ with_object r) × (w' ≡ w)
unfolding matching_hash
matching_hash-eq-ok s hash r w w' d h = ground arith

module _ (s : Service) (sc : Scope) (input : CreateInput) (w : World) where
  -- the link to the stored object
  abbrev pub signing : Document → Action (Document × SignedRequest)
  signing d =
      call
        (λ n. s.objects.presign_upload n d.object_key d.content_type d.sha256 d.size s.upload_ttl)
      >>= λ x. (λ u. (ok (d, x), u))

  pub replayed :
      (d : Document) (signed : SignedRequest) (v w' : World)
      → get_idempotent s sc input.idempotency_key (request_hash s input) w ≡ (ok d, v)
      → signing d v ≡ (ok (d, signed), w')
      → (w'.tables ≡ w.tables) × IsReplayed s sc input w.tables d signed
  unfolding get_idempotent
  replayed d signed v w' h k =
      let (r, v', read, rest) =
        >>=-eq-ok
          (statement s.db (
            first_row (has_key sc.tenant_id sc.environment sc.application_id input.idempotency_key)
              not_found))
          (matching_hash s (request_hash s input)) w v d h in
      let (hit, place, same) =
        select-eq-ok s (has_key sc.tenant_id sc.environment sc.application_id input.idempotency_key)
          not_found w v' r read in
      let (hash, shown, here) = matching_hash-eq-ok s (request_hash s input) r v' v d rest in
      let (x, link, done) =
        call_then
          (λ n. s.objects.presign_upload n d.object_key d.content_type d.sha256 d.size s.upload_ttl)
          (λ x u. (ok (d, x), u)) v w' (d, signed) k in
      let is : x ≡ signed = cc in
      (
        cc,
        record {
          row = r;
          found =
              first_row-found
                (has_key sc.tenant_id sc.environment sc.application_id input.idempotency_key)
                not_found (now_at s.db w) w.tables v'.tables r
                (statement-eq-ok s.db _ w v' r read).0;
          stored = place;
          same_key = hit;
          of_request =
              has_key_lem sc.tenant_id sc.environment sc.application_id input.idempotency_key r hit;
          same_hash = hash;
          same_content = hash ∙ request_hash_lem s input;
          shown = shown;
          at = v.calls;
          link =
              subst
                (λ e.
                  s.objects.presign_upload v.calls (Document.object_key e) (Document.content_type e)
                    (Document.sha256 e) (Document.size e) s.upload_ttl
                  ≡ ok signed)
                shown (link ∙ ap ok is);
        },
      )
