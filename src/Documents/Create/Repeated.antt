-- ===== src/Documents/Create/Repeated.antt =====
-- Service.Create: a request that is repeated.
use file_storage_bucket.Common.{
  ℕ, suc, String, true, false, Bool, none, some, List, [], ◌∷◌, ◌++◌, find?, ◌≡◌, inl, inr, refl,
  sym, ◌∙◌, ap, subst, arith, eq_self, ◌==◌,
}
use file_storage_bucket.Documents.Types.{
  Scope, CreateInput, Document, SignedRequest, Service, ok, evidence_scope,
}
use file_storage_bucket.Documents.Tables.{Row, Tables, has_key, same_source}
use file_storage_bucket.Documents.Exec.{World, tick, statement, ◌>>=◌}
use file_storage_bucket.Documents.Exec.Inversion.{guard_then}
use file_storage_bucket.Documents.Access.{with_object, get_idempotent, matching_hash}
use file_storage_bucket.Documents.Lifecycle.Inversion.{insert_row-cases}
use file_storage_bucket.Documents.Create.{
  request_hash, new_row, new_id, resume, create_valid, create, normalise, effective_scope,
  lacks_grant, scope_invalid, input_invalid,
}
use file_storage_bucket.Documents.Create.Authorised.{IsAuthorised, create-cases}

-- an update finds the new last row where no other row matches
find?-last :
    (p : Row → Bool) (rs : List Row) (r : Row)
    → find? p rs ≡ none
    → p r ≡ true
    → find? p (rs ++ r ∷ []) ≡ some r
find?-last p [] r h k = rw (find?, k) refl
find?-last p (x ∷ xs) r h k = ground (arith, find?-last p xs r)

module _ (s : Service) (sc : Scope) (key hash : String) where
  abbrev asked : Row → Bool
  asked = has_key sc.tenant_id sc.environment sc.application_id key

  get_idempotent-found :
      (r : Row) (v : World)
      → s.db.fails v.calls ≡ false
      → find? asked v.tables.rows ≡ some r
      → r.request_hash ≡ hash
      → get_idempotent s sc key hash v ≡ (ok (with_object r), tick v)
  unfolding get_idempotent matching_hash ◌>>=◌ statement
  get_idempotent-found r v healthy found same =
      let equal : (r.request_hash == hash) ≡ true = rw same (eq_self hash) in ground arith

module _ (s : Service) (sc : Scope) (input : CreateInput) (entropy : List ℕ) (r : Row)
    (signed : SignedRequest) (v : World) where
  create_valid-replays :
      scope_invalid sc input ≡ false
      → input_invalid input ≡ false
      → get_idempotent s sc input.idempotency_key (request_hash s input) v
        ≡ (ok (with_object r), tick v)
      → s.objects.presign_upload
          (suc v.calls)
          r.object_key
          r.content_type
          r.sha256_hex
          r.size_bytes
          s.upload_ttl
        ≡ ok signed
      → create_valid s sc input entropy v ≡ (ok (with_object r, signed), tick (tick v))
  unfolding create_valid resume ◌>>=◌
  create_valid-replays scoped valid found link = rw (scoped, valid, found, link) refl

-- the row under which a repeated request finds the document
record IsKept (s : Service) (sc : Scope) (input : CreateInput) (t : Tables) (d : Document)
    : Type 0 where
  row : Row
  found :
      find? (has_key sc.tenant_id sc.environment sc.application_id input.idempotency_key) t.rows
      ≡ some row
  same_hash : row.request_hash ≡ request_hash s input
  shown : d ≡ with_object row

module _ (s : Service) (sc : Scope) (input : CreateInput) (entropy : List ℕ) (t u : Tables)
    (d : Document) (signed : SignedRequest) where
  new_row-has_key :
      (expires now : ℕ)
      → has_key sc.tenant_id sc.environment sc.application_id input.idempotency_key
          (new_row s sc input (new_id "doc" entropy) expires now)
        ≡ true
  unfolding has_key new_row
  new_row-has_key expires now =
      rw
        (
          eq_self sc.tenant_id,
          eq_self sc.environment,
          eq_self sc.application_id,
          eq_self input.idempotency_key,
        )
        refl

  new_row-request_hash :
      (expires now : ℕ)
      → (new_row s sc input (new_id "doc" entropy) expires now).request_hash ≡ request_hash s input
  unfolding new_row
  new_row-request_hash expires now = refl

  IsAuthorised-IsKept :
      ((expires now : ℕ)
        → find? (same_source (new_row s sc input (new_id "doc" entropy) expires now)) t.rows ≡ none)
      → IsAuthorised s sc input entropy t u d signed
      → IsKept s sc input u d
  IsAuthorised-IsKept fresh a =
      let new = new_row s sc input (new_id "doc" entropy) a.expires a.now in
      elim (insert_row-cases a.now new a.row t a.middle a.inserted) [
        | inl added ↦ record {
          row = new;
          found =
              subst
                (λ rows.
                  find?
                    (has_key sc.tenant_id sc.environment sc.application_id input.idempotency_key)
                    rows
                  ≡ some new)
                (sym (a.rows ∙ added.rows))
                (find?-last
                  (has_key sc.tenant_id sc.environment sc.application_id input.idempotency_key)
                  t.rows new a.unused_key (new_row-has_key a.expires a.now));
          same_hash = new_row-request_hash a.expires a.now;
          shown = a.shown ∙ ap with_object added.result;
        }
        | inr renewed ↦
            let matched = renewed.matched in let unmatched = fresh a.expires a.now in absurd cc
      ]

module _ (s : Service) (sc : Scope) (input : CreateInput) (entropy later : List ℕ) (w w' v : World)
    (d : Document) (signed again : SignedRequest) where
  -- A creation that is repeated with the same scope and input returns the same document with a link
  -- to its object, and changes no table. The first one succeeded and met no row of the same source;
  -- the tables are as it left them, and the database and the object store answer.
  pub create-repeated :
      ((expires now : ℕ)
        → find?
            (same_source (
              new_row s
                (effective_scope sc (normalise s input))
                (normalise s input)
                (new_id "doc" entropy)
                expires
                now))
            w.tables.rows
          ≡ none)
      → create s sc input entropy w ≡ (ok (d, signed), w')
      → v.tables ≡ w'.tables
      → s.db.fails v.calls ≡ false
      → s.objects.presign_upload
          (suc v.calls)
          d.object_key
          d.content_type
          d.sha256
          d.size
          s.upload_ttl
        ≡ ok again
      → create s sc input later v ≡ (ok (d, again), tick (tick v))
  unfolding create ◌>>=◌
  create-repeated fresh first same healthy link =
      let input' = normalise s input in
      let sc' = effective_scope sc input' in
      let (permitted, scoped, valid, outcome) =
        create-cases s sc input entropy w w' d signed first in
      let (has, _) =
        guard_then (lacks_grant s sc input) evidence_scope (create_valid s sc' input' entropy) w w'
          (d, signed) first in
      let kept : IsKept s sc' input' w'.tables d = elim outcome [
        | inl (unchanged, replayed) ↦ record {
          row = replayed.row;
          found = rw unchanged replayed.found;
          same_hash = replayed.same_hash;
          shown = replayed.shown;
        }
        | inr authorised ↦
            IsAuthorised-IsKept s sc' input' entropy w.tables w'.tables d signed fresh authorised
      ] in
      let found =
        get_idempotent-found s sc' input'.idempotency_key (request_hash s input') kept.row v healthy
          (rw same kept.found) kept.same_hash in
      let replay = create_valid-replays s sc' input' later kept.row again v scoped valid found (
        subst
          (λ x.
            s.objects.presign_upload (suc v.calls) (Document.object_key x) (Document.content_type x)
              (Document.sha256 x) (Document.size x) s.upload_ttl
            ≡ ok again)
          kept.shown link) in
      rw has (
        subst (λ x. create_valid s sc' input' later v ≡ (ok (x, again), tick (tick v)))
          (sym kept.shown) replay)
