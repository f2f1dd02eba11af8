-- ===== src/Documents/Create/Authorised.antt =====
-- Service.Create: a creation that succeeded, for a new request.
use file_storage_bucket.Common.{
  ℕ, ◌+◌, String, none, false, ◌||◌, List, ◌≡◌, ◌⊎◌, inl, inr, ◌∙◌, ap, arith, find?, subst,
}
use file_storage_bucket.Documents.Types.{
  Scope, CreateInput, Document, SignedRequest, Service, Result, ok, err, not_found, conflict,
  evidence_scope, failure,
}
use file_storage_bucket.Documents.Tables.{Row, Tables, has_key, insert_row}
use file_storage_bucket.Documents.Exec.{
  World, Action, tick, now_at, statement, transaction, pure, call, attempt, ◌>>◌, ◌>>=◌,
}
use file_storage_bucket.Documents.Exec.Inversion.{
  >>=-eq-ok, call_then, then_pure, guard_then, statement-eq-ok, transaction-eq-ok, begun,
}
use file_storage_bucket.Documents.Access.{with_object, get_idempotent}
use file_storage_bucket.Documents.Audit.{record_event}
use file_storage_bucket.Documents.Upload.Complete.{record_event-rows}
use file_storage_bucket.Documents.Create.{
  request_hash, object_key_of, new_row, new_id, magnitude, authorise_upload, check_party,
  sign_upload, create_new, resume, create_valid, create, normalise, effective_scope, lacks_grant,
  scope_invalid, input_invalid,
}
use file_storage_bucket.Documents.Create.Grant.{IsPermitted, lacks_grant-IsPermitted}
use file_storage_bucket.Documents.Create.Outcome.{IsReplayed, replayed, signing}
use file_storage_bucket.Documents.Create.Steps.{get_idempotent-missing, check_party-eq-ok}

-- a row was inserted or renewed, and the caller gets a link to an object of that input
pub record IsAuthorised (s : Service) (sc : Scope) (input : CreateInput) (entropy : List ℕ)
    (t u : Tables) (d : Document) (signed : SignedRequest) : Type 0 where
  pub unused_key :
      find? (has_key sc.tenant_id sc.environment sc.application_id input.idempotency_key) t.rows
      ≡ none
  pub party_exists :
      input.owner_type ≡ "PARTY"
      → (n : ℕ) × (s.party.exists n sc.tenant_id sc.environment input.party_id ≡ ok tt)
  pub expires : ℕ
  pub now : ℕ
  pub row : Row
  pub middle : Tables
  pub inserted :
      insert_row now (new_row s sc input (new_id "doc" entropy) expires now) t ≡ ok (row, middle)
  pub rows : u.rows ≡ middle.rows
  pub shown : d ≡ with_object row
  pub at : ℕ
  pub link :
      s.objects.presign_upload at
        (object_key_of s sc input (new_id "doc" entropy))
        input.content_type
        input.sha256
        (magnitude input.size)
        s.upload_ttl
      ≡ ok signed

module _ (s : Service) (sc : Scope) (input : CreateInput) (entropy : List ℕ) where
  authorise_upload-eq-ok :
      (id : String) (expires : ℕ) (w w' : World) (r : Row)
      → authorise_upload s sc input id expires w ≡ (ok r, w')
      → (u : Tables) × (insert_row
            (now_at s.db w)
            (new_row s sc input id expires (now_at s.db w))
            w.tables
          ≡ ok (r, u))
        × (w'.tables.rows ≡ u.rows)
  unfolding authorise_upload
  authorise_upload-eq-ok id expires w w' r h =
      let (x, v, took, rest) =
        >>=-eq-ok (statement s.db (λ now. insert_row now (new_row s sc input id expires now)))
          (λ x. record_event s sc x.public_id "upload_authorized" >> pure x) w w' r h in
      let (is, (u, logged)) =
        then_pure (record_event s sc x.public_id "upload_authorized") x r v w' rest in
      let inserted =
        (statement-eq-ok s.db (λ now. insert_row now (new_row s sc input id expires now)) w v x
          took).0 in
      (
        v.tables,
        rw is inserted,
        record_event-rows s sc x.public_id "upload_authorized" v w' u logged,
      )

  -- the transaction, and the link
  abbrev inserting : ℕ → Action (Document × SignedRequest)
  inserting started =
      transaction s.db (authorise_upload s sc input (new_id "doc" entropy) (started + s.upload_ttl))
      >>= λ r.
          sign_upload s (object_key_of s sc input (new_id "doc" entropy)) input.content_type
            input.sha256 (magnitude input.size)
          >>= λ x u. (ok (with_object r, x), u)

  inserting-IsAuthorised :
      (started : ℕ) (w w' : World) (d : Document) (signed : SignedRequest) (t : Tables)
      → w.tables ≡ t
      → find? (has_key sc.tenant_id sc.environment sc.application_id input.idempotency_key) t.rows
        ≡ none
      → (input.owner_type ≡ "PARTY"
          → (n : ℕ) × (s.party.exists n sc.tenant_id sc.environment input.party_id ≡ ok tt))
      → inserting started w ≡ (ok (d, signed), w')
      → IsAuthorised s sc input entropy t w'.tables d signed
  inserting-IsAuthorised started w w' d signed t same unused party h =
      let id = new_id "doc" entropy in
      let (r, v, committed, rest) =
        >>=-eq-ok (transaction s.db (authorise_upload s sc input id (started + s.upload_ttl)))
          (λ r.
            sign_upload s (object_key_of s sc input id) input.content_type input.sha256
              (magnitude input.size)
            >>= λ x u. (ok (with_object r, x), u))
          w w' (d, signed) h in
      let (x, link, done) =
        call_then
          (λ n.
            s.objects.presign_upload n (object_key_of s sc input id) input.content_type input.sha256
              (magnitude input.size) s.upload_ttl)
          (λ x u. (ok (with_object r, x), u)) v w' (d, signed) rest in
      let (m, ran, kept) =
        transaction-eq-ok s.db (authorise_upload s sc input id (started + s.upload_ttl)) w v r
          committed in
      let (u, inserted, rows) =
        authorise_upload-eq-ok id (started + s.upload_ttl) (begun s.db w) m r ran in
      let is : x ≡ signed = cc in
      let left : w'.tables ≡ v.tables = cc in
      record {
        unused_key = unused;
        party_exists = party;
        expires = started + s.upload_ttl;
        now = s.db.clock w.calls;
        row = r;
        middle = u;
        inserted = rw (← same) inserted;
        rows = ap Tables.rows (left ∙ kept) ∙ rows;
        shown = cc;
        at = v.calls;
        link = link ∙ ap ok is;
      }

  create_new-IsAuthorised :
      (w w' : World) (d : Document) (signed : SignedRequest) (t : Tables)
      → w.tables ≡ t
      → find? (has_key sc.tenant_id sc.environment sc.application_id input.idempotency_key) t.rows
        ≡ none
      → create_new s sc input entropy w ≡ (ok (d, signed), w')
      → IsAuthorised s sc input entropy t w'.tables d signed
  unfolding create_new
  create_new-IsAuthorised w w' d signed t same unused h =
      let (u, v, checked, rest) =
        >>=-eq-ok (check_party s sc input) (λ _. call (λ n. ok (s.db.clock n)) >>= inserting) w w'
          (d, signed) h in
      let (here, party) = check_party-eq-ok s sc input w v u checked in
      let (started, _, rest') =
        call_then (λ n. ok (s.db.clock n)) inserting v w' (d, signed) rest in
      inserting-IsAuthorised started (tick v) w' d signed t (here ∙ same) unused party rest'

  resume-cases :
      (found : Result Document) (w v w' : World) (d : Document) (signed : SignedRequest)
      → get_idempotent s sc input.idempotency_key (request_hash s input) w ≡ (found, v)
      → resume s sc input entropy found v ≡ (ok (d, signed), w')
      → ((w'.tables ≡ w.tables) × IsReplayed s sc input w.tables d signed)
        ⊎ IsAuthorised s sc input entropy w.tables w'.tables d signed
  unfolding resume
  resume-cases (ok x) w v w' d signed h k =
      let (y, v', linked, done) =
        >>=-eq-ok (sign_upload s x.object_key x.content_type x.sha256 x.size)
          (λ y u. (ok (x, y), u)) v w' (d, signed) k in
      let is : x ≡ d = cc in
      inl (
        replayed s sc input w d signed v w'
          (subst
            (λ y. get_idempotent s sc input.idempotency_key (request_hash s input) w ≡ (ok y, v)) is
            h)
          (subst (λ y. signing s sc input w y v ≡ (ok (d, signed), w')) is k))
  resume-cases (err not_found) w v w' d signed h k =
      let (same, unused) =
        get_idempotent-missing s sc input.idempotency_key (request_hash s input) w v h in
      inr (create_new-IsAuthorised v w' d signed w.tables same unused k)
  resume-cases (err conflict) w v w' d signed h k = cc
  resume-cases (err evidence_scope) w v w' d signed h k = cc
  resume-cases (err failure) w v w' d signed h k = cc

module _ (s : Service) (sc : Scope) (input : CreateInput) (entropy : List ℕ) (w w' : World) where
  -- A creation that succeeds has the grant that its purpose needs, and an input and a scope that are
  -- valid once normalised. Where a row of the application has the idempotency key and the hash of
  -- the request, nothing changes, and the caller gets that document with a link to its object;
  -- otherwise no row has the key, the party of a party's document exists, and one row was inserted
  -- or renewed.
  pub create-cases :
      (d : Document) (signed : SignedRequest)
      → create s sc input entropy w ≡ (ok (d, signed), w')
      → let input' = normalise s input in
        let sc' = effective_scope sc input' in
        IsPermitted s sc input
        × (scope_invalid sc' input' ≡ false)
        × (input_invalid input' ≡ false)
        × (((w'.tables ≡ w.tables) × IsReplayed s sc' input' w.tables d signed)
            ⊎ IsAuthorised s sc' input' entropy w.tables w'.tables d signed)
  unfolding create create_valid
  create-cases d signed h =
      let input' = normalise s input in
      let sc' = effective_scope sc input' in
      let (has, rest) =
        guard_then (lacks_grant s sc input) evidence_scope (create_valid s sc' input' entropy) w w'
          (d, signed) h in
      let (valid, rest') =
        guard_then (scope_invalid sc' input' || input_invalid input') conflict
          (attempt (get_idempotent s sc' input'.idempotency_key (request_hash s input'))
            >>= resume s sc' input' entropy)
          w w' (d, signed) rest in
      let (found, v, got, rest'') =
        >>=-eq-ok (attempt (get_idempotent s sc' input'.idempotency_key (request_hash s input')))
          (resume s sc' input' entropy) w w' (d, signed) rest' in
      let settled : (r : Result Document) (u : World)
          → attempt (get_idempotent s sc' input'.idempotency_key (request_hash s input')) w
            ≡ (ok r, u)
          → get_idempotent s sc' input'.idempotency_key (request_hash s input') w ≡ (r, u) =
        λ r u e. cc in
      (
        lacks_grant-IsPermitted s sc input has,
        ground arith,
        ground arith,
        resume-cases s sc' input' entropy found w v w' d signed (settled found v got) rest'',
      )
