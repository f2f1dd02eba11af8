-- ===== src/Documents/Upload/Complete.antt =====
-- Service.Complete: what a completed upload says of the document and of the stored object.
use file_storage_bucket.Common.{
  ℕ, String, true, not, ◌&&◌, ◌||◌, ◌≡◌, ◌⊎◌, inl, inr, refl, sym, ◌∙◌, ap, arith, In, modify_where,
  subst, ◌==◌,
}
use file_storage_bucket.Documents.Types.{
  Scope, Document, Service, ok, not_found, conflict, failure, pending_upload, quarantined,
}
use file_storage_bucket.Documents.Tables.{Row, Tables, awaits_upload, quarantine}
use file_storage_bucket.Documents.Exec.{
  World, Action, tick, now_at, statement, pure, call, attempt, or_raise, raise_if, ◌>>◌, ◌>>=◌,
}
use file_storage_bucket.Documents.Exec.Inversion.{
  >>=-eq-ok, statement-eq-ok, then_pure, guard_then, checked_then,
}
use file_storage_bucket.Documents.Access.{with_object, with_scope, valid_bank_account_scope, get}
use file_storage_bucket.Documents.Access.Get.{IsVisible}
use file_storage_bucket.Documents.Audit.{record_event}
use file_storage_bucket.Documents.Upload.{
  updating, mark_uploaded, complete, is_pending, stored_scope, rescanned,
}
use file_storage_bucket.Documents.Upload.Download.{IsFound, get-IsFound, shown_columns}
use file_storage_bucket.Documents.Upload.Scan.{updating-IsUpdated}
use file_storage_bucket.Documents.Lifecycle.{IsConsistent}
use file_storage_bucket.Documents.Lifecycle.Sound.{In-unique}
use file_storage_bucket.Documents.Lifecycle.Inversion.{append_event-Extends}

-- a document that was read has the digest and the size of its row
pub shown_content :
    (sc : Scope) (id : String) (t : Tables) (d : Document) (f : IsFound sc id t d)
    → (d.sha256 ≡ f.row.sha256_hex)
      × (d.size ≡ f.row.size_bytes)
      × (d.content_type ≡ f.row.content_type)
shown_content sc id t d f = columns f.row f.shown
  where
    columns :
        (r : Row)
        → (d ≡ with_object r) ⊎ (d ≡ with_scope r)
        → (d.sha256 ≡ r.sha256_hex) × (d.size ≡ r.size_bytes) × (d.content_type ≡ r.content_type)
    columns r (inl e) = rw e (refl, refl, refl)
    columns r (inr e) = rw e (refl, refl, refl)

is_pending_lem : (d : Document) → is_pending d ≡ true → d.status ≡ pending_upload
unfolding is_pending
is_pending_lem d h = ground arith

-- the upload of a pending document that the scope may see was completed
pub record IsCompleted (s : Service) (sc : Scope) (id : String) (w w' : World) (d : Document)
    : Type 0 where
  pub row : Row
  pub stored : In row w.tables.rows
  pub visible : IsVisible sc id row
  pub was_pending : row.status ≡ pending_upload
  pub before : World
  pub read : Document
  pub got : get s sc id w ≡ (ok read, before)
  pub unchanged : before.tables ≡ w.tables
  pub at : ℕ
  pub next_call : at ≡ before.calls
  pub verified : s.objects.verify at row.object_key row.sha256_hex row.size_bytes ≡ ok tt
  pub tenant : String
  pub environment : String
  pub now : ℕ
  pub clock : now ≡ now_at s.db (tick before)
  pub updated : Row
  pub after : World
  pub moved :
      statement s.db
        (updating (λ _. awaits_upload id tenant environment) quarantine failure)
        (tick before)
      ≡ (ok updated, after)
  pub changed : awaits_upload id tenant environment row ≡ true
  pub rows :
      w'.tables.rows
      ≡ modify_where (awaits_upload id tenant environment) (quarantine now) w.tables.rows
  pub is_quarantined : d.status ≡ quarantined

awaits_upload-id :
    (id tenant environment : String) (r : Row)
    → awaits_upload id tenant environment r ≡ true
    → r.public_id ≡ id
unfolding awaits_upload
awaits_upload-id id tenant environment r h = ground arith

pub record_event-rows :
    (s : Service) (sc : Scope) (id action : String) (w w' : World) (u : Unit {0})
    → record_event s sc id action w ≡ (ok u, w')
    → w'.tables.rows ≡ w.tables.rows
unfolding record_event
record_event-rows s sc id action w w' u h =
    (append_event-Extends _ _ w.tables w'.tables (statement-eq-ok s.db _ w w' u h).0).0

module _ (s : Service) (sc : Scope) (id : String) (w' : World) (d : Document) where
  -- the statement and the audit event that follow the check of the object
  abbrev storing : Scope → Document → Action Document
  storing c read =
      statement s.db (updating (λ _. awaits_upload id c.tenant_id c.environment) quarantine failure)
      >>= λ r. record_event s c id "upload_verified_quarantined" >> pure (rescanned read r)

  storing-rows :
      (c : Scope) (read : Document) (v : World)
      → storing c read v ≡ (ok d, w')
      → (w'.tables.rows
          ≡ modify_where
              (awaits_upload id c.tenant_id c.environment)
              (quarantine (now_at s.db v))
              v.tables.rows)
        × (d.status ≡ quarantined)
        × ((old : Row) × (awaits_upload id c.tenant_id c.environment old ≡ true)
            × In old v.tables.rows)
        × ((new : Row) × (after : World) × (statement s.db
                (updating (λ _. awaits_upload id c.tenant_id c.environment) quarantine failure)
                v
              ≡ (ok new, after)))
  storing-rows c read v h =
      let (r, v', took, rest) =
        >>=-eq-ok
          (statement s.db
            (updating (λ _. awaits_upload id c.tenant_id c.environment) quarantine failure))
          (λ r. record_event s c id "upload_verified_quarantined" >> pure (rescanned read r)) v w' d
          h in
      let up =
        updating-IsUpdated (λ _. awaits_upload id c.tenant_id c.environment) quarantine failure
          (now_at s.db v) v.tables r v'.tables (statement-eq-ok s.db _ v v' r took).0 in
      let (shown, (u, logged)) =
        then_pure (record_event s c id "upload_verified_quarantined") (rescanned read r) d v' w'
          rest in
      (
        record_event-rows s c id _ v' w' u logged ∙ up.rows,
        ap Document.status shown ∙ ap Row.status up.result,
        (up.old, up.matched.0, up.matched.1),
        (r, v', took),
      )

  mark_uploaded-eq-ok :
      (c : Scope) (read : Document) (v : World)
      → mark_uploaded s c read id v ≡ (ok d, w')
      → (s.objects.verify v.calls read.object_key read.sha256 read.size ≡ ok tt)
        × (storing c read (tick v) ≡ (ok d, w'))
  unfolding mark_uploaded
  mark_uploaded-eq-ok c read v h =
      let (_, h') =
        guard_then
          ((c.tenant_id == ""
              && not (read.purpose == "bank_account_verification" && valid_bank_account_scope c))
            || c.environment == "")
          not_found
          (attempt (call (λ n. s.objects.verify n read.object_key read.sha256 read.size)) >>= λ r.
            or_raise conflict r >> storing c read)
          v w' d h in
      checked_then (λ n. s.objects.verify n read.object_key read.sha256 read.size) conflict
        (storing c read) v w' d h'

  -- An upload is completed only for a pending document that the scope may see. While the tables are
  -- still as they were, the object store confirms the object with the digest and the size of the
  -- row, and the UPDATE is the next statement after that answer. It quarantines that row, rows of
  -- other documents stay as they are, and the caller sees the document quarantined.
  pub complete-IsCompleted :
      (w : World)
      → IsConsistent w.tables
      → complete s sc id w ≡ (ok d, w')
      → IsCompleted s sc id w w' d
  unfolding complete
  complete-IsCompleted w c h =
      let (read, v, got, rest) =
        >>=-eq-ok (get s sc id)
          (λ x. raise_if (not (is_pending x)) conflict >> mark_uploaded s (stored_scope sc x) x id)
          w w' d h in
      let (same, f) = get-IsFound s sc id w v read c got in
      let (passed, marking) =
        guard_then (not (is_pending read)) conflict (mark_uploaded s (stored_scope sc read) read id)
          v w' d rest in
      let (verified, stored) = mark_uploaded-eq-ok (stored_scope sc read) read v marking in
      let (rows, status, (old, hit, place), (new, after, moved)) =
        storing-rows (stored_scope sc read) read (tick v) stored in
      let (row_status, _, key, _) = shown_columns sc id w.tables read f in
      let (digest, size, _) = shown_content sc id w.tables read f in
      let awaits =
        awaits_upload id (stored_scope sc read).tenant_id (stored_scope sc read).environment in
      let is_row : old ≡ f.row =
        In-unique w.tables.rows old f.row c.unique (subst (λ t. In old (Tables.rows t)) same place)
          f.stored
          (awaits_upload-id id (stored_scope sc read).tenant_id (stored_scope sc read).environment
              old hit
            ∙ sym f.visible.same_id) in
      record {
        row = f.row;
        stored = f.stored;
        visible = f.visible;
        was_pending = sym row_status ∙ is_pending_lem read (ground arith);
        before = v;
        read = read;
        got = got;
        unchanged = same;
        at = v.calls;
        next_call = refl;
        verified = rw (← key, ← digest, ← size) verified;
        tenant = (stored_scope sc read).tenant_id;
        environment = (stored_scope sc read).environment;
        now = now_at s.db (tick v);
        clock = refl;
        updated = new;
        after = after;
        moved = moved;
        changed = subst (λ r. awaits r ≡ true) is_row hit;
        rows =
            rows
            ∙ ap (λ t. modify_where awaits (quarantine (now_at s.db (tick v))) (Tables.rows t))
                same;
        is_quarantined = status;
      }
