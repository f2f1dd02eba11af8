-- ===== src/Documents/Upload/Download.antt =====
-- Service.Download: what a download link says of the document.
use file_storage_bucket.Common.{ℕ, String, true, not, ◌≡◌, ◌⊎◌, inl, inr, sym, ◌∙◌, refl, arith, In}
use file_storage_bucket.Documents.Types.{
  Scope, Document, SignedRequest, Service, available, clean, conflict, ok,
}
use file_storage_bucket.Documents.Tables.{Row, Tables}
use file_storage_bucket.Documents.Exec.{World, tick, pure, raise_if, ◌>>◌}
use file_storage_bucket.Documents.Exec.Inversion.{>>=-eq-ok, guard_then, call_then, then_pure}
use file_storage_bucket.Documents.Access.{with_object, with_scope, get}
use file_storage_bucket.Documents.Access.Get.{IsVisible, get-IsVisible}
use file_storage_bucket.Documents.Audit.{record_event}
use file_storage_bucket.Documents.Upload.{is_clean, release, download}
use file_storage_bucket.Documents.Lifecycle.{IsConsistent}
use file_storage_bucket.Documents.Lifecycle.Logged.{IsLogged, record_event-IsLogged}

pub is_clean_lem :
    (d : Document) → is_clean d ≡ true → (d.status ≡ available) × (d.scan_status ≡ clean)
unfolding is_clean
is_clean_lem d h = ground arith

-- what holds where a document was read under the scope
pub record IsFound (sc : Scope) (id : String) (t : Tables) (d : Document) : Type 0 where
  pub row : Row
  pub stored : In row t.rows
  pub visible : IsVisible sc id row
  pub shown : (d ≡ with_object row) ⊎ (d ≡ with_scope row)

pub get-IsFound :
    (s : Service) (sc : Scope) (id : String) (w w' : World) (d : Document)
    → IsConsistent w.tables
    → get s sc id w ≡ (ok d, w')
    → (w'.tables ≡ w.tables) × IsFound sc id w.tables d
get-IsFound s sc id w w' d c h =
    let (same, (r, place, visible, shown)) = get-IsVisible s sc id w w' d c h in
    (same, record { row = r; stored = place; visible = visible; shown = shown })

-- a link was given out for an available, clean document that the scope may see
pub record IsReleased (s : Service) (sc : Scope) (id : String) (w w' : World)
    (signed : SignedRequest) : Type 0 where
  pub row : Row
  pub stored : In row w.tables.rows
  pub visible : IsVisible sc id row
  pub is_available : row.status ≡ available
  pub is_clean_scan : row.scan_status ≡ clean
  pub at : ℕ
  pub link :
      s.objects.presign_download at row.object_key row.original_filename s.download_ttl ≡ ok signed
  pub logged : IsLogged sc id "download_authorized" sc.correlation_id w.tables w'.tables

-- a document that was read has the columns of its row
pub shown_columns :
    (sc : Scope) (id : String) (t : Tables) (d : Document) (f : IsFound sc id t d)
    → (d.status ≡ f.row.status)
      × (d.scan_status ≡ f.row.scan_status)
      × (d.object_key ≡ f.row.object_key)
      × (d.filename ≡ f.row.original_filename)
shown_columns sc id t d f = columns f.row f.shown
  where
    columns :
        (r : Row)
        → (d ≡ with_object r) ⊎ (d ≡ with_scope r)
        → (d.status ≡ r.status)
          × (d.scan_status ≡ r.scan_status)
          × (d.object_key ≡ r.object_key)
          × (d.filename ≡ r.original_filename)
    columns r (inl e) = rw e (refl, refl, refl, refl)
    columns r (inr e) = rw e (refl, refl, refl, refl)

module _ (s : Service) (sc : Scope) (id : String) (w w' : World) (signed : SignedRequest)
    (c : IsConsistent w.tables) where
  found-IsReleased :
      (d : Document) (v : World)
      → v.tables ≡ w.tables
      → IsFound sc id w.tables d
      → is_clean d ≡ true
      → release s sc id d v ≡ (ok signed, w')
      → IsReleased s sc id w w' signed
  unfolding release
  found-IsReleased d v same f clean_document rest =
      let (status, scan, key, name) = shown_columns sc id w.tables d f in
      let (x, link, logging) =
        call_then (λ n. s.objects.presign_download n d.object_key d.filename s.download_ttl)
          (λ x. record_event s sc id "download_authorized" >> pure x) v w' signed rest in
      let (is, (u, logged)) =
        then_pure (record_event s sc id "download_authorized") x signed (tick v) w' logging in
      record {
        row = f.row;
        stored = f.stored;
        visible = f.visible;
        is_available = sym status ∙ (is_clean_lem d clean_document).0;
        is_clean_scan = sym scan ∙ (is_clean_lem d clean_document).1;
        at = v.calls;
        link = rw (← key, ← name, is) link;
        logged =
            record_event-IsLogged s sc id "download_authorized" (tick v) w' w.tables f.row same
              c.unique f.stored f.visible.same_id u logged;
      }

  -- A download link is given out only for an available, clean document that the scope may see. It
  -- is for that document's object and file name, and exactly one audit event records it; no row
  -- changes.
  pub download-IsReleased : download s sc id w ≡ (ok signed, w') → IsReleased s sc id w w' signed
  unfolding download
  download-IsReleased h =
      let (d, v, read, rest) =
        >>=-eq-ok (get s sc id) (λ d. raise_if (not (is_clean d)) conflict >> release s sc id d) w
          w' signed h in
      let (same, found) = get-IsFound s sc id w v d c read in
      let (passed, linked) =
        guard_then (not (is_clean d)) conflict (release s sc id d) v w' signed rest in
      found-IsReleased d v same found (ground arith) linked
