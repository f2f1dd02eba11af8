-- ===== src/Documents/Evidence/Opened.antt =====
-- OpenEvidence and OpenBankAccountEvidence: which bytes are opened, and after which check.
use file_storage_bucket.Common.{
  ℕ, String, Option, none, some, not, List, ◌≡◌, refl, sym, ◌∙◌, ap, subst, In,
}
use file_storage_bucket.Documents.Types.{
  Scope, Document, Service, Result, ok, not_found, evidence_scope,
}
use file_storage_bucket.Documents.Tables.{Row, Tables}
use file_storage_bucket.Documents.Exec.{World, Action, call, statement, ◌>>◌, ◌>>=◌}
use file_storage_bucket.Documents.Exec.Inversion.{>>=-eq-ok, guard_then, statement-eq-ok}
use file_storage_bucket.Documents.Access.{get, first_row, valid_bank_account_scope}
use file_storage_bucket.Documents.Access.Isolation.{select-eq-ok}
use file_storage_bucket.Documents.Audit.{record_scoped_event, record_bank_event}
use file_storage_bucket.Documents.Upload.Download.{get-IsFound, shown_columns}
use file_storage_bucket.Documents.Evidence.{
  evidence, verify_evidence, open_with, open_stored, open_evidence, bank_account_evidence,
  bank_account_document, open_bank_account_evidence, is_bank_account_row,
}
use file_storage_bucket.Documents.Evidence.Verified.{IsVerified, verify_evidence-IsVerified}
use file_storage_bucket.Documents.Evidence.BankAccount.{
  IsBankVerified, bank_account_evidence-IsBankVerified,
}
use file_storage_bucket.Documents.Lifecycle.{IsConsistent}
use file_storage_bucket.Documents.Lifecycle.Inversion.{append_event-Extends}
use file_storage_bucket.Documents.Lifecycle.Sound.{In-unique}

-- consistency is a property of the rows
pub IsConsistent-rows : (t u : Tables) → u.rows ≡ t.rows → IsConsistent t → IsConsistent u
IsConsistent-rows t u same c = record { sound = rw same c.sound; unique = rw same c.unique }

open_with-eq-ok :
    (m : Action (Unit {0})) (key : String) (o : Option (ℕ → String → Result (List ℕ)))
    (w w' : World) (body : List ℕ)
    → open_with m key o w ≡ (ok body, w')
    → (opener : ℕ → String → Result (List ℕ)) × (o ≡ some opener)
      × ((v : World) × (m w ≡ (ok tt, v)) × (opener v.calls key ≡ ok body) × (w'.tables ≡ v.tables))
unfolding open_with
open_with-eq-ok m key none w w' body h = cc
open_with-eq-ok m key (some opener) w w' body h =
    let (u, v, ran, opened) = >>=-eq-ok m (λ _. call (λ n. opener n key)) w w' body h in
    (opener, refl, (v, ran, ap (λ p. p.0) opened, ap (λ p. World.tables p.1) (sym opened)))

-- the document with the bytes, as the last step returns them
abbrev beside : Document → List ℕ → Action (Document × List ℕ)
beside x bytes u = (ok (x, bytes), u)

-- the object of a row was opened, and no row changed
pub record IsOpened (s : Service) (row : Row) (body : List ℕ) (t u : Tables) : Type 0 where
  pub opener : ℕ → String → Result (List ℕ)
  pub can_open : s.objects.open_object ≡ some opener
  pub at : ℕ
  pub opened : opener at row.object_key ≡ ok body
  pub same_rows : u.rows ≡ t.rows

record_scoped_event-rows :
    (s : Service) (sc : Scope) (id action : String) (w w' : World) (u : Unit {0})
    → record_scoped_event s sc id action w ≡ (ok u, w')
    → w'.tables.rows ≡ w.tables.rows
unfolding record_scoped_event
record_scoped_event-rows s sc id action w w' u h =
    (append_event-Extends _ _ w.tables w'.tables (statement-eq-ok s.db _ w w' u h).0).0

record_bank_event-rows :
    (s : Service) (sc : Scope) (id action : String) (w w' : World) (u : Unit {0})
    → record_bank_event s sc id action w ≡ (ok u, w')
    → w'.tables.rows ≡ w.tables.rows
unfolding record_bank_event
record_bank_event-rows s sc id action w w' u h =
    (append_event-Extends _ _ w.tables w'.tables (statement-eq-ok s.db _ w w' u h).0).0

-- the document that is read after a check is the row that was checked
module _ (s : Service) (sc : Scope) (id : String) (t : Tables) (c : IsConsistent t) (row : Row)
    (place : In row t.rows) (same_id : row.public_id ≡ id) (v : World)
    (kept : v.tables.rows ≡ t.rows) where
  get-key :
      (stored : Document) (v' : World)
      → get s sc id v ≡ (ok stored, v')
      → (v'.tables.rows ≡ t.rows) × (stored.object_key ≡ row.object_key)
  get-key stored v' h =
      let (same, f) = get-IsFound s sc id v v' stored (IsConsistent-rows t v.tables kept c) h in
      let (_, _, key, _) = shown_columns sc id v.tables stored f in
      let is_row : f.row ≡ row =
        In-unique t.rows f.row row c.unique (subst (λ rows. In f.row rows) kept f.stored) place
          (f.visible.same_id ∙ sym same_id) in
      (ap Tables.rows same ∙ kept, key ∙ ap Row.object_key is_row)

  open_stored-IsOpened :
      (m : Action (Unit {0})) (key : String) (w' : World) (body : List ℕ)
      → ((x y : World) (u : Unit {0}) → m x ≡ (ok u, y) → y.tables.rows ≡ x.tables.rows)
      → key ≡ row.object_key
      → open_stored s m key v ≡ (ok body, w')
      → IsOpened s row body t w'.tables
  unfolding open_stored
  open_stored-IsOpened m key w' body keeps is_key h =
      let (opener, can, (y, ran, opened, left)) =
        open_with-eq-ok m key s.objects.open_object v w' body h in
      record {
        opener = opener;
        can_open = can;
        at = y.calls;
        opened = subst (λ k. opener y.calls k ≡ ok body) is_key opened;
        same_rows = ap Tables.rows left ∙ (keeps v y tt ran ∙ kept);
      }

  -- the end of the two methods: the document beside the bytes
  beside-IsOpened :
      (m : Action (Unit {0})) (key : String) (x d : Document) (w' : World) (body : List ℕ)
      → ((x y : World) (u : Unit {0}) → m x ≡ (ok u, y) → y.tables.rows ≡ x.tables.rows)
      → key ≡ row.object_key
      → (open_stored s m key >>= beside x) v ≡ (ok (d, body), w')
      → (x ≡ d) × IsOpened s row body t w'.tables
  beside-IsOpened m key x d w' body keeps is_key h =
      let (bytes, y, opened, done) = >>=-eq-ok (open_stored s m key) (beside x) v w' (d, body) h in
      let o = open_stored-IsOpened m key y bytes keeps is_key opened in
      let is_body : bytes ≡ body = cc in
      let is_world : y ≡ w' = cc in
      (
        cc,
        subst (λ u. IsOpened s row body t (World.tables u)) is_world
            (subst (λ b. IsOpened s row b t y.tables) is_body o),
      )

module _ (s : Service) (sc : Scope) (id party digest : String) (w w' : World) (d : Document)
    (body : List ℕ) where
  -- Content that is opened for a case is that of the object of a version that the check, made just
  -- before, confirmed for the party and the digest; no row changes.
  pub open_evidence-IsOpened :
      IsConsistent w.tables
      → open_evidence s sc id party digest w ≡ (ok (d, body), w')
      → (v : World) × (checked : IsVerified sc id party digest "" w.tables v.tables d) × IsOpened s
          checked.row body w.tables w'.tables
  unfolding open_evidence evidence
  open_evidence-IsOpened c h =
      let authorise = record_scoped_event s sc id "case_download_authorized" in
      let (x, v, confirmed, rest) =
        >>=-eq-ok (verify_evidence s sc id party digest "")
          (λ x. get s sc id >>= λ stored. open_stored s authorise stored.object_key >>= beside x) w
          w' (d, body) h in
      let checked = verify_evidence-IsVerified s sc id party digest "" w v x c confirmed in
      let (stored, v', got, rest') =
        >>=-eq-ok (get s sc id) (λ stored. open_stored s authorise stored.object_key >>= beside x) v
          w' (d, body) rest in
      let (kept, is_key) =
        get-key s sc id w.tables c checked.row checked.stored checked.same_id v
          checked.logged.same_rows stored v' got in
      let (is, opened) =
        beside-IsOpened s sc id w.tables c checked.row checked.stored checked.same_id v' kept
          authorise stored.object_key x d w' body
          (record_scoped_event-rows s sc id "case_download_authorized") is_key rest' in
      let confirmed_row =
        subst
          (λ y.
            (k : IsVerified sc id party digest "" w.tables v.tables y) × IsOpened s k.row body
              w.tables w'.tables)
          is (checked, opened) in
      (v, confirmed_row.0, confirmed_row.1)

module _ (s : Service) (sc : Scope) (id digest : String) (w w' : World) (d : Document)
    (body : List ℕ) where
  bank_account_document-get :
      (v v' : World) (stored : Document)
      → bank_account_document s sc id v ≡ (ok stored, v')
      → (y : World) × (y.tables ≡ v.tables) × (get s sc id y ≡ (ok stored, v'))
  unfolding bank_account_document
  bank_account_document-get v v' stored h =
      let query = statement s.db (first_row (is_bank_account_row s sc id) not_found) in
      let (_, rest) =
        guard_then (not (valid_bank_account_scope sc)) evidence_scope (query >> get s sc id) v v'
          stored h in
      let (r, y, read, got) = >>=-eq-ok query (λ _. get s sc id) v v' stored rest in
      let (_, _, same) = select-eq-ok s (is_bank_account_row s sc id) not_found v y r read in
      (y, same, got)

  -- Content that is opened for a bank account is that of the object of a version that the check, made
  -- just before, confirmed for the account's owner and the digest; no row changes.
  pub open_bank_account_evidence-IsOpened :
      IsConsistent w.tables
      → open_bank_account_evidence s sc id digest w ≡ (ok (d, body), w')
      → (v : World) × (checked : IsBankVerified sc id digest w.tables v.tables d) × IsOpened s
          checked.row body w.tables w'.tables
  unfolding open_bank_account_evidence
  open_bank_account_evidence-IsOpened c h =
      let authorise = record_bank_event s sc id "bank_account_download_authorized" in
      let (x, v, confirmed, rest) =
        >>=-eq-ok (bank_account_evidence s sc id digest)
          (λ x. bank_account_document s sc id >>= λ stored.
            open_stored s authorise stored.object_key >>= beside x)
          w w' (d, body) h in
      let checked = bank_account_evidence-IsBankVerified s sc id digest w v x c confirmed in
      let (stored, v', read, rest') =
        >>=-eq-ok (bank_account_document s sc id)
          (λ stored. open_stored s authorise stored.object_key >>= beside x) v w' (d, body) rest in
      let (y, same, got) = bank_account_document-get v v' stored read in
      let (kept, is_key) =
        get-key s sc id w.tables c checked.row checked.stored checked.same_id y
          (ap Tables.rows same ∙ checked.logged.same_rows) stored v' got in
      let (is, opened) =
        beside-IsOpened s sc id w.tables c checked.row checked.stored checked.same_id v' kept
          authorise stored.object_key x d w' body
          (record_bank_event-rows s sc id "bank_account_download_authorized") is_key rest' in
      let confirmed_row =
        subst
          (λ z.
            (k : IsBankVerified sc id digest w.tables v.tables z) × IsOpened s k.row body w.tables
              w'.tables)
          is (checked, opened) in
      (v, confirmed_row.0, confirmed_row.1)
