-- ===== src/Delegated/Case/Cursor.antt =====
-- The cursor of a page of a case's documents: which documents the pages lead to.
use file_storage_bucket.Common.{
  ℕ, zero, suc, ◌<◌, ltb, String, true, false, List, [], ◌∷◌, length, length-take, take, map,
  select, ◌≡◌, ◌≢◌, ◌⊎◌, inl, inr, refl, sym, ◌∙◌, subst, arith, In, All, All-In, In-select,
  Bool-cases, String_discrete,
}
use file_storage_bucket.Documents.Types.{Scope, Document, Service, ok}
use file_storage_bucket.Documents.Tables.{Row, Tables}
use file_storage_bucket.Documents.Access.{scanned}
use file_storage_bucket.Documents.Exec.{World}
use file_storage_bucket.Documents.Evidence.{
  case_uploads, case_page, is_case_row, is_listed, sort_by_id,
}
use file_storage_bucket.Documents.Evidence.Cases.{In-take, In-sort_by_id, case_uploads-eq-ok}
use file_storage_bucket.Documents.Evidence.Order.{
  IsOrder, sort_by_id-In, sort_by_id-IsSorted, take-sorted,
}
use file_storage_bucket.Documents.Evidence.Pages.{
  AllListed, select-In, select_all, take-take, take-map, length-map, In-map,
}
use file_storage_bucket.Documents.Lifecycle.{IsConsistent}
use file_storage_bucket.Documents.Lifecycle.Sound.{In-unique}
use file_storage_bucket.Http.{Payload, page}
use file_storage_bucket.Delegated.Case.{id_at, page_of}

-- a row is on the page, or a cursor other than "" leads to it
pub record Leads (s : Service) (sc : Scope) (application party : String) (x : Payload) (r : Row)
    : Type 0 where
  pub shown : List Document
  pub next : String
  pub is : x ≡ page shown next
  pub found :
      In (scanned r) shown ⊎ ((next ≢ "") × (is_case_row s sc application party next r ≡ true))

-- the cursor is the id of one of the rows before the cut
id_at-In :
    (n : ℕ) (rs : List Row)
    → n < length rs
    → (y : Row) × In y (take (suc n) rs) × (id_at n (map scanned rs) ≡ y.public_id)
unfolding id_at
id_at-In n [] h = absurd (omega arith)
id_at-In zero (r ∷ rs) h = (r, inl refl, refl)
id_at-In (suc n) (r ∷ rs) h = let (y, i, is) = id_at-In n rs (omega arith) in (y, inr i, is)

module _ (s : Service) (sc : Scope) (application party : String) where
  is_case_row-after :
      (after next : String) (r : Row)
      → is_case_row s sc application party after r ≡ true
      → s.db.before next r.public_id ≡ true
      → is_case_row s sc application party next r ≡ true
  unfolding is_case_row
  is_case_row-after after next r h k = ground arith

  is_case_row-before :
      (after : String) (r : Row)
      → is_case_row s sc application party after r ≡ true
      → s.db.before after r.public_id ≡ true
  unfolding is_case_row
  is_case_row-before after r h = ground arith

  module _ (o : IsOrder s.db.before) (after : String) (t : Tables) (c : IsConsistent t) (r : Row)
      (place : In r t.rows) (hit : is_case_row s sc application party after r ≡ true) where
    -- the rows of the query, in its order
    ordered : List Row
    ordered = sort_by_id s.db.before (select (is_case_row s sc application party after) t.rows)

    ordered-row :
        (y : Row)
        → In y (take 50 ordered)
        → (is_case_row s sc application party after y ≡ true) × In y t.rows
    unfolding ordered
    ordered-row y i =
        In-select (is_case_row s sc application party after) t.rows y
          (In-sort_by_id s.db.before _ y (In-take 50 ordered y i))

    rows : List Row
    unfolding ordered
    rows = take 51 ordered

    -- a row that no row before the cut comes after is before the cut, or after the cursor
    cut :
        49 < length rows
        → All (λ y. s.db.before r.public_id y.public_id ≡ false) (take 50 ordered)
        → In r (take 50 ordered)
          ⊎ ((id_at 49 (map scanned rows) ≢ "")
              × (s.db.before (id_at 49 (map scanned rows)) r.public_id ≡ true))
    unfolding rows
    cut long below =
        let (y, j, is) = id_at-In 49 rows long in
        let i : In y (take 50 ordered) = subst (In y) (take-take 50 ordered) j in
        let (y_hit, y_place) = ordered-row y i in
        let known : y.public_id ≢ "" = λ e.
          let first = is_case_row-before after y y_hit in
          let least = o.least after in
          let first' : s.db.before after "" ≡ true =
            subst (λ z. s.db.before after z ≡ true) e first in
          absurd cc in
        elim (String_discrete y.public_id r.public_id) [
          | yes same ↦ inl (
              subst (λ z. In z (take 50 ordered)) (In-unique t.rows y r c.unique y_place place same)
                i)
          | no apart ↦ inr (
            (λ e. known (sym is ∙ e)),
            subst (λ z. s.db.before z r.public_id ≡ true) (sym is)
                (o.total y.public_id r.public_id apart (
                  All-In (λ z. s.db.before r.public_id z.public_id ≡ false) (take 50 ordered) y
                    below i)),
          )
        ]

    -- a row before the cut is on the page
    shown_first :
        In r (take 50 ordered) → Leads s sc application party (page_of (map scanned rows)) r
    unfolding page_of rows
    shown_first i = elim (Bool-cases (ltb 50 (length (map scanned rows)))) [
      | inl long ↦ record {
        shown = take 50 (map scanned rows);
        next = id_at 49 (map scanned rows);
        is = rw long refl;
        found = inl (
            subst (In (scanned r)) (sym (take-map 50 rows))
              (In-map (take 50 rows) r (subst (In r) (sym (take-take 50 ordered)) i)));
      }
      | inr short ↦ record {
        shown = map scanned rows;
        next = "";
        is = rw short refl;
        found =
            inl (In-map rows r (In-take 50 rows r (subst (In r) (sym (take-take 50 ordered)) i)));
      }
    ]

    rows-Leads : Leads s sc application party (page_of (map scanned rows)) r
    unfolding ordered page_of rows
    rows-Leads =
        let listed =
          sort_by_id-In s.db.before _ r
            (select-In (is_case_row s sc application party after) t.rows r place hit) in
        elim (take-sorted s.db.before o 50 ordered r (sort_by_id-IsSorted s.db.before o _) listed) [
          | inl i ↦ shown_first i
          | inr (more, below) ↦
              let full : length rows ≡ 51 = length-take 51 ordered (omega arith) in
              let long : ltb 50 (length (map scanned rows)) ≡ true =
                let same = length-map rows in ground arith in
              elim (cut (omega arith) below) [
                | inl i ↦ shown_first i
                | inr (known, later) ↦ record {
                  shown = take 50 (map scanned rows);
                  next = id_at 49 (map scanned rows);
                  is = rw long refl;
                  found = inr (known, is_case_row-after after _ r hit later);
                }
              ]
        ]

module _ (s : Service) (sc : Scope) (application party after : String) (w w' : World)
    (ds : List Document) where
  -- Where the scope may see every row of the case after the cursor, each of these rows is on the
  -- page, or the page has a cursor other than "" whose own query selects the row. The order of the database is a linear order in which ""
  -- comes first, and the tables are consistent.
  pub page_of-Leads :
      (r : Row)
      → IsOrder s.db.before
      → IsConsistent w.tables
      → AllListed s sc application party after w.tables
      → case_uploads s sc application party after w ≡ (ok ds, w')
      → In r w.tables.rows
      → is_case_row s sc application party after r ≡ true
      → Leads s sc application party (page_of ds) r
  unfolding AllListed case_page rows ordered
  page_of-Leads r o c listed h place hit =
      let (is, _) = case_uploads-eq-ok s sc application party after w w' ds h in
      let found = select (is_case_row s sc application party after) w.tables.rows in
      let all =
        select_all (is_listed sc application) (take 51 (sort_by_id s.db.before found)) (λ y i.
          let (y_hit, y_place) =
            In-select (is_case_row s sc application party after) w.tables.rows y
              (In-sort_by_id s.db.before found y (In-take 51 (sort_by_id s.db.before found) y i)) in
          listed y y_place y_hit) in
      subst (λ xs. Leads s sc application party (page_of xs) r) (sym (is ∙ all))
        (rows-Leads s sc application party o after w.tables c r place hit)
