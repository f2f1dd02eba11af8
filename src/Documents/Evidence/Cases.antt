-- ===== src/Documents/Evidence/Cases.antt =====
-- Service.CaseUploads: which documents a case sees.
use file_storage_bucket.Common.{
  length-take_bound, ℕ, suc, ◌≤◌, String, some, Bool, true, List, [], ◌∷◌, length, take, map,
  select, ◌≡◌, ◌≢◌, ◌⊎◌, inl, inr, refl, arith, In, All, In-select, sym, subst, Bool-cases,
}
use file_storage_bucket.Documents.Types.{Scope, Document, Service, Result, ok, evidence_scope}
use file_storage_bucket.Documents.Tables.{Row, Tables}
use file_storage_bucket.Documents.Exec.{World, statement, ◌>>=◌}
use file_storage_bucket.Documents.Exec.Inversion.{>>=-eq-ok, statement-eq-ok, guard_then}
use file_storage_bucket.Documents.Access.{scanned, valid_bank_account_scope}
use file_storage_bucket.Documents.Evidence.{
  case_uploads, case_page, is_case_row, is_listed, sort_by_id, insert_by_id, lacks_case_scope,
}

pub In-take : (n : ℕ) (xs : List Row) (r : Row) → In r (take n xs) → In r xs
In-take Prim.Native.Nat.zero xs r i = absurd i
In-take (suc n) [] r i = absurd i
In-take (suc n) (x ∷ xs) r (inl e) = inl e
In-take (suc n) (x ∷ xs) r (inr i) = inr (In-take n xs r i)

In-insert_by_id :
    (before : String → String → Bool) (x r : Row) (xs : List Row)
    → In r (insert_by_id before x xs)
    → (r ≡ x) ⊎ In r xs
unfolding insert_by_id
In-insert_by_id before x r [] i = ground arith
In-insert_by_id before x r (y ∷ ys) i = elim (Bool-cases (before x.public_id y.public_id)) [
  | inl first ↦ ground arith
  | inr later ↦ ground (arith, In-insert_by_id before x r ys)
]

pub In-sort_by_id :
    (before : String → String → Bool) (xs : List Row) (r : Row)
    → In r (sort_by_id before xs)
    → In r xs
unfolding sort_by_id
In-sort_by_id before [] r i = i
In-sort_by_id before (x ∷ xs) r i = elim (In-insert_by_id before x r (sort_by_id before xs) i) [
  | inl e ↦ inl e
  | inr j ↦ inr (In-sort_by_id before xs r j)
]

-- a document of the case that the scope may see
pub record IsCaseDocument (sc : Scope) (application party : String) (t : Tables) (d : Document)
    : Type 0 where
  pub row : Row
  pub stored : In row t.rows
  pub shown : d ≡ scanned row
  pub in_tenant : (row.tenant_id ≡ sc.tenant_id) × (row.environment ≡ sc.environment)
  pub of_party : (row.owner_type ≡ "PARTY") × (row.owner_id ≡ party) × (row.party_id ≡ some party)
  pub of_case : row.source_reference ≡ some application
  pub payment : row.purpose ≡ "manual_bank_payment" → sc.payment_reference ≡ application
  pub statement : row.purpose ≡ "manual_bank_statement" → sc.statement_reference ≡ application
  pub bank :
      row.purpose ≡ "bank_account_verification"
      → (valid_bank_account_scope sc ≡ true) × (sc.bank_account_reference ≡ application)

case_row-IsCaseDocument :
    (s : Service) (sc : Scope) (application party after : String) (t : Tables) (r : Row)
    → In r t.rows
    → is_case_row s sc application party after r ≡ true
    → is_listed sc application (scanned r) ≡ true
    → IsCaseDocument sc application party t (scanned r)
unfolding is_case_row is_listed
case_row-IsCaseDocument s sc application party after t r i h k = record {
  row = r;
  stored = i;
  shown = refl;
  in_tenant = ground arith;
  of_party = ground arith;
  of_case = ground arith;
  payment = λ e. ground arith;
  statement = λ e. ground arith;
  bank = λ e. ground arith;
}

listed-All :
    (P : Document → Type 0) (p : Document → Bool) (rs : List Row)
    → ((r : Row) → In r rs → p (scanned r) ≡ true → P (scanned r))
    → All P (select p (map scanned rs))
listed-All P p [] k = tt
listed-All P p (r ∷ rs) k = elim (Bool-cases (p (scanned r))) [
  | inl hit ↦ rw hit (k r (inl refl) hit, listed-All P p rs (λ x i. k x (inr i)))
  | inr miss ↦ rw miss (listed-All P p rs (λ x i. k x (inr i)))
]

listed-bound :
    (p : Document → Bool) (rs : List Row) → length (select p (map scanned rs)) ≤ length rs
listed-bound p [] = omega arith
listed-bound p (r ∷ rs) =
    let h = listed-bound p rs in
    elim (Bool-cases (p (scanned r))) [
      | inl hit ↦ rw hit (omega arith)
      | inr miss ↦ rw miss (omega arith)
    ]

module _ (s : Service) (sc : Scope) (application party after : String) (w w' : World)
    (ds : List Document) where
  pub case_uploads-eq-ok :
      case_uploads s sc application party after w ≡ (ok ds, w')
      → (ds
          ≡ select
              (is_listed sc application)
              (map scanned (case_page s sc application party after w.tables)))
        × (w'.tables ≡ w.tables)
  unfolding case_uploads
  case_uploads-eq-ok h =
      let page = statement s.db (λ now t. ok (case_page s sc application party after t, t)) in
      let list : List Row → World → Result (List Document) × World =
        λ rows v. (ok (select (is_listed sc application) (map scanned rows)), v) in
      let (_, rest) =
        guard_then (lacks_case_scope sc application party) evidence_scope (page >>= list) w w' ds
          h in
      let (rows, v, took, done) = >>=-eq-ok page list w w' ds rest in
      let read =
        (statement-eq-ok s.db (λ now t. ok (case_page s sc application party after t, t)) w v rows
          took).0 in
      let is_rows : rows ≡ case_page s sc application party after w.tables = cc in (cc, cc)

  pub case_uploads-named :
      case_uploads s sc application party after w ≡ (ok ds, w') → application ≢ ""
  unfolding case_uploads lacks_case_scope
  case_uploads-named h =
      let (has, _) =
        guard_then (lacks_case_scope sc application party) evidence_scope
          (statement s.db (λ now t. ok (case_page s sc application party after t, t)) >>= λ rows v.
            (ok (select (is_listed sc application) (map scanned rows)), v))
          w w' ds h in
      ground arith

  -- A case sees at most 51 documents in one page. Each is of its tenant, its party and its
  -- application, and one of a protected purpose is among them only under the grant for the
  -- application. Listing changes nothing.
  pub case_uploads-AllCaseDocuments :
      case_uploads s sc application party after w ≡ (ok ds, w')
      → All (IsCaseDocument sc application party w.tables) ds
        × (length ds ≤ 51)
        × (w'.tables ≡ w.tables)
  unfolding case_page
  case_uploads-AllCaseDocuments h =
      let (is, same) = case_uploads-eq-ok h in
      let found = select (is_case_row s sc application party after) w.tables.rows in
      let seen = sort_by_id s.db.before found in
      (
        subst (All (IsCaseDocument sc application party w.tables)) (sym is) (
            listed-All (IsCaseDocument sc application party w.tables) (is_listed sc application)
              (take 51 seen)
              (λ r i listed.
                let (hit, place) =
                  In-select (is_case_row s sc application party after) w.tables.rows r
                    (In-sort_by_id s.db.before found r (In-take 51 seen r i)) in
                case_row-IsCaseDocument s sc application party after w.tables r place hit listed)),
        subst (λ xs. length xs ≤ 51) (sym is)
            (let bounded = listed-bound (is_listed sc application) (take 51 seen) in
              let short = length-take_bound 51 seen in omega arith),
        same,
      )
