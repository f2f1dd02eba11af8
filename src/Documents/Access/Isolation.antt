-- ===== src/Documents/Access/Isolation.antt =====
-- Who may read a document: what Service.get returns, and under which scope.
use file_storage_bucket.Common.{
  ℕ, String, Bool, true, false, some, ◌||◌, ◌≡◌, ◌≢◌, refl, subst, inl, inr, arith, find?, In,
  find?_sound, Option-cases, ◌==◌, String_discrete, ne_of_differ,
}
use file_storage_bucket.Documents.Types.{Scope, Document, Error, not_found, ok, Service}
use file_storage_bucket.Documents.Tables.{Row, Tables}
use file_storage_bucket.Documents.Exec.{World, pure, raise_if, now_at, statement, ◌>>◌}
use file_storage_bucket.Documents.Exec.Inversion.{>>=-eq-ok, statement-eq-ok, raise_if-eq-ok}
use file_storage_bucket.Documents.Access.{
  valid_bank_account_scope, first_row, check_payment_access, check_bank_account, check_reference,
}

pub first_row-eq-ok :
    (p : Row → Bool) (e : Error) (now : ℕ) (t : Tables) (r : Row) (u : Tables)
    → first_row p e now t ≡ ok (r, u)
    → (p r ≡ true) × In r t.rows × (u ≡ t)
first_row-eq-ok p e now t r u h = elim (Option-cases (find? p t.rows)) [
  | inl missing ↦ absurd (ground arith)
  | inr (x, found) ↦
      let (hit, place) = find?_sound p t.rows x found in
      let same : x ≡ r = ground arith in
      (subst (λ y. p y ≡ true) same hit, subst (λ y. In y t.rows) same place, ground arith)
]

bank_not_payment : ◌≢◌ {A = String} "bank_account_verification" "manual_bank_payment"
bank_not_payment = ne_of_differ _ _ refl

bank_not_statement : ◌≢◌ {A = String} "bank_account_verification" "manual_bank_statement"
bank_not_statement = ne_of_differ _ _ refl

payment_not_statement : ◌≢◌ {A = String} "manual_bank_payment" "manual_bank_statement"
payment_not_statement = ne_of_differ _ _ refl

-- the grant under which a document of a protected purpose may be read
pub record IsGranted (sc : Scope) (d : Document) (t : Tables) : Type 0 where
  pub row : Row
  pub stored : In row t.rows
  pub same_id : row.public_id ≡ d.id
  pub same_tenant : row.tenant_id ≡ sc.tenant_id
  pub same_environment : row.environment ≡ sc.environment
  pub bank :
      d.purpose ≡ "bank_account_verification"
      → (valid_bank_account_scope sc ≡ true)
        × (row.source_reference ≡ some sc.bank_account_reference)
        × (row.owner_type ≡ sc.bank_account_owner_type)
        × (row.owner_id ≡ sc.bank_account_owner_id)
  pub payment :
      d.purpose ≡ "manual_bank_payment"
      → (sc.payment_reference ≢ "") × (row.source_reference ≡ some sc.payment_reference)
  pub statement :
      d.purpose ≡ "manual_bank_statement"
      → (sc.statement_reference ≢ "") × (row.source_reference ≡ some sc.statement_reference)

abbrev pub is_protected : Document → Bool
is_protected d =
    d.purpose == "bank_account_verification"
    || d.purpose == "manual_bank_payment"
    || d.purpose == "manual_bank_statement"

module _ (s : Service) where
  -- a query that returned read a row of the tables, and left them alone
  pub select-eq-ok :
      (p : Row → Bool) (e : Error) (w w' : World) (r : Row)
      → statement s.db (first_row p e) w ≡ (ok r, w')
      → (p r ≡ true) × In r w.tables.rows × (w'.tables ≡ w.tables)
  select-eq-ok p e w w' r h =
      first_row-eq-ok p e (now_at s.db w) w.tables r w'.tables (statement-eq-ok s.db _ w w' r h).0

  -- a guard and a query, as the checks of a grant are
  guarded_select :
      (b : Bool) (e e' : Error) (p : Row → Bool) (w w' : World) (u : Unit {0})
      → (raise_if b e >> (statement s.db (first_row p e') >> pure tt)) w ≡ (ok u, w')
      → (w'.tables ≡ w.tables) × (b ≡ false) × ((r : Row) × (p r ≡ true) × In r w.tables.rows)
  guarded_select true e e' p w w' u h =
      let (_, v, guarded, rest) = >>=-eq-ok (raise_if true e) _ w w' u h in cc
  guarded_select false e e' p w w' u h =
      let (_, v, guarded, rest) = >>=-eq-ok (raise_if false e) _ w w' u h in
      let (r, v', read, done) = >>=-eq-ok (statement s.db (first_row p e')) _ v w' u rest in
      let (hit, place, same) = select-eq-ok p e' v v' r read in
      let here : v ≡ w = (raise_if-eq-ok false e w v tt guarded).1 in
      let there : w'.tables ≡ w.tables = cc in
      (there, refl, (r, hit, subst (λ x. In r (World.tables x).rows) here place))

  bank-IsGranted :
      (sc : Scope) (d : Document) (w w' : World) (u : Unit {0})
      → d.purpose ≡ "bank_account_verification"
      → check_bank_account s sc d w ≡ (ok u, w')
      → (w'.tables ≡ w.tables) × IsGranted sc d w.tables
  unfolding check_bank_account
  bank-IsGranted sc d w w' u bank h =
      let (same, passed, (r, hit, place)) = guarded_select _ not_found not_found _ w w' u h in
      (
        same,
        record {
          row = r;
          stored = place;
          same_id = ground arith;
          same_tenant = ground arith;
          same_environment = ground arith;
          bank = λ _. ground arith;
          payment = λ p. absurd (ground (arith, bank_not_payment));
          statement = λ p. absurd (ground (arith, bank_not_statement));
        },
      )

  reference-IsGranted :
      (sc : Scope) (d : Document) (reference : String) (w w' : World) (u : Unit {0})
      → d.purpose ≢ "bank_account_verification"
      → (d.purpose ≡ "manual_bank_payment" → reference ≡ sc.payment_reference)
      → (d.purpose ≡ "manual_bank_statement" → reference ≡ sc.statement_reference)
      → check_reference s sc d reference w ≡ (ok u, w')
      → (w'.tables ≡ w.tables) × IsGranted sc d w.tables
  unfolding check_reference
  reference-IsGranted sc d reference w w' u other payment statement h =
      let (same, passed, (r, hit, place)) = guarded_select _ not_found not_found _ w w' u h in
      (
        same,
        record {
          row = r;
          stored = place;
          same_id = ground arith;
          same_tenant = ground arith;
          same_environment = ground arith;
          bank = λ p. absurd (other p);
          payment = λ p. ground arith;
          statement = λ p. ground arith;
        },
      )

  -- the check reads only, and lets a protected document through under a grant alone
  pub check_payment_access-eq-ok :
      (sc : Scope) (d : Document) (w w' : World) (u : Unit {0})
      → check_payment_access s sc d w ≡ (ok u, w')
      → (w'.tables ≡ w.tables) × (is_protected d ≡ true → IsGranted sc d w.tables)
  unfolding check_payment_access
  check_payment_access-eq-ok sc d w w' u h =
      elim (String_discrete d.purpose "bank_account_verification") [
        | yes bank ↦
            let (same, granted) = bank-IsGranted sc d w w' u bank (ground arith) in
            (same, λ _. granted)
        | no other ↦ elim (String_discrete d.purpose "manual_bank_statement") [
          | yes statement ↦
              let (same, granted) =
                reference-IsGranted sc d sc.statement_reference w w' u other
                  (λ p. absurd (ground (arith, payment_not_statement))) (λ _. refl)
                  (ground (arith)) in
              (same, λ _. granted)
          | no other' ↦ elim (String_discrete d.purpose "manual_bank_payment") [
            | yes payment ↦
                let (same, granted) =
                  reference-IsGranted sc d sc.payment_reference w w' u other (λ _. refl)
                    (λ p. absurd (other' p)) (ground (arith)) in
                (same, λ _. granted)
            | no public ↦ (ground arith, λ p. absurd (ground arith))
          ]
        ]
      ]
