-- ===== src/Documents/Access/Get.antt =====
-- What Service.get returns: the row that the scope can see, read as it is.
use file_storage_bucket.Common.{
  String, some, ◌≡◌, ◌≢◌, refl, ◌∙◌, subst, ◌⊎◌, inl, inr, arith, In, ◌==◌, ◌&&◌, String_discrete,
  true, Bool, if◌then◌else◌, eq_true, eq_false,
}
use file_storage_bucket.Documents.Types.{Scope, Document, Service, not_found, ok}
use file_storage_bucket.Documents.Tables.{Row, Tables, in_scope}
use file_storage_bucket.Documents.Exec.{World, pure, statement, ◌>>=◌, ◌>>◌}
use file_storage_bucket.Documents.Exec.Inversion.{>>=-eq-ok}
use file_storage_bucket.Documents.Access.{
  with_object, with_scope, valid_bank_account_scope, first_row, check_payment_access,
  default_environment, get,
}
use file_storage_bucket.Documents.Access.Isolation.{
  select-eq-ok, IsGranted, is_protected, check_payment_access-eq-ok,
}
use file_storage_bucket.Documents.Lifecycle.{IsConsistent}
use file_storage_bucket.Documents.Lifecycle.Sound.{In-unique}

-- a row that the scope may see under the id
pub record IsVisible (sc : Scope) (id : String) (r : Row) : Type 0 where
  pub same_id : r.public_id ≡ id
  pub in_tenant :
      sc.tenant_id ≢ "" → (r.tenant_id ≡ sc.tenant_id) × (r.environment ≡ sc.environment)
  pub in_environment : sc.tenant_id ≡ "" → r.environment ≡ default_environment sc
  pub bank :
      r.purpose ≡ "bank_account_verification"
      → (valid_bank_account_scope sc ≡ true)
        × (r.source_reference ≡ some sc.bank_account_reference)
        × (r.tenant_id ≡ sc.tenant_id)
        × (r.owner_type ≡ sc.bank_account_owner_type)
        × (r.owner_id ≡ sc.bank_account_owner_id)
  pub payment :
      r.purpose ≡ "manual_bank_payment"
      → (sc.payment_reference ≢ "")
        × (r.source_reference ≡ some sc.payment_reference)
        × (r.tenant_id ≡ sc.tenant_id)
  pub statement :
      r.purpose ≡ "manual_bank_statement"
      → (sc.statement_reference ≢ "")
        × (r.source_reference ≡ some sc.statement_reference)
        × (r.tenant_id ≡ sc.tenant_id)

-- the grant is about the row that was read, since ids are unique
same_row :
    (sc : Scope) (d : Document) (t : Tables) (r : Row)
    → IsConsistent t
    → In r t.rows
    → d.id ≡ r.public_id
    → (g : IsGranted sc d t) → g.row ≡ r
same_row sc d t r c i e g = In-unique t.rows g.row r c.unique g.stored i (g.same_id ∙ e)

module _ (sc : Scope) (t : Tables) (c : IsConsistent t) (d : Document) (r : Row) (i : In r t.rows)
    (same_id : d.id ≡ r.public_id) (same_purpose : d.purpose ≡ r.purpose)
    (granted : is_protected d ≡ true → IsGranted sc d t) where
  bank_visible :
      r.purpose ≡ "bank_account_verification"
      → (valid_bank_account_scope sc ≡ true)
        × (r.source_reference ≡ some sc.bank_account_reference)
        × (r.tenant_id ≡ sc.tenant_id)
        × (r.owner_type ≡ sc.bank_account_owner_type)
        × (r.owner_id ≡ sc.bank_account_owner_id)
  bank_visible p =
      let g = granted (ground arith) in
      let same = same_row sc d t r c i same_id g in
      let (valid, reference, type, owner) = g.bank (same_purpose ∙ p) in
      rw (← same) (valid, reference, g.same_tenant, type, owner)

  payment_visible :
      r.purpose ≡ "manual_bank_payment"
      → (sc.payment_reference ≢ "")
        × (r.source_reference ≡ some sc.payment_reference)
        × (r.tenant_id ≡ sc.tenant_id)
  payment_visible p =
      let g = granted (ground arith) in
      let same = same_row sc d t r c i same_id g in
      let (given, reference) = g.payment (same_purpose ∙ p) in
      rw (← same) (given, reference, g.same_tenant)

  statement_visible :
      r.purpose ≡ "manual_bank_statement"
      → (sc.statement_reference ≢ "")
        × (r.source_reference ≡ some sc.statement_reference)
        × (r.tenant_id ≡ sc.tenant_id)
  statement_visible p =
      let g = granted (ground arith) in
      let same = same_row sc d t r c i same_id g in
      let (given, reference) = g.statement (same_purpose ∙ p) in
      rw (← same) (given, reference, g.same_tenant)

tenant-IsVisible :
    (sc : Scope) (id : String) (t : Tables) (r : Row)
    → IsConsistent t
    → sc.tenant_id ≢ ""
    → in_scope id sc.tenant_id sc.environment r ≡ true
    → In r t.rows
    → (is_protected (with_object r) ≡ true → IsGranted sc (with_object r) t)
    → IsVisible sc id r
tenant-IsVisible sc id t r c tenant hit place granted = record {
  same_id = ground arith;
  in_tenant = λ _. ground arith;
  in_environment = λ e. absurd (tenant e);
  bank = bank_visible sc t c (with_object r) r place refl refl granted;
  payment = payment_visible sc t c (with_object r) r place refl refl granted;
  statement = statement_visible sc t c (with_object r) r place refl refl granted;
}

tenantless-IsVisible :
    (sc : Scope) (id : String) (t : Tables) (r : Row)
    → IsConsistent t
    → sc.tenant_id ≡ ""
    → (r.public_id == id && r.environment == default_environment sc) ≡ true
    → In r t.rows
    → (is_protected (with_scope r) ≡ true → IsGranted sc (with_scope r) t)
    → IsVisible sc id r
tenantless-IsVisible sc id t r c tenantless hit place granted = record {
  same_id = ground arith;
  in_tenant = λ n. absurd (n tenantless);
  in_environment = λ _. ground arith;
  bank = bank_visible sc t c (with_scope r) r place refl refl granted;
  payment = payment_visible sc t c (with_scope r) r place refl refl granted;
  statement = statement_visible sc t c (with_scope r) r place refl refl granted;
}

-- `d` shows a row of the tables that passes the test and the check on protected documents
record IsRead (sc : Scope) (p : Row → Bool) (view : Row → Document) (t : Tables) (d : Document)
    : Type 0 where
  row : Row
  hit : p row ≡ true
  stored : In row t.rows
  shown : d ≡ view row
  granted : is_protected (view row) ≡ true → IsGranted sc (view row) t

module _ (s : Service) (sc : Scope) (p : Row → Bool) (view : Row → Document) (w w' : World)
    (d : Document) where
  checked-IsRead :
      (r : Row) (v : World) (u : Unit {0}) (v' : World)
      → p r ≡ true
      → In r w.tables.rows
      → v.tables ≡ w.tables
      → check_payment_access s sc (view r) v ≡ (ok u, v')
      → pure (view r) v' ≡ (ok d, w')
      → (w'.tables ≡ w.tables) × IsRead sc p view w.tables d
  checked-IsRead r v u v' hit place same passed done =
      let (same', granted) = check_payment_access-eq-ok s sc (view r) v v' u passed in
      (
        cc,
        record {
          row = r;
          hit = hit;
          stored = place;
          shown = cc;
          granted =
              subst (λ t. is_protected (view r) ≡ true → IsGranted sc (view r) t) same granted;
        },
      )

  row-IsRead :
      (r : Row) (v : World)
      → p r ≡ true
      → In r w.tables.rows
      → v.tables ≡ w.tables
      → (check_payment_access s sc (view r) >> pure (view r)) v ≡ (ok d, w')
      → (w'.tables ≡ w.tables) × IsRead sc p view w.tables d
  row-IsRead r v hit place same rest =
      let (u, v', passed, done) =
        >>=-eq-ok (check_payment_access s sc (view r)) (λ _. pure (view r)) v w' d rest in
      checked-IsRead r v u v' hit place same passed done

  -- a row is read, checked and returned
  get-IsRead :
      (statement s.db (first_row p not_found) >>= λ r.
      check_payment_access s sc (view r) >> pure (view r))
          w
        ≡ (ok d, w')
      → (w'.tables ≡ w.tables) × IsRead sc p view w.tables d
  get-IsRead h =
      let (r, v, read, rest) =
        >>=-eq-ok (statement s.db (first_row p not_found))
          (λ r. check_payment_access s sc (view r) >> pure (view r)) w w' d h in
      let (hit, place, same) = select-eq-ok s p not_found w v r read in
      row-IsRead r v hit place same rest

module _ (s : Service) where
  -- A successful read returns a row that the scope may see, and changes nothing: within the tenant
  -- and the environment of the scope, or, for a service account without a tenant, within its
  -- environment; and evidence of a bank account, a payment or a statement under the grant for its
  -- own source record and tenant alone.
  pub get-IsVisible :
      (sc : Scope) (id : String) (w w' : World) (d : Document)
      → IsConsistent w.tables
      → get s sc id w ≡ (ok d, w')
      → (w'.tables ≡ w.tables)
        × ((r : Row) × In r w.tables.rows
            × IsVisible sc id r
            × ((d ≡ with_object r) ⊎ (d ≡ with_scope r)))
  unfolding get
  get-IsVisible sc id w w' d c h = elim (String_discrete sc.tenant_id "") [
    | yes tenantless ↦
        let (same, x) =
          get-IsRead s sc (λ r. r.public_id == id && r.environment == default_environment sc)
            with_scope w w' d (rw (eq_true sc.tenant_id "" tenantless, if◌then◌else◌) at h) in
        (
          same,
          (
            x.row,
            x.stored,
            tenantless-IsVisible sc id w.tables x.row c tenantless x.hit x.stored x.granted,
            inr x.shown,
          ),
        )
    | no tenant ↦
        let (same, x) =
          get-IsRead s sc (in_scope id sc.tenant_id sc.environment) with_object w w' d
            (rw (eq_false sc.tenant_id "" tenant, if◌then◌else◌) at h) in
        (
          same,
          (
            x.row,
            x.stored,
            tenant-IsVisible sc id w.tables x.row c tenant x.hit x.stored x.granted,
            inl x.shown,
          ),
        )
  ]
