-- ===== src/Documents/Lifecycle/Logged.antt =====
-- The audit event of a method.
use file_storage_bucket.Common.{
  ℕ, String, List, false, none, ◌≡◌, sym, ap, subst, ◌∙◌, inl, inr, ◌++◌, ◌∷◌, [], arith, select,
  select-none, All, All-In, In, map, eq_self, eq_false, ◌==◌,
}
use file_storage_bucket.Documents.Types.{Scope, Service, ok}
use file_storage_bucket.Documents.Tables.{Row, AuditEvent, Tables, clashes, append_event}
use file_storage_bucket.Documents.Exec.{World, now_at, statement}
use file_storage_bucket.Documents.Exec.Inversion.{statement-eq-ok}
use file_storage_bucket.Documents.Audit.{record_event, record_bank_event}
use file_storage_bucket.Documents.Lifecycle.{AreUnique}
use file_storage_bucket.Documents.Lifecycle.Sound.{apart_of_clashes}
use file_storage_bucket.Documents.Lifecycle.Inversion.{append_event-Extends}

others :
    (r : Row) (rs : List Row)
    → All (λ x. clashes x r ≡ false) rs
    → All (λ x. (x.public_id == r.public_id) ≡ false) rs
others r [] h = tt
others r (x ∷ rs) (here, later) = (eq_false _ _ (apart_of_clashes x r here), others r rs later)

pub select_unique :
    (rs : List Row) (a : Row)
    → AreUnique rs
    → In a rs
    → select (λ x. x.public_id == a.public_id) rs ≡ a ∷ []
select_unique [] a u i = absurd i
select_unique (r ∷ rs) a (apart, u) (inl e) =
    subst (λ x. select (λ y. y.public_id == x.public_id) (r ∷ rs) ≡ x ∷ []) (sym e)
      (ground (arith, eq_self r.public_id, select-none _ rs (others r rs apart)))
select_unique (r ∷ rs) a (apart, u) (inr i) =
    let other : (r.public_id == a.public_id) ≡ false =
      eq_false _ _ (λ e. apart_of_clashes a r (All-In _ rs a apart i) (sym e)) in
    ground (arith, select_unique rs a u i)

abbrev pub event_of : Scope → String → String → String → ℕ → AuditEvent
event_of sc id action correlation now = record {
  document = id;
  action = action;
  actor_subject = sc.subject;
  actor_application = sc.application_id;
  correlation_id = correlation;
  reason = none;
  occurred_at = now;
}

-- the rows are as before, and one event was added
pub record IsLogged (sc : Scope) (id action correlation : String) (t u : Tables) : Type 0 where
  pub same_rows : u.rows ≡ t.rows
  pub at : ℕ
  pub added : u.audit ≡ t.audit ++ event_of sc id action correlation at ∷ []

append_event-one :
    (id : String) (e : AuditEvent) (t u : Tables) (r : Row)
    → AreUnique t.rows
    → In r t.rows
    → r.public_id ≡ id
    → append_event (λ x. x.public_id == id) e t ≡ ok (tt, u)
    → (u.rows ≡ t.rows) × (u.audit ≡ t.audit ++ e ∷ [])
append_event-one id e t u r unique i same h =
    let (rows, audit) = append_event-Extends (λ x. x.public_id == id) e t u h in
    let one = select_unique t.rows r unique i in
    (rows, audit ∙ ap (λ rs. t.audit ++ map (λ (_ : Row). e) rs) (rw same at one))

-- the world before has the tables `t`, which hold the document
module _ (s : Service) (sc : Scope) (id action : String) (w w' : World) (t : Tables) (r : Row)
    (before : w.tables ≡ t) (unique : AreUnique t.rows) (i : In r t.rows)
    (same : r.public_id ≡ id) where
  statement-IsLogged :
      (correlation : String) (u : Unit {0})
      → statement s.db
          (λ now. append_event (λ x. x.public_id == id) (event_of sc id action correlation now))
          w
        ≡ (ok u, w')
      → IsLogged sc id action correlation t w'.tables
  statement-IsLogged correlation u h =
      let took = (statement-eq-ok s.db _ w w' u h).0 in
      let (rows, audit) =
        append_event-one id (event_of sc id action correlation (now_at s.db w)) t w'.tables r unique
          i same
          (subst
            (λ x.
              append_event (λ y. y.public_id == id)
                (event_of sc id action correlation (now_at s.db w)) x
              ≡ ok (tt, w'.tables))
            before took) in
      record { same_rows = rows; at = now_at s.db w; added = audit }

  pub record_event-IsLogged :
      (u : Unit {0})
      → record_event s sc id action w ≡ (ok u, w')
      → IsLogged sc id action sc.correlation_id t w'.tables
  unfolding record_event
  record_event-IsLogged u h = statement-IsLogged sc.correlation_id u h

  pub record_bank_event-IsLogged :
      (u : Unit {0})
      → record_bank_event s sc id action w ≡ (ok u, w')
      → IsLogged sc id action sc.bank_account_reference t w'.tables
  unfolding record_bank_event
  record_bank_event-IsLogged u h = statement-IsLogged sc.bank_account_reference u h
