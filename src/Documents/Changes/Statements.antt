-- ===== src/Documents/Changes/Statements.antt =====
-- The statements of the service as changes of the tables.
use file_storage_bucket.Common.{
  ℕ, String, Option, none, some, Bool, ◌≡◌, refl, arith, find?, Option-cases, inl, inr,
}
use file_storage_bucket.Documents.Types.{Service, Scope, CreateInput, Error, ok, ScanStatus}
use file_storage_bucket.Documents.Tables.{
  Row, AuditEvent, Tables, insert_row, update_row, append_event, lease_found, lease_next,
  awaits_upload, quarantine, awaits_scan, conclude_scan,
}
use file_storage_bucket.Documents.Exec.{statement}
use file_storage_bucket.Documents.Access.{first_row}
use file_storage_bucket.Documents.Audit.{
  record_event, record_bank_event, record_reasoned_event, record_scoped_event,
}
use file_storage_bucket.Documents.Create.{new_row}
use file_storage_bucket.Documents.Upload.{updating, status_after}
use file_storage_bucket.Documents.Changes.{
  IsOutcome, inserted, uploaded, concluded, leased, audited, Changes, unchanged, then_change,
}
use file_storage_bucket.Documents.Changes.Runs.{Runs, Runs-statement}

first_row_unchanged :
    (p : Row → Bool) (e : Error) (now : ℕ) (t : Tables) (r : Row) (u : Tables)
    → first_row p e now t ≡ ok (r, u)
    → Changes t u
first_row_unchanged p e now t r u h = elim (Option-cases (find? p t.rows)) [
  | inl missing ↦ absurd (ground arith)
  | inr (x, found) ↦ let same : t ≡ u = ground arith in rw (← same) unchanged
]

lease_none :
    (now : ℕ) (t u : Tables) (found : Option Row) → lease_found now t found ≡ ok (none, u) → t ≡ u
unfolding lease_found
lease_none now t u none h = cc
lease_none now t u (some r) h = cc

module _ (s : Service) where
  pub Runs-first_row : (p : Row → Bool) (e : Error) → Runs (statement s.db (first_row p e))
  Runs-first_row p e = Runs-statement s.db _ (first_row_unchanged p e)

  pub Runs-append :
      (p : Row → Bool) (e : ℕ → AuditEvent) → Runs (statement s.db (λ now. append_event p (e now)))
  Runs-append p e =
      Runs-statement s.db _ (λ now t a u h. then_change unchanged (audited p (e now) h))

  pub Runs-record_event : (sc : Scope) (id action : String) → Runs (record_event s sc id action)
  unfolding record_event
  Runs-record_event sc id action = Runs-append _ _

  pub Runs-record_bank_event :
      (sc : Scope) (id action : String) → Runs (record_bank_event s sc id action)
  unfolding record_bank_event
  Runs-record_bank_event sc id action = Runs-append _ _

  pub Runs-record_scoped_event :
      (sc : Scope) (id action : String) → Runs (record_scoped_event s sc id action)
  unfolding record_scoped_event
  Runs-record_scoped_event sc id action = Runs-append _ _

  pub Runs-record_reasoned_event :
      (sc : Scope) (id action reason : String) → Runs (record_reasoned_event s sc id action reason)
  unfolding record_reasoned_event
  Runs-record_reasoned_event sc id action reason = Runs-append _ _

  pub Runs-insert :
      (sc : Scope) (input : CreateInput) (id : String) (expires : ℕ)
      → Runs (statement s.db (λ now. insert_row now (new_row s sc input id expires now)))
  unfolding new_row
  Runs-insert sc input id expires = Runs-statement s.db _ (λ now t r u h.
      then_change unchanged (inserted now _ r (refl, refl, refl, refl, refl, refl) h))

  updating-some :
      (p : ℕ → Row → Bool) (f : ℕ → Row → Row) (e : Error) (now : ℕ) (t : Tables) (r : Row)
      (u : Tables)
      → updating p f e now t ≡ ok (r, u)
      → update_row (p now) (f now) t ≡ some (r, u)
  updating-some p f e now t r u h = elim (Option-cases (update_row (p now) (f now) t)) [
    | inl missing ↦ absurd (ground arith)
    | inr (x, found) ↦ ground arith
  ]

  pub Runs-quarantine :
      (id tenant environment : String) (e : Error)
      → Runs (statement s.db (updating (λ _. awaits_upload id tenant environment) quarantine e))
  Runs-quarantine id tenant environment e = Runs-statement s.db _ (λ now t r u h.
      then_change unchanged (
        uploaded now id tenant environment r
          (updating-some (λ _. awaits_upload id tenant environment) quarantine e now t r u h)))

  pub Runs-conclude :
      (id tenant environment : String) (scan : ScanStatus) (e : Error)
      → IsOutcome scan
      → Runs (
          statement s.db (
            updating
              (λ _. awaits_scan id tenant environment)
              (λ now. conclude_scan now scan (status_after scan))
              e))
  Runs-conclude id tenant environment scan e k = Runs-statement s.db _ (λ now t r u h.
      then_change unchanged (
        concluded now id tenant environment scan r k (
          updating-some (λ _. awaits_scan id tenant environment)
            (λ n. conclude_scan n scan (status_after scan)) e now t r u h)))

  leased_some :
      (now : ℕ) (t : Tables) (found : Option Row) (u : Tables)
      → lease_next now t ≡ ok (found, u)
      → Changes t u
  unfolding lease_next
  leased_some now t (some r) u h = then_change unchanged (leased now r h)
  leased_some now t none u h = let same : t ≡ u = lease_none now t u _ h in rw (← same) unchanged

  pub Runs-lease_next : Runs (statement s.db lease_next)
  Runs-lease_next = Runs-statement s.db _ leased_some

  -- a query that returns a value of the tables
  pub Runs-select :
      {A : Type 0} (f : ℕ → Tables → A) → Runs (statement s.db (λ now t. ok (f now t, t)))
  Runs-select f =
      Runs-statement s.db _
        (λ now t a u h. let same : t ≡ u = ground arith in rw (← same) unchanged)
