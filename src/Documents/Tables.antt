-- ===== src/Documents/Tables.antt =====
-- The tables, and the statements that the service and the scanner run on them. A statement takes
-- effect as a whole, or fails and changes nothing.
mod Rows
unfoldable pub use Rows.*
use file_storage_bucket.Common.{
  ℕ, Option, none, some, Bool, true, false, not, List, [], ◌∷◌, ◌++◌, ltb, ◌==◌, find?, any,
  modify_where, select, map, if◌then◌else◌,
}
use file_storage_bucket.Documents.Types.{Result, ok, err, conflict, failure}

pub record Tables : Type 0 where
  pub rows : List Row
  pub audit : List AuditEvent

-- the row that RETURNING gives, after an insertion or a renewal
unfoldable pub insert_row : ℕ → Row → Tables → Result (Row × Tables)
insert_row now new t =
    if not (row_ok new) then err failure else elim (find? (same_source new) t.rows) [
      | some r ↦
          if may_renew new r
          then ok (
            renew now new r,
            record t {
              rows = modify_where (λ x. x.public_id == r.public_id) (renew now new) t.rows;
            },
          )
          else err conflict
      | none ↦
          if any (clashes new) t.rows
          then err failure
          else ok (new, record t { rows = t.rows ++ new ∷ [] })
    ]

-- UPDATE … WHERE p RETURNING …: no row is an error of its own
unfoldable pub update_row : (Row → Bool) → (Row → Row) → Tables → Option (Row × Tables)
update_row p f t = elim (find? p t.rows) [
  | none ↦ none
  | some r ↦ some (f r, record t { rows = modify_where p f t.rows })
]

-- uploaded_at of `r` comes before that of `x`; a NULL comes last
abbrev pub uploaded_before : Option ℕ → Option ℕ → Bool
uploaded_before none _ = false
uploaded_before (some a) none = true
uploaded_before (some a) (some b) = ltb a b

-- ORDER BY uploaded_at LIMIT 1
unfoldable pub earliest : List Row → Option Row
earliest [] = none
earliest (r ∷ rs) = elim (earliest rs) [
  | none ↦ some r
  | some x ↦ if uploaded_before x.uploaded_at r.uploaded_at then some x else some r
]

unfoldable pub lease_found : ℕ → Tables → Option Row → Result (Option Row × Tables)
lease_found now t none = ok (none, t)
lease_found now t (some r) = ok (
  some (lease now r),
  record t { rows = modify_where (λ x. x.public_id == r.public_id) (lease now) t.rows },
)

-- the statement that leases the candidate; no candidate is pgx.ErrNoRows
unfoldable pub lease_next : ℕ → Tables → Result (Option Row × Tables)
lease_next now t = lease_found now t (earliest (select (is_candidate now) t.rows))

-- INSERT INTO document_audit_events … SELECT … FROM documents WHERE p: one event for each row
unfoldable pub append_event : (Row → Bool) → AuditEvent → Tables → Result (Unit {0} × Tables)
append_event p e t = elim (select p t.rows) [
  | [] ↦ ok (tt, t)
  | r ∷ rs ↦
      if event_ok e
      then ok (tt, record t { audit = t.audit ++ map (λ _. e) (r ∷ rs) })
      else err failure
]
