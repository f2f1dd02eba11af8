-- ===== src/Documents/Create/Steps.antt =====
-- Service.Create: the lookup of the key and the check of the party.
use file_storage_bucket.Common.{
  ℕ, String, none, Bool, ◌≡◌, inl, inr, refl, ◌∙◌, ap, arith, find?, Bool-cases, Option-cases,
  String_discrete,
}
use file_storage_bucket.Documents.Types.{
  Scope, CreateInput, Service, Error, Result, ok, err, not_found, conflict,
}
use file_storage_bucket.Documents.Tables.{Row, has_key}
use file_storage_bucket.Documents.Exec.{World, tick, statement, or_raise, continue, ◌>>=◌}
use file_storage_bucket.Documents.Access.{first_row, get_idempotent, matching_hash}
use file_storage_bucket.Documents.Create.{check_party}

select-eq-err :
    (s : Service) (p : Row → Bool) (w w' : World) (e : Error)
    → statement s.db (first_row p not_found) w ≡ (err e, w')
    → (w'.tables ≡ w.tables) × (e ≡ not_found → find? p w.tables.rows ≡ none)
unfolding statement
select-eq-err s p w w' e h = elim (Bool-cases (s.db.fails w.calls)) [
  | inl fails ↦ (ground arith, λ same. absurd (ground arith))
  | inr works ↦ elim (Option-cases (find? p w.tables.rows)) [
    | inl missing ↦ (ground arith, λ _. missing)
    | inr (r, found) ↦ absurd (ground arith)
  ]
]

matched-err :
    (s : Service) (hash : String) (r : Result Row) (w w' : World)
    → continue r (matching_hash s hash) w ≡ (err not_found, w')
    → (r ≡ err not_found) × (w' ≡ w)
unfolding matching_hash
matched-err s hash (ok r) w w' h = absurd (ground arith)
matched-err s hash (err e) w w' h = ground arith

pub get_idempotent-missing :
    (s : Service) (sc : Scope) (key hash : String) (w w' : World)
    → get_idempotent s sc key hash w ≡ (err not_found, w')
    → (w'.tables ≡ w.tables)
      × (find? (has_key sc.tenant_id sc.environment sc.application_id key) w.tables.rows ≡ none)
unfolding get_idempotent ◌>>=◌
get_idempotent-missing s sc key hash w w' h =
    let query =
      statement s.db
        (first_row (has_key sc.tenant_id sc.environment sc.application_id key) not_found) in
    let (missing, same) = matched-err s hash (query w).0 (query w).1 w' h in
    let (here, none_found) =
      select-eq-err s (has_key sc.tenant_id sc.environment sc.application_id key) w (query w).1
        not_found cc in
    (ap World.tables same ∙ here, none_found refl)

or_raise-eq-ok :
    (r : Result (Unit {0})) (e : Error) (w w' : World) (u : Unit {0})
    → or_raise e r w ≡ (ok u, w')
    → (r ≡ ok tt) × (w' ≡ w)
unfolding or_raise
or_raise-eq-ok (ok x) e w w' u h = (refl, cc)
or_raise-eq-ok (err x) e w w' u h = cc

pub check_party-eq-ok :
    (s : Service) (sc : Scope) (input : CreateInput) (w w' : World) (u : Unit {0})
    → check_party s sc input w ≡ (ok u, w')
    → (w'.tables ≡ w.tables)
      × (input.owner_type ≡ "PARTY"
          → (n : ℕ) × (s.party.exists n sc.tenant_id sc.environment input.party_id ≡ ok tt))
unfolding check_party ◌>>=◌
check_party-eq-ok s sc input w w' u h = elim (String_discrete input.owner_type "PARTY") [
  | yes party ↦
      let answer = s.party.exists w.calls sc.tenant_id sc.environment input.party_id in
      let (exists, same) = or_raise-eq-ok answer conflict (tick w) w' u (ground arith) in
      (ap World.tables same, λ _. (w.calls, exists))
  | no other ↦ (ground arith, λ e. absurd (other e))
]
