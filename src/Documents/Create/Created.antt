-- ===== src/Documents/Create/Created.antt =====
-- Service.Create: a creation that succeeded, with its input and scope field by field.
use file_storage_bucket.Common.{
  ℕ, String, none, Bool, true, false, List, [], ◌∷◌, ◌≡◌, ◌⊎◌, inl, inr, sym, arith, find?, subst,
  In,
}
use file_storage_bucket.Documents.Types.{Scope, CreateInput, Document, SignedRequest, Service, ok}
use file_storage_bucket.Documents.Tables.{Row, Tables, has_key}
use file_storage_bucket.Documents.Exec.{World}
use file_storage_bucket.Documents.Create.{create, normalise, effective_scope}
use file_storage_bucket.Documents.Create.Grant.{IsPermitted}
use file_storage_bucket.Documents.Create.Outcome.{IsReplayed}
use file_storage_bucket.Documents.Create.Authorised.{IsAuthorised, create-cases}
use file_storage_bucket.Documents.Create.Valid.{
  IsNamed, IsComplete, scope_invalid-IsNamed, input_invalid-IsComplete,
}
use file_storage_bucket.Documents.Create.Written.{IsOf, IsInserted, IsExtended, insert_row-IsOf}

-- what a creation that found no row with its key wrote
pub record IsNew (s : Service) (sc : Scope) (input : CreateInput) (entropy : List ℕ) (t u : Tables)
    (d : Document) (signed : SignedRequest) : Type 0 where
  pub authorised : IsAuthorised s sc input entropy t u d signed
  pub no_row :
      (r : Row)
      → In r t.rows
      → ¬ (
          (r.tenant_id ≡ sc.tenant_id)
          × (r.environment ≡ sc.environment)
          × (r.source_application ≡ sc.application_id)
          × (r.idempotency_key ≡ input.idempotency_key))
  pub columns : IsOf sc input authorised.row
  pub written :
      IsInserted s sc input entropy authorised.expires authorised.now authorised.row t.rows u.rows
      ⊎ IsExtended authorised.expires authorised.now authorised.row t.rows u.rows

find?-none : (p : Row → Bool) (rs : List Row) (r : Row) → find? p rs ≡ none → In r rs → p r ≡ false
find?-none p [] r h i = absurd i
find?-none p (x ∷ rs) r h (inl e) =
    let miss : p x ≡ false = ground arith in subst (λ y. p y ≡ false) (sym e) miss
find?-none p (x ∷ rs) r h (inr i) = find?-none p rs r (ground arith) i

has_key_of :
    (tenant environment application key : String) (r : Row)
    → (r.tenant_id ≡ tenant)
      × (r.environment ≡ environment)
      × (r.source_application ≡ application)
      × (r.idempotency_key ≡ key)
    → has_key tenant environment application key r ≡ true
unfolding has_key
has_key_of tenant environment application key r (a, b, c, d) = ground arith

module _ (s : Service) (sc : Scope) (input : CreateInput) (entropy : List ℕ) where
  IsAuthorised-IsNew :
      (t u : Tables) (d : Document) (signed : SignedRequest)
      → IsAuthorised s sc input entropy t u d signed
      → IsNew s sc input entropy t u d signed
  IsAuthorised-IsNew t u d signed a =
      let p = has_key sc.tenant_id sc.environment sc.application_id input.idempotency_key in
      let (columns, written) =
        insert_row-IsOf s sc input entropy a.expires a.now a.row t a.middle u.rows a.inserted
          a.rows in
      record {
        authorised = a;
        no_row = λ r i k.
            let hit =
              has_key_of sc.tenant_id sc.environment sc.application_id input.idempotency_key r k in
            let miss = find?-none p t.rows r a.unused_key i in absurd cc;
        columns = columns;
        written = written;
      }

module _ (s : Service) (sc : Scope) (input : CreateInput) (entropy : List ℕ) (w w' : World) where
  -- A creation that succeeds has the grant that its purpose needs, and a normalised scope and input
  -- whose fields are all in range. Where a row of the application has the key and the hash of the
  -- request, no table changes, and the caller gets that document with a link to its object.
  -- Otherwise no row of the application has the key, and the party of a party's document exists:
  -- either a pending row with the columns of the input was added, or a pending row that has the same
  -- source, owner, purpose, classification, size and digest got a new end and time of update, and no
  -- other change.
  pub create-IsCreated :
      (d : Document) (signed : SignedRequest)
      → create s sc input entropy w ≡ (ok (d, signed), w')
      → let input' = normalise s input in
        let sc' = effective_scope sc input' in
        IsPermitted s sc input
        × IsNamed sc' input'
        × IsComplete input'
        × (((w'.tables ≡ w.tables) × IsReplayed s sc' input' w.tables d signed)
            ⊎ IsNew s sc' input' entropy w.tables w'.tables d signed)
  create-IsCreated d signed h =
      let input' = normalise s input in
      let sc' = effective_scope sc input' in
      let (permitted, scoped, valid, outcome) = create-cases s sc input entropy w w' d signed h in
      (
        permitted,
        scope_invalid-IsNamed sc' input' scoped,
        input_invalid-IsComplete input' valid,
        elim outcome [
          | inl old ↦ inl old
          | inr new ↦ inr (IsAuthorised-IsNew s sc' input' entropy w.tables w'.tables d signed new)
        ],
      )
