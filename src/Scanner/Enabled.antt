-- ===== src/Scanner/Enabled.antt =====
-- Which statements of a scanner cycle take effect, once what they look for is there.
use file_storage_bucket.Common.{
  ℕ, some, Bool, true, false, List, [], ◌∷◌, ◌++◌, map, select, find?, ◌≡◌, inl, inr, refl, ap,
  subst, arith, In, modify_where, Bool-cases, Option-cases, ◌==◌,
}
use file_storage_bucket.Documents.Types.{Error, Result, ok, Database}
use file_storage_bucket.Documents.Tables.{
  Row, Tables, AuditEvent, lease_next, lease_found, earliest, is_candidate, lease, awaits_scan,
  update_row, append_event, event_ok,
}
use file_storage_bucket.Documents.Exec.{World, Action, tick, now_at, statement, continue, ◌>>=◌}
use file_storage_bucket.Documents.Upload.{updating}

module _ {A B : Type 0} where
  pub bind-ok :
      (m : Action A) (f : A → Action B) (w v : World) (a : A)
      → m w ≡ (ok a, v)
      → (m >>= f) w ≡ f a v
  unfolding ◌>>=◌
  bind-ok m f w v a h = ap (λ p. continue p.0 f p.1) h

module _ {A : Type 0} where
  pub statement-ok :
      (db : Database) (f : ℕ → Tables → Result (A × Tables)) (w : World) (a : A) (t : Tables)
      → db.fails w.calls ≡ false
      → f (now_at db w) w.tables ≡ ok (a, t)
      → statement db f w ≡ (ok a, record (tick w) { tables = t })
  unfolding statement
  statement-ok db f w a t healthy h = rw (healthy, h) refl

find?-some :
    (p : Row → Bool) (rs : List Row) (r : Row)
    → In r rs
    → p r ≡ true
    → (x : Row) × (find? p rs ≡ some x)
find?-some p [] r i h = absurd i
find?-some p (y ∷ ys) r i h = elim (Bool-cases (p y)) [
  | inl hit ↦ (y, rw (find?, hit) refl)
  | inr miss ↦
      let later : In r ys = elim i [
        | inl e ↦ let hit : p y ≡ true = subst (λ z. p z ≡ true) e h in absurd cc
        | inr j ↦ j
      ] in
      let (x, found) = find?-some p ys r later h in (x, rw (find?, miss) found)
]

earliest_nonempty : (r : Row) (rs : List Row) → (x : Row) × (earliest (r ∷ rs) ≡ some x)
unfolding earliest
earliest_nonempty r rs = elim (Option-cases (earliest rs)) [
  | inl nothing ↦ (r, ground arith)
  | inr (y, found) ↦ elim (Option-cases (earliest (r ∷ rs))) [
    | inl nothing ↦ absurd (ground arith)
    | inr (x, is) ↦ (x, is)
  ]
]

earliest-some :
    (p : Row → Bool) (rs : List Row) (r : Row)
    → In r rs
    → p r ≡ true
    → (x : Row) × (earliest (select p rs) ≡ some x)
earliest-some p [] r i h = absurd i
earliest-some p (y ∷ ys) r i h = elim (Bool-cases (p y)) [
  | inl hit ↦ let (x, is) = earliest_nonempty y (select p ys) in (x, rw (select, hit) is)
  | inr miss ↦
      let later : In r ys = elim i [
        | inl e ↦ let hit : p y ≡ true = subst (λ z. p z ≡ true) e h in absurd cc
        | inr j ↦ j
      ] in
      let (x, found) = earliest-some p ys r later h in (x, rw (select, miss) found)
]

-- where there is a candidate, the statement leases one
pub lease_next-some :
    (now : ℕ) (t : Tables) (r : Row)
    → In r t.rows
    → is_candidate now r ≡ true
    → (x : Row) × (u : Tables) × (lease_next now t ≡ ok (some x, u))
unfolding lease_next lease_found
lease_next-some now t r i h =
    let (old, is) = earliest-some (is_candidate now) t.rows r i h in
    (
      lease now old,
      record t { rows = modify_where (λ x. x.public_id == old.public_id) (lease now) t.rows },
      rw is refl,
    )

pub updating-some :
    (p : ℕ → Row → Bool) (f : ℕ → Row → Row) (e : Error) (now : ℕ) (t : Tables) (r : Row)
    → In r t.rows
    → p now r ≡ true
    → (x : Row) × (u : Tables) × (updating p f e now t ≡ ok (x, u))
unfolding update_row
updating-some p f e now t r i h =
    let (x, found) = find?-some (p now) t.rows r i h in
    (f now x, record t { rows = modify_where (p now) (f now) t.rows }, rw (updating, found) refl)

pub append_event-ok :
    (p : Row → Bool) (e : AuditEvent) (t : Tables)
    → event_ok e ≡ true
    → (u : Tables) × (append_event p e t ≡ ok (tt, u))
unfolding append_event
append_event-ok p e t h = appended (select p t.rows) refl
  where
    appended :
        (rs : List Row) → select p t.rows ≡ rs → (u : Tables) × (append_event p e t ≡ ok (tt, u))
    appended [] is = (t, rw (append_event, is) refl)
    appended (r ∷ rs) is =
        (record t { audit = t.audit ++ map (λ _. e) (r ∷ rs) }, rw (append_event, is, h) refl)

pub In-modified :
    (p : Row → Bool) (f : Row → Row) (rs : List Row) (r : Row)
    → In r rs
    → p r ≡ true
    → In (f r) (modify_where p f rs)
In-modified p f [] r i h = absurd i
In-modified p f (x ∷ xs) r (inl e) h =
    let hit : p x ≡ true = subst (λ y. p y ≡ true) e h in rw (In, modify_where, hit) (inl (ap f e))
In-modified p f (x ∷ xs) r (inr i) h = inr (In-modified p f xs r i h)

pub lease-awaits :
    (now : ℕ) (r : Row)
    → is_candidate now r ≡ true
    → awaits_scan r.public_id r.tenant_id r.environment (lease now r) ≡ true
unfolding is_candidate awaits_scan
lease-awaits now r h = ground arith
