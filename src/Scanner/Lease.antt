-- ===== src/Scanner/Lease.antt =====
-- The statement of processOne that leases a document.
use file_storage_bucket.Common.{
  ℕ, ◌+◌, ◌≤◌, Option, none, some, Bool, true, false, List, [], ◌∷◌, ◌≡◌, ◌≢◌, ◌⊎◌, inl, inr, sym,
  ◌∙◌, ap, arith, In, modify_where, ◌==◌, subst, Bool-cases,
}
use file_storage_bucket.Documents.Types.{ok}
use file_storage_bucket.Documents.Tables.{Row, Tables, lease_next, lease_found, is_candidate, lease}
use file_storage_bucket.Documents.Lifecycle.Inversion.{lease_next-IsLeased}

-- a row after an update was updated, or failed the test
In-modify_where :
    (p : Row → Bool) (f : Row → Row) (xs : List Row) (r : Row)
    → In r (modify_where p f xs)
    → ((x : Row) × (r ≡ f x)) ⊎ (p r ≡ false)
In-modify_where p f [] r i = absurd i
In-modify_where p f (x ∷ xs) r (inr i) = In-modify_where p f xs r i
In-modify_where p f (x ∷ xs) r (inl e) = elim (Bool-cases (p x)) [
  | inl hit ↦ inl (x, ground arith)
  | inr miss ↦ inr (ground arith)
]

leased_apart :
    (now now' : ℕ) (x : Row) → now' ≤ now + 180000000 → is_candidate now' (lease now x) ≡ false
unfolding is_candidate
leased_apart now now' x h = ground arith

lease-bounded :
    (now : ℕ) (x r : Row) → is_candidate now x ≡ true → r ≡ lease now x → r.scan_attempts ≤ 5
unfolding is_candidate
lease-bounded now x r h e = ground arith

-- A leased document was a candidate; it counts the attempt, of which there are at most five.
pub lease_next-bounded :
    (now : ℕ) (t u : Tables) (r : Row) → lease_next now t ≡ ok (some r, u) → r.scan_attempts ≤ 5
lease_next-bounded now t u r h =
    let l = lease_next-IsLeased now r t u h in lease-bounded now l.old r l.matched.0 l.result

-- Of two leases of which the second is taken from the rows that the first one left, within the three
-- minutes of the first, the documents differ.
pub lease_next-exclusive :
    (now now' : ℕ) (t u t' u' : Tables) (r r' : Row)
    → lease_next now t ≡ ok (some r, u)
    → t'.rows ≡ u.rows
    → now' ≤ now + 180000000
    → lease_next now' t' ≡ ok (some r', u')
    → r'.public_id ≢ r.public_id
lease_next-exclusive now now' t u t' u' r r' first left soon second same =
    let l = lease_next-IsLeased now r t u first in
    let l' = lease_next-IsLeased now' r' t' u' second in
    let place = subst (λ rows. In l'.old rows) (left ∙ l.rows) l'.matched.1 in
    let same_id : l'.old.public_id ≡ l.old.public_id =
      sym (ap Row.public_id l'.result) ∙ same ∙ ap Row.public_id l.result in
    elim (In-modify_where (λ x. x.public_id == l.old.public_id) (lease now) t.rows l'.old place) [
      | inl (x, e) ↦
          let apart = leased_apart now now' x soon in
          let hit : is_candidate now' (lease now x) ≡ true =
            subst (λ y. is_candidate now' y ≡ true) e l'.matched.0 in
          cc
      | inr miss ↦ absurd (ground arith)
    ]

lease_found-none :
    (now : ℕ) (t u : Tables) (found : Option Row)
    → lease_found now t found ≡ ok (none, u)
    → (found ≡ none) × (u ≡ t)
unfolding lease_found
lease_found-none now t u none h = ground arith
lease_found-none now t u (some r) h = cc

-- where nothing was leased, nothing changed
pub lease_next-none : (now : ℕ) (t u : Tables) → lease_next now t ≡ ok (none, u) → u ≡ t
unfolding lease_next
lease_next-none now t u h = (lease_found-none now t u _ h).1
