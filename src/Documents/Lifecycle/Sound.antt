-- ===== src/Documents/Lifecycle/Sound.antt =====
-- Consistency of the tables along their changes.
use file_storage_bucket.Common.{
  ℕ, String, List, Bool, true, false, ◌≡◌, ◌≢◌, refl, sym, ap, subst, ◌∙◌, inl, inr, ◌++◌, ◌∷◌, [],
  arith, modify_where, Bool-cases, All, All-modify_where, All-concat, All-In, In, eq_self, any, map,
  ◌==◌,
}
use file_storage_bucket.Documents.Types.{ScanStatus}
use file_storage_bucket.Documents.Tables.{
  Row, Tables, renew, quarantine, conclude_scan, lease, awaits_upload, awaits_scan, is_candidate,
  clashes,
}
use file_storage_bucket.Documents.Upload.{status_after}
use file_storage_bucket.Documents.Changes.{
  Change, Changes, IsNew, IsOutcome, inserted, uploaded as is_uploaded, concluded, leased, audited,
  unchanged, then_change,
}
use file_storage_bucket.Documents.Lifecycle.{frozen, IsSound, AreUnique, IsConsistent}
use file_storage_bucket.Documents.Lifecycle.Inversion.{
  IsUpdated, IsLeased, insert_row-cases, update_row-IsUpdated, lease_next-IsLeased,
  append_event-Extends,
}

new-IsSound : (now : ℕ) (r : Row) → IsNew now r → IsSound r
new-IsSound now r n = ground arith

renew-IsSound : (now : ℕ) (new r : Row) → IsSound r → IsSound (renew now new r)
renew-IsSound now new r v = record {
  available_clean = v.available_clean;
  rejected_infected = v.rejected_infected;
  untouched = v.untouched;
  held = v.held;
  bounded = v.bounded;
  used = v.used;
}

quarantine-IsSound :
    (now : ℕ) (id tenant environment : String) (r : Row)
    → awaits_upload id tenant environment r ≡ true
    → IsSound r
    → IsSound (quarantine now r)
unfolding awaits_upload
quarantine-IsSound now id tenant environment r h v = ground arith

conclude_scan-IsSound :
    (now : ℕ) (id tenant environment : String) (scan : ScanStatus) (r : Row)
    → IsOutcome scan
    → awaits_scan id tenant environment r ≡ true
    → IsSound r
    → IsSound (conclude_scan now scan (status_after scan) r)
unfolding awaits_scan
conclude_scan-IsSound now id tenant environment scan r k h v = ground arith

lease-IsSound : (now : ℕ) (r : Row) → is_candidate now r ≡ true → IsSound r → IsSound (lease now r)
unfolding is_candidate
lease-IsSound now r h v = ground arith

-- The keys are among the columns that never change.
All-frozen :
    (r : Row) (rs : List Row)
    → All (λ x. clashes x r ≡ false) rs
    → All (λ x. clashes x (frozen r) ≡ false) (map frozen rs)
unfolding clashes
All-frozen r [] h = tt
All-frozen r (x ∷ rs) (here, later) = (here, All-frozen r rs later)

All-thawed :
    (r : Row) (rs : List Row)
    → All (λ x. clashes x (frozen r) ≡ false) (map frozen rs)
    → All (λ x. clashes x r ≡ false) rs
unfolding clashes
All-thawed r [] h = tt
All-thawed r (x ∷ rs) (here, later) = (here, All-thawed r rs later)

AreUnique-frozen : (rs : List Row) → AreUnique rs → AreUnique (map frozen rs)
AreUnique-frozen [] h = tt
AreUnique-frozen (r ∷ rs) (here, later) = (All-frozen r rs here, AreUnique-frozen rs later)

AreUnique-thawed : (rs : List Row) → AreUnique (map frozen rs) → AreUnique rs
AreUnique-thawed [] h = tt
AreUnique-thawed (r ∷ rs) (here, later) = (All-thawed r rs here, AreUnique-thawed rs later)

map-frozen-modify_where :
    (p : Row → Bool) (f : Row → Row) (rs : List Row)
    → ((r : Row) → frozen (f r) ≡ frozen r)
    → map frozen (modify_where p f rs) ≡ map frozen rs
map-frozen-modify_where p f [] k = refl
map-frozen-modify_where p f (r ∷ rs) k = elim (Bool-cases (p r)) [
  | inl hit ↦ rw (hit, k r, map-frozen-modify_where p f rs k)
  | inr miss ↦ rw (miss, map-frozen-modify_where p f rs k)
]

AreUnique-modify_where :
    (p : Row → Bool) (f : Row → Row) (rs : List Row)
    → ((r : Row) → frozen (f r) ≡ frozen r)
    → AreUnique rs
    → AreUnique (modify_where p f rs)
AreUnique-modify_where p f rs k h =
    AreUnique-thawed _ (rw (map-frozen-modify_where p f rs k) (AreUnique-frozen rs h))

AreUnique-concat :
    (rs : List Row) (new : Row)
    → AreUnique rs
    → any (clashes new) rs ≡ false
    → AreUnique (rs ++ new ∷ [])
AreUnique-concat [] new h k = (tt, tt)
AreUnique-concat (r ∷ rs) new (here, later) k = (
  All-concat (λ x. clashes x r ≡ false) rs new here (ground arith),
  AreUnique-concat rs new later (ground arith),
)

modify_where-none :
    (r : Row) (f : Row → Row) (rs : List Row)
    → All (λ x. clashes x r ≡ false) rs
    → modify_where (λ x. x.public_id == r.public_id) f rs ≡ rs
unfolding clashes
modify_where-none r f [] h = refl
modify_where-none r f (x ∷ rs) (here, later) = ground (arith, modify_where-none r f rs later)

ne_of_clashes : (x r : Row) → clashes x r ≡ false → (r.public_id == x.public_id) ≡ false
unfolding clashes
ne_of_clashes x r h = ground arith

pub apart_of_clashes : (x r : Row) → clashes x r ≡ false → x.public_id ≢ r.public_id
unfolding clashes
apart_of_clashes x r h = λ e. ground arith

-- the rows of consistent tables are told apart by their public ids
pub In-unique :
    (rs : List Row) (a b : Row)
    → AreUnique rs
    → In a rs
    → In b rs
    → a.public_id ≡ b.public_id
    → a ≡ b
In-unique [] a b u i j h = absurd i
In-unique (r ∷ rs) a b (apart, u) (inl p) (inl q) h = p ∙ sym q
In-unique (r ∷ rs) a b (apart, u) (inl p) (inr j) h =
    absurd (apart_of_clashes b r (All-In _ rs b apart j) (sym h ∙ ap Row.public_id p))
In-unique (r ∷ rs) a b (apart, u) (inr i) (inl q) h =
    absurd (apart_of_clashes a r (All-In _ rs a apart i) (h ∙ ap Row.public_id q))
In-unique (r ∷ rs) a b (apart, u) (inr i) (inr j) h = In-unique rs a b u i j h

-- Where ids are unique, an update by id rewrites the one row that was selected.
All-modify_unique :
    (P : Row → Type 0) (old : Row) (f : Row → Row) (rs : List Row)
    → AreUnique rs
    → In old rs
    → (P old → P (f old))
    → All P rs
    → All P (modify_where (λ x. x.public_id == old.public_id) f rs)
All-modify_unique P old f [] u i k h = tt
All-modify_unique P old f (r ∷ rs) (apart, u) (inl e) k (here, later) =
    subst (λ o. (P o → P (f o)) → All P (modify_where (λ x. x.public_id == o.public_id) f (r ∷ rs)))
      (sym e) (λ step. rw (eq_self r.public_id, modify_where-none r f rs apart) (step here, later))
      k
All-modify_unique P old f (r ∷ rs) (apart, u) (inr i) k (here, later) =
    rw (ne_of_clashes old r (All-In _ rs old apart i))
      (here, All-modify_unique P old f rs u i k later)

Change-IsSound : {t u : Tables} → Change t u → IsConsistent t → All IsSound u.rows
Change-IsSound {t} {u} (inserted now new r n h) c = elim (insert_row-cases now new r t u h) [
  | inl a ↦ rw a.rows (All-concat IsSound t.rows new c.sound (new-IsSound now new n))
  | inr m ↦ rw m.rows (All-modify_where IsSound _ _ t.rows (λ x _. renew-IsSound now new x) c.sound)
]
Change-IsSound {t} {u} (is_uploaded now id tenant environment r h) c =
    rw (IsUpdated.rows (update_row-IsUpdated _ _ r t u h))
      (All-modify_where IsSound _ _ t.rows (quarantine-IsSound now id tenant environment) c.sound)
Change-IsSound {t} {u} (concluded now id tenant environment scan r k h) c =
    rw (IsUpdated.rows (update_row-IsUpdated _ _ r t u h)) (
      All-modify_where IsSound _ _ t.rows
        (λ x. conclude_scan-IsSound now id tenant environment scan x k) c.sound)
Change-IsSound {t} {u} (leased now r h) c =
    let l = lease_next-IsLeased now r t u h in
    rw l.rows (
      All-modify_unique IsSound l.old (lease now) t.rows c.unique l.matched.1
        (lease-IsSound now l.old l.matched.0) c.sound)
Change-IsSound {t} {u} (audited p e h) c = rw (append_event-Extends p e t u h).0 c.sound

Change-unique : {t u : Tables} → Change t u → AreUnique t.rows → AreUnique u.rows
Change-unique {t} {u} (inserted now new r n h) c = elim (insert_row-cases now new r t u h) [
  | inl a ↦ rw a.rows (AreUnique-concat t.rows new c a.fresh)
  | inr m ↦ rw m.rows (AreUnique-modify_where _ _ t.rows (λ _. refl) c)
]
Change-unique {t} {u} (is_uploaded now id tenant environment r h) c =
    rw (IsUpdated.rows (update_row-IsUpdated _ _ r t u h))
      (AreUnique-modify_where _ _ t.rows (λ _. refl) c)
Change-unique {t} {u} (concluded now id tenant environment scan r k h) c =
    rw (IsUpdated.rows (update_row-IsUpdated _ _ r t u h))
      (AreUnique-modify_where _ _ t.rows (λ _. refl) c)
Change-unique {t} {u} (leased now r h) c =
    rw (IsLeased.rows (lease_next-IsLeased now r t u h))
      (AreUnique-modify_where _ _ t.rows (λ _. refl) c)
Change-unique {t} {u} (audited p e h) c = rw (append_event-Extends p e t u h).0 c

-- Consistent tables stay consistent through any sequence of statements: in every row the status
-- available goes with a clean scan and rejected with an infected one, a document awaiting its
-- upload is unscanned, a running scan holds a lease, at most five scans are begun, and no two rows
-- share a public id, an object key or an idempotency key of the same caller.
pub Changes-IsConsistent : {t u : Tables} → Changes t u → IsConsistent t → IsConsistent u
Changes-IsConsistent unchanged c = c
Changes-IsConsistent (then_change {u = m} cs step) c =
    let before : IsConsistent m = Changes-IsConsistent cs c in
    record { sound = Change-IsSound step before; unique = Change-unique step before.unique }
