-- ===== src/Documents/Lifecycle/Later.antt =====
-- The progress of rows and of the audit trail along the changes of the tables.
use file_storage_bucket.Common.{
  ℕ, suc, ◌≤◌, String, List, Bool, true, ◌≡◌, refl, sym, ap, ◌∙◌, ◌⊎◌, inl, inr, ◌++◌, ◌∷◌, [],
  arith, modify_where, Bool-cases, append-nil, append_assoc,
}
use file_storage_bucket.Documents.Types.{ScanStatus}
use file_storage_bucket.Documents.Tables.{
  Row, Tables, renew, quarantine, conclude_scan, lease, awaits_upload, awaits_scan,
}
use file_storage_bucket.Documents.Upload.{status_after}
use file_storage_bucket.Documents.Changes.{
  Change, Changes, IsOutcome, inserted, uploaded as is_uploaded, concluded, leased, audited,
  unchanged, then_change,
}
use file_storage_bucket.Documents.Lifecycle.{stage, IsLater, AllLater, Extends}
use file_storage_bucket.Documents.Lifecycle.Inversion.{
  IsUpdated, IsLeased, insert_row-cases, update_row-IsUpdated, lease_next-IsLeased,
  append_event-Extends,
}

IsLater-refl : (r : Row) → IsLater r r
IsLater-refl r = (refl, inl refl, omega arith)

IsLater-trans : (a b c : Row) → IsLater a b → IsLater b c → IsLater a c
IsLater-trans a b c (same, forward, more) (same', forward', more') =
    (same' ∙ same, later forward forward', omega arith)
  where
    later :
        (b.status ≡ a.status) ⊎ (suc (stage a.status) ≤ stage b.status)
        → (c.status ≡ b.status) ⊎ (suc (stage b.status) ≤ stage c.status)
        → (c.status ≡ a.status) ⊎ (suc (stage a.status) ≤ stage c.status)
    later (inl p) (inl q) = inl (q ∙ p)
    later (inl p) (inr q) = inr (rw (← p) q)
    later (inr p) (inl q) = inr (rw q p)
    later (inr p) (inr q) = inr (omega arith)

pub AllLater-refl : (rs : List Row) → AllLater rs rs
AllLater-refl [] = tt
AllLater-refl (r ∷ rs) = (IsLater-refl r, AllLater-refl rs)

AllLater-trans : (xs ys zs : List Row) → AllLater xs ys → AllLater ys zs → AllLater xs zs
AllLater-trans [] ys zs h k = tt
AllLater-trans (x ∷ xs) [] zs h k = absurd h
AllLater-trans (x ∷ xs) (y ∷ ys) [] h k = absurd k
AllLater-trans (x ∷ xs) (y ∷ ys) (z ∷ zs) (h, hs) (k, ks) =
    (IsLater-trans x y z h k, AllLater-trans xs ys zs hs ks)

AllLater-append : (rs new : List Row) → AllLater rs (rs ++ new)
AllLater-append [] new = tt
AllLater-append (r ∷ rs) new = (IsLater-refl r, AllLater-append rs new)

AllLater-modify_where :
    (p : Row → Bool) (f : Row → Row) (rs : List Row)
    → ((r : Row) → p r ≡ true → IsLater r (f r))
    → AllLater rs (modify_where p f rs)
AllLater-modify_where p f [] k = tt
AllLater-modify_where p f (r ∷ rs) k = elim (Bool-cases (p r)) [
  | inl hit ↦ rw hit (k r hit, AllLater-modify_where p f rs k)
  | inr miss ↦ rw miss (IsLater-refl r, AllLater-modify_where p f rs k)
]

quarantine-IsLater :
    (now : ℕ) (id tenant environment : String) (r : Row)
    → awaits_upload id tenant environment r ≡ true
    → IsLater r (quarantine now r)
unfolding awaits_upload
quarantine-IsLater now id tenant environment r h = (refl, ground arith, omega arith)

conclude_scan-IsLater :
    (now : ℕ) (id tenant environment : String) (scan : ScanStatus) (r : Row)
    → IsOutcome scan
    → awaits_scan id tenant environment r ≡ true
    → IsLater r (conclude_scan now scan (status_after scan) r)
unfolding awaits_scan
conclude_scan-IsLater now id tenant environment scan r k h = (refl, ground arith, omega arith)

lease-IsLater : (now : ℕ) (r : Row) → IsLater r (lease now r)
lease-IsLater now r = (refl, inl refl, omega arith)

renew-IsLater : (now : ℕ) (new r : Row) → IsLater r (renew now new r)
renew-IsLater now new r = (refl, inl refl, omega arith)

Change-AllLater : {t u : Tables} → Change t u → AllLater t.rows u.rows
Change-AllLater {t} {u} (inserted now new r _ h) = elim (insert_row-cases now new r t u h) [
  | inl a ↦ rw a.rows (AllLater-append t.rows _)
  | inr m ↦ rw m.rows (AllLater-modify_where _ _ t.rows (λ x _. renew-IsLater now new x))
]
Change-AllLater {t} {u} (is_uploaded now id tenant environment r h) =
    rw (IsUpdated.rows (update_row-IsUpdated _ _ r t u h))
      (AllLater-modify_where _ _ t.rows (quarantine-IsLater now id tenant environment))
Change-AllLater {t} {u} (concluded now id tenant environment scan r k h) =
    rw (IsUpdated.rows (update_row-IsUpdated _ _ r t u h)) (
      AllLater-modify_where _ _ t.rows
        (λ x. conclude_scan-IsLater now id tenant environment scan x k))
Change-AllLater {t} {u} (leased now r h) =
    rw (IsLeased.rows (lease_next-IsLeased now r t u h))
      (AllLater-modify_where _ _ t.rows (λ x _. lease-IsLater now x))
Change-AllLater {t} {u} (audited p e h) =
    rw (append_event-Extends p e t u h).0 (AllLater-refl t.rows)

Extends-refl : {A : Type 0} (xs : List A) → Extends xs xs
Extends-refl xs = ([], sym (append-nil xs))

Extends-trans : {A : Type 0} (xs ys zs : List A) → Extends xs ys → Extends ys zs → Extends xs zs
Extends-trans xs ys zs (more, h) (last, k) =
    (more ++ last, k ∙ ap (λ l. l ++ last) h ∙ append_assoc xs more last)

Change-Extends : {t u : Tables} → Change t u → Extends t.audit u.audit
Change-Extends {t} {u} (inserted now new r _ h) = elim (insert_row-cases now new r t u h) [
  | inl a ↦ rw a.audit (Extends-refl t.audit)
  | inr m ↦ rw m.audit (Extends-refl t.audit)
]
Change-Extends {t} {u} (is_uploaded now id tenant environment r h) =
    rw (IsUpdated.audit (update_row-IsUpdated _ _ r t u h)) (Extends-refl t.audit)
Change-Extends {t} {u} (concluded now id tenant environment scan r k h) =
    rw (IsUpdated.audit (update_row-IsUpdated _ _ r t u h)) (Extends-refl t.audit)
Change-Extends {t} {u} (leased now r h) =
    rw (IsLeased.audit (lease_next-IsLeased now r t u h)) (Extends-refl t.audit)
Change-Extends {t} {u} (audited p e h) = (_, (append_event-Extends p e t u h).1)

-- Through any sequence of statements every row keeps its place and its identity, its status stays
-- or moves to a later stage (pending_upload, then quarantined, then available or rejected for
-- good), its count of scans does not fall, and the audit trail keeps every event it had.
pub Changes-AllLater :
    {t u : Tables} → Changes t u → AllLater t.rows u.rows × Extends t.audit u.audit
Changes-AllLater {t} unchanged = (AllLater-refl t.rows, Extends-refl t.audit)
Changes-AllLater {t} {u} (then_change {u = m} c step) =
    let (rows, audit) = Changes-AllLater c in
    (
      AllLater-trans t.rows m.rows u.rows rows (Change-AllLater step),
      Extends-trans t.audit m.audit u.audit audit (Change-Extends step),
    )
