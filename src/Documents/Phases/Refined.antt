-- ===== src/Documents/Phases/Refined.antt =====
-- The statements as steps of the abstract machine.
use file_storage_bucket.Common.{
  ℕ, suc, ◌+◌, ◌<◌, String, List, [], ◌∷◌, ◌++◌, Bool, true, ◌≡◌, ◌⊎◌, inl, inr, refl, sym, subst,
  arith, In, All, All-In, modify_where, Bool-cases, ◌==◌,
}
use file_storage_bucket.Documents.Types.{
  pending_upload, quarantined, ScanStatus, pending, scanning, failed,
}
use file_storage_bucket.Documents.Tables.{
  Row, Tables, renew, quarantine, conclude_scan, lease, awaits_upload, awaits_scan, is_candidate,
}
use file_storage_bucket.Documents.Upload.{status_after}
use file_storage_bucket.Documents.Changes.{
  Change, Changes, IsNew, IsOutcome, inserted, uploaded as is_uploaded, concluded, leased, audited,
  unchanged, then_change,
}
use file_storage_bucket.Documents.Lifecycle.{IsSound, IsConsistent}
use file_storage_bucket.Documents.Lifecycle.Inversion.{
  IsUpdated, insert_row-cases, update_row-IsUpdated, lease_next-IsLeased, append_event-Extends,
}
use file_storage_bucket.Documents.Lifecycle.Sound.{In-unique, Changes-IsConsistent}
use file_storage_bucket.Documents.Phases.{
  held, IsOpen, queued_open, held_open, retrying_open, arrived, taken, scanned_clean,
  scanned_infected, scan_failed, Reaches, stays, then_step, Reaches-trans, phase_of, progress,
  initial, Refines,
}

abbrev Moves : Row → Row → Type 0
Moves r r' = Reaches (progress r) (progress r')

Refines-trans : (xs ys zs : List Row) → Refines xs ys → Refines ys zs → Refines xs zs
unfolding Refines
Refines-trans [] [] zs h k = k
Refines-trans [] (y ∷ ys) [] h k = absurd k
Refines-trans [] (y ∷ ys) (z ∷ zs) (h, hs) (k, ks) =
    (Reaches-trans h k, Refines-trans [] ys zs hs ks)
Refines-trans (x ∷ xs) [] zs h k = absurd h
Refines-trans (x ∷ xs) (y ∷ ys) [] h k = absurd k
Refines-trans (x ∷ xs) (y ∷ ys) (z ∷ zs) (h, hs) (k, ks) =
    (Reaches-trans h k, Refines-trans xs ys zs hs ks)

Refines-append :
    (rs new : List Row) → All (λ r. Reaches initial (progress r)) new → Refines rs (rs ++ new)
unfolding Refines
Refines-append [] new k = k
Refines-append (r ∷ rs) new k = (stays, Refines-append rs new k)

Refines-refl : (rs : List Row) → Refines rs rs
unfolding Refines
Refines-refl [] = tt
Refines-refl (r ∷ rs) = (stays, Refines-refl rs)

Refines-modify_where :
    (p : Row → Bool) (f : Row → Row) (rs : List Row)
    → ((r : Row) → In r rs → p r ≡ true → Moves r (f r))
    → Refines rs (modify_where p f rs)
unfolding Refines
Refines-modify_where p f [] k = tt
Refines-modify_where p f (r ∷ rs) k = elim (Bool-cases (p r)) [
  | inl hit ↦ rw hit (k r (inl refl) hit, Refines-modify_where p f rs (λ x i. k x (inr i)))
  | inr miss ↦ rw miss (stays, Refines-modify_where p f rs (λ x i. k x (inr i)))
]

new_row-Reaches : (now : ℕ) (r : Row) → IsNew now r → Reaches initial (progress r)
unfolding progress phase_of
new_row-Reaches now r (status, scan, attempts, _, _, _) = rw (status, attempts) stays

quarantine-Moves :
    (now : ℕ) (id tenant environment : String) (r : Row)
    → IsSound r
    → awaits_upload id tenant environment r ≡ true
    → Moves r (quarantine now r)
unfolding awaits_upload progress phase_of
quarantine-Moves now id tenant environment r k h =
    let was : r.status ≡ pending_upload = ground arith in
    let (scan, attempts, _) = k.untouched was in rw (was, scan, attempts) (then_step stays arrived)

-- a quarantined row whose scan is open
phase_of-IsOpen :
    (scan : ScanStatus)
    → (scan ≡ pending) ⊎ (scan ≡ scanning) ⊎ (scan ≡ failed)
    → IsOpen (phase_of quarantined scan)
unfolding phase_of
phase_of-IsOpen scan (inl e) = rw e queued_open
phase_of-IsOpen scan (inr (inl e)) = rw e held_open
phase_of-IsOpen scan (inr (inr e)) = rw e retrying_open

conclude_scan-Moves :
    (now : ℕ) (id tenant environment : String) (scan : ScanStatus) (r : Row)
    → IsOutcome scan
    → awaits_scan id tenant environment r ≡ true
    → Moves r (conclude_scan now scan (status_after scan) r)
unfolding awaits_scan progress phase_of
conclude_scan-Moves now id tenant environment scan r k h =
    let was : r.status ≡ quarantined = ground arith in
    let open_scan : (r.scan_status ≡ pending)
        ⊎ (r.scan_status ≡ scanning)
        ⊎ (r.scan_status ≡ failed) =
      ground arith in
    let is_open =
      subst (λ st. IsOpen (phase_of st r.scan_status)) (sym was)
        (phase_of-IsOpen r.scan_status open_scan) in
    elim k [
      | inl e ↦ rw e (then_step stays (scanned_clean is_open))
      | inr (inl e) ↦ rw e (then_step stays (scanned_infected is_open))
      | inr (inr e) ↦ rw e (then_step stays (scan_failed is_open))
    ]

lease-Moves : (now : ℕ) (r : Row) → is_candidate now r ≡ true → Moves r (lease now r)
unfolding is_candidate progress phase_of
lease-Moves now r h =
    let was : r.status ≡ quarantined = ground arith in
    let open_scan : (r.scan_status ≡ pending)
        ⊎ (r.scan_status ≡ scanning)
        ⊎ (r.scan_status ≡ failed) =
      ground arith in
    let few : r.scan_attempts < 5 = ground arith in
    let is_open =
      subst (λ st. IsOpen (phase_of st r.scan_status)) (sym was)
        (phase_of-IsOpen r.scan_status open_scan) in
    subst
      (λ st.
        Reaches (progress r) (record { phase = phase_of st scanning; scans = r.scan_attempts + 1 }))
      (sym was)
      (subst (λ n. Reaches (progress r) (record { phase = held; scans = n }))
        (let one : suc r.scan_attempts ≡ r.scan_attempts + 1 = omega arith in one)
        (then_step stays (taken is_open few)))

same_row :
    (t : Tables) (c : IsConsistent t) (old x : Row)
    → In old t.rows
    → In x t.rows
    → (x.public_id == old.public_id) ≡ true
    → x ≡ old
same_row t c old x i j same = In-unique t.rows x old c.unique j i (ground arith)

Change-Refines : {t u : Tables} → Change t u → IsConsistent t → Refines t.rows u.rows
unfolding progress
Change-Refines {t} {u} (inserted now new r n h) c = elim (insert_row-cases now new r t u h) [
  | inl a ↦ rw a.rows (Refines-append t.rows (new ∷ []) (new_row-Reaches now new n, tt))
  | inr m ↦ rw m.rows (
      Refines-modify_where (λ x. x.public_id == m.old.public_id) (renew now new) t.rows
        (λ x i hit. stays))
]
Change-Refines {t} {u} (is_uploaded now id tenant environment r h) c =
    rw (IsUpdated.rows (update_row-IsUpdated _ _ r t u h)) (
      Refines-modify_where _ _ t.rows
        (λ x i. quarantine-Moves now id tenant environment x (All-In IsSound t.rows x c.sound i)))
Change-Refines {t} {u} (concluded now id tenant environment scan r k h) c =
    rw (IsUpdated.rows (update_row-IsUpdated _ _ r t u h)) (
      Refines-modify_where _ _ t.rows
        (λ x i. conclude_scan-Moves now id tenant environment scan x k))
Change-Refines {t} {u} (leased now r h) c =
    let l = lease_next-IsLeased now r t u h in
    rw l.rows (
      Refines-modify_where (λ x. x.public_id == l.old.public_id) (lease now) t.rows
        (λ x i same. lease-Moves now x (
          subst (λ y. is_candidate now y ≡ true) (sym (same_row t c l.old x l.matched.1 i same))
            l.matched.0)))
Change-Refines {t} {u} (audited p e h) c =
    rw (append_event-Extends p e t u h).0 (Refines-refl t.rows)

-- From consistent tables, any sequence of statements moves every document by steps of the abstract
-- machine, and starts new documents in its initial state: a document is queued once its upload has
-- arrived, a scan is begun at most five times, and only a scan of a queued, held or retrying document
-- releases or refuses it.
pub Changes-Refines : {t u : Tables} → Changes t u → IsConsistent t → Refines t.rows u.rows
Changes-Refines {t} unchanged c = Refines-refl t.rows
Changes-Refines {t} {u} (then_change {u = m} cs step) c =
    Refines-trans t.rows m.rows u.rows (Changes-Refines cs c)
      (Change-Refines step (Changes-IsConsistent cs c))
