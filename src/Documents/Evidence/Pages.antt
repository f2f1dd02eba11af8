-- ===== src/Documents/Evidence/Pages.antt =====
-- CaseUploads: that following its order loses no document.
use file_storage_bucket.Common.{
  ℕ, suc, String, Bool, true, List, [], ◌∷◌, length, take, map, select, ◌≡◌, inl, inr, refl, ap,
  subst, arith, In,
}
use file_storage_bucket.Documents.Types.{Scope, Document, Service}
use file_storage_bucket.Documents.Tables.{Row, Tables}
use file_storage_bucket.Documents.Access.{scanned}
use file_storage_bucket.Documents.Evidence.{is_case_row, is_listed}

-- every row of the case after `after` is one that the scope may see
unfoldable pub AllListed : Service → Scope → (application party after : String) → Tables → Type 0
AllListed s sc application party after t =
    (r : Row)
    → In r t.rows
    → is_case_row s sc application party after r ≡ true
    → is_listed sc application (scanned r) ≡ true

pub select-In :
    (p : Row → Bool) (rs : List Row) (r : Row) → In r rs → p r ≡ true → In r (select p rs)
select-In p [] r i h = absurd i
select-In p (x ∷ rs) r (inl e) h =
    let k : p x ≡ true = subst (λ y. p y ≡ true) e h in rw (In, k) (inl e)
select-In p (x ∷ rs) r (inr i) h = ground (arith, select-In p rs r i)

pub select_all :
    (p : Document → Bool) (rs : List Row)
    → ((r : Row) → In r rs → p (scanned r) ≡ true)
    → select p (map scanned rs) ≡ map scanned rs
select_all p [] h = refl
select_all p (r ∷ rs) h =
    rw (h r (inl refl)) (ap (λ xs. scanned r ∷ xs) (select_all p rs (λ x i. h x (inr i))))

pub take-take : (n : ℕ) (rs : List Row) → take n (take (suc n) rs) ≡ take n rs
take-take Prim.Native.Nat.zero rs = refl
take-take (suc n) [] = refl
take-take (suc n) (r ∷ rs) = ap (λ xs. r ∷ xs) (take-take n rs)

pub take-map : (n : ℕ) (rs : List Row) → take n (map scanned rs) ≡ map scanned (take n rs)
take-map Prim.Native.Nat.zero rs = refl
take-map (suc n) [] = refl
take-map (suc n) (r ∷ rs) = ap (λ xs. scanned r ∷ xs) (take-map n rs)

pub length-map : (rs : List Row) → length (map scanned rs) ≡ length rs
length-map [] = refl
length-map (r ∷ rs) = ap suc (length-map rs)

pub In-map : (rs : List Row) (r : Row) → In r rs → In (scanned r) (map scanned rs)
In-map [] r i = absurd i
In-map (x ∷ rs) r (inl e) = inl (ap scanned e)
In-map (x ∷ rs) r (inr i) = inr (In-map rs r i)
