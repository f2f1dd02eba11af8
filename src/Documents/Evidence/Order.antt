-- ===== src/Documents/Evidence/Order.antt =====
-- ORDER BY public_id LIMIT n: which rows a page has, and which come after it.
use file_storage_bucket.Common.{
  ℕ, zero, suc, ◌<◌, String, Bool, true, false, List, [], ◌∷◌, length, take, ◌≡◌, ◌≢◌, ◌⊎◌, inl,
  inr, arith, In, All, All-In, Bool-cases,
}
use file_storage_bucket.Documents.Tables.{Row}
use file_storage_bucket.Documents.Evidence.{insert_by_id, sort_by_id}

-- a strict linear order, as the collation of a database gives one
pub record IsOrder (before : String → String → Bool) : Type 0 where
  pub asymmetric : (a b : String) → before a b ≡ true → before b a ≡ false
  pub total : (a b : String) → a ≢ b → before b a ≡ false → before a b ≡ true
  pub transitive : (a b c : String) → before b a ≡ false → before c b ≡ false → before c a ≡ false
  pub least : (a : String) → before a "" ≡ false

module _ (before : String → String → Bool) where
  -- no row of the list comes before `r`
  abbrev pub IsFirst : Row → List Row → Type 0
  IsFirst r rs = All (λ x. before x.public_id r.public_id ≡ false) rs

  abbrev pub IsSorted : List Row → Type 0
  IsSorted [] = Unit
  IsSorted (r ∷ rs) = IsFirst r rs × IsSorted rs

  In-inserted : (r x : Row) (rs : List Row) → (x ≡ r) ⊎ In x rs → In x (insert_by_id before r rs)
  unfolding insert_by_id
  In-inserted r x [] i = i
  In-inserted r x (y ∷ ys) i = elim (Bool-cases (before r.public_id y.public_id)) [
    | inl first ↦ ground arith
    | inr later ↦ ground (arith, In-inserted r x ys)
  ]

  -- sorting loses no row
  pub sort_by_id-In : (rs : List Row) (x : Row) → In x rs → In x (sort_by_id before rs)
  unfolding sort_by_id
  sort_by_id-In [] x i = absurd i
  sort_by_id-In (r ∷ rs) x (inl e) = In-inserted r x (sort_by_id before rs) (inl e)
  sort_by_id-In (r ∷ rs) x (inr i) =
      In-inserted r x (sort_by_id before rs) (inr (sort_by_id-In rs x i))

  module _ (o : IsOrder before) where
    IsFirst-after :
        (a b : Row) (rs : List Row)
        → before b.public_id a.public_id ≡ false
        → IsFirst b rs
        → IsFirst a rs
    IsFirst-after a b [] h k = tt
    IsFirst-after a b (r ∷ rs) h (here, later) =
        (o.transitive a.public_id b.public_id r.public_id h here, IsFirst-after a b rs h later)

    IsFirst-inserted :
        (a r : Row) (rs : List Row)
        → before r.public_id a.public_id ≡ false
        → IsFirst a rs
        → IsFirst a (insert_by_id before r rs)
    unfolding insert_by_id
    IsFirst-inserted a r [] h k = (h, tt)
    IsFirst-inserted a r (y ∷ ys) h (here, later) =
        elim (Bool-cases (before r.public_id y.public_id)) [
          | inl first ↦ rw first (h, (here, later))
          | inr after ↦ rw after (here, IsFirst-inserted a r ys h later)
        ]

    insert_by_id-IsSorted :
        (r : Row) (rs : List Row) → IsSorted rs → IsSorted (insert_by_id before r rs)
    unfolding insert_by_id
    insert_by_id-IsSorted r [] k = (tt, tt)
    insert_by_id-IsSorted r (y ∷ ys) (first, later) =
        elim (Bool-cases (before r.public_id y.public_id)) [
          | inl is_before ↦
              let below = o.asymmetric r.public_id y.public_id is_before in
              rw is_before ((below, IsFirst-after r y ys below first), (first, later))
          | inr is_after ↦
              rw is_after (IsFirst-inserted y r ys is_after first, insert_by_id-IsSorted r ys later)
        ]

    pub sort_by_id-IsSorted : (rs : List Row) → IsSorted (sort_by_id before rs)
    unfolding sort_by_id
    sort_by_id-IsSorted [] = tt
    sort_by_id-IsSorted (r ∷ rs) =
        insert_by_id-IsSorted r (sort_by_id before rs) (sort_by_id-IsSorted rs)

    -- a row of a sorted list is among the first `n`, or none of them comes after it
    pub take-sorted :
        (n : ℕ) (rs : List Row) (x : Row)
        → IsSorted rs
        → In x rs
        → In x (take n rs)
          ⊎ ((n < length rs) × All (λ y. before x.public_id y.public_id ≡ false) (take n rs))
    take-sorted zero [] x k i = absurd i
    take-sorted (suc n) [] x k i = absurd i
    take-sorted zero (r ∷ rs) x k i = inr (omega arith, tt)
    take-sorted (suc n) (r ∷ rs) x k (inl e) = inl (inl e)
    take-sorted (suc n) (r ∷ rs) x (first, later) (inr i) = elim (take-sorted n rs x later i) [
      | inl j ↦ inl (inr j)
      | inr (short, below) ↦
          inr (
            omega arith,
            (All-In (λ y. before y.public_id r.public_id ≡ false) rs x first i, below),
          )
    ]
