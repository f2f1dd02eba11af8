-- ===== src/Documents/Exec/Inversion.antt =====
-- What has happened where an action returned a value.
use file_storage_bucket.Common.{
  some, ℕ, suc, Bool, true, false, ◌≡◌, refl, Bool-cases, inl, inr, arith, if◌then◌else◌,
}
use file_storage_bucket.Documents.Types.{Error, Result, ok, err, Database}
use file_storage_bucket.Documents.Tables.{Tables}
use file_storage_bucket.Documents.Exec.{
  World, Action, tick, call, pure, raise_if, continue, settle, now_at, finish, attempt, or_raise,
  statement, transaction, ◌>>=◌, ◌>>◌,
}

module _ {A B : Type 0} where
  continue-eq-ok :
      (r : Result A) (f : A → Action B) (w w' : World) (b : B)
      → continue r f w ≡ (ok b, w')
      → (a : A) × (r ≡ ok a) × (f a w ≡ (ok b, w'))
  continue-eq-ok (ok a) f w w' b h = (a, refl, h)
  continue-eq-ok (err e) f w w' b h = cc

  -- each step of a block that returned has returned
  pub >>=-eq-ok :
      (m : Action A) (f : A → Action B) (w w' : World) (b : B)
      → (m >>= f) w ≡ (ok b, w')
      → (a : A) × (v : World) × (m w ≡ (ok a, v)) × (f a v ≡ (ok b, w'))
  unfolding ◌>>=◌
  >>=-eq-ok m f w w' b h =
      let (a, returned, rest) = continue-eq-ok (m w).0 f (m w).1 w' b h in
      (a, (m w).1, ground arith, rest)

module _ {A : Type 0} where
  settle-eq-ok :
      (r : Result (A × Tables)) (w w' : World) (a : A)
      → settle r w ≡ (ok a, w')
      → (r ≡ ok (a, w'.tables)) × (w' ≡ record w { tables = w'.tables; calls = suc w.calls })
  settle-eq-ok (err e) w w' a h = cc
  settle-eq-ok (ok (b, t)) w w' a h = ground arith

  -- a statement that returned took effect on the tables alone
  pub statement-eq-ok :
      (db : Database) (f : ℕ → Tables → Result (A × Tables)) (w w' : World) (a : A)
      → statement db f w ≡ (ok a, w')
      → (f (now_at db w) w.tables ≡ ok (a, w'.tables))
        × (w' ≡ record w { tables = w'.tables; calls = suc w.calls })
  unfolding statement
  statement-eq-ok db f w w' a h = elim (Bool-cases (db.fails w.calls)) [
    | inl fails ↦ absurd (ground arith)
    | inr works ↦ settle-eq-ok _ w w' a (rw (works, if◌then◌else◌) at h)
  ]

pub raise_if-eq-ok :
    (b : Bool) (e : Error) (w w' : World) (u : Unit {0})
    → raise_if b e w ≡ (ok u, w')
    → (b ≡ false) × (w' ≡ w)
raise_if-eq-ok b e w w' u h = ground arith

module _ {A : Type 0} where
  -- a guard that let the rest of the block return did not hold
  pub guard_then :
      (b : Bool) (e : Error) (m : Action A) (w w' : World) (a : A)
      → (raise_if b e >> m) w ≡ (ok a, w')
      → (b ≡ false) × (m w ≡ (ok a, w'))
  unfolding ◌>>=◌
  guard_then true e m w w' a h = cc
  guard_then false e m w w' a h = (refl, h)

module _ {A : Type 0} where
  or_raise_then :
      (r : Result (Unit {0})) (e : Error) (m : Action A) (w w' : World) (a : A)
      → (or_raise e r >> m) w ≡ (ok a, w')
      → (r ≡ ok tt) × (m w ≡ (ok a, w'))
  unfolding ◌>>=◌ or_raise
  or_raise_then (ok u) e m w w' a h = (refl, h)
  or_raise_then (err x) e m w w' a h = cc

  -- a call whose error is replaced by another one
  pub checked_then :
      (g : ℕ → Result (Unit {0})) (e : Error) (m : Action A) (w w' : World) (a : A)
      → (attempt (call g) >>= λ r. or_raise e r >> m) w ≡ (ok a, w')
      → (g w.calls ≡ ok tt) × (m (tick w) ≡ (ok a, w'))
  unfolding ◌>>=◌
  checked_then g e m w w' a h = or_raise_then (g w.calls) e m (tick w) w' a h

module _ {A B : Type 0} where
  call_then_result :
      (r : Result A) (f : A → Action B) (w w' : World) (b : B)
      → continue r f (tick w) ≡ (ok b, w')
      → (a : A) × (r ≡ ok a) × (f a (tick w) ≡ (ok b, w'))
  call_then_result (ok a) f w w' b h = (a, refl, h)
  call_then_result (err e) f w w' b h = cc

  pub call_then :
      (g : ℕ → Result A) (f : A → Action B) (w w' : World) (b : B)
      → (call g >>= f) w ≡ (ok b, w')
      → (a : A) × (g w.calls ≡ ok a) × (f a (tick w) ≡ (ok b, w'))
  unfolding ◌>>=◌
  call_then g f w w' b h = call_then_result (g w.calls) f w w' b h

  -- the last action of a block, before its value
  pub then_pure :
      (m : Action A) (b c : B) (w w' : World)
      → (m >> pure b) w ≡ (ok c, w')
      → (c ≡ b) × ((a : A) × (m w ≡ (ok a, w')))
  then_pure m b c w w' h =
      let (a, v, ran, done) = >>=-eq-ok m (λ _. pure b) w w' c h in (cc, (a, cc))

-- the world in which the body of a transaction starts
abbrev pub begun : Database → World → World
begun db w = record { tables = w.tables; calls = suc w.calls; began = some (db.clock w.calls) }

module _ {A : Type 0} where
  finish-eq-ok :
      (db : Database) (t : Tables) (r : Result A) (v w' : World) (a : A)
      → finish db t r v ≡ (ok a, w')
      → (r ≡ ok a) × (w'.tables ≡ v.tables)
  finish-eq-ok db t (err e) v w' a h = cc
  finish-eq-ok db t (ok b) v w' a h = elim (Bool-cases (db.fails v.calls)) [
    | inl fails ↦ absurd (ground arith)
    | inr works ↦ ground arith
  ]

  -- a transaction that returned left what its body left
  pub transaction-eq-ok :
      (db : Database) (m : Action A) (w w' : World) (a : A)
      → transaction db m w ≡ (ok a, w')
      → (v : World) × (m (begun db w) ≡ (ok a, v)) × (w'.tables ≡ v.tables)
  unfolding transaction
  transaction-eq-ok db m w w' a h = elim (Bool-cases (db.fails w.calls)) [
    | inl fails ↦ absurd (ground arith)
    | inr works ↦
        let (returned, same) =
          finish-eq-ok db w.tables (m (begun db w)).0 (m (begun db w)).1 w' a
            (rw (works, if◌then◌else◌) at h) in
        ((m (begun db w)).1, cc, same)
  ]
