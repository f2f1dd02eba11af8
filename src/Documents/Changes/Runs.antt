-- ===== src/Documents/Changes/Runs.antt =====
-- Actions that run by changes of the tables: one rule for each way to build an action.
use file_storage_bucket.Common.{
  ℕ, Bool, true, false, ◌≡◌, refl, Bool-cases, inl, inr, if◌then◌else◌,
}
use file_storage_bucket.Documents.Types.{Error, Result, ok, err, Database}
use file_storage_bucket.Documents.Tables.{Tables}
use file_storage_bucket.Documents.Exec.{
  World, Action, pure, raise, raise_if, or_raise, call, attempt, continue, settle, finish,
  statement, transaction, ◌>>=◌,
}
use file_storage_bucket.Documents.Changes.{Changes, unchanged, Changes-trans}

pub record Runs {A : Type 0} (m : Action A) : Type 0 where
  pub at : (w : World) → Changes w.tables (m w).1.tables

module _ {A : Type 0} where
  pub Runs-pure : (a : A) → Runs (pure a)
  Runs-pure a = record { at = λ w. unchanged }

  pub Runs-raise : (e : Error) → Runs (raise {A = A} e)
  Runs-raise e = record { at = λ w. unchanged }

  -- a step that computes from values alone
  pub Runs-value : (r : Result A) → Runs (λ w. (r, w))
  Runs-value r = record { at = λ w. unchanged }

  pub Runs-call : (f : ℕ → Result A) → Runs (call f)
  Runs-call f = record { at = λ w. unchanged }

  pub Runs-attempt : (m : Action A) → Runs m → Runs (attempt m)
  Runs-attempt m k = record { at = k.at }

  pub Runs-if : (b : Bool) (m n : Action A) → Runs m → Runs n → Runs (if b then m else n)
  Runs-if true m n k l = k
  Runs-if false m n k l = l

  Runs-settle :
      (r : Result (A × Tables)) (w : World)
      → ((a : A) (t : Tables) → r ≡ ok (a, t) → Changes w.tables t)
      → Changes w.tables (settle r w).1.tables
  Runs-settle (err e) w k = unchanged
  Runs-settle (ok (a, t)) w k = k a t refl

  pub Runs-statement :
      (db : Database) (f : ℕ → Tables → Result (A × Tables))
      → ((now : ℕ) (t : Tables) (a : A) (u : Tables) → f now t ≡ ok (a, u) → Changes t u)
      → Runs (statement db f)
  unfolding statement
  Runs-statement db f k = record {
    at = λ w. elim (Bool-cases (db.fails w.calls)) [
      | inl fails ↦ rw fails unchanged
      | inr works ↦ rw works (Runs-settle _ w (k _ w.tables))
    ];
  }

  Runs-finish :
      (db : Database) (t : Tables) (r : Result A) (w : World)
      → Changes t w.tables
      → Changes t (finish db t r w).1.tables
  Runs-finish db t (err e) w c = unchanged
  Runs-finish db t (ok a) w c = elim (Bool-cases (db.fails w.calls)) [
    | inl fails ↦ rw fails (elim (Bool-cases (db.keeps w.calls)) [
      | inl kept ↦ rw kept c
      | inr undone ↦ rw undone unchanged
    ])
    | inr works ↦ rw works c
  ]

  pub Runs-transaction : (db : Database) (m : Action A) → Runs m → Runs (transaction db m)
  unfolding transaction
  Runs-transaction db m k = record {
    at = λ w. elim (Bool-cases (db.fails w.calls)) [
      | inl fails ↦ rw fails unchanged
      | inr works ↦ rw works (Runs-finish db w.tables _ _ (k.at _))
    ];
  }

pub Runs-raise_if : (b : Bool) (e : Error) → Runs (raise_if b e)
Runs-raise_if b e = record { at = λ w. unchanged }

module _ {A B : Type 0} where
  Runs-continue :
      (t : Tables) (r : Result A) (f : A → Action B) (w : World)
      → Changes t w.tables
      → ((a : A) → Runs (f a))
      → Changes t (continue r f w).1.tables
  Runs-continue t (ok a) f w c k = Changes-trans c ((k a).at w)
  Runs-continue t (err e) f w c k = c

  pub Runs-bind :
      (m : Action A) (f : A → Action B) → Runs m → ((a : A) → Runs (f a)) → Runs (m >>= f)
  unfolding ◌>>=◌
  Runs-bind m f k l = record { at = λ w. Runs-continue w.tables _ f _ (k.at w) l }

pub Runs-or_raise : (e : Error) (r : Result (Unit {0})) → Runs (or_raise e r)
unfolding or_raise
Runs-or_raise e (ok _) = Runs-pure tt
Runs-or_raise e (err _) = Runs-raise e

pub ruleset runs_rules = (
  Runs-pure, Runs-raise, Runs-value, Runs-call, Runs-attempt, Runs-if, Runs-transaction,
  Runs-raise_if, Runs-bind, Runs-or_raise,
)
