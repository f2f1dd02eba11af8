-- ===== src/Documents/Exec.antt =====
-- A method of the service as an action: it returns a value or an error, and the world that it
-- leaves. What a statement wrote stays written after a later error, unless a transaction ends.

pub mod Inversion
use file_storage_bucket.Common.{ℕ, suc, Option, none, some, Bool, if◌then◌else◌}
use file_storage_bucket.Documents.Types.{Error, Result, ok, err, failure, Database}
use file_storage_bucket.Documents.Tables.{Tables}

-- `calls` counts the calls of the database and of the other services so far; `began` is the time
-- at which the open transaction began, if there is one, since now() does not move within it.
pub record World : Type 0 where
  pub tables : Tables
  pub calls : ℕ
  pub began : Option ℕ

abbrev pub Action : Type 0 → Type 0
Action A = World → Result A × World

abbrev pub tick : World → World
tick w = record w { calls = suc w.calls }

-- now() of a statement
abbrev pub now_at : Database → World → ℕ
now_at db w = elim w.began [ none ↦ db.clock w.calls | some t ↦ t ]

module _ {A : Type 0} where
  abbrev pub pure : A → Action A
  pure a w = (ok a, w)

  abbrev pub raise : Error → Action A
  raise e w = (err e, w)

  -- a call of another service, whose answer may depend on the time
  abbrev pub call : (ℕ → Result A) → Action A
  call f w = (f w.calls, tick w)

  -- the result of an action as a value, for a caller that looks at the error
  abbrev pub attempt : Action A → Action (Result A)
  attempt m w = let (r, w') = m w in (ok r, w')

  abbrev pub settle : Result (A × Tables) → World → Result A × World
  settle (err e) w = (err e, tick w)
  settle (ok (a, t)) w = (ok a, record w { tables = t; calls = suc w.calls })

  -- one statement, at the time of the call
  unfoldable pub statement : Database → (ℕ → Tables → Result (A × Tables)) → Action A
  statement db f w =
      if db.fails w.calls then (err failure, tick w) else settle (f (now_at db w) w.tables) w

  -- Commit, or Rollback after an error. A Commit that fails may have taken effect, as `keeps` says.
  abbrev pub finish : Database → Tables → Result A → World → Result A × World
  finish db before (err e) w = (err e, record w { tables = before; began = none })
  finish db before (ok a) w =
      if db.fails w.calls
      then (
        err failure,
        record {
          tables = if db.keeps w.calls then w.tables else before;
          calls = suc w.calls;
          began = none;
        },
      )
      else (ok a, record w { calls = suc w.calls; began = none })

  -- Begin, the body, and the end
  unfoldable pub transaction : Database → Action A → Action A
  transaction db m w =
      if db.fails w.calls
      then (err failure, tick w)
      else let (r, w') = m (record w { calls = suc w.calls; began = some (db.clock w.calls) }) in
        finish db w.tables r w'

module _ {A B : Type 0} where
  abbrev pub continue : Result A → (A → Action B) → Action B
  continue (ok a) f w = f a w
  continue (err e) f w = (err e, w)

  infixl 5 ◌>>=◌ ◌>>◌
  unfoldable pub ◌>>=◌ : Action A → (A → Action B) → Action B
  ◌>>=◌ m f w = let (r, w') = m w in continue r f w'

  abbrev pub ◌>>◌ : Action A → Action B → Action B
  m >> n = m >>= λ _. n

abbrev pub raise_if : Bool → Error → Action (Unit {0})
raise_if b e w = (if b then err e else ok tt, w)

-- an error of any kind, reported as `e`
unfoldable pub or_raise : Error → Result (Unit {0}) → Action (Unit {0})
or_raise e (ok _) = pure tt
or_raise e (err _) = raise e
