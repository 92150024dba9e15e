-- ===== src/Modulekit/Transactions.antt =====
-- A store whose calls may fail, and its transactions (pkg/modulekit/storage.go).
use sannad.Prelude.{String, Bool, true, false, List, [], ◌∷◌}

-- The errors of the package, by what `errors.Is` sees; `handler` is an error of the caller's code.
pub data Error : Type 0 where
  storage not_found duplicate : Error
  duplicate_event invalid_idempotency_key stale_projection projection_not_sequenced : Error
  handler : String → Error

pub data Result {ℓ} (A : Type ℓ) : Type ℓ where
  ok : A → Result A
  err : Error → Result A

-- `faults` says of each call of the store to come whether it fails; with none left, none fails.
pub record Store (T : Type 0) : Type 0 where
  pub tables : T
  pub faults : List Bool

abbrev pub Exec : Type 0 → Type 0 → Type 0
Exec T A = Store T → Result A × Store T

module _ {T : Type 0} where
  abbrev pub pure : {A : Type 0} → A → Exec T A
  pure a s = (ok a, s)

  abbrev pub raise : {A : Type 0} → Error → Exec T A
  raise e s = (err e, s)

  abbrev pub proceed : {A B : Type 0} → (A → Exec T B) → Result A × Store T → Result B × Store T
  proceed f (ok a, s) = f a s
  proceed f (err e, s) = (err e, s)

infixl 5 ◌>>=◌ ◌>>◌
abbrev pub ◌>>=◌ : {T A B : Type 0} → Exec T A → (A → Exec T B) → Exec T B
◌>>=◌ m f s = proceed f (m s)

abbrev pub ◌>>◌ : {T B : Type 0} → Exec T (Unit {0}) → Exec T B → Exec T B
m >> k = m >>= λ _. k

module _ {T : Type 0} where
  abbrev pub meet : {A : Type 0} → Exec T A → List Bool → Store T → Result A × Store T
  meet m [] s = m s
  meet m (false ∷ fs) s = m (record s { faults = fs })
  meet m (true ∷ fs) s = (err storage, record s { faults = fs })

  -- A call of the store, which may fail before it takes effect.
  unfoldable pub stored : {A : Type 0} → Exec T A → Exec T A
  stored m s = meet m s.faults s

  -- An error rolls the tables back.
  abbrev pub rollback : {A : Type 0} → T → Result A × Store T → Result A × Store T
  rollback before (ok a, s) = (ok a, s)
  rollback before (err e, s) = (err e, record s { tables = before })

  -- Begin, the body, commit.
  unfoldable pub transact : {A : Type 0} → Exec T A → Exec T A
  unfolding stored
  transact m s = rollback s.tables ((do stored (pure tt); a ← m; stored (pure tt); pure a) s)
