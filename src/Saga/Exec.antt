-- ===== src/Saga/Exec.antt =====
-- The coordinator's actions: a state of tables and of the modules' world, errors, and crashes.
-- Every call of the store and of a step first meets the next fault of a schedule, which stands
-- for the engine and the process; an empty schedule has no faults.
use sannad.Prelude.{String, Option, none, some, List, [], ◌∷◌}
use sannad.Saga.{SagaRecord, SagaStepRecord, Reply, fine, refused, died, Error, storage}

-- One tenant's rows of `modulekit_sagas` and `modulekit_saga_steps`.
pub record Tables : Type 0 where
  pub sagas : List SagaRecord
  pub steps : List SagaStepRecord

pub data Fault : Type 0 where
  pass : Fault
  fail : String → Fault
  crash : Fault

pub record State (W : Type 0) : Type 0 where
  pub tables : Tables
  pub world : W
  pub faults : List Fault

pub data Result {ℓ} (A : Type ℓ) : Type ℓ where
  ok : A → Result A
  err : Error → Result A
  crashed : Result A

abbrev pub Exec : Type 0 → Type 0 → Type 0
Exec W A = State W → Result A × State W

module _ {W : Type 0} where
  abbrev pub pure : {A : Type 0} → A → Exec W A
  pure a s = (ok a, s)

  abbrev pub raise : {A : Type 0} → Error → Exec W A
  raise e s = (err e, s)

  -- Go would panic: a nil function, or an index out of range.
  abbrev pub panic : {A : Type 0} → Exec W A
  panic s = (crashed, s)

  abbrev pub continue : {A B : Type 0} → (A → Exec W B) → Result A → State W → Result B × State W
  continue f (ok a) s = f a s
  continue f (err e) s = (err e, s)
  continue f crashed s = (crashed, s)

infixl 5 ◌>>=◌ ◌>>◌
abbrev pub ◌>>=◌ : {W A B : Type 0} → Exec W A → (A → Exec W B) → Exec W B
◌>>=◌ m f s = continue f (m s).0 (m s).1

abbrev pub ◌>>◌ : {W B : Type 0} → Exec W (Unit {0}) → Exec W B → Exec W B
m >> k = m >>= λ _. k

module _ {W : Type 0} where
  -- What the next fault of the schedule does to an action.
  abbrev pub meet : {A : Type 0} → Exec W A → List Fault → State W → Result A × State W
  meet m [] s = m s
  meet m (pass ∷ fs) s = m (record s { faults = fs })
  meet m (fail text ∷ fs) s = (err (storage text), record s { faults = fs })
  meet m (crash ∷ fs) s = (crashed, record s { faults = fs })

  -- An action that may fail before it takes effect.
  unfoldable pub faulty : {A : Type 0} → Exec W A → Exec W A
  faulty m s = meet m s.faults s

  abbrev settle : Reply → State W → Result (Option String) × State W
  settle fine s = (ok none, s)
  settle (refused text) s = (ok (some text), s)
  settle died s = (crashed, s)

  -- A step's body, run on the modules' world; its answer is an error's text, or none.
  unfoldable pub call : Option (W → Reply × W) → Exec W (Option String)
  call none s = panic s
  call (some body) s = let (reply, w) = body s.world in settle reply (record s { world = w })
