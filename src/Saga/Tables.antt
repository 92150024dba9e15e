-- ===== src/Saga/Tables.antt =====
-- The calls of the store that sagas make, by the contract of `Store` in
-- pkg/modulekit/storage.go, on the two tables of internal/app/migrations/00005_modulekit_sagas.sql.
use sannad.Prelude.{
  ℕ, String, Bool, true, false, Option, none, some, List, [], ◌∷◌, ◌++◌, ◌&&◌, ◌==◌, str_eq,
  if◌then◌else◌,
}
use sannad.Saga.{SagaStatus, SagaRecord, SagaStepRecord, not_found, duplicate}
use sannad.Saga.Exec.{Tables, State, Result, ok, err, crashed, Exec, pure, faulty, ◌>>=◌, ◌>>◌}

module _ {ℓ} {A : Type ℓ} where
  -- Find: the rows that match.
  unfoldable pub select : (A → Bool) → List A → List A
  select p [] = []
  select p (x ∷ xs) = let rest = select p xs in if p x then x ∷ rest else rest

  -- First: a row that matches.
  unfoldable pub first : (A → Bool) → List A → Option A
  first p [] = none
  first p (x ∷ xs) = if p x then some x else first p xs

  -- Update: every row that matches is changed.
  unfoldable pub update : (A → Bool) → (A → A) → List A → List A
  update p f [] = []
  update p f (x ∷ xs) = (if p x then f x else x) ∷ update p f xs

-- Where("saga_id", id)
abbrev pub is_saga : String → SagaRecord → Bool
is_saga id r = str_eq r.saga_id id

abbrev of_saga : String → SagaStepRecord → Bool
of_saga id r = str_eq r.saga_id id

-- Where("saga_id", id), Where("position", position)
abbrev pub is_step : String → ℕ → SagaStepRecord → Bool
is_step id position r = str_eq r.saga_id id && r.position == position

abbrev pub has_status : SagaStatus → SagaStatus → Bool
has_status SagaStatus.running SagaStatus.running = true
has_status SagaStatus.completed SagaStatus.completed = true
has_status SagaStatus.compensating SagaStatus.compensating = true
has_status SagaStatus.compensated SagaStatus.compensated = true
has_status SagaStatus.failed SagaStatus.failed = true
has_status _ _ = false

module _ {W : Type 0} where
  abbrev answer : {A : Type 0} → Option A → Exec W A
  answer none s = (err not_found, s)
  answer (some a) s = (ok a, s)

  abbrev pub with_sagas : State W → List SagaRecord → State W
  with_sagas s rows = record s { tables = record (s.tables) { sagas = rows } }

  abbrev pub with_steps : State W → List SagaStepRecord → State W
  with_steps s rows = record s { tables = record (s.tables) { steps = rows } }

  unfoldable pub first_saga : String → Exec W SagaRecord
  unfolding faulty first
  first_saga id = faulty (λ s. answer (first (is_saga id) s.tables.sagas) s)

  unfoldable pub first_step : String → ℕ → Exec W SagaStepRecord
  unfolding faulty first
  first_step id position = faulty (λ s. answer (first (is_step id position) s.tables.steps) s)

  unfoldable pub find_steps : String → Exec W (List SagaStepRecord)
  unfolding faulty select
  find_steps id = faulty (λ s. (ok (select (of_saga id) s.tables.steps), s))

  unfoldable pub find_sagas : (SagaRecord → Bool) → Exec W (List SagaRecord)
  unfolding faulty select
  find_sagas p = faulty (λ s. (ok (select p s.tables.sagas), s))

  unfoldable pub update_saga : String → (SagaRecord → SagaRecord) → Exec W (Unit {0})
  unfolding faulty update
  update_saga id f = faulty (λ s. (ok tt, with_sagas s (update (is_saga id) f s.tables.sagas)))

  unfoldable pub update_step : String → ℕ → (SagaStepRecord → SagaStepRecord) → Exec W (Unit {0})
  unfolding faulty update
  update_step id position f =
      faulty (λ s. (ok tt, with_steps s (update (is_step id position) f s.tables.steps)))

  abbrev pub insert_saga : Option SagaRecord → SagaRecord → Exec W (Unit {0})
  insert_saga none r s = (ok tt, with_sagas s (s.tables.sagas ++ r ∷ []))
  insert_saga (some _) r s = (err duplicate, s)

  abbrev insert_step : Option SagaStepRecord → SagaStepRecord → Exec W (Unit {0})
  insert_step none r s = (ok tt, with_steps s (s.tables.steps ++ r ∷ []))
  insert_step (some _) r s = (err duplicate, s)

  -- Create: the primary keys refuse a second row.
  unfoldable pub create_saga : SagaRecord → Exec W (Unit {0})
  unfolding faulty first
  create_saga r = faulty (λ s. insert_saga (first (is_saga r.saga_id) s.tables.sagas) r s)

  unfoldable pub create_step : SagaStepRecord → Exec W (Unit {0})
  unfolding faulty first
  create_step r =
      faulty (λ s. insert_step (first (is_step r.saga_id r.position) s.tables.steps) r s)

  abbrev pub rollback : {A : Type 0} → Tables → Result A × State W → Result A × State W
  rollback before (ok a, s) = (ok a, s)
  rollback before (err e, s) = (err e, record s { tables = before })
  rollback before (crashed, s) = (crashed, record s { tables = before })

  -- Transact: begin, the function, commit; without a commit nothing of it stays.
  unfoldable pub transact : {A : Type 0} → Exec W A → Exec W A
  unfolding faulty
  transact m s = rollback s.tables ((faulty (pure tt) >> (m >>= λ a. faulty (pure a))) s)
