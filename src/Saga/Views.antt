-- ===== src/Saga/Views.antt =====
-- What one saga can see of the tables: its head, and its step at each position.
use mathlib.Core.Option
use sannad.Prelude.{
  ℕ, String, Bool, true, false, Option, none, some, List, [], ◌∷◌, ◌≡◌, ◌≢◌, refl, ap, arith, ◌==◌,
  eq_iff, if◌then◌else◌, Bool-cases, inl, inr,
}
use sannad.Saga.{StepStatus, SagaRecord, SagaStepRecord}
use sannad.Saga.Exec.{Tables}
use sannad.Saga.Tables.{first, update, is_saga, is_step}

abbrev pub head_at : Tables → String → Option SagaRecord
head_at t id = first (is_saga id) t.sagas

abbrev pub row_at : Tables → String → ℕ → Option SagaStepRecord
row_at t id j = first (is_step id j) t.steps

module _ {A : Type 0} (p q : A → Bool) (f : A → A) where
  first-update_self :
      ((a : A) → p (f a) ≡ p a)
      → (xs : List A) → first p (update p f xs) ≡ Option.map f (first p xs)
  unfolding first update
  first-update_self keep [] = refl
  first-update_self keep (x ∷ xs) = elim (Bool-cases (p x)) [
    | inl e ↦ rw (e, keep x, e)
    | inr e ↦ rw (e, e) (first-update_self keep xs)
  ]

  first-update_ne :
      ((a : A) → q (f a) ≡ q a)
      → ((a : A) → p a ≡ true → q a ≡ false)
      → (xs : List A) → first q (update p f xs) ≡ first q xs
  unfolding first update
  first-update_ne keep apart [] = refl
  first-update_ne keep apart (x ∷ xs) =
      ground (arith, keep x, apart x, first-update_ne keep apart xs)

module _ (id : String) (i : ℕ) (f : SagaStepRecord → SagaStepRecord) where
  abbrev pub KeepsKey : Type 0
  KeepsKey = (r : SagaStepRecord) → ((f r).saga_id ≡ r.saga_id) × ((f r).position ≡ r.position)

  row_at-update_self :
      (xs : List SagaStepRecord)
      → KeepsKey
      → first (is_step id i) (update (is_step id i) f xs) ≡ Option.map f (first (is_step id i) xs)
  row_at-update_self xs keep =
      first-update_self (is_step id i) (is_step id i) f (λ r. rw ((keep r).0, (keep r).1)) xs

  row_at-update_ne :
      (xs : List SagaStepRecord) (j : ℕ)
      → KeepsKey
      → i ≢ j
      → first (is_step id j) (update (is_step id i) f xs) ≡ first (is_step id j) xs
  row_at-update_ne xs j keep ne =
      first-update_ne (is_step id i) (is_step id j) f (λ r. rw ((keep r).0, (keep r).1))
        (λ r h. ground arith) xs

  -- Another saga's rows.
  row_at-update_other :
      (xs : List SagaStepRecord) (id' : String) (j : ℕ)
      → KeepsKey
      → id ≢ id'
      → first (is_step id' j) (update (is_step id i) f xs) ≡ first (is_step id' j) xs
  row_at-update_other xs id' j keep ne =
      first-update_ne (is_step id i) (is_step id' j) f (λ r. rw ((keep r).0, (keep r).1))
        (λ r h. ground (arith, eq_iff r.saga_id id, eq_iff r.saga_id id')) xs

module _ (id : String) (f : SagaRecord → SagaRecord) where
  abbrev pub KeepsId : Type 0
  KeepsId = (r : SagaRecord) → (f r).saga_id ≡ r.saga_id

  pub head_at-update_self :
      (xs : List SagaRecord)
      → KeepsId
      → first (is_saga id) (update (is_saga id) f xs) ≡ Option.map f (first (is_saga id) xs)
  head_at-update_self xs keep = first-update_self (is_saga id) (is_saga id) f (λ r. rw (keep r)) xs

  pub head_at-update_other :
      (xs : List SagaRecord) (id' : String)
      → KeepsId
      → id ≢ id'
      → first (is_saga id') (update (is_saga id) f xs) ≡ first (is_saga id') xs
  head_at-update_other xs id' keep ne =
      first-update_ne (is_saga id) (is_saga id') f (λ r. rw (keep r))
        (λ r h. ground (arith, eq_iff r.saga_id id, eq_iff r.saga_id id')) xs

abbrev pub status_of : Option SagaStepRecord → Option StepStatus
status_of none = none
status_of (some r) = some r.status

abbrev pub status_at : Tables → String → ℕ → Option StepStatus
status_at t id j = status_of (row_at t id j)

abbrev pub over : StepStatus → Option StepStatus → Option StepStatus
over st none = none
over st (some _) = some st

-- An update of the row of step `i` that sets its status.
pub status-update :
    (id : String) (i j : ℕ) (st : StepStatus) (f : SagaStepRecord → SagaStepRecord)
    (xs : List SagaStepRecord)
    → KeepsKey id i f
    → ((r : SagaStepRecord) → (f r).status ≡ st)
    → status_of (first (is_step id j) (update (is_step id i) f xs)) ≡ (
        if i == j
        then over st (status_of (first (is_step id j) xs))
        else status_of (first (is_step id j) xs))
status-update id i j st f xs keep sets = elim (Bool-cases (i == j)) [
  | inl e ↦
      let same_place : i ≡ j = ground arith in
      rw (e, ← same_place, row_at-update_self id i f xs keep) (same (first (is_step id i) xs))
  | inr e ↦ rw e (ap status_of (row_at-update_ne id i f xs j keep (ground arith)))
]
  where
    same : (o : Option SagaStepRecord) → status_of (Option.map f o) ≡ over st (status_of o)
    same none = refl
    same (some r) = ap some (sets r)
