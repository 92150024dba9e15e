-- ===== src/Webhooks/Bounded.antt =====
-- No delivery is attempted more often than the policy allows, whatever fails.
use sannad.Prelude.{
  ℕ, ◌<◌, String, Bool, true, false, Option, none, some, List, [], ◌∷◌, ◌++◌, ◌≡◌, refl, ◌⊎◌, arith,
  Bool-cases, inl, inr,
}
use sannad.Webhooks.{Delivery, pending}
use sannad.Webhooks.Retry.{max_attempts, advance, Outcome}
use sannad.Webhooks.Queue.{
  Error, Queue, Result, ok, err, Exec, proceed, meet, stored, found, update, has_id, insert_unless,
  update_delivery, create_delivery, is_queued,
}

-- A delivery that will be attempted has been attempted less often than the policy allows.
abbrev pub InBudget : Delivery → Type 0
InBudget d = d.status ≡ pending → d.attempts < max_attempts

abbrev pub AllInBudget : List Delivery → Type 0
AllInBudget [] = Unit
AllInBudget (d ∷ ds) = InBudget d × AllInBudget ds

AllInBudget-append :
    (ds : List Delivery) (d : Delivery) → AllInBudget ds → InBudget d → AllInBudget (ds ++ d ∷ [])
AllInBudget-append [] d h k = (k, tt)
AllInBudget-append (x ∷ ds) d h k = (h.0, AllInBudget-append ds d h.1 k)

AllInBudget-update :
    (p : Delivery → Bool) (f : Delivery → Delivery) (ds : List Delivery)
    → ((d : Delivery) → InBudget (f d))
    → AllInBudget ds
    → AllInBudget (update p f ds)
unfolding update
AllInBudget-update p f [] k h = tt
AllInBudget-update p f (d ∷ ds) k h = elim (Bool-cases (p d)) [
  | inl e ↦ rw e (k d, AllInBudget-update p f ds k h.1)
  | inr e ↦ rw e (h.0, AllInBudget-update p f ds k h.1)
]

-- What an attempt leaves behind is in the budget, since it is pending only below the limit.
pub advance-InBudget :
    (d : Delivery) (outcome : Outcome) (now : ℕ) (jitter : ℕ → ℕ)
    → InBudget (advance d outcome now jitter).0
unfolding advance
advance-InBudget d outcome now jitter h = ground arith

pub Result-cases {ℓ} :
    {A : Type ℓ} (r : Result A) → ((a : A) × (r ≡ ok a)) ⊎ ((e : Error) × (r ≡ err e))
Result-cases (ok a) = inl (a, refl)
Result-cases (err e) = inr (e, refl)

module _ {W : Type 0} where
  abbrev pub Bounded : Queue W → Type 0
  Bounded q = AllInBudget q.deliveries

  abbrev pub Keeps : {A : Type 0} → Exec W A → Type 0
  Keeps m = (q : Queue W) → Bounded q → Bounded (m q).1

  pub proceed-Bounded :
      {A B : Type 0} (f : A → Exec W B) (r : Result A × Queue W)
      → ((a : A) → Keeps (f a))
      → Bounded r.1
      → Bounded (proceed f r).1
  proceed-Bounded f (ok a, q) k h = k a q h
  proceed-Bounded f (err e, q) k h = h

  pub meet-Bounded :
      {A : Type 0} (m : Exec W A) (fs : List Bool) (q : Queue W)
      → Keeps m
      → Bounded q
      → Bounded (meet m fs q).1
  meet-Bounded m [] q k h = k q h
  meet-Bounded m (false ∷ fs) q k h = k (record q { faults = fs }) h
  meet-Bounded m (true ∷ fs) q k h = h

  insert_unless-Bounded :
      (refuse : Bool) (d : Delivery) (q : Queue W)
      → InBudget d
      → Bounded q
      → Bounded (insert_unless refuse d q).1
  insert_unless-Bounded true d q k h = h
  insert_unless-Bounded false d q k h = AllInBudget-append q.deliveries d h k

  pub create_delivery-Keeps : (d : Delivery) → InBudget d → Keeps (create_delivery {W = W} d)
  unfolding create_delivery stored
  create_delivery-Keeps d k q h =
      meet-Bounded (λ u. insert_unless (is_queued d.endpoint_id d.event_id u.deliveries) d u)
        q.faults q
        (λ u. insert_unless-Bounded (is_queued d.endpoint_id d.event_id u.deliveries) d u k) h

  pub update_delivery-Keeps :
      (id : String) (f : Delivery → Delivery)
      → ((d : Delivery) → InBudget (f d))
      → Keeps (update_delivery {W = W} id f)
  unfolding update_delivery stored
  update_delivery-Keeps id f k q h =
      meet-Bounded (λ u. (ok tt, record u { deliveries = update (has_id id) f u.deliveries }))
        q.faults q (λ u. AllInBudget-update (has_id id) f u.deliveries k) h

  pub found-Keeps : {A : Type 0} (x : Option A) → Keeps {A = A} (found x)
  found-Keeps none q h = h
  found-Keeps (some a) q h = h
