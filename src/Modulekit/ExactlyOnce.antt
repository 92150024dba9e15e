-- ===== src/Modulekit/ExactlyOnce.antt =====
-- The effect of a handler under redelivery, crashes of the transaction and errors of the store.
use sannad.Prelude.{
  ℕ, zero, suc, String, Bool, true, false, List, [], ◌∷◌, ◌≡◌, refl, ap, ◌∙◌, ◌⊎◌, inl, inr,
  Bool-cases, str_eq, str_eq_self,
}
use sannad.Modulekit.Transactions.{Result, ok, Store, Exec, proceed, ◌>>=◌, meet, stored, transact}
use sannad.Modulekit.Commits.{Committed, transact-Committed}
use sannad.Modulekit.Idempotency.{
  ProcessedEvent, Tables, is_claimed, insert_unless, create_marker, claimed_as, claim, handled,
  idempotent,
}

-- What a fault-free or failing claim does to the tables.
module _ {D : Type 0} (consumer event_id : String) (handle : D → Result (Unit {0}) × D) where
  abbrev marker : ProcessedEvent
  marker = record { consumer = consumer; event_id = event_id }

  abbrev body : Exec (Tables D) (Unit {0})
  body = claim consumer event_id >>= λ _. handled handle

  abbrev pub worked : Tables D → Tables D
  worked t = record { processed = marker ∷ t.processed; module_data = (handle t.module_data).1 }

  -- A body that succeeds found no marker, and has left the marker and the handler's work.
  Worked : Store (Tables D) → Result (Unit {0}) × Store (Tables D) → Type 0
  Worked s r =
      (a : Unit {0})
      → r.0 ≡ ok a
      → (is_claimed consumer event_id s.tables.processed ≡ false)
        × ((handle s.tables.module_data).0 ≡ ok tt)
        × (r.1.tables ≡ worked s.tables)

  inserted-Worked :
      (s t : Store (Tables D)) (b : Bool)
      → t.tables ≡ s.tables
      → is_claimed consumer event_id s.tables.processed ≡ b
      → Worked s (proceed (λ _. handled handle) (claimed_as (insert_unless b marker t)))
  unfolding Worked
  inserted-Worked s t true same e a h = absurd (cc)
  inserted-Worked s t false same e a h = (e, rw (← same) h, ap worked same)

  body-Worked : (s : Store (Tables D)) → Worked s (body s)
  unfolding claim create_marker stored Worked
  body-Worked s = go s.faults
    where
      go :
          (fs : List Bool)
          → Worked s (
              proceed
                (λ _. handled handle)
                (claimed_as (
                  meet
                    (λ u. insert_unless (is_claimed consumer event_id u.tables.processed) marker u)
                    fs
                    s)))
      go [] = inserted-Worked s s _ refl refl
      go (false ∷ fs) = inserted-Worked s (record s { faults = fs }) _ refl refl
      go (true ∷ fs) = λ a h. absurd (cc)

  -- The work of the handler is done once and the event is marked, or neither.
  unfoldable pub Once : D → Store (Tables D) → Type 0
  Once before s =
      ((is_claimed consumer event_id s.tables.processed ≡ false) × (s.tables.module_data ≡ before))
      ⊎ ((is_claimed consumer event_id s.tables.processed ≡ true)
          × ((handle before).0 ≡ ok tt)
          × (s.tables.module_data ≡ (handle before).1))

  marked : (ps : List ProcessedEvent) → is_claimed consumer event_id (marker ∷ ps) ≡ true
  unfolding is_claimed
  marked ps = rw (str_eq_self consumer, str_eq_self event_id) refl

  idempotent-Once :
      (before : D) (s : Store (Tables D))
      → Once before s
      → Once before (idempotent consumer event_id handle s).1
  unfolding idempotent Once Committed Worked
  idempotent-Once before s h = elim (Bool-cases (str_eq consumer "")) [
    | inl e ↦ rw e h
    | inr e ↦ elim (Bool-cases (str_eq event_id "")) [
      | inl f ↦ rw (e, f) h
      | inr f ↦ rw (e, f) (settle (transact body s) (transact-Committed body s))
    ]
  ]
    where
      settle : (r : Result (Unit {0}) × Store (Tables D)) → Committed body s r → Once before r.1
      settle r (inl e) = rw e h
      settle r (inr (s1, same, (a, succeeds), e)) =
          let (free, fine, work) = body-Worked s1 a succeeds in
          elim h [
            | inl (unclaimed, before_it) ↦ inr (
              rw (e ∙ work) (marked s1.tables.processed),
              rw (← before_it, ← same) fine,
              rw (e ∙ work, same, before_it) refl,
            )
            | inr (claimed, _, _) ↦ absurd (cc (rw same at free, claimed))
          ]

  -- `n` deliveries of the event, each with the faults that are left.
  abbrev pub deliver : ℕ → Store (Tables D) → Store (Tables D)
  deliver zero s = s
  deliver (suc n) s = deliver n (idempotent consumer event_id handle s).1

  -- Whichever calls of the store fail, however often an event is delivered, the handler's work on
  -- the module's data is done once and the event is marked, or it is not done and not marked, if
  -- that was so before.
  pub deliver-Once :
      (n : ℕ) (before : D) (s : Store (Tables D)) → Once before s → Once before (deliver n s)
  deliver-Once zero before s h = h
  deliver-Once (suc n) before s h =
      deliver-Once n before (idempotent consumer event_id handle s).1 (idempotent-Once before s h)
