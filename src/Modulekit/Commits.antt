-- ===== src/Modulekit/Commits.antt =====
-- What a transaction can leave behind.
use sannad.Prelude.{Bool, true, false, List, [], ◌∷◌, ◌≡◌, refl, ◌⊎◌, inl, inr}
use sannad.Modulekit.Transactions.{
  Result, ok, err, Store, Exec, proceed, pure, ◌>>=◌, meet, stored, rollback, transact,
}

module _ {T A : Type 0} where
  -- A transaction leaves the tables as they were, or as its body left them with success.
  unfoldable pub Committed : Exec T A → Store T → Result A × Store T → Type 0
  Committed m s r =
      (r.1.tables ≡ s.tables)
      ⊎ ((s1 : Store T) × (s1.tables ≡ s.tables)
          × ((a : A) × ((m s1).0 ≡ ok a))
          × (r.1.tables ≡ (m s1).1.tables))

  abbrev finish : Result A × Store T → Result A × Store T
  finish = proceed (λ a. stored (pure tt) >>= λ _. pure a)

  finish-cases :
      (before : T) (r : Result A × Store T)
      → ((rollback before (finish r)).1.tables ≡ before)
        ⊎ (((a : A) × (r.0 ≡ ok a)) × ((rollback before (finish r)).1.tables ≡ r.1.tables))
  unfolding stored
  finish-cases before (err e, t) = inl refl
  finish-cases before (ok a, t) = go t.faults
    where
      go :
          (fs : List Bool)
          → let r = proceed (λ _. pure a) (meet (pure tt) fs t) in
            ((rollback before r).1.tables ≡ before)
            ⊎ (((b : A) × (ok a ≡ ok b)) × ((rollback before r).1.tables ≡ t.tables))
      go [] = inr ((a, refl), refl)
      go (false ∷ fs) = inr ((a, refl), refl)
      go (true ∷ fs) = inl refl

  pub transact-Committed : (m : Exec T A) (s : Store T) → Committed m s (transact m s)
  unfolding transact stored Committed
  transact-Committed m s = begun s.faults
    where
      run :
          (s1 : Store T) → s1.tables ≡ s.tables → Committed m s (rollback s.tables (finish (m s1)))
      run s1 same = elim (finish-cases s.tables (m s1)) [
        | inl e ↦ inl e
        | inr (done, e) ↦ inr (s1, same, done, e)
      ]

      begun :
          (fs : List Bool)
          → Committed m s (rollback s.tables (proceed (λ _ t. finish (m t)) (meet (pure tt) fs s)))
      begun [] = run s refl
      begun (false ∷ fs) = run (record s { faults = fs }) refl
      begun (true ∷ fs) = inl refl
