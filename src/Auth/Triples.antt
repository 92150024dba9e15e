-- ===== src/Auth/Triples.antt =====
-- Conditions on the tables before and after an operation over a database whose calls may fail.
use mathlib.Core.Path.{subst}
use sannad.Prelude.{Bool, true, false, List, [], ◌∷◌, ◌≡◌, refl}
use sannad.Auth.Database.{
  Db, Exec, Result, Error, AuditEvent, ok, err, meet, stored, proceed, pure, raise, note, log_audit,
  transact, rollback, ◌>>◌, ◌>>=◌,
}

module _ {T : Type 0} where
  -- What an operation keeps, whatever it returns.
  unfoldable pub Keeps : (T → Type 0) → {A : Type 0} → Exec T A → Type 0
  Keeps P m = (s : Db T) → P s.tables → P (m s).1.tables

  -- What holds after an operation that succeeds.
  unfoldable pub Leads : {A : Type 0} → (T → Type 0) → Exec T A → (A → T → Type 0) → Type 0
  Leads {A = A} P m Q = (s : Db T) → P s.tables → (a : A) → (m s).0 ≡ ok a → Q a (m s).1.tables

  module _ (P : T → Type 0) where
    pub each-Keeps :
        {A : Type 0} (m : Exec T A) → ((s : Db T) → P s.tables → P (m s).1.tables) → Keeps P m
    unfolding Keeps
    each-Keeps m k = k

    pub each-Leads :
        {A : Type 0} (m : Exec T A) (Q : A → T → Type 0)
        → ((s : Db T) → P s.tables → (a : A) → (m s).0 ≡ ok a → Q a (m s).1.tables)
        → Leads P m Q
    unfolding Leads
    each-Leads m Q l = l

    pub stored-Keeps : {A : Type 0} (m : Exec T A) → Keeps P m → Keeps P (stored m)
    unfolding Keeps stored
    stored-Keeps m k s h = go s.faults
      where
        go : (fs : List Bool) → P (meet m fs s).1.tables
        go [] = k s h
        go (false ∷ fs) = k (record s { faults = fs }) h
        go (true ∷ fs) = h

    pub bind-Keeps :
        {A B : Type 0} (m : Exec T A) (f : A → Exec T B)
        → Keeps P m
        → ((a : A) → Keeps P (f a))
        → Keeps P (m >>= f)
    unfolding Keeps
    bind-Keeps {A = A} {B = B} m f k l s h = go (m s) (k s h)
      where
        go : (r : Result A × Db T) → P r.1.tables → P (proceed f r).1.tables
        go (ok a, u) kept = l a u kept
        go (err e, u) kept = kept

    pub pure-Keeps : {A : Type 0} (a : A) → Keeps P (pure a)
    unfolding Keeps
    pure-Keeps a s h = h

    bracketed-Keeps :
        {A : Type 0} (m : Exec T A)
        → Keeps P m
        → Keeps P (do stored (pure tt); a ← m; stored (pure tt); pure a)
    bracketed-Keeps {A = A} m k = bind-Keeps _ _ (stored-Keeps (pure tt) (pure-Keeps tt)) (λ u.
        bind-Keeps {B = A} m _ k
          (λ a. bind-Keeps _ _ (stored-Keeps (pure tt) (pure-Keeps tt)) (λ v. pure-Keeps a)))

    pub transact-Keeps : {A : Type 0} (m : Exec T A) → Keeps P m → Keeps P (transact m)
    unfolding Keeps transact
    transact-Keeps {A = A} m k s h = go _ (bracketed-Keeps m k s h)
      where
        go : (r : Result A × Db T) → P r.1.tables → P (rollback s.tables r).1.tables
        go (ok a, u) kept = kept
        go (err e, u) kept = h

    pub raise-Keeps : (A : Type 0) (e : Error) → Keeps P (raise {A = A} e)
    unfolding Keeps
    raise-Keeps A e s h = h

    pub log_audit-Keeps : (e : AuditEvent) → Keeps P (log_audit e)
    unfolding Keeps log_audit
    log_audit-Keeps e s h = go s.faults
      where
        go : (fs : List Bool) → P (note e fs s).tables
        go [] = h
        go (false ∷ fs) = h
        go (true ∷ fs) = h

    pub raise-Leads : {A : Type 0} (e : Error) (Q : A → T → Type 0) → Leads P (raise e) Q
    unfolding Leads
    raise-Leads e Q s h a done = absurd (cc done)

    pub pure-Leads :
        {A : Type 0} (a : A) (Q : A → T → Type 0) → ((t : T) → P t → Q a t) → Leads P (pure a) Q
    unfolding Leads
    pure-Leads a Q q s h b done = subst (λ x. Q x s.tables) (cc done) (q s.tables h)

    pub stored-Leads :
        {A : Type 0} (m : Exec T A) (Q : A → T → Type 0) → Leads P m Q → Leads P (stored m) Q
    unfolding Leads stored
    stored-Leads {A = A} m Q l s h = go s.faults
      where
        go : (fs : List Bool) (a : A) → (meet m fs s).0 ≡ ok a → Q a (meet m fs s).1.tables
        go [] = l s h
        go (false ∷ fs) = l (record s { faults = fs }) h
        go (true ∷ fs) = λ a done. absurd (cc done)

    pub bind-Leads :
        {A B : Type 0} (m : Exec T A) (f : A → Exec T B) (Q : A → T → Type 0) (R : B → T → Type 0)
        → Leads P m Q
        → ((a : A) → Leads (Q a) (f a) R)
        → Leads P (m >>= f) R
    unfolding Leads
    bind-Leads {A = A} {B = B} m f Q R k l s h = go (m s) (k s h)
      where
        go :
            (r : Result A × Db T)
            → ((a : A) → r.0 ≡ ok a → Q a r.1.tables)
            → (b : B) → (proceed f r).0 ≡ ok b
            → R b (proceed f r).1.tables
        go (ok a, u) q b done = l a u (q a refl) b done
        go (err e, u) q b done = absurd (cc done)

    pub Keeps-Leads : {A : Type 0} (m : Exec T A) → Keeps P m → Leads P m (λ a. P)
    unfolding Keeps Leads
    Keeps-Leads m k s h a done = k s h

    pub both-Leads :
        {A : Type 0} (m : Exec T A) (Q : A → T → Type 0)
        → Leads P m Q
        → Keeps P m
        → Leads P m (λ a t. Q a t × P t)
    unfolding Keeps Leads
    both-Leads m Q l k s h a done = (l s h a done, k s h)

    pub at-Leads :
        {A : Type 0} (m : Exec T A) (Q : A → T → Type 0)
        → Leads P m Q
        → (s : Db T) → P s.tables
        → (a : A) → (m s).0 ≡ ok a
        → Q a (m s).1.tables
    unfolding Leads
    at-Leads m Q l = l
