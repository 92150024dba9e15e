-- ===== src/Auth/Database.antt =====
-- The database of the authentication service: tables, calls that may fail, and the audit log
-- (internal/platform/auth). Times of creation are left out: no branch reads them.
use sannad.Prelude.{String, Bool, true, false, List, [], ◌∷◌, ◌++◌}

pub data Error : Type 0 where
  storage no_tenant not_found permission_denied : Error
  role_not_found unnamed_role unnamed_account key_generation : Error
  no_session_id session_revoked account_locked revocation_unavailable : Error
  no_tenant_claim invalid_token signing invalid_credentials : Error

pub record AuditEvent : Type 0 where
  pub event : String
  pub tenant : String
  pub actor : String
  pub subject : String

-- The tenant is empty where the context has none, and the caller where there is none.
pub record Context : Type 0 where
  pub tenant : String
  pub caller : String

-- `faults` says of each call to come whether it fails; with none left, none fails.
pub record Db (T : Type 0) : Type 0 where
  pub tables : T
  pub audit : List AuditEvent
  pub faults : List Bool

pub data Result {ℓ} (A : Type ℓ) : Type ℓ where
  ok : A → Result A
  err : Error → Result A

abbrev pub Exec : Type 0 → Type 0 → Type 0
Exec T A = Db T → Result A × Db T

module _ {T : Type 0} where
  abbrev pub pure : {A : Type 0} → A → Exec T A
  pure a s = (ok a, s)

  abbrev pub raise : {A : Type 0} → Error → Exec T A
  raise e s = (err e, s)

  abbrev pub proceed : {A B : Type 0} → (A → Exec T B) → Result A × Db T → Result B × Db T
  proceed f (ok a, s) = f a s
  proceed f (err e, s) = (err e, s)

infixl 5 ◌>>=◌ ◌>>◌
abbrev pub ◌>>=◌ : {T A B : Type 0} → Exec T A → (A → Exec T B) → Exec T B
◌>>=◌ m f s = proceed f (m s)

abbrev pub ◌>>◌ : {T B : Type 0} → Exec T (Unit {0}) → Exec T B → Exec T B
m >> k = m >>= λ _. k

module _ {T : Type 0} where
  abbrev pub meet : {A : Type 0} → Exec T A → List Bool → Db T → Result A × Db T
  meet m [] s = m s
  meet m (false ∷ fs) s = m (record s { faults = fs })
  meet m (true ∷ fs) s = (err storage, record s { faults = fs })

  -- A call of the database, which may fail before it takes effect.
  unfoldable pub stored : {A : Type 0} → Exec T A → Exec T A
  stored m s = meet m s.faults s

  abbrev pub rollback : {A : Type 0} → T → Result A × Db T → Result A × Db T
  rollback before (ok a, s) = (ok a, s)
  rollback before (err e, s) = (err e, record s { tables = before })

  -- Begin, the body, commit; an error rolls the tables back.
  unfoldable pub transact : {A : Type 0} → Exec T A → Exec T A
  unfolding stored
  transact m s = rollback s.tables ((do stored (pure tt); a ← m; stored (pure tt); pure a) s)

  abbrev pub note : AuditEvent → List Bool → Db T → Db T
  note e [] s = record s { audit = s.audit ++ e ∷ [] }
  note e (false ∷ fs) s = record s { audit = s.audit ++ e ∷ []; faults = fs }
  note e (true ∷ fs) s = record s { faults = fs }

  -- logAudit: a write that fails is only logged.
  unfoldable pub log_audit : AuditEvent → Exec T (Unit {0})
  log_audit e s = (ok tt, note e s.faults s)
