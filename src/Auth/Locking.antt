-- ===== src/Auth/Locking.antt =====
-- What the operations on accounts (internal/platform/auth/admin.go) keep, and where a lock leads.
use sannad.Prelude.{
  ℕ, String, Bool, true, false, Option, none, some, ◌≡◌, refl, inl, inr, ◌==◌, leb, arith, str_eq,
  Bool-cases,
}
use sannad.Prelude.Tables.{first, update}
use sannad.Auth.Database.{Context, log_audit, ◌>>=◌, ◌>>◌}
use sannad.Auth.Accounts.{
  Account, Identities, has_id, owned, found, tenant_of_account, update_accounts, affected,
  set_active, bump, set_account_lock, lock_account, revoke_all_sessions,
}
use sannad.Auth.Triples.{
  Keeps, Leads, each-Keeps, each-Leads, stored-Keeps, bind-Keeps, pure-Keeps, raise-Keeps,
  log_audit-Keeps, raise-Leads, pure-Leads, stored-Leads, bind-Leads, Keeps-Leads,
}
use sannad.Auth.Locked.{IsPast, update-Past, update-owned}

module _ (P : Identities → Type 0) where
  found-Keeps : (tenant : String) (row : Option Account) → Keeps P (found tenant row)
  found-Keeps tenant none = raise-Keeps P String _
  found-Keeps tenant (some a) = pure-Keeps P tenant

  pub tenant_of_account-Keeps : (c : Context) (id : String) → Keeps P (tenant_of_account c id)
  unfolding tenant_of_account
  tenant_of_account-Keeps c id = elim (Bool-cases (str_eq c.tenant "")) [
    | inl e ↦ rw e (raise-Keeps P String _)
    | inr e ↦
        rw e
          (bind-Keeps P _ _ (stored-Keeps P _ (each-Keeps P _ (λ s h. h))) (found-Keeps c.tenant))
  ]

  pub affected-Keeps : (rows : ℕ) → Keeps P (affected rows)
  affected-Keeps rows = elim (Bool-cases (rows == 0)) [
    | inl e ↦ rw e (raise-Keeps P Unit _)
    | inr e ↦ rw e (pure-Keeps P tt)
  ]

  -- An update of the accounts that a condition selects, for the tenant of an account.
  changing-Keeps :
      (c : Context) (id event : String) (f : Account → Account)
      → ((p : Account → Bool) (t : Identities)
          → P t
          → P (record t { accounts = update p f t.accounts }))
      → Keeps P (do
        tenant ← tenant_of_account c id
        rows ← update_accounts (owned id tenant) f
        affected rows
        log_audit (record { event = event; tenant = tenant; actor = c.caller; subject = id }))
  unfolding update_accounts
  changing-Keeps c id event f kept = bind-Keeps P _ _ (tenant_of_account-Keeps c id) (λ tenant.
      bind-Keeps P _ _ (stored-Keeps P _ (each-Keeps P _ (λ s. kept (owned id tenant) s.tables)))
        (λ rows. bind-Keeps P _ _ (affected-Keeps rows) (λ u. log_audit-Keeps P _)))

  found-Leads :
      (tenant : String) (row : Option Account)
      → Leads P (found tenant row) (λ result t. (result ≡ tenant) × P t)
  found-Leads tenant none = raise-Leads P _ _
  found-Leads tenant (some a) = pure-Leads P tenant _ (λ t h. (refl, h))

  tenant_of_account-Leads :
      (c : Context) (id : String)
      → Leads P (tenant_of_account c id) (λ result t. (result ≡ c.tenant) × P t)
  unfolding tenant_of_account
  tenant_of_account-Leads c id = elim (Bool-cases (str_eq c.tenant "")) [
    | inl e ↦ rw e (raise-Leads P _ _)
    | inr e ↦ rw e (
        bind-Leads P _ _ (λ row. P) _ (stored-Leads P _ _ (each-Leads P _ _ (λ s h a done. h)))
          (found-Leads c.tenant))
  ]

module _ (id : String) (version : ℕ) where
  set_active-grows :
      (b : Bool) (a : Account) → leb a.token_version (set_active b a).token_version ≡ true
  set_active-grows true a = ground arith
  set_active-grows false a = ground arith

  set_active-id : (b : Bool) (a : Account) → (set_active b a).id ≡ a.id
  set_active-id true a = refl
  set_active-id false a = refl

  pub set_account_lock-Keeps :
      (c : Context) (key : String) (b : Bool) (event : String)
      → Keeps (IsPast id version) (set_account_lock c key b event)
  unfolding set_account_lock
  set_account_lock-Keeps c key b event =
      changing-Keeps (IsPast id version) c key event (set_active b) (λ p t.
        update-Past id version p (set_active b) (set_active-id b) (set_active-grows b) t.accounts)

  pub revoke_all_sessions-Keeps :
      (c : Context) (key : String) → Keeps (IsPast id version) (revoke_all_sessions c key)
  unfolding revoke_all_sessions
  revoke_all_sessions-Keeps c key =
      changing-Keeps (IsPast id version) c key _ bump
        (λ p t. update-Past id version p bump (λ a. refl) (λ a. ground arith) t.accounts)

  pub lock_account-Leads :
      (c : Context) (account : Account)
      → leb version account.token_version ≡ true
      → account.tenant_id ≡ c.tenant
      → Leads
          (λ t. first (has_id id) t.accounts ≡ some account)
          (lock_account c id)
          (λ u. IsPast id version)
  unfolding set_account_lock update_accounts
  lock_account-Leads c account old own =
      bind-Leads There _ _ (λ tenant t. (tenant ≡ c.tenant) × There t) _
        (tenant_of_account-Leads There c id)
        (λ tenant.
          bind-Leads _ _ _ (λ rows. IsPast id version) _
            (stored-Leads _ _ _ (
              each-Leads _ _ _ (λ s h a done.
                update-owned id version tenant account (set_active false) (λ b. refl)
                  (λ b. ground arith) old (cc (own, h.0)) s.tables.accounts h.1)))
            (λ rows. Keeps-Leads (IsPast id version) _ (
              bind-Keeps (IsPast id version) _ _ (affected-Keeps (IsPast id version) rows)
                (λ u. log_audit-Keeps (IsPast id version) _))))
    where
      There : Identities → Type 0
      There t = first (has_id id) t.accounts ≡ some account
