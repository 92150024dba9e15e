-- ===== src/Auth/Bystanders.antt =====
-- Logins and the operations on service accounts change no account (Login of
-- internal/platform/auth/service.go, service_account.go).
use sannad.Prelude.{
  ℕ, String, Bool, true, false, Option, none, some, List, ◌≡◌, inl, inr, str_eq, if◌then◌else◌,
  Bool-cases,
}
use sannad.Auth.Database.{
  Context, invalid_credentials, account_locked, Exec, pure, raise, ◌>>=◌, ◌>>◌,
}
use sannad.Auth.Accounts.{
  Account, ServiceAccount, Identities, create_service_account, keyed, enrolled, insert_service,
  list_service_accounts, revoke_service_account, update_services,
}
use sannad.Auth.Tokens.{TokenLibrary, Strategy, create_for_tenant}
use sannad.Auth.Login.{LoginResult, login_result, logged, find_registered, admit, login}
use sannad.Auth.Triples.{
  Keeps, each-Keeps, stored-Keeps, bind-Keeps, pure-Keeps, raise-Keeps, log_audit-Keeps,
}
use sannad.Auth.Locking.{affected-Keeps}
use sannad.Auth.Untouched.{Of, create_for_tenant-Keeps}

module _ (Q : List Account → Type 0) where
  denied-Keeps :
      (event : String) (tenant subject : String) (m : Exec Identities LoginResult)
      → Keeps (Of Q) m
      → Keeps (Of Q) (logged event tenant subject >> m)
  denied-Keeps event tenant subject m k =
      bind-Keeps (Of Q) (logged event tenant subject) (λ u. m) (log_audit-Keeps (Of Q) _) (λ u. k)

  admit-Keeps :
      (compare : String → String → Bool) (l : TokenLibrary) (st : Strategy) (now : ℕ)
      (session tenant password : String) (row : Option Account)
      → Keeps (Of Q) (admit compare l st now session tenant password row)
  unfolding admit
  admit-Keeps compare l st now session tenant password none =
      denied-Keeps "EventLoginFailure" tenant "" _ (raise-Keeps (Of Q) LoginResult _)
  admit-Keeps compare l st now session tenant password (some a) =
      elim (Bool-cases (compare password a.password_hash)) [
        | inl e ↦ go a.active e
        | inr e ↦
            rw e (denied-Keeps "EventLoginFailure" tenant a.id _ (raise-Keeps (Of Q) LoginResult _))
      ]
    where
      go :
          (b : Bool)
          → compare password a.password_hash ≡ true
          → Keeps (Of Q) (
              if compare password a.password_hash
              then if b
                then (do
                  issued ← create_for_tenant l st now session a.id a.tenant_id a.token_version
                  logged "EventLoginSuccess" tenant a.id
                  pure (login_result a.id a.tenant_id issued))
                else logged "EventLoginBlocked" tenant a.id >> raise account_locked
              else logged "EventLoginFailure" tenant a.id >> raise invalid_credentials)
      go true e = rw e (
          bind-Keeps (Of Q) (create_for_tenant l st now session a.id a.tenant_id a.token_version) _
            (create_for_tenant-Keeps Q l st now session a.id a.tenant_id a.token_version)
            (λ issued.
              denied-Keeps "EventLoginSuccess" tenant a.id _
                (pure-Keeps (Of Q) (login_result a.id a.tenant_id issued))))
      go false e =
          rw e (denied-Keeps "EventLoginBlocked" tenant a.id _ (raise-Keeps (Of Q) LoginResult _))

  pub login-Keeps :
      (compare : String → String → Bool) (l : TokenLibrary) (st : Strategy) (now : ℕ)
      (session tenant email password : String)
      → Keeps (Of Q) (login compare l st now session tenant email password)
  unfolding login find_registered
  login-Keeps compare l st now session tenant email password =
      elim (Bool-cases (str_eq tenant "")) [
        | inl e ↦ rw e (raise-Keeps (Of Q) LoginResult _)
        | inr e ↦ rw e (
            bind-Keeps (Of Q) _ _ (stored-Keeps (Of Q) _ (each-Keeps (Of Q) _ (λ s h. h)))
              (admit-Keeps compare l st now session tenant password))
      ]

  enrolled-Keeps :
      (caller : String) (account : ServiceAccount) (raw : String)
      → Keeps (Of Q) (enrolled caller account raw)
  unfolding insert_service
  enrolled-Keeps caller account raw =
      bind-Keeps (Of Q) _ _ (stored-Keeps (Of Q) _ (each-Keeps (Of Q) _ (λ s h. h))) (λ u.
        bind-Keeps (Of Q) _ _ (log_audit-Keeps (Of Q) _) (λ v. pure-Keeps (Of Q) (account, raw)))

  keyed-Keeps :
      (c : Context) (name id : String) (key : Option (String × String))
      → Keeps (Of Q) (keyed c name id key)
  keyed-Keeps c name id none = raise-Keeps (Of Q) (ServiceAccount × String) _
  keyed-Keeps c name id (some (raw, hash)) = enrolled-Keeps c.caller _ raw

  pub create_service_account-Keeps :
      (c : Context) (name id : String) (key : Option (String × String))
      → Keeps (Of Q) (create_service_account c name id key)
  unfolding create_service_account
  create_service_account-Keeps c name id key = elim (Bool-cases (str_eq c.tenant "")) [
    | inl e ↦ rw e (raise-Keeps (Of Q) (ServiceAccount × String) _)
    | inr e ↦ elim (Bool-cases (str_eq name "")) [
      | inl f ↦ rw (e, f) (raise-Keeps (Of Q) (ServiceAccount × String) _)
      | inr f ↦ rw (e, f) (keyed-Keeps c name id key)
    ]
  ]

  pub list_service_accounts-Keeps : (c : Context) → Keeps (Of Q) (list_service_accounts c)
  unfolding list_service_accounts
  list_service_accounts-Keeps c = elim (Bool-cases (str_eq c.tenant "")) [
    | inl e ↦ rw e (raise-Keeps (Of Q) (List ServiceAccount) _)
    | inr e ↦ rw e (stored-Keeps (Of Q) _ (each-Keeps (Of Q) _ (λ s h. h)))
  ]

  pub revoke_service_account-Keeps :
      (c : Context) (id : String) → Keeps (Of Q) (revoke_service_account c id)
  unfolding revoke_service_account update_services
  revoke_service_account-Keeps c id = elim (Bool-cases (str_eq c.tenant "")) [
    | inl e ↦ rw e (raise-Keeps (Of Q) Unit _)
    | inr e ↦ rw e (
        bind-Keeps (Of Q) _ _ (stored-Keeps (Of Q) _ (each-Keeps (Of Q) _ (λ s h. h))) (λ rows.
          bind-Keeps (Of Q) _ _ (affected-Keeps (Of Q) rows) (λ u. log_audit-Keeps (Of Q) _)))
  ]
