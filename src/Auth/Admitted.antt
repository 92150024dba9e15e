-- ===== src/Auth/Admitted.antt =====
-- Whom a login admits (Login of internal/platform/auth/service.go).
use mathlib.Core.Path.{subst}
use sannad.Prelude.{
  ℕ, String, Bool, true, false, Option, none, some, List, [], ◌∷◌, eq_iff, arith, ◌≡◌, refl, sym,
  str_eq, if◌then◌else◌, Bool-cases, inl, inr,
}
use sannad.Prelude.Tables.{first, Member}
use sannad.Auth.Database.{
  Db, Error, invalid_credentials, account_locked, ok, Exec, pure, raise, ◌>>=◌, ◌>>◌,
}
use sannad.Auth.Accounts.{Account, Identities}
use sannad.Auth.Tokens.{TokenLibrary, Strategy, create_for_tenant}
use sannad.Auth.Login.{LoginResult, login_result, logged, registered, find_registered, admit, login}
use sannad.Auth.Triples.{
  Leads, at-Leads, each-Leads, raise-Leads, pure-Leads, stored-Leads, bind-Leads,
}

first-registered :
    (tenant email : String) (rows : List Account) (a : Account)
    → first (registered tenant email) rows ≡ some a
    → Member a rows × (a.tenant_id ≡ tenant) × (a.email ≡ email)
unfolding first
first-registered tenant email [] a h = absurd (cc h)
first-registered tenant email (x ∷ xs) a h = elim (Bool-cases (registered tenant email x)) [
  | inl e ↦
      let same : a ≡ x = ground (arith, e, h) in
      (
        inl same,
        rw same (ground (arith, e, eq_iff x.tenant_id tenant)),
        rw same (ground (arith, e, eq_iff x.email email)),
      )
  | inr e ↦
      let (member, owner, email_of) = first-registered tenant email xs a (ground (arith, e, h)) in
      (inr member, owner, email_of)
]

module _ (compare : String → String → Bool) (l : TokenLibrary) (st : Strategy)
    (password : String) where
  -- Whom a login may admit: an account whose hash the password matches, and that is not locked.
  abbrev Admits : Option Account → LoginResult → Type 0
  Admits none r = false ≡ true
  Admits (some a) r =
      (compare password a.password_hash ≡ true)
      × (a.active ≡ true)
      × (r.subject ≡ a.id)
      × (r.tenant_id ≡ a.tenant_id)

  denied :
      (P : Identities → Type 0) (event tenant subject : String) (e : Error)
      (Q : LoginResult → Identities → Type 0)
      → Leads P (logged event tenant subject >> raise {A = LoginResult} e) Q
  denied P event tenant subject e Q =
      bind-Leads P (logged event tenant subject) (λ u. raise e) (λ u t. Unit) Q
        (each-Leads P (logged event tenant subject) _ (λ s h a done. tt)) (λ u. raise-Leads _ e Q)

  admit-Admits :
      (now : ℕ) (session tenant : String) (row : Option Account) (P : Identities → Type 0)
      → Leads P (admit compare l st now session tenant password row) (λ r t. Admits row r)
  unfolding admit
  admit-Admits now session tenant none P =
      denied P "EventLoginFailure" tenant "" invalid_credentials _
  admit-Admits now session tenant (some a) P =
      go (compare password a.password_hash) a.active refl refl
    where
      Tail : Exec Identities LoginResult → Type 0
      Tail m = Leads P m (λ r t. Admits (some a) r)

      go :
          (b c : Bool)
          → compare password a.password_hash ≡ b
          → a.active ≡ c
          → Tail (
              if b
              then if c
                then (do
                  issued ← create_for_tenant l st now session a.id a.tenant_id a.token_version
                  logged "EventLoginSuccess" tenant a.id
                  pure (login_result a.id a.tenant_id issued))
                else logged "EventLoginBlocked" tenant a.id >> raise account_locked
              else logged "EventLoginFailure" tenant a.id >> raise invalid_credentials)
      go false c e f = denied P "EventLoginFailure" tenant a.id invalid_credentials _
      go true false e f = denied P "EventLoginBlocked" tenant a.id account_locked _
      go true true e f =
          bind-Leads P (create_for_tenant l st now session a.id a.tenant_id a.token_version) _
            (λ issued t. Unit) _
            (each-Leads P (create_for_tenant l st now session a.id a.tenant_id a.token_version) _
              (λ s h x done. tt))
            (λ issued.
              bind-Leads _ (logged "EventLoginSuccess" tenant a.id) _ (λ u t. Unit) _
                (each-Leads _ (logged "EventLoginSuccess" tenant a.id) _ (λ s h x done. tt))
                (λ u.
                  pure-Leads _ (login_result a.id a.tenant_id issued) _
                    (λ t h. (e, f, refl, refl))))

  find_registered-Leads :
      (tenant email : String) (rows : List Account)
      → Leads
          (λ t. t.accounts ≡ rows)
          (find_registered tenant email)
          (λ row t. first (registered tenant email) rows ≡ row)
  unfolding find_registered
  find_registered-Leads tenant email rows =
      stored-Leads _ _ _ (each-Leads _ _ _ (λ s h row done. cc (done, h)))

  login-Leads :
      (now : ℕ) (session tenant email : String) (rows : List Account)
      → Leads
          (λ t. t.accounts ≡ rows)
          (login compare l st now session tenant email password)
          (λ r t. Admits (first (registered tenant email) rows) r)
  unfolding login
  login-Leads now session tenant email rows = elim (Bool-cases (str_eq tenant "")) [
    | inl e ↦ rw e (raise-Leads _ _ _)
    | inr e ↦ rw e (
        bind-Leads _ _ _ _ _ (find_registered-Leads tenant email rows) (λ row.
          each-Leads _ _ _ (λ s h r done.
            subst (λ x. Admits x r) (sym h)
              (at-Leads (λ t. Unit) (admit compare l st now session tenant password row) _
                (admit-Admits now session tenant row (λ t. Unit)) s tt r done))))
  ]

  -- A login within a tenant that succeeds is of an account of the table that is of that tenant and
  -- has the address that was given; the password matches its hash, it is not locked, and the result
  -- names its identifier and that tenant.
  pub login-Admits :
      (now : ℕ) (session tenant email : String) (s : Db Identities) (r : LoginResult)
      → (login compare l st now session tenant email password s).0 ≡ ok r
      → (a : Account) × Member a s.tables.accounts
        × (a.tenant_id ≡ tenant)
        × (a.email ≡ email)
        × (compare password a.password_hash ≡ true)
        × (a.active ≡ true)
        × (r.subject ≡ a.id)
        × (r.tenant_id ≡ tenant)
  login-Admits now session tenant email s r done =
      go (first (registered tenant email) s.tables.accounts) refl (
        at-Leads _ (login compare l st now session tenant email password) _
          (login-Leads now session tenant email s.tables.accounts) s refl r done)
    where
      go :
          (row : Option Account)
          → first (registered tenant email) s.tables.accounts ≡ row
          → Admits row r
          → (a : Account) × Member a s.tables.accounts
            × (a.tenant_id ≡ tenant)
            × (a.email ≡ email)
            × (compare password a.password_hash ≡ true)
            × (a.active ≡ true)
            × (r.subject ≡ a.id)
            × (r.tenant_id ≡ tenant)
      go none e admitted = absurd (cc admitted)
      go (some a) e (matches, live, subject, owner) =
          let (member, its_tenant, its_email) =
            first-registered tenant email s.tables.accounts a e in
          (a, member, its_tenant, its_email, matches, live, subject, cc (owner, its_tenant))
