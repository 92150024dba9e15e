-- ===== src/Auth/Refused.antt =====
-- A token that was issued before its account was locked is refused from then on, whatever
-- operations follow (internal/platform/auth/admin.go, session.go, service.go).
use mathlib.Core.Path.{subst}
use sannad.Prelude.{
  ℕ, String, Bool, true, false, Option, none, some, List, ◌≡◌, ◌≢◌, refl, sym, ◌==◌, leb, not,
  arith, str_eq, if◌then◌else◌,
}
use sannad.Prelude.Tables.{first}
use sannad.Auth.Database.{
  Db, Context, no_tenant_claim, account_locked, session_revoked, ok, pure, raise, ◌>>=◌, ◌>>◌,
}
use sannad.Auth.Revocation.{is_revoked}
use sannad.Auth.Accounts.{Account, Identities, has_id, lock_account}
use sannad.Auth.Tokens.{
  TenantClaims, TokenLibrary, Strategy, in_sessions, validate_claims, check_claims, parse,
  find_account, check_account, validate_for_caller, refuse_revoked,
}
use sannad.Auth.Triples.{
  Leads, each-Leads, raise-Leads, pure-Leads, stored-Leads, bind-Leads, both-Leads,
}
use sannad.Auth.Untouched.{check_claims-Keeps}
use sannad.Auth.Locked.{IsPast, Past}
use sannad.Auth.Afterwards.{Service, Operation, operate_each, operate_each-IsPast}
use sannad.Auth.Locking.{lock_account-Leads}

-- Claims that are parsed are those that a check returns.
check_claims-Leads :
    (P : Identities → Type 0) (st : Strategy) (now : ℕ) (claims : TenantClaims)
    → Leads P (check_claims st now (some claims)) (λ result t. result ≡ claims)
unfolding check_claims
check_claims-Leads P st now claims = go (str_eq claims.tenant_id "") st.has_revocations
  where
    same : (R : Identities → Type 0) → Leads R (pure claims) (λ result t. result ≡ claims)
    same R = pure-Leads R claims _ (λ t h. refl)

    go :
        (b r : Bool)
        → Leads P
            (if b
              then raise no_tenant_claim
              else if r
              then (do
                revoked ← in_sessions (is_revoked claims.session_id now now)
                refuse_revoked revoked
                pure claims)
              else pure claims)
            (λ result t. result ≡ claims)
    go true r = raise-Leads P _ _
    go false true =
        bind-Leads P _ _ (λ revoked t. Unit) _
          (each-Leads P (in_sessions (is_revoked claims.session_id now now)) _ (λ s h a done. tt))
          (λ revoked.
            bind-Leads _ _ _ (λ u t. Unit) _
              (each-Leads _ (refuse_revoked revoked) _ (λ s h a done. tt)) (λ u. same _))
    go false false = same P

module _ (id : String) (version : ℕ) where
  check_account-refuses :
      (claims : TenantClaims) (row : Option Account) (P : Identities → Type 0)
      → ((t : Identities) → P t → (leb claims.token_version version ≡ true) × Past id version row)
      → Leads P (check_account claims row) (λ caller t. false ≡ true)
  unfolding check_account
  check_account-refuses claims none P past =
      pure-Leads P (claims.subject, claims.tenant_id) _ (λ t h. (past t h).1)
  check_account-refuses claims (some a) P past = each-Leads P _ _ (λ s h.
      go a.active (a.token_version == claims.token_version) refl (past s.tables h).0
        (past s.tables h).1 s)
    where
      go :
          (b c : Bool)
          → (a.token_version == claims.token_version) ≡ c
          → leb claims.token_version version ≡ true
          → leb a.token_version version ≡ false
          → (s : Db Identities) (caller : String × String)
          → ((if not b
                then raise account_locked
                else if c
                then pure (claims.subject, claims.tenant_id)
                else raise session_revoked)
              s).0
            ≡ ok caller
          → false ≡ true
      go false c e old later s caller done = absurd (cc done)
      go true true e old later s caller done = ground (arith, e, later, old)
      go true false e old later s caller done = absurd (cc done)

  find_account-Leads :
      (claims result : TenantClaims)
      → claims.subject ≡ id
      → leb claims.token_version version ≡ true
      → Leads
          (λ t. (result ≡ claims) × IsPast id version t)
          (find_account result.subject)
          (λ row t. (leb result.token_version version ≡ true) × Past id version row)
  unfolding find_account
  find_account-Leads claims result subject old = stored-Leads _ _ _ (
      each-Leads _ _ _ (λ s h row done. (
        subst (λ x. leb x.token_version version ≡ true) (sym h.0) old,
        subst (Past id version) (cc (done, named (h.0))) h.1,
      )))
    where
      named : result ≡ claims → result.subject ≡ id
      named same = subst (λ x. x.subject ≡ id) (sym same) subject

  validate_for_caller-refuses :
      (l : TokenLibrary) (st : Strategy) (now : ℕ) (token : String) (claims : TenantClaims)
      → parse l st now token ≡ some claims
      → claims.subject ≡ id
      → leb claims.token_version version ≡ true
      → Leads (IsPast id version) (validate_for_caller l st now token) (λ caller t. false ≡ true)
  unfolding validate_for_caller validate_claims
  validate_for_caller-refuses l st now token claims parsed subject old = rw parsed (
      bind-Leads (IsPast id version) (check_claims st now (some claims)) _
        (λ result t. (result ≡ claims) × IsPast id version t) _
        (both-Leads (IsPast id version) _ _ (check_claims-Leads (IsPast id version) st now claims) (
          check_claims-Keeps (λ rows. Past id version (first (has_id id) rows)) st now
            (some claims)))
        validated)
    where
      validated :
          (result : TenantClaims)
          → Leads
              (λ t. (result ≡ claims) × IsPast id version t)
              (do account ← find_account result.subject; check_account result account)
              (λ caller t. false ≡ true)
      validated result =
          bind-Leads _ _ _ _ _ (find_account-Leads claims result subject old)
            (λ row. check_account-refuses result row _ (λ t h. h))

-- After an account was locked, and any operations of these kinds, one after another, in which calls
-- of the database may fail: locking, unlocking, revoking the sessions of and deleting accounts;
-- logging in with a password, validating and refreshing tokens and logging out; and creating,
-- listing and revoking service accounts. Then a token of the account whose version is not above the
-- version that the account had when it was locked is not accepted: no caller is returned for it.
-- The account is the one that its identifier finds, and is of the tenant of the context.
pub lock_account-validate_for_caller :
    (service : Service) (c : Context) (account : Account) (s : Db Identities)
    (operations : List Operation) (now : ℕ) (token : String) (claims : TenantClaims)
    → first (has_id account.id) s.tables.accounts ≡ some account
    → account.tenant_id ≡ c.tenant
    → (lock_account c account.id s).0 ≡ ok tt
    → parse service.tokens service.strategy now token ≡ some claims
    → claims.subject ≡ account.id
    → leb claims.token_version account.token_version ≡ true
    → (caller : String × String)
    → (validate_for_caller service.tokens service.strategy now token
        (operate_each service operations (lock_account c account.id s).1)).0
      ≢ ok caller
unfolding Leads
lock_account-validate_for_caller service c account s operations now token claims there own locked
      parsed subject old caller done =
    absurd (
      cc (
        validate_for_caller-refuses account.id account.token_version service.tokens service.strategy
          now token claims parsed subject old _
          (operate_each-IsPast account.id account.token_version service operations _ (
            lock_account-Leads account.id account.token_version c account (ground arith) own s there
              tt locked))
          caller done))
