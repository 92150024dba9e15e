-- ===== src/Auth/Untouched.antt =====
-- Operations on tokens change no account (internal/platform/auth/session.go, service.go).
use sannad.Prelude.{
  ℕ, String, Bool, true, false, Option, none, some, List, inl, inr, ◌==◌, not, str_eq,
  if◌then◌else◌, Bool-cases,
}
use sannad.Auth.Database.{
  no_tenant_claim, signing, account_locked, session_revoked, revocation_unavailable, Exec, pure,
  raise, ◌>>=◌, ◌>>◌,
}
use sannad.Auth.Revocation.{Sessions, is_revoked}
use sannad.Auth.Accounts.{Account, Identities}
use sannad.Auth.Tokens.{
  TenantClaims, Session, TokenLibrary, Strategy, in_sessions, validate_claims, check_claims, parse,
  find_account, check_account, validate_for_caller, refresh, delete, delete_parsed, withdraw,
  refuse_revoked, create_for_tenant, sign,
}
use sannad.Auth.Triples.{Keeps, each-Keeps, stored-Keeps, bind-Keeps, pure-Keeps, raise-Keeps}

-- Conditions on the accounts alone.
module _ (Q : List Account → Type 0) where
  abbrev pub Of : Identities → Type 0
  Of t = Q t.accounts

  pub in_sessions-Keeps : {A : Type 0} (m : Exec Sessions A) → Keeps Of (in_sessions m)
  in_sessions-Keeps m = each-Keeps Of _ (λ s h. h)

  pub refuse_revoked-Keeps : (b : Bool) → Keeps Of (refuse_revoked b)
  refuse_revoked-Keeps true = raise-Keeps Of Unit _
  refuse_revoked-Keeps false = pure-Keeps Of tt

  pub check_claims-Keeps :
      (st : Strategy) (now : ℕ) (parsed : Option TenantClaims)
      → Keeps Of (check_claims st now parsed)
  unfolding check_claims
  check_claims-Keeps st now none = raise-Keeps Of TenantClaims _
  check_claims-Keeps st now (some claims) = go (str_eq claims.tenant_id "") st.has_revocations
    where
      go :
          (b r : Bool)
          → Keeps Of (
              if b
              then raise no_tenant_claim
              else if r
              then (do
                revoked ← in_sessions (is_revoked claims.session_id now now)
                refuse_revoked revoked
                pure claims)
              else pure claims)
      go true r = raise-Keeps Of TenantClaims _
      go false true =
          bind-Keeps Of _ _ (in_sessions-Keeps (is_revoked claims.session_id now now)) (λ revoked.
            bind-Keeps Of _ _ (refuse_revoked-Keeps revoked) (λ u. pure-Keeps Of claims))
      go false false = pure-Keeps Of claims

  find_account-Keeps : (id : String) → Keeps Of (find_account id)
  unfolding find_account
  find_account-Keeps id = stored-Keeps Of _ (each-Keeps Of _ (λ s h. h))

  check_account-Keeps :
      (claims : TenantClaims) (row : Option Account) → Keeps Of (check_account claims row)
  unfolding check_account
  check_account-Keeps claims none = pure-Keeps Of _
  check_account-Keeps claims (some a) = go a.active (a.token_version == claims.token_version)
    where
      go :
          (b c : Bool)
          → Keeps Of {A = String × String} (
              if not b
              then raise account_locked
              else if c
              then pure (claims.subject, claims.tenant_id)
              else raise session_revoked)
      go false c = raise-Keeps Of (String × String) _
      go true true = pure-Keeps Of _
      go true false = raise-Keeps Of (String × String) _

  pub validate_for_caller-Keeps :
      (l : TokenLibrary) (st : Strategy) (now : ℕ) (token : String)
      → Keeps Of (validate_for_caller l st now token)
  unfolding validate_for_caller validate_claims
  validate_for_caller-Keeps l st now token =
      bind-Keeps Of _ _ (check_claims-Keeps st now (parse l st now token)) (λ claims.
        bind-Keeps Of _ _ (find_account-Keeps claims.subject) (check_account-Keeps claims))

  sign-Keeps :
      (l : TokenLibrary) (st : Strategy) (claims : TenantClaims) → Keeps Of (sign l st claims)
  unfolding sign
  sign-Keeps l st claims = go (l.signed_string claims st.secret)
    where
      go :
          (r : Option String)
          → Keeps Of (elim r as (λ x. Exec Identities String) [
            | none ↦ raise signing
            | some token ↦ pure token
          ])
      go none = raise-Keeps Of String _
      go (some token) = pure-Keeps Of token

  pub create_for_tenant-Keeps :
      (l : TokenLibrary) (st : Strategy) (now : ℕ) (session identity tenant : String) (version : ℕ)
      → Keeps Of (create_for_tenant l st now session identity tenant version)
  unfolding create_for_tenant
  create_for_tenant-Keeps l st now session identity tenant version =
      elim (Bool-cases (str_eq tenant "")) [
        | inl e ↦ rw e (raise-Keeps Of Session _)
        | inr e ↦ rw e (
            bind-Keeps Of _ _ (sign-Keeps l st _)
              (λ access. bind-Keeps Of _ _ (sign-Keeps l st _) (λ refreshed. pure-Keeps Of _)))
      ]

  pub refresh-Keeps :
      (l : TokenLibrary) (st : Strategy) (now : ℕ) (token : String)
      → Keeps Of (refresh l st now token)
  unfolding refresh
  refresh-Keeps l st now token =
      bind-Keeps Of _ _ (check_claims-Keeps st now (parse l st now token))
        (λ claims. create_for_tenant-Keeps l st now _ _ _ _)

  delete_parsed-Keeps :
      (st : Strategy) (now : ℕ) (parsed : Option TenantClaims)
      → Keeps Of (delete_parsed st now parsed)
  delete_parsed-Keeps st now none = raise-Keeps Of Unit _
  delete_parsed-Keeps st now (some claims) = elim (Bool-cases (str_eq claims.session_id "")) [
    | inl e ↦ rw e (raise-Keeps Of Unit _)
    | inr e ↦ rw e (in_sessions-Keeps (withdraw st now claims))
  ]

  pub delete-Keeps :
      (l : TokenLibrary) (st : Strategy) (now : ℕ) (token : String)
      → Keeps Of (delete l st now token)
  unfolding delete
  delete-Keeps l st now token = go st.has_revocations
    where
      go :
          (b : Bool)
          → Keeps Of (
              if b
              then delete_parsed st now (parse l st now token)
              else raise revocation_unavailable)
      go true = delete_parsed-Keeps st now (parse l st now token)
      go false = raise-Keeps Of Unit _
