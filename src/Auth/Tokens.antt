-- ===== src/Auth/Tokens.antt =====
-- Signed sessions (internal/platform/auth/session.go) and who a token speaks for
-- (Service.ValidateForCaller of internal/platform/auth/service.go). What the token library makes of
-- a token under a key at a time is an argument, and so is what it signs; times are nanoseconds.
use sannad.Prelude.{
  ℕ, String, Bool, true, false, Option, none, some, List, [], ◌∷◌, ◌+◌, ◌==◌, ltb, not, str_eq,
  if◌then◌else◌,
}
use sannad.Prelude.Tables.{first}
use sannad.Auth.Database.{
  no_tenant_claim, invalid_token, signing, session_revoked, account_locked, revocation_unavailable,
  no_session_id, ok, Exec, pure, raise, ◌>>=◌, ◌>>◌, stored,
}
use sannad.Auth.Revocation.{Sessions, revoke, is_revoked}
use sannad.Auth.Accounts.{Account, Identities, has_id}

-- The times of issue and of expiry are registered claims.
pub record TenantClaims : Type 0 where
  pub session_id : String
  pub tenant_id : String
  pub token_version : ℕ
  pub subject : String
  pub issued_at : ℕ
  pub expires_at : ℕ

-- TenantJWTStrategy
pub record Strategy : Type 0 where
  pub secret : String
  pub expiry : ℕ
  pub refresh_expiry : ℕ
  pub previous_secrets : List String
  pub has_revocations : Bool

-- jwt.ParseWithClaims of HS256, and SignedString.
pub record TokenLibrary : Type 0 where
  pub parse_with_key : ℕ → String → String → Option TenantClaims
  pub signed_string : TenantClaims → String → Option String

-- identity.Session
pub record Session : Type 0 where
  pub access : String
  pub refresh : String
  pub identity_id : String
  pub expires_at : ℕ
  pub refresh_expires_at : ℕ
  pub issued_at : ℕ

unfoldable pub try_keys : TokenLibrary → ℕ → String → List String → Option TenantClaims
try_keys l now token [] = none
try_keys l now token (key ∷ keys) = elim (l.parse_with_key now token key) [
  | none ↦ try_keys l now token keys
  | some claims ↦ some claims
]

unfoldable pub parse : TokenLibrary → Strategy → ℕ → String → Option TenantClaims
unfolding try_keys
parse l st now token = try_keys l now token (st.secret ∷ st.previous_secrets)

-- A call of the revocation store.
abbrev pub in_sessions : {A : Type 0} → Exec Sessions A → Exec Identities A
in_sessions m s =
    let r = m (record { tables = s.tables.sessions; audit = s.audit; faults = s.faults }) in
    (
      r.0,
      record {
        tables = record s.tables { sessions = r.1.tables };
        audit = r.1.audit;
        faults = r.1.faults;
      },
    )

abbrev pub refuse_revoked : Bool → Exec Identities (Unit {0})
refuse_revoked true = raise session_revoked
refuse_revoked false = pure tt

-- What ValidateClaims and Refresh both check of the claims of a token.
unfoldable pub check_claims : Strategy → ℕ → Option TenantClaims → Exec Identities TenantClaims
unfolding is_revoked
check_claims st now none = raise invalid_token
check_claims st now (some claims) =
    if str_eq claims.tenant_id ""
    then raise no_tenant_claim
    else if st.has_revocations
    then (do
      revoked ← in_sessions (is_revoked claims.session_id now now)
      refuse_revoked revoked
      pure claims)
    else pure claims

unfoldable pub validate_claims : TokenLibrary → Strategy → ℕ → String → Exec Identities TenantClaims
unfolding parse check_claims
validate_claims l st now token = check_claims st now (parse l st now token)

unfoldable pub sign : TokenLibrary → Strategy → TenantClaims → Exec Identities String
sign l st claims = elim (l.signed_string claims st.secret) [
  | none ↦ raise signing
  | some token ↦ pure token
]

unfoldable pub create_for_tenant :
    TokenLibrary → Strategy → ℕ → String → String → String → ℕ → Exec Identities Session
unfolding sign
create_for_tenant l st now session_id identity_id tenant version =
    if str_eq tenant ""
    then raise no_tenant_claim
    else (let claims : ℕ → TenantClaims = λ expires. record {
      session_id = session_id;
      tenant_id = tenant;
      token_version = version;
      subject = identity_id;
      issued_at = now;
      expires_at = expires;
    } in
        do
          access ← sign l st (claims (now + st.expiry))
          refresh ← sign l st (claims (now + st.refresh_expiry))
          pure (record {
            access = access;
            refresh = refresh;
            identity_id = identity_id;
            expires_at = now + st.expiry;
            refresh_expires_at = now + st.refresh_expiry;
            issued_at = now;
          }))

unfoldable pub refresh : TokenLibrary → Strategy → ℕ → String → Exec Identities Session
unfolding parse check_claims create_for_tenant
refresh l st now token = do
  claims ← check_claims st now (parse l st now token)
  create_for_tenant l st now claims.session_id claims.subject claims.tenant_id claims.token_version

-- The later of the two deadlines of a refresh token.
abbrev pub deadline : Strategy → ℕ → TenantClaims → ℕ
deadline st now claims =
    if ltb (now + st.refresh_expiry) (claims.issued_at + st.refresh_expiry)
    then claims.issued_at + st.refresh_expiry
    else now + st.refresh_expiry

abbrev pub withdraw : Strategy → ℕ → TenantClaims → Exec Sessions (Unit {0})
withdraw st now claims =
    revoke
      (record {
        session_id = claims.session_id;
        tenant_id = claims.tenant_id;
        expires_at = deadline st now claims;
        revoked_at = now;
        reason = "logout";
      })
      now

abbrev pub delete_parsed : Strategy → ℕ → Option TenantClaims → Exec Identities (Unit {0})
delete_parsed st now none = raise invalid_token
delete_parsed st now (some claims) =
    if str_eq claims.session_id ""
    then raise no_session_id
    else in_sessions (withdraw st now claims)

unfoldable pub delete : TokenLibrary → Strategy → ℕ → String → Exec Identities (Unit {0})
unfolding parse revoke
delete l st now token =
    if st.has_revocations
    then delete_parsed st now (parse l st now token)
    else raise revocation_unavailable

-- A subject without an account is a service account.
unfoldable pub check_account : TenantClaims → Option Account → Exec Identities (String × String)
check_account claims none = pure (claims.subject, claims.tenant_id)
check_account claims (some a) =
    if not a.active
    then raise account_locked
    else if a.token_version == claims.token_version
    then pure (claims.subject, claims.tenant_id)
    else raise session_revoked

unfoldable pub find_account : String → Exec Identities (Option Account)
unfolding stored first
find_account id = stored (λ s. (ok (first (has_id id) s.tables.accounts), s))

unfoldable pub validate_for_caller :
    TokenLibrary → Strategy → ℕ → String → Exec Identities (String × String)
unfolding validate_claims find_account check_account
validate_for_caller l st now token = do
  claims ← validate_claims l st now token
  account ← find_account claims.subject
  check_account claims account
