-- ===== src/Auth/Login.antt =====
-- Logins (Login of internal/platform/auth/service.go, LoginWithAPIKey of service_account.go). The
-- comparison of a password with a hash and the strategy that authenticates an API key are of the
-- identity library and are arguments; the comparison that only spends time is left out.
use sannad.Prelude.{ℕ, String, Bool, Option, none, some, ◌&&◌, str_eq, if◌then◌else◌}
use sannad.Prelude.Tables.{first}
use sannad.Auth.Database.{
  Db, Result, no_tenant, invalid_credentials, account_locked, ok, err, Exec, pure, raise, ◌>>=◌,
  ◌>>◌, stored, log_audit,
}
use sannad.Auth.Accounts.{Account, ServiceAccount, Identities, find_by_key_hash}
use sannad.Auth.Tokens.{TokenLibrary, Strategy, Session, create_for_tenant}

pub record LoginResult : Type 0 where
  pub access_token : String
  pub refresh_token : String
  pub subject : String
  pub tenant_id : String

abbrev pub login_result : String → String → Session → LoginResult
login_result subject tenant session = record {
  access_token = session.access;
  refresh_token = session.refresh;
  subject = subject;
  tenant_id = tenant;
}

abbrev pub logged : String → String → String → Exec Identities (Unit {0})
logged event tenant subject =
    log_audit (record { event = event; tenant = tenant; actor = subject; subject = subject })

abbrev pub registered : String → String → Account → Bool
registered tenant email a = str_eq a.tenant_id tenant && str_eq a.email email

unfoldable pub find_registered : String → String → Exec Identities (Option Account)
unfolding stored first
find_registered tenant email =
    stored (λ s. (ok (first (registered tenant email) s.tables.accounts), s))

module _ (compare : String → String → Bool) (l : TokenLibrary) (st : Strategy) where
  -- The identifier of the session is given.
  unfoldable pub admit : ℕ → String → String → String → Option Account → Exec Identities LoginResult
  unfolding log_audit create_for_tenant
  admit now session tenant password none =
      logged "EventLoginFailure" tenant "" >> raise invalid_credentials
  admit now session tenant password (some a) =
      if compare password a.password_hash
      then if a.active
        then (do
          issued ← create_for_tenant l st now session a.id a.tenant_id a.token_version
          logged "EventLoginSuccess" tenant a.id
          pure (login_result a.id a.tenant_id issued))
        else logged "EventLoginBlocked" tenant a.id >> raise account_locked
      else logged "EventLoginFailure" tenant a.id >> raise invalid_credentials

  unfoldable pub login : ℕ → String → String → String → String → Exec Identities LoginResult
  unfolding find_registered admit
  login now session tenant email password =
      if str_eq tenant ""
      then raise no_tenant
      else (do row ← find_registered tenant email; admit now session tenant password row)

module _
    (authenticate : (String → Exec Identities (Option ServiceAccount))
      → String
      → Exec Identities ServiceAccount)
    (l : TokenLibrary) (st : Strategy) where
  abbrev pub authenticated :
      ℕ → String → Result ServiceAccount × Db Identities → Result LoginResult × Db Identities
  authenticated now session (err e, s) =
      (logged "EventLoginFailure" "" "" >> raise invalid_credentials) s
  authenticated now session (ok a, s) =
      (do
        issued ← create_for_tenant l st now session a.id a.tenant_id 0
        logged "EventLoginSuccess" a.tenant_id a.id
        pure (login_result a.id a.tenant_id issued))
        s

  unfoldable pub login_with_api_key : ℕ → String → String → Exec Identities LoginResult
  unfolding find_by_key_hash log_audit create_for_tenant
  login_with_api_key now session key s =
      authenticated now session (authenticate find_by_key_hash key s)
