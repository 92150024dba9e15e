-- ===== src/Auth/Erasure.antt =====
-- The erasure of an account's personal data (DeleteAccount of internal/platform/auth/gdpr.go). The
-- address that replaces the account's, with a new identifier in it, is given, and the hash that no
-- password has.
use sannad.Prelude.{String, Bool, false, ◌+◌, str_eq}
use sannad.Prelude.Tables.{remove}
use sannad.Auth.Database.{Context, ok, Exec, ◌>>=◌, ◌>>◌, stored, transact, log_audit}
use sannad.Auth.Roles.{held_by}
use sannad.Auth.Accounts.{
  Account, IdentityLink, Identities, owned, tenant_of_account, update_accounts, affected,
}

abbrev pub erased : String → String → Account → Account
erased email hash a = record a {
  email = email;
  password_hash = hash;
  active = false;
  token_version = a.token_version + 1;
}

unfoldable pub delete_roles : String → String → Exec Identities (Unit {0})
unfolding stored remove
delete_roles tenant id = stored (λ s. (
  ok tt,
  record s { tables = record s.tables { roles = remove (held_by tenant id) s.tables.roles } },
))

abbrev links_to : String → IdentityLink → Bool
links_to id link = str_eq link.account_id id

unfoldable pub delete_links : String → Exec Identities (Unit {0})
unfolding stored remove
delete_links id =
    stored (λ s. (
      ok tt,
      record s {
        tables = record s.tables { oidc_links = remove (links_to id) s.tables.oidc_links };
      },
    ))
    >> stored (λ s. (
      ok tt,
      record s {
        tables = record s.tables { saml_links = remove (links_to id) s.tables.saml_links };
      },
    ))

abbrev pub erase : String → String → String → String → Exec Identities (Unit {0})
erase email hash id tenant = do
  rows ← update_accounts (owned id tenant) (erased email hash)
  affected rows
  delete_roles tenant id
  delete_links id

unfoldable pub delete_account : String → String → Context → String → Exec Identities (Unit {0})
unfolding tenant_of_account update_accounts delete_roles delete_links transact log_audit
delete_account email hash c id = do
  tenant ← tenant_of_account c id
  transact (erase email hash id tenant)
  log_audit (record { event = "EventUserDeleted"; tenant = tenant; actor = c.caller; subject = id })
