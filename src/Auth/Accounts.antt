-- ===== src/Auth/Accounts.antt =====
-- Admin operations on accounts (internal/platform/auth/admin.go, identity.go) and service accounts
-- (internal/platform/auth/service_account.go). The count of a token version does not wrap around. An
-- event that the audit library names is written by the name of its constant.
use sannad.Prelude.{
  ℕ, String, Bool, true, false, Option, none, some, List, [], ◌∷◌, ◌++◌, ◌+◌, ◌&&◌, ◌==◌, length,
  str_eq, if◌then◌else◌,
}
use sannad.Prelude.Tables.{select, first, update}
use sannad.Auth.Database.{
  no_tenant, not_found, unnamed_account, key_generation, Context, ok, Exec, pure, raise, ◌>>=◌,
  ◌>>◌, stored, log_audit,
}
use sannad.Auth.Roles.{RoleAssignment}
use sannad.Auth.Revocation.{Sessions}

-- Traits are left out.
pub record Account : Type 0 where
  pub id : String
  pub tenant_id : String
  pub email : String
  pub password_hash : String
  pub active : Bool
  pub token_version : ℕ

pub record ServiceAccount : Type 0 where
  pub id : String
  pub tenant_id : String
  pub name : String
  pub api_key_hash : String
  pub active : Bool

-- What an identity provider's name for a person leads to: a row of oidc_identities or of
-- saml_identities.
pub record IdentityLink : Type 0 where
  pub provider : String
  pub subject : String
  pub account_id : String

-- The tables of accounts and of what names them, and the revocation store.
pub record Identities : Type 0 where
  pub accounts : List Account
  pub services : List ServiceAccount
  pub roles : List RoleAssignment
  pub oidc_links : List IdentityLink
  pub saml_links : List IdentityLink
  pub sessions : Sessions

abbrev pub has_id : String → Account → Bool
has_id id a = str_eq a.id id

abbrev pub owned : String → String → Account → Bool
owned id tenant a = str_eq a.id id && str_eq a.tenant_id tenant

abbrev pub found : String → Option Account → Exec Identities String
found tenant (some a) = pure tenant
found tenant none = raise not_found

unfoldable pub tenant_of_account : Context → String → Exec Identities String
unfolding stored first
tenant_of_account c id = if str_eq c.tenant "" then raise no_tenant else (do
  row ← stored (λ s. (ok (first (owned id c.tenant) s.tables.accounts), s))
  found c.tenant row)

-- An update of the rows that a condition selects; its answer is the number of them.
unfoldable pub update_accounts : (Account → Bool) → (Account → Account) → Exec Identities ℕ
unfolding stored select update
update_accounts p f = stored (λ s. (
  ok (length (select p s.tables.accounts)),
  record s { tables = record s.tables { accounts = update p f s.tables.accounts } },
))

abbrev pub affected : ℕ → Exec Identities (Unit {0})
affected rows = if rows == 0 then raise not_found else pure tt

abbrev pub set_active : Bool → Account → Account
set_active true a = record a { active = true }
set_active false a = record a { active = false; token_version = a.token_version + 1 }

unfoldable pub set_account_lock : Context → String → Bool → String → Exec Identities (Unit {0})
unfolding tenant_of_account update_accounts log_audit
set_account_lock c id active event = do
  tenant ← tenant_of_account c id
  rows ← update_accounts (owned id tenant) (set_active active)
  affected rows
  log_audit (record { event = event; tenant = tenant; actor = c.caller; subject = id })

abbrev pub lock_account : Context → String → Exec Identities (Unit {0})
lock_account c id = set_account_lock c id false "EventUserSuspended"

abbrev pub unlock_account : Context → String → Exec Identities (Unit {0})
unlock_account c id = set_account_lock c id true "EventUserActivated"

abbrev pub bump : Account → Account
bump a = record a { token_version = a.token_version + 1 }

unfoldable pub revoke_all_sessions : Context → String → Exec Identities (Unit {0})
unfolding tenant_of_account update_accounts log_audit
revoke_all_sessions c id = do
  tenant ← tenant_of_account c id
  rows ← update_accounts (owned id tenant) bump
  affected rows
  log_audit
      (record { event = "EventSessionRevoked"; tenant = tenant; actor = c.caller; subject = id })

abbrev pub by_key : String → ServiceAccount → Bool
by_key hash a = str_eq a.api_key_hash hash && a.active

unfoldable pub find_by_key_hash : String → Exec Identities (Option ServiceAccount)
unfolding stored first
find_by_key_hash hash = stored (λ s. (ok (first (by_key hash) s.tables.services), s))

unfoldable pub insert_service : ServiceAccount → Exec Identities (Unit {0})
unfolding stored
insert_service a =
    stored (λ s.
      (ok tt, record s { tables = record s.tables { services = s.tables.services ++ a ∷ [] } }))

abbrev pub enrolled : String → ServiceAccount → String → Exec Identities (ServiceAccount × String)
enrolled caller account raw = do
  insert_service account
  log_audit (record {
    event = "service_account.created";
    tenant = account.tenant_id;
    actor = caller;
    subject = account.id;
  })
  pure (account, raw)

-- The generated key, if any, is the raw key and its hash.
abbrev pub keyed :
    Context → String → String → Option (String × String) → Exec Identities (ServiceAccount × String)
keyed c name id none = raise key_generation
keyed c name id (some (raw, hash)) =
    enrolled c.caller
      (record { id = id; tenant_id = c.tenant; name = name; api_key_hash = hash; active = true })
      raw

unfoldable pub create_service_account :
    Context → String → String → Option (String × String) → Exec Identities (ServiceAccount × String)
unfolding insert_service log_audit
create_service_account c name id key =
    if str_eq c.tenant ""
    then raise no_tenant
    else if str_eq name ""
    then raise unnamed_account
    else keyed c name id key

unfoldable pub list_service_accounts : Context → Exec Identities (List ServiceAccount)
unfolding stored select
list_service_accounts c =
    if str_eq c.tenant ""
    then raise no_tenant
    else stored (λ s. (ok (select (λ a. str_eq a.tenant_id c.tenant) s.tables.services), s))

abbrev pub owned_service : String → String → ServiceAccount → Bool
owned_service id tenant a = str_eq a.id id && str_eq a.tenant_id tenant

abbrev deactivate : ServiceAccount → ServiceAccount
deactivate a = record a { active = false }

unfoldable pub update_services : String → String → Exec Identities ℕ
unfolding stored select update
update_services id tenant = stored (λ s. (
  ok (length (select (owned_service id tenant) s.tables.services)),
  record s {
    tables = record s.tables {
      services = update (owned_service id tenant) deactivate s.tables.services;
    };
  },
))

unfoldable pub revoke_service_account : Context → String → Exec Identities (Unit {0})
unfolding update_services log_audit
revoke_service_account c id = if str_eq c.tenant "" then raise no_tenant else (do
  rows ← update_services id c.tenant
  affected rows
  log_audit (record {
    event = "service_account.revoked";
    tenant = c.tenant;
    actor = c.caller;
    subject = id;
  }))
