-- ===== src/Auth/Roles.antt =====
-- Roles and their assignments (internal/platform/auth/rbac.go). Whether a permission follows from
-- roles is decided by the identity library, which is an argument.
use sannad.Prelude.{
  String, Bool, Option, none, some, List, [], ◌∷◌, ◌++◌, ◌&&◌, map, str_eq, if◌then◌else◌,
}
use sannad.Prelude.Tables.{select, remove}
use sannad.Auth.Database.{
  no_tenant, role_not_found, unnamed_role, permission_denied, Context, ok, Exec, pure, raise, ◌>>=◌,
  ◌>>◌, stored, transact, log_audit,
}

pub record RoleAssignment : Type 0 where
  pub tenant_id : String
  pub identity_id : String
  pub role : String

pub record RoleDefinition : Type 0 where
  pub name : String
  pub tenant_id : String
  pub permissions : List String
  pub inherits : List String
  pub description : String

pub record Tables : Type 0 where
  pub assignments : List RoleAssignment
  pub definitions : List RoleDefinition

-- rbac.Role
pub record Role : Type 0 where
  pub name : String
  pub permissions : List String
  pub inherits : List String
  pub description : String

abbrev pub held_by : String → String → RoleAssignment → Bool
held_by tenant identity a = str_eq a.tenant_id tenant && str_eq a.identity_id identity

abbrev pub is_assignment : String → String → String → RoleAssignment → Bool
is_assignment tenant identity role a = held_by tenant identity a && str_eq a.role role

abbrev pub is_definition : String → String → RoleDefinition → Bool
is_definition tenant name d = str_eq d.tenant_id tenant && str_eq d.name name

abbrev pub in_tenant : String → RoleDefinition → Bool
in_tenant tenant d = str_eq d.tenant_id tenant

abbrev role_of : RoleDefinition → Role
role_of d = record {
  name = d.name;
  permissions = d.permissions;
  inherits = d.inherits;
  description = d.description;
}

abbrev pub definition_of : String → Role → RoleDefinition
definition_of tenant role = record {
  name = role.name;
  tenant_id = tenant;
  permissions = role.permissions;
  inherits = role.inherits;
  description = role.description;
}

-- `tenant.IDFromContext(ctx) == ""` is refused.
abbrev pub in_context : {A : Type 0} → Context → Exec Tables A → Exec Tables A
in_context context m = if str_eq context.tenant "" then raise no_tenant else m

unfoldable pub find_assignments : (RoleAssignment → Bool) → Exec Tables (List RoleAssignment)
unfolding stored select
find_assignments p = stored (λ s. (ok (select p s.tables.assignments), s))

unfoldable pub create_assignment : RoleAssignment → Exec Tables (Unit {0})
unfolding stored
create_assignment a = stored (λ s.
    (ok tt, record s { tables = record s.tables { assignments = s.tables.assignments ++ a ∷ [] } }))

unfoldable pub delete_assignments : (RoleAssignment → Bool) → Exec Tables (Unit {0})
unfolding stored remove
delete_assignments p = stored (λ s.
    (ok tt, record s { tables = record s.tables { assignments = remove p s.tables.assignments } }))

unfoldable pub find_definitions : (RoleDefinition → Bool) → Exec Tables (List RoleDefinition)
unfolding stored select
find_definitions p = stored (λ s. (ok (select p s.tables.definitions), s))

unfoldable pub delete_definitions : (RoleDefinition → Bool) → Exec Tables (Unit {0})
unfolding stored remove
delete_definitions p = stored (λ s.
    (ok tt, record s { tables = record s.tables { definitions = remove p s.tables.definitions } }))

unfoldable pub create_definition : RoleDefinition → Exec Tables (Unit {0})
unfolding stored
create_definition d = stored (λ s.
    (ok tt, record s { tables = record s.tables { definitions = s.tables.definitions ++ d ∷ [] } }))

-- Save: the row with the primary key of `d` is replaced, or `d` is inserted.
unfoldable pub save_definition : RoleDefinition → Exec Tables (Unit {0})
unfolding stored remove
save_definition d = stored (λ s.
    let others = remove (is_definition d.tenant_id d.name) s.tables.definitions in
    (ok tt, record s { tables = record s.tables { definitions = others ++ d ∷ [] } }))

unfoldable pub get_identity_roles : Context → String → Exec Tables (List String)
unfolding find_assignments
get_identity_roles context identity =
    in_context context
      (do rows ← find_assignments (held_by context.tenant identity); pure (map (λ a. a.role) rows))

unfoldable pub create_each : String → String → List String → Exec Tables (Unit {0})
unfolding create_assignment
create_each tenant identity [] = pure tt
create_each tenant identity (role ∷ roles) =
    create_assignment (record { tenant_id = tenant; identity_id = identity; role = role })
    >> create_each tenant identity roles

unfoldable pub set_identity_roles : Context → String → List String → Exec Tables (Unit {0})
unfolding transact delete_assignments create_each
set_identity_roles context identity roles = in_context context (
    transact (do
      delete_assignments (held_by context.tenant identity)
      create_each context.tenant identity roles))

-- The first row, or none where there is none.
abbrev pub row_found : {A : Type 0} → List A → Option A
row_found [] = none
row_found (a ∷ rows) = some a

abbrev role_found : Option RoleDefinition → Exec Tables Role
role_found none = raise role_not_found
role_found (some d) = pure (role_of d)

unfoldable pub get_role : Context → String → Exec Tables Role
unfolding find_definitions
get_role context name =
    in_context context
      (do rows ← find_definitions (is_definition context.tenant name); role_found (row_found rows))

abbrev pub saved : Context → Option Role → Exec Tables (Unit {0})
saved context none = raise unnamed_role
saved context (some role) =
    if str_eq role.name ""
    then raise unnamed_role
    else save_definition (definition_of context.tenant role)

unfoldable pub save_role : Context → Option Role → Exec Tables (Unit {0})
unfolding save_definition
save_role context role = in_context context (saved context role)

unfoldable pub delete_role : Context → String → Exec Tables (Unit {0})
unfolding delete_definitions
delete_role context name =
    in_context context (delete_definitions (is_definition context.tenant name))

unfoldable pub list_roles : Context → Exec Tables (List Role)
unfolding find_definitions
list_roles context =
    in_context context
      (do rows ← find_definitions (in_tenant context.tenant); pure (map (λ d. role_of d) rows))

abbrev pub default_role_catalog : List Role
default_role_catalog =
    record {
      name = "owner";
      permissions = "**" ∷ [];
      inherits = [];
      description = "Full access to every kernel-managed resource in this tenant.";
    }
    ∷ record {
      name = "admin";
      permissions = "webhooks:*" ∷ "service_accounts:*" ∷ "roles:*" ∷ [];
      inherits = [];
      description = "Manages webhooks, service accounts, and role assignments.";
    }
    ∷ record {
      name = "member";
      permissions = "webhooks:read" ∷ "service_accounts:read" ∷ [];
      inherits = [];
      description = "Ordinary authenticated member: read access to kernel-managed resources.";
    }
    ∷ record {
      name = "viewer";
      permissions = [];
      inherits = [];
      description = "Authenticated, no kernel-management permissions.";
    }
    ∷ []

abbrev pub seed_missing : String → Role → Option RoleDefinition → Exec Tables (Unit {0})
seed_missing tenant role (some d) = pure tt
seed_missing tenant role none = create_definition (definition_of tenant role)

unfoldable pub seed_each : String → List Role → Exec Tables (Unit {0})
unfolding find_definitions create_definition
seed_each tenant [] = pure tt
seed_each tenant (role ∷ roles) = do
  rows ← find_definitions (is_definition tenant role.name)
  seed_missing tenant role (row_found rows)
  seed_each tenant roles

unfoldable pub seed_default_roles : String → Exec Tables (Unit {0})
unfolding seed_each
seed_default_roles tenant =
    if str_eq tenant "" then raise no_tenant else seed_each tenant default_role_catalog

abbrev pub assign_missing :
    Context → String → String → Option RoleAssignment → Exec Tables (Unit {0})
assign_missing context identity role (some a) = pure tt
assign_missing context identity role none = do
  create_assignment (record { tenant_id = context.tenant; identity_id = identity; role = role })
  log_audit (record {
    event = "role.assigned";
    tenant = context.tenant;
    actor = context.caller;
    subject = identity;
  })

unfoldable pub assign_role : Context → String → String → Exec Tables (Unit {0})
unfolding find_assignments create_assignment log_audit
assign_role context identity role = in_context context (do
  rows ← find_assignments (is_assignment context.tenant identity role)
  assign_missing context identity role (row_found rows))

unfoldable pub revoke_role : Context → String → String → Exec Tables (Unit {0})
unfolding delete_assignments log_audit
revoke_role context identity role = in_context context (do
  delete_assignments (is_assignment context.tenant identity role)
  log_audit (record {
    event = "role.revoked";
    tenant = context.tenant;
    actor = context.caller;
    subject = identity;
  }))

unfoldable pub list_identity_roles : Context → String → Exec Tables (List String)
unfolding find_assignments
list_identity_roles context identity =
    in_context context
      (do rows ← find_assignments (held_by context.tenant identity); pure (map (λ a. a.role) rows))

-- `authorized` is rbac.Manager.AuthorizePermission, of the identity and the permission.
unfoldable pub require_permission :
    (String → String → Exec Tables Bool) → String → String → Exec Tables (Unit {0})
require_permission authorized identity permission = do
  granted ← authorized identity permission
  if granted then pure tt else raise permission_denied
