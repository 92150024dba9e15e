-- ===== src/Auth/TenantRoles.antt =====
-- What the operations on roles leave untouched: the rows of every other tenant.
use sannad.Prelude.{
  String, false, Option, none, some, List, [], ◌∷◌, ◌≡◌, refl, ◌∙◌, arith, str_eq, Bool-cases, inl,
  inr,
}
use sannad.Auth.Database.{Context, Db, Exec}
use sannad.Auth.Roles.{
  RoleAssignment, RoleDefinition, Tables, Role, is_assignment, held_by, is_definition, create_each,
  set_identity_roles, saved, save_role, delete_role, seed_missing, seed_each, seed_default_roles,
  default_role_catalog, assign_missing, assign_role, revoke_role, row_found,
}
use sannad.Auth.Frame.{
  SameFor, Keeps, pure-Keeps, raise-Keeps, bind-Keeps, transact-Keeps, log_audit-Keeps,
  find_assignments-Keeps, find_definitions-Keeps, create_assignment-Keeps, create_definition-Keeps,
  elsewhere, delete_assignments-Keeps, delete_definitions-Keeps, save_definition-Keeps,
  in_context-Keeps,
}

-- A call that writes roles, with the context in which it is made.
pub data Operation : Type 0 where
  set_roles : Context → String → List String → Operation
  save : Context → Option Role → Operation
  delete : Context → String → Operation
  seed : String → Operation
  assign : Context → String → String → Operation
  revoke : Context → String → String → Operation

abbrev pub tenant_of : Operation → String
tenant_of (set_roles context identity roles) = context.tenant
tenant_of (save context role) = context.tenant
tenant_of (delete context name) = context.tenant
tenant_of (seed tenant) = tenant
tenant_of (assign context identity role) = context.tenant
tenant_of (revoke context identity role) = context.tenant

unfoldable pub operate : Operation → Exec Tables (Unit {0})
unfolding set_identity_roles save_role delete_role seed_default_roles assign_role revoke_role
operate (set_roles context identity roles) = set_identity_roles context identity roles
operate (save context role) = save_role context role
operate (delete context name) = delete_role context name
operate (seed tenant) = seed_default_roles tenant
operate (assign context identity role) = assign_role context identity role
operate (revoke context identity role) = revoke_role context identity role

-- The operations one after another, whatever each returns.
unfoldable pub operate_all : List Operation → Db Tables → Db Tables
unfolding operate
operate_all [] s = s
operate_all (operation ∷ operations) s = operate_all operations (operate operation s).1

module _ (other : String) where
  create_each-Keeps :
      (tenant identity : String) (roles : List String)
      → str_eq tenant other ≡ false
      → Keeps other (create_each tenant identity roles)
  unfolding create_each
  create_each-Keeps tenant identity [] apart = pure-Keeps other tt
  create_each-Keeps tenant identity (role ∷ roles) apart =
      bind-Keeps other _ _ (create_assignment-Keeps other _ apart)
        (λ u. create_each-Keeps tenant identity roles apart)

  seed_missing-Keeps :
      (tenant : String) (role : Role) (found : Option RoleDefinition)
      → str_eq tenant other ≡ false
      → Keeps other (seed_missing tenant role found)
  seed_missing-Keeps tenant role (some d) apart = pure-Keeps other tt
  seed_missing-Keeps tenant role none apart = create_definition-Keeps other _ apart

  seed_each-Keeps :
      (tenant : String) (roles : List Role)
      → str_eq tenant other ≡ false
      → Keeps other (seed_each tenant roles)
  unfolding seed_each
  seed_each-Keeps tenant [] apart = pure-Keeps other tt
  seed_each-Keeps tenant (role ∷ roles) apart =
      bind-Keeps other _ _ (find_definitions-Keeps other (is_definition tenant role.name)) (λ rows.
        bind-Keeps other _ _ (seed_missing-Keeps tenant role (row_found rows) apart)
          (λ u. seed_each-Keeps tenant roles apart))

  assign_missing-Keeps :
      (context : Context) (identity role : String) (found : Option RoleAssignment)
      → str_eq context.tenant other ≡ false
      → Keeps other (assign_missing context identity role found)
  assign_missing-Keeps context identity role (some a) apart = pure-Keeps other tt
  assign_missing-Keeps context identity role none apart =
      bind-Keeps other _ _ (create_assignment-Keeps other _ apart) (λ u. log_audit-Keeps other _)

  saved-Keeps :
      (context : Context) (role : Option Role)
      → str_eq context.tenant other ≡ false
      → Keeps other (saved context role)
  saved-Keeps context none apart = raise-Keeps other _ _
  saved-Keeps context (some role) apart = elim (Bool-cases (str_eq role.name "")) [
    | inl e ↦ rw e (raise-Keeps other _ _)
    | inr e ↦ rw e (save_definition-Keeps other _ apart)
  ]

  operate-Keeps :
      (operation : Operation)
      → str_eq (tenant_of operation) other ≡ false
      → Keeps other (operate operation)
  unfolding operate set_identity_roles save_role delete_role seed_default_roles assign_role
      revoke_role
  operate-Keeps (set_roles context identity roles) apart = in_context-Keeps other context _ (
      transact-Keeps other _ (
        bind-Keeps other _ _
          (delete_assignments-Keeps other (held_by context.tenant identity) (λ a h.
            elsewhere other context.tenant a.tenant_id (str_eq a.identity_id identity) apart h))
          (λ u. create_each-Keeps context.tenant identity roles apart)))
  operate-Keeps (save context role) apart =
      in_context-Keeps other context _ (saved-Keeps context role apart)
  operate-Keeps (delete context name) apart =
      in_context-Keeps other context _ (delete_definitions-Keeps other context.tenant name apart)
  operate-Keeps (seed tenant) apart = elim (Bool-cases (str_eq tenant "")) [
    | inl e ↦ rw e (raise-Keeps other _ _)
    | inr e ↦ rw e (seed_each-Keeps tenant default_role_catalog apart)
  ]
  operate-Keeps (assign context identity role) apart = in_context-Keeps other context _ (
      bind-Keeps other _ _
        (find_assignments-Keeps other (is_assignment context.tenant identity role))
        (λ rows. assign_missing-Keeps context identity role (row_found rows) apart))
  operate-Keeps (revoke context identity role) apart = in_context-Keeps other context _ (
      bind-Keeps other _ _
        (delete_assignments-Keeps other (is_assignment context.tenant identity role) (λ a h.
          elsewhere other context.tenant a.tenant_id (str_eq a.identity_id identity) apart
            (ground (arith, h))))
        (λ u. log_audit-Keeps other _))

-- None of the operations is made for the tenant.
abbrev pub NotFor : String → List Operation → Type 0
NotFor other [] = Unit
NotFor other (operation ∷ operations) =
    (str_eq (tenant_of operation) other ≡ false) × NotFor other operations

-- Whichever calls of the database fail, operations on roles that are made for other tenants leave
-- the assignments and the role definitions of a tenant as they are.
pub operate_all-SameFor :
    (other : String) (operations : List Operation) (s : Db Tables)
    → NotFor other operations
    → SameFor other (operate_all operations s).tables s.tables
unfolding operate_all Keeps
operate_all-SameFor other [] s h = (refl, refl)
operate_all-SameFor other (operation ∷ operations) s h =
    let (a, d) = operate_all-SameFor other operations (operate operation s).1 h.1 in
    let (b, e) = operate-Keeps other operation h.0 s in (a ∙ b, d ∙ e)
