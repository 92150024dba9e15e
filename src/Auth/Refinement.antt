-- ===== src/Auth/Refinement.antt =====
-- Sequences of operations on roles, as what they mean for the holdings.
use sannad.Prelude.{
  String, false, Option, none, some, List, [], ◌∷◌, ◌++◌, ◌≡◌, refl, sym, ap, ◌∙◌, str_eq,
  Bool-cases, Option-cases, inl, inr,
}
use mathlib.Core.Path.{subst}
use sannad.Prelude.Tables.{select}
use sannad.Auth.Database.{Context, Db, stored}
use sannad.Auth.Roles.{
  Tables, Role, definition_of, is_definition, row_found, find_definitions, create_definition,
  save_definition, delete_definitions, save_role, delete_role, seed_each, seed_default_roles,
  default_role_catalog,
}
use sannad.Auth.TenantRoles.{
  Operation, set_roles, save, delete, seed, assign, revoke, tenant_of, operate, operate_all,
}
use sannad.Auth.Holdings.{
  Holdings, holdings, meaning, meaning_all, Shows, calm, assign_role-Shows, revoke_role-Shows,
  set_identity_roles-Shows,
}

-- A state from which no assignment has changed, on which no call fails.
abbrev Untouched : Db Tables → Db Tables → Type 0
Untouched s r = (r.faults ≡ []) × (r.tables.assignments ≡ s.tables.assignments)

save_role-Untouched :
    (context : Context) (role : Option Role) (s : Db Tables)
    → str_eq context.tenant "" ≡ false
    → Untouched s (save_role context role (calm s)).1
unfolding save_role save_definition stored
save_role-Untouched context none s named = rw named (refl, refl)
save_role-Untouched context (some role) s named = elim (Bool-cases (str_eq role.name "")) [
  | inl e ↦ rw (named, e) (refl, refl)
  | inr e ↦ rw (named, e) (refl, refl)
]

delete_role-Untouched :
    (context : Context) (name : String) (s : Db Tables)
    → str_eq context.tenant "" ≡ false
    → Untouched s (delete_role context name (calm s)).1
unfolding delete_role delete_definitions stored
delete_role-Untouched context name s named = rw named (refl, refl)

seed_each-Untouched :
    (tenant : String) (roles : List Role) (s : Db Tables)
    → Untouched s (seed_each tenant roles (calm s)).1
unfolding seed_each find_definitions create_definition stored
seed_each-Untouched tenant [] s = (refl, refl)
seed_each-Untouched tenant (role ∷ roles) s =
    elim (Option-cases (row_found (select (is_definition tenant role.name) s.tables.definitions))) [
      | inl e ↦ rw e (
          seed_each-Untouched tenant roles (record s {
            tables = record s.tables {
              definitions = s.tables.definitions ++ definition_of tenant role ∷ [];
            };
          }))
      | inr (d, e) ↦ rw e (seed_each-Untouched tenant roles s)
    ]

seed_default_roles-Untouched :
    (tenant : String) (s : Db Tables)
    → str_eq tenant "" ≡ false
    → Untouched s (seed_default_roles tenant (calm s)).1
unfolding seed_default_roles
seed_default_roles-Untouched tenant s named =
    rw named (seed_each-Untouched tenant default_role_catalog s)

Untouched-Shows : (s r : Db Tables) → Untouched s r → Shows (holdings s.tables.assignments) r
Untouched-Shows s r (calm_after, same) =
    (calm_after, λ tenant identity role. ap (λ rows. holdings rows tenant identity role) same)

operate-Shows :
    (operation : Operation) (s : Db Tables)
    → str_eq (tenant_of operation) "" ≡ false
    → Shows (meaning operation (holdings s.tables.assignments)) (operate operation (calm s)).1
unfolding operate
operate-Shows (set_roles context identity roles) s named =
    set_identity_roles-Shows context identity roles s named
operate-Shows (save context role) s named =
    Untouched-Shows s (save_role context role (calm s)).1 (save_role-Untouched context role s named)
operate-Shows (delete context name) s named =
    Untouched-Shows s (delete_role context name (calm s)).1
      (delete_role-Untouched context name s named)
operate-Shows (seed tenant) s named =
    Untouched-Shows s (seed_default_roles tenant (calm s)).1
      (seed_default_roles-Untouched tenant s named)
operate-Shows (assign context identity role) s named =
    assign_role-Shows context identity role s named
operate-Shows (revoke context identity role) s named =
    revoke_role-Shows context identity role s named

-- Operations mean the same for holdings that agree.
meaning-same :
    (operation : Operation) (before after : Holdings)
    → ((tenant identity role : String) → before tenant identity role ≡ after tenant identity role)
    → (tenant identity role : String)
    → meaning operation before tenant identity role ≡ meaning operation after tenant identity role
meaning-same (set_roles context given roles) before after same tenant identity role =
    rw (same tenant identity role) refl
meaning-same (save context definition) before after same tenant identity role =
    same tenant identity role
meaning-same (delete context name) before after same tenant identity role =
    same tenant identity role
meaning-same (seed given) before after same tenant identity role = same tenant identity role
meaning-same (assign context given assigned) before after same tenant identity role =
    rw (same tenant identity role) refl
meaning-same (revoke context given revoked) before after same tenant identity role =
    rw (same tenant identity role) refl

-- Every operation is made in a tenant.
abbrev pub InTenants : List Operation → Type 0
InTenants [] = Unit
InTenants (operation ∷ operations) =
    (str_eq (tenant_of operation) "" ≡ false) × InTenants operations

-- With no faults, operations on roles that are made in tenants leave every identity with exactly
-- the roles that the operations mean: setting replaces an identity's roles in that tenant, assigning
-- adds one, revoking removes one, and definitions, deletions and seeding change none.
pub operate_all-meaning_all :
    (operations : List Operation) (view : Holdings) (s : Db Tables)
    → InTenants operations
    → Shows view s
    → Shows (meaning_all operations view) (operate_all operations s)
unfolding operate_all
operate_all-meaning_all [] view s named shows = shows
operate_all-meaning_all (operation ∷ operations) view s named (calm_now, same) =
    operate_all-meaning_all operations (meaning operation view) (operate operation s).1 named.1 (
      subst (λ u. Shows (meaning operation view) (operate operation u).1)
        (sym (ap (λ fs. record s { faults = fs }) calm_now))
        (
          once.0,
          λ tenant identity role.
              once.1 tenant identity role
              ∙ meaning-same operation (holdings s.tables.assignments) view same tenant identity
                  role,
        ))
  where
    once : Shows (meaning operation (holdings s.tables.assignments)) (operate operation (calm s)).1
    once = operate-Shows operation s named.0
