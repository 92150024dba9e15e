-- ===== src/Auth/Examples.antt =====
-- Two tenants with one role each, and the theorems at them.
use sannad.Prelude.{String, true, false, List, [], ◌∷◌, ◌≡◌, refl}
use sannad.Auth.Database.{Context, Db}
use sannad.Auth.Roles.{RoleAssignment, Tables}
use sannad.Auth.Frame.{SameFor}
use sannad.Auth.TenantRoles.{
  Operation, assign, revoke, set_roles, seed, operate_all, operate_all-SameFor,
}
use sannad.Auth.Holdings.{holdings, meaning_all, Shows}
use sannad.Auth.Refinement.{operate_all-meaning_all}

abbrev row : String → String → String → RoleAssignment
row tenant identity role = record { tenant_id = tenant; identity_id = identity; role = role }

abbrev in_acme : Context
in_acme = record { tenant = "acme"; caller = "root" }

abbrev start : Db Tables
start = record {
  tables = record {
    assignments = row "acme" "ada" "admin" ∷ row "beta" "ada" "owner" ∷ [];
    definitions = [];
  };
  audit = [];
  faults = [];
}

abbrev operations : List Operation
operations =
    seed "acme"
    ∷ assign in_acme "bob" "member"
    ∷ revoke in_acme "ada" "admin"
    ∷ set_roles in_acme "bob" ("viewer" ∷ "admin" ∷ [])
    ∷ []

operated :
    (operate_all operations start).tables.assignments
    ≡ row "beta" "ada" "owner" ∷ row "acme" "bob" "viewer" ∷ row "acme" "bob" "admin" ∷ []
unfolding operate_all
operated = refl

operate_all-SameFor_example :
    SameFor "beta"
      (operate_all operations (record start { faults = false ∷ true ∷ [] })).tables
      start.tables
operate_all-SameFor_example =
    operate_all-SameFor "beta" operations (record start { faults = false ∷ true ∷ [] })
      (refl, (refl, (refl, (refl, tt))))

operate_all-meaning_all_example :
    Shows
      (meaning_all operations (holdings start.tables.assignments))
      (operate_all operations start)
operate_all-meaning_all_example =
    operate_all-meaning_all operations (holdings start.tables.assignments) start
      (refl, (refl, (refl, (refl, tt)))) (refl, λ tenant identity role. refl)
