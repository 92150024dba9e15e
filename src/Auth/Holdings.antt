-- ===== src/Auth/Holdings.antt =====
-- The assignments as what they stand for: who holds which role in which tenant.
use sannad.Prelude.{
  String, Bool, true, false, some, List, [], ◌∷◌, ◌++◌, ◌≡◌, refl, ◌∙◌, ◌&&◌, ◌||◌, not, arith,
  str_eq, eq_iff, if◌then◌else◌, Bool-cases, inl, inr, Option-cases,
}
use sannad.Prelude.Tables.{any, select, remove, any-append, any-remove, any-same}
use sannad.Auth.Database.{
  Context, Db, Result, ok, err, pure, proceed, ◌>>◌, meet, rollback, stored, transact, log_audit,
}
use sannad.Auth.Roles.{
  RoleAssignment, Tables, is_assignment, held_by, find_assignments, create_assignment,
  delete_assignments, create_each, row_found, set_identity_roles, assign_role, revoke_role,
}
use sannad.Auth.TenantRoles.{Operation, set_roles, save, delete, seed, assign, revoke}

-- Who holds which role in which tenant.
abbrev pub Holdings : Type 0
Holdings = String → String → String → Bool

unfoldable pub holdings : List RoleAssignment → Holdings
unfolding any
holdings rows tenant identity role = any (is_assignment tenant identity role) rows

abbrev pub matches : Context → String → String → String → Bool
matches context identity tenant other = str_eq context.tenant tenant && str_eq identity other

-- What an operation means for the holdings.
abbrev pub meaning : Operation → Holdings → Holdings
meaning (set_roles context identity roles) before tenant other role =
    if matches context identity tenant other
    then any (λ r. str_eq r role) roles
    else before tenant other role
meaning (assign context identity given) before tenant other role =
    matches context identity tenant other && str_eq given role || before tenant other role
meaning (revoke context identity given) before tenant other role =
    not (matches context identity tenant other && str_eq given role) && before tenant other role
meaning (save context definition) before tenant other role = before tenant other role
meaning (delete context name) before tenant other role = before tenant other role
meaning (seed given) before tenant other role = before tenant other role

abbrev pub meaning_all : List Operation → Holdings → Holdings
meaning_all [] before = before
meaning_all (operation ∷ operations) before = meaning_all operations (meaning operation before)

-- A database on which no call will fail, with the same holdings as a view.
abbrev pub Shows : Holdings → Db Tables → Type 0
Shows view s =
    (s.faults ≡ [])
    × ((tenant identity role : String)
        → holdings s.tables.assignments tenant identity role ≡ view tenant identity role)

create-holdings :
    (rows : List RoleAssignment) (a : RoleAssignment) (tenant identity role : String)
    → holdings (rows ++ a ∷ []) tenant identity role
      ≡ (is_assignment tenant identity role a || holdings rows tenant identity role)
unfolding holdings any
create-holdings rows a tenant identity role =
    ground (arith, any-append (is_assignment tenant identity role) rows (a ∷ []))

delete-holdings :
    (q : RoleAssignment → Bool) (rows : List RoleAssignment) (tenant identity role : String)
    → (m : Bool)
    → ((a : RoleAssignment)
        → (is_assignment tenant identity role a && not (q a))
          ≡ (not m && is_assignment tenant identity role a))
    → holdings (remove q rows) tenant identity role ≡ (not m && holdings rows tenant identity role)
unfolding holdings any
delete-holdings q rows tenant identity role m same =
    any-remove (is_assignment tenant identity role) q rows ∙ any-same _ _ same rows ∙ factor m rows
  where
    factor :
        (m : Bool) (rows : List RoleAssignment)
        → any (λ a. not m && is_assignment tenant identity role a) rows
          ≡ (not m && any (is_assignment tenant identity role) rows)
    factor m [] = ground arith
    factor m (x ∷ xs) = ground (arith, factor m xs)

-- With no faults, what one assignment that exists already says of the holdings.
found-holdings :
    (rows : List RoleAssignment) (tenant identity role : String) (a : RoleAssignment)
    → row_found (select (is_assignment tenant identity role) rows) ≡ some a
    → holdings rows tenant identity role ≡ true
unfolding holdings any select
found-holdings [] tenant identity role a = λ h. absurd (cc h)
found-holdings (x ∷ xs) tenant identity role a =
    elim (Bool-cases (is_assignment tenant identity role x)) [
      | inl e ↦ rw e (λ h. refl)
      | inr e ↦ rw e (found-holdings xs tenant identity role a)
    ]

-- A database on which no call fails.
abbrev pub calm : Db Tables → Db Tables
calm s = record s { faults = [] }

create_each-Shows :
    (context : Context) (identity : String) (roles : List String) (s : Db Tables)
    → let r = create_each context.tenant identity roles (calm s) in
      (r.0 ≡ ok tt)
      × Shows
          (λ tenant other role.
            matches context identity tenant other && any (λ r. str_eq r role) roles
            || holdings s.tables.assignments tenant other role)
          r.1
unfolding create_each create_assignment stored any
create_each-Shows context identity [] s = (refl, (refl, λ tenant other role. ground arith))
create_each-Shows context identity (given ∷ roles) s =
    let row : RoleAssignment = record {
      tenant_id = context.tenant;
      identity_id = identity;
      role = given;
    } in
    let next : Db Tables = record s {
      tables = record s.tables { assignments = s.tables.assignments ++ row ∷ [] };
    } in
    let (done, (still, same)) = create_each-Shows context identity roles next in
    (
      done,
      (
        still,
        λ tenant other role. ground (
          arith,
          same tenant other role,
          create-holdings s.tables.assignments row tenant other role,
        ),
      ),
    )

pub assign_role-Shows :
    (context : Context) (identity given : String) (s : Db Tables)
    → str_eq context.tenant "" ≡ false
    → Shows
        (meaning (assign context identity given) (holdings s.tables.assignments))
        (assign_role context identity given (calm s)).1
unfolding assign_role find_assignments create_assignment stored log_audit
assign_role-Shows context identity given s named =
    elim (Option-cases
      (row_found (select (is_assignment context.tenant identity given) s.tables.assignments))) [
        | inl e ↦
            rw (named, e)
              (
                refl,
                λ tenant other role.
                    create-holdings s.tables.assignments
                      (record { tenant_id = context.tenant; identity_id = identity; role = given })
                      tenant other role,
              )
        | inr (a, e) ↦
            rw (named, e)
              (
                refl,
                λ tenant other role. ground (
                  arith,
                  found-holdings s.tables.assignments context.tenant identity given a e,
                  eq_iff context.tenant tenant,
                  eq_iff identity other,
                  eq_iff given role,
                ),
              )
      ]

-- Equality with a third text can be asked of either of two that are equal.
trade : (x y z : String) → (str_eq x y && str_eq x z) ≡ (str_eq x y && str_eq z y)
trade x y z = ground (arith, eq_iff x y, eq_iff x z, eq_iff z y)

revoked_row :
    (context : Context) (identity given tenant other role : String) (a : RoleAssignment)
    → (is_assignment tenant other role a && not (is_assignment context.tenant identity given a)) ≡ (
        not (matches context identity tenant other && str_eq given role)
        && is_assignment tenant other role a)
revoked_row context identity given tenant other role a = ground (
  arith,
  trade a.tenant_id tenant context.tenant,
  trade a.identity_id other identity,
  trade a.role role given,
)

emptied_row :
    (context : Context) (identity tenant other role : String) (a : RoleAssignment)
    → (is_assignment tenant other role a && not (held_by context.tenant identity a))
      ≡ (not (matches context identity tenant other) && is_assignment tenant other role a)
emptied_row context identity tenant other role a =
    ground (arith, trade a.tenant_id tenant context.tenant, trade a.identity_id other identity)

committed :
    (before : Tables) (r : Result (Unit {0}) × Db Tables)
    → r.0 ≡ ok tt
    → r.1.faults ≡ []
    → (rollback before (proceed (λ a. stored (pure tt) >> pure a) r)).1 ≡ r.1
unfolding stored
committed before (err e, s) h calm_after = absurd (cc h)
committed before (ok a, s) h calm_after = go s.faults calm_after
  where
    go :
        (fs : List Bool)
        → fs ≡ []
        → (rollback before (proceed (λ u. pure a) (meet (pure tt) fs s))).1 ≡ s
    go [] e = refl
    go (f ∷ fs) e = absurd (cc e)

pub revoke_role-Shows :
    (context : Context) (identity given : String) (s : Db Tables)
    → str_eq context.tenant "" ≡ false
    → Shows
        (meaning (revoke context identity given) (holdings s.tables.assignments))
        (revoke_role context identity given (calm s)).1
unfolding revoke_role delete_assignments stored log_audit
revoke_role-Shows context identity given s named = rw named (
  refl,
  λ tenant other role.
      delete-holdings (is_assignment context.tenant identity given) s.tables.assignments tenant
        other role (matches context identity tenant other && str_eq given role)
        (λ a. revoked_row context identity given tenant other role a),
)

pub set_identity_roles-Shows :
    (context : Context) (identity : String) (roles : List String) (s : Db Tables)
    → str_eq context.tenant "" ≡ false
    → Shows
        (meaning (set_roles context identity roles) (holdings s.tables.assignments))
        (set_identity_roles context identity roles (calm s)).1
unfolding set_identity_roles transact delete_assignments stored
set_identity_roles-Shows context identity roles s named =
    let emptied : Db Tables = record s {
      tables = record s.tables {
        assignments = remove (held_by context.tenant identity) s.tables.assignments;
      };
    } in
    let (done, (still, same)) = create_each-Shows context identity roles emptied in
    let whole : (set_identity_roles context identity roles (calm s)).1
        ≡ (create_each context.tenant identity roles (calm emptied)).1 =
      rw named (
        committed s.tables (create_each context.tenant identity roles (calm emptied)) done still) in
    rw whole (
      still,
      λ tenant other role. ground (
        arith,
        same tenant other role,
        delete-holdings (held_by context.tenant identity) s.tables.assignments tenant other role
            (matches context identity tenant other)
            (λ a. emptied_row context identity tenant other role a),
      ),
    )
