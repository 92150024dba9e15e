-- ===== src/Tenancy/Targets.antt =====
-- Which statements target scoped data (isScoped and implementsTenantAware of
-- internal/platform/tenancy/isolation.go), said without the walk over types.
use mathlib.Core.Path.{subst}
use sannad.Prelude.{
  Bool, true, false, ◌↔◌, Option, none, some, List, [], ◌∷◌, ◌≡◌, refl, sym, ◌⊎◌, arith,
}
use sannad.Prelude.Tables.{Member}
use sannad.Prelude.Texts.{Text, same, same_sound, same_refl, is_empty}
use sannad.Tenancy.Scope.{
  GoType, pointer, slice, array, structure, other, implements_tenant_aware, aware, model_aware,
  is_scoped_table, is_scoped, Statement,
}

-- A pointer, slice or array type with TenantAware structs under it.
abbrev pub Aware : GoType → Type 0
Aware (pointer t) = Aware t
Aware (slice t) = Aware t
Aware (array t) = Aware t
Aware (structure aware) = aware ≡ true
Aware other = ⊥

abbrev AwareIn : Option GoType → Type 0
AwareIn none = ⊥
AwareIn (some t) = Aware t

-- A statement targets scoped data: its model, what it reads into or its schema is TenantAware, or
-- its table is registered.
abbrev pub Targets : List Text → Statement → Type 0
Targets tables stmt =
    (stmt.model ≡ some true)
    ⊎ (AwareIn stmt.dest
        ⊎ (AwareIn stmt.schema ⊎ ((is_empty stmt.table ≡ false) × Member stmt.table tables)))

implements_tenant_aware-Aware : (t : GoType) → (implements_tenant_aware t ≡ true) ↔ Aware t
unfolding implements_tenant_aware
implements_tenant_aware-Aware (pointer t) = implements_tenant_aware-Aware t
implements_tenant_aware-Aware (slice t) = implements_tenant_aware-Aware t
implements_tenant_aware-Aware (array t) = implements_tenant_aware-Aware t
implements_tenant_aware-Aware (structure aware) = (λ h. h, λ h. h)
implements_tenant_aware-Aware other = (λ h. absurd (cc h), λ h. elim h [ ])

aware-AwareIn : (t : Option GoType) → (aware t ≡ true) ↔ AwareIn t
unfolding implements_tenant_aware
aware-AwareIn none = (λ h. absurd (cc h), λ h. elim h [ ])
aware-AwareIn (some t) = implements_tenant_aware-Aware t

model_aware_iff : (m : Option Bool) → (model_aware m ≡ true) ↔ (m ≡ some true)
model_aware_iff none = (λ h. absurd (cc h), λ h. absurd (cc h))
model_aware_iff (some true) = (λ h. refl, λ h. refl)
model_aware_iff (some false) = (λ h. absurd (cc h), λ h. absurd (cc h))

same_iff : (name table : Text) → (same name table ≡ true) ↔ (table ≡ name)
same_iff name table = (
  λ h. sym (same_sound name table h),
  λ h. subst (λ t. same name t ≡ true) (sym h) (same_refl name),
)

is_scoped_table-Member :
    (table : Text) (tables : List Text)
    → (is_scoped_table table tables ≡ true) ↔ ((is_empty table ≡ false) × Member table tables)
unfolding is_scoped_table
is_scoped_table-Member table [] = (λ h. absurd (cc h), λ h. elim (h.1) [ ])
is_scoped_table-Member table (name ∷ names) =
    ground (arith, same_iff name table, is_scoped_table-Member table names)

pub is_scoped-Targets :
    (tables : List Text) (stmt : Statement) → (is_scoped tables stmt ≡ true) ↔ Targets tables stmt
unfolding is_scoped
is_scoped-Targets tables stmt = ground (
  arith,
  model_aware_iff stmt.model,
  aware-AwareIn stmt.dest,
  aware-AwareIn stmt.schema,
  is_scoped_table-Member stmt.table tables,
)
