-- ===== src/Tenancy/Scope.antt =====
-- The callbacks on queries, updates, deletes and raw statements (internal/platform/tenancy:
-- isolation.go, clause.go). A statement is what they read and write of GORM's.
use sannad.Prelude.{
  Bool, true, false, Option, none, some, List, [], ◌∷◌, ◌&&◌, ◌||◌, not, if◌then◌else◌,
}
use sannad.Prelude.Int.{codes}
use sannad.Prelude.Texts.{Text, same, is_empty, starts_with}

pub data Error : Type 0 where
  no_tenant_context tenant_mismatch raw_sql_on_scoped_table join_on_scoped_table : Error
  earlier : Error

-- The types of Go that reflect tells apart: `structure` says whether a pointer to it is TenantAware.
pub data GoType : Type 0 where
  pointer slice array : GoType → GoType
  structure : Bool → GoType
  other : GoType

unfoldable pub implements_tenant_aware : GoType → Bool
implements_tenant_aware (pointer t) = implements_tenant_aware t
implements_tenant_aware (slice t) = implements_tenant_aware t
implements_tenant_aware (array t) = implements_tenant_aware t
implements_tenant_aware (structure aware) = aware
implements_tenant_aware other = false

-- A condition `table.tenant_id = tenant`, unqualified where `table` is empty.
pub record Condition : Type 0 where
  pub table : Text
  pub tenant : Text

-- `model` says whether the model is TenantAware, `dest` and `schema` are types; none is nil.
-- `joins` are the texts of the joins, also those in the FROM clause.
pub record Statement : Type 0 where
  pub error : Option Error
  pub sql : Text
  pub table : Text
  pub model : Option Bool
  pub dest : Option GoType
  pub schema : Option GoType
  pub joins : List Text
  pub from_joins : List Text
  pub conditions : List Condition

pub record Context : Type 0 where
  pub is_system : Bool
  pub tenant : Text

-- clause.CurrentTable
abbrev current_table : Text
current_table = codes "~~~ct~~~"

unfoldable pub clause_for_tenant : Text → Text → Condition
unfolding same
clause_for_tenant table tenant = record {
  table = if not (is_empty table) && not (same table current_table) then table else [];
  tenant = tenant;
}

-- strings.Contains
unfoldable pub contains : Text → Text → Bool
unfolding starts_with
contains [] part = is_empty part
contains (c ∷ cs) part = starts_with (c ∷ cs) part || contains cs part

-- The registry of scoped tables, in the order of its Range.
unfoldable pub is_scoped_table : Text → List Text → Bool
unfolding same
is_scoped_table table [] = false
is_scoped_table table (name ∷ names) =
    let rest = is_scoped_table table names in
    if is_empty table then false else same name table || rest

-- RegisterScopedModels, of models whose tables GORM has parsed, up to one that it cannot parse.
unfoldable pub register_scoped_models : List (Option Text) → List Text → Bool × List Text
register_scoped_models [] tables = (true, tables)
register_scoped_models (none ∷ models) tables = (false, tables)
register_scoped_models (some table ∷ models) tables = register_scoped_models models (table ∷ tables)

abbrev pub aware : Option GoType → Bool
aware none = false
aware (some t) = implements_tenant_aware t

abbrev pub model_aware : Option Bool → Bool
model_aware none = false
model_aware (some b) = b

unfoldable pub is_scoped : List Text → Statement → Bool
unfolding implements_tenant_aware is_scoped_table
is_scoped tables stmt =
    model_aware stmt.model
    || aware stmt.dest
    || aware stmt.schema
    || is_scoped_table stmt.table tables

-- `lower` is strings.ToLower.
module _ (lower : Text → Text) where
  -- The first registered table that the text mentions.
  unfoldable pub find_mentioned : List Text → Text → Option Text
  unfolding contains
  find_mentioned [] sql = none
  find_mentioned (table ∷ tables) sql =
      let rest = find_mentioned tables sql in
      if not (is_empty table) && contains (lower sql) (lower table) then some table else rest

  unfoldable pub scoped_table_in_sql : List Text → Text → Option Text
  unfolding find_mentioned
  scoped_table_in_sql tables sql = if is_empty sql then none else find_mentioned tables sql

  abbrev pub other_than : Text → Option Text → Bool
  other_than primary none = false
  other_than primary (some table) = not (same table primary)

  unfoldable pub joins_scoped : List Text → Text → List Text → Bool
  unfolding scoped_table_in_sql same
  joins_scoped tables primary [] = false
  joins_scoped tables primary (join ∷ joins) =
      other_than primary (scoped_table_in_sql tables join) || joins_scoped tables primary joins

  unfoldable pub joined_scoped_table : List Text → Statement → Bool
  unfolding joins_scoped
  joined_scoped_table tables stmt =
      joins_scoped tables stmt.table stmt.joins || joins_scoped tables stmt.table stmt.from_joins

  abbrev add_error : Error → Statement → Statement
  add_error e stmt = record stmt { error = some e }

  abbrev pub refuse_named : Option Text → Statement → Statement
  refuse_named none stmt = stmt
  refuse_named (some table) stmt = add_error raw_sql_on_scoped_table stmt

  abbrev pub scope_built : List Text → Context → Statement → Statement
  scope_built tables context stmt =
      if joined_scoped_table tables stmt
      then add_error join_on_scoped_table stmt
      else if not (is_scoped tables stmt)
      then stmt
      else if is_empty context.tenant
      then add_error no_tenant_context stmt
      else record stmt {
        conditions = clause_for_tenant stmt.table context.tenant ∷ stmt.conditions;
      }

  abbrev pub scope_live : List Text → Context → Statement → Option Error → Statement
  scope_live tables context stmt (some e) = stmt
  scope_live tables context stmt none =
      if context.is_system
      then stmt
      else if not (is_empty stmt.sql)
      then refuse_named (scoped_table_in_sql tables stmt.sql) stmt
      else scope_built tables context stmt

  -- The callback on Query, Row, Update and Delete.
  unfoldable pub scope_query : List Text → Context → Statement → Statement
  unfolding scoped_table_in_sql joined_scoped_table is_scoped clause_for_tenant
  scope_query tables context stmt = scope_live tables context stmt stmt.error

  abbrev guard_live : List Text → Context → Statement → Option Error → Statement
  guard_live tables context stmt (some e) = stmt
  guard_live tables context stmt none =
      if context.is_system then stmt else refuse_named (scoped_table_in_sql tables stmt.sql) stmt

  -- The callback on Raw.
  unfoldable pub guard_raw : List Text → Context → Statement → Statement
  unfolding scoped_table_in_sql
  guard_raw tables context stmt = guard_live tables context stmt stmt.error
