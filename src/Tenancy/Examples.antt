-- ===== src/Tenancy/Examples.antt =====
-- Two scoped tables, statements on them, and the theorems at them.
use sannad.Prelude.{true, false, inl, none, some, List, [], ◌∷◌, ◌≡◌, refl}
use sannad.Prelude.Int.{codes}
use sannad.Prelude.Texts.{Text, is_empty}
use sannad.Tenancy.Scope.{Statement, Context, clause_for_tenant, scope_query, join_on_scoped_table}
use sannad.Tenancy.Confined.{Confined, scope_query-Confined}
use sannad.Tenancy.Stamp.{
  Value, record_of, opaque, slice_of, nil, cons, Stamped, Writable, stamp_create,
  stamp_create-Stamped,
}

abbrev tables : List Text
tables = codes "contacts" ∷ codes "notes" ∷ []

abbrev in_acme : Context
in_acme = record { is_system = false; tenant = codes "acme" }

abbrev on_contacts : Statement
on_contacts = record {
  error = none;
  sql = [];
  table = codes "contacts";
  model = some true;
  dest = none;
  schema = none;
  joins = [];
  from_joins = [];
  conditions = [];
}

abbrev plain : Text → Text
plain t = t

passes : (scope_query plain tables in_acme on_contacts).error ≡ none
unfolding scope_query
passes = refl

scope_query-Confined_example :
    Confined plain tables in_acme on_contacts (scope_query plain tables in_acme on_contacts)
scope_query-Confined_example =
    scope_query-Confined plain tables in_acme on_contacts refl refl passes

abbrev joining : Text → Statement
joining join = record on_contacts { joins = join ∷ [] }

refused-scope_query :
    (scope_query plain tables in_acme (joining (codes "JOIN notes ON true"))).error
    ≡ some join_on_scoped_table
unfolding scope_query
refused-scope_query = refl

-- The join names the primary table before the other one, which is then joined without a condition.
missed-scope_query :
    let stmt = joining (codes "JOIN notes ON notes.contact_id = contacts.id") in
    let after = scope_query plain tables in_acme stmt in
    (after.error ≡ none)
    × (after.conditions ≡ clause_for_tenant (codes "contacts") (codes "acme") ∷ [])
unfolding scope_query
missed-scope_query = (refl, refl)

abbrev two_records : Value
two_records = slice_of (cons (record_of []) (cons (record_of (codes "acme")) nil))

stamp_create-Stamped_example :
    let (after, values) = stamp_create tables in_acme on_contacts two_records in
    ((after.error ≡ none)
      → ((is_empty (codes "acme") ≡ false) × Writable (codes "acme") two_records)
        × Stamped (codes "acme") two_records values)
    × ((is_empty (codes "acme") ≡ false) × Writable (codes "acme") two_records → after.error ≡ none)
stamp_create-Stamped_example =
    stamp_create-Stamped tables in_acme on_contacts two_records refl refl (inl refl)

stamped-stamp_create :
    (stamp_create tables in_acme on_contacts two_records).1
    ≡ slice_of (cons (record_of (codes "acme")) (cons (record_of (codes "acme")) nil))
unfolding stamp_create
stamped-stamp_create = refl

-- A map is inserted as it is, also into another tenant.
opaque-stamp_create :
    let (after, values) =
      stamp_create tables in_acme on_contacts (opaque (some (codes "globex"))) in
    (after.error ≡ none) × (values ≡ opaque (some (codes "globex")))
unfolding stamp_create
opaque-stamp_create = (refl, refl)
