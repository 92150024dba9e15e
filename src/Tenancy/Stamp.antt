-- ===== src/Tenancy/Stamp.antt =====
-- The callback on inserts (stampCreate and eachRecord in internal/platform/tenancy/isolation.go):
-- the tenant is written into the records, or the insert is refused.
use sannad.Prelude.{
  true, false, Option, none, some, List, ◌≡◌, refl, ◌⊎◌, inl, inr, ◌&&◌, not, arith, if◌then◌else◌,
  Bool-cases,
}
use sannad.Prelude.Texts.{Text, same, same_sound, same_refl, is_empty}
use sannad.Tenancy.Targets.{Targets, is_scoped-Targets}
use sannad.Tenancy.Scope.{Error, no_tenant_context, tenant_mismatch, Statement, Context, is_scoped}

-- What reflect finds under a value that is inserted. A record is a struct whose address is
-- TenantAware, with its tenant; an opaque value is one on which nothing is done, such as a nil
-- pointer, a struct that is not TenantAware or has no address, and a map, with the tenant that its
-- row names, if any.
mutual
  pub data Value : Type 0 where
    record_of : Text → Value
    opaque : Option Text → Value
    pointer_to : Value → Value
    slice_of : Values → Value

  pub data Values : Type 0 where
    nil : Values
    cons : Value → Values → Values

-- The function that is applied to every record.
unfoldable pub stamp : Text → Text → Option Error × Text
unfolding same
stamp tenant existing =
    if not (is_empty existing) && not (same existing tenant)
    then (some tenant_mismatch, existing)
    else (none, tenant)

abbrev rebuilt : Option Error × Text → Option Error × Value
rebuilt (e, tenant) = (e, record_of tenant)

abbrev pointed : Option Error × Value → Option Error × Value
pointed (e, v) = (e, pointer_to v)

abbrev sliced : Option Error × Values → Option Error × Value
sliced (e, vs) = (e, slice_of vs)

abbrev prepended : Value → Option Error × Values → Option Error × Values
prepended v (e, vs) = (e, cons v vs)

-- The rest of a slice is reached only where its first element gave no error.
abbrev then_rest : Option Error × Value → Values → Option Error × Values → Option Error × Values
then_rest (some e, v) untouched rest = (some e, cons v untouched)
then_rest (none, v) untouched rest = prepended v rest

unfoldable mutual
  unfolding stamp

  pub each_record : Text → Value → Option Error × Value
  each_record tenant (record_of existing) = rebuilt (stamp tenant existing)
  each_record tenant (opaque existing) = (none, opaque existing)
  each_record tenant (pointer_to v) = pointed (each_record tenant v)
  each_record tenant (slice_of vs) = sliced (each_of tenant vs)

  pub each_of : Text → Values → Option Error × Values
  each_of tenant nil = (none, nil)
  each_of tenant (cons v vs) = then_rest (each_record tenant v) vs (each_of tenant vs)

abbrev stamped : Statement → Option Error × Value → Statement × Value
stamped stmt (none, v) = (stmt, v)
stamped stmt (some e, v) = (record stmt { error = some e }, v)

abbrev stamp_live : List Text → Context → Statement → Value → Option Error → Statement × Value
stamp_live tables context stmt v (some e) = (stmt, v)
stamp_live tables context stmt v none =
    if not (is_scoped tables stmt)
    then (stmt, v)
    else if context.is_system
    then (stmt, v)
    else if is_empty context.tenant
    then (record stmt { error = some no_tenant_context }, v)
    else stamped stmt (each_record context.tenant v)

-- The callback on Create, over the values that are inserted.
unfoldable pub stamp_create : List Text → Context → Statement → Value → Statement × Value
unfolding is_scoped each_record
stamp_create tables context stmt v = stamp_live tables context stmt v stmt.error

-- What is written for a value: a record with the tenant for every record, and the same for anything
-- opaque, in the same places.
unfoldable mutual
  pub Stamped : Text → Value → Value → Type 0
  Stamped tenant (record_of existing) (record_of written) = written ≡ tenant
  Stamped tenant (opaque existing) (opaque written) = written ≡ existing
  Stamped tenant (pointer_to v) (pointer_to w) = Stamped tenant v w
  Stamped tenant (slice_of vs) (slice_of ws) = AllStamped tenant vs ws
  Stamped tenant _ _ = ⊥

  pub AllStamped : Text → Values → Values → Type 0
  AllStamped tenant nil nil = Unit
  AllStamped tenant (cons v vs) (cons w ws) = Stamped tenant v w × AllStamped tenant vs ws
  AllStamped tenant _ _ = ⊥

-- Every record under the value carries the tenant already, or none.
unfoldable mutual
  pub Writable : Text → Value → Type 0
  Writable tenant (record_of existing) = (is_empty existing ≡ true) ⊎ (existing ≡ tenant)
  Writable tenant (opaque existing) = Unit
  Writable tenant (pointer_to v) = Writable tenant v
  Writable tenant (slice_of vs) = AllWritable tenant vs

  pub AllWritable : Text → Values → Type 0
  AllWritable tenant nil = Unit
  AllWritable tenant (cons v vs) = Writable tenant v × AllWritable tenant vs

-- What a pass over values shows: an error, or that all were writable and are owned now.
abbrev Passed : Type 0 → Type 0 → Option Error → Type 0
Passed W O e = ((e ≡ none) → W × O) × (W → e ≡ none)

stamp-Passed :
    (tenant existing : Text)
    → Passed
        ((is_empty existing ≡ true) ⊎ (existing ≡ tenant))
        ((stamp tenant existing).1 ≡ tenant)
        (stamp tenant existing).0
unfolding stamp
stamp-Passed tenant existing = elim (Bool-cases (is_empty existing)) [
  | inl e ↦ rw e (λ h. (inl refl, refl), λ h. refl)
  | inr e ↦ elim (Bool-cases (same existing tenant)) [
    | inl k ↦ rw (e, k) (λ h. (inr (same_sound existing tenant k), refl), λ h. refl)
    | inr k ↦
        rw (e, k)
          (
            λ h. absurd (cc h),
            λ h. elim h [
              | inl f ↦ absurd (cc f)
              | inr p ↦
                  let equal : same existing tenant ≡ true = rw (← p) (same_refl existing) in
                  absurd (ground (arith, equal, k))
            ],
          )
  ]
]

then_rest-Passed :
    {W R : Type 0} (tenant : Text) (u : Value) (r : Option Error × Value) (vs : Values)
    (rest : Option Error × Values)
    → Passed W (Stamped tenant u r.1) r.0
    → Passed R (AllStamped tenant vs rest.1) rest.0
    → Passed (W × R) (AllStamped tenant (cons u vs) (then_rest r vs rest).1) (then_rest r vs rest).0
unfolding Stamped
then_rest-Passed tenant u (none, v) vs (e, ws) p q =
    (λ h. let (w, o) = p.0 refl in let (x, y) = q.0 h in ((w, x), (o, y)), λ h. q.1 h.1)
then_rest-Passed tenant u (some e, v) vs rest p q = (λ h. absurd (cc h), λ h. p.1 h.0)

mutual
  unfolding each_record Stamped Writable

  each_record-Passed :
      (tenant : Text) (v : Value)
      → Passed
          (Writable tenant v)
          (Stamped tenant v (each_record tenant v).1)
          (each_record tenant v).0
  each_record-Passed tenant (record_of existing) = stamp-Passed tenant existing
  each_record-Passed tenant (opaque existing) = (λ h. (tt, refl), λ h. refl)
  each_record-Passed tenant (pointer_to v) = each_record-Passed tenant v
  each_record-Passed tenant (slice_of vs) = each_of-Passed tenant vs

  each_of-Passed :
      (tenant : Text) (vs : Values)
      → Passed
          (AllWritable tenant vs)
          (AllStamped tenant vs (each_of tenant vs).1)
          (each_of tenant vs).0
  each_of-Passed tenant nil = (λ h. (tt, tt), λ h. refl)
  each_of-Passed tenant (cons v vs) =
      then_rest-Passed tenant v (each_record tenant v) vs (each_of tenant vs)
        (each_record-Passed tenant v) (each_of-Passed tenant vs)

stamped-Passed :
    {W : Type 0} (tenant : Text) (u : Value) (stmt : Statement) (r : Option Error × Value)
    → stmt.error ≡ none
    → Passed W (Stamped tenant u r.1) r.0
    → Passed W (Stamped tenant u (stamped stmt r).1) (stamped stmt r).0.error
stamped-Passed tenant u stmt (none, v) clean p = (λ h. p.0 refl, λ w. clean)
stamped-Passed tenant u stmt (some e, v) clean p = (λ h. absurd (cc h), λ w. p.1 w)

-- Outside a system context, an insert into scoped data on which there is no error yet passes
-- exactly where the context has a tenant and every record, a TenantAware struct that is reached
-- through pointers and slices, carries that tenant already or none; and then every record is
-- inserted with that tenant. Maps and other structs are inserted as they are, with whatever tenant
-- they name.
pub stamp_create-Stamped :
    (tables : List Text) (context : Context) (stmt : Statement) (v : Value)
    → context.is_system ≡ false
    → stmt.error ≡ none
    → Targets tables stmt
    → let (after, values) = stamp_create tables context stmt v in
      ((after.error ≡ none)
        → ((is_empty context.tenant ≡ false) × Writable context.tenant v)
          × Stamped context.tenant v values)
      × ((is_empty context.tenant ≡ false) × Writable context.tenant v → after.error ≡ none)
unfolding stamp_create
stamp_create-Stamped tables context stmt v system clean targets = live-Passed stmt.error clean
  where
    scoped : is_scoped tables stmt ≡ true
    scoped = (is_scoped-Targets tables stmt).1 targets

    live-Passed :
        (e : Option Error)
        → e ≡ none
        → Passed
            ((is_empty context.tenant ≡ false) × Writable context.tenant v)
            (Stamped context.tenant v (stamp_live tables context stmt v e).1)
            (stamp_live tables context stmt v e).0.error
    live-Passed (some e) h = absurd (cc h)
    live-Passed none h = elim (Bool-cases (is_empty context.tenant)) [
      | inl t ↦ rw (system, scoped, t) (λ h. absurd (cc h), λ w. absurd (cc (w.0)))
      | inr t ↦
          let (there, back) =
            stamped-Passed context.tenant v stmt (each_record context.tenant v) clean
              (each_record-Passed context.tenant v) in
          rw (system, scoped, t) (λ h. let (w, o) = there h in ((refl, w), o), λ w. back w.1)
    ]
