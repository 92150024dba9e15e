-- ===== src/Auth/Frame.antt =====
-- Two states with the same roles for a tenant, and calls of the database that keep those roles.
use sannad.Prelude.{
  String, Bool, true, false, List, [], ◌∷◌, ◌≡◌, refl, ◌∙◌, ◌&&◌, arith, str_eq, eq_iff, Bool-cases,
  inl, inr,
}
use sannad.Prelude.Tables.{select, select-remove, select-insert}
use sannad.Auth.Database.{
  Error, Context, AuditEvent, Db, Result, ok, err, Exec, pure, raise, proceed, ◌>>=◌, ◌>>◌, meet,
  stored, rollback, transact, note, log_audit,
}
use sannad.Auth.Roles.{
  RoleAssignment, RoleDefinition, Tables, is_definition, in_tenant, in_context, create_assignment,
  delete_assignments, find_assignments, find_definitions, delete_definitions, create_definition,
  save_definition,
}

abbrev pub assignments_of : String → Tables → List RoleAssignment
assignments_of tenant t = select (λ a. str_eq a.tenant_id tenant) t.assignments

abbrev pub definitions_of : String → Tables → List RoleDefinition
definitions_of tenant t = select (in_tenant tenant) t.definitions

-- Two states of the tables hold the same rows of a tenant.
abbrev pub SameFor : String → Tables → Tables → Type 0
SameFor tenant t u =
    (assignments_of tenant t ≡ assignments_of tenant u)
    × (definitions_of tenant t ≡ definitions_of tenant u)

module _ (other : String) where
  unfoldable pub Keeps : {A : Type 0} → Exec Tables A → Type 0
  Keeps m = (s : Db Tables) → SameFor other (m s).1.tables s.tables

  pub pure-Keeps : {A : Type 0} (a : A) → Keeps (pure a)
  unfolding Keeps
  pure-Keeps a s = (refl, refl)

  pub raise-Keeps : (A : Type 0) (e : Error) → Keeps (raise {A = A} e)
  unfolding Keeps
  raise-Keeps A e s = (refl, refl)

  stored-Keeps : {A : Type 0} (m : Exec Tables A) → Keeps m → Keeps (stored m)
  unfolding Keeps stored
  stored-Keeps m k s = go s.faults
    where
      go : (fs : List Bool) → SameFor other (meet m fs s).1.tables s.tables
      go [] = k s
      go (false ∷ fs) = k (record s { faults = fs })
      go (true ∷ fs) = (refl, refl)

  pub bind-Keeps :
      {A B : Type 0} (m : Exec Tables A) (f : A → Exec Tables B)
      → Keeps m
      → ((a : A) → Keeps (f a))
      → Keeps (m >>= f)
  unfolding Keeps
  bind-Keeps {A = A} {B = B} m f k l s = go (m s) (k s)
    where
      go :
          (r : Result A × Db Tables)
          → SameFor other r.1.tables s.tables
          → SameFor other (proceed f r).1.tables s.tables
      go (ok a, u) e = let (x, y) = l a u in (x ∙ e.0, y ∙ e.1)
      go (err e, u) same = same

  pub transact-Keeps : {A : Type 0} (m : Exec Tables A) → Keeps m → Keeps (transact m)
  unfolding Keeps transact
  transact-Keeps {A = A} m k s = go (body s) (body-Keeps s)
    where
      body : Exec Tables A
      body = do stored (pure tt); a ← m; stored (pure tt); pure a

      body-Keeps : Keeps body
      body-Keeps = bind-Keeps (stored (pure tt)) _ (stored-Keeps _ (pure-Keeps tt)) (λ u.
          bind-Keeps m _ k (λ a.
            bind-Keeps (stored (pure tt)) _ (stored-Keeps _ (pure-Keeps tt)) (λ v. pure-Keeps a)))

      go :
          (r : Result A × Db Tables)
          → SameFor other r.1.tables s.tables
          → SameFor other (rollback s.tables r).1.tables s.tables
      go (ok a, u) same = same
      go (err e, u) same = (refl, refl)

  pub log_audit-Keeps : (e : AuditEvent) → Keeps (log_audit e)
  unfolding Keeps log_audit
  log_audit-Keeps e s = go s.faults
    where
      go : (fs : List Bool) → SameFor other (note e fs s).tables s.tables
      go [] = (refl, refl)
      go (false ∷ fs) = (refl, refl)
      go (true ∷ fs) = (refl, refl)

  pub find_assignments-Keeps : (p : RoleAssignment → Bool) → Keeps (find_assignments p)
  unfolding find_assignments Keeps
  find_assignments-Keeps p = stored-Keeps _ (λ s. (refl, refl))

  pub find_definitions-Keeps : (p : RoleDefinition → Bool) → Keeps (find_definitions p)
  unfolding find_definitions Keeps
  find_definitions-Keeps p = stored-Keeps _ (λ s. (refl, refl))

  pub create_assignment-Keeps :
      (a : RoleAssignment) → str_eq a.tenant_id other ≡ false → Keeps (create_assignment a)
  unfolding create_assignment Keeps
  create_assignment-Keeps a apart =
      stored-Keeps _
        (λ s. (select-insert (λ a. str_eq a.tenant_id other) s.tables.assignments a apart, refl))

  pub create_definition-Keeps :
      (d : RoleDefinition) → str_eq d.tenant_id other ≡ false → Keeps (create_definition d)
  unfolding create_definition Keeps
  create_definition-Keeps d apart =
      stored-Keeps _ (λ s. (refl, select-insert (in_tenant other) s.tables.definitions d apart))

  -- Rows of one tenant, further restricted, are rows of no other.
  pub elsewhere :
      (tenant row : String) (more : Bool)
      → str_eq tenant other ≡ false
      → (str_eq row tenant && more) ≡ true
      → str_eq row other ≡ false
  elsewhere tenant row more apart h =
      ground (arith, h, apart, eq_iff row tenant, eq_iff row other, eq_iff tenant other)

  pub delete_assignments-Keeps :
      (q : RoleAssignment → Bool)
      → ((a : RoleAssignment) → q a ≡ true → str_eq a.tenant_id other ≡ false)
      → Keeps (delete_assignments q)
  unfolding delete_assignments Keeps
  delete_assignments-Keeps q apart =
      stored-Keeps _
        (λ s. (select-remove (λ a. str_eq a.tenant_id other) q apart s.tables.assignments, refl))

  pub delete_definitions-Keeps :
      (tenant name : String)
      → str_eq tenant other ≡ false
      → Keeps (delete_definitions (is_definition tenant name))
  unfolding delete_definitions Keeps
  delete_definitions-Keeps tenant name apart = stored-Keeps _ (λ s. (
    refl,
    select-remove (in_tenant other) (is_definition tenant name)
        (λ d h. elsewhere tenant d.tenant_id (str_eq d.name name) apart h) s.tables.definitions,
  ))

  pub save_definition-Keeps :
      (d : RoleDefinition) → str_eq d.tenant_id other ≡ false → Keeps (save_definition d)
  unfolding save_definition Keeps
  save_definition-Keeps d apart = stored-Keeps _ (λ s. (
    refl,
    select-insert (in_tenant other) _ d apart
        ∙ select-remove (in_tenant other) (is_definition d.tenant_id d.name)
            (λ e h. elsewhere d.tenant_id e.tenant_id (str_eq e.name d.name) apart h)
            s.tables.definitions,
  ))

  pub in_context-Keeps :
      {A : Type 0} (context : Context) (m : Exec Tables A) → Keeps m → Keeps (in_context context m)
  unfolding Keeps
  in_context-Keeps {A = A} context m k = elim (Bool-cases (str_eq context.tenant "")) [
    | inl e ↦ rw e (λ s. (refl, refl))
    | inr e ↦ rw e k
  ]
