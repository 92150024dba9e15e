-- ===== src/Tenancy/Confined.antt =====
-- What a statement can reach that the callback on queries has let pass.
use sannad.Prelude.{
  Bool, true, false, if◌then◌else◌, Option, none, some, List, [], ◌∷◌, ◌≡◌, refl, sym, ◌⊎◌, inl,
  inr, ◌||◌, ◌&&◌, not, arith, Bool-cases,
}
use mathlib.Core.Path.{subst}
use sannad.Prelude.Tables.{Member}
use sannad.Tenancy.Mentions.{Occurs, contains-Occurs}
use sannad.Tenancy.Targets.{Targets, is_scoped-Targets}
use sannad.Prelude.Int.{codes}
use sannad.Prelude.Texts.{Text, same, same_sound, is_empty}
use sannad.Tenancy.Scope.{
  Condition, Error, scope_live, Statement, Context, clause_for_tenant, contains, is_scoped,
  find_mentioned, scoped_table_in_sql, joins_scoped, joined_scoped_table, refuse_named, scope_built,
  scope_query, other_than,
}

module _ (lower : Text → Text) where
  abbrev pub Mentions : Text → Text → Type 0
  Mentions sql table = Occurs (lower sql) (lower table)

  -- Where nothing is found, no registered table is mentioned; what is found is mentioned.
  find_mentioned-none :
      (tables : List Text) (sql table : Text)
      → find_mentioned lower tables sql ≡ none
      → Member table tables
      → is_empty table ≡ false
      → contains (lower sql) (lower table) ≡ false
  unfolding find_mentioned
  find_mentioned-none [] sql table h m named = elim m [ ]
  find_mentioned-none (t ∷ tables) sql table h (inl e) named =
      let full : is_empty t ≡ false = rw (← e) named in rw e (ground (arith, h, full))
  find_mentioned-none (t ∷ tables) sql table h (inr m) named =
      find_mentioned-none tables sql table (ground (arith, h)) m named

  find_mentioned-some :
      (tables : List Text) (sql found : Text)
      → find_mentioned lower tables sql ≡ some found
      → contains (lower sql) (lower found) ≡ true
  unfolding find_mentioned
  find_mentioned-some [] sql found h = absurd (cc h)
  find_mentioned-some (t ∷ tables) sql found h =
      elim (Bool-cases (not (is_empty t) && contains (lower sql) (lower t))) [
        | inl e ↦
            let same_table : t ≡ found = ground (arith, h, e) in
            rw (← same_table) (ground (arith, e))
        | inr e ↦ find_mentioned-some tables sql found (ground (arith, h, e))
      ]

  -- A text of a join mentions no registered table, or the primary table as well.
  abbrev pub Guarded : List Text → Text → Text → Type 0
  Guarded tables primary join =
      (table : Text)
      → Member table tables
      → is_empty table ≡ false
      → is_empty join ≡ false
      → Mentions join table
      → Mentions join primary

  other_than-Guarded :
      (tables : List Text) (primary join : Text)
      → other_than lower primary (scoped_table_in_sql lower tables join) ≡ false
      → Guarded tables primary join
  unfolding scoped_table_in_sql
  other_than-Guarded tables primary join h table m named text mention =
      go (find_mentioned lower tables join) refl (ground (arith, h, text))
    where
      go :
          (r : Option Text)
          → find_mentioned lower tables join ≡ r
          → other_than lower primary r ≡ false
          → Mentions join primary
      go none e k = absurd (
          cc (
            find_mentioned-none tables join table e m named,
            (contains-Occurs (lower join) (lower table)).1 mention,
          ))
      go (some found) e k =
          let same_table : found ≡ primary = same_sound found primary (ground (arith, k)) in
          rw (← same_table) (
            (contains-Occurs (lower join) (lower found)).0
              (find_mentioned-some tables join found e))

  joins_scoped-Guarded :
      (tables : List Text) (primary join : Text) (joins : List Text)
      → joins_scoped lower tables primary joins ≡ false
      → Member join joins
      → Guarded tables primary join
  unfolding joins_scoped
  joins_scoped-Guarded tables primary join [] h m = elim m [ ]
  joins_scoped-Guarded tables primary join (first ∷ joins) h (inl e) =
      rw e (other_than-Guarded tables primary first (ground (arith, h)))
  joins_scoped-Guarded tables primary join (first ∷ joins) h (inr m) =
      joins_scoped-Guarded tables primary join joins (ground (arith, h)) m

  -- A condition on the tenant: it names the table, or none where the statement names none that is
  -- known before it is built.
  abbrev pub OfTenant : Text → Text → Condition → Type 0
  OfTenant table tenant c =
      (c.tenant ≡ tenant)
      × ((c.table ≡ table)
          ⊎ ((c.table ≡ []) × ((is_empty table ≡ true) ⊎ (table ≡ codes "~~~ct~~~"))))

  -- What is known of a statement without an error, before and after the callback.
  abbrev pub Confined : List Text → Context → Statement → Statement → Type 0
  Confined tables context stmt after =
      ((is_empty stmt.sql ≡ false)
        × (after ≡ stmt)
        × ((table : Text)
            → Member table tables
            → is_empty table ≡ false
            → ¬ Mentions stmt.sql table))
      ⊎ ((is_empty stmt.sql ≡ true)
          × ((join : Text)
              → Member join stmt.joins ⊎ Member join stmt.from_joins
              → Guarded tables stmt.table join)
          × ((Targets tables stmt
                × (is_empty context.tenant ≡ false)
                × ((c : Condition) × OfTenant stmt.table context.tenant c
                    × (after ≡ record stmt { conditions = c ∷ stmt.conditions })))
              ⊎ (¬ Targets tables stmt × (after ≡ stmt))))

  clause_for_tenant-OfTenant :
      (table tenant : Text) → OfTenant table tenant (clause_for_tenant table tenant)
  unfolding clause_for_tenant
  clause_for_tenant-OfTenant table tenant =
      (refl, go (is_empty table) (same table current) refl refl)
    where
      current : Text
      current = codes "~~~ct~~~"

      go :
          (b c : Bool)
          → is_empty table ≡ b
          → same table current ≡ c
          → ((if not b && not c then table else []) ≡ table)
            ⊎ (((if not b && not c then table else []) ≡ [])
                × ((is_empty table ≡ true) ⊎ (table ≡ codes "~~~ct~~~")))
      go false false e f = inl refl
      go true c e f = inr (refl, inl e)
      go false true e f = inr (refl, inr (same_sound table current f))

  raw-Confined :
      (tables : List Text) (context : Context) (stmt : Statement) (r : Option Text)
      → is_empty stmt.sql ≡ false
      → scoped_table_in_sql lower tables stmt.sql ≡ r
      → (refuse_named lower r stmt).error ≡ none
      → Confined tables context stmt (refuse_named lower r stmt)
  unfolding scoped_table_in_sql
  raw-Confined tables context stmt none text e h =
      let found : find_mentioned lower tables stmt.sql ≡ none = ground (arith, e, text) in
      inl (
        text,
        refl,
        λ table m named mention. absurd (
            cc (
              find_mentioned-none tables stmt.sql table found m named,
              (contains-Occurs (lower stmt.sql) (lower table)).1 mention,
            )),
      )
  raw-Confined tables context stmt (some found) text e h = absurd (cc h)

  built-Confined :
      (tables : List Text) (context : Context) (stmt : Statement)
      → is_empty stmt.sql ≡ true
      → (scope_built lower tables context stmt).error ≡ none
      → Confined tables context stmt (scope_built lower tables context stmt)
  unfolding joined_scoped_table
  built-Confined tables context stmt text =
      let on_joins : (joins_scoped lower tables stmt.table stmt.joins
              || joins_scoped lower tables stmt.table stmt.from_joins)
            ≡ false
          → (join : Text) → Member join stmt.joins ⊎ Member join stmt.from_joins
          → Guarded tables stmt.table join =
        λ none_scoped join m. elim m [
          | inl k ↦
              joins_scoped-Guarded tables stmt.table join stmt.joins (ground (arith, none_scoped)) k
          | inr k ↦
              joins_scoped-Guarded tables stmt.table join stmt.from_joins
                (ground (arith, none_scoped)) k
        ] in
      elim (Bool-cases (
        joins_scoped lower tables stmt.table stmt.joins
        || joins_scoped lower tables stmt.table stmt.from_joins)) [
          | inl j ↦ rw j (λ h. absurd (cc h))
          | inr j ↦ elim (Bool-cases (is_scoped tables stmt)) [
            | inl scoped ↦ elim (Bool-cases (is_empty context.tenant)) [
              | inl t ↦ rw (j, scoped, t) (λ h. absurd (cc h))
              | inr t ↦
                  rw (j, scoped, t)
                    (λ h. inr (
                      text,
                      on_joins j,
                      inl (
                        (is_scoped-Targets tables stmt).0 scoped,
                        refl,
                        (
                          clause_for_tenant stmt.table context.tenant,
                          clause_for_tenant-OfTenant stmt.table context.tenant,
                          refl,
                        ),
                      ),
                    ))
            ]
            | inr scoped ↦
                rw (j, scoped)
                  (λ h. inr (
                    text,
                    on_joins j,
                    inr (
                      λ targets. absurd (cc (scoped, (is_scoped-Targets tables stmt).1 targets)),
                      refl,
                    ),
                  ))
          ]
        ]

  live-Confined :
      (tables : List Text) (context : Context) (stmt : Statement) (e : Option Error)
      → context.is_system ≡ false
      → e ≡ none
      → (scope_live lower tables context stmt e).error ≡ none
      → Confined tables context stmt (scope_live lower tables context stmt e)
  live-Confined tables context stmt (some e) system clean = absurd (cc clean)
  live-Confined tables context stmt none system clean = elim (Bool-cases (is_empty stmt.sql)) [
    | inl e ↦
        subst (λ r. r.error ≡ none → Confined tables context stmt r) (sym (rw (system, e) refl))
          (built-Confined tables context stmt e)
    | inr e ↦
        subst (λ r. r.error ≡ none → Confined tables context stmt r) (sym (rw (system, e) refl))
          (raw-Confined tables context stmt (scoped_table_in_sql lower tables stmt.sql) e refl)
  ]

  -- Outside a system context, a query, update or delete on which there is no error yet and that the
  -- callback lets pass is one of two, where a text mentions a table if its lower case holds that of
  -- the table. Raw SQL mentions no registered table and is left as it is. Of a statement that GORM
  -- builds, a join, also one in the FROM clause, whose text mentions a registered table mentions the
  -- primary table too. Where it targets scoped data there is a tenant, and a condition on that
  -- tenant is added to those it had and nothing else changes; where it does not, it is left as it is.
  pub scope_query-Confined :
      (tables : List Text) (context : Context) (stmt : Statement)
      → context.is_system ≡ false
      → stmt.error ≡ none
      → (scope_query lower tables context stmt).error ≡ none
      → Confined tables context stmt (scope_query lower tables context stmt)
  unfolding scope_query
  scope_query-Confined tables context stmt system clean =
      live-Confined tables context stmt stmt.error system clean
