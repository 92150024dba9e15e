-- ===== src/Modulekit/Monotone.antt =====
-- A projection never goes back to older state.
use sannad.Prelude.{
  ℕ, ◌≤◌, String, Bool, true, false, Option, none, some, List, [], ◌∷◌, ◌≡◌, refl, arith, inl, inr,
  Bool-cases, str_eq, eq_iff, ltb, leb,
}
use sannad.Prelude.Maps.{lookup, insert, lookup-insert}
use sannad.Modulekit.Transactions.{ok, Store, meet, stored, transact}
use sannad.Modulekit.Commits.{Committed, transact-Committed}
use sannad.Modulekit.Projection.{
  Row, Model, Tables, found, first_row, write_row, apply_over, apply, project,
}

module _ {C : Type 0} where
  -- The sequence that a key holds, 0 where it holds none.
  abbrev sequence_of : Option (Row C) → ℕ
  sequence_of none = 0
  sequence_of (some row) = row.source_sequence

  abbrev pub sequence_at : String → Tables C → ℕ
  sequence_at key t = sequence_of (lookup key t.rows)

  write_row-advances :
      (row : Row C) (key : String) (s : Store (Tables C))
      → sequence_at row.projection_key s.tables ≤ row.source_sequence
      → sequence_at key s.tables ≤ sequence_at key (write_row row s).1.tables
  unfolding write_row stored
  write_row-advances row key s h = go s.faults
    where
      inserted :
          sequence_at key s.tables
          ≤ sequence_of (lookup key (insert row.projection_key row s.tables.rows))
      inserted =
          rw (lookup-insert row.projection_key key row s.tables.rows)
            (elim (Bool-cases (str_eq row.projection_key key)) [
              | inl e ↦
                  let same : row.projection_key ≡ key =
                    ground (arith, eq_iff row.projection_key key) in
                  rw e (rw same at h)
              | inr e ↦ rw e (omega arith)
            ])

      go :
          (fs : List Bool)
          → sequence_at key s.tables
            ≤ sequence_at key
                (meet
                  (λ u. (
                    ok tt,
                    record u {
                      tables = record u.tables {
                        rows = insert row.projection_key row u.tables.rows;
                      };
                    },
                  ))
                  fs
                  s).1.tables
      go [] = inserted
      go (false ∷ fs) = inserted
      go (true ∷ fs) = omega arith

  read_row-advances :
      (model : Model) (row : Row C) (key : String) (s : Store (Tables C)) (o : Option (Row C))
      → lookup row.projection_key s.tables.rows ≡ o
      → sequence_at key s.tables ≤ sequence_at key (apply_over model row (found o s)).1.tables
  read_row-advances model row key s none e = write_row-advances row key s (rw e (omega arith))
  read_row-advances model row key s (some current) e =
      elim (Bool-cases (leb row.source_sequence current.source_sequence)) [
        | inl stale ↦ rw stale (omega arith)
        | inr newer ↦ elim (Bool-cases model.has_columns) [
          | inl named ↦ rw (newer, named) (write_row-advances row key s (rw e (ground arith)))
          | inr unnamed ↦ rw (newer, unnamed) (omega arith)
        ]
      ]

  apply-advances :
      (model : Model) (row : Row C) (key : String) (s : Store (Tables C))
      → sequence_at key s.tables ≤ sequence_at key (apply model row s).1.tables
  unfolding apply first_row stored
  apply-advances model row key s = go s.faults
    where
      go :
          (fs : List Bool)
          → sequence_at key s.tables
            ≤ sequence_at key
                (apply_over model row
                  (meet (λ u. found (lookup row.projection_key u.tables.rows) u) fs s)).1.tables
      go [] = read_row-advances model row key s _ refl
      go (false ∷ fs) = read_row-advances model row key (record s { faults = fs }) _ refl
      go (true ∷ fs) = omega arith

  project-advances :
      (model : Model) (row : Row C) (key : String) (s : Store (Tables C))
      → sequence_at key s.tables ≤ sequence_at key (project model row s).1.tables
  unfolding project Committed
  project-advances model row key s = elim (Bool-cases (str_eq row.projection_key "")) [
    | inl e ↦ rw e (omega arith)
    | inr e ↦ elim (Bool-cases (ltb 0 row.source_sequence)) [
      | inr f ↦ rw (e, f) (omega arith)
      | inl f ↦ elim (Bool-cases (str_eq model.key_column "")) [
        | inl g ↦ rw (e, f, g) (omega arith)
        | inr g ↦ rw (e, f, g) (settle (transact-Committed (apply model row) s))
      ]
    ]
  ]
    where
      settle :
          Committed (apply model row) s (transact (apply model row) s)
          → sequence_at key s.tables ≤ sequence_at key (transact (apply model row) s).1.tables
      settle (inl same) = rw same (omega arith)
      settle (inr (s1, same, done, e)) = rw (e, ← same) (apply-advances model row key s1)

  -- Events applied one after another, each with its answer dropped.
  abbrev pub project_all : Model → List (Row C) → Store (Tables C) → Store (Tables C)
  project_all model [] s = s
  project_all model (row ∷ rows) s = project_all model rows (project model row s).1

  -- Whichever calls of the store fail and in whatever order events arrive, the sequence that the
  -- projection holds for a key never decreases.
  pub project_all-advances :
      (model : Model) (rows : List (Row C)) (key : String) (s : Store (Tables C))
      → sequence_at key s.tables ≤ sequence_at key (project_all model rows s).tables
  project_all-advances model [] key s = omega arith
  project_all-advances model (row ∷ rows) key s = omega (
    arith,
    project-advances model row key s,
    project_all-advances model rows key (project model row s).1,
  )
