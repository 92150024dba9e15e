-- ===== src/Modulekit/Projection.antt =====
-- Projections (pkg/modulekit/projection.go).
use sannad.Prelude.{
  ℕ, String, Bool, true, false, Option, none, some, not, leb, ltb, str_eq, if◌then◌else◌,
}
use sannad.Prelude.Maps.{Assoc, lookup, insert}
use sannad.Modulekit.Transactions.{
  not_found, stale_projection, projection_not_sequenced, Result, ok, err, Store, Exec, pure, raise,
  ◌>>◌, stored, transact,
}

-- A row of a projection: its key, the sequence of its source, and its other columns. A sequence
-- below 1 is refused, so 0 stands for all of those.
pub record Row (C : Type 0) : Type 0 where
  pub projection_key : String
  pub source_sequence : ℕ
  pub columns : C

-- What a model says of itself besides: its key column, and whether it names columns to write.
pub record Model : Type 0 where
  pub key_column : String
  pub has_columns : Bool

-- The rows of one projection under their primary key, and the state rows of all projections:
-- `RebuildingSince`, where it is set.
pub record Tables (C : Type 0) : Type 0 where
  pub rows : Assoc (Row C)
  pub states : Assoc (Option ℕ)

module _ {C : Type 0} where
  abbrev pub found : {A : Type 0} → Option A → Exec (Tables C) A
  found none = raise not_found
  found (some a) = pure a

  unfoldable pub first_row : String → Exec (Tables C) (Row C)
  unfolding stored lookup
  first_row key = stored (λ s. found (lookup key s.tables.rows) s)

  -- Create where there is no row of the key, Update of a row where there is one.
  unfoldable pub write_row : Row C → Exec (Tables C) (Unit {0})
  unfolding stored insert
  write_row row = stored (λ s. (
    ok tt,
    record s { tables = record s.tables { rows = insert row.projection_key row s.tables.rows } },
  ))

  -- The body of the transaction after the read.
  abbrev pub apply_over :
      Model → Row C → Result (Row C) × Store (Tables C) → Result (Unit {0}) × Store (Tables C)
  apply_over model row (err not_found, s) = write_row row s
  apply_over model row (err e, s) = (err e, s)
  apply_over model row (ok current, s) =
      if leb row.source_sequence current.source_sequence
      then (err stale_projection, s)
      else if not model.has_columns
      then (err projection_not_sequenced, s)
      else write_row row s

  unfoldable pub apply : Model → Row C → Exec (Tables C) (Unit {0})
  unfolding first_row write_row
  apply model row s = apply_over model row (first_row row.projection_key s)

  unfoldable pub project : Model → Row C → Exec (Tables C) (Unit {0})
  unfolding transact apply
  project model row =
      if str_eq row.projection_key ""
      then raise projection_not_sequenced
      else if not (ltb 0 row.source_sequence)
      then raise projection_not_sequenced
      else if str_eq model.key_column ""
      then raise projection_not_sequenced
      else transact (apply model row)

  abbrev since_of : Result (Option ℕ) × Store (Tables C) → Result Bool × Store (Tables C)
  since_of (err not_found, s) = (ok false, s)
  since_of (err e, s) = (err e, s)
  since_of (ok none, s) = (ok false, s)
  since_of (ok (some since), s) = (ok true, s)

  unfoldable pub is_rebuilding : String → Exec (Tables C) Bool
  unfolding stored lookup
  is_rebuilding projection s =
      since_of (stored (λ u. found (lookup projection u.tables.states) u) s)

  abbrev write_state : String → Option ℕ → Exec (Tables C) (Unit {0})
  write_state projection since = stored (λ s. (
    ok tt,
    record s { tables = record s.tables { states = insert projection since s.tables.states } },
  ))

  -- Both a row that is missing and one that is there end with the mark given.
  abbrev mark_over :
      String
      → Option ℕ
      → Result (Option ℕ) × Store (Tables C)
      → Result (Unit {0}) × Store (Tables C)
  mark_over projection since (err not_found, s) = write_state projection since s
  mark_over projection since (err e, s) = (err e, s)
  mark_over projection since (ok _, s) = write_state projection since s

  unfoldable pub mark_rebuilding : String → Option ℕ → Exec (Tables C) (Unit {0})
  unfolding stored lookup insert
  mark_rebuilding projection since s =
      mark_over projection since (stored (λ u. found (lookup projection u.tables.states) u) s)

  -- `truncate` and `replay` are the module's, and work on the rows of the projection.
  unfoldable pub rebuild :
      String
      → ℕ
      → Exec (Tables C) (Unit {0})
      → Exec (Tables C) (Unit {0})
      → Exec (Tables C) (Unit {0})
  unfolding mark_rebuilding transact
  rebuild projection started_at truncate replay =
      if str_eq projection "" then raise projection_not_sequenced else (do
        mark_rebuilding projection (some started_at)
        transact (do truncate; replay)
        mark_rebuilding projection none)
