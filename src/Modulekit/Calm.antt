-- ===== src/Modulekit/Calm.antt =====
-- Idempotent and Project where no call of the store fails.
use sannad.Prelude.{
  ◌<◌, String, List, ◌∷◌, ◌⊎◌, ◌↔◌, true, false, some, [], ◌≡◌, ◌≢◌, refl, arith, Bool-cases,
  Option-cases, inl, inr, str_eq, str_eq_self, eq_iff, ltb, leb, if◌then◌else◌,
}
use sannad.Prelude.Maps.{lookup, insert, lookup-insert}
use sannad.Modulekit.Transactions.{
  duplicate_event, stale_projection, Error, Result, ok, err, Store, stored, transact,
}
use sannad.Modulekit.Idempotency.{
  Tables, ProcessedEvent, is_claimed, create_marker, claim, idempotent,
}
use sannad.Modulekit.ExactlyOnce.{worked}
use sannad.Modulekit.Projection as Projections
use sannad.Modulekit.Projection.{Row, Model, first_row, write_row, apply, project}
use sannad.Modulekit.Monotone.{sequence_at}

named : (s : String) → s ≢ "" → str_eq s "" ≡ false
named s h = ground (arith, eq_iff s "")

-- The table holds the marker of an event for a consumer.
abbrev pub Marked : String → String → List ProcessedEvent → Type 0
Marked consumer event_id [] = ⊥
Marked consumer event_id (p ∷ ps) =
    ((p.consumer ≡ consumer) × (p.event_id ≡ event_id)) ⊎ Marked consumer event_id ps

is_claimed-Marked :
    (consumer event_id : String) (ps : List ProcessedEvent)
    → (is_claimed consumer event_id ps ≡ true) ↔ Marked consumer event_id ps
unfolding is_claimed
is_claimed-Marked consumer event_id [] = (λ h. absurd (cc h), λ h. elim h [ ])
is_claimed-Marked consumer event_id (p ∷ ps) = ground (
  arith,
  eq_iff p.consumer consumer,
  eq_iff p.event_id event_id,
  is_claimed-Marked consumer event_id ps,
)

-- With no faults and under names that are not empty, Idempotent does one of three. It refuses an
-- event that is marked for the consumer, and changes nothing; the handler's work on an event that
-- is not marked is done and the event is marked, where the handler succeeds; and where the handler
-- fails on such an event, its error is returned and nothing is changed.
pub idempotent-calm :
    {D : Type 0} (consumer event_id : String) (handle : D → Result (Unit {0}) × D)
    (s : Store (Tables D))
    → s.faults ≡ []
    → consumer ≢ ""
    → event_id ≢ ""
    → (Marked consumer event_id s.tables.processed
        × (idempotent consumer event_id handle s ≡ (err duplicate_event, s)))
      ⊎ ((¬ Marked consumer event_id s.tables.processed
            × ((handle s.tables.module_data).0 ≡ ok tt)
            × (idempotent consumer event_id handle s
                ≡ (ok tt, record s { tables = worked consumer event_id handle s.tables })))
          ⊎ (¬ Marked consumer event_id s.tables.processed
              × ((e : Error) × ((handle s.tables.module_data).0 ≡ err e)
                  × (idempotent consumer event_id handle s ≡ (err e, s)))))
unfolding idempotent transact stored claim create_marker
idempotent-calm {D = D} consumer event_id handle s calm c e =
    elim (Bool-cases (is_claimed consumer event_id s.tables.processed)) [
      | inl claimed ↦ inl (
        (is_claimed-Marked consumer event_id s.tables.processed).0 claimed,
        rw (named consumer c, named event_id e, calm, claimed) refl,
      )
      | inr free ↦ inr (handling (handle s.tables.module_data).0 refl free)
    ]
  where
    unmarked :
        is_claimed consumer event_id s.tables.processed ≡ false
        → ¬ Marked consumer event_id s.tables.processed
    unmarked free h =
        absurd (cc (free, (is_claimed-Marked consumer event_id s.tables.processed).1 h))

    handling :
        (r : Result (Unit {0}))
        → (handle s.tables.module_data).0 ≡ r
        → is_claimed consumer event_id s.tables.processed ≡ false
        → (¬ Marked consumer event_id s.tables.processed
            × ((handle s.tables.module_data).0 ≡ ok tt)
            × (idempotent consumer event_id handle s
                ≡ (ok tt, record s { tables = worked consumer event_id handle s.tables })))
          ⊎ (¬ Marked consumer event_id s.tables.processed
              × ((e : Error) × ((handle s.tables.module_data).0 ≡ err e)
                  × (idempotent consumer event_id handle s ≡ (err e, s))))
    handling (ok tt) works free =
        inl (unmarked free, works, rw (named consumer c, named event_id e, calm, free, works) refl)
    handling (err x) fails free =
        inr (
          unmarked free,
          (x, fails, rw (named consumer c, named event_id e, calm, free, fails) refl),
        )

-- With no faults, a row with a key and a positive sequence, and a model with a key column and
-- projected columns: Project stores the row where its sequence is above the one that the key holds,
-- and otherwise refuses it as stale and changes nothing.
pub project-calm :
    {C : Type 0} (model : Model) (row : Row C) (s : Store (Projections.Tables C))
    → s.faults ≡ []
    → row.projection_key ≢ ""
    → 0 < row.source_sequence
    → model.key_column ≢ ""
    → model.has_columns ≡ true
    → let r = project model row s in
      if ltb (sequence_at row.projection_key s.tables) row.source_sequence
      then (r.0 ≡ ok tt) × (lookup row.projection_key r.1.tables.rows ≡ some row)
      else (r.0 ≡ err stale_projection) × (r.1.tables ≡ s.tables)
unfolding project transact stored apply first_row write_row
project-calm model row s calm key positive column columns =
    elim (Option-cases (lookup row.projection_key s.tables.rows)) [
      | inl e ↦
          rw
            (
              named row.projection_key key,
              positive_test,
              named model.key_column column,
              calm,
              e,
              positive_test,
            )
            (refl, stored_row)
      | inr (current, e) ↦ elim (Bool-cases (ltb current.source_sequence row.source_sequence)) [
        | inl newer ↦
            let fresh : leb row.source_sequence current.source_sequence ≡ false = ground arith in
            rw
              (
                named row.projection_key key,
                positive_test,
                named model.key_column column,
                calm,
                e,
                newer,
                fresh,
                columns,
              )
              (refl, stored_row)
        | inr older ↦
            let stale : leb row.source_sequence current.source_sequence ≡ true = ground arith in
            rw
              (
                named row.projection_key key,
                positive_test,
                named model.key_column column,
                calm,
                e,
                older,
                stale,
              )
              (refl, refl)
      ]
    ]
  where
    positive_test : ltb 0 row.source_sequence ≡ true
    positive_test = ground arith

    stored_row : lookup row.projection_key (insert row.projection_key row s.tables.rows) ≡ some row
    stored_row =
        rw
          (
            lookup-insert row.projection_key row.projection_key row s.tables.rows,
            str_eq_self row.projection_key,
          )
          refl
