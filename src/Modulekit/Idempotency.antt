-- ===== src/Modulekit/Idempotency.antt =====
-- Idempotent consumers (pkg/modulekit/idempotency.go).
use sannad.Prelude.{
  String, Bool, true, false, List, [], ◌∷◌, ◌&&◌, ◌||◌, ltb, str_eq, if◌then◌else◌, length,
}
use sannad.Modulekit.Transactions.{
  duplicate, duplicate_event, invalid_idempotency_key, Result, ok, err, Store, Exec, pure, raise,
  ◌>>=◌, ◌>>◌, stored, transact,
}

-- A row of `modulekit_processed_events`, of one tenant; the time is written and never read.
pub record ProcessedEvent : Type 0 where
  pub consumer : String
  pub event_id : String

-- The markers and the other tables of the module.
pub record Tables (D : Type 0) : Type 0 where
  pub processed : List ProcessedEvent
  pub module_data : D

abbrev is_marker : String → String → ProcessedEvent → Bool
is_marker consumer event_id p = str_eq p.consumer consumer && str_eq p.event_id event_id

unfoldable pub select_markers : String → String → List ProcessedEvent → List ProcessedEvent
select_markers consumer event_id [] = []
select_markers consumer event_id (p ∷ ps) =
    let rest = select_markers consumer event_id ps in
    if is_marker consumer event_id p then p ∷ rest else rest

unfoldable pub without_markers : String → String → List ProcessedEvent → List ProcessedEvent
without_markers consumer event_id [] = []
without_markers consumer event_id (p ∷ ps) =
    let rest = without_markers consumer event_id ps in
    if is_marker consumer event_id p then rest else p ∷ rest

-- The primary key.
unfoldable pub is_claimed : String → String → List ProcessedEvent → Bool
is_claimed consumer event_id [] = false
is_claimed consumer event_id (p ∷ ps) =
    is_marker consumer event_id p || is_claimed consumer event_id ps

module _ {D : Type 0} where
  abbrev pub insert_unless : Bool → ProcessedEvent → Exec (Tables D) (Unit {0})
  insert_unless true p s = (err duplicate, s)
  insert_unless false p s =
      (ok tt, record s { tables = record s.tables { processed = p ∷ s.tables.processed } })

  unfoldable pub create_marker : ProcessedEvent → Exec (Tables D) (Unit {0})
  unfolding stored is_claimed
  create_marker p =
      stored (λ s. insert_unless (is_claimed p.consumer p.event_id s.tables.processed) p s)

  -- `isDuplicateKey(err)`
  abbrev pub claimed_as :
      Result (Unit {0}) × Store (Tables D) → Result (Unit {0}) × Store (Tables D)
  claimed_as (err duplicate, s) = (err duplicate_event, s)
  claimed_as (r, s) = (r, s)

  unfoldable pub claim : String → String → Exec (Tables D) (Unit {0})
  unfolding create_marker
  claim consumer event_id s =
      claimed_as (create_marker (record { consumer = consumer; event_id = event_id }) s)

  -- The handler's work on the module's data within the transaction; its own calls of the store are
  -- part of the function.
  abbrev pub handled : (D → Result (Unit {0}) × D) → Exec (Tables D) (Unit {0})
  handled handle s = (
    (handle s.tables.module_data).0,
    record s { tables = record s.tables { module_data = (handle s.tables.module_data).1 } },
  )

  unfoldable pub idempotent :
      String → String → (D → Result (Unit {0}) × D) → Exec (Tables D) (Unit {0})
  unfolding transact claim
  idempotent consumer event_id handle =
      if str_eq consumer ""
      then raise invalid_idempotency_key
      else if str_eq event_id ""
      then raise invalid_idempotency_key
      else transact (do claim consumer event_id; handled handle)

  unfoldable pub was_processed : String → String → Exec (Tables D) Bool
  unfolding stored select_markers
  was_processed consumer event_id = do
    n ← stored (λ s. (ok (length (select_markers consumer event_id s.tables.processed)), s))
    pure (ltb 0 n)

  unfoldable pub forget_processed : String → String → Exec (Tables D) (Unit {0})
  unfolding stored without_markers
  forget_processed consumer event_id = stored (λ s. (
    ok tt,
    record s {
      tables = record s.tables { processed = without_markers consumer event_id s.tables.processed };
    },
  ))
