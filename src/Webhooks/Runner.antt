-- ===== src/Webhooks/Runner.antt =====
-- The runner (internal/platform/webhooks/runner.go): events become deliveries, which are drained
-- and replayed.
use sannad.Prelude.{
  ℕ, String, Bool, true, false, Option, none, some, List, [], ◌∷◌, ◌+◌, ◌&&◌, leb, ltb, str_eq,
  if◌then◌else◌, length, take,
}
use sannad.Prelude.Texts.{Text}
use sannad.Webhooks.{Endpoint, wants, Delivery, DeliveryStatus, pending, delivered, dead}
use sannad.Webhooks.Retry.{advance, outcome_of}
use sannad.Webhooks.Queue.{
  Error, duplicate, already_delivered, Queue, Outside, Result, ok, err, Exec, pure, raise, ◌>>=◌,
  ◌>>◌, draw, find_endpoints, find_deliveries, first_endpoint, first_delivery, update_delivery,
  create_delivery,
}

-- events.Delivery, as far as the runner reads it.
pub record Event : Type 0 where
  pub tenant_id : String
  pub name : Text
  pub data_text : String
  pub sequence : ℕ

abbrev pub is_dead : DeliveryStatus → Bool
is_dead dead = true
is_dead _ = false

abbrev is_pending : DeliveryStatus → Bool
is_pending pending = true
is_pending _ = false

abbrev pub is_delivered : DeliveryStatus → Bool
is_delivered delivered = true
is_delivered _ = false

-- Every column that `save` writes.
abbrev pub saved : Delivery → Delivery → Delivery
saved d row = record row {
  status = d.status;
  attempts = d.attempts;
  next_attempt_at = d.next_attempt_at;
  last_error = d.last_error;
  last_status_code = d.last_status_code;
  updated_at = d.updated_at;
  delivered_at = elim d.delivered_at [ none ↦ row.delivered_at | some t ↦ some t ];
}

abbrev pub orphaned : ℕ → Delivery → Delivery
orphaned now d = record d {
  status = dead;
  last_error = "endpoint no longer exists";
  updated_at = now;
}

abbrev pub is_due : ℕ → Delivery → Bool
is_due now d = is_pending d.status && leb d.next_attempt_at now

-- A limit of 0 or less is none.
abbrev pub limited : ℕ → List Delivery → List Delivery
limited limit due = if ltb 0 limit && ltb limit (length due) then take limit due else due

abbrev pub requeued : ℕ → Delivery → Delivery
requeued now row = record row {
  status = pending;
  attempts = 0;
  next_attempt_at = now;
  last_error = "";
  updated_at = now;
}

-- `isDuplicate(err)` lets the loop go on.
abbrev pub unless_duplicate :
    {W : Type 0} → Result (Unit {0}) × Queue W → Result (Unit {0}) × Queue W
unless_duplicate (err duplicate, q) = (ok tt, q)
unless_duplicate (r, q) = (r, q)

abbrev pub new_row : Event → String → Endpoint → String → ℕ → ℕ → ℕ → Delivery
new_row event event_id e id due created updated = record {
  id = id;
  endpoint_id = e.id;
  event_id = event_id;
  event = event.name;
  payload = event.data_text;
  status = pending;
  attempts = 0;
  next_attempt_at = due;
  last_error = "";
  last_status_code = 0;
  created_at = created;
  updated_at = updated;
  delivered_at = none;
}

module _ {W : Type 0} (o : Outside W) where
  unfoldable pub event_identity : Event → Exec W String
  event_identity event =
      if ltb 0 event.sequence
      then pure (o.numbered event.tenant_id event.sequence)
      else draw o.new_id

  -- The row of an event for an endpoint, with a new identity and three readings of the clock.
  abbrev pub drawn_row : Event → String → Endpoint → W → Delivery × W
  drawn_row event event_id e w =
      let (id, w1) = o.new_id w in
      let (due, w2) = o.now w1 in
      let (created, w3) = o.now w2 in
      let (updated, w4) = o.now w3 in (new_row event event_id e id due created updated, w4)

  unfoldable pub queue_one : Event → String → Endpoint → Exec W (Unit {0})
  unfolding create_delivery
  queue_one event event_id e q =
      unless_duplicate ((do row ← draw (drawn_row event event_id e); create_delivery row) q)

  unfoldable pub queue_all : Event → String → List Endpoint → Exec W (Unit {0})
  unfolding queue_one wants
  queue_all event event_id [] = pure tt
  queue_all event event_id (e ∷ es) =
      let rest = queue_all event event_id es in
      if wants e event.name then (do queue_one event event_id e; rest) else rest

  unfoldable pub enqueue : Event → Exec W (Unit {0})
  unfolding find_endpoints event_identity queue_all
  enqueue event = do
    endpoints ← find_endpoints (λ e. e.active)
    event_id ← event_identity event
    queue_all event event_id endpoints

  unfoldable pub save : Delivery → Exec W (Unit {0})
  unfolding update_delivery
  save d = update_delivery d.id (saved d)

  abbrev pub attempted : Delivery → Endpoint → Exec W (Unit {0})
  attempted d e = do
    response ← draw (o.post e d)
    now ← draw o.now
    save (advance d (outcome_of o.status_text response) now o.jitter).0

  -- Any error of `First` counts as a missing endpoint.
  abbrev pub on_endpoint : ℕ → Delivery → Result Endpoint × Queue W → Result (Unit {0}) × Queue W
  on_endpoint now d (err e, q) = save (orphaned now d) q
  on_endpoint now d (ok e, q) = attempted d e q

  unfoldable pub drain_one : ℕ → Delivery → Exec W (Unit {0})
  unfolding first_endpoint save advance outcome_of
  drain_one now d q = on_endpoint now d (first_endpoint d.endpoint_id q)

  -- The count is part of the answer also where `save` fails.
  unfoldable pub drain_each : ℕ → List Delivery → ℕ → Queue W → (ℕ × Option Error) × Queue W
  unfolding drain_one
  drain_each now [] handled q = ((handled, none), q)
  drain_each now (d ∷ ds) handled q =
      let r = drain_one now d q in
      elim r.0 [ ok _ ↦ drain_each now ds (handled + 1) r.1 | err e ↦ ((handled, some e), r.1) ]

  abbrev pub drain_found : ℕ → ℕ → Result (List Delivery) × Queue W → (ℕ × Option Error) × Queue W
  drain_found now limit (err e, q) = ((0, some e), q)
  drain_found now limit (ok due, q) = drain_each now (limited limit due) 0 q

  unfoldable pub drain_once : ℕ → Queue W → (ℕ × Option Error) × Queue W
  unfolding find_deliveries drain_each
  drain_once limit q =
      let (now, w) = o.now q.world in
      drain_found now limit (find_deliveries (is_due now) (record q { world = w }))

  abbrev pub replay_found : String → Delivery → Exec W (Unit {0})
  replay_found id d =
      if is_delivered d.status
      then raise already_delivered
      else (do now ← draw o.now; update_delivery id (requeued now))

  unfoldable pub replay : String → Exec W (Unit {0})
  unfolding first_delivery update_delivery
  replay id = do d ← first_delivery id; replay_found id d

  unfoldable pub replay_each : List Delivery → ℕ → Queue W → (ℕ × Option Error) × Queue W
  unfolding replay
  replay_each [] i q = ((i, none), q)
  replay_each (d ∷ ds) i q =
      let r = replay d.id q in
      elim r.0 [ ok _ ↦ replay_each ds (i + 1) r.1 | err e ↦ ((i, some e), r.1) ]

  abbrev pub replay_dead : Result (List Delivery) × Queue W → (ℕ × Option Error) × Queue W
  replay_dead (err e, q) = ((0, some e), q)
  replay_dead (ok ds, q) = replay_each ds 0 q

  unfoldable pub replay_endpoint : String → Queue W → (ℕ × Option Error) × Queue W
  unfolding find_deliveries replay_each
  replay_endpoint id q =
      replay_dead (find_deliveries (λ d. str_eq d.endpoint_id id && is_dead d.status) q)
