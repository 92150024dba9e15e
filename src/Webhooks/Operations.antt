-- ===== src/Webhooks/Operations.antt =====
-- Everything that the runner is made to do keeps deliveries within the retry policy.
use sannad.Prelude.{ℕ, ◌+◌, String, List, [], ◌∷◌, str_eq, ◌&&◌, arith, Bool-cases, inl, inr}
use sannad.Webhooks.{Endpoint, wants, Delivery}
use sannad.Webhooks.Queue.{
  Error, Queue, Outside, Result, ok, err, ◌>>=◌, find_endpoints, first_endpoint, stored, select,
  first, found, has_id, first_delivery, find_deliveries, create_delivery,
}
use sannad.Webhooks.Runner.{
  is_due, is_dead, drain_found, replay_dead, Event, drawn_row, is_delivered, unless_duplicate,
  queue_one, queue_all, event_identity, enqueue, saved, save, orphaned, on_endpoint, drain_one,
  drain_each, limited, drain_once, requeued, replay_found, replay, replay_each, replay_endpoint,
}
use sannad.Webhooks.Bounded.{
  InBudget, advance-InBudget, Result-cases, Bounded, Keeps, proceed-Bounded, meet-Bounded,
  create_delivery-Keeps, update_delivery-Keeps, found-Keeps,
}

module _ {W : Type 0} (o : Outside W) where
  queue_one-Keeps : (event : Event) (id : String) (e : Endpoint) → Keeps (queue_one o event id e)
  unfolding queue_one
  queue_one-Keeps event id e q h =
      let row = drawn_row o event id e q.world in
      let drawn = record q { world = row.1 } in
      settled (create_delivery row.0 drawn) (create_delivery-Keeps row.0 (λ _. omega arith) drawn h)
    where
      settled : (r : Result (Unit {0}) × Queue W) → Bounded r.1 → Bounded (unless_duplicate r).1
      settled (ok a, u) k = k
      settled (err Error.duplicate, u) k = k
      settled (err Error.storage, u) k = k
      settled (err Error.not_found, u) k = k
      settled (err Error.already_delivered, u) k = k

  queue_all-Keeps :
      (event : Event) (id : String) (es : List Endpoint) → Keeps (queue_all o event id es)
  unfolding queue_all
  queue_all-Keeps event id [] q h = h
  queue_all-Keeps event id (e ∷ es) q h = elim (Bool-cases (wants e event.name)) [
    | inl w ↦ rw w (
        proceed-Bounded (λ _. queue_all o event id es) (queue_one o event id e q)
          (λ _. queue_all-Keeps event id es) (queue_one-Keeps event id e q h))
    | inr w ↦ rw w (queue_all-Keeps event id es q h)
  ]

  enqueue-Keeps : (event : Event) → Keeps (enqueue o event)
  unfolding enqueue find_endpoints stored event_identity
  enqueue-Keeps event q h =
      proceed-Bounded (λ es. event_identity o event >>= λ id. queue_all o event id es)
        (find_endpoints (λ e. e.active) q)
        (λ es u k.
          proceed-Bounded (λ id. queue_all o event id es) (event_identity o event u)
            (λ id. queue_all-Keeps event id es) (identity u k))
        (meet-Bounded (λ u. (ok (select (λ e. e.active) u.endpoints), u)) q.faults q (λ u k. k) h)
    where
      identity : Keeps (event_identity o event)
      identity u k = ground (arith)

  save-Keeps : (d : Delivery) → InBudget d → Keeps (save o d)
  unfolding save
  save-Keeps d k = update_delivery-Keeps d.id (saved d) (λ _. k)

  on_endpoint-Bounded :
      (now : ℕ) (d : Delivery) (r : Result Endpoint × Queue W)
      → Bounded r.1
      → Bounded (on_endpoint o now d r).1
  on_endpoint-Bounded now d (err e, q) h = save-Keeps (orphaned now d) (λ e. absurd (cc)) q h
  on_endpoint-Bounded now d (ok e, q) h = save-Keeps _ (advance-InBudget d _ _ _) _ h

  drain_one-Keeps : (now : ℕ) (d : Delivery) → Keeps (drain_one o now d)
  unfolding drain_one first_endpoint stored
  drain_one-Keeps now d q h = on_endpoint-Bounded now d (first_endpoint d.endpoint_id q) (
      meet-Bounded (λ u. found (first (λ e. str_eq e.id d.endpoint_id) u.endpoints) u) q.faults q
        (λ u. found-Keeps (first (λ e. str_eq e.id d.endpoint_id) u.endpoints) u) h)

  drain_each-Bounded :
      (now : ℕ) (ds : List Delivery) (n : ℕ) (q : Queue W)
      → Bounded q
      → Bounded (drain_each o now ds n q).1
  unfolding drain_each
  drain_each-Bounded now [] n q h = h
  drain_each-Bounded now (d ∷ ds) n q h = elim (Result-cases (drain_one o now d q).0) [
    | inl (a, e) ↦
        rw (e, drain_each)
          (drain_each-Bounded now ds (n + 1) (drain_one o now d q).1 (drain_one-Keeps now d q h))
    | inr (x, e) ↦ rw (e, drain_each) (drain_one-Keeps now d q h)
  ]

  drain_once-Bounded : (limit : ℕ) (q : Queue W) → Bounded q → Bounded (drain_once o limit q).1
  unfolding drain_once find_deliveries stored
  drain_once-Bounded limit q h =
      drained (find_deliveries (is_due now) timed)
        (meet-Bounded (λ u. (ok (select (is_due now) u.deliveries), u)) q.faults timed (λ u k. k) h)
    where
      now : ℕ
      now = (o.now q.world).0

      timed : Queue W
      timed = record q { world = (o.now q.world).1 }

      drained :
          (r : Result (List Delivery) × Queue W)
          → Bounded r.1
          → Bounded (drain_found o now limit r).1
      drained (ok due, u) k = drain_each-Bounded now (limited limit due) 0 u k
      drained (err e, u) k = k

  replay-Keeps : (id : String) → Keeps (replay o id)
  unfolding replay first_delivery stored
  replay-Keeps id q h = proceed-Bounded (replay_found o id) (first_delivery id q) found_Keeps (
      meet-Bounded (λ u. found (first (has_id id) u.deliveries) u) q.faults q
        (λ u. found-Keeps (first (has_id id) u.deliveries) u) h)
    where
      found_Keeps : (d : Delivery) → Keeps (replay_found o id d)
      found_Keeps d u k = elim (Bool-cases (is_delivered d.status)) [
        | inl e ↦ rw e k
        | inr e ↦
            rw e (update_delivery-Keeps id (requeued (o.now u.world).0) (λ _ _. omega arith) _ k)
      ]

  replay_each-Bounded :
      (ds : List Delivery) (n : ℕ) (q : Queue W) → Bounded q → Bounded (replay_each o ds n q).1
  unfolding replay_each
  replay_each-Bounded [] n q h = h
  replay_each-Bounded (d ∷ ds) n q h = elim (Result-cases (replay o d.id q).0) [
    | inl (a, e) ↦
        rw (e, replay_each)
          (replay_each-Bounded ds (n + 1) (replay o d.id q).1 (replay-Keeps d.id q h))
    | inr (x, e) ↦ rw (e, replay_each) (replay-Keeps d.id q h)
  ]

  replay_endpoint-Bounded :
      (id : String) (q : Queue W) → Bounded q → Bounded (replay_endpoint o id q).1
  unfolding replay_endpoint find_deliveries stored
  replay_endpoint-Bounded id q h =
      replayed (find_deliveries (λ d. str_eq d.endpoint_id id && is_dead d.status) q) (
        meet-Bounded
          (λ u. (ok (select (λ d. str_eq d.endpoint_id id && is_dead d.status) u.deliveries), u))
          q.faults q (λ u k. k) h)
    where
      replayed : (r : Result (List Delivery) × Queue W) → Bounded r.1 → Bounded (replay_dead o r).1
      replayed (ok ds, u) k = replay_each-Bounded ds 0 u k
      replayed (err e, u) k = k

  -- What the bus, the drain loop and an operator make the runner do.
  pub data Operation : Type 0 where
    event_arrives : Event → Operation
    drain_due : ℕ → Operation
    replay_one endpoint_replayed : String → Operation

  abbrev operate : Operation → Queue W → Queue W
  operate (event_arrives event) q = (enqueue o event q).1
  operate (drain_due limit) q = (drain_once o limit q).1
  operate (replay_one id) q = (replay o id q).1
  operate (endpoint_replayed id) q = (replay_endpoint o id q).1

  abbrev pub operate_all : List Operation → Queue W → Queue W
  operate_all [] q = q
  operate_all (op ∷ ops) q = operate_all ops (operate op q)

  operate-Bounded : (op : Operation) (q : Queue W) → Bounded q → Bounded (operate op q)
  operate-Bounded (event_arrives event) q h = enqueue-Keeps event q h
  operate-Bounded (drain_due limit) q h = drain_once-Bounded limit q h
  operate-Bounded (replay_one id) q h = replay-Keeps id q h
  operate-Bounded (endpoint_replayed id) q h = replay_endpoint-Bounded id q h

  -- Whichever calls of the store fail and whatever the receivers answer, if no pending delivery has
  -- been attempted eight times or more, none has after any sequence of events, drains and replays.
  pub operate_all-Bounded :
      (ops : List Operation) (q : Queue W) → Bounded q → Bounded (operate_all ops q)
  operate_all-Bounded [] q h = h
  operate_all-Bounded (op ∷ ops) q h =
      operate_all-Bounded ops (operate op q) (operate-Bounded op q h)
