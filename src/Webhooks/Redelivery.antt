-- ===== src/Webhooks/Redelivery.antt =====
-- An event that the bus delivers again, and the loss of a delivery on a passing fault.
use sannad.Prelude.{
  ◌<◌, String, Bool, true, false, List, [], ◌∷◌, ◌++◌, ◌≡◌, refl, arith, ap, ◌∙◌, Bool-cases, inl,
  inr, str_eq, str_eq_self, ◌&&◌, ◌||◌,
}
use sannad.Webhooks.{Endpoint, wants, Delivery}
use sannad.Webhooks.Queue.{
  Queue, Outside, Result, ok, proceed, stored, select, is_queued, insert_unless, create_delivery,
  find_endpoints,
}
use sannad.Webhooks.Runner.{
  Event, drawn_row, unless_duplicate, queue_one, queue_all, event_identity, enqueue,
}

is_queued-append :
    (a b : String) (ds : List Delivery) (d : Delivery)
    → is_queued a b (ds ++ d ∷ [])
      ≡ (is_queued a b ds || (str_eq d.endpoint_id a && str_eq d.event_id b))
unfolding is_queued
is_queued-append a b [] d = ground arith
is_queued-append a b (x ∷ ds) d = ground (arith, is_queued-append a b ds d)

-- Each of the endpoints that wants the event has a delivery with the event's identity.
abbrev pub Covers : Event → String → List Endpoint → List Delivery → Type 0
Covers event id [] ds = Unit
Covers event id (e ∷ es) ds =
    (wants e event.name ≡ true → is_queued e.id id ds ≡ true) × Covers event id es ds

module _ {W : Type 0} (o : Outside W) (event : Event) (id : String) where
  abbrev Grows : List Delivery → List Delivery → Type 0
  Grows ds ds' = (a : String) → is_queued a id ds ≡ true → is_queued a id ds' ≡ true

  record Done (eps : List Endpoint) (ds : List Delivery) (r : Result (Unit {0}) × Queue W)
      : Type 0 where
    pub result : r.0 ≡ ok tt
    pub calm : r.1.faults ≡ []
    pub endpoints : r.1.endpoints ≡ eps
    pub grows : Grows ds r.1.deliveries

  record DoneOne (e : Endpoint) (eps : List Endpoint) (ds : List Delivery)
      (r : Result (Unit {0}) × Queue W) : Type 0 where
    pub done : Done eps ds r
    pub covered : is_queued e.id id r.1.deliveries ≡ true
    pub still : is_queued e.id id ds ≡ true → r.1.deliveries ≡ ds

  inserted-DoneOne :
      (e : Endpoint) (d : Delivery) (q : Queue W) (b : Bool)
      → d.endpoint_id ≡ e.id
      → d.event_id ≡ id
      → q.faults ≡ []
      → is_queued e.id id q.deliveries ≡ b
      → DoneOne e q.endpoints q.deliveries (unless_duplicate (insert_unless b d q))
  inserted-DoneOne e d q true h k calm there = record {
    done = record { result = refl; calm = calm; endpoints = refl; grows = λ a t. t };
    covered = there;
    still = λ _. refl;
  }
  inserted-DoneOne e d q false h k calm there = record {
    done = record {
      result = refl;
      calm = calm;
      endpoints = refl;
      grows = λ a t. rw (is_queued-append a id q.deliveries d, t) refl;
    };
    covered =
        rw (is_queued-append e.id id q.deliveries d, there, h, k, str_eq_self e.id, str_eq_self id)
          refl;
    still = λ t. absurd (cc);
  }

  queue_one-DoneOne :
      (e : Endpoint) (q : Queue W)
      → q.faults ≡ []
      → DoneOne e q.endpoints q.deliveries (queue_one o event id e q)
  unfolding queue_one create_delivery stored
  queue_one-DoneOne e q calm =
      let row = drawn_row o event id e q.world in
      rw calm (
        inserted-DoneOne e row.0 (record q { faults = []; world = row.1 })
          (is_queued e.id id q.deliveries) refl refl refl refl)

  record DoneAll (es eps : List Endpoint) (ds : List Delivery) (r : Result (Unit {0}) × Queue W)
      : Type 0 where
    pub done : Done eps ds r
    pub covered : Covers event id es r.1.deliveries
    pub still : Covers event id es ds → r.1.deliveries ≡ ds

  Covers-Grows :
      (es : List Endpoint) (ds ds' : List Delivery)
      → Grows ds ds'
      → Covers event id es ds
      → Covers event id es ds'
  Covers-Grows [] ds ds' g c = tt
  Covers-Grows (e ∷ es) ds ds' g c = (λ w. g e.id (c.0 w), Covers-Grows es ds ds' g c.1)

  queue_all-wanted :
      (e : Endpoint) (es : List Endpoint) (q : Queue W)
      → wants e event.name ≡ true
      → q.faults ≡ []
      → queue_all o event id (e ∷ es) q ≡ queue_all o event id es (queue_one o event id e q).1
  unfolding queue_all
  queue_all-wanted e es q w calm =
      rw (w, queue_all)
        (ap (λ r. proceed (λ _. queue_all o event id es) (r, (queue_one o event id e q).1))
          (queue_one-DoneOne e q calm).done.result)

  DoneAll-cons :
      (e : Endpoint) (es : List Endpoint) (q : Queue W) (r : Result (Unit {0}) × Queue W)
      → (one : DoneOne e q.endpoints q.deliveries (queue_one o event id e q))
      → DoneAll es (queue_one o event id e q).1.endpoints (queue_one o event id e q).1.deliveries r
      → wants e event.name ≡ true
      → DoneAll (e ∷ es) q.endpoints q.deliveries r
  DoneAll-cons e es q r one rest w = record {
    done = record {
      result = rest.done.result;
      calm = rest.done.calm;
      endpoints = rest.done.endpoints ∙ one.done.endpoints;
      grows = λ a t. rest.done.grows a (one.done.grows a t);
    };
    covered = (λ _. rest.done.grows e.id one.covered, rest.covered);
    still = λ c.
        rest.still
          (Covers-Grows es q.deliveries (queue_one o event id e q).1.deliveries one.done.grows c.1)
        ∙ one.still (c.0 w);
  }

  queue_all-DoneAll :
      (es : List Endpoint) (q : Queue W)
      → q.faults ≡ []
      → DoneAll es q.endpoints q.deliveries (queue_all o event id es q)
  unfolding queue_all
  queue_all-DoneAll [] q calm = record {
    done = record { result = refl; calm = calm; endpoints = refl; grows = λ a t. t };
    covered = tt;
    still = λ _. refl;
  }
  queue_all-DoneAll (e ∷ es) q calm = elim (Bool-cases (wants e event.name)) [
    | inl w ↦
        let one = queue_one-DoneOne e q calm in
        rw (queue_all-wanted e es q w calm) (
          DoneAll-cons e es q (queue_all o event id es (queue_one o event id e q).1) one
            (queue_all-DoneAll es (queue_one o event id e q).1 one.done.calm) w)
    | inr w ↦
        let rest = queue_all-DoneAll es q calm in
        rw (w, queue_all)
          (record {
            done = rest.done;
            covered = (λ w'. absurd (cc), rest.covered);
            still = λ c. rest.still c.1;
          })
  ]

module _ {W : Type 0} (o : Outside W) (event : Event) where
  abbrev pub identity : String
  identity = o.numbered event.tenant_id event.sequence

  enqueue-queue_all :
      (q : Queue W)
      → q.faults ≡ []
      → 0 < event.sequence
      → enqueue o event q ≡ queue_all o event identity (select (λ e. e.active) q.endpoints) q
  unfolding enqueue find_endpoints stored event_identity
  enqueue-queue_all q calm numbered = rw calm (ground arith)

  -- With no faults, an event with a sequence is queued for every active endpoint that wants it,
  -- and queueing it again succeeds and adds no delivery.
  pub enqueue_again :
      (q : Queue W)
      → q.faults ≡ []
      → 0 < event.sequence
      → let q1 = (enqueue o event q).1 in
        ((enqueue o event q).0 ≡ ok tt)
        × Covers event identity (select (λ e. e.active) q.endpoints) q1.deliveries
        × ((enqueue o event q1).0 ≡ ok tt)
        × ((enqueue o event q1).1.deliveries ≡ q1.deliveries)
  enqueue_again q calm numbered = rw (enqueue-queue_all q calm numbered) (
    one.done.result,
    one.covered,
    rw again two.done.result,
    rw again (two.still (rw one.done.endpoints one.covered)),
  )
    where
      active : List Endpoint
      active = select (λ e. e.active) q.endpoints

      q1 : Queue W
      q1 = (queue_all o event identity active q).1

      one :
          DoneAll o event identity active q.endpoints q.deliveries
            (queue_all o event identity active q)
      one = queue_all-DoneAll o event identity active q calm

      again :
          enqueue o event q1 ≡ queue_all o event identity (select (λ e. e.active) q1.endpoints) q1
      again = enqueue-queue_all q1 one.done.calm numbered

      two :
          DoneAll o event identity
            (select (λ e. e.active) q1.endpoints)
            q1.endpoints
            q1.deliveries
            (queue_all o event identity (select (λ e. e.active) q1.endpoints) q1)
      two =
          queue_all-DoneAll o event identity (select (λ e. e.active) q1.endpoints) q1 one.done.calm
