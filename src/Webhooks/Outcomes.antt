-- ===== src/Webhooks/Outcomes.antt =====
-- What a replay does to the table of deliveries, and a delivery lost to a passing fault.
use sannad.Prelude.{
  ℕ, String, Bool, true, false, Option, some, List, [], ◌∷◌, ◌≡◌, refl, arith, if◌then◌else◌,
  str_eq, eq_iff,
}
use sannad.Webhooks.{Endpoint, Delivery, DeliveryStatus, pending, delivered, dead}
use sannad.Webhooks.Queue.{
  already_delivered, Queue, Outside, Result, ok, err, stored, first, update, has_id, first_endpoint,
  first_delivery, update_delivery,
}
use sannad.Webhooks.Runner.{requeued, saved, orphaned, save, drain_one, replay}

module _ (id j : String) (f : Delivery → Delivery) (keeps : (x : Delivery) → (f x).id ≡ x.id) where
  first-update_ne :
      (ds : List Delivery)
      → str_eq id j ≡ false
      → first (has_id j) (update (has_id id) f ds) ≡ first (has_id j) ds
  unfolding first update
  first-update_ne [] ne = refl
  first-update_ne (x ∷ ds) ne = ground (
    arith,
    first-update_ne ds ne,
    keeps x,
    eq_iff x.id id,
    eq_iff x.id j,
    eq_iff (f x).id j,
    eq_iff id j,
  )

  -- Reading a row by its identity after an update of the rows of one identity.
  first-update :
      (ds : List Delivery) (d : Delivery)
      → first (has_id id) ds ≡ some d
      → first (has_id j) (update (has_id id) f ds)
        ≡ (if str_eq id j then some (f d) else first (has_id j) ds)
  unfolding first update
  first-update [] d h = absurd (cc)
  first-update (x ∷ ds) d h = ground (
    arith,
    first-update ds d,
    first-update_ne ds,
    keeps x,
    eq_iff x.id id,
    eq_iff x.id j,
    eq_iff (f x).id j,
    eq_iff id j,
  )

module _ {W : Type 0} (o : Outside W) where
  -- The row of identity `j` after a replay of `d`, of identity `id`.
  abbrev pub replayed :
      DeliveryStatus → ℕ → Delivery → String → Option Delivery → String → Option Delivery
  replayed delivered now d id row j = row
  replayed _ now d id row j =
      if str_eq id j
      then some (record d {
        status = pending;
        attempts = 0;
        next_attempt_at = now;
        last_error = "";
        updated_at = now;
      })
      else row

  abbrev pub answered_to : DeliveryStatus → Result (Unit {0})
  answered_to delivered = err already_delivered
  answered_to _ = ok tt

  -- With no faults, Replay of a row that is there refuses one that was delivered and changes no row;
  -- any other becomes pending and due now with no attempts, and no row of another identity changes.
  pub replay-first :
      (id : String) (q : Queue W) (d : Delivery)
      → q.faults ≡ []
      → first (has_id id) q.deliveries ≡ some d
      → ((replay o id q).0 ≡ answered_to d.status)
        × ((j : String)
            → first (has_id j) (replay o id q).1.deliveries
              ≡ replayed d.status (o.now q.world).0 d id (first (has_id j) q.deliveries) j)
  unfolding replay first_delivery update_delivery stored
  replay-first id q d calm found = go d.status refl
    where
      again :
          (j : String)
          → first (has_id j) (update (has_id id) (requeued (o.now q.world).0) q.deliveries) ≡ (
              if str_eq id j
              then some (requeued (o.now q.world).0 d)
              else first (has_id j) q.deliveries)
      again j = first-update id j (requeued (o.now q.world).0) (λ x. refl) q.deliveries d found

      go :
          (status : DeliveryStatus)
          → d.status ≡ status
          → ((replay o id q).0 ≡ answered_to status)
            × ((j : String)
                → first (has_id j) (replay o id q).1.deliveries
                  ≡ replayed status (o.now q.world).0 d id (first (has_id j) q.deliveries) j)
      go delivered e = rw (calm, found, e) (refl, λ j. refl)
      go pending e = rw (calm, found, e) (refl, again)
      go dead e = rw (calm, found, e) (refl, again)

  -- Where the read of the endpoint fails once while a delivery is drained, and the write that
  -- follows does not: the drain goes on, no request is made, and the row is dead with the attempts
  -- that it had, although its endpoint exists; no row of another identity changes.
  pub drain_one-loses :
      (now : ℕ) (d : Delivery) (e : Endpoint) (fs : List Bool) (q : Queue W)
      → first (λ x. str_eq x.id d.endpoint_id) q.endpoints ≡ some e
      → first (has_id d.id) q.deliveries ≡ some d
      → q.faults ≡ true ∷ false ∷ fs
      → let r = drain_one o now d q in
        (r.0 ≡ ok tt)
        × (r.1.world ≡ q.world)
        × (first (λ x. str_eq x.id d.endpoint_id) r.1.endpoints ≡ some e)
        × ((d' : Delivery) × (d'.status ≡ dead)
            × (d'.attempts ≡ d.attempts)
            × ((j : String)
                → first (has_id j) r.1.deliveries
                  ≡ (if str_eq d.id j then some d' else first (has_id j) q.deliveries)))
  unfolding drain_one first_endpoint save update_delivery stored
  drain_one-loses now d e fs q there found faults = rw faults (
    refl,
    refl,
    there,
    (
      saved (orphaned now d) d,
      refl,
      refl,
      λ j. first-update d.id j (saved (orphaned now d)) (λ x. refl) q.deliveries d found,
    ),
  )
