-- ===== src/Webhooks/Queue.antt =====
-- The queue of deliveries behind the runner: the two tables, the store's calls on them
-- (pkg/modulekit/storage.go), and what the runner takes from outside.
use sannad.Prelude.{
  ℕ, String, Bool, true, false, Option, none, some, List, [], ◌∷◌, ◌++◌, ◌&&◌, ◌||◌, str_eq,
}
unfoldable pub use sannad.Prelude.Tables.{select, first, update}
use sannad.Webhooks.{Endpoint, Delivery}
use sannad.Webhooks.Retry.{Response}

-- The errors, by what `errors.Is` sees.
pub data Error : Type 0 where
  storage not_found duplicate already_delivered : Error

-- `faults` says of each call of the store to come whether it fails; with none left, none fails.
pub record Queue (W : Type 0) : Type 0 where
  pub endpoints : List Endpoint
  pub deliveries : List Delivery
  pub faults : List Bool
  pub world : W

-- What is not in the repository: the clock, `uuid.NewString`, the HTTP client with the receiver,
-- `fmt.Sprintf("%s-%d", ...)`, the text of a response's error, and `rand`.
pub record Outside (W : Type 0) : Type 0 where
  pub now : W → ℕ × W
  pub new_id : W → String × W
  pub post : Endpoint → Delivery → W → Response × W
  pub numbered : String → ℕ → String
  pub status_text : ℕ → String
  pub jitter : ℕ → ℕ

pub data Result {ℓ} (A : Type ℓ) : Type ℓ where
  ok : A → Result A
  err : Error → Result A

abbrev pub Exec : Type 0 → Type 0 → Type 0
Exec W A = Queue W → Result A × Queue W

module _ {W : Type 0} where
  abbrev pub pure : {A : Type 0} → A → Exec W A
  pure a q = (ok a, q)

  abbrev pub raise : {A : Type 0} → Error → Exec W A
  raise e q = (err e, q)

  abbrev pub proceed : {A B : Type 0} → (A → Exec W B) → Result A × Queue W → Result B × Queue W
  proceed f (ok a, q) = f a q
  proceed f (err e, q) = (err e, q)

infixl 5 ◌>>=◌ ◌>>◌
abbrev pub ◌>>=◌ : {W A B : Type 0} → Exec W A → (A → Exec W B) → Exec W B
◌>>=◌ m f q = proceed f (m q)

abbrev pub ◌>>◌ : {W B : Type 0} → Exec W (Unit {0}) → Exec W B → Exec W B
m >> k = m >>= λ _. k

module _ {W : Type 0} where
  -- Something taken from outside.
  abbrev pub draw : {A : Type 0} → (W → A × W) → Exec W A
  draw f q = (ok (f q.world).0, record q { world = (f q.world).1 })

  abbrev pub meet : {A : Type 0} → Exec W A → List Bool → Queue W → Result A × Queue W
  meet m [] q = m q
  meet m (false ∷ fs) q = m (record q { faults = fs })
  meet m (true ∷ fs) q = (err storage, record q { faults = fs })

  -- A call of the store, which may fail before it takes effect.
  unfoldable pub stored : {A : Type 0} → Exec W A → Exec W A
  stored m q = meet m q.faults q

abbrev pub has_id : String → Delivery → Bool
has_id id d = str_eq d.id id

-- The unique index on the endpoint and the event.
unfoldable pub is_queued : String → String → List Delivery → Bool
is_queued endpoint_id event_id [] = false
is_queued endpoint_id event_id (d ∷ ds) =
    str_eq d.endpoint_id endpoint_id && str_eq d.event_id event_id
    || is_queued endpoint_id event_id ds

module _ {W : Type 0} where
  abbrev pub found : {A : Type 0} → Option A → Exec W A
  found none = raise not_found
  found (some a) = pure a

  unfoldable pub find_endpoints : (Endpoint → Bool) → Exec W (List Endpoint)
  unfolding stored select
  find_endpoints p = stored (λ q. (ok (select p q.endpoints), q))

  unfoldable pub find_deliveries : (Delivery → Bool) → Exec W (List Delivery)
  unfolding stored select
  find_deliveries p = stored (λ q. (ok (select p q.deliveries), q))

  unfoldable pub first_endpoint : String → Exec W Endpoint
  unfolding stored first
  first_endpoint id = stored (λ q. found (first (λ e. str_eq e.id id) q.endpoints) q)

  unfoldable pub first_delivery : String → Exec W Delivery
  unfolding stored first
  first_delivery id = stored (λ q. found (first (has_id id) q.deliveries) q)

  unfoldable pub update_delivery : String → (Delivery → Delivery) → Exec W (Unit {0})
  unfolding stored update
  update_delivery id f =
      stored (λ q. (ok tt, record q { deliveries = update (has_id id) f q.deliveries }))

  abbrev pub insert_unless : Bool → Delivery → Exec W (Unit {0})
  insert_unless true d q = (err duplicate, q)
  insert_unless false d q = (ok tt, record q { deliveries = q.deliveries ++ d ∷ [] })

  -- The identity of a new delivery is one that no row has, so only the index can refuse it.
  unfoldable pub create_delivery : Delivery → Exec W (Unit {0})
  unfolding stored is_queued
  create_delivery d =
      stored (λ q. insert_unless (is_queued d.endpoint_id d.event_id q.deliveries) d q)
