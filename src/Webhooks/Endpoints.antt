-- ===== src/Webhooks/Endpoints.antt =====
-- The management of endpoints (internal/platform/webhooks/endpoints.go), over the runner's queue.
-- The store is one tenant's.
use sannad.Prelude.{
  ℕ, String, Bool, true, false, Option, none, some, List, [], ◌∷◌, ◌++◌, ◌&&◌, ◌||◌, ltb, not, take,
  str_eq, if◌then◌else◌,
}
use sannad.Prelude.Int.{ℤ, pos, negsuc, codes}
use sannad.Prelude.Tables.{remove}
use sannad.Prelude.Texts.{Text, is_empty, starts_with}
use sannad.Webhooks.{Endpoint, Delivery, trim}
use sannad.Webhooks.Queue.{
  Queue, Result, ok, err, Exec, pure, raise, proceed, ◌>>=◌, ◌>>◌, draw, stored, select, update,
  find_endpoints, first_endpoint, find_deliveries,
}
use sannad.Webhooks.Queue as Queues

pub data Refusal : Type 0 where
  url_required url_not_http no_secret : Refusal
  store : Queues.Error → Refusal

pub data Answer (A : Type 0) : Type 0 where
  done : A → Answer A
  refused : Refusal → Answer A

-- uuid.NewString, and the secret out of crypto/rand in hexadecimal, which may fail.
pub record Source (W : Type 0) : Type 0 where
  pub new_id : W → String × W
  pub random : W → Option String × W

pub record CreateEndpointRequest : Type 0 where
  pub url : String
  pub events : Text

-- A field that is none is left as it is.
pub record UpdateEndpointRequest : Type 0 where
  pub url : Option String
  pub events : Option Text
  pub active : Option Bool

abbrev is_blank : String → Bool
is_blank url = is_empty (trim (codes url))

abbrev pub is_http : String → Bool
is_http url =
    starts_with (codes url) (codes "https://") || starts_with (codes url) (codes "http://")

abbrev pub changed : {A : Type 0} → Option A → A → A
changed none old = old
changed (some new) old = new

abbrev pub edited : UpdateEndpointRequest → Endpoint → Endpoint
edited request e = record e {
  url = changed request.url e.url;
  events = changed request.events e.events;
  active = changed request.active e.active;
}

abbrev blank_url : Option String → Bool
blank_url none = false
blank_url (some url) = is_blank url

module _ {W : Type 0} where
  abbrev answered : {A B : Type 0} → (A → B) → Result A × Queue W → Answer B × Queue W
  answered f (ok a, q) = (done (f a), q)
  answered f (err e, q) = (refused (store e), q)

  unfoldable pub create_endpoint_row : Endpoint → Exec W (Unit {0})
  unfolding stored
  create_endpoint_row e = stored (λ q. (ok tt, record q { endpoints = q.endpoints ++ e ∷ [] }))

  unfoldable pub update_endpoint_rows : String → (Endpoint → Endpoint) → Exec W (Unit {0})
  unfolding stored update
  update_endpoint_rows id f =
      stored (λ q. (ok tt, record q { endpoints = update (λ e. str_eq e.id id) f q.endpoints }))

  unfoldable pub delete_endpoint_rows : String → Exec W (Unit {0})
  unfolding stored remove
  delete_endpoint_rows id =
      stored (λ q. (ok tt, record q { endpoints = remove (λ e. str_eq e.id id) q.endpoints }))

  abbrev with_id : CreateEndpointRequest → String → String × W → Queue W → Answer Endpoint × Queue W
  with_id request secret (id, w) q =
      let endpoint : Endpoint = record {
        id = id;
        url = request.url;
        events = request.events;
        secret = secret;
        active = true;
      } in
      answered (λ unit. endpoint) (create_endpoint_row endpoint (record q { world = w }))

  abbrev with_secret :
      Source W → CreateEndpointRequest → Option String × W → Queue W → Answer Endpoint × Queue W
  with_secret source request (none, w) q = (refused no_secret, record q { world = w })
  with_secret source request (some secret, w) q =
      with_id request secret (source.new_id w) (record q { world = w })

  unfoldable pub create_endpoint :
      Source W → CreateEndpointRequest → Queue W → Answer Endpoint × Queue W
  unfolding create_endpoint_row starts_with trim
  create_endpoint source request q =
      if is_blank request.url
      then (refused url_required, q)
      else if not (is_http request.url)
      then (refused url_not_http, q)
      else with_secret source request (source.random q.world) q

  unfoldable pub list_endpoints : Queue W → Answer (List Endpoint) × Queue W
  unfolding find_endpoints
  list_endpoints q = answered (λ endpoints. endpoints) (find_endpoints (λ e. true) q)

  unfoldable pub get_endpoint : String → Queue W → Answer Endpoint × Queue W
  unfolding first_endpoint
  get_endpoint id q = answered (λ endpoint. endpoint) (first_endpoint id q)

  unfoldable pub update_endpoint :
      String → UpdateEndpointRequest → Queue W → Answer (Unit {0}) × Queue W
  unfolding update_endpoint_rows trim
  update_endpoint id request q =
      if blank_url request.url
      then (refused url_required, q)
      else answered (λ unit. unit) (update_endpoint_rows id (λ e. edited request e) q)

  abbrev rotated : String → Option String × W → Queue W → Answer String × Queue W
  rotated id (none, w) q = (refused no_secret, record q { world = w })
  rotated id (some secret, w) q =
      answered (λ unit. secret)
        (update_endpoint_rows id (λ e. record e { secret = secret }) (record q { world = w }))

  unfoldable pub rotate_secret : Source W → String → Queue W → Answer String × Queue W
  unfolding update_endpoint_rows
  rotate_secret source id q = rotated id (source.random q.world) q

  unfoldable pub delete_endpoint : String → Queue W → Answer (Unit {0}) × Queue W
  unfolding delete_endpoint_rows
  delete_endpoint id q = answered (λ unit. unit) (delete_endpoint_rows id q)

-- 50 where the limit is not above 0, or above 200.
abbrev pub limit_of : ℤ → ℕ
limit_of (negsuc n) = 50
limit_of (pos n) = if ltb 0 n && not (ltb 200 n) then n else 50

-- Newest first. sort.Slice orders rows of one time as it likes; `place` keeps their order.
unfoldable pub place : Delivery → List Delivery → List Delivery
place d [] = d ∷ []
place d (e ∷ es) =
    let later = e ∷ place d es in if ltb d.created_at e.created_at then later else d ∷ e ∷ es

unfoldable pub newest_first : List Delivery → List Delivery
unfolding place
newest_first [] = []
newest_first (d ∷ ds) = place d (newest_first ds)

module _ {W : Type 0} where
  unfoldable pub list_deliveries : String → ℤ → Queue W → Answer (List Delivery) × Queue W
  unfolding find_deliveries newest_first
  list_deliveries endpoint_id limit q =
      answered (λ found. take (limit_of limit) (newest_first found))
        (find_deliveries (λ d. str_eq d.endpoint_id endpoint_id) q)
