-- ===== src/Webhooks/Examples.antt =====
-- A delivery, and the theorems at it.
use sannad.Prelude.{
  ◌<◌, zero, suc, ◌++◌, ℕ, [], ◌∷◌, none, some, ◌≡◌, ◌≤◌, ◌+◌, ◌*◌, ◌/◌, refl, arith, Bool, true,
  false, List, str_eq, if◌then◌else◌, String,
}
use sannad.Webhooks.{Delivery, pending, dead, Endpoint}
use sannad.Webhooks.Retry.{Outcome, second, max_attempts, answered}
use sannad.Webhooks.Budget.{rounds, dead_within}
use sannad.Webhooks.Signature.{NoDot, material_injective}
use sannad.Prelude.Texts.{Text}
use sannad.Webhooks.Queue.{Queue, Outside, ok, first, select, has_id}
use sannad.Webhooks.Runner.{Event, enqueue, replay, drain_one}
use sannad.Webhooks.Bounded.{Bounded}
use sannad.Webhooks.Operations.{
  event_arrives, drain_due, replay_one, operate_all, operate_all-Bounded,
}
use sannad.Webhooks.Redelivery.{Covers, enqueue_again}
use sannad.Prelude.Int.{pos}
use sannad.Webhooks.Endpoints.{done, list_deliveries, update_endpoint, rotate_secret}
use sannad.Webhooks.Newest.{Listed, list_deliveries-newest}
use sannad.Webhooks.Outcomes.{replay-first, drain_one-loses}

abbrev queued : Delivery
queued = record {
  id = "d-1";
  endpoint_id = "e-1";
  event_id = "acme-7";
  event = 111 ∷ [];
  payload = "{}";
  status = pending;
  attempts = 0;
  next_attempt_at = 100;
  last_error = "";
  last_status_code = 0;
  created_at = 100;
  updated_at = 100;
  delivered_at = none;
}

abbrev unavailable : Outcome
unavailable = record { status_code = 503; error = some "status 503"; retryable = true }

abbrev gone : Outcome
gone = record { status_code = 410; error = some "status 410"; retryable = false }

-- Two attempts may be repeated, the third may not.
abbrev worsening : ℕ → Outcome
worsening zero = unavailable
worsening (suc zero) = unavailable
worsening (suc (suc n)) = gone

worsening-fails : (n : ℕ) → (text : String) × ((worsening n).error ≡ some text)
worsening-fails zero = ("status 503", refl)
worsening-fails (suc zero) = ("status 503", refl)
worsening-fails (suc (suc n)) = ("status 410", refl)

abbrev later_by_a_fifth : ℕ → ℕ
later_by_a_fifth x = x + x / 5

later_by_a_fifth-le : (x : ℕ) → later_by_a_fifth x ≤ x + x / 5
later_by_a_fifth-le x = omega arith

dead_within_example :
    ((rounds max_attempts worsening later_by_a_fifth queued).status ≡ dead)
    × ((n : ℕ)
        → n < max_attempts
        → (rounds n worsening later_by_a_fifth queued).next_attempt_at ≤ 100 + 1524 * second)
dead_within_example =
    dead_within queued worsening later_by_a_fifth refl refl worsening-fails later_by_a_fifth-le

-- A receiver that is down, a clock that counts its readings.
abbrev outside : Outside ℕ
outside = record {
  now = λ w. (w, w + 1);
  new_id = λ w. ("d-2", w);
  post = λ e d w. (answered 503, w);
  numbered = λ tenant n. "acme-8";
  status_text = λ code. "status 503";
  jitter = λ x. x;
}

abbrev endpoint : Endpoint
endpoint = record {
  id = "e-1";
  url = "https://example.com";
  events = 111 ∷ 44 ∷ 32 ∷ 112 ∷ [];
  secret = "whsec_1";
  active = true;
}

abbrev queue : List Bool → Queue ℕ
queue faults = record {
  endpoints = endpoint ∷ [];
  deliveries = queued ∷ [];
  faults = faults;
  world = 200;
}

abbrev created : Event
created = record { tenant_id = "acme"; name = 112 ∷ []; data_text = "{}"; sequence = 8 }

operate_all-Bounded_example : Bounded (
    operate_all outside
      (event_arrives created ∷ drain_due 10 ∷ replay_one "d-1" ∷ [])
      (queue (false ∷ true ∷ [])))
operate_all-Bounded_example =
    operate_all-Bounded outside (event_arrives created ∷ drain_due 10 ∷ replay_one "d-1" ∷ [])
      (queue (false ∷ true ∷ [])) ((λ _. omega arith), tt)

enqueue_again_example :
    let q1 = (enqueue outside created (queue [])).1 in
    ((enqueue outside created (queue [])).0 ≡ ok tt)
    × Covers created "acme-8" (endpoint ∷ []) q1.deliveries
    × ((enqueue outside created q1).0 ≡ ok tt)
    × ((enqueue outside created q1).1.deliveries ≡ q1.deliveries)
unfolding select
enqueue_again_example = enqueue_again outside created (queue []) refl (omega arith)

replay-first_example :
    ((replay outside "d-1" (queue [])).0 ≡ ok tt)
    × ((j : String)
        → first (has_id j) (replay outside "d-1" (queue [])).1.deliveries ≡ (
            if str_eq "d-1" j
            then some (record queued { next_attempt_at = 200; updated_at = 200 })
            else first (has_id j) (queued ∷ [])))
unfolding first
replay-first_example = replay-first outside "d-1" (queue []) queued refl refl

drain_one-loses_example :
    let r = drain_one outside 200 queued (queue (true ∷ false ∷ [])) in
    (r.0 ≡ ok tt)
    × (r.1.world ≡ (queue []).world)
    × (first (λ x. str_eq x.id "e-1") r.1.endpoints ≡ some endpoint)
    × ((d' : Delivery) × (d'.status ≡ dead)
        × (d'.attempts ≡ 0)
        × ((j : String)
            → first (has_id j) r.1.deliveries
              ≡ (if str_eq "d-1" j then some d' else first (has_id j) (queued ∷ []))))
unfolding first
drain_one-loses_example =
    drain_one-loses outside 200 queued endpoint [] (queue (true ∷ false ∷ [])) refl refl refl

-- A stand-in for HMAC that writes the secret before the text, and a print in unary.
abbrev framed : Text → Text → Text
framed secret text = secret ++ text

abbrev strokes : ℕ → Text
strokes zero = []
strokes (suc n) = 49 ∷ strokes n

strokes-NoDot : (n : ℕ) → NoDot (strokes n)
strokes-NoDot zero = tt
strokes-NoDot (suc n) = (refl, strokes-NoDot n)

abbrev body_text : Text
body_text = 123 ∷ []

material_injective_example :
    (strokes (2 * second / second) ≡ strokes (2 * second / second)) × (body_text ≡ body_text)
material_injective_example =
    material_injective strokes strokes-NoDot (2 * second) (2 * second) body_text body_text refl

list_deliveries-newest_example :
    Listed "e-1" (pos 1) (queue []) (list_deliveries "e-1" (pos 1) (queue []))
list_deliveries-newest_example = list_deliveries-newest "e-1" (pos 1) (queue []) refl

-- An update may give an endpoint a URL that creation refuses.
update-update_endpoint :
    (update_endpoint "e-1"
      (record { url = some "ftp://example.com"; events = none; active = none })
      (queue [])).1.endpoints
    ≡ record endpoint { url = "ftp://example.com" } ∷ []
unfolding update_endpoint
update-update_endpoint = refl

-- A rotation for an endpoint that is not there gives a secret.
absent-rotate_secret :
    rotate_secret
      (record { new_id = λ w. ("e-2", w); random = λ w. (some "whsec_1", w) })
      "e-9"
      (queue [])
    ≡ (done "whsec_1", queue [])
unfolding rotate_secret
absent-rotate_secret = refl
