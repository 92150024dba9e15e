-- ===== src/Webhooks/Retry.antt =====
-- The retry policy (internal/platform/webhooks/dispatcher.go).
use sannad.Prelude.{
  ℕ, String, Bool, true, false, Option, none, some, ◌+◌, ◌-◌, ◌*◌, ◌^◌, ◌&&◌, ◌||◌, ◌==◌, leb, ltb,
  not, if◌then◌else◌,
}
use sannad.Webhooks.{Delivery, pending, delivered, dead}

abbrev pub second : ℕ
second = 1_000_000_000

abbrev pub max_attempts : ℕ
max_attempts = 8

abbrev pub base_delay : ℕ
base_delay = 10 * second

abbrev pub max_delay : ℕ
max_delay = 21_600 * second

-- `float64(BaseDelay) * 2^(attempt-1)` is exact in a float64. Where it does not fit an int64 the
-- conversion gives a value over `MaxDelay` or not positive, and both give `MaxDelay`.
unfoldable pub backoff_for : ℕ → ℕ
backoff_for attempt =
    let n = if ltb attempt 1 then 1 else attempt in
    let delay = base_delay * 2 ^ (n - 1) in if ltb max_delay delay then max_delay else delay

pub record Outcome : Type 0 where
  pub status_code : ℕ
  pub error : Option String
  pub retryable : Bool

-- What the HTTP client makes of a request: it cannot be built, it fails, or it has an answer.
pub data Response : Type 0 where
  bad_request : String → Response
  transport_error : String → Response
  answered : ℕ → Response

unfoldable pub retryable_status : ℕ → Bool
retryable_status code = if code == 408 || code == 429 then true else leb 500 code

-- Attempt, after the request; the text of an error is the client's.
unfoldable pub outcome_of : (ℕ → String) → Response → Outcome
unfolding retryable_status
outcome_of text (bad_request e) = record { status_code = 0; error = some e; retryable = false }
outcome_of text (transport_error e) = record { status_code = 0; error = some e; retryable = true }
outcome_of text (answered code) =
    if leb 200 code && ltb code 300
    then record { status_code = code; error = none; retryable = false }
    else record { status_code = code; error = some (text code); retryable = retryable_status code }

abbrev advance_with : Option String → Bool → ℕ → (ℕ → ℕ) → Delivery → Delivery × Bool
advance_with none retryable now jitter d =
    (record d { status = delivered; last_error = ""; delivered_at = some now }, false)
advance_with (some text) retryable now jitter d =
    if not retryable || leb max_attempts d.attempts
    then (record d { status = dead; last_error = text }, false)
    else (
      record d {
        status = pending;
        last_error = text;
        next_attempt_at = now + jitter (backoff_for d.attempts);
      },
      true,
    )

unfoldable pub advance : Delivery → Outcome → ℕ → (ℕ → ℕ) → Delivery × Bool
advance d outcome now jitter = advance_with outcome.error outcome.retryable now jitter (record d {
  attempts = d.attempts + 1;
  updated_at = now;
  last_status_code = outcome.status_code;
})
