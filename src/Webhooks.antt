-- ===== src/Webhooks.antt =====
-- Webhook endpoints and deliveries (internal/platform/webhooks/webhook.go): the records, which
-- events an endpoint wants, and the check of a signature.
pub mod Retry
pub mod Budget
pub mod Queue
pub mod Signature
pub mod Runner
pub mod Bounded
pub mod Operations
pub mod Redelivery
pub mod Outcomes
pub mod Endpoints
pub mod Newest
mod Examples
use sannad.Prelude.Texts.{Text, same, is_empty, split}
use sannad.Prelude.{
  ℕ, String, Bool, true, false, Option, none, some, List, [], ◌∷◌, ◌≤◌, ◌&&◌, ◌||◌, ◌==◌, leb, not,
  str_eq, if◌then◌else◌,
}

-- unicode.IsSpace
abbrev is_space : ℕ → Bool
is_space c =
    leb 0x9 c && leb c 0xd
    || c == 0x20
    || c == 0x85
    || c == 0xa0
    || c == 0x1680
    || leb 0x2000 c && leb c 0x200a
    || c == 0x2028
    || c == 0x2029
    || c == 0x202f
    || c == 0x205f
    || c == 0x3000

unfoldable pub trim_left : Text → Text
trim_left [] = []
trim_left (c ∷ cs) = let rest = trim_left cs in if is_space c then rest else c ∷ cs

unfoldable pub trim_right : Text → Text
trim_right [] = []
trim_right (c ∷ cs) =
    let rest = trim_right cs in if is_empty rest && is_space c then [] else c ∷ rest

-- strings.TrimSpace
unfoldable pub trim : Text → Text
unfolding trim_left trim_right
trim s = trim_right (trim_left s)

abbrev comma : ℕ
comma = 44

pub record Endpoint : Type 0 where
  pub id : String
  pub url : String
  pub events : Text
  pub secret : String
  pub active : Bool

unfoldable pub any_wants : Text → List Text → Bool
unfolding trim same
any_wants event [] = false
any_wants event (part ∷ parts) = same (trim part) event || any_wants event parts

unfoldable pub wants : Endpoint → Text → Bool
unfolding trim split any_wants
wants e event =
    if not e.active
    then false
    else if is_empty (trim e.events)
    then true
    else any_wants event (split comma e.events)

pub data DeliveryStatus : Type 0 where
  pending delivered dead : DeliveryStatus

-- Times are nanoseconds.
pub record Delivery : Type 0 where
  pub id : String
  pub endpoint_id : String
  pub event_id : String
  pub event : Text
  pub payload : String
  pub status : DeliveryStatus
  pub attempts : ℕ
  pub next_attempt_at : ℕ
  pub last_error : String
  pub last_status_code : ℕ
  pub created_at : ℕ
  pub updated_at : ℕ
  pub delivered_at : Option ℕ
