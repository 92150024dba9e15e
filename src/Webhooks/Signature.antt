-- ===== src/Webhooks/Signature.antt =====
-- The signature of a delivery (internal/platform/webhooks/webhook.go). `hmac` is HMAC-SHA256 in
-- hexadecimal under a secret, and `printed` is the `%d` of `fmt`. Times are nanoseconds since 1970.
use sannad.Prelude.{
  ℕ, false, Option, none, some, [], ◌∷◌, ◌++◌, ◌≡◌, refl, ◌-◌, ◌/◌, ◌==◌, not, ltb, arith,
  if◌then◌else◌,
}
use sannad.Prelude.Texts.{Text, same, same_refl}
use sannad.Webhooks.Retry.{second}

pub data Refusal : Type 0 where
  invalid_signature stale_signature : Refusal

-- The number of nanoseconds between two times: `age`, negated where it is below 0.
abbrev pub age : ℕ → ℕ → ℕ
age now timestamp = if ltb now timestamp then timestamp - now else now - timestamp

-- A text with no dot in it.
abbrev pub NoDot : Text → Type 0
NoDot [] = Unit
NoDot (c ∷ cs) = (c == 46 ≡ false) × NoDot cs

split_at_dot : (a b p q : Text) → NoDot a → NoDot b → a ++ 46 ∷ p ≡ b ++ 46 ∷ q → (a ≡ b) × (p ≡ q)
split_at_dot [] [] p q h k e = (refl, cc)
split_at_dot [] (y ∷ b) p q h k e = absurd (ground (arith, k.0))
split_at_dot (x ∷ a) [] p q h k e = absurd (ground (arith, h.0))
split_at_dot (x ∷ a) (y ∷ b) p q h k e =
    let (same_head, same_rest) = split_at_dot a b p q h.1 k.1 (cc e) in
    (cc (e, same_head), same_rest)

module _ (printed : ℕ → Text) where
  -- What the MAC is computed over: the timestamp in seconds, a dot, and the payload.
  abbrev pub material : ℕ → Text → Text
  material timestamp payload = printed (timestamp / second) ++ 46 ∷ payload

  -- Where the printed seconds hold no dot, what is signed determines the printed timestamp and the
  -- payload: no two deliveries that differ in one of them are signed over the same text.
  pub material_injective :
      ((n : ℕ) → NoDot (printed n))
      → (t u : ℕ) (p q : Text) → material t p ≡ material u q
      → (printed (t / second) ≡ printed (u / second)) × (p ≡ q)
  material_injective plain t u p q e =
      split_at_dot (printed (t / second)) (printed (u / second)) p q (plain (t / second))
        (plain (u / second)) e

module _ (hmac : Text → Text → Text) (printed : ℕ → Text) where
  unfoldable pub sign : Text → ℕ → Text → Text
  sign secret timestamp payload = hmac secret (material printed timestamp payload)

  unfoldable pub verify : Text → Text → ℕ → Text → ℕ → ℕ → Option Refusal
  unfolding sign same
  verify secret signature timestamp payload tolerance now =
      if not (same (sign secret timestamp payload) signature)
      then some invalid_signature
      else if ltb tolerance (age now timestamp)
      then some stale_signature
      else none

  -- A signature that Sign made is accepted while the receiver's clock is within the tolerance of
  -- its timestamp, on either side, and is refused as stale outside it.
  pub verify-sign :
      (secret : Text) (timestamp : ℕ) (payload : Text) (tolerance now : ℕ)
      → verify secret (sign secret timestamp payload) timestamp payload tolerance now
        ≡ (if ltb tolerance (age now timestamp) then some stale_signature else none)
  unfolding verify
  verify-sign secret timestamp payload tolerance now =
      rw (same_refl (sign secret timestamp payload)) refl
