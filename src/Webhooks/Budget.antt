-- ===== src/Webhooks/Budget.antt =====
-- How often and for how long a delivery is tried.
use sannad.Prelude.{
  ℕ, zero, suc, ◌≤◌, ◌<◌, ◌+◌, ◌-◌, ◌*◌, ◌/◌, ◌^◌, String, none, some, ◌≡◌, arith, true, false, ◌⊎◌,
  refl, Bool, ◌||◌, not, leb, inl, inr, ap, ltb, if◌then◌else◌,
}
use sannad.Webhooks.{Delivery, DeliveryStatus, pending, delivered, dead}
use sannad.Webhooks.Retry.{
  Outcome, second, max_attempts, max_delay, base_delay, backoff_for, advance,
}

-- No delay passes its doubling, nor the cap.
backoff_for-le : (n : ℕ) → (backoff_for (n + 1) ≤ base_delay * 2 ^ n) × (backoff_for n ≤ max_delay)
unfolding backoff_for
backoff_for-le n = (rw (exponent, backoff_for) (ground arith), ground arith)
  where
    exponent : (if ltb (n + 1) 1 then 1 else n + 1) - 1 ≡ n
    exponent = ground arith

-- An attempt is counted; it is to be repeated only while the delivery is pending with fewer than
-- eight attempts, otherwise the delivery is delivered or dead, and delivered only without an error.
pub advance_status :
    (d : Delivery) (outcome : Outcome) (now : ℕ) (jitter : ℕ → ℕ)
    → let (d', again) = advance d outcome now jitter in
      (d'.attempts ≡ d.attempts + 1)
      × ((again ≡ true) → (d'.status ≡ pending) × (d'.attempts < max_attempts))
      × ((again ≡ false) → (d'.status ≡ delivered) ⊎ (d'.status ≡ dead))
      × ((d'.status ≡ delivered) → outcome.error ≡ none)
unfolding advance
advance_status d outcome now jitter = (ground arith, ground arith, ground arith, ground arith)

-- An attempt with an outcome, made when it is due; none is made of a delivery that is not pending.
abbrev pub attempt_due : DeliveryStatus → Outcome → (ℕ → ℕ) → Delivery → Delivery
attempt_due pending outcome jitter d = (advance d outcome d.next_attempt_at jitter).0
attempt_due _ outcome jitter d = d

-- Up to `n` attempts in a row with the given outcomes.
abbrev pub rounds : ℕ → (ℕ → Outcome) → (ℕ → ℕ) → Delivery → Delivery
rounds zero outcomes jitter d = d
rounds (suc n) outcomes jitter d =
    let d' = rounds n outcomes jitter d in attempt_due d'.status (outcomes n) jitter d'

-- The waits before attempt `n + 1`, with a jitter of a fifth: 12 s, 24 s, and so on.
abbrev waits : ℕ → ℕ
waits zero = 0
waits (suc n) = waits n + 12 * second * 2 ^ n

waits-le : (n k : ℕ) → waits n ≤ waits (n + k)
waits-le n zero = let e : n + zero ≡ n = omega arith in omega (arith, ap waits e)
waits-le n (suc k) =
    let e : n + suc k ≡ suc (n + k) = omega arith in omega (arith, waits-le n k, ap waits e)

-- After `n` attempts that failed: another is due, or the delivery is dead.
abbrev Failing : ℕ → ℕ → Delivery → Type 0
Failing start n d =
    (d.next_attempt_at ≤ start + waits n)
    × (((d.status ≡ pending) × (d.attempts ≡ n) × (n < max_attempts)) ⊎ (d.status ≡ dead))

advance-Failing :
    (start n : ℕ) (d : Delivery) (outcome : Outcome) (jitter : ℕ → ℕ)
    → ((x : ℕ) → jitter x ≤ x + x / 5)
    → (text : String) → outcome.error ≡ some text
    → d.next_attempt_at ≤ start + waits n
    → d.attempts ≡ n
    → n < max_attempts
    → Failing start (suc n) (advance d outcome d.next_attempt_at jitter).0
unfolding advance
advance-Failing start n d outcome jitter spread text failed due count few =
    go (not outcome.retryable || leb max_attempts (d.attempts + 1)) refl
  where
    go :
        (b : Bool)
        → (not outcome.retryable || leb max_attempts (d.attempts + 1)) ≡ b
        → Failing start (suc n) (advance d outcome d.next_attempt_at jitter).0
    go true e = rw (failed, e) (omega (arith, due), inr refl)
    go false e =
        rw (failed, e)
          (
            omega (
              arith,
              due,
              spread (backoff_for (d.attempts + 1)),
              (backoff_for-le d.attempts).0,
              ap (λ k. 2 ^ k) count,
            ),
            inl (refl, omega (arith, count), ground (arith, e, count)),
          )

attempt_due-Failing :
    (start n : ℕ) (d : Delivery) (outcome : Outcome) (jitter : ℕ → ℕ)
    → ((x : ℕ) → jitter x ≤ x + x / 5)
    → (text : String) → outcome.error ≡ some text
    → (status : DeliveryStatus) → d.status ≡ status
    → Failing start n d
    → Failing start (suc n) (attempt_due status outcome jitter d)
attempt_due-Failing start n d outcome jitter spread text failed pending e
      (due, inl (_, count, few)) =
    advance-Failing start n d outcome jitter spread text failed due count few
attempt_due-Failing start n d outcome jitter spread text failed pending e (due, inr over) =
    absurd (cc (e, over))
attempt_due-Failing start n d outcome jitter spread text failed delivered e (due, inl (w, _, _)) =
    absurd (cc (e, w))
attempt_due-Failing start n d outcome jitter spread text failed delivered e (due, inr over) =
    absurd (cc (e, over))
attempt_due-Failing start n d outcome jitter spread text failed dead e (due, state) =
    (omega (arith, due), inr e)

module _ (d : Delivery) (outcomes : ℕ → Outcome) (jitter : ℕ → ℕ) (ready : d.status ≡ pending)
    (fresh : d.attempts ≡ 0)
    (failing : (n : ℕ) → (text : String) × ((outcomes n).error ≡ some text))
    (spread : (x : ℕ) → jitter x ≤ x + x / 5) where
  rounds-Failing :
      (n : ℕ) → n ≤ max_attempts → Failing d.next_attempt_at n (rounds n outcomes jitter d)
  rounds-Failing zero le = (omega arith, inl (ready, fresh, omega arith))
  rounds-Failing (suc n) le =
      let d' = rounds n outcomes jitter d in
      let (text, failed) = failing n in
      attempt_due-Failing d.next_attempt_at n d' (outcomes n) jitter spread text failed d'.status
        refl (rounds-Failing n (omega arith))

  -- A delivery that is pending and without attempts, and whose attempts all fail, in whatever way,
  -- each made when it is due and with a jitter of at most a fifth, is dead after at most eight
  -- attempts, of which none is made more than 1524 seconds after the first.
  pub dead_within :
      ((rounds max_attempts outcomes jitter d).status ≡ dead)
      × ((n : ℕ)
          → n < max_attempts
          → (rounds n outcomes jitter d).next_attempt_at ≤ d.next_attempt_at + 1524 * second)
  dead_within = (
    elim (rounds-Failing 8 (omega arith)).1 [
      | inl (waiting, count, few) ↦ absurd (omega (arith, few))
      | inr over ↦ over
    ],
    λ n lt.
        let cut : n + (7 - n) ≡ 7 = omega (arith, lt) in
        omega (arith, (rounds-Failing n (omega (arith, lt))).0, waits-le n (7 - n), ap waits cut),
  )
