-- ===== src/Hooks/Examples.antt =====
-- A hook point with subscribers, and the theorems at it.
use mathlib.Core.List.{Perm}
use sannad.Prelude.{String, none, some, List, [], ◌∷◌, ◌++◌, ◌≡◌, refl, inl, inr}
use sannad.Prelude.Int.{ℤ, pos, negsuc, lt_codes}
use sannad.Hooks.{
  HookKind, FailurePolicy, fail_closed, fail_open, Ref, key, HookPoint, subscriber_failed, rejected,
  Value, plain, veto, Ending, returned, panicked, Subscription,
}
use sannad.Hooks.Registry.{Registry, sort_stable, subscribers_of}
use sannad.Hooks.Dispatch.{validate, notify, transform, invoke}
use sannad.Hooks.Order.{exchange, IsByPriority, sort_stable-IsByPriority, sort_stable-Reorder}
use sannad.Hooks.Laws.{
  run_all, vetoes_of, Chained, Blames, validate_complete, notify_closed, transform_open,
}

-- A world that keeps who was called.
abbrev Calls : Type 0
Calls = List String

abbrev placed : Ref
placed = record { name = "orders.placed"; version = "v1" }

abbrev subscriber : String → ℤ → Ending String → Subscription Calls String
subscriber id priority ending = record {
  ref = placed;
  module_id = id;
  priority = priority;
  handler = some (λ v w. (ending, w ++ id ∷ []));
}

abbrev credit : Subscription Calls String
credit =
    subscriber "credit" (negsuc 4)
      (returned (some (veto (record { module_id = ""; reason = "limit" }))) none)

abbrev stock : Subscription Calls String
stock =
    subscriber "stock" (pos 0)
      (returned (some (veto (record { module_id = "x"; reason = "empty" }))) none)

abbrev audit : Subscription Calls String
audit = subscriber "audit" (pos 0) panicked

abbrev point : HookKind → FailurePolicy → HookPoint
point kind policy = record { ref = placed; kind = kind; policy = policy; timeout = pos 5 }

abbrev offered : HookKind → FailurePolicy → List (Subscription Calls String) → Registry Calls String
offered kind policy subs = record {
  points = (key placed, record { point = point kind policy; owner = "orders" }) ∷ [];
  subs = (key placed, subs) ∷ [];
}

abbrev value : Value String
value = plain "o-1"

sort_stable-Reorder_example : sort_stable (stock ∷ credit ∷ []) ≡ sort_stable (credit ∷ stock ∷ [])
sort_stable-Reorder_example = sort_stable-Reorder (exchange stock credit [] (inr (inl refl)))

validate_complete_example :
    validate placed value (offered HookKind.validator fail_open (stock ∷ credit ∷ [])) [] ≡ (
      some (
          rejected placed (
            record { module_id = "credit"; reason = "limit" }
            ∷ record { module_id = "stock"; reason = "empty" }
            ∷ [])),
      "credit" ∷ "stock" ∷ [],
    )
unfolding vetoes_of run_all subscribers_of invoke
validate_complete_example =
    validate_complete placed value (offered HookKind.validator fail_open (stock ∷ credit ∷ [])) []
      (record { point = point HookKind.validator fail_open; owner = "orders" })
      (credit ∷ stock ∷ []) refl refl (refl, (refl, tt))

transform_open_example :
    (result : Value String) × (after : Calls) × (transform placed value
        (offered HookKind.transformer fail_open (audit ∷ []))
        []
      ≡ (none, some result, after))
    × Chained value (audit ∷ []) [] result after
unfolding subscribers_of invoke
transform_open_example =
    transform_open placed value (offered HookKind.transformer fail_open (audit ∷ [])) []
      (record { point = point HookKind.transformer fail_open; owner = "orders" }) (audit ∷ []) refl
      refl refl

notify_closed_example :
    (who : String) × (notify placed value
        (offered HookKind.observer fail_closed (stock ∷ audit ∷ credit ∷ []))
        []
      ≡ (some (subscriber_failed who), "credit" ∷ "audit" ∷ []))
    × Blames "audit" (subscriber_failed "audit") who
unfolding run_all subscribers_of lt_codes invoke
notify_closed_example =
    notify_closed placed value (offered HookKind.observer fail_closed (stock ∷ audit ∷ credit ∷ []))
      [] (record { point = point HookKind.observer fail_closed; owner = "orders" }) (credit ∷ [])
      (stock ∷ []) audit (subscriber_failed "audit") refl refl refl (refl, tt) refl

sort_stable-IsByPriority_example :
    IsByPriority (sort_stable (stock ∷ credit ∷ []))
    × Perm (sort_stable (stock ∷ credit ∷ [])) (stock ∷ credit ∷ [])
sort_stable-IsByPriority_example = sort_stable-IsByPriority (stock ∷ credit ∷ [])
