-- ===== src/Hooks/Dispatch.antt =====
-- Notify, Validate and Transform (internal/kernel/hooks/dispatch.go), with the guards `invoke`,
-- `requireKind` and `applyPolicy` of internal/kernel/hooks/registry.go.
use sannad.Prelude.{
  String, Bool, true, false, Option, none, some, List, [], ◌∷◌, ◌++◌, if◌then◌else◌,
}
use sannad.Hooks.{
  HookKind, FailurePolicy, fail_closed, Ref, key, HookPoint, Rejection, Error, invalid_hook_point,
  hook_not_offered, subscriber_failed, rejected, Value, plain, veto, veto_pointer, Ending, returned,
  panicked, timed_out, cancelled, Subscription,
}
use sannad.Hooks.Registry.{Registry, subscribers_of}

abbrev pub same_kind : HookKind → HookKind → Bool
same_kind HookKind.observer HookKind.observer = true
same_kind HookKind.validator HookKind.validator = true
same_kind HookKind.transformer HookKind.transformer = true
same_kind _ _ = false

abbrev require_kind : HookPoint → HookKind → Option Error
require_kind p want = if same_kind p.kind want then none else some invalid_hook_point

-- asRejection, on a result that may be nil.
abbrev pub as_rejection : {V : Type 0} → Option (Value V) → Option Rejection
as_rejection none = none
as_rejection (some (plain _)) = none
as_rejection (some (veto r)) = some r
as_rejection (some (veto_pointer r)) = r

-- A result and an error; either may be nil.
pub record Reply (V : Type 0) : Type 0 where
  pub value : Option (Value V)
  pub error : Option Error

-- The wait of `invoke`: a panic, a timeout and a cancellation are failures of the subscriber.
abbrev reply_of : {V : Type 0} → String → Ending V → Reply V
reply_of id (returned value error) = record { value = value; error = error }
reply_of id panicked = record { value = none; error = some (subscriber_failed id) }
reply_of id timed_out = record { value = none; error = some (subscriber_failed id) }
reply_of id cancelled = record { value = none; error = some (subscriber_failed id) }

abbrev pub wrap : String → Error → Error
wrap id (subscriber_failed who) = subscriber_failed who
wrap id e = subscriber_failed id

abbrev pub is_closed : FailurePolicy → Bool
is_closed fail_closed = true
is_closed _ = false

-- applyPolicy: the error that stops the dispatch, if one does. A failure that is let pass is
-- only logged.
abbrev pub apply_policy : HookPoint → String → Option Error → Option Error
apply_policy point id none = none
apply_policy point id (some e) = if is_closed point.policy then some (wrap id e) else none

abbrev is_none {ℓ} : {A : Type ℓ} → Option A → Bool
is_none none = true
is_none (some _) = false

-- `err == nil && result != nil`
abbrev pub next_value : {V : Type 0} → Value V → Reply V → Value V
next_value current r =
    if is_none r.error then elim r.value [ none ↦ current | some v ↦ v ] else current

abbrev pub report : {W : Type 0} → Ref → Option Error × List Rejection × W → Option Error × W
report ref (some e, vetoes, w) = (some e, w)
report ref (none, [], w) = (none, w)
report ref (none, rej ∷ vetoes, w) = (some (rejected ref (rej ∷ vetoes)), w)

module _ {W V : Type 0} where
  -- A nil handler is a call that panics.
  unfoldable pub invoke : Subscription W V → Value V → W → Reply V × W
  invoke sub value w = elim sub.handler [
    | none ↦ (reply_of sub.module_id panicked, w)
    | some h ↦ (reply_of sub.module_id (h value w).0, (h value w).1)
  ]

  unfoldable pub notify_all : HookPoint → Value V → List (Subscription W V) → W → Option Error × W
  notify_all point value [] w = (none, w)
  notify_all point value (sub ∷ rest) w =
      let r = invoke sub value w in
      elim (apply_policy point sub.module_id r.0.error) [
        | some e ↦ (some e, r.1)
        | none ↦ notify_all point value rest r.1
      ]

  -- The loop of `Validate`; the vetoes so far are stamped with their subscribers.
  unfoldable pub validate_all :
      HookPoint
      → Value V
      → List (Subscription W V)
      → List Rejection
      → W
      → Option Error × List Rejection × W
  validate_all point value [] vetoes w = (none, vetoes, w)
  validate_all point value (sub ∷ rest) vetoes w =
      let r = invoke sub value w in
      elim (apply_policy point sub.module_id r.0.error) [
        | some e ↦ (some e, vetoes, r.1)
        | none ↦ elim (as_rejection r.0.value) [
          | none ↦ validate_all point value rest vetoes r.1
          | some rej ↦
              validate_all point value rest
                (vetoes ++ record rej { module_id = sub.module_id } ∷ []) r.1
        ]
      ]

  unfoldable pub transform_all :
      HookPoint → Value V → List (Subscription W V) → W → Option Error × Option (Value V) × W
  transform_all point current [] w = (none, some current, w)
  transform_all point current (sub ∷ rest) w =
      let r = invoke sub current w in
      elim (apply_policy point sub.module_id r.0.error) [
        | some e ↦ (some e, none, r.1)
        | none ↦ transform_all point (next_value current r.0) rest r.1
      ]

  unfoldable pub notify : Ref → Value V → Registry W V → W → Option Error × W
  notify ref value r w = elim (subscribers_of (key ref) r) [
    | none ↦ (some hook_not_offered, w)
    | some (p, subs) ↦ elim (require_kind p.point HookKind.observer) [
      | some e ↦ (some e, w)
      | none ↦ notify_all p.point value subs w
    ]
  ]

  unfoldable pub validate : Ref → Value V → Registry W V → W → Option Error × W
  validate ref value r w = elim (subscribers_of (key ref) r) [
    | none ↦ (some hook_not_offered, w)
    | some (p, subs) ↦ elim (require_kind p.point HookKind.validator) [
      | some e ↦ (some e, w)
      | none ↦ report ref (validate_all p.point value subs [] w)
    ]
  ]

  unfoldable pub transform : Ref → Value V → Registry W V → W → Option Error × Option (Value V) × W
  transform ref value r w = elim (subscribers_of (key ref) r) [
    | none ↦ (some hook_not_offered, none, w)
    | some (p, subs) ↦ elim (require_kind p.point HookKind.transformer) [
      | some e ↦ (some e, none, w)
      | none ↦ transform_all p.point value subs w
    ]
  ]

-- RejectionsFrom
abbrev pub rejections_from : Error → Option (List Rejection)
rejections_from (rejected _ vetoes) = some vetoes
rejections_from _ = none
