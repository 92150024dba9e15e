-- ===== src/Hooks.antt =====
-- Hook points (pkg/modulekit/hook.go): declarations, subscriptions, and the errors of
-- pkg/modulekit/errors.go that concern them.
pub mod Registry
pub mod Dispatch
pub mod Order
pub mod Laws
mod Examples
use Prim.Native.String.{◌++◌ as str_append}
use sannad.Prelude.{
  String, Bool, true, false, Option, none, some, List, ◌&&◌, ◌||◌, not, str_eq, if◌then◌else◌,
}
use sannad.Prelude.Int.{ℤ, pos, lt_ℤ}

-- Strings in the source, so a declaration may hold another value.
pub data HookKind : Type 0 where
  observer validator transformer : HookKind
  other_kind : String → HookKind

pub data FailurePolicy : Type 0 where
  fail_closed fail_open : FailurePolicy
  other_policy : String → FailurePolicy

abbrev pub valid_kind : HookKind → Bool
valid_kind (other_kind _) = false
valid_kind _ = true

abbrev valid_policy : FailurePolicy → Bool
valid_policy (other_policy _) = false
valid_policy _ = true

pub record Ref : Type 0 where
  pub name : String
  pub version : String

-- HookRef.Key and CapabilityRef.Key
abbrev pub key : Ref → String
key ref = str_append ref.name (str_append "@" ref.version)

pub record HookPoint : Type 0 where
  pub ref : Ref
  pub kind : HookKind
  pub policy : FailurePolicy
  pub timeout : ℤ

pub record Rejection : Type 0 where
  pub module_id : String
  pub reason : String

-- An error, by what `errors.Is` and `errors.As` see of it.
pub data Error : Type 0 where
  invalid_hook_point hook_not_offered hook_already_offered : Error
  subscriber_failed : String → Error
  rejected : Ref → List Rejection → Error
  other : String → Error

-- `any`: a value of the flow, or a veto by value or by pointer, which may be nil.
pub data Value (V : Type 0) : Type 0 where
  plain : V → Value V
  veto : Rejection → Value V
  veto_pointer : Option Rejection → Value V

-- How one call of a subscriber ends: it returns a result and an error, either may be nil, or it
-- panics, or the hook point's timeout or the caller's context ends the wait.
pub data Ending (V : Type 0) : Type 0 where
  returned : Option (Value V) → Option Error → Ending V
  panicked timed_out cancelled : Ending V

-- A subscriber acts on a world that the modules share. `none` is a nil handler.
pub record Subscription (W V : Type 0) : Type 0 where
  pub ref : Ref
  pub module_id : String
  pub priority : ℤ
  pub handler : Option (Value V → W → Ending V × W)

-- HookPoint.Validate; `none` is nil.
unfoldable pub validate_point : HookPoint → Option Error
validate_point h =
    if str_eq h.ref.name "" || str_eq h.ref.version ""
    then some invalid_hook_point
    else if not (valid_kind h.kind)
    then some invalid_hook_point
    else if not (valid_policy h.policy)
    then some invalid_hook_point
    else if not (lt_ℤ (pos 0) h.timeout)
    then some invalid_hook_point
    else none
