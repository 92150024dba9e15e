-- ===== src/Wasm/Context.antt =====
-- What a guest's host calls reach (internal/kernel/wasmhost/hostcalls.go and host.go): the grants of
-- its plugin, the context of the invocation, and the world. The runtime's memory, the JSON decoder,
-- the kernel's caller and the event publisher are the functions of a `Host`.
use sannad.Prelude.{ℕ, Option, List, [], ◌∷◌, zero, suc, ◌==◌, if◌then◌else◌, map}
use sannad.Prelude.Texts.{Text}
use sannad.Wasm.CallState.{CallState, new_call_state}
use sannad.Wasm.Keys.{CapabilityRef, key}

pub record Limits : Type 0 where
  pub max_outbound_request_bytes : ℕ
  pub max_result_bytes : ℕ
  pub max_result_handles : ℕ
  pub max_event_payload_bytes : ℕ
  pub max_call_depth : ℕ

-- Operator policy. `C` is a kernel caller, `E` an event publisher; none is Go's nil.
pub record V2Config (C E : Type 0) : Type 0 where
  pub caller : Option C
  pub events : Option E
  pub consumes : List CapabilityRef
  pub publishes_events : List Text
  pub limits : Limits

-- The grants are sets of keys.
pub record Deps (C E : Type 0) : Type 0 where
  pub module_id : Text
  pub caller : Option C
  pub events : Option E
  pub consume : List Text
  pub publish : List Text
  pub limits : Limits

unfoldable pub or_default : ℕ → ℕ → ℕ
or_default value fallback = if value == 0 then fallback else value

abbrev pub default_max_outbound_request_bytes : ℕ
default_max_outbound_request_bytes = 1048576

abbrev pub default_max_result_bytes : ℕ
default_max_result_bytes = 1048576

abbrev pub default_max_result_handles : ℕ
default_max_result_handles = 32

abbrev pub default_max_event_payload_bytes : ℕ
default_max_event_payload_bytes = 1048576

abbrev pub default_max_call_depth : ℕ
default_max_call_depth = 8

module _ {C E : Type 0} where
  unfoldable pub new_v2_deps : Text → V2Config C E → Deps C E
  unfolding or_default key
  new_v2_deps module_id config = record {
    module_id = module_id;
    caller = config.caller;
    events = config.events;
    consume = map (λ ref. key ref) config.consumes;
    publish = config.publishes_events;
    limits = record {
      max_outbound_request_bytes =
          or_default config.limits.max_outbound_request_bytes default_max_outbound_request_bytes;
      max_result_bytes = or_default config.limits.max_result_bytes default_max_result_bytes;
      max_result_handles = or_default config.limits.max_result_handles default_max_result_handles;
      max_event_payload_bytes =
          or_default config.limits.max_event_payload_bytes default_max_event_payload_bytes;
      max_call_depth = or_default config.limits.max_call_depth default_max_call_depth;
    };
  }

-- The values of the Go context: `call_state` is the pointer to the state of the invocation, as its
-- place among all states, and `tenant` is empty where there is none.
pub record Context (C E : Type 0) : Type 0 where
  pub deps : Option (Deps C E)
  pub call_state : Option ℕ
  pub call_chain : List Text
  pub tenant : Text

-- The states of all invocations, and what lies outside the sandbox.
pub record World (W : Type 0) : Type 0 where
  pub states : List CallState
  pub outside : W

pub data Reply (A : Type 0) : Type 0 where
  done : A → Reply A
  failed : Text → Reply A

-- What a capability returned: bytes that are encoded already, or any other value.
pub data Value (V : Type 0) : Type 0 where
  raw_payload : Text → Value V
  value : V → Value V

-- `M` is the memory of one instance of a guest, `V` a Go value. A read or a write out of range
-- gives none. `call` and `publish` may change the world, the states of other invocations included.
pub record Host (C E W M V : Type 0) : Type 0 where
  pub read : M → ℕ → ℕ → Option Text
  pub write : M → ℕ → Text → Option M
  pub parse_call : Text → Reply (Text × Text)
  pub parse_event : Text → Reply (Text × Text)
  pub marshal : V → Reply Text
  pub call : C → Context C E → CapabilityRef → Text → World W → Reply (Value V) × World W
  pub publish : E → Context C E → Text → Text → World W → Reply (Unit {0}) × World W

unfoldable pub state_at : ℕ → List CallState → CallState
state_at p [] = new_call_state
state_at zero (s ∷ states) = s
state_at (suc p) (s ∷ states) = state_at p states

unfoldable pub write_state : ℕ → CallState → List CallState → List CallState
write_state p t [] = []
write_state zero t (s ∷ states) = t ∷ states
write_state (suc p) t (s ∷ states) = s ∷ write_state p t states
