-- ===== src/Wasm/Host.antt =====
-- The invocation of a guest (internal/kernel/wasmhost/host.go). The runtime that compiles and runs
-- guests is external: its calls are the functions of a `Runtime`, and may change the world, since a
-- guest that runs makes host calls. A call that ends after the deadline has `timed_out`.
use sannad.Prelude.{
  ℕ, Bool, Option, none, some, List, [], ◌∷◌, ◌++◌, ◌%◌, ◌==◌, length, ltb, if◌then◌else◌,
}
use sannad.Prelude.Texts.{Text, is_empty}
use sannad.Wasm.Abi.{word, pack_result, status_of, status_error}
use sannad.Wasm.CallState.{new_call_state}
use sannad.Wasm.Keys.{CapabilityRef, key}
use sannad.Wasm.Context.{Deps, Context, World, Reply, done, failed, default_max_call_depth}
use sannad.Wasm.Chain as Chain
use sannad.Wasm.Chain.{Admission, admit}

-- How a call into a guest ends.
pub data Ending (A : Type 0) : Type 0 where
  finished : A → Ending A
  timed_out trapped : Ending A

-- `guest_contract` to `response_too_large` are the errors of Invoke.
pub data Error : Type 0 where
  no_tenant call_cycle call_depth_exceeded : Error
  guest_contract guest_failed guest_timeout response_too_large : Error
  encoding : Text → Error
  forbidden : Text → Error

pub data Result (A : Type 0) : Type 0 where
  ok : A → Result A
  err : Error → Result A

-- `I` is an instance of a guest, whose calls may change it.
pub record Runtime (C E W G I : Type 0) : Type 0 where
  pub instantiate : G → Context C E → World W → Ending I × World W
  pub has_memory : I → Bool
  pub alloc : I → Context C E → ℕ → World W → Ending (List ℕ × I) × World W
  pub handle : I → Context C E → ℕ → ℕ → World W → Ending (List ℕ × I) × World W
  pub write : I → ℕ → Text → Option I
  pub read : I → ℕ → ℕ → Option Text

-- The limits of `Config`, with the timeout in nanoseconds.
pub record Config : Type 0 where
  pub max_memory_pages : ℕ
  pub timeout : ℕ
  pub max_response_bytes : ℕ

abbrev pub default_max_memory_pages : ℕ
default_max_memory_pages = 256

abbrev pub default_timeout : ℕ
default_timeout = 50000000

abbrev pub default_max_response_bytes : ℕ
default_max_response_bytes = 1048576

unfoldable pub apply_defaults : Config → Config
apply_defaults config = record {
  max_memory_pages =
      if config.max_memory_pages == 0 then default_max_memory_pages else config.max_memory_pages;
  timeout = if config.timeout == 0 then default_timeout else config.timeout;
  max_response_bytes =
      if config.max_response_bytes == 0
      then default_max_response_bytes
      else config.max_response_bytes;
}

pub record Plugin (C E G : Type 0) : Type 0 where
  pub config : Config
  pub guest : G
  pub v2 : Option (Deps C E)

module _ {C E W : Type 0} where
  -- The context in which Invoke runs a guest: under the plugin's grants, where it has any, and with
  -- a state of its own.
  unfoldable pub enter : Option (Deps C E) → Context C E → World W → Context C E × World W
  enter none context w = (context, w)
  enter (some deps) context w = (
    record context { deps = some deps; call_state = some (length w.states) },
    record w { states = w.states ++ new_call_state ∷ [] },
  )

-- Plugin.classify
abbrev pub classify : {A B : Type 0} → Ending A → (A → Result B) → Result B
classify (finished a) f = f a
classify timed_out f = err guest_timeout
classify trapped f = err guest_failed

abbrev pub response : Option Text → Result Text
response none = err guest_failed
response (some bytes) = ok bytes

module _ {C E W G I : Type 0} where
  abbrev pub respond : Runtime C E W G I → ℕ → List ℕ × I → Result Text
  respond runtime max ([], instance) = err guest_contract
  respond runtime max (packed ∷ results, instance) =
      let (ptr, length) = pack_result packed in
      if ltb max length then err response_too_large else response (runtime.read instance ptr length)

  abbrev pub handled : Runtime C E W G I → ℕ → Ending (List ℕ × I) × World W → Result Text × World W
  handled runtime max (ending, w) = (classify ending (respond runtime max), w)

  abbrev pub handle_in :
      Runtime C E W G I → ℕ → Context C E → Text → ℕ → World W → Option I → Result Text × World W
  handle_in runtime max context request ptr w none = (err guest_failed, w)
  handle_in runtime max context request ptr w (some instance) =
      handled runtime max (runtime.handle instance context ptr (length request) w)

  abbrev pub allocated :
      Runtime C E W G I
      → ℕ
      → Context C E
      → Text
      → Ending (List ℕ × I) × World W
      → Result Text × World W
  allocated runtime max context request (timed_out, w) = (err guest_timeout, w)
  allocated runtime max context request (trapped, w) = (err guest_failed, w)
  allocated runtime max context request (finished ([], instance), w) = (err guest_contract, w)
  allocated runtime max context request (finished (value ∷ values, instance), w) =
      handle_in runtime max context request (value % word) w
        (runtime.write instance (value % word) request)

  abbrev pub instantiated :
      Runtime C E W G I → ℕ → Context C E → Text → Ending I × World W → Result Text × World W
  instantiated runtime max context request (timed_out, w) = (err guest_timeout, w)
  instantiated runtime max context request (trapped, w) = (err guest_failed, w)
  instantiated runtime max context request (finished instance, w) =
      if runtime.has_memory instance
      then allocated runtime max context request (runtime.alloc instance context (length request) w)
      else (err guest_contract, w)

  unfoldable pub invoke :
      Runtime C E W G I → Plugin C E G → Context C E → Text → World W → Result Text × World W
  unfolding enter pack_result
  invoke runtime plugin context request w =
      let (inner, begun) = enter plugin.v2 context w in
      instantiated runtime plugin.config.max_response_bytes inner request
        (runtime.instantiate plugin.guest inner begun)

-- The wire format of a deployment, for requests of type `R` and replies of type `S`.
pub record Codec (C E R S : Type 0) : Type 0 where
  pub encode_request : Context C E → CapabilityRef → Text → R → Reply Text
  pub decode_response : CapabilityRef → Text → Reply S

abbrev decoded : {S : Type 0} → Reply S → Result S
decoded (failed text) = err (encoding text)
decoded (done reply) = ok reply

abbrev depth_of : {C E : Type 0} → Option (Deps C E) → ℕ
depth_of none = default_max_call_depth
depth_of (some deps) = deps.limits.max_call_depth

module _ {C E R S : Type 0} where
  abbrev accepted : Codec C E R S → CapabilityRef → Option (ℕ × Text) → Result S
  accepted codec ref none = err guest_failed
  accepted codec ref (some (status, body)) =
      if status == status_error
      then err (forbidden body)
      else decoded (codec.decode_response ref body)

module _ {C E W R S : Type 0} where
  abbrev replied : Codec C E R S → CapabilityRef → Result Text × World W → Result S × World W
  replied codec ref (err e, w) = (err e, w)
  replied codec ref (ok raw, w) = (accepted codec ref (status_of raw), w)

module _ {C E W G I R S : Type 0} where
  abbrev invoked :
      Runtime C E W G I
      → Plugin C E G
      → Codec C E R S
      → CapabilityRef
      → Context C E
      → World W
      → Reply Text
      → Result S × World W
  invoked runtime plugin codec ref context w (failed text) = (err (encoding text), w)
  invoked runtime plugin codec ref context w (done payload) =
      replied codec ref (invoke runtime plugin context payload w)

  abbrev served :
      Runtime C E W G I
      → Plugin C E G
      → Codec C E R S
      → CapabilityRef
      → Context C E
      → R
      → World W
      → Admission
      → Result S × World W
  served runtime plugin codec ref context request w Chain.call_cycle = (err call_cycle, w)
  served runtime plugin codec ref context request w Chain.call_depth_exceeded =
      (err call_depth_exceeded, w)
  served runtime plugin codec ref context request w (Chain.admitted chain) =
      let inner = record context { call_chain = chain } in
      invoked runtime plugin codec ref inner w
        (codec.encode_request inner ref context.tenant request)

  -- Plugin.Handler
  unfoldable pub handler :
      Runtime C E W G I
      → Plugin C E G
      → Codec C E R S
      → CapabilityRef
      → Context C E
      → R
      → World W
      → Result S × World W
  unfolding invoke status_of admit key
  handler runtime plugin codec ref context request w =
      if is_empty context.tenant
      then (err no_tenant, w)
      else served runtime plugin codec ref context request w
          (admit (depth_of plugin.v2) (key ref) context.call_chain)
