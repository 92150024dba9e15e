-- ===== src/Wasm/Module.antt =====
-- A sandboxed module (internal/kernel/wasmhost/module.go and codec.go): its construction, what its
-- Install does with the registrar, and the envelopes of its capabilities and hooks.
use sannad.Prelude.{
  ℕ, Bool, true, false, Option, none, some, List, [], ◌∷◌, ◌&&◌, ◌||◌, ◌==◌, not, if◌then◌else◌,
}
use sannad.Prelude.Int.{codes}
use sannad.Prelude.Texts.{Text, same, is_empty}
use sannad.Hooks.{HookKind, observer, validator, transformer, other_kind}
use sannad.Wasm.Abi.{status_of, status_ok, status_error}
use sannad.Wasm.Keys.{CapabilityRef, key}
use sannad.Wasm.Context.{Limits, V2Config, Context, World, Reply, done, failed}
use sannad.Wasm.Host.{
  Config, Plugin, Codec, Runtime, invoke, Result, ok, err, no_tenant, encoding, guest_failed,
}
use sannad.Wasm.Load as Load
use sannad.Wasm.Load.{Compiler, Loaded, loaded, load}
use sannad.Wasm.Manifest as Manifest
use sannad.Wasm.Manifest.{ApprovedManifest, HookGrant, validate_manifest}

-- The operator's policy for one module: `limits` are those of the host calls.
pub record ModuleConfig (C E : Type 0) : Type 0 where
  pub manifest : ApprovedManifest
  pub wasm : Text
  pub caller : Option C
  pub events : Option E
  pub config : Config
  pub limits : Limits

pub record Module (C E G : Type 0) : Type 0 where
  pub manifest : ApprovedManifest
  pub plugin : Plugin C E G

pub data Construction (C E G : Type 0) : Type 0 where
  constructed : Module C E G → Construction C E G
  refused : Manifest.Refusal → Construction C E G
  no_caller no_event_publisher : Construction C E G
  not_loaded : Load.LoadError → Construction C E G

abbrev is_nil : {A : Type 0} → Option A → Bool
is_nil none = true
is_nil (some a) = false

module _ {C E G : Type 0} where
  abbrev wrapped : ApprovedManifest → Loaded C E G → Construction C E G
  wrapped manifest (loaded plugin) = constructed (record { manifest = manifest; plugin = plugin })
  wrapped manifest (Load.refused e) = not_loaded e

  abbrev load_with : Compiler G → ModuleConfig C E → Option (V2Config C E) → Construction C E G
  load_with compiler c v2 = wrapped c.manifest (load compiler c.manifest.id c.wasm c.config v2)

  abbrev construct : Compiler G → ModuleConfig C E → Option Manifest.Refusal → Construction C E G
  construct compiler c (some refusal) = refused refusal
  construct compiler c none =
      if is_empty c.manifest.consumes && is_empty c.manifest.publishes_events
      then load_with compiler c none
      else if not (is_empty c.manifest.consumes) && is_nil c.caller
      then no_caller
      else if not (is_empty c.manifest.publishes_events) && is_nil c.events
      then no_event_publisher
      else load_with compiler c (
          some (record {
            caller = c.caller;
            events = c.events;
            consumes = c.manifest.consumes;
            publishes_events = c.manifest.publishes_events;
            limits = c.limits;
          }))

  unfoldable pub new_module : Compiler G → ModuleConfig C E → Construction C E G
  unfolding validate_manifest load
  new_module compiler c = construct compiler c (validate_manifest c.manifest)

-- The registrar that a module's Install is given: it registers the handler of a capability, and,
-- where it supports hooks, subscribes with a module ID and a priority. `points` are the hook points
-- that it lists, where it can list them. None is nil.
pub record Registrar (S : Type 0) : Type 0 where
  pub register_capability : CapabilityRef → S → Option Text × S
  pub supports_hooks : Bool
  pub points : Option (S → List (CapabilityRef × HookKind))
  pub subscribe : HookGrant → Text → S → Option Text × S

pub data InstallError : Type 0 where
  not_registered not_subscribed : CapabilityRef → Text → InstallError
  no_hook_support : InstallError
  other_hook_kind : CapabilityRef → InstallError

-- `==` on HookKind.
unfoldable pub kind_eq : HookKind → HookKind → Bool
kind_eq observer observer = true
kind_eq validator validator = true
kind_eq transformer transformer = true
kind_eq (other_kind s) (other_kind t) = same (codes s) (codes t)
kind_eq _ _ = false

unfoldable pub offered_kind : List (CapabilityRef × HookKind) → CapabilityRef → Option HookKind
unfolding same key
offered_kind [] ref = none
offered_kind (point ∷ points) ref =
    if same (key point.0) (key ref) then some point.1 else offered_kind points ref

abbrev differs : HookKind → Option HookKind → Bool
differs kind none = false
differs kind (some offered) = not (kind_eq offered kind)

module _ {S : Type 0} where
  abbrev mismatched : HookGrant → Option (S → List (CapabilityRef × HookKind)) → S → Bool
  mismatched grant none s = false
  mismatched grant (some points) s = differs grant.kind (offered_kind (points s) grant.ref)

  abbrev then_on :
      (Text → InstallError)
      → Option Text × S
      → (S → Option InstallError × S)
      → Option InstallError × S
  then_on failure (none, s) next = next s
  then_on failure (some text, s) next = (some (failure text), s)

  unfoldable pub subscribe_all : Registrar S → Text → List HookGrant → S → Option InstallError × S
  unfolding offered_kind kind_eq
  subscribe_all registrar id [] s = (none, s)
  subscribe_all registrar id (grant ∷ grants) s =
      if mismatched grant registrar.points s
      then (some (other_hook_kind grant.ref), s)
      else then_on (not_subscribed grant.ref) (registrar.subscribe grant id s)
          (λ after. subscribe_all registrar id grants after)

  abbrev hooks_of : Registrar S → ApprovedManifest → S → Option InstallError × S
  hooks_of registrar m s =
      if is_empty m.subscribes_hooks
      then (none, s)
      else if not registrar.supports_hooks
      then (some no_hook_support, s)
      else subscribe_all registrar m.id m.subscribes_hooks s

  unfoldable pub register_all :
      Registrar S → List CapabilityRef → S → (S → Option InstallError × S) → Option InstallError × S
  register_all registrar [] s next = next s
  register_all registrar (ref ∷ refs) s next =
      then_on (not_registered ref) (registrar.register_capability ref s)
        (λ after. register_all registrar refs after next)

  unfoldable pub install : Registrar S → ApprovedManifest → S → Option InstallError × S
  unfolding register_all subscribe_all
  install registrar m s = register_all registrar m.provides s (λ after. hooks_of registrar m after)

-- A value that crosses into a guest: nil, a payload encoded already, or another Go value.
pub data Input (V : Type 0) : Type 0 where
  nothing : Input V
  raw : Text → Input V
  plain : V → Input V

-- encoding/json and AssertPortable; the envelopes of codec.go and module.go as JSON.
pub record Json (V : Type 0) : Type 0 where
  pub valid : Text → Bool
  pub assert_portable : V → Option Text
  pub marshal : V → Reply Text
  pub marshal_envelope : Text → Text → Text → Reply Text
  pub marshal_hook_envelope : Text → Text → Text → Text → Reply Text

abbrev bind_reply : Reply Text → (Text → Reply Text) → Reply Text
bind_reply (failed text) f = failed text
bind_reply (done bytes) f = f bytes

module _ {V : Type 0} where
  abbrev portable : Json V → V → Option Text → Reply Text
  portable json v (some text) = failed text
  portable json v none = json.marshal v

  -- The payload of an envelope; nil is encoded as null.
  unfoldable pub encode_payload : Json V → Input V → Reply Text
  encode_payload json nothing = done (codes "null")
  encode_payload json (raw bytes) =
      if json.valid bytes then done bytes else failed (codes "not valid JSON")
  encode_payload json (plain v) = portable json v (json.assert_portable v)

  -- JSONCodec
  unfoldable pub json_codec : {C E : Type 0} → Json V → Codec C E (Input V) Text
  unfolding encode_payload key
  json_codec json = record {
    encode_request = λ context ref tenant request.
        bind_reply (encode_payload json request)
          (λ payload. json.marshal_envelope (key ref) tenant payload);
    decode_response = λ ref payload. done payload;
  }

-- What a hook handler returns: nothing, a rejection with its reason, or a new value.
pub data HookResult : Type 0 where
  nothing : HookResult
  rejection : Text → HookResult
  changed : Text → HookResult

abbrev kind_text : HookKind → Text
kind_text observer = codes "observer"
kind_text validator = codes "validator"
kind_text transformer = codes "transformer"
kind_text (other_kind s) = codes s

-- What the guest's answer means for a hook of a kind.
unfoldable pub hook_answer : HookKind → ℕ × Text → Result HookResult
unfolding same
hook_answer observer (status, body) = ok nothing
hook_answer validator (status, body) =
    if status == status_ok then ok nothing else ok (rejection body)
hook_answer transformer (status, body) =
    if status == status_error
    then err (encoding body)
    else if is_empty body || same body (codes "null")
    then ok nothing
    else ok (changed body)
hook_answer (other_kind s) (status, body) = err (encoding (codes "unknown hook kind"))

abbrev answered : HookKind → Option (ℕ × Text) → Result HookResult
answered kind none = err guest_failed
answered kind (some answer) = hook_answer kind answer

module _ {W : Type 0} where
  abbrev replied : HookKind → Result Text × World W → Result HookResult × World W
  replied kind (err e, w) = (err e, w)
  replied kind (ok bytes, w) = (answered kind (status_of bytes), w)

module _ {C E W G I : Type 0} where
  abbrev delivered :
      Runtime C E W G I
      → Plugin C E G
      → HookKind
      → Context C E
      → World W
      → Reply Text
      → Result HookResult × World W
  delivered runtime plugin kind context w (failed text) = (err (encoding text), w)
  delivered runtime plugin kind context w (done encoded) =
      replied kind (invoke runtime plugin context encoded w)

module _ {C E W G I V : Type 0} where
  unfoldable pub hook_handler :
      Runtime C E W G I
      → Json V
      → Plugin C E G
      → HookGrant
      → Context C E
      → Input V
      → World W
      → Result HookResult × World W
  unfolding encode_payload hook_answer status_of invoke key
  hook_handler runtime json plugin grant context value w =
      if is_empty context.tenant
      then (err no_tenant, w)
      else delivered runtime plugin grant.kind context w (
          bind_reply (encode_payload json value) (λ payload.
            json.marshal_hook_envelope (key grant.ref) (kind_text grant.kind) context.tenant
              payload))
