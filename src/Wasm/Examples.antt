-- ===== src/Wasm/Examples.antt =====
-- A host with one capability and one publisher, guests that use them, and the theorems at them.
use sannad.Prelude.{
  ℕ, zero, suc, ◌<◌, ◌↔◌, ◌+◌, ◌*◌, ◌==◌, true, none, some, List, [], ◌∷◌, ◌≡◌, refl, ◌≤◌, ◌⊎◌,
  length, arith, if◌then◌else◌,
}
use sannad.Prelude.Int.{codes}
use sannad.Prelude.Texts.{Text}
use sannad.Wasm.Abi.{word, pack, pack_result, pack_result-pack}
use sannad.Wasm.CallState.{CallState, WellFormed, find, store, get, store-get}
use sannad.Wasm.Keys.{CapabilityRef, key}
use sannad.Wasm.Context.{Limits, Deps, new_v2_deps, Context, World, done, failed, raw_payload, Host}
use sannad.Wasm.HostCalls.{granted, capability_call}
use sannad.Wasm.Publish.{event_publish}
use sannad.Wasm.TenantEvents.{Published, event_publish-Published}
use sannad.Wasm.Chain as Chain
use sannad.Wasm.Chain.{admit, admit_all, Distinct, admit_all-bounded}
use sannad.Wasm.Host.{finished, ok, Runtime, Plugin, enter, invoke}
use sannad.Wasm.ModuleId.{Plain, migration_table_for, migration_table_for-Plain}
use sannad.Wasm.Manifest.{ApprovedManifest, repeated, validate_manifest}
use sannad.Wasm.Approval.{Approvable, validate_manifest-Approvable}
use sannad.Wasm.Entry.{ActsUnder, enter-capability_call, invoke-length}

abbrev zeros : ℕ → Text
zeros zero = []
zeros (suc n) = 0 ∷ zeros n

length-zeros : (n : ℕ) → length (zeros n) ≡ n
length-zeros zero = refl
length-zeros (suc n) = omega (arith, length-zeros n)

zeros-length : (n : ℕ) (bytes : Text) → some (zeros n) ≡ some bytes → length bytes ≡ n
zeros-length n bytes h =
    let same_bytes : zeros n ≡ bytes = cc h in rw (← same_bytes) (length-zeros n)

pack_result-pack_example :
    (pack_result (pack 70000 12) ≡ (70000, 12))
    × (pack 70000 12 < word * word)
    × (pack (pack_result 300647710732).0 (pack_result 300647710732).1 ≡ 300647710732)
pack_result-pack_example =
    pack_result-pack 70000 12 300647710732 (omega arith) (omega arith) (omega arith)

abbrev limit_of_results : ℕ
limit_of_results = 32

abbrev one_open : CallState
one_open = record { results = (1, codes "a") ∷ []; next_handle = 1; last_error = [] }

one_open-WellFormed : WellFormed one_open
unfolding find
one_open-WellFormed = (omega arith, (omega arith, omega arith, refl, tt))

abbrev lookup_ref : CapabilityRef
lookup_ref = record { name = codes "crm.lookup"; version = codes "v1" }

-- The memory of a guest is one request; the request of an event is the one for a capability.
abbrev host : Host ℕ ℕ (List Text) Text ℕ
host = record {
  read = λ memory ptr n. some memory;
  write = λ memory ptr bytes. some bytes;
  parse_call = λ raw. done (raw, codes "{}");
  parse_event = λ raw. done (raw, codes "{}");
  marshal = λ v. failed (codes "no");
  call = λ caller context ref payload w.
      (done (raw_payload (codes "found")), record w { outside = key ref ∷ w.outside });
  publish = λ events context topic payload w. (done tt, record w { outside = topic ∷ w.outside });
}

abbrev no_limits : Limits
no_limits = record {
  max_outbound_request_bytes = 0;
  max_result_bytes = 0;
  max_result_handles = 0;
  max_event_payload_bytes = 0;
  max_call_depth = 0;
}

abbrev granted_deps : Deps ℕ ℕ
granted_deps = new_v2_deps (codes "crm") (record {
  caller = some 1;
  events = some 2;
  consumes = lookup_ref ∷ [];
  publishes_events = codes "contact.created" ∷ [];
  limits = no_limits;
})

abbrev idle : World (List Text)
idle = record { states = []; outside = [] }

abbrev from_kernel : Context ℕ ℕ
from_kernel = record { deps = none; call_state = none; call_chain = []; tenant = codes "acme" }

abbrev in_crm : Context ℕ ℕ
in_crm = (enter (some granted_deps) from_kernel idle).0

abbrev crm_begun : World (List Text)
crm_begun = (enter (some granted_deps) from_kernel idle).1

granted-capability_call :
    let r = capability_call host in_crm (some (codes "crm.lookup@v1")) 0 13 crm_begun in
    (r.0 ≡ pack 0 1) × (r.1.outside ≡ codes "crm.lookup@v1" ∷ [])
unfolding capability_call enter new_v2_deps pack key
granted-capability_call = (refl, refl)

other-capability_call :
    let r = capability_call host in_crm (some (codes "crm.delete@v1")) 0 13 crm_begun in
    (r.0 ≡ pack 1 0) × (r.1.outside ≡ [])
unfolding capability_call enter new_v2_deps pack key
other-capability_call = (refl, refl)

-- A plugin without grants that is entered inside the invocation of one with grants.
ungranted-capability_call :
    let (inner, begun) = enter none in_crm crm_begun in
    let r = capability_call host inner (some (codes "crm.lookup@v1")) 0 13 begun in
    (r.0 ≡ pack 0 1) × (r.1.outside ≡ codes "crm.lookup@v1" ∷ [])
unfolding capability_call enter new_v2_deps pack key
ungranted-capability_call = (refl, refl)

granted-event_publish :
    let r = event_publish host in_crm (some (codes "contact.created")) 0 15 crm_begun in
    r.1.outside ≡ codes "sannad.acme.contact.created" ∷ []
unfolding event_publish enter new_v2_deps key
granted-event_publish = refl

store-get_example :
    let r = store (codes "b") 32 one_open in
    ((limit_of_results ≤ length one_open.results) × (r ≡ (none, one_open)))
    ⊎ ((handle : ℕ) × (r.0 ≡ some handle)
        × (0 < handle)
        × (get handle one_open ≡ none)
        × ((other : ℕ)
            → get other r.1 ≡ (if handle == other then some (codes "b") else get other one_open))
        × (length r.1.results ≤ 32)
        × WellFormed r.1)
store-get_example =
    store-get (codes "b") 32 one_open one_open-WellFormed (omega arith) (omega arith)

event_publish-Published_example :
    Published host in_crm crm_begun
      (event_publish host in_crm (some (codes "contact.created")) 0 15 crm_begun).1
event_publish-Published_example =
    event_publish-Published host in_crm (some (codes "contact.created")) 0 15 crm_begun

enter-capability_call_example :
    let (inner, begun) = enter none in_crm crm_begun in
    let after = (capability_call host inner (some (codes "crm.lookup@v1")) 0 13 begun).1 in
    (after.outside ≡ begun.outside)
    ⊎ ((deps : Deps ℕ ℕ) × (caller : ℕ) × (ref : CapabilityRef) × (payload : Text) × ActsUnder host
          none in_crm deps
        × (deps.caller ≡ some caller)
        × (granted (key ref) deps.consume ≡ true)
        × (after.outside ≡ (host.call caller inner ref payload begun).1.outside))
enter-capability_call_example =
    enter-capability_call host none in_crm (some (codes "crm.lookup@v1")) 0 13 crm_begun

abbrev nested : List (ℕ × Text)
nested = (8, codes "a@v1") ∷ (2, codes "b@v1") ∷ []

abbrev nested_chain : List Text
nested_chain = codes "a@v1" ∷ codes "b@v1" ∷ []

nested-admit_all : admit_all nested [] ≡ Chain.admitted nested_chain
unfolding admit_all admit
nested-admit_all = refl

repeated-admit_all :
    admit_all ((8, codes "a@v1") ∷ (8, codes "b@v1") ∷ (8, codes "a@v1") ∷ []) [] ≡ Chain.call_cycle
unfolding admit_all admit
repeated-admit_all = refl

admit_all-bounded_example :
    Distinct nested_chain × (length nested_chain ≡ length nested) × (length nested ≤ 8)
admit_all-bounded_example =
    admit_all-bounded 8 nested nested_chain (omega arith) (omega arith, (omega arith, tt))
      nested-admit_all

-- A guest that answers at once: its response is the bytes at its pointer.
abbrev runtime : Runtime ℕ ℕ (List Text) Text Text
runtime = record {
  instantiate = λ guest context w. (finished guest, w);
  has_memory = λ instance. true;
  alloc = λ instance context n w. (finished (64 ∷ [], instance), w);
  handle = λ instance context ptr n w. (finished (pack 64 2 ∷ [], instance), w);
  write = λ instance ptr bytes. some instance;
  read = λ instance ptr n. some (zeros n);
}

abbrev plugin : Plugin ℕ ℕ Text
plugin = record {
  config = record { max_memory_pages = 1; timeout = 1; max_response_bytes = 2 };
  guest = codes "guest";
  v2 = some granted_deps;
}

answered-invoke : (invoke runtime plugin from_kernel (codes "{}") idle).0 ≡ ok (zeros 2)
unfolding invoke pack
answered-invoke = refl

invoke-length_example : length (zeros 2) ≤ plugin.config.max_response_bytes
invoke-length_example =
    invoke-length runtime (λ i ptr n bytes h. zeros-length n bytes h) plugin from_kernel
      (codes "{}") idle (zeros 2) answered-invoke

acme_crm-migration_table_for :
    migration_table_for (codes "com.acme.crm") ≡ some (codes "schema_version_com_acme_crm")
unfolding migration_table_for
acme_crm-migration_table_for = refl

abbrev manifest : ApprovedManifest
manifest = record {
  id = codes "com.acme.crm";
  abi_version = 2;
  provides = lookup_ref ∷ [];
  exposed = lookup_ref ∷ [];
  consumes = lookup_ref ∷ [];
  publishes_events = codes "contact.created" ∷ [];
  subscribes_hooks = [];
}

migration_table_for-Plain_example :
    Plain (codes "schema_version_com_acme_crm")
    × (length (codes "schema_version_com_acme_crm") ≤ 63)
    × (length (codes "schema_version_com_acme_crm") ≡ 15 + length (codes "com.acme.crm"))
    × (migration_table_for (codes "com.acme.crm") ≡ migration_table_for (codes "com.acme-crm"))
migration_table_for-Plain_example =
    migration_table_for-Plain (codes "com.acme.crm") (codes "schema_version_com_acme_crm")
      (codes "com.acme") (codes "crm") acme_crm-migration_table_for

validate_manifest-Approvable_example : (validate_manifest manifest ≡ none) ↔ Approvable manifest
validate_manifest-Approvable_example = validate_manifest-Approvable manifest

approved-validate_manifest : validate_manifest manifest ≡ none
unfolding validate_manifest key
approved-validate_manifest = refl

repeated-validate_manifest :
    validate_manifest (record manifest { consumes = lookup_ref ∷ lookup_ref ∷ [] }) ≡ some repeated
unfolding validate_manifest key
repeated-validate_manifest = refl
