-- ===== src/Wasm/HostCalls.antt =====
-- The host calls of a guest (internal/kernel/wasmhost/hostcalls.go). A diagnostic is the text that
-- the source sets; the text of an error of the outside is the one in its reply.
use sannad.Prelude.{
  ℕ, Bool, true, false, Option, none, some, List, [], ◌∷◌, ◌++◌, ◌%◌, ◌||◌, ltb, length, not,
  if◌then◌else◌,
}
use sannad.Prelude.Int.{codes}
use sannad.Prelude.Texts.{Text, same}
use sannad.Wasm.Abi.{word, pack}
use sannad.Wasm.CallState.{CallState, store, get, drop_result, set_err}
use sannad.Wasm.Keys.{CapabilityRef, split_capability_key}
use sannad.Wasm.Context.{
  Deps, Context, World, Reply, done, failed, Value, raw_payload, value, Host, state_at, write_state,
}

abbrev pub v2_status_ok : ℕ
v2_status_ok = 0

abbrev pub v2_status_denied : ℕ
v2_status_denied = 1

abbrev pub v2_status_invalid : ℕ
v2_status_invalid = 2

abbrev pub v2_status_failed : ℕ
v2_status_failed = 3

abbrev pub v2_status_internal : ℕ
v2_status_internal = 4

abbrev pub v2_sentinel : ℕ
v2_sentinel = 4294967295

-- set[name]
unfoldable pub granted : Text → List Text → Bool
unfolding same
granted name [] = false
granted name (other ∷ names) = same other name || granted name names

abbrev pub denied_text : Text → Text
denied_text name = codes "wasmhost: host call not approved for this module: " ++ name

abbrev length_of : Option Text → ℕ
length_of none = v2_sentinel
length_of (some bytes) = length bytes % word

module _ {W : Type 0} where
  -- What state.setErr(message) leaves.
  abbrev pub noted : ℕ → Text → World W → World W
  noted p message w = record w {
    states = write_state p (set_err message (state_at p w.states)) w.states;
  }

  abbrev refuse : ℕ → ℕ → Text → World W → ℕ × World W
  refuse status p message w = (pack status 0, noted p message w)

  abbrev pub handed : ℕ → World W → Option ℕ × CallState → ℕ × World W
  handed p w (none, s) =
      refuse v2_status_internal p
        (codes "capability_call: too many open result handles; drop one before calling again") w
  handed p w (some handle, s) =
      (pack v2_status_ok handle, record w { states = write_state p s w.states })

  abbrev len_in : ℕ → World W → Option ℕ → ℕ
  len_in handle w none = v2_sentinel
  len_in handle w (some p) = length_of (get handle (state_at p w.states))

  abbrev dropped : ℕ → World W → Bool × CallState → ℕ × World W
  dropped p w (true, s) = (0, record w { states = write_state p s w.states })
  dropped p w (false, s) = (1, w)

  abbrev drop_in : ℕ → World W → Option ℕ → ℕ × World W
  drop_in handle w none = (1, w)
  drop_in handle w (some p) = dropped p w (drop_result handle (state_at p w.states))

  abbrev error_len_in : World W → Option ℕ → ℕ
  error_len_in w none = 0
  error_len_in w (some p) = length (state_at p w.states).last_error % word

module _ {C E W : Type 0} where
  abbrev pub encoded : Deps C E → ℕ → World W → Reply Text → ℕ × World W
  encoded deps p w (failed text) =
      refuse v2_status_internal p (codes "capability_call: encode response: " ++ text) w
  encoded deps p w (done bytes) =
      if ltb deps.limits.max_result_bytes (length bytes % word)
      then refuse v2_status_invalid p
          (codes "capability_call: response exceeds the result size limit") w
      else handed p w (store bytes deps.limits.max_result_handles (state_at p w.states))

  unfoldable pub result_len : Context C E → ℕ → World W → ℕ
  unfolding state_at get
  result_len context handle w = len_in handle w context.call_state

  unfoldable pub result_drop : Context C E → ℕ → World W → ℕ × World W
  unfolding state_at write_state drop_result
  result_drop context handle w = drop_in handle w context.call_state

  unfoldable pub error_len : Context C E → World W → ℕ
  unfolding state_at
  error_len context w = error_len_in w context.call_state

module _ {M : Type 0} where
  abbrev written : Text → M → Option M → ℕ × Option M
  written bytes memory none = (v2_sentinel, some memory)
  written bytes memory (some after) = (length bytes % word, some after)

module _ {C E W M V : Type 0} where
  unfoldable pub encode_call_result : Host C E W M V → Value V → Reply Text
  encode_call_result host (raw_payload bytes) = done bytes
  encode_call_result host (value v) = host.marshal v

  abbrev pub called : Host C E W M V → Deps C E → ℕ → Reply (Value V) × World W → ℕ × World W
  called host deps p (failed text, w) =
      refuse v2_status_failed p (codes "capability_call: " ++ text) w
  called host deps p (done result, w) = encoded deps p w (encode_call_result host result)

  abbrev pub resolved :
      Host C E W M V
      → Deps C E
      → Context C E
      → ℕ
      → C
      → Text
      → Text
      → Option CapabilityRef
      → World W
      → ℕ × World W
  resolved host deps context p caller capability payload none w =
      refuse v2_status_invalid p
        (codes "capability_call: invalid capability reference " ++ capability) w
  resolved host deps context p caller capability payload (some ref) w =
      called host deps p (host.call caller context ref payload w)

  abbrev pub approved :
      Host C E W M V → Deps C E → Context C E → ℕ → Option C → Text → Text → World W → ℕ × World W
  approved host deps context p none capability payload w =
      refuse v2_status_denied p (codes "capability_call: this module has no approved caller") w
  approved host deps context p (some caller) capability payload w =
      if not (granted capability deps.consume)
      then refuse v2_status_denied p (denied_text capability) w
      else resolved host deps context p caller capability payload (split_capability_key capability)
          w

  abbrev pub parsed :
      Host C E W M V → Deps C E → Context C E → ℕ → Reply (Text × Text) → World W → ℕ × World W
  parsed host deps context p (failed text) w =
      refuse v2_status_invalid p (codes "capability_call: " ++ text) w
  parsed host deps context p (done (capability, payload)) w =
      approved host deps context p deps.caller capability payload w

  abbrev pub read_request :
      Host C E W M V → Deps C E → Context C E → ℕ → Option Text → World W → ℕ × World W
  read_request host deps context p none w =
      refuse v2_status_invalid p (codes "capability_call: request pointer out of range") w
  read_request host deps context p (some raw) w = parsed host deps context p (host.parse_call raw) w

  abbrev pub in_memory :
      Host C E W M V → Deps C E → Context C E → ℕ → Option M → ℕ → ℕ → World W → ℕ × World W
  in_memory host deps context p none req_ptr req_len w =
      refuse v2_status_internal p (codes "capability_call: guest has no memory") w
  in_memory host deps context p (some memory) req_ptr req_len w =
      read_request host deps context p (host.read memory req_ptr req_len) w

  abbrev pub call_with :
      Host C E W M V
      → Context C E
      → Option (Deps C E)
      → Option ℕ
      → Option M
      → ℕ
      → ℕ
      → World W
      → ℕ × World W
  call_with host context none state memory req_ptr req_len w = (pack v2_status_internal 0, w)
  call_with host context (some deps) none memory req_ptr req_len w = (pack v2_status_internal 0, w)
  call_with host context (some deps) (some p) memory req_ptr req_len w =
      if ltb deps.limits.max_outbound_request_bytes req_len
      then refuse v2_status_invalid p
          (codes "capability_call: request exceeds the outbound size limit") w
      else in_memory host deps context p memory req_ptr req_len w

  -- `v2CapabilityCall`: the packed status and handle, and the world it leaves.
  unfoldable pub capability_call :
      Host C E W M V → Context C E → Option M → ℕ → ℕ → World W → ℕ × World W
  unfolding state_at write_state set_err pack store granted split_capability_key encode_call_result
  capability_call host context memory req_ptr req_len w =
      call_with host context context.deps context.call_state memory req_ptr req_len w

  abbrev write_out : Host C E W M V → Text → ℕ → Option M → ℕ × Option M
  write_out host bytes out_ptr none = (v2_sentinel, none)
  write_out host bytes out_ptr (some memory) =
      written bytes memory (host.write memory out_ptr bytes)

  -- Copies what fits into the guest's buffer; writes nothing where it does not fit.
  unfoldable pub copy_out : Host C E W M V → Text → ℕ → ℕ → Option M → ℕ × Option M
  copy_out host bytes out_ptr out_cap memory =
      if ltb out_cap (length bytes % word)
      then (length bytes % word, memory)
      else write_out host bytes out_ptr memory

  abbrev read_found : Host C E W M V → Option Text → ℕ → ℕ → Option M → ℕ × Option M
  read_found host none out_ptr out_cap memory = (v2_sentinel, memory)
  read_found host (some bytes) out_ptr out_cap memory = copy_out host bytes out_ptr out_cap memory

  abbrev read_in : Host C E W M V → ℕ → ℕ → ℕ → Option M → World W → Option ℕ → ℕ × Option M
  read_in host handle out_ptr out_cap memory w none = (v2_sentinel, memory)
  read_in host handle out_ptr out_cap memory w (some p) =
      read_found host (get handle (state_at p w.states)) out_ptr out_cap memory

  unfoldable pub result_read :
      Host C E W M V → Context C E → Option M → ℕ → ℕ → ℕ → World W → ℕ × Option M
  unfolding state_at get copy_out
  result_read host context memory handle out_ptr out_cap w =
      read_in host handle out_ptr out_cap memory w context.call_state

  abbrev error_in : Host C E W M V → ℕ → ℕ → Option M → World W → Option ℕ → ℕ × Option M
  error_in host out_ptr out_cap memory w none = (v2_sentinel, memory)
  error_in host out_ptr out_cap memory w (some p) =
      copy_out host (state_at p w.states).last_error out_ptr out_cap memory

  unfoldable pub error_read :
      Host C E W M V → Context C E → Option M → ℕ → ℕ → World W → ℕ × Option M
  unfolding state_at copy_out
  error_read host context memory out_ptr out_cap w =
      error_in host out_ptr out_cap memory w context.call_state
