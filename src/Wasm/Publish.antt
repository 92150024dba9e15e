-- ===== src/Wasm/Publish.antt =====
-- event_publish (internal/kernel/wasmhost/hostcalls.go): 0 where the event was published, else 1.
use sannad.Prelude.{ℕ, Option, none, some, ◌++◌, ltb, not, if◌then◌else◌}
use sannad.Prelude.Int.{codes}
use sannad.Prelude.Texts.{Text}
use sannad.Events.Subject as Subject
use sannad.Events.Subject.{subject}
use sannad.Wasm.CallState.{set_err}
use sannad.Wasm.Context.{Deps, Context, World, Reply, done, failed, Host, state_at, write_state}
use sannad.Wasm.HostCalls.{granted, noted, denied_text}

module _ {W : Type 0} where
  abbrev refuse : ℕ → Text → World W → ℕ × World W
  refuse p message w = (1, noted p message w)

  abbrev pub published : ℕ → Reply (Unit {0}) × World W → ℕ × World W
  published p (failed text, w) = refuse p (codes "event_publish: " ++ text) w
  published p (done unit, w) = (0, w)

module _ {C E W M V : Type 0} where
  abbrev pub on_subject :
      Host C E W M V → Context C E → ℕ → E → Text → Subject.Result → World W → ℕ × World W
  on_subject host context p events payload (Subject.err e) w =
      refuse p (codes "event_publish: invalid subject") w
  on_subject host context p events payload (Subject.ok subject) w =
      published p (host.publish events context subject payload w)

  abbrev pub approved :
      Host C E W M V → Deps C E → Context C E → ℕ → Option E → Text → Text → World W → ℕ × World W
  approved host deps context p none event payload w =
      refuse p (codes "event_publish: this module has no approved publisher") w
  approved host deps context p (some events) event payload w =
      if not (granted event deps.publish)
      then refuse p (denied_text event) w
      else on_subject host context p events payload (subject context.tenant event) w

  abbrev pub parsed :
      Host C E W M V → Deps C E → Context C E → ℕ → Reply (Text × Text) → World W → ℕ × World W
  parsed host deps context p (failed text) w = refuse p (codes "event_publish: " ++ text) w
  parsed host deps context p (done (event, payload)) w =
      approved host deps context p deps.events event payload w

  abbrev pub read_request :
      Host C E W M V → Deps C E → Context C E → ℕ → Option Text → World W → ℕ × World W
  read_request host deps context p none w =
      refuse p (codes "event_publish: request pointer out of range") w
  read_request host deps context p (some raw) w =
      parsed host deps context p (host.parse_event raw) w

  abbrev pub in_memory :
      Host C E W M V → Deps C E → Context C E → ℕ → Option M → ℕ → ℕ → World W → ℕ × World W
  in_memory host deps context p none req_ptr req_len w =
      refuse p (codes "event_publish: guest has no memory") w
  in_memory host deps context p (some memory) req_ptr req_len w =
      read_request host deps context p (host.read memory req_ptr req_len) w

  abbrev pub publish_with :
      Host C E W M V
      → Context C E
      → Option (Deps C E)
      → Option ℕ
      → Option M
      → ℕ
      → ℕ
      → World W
      → ℕ × World W
  publish_with host context none state memory req_ptr req_len w = (1, w)
  publish_with host context (some deps) none memory req_ptr req_len w = (1, w)
  publish_with host context (some deps) (some p) memory req_ptr req_len w =
      if ltb deps.limits.max_event_payload_bytes req_len
      then refuse p (codes "event_publish: payload exceeds the event size limit") w
      else in_memory host deps context p memory req_ptr req_len w

  unfoldable pub event_publish :
      Host C E W M V → Context C E → Option M → ℕ → ℕ → World W → ℕ × World W
  unfolding state_at write_state set_err granted subject
  event_publish host context memory req_ptr req_len w =
      publish_with host context context.deps context.call_state memory req_ptr req_len w
