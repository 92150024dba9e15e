-- ===== src/Wasm/Load.antt =====
-- Loading a guest (Load in internal/kernel/wasmhost/host.go). The runtime that prepares the sandbox
-- and compiles is external; what it gives back on an error is released, which is left out.
use sannad.Prelude.{ℕ, Bool, Option, none, some, List, not, if◌then◌else◌}
use sannad.Prelude.Int.{codes}
use sannad.Prelude.Texts.{Text, is_empty}
use sannad.Wasm.Context.{V2Config, Deps, new_v2_deps}
use sannad.Wasm.Chain.{contains}
use sannad.Wasm.Host.{Config, apply_defaults, Plugin}

pub data LoadError : Type 0 where
  no_module_id no_module_bytes sandbox host_calls compilation : LoadError
  missing_export : Text → LoadError

pub data Loaded (C E G : Type 0) : Type 0 where
  loaded : Plugin C E G → Loaded C E G
  refused : LoadError → Loaded C E G

-- Whether WASI and the host calls can be wired, and the guest that bytes compile to under a memory
-- limit, with the names of the functions that it exports.
pub record Compiler (G : Type 0) : Type 0 where
  pub wasi_ready : Bool
  pub host_ready : Bool
  pub compile : ℕ → Text → Option (G × List Text)

module _ {C E : Type 0} where
  abbrev grants : Text → Option (V2Config C E) → Option (Deps C E)
  grants module_id none = none
  grants module_id (some config) = some (new_v2_deps module_id config)

module _ {C E G : Type 0} where
  abbrev compiled : Text → Config → Option (V2Config C E) → Option (G × List Text) → Loaded C E G
  compiled module_id config v2 none = refused compilation
  compiled module_id config v2 (some (guest, exports)) =
      if not (contains (codes "sannad_alloc") exports)
      then refused (missing_export (codes "sannad_alloc"))
      else if not (contains (codes "sannad_handle") exports)
      then refused (missing_export (codes "sannad_handle"))
      else if not (contains (codes "_initialize") exports)
      then refused (missing_export (codes "_initialize"))
      else loaded (record { config = config; guest = guest; v2 = grants module_id v2 })

  unfoldable pub load : Compiler G → Text → Text → Config → Option (V2Config C E) → Loaded C E G
  unfolding apply_defaults contains new_v2_deps
  load compiler module_id wasm given v2 =
      let config = apply_defaults given in
      if is_empty module_id
      then refused no_module_id
      else if is_empty wasm
      then refused no_module_bytes
      else if not compiler.wasi_ready
      then refused sandbox
      else if not compiler.host_ready
      then refused host_calls
      else compiled module_id config v2 (compiler.compile config.max_memory_pages wasm)
