-- ===== src/Registry.antt =====
-- Modules and the kernel's registry (pkg/modulekit/module.go, internal/kernel/registry/registry.go).
pub mod Register
pub mod Lifecycle
pub mod Shutdown
pub mod Rollback
mod Examples
use sannad.Prelude.{String, Bool, true, false, Option, List, []}
use sannad.Prelude.Maps.{Assoc}
use sannad.Hooks
use sannad.Hooks.{Ref, HookPoint, Subscription}
use sannad.Hooks.Registry as HookRegistry

pub data StorageMode : Type 0 where
  kernel own nothing : StorageMode
  undeclared : String → StorageMode

abbrev pub valid_storage : StorageMode → Bool
valid_storage (undeclared _) = false
valid_storage _ = true

pub record Descriptor : Type 0 where
  pub id : String
  pub provides : List Ref
  pub consumes : List Ref
  pub offers : List HookPoint
  pub storage : StorageMode
  pub exposed : List Ref

pub data Error : Type 0 where
  duplicate_module duplicate_capability invalid_descriptor : Error
  hook : Hooks.Error → Error
  module_error : String → Error
  start_failed : String → String → Error
  -- the errors that `errors.Join` joins, by module and by capability or text
  unmet : List (String × String) → Error
  stops_failed : List (String × String) → Error

-- What a module's Install does with the Registrar: calls, each with its answer, and a result.
-- `H` stands for the handlers of capabilities.
pub data Install (H W V : Type 0) : Type 0 where
  finish : Option Error → Install H W V
  register : Ref → H → (Option Error → Install H W V) → Install H W V
  offer_hook : HookPoint → (Option Error → Install H W V) → Install H W V
  subscribe : Subscription W V → (Option Error → Install H W V) → Install H W V

-- Start and Stop act on a world that the modules share, and may return an error's text.
pub record Module (H W V : Type 0) : Type 0 where
  pub descriptor : Descriptor
  pub install : Install H W V
  pub start : W → Option String × W
  pub stop : W → Option String × W

pub record Registry (H W V : Type 0) : Type 0 where
  pub modules : Assoc (Module H W V)
  pub handlers : Assoc H
  pub registration_order : List String
  pub hooks : HookRegistry.Registry W V
  pub installing : String
  pub exposed : Assoc Ref

abbrev pub new : {H W V : Type 0} → Registry H W V
new = record {
  modules = [];
  handlers = [];
  registration_order = [];
  hooks = HookRegistry.new;
  installing = "";
  exposed = [];
}
