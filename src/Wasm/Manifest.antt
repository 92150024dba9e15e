-- ===== src/Wasm/Manifest.antt =====
-- The manifest that an operator approves (internal/kernel/wasmhost/module.go).
use sannad.Prelude.{
  ℕ, Bool, true, false, Option, none, some, List, [], ◌∷◌, ◌&&◌, ◌||◌, ◌==◌, ltb, not, map,
  if◌then◌else◌,
}
use sannad.Prelude.Int.{ℤ}
use sannad.Prelude.Texts.{Text, is_empty}
use sannad.Hooks.{HookKind, valid_kind}
use sannad.Wasm.Keys.{CapabilityRef, key, at_sign}
use sannad.Wasm.Chain.{contains}
use sannad.Wasm.ModuleId.{migration_table_for}

-- A hook reference has the shape and the key of a capability's.
pub record HookGrant : Type 0 where
  pub ref : CapabilityRef
  pub kind : HookKind
  pub priority : ℤ

pub record ApprovedManifest : Type 0 where
  pub id : Text
  pub abi_version : ℕ
  pub provides : List CapabilityRef
  pub exposed : List CapabilityRef
  pub consumes : List CapabilityRef
  pub publishes_events : List Text
  pub subscribes_hooks : List HookGrant

pub data Refusal : Type 0 where
  unsupported_version v1_grants invalid_id no_capabilities : Refusal
  invalid_reference invalid_separator repeated not_provided : Refusal
  empty_event wildcard_event unnamed_hook unknown_kind : Refusal

abbrev pub current_abi_version : ℕ
current_abi_version = 2

abbrev pub min_supported_abi_version : ℕ
min_supported_abi_version = 1

unfoldable pub contains_at : Text → Bool
contains_at [] = false
contains_at (c ∷ cs) = c == at_sign || contains_at cs

-- strings.ContainsAny(name, "*>")
unfoldable pub has_wildcard : Text → Bool
has_wildcard [] = false
has_wildcard (c ∷ cs) = (c == 42 || c == 62) || has_wildcard cs

-- None is nil.
unfoldable pub validate_capability_ref : CapabilityRef → Option Refusal
unfolding contains_at
validate_capability_ref ref =
    if is_empty ref.name || is_empty ref.version
    then some invalid_reference
    else if contains_at ref.name || contains_at ref.version
    then some invalid_separator
    else none

abbrev pub or_else : Option Refusal → Option Refusal → Option Refusal
or_else none later = later
or_else (some e) later = some e

-- A loop over `xs` that returns at the first one that `check` refuses or whose key was `seen`.
unfoldable pub each_once :
    {A : Type 0} → (A → Option Refusal) → (A → Text) → List Text → List A → Option Refusal
unfolding contains
each_once check name seen [] = none
each_once check name seen (x ∷ xs) =
    or_else (check x)
      (if contains (name x) seen then some repeated else each_once check name (name x ∷ seen) xs)

unfoldable pub check_exposed : List CapabilityRef → CapabilityRef → Option Refusal
unfolding validate_capability_ref contains key
check_exposed provides ref =
    or_else (validate_capability_ref ref)
      (if contains (key ref) (map (λ r. key r) provides) then none else some not_provided)

unfoldable pub check_event : Text → Option Refusal
unfolding has_wildcard
check_event name =
    if is_empty name
    then some empty_event
    else if has_wildcard name
    then some wildcard_event
    else none

unfoldable pub check_hook : HookGrant → Option Refusal
check_hook grant =
    if is_empty grant.ref.name || is_empty grant.ref.version
    then some unnamed_hook
    else if not (valid_kind grant.kind)
    then some unknown_kind
    else none

abbrev pub is_derivable : Option Text → Bool
is_derivable none = false
is_derivable (some name) = true

-- The loops over the declarations, in their order.
unfoldable pub check_declarations : ApprovedManifest → Option Refusal
unfolding each_once validate_capability_ref check_exposed check_event check_hook key
check_declarations m = or_else (each_once validate_capability_ref (λ ref. key ref) [] m.provides) (
    or_else (each_once (check_exposed m.provides) (λ ref. key ref) [] m.exposed) (
      or_else (each_once validate_capability_ref (λ ref. key ref) [] m.consumes) (
        or_else (each_once check_event (λ name. name) [] m.publishes_events)
          (each_once check_hook (λ grant. key grant.ref) [] m.subscribes_hooks))))

-- Why the manifest is refused; none where it is approved as it is.
unfoldable pub validate_manifest : ApprovedManifest → Option Refusal
unfolding check_declarations migration_table_for
validate_manifest m =
    if ltb m.abi_version min_supported_abi_version || ltb current_abi_version m.abi_version
    then some unsupported_version
    else if m.abi_version == 1
        && (not (is_empty m.consumes)
            || not (is_empty m.publishes_events)
            || not (is_empty m.subscribes_hooks))
    then some v1_grants
    else if not (is_derivable (migration_table_for m.id))
    then some invalid_id
    else if is_empty m.provides
    then some no_capabilities
    else check_declarations m
