-- ===== src/Registry/Register.antt =====
-- RegisterModule, and the Registrar that a module's Install is given.
use sannad.Prelude.{
  String, Bool, true, false, Option, none, some, List, [], ◌∷◌, ◌++◌, ◌&&◌, ◌||◌, not, str_eq,
  if◌then◌else◌,
}
use sannad.Prelude.Maps.{Assoc, lookup, insert, delete}
use sannad.Hooks.{Ref, key, HookPoint, Subscription}
use sannad.Hooks
use sannad.Hooks.Registry as HookRegistry
use sannad.Hooks.Registry.{offer, subscribe}
use sannad.Registry.{
  Descriptor, valid_storage, Error, duplicate_module, duplicate_capability, invalid_descriptor,
  hook, Install, finish, register, offer_hook, Module, Registry,
}

-- `_, ok := provides[ref.Key()]`
abbrev pub has_key : String → List Ref → Bool
has_key k [] = false
has_key k (ref ∷ refs) = str_eq (key ref) k || has_key k refs

-- Everything exposed is provided.
abbrev pub covers : List Ref → List Ref → Bool
covers provides [] = true
covers provides (ref ∷ refs) = has_key (key ref) provides && covers provides refs

abbrev hook_error : Option Hooks.Error → Option Error
hook_error none = none
hook_error (some e) = some (hook e)

abbrev pub is_some {ℓ} : {A : Type ℓ} → Option A → Bool
is_some none = false
is_some (some _) = true

-- delete(m, ref.Key()) for each ref
unfoldable pub delete_all : {A : Type 0} → List Ref → Assoc A → Assoc A
unfolding delete
delete_all [] m = m
delete_all (ref ∷ refs) m = delete_all refs (delete (key ref) m)

unfoldable pub expose_all : List Ref → Assoc Ref → Assoc Ref
unfolding insert
expose_all [] m = m
expose_all (ref ∷ refs) m = expose_all refs (insert (key ref) ref m)

module _ {H W V : Type 0} where
  abbrev put_handler : Option H → String → H → Registry H W V → Option Error × Registry H W V
  put_handler (some _) k h r = (some duplicate_capability, r)
  put_handler none k h r = (none, record r { handlers = insert k h r.handlers })

  unfoldable pub register_capability : Ref → H → Registry H W V → Option Error × Registry H W V
  unfolding lookup insert
  register_capability ref h r = put_handler (lookup (key ref) r.handlers) (key ref) h r

  unfoldable pub resolve_capability : Ref → Registry H W V → Option H
  unfolding lookup
  resolve_capability ref r = lookup (key ref) r.handlers

  abbrev with_hooks :
      Option Hooks.Error × HookRegistry.Registry W V
      → Registry H W V
      → Option Error × Registry H W V
  with_hooks (e, hooks) r = (hook_error e, record r { hooks = hooks })

  -- OfferHook and Subscribe take the module's identity from the one being installed.
  unfoldable pub offer_installing : HookPoint → Registry H W V → Option Error × Registry H W V
  unfolding offer
  offer_installing point r =
      if str_eq r.installing ""
      then (some (hook Hooks.Error.invalid_hook_point), r)
      else with_hooks (offer r.installing point r.hooks) r

  unfoldable pub subscribe_installing :
      Subscription W V → Registry H W V → Option Error × Registry H W V
  unfolding subscribe
  subscribe_installing sub r =
      if str_eq r.installing ""
      then (some (hook Hooks.Error.invalid_hook_point), r)
      else with_hooks (subscribe (record sub { module_id = r.installing }) r.hooks) r

  unfoldable pub run_install : Install H W V → Registry H W V → Option Error × Registry H W V
  unfolding register_capability offer_installing subscribe_installing
  run_install (finish e) r = (e, r)
  run_install (register ref h next) r =
      let a = register_capability ref h r in run_install (next a.0) a.1
  run_install (offer_hook point next) r =
      let a = offer_installing point r in run_install (next a.0) a.1
  run_install (Install.subscribe sub next) r =
      let a = subscribe_installing sub r in run_install (next a.0) a.1

  -- The hook points of the descriptor, offered until one is refused, and then Install.
  unfoldable pub offer_all :
      String → List HookPoint → Install H W V → Registry H W V → Option Error × Registry H W V
  unfolding run_install
  offer_all id [] install r = run_install install r
  offer_all id (point ∷ points) install r =
      let a = offer id point r.hooks in
      elim a.0 [
        | some e ↦ (some (hook e), record r { hooks = a.1 })
        | none ↦ offer_all id points install (record r { hooks = a.1 })
      ]

  abbrev pub entered : Module H W V → Registry H W V → Registry H W V
  entered item r = record r {
    modules = insert item.descriptor.id item r.modules;
    installing = item.descriptor.id;
    exposed = expose_all item.descriptor.exposed r.exposed;
  }

  abbrev pub conclude : Descriptor → Option Error × Registry H W V → Option Error × Registry H W V
  conclude d (none, r) =
      (none, record r { installing = ""; registration_order = r.registration_order ++ d.id ∷ [] })
  conclude d (some e, r) = (
    some e,
    record r {
      installing = "";
      modules = delete d.id r.modules;
      handlers = delete_all d.provides r.handlers;
      exposed = delete_all d.exposed r.exposed;
    },
  )

  unfoldable pub register_module : Module H W V → Registry H W V → Option Error × Registry H W V
  unfolding lookup insert delete delete_all expose_all offer_all offer
  register_module item r =
      if not (valid_storage item.descriptor.storage)
      then (some invalid_descriptor, r)
      else if not (covers item.descriptor.provides item.descriptor.exposed)
      then (some invalid_descriptor, r)
      else if is_some (lookup item.descriptor.id r.modules)
      then (some duplicate_module, r)
      else conclude item.descriptor
          (offer_all item.descriptor.id item.descriptor.offers item.install (entered item r))
