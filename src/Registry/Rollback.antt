-- ===== src/Registry/Rollback.antt =====
-- What RegisterModule leaves behind, whether it succeeds or fails.
use mathlib.Core.List.{append-nil}
use sannad.Prelude.{
  String, true, Option, none, some, List, [], ◌∷◌, ◌++◌, ◌≡◌, refl, ◌∙◌, arith, Option-cases, inl,
  inr, ◌&&◌, not, eq_iff, str_eq, if◌then◌else◌,
}
use sannad.Prelude.Maps.{Assoc, lookup, delete, lookup-insert, lookup-delete}
use sannad.Hooks.Registry.{offer}
use sannad.Hooks.{Ref, key, HookPoint, Subscription}
use sannad.Registry.{Error, Install, finish, register, offer_hook, Module, Registry, valid_storage}
use sannad.Registry.Register.{
  has_key, covers, delete_all, register_capability, resolve_capability, offer_installing,
  subscribe_installing, run_install, offer_all, entered, conclude, register_module, is_some,
}

lookup-delete_all :
    {A : Type 0} (k : String) (refs : List Ref) (m : Assoc A)
    → lookup k (delete_all refs m) ≡ (if has_key k refs then none else lookup k m)
unfolding delete_all
lookup-delete_all k [] m = refl
lookup-delete_all k (ref ∷ refs) m =
    rw (lookup-delete_all k refs (delete (key ref) m), lookup-delete (key ref) k m) (ground arith)

module _ {H W V : Type 0} where
  -- The Registrar changes neither the module table nor what follows from it.
  pub record Keeps (r r' : Registry H W V) : Type 0 where
    pub modules : r'.modules ≡ r.modules
    pub order : r'.registration_order ≡ r.registration_order
    pub exposed : r'.exposed ≡ r.exposed

  Keeps-trans : (r s t : Registry H W V) → Keeps r s → Keeps s t → Keeps r t
  Keeps-trans r s t h k = record {
    modules = k.modules ∙ h.modules;
    order = k.order ∙ h.order;
    exposed = k.exposed ∙ h.exposed;
  }

  register_capability-Keeps :
      (ref : Ref) (h : H) (r : Registry H W V) → Keeps r (register_capability ref h r).1
  unfolding register_capability
  register_capability-Keeps ref h r = ground arith

  offer_installing-Keeps :
      (point : HookPoint) (r : Registry H W V) → Keeps r (offer_installing point r).1
  unfolding offer_installing
  offer_installing-Keeps point r = ground arith

  subscribe_installing-Keeps :
      (sub : Subscription W V) (r : Registry H W V) → Keeps r (subscribe_installing sub r).1
  unfolding subscribe_installing
  subscribe_installing-Keeps sub r = ground arith

  run_install-Keeps : (i : Install H W V) (r : Registry H W V) → Keeps r (run_install i r).1
  unfolding run_install
  run_install-Keeps (finish e) r = record { modules = refl; order = refl; exposed = refl }
  run_install-Keeps (register ref h next) r =
      let a = register_capability ref h r in
      Keeps-trans r a.1 (run_install (next a.0) a.1).1 (register_capability-Keeps ref h r)
        (run_install-Keeps (next a.0) a.1)
  run_install-Keeps (offer_hook point next) r =
      let a = offer_installing point r in
      Keeps-trans r a.1 (run_install (next a.0) a.1).1 (offer_installing-Keeps point r)
        (run_install-Keeps (next a.0) a.1)
  run_install-Keeps (Install.subscribe sub next) r =
      let a = subscribe_installing sub r in
      Keeps-trans r a.1 (run_install (next a.0) a.1).1 (subscribe_installing-Keeps sub r)
        (run_install-Keeps (next a.0) a.1)

  offer_all-Keeps :
      (id : String) (points : List HookPoint) (i : Install H W V) (r : Registry H W V)
      → Keeps r (offer_all id points i r).1
  unfolding offer_all
  offer_all-Keeps id [] i r = run_install-Keeps i r
  offer_all-Keeps id (point ∷ points) i r = elim (Option-cases (offer id point r.hooks).0) [
    | inl e ↦
        rw (e, offer_all)
          (let r' : Registry H W V = record r { hooks = (offer id point r.hooks).1 } in
            Keeps-trans r r' (offer_all id points i r').1
              (record { modules = refl; order = refl; exposed = refl })
              (offer_all-Keeps id points i r'))
    | inr (x, e) ↦ rw (e, offer_all) (record { modules = refl; order = refl; exposed = refl })
  ]

  abbrev outcome : Module H W V → Registry H W V → Option Error × Registry H W V
  outcome item r = offer_all item.descriptor.id item.descriptor.offers item.install (entered item r)

  register_module-conclude :
      (item : Module H W V) (r : Registry H W V)
      → valid_storage item.descriptor.storage ≡ true
      → covers item.descriptor.provides item.descriptor.exposed ≡ true
      → lookup item.descriptor.id r.modules ≡ none
      → register_module item r ≡ conclude item.descriptor (outcome item r)
  unfolding register_module
  register_module-conclude item r v c new = rw (v, c, new)

  -- Once the descriptor is valid and its identity is new: a registration that succeeds adds the
  -- module and its identity at the end of the order, and one that fails leaves the module table
  -- and the order as they were.
  pub register_module_table :
      (item : Module H W V) (r : Registry H W V)
      → valid_storage item.descriptor.storage ≡ true
      → covers item.descriptor.provides item.descriptor.exposed ≡ true
      → lookup item.descriptor.id r.modules ≡ none
      → (id : String)
      → let (e, r') = register_module item r in
        (lookup id r'.modules ≡ (
          if not (is_some e) && str_eq item.descriptor.id id
          then some item
          else lookup id r.modules))
        × (r'.registration_order
            ≡ r.registration_order ++ (if is_some e then [] else item.descriptor.id ∷ []))
  register_module_table item r v c new id = rw (register_module-conclude item r v c new) (
      settle (outcome item r)
        (offer_all-Keeps item.descriptor.id item.descriptor.offers item.install (entered item r)))
    where
      settle :
          (o : Option Error × Registry H W V)
          → Keeps (entered item r) o.1
          → (lookup id (conclude item.descriptor o).1.modules ≡ (
              if not (is_some (conclude item.descriptor o).0) && str_eq item.descriptor.id id
              then some item
              else lookup id r.modules))
            × ((conclude item.descriptor o).1.registration_order
                ≡ r.registration_order
                  ++ (if is_some (conclude item.descriptor o).0
                      then []
                      else item.descriptor.id ∷ []))
      settle (none, o) k =
          (rw k.modules (lookup-insert item.descriptor.id id item r.modules), rw k.order)
      settle (some e, o) k = (
        rw (k.modules, lookup-delete item.descriptor.id id)
            (rw (lookup-insert item.descriptor.id id item r.modules)
              (ground (arith, eq_iff item.descriptor.id id))),
        rw k.order (rw append-nil),
      )

  -- A registration that fails in its hook points or in Install leaves every capability that its
  -- descriptor provides without a handler, also one that another module had registered before.
  pub register_module_failure_unregisters :
      (item : Module H W V) (r : Registry H W V) (ref : Ref) (e : Error)
      → valid_storage item.descriptor.storage ≡ true
      → covers item.descriptor.provides item.descriptor.exposed ≡ true
      → lookup item.descriptor.id r.modules ≡ none
      → has_key (key ref) item.descriptor.provides ≡ true
      → (register_module item r).0 ≡ some e
      → resolve_capability ref (register_module item r).1 ≡ none
  unfolding resolve_capability
  register_module_failure_unregisters item r ref e v c new provided failed =
      rw (register_module-conclude item r v c new)
        (settle (outcome item r) (rw (register_module-conclude item r v c new) at failed))
    where
      settle :
          (o : Option Error × Registry H W V)
          → (conclude item.descriptor o).0 ≡ some e
          → lookup (key ref) (conclude item.descriptor o).1.handlers ≡ none
      settle (none, o) h = absurd (cc)
      settle (some x, o) h =
          rw (lookup-delete_all (key ref) item.descriptor.provides o.handlers, provided)
