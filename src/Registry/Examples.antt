-- ===== src/Registry/Examples.antt =====
-- A registry of small modules, and the theorems at it.
use sannad.Prelude.{
  String, true, Option, none, some, List, [], ◌∷◌, ◌++◌, ◌≡◌, refl, not, if◌then◌else◌, ◌&&◌,
}
use sannad.Prelude.Maps.{lookup}
use sannad.Hooks.{Ref}
use sannad.Registry.{own, module_error, start_failed, Install, finish, Module, Registry, new}
use sannad.Registry.Register.{is_some, resolve_capability, register_module}
use sannad.Registry.Lifecycle.{finished, start_all, unmet_consumes}
use sannad.Registry.Shutdown.{start_all_failure}
use sannad.Registry.Rollback.{register_module_table, register_module_failure_unregisters}

abbrev Calls : Type 0
Calls = List String

abbrev billing : Ref
billing = record { name = "billing.charge"; version = "v1" }

abbrev module_of : String → Install String Calls String → Option String → Module String Calls String
module_of id install start = record {
  descriptor = record {
    id = id;
    provides = billing ∷ [];
    consumes = [];
    offers = [];
    storage = own;
    exposed = [];
  };
  install = install;
  start = λ w. (start, w ++ "start" ∷ id ∷ []);
  stop = λ w. (some "busy", w ++ "stop" ∷ id ∷ []);
}

abbrev a : Module String Calls String
a = module_of "a" (Install.register billing "by a" (λ e. finish none)) none

abbrev b : Module String Calls String
b = module_of "b" (finish none) (some "no port")

abbrev c : Module String Calls String
c = module_of "c" (finish (some (module_error "no license"))) none

abbrev with_a : Registry String Calls String
with_a = record new {
  modules = ("a", a) ∷ [];
  handlers = ("billing.charge@v1", "by a") ∷ [];
  registration_order = "a" ∷ [];
}

abbrev two : Registry String Calls String
two = record with_a { modules = ("a", a) ∷ ("b", b) ∷ []; registration_order = "a" ∷ "b" ∷ [] }

register_module_table_example :
    let (e, r') = register_module c with_a in
    (lookup "c" r'.modules ≡ (if not (is_some e) && true then some c else none))
    × (r'.registration_order ≡ "a" ∷ (if is_some e then [] else "c" ∷ []))
unfolding lookup
register_module_table_example = register_module_table c with_a refl refl refl "c"

register_module_failure_unregisters_example :
    resolve_capability billing (register_module c with_a).1 ≡ none
unfolding register_module
register_module_failure_unregisters_example =
    register_module_failure_unregisters c with_a billing (module_error "no license") refl refl refl
      refl refl

start_all_failure_example : start_all two [] ≡ (
  finished (some (start_failed "b" "no port")),
  "start" ∷ "a" ∷ "start" ∷ "b" ∷ "stop" ∷ "a" ∷ [],
)
unfolding lookup unmet_consumes
start_all_failure_example =
    start_all_failure two ("a" ∷ []) [] (a ∷ []) "b" "no port" b [] ("start" ∷ "a" ∷ []) refl refl
      (refl, tt) refl (refl, refl) refl
