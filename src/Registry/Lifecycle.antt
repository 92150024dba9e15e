-- ===== src/Registry/Lifecycle.antt =====
-- validateConsumes, StartAll, StopAll and stopModules (internal/kernel/registry/registry.go).
use mathlib.Core.List.{reverse}
use sannad.Prelude.{String, Option, none, some, List, [], ◌∷◌, ◌++◌}
use sannad.Prelude.Maps.{lookup}
use sannad.Hooks.{Ref, key}
use sannad.Registry.{Error, start_failed, unmet, stops_failed, Registry}

-- A nil module in the map is a panic of the kernel.
pub data Outcome (A : Type 0) : Type 0 where
  panicked : Outcome A
  finished : A → Outcome A

abbrev pub joined : Outcome (List (String × String)) → Outcome (Option Error)
joined panicked = panicked
joined (finished []) = finished none
joined (finished (e ∷ es)) = finished (some (stops_failed (e ∷ es)))

-- The errors of the stops that follow a failed start are dropped.
abbrev pub abandon :
    {W : Type 0}
    → String
    → String
    → Outcome (List (String × String)) × W
    → Outcome (Option Error) × W
abandon id text (panicked, w) = (panicked, w)
abandon id text (finished _, w) = (finished (some (start_failed id text)), w)

module _ {H W V : Type 0} (r : Registry H W V) where
  -- The capabilities that a module consumes and nobody has registered.
  unfoldable pub missing : String → List Ref → List (String × String)
  unfolding lookup
  missing id [] = []
  missing id (ref ∷ refs) =
      let rest = missing id refs in
      elim (lookup (key ref) r.handlers) [ none ↦ (id, key ref) ∷ rest | some _ ↦ rest ]

  unfoldable pub unmet_consumes : List String → Outcome (List (String × String))
  unfolding missing
  unmet_consumes [] = finished []
  unmet_consumes (id ∷ ids) = elim (lookup id r.modules) [
    | none ↦ panicked
    | some m ↦ elim (unmet_consumes ids) [
      | panicked ↦ panicked
      | finished later ↦ finished (missing id m.descriptor.consumes ++ later)
    ]
  ]

  -- The loop of `stopModules` over the identities in the order of the calls.
  unfoldable pub stop_each :
      List String → List (String × String) → W → Outcome (List (String × String)) × W
  unfolding lookup
  stop_each [] errs w = (finished errs, w)
  stop_each (id ∷ ids) errs w = elim (lookup id r.modules) [
    | none ↦ (panicked, w)
    | some m ↦ elim (m.stop w).0 [
      | none ↦ stop_each ids errs (m.stop w).1
      | some text ↦ stop_each ids (errs ++ (id, text) ∷ []) (m.stop w).1
    ]
  ]

  unfoldable pub stop_modules : List String → W → Outcome (List (String × String)) × W
  unfolding stop_each
  stop_modules ids w = stop_each (reverse ids) [] w

  unfoldable pub stop_all : W → Outcome (Option Error) × W
  unfolding stop_modules
  stop_all w =
      (joined (stop_modules r.registration_order w).0, (stop_modules r.registration_order w).1)

  unfoldable pub start_each : List String → List String → W → Outcome (Option Error) × W
  unfolding lookup stop_modules
  start_each [] started w = (finished none, w)
  start_each (id ∷ ids) started w = elim (lookup id r.modules) [
    | none ↦ (panicked, w)
    | some m ↦ elim (m.start w).0 [
      | none ↦ start_each ids (started ++ id ∷ []) (m.start w).1
      | some text ↦ abandon id text (stop_modules started (m.start w).1)
    ]
  ]

  abbrev pub start_checked : Outcome (List (String × String)) → W → Outcome (Option Error) × W
  start_checked panicked w = (panicked, w)
  start_checked (finished []) w = start_each r.registration_order [] w
  start_checked (finished (e ∷ es)) w = (finished (some (unmet (e ∷ es))), w)

  unfoldable pub start_all : W → Outcome (Option Error) × W
  unfolding unmet_consumes start_each
  start_all w = start_checked (unmet_consumes r.registration_order) w
