-- ===== src/Registry/Shutdown.antt =====
-- In which order modules are started and stopped, and which of them.
use mathlib.Core.List.{reverse, reverse_aux, append_assoc, append-nil}
use sannad.Prelude.{
  String, none, some, List, [], ◌∷◌, ◌++◌, ◌≡◌, refl, ap, ◌∙◌, Option-cases, inl, inr,
}
use sannad.Prelude.Maps.{lookup}
use sannad.Registry.{start_failed, Module, Registry}
use sannad.Registry.Lifecycle.{
  finished, stop_each, stop_modules, stop_all, start_each, start_all, unmet_consumes, abandon,
  start_checked,
}

-- Every module's Stop is called, in the order given.
abbrev pub stops : {H W V : Type 0} → List (Module H W V) → W → W
stops [] w = w
stops (m ∷ ms) w = stops ms (m.stop w).1

-- Every Start succeeds, in the order given.
abbrev pub Starts : {H W V : Type 0} → List (Module H W V) → W → W → Type 0
Starts [] w w' = w ≡ w'
Starts (m ∷ ms) w w' = ((m.start w).0 ≡ none) × Starts ms (m.start w).1 w'

module _ {H W V : Type 0} (r : Registry H W V) where
  -- Each identity names a module of the registry.
  abbrev pub Known : List String → List (Module H W V) → Type 0
  Known [] [] = Unit
  Known [] (m ∷ ms) = ⊥
  Known (id ∷ ids) [] = ⊥
  Known (id ∷ ids) (m ∷ ms) = (lookup id r.modules ≡ some m) × Known ids ms

  stop_each-stops :
      (ids : List String) (ms : List (Module H W V)) (errs : List (String × String)) (w : W)
      → Known ids ms
      → (errs' : List (String × String)) × (stop_each r ids errs w ≡ (finished errs', stops ms w))
  unfolding stop_each
  stop_each-stops [] [] errs w h = (errs, refl)
  stop_each-stops [] (m ∷ ms) errs w h = absurd h
  stop_each-stops (id ∷ ids) [] errs w h = absurd h
  stop_each-stops (id ∷ ids) (m ∷ ms) errs w h = elim (Option-cases (m.stop w).0) [
    | inl e ↦
        let (errs', later) = stop_each-stops ids ms errs (m.stop w).1 h.1 in
        (errs', rw (h.0, stop_each) (rw e later))
    | inr (text, e) ↦
        let (errs', later) = stop_each-stops ids ms (errs ++ (id, text) ∷ []) (m.stop w).1 h.1 in
        (errs', rw (h.0, stop_each) (rw e later))
  ]

  Known-reverse_aux :
      (ids jds : List String) (ms ns : List (Module H W V))
      → Known ids ms
      → Known jds ns
      → Known (reverse_aux ids jds) (reverse_aux ms ns)
  Known-reverse_aux [] jds [] ns h k = k
  Known-reverse_aux [] jds (m ∷ ms) ns h k = absurd h
  Known-reverse_aux (id ∷ ids) jds [] ns h k = absurd h
  Known-reverse_aux (id ∷ ids) jds (m ∷ ms) ns h k =
      Known-reverse_aux ids (id ∷ jds) ms (m ∷ ns) h.1 (h.0, k)

  start_each-prefix :
      (before rest started : List String) (ms : List (Module H W V)) (w w' : W)
      → Known before ms
      → Starts ms w w'
      → start_each r (before ++ rest) started w ≡ start_each r rest (started ++ before) w'
  unfolding start_each
  start_each-prefix [] rest started [] w w' h k = rw (append-nil, k)
  start_each-prefix [] rest started (m ∷ ms) w w' h k = absurd h
  start_each-prefix (id ∷ ids) rest started [] w w' h k = absurd h
  start_each-prefix (id ∷ ids) rest started (m ∷ ms) w w' h k =
      rw (h.0, start_each)
        (rw k.0 (
          rw append_assoc at
            (start_each-prefix ids rest (started ++ id ∷ []) ms (m.start w).1 w' h.1 k.1)))

  start_each-fails :
      (id text : String) (m : Module H W V) (after started : List String) (w : W)
      → lookup id r.modules ≡ some m
      → (m.start w).0 ≡ some text
      → start_each r (id ∷ after) started w ≡ abandon id text (stop_modules r started (m.start w).1)
  unfolding start_each
  start_each-fails id text m after started w found fails = rw (found, start_each) (rw fails)

  -- If every module starts up to one whose Start fails, StartAll calls no Start after it, stops
  -- the modules that had started, the latest first and whatever their Stop answers, and returns
  -- that failure.
  pub start_all_failure :
      (before after : List String) (ms : List (Module H W V)) (id text : String) (m : Module H W V)
      (w w' : W)
      → r.registration_order ≡ before ++ id ∷ after
      → unmet_consumes r r.registration_order ≡ finished []
      → Known before ms
      → lookup id r.modules ≡ some m
      → Starts ms w w'
      → (m.start w').0 ≡ some text
      → start_all r w ≡ (finished (some (start_failed id text)), stops (reverse ms) (m.start w').1)
  unfolding start_all
  start_all_failure before after ms id text m w w' order met known found started fails =
      let (errs, stopped) =
        stop_each-stops (reverse before) (reverse ms) [] (m.start w').1
          (Known-reverse_aux before [] ms [] known tt) in
      ap (λ u. start_checked r u w) met
      ∙ (ap (λ ids. start_each r ids [] w) order
          ∙ (start_each-prefix before (id ∷ after) [] ms w w' known started
              ∙ (start_each-fails id text m after before w' found fails
                  ∙ (unfold stop_modules in ap (abandon id text) stopped))))

  -- StopAll calls the Stop of every module in reverse order of registration, also after a failure.
  stop_all-stops :
      (ms : List (Module H W V)) (w : W)
      → Known r.registration_order ms
      → (stop_all r w).1 ≡ stops (reverse ms) w
  unfolding stop_all
  stop_all-stops ms w known =
      let (errs, stopped) =
        stop_each-stops (reverse r.registration_order) (reverse ms) [] w
          (Known-reverse_aux r.registration_order [] ms [] known tt) in
      unfold stop_modules in ap (λ o. o.1) stopped
