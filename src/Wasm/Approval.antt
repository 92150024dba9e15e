-- ===== src/Wasm/Approval.antt =====
-- Which manifests an operator's approval accepts, said without the loops of validateManifest.
use sannad.Prelude.{
  ℕ, Bool, true, false, Option, none, some, List, [], ◌∷◌, ◌≡◌, ◌≢◌, refl, ap, ◌⊎◌, ◌↔◌, inl, inr,
  ◌&&◌, ◌||◌, ◌==◌, ltb, not, map, arith, if◌then◌else◌, Bool-cases,
}
use mathlib.Core.Path.{subst}
use sannad.Prelude.Texts.{Text, is_empty}
use sannad.Hooks.{valid_kind}
use sannad.Wasm.Keys.{CapabilityRef, key}
use sannad.Wasm.Chain.{contains, Distinct, same_sym}
use sannad.Wasm.ModuleId.{migration_table_for}
use sannad.Wasm.Manifest.{
  ApprovedManifest, Refusal, unsupported_version, v1_grants, invalid_id, no_capabilities, HookGrant,
  each_once, or_else, is_derivable, validate_manifest, validate_capability_ref, check_exposed,
  check_event, check_hook, check_declarations, contains_at, has_wildcard,
}

-- Every member passes.
abbrev pub All : {A : Type 0} → (A → Type 0) → List A → Type 0
All P [] = Unit
All P (x ∷ xs) = P x × All P xs

abbrev Away : List Text → List Text → Type 0
Away seen [] = Unit
Away seen (k ∷ ks) = (contains k seen ≡ false) × Away seen ks

Away-cons :
    (a : Text) (seen ks : List Text)
    → (Away (a ∷ seen) ks → (contains a ks ≡ false) × Away seen ks)
      × ((contains a ks ≡ false) × Away seen ks → Away (a ∷ seen) ks)
unfolding contains
Away-cons a seen [] = (λ h. (refl, tt), λ h. tt)
Away-cons a seen (k ∷ ks) =
    let (there, back) = Away-cons a seen ks in
    (
      λ h.
          let (c, rest) = there h.1 in
          (ground (arith, h.0, c, same_sym a k), (ground (arith, h.0), rest)),
      λ h.
          let c : contains a ks ≡ false = ground (arith, h.0) in
          (ground (arith, h.0, h.1.0, same_sym a k), back (c, h.1.1)),
    )

or_else-none :
    (a b : Option Refusal)
    → (or_else a b ≡ none → (a ≡ none) × (b ≡ none))
      × ((a ≡ none) × (b ≡ none) → or_else a b ≡ none)
or_else-none none b = (λ h. (refl, h), λ h. h.1)
or_else-none (some e) b = (λ h. absurd (cc h), λ h. absurd (cc (h.0)))

module _ {A : Type 0} (check : A → Option Refusal) (name : A → Text) where
  abbrev Passes : List A → Type 0
  Passes xs = All (λ x. check x ≡ none) xs × Distinct (map name xs)

  -- A loop returns nothing where each member passes, no key repeats, and none was seen before.
  each_once_iff :
      (seen : List Text) (xs : List A)
      → (each_once check name seen xs ≡ none → Passes xs × Away seen (map name xs))
        × (Passes xs × Away seen (map name xs) → each_once check name seen xs ≡ none)
  unfolding each_once
  each_once_iff seen [] = (λ h. ((tt, tt), tt), λ h. refl)
  each_once_iff seen (x ∷ xs) =
      let (there, back) = each_once_iff (name x ∷ seen) xs in
      let (apart, joined) = Away-cons (name x) seen (map name xs) in
      (
        λ h.
            let (c, rest) = (or_else-none (check x) _).0 h in
            elim (Bool-cases (contains (name x) seen)) [
              | inl e ↦ absurd (ground (arith, rest, e))
              | inr e ↦
                  let deeper : each_once check name (name x ∷ seen) xs ≡ none =
                    ground (arith, rest, e) in
                  let (p, a) = there deeper in
                  let (fresh, away) = apart a in (((c, p.0), (fresh, p.1)), (e, away))
            ],
        λ h.
            let ((checks, distinct), away) = h in
            let rest : each_once check name (name x ∷ seen) xs ≡ none =
              back ((checks.1, distinct.1), joined (distinct.0, away.1)) in
            rw (checks.0, away.0) rest,
      )

-- No character of the text is `c`.
abbrev pub Lacks : ℕ → Text → Type 0
Lacks c [] = Unit
Lacks c (d ∷ ds) = (d ≢ c) × Lacks c ds

contains_at-Lacks : (t : Text) → (contains_at t ≡ false) ↔ Lacks 64 t
unfolding contains_at
contains_at-Lacks [] = (λ h. tt, λ h. refl)
contains_at-Lacks (c ∷ cs) = ground (arith, contains_at-Lacks cs)

has_wildcard-Lacks : (t : Text) → (has_wildcard t ≡ false) ↔ (Lacks 42 t × Lacks 62 t)
unfolding has_wildcard
has_wildcard-Lacks [] = (λ h. (tt, tt), λ h. refl)
has_wildcard-Lacks (c ∷ cs) = ground (arith, has_wildcard-Lacks cs)

-- A reference with a name and a version, neither of which holds an `@`.
abbrev pub WellNamed : CapabilityRef → Type 0
WellNamed ref =
    (is_empty ref.name ≡ false)
    × (is_empty ref.version ≡ false)
    × Lacks 64 ref.name
    × Lacks 64 ref.version

abbrev pub ExactEvent : Text → Type 0
ExactEvent name = (is_empty name ≡ false) × Lacks 42 name × Lacks 62 name

abbrev pub KnownHook : HookGrant → Type 0
KnownHook grant =
    (is_empty grant.ref.name ≡ false)
    × (is_empty grant.ref.version ≡ false)
    × (valid_kind grant.kind ≡ true)

abbrev keys : List CapabilityRef → List Text
keys refs = map (λ ref. key ref) refs

abbrev hook_keys : List HookGrant → List Text
hook_keys grants = map (λ grant. key grant.ref) grants

-- The rules for the declarations of a manifest.
abbrev pub Declared : ApprovedManifest → Type 0
Declared m =
    (All WellNamed m.provides × Distinct (keys m.provides))
    × ((All (λ ref. WellNamed ref × (contains (key ref) (keys m.provides) ≡ true)) m.exposed
          × Distinct (keys m.exposed))
        × ((All WellNamed m.consumes × Distinct (keys m.consumes))
            × ((All ExactEvent m.publishes_events × Distinct m.publishes_events)
                × (All KnownHook m.subscribes_hooks × Distinct (hook_keys m.subscribes_hooks)))))

-- The rules for a manifest.
abbrev pub Approvable : ApprovedManifest → Type 0
Approvable m =
    ((m.abi_version ≡ 1) ⊎ (m.abi_version ≡ 2))
    × (m.abi_version ≡ 1
        → (is_empty m.consumes ≡ true)
          × (is_empty m.publishes_events ≡ true)
          × (is_empty m.subscribes_hooks ≡ true))
    × (is_derivable (migration_table_for m.id) ≡ true)
    × (is_empty m.provides ≡ false)
    × Declared m

validate_capability_ref_iff :
    (ref : CapabilityRef) → (validate_capability_ref ref ≡ none) ↔ WellNamed ref
unfolding validate_capability_ref
validate_capability_ref_iff ref =
    ground (arith, contains_at-Lacks ref.name, contains_at-Lacks ref.version)

check_exposed_iff :
    (provides : List CapabilityRef) (ref : CapabilityRef)
    → (check_exposed provides ref ≡ none)
      ↔ (WellNamed ref × (contains (key ref) (keys provides) ≡ true))
unfolding check_exposed
check_exposed_iff provides ref = (
  λ h.
      let (named, held) = (or_else-none (validate_capability_ref ref) _).0 h in
      ((validate_capability_ref_iff ref).0 named, ground (arith, held)),
  λ h. rw ((validate_capability_ref_iff ref).1 h.0, h.1) refl,
)

check_event_iff : (name : Text) → (check_event name ≡ none) ↔ ExactEvent name
unfolding check_event
check_event_iff name = ground (arith, has_wildcard-Lacks name)

check_hook_iff : (grant : HookGrant) → (check_hook grant ≡ none) ↔ KnownHook grant
unfolding check_hook
check_hook_iff grant = ground arith

All-map :
    {A : Type 0} {P Q : A → Type 0} (xs : List A) → ((x : A) → P x → Q x) → All P xs → All Q xs
All-map [] f h = tt
All-map (x ∷ xs) f h = (f x h.0, All-map xs f h.1)

Away-nil : (ks : List Text) → Away [] ks
unfolding contains
Away-nil [] = tt
Away-nil (k ∷ ks) = (refl, Away-nil ks)

-- A loop that has seen nothing, with what its check means in place of the check.
loop_iff :
    {A : Type 0} (P : A → Type 0) (check : A → Option Refusal) (name : A → Text)
    → ((x : A) → (check x ≡ none) ↔ P x)
    → (xs : List A) → (each_once check name [] xs ≡ none) ↔ (All P xs × Distinct (map name xs))
loop_iff P check name meaning xs =
    let (there, back) = each_once_iff check name [] xs in
    (
      λ h.
          let ((checks, distinct), away) = there h in
          (All-map xs (λ x. (meaning x).0) checks, distinct),
      λ h. back ((All-map xs (λ x. (meaning x).1) h.0, h.1), Away-nil (map name xs)),
    )

names_self : (ks : List Text) → map (λ name. name) ks ≡ ks
names_self [] = refl
names_self (k ∷ ks) = ap (λ rest. k ∷ rest) (names_self ks)

events_iff :
    (names : List Text)
    → (each_once check_event (λ name. name) [] names ≡ none)
      ↔ (All ExactEvent names × Distinct names)
events_iff names =
    subst
      (λ ks.
        (each_once check_event (λ name. name) [] names ≡ none)
        ↔ (All ExactEvent names × Distinct ks))
      (names_self names) (loop_iff ExactEvent check_event (λ name. name) check_event_iff names)

and_iff :
    (a b : Option Refusal) {P Q : Type 0}
    → ((a ≡ none) ↔ P)
    → ((b ≡ none) ↔ Q)
    → (or_else a b ≡ none) ↔ (P × Q)
and_iff a b p q = (
  λ h. let (x, y) = (or_else-none a b).0 h in (p.0 x, q.0 y),
  λ h. (or_else-none a b).1 (p.1 h.0, q.1 h.1),
)

check_declarations_iff : (m : ApprovedManifest) → (check_declarations m ≡ none) ↔ Declared m
unfolding check_declarations
check_declarations_iff m =
    and_iff _ _
      (loop_iff WellNamed validate_capability_ref _ validate_capability_ref_iff m.provides)
      (and_iff _ _
        (loop_iff _ (check_exposed m.provides) _ (check_exposed_iff m.provides) m.exposed)
        (and_iff _ _
          (loop_iff WellNamed validate_capability_ref _ validate_capability_ref_iff m.consumes)
          (and_iff _ _ (events_iff m.publishes_events)
            (loop_iff KnownHook check_hook _ check_hook_iff m.subscribes_hooks))))

heads_iff :
    (version : ℕ) (consumes events hooks derivable provides : Bool) (rest : Option Refusal)
    → ((if ltb version 1 || ltb 2 version
          then some unsupported_version
          else if version == 1 && (not consumes || not events || not hooks)
          then some v1_grants
          else if not derivable
          then some invalid_id
          else if provides
          then some no_capabilities
          else rest)
        ≡ none)
      ↔ (((version ≡ 1) ⊎ (version ≡ 2))
          × (version ≡ 1 → (consumes ≡ true) × (events ≡ true) × (hooks ≡ true))
          × (derivable ≡ true)
          × (provides ≡ false)
          × (rest ≡ none))
heads_iff version consumes events hooks derivable provides rest = ground arith

-- The checks of a manifest accept exactly the manifests that keep the rules: ABI version 1 or 2,
-- and with version 1 none of the grants; an ID that has a version table; at least one capability;
-- references with a name and a version that hold no `@`; what is exposed is provided; events have
-- names without `*` and `>`, of which any other text is one, also a subject of the broker; hooks are named and of a known kind; and nothing is declared twice.
pub validate_manifest-Approvable :
    (m : ApprovedManifest) → (validate_manifest m ≡ none) ↔ Approvable m
unfolding validate_manifest
validate_manifest-Approvable m =
    let (there, back) =
      heads_iff m.abi_version (is_empty m.consumes) (is_empty m.publishes_events)
        (is_empty m.subscribes_hooks) (is_derivable (migration_table_for m.id))
        (is_empty m.provides) (check_declarations m) in
    (
      λ h.
          let (version, grants, id, capabilities, declared) = there h in
          (version, grants, id, capabilities, (check_declarations_iff m).0 declared),
      λ h. back (h.0, h.1, h.2, h.3, (check_declarations_iff m).1 h.4),
    )
