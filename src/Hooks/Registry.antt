-- ===== src/Hooks/Registry.antt =====
-- The registry of hook points and subscribers (internal/kernel/hooks/registry.go).
use sannad.Prelude.{
  String, Bool, true, false, Option, none, some, List, [], ◌∷◌, ◌++◌, map, ◌||◌, not, str_eq,
  if◌then◌else◌,
}
use sannad.Prelude.Int.{lt_ℤ, lt_string}
use sannad.Prelude.Maps.{Assoc, lookup, insert}
use sannad.Hooks.{
  Ref, key, HookPoint, Subscription, Error, invalid_hook_point, hook_not_offered,
  hook_already_offered, validate_point,
}

pub record OfferedPoint : Type 0 where
  pub point : HookPoint
  pub owner : String

pub record Registry (W V : Type 0) : Type 0 where
  pub points : Assoc OfferedPoint
  pub subs : Assoc (List (Subscription W V))

module _ {W V : Type 0} where
  abbrev pub new : Registry W V
  new = record { points = []; subs = [] }

  -- r.subs[key], nil where there is none
  abbrev subs_at : String → Registry W V → List (Subscription W V)
  subs_at k r = elim (lookup k r.subs) [ none ↦ [] | some l ↦ l ]

  abbrev add_point :
      Option OfferedPoint → String → OfferedPoint → Registry W V → Option Error × Registry W V
  add_point (some existing) k p r = (some hook_already_offered, r)
  add_point none k p r = (none, record r { points = insert k p r.points })

  abbrev offer_valid :
      Option Error → String → HookPoint → Registry W V → Option Error × Registry W V
  offer_valid (some e) owner point r = (some e, r)
  offer_valid none owner point r =
      add_point (lookup (key point.ref) r.points) (key point.ref)
        (record { point = point; owner = owner }) r

  unfoldable pub offer : String → HookPoint → Registry W V → Option Error × Registry W V
  unfolding lookup insert validate_point
  offer owner point r = offer_valid (validate_point point) owner point r

  abbrev has_handler : Subscription W V → Bool
  has_handler sub = elim sub.handler [ none ↦ false | some _ ↦ true ]

  abbrev add_sub :
      Option OfferedPoint → Subscription W V → Registry W V → Option Error × Registry W V
  add_sub none sub r = (some hook_not_offered, r)
  add_sub (some _) sub r =
      (none, record r { subs = insert (key sub.ref) (subs_at (key sub.ref) r ++ sub ∷ []) r.subs })

  unfoldable pub subscribe : Subscription W V → Registry W V → Option Error × Registry W V
  unfolding lookup insert
  subscribe sub r =
      if not (has_handler sub)
      then (some invalid_hook_point, r)
      else if str_eq sub.module_id ""
      then (some invalid_hook_point, r)
      else add_sub (lookup (key sub.ref) r.points) sub r

  -- The `less` of `subscribersOf`: priority, then module ID.
  unfoldable pub precedes : Subscription W V → Subscription W V → Bool
  precedes a b =
      if lt_ℤ a.priority b.priority || lt_ℤ b.priority a.priority
      then lt_ℤ a.priority b.priority
      else lt_string a.module_id b.module_id

  -- A stable sort: an item stays before those that do not precede it.
  unfoldable pub place : Subscription W V → List (Subscription W V) → List (Subscription W V)
  place x [] = x ∷ []
  place x (y ∷ ys) = let later = y ∷ place x ys in if precedes y x then later else x ∷ y ∷ ys

  unfoldable pub sort_stable : List (Subscription W V) → List (Subscription W V)
  unfolding place precedes
  sort_stable [] = []
  sort_stable (x ∷ xs) = place x (sort_stable xs)

  unfoldable pub subscribers_of :
      String → Registry W V → Option (OfferedPoint × List (Subscription W V))
  unfolding lookup sort_stable
  subscribers_of k r = elim (lookup k r.points) [
    | none ↦ none
    | some p ↦ some (p, sort_stable (subs_at k r))
  ]

  unfoldable pub subscriber_ids : Ref → Registry W V → List String
  unfolding subscribers_of
  subscriber_ids ref r = elim (subscribers_of (key ref) r) [
    | none ↦ []
    | some (p, subs) ↦ map (λ s. s.module_id) subs
  ]
