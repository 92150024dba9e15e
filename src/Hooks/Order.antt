-- ===== src/Hooks/Order.antt =====
-- The dispatch order: by priority, then module ID, whatever the order of registration.
use mathlib.Core.List.{Perm}
use mathlib.Core.List.Perm
use sannad.Prelude.{
  true, false, List, [], ◌∷◌, ◌≡◌, refl, ap, arith, ◌⊎◌, inl, inr, Bool-cases, ◌∙◌, sym,
}
use sannad.Prelude.Int.{
  lt_ℤ, lt_ℤ_irrefl, lt_string, codes, lt_ℤ-asymm, lt_ℤ-negtrans, lt_codes-asymm, lt_codes-negtrans,
}
use sannad.Hooks.{Subscription}
use sannad.Hooks.Registry.{precedes, place, sort_stable}

module _ {W V : Type 0} where
  precedes-asymm : (a b : Subscription W V) → precedes a b ≡ true → precedes b a ≡ false
  unfolding precedes
  precedes-asymm a b h = ground (
    arith,
    lt_ℤ-asymm a.priority b.priority,
    lt_ℤ-asymm b.priority a.priority,
    lt_codes-asymm (codes a.module_id) (codes b.module_id),
  )

  precedes-negtrans :
      (a b c : Subscription W V)
      → precedes a b ≡ false
      → precedes b c ≡ false
      → precedes a c ≡ false
  unfolding precedes
  precedes-negtrans a b c h k = ground (
    arith,
    lt_ℤ-asymm a.priority b.priority,
    lt_ℤ-asymm b.priority c.priority,
    lt_ℤ-asymm a.priority c.priority,
    lt_ℤ-negtrans a.priority b.priority c.priority,
    lt_ℤ-negtrans c.priority b.priority a.priority,
    lt_ℤ-negtrans b.priority a.priority c.priority,
    lt_ℤ-negtrans a.priority c.priority b.priority,
    lt_codes-negtrans (codes a.module_id) (codes b.module_id) (codes c.module_id),
  )

  precedes_trans :
      (a b c : Subscription W V) → precedes a b ≡ true → precedes b c ≡ true → precedes a c ≡ true
  precedes_trans a b c h k = ground (arith, precedes-asymm b c, precedes-negtrans a c b)

  place_comm :
      (x y : Subscription W V) (l : List (Subscription W V))
      → precedes x y ≡ true
      → place x (place y l) ≡ place y (place x l)
  unfolding place
  place_comm x y [] h = ground (arith, precedes-asymm x y)
  place_comm x y (z ∷ zs) h =
      ground (arith, precedes-asymm x y, precedes_trans z x y, place_comm x y zs h)

  abbrev NoneBefore : Subscription W V → List (Subscription W V) → Type 0
  NoneBefore x [] = Unit
  NoneBefore x (y ∷ ys) = (precedes y x ≡ false) × NoneBefore x ys

  -- Nobody is called after somebody that it precedes.
  abbrev IsOrdered : List (Subscription W V) → Type 0
  IsOrdered [] = Unit
  IsOrdered (x ∷ xs) = NoneBefore x xs × IsOrdered xs

  NoneBefore-place :
      (x y : Subscription W V) (l : List (Subscription W V))
      → precedes x y ≡ false
      → NoneBefore y l
      → NoneBefore y (place x l)
  unfolding place
  NoneBefore-place x y [] h k = (h, tt)
  NoneBefore-place x y (z ∷ zs) h k = elim (Bool-cases (precedes z x)) [
    | inl e ↦ rw e (k.0, NoneBefore-place x y zs h k.1)
    | inr e ↦ rw e (h, (k.0, k.1))
  ]

  NoneBefore-lift :
      (x y : Subscription W V) (l : List (Subscription W V))
      → precedes y x ≡ false
      → NoneBefore y l
      → NoneBefore x l
  NoneBefore-lift x y [] h k = tt
  NoneBefore-lift x y (z ∷ zs) h k = (precedes-negtrans z y x k.0 h, NoneBefore-lift x y zs h k.1)

  place-IsOrdered :
      (x : Subscription W V) (l : List (Subscription W V)) → IsOrdered l → IsOrdered (place x l)
  unfolding place
  place-IsOrdered x [] h = (tt, tt)
  place-IsOrdered x (y ∷ ys) h = elim (Bool-cases (precedes y x)) [
    | inl e ↦ rw e (NoneBefore-place x y ys (precedes-asymm y x e) h.0, place-IsOrdered x ys h.1)
    | inr e ↦ rw e ((e, NoneBefore-lift x y ys e h.0), (h.0, h.1))
  ]

  place-perm : (x : Subscription W V) (l : List (Subscription W V)) → Perm (place x l) (x ∷ l)
  unfolding place
  place-perm x [] = Perm.refl (x ∷ [])
  place-perm x (y ∷ ys) = elim (Bool-cases (precedes y x)) [
    | inl e ↦ rw e (Perm.trans (Perm.cons y (place-perm x ys)) (Perm.swap x y ys))
    | inr e ↦ rw e (Perm.refl (x ∷ y ∷ ys))
  ]

  sort_stable-IsOrdered :
      (l : List (Subscription W V)) → IsOrdered (sort_stable l) × Perm (sort_stable l) l
  unfolding sort_stable
  sort_stable-IsOrdered [] = (tt, Perm.refl [])
  sort_stable-IsOrdered (x ∷ xs) =
      let (ordered, same) = sort_stable-IsOrdered xs in
      (
        place-IsOrdered x (sort_stable xs) ordered,
        Perm.trans (place-perm x (sort_stable xs)) (Perm.cons x same),
      )

  -- A subscriber may be called before another: no lower priority comes after it, nor at its own
  -- priority the name of a module that is lower as a text.
  abbrev pub MayLead : Subscription W V → Subscription W V → Type 0
  MayLead x y =
      (lt_ℤ y.priority x.priority ≡ false)
      × ((lt_ℤ x.priority y.priority ≡ true) ⊎ (lt_string y.module_id x.module_id ≡ false))

  abbrev pub Leads : Subscription W V → List (Subscription W V) → Type 0
  Leads x [] = Unit
  Leads x (y ∷ ys) = MayLead x y × Leads x ys

  abbrev pub IsByPriority : List (Subscription W V) → Type 0
  IsByPriority [] = Unit
  IsByPriority (x ∷ xs) = Leads x xs × IsByPriority xs

  precedes-MayLead : (x y : Subscription W V) → precedes y x ≡ false → MayLead x y
  unfolding precedes
  precedes-MayLead x y h = (
    ground (arith, h),
    elim (Bool-cases (lt_ℤ x.priority y.priority)) [
      | inl e ↦ inl e
      | inr e ↦ inr (ground (arith, h, e))
    ],
  )

  NoneBefore-Leads :
      (x : Subscription W V) (l : List (Subscription W V)) → NoneBefore x l → Leads x l
  NoneBefore-Leads x [] h = tt
  NoneBefore-Leads x (y ∷ ys) h = (precedes-MayLead x y h.0, NoneBefore-Leads x ys h.1)

  IsOrdered-IsByPriority : (l : List (Subscription W V)) → IsOrdered l → IsByPriority l
  IsOrdered-IsByPriority [] h = tt
  IsOrdered-IsByPriority (x ∷ xs) h = (NoneBefore-Leads x xs h.0, IsOrdered-IsByPriority xs h.1)

  -- The dispatch order holds exactly the registered subscribers, by rising priority, and at one
  -- priority by the names of their modules as texts.
  pub sort_stable-IsByPriority :
      (l : List (Subscription W V)) → IsByPriority (sort_stable l) × Perm (sort_stable l) l
  sort_stable-IsByPriority l =
      let (ordered, same) = sort_stable-IsOrdered l in
      (IsOrdered-IsByPriority (sort_stable l) ordered, same)

  -- Two subscribers of different priorities, or of modules with different names.
  abbrev pub Differ : Subscription W V → Subscription W V → Type 0
  Differ a b =
      (lt_ℤ a.priority b.priority ≡ true)
      ⊎ ((lt_ℤ b.priority a.priority ≡ true)
          ⊎ ((a.priority ≡ b.priority)
              × ((lt_string a.module_id b.module_id ≡ true)
                  ⊎ (lt_string b.module_id a.module_id ≡ true))))

  Differ-precedes :
      (a b : Subscription W V) → Differ a b → (precedes a b ≡ true) ⊎ (precedes b a ≡ true)
  unfolding precedes
  Differ-precedes a b (inl h) = inl (rw h refl)
  Differ-precedes a b (inr (inl h)) = inr (rw h refl)
  Differ-precedes a b (inr (inr (same_priority, inl h))) =
      inl (rw (same_priority, lt_ℤ_irrefl b.priority) h)
  Differ-precedes a b (inr (inr (same_priority, inr h))) =
      inr (rw (same_priority, lt_ℤ_irrefl b.priority) h)

  -- Another order of registration, in which no two subscribers of one priority and module change
  -- places.
  pub data Reorder : List (Subscription W V) → List (Subscription W V) → Type 0 where
    same : (l : List (Subscription W V)) → Reorder l l
    skip :
        (x : Subscription W V) {l m : List (Subscription W V)}
        → Reorder l m
        → Reorder (x ∷ l) (x ∷ m)
    exchange :
        (x y : Subscription W V) (l : List (Subscription W V))
        → Differ x y
        → Reorder (x ∷ y ∷ l) (y ∷ x ∷ l)
    then : {l m n : List (Subscription W V)} → Reorder l m → Reorder m n → Reorder l n

  -- The dispatch order does not depend on the order of registration, where no two subscribers of
  -- one priority and module change places.
  pub sort_stable-Reorder :
      {l m : List (Subscription W V)} → Reorder l m → sort_stable l ≡ sort_stable m
  unfolding sort_stable
  sort_stable-Reorder (same l) = refl
  sort_stable-Reorder (skip x r) = ap (place x) (sort_stable-Reorder r)
  sort_stable-Reorder (exchange x y l h) = elim (Differ-precedes x y h) [
    | inl first ↦ place_comm x y (sort_stable l) first
    | inr second ↦ sym (place_comm y x (sort_stable l) second)
  ]
  sort_stable-Reorder (then r q) = sort_stable-Reorder r ∙ sort_stable-Reorder q
