-- ===== src/Prelude/Tables.antt =====
-- The rows of a table that a condition selects.
use sannad.Prelude.{
  Bool, true, false, Option, none, some, List, [], ◌∷◌, ◌++◌, ◌≡◌, ◌↔◌, ◌⊎◌, refl, ◌&&◌, ◌||◌, not,
  arith, if◌then◌else◌,
}

module _ {A : Type 0} where
  -- A row of a list.
  abbrev pub Member : A → List A → Type 0
  Member a [] = ⊥
  Member a (x ∷ xs) = (a ≡ x) ⊎ Member a xs

  unfoldable pub select : (A → Bool) → List A → List A
  select p [] = []
  select p (x ∷ xs) = let rest = select p xs in if p x then x ∷ rest else rest

  unfoldable pub first : (A → Bool) → List A → Option A
  first p [] = none
  first p (x ∷ xs) = let rest = first p xs in if p x then some x else rest

  unfoldable pub update : (A → Bool) → (A → A) → List A → List A
  update p f [] = []
  update p f (x ∷ xs) = let rest = update p f xs in if p x then f x ∷ rest else x ∷ rest

  unfoldable pub remove : (A → Bool) → List A → List A
  remove p [] = []
  remove p (x ∷ xs) = let rest = remove p xs in if p x then rest else x ∷ rest

  unfoldable pub any : (A → Bool) → List A → Bool
  any p [] = false
  any p (x ∷ xs) = p x || any p xs

  -- Rows that a condition rules out are not among those that another keeps.
  pub select-remove :
      (p q : A → Bool)
      → ((a : A) → q a ≡ true → p a ≡ false)
      → (xs : List A) → select p (remove q xs) ≡ select p xs
  unfolding select remove
  select-remove p q apart [] = refl
  select-remove p q apart (x ∷ xs) = ground (arith, select-remove p q apart xs, apart x)

  pub select-append :
      (p : A → Bool) (xs ys : List A) → select p (xs ++ ys) ≡ select p xs ++ select p ys
  unfolding select
  select-append p [] ys = refl
  select-append p (x ∷ xs) ys = ground (arith, select-append p xs ys)

  pub select-update :
      (p q : A → Bool) (f : A → A)
      → ((a : A) → q a ≡ true → (p a ≡ false) × (p (f a) ≡ false))
      → (xs : List A) → select p (update q f xs) ≡ select p xs
  unfolding select update
  select-update p q f apart [] = refl
  select-update p q f apart (x ∷ xs) = ground (arith, select-update p q f apart xs, apart x)

  pub any-append : (p : A → Bool) (xs ys : List A) → any p (xs ++ ys) ≡ (any p xs || any p ys)
  unfolding any
  any-append p [] ys = refl
  any-append p (x ∷ xs) ys = ground (arith, any-append p xs ys)

  pub any-first : (p : A → Bool) (xs : List A) → (first p xs ≡ none) ↔ (any p xs ≡ false)
  unfolding any first
  any-first p [] = (λ h. refl, λ h. refl)
  any-first p (x ∷ xs) = ground (arith, any-first p xs)

  pub any-remove :
      (p q : A → Bool) (xs : List A) → any p (remove q xs) ≡ any (λ a. p a && not (q a)) xs
  unfolding any remove
  any-remove p q [] = refl
  any-remove p q (x ∷ xs) = ground (arith, any-remove p q xs)

  pub any-same : (p q : A → Bool) → ((a : A) → p a ≡ q a) → (xs : List A) → any p xs ≡ any q xs
  unfolding any
  any-same p q same [] = refl
  any-same p q same (x ∷ xs) = rw (same x, any-same p q same xs) refl

  pub select-insert :
      (p : A → Bool) (xs : List A) (a : A) → p a ≡ false → select p (xs ++ a ∷ []) ≡ select p xs
  unfolding select
  select-insert p [] a h = rw h refl
  select-insert p (x ∷ xs) a h = ground (arith, select-insert p xs a h)
