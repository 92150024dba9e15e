-- ===== src/Prelude/Maps.antt =====
-- Go's `map[string]A` as an association list with one entry for a key.
use sannad.Prelude.{
  String, Option, none, some, List, [], ◌∷◌, ◌≡◌, refl, arith, str_eq, eq_iff, if◌then◌else◌,
}

abbrev pub Assoc : Type 0 → Type 0
Assoc A = List (String × A)

module _ {A : Type 0} where
  -- m[key]
  unfoldable pub lookup : String → Assoc A → Option A
  lookup key [] = none
  lookup key (entry ∷ m) = if str_eq entry.0 key then some entry.1 else lookup key m

  -- delete(m, key)
  unfoldable pub delete : String → Assoc A → Assoc A
  delete key [] = []
  delete key (entry ∷ m) =
      let rest = delete key m in if str_eq entry.0 key then rest else entry ∷ rest

  pub lookup-delete :
      (key other : String) (m : Assoc A)
      → lookup other (delete key m) ≡ (if str_eq key other then none else lookup other m)
  unfolding lookup delete
  lookup-delete key other [] = ground arith
  lookup-delete key other (entry ∷ m) =
      ground (
        arith,
        eq_iff key other,
        eq_iff entry.0 key,
        eq_iff entry.0 other,
        lookup-delete key other m,
      )

  -- m[key] = value
  unfoldable pub insert : String → A → Assoc A → Assoc A
  insert key value [] = (key, value) ∷ []
  insert key value (entry ∷ m) =
      if str_eq entry.0 key then (key, value) ∷ m else entry ∷ insert key value m

  pub lookup-insert :
      (key other : String) (value : A) (m : Assoc A)
      → lookup other (insert key value m)
        ≡ (if str_eq key other then some value else lookup other m)
  unfolding lookup insert
  lookup-insert key other value [] = refl
  lookup-insert key other value (entry ∷ m) = ground (
    arith,
    eq_iff key other,
    eq_iff entry.0 key,
    eq_iff entry.0 other,
    lookup-insert key other value m,
  )
