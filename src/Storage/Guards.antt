-- ===== src/Storage/Guards.antt =====
-- What can reach the engine: conditions on bare columns with bound values, and never an update or a
-- delete without a condition.
use sannad.Prelude.{
  ℕ, ◌≤◌, Bool, true, false, Option, none, some, List, [], ◌∷◌, ◌++◌, ◌≡◌, refl, ap, ◌⊎◌, inl, inr,
  arith, if◌then◌else◌, Bool-cases,
}
use sannad.Prelude.Int.{codes}
use sannad.Prelude.Texts.{Text, is_empty}
use sannad.Storage.Adapter.{
  Operator, equal, not_equal, greater_than, greater_equal, less_than, less_equal, like, in_list,
  other, Condition, Error, unsupported_operator, unconditional, valid_characters, valid_field_name,
  operator_text, fragment, build_condition, cons_condition, apply, Answer, Result, refused, Engine,
  translated, on_query, update, delete,
}

-- A letter of ASCII or an underscore.
abbrev pub IsNameStart : ℕ → Type 0
IsNameStart c = ((97 ≤ c) × (c ≤ 122)) ⊎ (((65 ≤ c) × (c ≤ 90)) ⊎ (c ≡ 95))

-- Letters, digits and underscores, of which the first is no digit.
abbrev Word : Text → Type 0
Word [] = Unit
Word (c ∷ cs) = (IsNameStart c ⊎ ((48 ≤ c) × (c ≤ 57))) × Word cs

abbrev pub Identifier : Text → Type 0
Identifier [] = ⊥
Identifier (c ∷ cs) = IsNameStart c × Word cs

valid_characters-Word : (cs : Text) → valid_characters true cs ≡ true → Word cs
unfolding valid_characters
valid_characters-Word [] h = tt
valid_characters-Word (c ∷ cs) h = (ground (arith, h), valid_characters-Word cs (ground (arith, h)))

valid_field_name-Identifier : (field : Text) → valid_field_name field ≡ true → Identifier field
unfolding valid_field_name valid_characters
valid_field_name-Identifier [] h = absurd (cc h)
valid_field_name-Identifier (c ∷ cs) h =
    (ground (arith, h), valid_characters-Word cs (ground (arith, h)))

-- How SQL spells the operators of the SDK; any other text spells none.
abbrev pub Spells : Operator → Text → Type 0
Spells equal op = op ≡ codes "="
Spells not_equal op = op ≡ codes "<>"
Spells greater_than op = op ≡ codes ">"
Spells greater_equal op = op ≡ codes ">="
Spells less_than op = op ≡ codes "<"
Spells less_equal op = op ≡ codes "<="
Spells like op = op ≡ codes "LIKE"
Spells in_list op = op ≡ codes "IN"
Spells (other text) op = ⊥

operator_text-Spells : (o : Operator) (op : Text) → operator_text o ≡ some op → Spells o op
operator_text-Spells equal op h = cc h
operator_text-Spells not_equal op h = cc h
operator_text-Spells greater_than op h = cc h
operator_text-Spells greater_equal op h = cc h
operator_text-Spells less_than op h = cc h
operator_text-Spells less_equal op h = cc h
operator_text-Spells like op h = cc h
operator_text-Spells in_list op h = cc h
operator_text-Spells (other text) op h = absurd (cc h)

module _ {V : Type 0} where
  -- A fragment is the column, the operator's text and a placeholder, with the condition's value.
  abbrev pub Renders : Condition V → Text × V → Type 0
  Renders c f =
      Identifier c.field
      × ((op : Text) × Spells c.op op × (f ≡ (c.field ++ 32 ∷ op ++ codes " ?", c.value)))

  abbrev pub AllRender : List (Condition V) → List (Text × V) → Type 0
  AllRender [] [] = Unit
  AllRender [] (f ∷ fs) = ⊥
  AllRender (c ∷ cs) [] = ⊥
  AllRender (c ∷ cs) (f ∷ fs) = Renders c f × AllRender cs fs

  build_condition-Renders :
      (c : Condition V) (f : Text × V) → build_condition c ≡ some f → Renders c f
  unfolding build_condition
  build_condition-Renders c f = elim (Bool-cases (valid_field_name c.field)) [
    | inl e ↦ rw e (go (operator_text c.op) refl (valid_field_name-Identifier c.field e))
    | inr e ↦ rw e (λ h. absurd (cc h))
  ]
    where
      go :
          (op : Option Text)
          → operator_text c.op ≡ op
          → Identifier c.field
          → fragment c.field c.value op ≡ some f
          → Renders c f
      go none e named h = absurd (cc h)
      go (some op) e named h = (named, (op, operator_text-Spells c.op op e, cc h))

  apply-AllRender :
      (cs : List (Condition V)) (fs : List (Text × V)) → apply cs ≡ some fs → AllRender cs fs
  unfolding apply
  apply-AllRender [] [] h = tt
  apply-AllRender [] (f ∷ fs) h = absurd (cc h)
  apply-AllRender (c ∷ cs) fs h =
      go (build_condition c) (apply cs) fs (λ f e. build_condition-Renders c f e)
        (λ gs e. apply-AllRender cs gs e) h
    where
      go :
          (b : Option (Text × V)) (rest : Option (List (Text × V))) (fs : List (Text × V))
          → ((f : Text × V) → b ≡ some f → Renders c f)
          → ((gs : List (Text × V)) → rest ≡ some gs → AllRender cs gs)
          → cons_condition b rest ≡ some fs
          → AllRender (c ∷ cs) fs
      go none rest fs k l h = absurd (cc h)
      go (some f) none fs k l h = absurd (cc h)
      go (some f) (some gs) [] k l h = absurd (cc h)
      go (some f) (some gs) (g ∷ hs) k l h =
          let one : f ≡ g = cc h in
          let more : gs ≡ hs = cc h in (k g (ap (λ x. some x) one), l hs (ap (λ x. some x) more))

-- What becomes of a call that must have a condition: it is refused and the engine is not asked, or
-- the engine is asked with conditions that are rendered.
abbrev pub Guarded :
    {V S A : Type 0}
    → List (Condition V)
    → (List (Text × V) → S → Answer A × S)
    → S
    → Result A × S
    → Type 0
Guarded {V = V} cs call s r =
    ((e : Error) × (r ≡ (refused e, s)))
    ⊎ ((query : List (Text × V)) × (is_empty cs ≡ false)
        × AllRender cs query
        × (r ≡ translated (call query s)))

on_query-Guarded :
    {V S A : Type 0} (cs : List (Condition V)) (call : List (Text × V) → S → Answer A × S) (s : S)
    → is_empty cs ≡ false
    → Guarded cs call s (on_query (apply cs) call s)
on_query-Guarded {V = V} {S = S} {A = A} cs call s some_condition = go (apply cs) refl
  where
    go : (r : Option (List (Text × V))) → apply cs ≡ r → Guarded cs call s (on_query r call s)
    go none e = inl (unsupported_operator, refl)
    go (some query) e = inr (query, some_condition, apply-AllRender cs query e, refl)

checked :
    {V S A : Type 0} (cs : List (Condition V)) (call : List (Text × V) → S → Answer A × S) (s : S)
    (b : Bool)
    → is_empty cs ≡ b
    → Guarded cs call s (if b then (refused unconditional, s) else on_query (apply cs) call s)
checked cs call s true e = inl (unconditional, refl)
checked cs call s false e = on_query-Guarded cs call s e

-- An update or a delete is refused without asking the engine, or the engine is asked with at least
-- one condition, all of them rendered from bare column names, the eight operators of the SDK as SQL spells them, and placeholders, with
-- the values bound in their order.
pub update-Guarded :
    {V D M R S : Type 0} (e : Engine V D M R S) (model : M) (cs : List (Condition V)) (s : S)
    → Guarded cs (λ query t. e.update model query t) s (update e model cs s)
      × Guarded cs (λ query t. e.delete model query t) s (delete e model cs s)
unfolding update delete
update-Guarded e model cs s = (
  checked cs (λ query t. e.update model query t) s (is_empty cs) refl,
  checked cs (λ query t. e.delete model query t) s (is_empty cs) refl,
)
