-- ===== src/Storage/Adapter.antt =====
-- The adapter (internal/platform/storage/gorm.go) over an engine, which is outside: what the engine
-- is asked, and its errors as the SDK names them.
use sannad.Prelude.{
  ℕ, Bool, true, false, Option, none, some, List, [], ◌∷◌, ◌++◌, ◌&&◌, ◌||◌, ◌==◌, leb, not,
  if◌then◌else◌,
}
use sannad.Prelude.Int.{codes}
use sannad.Prelude.Texts.{Text, is_empty}

-- Operators are strings in the source, so a condition may hold another value.
pub data Operator : Type 0 where
  equal not_equal greater_than greater_equal less_than less_equal like in_list : Operator
  other : Text → Operator

pub record Condition (V : Type 0) : Type 0 where
  pub field : Text
  pub op : Operator
  pub value : V

-- The errors of the engine, by what errors.Is sees.
pub data EngineError : Type 0 where
  record_not_found duplicated_key : EngineError
  failure : Text → EngineError

pub data Error : Type 0 where
  unsupported_operator unconditional not_found duplicate : Error
  engine : Text → Error

abbrev pub is_letter : ℕ → Bool
is_letter c = leb 97 c && leb c 122 || leb 65 c && leb c 90

abbrev pub is_digit : ℕ → Bool
is_digit c = leb 48 c && leb c 57

-- `inside` says that the character is not the first.
unfoldable pub valid_characters : Bool → Text → Bool
valid_characters inside [] = true
valid_characters inside (c ∷ cs) =
    (is_letter c || c == 95 || is_digit c && inside) && valid_characters true cs

unfoldable pub valid_field_name : Text → Bool
unfolding valid_characters
valid_field_name field = not (is_empty field) && valid_characters false field

abbrev pub operator_text : Operator → Option Text
operator_text equal = some (codes "=")
operator_text not_equal = some (codes "<>")
operator_text greater_than = some (codes ">")
operator_text greater_equal = some (codes ">=")
operator_text less_than = some (codes "<")
operator_text less_equal = some (codes "<=")
operator_text like = some (codes "LIKE")
operator_text in_list = some (codes "IN")
operator_text (other op) = none

module _ {V : Type 0} where
  abbrev pub fragment : Text → V → Option Text → Option (Text × V)
  fragment field value none = none
  fragment field value (some op) = some (field ++ 32 ∷ op ++ codes " ?", value)

  -- The fragment of SQL and the value that is bound to it; none is ErrUnsupportedOperator.
  unfoldable pub build_condition : Condition V → Option (Text × V)
  unfolding valid_field_name
  build_condition c =
      if not (valid_field_name c.field) then none else fragment c.field c.value (operator_text c.op)

  abbrev pub cons_condition :
      Option (Text × V) → Option (List (Text × V)) → Option (List (Text × V))
  cons_condition none rest = none
  cons_condition (some f) none = none
  cons_condition (some f) (some fs) = some (f ∷ fs)

  -- The WHERE of a query, or none at the first condition that cannot be built.
  unfoldable pub apply : List (Condition V) → Option (List (Text × V))
  unfolding build_condition
  apply [] = some []
  apply (c ∷ cs) = cons_condition (build_condition c) (apply cs)

-- What the engine answers.
pub data Answer (A : Type 0) : Type 0 where
  ok : A → Answer A
  err : EngineError → Answer A

pub data Result (A : Type 0) : Type 0 where
  done : A → Result A
  refused : Error → Result A

unfoldable pub translate_error : EngineError → Error
translate_error record_not_found = not_found
translate_error duplicated_key = duplicate
translate_error (failure text) = engine text

-- The engine, with the tenant isolation installed: `D` is what a query reads into or names, `M` a
-- model and the changes to it.
pub record Engine (V D M R S : Type 0) : Type 0 where
  pub find : D → List (Text × V) → S → Answer R × S
  pub first : D → List (Text × V) → S → Answer R × S
  pub count : D → List (Text × V) → S → Answer ℕ × S
  pub create : M → S → Answer R × S
  pub update : M → List (Text × V) → S → Answer R × S
  pub delete : M → List (Text × V) → S → Answer R × S

module _ {S A : Type 0} where
  abbrev pub translated : Answer A × S → Result A × S
  translated (ok a, s) = (done a, s)
  translated (err e, s) = (refused (translate_error e), s)

module _ {V S A : Type 0} where
  abbrev pub on_query :
      Option (List (Text × V)) → (List (Text × V) → S → Answer A × S) → S → Result A × S
  on_query none call s = (refused unsupported_operator, s)
  on_query (some query) call s = translated (call query s)

module _ {V D M R S : Type 0} where
  unfoldable pub find : Engine V D M R S → D → List (Condition V) → S → Result R × S
  unfolding apply translate_error
  find e dest conditions s = on_query (apply conditions) (λ query. e.find dest query) s

  unfoldable pub first : Engine V D M R S → D → List (Condition V) → S → Result R × S
  unfolding apply translate_error
  first e dest conditions s = on_query (apply conditions) (λ query. e.first dest query) s

  unfoldable pub count : Engine V D M R S → D → List (Condition V) → S → Result ℕ × S
  unfolding apply translate_error
  count e model conditions s = on_query (apply conditions) (λ query. e.count model query) s

  unfoldable pub create : Engine V D M R S → M → S → Result R × S
  unfolding translate_error
  create e value s = translated (e.create value s)

  unfoldable pub update : Engine V D M R S → M → List (Condition V) → S → Result R × S
  unfolding apply translate_error
  update e model conditions s =
      if is_empty conditions
      then (refused unconditional, s)
      else on_query (apply conditions) (λ query. e.update model query) s

  unfoldable pub delete : Engine V D M R S → M → List (Condition V) → S → Result R × S
  unfolding apply translate_error
  delete e model conditions s =
      if is_empty conditions
      then (refused unconditional, s)
      else on_query (apply conditions) (λ query. e.delete model query) s
