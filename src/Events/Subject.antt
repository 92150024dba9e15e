-- ===== src/Events/Subject.antt =====
-- The subject of an event (internal/kernel/events/subject.go).
use sannad.Prelude.{
  ℕ, Bool, true, false, Option, none, some, List, [], ◌∷◌, ◌++◌, ◌&&◌, ◌||◌, ◌==◌, not,
  if◌then◌else◌,
}
use sannad.Prelude.Int.{codes}
use sannad.Prelude.Texts.{Text, same, is_empty, split}

pub data Error : Type 0 where
  invalid_subject : Error

pub data Result : Type 0 where
  ok : Text → Result
  err : Error → Result

abbrev pub dot : ℕ
dot = 46

abbrev pub subject_prefix : Text
subject_prefix = codes "sannad"

-- The characters of ".*> \t".
abbrev is_reserved : ℕ → Bool
is_reserved c = c == dot || c == 42 || c == 62 || c == 32 || c == 9

-- strings.ContainsAny(value, ".*> \t")
unfoldable pub has_reserved : Text → Bool
has_reserved [] = false
has_reserved (c ∷ cs) = is_reserved c || has_reserved cs

unfoldable pub valid_token : Text → Bool
unfolding has_reserved
valid_token value = not (is_empty value) && not (has_reserved value)

unfoldable pub valid_segments : List Text → Bool
unfolding valid_token
valid_segments [] = true
valid_segments (segment ∷ segments) = valid_token segment && valid_segments segments

unfoldable pub subject_for : Text → Text → Result
unfolding valid_token valid_segments split
subject_for tenant_id event =
    if not (valid_token tenant_id)
    then err invalid_subject
    else if is_empty event
    then err invalid_subject
    else if not (valid_segments (split dot event))
    then err invalid_subject
    else ok (subject_prefix ++ dot ∷ tenant_id ++ dot ∷ event)

-- The tenant of the context, which is empty where there is none.
unfoldable pub subject : Text → Text → Result
unfolding subject_for
subject context_tenant event =
    if is_empty context_tenant then err invalid_subject else subject_for context_tenant event

unfoldable pub tenant_subjects : Text → Result
unfolding valid_token
tenant_subjects tenant_id =
    if valid_token tenant_id
    then ok (subject_prefix ++ dot ∷ tenant_id ++ dot ∷ 62 ∷ [])
    else err invalid_subject

unfoldable pub all_tenants_subject : Text → Result
all_tenants_subject event =
    if is_empty event then err invalid_subject else ok (subject_prefix ++ dot ∷ 42 ∷ dot ∷ event)

abbrev before_cut : ℕ → Option (Text × Text) → Option (Text × Text)
before_cut c none = none
before_cut c (some (head, rest)) = some (c ∷ head, rest)

-- What stands before and after the first dot.
unfoldable pub cut : Text → Option (Text × Text)
cut [] = none
cut (c ∷ cs) = let later = cut cs in if c == dot then some ([], cs) else before_cut c later

abbrev pub with_first : Text → Option (Text × Text) → Option (Text × Text × Text)
with_first first none = none
with_first first (some (second, third)) = some (first, second, third)

abbrev pub with_rest : Option (Text × Text) → Option (Text × Text × Text)
with_rest none = none
with_rest (some (first, rest)) = with_first first (cut rest)

-- The parts of strings.SplitN(subject, ".", 3), where there are three.
unfoldable pub three_parts : Text → Option (Text × Text × Text)
unfolding cut
three_parts subject = with_rest (cut subject)

abbrev pub second_of : Option (Text × Text × Text) → Option Text
second_of none = none
second_of (some (first, second, third)) =
    if not (same first subject_prefix) || is_empty second then none else some second

unfoldable pub tenant_of : Text → Option Text
unfolding three_parts same
tenant_of subject = second_of (three_parts subject)
