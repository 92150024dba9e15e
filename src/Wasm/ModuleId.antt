-- ===== src/Wasm/ModuleId.antt =====
-- The version table of a module's migrations (pkg/modulekit/migrations.go). The regular expression
-- `^[a-z0-9]+([.-][a-z0-9]+)*$` is read as the automaton with two states that accepts its language.
use sannad.Prelude.{
  ℕ, Bool, true, false, Option, none, some, [], ◌∷◌, ◌++◌, ◌≡◌, refl, ap, ◌≤◌, ◌+◌, ◌&&◌, ◌||◌,
  ◌==◌, leb, ltb, not, length, map, arith, if◌then◌else◌, Bool-cases, inl, inr,
}
use sannad.Prelude.Int.{codes}
use sannad.Prelude.Texts.{Text, is_empty}

-- [a-z0-9]
abbrev pub is_id_character : ℕ → Bool
is_id_character c = leb 97 c && leb c 122 || leb 48 c && leb c 57

abbrev is_separator : ℕ → Bool
is_separator c = c == 46 || c == 45

-- `inside` says that the character before is one of a segment.
unfoldable pub in_pattern : Bool → Text → Bool
in_pattern inside [] = inside
in_pattern inside (c ∷ cs) =
    let later = in_pattern true cs in
    let after = in_pattern false cs in
    if is_id_character c then later else is_separator c && inside && after

-- strings.NewReplacer(".", "_", "-", "_")
abbrev safe : ℕ → ℕ
safe c = if is_separator c then 95 else c

abbrev prefix : Text
prefix = codes "schema_version_"

-- None is an error.
unfoldable pub migration_table_for : Text → Option Text
unfolding in_pattern
migration_table_for module_id =
    let name = prefix ++ map safe module_id in
    if is_empty module_id
    then none
    else if not (in_pattern false module_id)
    then none
    else if ltb 63 (length name)
    then none
    else some name

-- Every character is one of [a-z0-9_].
abbrev pub Plain : Text → Type 0
Plain [] = Unit
Plain (c ∷ cs) = ((is_id_character c || c == 95) ≡ true) × Plain cs

is_plain : Text → Bool
is_plain [] = true
is_plain (c ∷ cs) = (is_id_character c || c == 95) && is_plain cs

append-Plain : (a b : Text) → is_plain a ≡ true → Plain b → Plain (a ++ b)
unfolding is_plain
append-Plain [] b h k = k
append-Plain (c ∷ a) b h k = (ground (arith, h), append-Plain a b (ground (arith, h)) k)

prefix-is_plain : is_plain prefix ≡ true
unfolding is_plain
prefix-is_plain = refl

length-map : (t : Text) → length (map safe t) ≡ length t
length-map [] = refl
length-map (c ∷ cs) = omega (arith, length-map cs)

in_pattern-Plain : (inside : Bool) (t : Text) → in_pattern inside t ≡ true → Plain (map safe t)
unfolding in_pattern
in_pattern-Plain inside [] h = tt
in_pattern-Plain inside (c ∷ cs) h = elim (Bool-cases (is_id_character c)) [
  | inl e ↦
      let rest : in_pattern true cs ≡ true = ground (arith, h, e) in
      (ground (arith, e), in_pattern-Plain true cs rest)
  | inr e ↦
      let separator : is_separator c ≡ true = ground (arith, h, e) in
      let rest : in_pattern false cs ≡ true = ground (arith, h, e) in
      (rw separator refl, in_pattern-Plain false cs rest)
]

-- A dot and a hyphen are alike to the pattern.
in_pattern-swap :
    (inside : Bool) (before after : Text)
    → in_pattern inside (before ++ 46 ∷ after) ≡ in_pattern inside (before ++ 45 ∷ after)
unfolding in_pattern
in_pattern-swap inside [] after = refl
in_pattern-swap inside (c ∷ before) after =
    rw (in_pattern-swap true before after, in_pattern-swap false before after) refl

safe-swap :
    (before after : Text) → map safe (before ++ 46 ∷ after) ≡ map safe (before ++ 45 ∷ after)
safe-swap [] after = refl
safe-swap (c ∷ before) after = ap (λ t. safe c ∷ t) (safe-swap before after)

is_empty-append : (before after : Text) (c : ℕ) → is_empty (before ++ c ∷ after) ≡ false
is_empty-append [] after c = refl
is_empty-append (b ∷ before) after c = refl

accepted :
    (module_id name : Text)
    → migration_table_for module_id ≡ some name
    → (in_pattern false module_id ≡ true)
      × (prefix ++ map safe module_id ≡ name)
      × (ltb 63 (length (prefix ++ map safe module_id)) ≡ false)
unfolding migration_table_for
accepted module_id name h = ground (arith, h)

table-swap :
    (before after : Text)
    → migration_table_for (before ++ 46 ∷ after) ≡ migration_table_for (before ++ 45 ∷ after)
unfolding migration_table_for
table-swap before after =
    rw
      (
        is_empty-append before after 46,
        is_empty-append before after 45,
        in_pattern-swap false before after,
        safe-swap before after,
      )
      refl

-- A version table's name is an identifier of at most 63 characters out of [a-z0-9_]. But it does
-- not tell a dot in the module's ID from a hyphen: two IDs that differ in one have the same table.
pub migration_table_for-Plain :
    (module_id name before after : Text)
    → migration_table_for module_id ≡ some name
    → Plain name
      × (length name ≤ 63)
      × (length name ≡ 15 + length module_id)
      × (migration_table_for (before ++ 46 ∷ after) ≡ migration_table_for (before ++ 45 ∷ after))
migration_table_for-Plain module_id name before after h =
    let (matched, same_name, short) = accepted module_id name h in
    rw (← same_name) (
      append-Plain prefix (map safe module_id) prefix-is_plain
          (in_pattern-Plain false module_id matched),
      ground (arith, short),
      omega (arith, length-map module_id),
      table-swap before after,
    )
