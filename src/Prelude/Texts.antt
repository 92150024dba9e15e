-- ===== src/Prelude/Texts.antt =====
-- Texts that are taken apart: lists of code points.
use mathlib.Core.Path.{◌≡◌, refl}
use mathlib.Core.Bool.{Bool, true, false, ◌&&◌}
use sannad.Prelude.{ℕ, List, [], ◌∷◌, ◌==◌, if◌then◌else◌, arith}

abbrev pub Text : Type 0
Text = List ℕ

unfoldable pub same : Text → Text → Bool
same [] [] = true
same [] (b ∷ t) = false
same (a ∷ s) [] = false
same (a ∷ s) (b ∷ t) = a == b && same s t

pub same_refl : (s : Text) → same s s ≡ true
unfolding same
same_refl [] = refl
same_refl (a ∷ s) = ground (arith, same_refl s)

pub same_sound : (s t : Text) → same s t ≡ true → s ≡ t
unfolding same
same_sound [] [] h = refl
same_sound [] (b ∷ t) h = absurd (cc h)
same_sound (a ∷ s) [] h = absurd (cc h)
same_sound (a ∷ s) (b ∷ t) h =
    let rest : s ≡ t = same_sound s t (ground (arith, h)) in
    let first : a ≡ b = ground (arith, h) in cc (first, rest)

abbrev pub is_empty {ℓ} : {A : Type ℓ} → List A → Bool
is_empty [] = true
is_empty (_ ∷ _) = false

abbrev pub extend : ℕ → List Text → List Text
extend c [] = (c ∷ []) ∷ []
extend c (part ∷ parts) = (c ∷ part) ∷ parts

-- strings.Split(s, sep), for a separator of one character
unfoldable pub split : ℕ → Text → List Text
split sep [] = [] ∷ []
split sep (c ∷ cs) = let parts = split sep cs in if c == sep then [] ∷ parts else extend c parts

-- strings.HasPrefix
unfoldable pub starts_with : Text → Text → Bool
starts_with text [] = true
starts_with [] (d ∷ ds) = false
starts_with (c ∷ cs) (d ∷ ds) = c == d && starts_with cs ds
