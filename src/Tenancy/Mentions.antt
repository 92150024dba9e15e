-- ===== src/Tenancy/Mentions.antt =====
-- Where one text stands in another, and the test for it.
use sannad.Prelude.{true, [], ◌∷◌, ◌++◌, ◌≡◌, ◌≢◌, refl, ◌↔◌, inl, inr, ◌||◌, ap, arith, Bool-cases}
use sannad.Prelude.Texts.{Text, is_empty, starts_with}
use sannad.Tenancy.Scope.{contains}

abbrev pub Begins : Text → Text → Type 0
Begins s part = (after : Text) × (s ≡ part ++ after)

-- The text `part` stands in `s`.
abbrev pub Occurs : Text → Text → Type 0
Occurs s part = (before : Text) × (after : Text) × (s ≡ before ++ (part ++ after))

starts_with-Begins : (s part : Text) → (starts_with s part ≡ true) ↔ Begins s part
unfolding starts_with
starts_with-Begins s [] = (λ h. (s, refl), λ h. refl)
starts_with-Begins [] (p ∷ part) = (λ h. absurd (cc h), λ (after, e). absurd (cc e))
starts_with-Begins (c ∷ s) (p ∷ part) =
    let (there, back) = starts_with-Begins s part in
    (
      λ h.
          let first : c ≡ p = ground (arith, h) in
          let (after, e) = there (ground (arith, h)) in (after, cc (first, e)),
      λ (after, e).
          let first : c ≡ p = cc e in
          let rest : s ≡ part ++ after = cc e in ground (arith, first, back (after, rest)),
    )

empty_Occurs : (part : Text) → (is_empty part ≡ true) ↔ Occurs [] part
empty_Occurs [] = (λ h. ([], [], refl), λ h. refl)
empty_Occurs (p ∷ part) = (λ h. absurd (cc h), λ (before, after, e). absurd (none before after e))
  where
    none : (before after : Text) → [] ≢ before ++ (p ∷ part ++ after)
    none [] after e = absurd (cc e)
    none (b ∷ before) after e = absurd (cc e)

-- The test answers whether the one text stands in the other.
pub contains-Occurs : (s part : Text) → (contains s part ≡ true) ↔ Occurs s part
unfolding contains
contains-Occurs [] part = empty_Occurs part
contains-Occurs (c ∷ s) part =
    let (there, back) = contains-Occurs s part in
    let (begins, starts) = starts_with-Begins (c ∷ s) part in
    (
      λ h. elim (Bool-cases (starts_with (c ∷ s) part)) [
        | inl e ↦ let (after, k) = begins e in ([], after, k)
        | inr e ↦
            let (before, after, k) = there (ground (arith, h, e)) in
            (c ∷ before, after, ap (λ x. c ∷ x) k)
      ],
      λ (before, after, k). placed before after k starts back,
    )
  where
    placed :
        (before after : Text)
        → c ∷ s ≡ before ++ (part ++ after)
        → (Begins (c ∷ s) part → starts_with (c ∷ s) part ≡ true)
        → (Occurs s part → contains s part ≡ true)
        → (starts_with (c ∷ s) part || contains s part) ≡ true
    placed [] after k starts back = rw (starts (after, k)) refl
    placed (b ∷ before) after k starts back =
        let rest : s ≡ before ++ (part ++ after) = cc k in
        let found : contains s part ≡ true = back (before, after, rest) in ground (arith, found)
