-- ===== src/Events/Isolation.antt =====
-- A subject belongs to one tenant.
use mathlib.Core.List.{append_assoc}
use sannad.Prelude.{ℕ, true, false, some, ◌↔◌, [], ◌∷◌, ◌++◌, ◌≡◌, refl, sym, ap, ◌∙◌, arith}
use sannad.Prelude.Int.{codes}
use sannad.Prelude.Texts.{Text, is_empty}
use sannad.Events.Subject.{
  ok, dot, subject_prefix, has_reserved, valid_token, subject_for, tenant_subjects, cut, with_first,
  with_rest, second_of, tenant_of,
}

cut-append : (s rest : Text) → has_reserved s ≡ false → cut (s ++ dot ∷ rest) ≡ some (s, rest)
unfolding cut has_reserved
cut-append [] rest h = refl
cut-append (c ∷ s) rest h = ground (arith, cut-append s rest)

valid_token-parts :
    (s : Text) → valid_token s ≡ true → (is_empty s ≡ false) × (has_reserved s ≡ false)
unfolding valid_token
valid_token-parts s h = (ground arith, ground arith)

cut-prefix : (rest : Text) → cut (subject_prefix ++ dot ∷ rest) ≡ some (subject_prefix, rest)
unfolding cut
cut-prefix rest = refl

tenant_of-tenant :
    (tenant rest : Text)
    → valid_token tenant ≡ true
    → tenant_of (subject_prefix ++ dot ∷ tenant ++ dot ∷ rest) ≡ some tenant
unfolding tenant_of
tenant_of-tenant tenant rest h =
    let (filled, plain) = valid_token-parts tenant h in
    ap (λ c. second_of (with_rest c)) (cut-prefix (tenant ++ dot ∷ rest))
    ∙ (ap (λ c. second_of (with_first subject_prefix c)) (cut-append tenant rest plain)
        ∙ rw filled refl)

-- A subject that was built for a tenant gives that tenant back.
pub tenant_of-subject_for :
    (tenant event s : Text) → subject_for tenant event ≡ ok s → tenant_of s ≡ some tenant
unfolding subject_for
tenant_of-subject_for tenant event s h = ground (arith, tenant_of-tenant tenant event)

-- The subjects that the broker gives to a subscription whose filter ends in `>`: what stands before
-- the `>`, and more.
abbrev pub Takes : Text → Text → Type 0
Takes filter s =
    (head : Text) × (rest : Text) × (filter ≡ head ++ codes ">")
    × (s ≡ head ++ rest)
    × (is_empty rest ≡ false)

snoc-injective : (xs ys : Text) (c : ℕ) → xs ++ c ∷ [] ≡ ys ++ c ∷ [] → xs ≡ ys
snoc-injective [] [] c h = refl
snoc-injective [] (y ∷ []) c h = absurd (cc h)
snoc-injective [] (y ∷ z ∷ ys) c h = absurd (cc h)
snoc-injective (x ∷ []) [] c h = absurd (cc h)
snoc-injective (x ∷ z ∷ xs) [] c h = absurd (cc h)
snoc-injective (x ∷ xs) (y ∷ ys) c h =
    let first : x ≡ y = cc h in
    let rest : xs ≡ ys = snoc-injective xs ys c (cc h) in cc (first, rest)

subject_for-shape :
    (tenant event s : Text)
    → subject_for tenant event ≡ ok s
    → (s ≡ subject_prefix ++ dot ∷ tenant ++ dot ∷ event) × (is_empty event ≡ false)
unfolding subject_for
subject_for-shape tenant event s h = (ground (arith, h), ground (arith, h))

regrouped :
    (tenant rest : Text)
    → (subject_prefix ++ dot ∷ tenant ++ dot ∷ []) ++ rest
      ≡ subject_prefix ++ dot ∷ tenant ++ dot ∷ rest
regrouped tenant rest = ap (λ t. subject_prefix ++ dot ∷ t) (append_assoc tenant (dot ∷ []) rest)

tenant_subjects-shape :
    (other filter : Text)
    → tenant_subjects other ≡ ok filter
    → (filter ≡ (subject_prefix ++ dot ∷ other ++ dot ∷ []) ++ codes ">")
      × (valid_token other ≡ true)
unfolding tenant_subjects
tenant_subjects-shape other filter h =
    let raw : filter ≡ subject_prefix ++ dot ∷ other ++ dot ∷ 62 ∷ [] = ground (arith, h) in
    (raw ∙ sym (regrouped other (codes ">")), ground (arith, h))

-- A subject built for a tenant is given to a subscription with the filter of a tenant exactly where
-- the two tenants are the same.
pub subject_for-tenant_subjects :
    (tenant other event s filter : Text)
    → subject_for tenant event ≡ ok s
    → tenant_subjects other ≡ ok filter
    → Takes filter s ↔ (tenant ≡ other)
subject_for-tenant_subjects tenant other event s filter h k =
    let (shape, some_event) = subject_for-shape tenant event s h in
    let (filtered, valid) = tenant_subjects-shape other filter k in
    (
      λ (head, rest, ends, under, more).
          let same : head ≡ subject_prefix ++ dot ∷ other ++ dot ∷ [] =
            snoc-injective head _ 62 (sym ends ∙ filtered) in
          let below : s ≡ subject_prefix ++ dot ∷ other ++ dot ∷ rest =
            under ∙ (ap (λ t. t ++ rest) same ∙ regrouped other rest) in
          let both : some tenant ≡ some other =
            sym (tenant_of-subject_for tenant event s h)
            ∙ (ap tenant_of below ∙ tenant_of-tenant other rest valid) in
          cc both,
      λ same. (
        subject_prefix ++ dot ∷ other ++ dot ∷ [],
        event,
        filtered,
        shape
            ∙ (ap (λ t. subject_prefix ++ dot ∷ t ++ dot ∷ event) same
                ∙ sym (regrouped other event)),
        some_event,
      ),
    )
