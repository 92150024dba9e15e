-- ===== src/Prelude/Int.antt =====
-- Signed integers with their tests, and the order of texts.
use Prim.Native.Nat.{compare, Ordering}
use Prim.Native.Char.{code}
use sannad.Prelude.{ℕ, String, ◌≡◌, refl, Bool, true, false, List, [], ◌∷◌, arith, ltb}

-- `negsuc n` is -(n + 1).
pub data ℤ : Type 0 where
  pos : ℕ → ℤ
  negsuc : ℕ → ℤ

abbrev pub lt_ℤ : ℤ → ℤ → Bool
lt_ℤ (pos a) (pos b) = ltb a b
lt_ℤ (pos a) (negsuc b) = false
lt_ℤ (negsuc a) (pos b) = true
lt_ℤ (negsuc a) (negsuc b) = ltb b a

pub lt_ℤ_irrefl : (a : ℤ) → lt_ℤ a a ≡ false
lt_ℤ_irrefl (pos a) = ground arith
lt_ℤ_irrefl (negsuc a) = ground arith

pub lt_ℤ-asymm : (a b : ℤ) → lt_ℤ a b ≡ true → lt_ℤ b a ≡ false
lt_ℤ-asymm (pos a) (pos b) h = ground arith
lt_ℤ-asymm (pos a) (negsuc b) h = ground arith
lt_ℤ-asymm (negsuc a) (pos b) h = refl
lt_ℤ-asymm (negsuc a) (negsuc b) h = ground arith

pub lt_ℤ_trans : (a b c : ℤ) → lt_ℤ a b ≡ true → lt_ℤ b c ≡ true → lt_ℤ a c ≡ true
lt_ℤ_trans (pos a) (pos b) (pos c) h k = ground arith
lt_ℤ_trans (pos a) (pos b) (negsuc c) h k = ground arith
lt_ℤ_trans (pos a) (negsuc b) c h k = ground arith
lt_ℤ_trans (negsuc a) (pos b) (pos c) h k = refl
lt_ℤ_trans (negsuc a) (pos b) (negsuc c) h k = ground arith
lt_ℤ_trans (negsuc a) (negsuc b) (pos c) h k = refl
lt_ℤ_trans (negsuc a) (negsuc b) (negsuc c) h k = ground arith

-- The code points of a text, whose order is that of the bytes of its UTF-8.
abbrev pub codes : String → List ℕ
codes String.[] = []
codes (String.◌∷◌ c s) = code c ∷ codes s

unfoldable pub lt_codes : List ℕ → List ℕ → Bool
lt_codes [] [] = false
lt_codes [] (y ∷ ys) = true
lt_codes (x ∷ xs) [] = false
lt_codes (x ∷ xs) (y ∷ ys) =
    let rest = lt_codes xs ys in
    elim (compare x y) [ Ordering.lt ↦ true | Ordering.eq ↦ rest | Ordering.gt ↦ false ]

pub lt_codes-asymm : (xs ys : List ℕ) → lt_codes xs ys ≡ true → lt_codes ys xs ≡ false
unfolding lt_codes
lt_codes-asymm [] [] h = refl
lt_codes-asymm [] (y ∷ ys) h = refl
lt_codes-asymm (x ∷ xs) [] h = ground arith
lt_codes-asymm (x ∷ xs) (y ∷ ys) h = ground (arith, lt_codes-asymm xs ys)

pub lt_codes_trans :
    (xs ys zs : List ℕ) → lt_codes xs ys ≡ true → lt_codes ys zs ≡ true → lt_codes xs zs ≡ true
unfolding lt_codes
lt_codes_trans [] [] zs h k = ground arith
lt_codes_trans [] (y ∷ ys) [] h k = ground arith
lt_codes_trans [] (y ∷ ys) (z ∷ zs) h k = refl
lt_codes_trans (x ∷ xs) [] zs h k = ground arith
lt_codes_trans (x ∷ xs) (y ∷ ys) [] h k = ground arith
lt_codes_trans (x ∷ xs) (y ∷ ys) (z ∷ zs) h k = ground (arith, lt_codes_trans xs ys zs)

-- Go's `<` on strings.
abbrev pub lt_string : String → String → Bool
lt_string s t = lt_codes (codes s) (codes t)

-- What is not before, and not before that, is not before: both orders are total preorders.
pub lt_ℤ-negtrans : (a b c : ℤ) → lt_ℤ a b ≡ false → lt_ℤ b c ≡ false → lt_ℤ a c ≡ false
lt_ℤ-negtrans (pos a) (pos b) (pos c) h k = ground arith
lt_ℤ-negtrans (pos a) b (negsuc c) h k = refl
lt_ℤ-negtrans (pos a) (negsuc b) (pos c) h k = ground arith
lt_ℤ-negtrans (negsuc a) (pos b) c h k = ground arith
lt_ℤ-negtrans (negsuc a) (negsuc b) (pos c) h k = ground arith
lt_ℤ-negtrans (negsuc a) (negsuc b) (negsuc c) h k = ground arith

pub lt_ℤ-tie : (a b : ℤ) → lt_ℤ a b ≡ false → lt_ℤ b a ≡ false → a ≡ b
lt_ℤ-tie (pos a) (pos b) h k = ground arith
lt_ℤ-tie (pos a) (negsuc b) h k = ground arith
lt_ℤ-tie (negsuc a) (pos b) h k = ground arith
lt_ℤ-tie (negsuc a) (negsuc b) h k = ground arith

pub lt_codes-negtrans :
    (xs ys zs : List ℕ) → lt_codes xs ys ≡ false → lt_codes ys zs ≡ false → lt_codes xs zs ≡ false
unfolding lt_codes
lt_codes-negtrans [] [] [] h k = refl
lt_codes-negtrans [] [] (z ∷ zs) h k = ground arith
lt_codes-negtrans [] (y ∷ ys) zs h k = ground arith
lt_codes-negtrans (x ∷ xs) [] [] h k = refl
lt_codes-negtrans (x ∷ xs) [] (z ∷ zs) h k = ground arith
lt_codes-negtrans (x ∷ xs) (y ∷ ys) [] h k = refl
lt_codes-negtrans (x ∷ xs) (y ∷ ys) (z ∷ zs) h k = ground (arith, lt_codes-negtrans xs ys zs)
