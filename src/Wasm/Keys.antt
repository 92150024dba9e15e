-- ===== src/Wasm/Keys.antt =====
-- The keys of capabilities (pkg/modulekit/module.go), and splitCapabilityKey of
-- internal/kernel/wasmhost/hostcalls.go.
use sannad.Prelude.{
  ℕ, true, false, Option, none, some, [], ◌∷◌, ◌++◌, ◌≡◌, refl, ◌==◌, ◌&&◌, not, arith,
  if◌then◌else◌,
}
use sannad.Prelude.Texts.{Text, is_empty}

pub record CapabilityRef : Type 0 where
  pub name : Text
  pub version : Text

-- The character `@`.
abbrev pub at_sign : ℕ
at_sign = 64

-- CapabilityRef.Key
unfoldable pub key : CapabilityRef → Text
key ref = ref.name ++ at_sign ∷ ref.version

abbrev around : ℕ → Text → Option (Text × Text) → Option (Text × Text)
around c cs none = if c == at_sign then some ([], cs) else none
around c cs (some (before, after)) = some (c ∷ before, after)

-- What stands before and after the last `@` (strings.LastIndexByte).
unfoldable pub cut_last : Text → Option (Text × Text)
cut_last [] = none
cut_last (c ∷ cs) = around c cs (cut_last cs)

abbrev accept : Option (Text × Text) → Option CapabilityRef
accept none = none
accept (some (name, version)) =
    if not (is_empty name) && not (is_empty version)
    then some (record { name = name; version = version })
    else none

-- None is the error "invalid capability reference".
unfoldable pub split_capability_key : Text → Option CapabilityRef
unfolding cut_last
split_capability_key text = accept (cut_last text)

abbrev NoAt : Text → Type 0
NoAt [] = Unit
NoAt (c ∷ cs) = (c == at_sign ≡ false) × NoAt cs

NoAt-cut_last : (t : Text) → NoAt t → cut_last t ≡ none
unfolding cut_last
NoAt-cut_last [] h = refl
NoAt-cut_last (c ∷ cs) h = rw (NoAt-cut_last cs h.1, h.0) refl

append-cut_last :
    (name version : Text)
    → NoAt version
    → cut_last (name ++ at_sign ∷ version) ≡ some (name, version)
unfolding cut_last
append-cut_last [] version h = rw (NoAt-cut_last version h) refl
append-cut_last (c ∷ cs) version h = rw (append-cut_last cs version h) refl

at_iff : (c : ℕ) → (c == at_sign) ≡ true → c ≡ at_sign
at_iff c h = ground (arith, h)

cut_last-append :
    (t before after : Text) → cut_last t ≡ some (before, after) → t ≡ before ++ at_sign ∷ after
unfolding cut_last
cut_last-append [] before after e = absurd (cc)
cut_last-append (c ∷ cs) before after e = go (cut_last cs) (λ h r eq. cut_last-append cs h r eq) e
  where
    go :
        (r : Option (Text × Text))
        → ((head rest : Text) → r ≡ some (head, rest) → cs ≡ head ++ at_sign ∷ rest)
        → around c cs r ≡ some (before, after)
        → c ∷ cs ≡ before ++ at_sign ∷ after
    go none ih e = ground (arith, e)
    go (some (head, rest)) ih e = ground (arith, ih head rest refl, e)

accept-key :
    (text : Text) (r : Option (Text × Text)) (ref : CapabilityRef)
    → cut_last text ≡ r
    → accept r ≡ some ref
    → key ref ≡ text
unfolding key
accept-key text none ref _ e = absurd (cc)
accept-key text (some (name, version)) ref eq e =
    ground (arith, cut_last-append text name version eq, e)

pub accepted-key :
    (text : Text) (ref : CapabilityRef) → split_capability_key text ≡ some ref → key ref ≡ text
unfolding split_capability_key
accepted-key text ref e = accept-key text (cut_last text) ref refl e

-- A reference whose name and version are not empty and whose version holds no `@` is what
-- splitCapabilityKey makes of its key; and whatever it accepts is a reference with that key.
pub split_capability_key-key :
    (ref : CapabilityRef) (text : Text)
    → is_empty ref.name ≡ false
    → is_empty ref.version ≡ false
    → NoAt ref.version
    → (split_capability_key (key ref) ≡ some ref)
      × ((other : CapabilityRef) → split_capability_key text ≡ some other → key other ≡ text)
unfolding split_capability_key key
split_capability_key-key ref text n v plain =
    (rw (append-cut_last ref.name ref.version plain, n, v) refl, accepted-key text)
