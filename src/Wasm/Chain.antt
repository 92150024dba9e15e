-- ===== src/Wasm/Chain.antt =====
-- The chain of WebAssembly capabilities that are being served (Plugin.Handler in
-- internal/kernel/wasmhost/host.go).
use sannad.Prelude.{
  ℕ, Bool, false, List, [], ◌∷◌, ◌++◌, ◌≡◌, refl, suc, ◌+◌, ◌<◌, ◌≤◌, ◌%◌, ◌||◌, leb, length,
  length-append, if◌then◌else◌, Bool-cases, inl, inr, arith,
}
use sannad.Prelude.Texts.{Text, same}
use sannad.Wasm.Abi.{word}

-- slices.Contains
unfoldable pub contains : Text → List Text → Bool
unfolding same
contains name [] = false
contains name (other ∷ names) = same other name || contains name names

pub data Admission : Type 0 where
  call_cycle call_depth_exceeded : Admission
  admitted : List Text → Admission

-- The chain with which a capability is served, or why it is not served.
unfoldable pub admit : ℕ → Text → List Text → Admission
unfolding contains
admit max_depth name chain =
    if contains name chain
    then call_cycle
    else if leb max_depth (length chain % word)
    then call_depth_exceeded
    else admitted (chain ++ name ∷ [])

-- Capabilities that are served one inside the other: the depth limit of each one's plugin, and its
-- key. Of an entry that is refused, nothing is served.
abbrev and_then : Admission → (List Text → Admission) → Admission
and_then call_cycle f = call_cycle
and_then call_depth_exceeded f = call_depth_exceeded
and_then (admitted chain) f = f chain

unfoldable pub admit_all : List (ℕ × Text) → List Text → Admission
admit_all [] chain = admitted chain
admit_all (entry ∷ entries) chain =
    and_then (admit entry.0 entry.1 chain) (λ longer. admit_all entries longer)

abbrev pub Distinct : List Text → Type 0
Distinct [] = Unit
Distinct (name ∷ names) = (contains name names ≡ false) × Distinct names

abbrev Limited : ℕ → List (ℕ × Text) → Type 0
Limited limit [] = Unit
Limited limit (entry ∷ entries) = (entry.0 ≤ limit) × Limited limit entries

contains-append :
    (name other : Text) (names : List Text)
    → contains name names ≡ false
    → same other name ≡ false
    → contains name (names ++ other ∷ []) ≡ false
unfolding contains
contains-append name other [] h k = rw k refl
contains-append name other (first ∷ names) h k =
    ground (arith, contains-append name other names, h, k)

pub same_sym : (s t : Text) → same s t ≡ same t s
unfolding same
same_sym [] [] = refl
same_sym [] (b ∷ t) = refl
same_sym (a ∷ s) [] = refl
same_sym (a ∷ s) (b ∷ t) = ground (arith, same_sym s t)

append-Distinct :
    (name : Text) (names : List Text)
    → Distinct names
    → contains name names ≡ false
    → Distinct (names ++ name ∷ [])
unfolding contains
append-Distinct name [] d h = (refl, tt)
append-Distinct name (first ∷ names) d h =
    let apart : same first name ≡ false = ground (arith, h) in
    let away : contains name names ≡ false = ground (arith, h) in
    (
      contains-append first name names d.0 (rw (same_sym name first) apart),
      append-Distinct name names d.1 away,
    )

-- What one entry leaves: a chain without repetition that is one longer and within the limit.
Grown : ℕ → List Text → Admission → Type 0
Grown limit chain r =
    (longer : List Text)
    → r ≡ admitted longer
    → Distinct longer × (length longer ≡ length chain + 1) × (length longer ≤ limit)

admit-Grown :
    (limit depth : ℕ) (name : Text) (chain : List Text)
    → depth ≤ limit
    → limit < word
    → length chain ≤ limit
    → Distinct chain
    → Grown limit chain (admit depth name chain)
unfolding admit Grown
admit-Grown limit depth name chain within small long d = elim (Bool-cases (contains name chain)) [
  | inl e ↦ rw e (λ longer h. absurd (cc h))
  | inr e ↦ elim (Bool-cases (leb depth (length chain % word))) [
    | inl k ↦ rw (e, k) (λ longer h. absurd (cc h))
    | inr k ↦
        rw (e, k)
          (λ longer h.
            let same_chain : chain ++ name ∷ [] ≡ longer = cc h in
            let size : length (chain ++ name ∷ []) ≡ length chain + 1 =
              length-append chain (name ∷ []) in
            rw (← same_chain) (append-Distinct name chain d e, size, ground (arith, size, k)))
  ]
]

grow :
    (limit : ℕ) (entries : List (ℕ × Text)) (start chain : List Text)
    → limit < word
    → Distinct start
    → length start ≤ limit
    → Limited limit entries
    → admit_all entries start ≡ admitted chain
    → Distinct chain × (length chain ≡ length start + length entries) × (length chain ≤ limit)
unfolding admit_all Grown
grow limit [] start chain small d bound within h =
    let same_chain : start ≡ chain = cc h in rw (← same_chain) (d, omega arith, bound)
grow limit (entry ∷ entries) start chain small d bound within h =
    next (admit entry.0 entry.1 start)
      (admit-Grown limit entry.0 entry.1 start within.0 small bound d)
      (λ longer d bound h. grow limit entries longer chain small d bound within.1 h) h
  where
    next :
        (r : Admission)
        → Grown limit start r
        → ((longer : List Text)
            → Distinct longer
            → length longer ≤ limit
            → admit_all entries longer ≡ admitted chain
            → Distinct chain
              × (length chain ≡ length longer + length entries)
              × (length chain ≤ limit))
        → and_then r (λ longer. admit_all entries longer) ≡ admitted chain
        → Distinct chain
          × (length chain ≡ length start + suc (length entries))
          × (length chain ≤ limit)
    next call_cycle g rest h = absurd (cc h)
    next call_depth_exceeded g rest h = absurd (cc h)
    next (admitted longer) g rest h =
        let (d, size, bound) = g longer refl in
        let (all, whole, short) = rest longer d bound h in (all, omega (arith, whole, size), short)

-- However capabilities are served one inside the other, starting outside any, where no plugin's
-- depth limit exceeds `limit` and `limit` is a uint32: the chain of the innermost one repeats no
-- key and has one key for each entry, so no more than `limit` are ever nested.
pub admit_all-bounded :
    (limit : ℕ) (entries : List (ℕ × Text)) (chain : List Text)
    → limit < word
    → Limited limit entries
    → admit_all entries [] ≡ admitted chain
    → Distinct chain × (length chain ≡ length entries) × (length entries ≤ limit)
admit_all-bounded limit entries chain small within h =
    let (d, size, bound) = grow limit entries [] chain small tt (omega arith) within h in
    (d, omega (arith, size), omega (arith, size, bound))
