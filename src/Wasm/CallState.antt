-- ===== src/Wasm/CallState.antt =====
-- What one invocation of a guest has produced (`callState` in internal/kernel/wasmhost/hostcalls.go):
-- results under handles, and the last diagnostic. The mutex is left out: one guest makes its calls
-- one after another.
use sannad.Prelude.{
  ℕ, Bool, true, false, Option, none, some, List, [], ◌∷◌, ◌≡◌, refl, suc, ◌+◌, ◌%◌, ◌<◌, ◌≤◌, ◌==◌,
  leb, length, arith, if◌then◌else◌, Bool-cases, Option-cases, inl, inr, ◌⊎◌,
}
use sannad.Prelude.Texts.{Text}
use sannad.Wasm.Abi.{word}

pub record CallState : Type 0 where
  pub results : List (ℕ × Text)
  pub next_handle : ℕ
  pub last_error : Text

abbrev pub new_call_state : CallState
new_call_state = record { results = []; next_handle = 0; last_error = [] }

-- s.results[handle]
unfoldable pub find : ℕ → List (ℕ × Text) → Option Text
find handle [] = none
find handle (entry ∷ m) = if entry.0 == handle then some entry.1 else find handle m

-- s.results[handle] = value
unfoldable pub put : ℕ → Text → List (ℕ × Text) → List (ℕ × Text)
put handle value [] = (handle, value) ∷ []
put handle value (entry ∷ m) =
    if entry.0 == handle then (handle, value) ∷ m else entry ∷ put handle value m

-- delete(s.results, handle)
unfoldable pub remove : ℕ → List (ℕ × Text) → List (ℕ × Text)
remove handle [] = []
remove handle (entry ∷ m) =
    let rest = remove handle m in if entry.0 == handle then rest else entry ∷ rest

-- The handle under which `value` now stands, or none where `max` results are open.
unfoldable pub store : Text → ℕ → CallState → Option ℕ × CallState
unfolding put
store value max s =
    let next = (s.next_handle + 1) % word in
    if leb max (length s.results % word)
    then (none, s)
    else (some next, record s { next_handle = next; results = put next value s.results })

unfoldable pub get : ℕ → CallState → Option Text
unfolding find
get handle s = find handle s.results

abbrev pub known : Option Text → Bool
known none = false
known (some value) = true

unfoldable pub drop_result : ℕ → CallState → Bool × CallState
unfolding find remove
drop_result handle s =
    if known (find handle s.results)
    then (true, record s { results = remove handle s.results })
    else (false, s)

unfoldable pub set_err : Text → CallState → CallState
set_err message s = record s { last_error = message }

-- Every handle in use has been given out, and none twice: all are at most `n`, and each stands for
-- one entry.
abbrev pub Handles : ℕ → List (ℕ × Text) → Type 0
Handles n [] = Unit
Handles n (entry ∷ m) = (0 < entry.0) × (entry.0 ≤ n) × (find entry.0 m ≡ none) × Handles n m

abbrev pub WellFormed : CallState → Type 0
WellFormed s = (s.next_handle < word) × Handles s.next_handle s.results

Handles-weaken : (n k : ℕ) (m : List (ℕ × Text)) → n ≤ k → Handles n m → Handles k m
Handles-weaken n k [] le h = tt
Handles-weaken n k (entry ∷ m) le h = (h.0, omega (arith, h.1), h.2, Handles-weaken n k m le h.3)

find-put :
    (handle other : ℕ) (value : Text) (m : List (ℕ × Text))
    → find other (put handle value m) ≡ (if handle == other then some value else find other m)
unfolding find put
find-put handle other value [] = refl
find-put handle other value (entry ∷ m) = ground (arith, find-put handle other value m)

find-remove :
    (handle other : ℕ) (m : List (ℕ × Text))
    → find other (remove handle m) ≡ (if handle == other then none else find other m)
unfolding find remove
find-remove handle other [] = ground arith
find-remove handle other (entry ∷ m) = ground (arith, find-remove handle other m)

-- A handle above all that are in use is in use nowhere, and a value put there is a new entry.
above : (n handle : ℕ) (m : List (ℕ × Text)) → Handles n m → n < handle → find handle m ≡ none
unfolding find
above n handle [] h lt = refl
above n handle (entry ∷ m) h lt = ground (arith, h.1, above n handle m h.3 lt)

put-Handles :
    (n handle : ℕ) (value : Text) (m : List (ℕ × Text))
    → Handles n m
    → n < handle
    → Handles handle (put handle value m) × (length (put handle value m) ≡ suc (length m))
unfolding put find
put-Handles n handle value [] h lt = ((omega arith, omega arith, refl, tt), refl)
put-Handles n handle value (entry ∷ m) h lt =
    let (rest, size) = put-Handles n handle value m h.3 lt in
    let apart : (entry.0 == handle) ≡ false = ground (arith, h.1) in
    let apart_too : (handle == entry.0) ≡ false = ground (arith, h.1) in
    rw apart (
      (h.0, omega (arith, h.1), rw (find-put handle entry.0 value m, apart_too) h.2, rest),
      omega (arith, size),
    )

remove-Handles : (n handle : ℕ) (m : List (ℕ × Text)) → Handles n m → Handles n (remove handle m)
unfolding remove
remove-Handles n handle [] h = tt
remove-Handles n handle (entry ∷ m) h = elim (Bool-cases (entry.0 == handle)) [
  | inl e ↦ rw e (remove-Handles n handle m h.3)
  | inr e ↦
      let apart : (handle == entry.0) ≡ false = ground (arith, e) in
      rw e (h.0, h.1, rw (find-remove handle entry.0 m, apart) h.2, remove-Handles n handle m h.3)
]

-- From a well-formed state that has given out fewer handles than a uint32 counts, and a limit of
-- results that a uint32 holds: where `max` results are open, store refuses and changes nothing.
-- Otherwise it gives a handle that is not zero and was not open, under which get finds the value;
-- every other handle answers as before; at most `max` results are open; and the state is well
-- formed.
pub store-get :
    (value : Text) (max : ℕ) (s : CallState)
    → WellFormed s
    → s.next_handle + 1 < word
    → length s.results < word
    → let r = store value max s in
      ((max ≤ length s.results) × (r ≡ (none, s)))
      ⊎ ((handle : ℕ) × (r.0 ≡ some handle)
          × (0 < handle)
          × (get handle s ≡ none)
          × ((other : ℕ) → get other r.1 ≡ (if handle == other then some value else get other s))
          × (length r.1.results ≤ max)
          × WellFormed r.1)
unfolding store get
store-get value max s well small few =
    let same : length s.results % word ≡ length s.results = omega arith in
    let next : (s.next_handle + 1) % word ≡ s.next_handle + 1 = omega arith in
    elim (Bool-cases (leb max (length s.results))) [
      | inl full ↦ rw (same, next, full) (inl (ground arith, refl))
      | inr free ↦
          let (handles, size) =
            put-Handles s.next_handle (s.next_handle + 1) value s.results well.1 (omega arith) in
          rw (same, next, free)
            (inr (
              s.next_handle + 1,
              refl,
              omega arith,
              above s.next_handle (s.next_handle + 1) s.results well.1 (omega arith),
              λ other. find-put (s.next_handle + 1) other value s.results,
              ground (arith, size),
              (small, handles),
            ))
    ]

closed :
    (handle other : ℕ) (m : List (ℕ × Text))
    → find handle m ≡ none
    → find other m ≡ (if handle == other then none else find other m)
closed handle other m e = elim (Bool-cases (handle == other)) [
  | inl same ↦ let one : handle ≡ other = ground (arith, same) in rw same (rw (← one) e)
  | inr apart ↦ rw apart refl
]

-- Dropping a result says whether the handle was open; afterwards it is closed, every other handle
-- answers as before, and a well-formed state is still well formed.
pub drop_result-get :
    (handle : ℕ) (s : CallState)
    → WellFormed s
    → let r = drop_result handle s in
      (r.0 ≡ known (get handle s))
      × ((other : ℕ) → get other r.1 ≡ (if handle == other then none else get other s))
      × WellFormed r.1
unfolding drop_result get
drop_result-get handle s well = elim (Option-cases (find handle s.results)) [
  | inl e ↦ rw e (refl, λ other. closed handle other s.results e, well)
  | inr (value, e) ↦ rw e (
    refl,
    λ other. find-remove handle other s.results,
    (well.0, remove-Handles s.next_handle handle s.results well.1),
  )
]
