-- ===== src/Webhooks/Newest.antt =====
-- The listing of an endpoint's deliveries, and what the management of endpoints leaves alone.
use mathlib.Core.List.{Perm}
use mathlib.Core.List.Perm
use sannad.Prelude.{
  ℕ, zero, suc, String, List, [], ◌∷◌, ◌++◌, ◌≡◌, refl, ap, ◌≤◌, ◌<◌, ltb, length, take, drop,
  arith, str_eq, Bool-cases, ◌⊎◌, inl, inr,
}
use sannad.Prelude.Int.{ℤ, pos, negsuc}
use sannad.Webhooks.{Delivery}
use sannad.Webhooks.Queue.{Queue, select, stored, find_deliveries}
use sannad.Webhooks.Endpoints.{Answer, done, limit_of, place, newest_first, list_deliveries}

-- No row of the list was created after `d`.
abbrev pub NoneAfter : Delivery → List Delivery → Type 0
NoneAfter d [] = Unit
NoneAfter d (e ∷ es) = (e.created_at ≤ d.created_at) × NoneAfter d es

abbrev pub IsNewestFirst : List Delivery → Type 0
IsNewestFirst [] = Unit
IsNewestFirst (d ∷ ds) = NoneAfter d ds × IsNewestFirst ds

NoneAfter-place :
    (d e : Delivery) (es : List Delivery)
    → d.created_at ≤ e.created_at
    → NoneAfter e es
    → NoneAfter e (place d es)
unfolding place
NoneAfter-place d e [] le h = (le, tt)
NoneAfter-place d e (f ∷ es) le h = elim (Bool-cases (ltb d.created_at f.created_at)) [
  | inl k ↦ rw k (h.0, NoneAfter-place d e es le h.1)
  | inr k ↦ rw k (le, (h.0, h.1))
]

NoneAfter-lift :
    (d e : Delivery) (es : List Delivery)
    → e.created_at ≤ d.created_at
    → NoneAfter e es
    → NoneAfter d es
NoneAfter-lift d e [] le h = tt
NoneAfter-lift d e (f ∷ es) le h = (omega (arith, le, h.0), NoneAfter-lift d e es le h.1)

place-IsNewestFirst :
    (d : Delivery) (es : List Delivery) → IsNewestFirst es → IsNewestFirst (place d es)
unfolding place
place-IsNewestFirst d [] h = (tt, tt)
place-IsNewestFirst d (e ∷ es) h = elim (Bool-cases (ltb d.created_at e.created_at)) [
  | inl k ↦ rw k (NoneAfter-place d e es (ground (arith, k)) h.0, place-IsNewestFirst d es h.1)
  | inr k ↦
      let le : e.created_at ≤ d.created_at = ground (arith, k) in
      rw k ((le, NoneAfter-lift d e es le h.0), (h.0, h.1))
]

place-perm : (d : Delivery) (es : List Delivery) → Perm (place d es) (d ∷ es)
unfolding place
place-perm d [] = Perm.refl (d ∷ [])
place-perm d (e ∷ es) = elim (Bool-cases (ltb d.created_at e.created_at)) [
  | inl k ↦ rw k (Perm.trans (Perm.cons e (place-perm d es)) (Perm.swap d e es))
  | inr k ↦ rw k (Perm.refl (d ∷ e ∷ es))
]

newest_first-sorted :
    (ds : List Delivery) → IsNewestFirst (newest_first ds) × Perm (newest_first ds) ds
unfolding newest_first
newest_first-sorted [] = (tt, Perm.refl [])
newest_first-sorted (d ∷ ds) =
    let (sorted, same) = newest_first-sorted ds in
    (
      place-IsNewestFirst d (newest_first ds) sorted,
      Perm.trans (place-perm d (newest_first ds)) (Perm.cons d same),
    )

-- What take keeps and what it leaves.
take-drop :
    (n : ℕ) (ds : List Delivery)
    → (take n ds ++ drop n ds ≡ ds)
      × (length (take n ds) ≤ n)
      × (length (take n ds) < n → drop n ds ≡ [])
take-drop zero ds = (refl, omega arith, λ h. absurd (omega (arith, h)))
take-drop (suc n) [] = (refl, omega arith, λ h. refl)
take-drop (suc n) (d ∷ ds) =
    let (whole, short, all) = take-drop n ds in
    (ap (λ es. d ∷ es) whole, omega (arith, short), λ h. all (omega (arith, h)))

-- What is asked for is the limit from 1 to 200, and otherwise it is 50.
abbrev pub IsLimit : ℤ → ℕ → Type 0
IsLimit (negsuc n) limit = limit ≡ 50
IsLimit (pos n) limit = ((1 ≤ n) × (n ≤ 200) × (limit ≡ n)) ⊎ (((n < 1) ⊎ (200 < n)) × (limit ≡ 50))

limit_of-IsLimit : (asked : ℤ) → IsLimit asked (limit_of asked)
limit_of-IsLimit (negsuc n) = refl
limit_of-IsLimit (pos n) = ground arith

-- Rows that are given and rows that are left out.
abbrev pub Listed : {W : Type 0} → String → ℤ → Queue W → Answer (List Delivery) × Queue W → Type 0
Listed endpoint_id asked q r =
    (given : List Delivery) × (left : List Delivery) × (limit : ℕ) × (r ≡ (done given, q))
    × IsLimit asked limit
    × Perm (given ++ left) (select (λ d. str_eq d.endpoint_id endpoint_id) q.deliveries)
    × IsNewestFirst (given ++ left)
    × (length given ≤ limit)
    × (length given < limit → left ≡ [])

-- With no faults, ListDeliveries gives rows of the endpoint only, newest first: no more than the
-- limit that is asked for where it is from 1 to 200, and otherwise no more than 50; the rows that it leaves out are all those
-- of the endpoint that it does not give, none of them is newer than one that it gives, and there is
-- none where it gives fewer than the limit.
pub list_deliveries-newest :
    {W : Type 0} (endpoint_id : String) (limit : ℤ) (q : Queue W)
    → q.faults ≡ []
    → Listed endpoint_id limit q (list_deliveries endpoint_id limit q)
unfolding list_deliveries find_deliveries stored
list_deliveries-newest endpoint_id limit q calm =
    let rows : List Delivery = select (λ d. str_eq d.endpoint_id endpoint_id) q.deliveries in
    let (sorted, same) = newest_first-sorted rows in
    let (whole, short, all) = take-drop (limit_of limit) (newest_first rows) in
    (
      take (limit_of limit) (newest_first rows),
      drop (limit_of limit) (newest_first rows),
      limit_of limit,
      rw calm refl,
      limit_of-IsLimit limit,
      rw whole same,
      rw whole sorted,
      short,
      all,
    )
