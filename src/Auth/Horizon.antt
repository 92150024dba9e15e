-- ===== src/Auth/Horizon.antt =====
-- What is kept while a session is revoked: a row whose token expires after a horizon, and no answer in
-- the cache that denies it.
use sannad.Prelude.{
  ℕ, String, Bool, true, false, Option, none, some, List, [], ◌∷◌, ◌≡◌, refl, inl, inr, ◌&&◌, ltb,
  leb, arith, str_eq, eq_iff, Bool-cases,
}
use sannad.Prelude.Maps.{Assoc, lookup, delete, lookup-insert, lookup-delete}
use sannad.Prelude.Tables.{update, remove, any, any-append}
use sannad.Auth.Database.{Db, Exec, Result, ok, err, meet, stored, proceed, pure, ◌>>=◌, ◌>>◌}
use sannad.Auth.Revocation.{
  RevokedSession, CachedRevocation, Sessions, has_session, put_row, assign_row, remember, revoke,
  look, count_rows, looked, is_revoked, is_expired, find_expired, delete_expired, forget_all,
  purged, purge_expired,
}

-- No answer that is remembered denies the revocation.
abbrev pub Honest : Option CachedRevocation → Type 0
Honest none = Unit
Honest (some entry) = entry.revoked ≡ true

module _ (id : String) (horizon : ℕ) where
  -- A row for the session, whose token expires after the horizon.
  abbrev pub lasting : RevokedSession → Bool
  lasting row = has_session id row && ltb horizon row.expires_at

  abbrev pub Known : Sessions → Type 0
  Known t = (any lasting t.rows ≡ true) × Honest (lookup id t.cache)

  pub counted :
      (rows : List RevokedSession) → any lasting rows ≡ true → any (has_session id) rows ≡ true
  unfolding any
  counted [] h = absurd (cc h)
  counted (row ∷ rows) h = ground (arith, h, counted rows)

  update-lasting :
      (row : RevokedSession) (rows : List RevokedSession)
      → (has_session id row ≡ true → ltb horizon row.expires_at ≡ true)
      → any lasting rows ≡ true
      → any lasting (update (has_session row.session_id) (λ old. row) rows) ≡ true
  unfolding any update
  update-lasting row [] later h = absurd (cc h)
  update-lasting row (first ∷ rows) later h = ground (
    arith,
    h,
    later,
    update-lasting row rows later,
    eq_iff first.session_id row.session_id,
    eq_iff first.session_id id,
    eq_iff row.session_id id,
  )

  put_row-lasting :
      (row : RevokedSession) (rows : List RevokedSession)
      → (has_session id row ≡ true → ltb horizon row.expires_at ≡ true)
      → any lasting rows ≡ true
      → any lasting (put_row row rows) ≡ true
  unfolding put_row
  put_row-lasting row rows later h = elim (Bool-cases (any (has_session row.session_id) rows)) [
    | inl e ↦ rw e (update-lasting row rows later h)
    | inr e ↦ rw (e, any-append lasting rows (row ∷ []), h) refl
  ]

  remove-lasting :
      (cutoff : ℕ) (rows : List RevokedSession)
      → leb cutoff horizon ≡ true
      → any lasting rows ≡ true
      → any lasting (remove (is_expired cutoff) rows) ≡ true
  unfolding any remove
  remove-lasting cutoff [] early h = absurd (cc h)
  remove-lasting cutoff (row ∷ rows) early h =
      ground (arith, h, early, remove-lasting cutoff rows early)

  forget_all-Honest :
      (rows : List RevokedSession) (cache : Assoc CachedRevocation)
      → Honest (lookup id cache)
      → Honest (lookup id (forget_all rows cache))
  unfolding forget_all
  forget_all-Honest [] cache h = h
  forget_all-Honest (row ∷ rows) cache h =
      forget_all-Honest rows (delete row.session_id cache)
        (elim (Bool-cases (str_eq row.session_id id)) [
          | inl e ↦ rw (lookup-delete row.session_id id cache, e) tt
          | inr e ↦ rw (lookup-delete row.session_id id cache, e) h
        ])

  -- What a call keeps whatever it returns.
  unfoldable pub Keeps : {A : Type 0} → Exec Sessions A → Type 0
  Keeps m = (s : Db Sessions) → Known s.tables → Known (m s).1.tables

  stored-Keeps : {A : Type 0} (m : Exec Sessions A) → Keeps m → Keeps (stored m)
  unfolding Keeps stored
  stored-Keeps m k s h = go s.faults
    where
      go : (fs : List Bool) → Known (meet m fs s).1.tables
      go [] = k s h
      go (false ∷ fs) = k (record s { faults = fs }) h
      go (true ∷ fs) = h

  bind-Keeps :
      {A B : Type 0} (m : Exec Sessions A) (f : A → Exec Sessions B)
      → Keeps m
      → ((a : A) → Keeps (f a))
      → Keeps (m >>= f)
  unfolding Keeps
  bind-Keeps {A = A} {B = B} m f k l s h = go (m s) (k s h)
    where
      go : (r : Result A × Db Sessions) → Known r.1.tables → Known (proceed f r).1.tables
      go (ok a, u) known = l a u known
      go (err e, u) known = known

  remember-Known :
      (key : String) (entry : CachedRevocation) (s : Db Sessions)
      → Known s.tables
      → (str_eq key id ≡ true → entry.revoked ≡ true)
      → Known (remember key entry s).1.tables
  unfolding remember
  remember-Known key entry s h truth = (
    h.0,
    elim (Bool-cases (str_eq key id)) [
      | inl e ↦ rw (lookup-insert key id entry s.tables.cache, e) (truth e)
      | inr e ↦ rw (lookup-insert key id entry s.tables.cache, e) h.1
    ],
  )

  assign_row-Keeps :
      (row : RevokedSession)
      → (has_session id row ≡ true → ltb horizon row.expires_at ≡ true)
      → Keeps (assign_row row)
  unfolding assign_row Keeps
  assign_row-Keeps row later =
      stored-Keeps _ (λ s h. (put_row-lasting row s.tables.rows later h.0, h.1))

  pub revoke-Keeps :
      (row : RevokedSession) (now : ℕ)
      → (has_session id row ≡ true → ltb horizon row.expires_at ≡ true)
      → Keeps (revoke row now)
  unfolding revoke Keeps
  revoke-Keeps row now later = elim (Bool-cases (str_eq row.session_id "")) [
    | inl e ↦ rw e (λ s h. h)
    | inr e ↦ rw e (
        bind-Keeps (assign_row row) _ (assign_row-Keeps row later) (λ u s h.
          remember-Known row.session_id (record { revoked = true; checked_at = now }) s h
            (λ e. refl)))
  ]

  pub purge_expired-Keeps : (cutoff : ℕ) → leb cutoff horizon ≡ true → Keeps (purge_expired cutoff)
  unfolding purge_expired find_expired delete_expired Keeps
  purge_expired-Keeps cutoff early =
      bind-Keeps (find_expired cutoff) _ (stored-Keeps _ (λ s h. h)) (λ rows. after rows)
    where
      after : (rows : List RevokedSession) → Keeps (purged cutoff rows)
      after [] = λ s h. h
      after (row ∷ rows) =
          bind-Keeps (delete_expired cutoff) _
            (stored-Keeps _ (λ s h. (remove-lasting cutoff s.tables.rows early h.0, h.1)))
            (λ n s h. (h.0, forget_all-Honest (row ∷ rows) s.tables.cache h.1))

  -- What may be remembered of another session says nothing of this one; of this one, the count is
  -- of a row that is there.
  truthful :
      (key : String) (t : Sessions)
      → Known t
      → str_eq key id ≡ true
      → any (has_session key) t.rows ≡ true
  truthful key t h e = rw ((eq_iff key id).0 e) (counted t.rows h.0)

  looked-Known :
      (key : String) (now : ℕ) (answer : Option Bool) (s : Db Sessions)
      → Known s.tables
      → Known (looked key now answer s).1.tables
  unfolding count_rows stored remember
  looked-Known key now (some b) s h = h
  looked-Known key now none s h = go s.faults
    where
      go :
          (fs : List Bool)
          → Known
              (proceed
                (λ revoked.
                  remember key (record { revoked = revoked; checked_at = now }) >> pure revoked)
                (meet (λ u. (ok (any (has_session key) u.tables.rows), u)) fs s)).1.tables
      go [] = remember-Known key _ s h (truthful key s.tables h)
      go (false ∷ fs) = remember-Known key _ (record s { faults = fs }) h (truthful key s.tables h)
      go (true ∷ fs) = h

  pub is_revoked-Keeps : (key : String) (first second : ℕ) → Keeps (is_revoked key first second)
  unfolding is_revoked Keeps
  is_revoked-Keeps key first second s h = elim (Bool-cases (str_eq key "")) [
    | inl e ↦ rw e h
    | inr e ↦ rw e (looked-Known key second (look key first s.tables) s h)
  ]
