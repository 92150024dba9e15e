-- ===== src/Auth/Revoked.antt =====
-- A session that was revoked is not accepted again before its token expires, where the calls of the
-- process come one after another.
use sannad.Prelude.{
  ℕ, String, Bool, true, false, Option, none, some, List, [], ◌∷◌, ◌≡◌, ◌≢◌, refl, inl, inr, ltb,
  leb, arith, str_eq, str_eq_self, if◌then◌else◌, Bool-cases,
}
use sannad.Prelude.Maps.{Assoc, lookup, insert, lookup-insert}
use sannad.Prelude.Tables.{update, any, any-append}
use sannad.Auth.Database.{Db, ok, meet, stored, proceed, pure, ◌>>◌}
use sannad.Auth.Revocation.{
  RevokedSession, CachedRevocation, Sessions, has_session, put_row, assign_row, remember, revoke,
  is_fresh, look, count_rows, looked, is_revoked, purge_expired,
}
use sannad.Auth.Horizon.{
  Honest, lasting, Known, counted, Keeps, revoke-Keeps, is_revoked-Keeps, purge_expired-Keeps,
}

pub data Operation : Type 0 where
  revoking : RevokedSession → ℕ → Operation
  checking : String → ℕ → ℕ → Operation
  purging : ℕ → Operation

abbrev pub operate : Operation → Db Sessions → Db Sessions
operate (revoking row now) s = (revoke row now s).1
operate (checking id first second) s = (is_revoked id first second s).1
operate (purging cutoff) s = (purge_expired cutoff s).1

unfoldable pub operate_all : List Operation → Db Sessions → Db Sessions
unfolding revoke is_revoked purge_expired
operate_all [] s = s
operate_all (operation ∷ operations) s = operate_all operations (operate operation s)

module _ (id : String) (horizon : ℕ) where
  -- Purges are made before the horizon, and revocations of the session are for tokens that expire
  -- after it.
  abbrev pub Within : List Operation → Type 0
  Within [] = Unit
  Within (revoking row now ∷ operations) =
      (has_session id row ≡ true → ltb horizon row.expires_at ≡ true) × Within operations
  Within (checking other first second ∷ operations) = Within operations
  Within (purging cutoff ∷ operations) = (leb cutoff horizon ≡ true) × Within operations

  look-truth :
      (now : ℕ) (t : Sessions) (b : Bool) → Known id horizon t → look id now t ≡ some b → b ≡ true
  unfolding look
  look-truth now t b (counts, honest) = go (lookup id t.cache) honest
    where
      go :
          (r : Option CachedRevocation)
          → Honest r
          → (elim r [
            | none ↦ none
            | some entry ↦ if is_fresh now entry then some entry.revoked else none
          ])
            ≡ some b
          → b ≡ true
      go none honest h = absurd (cc h)
      go (some entry) honest h = ground (arith, h, honest)

  looked-denies :
      (now : ℕ) (answer : Option Bool) (s : Db Sessions)
      → Known id horizon s.tables
      → ((b : Bool) → answer ≡ some b → b ≡ true)
      → (looked id now answer s).0 ≢ ok false
  unfolding count_rows stored remember
  looked-denies now (some b) s h truth = λ denied. cc (truth b refl, denied)
  looked-denies now none s h truth = go s.faults
    where
      there : any (has_session id) s.tables.rows ≡ true
      there = counted id horizon s.tables.rows h.0

      go :
          (fs : List Bool)
          → (proceed
              (λ revoked.
                remember id (record { revoked = revoked; checked_at = now }) >> pure revoked)
              (meet (λ u. (ok (any (has_session id) u.tables.rows), u)) fs s)).0
            ≢ ok false
      go [] = λ denied. cc (there, denied)
      go (false ∷ fs) = λ denied. cc (there, denied)
      go (true ∷ fs) = λ denied. cc denied

  is_revoked-denies :
      (first second : ℕ) (s : Db Sessions)
      → Known id horizon s.tables
      → (is_revoked id first second s).0 ≢ ok false
  unfolding is_revoked
  is_revoked-denies first second s h = elim (Bool-cases (str_eq id "")) [
    | inl e ↦ rw e (λ denied. cc denied)
    | inr e ↦
        rw e
          (looked-denies second (look id first s.tables) s h (λ b. look-truth first s.tables b h))
  ]

  operate_all-Known :
      (operations : List Operation) (s : Db Sessions)
      → Within operations
      → Known id horizon s.tables
      → Known id horizon (operate_all operations s).tables
  unfolding operate_all Keeps
  operate_all-Known [] s w h = h
  operate_all-Known (revoking row now ∷ operations) s w h =
      operate_all-Known operations _ w.1 (revoke-Keeps id horizon row now w.0 s h)
  operate_all-Known (checking key first second ∷ operations) s w h =
      operate_all-Known operations _ w (is_revoked-Keeps id horizon key first second s h)
  operate_all-Known (purging cutoff ∷ operations) s w h =
      operate_all-Known operations _ w.1 (purge_expired-Keeps id horizon cutoff w.0 s h)

update-new :
    (horizon : ℕ) (row : RevokedSession) (rows : List RevokedSession)
    → ltb horizon row.expires_at ≡ true
    → any (has_session row.session_id) rows ≡ true
    → any (lasting row.session_id horizon) (update (has_session row.session_id) (λ old. row) rows)
      ≡ true
unfolding any update
update-new horizon row [] later h = absurd (cc h)
update-new horizon row (first ∷ rows) later h =
    ground (arith, h, later, str_eq_self row.session_id, update-new horizon row rows later)

put_row-new :
    (horizon : ℕ) (row : RevokedSession) (rows : List RevokedSession)
    → ltb horizon row.expires_at ≡ true
    → any (lasting row.session_id horizon) (put_row row rows) ≡ true
unfolding put_row any
put_row-new horizon row rows later = elim (Bool-cases (any (has_session row.session_id) rows)) [
  | inl e ↦ rw e (update-new horizon row rows later e)
  | inr e ↦ rw e (
      ground (
        arith,
        any-append (lasting row.session_id horizon) rows (row ∷ []),
        str_eq_self row.session_id,
        later,
      ))
]

revoke-Known :
    (horizon : ℕ) (row : RevokedSession) (now : ℕ) (s : Db Sessions)
    → ltb horizon row.expires_at ≡ true
    → (revoke row now s).0 ≡ ok tt
    → Known row.session_id horizon (revoke row now s).1.tables
unfolding revoke assign_row remember stored
revoke-Known horizon row now s later = elim (Bool-cases (str_eq row.session_id "")) [
  | inl e ↦ rw e (λ h. absurd (cc h))
  | inr e ↦ rw e (go s.faults)
]
  where
    cached :
        (cache : Assoc CachedRevocation)
        → Honest (
            lookup row.session_id
              (insert row.session_id (record { revoked = true; checked_at = now }) cache))
    cached cache =
        rw (lookup-insert row.session_id row.session_id _ cache, str_eq_self row.session_id) refl

    go :
        (fs : List Bool)
        → let r =
            proceed
              (λ u. remember row.session_id (record { revoked = true; checked_at = now }))
              (meet
                (λ u. (
                  ok tt,
                  record u { tables = record u.tables { rows = put_row row u.tables.rows } },
                ))
                fs
                s) in
          r.0 ≡ ok tt → Known row.session_id horizon r.1.tables
    go [] h = (put_row-new horizon row s.tables.rows later, cached s.tables.cache)
    go (false ∷ fs) h = (put_row-new horizon row s.tables.rows later, cached s.tables.cache)
    go (true ∷ fs) h = absurd (cc h)

-- After a revocation that succeeded, and any calls of the process that come one after another, in
-- which calls of the database may fail, purges are made before the horizon and revocations of the
-- session are for tokens that expire after it, the process never answers that the session is not
-- revoked: it answers that it is, or reports an error.
pub revoke-is_revoked :
    (horizon : ℕ) (row : RevokedSession) (now : ℕ) (s : Db Sessions) (operations : List Operation)
    (first second : ℕ)
    → ltb horizon row.expires_at ≡ true
    → (revoke row now s).0 ≡ ok tt
    → Within row.session_id horizon operations
    → (is_revoked row.session_id first second (operate_all operations (revoke row now s).1)).0
      ≢ ok false
revoke-is_revoked horizon row now s operations first second later done w =
    is_revoked-denies row.session_id horizon first second _ (
      operate_all-Known row.session_id horizon operations _ w
        (revoke-Known horizon row now s later done))
