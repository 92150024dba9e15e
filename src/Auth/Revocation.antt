-- ===== src/Auth/Revocation.antt =====
-- Revoked sessions and the cache of answers (internal/platform/auth/revocation.go), of one process.
-- Times are nanoseconds; a call is given the readings of the clock that it makes.
use sannad.Prelude.{
  ℕ, String, Bool, true, Option, none, some, List, [], ◌∷◌, ◌++◌, ◌-◌, ◌||◌, ltb, leb, str_eq,
  length, if◌then◌else◌,
}
use sannad.Prelude.Maps.{Assoc, lookup, insert, delete}
use sannad.Prelude.Tables.{select, update, remove, any}
use sannad.Auth.Database.{no_session_id, Exec, ok, pure, raise, ◌>>=◌, ◌>>◌, stored}

-- `tenant_id`, `revoked_at` and `reason` are kept for operators.
pub record RevokedSession : Type 0 where
  pub session_id : String
  pub tenant_id : String
  pub expires_at : ℕ
  pub revoked_at : ℕ
  pub reason : String

pub record CachedRevocation : Type 0 where
  pub revoked : Bool
  pub checked_at : ℕ

pub record Sessions : Type 0 where
  pub rows : List RevokedSession
  pub cache : Assoc CachedRevocation

-- RevocationTTL
abbrev pub revocation_ttl : ℕ
revocation_ttl = 30000000000

abbrev pub has_session : String → RevokedSession → Bool
has_session id row = str_eq row.session_id id

-- The row of the session is given the values of `row`, or `row` is inserted.
unfoldable pub put_row : RevokedSession → List RevokedSession → List RevokedSession
unfolding any update
put_row row rows =
    if any (has_session row.session_id) rows
    then update (has_session row.session_id) (λ old. row) rows
    else rows ++ row ∷ []

unfoldable pub assign_row : RevokedSession → Exec Sessions (Unit {0})
unfolding stored put_row
assign_row row =
    stored
      (λ s. (ok tt, record s { tables = record s.tables { rows = put_row row s.tables.rows } }))

unfoldable pub remember : String → CachedRevocation → Exec Sessions (Unit {0})
unfolding insert
remember id entry s =
    (ok tt, record s { tables = record s.tables { cache = insert id entry s.tables.cache } })

unfoldable pub revoke : RevokedSession → ℕ → Exec Sessions (Unit {0})
unfolding assign_row remember
revoke row now =
    if str_eq row.session_id ""
    then raise no_session_id
    else assign_row row >> remember row.session_id (record { revoked = true; checked_at = now })

-- `s.now().Sub(entry.checkedAt) < RevocationTTL`
abbrev pub is_fresh : ℕ → CachedRevocation → Bool
is_fresh now entry = ltb now entry.checked_at || ltb (now - entry.checked_at) revocation_ttl

-- What the cache answers, under the read lock.
unfoldable pub look : String → ℕ → Sessions → Option Bool
unfolding lookup
look id now t = elim (lookup id t.cache) [
  | none ↦ none
  | some entry ↦ if is_fresh now entry then some entry.revoked else none
]

unfoldable pub count_rows : String → Exec Sessions Bool
unfolding stored any
count_rows id = stored (λ s. (ok (any (has_session id) s.tables.rows), s))

abbrev pub looked : String → ℕ → Option Bool → Exec Sessions Bool
looked id now (some answer) = pure answer
looked id now none = do
  revoked ← count_rows id
  remember id (record { revoked = revoked; checked_at = now })
  pure revoked

-- The clock reads `first` for the cache and `second` for the new entry.
unfoldable pub is_revoked : String → ℕ → ℕ → Exec Sessions Bool
unfolding look count_rows remember
is_revoked id first second s =
    if str_eq id "" then raise no_session_id s else looked id second (look id first s.tables) s

abbrev pub is_expired : ℕ → RevokedSession → Bool
is_expired cutoff row = leb row.expires_at cutoff

unfoldable pub find_expired : ℕ → Exec Sessions (List RevokedSession)
unfolding stored select
find_expired cutoff = stored (λ s. (ok (select (is_expired cutoff) s.tables.rows), s))

unfoldable pub delete_expired : ℕ → Exec Sessions ℕ
unfolding stored select remove
delete_expired cutoff = stored (λ s. (
  ok (length (select (is_expired cutoff) s.tables.rows)),
  record s { tables = record s.tables { rows = remove (is_expired cutoff) s.tables.rows } },
))

unfoldable pub forget_all : List RevokedSession → Assoc CachedRevocation → Assoc CachedRevocation
unfolding delete
forget_all [] cache = cache
forget_all (row ∷ rows) cache = forget_all rows (delete row.session_id cache)

abbrev pub forget : List RevokedSession → Exec Sessions (Unit {0})
forget rows s =
    (ok tt, record s { tables = record s.tables { cache = forget_all rows s.tables.cache } })

abbrev pub purged : ℕ → List RevokedSession → Exec Sessions ℕ
purged cutoff [] = pure 0
purged cutoff (row ∷ rows) = do affected ← delete_expired cutoff; forget (row ∷ rows); pure affected

unfoldable pub purge_expired : ℕ → Exec Sessions ℕ
unfolding find_expired delete_expired forget_all
purge_expired cutoff = do expired ← find_expired cutoff; purged cutoff expired
