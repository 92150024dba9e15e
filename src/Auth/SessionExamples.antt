-- ===== src/Auth/SessionExamples.antt =====
-- A logout, and the theorems at it.
use sannad.Prelude.{false, none, [], ◌∷◌, ◌≡◌, ◌≢◌, refl}
use sannad.Auth.Database.{Db, ok}
use sannad.Auth.Revocation.{
  RevokedSession, Sessions, revoke, is_revoked, look, count_rows, remember,
}
use sannad.Auth.Revoked.{operate_all, checking, purging, revoke-is_revoked}

abbrev no_sessions : Db Sessions
no_sessions = record { tables = record { rows = []; cache = [] }; audit = []; faults = [] }

abbrev logout : RevokedSession
logout = record {
  session_id = "s1";
  tenant_id = "acme";
  expires_at = 900;
  revoked_at = 100;
  reason = "logout";
}

revoked-logout : (revoke logout 100 no_sessions).0 ≡ ok tt
unfolding revoke
revoked-logout = refl

revoke-is_revoked_example :
    (is_revoked "s1" 600 600 (
      operate_all
        (checking "s1" 200 200 ∷ purging 500 ∷ checking "s2" 550 550 ∷ [])
        (revoke logout 100 no_sessions).1)).0
    ≢ ok false
revoke-is_revoked_example =
    revoke-is_revoked 800 logout 100 no_sessions
      (checking "s1" 200 200 ∷ purging 500 ∷ checking "s2" 550 550 ∷ []) 600 600 refl revoked-logout
      (refl, tt)

-- Two requests at once: one has looked in the cache and counted the rows when the other revokes the
-- session; then the first remembers its count.
abbrev raced : Db Sessions
raced =
    (remember "s1" (record { revoked = false; checked_at = 101 })
      (revoke logout 100 no_sessions).1).1

raced-is_revoked :
    (look "s1" 99 no_sessions.tables ≡ none)
    × ((count_rows "s1" no_sessions).0 ≡ ok false)
    × ((is_revoked "s1" 102 102 raced).0 ≡ ok false)
unfolding look count_rows remember revoke is_revoked
raced-is_revoked = (refl, refl, refl)
