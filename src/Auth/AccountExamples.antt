-- ===== src/Auth/AccountExamples.antt =====
-- Locked accounts and revoked service accounts, and the theorem at one of them.
use sannad.Prelude.{
  List, ℕ, String, true, none, some, [], ◌∷◌, ◌≡◌, ◌≢◌, ◌&&◌, refl, str_eq, if◌then◌else◌,
}
use sannad.Prelude.Tables.{first, Member}
use sannad.Auth.Database.{Context, Db, ok}
use sannad.Auth.Accounts.{
  Account, ServiceAccount, Identities, has_id, lock_account, set_account_lock,
  revoke_service_account,
}
use sannad.Auth.Tokens.{TenantClaims, Strategy, TokenLibrary, parse, validate_for_caller}
use sannad.Auth.Login.{LoginResult, login}
use sannad.Auth.Admitted.{login-Admits}
use sannad.Auth.Afterwards.{
  Service, Operation, deleting, logging_in, unlocking, validating, refreshing, revoking_service,
  operate_each,
}
use sannad.Auth.Refused.{lock_account-validate_for_caller}

abbrev amal : Account
amal = record {
  id = "a1";
  tenant_id = "acme";
  email = "amal@example.com";
  password_hash = "h";
  active = true;
  token_version = 4;
}

abbrev robot : ServiceAccount
robot = record { id = "r1"; tenant_id = "acme"; name = "robot"; api_key_hash = "kh"; active = true }

abbrev claims_of : String → ℕ → TenantClaims
claims_of subject version = record {
  session_id = "s1";
  tenant_id = "acme";
  token_version = version;
  subject = subject;
  issued_at = 100;
  expires_at = 900;
}

abbrev tokens : TokenLibrary
tokens = record {
  parse_with_key = λ now token key.
      if str_eq key "old" && str_eq token "human"
      then some (claims_of "a1" 4)
      else if str_eq key "new" && str_eq token "machine"
      then some (claims_of "r1" 0)
      else none;
  signed_string = λ claims key. some "signed";
}

abbrev rotated : Strategy
rotated = record {
  secret = "new";
  expiry = 800;
  refresh_expiry = 5000;
  previous_secrets = "old" ∷ [];
  has_revocations = true;
}

abbrev before : Db Identities
before = record {
  tables = record {
    accounts = amal ∷ [];
    services = robot ∷ [];
    roles = [];
    oidc_links = [];
    saml_links = [];
    sessions = record { rows = []; cache = [] };
  };
  audit = [];
  faults = [];
}

abbrev owner : Context
owner = record { tenant = "acme"; caller = "root" }

accepted : (validate_for_caller tokens rotated 200 "human" before).0 ≡ ok ("a1", "acme")
unfolding validate_for_caller
accepted = refl

found_amal : first (has_id "a1") before.tables.accounts ≡ some amal
unfolding first
found_amal = refl

locked : (lock_account owner "a1" before).0 ≡ ok tt
unfolding set_account_lock
locked = refl

parsed : parse tokens rotated 400 "human" ≡ some (claims_of "a1" 4)
unfolding parse
parsed = refl

abbrev service : Service
service = record { tokens = tokens; strategy = rotated; compare = str_eq; dummy_hash = "dummy" }

abbrev later : List Operation
later =
    validating 300 "human"
    ∷ unlocking owner "a1"
    ∷ logging_in 305 "s2" "acme" "amal@example.com" "h"
    ∷ refreshing 310 "human"
    ∷ revoking_service owner "r1"
    ∷ deleting owner "a1" "deleted-1@deleted.invalid"
    ∷ []

lock_account-validate_for_caller_example :
    (validate_for_caller tokens rotated 400 "human"
      (operate_each service later (lock_account owner "a1" before).1)).0
    ≢ ok ("a1", "acme")
lock_account-validate_for_caller_example =
    lock_account-validate_for_caller service owner amal before later 400 "human" (claims_of "a1" 4)
      found_amal refl locked parsed refl refl ("a1", "acme")

-- The token of a service account that was revoked.
revoked_robot :
    ((revoke_service_account owner "r1" before).0 ≡ ok tt)
    × ((validate_for_caller tokens rotated 400 "machine"
          (revoke_service_account owner "r1" before).1).0
        ≡ ok ("r1", "acme"))
unfolding revoke_service_account validate_for_caller
revoked_robot = (refl, refl)

abbrev admitted : LoginResult
admitted = record {
  access_token = "signed";
  refresh_token = "signed";
  subject = "a1";
  tenant_id = "acme";
}

logged_in :
    (login str_eq tokens rotated 200 "s9" "acme" "amal@example.com" "h" before).0 ≡ ok admitted
unfolding login
logged_in = refl

login-Admits_example :
    (a : Account) × Member a before.tables.accounts
    × (a.tenant_id ≡ "acme")
    × (a.email ≡ "amal@example.com")
    × (str_eq "h" a.password_hash ≡ true)
    × (a.active ≡ true)
    × (admitted.subject ≡ a.id)
    × (admitted.tenant_id ≡ "acme")
login-Admits_example =
    login-Admits str_eq tokens rotated "h" 200 "s9" "acme" "amal@example.com" before admitted
      logged_in
