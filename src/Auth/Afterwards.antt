-- ===== src/Auth/Afterwards.antt =====
-- The operations that may follow a lock, and what they keep: an account that has moved past a
-- version of its tokens stays past it.
use sannad.Prelude.{ℕ, String, Bool, true, false, Option, List, [], ◌∷◌, refl, arith}
use sannad.Prelude.Tables.{first}
use sannad.Auth.Database.{Db, Context}
use sannad.Auth.Accounts.{
  Account, Identities, has_id, set_account_lock, lock_account, unlock_account, revoke_all_sessions,
  create_service_account, list_service_accounts, revoke_service_account, update_accounts, owned,
}
use sannad.Auth.Erasure.{erased, erase, delete_roles, delete_links, delete_account}
use sannad.Auth.Tokens.{TokenLibrary, Strategy, validate_for_caller, refresh, delete}
use sannad.Auth.Login.{login}
use sannad.Auth.Triples.{
  Keeps, each-Keeps, stored-Keeps, bind-Keeps, log_audit-Keeps, transact-Keeps,
}
use sannad.Auth.Locked.{IsPast, Past, update-Past}
use sannad.Auth.Locking.{
  tenant_of_account-Keeps, affected-Keeps, set_account_lock-Keeps, revoke_all_sessions-Keeps,
}
use sannad.Auth.Untouched.{validate_for_caller-Keeps, refresh-Keeps, delete-Keeps}
use sannad.Auth.Bystanders.{
  login-Keeps, create_service_account-Keeps, list_service_accounts-Keeps,
  revoke_service_account-Keeps,
}

-- The libraries and the settings of a deployment; `compare` is the comparison of a password with a
-- hash, and `dummy_hash` the hash that no password has.
pub record Service : Type 0 where
  pub tokens : TokenLibrary
  pub strategy : Strategy
  pub compare : String → String → Bool
  pub dummy_hash : String

pub data Operation : Type 0 where
  locking unlocking revoking : Context → String → Operation
  deleting : Context → String → String → Operation
  validating refreshing logging_out : ℕ → String → Operation
  logging_in : ℕ → String → String → String → String → Operation
  creating_service : Context → String → String → Option (String × String) → Operation
  listing_services : Context → Operation
  revoking_service : Context → String → Operation

abbrev pub operate : Service → Operation → Db Identities → Db Identities
operate v (locking c id) s = (lock_account c id s).1
operate v (unlocking c id) s = (unlock_account c id s).1
operate v (revoking c id) s = (revoke_all_sessions c id s).1
operate v (deleting c id email) s = (delete_account email v.dummy_hash c id s).1
operate v (validating now token) s = (validate_for_caller v.tokens v.strategy now token s).1
operate v (refreshing now token) s = (refresh v.tokens v.strategy now token s).1
operate v (logging_out now token) s = (delete v.tokens v.strategy now token s).1
operate v (logging_in now session tenant email password) s =
    (login v.compare v.tokens v.strategy now session tenant email password s).1
operate v (creating_service c name id key) s = (create_service_account c name id key s).1
operate v (listing_services c) s = (list_service_accounts c s).1
operate v (revoking_service c id) s = (revoke_service_account c id s).1

unfoldable pub operate_each : Service → List Operation → Db Identities → Db Identities
unfolding set_account_lock revoke_all_sessions delete_account validate_for_caller refresh delete
    login create_service_account list_service_accounts revoke_service_account
operate_each v [] s = s
operate_each v (operation ∷ operations) s = operate_each v operations (operate v operation s)

module _ (id : String) (version : ℕ) where
  abbrev PastOf : List Account → Type 0
  PastOf rows = Past id version (first (has_id id) rows)

  delete_roles-Keeps : (key tenant : String) → Keeps (IsPast id version) (delete_roles tenant key)
  unfolding delete_roles
  delete_roles-Keeps key tenant =
      stored-Keeps (IsPast id version) _ (each-Keeps (IsPast id version) _ (λ s h. h))

  delete_links-Keeps : (key : String) → Keeps (IsPast id version) (delete_links key)
  unfolding delete_links
  delete_links-Keeps key =
      bind-Keeps (IsPast id version) _ _
        (stored-Keeps (IsPast id version) _ (each-Keeps (IsPast id version) _ (λ s h. h)))
        (λ u. stored-Keeps (IsPast id version) _ (each-Keeps (IsPast id version) _ (λ s h. h)))

  erase-Keeps :
      (email hash key tenant : String) → Keeps (IsPast id version) (erase email hash key tenant)
  unfolding update_accounts
  erase-Keeps email hash key tenant =
      bind-Keeps (IsPast id version) _ _
        (stored-Keeps (IsPast id version) _ (
          each-Keeps (IsPast id version) _ (λ s.
            update-Past id version (owned key tenant) (erased email hash) (λ a. refl)
              (λ a. ground arith) s.tables.accounts)))
        (λ rows. bind-Keeps (IsPast id version) _ _ (affected-Keeps (IsPast id version) rows) (λ u.
          bind-Keeps (IsPast id version) _ _ (delete_roles-Keeps key tenant)
            (λ v. delete_links-Keeps key)))

  delete_account-Keeps :
      (email hash : String) (c : Context) (key : String)
      → Keeps (IsPast id version) (delete_account email hash c key)
  unfolding delete_account
  delete_account-Keeps email hash c key =
      bind-Keeps (IsPast id version) _ _ (tenant_of_account-Keeps (IsPast id version) c key)
        (λ tenant.
          bind-Keeps (IsPast id version) _ _
            (transact-Keeps (IsPast id version) _ (erase-Keeps email hash key tenant))
            (λ u. log_audit-Keeps (IsPast id version) _))

  operate-IsPast :
      (v : Service) (operation : Operation) (s : Db Identities)
      → IsPast id version s.tables
      → IsPast id version (operate v operation s).tables
  unfolding Keeps
  operate-IsPast v (locking c key) = set_account_lock-Keeps id version c key false _
  operate-IsPast v (unlocking c key) = set_account_lock-Keeps id version c key true _
  operate-IsPast v (revoking c key) = revoke_all_sessions-Keeps id version c key
  operate-IsPast v (deleting c key email) = delete_account-Keeps email v.dummy_hash c key
  operate-IsPast v (validating now token) =
      validate_for_caller-Keeps PastOf v.tokens v.strategy now token
  operate-IsPast v (refreshing now token) = refresh-Keeps PastOf v.tokens v.strategy now token
  operate-IsPast v (logging_out now token) = delete-Keeps PastOf v.tokens v.strategy now token
  operate-IsPast v (logging_in now session tenant email password) =
      login-Keeps PastOf v.compare v.tokens v.strategy now session tenant email password
  operate-IsPast v (creating_service c name key generated) =
      create_service_account-Keeps PastOf c name key generated
  operate-IsPast v (listing_services c) = list_service_accounts-Keeps PastOf c
  operate-IsPast v (revoking_service c key) = revoke_service_account-Keeps PastOf c key

  pub operate_each-IsPast :
      (v : Service) (operations : List Operation) (s : Db Identities)
      → IsPast id version s.tables
      → IsPast id version (operate_each v operations s).tables
  unfolding operate_each
  operate_each-IsPast v [] s h = h
  operate_each-IsPast v (operation ∷ operations) s h =
      operate_each-IsPast v operations (operate v operation s) (operate-IsPast v operation s h)
