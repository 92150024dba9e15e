-- ===== src/Auth/Locked.antt =====
-- What an admin operation on an account does to the tokens that were issued before it.
use sannad.Prelude.{
  ℕ, String, Bool, true, false, Option, none, some, List, [], ◌∷◌, ◌≡◌, refl, leb, ◌&&◌, arith,
  str_eq, str_eq_self, if◌then◌else◌,
}
use sannad.Prelude.Tables.{first, update}
use sannad.Auth.Accounts.{Account, Identities, has_id, owned}

module _ (id : String) (version : ℕ) where
  -- The account has moved past the version.
  abbrev pub Past : Option Account → Type 0
  Past none = false ≡ true
  Past (some a) = leb a.token_version version ≡ false

  abbrev pub IsPast : Identities → Type 0
  IsPast t = Past (first (has_id id) t.accounts)

  pub update-Past :
      (p : Account → Bool) (f : Account → Account)
      → ((a : Account) → (f a).id ≡ a.id)
      → ((a : Account) → leb a.token_version (f a).token_version ≡ true)
      → (rows : List Account) → Past (first (has_id id) rows)
      → Past (first (has_id id) (update p f rows))
  unfolding first update
  update-Past p f same grows [] = λ h. h
  update-Past p f same grows (a ∷ rows) =
      go (str_eq a.id id) (p a) refl (update-Past p f same grows rows)
    where
      go :
          (b c : Bool)
          → str_eq a.id id ≡ b
          → (Past (first (has_id id) rows) → Past (first (has_id id) (update p f rows)))
          → Past (if b then some a else first (has_id id) rows)
          → Past (first (has_id id) (if c then f a ∷ update p f rows else a ∷ update p f rows))
      go true true e ih h = rw (same a, e) (ground (arith, h, grows a))
      go true false e ih h = rw e h
      go false true e ih h = rw (same a, e) (ih h)
      go false false e ih h = rw e (ih h)

  the_account : {A : Type 0} {a b : A} → some a ≡ some b → a ≡ b
  the_account h = cc h

  pub update-owned :
      (tenant : String) (account : Account) (f : Account → Account)
      → ((a : Account) → (f a).id ≡ a.id)
      → ((a : Account) → leb (f a).token_version a.token_version ≡ false)
      → leb version account.token_version ≡ true
      → account.tenant_id ≡ tenant
      → (rows : List Account) → first (has_id id) rows ≡ some account
      → Past (first (has_id id) (update (owned id tenant) f rows))
  unfolding first update
  update-owned tenant account f same grows old own [] = λ h. absurd (cc h)
  update-owned tenant account f same grows old own (a ∷ rows) =
      go (str_eq a.id id) refl (update-owned tenant account f same grows old own rows)
    where
      owns : (a : Account) → some a ≡ some account → str_eq a.tenant_id tenant ≡ true
      owns a h = rw (the_account h, own) (str_eq_self tenant)

      older : (a : Account) → some a ≡ some account → leb version a.token_version ≡ true
      older a h = rw (the_account h) old

      go :
          (b : Bool)
          → str_eq a.id id ≡ b
          → (first (has_id id) rows ≡ some account
              → Past (first (has_id id) (update (owned id tenant) f rows)))
          → (if b then some a else first (has_id id) rows) ≡ some account
          → Past (
              first (has_id id) (
                if b && str_eq a.tenant_id tenant
                then f a ∷ update (owned id tenant) f rows
                else a ∷ update (owned id tenant) f rows))
      go true e ih h = rw (owns a h, same a, e) (ground (arith, grows a, older a h))
      go false e ih h = rw e (ih h)
