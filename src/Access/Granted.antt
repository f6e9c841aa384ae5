-- ===== src/Access/Granted.antt =====
-- Who is let in.
use b4fast_api.Prelude.{ℕ, ◌≡◌, true, false, Option, none, some, Elem, AllSome}
use b4fast_api.ApiKeys.{ApiKey}
use b4fast_api.Accounts.{Tables, Accounts, AuthUser, user_rows}
use b4fast_api.Access.{Auth, Access, granted, denied, is_rejected}

module _ (D : Tables) (E : Auth) where
  -- A user of the database that is active and, in production, has no bootstrap identity.
  pub record IsAdmissible (s : Accounts D) (u : AuthUser) : Type 0 where
    pub stored : Elem u.user (user_rows D s)
    pub active : u.user.is_active ≡ true
    pub accepted : is_rejected D E u s ≡ false

  abbrev pub AllGranted : {A : Type 0} → (A → Type 0) → Access A → Type 0
  AllGranted P (denied e) = Unit
  AllGranted P (granted a) = P a

  -- A presented API key was accepted and is the user's.
  abbrev pub KeyAgrees : Access (Option ApiKey) → AuthUser → Type 0
  KeyAgrees (denied e) u = ⊥
  KeyAgrees (granted none) u = Unit
  KeyAgrees (granted (some k)) u = u.user.id ≡ k.user_id

  abbrev IsLookup : ℕ → Accounts D → AuthUser → Type 0
  IsLookup user s u = (u.user.id ≡ user) × (u.user.is_active ≡ true) × Elem u.user (user_rows D s)

  abbrev IsToken : Accounts D → Option AuthUser → Type 0
  IsToken s o = AllSome (IsAdmissible s) o
