-- ===== src/Access.antt =====
-- src/backend/app/deps.py: who a request acts for. Tokens and keys are numbers; the decoding of a
-- bearer token and the keyed digest of an API key are parameters. FastAPI resolves the token
-- before the key, and a denied token ends the request.
pub mod Granted
mod Tests
use b4fast_api.Prelude.{
  ℕ, ◌≡◌, Bool, true, false, ◌&&◌, not, Option, none, some, List, [], ◌∷◌, ◌==◌, if◌then◌else◌,
  any_row,
}
use b4fast_api.ApiKeys.{ApiKey, record_valid_key_use}
use b4fast_api.Accounts.{UserRole, same_role, Tables, Accounts, AuthUser, get_auth_user_by_id}
use b4fast_api.Accounts.Profile.{has_bootstrap_identity}

pub data Denial : Type 0 where
  invalid_token : Denial
  user_not_found : Denial
  insufficient_role : Denial
  api_key_invalid : Denial
  api_key_user_mismatch : Denial

pub data Access (A : Type 0) : Type 0 where
  granted : A → Access A
  denied : Denial → Access A

-- What the module takes from libraries and settings.
pub record Auth : Type 0 where
  -- `jwt.decode` and the number of its subject; `none` where either fails
  pub decode : ℕ → Option ℕ
  -- `hmac` with the secret key
  pub digest : ℕ → ℕ
  -- `str.strip`, and whether nothing is left
  pub strip : ℕ → ℕ
  pub is_blank : ℕ → Bool
  pub is_production : Bool
  -- the provider "bootstrap"
  pub bootstrap : ℕ

module _ (D : Tables) (E : Auth) where
  -- whether `reject_production_bootstrap` raises
  abbrev pub is_rejected : AuthUser → Accounts D → Bool
  is_rejected u s = E.is_production && has_bootstrap_identity D E.bootstrap u.user.id s

  abbrev pub token_user : Accounts D → Option AuthUser → Access (Option AuthUser)
  token_user s none = denied user_not_found
  token_user s (some u) = if is_rejected u s then denied insufficient_role else granted (some u)

  abbrev pub decoded_user : Accounts D → Option ℕ → Access (Option AuthUser)
  decoded_user s none = denied invalid_token
  decoded_user s (some user) = token_user s (get_auth_user_by_id D user s)

  abbrev pub get_current_token_user : Option ℕ → Accounts D → Access (Option AuthUser)
  get_current_token_user none s = granted none
  get_current_token_user (some token) s = decoded_user s (E.decode token)

  abbrev pub get_current_session_user : Access (Option AuthUser) → Access AuthUser
  get_current_session_user (denied e) = denied e
  get_current_session_user (granted none) = denied invalid_token
  get_current_session_user (granted (some u)) = granted u

  abbrev pub key_used : Option ApiKey → Access (Option ApiKey)
  key_used none = denied api_key_invalid
  key_used (some k) = granted (some k)

  abbrev pub get_current_api_key : ℕ → Option ℕ → Accounts D → Access (Option ApiKey) × Accounts D
  get_current_api_key now none s = (granted none, s)
  get_current_api_key now (some api_key) s =
      let normalized = E.strip api_key in
      let (used, keys) = record_valid_key_use D.api_keys (E.digest normalized) now s.api_keys in
      if E.is_blank normalized
      then (denied api_key_invalid, s)
      else (key_used used, record s { api_keys = keys })

  abbrev pub with_key_user : Accounts D → Option AuthUser → Option AuthUser → Access AuthUser
  with_key_user s token none = denied user_not_found
  with_key_user s none (some k) = if is_rejected k s then denied insufficient_role else granted k
  with_key_user s (some t) (some k) =
      if t.user.id == k.user.id
      then (if is_rejected k s then denied insufficient_role else granted t)
      else denied api_key_user_mismatch

  abbrev pub combine : Accounts D → Option AuthUser → Option ApiKey → Access AuthUser
  combine s none none = denied invalid_token
  combine s (some t) none = granted t
  combine s token (some k) = with_key_user s token (get_auth_user_by_id D k.user_id s)

  abbrev pub after_key :
      Option AuthUser → Access (Option ApiKey) × Accounts D → Access AuthUser × Accounts D
  after_key token (denied e, s) = (denied e, s)
  after_key token (granted k, s) = (combine s token k, s)

  abbrev pub after_token :
      ℕ → Option ℕ → Accounts D → Access (Option AuthUser) → Access AuthUser × Accounts D
  after_token now api_key s (denied e) = (denied e, s)
  after_token now api_key s (granted token) = after_key token (get_current_api_key now api_key s)

  unfoldable pub get_current_user :
      ℕ → Option ℕ → Option ℕ → Accounts D → Access AuthUser × Accounts D
  get_current_user now token api_key s = after_token now api_key s (get_current_token_user token s)

unfoldable pub require_roles : List UserRole → AuthUser → Access AuthUser
require_roles roles u =
    if any_row (same_role u.user.role) roles then granted u else denied insufficient_role
