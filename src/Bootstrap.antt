-- ===== src/Bootstrap.antt =====
-- src/backend/app/services/bootstrap.py: the account that development without a login runs under. The
-- texts of the settings come stripped, with `none` for an empty one.
pub mod Provisioned
mod Tests
use b4fast_api.Prelude.{
  ℕ, Bool, true, false, not, ◌&&◌, ◌||◌, ◌==◌, Option, none, some, is_none, and_then, if◌then◌else◌,
}
use b4fast_api.Accounts.{
  User, AuthUser, admin_role, is_admin, Tables, Accounts, Welcome, NewIds, Reply, replied, refused,
  create_oauth_user, get_auth_user_by_identity,
}
use b4fast_api.Accounts.Profile.{get_user_response_by_email, get_user_response_by_id}

pub record BootstrapSettings : Type 0 where
  -- whether APP_MODE is "development"
  pub is_development : Bool
  pub login_enabled : Bool
  pub bootstrap_user_email : Option ℕ
  pub bootstrap_user_name : Option ℕ
  -- the number of the provider "bootstrap"
  pub provider : ℕ
  -- `create_access_token` of a subject and an e-mail
  pub create_access_token : ℕ → ℕ → ℕ

module _ (E : BootstrapSettings) (D : Tables) where
  abbrev S : Type 0
  S = Accounts D

  -- What `client_config` says of the user: the snapshot and its token.
  unfoldable pub client_config : Option ℕ → S → Option (User × ℕ)
  client_config none s = none
  client_config (some user) s =
      if E.login_enabled
      then none
      else and_then (get_user_response_by_id D user s)
          (λ u. some (u, E.create_access_token u.id u.email))

  -- The database after `create_oauth_user`, whose errors are passed over.
  abbrev pub after_creation : S → Reply User S → S
  after_creation s (replied user t) = t
  after_creation s (refused e) = s

  -- The database before the checks: an account is created where no active user has the e-mail.
  abbrev pub provision : Welcome → NewIds → ℕ → ℕ → ℕ → S → Option User → S
  provision welcome ids now email name s (some user) = s
  provision welcome ids now email name s none =
      after_creation s
        (create_oauth_user D welcome ids now email name E.provider email true admin_role s)

  abbrev pub is_own : User → AuthUser → Bool
  is_own user identity =
      identity.user.id == user.id && (is_none identity.password_hash && is_admin identity.user.role)

  -- `none` is the `ValueError` of a conflict.
  abbrev pub checked : Option User → Option AuthUser → Option User
  checked (some user) (some identity) = if is_own user identity then some user else none
  checked _ _ = none

  abbrev pub initialize_named : Welcome → NewIds → ℕ → Option ℕ → Option ℕ → S → Option User × S
  initialize_named welcome ids now (some email) (some name) s =
      let t = provision welcome ids now email name s (get_user_response_by_email D email s) in
      (
        checked (get_user_response_by_email D email t)
            (get_auth_user_by_identity D E.provider email t),
        t,
      )
  initialize_named welcome ids now _ _ s = (none, s)

  -- `none` is a `ValueError`.
  unfoldable pub initialize : Welcome → NewIds → ℕ → S → Option User × S
  initialize welcome ids now s =
      if E.is_development && not E.login_enabled
      then initialize_named welcome ids now E.bootstrap_user_email E.bootstrap_user_name s
      else (none, s)
