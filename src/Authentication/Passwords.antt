-- ===== src/Authentication/Passwords.antt =====
-- `request_password_reset` and `reset_password`.
pub mod Reset
use b4fast_api.Prelude.{ℕ, Option, none, some}
use b4fast_api.Cache.{Redis}
use b4fast_api.Cache.Keys.{Key, Value, key_eq}
use b4fast_api.Sessions.{password_reset, consume_token, delete_refresh_token}
use b4fast_api.Accounts.{AuthUser, Tables, get_auth_user_by_email}
use b4fast_api.Accounts.Profile.{update_password_hash}
use b4fast_api.Authentication.{
  invalid_token, user_not_found, Action, ◌>>=◌, ◌>>◌, return, raise, require, ask, Env, World,
  ensure_login_enabled, ensure_email_enabled, change_cache, call_db, call_cache,
  send_password_reset_email,
}

module _ (E : Env) (R : Redis Key Value key_eq) (D : Tables) where
  abbrev reset_for : ℕ → ℕ → Option AuthUser → Action (World R D) (Unit {0})
  reset_for now token none = return tt
  reset_for now token (some u) = send_password_reset_email E R D now u.user.id token

  -- `token` is the reset token that is drawn.
  unfoldable pub request_password_reset : ℕ → ℕ → ℕ → Action (World R D) (Unit {0})
  request_password_reset now email token = do
    ensure_login_enabled E R D
    ensure_email_enabled E R D
    found ← ask (λ w. get_auth_user_by_email D email w.db)
    reset_for now token found

  abbrev pub reset_owned : ℕ → ℕ → ℕ → Option ℕ → Action (World R D) (Unit {0})
  reset_owned now password salt none = raise invalid_token
  reset_owned now password salt (some user) = do
    is_updated ← call_db E R D (update_password_hash D user (E.hash_password salt password))
    require is_updated user_not_found
    change_cache E R D (delete_refresh_token R now user)

  unfoldable pub reset_password : ℕ → ℕ → ℕ → ℕ → Action (World R D) (Unit {0})
  reset_password now token password salt = do
    ensure_login_enabled E R D
    ensure_email_enabled E R D
    owner ← call_cache E R D (consume_token R password_reset now token)
    reset_owned now password salt owner
