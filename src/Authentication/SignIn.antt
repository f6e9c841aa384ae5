-- ===== src/Authentication/SignIn.antt =====
-- `login` with its limit on failures, `logout` and `signup`.
use b4fast_api.Prelude.{
  ℕ, ◌+◌, ◌-◌, Bool, not, ◌&&◌, Option, none, some, leb, ◌==◌, is_some, if◌then◌else◌,
}
use b4fast_api.Cache.{Redis}
use b4fast_api.Cache.Keys.{Key, Value, key_eq, num, login_fail}
use b4fast_api.Codes.{count}
use b4fast_api.Sessions.{delete_refresh_token}
use b4fast_api.Accounts.{
  User, AuthUser, Tables, Accounts, Welcome, NewIds, Reply, replied, refused, user_role,
  email_provider, create_signup_user, get_auth_user_by_email,
}
use b4fast_api.Accounts.Profile.{update_login_metadata}
use b4fast_api.Authentication.{
  account_locked, invalid_credentials, email_not_verified, repository, Attempt, succeeded, rejected,
  Action, ◌>>=◌, ◌>>◌, return, raise, require, ask, Env, World, Request, LoginResponse,
  ensure_login_enabled, change_cache, change_db, issue_session_tokens, send_verification_email,
}

pub record LoginForm : Type 0 where
  pub email : ℕ
  pub password : ℕ
  pub remember_me : Bool

module _ (E : Env) (R : Redis Key Value key_eq) (D : Tables) where
  -- `_check_login_limit`
  unfoldable pub check_login_limit : ℕ → ℕ → Action (World R D) (Unit {0})
  check_login_limit now ip w =
      let fails = R.get w.cache now (login_fail ip) in
      if is_some fails && leb E.login_failed_limit (count fails)
      then rejected (account_locked (R.ttl w.cache now (login_fail ip))) w
      else succeeded tt w

  -- The cache after `INCR`, and `EXPIRE` at the first failure.
  unfoldable pub count_failure : ℕ → ℕ → R.State → R.State
  count_failure now ip s =
      let failures = count (R.get s now (login_fail ip)) + 1 in
      let s' = R.write s now (login_fail ip) (num failures) in
      if failures == 1 then R.expire s' now (login_fail ip) E.login_locked_time else s'

  -- `_register_login_failure`
  unfoldable pub register_login_failure : ℕ → ℕ → Action (World R D) ℕ
  register_login_failure now ip w =
      let failures = count (R.get w.cache now (login_fail ip)) + 1 in
      let w' = record w { cache = count_failure now ip w.cache } in
      if leb E.login_failed_limit failures
      then rejected (account_locked (R.ttl w'.cache now (login_fail ip))) w'
      else succeeded (E.login_failed_limit - failures) w'

  -- `_reset_login_fail_count`
  abbrev pub reset_login_fail_count : ℕ → Action (World R D) (Unit {0})
  reset_login_fail_count ip = change_cache E R D (λ s. R.delete s (login_fail ip))

  abbrev pub reject_credentials : Request → Action (World R D) LoginResponse
  reject_credentials req = do
    remaining ← register_login_failure req.now req.ip
    raise (invalid_credentials (some remaining))

  -- `login` after the password was verified
  unfoldable pub sign_in : LoginForm → Request → AuthUser → Action (World R D) LoginResponse
  unfolding issue_session_tokens
  sign_in form req u = do
    require (not (E.email_enabled && not u.user.is_verified)) email_not_verified
    reset_login_fail_count req.ip
    change_db E R D (
        update_login_metadata D u.user.id email_provider u.user.email (some req.ip) req.user_agent
          req.now)
    tokens ← issue_session_tokens E R D req u.user.id u.user.email form.remember_me
    return (record { access_token = tokens.0; refresh_token = tokens.1; user = u })

  abbrev pub check_password :
      LoginForm → Request → AuthUser → Option ℕ → Action (World R D) LoginResponse
  check_password form req u none = reject_credentials req
  check_password form req u (some hash) =
      if E.verify_password form.password hash then sign_in form req u else reject_credentials req

  abbrev pub check_user : LoginForm → Request → Option AuthUser → Action (World R D) LoginResponse
  check_user form req none = reject_credentials req
  check_user form req (some u) = check_password form req u u.password_hash

  unfoldable pub login : LoginForm → Request → Action (World R D) LoginResponse
  login form req = do
    ensure_login_enabled E R D
    check_login_limit req.now req.ip
    found ← ask (λ w. get_auth_user_by_email D form.email w.db)
    check_user form req found

  unfoldable pub logout : ℕ → ℕ → Action (World R D) (Unit {0})
  logout now user = change_cache E R D (delete_refresh_token R now user)

  abbrev pub signup_answered : World R D → Reply User (Accounts D) → Attempt User (World R D)
  signup_answered w (replied user db) = succeeded user (record w { db = db })
  signup_answered w (refused e) = rejected (repository e) w

  -- `token` is the verification token that is drawn.
  unfoldable pub signup : Welcome → NewIds → ℕ → ℕ → ℕ → ℕ → ℕ → ℕ → Action (World R D) User
  unfolding send_verification_email
  signup welcome ids now email name password salt token = do
    ensure_login_enabled E R D
    user ← λ w. signup_answered w (
        create_signup_user D welcome ids now email name (E.hash_password salt password)
          (not E.email_enabled) user_role w.db)
    if E.email_enabled then send_verification_email E R D now user.id token else return tt
    return user
