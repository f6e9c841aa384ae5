-- ===== src/Authentication/Confirmation.antt =====
-- What a user confirms with a code by e-mail: `request_password_change_code`,
-- `request_account_deletion_code`, `verify_account_email_code` and `change_password`.
pub mod Change
use b4fast_api.Prelude.{
  ℕ, Bool, true, false, if◌then◌else◌, Option, none, some, List, ◌==◌, find_row, and_then,
}
use b4fast_api.Cache.{Redis}
use b4fast_api.Cache.Keys.{Key, Value, Purpose, key_eq, account_delete, password_change}
use b4fast_api.Codes.{
  Outcome, returns, contention, Limits, Round, IssueRound, issue_email_code, consume_email_code,
}
use b4fast_api.Sessions.{delete_refresh_token}
use b4fast_api.Accounts.{
  User, AuthUser, Tables, Accounts, user_rows, get_auth_user_by_id, change_password_hash,
}
use b4fast_api.Accounts.Profile.{get_user_response_by_id}
use b4fast_api.Authentication.{
  AuthErrorCode, user_not_found, invalid_credentials, code_throttled, code_send_failed,
  code_invalid, change_failed, code_mail, Attempt, succeeded, rejected, Action, ◌>>=◌, ◌>>◌, return,
  raise, require, ask, Env, World, ensure_login_enabled, ensure_email_enabled, change_cache,
  change_db, call_db, enqueue,
}

-- ACCOUNT_CODE_TTL_SECONDS, ACCOUNT_CODE_COOLDOWN_SECONDS and the limits of the calls
abbrev pub account_limits : Limits
account_limits = record {
  ttl = 600;
  cooldown_time = 30;
  request_limit = 5;
  request_window = 3600;
  attempt_limit = 5;
}

module _ (E : Env) (R : Redis Key Value key_eq) (D : Tables) where
  abbrev pub settled : {A : Type 0} → AuthErrorCode → World R D → Outcome A → Attempt A (World R D)
  settled failed w (returns a) = succeeded a w
  settled failed w contention = rejected failed w

  -- A call on the codes; its `RuntimeError` is caught and ends in `failed`.
  abbrev pub call_codes :
      {A : Type 0} → AuthErrorCode → (R.State → Outcome A × R.State) → Action (World R D) A
  call_codes failed f w =
      let (o, cache) = f w.cache in settled failed (record w { cache = cache }) o

  abbrev pub send_code : Purpose → ℕ → Option ℕ × ℕ → Action (World R D) (Unit {0})
  send_code purpose user (none, wait) = raise (code_throttled purpose wait)
  send_code purpose user (some code, wait) =
      enqueue E R D (code_send_failed purpose) (code_mail purpose user code)

  abbrev pub request_code : Purpose → ℕ → ℕ → List (IssueRound R) → Action (World R D) (Unit {0})
  request_code purpose now user rounds = do
    issued ←
        call_codes (code_send_failed purpose)
          (issue_email_code R E.digest account_limits purpose user now rounds)
    send_code purpose user issued

  -- `user is None or not user.password_hash`
  abbrev pub current_hash : Option ℕ → Action (World R D) ℕ
  current_hash none = raise (invalid_credentials none)
  current_hash (some hash) = return hash

  unfoldable pub request_password_change_code :
      ℕ → ℕ → List (IssueRound R) → Action (World R D) (Unit {0})
  request_password_change_code now user rounds = do
    ensure_login_enabled E R D
    ensure_email_enabled E R D
    hash ← λ w. current_hash (and_then (get_auth_user_by_id D user w.db) (λ u. u.password_hash)) w
    request_code password_change now user rounds

  abbrev pub found_user : Option User → Action (World R D) User
  found_user none = raise user_not_found
  found_user (some u) = return u

  unfoldable pub request_account_deletion_code :
      ℕ → ℕ → List (IssueRound R) → Action (World R D) (Unit {0})
  request_account_deletion_code now user rounds = do
    ensure_login_enabled E R D
    ensure_email_enabled E R D
    u ← λ w. found_user (get_user_response_by_id D user w.db) w
    request_code account_delete now user rounds

  -- `consume_email_code` with the limits of the callers, which raise where it is false
  abbrev pub confirm : Purpose → Bool → ℕ → ℕ → ℕ → List (Round R) → Action (World R D) (Unit {0})
  confirm purpose consume now user code rounds = do
    ok ←
        call_codes (change_failed purpose)
          (consume_email_code R E.digest 5 600 consume purpose user code now rounds)
    require ok (code_invalid purpose)

  unfoldable pub verify_account_email_code :
      ℕ → ℕ → ℕ → Bool → List (Round R) → Action (World R D) (Unit {0})
  verify_account_email_code now user code password rounds = do
    ensure_login_enabled E R D
    ensure_email_enabled E R D
    confirm (if password then password_change else account_delete) false now user code rounds

  -- `others` is what other requests do to the database between the read of the hash and its change.
  unfoldable pub change_password :
      ℕ → ℕ → ℕ → ℕ → ℕ → List (Round R) → (Accounts D → Accounts D) → Action (World R D) (Unit {0})
  change_password now user code password salt rounds others = do
    ensure_login_enabled E R D
    ensure_email_enabled E R D
    hash ← λ w. current_hash (and_then (get_auth_user_by_id D user w.db) (λ u. u.password_hash)) w
    confirm password_change true now user code rounds
    change_cache E R D (delete_refresh_token R now user)
    change_db E R D others
    changed ← call_db E R D (change_password_hash D user hash (E.hash_password salt password))
    require changed (code_invalid password_change)
