-- ===== src/Authentication/Refresh.antt =====
-- `refresh_access_token`, `bootstrap_refresh_csrf` and `refresh_with_request_context`. An empty text
-- among the credentials is `none`.
pub mod Genuine
use b4fast_api.Prelude.{
  ℕ, Bool, true, false, not, ◌&&◌, ◌||◌, Option, none, some, is_some, is_none, and_then,
}
use b4fast_api.Cache.{Redis}
use b4fast_api.Cache.Keys.{Key, Value, key_eq}
use b4fast_api.Sessions.{
  store_refresh_token, verify_refresh_token, verify_refresh_csrf, get_refresh_session,
  get_or_create_refresh_csrf,
}
use b4fast_api.Accounts.{AuthUser, Tables, get_auth_user_by_id}
use b4fast_api.Authentication.{
  invalid_token, csrf_invalid, user_not_found, Action, ◌>>=◌, ◌>>◌, return, raise, require, ask,
  Env, World, ensure_login_enabled, change_cache, call_cache,
}

pub record RefreshResponse : Type 0 where
  pub access_token : ℕ
  pub refresh_token : ℕ

-- The body, the cookies and the header of a request.
pub record Credentials : Type 0 where
  pub refresh_token : Option ℕ
  pub user_id : Option ℕ
  pub session_id : Option ℕ
  pub cookie_token : Option ℕ
  pub cookie_session_id : Option ℕ
  pub csrf_token : Option ℕ

-- `a or b`
abbrev pub either {ℓ} : {A : Type ℓ} → Option A → Option A → Option A
either none b = b
either (some a) b = some a

abbrev pub or_default : ℕ → Option ℕ → ℕ
or_default d none = d
or_default d (some n) = n

abbrev pub uses_cookies : Credentials → Bool
uses_cookies c =
    (is_none c.refresh_token && is_some c.cookie_token)
    || (is_none c.session_id && is_some c.cookie_session_id)

abbrev pub session_user : Option (ℕ × Bool) → Option ℕ
session_user none = none
session_user (some (user, remember_me)) = some user

abbrev pub session_remember_me : Option (ℕ × Bool) → Bool
session_remember_me none = false
session_remember_me (some (user, remember_me)) = remember_me

module _ (E : Env) (R : Redis Key Value key_eq) (D : Tables) where
  abbrev pub refresh_user : ℕ → ℕ → ℕ → Bool → Option AuthUser → Action (World R D) RefreshResponse
  refresh_user now id token remember_me none = raise user_not_found
  refresh_user now id token remember_me (some u) = do
    change_cache E R D (store_refresh_token R E.refresh_lifetime now u.user.id id token remember_me)
    return (record { access_token = E.encode u.user.id u.user.email now; refresh_token = token })

  unfoldable pub refresh_access_token : ℕ → ℕ → ℕ → ℕ → Bool → Action (World R D) RefreshResponse
  refresh_access_token now user id token remember_me = do
    ensure_login_enabled E R D
    is_valid ← ask (λ w. verify_refresh_token R now user id token w.cache)
    require is_valid invalid_token
    found ← ask (λ w. get_auth_user_by_id D user w.db)
    refresh_user now id token remember_me found

  -- What the response is made of: the tokens, the session and whether it is remembered.
  abbrev pub refresh_complete :
      ℕ → Option ℕ → Option ℕ → Option ℕ → Bool → Action (World R D) (RefreshResponse × ℕ × Bool)
  refresh_complete now (some token) (some id) (some user) remember_me = do
    payload ← refresh_access_token now user id token remember_me
    return (payload, id, remember_me)
  refresh_complete now _ _ _ remember_me = raise invalid_token

  unfoldable pub refresh_with_request_context :
      ℕ → Credentials → Action (World R D) (RefreshResponse × ℕ × Bool)
  refresh_with_request_context now c =
      let refresh_token_value = either c.refresh_token c.cookie_token in
      let session_id_value = either c.session_id c.cookie_session_id in
      do
        ensure_login_enabled E R D
        allowed ← ask (λ w.
            not (uses_cookies c)
            || verify_refresh_csrf R E.is_plain now (or_default E.blank session_id_value)
                c.csrf_token w.cache)
        require allowed csrf_invalid
        session ← ask (λ w. and_then session_id_value (λ id. get_refresh_session R now id w.cache))
        refresh_complete now refresh_token_value session_id_value
            (either c.user_id (session_user session)) (session_remember_me session)

  abbrev cookie_is_valid : ℕ → Option ℕ → ℕ → Option (ℕ × Bool) → World R D → Bool
  cookie_is_valid now none id session w = false
  cookie_is_valid now (some token) id none w = false
  cookie_is_valid now (some token) id (some (user, remember_me)) w =
      verify_refresh_token R now user id token w.cache

  abbrev csrf_found : Option ℕ → Action (World R D) ℕ
  csrf_found none = raise invalid_token
  csrf_found (some csrf_token) = return csrf_token

  -- `fresh` is the token that `secrets` would give.
  abbrev pub bootstrap_session : ℕ → ℕ → Option ℕ → Option ℕ → Action (World R D) ℕ
  bootstrap_session now fresh token none = raise invalid_token
  bootstrap_session now fresh token (some id) = do
    is_valid ← ask (λ w. cookie_is_valid now token id (get_refresh_session R now id w.cache) w)
    require is_valid invalid_token
    csrf_token ← call_cache E R D (get_or_create_refresh_csrf R now id fresh)
    csrf_found csrf_token

  -- `bootstraps` is whether the header `x-csrf-bootstrap` is "1".
  unfoldable pub bootstrap_refresh_csrf : ℕ → ℕ → Bool → Credentials → Action (World R D) ℕ
  bootstrap_refresh_csrf now fresh bootstraps c = do
    ensure_login_enabled E R D
    require bootstraps csrf_invalid
    bootstrap_session now fresh c.cookie_token c.cookie_session_id
