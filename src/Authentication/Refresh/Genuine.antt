-- ===== src/Authentication/Refresh/Genuine.antt =====
-- What a refresh that succeeds rests on.
use b4fast_api.Prelude.{
  ◌&&◌, ◌⊎◌, is_none, is_some, inl, inr, ℕ, ◌≡◌, refl, Bool, true, false, not, ◌||◌, Option, none,
  some, AllSome, arith,
}
use b4fast_api.Cache.{Redis}
use b4fast_api.Cache.Keys.{Key, Value, key_eq}
use b4fast_api.Sessions.{store_refresh_token, verify_refresh_token, verify_refresh_csrf}
use b4fast_api.Accounts.{AuthUser, Tables, get_auth_user_by_id}
use b4fast_api.Authentication.{
  AuthErrorCode, continue, Action, Meets, continue-Meets, require, Env, World,
}
use b4fast_api.Authentication.Refresh.{
  RefreshResponse, Credentials, either, or_default, uses_cookies, refresh_user,
  refresh_access_token, refresh_complete, refresh_with_request_context,
}

-- A test that fails leaves the state as it is.
pub require-Meets :
    {B S : Type 0} (b : Bool) (e : AuthErrorCode) (f : Unit {0} → Action S B) (s : S)
    (P : B → S → Type 0) (F : AuthErrorCode → S → Type 0)
    → F e s
    → (b ≡ true → Meets P F (f tt s))
    → Meets P F (continue (require b e s) f)
require-Meets true e f s P F h k = k refl
require-Meets false e f s P F h k = h

pub require_or-Meets :
    {B S : Type 0} (b : Bool) (e : AuthErrorCode) (f : Unit {0} → Action S B) (s : S)
    (P : B → S → Type 0) (F : AuthErrorCode → S → Type 0)
    → (b ≡ false → F e s)
    → (b ≡ true → Meets P F (f tt s))
    → Meets P F (continue (require b e s) f)
require_or-Meets true e f s P F h k = k refl
require_or-Meets false e f s P F h k = h refl

owner :
    (user : ℕ) (o : Option ℕ)
    → AllSome (λ n. ◌≡◌ {A = Option ℕ} (some user) (some n)) o
    → AllSome (λ n. n ≡ user) o
owner user none h = tt
owner user (some n) h = ground arith

-- A credential that the body lacks came from a cookie.
ambient :
    (a b c d : Option ℕ) {token id : ℕ}
    → either a b ≡ some token
    → either c d ≡ some id
    → (a ≡ none) ⊎ (c ≡ none)
    → ((is_none a && is_some b) || (is_none c && is_some d)) ≡ true
ambient none none c d t i missing = cc
ambient none (some b) c d t i missing = refl
ambient (some a) b none none t i missing = cc
ambient (some a) b none (some d) t i missing = refl
ambient (some a) b (some c) d t i (inl e) = cc
ambient (some a) b (some c) d t i (inr e) = cc

either-named : (o p : Option ℕ) → AllSome (λ n. either o p ≡ some n) o
either-named none p = tt
either-named (some n) p = refl

module _ (E : Env) (R : Redis Key Value key_eq) (D : Tables) (now : ℕ) where
  pub record IsGenuine (c : Credentials) (w : World R D) (r : RefreshResponse × ℕ × Bool)
      (w' : World R D) : Type 0 where
    pub token : ℕ
    pub id : ℕ
    pub user : ℕ
    pub found : AuthUser
    pub token_given : either c.refresh_token c.cookie_token ≡ some token
    pub id_given : either c.session_id c.cookie_session_id ≡ some id
    pub named : AllSome (λ n. n ≡ user) c.user_id
    pub verified : verify_refresh_token R now user id token w.cache ≡ true
    pub active : get_auth_user_by_id D user w.db ≡ some found
    pub guarded :
        (c.refresh_token ≡ none) ⊎ (c.session_id ≡ none)
        → verify_refresh_csrf R E.is_plain now id c.csrf_token w.cache ≡ true
    pub answered : r.0 ≡ record {
      access_token = E.encode found.user.id found.user.email now;
      refresh_token = token;
    }
    pub renewed : w' ≡ record w {
      cache = store_refresh_token R E.refresh_lifetime now found.user.id id token r.2 w.cache;
    }

  abbrev pub Same : World R D → AuthErrorCode → World R D → Type 0
  Same w e w' = w' ≡ w

  -- What `refresh_access_token` needs.
  record IsVerified (user id token : ℕ) (remember : Bool) (w : World R D) (r : RefreshResponse)
      (w' : World R D) : Type 0 where
    found : AuthUser
    verified : verify_refresh_token R now user id token w.cache ≡ true
    active : get_auth_user_by_id D user w.db ≡ some found
    answered : r ≡ record {
      access_token = E.encode found.user.id found.user.email now;
      refresh_token = token;
    }
    renewed : w' ≡ record w {
      cache = store_refresh_token R E.refresh_lifetime now found.user.id id token remember w.cache;
    }

  user-IsVerified :
      (user id token : ℕ) (remember : Bool) (w : World R D) (o : Option AuthUser)
      → verify_refresh_token R now user id token w.cache ≡ true
      → get_auth_user_by_id D user w.db ≡ o
      → Meets
          (IsVerified user id token remember w)
          (Same w)
          (refresh_user E R D now id token remember o w)
  user-IsVerified user id token remember w none v e = refl
  user-IsVerified user id token remember w (some u) v e = record {
    found = u;
    verified = v;
    active = e;
    answered = refl;
    renewed = refl;
  }

  access-IsVerified :
      (user id token : ℕ) (remember : Bool) (w : World R D)
      → Meets
          (IsVerified user id token remember w)
          (Same w)
          (refresh_access_token E R D now user id token remember w)
  unfolding refresh_access_token
  access-IsVerified user id token remember w =
      require-Meets E.login_enabled _ _ w (IsVerified user id token remember w) (Same w) refl (λ _.
        require-Meets (verify_refresh_token R now user id token w.cache) _ _ w
          (IsVerified user id token remember w) (Same w) refl
          (λ v. user-IsVerified user id token remember w _ v refl))

  complete-IsGenuine :
      (c : Credentials) (token id user : Option ℕ) (remember : Bool) (w : World R D)
      → either c.refresh_token c.cookie_token ≡ token
      → either c.session_id c.cookie_session_id ≡ id
      → AllSome (λ n. user ≡ some n) c.user_id
      → (uses_cookies c ≡ true
          → verify_refresh_csrf R E.is_plain now (or_default E.blank id) c.csrf_token w.cache
            ≡ true)
      → Meets (IsGenuine c w) (Same w) (refresh_complete E R D now token id user remember w)
  complete-IsGenuine c none id user remember w et ei named guarded = refl
  complete-IsGenuine c (some token) none user remember w et ei named guarded = refl
  complete-IsGenuine c (some token) (some id) none remember w et ei named guarded = refl
  complete-IsGenuine c (some token) (some id) (some user) remember w et ei named guarded =
      continue-Meets (IsVerified user id token remember w) (IsGenuine c w) (Same w)
        (refresh_access_token E R D now user id token remember w) _
        (access-IsVerified user id token remember w)
        (λ r w' v. record {
          token = token;
          id = id;
          user = user;
          found = v.found;
          token_given = et;
          id_given = ei;
          named = owner user c.user_id named;
          verified = v.verified;
          active = v.active;
          guarded = λ missing. guarded (
              ambient c.refresh_token c.cookie_token c.session_id c.cookie_session_id et ei
                missing);
          answered = v.answered;
          renewed = v.renewed;
        })

  -- A refresh that succeeds had a token and a session that the body or a cookie gave, which verify
  -- for the user of its answer, and an active user; where the body lacks one of the two
  -- credentials, the request had the CSRF token of that session. It renews the session for the
  -- answered tokens. A refresh that fails changes nothing.
  pub refresh-IsGenuine :
      (c : Credentials) (w : World R D)
      → Meets (IsGenuine c w) (Same w) (refresh_with_request_context E R D now c w)
  unfolding refresh_with_request_context
  refresh-IsGenuine c w = require-Meets E.login_enabled _ _ w (IsGenuine c w) (Same w) refl (λ _.
      require-Meets
        (not (uses_cookies c)
          || verify_refresh_csrf R E.is_plain now
              (or_default E.blank (either c.session_id c.cookie_session_id)) c.csrf_token w.cache)
        _ _ w (IsGenuine c w) (Same w) refl
        (λ allowed.
          complete-IsGenuine c _ _ _ _ w refl refl (either-named c.user_id _)
            (λ cookies. ground (arith, allowed, cookies))))
