-- ===== src/Authentication/Renewal.antt =====
-- A login followed by a refresh with the credentials that it answered.
use b4fast_api.Prelude.{Bool, true, false}
use b4fast_api.Sessions.{store_refresh_token}
use b4fast_api.Authentication.{succeeded, continue, require, Action}
use b4fast_api.Authentication.Refresh.{
  Credentials, refresh_user, refresh_access_token, refresh_with_request_context,
}
use b4fast_api.Prelude.{
  ℕ, ◌+◌, ◌<◌, ◌≡◌, refl, sym, subst, ◌∙◌, true, not, ◌&&◌, Option, none, some, leb, ◌==◌, is_some,
  find_row, find_row_sound, Bool-cases, Option-cases, inl, inr, arith, lt→ltb, ==-refl,
}
use b4fast_api.Cache.{Redis}
use b4fast_api.Cache.Keys.{Key, Value, key_eq, login_fail}
use b4fast_api.Codes.{count}
use b4fast_api.Sessions.{verify_refresh_token, get_refresh_session}
use b4fast_api.Sessions.Revocation.{get-store_session, verify-store}
use b4fast_api.Accounts.{
  AuthUser, Tables, Accounts, user_rows, auth_user, email_provider, get_auth_user_by_id,
  get_auth_user_by_identity, get_auth_user_by_email,
}
use b4fast_api.Accounts.Profile.{update_login_metadata}
use b4fast_api.Authentication.{
  AuthErrorCode, Meets, Env, World, Request, LoginResponse, issue_session_tokens,
}
use b4fast_api.Authentication.SignIn.{
  LoginForm, check_login_limit, register_login_failure, reject_credentials, sign_in, check_password,
  check_user, login,
}
use b4fast_api.Authentication.Refresh.Genuine.{require-Meets}

module _ (D : Tables) where
  -- The user that an identity names is the one of its id.
  pub user_of_identity :
      (id : ℕ) (u : AuthUser) (s : Accounts D)
      → get_auth_user_by_id D id s ≡ some u
      → u.user.id ≡ id
  unfolding get_auth_user_by_id
  user_of_identity id u s e =
      elim (Option-cases (find_row (λ v. v.id == id && v.is_active) (user_rows D s))) [
        | inl absent ↦ cc (rw absent at e)
        | inr (v, found) ↦
            let same : auth_user D s v ≡ u = cc (rw found at e) in
            let fits : (v.id == id && v.is_active) ≡ true =
              find_row_sound (λ v. v.id == id && v.is_active) (user_rows D s) found in
            subst (λ x. x.user.id ≡ id) same (ground (arith, fits))
      ]

  by_email-by_id :
      (email : ℕ) (u : AuthUser) (s : Accounts D)
      → get_auth_user_by_email D email s ≡ some u
      → get_auth_user_by_id D u.user.id s ≡ some u
  unfolding get_auth_user_by_email get_auth_user_by_identity
  by_email-by_id email u s e =
      elim (Option-cases (
        find_row (λ i. i.provider == email_provider && i.identifier == email)
          (D.identities.rows s.identities))) [
            | inl absent ↦ cc (rw absent at e)
            | inr (i, found) ↦
                let named : get_auth_user_by_id D i.user_id s ≡ some u = rw found at e in
                subst (λ n. get_auth_user_by_id D n s ≡ some u)
                  (sym (user_of_identity i.user_id u s named)) named
          ]

  by_id-login_metadata :
      (id user provider identifier : ℕ) (ip user_agent : Option ℕ) (now : ℕ) (s : Accounts D)
      → get_auth_user_by_id D id
          (update_login_metadata D user provider identifier ip user_agent now s)
        ≡ get_auth_user_by_id D id s
  unfolding get_auth_user_by_id update_login_metadata
  by_id-login_metadata id user provider identifier ip user_agent now s =
      elim (Option-cases (
        find_row (λ i. i.user_id == user && (i.provider == provider && i.identifier == identifier))
          (D.identities.rows s.identities))) [
            | inl absent ↦ rw absent refl
            | inr (i, found) ↦ rw found refl
          ]

module _ (E : Env) (R : Redis Key Value key_eq) (D : Tables) where
  -- What a login leaves for a refresh.
  pub record LeavesSession (form : LoginForm) (req : Request) (r : LoginResponse) (w : World R D)
      : Type 0 where
    pub enabled : E.login_enabled ≡ true
    pub active : get_auth_user_by_id D r.user.user.id w.db ≡ some r.user
    pub verified :
        (t : ℕ)
        → t < req.now + E.refresh_lifetime
        → verify_refresh_token R t r.user.user.id req.session_id r.refresh_token w.cache ≡ true
    pub remembered :
        (t : ℕ)
        → t < req.now + E.refresh_lifetime
        → get_refresh_session R t req.session_id w.cache ≡ some (r.user.user.id, form.remember_me)

  abbrev Any : AuthErrorCode → World R D → Type 0
  Any e w = Unit

  sign_in-LeavesSession :
      (form : LoginForm) (req : Request) (u : AuthUser) (w : World R D)
      → E.login_enabled ≡ true
      → get_auth_user_by_id D u.user.id w.db ≡ some u
      → Meets (LeavesSession form req) Any (sign_in E R D form req u w)
  unfolding sign_in issue_session_tokens get_refresh_session
  sign_in-LeavesSession form req u w on active =
      require-Meets (not (E.email_enabled && not u.user.is_verified)) _ _ w (LeavesSession form req)
        Any tt
        (λ fine. record {
          enabled = on;
          active = rw (by_id-login_metadata D) active;
          verified = λ t before.
              rw (verify-store R E.refresh_lifetime, lt→ltb t _ before, ==-refl, ==-refl) refl;
          remembered = λ t before.
              rw (get-store_session R E.refresh_lifetime, ==-refl, lt→ltb t _ before) refl;
        })

  refused-LeavesSession :
      (form : LoginForm) (req : Request) (w : World R D)
      → Meets (LeavesSession form req) Any (reject_credentials E R D req w)
  unfolding register_login_failure
  refused-LeavesSession form req w =
      elim (Bool-cases
        (leb E.login_failed_limit (count (R.get w.cache req.now (login_fail req.ip)) + 1))) [
          | inl over ↦ rw over tt
          | inr under ↦ rw under tt
        ]

  check_password-LeavesSession :
      (form : LoginForm) (req : Request) (u : AuthUser) (o : Option ℕ) (w : World R D)
      → E.login_enabled ≡ true
      → get_auth_user_by_id D u.user.id w.db ≡ some u
      → Meets (LeavesSession form req) Any (check_password E R D form req u o w)
  check_password-LeavesSession form req u none w on active = refused-LeavesSession form req w
  check_password-LeavesSession form req u (some hash) w on active =
      elim (Bool-cases (E.verify_password form.password hash)) [
        | inl right ↦ rw right (sign_in-LeavesSession form req u w on active)
        | inr wrong ↦ rw wrong (refused-LeavesSession form req w)
      ]

  check_user-LeavesSession :
      (form : LoginForm) (req : Request) (o : Option AuthUser) (w : World R D)
      → E.login_enabled ≡ true
      → get_auth_user_by_email D form.email w.db ≡ o
      → Meets (LeavesSession form req) Any (check_user E R D form req o w)
  check_user-LeavesSession form req none w on e = refused-LeavesSession form req w
  check_user-LeavesSession form req (some u) w on e =
      check_password-LeavesSession form req u u.password_hash w on
        (by_email-by_id D form.email u w.db e)

  login-LeavesSession :
      (form : LoginForm) (req : Request) (w : World R D)
      → Meets (LeavesSession form req) Any (login E R D form req w)
  unfolding login check_login_limit
  login-LeavesSession form req w =
      require-Meets E.login_enabled _ _ w (LeavesSession form req) Any tt (λ on.
        elim (Bool-cases (
          is_some (R.get w.cache req.now (login_fail req.ip))
          && leb E.login_failed_limit (count (R.get w.cache req.now (login_fail req.ip))))) [
            | inl locked ↦ rw locked tt
            | inr free ↦ rw free (check_user-LeavesSession form req _ w on refl)
          ])

  abbrev pub explicit : ℕ → ℕ → Credentials
  explicit token id = record {
    refresh_token = some token;
    user_id = none;
    session_id = some id;
    cookie_token = none;
    cookie_session_id = none;
    csrf_token = none;
  }

  passes :
      {A : Type 0} (b : Bool) (e : AuthErrorCode) (f : Unit {0} → Action (World R D) A)
      (w : World R D)
      → b ≡ true
      → continue (require b e w) f ≡ f tt w
  passes true e f w h = refl
  passes false e f w h = cc

  refresh_access_token-active :
      (t user id token : ℕ) (remember : Bool) (u : AuthUser) (w : World R D)
      → E.login_enabled ≡ true
      → verify_refresh_token R t user id token w.cache ≡ true
      → get_auth_user_by_id D user w.db ≡ some u
      → refresh_access_token E R D t user id token remember w
        ≡ refresh_user E R D t id token remember (some u) w
  unfolding refresh_access_token
  refresh_access_token-active t user id token remember u w on v active =
      passes E.login_enabled _ _ w on
      ∙ (passes (verify_refresh_token R t user id token w.cache) _ _ w v ∙ rw active refl)

  Answers : LoginForm → Request → ℕ → LoginResponse → World R D → Type 0
  Answers form req t r w =
      refresh_with_request_context E R D t (explicit r.refresh_token req.session_id) w
      ≡ succeeded
          (
            record {
              access_token = E.encode r.user.user.id r.user.user.email t;
              refresh_token = r.refresh_token;
            },
            req.session_id,
            form.remember_me,
          )
          (record w {
            cache =
                store_refresh_token R E.refresh_lifetime t r.user.user.id req.session_id
                  r.refresh_token form.remember_me w.cache;
          })

  session-Answers :
      (form : LoginForm) (req : Request) (t : ℕ) (r : LoginResponse) (w : World R D)
      → t < req.now + E.refresh_lifetime
      → LeavesSession form req r w
      → Answers form req t r w
  unfolding Answers refresh_with_request_context
  session-Answers form req t r w before h =
      passes E.login_enabled _ _ w h.enabled
      ∙ rw
          (
            h.remembered t before,
            refresh_access_token-active t r.user.user.id req.session_id r.refresh_token
                form.remember_me r.user w h.enabled (h.verified t before) h.active,
          )
          refl

  -- After a login that succeeds, a refresh with the session and the refresh token of its answer
  -- succeeds until the lifetime of the session is over, for the same user, and renews the session.
  pub login-refresh :
      (form : LoginForm) (req : Request) (t : ℕ) (w w1 : World R D) (r : LoginResponse)
      → login E R D form req w ≡ succeeded r w1
      → t < req.now + E.refresh_lifetime
      → refresh_with_request_context E R D t (explicit r.refresh_token req.session_id) w1
        ≡ succeeded
            (
              record {
                access_token = E.encode r.user.user.id r.user.user.email t;
                refresh_token = r.refresh_token;
              },
              req.session_id,
              form.remember_me,
            )
            (record w1 {
              cache =
                  store_refresh_token R E.refresh_lifetime t r.user.user.id req.session_id
                    r.refresh_token form.remember_me w1.cache;
            })
  unfolding Answers
  login-refresh form req t w w1 r e before =
      session-Answers form req t r w1 before
        (subst (Meets (LeavesSession form req) Any) e (login-LeavesSession form req w))
