-- ===== src/Authentication/Lockout.antt =====
-- How often a password can be guessed from one address.
use b4fast_api.Prelude.{
  ℕ, ◌+◌, ◌≤◌, ◌<◌, ◌≡◌, Bool, true, false, not, ◌&&◌, Option, none, some, List, [], ◌∷◌, leb, ◌==◌,
  if◌then◌else◌, arith, Bool-cases, inl, inr, lt→ltb,
}
use b4fast_api.Cache.{Redis}
use b4fast_api.Cache.Keys.{Key, Value, key_eq, login_fail}
use b4fast_api.Codes.{count}
use b4fast_api.Accounts.{AuthUser, Tables}
use b4fast_api.Authentication.{
  account_locked, Attempt, rejected, login_disabled, continue, Action, require, Env, World, Request,
  LoginResponse,
}
use b4fast_api.Authentication.SignIn.{
  LoginForm, check_login_limit, register_login_failure, reject_credentials, sign_in, check_password,
  check_user, login,
}
use b4fast_api.Authentication.Failures.{
  world_of, is_success, is_refusal, HasFails, first-HasFails, login-Counted,
}

-- A login with its request.
pub record LoginTry : Type 0 where
  pub form : LoginForm
  pub req : Request

module _ (E : Env) (R : Redis Key Value key_eq) (D : Tables) (ip : ℕ) where
  open R use {State, get, get_set, get_expire, get_write, get_delete}

  abbrev pub run_all : List LoginTry → World R D → World R D
  run_all [] w = w
  run_all (g ∷ gs) w = run_all gs (world_of (login E R D g.form g.req w))

  -- How many logins of the list the address was refused.
  abbrev pub refusals : List LoginTry → World R D → ℕ
  refusals [] w = 0
  refusals (g ∷ gs) w =
      (if g.req.ip == ip then is_refusal (login E R D g.form g.req w) else 0)
      + refusals gs (world_of (login E R D g.form g.req w))

  -- Each login stands before `end`, and none from the address succeeds.
  abbrev pub AllMissed : ℕ → List LoginTry → World R D → Type 0
  AllMissed end [] w = Unit
  AllMissed end (g ∷ gs) w =
      (g.req.now < end)
      × ((g.req.ip == ip && is_success (login E R D g.form g.req w)) ≡ false)
      × AllMissed end gs (world_of (login E R D g.form g.req w))

  run_all-locks :
      (gs : List LoginTry) (n end : ℕ) (w : World R D)
      → HasFails E R D ip n end w.cache
      → 0 < n
      → AllMissed end gs w
      → E.login_failed_limit ≤ n + refusals gs w
      → (m : ℕ) × HasFails E R D ip m end (run_all gs w).cache × (E.login_failed_limit ≤ m)
  run_all-locks [] n end w h pos missed full = (n, h, omega arith)
  run_all-locks (g ∷ gs) n end w h pos missed full =
      let step = login-Counted E R D ip n end g.form g.req w h pos missed.0 missed.1 in
      elim (Bool-cases (leb E.login_failed_limit step.failures)) [
        | inl over ↦
            run_all-locks gs step.failures end (world_of (login E R D g.form g.req w)) step.kept
              (omega (arith, step.grows)) missed.2 (ground (arith, over))
        | inr under ↦
            run_all-locks gs step.failures end (world_of (login E R D g.form g.req w)) step.kept
              (omega (arith, step.grows)) missed.2 (ground (arith, under, step.enough))
      ]

  locked-login :
      (n end : ℕ) (form : LoginForm) (req : Request) (w : World R D)
      → E.login_enabled ≡ true
      → HasFails E R D ip n end w.cache
      → E.login_failed_limit ≤ n
      → req.ip ≡ ip
      → req.now < end
      → (seconds : ℕ) × (login E R D form req w ≡ rejected (account_locked seconds) w)
  unfolding login check_login_limit
  locked-login n end form req w on h over same before = (
    R.ttl w.cache req.now (login_fail req.ip),
    rw (on, same, h.counted req.now, lt→ltb req.now end before) (ground (arith, over)),
  )

  -- A refused login where no failures stood has counted the first one.
  Opens : Request → Attempt LoginResponse (World R D) → Type 0
  Opens req r =
      is_refusal r ≡ 1 → HasFails E R D ip 1 (req.now + E.login_locked_time) (world_of r).cache

  register-Opens :
      (req : Request) (w : World R D)
      → req.ip ≡ ip
      → get w.cache req.now (login_fail ip) ≡ none
      → Opens req (reject_credentials E R D req w)
  unfolding register_login_failure Opens
  register-Opens req w same e refusal =
      elim (Bool-cases
        (leb E.login_failed_limit (count (get w.cache req.now (login_fail req.ip)) + 1))) [
          | inl over ↦ rw (over, same) (first-HasFails E R D ip req.now w.cache e)
          | inr under ↦ rw (under, same) (first-HasFails E R D ip req.now w.cache e)
        ]

  check_password-Opens :
      (form : LoginForm) (req : Request) (u : AuthUser) (o : Option ℕ) (w : World R D)
      → req.ip ≡ ip
      → get w.cache req.now (login_fail ip) ≡ none
      → Opens req (check_password E R D form req u o w)
  unfolding sign_in Opens
  check_password-Opens form req u none w same e = register-Opens req w same e
  check_password-Opens form req u (some hash) w same e =
      elim (Bool-cases (E.verify_password form.password hash)) [
        | inl right ↦
            rw right (elim (Bool-cases (not (E.email_enabled && not u.user.is_verified))) [
              | inl fine ↦ rw fine (λ refusal. cc)
              | inr unverified ↦ rw unverified (λ refusal. cc)
            ])
        | inr wrong ↦ rw wrong (register-Opens req w same e)
      ]

  check_user-Opens :
      (form : LoginForm) (req : Request) (o : Option AuthUser) (w : World R D)
      → req.ip ≡ ip
      → get w.cache req.now (login_fail ip) ≡ none
      → Opens req (check_user E R D form req o w)
  check_user-Opens form req none w same e = register-Opens req w same e
  check_user-Opens form req (some u) w same e =
      check_password-Opens form req u u.password_hash w same e

  enabled :
      (b : Bool) (rest : Action (World R D) LoginResponse) (w : World R D)
      (P : Attempt LoginResponse (World R D) → Type 0)
      → b ≡ true
      → P (rest w)
      → P (continue (require b login_disabled w) (λ _. rest))
  enabled true rest w P e h = h
  enabled false rest w P e h = cc

  login-Opens :
      (form : LoginForm) (req : Request) (w : World R D)
      → E.login_enabled ≡ true
      → req.ip ≡ ip
      → get w.cache req.now (login_fail ip) ≡ none
      → Opens req (login E R D form req w)
  unfolding login check_login_limit Opens
  login-Opens form req w on same e =
      let none_yet : get w.cache req.now (login_fail req.ip) ≡ none = rw same e in
      enabled E.login_enabled (λ w'. _) w (Opens req) on
        (rw none_yet (check_user-Opens form req _ w same e))

  -- Once a login from an address that had no failures was refused, and the refused logins of any
  -- list from it reach the limit, with logins from other addresses between them, every further
  -- login from that address is refused as locked and changes nothing, the right password included,
  -- where no login of the list from it succeeded and all run before the end of the window that the
  -- first failure opened.
  pub lockout :
      (first : LoginTry) (gs : List LoginTry) (form : LoginForm) (req : Request) (w : World R D)
      → E.login_enabled ≡ true
      → first.req.ip ≡ ip
      → get w.cache first.req.now (login_fail ip) ≡ none
      → is_refusal (login E R D first.form first.req w) ≡ 1
      → AllMissed (first.req.now + E.login_locked_time) gs (run_all (first ∷ []) w)
      → E.login_failed_limit ≤ 1 + refusals gs (run_all (first ∷ []) w)
      → req.ip ≡ ip
      → req.now < first.req.now + E.login_locked_time
      → (seconds : ℕ) × (login E R D form req (run_all (first ∷ gs) w)
          ≡ rejected (account_locked seconds) (run_all (first ∷ gs) w))
  unfolding Opens
  lockout first gs form req w on from fresh refused missed full same before =
      let (m, h, over) =
        run_all-locks gs 1 (first.req.now + E.login_locked_time) (run_all (first ∷ []) w)
          (login-Opens first.form first.req w on from fresh refused) (omega arith) missed full in
      locked-login m (first.req.now + E.login_locked_time) form req (run_all (first ∷ gs) w) on h
        over same before
