-- ===== src/Authentication/Failures.antt =====
-- What a login does to the failures that stand for an address.
use b4fast_api.Prelude.{
  ℕ, ◌+◌, ◌≤◌, ◌<◌, ◌≡◌, refl, Bool, true, false, not, ◌&&◌, ◌||◌, Option, none, some, ltb, leb,
  ◌==◌, is_some, if◌then◌else◌, arith, Bool-cases, inl, inr, lt→ltb, ==-refl,
}
use b4fast_api.Cache.{Redis}
use b4fast_api.Cache.Keys.{Key, Value, key_eq, num, login_fail}
use b4fast_api.Codes.{count}
use b4fast_api.Sessions.{store_refresh_token, add_member}
use b4fast_api.Accounts.{AuthUser, Tables}
use b4fast_api.Authentication.{
  account_locked, invalid_credentials, Attempt, succeeded, rejected, login_disabled, continue,
  Action, require, Env, World, Request, LoginResponse, issue_session_tokens,
}
use b4fast_api.Authentication.SignIn.{
  LoginForm, check_login_limit, count_failure, register_login_failure, reject_credentials, sign_in,
  check_password, check_user, login,
}

abbrev pub world_of : {A S : Type 0} → Attempt A S → S
world_of (succeeded a s) = s
world_of (rejected e s) = s

abbrev pub is_success : {A S : Type 0} → Attempt A S → Bool
is_success (succeeded a s) = true
is_success (rejected e s) = false

-- A login that its caller is told to be wrong or locked out.
abbrev pub is_refusal : {A S : Type 0} → Attempt A S → ℕ
is_refusal (rejected (invalid_credentials o) s) = 1
is_refusal (rejected (account_locked t) s) = 1
is_refusal _ = 0

module _ (E : Env) (R : Redis Key Value key_eq) (D : Tables) (ip : ℕ) where
  open R use {State, get, get_set, get_expire, get_write, get_delete}

  -- The failures of the address stand at `n` until `end`.
  pub record HasFails (n end : ℕ) (s : State) : Type 0 where
    pub counted : (t : ℕ) → get s t (login_fail ip) ≡ (if ltb t end then some (num n) else none)

  count_failure-HasFails :
      (n end t : ℕ) (s : State)
      → HasFails n end s
      → 0 < n
      → t < end
      → HasFails (n + 1) end (count_failure E R D t ip s)
  unfolding count_failure
  count_failure-HasFails n end t s h pos before = record {
    counted = λ t'.
        rw (h.counted t, lt→ltb t end before)
          (ground (
            arith,
            get_write s t (login_fail ip) (num (n + 1)) t' (login_fail ip),
            h.counted t,
            h.counted t',
            lt→ltb t end before,
          ));
  }

  count_failure-other :
      (n end t other : ℕ) (s : State)
      → HasFails n end s
      → (other == ip) ≡ false
      → HasFails n end (count_failure E R D t other s)
  unfolding count_failure
  count_failure-other n end t other s h ne = record {
    counted = λ t'. elim (Bool-cases (count (get s t (login_fail other)) + 1 == 1)) [
      | inl e ↦ rw (e, get_expire, ne, get_write, ne) (h.counted t')
      | inr e ↦ rw (e, get_write, ne) (h.counted t')
    ];
  }

  store-HasFails :
      (n end now user id token : ℕ) (remember : Bool) (s : State)
      → HasFails n end s
      → HasFails n end (store_refresh_token R E.refresh_lifetime now user id token remember s)
  unfolding store_refresh_token add_member
  store-HasFails n end now user id token remember s h = record {
    counted = λ t. rw (get_expire, get_write, get_expire, get_set) (h.counted t);
  }

  -- The first failure opens a window of the configured length.
  pub first-HasFails :
      (t : ℕ) (s : State)
      → get s t (login_fail ip) ≡ none
      → HasFails 1 (t + E.login_locked_time) (count_failure E R D t ip s)
  unfolding count_failure
  first-HasFails t s e = record {
    counted = λ t'. rw e (rw (get_expire, get_write, ==-refl ip, e) refl);
  }

  -- What a login from any address does to the failures of this one.
  pub record Counted (n end : ℕ) (req : Request) (r : Attempt LoginResponse (World R D))
      : Type 0 where
    pub failures : ℕ
    pub kept : HasFails failures end (world_of r).cache
    pub grows : n ≤ failures
    pub enough :
        (leb E.login_failed_limit failures
          || leb (n + (if req.ip == ip then is_refusal r else 0)) failures)
        ≡ true

  register-Counted :
      (n end : ℕ) (req : Request) (w : World R D)
      → HasFails n end w.cache
      → 0 < n
      → req.now < end
      → Counted n end req (reject_credentials E R D req w)
  unfolding register_login_failure
  register-Counted n end req w h pos before = elim (Bool-cases (req.ip == ip)) [
    | inl same ↦
        let e : req.ip ≡ ip = ground arith in
        elim (Bool-cases
          (leb E.login_failed_limit (count (get w.cache req.now (login_fail req.ip)) + 1))) [
            | inl over ↦ record {
              failures = n + 1;
              kept = rw (over, e) (count_failure-HasFails n end req.now w.cache h pos before);
              grows = omega arith;
              enough = rw (same, over) (ground arith);
            }
            | inr under ↦ record {
              failures = n + 1;
              kept = rw (under, e) (count_failure-HasFails n end req.now w.cache h pos before);
              grows = omega arith;
              enough = rw (same, under) (ground arith);
            }
          ]
    | inr other ↦
        elim (Bool-cases
          (leb E.login_failed_limit (count (get w.cache req.now (login_fail req.ip)) + 1))) [
            | inl over ↦ record {
              failures = n;
              kept = rw over (count_failure-other n end req.now req.ip w.cache h other);
              grows = omega arith;
              enough = rw other (ground arith);
            }
            | inr under ↦ record {
              failures = n;
              kept = rw under (count_failure-other n end req.now req.ip w.cache h other);
              grows = omega arith;
              enough = rw other (ground arith);
            }
          ]
  ]

  sign_in-Counted :
      (n end : ℕ) (form : LoginForm) (req : Request) (u : AuthUser) (w : World R D)
      → HasFails n end w.cache
      → (req.ip == ip && is_success (sign_in E R D form req u w)) ≡ false
      → Counted n end req (sign_in E R D form req u w)
  unfolding sign_in issue_session_tokens
  sign_in-Counted n end form req u w h miss =
      elim (Bool-cases (not (E.email_enabled && not u.user.is_verified))) [
        | inr unverified ↦ record {
          failures = n;
          kept = rw unverified h;
          grows = omega arith;
          enough = rw unverified (ground arith);
        }
        | inl fine ↦ elim (Bool-cases (req.ip == ip)) [
          | inl same ↦ cc (rw (same, fine) at miss)
          | inr other ↦ record {
            failures = n;
            kept = rw fine (
                store-HasFails n end req.now u.user.id req.session_id req.fresh_token
                  form.remember_me (R.delete w.cache (login_fail req.ip))
                  (record { counted = λ t. rw (get_delete, other) (h.counted t) }));
            grows = omega arith;
            enough = rw (fine, other) (ground arith);
          }
        ]
      ]

  check_password-Counted :
      (n end : ℕ) (form : LoginForm) (req : Request) (u : AuthUser) (o : Option ℕ) (w : World R D)
      → HasFails n end w.cache
      → 0 < n
      → req.now < end
      → (req.ip == ip && is_success (check_password E R D form req u o w)) ≡ false
      → Counted n end req (check_password E R D form req u o w)
  check_password-Counted n end form req u none w h pos before miss =
      register-Counted n end req w h pos before
  check_password-Counted n end form req u (some hash) w h pos before miss =
      elim (Bool-cases (E.verify_password form.password hash)) [
        | inl right ↦ rw right (sign_in-Counted n end form req u w h (rw right at miss))
        | inr wrong ↦ rw wrong (register-Counted n end req w h pos before)
      ]

  check_user-Counted :
      (n end : ℕ) (form : LoginForm) (req : Request) (o : Option AuthUser) (w : World R D)
      → HasFails n end w.cache
      → 0 < n
      → req.now < end
      → (req.ip == ip && is_success (check_user E R D form req o w)) ≡ false
      → Counted n end req (check_user E R D form req o w)
  check_user-Counted n end form req none w h pos before miss =
      register-Counted n end req w h pos before
  check_user-Counted n end form req (some u) w h pos before miss =
      check_password-Counted n end form req u u.password_hash w h pos before miss

  gate-Counted :
      (n end : ℕ) (b : Bool) (rest : Action (World R D) LoginResponse) (req : Request)
      (w : World R D)
      → HasFails n end w.cache
      → (req.ip == ip && is_success (continue (require b login_disabled w) (λ _. rest))) ≡ false
      → ((req.ip == ip && is_success (rest w)) ≡ false → Counted n end req (rest w))
      → Counted n end req (continue (require b login_disabled w) (λ _. rest))
  gate-Counted n end true rest req w h miss k = k miss
  gate-Counted n end false rest req w h miss k = record {
    failures = n;
    kept = h;
    grows = omega arith;
    enough = ground arith;
  }

  pub login-Counted :
      (n end : ℕ) (form : LoginForm) (req : Request) (w : World R D)
      → HasFails n end w.cache
      → 0 < n
      → req.now < end
      → (req.ip == ip && is_success (login E R D form req w)) ≡ false
      → Counted n end req (login E R D form req w)
  unfolding login check_login_limit
  login-Counted n end form req w h pos before miss =
      gate-Counted n end E.login_enabled _ req w h miss (λ miss'.
        elim (Bool-cases (
          is_some (get w.cache req.now (login_fail req.ip))
          && leb E.login_failed_limit (count (get w.cache req.now (login_fail req.ip))))) [
            | inr free ↦
                rw free (check_user-Counted n end form req _ w h pos before (rw free at miss'))
            | inl locked ↦ record {
              failures = n;
              kept = rw locked h;
              grows = omega arith;
              enough = rw locked (elim (Bool-cases (req.ip == ip)) [
                | inr other ↦ rw other (ground arith)
                | inl same ↦
                    let e : req.ip ≡ ip = ground arith in
                    ground (arith, rw (e, h.counted req.now, lt→ltb req.now end before) at locked)
              ]);
            }
          ])
