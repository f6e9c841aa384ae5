-- ===== src/Authentication/Deletion/Removed.antt =====
-- What the deletion of an account leaves.
use b4fast_api.Prelude.{
  ℕ, ◌≤◌, ◌≡◌, refl, subst, find_row_sound, if◌then◌else◌, Bool, true, false, not, ◌&&◌, Option,
  none, some, List, [], ◌∷◌, ◌++◌, ◌==◌, leb, find_row, where_rows, any_row, Elem, All,
  Option-cases, inl, inr, arith,
}
use b4fast_api.Cache.{Redis}
use b4fast_api.Cache.Keys.{refresh_session, Key, Value, key_eq, account_delete}
use b4fast_api.Codes.{returns, Round, consume_email_code}
use b4fast_api.Sessions.{
  TokenKind, token_key, user_token_key, email_verify, password_reset, verify_refresh_token,
  delete_one_time, forget_previous, delete_account_tokens, text_of,
}
use b4fast_api.Sessions.Revocation.{IsIndexed, delete_refresh_token_revokes}
use b4fast_api.Outbox.{Notification}
use b4fast_api.Accounts.Signup.{IsGrown, insert-IsGrown}
use b4fast_api.Accounts.{
  AccountError, User, Tables, Accounts, is_admin, user_rows, integrity_error, user_not_found,
  last_admin_required, account_billing_review_required, account_delete_confirmation_required, Reply,
  replied, refused,
}
use b4fast_api.Accounts.Profile.{get_user_response_by_id}
use b4fast_api.Accounts.Roles as Roles
use b4fast_api.Accounts.Roles.{removed, add_notification, delete_user}
use b4fast_api.Authentication.{
  AuthErrorCode, Action, ◌>>◌, return, change_cache, continue, Meets, Env, World,
}
use b4fast_api.Authentication.Refresh.Genuine.{require-Meets}
use b4fast_api.Authentication.Confirmation.{found_user}
use b4fast_api.Authentication.Confirmation.Change.{consume_email_code-IsIndexed, confirm-Meets}
use b4fast_api.Authentication.Deletion.{DeletionNotice, removed_account, notice_of, delete_account}

gone :
    (user : ℕ) (us : List User)
    → any_row (λ u. u.id == user) (where_rows (λ u. not (u.id == user)) us) ≡ false
gone user [] = refl
gone user (u ∷ us) = ground (arith, gone user us)

else_replied :
    {A S : Type 0} (b : Bool) (x : AccountError) (r : Reply A S) {a : A} {s : S}
    → (if b then refused x else r) ≡ replied a s
    → r ≡ replied a s
else_replied true x r e = cc
else_replied false x r e = e

last_Elem : {A : Type 0} (x : A) (xs : List A) → Elem x (xs ++ x ∷ [])
last_Elem x [] = inl refl
last_Elem x (y ∷ ys) = inr (last_Elem x ys)

module _ (D : Tables) where
  -- What a removal from the database leaves: no such user, and the notice in the outbox.
  pub record IsGone (user : ℕ) (n : Notification) (t : Accounts D) : Type 0 where
    pub absent : any_row (λ u. u.id == user) (user_rows D t) ≡ false
    pub noticed : Elem n (D.outbox.rows t.outbox)

  noticed-IsGone :
      (user : ℕ) (u : User) (n : Notification) (s t : Accounts D) (photo : Option ℕ)
      → u.id ≡ user
      → removed D u (add_notification D (some n) s) ≡ replied photo t
      → IsGone user n t
  noticed-IsGone user u n s t photo own e =
      let grown = insert-IsGrown D.outbox n s.outbox in
      elim (Option-cases (D.outbox.insert n s.outbox)) [
        | inl f ↦ cc (rw f at e)
        | inr (o, f) ↦
            let h : IsGrown D.outbox n s.outbox o = rw f at grown in
            let after : Accounts D = delete_user D u.id (record s { outbox = o }) in
            let same : after ≡ t = cc (rw f at e) in
            let absent : any_row (λ u. u.id == user) (user_rows D after) ≡ false =
              rw (D.users.delete_law, own, gone user) refl in
            subst (IsGone user n) same (record {
              absent = absent;
              noticed = rw h.grown (last_Elem n (D.outbox.rows s.outbox));
            })
      ]

  deleted-IsGone :
      (casefold strip : ℕ → ℕ) (checkouts : List ℕ) (user email : ℕ) (n : Notification)
      (s t : Accounts D) (photo : Option ℕ)
      → Roles.delete_account D casefold strip checkouts user email (some n) s ≡ replied photo t
      → IsGone user n t
  unfolding Roles.delete_account
  deleted-IsGone casefold strip checkouts user email n s t photo e =
      elim (Option-cases (find_row (λ u. u.id == user) (user_rows D s))) [
        | inl absent ↦ cc (rw absent at e)
        | inr (u, found) ↦
            let fits : (u.id == user) ≡ true =
              find_row_sound (λ u. u.id == user) (user_rows D s) found in
            noticed-IsGone user u n s t photo (ground (arith, fits)) (
              else_replied (any_row (λ c. c == u.id) checkouts) account_billing_review_required _ (
                else_replied (is_admin u.role && leb (Roles.admins D s) 1) last_admin_required _ (
                  else_replied (not (casefold u.email == casefold (strip email)))
                    account_delete_confirmation_required _
                    (else_replied (not u.is_active) user_not_found _ (rw found at e)))))
      ]

module _ (R : Redis Key Value key_eq) where
  open R use {get, get_delete}

  token_key-session :
      (kind : TokenKind) (token user id : ℕ)
      → (key_eq (token_key kind token) (refresh_session id) ≡ false)
        × (key_eq (user_token_key kind user) (refresh_session id) ≡ false)
  token_key-session email_verify token user id = (refl, refl)
  token_key-session password_reset token user id = (refl, refl)

  delete_one_time-session :
      (kind : TokenKind) (now user t id : ℕ) (s : R.State)
      → get (delete_one_time R kind now user s) t (refresh_session id)
        ≡ get s t (refresh_session id)
  delete_one_time-session kind now user t id s =
      elim (Option-cases (text_of (get s now (user_token_key kind user)))) [
        | inl e ↦
            rw
              (
                delete_one_time,
                e,
                forget_previous,
                get_delete,
                (token_key-session kind 0 user id).1,
              )
              refl
        | inr (token, e) ↦
            rw
              (
                delete_one_time,
                e,
                forget_previous,
                get_delete,
                (token_key-session kind token user id).1,
                get_delete,
                (token_key-session kind token user id).0,
              )
              refl
      ]

  -- Ending the tokens of an account ends its sessions.
  pub delete_account_tokens_revokes :
      (lifetime from now user t id x : ℕ) (s : R.State)
      → from ≤ now
      → now ≤ t
      → IsIndexed R lifetime from s
      → verify_refresh_token R t user id x (delete_account_tokens R now user s) ≡ false
  unfolding delete_account_tokens verify_refresh_token
  delete_account_tokens_revokes lifetime from now user t id x s le after h =
      rw
        (
          delete_one_time-session, delete_one_time-session, get_delete, get_delete, get_delete,
          get_delete,
        )
        (delete_refresh_token_revokes R lifetime from now user t id x s le after h)

module _ (E : Env) (R : Redis Key Value key_eq) (D : Tables) (notice : DeletionNotice)
    (checkouts : List ℕ) (now user email code : ℕ) (rounds : List (Round R)) where
  pub record IsRemoved (w w' : World R D) : Type 0 where
    pub account : User
    pub found : get_user_response_by_id D user w.db ≡ some account
    pub own_email : (E.casefold account.email == E.casefold (E.strip email)) ≡ true
    pub confirmed :
        (consume_email_code R E.digest 5 600 true account_delete user code now rounds w.cache).0
        ≡ returns true
    pub removal : IsGone D user (notice_of E R D notice now account) w'.db
    pub ended : (t id x : ℕ) → now ≤ t → verify_refresh_token R t user id x w'.cache ≡ false

  abbrev pub Untouched : World R D → AuthErrorCode → World R D → Type 0
  Untouched w e w' = w'.db ≡ w.db

  user-Meets :
      {A : Type 0} (o : Option User) (w : World R D) (f : User → Action (World R D) A)
      (P : A → World R D → Type 0) (F : AuthErrorCode → World R D → Type 0)
      → ((e : AuthErrorCode) → F e w)
      → ((u : User) → o ≡ some u → Meets P F (f u w))
      → Meets P F (continue (found_user E R D o w) f)
  user-Meets none w f P F h k = h _
  user-Meets (some u) w f P F h k = k u refl

  reply-Meets :
      {A : Type 0} (r : Reply (Option ℕ) (Accounts D)) (w : World R D)
      (f : Option ℕ → Action (World R D) A) (P : A → World R D → Type 0)
      (F : AuthErrorCode → World R D → Type 0)
      → ((e : AuthErrorCode) → F e w)
      → ((photo : Option ℕ) (t : Accounts D)
          → r ≡ replied photo t
          → Meets P F (f photo (record w { db = t })))
      → Meets P F (continue (removed_account E R D w r) f)
  reply-Meets (replied photo t) w f P F h k = k photo t refl
  reply-Meets (refused integrity_error) w f P F h k = h _
  reply-Meets (refused e) w f P F h k = h _

  -- A deletion that succeeds was for an active user with the given e-mail and a right code: no user
  -- with the id remains, the outbox holds the notice to the user, and all sessions of the user
  -- ended. One that fails leaves the database as it was. The index of the sessions is complete in
  -- all databases that stand during the call.
  pub delete_account_lem :
      (from : ℕ) (w : World R D)
      → from ≤ now
      → IsIndexed R E.refresh_lifetime from w.cache
      → All (λ r. IsIndexed R E.refresh_lifetime from r.after) rounds
      → Meets
          (λ _. IsRemoved w)
          (Untouched w)
          (delete_account E R D notice checkouts now user email code rounds w)
  unfolding delete_account
  delete_account_lem from w le h hs =
      require-Meets E.login_enabled _ _ w (λ _. IsRemoved w) (Untouched w) refl
        (λ _.
          require-Meets E.email_enabled _ _ w (λ _. IsRemoved w) (Untouched w) refl
            (λ _.
              user-Meets _ w _ (λ _. IsRemoved w) (Untouched w) (λ e. refl)
                (λ account found.
                  require-Meets (E.casefold account.email == E.casefold (E.strip email)) _ _ w
                    (λ _. IsRemoved w) (Untouched w) refl
                    (λ own.
                      let indexed =
                        consume_email_code-IsIndexed R E.digest E.refresh_lifetime from 5 600 true
                          account_delete user code now rounds w.cache h hs in
                      let w1 : World R D = record w {
                        cache =
                            (consume_email_code R E.digest 5 600 true account_delete user code now
                              rounds w.cache).1;
                      } in
                      confirm-Meets E R D _ _ _ _ _ (λ _. IsRemoved w) (Untouched w) (λ e. refl)
                        (λ confirmed.
                          reply-Meets
                            (Roles.delete_account D E.casefold E.strip checkouts user email
                              (some (notice_of E R D notice now account)) w.db)
                            w1
                            (λ photo.
                              change_cache E R D (delete_account_tokens R now user) >> return photo)
                            (λ _. IsRemoved w) (Untouched w) (λ e. refl)
                            (λ photo t removal. record {
                              account = account;
                              found = found;
                              own_email = own;
                              confirmed = confirmed;
                              removal =
                                  deleted-IsGone D E.casefold E.strip checkouts user email
                                    (notice_of E R D notice now account) w.db t photo removal;
                              ended = λ t' id x after.
                                  delete_account_tokens_revokes R E.refresh_lifetime from now user
                                    t' id x _ le after indexed;
                            }))))))
