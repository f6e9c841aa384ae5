-- ===== src/Authentication/Passwords/Reset.antt =====
-- What a password reset does.
use b4fast_api.Prelude.{
  ℕ, ◌≤◌, ◌≡◌, refl, sym, ap, ◌∙◌, Bool, true, false, ◌&&◌, Option, none, some, List, [], ◌∷◌, ◌==◌,
  find_row, any_row, update_rows, find_row_sound, Bool-cases, Option-cases, inl, inr, arith,
  ==-refl,
}
use b4fast_api.Cache.{Redis}
use b4fast_api.Cache.Keys.{Key, Value, key_eq, password_reset_token}
use b4fast_api.Sessions.{
  password_reset, token_owner, consume_token, delete_sessions, delete_refresh_token,
  verify_refresh_token,
}
use b4fast_api.Sessions.Revocation.{IsIndexed, delete_refresh_token_revokes}
use b4fast_api.Accounts.{
  User, Credential, AuthUser, Tables, Accounts, user_rows, get_auth_user_by_id,
}
use b4fast_api.Accounts.Profile.{update_password_hash}
use b4fast_api.Authentication.{Meets, Env, World}
use b4fast_api.Authentication.Refresh.Genuine.{require-Meets, require_or-Meets}
use b4fast_api.Authentication.Passwords.{reset_owned, reset_password}

-- Where a row is found, and the update of its id sets its hash, it is found with the hash.
find_updated :
    (user hash : ℕ) (xs : List Credential) (c : Credential)
    → find_row (λ d. d.user_id == user) xs ≡ some c
    → find_row
        (λ d. d.user_id == user)
        (update_rows (λ d. d.id == c.id) (λ d. record d { password_hash = hash }) xs)
      ≡ some (record c { password_hash = hash })
find_updated user hash [] c e = cc
find_updated user hash (x ∷ xs) c e = elim (Bool-cases (x.user_id == user)) [
  | inl mine ↦ let same : x ≡ c = cc (rw mine at e) in rw (sym same) (rw (==-refl x.id, mine) refl)
  | inr other ↦ elim (Bool-cases (x.id == c.id)) [
    | inl t ↦ rw (t, other) (find_updated user hash xs c (rw other at e))
    | inr f ↦ rw (f, other) (find_updated user hash xs c (rw other at e))
  ]
]

-- For an active user the two conditions on its credential are one.
find_active :
    (user : ℕ) (us : List User) (xs : List Credential)
    → any_row (λ u. u.id == user && u.is_active) us ≡ true
    → find_row (λ c. c.user_id == user && any_row (λ u. u.id == c.user_id && u.is_active) us) xs
      ≡ find_row (λ c. c.user_id == user) xs
find_active user us [] active = refl
find_active user us (x ∷ xs) active = elim (Bool-cases (x.user_id == user)) [
  | inl mine ↦ let same : x.user_id ≡ user = ground arith in rw (mine, same, active) refl
  | inr other ↦ rw other (find_active user us xs active)
]

any-find :
    (p : User → Bool) (us : List User) (v : User) → find_row p us ≡ some v → any_row p us ≡ true
any-find p [] v e = cc
any-find p (x ∷ us) v e = elim (Bool-cases (p x)) [
  | inl t ↦ rw t refl
  | inr f ↦ rw f (any-find p us v (rw f at e))
]

module _ (D : Tables) where
  -- The password of an active user after it was stored.
  pub update_password_hash-stored :
      (user hash : ℕ) (u : AuthUser) (s : Accounts D)
      → (update_password_hash D user hash s).0 ≡ true
      → get_auth_user_by_id D user (update_password_hash D user hash s).1 ≡ some u
      → u.password_hash ≡ some hash
  unfolding get_auth_user_by_id update_password_hash
  update_password_hash-stored user hash u s changed e =
      elim (Option-cases (
        find_row
          (λ c.
            c.user_id == user && any_row (λ v. v.id == c.user_id && v.is_active) (user_rows D s))
          (D.credentials.rows s.credentials))) [
            | inl absent ↦ cc (rw absent at changed)
            | inr (c, found) ↦
                let e' = rw found at e in
                elim (Option-cases (find_row (λ v. v.id == user && v.is_active) (user_rows D s))) [
                  | inl absent ↦ cc (rw absent at e')
                  | inr (v, there) ↦
                      let fits : (v.id == user && v.is_active) ≡ true =
                        find_row_sound (λ v. v.id == user && v.is_active) (user_rows D s) there in
                      let own : v.id ≡ user = ground arith in
                      let here : find_row (λ c. c.user_id == user)
                            (D.credentials.rows s.credentials)
                          ≡ some c =
                        rw⁻¹
                          (find_active user (user_rows D s) (D.credentials.rows s.credentials)
                            (any-find (λ v. v.id == user && v.is_active) (user_rows D s) v there))
                          found in
                      let his : find_row (λ c. c.user_id == v.id) (D.credentials.rows s.credentials)
                          ≡ some c =
                        rw own here in
                      let same : ◌≡◌ {A = AuthUser} (record { user = v; password_hash = some hash })
                          u =
                        cc (
                          rw
                            (
                              there,
                              D.credentials.update_law,
                              find_updated v.id hash (D.credentials.rows s.credentials) c his,
                            )
                            at e') in
                      ap (λ x. x.password_hash) (sym same)
                ]
          ]

  update_password_hash-refused :
      (user hash : ℕ) (s : Accounts D)
      → (update_password_hash D user hash s).0 ≡ false
      → (update_password_hash D user hash s).1 ≡ s
  unfolding update_password_hash
  update_password_hash-refused user hash s e =
      elim (Option-cases (
        find_row
          (λ c.
            c.user_id == user && any_row (λ v. v.id == c.user_id && v.is_active) (user_rows D s))
          (D.credentials.rows s.credentials))) [
            | inl absent ↦ rw absent refl
            | inr (c, found) ↦ cc (rw found at e)
          ]

module _ (R : Redis Key Value key_eq) where
  open R use {State, get, get_delete}

  -- Consuming a reset token leaves the sessions as they were.
  consume_token-IsIndexed :
      (lifetime from now token : ℕ) (s : State)
      → IsIndexed R lifetime from s
      → IsIndexed R lifetime from (consume_token R password_reset now token s).1
  unfolding consume_token
  consume_token-IsIndexed lifetime from now token s h =
      elim (Option-cases (token_owner R password_reset now token s)) [
        | inl e ↦ rw e h
        | inr (user, e) ↦ rw e (record {
          listed = λ t id u x r after there.
              rw (get_delete, get_delete)
                (h.listed t id u x r after (rw (get_delete, get_delete) at there));
          ended = λ t id over. rw (get_delete, get_delete) (h.ended t id over);
        })
      ]

  delete_sessions-token :
      (ids : List ℕ) (t token : ℕ) (s : State)
      → get (delete_sessions R ids s) t (password_reset_token token)
        ≡ get s t (password_reset_token token)
  unfolding delete_sessions
  delete_sessions-token [] t token s = refl
  delete_sessions-token (id ∷ ids) t token s =
      rw (delete_sessions-token ids t token, get_delete, get_delete) refl

  delete_refresh_token-token :
      (now user t token : ℕ) (s : State)
      → get (delete_refresh_token R now user s) t (password_reset_token token)
        ≡ get s t (password_reset_token token)
  unfolding delete_refresh_token
  delete_refresh_token-token now user t token s = rw (get_delete, delete_sessions-token) refl

  no_owner :
      (t token : ℕ) (s : State)
      → get s t (password_reset_token token) ≡ none
      → token_owner R password_reset t token s ≡ none
  unfolding token_owner
  no_owner t token s e = rw e refl

  consumed-owner :
      (now token : ℕ) (s : State)
      → token_owner R password_reset now token s ≡ (consume_token R password_reset now token s).0
  unfolding consume_token
  consumed-owner now token s = elim (Option-cases (token_owner R password_reset now token s)) [
    | inl e ↦ rw e refl
    | inr (user, e) ↦ rw e refl
  ]

  consumed-gone :
      (now token : ℕ) (s : State) (user t : ℕ)
      → (consume_token R password_reset now token s).0 ≡ some user
      → get (consume_token R password_reset now token s).1 t (password_reset_token token) ≡ none
  unfolding consume_token
  consumed-gone now token s user t found =
      elim (Option-cases (token_owner R password_reset now token s)) [
        | inl e ↦ cc (rw e at found)
        | inr (v, e) ↦ rw e (rw (get_delete, get_delete, ==-refl token) refl)
      ]

module _ (E : Env) (R : Redis Key Value key_eq) (D : Tables) where
  pub record IsReset (now token password salt : ℕ) (w w' : World R D) : Type 0 where
    pub user : ℕ
    pub owned : token_owner R password_reset now token w.cache ≡ some user
    pub stored :
        (u : AuthUser)
        → get_auth_user_by_id D user w'.db ≡ some u
        → u.password_hash ≡ some (E.hash_password salt password)
    pub ended : (t id x : ℕ) → now ≤ t → verify_refresh_token R t user id x w'.cache ≡ false
    pub spent : (t : ℕ) → token_owner R password_reset t token w'.cache ≡ none

  owned-IsReset :
      (from now token password salt : ℕ) (o : Option ℕ) (w w0 : World R D)
      → from ≤ now
      → IsIndexed R E.refresh_lifetime from w.cache
      → w.db ≡ w0.db
      → token_owner R password_reset now token w0.cache ≡ o
      → ((user t : ℕ) → o ≡ some user → R.get w.cache t (password_reset_token token) ≡ none)
      → Meets
          (λ _. IsReset now token password salt w0)
          (λ _ w'. w'.db ≡ w0.db)
          (reset_owned E R D now password salt o w)
  owned-IsReset from now token password salt none w w0 le h same o gone = same
  owned-IsReset from now token password salt (some user) w w0 le h same o gone =
      require_or-Meets (update_password_hash D user (E.hash_password salt password) w.db).0 _ _ _
        (λ _. IsReset now token password salt w0) (λ _ w'. w'.db ≡ w0.db)
        (λ refused.
          update_password_hash-refused D user (E.hash_password salt password) w.db refused ∙ same)
        (λ changed. record {
          user = user;
          owned = o;
          stored = λ u e.
              update_password_hash-stored D user (E.hash_password salt password) u w.db changed e;
          ended = λ t id x after.
              delete_refresh_token_revokes R E.refresh_lifetime from now user t id x w.cache le
                after h;
          spent = λ t.
              no_owner R t token _
                (delete_refresh_token-token R now user t token w.cache ∙ gone user t refl);
        })

  -- A password reset that succeeds had the current reset token of a user: it stores the new hash
  -- for that user, ends all sessions of the user and spends the token. One that fails leaves the
  -- database as it was. The index of the sessions is complete.
  pub reset_password_lem :
      (from now token password salt : ℕ) (w : World R D)
      → from ≤ now
      → IsIndexed R E.refresh_lifetime from w.cache
      → Meets
          (λ _. IsReset now token password salt w)
          (λ _ w'. w'.db ≡ w.db)
          (reset_password E R D now token password salt w)
  unfolding reset_password
  reset_password_lem from now token password salt w le h =
      require-Meets E.login_enabled _ _ w (λ _. IsReset now token password salt w)
        (λ _ w'. w'.db ≡ w.db) refl
        (λ _.
          require-Meets E.email_enabled _ _ w (λ _. IsReset now token password salt w)
            (λ _ w'. w'.db ≡ w.db) refl
            (λ _.
              owned-IsReset from now token password salt _ _ w le
                (consume_token-IsIndexed R E.refresh_lifetime from now token w.cache h) refl
                (consumed-owner R now token w.cache) (consumed-gone R now token w.cache)))
