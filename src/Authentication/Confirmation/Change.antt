-- ===== src/Authentication/Confirmation/Change.antt =====
-- What a confirmed password change does.
use b4fast_api.Prelude.{
  ℕ, ◌+◌, ◌≤◌, ◌<◌, ◌≡◌, ◌⊎◌, refl, Bool, true, false, ◌&&◌, Option, none, some, List, [], ◌∷◌,
  ◌==◌, leb, All, any_row, count_rows, update_rows, and_then, Bool-cases, inl, inr, arith,
}
use b4fast_api.Cache.{Redis}
use b4fast_api.Cache.Keys.{Key, Value, Purpose, key_eq, failures, password_change}
use b4fast_api.Codes.{
  Outcome, returns, contention, Digest, Round, count, settle_guess, consume_email_code,
}
use b4fast_api.Sessions.{delete_refresh_token, verify_refresh_token}
use b4fast_api.Sessions.Revocation.{IsIndexed, delete_refresh_token_revokes}
use b4fast_api.Accounts.{
  User, Credential, Tables, Accounts, user_rows, get_auth_user_by_id, change_password_hash,
}
use b4fast_api.Accounts.Passwords.{fits}
use b4fast_api.Authentication.{AuthErrorCode, continue, Action, require, Meets, Env, World}
use b4fast_api.Authentication.Refresh.Genuine.{require-Meets}
use b4fast_api.Authentication.Confirmation.{settled, current_hash, change_password}

module _ (R : Redis Key Value key_eq) (digest : Digest) (lifetime from : ℕ) where
  open R use {State, get, get_set, get_delete}

  settle_guess-IsIndexed :
      (limit window : ℕ) (consume : Bool) (purpose : Purpose) (user now : ℕ) (valid : Bool)
      (s u : State)
      → IsIndexed R lifetime from u
      → IsIndexed R lifetime from (settle_guess R limit window consume purpose user now valid s u)
  unfolding settle_guess
  settle_guess-IsIndexed limit window true purpose user now true s u h = record {
    listed = λ t id v x r after there.
        rw get_delete (h.listed t id v x r after (rw get_delete at there));
    ended = λ t id over. rw get_delete (h.ended t id over);
  }
  settle_guess-IsIndexed limit window false purpose user now true s u h = h
  settle_guess-IsIndexed limit window consume purpose user now false s u h =
      elim (Bool-cases (leb limit (count (get s now (failures purpose user)) + 1))) [
        | inl last ↦ rw last (record {
          listed = λ t id v x r after there.
              rw (get_delete, get_set)
                (h.listed t id v x r after (rw (get_delete, get_set) at there));
          ended = λ t id over. rw (get_delete, get_set) (h.ended t id over);
        })
        | inr more ↦ rw more (record {
          listed = λ t id v x r after there.
              rw get_set (h.listed t id v x r after (rw get_set at there));
          ended = λ t id over. rw get_set (h.ended t id over);
        })
      ]

  -- Checking a code leaves the index of the sessions complete, where it is so in every database
  -- that stands during the call.
  pub consume_email_code-IsIndexed :
      (limit window : ℕ) (consume : Bool) (purpose : Purpose) (user code now : ℕ)
      (rounds : List (Round R)) (s : State)
      → IsIndexed R lifetime from s
      → All (λ r. IsIndexed R lifetime from r.after) rounds
      → IsIndexed R lifetime from
          (consume_email_code R digest limit window consume purpose user code now rounds s).1
  unfolding consume_email_code
  consume_email_code-IsIndexed limit window consume purpose user code now [] s h hs = h
  consume_email_code-IsIndexed limit window consume purpose user code now (r ∷ rounds) s h hs =
      elim (Bool-cases (leb limit (count (get s now (failures purpose user))))) [
        | inl full ↦ rw full h
        | inr free ↦ elim (Bool-cases r.dirty) [
          | inl again ↦
              rw (free, again)
                (consume_email_code-IsIndexed limit window consume purpose user code now rounds
                  r.after hs.0 hs.1)
          | inr once ↦
              rw (free, once)
                (settle_guess-IsIndexed limit window consume purpose user now _ s r.after hs.0)
        ]
      ]

-- A row that the update fits holds the new hash afterwards.
fitting-stored :
    (user old new : ℕ) (us : List User) (xs : List Credential)
    → 0 < count_rows (fits user old us) xs
    → any_row
        (λ c. c.user_id == user && c.password_hash == new)
        (update_rows (fits user old us) (λ c. record c { password_hash = new }) xs)
      ≡ true
fitting-stored user old new us [] h = absurd (omega arith)
fitting-stored user old new us (x ∷ xs) h = elim (Bool-cases (fits user old us x)) [
  | inl t ↦ rw t (ground (arith, t))
  | inr f ↦ rw f (ground (arith, fitting-stored user old new us xs (rw f at h)))
]

module _ (E : Env) (R : Redis Key Value key_eq) (D : Tables) where
  pub confirm-Meets :
      {A : Type 0} (o : Outcome Bool) (failed invalid : AuthErrorCode) (w : World R D)
      (f : Unit {0} → Action (World R D) A) (P : A → World R D → Type 0)
      (F : AuthErrorCode → World R D → Type 0)
      → ((e : AuthErrorCode) → F e w)
      → (o ≡ returns true → Meets P F (f tt w))
      → Meets P F (continue (continue (settled E R D failed w o) (λ ok. require ok invalid)) f)
  confirm-Meets (returns true) failed invalid w f P F h k = k refl
  confirm-Meets (returns false) failed invalid w f P F h k = h _
  confirm-Meets contention failed invalid w f P F h k = h _

module _ (E : Env) (R : Redis Key Value key_eq) (D : Tables) (now user code password salt : ℕ)
    (rounds : List (Round R)) (others : Accounts D → Accounts D) where
  abbrev new_hash : ℕ
  new_hash = E.hash_password salt password

  pub record IsChanged (w w' : World R D) : Type 0 where
    pub hash : ℕ
    pub current : and_then (get_auth_user_by_id D user w.db) (λ u. u.password_hash) ≡ some hash
    pub confirmed :
        (consume_email_code R E.digest 5 600 true password_change user code now rounds w.cache).0
        ≡ returns true
    pub unmoved : (change_password_hash D user hash new_hash (others w.db)).0 ≡ true
    pub stored :
        any_row
          (λ c. c.user_id == user && c.password_hash == new_hash)
          (D.credentials.rows w'.db.credentials)
        ≡ true
    pub ended : (t id x : ℕ) → now ≤ t → verify_refresh_token R t user id x w'.cache ≡ false

  -- A failure left the database as it was, or ended the sessions.
  abbrev pub FailsClosed : World R D → World R D → Type 0
  FailsClosed w w' =
      (w'.db ≡ w.db)
      ⊎ ((t id x : ℕ) → now ≤ t → verify_refresh_token R t user id x w'.cache ≡ false)

  change-stored :
      (hash : ℕ) (s : Accounts D)
      → (change_password_hash D user hash new_hash s).0 ≡ true
      → any_row
          (λ c. c.user_id == user && c.password_hash == new_hash)
          (D.credentials.rows (change_password_hash D user hash new_hash s).1.credentials)
        ≡ true
  unfolding change_password_hash
  change-stored hash s e = rw D.credentials.update_law (
      fitting-stored user hash new_hash (user_rows D s) (D.credentials.rows s.credentials)
        (ground (arith, e)))

  hash-Meets :
      (o : Option ℕ) (w : World R D) (f : ℕ → Action (World R D) (Unit {0}))
      (P : Unit {0} → World R D → Type 0) (F : AuthErrorCode → World R D → Type 0)
      → ((e : AuthErrorCode) → F e w)
      → ((hash : ℕ) → o ≡ some hash → Meets P F (f hash w))
      → Meets P F (continue (current_hash E R D o w) f)
  hash-Meets none w f P F h k = h _
  hash-Meets (some hash) w f P F h k = k hash refl

  last-Meets :
      (b : Bool) (e : AuthErrorCode) (w : World R D) (P : Unit {0} → World R D → Type 0)
      (F : AuthErrorCode → World R D → Type 0)
      → (b ≡ false → F e w)
      → (b ≡ true → P tt w)
      → Meets P F (require b e w)
  last-Meets true e w P F h k = k refl
  last-Meets false e w P F h k = h refl

  -- A password change that succeeds was confirmed by a right code of the user, found the hash that
  -- it had read still stored, whatever other requests did to the database in between, stored the
  -- new one, and ended all sessions of the user; one that fails left the database as it was or
  -- ended the sessions. The index of the sessions is complete in all databases that stand during
  -- the call.
  pub change_password_lem :
      (from : ℕ) (w : World R D)
      → from ≤ now
      → IsIndexed R E.refresh_lifetime from w.cache
      → All (λ r. IsIndexed R E.refresh_lifetime from r.after) rounds
      → Meets
          (λ _. IsChanged w)
          (λ _. FailsClosed w)
          (change_password E R D now user code password salt rounds others w)
  unfolding change_password
  change_password_lem from w le h hs =
      require-Meets E.login_enabled _ _ w (λ _. IsChanged w) (λ _. FailsClosed w) (inl refl)
        (λ _.
          require-Meets E.email_enabled _ _ w (λ _. IsChanged w) (λ _. FailsClosed w) (inl refl)
            (λ _.
              hash-Meets _ w _ (λ _. IsChanged w) (λ _. FailsClosed w) (λ e. inl refl)
                (λ hash current.
                  let indexed =
                    consume_email_code-IsIndexed R E.digest E.refresh_lifetime from 5 600 true
                      password_change user code now rounds w.cache h hs in
                  confirm-Meets E R D _ _ _ _ _ (λ _. IsChanged w) (λ _. FailsClosed w)
                    (λ e. inl refl)
                    (λ confirmed.
                      let over : (t id x : ℕ)
                          → now ≤ t
                          → verify_refresh_token R t user id x (
                              delete_refresh_token R now user
                                (consume_email_code R E.digest 5 600 true password_change user code
                                  now rounds w.cache).1)
                            ≡ false =
                        λ t id x after.
                          delete_refresh_token_revokes R E.refresh_lifetime from now user t id x _
                            le after indexed in
                      last-Meets (change_password_hash D user hash new_hash (others w.db)).0 _ _
                        (λ _. IsChanged w) (λ _. FailsClosed w) (λ refused. inr over)
                        (λ changed. record {
                          hash = hash;
                          current = current;
                          confirmed = confirmed;
                          unmoved = changed;
                          stored = change-stored hash (others w.db) changed;
                          ended = over;
                        })))))
