-- ===== src/Sessions/OneTime.antt =====
-- One-time tokens of both kinds: only the newest token of a user works, and it works once.
use b4fast_api.Prelude.{
  ℕ, ◌+◌, ◌<◌, ◌≡◌, ◌≢◌, refl, Bool, true, false, none, some, ltb, ◌==◌, if◌then◌else◌, arith,
  Bool-cases, Option-cases, inl, inr, ==-refl, lt→ltb,
}
use b4fast_api.Cache.{Redis}
use b4fast_api.Cache.Keys.{Key, Value, key_eq, num, text}
use b4fast_api.Sessions.{
  TokenKind, email_verify, password_reset, token_key, user_token_key, is_text, num_of, store_token,
  consume_token,
}

key_eq-token :
    (kind : TokenKind) (a b : ℕ) → key_eq (token_key kind a) (token_key kind b) ≡ (a == b)
key_eq-token email_verify a b = refl
key_eq-token password_reset a b = refl

key_eq-user_token :
    (kind : TokenKind) (a b : ℕ) → key_eq (user_token_key kind a) (user_token_key kind b) ≡ (a == b)
key_eq-user_token email_verify a b = refl
key_eq-user_token password_reset a b = refl

key_eq-token_user :
    (kind : TokenKind) (a b : ℕ) → key_eq (token_key kind a) (user_token_key kind b) ≡ false
key_eq-token_user email_verify a b = refl
key_eq-token_user password_reset a b = refl

key_eq-user_of_token :
    (kind : TokenKind) (a b : ℕ) → key_eq (user_token_key kind a) (token_key kind b) ≡ false
key_eq-user_of_token email_verify a b = refl
key_eq-user_of_token password_reset a b = refl

module _ (R : Redis Key Value key_eq) (kind : TokenKind) where
  open R use {State, get, set, get_set, delete, get_delete}

  get-store_user :
      (lifetime now user token t : ℕ) (s : State)
      → get (store_token R kind lifetime now user token s) t (user_token_key kind user)
        ≡ (if ltb t (now + lifetime) then some (text token) else none)
  unfolding store_token
  get-store_user lifetime now user token t s = rw (get_set, key_eq-user_token, ==-refl user)

  get-store_token :
      (lifetime now user token t : ℕ) (s : State)
      → get (store_token R kind lifetime now user token s) t (token_key kind token)
        ≡ (if ltb t (now + lifetime) then some (num user) else none)
  unfolding store_token
  get-store_token lifetime now user token t s =
      rw (get_set, key_eq-user_of_token, get_set, key_eq-token, ==-refl token)

  -- A stored one-time token names its user when it is consumed before its lifetime is over, and
  -- consuming it takes it away: a second call with it finds nothing, at any time.
  pub consume_token_once :
      (lifetime now user token t later : ℕ) (s : State)
      → t < now + lifetime
      → let (first, s') =
          consume_token R kind t token (store_token R kind lifetime now user token s) in
        (first ≡ some user) × ((consume_token R kind later token s').0 ≡ none)
  unfolding consume_token
  consume_token_once lifetime now user token t later s h =
      let u = store_token R kind lifetime now user token s in
      let named : get u t (token_key kind token) ≡ some (num user) =
        rw (get-store_token, lt→ltb _ _ h) in
      let back : get u t (user_token_key kind user) ≡ some (text token) =
        rw (get-store_user, lt→ltb _ _ h) in
      rw (named, back, ==-refl token)
        (refl, rw (get_delete, key_eq-user_of_token, get_delete, key_eq-token, ==-refl token))

  consumed_is_current :
      (t other user : ℕ) (s : State)
      → (consume_token R kind t other s).0 ≡ some user
      → is_text other (get s t (user_token_key kind user)) ≡ true
  unfolding consume_token
  consumed_is_current t other user s h =
      elim (Option-cases (num_of (get s t (token_key kind other)))) [
        | inl e ↦ cc (rw e at h)
        | inr (v, e) ↦ elim (Bool-cases (is_text other (get s t (user_token_key kind v)))) [
          | inl current ↦ let same : v ≡ user = cc (rw (e, current) at h) in rw same at current
          | inr stale ↦ cc (rw (e, stale) at h)
        ]
      ]

  not_text :
      (token other : ℕ) (b : Bool)
      → other ≢ token
      → is_text other (if b then some (text token) else none) ≡ false
  not_text token other b ne = ground arith

  -- After a one-time token is stored for a user, no other token names that user.
  pub store_token_supersedes :
      (lifetime now user token t other : ℕ) (s : State)
      → other ≢ token
      → (consume_token R kind t other (store_token R kind lifetime now user token s)).0 ≢ some user
  store_token_supersedes lifetime now user token t other s ne = λ h.
      let current = consumed_is_current t other user _ h in
      cc (rw get-store_user at current, not_text token other (ltb t (now + lifetime)) ne)
