-- ===== src/Sessions.antt =====
-- src/backend/app/utils/token.py: refresh sessions, CSRF tokens and one-time e-mail tokens in Redis.
-- Tokens and ids are drawn by `secrets` and come as arguments. A payload in a place where the code
-- expects another kind of JSON is `malformed`.
pub mod Revocation
pub mod OneTime
mod Tests
use b4fast_api.Prelude.{
  ℕ, Bool, true, false, ◌&&◌, Option, none, some, List, [], ◌∷◌, ltb, ◌==◌, is_none, if◌then◌else◌,
}
use b4fast_api.Cache.{Redis}
use b4fast_api.Cache.Keys.{
  Key, Value, key_eq, num, text, session, members, account_delete, refresh_session, refresh_csrf,
  refresh_user_sessions, email_verify_token, email_verify_user_token, password_reset_token,
  password_reset_user_token, challenge, cooldown, budget, failures,
}

-- The two families of one-time tokens, which the code spells out twice.
pub data TokenKind : Type 0 where
  email_verify password_reset : TokenKind

abbrev pub token_key : TokenKind → ℕ → Key
token_key email_verify token = email_verify_token token
token_key password_reset token = password_reset_token token

abbrev pub user_token_key : TokenKind → ℕ → Key
user_token_key email_verify user = email_verify_user_token user
user_token_key password_reset user = password_reset_user_token user

abbrev pub members_of : Option Value → List ℕ
members_of (some (members ids)) = ids
members_of _ = []

abbrev pub contains : ℕ → List ℕ → Bool
contains x [] = false
contains x (y ∷ ys) = if x == y then true else contains x ys

abbrev pub text_of : Option Value → Option ℕ
text_of (some (text t)) = some t
text_of _ = none

-- `int(stored)`
abbrev pub num_of : Option Value → Option ℕ
num_of (some (num n)) = some n
num_of _ = none

abbrev pub is_text : ℕ → Option Value → Bool
is_text token (some (text t)) = t == token
is_text token _ = false

abbrev pub is_session_of : ℕ → ℕ → Option Value → Bool
is_session_of user token (some (session u t remember)) = u == user && t == token
is_session_of user token _ = false

abbrev pub session_of : Option Value → Option (ℕ × Bool)
session_of (some (session user token remember)) = some (user, remember)
session_of _ = none

module _ (R : Redis Key Value key_eq) where
  open R use {State, get, ttl, set, delete, expire, write}

  -- SADD
  unfoldable pub add_member : ℕ → ℕ → ℕ → State → State
  add_member now user id s =
      let old = members_of (get s now (refresh_user_sessions user)) in
      write s now (refresh_user_sessions user) (members (if contains id old then old else id ∷ old))

  unfoldable pub store_refresh_token : ℕ → ℕ → ℕ → ℕ → ℕ → Bool → State → State
  store_refresh_token lifetime now user id token remember s =
      let s1 = set s now (refresh_session id) (session user token remember) lifetime in
      let s2 = expire s1 now (refresh_csrf id) lifetime in
      let s3 = add_member now user id s2 in expire s3 now (refresh_user_sessions user) lifetime

  -- `fresh` is the token that `secrets` would give
  unfoldable pub get_or_create_refresh_csrf : ℕ → ℕ → ℕ → State → Option ℕ × State
  get_or_create_refresh_csrf now id fresh s =
      let left = ttl s now (refresh_session id) in
      let s' =
        if is_none (get s now (refresh_csrf id))
        then set s now (refresh_csrf id) (text fresh) left
        else s in
      if ltb 0 left then (text_of (get s' now (refresh_csrf id)), s') else (none, s)

  -- `plain` is whether a text is ASCII, not empty and of 128 characters at most
  unfoldable pub verify_refresh_csrf : (ℕ → Bool) → ℕ → ℕ → Option ℕ → State → Bool
  verify_refresh_csrf plain now id none s = false
  verify_refresh_csrf plain now id (some token) s =
      plain token && is_text token (get s now (refresh_csrf id))

  unfoldable pub get_refresh_session : ℕ → ℕ → State → Option (ℕ × Bool)
  get_refresh_session now id s = session_of (get s now (refresh_session id))

  unfoldable pub verify_refresh_token : ℕ → ℕ → ℕ → ℕ → State → Bool
  verify_refresh_token now user id token s =
      is_session_of user token (get s now (refresh_session id))

  -- `store_email_verification_token` and `store_password_reset_token`
  abbrev pub forget_previous : TokenKind → Option ℕ → State → State
  forget_previous kind none s = s
  forget_previous kind (some token) s = delete s (token_key kind token)

  unfoldable pub store_token : TokenKind → ℕ → ℕ → ℕ → ℕ → State → State
  store_token kind lifetime now user token s =
      let previous = text_of (get s now (user_token_key kind user)) in
      let s1 = forget_previous kind previous s in
      let s2 = set s1 now (token_key kind token) (num user) lifetime in
      set s2 now (user_token_key kind user) (text token) lifetime

  -- What a round of `consume_email_verification_token` decides before its transaction, and the
  -- whole of what `consume_password_reset_token` decides.
  abbrev token_user : TokenKind → ℕ → ℕ → Option ℕ → State → Option ℕ
  token_user kind now token none s = none
  token_user kind now token (some user) s =
      if is_text token (get s now (user_token_key kind user)) then some user else none

  unfoldable pub token_owner : TokenKind → ℕ → ℕ → State → Option ℕ
  token_owner kind now token s =
      token_user kind now token (num_of (get s now (token_key kind token))) s

  abbrev pub delete_token : TokenKind → ℕ → ℕ → State → State
  delete_token kind token user s =
      delete (delete s (token_key kind token)) (user_token_key kind user)

  abbrev consume_owned : TokenKind → ℕ → Option ℕ → State → Option ℕ × State
  consume_owned kind token none s = (none, s)
  consume_owned kind token (some user) s = (some user, delete_token kind token user s)

  -- `consume_password_reset_token`, and `consume_email_verification_token` where no other client
  -- disturbs its transaction
  unfoldable pub consume_token : TokenKind → ℕ → ℕ → State → Option ℕ × State
  unfolding token_owner
  consume_token kind now token s = consume_owned kind token (token_owner kind now token s) s

  unfoldable pub delete_sessions : List ℕ → State → State
  delete_sessions [] s = s
  delete_sessions (id ∷ ids) s =
      delete_sessions ids (delete (delete s (refresh_session id)) (refresh_csrf id))

  unfoldable pub delete_refresh_token : ℕ → ℕ → State → State
  delete_refresh_token now user s =
      let ids = members_of (get s now (refresh_user_sessions user)) in
      delete (delete_sessions ids s) (refresh_user_sessions user)

  abbrev pub delete_one_time : TokenKind → ℕ → ℕ → State → State
  delete_one_time kind now user s =
      delete (forget_previous kind (text_of (get s now (user_token_key kind user))) s)
        (user_token_key kind user)

  unfoldable pub delete_account_tokens : ℕ → ℕ → State → State
  unfolding delete_refresh_token
  delete_account_tokens now user s =
      let s1 = delete_refresh_token now user s in
      let s2 =
        delete
          (delete
            (delete (delete s1 (challenge account_delete user)) (cooldown account_delete user))
            (budget account_delete user))
          (failures account_delete user) in
      delete_one_time password_reset now user (delete_one_time email_verify now user s2)
