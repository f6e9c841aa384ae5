-- ===== src/Cache/Keys.antt =====
-- The keys that the backend uses, a constructor for each f-string, and the values that it stores.
-- The f-strings of two families have different prefixes up to the first colon, or different last
-- parts, so that different constructors never name one key. Texts that the code only compares are
-- numbers. The JSON values are their fields; `malformed` is a text that `json.loads` refuses.
use b4fast_api.Prelude.{ℕ, ◌≡◌, Bool, true, false, ◌&&◌, ◌==◌, List, arith}

-- `ChallengePurpose` of src/backend/app/utils/account_verification.py
pub data Purpose : Type 0 where
  account_delete password_change : Purpose

pub data Key : Type 0 where
  refresh_session refresh_csrf refresh_user_sessions : ℕ → Key
  email_verify_token email_verify_user_token : ℕ → Key
  password_reset_token password_reset_user_token : ℕ → Key
  challenge cooldown budget failures : Purpose → ℕ → Key
  login_fail oauth_state : ℕ → Key

pub data Value : Type 0 where
  num text : ℕ → Value
  -- `user_id`, `refresh_token`, `remember_me`
  session : ℕ → ℕ → Bool → Value
  -- `nonce`, `digest`
  stored_code : ℕ → ℕ → Value
  members : List ℕ → Value
  malformed : Value

abbrev pub purpose_eq : Purpose → Purpose → Bool
purpose_eq account_delete account_delete = true
purpose_eq password_change password_change = true
purpose_eq _ _ = false

abbrev pub key_eq : Key → Key → Bool
key_eq (refresh_session a) (refresh_session b) = a == b
key_eq (refresh_csrf a) (refresh_csrf b) = a == b
key_eq (refresh_user_sessions a) (refresh_user_sessions b) = a == b
key_eq (email_verify_token a) (email_verify_token b) = a == b
key_eq (email_verify_user_token a) (email_verify_user_token b) = a == b
key_eq (password_reset_token a) (password_reset_token b) = a == b
key_eq (password_reset_user_token a) (password_reset_user_token b) = a == b
key_eq (challenge p a) (challenge q b) = purpose_eq p q && a == b
key_eq (cooldown p a) (cooldown q b) = purpose_eq p q && a == b
key_eq (budget p a) (budget q b) = purpose_eq p q && a == b
key_eq (failures p a) (failures q b) = purpose_eq p q && a == b
key_eq (login_fail a) (login_fail b) = a == b
key_eq (oauth_state a) (oauth_state b) = a == b
key_eq _ _ = false

pub purpose_eq_sound : (p q : Purpose) → purpose_eq p q ≡ true → p ≡ q
purpose_eq_sound p q h = ground arith

pub key_eq_sound : (k j : Key) → key_eq k j ≡ true → k ≡ j
key_eq_sound k j h = ground arith
