-- ===== src/Authentication.antt =====
-- src/backend/app/services/auth.py: what its methods share. A method is an action on the cache,
-- the database and the mails handed to the queue; a raised exception keeps what was done before
-- it. Passwords, tokens and texts are numbers, and an empty text that the code tests is `none`.
-- Outages of Redis or the database are not modelled.
pub mod SignIn
pub mod Failures
pub mod Lockout
pub mod Refresh
pub mod Passwords
pub mod Confirmation
pub mod Emails
pub mod Renewal
pub mod OAuth
pub mod Deletion
mod Tests
use b4fast_api.Prelude.{
  ℕ, ◌≡◌, Bool, true, false, not, Option, none, some, List, [], ◌∷◌, ◌++◌, if◌then◌else◌,
}
use b4fast_api.Cache.{Redis}
use b4fast_api.Cache.Keys.{Key, Value, Purpose, key_eq}
use b4fast_api.Codes.{Digest}
use b4fast_api.Sessions.{store_refresh_token, store_token, email_verify, password_reset}
use b4fast_api.Accounts.{User, AuthUser, Tables, Accounts, AccountError}

pub data AuthErrorCode : Type 0 where
  login_disabled email_disabled invalid_token csrf_invalid user_not_found email_not_verified :
      AuthErrorCode
  -- the seconds that remain
  account_locked : ℕ → AuthErrorCode
  -- the attempts that remain, where the code tells them
  invalid_credentials : Option ℕ → AuthErrorCode
  oauth_identity_conflict oauth_signup_failed : AuthErrorCode
  oauth_provider_config_invalid oauth_provider_not_enabled oauth_provider_request_failed :
      AuthErrorCode
  code_throttled : Purpose → ℕ → AuthErrorCode
  code_send_failed code_invalid change_failed : Purpose → AuthErrorCode
  account_delete_confirmation_required profile_update_failed : AuthErrorCode
  -- an error of the repository of users
  repository : AccountError → AuthErrorCode
  -- the mail queue raised where the code does not catch it
  mail_unavailable : AuthErrorCode

pub data Attempt (A S : Type 0) : Type 0 where
  succeeded : A → S → Attempt A S
  rejected : AuthErrorCode → S → Attempt A S

abbrev pub continue : {A B S : Type 0} → Attempt A S → (A → S → Attempt B S) → Attempt B S
continue (succeeded a s) f = f a s
continue (rejected e s) f = rejected e s

abbrev pub Action : Type 0 → Type 0 → Type 0
Action S A = S → Attempt A S

infixl 5 ◌>>=◌ ◌>>◌
abbrev pub ◌>>=◌ : {S A B : Type 0} → Action S A → (A → Action S B) → Action S B
(m >>= f) s = continue (m s) f

abbrev pub ◌>>◌ : {S A B : Type 0} → Action S A → Action S B → Action S B
(m >> k) s = continue (m s) (λ _. k)

abbrev pub return : {S A : Type 0} → A → Action S A
return a s = succeeded a s

abbrev pub raise : {S A : Type 0} → AuthErrorCode → Action S A
raise e s = rejected e s

-- `if not ok: raise AuthException(code)`
abbrev pub require : {S : Type 0} → Bool → AuthErrorCode → Action S (Unit {0})
require true e s = succeeded tt s
require false e s = rejected e s

abbrev pub ask : {S A : Type 0} → (S → A) → Action S A
ask f s = succeeded (f s) s

abbrev pub modify : {S : Type 0} → (S → S) → Action S (Unit {0})
modify f s = succeeded tt (f s)

-- A property of what an action returns, and one of how it fails.
abbrev pub Meets :
    {A S : Type 0} → (A → S → Type 0) → (AuthErrorCode → S → Type 0) → Attempt A S → Type 0
Meets P E (succeeded a s) = P a s
Meets P E (rejected e s) = E e s

pub continue-Meets :
    {A B S : Type 0} (Q : A → S → Type 0) (P : B → S → Type 0) (E : AuthErrorCode → S → Type 0)
    (r : Attempt A S) (f : A → S → Attempt B S)
    → Meets Q E r
    → ((a : A) (s : S) → Q a s → Meets P E (f a s))
    → Meets P E (continue r f)
continue-Meets Q P E (succeeded a s) f h k = k a s h
continue-Meets Q P E (rejected e s) f h k = h

-- The mails handed to the queue, with what identifies their content.
pub data Mail : Type 0 where
  welcome_mail : ℕ → Mail
  verification_mail reset_mail : ℕ → ℕ → Mail
  code_mail : Purpose → ℕ → ℕ → Mail

-- The settings and libraries that the service uses.
pub record Env : Type 0 where
  pub login_enabled : Bool
  pub email_enabled : Bool
  pub login_failed_limit : ℕ
  -- times in seconds
  pub login_locked_time : ℕ
  pub refresh_lifetime : ℕ
  pub verification_lifetime : ℕ
  pub reset_lifetime : ℕ
  pub oauth_state_lifetime : ℕ
  -- `hash_password` with its salt, and `verify_password`
  pub hash_password : ℕ → ℕ → ℕ
  pub verify_password : ℕ → ℕ → Bool
  -- `jwt.encode` of a subject, an e-mail and the time
  pub encode : ℕ → ℕ → ℕ → ℕ
  -- `_digest` of the codes
  pub digest : Digest
  -- whether a CSRF token is ASCII, not empty and short
  pub is_plain : ℕ → Bool
  -- `str.casefold` and `str.strip`
  pub casefold : ℕ → ℕ
  pub strip : ℕ → ℕ
  -- the empty text
  pub blank : ℕ
  -- whether the queue takes a mail
  pub publish : Mail → Bool

module _ (R : Redis Key Value key_eq) (D : Tables) where
  pub record World : Type 0 where
    pub cache : R.State
    pub db : Accounts D
    pub mails : List Mail

-- What a request carries beside its form.
pub record Request : Type 0 where
  pub now : ℕ
  pub ip : ℕ
  pub user_agent : Option ℕ
  -- drawn by `create_refresh_session_id` and `create_refresh_token`
  pub session_id : ℕ
  pub fresh_token : ℕ

pub record LoginResponse : Type 0 where
  pub access_token : ℕ
  pub refresh_token : ℕ
  pub user : AuthUser

module _ (E : Env) (R : Redis Key Value key_eq) (D : Tables) where
  abbrev pub ensure_login_enabled : Action (World R D) (Unit {0})
  ensure_login_enabled = require E.login_enabled login_disabled

  abbrev pub ensure_email_enabled : Action (World R D) (Unit {0})
  ensure_email_enabled = require E.email_enabled email_disabled

  abbrev pub change_cache : (R.State → R.State) → Action (World R D) (Unit {0})
  change_cache f = modify (λ w. record w { cache = f w.cache })

  abbrev pub change_db : (Accounts D → Accounts D) → Action (World R D) (Unit {0})
  change_db f = modify (λ w. record w { db = f w.db })

  -- a call of the repository that answers and changes the database
  abbrev pub call_db : {A : Type 0} → (Accounts D → A × Accounts D) → Action (World R D) A
  call_db f w = let (a, db) = f w.db in succeeded a (record w { db = db })

  abbrev pub call_cache : {A : Type 0} → (R.State → A × R.State) → Action (World R D) A
  call_cache f w = let (a, cache) = f w.cache in succeeded a (record w { cache = cache })

  -- `MAIL_QUEUE_SERVICE.enqueue_...`, and the error that its failure ends in
  unfoldable pub enqueue : AuthErrorCode → Mail → Action (World R D) (Unit {0})
  enqueue e m w =
      if E.publish m then succeeded tt (record w { mails = w.mails ++ m ∷ [] }) else rejected e w

  -- `_send_welcome_email`: a failure is logged
  unfoldable pub send_welcome_email : ℕ → Action (World R D) (Unit {0})
  send_welcome_email user w = succeeded tt (
      if E.publish (welcome_mail user)
      then record w { mails = w.mails ++ welcome_mail user ∷ [] }
      else w)

  -- `_issue_session_tokens`: the access and the refresh token
  unfoldable pub issue_session_tokens : Request → ℕ → ℕ → Bool → Action (World R D) (ℕ × ℕ)
  issue_session_tokens req user email remember_me = do
    change_cache (
        store_refresh_token R E.refresh_lifetime req.now user req.session_id req.fresh_token
          remember_me)
    return (E.encode user email req.now, req.fresh_token)

  -- `_send_verification_email` and `_send_password_reset_email`, with the token that is drawn
  unfoldable pub send_verification_email : ℕ → ℕ → ℕ → Action (World R D) (Unit {0})
  unfolding enqueue
  send_verification_email now user token = do
    change_cache (store_token R email_verify E.verification_lifetime now user token)
    enqueue mail_unavailable (verification_mail user token)

  unfoldable pub send_password_reset_email : ℕ → ℕ → ℕ → Action (World R D) (Unit {0})
  unfolding enqueue
  send_password_reset_email now user token = do
    change_cache (store_token R password_reset E.reset_lifetime now user token)
    enqueue mail_unavailable (reset_mail user token)
