-- ===== src/Authentication/Emails.antt =====
-- `verify_email`, `resend_verification_email`, `update_profile`, and what a request tells of its
-- language and its address. A text is the list of its characters' codes; `strip` and `lower` are
-- those of the standard library.
use b4fast_api.Prelude.{ℕ, Bool, if◌then◌else◌, Option, none, some, List, [], ◌∷◌, ◌==◌}
use b4fast_api.Cache.{Redis}
use b4fast_api.Cache.Keys.{Key, Value, key_eq}
use b4fast_api.Sessions.{email_verify, consume_token}
use b4fast_api.Accounts.{User, AuthUser, Tables, get_auth_user_by_email, mark_email_verified}
use b4fast_api.Accounts.Profile.{ProfileChange, update_user_profile}
use b4fast_api.Authentication.{
  invalid_token, user_not_found, profile_update_failed, Action, ◌>>=◌, ◌>>◌, return, raise, ask,
  Env, World, ensure_login_enabled, ensure_email_enabled, call_db, call_cache,
  send_verification_email, send_welcome_email,
}

module _ (E : Env) (R : Redis Key Value key_eq) (D : Tables) where
  abbrev welcomed : Option User → Action (World R D) User
  welcomed none = raise user_not_found
  welcomed (some user) = do send_welcome_email E R D user.id; return user

  abbrev verified_owner : Option ℕ → Action (World R D) User
  verified_owner none = raise invalid_token
  verified_owner (some user) = do found ← call_db E R D (mark_email_verified D user); welcomed found

  unfoldable pub verify_email : ℕ → ℕ → Action (World R D) User
  verify_email now token = do
    ensure_login_enabled E R D
    ensure_email_enabled E R D
    owner ← call_cache E R D (consume_token R email_verify now token)
    verified_owner owner

  abbrev resend_for : ℕ → ℕ → Option AuthUser → Action (World R D) (Unit {0})
  resend_for now token none = return tt
  resend_for now token (some u) =
      if u.user.is_verified then return tt else send_verification_email E R D now u.user.id token

  -- `token` is the verification token that is drawn.
  unfoldable pub resend_verification_email : ℕ → ℕ → ℕ → Action (World R D) (Unit {0})
  resend_verification_email now email token = do
    ensure_login_enabled E R D
    if E.email_enabled
        then (do found ← ask (λ w. get_auth_user_by_email D email w.db); resend_for now token found)
        else return tt

  abbrev updated : Option AuthUser → Action (World R D) AuthUser
  updated none = raise profile_update_failed
  updated (some u) = return u

  unfoldable pub update_profile : ProfileChange → ℕ → Action (World R D) AuthUser
  update_profile form user = do
    found ← call_db E R D (update_user_profile D form user)
    updated found

-- `text.split(sep)[0]`
abbrev pub up_to : ℕ → List ℕ → List ℕ
up_to sep [] = []
up_to sep (c ∷ cs) = if c == sep then [] else c ∷ up_to sep cs

abbrev pub or_text : List ℕ → List ℕ → List ℕ
or_text [] d = d
or_text (c ∷ cs) d = c ∷ cs

-- "en" and "ko", the values of EMAIL_LANGUAGE_BY_PREFIX
pub data EmailLanguage : Type 0 where
  english korean : EmailLanguage

abbrev pub language_by_prefix : List ℕ → EmailLanguage
language_by_prefix (a ∷ b ∷ []) =
    if a == b'k' then (if b == b'o' then korean else english) else english
language_by_prefix _ = english

-- `_resolve_email_language`; `cleaned` is `strip` and `lower`
unfoldable pub resolve_email_language : (List ℕ → List ℕ) → Option (List ℕ) → EmailLanguage
resolve_email_language cleaned none = english
resolve_email_language cleaned (some []) = english
resolve_email_language cleaned (some (c ∷ cs)) =
    language_by_prefix (up_to b'-' (cleaned (up_to b',' (c ∷ cs))))

-- A header that is there and not empty, up to its first separator, where something is left of it.
abbrev pub from_header : (List ℕ → List ℕ) → Option (List ℕ) → List ℕ → List ℕ
from_header cleaned none d = d
from_header cleaned (some []) d = d
from_header cleaned (some (c ∷ cs)) d = or_text (cleaned (c ∷ cs)) d

-- `_get_client_ip`, with the two headers
unfoldable pub get_client_ip :
    Bool → (List ℕ → List ℕ) → List ℕ → Option (List ℕ) → Option (List ℕ) → List ℕ
get_client_ip trusts strip client x_forwarded_for x_real_ip =
    if trusts
    then from_header (λ ips. strip (up_to b',' ips)) x_forwarded_for
        (from_header strip x_real_ip client)
    else client
