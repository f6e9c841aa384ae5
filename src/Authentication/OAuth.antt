-- ===== src/Authentication/OAuth.antt =====
-- Sign-in with Google or GitHub: `get_oauth_provider_configs`, the state of a sign-in,
-- `_fetch_oauth_profile`, `_resolve_oauth_user` and `oauth_callback_login`. What the provider
-- answers is an argument: its texts after `str(...).strip()` (and `.lower()` for e-mails), with
-- `none` for the empty text.
pub mod Resolve
pub mod Keeps
pub mod State
use b4fast_api.Prelude.{
  ℕ, ◌==◌, Bool, true, false, not, ◌&&◌, ◌||◌, is_some, Option, none, some, List, [], ◌∷◌,
  if◌then◌else◌, and_then, any_row, find_row,
}
use b4fast_api.Cache.{Redis}
use b4fast_api.Cache.Keys.{Key, Value, key_eq, text, oauth_state}
use b4fast_api.Sessions.{text_of}
use b4fast_api.Accounts.{
  User, AuthUser, Tables, Accounts, Reply, replied, refused, Welcome, NewIds, user_role,
  get_auth_user_by_id, get_auth_user_by_identity, create_oauth_user,
}
use b4fast_api.Accounts.Profile.{
  get_user_response_by_email, link_auth_identity, update_login_metadata,
}
use b4fast_api.Authentication.{
  AuthErrorCode, invalid_token, user_not_found, oauth_identity_conflict, oauth_signup_failed,
  oauth_provider_config_invalid, oauth_provider_not_enabled, oauth_provider_request_failed, Attempt,
  succeeded, rejected, repository, Action, ◌>>=◌, ◌>>◌, return, raise, require, ask, Env, World,
  Request, LoginResponse, ensure_login_enabled, change_cache, change_db, call_db,
  send_welcome_email, issue_session_tokens,
}
use b4fast_api.Authentication.Refresh.{either}

pub data OauthProvider : Type 0 where
  google github : OauthProvider

-- `provider.value`, beside `email_provider`
abbrev pub provider_value : OauthProvider → ℕ
provider_value google = 1
provider_value github = 2

-- `OAuthProvider(value)`; `none` is its `ValueError`
abbrev pub provider_of : ℕ → Option OauthProvider
provider_of n = if n == 1 then some google else if n == 2 then some github else none

abbrev pub same_provider : OauthProvider → Option OauthProvider → Bool
same_provider google (some google) = true
same_provider github (some github) = true
same_provider _ _ = false

pub record OauthSettings : Type 0 where
  pub oauth_enabled : Bool
  -- whether `get_oauth_validation_errors` is empty
  pub is_valid : Bool
  pub providers : List OauthProvider

-- An item of GitHub's list of e-mails; a missing e-mail is an empty one.
pub record GithubEmail : Type 0 where
  pub primary : Bool
  pub verified : Bool
  pub email : Option ℕ

-- The fields of the profile's payload that the code reads.
pub record Payload : Type 0 where
  -- "sub" of Google and "id" of GitHub
  pub subject : Option ℕ
  pub email : Option ℕ
  pub name : Option ℕ
  pub login_name : Option ℕ
  pub email_verified : Bool
  -- GitHub's e-mails, where the answer is a list; an item that is no mapping is `none`
  pub emails : Option (List (Option GithubEmail))

pub record OauthIdentityProfile : Type 0 where
  pub provider : OauthProvider
  pub provider_user_id : ℕ
  pub email : ℕ
  pub name : ℕ
  pub email_verified : Bool

abbrev pub name_or : Option ℕ → ℕ → ℕ
name_or none d = d
name_or (some n) d = n

abbrev pub chosen_email : Bool → Option ℕ → Option ℕ → Option ℕ
chosen_email true (some email) rest = some email
chosen_email _ _ rest = rest

-- The first verified e-mail of the list, among the primary ones or among all.
unfoldable pub first_verified : Bool → List (Option GithubEmail) → Option ℕ
first_verified primary [] = none
first_verified primary (none ∷ items) = first_verified primary items
first_verified primary (some item ∷ items) =
    chosen_email ((not primary || item.primary) && item.verified) item.email
      (first_verified primary items)

-- `clean` is `strip` and `lower`, with `none` for an empty result.
abbrev pub verified_answer : (ℕ → Option ℕ) → Option ℕ → Option ℕ × Bool
verified_answer clean none = (none, false)
verified_answer clean (some email) = (clean email, true)

-- `_fetch_github_primary_email`
unfoldable pub fetch_github_primary_email :
    (ℕ → Option ℕ) → Option (List (Option GithubEmail)) → Option ℕ × Bool
unfolding first_verified
fetch_github_primary_email clean none = (none, false)
fetch_github_primary_email clean (some items) =
    verified_answer clean (either (first_verified true items) (first_verified false items))

abbrev pub complete_profile :
    OauthProvider → Option ℕ → Option ℕ → Option ℕ → Bool → Option OauthIdentityProfile
complete_profile provider (some id) (some email) name email_verified = some (record {
  provider = provider;
  provider_user_id = id;
  email = email;
  name = name_or name email;
  email_verified = email_verified;
})
complete_profile provider _ _ name email_verified = none

-- `_fetch_oauth_profile`; `none` is its error
unfoldable pub fetch_oauth_profile :
    (ℕ → Option ℕ) → OauthProvider → Payload → Option OauthIdentityProfile
unfolding fetch_github_primary_email
fetch_oauth_profile clean google p =
    complete_profile google p.subject p.email (either p.name p.email) p.email_verified
fetch_oauth_profile clean github p =
    let (verified_email, email_verified) = fetch_github_primary_email clean p.emails in
    complete_profile github p.subject (either verified_email p.email) (either p.name p.login_name)
      email_verified

-- What the provider answers to the two requests of a sign-in; `none` is an error of the request.
pub record ProviderAnswers : Type 0 where
  -- the text of `access_token`, or `none` inside where the payload has none
  pub access_token : Option (Option ℕ)
  pub payload : Option Payload

-- What a sign-in draws: the ids of the rows.
pub record OauthDraws : Type 0 where
  pub linked_id : ℕ
  pub ids : NewIds

module _ (E : Env) (R : Redis Key Value key_eq) (D : Tables) where
  unfoldable pub get_oauth_provider_configs :
      OauthSettings → Action (World R D) (List OauthProvider)
  get_oauth_provider_configs settings = do
    ensure_login_enabled E R D
    if settings.oauth_enabled
        then (do require settings.is_valid oauth_provider_config_invalid; return settings.providers)
        else return []

  -- `_get_oauth_provider_config`
  unfoldable pub get_oauth_provider_config :
      OauthSettings → OauthProvider → Action (World R D) (Unit {0})
  unfolding get_oauth_provider_configs
  get_oauth_provider_config settings provider = do
    configs ← get_oauth_provider_configs settings
    require (any_row (λ p. same_provider p (some provider)) configs) oauth_provider_not_enabled

  -- `state` is the token that is drawn.
  unfoldable pub create_oauth_state : ℕ → ℕ → OauthProvider → Action (World R D) ℕ
  create_oauth_state now state provider = do
    change_cache E R D (λ s.
        R.set s now (oauth_state state) (text (provider_value provider)) E.oauth_state_lifetime)
    return state

  unfoldable pub consume_oauth_state : ℕ → ℕ → Action (World R D) (Option OauthProvider)
  consume_oauth_state now state w =
      let value = R.get w.cache now (oauth_state state) in
      if is_some value
      then succeeded (and_then (text_of value) provider_of)
          (record w { cache = R.delete w.cache (oauth_state state) })
      else succeeded none w

  abbrev pub oauth_created : World R D → Reply User (Accounts D) → Attempt (Unit {0}) (World R D)
  oauth_created w (replied user db) = succeeded tt (record w { db = db })
  oauth_created w (refused e) = rejected (repository e) w

  abbrev pub created_user : Option AuthUser → Action (World R D) AuthUser
  created_user none = raise oauth_signup_failed
  created_user (some u) = do send_welcome_email E R D u.user.id; return u

  abbrev pub linked_user : Option AuthUser → Action (World R D) AuthUser
  linked_user none = raise user_not_found
  linked_user (some u) = return u

  abbrev pub resolve_existing :
      Welcome
      → Request
      → OauthDraws
      → OauthIdentityProfile
      → Option User
      → Action (World R D) AuthUser
  resolve_existing welcome req draws profile (some existing) = do
    linked ← call_db E R D (
        link_auth_identity D draws.linked_id existing.id (provider_value profile.provider)
          profile.provider_user_id)
    require linked oauth_identity_conflict
    found ← ask (λ w. get_auth_user_by_id D existing.id w.db)
    linked_user found
  resolve_existing welcome req draws profile none = do
    λ w. oauth_created w (
        create_oauth_user D welcome draws.ids req.now profile.email profile.name
          (provider_value profile.provider) profile.provider_user_id profile.email_verified
          user_role w.db)
    found ← ask (λ w.
        get_auth_user_by_identity D (provider_value profile.provider) profile.provider_user_id w.db)
    created_user found

  abbrev pub resolve_identity :
      Welcome
      → Request
      → OauthDraws
      → OauthIdentityProfile
      → Option AuthUser
      → Action (World R D) AuthUser
  resolve_identity welcome req draws profile (some u) = return u
  resolve_identity welcome req draws profile none = do
    existing ← ask (λ w. get_user_response_by_email D profile.email w.db)
    resolve_existing welcome req draws profile existing

  -- `_resolve_oauth_user`
  unfoldable pub resolve_oauth_user :
      Welcome → Request → OauthDraws → OauthIdentityProfile → Action (World R D) AuthUser
  resolve_oauth_user welcome req draws profile = do
    require profile.email_verified invalid_token
    found ← ask (λ w.
        get_auth_user_by_identity D (provider_value profile.provider) profile.provider_user_id w.db)
    resolve_identity welcome req draws profile found

  -- `_exchange_oauth_code`
  abbrev pub exchange_oauth_code : Option (Option ℕ) → Action (World R D) ℕ
  exchange_oauth_code none = raise oauth_provider_request_failed
  exchange_oauth_code (some none) = raise invalid_token
  exchange_oauth_code (some (some token)) = return token

  abbrev pub profile_of : Option OauthIdentityProfile → Action (World R D) OauthIdentityProfile
  profile_of none = raise invalid_token
  profile_of (some profile) = return profile

  abbrev pub profile_answered :
      (ℕ → Option ℕ) → OauthProvider → Option Payload → Action (World R D) OauthIdentityProfile
  profile_answered clean provider none = raise oauth_provider_request_failed
  profile_answered clean provider (some payload) =
      profile_of (fetch_oauth_profile clean provider payload)

  -- `oauth_callback_login` after the user was resolved
  unfoldable pub oauth_sign_in :
      Request → OauthIdentityProfile → AuthUser → Action (World R D) LoginResponse
  unfolding issue_session_tokens
  oauth_sign_in req profile u = do
    change_db E R D (
        update_login_metadata D u.user.id (provider_value profile.provider) profile.provider_user_id
          (some req.ip) req.user_agent req.now)
    tokens ← issue_session_tokens E R D req u.user.id u.user.email true
    return (record { access_token = tokens.0; refresh_token = tokens.1; user = u })

  -- `oauth_callback_login` after its provider was found, and after the state was consumed
  abbrev pub callback_profile :
      (ℕ → Option ℕ)
      → Welcome
      → Request
      → OauthDraws
      → ProviderAnswers
      → OauthProvider
      → Action (World R D) LoginResponse
  callback_profile clean welcome req draws answers provider = do
    token ← exchange_oauth_code answers.access_token
    profile ← profile_answered clean provider answers.payload
    u ← resolve_oauth_user welcome req draws profile
    oauth_sign_in req profile u

  abbrev pub callback_state :
      (ℕ → Option ℕ)
      → Welcome
      → Request
      → OauthDraws
      → ProviderAnswers
      → OauthProvider
      → ℕ
      → Action (World R D) LoginResponse
  callback_state clean welcome req draws answers provider state = do
    consumed_provider ← consume_oauth_state req.now state
    require (same_provider provider consumed_provider) invalid_token
    callback_profile clean welcome req draws answers provider

  unfoldable pub oauth_callback_login :
      OauthSettings
      → (ℕ → Option ℕ)
      → Welcome
      → Request
      → OauthDraws
      → ProviderAnswers
      → OauthProvider
      → ℕ
      → Action (World R D) LoginResponse
  oauth_callback_login settings clean welcome req draws answers provider state = do
    get_oauth_provider_config settings provider
    callback_state clean welcome req draws answers provider state
