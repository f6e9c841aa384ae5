-- ===== src/Authentication/Tests.antt =====
-- Runs of the authentication service at concrete inputs.
use b4fast_api.Prelude.{ℕ, ◌+◌, ◌*◌, ◌≡◌, ◌==◌, refl, true, false, none, some, List, [], ◌∷◌, arith}
use b4fast_api.Database.Instance.{list_table}
use b4fast_api.Cache.{Redis}
use b4fast_api.Cache.Instance.{function_redis, Store}
use b4fast_api.Cache.Keys.{Key, Value, key_eq, key_eq_sound, login_fail}
use b4fast_api.Outbox.{same_id}
use b4fast_api.Inbox.{same_notification}
use b4fast_api.ApiKeys.{same_api_key}
use b4fast_api.Accounts.{
  user_role, same_user, same_credential, same_identity, same_audit, Tables, Accounts, new_user,
  new_identity, email_provider, get_auth_user_by_email,
}
use b4fast_api.Authentication.{Env, World, Request, LoginResponse, rejected, account_locked, Meets}
use b4fast_api.Cache.Keys.{
  Purpose, password_change, account_delete, challenge, stored_code, refresh_csrf, text, oauth_state,
}
use b4fast_api.Codes.{Round, consume_email_code, settle_guess}
use b4fast_api.Sessions.{
  store_refresh_token, add_member, verify_refresh_csrf, verify_refresh_token, get_refresh_session,
  store_token, consume_token, token_owner, delete_refresh_token, delete_account_tokens,
  password_reset,
}
use b4fast_api.Sessions.Revocation.{IsIndexed}
use b4fast_api.Lifecycle.{notification_row}
use b4fast_api.Accounts.{
  AuthUser, get_auth_user_by_id, get_auth_user_by_identity, change_password_hash,
}
use b4fast_api.Accounts.Profile.{update_login_metadata, update_password_hash}
use b4fast_api.Authentication.{succeeded, issue_session_tokens}
use b4fast_api.Authentication.Failures.{is_success, is_refusal}
use b4fast_api.Authentication.Refresh.{
  Credentials, refresh_with_request_context, refresh_access_token,
}
use b4fast_api.Authentication.Refresh.Genuine.{IsGenuine, Same, refresh-IsGenuine}
use b4fast_api.Authentication.Renewal.{explicit, login-refresh}
use b4fast_api.Authentication.Passwords.{reset_password}
use b4fast_api.Authentication.Passwords.Reset.{IsReset, reset_password_lem}
use b4fast_api.Authentication.Confirmation.{change_password}
use b4fast_api.Authentication.Confirmation.Change.{IsChanged, FailsClosed, change_password_lem}
use b4fast_api.Accounts.{Welcome}
use b4fast_api.Accounts.Roles as Roles
use b4fast_api.Accounts.Profile.{
  get_user_response_by_id, get_user_response_by_email, link_auth_identity,
}
use b4fast_api.Authentication.Deletion.{DeletionNotice, delete_account}
use b4fast_api.Authentication.Deletion.Removed.{IsRemoved, Untouched, delete_account_lem}
use b4fast_api.Authentication.OAuth.{
  google, OauthSettings, OauthDraws, OauthIdentityProfile, ProviderAnswers, fetch_oauth_profile,
  get_oauth_provider_configs, get_oauth_provider_config, consume_oauth_state, resolve_oauth_user,
  oauth_sign_in, oauth_callback_login,
}
use b4fast_api.Authentication.OAuth.Resolve.{IsResolved, Unchanged, resolve_oauth_user-IsResolved}
use b4fast_api.Authentication.OAuth.State.{IsServed, IsRefused, oauth_callback_login_once}
use b4fast_api.Authentication.SignIn.{
  LoginForm, login, check_login_limit, register_login_failure, count_failure, sign_in,
}
use b4fast_api.Authentication.Lockout.{LoginTry, run_all, refusals, AllMissed, lockout}

abbrev redis : Redis Key Value key_eq
redis = function_redis key_eq key_eq_sound

abbrev tables : Tables
tables = record {
  users = list_table same_user;
  credentials = list_table same_credential;
  identities = list_table same_identity;
  audits = list_table same_audit;
  inbox = list_table same_notification;
  outbox = list_table same_id;
  api_keys = list_table same_api_key;
}

-- A user with the id 1, the e-mail 101 and the password 42.
abbrev database : Accounts tables
database = record {
  users = new_user 1 101 11 true user_role ∷ [];
  credentials = record { id = 1; user_id = 1; password_hash = 942 } ∷ [];
  identities = new_identity 1 1 email_provider 101 ∷ [];
  audits = [];
  inbox = [];
  outbox = [];
  api_keys = [];
}

abbrev settings : Env
settings = record {
  login_enabled = true;
  email_enabled = true;
  login_failed_limit = 3;
  login_locked_time = 600;
  refresh_lifetime = 86400;
  verification_lifetime = 3600;
  reset_lifetime = 3600;
  oauth_state_lifetime = 600;
  hash_password = λ salt password. salt + password;
  verify_password = λ password hash. hash == 900 + password;
  encode = λ user email now. user * 1000 + email;
  digest = λ user nonce code purpose. user + nonce * 7 + code * 1000;
  is_plain = λ token. true;
  casefold = λ e. e;
  strip = λ e. e;
  blank = 0;
  publish = λ m. true;
}

abbrev empty : Store Key Value
empty k = none

abbrev world : World redis tables
world = record { cache = empty; db = database; mails = [] }

abbrev request_at : ℕ → ℕ → Request
request_at now ip = record {
  now = now;
  ip = ip;
  user_agent = none;
  session_id = 70;
  fresh_token = 80;
}

abbrev form_with : ℕ → LoginForm
form_with password = record { email = 101; password = password; remember_me = true }

abbrev wrong_at : ℕ → ℕ → LoginTry
wrong_at now ip = record { form = form_with 41; req = request_at now ip }

abbrev wrong_guesses : List LoginTry
wrong_guesses = wrong_at 20 7 ∷ wrong_at 25 8 ∷ wrong_at 30 7 ∷ []

first_refused : is_refusal (login settings redis tables (form_with 41) (request_at 10 7) world) ≡ 1
unfolding login check_login_limit register_login_failure count_failure get_auth_user_by_email
first_refused = refl

guesses-AllMissed :
    AllMissed settings redis tables 7 610 wrong_guesses
      (run_all settings redis tables 7 (wrong_at 10 7 ∷ []) world)
unfolding login check_login_limit register_login_failure count_failure get_auth_user_by_email
guesses-AllMissed = (omega arith, refl, (omega arith, refl, (omega arith, refl, tt)))

three_refused :
    refusals settings redis tables 7 wrong_guesses
      (run_all settings redis tables 7 (wrong_at 10 7 ∷ []) world)
    ≡ 2
unfolding login check_login_limit register_login_failure count_failure get_auth_user_by_email
three_refused = refl

-- After three wrong passwords the right one is refused as well.
lockout_example :
    (seconds : ℕ) × (login settings redis tables
        (form_with 42)
        (request_at 40 7)
        (run_all settings redis tables 7 (wrong_at 10 7 ∷ wrong_guesses) world)
      ≡ rejected
          (account_locked seconds)
          (run_all settings redis tables 7 (wrong_at 10 7 ∷ wrong_guesses) world))
lockout_example =
    lockout settings redis tables 7 (wrong_at 10 7) wrong_guesses (form_with 42) (request_at 40 7)
      world refl refl refl first_refused guesses-AllMissed (omega (arith, three_refused)) refl
      (omega arith)

-- Refreshing with cookies.
abbrev cookies : Credentials
cookies = record {
  refresh_token = none;
  user_id = none;
  session_id = none;
  cookie_token = some 80;
  cookie_session_id = some 70;
  csrf_token = some 90;
}

abbrev session_cache : Store Key Value
session_cache = store_refresh_token redis 86400 10 1 70 80 true empty

abbrev with_cache : Store Key Value → World redis tables
with_cache s = record { cache = s; db = database; mails = [] }

abbrev csrf_world : World redis tables
csrf_world = with_cache (redis.set session_cache 15 (refresh_csrf 70) (text 90) 86395)

cookies_refresh :
    is_success (refresh_with_request_context settings redis tables 20 cookies csrf_world) ≡ true
unfolding store_refresh_token add_member refresh_with_request_context refresh_access_token
    verify_refresh_csrf verify_refresh_token get_refresh_session get_auth_user_by_id
cookies_refresh = refl

refresh-IsGenuine_example :
    Meets
      (IsGenuine settings redis tables 20 cookies csrf_world)
      (Same settings redis tables 20 csrf_world)
      (refresh_with_request_context settings redis tables 20 cookies csrf_world)
refresh-IsGenuine_example = refresh-IsGenuine settings redis tables 20 cookies csrf_world

-- A login and a refresh.
abbrev account : AuthUser
account = record { user = new_user 1 101 11 true user_role; password_hash = some 942 }

abbrev login_response : LoginResponse
login_response = record { access_token = 1101; refresh_token = 80; user = account }

abbrev logged_in : World redis tables
logged_in = record {
  cache = store_refresh_token redis 86400 10 1 70 80 true (redis.delete empty (login_fail 7));
  db = update_login_metadata tables 1 email_provider 101 (some 7) none 10 database;
  mails = [];
}

login_succeeds :
    login settings redis tables (form_with 42) (request_at 10 7) world
    ≡ succeeded login_response logged_in
unfolding login check_login_limit sign_in issue_session_tokens get_auth_user_by_email
    get_auth_user_by_identity get_auth_user_by_id
login_succeeds = refl

login-refresh_example :
    refresh_with_request_context settings redis tables 500
      (explicit settings redis tables 80 70)
      logged_in
    ≡ succeeded
        (record { access_token = 1101; refresh_token = 80 }, 70, true)
        (record logged_in {
          cache = store_refresh_token redis 86400 500 1 70 80 true logged_in.cache;
        })
login-refresh_example =
    login-refresh settings redis tables (form_with 42) (request_at 10 7) 500 world logged_in
      login_response login_succeeds (omega arith)

-- Resetting the password.
abbrev reset_cache : Store Key Value
reset_cache = store_token redis password_reset 3600 5 1 9 empty

reset_cache-IsIndexed : IsIndexed redis 86400 0 reset_cache
unfolding store_token
reset_cache-IsIndexed = record {
  listed = λ t id user token r after e. cc;
  ended = λ t id over. refl;
}

password_resets :
    is_success (reset_password settings redis tables 20 9 43 900 (with_cache reset_cache)) ≡ true
unfolding store_token reset_password consume_token token_owner update_password_hash
    delete_refresh_token
password_resets = refl

reset_password_lem_example :
    Meets
      (λ _. IsReset settings redis tables 20 9 43 900 (with_cache reset_cache))
      (λ _ w. w.db ≡ database)
      (reset_password settings redis tables 20 9 43 900 (with_cache reset_cache))
reset_password_lem_example =
    reset_password_lem settings redis tables 0 20 9 43 900 (with_cache reset_cache) (omega arith)
      reset_cache-IsIndexed

-- Changing the password and deleting the account, with the code 55.
abbrev code_cache : Purpose → Store Key Value
code_cache purpose =
    redis.set empty 5 (challenge purpose 1) (stored_code 3 (settings.digest 1 3 55 purpose)) 600

code_cache-IsIndexed : (purpose : Purpose) → IsIndexed redis 86400 0 (code_cache purpose)
code_cache-IsIndexed purpose = record {
  listed = λ t id user token r after e. cc;
  ended = λ t id over. refl;
}

abbrev rounds_on : Store Key Value → List (Round redis)
rounds_on s = record { dirty = false; after = s } ∷ []

password_changes :
    is_success (
      change_password settings redis tables 20 1 55 43 900
        (rounds_on (code_cache password_change))
        (λ s. s)
        (with_cache (code_cache password_change)))
    ≡ true
unfolding change_password consume_email_code settle_guess change_password_hash get_auth_user_by_id
    delete_refresh_token
password_changes = refl

change_password_lem_example :
    let w = with_cache (code_cache password_change) in
    let rounds = rounds_on (code_cache password_change) in
    Meets
      (λ _. IsChanged settings redis tables 20 1 55 43 900 rounds (λ s. s) w)
      (λ _. FailsClosed settings redis tables 20 1 55 43 900 rounds (λ s. s) w)
      (change_password settings redis tables 20 1 55 43 900 rounds (λ s. s) w)
change_password_lem_example =
    change_password_lem settings redis tables 20 1 55 43 900
      (rounds_on (code_cache password_change)) (λ s. s) 0 (with_cache (code_cache password_change))
      (omega arith) (code_cache-IsIndexed password_change)
      (code_cache-IsIndexed password_change, tt)

abbrev notice : DeletionNotice
notice = record {
  crypto = record { sha256 = λ key. key; encrypt = λ r. r.email };
  key = λ user. 5000 + user;
  language = 0;
}

account_deletes :
    is_success (
      delete_account settings redis tables notice [] 20 1 101 55
        (rounds_on (code_cache account_delete))
        (with_cache (code_cache account_delete)))
    ≡ true
unfolding delete_account consume_email_code settle_guess Roles.delete_account notification_row
    get_auth_user_by_id get_user_response_by_id delete_account_tokens
account_deletes = refl

delete_account_lem_example :
    let w = with_cache (code_cache account_delete) in
    let rounds = rounds_on (code_cache account_delete) in
    Meets
      (λ _. IsRemoved settings redis tables notice [] 20 1 101 55 rounds w)
      (Untouched settings redis tables notice [] 20 1 101 55 rounds w)
      (delete_account settings redis tables notice [] 20 1 101 55 rounds w)
delete_account_lem_example =
    delete_account_lem settings redis tables notice [] 20 1 101 55
      (rounds_on (code_cache account_delete)) 0 (with_cache (code_cache account_delete))
      (omega arith) (code_cache-IsIndexed account_delete) (code_cache-IsIndexed account_delete, tt)

-- Signing in with Google.
abbrev profile : OauthIdentityProfile
profile = record {
  provider = google;
  provider_user_id = 500;
  email = 101;
  name = 11;
  email_verified = true;
}

abbrev welcome : Welcome
welcome = record { kind = 1; title = []; body = [] }

abbrev draws : OauthDraws
draws = record {
  linked_id = 2;
  ids = record { user = 2; credential = 2; identity = 2; notification = 1 };
}

identity_links :
    is_success
      (resolve_oauth_user settings redis tables welcome (request_at 20 7) draws profile world)
    ≡ true
unfolding resolve_oauth_user get_auth_user_by_identity get_auth_user_by_id
    get_user_response_by_email link_auth_identity
identity_links = refl

resolve_oauth_user-IsResolved_example :
    Meets
      (IsResolved settings redis tables welcome (request_at 20 7) draws profile world)
      (Unchanged settings redis tables welcome (request_at 20 7) draws profile world)
      (resolve_oauth_user settings redis tables welcome (request_at 20 7) draws profile world)
resolve_oauth_user-IsResolved_example =
    resolve_oauth_user-IsResolved settings redis tables welcome (request_at 20 7) draws profile
      world

abbrev oauth_settings : OauthSettings
oauth_settings = record { oauth_enabled = true; is_valid = true; providers = google ∷ [] }

abbrev google_answers : ProviderAnswers
google_answers = record {
  access_token = some (some 600);
  payload = some (record {
    subject = some 500;
    email = some 101;
    name = none;
    login_name = none;
    email_verified = true;
    emails = none;
  });
}

abbrev state_world : World redis tables
state_world = with_cache (redis.set empty 5 (oauth_state 33) (text 1) 600)

callback_succeeds :
    is_success (
      oauth_callback_login settings redis tables oauth_settings
        (λ e. some e)
        welcome
        (request_at 20 7)
        draws
        google_answers
        google
        33
        state_world)
    ≡ true
unfolding oauth_callback_login get_oauth_provider_config get_oauth_provider_configs
    consume_oauth_state fetch_oauth_profile resolve_oauth_user oauth_sign_in issue_session_tokens
    get_auth_user_by_identity get_auth_user_by_id get_user_response_by_email link_auth_identity
callback_succeeds = refl

oauth_callback_login_once_example :
    Meets
      (λ _. IsServed settings redis tables 33 20 google state_world)
      (IsRefused settings redis tables 33 state_world)
      (oauth_callback_login settings redis tables oauth_settings
        (λ e. some e)
        welcome
        (request_at 20 7)
        draws
        google_answers
        google
        33
        state_world)
oauth_callback_login_once_example =
    oauth_callback_login_once settings redis tables 33 oauth_settings (λ e. some e) welcome
      (request_at 20 7) draws google_answers google state_world
