-- ===== src/Accounts.antt =====
-- src/backend/app/models/user.py: users, credentials, sign-in identities, roles and account removal.
-- E-mails, names, hashes and providers are numbers; the times of creation and update, which
-- only responses show, are left out, and so is the list of connected providers
-- of a response: a response is the row that it is built from.
pub mod Profile
pub mod Roles
pub mod Signup
pub mod Admins
pub mod History
pub mod Passwords
pub mod Listing
mod Tests
use b4fast_api.Prelude.{
  ℕ, ◌≡◌, Bool, true, false, ◌&&◌, ◌||◌, not, Option, none, some, List, [], ◌∷◌, leb, ◌==◌, is_some,
  if◌then◌else◌, find_row, any_row, count_rows, and_then,
}
use b4fast_api.Database.{Table}
use b4fast_api.Outbox.{Notification, same_id}
use b4fast_api.Inbox.{InboxNotification, same_notification, add_inbox_notification}
use b4fast_api.ApiKeys.{ApiKey, same_api_key}

pub data UserRole : Type 0 where
  user_role : UserRole
  admin_role : UserRole
  manager_role : UserRole

abbrev pub is_admin : UserRole → Bool
is_admin admin_role = true
is_admin user_role = false
is_admin manager_role = false

abbrev pub same_role : UserRole → UserRole → Bool
same_role user_role user_role = true
same_role admin_role admin_role = true
same_role manager_role manager_role = true
same_role _ _ = false

pub record User : Type 0 where
  pub id : ℕ
  pub email : ℕ
  pub name : ℕ
  pub role : UserRole
  pub profile_image_url : Option ℕ
  pub bio : Option ℕ
  pub location : Option ℕ
  pub profile_photo : Option ℕ
  pub keyboard_shortcuts : Option ℕ
  pub is_active : Bool
  pub is_verified : Bool

pub record Credential : Type 0 where
  pub id : ℕ
  pub user_id : ℕ
  pub password_hash : ℕ

pub record AuthIdentity : Type 0 where
  pub id : ℕ
  pub user_id : ℕ
  pub provider : ℕ
  pub identifier : ℕ
  pub last_login_at : Option ℕ
  pub last_login_ip : Option ℕ
  pub last_login_user_agent : Option ℕ

pub record RoleChangeAudit : Type 0 where
  pub id : ℕ
  pub target_user_id : ℕ
  pub previous_role : UserRole
  pub new_role : UserRole
  pub operator : ℕ

-- the primary key and the unique e-mail
abbrev pub same_user : User → User → Bool
same_user a b = a.id == b.id || a.email == b.email

abbrev pub same_credential : Credential → Credential → Bool
same_credential a b = a.id == b.id || a.user_id == b.user_id

-- the primary key and the two `UniqueConstraint`s
abbrev pub same_identity : AuthIdentity → AuthIdentity → Bool
same_identity a b =
    a.id == b.id
    || ((a.provider == b.provider && a.identifier == b.identifier)
        || (a.user_id == b.user_id && a.provider == b.provider))

abbrev pub same_audit : RoleChangeAudit → RoleChangeAudit → Bool
same_audit a b = a.id == b.id

-- The tables that the repository writes, and their states in one transaction.
pub record Tables : Type 1 where
  pub users : Table User same_user
  pub credentials : Table Credential same_credential
  pub identities : Table AuthIdentity same_identity
  pub audits : Table RoleChangeAudit same_audit
  pub inbox : Table InboxNotification same_notification
  pub outbox : Table Notification same_id
  pub api_keys : Table ApiKey same_api_key

pub record Accounts (D : Tables) : Type 0 where
  pub users : D.users.State
  pub credentials : D.credentials.State
  pub identities : D.identities.State
  pub audits : D.audits.State
  pub inbox : D.inbox.State
  pub outbox : D.outbox.State
  pub api_keys : D.api_keys.State

pub data AccountError : Type 0 where
  email_already_exists : AccountError
  signup_failed : AccountError
  oauth_signup_failed : AccountError
  user_not_found : AccountError
  account_delete_confirmation_required : AccountError
  last_admin_required : AccountError
  account_billing_review_required : AccountError
  -- the `ValueError`s of `set_operator_role`
  unsupported_database : AccountError
  active_user_not_found : AccountError
  cannot_demote_last_admin : AccountError
  -- an `IntegrityError` that the code does not catch
  integrity_error : AccountError

-- What a call returns with its committed transaction; an error rolls it back.
pub data Reply (A S : Type 0) : Type 0 where
  replied : A → S → Reply A S
  refused : AccountError → Reply A S

pub record NewIds : Type 0 where
  pub user : ℕ
  pub credential : ℕ
  pub identity : ℕ
  pub notification : ℕ

-- `provider="email"`
abbrev pub email_provider : ℕ
email_provider = 0

abbrev pub is_active_admin : User → Bool
is_active_admin u = is_admin u.role && u.is_active

abbrev pub new_user : ℕ → ℕ → ℕ → Bool → UserRole → User
new_user id email name is_verified role = record {
  id = id;
  email = email;
  name = name;
  role = role;
  profile_image_url = none;
  bio = none;
  location = none;
  profile_photo = none;
  keyboard_shortcuts = none;
  is_active = true;
  is_verified = is_verified;
}

abbrev pub new_identity : ℕ → ℕ → ℕ → ℕ → AuthIdentity
new_identity id user provider identifier = record {
  id = id;
  user_id = user;
  provider = provider;
  identifier = identifier;
  last_login_at = none;
  last_login_ip = none;
  last_login_user_agent = none;
}

-- the texts of the welcome notification, made from the settings
pub record Welcome : Type 0 where
  pub kind : ℕ
  pub title : List ℕ
  pub body : List ℕ

-- "/home"
abbrev pub home : List ℕ
home = b'/' ∷ b'h' ∷ b'o' ∷ b'm' ∷ b'e' ∷ []

pub record AuthUser : Type 0 where
  pub user : User
  pub password_hash : Option ℕ

module _ (D : Tables) where
  abbrev S : Type 0
  S = Accounts D

  abbrev pub user_rows : Accounts D → List User
  user_rows s = D.users.rows s.users

  abbrev pub add_credential : ℕ → ℕ → Option ℕ → S → Option S
  add_credential id user none s = some s
  add_credential id user (some hash) s =
      and_then
        (D.credentials.insert (record { id = id; user_id = user; password_hash = hash })
          s.credentials)
        (λ t. some (record s { credentials = t }))

  -- The transaction of both signups; `none` is an `IntegrityError`.
  abbrev pub add_account : Welcome → NewIds → ℕ → User → Option ℕ → ℕ → ℕ → S → Option S
  add_account welcome ids now user password_hash provider identifier s =
      and_then (D.users.insert user s.users) (λ us.
        and_then (add_credential ids.credential user.id password_hash (record s { users = us }))
          (λ s1.
            and_then
              (D.identities.insert (new_identity ids.identity user.id provider identifier)
                s1.identities)
              (λ is.
                and_then
                  (add_inbox_notification ids.notification now user.id welcome.kind welcome.title
                    welcome.body (some home))
                  (λ n.
                    and_then (D.inbox.insert n s1.inbox)
                      (λ ns. some (record s1 { identities = is; inbox = ns }))))))

  abbrev pub signed_up : AccountError → User → Option S → Reply User S
  signed_up e user none = refused e
  signed_up e user (some s) = replied user s

  unfoldable pub create_signup_user :
      Welcome → NewIds → ℕ → ℕ → ℕ → ℕ → Bool → UserRole → S → Reply User S
  create_signup_user welcome ids now email name password_hash is_verified role s =
      let user = new_user ids.user email name is_verified role in
      if any_row (λ u. u.email == email) (user_rows s)
      then refused email_already_exists
      else signed_up signup_failed user
          (add_account welcome ids now user (some password_hash) email_provider email s)

  unfoldable pub create_oauth_user :
      Welcome → NewIds → ℕ → ℕ → ℕ → ℕ → ℕ → Bool → UserRole → S → Reply User S
  create_oauth_user welcome ids now email name provider identifier is_verified role s =
      let user = new_user ids.user email name is_verified role in
      if any_row (λ u. u.email == email) (user_rows s)
      then refused email_already_exists
      else signed_up oauth_signup_failed user
          (add_account welcome ids now user none provider identifier s)

  abbrev pub auth_user : S → User → AuthUser
  auth_user s u = record {
    user = u;
    password_hash =
        and_then (find_row (λ c. c.user_id == u.id) (D.credentials.rows s.credentials))
          (λ c. some c.password_hash);
  }

  unfoldable pub get_auth_user_by_id : ℕ → S → Option AuthUser
  get_auth_user_by_id user s =
      and_then (find_row (λ u. u.id == user && u.is_active) (user_rows s))
        (λ u. some (auth_user s u))

  unfoldable pub get_auth_user_by_identity : ℕ → ℕ → S → Option AuthUser
  unfolding get_auth_user_by_id
  get_auth_user_by_identity provider identifier s =
      and_then
        (find_row (λ i. i.provider == provider && i.identifier == identifier)
          (D.identities.rows s.identities))
        (λ i. get_auth_user_by_id i.user_id s)

  unfoldable pub get_auth_user_by_email : ℕ → S → Option AuthUser
  unfolding get_auth_user_by_identity
  get_auth_user_by_email email s = get_auth_user_by_identity email_provider email s

  unfoldable pub mark_email_verified : ℕ → S → Option User × S
  mark_email_verified user s =
      let fits : User → Bool = λ u. u.id == user && (u.is_active && not u.is_verified) in
      (
        and_then (find_row fits (user_rows s)) (λ u. some (record u { is_verified = true })),
        record s { users = D.users.update fits (λ u. record u { is_verified = true }) s.users },
      )

  unfoldable pub change_password_hash : ℕ → ℕ → ℕ → S → Bool × S
  change_password_hash user previous_hash password_hash s =
      let fits : Credential → Bool = λ c.
        c.user_id == user
        && (c.password_hash == previous_hash
            && any_row (λ u. u.id == c.user_id && u.is_active) (user_rows s)) in
      (
        count_rows fits (D.credentials.rows s.credentials) == 1,
        record s {
          credentials =
              D.credentials.update fits (λ c. record c { password_hash = password_hash })
                s.credentials;
        },
      )
