-- ===== src/Accounts/Profile.antt =====
-- src/backend/app/models/user.py: identities, sign-in metadata, passwords and profiles.
use b4fast_api.Prelude.{
  ℕ, Bool, true, false, ◌&&◌, Option, none, some, ◌==◌, if◌then◌else◌, find_row, any_row, and_then,
}
use b4fast_api.Accounts.{
  User, Credential, AuthIdentity, Tables, Accounts, user_rows, new_identity, AuthUser,
  get_auth_user_by_id,
}

-- The arguments of `update_user_profile` with their flags.
pub record ProfileChange : Type 0 where
  pub name : Option ℕ
  pub profile_image_url : Option ℕ
  pub keyboard_shortcuts : Option ℕ
  pub bio : Option ℕ
  pub location : Option ℕ
  pub update_name : Bool
  pub update_profile_image_url : Bool
  pub update_keyboard_shortcuts : Bool
  pub update_bio : Bool
  pub update_location : Bool

abbrev pub or_else : Option ℕ → ℕ → ℕ
or_else none d = d
or_else (some n) d = n

unfoldable pub change_profile : ProfileChange → User → User
change_profile c u = record u {
  bio = if c.update_bio then c.bio else u.bio;
  location = if c.update_location then c.location else u.location;
  name = if c.update_name then or_else c.name u.name else u.name;
  profile_image_url =
      if c.update_profile_image_url then c.profile_image_url else u.profile_image_url;
  keyboard_shortcuts =
      if c.update_keyboard_shortcuts then c.keyboard_shortcuts else u.keyboard_shortcuts;
}

abbrev pub record_login : ℕ → Option ℕ → Option ℕ → AuthIdentity → AuthIdentity
record_login now ip user_agent i = record i {
  last_login_at = some now;
  last_login_ip = ip;
  last_login_user_agent = user_agent;
}

module _ (D : Tables) where
  -- `bootstrap` is the name of that provider.
  unfoldable pub has_bootstrap_identity : ℕ → ℕ → Accounts D → Bool
  has_bootstrap_identity bootstrap user s =
      any_row (λ i. i.user_id == user && i.provider == bootstrap) (D.identities.rows s.identities)

  unfoldable pub get_user_response_by_email : ℕ → Accounts D → Option User
  get_user_response_by_email email s =
      find_row (λ u. u.email == email && u.is_active) (user_rows D s)

  unfoldable pub get_user_response_by_id : ℕ → Accounts D → Option User
  unfolding get_auth_user_by_id
  get_user_response_by_id user s = and_then (get_auth_user_by_id D user s) (λ u. some u.user)

  abbrev linked : Accounts D → Option D.identities.State → Bool × Accounts D
  linked s none = (false, s)
  linked s (some t) = (true, record s { identities = t })

  unfoldable pub link_auth_identity : ℕ → ℕ → ℕ → ℕ → Accounts D → Bool × Accounts D
  link_auth_identity id user provider identifier s =
      linked s (D.identities.insert (new_identity id user provider identifier) s.identities)

  abbrev login_found : ℕ → Option ℕ → Option ℕ → Accounts D → Option AuthIdentity → Accounts D
  login_found now ip user_agent s none = s
  login_found now ip user_agent s (some i) = record s {
    identities =
        D.identities.update (λ j. j.id == i.id) (record_login now ip user_agent) s.identities;
  }

  unfoldable pub update_login_metadata :
      ℕ → ℕ → ℕ → Option ℕ → Option ℕ → ℕ → Accounts D → Accounts D
  update_login_metadata user provider identifier ip user_agent now s =
      login_found now ip user_agent s (
        find_row (λ i. i.user_id == user && (i.provider == provider && i.identifier == identifier))
          (D.identities.rows s.identities))

  abbrev password_found : ℕ → Accounts D → Option Credential → Bool × Accounts D
  password_found password_hash s none = (false, s)
  password_found password_hash s (some c) = (
    true,
    record s {
      credentials =
          D.credentials.update (λ d. d.id == c.id) (λ d. record d { password_hash = password_hash })
            s.credentials;
    },
  )

  unfoldable pub update_password_hash : ℕ → ℕ → Accounts D → Bool × Accounts D
  update_password_hash user password_hash s = password_found password_hash s (
      find_row
        (λ c. c.user_id == user && any_row (λ u. u.id == c.user_id && u.is_active) (user_rows D s))
        (D.credentials.rows s.credentials))

  abbrev pub profile_found : ProfileChange → Accounts D → Option User → Accounts D
  profile_found c s none = s
  profile_found c s (some u) = record s {
    users = D.users.update (λ v. v.id == u.id) (change_profile c) s.users;
  }

  unfoldable pub update_user_profile : ProfileChange → ℕ → Accounts D → Option AuthUser × Accounts D
  unfolding get_auth_user_by_id
  update_user_profile c user s =
      let found = find_row (λ u. u.id == user && u.is_active) (user_rows D s) in
      let s' = profile_found c s found in (and_then found (λ u. get_auth_user_by_id D user s'), s')
