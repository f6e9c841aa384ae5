-- ===== src/Accounts/Listing.antt =====
-- src/backend/app/models/user.py: the lists for administrators, and `update_user_role`. Providers are
-- numbers in the order of their names.
use b4fast_api.Prelude.{
  ℕ, Bool, true, false, ◌&&◌, ◌||◌, Option, none, some, List, [], ◌∷◌, leb, ltb, ◌==◌,
  if◌then◌else◌, where_rows, count_rows, sort_by, page_rows, map,
}
use b4fast_api.Accounts.{
  UserRole, same_role, User, AuthIdentity, Tables, Accounts, user_rows, AuthUser, Reply, replied,
  refused, get_auth_user_by_id,
}
use b4fast_api.Accounts.Roles.{Dialect, RoleStats, set_operator_role, get_user_role_stats}

pub record AdminUser : Type 0 where
  pub user : User
  pub last_login_at : Option ℕ
  pub login_providers : List ℕ

pub record AdminUserList : Type 0 where
  pub items : List AdminUser
  pub total : ℕ
  pub page : ℕ
  pub page_size : ℕ
  pub summary : RoleStats

-- `max`, where an identity that never signed in has no date
abbrev pub later_login : Option ℕ → Option ℕ → Option ℕ
later_login none b = b
later_login (some a) none = some a
later_login (some a) (some b) = some (if ltb a b then b else a)

abbrev pub latest_login : List AuthIdentity → Option ℕ
latest_login [] = none
latest_login (i ∷ is) = later_login i.last_login_at (latest_login is)

abbrev pub providers : List AuthIdentity → List ℕ
providers is = sort_by leb (map (λ i. i.provider) is)

abbrev pub newest_user : User → User → Bool
newest_user a b = leb b.id a.id

abbrev pub has_role : Option UserRole → User → Bool
has_role none u = true
has_role (some role) u = same_role u.role role

abbrev pub has_activity : Option Bool → User → Bool
has_activity none u = true
has_activity (some true) u = u.is_active
has_activity (some false) u = if u.is_active then false else true

-- `icontains` on the e-mail and the name; an empty search is `none`
abbrev pub is_found : (ℕ → ℕ → Bool) → Option ℕ → User → Bool
is_found contains none u = true
is_found contains (some search) u = contains u.email search || contains u.name search

module _ (D : Tables) where
  abbrev pub identities_of : ℕ → Accounts D → List AuthIdentity
  identities_of user s = where_rows (λ i. i.user_id == user) (D.identities.rows s.identities)

  abbrev pub admin_user : Accounts D → User → AdminUser
  admin_user s u = record {
    user = u;
    last_login_at = latest_login (identities_of u.id s);
    login_providers = providers (identities_of u.id s);
  }

  unfoldable pub list_admin_users :
      (ℕ → ℕ → Bool) → ℕ → ℕ → Option ℕ → Option UserRole → Option Bool → Accounts D → AdminUserList
  list_admin_users contains page page_size search role is_active s =
      let fits : User → Bool =
        λ u. is_found contains search u && (has_role role u && has_activity is_active u) in
      record {
        items =
            map (admin_user s)
              (page_rows page page_size (sort_by newest_user (where_rows fits (user_rows D s))));
        total = count_rows fits (user_rows D s);
        page = page;
        page_size = page_size;
        summary = get_user_role_stats D s;
      }

  abbrev role_updated :
      ℕ → Reply (ℕ × UserRole × UserRole) (Accounts D) → Reply (Option AuthUser) (Accounts D)
  role_updated user (refused e) = refused e
  role_updated user (replied a s) = replied (get_auth_user_by_id D user s) s

  abbrev update_found :
      Dialect
      → ℕ
      → ℕ
      → UserRole
      → ℕ
      → Accounts D
      → Option AuthUser
      → Reply (Option AuthUser) (Accounts D)
  update_found dialect audit_id user role internal s none = replied none s
  update_found dialect audit_id user role internal s (some u) =
      role_updated user (set_operator_role D dialect audit_id u.user.email role internal s)

  -- `internal` is the name of that operator.
  unfoldable pub update_user_role :
      Dialect → ℕ → ℕ → UserRole → ℕ → Accounts D → Reply (Option AuthUser) (Accounts D)
  update_user_role dialect audit_id user role internal s =
      update_found dialect audit_id user role internal s (get_auth_user_by_id D user s)
