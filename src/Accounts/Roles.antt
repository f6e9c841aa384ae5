-- ===== src/Accounts/Roles.antt =====
-- src/backend/app/models/user.py: `set_operator_role`, `update_user_role`, `delete_account` and
-- `get_user_role_stats`. Each runs under a lock of the table, as one step.
use b4fast_api.Prelude.{
  ℕ, Bool, true, false, ◌&&◌, not, Option, none, some, List, leb, ◌==◌, if◌then◌else◌, find_row,
  any_row, count_rows, length, and_then,
}
use b4fast_api.Outbox.{Notification}
use b4fast_api.Accounts.{
  UserRole, manager_role, is_admin, same_role, is_active_admin, User, Tables, Accounts, user_rows,
  user_not_found, account_delete_confirmation_required, last_admin_required,
  account_billing_review_required, unsupported_database, active_user_not_found,
  cannot_demote_last_admin, integrity_error, Reply, replied, refused,
}

pub data Dialect : Type 0 where
  sqlite : Dialect
  postgresql : Dialect
  other_dialect : Dialect

abbrev pub is_supported : Dialect → Bool
is_supported sqlite = true
is_supported postgresql = true
is_supported other_dialect = false

abbrev pub set_role : UserRole → User → User
set_role role u = record u { role = role }

pub record RoleStats : Type 0 where
  pub total_users : ℕ
  pub active_users : ℕ
  pub admin_users : ℕ
  pub manager_users : ℕ

abbrev pub is_manager : UserRole → Bool
is_manager manager_role = true
is_manager _ = false

module _ (D : Tables) where
  -- the number of active administrators that the code counts
  abbrev pub admins : Accounts D → ℕ
  admins s = count_rows is_active_admin (user_rows D s)

  -- The receipt of a role that changes; `none` is an `IntegrityError`.
  abbrev pub add_audit : ℕ → User → UserRole → ℕ → Accounts D → Option (Accounts D)
  add_audit audit_id u role operator s =
      if same_role u.role role
      then some s
      else and_then
          (D.audits.insert
            (record {
              id = audit_id;
              target_user_id = u.id;
              previous_role = u.role;
              new_role = role;
              operator = operator;
            })
            s.audits)
          (λ t. some (record s { audits = t }))

  abbrev pub assigned :
      User → UserRole → Option (Accounts D) → Reply (ℕ × UserRole × UserRole) (Accounts D)
  assigned u role none = refused integrity_error
  assigned u role (some s) =
      replied (u.id, u.role, role)
        (record s { users = D.users.update (λ v. v.id == u.id) (set_role role) s.users })

  abbrev pub assign_role :
      ℕ → UserRole → ℕ → Accounts D → Option User → Reply (ℕ × UserRole × UserRole) (Accounts D)
  assign_role audit_id role operator s none = refused active_user_not_found
  assign_role audit_id role operator s (some u) =
      if not u.is_active
      then refused active_user_not_found
      else if is_admin u.role && (not (is_admin role) && leb (admins s) 1)
      then refused cannot_demote_last_admin
      else assigned u role (add_audit audit_id u role operator s)

  unfoldable pub set_operator_role :
      Dialect → ℕ → ℕ → UserRole → ℕ → Accounts D → Reply (ℕ × UserRole × UserRole) (Accounts D)
  set_operator_role dialect audit_id email role operator s =
      if is_supported dialect
      then assign_role audit_id role operator s (find_row (λ u. u.email == email) (user_rows D s))
      else refused unsupported_database

  -- `db.delete`: the row of the user, and the rows that its relationships and foreign keys cascade to
  abbrev pub delete_user : ℕ → Accounts D → Accounts D
  delete_user user s = record s {
    users = D.users.delete (λ u. u.id == user) s.users;
    credentials = D.credentials.delete (λ c. c.user_id == user) s.credentials;
    identities = D.identities.delete (λ i. i.user_id == user) s.identities;
    inbox = D.inbox.delete (λ n. n.user_id == user) s.inbox;
    api_keys = D.api_keys.delete (λ k. k.user_id == user) s.api_keys;
  }

  abbrev pub add_notification : Option Notification → Accounts D → Option (Accounts D)
  add_notification none s = some s
  add_notification (some n) s =
      and_then (D.outbox.insert n s.outbox) (λ t. some (record s { outbox = t }))

  abbrev pub removed : User → Option (Accounts D) → Reply (Option ℕ) (Accounts D)
  removed u none = refused integrity_error
  removed u (some s) = replied u.profile_photo (delete_user u.id s)

  abbrev pub remove_found :
      (ℕ → ℕ)
      → (ℕ → ℕ)
      → List ℕ
      → ℕ
      → Option Notification
      → Accounts D
      → Option User
      → Reply (Option ℕ) (Accounts D)
  remove_found casefold strip checkouts email notification s none = refused user_not_found
  remove_found casefold strip checkouts email notification s (some u) =
      if not u.is_active
      then refused user_not_found
      else if not (casefold u.email == casefold (strip email))
      then refused account_delete_confirmation_required
      else if is_admin u.role && leb (admins s) 1
      then refused last_admin_required
      else if any_row (λ c. c == u.id) checkouts
      then refused account_billing_review_required
      else removed u (add_notification notification s)

  -- `casefold` and `strip` are those of the standard library, and `checkouts` the users that a
  -- billing checkout names.
  unfoldable pub delete_account :
      (ℕ → ℕ)
      → (ℕ → ℕ)
      → List ℕ
      → ℕ
      → ℕ
      → Option Notification
      → Accounts D
      → Reply (Option ℕ) (Accounts D)
  delete_account casefold strip checkouts user email notification s =
      remove_found casefold strip checkouts email notification s
        (find_row (λ u. u.id == user) (user_rows D s))

  unfoldable pub get_user_role_stats : Accounts D → RoleStats
  get_user_role_stats s = record {
    total_users = length (user_rows D s);
    active_users = count_rows (λ u. u.is_active) (user_rows D s);
    admin_users = count_rows (λ u. is_admin u.role) (user_rows D s);
    manager_users = count_rows (λ u. is_manager u.role) (user_rows D s);
  }
