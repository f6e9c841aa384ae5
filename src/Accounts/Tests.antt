-- ===== src/Accounts/Tests.antt =====
-- Runs of the accounts at concrete inputs.
use b4fast_api.Prelude.{
  ◌≡◌, ◌⊎◌, refl, false, true, some, none, List, [], ◌∷◌, arith, any_row, ◌==◌,
}
use b4fast_api.Database.Instance.{list_table}
use b4fast_api.Outbox.{same_id}
use b4fast_api.Inbox.{same_notification}
use b4fast_api.ApiKeys.{same_api_key}
use b4fast_api.Accounts.{
  user_role, admin_role, User, same_user, same_credential, same_identity, same_audit, Tables,
  Accounts, user_rows, NewIds, Welcome, email_already_exists, signup_failed,
  cannot_demote_last_admin, last_admin_required, replied, refused, new_user, new_identity,
  email_provider, create_signup_user, get_auth_user_by_email, change_password_hash,
}
use b4fast_api.Accounts.Roles.{sqlite, set_operator_role, delete_account}
use b4fast_api.Accounts.Admins.{IsAdministered}
use b4fast_api.Accounts.History.{
  AccountCall, sign_up, change_role, remove_account, run_calls, run_calls-IsAdministered,
}
use b4fast_api.Accounts.Signup.{breaks_constraint, create_signup_user_lem}
use b4fast_api.Accounts.Passwords.{change_password_once}

abbrev tables : Tables
tables = record {
  users = list_table same_user;
  credentials = list_table same_credential;
  identities = list_table same_identity;
  audits = list_table same_audit;
  inbox = list_table same_notification;
  outbox = list_table same_id;
  api_keys = list_table same_api_key;
}

abbrev root_user : User
root_user = new_user 1 101 11 true admin_role

abbrev database : Accounts tables
database = record {
  users = root_user ∷ [];
  credentials = record { id = 1; user_id = 1; password_hash = 900 } ∷ [];
  identities = new_identity 1 1 email_provider 101 ∷ [];
  audits = [];
  inbox = [];
  outbox = [];
  api_keys = [];
}

abbrev welcome : Welcome
welcome = record { kind = 1; title = []; body = [] }

abbrev second : NewIds
second = record { user = 2; credential = 2; identity = 2; notification = 1 }

database-IsAdministered : IsAdministered (user_rows tables database)
database-IsAdministered = record { distinct = (refl, tt); administered = omega arith }

abbrev calls : List AccountCall
calls =
    sign_up welcome second 50 102 12 901 false user_role
    ∷ change_role sqlite 1 102 admin_role 5
    ∷ remove_account [] 1 101 none
    ∷ change_role sqlite 2 102 user_role 5
    ∷ []

run_calls-IsAdministered_example :
    IsAdministered (user_rows tables (run_calls tables (λ e. e) (λ e. e) calls database))
run_calls-IsAdministered_example =
    run_calls-IsAdministered tables (λ e. e) (λ e. e) calls database database-IsAdministered

create_signup_user_lem_example :
    let user = new_user 2 102 12 false user_role in
    let reply = create_signup_user tables welcome second 50 102 12 901 false user_role database in
    let taken = any_row (λ u. u.email == 102) (user_rows tables database) in
    let broken = breaks_constraint tables welcome second 50 user 901 database in
    ((taken ≡ true) × (reply ≡ refused email_already_exists))
    ⊎ ((taken ≡ false) × (broken ≡ true) × (reply ≡ refused signup_failed))
    ⊎ ((taken ≡ false)
        × (broken ≡ false)
        × ((t : Accounts tables) × (reply ≡ replied user t)
            × (get_auth_user_by_email tables 102 t
                ≡ some (record { user = user; password_hash = some 901 }))))
create_signup_user_lem_example =
    create_signup_user_lem tables welcome second 50 102 12 901 false user_role database

change_password_once_example :
    (change_password_hash tables 1 900 903 (change_password_hash tables 1 900 902 database).1).0
    ≡ false
change_password_once_example = change_password_once tables 1 900 902 903 database refl

last_admin_stays :
    set_operator_role tables sqlite 1 101 user_role 5 database ≡ refused cannot_demote_last_admin
unfolding set_operator_role
last_admin_stays = refl

last_admin_not_removed :
    delete_account tables (λ e. e) (λ e. e) [] 1 101 none database ≡ refused last_admin_required
unfolding delete_account
last_admin_not_removed = refl

changed_once : (change_password_hash tables 1 900 902 database).0 ≡ true
unfolding change_password_hash
changed_once = refl
