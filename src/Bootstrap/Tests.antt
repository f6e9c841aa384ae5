-- ===== src/Bootstrap/Tests.antt =====
-- A provisioning at concrete inputs.
use b4fast_api.Prelude.{◌+◌, ◌≡◌, refl, true, false, some, [], ◌∷◌}
use b4fast_api.Database.Instance.{list_table}
use b4fast_api.Outbox.{same_id}
use b4fast_api.Inbox.{same_notification, add_inbox_notification}
use b4fast_api.ApiKeys.{same_api_key}
use b4fast_api.Accounts.{
  user_role, admin_role, same_user, same_credential, same_identity, same_audit, Tables, Accounts,
  Welcome, NewIds, new_user, new_identity, email_provider, create_oauth_user,
  get_auth_user_by_identity, get_auth_user_by_id,
}
use b4fast_api.Accounts.Profile.{get_user_response_by_email}
use b4fast_api.Bootstrap.{BootstrapSettings, initialize}
use b4fast_api.Bootstrap.Provisioned.{IsProvisioned, initialize-IsProvisioned}

abbrev tables : Tables
tables = record {
  users = list_table same_user;
  credentials = list_table same_credential;
  identities = list_table same_identity;
  audits = list_table same_audit;
  inbox = list_table same_notification;
  outbox = list_table same_id;
  api_keys = list_table same_api_key;
}

abbrev database : Accounts tables
database = record {
  users = new_user 1 101 11 true user_role ∷ [];
  credentials = [];
  identities = new_identity 1 1 email_provider 101 ∷ [];
  audits = [];
  inbox = [];
  outbox = [];
  api_keys = [];
}

abbrev settings : BootstrapSettings
settings = record {
  is_development = true;
  login_enabled = false;
  bootstrap_user_email = some 500;
  bootstrap_user_name = some 50;
  provider = 3;
  create_access_token = λ user email. user + email;
}

abbrev welcome : Welcome
welcome = record { kind = 1; title = []; body = [] }

abbrev ids : NewIds
ids = record { user = 2; credential = 2; identity = 2; notification = 1 }

account_provisioned :
    (initialize settings tables welcome ids 10 database).0
    ≡ some (new_user 2 500 50 true admin_role)
unfolding initialize get_user_response_by_email create_oauth_user get_auth_user_by_identity
    get_auth_user_by_id add_inbox_notification
account_provisioned = refl

initialize-IsProvisioned_example :
    IsProvisioned settings tables welcome ids 10 database
      (initialize settings tables welcome ids 10 database)
initialize-IsProvisioned_example = initialize-IsProvisioned settings tables welcome ids 10 database
