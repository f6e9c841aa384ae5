-- ===== src/Access/Tests.antt =====
-- Requests at concrete inputs.
use b4fast_api.Prelude.{◌≡◌, refl, true, some, none, [], ◌∷◌, ◌==◌}
use b4fast_api.Database.Instance.{list_table}
use b4fast_api.Outbox.{same_id}
use b4fast_api.Inbox.{same_notification}
use b4fast_api.ApiKeys.{ApiKey, same_api_key}
use b4fast_api.Accounts.{
  admin_role, user_role, same_user, same_credential, same_identity, same_audit, Tables, Accounts,
  new_user, new_identity, get_auth_user_by_id,
}
use b4fast_api.Accounts.Profile.{has_bootstrap_identity}
use b4fast_api.Access.{Auth, denied, insufficient_role, get_current_user}

abbrev tables : Tables
tables = record {
  users = list_table same_user;
  credentials = list_table same_credential;
  identities = list_table same_identity;
  audits = list_table same_audit;
  inbox = list_table same_notification;
  outbox = list_table same_id;
  api_keys = list_table same_api_key;
}

abbrev key_of_two : ApiKey
key_of_two = record {
  id = 1;
  user_id = 2;
  name = 11;
  key_prefix = 12;
  key_hash = 501;
  created_at = 10;
  request_count = 4;
  last_used_at = none;
  expires_at = none;
  revoked_at = none;
}

abbrev database : Accounts tables
database = record {
  users = new_user 1 101 11 true admin_role ∷ new_user 2 102 12 true user_role ∷ [];
  credentials = [];
  identities = new_identity 1 1 9 101 ∷ [];
  audits = [];
  inbox = [];
  outbox = [];
  api_keys = key_of_two ∷ [];
}

abbrev auth : Auth
auth = record {
  decode = λ t. some t;
  digest = λ k. k;
  strip = λ k. k;
  is_blank = λ k. k == 0;
  is_production = true;
  bootstrap = 9;
}

bootstrap_denied :
    (get_current_user tables auth 50 (some 1) none database).0 ≡ denied insufficient_role
unfolding get_current_user get_auth_user_by_id has_bootstrap_identity
bootstrap_denied = refl
