-- ===== src/ApiKeys/Tests.antt =====
-- Runs of the API keys at concrete inputs.
use b4fast_api.Prelude.{◌≡◌, ◌+◌, ◌⊎◌, refl, true, false, some, none, List, [], ◌∷◌, Elem, find_row}
use b4fast_api.Database.{Table}
use b4fast_api.Database.Instance.{list_table}
use b4fast_api.ApiKeys.{
  ApiKey, same_api_key, response, is_usable, record_use, set_enabled, owned, record_valid_key_use,
  delete_api_key, update_api_key_status, list_api_keys, answer,
}
use b4fast_api.ApiKeys.Revoking.{disabled_key_refused, deleted_key_refused}
use b4fast_api.ApiKeys.Usage.{total_uses, record_valid_key_use_lem}

abbrev api_keys : Table ApiKey same_api_key
api_keys = list_table same_api_key

abbrev build_key : ApiKey
build_key = record {
  id = 1;
  user_id = 7;
  name = 11;
  key_prefix = 12;
  key_hash = 501;
  created_at = 10;
  request_count = 4;
  last_used_at = none;
  expires_at = some 900;
  revoked_at = none;
}

abbrev deploy_key : ApiKey
deploy_key = record build_key {
  id = 2;
  name = 13;
  key_hash = 502;
  created_at = 20;
  expires_at = none;
}

abbrev rows : List ApiKey
rows = build_key ∷ deploy_key ∷ []

owned_deploy : owned api_keys 7 2 rows ≡ some deploy_key
unfolding owned
owned_deploy = refl

disabled_key_refused_example :
    (s' : List ApiKey) × (update_api_key_status api_keys 50 7 2 false rows
      ≡ answer (response (set_enabled 50 false deploy_key)) s')
    × (record_valid_key_use api_keys 502 60 s' ≡ (none, s'))
disabled_key_refused_example =
    disabled_key_refused api_keys 7 2 50 60 rows deploy_key (refl, (refl, tt)) owned_deploy

deleted_key_refused_example :
    (s' : List ApiKey) × (delete_api_key api_keys 7 2 rows ≡ answer (response deploy_key) s')
    × (record_valid_key_use api_keys 502 60 s' ≡ (none, s'))
deleted_key_refused_example =
    deleted_key_refused api_keys 7 2 60 rows deploy_key (refl, (refl, tt)) owned_deploy

record_valid_key_use_lem_example :
    let (used, s') = record_valid_key_use api_keys 501 100 rows in
    ((used ≡ none) × (find_row (is_usable 501 100) rows ≡ none) × (s' ≡ rows))
    ⊎ ((k : ApiKey) × Elem k rows
        × (is_usable 501 100 k ≡ true)
        × (used ≡ some (record_use 100 k))
        × (total_uses s' ≡ total_uses rows + 1))
record_valid_key_use_lem_example = record_valid_key_use_lem api_keys 501 100 rows (refl, (refl, tt))

newest_listed : list_api_keys api_keys 7 rows ≡ response deploy_key ∷ response build_key ∷ []
unfolding list_api_keys
newest_listed = refl

ended_key_refused : record_valid_key_use api_keys 501 900 rows ≡ (none, rows)
unfolding record_valid_key_use is_usable
ended_key_refused = refl
