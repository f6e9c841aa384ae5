-- ===== src/ApiKeys.antt =====
-- src/backend/app/models/api_key.py and src/backend/app/services/api_key.py: the API keys of the users.
-- Names, prefixes and keyed digests are numbers. The notifications to the user's open pages are
-- left out.
pub mod Usage
pub mod Revoking
mod Tests
use b4fast_api.Prelude.{
  ℕ, ◌≡◌, ◌+◌, Bool, true, false, ◌&&◌, ◌||◌, not, Option, none, some, List, [], ◌∷◌, leb, ltb,
  ◌==◌, is_some, is_none, if◌then◌else◌, find_row, where_rows,
}
use b4fast_api.Database.{Table}

pub record ApiKey : Type 0 where
  pub id : ℕ
  pub user_id : ℕ
  pub name : ℕ
  pub key_prefix : ℕ
  pub key_hash : ℕ
  pub created_at : ℕ
  pub request_count : ℕ
  pub last_used_at : Option ℕ
  pub expires_at : Option ℕ
  pub revoked_at : Option ℕ

-- the primary key, `uq_api_keys_key_hash` and `uq_api_keys_user_name`
abbrev pub same_api_key : ApiKey → ApiKey → Bool
same_api_key a b =
    a.id == b.id || (a.key_hash == b.key_hash || (a.user_id == b.user_id && a.name == b.name))

pub record ApiKeyResponse : Type 0 where
  pub id : ℕ
  pub name : ℕ
  pub key_prefix : ℕ
  pub created_at : ℕ
  pub request_count : ℕ
  pub last_used_at : Option ℕ
  pub expires_at : Option ℕ
  pub revoked_at : Option ℕ

abbrev pub response : ApiKey → ApiKeyResponse
response r = record {
  id = r.id;
  name = r.name;
  key_prefix = r.key_prefix;
  created_at = r.created_at;
  request_count = r.request_count;
  last_used_at = r.last_used_at;
  expires_at = r.expires_at;
  revoked_at = r.revoked_at;
}

pub data ApiKeyError : Type 0 where
  api_key_name_already_exists : ApiKeyError
  api_key_create_failed : ApiKeyError
  api_key_not_found : ApiKeyError

pub data Answer (A S : Type 0) : Type 0 where
  answer : A → S → Answer A S
  failure : ApiKeyError → Answer A S

abbrev pub ends_after : ℕ → Option ℕ → Bool
ends_after now none = true
ends_after now (some e) = ltb now e

unfoldable pub is_usable : ℕ → ℕ → ApiKey → Bool
is_usable key_hash now r =
    r.key_hash == key_hash && (is_none r.revoked_at && ends_after now r.expires_at)

unfoldable pub record_use : ℕ → ApiKey → ApiKey
record_use now r = record r { last_used_at = some now; request_count = r.request_count + 1 }

unfoldable pub set_enabled : ℕ → Bool → ApiKey → ApiKey
set_enabled now enabled r =
    if enabled
    then record r { revoked_at = none }
    else if is_none r.revoked_at
    then record r { revoked_at = some now }
    else r

-- `ORDER BY created_at DESC, id DESC`
abbrev pub comes_before : ApiKey → ApiKey → Bool
comes_before a b = ltb b.created_at a.created_at || (a.created_at == b.created_at && leb b.id a.id)

abbrev pub place : ApiKey → List ApiKey → List ApiKey
place r [] = r ∷ []
place r (x ∷ xs) = let rest = place r xs in if comes_before r x then r ∷ x ∷ xs else x ∷ rest

abbrev pub newest_first : List ApiKey → List ApiKey
newest_first [] = []
newest_first (x ∷ xs) = place x (newest_first xs)

abbrev pub responses : List ApiKey → List ApiKeyResponse
responses [] = []
responses (x ∷ xs) = response x ∷ responses xs

module _ (T : Table ApiKey same_api_key) where
  open T use {State, rows, update, delete, insert}

  unfoldable pub owned : ℕ → ℕ → State → Option ApiKey
  owned user id s = find_row (λ r. r.id == id && r.user_id == user) (rows s)

  abbrev use_found : ℕ → State → Option ApiKey → Option ApiKey × State
  use_found now s none = (none, s)
  use_found now s (some k) =
      (some (record_use now k), update (λ r. r.id == k.id) (record_use now) s)

  unfoldable pub record_valid_key_use : ℕ → ℕ → State → Option ApiKey × State
  record_valid_key_use key_hash now s = use_found now s (find_row (is_usable key_hash now) (rows s))

  abbrev created : Bool → ApiKey → Option State → Answer ApiKeyResponse State
  created names_the_name r none =
      failure (if names_the_name then api_key_name_already_exists else api_key_create_failed)
  created names_the_name r (some s') = answer (response r) s'

  -- The database's error message says which constraint a row breaks: `names_the_name`.
  unfoldable pub create_api_key :
      (ApiKey → State → Bool)
      → ℕ
      → ℕ
      → ℕ
      → ℕ
      → ℕ
      → ℕ
      → Option ℕ
      → State
      → Answer ApiKeyResponse State
  create_api_key names_the_name id now user name key_prefix key_hash expires_at s =
      let r : ApiKey = record {
        id = id;
        user_id = user;
        name = name;
        key_prefix = key_prefix;
        key_hash = key_hash;
        created_at = now;
        request_count = 0;
        last_used_at = none;
        expires_at = expires_at;
        revoked_at = none;
      } in
      created (names_the_name r s) r (insert r s)

  unfoldable pub list_api_keys : ℕ → State → List ApiKeyResponse
  list_api_keys user s = responses (newest_first (where_rows (λ r. r.user_id == user) (rows s)))

  abbrev delete_found : State → Option ApiKey → Answer ApiKeyResponse State
  delete_found s none = failure api_key_not_found
  delete_found s (some k) = answer (response k) (delete (λ r. r.id == k.id) s)

  unfoldable pub delete_api_key : ℕ → ℕ → State → Answer ApiKeyResponse State
  delete_api_key user id s = delete_found s (owned user id s)

  abbrev enable_found : ℕ → Bool → State → Option ApiKey → Answer ApiKeyResponse State
  enable_found now enabled s none = failure api_key_not_found
  enable_found now enabled s (some k) =
      answer (response (set_enabled now enabled k))
        (update (λ r. r.id == k.id) (set_enabled now enabled) s)

  unfoldable pub update_api_key_status : ℕ → ℕ → ℕ → Bool → State → Answer ApiKeyResponse State
  update_api_key_status now user id enabled s = enable_found now enabled s (owned user id s)
