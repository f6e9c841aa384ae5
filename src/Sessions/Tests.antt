-- ===== src/Sessions/Tests.antt =====
-- Runs of the sessions and one-time tokens at concrete inputs.
use b4fast_api.Prelude.{◌≡◌, ◌≢◌, refl, true, false, none, some, arith}
use b4fast_api.Cache.{Redis}
use b4fast_api.Cache.Instance.{function_redis, Store}
use b4fast_api.Cache.Keys.{Key, Value, key_eq, key_eq_sound}
use b4fast_api.Sessions.{
  email_verify, store_refresh_token, verify_refresh_token, delete_refresh_token, store_token,
  consume_token,
}
use b4fast_api.Sessions.Revocation.{
  IsIndexed, store_refresh_token-IsIndexed, delete_refresh_token_revokes,
}
use b4fast_api.Sessions.OneTime.{consume_token_once, store_token_supersedes}

abbrev redis : Redis Key Value key_eq
redis = function_redis key_eq key_eq_sound

abbrev empty : Store Key Value
empty k = none

abbrev logged_in : Store Key Value
logged_in = store_refresh_token redis 100 5 1 11 21 true empty

empty-IsIndexed : IsIndexed redis 100 0 empty
empty-IsIndexed = record { listed = λ t id user token r after e. cc; ended = λ t id over. refl }

store_refresh_token-IsIndexed_example : IsIndexed redis 100 5 logged_in
store_refresh_token-IsIndexed_example =
    store_refresh_token-IsIndexed redis 100 0 5 1 11 21 true empty (omega arith) empty-IsIndexed

logged_in-IsIndexed : IsIndexed redis 100 5 logged_in
logged_in-IsIndexed =
    store_refresh_token-IsIndexed redis 100 0 5 1 11 21 true empty (omega arith) empty-IsIndexed

delete_refresh_token_revokes_example :
    verify_refresh_token redis 20 1 11 21 (delete_refresh_token redis 10 1 logged_in) ≡ false
delete_refresh_token_revokes_example =
    delete_refresh_token_revokes redis 100 5 10 1 20 11 21 logged_in (omega arith) (omega arith)
      logged_in-IsIndexed

consume_token_once_example :
    let (first, s') =
      consume_token redis email_verify 20 9 (store_token redis email_verify 100 5 1 9 empty) in
    (first ≡ some 1) × ((consume_token redis email_verify 30 9 s').0 ≡ none)
consume_token_once_example =
    consume_token_once redis email_verify 100 5 1 9 20 30 empty (omega arith)

store_token_supersedes_example :
    (consume_token redis email_verify 20 8
      (store_token redis email_verify 100 5 1 9 (store_token redis email_verify 100 2 1 8 empty))).0
    ≢ some 1
store_token_supersedes_example =
    store_token_supersedes redis email_verify 100 5 1 9 20 8
      (store_token redis email_verify 100 2 1 8 empty) (omega arith)
