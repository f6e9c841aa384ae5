-- ===== src/Cache.antt =====
-- Redis, which src/backend/app/core/cache/redis.py connects to: a parameter of the model. Its laws say
-- what its documentation says of each command, at every key and at every later clock reading.
-- Times are in seconds.
pub mod Keys
pub mod Instance
use b4fast_api.Prelude.{
  ℕ, ◌+◌, ◌-◌, ◌≤◌, ◌≡◌, Bool, not, ◌&&◌, Option, none, some, ltb, is_some, if◌then◌else◌,
}

pub record Redis (Key Value : Type 0) (key_eq : Key → Key → Bool) : Type 1 where
  pub State : Type 0
  -- GET at a clock reading
  pub get : State → ℕ → Key → Option Value
  -- A value that nobody writes stays until it expires.
  pub get_earlier :
      (s : State) (t t' : ℕ) (k : Key) (v : Value)
      → t ≤ t'
      → get s t' k ≡ some v
      → get s t k ≡ some v
  -- TTL in seconds. Redis answers -2 for no key and -1 for no expiry; every use in the code treats
  -- both as it treats 0, and here they are 0.
  pub ttl : State → ℕ → Key → ℕ
  -- SETEX, and SET with EX: `set s now key value seconds`
  pub set : State → ℕ → Key → Value → ℕ → State
  pub get_set :
      (s : State) (t : ℕ) (k : Key) (v : Value) (d t' : ℕ) (j : Key)
      → get (set s t k v d) t' j
        ≡ (if key_eq k j then (if ltb t' (t + d) then some v else none) else get s t' j)
  pub ttl_set :
      (s : State) (t : ℕ) (k : Key) (v : Value) (d t' : ℕ) (j : Key)
      → ttl (set s t k v d) t' j ≡ (if key_eq k j then t + d - t' else ttl s t' j)
  -- DEL
  pub delete : State → Key → State
  pub get_delete :
      (s : State) (k : Key) (t' : ℕ) (j : Key)
      → get (delete s k) t' j ≡ (if key_eq k j then none else get s t' j)
  pub ttl_delete :
      (s : State) (k : Key) (t' : ℕ) (j : Key)
      → ttl (delete s k) t' j ≡ (if key_eq k j then 0 else ttl s t' j)
  -- EXPIRE, which does nothing to a key that is not there
  pub expire : State → ℕ → Key → ℕ → State
  pub get_expire :
      (s : State) (t : ℕ) (k : Key) (d t' : ℕ) (j : Key)
      → get (expire s t k d) t' j ≡ (
          if key_eq k j && is_some (get s t k)
          then (if ltb t' (t + d) then get s t k else none)
          else get s t' j)
  pub ttl_expire :
      (s : State) (t : ℕ) (k : Key) (d t' : ℕ) (j : Key)
      → ttl (expire s t k d) t' j
        ≡ (if key_eq k j && is_some (get s t k) then t + d - t' else ttl s t' j)
  -- a write that keeps the expiry of a key that is there (INCR, SADD); a new key has none
  pub write : State → ℕ → Key → Value → State
  pub get_write :
      (s : State) (t : ℕ) (k : Key) (v : Value) (t' : ℕ) (j : Key)
      → get (write s t k v) t' j ≡ (
          if key_eq k j
          then (if is_some (get s t k) && not (is_some (get s t' k)) then none else some v)
          else get s t' j)
  pub ttl_write :
      (s : State) (t : ℕ) (k : Key) (v : Value) (t' : ℕ) (j : Key)
      → ttl (write s t k v) t' j
        ≡ (if key_eq k j && not (is_some (get s t k)) then 0 else ttl s t' j)
