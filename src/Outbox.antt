-- ===== src/Outbox.antt =====
-- The durable mail outbox: `Notification` and `Notifications` of
-- src/backend/app/models/notification.py. Times are in seconds. Texts that the code only compares or
-- passes on (ids, leases, the encrypted payload) are numbers. Each method takes what it reads from
-- outside, the clock and the fresh `uuid4()`, as arguments, and runs its statements in order.
pub mod Trace
pub mod Adding
pub mod WellFormed
pub mod Leases
pub mod View
pub mod Races
pub mod Calls
pub mod Attempts
pub mod History
pub mod Final
pub mod Failures
mod Tests
use b4fast_api.Prelude.{
  ℕ, ◌+◌, ◌*◌, ◌^◌, Bool, true, false, ◌&&◌, ◌||◌, Option, none, some, List, leb, ltb, ◌==◌,
  is_some, opt_eq, if◌then◌else◌, find_row, any_row, count_rows, where_rows,
}
use b4fast_api.Database.{Table}

pub data Kind : Type 0 where
  subscription_started plan_changed account_deleted : Kind

-- The values of the column `state`.
pub data Delivery : Type 0 where
  pending sending sent skipped failed expired : Delivery

-- The values of the column `error`.
pub data Failure : Type 0 where
  delivery_unconfirmed delivery_failed : Failure

pub record Notification : Type 0 where
  pub id : ℕ
  pub kind : Kind
  pub payload : Option ℕ
  pub state : Delivery
  pub attempts : ℕ
  pub available_at : ℕ
  pub lease : Option ℕ
  pub leased_until : Option ℕ
  pub expires_at : ℕ
  pub error : Option Failure

abbrev pub max_delivery_attempts : ℕ
max_delivery_attempts = 5

abbrev pub lease_seconds : ℕ
lease_seconds = 300

abbrev pub same_id : Notification → Notification → Bool
same_id a b = a.id == b.id

abbrev pub is_pending : Delivery → Bool
is_pending pending = true
is_pending _ = false

abbrev pub is_sending : Delivery → Bool
is_sending sending = true
is_sending _ = false

abbrev pub is_failed : Delivery → Bool
is_failed failed = true
is_failed _ = false

-- `state in ("sent", "skipped")`
abbrev pub erases : Delivery → Bool
erases sent = true
erases skipped = true
erases _ = false

-- `leased_until < now`, which is not true of a null
abbrev pub is_before : Option ℕ → ℕ → Bool
is_before none now = false
is_before (some t) now = ltb t now

-- The `or_` of `claim`: waiting, or claimed by a worker whose lease has run out.
unfoldable pub is_open : ℕ → Notification → Bool
is_open now r = is_pending r.state || (is_sending r.state && is_before r.leased_until now)

unfoldable pub is_stale : ℕ → Notification → Bool
is_stale now r = leb r.expires_at now && is_some r.payload

unfoldable pub expire : Notification → Notification
expire r = record r { payload = none; state = expired; lease = none; leased_until = none }

unfoldable pub is_exhausted : ℕ → Notification → Bool
is_exhausted now r = is_some r.payload && (leb max_delivery_attempts r.attempts && is_open now r)

unfoldable pub give_up : Notification → Notification
give_up r = record r {
  state = failed;
  error = some delivery_unconfirmed;
  lease = none;
  leased_until = none;
}

unfoldable pub eligible : ℕ → Notification → Bool
eligible now r =
    is_some r.payload
    && (ltb r.attempts max_delivery_attempts && (leb r.available_at now && is_open now r))

unfoldable pub take_lease : ℕ → ℕ → Notification → Notification
take_lease lease now r = record r {
  state = sending;
  lease = some lease;
  leased_until = some (now + lease_seconds);
  attempts = r.attempts + 1;
}

-- `min(30, 2**attempts)` minutes
unfoldable pub backoff : ℕ → ℕ
backoff attempts = 60 * (if leb 30 (2 ^ attempts) then 30 else 2 ^ attempts)

unfoldable pub can_retry : ℕ → ℕ → Notification → Bool
can_retry key now r =
    r.id == key && (is_failed r.state && (is_some r.payload && ltb now r.expires_at))

unfoldable pub reopen : ℕ → Notification → Notification
reopen now r = record r {
  state = pending;
  attempts = 0;
  available_at = now;
  lease = none;
  leased_until = none;
  error = none;
}

unfoldable pub close : Notification → Delivery → Option Failure → ℕ → Notification → Notification
close row state error now r = record r {
  state = state;
  lease = none;
  leased_until = none;
  error = error;
  available_at = now + backoff row.attempts;
  payload = if erases state then none else r.payload;
}

-- `WHERE id = row.id AND lease = row.lease`; SQLAlchemy compares with a null by `IS NULL`
unfoldable pub is_held_by : Notification → Notification → Bool
is_held_by row r = r.id == row.id && opt_eq r.lease row.lease

module _ (T : Table Notification same_id) where
  open T use {State, rows, update, insert, first}

  unfoldable pub exists : ℕ → State → Bool
  exists key s = any_row (λ r. r.id == key) (rows s)

  unfoldable pub get : ℕ → State → Option Notification
  get key s = find_row (λ r. r.id == key) (rows s)

  abbrev after_insert : Notification → State → Option State → Option State
  after_insert row s (some s') = some s'
  after_insert row s none = if is_some (get row.id s) then some s else none

  -- `none` is the `IntegrityError` raised again
  unfoldable pub add : Notification → State → Option State
  unfolding get
  add row s = after_insert row s (insert row s)

  -- The last two statements of `claim`: the guarded update, and the row if it changed one.
  unfoldable pub claim_key : ℕ → ℕ → ℕ → State → Option Notification × State
  unfolding get
  claim_key lease now key s =
      let fits = λ (r : Notification). r.id == key && eligible now r in
      let s' = update fits (take_lease lease now) s in
      (if ltb 0 (count_rows fits (rows s)) then get key s' else none, s')

  -- The two sweeps of `claim`, each a statement.
  abbrev pub expire_rows : ℕ → State → State
  expire_rows now s = update (is_stale now) expire s

  abbrev pub give_up_rows : ℕ → State → State
  give_up_rows now s = update (is_exhausted now) give_up s

  unfoldable pub sweep : ℕ → State → State
  sweep now s = give_up_rows now (expire_rows now s)

  -- What other transactions commit between the statements of a claim, where each statement sees
  -- what was committed before it.
  pub record Others : Type 0 where
    pub after_expire : State → State
    pub after_sweep : State → State
    pub after_select : State → State

  abbrev pub claim_first :
      Others → ℕ → ℕ → State → Option Notification → Option Notification × State
  claim_first o lease now s none = (none, s)
  claim_first o lease now s (some r) = claim_key lease now r.id (o.after_select s)

  -- The database at the SELECT of a claim.
  abbrev pub selected : Others → ℕ → State → State
  selected o now s = o.after_sweep (give_up_rows now (o.after_expire (expire_rows now s)))

  unfoldable pub claim_during : Others → ℕ → ℕ → State → Option Notification × State
  claim_during o lease now s =
      claim_first o lease now (selected o now s)
        (first (eligible now) (λ r. r.available_at) (selected o now s))

  abbrev pub alone : Others
  alone = record { after_expire = λ s. s; after_sweep = λ s. s; after_select = λ s. s }

  -- A claim that no other transaction comes between.
  unfoldable pub claim : ℕ → ℕ → State → Option Notification × State
  claim lease now s =
      let swept = sweep now s in
      claim_first alone lease now swept (first (eligible now) (λ r. r.available_at) swept)

  unfoldable pub retry : ℕ → ℕ → State → Bool × State
  retry key now s =
      (ltb 0 (count_rows (can_retry key now) (rows s)), update (can_retry key now) (reopen now) s)

  unfoldable pub finish : Notification → Delivery → Option Failure → ℕ → State → State
  finish row state error now s = update (is_held_by row) (close row state error now) s
