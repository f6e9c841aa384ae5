-- ===== src/Outbox/Trace.antt =====
-- Histories of the outbox: any sequence of calls of `Notifications` by any number of workers and
-- operators, each with the clock and the lease that it used.
use b4fast_api.Prelude.{ℕ, Option, none, some, List, [], ◌∷◌}
use b4fast_api.Database.{Table}
use b4fast_api.Outbox.{
  Notification, Delivery, Failure, same_id, add, claim, claim_key, expire_rows, give_up_rows, retry,
  finish,
}

pub data Action : Type 0 where
  add_row : Notification → Action
  claim_next : ℕ → ℕ → Action
  -- the statements of a claim, between which other calls run: the sweeps, and the guarded UPDATE of
  -- the key that the SELECT chose
  expire_all : ℕ → Action
  give_up_all : ℕ → Action
  take_key : ℕ → ℕ → ℕ → Action
  retry_key : ℕ → ℕ → Action
  finish_row : Notification → Delivery → Option Failure → ℕ → Action

module _ (T : Table Notification same_id) where
  open T use {State}

  abbrev pub or_same : State → Option State → State
  or_same s none = s
  or_same s (some s') = s'

  -- One call: the row that it claimed, if it claimed one, and the new state.
  unfoldable pub perform : Action → State → Option Notification × State
  perform (add_row r) s = (none, or_same s (add T r s))
  perform (claim_next lease now) s = claim T lease now s
  perform (expire_all now) s = (none, expire_rows T now s)
  perform (give_up_all now) s = (none, give_up_rows T now s)
  perform (take_key lease now key) s = claim_key T lease now key s
  perform (retry_key key now) s = (none, (retry T key now s).1)
  perform (finish_row row state error now) s = (none, finish T row state error now s)

  unfoldable pub perform_all : List Action → State → State
  perform_all [] s = s
  perform_all (a ∷ rest) s = perform_all rest (perform a s).1

  -- The rows claimed along a history, in order.
  unfoldable pub claims : List Action → State → List (Option Notification)
  claims [] s = []
  claims (a ∷ rest) s = (perform a s).0 ∷ claims rest (perform a s).1
