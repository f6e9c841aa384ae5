-- ===== src/Outbox/WellFormed.antt =====
-- The invariant of the outbox, and that every call keeps it.
use b4fast_api.Prelude.{
  not, ℕ, ◌≤◌, ◌≡◌, Bool, true, false, Option, List, [], ◌∷◌, is_some, arith, All, All-update,
  All-append, Bool-cases, Option-cases, inl, inr, any_row,
}
use b4fast_api.Database.{Table}
use b4fast_api.Outbox.{
  Notification, Delivery, Failure, same_id, max_delivery_attempts, is_sending, is_stale, expire,
  is_exhausted, give_up, eligible, take_lease, can_retry, reopen, close, is_held_by, add, claim_key,
  sweep, claim, retry, finish,
}
use b4fast_api.Outbox.Adding.{rows-add}
use b4fast_api.Outbox.Trace.{
  or_same, Action, add_row, claim_next, expire_all, give_up_all, take_key, retry_key, finish_row,
  perform, perform_all,
}

-- Final states have erased the payload.
abbrev pub is_final : Delivery → Bool
is_final Delivery.sent = true
is_final Delivery.skipped = true
is_final Delivery.expired = true
is_final _ = false

pub record IsValid (r : Notification) : Type 0 where
  -- the budget is never exceeded
  pub budget : r.attempts ≤ max_delivery_attempts
  -- a lease is held exactly while the row is being sent
  pub leased : is_some r.lease ≡ is_sending r.state
  pub dated : is_some r.leased_until ≡ is_sending r.state
  -- the recipient is erased exactly in the final states
  pub erased : is_some r.payload ≡ not (is_final r.state)

-- The states that a worker reports.
abbrev pub is_outcome : Delivery → Bool
is_outcome Delivery.sending = false
is_outcome Delivery.expired = false
is_outcome _ = true

-- What the callers in src/backend/app/services/notifications.py respect: an added row is a new pending
-- one, and only a row that `claim` returned is finished, with a final or a waiting state.
abbrev pub Allowed : Action → Type 0
Allowed (add_row r) = IsValid r
Allowed (finish_row row state error now) = (is_some row.lease ≡ true) × (is_outcome state ≡ true)
Allowed _ = Unit

expire-IsValid :
    (now : ℕ) (r : Notification) → is_stale now r ≡ true → IsValid r → IsValid (expire r)
unfolding expire
expire-IsValid now r e v = ground arith

give_up-IsValid :
    (now : ℕ) (r : Notification) → is_exhausted now r ≡ true → IsValid r → IsValid (give_up r)
unfolding give_up is_exhausted
give_up-IsValid now r e v = ground arith

take_lease-IsValid :
    (lease now : ℕ) (r : Notification)
    → eligible now r ≡ true
    → IsValid r
    → IsValid (take_lease lease now r)
unfolding take_lease eligible
take_lease-IsValid lease now r e v = ground arith

reopen-IsValid :
    (key now : ℕ) (r : Notification)
    → can_retry key now r ≡ true
    → IsValid r
    → IsValid (reopen now r)
unfolding reopen can_retry
reopen-IsValid key now r e v = ground arith

close-IsValid :
    (row : Notification) (state : Delivery) (error : Option Failure) (now : ℕ) (r : Notification)
    → is_some row.lease ≡ true
    → is_outcome state ≡ true
    → is_held_by row r ≡ true
    → IsValid r
    → IsValid (close row state error now r)
unfolding close is_held_by
close-IsValid row state error now r l o e v = ground arith

module _ (T : Table Notification same_id) where
  open T use {State, rows, update, update_law, insert, insert_refused, insert_accepted, first}

  sweep-IsValid : (now : ℕ) (s : State) → All IsValid (rows s) → All IsValid (rows (sweep T now s))
  unfolding sweep
  sweep-IsValid now s h = rw update_law (
      All-update IsValid (is_exhausted now) give_up _ (give_up-IsValid now)
        (rw update_law (All-update IsValid (is_stale now) expire (rows s) (expire-IsValid now) h)))

  claim_key-IsValid :
      (lease now key : ℕ) (s : State)
      → All IsValid (rows s)
      → All IsValid (rows (claim_key T lease now key s).1)
  unfolding claim_key
  claim_key-IsValid lease now key s h = rw update_law (
      All-update IsValid _ (take_lease lease now) (rows s)
        (λ r e. take_lease-IsValid lease now r (ground arith)) h)

  pub claim-IsValid :
      (lease now : ℕ) (s : State)
      → All IsValid (rows s)
      → All IsValid (rows (claim T lease now s).1)
  unfolding claim
  claim-IsValid lease now s h =
      elim (Option-cases (first (eligible now) (λ r. r.available_at) (sweep T now s))) [
        | inl e ↦ rw e (sweep-IsValid now s h)
        | inr (r, e) ↦
            rw e (claim_key-IsValid lease now r.id (sweep T now s) (sweep-IsValid now s h))
      ]

  add-IsValid :
      (r : Notification) (s : State)
      → IsValid r
      → All IsValid (rows s)
      → All IsValid (rows (or_same T s (add T r s)))
  add-IsValid r s v h = elim (Bool-cases (any_row (same_id r) (rows s))) [
    | inl t ↦ rw (rows-add, t) h
    | inr f ↦ rw (rows-add, f) (All-append IsValid (rows s) (r ∷ []) h (v, tt))
  ]

  pub perform-IsValid :
      (a : Action) (s : State)
      → Allowed a
      → All IsValid (rows s)
      → All IsValid (rows (perform T a s).1)
  unfolding perform retry finish
  perform-IsValid (add_row r) s ok h = add-IsValid r s ok h
  perform-IsValid (claim_next lease now) s ok h = claim-IsValid lease now s h
  perform-IsValid (expire_all now) s ok h =
      rw update_law (All-update IsValid (is_stale now) expire (rows s) (expire-IsValid now) h)
  perform-IsValid (give_up_all now) s ok h =
      rw update_law (All-update IsValid (is_exhausted now) give_up (rows s) (give_up-IsValid now) h)
  perform-IsValid (take_key lease now key) s ok h = claim_key-IsValid lease now key s h
  perform-IsValid (retry_key key now) s ok h =
      rw update_law
        (All-update IsValid (can_retry key now) (reopen now) (rows s) (reopen-IsValid key now) h)
  perform-IsValid (finish_row row state error now) s ok h = rw update_law (
      All-update IsValid (is_held_by row) (close row state error now) (rows s)
        (λ r. close-IsValid row state error now r ok.0 ok.1) h)

  -- Whatever calls workers and operators interleave, whole claims or their single statements, valid
  -- rows stay valid, where added rows are valid and only claimed rows are finished, with a waiting
  -- or final state: no row has more than five attempts, a row holds a lease with its end exactly
  -- while it is being sent, and its encrypted recipient is erased exactly when it is sent, skipped
  -- or expired.
  pub perform_all-IsValid :
      (actions : List Action) (s : State)
      → All Allowed actions
      → All IsValid (rows s)
      → All IsValid (rows (perform_all T actions s))
  unfolding perform_all
  perform_all-IsValid [] s ok h = h
  perform_all-IsValid (a ∷ rest) s ok h =
      perform_all-IsValid rest (perform T a s).1 ok.1 (perform-IsValid a s ok.0 h)
