-- ===== src/Lifecycle/Reports.antt =====
-- What the drain loop leaves in the outbox.
use b4fast_api.Prelude.{
  ℕ, ◌+◌, ◌≤◌, ◌≡◌, refl, Bool, true, ◌||◌, Option, none, some, List, [], ◌∷◌, ltb, arith,
  if◌then◌else◌, length, is_some, All, Option-cases, Bool-cases, inl, inr, ==-refl, opt_eq_refl,
}
use b4fast_api.Database.{Table}
use b4fast_api.Outbox.{
  Notification, Delivery, Failure, delivery_failed, same_id, get, claim, finish, close, is_held_by,
  max_delivery_attempts, backoff,
}
use b4fast_api.Outbox.Trace.{perform, finish_row, claim_next}
use b4fast_api.Outbox.Calls.{perform-distinct}
use b4fast_api.Outbox.WellFormed.{is_outcome, IsValid, claim-IsValid, perform-IsValid}
use b4fast_api.Outbox.Leases.{claim-IsClaimed, HasDistinctIds}
use b4fast_api.Outbox.View.{get-finish, claim-view}
use b4fast_api.Lifecycle.{Settings, Tick, is_disabled, deliver_row, deliver_notifications}

-- The report that a round owes for the row it claimed.
abbrev pub report : Settings → (Notification → Bool) → Notification → Delivery
report settings send row =
    if is_disabled settings row
    then Delivery.skipped
    else if send row
    then Delivery.sent
    else if ltb row.attempts max_delivery_attempts
    then Delivery.pending
    else Delivery.failed

held_self : (row : Notification) → is_held_by row row ≡ true
unfolding is_held_by
held_self row = ground (arith, opt_eq_refl row.lease)

module _ (T : Table Notification same_id) where
  open T use {State, rows}

  finish_self :
      (state : Delivery) (error : Option Failure) (q : Notification) (later : ℕ) (s : State)
      → get T q.id s ≡ some q
      → get T q.id (finish T q state error later s) ≡ some (close q state error later q)
  finish_self state error q later s there =
      rw (get-finish T q.id later q state error s, there, held_self q)

  -- On rows with distinct ids, after a round that claimed a row, the row has the state that the
  -- round owes: skipped where mail is disabled for it, sent where the transport took it, else
  -- pending again, or failed once its five attempts are used. The lease is given back in every
  -- case, and the encrypted recipient is erased exactly when the row is skipped or sent.
  pub deliver_row_lem :
      (settings : Settings) (send : Notification → Bool) (lease now later : ℕ) (s : State)
      (q : Notification)
      → HasDistinctIds (rows s)
      → (claim T lease now s).0 ≡ some q
      → (r : Notification) × (get T q.id
            (deliver_row T settings send later q (claim T lease now s).1)
          ≡ some r)
        × (r.state ≡ report settings send q)
        × (r.lease ≡ none)
        × (r.payload ≡ (if is_disabled settings q || send q then none else q.payload))
        × (r.available_at ≡ later + backoff q.attempts)
  unfolding deliver_row close
  deliver_row_lem settings send lease now later s q d h =
      let v = claim-view T lease now s q d h in
      let there : get T q.id (claim T lease now s).1 ≡ some q = rw (v.view q.id, ==-refl q.id) in
      let done = λ (state : Delivery) (error : Option Failure).
        finish_self state error q later (claim T lease now s).1 there in
      elim (Bool-cases (is_disabled settings q)) [
        | inl off ↦ (
          close q Delivery.skipped none later q,
          rw off (done Delivery.skipped none),
          rw off,
          refl,
          rw off,
          refl,
        )
        | inr on ↦ elim (Bool-cases (send q)) [
          | inl taken ↦ (
            close q Delivery.sent none later q,
            rw (on, taken) (done Delivery.sent none),
            rw (on, taken),
            refl,
            rw (on, taken),
            refl,
          )
          | inr refused ↦ elim (Bool-cases (ltb q.attempts max_delivery_attempts)) [
            | inl more ↦ (
              close q Delivery.pending (some delivery_failed) later q,
              rw (on, refused, more) (done Delivery.pending (some delivery_failed)),
              rw (on, refused, more),
              refl,
              rw (on, refused),
              refl,
            )
            | inr used ↦ (
              close q Delivery.failed (some delivery_failed) later q,
              rw (on, refused, used) (done Delivery.failed (some delivery_failed)),
              rw (on, refused, used),
              refl,
              rw (on, refused),
              refl,
            )
          ]
        ]
      ]

  finish-IsValid :
      (row : Notification) (state : Delivery) (error : Option Failure) (now : ℕ) (s : State)
      → is_some row.lease ≡ true
      → is_outcome state ≡ true
      → All IsValid (rows s)
      → HasDistinctIds (rows s)
      → All IsValid (rows (finish T row state error now s))
        × HasDistinctIds (rows (finish T row state error now s))
  unfolding perform
  finish-IsValid row state error now s l o h d =
      let a = finish_row row state error now in
      (perform-IsValid T a s (l, o) h, perform-distinct T a s d)

  deliver_row-IsValid :
      (settings : Settings) (send : Notification → Bool) (now : ℕ) (row : Notification) (s : State)
      → is_some row.lease ≡ true
      → All IsValid (rows s)
      → HasDistinctIds (rows s)
      → All IsValid (rows (deliver_row T settings send now row s))
        × HasDistinctIds (rows (deliver_row T settings send now row s))
  unfolding deliver_row
  deliver_row-IsValid settings send now row s l h d = elim (Bool-cases (is_disabled settings row)) [
    | inl off ↦ rw off (finish-IsValid row Delivery.skipped none now s l refl h d)
    | inr on ↦ elim (Bool-cases (send row)) [
      | inl taken ↦ rw (on, taken) (finish-IsValid row Delivery.sent none now s l refl h d)
      | inr refused ↦
          rw (on, refused) (finish-IsValid row _ (some delivery_failed) now s l (ground arith) h d)
    ]
  ]

  -- On rows with distinct ids, a drain keeps the invariant of the outbox, and handles one row at
  -- most for each of its rounds.
  pub deliver_notifications-IsValid :
      (settings : Settings) (send : Notification → Bool) (ticks : List Tick) (s : State)
      → HasDistinctIds (rows s)
      → All IsValid (rows s)
      → All IsValid (rows (deliver_notifications T settings send ticks s).1)
        × (length (deliver_notifications T settings send ticks s).0 ≤ length ticks)
  unfolding deliver_notifications
  deliver_notifications-IsValid settings send [] s d h = (h, omega arith)
  deliver_notifications-IsValid settings send (t ∷ ticks) s d h =
      elim (Option-cases (claim T t.lease t.claimed_at s).0) [
        | inl e ↦ (
          rw (e, deliver_notifications) (claim-IsValid T t.lease t.claimed_at s h),
          rw (e, deliver_notifications, length) (omega arith),
        )
        | inr (row, e) ↦
            let mid = (claim T t.lease t.claimed_at s).1 in
            let c = claim-IsClaimed T t.lease t.claimed_at s row d e in
            let d' = perform-distinct T (claim_next t.lease t.claimed_at) s d in
            let (valid, distinct) =
              deliver_row-IsValid settings send t.finished_at row mid (rw c.leased)
                (claim-IsValid T t.lease t.claimed_at s h) (unfold perform in d') in
            let (v, n) =
              deliver_notifications-IsValid settings send ticks
                (deliver_row T settings send t.finished_at row mid) distinct valid in
            (rw (e, deliver_notifications) v, rw (e, deliver_notifications, length) (omega arith))
      ]
