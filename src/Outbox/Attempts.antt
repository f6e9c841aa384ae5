-- ===== src/Outbox/Attempts.antt =====
-- What every call adds to the attempts of a row.
use mathlib.Core.Option
use b4fast_api.Prelude.{
  ℕ, ◌+◌, ◌≤◌, ◌&&◌, ◌≡◌, ◌≢◌, refl, true, false, Option, none, some, ◌==◌, if◌then◌else◌, arith,
  Bool-cases, Option-cases, inl, inr, ==-refl,
}
use b4fast_api.Database.{Table}
use b4fast_api.Outbox.{
  Notification, Delivery, Failure, same_id, expire, give_up, eligible, take_lease, can_retry,
  reopen, close, is_held_by, get, claim_key, claim, is_stale,
}
use b4fast_api.Outbox.Leases.{HasDistinctIds, id-take_lease}
use b4fast_api.Outbox.Races.{claim_key-decided}
use b4fast_api.Outbox.View.{
  swept, get-sweep, get-finish, get-retry, id-get, exhaust, get-expire_rows, get-give_up_rows,
  get-claim_key, ClaimView, claim-view,
}
use b4fast_api.Outbox.Trace.{
  Action, add_row, claim_next, expire_all, give_up_all, take_key, retry_key, finish_row, perform,
}
use b4fast_api.Outbox.Calls.{claim-none, get-add, there_at}

-- An operator's retry of the key is not among the calls.
abbrev pub IsNotRetry : ℕ → Action → Type 0
IsNotRetry k (retry_key key now) = key ≢ k
IsNotRetry k _ = Unit

abbrev pub claimed : ℕ → Option Notification → ℕ
claimed k none = 0
claimed k (some q) = if q.id == k then 1 else 0

abbrev pub attempts_in : Option Notification → ℕ
attempts_in none = 0
attempts_in (some r) = r.attempts

attempts-exhaust :
    (now : ℕ) (o : Option Notification) → attempts_in (Option.map (swept now) o) ≡ attempts_in o
unfolding expire give_up
attempts-exhaust now o = ground arith

attempts-expire :
    (now : ℕ) (o : Option Notification)
    → attempts_in (Option.map (λ r. if is_stale now r then expire r else r) o) ≡ attempts_in o
unfolding expire
attempts-expire now o = ground arith

attempts-give_up :
    (now : ℕ) (o : Option Notification) → attempts_in (Option.map (exhaust now) o) ≡ attempts_in o
unfolding give_up
attempts-give_up now o = ground arith

attempts-take_lease :
    (lease now key : ℕ) (o : Option Notification)
    → attempts_in o
      ≤ attempts_in (
          Option.map (λ r. if (r.id == key && eligible now r) then take_lease lease now r else r) o)
unfolding take_lease
attempts-take_lease lease now key o = ground arith

attempts-one :
    (lease now key : ℕ) (r : Notification)
    → r.id ≡ key
    → eligible now r ≡ true
    → 1 + r.attempts
      ≤ (if (r.id == key && eligible now r) then take_lease lease now r else r).attempts
unfolding take_lease
attempts-one lease now key r same fits = ground arith

attempts-taken :
    (lease now : ℕ) (r q : Notification)
    → q ≡ take_lease lease now (swept now r)
    → q.attempts ≡ r.attempts + 1
unfolding take_lease expire give_up
attempts-taken lease now r q e = rw e (ground arith)

attempts-close :
    (row : Notification) (state : Delivery) (error : Option Failure) (now : ℕ)
    (o : Option Notification)
    → attempts_in (Option.map (λ r. if is_held_by row r then close row state error now r else r) o)
      ≡ attempts_in o
unfolding close
attempts-close row state error now o = ground arith

not_retried : (key k now : ℕ) (r : Notification) → r.id ≡ k → key ≢ k → can_retry key now r ≡ false
unfolding can_retry
not_retried key k now r ids other = ground arith

module _ (T : Table Notification same_id) where
  open T use {State, rows, update, update_law, first, first_none, first_some}

  abbrev pub attempts_of : ℕ → State → ℕ
  attempts_of k s = attempts_in (get T k s)

  claim-attempts :
      (k lease now : ℕ) (s : State)
      → HasDistinctIds (rows s)
      → claimed k (claim T lease now s).0 + attempts_of k s ≤ attempts_of k (claim T lease now s).1
  claim-attempts k lease now s d = elim (Option-cases (claim T lease now s).0) [
    | inl e ↦ rw (e, (claim-none T lease now s d e).0, get-sweep, attempts-exhaust) (omega arith)
    | inr (q, e) ↦ counted q (claim-view T lease now s q d e) e
  ]
    where
      counted :
          (q : Notification)
          → ClaimView T lease now s q (claim T lease now s).1
          → (claim T lease now s).0 ≡ some q
          → claimed k (claim T lease now s).0 + attempts_of k s
            ≤ attempts_of k (claim T lease now s).1
      counted q v e = elim (Bool-cases (q.id == k)) [
        | inl t ↦
            let ids : k ≡ q.id = ground arith in
            rw (e, v.view k, ids, v.was, ==-refl q.id)
              (omega (arith, attempts-taken lease now v.before q v.taken))
        | inr f ↦
            let other : (k == q.id) ≡ false = ground arith in
            rw (e, v.view k, f, other, attempts-exhaust) (omega arith)
      ]

  claim_key-attempts :
      (k lease now key : ℕ) (s : State)
      → HasDistinctIds (rows s)
      → claimed k (claim_key T lease now key s).0 + attempts_of k s
        ≤ attempts_of k (claim_key T lease now key s).1
  claim_key-attempts k lease now key s d = elim (claim_key-decided T lease now key s d) [
    | inr t ↦
        let more = attempts-take_lease lease now key (get T k s) in
        rw (t.answer, get-claim_key T k lease now key s) (omega (arith, more))
    | inl t ↦ elim (Bool-cases (key == k)) [
      | inr other ↦
          let more = attempts-take_lease lease now key (get T k s) in
          rw
            (
              t.answer,
              id-take_lease lease now t.row,
              t.key_kept,
              other,
              get-claim_key T k lease now key s,
            )
            (omega (arith, more))
      | inl mine ↦
          let here : get T k s ≡ some t.row = there_at T k key s t d mine in
          let one = attempts-one lease now key t.row t.key_kept t.fits in
          let id : ((take_lease lease now t.row).id == k) ≡ true =
            rw (id-take_lease lease now t.row, t.key_kept) mine in
          rw (t.answer, id, get-claim_key T k lease now key s, here) one
    ]
  ]

  pub perform-attempts :
      (k : ℕ) (a : Action) (s : State)
      → IsNotRetry k a
      → HasDistinctIds (rows s)
      → claimed k (perform T a s).0 + attempts_of k s ≤ attempts_of k (perform T a s).1
  unfolding perform
  perform-attempts k (add_row r) s ok d = rw (get-add T k r s) (ground arith)
  perform-attempts k (claim_next lease now) s ok d = claim-attempts k lease now s d
  perform-attempts k (expire_all now) s ok d =
      rw (get-expire_rows T k now s, attempts-expire now (get T k s)) (omega arith)
  perform-attempts k (give_up_all now) s ok d =
      rw (get-give_up_rows T k now s, attempts-give_up now (get T k s)) (omega arith)
  perform-attempts k (take_key lease now key) s ok d = claim_key-attempts k lease now key s d
  perform-attempts k (retry_key key now) s ok d =
      rw (get-retry T k key now s) (untouched (get T k s) refl)
    where
      untouched :
          (o : Option Notification)
          → get T k s ≡ o
          → 0 + attempts_in o
            ≤ attempts_in (Option.map (λ r. if can_retry key now r then reopen now r else r) o)
      untouched none e = omega arith
      untouched (some r) e =
          let ids : r.id ≡ k = id-get T k s r e in rw (not_retried key k now r ids ok) (omega arith)
  perform-attempts k (finish_row row state error now) s ok d =
      rw (get-finish T k now row state error s, attempts-close row state error now (get T k s))
        (omega arith)
