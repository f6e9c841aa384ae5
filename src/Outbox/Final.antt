-- ===== src/Outbox/Final.antt =====
-- A row in a final state stays as it is: mail that was sent is not sent again.
use b4fast_api.Prelude.{
  ℕ, ◌≡◌, ap, true, false, some, List, [], ◌∷◌, is_some, ◌==◌, arith, All, Option-cases, Bool-cases,
  inl, inr,
}
use b4fast_api.Database.{Table}
use b4fast_api.Outbox.{
  Notification, same_id, is_stale, is_exhausted, eligible, can_retry, is_held_by, get, claim,
}
use b4fast_api.Outbox.Leases.{HasDistinctIds, id-take_lease}
use b4fast_api.Outbox.Races.{claim_key-decided}
use b4fast_api.Outbox.WellFormed.{IsValid, Allowed, is_final}
use b4fast_api.Outbox.View.{
  swept, get-sweep, get-finish, get-retry, get-expire_rows, get-give_up_rows, get-claim_key,
  ClaimView, claim-view,
}
use b4fast_api.Outbox.Calls.{there_at, get-add, claim-none, perform-distinct}
use b4fast_api.Outbox.Attempts.{claimed}
use b4fast_api.Outbox.History.{times_claimed}
use b4fast_api.Outbox.Trace.{
  Action, add_row, claim_next, expire_all, give_up_all, take_key, retry_key, finish_row, perform,
  perform_all, claims,
}

final_swept : (now : ℕ) (r : Notification) → IsValid r → is_final r.state ≡ true → swept now r ≡ r
unfolding is_stale is_exhausted
final_swept now r v f = ground arith

final_not_stale :
    (now : ℕ) (r : Notification) → IsValid r → is_final r.state ≡ true → is_stale now r ≡ false
unfolding is_stale
final_not_stale now r v f = ground arith

final_not_exhausted :
    (now : ℕ) (r : Notification) → IsValid r → is_final r.state ≡ true → is_exhausted now r ≡ false
unfolding is_exhausted
final_not_exhausted now r v f = ground arith

final_not_eligible :
    (now : ℕ) (r : Notification) → IsValid r → is_final r.state ≡ true → eligible now r ≡ false
unfolding eligible
final_not_eligible now r v f = ground arith

final_not_retried :
    (key now : ℕ) (r : Notification) → is_final r.state ≡ true → can_retry key now r ≡ false
unfolding can_retry
final_not_retried key now r f = ground arith

final_not_held :
    (row r : Notification)
    → is_some row.lease ≡ true
    → IsValid r
    → is_final r.state ≡ true
    → is_held_by row r ≡ false
unfolding is_held_by
final_not_held row r l v f = ground arith

module _ (T : Table Notification same_id) where
  open T use {State, rows}

  -- One call leaves a row in a final state alone, and does not claim it.
  perform-final :
      (a : Action) (s : State) (k : ℕ) (r : Notification)
      → Allowed a
      → HasDistinctIds (rows s)
      → IsValid r
      → is_final r.state ≡ true
      → get T k s ≡ some r
      → (get T k (perform T a s).1 ≡ some r) × (claimed k (perform T a s).0 ≡ 0)
  unfolding perform
  perform-final (add_row x) s k r ok d v f e = (rw (get-add T k x s, e), omega arith)
  perform-final (claim_next lease now) s k r ok d v f e =
      elim (Option-cases (claim T lease now s).0) [
        | inl nothing ↦ (
          rw ((claim-none T lease now s d nothing).0, get-sweep, e, final_swept now r v f),
          rw nothing,
        )
        | inr (q, found) ↦
            let w = claim-view T lease now s q d found in
            let other : (k == q.id) ≡ false = not_claimed lease now q w in
            (rw (w.view k, other, e, final_swept now r v f), rw found (ground arith))
      ]
    where
      not_claimed :
          (lease now : ℕ) (q : Notification)
          → ClaimView T lease now s q (claim T lease now s).1
          → (k == q.id) ≡ false
      not_claimed lease now q w = elim (Bool-cases (k == q.id)) [
        | inl t ↦
            let ids : k ≡ q.id = ground arith in
            let same : w.before ≡ r = cc (w.was, e, ap (λ (i : ℕ). get T i s) ids) in
            let o : eligible now (swept now r) ≡ true = rw (← same) w.open_row in
            cc (rw (final_swept now r v f) at o, final_not_eligible now r v f)
        | inr g ↦ g
      ]
  perform-final (expire_all now) s k r ok d v f e =
      (rw (get-expire_rows T k now s, e, final_not_stale now r v f), omega arith)
  perform-final (give_up_all now) s k r ok d v f e =
      (rw (get-give_up_rows T k now s, e, final_not_exhausted now r v f), omega arith)
  perform-final (take_key lease now key) s k r ok d v f e = (
    rw (get-claim_key T k lease now key s, e, final_not_eligible now r v f) (ground arith),
    elim (claim_key-decided T lease now key s d) [
      | inr t ↦ rw t.answer (omega arith)
      | inl t ↦ elim (Bool-cases (key == k)) [
        | inr other ↦ rw (t.answer, id-take_lease lease now t.row, t.key_kept, other) (omega arith)
        | inl mine ↦
            let same : t.row ≡ r = cc (there_at T k key s t d mine, e) in
            cc (rw same at t.fits, final_not_eligible now r v f)
      ]
    ],
  )
  perform-final (retry_key key now) s k r ok d v f e =
      (rw (get-retry T k key now s, e, final_not_retried key now r f), omega arith)
  perform-final (finish_row row state error now) s k r ok d v f e =
      (rw (get-finish T k now row state error s, e, final_not_held row r ok.0 v f), omega arith)

  -- On rows with distinct ids, a valid row that is sent, skipped or expired stays as it is along
  -- every history, of whole claims or of their single statements, in which added rows are valid and
  -- only claimed rows are finished, with a waiting or final state, and no claim returns it again.
  pub final_stays :
      (actions : List Action) (s : State) (k : ℕ) (r : Notification)
      → All Allowed actions
      → HasDistinctIds (rows s)
      → IsValid r
      → is_final r.state ≡ true
      → get T k s ≡ some r
      → (get T k (perform_all T actions s) ≡ some r) × (times_claimed k (claims T actions s) ≡ 0)
  unfolding perform_all claims
  final_stays [] s k r ok d v f e = (e, omega arith)
  final_stays (a ∷ rest) s k r ok d v f e =
      let (kept, unclaimed) = perform-final a s k r ok.0 d v f e in
      let (stays, never) =
        final_stays rest (perform T a s).1 k r ok.1 (perform-distinct T a s d) v f kept in
      (stays, omega arith)
