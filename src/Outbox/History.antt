-- ===== src/Outbox/History.antt =====
-- What holds along every history of the outbox: leases exclude, and attempts are bounded.
use b4fast_api.Prelude.{
  ℕ, ◌+◌, ◌≤◌, ◌∙◌, ◌≡◌, ◌≢◌, ap, sym, subst, true, Option, some, List, [], ◌∷◌, ◌==◌, arith, All,
  All-find, Option-cases, inl, inr,
}
use b4fast_api.Database.{Table}
use b4fast_api.Outbox.{
  Notification, Delivery, same_id, is_open, expire, give_up, eligible, take_lease, get, claim_key,
  claim,
}
use b4fast_api.Outbox.Leases.{HasDistinctIds, id-take_lease}
use b4fast_api.Outbox.WellFormed.{IsValid, Allowed, perform_all-IsValid}
use b4fast_api.Outbox.Races.{claim_key-decided}
use b4fast_api.Outbox.View.{swept, get-Elem, claim-view}
use b4fast_api.Outbox.Trace.{
  Action, add_row, claim_next, expire_all, give_up_all, take_key, retry_key, finish_row, perform,
  perform_all, claims,
}
use b4fast_api.Outbox.Calls.{perform-distinct}
use b4fast_api.Outbox.Attempts.{IsNotRetry, claimed, attempts_of, perform-attempts}

-- The clock reading of a call that can claim a row.
abbrev pub claim_time : Action → ℕ
claim_time (claim_next lease now) = now
claim_time (take_key lease now key) = now
claim_time _ = 0

-- How many claims of a history returned the row of a key.
abbrev pub times_claimed : ℕ → List (Option Notification) → ℕ
times_claimed k [] = 0
times_claimed k (c ∷ cs) = claimed k c + times_claimed k cs

module _ (T : Table Notification same_id) where
  open T use {State, rows, update, update_law, first, first_none, first_some}

  claim_leased :
      (lease now : ℕ) (s : State) (r : Notification) (q : Notification) {until : ℕ}
      → HasDistinctIds (rows s)
      → get T r.id s ≡ some r
      → r.state ≡ Delivery.sending
      → r.leased_until ≡ some until
      → now ≤ until
      → (claim T lease now s).0 ≡ some q
      → q.id ≢ r.id
  unfolding eligible is_open expire give_up
  claim_leased lease now s r q {until} d there sends leased runs h = λ ids.
      let v = claim-view T lease now s q d h in
      let same : v.before ≡ r = cc (v.was, there, ap (λ (i : ℕ). get T i s) ids) in
      let o : eligible now (swept now r) ≡ true = rw (← same) v.open_row in ground arith

  claim_key_leased :
      (lease now key : ℕ) (s : State) (r q : Notification) {until : ℕ}
      → HasDistinctIds (rows s)
      → get T r.id s ≡ some r
      → r.state ≡ Delivery.sending
      → r.leased_until ≡ some until
      → now ≤ until
      → (claim_key T lease now key s).0 ≡ some q
      → q.id ≢ r.id
  unfolding eligible is_open
  claim_key_leased lease now key s r q {until} d there sends leased runs h = λ ids.
      elim (claim_key-decided T lease now key s d) [
        | inr t ↦ cc (h, t.answer)
        | inl t ↦
            let taken : q ≡ take_lease lease now t.row = cc (h, t.answer) in
            let own : t.row.id ≡ r.id =
              sym (id-take_lease lease now t.row)
              ∙ (sym (ap (λ (x : Notification). x.id) taken) ∙ ids) in
            let here : get T r.id s ≡ some t.row =
              subst (λ i. get T i s ≡ some t.row) own (get-Elem T t.row s d t.there) in
            let same : t.row ≡ r = cc (here, there) in
            let o : eligible now r ≡ true = rw (← same) t.fits in ground arith
      ]

  -- On rows with distinct ids, while the lease on a row that is being sent runs, neither a claim
  -- that no other transaction comes between nor the guarded update of a claim returns that row.
  pub claim_respects_lease :
      (a : Action) (s : State) (r : Notification) (q : Notification) {until : ℕ}
      → HasDistinctIds (rows s)
      → get T r.id s ≡ some r
      → r.state ≡ Delivery.sending
      → r.leased_until ≡ some until
      → claim_time a ≤ until
      → (perform T a s).0 ≡ some q
      → q.id ≢ r.id
  unfolding perform
  claim_respects_lease (claim_next lease now) s r q d there sends leased runs h =
      claim_leased lease now s r q d there sends leased runs h
  claim_respects_lease (take_key lease now key) s r q d there sends leased runs h =
      claim_key_leased lease now key s r q d there sends leased runs h
  claim_respects_lease (add_row x) s r q d there sends leased runs h = cc
  claim_respects_lease (expire_all now) s r q d there sends leased runs h = cc
  claim_respects_lease (give_up_all now) s r q d there sends leased runs h = cc
  claim_respects_lease (retry_key key now) s r q d there sends leased runs h = cc
  claim_respects_lease (finish_row row state error now) s r q d there sends leased runs h = cc

  -- The number of times that the row of a key is claimed along a history, plus the attempts it had
  -- counted before, is at most what it has counted after.
  times_claimed-le :
      (k : ℕ) (actions : List Action) (s : State)
      → All (IsNotRetry k) actions
      → HasDistinctIds (rows s)
      → times_claimed k (claims T actions s) + attempts_of T k s
        ≤ attempts_of T k (perform_all T actions s)
  unfolding claims perform_all
  times_claimed-le k [] s ok d = omega arith
  times_claimed-le k (a ∷ rest) s ok d = omega (
    arith,
    perform-attempts T k a s ok.0 d,
    times_claimed-le k rest (perform T a s).1 ok.1 (perform-distinct T a s d),
  )

  attempts_of-budget : (k : ℕ) (s : State) → All IsValid (rows s) → attempts_of T k s ≤ 5
  unfolding get
  attempts_of-budget k s h = elim (Option-cases (get T k s)) [
    | inl e ↦ rw e (omega arith)
    | inr (r, e) ↦
        let v = All-find IsValid (λ x. x.id == k) (rows s) h e in rw e (omega (arith, v.budget))
  ]

  -- From valid rows with distinct ids, however workers interleave, with whole claims or their
  -- single statements, crash or report, the row of a key is claimed five times at most along a
  -- history in which no operator retries it, added rows are valid, and only claimed rows are
  -- finished, with a waiting or final state.
  pub delivery_budget :
      (k : ℕ) (actions : List Action) (s : State)
      → All (IsNotRetry k) actions
      → All Allowed actions
      → HasDistinctIds (rows s)
      → All IsValid (rows s)
      → times_claimed k (claims T actions s) ≤ 5
  delivery_budget k actions s nr ok d h = omega (
    arith,
    times_claimed-le k actions s nr d,
    attempts_of-budget k (perform_all T actions s) (perform_all-IsValid T actions s ok h),
  )
