-- ===== src/Outbox/Leases.antt =====
-- What a claim returns, and that a lease excludes other workers.
use b4fast_api.Prelude.{
  ℕ, ◌+◌, ◌≤◌, ◌<◌, ◌≡◌, refl, subst, true, false, ◌&&◌, some, List, is_some, ◌==◌, arith, All,
  All-update, All-Elem, Option-cases, inl, inr, Distinct, Distinct-update, find_row-update,
  find_row-Elem, Elem, update-settles, count_rows-Elem, lt→ltb,
}
use b4fast_api.Database.{Table}
use b4fast_api.Outbox.{
  Notification, Delivery, same_id, lease_seconds, is_stale, expire, is_exhausted, give_up, eligible,
  take_lease, get, claim_key, sweep, claim, expire_rows, give_up_rows,
}

abbrev pub HasDistinctIds : List Notification → Type 0
HasDistinctIds = Distinct (λ r. r.id)

-- What a claim at `now` returns.
pub record IsClaimed (lease now : ℕ) (q : Notification) : Type 0 where
  pub sending : q.state ≡ Delivery.sending
  pub leased : q.lease ≡ some lease
  pub dated : q.leased_until ≡ some (now + lease_seconds)
  pub counted : 1 ≤ q.attempts
  pub budget : q.attempts ≤ 5
  pub payload : is_some q.payload ≡ true
  pub fresh : now < q.expires_at
  pub due : q.available_at ≤ now

expire_settles :
    (now : ℕ) (r : Notification) → is_stale now r ≡ true → is_stale now (expire r) ≡ false
unfolding is_stale expire
expire_settles now r h = ground arith

give_up_fresh :
    (now : ℕ) (r : Notification)
    → is_exhausted now r ≡ true
    → is_stale now r ≡ false
    → is_stale now (give_up r) ≡ false
unfolding is_stale give_up
give_up_fresh now r h e = ground arith

take_lease-IsClaimed :
    (lease now : ℕ) (r : Notification)
    → eligible now r ≡ true
    → is_stale now r ≡ false
    → IsClaimed lease now (take_lease lease now r)
unfolding take_lease eligible is_stale
take_lease-IsClaimed lease now r e f = ground arith

pub id-take_lease : (lease now : ℕ) (r : Notification) → (take_lease lease now r).id ≡ r.id
unfolding take_lease
id-take_lease lease now r = refl

pub id-expire : (r : Notification) → (expire r).id ≡ r.id
unfolding expire
id-expire r = refl

pub id-give_up : (r : Notification) → (give_up r).id ≡ r.id
unfolding give_up
id-give_up r = refl

module _ (T : Table Notification same_id) where
  open T use {State, rows, update, update_law, first, first_none, first_some}

  sweep_fresh : (now : ℕ) (s : State) → All (λ r. is_stale now r ≡ false) (rows (sweep T now s))
  unfolding sweep
  sweep_fresh now s = rw update_law (
      All-update (λ r. is_stale now r ≡ false) (is_exhausted now) give_up _ (give_up_fresh now)
        (rw update_law (update-settles (is_stale now) expire (rows s) (expire_settles now))))

  pub expire_distinct :
      (now : ℕ) (s : State) → HasDistinctIds (rows s) → HasDistinctIds (rows (expire_rows T now s))
  expire_distinct now s d =
      rw update_law (Distinct-update (λ r. r.id) (is_stale now) expire id-expire (rows s) d)

  pub give_up_distinct :
      (now : ℕ) (s : State) → HasDistinctIds (rows s) → HasDistinctIds (rows (give_up_rows T now s))
  give_up_distinct now s d =
      rw update_law (Distinct-update (λ r. r.id) (is_exhausted now) give_up id-give_up (rows s) d)

  pub claim_key_distinct :
      (lease now key : ℕ) (s : State)
      → HasDistinctIds (rows s)
      → HasDistinctIds (rows (claim_key T lease now key s).1)
  unfolding claim_key
  claim_key_distinct lease now key s d =
      rw update_law
        (Distinct-update (λ r. r.id) _ (take_lease lease now) (id-take_lease lease now) (rows s) d)

  pub sweep_distinct :
      (now : ℕ) (s : State) → HasDistinctIds (rows s) → HasDistinctIds (rows (sweep T now s))
  unfolding sweep
  sweep_distinct now s d = give_up_distinct now _ (expire_distinct now s d)

  -- The row that `first` chose is there when its guarded update runs: it is taken and returned.
  pub claim_key_lem :
      (lease now : ℕ) (r : Notification) (s : State)
      → HasDistinctIds (rows s)
      → Elem r (rows s)
      → eligible now r ≡ true
      → (claim_key T lease now r.id s).0 ≡ some (take_lease lease now r)
  unfolding claim_key get
  claim_key_lem lease now r s d m e =
      let fits = λ (x : Notification). x.id == r.id && eligible now x in
      let fits_r : fits r ≡ true = ground arith in
      rw (
        lt→ltb _ _ (count_rows-Elem fits r (rows s) m fits_r),
        update_law,
        find_row-update (λ x. x.id) fits (take_lease lease now) (id-take_lease lease now) r.id
            (rows s),
        find_row-Elem (λ x. x.id) r (rows s) d m,
        fits_r,
      )

  -- On rows with distinct ids, a claim that no other transaction comes between returns a row that
  -- is due, has not expired and holds the new lease for five minutes, with its attempt counted
  -- within the budget.
  pub claim-IsClaimed :
      (lease now : ℕ) (s : State) (q : Notification)
      → HasDistinctIds (rows s)
      → (claim T lease now s).0 ≡ some q
      → IsClaimed lease now q
  unfolding claim
  claim-IsClaimed lease now s q d h =
      elim (Option-cases (first (eligible now) (λ r. r.available_at) (sweep T now s))) [
        | inl e ↦ cc (rw e at h)
        | inr (r, e) ↦
            let (m, fits, _) =
              first_some (eligible now) (λ r. r.available_at) (sweep T now s) r e in
            let same : take_lease lease now r ≡ q = cc (
              rw e at h,
              claim_key_lem lease now r (sweep T now s) (sweep_distinct now s d) m fits,
            ) in
            subst (IsClaimed lease now) same (
              take_lease-IsClaimed lease now r fits
                (All-Elem (λ r. is_stale now r ≡ false) r _ (sweep_fresh now s) m))
      ]
