-- ===== src/Outbox/Calls.antt =====
-- What every call keeps of the ids, and what is read of a row after it.
use b4fast_api.Prelude.{
  ℕ, ◌∙◌, ◌≡◌, refl, subst, true, false, none, some, List, [], ◌∷◌, ◌++◌, is_some, ◌==◌,
  if◌then◌else◌, arith, All, Bool-cases, Option-cases, inl, inr, any_row, find_row, Distinct-update,
  Distinct-append, ◌⊎◌,
}
use b4fast_api.Database.{Table}
use b4fast_api.Outbox.{
  Notification, same_id, eligible, take_lease, can_retry, reopen, close, is_held_by, get, add,
  claim_key, sweep, claim, retry, finish,
}
use b4fast_api.Outbox.Adding.{rows-add, found_of_conflict}
use b4fast_api.Outbox.Leases.{
  HasDistinctIds, id-take_lease, sweep_distinct, claim_key_lem, expire_distinct, give_up_distinct,
  claim_key_distinct,
}
use b4fast_api.Outbox.Races.{Takes}
use b4fast_api.Outbox.View.{id-close, id-reopen, get-Elem}
use b4fast_api.Outbox.Trace.{
  Action, add_row, claim_next, expire_all, give_up_all, take_key, retry_key, finish_row, perform,
  or_same,
}

find_row-end :
    (k : ℕ) (r : Notification) (xs : List Notification)
    → find_row (λ x. x.id == k) (xs ++ r ∷ []) ≡ (
        if is_some (find_row (λ x. x.id == k) xs)
        then find_row (λ x. x.id == k) xs
        else if r.id == k
        then some r
        else none)
find_row-end k r [] = refl
find_row-end k r (x ∷ xs) = ground (arith, find_row-end k r xs)

module _ (T : Table Notification same_id) where
  open T use {State, rows, update, update_law, first, first_none, first_some}

  pub perform-distinct :
      (a : Action) (s : State) → HasDistinctIds (rows s) → HasDistinctIds (rows (perform T a s).1)
  unfolding perform retry finish claim claim_key
  perform-distinct (add_row r) s d = elim (Bool-cases (any_row (same_id r) (rows s))) [
    | inl t ↦ rw (rows-add, t) d
    | inr f ↦ rw (rows-add, f) (Distinct-append (λ x. x.id) r (rows s) f d)
  ]
  perform-distinct (claim_next lease now) s d =
      elim (Option-cases (first (eligible now) (λ r. r.available_at) (sweep T now s))) [
        | inl e ↦ rw e (sweep_distinct T now s d)
        | inr (r, e) ↦
            rw (e, update_law)
              (Distinct-update (λ x. x.id) _ (take_lease lease now) (id-take_lease lease now) _
                (sweep_distinct T now s d))
      ]
  perform-distinct (expire_all now) s d = expire_distinct T now s d
  perform-distinct (give_up_all now) s d = give_up_distinct T now s d
  perform-distinct (take_key lease now key) s d = claim_key_distinct T lease now key s d
  perform-distinct (retry_key key now) s d =
      rw update_law
        (Distinct-update (λ x. x.id) (can_retry key now) (reopen now) (id-reopen now) (rows s) d)
  perform-distinct (finish_row row state error now) s d = rw update_law (
      Distinct-update (λ x. x.id) (is_held_by row) (close row state error now)
        (id-close row state error now) (rows s) d)

  -- A claim that no other transaction comes between: where it returns nothing, nothing was left.
  pub claim-none :
      (lease now : ℕ) (s : State)
      → HasDistinctIds (rows s)
      → (claim T lease now s).0 ≡ none
      → ((claim T lease now s).1 ≡ sweep T now s)
        × All (λ r. eligible now r ≡ false) (rows (sweep T now s))
  unfolding claim
  claim-none lease now s d h =
      elim (Option-cases (first (eligible now) (λ r. r.available_at) (sweep T now s))) [
        | inl e ↦ (rw e, first_none (eligible now) (λ r. r.available_at) (sweep T now s) e)
        | inr (r, e) ↦
            let (m, fits, _) =
              first_some (eligible now) (λ r. r.available_at) (sweep T now s) r e in
            cc (
              rw e at h,
              claim_key_lem T lease now r (sweep T now s) (sweep_distinct T now s d) m fits,
            )
      ]

  pub get-add :
      (k : ℕ) (r : Notification) (s : State)
      → get T k (or_same T s (add T r s))
        ≡ (if is_some (get T k s) then get T k s else if (r.id == k) then some r else none)
  unfolding get
  get-add k r s = elim (Bool-cases (any_row (same_id r) (rows s))) [
    | inl t ↦ rw (rows-add, t) (known (found_of_conflict r (rows s) t) (Bool-cases (r.id == k)))
    | inr f ↦ rw (rows-add, f) (find_row-end k r (rows s))
  ]
    where
      known :
          is_some (find_row (λ x. x.id == r.id) (rows s)) ≡ true
          → ((r.id == k) ≡ true) ⊎ ((r.id == k) ≡ false)
          → find_row (λ x. x.id == k) (rows s)
            ≡ (if is_some (get T k s) then get T k s else if (r.id == k) then some r else none)
      known found (inl e) =
          let ids : r.id ≡ k = ground arith in
          let here : is_some (find_row (λ x. x.id == k) (rows s)) ≡ true =
            subst (λ i. is_some (find_row (λ x. x.id == i) (rows s)) ≡ true) ids found in
          rw here
      known found (inr e) = rw e (ground arith)

  pub there_at :
      (k key : ℕ) (s : State) {lease now : ℕ} (t : Takes T lease now key s)
      → HasDistinctIds (rows s)
      → (key == k) ≡ true
      → get T k s ≡ some t.row
  there_at k key s t d mine =
      let ids : key ≡ k = ground (arith, mine) in
      subst (λ i. get T i s ≡ some t.row) (t.key_kept ∙ ids) (get-Elem T t.row s d t.there)
