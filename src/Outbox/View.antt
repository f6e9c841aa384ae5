-- ===== src/Outbox/View.antt =====
-- The outbox as a map from ids to rows: what each call does to the row of every id.
use mathlib.Core.Option
use b4fast_api.Prelude.{
  ℕ, ◌≡◌, ◌∙◌, refl, sym, ap, true, ◌&&◌, Option, none, some, ◌==◌, if◌then◌else◌, arith,
  Bool-cases, Option-cases, inl, inr, find_row, find_row-update, find_row-Elem, Elem,
  find_row_sound,
}
use b4fast_api.Database.{Table}
use b4fast_api.Outbox.{
  Notification, Delivery, Failure, same_id, is_stale, expire, is_exhausted, give_up, eligible,
  take_lease, can_retry, reopen, close, is_held_by, get, claim_key, sweep, claim, retry, finish,
  expire_rows, give_up_rows,
}
use b4fast_api.Outbox.Leases.{
  HasDistinctIds, id-take_lease, id-expire, id-give_up, claim_key_lem, sweep_distinct,
}

-- A row after the two sweeps of a claim.
abbrev pub exhaust : ℕ → Notification → Notification
exhaust now r = if is_exhausted now r then give_up r else r

abbrev pub swept : ℕ → Notification → Notification
swept now r = exhaust now (if is_stale now r then expire r else r)

pub id-close :
    (row : Notification) (state : Delivery) (error : Option Failure) (now : ℕ) (r : Notification)
    → (close row state error now r).id ≡ r.id
unfolding close
id-close row state error now r = refl

pub id-reopen : (now : ℕ) (r : Notification) → (reopen now r).id ≡ r.id
unfolding reopen
id-reopen now r = refl

map-map :
    (f g : Notification → Notification) (o : Option Notification)
    → Option.map f (Option.map g o) ≡ Option.map (λ x. f (g x)) o
map-map f g none = refl
map-map f g (some x) = refl

module _ (T : Table Notification same_id) where
  open T use {State, rows, update, update_law, first, first_none, first_some}

  pub get-sweep :
      (k now : ℕ) (s : State) → get T k (sweep T now s) ≡ Option.map (swept now) (get T k s)
  unfolding get sweep
  get-sweep k now s =
      rw
        (
          update_law,
          find_row-update (λ r. r.id) (is_exhausted now) give_up id-give_up k
              (rows (update (is_stale now) expire s)),
          update_law,
          find_row-update (λ r. r.id) (is_stale now) expire id-expire k (rows s),
        )
        (map-map _ _ (find_row (λ x. x.id == k) (rows s)))

  pub get-expire_rows :
      (k now : ℕ) (s : State)
      → get T k (expire_rows T now s)
        ≡ Option.map (λ r. if is_stale now r then expire r else r) (get T k s)
  unfolding get
  get-expire_rows k now s =
      rw update_law (find_row-update (λ r. r.id) (is_stale now) expire id-expire k (rows s))

  pub get-give_up_rows :
      (k now : ℕ) (s : State)
      → get T k (give_up_rows T now s) ≡ Option.map (exhaust now) (get T k s)
  unfolding get
  get-give_up_rows k now s =
      rw update_law (find_row-update (λ r. r.id) (is_exhausted now) give_up id-give_up k (rows s))

  -- A worker's report changes the row of its id if that still holds the worker's lease, and nothing
  -- else: a worker that lost its lease reports in vain.
  pub get-finish :
      (k now : ℕ) (row : Notification) (state : Delivery) (error : Option Failure) (s : State)
      → get T k (finish T row state error now s)
        ≡ Option.map (λ r. if is_held_by row r then close row state error now r else r) (get T k s)
  unfolding get finish
  get-finish k now row state error s = rw update_law (
      find_row-update (λ r. r.id) (is_held_by row) (close row state error now)
        (id-close row state error now) k (rows s))

  pub get-retry :
      (k key now : ℕ) (s : State)
      → get T k (retry T key now s).1
        ≡ Option.map (λ r. if can_retry key now r then reopen now r else r) (get T k s)
  unfolding get retry
  get-retry k key now s =
      rw update_law
        (find_row-update (λ r. r.id) (can_retry key now) (reopen now) (id-reopen now) k (rows s))

  pub get-claim_key :
      (k lease now key : ℕ) (s : State)
      → get T k (claim_key T lease now key s).1
        ≡ Option.map
            (λ r. if (r.id == key && eligible now r) then take_lease lease now r else r)
            (get T k s)
  unfolding get claim_key
  get-claim_key k lease now key s = rw update_law (
      find_row-update (λ r. r.id) (λ r. r.id == key && eligible now r) (take_lease lease now)
        (id-take_lease lease now) k (rows s))

  pub get-Elem :
      (r : Notification) (s : State)
      → HasDistinctIds (rows s)
      → Elem r (rows s)
      → get T r.id s ≡ some r
  unfolding get
  get-Elem r s d m = find_row-Elem (λ x. x.id) r (rows s) d m

  pub id-get : (k : ℕ) (s : State) (r : Notification) → get T k s ≡ some r → r.id ≡ k
  unfolding get
  id-get k s r e =
      let found : (r.id == k) ≡ true = find_row_sound (λ x. x.id == k) (rows s) e in ground arith

  claim_key-view :
      (k lease now : ℕ) (r : Notification) (s : State)
      → HasDistinctIds (rows s)
      → Elem r (rows s)
      → eligible now r ≡ true
      → get T k (claim_key T lease now r.id s).1
        ≡ (if k == r.id then some (take_lease lease now r) else get T k s)
  claim_key-view k lease now r s d m e =
      rw (get-claim_key k lease now r.id s) (chosen (get T k s) refl)
    where
      mine : get T r.id s ≡ some r
      mine = get-Elem r s d m

      chosen :
          (o : Option Notification)
          → get T k s ≡ o
          → Option.map
              (λ x. if (x.id == r.id && eligible now x) then take_lease lease now x else x)
              o
            ≡ (if k == r.id then some (take_lease lease now r) else o)
      chosen none there = elim (Bool-cases (k == r.id)) [
        | inl t ↦
            let ids : k ≡ r.id = ground arith in cc (there, mine, ap (λ (i : ℕ). get T i s) ids)
        | inr f ↦ rw f
      ]
      chosen (some x) there = elim (Bool-cases (k == r.id)) [
        | inl t ↦
            let ids : k ≡ r.id = ground arith in
            let same : x ≡ r = cc (there, mine, ap (λ (i : ℕ). get T i s) ids) in
            rw (same, t) (ground (arith, e))
        | inr f ↦ let xk : x.id ≡ k = id-get k s x there in rw (xk, f)
      ]

  -- The row of an id after a claim: the row that the claim returned, or the swept one.
  pub record ClaimView (lease now : ℕ) (s : State) (q : Notification) (s' : State) : Type 0 where
    pub before : Notification
    pub was : get T q.id s ≡ some before
    pub open_row : eligible now (swept now before) ≡ true
    pub taken : q ≡ take_lease lease now (swept now before)
    pub view :
        (k : ℕ) → get T k s' ≡ (if k == q.id then some q else Option.map (swept now) (get T k s))

  map-some :
      (f : Notification → Notification) (o : Option Notification) (r : Notification)
      → Option.map f o ≡ some r
      → (b : Notification) × (o ≡ some b) × (f b ≡ r)
  map-some f none r h = cc
  map-some f (some b) r h = (b, refl, cc)

  claim_of_first :
      (lease now : ℕ) (s : State) (r q : Notification)
      → HasDistinctIds (rows s)
      → Elem r (rows (sweep T now s))
      → eligible now r ≡ true
      → (claim_key T lease now r.id (sweep T now s)).0 ≡ some q
      → ClaimView lease now s q (claim_key T lease now r.id (sweep T now s)).1
  unfolding take_lease get
  claim_of_first lease now s r q d m fits h =
      let d' = sweep_distinct T now s d in
      let same : q ≡ take_lease lease now r =
        cc (h, claim_key_lem T lease now r (sweep T now s) d' m fits) in
      let (b, was, sw) =
        map-some (swept now) (get T r.id s) r
          (sym (get-sweep r.id now s) ∙ get-Elem r (sweep T now s) d' m) in
      let ids : q.id ≡ r.id = ap (λ (x : Notification). x.id) same ∙ id-take_lease lease now r in
      record {
        before = b;
        was = rw ids was;
        open_row = rw sw fits;
        taken = rw sw same;
        view = λ k.
            rw (
              claim_key-view k lease now r (sweep T now s) d' m fits,
              get-sweep k now s,
              ids,
              same,
            );
      }

  -- On rows with distinct ids, a claim that no other transaction comes between and that returns a
  -- row took it from the sweeps of a row that was there and open, and changed no other id but by
  -- the sweeps.
  pub claim-view :
      (lease now : ℕ) (s : State) (q : Notification)
      → HasDistinctIds (rows s)
      → (claim T lease now s).0 ≡ some q
      → ClaimView lease now s q (claim T lease now s).1
  unfolding claim
  claim-view lease now s q d h =
      elim (Option-cases (first (eligible now) (λ r. r.available_at) (sweep T now s))) [
        | inl e ↦ cc (rw e at h)
        | inr (r, e) ↦
            let (m, fits, _) =
              first_some (eligible now) (λ r. r.available_at) (sweep T now s) r e in
            rw e (claim_of_first lease now s r q d m fits (rw e at h))
      ]
