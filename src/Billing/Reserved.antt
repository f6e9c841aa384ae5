-- ===== src/Billing/Reserved.antt =====
-- What stands of a reservation and of a customer's identity while calls run.
use b4fast_api.Prelude.{
  ℕ, ◌<◌, ◌≡◌, refl, ap, ◌∙◌, Bool, true, false, Option, none, some, List, [], ◌∷◌, ◌++◌, find_row,
  update_rows, AllSome, Bool-cases, Option-cases, inl, inr, arith, ==-refl,
}
use b4fast_api.Database.{Table}
use b4fast_api.Accounts.Signup.{IsGrown, insert-IsGrown, find_row-grown}
use b4fast_api.Billing.{
  BillingCustomer, BillingCheckout, same_mode, same_customer, same_checkout, is_customer,
  is_checkout, raced, insert_or_get, new_customer, get, reserve, is_unbound, bind, new_checkout,
  renew, is_over, reserve_checkout,
}

-- An update that keeps what is looked for leaves a row that it does not fit where it was.
find_row-update_kept :
    {A : Type 0} (p q : A → Bool) (f : A → A) (r : A) (xs : List A)
    → ((x : A) → p (f x) ≡ p x)
    → q r ≡ false
    → find_row p xs ≡ some r
    → find_row p (update_rows q f xs) ≡ some r
find_row-update_kept p q f r [] keeps out e = cc
find_row-update_kept p q f r (x ∷ xs) keeps out e = elim (Bool-cases (p x)) [
  | inl here ↦
      let same : x ≡ r = cc (rw here at e) in
      let left : q x ≡ false = rw same out in rw (left, here, same) refl
  | inr later ↦ elim (Bool-cases (q x)) [
    | inl t ↦ rw (t, keeps x, later) (find_row-update_kept p q f r xs keeps out (rw later at e))
    | inr f' ↦ rw (f', later) (find_row-update_kept p q f r xs keeps out (rw later at e))
  ]
]

find_row-append :
    {A : Type 0} (p : A → Bool) (r y : A) (xs : List A)
    → find_row p xs ≡ some r
    → find_row p (xs ++ y ∷ []) ≡ some r
find_row-append p r y [] e = cc
find_row-append p r y (x ∷ xs) e = elim (Bool-cases (p x)) [
  | inl here ↦ rw here (rw here at e)
  | inr later ↦ rw later (find_row-append p r y xs (rw later at e))
]

mode_refl : (b : Bool) → same_mode b b ≡ true
mode_refl true = refl
mode_refl false = refl

module _ {Row : Type 0} {conflict : Row → Row → Bool} (T : Table Row conflict) where
  insert-kept :
      (p : Row → Bool) (r y : Row) (s t : T.State)
      → find_row p (T.rows s) ≡ some r
      → T.insert y s ≡ some t
      → find_row p (T.rows t) ≡ some r
  insert-kept p r y s t e done =
      let inserted : AllSome (IsGrown T y s) (T.insert y s) = insert-IsGrown T y s in
      let grown : IsGrown T y s t = rw done at inserted in
      rw grown.grown (find_row-append p r y (T.rows s) e)

  raced-kept :
      (p : Row → Bool) (r : Row) (o : Option Row) (s : T.State)
      → find_row p (T.rows s) ≡ some r
      → find_row p (T.rows (raced T o s)) ≡ some r
  raced-kept p r none s e = e
  raced-kept p r (some y) s e = elim (Option-cases (T.insert y s)) [
    | inl f ↦ rw f e
    | inr (t, f) ↦ rw f (insert-kept p r y s t e f)
  ]

  -- A row that was there before an insertion is there after it.
  insert_or_get-kept :
      (p q : Row → Bool) (r y : Row) (s : T.State)
      → find_row p (T.rows s) ≡ some r
      → find_row p (T.rows (insert_or_get T q y s (T.insert y s)).1) ≡ some r
  insert_or_get-kept p q r y s e = elim (Option-cases (T.insert y s)) [
    | inl f ↦ rw f e
    | inr (t, f) ↦ rw f (insert-kept p r y s t e f)
  ]

  -- What an insertion answers is found afterwards.
  insert_or_get-found :
      (q : Row → Bool) (y r : Row) (s : T.State)
      → q y ≡ true
      → ((z : Row) → conflict y z ≡ false → q z ≡ false)
      → (insert_or_get T q y s (T.insert y s)).0 ≡ some r
      → find_row q (T.rows (insert_or_get T q y s (T.insert y s)).1) ≡ some r
  insert_or_get-found q y r s own apart e = elim (Option-cases (T.insert y s)) [
    | inl f ↦ rw f (rw f at e)
    | inr (t, f) ↦
        let inserted : AllSome (IsGrown T y s) (T.insert y s) = insert-IsGrown T y s in
        let grown : IsGrown T y s t = rw f at inserted in
        let same : y ≡ r = cc (rw f at e) in
        rw f (
          rw grown.grown
            (find_row-grown q (conflict y) y (T.rows s) apart grown.free own ∙ ap some same))
  ]

module _ (K : Table BillingCheckout same_checkout) where
  -- The reservation of a user and a mode.
  abbrev pub reserved : ℕ → Bool → K.State → Option BillingCheckout
  reserved user livemode s = find_row (is_checkout user livemode) (K.rows s)

  -- A reservation that has not ended stands whatever is reserved.
  pub reserve_checkout-kept :
      (user : ℕ) (livemode : Bool) (r : BillingCheckout) (other : ℕ) (mode : Bool)
      (price key now : ℕ) (race : Option BillingCheckout) (s : K.State)
      → now < r.expires_at
      → reserved user livemode s ≡ some r
      → reserved user livemode (reserve_checkout K other mode price key now race s).1 ≡ some r
  unfolding reserve_checkout
  reserve_checkout-kept user livemode r other mode price key now race s before e =
      let s' = K.update (is_over K other mode now) (renew K price key now) s in
      let kept : reserved user livemode s' ≡ some r = rw K.update_law (
        find_row-update_kept (is_checkout user livemode) (is_over K other mode now)
          (renew K price key now) r (K.rows s) (λ x. refl) (ground arith) e) in
      elim (Option-cases (reserved other mode s')) [
        | inr (x, f) ↦ rw f kept
        | inl f ↦ rw f (
            insert_or_get-kept K (is_checkout user livemode) (is_checkout other mode) r
              (new_checkout K other mode price key now) (raced K race s')
              (raced-kept K (is_checkout user livemode) r race s' kept))
      ]

  -- A reservation that is answered stands.
  pub reserve_checkout-reserved :
      (user : ℕ) (livemode : Bool) (r : BillingCheckout) (price key now : ℕ)
      (race : Option BillingCheckout) (s : K.State)
      → (reserve_checkout K user livemode price key now race s).0 ≡ some r
      → reserved user livemode (reserve_checkout K user livemode price key now race s).1 ≡ some r
  unfolding reserve_checkout
  reserve_checkout-reserved user livemode r price key now race s e =
      let s' = K.update (is_over K user livemode now) (renew K price key now) s in
      elim (Option-cases (reserved user livemode s')) [
        | inr (x, f) ↦ rw f (f ∙ (rw f at e))
        | inl f ↦ rw f (
            insert_or_get-found K (is_checkout user livemode)
              (new_checkout K user livemode price key now) r (raced K race s')
              (rw (==-refl user, mode_refl livemode) refl) (λ z apart. apart) (rw f at e))
      ]

module _ {Snapshot : Type 0} (C : Table (BillingCustomer Snapshot) same_customer) where
  -- The customer that a user is bound to in a mode.
  pub record IsBound (user : ℕ) (livemode : Bool) (c : BillingCustomer Snapshot) (id : ℕ)
      (s : C.State) : Type 0 where
    pub found : find_row (is_customer user livemode) (C.rows s) ≡ some c
    pub bound : c.stripe_customer_id ≡ some id

  pub reserve-IsBound :
      (user : ℕ) (livemode : Bool) (c : BillingCustomer Snapshot) (id other : ℕ) (mode : Bool)
      (key now : ℕ) (race : Option (BillingCustomer Snapshot)) (s : C.State)
      → IsBound user livemode c id s
      → IsBound user livemode c id (reserve C other mode key now race s).1
  unfolding reserve get
  reserve-IsBound user livemode c id other mode key now race s h =
      elim (Option-cases (find_row (is_customer other mode) (C.rows s))) [
        | inr (x, f) ↦ rw f h
        | inl f ↦ rw f (record {
          found =
              insert_or_get-kept C (is_customer user livemode) (is_customer other mode) c
                (new_customer C other mode key now) (raced C race s)
                (raced-kept C (is_customer user livemode) c race s h.found);
          bound = h.bound;
        })
      ]

  pub bind-IsBound :
      (user : ℕ) (livemode : Bool) (c : BillingCustomer Snapshot) (id other : ℕ) (mode : Bool)
      (customer : ℕ) (s : C.State)
      → IsBound user livemode c id s
      → IsBound user livemode c id (bind C other mode customer s).1
  unfolding bind
  bind-IsBound user livemode c id other mode customer s h = record {
    found = rw C.update_law (
        find_row-update_kept (is_customer user livemode) (is_unbound C other mode)
          (λ x. record x { stripe_customer_id = some customer }) c (C.rows s) (λ x. refl)
          (rw h.bound (ground arith)) h.found);
    bound = h.bound;
  }

  -- What binding answers is bound.
  pub bind_answer :
      (user : ℕ) (livemode : Bool) (customer id : ℕ) (s : C.State)
      → (bind C user livemode customer s).0 ≡ some id
      → (c : BillingCustomer Snapshot) × IsBound user livemode c id
          (bind C user livemode customer s).1
  unfolding bind
  bind_answer user livemode customer id s e =
      let s' =
        C.update (is_unbound C user livemode) (λ c. record c { stripe_customer_id = some customer })
          s in
      elim (Option-cases (find_row (is_customer user livemode) (C.rows s'))) [
        | inl f ↦ cc (rw f at e)
        | inr (c, f) ↦ (c, record { found = f; bound = rw f at e })
      ]

  -- What a reservation answers is found.
  pub reserve-found :
      (user : ℕ) (livemode : Bool) (key now : ℕ) (race : Option (BillingCustomer Snapshot))
      (c : BillingCustomer Snapshot) (s : C.State)
      → (reserve C user livemode key now race s).0 ≡ some c
      → find_row (is_customer user livemode) (C.rows (reserve C user livemode key now race s).1)
        ≡ some c
  unfolding reserve get
  reserve-found user livemode key now race c s e =
      elim (Option-cases (find_row (is_customer user livemode) (C.rows s))) [
        | inr (x, f) ↦ rw f (f ∙ (rw f at e))
        | inl f ↦ rw f (
            insert_or_get-found C (is_customer user livemode) (new_customer C user livemode key now)
              c (raced C race s) (rw (==-refl user, mode_refl livemode) refl)
              (λ z apart. ground (arith, apart)) (rw f at e))
      ]
