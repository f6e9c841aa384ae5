-- ===== src/Billing/Session.antt =====
-- One user has one hosted checkout at a time.
use b4fast_api.Prelude.{
  ℕ, ◌<◌, ◌≡◌, refl, sym, ap, ap₂, subst, ◌∙◌, Bool, true, false, Option, none, some, List, [], ◌∷◌,
  All, arith,
}
use b4fast_api.Database.{Table}
use b4fast_api.Prelude.{find_row}
use b4fast_api.Billing.{
  is_customer, BillingCustomer, BillingCheckout, same_customer, same_checkout, reserve, bind,
  reserve_checkout,
}
use b4fast_api.Billing.Reserved.{
  reserved, reserve_checkout-kept, reserve_checkout-reserved, IsBound, reserve-IsBound,
  bind-IsBound, bind_answer, reserve-found,
}
use b4fast_api.Billing.Checkout.{
  BillingErrorCode, Provider, BillingStore, Step, done, failed, and_next, ensure, found,
  CheckoutCall, bound_customer, customer, session_request, reserved_session, create_checkout,
}

module _ {Snapshot : Type 0} (C : Table (BillingCustomer Snapshot) same_customer)
    (K : Table BillingCheckout same_checkout) where
  abbrev Store : Type 0
  Store = BillingStore C K

  -- A property of what a step answers, and one of the store where it fails.
  unfoldable pub Holds :
      {A : Type 0} → (A → Store → Type 0) → (Store → Type 0) → Step C K A → Type 0
  Holds P E (done a s) = P a s
  Holds P E (failed e s) = E s

  done-Holds :
      {A : Type 0} (P : A → Store → Type 0) (E : Store → Type 0) (a : A) (s : Store)
      → P a s
      → Holds P E (done a s)
  unfolding Holds and_next ensure found
  done-Holds P E a s h = h

  and_next-Holds :
      {A B : Type 0} (Q : A → Store → Type 0) (P : B → Store → Type 0) (E : Store → Type 0)
      (r : Step C K A) (f : A → Store → Step C K B)
      → Holds Q E r
      → ((a : A) (s : Store) → Q a s → Holds P E (f a s))
      → Holds P E (and_next C K r f)
  unfolding Holds and_next ensure found
  and_next-Holds Q P E (done a s) f h k = k a s h
  and_next-Holds Q P E (failed e s) f h k = h

  ensure-next :
      {B : Type 0} (b : Bool) (e : BillingErrorCode) (s : Store) (P : B → Store → Type 0)
      (E : Store → Type 0) (f : Unit {0} → Store → Step C K B)
      → E s
      → (b ≡ true → Holds P E (f tt s))
      → Holds P E (and_next C K (ensure C K b e s) f)
  unfolding Holds and_next ensure found
  ensure-next true e s P E f h k = k refl
  ensure-next false e s P E f h k = h

  found-next :
      {A B : Type 0} (e : BillingErrorCode) (o : Option A) (s : Store) (P : B → Store → Type 0)
      (E : Store → Type 0) (f : A → Store → Step C K B)
      → E s
      → ((a : A) → o ≡ some a → Holds P E (f a s))
      → Holds P E (and_next C K (found C K e o s) f)
  unfolding Holds and_next ensure found
  found-next e none s P E f h k = h
  found-next e (some a) s P E f h k = k a refl

  found-Holds :
      {A : Type 0} (e : BillingErrorCode) (o : Option A) (s : Store) (P : A → Store → Type 0)
      (E : Store → Type 0)
      → E s
      → ((a : A) → o ≡ some a → P a s)
      → Holds P E (found C K e o s)
  unfolding Holds and_next ensure found
  found-Holds e none s P E h k = h
  found-Holds e (some a) s P E h k = k a refl

  abbrev pub store_of : {A : Type 0} → Step C K A → Store
  store_of (done a s) = s
  store_of (failed e s) = s

  Holds-store :
      {A : Type 0} (E : Store → Type 0) (r : Step C K A) → Holds (λ _. E) E r → E (store_of r)
  unfolding Holds and_next ensure found
  Holds-store E (done a s) h = h
  Holds-store E (failed e s) h = h

  module _ (P : Provider) (user : ℕ) where
    -- A customer and a reservation of the user.
    pub record Stands (c : BillingCustomer Snapshot) (id : ℕ) (r : BillingCheckout) (s : Store)
        : Type 0 where
      pub customer_bound : IsBound C user P.livemode c id s.customers
      pub reservation : reserved K user P.livemode s.checkouts ≡ some r

    bound_customer-Stands :
        (c : BillingCustomer Snapshot) (id : ℕ) (r : BillingCheckout) (now other : ℕ)
        (row : BillingCustomer Snapshot) (o : Option ℕ) (s : Store)
        → Stands c id r s
        → Holds (λ _. Stands c id r) (Stands c id r) (bound_customer C K P now other row o s)
    bound_customer-Stands c id r now other row (some x) s h =
        done-Holds (λ _. Stands c id r) (Stands c id r) x s h
    bound_customer-Stands c id r now other row none s h =
        let h' : Stands c id r (record s {
          customers =
              (bind C other P.livemode (P.create_customer row.creation_key other) s.customers).1;
        }) =
          record {
            customer_bound =
                bind-IsBound C user P.livemode c id other P.livemode _ s.customers h.customer_bound;
            reservation = h.reservation;
          } in
        ensure-next _ _ s (λ _. Stands c id r) (Stands c id r) _ h
          (λ _. found-Holds _ _ _ (λ _. Stands c id r) (Stands c id r) h' (λ _ _. h'))

    customer-Stands :
        (c : BillingCustomer Snapshot) (id : ℕ) (r : BillingCheckout) (call : CheckoutCall C K)
        (s : Store)
        → Stands c id r s
        → Holds (λ _. Stands c id r) (Stands c id r) (customer C K P call s)
    unfolding customer
    customer-Stands c id r call s h =
        let h' : Stands c id r (record s {
          customers =
              (reserve C call.user_id P.livemode call.customer_key call.now call.other_customer
                s.customers).1;
        }) =
          record {
            customer_bound =
                reserve-IsBound C user P.livemode c id call.user_id P.livemode call.customer_key
                  call.now call.other_customer s.customers h.customer_bound;
            reservation = h.reservation;
          } in
        found-next _ _ _ (λ _. Stands c id r) (Stands c id r) _ h'
          (λ row _.
            bound_customer-Stands c id r call.now call.user_id row row.stripe_customer_id _ h')

    reserved_session-Holds :
        (call : CheckoutCall C K) (price x : ℕ) (row : BillingCheckout) (s : Store)
        (Q : ℕ → Store → Type 0) (E : Store → Type 0)
        → E s
        → ((session : ℕ)
            → row.price_id ≡ price
            → P.create_session (session_request C K P call.user_id x price row) ≡ some session
            → Q session s)
        → Holds Q E (reserved_session C K P call price x row s)
    reserved_session-Holds call price x row s Q E h k = found-next _ _ s Q E _ h (λ current _.
        ensure-next _ _ s Q E _ h (λ _.
          ensure-next _ _ s Q E _ h
            (λ same. found-Holds _ _ s Q E h (λ session. k session (ground (arith, same))))))

    create_checkout-Stands :
        (c : BillingCustomer Snapshot) (id : ℕ) (r : BillingCheckout) (call : CheckoutCall C K)
        (s : Store)
        → call.now < r.expires_at
        → Stands c id r s
        → Holds (λ _. Stands c id r) (Stands c id r) (create_checkout C K P call s)
    unfolding create_checkout
    create_checkout-Stands c id r call s before h =
        ensure-next _ _ s (λ _. Stands c id r) (Stands c id r) _ h
          (λ _.
            found-next _ _ s (λ _. Stands c id r) (Stands c id r) _ h
              (λ price _.
                ensure-next _ _ s (λ _. Stands c id r) (Stands c id r) _ h
                  (λ _.
                    and_next-Holds (λ _. Stands c id r) (λ _. Stands c id r) (Stands c id r) _ _
                      (customer-Stands c id r call s h)
                      (λ x s1 h1.
                        let h2 : Stands c id r (record s1 {
                          checkouts =
                              (reserve_checkout K call.user_id P.livemode price call.checkout_key
                                call.now call.other_checkout s1.checkouts).1;
                        }) =
                          record {
                            customer_bound = h1.customer_bound;
                            reservation =
                                reserve_checkout-kept K user P.livemode r call.user_id P.livemode
                                  price call.checkout_key call.now call.other_checkout s1.checkouts
                                  before h1.reservation;
                          } in
                        found-next _ _ _ (λ _. Stands c id r) (Stands c id r) _ h2
                          (λ row _.
                            reserved_session-Holds call price x row _ (λ _. Stands c id r)
                              (Stands c id r) h2 (λ _ _ _. h2))))))

  module _ (P : Provider) where
    -- What a session that was created rests on.
    pub record IsRequested (user session : ℕ) (s : Store) : Type 0 where
      pub row : BillingCustomer Snapshot
      pub id : ℕ
      pub reservation : BillingCheckout
      pub stands : Stands P user row id reservation s
      pub created :
          P.create_session (session_request C K P user id reservation.price_id reservation)
          ≡ some session

    Bound : ℕ → ℕ → Store → Type 0
    Bound user id s = (c : BillingCustomer Snapshot) × IsBound C user P.livemode c id s.customers

    abbrev Any : Store → Type 0
    Any s = Unit

    bound_customer-Bound :
        (now user : ℕ) (row : BillingCustomer Snapshot) (o : Option ℕ) (s : Store)
        → row.stripe_customer_id ≡ o
        → find_row (is_customer user P.livemode) (C.rows s.customers) ≡ some row
        → Holds (Bound user) Any (bound_customer C K P now user row o s)
    unfolding Bound
    bound_customer-Bound now user row (some x) s e there =
        done-Holds (Bound user) Any x s (row, record { found = there; bound = e })
    bound_customer-Bound now user row none s e there = ensure-next _ _ s (Bound user) Any _ tt (λ _.
        found-Holds _ _ _ (Bound user) Any tt (λ id bound.
          bind_answer C user P.livemode (P.create_customer row.creation_key user) id s.customers
            bound))

    customer-Bound :
        (call : CheckoutCall C K) (s : Store)
        → Holds (Bound call.user_id) Any (customer C K P call s)
    unfolding customer
    customer-Bound call s = found-next _ _ _ (Bound call.user_id) Any _ tt (λ row answered.
        bound_customer-Bound call.now call.user_id row row.stripe_customer_id _ refl (
          reserve-found C call.user_id P.livemode call.customer_key call.now call.other_customer row
            s.customers answered))

    create_checkout-IsRequested :
        (call : CheckoutCall C K) (s : Store)
        → Holds (IsRequested call.user_id) Any (create_checkout C K P call s)
    unfolding create_checkout Bound
    create_checkout-IsRequested call s = ensure-next _ _ s (IsRequested call.user_id) Any _ tt (λ _.
        found-next _ _ s (IsRequested call.user_id) Any _ tt (λ price _.
          ensure-next _ _ s (IsRequested call.user_id) Any _ tt (λ _.
            and_next-Holds (Bound call.user_id) (IsRequested call.user_id) Any _ _
              (customer-Bound call s)
              (λ x s1 b. found-next _ _ _ (IsRequested call.user_id) Any _ tt (λ row answered.
                reserved_session-Holds P call.user_id call price x row _ (IsRequested call.user_id)
                  Any tt
                  (λ session price_kept created. record {
                    row = b.0;
                    id = x;
                    reservation = row;
                    stands = record {
                      customer_bound = b.1;
                      reservation =
                          reserve_checkout-reserved K call.user_id P.livemode row price
                            call.checkout_key call.now call.other_checkout s1.checkouts answered;
                    };
                    created = rw price_kept created;
                  }))))))

    abbrev pub run_checkouts : List (CheckoutCall C K) → Store → Store
    run_checkouts [] s = s
    run_checkouts (c ∷ cs) s = run_checkouts cs (store_of (create_checkout C K P c s))

    run_checkouts-Stands :
        (cs : List (CheckoutCall C K)) (user : ℕ) (c : BillingCustomer Snapshot) (id : ℕ)
        (r : BillingCheckout) (s : Store)
        → All (λ call. call.now < r.expires_at) cs
        → Stands P user c id r s
        → Stands P user c id r (run_checkouts cs s)
    run_checkouts-Stands [] user c id r s before h = h
    run_checkouts-Stands (call ∷ cs) user c id r s before h =
        run_checkouts-Stands cs user c id r _ before.1 (
          Holds-store (Stands P user c id r) _
            (create_checkout-Stands P user c id r call s before.0 h))

    same-session :
        (user x y : ℕ) (a b : Store) (h : IsRequested user x a) (k : IsRequested user y b)
        → Stands P user h.row h.id h.reservation b
        → y ≡ x
    same-session user x y a b h k stands =
        let row : h.row ≡ k.row = cc (stands.customer_bound.found, k.stands.customer_bound.found) in
        let id : h.id ≡ k.id =
          cc (stands.customer_bound.bound, k.stands.customer_bound.bound, row) in
        let reservation : h.reservation ≡ k.reservation =
          cc (stands.reservation, k.stands.reservation) in
        let asked : session_request C K P user h.id h.reservation.price_id h.reservation
            ≡ session_request C K P user k.id k.reservation.price_id k.reservation =
          ap₂ (λ i r. session_request C K P user i r.price_id r) id reservation in
        let answer : ◌≡◌ {A = Option ℕ} (some y) (some x) =
          sym k.created ∙ (ap P.create_session (sym asked) ∙ h.created) in
        cc answer

    -- Once a user was given a hosted checkout, every further checkout that the user is given before
    -- its reservation ends is the same session of the provider, whatever checkouts any users open
    -- in between and whichever plans they choose, where all run before the reservation ends.
    pub one_session :
        (first second : CheckoutCall C K) (between : List (CheckoutCall C K)) (x y : ℕ)
        (s s1 s2 : Store) (r : BillingCheckout)
        → create_checkout C K P first s ≡ done x s1
        → reserved K first.user_id P.livemode s1.checkouts ≡ some r
        → All (λ call. call.now < r.expires_at) between
        → second.now < r.expires_at
        → second.user_id ≡ first.user_id
        → create_checkout C K P second (run_checkouts between s1) ≡ done y s2
        → create_checkout C K P second (run_checkouts between s1) ≡ done x s2
    unfolding Holds
    one_session first second between x y s s1 s2 r e there before last own e2 =
        let h : IsRequested first.user_id x s1 =
          subst (Holds (IsRequested first.user_id) Any) e (create_checkout-IsRequested first s) in
        let k : IsRequested second.user_id y s2 =
          subst (Holds (IsRequested second.user_id) Any) e2
            (create_checkout-IsRequested second (run_checkouts between s1)) in
        let k' : IsRequested first.user_id y s2 = subst (λ u. IsRequested u y s2) own k in
        let same : r ≡ h.reservation = cc (there, h.stands.reservation) in
        let later : Stands P first.user_id h.row h.id h.reservation (run_checkouts between s1) =
          run_checkouts-Stands between first.user_id h.row h.id h.reservation s1
            (subst (λ z. All (λ call. call.now < z.expires_at) between) same before) h.stands in
        let last' : Stands P first.user_id h.row h.id h.reservation s2 =
          subst
            (Holds (λ _. Stands P first.user_id h.row h.id h.reservation)
              (Stands P first.user_id h.row h.id h.reservation))
            e2
            (create_checkout-Stands P first.user_id h.row h.id h.reservation second
              (run_checkouts between s1) (subst (λ z. second.now < z.expires_at) same last)
              later) in
        subst (λ z. create_checkout C K P second (run_checkouts between s1) ≡ done z s2)
          (same-session first.user_id x y s1 s2 h k' last') e2
