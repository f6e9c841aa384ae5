-- ===== src/Billing/Checkout.antt =====
-- src/backend/app/services/billing.py: `_customer`, `_subscriptions` and `create_checkout`. What
-- Stripe answers is a parameter: a creation with an idempotency key is a function of its request,
-- as the provider documents for repeated keys.
use b4fast_api.Prelude.{
  ℕ, ◌+◌, ◌-◌, ◌*◌, Bool, true, false, ◌&&◌, Option, none, some, List, [], ◌∷◌, ltb, leb, ◌==◌,
  if◌then◌else◌, where_rows,
}
use b4fast_api.Database.{Table}
use b4fast_api.Billing.{
  BillingCustomer, BillingCheckout, same_customer, same_checkout, reserve, bind, reserve_checkout,
}

pub data BillingErrorCode : Type 0 where
  billing_disabled billing_plan_unavailable billing_reconciliation_required
        billing_checkout_conflict :
      BillingErrorCode
  -- an `IntegrityError` or a `RuntimeError` that the code does not catch
  unhandled : BillingErrorCode

pub data SubscriptionStatus : Type 0 where
  canceled incomplete_expired other_status : SubscriptionStatus

abbrev pub is_current : SubscriptionStatus → Bool
is_current canceled = false
is_current incomplete_expired = false
is_current other_status = true

-- A page of a customer's subscriptions.
pub record Subscriptions : Type 0 where
  pub has_more : Bool
  pub data_items : List SubscriptionStatus

-- The parameters of a hosted checkout, with its idempotency key.
pub record SessionRequest : Type 0 where
  pub customer : ℕ
  pub user_id : ℕ
  pub price_id : ℕ
  pub expires_at : ℕ
  pub creation_key : ℕ

-- The settings and what Stripe answers.
pub record Provider : Type 0 where
  pub stripe_enabled : Bool
  -- whether `_configuration_errors` is empty
  pub is_valid : Bool
  pub livemode : Bool
  -- `_price_ids().get((plan, currency))`
  pub price_ids : ℕ → ℕ → Option ℕ
  -- whether `_price` accepts what the provider has for the price
  pub offers : ℕ → ℕ → ℕ → Bool
  -- the customer created for a creation key and a user
  pub create_customer : ℕ → ℕ → ℕ
  -- the session created for a request, where it is open and has a URL
  pub create_session : SessionRequest → Option ℕ

module _ {Snapshot : Type 0} (C : Table (BillingCustomer Snapshot) same_customer)
    (K : Table BillingCheckout same_checkout) where
  pub record BillingStore : Type 0 where
    pub customers : C.State
    pub checkouts : K.State

  pub data Step (A : Type 0) : Type 0 where
    done : A → BillingStore → Step A
    failed : BillingErrorCode → BillingStore → Step A

  unfoldable pub and_next : {A B : Type 0} → Step A → (A → BillingStore → Step B) → Step B
  and_next (done a s) f = f a s
  and_next (failed e s) f = failed e s

  unfoldable pub ensure : Bool → BillingErrorCode → BillingStore → Step (Unit {0})
  ensure true e s = done tt s
  ensure false e s = failed e s

  unfoldable pub found : {A : Type 0} → BillingErrorCode → Option A → BillingStore → Step A
  found e none s = failed e s
  found e (some a) s = done a s

  -- What a call draws and meets: the UUIDs, and the rows of requests that race with it.
  pub record CheckoutCall : Type 0 where
    pub now : ℕ
    pub user_id : ℕ
    pub plan : ℕ
    pub currency : ℕ
    pub customer_key : ℕ
    pub checkout_key : ℕ
    pub other_customer : Option (BillingCustomer Snapshot)
    pub other_checkout : Option BillingCheckout
    -- what the provider lists for the customer
    pub subscriptions : Subscriptions

  module _ (P : Provider) where
    abbrev pub is_enabled : Bool
    is_enabled = P.stripe_enabled && P.is_valid

    -- the customer that the row has, or a new one that is bound to it, for 23 hours
    abbrev pub bound_customer : ℕ → ℕ → BillingCustomer Snapshot → Option ℕ → BillingStore → Step ℕ
    bound_customer now user row (some id) s = done id s
    bound_customer now user row none s =
        and_next (ensure (ltb now (row.created_at + 82800)) billing_reconciliation_required s)
          (λ _ s1.
            let (o, customers) =
              bind C user P.livemode (P.create_customer row.creation_key user) s1.customers in
            found unhandled o (record s1 { customers = customers }))

    -- `_customer`
    unfoldable pub customer : CheckoutCall → BillingStore → Step ℕ
    customer c s =
        let (o, customers) =
          reserve C c.user_id P.livemode c.customer_key c.now c.other_customer s.customers in
        and_next (found unhandled o (record s { customers = customers }))
          (λ row s1. bound_customer c.now c.user_id row row.stripe_customer_id s1)

    -- `_subscriptions`; `none` is an incomplete page
    abbrev pub current_subscriptions : Subscriptions → Option (List SubscriptionStatus)
    current_subscriptions page =
        if page.has_more then none else some (where_rows is_current page.data_items)

    abbrev pub is_empty : List SubscriptionStatus → Bool
    is_empty [] = true
    is_empty (x ∷ xs) = false

    abbrev pub session_request : ℕ → ℕ → ℕ → BillingCheckout → SessionRequest
    session_request user id price reservation = record {
      customer = id;
      user_id = user;
      price_id = price;
      expires_at = reservation.expires_at;
      creation_key = reservation.creation_key;
    }

    -- `create_checkout` after the reservation
    abbrev pub reserved_session : CheckoutCall → ℕ → ℕ → BillingCheckout → BillingStore → Step ℕ
    reserved_session c price id reservation s =
        and_next (found billing_reconciliation_required (current_subscriptions c.subscriptions) s)
          (λ current s1. and_next (ensure (is_empty current) billing_checkout_conflict s1) (λ _ s2.
            and_next
              (ensure
                (reservation.price_id == price && leb (31 * 60) (reservation.expires_at - c.now))
                billing_checkout_conflict s2)
              (λ _ s3.
                found billing_checkout_conflict
                  (P.create_session (session_request c.user_id id price reservation)) s3)))

    abbrev pub reserve_session : CheckoutCall → ℕ → ℕ → BillingStore → Step ℕ
    reserve_session c price id s =
        let (o, checkouts) =
          reserve_checkout K c.user_id P.livemode price c.checkout_key c.now c.other_checkout
            s.checkouts in
        and_next (found unhandled o (record s { checkouts = checkouts }))
          (λ reservation s1. reserved_session c price id reservation s1)

    unfoldable pub create_checkout : CheckoutCall → BillingStore → Step ℕ
    unfolding customer
    create_checkout c s = and_next (ensure is_enabled billing_disabled s) (λ _ s1.
        and_next (found billing_plan_unavailable (P.price_ids c.plan c.currency) s1) (λ price s2.
          and_next (ensure (P.offers c.plan c.currency price) billing_plan_unavailable s2)
            (λ _ s3. and_next (customer c s3) (λ id s4. reserve_session c price id s4))))
