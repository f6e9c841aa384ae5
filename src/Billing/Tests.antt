-- ===== src/Billing/Tests.antt =====
-- Runs of the checkouts at concrete inputs.
use b4fast_api.Prelude.{ℕ, ◌+◌, ◌*◌, ◌≡◌, refl, true, false, none, some, List, [], ◌∷◌, arith}
use b4fast_api.Database.Instance.{list_table}
use b4fast_api.Billing.{
  BillingCheckout, same_customer, same_checkout, get, reserve, bind, reserve_checkout,
}
use b4fast_api.Billing.Checkout.{
  Provider, BillingStore, done, failed, billing_checkout_conflict, and_next, ensure, found,
  customer, CheckoutCall, create_checkout,
}
use b4fast_api.Billing.Reserved.{reserved}
use b4fast_api.Billing.Session.{store_of, run_checkouts, one_session}

-- A snapshot of a subscription is a number here.
abbrev provider : Provider
provider = record {
  stripe_enabled = true;
  is_valid = true;
  livemode = false;
  price_ids = λ plan currency. some (plan * 10 + currency);
  offers = λ plan currency price. true;
  create_customer = λ key user. key * 100 + user;
  create_session = λ r. some (r.customer + r.creation_key * 10000 + r.price_id);
}

abbrev checkout_call :
    ℕ → ℕ → ℕ → CheckoutCall (list_table (same_customer {Snapshot = ℕ})) (list_table same_checkout)
checkout_call now user key = record {
  now = now;
  user_id = user;
  plan = 1;
  currency = 2;
  customer_key = key;
  checkout_key = key + 50;
  other_customer = none;
  other_checkout = none;
  subscriptions = record { has_more = false; data_items = [] };
}

abbrev store : BillingStore (list_table (same_customer {Snapshot = ℕ})) (list_table same_checkout)
store = record { customers = []; checkouts = [] }

abbrev first_store :
    BillingStore (list_table (same_customer {Snapshot = ℕ})) (list_table same_checkout)
first_store = store_of (list_table same_customer) (list_table same_checkout) (
    create_checkout (list_table same_customer) (list_table same_checkout) provider
      (checkout_call 100 1 7) store)

abbrev others :
    List (CheckoutCall (list_table (same_customer {Snapshot = ℕ})) (list_table same_checkout))
others = checkout_call 150 2 8 ∷ record (checkout_call 160 1 9) { plan = 2 } ∷ []

abbrev last_store :
    BillingStore (list_table (same_customer {Snapshot = ℕ})) (list_table same_checkout)
last_store = store_of (list_table same_customer) (list_table same_checkout) (
    create_checkout (list_table same_customer) (list_table same_checkout) provider
      (checkout_call 200 1 10)
      (run_checkouts (list_table same_customer) (list_table same_checkout) provider others
        first_store))

abbrev reservation : BillingCheckout
reservation = record {
  user_id = 1;
  livemode = false;
  creation_key = 57;
  price_id = 12;
  expires_at = 3700;
}

first_session :
    create_checkout
      (list_table same_customer)
      (list_table same_checkout)
      provider
      (checkout_call 100 1 7)
      store
    ≡ done 570713 first_store
unfolding create_checkout customer and_next ensure found reserve get bind reserve_checkout
first_session = refl

-- The user asks for another plan: the reservation of the first stays, and there is no session.
other_plan_refused :
    create_checkout
      (list_table same_customer)
      (list_table same_checkout)
      provider
      (record (checkout_call 160 1 9) { plan = 2 })
      first_store
    ≡ failed billing_checkout_conflict first_store
unfolding create_checkout customer and_next ensure found reserve get bind reserve_checkout
other_plan_refused = refl

first_reserved :
    reserved (list_table same_checkout) 1 false first_store.checkouts ≡ some reservation
unfolding create_checkout customer and_next ensure found reserve get bind reserve_checkout
first_reserved = refl

second_session :
    create_checkout
      (list_table same_customer)
      (list_table same_checkout)
      provider
      (checkout_call 200 1 10)
      (run_checkouts
        (list_table same_customer)
        (list_table same_checkout)
        provider
        others
        first_store)
    ≡ done 570713 last_store
unfolding create_checkout customer and_next ensure found reserve get bind reserve_checkout
second_session = refl

one_session_example :
    create_checkout
      (list_table same_customer)
      (list_table same_checkout)
      provider
      (checkout_call 200 1 10)
      (run_checkouts
        (list_table same_customer)
        (list_table same_checkout)
        provider
        others
        first_store)
    ≡ done 570713 last_store
one_session_example =
    one_session (list_table same_customer) (list_table same_checkout) provider
      (checkout_call 100 1 7) (checkout_call 200 1 10) others 570713 570713 store first_store
      last_store reservation first_session first_reserved (omega arith, (omega arith, tt))
      (omega arith) refl second_session
