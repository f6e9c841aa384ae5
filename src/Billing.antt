-- ===== src/Billing.antt =====
-- src/backend/app/models/billing.py: customer identities and the reservations of checkouts. The
-- provider owns the state of billing; a snapshot of it is only stored and returned. Keys, prices
-- and the provider's ids are numbers.
pub mod Checkout
pub mod Reserved
pub mod Session
mod Tests
use b4fast_api.Prelude.{
  ℕ, ◌+◌, Bool, true, false, ◌&&◌, ◌||◌, Option, none, some, List, [], ◌∷◌, ltb, leb, ◌==◌, is_none,
  is_some, if◌then◌else◌, find_row, where_rows, sort_by, take, map, and_then,
}
use b4fast_api.Database.{Table}

abbrev pub same_mode : Bool → Bool → Bool
same_mode true true = true
same_mode false false = true
same_mode _ _ = false

pub record BillingCustomer (Snapshot : Type 0) : Type 0 where
  pub user_id : ℕ
  pub livemode : Bool
  pub creation_key : ℕ
  pub stripe_customer_id : Option ℕ
  pub stripe_subscription_id : Option ℕ
  pub subscription_snapshot : Option Snapshot
  pub subscription_synced_at : Option ℕ
  pub created_at : ℕ

pub record BillingCheckout : Type 0 where
  pub user_id : ℕ
  pub livemode : Bool
  pub creation_key : ℕ
  pub price_id : ℕ
  pub expires_at : ℕ

abbrev pub both_equal : Option ℕ → Option ℕ → Bool
both_equal (some a) (some b) = a == b
both_equal _ _ = false

abbrev pub is_customer : {Snapshot : Type 0} → ℕ → Bool → BillingCustomer Snapshot → Bool
is_customer user livemode c = c.user_id == user && same_mode c.livemode livemode

abbrev pub is_checkout : ℕ → Bool → BillingCheckout → Bool
is_checkout user livemode c = c.user_id == user && same_mode c.livemode livemode

-- the primary key and the unique columns
abbrev pub same_customer :
    {Snapshot : Type 0} → BillingCustomer Snapshot → BillingCustomer Snapshot → Bool
same_customer a b =
    is_customer a.user_id a.livemode b
    || (a.creation_key == b.creation_key || both_equal a.stripe_customer_id b.stripe_customer_id)

-- the primary key
abbrev pub same_checkout : BillingCheckout → BillingCheckout → Bool
same_checkout a b = is_checkout a.user_id a.livemode b

module _ {Row : Type 0} {conflict : Row → Row → Bool} (T : Table Row conflict) where
  abbrev pub or_old : T.State → Option T.State → T.State
  or_old s none = s
  or_old s (some t) = t

  -- What another request inserts between a read and an insertion.
  abbrev pub raced : Option Row → T.State → T.State
  raced none s = s
  raced (some r) s = or_old s (T.insert r s)

  -- The insertion of a row that was not there; where it is refused, the row of the winner, and
  -- `none` is the `IntegrityError` that is raised again.
  abbrev pub insert_or_get : (Row → Bool) → Row → T.State → Option T.State → Option Row × T.State
  insert_or_get p r s none = (find_row p (T.rows s), s)
  insert_or_get p r s (some t) = (some r, t)

module _ {Snapshot : Type 0} (T : Table (BillingCustomer Snapshot) same_customer) where
  open T use {State, rows, update, insert}

  unfoldable pub get : ℕ → Bool → State → Option (BillingCustomer Snapshot)
  get user livemode s = find_row (is_customer user livemode) (rows s)

  abbrev pub new_customer : ℕ → Bool → ℕ → ℕ → BillingCustomer Snapshot
  new_customer user livemode key now = record {
    user_id = user;
    livemode = livemode;
    creation_key = key;
    stripe_customer_id = none;
    stripe_subscription_id = none;
    subscription_snapshot = none;
    subscription_synced_at = none;
    created_at = now;
  }

  abbrev pub reserve_found :
      ℕ
      → Bool
      → ℕ
      → ℕ
      → Option (BillingCustomer Snapshot)
      → State
      → Option (BillingCustomer Snapshot)
      → Option (BillingCustomer Snapshot) × State
  reserve_found user livemode key now other s (some existing) = (some existing, s)
  reserve_found user livemode key now other s none =
      let u = raced T other s in
      insert_or_get T (is_customer user livemode) (new_customer user livemode key now) u
        (insert (new_customer user livemode key now) u)

  -- `key` is the UUID that is drawn, and `other` the row of a request that races with this one.
  unfoldable pub reserve :
      ℕ
      → Bool
      → ℕ
      → ℕ
      → Option (BillingCustomer Snapshot)
      → State
      → Option (BillingCustomer Snapshot) × State
  unfolding get
  reserve user livemode key now other s =
      reserve_found user livemode key now other s (get user livemode s)

  abbrev pub is_unbound : ℕ → Bool → BillingCustomer Snapshot → Bool
  is_unbound user livemode c = is_customer user livemode c && is_none c.stripe_customer_id

  -- `none` is the `RuntimeError`.
  unfoldable pub bind : ℕ → Bool → ℕ → State → Option ℕ × State
  bind user livemode customer s =
      let s' =
        update (is_unbound user livemode) (λ c. record c { stripe_customer_id = some customer })
          s in
      (and_then (find_row (is_customer user livemode) (rows s')) (λ c. c.stripe_customer_id), s')

  -- `save_subscription_snapshot` of the row that `locked` yields, with its commit
  unfoldable pub save_subscription_snapshot : ℕ → Bool → Snapshot → Option ℕ → ℕ → State → State
  save_subscription_snapshot user livemode snapshot subscription now s =
      update (is_customer user livemode)
        (λ c. record c {
          stripe_subscription_id = subscription;
          subscription_snapshot = some snapshot;
          subscription_synced_at = some now;
        })
        s

  abbrev pub synced_before : Option ℕ → ℕ → Bool
  synced_before none cutoff = true
  synced_before (some t) cutoff = ltb t cutoff

  abbrev pub needs_sync : Bool → ℕ → BillingCustomer Snapshot → Bool
  needs_sync livemode cutoff c =
      same_mode c.livemode livemode
      && (is_some c.stripe_customer_id && synced_before c.subscription_synced_at cutoff)

  -- `asc().nulls_first()`, then the user
  abbrev pub synced_earlier : Option ℕ → Option ℕ → Bool → Bool
  synced_earlier none none ties = ties
  synced_earlier none (some b) ties = true
  synced_earlier (some a) none ties = false
  synced_earlier (some a) (some b) ties = if a == b then ties else ltb a b

  abbrev pub syncs_first : BillingCustomer Snapshot → BillingCustomer Snapshot → Bool
  syncs_first a b =
      synced_earlier a.subscription_synced_at b.subscription_synced_at (leb a.user_id b.user_id)

  unfoldable pub list_reconciliation_user_ids : Bool → ℕ → ℕ → State → List ℕ
  list_reconciliation_user_ids livemode cutoff limit s =
      map (λ c. c.user_id)
        (take limit (sort_by syncs_first (where_rows (needs_sync livemode cutoff) (rows s))))

module _ (T : Table BillingCheckout same_checkout) where
  open T use {State, rows, update, insert}

  abbrev pub new_checkout : ℕ → Bool → ℕ → ℕ → ℕ → BillingCheckout
  new_checkout user livemode price key now = record {
    user_id = user;
    livemode = livemode;
    creation_key = key;
    price_id = price;
    expires_at = now + 3600;
  }

  abbrev pub renew : ℕ → ℕ → ℕ → BillingCheckout → BillingCheckout
  renew price key now c = record c { creation_key = key; price_id = price; expires_at = now + 3600 }

  abbrev pub is_over : ℕ → Bool → ℕ → BillingCheckout → Bool
  is_over user livemode now c = is_checkout user livemode c && leb c.expires_at now

  abbrev pub checkout_found :
      ℕ
      → Bool
      → ℕ
      → ℕ
      → ℕ
      → Option BillingCheckout
      → State
      → Option BillingCheckout
      → Option BillingCheckout × State
  checkout_found user livemode price key now other s (some row) = (some row, s)
  checkout_found user livemode price key now other s none =
      let u = raced T other s in
      insert_or_get T (is_checkout user livemode) (new_checkout user livemode price key now) u
        (insert (new_checkout user livemode price key now) u)

  -- `BillingCheckouts.reserve`: an attempt that is over is replaced, another one stays.
  unfoldable pub reserve_checkout :
      ℕ → Bool → ℕ → ℕ → ℕ → Option BillingCheckout → State → Option BillingCheckout × State
  reserve_checkout user livemode price key now other s =
      let s' = update (is_over user livemode now) (renew price key now) s in
      checkout_found user livemode price key now other s'
        (find_row (is_checkout user livemode) (rows s'))
