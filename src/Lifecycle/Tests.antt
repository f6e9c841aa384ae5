-- ===== src/Lifecycle/Tests.antt =====
-- Runs of the drain at concrete inputs.
use b4fast_api.Prelude.{
  ◌+◌, ◌≤◌, ◌≡◌, Bool, true, false, none, some, List, [], ◌∷◌, arith, All, length, refl,
}
use b4fast_api.Database.Instance.{list_table}
use b4fast_api.Outbox.{
  Notification, Kind, Delivery, same_id, get, claim, sweep, eligible, is_open, is_stale, expire,
  is_exhausted, give_up, take_lease, backoff, claim_key,
}
use b4fast_api.Outbox.WellFormed.{IsValid}
use b4fast_api.Lifecycle.{Settings, Tick, is_disabled, deliver_row, deliver_notifications}
use b4fast_api.Lifecycle.Reports.{deliver_row_lem, deliver_notifications-IsValid}

abbrev settings : Settings
settings = record { email_enabled = true; stripe_enabled = true }

abbrev waiting : Notification
waiting = record {
  id = 1;
  kind = Kind.plan_changed;
  payload = some 7;
  state = Delivery.pending;
  attempts = 0;
  available_at = 10;
  lease = none;
  leased_until = none;
  expires_at = 1000;
  error = none;
}

abbrev refused : Notification → Bool
refused r = false

abbrev ticks : List Tick
ticks = record { lease = 5; claimed_at = 20; finished_at = 25 } ∷ []

first_claim : (claim (list_table same_id) 5 20 (waiting ∷ [])).0 ≡ some (take_lease 5 20 waiting)
unfolding claim sweep eligible is_open is_stale expire is_exhausted give_up take_lease claim_key get
first_claim = refl

deliver_row_lem_example :
    (r : Notification) × (get (list_table same_id) 1 (
        deliver_row
          (list_table same_id)
          settings
          refused
          25
          (take_lease 5 20 waiting)
          (claim (list_table same_id) 5 20 (waiting ∷ [])).1)
      ≡ some r)
    × (r.state ≡ Delivery.pending)
    × (r.lease ≡ none)
    × (r.payload ≡ some 7)
    × (r.available_at ≡ 25 + backoff 1)
unfolding is_disabled take_lease
deliver_row_lem_example =
    deliver_row_lem (list_table same_id) settings refused 5 20 25 (waiting ∷ [])
      (take_lease 5 20 waiting) (ground arith) first_claim

deliver_notifications-IsValid_example :
    All IsValid (deliver_notifications (list_table same_id) settings refused ticks (waiting ∷ [])).1
    × (length (deliver_notifications (list_table same_id) settings refused ticks (waiting ∷ [])).0
        ≤ 1)
deliver_notifications-IsValid_example =
    deliver_notifications-IsValid (list_table same_id) settings refused ticks (waiting ∷ [])
      (ground arith) (ground arith)
