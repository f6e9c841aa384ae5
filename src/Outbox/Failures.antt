-- ===== src/Outbox/Failures.antt =====
-- `Notifications.failures`: what operators see of the rows that were not delivered.
use b4fast_api.Prelude.{
  ℕ, Bool, true, false, ◌&&◌, ◌||◌, Option, none, some, List, leb, ltb, ◌==◌, if◌then◌else◌,
  where_rows, sort_by, take, map,
}
use b4fast_api.Database.{Table}
use b4fast_api.Outbox.{Notification, Kind, Delivery, Failure, same_id}

pub record FailureItem : Type 0 where
  pub id : ℕ
  pub kind : Kind
  pub state : Delivery
  pub attempts : ℕ
  pub error : Option Failure
  pub expires_at : ℕ

abbrev pub failure_item : Notification → FailureItem
failure_item r = record {
  id = r.id;
  kind = r.kind;
  state = r.state;
  attempts = r.attempts;
  error = r.error;
  expires_at = r.expires_at;
}

abbrev pub is_undelivered : Delivery → Bool
is_undelivered Delivery.failed = true
is_undelivered Delivery.expired = true
is_undelivered _ = false

-- `ORDER BY expires_at DESC, id`
abbrev pub expires_later : Notification → Notification → Bool
expires_later a b = ltb b.expires_at a.expires_at || (a.expires_at == b.expires_at && leb a.id b.id)

module _ (T : Table Notification same_id) where
  open T use {State, rows}

  -- `none` is the `ValueError` of a limit out of range.
  unfoldable pub failures : ℕ → State → Option (List FailureItem)
  failures limit s =
      if leb 1 limit && leb limit 100
      then some (
          map failure_item (
            take limit (sort_by expires_later (where_rows (λ r. is_undelivered r.state) (rows s)))))
      else none
