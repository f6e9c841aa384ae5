-- ===== src/Lifecycle.antt =====
-- src/backend/app/services/notifications.py: a lifecycle event becomes an encrypted row of the outbox,
-- and a worker drains the outbox. The hash, the cipher and the mail transport are parameters.
pub mod Reports
mod Tests
use b4fast_api.Prelude.{
  ℕ, ◌+◌, ◌≡◌, Bool, true, false, not, ◌&&◌, ◌||◌, Option, none, some, List, [], ◌∷◌, ltb,
  if◌then◌else◌,
}
use b4fast_api.Database.{Table}
use b4fast_api.Outbox.{
  Notification, Kind, Delivery, delivery_failed, account_deleted, max_delivery_attempts, same_id,
  exists, add, claim, finish,
}

-- The payload: `name` and `plan` are keys that the dictionary may lack.
pub record Recipient : Type 0 where
  pub email : ℕ
  pub language : ℕ
  pub name : Option ℕ
  pub plan : Option ℕ

-- SHA-256 of the standard library, on texts and their digests, and the encryption of Fernet of
-- `cryptography` under the one key that `cipher` derives.
pub record Crypto : Type 0 where
  pub sha256 : ℕ → ℕ
  pub encrypt : Recipient → ℕ

pub record Settings : Type 0 where
  pub email_enabled : Bool
  pub stripe_enabled : Bool

abbrev pub is_account_deleted : Kind → Bool
is_account_deleted account_deleted = true
is_account_deleted _ = false

unfoldable pub recipient : Kind → ℕ → ℕ → ℕ → ℕ → Recipient
recipient kind email name language plan =
    if is_account_deleted kind
    then record { email = email; language = language; name = none; plan = none }
    else record { email = email; language = language; name = some name; plan = some plan }

unfoldable pub notification_row : Crypto → ℕ → ℕ → Kind → ℕ → ℕ → ℕ → ℕ → Notification
notification_row c now key kind email name language plan = record {
  id = c.sha256 key;
  kind = kind;
  payload = some (c.encrypt (recipient kind email name language plan));
  state = Delivery.pending;
  attempts = 0;
  available_at = now;
  lease = none;
  leased_until = none;
  expires_at = now + 259200;
  error = none;
}

-- What one round of the drain loop reads from outside.
pub record Tick : Type 0 where
  pub lease : ℕ
  pub claimed_at : ℕ
  pub finished_at : ℕ

unfoldable pub is_disabled : Settings → Notification → Bool
is_disabled settings row =
    not settings.email_enabled || (not (is_account_deleted row.kind) && not settings.stripe_enabled)

module _ (T : Table Notification same_id) where
  open T use {State}

  abbrev stored_previous : Crypto → Option ℕ → State → Bool
  stored_previous c none s = false
  stored_previous c (some key) s = exists T (c.sha256 key) s

  -- `None` is an `IntegrityError` that is raised again; the wake-up at the end changes no state.
  unfoldable pub queue_notification :
      Crypto → Settings → ℕ → Option ℕ → Notification → State → Option State
  queue_notification c settings key previous_key row s =
      if not settings.email_enabled
      then some s
      else if stored_previous c previous_key s
      then some s
      else add T row s

  -- The row is claimed; `send` is whether decryption and the mail transport succeed on it.
  unfoldable pub deliver_row : Settings → (Notification → Bool) → ℕ → Notification → State → State
  deliver_row settings send now row s =
      if is_disabled settings row
      then finish T row Delivery.skipped none now s
      else if send row
      then finish T row Delivery.sent none now s
      else finish T row
          (if ltb row.attempts max_delivery_attempts then Delivery.pending else Delivery.failed)
          (some delivery_failed) now s

  -- The loop over `range(10)`, a tick for each round; it ends when nothing is claimed. The list
  -- is the rows handled, in order.
  unfoldable pub deliver_notifications :
      Settings → (Notification → Bool) → List Tick → State → List Notification × State
  deliver_notifications settings send [] s = ([], s)
  deliver_notifications settings send (t ∷ ticks) s =
      let (claimed, s') = claim T t.lease t.claimed_at s in
      elim claimed [
        | none ↦ ([], s')
        | some row ↦
            let (rest, end) =
              deliver_notifications settings send ticks
                (deliver_row settings send t.finished_at row s') in
            (row ∷ rest, end)
      ]
