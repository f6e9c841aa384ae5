-- ===== src/Inbox/Isolation.antt =====
-- A user's calls change no other user's notifications, and never bring back a removed one.
use b4fast_api.Prelude.{
  ℕ, ◌≡◌, refl, Bool, true, false, ◌&&◌, not, List, ◌==◌, arith, is_none, if◌then◌else◌,
  update_rows, [], ◌∷◌, where_rows, any_row, Bool-cases, inl, inr, where-update,
}
use b4fast_api.Database.{Table}
use b4fast_api.Inbox.{
  is_key, InboxNotification, same_notification, is_listed, mark_read, erase, read, read_all,
  update_selected,
}

-- The rows that `user` does not own.
abbrev pub others : ℕ → List InboxNotification → List InboxNotification
others user = where_rows (λ r. not (r.user_id == user))

-- A call of a user: reading one notification, reading all up to an id, or a selection to read or remove.
pub data Call : Type 0 where
  read_one : ℕ → Call
  read_through : ℕ → Call
  select : List ℕ → Bool → Call

module _ (T : Table InboxNotification same_notification) where
  open T use {State, rows, update_law}

  abbrev pub run_call : ℕ → ℕ → Call → State → State
  run_call now user (read_one id) s = (read T now user id s).1
  run_call now user (read_through id) s = read_all T now user id s
  run_call now user (select ids remove) s = update_selected T now user ids remove s

  rows-read :
      (now user id : ℕ) (s : State)
      → rows ((read T now user id s).1) ≡ (
          if any_row (λ r. r.id == id && is_listed user r) (rows s)
          then update_rows
              (λ r. r.id == id && (r.user_id == user && is_none r.read_at))
              (mark_read now)
              (rows s)
          else rows s)
  unfolding read
  rows-read now user id s =
      elim (Bool-cases (any_row (λ r. r.id == id && is_listed user r) (rows s))) [
        | inl e ↦ rw (e, update_law) refl
        | inr e ↦ rw e refl
      ]

  -- A user's calls leave the rows of all other users as they were: reading one, reading all, and
  -- selecting rows to read or to remove.
  pub others-run_call :
      (now user : ℕ) (c : Call) (s : State)
      → others user (rows (run_call now user c s)) ≡ others user (rows s)
  unfolding read_all update_selected
  others-run_call now user (read_one id) s =
      elim (Bool-cases (any_row (λ r. r.id == id && is_listed user r) (rows s))) [
        | inl e ↦
            rw (rows-read now user id s, e)
              (where-update _ _ (mark_read now) (rows s) (λ r h. ground arith)
                (λ r h. ground arith))
        | inr e ↦ rw (rows-read now user id s, e) refl
      ]
  others-run_call now user (read_through id) s =
      rw update_law
        (where-update _ _ (mark_read now) (rows s) (λ r h. ground arith) (λ r h. ground arith))
  others-run_call now user (select ids true) s =
      rw update_law
        (where-update _ _ (erase now) (rows s) (λ r h. ground arith) (λ r h. ground arith))
  others-run_call now user (select ids false) s =
      rw update_law
        (where-update _ _ (mark_read now) (rows s) (λ r h. ground arith) (λ r h. ground arith))

  kept :
      (p : InboxNotification → Bool) (f : InboxNotification → InboxNotification) (d : ℕ)
      (xs : List InboxNotification)
      → ((r : InboxNotification) → (f r).delivery_key ≡ r.delivery_key)
      → any_row (λ r. is_key d r.delivery_key) (update_rows p f xs)
        ≡ any_row (λ r. is_key d r.delivery_key) xs
  kept p f d [] h = refl
  kept p f d (x ∷ xs) h = ground (arith, h x, kept p f d xs h)

  -- No call takes a delivery key away.
  pub key-run_call :
      (d now user : ℕ) (c : Call) (s : State)
      → any_row (λ r. is_key d r.delivery_key) (rows (run_call now user c s))
        ≡ any_row (λ r. is_key d r.delivery_key) (rows s)
  unfolding read_all update_selected
  key-run_call d now user (read_one id) s =
      elim (Bool-cases (any_row (λ r. r.id == id && is_listed user r) (rows s))) [
        | inl e ↦ rw (rows-read now user id s, e) (kept _ (mark_read now) d (rows s) (λ r. refl))
        | inr e ↦ rw (rows-read now user id s, e) refl
      ]
  key-run_call d now user (read_through id) s =
      rw update_law (kept _ (mark_read now) d (rows s) (λ r. refl))
  key-run_call d now user (select ids true) s =
      rw update_law (kept _ (erase now) d (rows s) (λ r. refl))
  key-run_call d now user (select ids false) s =
      rw update_law (kept _ (mark_read now) d (rows s) (λ r. refl))
