-- ===== src/Inbox/Reading.antt =====
-- What reading and removing do to a user's inbox.
use b4fast_api.Prelude.{
  ℕ, ◌≡◌, ◌≤◌, refl, Bool, ◌&&◌, List, [], ◌∷◌, leb, ltb, is_none, arith, where_rows, update_rows,
  count_rows,
}
use b4fast_api.Database.{Table}
use b4fast_api.Inbox.{
  InboxNotification, same_notification, is_listed, is_unread, mark_read, max_id, read_all, summary,
}

-- The unread rows of a user past an id.
abbrev pub is_unread_after : ℕ → ℕ → InboxNotification → Bool
is_unread_after user through_id r = is_unread user r && ltb through_id r.id

count-read_all :
    (now user through_id : ℕ) (xs : List InboxNotification)
    → count_rows (is_unread user) (
        update_rows
          (λ r. is_listed user r && (leb r.id through_id && is_none r.read_at))
          (mark_read now)
          xs)
      ≡ count_rows (is_unread_after user through_id) xs
count-read_all now user through_id [] = refl
count-read_all now user through_id (x ∷ xs) = ground (arith, count-read_all now user through_id xs)

listed-read_all :
    (now user through_id : ℕ) (xs : List InboxNotification)
    → max_id (
        where_rows (is_listed user) (
          update_rows
            (λ r. is_listed user r && (leb r.id through_id && is_none r.read_at))
            (mark_read now)
            xs))
      ≡ max_id (where_rows (is_listed user) xs)
listed-read_all now user through_id [] = refl
listed-read_all now user through_id (x ∷ xs) =
    ground (arith, listed-read_all now user through_id xs)

none_after_latest :
    (user : ℕ) (xs : List InboxNotification) (through_id : ℕ)
    → max_id (where_rows (is_listed user) xs) ≤ through_id
    → count_rows (is_unread_after user through_id) xs ≡ 0
none_after_latest user [] through_id h = refl
none_after_latest user (x ∷ xs) through_id h = ground (arith, none_after_latest user xs through_id)

module _ (T : Table InboxNotification same_notification) where
  open T use {State, rows, update_law, insert, insert_refused, insert_accepted}

  -- Reading all up to an id leaves unread exactly the unread rows past it and keeps the latest id
  -- of the summary; up to the latest id or beyond, nothing is left unread.
  pub summary-read_all :
      (now user through_id : ℕ) (s : State)
      → ((summary T user (read_all T now user through_id s)).unread_count
          ≡ count_rows (is_unread_after user through_id) (rows s))
        × ((summary T user (read_all T now user through_id s)).latest_id
            ≡ (summary T user s).latest_id)
        × ((summary T user s).latest_id ≤ through_id
            → (summary T user (read_all T now user through_id s)).unread_count ≡ 0)
  unfolding summary read_all
  summary-read_all now user through_id s = (
    rw update_law (count-read_all now user through_id (rows s)),
    rw update_law (listed-read_all now user through_id (rows s)),
    λ h.
        rw (update_law, count-read_all now user through_id (rows s))
          (none_after_latest user (rows s) through_id h),
  )
