-- ===== src/Inbox/Tests.antt =====
-- Runs of the inbox at concrete inputs.
use b4fast_api.Prelude.{ℕ, ◌≡◌, ◌≤◌, ◌⊎◌, refl, true, List, [], ◌∷◌, ◌*◌, ◌+◌, count_rows}
use b4fast_api.Database.{Table}
use b4fast_api.Database.Instance.{list_table}
use b4fast_api.Inbox.{
  InboxNotification, same_notification, keyed_row, deliver, summary, read_all, repeated, raised,
}
use b4fast_api.Inbox.Isolation.{select, others, run_call, others-run_call}
use b4fast_api.Inbox.Reading.{is_unread_after, summary-read_all}
use b4fast_api.Inbox.Delivery.{deliver_once, after, run_calls}

abbrev inbox : Table InboxNotification same_notification
inbox = list_table same_notification

abbrev pair : ℕ → ℕ → ℕ
pair user key = user * 1000 + key

abbrev rows : List InboxNotification
rows =
    keyed_row 1 10 7001 7 3 [] [] []
    ∷ keyed_row 2 20 7002 7 3 [] [] []
    ∷ keyed_row 3 30 8001 8 3 [] [] []
    ∷ []

others-run_call_example :
    others 7 (run_call inbox 50 7 (select (1 ∷ 3 ∷ []) true) rows) ≡ others 7 rows
others-run_call_example = others-run_call inbox 50 7 (select (1 ∷ 3 ∷ []) true) rows

summary-read_all_example :
    ((summary inbox 7 (read_all inbox 50 7 1 rows)).unread_count
      ≡ count_rows (is_unread_after 7 1) rows)
    × ((summary inbox 7 (read_all inbox 50 7 1 rows)).latest_id ≡ (summary inbox 7 rows).latest_id)
    × ((summary inbox 7 rows).latest_id ≤ 1
        → (summary inbox 7 (read_all inbox 50 7 1 rows)).unread_count ≡ 0)
summary-read_all_example = summary-read_all inbox 50 7 1 rows

deliver_once_example :
    (deliver inbox pair 4 60 3 7 1 [] [] [] rows ≡ raised)
    ⊎ (deliver inbox pair 5 70 3 7 1 [] [] [] (
          run_calls inbox
            ((65, 7, select (4 ∷ []) true) ∷ [])
            (after inbox rows (deliver inbox pair 4 60 3 7 1 [] [] [] rows)))
        ≡ repeated)
deliver_once_example =
    deliver_once inbox pair 3 7 rows 4 60 1 [] [] [] ((65, 7, select (4 ∷ []) true) ∷ []) 5 70 1 []
      [] []

unread_after_one : (summary inbox 7 (read_all inbox 50 7 1 rows)).unread_count ≡ 1
unfolding summary read_all
unread_after_one = refl
