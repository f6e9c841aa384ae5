-- ===== src/Inbox/Listing.antt =====
-- `InboxRepository.list`: a page of a user's notifications, newest first.
use b4fast_api.Prelude.{
  ℕ, Bool, ◌&&◌, ◌||◌, not, List, leb, is_none, where_rows, count_rows, sort_by, page_rows, map,
}
use b4fast_api.Database.{Table}
use b4fast_api.Inbox.{
  InboxNotification, InboxItem, InboxSummary, same_notification, is_listed, item, summary,
}

pub record InboxPage : Type 0 where
  pub items : List InboxItem
  pub total : ℕ
  pub page : ℕ
  pub page_size : ℕ
  pub summary : InboxSummary

abbrev pub is_wanted : ℕ → Bool → InboxNotification → Bool
is_wanted user unread_only r = is_listed user r && (not unread_only || is_none r.read_at)

abbrev pub newer : InboxNotification → InboxNotification → Bool
newer a b = leb b.id a.id

module _ (T : Table InboxNotification same_notification) where
  open T use {State, rows}

  unfoldable pub list_page : ℕ → ℕ → ℕ → Bool → State → InboxPage
  list_page user page page_size unread_only s = record {
    items = map item (
        page_rows page page_size
          (sort_by newer (where_rows (is_wanted user unread_only) (rows s))));
    total = count_rows (is_wanted user unread_only) (rows s);
    page = page;
    page_size = page_size;
    summary = summary T user s;
  }
