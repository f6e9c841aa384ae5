-- ===== src/Inquiries/Listing.antt =====
-- `InquiryRepository.list` and `detail`, with the name and e-mail of the requester.
use b4fast_api.Prelude.{
  ℕ, Bool, true, ◌&&◌, ◌||◌, Option, none, some, List, [], ◌∷◌, leb, ltb, ◌==◌, find_row,
  where_rows, count_rows, sort_by, page_rows, and_then,
}
use b4fast_api.Database.{Table}
use b4fast_api.Inbox.{InboxNotification, same_notification}
use b4fast_api.Accounts.{User}
use b4fast_api.Inquiries.{
  Inquiry, InquiryMessage, InquiryStatus, same_inquiry, same_message, same_status, Thread,
  get_inquiry, is_of,
}

pub record InquiryItem : Type 0 where
  pub inquiry : Inquiry
  pub requester_name : ℕ
  pub requester_email : ℕ

pub record InquiryPage : Type 0 where
  pub items : List InquiryItem
  pub total : ℕ
  pub page : ℕ
  pub page_size : ℕ

pub record InquiryDetail : Type 0 where
  pub head : InquiryItem
  pub messages : List InquiryMessage

-- `db.get(User, ...)`; `none` is the error of a requester that is not there
unfoldable pub inquiry_item : List User → Inquiry → Option InquiryItem
inquiry_item users row =
    and_then (find_row (λ u. u.id == row.user_id) users)
      (λ u. some (record { inquiry = row; requester_name = u.name; requester_email = u.email }))

abbrev pub inquiry_items : List User → List Inquiry → Option (List InquiryItem)
inquiry_items users [] = some []
inquiry_items users (r ∷ rs) =
    let rest = inquiry_items users rs in
    and_then (inquiry_item users r) (λ i. and_then rest (λ is. some (i ∷ is)))

abbrev pub has_status : Option InquiryStatus → Inquiry → Bool
has_status none r = true
has_status (some status) r = same_status r.status status

abbrev pub is_shown : ℕ → Bool → Option InquiryStatus → Inquiry → Bool
is_shown user admin status r = (admin || r.user_id == user) && has_status status r

-- `ORDER BY updated_at DESC, id DESC`
abbrev pub updated_later : Inquiry → Inquiry → Bool
updated_later a b = ltb b.updated_at a.updated_at || (a.updated_at == b.updated_at && leb b.id a.id)

abbrev pub message_first : InquiryMessage → InquiryMessage → Bool
message_first a b = leb a.id b.id

module _ (I : Table Inquiry same_inquiry) (M : Table InquiryMessage same_message)
    (N : Table InboxNotification same_notification) where
  unfoldable pub list_inquiries :
      List User → ℕ → Bool → ℕ → ℕ → Option InquiryStatus → Thread I M N → Option InquiryPage
  list_inquiries users user admin page page_size status s =
      and_then
        (inquiry_items users (
          page_rows page page_size
            (sort_by updated_later (where_rows (is_shown user admin status) (I.rows s.inquiries)))))
        (λ items. some (record {
          items = items;
          total = count_rows (is_shown user admin status) (I.rows s.inquiries);
          page = page;
          page_size = page_size;
        }))

  unfoldable pub detail : List User → ℕ → ℕ → Bool → Thread I M N → Option InquiryDetail
  detail users inquiry user admin s = and_then (get_inquiry I M N inquiry user admin s) (λ row.
      and_then (inquiry_item users row) (λ head. some (record {
        head = head;
        messages = sort_by message_first (where_rows (is_of I M N row.id) (M.rows s.messages));
      })))
