-- ===== src/Inquiries.antt =====
-- src/backend/app/models/inquiry.py: the support conversations. The texts of the notifications are
-- made by the caller's functions; a status change and a reply lock their row, so that each call is
-- one step.
pub mod Replies
pub mod Listing
mod Tests
use b4fast_api.Prelude.{
  ℕ, ◌+◌, ◌≡◌, Bool, true, false, ◌&&◌, ◌||◌, not, Option, none, some, List, [], ◌∷◌, leb, ◌==◌,
  if◌then◌else◌, find_row, any_row, count_rows, where_rows, and_then,
}
use b4fast_api.Database.{Table}
use b4fast_api.Inbox.{InboxNotification, same_notification, add_inbox_notification}
use b4fast_api.Accounts.{User, is_active_admin}

pub data InquiryStatus : Type 0 where
  open_status : InquiryStatus
  in_progress : InquiryStatus
  closed : InquiryStatus

abbrev pub same_status : InquiryStatus → InquiryStatus → Bool
same_status open_status open_status = true
same_status in_progress in_progress = true
same_status closed closed = true
same_status _ _ = false

pub record Inquiry : Type 0 where
  pub id : ℕ
  pub user_id : ℕ
  pub request_id : ℕ
  pub subject : List ℕ
  pub status : InquiryStatus
  pub created_at : ℕ
  pub updated_at : ℕ

pub record InquiryMessage : Type 0 where
  pub id : ℕ
  pub inquiry_id : ℕ
  pub author_id : Option ℕ
  pub is_by_admin : Bool
  pub request_id : ℕ
  pub body : ℕ
  pub created_at : ℕ

-- the primary key and `uq_inquiry_request`
abbrev pub same_inquiry : Inquiry → Inquiry → Bool
same_inquiry a b = a.id == b.id || (a.user_id == b.user_id && a.request_id == b.request_id)

-- the primary key and `uq_inquiry_message_request`
abbrev pub same_message : InquiryMessage → InquiryMessage → Bool
same_message a b = a.id == b.id || (a.inquiry_id == b.inquiry_id && a.request_id == b.request_id)

pub data InquiryError : Type 0 where
  not_found : InquiryError
  thread_closed : InquiryError
  thread_full : InquiryError
  -- an exception of the database or of `add_inbox_notification`, which rolls back
  uncaught : InquiryError

pub data Response (A S : Type 0) : Type 0 where
  done : A → S → Response A S
  raised : InquiryError → Response A S

-- The kind of a notification and its link, `/settings?...` for the owner and `/admin/...` else.
pub record Notice : Type 0 where
  pub kind : ℕ
  pub title : List ℕ
  pub owner_path : ℕ → List ℕ
  pub admin_path : ℕ → List ℕ

-- Adding to a set.
abbrev pub with_member : ℕ → List ℕ → List ℕ
with_member x xs = if any_row (λ y. y == x) xs then xs else x ∷ xs

abbrev pub ids_of : List User → List ℕ
ids_of [] = []
ids_of (u ∷ us) = u.id ∷ ids_of us

unfoldable pub recipients : List User → Inquiry → Bool → Bool → List ℕ
recipients users row admins owner =
    let first = if admins then ids_of (where_rows is_active_admin users) else [] in
    if owner then with_member row.user_id first else first

pub record Thread (I : Table Inquiry same_inquiry) (M : Table InquiryMessage same_message)
    (N : Table InboxNotification same_notification) : Type 0 where
  pub inquiries : I.State
  pub messages : M.State
  pub inbox : N.State

module _ (I : Table Inquiry same_inquiry) (M : Table InquiryMessage same_message)
    (N : Table InboxNotification same_notification) where
  -- The notifications of a call, with fresh ids from `id` on.
  abbrev pub notify_all : Notice → ℕ → ℕ → Inquiry → List ℕ → N.State → Option N.State
  notify_all notice id now row [] s = some s
  notify_all notice id now row (user ∷ users) s =
      and_then
        (add_inbox_notification id now user notice.kind notice.title row.subject (
          some
            (if user == row.user_id then notice.owner_path row.id else notice.admin_path row.id)))
        (λ n. and_then (N.insert n s) (λ t. notify_all notice (id + 1) now row users t))

  unfoldable pub get_inquiry : ℕ → ℕ → Bool → Thread I M N → Option Inquiry
  get_inquiry inquiry user admin s =
      find_row (λ r. r.id == inquiry && (admin || r.user_id == user)) (I.rows s.inquiries)

  abbrev pub is_of : ℕ → InquiryMessage → Bool
  is_of inquiry m = m.inquiry_id == inquiry

  abbrev pub answers : ℕ → ℕ → InquiryMessage → Bool
  answers inquiry request m = m.inquiry_id == inquiry && m.request_id == request

  abbrev pub message_count : ℕ → Thread I M N → ℕ
  message_count inquiry s = count_rows (is_of inquiry) (M.rows s.messages)

  abbrev pub committed : List ℕ → Option (Thread I M N) → Response (List ℕ) (Thread I M N)
  committed users none = raised uncaught
  committed users (some s) = done users s

  abbrev pub touch : ℕ → Inquiry → Inquiry
  touch now r = record r { updated_at = now }

  abbrev pub add_reply :
      Notice → ℕ → ℕ → Inquiry → InquiryMessage → List ℕ → Thread I M N → Option (Thread I M N)
  add_reply notice notification_id now row message users s =
      and_then (M.insert message s.messages) (λ ms.
        and_then (notify_all notice notification_id now row users s.inbox) (λ ns. some (record s {
          inquiries = I.update (λ r. r.id == row.id) (touch now) s.inquiries;
          messages = ms;
          inbox = ns;
        })))

  abbrev pub reply_found :
      List User
      → Notice
      → ℕ
      → ℕ
      → ℕ
      → ℕ
      → Bool
      → ℕ
      → ℕ
      → Thread I M N
      → Option Inquiry
      → Response (List ℕ) (Thread I M N)
  reply_found users notice message_id notification_id now user admin request body s none =
      raised not_found
  reply_found users notice message_id notification_id now user admin request body s (some row) =
      let told = recipients users row (not admin) admin in
      let message : InquiryMessage = record {
        id = message_id;
        inquiry_id = row.id;
        author_id = some user;
        is_by_admin = admin;
        request_id = request;
        body = body;
        created_at = now;
      } in
      if any_row (answers row.id request) (M.rows s.messages)
      then done [] s
      else if same_status row.status closed
      then raised thread_closed
      else if leb 200 (message_count row.id s)
      then raised thread_full
      else committed told (add_reply notice notification_id now row message told s)

  unfoldable pub reply :
      List User
      → Notice
      → ℕ
      → ℕ
      → ℕ
      → ℕ
      → ℕ
      → Bool
      → ℕ
      → ℕ
      → Thread I M N
      → Response (List ℕ) (Thread I M N)
  reply users notice message_id notification_id now inquiry user admin request body s =
      reply_found users notice message_id notification_id now user admin request body s
        (get_inquiry inquiry user admin s)

  abbrev pub set_status : InquiryStatus → ℕ → Inquiry → Inquiry
  set_status status now r = record r { status = status; updated_at = now }

  abbrev pub status_found :
      List User
      → Notice
      → ℕ
      → ℕ
      → InquiryStatus
      → Thread I M N
      → Option Inquiry
      → Response (List ℕ) (Thread I M N)
  status_found users notice notification_id now status s none = raised not_found
  status_found users notice notification_id now status s (some row) =
      let told = recipients users row false true in
      if same_status row.status status
      then done [] s
      else committed told (
          and_then (notify_all notice notification_id now row told s.inbox) (λ ns. some (record s {
            inquiries = I.update (λ r. r.id == row.id) (set_status status now) s.inquiries;
            inbox = ns;
          })))

  unfoldable pub change_status :
      List User
      → Notice
      → ℕ
      → ℕ
      → ℕ
      → ℕ
      → InquiryStatus
      → Thread I M N
      → Response (List ℕ) (Thread I M N)
  change_status users notice notification_id now inquiry user status s =
      status_found users notice notification_id now status s (get_inquiry inquiry user true s)

  abbrev pub add_inquiry :
      Notice → ℕ → ℕ → List ℕ → Inquiry → InquiryMessage → Thread I M N → Option (Thread I M N)
  add_inquiry notice notification_id now users row message s =
      and_then (I.insert row s.inquiries) (λ is. and_then (M.insert message s.messages) (λ ms.
        and_then (notify_all notice notification_id now row users s.inbox)
          (λ ns. some (record s { inquiries = is; messages = ms; inbox = ns }))))

  abbrev pub created_inquiry :
      ℕ → List ℕ → Option (Thread I M N) → Response (ℕ × List ℕ) (Thread I M N)
  created_inquiry id users none = raised uncaught
  created_inquiry id users (some s) = done (id, users) s

  abbrev pub create_unless :
      List User
      → Notice
      → ℕ
      → ℕ
      → ℕ
      → ℕ
      → ℕ
      → ℕ
      → List ℕ
      → ℕ
      → Thread I M N
      → Option Inquiry
      → Response (ℕ × List ℕ) (Thread I M N)
  create_unless users notice id message_id notification_id now user request subject body s
        (some prior) =
      done (prior.id, []) s
  create_unless users notice id message_id notification_id now user request subject body s none =
      let row : Inquiry = record {
        id = id;
        user_id = user;
        request_id = request;
        subject = subject;
        status = open_status;
        created_at = now;
        updated_at = now;
      } in
      let message : InquiryMessage = record {
        id = message_id;
        inquiry_id = id;
        author_id = some user;
        is_by_admin = false;
        request_id = request;
        body = body;
        created_at = now;
      } in
      let told = recipients users row true true in
      created_inquiry id told (add_inquiry notice notification_id now told row message s)

  unfoldable pub create :
      List User
      → Notice
      → ℕ
      → ℕ
      → ℕ
      → ℕ
      → ℕ
      → ℕ
      → List ℕ
      → ℕ
      → Thread I M N
      → Response (ℕ × List ℕ) (Thread I M N)
  create users notice id message_id notification_id now user request subject body s =
      create_unless users notice id message_id notification_id now user request subject body s
        (find_row (λ r. r.user_id == user && r.request_id == request) (I.rows s.inquiries))
