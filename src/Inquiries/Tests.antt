-- ===== src/Inquiries/Tests.antt =====
-- Runs of a support conversation at concrete inputs.
use b4fast_api.Prelude.{◌≡◌, ◌≤◌, refl, true, [], ◌∷◌, arith}
use b4fast_api.Database.Instance.{list_table}
use b4fast_api.Inbox.{same_notification}
use b4fast_api.Inquiries.{
  Inquiry, open_status, closed, same_inquiry, same_message, Thread, Notice, raised, thread_closed,
  message_count, get_inquiry, reply,
}
use b4fast_api.Inquiries.Replies.{ReplyCall, run_reply, run_replies, run_replies-count}

abbrev Conversation : Type 0
Conversation =
    Thread (list_table same_inquiry) (list_table same_message) (list_table same_notification)

abbrev inquiry_row : Inquiry
inquiry_row = record {
  id = 1;
  user_id = 7;
  request_id = 70;
  subject = [];
  status = open_status;
  created_at = 10;
  updated_at = 10;
}

abbrev conversation : Conversation
conversation = record { inquiries = inquiry_row ∷ []; messages = []; inbox = [] }

abbrev shut : Conversation
shut = record conversation { inquiries = record inquiry_row { status = closed } ∷ [] }

abbrev notice : Notice
notice = record {
  kind = 2;
  title = [];
  owner_path = λ i. b'/' ∷ b's' ∷ [];
  admin_path = λ i. b'/' ∷ b'a' ∷ [];
}

abbrev first_reply : ReplyCall
first_reply = record {
  users = [];
  notice = notice;
  message_id = 1;
  notification_id = 1;
  now = 20;
  inquiry = 1;
  user = 8;
  admin = true;
  request = 71;
  body = 5;
}

run_replies-count_example :
    message_count
      (list_table same_inquiry)
      (list_table same_message)
      (list_table same_notification)
      1
      (run_replies
        (list_table same_inquiry)
        (list_table same_message)
        (list_table same_notification)
        (first_reply ∷ first_reply ∷ [])
        conversation)
    ≤ 200
run_replies-count_example =
    run_replies-count (list_table same_inquiry) (list_table same_message)
      (list_table same_notification) 1 (first_reply ∷ first_reply ∷ []) conversation (omega arith)

closed_refused :
    run_reply
      (list_table same_inquiry)
      (list_table same_message)
      (list_table same_notification)
      first_reply
      shut
    ≡ raised thread_closed
unfolding reply get_inquiry
closed_refused = refl
