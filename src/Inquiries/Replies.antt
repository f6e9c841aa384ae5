-- ===== src/Inquiries/Replies.antt =====
-- A thread has two hundred messages at most.
use b4fast_api.Prelude.{
  ℕ, ◌≡◌, ◌≤◌, ◌+◌, subst, Bool, Option, none, some, List, [], ◌∷◌, ◌++◌, leb, arith, inl, inr,
  any_row, count_rows-append, Bool-cases, AllSome,
}
use b4fast_api.Database.{Table}
use b4fast_api.Inbox.{InboxNotification, same_notification}
use b4fast_api.Accounts.{User}
use b4fast_api.Accounts.Signup.{IsGrown, insert-IsGrown, all_then, all_skip}
use b4fast_api.Inquiries.{
  Inquiry, InquiryMessage, same_inquiry, same_message, same_status, closed, Thread, Notice,
  Response, done, raised, notify_all, is_of, answers, message_count, committed, add_reply,
  reply_found, reply,
}

-- A reply with its arguments, and the users at its time.
pub record ReplyCall : Type 0 where
  pub users : List User
  pub notice : Notice
  pub message_id : ℕ
  pub notification_id : ℕ
  pub now : ℕ
  pub inquiry : ℕ
  pub user : ℕ
  pub admin : Bool
  pub request : ℕ
  pub body : ℕ

module _ (I : Table Inquiry same_inquiry) (M : Table InquiryMessage same_message)
    (N : Table InboxNotification same_notification) where
  abbrev pub after : Thread I M N → Response (List ℕ) (Thread I M N) → Thread I M N
  after s (done users s') = s'
  after s (raised e) = s

  abbrev HasMessage : InquiryMessage → Thread I M N → Thread I M N → Type 0
  HasMessage m s t = M.rows t.messages ≡ M.rows s.messages ++ m ∷ []

  add_reply-HasMessage :
      (notice : Notice) (id now : ℕ) (row : Inquiry) (m : InquiryMessage) (users : List ℕ)
      (s : Thread I M N)
      → AllSome (HasMessage m s) (add_reply I M N notice id now row m users s)
  add_reply-HasMessage notice id now row m users s =
      all_then (IsGrown M m s.messages) (HasMessage m s) (M.insert m s.messages) _
        (insert-IsGrown M m s.messages)
        (λ ms g.
          all_skip (HasMessage m s) (notify_all I M N notice id now row users s.inbox) _
            (λ ns. g.grown))

  committed-count :
      (k : ℕ) (users : List ℕ) (m : InquiryMessage) (s : Thread I M N) (o : Option (Thread I M N))
      → AllSome (HasMessage m s) o
      → message_count I M N k s ≤ 200
      → (m.inquiry_id ≡ k → message_count I M N k s + 1 ≤ 200)
      → message_count I M N k (after s (committed I M N users o)) ≤ 200
  committed-count k users m s none h small room = small
  committed-count k users m s (some t) h small room =
      rw (h, count_rows-append (is_of I M N k) (M.rows s.messages) (m ∷ []))
        (ground (arith, small, room))

  reply_found-count :
      (k : ℕ) (users : List User) (notice : Notice) (message_id id now user : ℕ) (admin : Bool)
      (request body : ℕ) (s : Thread I M N) (o : Option Inquiry)
      → message_count I M N k s ≤ 200
      → message_count I M N k
          (after s (reply_found I M N users notice message_id id now user admin request body s o))
        ≤ 200
  reply_found-count k users notice message_id id now user admin request body s none small = small
  reply_found-count k users notice message_id id now user admin request body s (some row) small =
      elim (Bool-cases (any_row (answers I M N row.id request) (M.rows s.messages))) [
        | inl e ↦ rw e small
        | inr a ↦ elim (Bool-cases (same_status row.status closed)) [
          | inl e ↦ rw (a, e) small
          | inr b ↦ elim (Bool-cases (leb 200 (message_count I M N row.id s))) [
            | inl e ↦ rw (a, b, e) small
            | inr c ↦
                rw (a, b, c)
                  (committed-count k _ _ s _ (add_reply-HasMessage notice id now row _ _ s) small
                    (λ same.
                      subst (λ i. message_count I M N i s + 1 ≤ 200) same (ground (arith, c))))
          ]
        ]
      ]

  abbrev pub run_reply : ReplyCall → Thread I M N → Response (List ℕ) (Thread I M N)
  run_reply c s =
      reply I M N c.users c.notice c.message_id c.notification_id c.now c.inquiry c.user c.admin
        c.request c.body s

  abbrev pub run_replies : List ReplyCall → Thread I M N → Thread I M N
  run_replies [] s = s
  run_replies (c ∷ cs) s = run_replies cs (after s (run_reply c s))

  run_reply-count :
      (k : ℕ) (c : ReplyCall) (s : Thread I M N)
      → message_count I M N k s ≤ 200
      → message_count I M N k (after s (run_reply c s)) ≤ 200
  unfolding reply
  run_reply-count k c s small =
      reply_found-count k c.users c.notice c.message_id c.notification_id c.now c.user c.admin
        c.request c.body s _ small

  -- Whatever replies are sent to the support conversations, a conversation that has two hundred
  -- messages at most keeps to that.
  pub run_replies-count :
      (k : ℕ) (cs : List ReplyCall) (s : Thread I M N)
      → message_count I M N k s ≤ 200
      → message_count I M N k (run_replies cs s) ≤ 200
  run_replies-count k [] s small = small
  run_replies-count k (c ∷ cs) s small =
      run_replies-count k cs (after s (run_reply c s)) (run_reply-count k c s small)
