-- ===== src/Inbox.antt =====
-- src/backend/app/models/inbox.py: the user-facing notifications. Texts that the code cuts or inspects
-- are lists of code points. The methods run in a transaction each, over the abstract table.
pub mod Delivery
pub mod Isolation
pub mod Reading
pub mod Listing
mod Tests
use b4fast_api.Prelude.{
  ℕ, ◌≡◌, Bool, true, false, ◌&&◌, ◌||◌, not, Option, none, some, List, [], ◌∷◌, leb, ltb, ◌==◌,
  is_some, is_none, if◌then◌else◌, find_row, any_row, count_rows, where_rows, take,
}
use b4fast_api.Database.{Table}

pub record InboxNotification : Type 0 where
  pub id : ℕ
  pub delivery_key : Option ℕ
  pub user_id : ℕ
  pub kind : ℕ
  pub title : List ℕ
  pub body : List ℕ
  pub action_path : Option (List ℕ)
  pub created_at : ℕ
  pub deleted_at : Option ℕ
  pub read_at : Option ℕ

abbrev pub is_key : ℕ → Option ℕ → Bool
is_key k none = false
is_key k (some j) = j == k

abbrev pub both_keyed : Option ℕ → Option ℕ → Bool
both_keyed none b = false
both_keyed (some k) b = is_key k b

-- the primary key, and the unique index of the delivery keys, which does not bind nulls
abbrev pub same_notification : InboxNotification → InboxNotification → Bool
same_notification a b = a.id == b.id || both_keyed a.delivery_key b.delivery_key

pub record InboxItem : Type 0 where
  pub id : ℕ
  pub kind : ℕ
  pub title : List ℕ
  pub body : List ℕ
  pub action_path : Option (List ℕ)
  pub created_at : ℕ
  pub read_at : Option ℕ

pub record InboxSummary : Type 0 where
  pub unread_count : ℕ
  pub latest_id : ℕ

abbrev pub item : InboxNotification → InboxItem
item r = record {
  id = r.id;
  kind = r.kind;
  title = r.title;
  body = r.body;
  action_path = r.action_path;
  created_at = r.created_at;
  read_at = r.read_at;
}

-- `startswith("/") and not startswith("//")`, over code points
abbrev pub is_relative : List ℕ → Bool
is_relative [] = false
is_relative (c ∷ []) = c == b'/'
is_relative (c ∷ d ∷ rest) = c == b'/' && not (d == b'/')

-- An empty path is false in `if action_path and ...`.
abbrev pub is_allowed_path : Option (List ℕ) → Bool
is_allowed_path none = true
is_allowed_path (some []) = true
is_allowed_path (some (c ∷ cs)) = is_relative (c ∷ cs)

-- The row that `add_inbox_notification` adds to the caller's transaction; `none` is `ValueError`.
unfoldable pub add_inbox_notification :
    ℕ → ℕ → ℕ → ℕ → List ℕ → List ℕ → Option (List ℕ) → Option InboxNotification
add_inbox_notification id now user kind title body action_path =
    if is_allowed_path action_path
    then some (record {
      id = id;
      delivery_key = none;
      user_id = user;
      kind = kind;
      title = take 160 title;
      body = take 2000 body;
      action_path = action_path;
      created_at = now;
      deleted_at = none;
      read_at = none;
    })
    else none

abbrev pub is_listed : ℕ → InboxNotification → Bool
is_listed user r = r.user_id == user && is_none r.deleted_at

abbrev pub is_unread : ℕ → InboxNotification → Bool
is_unread user r = is_listed user r && is_none r.read_at

abbrev pub mark_read : ℕ → InboxNotification → InboxNotification
mark_read now r = record r { read_at = some now }

abbrev pub erase : ℕ → InboxNotification → InboxNotification
erase now r = record r { deleted_at = some now; title = []; body = []; action_path = none }

abbrev pub is_among : List ℕ → ℕ → Bool
is_among ids x = any_row (λ i. i == x) ids

-- The row of a keyed delivery.
abbrev pub keyed_row : ℕ → ℕ → ℕ → ℕ → ℕ → List ℕ → List ℕ → List ℕ → InboxNotification
keyed_row id now digest user kind title body action_path = record {
  id = id;
  delivery_key = some digest;
  user_id = user;
  kind = kind;
  title = title;
  body = body;
  action_path = some action_path;
  created_at = now;
  deleted_at = none;
  read_at = none;
}

-- `func.max`, where no row is 0
abbrev pub max_id : List InboxNotification → ℕ
max_id [] = 0
max_id (r ∷ rs) = let rest = max_id rs in if ltb rest r.id then r.id else rest

pub data Delivered (S : Type 0) : Type 0 where
  delivered : S → Delivered S
  -- `False`: the key was there
  repeated : Delivered S
  -- the `IntegrityError` raised again
  raised : Delivered S

module _ (T : Table InboxNotification same_notification) where
  open T use {State, rows, update, insert}

  abbrev after_deliver : ℕ → State → Option State → Delivered State
  after_deliver digest s (some s') = delivered s'
  after_deliver digest s none =
      if any_row (λ r. is_key digest r.delivery_key) (rows s) then repeated else raised

  -- `sha256` of the standard library takes the user and the key.
  unfoldable pub deliver :
      (ℕ → ℕ → ℕ) → ℕ → ℕ → ℕ → ℕ → ℕ → List ℕ → List ℕ → List ℕ → State → Delivered State
  deliver sha256 id now key user kind title body action_path s =
      let digest = sha256 user key in
      after_deliver digest s (insert (keyed_row id now digest user kind title body action_path) s)

  unfoldable pub summary : ℕ → State → InboxSummary
  summary user s = record {
    unread_count = count_rows (is_unread user) (rows s);
    latest_id = max_id (where_rows (is_listed user) (rows s));
  }

  abbrev refreshed : ℕ → State → Option InboxItem
  refreshed id s = elim (find_row (λ r. r.id == id) (rows s)) [
    | none ↦ none
    | some r ↦ some (item r)
  ]

  unfoldable pub read : ℕ → ℕ → ℕ → State → Option InboxItem × State
  read now user id s =
      let s' =
        update (λ r. r.id == id && (r.user_id == user && is_none r.read_at)) (mark_read now) s in
      if any_row (λ r. r.id == id && is_listed user r) (rows s)
      then (refreshed id s', s')
      else (none, s)

  unfoldable pub read_all : ℕ → ℕ → ℕ → State → State
  read_all now user through_id s =
      update (λ r. is_listed user r && (leb r.id through_id && is_none r.read_at)) (mark_read now) s

  unfoldable pub update_selected : ℕ → ℕ → List ℕ → Bool → State → State
  update_selected now user ids remove s =
      if remove
      then update (λ r. is_among ids r.id && is_listed user r) (erase now) s
      else update (λ r. is_among ids r.id && is_unread user r) (mark_read now) s
