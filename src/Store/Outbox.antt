-- ===== src/Store/Outbox.antt =====
-- internal/store/outbox.go: insertNotificationsTx, the notifications that commit with a transition.
-- internal/model/notification.go has the record. The state is the tables `outbox` and
-- `outbox_windows`, with the columns that the statements read or write.
pub mod Delivery
use paceq.Base.{
  ℕ, ◌+◌, ◌^◌, String, Bool, true, false, not, ◌&&◌, ◌||◌, List, [], ◌∷◌, ◌++◌, Option, none, some,
  str_eq,
}
use paceq.Base.Tests.{if◌then◌else◌, leb}
use paceq.Base.Lists.{any}
use paceq.Base.Int.{ℤ, pos, ◌-ℤ◌, ◌*ℤ◌, ltb_ℤ}
use paceq.Base.Result.{Result, ok, err}
use paceq.Store.Leases.{unix_milli}

-- Notification. The times are nanoseconds since the Unix epoch.
pub record Notification : Type 0 where
  pub topic : String
  pub subject : String
  pub target : String
  pub payload : String
  pub dedup_key : String
  pub group_key : String
  pub throttle : ℤ
  pub created_at : ℤ
  pub available_at : ℤ

pub record OutboxRow : Type 0 where
  pub id : ℕ
  pub topic : String
  pub subject : String
  pub target : String
  pub payload : String
  pub dedup_key : String
  pub created_at : ℤ
  pub available_at : ℤ

pub record Window : Type 0 where
  pub topic : String
  pub target : String
  pub group_key : String
  pub opener_id : ℕ
  pub opened_at : ℤ
  pub suppressed : ℕ

pub record Outbox : Type 0 where
  pub rows : List OutboxRow
  pub windows : List Window

-- The two refusals of a note that is not prepared.
pub data NoteError : Type 0 where
  without_topic without_dedup_key : NoteError

-- The probe: SELECT 1 FROM outbox WHERE dedup_key = ?
abbrev pub recorded : String → List OutboxRow → Bool
recorded key rows = any (λ r. str_eq r.dedup_key key) rows

abbrev pub is_window : Notification → Window → Bool
is_window n w = str_eq w.topic n.topic && str_eq w.target n.target && str_eq w.group_key n.group_key

-- readWindowTx.
unfoldable pub read_window : Notification → List Window → Option Window
read_window n [] = none
read_window n (w ∷ rest) = if is_window n w then some w else read_window n rest

-- countSuppressed.
unfoldable pub count_suppressed : Notification → List Window → List Window
count_suppressed n [] = []
count_suppressed n (w ∷ rest) =
    (if is_window n w then record w { suppressed = w.suppressed + 1 } else w)
    ∷ count_suppressed n rest

-- openWin: the upsert of the window.
unfoldable pub open_window : Notification → ℕ → List Window → List Window
unfolding unix_milli
open_window n id [] =
    record {
      topic = n.topic;
      target = n.target;
      group_key = n.group_key;
      opener_id = id;
      opened_at = unix_milli n.created_at;
      suppressed = 0;
    }
    ∷ []
open_window n id (w ∷ rest) =
    let others = open_window n id rest in
    if is_window n w
    then record w { opener_id = id; opened_at = unix_milli n.created_at; suppressed = 0 } ∷ rest
    else w ∷ others

-- Whether the note falls inside the window of its bucket.
unfoldable pub in_window : Notification → Option Window → Bool
unfolding ◌-ℤ◌ ◌*ℤ◌
in_window n none = false
in_window n (some w) = ltb_ℤ (n.created_at -ℤ (w.opened_at *ℤ pos (10 ^ 6))) n.throttle

-- The rowid that SQLite gives: one more than the largest.
unfoldable pub next_id : List OutboxRow → ℕ
next_id [] = 1
next_id (r ∷ rest) = let n = next_id rest in if leb n r.id then r.id + 1 else n

unfoldable pub insert_row : Notification → List OutboxRow → List OutboxRow
unfolding next_id unix_milli
insert_row n rows =
    rows
    ++ record {
      id = next_id rows;
      topic = n.topic;
      subject = n.subject;
      target = n.target;
      payload = n.payload;
      dedup_key = n.dedup_key;
      created_at = unix_milli n.created_at;
      available_at = unix_milli n.available_at;
    }
      ∷ []

-- One round of the loop, for a note that is prepared.
unfoldable pub insert_prepared : Notification → Outbox → Outbox
unfolding read_window in_window count_suppressed insert_row open_window
insert_prepared n box =
    if recorded n.dedup_key box.rows
    then box
    else if ltb_ℤ (pos 0) n.throttle
    then if in_window n (read_window n box.windows)
      then record box { windows = count_suppressed n box.windows }
      else record {
        rows = insert_row n box.rows;
        windows = open_window n (next_id box.rows) box.windows;
      }
    else record box { rows = insert_row n box.rows }

unfoldable pub insert_notification : Notification → Outbox → Result NoteError Outbox
unfolding insert_prepared
insert_notification n box =
    if str_eq n.topic "" || str_eq n.subject "" || str_eq n.target ""
    then err without_topic
    else if str_eq n.dedup_key ""
    then err without_dedup_key
    else ok (insert_prepared n box)

-- insertNotificationsTx.
unfoldable pub insert_notifications : List Notification → Outbox → Result NoteError Outbox
unfolding insert_notification
insert_notifications [] box = ok box
insert_notifications (n ∷ rest) box = elim (insert_notification n box) [
  | err e ↦ err e
  | ok after ↦ insert_notifications rest after
]
