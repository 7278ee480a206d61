-- ===== src/Store/Outbox/Delivery.antt =====
-- What becomes of a notification.
use paceq.Base.{
  ℕ, ◌+◌, ◌≤◌, ◌≢◌, ◌^◌, ◌∙◌, String, Bool, true, false, List, [], ◌∷◌, ◌++◌, none, some, ◌≡◌, ◌⊎◌,
  refl, inl, inr, arith, eq_iff, str_eq,
}
use paceq.Base.Tests.{if◌then◌else◌, Bool-cases, Option-cases}
use paceq.Base.Lists.{count_if, count_if-append}
use paceq.Base.Result.{Result, ok, err}
use paceq.Base.Int.{pos, ◌<ℤ◌, ltb_ℤ, ◌-ℤ◌, ◌*ℤ◌}
use paceq.Store.Leases.{unix_milli}
use paceq.Store.Outbox.{
  Notification, NoteError, OutboxRow, Window, Outbox, recorded, read_window, count_suppressed,
  open_window, in_window, next_id, insert_row, insert_prepared, insert_notification,
  insert_notifications,
}

-- How many rows have the key.
abbrev pub rows_of : String → Outbox → ℕ
rows_of key box = count_if (λ r. str_eq r.dedup_key key) box.rows

recorded-count_if :
    (key : String) (rows : List OutboxRow)
    → recorded key rows ≡ false
    → count_if (λ r. str_eq r.dedup_key key) rows ≡ 0
recorded-count_if key [] h = refl
recorded-count_if key (r ∷ rest) h = ground (arith, recorded-count_if key rest)

insert_row-rows_of :
    (n : Notification) (key : String) (rows : List OutboxRow)
    → count_if (λ r. str_eq r.dedup_key key) (insert_row n rows)
      ≡ count_if (λ r. str_eq r.dedup_key key) rows + (if str_eq n.dedup_key key then 1 else 0)
unfolding insert_row
insert_row-rows_of n key rows = count_if-append (λ r. str_eq r.dedup_key key) rows _ ∙ omega arith

insert_prepared-rows_of :
    (n : Notification) (key : String) (box : Outbox)
    → rows_of key box ≤ 1
    → rows_of key (insert_prepared n box) ≤ 1
unfolding insert_prepared
insert_prepared-rows_of n key box h = ground (
  arith,
  recorded-count_if n.dedup_key box.rows,
  eq_iff n.dedup_key key,
  insert_row-rows_of n key box.rows,
)

insert_notification-rows_of :
    (n : Notification) (key : String) (box after : Outbox)
    → rows_of key box ≤ 1
    → insert_notification n box ≡ ok after
    → rows_of key after ≤ 1
unfolding insert_notification
insert_notification-rows_of n key box after h e =
    ground (arith, insert_prepared-rows_of n key box h)

-- However often notifications are inserted, a logical event has at most one row: over a table with
-- at most one row for a deduplication key, every insertion leaves at most one.
pub one_row_each :
    (notes : List Notification) (key : String) (box after : Outbox)
    → rows_of key box ≤ 1
    → insert_notifications notes box ≡ ok after
    → rows_of key after ≤ 1
unfolding insert_notifications
one_row_each [] key box after h e = ground arith
one_row_each (n ∷ rest) key box after h e =
    go (insert_notification n box) refl e (λ mid k. one_row_each rest key mid after k)
  where
    go :
        (r : Result NoteError Outbox)
        → insert_notification n box ≡ r
        → (elim r [ err x ↦ err x | ok mid ↦ insert_notifications rest mid ]) ≡ ok after
        → ((mid : Outbox)
            → rows_of key mid ≤ 1
            → insert_notifications rest mid ≡ ok after
            → rows_of key after ≤ 1)
        → rows_of key after ≤ 1
    go (err x) q p later = absurd (cc)
    go (ok mid) q p later = later mid (insert_notification-rows_of n key box mid h q) p

-- A row, with one more event collapsed into it.
abbrev pub one_more : Window → Window
one_more w = record w { suppressed = w.suppressed + 1 }

-- The note's time is less than its throttle after the opening of the window.
abbrev pub elapses_within : Notification → Window → Bool
elapses_within n w = ltb_ℤ (n.created_at -ℤ w.opened_at *ℤ pos (10 ^ 6)) n.throttle

-- No window of the note's topic, target and group is open at its time.
abbrev pub NoneOpen : Notification → List Window → Type 0
NoneOpen n windows =
    (read_window n windows ≡ none)
    ⊎ ((w : Window) × (read_window n windows ≡ some w) × (elapses_within n w ≡ false))

-- One row more, at the end, with what the note says.
abbrev pub OneMoreRow : Notification → List OutboxRow → List OutboxRow → Type 0
OneMoreRow n rows after =
    (r : OutboxRow) × (after ≡ rows ++ r ∷ [])
    × (r.topic ≡ n.topic)
    × (r.subject ≡ n.subject)
    × (r.target ≡ n.target)
    × (r.payload ≡ n.payload)
    × (r.dedup_key ≡ n.dedup_key)
    × (r.created_at ≡ unix_milli n.created_at)
    × (r.available_at ≡ unix_milli n.available_at)

-- What the insertion of a prepared notification does to the tables.
pub data Fate (n : Notification) (box : Outbox) : Outbox → Type 0 where
  already : recorded n.dedup_key box.rows ≡ true → Fate n box box
  collapsed :
      (w : Window) (after : Outbox)
      → recorded n.dedup_key box.rows ≡ false
      → pos 0 <ℤ n.throttle
      → read_window n box.windows ≡ some w
      → elapses_within n w ≡ true
      → after.rows ≡ box.rows
      → read_window n after.windows ≡ some (one_more w)
      → Fate n box after
  delivered :
      (after : Outbox)
      → recorded n.dedup_key box.rows ≡ false
      → ltb_ℤ (pos 0) n.throttle ≡ false
      → OneMoreRow n box.rows after.rows
      → after.windows ≡ box.windows
      → Fate n box after
  opened :
      (after : Outbox)
      → recorded n.dedup_key box.rows ≡ false
      → pos 0 <ℤ n.throttle
      → NoneOpen n box.windows
      → OneMoreRow n box.rows after.rows
      → read_window n after.windows
        ≡ some (record {
          topic = n.topic;
          target = n.target;
          group_key = n.group_key;
          opener_id = next_id box.rows;
          opened_at = unix_milli n.created_at;
          suppressed = 0;
        })
      → Fate n box after

read_window-count_suppressed :
    (n : Notification) (windows : List Window) (w : Window)
    → read_window n windows ≡ some w
    → read_window n (count_suppressed n windows) ≡ some (one_more w)
unfolding read_window count_suppressed
read_window-count_suppressed n [] w h = absurd (cc)
read_window-count_suppressed n (v ∷ rest) w h =
    ground (arith, read_window-count_suppressed n rest w)

read_window-open_window :
    (n m : Notification) (id : ℕ) (windows : List Window)
    → m.topic ≡ n.topic
    → m.target ≡ n.target
    → m.group_key ≡ n.group_key
    → read_window m (open_window n id windows)
      ≡ some (record {
        topic = n.topic;
        target = n.target;
        group_key = n.group_key;
        opener_id = id;
        opened_at = unix_milli n.created_at;
        suppressed = 0;
      })
unfolding read_window open_window
read_window-open_window n m id [] p q r =
    ground (arith, eq_iff n.topic m.topic, eq_iff n.target m.target, eq_iff n.group_key m.group_key)
read_window-open_window n m id (w ∷ rest) p q r = ground (
  arith,
  read_window-open_window n m id rest p q r,
  eq_iff n.topic m.topic,
  eq_iff n.target m.target,
  eq_iff n.group_key m.group_key,
  eq_iff w.topic n.topic,
  eq_iff w.target n.target,
  eq_iff w.group_key n.group_key,
  eq_iff w.topic m.topic,
  eq_iff w.target m.target,
  eq_iff w.group_key m.group_key,
)

insert_row-OneMoreRow :
    (n : Notification) (rows : List OutboxRow) → OneMoreRow n rows (insert_row n rows)
unfolding insert_row
insert_row-OneMoreRow n rows = (_, refl, refl, refl, refl, refl, refl, refl, refl)

collapses :
    (n : Notification) (box : Outbox)
    → recorded n.dedup_key box.rows ≡ false
    → pos 0 <ℤ n.throttle
    → in_window n (read_window n box.windows) ≡ true
    → Fate n box (record box { windows = count_suppressed n box.windows })
unfolding in_window
collapses n box h t i = elim (Option-cases (read_window n box.windows)) [
  | inl e ↦ absurd (ground arith)
  | inr (w, e) ↦
      collapsed w (record box { windows = count_suppressed n box.windows }) h t e (rw e at i) refl
        (read_window-count_suppressed n box.windows w e)
]

none_open :
    (n : Notification) (windows : List Window)
    → in_window n (read_window n windows) ≡ false
    → NoneOpen n windows
unfolding in_window
none_open n windows i = elim (Option-cases (read_window n windows)) [
  | inl e ↦ inl e
  | inr (w, e) ↦ inr (w, e, rw e at i)
]

insert_prepared-Fate : (n : Notification) (box : Outbox) → Fate n box (insert_prepared n box)
unfolding insert_prepared
insert_prepared-Fate n box = elim (Bool-cases (recorded n.dedup_key box.rows)) [
  | inl h ↦ rw h (already h)
  | inr h ↦ elim (Bool-cases (ltb_ℤ (pos 0) n.throttle)) [
    | inr t ↦
        rw (h, t)
          (delivered (record box { rows = insert_row n box.rows }) h t
            (insert_row-OneMoreRow n box.rows) refl)
    | inl t ↦ elim (Bool-cases (in_window n (read_window n box.windows))) [
      | inr i ↦
          rw (h, t, i)
            (opened _ h (ground arith) (none_open n box.windows i)
              (insert_row-OneMoreRow n box.rows)
              (read_window-open_window n n (next_id box.rows) box.windows refl refl refl))
      | inl i ↦ rw (h, t, i) (collapses n box h (ground arith) i)
    ]
  ]
]

-- The insertion of a notification that names its topic, subject, target and key succeeds. If its key
-- is on file, nothing changes. If it is throttled and its time is within its throttle of the opening of
-- the window of its bucket, no row is added and that window's count rises by one. If it is throttled
-- and no such window is open, one row is added, with what it says, and the window of its bucket opens at
-- its time with nothing suppressed. If it is not throttled, the row is added and no window changes.
pub insert_notification-Fate :
    (n : Notification) (box : Outbox)
    → n.topic ≢ ""
    → n.subject ≢ ""
    → n.target ≢ ""
    → n.dedup_key ≢ ""
    → (after : Outbox) × (insert_notification n box ≡ ok after) × Fate n box after
unfolding insert_notification
insert_notification-Fate n box t s g k = (
  insert_prepared n box,
  ground (arith, eq_iff n.topic "", eq_iff n.subject "", eq_iff n.target "", eq_iff n.dedup_key ""),
  insert_prepared-Fate n box,
)

-- A notification that is inserted opens a window: a later one of the same topic, target and group,
-- with another key and before its own throttle has passed, adds no row.
pub throttle_collapses :
    (n m : Notification) (box : Outbox)
    → recorded n.dedup_key box.rows ≡ false
    → in_window n (read_window n box.windows) ≡ false
    → pos 0 <ℤ n.throttle
    → pos 0 <ℤ m.throttle
    → m.topic ≡ n.topic
    → m.target ≡ n.target
    → m.group_key ≡ n.group_key
    → m.created_at -ℤ (unix_milli n.created_at *ℤ pos (10 ^ 6)) <ℤ m.throttle
    → (insert_prepared m (insert_prepared n box)).rows ≡ (insert_prepared n box).rows
unfolding insert_prepared in_window
throttle_collapses n m box h i tn tm p q r soon =
    ground (arith, read_window-open_window n m (next_id box.rows) box.windows p q r)
