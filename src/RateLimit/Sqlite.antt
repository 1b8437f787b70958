-- ===== src/RateLimit/Sqlite.antt =====
-- src/pydecorators/rate_limit.py, `_SQLiteSlidingWindowLimiter`: the limiter that processes share.
-- A call of `reserve_or_delay` is one transaction on the table. Pickling and the digest are
-- parameters; rows with one timestamp are read in the order in which they were inserted.
pub mod Rows
pub mod Buckets
pub mod Transactions
pub mod Refinement
mod Tests
use pydecorators.Prelude.{
  ℕ, Bool, false, Option, none, some, List, [], ◌∷◌, ◌++◌, String, ◌==◌, string_eq, if◌then◌else◌,
}
use pydecorators.Prelude.Int.{ℤ, pos, ◌-ℤ◌, leb_ℤ, max_ℤ}
use pydecorators.Prelude.Bytes.{Bytes}
use pydecorators.Prelude.Effect.{Outcome, returned, raised, Action}
use pydecorators.Prelude.Table.{delete_where}
use pydecorators.RateLimit.Ids.{WindowId, id_eq}
use pydecorators.RateLimit.{
  Event, NormalizedWindow, RuntimeWindow, runtime_windows, window_wait_seconds,
  max_window_cleanup_period,
}

-- A row of `rate_limit_events`.
pub record StoredEvent : Type 0 where
  pub namespace : String
  pub bucket_key : String
  pub window_id : WindowId
  pub timestamp : ℤ
  pub cost : ℕ

-- The `TypeError` for a key that cannot be pickled.
pub data BucketKeyError : Type 0 where
  key_not_serializable : BucketKeyError

-- What the limiter of one decorated function is configured with. The keys `K` are Python
-- objects: equal ones may be pickled differently.
pub record Storage (K : Type 0) : Type 0 where
  pub namespace : String
  pub pickle_dumps : K → Option Bytes
  pub sha256 : Bytes → String

-- `namespace = ? AND bucket_key = ?`
abbrev pub in_bucket : (namespace bucket_key : String) → StoredEvent → Bool
in_bucket namespace bucket_key row =
    if namespace == row.namespace then bucket_key == row.bucket_key else false

-- `... AND window_id = ?`
abbrev pub in_window : (namespace bucket_key : String) → WindowId → StoredEvent → Bool
in_window namespace bucket_key id row =
    if in_bucket namespace bucket_key row then id == row.window_id else false

-- The two statements that delete what is old.
abbrev pub delete_old_in_bucket :
    (namespace bucket_key : String) → ℤ → List StoredEvent → List StoredEvent
delete_old_in_bucket namespace bucket_key bound rows =
    delete_where
      (λ row. if in_bucket namespace bucket_key row then leb_ℤ row.timestamp bound else false) rows

abbrev pub delete_old_in_window :
    (namespace bucket_key : String) → WindowId → ℤ → List StoredEvent → List StoredEvent
delete_old_in_window namespace bucket_key id bound rows =
    delete_where
      (λ row. if in_window namespace bucket_key id row then leb_ℤ row.timestamp bound else false)
      rows

-- `ORDER BY timestamp ASC`
abbrev pub insert_in_order : Event → List Event → List Event
insert_in_order e [] = e ∷ []
insert_in_order e (f ∷ rest) =
    let rest' = insert_in_order e rest in
    if leb_ℤ e.timestamp f.timestamp then e ∷ f ∷ rest else f ∷ rest'

abbrev pub order_by_timestamp : List Event → List Event
order_by_timestamp [] = []
order_by_timestamp (e ∷ rest) = insert_in_order e (order_by_timestamp rest)

-- the columns `timestamp, cost` of the rows that are selected
abbrev pub events_in_window :
    (namespace bucket_key : String) → WindowId → List StoredEvent → List Event
events_in_window namespace bucket_key id [] = []
events_in_window namespace bucket_key id (row ∷ rows) =
    let rest = events_in_window namespace bucket_key id rows in
    if in_window namespace bucket_key id row
    then record { timestamp = row.timestamp; cost = row.cost } ∷ rest
    else rest

abbrev pub select_events :
    (namespace bucket_key : String) → WindowId → List StoredEvent → List Event
select_events namespace bucket_key id rows =
    order_by_timestamp (events_in_window namespace bucket_key id rows)

-- the loop over the windows
unfoldable pub check_stored_windows :
    (namespace bucket_key : String) (now : ℤ) (cost : ℕ)
    → List RuntimeWindow
    → List StoredEvent
    → (wait : ℤ) → List StoredEvent × ℤ
check_stored_windows namespace bucket_key now cost [] rows wait = (rows, wait)
check_stored_windows namespace bucket_key now cost (w ∷ windows) rows wait =
    let rows' = delete_old_in_window namespace bucket_key w.window_id w.prune_before rows in
    check_stored_windows namespace bucket_key now cost windows rows' (
      max_ℤ wait
        (window_wait_seconds (select_events namespace bucket_key w.window_id rows') w now cost))

-- an element of `rows`
abbrev pub row_for : (namespace bucket_key : String) → WindowId → Event → StoredEvent
row_for namespace bucket_key id event = record {
  namespace = namespace;
  bucket_key = bucket_key;
  window_id = id;
  timestamp = event.timestamp;
  cost = event.cost;
}

-- the `INSERT` statements
unfoldable pub insert_events :
    (namespace bucket_key : String)
    → Event
    → List RuntimeWindow
    → List StoredEvent
    → List StoredEvent
insert_events namespace bucket_key event [] rows = rows
insert_events namespace bucket_key event (w ∷ windows) rows =
    insert_events namespace bucket_key event windows
      (rows ++ row_for namespace bucket_key w.window_id event ∷ [])

abbrev pub digest : (Bytes → String) → Option Bytes → Outcome BucketKeyError String
digest sha256 none = raised key_not_serializable
digest sha256 (some key_bytes) = returned (sha256 key_bytes)

module _ {K Z : Type 0} (storage : Storage K) (bounds : NormalizedWindow Z → ℤ → ℤ × ℤ) where
  -- `_stored_bucket_key`
  abbrev pub stored_bucket_key : K → Outcome BucketKeyError String
  stored_bucket_key key = digest storage.sha256 (storage.pickle_dumps key)

  abbrev pub commit_reservation :
      (bucket_key : String) (now : ℤ) (cost : ℕ)
      → List RuntimeWindow
      → List StoredEvent × ℤ
      → Option ℤ × List StoredEvent
  commit_reservation bucket_key now cost windows (rows, wait) =
      if leb_ℤ wait (pos 0)
      then (
        none,
        insert_events storage.namespace bucket_key (record { timestamp = now; cost = cost }) windows
            rows,
      )
      else (some (max_ℤ (pos 0) wait), rows)

  -- the transaction
  abbrev pub transact :
      List (NormalizedWindow Z)
      → (now : ℤ) (cost : ℕ) → String
      → List StoredEvent
      → Option ℤ × List StoredEvent
  transact config now cost bucket_key rows =
      let windows = runtime_windows bounds config now in
      commit_reservation bucket_key now cost windows (
        check_stored_windows storage.namespace bucket_key now cost windows
          (delete_old_in_bucket storage.namespace bucket_key
            (now -ℤ max_window_cleanup_period config) rows)
          (pos 0))

  abbrev pub reserve_stored :
      List (NormalizedWindow Z)
      → (now : ℤ) (cost : ℕ) → Outcome BucketKeyError String
      → Action (List StoredEvent) BucketKeyError (Option ℤ)
  reserve_stored config now cost (raised e) rows = (raised e, rows)
  reserve_stored config now cost (returned bucket_key) rows =
      let (wait, rows') = transact config now cost bucket_key rows in (returned wait, rows')

  unfoldable pub reserve_or_delay :
      List (NormalizedWindow Z)
      → (now : ℤ) → K
      → (cost : ℕ) → Action (List StoredEvent) BucketKeyError (Option ℤ)
  reserve_or_delay config now key cost = reserve_stored config now cost (stored_bucket_key key)
