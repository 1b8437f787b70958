-- ===== src/RateLimit.antt =====
-- src/pydecorators/rate_limit.py: the windows and the in-process limiter, `_SlidingWindowLimiter`.
-- Times are in microseconds. The lock makes `reserve_or_delay` atomic.
pub mod Ids
pub mod Events
pub mod Buckets
pub mod Windows
pub mod Waiting
pub mod Tracking
pub mod Sqlite
pub mod Redis
pub mod Configuration
pub mod State
pub mod Steps
pub mod Safety
pub mod Retrying
pub mod Wrapper
pub mod Blocking
pub mod Tests
pub mod WrapperTests
use pydecorators.Prelude.{
  ℕ, ◌+◌, ◌-◌, Bool, false, ◌||◌, Option, none, some, List, [], ◌∷◌, ◌++◌, map, leb, ltb, is_empty,
  Hashable, if◌then◌else◌, String,
}
use pydecorators.Prelude.Int.{ℤ, pos, ◌+ℤ◌, ◌-ℤ◌, leb_ℤ, ltb_ℤ, max_ℤ}
use pydecorators.Prelude.Dict.{Dict, lookup, insert}
use Ids.{WindowId, plain, calendar, id_eq}

pub data Kind : Type 0 where
  sliding calendar_kind : Kind

pub data CalendarUnit : Type 0 where
  minute hour day week : CalendarUnit

pub data WeekStart : Type 0 where
  monday sunday : WeekStart

-- `_NormalizedRateLimitWindow`, with the type of time zones as a parameter
pub record NormalizedWindow (Z : Type 0) : Type 0 where
  pub calls : ℕ
  pub period : ℤ
  pub window_id : String
  pub kind : Kind
  pub unit : Option CalendarUnit
  pub timezone : Option Z
  pub week_start : WeekStart

-- `_RuntimeRateLimitWindow`
pub record RuntimeWindow : Type 0 where
  pub calls : ℕ
  pub period : ℤ
  pub window_id : WindowId
  pub prune_before : ℤ
  pub reset_at : Option ℤ
  pub ttl : ℤ

-- `_RateLimitEvent`
pub record Event : Type 0 where
  pub timestamp : ℤ
  pub cost : ℕ

-- `_prune`: `while window and window[0].timestamp <= prune_before: window.popleft()`
unfoldable pub prune : ℤ → List Event → List Event
prune prune_before [] = []
prune prune_before (e ∷ rest) =
    let rest' = prune prune_before rest in
    if leb_ℤ e.timestamp prune_before then rest' else e ∷ rest

-- `sum(event.cost for event in events)`
unfoldable pub used_cost : List Event → ℕ
used_cost [] = 0
used_cost (e ∷ rest) = e.cost + used_cost rest

-- the `for` loop of `_window_wait_seconds`; what is freed is never more than what is used
unfoldable pub wait_until_freed : RuntimeWindow → (now : ℤ) (cost used freed : ℕ) → List Event → ℤ
wait_until_freed window now cost used freed [] = max_ℤ (pos 0) window.period
wait_until_freed window now cost used freed (e ∷ rest) =
    let rest' = wait_until_freed window now cost used (freed + e.cost) rest in
    if leb (used - (freed + e.cost) + cost) window.calls
    then max_ℤ (pos 0) (e.timestamp +ℤ window.period -ℤ now)
    else rest'

abbrev pub wait_over_limit : RuntimeWindow → (now : ℤ) (cost : ℕ) → List Event → Option ℤ → ℤ
wait_over_limit window now cost events (some reset_at) = max_ℤ (pos 0) (reset_at -ℤ now)
wait_over_limit window now cost events none =
    wait_until_freed window now cost (used_cost events) 0 events

unfoldable pub window_wait_seconds : List Event → RuntimeWindow → (now : ℤ) (cost : ℕ) → ℤ
window_wait_seconds events window now cost =
    if leb (used_cost events + cost) window.calls
    then pos 0
    else wait_over_limit window now cost events window.reset_at

module _ {Z : Type 0} (calendar_window_bounds : NormalizedWindow Z → ℤ → ℤ × ℤ) where
  abbrev pub runtime_of : Kind → NormalizedWindow Z → ℤ → RuntimeWindow
  runtime_of sliding window now = record {
    calls = window.calls;
    period = window.period;
    window_id = plain window.window_id;
    prune_before = now -ℤ window.period;
    reset_at = none;
    ttl = window.period;
  }
  runtime_of calendar_kind window now =
      let (start, end) = calendar_window_bounds window now in
      record {
        calls = window.calls;
        period = end -ℤ start;
        window_id = calendar window.window_id start;
        prune_before = start -ℤ pos 1;
        reset_at = some end;
        ttl = max_ℤ (pos 1_000_000) (end -ℤ now);
      }

  -- one round of the loop of `_runtime_windows`, and the loop
  abbrev pub runtime_window : ℤ → NormalizedWindow Z → RuntimeWindow
  runtime_window now window = runtime_of window.kind window now

  abbrev pub runtime_windows : List (NormalizedWindow Z) → ℤ → List RuntimeWindow
  runtime_windows windows now = map (runtime_window now) windows

-- `max((window.period for window in windows), default=1.0)`
abbrev pub larger_period : {Z : Type 0} → ℤ → List (NormalizedWindow Z) → ℤ
larger_period period [] = period
larger_period period (w ∷ windows) = larger_period (max_ℤ period w.period) windows

abbrev pub max_window_cleanup_period : {Z : Type 0} → List (NormalizedWindow Z) → ℤ
max_window_cleanup_period [] = pos 1_000_000
max_window_cleanup_period (w ∷ windows) = larger_period w.period windows

-- `any(cost > window.calls for window in windows)`
unfoldable pub cost_exceeds_capacity : {Z : Type 0} → ℕ → List (NormalizedWindow Z) → Bool
cost_exceeds_capacity cost [] = false
cost_exceeds_capacity cost (w ∷ windows) = ltb w.calls cost || cost_exceeds_capacity cost windows

-- The events of each window of one bucket key.
abbrev pub Bucket : Type 0
Bucket = Dict WindowId (List Event)

abbrev pub or_empty : Option (List Event) → List Event
or_empty none = []
or_empty (some events) = events

-- The first loop of `reserve_or_delay`: each window is pruned, and the longest wait is kept.
unfoldable pub check_windows :
    (now : ℤ) (cost : ℕ) → List RuntimeWindow → Bucket → (wait : ℤ) → Bucket × ℤ
check_windows now cost [] bucket wait = (bucket, wait)
check_windows now cost (w ∷ windows) bucket wait =
    let events = prune w.prune_before (or_empty (lookup w.window_id bucket)) in
    check_windows now cost windows (insert w.window_id events bucket)
      (max_ℤ wait (window_wait_seconds events w now cost))

-- The second loop: the event is appended to every window.
unfoldable pub append_event : Event → List RuntimeWindow → Bucket → Bucket
append_event event [] bucket = bucket
append_event event (w ∷ windows) bucket =
    append_event event windows
      (insert w.window_id (or_empty (lookup w.window_id bucket) ++ event ∷ []) bucket)

-- `_prune_idle_windows`: every window is pruned, and what is empty then is taken out.
unfoldable pub prune_bucket : ℤ → Bucket → Bucket
prune_bucket cleanup_before [] = []
prune_bucket cleanup_before ((window_id, events) ∷ rest) =
    let rest' = prune_bucket cleanup_before rest in
    let events' = prune cleanup_before events in
    if is_empty events' then rest' else (window_id, events') ∷ rest'

unfoldable pub prune_idle_windows : {K : Type 0} → ℤ → Dict K Bucket → Dict K Bucket
prune_idle_windows cleanup_before [] = []
prune_idle_windows cleanup_before ((key, bucket) ∷ rest) =
    let rest' = prune_idle_windows cleanup_before rest in
    let bucket' = prune_bucket cleanup_before bucket in
    if is_empty bucket' then rest' else (key, bucket') ∷ rest'

-- `self._windows[key]` of a `defaultdict(dict)`
abbrev pub bucket_or_new : Option Bucket → Bucket
bucket_or_new none = []
bucket_or_new (some bucket) = bucket

module _ {K Z : Type 0} ⦃e : Hashable K⦄ (bounds : NormalizedWindow Z → ℤ → ℤ × ℤ) where
  -- the end of `reserve_or_delay`: `none` if the call is reserved, else the seconds to wait
  abbrev pub settle :
      (now : ℤ) (cost : ℕ)
      → K
      → List RuntimeWindow
      → Dict K Bucket
      → Bucket × ℤ
      → Dict K Bucket × Option ℤ
  settle now cost key windows state (bucket, wait) =
      if ltb_ℤ (pos 0) wait then (insert key bucket state, some (max_ℤ (pos 0) wait)) else (
        insert key (append_event (record { timestamp = now; cost = cost }) windows bucket) state,
        none,
      )

  unfoldable pub reserve_or_delay :
      List (NormalizedWindow Z)
      → (now : ℤ) → K
      → (cost : ℕ) → Dict K Bucket
      → Dict K Bucket × Option ℤ
  reserve_or_delay config now key cost state =
      let state' = prune_idle_windows (now -ℤ max_window_cleanup_period config) state in
      let windows = runtime_windows bounds config now in
      settle now cost key windows state'
        (check_windows now cost windows (bucket_or_new (lookup key state')) (pos 0))
