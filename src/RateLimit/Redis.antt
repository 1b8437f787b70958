-- ===== src/RateLimit/Redis.antt =====
-- src/pydecorators/rate_limit.py, the Redis limiter: `_RedisSlidingWindowLimiter.reserve_or_delay` and the
-- Lua script that it evaluates, for the keys of one bucket. The commands of Redis are a parameter. Times
-- are in microseconds, waits in milliseconds; the script runs as one step.
pub mod Waits
pub mod Sets
pub mod Refinement
pub mod Cleanup
mod Tests
use pydecorators.Prelude.{
  ℕ, suc, ◌+◌, ◌-◌, ◌/◌, Bool, false, Option, none, some, List, [], ◌∷◌, leb, ltb, String, nat_beq,
  if◌then◌else◌,
}
use pydecorators.Prelude.Int.{ℤ, pos, negsuc, ◌+ℤ◌, ◌-ℤ◌, ltb_ℤ, max_ℤ}
use pydecorators.RateLimit.{RuntimeWindow, NormalizedWindow, runtime_windows}
use pydecorators.RateLimit.Ids.{WindowId}

-- A member of a sorted set: the four parts of its text, or a text of another form.
pub data Member : Type 0 where
  tagged : (cost : ℕ) → (now : ℤ) → (index sequence : ℕ) → Member
  untagged : String → Member

-- The commands, on the keys of one bucket: a sorted set for each window, and the sequence.
pub record SortedSets (S : Type 0) : Type 0 where
  pub zremrangebyscore : WindowId → (max : ℤ) → S → S
  pub zrange : WindowId → S → List (ℤ × Member)  -- with scores
  pub zadd : WindowId → (score : ℤ) → Member → S → S
  pub pexpire : WindowId → (ttl_ms : ℤ) → S → S
  pub incr : S → ℕ × S
  pub pexpire_sequence : (ttl_ms : ℤ) → S → S

-- `event_cost`
abbrev pub event_cost : Member → ℕ
event_cost (tagged cost now index sequence) = cost
event_cost (untagged s) = 1

-- `math.ceil(seconds * 1000)`
unfoldable pub ceil_ms : ℤ → ℤ
ceil_ms (pos n) = pos ((n + 999) / 1000)
ceil_ms (negsuc n) = pos 0 -ℤ pos (suc n / 1000)

-- the loop over the events that adds up `used`
unfoldable pub script_used : ℕ → List (ℤ × Member) → ℕ
script_used used [] = used
script_used used ((score, member) ∷ events) = script_used (used + event_cost member) events

-- the loop over the events that finds when enough is freed; 0 if never
unfoldable pub script_freed : (now period : ℤ) (calls cost used freed : ℕ) → List (ℤ × Member) → ℤ
script_freed now period calls cost used freed [] = pos 0
script_freed now period calls cost used freed ((score, member) ∷ events) =
    let rest = script_freed now period calls cost used (freed + event_cost member) events in
    if leb (used - (freed + event_cost member) + cost) calls then score +ℤ period -ℤ now else rest

-- `wait_seconds == 0`
abbrev pub is_zero : ℤ → Bool
is_zero (pos n) = nat_beq n 0
is_zero (negsuc n) = false

abbrev pub script_sliding_wait : (period wait_seconds : ℤ) → ℤ
script_sliding_wait period wait_seconds = if is_zero wait_seconds then period else wait_seconds

-- What the script gets for `reset_at`.
abbrev pub reset_argument : Option ℤ → ℤ
reset_argument none = pos 0
reset_argument (some reset_at) = reset_at

-- `wait_seconds`, of a window that is over its limit
unfoldable pub script_wait_seconds :
    RuntimeWindow → (now : ℤ) (cost used : ℕ) → List (ℤ × Member) → ℤ
script_wait_seconds window now cost used events =
    if ltb_ℤ (pos 0) (reset_argument window.reset_at)
    then reset_argument window.reset_at -ℤ now
    else script_sliding_wait window.period
        (script_freed now window.period window.calls cost used 0 events)

-- `max_wait_ms` after a window
unfoldable pub script_max_wait :
    RuntimeWindow → (now : ℤ) (cost : ℕ) → List (ℤ × Member) → (max_wait_ms : ℤ) → ℤ
script_max_wait window now cost events max_wait_ms =
    let used = script_used 0 events in
    if ltb window.calls (used + cost)
    then max_ℤ max_wait_ms
        (max_ℤ (pos 0) (ceil_ms (script_wait_seconds window now cost used events)))
    else max_wait_ms

-- The answer to the script's result; a wait is in milliseconds.
abbrev pub delay_of : ℕ × ℤ → Option ℤ
delay_of (status, wait_ms) = if nat_beq status 0 then none else some (max_ℤ (pos 0) wait_ms)

module _ {S : Type 0} (redis : SortedSets S) where
  -- the first loop of the script
  unfoldable pub script_check :
      (now : ℤ) (cost : ℕ) → List RuntimeWindow → S → (max_wait_ms : ℤ) → S × ℤ
  script_check now cost [] s max_wait_ms = (s, max_wait_ms)
  script_check now cost (w ∷ windows) s max_wait_ms =
      let s' = redis.zremrangebyscore w.window_id w.prune_before s in
      script_check now cost windows s'
        (script_max_wait w now cost (redis.zrange w.window_id s') max_wait_ms)

  -- the second loop, and the expiry of the sequence after it
  unfoldable pub script_add :
      (now : ℤ) (cost sequence index : ℕ) → List RuntimeWindow → (max_ttl_ms : ℤ) → S → S
  script_add now cost sequence index [] max_ttl_ms s = redis.pexpire_sequence max_ttl_ms s
  script_add now cost sequence index (w ∷ windows) max_ttl_ms s =
      let ttl_ms = max_ℤ (pos 1) (ceil_ms w.ttl) in
      script_add now cost sequence (index + 1) windows (max_ℤ max_ttl_ms ttl_ms) (
        redis.pexpire w.window_id ttl_ms
          (redis.zadd w.window_id now (tagged cost now index sequence) s))

  abbrev pub script_reserve : (now : ℤ) (cost : ℕ) → List RuntimeWindow → ℕ × S → S
  script_reserve now cost windows (sequence, s) = script_add now cost sequence 1 windows (pos 1) s

  abbrev pub script_end : (now : ℤ) (cost : ℕ) → List RuntimeWindow → S × ℤ → (ℕ × ℤ) × S
  script_end now cost windows (s, max_wait_ms) =
      if ltb_ℤ (pos 0) max_wait_ms
      then ((1, max_wait_ms), s)
      else ((0, pos 0), script_reserve now cost windows (redis.incr s))

  -- `_REDIS_RATE_LIMIT_SCRIPT`: the status and the wait in milliseconds
  unfoldable pub evaluate_script : (now : ℤ) (cost : ℕ) → List RuntimeWindow → S → (ℕ × ℤ) × S
  evaluate_script now cost windows s =
      script_end now cost windows (script_check now cost windows s (pos 0))

  -- `_RedisSlidingWindowLimiter.reserve_or_delay`
  unfoldable pub redis_reserve_or_delay :
      {Z : Type 0}
      → (bounds : NormalizedWindow Z → ℤ → ℤ × ℤ) → List (NormalizedWindow Z)
      → (now : ℤ) (cost : ℕ) → S
      → Option ℤ × S
  redis_reserve_or_delay bounds config now cost s =
      let (answer, s') = evaluate_script now cost (runtime_windows bounds config now) s in
      (delay_of answer, s')
