-- ===== src/RateLimit/Tests.antt =====
-- The theorems at concrete inputs, and a configuration with two windows of one name.
use pydecorators.Prelude.{ℕ, ◌≡◌, ◌≤◌, refl, none, List, [], ◌∷◌, arith, inl, nat_eq, map, String}
use pydecorators.Prelude.Int.{ℤ, pos, ◌+ℤ◌, ◌-ℤ◌}
use pydecorators.Prelude.Dict.{Dict, lookup, insert}
use pydecorators.RateLimit.Ids.{plain}
use pydecorators.RateLimit.{
  sliding, monday, NormalizedWindow, RuntimeWindow, Event, Bucket, prune, used_cost,
  wait_until_freed, window_wait_seconds, check_windows, append_event, prune_bucket,
  prune_idle_windows, runtime_window, reserve_or_delay,
}
use pydecorators.RateLimit.Windows.{HasDistinctNames}
use pydecorators.RateLimit.Waiting
use pydecorators.RateLimit.Waiting.{IsFirstFit, freed_bound}
use pydecorators.RateLimit.Tracking.{cost_within}
use pydecorators.RateLimit.State.{IsWellFormed, events_of}
use pydecorators.RateLimit.Steps
use pydecorators.RateLimit.Steps.{IsSettled, kept_events}
use pydecorators.RateLimit.Safety
use pydecorators.RateLimit.Safety.{Request, admitted}

abbrev Window : Type 0
Window = NormalizedWindow (Unit {0})

-- No window here is a calendar window.
abbrev pub no_bounds : Window → ℤ → ℤ × ℤ
no_bounds w now = (now, now)

abbrev pub window : ℕ → ℕ → String → Window
window calls period name = record {
  calls = calls;
  period = pos period;
  window_id = name;
  kind = sliding;
  unit = none;
  timezone = none;
  week_start = monday;
}

abbrev pub config : List Window
config = window 2 10 "short" ∷ window 3 100 "long" ∷ []

abbrev call : ℕ → ℕ → Request ℕ
call now key = record { now = pos now; key = key; cost = 1 }

abbrev calls_made : List (Request ℕ)
calls_made = call 1 0 ∷ call 2 0 ∷ call 3 1 ∷ call 4 0 ∷ call 11 0 ∷ call 30 0 ∷ []

abbrev event : ℕ → Event
event t = record { timestamp = pos t; cost = 1 }

first_two_and_one_later :
    admitted no_bounds config 0 calls_made [] ≡ event 1 ∷ event 2 ∷ event 11 ∷ []
unfolding reserve_or_delay prune_idle_windows prune_bucket check_windows window_wait_seconds
    wait_until_freed used_cost append_event prune lookup insert ◌-ℤ◌ ◌+ℤ◌
first_two_and_one_later = refl

-- Two windows of one name share their events: the longer one is pruned by the shorter.
abbrev same_names : List Window
same_names = window 2 10 "api" ∷ window 100 1 "api" ∷ []

same_names_admit_five_in_ten_seconds :
    admitted no_bounds same_names 0
      (map (λ t. call t 0) (0 ∷ 2 ∷ 2 ∷ 4 ∷ 4 ∷ 6 ∷ 6 ∷ 8 ∷ 8 ∷ []))
      []
    ≡ event 0 ∷ event 2 ∷ event 4 ∷ event 6 ∷ event 8 ∷ []
unfolding reserve_or_delay prune_idle_windows prune_bucket check_windows window_wait_seconds
    wait_until_freed used_cost append_event prune lookup insert ◌-ℤ◌ ◌+ℤ◌
same_names_admit_five_in_ten_seconds = refl

pub names_differ : HasDistinctNames config
names_differ = (((λ e. cc), tt), (tt, tt))

admitted-IsWithinLimit_example :
    cost_within (pos 11 -ℤ pos 10) (pos 11) (admitted no_bounds config 0 calls_made []) ≤ 2
admitted-IsWithinLimit_example =
    Safety.admitted-IsWithinLimit no_bounds config (window 2 10 "short") 0 refl (inl refl)
      names_differ (omega arith) (pos 0) calls_made (omega arith) (pos 11)

abbrev two_events : List Event
two_events = event 1 ∷ event 2 ∷ []

-- After two calls with the key 0.
abbrev pub busy : Dict ℕ Bucket
busy = (0, (plain "short", two_events) ∷ (plain "long", two_events) ∷ []) ∷ []

pub busy-IsWellFormed : IsWellFormed busy
unfolding lookup
busy-IsWellFormed = ((refl, tt), ((refl, (refl, tt)), tt))

reserve_or_delay-IsSettled_example :
    let w = window 2 10 "short" in
    let v = runtime_window no_bounds (pos 4) w in
    let r = reserve_or_delay no_bounds config (pos 4) 0 1 busy in
    IsSettled {K = ℕ} no_bounds config
      (pos 4)
      0
      1
      v
      (prune v.prune_before (kept_events config (pos 4) 0 v.window_id busy))
      (events_of 0 v.window_id r.0)
      r.1
reserve_or_delay-IsSettled_example =
    Steps.reserve_or_delay-IsSettled no_bounds config (pos 4) 0 1 (window 2 10 "short") busy
      busy-IsWellFormed (inl refl) names_differ

abbrev short_at_four : RuntimeWindow
short_at_four = runtime_window no_bounds (pos 4) (window 2 10 "short")

window_wait_seconds-IsFirstFit_example :
    IsFirstFit 2 1
      (freed_bound short_at_four (pos 4) 1 (window_wait_seconds two_events short_at_four (pos 4) 1))
      two_events
unfolding used_cost ◌-ℤ◌
window_wait_seconds-IsFirstFit_example =
    Waiting.window_wait_seconds-IsFirstFit short_at_four (pos 4) 1 two_events refl (omega arith)
      (omega arith) (omega arith) (omega arith)
