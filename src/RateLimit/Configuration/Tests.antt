-- ===== src/RateLimit/Configuration/Tests.antt =====
-- The theorem at a concrete input: a pair, a named sliding window and a calendar window.
use pydecorators.Prelude.{
  ℕ, ◌≡◌, refl, none, some, List, [], ◌∷◌, length, nat_eq, ◌==◌, string_eq, if◌then◌else◌,
}
use pydecorators.Prelude.Int.{pos, ◌+ℤ◌, ◌-ℤ◌}
use pydecorators.Prelude.Effect.{returned, raised}
use pydecorators.Exceptions.{configuration_error, foreign}
use pydecorators.RateLimit.Configuration.{
  Window, sliding_window, calendar_window, pair_window, Library, zone_raised, normalize_windows,
}
use pydecorators.Prelude.Dict.{lookup, insert}
use pydecorators.RateLimit.{
  NormalizedWindow, sliding, monday, reserve_or_delay, prune_idle_windows, prune_bucket, prune,
  check_windows, window_wait_seconds, used_cost, wait_until_freed, append_event,
}
use pydecorators.RateLimit.Safety.{Request, admitted}
use pydecorators.RateLimit.Configuration.Normalized
use pydecorators.RateLimit.Configuration.Normalized.{IsConfigured, IsZoneError, AreGiven}

abbrev library : Library ℕ ℕ
library = record {
  strip = λ s. s;
  digest_text = λ s. s;
  window_text = λ index window. "unnamed";
  zone_info = λ zone. if zone == "UTC" then returned 0 else raised (zone_raised 7);
}

abbrev windows : List Window
windows =
    pair_window (pos 2) (pos 10)
    ∷ sliding_window (record { calls = pos 3; period = pos 60; name = some "slow" })
    ∷ calendar_window (record {
      calls = pos 100;
      unit = "day";
      name = none;
      timezone = "UTC";
      week_start = "monday";
    })
    ∷ []

normalize_windows-AreGiven_example :
    IsConfigured
      (IsZoneError library)
      (AreGiven (some windows))
      (normalize_windows library none none (some windows))
normalize_windows-AreGiven_example =
    Normalized.normalize_windows-AreGiven library none none (some windows)

-- The name of a time zone that `ZoneInfo` takes for a path: its `ValueError` is passed on.
abbrev astray : List Window
astray =
    calendar_window (record {
      calls = pos 1;
      unit = "day";
      name = none;
      timezone = "../UTC";
      week_start = "monday";
    })
    ∷ []

zone_error_passed : normalize_windows library none none (some astray) ≡ raised (foreign 7)
unfolding normalize_windows
zone_error_passed = refl

-- calls and windows at once
not_combined :
    normalize_windows library (some (pos 1)) none (some windows)
    ≡ raised (configuration_error "calls and period cannot be combined with windows")
unfolding normalize_windows
not_combined = refl

-- Two windows of one name: both are accepted, and get one id.
abbrev namesakes : List Window
namesakes =
    sliding_window (record { calls = pos 2; period = pos 10; name = some "a" })
    ∷ sliding_window (record { calls = pos 3; period = pos 60; name = some "a" })
    ∷ []

abbrev window : ℕ → ℕ → NormalizedWindow ℕ
window calls period = record {
  calls = calls;
  period = pos period;
  window_id = "a";
  kind = sliding;
  unit = none;
  timezone = none;
  week_start = monday;
}

namesakes_accepted :
    normalize_windows library none none (some namesakes) ≡ returned (window 2 10 ∷ window 3 60 ∷ [])
unfolding normalize_windows
namesakes_accepted = refl

abbrev request : ℕ → Request ℕ
request now = record { now = pos now; key = 0; cost = 1 }

-- Then the longer window holds nothing older than the shorter period: of four calls within 60 all four
-- are admitted, where the second window allows three.
one_too_many :
    length (
      admitted
        (λ w now. (now, now))
        (window 2 10 ∷ window 3 60 ∷ [])
        0
        (request 0 ∷ request 11 ∷ request 22 ∷ request 33 ∷ [])
        [])
    ≡ 4
unfolding reserve_or_delay prune_idle_windows prune_bucket prune check_windows window_wait_seconds
    used_cost wait_until_freed append_event lookup insert ◌+ℤ◌ ◌-ℤ◌
one_too_many = refl
