-- ===== src/RateLimit/Configuration.antt =====
-- src/pydecorators/rate_limit.py: the windows that `rate_limit` takes, and how they are normalized.
-- `str.strip`, digests, the printing of a window and `ZoneInfo` are parameters. Periods are in microseconds.
pub mod Normalized
mod Tests
use pydecorators.Prelude.{
  ℕ, ◌+◌, Bool, true, false, not, ◌||◌, Option, none, some, List, [], ◌∷◌, String, ◌==◌, string_eq,
  if◌then◌else◌, is_empty, is_some, length, nat_eq,
}
use pydecorators.Prelude.Int.{ℤ, pos, leb_ℤ, pos_part}
use pydecorators.Prelude.Effect.{Outcome, returned, raised}
use pydecorators.Exceptions.{Exn, configuration_error, foreign}
use pydecorators.RateLimit.{
  sliding, calendar_kind, CalendarUnit, minute, hour, day, week, WeekStart, monday, sunday,
  NormalizedWindow,
}

-- `RateLimitWindow`
pub record RateLimitWindow : Type 0 where
  pub calls : ℤ
  pub period : ℤ
  pub name : Option String

-- `CalendarRateLimitWindow`
pub record CalendarRateLimitWindow : Type 0 where
  pub calls : ℤ
  pub unit : String
  pub name : Option String
  pub timezone : String
  pub week_start : String

-- An element of `windows`.
pub data Window : Type 0 where
  sliding_window : RateLimitWindow → Window
  calendar_window : CalendarRateLimitWindow → Window
  pair_window : (calls period : ℤ) → Window
  long_tuple : Window  -- a tuple of another length
  no_window : Window  -- anything else

-- What `ZoneInfo` raises for a name: a `ZoneInfoNotFoundError`, or another exception, as the
-- `ValueError` for a name that is a path.
pub data ZoneError (E : Type 0) : Type 0 where
  zone_not_found : ZoneError E
  zone_raised : E → ZoneError E

-- What the code asks of strings and of the time zone database.
pub record Library (Z E : Type 0) : Type 0 where
  pub strip : String → String
  pub digest_text : String → String
  pub window_text : ℕ → RateLimitWindow → String  -- `f"{index}:{window.calls}:{float(window.period)!r}"`
  pub zone_info : String → Outcome (ZoneError E) Z

-- `unit in {...}`, and the unit
abbrev pub unit_of : String → Option CalendarUnit
unit_of s =
    if s == "minute"
    then some minute
    else if s == "hour"
    then some hour
    else if s == "day"
    then some day
    else if s == "week"
    then some week
    else none

abbrev pub week_start_of : String → Option WeekStart
week_start_of s = if s == "monday" then some monday else if s == "sunday" then some sunday else none

-- `_calendar_unit_seconds`
abbrev pub calendar_unit_seconds : CalendarUnit → ℤ
calendar_unit_seconds minute = pos 60_000_000
calendar_unit_seconds hour = pos 3_600_000_000
calendar_unit_seconds day = pos 86_400_000_000
calendar_unit_seconds week = pos 604_800_000_000

-- go on with a result
abbrev pub and_then : {E A B : Type 0} → Outcome E A → (A → Outcome E B) → Outcome E B
and_then (returned a) f = f a
and_then (raised e) f = raised e

abbrev pub found_or : {E A B : Type 0} → Option A → E → (A → Outcome E B) → Outcome E B
found_or none e f = raised e
found_or (some a) e f = f a

-- `except ZoneInfoNotFoundError`; any other exception is passed on.
abbrev pub zone_or :
    {E A B : Type 0} → Outcome (ZoneError E) A → Exn E → (A → Outcome (Exn E) B) → Outcome (Exn E) B
zone_or (returned zone) unknown f = f zone
zone_or (raised zone_not_found) unknown f = raised unknown
zone_or (raised (zone_raised x)) unknown f = raised (foreign x)

module _ {Z E : Type 0} (library : Library Z E) where
  -- `name is not None and not name.strip()`
  abbrev pub is_blank_name : Option String → Bool
  is_blank_name none = false
  is_blank_name (some name) = library.strip name == ""

  -- `_window_id`
  abbrev pub id_for_name : ℕ → RateLimitWindow → Option String → String
  id_for_name index window none = library.digest_text (library.window_text index window)
  id_for_name index window (some name) = library.digest_text (library.strip name)

  abbrev pub window_id_for : RateLimitWindow → ℕ → String
  window_id_for window index = id_for_name index window window.name

  abbrev pub calendar_normalized :
      CalendarRateLimitWindow → ℕ → CalendarUnit → WeekStart → Z → NormalizedWindow Z
  calendar_normalized window index unit week_start zone = record {
    calls = pos_part window.calls;
    period = calendar_unit_seconds unit;
    window_id =
        window_id_for
          (record { calls = window.calls; period = calendar_unit_seconds unit; name = window.name })
          index;
    kind = calendar_kind;
    unit = some unit;
    timezone = some zone;
    week_start = week_start;
  }

module _ {Z E : Type 0} (library : Library Z E) where
  -- the checks of `_normalize_rate_limit_window` on a sliding window
  abbrev pub normalize_sliding : RateLimitWindow → ℕ → Bool → Outcome (Exn E) (NormalizedWindow Z)
  normalize_sliding window index single_window =
      if leb_ℤ window.calls (pos 0)
      then raised (
          configuration_error (
            if single_window
            then "calls must be greater than zero"
            else "window calls must be greater than zero"))
      else if leb_ℤ window.period (pos 0)
      then raised (
          configuration_error (
            if single_window
            then "period must be greater than zero"
            else "window period must be greater than zero"))
      else if is_blank_name library window.name
      then raised (configuration_error "window name must not be empty when provided")
      else returned (record {
        calls = pos_part window.calls;
        period = window.period;
        window_id = if single_window then "default" else window_id_for library window index;
        kind = sliding;
        unit = none;
        timezone = none;
        week_start = monday;
      })

  -- `_normalize_calendar_rate_limit_window`
  abbrev pub normalize_calendar :
      CalendarRateLimitWindow → ℕ → Bool → Outcome (Exn E) (NormalizedWindow Z)
  normalize_calendar window index single_window =
      if leb_ℤ window.calls (pos 0)
      then raised (
          configuration_error (
            if single_window
            then "calls must be greater than zero"
            else "calendar window calls must be greater than zero"))
      else found_or (unit_of window.unit)
          (configuration_error
            "calendar window unit must be \"minute\", \"hour\", \"day\", or \"week\"")
          (λ unit.
            if is_blank_name library window.name
            then raised (configuration_error "calendar window name must not be empty when provided")
            else if library.strip window.timezone == ""
            then raised (configuration_error "calendar window timezone must not be empty")
            else found_or (week_start_of window.week_start)
                (configuration_error "calendar window week_start must be \"monday\" or \"sunday\"")
                (λ week_start.
                  zone_or (library.zone_info window.timezone)
                    (configuration_error "unknown calendar window timezone")
                    (λ zone.
                      returned (calendar_normalized library window index unit week_start zone))))

  -- `_normalize_rate_limit_window`
  abbrev pub normalize_window : Window → ℕ → Bool → Outcome (Exn E) (NormalizedWindow Z)
  normalize_window (sliding_window window) index single_window =
      normalize_sliding window index single_window
  normalize_window (calendar_window window) index single_window =
      normalize_calendar window index single_window
  normalize_window (pair_window calls period) index single_window =
      normalize_sliding (record { calls = calls; period = period; name = none }) index single_window
  normalize_window long_tuple index single_window =
      raised (configuration_error "rate limit window tuples must be (calls, period)")
  normalize_window no_window index single_window =
      raised (
        configuration_error
          "windows must contain RateLimitWindow objects or (calls, period) tuples")

  -- the generator over `enumerate(windows)`
  abbrev pub normalize_from : ℕ → Bool → List Window → Outcome (Exn E) (List (NormalizedWindow Z))
  normalize_from index single_window [] = returned []
  normalize_from index single_window (window ∷ windows) =
      let rest = normalize_from (index + 1) single_window windows in
      and_then (normalize_window window index single_window)
        (λ w. and_then rest (λ ws. returned (w ∷ ws)))

  abbrev pub normalize_default :
      (calls period : Option ℤ) → Outcome (Exn E) (List (NormalizedWindow Z))
  normalize_default (some calls) (some period) =
      and_then (normalize_sliding (record { calls = calls; period = period; name = none }) 0 true)
        (λ w. returned (w ∷ []))
  normalize_default _ _ =
      raised (configuration_error "calls and period are required when windows is not provided")

  -- `_normalize_rate_limit_windows`
  unfoldable pub normalize_windows :
      (calls period : Option ℤ) → Option (List Window) → Outcome (Exn E) (List (NormalizedWindow Z))
  normalize_windows calls period none = normalize_default calls period
  normalize_windows calls period (some windows) =
      if is_some calls || is_some period
      then raised (configuration_error "calls and period cannot be combined with windows")
      else if is_empty windows
      then raised (configuration_error "windows must contain at least one rate limit window")
      else normalize_from 0 (length windows == 1) windows
