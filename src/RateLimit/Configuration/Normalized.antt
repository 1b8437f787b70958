-- ===== src/RateLimit/Configuration/Normalized.antt =====
-- What the windows are that `_normalize_rate_limit_windows` accepts.
use pydecorators.Prelude.{
  ℕ, suc, ◌+◌, ◌<◌, ◌≡◌, refl, Bool, true, false, ◌||◌, Option, none, some, List, [], ◌∷◌, String,
  arith, All, ◌==◌, string_eq, nat_eq, if◌then◌else◌, is_empty, is_some, length,
}
use pydecorators.Prelude.Int.{ℤ, pos, leb_ℤ, pos_part, ◌<ℤ◌}
use pydecorators.Prelude.Effect.{Outcome, returned, raised}
use pydecorators.Exceptions.{Exn, configuration_error, foreign}
use pydecorators.RateLimit.{
  Kind, sliding, calendar_kind, CalendarUnit, minute, hour, day, week, NormalizedWindow,
}
use pydecorators.RateLimit.Configuration.{
  RateLimitWindow, CalendarRateLimitWindow, Window, sliding_window, calendar_window, pair_window,
  long_tuple, no_window, Library, ZoneError, zone_not_found, zone_raised, zone_or, unit_of,
  week_start_of, calendar_unit_seconds, and_then, found_or, is_blank_name, normalize_sliding,
  normalize_calendar, normalize_window, normalize_from, normalize_default, normalize_windows,
}

-- A calendar window has its unit and time zone, and a sliding window needs none.
abbrev pub HasKindData : {Z : Type 0} → Kind → NormalizedWindow Z → Type 0
HasKindData sliding w = Unit
HasKindData {Z} calendar_kind w =
    (unit : CalendarUnit) × (zone : Z) × (w.unit ≡ some unit)
    × (w.timezone ≡ some zone)
    × (w.period ≡ calendar_unit_seconds unit)

-- A window that the limiters can work with.
abbrev pub IsUsable : {Z : Type 0} → NormalizedWindow Z → Type 0
IsUsable w = (0 < w.calls) × (pos 0 <ℤ w.period) × HasKindData w.kind w

-- An outcome is a `ConfigurationError`, an exception of another origin that has `R`, or what is
-- returned has `P`.
abbrev pub IsConfigured : {E A : Type 0} → (E → Type 0) → (A → Type 0) → Outcome (Exn E) A → Type 0
IsConfigured R P (returned a) = P a
IsConfigured R P (raised (configuration_error text)) = Unit
IsConfigured R P (raised (foreign x)) = R x
IsConfigured R P (raised e) = ⊥

-- What `ZoneInfo` raised for the name of a time zone, other than a `ZoneInfoNotFoundError`.
abbrev pub IsZoneError : {Z E : Type 0} → Library Z E → E → Type 0
IsZoneError library x = (timezone : String) × (library.zone_info timezone ≡ raised (zone_raised x))

module _ {E : Type 0} (R : E → Type 0) where
  if-IsConfigured :
      {A : Type 0} (P : A → Type 0) (b : Bool) (text : String) (rest : Outcome (Exn E) A)
      → (b ≡ false → IsConfigured R P rest)
      → IsConfigured R P (if b then raised (configuration_error text) else rest)
  if-IsConfigured P true text rest h = tt
  if-IsConfigured P false text rest h = h refl

  found_or-IsConfigured :
      {A B : Type 0} (P : B → Type 0) (o : Option A) (text : String) (f : A → Outcome (Exn E) B)
      → ((a : A) → IsConfigured R P (f a))
      → IsConfigured R P (found_or o (configuration_error text) f)
  found_or-IsConfigured P none text f h = tt
  found_or-IsConfigured P (some a) text f h = h a

  zone_or-IsConfigured :
      {A B : Type 0} (P : B → Type 0) (o : Outcome (ZoneError E) A) (text : String)
      (f : A → Outcome (Exn E) B)
      → ((x : E) → o ≡ raised (zone_raised x) → R x)
      → ((a : A) → IsConfigured R P (f a))
      → IsConfigured R P (zone_or o (configuration_error text) f)
  zone_or-IsConfigured P (returned a) text f r h = h a
  zone_or-IsConfigured P (raised zone_not_found) text f r h = tt
  zone_or-IsConfigured P (raised (zone_raised x)) text f r h = r x refl

  and_then-IsConfigured :
      {A B : Type 0} (P : A → Type 0) (Q : B → Type 0) (m : Outcome (Exn E) A)
      (f : A → Outcome (Exn E) B)
      → IsConfigured R P m
      → ((a : A) → P a → IsConfigured R Q (f a))
      → IsConfigured R Q (and_then m f)
  and_then-IsConfigured P Q (returned a) f h k = k a h
  and_then-IsConfigured P Q (raised (configuration_error text)) f h k = tt
  and_then-IsConfigured P Q (raised (foreign x)) f h k = h
  and_then-IsConfigured P Q (raised e) f h k = absurd h

  and_kept :
      {A : Type 0} (P : A → Type 0) (Q : Type 0) (m : Outcome (Exn E) A)
      → Q
      → IsConfigured R P m
      → IsConfigured R (λ a. P a × Q) m
  and_kept P Q (returned a) q h = (h, q)
  and_kept P Q (raised (configuration_error text)) q h = tt
  and_kept P Q (raised (foreign x)) q h = h
  and_kept P Q (raised e) q h = absurd h

positive_part : (n : ℤ) → leb_ℤ n (pos 0) ≡ false → 0 < pos_part n
positive_part n h = ground arith

positive : (n : ℤ) → leb_ℤ n (pos 0) ≡ false → pos 0 <ℤ n
positive n h = ground arith

unit_is_positive : (unit : CalendarUnit) → pos 0 <ℤ calendar_unit_seconds unit
unit_is_positive minute = omega arith
unit_is_positive hour = omega arith
unit_is_positive day = omega arith
unit_is_positive week = omega arith

some_length : (windows : List Window) → is_empty windows ≡ false → 0 < length windows
some_length [] h = cc h
some_length (w ∷ windows) h = omega arith

-- As many usable windows as were given.
abbrev pub AreUsable : {Z : Type 0} → ℕ → List (NormalizedWindow Z) → Type 0
AreUsable n ws = All IsUsable ws × (length ws ≡ n)

-- What is to come of the arguments: one window, or as many as were given, and at least one.
abbrev pub AreGiven : {Z : Type 0} → Option (List Window) → List (NormalizedWindow Z) → Type 0
AreGiven none ws = AreUsable 1 ws
AreGiven (some windows) ws = AreUsable (length windows) ws × (0 < length windows)

module _ {Z E : Type 0} (library : Library Z E) where
  abbrev R : E → Type 0
  R = IsZoneError library

  normalize_sliding-IsUsable :
      (w : RateLimitWindow) (index : ℕ) (single : Bool)
      → IsConfigured R IsUsable (normalize_sliding library w index single)
  normalize_sliding-IsUsable w index single =
      if-IsConfigured R IsUsable (leb_ℤ w.calls (pos 0)) _ _ (λ calls.
        if-IsConfigured R IsUsable (leb_ℤ w.period (pos 0)) _ _ (λ period.
          if-IsConfigured R IsUsable (is_blank_name library w.name) _ _
            (λ named. (positive_part w.calls calls, positive w.period period, tt))))

  normalize_calendar-IsUsable :
      (w : CalendarRateLimitWindow) (index : ℕ) (single : Bool)
      → IsConfigured R IsUsable (normalize_calendar library w index single)
  normalize_calendar-IsUsable w index single =
      if-IsConfigured R IsUsable (leb_ℤ w.calls (pos 0)) _ _ (λ calls.
        found_or-IsConfigured R IsUsable (unit_of w.unit) _ _ (λ unit.
          if-IsConfigured R IsUsable (is_blank_name library w.name) _ _ (λ named.
            if-IsConfigured R IsUsable (library.strip w.timezone == "") _ _ (λ zoned.
              found_or-IsConfigured R IsUsable (week_start_of w.week_start) _ _ (λ week_start.
                zone_or-IsConfigured R IsUsable (library.zone_info w.timezone) _ _
                  (λ x h. (w.timezone, h))
                  (λ zone. (
                    positive_part w.calls calls,
                    unit_is_positive unit,
                    (unit, zone, refl, refl, refl),
                  )))))))

  normalize_window-IsUsable :
      (w : Window) (index : ℕ) (single : Bool)
      → IsConfigured R IsUsable (normalize_window library w index single)
  normalize_window-IsUsable (sliding_window w) index single =
      normalize_sliding-IsUsable w index single
  normalize_window-IsUsable (calendar_window w) index single =
      normalize_calendar-IsUsable w index single
  normalize_window-IsUsable (pair_window calls period) index single =
      normalize_sliding-IsUsable (record { calls = calls; period = period; name = none }) index
        single
  normalize_window-IsUsable long_tuple index single = tt
  normalize_window-IsUsable no_window index single = tt

  normalize_from-AreUsable :
      (windows : List Window) (index : ℕ) (single : Bool)
      → IsConfigured R (AreUsable (length windows)) (normalize_from library index single windows)
  normalize_from-AreUsable [] index single = (tt, refl)
  normalize_from-AreUsable (w ∷ windows) index single =
      and_then-IsConfigured R IsUsable (AreUsable (suc (length windows)))
        (normalize_window library w index single) _ (normalize_window-IsUsable w index single)
        (λ done usable.
          and_then-IsConfigured R (AreUsable (length windows)) (AreUsable (suc (length windows)))
            (normalize_from library (index + 1) single windows) _
            (normalize_from-AreUsable windows (index + 1) single)
            (λ rest all_usable. ((usable, all_usable.0), omega (arith, all_usable.1))))

  normalize_default-IsGiven :
      (calls period : Option ℤ)
      → IsConfigured R (AreGiven none) (normalize_default library calls period)
  normalize_default-IsGiven none period = tt
  normalize_default-IsGiven (some calls) none = tt
  normalize_default-IsGiven (some calls) (some period) =
      and_then-IsConfigured R IsUsable (AreGiven none)
        (normalize_sliding library (record { calls = calls; period = period; name = none }) 0 true)
        _
        (normalize_sliding-IsUsable (record { calls = calls; period = period; name = none }) 0 true)
        (λ w usable. ((usable, tt), refl))

  -- Whatever the arguments, `rate_limit` gives a `ConfigurationError`, or passes on an exception that
  -- `ZoneInfo` raised for a time zone and that is no `ZoneInfoNotFoundError`, or gives as many windows as
  -- were given and at least one, each with a positive number of calls and a positive period, and each calendar window
  -- with its unit, its time zone and the length of its unit, so that the bounds of a window are defined.
  pub normalize_windows-AreGiven :
      (calls period : Option ℤ) (windows : Option (List Window))
      → IsConfigured
          (IsZoneError library)
          (AreGiven windows)
          (normalize_windows library calls period windows)
  unfolding normalize_windows
  normalize_windows-AreGiven calls period none = normalize_default-IsGiven calls period
  normalize_windows-AreGiven calls period (some windows) =
      if-IsConfigured R (AreGiven (some windows)) (is_some calls || is_some period) _ _ (λ alone.
        if-IsConfigured R (AreGiven (some windows)) (is_empty windows) _ _ (λ given.
          and_kept R (AreUsable (length windows)) (0 < length windows)
            (normalize_from library 0 (length windows == 1) windows) (some_length windows given)
            (normalize_from-AreUsable windows 0 (length windows == 1))))
