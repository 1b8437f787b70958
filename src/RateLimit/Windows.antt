-- ===== src/RateLimit/Windows.antt =====
-- The runtime windows of a configuration: `_runtime_windows` and `_max_window_cleanup_period`.
use pydecorators.Prelude.{◌≢◌, List, [], ◌∷◌, arith, All, inl, inr, ap}
use pydecorators.Prelude.Int.{◌-ℤ◌, -ℤ_parts, ℤ, ◌≤ℤ◌, max_ℤ}
use pydecorators.RateLimit.{
  Kind, sliding, calendar_kind, NormalizedWindow, runtime_window, runtime_windows, runtime_of,
  larger_period, max_window_cleanup_period,
}
use pydecorators.RateLimit.Buckets.{IsApart, HasDistinctIds, IsOneOf}

module _ {Z : Type 0} where
  -- No two windows of the configuration have one name.
  abbrev pub HasDistinctNames : List (NormalizedWindow Z) → Type 0
  HasDistinctNames [] = Unit
  HasDistinctNames (w ∷ ws) = All (λ v. w.window_id ≢ v.window_id) ws × HasDistinctNames ws

  le-larger_period : (p : ℤ) (ws : List (NormalizedWindow Z)) → p ≤ℤ larger_period p ws
  le-larger_period p [] = omega arith
  le-larger_period p (w ∷ ws) = ground (arith, le-larger_period (max_ℤ p w.period) ws)

  member-le-larger_period :
      (p : ℤ) (w : NormalizedWindow Z) (ws : List (NormalizedWindow Z))
      → IsOneOf w ws
      → w.period ≤ℤ larger_period p ws
  member-le-larger_period p w [] m = absurd m
  member-le-larger_period p w (v ∷ ws) (inl same) =
      rw same (ground (arith, le-larger_period (max_ℤ p v.period) ws))
  member-le-larger_period p w (v ∷ ws) (inr m) = member-le-larger_period (max_ℤ p v.period) w ws m

  -- Cleaning up keeps whatever a window of the configuration can still need.
  period-le-max_window_cleanup_period :
      (w : NormalizedWindow Z) (ws : List (NormalizedWindow Z))
      → IsOneOf w ws
      → w.period ≤ℤ max_window_cleanup_period ws
  period-le-max_window_cleanup_period w [] m = absurd m
  period-le-max_window_cleanup_period w (v ∷ ws) (inl same) = rw same (le-larger_period v.period ws)
  period-le-max_window_cleanup_period w (v ∷ ws) (inr m) = member-le-larger_period v.period w ws m

  pub cleanup_le :
      (w : NormalizedWindow Z) (ws : List (NormalizedWindow Z))
      → IsOneOf w ws
      → (now : ℤ) → now -ℤ max_window_cleanup_period ws ≤ℤ now -ℤ w.period
  cleanup_le w ws member now =
      let p = max_window_cleanup_period ws in
      omega (
        arith,
        period-le-max_window_cleanup_period w ws member,
        -ℤ_parts now p,
        -ℤ_parts now w.period,
      )

module _ {Z : Type 0} (bounds : NormalizedWindow Z → ℤ → ℤ × ℤ) where
  runtime_ids_differ :
      (now : ℤ) (j k : Kind) (w v : NormalizedWindow Z)
      → w.window_id ≢ v.window_id
      → (runtime_of bounds j w now).window_id ≢ (runtime_of bounds k v now).window_id
  runtime_ids_differ now sliding sliding w v h = ground arith
  runtime_ids_differ now sliding calendar_kind w v h = ground arith
  runtime_ids_differ now calendar_kind sliding w v h = ground arith
  runtime_ids_differ now calendar_kind calendar_kind w v h = ground arith

  runtime_windows-IsApart :
      (now : ℤ) (w : NormalizedWindow Z) (ws : List (NormalizedWindow Z))
      → All (λ v. w.window_id ≢ v.window_id) ws
      → IsApart (runtime_window bounds now w).window_id (runtime_windows bounds ws now)
  runtime_windows-IsApart now w [] h = tt
  runtime_windows-IsApart now w (v ∷ ws) h =
      (runtime_ids_differ now w.kind v.kind w v h.0, runtime_windows-IsApart now w ws h.1)

  pub runtime_windows-HasDistinctIds :
      (now : ℤ) (ws : List (NormalizedWindow Z))
      → HasDistinctNames ws
      → HasDistinctIds (runtime_windows bounds ws now)
  runtime_windows-HasDistinctIds now [] h = tt
  runtime_windows-HasDistinctIds now (w ∷ ws) h =
      (runtime_windows-IsApart now w ws h.0, runtime_windows-HasDistinctIds now ws h.1)

  pub runtime_window-IsOneOf :
      (now : ℤ) (w : NormalizedWindow Z) (ws : List (NormalizedWindow Z))
      → IsOneOf w ws
      → IsOneOf (runtime_window bounds now w) (runtime_windows bounds ws now)
  runtime_window-IsOneOf now w [] m = absurd m
  runtime_window-IsOneOf now w (v ∷ ws) (inl same) = inl (ap (runtime_window bounds now) same)
  runtime_window-IsOneOf now w (v ∷ ws) (inr m) = inr (runtime_window-IsOneOf now w ws m)
