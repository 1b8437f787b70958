-- ===== src/RateLimit/Steps.antt =====
-- What `reserve_or_delay` does to the events of each key and window of the configuration.
use pydecorators.Prelude.{
  ℕ, ◌≡◌, ◌≢◌, Option, none, some, List, [], ◌∷◌, ◌++◌, arith, inl, inr, Bool-cases, Hashable, ◌∙◌,
  ap, subst,
}
use pydecorators.Prelude.Int.{ℤ, pos, ◌-ℤ◌, ◌≤ℤ◌, ◌<ℤ◌, ltb_ℤ}
use pydecorators.Prelude.Dict.{Dict}
use pydecorators.RateLimit.Ids.{WindowId}
use pydecorators.RateLimit.{
  NormalizedWindow, RuntimeWindow, Event, Bucket, prune, window_wait_seconds, check_windows,
  append_event, prune_idle_windows, runtime_window, runtime_windows, max_window_cleanup_period,
  settle, reserve_or_delay,
}
use pydecorators.RateLimit.Buckets.{
  events_in, HasDistinctIds, IsOneOf, check_windows-IsChecked, check_windows-IsDistinct,
  append_event-member, append_event-IsDistinct,
}
use pydecorators.RateLimit.Windows.{
  HasDistinctNames, runtime_windows-HasDistinctIds, runtime_window-IsOneOf,
}
use pydecorators.RateLimit.State.{
  bucket_of, events_of, IsWellFormed, prune_idle_windows-IsWellFormed, insert-IsWellFormed,
  bucket_of-IsDistinct, events_of-prune_idle_windows, bucket_of-insert_self, bucket_of-insert_ne,
}

module _ {K Z : Type 0} ⦃e : Hashable K⦄ where
  -- The events of a key and window after the clean-up at the start of a call.
  abbrev pub kept_events : List (NormalizedWindow Z) → ℤ → K → WindowId → Dict K Bucket → List Event
  kept_events config now k id s = prune (now -ℤ max_window_cleanup_period config) (events_of k id s)

module _ {K Z : Type 0} ⦃e : Hashable K⦄ (bounds : NormalizedWindow Z → ℤ → ℤ × ℤ) where
  module _ (config : List (NormalizedWindow Z)) (now : ℤ) (key : K) (cost : ℕ) where
    pub reserve_or_delay-IsWellFormed :
        (s : Dict K Bucket)
        → IsWellFormed s
        → IsWellFormed (reserve_or_delay bounds config now key cost s).0
    unfolding reserve_or_delay
    reserve_or_delay-IsWellFormed s h =
        let s' = prune_idle_windows (now -ℤ max_window_cleanup_period config) s in
        let ws = runtime_windows bounds config now in
        let h' = prune_idle_windows-IsWellFormed (now -ℤ max_window_cleanup_period config) s h in
        let checked = check_windows now cost ws (bucket_of key s') (pos 0) in
        let d =
          check_windows-IsDistinct now cost ws (bucket_of key s') (pos 0)
            (bucket_of-IsDistinct key s' h'.1) in
        elim (Bool-cases (ltb_ℤ (pos 0) checked.1)) [
          | inl wait ↦ rw wait (insert-IsWellFormed key checked.0 s' d h')
          | inr free ↦
              rw free (insert-IsWellFormed key _ s' (append_event-IsDistinct _ ws checked.0 d) h')
        ]

    -- A call with another key only cleans up.
    pub reserve_or_delay-other_key :
        (k : K) (id : WindowId) (s : Dict K Bucket)
        → IsWellFormed s
        → k ≢ key
        → events_of k id (reserve_or_delay bounds config now key cost s).0
          ≡ kept_events config now k id s
    unfolding reserve_or_delay
    reserve_or_delay-other_key k id s h ne =
        let s' = prune_idle_windows (now -ℤ max_window_cleanup_period config) s in
        let ws = runtime_windows bounds config now in
        let checked = check_windows now cost ws (bucket_of key s') (pos 0) in
        let kept =
          events_of-prune_idle_windows (now -ℤ max_window_cleanup_period config) k id s h in
        elim (Bool-cases (ltb_ℤ (pos 0) checked.1)) [
          | inl wait ↦
              rw wait (ap (events_in id) (bucket_of-insert_ne k key checked.0 s' ne) ∙ kept)
          | inr free ↦ rw free (ap (events_in id) (bucket_of-insert_ne k key _ s' ne) ∙ kept)
        ]

    -- What became of a call, for one window and the events of its key: the call is turned away for at
    -- least the wait of this window and nothing is added, or it has not to wait for this window and is
    -- added to it.
    abbrev pub IsSettled : RuntimeWindow → List Event → List Event → Option ℤ → Type 0
    IsSettled w before after (some wait) =
        (pos 0 <ℤ wait) × (window_wait_seconds before w now cost ≤ℤ wait) × (after ≡ before)
    IsSettled w before after none =
        (window_wait_seconds before w now cost ≤ℤ pos 0)
        × (after ≡ before ++ record { timestamp = now; cost = cost } ∷ [])

    settle-IsSettled :
        (w : RuntimeWindow) (s : Dict K Bucket) (before : List Event) (checked : Bucket × ℤ)
        → IsOneOf w (runtime_windows bounds config now)
        → HasDistinctIds (runtime_windows bounds config now)
        → events_in w.window_id checked.0 ≡ before
        → window_wait_seconds before w now cost ≤ℤ checked.1
        → let r = settle bounds now cost key (runtime_windows bounds config now) s checked in
          IsSettled w before (events_of key w.window_id r.0) r.1
    settle-IsSettled w s before checked m d same le =
        let ws = runtime_windows bounds config now in
        let event : Event = record { timestamp = now; cost = cost } in
        elim (Bool-cases (ltb_ℤ (pos 0) checked.1)) [
          | inl wait ↦ rw wait (
            ground arith,
            ground arith,
            ap (events_in w.window_id) (bucket_of-insert_self key checked.0 s) ∙ same,
          )
          | inr free ↦ rw free (
            ground arith,
            ap (events_in w.window_id)
                  (bucket_of-insert_self key (append_event event ws checked.0) s)
                ∙ append_event-member event w ws checked.0 m d
                ∙ ap (λ es. es ++ event ∷ []) same,
          )
        ]

    -- A reservation is made in every window of the configuration or in none: if the call is turned
    -- away, the time to wait is positive and not below what any window asks for, and no window has a
    -- new event; if it is admitted, no window asks it to wait, and each has the one event of the call
    -- at its end. Apart from that a window is only pruned. The windows have different names.
    pub reserve_or_delay-IsSettled :
        (w : NormalizedWindow Z) (s : Dict K Bucket)
        → IsWellFormed s
        → IsOneOf w config
        → HasDistinctNames config
        → let v = runtime_window bounds now w in
          let r = reserve_or_delay bounds config now key cost s in
          IsSettled v
            (prune v.prune_before (kept_events config now key v.window_id s))
            (events_of key v.window_id r.0)
            r.1
    unfolding reserve_or_delay
    reserve_or_delay-IsSettled w s h m d =
        let p = now -ℤ max_window_cleanup_period config in
        let s' = prune_idle_windows p s in
        let ws = runtime_windows bounds config now in
        let v = runtime_window bounds now w in
        let checked = check_windows now cost ws (bucket_of key s') (pos 0) in
        let m' = runtime_window-IsOneOf bounds now w config m in
        let d' = runtime_windows-HasDistinctIds bounds now config d in
        let kept = events_of-prune_idle_windows p key v.window_id s h in
        let done = check_windows-IsChecked now cost v ws (bucket_of key s') (pos 0) m' d' in
        settle-IsSettled v s' _ checked m' d' (done.0 ∙ ap (prune v.prune_before) kept) (
          subst (λ es. window_wait_seconds (prune v.prune_before es) v now cost ≤ℤ checked.1) kept
            done.1)
