-- ===== src/RateLimit/Retrying.antt =====
-- A call that was turned away, tried again after the time it was told to wait.
use pydecorators.Prelude.{
  ℕ, ◌+◌, ◌≤◌, ◌≡◌, refl, Option, none, some, List, [], ◌∷◌, arith, leb, All, Bool-cases, inl, inr,
  Hashable, ◌∙◌, sym, ap, subst,
}
use pydecorators.Prelude.Int.{ℤ, pos, ◌+ℤ◌, ◌-ℤ◌, ◌≤ℤ◌, ◌<ℤ◌, max_ℤ, +ℤ_parts, -ℤ_parts}
use pydecorators.Prelude.Dict.{Dict, insert}
use pydecorators.RateLimit.Ids.{WindowId, plain, id_eq}
use pydecorators.RateLimit.{
  Kind, sliding, NormalizedWindow, RuntimeWindow, Event, Bucket, prune, used_cost,
  window_wait_seconds, check_windows, runtime_of, runtime_window, runtime_windows,
  max_window_cleanup_period, prune_idle_windows, reserve_or_delay,
}
use pydecorators.RateLimit.Events.{
  used_after-le, used_after_mono, used_after, IsSorted, prune-IsSorted, used_after-prune,
  prune-fresh, used_cost-fresh,
}
use pydecorators.RateLimit.Buckets.{
  events_in, IsApart, HasDistinctIds, IsOneOf, events_in-insert_ne,
}
use pydecorators.RateLimit.Windows.{HasDistinctNames, runtime_windows-HasDistinctIds, cleanup_le}
use pydecorators.RateLimit.Waiting.{freed_bound, window_wait_seconds-IsFirstFit}
use pydecorators.RateLimit.State.{bucket_of, events_of, IsWellFormed, events_of-prune_idle_windows}
use pydecorators.RateLimit.Steps.{
  kept_events, IsSettled, reserve_or_delay-IsWellFormed, reserve_or_delay-IsSettled,
}

-- The call has not to wait for the window, once that is pruned.
abbrev pub HasRoom : ℤ → ℕ → Bucket → RuntimeWindow → Type 0
HasRoom now cost b w =
    window_wait_seconds (prune w.prune_before (events_in w.window_id b)) w now cost ≡ pos 0

module _ (now : ℤ) (cost : ℕ) where
  insert-HasRoom :
      (id : WindowId) (es : List Event) (b : Bucket) (ws : List RuntimeWindow)
      → IsApart id ws
      → All (HasRoom now cost b) ws
      → All (HasRoom now cost (insert id es b)) ws
  insert-HasRoom id es b [] d h = tt
  insert-HasRoom id es b (w ∷ ws) d h = (
    subst (λ fs. window_wait_seconds (prune w.prune_before fs) w now cost ≡ pos 0)
        (sym (events_in-insert_ne w.window_id id es b (λ e. d.0 (sym e)))) h.0,
    insert-HasRoom id es b ws d.1 h.1,
  )

  check_windows-free :
      (ws : List RuntimeWindow) (b : Bucket)
      → HasDistinctIds ws
      → All (HasRoom now cost b) ws
      → (check_windows now cost ws b (pos 0)).1 ≡ pos 0
  unfolding check_windows
  check_windows-free [] b d h = refl
  check_windows-free (w ∷ ws) b d h =
      let b' = insert w.window_id (prune w.prune_before (events_in w.window_id b)) b in
      ap (λ wait. (check_windows now cost ws b' (max_ℤ (pos 0) wait)).1) h.0
      ∙ check_windows-free ws b' d.1 (insert-HasRoom w.window_id _ b ws d.0 h.1)

-- A window that is left alone for the time a call has to wait has room for the call.
rested_has_room :
    (w : RuntimeWindow) (now later : ℤ) (cost : ℕ) (es : List Event)
    → w.reset_at ≡ none
    → IsSorted es
    → All (λ f. now -ℤ w.period <ℤ f.timestamp) es
    → cost ≤ w.calls
    → freed_bound w now cost (window_wait_seconds es w now cost) ≤ℤ later
    → used_after later es + cost ≤ w.calls
rested_has_room w now later cost es reset sorted fresh small h =
    elim (Bool-cases (leb (used_cost es + cost) w.calls)) [
      | inl fits ↦ ground (arith, used_after-le later es)
      | inr over ↦
          let bound = freed_bound w now cost (window_wait_seconds es w now cost) in
          let first =
            window_wait_seconds-IsFirstFit w now cost es reset sorted fresh small (ground arith) in
          omega (arith, first.0, used_after_mono bound later es h)
    ]

window_wait_fits :
    (w : RuntimeWindow) (now : ℤ) (cost : ℕ) (es : List Event)
    → used_cost es + cost ≤ w.calls
    → window_wait_seconds es w now cost ≡ pos 0
unfolding window_wait_seconds
window_wait_fits w now cost es h = ground arith

for_each_window :
    {Z : Type 0} (bounds : NormalizedWindow Z → ℤ → ℤ × ℤ) (P : RuntimeWindow → Type 0) (now : ℤ)
    (ws : List (NormalizedWindow Z))
    → ((w : NormalizedWindow Z) → IsOneOf w ws → P (runtime_window bounds now w))
    → All P (runtime_windows bounds ws now)
for_each_window bounds P now [] h = tt
for_each_window bounds P now (w ∷ ws) h =
    (h w (inl refl), for_each_window bounds P now ws (λ v m. h v (inr m)))

All-member : {A : Type 0} (P : A → Type 0) (x : A) (xs : List A) → All P xs → IsOneOf x xs → P x
All-member P x [] a m = absurd m
All-member P x (y ∷ ys) a (inl same) = subst P (sym same) a.0
All-member P x (y ∷ ys) a (inr m) = All-member P x ys a.1 m

pruned_has_room :
    (w : RuntimeWindow) (later p : ℤ) (cost : ℕ) (es : List Event)
    → IsSorted es
    → p ≤ℤ w.prune_before
    → used_after w.prune_before es + cost ≤ w.calls
    → window_wait_seconds (prune w.prune_before (prune p es)) w later cost ≡ pos 0
pruned_has_room w later p cost es sorted h fits =
    let start = w.prune_before in
    window_wait_fits w later cost (prune start (prune p es)) (
      omega (
        arith,
        used_cost-fresh start _ (prune-fresh start (prune p es) (prune-IsSorted p es sorted)),
        used_after-prune start start (prune p es) (omega arith),
        used_after-prune p start es h,
      ))

module _ {K Z : Type 0} ⦃e : Hashable K⦄ (bounds : NormalizedWindow Z → ℤ → ℤ × ℤ)
    (config : List (NormalizedWindow Z)) (key : K) (cost : ℕ) where
  -- A sliding window with its events in order that the cost does not exceed.
  abbrev pub CanFit : Dict K Bucket → NormalizedWindow Z → Type 0
  CanFit s w =
      (w.kind ≡ sliding) × (cost ≤ w.calls) × IsSorted (events_of key (plain w.window_id) s)

  module _ (s : Dict K Bucket) (now later d : ℤ) (wf : IsWellFormed s)
      (names : HasDistinctNames config)
      (turned_away : (reserve_or_delay bounds config now key cost s).1 ≡ some d)
      (rested : now +ℤ d ≤ℤ later) where
    -- what the window keeps in the first call
    abbrev kept_first : NormalizedWindow Z → List Event
    kept_first w = prune (now -ℤ w.period) (kept_events config now key (plain w.window_id) s)

    first_try :
        (w : NormalizedWindow Z)
        → IsOneOf w config
        → w.kind ≡ sliding
        → (window_wait_seconds (kept_first w) (runtime_of bounds sliding w now) now cost ≤ℤ d)
          × (events_of key (plain w.window_id) (reserve_or_delay bounds config now key cost s).0
              ≡ kept_first w)
    first_try w member kind =
        let s' = (reserve_or_delay bounds config now key cost s).0 in
        let goal : Kind → Option ℤ → Type 0 = λ j r.
          let v = runtime_of bounds j w now in
          IsSettled bounds config now key cost v
            (prune v.prune_before (kept_events config now key v.window_id s))
            (events_of key v.window_id s') r in
        let (_, least, left) = subst (goal sliding) turned_away (
          subst (λ j. goal j (reserve_or_delay bounds config now key cost s).1) kind
            (reserve_or_delay-IsSettled bounds config now key cost w s wf member names)) in
        (least, left)

    window-HasRoom :
        (w : NormalizedWindow Z)
        → IsOneOf w config
        → CanFit s w
        → let s' = (reserve_or_delay bounds config now key cost s).0 in
          let p = later -ℤ max_window_cleanup_period config in
          HasRoom later cost
            (bucket_of key (prune_idle_windows p s'))
            (runtime_window bounds later w)
    window-HasRoom w member (kind, small, sorted) =
        let s' = (reserve_or_delay bounds config now key cost s).0 in
        let p = later -ℤ max_window_cleanup_period config in
        let b = bucket_of key (prune_idle_windows p s') in
        let tried = first_try w member kind in
        let wf' = reserve_or_delay-IsWellFormed bounds config now key cost s wf in
        let es0 = kept_first w in
        let start = later -ℤ w.period in
        let v = runtime_of bounds sliding w later in
        let kept' =
          events_of-prune_idle_windows p key (plain w.window_id) s' wf' ∙ ap (prune p) tried.1 in
        let kept-IsSorted = prune-IsSorted (now -ℤ max_window_cleanup_period config) _ sorted in
        let sorted0 = prune-IsSorted (now -ℤ w.period) _ kept-IsSorted in
        let fresh = prune-fresh (now -ℤ w.period) _ kept-IsSorted in
        let wait = window_wait_seconds es0 (runtime_of bounds sliding w now) now cost in
        let cleanup : p ≤ℤ start = cleanup_le w config member later in
        let fits : used_after start es0 + cost ≤ w.calls =
          rested_has_room (runtime_of bounds sliding w now) now start cost es0 refl sorted0 fresh
            small
            (omega (
              arith,
              tried.0,
              rested,
              +ℤ_parts now d,
              +ℤ_parts now wait,
              -ℤ_parts (now +ℤ wait) w.period,
              -ℤ_parts later w.period,
            )) in
        subst (HasRoom later cost b) (sym (ap (λ j. runtime_of bounds j w later) kind)) (
          subst (λ es. window_wait_seconds (prune start es) v later cost ≡ pos 0) (sym kept')
            (pruned_has_room v later p cost es0 sorted0 cleanup fits))

    -- A call that is turned away for `d`, tried again no earlier than `d` later with no other call in
    -- between, is admitted. All windows of the configuration are sliding with different names, their
    -- events are in order, and the cost exceeds no limit.
    pub reserve_or_delay-admits_later :
        All (CanFit s) config
        → (reserve_or_delay bounds config later key cost
            (reserve_or_delay bounds config now key cost s).0).1
          ≡ none
    unfolding reserve_or_delay
    reserve_or_delay-admits_later fit =
        let s' = (reserve_or_delay bounds config now key cost s).0 in
        let p = later -ℤ max_window_cleanup_period config in
        let b = bucket_of key (prune_idle_windows p s') in
        let ws = runtime_windows bounds config later in
        let room =
          for_each_window bounds (HasRoom later cost b) later config
            (λ w m. window-HasRoom w m (All-member (CanFit s) w config fit m)) in
        rw
          (check_windows-free later cost ws b
            (runtime_windows-HasDistinctIds bounds later config names) room)
          refl
