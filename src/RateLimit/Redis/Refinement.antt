-- ===== src/RateLimit/Redis/Refinement.antt =====
-- The script answers as the in-process limiter does after its clean-up, and leaves the same events in
-- Redis.
use pydecorators.Prelude.{
  ℕ, ◌+◌, ◌≡◌, refl, Option, Hashable, none, some, List, [], ◌∷◌, arith, All, ==_refl, Bool-cases,
  inl, inr, sym, ap, subst, ◌∙◌,
}
use pydecorators.Prelude.Int.{ℤ, pos, ◌≤ℤ◌, ◌<ℤ◌, ltb_ℤ, max_ℤ}
use pydecorators.Prelude.Dict.{Dict, lookup, insert, lookup-insert}
use pydecorators.RateLimit.Ids.{WindowId, id_eq}
use pydecorators.RateLimit.{
  RuntimeWindow, Bucket, prune, check_windows, append_event, window_wait_seconds, settle,
  bucket_or_new, NormalizedWindow, runtime_windows,
}
use pydecorators.RateLimit.Events.{IsSorted, prune-fresh}
use pydecorators.RateLimit.Buckets.{events_in, HasDistinctIds}
use pydecorators.RateLimit.Sqlite.Buckets.{IsTidy}
use pydecorators.RateLimit.Redis.{
  SortedSets, ceil_ms, script_max_wait, script_check, script_add, script_end, evaluate_script,
  delay_of, redis_reserve_or_delay,
}
use pydecorators.RateLimit.Redis.Waits.{
  events_of, IsScriptable, script_max_wait-window_wait_seconds, ceil_ms_positive, ceil_ms_zero,
  ceil_ms-max_zero,
}
use pydecorators.RateLimit.Redis.Sets.{
  IsSortedSets, IsSame, IsBefore, removed_events, removed-IsSame, removed-IsBefore, added-IsSame,
  kept-IsBefore,
}

le-max_ℤ : (x y : ℤ) → pos 0 ≤ℤ x → pos 0 ≤ℤ max_ℤ x y
le-max_ℤ x y h = ground (arith, h)

module _ {S : Type 0} (redis : SortedSets S) (laws : IsSortedSets redis) (now : ℤ) where
  -- What the first loop leaves: the wait in milliseconds, and the same events, all before now.
  abbrev pub IsChecked : S × ℤ → Bucket × ℤ → Type 0
  IsChecked (s, max_wait_ms) (b, wait) =
      (max_wait_ms ≡ ceil_ms wait)
      × IsSame redis laws now b s
      × ((j : WindowId) → IsBefore redis laws now s j)
      × (pos 0 ≤ℤ wait)

  -- The first loop: the same waits, and the same events.
  script_check-agrees :
      (cost : ℕ) (ws : List RuntimeWindow) (b : Bucket) (s : S) (wait : ℤ)
      → IsSame redis laws now b s
      → ((j : WindowId) → IsBefore redis laws now s j)
      → All (IsScriptable now) ws
      → pos 0 ≤ℤ wait
      → IsChecked
          (script_check redis now cost ws s (ceil_ms wait))
          (check_windows now cost ws b wait)
  unfolding script_check check_windows
  script_check-agrees cost [] b s wait h before ok positive = (refl, h, before, positive)
  script_check-agrees cost (w ∷ ws) b s wait h before ok positive =
      let events = prune w.prune_before (events_in w.window_id b) in
      let s' = redis.zremrangebyscore w.window_id w.prune_before s in
      let pruned = removed_events redis laws now w.window_id w.prune_before b s h in
      let in_order : IsSorted (events_in w.window_id b) =
        subst IsSorted (sym (h w.window_id).0) (h w.window_id).1.0 in
      let fresh : All (λ e. w.prune_before <ℤ e.timestamp)
          (events_of (redis.zrange w.window_id s')) =
        subst (All (λ e. w.prune_before <ℤ e.timestamp)) (sym pruned)
          (prune-fresh w.prune_before (events_in w.window_id b) in_order) in
      let same_wait : script_max_wait w now cost (redis.zrange w.window_id s') (ceil_ms wait)
          ≡ ceil_ms (max_ℤ wait (window_wait_seconds events w now cost)) =
        script_max_wait-window_wait_seconds w now cost (redis.zrange w.window_id s') wait ok.0 fresh
          positive
        ∙ ap (λ es. ceil_ms (max_ℤ wait (window_wait_seconds es w now cost))) pruned in
      let rest =
        script_check-agrees cost ws (insert w.window_id events b) s'
          (max_ℤ wait (window_wait_seconds events w now cost))
          (removed-IsSame redis laws now w.window_id w.prune_before b s h)
          (λ j. removed-IsBefore redis laws now w.window_id w.prune_before s j (before j)) ok.1
          (le-max_ℤ wait _ positive) in
      subst
        (λ m. IsChecked (script_check redis now cost ws s' m) (
          check_windows now cost ws (insert w.window_id events b)
            (max_ℤ wait (window_wait_seconds events w now cost))))
        (sym same_wait) rest

  -- The second loop: the same events.
  script_add-agrees :
      (cost sequence index : ℕ) (ws : List RuntimeWindow) (max_ttl_ms : ℤ) (b : Bucket) (s : S)
      → IsSame redis laws now b s
      → All (λ w. IsBefore redis laws now s w.window_id) ws
      → HasDistinctIds ws
      → IsSame redis laws now
          (append_event (record { timestamp = now; cost = cost }) ws b)
          (script_add redis now cost sequence index ws max_ttl_ms s)
  unfolding script_add append_event
  script_add-agrees cost sequence index [] max_ttl_ms b s h before apart = λ j.
      let kept = ap events_of (laws.zrange_expiring_sequence j max_ttl_ms s) in
      ((h j).0 ∙ sym kept, subst (IsTidy now) (sym kept) (h j).1)
  script_add-agrees cost sequence index (w ∷ ws) max_ttl_ms b s h before apart =
      let ttl_ms = max_ℤ (pos 1) (ceil_ms w.ttl) in
      script_add-agrees cost sequence (index + 1) ws (max_ℤ max_ttl_ms ttl_ms) _ _
        (added-IsSame redis laws now cost index sequence ttl_ms w.window_id b s (ground arith)
          before.0 h)
        (kept-IsBefore redis laws now cost index sequence ttl_ms w.window_id s ws (ground arith)
          apart.0 before.1)
        apart.1

  counted-IsSame :
      (b : Bucket) (s : S) → IsSame redis laws now b s → IsSame redis laws now b (redis.incr s).1
  counted-IsSame b s h j =
      let kept = ap events_of (laws.zrange_counted j s) in
      ((h j).0 ∙ sym kept, subst (IsTidy now) (sym kept) (h j).1)

  counted-IsBefore :
      (ws : List RuntimeWindow) (s : S)
      → ((j : WindowId) → IsBefore redis laws now s j)
      → All (λ w. IsBefore redis laws now (redis.incr s).1 w.window_id) ws
  counted-IsBefore [] s h = tt
  counted-IsBefore (w ∷ ws) s h = (
    subst (All (λ e. e.0 <ℤ now)) (sym (laws.zrange_counted w.window_id s)) (h w.window_id),
    counted-IsBefore ws s h,
  )

  -- The answer in seconds, rounded up to milliseconds.
  abbrev pub rounded : Option ℤ → Option ℤ
  rounded none = none
  rounded (some wait) = some (ceil_ms wait)

  module _ {K Z : Type 0} ⦃e : Hashable K⦄ (bounds : NormalizedWindow Z → ℤ → ℤ × ℤ) (cost : ℕ)
      (key : K) (state : Dict K Bucket) where
    -- The result of the Redis limiter against what the in-process limiter does with the key.
    abbrev pub IsAnswered : Option ℤ × S → Dict K Bucket × Option ℤ → Type 0
    IsAnswered done expected =
        (done.0 ≡ rounded expected.1)
        × IsSame redis laws now (bucket_or_new (lookup key expected.0)) done.1

    abbrev delayed : (ℕ × ℤ) × S → Option ℤ × S
    delayed (answer, s) = (delay_of answer, s)

    found : (b : Bucket) → lookup key (insert key b state) ≡ some b
    found b = rw (lookup-insert key key b state, ==_refl key) refl

    stored-IsSame :
        (b : Bucket) (s : S)
        → IsSame redis laws now b s
        → IsSame redis laws now (bucket_or_new (lookup key (insert key b state))) s
    stored-IsSame b s h = subst (λ o. IsSame redis laws now (bucket_or_new o) s) (sym (found b)) h

    settled-IsAnswered :
        (ws : List RuntimeWindow) (s : S) (max_wait_ms : ℤ) (b : Bucket) (wait : ℤ)
        → HasDistinctIds ws
        → IsChecked (s, max_wait_ms) (b, wait)
        → IsAnswered
            (delayed (script_end redis now cost ws (s, max_wait_ms)))
            (settle bounds now cost key ws state (b, wait))
    settled-IsAnswered ws s max_wait_ms b wait apart (same, h, before, positive) =
        let test : ltb_ℤ (pos 0) max_wait_ms ≡ ltb_ℤ (pos 0) wait =
          ap (ltb_ℤ (pos 0)) same ∙ ceil_ms_positive wait in
        elim (Bool-cases (ltb_ℤ (pos 0) wait)) [
          | inl waits ↦
              let bigger : max_ℤ (pos 0) wait ≡ wait = rw waits refl in
              rw (test, waits)
                (
                  ap some
                      (ap (max_ℤ (pos 0)) same ∙ sym (ceil_ms-max_zero wait) ∙ ap ceil_ms bigger),
                  stored-IsSame b s h,
                )
          | inr admitted ↦
              rw (test, admitted)
                (
                  refl,
                  stored-IsSame _ _ (
                      script_add-agrees cost (redis.incr s).0 1 ws (pos 1) b (redis.incr s).1
                        (counted-IsSame b s h) (counted-IsBefore ws s before) apart),
                )
        ]

    -- One call of the Redis limiter does what the in-process limiter does with the events of the key
    -- once its clean-up of idle windows is done: it reserves exactly if that does, else it gives the same wait, rounded up to milliseconds; and the same
    -- events are left. Redis holds the events of the key's bucket, all before now, the runtime windows have
    -- distinct ids, and each is a sliding window or is reset after the epoch.
    pub redis_reserve_or_delay-IsAnswered :
        (config : List (NormalizedWindow Z)) (s : S)
        → IsSame redis laws now (bucket_or_new (lookup key state)) s
        → ((id : WindowId) → IsBefore redis laws now s id)
        → HasDistinctIds (runtime_windows bounds config now)
        → All (IsScriptable now) (runtime_windows bounds config now)
        → IsAnswered (redis_reserve_or_delay redis bounds config now cost s) (
            settle bounds now cost key (runtime_windows bounds config now) state (
              check_windows now cost
                (runtime_windows bounds config now)
                (bucket_or_new (lookup key state))
                (pos 0)))
    unfolding redis_reserve_or_delay evaluate_script
    redis_reserve_or_delay-IsAnswered config s h before apart ok =
        let ws = runtime_windows bounds config now in
        settled-IsAnswered ws _ _ _ _ apart (
          subst
            (λ m.
              IsChecked (script_check redis now cost ws s m)
                (check_windows now cost ws (bucket_or_new (lookup key state)) (pos 0)))
            ceil_ms_zero
            (script_check-agrees cost ws (bucket_or_new (lookup key state)) s (pos 0) h before ok
              (omega arith)))
