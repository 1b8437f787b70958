-- ===== src/RateLimit/Redis/Cleanup.antt =====
-- The clean-up of idle windows in the in-process limiter, which Redis leaves to the expiry of keys: it
-- drops only what no window looks at, so that the two limiters answer alike.
use pydecorators.Prelude.{ℕ, ◌≡◌, Option, Hashable, List}
use pydecorators.Prelude.Int.{ℤ, ◌≤ℤ◌, ◌-ℤ◌}
use pydecorators.Prelude.Dict.{Dict}
use pydecorators.RateLimit.Ids.{WindowId, id_eq}
use pydecorators.RateLimit
use pydecorators.RateLimit.{Bucket, prune, NormalizedWindow, max_window_cleanup_period}
use pydecorators.RateLimit.Buckets.{events_in}
use pydecorators.RateLimit.State.{bucket_of}
use pydecorators.RateLimit.Redis.{SortedSets}
use pydecorators.RateLimit.Redis.Sets.{IsSortedSets, IsSame}
use pydecorators.RateLimit.Redis.Refinement.{rounded}

module _ (p : ℤ) where
  -- Two buckets hold the same events after `p`, and after any later time.
  abbrev pub IsAlike : Bucket → Bucket → Type 0
  IsAlike b b' =
      (id : WindowId) (c : ℤ) → p ≤ℤ c → prune c (events_in id b) ≡ prune c (events_in id b')

  module _ {K Z : Type 0} ⦃e : Hashable K⦄ (bounds : NormalizedWindow Z → ℤ → ℤ × ℤ) (now : ℤ)
      (cost : ℕ) (key : K) where
    abbrev IsSettledAlike : Dict K Bucket × Option ℤ → Dict K Bucket × Option ℤ → Type 0
    IsSettledAlike done done' =
        (done.1 ≡ done'.1) × IsAlike (bucket_of key done.0) (bucket_of key done'.0)

module _ {S : Type 0} (redis : SortedSets S) (laws : IsSortedSets redis) (now : ℤ) {K Z : Type 0}
    ⦃e : Hashable K⦄ (bounds : NormalizedWindow Z → ℤ → ℤ × ℤ) (config : List (NormalizedWindow Z))
    (cost : ℕ) (key : K) where
  abbrev pub cleanup_before : ℤ
  cleanup_before = now -ℤ max_window_cleanup_period config

  -- Redis holds the events of the key, but for those that the next clean-up drops.
  abbrev pub HoldsAlike : Dict K Bucket → S → Type 0
  HoldsAlike state s =
      (held : Bucket) × IsSame redis laws now held s
      × IsAlike cleanup_before (bucket_of key state) held

  -- The result of the Redis limiter against that of the in-process limiter.
  abbrev pub IsAnsweredAlike : Option ℤ × S → Dict K Bucket × Option ℤ → Type 0
  IsAnsweredAlike done expected =
      (done.0 ≡ rounded redis laws now expected.1) × HoldsAlike expected.0 done.1
