-- ===== src/RateLimit/State.antt =====
-- The limiter's state: the events of a key and window, and what is kept up of the dictionaries.
use pydecorators.Prelude.{
  ◌≡◌, ◌≢◌, refl, none, List, [], ◌∷◌, arith, All, inl, inr, Bool-cases, Hashable, ◌==◌, ==_iff,
  is_empty, empty_of_is_empty, ◌∙◌, ap,
}
use pydecorators.Prelude.Int.{ℤ}
use pydecorators.Prelude.Dict.{Dict, lookup, insert, IsDistinct, lookup-insert, insert-IsDistinct}
use pydecorators.RateLimit.Ids.{WindowId, id_eq}
use pydecorators.RateLimit.{Event, Bucket, bucket_or_new, prune, prune_bucket, prune_idle_windows}
use pydecorators.RateLimit.Buckets.{events_in, prune_bucket-IsDistinct, events_in-prune_bucket}

module _ {K : Type 0} ⦃e : Hashable K⦄ where
  abbrev pub bucket_of : K → Dict K Bucket → Bucket
  bucket_of key state = bucket_or_new (lookup key state)

  -- The events of one window of one key.
  abbrev pub events_of : K → WindowId → Dict K Bucket → List Event
  events_of key id state = events_in id (bucket_of key state)

  -- No key and no window is in the state twice.
  abbrev pub IsWellFormed : Dict K Bucket → Type 0
  IsWellFormed state = IsDistinct state × All (λ entry. IsDistinct entry.1) state

  lookup-prune_idle_windows_absent :
      (p : ℤ) (k : K) (s : Dict K Bucket)
      → lookup k s ≡ none
      → lookup k (prune_idle_windows p s) ≡ none
  unfolding lookup prune_idle_windows
  lookup-prune_idle_windows_absent p k [] h = refl
  lookup-prune_idle_windows_absent p k ((i, b) ∷ s) h =
      ground (arith, lookup-prune_idle_windows_absent p k s)

  prune_idle_windows-IsDistinct :
      (p : ℤ) (s : Dict K Bucket) → IsDistinct s → IsDistinct (prune_idle_windows p s)
  unfolding prune_idle_windows lookup
  prune_idle_windows-IsDistinct p [] h = tt
  prune_idle_windows-IsDistinct p ((i, b) ∷ s) h =
      ground
        (arith, prune_idle_windows-IsDistinct p s h.1, lookup-prune_idle_windows_absent p i s h.0)

  prune_idle_windows-All :
      (p : ℤ) (s : Dict K Bucket)
      → All (λ entry. IsDistinct entry.1) s
      → All (λ entry. IsDistinct entry.1) (prune_idle_windows p s)
  unfolding prune_idle_windows
  prune_idle_windows-All p [] h = tt
  prune_idle_windows-All p ((i, b) ∷ s) h = elim (Bool-cases (is_empty (prune_bucket p b))) [
    | inl idle ↦ rw idle (prune_idle_windows-All p s h.1)
    | inr busy ↦ rw busy (prune_bucket-IsDistinct p b h.0, prune_idle_windows-All p s h.1)
  ]

  pub prune_idle_windows-IsWellFormed :
      (p : ℤ) (s : Dict K Bucket) → IsWellFormed s → IsWellFormed (prune_idle_windows p s)
  prune_idle_windows-IsWellFormed p s h =
      (prune_idle_windows-IsDistinct p s h.0, prune_idle_windows-All p s h.1)

  insert-All :
      (k : K) (b : Bucket) (s : Dict K Bucket)
      → IsDistinct b
      → All (λ entry. IsDistinct entry.1) s
      → All (λ entry. IsDistinct entry.1) (insert k b s)
  unfolding insert
  insert-All k b [] d h = (d, tt)
  insert-All k b ((i, c) ∷ s) d h = elim (Bool-cases (k == i)) [
    | inl here ↦ rw here (d, h.1)
    | inr there ↦ rw there (h.0, insert-All k b s d h.1)
  ]

  pub insert-IsWellFormed :
      (k : K) (b : Bucket) (s : Dict K Bucket)
      → IsDistinct b
      → IsWellFormed s
      → IsWellFormed (insert k b s)
  insert-IsWellFormed k b s d h = (insert-IsDistinct k b s h.0, insert-All k b s d h.1)

  pub bucket_of-IsDistinct :
      (k : K) (s : Dict K Bucket) → All (λ entry. IsDistinct entry.1) s → IsDistinct (bucket_of k s)
  unfolding lookup
  bucket_of-IsDistinct k [] h = tt
  bucket_of-IsDistinct k ((i, b) ∷ s) h = elim (Bool-cases (k == i)) [
    | inl here ↦ rw here h.0
    | inr there ↦ rw there (bucket_of-IsDistinct k s h.1)
  ]

  bucket_of-prune_idle_windows :
      (p : ℤ) (k : K) (s : Dict K Bucket)
      → IsDistinct s
      → bucket_of k (prune_idle_windows p s) ≡ prune_bucket p (bucket_of k s)
  unfolding lookup prune_idle_windows
  bucket_of-prune_idle_windows p k [] h = unfold prune_bucket in refl
  bucket_of-prune_idle_windows p k ((i, b) ∷ s) h = ground (
    arith,
    ==_iff k i,
    bucket_of-prune_idle_windows p k s h.1,
    lookup-prune_idle_windows_absent p i s h.0,
    empty_of_is_empty (prune_bucket p b),
  )

  -- Cleaning up prunes the events of every key and window, and does nothing else to them.
  pub events_of-prune_idle_windows :
      (p : ℤ) (k : K) (id : WindowId) (s : Dict K Bucket)
      → IsWellFormed s
      → events_of k id (prune_idle_windows p s) ≡ prune p (events_of k id s)
  events_of-prune_idle_windows p k id s h =
      ap (events_in id) (bucket_of-prune_idle_windows p k s h.0)
      ∙ events_in-prune_bucket p id (bucket_of k s) (bucket_of-IsDistinct k s h.1)

  pub bucket_of-insert_self :
      (k : K) (b : Bucket) (s : Dict K Bucket) → bucket_of k (insert k b s) ≡ b
  bucket_of-insert_self k b s = rw lookup-insert (ground (arith, ==_iff k k))

  pub bucket_of-insert_ne :
      (k i : K) (b : Bucket) (s : Dict K Bucket)
      → k ≢ i
      → bucket_of k (insert i b s) ≡ bucket_of k s
  bucket_of-insert_ne k i b s h = rw lookup-insert (ground (arith, ==_iff k i))
