-- ===== src/MemoryCache/Pruning.antt =====
-- `_prune_expired` removes exactly what has expired.
use pydecorators.Prelude.{
  ◌≤◌, ◌≡◌, refl, Bool, true, false, Option, none, some, List, [], ◌∷◌, arith, Hashable, ==_iff,
  ◌==◌, if◌then◌else◌, ◌∙◌,
}
use pydecorators.Prelude.Int.{ℤ}
use pydecorators.Prelude.Dict.{
  Dict, lookup, erase, IsDistinct, lookup-erase, erase-IsDistinct, behind, behind-erase-le,
}
use pydecorators.MemoryCache.{
  CacheEntry, Memory, is_expired, expired_keys, erase_all, prune_expired,
}
use pydecorators.MemoryCache.Invariant.{IsValid}

-- whether an entry would be pruned, with what remains
abbrev pub unless_expired : {O : Type 0} → ℤ → Option (CacheEntry O) → Option (CacheEntry O)
unless_expired now none = none
unless_expired now (some entry) = if is_expired now entry then none else some entry

-- `key in keys`
abbrev pub contains {ℓ} : {K : Type ℓ} ⦃e : Hashable K⦄ → K → List K → Bool
contains k [] = false
contains k (j ∷ keys) = if k == j then true else contains k keys

module _ {K O : Type 0} ⦃e : Hashable K⦄ where
  pub behind-erase_all-le :
      (k : K) (keys : List K) (d : Dict K (CacheEntry O)) → behind k (erase_all keys d) ≤ behind k d
  unfolding erase_all
  behind-erase_all-le k [] d = omega arith
  behind-erase_all-le k (j ∷ keys) d =
      omega (arith, behind-erase_all-le k keys (erase j d), behind-erase-le k j d)

  lookup-erase_all :
      (k : K) (keys : List K) (d : Dict K (CacheEntry O))
      → IsDistinct d
      → lookup k (erase_all keys d) ≡ (if contains k keys then none else lookup k d)
  unfolding erase_all
  lookup-erase_all k [] d h = refl
  lookup-erase_all k (j ∷ keys) d h =
      ground
        (arith, lookup-erase_all k keys (erase j d) (erase-IsDistinct j d h), lookup-erase j k d h)

  absent_not_expired :
      (now : K → ℤ) (k : K) (d : Dict K (CacheEntry O))
      → lookup k d ≡ none
      → contains k (expired_keys now d) ≡ false
  unfolding expired_keys lookup
  absent_not_expired now k [] h = refl
  absent_not_expired now k ((j, v) ∷ d) h = ground (arith, absent_not_expired now k d)

  contains-expired_keys :
      (now : K → ℤ) (k : K) (d : Dict K (CacheEntry O))
      → IsDistinct d
      → (if contains k (expired_keys now d) then none else lookup k d)
        ≡ unless_expired (now k) (lookup k d)
  unfolding expired_keys lookup
  contains-expired_keys now k [] h = refl
  contains-expired_keys now k ((j, v) ∷ d) h =
      ground (arith, ==_iff k j, contains-expired_keys now k d h.1, absent_not_expired now j d h.0)

  -- After pruning, a key has the entry that it had before, unless that entry had expired at the clock
  -- reading made for it; then it has none.
  pub lookup-prune_expired :
      (now : K → ℤ) (k : K) (s : Memory K O)
      → IsValid s
      → lookup k (prune_expired now s).cache ≡ unless_expired (now k) (lookup k s.cache)
  unfolding prune_expired
  lookup-prune_expired now k s h =
      lookup-erase_all k (expired_keys now s.cache) s.cache h.distinct
      ∙ contains-expired_keys now k s.cache h.distinct
