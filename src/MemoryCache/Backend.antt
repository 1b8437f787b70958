-- ===== src/MemoryCache/Backend.antt =====
-- `MemoryCacheBackend` as a `CacheBackend`.
use pydecorators.Prelude.{
  ℕ, ◌≡◌, Option, none, some, List, [], ◌∷◌, All, All-append, Hashable, ◌==◌, ==_iff, Bool-cases,
  Option-cases, inl, inr, subst, sym, ltb, length,
}
use pydecorators.Prelude.Int.{ℤ}
use pydecorators.Prelude.Dict.{Dict, lookup, insert, erase, move_to_end}
use pydecorators.Prelude.Effect.{returned}
use pydecorators.CacheBackend.{CacheBackend, Policy, Allows, IsLawful}
use pydecorators.MemoryCache
use pydecorators.MemoryCache.{
  CacheEntry, Memory, is_expired, drop_oldest, evict_if_needed, refreshed, get_found, set_entry,
  expired_keys, erase_all,
}

module _ {K O : Type 0} ⦃e : Hashable K⦄ where
  abbrev pub memory_backend : CacheBackend (Memory K O) K O
  memory_backend = record {
    get = λ now key s. let (s', entry) = MemoryCache.get now now key s in (returned entry, s');
    set_value = λ now key value s. (returned tt, MemoryCache.set_value now key value s);
    set_exception = λ now key x s. (returned tt, MemoryCache.set_exception now key x s);
    clear = λ s. (returned tt, MemoryCache.clear s);
    info = λ now s. let (s', i) = MemoryCache.info (λ _. now) s in (returned i, s');
  }

  module _ (P : Policy K O) where
    abbrev IsAllowed : K × CacheEntry O → Type 0
    IsAllowed entry = P entry.0 entry.1.is_exception entry.1.payload

    lookup-Allows : (k : K) (d : Dict K (CacheEntry O)) → All IsAllowed d → Allows P k (lookup k d)
    unfolding lookup
    lookup-Allows k [] h = tt
    lookup-Allows k ((j, v) ∷ d) h = elim (Bool-cases (k == j)) [
      | inl same ↦
          rw same (subst (λ i. P i v.is_exception v.payload) (sym ((==_iff k j).0 same)) h.0)
      | inr other ↦ rw other (lookup-Allows k d h.1)
    ]

    insert-All :
        (k : K) (v : CacheEntry O) (d : Dict K (CacheEntry O))
        → IsAllowed (k, v)
        → All IsAllowed d
        → All IsAllowed (insert k v d)
    unfolding insert
    insert-All k v [] p h = (p, tt)
    insert-All k v ((j, w) ∷ d) p h = elim (Bool-cases (k == j)) [
      | inl same ↦ rw same (subst (λ i. P i v.is_exception v.payload) ((==_iff k j).0 same) p, h.1)
      | inr other ↦ rw other (h.0, insert-All k v d p h.1)
    ]

    erase-All : (k : K) (d : Dict K (CacheEntry O)) → All IsAllowed d → All IsAllowed (erase k d)
    unfolding erase
    erase-All k [] h = tt
    erase-All k ((j, w) ∷ d) h = elim (Bool-cases (k == j)) [
      | inl same ↦ rw same h.1
      | inr other ↦ rw other (h.0, erase-All k d h.1)
    ]

    move_to_end-All :
        (k : K) (d : Dict K (CacheEntry O)) → All IsAllowed d → All IsAllowed (move_to_end k d)
    unfolding move_to_end
    move_to_end-All k d h = elim (Option-cases (lookup k d)) [
      | inl absent ↦ rw (absent, move_to_end) h
      | inr (v, found) ↦
          let p : Allows P k (some v) = subst (λ o. Allows P k o) found (lookup-Allows k d h) in
          rw (found, move_to_end)
            (All-append IsAllowed (erase k d) ((k, v) ∷ []) (erase-All k d h) (p, tt))
    ]

    drop_oldest-All :
        (m : ℕ) (d : Dict K (CacheEntry O)) → All IsAllowed d → All IsAllowed (drop_oldest m d)
    unfolding drop_oldest
    drop_oldest-All m [] h = tt
    drop_oldest-All m (x ∷ d) h = elim (Bool-cases (ltb m (length (x ∷ d)))) [
      | inl over ↦ rw over (drop_oldest-All m d h.1)
      | inr fits ↦ rw fits h
    ]

    evict-All :
        (limit : Option ℕ) (d : Dict K (CacheEntry O))
        → All IsAllowed d
        → All IsAllowed (evict_if_needed limit d)
    evict-All none d h = h
    evict-All (some m) d h = drop_oldest-All m d h

    erase_all-All :
        (ks : List K) (d : Dict K (CacheEntry O)) → All IsAllowed d → All IsAllowed (erase_all ks d)
    unfolding erase_all
    erase_all-All [] d h = h
    erase_all-All (k ∷ ks) d h = erase_all-All ks (erase k d) (erase-All k d h)

    set_entry-All :
        (k : K) (v : CacheEntry O) (s : Memory K O)
        → IsAllowed (k, v)
        → All IsAllowed s.cache
        → All IsAllowed (set_entry k v s).cache
    unfolding set_entry
    set_entry-All k v s p h =
        evict-All s.maxsize _ (move_to_end-All k _ (insert-All k v s.cache p h))

    refreshed-IsAllowed :
        (now : ℤ) (k : K) (s : Memory K O) (v : CacheEntry O)
        → IsAllowed (k, v)
        → IsAllowed (k, refreshed now s v)
    refreshed-IsAllowed now k s v p = elim (Bool-cases s.refresh_ttl_on_hit) [
      | inl r ↦ rw r p
      | inr r ↦ rw r p
    ]

    get_found-All :
        (now now' : ℤ) (k : K) (s : Memory K O) (o : Option (CacheEntry O))
        → Allows P k o
        → All IsAllowed s.cache
        → All IsAllowed (get_found now now' k s o).0.cache × Allows P k (get_found now now' k s o).1
    get_found-All now now' k s none a h = (h, tt)
    get_found-All now now' k s (some v) a h =
        let p = refreshed-IsAllowed now' k s v a in
        elim (Bool-cases (is_expired now v)) [
          | inl old ↦ rw old (erase-All k s.cache h, tt)
          | inr live ↦
              rw live (move_to_end-All k _ (insert-All k (refreshed now' s v) s.cache p h), p)
        ]

  -- The in-memory backend answers only with what was stored under a key.
  pub memory_backend-IsLawful : IsLawful memory_backend
  memory_backend-IsLawful = record {
    Holds = λ P s. All (IsAllowed P) s.cache;
    get_holds = λ P now key s h.
        unfold MemoryCache.get in
        get_found-All P now now key s (lookup key s.cache) (lookup-Allows P key s.cache h) h;
    set_value_holds =
        λ P now key value s p h. unfold MemoryCache.set_value in set_entry-All P key _ s p h;
    set_exception_holds =
        λ P now key x s p h. unfold MemoryCache.set_exception in set_entry-All P key _ s p h;
    clear_holds = λ P s h. unfold MemoryCache.clear in tt;
    info_holds = λ P now s h.
        unfold MemoryCache.info MemoryCache.prune_expired in
        erase_all-All P (expired_keys (λ _. now) s.cache) s.cache h;
  }

  pub empty_cache_holds :
      (P : Policy K O) (s : Memory K O) → s.cache ≡ [] → memory_backend-IsLawful.Holds P s
  unfolding memory_backend-IsLawful
  empty_cache_holds P s empty = subst (All (IsAllowed P)) (sym empty) tt
