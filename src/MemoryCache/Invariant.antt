-- ===== src/MemoryCache/Invariant.antt =====
-- The invariant of `MemoryCacheBackend`: no key twice, and never more entries than `maxsize`.
use pydecorators.Prelude.{
  ℕ, ◌<◌, ◌≤◌, ◌≡◌, refl, Option, none, some, List, [], ◌∷◌, arith, length, length-append, Hashable,
  ==_iff, Bool-cases, inl, inr,
}
use pydecorators.Prelude.Int.{ℤ}
use pydecorators.Prelude.Dict.{
  Dict, lookup, insert, erase, move_to_end, IsDistinct, lookup-erase, erase-IsDistinct,
  append-IsDistinct, touch_lem, length-erase-le, length-erase,
}
use pydecorators.MemoryCache.{
  CacheEntry, Memory, is_expired, drop_oldest, evict_if_needed, refreshed, get_found, get,
  set_entry, expired_keys, erase_all, prune_expired,
}

module _ {K O : Type 0} where
  abbrev pub Fits : Option ℕ → Dict K (CacheEntry O) → Type 0
  Fits none cache = Unit
  Fits (some maxsize) cache = (0 < maxsize) × (length cache ≤ maxsize)

module _ {K O : Type 0} ⦃e : Hashable K⦄ where
  pub record IsValid (s : Memory K O) : Type 0 where
    pub distinct : IsDistinct s.cache
    pub bounded : Fits s.maxsize s.cache

  pub drop_oldest-le : (m : ℕ) (d : Dict K (CacheEntry O)) → length (drop_oldest m d) ≤ m
  unfolding drop_oldest
  drop_oldest-le m [] = omega arith
  drop_oldest-le m (x ∷ d) = ground (arith, drop_oldest-le m d)

  pub drop_oldest_fits : (m : ℕ) (d : Dict K (CacheEntry O)) → length d ≤ m → drop_oldest m d ≡ d
  unfolding drop_oldest
  drop_oldest_fits m [] h = refl
  drop_oldest_fits m (x ∷ d) h = ground arith

  pub lookup-drop_oldest_absent :
      (m : ℕ) (k : K) (d : Dict K (CacheEntry O))
      → lookup k d ≡ none
      → lookup k (drop_oldest m d) ≡ none
  unfolding drop_oldest lookup
  lookup-drop_oldest_absent m k [] h = refl
  lookup-drop_oldest_absent m k ((j, v) ∷ d) h = ground (arith, lookup-drop_oldest_absent m k d)

  pub drop_oldest-IsDistinct :
      (m : ℕ) (d : Dict K (CacheEntry O)) → IsDistinct d → IsDistinct (drop_oldest m d)
  unfolding drop_oldest
  drop_oldest-IsDistinct m [] h = tt
  drop_oldest-IsDistinct m ((j, v) ∷ d) h =
      ground (arith, drop_oldest-IsDistinct m d h.1, lookup-drop_oldest_absent m j d h.0)

  -- The cache once an entry is written: the key is last, and the oldest make room.
  pub touched-IsDistinct :
      (k : K) (v : CacheEntry O) (d : Dict K (CacheEntry O))
      → IsDistinct d
      → IsDistinct (move_to_end k (insert k v d))
  touched-IsDistinct k v d h = rw (touch_lem k v d h) (
      append-IsDistinct k v (erase k d) (erase-IsDistinct k d h)
        (rw (lookup-erase k k d h) (ground (arith, ==_iff k k))))

  evicted-IsDistinct :
      (m : Option ℕ) (d : Dict K (CacheEntry O)) → IsDistinct d → IsDistinct (evict_if_needed m d)
  evicted-IsDistinct none d h = h
  evicted-IsDistinct (some m) d h = drop_oldest-IsDistinct m d h

  evicted-Fits :
      (m : Option ℕ) (d d' : Dict K (CacheEntry O)) → Fits m d → Fits m (evict_if_needed m d')
  evicted-Fits none d d' h = tt
  evicted-Fits (some m) d d' h = (h.0, drop_oldest-le m d')

  pub set_entry-IsValid :
      (k : K) (v : CacheEntry O) (s : Memory K O) → IsValid s → IsValid (set_entry k v s)
  unfolding set_entry
  set_entry-IsValid k v s h = record {
    distinct = evicted-IsDistinct s.maxsize _ (touched-IsDistinct k v s.cache h.distinct);
    bounded = evicted-Fits s.maxsize s.cache _ h.bounded;
  }

  shorter-Fits :
      (m : Option ℕ) (d d' : Dict K (CacheEntry O)) → Fits m d → length d' ≤ length d → Fits m d'
  shorter-Fits none d d' h le = tt
  shorter-Fits (some m) d d' h le = (h.0, omega arith)

  length-touched :
      (k : K) (v w : CacheEntry O) (d : Dict K (CacheEntry O))
      → IsDistinct d
      → lookup k d ≡ some w
      → length (move_to_end k (insert k v d)) ≤ length d
  length-touched k v w d h found =
      rw (touch_lem k v d h)
        (omega (arith, length-append (erase k d) ((k, v) ∷ []), length-erase k w d found))

  pub get_found-IsValid :
      (now now' : ℤ) (k : K) (s : Memory K O) (o : Option (CacheEntry O))
      → lookup k s.cache ≡ o
      → IsValid s
      → IsValid (get_found now now' k s o).0
  get_found-IsValid now now' k s none found h = record {
    distinct = h.distinct;
    bounded = h.bounded;
  }
  get_found-IsValid now now' k s (some v) found h = elim (Bool-cases (is_expired now v)) [
    | inl old ↦ rw old (record {
      distinct = erase-IsDistinct k s.cache h.distinct;
      bounded = shorter-Fits s.maxsize s.cache _ h.bounded (length-erase-le k s.cache);
    })
    | inr fresh ↦ rw fresh (record {
      distinct = touched-IsDistinct k (refreshed now' s v) s.cache h.distinct;
      bounded =
          shorter-Fits s.maxsize s.cache _ h.bounded
            (length-touched k (refreshed now' s v) v s.cache h.distinct found);
    })
  ]

  pub get-IsValid :
      (now now' : ℤ) (k : K) (s : Memory K O) → IsValid s → IsValid (get now now' k s).0
  unfolding get
  get-IsValid now now' k s h = get_found-IsValid now now' k s (lookup k s.cache) refl h

  pub erase_all-IsDistinct :
      (keys : List K) (d : Dict K (CacheEntry O)) → IsDistinct d → IsDistinct (erase_all keys d)
  unfolding erase_all
  erase_all-IsDistinct [] d h = h
  erase_all-IsDistinct (k ∷ keys) d h =
      erase_all-IsDistinct keys (erase k d) (erase-IsDistinct k d h)

  length-erase_all-le :
      (keys : List K) (d : Dict K (CacheEntry O)) → length (erase_all keys d) ≤ length d
  unfolding erase_all
  length-erase_all-le [] d = omega arith
  length-erase_all-le (k ∷ keys) d =
      omega (arith, length-erase_all-le keys (erase k d), length-erase-le k d)

  pub prune_expired-IsValid :
      (now : K → ℤ) (s : Memory K O) → IsValid s → IsValid (prune_expired now s)
  unfolding prune_expired
  prune_expired-IsValid now s h = record {
    distinct = erase_all-IsDistinct (expired_keys now s.cache) s.cache h.distinct;
    bounded = shorter-Fits s.maxsize s.cache _ h.bounded (length-erase_all-le _ s.cache);
  }
