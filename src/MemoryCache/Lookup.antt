-- ===== src/MemoryCache/Lookup.antt =====
-- What a lookup answers, and what the other methods do to it.
use pydecorators.Prelude.{
  ℕ, ◌+◌, ◌<◌, ◌≤◌, ◌≡◌, ◌≢◌, refl, ap, false, Option, none, some, [], ◌∷◌, arith, Hashable, ==_iff,
}
use pydecorators.Prelude.Int.{ℤ}
use pydecorators.Prelude.Dict.{
  Dict, lookup, insert, move_to_end, IsDistinct, lookup-touched, behind, behind-le-length,
  behind-touched_self,
}
use pydecorators.MemoryCache.{
  CacheEntry, Memory, is_expired, drop_oldest, evict_if_needed, refreshed, get_found, get,
  set_entry, set_value, expiry,
}
use pydecorators.MemoryCache.Invariant.{
  Fits, IsValid, touched-IsDistinct, lookup-drop_oldest_absent,
}

module _ {K O : Type 0} ⦃e : Hashable K⦄ where
  -- Dropping the oldest entries leaves a key with fewer than `m` entries behind it.
  pub lookup-drop_oldest_recent :
      (m : ℕ) (k : K) (d : Dict K (CacheEntry O))
      → behind k d < m
      → lookup k (drop_oldest m d) ≡ lookup k d
  unfolding drop_oldest lookup behind
  lookup-drop_oldest_recent m k [] h = refl
  lookup-drop_oldest_recent m k ((i, w) ∷ d) h = ground (arith, lookup-drop_oldest_recent m k d)

  pub behind-drop_oldest-le :
      (m : ℕ) (k : K) (d : Dict K (CacheEntry O)) → behind k (drop_oldest m d) ≤ behind k d
  unfolding drop_oldest behind
  behind-drop_oldest-le m k [] = omega arith
  behind-drop_oldest-le m k ((i, w) ∷ d) =
      ground (arith, behind-drop_oldest-le m k d, behind-le-length k d)

  -- What is found after dropping was there before.
  pub lookup-drop_oldest-some :
      (m : ℕ) (k : K) (v : CacheEntry O) (d : Dict K (CacheEntry O))
      → IsDistinct d
      → lookup k (drop_oldest m d) ≡ some v
      → lookup k d ≡ some v
  unfolding drop_oldest lookup
  lookup-drop_oldest-some m k v [] h f = f
  lookup-drop_oldest-some m k v ((i, w) ∷ d) h f =
      ground (
        arith,
        ==_iff k i,
        lookup-drop_oldest-some m k v d h.1,
        lookup-drop_oldest_absent m i d h.0,
      )

  evicted_self :
      (limit : Option ℕ) (k : K) (d d' : Dict K (CacheEntry O))
      → Fits limit d
      → behind k d' ≡ 0
      → lookup k (evict_if_needed limit d') ≡ lookup k d'
  evicted_self none k d d' h b = refl
  evicted_self (some m) k d d' h b = lookup-drop_oldest_recent m k d' (omega arith)

  -- An entry that was just stored is there.
  pub lookup-set_entry_self :
      (k : K) (entry : CacheEntry O) (s : Memory K O)
      → IsValid s
      → lookup k (set_entry k entry s).cache ≡ some entry
  unfolding set_entry
  lookup-set_entry_self k entry s h =
      rw
        (
          evicted_self s.maxsize k s.cache (move_to_end k (insert k entry s.cache)) h.bounded
              (behind-touched_self k entry s.cache h.distinct),
          lookup-touched k k entry s.cache h.distinct,
        )
        (ground (arith, ==_iff k k))

  evicted_some :
      (limit : Option ℕ) (k : K) (v : CacheEntry O) (d : Dict K (CacheEntry O))
      → IsDistinct d
      → lookup k (evict_if_needed limit d) ≡ some v
      → lookup k d ≡ some v
  evicted_some none k v d h f = f
  evicted_some (some m) k v d h f = lookup-drop_oldest-some m k v d h f

  -- Storing an entry brings no other entry in: what another key has afterwards it had before.
  pub lookup-set_entry_ne :
      (k j : K) (entry v : CacheEntry O) (s : Memory K O)
      → IsValid s
      → j ≢ k
      → lookup j (set_entry k entry s).cache ≡ some v
      → lookup j s.cache ≡ some v
  unfolding set_entry
  lookup-set_entry_ne k j entry v s h ne f =
      let before =
        evicted_some s.maxsize j v (move_to_end k (insert k entry s.cache))
          (touched-IsDistinct k entry s.cache h.distinct) f in
      ground (arith, ==_iff j k, lookup-touched k j entry s.cache h.distinct, before)

  pub get_hit :
      (now now' : ℤ) (k : K) (s : Memory K O) (entry : CacheEntry O)
      → lookup k s.cache ≡ some entry
      → is_expired now entry ≡ false
      → get now now' k s ≡ (
        record s {
          cache = move_to_end k (insert k (refreshed now' s entry) s.cache);
          hits = s.hits + 1;
        },
        some (refreshed now' s entry),
      )
  unfolding get
  get_hit now now' k s entry found fresh = rw (found, get_found) (rw fresh)

  pub refreshed_same :
      (now : ℤ) (s : Memory K O) (entry : CacheEntry O)
      → ((refreshed now s entry).payload ≡ entry.payload)
        × ((refreshed now s entry).is_exception ≡ entry.is_exception)
  refreshed_same now s entry = ground arith

  -- A lookup right after a value was stored, at a time when it has not expired, returns that value,
  -- as a value and not as an exception.
  pub get-set_value :
      (now later refresh : ℤ) (k : K) (v : O) (s : Memory K O)
      → IsValid s
      → is_expired later (record { payload = v; expires_at = expiry now s; is_exception = false })
        ≡ false
      → (entry : CacheEntry O) × ((get later refresh k (set_value now k v s)).1 ≡ some entry)
        × (entry.payload ≡ v)
        × (entry.is_exception ≡ false)
  unfolding set_value
  get-set_value now later refresh k v s h fresh =
      let entry : CacheEntry O = record {
        payload = v;
        expires_at = expiry now s;
        is_exception = false;
      } in
      let s' = set_entry k entry s in
      (
        refreshed refresh s' entry,
        ap (λ r. r.1) (get_hit later refresh k s' entry (lookup-set_entry_self k entry s h) fresh),
        (refreshed_same refresh s' entry).0,
        (refreshed_same refresh s' entry).1,
      )
