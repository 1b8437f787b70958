-- ===== src/MemoryCache/Recency.antt =====
-- The eviction order: an entry that was used recently is not evicted.
use native.Mathlib.Nat.{add-zero, add-suc, suc-add}
use pydecorators.Prelude.{
  ℕ, suc, ◌+◌, ◌<◌, ◌≤◌, ◌≡◌, ◌≢◌, refl, ap, ◌∙◌, true, false, Option, none, some, List, [], ◌∷◌,
  arith, length, Hashable, ==_iff, ◌==◌, All, inl, inr, Bool-cases,
}
use pydecorators.Prelude.Int.{ℤ}
use pydecorators.Prelude.Dict.{
  Dict, lookup, insert, move_to_end, lookup-erase, lookup-touched, behind, behind-touched-le,
  behind-erase-le,
}
use pydecorators.MemoryCache.Pruning.{lookup-prune_expired, behind-erase_all-le}
use pydecorators.MemoryCache
use pydecorators.MemoryCache.{
  CacheEntry, Memory, is_expired, evict_if_needed, refreshed, get_found, set_entry, expired_keys,
  prune_expired,
}
use pydecorators.MemoryCache.Invariant.{
  IsValid, set_entry-IsValid, get_found-IsValid, prune_expired-IsValid,
}
use pydecorators.MemoryCache.Lookup.{lookup-drop_oldest_recent, behind-drop_oldest-le}
use pydecorators.MemoryCache.Runs.{Op, get, set_value, set_exception, clear, info, apply, run}

-- Everything but a `clear`, or a write to the key itself.
abbrev pub IsOther : {K O : Type 0} → K → Op K O → Type 0
IsOther k (get _ _ _) = Unit
IsOther k (set_value _ j _) = j ≢ k
IsOther k (set_exception _ j _) = j ≢ k
IsOther k clear = ⊥
IsOther k (info _) = Unit

module _ {K O : Type 0} ⦃e : Hashable K⦄ (k : K) (entry : CacheEntry O) (limit : ℕ) where
  -- The entry is there, with at most `n` entries used since; neither it nor a new one expires.
  pub record IsKept (n : ℕ) (s : Memory K O) : Type 0 where
    pub valid : IsValid s
    pub no_ttl : s.ttl ≡ none
    pub size : s.maxsize ≡ some limit
    pub found : lookup k s.cache ≡ some entry
    pub recent : behind k s.cache ≤ n
    pub never : entry.expires_at ≡ none

  evicted_recent :
      (bound : Option ℕ) (d : Dict K (CacheEntry O))
      → bound ≡ some limit
      → behind k d < limit
      → lookup k (evict_if_needed bound d) ≡ lookup k d
  evicted_recent none d b h = cc
  evicted_recent (some m) d b h = lookup-drop_oldest_recent m k d (ground arith)

  pub behind-evicted-le :
      (bound : Option ℕ) (d : Dict K (CacheEntry O))
      → behind k (evict_if_needed bound d) ≤ behind k d
  behind-evicted-le none d = omega arith
  behind-evicted-le (some m) d = behind-drop_oldest-le m k d

  set_entry-IsKept :
      (j : K) (other : CacheEntry O) (n : ℕ) (s : Memory K O)
      → j ≢ k
      → suc n < limit
      → IsKept n s
      → IsKept (suc n) (set_entry j other s)
  unfolding set_entry
  set_entry-IsKept j other n s ne h kept =
      let d = move_to_end j (insert j other s.cache) in
      let near = behind-touched-le k j other s.cache kept.valid.distinct in
      record {
        valid = set_entry-IsValid j other s kept.valid;
        no_ttl = kept.no_ttl;
        size = kept.size;
        found =
            rw
              (
                evicted_recent s.maxsize d kept.size (omega arith),
                lookup-touched j k other s.cache kept.valid.distinct,
              )
              (ground (arith, ==_iff k j));
        recent = omega (arith, behind-evicted-le s.maxsize d);
        never = kept.never;
      }

  same_entry :
      (j : K) (v : CacheEntry O) (s : Memory K O)
      → (k == j) ≡ true
      → lookup j s.cache ≡ some v
      → lookup k s.cache ≡ some entry
      → v ≡ entry
  same_entry j v s same fj fk = cc ((==_iff k j).0 same)

  pub refreshed_never :
      (now : ℤ) (s : Memory K O) (v : CacheEntry O)
      → s.ttl ≡ none
      → v.expires_at ≡ none
      → refreshed now s v ≡ v
  refreshed_never now s v no_ttl never = ground arith

  expired-IsKept :
      (now now' : ℤ) (j : K) (n : ℕ) (s : Memory K O) (v : CacheEntry O)
      → lookup j s.cache ≡ some v
      → is_expired now v ≡ true
      → IsKept n s
      → (k == j) ≡ false
  expired-IsKept now now' j n s v e old kept =
      ground (arith, same_entry j v s, kept.found, kept.never)

  lookup-refreshed :
      (now' : ℤ) (j : K) (n : ℕ) (s : Memory K O) (v : CacheEntry O)
      → lookup j s.cache ≡ some v
      → IsKept n s
      → lookup k (move_to_end j (insert j (refreshed now' s v) s.cache)) ≡ some entry
  lookup-refreshed now' j n s v e kept =
      rw (lookup-touched j k (refreshed now' s v) s.cache kept.valid.distinct)
        (elim (Bool-cases (k == j)) [
          | inl same ↦
              let is = same_entry j v s same e kept.found in
              rw same (ap some (refreshed_never now' s v kept.no_ttl (rw is kept.never) ∙ is))
          | inr other ↦ rw other kept.found
        ])

  get_found-IsKept :
      (now now' : ℤ) (j : K) (n : ℕ) (s : Memory K O) (o : Option (CacheEntry O))
      → lookup j s.cache ≡ o
      → IsKept n s
      → IsKept (suc n) (get_found now now' j s o).0
  get_found-IsKept now now' j n s none e kept = record {
    valid = get_found-IsValid now now' j s none e kept.valid;
    no_ttl = kept.no_ttl;
    size = kept.size;
    found = kept.found;
    recent = omega arith;
    never = kept.never;
  }
  get_found-IsKept now now' j n s (some v) e kept = elim (Bool-cases (is_expired now v)) [
    | inl old ↦
        let valid = get_found-IsValid now now' j s (some v) e kept.valid in
        rw old (record {
          valid = rw old at valid;
          no_ttl = kept.no_ttl;
          size = kept.size;
          found =
              rw
                (
                  lookup-erase j k s.cache kept.valid.distinct,
                  expired-IsKept now now' j n s v e old kept,
                )
                kept.found;
          recent = omega (arith, behind-erase-le k j s.cache);
          never = kept.never;
        })
    | inr fresh ↦
        let valid = get_found-IsValid now now' j s (some v) e kept.valid in
        rw fresh (record {
          valid = rw fresh at valid;
          no_ttl = kept.no_ttl;
          size = kept.size;
          found = lookup-refreshed now' j n s v e kept;
          recent =
              omega (arith, behind-touched-le k j (refreshed now' s v) s.cache kept.valid.distinct);
          never = kept.never;
        })
  ]

  found_pruned :
      (now : K → ℤ) (n : ℕ) (s : Memory K O)
      → IsKept n s
      → lookup k (prune_expired now s).cache ≡ some entry
  found_pruned now n s kept =
      rw (lookup-prune_expired now k s kept.valid, kept.found) (ground (arith, kept.never))

  pruned-IsKept :
      (now : K → ℤ) (n : ℕ) (s : Memory K O) → IsKept n s → IsKept (suc n) (prune_expired now s)
  unfolding prune_expired
  pruned-IsKept now n s kept = record {
    valid = prune_expired-IsValid now s kept.valid;
    no_ttl = kept.no_ttl;
    size = kept.size;
    found = found_pruned now n s kept;
    recent = omega (arith, behind-erase_all-le k (expired_keys now s.cache) s.cache);
    never = kept.never;
  }

  apply-IsKept :
      (op : Op K O) (n : ℕ) (s : Memory K O)
      → IsOther k op
      → suc n < limit
      → IsKept n s
      → IsKept (suc n) (apply op s)
  unfolding apply MemoryCache.get MemoryCache.set_value MemoryCache.set_exception MemoryCache.info
  apply-IsKept (get now now' j) n s o h kept =
      get_found-IsKept now now' j n s (lookup j s.cache) refl kept
  apply-IsKept (set_value now j v) n s o h kept = set_entry-IsKept j _ n s o h kept
  apply-IsKept (set_exception now j v) n s o h kept = set_entry-IsKept j _ n s o h kept
  apply-IsKept clear n s o h kept = absurd o
  apply-IsKept (info now) n s o h kept = pruned-IsKept now n s kept

  pub run-IsKept :
      (ops : List (Op K O)) (n : ℕ) (s : Memory K O)
      → All (IsOther k) ops
      → n + length ops < limit
      → IsKept n s
      → IsKept (n + length ops) (run ops s)
  unfolding run
  run-IsKept [] n s os h kept = rw add-zero kept
  run-IsKept (op ∷ ops) n s os h kept =
      rw (add-suc, ← suc-add)
        (run-IsKept ops (suc n) (apply op s) os.1 (omega arith)
          (apply-IsKept op n s os.0 (omega arith) kept))
