-- ===== src/MemoryCache/Survival.antt =====
-- A value that was stored or read, and is not among the least recently used, is still there.
use pydecorators.Prelude.{
  ℕ, ◌<◌, ◌≤◌, ◌≡◌, ◌⊎◌, refl, ap, ◌∙◌, false, Option, none, some, List, arith, length, Hashable,
  All, ==_refl, Bool-cases, inl, inr, subst, sym,
}
use pydecorators.Prelude.Int.{ℤ}
use pydecorators.Prelude.Dict.{
  lookup, insert, move_to_end, lookup-touched, behind, behind-touched_self,
}
use pydecorators.MemoryCache
use pydecorators.MemoryCache.{
  CacheEntry, Memory, set_entry, expiry, get_found, is_expired, refreshed,
}
use pydecorators.MemoryCache.Invariant.{IsValid, set_entry-IsValid, get_found-IsValid}
use pydecorators.MemoryCache.Lookup.{lookup-set_entry_self, get_hit}
use pydecorators.MemoryCache.Recency.{
  IsKept, IsOther, behind-evicted-le, refreshed_never, run-IsKept,
}
use pydecorators.MemoryCache.Runs.{Op, run}

abbrev pub stored : {O : Type 0} → O → CacheEntry O
stored v = record { payload = v; expires_at = none; is_exception = false }

module _ {K O : Type 0} ⦃e : Hashable K⦄ where
  recent_at_once :
      (k : K) (entry : CacheEntry O) (limit : ℕ) (s : Memory K O)
      → IsValid s
      → behind k (set_entry k entry s).cache ≤ 0
  unfolding set_entry
  recent_at_once k entry limit s h = omega (
    arith,
    behind-evicted-le k entry limit s.maxsize (move_to_end k (insert k entry s.cache)),
    behind-touched_self k entry s.cache h.distinct,
  )

  set_value-IsKept :
      (now : ℤ) (k : K) (v : O) (limit : ℕ) (s : Memory K O)
      → IsValid s
      → s.ttl ≡ none
      → s.maxsize ≡ some limit
      → 0 < limit
      → IsKept k (stored v) limit 0 (MemoryCache.set_value now k v s)
  unfolding MemoryCache.set_value set_entry
  set_value-IsKept now k v limit s h no_ttl size pos =
      let entry : CacheEntry O = record {
        payload = v;
        expires_at = expiry now s;
        is_exception = false;
      } in
      let same : entry ≡ stored v = ground arith in
      record {
        valid = set_entry-IsValid k entry s h;
        no_ttl = no_ttl;
        size = size;
        found = lookup-set_entry_self k entry s h ∙ ap some same;
        recent = recent_at_once k entry limit s h;
        never = refl;
      }

  get_found-IsKept_self :
      (now now' : ℤ) (k : K) (entry : CacheEntry O) (limit : ℕ) (s : Memory K O)
      (o : Option (CacheEntry O))
      → lookup k s.cache ≡ o
      → IsValid s
      → s.ttl ≡ none
      → s.maxsize ≡ some limit
      → entry.expires_at ≡ none
      → (get_found now now' k s o).1 ≡ some entry
      → IsKept k entry limit 0 (get_found now now' k s o).0
  get_found-IsKept_self now now' k entry limit s none e h no_ttl size never hit = absurd (cc hit)
  get_found-IsKept_self now now' k entry limit s (some v) e h no_ttl size never hit =
      elim (Bool-cases (is_expired now v)) [
        | inl old ↦ absurd (cc (rw old at hit))
        | inr fresh ↦
            let valid = get_found-IsValid now now' k s (some v) e h in
            let same : some (refreshed now' s v) ≡ some entry = rw fresh at hit in
            rw fresh (record {
              valid = rw fresh at valid;
              no_ttl = no_ttl;
              size = size;
              found =
                  rw (lookup-touched k k (refreshed now' s v) s.cache h.distinct, ==_refl k) same;
              recent = omega (arith, behind-touched_self k (refreshed now' s v) s.cache h.distinct);
              never = never;
            })
      ]

  get-IsKept_self :
      (now now' : ℤ) (k : K) (v : O) (limit : ℕ) (s : Memory K O)
      → IsValid s
      → s.ttl ≡ none
      → s.maxsize ≡ some limit
      → (MemoryCache.get now now' k s).1 ≡ some (stored v)
      → IsKept k (stored v) limit 0 (MemoryCache.get now now' k s).0
  unfolding MemoryCache.get
  get-IsKept_self now now' k v limit s h no_ttl size hit =
      get_found-IsKept_self now now' k (stored v) limit s (lookup k s.cache) refl h no_ttl size refl
        hit

  -- The key is used with a value: the value is stored under it, or read.
  abbrev pub IsUsed : (now now' : ℤ) → K → O → (before after : Memory K O) → Type 0
  IsUsed now now' k v before after =
      (after ≡ MemoryCache.set_value now k v before)
      ⊎ (((MemoryCache.get now now' k before).1 ≡ some (stored v))
          × (after ≡ (MemoryCache.get now now' k before).0))

  used-IsKept :
      (now now' : ℤ) (k : K) (v : O) (limit : ℕ) (s u : Memory K O)
      → IsUsed now now' k v s u
      → IsValid s
      → s.ttl ≡ none
      → s.maxsize ≡ some limit
      → 0 < limit
      → IsKept k (stored v) limit 0 u
  used-IsKept now now' k v limit s u (inl stores) h no_ttl size positive =
      subst (IsKept k (stored v) limit 0) (sym stores)
        (set_value-IsKept now k v limit s h no_ttl size positive)
  used-IsKept now now' k v limit s u (inr (hit, reads)) h no_ttl size positive =
      subst (IsKept k (stored v) limit 0) (sym reads)
        (get-IsKept_self now now' k v limit s h no_ttl size hit)

  -- Least recently used entries go first: with no time limit, a value that was stored or read is
  -- returned by a lookup after fewer than `maxsize` further calls, of any kind but `clear` and writes
  -- to its key.
  pub recent_survives :
      (now now' t t' : ℤ) (k : K) (v : O) (ops : List (Op K O)) (limit : ℕ) (s u : Memory K O)
      → IsUsed now now' k v s u
      → IsValid s
      → s.ttl ≡ none
      → s.maxsize ≡ some limit
      → All (IsOther k) ops
      → length ops < limit
      → (MemoryCache.get t t' k (run ops u)).1 ≡ some (stored v)
  recent_survives now now' t t' k v ops limit s u used h no_ttl size os n =
      let kept =
        run-IsKept k (stored v) limit ops 0 u os (omega arith)
          (used-IsKept now now' k v limit s u used h no_ttl size (omega arith)) in
      ap (λ r. r.1) (get_hit t t' k (run ops u) (stored v) kept.found refl)
      ∙ ap some (refreshed_never k (stored v) limit t' (run ops u) (stored v) kept.no_ttl refl)
