-- ===== src/MemoryCache/Runs.antt =====
-- The methods called one after the other, in any order.
use pydecorators.Prelude.{
  ℕ, ◌+◌, ◌≡◌, refl, Bool, Option, none, some, List, [], ◌∷◌, arith, Hashable,
}
use pydecorators.Prelude.Int.{ℤ}
use pydecorators.Prelude.Dict.{Dict, lookup}
use pydecorators.Prelude.Effect.{returned}
use pydecorators.MemoryCache
use pydecorators.MemoryCache.{CacheEntry, Memory, init, get_found, set_entry, prune_expired}
use pydecorators.MemoryCache.Invariant.{
  Fits, IsValid, get-IsValid, set_entry-IsValid, prune_expired-IsValid,
}

-- A call, with the clock readings that it makes.
pub data Op (K O : Type 0) : Type 0 where
  get : (now now' : ℤ) → K → Op K O
  set_value : ℤ → K → O → Op K O
  set_exception : ℤ → K → O → Op K O
  clear : Op K O
  info : (K → ℤ) → Op K O

module _ {K O : Type 0} ⦃e : Hashable K⦄ where
  unfoldable pub apply : Op K O → Memory K O → Memory K O
  apply (get now now' k) s = (MemoryCache.get now now' k s).0
  apply (set_value now k v) s = MemoryCache.set_value now k v s
  apply (set_exception now k x) s = MemoryCache.set_exception now k x s
  apply clear s = MemoryCache.clear s
  apply (info now) s = (MemoryCache.info now s).0

  unfoldable pub run : List (Op K O) → Memory K O → Memory K O
  run [] s = s
  run (op ∷ ops) s = run ops (apply op s)

  empty-Fits : (m : Option ℕ) (d : Dict K (CacheEntry O)) → Fits m d → Fits {K = K} {O = O} m []
  empty-Fits none d h = tt
  empty-Fits (some m) d h = (h.0, omega arith)

  pub apply-IsValid : (op : Op K O) (s : Memory K O) → IsValid s → IsValid (apply op s)
  unfolding apply MemoryCache.set_value MemoryCache.set_exception MemoryCache.clear MemoryCache.info
  apply-IsValid (get now now' k) s h = get-IsValid now now' k s h
  apply-IsValid (set_value now k v) s h = set_entry-IsValid k _ s h
  apply-IsValid (set_exception now k x) s h = set_entry-IsValid k _ s h
  apply-IsValid clear s h = record {
    distinct = tt;
    bounded = empty-Fits s.maxsize s.cache h.bounded;
  }
  apply-IsValid (info now) s h = prune_expired-IsValid now s h

  pub run-IsValid : (ops : List (Op K O)) (s : Memory K O) → IsValid s → IsValid (run ops s)
  unfolding run
  run-IsValid [] s h = h
  run-IsValid (op ∷ ops) s h = run-IsValid ops (apply op s) (apply-IsValid op s h)

  init-IsValid :
      (ttl maxsize : Option ℤ) (refresh : Bool) {s : Memory K O}
      → init ttl maxsize refresh ≡ returned s
      → IsValid s
  unfolding init
  init-IsValid ttl none refresh h = ground arith
  init-IsValid ttl (some m) refresh h = ground arith

  -- A backend that its constructor accepts never holds a key twice, nor more entries than `maxsize`,
  -- whatever methods are called on it.
  pub init-run-IsValid :
      (ttl maxsize : Option ℤ) (refresh : Bool) (ops : List (Op K O)) {s : Memory K O}
      → init ttl maxsize refresh ≡ returned s
      → IsValid (run ops s)
  init-run-IsValid ttl maxsize refresh ops {s} h =
      run-IsValid ops s (init-IsValid ttl maxsize refresh h)

  -- The lookups since the last `clear`.
  abbrev pub lookups : ℕ → List (Op K O) → ℕ
  lookups n [] = n
  lookups n (get _ _ _ ∷ ops) = lookups (n + 1) ops
  lookups n (clear ∷ ops) = lookups 0 ops
  lookups n (_ ∷ ops) = lookups n ops

  counted_once :
      (now now' : ℤ) (k : K) (s : Memory K O) (o : Option (CacheEntry O))
      → (get_found now now' k s o).0.hits + (get_found now now' k s o).0.misses
        ≡ s.hits + s.misses + 1
  counted_once now now' k s none = omega arith
  counted_once now now' k s (some v) = ground arith

  -- Every lookup since the last `clear` is counted once, as a hit or as a miss.
  pub hits-add-misses :
      (ops : List (Op K O)) (s : Memory K O)
      → (run ops s).hits + (run ops s).misses ≡ lookups (s.hits + s.misses) ops
  unfolding run apply MemoryCache.get MemoryCache.set_value MemoryCache.set_exception
      MemoryCache.clear MemoryCache.info MemoryCache.set_entry MemoryCache.prune_expired
  hits-add-misses [] s = refl
  hits-add-misses (get now now' k ∷ ops) s =
      rw (← counted_once now now' k s (lookup k s.cache)) (hits-add-misses ops _)
  hits-add-misses (set_value now k v ∷ ops) s = hits-add-misses ops _
  hits-add-misses (set_exception now k x ∷ ops) s = hits-add-misses ops _
  hits-add-misses (clear ∷ ops) s = hits-add-misses ops (MemoryCache.clear s)
  hits-add-misses (info now ∷ ops) s = hits-add-misses ops _
