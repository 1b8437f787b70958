-- ===== src/MemoryCache/Tests.antt =====
-- The theorems at concrete inputs, and scenarios of tests/test_cache_result.py.
use pydecorators.Prelude.{ℕ, ◌≡◌, ◌+◌, refl, false, none, some, List, [], ◌∷◌, arith, nat_eq, inr}
use pydecorators.Prelude.Int.{pos, ◌+ℤ◌}
use pydecorators.Prelude.Dict.{lookup, insert, erase, move_to_end}
use pydecorators.MemoryCache
use pydecorators.MemoryCache.{CacheEntry, Memory, init, drop_oldest, expired_keys, erase_all}
use pydecorators.MemoryCache.Invariant.{IsValid}
use pydecorators.MemoryCache.Lookup
use pydecorators.MemoryCache.Runs
use pydecorators.MemoryCache.Runs.{Op, get, set_value, set_exception, clear, info, run, lookups}
use pydecorators.MemoryCache.Survival
use pydecorators.MemoryCache.Survival.{stored}

-- two entries at most, ten seconds each
abbrev empty : Memory ℕ ℕ
empty = record {
  ttl = some (pos 10);
  maxsize = some 2;
  refresh_ttl_on_hit = false;
  cache = [];
  hits = 0;
  misses = 0;
}

abbrev entry : ℕ → ℕ → CacheEntry ℕ
entry v t = record { payload = v; expires_at = some (pos t); is_exception = false }

abbrev calls : List (Op ℕ ℕ)
calls =
    set_value (pos 0) 1 10
    ∷ set_value (pos 1) 2 20
    ∷ get (pos 2) (pos 2) 1
    ∷ set_value (pos 3) 3 30
    ∷ get (pos 4) (pos 4) 2
    ∷ get (pos 12) (pos 12) 1
    ∷ []

program : Unit {0}
unfolding run Runs.apply init MemoryCache.get MemoryCache.set_value MemoryCache.set_exception
    MemoryCache.set_entry MemoryCache.clear MemoryCache.info MemoryCache.prune_expired drop_oldest
    expired_keys erase_all lookup insert erase move_to_end ◌+ℤ◌
program = tt

-- Key 2 is evicted although it was stored later, since key 1 was used; key 1 expires.
calls-run : run calls empty ≡ record empty { cache = (3, entry 30 13) ∷ []; hits = 1; misses = 2 }
unfolding program
calls-run = refl

init-run-IsValid_example : IsValid (run calls empty)
unfolding init
init-run-IsValid_example = Runs.init-run-IsValid (some (pos 10)) (some (pos 2)) false calls refl

hits-add-misses_example : (run calls empty).hits + (run calls empty).misses ≡ lookups 0 calls
hits-add-misses_example = Runs.hits-add-misses calls empty

empty-IsValid : IsValid empty
empty-IsValid = record { distinct = tt; bounded = (omega arith, omega arith) }

get-set_value_example :
    (e : CacheEntry ℕ) × ((MemoryCache.get
        (pos 9)
        (pos 9)
        1
        (MemoryCache.set_value (pos 0) 1 10 empty)).1
      ≡ some e)
    × (e.payload ≡ 10)
    × (e.is_exception ≡ false)
unfolding ◌+ℤ◌
get-set_value_example = Lookup.get-set_value (pos 0) (pos 9) (pos 9) 1 10 empty empty-IsValid refl

abbrev forever : Memory ℕ ℕ
forever = record empty { ttl = none }

abbrev full : Memory ℕ ℕ
full = record forever { cache = (1, stored 10) ∷ (2, stored 20) ∷ [] }

full-IsValid : IsValid full
unfolding lookup
full-IsValid = record { distinct = (refl, (refl, tt)); bounded = (omega arith, omega arith) }

read_one : (MemoryCache.get (pos 2) (pos 2) 1 full).1 ≡ some (stored 10)
unfolding MemoryCache.get lookup
read_one = refl

-- The older of two entries is read, and the other is evicted by a third.
recent_survives_example :
    (MemoryCache.get
      (pos 5)
      (pos 5)
      1
      (run (set_value (pos 3) 3 30 ∷ []) (MemoryCache.get (pos 2) (pos 2) 1 full).0)).1
    ≡ some (stored 10)
recent_survives_example =
    Survival.recent_survives (pos 2) (pos 2) (pos 5) (pos 5) 1 10 (set_value (pos 3) 3 30 ∷ []) 2
      full (MemoryCache.get (pos 2) (pos 2) 1 full).0 (inr (read_one, refl)) full-IsValid refl refl
      ((λ h. cc h), tt) (omega arith)
