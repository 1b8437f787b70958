-- ===== src/MemoryCache.antt =====
-- src/pydecorators/cache_result.py, `MemoryCacheBackend`. Cached values and cached exceptions are
-- Python objects of one type. Where a method reads the clock, the reading is an argument; one that
-- a branch does not make is ignored. The lock makes each method atomic.
pub mod Invariant
pub mod Runs
pub mod Pruning
mod Lookup
mod Recency
mod Survival
pub mod Backend
mod Tests
use pydecorators.Prelude.{
  ℕ, ◌+◌, Bool, true, false, Option, none, some, List, [], ◌∷◌, ltb, length, if◌then◌else◌,
  Hashable,
}
use pydecorators.Prelude.Int.{ℤ, pos, pos_part, ◌+ℤ◌, leb_ℤ}
use pydecorators.Prelude.Dict.{Dict, lookup, insert, erase, move_to_end}
use pydecorators.Prelude.Effect.{Outcome, returned, raised}
use pydecorators.Exceptions.{Exn, configuration_error}

pub record CacheInfo : Type 0 where
  pub hits : ℕ
  pub misses : ℕ
  pub maxsize : Option ℕ
  pub currsize : ℕ

-- `_CacheEntry`
pub record CacheEntry (O : Type 0) : Type 0 where
  pub payload : O
  pub expires_at : Option ℤ
  pub is_exception : Bool

pub record Memory (K O : Type 0) : Type 0 where
  pub ttl : Option ℤ
  pub maxsize : Option ℕ
  pub refresh_ttl_on_hit : Bool
  pub cache : Dict K (CacheEntry O)
  pub hits : ℕ
  pub misses : ℕ

-- `value is not None and value <= 0`
abbrev pub is_not_positive : Option ℤ → Bool
is_not_positive none = false
is_not_positive (some n) = leb_ℤ n (pos 0)

abbrev size_limit : Option ℤ → Option ℕ
size_limit none = none
size_limit (some n) = some (pos_part n)

-- `expires_at is not None and clock() >= expires_at`
abbrev pub has_passed : ℤ → Option ℤ → Bool
has_passed now none = false
has_passed now (some t) = leb_ℤ t now

abbrev pub is_expired : {O : Type 0} → ℤ → CacheEntry O → Bool
is_expired now entry = has_passed now entry.expires_at

abbrev pub after : ℤ → Option ℤ → Option ℤ
after now none = none
after now (some ttl) = some (now +ℤ ttl)

module _ {K O : Type 0} where
  -- `MemoryCacheBackend.__init__`
  unfoldable pub init : (ttl maxsize : Option ℤ) → Bool → Outcome (Exn O) (Memory K O)
  init ttl maxsize refresh_ttl_on_hit =
      if is_not_positive ttl
      then raised (configuration_error "ttl must be greater than zero when provided")
      else if is_not_positive maxsize
      then raised (configuration_error "maxsize must be greater than zero when provided")
      else returned (record {
        ttl = ttl;
        maxsize = size_limit maxsize;
        refresh_ttl_on_hit = refresh_ttl_on_hit;
        cache = [];
        hits = 0;
        misses = 0;
      })

  -- `_expires_at`
  abbrev pub expiry : ℤ → Memory K O → Option ℤ
  expiry now s = after now s.ttl

  -- `while len(cache) > maxsize: cache.popitem(last=False)`
  unfoldable pub drop_oldest : ℕ → Dict K (CacheEntry O) → Dict K (CacheEntry O)
  drop_oldest maxsize [] = []
  drop_oldest maxsize (e ∷ rest) =
      let rest' = drop_oldest maxsize rest in
      if ltb maxsize (length (e ∷ rest)) then rest' else e ∷ rest

  abbrev pub evict_if_needed : Option ℕ → Dict K (CacheEntry O) → Dict K (CacheEntry O)
  evict_if_needed none cache = cache
  evict_if_needed (some maxsize) cache = drop_oldest maxsize cache

  unfoldable pub clear : Memory K O → Memory K O
  clear s = record s { cache = []; hits = 0; misses = 0 }

  module _ ⦃e : Hashable K⦄ where
    abbrev pub refreshed : ℤ → Memory K O → CacheEntry O → CacheEntry O
    refreshed now s entry =
        if s.refresh_ttl_on_hit then record entry { expires_at = expiry now s } else entry

    -- `get`, on what the cache has under the key
    abbrev pub get_found :
        ℤ → ℤ → K → Memory K O → Option (CacheEntry O) → Memory K O × Option (CacheEntry O)
    get_found now now' key s none = (record s { misses = s.misses + 1 }, none)
    get_found now now' key s (some entry) =
        if is_expired now entry
        then (record s { cache = erase key s.cache; misses = s.misses + 1 }, none)
        else (
          record s {
            cache = move_to_end key (insert key (refreshed now' s entry) s.cache);
            hits = s.hits + 1;
          },
          some (refreshed now' s entry),
        )

    -- The clock is read for the expiry test, and again to refresh the entry.
    unfoldable pub get : ℤ → ℤ → K → Memory K O → Memory K O × Option (CacheEntry O)
    get now now' key s = get_found now now' key s (lookup key s.cache)

    unfoldable pub set_entry : K → CacheEntry O → Memory K O → Memory K O
    set_entry key entry s = record s {
      cache = evict_if_needed s.maxsize (move_to_end key (insert key entry s.cache));
    }

    unfoldable pub set_value : ℤ → K → O → Memory K O → Memory K O
    set_value now key value s =
        set_entry key (record { payload = value; expires_at = expiry now s; is_exception = false })
          s

    unfoldable pub set_exception : ℤ → K → O → Memory K O → Memory K O
    set_exception now key exception s =
        set_entry key
          (record { payload = exception; expires_at = expiry now s; is_exception = true }) s

    -- the clock is read once for each entry: `now key` is the reading for the entry at a key
    unfoldable pub expired_keys : (K → ℤ) → Dict K (CacheEntry O) → List K
    expired_keys now [] = []
    expired_keys now ((key, entry) ∷ rest) =
        let rest' = expired_keys now rest in
        if is_expired (now key) entry then key ∷ rest' else rest'

    unfoldable pub erase_all : List K → Dict K (CacheEntry O) → Dict K (CacheEntry O)
    erase_all [] cache = cache
    erase_all (key ∷ keys) cache = erase_all keys (erase key cache)

    -- `_prune_expired`
    unfoldable pub prune_expired : (K → ℤ) → Memory K O → Memory K O
    prune_expired now s = record s { cache = erase_all (expired_keys now s.cache) s.cache }

    unfoldable pub info : (K → ℤ) → Memory K O → Memory K O × CacheInfo
    info now s =
        let s' = prune_expired now s in
        (
          s',
          record {
            hits = s'.hits;
            misses = s'.misses;
            maxsize = s'.maxsize;
            currsize = length s'.cache;
          },
        )
