-- ===== src/CacheResult.antt =====
-- src/pydecorators/cache_result.py: the wrapper that `cache_result` puts around a function, over any
-- `CacheBackend`.
pub mod Transparency
pub mod Runs
pub mod Coalescing
pub mod Keys
pub mod DefaultKeys
mod Tests
use pydecorators.Prelude.{Bool, Option, none, some, if◌then◌else◌}
use pydecorators.Prelude.Int.{ℤ}
use pydecorators.Prelude.Effect.{Outcome, returned, raised, Action, ◌>>=◌, ◌>>◌, raise, pure}
use pydecorators.Exceptions.{Exn, foreign}
use pydecorators.MemoryCache.{CacheEntry}
use pydecorators.CacheBackend.{CacheBackend}

-- The options of the decorator that the wrapper reads, and what the caller's code is: `S` is the state of
-- the backend, `W` the rest of the world, `A` the arguments of a call, `O` the Python objects, results
-- and exceptions alike.
pub record Config (S W K A O : Type 0) : Type 0 where
  pub backend : CacheBackend S K O
  pub make_key : A → Outcome (Exn O) K
  pub func : A → Action W O O
  pub is_exception : O → Bool  -- `isinstance(exc, Exception)`, for what the function raises
  pub cache_exceptions : Bool

-- The clock at the lookup, and when the result is stored.
pub record Times : Type 0 where
  pub lookup : ℤ
  pub store : ℤ

module _ {S W K A O : Type 0} (config : Config S W K A O) where
  -- a method of the backend
  abbrev pub of_backend : {B : Type 0} → Action S (Exn O) B → Action (S × W) (Exn O) B
  of_backend m (s, w) = let (r, s') = m s in (r, (s', w))

  -- `cached_entry_value`
  abbrev pub cached_entry_value : CacheEntry O → Action (S × W) (Exn O) O
  cached_entry_value entry =
      if entry.is_exception then raise (foreign entry.payload) else pure entry.payload

  abbrev pub store_exception : ℤ → K → O → Action (S × W) (Exn O) (Unit {0})
  store_exception now key exc =
      if config.cache_exceptions
      then of_backend (config.backend.set_exception now key exc)
      else pure tt

  -- the `except Exception`, the `raise`, and what follows a result
  abbrev pub store_outcome : ℤ → K → Outcome O O → Action (S × W) (Exn O) O
  store_outcome now key (returned result) =
      of_backend (config.backend.set_value now key result) >> pure result
  store_outcome now key (raised exc) =
      if config.is_exception exc
      then store_exception now key exc >> raise (foreign exc)
      else raise (foreign exc)

  abbrev pub compute_and_store : ℤ → K → A → Action (S × W) (Exn O) O
  compute_and_store now key args (s, w) =
      let (outcome, w') = config.func args w in store_outcome now key outcome (s, w')

  abbrev pub on_lookup : ℤ → K → A → Option (CacheEntry O) → Action (S × W) (Exn O) O
  on_lookup now key args none = compute_and_store now key args
  on_lookup now key args (some entry) = cached_entry_value entry

  abbrev pub call : Times → A → K → Action (S × W) (Exn O) O
  call times args key =
      of_backend (config.backend.get times.lookup key) >>= on_lookup times.store key args

  -- the wrapper, without the coalescing of misses
  abbrev pub with_made_key :
      (K → Action (S × W) (Exn O) O) → Outcome (Exn O) K → Action (S × W) (Exn O) O
  with_made_key f (returned key) = f key
  with_made_key f (raised e) = raise e

  unfoldable pub wrapper : Times → A → Action (S × W) (Exn O) O
  wrapper times args = with_made_key (call times args) (config.make_key args)
