-- ===== src/CacheResult/DefaultKeys.antt =====
-- `cache_result` without a key function: the default key, the wrapper and the in-memory backend together.
use pydecorators.Prelude.{◌≡◌, refl, Bool, true, Option, none, List, [], All, Hashable}
use pydecorators.Prelude.Effect.{Outcome, returned, Action}
use pydecorators.Exceptions.{Exn}
use pydecorators.MemoryCache.{Memory}
use pydecorators.MemoryCache.Backend.{memory_backend}
use pydecorators.CacheResult.Runs.{Request, run, over, GivesAnswer, memory_transparent}
use pydecorators.CacheResult.Keys.{CallArguments, Parts, key_parts, make_key, default_cache_key}
use pydecorators.CacheResult.Keys.Sharing.{IsPrivate, IsSameCall, default_cache_key-IsSameCall}

module _ {V P O W : Type 0} ⦃e : Hashable (List P)⦄ (parts : Parts V P) (typed : Bool)
    (namespace : Option P) (func : CallArguments V → Action W O O) (is_exception : O → Bool)
    (cache_exceptions : Bool) where
  abbrev pub by_default : CallArguments V → Outcome (Exn O) (List P)
  by_default call = make_key parts none typed namespace call

  hashable_made :
      (call : CallArguments V)
      → parts.is_hashable (key_parts parts typed namespace call) ≡ true
      → by_default call ≡ returned (key_parts parts typed namespace call)
  unfolding make_key default_cache_key
  hashable_made call h = rw h refl

  default_made :
      (call : CallArguments V) (key : List P)
      → by_default call ≡ returned key
      → default_cache_key parts {O = O} typed namespace call ≡ returned key
  unfolding make_key
  default_made call key h = h

  -- A function that gives one answer to calls with the same arguments, of the same types where types
  -- count, is cached transparently by the default key: every call in any run, on an empty cache in memory
  -- of any size and lifetime, returns or raises exactly what the function does. The arguments of every
  -- call are hashable, and the markers of keys are private.
  pub default_key_transparent :
      (answer : CallArguments V → Outcome O O) (rs : List (Request (CallArguments V)))
      (s : Memory (List P) O) (w : W)
      → IsPrivate parts
      → s.cache ≡ []
      → ((call call' : CallArguments V)
          → IsSameCall parts typed call call'
          → answer call ≡ answer call')
      → ((call : CallArguments V) (w' : W) → (func call w').0 ≡ answer call)
      → ((call : CallArguments V) → parts.is_hashable (key_parts parts typed namespace call) ≡ true)
      → All
          (GivesAnswer answer)
          (run (over by_default func is_exception cache_exceptions memory_backend) rs (s, w))
  default_key_transparent answer rs s w hidden empty same answers hashable =
      memory_transparent by_default func is_exception cache_exceptions answer rs s w empty
        (λ call call' key made made'. same call call' (
          default_cache_key-IsSameCall parts {O = O} typed namespace call call' key hidden
            (default_made call key made) (default_made call' key made')))
        answers (λ call. (key_parts parts typed namespace call, hashable_made call (hashable call)))
