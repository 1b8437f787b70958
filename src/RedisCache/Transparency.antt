-- ===== src/RedisCache/Transparency.antt =====
-- A cached function over the Redis backend.
use pydecorators.Prelude.{Bool, true, false, Option, none, some, List, All}
use pydecorators.Prelude.Effect.{Outcome, returned, raised, Action}
use pydecorators.Prelude.Triples.{Meets}
use pydecorators.Exceptions.{Exn}
use pydecorators.MemoryCache.{CacheEntry}
use pydecorators.CacheBackend.{Policy, Allows}
use pydecorators.CacheResult.{Config}
use pydecorators.CacheResult.Transparency.{
  RaisesOnly, IsTolerated, IsExpected, IsRight, Answers, RespectsKeys,
}
use pydecorators.CacheResult.Runs.{Request, run, run-IsExpected, over, HasKeys}
use pydecorators.RedisCache.{Client, Settings, decode_entry}
use pydecorators.RedisCache.Methods.{redis_backend}
use pydecorators.RedisCache.Keeps.{IsRedisError}
use pydecorators.RedisCache.Laws.{IsRedis, IsCodec}
use pydecorators.RedisCache.Backend.{redis_backend-IsLawful, lawful_holds}
use pydecorators.RedisCache.Allowed.{IsAllowed, get_allowed, set_entry_allowed}

anything : {K O : Type 0} → Policy K O
anything key is_exception value = Unit

anything_goes : {K O : Type 0} (key : K) (value : O) (b : Bool) → anything key b value
unfolding anything
anything_goes key value b = tt

anything-Allows : {K O : Type 0} (key : K) (o : Option (CacheEntry O)) → Allows anything key o
unfolding anything
anything-Allows key none = tt
anything-Allows key (some entry) = tt

module _ {S K O : Type 0} (client : Client S (Exn O)) (settings : Settings K O)
    (IsClientError : Exn O → Type 0) (redis : IsRedis client settings IsClientError)
    (codec : IsCodec settings) where
  abbrev IsError : Exn O → Type 0
  IsError = IsRedisError client settings IsClientError redis

  raises_only :
      {A : Type 0} (H : S → Type 0) (Q : A → Type 0) (r : Outcome (Exn O) A × S)
      → Meets H Q IsError r
      → RaisesOnly IsError r.0
  raises_only H Q (returned a, s) h = tt
  raises_only H Q (raised e, s) h = h.0

  holds_anything : (s : S) → redis.Stores (IsAllowed settings anything) s
  holds_anything s =
      redis.stores_anything (IsAllowed settings anything) s
        (λ name bytes key named. anything-Allows key (decode_entry settings bytes))

  redis_raises : IsTolerated (redis_backend client settings) IsError
  redis_raises = record {
    get_raises = λ now key s.
        raises_only (redis.Stores (IsAllowed settings anything)) (Allows anything key) _
          (get_allowed client settings IsClientError redis codec anything key s (holds_anything s));
    set_value_raises = λ now key v s.
        raises_only (redis.Stores (IsAllowed settings anything)) (λ _. Unit) _
          (set_entry_allowed client settings IsClientError redis codec anything key v false
            (anything_goes key v false) s (holds_anything s));
    set_exception_raises = λ now key x s.
        raises_only (redis.Stores (IsAllowed settings anything)) (λ _. Unit) _
          (set_entry_allowed client settings IsClientError redis codec anything key x true
            (anything_goes key x true) s (holds_anything s));
  }

  module _ {W A : Type 0} (make_key : A → Outcome (Exn O) K) (func : A → Action W O O)
      (is_exception : O → Bool) (cache_exceptions : Bool) where
    abbrev pub over_redis : Config S W K A O
    over_redis = over make_key func is_exception cache_exceptions (redis_backend client settings)

    -- Over the Redis backend, with any client that answers as Redis does and with codecs that give back what
    -- they were given, every call in any run returns or raises what the function does, or raises that
    -- something cannot be serialized, an exception of the client, or one of Python's on values of other
    -- programs. What Redis holds at first of the backend's entries is right, the function gives one answer
    -- for one key, and every call has a key.
    pub redis_transparent :
        (answer : A → Outcome O O) (rs : List (Request A)) (s : S) (w : W)
        → redis.Stores (IsAllowed settings (IsRight over_redis answer)) s
        → RespectsKeys over_redis answer
        → Answers over_redis answer
        → HasKeys over_redis
        → All (λ done. IsExpected IsError (answer done.0) done.1) (run over_redis rs (s, w))
    redis_transparent answer rs s w right respects answers keys =
        run-IsExpected over_redis answer IsError
          (redis_backend-IsLawful client settings IsClientError redis codec) redis_raises respects
          answers keys rs s w
          (lawful_holds client settings IsClientError redis codec (IsRight over_redis answer) s
            right)
