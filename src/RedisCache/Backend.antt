-- ===== src/RedisCache/Backend.antt =====
-- `RedisCacheBackend` as a `CacheBackend`: over any client that answers as Redis does, and codecs that
-- give back what they were given.
use pydecorators.Prelude.{true, false, string_eq}
use pydecorators.Prelude.Triples.{holds_after}
use pydecorators.Exceptions.{Exn}
use pydecorators.CacheBackend.{Policy, IsLawful}
use pydecorators.RedisCache.{Client, Settings}
use pydecorators.RedisCache.Methods.{redis_backend, info}
use pydecorators.RedisCache.Keeps.{IsRedisError}
use pydecorators.RedisCache.Laws.{IsRedis, IsCodec}
use pydecorators.RedisCache.Allowed.{
  IsAllowed, then_allowed, get_allowed, set_entry_allowed, clear_allowed, info_allowed, answers,
}

module _ {S K O : Type 0} (client : Client S (Exn O)) (settings : Settings K O)
    (IsClientError : Exn O → Type 0) (redis : IsRedis client settings IsClientError)
    (codec : IsCodec settings) where
  -- The Redis backend answers only with what was stored under a key, whatever else is in Redis, expires
  -- or is evicted, and whatever the client raises.
  pub redis_backend-IsLawful : IsLawful (redis_backend client settings)
  redis_backend-IsLawful = record {
    Holds = λ P s. redis.Stores (IsAllowed settings P) s;
    get_holds = λ P now key s h.
        answers client settings IsClientError redis codec P key _
          (get_allowed client settings IsClientError redis codec P key s h);
    set_value_holds = λ P now key v s p h.
        holds_after (redis.Stores (IsAllowed settings P))
          (IsRedisError client settings IsClientError redis) (λ _. Unit) _
          (set_entry_allowed client settings IsClientError redis codec P key v false p s h);
    set_exception_holds = λ P now key x s p h.
        holds_after (redis.Stores (IsAllowed settings P))
          (IsRedisError client settings IsClientError redis) (λ _. Unit) _
          (set_entry_allowed client settings IsClientError redis codec P key x true p s h);
    clear_holds = λ P s h.
        holds_after (redis.Stores (IsAllowed settings P))
          (IsRedisError client settings IsClientError redis) (λ _. Unit) _
          (clear_allowed client settings IsClientError redis codec P s h);
    info_holds = λ P now s h.
        holds_after (redis.Stores (IsAllowed settings P))
          (IsRedisError client settings IsClientError redis) (λ _. Unit) _
          (then_allowed client settings IsClientError redis codec P (λ _. Unit) (λ _. Unit)
            (info client settings) _ (info_allowed client settings IsClientError redis codec P)
            (λ _ _ s' h'. (tt, h')) s h);
  }

  pub lawful_holds :
      (P : Policy K O) (s : S)
      → redis.Stores (IsAllowed settings P) s
      → redis_backend-IsLawful.Holds P s
  unfolding redis_backend-IsLawful
  lawful_holds P s h = h
