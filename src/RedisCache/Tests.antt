-- ===== src/RedisCache/Tests.antt =====
-- The theorems at concrete inputs.
mod Codec
mod Server
use pydecorators.Prelude.{
  ℕ, ◌+◌, ◌≡◌, ◌↔◌, refl, Bool, true, false, none, some, List, [], ◌∷◌, String, ◌==◌, string_eq,
  All, if◌then◌else◌,
}
use pydecorators.Prelude.Int.{pos}
use pydecorators.Prelude.Dict.{lookup, insert, erase}
use pydecorators.Prelude.Effect.{Outcome, returned, raised}
use pydecorators.Exceptions.{Exn, foreign}
use pydecorators.CacheResult.{Times}
use pydecorators.CacheResult.Transparency.{IsExpected}
use pydecorators.CacheResult.Runs.{Request, call, cache_clear, cache_info, run}
use pydecorators.RedisCache.Keeps.{IsRedisError}
use pydecorators.RedisCache.Transparency
use pydecorators.RedisCache.Transparency.{over_redis}
use pydecorators.RedisCache
use pydecorators.RedisCache.Methods
use pydecorators.RedisCache.Validation
use pydecorators.RedisCache.Validation.{rstrip, is_colon}
use pydecorators.RedisCache.Tests.Codec.{settings, codec}
use pydecorators.RedisCache.Tests.Server.{client, redis, server, empty_server}

-- The function gives 1 for true, and raises 7 for false; the world counts its calls.
abbrev answer : Bool → Outcome ℕ ℕ
answer b = if b then returned 1 else raised 7

abbrev func : Bool → ℕ → Outcome ℕ ℕ × ℕ
func b calls = (answer b, calls + 1)

abbrev make_key : Bool → Outcome (Exn ℕ) Bool
make_key b = returned b

abbrev at : Times
at = record { lookup = pos 0; store = pos 0 }

abbrev requests : List (Request Bool)
requests =
    call at true
    ∷ call at true
    ∷ call at false
    ∷ cache_info (pos 3)
    ∷ call at true
    ∷ cache_clear
    ∷ call at false
    ∷ []

same_answer :
    (args args' key : Bool)
    → make_key args ≡ returned key
    → make_key args' ≡ returned key
    → answer args ≡ answer args'
same_answer args args' key h h' = cc (h, h')

redis_transparent_example :
    All
      (λ done. IsExpected (IsRedisError client settings (λ _. ⊥) redis) (answer done.0) done.1)
      (run
        (over_redis client settings (λ _. ⊥) redis codec make_key func (λ _. true) true)
        requests
        (server, 0))
redis_transparent_example =
    Transparency.redis_transparent client settings (λ _. ⊥) redis codec make_key func (λ _. true)
      true answer requests server 0 (empty_server _) same_answer (λ args w. refl)
      (λ args. (args, refl))

-- What is stored is answered; with room for one entry the older of two is evicted.
stored_then_hit :
    (Methods.get client settings true (Methods.set_value client settings true 5 server).1).0
    ≡ returned (some (record { payload = 5; expires_at = none; is_exception = false }))
unfolding Methods.get Methods.set_entry RedisCache.decode_entry lookup insert
stored_then_hit = refl

evicted_then_missed :
    (Methods.get client settings true
      (Methods.set_value client settings false 6
        (Methods.set_value client settings true 5 server).1).1).0
    ≡ returned none
unfolding Methods.get Methods.set_entry RedisCache.decode_entry lookup insert erase
evicted_then_missed = refl

-- `Redis.from_url`, which knows one scheme.
abbrev from_url : String → Outcome ℕ (Unit {0})
from_url url = if url == "redis://localhost" then returned tt else raised 3

-- A colon at the end of the prefix is dropped.
init-accepts_iff_example :
    (Validation.init from_url false (some "redis://localhost") true "app:" (some (pos 5)) none
      ≡ returned "app")
    ↔ Validation.IsAcceptable from_url false
        (some "redis://localhost")
        true
        "app:"
        (some (pos 5))
        none
      × ("app" ≡ rstrip is_colon "app:")
init-accepts_iff_example =
    Validation.init-accepts_iff from_url false (some "redis://localhost") true "app:" (some (pos 5))
      none "app"

-- A url that the library does not know: its exception is passed on.
url_error_passed :
    Validation.init from_url false (some "localhost") true "app" none none ≡ raised (foreign 3)
unfolding Validation.init
url_error_passed = refl
