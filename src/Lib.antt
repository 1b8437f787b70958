-- ===== src/Lib.antt =====
-- Verification of the decorators in src/pydecorators.
--
-- The package is a set of decorators that share little code. Modelled here:
--
--  exceptions.py          Exceptions: the package's exceptions, as one data type
--  circuit_breaker.py     CircuitBreaker: the breaker of one decorated function, its wrapper, its validation,
--                         and interleaved calls
--  cache_result.py        MemoryCache: the in-memory backend
--                         CacheBackend: what the decorator needs of a backend
--                         DiskCache: the SQLite backend, with its maintenance and inspection
--                         CacheResult: the wrapper around a function, over any of the backends;
--                         CacheResult.Coalescing the threads that miss one key; CacheResult.Keys the default
--                         key of a call, and CacheResult.DefaultKeys the decorator with it
--  redis_backend.py       RedisCache: the Redis backend, over a client that is a parameter; RedisCache.Methods
--                         its methods as calls of the client, RedisCache.Laws what is relied on,
--                         RedisCache.Validation the checks of its arguments
--  log_calls.py           LogCalls: the wrapper, the records it logs, redaction, and the validation
--  retry.py               Retry: the loop of the wrapper with its hooks, predicate and delays
--  rate_limit.py          RateLimit: the windows and the in-process limiter, over a parameter for the bounds of
--                         calendar windows, and the wrapper around a function;
--                         RateLimit.Sqlite the limiter that processes share;
--                         RateLimit.Redis the Redis limiter with its Lua script, for the keys of one bucket;
--                         RateLimit.Configuration the windows of the arguments
--  validate_types.py      ValidateTypes: matching of values and the wrapper
--  require_env.py         RequireEnv: the check of the environment and of the arguments, and the wrapper
--
-- Objects holds the Python values that configuration checks look at. Prelude holds what all
-- modules share: tests on numbers, lists, dictionaries, integers, and Action, which is a state of
-- the world beside a result or an exception; Prelude.Triples has the states, results and
-- exceptions that an Action keeps to.
--
-- Time: clock readings, durations and delays are integers of one unit; Python's floats are read as
-- exact numbers of it, so rounding, infinities and NaN are not modelled. A method that reads the
-- clock takes each reading as an argument, in the order in which the code makes them; the loop of
-- the rate limiter's wrapper reads a clock of the world. Async wrappers run the same code as the
-- sync ones with an await in between, and are modelled by them. A lock makes the code under it one
-- step.
--
-- Fuel: RateLimit.Wrapper.attempts is the loop of the rate limiter's wrapper, on fuel; with no
-- fuel left it returns none, a call that still waits. In raise mode one round is enough, in block
-- mode two are, if sleeping takes as long as asked and no other call of the limiter comes in
-- between.
--
-- Parameters: the decorated functions, hooks, predicates, clocks and sleeps of the caller; the
-- bounds of calendar windows (_calendar_window_bounds in src/pydecorators/rate_limit.py, datetime
-- arithmetic); in retry the product with backoff, a float multiplication, and random.uniform; in
-- validate_types the classes and elements of values, isinstance with the TypeError that it raises,
-- repr and the reading of signatures and hints; in the SQLite limiter and the normalization of
-- windows pickling, sha256, str.strip, ZoneInfo and the printing of floats; for the disk cache the
-- payload serializer, the pickling of keys, sha256, the decoding of UTF-8, and the order of rows
-- that ORDER BY gives; for the Redis backend the client, JSON, base64, pickling, sha256, UTF-8,
-- ASCII, int on a text, Redis.from_url and the order that sort gives; for the Redis limiter the
-- commands of Redis; for cache keys the parts that Python's == compares, sorted and hash; in
-- log_calls the logger, a list of records.
--
-- Not modelled: in the Redis limiter the texts of keys, arguments and members, and the expiry of
-- keys between calls, which its refinement takes one call at a time; in the Redis backend what its
-- client does within a command; in cache_result the helpers for names and directories; errors of
-- SQLite itself, the checks of the other arguments of rate_limit, the splitting of names in
-- require_env, timeout, measure_time and deprecated. Left out as I/O and glue: the formatting of
-- log records, metadata of wrapped functions, scripts, examples.
pub mod Prelude
pub mod Exceptions
pub mod Objects
pub mod CircuitBreaker
pub mod LogCalls
pub mod MemoryCache
pub mod RateLimit
pub mod Retry
pub mod DiskCache
pub mod CacheBackend
pub mod CacheResult
pub mod ValidateTypes
pub mod RedisCache
pub mod RequireEnv
