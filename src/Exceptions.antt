-- ===== src/Exceptions.antt =====
-- src/pydecorators/exceptions.py
use pydecorators.Prelude.{String}
use pydecorators.Prelude.Int.{ℤ}

-- Seconds to wait, `math.inf` included.
pub data Wait : Type 0 where
  finite : ℤ → Wait
  infinite : Wait

-- The package's exceptions; `foreign` is whatever the decorated code raises.
pub data Exn (E : Type 0) : Type 0 where
  configuration_error : String → Exn E
  rate_limit_exceeded : (retry_after : Wait) → Exn E
  function_timed_out : String → Exn E
  cache_key_error : String → Exn E
  cache_serialization_error : String → Exn E
  cache_backend_closed_error : String → Exn E
  unsupported_cache_schema_version_error : String → Exn E
  validation_error : String → Exn E
  circuit_breaker_open : (reset_after : ℤ) → Exn E
  env_requirement_error : (variable reason : String) → Exn E
  assertion_error : Exn E
  foreign : E → Exn E
