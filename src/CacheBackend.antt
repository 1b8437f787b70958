-- ===== src/CacheBackend.antt =====
-- src/pydecorators/cache_result.py, the protocol `CacheBackend`: what `cache_result` needs of a backend,
-- and what it relies on. A method makes its clock readings at one time, which is an argument.
use pydecorators.Prelude.{Bool, true, false, Option, none, some}
use pydecorators.Prelude.Int.{ℤ}
use pydecorators.Prelude.Effect.{Outcome, returned, raised, Action}
use pydecorators.Exceptions.{Exn}
use pydecorators.MemoryCache.{CacheInfo, CacheEntry}

-- The methods, on a state `S`, for keys `K` and Python objects `O`.
pub record CacheBackend (S K O : Type 0) : Type 0 where
  pub get : ℤ → K → Action S (Exn O) (Option (CacheEntry O))
  pub set_value : ℤ → K → O → Action S (Exn O) (Unit {0})
  pub set_exception : ℤ → K → O → Action S (Exn O) (Unit {0})
  pub clear : Action S (Exn O) (Unit {0})
  pub info : ℤ → Action S (Exn O) CacheInfo

-- Whether an object may be cached under a key, as an exception or not.
abbrev pub Policy : Type 0 → Type 0 → Type 1
Policy K O = K → Bool → O → Type 0

abbrev pub Allows : {K O : Type 0} → Policy K O → K → Option (CacheEntry O) → Type 0
Allows P key none = Unit
Allows P key (some entry) = P key entry.is_exception entry.payload

-- An answer of `get` is allowed.
abbrev pub IsAnswer :
    {K O : Type 0} → Policy K O → K → Outcome (Exn O) (Option (CacheEntry O)) → Type 0
IsAnswer P key (returned entry) = Allows P key entry
IsAnswer P key (raised e) = Unit

-- A backend answers only with what was stored under the key: where all that is stored is allowed, its
-- answers are allowed, whatever it drops, expires or refuses.
pub record IsLawful {S K O : Type 0} (b : CacheBackend S K O) : Type 1 where
  pub Holds : Policy K O → S → Type 0
  pub get_holds :
      (P : Policy K O) (now : ℤ) (key : K) (s : S)
      → Holds P s
      → Holds P (b.get now key s).1 × IsAnswer P key (b.get now key s).0
  pub set_value_holds :
      (P : Policy K O) (now : ℤ) (key : K) (value : O) (s : S)
      → P key false value
      → Holds P s
      → Holds P (b.set_value now key value s).1
  pub set_exception_holds :
      (P : Policy K O) (now : ℤ) (key : K) (exception : O) (s : S)
      → P key true exception
      → Holds P s
      → Holds P (b.set_exception now key exception s).1
  pub clear_holds : (P : Policy K O) (s : S) → Holds P s → Holds P (b.clear s).1
  pub info_holds : (P : Policy K O) (now : ℤ) (s : S) → Holds P s → Holds P (b.info now s).1
