-- ===== src/CacheResult/Tests.antt =====
-- The theorems at concrete inputs: a function that counts its calls, over both backends.
use pydecorators.Prelude.{
  ℕ, ◌≡◌, ◌+◌, refl, true, false, Option, none, some, List, [], ◌∷◌, nat_eq, All, ◌==◌,
  if◌then◌else◌, subst, false, map, String, ap, arith,
}
use pydecorators.Prelude.Int.{pos}
use pydecorators.Prelude.Bytes.{Bytes}
use pydecorators.Prelude.Effect.{Outcome, returned, raised}
use pydecorators.Exceptions.{Exn}
use pydecorators.MemoryCache.{Memory}
use pydecorators.MemoryCache.Backend.{memory_backend}
use pydecorators.DiskCache.{Settings, Disk}
use pydecorators.DiskCache.Backend.{disk_backend}
use pydecorators.CacheResult.{Times}
use pydecorators.Prelude.Dict.{Dict}
use pydecorators.Prelude.Bytes.{bytes_eq}
use pydecorators.CacheResult.Keys.{CallArguments, Parts, key_parts}
use pydecorators.CacheResult.Keys.Sharing.{IsPrivate}
use pydecorators.CacheResult.DefaultKeys
use pydecorators.CacheResult.DefaultKeys.{by_default}
use pydecorators.CacheResult.Runs
use pydecorators.CacheResult.Runs.{
  Request, call, cache_clear, cache_info, run, over, GivesAnswer, IsDiskError,
}
use pydecorators.CacheResult.Transparency.{IsExpected}

-- The function adds one, and raises 7 for the argument 3; the world counts its calls.
abbrev answer : ℕ → Outcome ℕ ℕ
answer n = if n == 3 then raised 7 else returned (n + 1)

abbrev func : ℕ → ℕ → Outcome ℕ ℕ × ℕ
func n calls = (answer n, calls + 1)

abbrev make_key : ℕ → Outcome (Exn ℕ) ℕ
make_key n = returned n

abbrev memory : Memory ℕ ℕ
memory = record {
  ttl = some (pos 10);
  maxsize = some 1;
  refresh_ttl_on_hit = true;
  cache = [];
  hits = 0;
  misses = 0;
}

abbrev at : ℕ → Times
at t = record { lookup = pos t; store = pos t }

abbrev requests : List (Request ℕ)
requests =
    call (at 0) 3
    ∷ call (at 1) 3
    ∷ call (at 2) 5
    ∷ cache_info (pos 3)
    ∷ cache_clear
    ∷ call (at 4) 5
    ∷ []

same_key :
    (args args' key : ℕ)
    → make_key args ≡ returned key
    → make_key args' ≡ returned key
    → answer args ≡ answer args'
same_key args args' key h h' = cc (h, h')

memory_transparent_example :
    All
      (GivesAnswer answer)
      (run (over make_key func (λ _. true) true memory_backend) requests (memory, 0))
memory_transparent_example =
    Runs.memory_transparent make_key func (λ _. true) true answer requests memory 0 refl same_key
      (λ args w. refl) (λ args. (args, refl))

abbrev load_number : Bytes → Option ℕ
load_number (v ∷ []) = some v
load_number _ = none

abbrev settings : Settings ℕ ℕ
settings = record {
  ttl = none;
  maxsize = some 1;
  refresh_ttl_on_hit = false;
  pickle_key = λ k. some (k ∷ []);
  serializer = record {
    content_type = "application/number";
    dumps = λ v. some (v ∷ []);
    loads = load_number;
  };
  has_on_drop = false;
  busy_timeout_ms = 5_000;
  wal = false;
  drop_corrupt_rows = false;
  oldest_first = λ rows. rows;
}

abbrev new_file : Disk ℕ
new_file = record {
  cache_entries = [];
  hits = 0;
  misses = 0;
  user_version = 1;
  reported = [];
  closed = false;
}

pickles_apart :
    (key key' : ℕ) (k : Bytes) → some (key ∷ []) ≡ some k → some (key' ∷ []) ≡ some k → key ≡ key'
pickles_apart key key' k h h' = cc (h, h')

abbrev or_nothing : Option Bytes → Option ℕ
or_nothing none = none
or_nothing (some payload) = load_number payload

loads_dumped :
    (v : ℕ) (payload : Bytes) → some (v ∷ []) ≡ some payload → load_number payload ≡ some v
loads_dumped v payload h = subst (λ o. or_nothing o ≡ some v) h refl

disk_transparent_example :
    All
      (λ done. IsExpected IsDiskError (answer done.0) done.1)
      (run (over make_key func (λ _. true) true (disk_backend settings)) requests (new_file, 0))
disk_transparent_example =
    Runs.disk_transparent make_key func (λ _. true) true settings answer requests new_file 0 refl
      pickles_apart loads_dumped same_key (λ args w. refl) (λ args. (args, refl))

-- Objects are numbers; parts are numbers, of which 0 and 1 are the markers.
abbrev parts : Parts ℕ ℕ
parts = record {
  part = λ v. v + 2;
  type_part = λ v. 2;
  pair = λ name p. p + 2;
  kw_marker = 0;
  type_marker = 1;
  sorted = λ kwargs. kwargs;
  is_hashable = λ ps. true;
}

parts-IsPrivate : IsPrivate parts
parts-IsPrivate = record {
  marker_no_part = λ v. omega arith;
  type_marker_no_part = λ v. omega arith;
  type_marker_no_pair = λ name p. omega arith;
  markers_differ = omega arith;
}

-- The first argument, and 9 is raised where there is none.
abbrev first_part : List ℕ → Outcome ℕ ℕ
first_part [] = raised 9
first_part (p ∷ ps) = returned p

abbrev first : CallArguments ℕ → Outcome ℕ ℕ
first c = first_part (map (λ v. v + 2) c.args)

abbrev find_first : CallArguments ℕ → ℕ → Outcome ℕ ℕ × ℕ
find_first c calls = (first c, calls + 1)

abbrev given : List ℕ → Dict String ℕ → CallArguments ℕ
given args kwargs = record { args = args; kwargs = kwargs }

abbrev argument_requests : List (Request (CallArguments ℕ))
argument_requests =
    call (at 0) (given (1 ∷ 2 ∷ []) [])
    ∷ call (at 1) (given (1 ∷ []) (("b", 2) ∷ []))
    ∷ call (at 2) (given [] [])
    ∷ call (at 3) (given (1 ∷ 2 ∷ []) [])
    ∷ []

abbrev memory_of_parts : Memory (List ℕ) ℕ
memory_of_parts = record {
  ttl = none;
  maxsize = some 2;
  refresh_ttl_on_hit = false;
  cache = [];
  hits = 0;
  misses = 0;
}

default_key_transparent_example : All (GivesAnswer first) (
    run
      (over
        (by_default parts true (some 5) find_first (λ _. true) true)
        find_first
        (λ _. true)
        true
        memory_backend)
      argument_requests
      (memory_of_parts, 0))
default_key_transparent_example =
    DefaultKeys.default_key_transparent parts true (some 5) find_first (λ _. true) true first
      argument_requests memory_of_parts 0 parts-IsPrivate refl (λ a b same. ap first_part same.0)
      (λ a w. refl) (λ a. refl)

-- A positional and a named argument of one value make two keys.
two_keys :
    (key_parts parts false none (given (1 ∷ 2 ∷ []) [])
      == key_parts parts false none (given (1 ∷ []) (("b", 2) ∷ [])))
    ≡ false
two_keys = refl
