-- ===== src/DiskCache.antt =====
-- src/pydecorators/cache_result.py, `DiskCacheBackend`: the tables, and the methods of `CacheBackend`.
-- The SQL statements are read as operations on lists of rows, one transaction a step. The payload
-- serializer, the pickling of keys and the order of rows that `ORDER BY` gives are parameters. Where
-- a method reads the clock, the reading is an argument; the lock makes each method atomic.
pub mod Invariant
pub mod Keeps
pub mod Runs
pub mod Backend
pub mod Maintenance
pub mod Inspection
mod Tests
use pydecorators.Prelude.{
  ℕ, ◌+◌, ◌-◌, Bool, true, false, not, Option, none, some, List, [], ◌∷◌, ◌++◌, map, String, ◌==◌,
  leb, ltb, length, if◌then◌else◌, string_eq,
}
use pydecorators.Prelude.Int.{ℤ, pos, ltb_ℤ}
use pydecorators.Prelude.Effect.{Outcome, returned, raised, Action}
use pydecorators.Prelude.Bytes.{Bytes, bytes_eq}
use pydecorators.Prelude.Table.{delete_where, take}
use pydecorators.Exceptions.{
  Exn, configuration_error, cache_serialization_error, cache_backend_closed_error,
  unsupported_cache_schema_version_error,
}
use pydecorators.MemoryCache.{CacheInfo, CacheEntry, has_passed, is_not_positive, after}

-- `DiskCacheDropEvent`
pub record DropEvent (K : Type 0) : Type 0 where
  pub key : K
  pub reason : String
  pub expected_serializer_content_type : String
  pub actual_serializer_content_type : Option String
  pub is_serialization_error : Bool  -- `exception`, which is a `CacheSerializationError` where it is given

-- `CacheSerializer`; `none` is a `CacheSerializationError`
pub record Serializer (O : Type 0) : Type 0 where
  pub content_type : String
  pub dumps : O → Option Bytes
  pub loads : Bytes → Option O

-- A row of `cache_entries`.
pub record Row : Type 0 where
  pub key : Bytes
  pub payload : Bytes
  pub is_exception : Bool
  pub expires_at : Option ℤ
  pub last_accessed : ℤ
  pub created_at : ℤ
  pub serializer_content_type : String

-- What `__init__` keeps of its arguments.
pub record Settings (K O : Type 0) : Type 0 where
  pub ttl : Option ℤ
  pub maxsize : Option ℕ
  pub refresh_ttl_on_hit : Bool
  pub pickle_key : K → Option Bytes  -- `PickleCacheSerializer.dumps`, on keys
  pub serializer : Serializer O
  pub has_on_drop : Bool
  pub busy_timeout_ms : ℕ
  pub wal : Bool
  pub drop_corrupt_rows : Bool
  pub oldest_first : List Row → List Row  -- `ORDER BY last_accessed ASC, created_at ASC`

-- The database file, and the backend that has it open. `reported` logs the events that `on_drop`
-- is called with; what that raises is suppressed.
pub record Disk (K : Type 0) : Type 0 where
  pub cache_entries : List Row
  pub hits : ℕ
  pub misses : ℕ
  pub user_version : ℕ
  pub reported : List (DropEvent K)
  pub closed : Bool

abbrev pub schema_version : ℕ
schema_version = 1

-- `WHERE key = ?`
abbrev pub has_key : Bytes → Row → Bool
has_key k row = k == row.key

abbrev pub find_row : Bytes → List Row → Option Row
find_row k [] = none
find_row k (row ∷ rows) = if has_key k row then some row else find_row k rows

-- `key IN (...)`
abbrev pub key_in : List Bytes → Row → Bool
key_in [] row = false
key_in (k ∷ ks) row = if has_key k row then true else key_in ks row

-- `UPDATE cache_entries SET last_accessed = ?, expires_at = ? WHERE key = ?`
unfoldable pub touch_row : Bytes → ℤ → Option ℤ → List Row → List Row
touch_row k now expires_at [] = []
touch_row k now expires_at (row ∷ rows) =
    (if has_key k row then record row { last_accessed = now; expires_at = expires_at } else row)
    ∷ touch_row k now expires_at rows

-- `INSERT OR REPLACE`
abbrev pub replace_row : Row → List Row → List Row
replace_row row rows = delete_where (has_key row.key) rows ++ row ∷ []

-- `expires_at IS NOT NULL AND expires_at <= ?`
abbrev pub is_expired_row : ℤ → Row → Bool
is_expired_row now row = has_passed now row.expires_at

module _ {E : Type 0} where
  -- the checks of `__init__` on the numbers
  abbrev pub check_arguments :
      (ttl maxsize : Option ℤ) (busy_timeout_ms : ℤ) → Outcome (Exn E) (Unit {0})
  check_arguments ttl maxsize busy_timeout_ms =
      if is_not_positive ttl
      then raised (configuration_error "ttl must be greater than zero when provided")
      else if is_not_positive maxsize
      then raised (configuration_error "maxsize must be greater than zero when provided")
      else if ltb_ℤ busy_timeout_ms (pos 0)
      then raised (configuration_error "busy_timeout_ms must be zero or greater")
      else returned tt

module _ {K : Type 0} where
  abbrev pub close : Disk K → Disk K
  close d = record d { closed = true }

  abbrev pub record_hit : Disk K → Disk K
  record_hit d = record d { hits = d.hits + 1 }

  abbrev pub record_miss : Disk K → Disk K
  record_miss d = record d { misses = d.misses + 1 }

  abbrev pub delete_key : Bytes → Disk K → Disk K
  delete_key k d = record d { cache_entries = delete_where (has_key k) d.cache_entries }

  -- `_prune_expired`
  abbrev pub prune_expired : ℤ → Disk K → Disk K
  prune_expired now d = record d {
    cache_entries = delete_where (is_expired_row now) d.cache_entries;
  }

module _ {K E : Type 0} where
  -- `_check_schema_version` and `_initialize_schema`, on a file that is new (`none`) or not
  unfoldable pub open_file : Option (Disk K) → Outcome (Exn E) (Disk K)
  open_file none = returned (record {
    cache_entries = [];
    hits = 0;
    misses = 0;
    user_version = schema_version;
    reported = [];
    closed = false;
  })
  open_file (some d) =
      if ltb schema_version d.user_version
      then raised (
          unsupported_cache_schema_version_error
            "disk cache schema version is newer than this package supports")
      else returned (record d { user_version = schema_version; reported = []; closed = false })

  -- `_ensure_open`, before the rest of a method
  abbrev pub when_open : {A : Type 0} → Action (Disk K) (Exn E) A → Action (Disk K) (Exn E) A
  when_open m d =
      if d.closed then (raised (cache_backend_closed_error "cache backend is closed"), d) else m d

  -- `_serialize_key`, before the rest of a method
  abbrev pub with_key :
      {A : Type 0} → Option Bytes → (Bytes → Action (Disk K) (Exn E) A) → Action (Disk K) (Exn E) A
  with_key none m d = (raised (cache_serialization_error "failed to serialize cache value"), d)
  with_key (some k) m d = m k d

  unfoldable pub clear : Action (Disk K) (Exn E) (Unit {0})
  clear = when_open (λ d. (returned tt, record d { cache_entries = []; hits = 0; misses = 0 }))

module _ {K O : Type 0} (settings : Settings K O) where
  -- `_report_dropped_row`
  abbrev pub report_dropped_row : K → String → Option String → Bool → Disk K → Disk K
  report_dropped_row key reason actual is_error d =
      if settings.has_on_drop
      then record d {
        reported =
            d.reported
            ++ record {
              key = key;
              reason = reason;
              expected_serializer_content_type = settings.serializer.content_type;
              actual_serializer_content_type = actual;
              is_serialization_error = is_error;
            }
              ∷ [];
      }
      else d

  abbrev pub refreshed_expiry : ℤ → Row → Option ℤ
  refreshed_expiry now row =
      if settings.refresh_ttl_on_hit then after now settings.ttl else row.expires_at

  -- `_evict_if_needed`
  abbrev pub evict_rows : Option ℕ → List Row → List Row
  evict_rows none rows = rows
  evict_rows (some maxsize) rows =
      if leb (length rows) maxsize
      then rows
      else delete_where
          (key_in
            (map (λ row. row.key) (take (length rows - maxsize) (settings.oldest_first rows))))
          rows

  abbrev pub new_row : ℤ → Bytes → Bytes → Bool → Row
  new_row now k payload is_exception = record {
    key = k;
    payload = payload;
    is_exception = is_exception;
    expires_at = after now settings.ttl;
    last_accessed = now;
    created_at = now;
    serializer_content_type = settings.serializer.content_type;
  }

module _ {K O E : Type 0} (settings : Settings K O) where
  -- the end of `get`, on the payload of a row that is not expired, once it is deserialized
  abbrev pub get_payload :
      ℤ → K → Bytes → Row → Option O → Action (Disk K) (Exn E) (Option (CacheEntry O))
  get_payload now key k row none d =
      if settings.drop_corrupt_rows
      then (
        returned none,
        record_miss (
            report_dropped_row settings key "payload_deserialization_error"
              (some row.serializer_content_type) true (delete_key k d)),
      )
      else (raised (cache_serialization_error "failed to deserialize cache value"), d)
  get_payload now key k row (some payload) d = (
    returned (
        some (record {
          payload = payload;
          expires_at = refreshed_expiry settings now row;
          is_exception = row.is_exception;
        })),
    record_hit (record d {
      cache_entries = touch_row k now (refreshed_expiry settings now row) d.cache_entries;
    }),
  )

  abbrev pub get_row : ℤ → K → Bytes → Option Row → Action (Disk K) (Exn E) (Option (CacheEntry O))
  get_row now key k none d = (returned none, record_miss d)
  get_row now key k (some row) d =
      if has_passed now row.expires_at
      then (returned none, record_miss (delete_key k d))
      else if not (row.serializer_content_type == settings.serializer.content_type)
      then (
        returned none,
        record_miss (
            report_dropped_row settings key "serializer_content_type_mismatch"
              (some row.serializer_content_type) false (delete_key k d)),
      )
      else get_payload now key k row (settings.serializer.loads row.payload) d

  unfoldable pub get : ℤ → K → Action (Disk K) (Exn E) (Option (CacheEntry O))
  get now key =
      with_key (settings.pickle_key key)
        (λ k. when_open (λ d. get_row now key k (find_row k d.cache_entries) d))

  abbrev pub store : ℤ → Bytes → Bool → Option Bytes → Action (Disk K) (Exn E) (Unit {0})
  store now k is_exception none d =
      (raised (cache_serialization_error "failed to serialize cache value"), d)
  store now k is_exception (some payload) d =
      when_open
        (λ d'. (
          returned tt,
          record d' {
            cache_entries =
                evict_rows settings settings.maxsize
                  (replace_row (new_row settings now k payload is_exception) d'.cache_entries);
          },
        ))
        d

  -- `_set_entry`
  unfoldable pub set_entry : ℤ → K → O → Bool → Action (Disk K) (Exn E) (Unit {0})
  set_entry now key payload is_exception =
      with_key (settings.pickle_key key)
        (λ k. store now k is_exception (settings.serializer.dumps payload))

  abbrev pub set_value : ℤ → K → O → Action (Disk K) (Exn E) (Unit {0})
  set_value now key value = set_entry now key value false

  abbrev pub set_exception : ℤ → K → O → Action (Disk K) (Exn E) (Unit {0})
  set_exception now key exception = set_entry now key exception true

  unfoldable pub info : ℤ → Action (Disk K) (Exn E) CacheInfo
  info now = when_open (λ d.
      let d' = prune_expired now d in
      (
        returned (record {
          hits = d'.hits;
          misses = d'.misses;
          maxsize = settings.maxsize;
          currsize = length d'.cache_entries;
        }),
        d',
      ))
