-- ===== src/DiskCache/Maintenance.antt =====
-- `cache_metadata`, `inspect_integrity` and `maintain` of `DiskCacheBackend`.
pub mod Repair
use pydecorators.Prelude.{
  ℕ, ◌+◌, Bool, not, List, [], ◌∷◌, String, length, is_none, ◌==◌, string_eq, if◌then◌else◌,
}
use pydecorators.Prelude.Int.{ℤ}
use pydecorators.Prelude.Bytes.{Bytes, bytes_eq}
use pydecorators.Prelude.Effect.{returned, Action}
use pydecorators.Prelude.Table.{delete_where, count_where}
use pydecorators.Exceptions.{Exn}
use pydecorators.DiskCache.{Row, Settings, Disk, has_key, is_expired_row, when_open}

-- `DiskCacheMetadata`, without the path
pub record DiskMetadata : Type 0 where
  pub schema_version : ℕ
  pub serializer_content_type : String
  pub busy_timeout_ms : ℕ
  pub wal_enabled : Bool

-- `DiskCacheIntegrityReport`
pub record IntegrityReport : Type 0 where
  pub total_entries : ℕ
  pub expired_rows : ℕ
  pub corrupt_rows : ℕ
  pub serializer_mismatch_rows : ℕ

-- `DiskCacheMaintenanceReport`
pub record MaintenanceReport : Type 0 where
  pub expired_rows_dropped : ℕ
  pub corrupt_rows_dropped : ℕ
  pub serializer_mismatch_rows_dropped : ℕ
  pub vacuumed : Bool

-- `for key in corrupt_keys: DELETE ... WHERE key = ?`, with the sum of the row counts
abbrev pub delete_keys : List Bytes → List Row → List Row × ℕ
delete_keys [] rows = (rows, 0)
delete_keys (k ∷ ks) rows =
    let (left, dropped) = delete_keys ks (delete_where (has_key k) rows) in
    (left, count_where (has_key k) rows + dropped)

module _ {K O : Type 0} (settings : Settings K O) where
  -- `serializer_content_type != ?`
  abbrev pub is_mismatch : Row → Bool
  is_mismatch row = not (row.serializer_content_type == settings.serializer.content_type)

  -- `_payload_is_corrupt`
  abbrev pub payload_is_corrupt : Bytes → Bool
  payload_is_corrupt payload = is_none (settings.serializer.loads payload)

  -- one round of the loop of `inspect_integrity`
  abbrev pub tally_row : ℤ → Row → IntegrityReport → IntegrityReport
  tally_row now row report = record {
    total_entries = report.total_entries;
    expired_rows = report.expired_rows + (if is_expired_row now row then 1 else 0);
    serializer_mismatch_rows = report.serializer_mismatch_rows + (if is_mismatch row then 1 else 0);
    corrupt_rows =
        report.corrupt_rows
        + (if is_mismatch row then 0 else if payload_is_corrupt row.payload then 1 else 0);
  }

  abbrev pub tally_rows : ℤ → List Row → IntegrityReport → IntegrityReport
  tally_rows now [] report = report
  tally_rows now (row ∷ rows) report = tally_rows now rows (tally_row now row report)

  abbrev pub corrupt_keys : List Row → List Bytes
  corrupt_keys [] = []
  corrupt_keys (row ∷ rows) =
      let rest = corrupt_keys rows in
      if is_mismatch row
      then rest
      else if payload_is_corrupt row.payload
      then row.key ∷ rest
      else rest

  -- the table once `maintain` has dropped the expired rows, and those of other serializers
  abbrev pub readable_rows : ℤ → List Row → List Row
  readable_rows now rows = delete_where is_mismatch (delete_where (is_expired_row now) rows)

  module _ {E : Type 0} where
    abbrev pub cache_metadata : Action (Disk K) (Exn E) DiskMetadata
    cache_metadata = when_open (λ d. (
      returned (record {
        schema_version = d.user_version;
        serializer_content_type = settings.serializer.content_type;
        busy_timeout_ms = settings.busy_timeout_ms;
        wal_enabled = settings.wal;
      }),
      d,
    ))

    unfoldable pub inspect_integrity : ℤ → Action (Disk K) (Exn E) IntegrityReport
    inspect_integrity now = when_open (λ d. (
      returned (
          tally_rows now d.cache_entries (record {
            total_entries = length d.cache_entries;
            expired_rows = 0;
            corrupt_rows = 0;
            serializer_mismatch_rows = 0;
          })),
      d,
    ))

    -- `VACUUM` does not change what the tables hold
    unfoldable pub maintain : ℤ → Bool → Action (Disk K) (Exn E) MaintenanceReport
    maintain now vacuum = when_open (λ d.
        let live = delete_where (is_expired_row now) d.cache_entries in
        let readable = delete_where is_mismatch live in
        let (left, corrupt_rows_dropped) = delete_keys (corrupt_keys readable) readable in
        (
          returned (record {
            expired_rows_dropped = count_where (is_expired_row now) d.cache_entries;
            corrupt_rows_dropped = corrupt_rows_dropped;
            serializer_mismatch_rows_dropped = count_where is_mismatch live;
            vacuumed = vacuum;
          }),
          record d { cache_entries = left },
        ))
