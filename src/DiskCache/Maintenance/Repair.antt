-- ===== src/DiskCache/Maintenance/Repair.antt =====
-- What `maintain` drops, as the report of `inspect_integrity` sees it.
use pydecorators.Prelude.{◌+◌, ◌≡◌, Bool, false, List, length, string_eq, if◌then◌else◌}
use pydecorators.Prelude.Int.{ℤ}
use pydecorators.Prelude.Bytes.{Bytes, bytes_eq}
use pydecorators.Prelude.Effect.{Outcome, returned, raised}
use pydecorators.Prelude.Table.{count_where}
use pydecorators.Exceptions.{Exn}
use pydecorators.DiskCache.{Row, Settings, Disk, key_in, is_expired_row}
use pydecorators.DiskCache.Maintenance.{
  IntegrityReport, MaintenanceReport, delete_keys, is_mismatch, payload_is_corrupt, corrupt_keys,
  inspect_integrity, readable_rows,
}

-- How many rows of a kind have a key that is kept.
abbrev outside : (Row → Bool) → List Bytes → Row → Bool
outside p ks r = if key_in ks r then false else p r

module _ {K O : Type 0} (settings : Settings K O) where
  abbrev is_corrupt_row : Row → Bool
  is_corrupt_row row =
      if is_mismatch settings row then false else payload_is_corrupt settings row.payload

  -- The loop adds up what the rows are.
  abbrev IsTally : ℤ → List Row → IntegrityReport → IntegrityReport → Type 0
  IsTally now rows before after =
      (after.expired_rows ≡ before.expired_rows + count_where (is_expired_row now) rows)
      × (after.serializer_mismatch_rows
          ≡ before.serializer_mismatch_rows + count_where (is_mismatch settings) rows)
      × (after.corrupt_rows ≡ before.corrupt_rows + count_where is_corrupt_row rows)
      × (after.total_entries ≡ before.total_entries)

  -- The rows that `maintain` leaves.
  abbrev kept_rows : ℤ → List Row → List Row
  kept_rows now rows =
      (delete_keys (corrupt_keys settings (readable_rows settings now rows))
        (readable_rows settings now rows)).0

  -- The report on a table in which nothing is to be dropped.
  abbrev clean_report : List Row → IntegrityReport
  clean_report rows = record {
    total_entries = length rows;
    expired_rows = 0;
    corrupt_rows = 0;
    serializer_mismatch_rows = 0;
  }

module _ {K O : Type 0} (settings : Settings K O) where
  -- What a run of `maintain` at `now` on `before` is to give.
  abbrev pub IsRepaired : ℤ → Disk K → Outcome (Exn O) MaintenanceReport × Disk K → Type 0
  IsRepaired now before (raised e, after) = ⊥
  IsRepaired now before (returned report, after) =
      (report.expired_rows_dropped
          + report.serializer_mismatch_rows_dropped
          + report.corrupt_rows_dropped
          + length after.cache_entries
        ≡ length before.cache_entries)
      × (inspect_integrity settings {E = O} now after
          ≡ (returned (clean_report settings after.cache_entries), after))
