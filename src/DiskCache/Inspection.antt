-- ===== src/DiskCache/Inspection.antt =====
-- `inspect_entries` and `inspect_aggregate` of `DiskCacheBackend`, with their reports.
-- The digest, the decoding of UTF-8 and the order that `ORDER BY` gives are parameters; a redactor
-- that raises an `Exception` gives `none`.
pub mod Reports
pub mod Previews
use pydecorators.Prelude.{
  ℕ, ◌+◌, Bool, true, false, Option, none, some, List, [], ◌∷◌, String, length, ltb, if◌then◌else◌,
  append_string, string_eq, ◌||◌,
}
use pydecorators.Prelude.Int.{ℤ, pos, ltb_ℤ, pos_part}
use pydecorators.Prelude.Bytes.{Bytes}
use pydecorators.Prelude.Dict.{Dict, lookup, insert}
use pydecorators.Prelude.Effect.{returned, raised, Action}
use pydecorators.Prelude.Table.{take}
use pydecorators.Exceptions.{Exn, configuration_error}
use pydecorators.DiskCache.{Row, Disk, is_expired_row, when_open}

-- `DiskCachePreviewContext`
pub record PreviewContext : Type 0 where
  pub key_sha256 : String
  pub serializer_content_type : String
  pub is_exception : Bool
  pub payload_size_bytes : ℕ

-- `PreviewRedactor`
abbrev pub Redactor : Type 0
Redactor = String → PreviewContext → Option String

-- `DiskCacheInspectionEntry`
pub record InspectionEntry : Type 0 where
  pub key_sha256 : String
  pub is_exception : Bool
  pub serializer_content_type : String
  pub payload_preview : Option String
  pub payload_size_bytes : ℕ
  pub created_at : ℤ
  pub last_accessed : ℤ
  pub expires_at : Option ℤ

-- `DiskCacheInspectionReport`, without the text of its warning
pub record InspectionReport : Type 0 where
  pub entries : List InspectionEntry
  pub total_entries : ℕ
  pub truncated : Bool
  pub preview_redaction_failures : ℕ
  pub created_at : ℤ
  pub mode : String

-- `DiskCacheAggregateInspectionReport`, without the text of its warning
pub record AggregateReport : Type 0 where
  pub total_entries : ℕ
  pub value_entries : ℕ
  pub exception_entries : ℕ
  pub expired_entries : ℕ
  pub serializer_content_types : Dict String ℕ
  pub total_payload_bytes : ℕ
  pub largest_payload_bytes : Option ℕ
  pub scanned_entries : ℕ
  pub truncated : Bool
  pub created_at : ℤ

-- `hashlib.sha256(...).hexdigest()`, `bytes.decode("utf-8", errors="replace")`, and
-- `ORDER BY last_accessed DESC, created_at DESC`
pub record Reading : Type 0 where
  pub sha256 : Bytes → String
  pub decode : Bytes → String
  pub newest_first : List Row → List Row

abbrev pub max_payload_preview_bytes : ℕ
max_payload_preview_bytes = 4096

module _ (reading : Reading) where
  -- `_payload_preview`
  abbrev pub preview_of : Bytes → ℕ → String
  preview_of payload limit =
      append_string (reading.decode (take limit payload))
        (if ltb limit (length payload) then "…" else "")

  -- The `try` around the redactor: the preview, and how many failures it adds.
  abbrev pub redacted : Option String → Option String × ℕ
  redacted (some preview) = (some preview, 0)
  redacted none = (none, 1)

  abbrev pub context_of : Row → PreviewContext
  context_of row = record {
    key_sha256 = reading.sha256 row.key;
    serializer_content_type = row.serializer_content_type;
    is_exception = row.is_exception;
    payload_size_bytes = length row.payload;
  }

  abbrev pub preview_row : Bool → ℕ → Option Redactor → Row → Option String × ℕ
  preview_row false limit redactor row = (none, 0)
  preview_row true limit none row = (some (preview_of row.payload limit), 0)
  preview_row true limit (some redactor) row =
      redacted (redactor (preview_of row.payload limit) (context_of row))

  -- the loop of `inspect_entries`: the entries, and the redaction failures
  abbrev pub inspect_rows : Bool → ℕ → Option Redactor → List Row → List InspectionEntry × ℕ
  inspect_rows include_payload_preview limit redactor [] = ([], 0)
  inspect_rows include_payload_preview limit redactor (row ∷ rows) =
      let (preview, failures) = preview_row include_payload_preview limit redactor row in
      let (entries, more) = inspect_rows include_payload_preview limit redactor rows in
      (
        record {
          key_sha256 = reading.sha256 row.key;
          is_exception = row.is_exception;
          serializer_content_type = row.serializer_content_type;
          payload_preview = preview;
          payload_size_bytes = length row.payload;
          created_at = row.created_at;
          last_accessed = row.last_accessed;
          expires_at = row.expires_at;
        }
            ∷ entries,
        failures + more,
      )

  module _ {K E : Type 0} where
    unfoldable pub inspect_entries :
        (limit : ℤ) (include_payload_preview : Bool) (payload_preview_bytes : ℤ)
        → Option Redactor
        → ℤ
        → Action (Disk K) (Exn E) InspectionReport
    inspect_entries limit include_payload_preview payload_preview_bytes redactor now d =
        if ltb_ℤ limit (pos 1)
        then (raised (configuration_error "limit must be a positive integer"), d)
        else if ltb_ℤ payload_preview_bytes (pos 0)
            || ltb_ℤ (pos max_payload_preview_bytes) payload_preview_bytes
        then (raised (configuration_error "payload_preview_bytes must be between 0 and 4096"), d)
        else when_open
            (λ d'.
              let rows = take (pos_part limit + 1) (reading.newest_first d'.cache_entries) in
              let (entries, redaction_failures) =
                inspect_rows include_payload_preview (pos_part payload_preview_bytes) redactor
                  (take (pos_part limit) rows) in
              (
                returned (record {
                  entries = entries;
                  total_entries = length d'.cache_entries;
                  truncated = ltb (pos_part limit) (length rows);
                  preview_redaction_failures = redaction_failures;
                  created_at = now;
                  mode = if include_payload_preview then "preview" else "metadata";
                }),
                d',
              ))
            d

-- `d.get(k, 0) + 1`
abbrev pub one_more : Option ℕ → ℕ
one_more none = 1
one_more (some n) = n + 1

abbrev pub larger : Option ℕ → ℕ → ℕ
larger none size = size
larger (some largest) size = if ltb largest size then size else largest

-- one round of the loop of `inspect_aggregate`
abbrev pub add_row : ℤ → Row → AggregateReport → AggregateReport
add_row now row report = record report {
  value_entries = report.value_entries + (if row.is_exception then 0 else 1);
  exception_entries = report.exception_entries + (if row.is_exception then 1 else 0);
  expired_entries = report.expired_entries + (if is_expired_row now row then 1 else 0);
  serializer_content_types =
      insert row.serializer_content_type
        (one_more (lookup row.serializer_content_type report.serializer_content_types))
        report.serializer_content_types;
  total_payload_bytes = report.total_payload_bytes + length row.payload;
  largest_payload_bytes = some (larger report.largest_payload_bytes (length row.payload));
}

abbrev pub add_rows : ℤ → List Row → AggregateReport → AggregateReport
add_rows now [] report = report
add_rows now (row ∷ rows) report = add_rows now rows (add_row now row report)

module _ {K E : Type 0} where
  unfoldable pub inspect_aggregate : (limit : ℤ) → ℤ → Action (Disk K) (Exn E) AggregateReport
  inspect_aggregate limit now d =
      if ltb_ℤ limit (pos 1)
      then (raised (configuration_error "limit must be a positive integer"), d)
      else when_open
          (λ d'.
            let rows = take (pos_part limit + 1) d'.cache_entries in
            let scanned_rows = take (pos_part limit) rows in
            (
              returned (
                  add_rows now scanned_rows (record {
                    total_entries = length d'.cache_entries;
                    value_entries = 0;
                    exception_entries = 0;
                    expired_entries = 0;
                    serializer_content_types = [];
                    total_payload_bytes = 0;
                    largest_payload_bytes = none;
                    scanned_entries = length scanned_rows;
                    truncated = ltb (pos_part limit) (length rows);
                    created_at = now;
                  })),
              d',
            ))
          d
