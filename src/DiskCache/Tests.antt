-- ===== src/DiskCache/Tests.antt =====
-- The theorems at concrete inputs, on keys and payloads that are numbers.
use pydecorators.Prelude.{
  ℕ, ◌≡◌, refl, Bool, true, false, Option, none, some, List, [], ◌∷◌, String, arith, length,
}
use pydecorators.Prelude.Int.{pos, ◌+ℤ◌}
use pydecorators.Prelude.Bytes.{Bytes}
use pydecorators.DiskCache
use pydecorators.DiskCache.{Row, Settings, Disk}
use pydecorators.DiskCache.Runs
use pydecorators.DiskCache.Runs.{
  Op, get, set_value, set_exception, info, maintain, inspect_aggregate, run, IsValidTable,
}
use pydecorators.DiskCache.Maintenance
use pydecorators.DiskCache.Maintenance.Repair
use pydecorators.DiskCache.Inspection
use pydecorators.DiskCache.Inspection.{Reading, Redactor, PreviewContext, inspect_entries}
use pydecorators.DiskCache.Inspection.Reports
use pydecorators.DiskCache.Inspection.Reports.{IsSummarised}
use pydecorators.DiskCache.Inspection.Previews
use pydecorators.DiskCache.Inspection.Previews.{IsRedactedReport}

abbrev load_number : Bytes → Option ℕ
load_number (v ∷ []) = some v
load_number _ = none

-- two entries at most, ten seconds each; corrupt rows are dropped
abbrev settings : Settings ℕ ℕ
settings = record {
  ttl = some (pos 10);
  maxsize = some 2;
  refresh_ttl_on_hit = false;
  pickle_key = λ k. some (k ∷ []);
  serializer = record {
    content_type = "application/number";
    dumps = λ v. some (v ∷ []);
    loads = load_number;
  };
  has_on_drop = true;
  busy_timeout_ms = 5_000;
  wal = false;
  drop_corrupt_rows = true;
  oldest_first = λ rows. rows;
}

abbrev new_file : Disk ℕ
new_file = record {
  cache_entries = [];
  hits = 0;
  misses = 0;
  user_version = 1;
  reported = [];
  closed = false;
}

abbrev row : ℕ → Bytes → Bool → ℕ → String → Row
row key payload is_exception expires_at content_type = record {
  key = key ∷ [];
  payload = payload;
  is_exception = is_exception;
  expires_at = some (pos expires_at);
  last_accessed = pos 0;
  created_at = pos 0;
  serializer_content_type = content_type;
}

-- A value, an exception that is expired, a row of another serializer, and a corrupt one.
abbrev mixed_file : Disk ℕ
mixed_file = record new_file {
  cache_entries =
      row 1 (10 ∷ []) false 20 "application/number"
      ∷ row 2 (20 ∷ []) true 5 "application/number"
      ∷ row 3 (30 ∷ []) false 20 "application/pickle"
      ∷ row 4 [] false 20 "application/number"
      ∷ [];
}

abbrev calls : List (Op ℕ ℕ)
calls =
    set_value (pos 0) 1 10
    ∷ set_exception (pos 1) 2 20
    ∷ get (pos 2) 1
    ∷ set_value (pos 3) 3 30
    ∷ get (pos 12) 2
    ∷ info (pos 12)
    ∷ maintain (pos 12) true
    ∷ inspect_aggregate (pos 5) (pos 12)
    ∷ []

-- The third key takes the place of the first, and the second has expired.
evicted_row : length (run settings calls new_file).cache_entries ≡ 1
unfolding run DiskCache.Runs.apply DiskCache.get DiskCache.set_entry DiskCache.info
    DiskCache.touch_row ◌+ℤ◌ Maintenance.maintain Inspection.inspect_aggregate
evicted_row = refl

run-IsValidTable_example : IsValidTable settings (run settings calls new_file).cache_entries
run-IsValidTable_example =
    Runs.run-IsValidTable settings (λ rows. (refl, λ h. h, λ P h. h)) calls new_file
      (tt, (omega arith, omega arith))

-- One row of each kind is dropped, and one is left.
one_row_left :
    length (Maintenance.maintain settings {E = ℕ} (pos 6) true mixed_file).1.cache_entries ≡ 1
unfolding Maintenance.maintain
one_row_left = refl

inspect_aggregate-IsSummarised_example :
    IsSummarised {O = ℕ}
      (pos 6)
      3
      mixed_file
      (Inspection.inspect_aggregate {E = ℕ} (pos 3) (pos 6) mixed_file)
inspect_aggregate-IsSummarised_example =
    Reports.inspect_aggregate-IsSummarised ℕ (pos 6) 3 mixed_file refl (omega arith)

abbrev reading : Reading
reading = record { sha256 = λ _. "digest"; decode = λ _. "text"; newest_first = λ rows. rows }

-- Redaction fails for exceptions.
abbrev redactor : Redactor
redactor preview context = elim context.is_exception [ true ↦ none | false ↦ some "redacted" ]

abbrev IsBlank : String → Type 0
IsBlank s = s ≡ "redacted"

redactor-IsBlank :
    (preview : String) (is_exception : Bool) (context : PreviewContext)
    → Previews.IsSafe IsBlank (redactor preview (record context { is_exception = is_exception }))
redactor-IsBlank preview true context = tt
redactor-IsBlank preview false context = refl

inspect_entries-IsRedacted_example :
    IsRedactedReport {O = ℕ} IsBlank true 3 mixed_file.cache_entries mixed_file
      (inspect_entries reading {E = ℕ} (pos 3) true (pos 512) (some redactor) (pos 6) mixed_file)
inspect_entries-IsRedacted_example =
    Previews.inspect_entries-IsRedacted ℕ reading IsBlank redactor true 3 512 (pos 6) mixed_file
      refl (omega arith) (omega arith)
      (λ preview context. redactor-IsBlank preview context.is_exception context)
