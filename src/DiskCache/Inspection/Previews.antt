-- ===== src/DiskCache/Inspection/Previews.antt =====
-- What the entries of `inspect_entries` show of the payloads.
use pydecorators.Prelude.{
  ℕ, ◌+◌, ◌<◌, ◌≤◌, ◌≡◌, refl, ◌↔◌, Bool, true, false, Option, none, some, List, [], ◌∷◌, String,
  arith, length, ◌||◌, if◌then◌else◌, is_none, All, sym, subst,
}
use pydecorators.Prelude.Int.{ℤ, pos, ltb_ℤ}
use pydecorators.Prelude.Effect.{Outcome, returned, raised}
use pydecorators.Prelude.Table.{take, count_where}
use pydecorators.Exceptions.{Exn}
use pydecorators.DiskCache.{Row, Disk}
use pydecorators.DiskCache.Inspection.{
  InspectionEntry, InspectionReport, Reading, Redactor, redacted, preview_of, context_of,
  inspect_rows, inspect_entries, max_payload_preview_bytes,
}
use pydecorators.DiskCache.Inspection.Reports.{take_again, length-take_more, guarded}

-- A preview that is shown is one that `Safe` allows.
abbrev pub IsSafe : (String → Type 0) → Option String → Type 0
IsSafe Safe none = Unit
IsSafe Safe (some preview) = Safe preview

-- Every answer of the redactor is safe.
abbrev pub RedactsTo : (String → Type 0) → Redactor → Type 0
RedactsTo Safe redactor = (preview : String) (context : _) → IsSafe Safe (redactor preview context)

abbrev pub is_hidden : InspectionEntry → Bool
is_hidden entry = is_none entry.payload_preview

abbrev pub IsSafeEntry : (String → Type 0) → InspectionEntry → Type 0
IsSafeEntry Safe entry = IsSafe Safe entry.payload_preview

module _ (reading : Reading) (Safe : String → Type 0) where
  redacted-IsSafe : (o : Option String) → IsSafe Safe o → IsSafe Safe (redacted reading o).0
  redacted-IsSafe none h = tt
  redacted-IsSafe (some s) h = h

  inspect_rows-IsSafe :
      (limit : ℕ) (redactor : Redactor) (rows : List Row) (include_payload_preview : Bool)
      → RedactsTo Safe redactor
      → All
          (IsSafeEntry Safe)
          (inspect_rows reading include_payload_preview limit (some redactor) rows).0
  inspect_rows-IsSafe limit redactor [] b h = tt
  inspect_rows-IsSafe limit redactor (row ∷ rows) false h =
      (tt, inspect_rows-IsSafe limit redactor rows false h)
  inspect_rows-IsSafe limit redactor (row ∷ rows) true h = (
    redacted-IsSafe (redactor (preview_of reading row.payload limit) (context_of reading row))
        (h _ _),
    inspect_rows-IsSafe limit redactor rows true h,
  )

module _ (reading : Reading) where
  redacted_counts :
      (o : Option String)
      → (redacted reading o).1 ≡ (if is_none (redacted reading o).0 then 1 else 0)
  redacted_counts none = refl
  redacted_counts (some s) = refl

  -- A redaction fails exactly where an entry that should have a preview has none.
  failures_counted :
      (limit : ℕ) (redactor : Redactor) (rows : List Row)
      → (inspect_rows reading true limit (some redactor) rows).1
        ≡ count_where is_hidden (inspect_rows reading true limit (some redactor) rows).0
  failures_counted limit redactor [] = refl
  failures_counted limit redactor (row ∷ rows) = omega (
    arith,
    failures_counted limit redactor rows,
    redacted_counts (redactor (preview_of reading row.payload limit) (context_of reading row)),
  )

  no_previews :
      (limit : ℕ) (redactor : Option Redactor) (rows : List Row)
      → count_where is_hidden (inspect_rows reading false limit redactor rows).0 ≡ length rows
  no_previews limit redactor [] = refl
  no_previews limit redactor (row ∷ rows) = omega (arith, no_previews limit redactor rows)

  length-inspect_rows :
      (b : Bool) (limit : ℕ) (redactor : Option Redactor) (rows : List Row)
      → length (inspect_rows reading b limit redactor rows).0 ≡ length rows
  length-inspect_rows b limit redactor [] = refl
  length-inspect_rows b limit redactor (row ∷ rows) =
      omega (arith, length-inspect_rows b limit redactor rows)

-- What a redacted report says.
pub record IsRedacted (Safe : String → Type 0) (previews : Bool) (limit : ℕ)
    (rows ordered : List Row) (r : InspectionReport) : Type 0 where
  pub total : r.total_entries ≡ length rows
  pub one_each : length r.entries ≡ length (take limit ordered)
  pub truncation : (r.truncated ≡ true) ↔ (limit < length ordered)
  pub safe : All (IsSafeEntry Safe) r.entries
  pub hidden :
      count_where is_hidden r.entries
      ≡ (if previews then r.preview_redaction_failures else length r.entries)

hidden_counted :
    (reading : Reading) (b : Bool) (limit : ℕ) (redactor : Redactor) (rows : List Row)
    → count_where is_hidden (inspect_rows reading b limit (some redactor) rows).0 ≡ (
        if b
        then (inspect_rows reading b limit (some redactor) rows).1
        else length (inspect_rows reading b limit (some redactor) rows).0)
hidden_counted reading true limit redactor rows = sym (failures_counted reading limit redactor rows)
hidden_counted reading false limit redactor rows = omega (
  arith,
  no_previews reading limit (some redactor) rows,
  length-inspect_rows reading false limit (some redactor) rows,
)

abbrev pub IsRedactedReport :
    {K O : Type 0}
    → (String → Type 0)
    → Bool
    → ℕ
    → List Row
    → Disk K
    → Outcome (Exn O) InspectionReport × Disk K
    → Type 0
IsRedactedReport Safe previews limit ordered before (raised e, after) = ⊥
IsRedactedReport Safe previews limit ordered before (returned r, after) =
    (after.cache_entries ≡ before.cache_entries)
    × IsRedacted Safe previews limit before.cache_entries ordered r

module _ {K : Type 0} (O : Type 0) (reading : Reading) where
  -- On an open backend, with a positive limit and a preview size that the code allows, and a redactor
  -- all of whose answers are safe, `inspect_entries` changes no row; every preview it shows is
  -- safe, also if the redactor raises on some rows; without the flag it shows none, and with it the
  -- redaction failures are exactly the entries without a preview. There is one entry for each row
  -- within the limit, and the report is truncated exactly if more rows are read.
  pub inspect_entries-IsRedacted :
      (Safe : String → Type 0) (redactor : Redactor) (previews : Bool) (limit preview_bytes : ℕ)
      (now : ℤ) (d : Disk K)
      → d.closed ≡ false
      → 0 < limit
      → preview_bytes ≤ max_payload_preview_bytes
      → RedactsTo Safe redactor
      → IsRedactedReport {O = O} Safe previews limit (reading.newest_first d.cache_entries) d (
          inspect_entries reading {E = O}
            (pos limit)
            previews
            (pos preview_bytes)
            (some redactor)
            now
            d)
  unfolding inspect_entries
  inspect_entries-IsRedacted Safe redactor previews limit preview_bytes now d is_open positive fits
        h =
      let Goal =
        IsRedactedReport {O = O} Safe previews limit (reading.newest_first d.cache_entries) d in
      let ordered = reading.newest_first d.cache_entries in
      let shown = take limit (take (limit + 1) ordered) in
      guarded Goal (ltb_ℤ (pos limit) (pos 1)) _ _ (ground (arith, positive)) (
        guarded Goal
          (ltb_ℤ (pos preview_bytes) (pos 0)
            || ltb_ℤ (pos max_payload_preview_bytes) (pos preview_bytes))
          _ _ (ground (arith, fits))
          (guarded Goal d.closed _ _ is_open (
            refl,
            record {
              total = refl;
              one_each =
                  subst
                    (λ rows.
                      length (inspect_rows reading previews preview_bytes (some redactor) shown).0
                      ≡ length rows)
                    (take_again limit ordered)
                    (length-inspect_rows reading previews preview_bytes (some redactor) shown);
              truncation = length-take_more limit ordered;
              safe = inspect_rows-IsSafe reading Safe preview_bytes redactor shown previews h;
              hidden = hidden_counted reading previews preview_bytes redactor shown;
            },
          )))
