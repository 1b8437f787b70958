-- ===== src/DiskCache/Inspection/Reports.antt =====
-- What the reports of `inspect_entries` and `inspect_aggregate` say of the rows.
use pydecorators.Prelude.{
  ℕ, zero, suc, ◌+◌, ◌≤◌, ◌<◌, ◌≡◌, refl, ◌↔◌, inl, inr, Bool, true, false, not, Option, none, some,
  List, [], ◌∷◌, String, arith, length, ltb, if◌then◌else◌, string_eq, ◌==◌, ==_iff, All,
  Bool-cases, sym, ap, ◌∙◌, subst,
}
use native.Mathlib.Numerals.{unary_clauses}
use pydecorators.Prelude.Int.{ℤ, pos, ltb_ℤ}
use pydecorators.Prelude.Dict.{Dict, lookup, insert, lookup-insert}
use pydecorators.Prelude.Effect.{Outcome, returned, raised}
use pydecorators.Prelude.Table.{take, count_where}
use pydecorators.Exceptions.{Exn}
use pydecorators.DiskCache.{Row, Disk, is_expired_row}
use pydecorators.DiskCache.Inspection.{
  AggregateReport, one_more, larger, add_row, add_rows, inspect_aggregate,
}

abbrev pub count_of : Option ℕ → ℕ
count_of none = 0
count_of (some n) = n

abbrev pub is_value : Row → Bool
is_value row = not row.is_exception

abbrev pub payload_bytes : List Row → ℕ
payload_bytes [] = 0
payload_bytes (row ∷ rows) = length row.payload + payload_bytes rows

abbrev pub has_type : String → Row → Bool
has_type t row = t == row.serializer_content_type

-- The sizes of all rows are at most the largest.
abbrev pub IsLargest : Option ℕ → List Row → Type 0
IsLargest largest rows = All (λ row. length row.payload ≤ count_of largest) rows

count_of-one_more : (o : Option ℕ) → one_more o ≡ count_of o + 1
count_of-one_more none = refl
count_of-one_more (some n) = refl

counted :
    (t k : String) (d : Dict String ℕ)
    → count_of (lookup t (insert k (one_more (lookup k d)) d))
      ≡ count_of (lookup t d) + (if t == k then 1 else 0)
counted t k d = elim (Bool-cases (t == k)) [
  | inl same ↦
      rw (lookup-insert k t (one_more (lookup k d)) d, same)
        (count_of-one_more (lookup k d)
          ∙ ap (λ s. count_of (lookup s d) + 1) (sym ((==_iff t k).0 same)))
  | inr other ↦ rw (lookup-insert k t (one_more (lookup k d)) d, other) (omega arith)
]

larger_than_both : (o : Option ℕ) (n : ℕ) → (count_of o ≤ larger o n) × (n ≤ larger o n)
larger_than_both none n = (omega arith, omega arith)
larger_than_both (some m) n = ground arith

add_rows_values :
    (now : ℤ) (rows : List Row) (r : AggregateReport)
    → (add_rows now rows r).value_entries ≡ r.value_entries + count_where is_value rows
add_rows_values now [] r = omega arith
add_rows_values now (row ∷ rows) r = ground (arith, add_rows_values now rows (add_row now row r))

add_rows_exceptions :
    (now : ℤ) (rows : List Row) (r : AggregateReport)
    → (add_rows now rows r).exception_entries
      ≡ r.exception_entries + count_where (λ row. row.is_exception) rows
add_rows_exceptions now [] r = omega arith
add_rows_exceptions now (row ∷ rows) r =
    ground (arith, add_rows_exceptions now rows (add_row now row r))

add_rows_expired :
    (now : ℤ) (rows : List Row) (r : AggregateReport)
    → (add_rows now rows r).expired_entries
      ≡ r.expired_entries + count_where (is_expired_row now) rows
add_rows_expired now [] r = omega arith
add_rows_expired now (row ∷ rows) r = ground (arith, add_rows_expired now rows (add_row now row r))

add_rows_bytes :
    (now : ℤ) (rows : List Row) (r : AggregateReport)
    → (add_rows now rows r).total_payload_bytes ≡ r.total_payload_bytes + payload_bytes rows
add_rows_bytes now [] r = omega arith
add_rows_bytes now (row ∷ rows) r = ground (arith, add_rows_bytes now rows (add_row now row r))

add_rows_types :
    (now : ℤ) (t : String) (rows : List Row) (r : AggregateReport)
    → count_of (lookup t (add_rows now rows r).serializer_content_types)
      ≡ count_of (lookup t r.serializer_content_types) + count_where (has_type t) rows
add_rows_types now t [] r = omega arith
add_rows_types now t (row ∷ rows) r = omega (
  arith,
  add_rows_types now t rows (add_row now row r),
  counted t row.serializer_content_type r.serializer_content_types,
)

-- What is not a count stays.
add_rows_frame :
    (now : ℤ) (rows : List Row) (r : AggregateReport)
    → ((add_rows now rows r).scanned_entries ≡ r.scanned_entries)
      × ((add_rows now rows r).total_entries ≡ r.total_entries)
      × ((add_rows now rows r).truncated ≡ r.truncated)
add_rows_frame now [] r = (refl, refl, refl)
add_rows_frame now (row ∷ rows) r = add_rows_frame now rows (add_row now row r)

add_rows_grow :
    (now : ℤ) (rows : List Row) (r : AggregateReport)
    → count_of r.largest_payload_bytes ≤ count_of (add_rows now rows r).largest_payload_bytes
add_rows_grow now [] r = omega arith
add_rows_grow now (row ∷ rows) r = omega (
  arith,
  add_rows_grow now rows (add_row now row r),
  larger_than_both r.largest_payload_bytes (length row.payload),
)

add_rows-IsLargest :
    (now : ℤ) (rows : List Row) (r : AggregateReport)
    → IsLargest (add_rows now rows r).largest_payload_bytes rows
add_rows-IsLargest now [] r = tt
add_rows-IsLargest now (row ∷ rows) r = (
  omega (
    arith,
    add_rows_grow now rows (add_row now row r),
    larger_than_both r.largest_payload_bytes (length row.payload),
  ),
  add_rows-IsLargest now rows (add_row now row r),
)

all_are_counted :
    (rows : List Row)
    → count_where is_value rows + count_where (λ row. row.is_exception) rows ≡ length rows
all_are_counted [] = refl
all_are_counted (row ∷ rows) = ground (arith, all_are_counted rows)

pub take_again : (n : ℕ) (rows : List Row) → take n (take (n + 1) rows) ≡ take n rows
take_again zero rows = refl
take_again (suc n) [] = simp unary_clauses refl
take_again (suc n) (row ∷ rows) =
    simp unary_clauses (ap (λ rs. row ∷ rs) (simp unary_clauses at (take_again n rows)))

pub length-take_more :
    (n : ℕ) (rows : List Row) → (ltb n (length (take (n + 1) rows)) ≡ true) ↔ (n < length rows)
length-take_more n [] = ground arith
length-take_more zero (row ∷ rows) = ground arith
length-take_more (suc n) (row ∷ rows) = ground (arith, length-take_more n rows)

-- The report is right about the rows that were scanned, and about how many there are.
pub record IsSummary (now : ℤ) (limit : ℕ) (rows scanned : List Row) (r : AggregateReport)
    : Type 0 where
  pub total : r.total_entries ≡ length rows
  pub all_scanned : r.scanned_entries ≡ length scanned
  pub truncation : (r.truncated ≡ true) ↔ (limit < length rows)
  pub values : r.value_entries ≡ count_where is_value scanned
  pub all_counted : r.value_entries + r.exception_entries ≡ r.scanned_entries
  pub expired : r.expired_entries ≡ count_where (is_expired_row now) scanned
  pub types :
      (t : String)
      → count_of (lookup t r.serializer_content_types) ≡ count_where (has_type t) scanned
  pub bytes : r.total_payload_bytes ≡ payload_bytes scanned
  pub largest : IsLargest r.largest_payload_bytes scanned

-- The report before the loop.
abbrev start_report : ℤ → ℕ → List Row → List Row → AggregateReport
start_report now limit rows scanned = record {
  total_entries = length rows;
  value_entries = 0;
  exception_entries = 0;
  expired_entries = 0;
  serializer_content_types = [];
  total_payload_bytes = 0;
  largest_payload_bytes = none;
  scanned_entries = length scanned;
  truncated = ltb limit (length (take (limit + 1) rows));
  created_at = now;
}

no_types : (t : String) → count_of (lookup t []) ≡ 0
unfolding lookup
no_types t = refl

add_rows-IsSummary :
    (now : ℤ) (limit : ℕ) (rows scanned : List Row)
    → IsSummary now limit rows scanned (add_rows now scanned (start_report now limit rows scanned))
add_rows-IsSummary now limit rows scanned =
    let start = start_report now limit rows scanned in
    let frame = add_rows_frame now scanned start in
    record {
      total = frame.1;
      all_scanned = frame.0;
      truncation =
          subst (λ b. (b ≡ true) ↔ (limit < length rows)) (sym frame.2)
            (length-take_more limit rows);
      values = omega (arith, add_rows_values now scanned start);
      all_counted = omega (
        arith,
        add_rows_values now scanned start,
        add_rows_exceptions now scanned start,
        all_are_counted scanned,
        frame,
      );
      expired = omega (arith, add_rows_expired now scanned start);
      types = λ t. omega (arith, add_rows_types now t scanned start, no_types t);
      bytes = omega (arith, add_rows_bytes now scanned start);
      largest = add_rows-IsLargest now scanned start;
    }

-- What `inspect_aggregate` is to give on an open backend.
abbrev pub IsSummarised :
    {K O : Type 0} → ℤ → ℕ → Disk K → Outcome (Exn O) AggregateReport × Disk K → Type 0
IsSummarised now limit before (raised e, after) = ⊥
IsSummarised now limit before (returned r, after) =
    (after.cache_entries ≡ before.cache_entries)
    × IsSummary now limit before.cache_entries (take limit before.cache_entries) r

pub guarded :
    {A : Type 0} (P : A → Type 0) (b : Bool) (x y : A) → b ≡ false → P y → P (if b then x else y)
guarded P b x y h p = rw h p

module _ {K : Type 0} (O : Type 0) where
  -- On an open backend and with a positive limit, `inspect_aggregate` changes no row, and its report
  -- is right about the rows within the limit: the counts of values, exceptions, expired rows and rows
  -- of each content type, the size of the payloads, and a bound on each of them. Values and exceptions
  -- make up the rows scanned, and the report is truncated exactly if there are more rows than the limit.
  pub inspect_aggregate-IsSummarised :
      (now : ℤ) (limit : ℕ) (d : Disk K)
      → d.closed ≡ false
      → 0 < limit
      → IsSummarised {O = O} now limit d (inspect_aggregate {E = O} (pos limit) now d)
  unfolding inspect_aggregate
  inspect_aggregate-IsSummarised now limit d is_open positive =
      guarded (IsSummarised {O = O} now limit d) (ltb_ℤ (pos limit) (pos 1)) _ _
        (ground (arith, positive))
        (guarded (IsSummarised {O = O} now limit d) d.closed _ _ is_open (
          refl,
          subst
              (λ scanned. IsSummary now limit d.cache_entries scanned (
                add_rows now (take limit (take (limit + 1) d.cache_entries)) (
                  start_report now limit d.cache_entries
                    (take limit (take (limit + 1) d.cache_entries)))))
              (take_again limit d.cache_entries)
              (add_rows-IsSummary now limit d.cache_entries
                (take limit (take (limit + 1) d.cache_entries))),
        ))
