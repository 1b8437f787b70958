-- ===== src/DiskCache/Runs.antt =====
-- Runs of calls of the methods of `DiskCacheBackend`, and the tables they leave.
use pydecorators.Prelude.{
  ℕ, ◌≡◌, Bool, true, false, not, Option, none, some, List, [], ◌∷◌, arith, length, subst, sym,
  string_eq, ◌≤◌,
}
use pydecorators.Prelude.Int.{ℤ}
use pydecorators.Prelude.Bytes.{Bytes, bytes_eq}
use pydecorators.Prelude.Table.{delete_where, length-delete_where}
use pydecorators.DiskCache
use pydecorators.DiskCache.{Row, Settings, Disk, touch_row, replace_row, new_row, set_entry}
use pydecorators.DiskCache.Maintenance
use pydecorators.DiskCache.Inspection
use pydecorators.DiskCache.Inspection.{Reading, Redactor}
use pydecorators.DiskCache.Invariant.{
  IsDistinctRows, IsOrdering, FitsRows, select_where-IsDistinctRows, replace_row-IsDistinctRows,
  touch_row-IsDistinctRows, length-touch_row, evict_rows-FitsRows, evict_rows-IsDistinctRows,
}
use pydecorators.DiskCache.Keeps.{
  get-keeps, set_entry-keeps, info-keeps, clear-keeps, maintain-keeps, cache_metadata_keeps,
  inspect_integrity_keeps, inspect_entries_keeps, inspect_aggregate_keeps,
}

-- A call, with its clock reading.
pub data Op (K O : Type 0) : Type 0 where
  get : ℤ → K → Op K O
  set_value set_exception : ℤ → K → O → Op K O
  clear close cache_metadata : Op K O
  info : ℤ → Op K O
  inspect_integrity : ℤ → Op K O
  inspect_entries :
      Reading
      → (limit : ℤ) (include_payload_preview : Bool) (payload_preview_bytes : ℤ) → Option Redactor
      → ℤ
      → Op K O
  inspect_aggregate : (limit : ℤ) → ℤ → Op K O
  maintain : ℤ → (vacuum : Bool) → Op K O

module _ {K O : Type 0} (settings : Settings K O) where
  unfoldable pub apply : Op K O → Disk K → Disk K
  apply (get now key) d = (DiskCache.get {E = O} settings now key d).1
  apply (set_value now key v) d = (DiskCache.set_value {E = O} settings now key v d).1
  apply (set_exception now key x) d = (DiskCache.set_exception {E = O} settings now key x d).1
  apply clear d = (DiskCache.clear {E = O} d).1
  apply close d = DiskCache.close d
  apply (info now) d = (DiskCache.info {E = O} settings now d).1
  apply cache_metadata d = (Maintenance.cache_metadata settings {E = O} d).1
  apply (inspect_integrity now) d = (Maintenance.inspect_integrity settings {E = O} now d).1
  apply (inspect_entries reading limit include_payload_preview payload_preview_bytes redactor now)
        d =
      (Inspection.inspect_entries reading {E = O} limit include_payload_preview
        payload_preview_bytes redactor now d).1
  apply (inspect_aggregate limit now) d = (Inspection.inspect_aggregate {E = O} limit now d).1
  apply (maintain now vacuum) d = (Maintenance.maintain settings {E = O} now vacuum d).1

  unfoldable pub run : List (Op K O) → Disk K → Disk K
  run [] d = d
  run (op ∷ ops) d = run ops (apply op d)

  abbrev pub IsValidTable : List Row → Type 0
  IsValidTable rows = IsDistinctRows rows × FitsRows settings.maxsize rows

  fewer-FitsRows :
      (limit : Option ℕ) (rows old : List Row)
      → length rows ≤ length old
      → FitsRows limit old
      → FitsRows limit rows
  fewer-FitsRows none rows old h f = tt
  fewer-FitsRows (some m) rows old h f = (f.0, omega (arith, h, f.1))

  select_where-IsValidTable :
      (p : Row → Bool) (rows : List Row) → IsValidTable rows → IsValidTable (delete_where p rows)
  select_where-IsValidTable p rows h = (
    select_where-IsDistinctRows (λ r. not (p r)) rows h.0,
    fewer-FitsRows settings.maxsize _ rows (omega (arith, length-delete_where p rows)) h.1,
  )

  touch_row-IsValidTable :
      (k : Bytes) (now : ℤ) (x : Option ℤ) (rows : List Row)
      → IsValidTable rows
      → IsValidTable (touch_row k now x rows)
  touch_row-IsValidTable k now x rows h = (
    touch_row-IsDistinctRows k now x rows h.0,
    fewer-FitsRows settings.maxsize _ rows (omega (arith, length-touch_row k now x rows)) h.1,
  )

  module _ (ordering : IsOrdering settings.oldest_first) where
    set_entry-IsValidTable :
        (now : ℤ) (key : K) (v : O) (b : Bool) (d : Disk K)
        → IsValidTable d.cache_entries
        → IsValidTable (set_entry {E = O} settings now key v b d).1.cache_entries
    set_entry-IsValidTable now key v b d h =
        set_entry-keeps settings IsValidTable select_where-IsValidTable touch_row-IsValidTable now
          key v b d h
          (λ k payload _ _.
            let row = new_row settings now k payload b in
            let distinct = replace_row-IsDistinctRows row d.cache_entries h.0 in
            (
              evict_rows-IsDistinctRows settings ordering settings.maxsize
                  (replace_row row d.cache_entries) distinct,
              evict_rows-FitsRows settings ordering settings.maxsize
                  (replace_row row d.cache_entries) d.cache_entries distinct h.1,
            ))

    empty-FitsRows : (limit : Option ℕ) (old : List Row) → FitsRows limit old → FitsRows limit []
    empty-FitsRows none old f = tt
    empty-FitsRows (some m) old f = (f.0, omega arith)

    kept_table :
        {d d' : Disk K} → IsValidTable d.cache_entries → d' ≡ d → IsValidTable d'.cache_entries
    kept_table h same = subst (λ d. IsValidTable d.cache_entries) (sym same) h

    apply-IsValidTable :
        (op : Op K O) (d : Disk K)
        → IsValidTable d.cache_entries
        → IsValidTable (apply op d).cache_entries
    unfolding apply
    apply-IsValidTable (get now key) d h =
        get-keeps settings IsValidTable select_where-IsValidTable touch_row-IsValidTable now key d h
    apply-IsValidTable (set_value now key v) d h = set_entry-IsValidTable now key v false d h
    apply-IsValidTable (set_exception now key x) d h = set_entry-IsValidTable now key x true d h
    apply-IsValidTable clear d h =
        clear-keeps settings IsValidTable select_where-IsValidTable touch_row-IsValidTable d h
          (tt, empty-FitsRows settings.maxsize d.cache_entries h.1)
    apply-IsValidTable close d h = h
    apply-IsValidTable (info now) d h =
        info-keeps settings IsValidTable select_where-IsValidTable touch_row-IsValidTable now d h
    apply-IsValidTable cache_metadata d h = kept_table h (cache_metadata_keeps settings d)
    apply-IsValidTable (inspect_integrity now) d h =
        kept_table h (inspect_integrity_keeps settings now d)
    apply-IsValidTable
          (inspect_entries reading limit include_payload_preview payload_preview_bytes redactor now)
          d h =
        kept_table h (
          inspect_entries_keeps settings reading limit include_payload_preview payload_preview_bytes
            redactor now d)
    apply-IsValidTable (inspect_aggregate limit now) d h =
        kept_table h (inspect_aggregate_keeps settings limit now d)
    apply-IsValidTable (maintain now vacuum) d h =
        maintain-keeps settings IsValidTable select_where-IsValidTable touch_row-IsValidTable now
          vacuum d h

    -- From tables that hold no key twice and no more rows than a positive maxsize allows, whatever
    -- methods are called on a backend, maintenance and inspection and errors included, leads to such
    -- tables, if ordering rows gives the same rows.
    pub run-IsValidTable :
        (ops : List (Op K O)) (d : Disk K)
        → IsValidTable d.cache_entries
        → IsValidTable (run ops d).cache_entries
    unfolding run
    run-IsValidTable [] d h = h
    run-IsValidTable (op ∷ ops) d h = run-IsValidTable ops (apply op d) (apply-IsValidTable op d h)
