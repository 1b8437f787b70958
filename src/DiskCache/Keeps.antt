-- ===== src/DiskCache/Keeps.antt =====
-- What the methods of `DiskCacheBackend` keep up that add no row: whatever deleting rows and touching
-- them keeps up. The inspecting methods change nothing.
use pydecorators.Prelude.{
  ◌≡◌, Bool, true, false, Option, none, some, List, [], ◌∷◌, arith, ◌==◌, Bool-cases, Option-cases,
  inl, inr, subst, sym, string_eq, if◌then◌else◌, String,
}
use pydecorators.Prelude.Int.{ℤ}
use pydecorators.Prelude.Effect.{Outcome}
use pydecorators.Prelude.Bytes.{Bytes, bytes_eq}
use pydecorators.Prelude.Table.{delete_where}
use pydecorators.Exceptions.{Exn}
use pydecorators.MemoryCache.{has_passed}
use pydecorators.DiskCache
use pydecorators.DiskCache.{
  Row, Settings, Disk, has_key, find_row, touch_row, replace_row, evict_rows, new_row, get_payload,
  get_row, set_entry, is_expired_row, refreshed_expiry, report_dropped_row, delete_key,
}
use pydecorators.DiskCache.Maintenance
use pydecorators.DiskCache.Maintenance.{delete_keys, corrupt_keys, readable_rows, is_mismatch}
use pydecorators.DiskCache.Inspection
use pydecorators.DiskCache.Inspection.{Reading, Redactor}

module _ {K O : Type 0} (settings : Settings K O) where
  report_keeps :
      (key : K) (reason : String) (actual : Option String) (b : Bool) (d : Disk K)
      → (report_dropped_row settings key reason actual b d).cache_entries ≡ d.cache_entries
  report_keeps key reason actual b d = ground arith

  -- What is kept up by deleting rows and by touching them is kept up by the methods that add none.
  module _ (T : List Row → Type 0)
      (deletes : (p : Row → Bool) (rows : List Row) → T rows → T (delete_where p rows))
      (touches : (k : Bytes) (now : ℤ) (x : Option ℤ) (rows : List Row)
        → T rows
        → T (touch_row k now x rows)) where
    dropped-keeps :
        (key : K) (reason : String) (actual : Option String) (b : Bool) (k : Bytes) (d : Disk K)
        → T d.cache_entries
        → T (report_dropped_row settings key reason actual b (delete_key k d)).cache_entries
    dropped-keeps key reason actual b k d h =
        subst T (sym (report_keeps key reason actual b (delete_key k d)))
          (deletes (has_key k) d.cache_entries h)

    get_payload-keeps :
        (now : ℤ) (key : K) (k : Bytes) (row : Row) (o : Option O) (d : Disk K)
        → T d.cache_entries
        → T (get_payload {E = O} settings now key k row o d).1.cache_entries
    get_payload-keeps now key k row none d h = elim (Bool-cases settings.drop_corrupt_rows) [
      | inl drop ↦ rw drop (dropped-keeps key _ _ true k d h)
      | inr keep ↦ rw keep h
    ]
    get_payload-keeps now key k row (some payload) d h =
        touches k now (refreshed_expiry settings now row) d.cache_entries h

    get_row-keeps :
        (now : ℤ) (key : K) (k : Bytes) (o : Option Row) (d : Disk K)
        → T d.cache_entries
        → T (get_row {E = O} settings now key k o d).1.cache_entries
    get_row-keeps now key k none d h = h
    get_row-keeps now key k (some row) d h = elim (Bool-cases (has_passed now row.expires_at)) [
      | inl old ↦ rw old (deletes (has_key k) d.cache_entries h)
      | inr live ↦
          elim (Bool-cases (row.serializer_content_type == settings.serializer.content_type)) [
            | inl same ↦
                rw (live, same)
                  (get_payload-keeps now key k row (settings.serializer.loads row.payload) d h)
            | inr other ↦ rw (live, other) (dropped-keeps key _ _ false k d h)
          ]
    ]

    guarded-keeps :
        {A : Type 0} (b : Bool) (m : Outcome (Exn O) A × Disk K)
        (refused : Outcome (Exn O) A × Disk K)
        → T refused.1.cache_entries
        → T m.1.cache_entries
        → T (if b then refused else m).1.cache_entries
    guarded-keeps true m refused h h' = h
    guarded-keeps false m refused h h' = h'

    pub get-keeps :
        (now : ℤ) (key : K) (d : Disk K)
        → T d.cache_entries
        → T (DiskCache.get {E = O} settings now key d).1.cache_entries
    unfolding DiskCache.get
    get-keeps now key d h = elim (Option-cases (settings.pickle_key key)) [
      | inl bad ↦ rw bad h
      | inr (k, good) ↦
          rw good (
            guarded-keeps d.closed _ _ h (get_row-keeps now key k (find_row k d.cache_entries) d h))
    ]

    pub set_entry-keeps :
        (now : ℤ) (key : K) (v : O) (b : Bool) (d : Disk K)
        → T d.cache_entries
        → ((k payload : Bytes)
            → settings.pickle_key key ≡ some k
            → settings.serializer.dumps v ≡ some payload
            → T (
                evict_rows settings settings.maxsize
                  (replace_row (new_row settings now k payload b) d.cache_entries)))
        → T (set_entry {E = O} settings now key v b d).1.cache_entries
    unfolding set_entry
    set_entry-keeps now key v b d h stored = elim (Option-cases (settings.pickle_key key)) [
      | inl bad ↦ rw bad h
      | inr (k, good) ↦ elim (Option-cases (settings.serializer.dumps v)) [
        | inl bad ↦ rw (good, bad) h
        | inr (payload, dumped) ↦
            rw (good, dumped) (guarded-keeps d.closed _ _ h (stored k payload good dumped))
      ]
    ]

    pub info-keeps :
        (now : ℤ) (d : Disk K)
        → T d.cache_entries
        → T (DiskCache.info {E = O} settings now d).1.cache_entries
    unfolding DiskCache.info
    info-keeps now d h =
        guarded-keeps d.closed _ _ h (deletes (is_expired_row now) d.cache_entries h)

    pub clear-keeps :
        (d : Disk K) → T d.cache_entries → T [] → T (DiskCache.clear {E = O} d).1.cache_entries
    unfolding DiskCache.clear
    clear-keeps d h empty = guarded-keeps d.closed _ _ h empty

    delete_keys-keeps : (ks : List Bytes) (rows : List Row) → T rows → T (delete_keys ks rows).0
    delete_keys-keeps [] rows h = h
    delete_keys-keeps (k ∷ ks) rows h =
        delete_keys-keeps ks (delete_where (has_key k) rows) (deletes (has_key k) rows h)

    pub maintain-keeps :
        (now : ℤ) (vacuum : Bool) (d : Disk K)
        → T d.cache_entries
        → T (Maintenance.maintain settings {E = O} now vacuum d).1.cache_entries
    unfolding Maintenance.maintain
    maintain-keeps now vacuum d h =
        let live = delete_where (is_expired_row now) d.cache_entries in
        let readable = readable_rows settings now d.cache_entries in
        let kept =
          delete_keys-keeps (corrupt_keys settings readable) readable (
            deletes (is_mismatch settings) live (deletes (is_expired_row now) d.cache_entries h)) in
        elim (Bool-cases d.closed) [ inl closed ↦ rw closed h | inr opened ↦ rw opened kept ]

  pub cache_metadata_keeps : (d : Disk K) → (Maintenance.cache_metadata settings {E = O} d).1 ≡ d
  cache_metadata_keeps d = ground arith

  pub inspect_integrity_keeps :
      (now : ℤ) (d : Disk K) → (Maintenance.inspect_integrity settings {E = O} now d).1 ≡ d
  unfolding Maintenance.inspect_integrity
  inspect_integrity_keeps now d = ground arith

  pub inspect_entries_keeps :
      (reading : Reading) (limit : ℤ) (include_payload_preview : Bool) (payload_preview_bytes : ℤ)
      (redactor : Option Redactor) (now : ℤ) (d : Disk K)
      → (Inspection.inspect_entries reading {E = O} limit include_payload_preview
          payload_preview_bytes redactor now d).1
        ≡ d
  unfolding Inspection.inspect_entries
  inspect_entries_keeps reading limit include_payload_preview payload_preview_bytes redactor now d =
      ground arith

  pub inspect_aggregate_keeps :
      (limit now : ℤ) (d : Disk K) → (Inspection.inspect_aggregate {E = O} limit now d).1 ≡ d
  unfolding Inspection.inspect_aggregate
  inspect_aggregate_keeps limit now d = ground arith
