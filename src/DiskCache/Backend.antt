-- ===== src/DiskCache/Backend.antt =====
-- `DiskCacheBackend` as a `CacheBackend`, over serializers that give back what they were given.
use pydecorators.Prelude.{
  ℕ, ◌≡◌, refl, Bool, true, false, not, Option, none, some, List, [], ◌∷◌, leb, length, All,
  All-append, ◌==◌, ==_iff, ◌∙◌, Bool-cases, Option-cases, inl, inr, subst, sym, ap, string_eq,
  if◌then◌else◌,
}
use pydecorators.Prelude.Int.{ℤ}
use pydecorators.Prelude.Effect.{Outcome, raised}
use pydecorators.Prelude.Bytes.{Bytes, bytes_eq}
use pydecorators.Prelude.Table.{delete_where, select_where-All}
use pydecorators.Exceptions.{Exn}
use pydecorators.MemoryCache.{CacheEntry, has_passed}
use pydecorators.CacheBackend.{CacheBackend, Policy, IsAnswer, IsLawful}
use pydecorators.DiskCache
use pydecorators.DiskCache.{
  Row, Settings, Disk, has_key, find_row, touch_row, replace_row, evict_rows, new_row, get_payload,
  get_row,
}
use pydecorators.DiskCache.Keeps.{get-keeps, set_entry-keeps, info-keeps, clear-keeps}

module _ {K O : Type 0} (settings : Settings K O) where
  abbrev pub disk_backend : CacheBackend (Disk K) K O
  disk_backend = record {
    get = DiskCache.get settings;
    set_value = DiskCache.set_value settings;
    set_exception = DiskCache.set_exception settings;
    clear = DiskCache.clear;
    info = DiskCache.info settings;
  }

  -- Two keys with the same pickle are one.
  abbrev pub PicklesApart : Type 0
  PicklesApart =
      (key key' : K) (k : Bytes)
      → settings.pickle_key key ≡ some k
      → settings.pickle_key key' ≡ some k
      → key ≡ key'

  -- What is dumped is loaded again.
  abbrev pub LoadsDumped : Type 0
  LoadsDumped =
      (v : O) (payload : Bytes)
      → settings.serializer.dumps v ≡ some payload
      → settings.serializer.loads payload ≡ some v

  module _ (P : Policy K O) where
    -- Whatever a lookup of the row can answer is allowed.
    abbrev IsAllowed : Row → Type 0
    IsAllowed row =
        (key : K) (v : O)
        → settings.pickle_key key ≡ some row.key
        → row.serializer_content_type ≡ settings.serializer.content_type
        → settings.serializer.loads row.payload ≡ some v
        → P key row.is_exception v

    touch_row-All :
        (k : Bytes) (now : ℤ) (x : Option ℤ) (rows : List Row)
        → All IsAllowed rows
        → All IsAllowed (touch_row k now x rows)
    unfolding touch_row
    touch_row-All k now x [] h = tt
    touch_row-All k now x (r ∷ rows) h = elim (Bool-cases (has_key k r)) [
      | inl here ↦ rw here (h.0, touch_row-All k now x rows h.1)
      | inr there ↦ rw there (h.0, touch_row-All k now x rows h.1)
    ]

    delete_where-All :
        (p : Row → Bool) (rows : List Row)
        → All IsAllowed rows
        → All IsAllowed (delete_where p rows)
    delete_where-All p rows h = select_where-All IsAllowed (λ r. not (p r)) rows h

    evict_rows-All :
        (limit : Option ℕ) (rows : List Row)
        → All IsAllowed rows
        → All IsAllowed (evict_rows settings limit rows)
    evict_rows-All none rows h = h
    evict_rows-All (some m) rows h = elim (Bool-cases (leb (length rows) m)) [
      | inl fits ↦ rw fits h
      | inr over ↦ rw over (delete_where-All _ rows h)
    ]

    -- What `find_row` finds.
    abbrev IsFound : Bytes → Option Row → Type 0
    IsFound k none = Unit
    IsFound k (some row) = IsAllowed row × (k ≡ row.key)

    find_row-IsFound :
        (k : Bytes) (rows : List Row) → All IsAllowed rows → IsFound k (find_row k rows)
    find_row-IsFound k [] h = tt
    find_row-IsFound k (r ∷ rows) h = elim (Bool-cases (has_key k r)) [
      | inl here ↦ rw here (h.0, (==_iff k r.key).0 here)
      | inr there ↦ rw there (find_row-IsFound k rows h.1)
    ]

    module _ (now : ℤ) (key : K) (k : Bytes) (pickled : settings.pickle_key key ≡ some k) where
      get_payload-IsAnswer :
          (row : Row) (o : Option O) (d : Disk K)
          → IsAllowed row
          → k ≡ row.key
          → row.serializer_content_type ≡ settings.serializer.content_type
          → settings.serializer.loads row.payload ≡ o
          → IsAnswer P key (get_payload settings now key k row o d).0
      get_payload-IsAnswer row none d h same matches loaded =
          elim (Bool-cases settings.drop_corrupt_rows) [
            | inl drop ↦ rw drop tt
            | inr keep ↦ rw keep tt
          ]
      get_payload-IsAnswer row (some v) d h same matches loaded =
          h key v (pickled ∙ ap some same) matches loaded

      get_row-IsAnswer :
          (o : Option Row) (d : Disk K)
          → IsFound k o
          → IsAnswer P key (get_row settings now key k o d).0
      get_row-IsAnswer none d h = tt
      get_row-IsAnswer (some row) d h = elim (Bool-cases (has_passed now row.expires_at)) [
        | inl old ↦ rw old tt
        | inr live ↦
            elim (Bool-cases (row.serializer_content_type == settings.serializer.content_type)) [
              | inl same ↦
                  rw (live, same)
                    (get_payload-IsAnswer row (settings.serializer.loads row.payload) d h.0 h.1
                      ((==_iff row.serializer_content_type settings.serializer.content_type).0 same)
                      refl)
              | inr other ↦ rw (live, other) tt
            ]
      ]

    guarded-IsAnswer :
        (b : Bool) (key : K) (e : Exn O) (d : Disk K)
        (m : Outcome (Exn O) (Option (CacheEntry O)) × Disk K)
        → IsAnswer P key m.0
        → IsAnswer P key (if b then (raised e, d) else m).0
    guarded-IsAnswer true key e d m h = tt
    guarded-IsAnswer false key e d m h = h

    get-IsAnswer :
        (now : ℤ) (key : K) (d : Disk K)
        → All IsAllowed d.cache_entries
        → IsAnswer P key (DiskCache.get settings now key d).0
    unfolding DiskCache.get
    get-IsAnswer now key d h = elim (Option-cases (settings.pickle_key key)) [
      | inl bad ↦ rw bad tt
      | inr (k, pickled) ↦ rw pickled (
          guarded-IsAnswer d.closed key _ d _ (
            get_row-IsAnswer now key k pickled (find_row k d.cache_entries) d
              (find_row-IsFound k d.cache_entries h)))
    ]

    abbrev AllowsValue : K → Bool → Option O → Type 0
    AllowsValue key b none = Unit
    AllowsValue key b (some v) = P key b v

    set_entry-All :
        (now : ℤ) (key : K) (v : O) (b : Bool) (d : Disk K)
        → PicklesApart
        → LoadsDumped
        → P key b v
        → All IsAllowed d.cache_entries
        → All IsAllowed (DiskCache.set_entry {E = O} settings now key v b d).1.cache_entries
    set_entry-All now key v b d apart loads p h =
        set_entry-keeps settings (All IsAllowed) delete_where-All touch_row-All now key v b d h
          (λ k payload pickled dumped.
            let row = new_row settings now k payload b in
            let allowed : IsAllowed row = λ key' v' pickled' _ loaded.
              let same_key = apart key key' k pickled pickled' in
              let same_value : some v ≡ some v' = sym (loads v payload dumped) ∙ loaded in
              subst (λ i. P i b v') same_key (subst (AllowsValue key b) same_value p) in
            evict_rows-All settings.maxsize (replace_row row d.cache_entries) (
              All-append IsAllowed (delete_where (has_key k) d.cache_entries) (row ∷ [])
                (delete_where-All (has_key k) d.cache_entries h) (allowed, tt)))

  -- The disk backend answers only with what was stored under a key, also where the file is shared,
  -- rows are dropped or the backend is closed, if the serializers give back what they were given.
  pub disk_backend-IsLawful : PicklesApart → LoadsDumped → IsLawful disk_backend
  disk_backend-IsLawful apart loads = record {
    Holds = λ P d. All (IsAllowed P) d.cache_entries;
    get_holds = λ P now key d h. (
      get-keeps settings (All (IsAllowed P)) (delete_where-All P) (touch_row-All P) now key d h,
      get-IsAnswer P now key d h,
    );
    set_value_holds = λ P now key v d p h. set_entry-All P now key v false d apart loads p h;
    set_exception_holds = λ P now key x d p h. set_entry-All P now key x true d apart loads p h;
    clear_holds = λ P d h.
        clear-keeps settings (All (IsAllowed P)) (delete_where-All P) (touch_row-All P) d h tt;
    info_holds = λ P now d h.
        info-keeps settings (All (IsAllowed P)) (delete_where-All P) (touch_row-All P) now d h;
  }

  pub empty_table_holds :
      (apart : PicklesApart) (loads : LoadsDumped) (P : Policy K O) (d : Disk K)
      → d.cache_entries ≡ []
      → (disk_backend-IsLawful apart loads).Holds P d
  unfolding disk_backend-IsLawful
  empty_table_holds apart loads P d empty = subst (All (IsAllowed P)) (sym empty) tt
