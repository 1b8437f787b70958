-- ===== src/RateLimit/Sqlite/Transactions.antt =====
-- One call of the SQLite limiter and one of the in-process limiter: they answer alike, and leave
-- the same events.
use pydecorators.Prelude.{
  ℕ, ◌≡◌, ◌≢◌, refl, true, false, Option, List, [], ◌∷◌, String, arith, All, Hashable, ◌==◌, ==_iff,
  string_eq, Bool-cases, inl, inr, ap, sym, subst, ◌∙◌,
}
use pydecorators.Prelude.Int.{ℤ, pos, ◌-ℤ◌, leb_ℤ, ltb_ℤ, ◌≤ℤ◌, -ℤ_parts}
use pydecorators.Prelude.Dict.{Dict}
use pydecorators.Prelude.Effect.{returned}
use pydecorators.RateLimit.Ids.{WindowId, id_eq}
use pydecorators.RateLimit
use pydecorators.RateLimit.{
  Event, NormalizedWindow, RuntimeWindow, Bucket, prune, check_windows, append_event,
  runtime_windows, max_window_cleanup_period, prune_idle_windows, settle,
}
use pydecorators.RateLimit.Events.{prune-IsSorted, prune-All}
use pydecorators.RateLimit.Tracking.{IsUpTo}
use pydecorators.RateLimit.Buckets.{events_in}
use pydecorators.RateLimit.State.{
  bucket_of, events_of, IsWellFormed, events_of-prune_idle_windows, bucket_of-insert_self,
  bucket_of-insert_ne,
}
use pydecorators.RateLimit.Sqlite.{
  StoredEvent, Storage, delete_old_in_bucket, events_in_window, check_stored_windows,
  stored_bucket_key, commit_reservation, transact,
}
use pydecorators.RateLimit.Sqlite.Rows.{
  drop_old-prune, delete_old_in_bucket_self, delete_old_in_bucket-other,
}
use pydecorators.RateLimit.Sqlite.Buckets.{
  IsTidy, IsSame, check_windows_agree, append_event-IsSame, check_stored_windows-other,
  insert_events-other,
}

pub prune-prune : (p q : ℤ) (es : List Event) → p ≤ℤ q → prune q (prune p es) ≡ prune q es
unfolding prune
prune-prune p q [] h = refl
prune-prune p q (e ∷ es) h = ground (arith, prune-prune p q es h)

IsUpTo-later :
    (last now : ℤ) (es : List Event) → last ≤ℤ now → All (IsUpTo last) es → All (IsUpTo now) es
IsUpTo-later last now [] h a = tt
IsUpTo-later last now (e ∷ es) h a = (omega arith, IsUpTo-later last now es h a.1)

not_free : (wait : ℤ) → ltb_ℤ (pos 0) wait ≡ true → leb_ℤ wait (pos 0) ≡ false
not_free wait h = ground arith

is_free : (wait : ℤ) → ltb_ℤ (pos 0) wait ≡ false → leb_ℤ wait (pos 0) ≡ true
is_free wait h = ground arith

-- Keys are Python objects `O`; `key_of` takes objects that `==` holds equal to the same key of a
-- dictionary.
module _ {K O Z : Type 0} ⦃e : Hashable K⦄ (key_of : O → K) (storage : Storage O)
    (bounds : NormalizedWindow Z → ℤ → ℤ × ℤ) (config : List (NormalizedWindow Z)) where
  -- Different keys are stored under different bucket keys.
  abbrev pub StoresApart : Type 0
  StoresApart =
      (o p : O) (stored : String)
      → stored_bucket_key storage bounds o ≡ returned stored
      → stored_bucket_key storage bounds p ≡ returned stored
      → key_of o ≡ key_of p

  -- Equal keys are stored under one bucket key, as 1 and `True` are not.
  abbrev pub StoresTogether : Type 0
  StoresTogether =
      (o p : O)
      → key_of o ≡ key_of p
      → stored_bucket_key storage bounds o ≡ stored_bucket_key storage bounds p

  abbrev pub rows_of : String → WindowId → List StoredEvent → List Event
  rows_of stored id rows = events_in_window storage.namespace stored id rows

  abbrev pub cleanup_before : ℤ → ℤ
  cleanup_before now = now -ℤ max_window_cleanup_period config

  later_cleanup : (last now : ℤ) → last ≤ℤ now → cleanup_before last ≤ℤ cleanup_before now
  later_cleanup last now h = omega (
    arith,
    -ℤ_parts now (max_window_cleanup_period config),
    -ℤ_parts last (max_window_cleanup_period config),
    h,
  )

  -- After what the next clean-up drops, the limiters hold the same events for every key and window.
  abbrev pub IsRefinedAt : ℤ → Dict K Bucket → List StoredEvent → WindowId → K → String → Type 0
  IsRefinedAt last state rows id k stored =
      ((c : ℤ)
        → cleanup_before last ≤ℤ c
        → prune c (events_of k id state) ≡ prune c (rows_of stored id rows))
      × IsTidy last (rows_of stored id rows)

  abbrev pub IsRefined : ℤ → Dict K Bucket → List StoredEvent → Type 0
  IsRefined last state rows =
      (o : O) (stored : String)
      → stored_bucket_key storage bounds o ≡ returned stored
      → (id : WindowId) → IsRefinedAt last state rows id (key_of o) stored

  module _ (last now : ℤ) (object : O) (cost : ℕ) (stored : String) (later : last ≤ℤ now)
      (is_stored : stored_bucket_key storage bounds object ≡ returned stored) where
    abbrev key : K
    key = key_of object

    abbrev pub cleaned_rows : List StoredEvent → List StoredEvent
    cleaned_rows rows = delete_old_in_bucket storage.namespace stored (cleanup_before now) rows

    cleaned-IsSame :
        (state : Dict K Bucket) (rows : List StoredEvent)
        → IsWellFormed state
        → IsRefined last state rows
        → IsSame storage.namespace stored now
            (bucket_of key (prune_idle_windows (cleanup_before now) state))
            (cleaned_rows rows)
    cleaned-IsSame state rows formed h id =
        let (same, (sorted, up_to)) = h object stored is_stored id in
        let kept : rows_of stored id (cleaned_rows rows)
            ≡ prune (cleanup_before now) (rows_of stored id rows) =
          delete_old_in_bucket_self storage.namespace stored id (cleanup_before now) rows
          ∙ drop_old-prune (cleanup_before now) (rows_of stored id rows) sorted in
        (
          events_of-prune_idle_windows (cleanup_before now) key id state formed
              ∙ same (cleanup_before now) (later_cleanup last now later)
              ∙ sym kept,
          subst (IsTidy now) (sym kept) (
            prune-IsSorted (cleanup_before now) (rows_of stored id rows) sorted,
            prune-All (IsUpTo now) (cleanup_before now) (rows_of stored id rows)
                (IsUpTo-later last now (rows_of stored id rows) later up_to),
          ),
        )

    -- The ends of the two calls.
    abbrev pub IsSettledAlike :
        Dict K Bucket
        → List StoredEvent
        → Dict K Bucket × Option ℤ
        → Option ℤ × List StoredEvent
        → Type 0
    IsSettledAlike state rows done done' =
        (done.1 ≡ done'.0)
        × IsSame storage.namespace stored now (bucket_of key done.0) done'.1
        × ((k : K) → k ≢ key → bucket_of k done.0 ≡ bucket_of k state)
        × ((j : String) (id : WindowId)
            → (j == stored) ≡ false
            → rows_of j id done'.1 ≡ rows_of j id rows)

    settle_alike :
        (ws : List RuntimeWindow) (state : Dict K Bucket) (b : Bucket) (rows : List StoredEvent)
        (wait : ℤ)
        → IsSame storage.namespace stored now b rows
        → IsSettledAlike state rows
            (settle bounds now cost key ws state (b, wait))
            (commit_reservation storage bounds stored now cost ws (rows, wait))
    settle_alike ws state b rows wait h = elim (Bool-cases (ltb_ℤ (pos 0) wait)) [
      | inl long ↦
          rw (long, not_free wait long)
            (
              refl,
              rw (bucket_of-insert_self key b state) h,
              λ k apart. bucket_of-insert_ne k key b state apart,
              λ j id apart. refl,
            )
      | inr free ↦
          let event : Event = record { timestamp = now; cost = cost } in
          rw (free, is_free wait free)
            (
              refl,
              rw (bucket_of-insert_self key (append_event event ws b) state)
                  (append_event-IsSame storage.namespace stored event ws b rows h),
              λ k apart. bucket_of-insert_ne k key (append_event event ws b) state apart,
              λ j id apart. insert_events-other storage.namespace stored j apart event id ws rows,
            )
    ]

    pub reserve_alike :
        (state : Dict K Bucket) (rows : List StoredEvent)
        → IsWellFormed state
        → IsRefined last state rows
        → IsSettledAlike
            (prune_idle_windows (cleanup_before now) state)
            (cleaned_rows rows)
            (RateLimit.reserve_or_delay bounds config now key cost state)
            (transact storage bounds config now cost stored rows)
    unfolding RateLimit.reserve_or_delay
    reserve_alike state rows formed h =
        let ws = runtime_windows bounds config now in
        let state' = prune_idle_windows (cleanup_before now) state in
        let (wait_same, same) =
          check_windows_agree storage.namespace stored now now cost ws (bucket_of key state')
            (cleaned_rows rows) (pos 0) (pos 0) refl (cleaned-IsSame state rows formed h) in
        let checked = check_windows now cost ws (bucket_of key state') (pos 0) in
        let checked' =
          check_stored_windows storage.namespace stored now cost ws (cleaned_rows rows) (pos 0) in
        let (answers, settled, others, frame) =
          subst
            (λ wait.
              IsSettledAlike state' checked'.0 (settle bounds now cost key ws state' checked)
                (commit_reservation storage bounds stored now cost ws (checked'.0, wait)))
            wait_same (settle_alike ws state' checked.0 checked'.0 checked.1 same) in
        (
          answers,
          settled,
          others,
          λ j id apart.
              frame j id apart
              ∙ check_stored_windows-other storage.namespace stored j apart now cost id ws
                  (cleaned_rows rows) (pos 0),
        )

    apart_of :
        StoresApart
        → (o : O) (j : String) → stored_bucket_key storage bounds o ≡ returned j
        → key_of o ≢ key
        → (j == stored) ≡ false
    apart_of apart o j h ne = elim (Bool-cases (j == stored)) [
      | inl same ↦
          absurd
            (ne (apart o object j h (is_stored ∙ ap returned (sym ((==_iff j stored).0 same)))))
      | inr other ↦ other
    ]

    pub reserve-IsRefined :
        (state : Dict K Bucket) (rows : List StoredEvent)
        → StoresApart
        → StoresTogether
        → IsWellFormed state
        → IsRefined last state rows
        → IsRefined now
            (RateLimit.reserve_or_delay bounds config now key cost state).0
            (transact storage bounds config now cost stored rows).1
    reserve-IsRefined state rows apart together formed h o j is_j id =
        let k = key_of o in
        let (answers, settled, others, frame) = reserve_alike state rows formed h in
        let state' = (RateLimit.reserve_or_delay bounds config now key cost state).0 in
        let rows' = (transact storage bounds config now cost stored rows).1 in
        elim (Bool-cases (k == key)) [
          | inl same ↦
              let key_same : key ≡ k = sym ((==_iff k key).0 same) in
              let found : returned stored ≡ returned j =
                sym is_stored ∙ together object o key_same ∙ is_j in
              let own : IsRefinedAt now state' rows' id key stored =
                (λ c h'. ap (prune c) (settled id).0, (settled id).1) in
              let at_key : IsRefinedAt now state' rows' id k stored =
                subst (λ k'. IsRefinedAt now state' rows' id k' stored) key_same own in
              subst (IsRefinedAt now state' rows' id k) (cc found) at_key
          | inr other ↦
              let ne : k ≢ key = ground (arith, ==_iff k key, other) in
              let far = apart_of apart o j is_j ne in
              let kept : rows_of j id rows' ≡ rows_of j id rows =
                frame j id far
                ∙ delete_old_in_bucket-other storage.namespace j stored id (cleanup_before now) rows
                    far in
              let (same, tidy) = h o j is_j id in
              (
                λ c bound.
                    ap (λ b. prune c (events_in id b)) (others k ne)
                    ∙ ap (prune c)
                        (events_of-prune_idle_windows (cleanup_before now) k id state formed)
                    ∙ prune-prune (cleanup_before now) c (events_of k id state) bound
                    ∙ same c (omega (arith, later_cleanup last now later, bound))
                    ∙ ap (prune c) (sym kept),
                subst (IsTidy now) (sym kept)
                    (tidy.0, IsUpTo-later last now (rows_of j id rows) later tidy.1),
              )
        ]
