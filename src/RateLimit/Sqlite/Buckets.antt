-- ===== src/RateLimit/Sqlite/Buckets.antt =====
-- One transaction of the SQLite limiter and one call of the in-process limiter, on one key.
use mathlib.Core.List.{append-nil}
use pydecorators.Prelude.{
  ℕ, ◌≡◌, refl, Bool, true, false, List, [], ◌∷◌, ◌++◌, String, arith, All, All-append, ◌==◌,
  ==_iff, ==_refl, string_eq, if◌then◌else◌, Bool-cases, inl, inr, ap, sym, subst, ◌∙◌,
}
use pydecorators.Prelude.Int.{ℤ, max_ℤ}
use pydecorators.Prelude.Dict.{lookup, insert}
use pydecorators.RateLimit.Ids.{WindowId, id_eq}
use pydecorators.RateLimit.{
  Event, RuntimeWindow, Bucket, prune, or_empty, check_windows, append_event, window_wait_seconds,
}
use pydecorators.RateLimit.Events.{IsSorted, prune-IsSorted, prune-All, append-IsSorted}
use pydecorators.RateLimit.Tracking.{IsUpTo}
use pydecorators.RateLimit.Buckets.{events_in, events_in-insert_ne, events_in-insert_self}
use pydecorators.RateLimit.Sqlite.{
  StoredEvent, delete_old_in_window, events_in_window, select_events, check_stored_windows, row_for,
  insert_events,
}
use pydecorators.RateLimit.Sqlite.Rows.{
  drop_old-prune, order_by_timestamp-IsSorted, delete_old_in_window_self,
  delete_old_in_window-other, events_in_window-append,
}

-- Events of a window that are in order and not after a time.
abbrev pub IsTidy : ℤ → List Event → Type 0
IsTidy last es = IsSorted es × All (IsUpTo last) es

pub prune-IsTidy : (last p : ℤ) (es : List Event) → IsTidy last es → IsTidy last (prune p es)
prune-IsTidy last p es h = (prune-IsSorted p es h.0, prune-All (IsUpTo last) p es h.1)

abbrev pub appended : Bool → Event → List Event → List Event
appended b event es = es ++ (if b then event ∷ [] else [])

pub appended-IsTidy :
    (b : Bool) (e : Event) (es : List Event)
    → IsTidy e.timestamp es
    → IsTidy e.timestamp (appended b e es)
appended-IsTidy true e es h = (
  append-IsSorted es e h.0 h.1,
  All-append (IsUpTo e.timestamp) es (e ∷ []) h.1 (omega arith, tt),
)
appended-IsTidy false e es h = subst (IsTidy e.timestamp) (sym (append-nil es)) h

-- Appending to one window of a bucket.
pub events_in-extended :
    (e : Event) (w id : WindowId) (b : Bucket)
    → events_in id (insert w (events_in w b ++ e ∷ []) b) ≡ appended (id == w) e (events_in id b)
events_in-extended e w id b = elim (Bool-cases (id == w)) [
  | inl same ↦ rw same (
      subst (λ j. events_in j (insert w (events_in w b ++ e ∷ []) b) ≡ events_in j b ++ e ∷ [])
        (sym ((==_iff id w).0 same)) (events_in-insert_self w (events_in w b ++ e ∷ []) b))
  | inr other ↦ rw other (
      events_in-insert_ne id w (events_in w b ++ e ∷ []) b (ground (arith, ==_iff id w, other))
      ∙ sym (append-nil (events_in id b)))
]

module _ (ns k : String) where
  -- The bucket of a key and its rows hold the same events.
  abbrev pub IsSame : ℤ → Bucket → List StoredEvent → Type 0
  IsSame last b rows =
      (id : WindowId)
      → (events_in id b ≡ events_in_window ns k id rows)
        × IsTidy last (events_in_window ns k id rows)

  deleted-IsSame :
      (last p : ℤ) (i : WindowId) (b : Bucket) (rows : List StoredEvent)
      → IsSame last b rows
      → IsSame last (insert i (prune p (events_in i b)) b) (delete_old_in_window ns k i p rows)
  deleted-IsSame last p i b rows h id = elim (Bool-cases (id == i)) [
    | inl same ↦
        let e : i ≡ id = sym ((==_iff id i).0 same) in
        let pruned : events_in_window ns k i (delete_old_in_window ns k i p rows)
            ≡ prune p (events_in_window ns k i rows) =
          delete_old_in_window_self ns k i p rows
          ∙ drop_old-prune p (events_in_window ns k i rows) (h i).1.0 in
        subst
          (λ j.
            (events_in j (insert i (prune p (events_in i b)) b)
              ≡ events_in_window ns k j (delete_old_in_window ns k i p rows))
            × IsTidy last (events_in_window ns k j (delete_old_in_window ns k i p rows)))
          e
          (
            events_in-insert_self i (prune p (events_in i b)) b ∙ ap (prune p) (h i).0 ∙ sym pruned,
            subst (IsTidy last) (sym pruned)
                (prune-IsTidy last p (events_in_window ns k i rows) (h i).1),
          )
    | inr other ↦
        let kept = delete_old_in_window-other ns k k id i p rows (rw (==_refl k, other) refl) in
        (
          events_in-insert_ne id i (prune p (events_in i b)) b (ground (arith, ==_iff id i, other))
              ∙ (h id).0
              ∙ sym kept,
          subst (IsTidy last) (sym kept) (h id).1,
        )
  ]

  inserted-IsSame :
      (e : Event) (w : WindowId) (b : Bucket) (rows : List StoredEvent)
      → IsSame e.timestamp b rows
      → IsSame e.timestamp
          (insert w (or_empty (lookup w b) ++ e ∷ []) b)
          (rows ++ row_for ns k w e ∷ [])
  inserted-IsSame e w b rows h id =
      let row = row_for ns k w e in
      let grown : events_in_window ns k id (rows ++ row ∷ [])
          ≡ appended (id == w) e (events_in_window ns k id rows) =
        events_in_window-append ns k id row rows ∙ rw (==_refl ns, ==_refl k) refl in
      (
        events_in-extended e w id b ∙ ap (appended (id == w) e) (h id).0 ∙ sym grown,
        subst (IsTidy e.timestamp) (sym grown)
            (appended-IsTidy (id == w) e (events_in_window ns k id rows) (h id).1),
      )

  -- The two loops over the windows ask for the same wait, and leave the same events.
  pub check_windows_agree :
      (last now : ℤ) (cost : ℕ) (ws : List RuntimeWindow) (b : Bucket) (rows : List StoredEvent)
      (wait wait' : ℤ)
      → wait ≡ wait'
      → IsSame last b rows
      → ((check_windows now cost ws b wait).1
          ≡ (check_stored_windows ns k now cost ws rows wait').1)
        × IsSame last
            (check_windows now cost ws b wait).0
            (check_stored_windows ns k now cost ws rows wait').0
  unfolding check_windows check_stored_windows
  check_windows_agree last now cost [] b rows wait wait' e h = (e, h)
  check_windows_agree last now cost (w ∷ ws) b rows wait wait' e h =
      let events = prune w.prune_before (events_in w.window_id b) in
      let h' = deleted-IsSame last w.prune_before w.window_id b rows h in
      let rows' = delete_old_in_window ns k w.window_id w.prune_before rows in
      let selected : events ≡ select_events ns k w.window_id rows' =
        sym (events_in-insert_self w.window_id events b)
        ∙ (h' w.window_id).0
        ∙ sym (
            order_by_timestamp-IsSorted (events_in_window ns k w.window_id rows')
              (h' w.window_id).1.0) in
      check_windows_agree last now cost ws (insert w.window_id events b) rows' _ _
        (ap (λ x. max_ℤ x (window_wait_seconds events w now cost)) e
          ∙ ap (λ es. max_ℤ wait' (window_wait_seconds es w now cost)) selected)
        h'

  pub append_event-IsSame :
      (e : Event) (ws : List RuntimeWindow) (b : Bucket) (rows : List StoredEvent)
      → IsSame e.timestamp b rows
      → IsSame e.timestamp (append_event e ws b) (insert_events ns k e ws rows)
  unfolding append_event insert_events
  append_event-IsSame e [] b rows h = h
  append_event-IsSame e (w ∷ ws) b rows h =
      append_event-IsSame e ws _ _ (inserted-IsSame e w.window_id b rows h)

-- A transaction for one key leaves the rows of every other.
module _ (ns k j : String) (apart : (j == k) ≡ false) where
  pub check_stored_windows-other :
      (now : ℤ) (cost : ℕ) (id : WindowId) (ws : List RuntimeWindow) (rows : List StoredEvent)
      (wait : ℤ)
      → events_in_window ns j id (check_stored_windows ns k now cost ws rows wait).0
        ≡ events_in_window ns j id rows
  unfolding check_stored_windows
  check_stored_windows-other now cost id [] rows wait = refl
  check_stored_windows-other now cost id (w ∷ ws) rows wait =
      check_stored_windows-other now cost id ws
        (delete_old_in_window ns k w.window_id w.prune_before rows) _
      ∙ delete_old_in_window-other ns j k id w.window_id w.prune_before rows (rw apart refl)

  pub insert_events-other :
      (e : Event) (id : WindowId) (ws : List RuntimeWindow) (rows : List StoredEvent)
      → events_in_window ns j id (insert_events ns k e ws rows) ≡ events_in_window ns j id rows
  unfolding insert_events
  insert_events-other e id [] rows = refl
  insert_events-other e id (w ∷ ws) rows =
      let row = row_for ns k w.window_id e in
      insert_events-other e id ws (rows ++ row ∷ [])
      ∙ events_in_window-append ns j id row rows
      ∙ rw (==_refl ns, apart) (append-nil (events_in_window ns j id rows))
