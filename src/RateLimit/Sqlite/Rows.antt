-- ===== src/RateLimit/Sqlite/Rows.antt =====
-- What the statements of the SQLite limiter do to the events of one window of one key.
use pydecorators.Prelude.{
  ◌≡◌, refl, false, List, [], ◌∷◌, ◌++◌, String, arith, All, ◌==◌, ==_iff, ==_refl, string_eq,
  if◌then◌else◌, Bool-cases, inl, inr, ap, ◌∙◌,
}
use pydecorators.Prelude.Int.{ℤ, leb_ℤ, ◌≤ℤ◌}
use pydecorators.Prelude.Table.{delete_where}
use pydecorators.RateLimit.Ids.{WindowId, id_eq}
use pydecorators.RateLimit.{Event, prune}
use pydecorators.RateLimit.Events.{IsSorted}
use pydecorators.RateLimit.Sqlite.{
  StoredEvent, in_window, delete_old_in_bucket, delete_old_in_window, insert_in_order,
  order_by_timestamp, events_in_window,
}

abbrev pub drop_old : ℤ → List Event → List Event
drop_old bound es = delete_where (λ e. leb_ℤ e.timestamp bound) es

later_kept :
    (bound t : ℤ) (es : List Event)
    → leb_ℤ t bound ≡ false
    → All (λ f. t ≤ℤ f.timestamp) es
    → drop_old bound es ≡ es
later_kept bound t [] h a = refl
later_kept bound t (e ∷ es) h a = ground (arith, later_kept bound t es h a.1)

-- On sorted events deleting what is old is pruning.
pub drop_old-prune :
    (bound : ℤ) (es : List Event) → IsSorted es → drop_old bound es ≡ prune bound es
unfolding prune
drop_old-prune bound [] h = refl
drop_old-prune bound (e ∷ es) h = elim (Bool-cases (leb_ℤ e.timestamp bound)) [
  | inl old ↦ rw old (drop_old-prune bound es h.1)
  | inr new ↦ rw new (ap (λ rest. e ∷ rest) (later_kept bound e.timestamp es new h.0))
]

insert_in_order-first :
    (e : Event) (es : List Event)
    → All (λ f. e.timestamp ≤ℤ f.timestamp) es
    → insert_in_order e es ≡ e ∷ es
insert_in_order-first e [] a = refl
insert_in_order-first e (f ∷ es) a = ground (arith, a.0)

-- Sorted events are in order.
pub order_by_timestamp-IsSorted : (es : List Event) → IsSorted es → order_by_timestamp es ≡ es
order_by_timestamp-IsSorted [] h = refl
order_by_timestamp-IsSorted (e ∷ es) h =
    ap (insert_in_order e) (order_by_timestamp-IsSorted es h.1) ∙ insert_in_order-first e es h.0

module _ (ns : String) where
  pub delete_old_in_window_self :
      (k : String) (id : WindowId) (bound : ℤ) (rows : List StoredEvent)
      → events_in_window ns k id (delete_old_in_window ns k id bound rows)
        ≡ drop_old bound (events_in_window ns k id rows)
  delete_old_in_window_self k id bound [] = refl
  delete_old_in_window_self k id bound (r ∷ rows) =
      ground (arith, delete_old_in_window_self k id bound rows)

  pub delete_old_in_window-other :
      (k j : String) (id i : WindowId) (bound : ℤ) (rows : List StoredEvent)
      → (if k == j then id == i else false) ≡ false
      → events_in_window ns k id (delete_old_in_window ns j i bound rows)
        ≡ events_in_window ns k id rows
  delete_old_in_window-other k j id i bound [] h = refl
  delete_old_in_window-other k j id i bound (r ∷ rows) h = ground (
    arith,
    ==_iff k r.bucket_key,
    ==_iff j r.bucket_key,
    ==_iff id r.window_id,
    ==_iff i r.window_id,
    ==_refl k,
    ==_refl id,
    delete_old_in_window-other k j id i bound rows h,
  )

  pub delete_old_in_bucket_self :
      (k : String) (id : WindowId) (bound : ℤ) (rows : List StoredEvent)
      → events_in_window ns k id (delete_old_in_bucket ns k bound rows)
        ≡ drop_old bound (events_in_window ns k id rows)
  delete_old_in_bucket_self k id bound [] = refl
  delete_old_in_bucket_self k id bound (r ∷ rows) =
      ground (arith, delete_old_in_bucket_self k id bound rows)

  pub delete_old_in_bucket-other :
      (k j : String) (id : WindowId) (bound : ℤ) (rows : List StoredEvent)
      → (k == j) ≡ false
      → events_in_window ns k id (delete_old_in_bucket ns j bound rows)
        ≡ events_in_window ns k id rows
  delete_old_in_bucket-other k j id bound [] h = refl
  delete_old_in_bucket-other k j id bound (r ∷ rows) h = ground (
    arith,
    ==_iff k r.bucket_key,
    ==_iff j r.bucket_key,
    ==_refl k,
    delete_old_in_bucket-other k j id bound rows h,
  )

  pub events_in_window-append :
      (k : String) (id : WindowId) (row : StoredEvent) (rows : List StoredEvent)
      → events_in_window ns k id (rows ++ row ∷ [])
        ≡ events_in_window ns k id rows
          ++ (if in_window ns k id row
              then record { timestamp = row.timestamp; cost = row.cost } ∷ []
              else [])
  events_in_window-append k id row [] = ground arith
  events_in_window-append k id row (r ∷ rows) =
      ground (arith, events_in_window-append k id row rows)
