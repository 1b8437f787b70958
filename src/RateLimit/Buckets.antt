-- ===== src/RateLimit/Buckets.antt =====
-- The dictionaries of the limiter: the events of one key and window under each part of a reservation.
use pydecorators.Prelude.{
  ℕ, ◌≡◌, ◌≢◌, refl, none, List, [], ◌∷◌, ◌++◌, arith, All, ◌⊎◌, inl, inr, ==_iff,
  empty_of_is_empty, ◌∙◌, ap, sym, subst,
}
use pydecorators.Prelude.Int.{ℤ, ◌≤ℤ◌, max_ℤ}
use pydecorators.Prelude.Dict.{lookup, insert, IsDistinct, lookup-insert, insert-IsDistinct}
use pydecorators.RateLimit.Ids.{WindowId, id_eq}
use pydecorators.RateLimit.{
  Event, RuntimeWindow, Bucket, or_empty, prune, window_wait_seconds, check_windows, append_event,
  prune_bucket,
}

-- `bucket.get(window_id, ())`
abbrev pub events_in : WindowId → Bucket → List Event
events_in id bucket = or_empty (lookup id bucket)

lookup-prune_bucket_absent :
    (p : ℤ) (id : WindowId) (b : Bucket) → lookup id b ≡ none → lookup id (prune_bucket p b) ≡ none
unfolding lookup prune_bucket
lookup-prune_bucket_absent p id [] h = refl
lookup-prune_bucket_absent p id ((i, es) ∷ b) h = ground (arith, lookup-prune_bucket_absent p id b)

pub prune_bucket-IsDistinct : (p : ℤ) (b : Bucket) → IsDistinct b → IsDistinct (prune_bucket p b)
unfolding prune_bucket lookup
prune_bucket-IsDistinct p [] h = tt
prune_bucket-IsDistinct p ((i, es) ∷ b) h =
    ground (arith, prune_bucket-IsDistinct p b h.1, lookup-prune_bucket_absent p i b h.0)

pub events_in-prune_bucket :
    (p : ℤ) (id : WindowId) (b : Bucket)
    → IsDistinct b
    → events_in id (prune_bucket p b) ≡ prune p (events_in id b)
unfolding lookup prune_bucket
events_in-prune_bucket p id [] h = unfold prune in refl
events_in-prune_bucket p id ((i, es) ∷ b) h = ground (
  arith,
  ==_iff id i,
  events_in-prune_bucket p id b h.1,
  lookup-prune_bucket_absent p i b h.0,
  empty_of_is_empty (prune p es),
)

pub events_in-insert_ne :
    (id i : WindowId) (es : List Event) (b : Bucket)
    → id ≢ i
    → events_in id (insert i es b) ≡ events_in id b
events_in-insert_ne id i es b h = rw lookup-insert (ground (arith, ==_iff id i))

pub events_in-insert_self :
    (i : WindowId) (es : List Event) (b : Bucket) → events_in i (insert i es b) ≡ es
events_in-insert_self i es b = rw lookup-insert (ground (arith, ==_iff i i))

-- No two windows have one id.
abbrev pub IsApart : WindowId → List RuntimeWindow → Type 0
IsApart id = All (λ v. id ≢ v.window_id)

abbrev pub HasDistinctIds : List RuntimeWindow → Type 0
HasDistinctIds [] = Unit
HasDistinctIds (w ∷ ws) = IsApart w.window_id ws × HasDistinctIds ws

abbrev pub IsOneOf : {A : Type 0} → A → List A → Type 0
IsOneOf w [] = ⊥
IsOneOf w (v ∷ ws) = (w ≡ v) ⊎ IsOneOf w ws

apart_of_member :
    (w : RuntimeWindow) (ws : List RuntimeWindow)
    → IsOneOf w ws
    → (id : WindowId) → IsApart id ws
    → id ≢ w.window_id
apart_of_member w [] m id h = absurd m
apart_of_member w (v ∷ ws) (inl e) id h = rw e h.0
apart_of_member w (v ∷ ws) (inr m) id h = apart_of_member w ws m id h.1

module _ (now : ℤ) (cost : ℕ) where
  wait-le-check_windows :
      (ws : List RuntimeWindow) (b : Bucket) (wait : ℤ)
      → wait ≤ℤ (check_windows now cost ws b wait).1
  unfolding check_windows
  wait-le-check_windows [] b wait = omega arith
  wait-le-check_windows (w ∷ ws) b wait =
      let events = prune w.prune_before (events_in w.window_id b) in
      ground (
        arith,
        wait-le-check_windows ws (insert w.window_id events b)
            (max_ℤ wait (window_wait_seconds events w now cost)),
      )

  check_windows-apart :
      (id : WindowId) (ws : List RuntimeWindow) (b : Bucket) (wait : ℤ)
      → IsApart id ws
      → events_in id (check_windows now cost ws b wait).0 ≡ events_in id b
  unfolding check_windows
  check_windows-apart id [] b wait h = refl
  check_windows-apart id (w ∷ ws) b wait h =
      let events = prune w.prune_before (events_in w.window_id b) in
      check_windows-apart id ws (insert w.window_id events b) _ h.1
      ∙ events_in-insert_ne id w.window_id events b h.0

  -- What a check does to one of its windows.
  abbrev pub IsChecked : RuntimeWindow → Bucket → Bucket × ℤ → Type 0
  IsChecked w b checked =
      (events_in w.window_id checked.0 ≡ prune w.prune_before (events_in w.window_id b))
      × (window_wait_seconds (prune w.prune_before (events_in w.window_id b)) w now cost
          ≤ℤ checked.1)

  first-IsChecked :
      (v : RuntimeWindow) (ws : List RuntimeWindow) (b : Bucket) (wait : ℤ)
      → IsApart v.window_id ws
      → IsChecked v b (check_windows now cost (v ∷ ws) b wait)
  unfolding check_windows
  first-IsChecked v ws b wait d =
      let events = prune v.prune_before (events_in v.window_id b) in
      let wait' = max_ℤ wait (window_wait_seconds events v now cost) in
      (
        check_windows-apart v.window_id ws (insert v.window_id events b) wait' d
            ∙ events_in-insert_self v.window_id events b,
        ground (arith, wait-le-check_windows ws (insert v.window_id events b) wait'),
      )

  -- Each window that is checked is pruned, and its wait counts.
  pub check_windows-IsChecked :
      (w : RuntimeWindow) (ws : List RuntimeWindow) (b : Bucket) (wait : ℤ)
      → IsOneOf w ws
      → HasDistinctIds ws
      → IsChecked w b (check_windows now cost ws b wait)
  unfolding check_windows
  check_windows-IsChecked w [] b wait m d = absurd m
  check_windows-IsChecked w (v ∷ ws) b wait (inl e) d =
      subst (λ u. IsChecked u b (check_windows now cost (v ∷ ws) b wait)) (sym e)
        (first-IsChecked v ws b wait d.0)
  check_windows-IsChecked w (v ∷ ws) b wait (inr m) d =
      let events = prune v.prune_before (events_in v.window_id b) in
      let ne : w.window_id ≢ v.window_id = λ e. apart_of_member w ws m v.window_id d.0 (sym e) in
      let same = events_in-insert_ne w.window_id v.window_id events b ne in
      let step =
        check_windows-IsChecked w ws (insert v.window_id events b)
          (max_ℤ wait (window_wait_seconds events v now cost)) m d.1 in
      rw same at step

  pub check_windows-IsDistinct :
      (ws : List RuntimeWindow) (b : Bucket) (wait : ℤ)
      → IsDistinct b
      → IsDistinct (check_windows now cost ws b wait).0
  unfolding check_windows
  check_windows-IsDistinct [] b wait h = h
  check_windows-IsDistinct (w ∷ ws) b wait h =
      check_windows-IsDistinct ws _ _ (insert-IsDistinct w.window_id _ b h)

module _ (event : Event) where
  append_event-apart :
      (id : WindowId) (ws : List RuntimeWindow) (b : Bucket)
      → IsApart id ws
      → events_in id (append_event event ws b) ≡ events_in id b
  unfolding append_event
  append_event-apart id [] b h = refl
  append_event-apart id (w ∷ ws) b h =
      let events = events_in w.window_id b ++ event ∷ [] in
      append_event-apart id ws (insert w.window_id events b) h.1
      ∙ events_in-insert_ne id w.window_id events b h.0

  first_appended :
      (v : RuntimeWindow) (ws : List RuntimeWindow) (b : Bucket)
      → IsApart v.window_id ws
      → events_in v.window_id (append_event event (v ∷ ws) b)
        ≡ events_in v.window_id b ++ event ∷ []
  unfolding append_event
  first_appended v ws b d =
      let events = events_in v.window_id b ++ event ∷ [] in
      append_event-apart v.window_id ws (insert v.window_id events b) d
      ∙ events_in-insert_self v.window_id events b

  -- An admitted call is in each of its windows once.
  pub append_event-member :
      (w : RuntimeWindow) (ws : List RuntimeWindow) (b : Bucket)
      → IsOneOf w ws
      → HasDistinctIds ws
      → events_in w.window_id (append_event event ws b) ≡ events_in w.window_id b ++ event ∷ []
  unfolding append_event
  append_event-member w [] b m d = absurd m
  append_event-member w (v ∷ ws) b (inl e) d =
      subst
        (λ u.
          events_in u.window_id (append_event event (v ∷ ws) b)
          ≡ events_in u.window_id b ++ event ∷ [])
        (sym e) (first_appended v ws b d.0)
  append_event-member w (v ∷ ws) b (inr m) d =
      let events = events_in v.window_id b ++ event ∷ [] in
      let ne : w.window_id ≢ v.window_id = λ e. apart_of_member w ws m v.window_id d.0 (sym e) in
      append_event-member w ws (insert v.window_id events b) m d.1
      ∙ ap (λ es. es ++ event ∷ []) (events_in-insert_ne w.window_id v.window_id events b ne)

  pub append_event-IsDistinct :
      (ws : List RuntimeWindow) (b : Bucket) → IsDistinct b → IsDistinct (append_event event ws b)
  unfolding append_event
  append_event-IsDistinct [] b h = h
  append_event-IsDistinct (w ∷ ws) b h =
      append_event-IsDistinct ws _ (insert-IsDistinct w.window_id _ b h)
