-- ===== src/RateLimit/Sqlite/Refinement.antt =====
-- The SQLite limiter refines the in-process limiter: on any run of calls they answer alike.
use pydecorators.Prelude.{
  ◌≡◌, refl, false, Option, List, [], ◌∷◌, map, String, arith, All, Hashable, ◌==◌, string_eq, ap,
  sym, ◌∙◌,
}
use pydecorators.Prelude.Int.{ℤ}
use pydecorators.Prelude.Dict.{Dict, lookup}
use pydecorators.Prelude.Effect.{Outcome, returned}
use pydecorators.RateLimit.Ids.{WindowId, id_eq}
use pydecorators.RateLimit
use pydecorators.RateLimit.{NormalizedWindow, Bucket}
use pydecorators.RateLimit.State.{IsWellFormed}
use pydecorators.RateLimit.Steps.{reserve_or_delay-IsWellFormed}
use pydecorators.RateLimit.Safety.{Request, IsOrdered}
use pydecorators.RateLimit.Sqlite
use pydecorators.RateLimit.Sqlite.{
  StoredEvent, BucketKeyError, Storage, stored_bucket_key, transact, reserve_stored,
}
use pydecorators.RateLimit.Sqlite.Transactions.{
  StoresApart, StoresTogether, IsRefined, rows_of, reserve_alike, reserve-IsRefined,
}

module _ {K O Z : Type 0} ⦃e : Hashable K⦄ (key_of : O → K) (storage : Storage O)
    (bounds : NormalizedWindow Z → ℤ → ℤ × ℤ) (config : List (NormalizedWindow Z)) where
  -- The answers of the two limiters, in order.
  abbrev pub answers : List (Request O) → Dict K Bucket → List (Option ℤ)
  answers [] state = []
  answers (r ∷ rs) state =
      let (state', answer) =
        RateLimit.reserve_or_delay bounds config r.now (key_of r.key) r.cost state in
      answer ∷ answers rs state'

  abbrev pub stored_answers :
      List (Request O) → List StoredEvent → List (Outcome BucketKeyError (Option ℤ))
  stored_answers [] rows = []
  stored_answers (r ∷ rs) rows =
      let (answer, rows') = Sqlite.reserve_or_delay storage bounds config r.now r.key r.cost rows in
      answer ∷ stored_answers rs rows'

  -- Every key can be stored.
  abbrev pub HasBucketKeys : Type 0
  HasBucketKeys =
      (o : O) → (stored : String) × (stored_bucket_key storage bounds o ≡ returned stored)

  stored_alike :
      (rs : List (Request O)) (last : ℤ) (state : Dict K Bucket) (rows : List StoredEvent)
      → StoresApart key_of storage bounds config
      → StoresTogether key_of storage bounds config
      → HasBucketKeys
      → IsOrdered last rs
      → IsWellFormed state
      → IsRefined key_of storage bounds config last state rows
      → stored_answers rs rows ≡ map returned (answers rs state)
  unfolding Sqlite.reserve_or_delay
  stored_alike [] last state rows apart together keys ordered formed h = refl
  stored_alike (r ∷ rs) last state rows apart together keys ordered formed h =
      let (stored, is_stored) = keys r.key in
      let (state', answer) =
        RateLimit.reserve_or_delay bounds config r.now (key_of r.key) r.cost state in
      let (answer', rows') = transact storage bounds config r.now r.cost stored rows in
      let ran : Sqlite.reserve_or_delay storage bounds config r.now r.key r.cost rows
          ≡ (returned answer', rows') =
        ap (λ found. reserve_stored storage bounds config r.now r.cost found rows) is_stored in
      let alike =
        reserve_alike key_of storage bounds config last r.now r.key r.cost stored ordered.0
          is_stored state rows formed h in
      let refined =
        reserve-IsRefined key_of storage bounds config last r.now r.key r.cost stored ordered.0
          is_stored state rows apart together formed h in
      let formed' =
        reserve_or_delay-IsWellFormed bounds config r.now (key_of r.key) r.cost state formed in
      ap (λ done. done.0 ∷ stored_answers rs done.1) ran
      ∙ ap (λ a. returned a ∷ stored_answers rs rows') (sym alike.0)
      ∙ ap (λ rest. returned answer ∷ rest)
          (stored_alike rs r.now state' rows' apart together keys ordered.1 formed' refined)

  -- No event of the namespace is in the table.
  abbrev pub IsFresh : List StoredEvent → Type 0
  IsFresh = All (λ row. (storage.namespace == row.namespace) ≡ false)

  fresh_rows :
      (stored : String) (id : WindowId) (rows : List StoredEvent)
      → IsFresh rows
      → rows_of key_of storage bounds config stored id rows ≡ []
  fresh_rows stored id [] h = refl
  fresh_rows stored id (row ∷ rows) h = ground (arith, h.0, fresh_rows stored id rows h.1)

  fresh-IsRefined :
      (last : ℤ) (rows : List StoredEvent)
      → IsFresh rows
      → IsRefined key_of storage bounds config last [] rows
  unfolding lookup
  fresh-IsRefined last rows h k stored is_stored id =
      rw (fresh_rows stored id rows h) (λ c bound. refl, (tt, tt))

  -- On any run of calls with a clock that never goes back, a SQLite limiter whose namespace is not
  -- used by others answers what a fresh in-process limiter with the same windows answers, if every key
  -- can be stored, different keys are stored under different bucket keys, and keys that are equal, so
  -- that they share a bucket of the in-process limiter, under the same bucket key.
  pub stored_answers-answers :
      (rs : List (Request O)) (start : ℤ) (rows : List StoredEvent)
      → StoresApart key_of storage bounds config
      → StoresTogether key_of storage bounds config
      → HasBucketKeys
      → IsOrdered start rs
      → IsFresh rows
      → stored_answers rs rows ≡ map returned (answers rs [])
  stored_answers-answers rs start rows apart together keys ordered fresh =
      stored_alike rs start [] rows apart together keys ordered (tt, tt)
        (fresh-IsRefined start rows fresh)
