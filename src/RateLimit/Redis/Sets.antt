-- ===== src/RateLimit/Redis/Sets.antt =====
-- The sorted sets of one bucket: what Redis documents of its commands, and the events that they hold.
use mathlib.Core.List.{append-nil}
use pydecorators.Prelude.{
  ℕ, ◌≡◌, refl, false, List, [], ◌∷◌, ◌++◌, arith, All, ◌==◌, ==_iff, Bool-cases, inl, inr, sym, ap,
  subst, ◌∙◌,
}
use pydecorators.Prelude.Int.{ℤ, pos, ◌<ℤ◌, leb_ℤ}
use pydecorators.Prelude.Dict.{lookup, insert}
use pydecorators.Prelude.Table.{delete_where, select_where-All}
use pydecorators.RateLimit.Ids.{WindowId, id_eq}
use pydecorators.RateLimit.{Event, RuntimeWindow, Bucket, prune, or_empty}
use pydecorators.RateLimit.Buckets.{events_in, events_in-insert_ne, events_in-insert_self, IsApart}
use pydecorators.RateLimit.Sqlite.Rows.{drop_old, drop_old-prune}
use pydecorators.RateLimit.Sqlite.Buckets.{
  IsTidy, prune-IsTidy, appended, appended-IsTidy, events_in-extended,
}
use pydecorators.RateLimit.Redis.{Member, tagged, SortedSets}
use pydecorators.RateLimit.Redis.Waits.{event_of, events_of}

-- The commands of Redis, as documented. A score above all others goes to the end; what the members of one
-- score are ordered by is left open. Nothing expires within the script.
pub record IsSortedSets {S : Type 0} (redis : SortedSets S) : Type 0 where
  pub zrange_removed :
      (id : WindowId) (max : ℤ) (s : S)
      → redis.zrange id (redis.zremrangebyscore id max s)
        ≡ delete_where (λ e. leb_ℤ e.0 max) (redis.zrange id s)
  pub zrange_removed_other :
      (id j : WindowId) (max : ℤ) (s : S)
      → (j == id) ≡ false
      → redis.zrange j (redis.zremrangebyscore id max s) ≡ redis.zrange j s
  pub zrange_added :
      (id : WindowId) (score : ℤ) (m : Member) (s : S)
      → All (λ e. e.0 <ℤ score) (redis.zrange id s)
      → redis.zrange id (redis.zadd id score m s) ≡ redis.zrange id s ++ (score, m) ∷ []
  pub zrange_added_other :
      (id j : WindowId) (score : ℤ) (m : Member) (s : S)
      → (j == id) ≡ false
      → redis.zrange j (redis.zadd id score m s) ≡ redis.zrange j s
  pub zrange_expiring :
      (id j : WindowId) (ttl_ms : ℤ) (s : S)
      → pos 0 <ℤ ttl_ms
      → redis.zrange j (redis.pexpire id ttl_ms s) ≡ redis.zrange j s
  pub zrange_counted : (j : WindowId) (s : S) → redis.zrange j (redis.incr s).1 ≡ redis.zrange j s
  pub zrange_expiring_sequence :
      (j : WindowId) (ttl_ms : ℤ) (s : S)
      → redis.zrange j (redis.pexpire_sequence ttl_ms s) ≡ redis.zrange j s

events_of-delete_where :
    (p : ℤ) (es : List (ℤ × Member))
    → events_of (delete_where (λ e. leb_ℤ e.0 p) es) ≡ drop_old p (events_of es)
events_of-delete_where p [] = refl
events_of-delete_where p (e ∷ es) = ground (arith, events_of-delete_where p es)

events_of-append :
    (es : List (ℤ × Member)) (score : ℤ) (cost : ℕ) (index sequence : ℕ)
    → events_of (es ++ (score, tagged cost score index sequence) ∷ [])
      ≡ events_of es ++ record { timestamp = score; cost = cost } ∷ []
events_of-append [] score cost index sequence = refl
events_of-append (e ∷ es) score cost index sequence =
    ap (λ r. event_of e ∷ r) (events_of-append es score cost index sequence)

module _ {S : Type 0} (redis : SortedSets S) (laws : IsSortedSets redis) (now : ℤ) where
  -- Redis holds the events of a bucket, in order and none after now.
  abbrev pub IsSame : Bucket → S → Type 0
  IsSame b s =
      (id : WindowId)
      → (events_in id b ≡ events_of (redis.zrange id s))
        × IsTidy now (events_of (redis.zrange id s))

  -- All of a window's events are before now.
  abbrev pub IsBefore : S → WindowId → Type 0
  IsBefore s id = All (λ e. e.0 <ℤ now) (redis.zrange id s)

  pub removed_events :
      (id : WindowId) (p : ℤ) (b : Bucket) (s : S)
      → IsSame b s
      → events_of (redis.zrange id (redis.zremrangebyscore id p s)) ≡ prune p (events_in id b)
  removed_events id p b s h =
      ap events_of (laws.zrange_removed id p s)
      ∙ events_of-delete_where p (redis.zrange id s)
      ∙ drop_old-prune p (events_of (redis.zrange id s)) (h id).1.0
      ∙ ap (prune p) (sym (h id).0)

  pub removed-IsSame :
      (id : WindowId) (p : ℤ) (b : Bucket) (s : S)
      → IsSame b s
      → IsSame (insert id (prune p (events_in id b)) b) (redis.zremrangebyscore id p s)
  removed-IsSame id p b s h j = elim (Bool-cases (j == id)) [
    | inl same ↦
        let pruned = removed_events id p b s h in
        subst
          (λ i.
            (events_in i (insert id (prune p (events_in id b)) b)
              ≡ events_of (redis.zrange i (redis.zremrangebyscore id p s)))
            × IsTidy now (events_of (redis.zrange i (redis.zremrangebyscore id p s))))
          (sym ((==_iff j id).0 same))
          (
            events_in-insert_self id (prune p (events_in id b)) b ∙ sym pruned,
            subst (IsTidy now) (sym pruned)
                (prune-IsTidy now p (events_in id b) (subst (IsTidy now) (sym (h id).0) (h id).1)),
          )
    | inr other ↦
        let kept = ap events_of (laws.zrange_removed_other id j p s other) in
        (
          events_in-insert_ne j id (prune p (events_in id b)) b (ground (arith, ==_iff j id, other))
              ∙ (h j).0
              ∙ sym kept,
          subst (IsTidy now) (sym kept) (h j).1,
        )
  ]

  pub removed-IsBefore :
      (id : WindowId) (p : ℤ) (s : S) (j : WindowId)
      → IsBefore s j
      → IsBefore (redis.zremrangebyscore id p s) j
  removed-IsBefore id p s j h = elim (Bool-cases (j == id)) [
    | inl same ↦ subst (IsBefore (redis.zremrangebyscore id p s)) (sym ((==_iff j id).0 same)) (
        subst (All (λ e. e.0 <ℤ now)) (sym (laws.zrange_removed id p s)) (
          select_where-All (λ e. e.0 <ℤ now) _ (redis.zrange id s)
            (subst (IsBefore s) ((==_iff j id).0 same) h)))
    | inr other ↦ subst (All (λ e. e.0 <ℤ now)) (sym (laws.zrange_removed_other id j p s other)) h
  ]

  pub added_events :
      (cost index sequence : ℕ) (ttl_ms : ℤ) (id : WindowId) (s : S)
      → pos 0 <ℤ ttl_ms
      → IsBefore s id
      → (j : WindowId)
      → events_of (
          redis.zrange j
            (redis.pexpire id ttl_ms (redis.zadd id now (tagged cost now index sequence) s)))
        ≡ appended
            (j == id)
            (record { timestamp = now; cost = cost })
            (events_of (redis.zrange j s))
  added_events cost index sequence ttl_ms id s positive before j =
      let member = tagged cost now index sequence in
      ap events_of (laws.zrange_expiring id j ttl_ms (redis.zadd id now member s) positive)
      ∙ (elim (Bool-cases (j == id))
          as (λ _.
            events_of (redis.zrange j (redis.zadd id now member s))
            ≡ appended (j == id) (record { timestamp = now; cost = cost })
                (events_of (redis.zrange j s))) [
                  | inl same ↦ rw same (
                      subst
                        (λ i.
                          events_of (redis.zrange i (redis.zadd id now member s))
                          ≡ events_of (redis.zrange i s)
                            ++ record { timestamp = now; cost = cost } ∷ [])
                        (sym ((==_iff j id).0 same))
                        (ap events_of (laws.zrange_added id now member s before)
                          ∙ events_of-append (redis.zrange id s) now cost index sequence))
                  | inr other ↦ rw other (
                      ap events_of (laws.zrange_added_other id j now member s other)
                      ∙ sym (append-nil (events_of (redis.zrange j s))))
                ])

  pub kept-IsBefore :
      (cost index sequence : ℕ) (ttl_ms : ℤ) (id : WindowId) (s : S) (ws : List RuntimeWindow)
      → pos 0 <ℤ ttl_ms
      → IsApart id ws
      → All (λ w. IsBefore s w.window_id) ws
      → All
          (λ w.
            IsBefore
              (redis.pexpire id ttl_ms (redis.zadd id now (tagged cost now index sequence) s))
              w.window_id)
          ws
  kept-IsBefore cost index sequence ttl_ms id s [] positive apart h = tt
  kept-IsBefore cost index sequence ttl_ms id s (w ∷ ws) positive apart h =
      let member = tagged cost now index sequence in
      let kept =
        laws.zrange_expiring id w.window_id ttl_ms (redis.zadd id now member s) positive
        ∙ laws.zrange_added_other id w.window_id now member s
            (ground (arith, ==_iff w.window_id id, apart.0)) in
      (
        subst (All (λ e. e.0 <ℤ now)) (sym kept) h.0,
        kept-IsBefore cost index sequence ttl_ms id s ws positive apart.1 h.1,
      )

  -- Adding to a window that has no event of now.
  pub added-IsSame :
      (cost index sequence : ℕ) (ttl_ms : ℤ) (id : WindowId) (b : Bucket) (s : S)
      → pos 0 <ℤ ttl_ms
      → IsBefore s id
      → IsSame b s
      → IsSame
          (insert id (or_empty (lookup id b) ++ record { timestamp = now; cost = cost } ∷ []) b)
          (redis.pexpire id ttl_ms (redis.zadd id now (tagged cost now index sequence) s))
  added-IsSame cost index sequence ttl_ms id b s positive before h j =
      let e : Event = record { timestamp = now; cost = cost } in
      let grown = added_events cost index sequence ttl_ms id s positive before j in
      (
        events_in-extended e id j b ∙ ap (appended (j == id) e) (h j).0 ∙ sym grown,
        subst (IsTidy now) (sym grown)
            (appended-IsTidy (j == id) e (events_of (redis.zrange j s)) (h j).1),
      )
