-- ===== src/DiskCache/Invariant.antt =====
-- The invariant of the tables of `DiskCacheBackend`: no key twice, and never more rows than `maxsize`.
use pydecorators.Prelude.{
  ℕ, zero, suc, ◌+◌, ◌-◌, ◌<◌, ◌≤◌, ◌≡◌, ◌≢◌, refl, Bool, true, false, not, Option, none, some,
  List, [], ◌∷◌, ◌++◌, map, arith, leb, length, All, All-append, ==_iff, Bool-cases, inl, inr, ap,
}
use pydecorators.Prelude.Int.{ℤ}
use pydecorators.Prelude.Bytes.{Bytes, bytes_eq}
use pydecorators.Prelude.Table.{
  select_where, delete_where, count_where, take, length-delete_where, select_where-All,
}
use pydecorators.DiskCache.{Row, Settings, has_key, key_in, touch_row, replace_row, evict_rows}

-- No key is in the table twice.
abbrev pub IsDistinctRows : List Row → Type 0
IsDistinctRows [] = Unit
IsDistinctRows (r ∷ rows) = All (λ q. r.key ≢ q.key) rows × IsDistinctRows rows

-- `ORDER BY` gives the same rows in some order.
abbrev pub IsOrdering : (List Row → List Row) → Type 1
IsOrdering order =
    (rows : List Row)
    → (length (order rows) ≡ length rows)
      × (IsDistinctRows rows → IsDistinctRows (order rows))
      × ((P : Row → Type 0) → All P rows → All P (order rows))

abbrev pub FitsRows : Option ℕ → List Row → Type 0
FitsRows none rows = Unit
FitsRows (some maxsize) rows = (0 < maxsize) × (length rows ≤ maxsize)

pub select_where-IsDistinctRows :
    (p : Row → Bool) (rows : List Row) → IsDistinctRows rows → IsDistinctRows (select_where p rows)
select_where-IsDistinctRows p [] h = tt
select_where-IsDistinctRows p (r ∷ rows) h = ground (
  arith,
  select_where-IsDistinctRows p rows h.1,
  select_where-All (λ q. r.key ≢ q.key) p rows h.0,
)

append_row-IsDistinctRows :
    (rows : List Row) (row : Row)
    → IsDistinctRows rows
    → All (λ r. r.key ≢ row.key) rows
    → IsDistinctRows (rows ++ row ∷ [])
append_row-IsDistinctRows [] row h a = (tt, tt)
append_row-IsDistinctRows (r ∷ rows) row h a = (
  All-append (λ q. r.key ≢ q.key) rows (row ∷ []) h.0 (a.0, tt),
  append_row-IsDistinctRows rows row h.1 a.1,
)

delete_key-All :
    (k : Bytes) (rows : List Row) → All (λ r. r.key ≢ k) (delete_where (has_key k) rows)
delete_key-All k [] = tt
delete_key-All k (r ∷ rows) = ground (arith, ==_iff k r.key, delete_key-All k rows)

pub replace_row-IsDistinctRows :
    (row : Row) (rows : List Row) → IsDistinctRows rows → IsDistinctRows (replace_row row rows)
replace_row-IsDistinctRows row rows h =
    append_row-IsDistinctRows (delete_where (has_key row.key) rows) row
      (select_where-IsDistinctRows (λ r. not (has_key row.key r)) rows h)
      (delete_key-All row.key rows)

touch_row-All :
    (k : Bytes) (now : ℤ) (x : Option ℤ) (j : Bytes) (rows : List Row)
    → All (λ q. j ≢ q.key) rows
    → All (λ q. j ≢ q.key) (touch_row k now x rows)
unfolding touch_row
touch_row-All k now x j [] h = tt
touch_row-All k now x j (r ∷ rows) h = ground (arith, touch_row-All k now x j rows h.1)

pub touch_row-IsDistinctRows :
    (k : Bytes) (now : ℤ) (x : Option ℤ) (rows : List Row)
    → IsDistinctRows rows
    → IsDistinctRows (touch_row k now x rows)
unfolding touch_row
touch_row-IsDistinctRows k now x [] h = tt
touch_row-IsDistinctRows k now x (r ∷ rows) h =
    let rest : All (λ q. r.key ≢ q.key) (touch_row k now x rows)
        × IsDistinctRows (touch_row k now x rows) =
      (touch_row-All k now x r.key rows h.0, touch_row-IsDistinctRows k now x rows h.1) in
    elim (Bool-cases (has_key k r)) [ inl here ↦ rw here rest | inr there ↦ rw there rest ]

pub length-touch_row :
    (k : Bytes) (now : ℤ) (x : Option ℤ) (rows : List Row)
    → length (touch_row k now x rows) ≡ length rows
unfolding touch_row
length-touch_row k now x [] = refl
length-touch_row k now x (r ∷ rows) = ap suc (length-touch_row k now x rows)

-- Eviction deletes as many rows as it selects.
absent_once :
    (r : Row) (rows : List Row)
    → All (λ q. r.key ≢ q.key) rows
    → count_where (has_key r.key) rows ≡ 0
absent_once r [] h = refl
absent_once r (q ∷ rows) h = ground (arith, ==_iff r.key q.key, absent_once r rows h.1)

-- Each row's key selects one row.
IsSingle : List Row → Row → Type 0
IsSingle rows r = count_where (has_key r.key) rows ≡ 1

IsSingle-later :
    (q : Row) (rows some_rows : List Row)
    → All (λ r. q.key ≢ r.key) some_rows
    → All (IsSingle rows) some_rows
    → All (IsSingle (q ∷ rows)) some_rows
unfolding IsSingle
IsSingle-later q rows [] d h = tt
IsSingle-later q rows (r ∷ rs) d h =
    (ground (arith, ==_iff r.key q.key, h.0, d.0), IsSingle-later q rows rs d.1 h.1)

rows-IsSingle : (rows : List Row) → IsDistinctRows rows → All (IsSingle rows) rows
unfolding IsSingle
rows-IsSingle [] h = tt
rows-IsSingle (r ∷ rows) h = (
  ground (arith, ==_iff r.key r.key, absent_once r rows h.0),
  IsSingle-later r rows rows h.0 (rows-IsSingle rows h.1),
)

-- Keys that are not in a list of keys do not select its rows.
key_in_apart :
    (k : Bytes) (r : Row) (ks : List Bytes)
    → All (λ j. k ≢ j) ks
    → has_key k r ≡ true
    → key_in ks r ≡ false
key_in_apart k r [] h same = refl
key_in_apart k r (j ∷ ks) h same =
    ground (arith, ==_iff k r.key, ==_iff j r.key, key_in_apart k r ks h.1 same, h.0)

count-key_in :
    (k : Bytes) (ks : List Bytes) (rows : List Row)
    → All (λ j. k ≢ j) ks
    → count_where (key_in (k ∷ ks)) rows
      ≡ count_where (has_key k) rows + count_where (key_in ks) rows
count-key_in k ks [] h = refl
count-key_in k ks (r ∷ rows) h = elim (Bool-cases (has_key k r)) [
  | inl same ↦ rw (same, key_in_apart k r ks h same) (omega (arith, count-key_in k ks rows h))
  | inr other ↦ rw other (omega (arith, count-key_in k ks rows h))
]

abbrev keys_of : List Row → List Bytes
keys_of rows = map (λ r. r.key) rows

keys_of-All : (k : Bytes) (rs : List Row) → All (λ q. k ≢ q.key) rs → All (λ j. k ≢ j) (keys_of rs)
keys_of-All k [] h = tt
keys_of-All k (r ∷ rs) h = (h.0, keys_of-All k rs h.1)

count_selected :
    (rs rows : List Row)
    → IsDistinctRows rs
    → All (IsSingle rows) rs
    → count_where (key_in (keys_of rs)) rows ≡ length rs
unfolding IsSingle
count_selected [] [] d h = refl
count_selected [] (q ∷ rows) d h = omega (arith, count_selected [] rows tt tt)
count_selected (r ∷ rs) rows d h = omega (
  arith,
  count-key_in r.key (keys_of rs) rows (keys_of-All r.key rs d.0),
  count_selected rs rows d.1 h.1,
  h.0,
)

take-All : (P : Row → Type 0) (n : ℕ) (rows : List Row) → All P rows → All P (take n rows)
take-All P zero rows h = tt
take-All P (suc n) [] h = tt
take-All P (suc n) (r ∷ rows) h = (h.0, take-All P n rows h.1)

take-IsDistinctRows : (n : ℕ) (rows : List Row) → IsDistinctRows rows → IsDistinctRows (take n rows)
take-IsDistinctRows zero rows h = tt
take-IsDistinctRows (suc n) [] h = tt
take-IsDistinctRows (suc n) (r ∷ rows) h =
    (take-All (λ q. r.key ≢ q.key) n rows h.0, take-IsDistinctRows n rows h.1)

length-take : (n : ℕ) (rows : List Row) → n ≤ length rows → length (take n rows) ≡ n
length-take zero rows h = refl
length-take (suc n) [] h = absurd (omega arith)
length-take (suc n) (r ∷ rows) h = omega (arith, length-take n rows (omega arith))

module _ {K O : Type 0} (settings : Settings K O)
    (ordering : IsOrdering settings.oldest_first) where
  evicted-le :
      (m : ℕ) (rows : List Row)
      → IsDistinctRows rows
      → length (evict_rows settings (some m) rows) ≤ m
  evicted-le m rows h = elim (Bool-cases (leb (length rows) m)) [
    | inl fits ↦ rw fits (ground arith)
    | inr over ↦
        let old = take (length rows - m) (settings.oldest_first rows) in
        let (same_length, distinct, same_rows) = ordering rows in
        let selected =
          count_selected old rows (take-IsDistinctRows _ _ (distinct h))
            (take-All (IsSingle rows) _ _ (same_rows (IsSingle rows) (rows-IsSingle rows h))) in
        let more : m < length rows = ground arith in
        rw over (
          omega (
            arith,
            length-delete_where (key_in (keys_of old)) rows,
            selected,
            length-take (length rows - m) (settings.oldest_first rows) (omega (arith, same_length)),
            more,
          ))
  ]

  pub evict_rows-FitsRows :
      (limit : Option ℕ) (rows old : List Row)
      → IsDistinctRows rows
      → FitsRows limit old
      → FitsRows limit (evict_rows settings limit rows)
  evict_rows-FitsRows none rows old h f = tt
  evict_rows-FitsRows (some m) rows old h f = (f.0, evicted-le m rows h)

  pub evict_rows-IsDistinctRows :
      (limit : Option ℕ) (rows : List Row)
      → IsDistinctRows rows
      → IsDistinctRows (evict_rows settings limit rows)
  evict_rows-IsDistinctRows none rows h = h
  evict_rows-IsDistinctRows (some m) rows h = elim (Bool-cases (leb (length rows) m)) [
    | inl fits ↦ rw fits h
    | inr over ↦ rw over (select_where-IsDistinctRows _ rows h)
  ]
