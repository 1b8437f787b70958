-- ===== src/Prelude/Table.antt =====
-- Tables of a database: lists of rows, and the statements on them.
use Prim.Native.Nat.{ℕ, zero, suc, ◌+◌, ◌≤◌}
use mathlib.Core.List.{List, [], ◌∷◌}
use mathlib.Core.Bool.{Bool, not}
use mathlib.Core.Path.{◌≡◌, refl}
use native.Mathlib.Omega.{arith}
use pydecorators.Prelude.Tests.{if◌then◌else◌}
use pydecorators.Prelude.Lists.{length, All}

module _ {R : Type 0} where
  -- `SELECT ... WHERE p`
  abbrev pub select_where : (R → Bool) → List R → List R
  select_where p [] = []
  select_where p (r ∷ rows) = let rest = select_where p rows in if p r then r ∷ rest else rest

  -- `DELETE ... WHERE p`
  abbrev pub delete_where : (R → Bool) → List R → List R
  delete_where p rows = select_where (λ r. not (p r)) rows

  -- the `rowcount` of that `DELETE`
  abbrev pub count_where : (R → Bool) → List R → ℕ
  count_where p [] = 0
  count_where p (r ∷ rows) = (if p r then 1 else 0) + count_where p rows

  -- `LIMIT n`, and Python's `rows[:n]`
  abbrev pub take : ℕ → List R → List R
  take zero rows = []
  take (suc n) [] = []
  take (suc n) (r ∷ rows) = r ∷ take n rows

  -- What is deleted and what is left make up the table.
  pub length-delete_where :
      (p : R → Bool) (rows : List R)
      → length (delete_where p rows) + count_where p rows ≡ length rows
  length-delete_where p [] = refl
  length-delete_where p (r ∷ rows) = ground (arith, length-delete_where p rows)

  pub select_where-All :
      (P : R → Type 0) (p : R → Bool) (rows : List R) → All P rows → All P (select_where p rows)
  select_where-All P p [] h = tt
  select_where-All P p (r ∷ rows) h = ground (arith, select_where-All P p rows h.1)

  -- No row that the statement deletes is left.
  pub count_where-delete_where :
      (p : R → Bool) (rows : List R) → count_where p (delete_where p rows) ≡ 0
  count_where-delete_where p [] = refl
  count_where-delete_where p (r ∷ rows) = ground (arith, count_where-delete_where p rows)

  -- Deleting rows leaves at most as many rows of another kind.
  pub count_where-select_where-le :
      (p q : R → Bool) (rows : List R) → count_where p (select_where q rows) ≤ count_where p rows
  count_where-select_where-le p q [] = omega arith
  count_where-select_where-le p q (r ∷ rows) = ground (arith, count_where-select_where-le p q rows)
