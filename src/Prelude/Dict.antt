-- ===== src/Prelude/Dict.antt =====
-- Python's `dict` and `OrderedDict`: an association list in insertion order.
use Prim.Native.Nat.{suc}
use mathlib.Core.List.{List, [], ◌∷◌, ◌++◌}
use mathlib.Core.Option.{Option, none, some}
use Prim.Native.Nat.{ℕ, ◌+◌, ◌≤◌}
use mathlib.Core.Path.{◌≡◌, refl, ap}
use native.Mathlib.Omega.{arith}
use pydecorators.Prelude.Tests.{if◌then◌else◌, is_some}
use pydecorators.Prelude.Lists.{length, length-append}
use pydecorators.Prelude.Equality.{Hashable, ◌==◌, ==_iff, ==_refl}

abbrev pub Dict {ℓ κ} : Type ℓ → Type κ → Type (ℓ ⊔ κ)
Dict K V = List (K × V)

module _ {ℓ κ} {K : Type ℓ} {V : Type κ} ⦃e : Hashable K⦄ where
  -- `d.get(k)`
  unfoldable pub lookup : K → Dict K V → Option V
  lookup k [] = none
  lookup k ((j, v) ∷ d) = if k == j then some v else lookup k d

  -- `d[k] = v`: an old key keeps its place, a new one goes to the end.
  unfoldable pub insert : K → V → Dict K V → Dict K V
  insert k v [] = (k, v) ∷ []
  insert k v ((j, w) ∷ d) = if k == j then (j, v) ∷ d else (j, w) ∷ insert k v d

  -- `d.pop(k, None)`
  unfoldable pub erase : K → Dict K V → Dict K V
  erase k [] = []
  erase k ((j, w) ∷ d) = if k == j then d else (j, w) ∷ erase k d

  -- `d.move_to_end(k)`, where the key is present.
  unfoldable pub move_to_end : K → Dict K V → Dict K V
  move_to_end k d = elim (lookup k d) [ none ↦ d | some v ↦ erase k d ++ (k, v) ∷ [] ]

  -- No key stands twice.
  abbrev pub IsDistinct : Dict K V → Type κ
  IsDistinct [] = Unit
  IsDistinct ((k, v) ∷ d) = (lookup k d ≡ none) × IsDistinct d

  pub lookup-insert :
      (k j : K) (v : V) (d : Dict K V)
      → lookup j (insert k v d) ≡ (if j == k then some v else lookup j d)
  unfolding lookup insert
  lookup-insert k j v [] = ground (arith, ==_iff j k)
  lookup-insert k j v ((i, w) ∷ d) =
      ground (arith, ==_iff j k, ==_iff k i, ==_iff j i, lookup-insert k j v d)

  pub lookup-erase :
      (k j : K) (d : Dict K V)
      → IsDistinct d
      → lookup j (erase k d) ≡ (if j == k then none else lookup j d)
  unfolding lookup erase
  lookup-erase k j [] h = ground arith
  lookup-erase k j ((i, w) ∷ d) h =
      ground (arith, ==_iff j k, ==_iff k i, ==_iff j i, lookup-erase k j d h.1, h.0)

  pub lookup-append :
      (j k : K) (v : V) (d : Dict K V)
      → lookup j d ≡ none
      → lookup j (d ++ (k, v) ∷ []) ≡ (if j == k then some v else none)
  unfolding lookup
  lookup-append j k v [] h = refl
  lookup-append j k v ((i, w) ∷ d) h = ground (arith, lookup-append j k v d)

  pub insert-IsDistinct : (k : K) (v : V) (d : Dict K V) → IsDistinct d → IsDistinct (insert k v d)
  unfolding lookup insert
  insert-IsDistinct k v [] h = (refl, tt)
  insert-IsDistinct k v ((i, w) ∷ d) h =
      ground (arith, ==_iff k i, ==_iff i k, insert-IsDistinct k v d h.1, lookup-insert k i v d)

  pub erase-IsDistinct : (k : K) (d : Dict K V) → IsDistinct d → IsDistinct (erase k d)
  unfolding lookup erase
  erase-IsDistinct k [] h = tt
  erase-IsDistinct k ((i, w) ∷ d) h =
      ground (arith, erase-IsDistinct k d h.1, lookup-erase k i d h.1)

  length-insert :
      (k : K) (v : V) (d : Dict K V)
      → length (insert k v d) ≡ (if is_some (lookup k d) then length d else suc (length d))
  unfolding lookup insert
  length-insert k v [] = refl
  length-insert k v ((i, w) ∷ d) = ground (arith, length-insert k v d)

  -- A key that is there is gone, and the dictionary is one shorter.
  pub length-erase :
      (k : K) (v : V) (d : Dict K V) → lookup k d ≡ some v → length (erase k d) + 1 ≡ length d
  unfolding lookup erase
  length-erase k v [] h = cc
  length-erase k v ((i, w) ∷ d) h = ground (arith, length-erase k v d)

  pub length-erase-le : (k : K) (d : Dict K V) → length (erase k d) ≤ length d
  unfolding erase
  length-erase-le k [] = omega arith
  length-erase-le k ((i, w) ∷ d) = ground (arith, length-erase-le k d)

  pub erase_absent : (k : K) (d : Dict K V) → lookup k d ≡ none → erase k d ≡ d
  unfolding lookup erase
  erase_absent k [] h = refl
  erase_absent k ((i, w) ∷ d) h = ground (arith, erase_absent k d)

  pub append-IsDistinct :
      (k : K) (v : V) (d : Dict K V)
      → IsDistinct d
      → lookup k d ≡ none
      → IsDistinct (d ++ (k, v) ∷ [])
  unfolding lookup
  append-IsDistinct k v [] h n = (refl, tt)
  append-IsDistinct k v ((i, w) ∷ d) h n =
      ground (arith, ==_iff k i, ==_iff i k, append-IsDistinct k v d h.1, lookup-append i k v d h.0)

  erase-insert : (k : K) (v : V) (d : Dict K V) → IsDistinct d → erase k (insert k v d) ≡ erase k d
  unfolding insert erase
  erase-insert k v [] h = ground (arith, ==_iff k k)
  erase-insert k v ((i, w) ∷ d) h = ground (arith, erase-insert k v d)

  -- Written, then moved to the end: the key stands last, and the others keep their order.
  pub touch_lem :
      (k : K) (v : V) (d : Dict K V)
      → IsDistinct d
      → move_to_end k (insert k v d) ≡ erase k d ++ (k, v) ∷ []
  unfolding move_to_end
  touch_lem k v d h =
      let found : lookup k (insert k v d) ≡ some v = rw (lookup-insert k k v d, ==_refl k) refl in
      rw (found, move_to_end) (ap (λ r. r ++ (k, v) ∷ []) (erase-insert k v d h))

  lookup-append_found :
      (j k : K) (v w : V) (d : Dict K V)
      → lookup j d ≡ some w
      → lookup j (d ++ (k, v) ∷ []) ≡ some w
  unfolding lookup
  lookup-append_found j k v w [] h = cc
  lookup-append_found j k v w ((i, x) ∷ d) h = ground (arith, lookup-append_found j k v w d)

  lookup-moved :
      (k j : K) (v : V) (d : Dict K V) (o : Option V)
      → IsDistinct d
      → lookup j (erase k d) ≡ o
      → lookup j (erase k d ++ (k, v) ∷ [])
        ≡ (elim o [ none ↦ if j == k then some v else none | some w ↦ some w ])
  lookup-moved k j v d none h found = lookup-append j k v (erase k d) found
  lookup-moved k j v d (some w) h found = lookup-append_found j k v w (erase k d) found

  pub lookup-touched :
      (k j : K) (v : V) (d : Dict K V)
      → IsDistinct d
      → lookup j (move_to_end k (insert k v d)) ≡ (if j == k then some v else lookup j d)
  lookup-touched k j v d h =
      rw (touch_lem k v d h) (
        rw (lookup-moved k j v d (lookup j (erase k d)) h refl, lookup-erase k j d h)
          (ground arith))

  -- How many entries stand behind a key: those that were used since.
  unfoldable pub behind : K → Dict K V → ℕ
  behind k [] = 0
  behind k ((j, v) ∷ d) = if k == j then length d else behind k d

  pub behind-le-length : (k : K) (d : Dict K V) → behind k d ≤ length d
  unfolding behind
  behind-le-length k [] = omega arith
  behind-le-length k ((j, v) ∷ d) = ground (arith, behind-le-length k d)

  pub behind-erase-le : (k q : K) (d : Dict K V) → behind k (erase q d) ≤ behind k d
  unfolding behind erase
  behind-erase-le k q [] = omega arith
  behind-erase-le k q ((j, v) ∷ d) = ground (
    arith,
    behind-erase-le k q d,
    behind-le-length k d,
    length-erase-le q d,
    ==_iff k j,
    ==_iff q j,
  )

  behind-append-le : (k q : K) (v : V) (d : Dict K V) → behind k (d ++ (q, v) ∷ []) ≤ behind k d + 1
  unfolding behind
  behind-append-le k q v [] = ground arith
  behind-append-le k q v ((j, w) ∷ d) =
      ground (arith, behind-append-le k q v d, length-append d ((q, v) ∷ []))

  behind-append_self :
      (k : K) (v : V) (d : Dict K V) → lookup k d ≡ none → behind k (d ++ (k, v) ∷ []) ≡ 0
  unfolding behind lookup
  behind-append_self k v [] h = ground arith
  behind-append_self k v ((j, w) ∷ d) h = ground (arith, behind-append_self k v d)

  -- Using a key puts at most one more entry behind every key.
  pub behind-touched-le :
      (k q : K) (v : V) (d : Dict K V)
      → IsDistinct d
      → behind k (move_to_end q (insert q v d)) ≤ behind k d + 1
  behind-touched-le k q v d h =
      rw (touch_lem q v d h)
        (omega (arith, behind-append-le k q v (erase q d), behind-erase-le k q d))

  -- Nothing stands behind the key that was used last.
  pub behind-touched_self :
      (k : K) (v : V) (d : Dict K V) → IsDistinct d → behind k (move_to_end k (insert k v d)) ≡ 0
  behind-touched_self k v d h =
      rw (touch_lem k v d h) (
        behind-append_self k v (erase k d) (rw (lookup-erase k k d h) (ground (arith, ==_iff k k))))
