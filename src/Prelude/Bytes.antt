-- ===== src/Prelude/Bytes.antt =====
-- Python's `bytes`: a list of numbers, with its equality and its prefixes.
use Prim.Native.Nat.{ℕ}
use mathlib.Core.List.{List, [], ◌∷◌}
use mathlib.Core.Bool.{Bool, true, false, ◌&&◌}
use mathlib.Core.Logic.{◌↔◌}
use mathlib.Core.Path.{◌≡◌}
use native.Mathlib.Omega.{arith}
use pydecorators.Prelude.Tests.{nat_beq, nat_beq_iff}
use pydecorators.Prelude.Equality.{Hashable}

abbrev pub Bytes : Type 0
Bytes = List ℕ

abbrev pub bytes_equals : Bytes → Bytes → Bool
bytes_equals [] [] = true
bytes_equals (m ∷ xs) (n ∷ ys) = nat_beq m n && bytes_equals xs ys
bytes_equals _ _ = false

pub bytes_equals_iff : (xs ys : Bytes) → (bytes_equals xs ys ≡ true) ↔ (xs ≡ ys)
bytes_equals_iff [] [] = ground arith
bytes_equals_iff [] (n ∷ ys) = ground arith
bytes_equals_iff (m ∷ xs) [] = ground arith
bytes_equals_iff (m ∷ xs) (n ∷ ys) = ground (arith, nat_beq_iff m n, bytes_equals_iff xs ys)

instance abbrev pub bytes_eq : Hashable Bytes
bytes_eq = record { equals = bytes_equals; equals_iff = bytes_equals_iff }
