-- ===== src/RateLimit/Ids.antt =====
-- The ids of runtime windows: the id of a sliding window, or the text `{id}:calendar:{start}` of a
-- calendar bucket, kept as its two parts: buckets start at whole seconds, so `int` loses nothing.
use Prim.Native.String.{String}
use pydecorators.Prelude.{
  ◌≡◌, ◌↔◌, Bool, true, false, arith, Hashable, ◌==◌, ==_iff, string_eq, nat_beq, if◌then◌else◌,
}
use pydecorators.Prelude.Int.{ℤ, pos, negsuc}

pub data WindowId : Type 0 where
  plain : String → WindowId
  calendar : String → ℤ → WindowId

abbrev pub int_equals : ℤ → ℤ → Bool
int_equals (pos m) (pos n) = nat_beq m n
int_equals (negsuc m) (negsuc n) = nat_beq m n
int_equals _ _ = false

int_equals_iff : (m n : ℤ) → (int_equals m n ≡ true) ↔ (m ≡ n)
int_equals_iff m n = ground arith

abbrev pub id_equals : WindowId → WindowId → Bool
id_equals (plain s) (plain t) = s == t
id_equals (calendar s m) (calendar t n) = if s == t then int_equals m n else false
id_equals _ _ = false

pub id_equals_iff : (x y : WindowId) → (id_equals x y ≡ true) ↔ (x ≡ y)
id_equals_iff (plain s) (plain t) = ground (arith, ==_iff s t)
id_equals_iff (calendar s m) (calendar t n) = ground (arith, ==_iff s t, int_equals_iff m n)
id_equals_iff (plain s) (calendar t n) = ground arith
id_equals_iff (calendar s m) (plain t) = ground arith

instance abbrev pub id_eq : Hashable WindowId
id_eq = record { equals = id_equals; equals_iff = id_equals_iff }
