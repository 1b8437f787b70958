-- ===== src/RateLimit/Sqlite/Tests.antt =====
-- The refinement at a concrete input: two keys and two windows, over a table that others use as well.
use pydecorators.Prelude.{
  ℕ, ◌≡◌, ◌↔◌, refl, Bool, true, false, Option, none, some, List, [], ◌∷◌, String, map, arith,
  Hashable, ap,
}
use pydecorators.Prelude.Int.{ℤ, pos}
use pydecorators.Prelude.Bytes.{Bytes}
use pydecorators.Prelude.Effect.{returned}
use pydecorators.RateLimit.Ids.{plain}
use pydecorators.RateLimit.{NormalizedWindow, sliding, monday}
use pydecorators.RateLimit.Safety.{Request}
use pydecorators.RateLimit.Sqlite.{Storage, StoredEvent, digest}
use pydecorators.RateLimit.Sqlite.Transactions.{StoresApart, StoresTogether}
use pydecorators.RateLimit.Sqlite.Refinement
use pydecorators.RateLimit.Sqlite.Refinement.{answers, stored_answers, HasBucketKeys}

abbrev same_bool : Bool → Bool → Bool
same_bool true b = b
same_bool false true = false
same_bool false false = true

same_bool_iff : (x y : Bool) → (same_bool x y ≡ true) ↔ (x ≡ y)
same_bool_iff x y = ground arith

instance abbrev bool_eq : Hashable Bool
bool_eq = record { equals = same_bool; equals_iff = same_bool_iff }

abbrev dump : Bool → Option Bytes
dump true = some (1 ∷ [])
dump false = some []

abbrev digest_text : Bytes → String
digest_text [] = "nothing"
digest_text (b ∷ bs) = "something"

-- Two objects that are not equal, and a copy of the first, which is.
data Object : Type 0 where
  first second copy : Object

abbrev key_of : Object → Bool
key_of first = true
key_of second = false
key_of copy = true

abbrev storage : Storage Object
storage = record {
  namespace = "tests";
  pickle_dumps = λ object. dump (key_of object);
  sha256 = digest_text;
}

abbrev bounds : NormalizedWindow ℕ → ℤ → ℤ × ℤ
bounds window now = (now, now)

abbrev window : ℕ → ℕ → String → NormalizedWindow ℕ
window calls period window_id = record {
  calls = calls;
  period = pos period;
  window_id = window_id;
  kind = sliding;
  unit = none;
  timezone = none;
  week_start = monday;
}

abbrev config : List (NormalizedWindow ℕ)
config = window 2 10 "short" ∷ window 3 60 "long" ∷ []

abbrev foreign_row : StoredEvent
foreign_row = record {
  namespace = "others";
  bucket_key = "nothing";
  window_id = plain "short";
  timestamp = pos 1;
  cost = 5;
}

abbrev request : ℕ → Object → ℕ → Request Object
request now key cost = record { now = pos now; key = key; cost = cost }

abbrev requests : List (Request Object)
requests =
    request 1 first 1
    ∷ request 2 second 2
    ∷ request 3 copy 2
    ∷ request 12 first 2
    ∷ request 13 second 1
    ∷ []

dumps_apart :
    (k j : Bool) (stored : String)
    → digest digest_text (dump k) ≡ returned stored
    → digest digest_text (dump j) ≡ returned stored
    → k ≡ j
dumps_apart true true stored h h' = refl
dumps_apart false false stored h h' = refl
dumps_apart true false stored h h' = cc (h, h')
dumps_apart false true stored h h' = cc (h, h')

stores_apart : StoresApart key_of storage bounds config
stores_apart o p = dumps_apart (key_of o) (key_of p)

stores_together : StoresTogether key_of storage bounds config
stores_together o p same = ap (λ k. digest digest_text (dump k)) same

dumped : (k : Bool) → (stored : String) × (digest digest_text (dump k) ≡ returned stored)
dumped true = ("something", refl)
dumped false = ("nothing", refl)

has_bucket_keys : HasBucketKeys key_of storage bounds config
has_bucket_keys o = dumped (key_of o)

stored_answers-answers_example :
    stored_answers key_of storage bounds config requests (foreign_row ∷ [])
    ≡ map returned (answers key_of storage bounds config requests [])
stored_answers-answers_example =
    Refinement.stored_answers-answers key_of storage bounds config requests (pos 0)
      (foreign_row ∷ []) stores_apart stores_together has_bucket_keys
      (omega arith, (omega arith, (omega arith, (omega arith, (omega arith, tt))))) (refl, tt)
