-- ===== src/RedisCache/Tests/Server.antt =====
-- A server for the tests: one dictionary, and a clock that ticks at each command.
use Prim.Native.Char.{code}
use pydecorators.Prelude.{
  ℕ, suc, ◌+◌, Bool, true, false, ◌&&◌, Option, none, some, List, [], ◌∷◌, String, ◌==◌, string_eq,
  nat_beq, Bool-cases, inl, inr, All, ltb, subst, sym, arith, ==_iff, if◌then◌else◌,
}
use pydecorators.Prelude.Int.{ℤ, pos, pos_part}
use pydecorators.Prelude.Dict.{Dict, lookup, insert, erase}
use pydecorators.Prelude.Bytes.{Bytes}
use pydecorators.Prelude.Effect.{returned}
use pydecorators.Exceptions.{Exn}
use pydecorators.RedisCache.{Reply, bytes_reply, str_reply, int_reply, Client}
use pydecorators.RedisCache.Laws.{IsRedis, Stored, IsStored}
use pydecorators.RedisCache.Tests.Codec.{settings}

-- A value or a counter, and when it expires.
pub data Cell : Type 0 where
  value : Bytes → Cell
  counter : ℕ → Cell

pub record Database : Type 0 where
  pub entries : Dict String (Cell × Option ℤ)
  pub clock : ℕ

abbrev tick : Database → Database
tick s = record s { clock = suc s.clock }

abbrev reply_of : Cell → Reply
reply_of (value b) = bytes_reply b
reply_of (counter n) = int_reply (pos n)

abbrev is_live : ℕ → Option ℤ → Bool
is_live now none = true
is_live now (some t) = ltb now (pos_part t)

abbrev answer_of : ℕ → Option (Cell × Option ℤ) → Option Reply
answer_of now none = none
answer_of now (some (cell, expiry)) = if is_live now expiry then some (reply_of cell) else none

abbrev expiry_at : ℕ → Option ℤ → Option ℤ
expiry_at now none = none
expiry_at now (some ex) = some (pos (now + pos_part ex))

abbrev count_of : Option (Cell × Option ℤ) → ℕ
count_of (some (counter n, _)) = n
count_of _ = 0

-- `*` matches any rest.
abbrev is_match : String → String → Bool
is_match String.[] String.[] = true
is_match String.[] (String.◌∷◌ d s) = false
is_match (String.◌∷◌ c p) String.[] = nat_beq (code c) b'*'
is_match (String.◌∷◌ c p) (String.◌∷◌ d s) =
    let rest = is_match p s in
    if nat_beq (code c) b'*' then true else nat_beq (code c) (code d) && rest

abbrev matches : String → Dict String (Cell × Option ℤ) → List Reply
matches pattern [] = []
matches pattern ((n, _) ∷ d) =
    let rest = matches pattern d in if is_match pattern n then str_reply n ∷ rest else rest

abbrev erase_names : List String → Dict String (Cell × Option ℤ) → Dict String (Cell × Option ℤ)
erase_names [] d = d
erase_names (n ∷ ns) d = erase_names ns (erase n d)

abbrev pub client : Client Database (Exn ℕ)
client = record {
  get = λ name s. (returned (answer_of s.clock (lookup name s.entries)), tick s);
  set = λ name b ex s. (
    returned tt,
    tick (record s { entries = insert name (value b, expiry_at s.clock ex) s.entries }),
  );
  delete = λ names s. (returned tt, tick (record s { entries = erase_names names s.entries }));
  incr = λ name s.
      let n = suc (count_of (lookup name s.entries)) in
      (returned (pos n), tick (record s { entries = insert name (counter n, none) s.entries }));
  scan_iter = λ pattern s. (returned (matches pattern s.entries), tick s);
}

module _ (Q : Stored) where
  abbrev IsStoredCell : String → Cell → Type 0
  IsStoredCell name (value b) = Q name b
  IsStoredCell name (counter n) = Q name []

  abbrev IsStoredEntry : String × (Cell × Option ℤ) → Type 0
  IsStoredEntry entry = IsStoredCell entry.0 entry.1.0

  reply_IsStored :
      (name : String) (cell : Cell)
      → IsStoredCell name cell
      → IsStored settings Q name (some (reply_of cell))
  reply_IsStored name (value b) h = h
  reply_IsStored name (counter n) h = h

  answer_IsStored :
      (now : ℕ) (name : String) (d : Dict String (Cell × Option ℤ))
      → All IsStoredEntry d
      → IsStored settings Q name (answer_of now (lookup name d))
  unfolding lookup
  answer_IsStored now name [] h = tt
  answer_IsStored now name ((j, (cell, expiry)) ∷ d) h = elim (Bool-cases (name == j)) [
    | inr other ↦ rw other (answer_IsStored now name d h.1)
    | inl same ↦ elim (Bool-cases (is_live now expiry)) [
      | inl live ↦
          rw (same, live)
            (reply_IsStored name cell
              (subst (λ i. IsStoredCell i cell) (sym ((==_iff name j).0 same)) h.0))
      | inr dead ↦ rw (same, dead) tt
    ]
  ]

  insert_IsStored :
      (name : String) (cell : Cell) (ex : Option ℤ) (d : Dict String (Cell × Option ℤ))
      → IsStoredCell name cell
      → All IsStoredEntry d
      → All IsStoredEntry (insert name (cell, ex) d)
  unfolding insert
  insert_IsStored name cell ex [] p h = (p, tt)
  insert_IsStored name cell ex ((j, v) ∷ d) p h = elim (Bool-cases (name == j)) [
    | inl same ↦ rw same (subst (λ i. IsStoredCell i cell) ((==_iff name j).0 same) p, h.1)
    | inr other ↦ rw other (h.0, insert_IsStored name cell ex d p h.1)
  ]

  erase_IsStored :
      (name : String) (d : Dict String (Cell × Option ℤ))
      → All IsStoredEntry d
      → All IsStoredEntry (erase name d)
  unfolding erase
  erase_IsStored name [] h = tt
  erase_IsStored name ((j, v) ∷ d) h = ground (arith, erase_IsStored name d h.1)

  erase_names_IsStored :
      (names : List String) (d : Dict String (Cell × Option ℤ))
      → All IsStoredEntry d
      → All IsStoredEntry (erase_names names d)
  erase_names_IsStored [] d h = h
  erase_names_IsStored (n ∷ ns) d h = erase_names_IsStored ns (erase n d) (erase_IsStored n d h)

  cells_for_anything :
      ((n : String) (b : Bytes) → Q n b) → (d : Dict String (Cell × Option ℤ)) → All IsStoredEntry d
  cells_for_anything q [] = tt
  cells_for_anything q ((n, (value b, _)) ∷ d) = (q n b, cells_for_anything q d)
  cells_for_anything q ((n, (counter m, _)) ∷ d) = (q n [], cells_for_anything q d)

pub redis : IsRedis client settings (λ _. ⊥)
redis = record {
  Stores = λ Q s. All (IsStoredEntry Q) s.entries;
  stores_anything = λ Q s q. cells_for_anything Q q s.entries;
  get_stores = λ Q name s h. (answer_IsStored Q s.clock name s.entries h, h);
  set_stores = λ Q name b ex q s h. (tt, insert_IsStored Q name (value b) _ s.entries q h);
  delete_stores = λ Q names s h. (tt, erase_names_IsStored Q names s.entries h);
  incr_stores =
      λ Q name q s h. (tt, insert_IsStored Q name (counter _) none s.entries (q (pos 0)) h);
  scan_iter_stores = λ Q pattern s h. (tt, h);
}

abbrev pub server : Database
server = record { entries = []; clock = 0 }

pub empty_server : (Q : Stored) → redis.Stores Q server
unfolding redis
empty_server Q = tt
