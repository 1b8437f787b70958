-- ===== src/RedisCache/Tests/Codec.antt =====
-- A codec for the tests, in unary.
use Prim.Native.Char.{char, code}
use pydecorators.Prelude.{
  ℕ, zero, suc, ◌≡◌, refl, Bool, true, false, Option, none, some, [], ◌∷◌, String, string_eq,
  nat_beq, ap, subst, arith, if◌then◌else◌,
}
use text.Mathlib.TextEquality.{eq_iff}
use pydecorators.Prelude.Int.{ℤ, pos, negsuc}
use pydecorators.Prelude.Bytes.{Bytes}
use pydecorators.RedisCache.{
  Settings, Json, object, member, no_members, string, boolean, integer, envelope, entry_key,
}
use pydecorators.RedisCache.Laws.{IsCodec}

-- The concrete texts of bytes: each number in unary.
abbrev put : ℕ → String → String
put zero s = String.◌∷◌ (char b'.' tt) s
put (suc n) s = String.◌∷◌ (char b'a' tt) (put n s)

abbrev bump : Bytes → Bytes
bump [] = []
bump (n ∷ ns) = suc n ∷ ns

abbrev to_unary : Bytes → String
to_unary [] = ""
to_unary (n ∷ ns) = put n (to_unary ns)

abbrev of_unary : String → Bytes
of_unary String.[] = []
of_unary (String.◌∷◌ c s) = if nat_beq (code c) b'a' then bump (of_unary s) else 0 ∷ of_unary s

of_unary-put : (n : ℕ) (s : String) → of_unary (put n s) ≡ n ∷ of_unary s
of_unary-put zero s = refl
of_unary-put (suc n) s = ap bump (of_unary-put n s)

of_unary-to_unary : (ns : Bytes) → of_unary (to_unary ns) ≡ ns
of_unary-to_unary [] = refl
of_unary-to_unary (n ∷ ns) = cc (of_unary-put n (to_unary ns), of_unary-to_unary ns)

abbrev make_envelope : Bool → ℤ → Bytes → Json
make_envelope b n payload = object (
    member "schema" (string "pydecorators.redis_cache.v1") (
      member "serializer_content_type" (string "application/number") (
        member "is_exception" (boolean b) (
          member "last_accessed" (integer n)
            (member "payload" (string (to_unary payload)) no_members)))))

abbrev dump : Json → Bytes
dump
      (object (
        member _ _ (
          member _ _
            (member _ (boolean b) (member _ (integer (pos n)) (member _ (string p) _)))))) =
    (if b then 1 else 0) ∷ 0 ∷ n ∷ of_unary p
dump
      (object (
        member _ _ (
          member _ _
            (member _ (boolean b) (member _ (integer (negsuc n)) (member _ (string p) _)))))) =
    (if b then 1 else 0) ∷ 1 ∷ n ∷ of_unary p
dump _ = []

abbrev load : Bytes → Option Json
load (b ∷ zero ∷ n ∷ payload) = some (make_envelope (nat_beq b 1) (pos n) payload)
load (b ∷ suc _ ∷ n ∷ payload) = some (make_envelope (nat_beq b 1) (negsuc n) payload)
load _ = none

abbrev load_number : Bytes → Option ℕ
load_number (v ∷ []) = some v
load_number _ = none

abbrev pub settings : Settings Bool ℕ
settings = record {
  key_prefix = "p";
  ttl = some (pos 100);
  maxsize = some 1;
  serializer = record {
    content_type = "application/number";
    dumps = λ v. some (v ∷ []);
    loads = load_number;
  };
  pickle_key = λ k. some ((if k then 1 else 0) ∷ []);
  sha256 = λ b. elim b [ [] ↦ "" | n ∷ _ ↦ if nat_beq n 1 then "a" else "b" ];
  encode_text = λ s. [];
  decode_text = λ b. none;
  decode_ascii = λ b. none;
  decimal = λ n. "0";
  parse_int = λ s. none;
  dump_json = dump;
  load_json = load;
  b64encode = to_unary;
  b64decode = λ s. some (of_unary s);
  str_of = λ v. "";
  sorted = λ entries. entries;
  built_in = λ b. 99;
}

json_loaded :
    (b : Bool) (n : ℤ) (payload : Bytes)
    → load (dump (envelope settings b n payload)) ≡ some (envelope settings b n payload)
json_loaded true (pos n) payload = rw (of_unary-to_unary payload) refl
json_loaded true (negsuc n) payload = rw (of_unary-to_unary payload) refl
json_loaded false (pos n) payload = rw (of_unary-to_unary payload) refl
json_loaded false (negsuc n) payload = rw (of_unary-to_unary payload) refl

abbrev or_nothing : Option Bytes → Option ℕ
or_nothing none = none
or_nothing (some payload) = load_number payload

keys_apart :
    (key key' : Bool) (name : String)
    → entry_key settings key ≡ some name
    → entry_key settings key' ≡ some name
    → key ≡ key'
keys_apart true true name h h' = refl
keys_apart false false name h h' = refl
keys_apart true false name h h' = ground (arith, h, h', eq_iff "p:entry:a" "p:entry:b")
keys_apart false true name h h' = ground (arith, h, h', eq_iff "p:entry:a" "p:entry:b")

pub codec : IsCodec settings
codec = record {
  json_loaded = json_loaded;
  base64_decoded = λ payload. ap some (of_unary-to_unary payload);
  loads_dumped = λ v payload h. subst (λ o. or_nothing o ≡ some v) h refl;
  keys_apart = keys_apart;
}
