-- ===== src/RedisCache.antt =====
-- src/pydecorators/redis_backend.py: the client protocol, the names of keys, and the encoding and decoding
-- of entries; the methods of `RedisCacheBackend` are in Methods. The client, JSON, base64, pickle,
-- SHA-256, Python's `int` on a text, and the order that `sort` gives are parameters. A call of the client
-- may raise. The server has its own clock, which is a part of the client's state.
pub mod Methods
pub mod Validation
pub mod Laws
pub mod Keeps
pub mod Allowed
pub mod Backend
pub mod Transparency
mod Tests
use pydecorators.Prelude.{
  ℕ, zero, Bool, true, false, not, Option, none, some, List, String, append_string, ◌==◌, string_eq,
  if◌then◌else◌,
}
use pydecorators.Prelude.Int.{ℤ, pos}
use pydecorators.Prelude.Effect.{Action}
use pydecorators.Prelude.Bytes.{Bytes}
use pydecorators.MemoryCache.{CacheEntry}
use pydecorators.DiskCache.{Serializer}

-- What a client answers with: `bytes | str | int`.
pub data Reply : Type 0 where
  bytes_reply : Bytes → Reply
  str_reply : String → Reply
  int_reply : ℤ → Reply

-- `RedisCacheClient`
pub record Client (S E : Type 0) : Type 0 where
  pub get : String → Action S E (Option Reply)
  pub set : String → Bytes → Option ℤ → Action S E (Unit {0})
  pub delete : List String → Action S E (Unit {0})
  pub incr : String → Action S E ℤ
  pub scan_iter : String → Action S E (List Reply)

-- What `json.loads` gives. Of an array the code sees whether it is empty, of a finite float its whole
-- part and whether it is zero.
mutual
  pub data Json : Type 0 where
    null : Json
    boolean : Bool → Json
    integer : ℤ → Json
    real : (whole : ℤ) → (is_zero : Bool) → Json
    not_a_number : Json
    infinity : Json
    string : String → Json
    array : (is_empty : Bool) → Json
    object : Members → Json

  pub data Members : Type 0 where
    no_members : Members
    member : String → Json → Members → Members

-- Python's own exceptions that a method may raise.
pub data BuiltIn : Type 0 where
  attribute_error : BuiltIn
  overflow_error : BuiltIn
  value_error : BuiltIn

-- What the backend keeps of its arguments, and the libraries that it calls.
pub record Settings (K O : Type 0) : Type 0 where
  pub key_prefix : String
  pub ttl : Option ℤ
  pub maxsize : Option ℕ
  pub serializer : Serializer O
  pub pickle_key : K → Option Bytes  -- `pickle.dumps`; `none` where it raises
  pub sha256 : Bytes → String  -- the hexadecimal digest
  pub encode_text : String → Bytes  -- UTF-8, and ASCII where the text is
  pub decode_text : Bytes → Option String  -- `none` is a `UnicodeDecodeError`
  pub decode_ascii : Bytes → Option String  -- the same, for ASCII
  pub decimal : ℤ → String  -- `str`, of an int
  pub parse_int : String → Option ℤ  -- `int`, of a text; `none` is a `ValueError`
  pub dump_json : Json → Bytes  -- `json.dumps(...).encode("utf-8")`
  pub load_json : Bytes → Option Json  -- `json.loads(data.decode("utf-8"))`; `none` where it raises
  pub b64encode : Bytes → String
  pub b64decode : String → Option Bytes  -- `none` where the text is not ASCII, or not base64
  pub str_of : Json → String  -- `str`, of what is not a text
  pub sorted : List (ℤ × String) → List (ℤ × String)  -- `list.sort`, on pairs
  pub built_in : BuiltIn → O

-- `mapping[name]`; `none` is a `KeyError`.
abbrev pub get_member : String → Members → Option Json
get_member name no_members = none
get_member name (member n v rest) =
    let found = get_member name rest in if name == n then some v else found

-- `value[name]`, of any value: other than a mapping it raises a `TypeError`.
abbrev pub subscript : String → Json → Option Json
subscript name (object members) = get_member name members
subscript name _ = none

-- `bool(value)`
abbrev pub is_true : Json → Bool
is_true null = false
is_true (boolean b) = b
is_true (integer (pos zero)) = false
is_true (integer n) = true
is_true (real whole is_zero) = not is_zero
is_true not_a_number = true
is_true infinity = true
is_true (string s) = not (s == "")
is_true (array is_empty) = not is_empty
is_true (object no_members) = false
is_true (object (member n v rest)) = true

abbrev pub is_text : String → Json → Bool
is_text expected (string s) = s == expected
is_text expected _ = false

abbrev pub envelope_schema : String
envelope_schema = "pydecorators.redis_cache.v1"

module _ {K O : Type 0} (settings : Settings K O) where
  -- `_to_bytes`
  abbrev pub to_bytes : Reply → Bytes
  to_bytes (bytes_reply b) = b
  to_bytes (str_reply s) = settings.encode_text s
  to_bytes (int_reply n) = settings.encode_text (settings.decimal n)

  -- `_to_text`, on a key; `none` is a `UnicodeDecodeError`.
  abbrev pub to_text : Reply → Option String
  to_text (bytes_reply b) = settings.decode_text b
  to_text (str_reply s) = some s
  to_text (int_reply n) = some (settings.decimal n)

  -- `int`, of bytes or a text
  abbrev pub parse_optional : Option String → Option ℤ
  parse_optional none = none
  parse_optional (some s) = settings.parse_int s

  -- `_to_int`; `none` is a `ValueError`, of which a `UnicodeDecodeError` is one.
  abbrev pub to_int : Option Reply → Option ℤ
  to_int none = some (pos 0)
  to_int (some (int_reply n)) = some n
  to_int (some (bytes_reply b)) = parse_optional (settings.decode_ascii b)
  to_int (some (str_reply s)) = settings.parse_int s

  -- `_stats_key`
  abbrev pub stats_key : String → String
  stats_key name = append_string settings.key_prefix (append_string ":stats:" name)

  abbrev pub entry_name : String → String
  entry_name digest = append_string settings.key_prefix (append_string ":entry:" digest)

  abbrev pub name_of : Option Bytes → Option String
  name_of none = none
  name_of (some key_bytes) = some (entry_name (settings.sha256 key_bytes))

  -- `_entry_key`
  abbrev pub entry_key : K → Option String
  entry_key key = name_of (settings.pickle_key key)

  abbrev pub entry_pattern : String
  entry_pattern = append_string settings.key_prefix ":entry:*"

  -- The envelope that `_encode_entry` dumps.
  abbrev pub envelope : Bool → ℤ → Bytes → Json
  envelope is_exception last_accessed payload = object (
      member "schema" (string envelope_schema) (
        member "serializer_content_type" (string settings.serializer.content_type) (
          member "is_exception" (boolean is_exception) (
            member "last_accessed" (integer last_accessed)
              (member "payload" (string (settings.b64encode payload)) no_members)))))

  -- `str(value)`
  abbrev pub text_of : Json → String
  text_of (string s) = s
  text_of other = settings.str_of other

  -- the entry of a payload, once it is loaded
  abbrev pub loaded : Bool → Option O → Option (CacheEntry O)
  loaded is_exception none = none
  loaded is_exception (some value) =
      some (record { payload = value; expires_at = none; is_exception = is_exception })

  abbrev pub decode_payload : Option Json → Option Bytes → Option (CacheEntry O)
  decode_payload is_exception none = none
  decode_payload none (some payload) = none
  decode_payload (some is_exception) (some payload) =
      loaded (is_true is_exception) (settings.serializer.loads payload)

  abbrev pub b64decode_member : Option Json → Option Bytes
  b64decode_member none = none
  b64decode_member (some value) = settings.b64decode (text_of value)

  abbrev pub has_text : String → Option Json → Bool
  has_text expected none = false
  has_text expected (some value) = is_text expected value

  abbrev pub decode_envelope : Json → Option (CacheEntry O)
  decode_envelope value =
      if not (has_text envelope_schema (subscript "schema" value))
      then none
      else if not
          (has_text settings.serializer.content_type (subscript "serializer_content_type" value))
      then none
      else decode_payload (subscript "is_exception" value)
          (b64decode_member (subscript "payload" value))

  -- `_decode_entry`; `none` is a `CacheSerializationError`, whatever the cause.
  unfoldable pub decode_entry : Bytes → Option (CacheEntry O)
  decode_entry bytes = elim (settings.load_json bytes) [
    | none ↦ none
    | some value ↦ decode_envelope value
  ]
