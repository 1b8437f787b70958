-- ===== src/RedisCache/Laws.antt =====
-- What the backend relies on: the commands of Redis, and the libraries that encode entries.
use pydecorators.Prelude.{◌≡◌, refl, ◌≢◌, Bool, Option, none, some, List, String, arith}
use text.Mathlib.TextLemmas.{append_cancel_left, append_inj}
use text.Mathlib.TextEquality.{eq_iff}
use pydecorators.Prelude.Int.{ℤ}
use pydecorators.Prelude.Triples.{Triple}
use pydecorators.Prelude.Bytes.{Bytes}
use pydecorators.Exceptions.{Exn}
use pydecorators.RedisCache.{
  Reply, Client, Settings, to_bytes, entry_key, envelope, entry_name, stats_key,
}

-- What is stored under a name, read as bytes.
abbrev pub Stored : Type 1
Stored = String → Bytes → Type 0

abbrev pub IsStored : {K O : Type 0} → Settings K O → Stored → String → Option Reply → Type 0
IsStored settings Q name none = Unit
IsStored settings Q name (some reply) = Q name (to_bytes settings reply)

-- Redis answers with what was set under a name, or with nothing: it may expire or lose a value, and an
-- operation may raise a client's error. A counter is a decimal number. A client may answer in bytes or
-- in text.
pub record IsRedis {S K O : Type 0} (client : Client S (Exn O)) (settings : Settings K O)
    (IsClientError : Exn O → Type 0) : Type 1 where
  pub Stores : Stored → S → Type 0
  pub stores_anything : (Q : Stored) (s : S) → ((n : String) (b : Bytes) → Q n b) → Stores Q s
  pub get_stores :
      (Q : Stored) (name : String)
      → Triple (Stores Q) (IsStored settings Q name) IsClientError (client.get name)
  pub set_stores :
      (Q : Stored) (name : String) (bytes : Bytes) (ex : Option ℤ)
      → Q name bytes
      → Triple (Stores Q) (λ _. Unit) IsClientError (client.set name bytes ex)
  pub delete_stores :
      (Q : Stored) (names : List String)
      → Triple (Stores Q) (λ _. Unit) IsClientError (client.delete names)
  pub incr_stores :
      (Q : Stored) (name : String)
      → ((n : ℤ) → Q name (settings.encode_text (settings.decimal n)))
      → Triple (Stores Q) (λ _. Unit) IsClientError (client.incr name)
  pub scan_iter_stores :
      (Q : Stored) (pattern : String)
      → Triple (Stores Q) (λ _. Unit) IsClientError (client.scan_iter pattern)

-- The codecs give back what they were given, and two keys in use have two digests.
pub record IsCodec {K O : Type 0} (settings : Settings K O) : Type 0 where
  pub json_loaded :
      (is_exception : Bool) (n : ℤ) (payload : Bytes)
      → settings.load_json (settings.dump_json (envelope settings is_exception n payload))
        ≡ some (envelope settings is_exception n payload)
  pub base64_decoded :
      (payload : Bytes) → settings.b64decode (settings.b64encode payload) ≡ some payload
  pub loads_dumped :
      (v : O) (payload : Bytes)
      → settings.serializer.dumps v ≡ some payload
      → settings.serializer.loads payload ≡ some v
  pub keys_apart :
      (key key' : K) (name : String)
      → entry_key settings key ≡ some name
      → entry_key settings key' ≡ some name
      → key ≡ key'

-- No counter has the name of an entry.
pub stats_key-apart :
    {K O : Type 0} (settings : Settings K O) (name digest : String)
    → stats_key settings name ≢ entry_name settings digest
stats_key-apart settings name digest h =
    let tails = append_cancel_left settings.key_prefix _ _ h in
    let heads : ":stats:" ≡ ":entry:" = (append_inj tails refl).0 in
    ground (arith, eq_iff ":stats:" ":entry:", heads)
