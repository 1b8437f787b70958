-- ===== src/RedisCache/Methods.antt =====
-- src/pydecorators/redis_backend.py: the methods of `RedisCacheBackend`, as sequences of calls of the
-- client.
use pydecorators.Prelude.{
  ℕ, ◌-◌, Bool, true, false, Option, none, some, List, [], ◌∷◌, ◌++◌, map, String, leb, length,
  if◌then◌else◌,
}
use pydecorators.Prelude.Int.{ℤ, pos, pos_part}
use pydecorators.Prelude.Effect.{Outcome, returned, raised, Action, pure, raise, ◌>>=◌, ◌>>◌}
use pydecorators.Prelude.Bytes.{Bytes}
use pydecorators.Prelude.Table.{take}
use pydecorators.Exceptions.{Exn, cache_serialization_error, foreign}
use pydecorators.MemoryCache.{CacheEntry}
use pydecorators.CacheBackend.{CacheBackend}
use pydecorators.RedisCache.{
  Reply, Client, Settings, Json, boolean, integer, real, infinity, string, object, attribute_error,
  overflow_error, value_error, get_member, to_bytes, to_text, to_int, stats_key, entry_key,
  entry_pattern, envelope, decode_entry,
}

-- `CacheInfo`, with whatever integers stand in the counters.
pub record Statistics : Type 0 where
  pub hits : ℤ
  pub misses : ℤ
  pub maxsize : Option ℕ
  pub currsize : ℕ

module _ {K O : Type 0} (settings : Settings K O) where
  abbrev pub or_zero : Option ℤ → Outcome (Exn O) ℤ
  or_zero none = returned (pos 0)
  or_zero (some n) = returned n

  -- `int(value)`, where a `TypeError` and a `ValueError` give 0, and an `OverflowError` is passed on.
  abbrev pub int_of : Json → Outcome (Exn O) ℤ
  int_of (boolean true) = returned (pos 1)
  int_of (integer n) = returned n
  int_of (real whole is_zero) = returned whole
  int_of infinity = raised (foreign (settings.built_in overflow_error))
  int_of (string s) = or_zero (settings.parse_int s)
  int_of _ = returned (pos 0)

  abbrev pub int_of_member : Option Json → Outcome (Exn O) ℤ
  int_of_member none = returned (pos 0)
  int_of_member (some value) = int_of value

  -- `int(envelope.get("last_accessed", 0))`; other values than mappings have no `get`.
  abbrev pub access_of : Option Json → Outcome (Exn O) ℤ
  access_of none = returned (pos 0)
  access_of (some (object members)) = int_of_member (get_member "last_accessed" members)
  access_of (some other) = raised (foreign (settings.built_in attribute_error))

  abbrev pub to_texts : List Reply → Option (List String)
  to_texts [] = some []
  to_texts (reply ∷ replies) = elim (to_text settings reply) [
    | none ↦ none
    | some name ↦ elim (to_texts replies) [ none ↦ none | some names ↦ some (name ∷ names) ]
  ]

module _ {S K O : Type 0} (client : Client S (Exn O)) (settings : Settings K O) where
  abbrev pub value_or_raise : {A : Type 0} → Option A → Action S (Exn O) A
  value_or_raise none = raise (foreign (settings.built_in value_error))
  value_or_raise (some a) = pure a

  abbrev pub outcome_action : {A : Type 0} → Outcome (Exn O) A → Action S (Exn O) A
  outcome_action (returned a) = pure a
  outcome_action (raised e) = raise e

  -- `_scan_keys`, on the entries
  abbrev pub scan_keys : Action S (Exn O) (List String)
  scan_keys = client.scan_iter (entry_pattern settings) >>= λ replies.
      value_or_raise (to_texts settings replies)

  -- `_increment`
  abbrev pub increment : String → Action S (Exn O) (Unit {0})
  increment name = client.incr (stats_key settings name) >> pure tt

  -- `_access_counter`
  abbrev pub access_counter : Action S (Exn O) ℤ
  access_counter = client.incr (stats_key settings "counter")

  abbrev pub encode_payload : Bool → Option Bytes → Action S (Exn O) Bytes
  encode_payload is_exception none =
      raise (cache_serialization_error "failed to serialize cache value")
  encode_payload is_exception (some payload) =
      access_counter >>= λ n. pure (settings.dump_json (envelope settings is_exception n payload))

  -- `_encode_entry`
  abbrev pub encode_entry : O → Bool → Action S (Exn O) Bytes
  encode_entry value is_exception = encode_payload is_exception (settings.serializer.dumps value)

  -- `_touch_entry`, and the first half of `_set_entry`
  abbrev pub write_entry : String → O → Bool → Action S (Exn O) (Unit {0})
  write_entry name value is_exception = encode_entry value is_exception >>= λ envelope_data.
      client.set name envelope_data settings.ttl

  -- one round of the loop of `_evict_if_needed`, before the others
  abbrev pub order_entry :
      String
      → Action S (Exn O) (List (ℤ × String))
      → Option Reply
      → Action S (Exn O) (List (ℤ × String))
  order_entry name others none = others
  order_entry name others (some reply) =
      outcome_action (access_of settings (settings.load_json (to_bytes settings reply))) >>= λ n.
      others >>= λ rest. pure ((n, name) ∷ rest)

  -- the loop of `_evict_if_needed`
  abbrev pub order_entries : List String → Action S (Exn O) (List (ℤ × String))
  order_entries [] = pure []
  order_entries (name ∷ names) = client.get name >>= order_entry name (order_entries names)

  abbrev pub evict_surplus : ℕ → List String → Action S (Exn O) (Unit {0})
  evict_surplus maxsize names =
      if leb (length names) maxsize
      then pure tt
      else order_entries names >>= λ ordered.
          client.delete (map (λ e. e.1) (take (length names - maxsize) (settings.sorted ordered)))

  -- `_evict_if_needed`
  abbrev pub evict_if_needed : Option ℕ → Action S (Exn O) (Unit {0})
  evict_if_needed none = pure tt
  evict_if_needed (some maxsize) = scan_keys >>= evict_surplus maxsize

  -- `_entry_key`, before the rest of a method; a method that asks for it again gets the same name
  abbrev pub with_key :
      {A : Type 0} → Option String → (String → Action S (Exn O) A) → Action S (Exn O) A
  with_key none m = raise (cache_serialization_error "failed to serialize Redis cache key")
  with_key (some name) m = m name

  abbrev pub get_decoded : String → Option (CacheEntry O) → Action S (Exn O) (Option (CacheEntry O))
  get_decoded name none = client.delete (name ∷ []) >> increment "misses" >> pure none
  get_decoded name (some entry) =
      increment "hits" >> write_entry name entry.payload entry.is_exception >> pure (some entry)

  abbrev pub get_reply : String → Option Reply → Action S (Exn O) (Option (CacheEntry O))
  get_reply name none = increment "misses" >> pure none
  get_reply name (some reply) = get_decoded name (decode_entry settings (to_bytes settings reply))

  unfoldable pub get : K → Action S (Exn O) (Option (CacheEntry O))
  get key = with_key (entry_key settings key) (λ name. client.get name >>= get_reply name)

  -- `_set_entry`
  unfoldable pub set_entry : K → O → Bool → Action S (Exn O) (Unit {0})
  set_entry key value is_exception =
      with_key (entry_key settings key)
        (λ name. write_entry name value is_exception >> evict_if_needed settings.maxsize)

  abbrev pub set_value : K → O → Action S (Exn O) (Unit {0})
  set_value key value = set_entry key value false

  abbrev pub set_exception : K → O → Action S (Exn O) (Unit {0})
  set_exception key exception = set_entry key exception true

  unfoldable pub clear : Action S (Exn O) (Unit {0})
  clear = scan_keys >>= λ names. client.delete (
      names
      ++ stats_key settings "hits"
        ∷ stats_key settings "misses"
        ∷ stats_key settings "counter"
        ∷ [])

  -- the value of a counter, for `info`
  abbrev pub read_stat : String → Action S (Exn O) ℤ
  read_stat name =
      client.get (stats_key settings name) >>= λ reply. value_or_raise (to_int settings reply)

  unfoldable pub info : Action S (Exn O) Statistics
  info = read_stat "hits" >>= λ hits. read_stat "misses" >>= λ misses. scan_keys >>= λ names.
      pure (record {
        hits = hits;
        misses = misses;
        maxsize = settings.maxsize;
        currsize = length names;
      })

module _ {S K O : Type 0} (client : Client S (Exn O)) (settings : Settings K O) where
  -- The protocol's counters are natural numbers: a negative one, which only another program writes, is
  -- read as 0.
  abbrev pub redis_backend : CacheBackend S K O
  redis_backend = record {
    get = λ now. get client settings;
    set_value = λ now. set_value client settings;
    set_exception = λ now. set_exception client settings;
    clear = clear client settings;
    info = λ now. info client settings >>= λ i. pure (record {
      hits = pos_part i.hits;
      misses = pos_part i.misses;
      maxsize = i.maxsize;
      currsize = i.currsize;
    });
  }
