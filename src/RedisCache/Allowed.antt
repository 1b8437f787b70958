-- ===== src/RedisCache/Allowed.antt =====
-- The methods of `RedisCacheBackend` keep up that whatever the entry of a key can be read as is allowed.
use pydecorators.Prelude.{
  ◌≡◌, refl, Bool, Option, none, some, [], ◌∷◌, String, inl, inr, Option-cases, subst, ==_refl,
  string_eq,
}
use pydecorators.Prelude.Int.{ℤ}
use pydecorators.Prelude.Effect.{Outcome, returned, raised, Action, pure, ◌>>=◌, ◌>>◌}
use pydecorators.Prelude.Triples.{Meets, Triple}
use pydecorators.Prelude.Bytes.{Bytes}
use pydecorators.Exceptions.{Exn}
use pydecorators.MemoryCache.{CacheEntry}
use pydecorators.CacheBackend.{Policy, Allows, IsAnswer}
use pydecorators.RedisCache.{
  Reply, Client, Settings, to_bytes, stats_key, entry_key, entry_name, name_of, to_int, envelope,
  decode_entry,
}
use pydecorators.RedisCache.Methods.{
  write_entry, get, get_reply, get_decoded, with_key, set_entry, evict_if_needed, clear, info,
  increment, read_stat, value_or_raise,
}
use pydecorators.RedisCache.Keeps.{
  IsRedisError, then-Keeps, increment-Keeps, write_entry-Keeps, delete-Keeps, client_get-Keeps,
  evict_if_needed-Keeps, scan_keys-Keeps, value_or_raise-Keeps,
}
use pydecorators.RedisCache.Laws.{IsRedis, IsCodec, Stored, IsStored, stats_key-apart}

module _ {K O : Type 0} (settings : Settings K O) where
  -- Whatever the entry of a key can be read as is allowed.
  abbrev pub IsAllowed : Policy K O → Stored
  IsAllowed P name bytes =
      (key : K) → entry_key settings key ≡ some name → Allows P key (decode_entry settings bytes)

  name_of-entry_name :
      (o : Option Bytes) (name : String)
      → name_of settings o ≡ some name
      → (digest : String) × (name ≡ entry_name settings digest)
  name_of-entry_name none name h = absurd (cc h)
  name_of-entry_name (some b) name h = (settings.sha256 b, cc h)

  counter-IsAllowed :
      (P : Policy K O) (name : String) (bytes : Bytes) → IsAllowed P (stats_key settings name) bytes
  counter-IsAllowed P name bytes key h =
      let (digest, same) =
        name_of-entry_name (settings.pickle_key key) (stats_key settings name) h in
      absurd (stats_key-apart settings name digest same)

  -- What is encoded is decoded again.
  decode-envelope :
      (codec : IsCodec settings) (value : O) (payload : Bytes) (is_exception : Bool) (n : ℤ)
      → settings.serializer.dumps value ≡ some payload
      → decode_entry settings (settings.dump_json (envelope settings is_exception n payload))
        ≡ some (record { payload = value; expires_at = none; is_exception = is_exception })
  unfolding decode_entry
  decode-envelope codec value payload is_exception n dumped =
      rw
        (
          codec.json_loaded is_exception n payload,
          ==_refl settings.serializer.content_type,
          codec.base64_decoded payload,
          codec.loads_dumped value payload dumped,
          decode_entry,
        )
        refl

module _ {S K O : Type 0} (client : Client S (Exn O)) (settings : Settings K O)
    (IsClientError : Exn O → Type 0) (redis : IsRedis client settings IsClientError)
    (codec : IsCodec settings) (P : Policy K O) where
  abbrev Keeps : {A : Type 0} → (A → Type 0) → Action S (Exn O) A → Type 0
  Keeps R m =
      Triple (redis.Stores (IsAllowed settings P)) R
        (IsRedisError client settings IsClientError redis) m

  pub then_allowed :
      {A B : Type 0} (Q : A → Type 0) (R : B → Type 0) (m : Action S (Exn O) A)
      (f : A → Action S (Exn O) B)
      → Keeps Q m
      → ((a : A) → Q a → Keeps R (f a))
      → Keeps R (m >>= f)
  then_allowed =
      then-Keeps client settings IsClientError redis (IsAllowed settings P)
        (counter-IsAllowed settings P)

  increment_allowed : (name : String) → Keeps (λ _. Unit) (increment client settings name)
  increment_allowed =
      increment-Keeps client settings IsClientError redis (IsAllowed settings P)
        (counter-IsAllowed settings P)

  -- An allowed value may be written, under the name of its key.
  may_store :
      (key : K) (name : String) (value : O) (is_exception : Bool) (payload : Bytes) (n : ℤ)
      → entry_key settings key ≡ some name
      → P key is_exception value
      → settings.serializer.dumps value ≡ some payload
      → IsAllowed settings P name (settings.dump_json (envelope settings is_exception n payload))
  may_store key name value b payload n named p dumped key' named' =
      rw (decode-envelope settings codec value payload b n dumped, Allows)
        (subst (λ k. P k b value) (codec.keys_apart key key' name named named') p)

  write_allowed :
      (key : K) (name : String) (value : O) (is_exception : Bool)
      → entry_key settings key ≡ some name
      → P key is_exception value
      → Keeps (λ _. Unit) (write_entry client settings name value is_exception)
  write_allowed key name value b named p =
      write_entry-Keeps client settings IsClientError redis (IsAllowed settings P)
        (counter-IsAllowed settings P) name value b
        (λ payload n dumped. may_store key name value b payload n named p dumped)

  miss_allowed : (key : K) → Keeps (Allows P key) (increment client settings "misses" >> pure none)
  miss_allowed key =
      then_allowed (λ _. Unit) (Allows P key) _ _ (increment_allowed "misses") (λ _ _ s h. (tt, h))

  module _ (key : K) (name : String) (named : entry_key settings key ≡ some name) where
    get_decoded_allowed :
        (o : Option (CacheEntry O))
        → Allows P key o
        → Keeps (Allows P key) (get_decoded client settings name o)
    get_decoded_allowed none a =
        then_allowed (λ _. Unit) (Allows P key) _ _
          (then_allowed (λ _. Unit) (λ _. Unit) _ _
            (delete-Keeps client settings IsClientError redis (IsAllowed settings P)
              (counter-IsAllowed settings P) (name ∷ []))
            (λ _ _. increment_allowed "misses"))
          (λ _ _ s h. (tt, h))
    get_decoded_allowed (some entry) a =
        then_allowed (λ _. Unit) (Allows P key) _ _
          (then_allowed (λ _. Unit) (λ _. Unit) _ _ (increment_allowed "hits")
            (λ _ _. write_allowed key name entry.payload entry.is_exception named a))
          (λ _ _ s h. (a, h))

    get_reply_allowed :
        (o : Option Reply)
        → IsStored settings (IsAllowed settings P) name o
        → Keeps (Allows P key) (get_reply client settings name o)
    get_reply_allowed none a = miss_allowed key
    get_reply_allowed (some r) a =
        get_decoded_allowed (decode_entry settings (to_bytes settings r)) (a key named)

    set_named_allowed :
        (value : O) (is_exception : Bool)
        → P key is_exception value
        → Keeps
            (λ _. Unit)
            (write_entry client settings name value is_exception
              >> evict_if_needed client settings settings.maxsize)
    set_named_allowed value b p =
        then_allowed (λ _. Unit) (λ _. Unit) _ _ (write_allowed key name value b named p)
          (λ _ _.
            evict_if_needed-Keeps client settings IsClientError redis (IsAllowed settings P)
              (counter-IsAllowed settings P) settings.maxsize)

  pub get_allowed : (key : K) → Keeps (Allows P key) (get client settings key)
  unfolding get
  get_allowed key s h = elim (Option-cases (entry_key settings key)) [
    | inl bad ↦ rw (bad, with_key, Meets) (inr tt, h)
    | inr (name, named) ↦
        rw (named, with_key)
          (then_allowed _ (Allows P key) (client.get name) _
            (client_get-Keeps client settings IsClientError redis (IsAllowed settings P)
              (counter-IsAllowed settings P) name)
            (λ o a. get_reply_allowed key name named o a) s h)
  ]

  pub set_entry_allowed :
      (key : K) (value : O) (is_exception : Bool)
      → P key is_exception value
      → Keeps (λ _. Unit) (set_entry client settings key value is_exception)
  unfolding set_entry
  set_entry_allowed key value b p s h = elim (Option-cases (entry_key settings key)) [
    | inl bad ↦ rw (bad, with_key, Meets) (inr tt, h)
    | inr (name, named) ↦ rw (named, with_key) (set_named_allowed key name named value b p s h)
  ]

  pub clear_allowed : Keeps (λ _. Unit) (clear client settings)
  unfolding clear
  clear_allowed =
      then_allowed (λ _. Unit) (λ _. Unit) _ _
        (scan_keys-Keeps client settings IsClientError redis (IsAllowed settings P)
          (counter-IsAllowed settings P))
        (λ names _.
          delete-Keeps client settings IsClientError redis (IsAllowed settings P)
            (counter-IsAllowed settings P) _)

  value_or_raise_allowed : (o : Option ℤ) → Keeps (λ _. Unit) (value_or_raise client settings o)
  value_or_raise_allowed =
      value_or_raise-Keeps client settings IsClientError redis (IsAllowed settings P)
        (counter-IsAllowed settings P)

  read_stat_allowed : (name : String) → Keeps (λ _. Unit) (read_stat client settings name)
  read_stat_allowed name =
      then_allowed _ (λ _. Unit) (client.get (stats_key settings name)) _
        (client_get-Keeps client settings IsClientError redis (IsAllowed settings P)
          (counter-IsAllowed settings P) (stats_key settings name))
        (λ o _. value_or_raise_allowed (to_int settings o))

  pub info_allowed : Keeps (λ _. Unit) (info client settings)
  unfolding info
  info_allowed =
      then_allowed (λ _. Unit) (λ _. Unit) _ _ (read_stat_allowed "hits")
        (λ hits _.
          then_allowed (λ _. Unit) (λ _. Unit) _ _ (read_stat_allowed "misses")
            (λ misses _.
              then_allowed (λ _. Unit) (λ _. Unit) _ _
                (scan_keys-Keeps client settings IsClientError redis (IsAllowed settings P)
                  (counter-IsAllowed settings P))
                (λ names _ s h. (tt, h))))

  pub answers :
      (key : K) (r : Outcome (Exn O) (Option (CacheEntry O)) × S)
      → Meets
          (redis.Stores (IsAllowed settings P))
          (Allows P key)
          (IsRedisError client settings IsClientError redis)
          r
      → redis.Stores (IsAllowed settings P) r.1 × IsAnswer P key r.0
  answers key (returned o, s) h = (h.1, h.0)
  answers key (raised e, s) h = (h.1, tt)
