-- ===== src/RedisCache/Keeps.antt =====
-- The methods of `RedisCacheBackend` keep up what is stored, over any client that answers as Redis does,
-- and raise only the client's errors and the backend's own.
use pydecorators.Prelude.{
  ℕ, ◌≡◌, refl, Bool, true, false, Option, none, some, List, [], ◌∷◌, String, ◌⊎◌, inl, inr,
  Bool-cases, string_eq, leb, length,
}
use pydecorators.Prelude.Int.{ℤ, pos}
use pydecorators.Prelude.Effect.{Action, pure, raise, ◌>>=◌}
use pydecorators.Prelude.Triples.{Triple, bind-Triple, raises-Meets}
use pydecorators.Prelude.Bytes.{Bytes}
use pydecorators.Exceptions.{Exn, cache_serialization_error, foreign}
use pydecorators.RedisCache.{
  Reply, Client, Settings, Json, null, boolean, integer, real, not_a_number, infinity, string,
  array, object, get_member, BuiltIn, attribute_error, overflow_error, value_error, entry_pattern,
  to_bytes, stats_key, envelope,
}
use pydecorators.RedisCache.Methods.{
  write_entry, increment, value_or_raise, scan_keys, to_texts, encode_payload, outcome_action,
  int_of, int_of_member, or_zero, access_of, order_entries, order_entry, evict_surplus,
  evict_if_needed,
}
use pydecorators.RedisCache.Laws.{IsRedis, Stored, IsStored}

module _ {K O : Type 0} (settings : Settings K O) where
  -- What the backend may raise besides its client: that something cannot be serialized, or one of
  -- Python's exceptions on values that it did not write itself.
  abbrev pub IsOwnError : Exn O → Type 0
  IsOwnError (cache_serialization_error _) = Unit
  IsOwnError (foreign x) = (b : _) × (x ≡ settings.built_in b)
  IsOwnError _ = ⊥

module _ {S K O : Type 0} (client : Client S (Exn O)) (settings : Settings K O)
    (IsClientError : Exn O → Type 0) (redis : IsRedis client settings IsClientError) where
  -- The client's errors and the backend's own.
  abbrev pub IsRedisError : Exn O → Type 0
  IsRedisError e = IsClientError e ⊎ IsOwnError settings e

  module _ (Q : Stored)
      (counters : (name : String) (bytes : Bytes) → Q (stats_key settings name) bytes) where
    abbrev Keeps : {A : Type 0} → (A → Type 0) → Action S (Exn O) A → Type 0
    Keeps R m = Triple (redis.Stores Q) R IsRedisError m

    from_client :
        {A : Type 0} (R : A → Type 0) (m : Action S (Exn O) A)
        → Triple (redis.Stores Q) R IsClientError m
        → Keeps R m
    from_client R m h s hs =
        raises-Meets (redis.Stores Q) R IsClientError IsRedisError (m s) (λ e x. inl x) (h s hs)

    pub then-Keeps :
        {A B : Type 0} (P : A → Type 0) (R : B → Type 0) (m : Action S (Exn O) A)
        (f : A → Action S (Exn O) B)
        → Keeps P m
        → ((a : A) → P a → Keeps R (f a))
        → Keeps R (m >>= f)
    then-Keeps P R m f h k = bind-Triple (redis.Stores Q) IsRedisError P R m f h k

    pub increment-Keeps : (name : String) → Keeps (λ _. Unit) (increment client settings name)
    increment-Keeps name =
        then-Keeps (λ _. Unit) (λ _. Unit) (client.incr (stats_key settings name)) (λ _. pure tt)
          (from_client (λ _. Unit) _
            (redis.incr_stores Q (stats_key settings name) (λ n. counters name _)))
          (λ _ _ s h. (tt, h))

    pub value_or_raise-Keeps :
        {A : Type 0} (o : Option A) → Keeps (λ _. Unit) (value_or_raise client settings o)
    value_or_raise-Keeps none s h = (inr (value_error, refl), h)
    value_or_raise-Keeps (some a) s h = (tt, h)

    pub scan_keys-Keeps : Keeps (λ _. Unit) (scan_keys client settings)
    scan_keys-Keeps =
        then-Keeps (λ _. Unit) (λ _. Unit) (client.scan_iter (entry_pattern settings)) _
          (from_client (λ _. Unit) _ (redis.scan_iter_stores Q (entry_pattern settings)))
          (λ replies _. value_or_raise-Keeps (to_texts settings replies))

    pub delete-Keeps : (names : List String) → Keeps (λ _. Unit) (client.delete names)
    delete-Keeps names = from_client (λ _. Unit) _ (redis.delete_stores Q names)

    -- What may be stored of a value, once it is encoded.
    abbrev MayStore : String → O → Bool → Type 0
    MayStore name value is_exception =
        (payload : Bytes) (n : ℤ)
        → settings.serializer.dumps value ≡ some payload
        → Q name (settings.dump_json (envelope settings is_exception n payload))

    encode_payload-Keeps :
        (name : String) (value : O) (is_exception : Bool) (o : Option Bytes)
        → settings.serializer.dumps value ≡ o
        → MayStore name value is_exception
        → Keeps (Q name) (encode_payload client settings is_exception o)
    encode_payload-Keeps name value b none dumped q = λ s h. (inr tt, h)
    encode_payload-Keeps name value b (some payload) dumped q =
        then-Keeps (λ _. Unit) (Q name) (client.incr (stats_key settings "counter")) _
          (from_client (λ _. Unit) _
            (redis.incr_stores Q (stats_key settings "counter") (λ n. counters "counter" _)))
          (λ n _ s h. (q payload n dumped, h))

    -- What is written under the name of an entry is what is stored of it.
    pub write_entry-Keeps :
        (name : String) (value : O) (is_exception : Bool)
        → MayStore name value is_exception
        → Keeps (λ _. Unit) (write_entry client settings name value is_exception)
    write_entry-Keeps name value b q =
        then-Keeps (Q name) (λ _. Unit)
          (encode_payload client settings b (settings.serializer.dumps value)) _
          (encode_payload-Keeps name value b (settings.serializer.dumps value) refl q)
          (λ bytes stored.
            from_client (λ _. Unit) _ (redis.set_stores Q name bytes settings.ttl stored))

    own_error-Keeps :
        (A : Type 0) (b : BuiltIn)
        → Keeps {A = A} (λ _. Unit) (raise (foreign (settings.built_in b)))
    own_error-Keeps A b s h = (inr (b, refl), h)

    done-Keeps : {A : Type 0} (a : A) → Keeps (λ _. Unit) (pure a)
    done-Keeps a s h = (tt, h)

    or_zero-Keeps :
        (o : Option ℤ) → Keeps (λ _. Unit) (outcome_action client settings (or_zero settings o))
    or_zero-Keeps none = done-Keeps (pos 0)
    or_zero-Keeps (some n) = done-Keeps n

    int_of-Keeps :
        (value : Json) → Keeps (λ _. Unit) (outcome_action client settings (int_of settings value))
    int_of-Keeps (boolean true) = done-Keeps (pos 1)
    int_of-Keeps (integer n) = done-Keeps n
    int_of-Keeps (real n z) = done-Keeps n
    int_of-Keeps infinity = own_error-Keeps ℤ overflow_error
    int_of-Keeps (string t) = or_zero-Keeps (settings.parse_int t)
    int_of-Keeps null = done-Keeps (pos 0)
    int_of-Keeps (boolean false) = done-Keeps (pos 0)
    int_of-Keeps not_a_number = done-Keeps (pos 0)
    int_of-Keeps (array e) = done-Keeps (pos 0)
    int_of-Keeps (object m) = done-Keeps (pos 0)

    int_of_member-Keeps :
        (o : Option Json)
        → Keeps (λ _. Unit) (outcome_action client settings (int_of_member settings o))
    int_of_member-Keeps none = done-Keeps (pos 0)
    int_of_member-Keeps (some value) = int_of-Keeps value

    access_of-Keeps :
        (o : Option Json)
        → Keeps (λ _. Unit) (outcome_action client settings (access_of settings o))
    access_of-Keeps none = done-Keeps (pos 0)
    access_of-Keeps (some (object m)) = int_of_member-Keeps (get_member "last_accessed" m)
    access_of-Keeps (some null) = own_error-Keeps ℤ attribute_error
    access_of-Keeps (some (boolean b)) = own_error-Keeps ℤ attribute_error
    access_of-Keeps (some (integer n)) = own_error-Keeps ℤ attribute_error
    access_of-Keeps (some (real n z)) = own_error-Keeps ℤ attribute_error
    access_of-Keeps (some not_a_number) = own_error-Keeps ℤ attribute_error
    access_of-Keeps (some infinity) = own_error-Keeps ℤ attribute_error
    access_of-Keeps (some (string t)) = own_error-Keeps ℤ attribute_error
    access_of-Keeps (some (array e)) = own_error-Keeps ℤ attribute_error

    pub client_get-Keeps : (name : String) → Keeps (IsStored settings Q name) (client.get name)
    client_get-Keeps name = from_client _ _ (redis.get_stores Q name)

    order_entry-Keeps :
        (name : String) (others : Action S (Exn O) (List (ℤ × String))) (reply : Option Reply)
        → Keeps (λ _. Unit) others
        → Keeps (λ _. Unit) (order_entry client settings name others reply)
    order_entry-Keeps name others none h = h
    order_entry-Keeps name others (some r) h =
        then-Keeps (λ _. Unit) (λ _. Unit) _ _
          (access_of-Keeps (settings.load_json (to_bytes settings r)))
          (λ n _.
            then-Keeps (λ _. Unit) (λ _. Unit) others _ h (λ rest _. done-Keeps ((n, name) ∷ rest)))

    order_entries-Keeps :
        (names : List String) → Keeps (λ _. Unit) (order_entries client settings names)
    order_entries-Keeps [] = done-Keeps {A = List (ℤ × String)} []
    order_entries-Keeps (name ∷ names) =
        then-Keeps _ (λ _. Unit) (client.get name) _ (client_get-Keeps name)
          (λ reply _. order_entry-Keeps name _ reply (order_entries-Keeps names))

    evict_surplus-Keeps :
        (maxsize : ℕ) (names : List String)
        → Keeps (λ _. Unit) (evict_surplus client settings maxsize names)
    evict_surplus-Keeps maxsize names s h = elim (Bool-cases (leb (length names) maxsize)) [
      | inl fits ↦ rw fits (tt, h)
      | inr over ↦ rw over (
          then-Keeps (λ _. Unit) (λ _. Unit) (order_entries client settings names) _
            (order_entries-Keeps names) (λ ordered _. delete-Keeps _) s h)
    ]

    pub evict_if_needed-Keeps :
        (limit : Option ℕ) → Keeps (λ _. Unit) (evict_if_needed client settings limit)
    evict_if_needed-Keeps none = done-Keeps tt
    evict_if_needed-Keeps (some maxsize) =
        then-Keeps (λ _. Unit) (λ _. Unit) (scan_keys client settings) _ scan_keys-Keeps
          (λ names _. evict_surplus-Keeps maxsize names)
