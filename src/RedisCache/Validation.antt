-- ===== src/RedisCache/Validation.antt =====
-- src/pydecorators/redis_backend.py: the checks of `RedisCacheBackend.__init__`, and what it keeps.
use Prim.Native.Char.{Char, code}
use pydecorators.Prelude.{
  ◌≡◌, refl, ◌↔◌, Bool, true, false, ◌&&◌, ◌||◌, not, Option, none, some, String, ◌==◌, string_eq,
  leb, nat_beq, is_some, is_none, arith, if◌then◌else◌,
}
use pydecorators.Prelude.Int.{ℤ}
use pydecorators.Prelude.Effect.{Outcome, returned, raised}
use pydecorators.Exceptions.{Exn, configuration_error, foreign}
use pydecorators.MemoryCache.{is_not_positive}

-- `character.isspace()`, by the code point
abbrev pub is_space : Char → Bool
is_space c =
    (leb 9 (code c) && leb (code c) 13)
    || (leb 28 (code c) && leb (code c) 32)
    || nat_beq (code c) 133
    || nat_beq (code c) 160
    || nat_beq (code c) 5760
    || (leb 8192 (code c) && leb (code c) 8202)
    || nat_beq (code c) 8232
    || nat_beq (code c) 8233
    || nat_beq (code c) 8239
    || nat_beq (code c) 8287
    || nat_beq (code c) 12288

-- `character in _REDIS_GLOB_METACHARACTERS`
abbrev pub is_metacharacter : Char → Bool
is_metacharacter c =
    nat_beq (code c) b'*' || nat_beq (code c) b'?' || nat_beq (code c) b'[' || nat_beq (code c) b']'

abbrev pub is_colon : Char → Bool
is_colon c = nat_beq (code c) b':'

-- `any(p(character) for character in s)`
abbrev pub any_character : (Char → Bool) → String → Bool
any_character p String.[] = false
any_character p (String.◌∷◌ c s) = p c || any_character p s

-- The text without the characters of a kind at its start, and at its end.
abbrev pub lstrip : (Char → Bool) → String → String
lstrip p String.[] = ""
lstrip p (String.◌∷◌ c s) = let rest = lstrip p s in if p c then rest else String.◌∷◌ c s

abbrev pub put_before : (Char → Bool) → Char → String → String
put_before p c String.[] = if p c then "" else String.◌∷◌ c ""
put_before p c (String.◌∷◌ d s) = String.◌∷◌ c (String.◌∷◌ d s)

abbrev pub rstrip : (Char → Bool) → String → String
rstrip p String.[] = ""
rstrip p (String.◌∷◌ c s) = put_before p c (rstrip p s)

-- `s.strip()`
abbrev pub strip : String → String
strip s = lstrip is_space (rstrip is_space s)

module _ {O : Type 0} (from_url : String → Outcome O (Unit {0})) where
  abbrev pub connected : Outcome O (Unit {0}) → Outcome (Exn O) (Unit {0})
  connected (returned _) = returned tt
  connected (raised x) = raised (foreign x)

  -- `_client_from_url`; whether `redis` can be imported is an argument, and so is `Redis.from_url`,
  -- which raises a `ValueError` for a url that it does not know.
  abbrev pub client_from_url : Option String → Bool → Outcome (Exn O) (Unit {0})
  client_from_url none is_installed =
      raised (configuration_error "RedisCacheBackend requires a Redis client or url")
  client_from_url (some url) true = connected (from_url url)
  client_from_url (some url) false = raised (
      configuration_error
        "RedisCacheBackend requires the optional Redis dependency; install blakemere-wraptools[redis]")

  -- `client if client is not None else _client_from_url(url)`
  abbrev pub choose_client : Bool → Option String → Bool → Outcome (Exn O) (Unit {0})
  choose_client true url is_installed = returned tt
  choose_client false url is_installed = client_from_url url is_installed

  abbrev pub keep_prefix : String → Outcome (Exn O) (Unit {0}) → Outcome (Exn O) String
  keep_prefix key_prefix (returned _) = returned (rstrip is_colon (strip key_prefix))
  keep_prefix key_prefix (raised e) = raised e

  -- `__init__`: the prefix that is kept.
  unfoldable pub init :
      (has_client : Bool) (url : Option String) (is_installed : Bool) (key_prefix : String)
      (ttl maxsize : Option ℤ)
      → Outcome (Exn O) String
  init has_client url is_installed key_prefix ttl maxsize =
      if strip key_prefix == ""
      then raised (configuration_error "RedisCacheBackend key_prefix must not be empty")
      else if any_character is_space key_prefix
      then raised (configuration_error "RedisCacheBackend key_prefix must not contain whitespace")
      else if any_character is_metacharacter key_prefix
      then raised (
          configuration_error
            "RedisCacheBackend key_prefix must not contain Redis glob metacharacters")
      else if is_not_positive ttl
      then raised (configuration_error "ttl must be greater than zero when provided")
      else if is_not_positive maxsize
      then raised (configuration_error "maxsize must be greater than zero when provided")
      else if has_client && is_some url
      then raised (configuration_error "provide either Redis client or url, not both")
      else keep_prefix key_prefix (choose_client has_client url is_installed)

module _ {O : Type 0} (from_url : String → Outcome O (Unit {0})) where
  -- `Redis.from_url` gives a client.
  abbrev pub is_connected : Outcome O (Unit {0}) → Bool
  is_connected (returned _) = true
  is_connected (raised x) = false

  abbrev pub connects : Option String → Bool
  connects none = false
  connects (some url) = is_connected (from_url url)

  -- What the arguments have to be: exactly one of a client and a url, and for a url the library, which
  -- makes a client of it.
  abbrev pub IsUsable : Bool → Option String → Bool → Type 0
  IsUsable has_client url is_installed =
      ((has_client && is_none url) || (not has_client && is_installed && connects url)) ≡ true

  abbrev pub IsAcceptable : Bool → Option String → Bool → String → Option ℤ → Option ℤ → Type 0
  IsAcceptable has_client url is_installed key_prefix ttl maxsize =
      ((key_prefix == "") ≡ false)
      × (any_character is_space key_prefix ≡ false)
      × (any_character is_metacharacter key_prefix ≡ false)
      × (is_not_positive ttl ≡ false)
      × (is_not_positive maxsize ≡ false)
      × IsUsable has_client url is_installed

lstrip_id : (p : Char → Bool) (s : String) → any_character p s ≡ false → lstrip p s ≡ s
lstrip_id p String.[] h = refl
lstrip_id p (String.◌∷◌ c s) h = ground arith

put_before_id :
    (p : Char → Bool) (c : Char) (s : String) → p c ≡ false → put_before p c s ≡ String.◌∷◌ c s
put_before_id p c String.[] h = ground arith
put_before_id p c (String.◌∷◌ d s) h = refl

rstrip_id : (p : Char → Bool) (s : String) → any_character p s ≡ false → rstrip p s ≡ s
rstrip_id p String.[] h = refl
rstrip_id p (String.◌∷◌ c s) h = ground (arith, rstrip_id p s, put_before_id p c s)

strip_id : (s : String) → any_character is_space s ≡ false → strip s ≡ s
strip_id s h = cc (rstrip_id is_space s h, lstrip_id is_space s h)

module _ {O : Type 0} (from_url : String → Outcome O (Unit {0})) (has_client : Bool)
    (url : Option String) (is_installed : Bool) (key_prefix : String) (ttl maxsize : Option ℤ)
    (kept : String) where
  accepts :
      init from_url has_client url is_installed key_prefix ttl maxsize ≡ returned kept
      → IsAcceptable from_url has_client url is_installed key_prefix ttl maxsize
        × (kept ≡ rstrip is_colon key_prefix)
  unfolding init
  accepts h = ground (arith, strip_id key_prefix)

  accepted :
      IsAcceptable from_url has_client url is_installed key_prefix ttl maxsize
      → kept ≡ rstrip is_colon key_prefix
      → init from_url has_client url is_installed key_prefix ttl maxsize ≡ returned kept
  unfolding init
  accepted a same = ground (arith, strip_id key_prefix a.1)

  -- The arguments are accepted exactly if the prefix is not empty and has no whitespace and none of the
  -- metacharacters, the lifetime and the size are positive where they are given, and either a client is
  -- given and no url, or a url and no client, and the library is there and makes a client of the url; the
  -- prefix is kept without the colons at its end.
  pub init-accepts_iff :
      (init from_url has_client url is_installed key_prefix ttl maxsize ≡ returned kept)
      ↔ IsAcceptable from_url has_client url is_installed key_prefix ttl maxsize
        × (kept ≡ rstrip is_colon key_prefix)
  init-accepts_iff = (accepts, λ h. accepted h.0 h.1)
