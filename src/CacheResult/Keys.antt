-- ===== src/CacheResult/Keys.antt =====
-- src/pydecorators/cache_result.py, `make_key` and `_default_cache_key`: which calls share a cache key.
-- Two parts of a key are one if Python's `==` takes them to be one, as for 1, 1.0 and True; the parts of
-- a caller's objects, of their types and of names are parameters, as is whether a key can be hashed.
pub mod Sharing
use pydecorators.Prelude.{
  Bool, true, false, Option, none, some, List, [], ◌∷◌, ◌++◌, map, String, is_empty, if◌then◌else◌,
}
use pydecorators.Prelude.Dict.{Dict}
use pydecorators.Prelude.Effect.{Outcome, returned, raised}
use pydecorators.Exceptions.{Exn, cache_key_error}

-- The arguments of a call.
pub record CallArguments (V : Type 0) : Type 0 where
  pub args : List V
  pub kwargs : Dict String V

-- What a key is made of, for objects `V` and parts `P`.
pub record Parts (V P : Type 0) : Type 0 where
  pub part : V → P
  pub type_part : V → P  -- `type(value)`
  pub pair : String → P → P  -- `(name, value)`
  pub kw_marker : P  -- `_KW_MARKER`
  pub type_marker : P  -- `_TYPE_MARKER`
  pub sorted : Dict String V → Dict String V  -- `sorted(kwargs.items())`; the names differ
  pub is_hashable : List P → Bool

module _ {V P : Type 0} (parts : Parts V P) where
  -- `sorted(kwargs.items())`, of the objects or of their types
  abbrev pub items_of : (V → P) → Dict String V → List P
  items_of f kwargs = map (λ item. parts.pair item.0 (f item.1)) kwargs

  -- The sorted items, of which an empty dictionary has none.
  abbrev pub sorted_items : Dict String V → Dict String V
  sorted_items [] = []
  sorted_items (item ∷ kwargs) = parts.sorted (item ∷ kwargs)

  abbrev pub keyword_parts : Dict String V → List P
  keyword_parts kwargs =
      if is_empty kwargs then [] else parts.kw_marker ∷ items_of parts.part (parts.sorted kwargs)

  abbrev pub type_parts : Bool → CallArguments V → List P
  type_parts false call = []
  type_parts true call =
      parts.type_marker ∷ map parts.type_part call.args
      ++ (if is_empty call.kwargs then [] else items_of parts.type_part (parts.sorted call.kwargs))

  abbrev pub namespace_parts : Option P → List P
  namespace_parts none = []
  namespace_parts (some namespace) = namespace ∷ []

  -- the tuple that `_default_cache_key` builds
  abbrev pub key_parts : (typed : Bool) (namespace : Option P) → CallArguments V → List P
  key_parts typed namespace call =
      namespace_parts namespace
      ++ (map parts.part call.args ++ (keyword_parts call.kwargs ++ type_parts typed call))

  -- `_ensure_hashable`
  abbrev pub ensure_hashable : {O : Type 0} → List P → Outcome (Exn O) (List P)
  ensure_hashable key =
      if parts.is_hashable key
      then returned key
      else raised (cache_key_error "cache key must be hashable")

  -- `_default_cache_key`
  unfoldable pub default_cache_key :
      {O : Type 0}
      → (typed : Bool) (namespace : Option P) → CallArguments V
      → Outcome (Exn O) (List P)
  default_cache_key typed namespace call = ensure_hashable (key_parts typed namespace call)

  -- `make_key`, over the key that the caller's function gives, if there is one
  unfoldable pub make_key :
      {O : Type 0}
      → Option (CallArguments V → Outcome (Exn O) (List P))
      → (typed : Bool) (namespace : Option P) → CallArguments V
      → Outcome (Exn O) (List P)
  make_key none typed namespace call = default_cache_key typed namespace call
  make_key (some key) typed namespace call = elim (key call) [
    | returned value ↦ ensure_hashable value
    | raised e ↦ raised e
  ]
