-- ===== src/CacheResult/Keys/Sharing.antt =====
-- Which calls share a default cache key: those that cannot be told apart by their arguments.
use mathlib.Core.List.{head-eq_of_cons-eq, tail-eq_of_cons-eq}
use pydecorators.Prelude.{
  ◌≡◌, ◌≢◌, refl, Bool, true, false, Option, none, some, List, [], ◌∷◌, ◌++◌, map, String, arith,
  All, is_empty, if◌then◌else◌, sym, ◌∙◌, subst,
}
use pydecorators.Prelude.Dict.{Dict}
use pydecorators.Prelude.Effect.{returned}
use pydecorators.CacheResult.Keys.{
  CallArguments, Parts, items_of, sorted_items, keyword_parts, type_parts, namespace_parts,
  key_parts, ensure_hashable, default_cache_key,
}

module _ {V P : Type 0} (parts : Parts V P) where
  -- The markers are private to the module: they are no part of what a caller passes, nor a pair or a type.
  pub record IsPrivate : Type 0 where
    pub marker_no_part : (v : V) → parts.part v ≢ parts.kw_marker
    pub type_marker_no_part : (v : V) → parts.part v ≢ parts.type_marker
    pub type_marker_no_pair : (name : String) (p : P) → parts.pair name p ≢ parts.type_marker
    pub markers_differ : parts.kw_marker ≢ parts.type_marker

  -- Two calls that Python cannot tell apart by the arguments: the same positional ones, and the same by
  -- name; where types count, also their types.
  abbrev pub IsSameCall : (typed : Bool) → CallArguments V → CallArguments V → Type 0
  IsSameCall typed call call' =
      (map parts.part call.args ≡ map parts.part call'.args)
      × (items_of parts parts.part (sorted_items parts call.kwargs)
          ≡ items_of parts parts.part (sorted_items parts call'.kwargs))
      × (typed ≡ true
          → (map parts.type_part call.args ≡ map parts.type_part call'.args)
            × (items_of parts parts.type_part (sorted_items parts call.kwargs)
                ≡ items_of parts parts.type_part (sorted_items parts call'.kwargs)))

  -- What begins with a marker, or is empty.
  abbrev StartsAfter : (P → Type 0) → List P → Type 0
  StartsAfter IsPart [] = Unit
  StartsAfter IsPart (p ∷ ps) = IsPart p → ⊥

  split_at_marker :
      (IsPart : P → Type 0) (xs ys rest rest' : List P)
      → All IsPart xs
      → All IsPart ys
      → StartsAfter IsPart rest
      → StartsAfter IsPart rest'
      → xs ++ rest ≡ ys ++ rest'
      → (xs ≡ ys) × (rest ≡ rest')
  split_at_marker IsPart [] [] rest rest' hx hy h h' same = (refl, same)
  split_at_marker IsPart [] (y ∷ ys) [] rest' hx hy h h' same = absurd (cc same)
  split_at_marker IsPart [] (y ∷ ys) (r ∷ rest) rest' hx hy h h' same =
      absurd (h (subst IsPart (sym (head-eq_of_cons-eq same)) hy.0))
  split_at_marker IsPart (x ∷ xs) [] rest [] hx hy h h' same = absurd (cc same)
  split_at_marker IsPart (x ∷ xs) [] rest (r ∷ rest') hx hy h h' same =
      absurd (h' (subst IsPart (head-eq_of_cons-eq same) hx.0))
  split_at_marker IsPart (x ∷ xs) (y ∷ ys) rest rest' hx hy h h' same =
      let tails =
        split_at_marker IsPart xs ys rest rest' hx.1 hy.1 h h' (tail-eq_of_cons-eq same) in
      (cc (head-eq_of_cons-eq same, tails.0), tails.1)

  -- Lists of one length are split alike.
  split_at_length :
      (vs ws : List V) (rest rest' : List P)
      → map parts.part vs ≡ map parts.part ws
      → map parts.type_part vs ++ rest ≡ map parts.type_part ws ++ rest'
      → (map parts.type_part vs ≡ map parts.type_part ws) × (rest ≡ rest')
  split_at_length [] [] rest rest' h same = (refl, same)
  split_at_length [] (w ∷ ws) rest rest' h same = absurd (cc h)
  split_at_length (v ∷ vs) [] rest rest' h same = absurd (cc h)
  split_at_length (v ∷ vs) (w ∷ ws) rest rest' h same =
      let tails =
        split_at_length vs ws rest rest' (tail-eq_of_cons-eq h) (tail-eq_of_cons-eq same) in
      (cc (head-eq_of_cons-eq same, tails.0), tails.1)

  module _ (private_ : IsPrivate) where
    abbrev IsArgument : P → Type 0
    IsArgument p = (p ≢ parts.kw_marker) × (p ≢ parts.type_marker)

    parts-All : (vs : List V) → All IsArgument (map parts.part vs)
    parts-All [] = tt
    parts-All (v ∷ vs) = ((private_.marker_no_part v, private_.type_marker_no_part v), parts-All vs)

    items-All :
        (kwargs : Dict String V)
        → All (λ p. p ≢ parts.type_marker) (items_of parts parts.part kwargs)
    items-All [] = tt
    items-All ((name, v) ∷ kwargs) =
        (private_.type_marker_no_pair name (parts.part v), items-All kwargs)

    keyword_parts-All :
        (kwargs : Dict String V) → All (λ p. p ≢ parts.type_marker) (keyword_parts parts kwargs)
    keyword_parts-All [] = tt
    keyword_parts-All (item ∷ kwargs) =
        (private_.markers_differ, items-All (parts.sorted (item ∷ kwargs)))

    type_parts-StartsAfter :
        (typed : Bool) (call : CallArguments V)
        → StartsAfter (λ p. p ≢ parts.type_marker) (type_parts parts typed call)
    type_parts-StartsAfter true call = λ h. h refl
    type_parts-StartsAfter false call = tt

    end-StartsAfter :
        (typed : Bool) (call : CallArguments V) (kwargs : Dict String V)
        → StartsAfter IsArgument (keyword_parts parts kwargs ++ type_parts parts typed call)
    end-StartsAfter true call [] = λ h. h.1 refl
    end-StartsAfter false call [] = tt
    end-StartsAfter true call (item ∷ kwargs) = λ h. h.0 refl
    end-StartsAfter false call (item ∷ kwargs) = λ h. h.0 refl

  same_items :
      (kwargs kwargs' : Dict String V)
      → keyword_parts parts kwargs ≡ keyword_parts parts kwargs'
      → (items_of parts parts.part (sorted_items parts kwargs)
          ≡ items_of parts parts.part (sorted_items parts kwargs'))
        × (is_empty kwargs ≡ is_empty kwargs')
  same_items [] [] h = (refl, refl)
  same_items [] (i ∷ kwargs') h = absurd (cc h)
  same_items (i ∷ kwargs) [] h = absurd (cc h)
  same_items (i ∷ kwargs) (j ∷ kwargs') h = (tail-eq_of_cons-eq h, refl)

  same_type_items :
      (kwargs kwargs' : Dict String V)
      → is_empty kwargs ≡ is_empty kwargs'
      → (if is_empty kwargs then [] else items_of parts parts.type_part (parts.sorted kwargs))
        ≡ (if is_empty kwargs' then [] else items_of parts parts.type_part (parts.sorted kwargs'))
      → items_of parts parts.type_part (sorted_items parts kwargs)
        ≡ items_of parts parts.type_part (sorted_items parts kwargs')
  same_type_items [] [] e h = refl
  same_type_items [] (i ∷ kwargs') e h = absurd (cc e)
  same_type_items (i ∷ kwargs) [] e h = absurd (cc e)
  same_type_items (i ∷ kwargs) (j ∷ kwargs') e h = h

  same_types :
      (typed : Bool) (call call' : CallArguments V)
      → map parts.part call.args ≡ map parts.part call'.args
      → is_empty call.kwargs ≡ is_empty call'.kwargs
      → type_parts parts typed call ≡ type_parts parts typed call'
      → typed ≡ true
      → (map parts.type_part call.args ≡ map parts.type_part call'.args)
        × (items_of parts parts.type_part (sorted_items parts call.kwargs)
            ≡ items_of parts parts.type_part (sorted_items parts call'.kwargs))
  same_types true call call' same_args e h is_typed =
      let split = split_at_length call.args call'.args _ _ same_args (tail-eq_of_cons-eq h) in
      (split.0, same_type_items call.kwargs call'.kwargs e split.1)
  same_types false call call' same_args e h is_typed = absurd (cc is_typed)

  without_namespace :
      (namespace : Option P) (xs ys : List P)
      → namespace_parts parts namespace ++ xs ≡ namespace_parts parts namespace ++ ys
      → xs ≡ ys
  without_namespace none xs ys h = h
  without_namespace (some n) xs ys h = tail-eq_of_cons-eq h

  hashable_key :
      {O : Type 0} (ps key : List P) → ensure_hashable parts {O = O} ps ≡ returned key → ps ≡ key
  hashable_key ps key h = ground (arith, h)

  key_parts-IsSameCall :
      (typed : Bool) (namespace : Option P) (call call' : CallArguments V)
      → IsPrivate
      → key_parts parts typed namespace call ≡ key_parts parts typed namespace call'
      → IsSameCall typed call call'
  key_parts-IsSameCall typed namespace call call' hidden same =
      let (same_args, same_end) =
        split_at_marker (IsArgument hidden) (map parts.part call.args) (map parts.part call'.args) _
          _ (parts-All hidden call.args) (parts-All hidden call'.args)
          (end-StartsAfter hidden typed call call.kwargs)
          (end-StartsAfter hidden typed call' call'.kwargs)
          (without_namespace namespace _ _ same) in
      let (same_keywords, same_type_parts) =
        split_at_marker (λ p. p ≢ parts.type_marker) (keyword_parts parts call.kwargs)
          (keyword_parts parts call'.kwargs) _ _ (keyword_parts-All hidden call.kwargs)
          (keyword_parts-All hidden call'.kwargs) (type_parts-StartsAfter hidden typed call)
          (type_parts-StartsAfter hidden typed call') same_end in
      let (items, empties) = same_items call.kwargs call'.kwargs same_keywords in
      (same_args, items, same_types typed call call' same_args empties same_type_parts)

  -- Two calls that share a key cannot be told apart by their arguments, nor, where types count, by the
  -- types of these. The markers are private to the module.
  pub default_cache_key-IsSameCall :
      {O : Type 0} (typed : Bool) (namespace : Option P) (call call' : CallArguments V)
      (key : List P)
      → IsPrivate
      → default_cache_key parts {O = O} typed namespace call ≡ returned key
      → default_cache_key parts {O = O} typed namespace call' ≡ returned key
      → IsSameCall typed call call'
  unfolding default_cache_key
  default_cache_key-IsSameCall typed namespace call call' key hidden made made' =
      key_parts-IsSameCall typed namespace call call' hidden (
        hashable_key (key_parts parts typed namespace call) key made
        ∙ sym (hashable_key (key_parts parts typed namespace call') key made'))
