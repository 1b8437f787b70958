-- ===== src/ValidateTypes.antt =====
-- src/pydecorators/validate_types.py: the matching of values against annotations, and the wrapper.
-- What a value is (its class, its elements), `==`, `isinstance`, `repr` and the names of classes are
-- parameters, as are the binding of arguments and the reading of type hints.
pub mod Depth
pub mod Calls
mod Tests
use pydecorators.Prelude.{
  Bool, true, false, not, ◌||◌, Option, none, some, List, [], ◌∷◌, String, if◌then◌else◌,
  append_string, is_empty, string_eq,
}
use pydecorators.Prelude.Dict.{Dict, lookup}
use pydecorators.Prelude.Effect.{Outcome, returned, raised, Action}
use pydecorators.Exceptions.{Exn, validation_error, foreign}

-- What `isinstance` and iteration tell of a value.
pub data View (V : Type 0) : Type 0 where
  none_value : View V
  list_value tuple_value set_value frozenset_value : List V → View V
  dict_value : List (V × V) → View V
  other_value : View V

mutual
  -- Annotations: by `get_origin` and `get_args`.
  pub data Annotation (C V : Type 0) : Type 0 where
    any_type : Annotation C V
    none_type : Annotation C V
    annotated : Annotations C V → Annotation C V
    literal : List V → Annotation C V
    union : Annotations C V → Annotation C V
    list_type dict_type tuple_type set_type frozenset_type : Annotations C V → Annotation C V
    class_type : C → Annotation C V  -- `isinstance(expected, type)`
    ellipsis : Annotation C V
    unsupported : Annotation C V  -- any other form, as a type variable

  pub data Annotations (C V : Type 0) : Type 0 where
    nil : Annotations C V
    cons : Annotation C V → Annotations C V → Annotations C V

-- What the code asks of Python.
pub record Python (C V : Type 0) : Type 0 where
  pub view : V → View V
  pub equals : V → V → Bool
  pub is_instance : V → C → Option Bool  -- `none` is a `TypeError`, as for a `TypedDict`
  pub repr : V → String
  pub class_name : Annotation C V → Option String  -- `getattr(expected, "__name__", None)`
  pub plain_text : Annotation C V → String  -- `str(expected).replace("typing.", "")`
  pub type_name : V → String  -- `type(value).__name__`

-- `p and q` and `p or q`, of tests that may raise
abbrev pub and_also : Option Bool → Option Bool → Option Bool
and_also none q = none
and_also (some true) q = q
and_also (some false) q = some false

abbrev pub or_else : Option Bool → Option Bool → Option Bool
or_else none q = none
or_else (some true) q = some true
or_else (some false) q = q

-- `all(f(x) for x in xs)` and `x in xs`
abbrev pub all_of : {A : Type 0} → (A → Option Bool) → List A → Option Bool
all_of f [] = some true
all_of f (x ∷ xs) = let rest = all_of f xs in and_also (f x) rest

abbrev pub is_member : {A : Type 0} → (A → A → Bool) → A → List A → Bool
is_member equals x [] = false
is_member equals x (y ∷ ys) = equals x y || is_member equals x ys

module _ {V : Type 0} where
  -- `isinstance(value, list) and (...)`, given what is asked of the elements
  abbrev pub on_list : View V → (List V → Option Bool) → Option Bool
  on_list (list_value xs) f = f xs
  on_list _ f = some false

  abbrev pub on_tuple : View V → (List V → Option Bool) → Option Bool
  on_tuple (tuple_value xs) f = f xs
  on_tuple _ f = some false

  abbrev pub on_set : View V → (List V → Option Bool) → Option Bool
  on_set (set_value xs) f = f xs
  on_set _ f = some false

  abbrev pub on_frozenset : View V → (List V → Option Bool) → Option Bool
  on_frozenset (frozenset_value xs) f = f xs
  on_frozenset _ f = some false

  abbrev pub on_dict : View V → (List (V × V) → Option Bool) → Option Bool
  on_dict (dict_value xs) f = f xs
  on_dict _ f = some false

  -- a round of `all` over the pairs of a `zip`
  abbrev pub first_and_rest : (V → Option Bool) → (List V → Option Bool) → List V → Option Bool
  first_and_rest f g [] = some true
  first_and_rest f g (x ∷ xs) = and_also (f x) (g xs)

  abbrev pub is_none_value : View V → Bool
  is_none_value none_value = true
  is_none_value _ = false

-- `len(value) == len(args)`
abbrev pub has_length_of : {C V A : Type 0} → Annotations C V → List A → Bool
has_length_of nil items = is_empty items
has_length_of (cons expected args) [] = false
has_length_of (cons expected args) (item ∷ items) = has_length_of args items

-- `args[1] is Ellipsis`, where there are two arguments
abbrev pub is_ellipsis : {C V : Type 0} → Annotations C V → Bool
is_ellipsis (cons ellipsis nil) = true
is_ellipsis _ = false

-- what becomes of a match: its `TypeError` is passed on
abbrev pub verdict :
    {E : Type 0}
    → E
    → Option Bool
    → (rest mismatch : Outcome (Exn E) (Unit {0})) → Outcome (Exn E) (Unit {0})
verdict type_error none rest mismatch = raised (foreign type_error)
verdict type_error (some true) rest mismatch = rest
verdict type_error (some false) rest mismatch = mismatch

module _ {C V : Type 0} (python : Python C V) where
  unfoldable mutual
    -- `_matches_type`; `none` is the `TypeError` of `isinstance`.
    pub matches_type : (deep : Bool) → Annotation C V → V → Option Bool
    matches_type deep any_type value = some true
    matches_type deep none_type value = some (is_none_value (python.view value))
    matches_type deep (annotated nil) value = some true
    matches_type deep (annotated (cons expected args)) value = matches_type deep expected value
    matches_type deep (literal values) value = some (is_member python.equals value values)
    matches_type deep (union args) value = matches_some deep args value
    matches_type deep (list_type args) value =
        on_list (python.view value) (λ items. or_else (some (not deep)) (elements_match args items))
    matches_type deep (dict_type args) value =
        on_dict (python.view value) (λ items. or_else (some (not deep)) (items_match args items))
    matches_type deep (tuple_type args) value =
        on_tuple (python.view value) (λ items. or_else (some (not deep)) (matches_tuple args items))
    matches_type deep (set_type args) value =
        on_set (python.view value) (λ items. or_else (some (not deep)) (elements_match args items))
    matches_type deep (frozenset_type args) value =
        on_frozenset (python.view value)
          (λ items. or_else (some (not deep)) (elements_match args items))
    matches_type deep (class_type c) value = python.is_instance value c
    matches_type deep ellipsis value = some true
    matches_type deep unsupported value = some true

    -- `any(_matches_type(value, option, deep=deep) for option in args)`
    pub matches_some : (deep : Bool) → Annotations C V → V → Option Bool
    matches_some deep nil value = some false
    matches_some deep (cons option args) value =
        or_else (matches_type deep option value) (matches_some deep args value)

    -- `not args or all(_matches_type(item, args[0], deep=True) for item in value)`
    pub elements_match : Annotations C V → List V → Option Bool
    elements_match nil items = some true
    elements_match (cons expected args) items = all_of (matches_type true expected) items

    -- `len(args) != 2 or all(...)`, on the items of a dictionary
    pub items_match : Annotations C V → List (V × V) → Option Bool
    items_match (cons key (cons item nil)) items =
        all_of (λ entry. and_also (matches_type true key entry.0) (matches_type true item entry.1))
          items
    items_match _ items = some true

    -- `_matches_tuple`
    pub matches_tuple : Annotations C V → List V → Option Bool
    matches_tuple nil items = some true
    matches_tuple (cons expected args) items =
        if is_ellipsis args
        then all_of (matches_type true expected) items
        else and_also (some (has_length_of (cons expected args) items))
            (first_and_rest (matches_type true expected) (matches_each args) items)

    -- `all(_matches_type(item, expected, deep=True) for item, expected in zip(value, args))`
    pub matches_each : Annotations C V → List V → Option Bool
    matches_each nil items = some true
    matches_each (cons expected args) items =
        first_and_rest (matches_type true expected) (matches_each args) items

  -- `_format_type`
  abbrev pub repr_all : List V → String
  repr_all [] = ""
  repr_all (value ∷ []) = python.repr value
  repr_all (value ∷ values) =
      append_string (python.repr value) (append_string ", " (repr_all values))

  abbrev pub or_plain : Option String → String → String
  or_plain none text = text
  or_plain (some name) text = name

  abbrev pub format_type : Annotation C V → String
  format_type none_type = "None"
  format_type (annotated nil) = "Annotated"
  format_type (annotated (cons expected args)) = format_type expected
  format_type (literal values) = append_string "Literal[" (append_string (repr_all values) "]")
  format_type expected = or_plain (python.class_name expected) (python.plain_text expected)

  -- the text of a `ValidationError`
  abbrev pub mismatch_text : (place : String) → Annotation C V → V → String
  mismatch_text place expected value = append_string place (
      append_string " expected "
        (append_string (format_type expected) (append_string ", got " (python.type_name value))))

  module _ {E : Type 0} (type_error : E) (function_name : String) (repr_name : String → String)
      (hints : Dict String (Annotation C V)) where
    abbrev pub check_argument :
        (deep : Bool)
        → String
        → V
        → Option (Annotation C V)
        → Outcome (Exn E) (Unit {0})
        → Outcome (Exn E) (Unit {0})
    check_argument deep name value none rest = rest
    check_argument deep name value (some expected) rest =
        verdict type_error (matches_type deep expected value) rest (
          raised (
            validation_error (
              mismatch_text
                (append_string function_name (append_string "() argument " (repr_name name)))
                expected value)))

    -- the loop of `_validate_bound_arguments`
    abbrev pub validate_bound_arguments :
        (deep : Bool) → List (String × V) → Outcome (Exn E) (Unit {0})
    validate_bound_arguments deep [] = returned tt
    validate_bound_arguments deep ((name, value) ∷ arguments) =
        let rest = validate_bound_arguments deep arguments in
        check_argument deep name value (lookup name hints) rest

    abbrev pub check_return :
        (deep : Bool) → V → Option (Annotation C V) → Outcome (Exn E) (Unit {0})
    check_return deep value none = returned tt
    check_return deep value (some expected) =
        verdict type_error (matches_type deep expected value) (returned tt) (
          raised (
            validation_error
              (mismatch_text (append_string function_name "() return value") expected value)))

    -- `_validate_return_value`
    abbrev pub validate_return_value :
        (validate_return deep : Bool) → V → Outcome (Exn E) (Unit {0})
    validate_return_value false deep value = returned tt
    validate_return_value true deep value = check_return deep value (lookup "return" hints)

-- The wrapper once the arguments are bound: checks before the call and after it.
module _ {V E : Type 0} where
  abbrev pub return_checked : V → Outcome (Exn E) (Unit {0}) → Outcome (Exn E) V
  return_checked value (returned _) = returned value
  return_checked value (raised e) = raised e

module _ {V W E : Type 0} where
  abbrev pub after_call : (V → Outcome (Exn E) (Unit {0})) → Outcome E V × W → Outcome (Exn E) V × W
  after_call check (returned value, w) = (return_checked value (check value), w)
  after_call check (raised e, w) = (raised (foreign e), w)

  abbrev pub run_checked :
      (V → Outcome (Exn E) (Unit {0}))
      → Action W E V
      → Outcome (Exn E) (Unit {0})
      → Action W (Exn E) V
  run_checked check func (returned _) w = after_call check (func w)
  run_checked check func (raised e) w = (raised e, w)

module _ {C V W E : Type 0} (python : Python C V) where
  unfoldable pub wrapper :
      (type_error : E) (function_name : String) (repr_name : String → String)
      → Dict String (Annotation C V)
      → (validate_return deep : Bool) → (arguments : List (String × V)) → Action W E V
      → Action W (Exn E) V
  wrapper type_error function_name repr_name hints validate_return deep arguments func =
      run_checked
        (validate_return_value python type_error function_name repr_name hints validate_return deep)
        func
        (validate_bound_arguments python type_error function_name repr_name hints deep arguments)
