-- ===== src/ValidateTypes/Depth.antt =====
-- Deep and shallow matching.
use pydecorators.Prelude.{◌≡◌, refl, Bool, true, false, Option, none, some, List, subst}
use pydecorators.ValidateTypes.{
  View, none_value, list_value, tuple_value, set_value, frozenset_value, dict_value, other_value,
  Annotation, any_type, none_type, annotated, literal, union, list_type, dict_type, tuple_type,
  set_type, frozenset_type, class_type, ellipsis, unsupported, Annotations, nil, cons, Python,
  on_list, on_tuple, on_set, on_frozenset, on_dict, matches_type, matches_some, or_else,
}

-- How a deep match compares with a shallow one: where it is true the other is, and where it does not
-- raise the other does not.
abbrev IsWeaker : (deep shallow : Option Bool) → Type 0
IsWeaker none shallow = Unit
IsWeaker (some true) shallow = shallow ≡ some true
IsWeaker (some false) shallow = (b : Bool) × (shallow ≡ some b)

same-IsWeaker : (v : Option Bool) → IsWeaker v v
same-IsWeaker none = tt
same-IsWeaker (some true) = refl
same-IsWeaker (some false) = (false, refl)

true-IsWeaker : (v : Option Bool) → IsWeaker v (some true)
true-IsWeaker none = tt
true-IsWeaker (some true) = refl
true-IsWeaker (some false) = (true, refl)

or_false : (v s d : Option Bool) (b : Bool) → s ≡ some b → IsWeaker v d → IsWeaker v (or_else s d)
or_false v s d true h w = rw h (true-IsWeaker v)
or_false v s d false h w = rw h w

or_else-IsWeaker :
    (a b c d : Option Bool) → IsWeaker a c → IsWeaker b d → IsWeaker (or_else a b) (or_else c d)
or_else-IsWeaker none b c d h k = tt
or_else-IsWeaker (some true) b c d h k = rw h refl
or_else-IsWeaker (some false) b c d (value, h) k = or_false b c d value h k

module _ {V : Type 0} where
  on_list-IsWeaker :
      (w : View V) (f : List V → Option Bool) → IsWeaker (on_list w f) (on_list w (λ _. some true))
  on_list-IsWeaker (list_value items) f = true-IsWeaker (f items)
  on_list-IsWeaker none_value f = (false, refl)
  on_list-IsWeaker (tuple_value _) f = (false, refl)
  on_list-IsWeaker (set_value _) f = (false, refl)
  on_list-IsWeaker (frozenset_value _) f = (false, refl)
  on_list-IsWeaker (dict_value _) f = (false, refl)
  on_list-IsWeaker other_value f = (false, refl)

  on_tuple-IsWeaker :
      (w : View V) (f : List V → Option Bool)
      → IsWeaker (on_tuple w f) (on_tuple w (λ _. some true))
  on_tuple-IsWeaker (tuple_value items) f = true-IsWeaker (f items)
  on_tuple-IsWeaker none_value f = (false, refl)
  on_tuple-IsWeaker other_value f = (false, refl)
  on_tuple-IsWeaker (list_value _) f = (false, refl)
  on_tuple-IsWeaker (set_value _) f = (false, refl)
  on_tuple-IsWeaker (frozenset_value _) f = (false, refl)
  on_tuple-IsWeaker (dict_value _) f = (false, refl)

  on_set-IsWeaker :
      (w : View V) (f : List V → Option Bool) → IsWeaker (on_set w f) (on_set w (λ _. some true))
  on_set-IsWeaker (set_value items) f = true-IsWeaker (f items)
  on_set-IsWeaker none_value f = (false, refl)
  on_set-IsWeaker other_value f = (false, refl)
  on_set-IsWeaker (list_value _) f = (false, refl)
  on_set-IsWeaker (tuple_value _) f = (false, refl)
  on_set-IsWeaker (frozenset_value _) f = (false, refl)
  on_set-IsWeaker (dict_value _) f = (false, refl)

  on_frozenset-IsWeaker :
      (w : View V) (f : List V → Option Bool)
      → IsWeaker (on_frozenset w f) (on_frozenset w (λ _. some true))
  on_frozenset-IsWeaker (frozenset_value items) f = true-IsWeaker (f items)
  on_frozenset-IsWeaker none_value f = (false, refl)
  on_frozenset-IsWeaker other_value f = (false, refl)
  on_frozenset-IsWeaker (list_value _) f = (false, refl)
  on_frozenset-IsWeaker (tuple_value _) f = (false, refl)
  on_frozenset-IsWeaker (set_value _) f = (false, refl)
  on_frozenset-IsWeaker (dict_value _) f = (false, refl)

  on_dict-IsWeaker :
      (w : View V) (f : List (V × V) → Option Bool)
      → IsWeaker (on_dict w f) (on_dict w (λ _. some true))
  on_dict-IsWeaker (dict_value items) f = true-IsWeaker (f items)
  on_dict-IsWeaker none_value f = (false, refl)
  on_dict-IsWeaker other_value f = (false, refl)
  on_dict-IsWeaker (list_value _) f = (false, refl)
  on_dict-IsWeaker (tuple_value _) f = (false, refl)
  on_dict-IsWeaker (set_value _) f = (false, refl)
  on_dict-IsWeaker (frozenset_value _) f = (false, refl)

module _ {C V : Type 0} (python : Python C V) where
  mutual
    unfolding matches_type matches_some

    shallow-IsWeaker :
        (expected : Annotation C V) (value : V)
        → IsWeaker
            (matches_type python true expected value)
            (matches_type python false expected value)
    shallow-IsWeaker any_type value = refl
    shallow-IsWeaker none_type value = same-IsWeaker (matches_type python true none_type value)
    shallow-IsWeaker (annotated nil) value = refl
    shallow-IsWeaker (annotated (cons expected args)) value = shallow-IsWeaker expected value
    shallow-IsWeaker (literal values) value =
        same-IsWeaker (matches_type python true (literal values) value)
    shallow-IsWeaker (union args) value = some-IsWeaker args value
    shallow-IsWeaker (list_type args) value = on_list-IsWeaker (python.view value) _
    shallow-IsWeaker (dict_type args) value = on_dict-IsWeaker (python.view value) _
    shallow-IsWeaker (tuple_type args) value = on_tuple-IsWeaker (python.view value) _
    shallow-IsWeaker (set_type args) value = on_set-IsWeaker (python.view value) _
    shallow-IsWeaker (frozenset_type args) value = on_frozenset-IsWeaker (python.view value) _
    shallow-IsWeaker (class_type c) value = same-IsWeaker _
    shallow-IsWeaker ellipsis value = refl
    shallow-IsWeaker unsupported value = refl

    some-IsWeaker :
        (args : Annotations C V) (value : V)
        → IsWeaker (matches_some python true args value) (matches_some python false args value)
    some-IsWeaker nil value = (false, refl)
    some-IsWeaker (cons expected args) value =
        or_else-IsWeaker (matches_type python true expected value) _ _ _
          (shallow-IsWeaker expected value) (some-IsWeaker args value)

  -- A value that matches an annotation deeply matches it also without a look at its elements.
  pub matches_type-deep :
      (expected : Annotation C V) (value : V)
      → matches_type python true expected value ≡ some true
      → matches_type python false expected value ≡ some true
  matches_type-deep expected value h =
      subst (λ deep. IsWeaker deep (matches_type python false expected value)) h
        (shallow-IsWeaker expected value)
