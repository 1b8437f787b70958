-- ===== src/ValidateTypes/Tests.antt =====
-- The theorems at concrete inputs.
use pydecorators.Prelude.{
  ℕ, ◌≡◌, ◌+◌, refl, Bool, true, false, Option, none, some, List, [], ◌∷◌, map, String, All, nat_eq,
  ◌==◌, string_eq,
}
use pydecorators.Prelude.Dict.{Dict, lookup}
use pydecorators.Prelude.Effect.{Outcome, returned, raised}
use pydecorators.Exceptions.{validation_error, foreign}
use pydecorators.ValidateTypes.{
  View, none_value, list_value, tuple_value, other_value, Annotation, nil, cons, union, list_type,
  tuple_type, none_type, class_type, Python, matches_type, wrapper,
}
use pydecorators.ValidateTypes.Depth
use pydecorators.ValidateTypes.Calls
use pydecorators.ValidateTypes.Calls.{
  IsGuarded, IsAcceptedArgument, IsAcceptedResult, HasUncheckable, IsUncheckableResult,
}

data Thing : Type 0 where
  nothing : Thing
  number : ℕ → Thing
  numbers : List ℕ → Thing
  tuple_of_numbers : List ℕ → Thing

data Class : Type 0 where
  int_class list_class typed_dict : Class

abbrev view_of : Thing → View Thing
view_of nothing = none_value
view_of (number n) = other_value
view_of (numbers ns) = list_value (map number ns)
view_of (tuple_of_numbers ns) = tuple_value (map number ns)

abbrev is_same : Thing → Thing → Bool
is_same (number m) (number n) = m == n
is_same _ _ = false

-- A `TypedDict` cannot be used with `isinstance`.
abbrev is_of : Thing → Class → Option Bool
is_of _ typed_dict = none
is_of (number n) int_class = some true
is_of (numbers ns) list_class = some true
is_of _ _ = some false

abbrev python : Python Class Thing
python = record {
  view = view_of;
  equals = is_same;
  is_instance = is_of;
  repr = λ v. "thing";
  class_name = λ a. none;
  plain_text = λ a. "type";
  type_name = λ v. "Thing";
}

-- `list[int | None]`
abbrev list_of_numbers : Annotation Class Thing
list_of_numbers = list_type (cons (union (cons (class_type int_class) (cons none_type nil))) nil)

matches_deeply : matches_type python true list_of_numbers (numbers (1 ∷ 2 ∷ [])) ≡ some true
unfolding matches_type
matches_deeply = refl

matches_type-deep_example :
    matches_type python false list_of_numbers (numbers (1 ∷ 2 ∷ [])) ≡ some true
matches_type-deep_example =
    Depth.matches_type-deep python list_of_numbers (numbers (1 ∷ 2 ∷ [])) matches_deeply

abbrev hints : Dict String (Annotation Class Thing)
hints = ("values", list_of_numbers) ∷ ("return", class_type int_class) ∷ []

abbrev arguments : List (String × Thing)
arguments = ("values", numbers (1 ∷ 2 ∷ [])) ∷ ("other", nothing) ∷ []

abbrev func : ℕ → Outcome ℕ Thing × ℕ
func calls = (returned nothing, calls + 1)

wrapper-IsGuarded_example :
    IsGuarded 13
      (All (IsAcceptedArgument python hints true) arguments)
      (HasUncheckable python hints true arguments)
      (IsAcceptedResult python hints true true)
      (IsUncheckableResult python hints true true)
      func
      0
      (wrapper python 13 "f" (λ name. name) hints true true arguments func 0)
wrapper-IsGuarded_example =
    Calls.wrapper-IsGuarded python 13 "f" (λ name. name) hints true true arguments func 0

-- The function runs, and its result is refused.
result_refused :
    wrapper python 13 "f" (λ name. name) hints true true arguments func 0
    ≡ (raised (validation_error "f() return value expected type, got Thing"), 1)
unfolding wrapper lookup matches_type
result_refused = refl

-- A hint that is a `TypedDict`: the `TypeError` is passed on, and the function does not run.
type_error_passed :
    wrapper python 13 "f"
      (λ name. name)
      (("values", class_type typed_dict) ∷ [])
      true
      true
      arguments
      func
      0
    ≡ (raised (foreign 13), 0)
unfolding wrapper lookup matches_type
type_error_passed = refl

-- Of a tuple of another length no element is looked at.
wrong_length :
    matches_type python true
      (tuple_type (cons (class_type typed_dict) (cons none_type nil)))
      (tuple_of_numbers (1 ∷ []))
    ≡ some false
unfolding matches_type
wrong_length = refl
