-- ===== src/Objects.antt =====
-- Python values as far as the configuration checks of the decorators tell them apart, by
-- `isinstance`, `callable` and `issubclass`. A float is given in millionths.
use pydecorators.Prelude.{Bool, true, false, String}
use pydecorators.Prelude.Int.{ℤ, pos}

mutual
  pub data Object : Type 0 where
    none_object : Object
    bool : Bool → Object
    int : ℤ → Object
    float : ℤ → Object
    str : String → Object
    function : Object
    exception_type : Object  -- a class below `BaseException`
    class_object : Object  -- any other class
    tuple : Objects → Object
    instance_object : Object  -- a value of any other kind, which cannot be called

  pub data Objects : Type 0 where
    nil : Objects
    cons : Object → Objects → Objects

-- `callable(x)`
abbrev pub is_callable : Object → Bool
is_callable function = true
is_callable exception_type = true
is_callable class_object = true
is_callable _ = false

-- `x is None`
abbrev pub is_none_object : Object → Bool
is_none_object none_object = true
is_none_object _ = false

-- `isinstance(x, type) and issubclass(x, BaseException)`
abbrev pub is_exception_type : Object → Bool
is_exception_type exception_type = true
is_exception_type _ = false

abbrev pub is_int : Object → Bool
is_int (int _) = true
is_int (bool _) = true
is_int _ = false

-- `isinstance(x, int | float)`
abbrev pub is_number : Object → Bool
is_number (float _) = true
is_number (int _) = true
is_number (bool _) = true
is_number _ = false

-- The number that an int, a bool or a float stands for, in units of its own kind: what the checks
-- do with it is to compare it with 0 and 1.
abbrev pub number : Object → ℤ
number (int n) = n
number (float x) = x
number (bool true) = pos 1
number _ = pos 0
