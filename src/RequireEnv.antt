-- ===== src/RequireEnv.antt =====
-- src/pydecorators/require_env.py: the check of the environment at call time, the validation of the
-- arguments, and the wrapper. The names are those that `_normalize_names` gives.
pub mod Checks
mod Tests
use pydecorators.Prelude.{
  Bool, true, false, not, ◌&&◌, ◌||◌, Option, none, some, List, [], ◌∷◌, String, ◌==◌, string_eq,
  if◌then◌else◌, is_empty,
}
use pydecorators.Prelude.Dict.{Dict, lookup}
use pydecorators.Prelude.Effect.{Outcome, returned, raised, Action}
use pydecorators.Exceptions.{Exn, env_requirement_error, configuration_error, foreign}
use pydecorators.Objects.{Object, bool, str, is_callable}

-- What calling a validator gives: an `Exception`, `False`, or anything else.
pub data Verdict : Type 0 where
  fails : Verdict
  is_false : Verdict
  is_other : Verdict

-- `EnvValidator`
abbrev pub EnvValidator : Type 0
EnvValidator = String → Verdict

-- What a decorated function is configured with.
pub record Config : Type 0 where
  pub requirements : List String
  pub validators : Dict String EnvValidator
  pub messages : Dict String String
  pub allow_empty : Bool

-- `d.get(k, default)`
abbrev pub or_default : String → Option String → String
or_default default none = default
or_default default (some message) = message

module _ {E : Type 0} where
  abbrev pub on_verdict : String → Verdict → Outcome (Exn E) (Unit {0}) → Outcome (Exn E) (Unit {0})
  on_verdict name fails rest = raised (env_requirement_error name "failed validation")
  on_verdict name is_false rest = raised (env_requirement_error name "failed validation")
  on_verdict name is_other rest = rest

  abbrev pub check_validator :
      String
      → String
      → Option EnvValidator
      → Outcome (Exn E) (Unit {0})
      → Outcome (Exn E) (Unit {0})
  check_validator name value none rest = rest
  check_validator name value (some validator) rest = on_verdict name (validator value) rest

  -- one round of the loop, given what the rounds after it do
  abbrev pub check_variable :
      Config → String → Option String → Outcome (Exn E) (Unit {0}) → Outcome (Exn E) (Unit {0})
  check_variable config name none rest =
      raised (env_requirement_error name (or_default "is required" (lookup name config.messages)))
  check_variable config name (some value) rest =
      if not config.allow_empty && value == ""
      then raised (env_requirement_error name "must not be empty")
      else check_validator name value (lookup name config.validators) rest

  -- `_check_environment`
  abbrev pub check_environment :
      Config → Dict String String → List String → Outcome (Exn E) (Unit {0})
  check_environment config source [] = returned tt
  check_environment config source (name ∷ names) =
      let rest = check_environment config source names in
      check_variable config name (lookup name source) rest

-- The function's own exceptions, passed on.
abbrev pub passed_on : {A E W : Type 0} → Outcome E A × W → Outcome (Exn E) A × W
passed_on (returned a, w) = (returned a, w)
passed_on (raised e, w) = (raised (foreign e), w)

module _ {A W E : Type 0} where
  abbrev pub run_if : Outcome (Exn E) (Unit {0}) → Action W E A → Action W (Exn E) A
  run_if (returned _) func w = passed_on (func w)
  run_if (raised e) func w = (raised e, w)

  unfoldable pub wrapper : Config → Dict String String → Action W E A → Action W (Exn E) A
  wrapper config source func = run_if (check_environment config source config.requirements) func

-- The arguments of `require_env`, as its checks see them; `names` are normalized.
pub record Arguments : Type 0 where
  pub names : List Object
  pub validators : Dict String Object
  pub environ_is_mapping : Bool  -- or `None`
  pub messages : Dict String Object
  pub allow_empty : Object

abbrev pub is_name : Object → Bool
is_name (str s) = not (s == "")
is_name _ = false

abbrev pub is_bool : Object → Bool
is_bool (bool _) = true
is_bool _ = false

-- `name in names_tuple`
abbrev pub is_listed : String → List Object → Bool
is_listed name [] = false
is_listed name (str s ∷ names) = name == s || is_listed name names
is_listed name (_ ∷ names) = is_listed name names

module _ {E : Type 0} where
  abbrev pub check_names : List Object → Outcome (Exn E) (Unit {0}) → Outcome (Exn E) (Unit {0})
  check_names [] rest = rest
  check_names (name ∷ names) rest =
      if is_name name
      then check_names names rest
      else raised (configuration_error "environment variable names must be non-empty strings")

  -- the loops over `validators` and `messages`
  abbrev pub check_items :
      (names : List Object) (is_valid : Object → Bool) (unknown invalid : String)
      → Dict String Object
      → Outcome (Exn E) (Unit {0})
      → Outcome (Exn E) (Unit {0})
  check_items names is_valid unknown invalid [] rest = rest
  check_items names is_valid unknown invalid ((name, value) ∷ items) rest =
      if not (is_listed name names)
      then raised (configuration_error unknown)
      else if not (is_valid value)
      then raised (configuration_error invalid)
      else check_items names is_valid unknown invalid items rest

  -- `_validate_config`; the names that the messages of its errors show are left out
  unfoldable pub validate_config : Arguments → Outcome (Exn E) (Unit {0})
  validate_config a =
      if is_empty a.names
      then raised (configuration_error "require_env needs at least one variable name")
      else check_names a.names (
          check_items a.names is_callable "validator configured for unknown variable"
            "validator must be callable" a.validators
            (if not a.environ_is_mapping
              then raised (configuration_error "environ must be a mapping when provided")
              else if not (is_bool a.allow_empty)
              then raised (configuration_error "allow_empty must be a boolean")
              else check_items a.names is_name "message configured for unknown variable"
                  "message must be a non-empty string" a.messages (returned tt)))
