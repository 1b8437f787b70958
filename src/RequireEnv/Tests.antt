-- ===== src/RequireEnv/Tests.antt =====
-- The theorem at a concrete input.
use pydecorators.Prelude.{ℕ, ◌≡◌, ◌+◌, refl, false, [], ◌∷◌, String, ◌==◌, string_eq, if◌then◌else◌}
use pydecorators.Prelude.Dict.{Dict, lookup}
use pydecorators.Prelude.Effect.{Outcome, returned, raised}
use pydecorators.Exceptions.{env_requirement_error}
use pydecorators.RequireEnv.{Config, Verdict, is_false, is_other, wrapper}
use pydecorators.RequireEnv.Checks
use pydecorators.RequireEnv.Checks.{IsRequired}

abbrev is_port : String → Verdict
is_port value = if value == "8080" then is_other else is_false

abbrev config : Config
config = record {
  requirements = "HOST" ∷ "PORT" ∷ [];
  validators = ("PORT", is_port) ∷ [];
  messages = [];
  allow_empty = false;
}

abbrev source : Dict String String
source = ("HOST", "localhost") ∷ ("PORT", "none") ∷ []

abbrev func : ℕ → Outcome ℕ ℕ × ℕ
func calls = (returned 5, calls + 1)

wrapper-IsRequired_example : IsRequired config source func 0 (wrapper config source func 0)
wrapper-IsRequired_example = Checks.wrapper-IsRequired config source func 0

-- The port is refused, and the function does not run.
port_refused :
    wrapper config source func 0 ≡ (raised (env_requirement_error "PORT" "failed validation"), 0)
unfolding wrapper lookup
port_refused = refl
