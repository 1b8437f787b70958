-- ===== src/LogCalls/Tests.antt =====
-- The theorems at concrete inputs: a function of a user name, a password, other values, and a token by
-- name.
use pydecorators.Prelude.{ℕ, ◌+◌, ◌≡◌, refl, true, none, some, List, [], ◌∷◌, String}
use pydecorators.Prelude.Int.{pos, ◌-ℤ◌}
use pydecorators.Prelude.Dict.{Dict}
use pydecorators.Prelude.Effect.{Outcome, returned, raised}
use pydecorators.LogCalls.{
  Parameter, positional_only, positional_or_keyword, var_positional, keyword_only, Config,
  started_record, redact_args, shown, redacted, bind_partial, wrapper,
}
use pydecorators.LogCalls.Records
use pydecorators.LogCalls.Records.{IsLogged}

abbrev signature : List Parameter
signature =
    record { name = "user"; kind = positional_only }
    ∷ record { name = "password"; kind = positional_or_keyword }
    ∷ record { name = "rest"; kind = var_positional }
    ∷ record { name = "token"; kind = keyword_only }
    ∷ []

-- The function adds up to its number of calls, and raises 7 if called without arguments.
abbrev func : List ℕ × Dict String ℕ → ℕ → Outcome ℕ ℕ × ℕ
func ([], kwargs) calls = (raised 7, calls + 1)
func (a ∷ args, kwargs) calls = (returned a, calls + 1)

abbrev config : Config ℕ ℕ ℕ
config = record {
  level = pos 20;
  include_args = true;
  include_result = true;
  redacted_names = "password" ∷ "token" ∷ [];
  summarize_result = none;
  log_exceptions = true;
  name = "login";
  signature = signature;
  func = func;
  is_exception = λ x. true;
}

password_redacted :
    redact_args {V = ℕ} (1 ∷ 2 ∷ 3 ∷ []) ("token" ∷ []) ("password" ∷ "token" ∷ []) signature
    ≡ shown 1 ∷ redacted ∷ shown 3 ∷ []
unfolding redact_args bind_partial
password_redacted = refl

-- One argument too many by name: the arguments do not bind, and nothing is redacted.
unbound_shown :
    redact_args {V = ℕ} (1 ∷ 2 ∷ []) ("password" ∷ []) ("password" ∷ []) signature
    ≡ shown 1 ∷ shown 2 ∷ []
unfolding redact_args bind_partial
unbound_shown = refl

-- The same, with a summarizer that adds ten.
abbrev summarized : Config ℕ ℕ ℕ
summarized = record config { summarize_result = some (λ result w. (returned (result + 10), w)) }

wrapper-IsLogged_example :
    IsLogged summarized
      (pos 5 -ℤ pos 2)
      1
      (returned 1)
      (started_record summarized (1 ∷ [], []) ∷ [])
      (wrapper summarized (pos 2) (pos 5) (1 ∷ [], []) (0, []))
wrapper-IsLogged_example =
    Records.wrapper-IsLogged summarized (pos 2) (pos 5) (1 ∷ [], []) 0 []
      (λ result w. (result + 10, refl))
