-- ===== src/LogCalls.antt =====
-- src/pydecorators/log_calls.py: the wrapper, its log records, redaction, and the checks of the
-- arguments. A record stands for a call of the logger with its extra fields; the logger itself, the
-- function and the summarizer are parameters. The clock is read at the start and at the end of a call.
pub mod Redaction
pub mod Records
pub mod Validation
mod Tests
use pydecorators.Prelude.{
  ℕ, zero, suc, ◌+◌, Bool, true, false, not, ◌&&◌, ◌||◌, Option, none, some, List, [], ◌∷◌, ◌++◌,
  map, String, ◌==◌, string_eq, leb, length, is_empty, if◌then◌else◌,
}
use pydecorators.Prelude.Int.{ℤ, ◌-ℤ◌}
use pydecorators.Prelude.Dict.{Dict}
use pydecorators.Prelude.Effect.{Outcome, returned, raised, Action}

-- `inspect.Parameter.kind`
pub data ParameterKind : Type 0 where
  positional_only : ParameterKind
  positional_or_keyword : ParameterKind
  var_positional : ParameterKind
  keyword_only : ParameterKind
  var_keyword : ParameterKind

-- `inspect.Parameter`
pub record Parameter : Type 0 where
  pub name : String
  pub kind : ParameterKind

-- `parameter.kind in {POSITIONAL_ONLY, POSITIONAL_OR_KEYWORD}`
abbrev pub is_positional : ParameterKind → Bool
is_positional positional_only = true
is_positional positional_or_keyword = true
is_positional _ = false

abbrev pub is_positional_only : ParameterKind → Bool
is_positional_only positional_only = true
is_positional_only _ = false

abbrev pub is_var_positional : ParameterKind → Bool
is_var_positional var_positional = true
is_var_positional _ = false

abbrev pub is_var_keyword : ParameterKind → Bool
is_var_keyword var_keyword = true
is_var_keyword _ = false

abbrev pub takes_keyword : ParameterKind → Bool
takes_keyword positional_or_keyword = true
takes_keyword keyword_only = true
takes_keyword _ = false

-- `name in names`
abbrev pub is_in : String → List String → Bool
is_in name [] = false
is_in name (n ∷ ns) = name == n || is_in name ns

-- `signature.bind_partial`, on the number of positional arguments and the names of the others: how many
-- values the variadic parameter gets, and the parameters that get no positional argument. `none` is a
-- `TypeError`.
abbrev pub bind_positional : List Parameter → ℕ → List String → Option (ℕ × List Parameter)
bind_positional ps zero names = some (0, ps)
bind_positional [] (suc n) names = none
bind_positional (p ∷ ps) (suc n) names =
    let rest = bind_positional ps n names in
    if is_var_positional p.kind
    then some (suc n, ps)
    else if not (is_positional p.kind)
    then none
    else if not (is_positional_only p.kind) && is_in p.name names
    then none
    else rest

abbrev pub accepts_keyword : String → List Parameter → Bool
accepts_keyword name [] = false
accepts_keyword name (p ∷ ps) =
    is_var_keyword p.kind || (takes_keyword p.kind && name == p.name) || accepts_keyword name ps

abbrev pub accepts_keywords : List String → List Parameter → Bool
accepts_keywords [] ps = true
accepts_keywords (name ∷ names) ps = accepts_keyword name ps && accepts_keywords names ps

abbrev pub bind_keywords : List String → Option (ℕ × List Parameter) → Option ℕ
bind_keywords names none = none
bind_keywords names (some (extra, ps)) = if accepts_keywords names ps then some extra else none

-- `signature.bind_partial(*args, **kwargs)`: how many values the variadic parameter gets.
unfoldable pub bind_partial : List Parameter → ℕ → List String → Option ℕ
bind_partial ps n names = bind_keywords names (bind_positional ps n names)

-- A value in a log record.
pub data Shown (V : Type 0) : Type 0 where
  shown : V → Shown V
  redacted : Shown V

module _ {V : Type 0} where
  -- `redacted_args[index] = "<redacted>"`
  abbrev pub redact_at : ℕ → List (Shown V) → List (Shown V)
  redact_at i [] = []
  redact_at zero (v ∷ vs) = redacted ∷ vs
  redact_at (suc i) (v ∷ vs) = v ∷ redact_at i vs

  -- the loop of `_redact_args`, from a parameter on; `extra` is how many values the variadic one has
  abbrev pub redact_loop : List String → ℕ → List Parameter → ℕ → List (Shown V) → List (Shown V)
  redact_loop names extra [] index args = args
  redact_loop names extra (p ∷ ps) index args =
      if is_var_positional p.kind
      then redact_loop names extra ps (index + extra) args
      else if not (is_positional p.kind)
      then redact_loop names extra ps index args
      else if leb (length args) index
      then args
      else redact_loop names extra ps (index + 1)
          (if is_in p.name names then redact_at index args else args)

  abbrev pub redact_bound : List String → List Parameter → Option ℕ → List V → List (Shown V)
  redact_bound names ps none args = map shown args
  redact_bound names ps (some extra) args = redact_loop names extra ps 0 (map shown args)

  -- `_redact_args`; of the other arguments it looks at the names.
  unfoldable pub redact_args : List V → List String → List String → List Parameter → List (Shown V)
  redact_args args kwarg_names names signature =
      if is_empty names || is_empty args
      then map shown args
      else redact_bound names signature (bind_partial signature (length args) kwarg_names) args

  -- `_redact_kwargs`
  abbrev pub redact_kwargs : Dict String V → List String → Dict String (Shown V)
  redact_kwargs [] names = []
  redact_kwargs ((name, value) ∷ kwargs) names =
      (name, (if is_in name names then redacted else shown value)) ∷ redact_kwargs kwargs names

-- A call of the logger, with its level; durations go into the message and the extra fields.
pub data Record (V O : Type 0) : Type 0 where
  started : (level : ℤ) → (name : String) → Record V O
  started_with :
      (level : ℤ)
      → (name : String) → (args : List (Shown V)) → (kwargs : Dict String (Shown V)) → Record V O
  finished : (level : ℤ) → (name : String) → (duration : ℤ) → Record V O
  finished_with_result : (level : ℤ) → (name : String) → (duration : ℤ) → (summary : O) → Record V O
  failed : (name : String) → (duration : ℤ) → Record V O

-- The arguments of `log_calls`, and what it takes from the decorated function.
pub record Config (W V O : Type 0) : Type 0 where
  pub level : ℤ
  pub include_args : Bool
  pub include_result : Bool
  pub redacted_names : List String
  pub summarize_result : Option (O → Action W O O)
  pub log_exceptions : Bool
  pub name : String
  pub signature : List Parameter
  pub func : List V × Dict String V → Action W O O
  pub is_exception : O → Bool  -- `isinstance(x, Exception)`, of what is raised

-- The world, and what was logged.
abbrev pub Logged : Type 0 → Type 0 → Type 0 → Type 0
Logged W V O = W × List (Record V O)

module _ {W V O : Type 0} (config : Config W V O) where
  abbrev pub emit : Record V O → Logged W V O → Logged W V O
  emit record_ (w, log) = (w, log ++ record_ ∷ [])

  -- `_log_started`
  unfoldable pub started_record : List V × Dict String V → Record V O
  started_record (args, kwargs) =
      if not config.include_args
      then started config.level config.name
      else started_with config.level config.name
          (redact_args args (map (λ kwarg. kwarg.0) kwargs) config.redacted_names config.signature)
          (redact_kwargs kwargs config.redacted_names)

  -- `_log_finished_without_result` and `_log_finished_with_result`
  abbrev pub log_finished_without_result : ℤ → Logged W V O → Logged W V O
  log_finished_without_result duration = emit (finished config.level config.name duration)

  abbrev pub log_finished_with_result : ℤ → O → Logged W V O → Logged W V O
  log_finished_with_result duration summary =
      emit (finished_with_result config.level config.name duration summary)

  -- the end of `_log_finished`, after the summary
  abbrev pub log_summary : ℤ → O → List (Record V O) → Outcome O O × W → Outcome O O × Logged W V O
  log_summary duration result log (returned summary, w) =
      (returned result, log_finished_with_result duration summary (w, log))
  log_summary duration result log (raised x, w) = (raised x, (w, log))

  abbrev pub summary_of : Option (O → Action W O O) → O → Action W O O
  summary_of none result w = (returned result, w)
  summary_of (some summarize) result w = summarize result w

  -- `_log_finished`, then the result
  abbrev pub log_finished : ℤ → O → Action (Logged W V O) O O
  log_finished duration result (w, log) =
      if not config.include_result
      then (returned result, log_finished_without_result duration (w, log))
      else log_summary duration result log (summary_of config.summarize_result result w)

  abbrev pub log_outcome : ℤ → List (Record V O) → Outcome O O × W → Outcome O O × Logged W V O
  log_outcome duration log (returned result, w) = log_finished duration result (w, log)
  log_outcome duration log (raised x, w) =
      if config.is_exception x && config.log_exceptions
      then (raised x, emit (failed config.name duration) (w, log))
      else (raised x, (w, log))

  -- `wrapper`
  unfoldable pub wrapper : (start end : ℤ) → List V × Dict String V → Action (Logged W V O) O O
  wrapper start end call (w, log) =
      log_outcome (end -ℤ start) (log ++ started_record call ∷ []) (config.func call w)
