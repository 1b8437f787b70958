-- ===== src/RequireEnv/Checks.antt =====
-- When the wrapper of `require_env` runs the function, and which variable it complains about.
use pydecorators.Prelude.{
  ◌≡◌, refl, ◌⊎◌, inl, inr, ◌≢◌, Bool, true, false, not, ◌&&◌, Option, none, some, List, [], ◌∷◌,
  String, All, ◌==◌, string_eq, if◌then◌else◌, ap, ◌∙◌, ==_iff,
}
use pydecorators.Prelude.Dict.{Dict, lookup}
use pydecorators.Prelude.Effect.{Outcome, returned, raised, Action}
use pydecorators.Exceptions.{Exn, env_requirement_error}
use pydecorators.RequireEnv.{
  Verdict, fails, is_false, is_other, EnvValidator, Config, on_verdict, check_validator,
  check_variable, check_environment, passed_on, run_if, wrapper,
}

-- A validator accepts a value: it neither raises nor returns `False`.
abbrev pub IsAcceptedBy : String → Option EnvValidator → Type 0
IsAcceptedBy value none = Unit
IsAcceptedBy value (some validator) = validator value ≡ is_other

-- A variable is set, not empty where that matters, and its validator accepts it.
abbrev pub IsMetBy : Config → String → Option String → Type 0
IsMetBy config name none = ⊥
IsMetBy config name (some value) =
    ((config.allow_empty ≡ true) ⊎ (value ≢ ""))
    × IsAcceptedBy value (lookup name config.validators)

abbrev pub IsMet : Config → Dict String String → String → Type 0
IsMet config source name = IsMetBy config name (lookup name source)

-- The first of some variables that is not met.
abbrev pub IsFirstUnmet : Config → Dict String String → List String → String → Type 0
IsFirstUnmet config source [] name = ⊥
IsFirstUnmet config source (first ∷ names) name =
    ((name ≡ first) × (IsMet config source first → ⊥))
    ⊎ (IsMet config source first × IsFirstUnmet config source names name)

module _ {E : Type 0} (config : Config) (source : Dict String String) where
  abbrev IsJudged : List String → Outcome (Exn E) (Unit {0}) → Type 0
  IsJudged names outcome =
      (All (IsMet config source) names × (outcome ≡ returned tt))
      ⊎ ((name : String) × (reason : String) × IsFirstUnmet config source names name
          × (outcome ≡ raised (env_requirement_error name reason)))

  -- One variable: it is met and the rest decides, or it is not and the check ends.
  abbrev IsStep : String → Type 0 → Outcome (Exn E) (Unit {0}) → Outcome (Exn E) (Unit {0}) → Type 0
  IsStep name Met outcome rest =
      (Met × (outcome ≡ rest))
      ⊎ ((Met → ⊥) × ((reason : String) × (outcome ≡ raised (env_requirement_error name reason))))

  verdict-IsStep :
      (name : String) (v : Verdict) (rest : Outcome (Exn E) (Unit {0}))
      → IsStep name (v ≡ is_other) (on_verdict name v rest) rest
  verdict-IsStep name fails rest = inr ((λ h. cc h), ("failed validation", refl))
  verdict-IsStep name is_false rest = inr ((λ h. cc h), ("failed validation", refl))
  verdict-IsStep name is_other rest = inl (refl, refl)

  validator-IsStep :
      (name value : String) (v : Option EnvValidator) (rest : Outcome (Exn E) (Unit {0}))
      → IsStep name (IsAcceptedBy value v) (check_validator name value v rest) rest
  validator-IsStep name value none rest = inl (tt, refl)
  validator-IsStep name value (some validator) rest = verdict-IsStep name (validator value) rest

  emptiness-IsStep :
      (name : String) (allowed : Bool) (value : String) (is_blank : Bool) (Accepted : Type 0)
      (checked rest : Outcome (Exn E) (Unit {0}))
      → (is_blank ≡ true → value ≡ "")
      → (is_blank ≡ false → value ≢ "")
      → IsStep name Accepted checked rest
      → IsStep name
          (((allowed ≡ true) ⊎ (value ≢ "")) × Accepted)
          (if not allowed && is_blank
            then raised (env_requirement_error name "must not be empty")
            else checked)
          rest
  emptiness-IsStep name true value b Accepted checked rest f g (inl h) = inl ((inl refl, h.0), h.1)
  emptiness-IsStep name true value b Accepted checked rest f g (inr h) =
      inr ((λ both. h.0 both.1), h.1)
  emptiness-IsStep name false value true Accepted checked rest f g h =
      inr
        ((λ both. elim both.0 [ inl e ↦ cc e | inr ne ↦ ne (f refl) ]), ("must not be empty", refl))
  emptiness-IsStep name false value false Accepted checked rest f g (inl h) =
      inl ((inr (g refl), h.0), h.1)
  emptiness-IsStep name false value false Accepted checked rest f g (inr h) =
      inr ((λ both. h.0 both.1), h.1)

  variable-IsStep :
      (name : String) (found : Option String) (rest : Outcome (Exn E) (Unit {0}))
      → IsStep name (IsMetBy config name found) (check_variable config name found rest) rest
  variable-IsStep name none rest = inr ((λ h. h), (_, refl))
  variable-IsStep name (some value) rest =
      emptiness-IsStep name config.allow_empty value (value == "")
        (IsAcceptedBy value (lookup name config.validators)) _ rest (λ h. (==_iff value "").0 h)
        (λ h same. cc (h, (==_iff value "").1 same))
        (validator-IsStep name value (lookup name config.validators) rest)

  check_environment-IsJudged :
      (names : List String) → IsJudged names (check_environment {E = E} config source names)
  check_environment-IsJudged [] = inl (tt, refl)
  check_environment-IsJudged (first ∷ names) =
      elim (variable-IsStep first (lookup first source) (check_environment config source names)) [
        | inl (met, same) ↦ elim (check_environment-IsJudged names) [
          | inl (all_met, passed) ↦ inl ((met, all_met), same ∙ passed)
          | inr (name, reason, unmet, failed) ↦ inr (name, reason, inr (met, unmet), same ∙ failed)
        ]
        | inr (not_met, (reason, failed)) ↦ inr (first, reason, inl (refl, not_met), failed)
      ]

module _ {A W E : Type 0} where
  -- The function runs, or a named variable is reported and nothing is run.
  abbrev pub IsRequired :
      Config → Dict String String → Action W E A → W → Outcome (Exn E) A × W → Type 0
  IsRequired config source func w done =
      (All (IsMet config source) config.requirements × (done ≡ passed_on (func w)))
      ⊎ ((name : String) × (reason : String) × IsFirstUnmet config source config.requirements name
          × (done ≡ (raised (env_requirement_error name reason), w)))

  -- Either every required variable is set, not empty where emptiness is not allowed, and accepted by its
  -- validator, and the wrapper does what the function does; or the wrapper raises an
  -- `EnvRequirementError` for the first variable for which this is not so, and does not run the function.
  pub wrapper-IsRequired :
      (config : Config) (source : Dict String String) (func : Action W E A) (w : W)
      → IsRequired config source func w (wrapper config source func w)
  unfolding wrapper
  wrapper-IsRequired config source func w =
      elim (check_environment-IsJudged {E = E} config source config.requirements) [
        | inl (met, passed) ↦ inl (met, ap (λ r. run_if r func w) passed)
        | inr (name, reason, unmet, failed) ↦
            inr (name, reason, unmet, ap (λ r. run_if r func w) failed)
      ]
