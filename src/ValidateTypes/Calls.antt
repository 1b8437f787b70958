-- ===== src/ValidateTypes/Calls.antt =====
-- When the wrapper of `validate_types` runs the function, and when it returns.
use pydecorators.Prelude.{
  ◌≡◌, refl, ◌⊎◌, Bool, true, false, Option, none, some, List, [], ◌∷◌, String, All, inl, inr, sym,
  subst, ap, string_eq,
}
use pydecorators.Prelude.Dict.{Dict, lookup}
use pydecorators.Prelude.Effect.{Outcome, returned, raised, Action}
use pydecorators.Exceptions.{Exn, validation_error, foreign}
use pydecorators.ValidateTypes.{
  Annotation, Python, matches_type, verdict, check_argument, validate_bound_arguments, check_return,
  validate_return_value, return_checked, after_call, run_checked, wrapper,
}

module _ {C V : Type 0} (python : Python C V) where
  -- A value is accepted under a hint, if there is one.
  abbrev pub IsAccepted : (deep : Bool) → Option (Annotation C V) → V → Type 0
  IsAccepted deep none value = Unit
  IsAccepted deep (some expected) value = matches_type python deep expected value ≡ some true

  -- A value cannot be matched with a hint: `isinstance` raises a `TypeError`.
  abbrev pub IsUncheckable : (deep : Bool) → Option (Annotation C V) → V → Type 0
  IsUncheckable deep none value = ⊥
  IsUncheckable deep (some expected) value = matches_type python deep expected value ≡ none

  abbrev pub IsAcceptedArgument : Dict String (Annotation C V) → (deep : Bool) → String × V → Type 0
  IsAcceptedArgument hints deep argument = IsAccepted deep (lookup argument.0 hints) argument.1

  -- One of the arguments cannot be matched.
  abbrev pub HasUncheckable :
      Dict String (Annotation C V) → (deep : Bool) → List (String × V) → Type 0
  HasUncheckable hints deep [] = ⊥
  HasUncheckable hints deep (argument ∷ arguments) =
      IsUncheckable deep (lookup argument.0 hints) argument.1 ⊎ HasUncheckable hints deep arguments

  abbrev pub IsAcceptedResult :
      Dict String (Annotation C V) → (validate_return deep : Bool) → V → Type 0
  IsAcceptedResult hints false deep value = Unit
  IsAcceptedResult hints true deep value = IsAccepted deep (lookup "return" hints) value

  abbrev pub IsUncheckableResult :
      Dict String (Annotation C V) → (validate_return deep : Bool) → V → Type 0
  IsUncheckableResult hints false deep value = ⊥
  IsUncheckableResult hints true deep value = IsUncheckable deep (lookup "return" hints) value

some_ne : some false ≡ some true → ⊥
some_ne h = cc h

not_raising : (b : Bool) → Option.none ≡ some b → ⊥
not_raising b h = cc h

module _ {E : Type 0} (type_error : E) where
  -- A refusal is a `ValidationError`, or the `TypeError` where a value cannot be matched.
  abbrev pub IsRefused : {A : Type 0} → (Uncheckable : Type 0) → Outcome (Exn E) A → Type 0
  IsRefused Uncheckable outcome =
      ((text : String) × (outcome ≡ raised (validation_error text)))
      ⊎ (Uncheckable × (outcome ≡ raised (foreign type_error)))

  IsRefused-weaken :
      {A : Type 0} {T T' : Type 0} (outcome : Outcome (Exn E) A)
      → (T → T')
      → IsRefused T outcome
      → IsRefused T' outcome
  IsRefused-weaken outcome f (inl h) = inl h
  IsRefused-weaken outcome f (inr (t, h)) = inr (f t, h)

  -- A check passes exactly if `P` holds, and else refuses.
  abbrev IsChecked : Outcome (Exn E) (Unit {0}) → (P Uncheckable : Type 0) → Type 0
  IsChecked outcome P Uncheckable =
      ((outcome ≡ returned tt) × P) ⊎ ((P → ⊥) × IsRefused Uncheckable outcome)

  check_verdict :
      (v : Option Bool) (rest : Outcome (Exn E) (Unit {0})) (text : String) (P T : Type 0)
      → IsChecked rest P T
      → IsChecked
          (verdict type_error v rest (raised (validation_error text)))
          ((v ≡ some true) × P)
          ((v ≡ none) ⊎ T)
  check_verdict (some true) rest text P T (inl h) = inl (h.0, (refl, h.1))
  check_verdict (some true) rest text P T (inr h) =
      inr ((λ both. h.0 both.1), IsRefused-weaken rest inr h.1)
  check_verdict (some false) rest text P T h = inr ((λ both. some_ne both.0), inl (text, refl))
  check_verdict none rest text P T h = inr ((λ both. not_raising true both.0), inr (inl refl, refl))

  check_last :
      (v : Option Bool) (text : String)
      → IsChecked
          (verdict type_error v (returned tt) (raised (validation_error text)))
          (v ≡ some true)
          (v ≡ none)
  check_last (some true) text = inl (refl, refl)
  check_last (some false) text = inr (some_ne, inl (text, refl))
  check_last none text = inr (not_raising true, inr (refl, refl))

  return_checked-IsRefused :
      {V : Type 0} (T : Type 0) (value : V) (outcome : Outcome (Exn E) (Unit {0}))
      → IsRefused T outcome
      → IsRefused T (return_checked value outcome)
  return_checked-IsRefused T value outcome (inl (text, h)) = inl (text, ap (return_checked value) h)
  return_checked-IsRefused T value outcome (inr (t, h)) = inr (t, ap (return_checked value) h)

module _ {C V E : Type 0} (python : Python C V) (type_error : E) (function_name : String)
    (repr_name : String → String) (hints : Dict String (Annotation C V)) (deep : Bool) where
  check_argument-IsChecked :
      (name : String) (value : V) (hint : Option (Annotation C V))
      (rest : Outcome (Exn E) (Unit {0})) (P T : Type 0)
      → IsChecked type_error rest P T
      → IsChecked type_error
          (check_argument python type_error function_name repr_name hints deep name value hint rest)
          (IsAccepted python deep hint value × P)
          (IsUncheckable python deep hint value ⊎ T)
  check_argument-IsChecked name value none rest P T (inl h) = inl (h.0, (tt, h.1))
  check_argument-IsChecked name value none rest P T (inr h) =
      inr ((λ both. h.0 both.1), IsRefused-weaken type_error rest inr h.1)
  check_argument-IsChecked name value (some expected) rest P T h =
      check_verdict type_error (matches_type python deep expected value) rest _ P T h

  arguments-IsChecked :
      (arguments : List (String × V))
      → IsChecked type_error
          (validate_bound_arguments python type_error function_name repr_name hints deep arguments)
          (All (IsAcceptedArgument python hints deep) arguments)
          (HasUncheckable python hints deep arguments)
  arguments-IsChecked [] = inl (refl, tt)
  arguments-IsChecked ((name, value) ∷ arguments) =
      check_argument-IsChecked name value (lookup name hints) _ _ _ (arguments-IsChecked arguments)

  check_return-IsChecked :
      (value : V) (hint : Option (Annotation C V))
      → IsChecked type_error
          (check_return python type_error function_name repr_name hints deep value hint)
          (IsAccepted python deep hint value)
          (IsUncheckable python deep hint value)
  check_return-IsChecked value none = inl (refl, tt)
  check_return-IsChecked value (some expected) =
      check_last type_error (matches_type python deep expected value) _

  result-IsChecked :
      (validate_return : Bool) (value : V)
      → IsChecked type_error
          (validate_return_value python type_error function_name repr_name hints validate_return
            deep value)
          (IsAcceptedResult python hints validate_return deep value)
          (IsUncheckableResult python hints validate_return deep value)
  result-IsChecked false value = inl (refl, tt)
  result-IsChecked true value = check_return-IsChecked value (lookup "return" hints)

module _ {V W E : Type 0} (type_error : E) where
  -- The call is refused, in the world `w`.
  abbrev pub IsRefusedIn : (Uncheckable : Type 0) → W → Outcome (Exn E) V × W → Type 0
  IsRefusedIn Uncheckable w done = IsRefused type_error Uncheckable done.0 × (done.1 ≡ w)

  -- What a call gives, once the function has run: its exception, its result if that is accepted, or else
  -- a refusal; the world is as the function left it.
  abbrev pub IsReturn :
      (Accepted Uncheckable : V → Type 0) → Outcome E V × W → Outcome (Exn E) V × W → Type 0
  IsReturn Accepted Uncheckable (raised e, w) done = done ≡ (raised (foreign e), w)
  IsReturn Accepted Uncheckable (returned value, w) done =
      (Accepted value × (done ≡ (returned value, w)))
      ⊎ ((Accepted value → ⊥) × IsRefusedIn (Uncheckable value) w done)

  -- The function runs exactly if the arguments are accepted.
  abbrev pub IsGuarded :
      (Arguments UncheckableArguments : Type 0) (Accepted Uncheckable : V → Type 0)
      → Action W E V
      → W
      → Outcome (Exn E) V × W
      → Type 0
  IsGuarded Arguments UncheckableArguments Accepted Uncheckable func w done =
      (Arguments × IsReturn Accepted Uncheckable (func w) done)
      ⊎ ((Arguments → ⊥) × IsRefusedIn UncheckableArguments w done)

  after_call-IsReturn :
      (Accepted Uncheckable : V → Type 0) (check : V → Outcome (Exn E) (Unit {0}))
      (ran : Outcome E V × W)
      → ((value : V) → IsChecked type_error (check value) (Accepted value) (Uncheckable value))
      → IsReturn Accepted Uncheckable ran (after_call check ran)
  after_call-IsReturn Accepted Uncheckable check (raised e, w) h = refl
  after_call-IsReturn Accepted Uncheckable check (returned value, w) h = elim (h value) [
    | inl (passed, accepted) ↦ inl (accepted, ap (λ r. (return_checked value r, w)) passed)
    | inr (rejected, refused) ↦
        inr (rejected, (return_checked-IsRefused type_error _ value (check value) refused, refl))
  ]

  run_checked-IsRefusedIn :
      (T : Type 0) (check : V → Outcome (Exn E) (Unit {0})) (func : Action W E V) (w : W)
      (outcome : Outcome (Exn E) (Unit {0}))
      → IsRefused type_error T outcome
      → IsRefusedIn T w (run_checked check func outcome w)
  run_checked-IsRefusedIn T check func w outcome (inl (text, h)) = rw h (inl (text, refl), refl)
  run_checked-IsRefusedIn T check func w outcome (inr (t, h)) = rw h (inr (t, refl), refl)

module _ {C V W E : Type 0} (python : Python C V) (type_error : E) where
  -- Whatever the annotations are, the wrapper runs the function exactly if every argument that has a
  -- hint matches it, and else changes nothing and raises a `ValidationError`, or the `TypeError` of
  -- `isinstance`, if that refuses the hint of an argument. Once the function has run, its exception is
  -- passed on, and its result is returned exactly if the return value is not to be validated, has no
  -- hint, or matches it; otherwise a `ValidationError` is raised, or the `TypeError`, if `isinstance`
  -- refuses the hint of the return value.
  pub wrapper-IsGuarded :
      (function_name : String) (repr_name : String → String) (hints : Dict String (Annotation C V))
      (validate_return deep : Bool) (arguments : List (String × V)) (func : Action W E V) (w : W)
      → IsGuarded type_error
          (All (IsAcceptedArgument python hints deep) arguments)
          (HasUncheckable python hints deep arguments)
          (IsAcceptedResult python hints validate_return deep)
          (IsUncheckableResult python hints validate_return deep)
          func
          w
          (wrapper python type_error function_name repr_name hints validate_return deep arguments
            func w)
  unfolding wrapper
  wrapper-IsGuarded function_name repr_name hints validate_return deep arguments func w =
      let check =
        validate_return_value python type_error function_name repr_name hints validate_return
          deep in
      let Accepted = IsAcceptedResult python hints validate_return deep in
      let Uncheckable = IsUncheckableResult python hints validate_return deep in
      elim (arguments-IsChecked python type_error function_name repr_name hints deep arguments) [
        | inl (passed, accepted) ↦ inl (
          accepted,
          subst (IsReturn type_error Accepted Uncheckable (func w))
              (sym (ap (λ r. run_checked check func r w) passed))
              (after_call-IsReturn type_error Accepted Uncheckable check (func w) (
                result-IsChecked python type_error function_name repr_name hints deep
                  validate_return)),
        )
        | inr (rejected, refused) ↦
            inr (rejected, run_checked-IsRefusedIn type_error _ check func w _ refused)
      ]
